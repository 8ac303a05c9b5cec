-- ===== src/Patch/Success.antt =====
-- One entry of a patch in libpaf/src/libpaf_patch.c that nothing stands in the way of.
use paf_archive.Prelude.{
  ℕ, ◌+◌, ◌≡◌, ◌≢◌, refl, ap, ap₂, sym, ◌∙◌, arith, Bool, true, false, [], ◌++◌, length, take, leb,
  le→leb, Option, none, some, ◌⊎◌, inl, inr, length-append, take-append,
}
use paf_archive.Words.{Bytes}
use paf_archive.Stdio.{Machine, Stream, bytes_eq, bytes_eq_refl}
use paf_archive.Format.{PafIndexEntry, paf_entry_deleted, paf_entry_binary_delta}
use paf_archive.Reader.{read_data}
use paf_archive.BinaryDelta.{paf_bdelta_apply}
use paf_archive.Disk.{
  Disk, Access, is_file, unlink, write_file, make_folders, remove_file, rename, rename_opened,
  files-write_file_here, files-write_file_other, files-remove_file_here, files-remove_file_other,
}
use paf_archive.Extract.{at_data}
use paf_archive.Patch.{make_parent_dirs, hash_file}
use paf_archive.Patch.Copying.{left, hash_file-some, stage_loop-Copies}
use paf_archive.Patch.Atomic.{HasHash}
use paf_archive.Patch.Staging.{
  stage_suffix, has_flag, stage_loop, keep_stage, stage_normal, stage_applied, stage_read,
  stage_delta, hash_matches, renamed, install, patch_to,
}

-- Every file may be written, removed and renamed.
pub record AllAllowed (a : Access) : Type 0 where
  pub write : (q : Bytes) → a.writable q ≡ true
  pub remove : (q : Bytes) → a.removable q ≡ true
  pub move : (q q' : Bytes) → a.movable q q' ≡ true

-- It succeeded and left this disk.
abbrev Leaves : Bool × Stream × Disk → Disk → Type 0
Leaves r d = (r.0 ≡ true) × (r.2 ≡ d)

module _ (m : Machine) (a : Access) (free : AllAllowed a) (memory : (n : ℕ) → m.malloc n ≡ true)
    (e : PafIndexEntry) (stage : Bytes) where
  keep_stage-Leaves :
      (done : Bool) (fp : Stream) (d : Disk) → done ≡ true → Leaves (keep_stage a stage done fp d) d
  unfolding keep_stage
  keep_stage-Leaves true fp d h = (refl, refl)
  keep_stage-Leaves false fp d h = absurd (cc)

  -- The data of the entry is staged.
  stage_normal-Leaves :
      (payload rest : Bytes) (fp : Stream) (d : Disk)
      → left (at_data fp e) ≡ payload ++ rest
      → e.data_size ≡ length payload
      → Leaves (stage_normal a e stage fp d) (write_file d stage payload)
  unfolding stage_normal
  stage_normal-Leaves payload rest fp d here size =
      let fp1 = at_data fp e in
      let r = stage_loop (e.data_size + 1) fp1 e.data_size [] in
      let (io_ok, out) = stage_loop-Copies (e.data_size + 1) fp1 e.data_size [] (omega arith) in
      let enough : leb e.data_size (length (left fp1)) ≡ true =
        le→leb e.data_size (length (left fp1))
          (omega (arith, size, ap length here, length-append payload rest)) in
      let copied : r.1 ≡ payload =
        out
        ∙ ap₂ (λ (n : ℕ) (s : Bytes). take n s) size here
        ∙ take-append (length payload) payload rest refl in
      let (done, kept) = keep_stage-Leaves r.0 r.2 (write_file d stage r.1) (io_ok ∙ enough) in
      rw (free.write stage) (done, kept ∙ ap (write_file d stage) copied)

  -- The delta of the entry is applied to the file at `dst`.
  stage_delta-Leaves :
      (dst delta out : Bytes) (fp : Stream) (d : Disk)
      → (read_data fp e).0 ≡ some delta
      → paf_bdelta_apply m delta (d.files dst) ≡ some (true, out)
      → Leaves (stage_delta m a e dst stage fp d) (write_file d stage out)
  unfolding stage_delta stage_read stage_applied
  stage_delta-Leaves dst delta out fp d read applied =
      rw (memory e.data_size, read, applied, free.write stage)
        (keep_stage-Leaves true (read_data fp e).1 (write_file d stage out) refl)

  -- The staged bytes take the place of the file.
  install-Leaves :
      (stack dst out : Bytes) (d : Disk) (r : Bool × Stream × Disk)
      → Leaves r (write_file d stage out)
      → HasHash stack e out
      → Leaves
          (install a stack e dst stage r)
          (write_file (remove_file (write_file d stage out) stage) dst out)
  unfolding install renamed rename rename_opened
  install-Leaves stack dst out d (false, fp, d') (done, same) hash = absurd (cc)
  install-Leaves stack dst out d (true, fp, d') (done, same) hash =
      let there : d'.files stage ≡ some out =
        ap (λ (x : Disk). x.files stage) same ∙ files-write_file_here d stage out in
      let good : hash_matches e (hash_file stack (some out)) ≡ true =
        ap (hash_matches e) (hash_file-some stack out)
        ∙ ap (λ (h : Bytes). bytes_eq h (take 32 e.hash)) hash
        ∙ bytes_eq_refl (take 32 e.hash) in
      rw (there, good, free.move stage dst)
        (refl, ap (λ (x : Disk). write_file (remove_file x stage) dst out) same)

-- An entry with its data takes a file to `goal`: it deletes one that is there, or its hash is that of
-- its data, or of what its delta makes of the file.
abbrev pub Carries : Machine → Bytes → PafIndexEntry → Bytes → Option Bytes → Option Bytes → Type 0
Carries m stack e payload file goal =
    ((has_flag e.flags paf_entry_deleted ≡ true) × (is_file file ≡ true) × (goal ≡ none))
    ⊎ ((has_flag e.flags paf_entry_deleted ≡ false)
        × ((out : Bytes) × (goal ≡ some out)
            × HasHash stack e out
            × (((has_flag e.flags paf_entry_binary_delta ≡ false) × (out ≡ payload))
                ⊎ ((has_flag e.flags paf_entry_binary_delta ≡ true)
                    × (paf_bdelta_apply m payload file ≡ some (true, out))))))

-- The file is as it should be, and no other has changed but the staging file.
abbrev pub Applied : Disk → Bytes → Option Bytes → Bool × Stream × Disk → Type 0
Applied d dst goal r =
    (r.0 ≡ true)
    × (r.2.files dst ≡ goal)
    × ((q : Bytes) → q ≢ dst → q ≢ dst ++ stage_suffix → r.2.files q ≡ d.files q)

Leaves-Applied :
    (d d' : Disk) (dst out : Bytes) (r : Bool × Stream × Disk)
    → d'.files ≡ d.files
    → Leaves r (
        write_file
          (remove_file (write_file d' (dst ++ stage_suffix) out) (dst ++ stage_suffix))
          dst
          out)
    → Applied d dst (some out) r
Leaves-Applied d d' dst out r made (done, same) =
    let stage = dst ++ stage_suffix in
    let staged = write_file d' stage out in
    (
      done,
      ap (λ (x : Disk). x.files dst) same
          ∙ files-write_file_here (remove_file staged stage) dst out,
      λ q not_dst not_stage.
          ap (λ (x : Disk). x.files q) same
          ∙ files-write_file_other (remove_file staged stage) dst out q not_dst
          ∙ files-remove_file_other staged stage q not_stage
          ∙ files-write_file_other d' stage out q not_stage
          ∙ ap (λ (fs : Bytes → Option Bytes). fs q) made,
    )

module _ (m : Machine) (a : Access) (free : AllAllowed a) (memory : (n : ℕ) → m.malloc n ≡ true)
    (stack : Bytes) (e : PafIndexEntry) (dst : Bytes) where
  deleted-Applied :
      (fp : Stream) (d : Disk)
      → is_file (d.files dst) ≡ true
      → Applied d dst none ((unlink a dst d).0, fp, (unlink a dst d).1)
  unfolding unlink
  deleted-Applied fp d there =
      rw (there, free.remove dst)
        (
          refl,
          files-remove_file_here d dst,
          λ q not_dst not_stage. files-remove_file_other d dst q not_dst,
        )

  -- With all allowed and memory, an entry whose data carries the file to `goal` does so.
  pub patch_to-Applied :
      (payload rest : Bytes) (goal : Option Bytes) (fp : Stream) (d : Disk)
      → left (at_data fp e) ≡ payload ++ rest
      → (read_data fp e).0 ≡ some payload
      → e.data_size ≡ length payload
      → Carries m stack e payload (d.files dst) goal
      → Applied d dst goal (patch_to m a stack e dst fp d)
  unfolding patch_to make_parent_dirs make_folders
  patch_to-Applied payload rest goal fp d here read size (inl (flag, there, gone)) =
      rw (flag, gone) (deleted-Applied fp d there)
  patch_to-Applied payload rest goal fp d here read size
        (inr (flag, (out, is_out, hash, inl (binary, whole)))) =
      let stage = dst ++ stage_suffix in
      let made = make_parent_dirs stage d in
      let staged = stage_normal-Leaves m a free memory e stage payload rest fp made here size in
      rw (flag, binary, is_out, whole)
        (Leaves-Applied d made dst payload
          (install a stack e dst stage (stage_normal a e stage fp made)) refl
          (install-Leaves m a free memory e stage stack dst payload made
            (stage_normal a e stage fp made) staged (rw (sym whole) hash)))
  patch_to-Applied payload rest goal fp d here read size
        (inr (flag, (out, is_out, hash, inr (binary, applied)))) =
      let stage = dst ++ stage_suffix in
      let made = make_parent_dirs stage d in
      let staged =
        stage_delta-Leaves m a free memory e stage dst payload out fp made read applied in
      rw (flag, binary, is_out)
        (Leaves-Applied d made dst out
          (install a stack e dst stage (stage_delta m a e dst stage fp made)) refl
          (install-Leaves m a free memory e stage stack dst out made
            (stage_delta m a e dst stage fp made) staged hash))
