-- ===== src/Patch/Atomic.antt =====
-- One entry of a patch in libpaf/src/libpaf_patch.c: the file it names is replaced by bytes with the
-- right hash, or left as it was.
use paf_archive.Prelude.{
  ◌≡◌, refl, ap, sym, ◌∙◌, Bool, true, false, ◌++◌, take, Option, none, some, ◌⊎◌, inl, inr,
  Bool-cases, if-cases, if◌then◌else◌,
}
use paf_archive.Words.{Bytes}
use paf_archive.Stdio.{Machine, Stream, bytes_eq→eq}
use paf_archive.Format.{PafIndexEntry, paf_entry_deleted, paf_entry_binary_delta}
use paf_archive.Reader.{read_data}
use paf_archive.Sha256.{paf_sha256_generic}
use paf_archive.BinaryDelta.{paf_bdelta_apply}
use paf_archive.Disk.{
  Disk, Access, write_file, make_folders, is_file, remove_file, unlink, rename, rename_opened,
  Within, Within-refl, Within-trans, Within-weaken, write_file-Within, unlink-Within,
  remove_file-Within, files-write_file_here, files-remove_file_here,
}
use paf_archive.Patch.{make_parent_dirs, hash_file}
use paf_archive.Patch.Copying.{hash_file-some}
use paf_archive.Patch.Staging.{
  stage_suffix, has_flag, keep_stage, stage_normal, stage_applied, stage_read, stage_delta,
  hash_matches, renamed, install, patch_to,
}

-- Only the file `stage` has changed.
abbrev pub OnlyStage : Bytes → Disk → Disk → Type 0
OnlyStage stage = Within (λ (q : Bytes). q ≡ stage)

abbrev pub StageOrFile : Bytes → Bytes → Disk → Disk → Type 0
StageOrFile stage dst = Within (λ (q : Bytes). (q ≡ stage) ⊎ (q ≡ dst))

module _ (a : Access) (stage : Bytes) where
  keep_stage-OnlyStage :
      (done : Bool) (fp : Stream) (d : Disk) → OnlyStage stage d (keep_stage a stage done fp d).2
  unfolding keep_stage
  keep_stage-OnlyStage true fp d = Within-refl _ d
  keep_stage-OnlyStage false fp d = unlink-Within _ a stage d refl

  -- The staging file is written, and kept or removed.
  write_stage-OnlyStage :
      (done : Bool) (fp : Stream) (out : Bytes) (d : Disk)
      → OnlyStage stage d (keep_stage a stage done fp (write_file d stage out)).2
  write_stage-OnlyStage done fp out d =
      Within-trans _ d (write_file d stage out)
        (keep_stage a stage done fp (write_file d stage out)).2
        (write_file-Within _ d stage out refl)
        (keep_stage-OnlyStage done fp (write_file d stage out))

  stage_normal-OnlyStage :
      (e : PafIndexEntry) (fp : Stream) (d : Disk)
      → OnlyStage stage d (stage_normal a e stage fp d).2
  unfolding stage_normal
  stage_normal-OnlyStage e fp d = elim (Bool-cases (a.writable stage)) [
    | inl w ↦ rw w (write_stage-OnlyStage _ _ _ d)
    | inr w ↦ rw w (Within-refl _ d)
  ]

  stage_applied-OnlyStage :
      (r : Option (Bool × Bytes)) (fp : Stream) (d : Disk)
      → OnlyStage stage d (stage_applied a stage r fp d).2
  unfolding stage_applied
  stage_applied-OnlyStage none fp d = keep_stage-OnlyStage false fp d
  stage_applied-OnlyStage (some (done, out)) fp d = elim (Bool-cases (a.writable stage)) [
    | inl w ↦ rw w (write_stage-OnlyStage done fp out d)
    | inr w ↦ rw w (keep_stage-OnlyStage false fp d)
  ]

  stage_read-OnlyStage :
      (m : Machine) (dst : Bytes) (delta : Option Bytes) (fp : Stream) (d : Disk)
      → OnlyStage stage d (stage_read m a dst stage delta fp d).2
  unfolding stage_read
  stage_read-OnlyStage m dst none fp d = Within-refl _ d
  stage_read-OnlyStage m dst (some delta) fp d =
      stage_applied-OnlyStage (paf_bdelta_apply m delta (d.files dst)) fp d

  stage_delta-OnlyStage :
      (m : Machine) (e : PafIndexEntry) (dst : Bytes) (fp : Stream) (d : Disk)
      → OnlyStage stage d (stage_delta m a e dst stage fp d).2
  unfolding stage_delta
  stage_delta-OnlyStage m e dst fp d = elim (Bool-cases (m.malloc e.data_size)) [
    | inl w ↦ rw w (stage_read-OnlyStage m dst (read_data fp e).0 (read_data fp e).1 d)
    | inr w ↦ rw w (Within-refl _ d)
  ]

-- The bytes have the hash of the entry.
abbrev pub HasHash : Bytes → PafIndexEntry → Bytes → Type 0
HasHash stack e content = paf_sha256_generic stack content ≡ take 32 e.hash

-- An error was counted and only the staging file has changed, or the file was replaced.
abbrev pub Installed : Bytes → PafIndexEntry → Bytes → Bytes → Disk → Bool × Stream × Disk → Type 0
Installed stack e dst stage d r =
    ((r.0 ≡ false) × OnlyStage stage d r.2)
    ⊎ ((r.0 ≡ true)
        × ((content : Bytes) × (r.2.files dst ≡ some content) × HasHash stack e content)
        × StageOrFile stage dst d r.2)

module _ (a : Access) (stack : Bytes) (e : PafIndexEntry) (dst stage : Bytes) where
  hash_matches-HasHash :
      (o : Option Bytes)
      → hash_matches e (hash_file stack o) ≡ true
      → (content : Bytes) × (o ≡ some content) × HasHash stack e content
  unfolding hash_file
  hash_matches-HasHash none h = absurd (cc)
  hash_matches-HasHash (some b) h = (
    b,
    refl,
    bytes_eq→eq (paf_sha256_generic stack b) (take 32 e.hash)
        (sym (ap (hash_matches e) (hash_file-some stack b)) ∙ h),
  )

  -- The rename puts the staged bytes in place, or the staging file is removed.
  rename-Installed :
      (fp : Stream) (d : Disk) (content : Bytes)
      → d.files stage ≡ some content
      → HasHash stack e content
      → Installed stack e dst stage d (
        (renamed a stage (rename a stage dst d)).0,
        fp,
        (renamed a stage (rename a stage dst d)).1,
      )
  unfolding renamed rename rename_opened
  rename-Installed fp d content at h = elim (Bool-cases (a.movable stage dst)) [
    | inl w ↦
        rw (at, w)
          (inr (
            refl,
            (content, files-write_file_here (remove_file d stage) dst content, h),
            Within-trans _ d (remove_file d stage) (write_file (remove_file d stage) dst content)
                (remove_file-Within _ d stage (inl refl))
                (write_file-Within _ (remove_file d stage) dst content (inr refl)),
          ))
    | inr w ↦ rw (at, w) (inl (refl, unlink-Within _ a stage d refl))
  ]

  abbrev moved : Stream → Disk → Bool × Stream × Disk
  moved fp d =
      ((renamed a stage (rename a stage dst d)).0, fp, (renamed a stage (rename a stage dst d)).1)

  abbrev removed : Stream → Disk → Bool × Stream × Disk
  removed fp d = (false, fp, (unlink a stage d).1)

  checked-Installed :
      (fp : Stream) (d : Disk)
      → Installed stack e dst stage d
          (if hash_matches e (hash_file stack (d.files stage)) then moved fp d else removed fp d)
  checked-Installed fp d =
      if-cases (Installed stack e dst stage d) (hash_matches e (hash_file stack (d.files stage)))
        (λ h.
          let (content, at, good) = hash_matches-HasHash (d.files stage) h in
          rename-Installed fp d content at good)
        (λ h. inl (refl, unlink-Within _ a stage d refl))

  -- What the staging did before stays with what the rename does.
  Installed-after :
      (d d' : Disk) (r : Bool × Stream × Disk)
      → OnlyStage stage d d'
      → Installed stack e dst stage d' r
      → Installed stack e dst stage d r
  Installed-after d d' r staged (inl (no_done, w)) = inl (no_done, Within-trans _ d d' r.2 staged w)
  Installed-after d d' r staged (inr (done, c, w)) =
      inr (done, c, Within-trans _ d d' r.2 (Within-weaken _ _ d d' (λ q p. inl p) staged) w)

  install-Installed :
      (d : Disk) (r : Bool × Stream × Disk)
      → OnlyStage stage d r.2
      → Installed stack e dst stage d (install a stack e dst stage r)
  unfolding install
  install-Installed d (false, fp, d') staged = inl (refl, staged)
  install-Installed d (true, fp, d') staged =
      Installed-after d d'
        (if hash_matches e (hash_file stack (d'.files stage)) then moved fp d' else removed fp d')
        staged (checked-Installed fp d')

-- What an entry asks for: no file where it is marked DELETED, else a file with its hash.
abbrev pub Asked : Bytes → PafIndexEntry → Option Bytes → Type 0
Asked stack e file =
    ((has_flag e.flags paf_entry_deleted ≡ true) × (file ≡ none))
    ⊎ ((has_flag e.flags paf_entry_deleted ≡ false)
        × ((content : Bytes) × (file ≡ some content) × HasHash stack e content))

-- The entry failed and at most its staging file has changed, or its file is what it asks for.
abbrev pub Patched : Bytes → PafIndexEntry → Bytes → Disk → Bool × Stream × Disk → Type 0
Patched stack e dst d r =
    ((r.0 ≡ false) × OnlyStage (dst ++ stage_suffix) d r.2)
    ⊎ ((r.0 ≡ true) × Asked stack e (r.2.files dst) × StageOrFile (dst ++ stage_suffix) dst d r.2)

module _ (m : Machine) (a : Access) (stack : Bytes) (e : PafIndexEntry) (dst : Bytes) where
  unlink-Patched :
      (fp : Stream) (d : Disk)
      → has_flag e.flags paf_entry_deleted ≡ true
      → Patched stack e dst d ((unlink a dst d).0, fp, (unlink a dst d).1)
  unfolding unlink
  unlink-Patched fp d flag =
      elim (Bool-cases (if is_file (d.files dst) then a.removable dst else false)) [
        | inl h ↦ rw h (
            inr (
              refl,
              inl (flag, files-remove_file_here d dst),
              remove_file-Within _ d dst (inr refl),
            ))
        | inr h ↦ rw h (inl (refl, Within-refl _ d))
      ]

  made : Disk → Disk
  made d = make_parent_dirs (dst ++ stage_suffix) d

  made-OnlyStage : (d : Disk) → OnlyStage (dst ++ stage_suffix) d (made d)
  unfolding made make_parent_dirs make_folders
  made-OnlyStage d q = inl refl

  staged : Bool → Stream → Disk → Bool × Stream × Disk
  staged b fp d =
      if b
      then stage_delta m a e dst (dst ++ stage_suffix) fp (made d)
      else stage_normal a e (dst ++ stage_suffix) fp (made d)

  staged-OnlyStage :
      (b : Bool) (fp : Stream) (d : Disk) → OnlyStage (dst ++ stage_suffix) d (staged b fp d).2
  unfolding staged
  staged-OnlyStage true fp d =
      Within-trans _ d (made d) (staged true fp d).2 (made-OnlyStage d)
        (stage_delta-OnlyStage a (dst ++ stage_suffix) m e dst fp (made d))
  staged-OnlyStage false fp d =
      Within-trans _ d (made d) (staged false fp d).2 (made-OnlyStage d)
        (stage_normal-OnlyStage a (dst ++ stage_suffix) e fp (made d))

  Installed-Patched :
      (d : Disk) (r : Bool × Stream × Disk)
      → has_flag e.flags paf_entry_deleted ≡ false
      → Installed stack e dst (dst ++ stage_suffix) d r
      → Patched stack e dst d r
  Installed-Patched d r flag (inl p) = inl p
  Installed-Patched d r flag (inr (done, c, w)) = inr (done, inr (flag, c), w)

  -- Whatever the archive holds and whatever fails, an entry is carried out or counted as an error.
  -- Carried out, its file is gone (DELETED) or has the hash that the entry states; counted as an
  -- error, its file is as it was. No other file changes but the staging file beside it.
  pub patch_to-Patched :
      (fp : Stream) (d : Disk) → Patched stack e dst d (patch_to m a stack e dst fp d)
  unfolding patch_to made staged
  patch_to-Patched fp d =
      let stage = dst ++ stage_suffix in
      let r = staged (has_flag e.flags paf_entry_binary_delta) fp d in
      if-cases (Patched stack e dst d) (has_flag e.flags paf_entry_deleted) (unlink-Patched fp d)
        (λ flag. Installed-Patched d (install a stack e dst stage r) flag (
          install-Installed a stack e dst stage d r
            (staged-OnlyStage (has_flag e.flags paf_entry_binary_delta) fp d)))
