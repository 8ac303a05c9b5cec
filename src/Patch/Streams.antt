-- ===== src/Patch/Streams.antt =====
-- The stream of the patch in libpaf/src/libpaf_patch.c: an entry moves its position and no more.
use paf_archive.Prelude.{
  ℕ, zero, suc, ◌+◌, ◌-◌, ◌≡◌, refl, ◌∙◌, Bool, true, false, [], ◌++◌, length, min, Option, none,
  some, if-cases, leb, ◌==◌, ◌||◌,
}
use paf_archive.Words.{Bytes}
use paf_archive.Stdio.{Machine, Stream, fread, content-fseek, content-fread}
use paf_archive.Format.{PafHeader, PafIndexEntry, paf_entry_deleted, paf_entry_binary_delta}
use paf_archive.Reader.{read_data}
use paf_archive.Reader.Archive.{content-read_data}
use paf_archive.BinaryDelta.{paf_bdelta_apply}
use paf_archive.Disk.{Disk, Access}
use paf_archive.Extract.{at_data}
use paf_archive.Patch.{make_parent_dirs, joined, hash_file}
use paf_archive.Patch.Staging.{
  stage_suffix, has_flag, read_rel_path, stage_loop, keep_stage, stage_normal, stage_applied,
  stage_read, stage_delta, hash_matches, install, patch_to, usable, patch_path, patch_entry,
}

pub content-read_rel_path :
    (header : PafHeader) (e : PafIndexEntry) (fp : Stream)
    → (read_rel_path header e fp).1.content ≡ fp.content
unfolding read_rel_path
content-read_rel_path header e fp =
    if-cases (λ (r : Option Bytes × Stream). r.1.content ≡ fp.content)
      (e.path_length == 0 || leb 1024 e.path_length) (λ h. refl)
      (λ h. content-fread _ _ ∙ content-fseek fp _)

content-stage_loop :
    (f : ℕ) (fp : Stream) (rem : ℕ) (out : Bytes) → (stage_loop f fp rem out).2.content ≡ fp.content
unfolding stage_loop
content-stage_loop zero fp rem out = refl
content-stage_loop (suc f) fp rem out =
    let r = fread fp (min rem 65536) in
    let same : (r : Bool × Bytes × Stream) → Type 0 = λ r. r.2.content ≡ fp.content in
    if-cases same (rem == 0) (λ h. refl)
      λ h.
        if-cases same (length r.0 == 0) (λ k. content-fread fp (min rem 65536))
          λ k.
            content-stage_loop f r.1 (rem - length r.0) (out ++ r.0)
            ∙ content-fread fp (min rem 65536)

-- The stream of a result has the content of `fp`.
abbrev SameFile : Stream → Bool × Stream × Disk → Type 0
SameFile fp r = r.1.content ≡ fp.content

module _ (a : Access) (stage : Bytes) where
  keep_stage-SameFile :
      (done : Bool) (fp : Stream) (d : Disk) → SameFile fp (keep_stage a stage done fp d)
  unfolding keep_stage
  keep_stage-SameFile true fp d = refl
  keep_stage-SameFile false fp d = refl

  stage_normal-SameFile :
      (e : PafIndexEntry) (fp : Stream) (d : Disk) → SameFile fp (stage_normal a e stage fp d)
  unfolding stage_normal at_data
  stage_normal-SameFile e fp d =
      let fp1 = at_data fp e in
      if-cases (SameFile fp) (a.writable stage)
        (λ h.
          keep_stage-SameFile _ _ _
          ∙ content-stage_loop (e.data_size + 1) fp1 e.data_size []
          ∙ content-fseek fp _)
        (λ h. content-fseek fp _)

  stage_applied-SameFile :
      (r : Option (Bool × Bytes)) (fp : Stream) (d : Disk)
      → SameFile fp (stage_applied a stage r fp d)
  unfolding stage_applied
  stage_applied-SameFile none fp d = keep_stage-SameFile false fp d
  stage_applied-SameFile (some (done, out)) fp d =
      if-cases (SameFile fp) (a.writable stage) (λ h. keep_stage-SameFile done fp _)
        (λ h. keep_stage-SameFile false fp d)

  stage_read-SameFile :
      (m : Machine) (dst : Bytes) (delta : Option Bytes) (fp : Stream) (d : Disk)
      → SameFile fp (stage_read m a dst stage delta fp d)
  unfolding stage_read
  stage_read-SameFile m dst none fp d = refl
  stage_read-SameFile m dst (some delta) fp d =
      stage_applied-SameFile (paf_bdelta_apply m delta (d.files dst)) fp d

  stage_delta-SameFile :
      (m : Machine) (e : PafIndexEntry) (dst : Bytes) (fp : Stream) (d : Disk)
      → SameFile fp (stage_delta m a e dst stage fp d)
  unfolding stage_delta
  stage_delta-SameFile m e dst fp d =
      if-cases (SameFile fp) (m.malloc e.data_size)
        (λ h.
          stage_read-SameFile m dst (read_data fp e).0 (read_data fp e).1 d
          ∙ content-read_data fp e)
        (λ h. refl)

  install-SameFile :
      (stack : Bytes) (e : PafIndexEntry) (dst : Bytes) (fp : Stream) (r : Bool × Stream × Disk)
      → SameFile fp r
      → SameFile fp (install a stack e dst stage r)
  unfolding install
  install-SameFile stack e dst fp (false, fp', d) h = h
  install-SameFile stack e dst fp (true, fp', d) h =
      if-cases (SameFile fp) (hash_matches e (hash_file stack (d.files stage))) (λ k. h) (λ k. h)

module _ (m : Machine) (a : Access) (stack : Bytes) where
  patch_to-SameFile :
      (e : PafIndexEntry) (dst : Bytes) (fp : Stream) (d : Disk)
      → SameFile fp (patch_to m a stack e dst fp d)
  unfolding patch_to
  patch_to-SameFile e dst fp d =
      let stage = dst ++ stage_suffix in
      let made = make_parent_dirs stage d in
      if-cases (SameFile fp) (has_flag e.flags paf_entry_deleted) (λ h. refl)
        λ h. install-SameFile a stage stack e dst fp _ (
          if-cases (SameFile fp) (has_flag e.flags paf_entry_binary_delta)
            (λ k. stage_delta-SameFile a stage m e dst fp made)
            (λ k. stage_normal-SameFile a stage e fp made))

  patch_path-SameFile :
      (dst_dir : Bytes) (e : PafIndexEntry) (rel : Option Bytes) (fp : Stream) (d : Disk)
      → SameFile fp (patch_path m a stack dst_dir e rel fp d)
  unfolding patch_path
  patch_path-SameFile dst_dir e none fp d = refl
  patch_path-SameFile dst_dir e (some rel) fp d =
      if-cases (SameFile fp) (usable dst_dir rel)
        (λ h. patch_to-SameFile e (joined dst_dir rel) fp d) (λ h. refl)

  pub content-patch_entry :
      (dst_dir : Bytes) (header : PafHeader) (e : PafIndexEntry) (fp : Stream) (d : Disk)
      → (patch_entry m a stack dst_dir header e fp d).1.content ≡ fp.content
  unfolding patch_entry
  content-patch_entry dst_dir header e fp d =
      let r = read_rel_path header e fp in
      patch_path-SameFile dst_dir e r.0 r.1 d ∙ content-read_rel_path header e fp
