-- ===== src/Unpack/Entry.antt =====
-- One entry of the parallel extraction of libpaf/src/libpaf_core.c, on an archive that the generator
-- wrote.
use paf_archive.Prelude.{
  ℕ, ◌+◌, ◌<◌, ◌≡◌, refl, ap, sym, ◌∙◌, arith, true, false, List, [], ◌∷◌, ◌++◌, length, Option,
  none, some, get_elem?, length-eq-zero, inl, inr, Bool-cases, ltb, ◌==◌, ◌&&◌, not,
}
use paf_archive.Words.{u64}
use paf_archive.Stdio.{Machine, Stream, fseek_ok, fseek_ok-lt, NoNul}
use paf_archive.Format.{PafHeader}
use paf_archive.Reader.{read_path, path_position}
use paf_archive.Reader.Archive.{
  read_path-archive, read_data-archive, path_position-lt, data_position-lt,
}
use paf_archive.Generator.{InputFile}
use paf_archive.Generator.Spec.{
  data_bytes, path_bytes, entry_of, entries_from, archive, archive_header, Fits,
}
use paf_archive.Paths.{ensure_directory}
use paf_archive.Disk.{Disk, write_file, make_folders, is_file, files-write_file_here}
use paf_archive.Unpack.{
  Worker, Job, worker_path, fullpath, is_accepted, capacity, grow, has_no_room, fill, write_output,
  with_buffer, extract_entry, extract_index,
}
use paf_archive.Unpack.Confined.{content-worker_path}

grow-room :
    (m : Machine) (buf : Option ℕ) (size : ℕ)
    → ((n : ℕ) → m.malloc n ≡ true)
    → has_no_room (grow m buf size) size ≡ false
unfolding has_no_room grow capacity
grow-room m none size memory = elim (Bool-cases (ltb 0 size)) [
  | inl a ↦ rw (a, memory size) refl
  | inr a ↦ rw a a
]
grow-room m (some n) size memory = elim (Bool-cases (ltb n size)) [
  | inl a ↦ rw (a, memory size) refl
  | inr a ↦ rw a refl
]

-- Each path is clean and is accepted, and its output can be opened.
pub record Extractable (w : Job) (f : InputFile) : Type 0 where
  pub clean : NoNul f.path
  pub short : length f.path < 1024
  pub accepted : is_accepted w f.path ≡ true
  pub can_write : w.writable (fullpath w f.path) ≡ true

-- The job of extracting the archive of `fs` over what is there.
pub record Extracts (w : Job) (fs : List InputFile) : Type 0 where
  pub header : w.header ≡ archive_header false fs
  pub idx : w.idx ≡ entries_from false 0 0 fs
  pub overwrites : w.overwrite ≡ true
  pub memory : (n : ℕ) → w.machine.malloc n ≡ true
  pub files : (i : ℕ) (f : InputFile) → get_elem? fs i ≡ some f → Extractable w f

module _ (w : Job) (fs : List InputFile) (fits : Fits fs) (x : Extracts w fs) where
  write_output-archive :
      (before after : List InputFile) (f : InputFile) (p : ℕ) (buf : Option ℕ) (fp : Stream)
      (d : Disk)
      → before ++ f ∷ after ≡ fs
      → fp.content ≡ archive false fs
      → w.writable (fullpath w f.path) ≡ true
      → (write_output w
            (fullpath w f.path)
            (entry_of p (length (data_bytes before)) f)
            buf
            fp
            d).1.files
          (fullpath w f.path)
        ≡ some f.content
  unfolding write_output fill
  write_output-archive before after f p buf fp d split hc can =
      let full = fullpath w f.path in
      elim (Bool-cases (length f.content == 0)) [
        | inl a ↦
            let empty : [] ≡ f.content = sym (length-eq-zero f.content (ground arith)) in
            rw (can, a) (files-write_file_here d full [] ∙ ap some empty)
        | inr a ↦
            rw (can, a, read_data-archive false fs fits before after f split fp hc p refl)
              (files-write_file_here (write_file d full []) full f.content)
      ]

  -- The path of a file is read.
  pub worker_path-archive :
      (before after : List InputFile) (f : InputFile) (fp : Stream)
      → before ++ f ∷ after ≡ fs
      → fp.content ≡ archive false fs
      → Extractable w f
      → (worker_path w fp (entry_of (length (path_bytes before)) (length (data_bytes before)) f)).0
        ≡ some f.path
  unfolding worker_path
  worker_path-archive before after f fp split hc ok_file =
      let dd = length (data_bytes before) in
      let e = entry_of (length (path_bytes before)) dd f in
      let at_path : fseek_ok (path_position w.header e) ≡ true =
        ap (λ (h : PafHeader). fseek_ok (path_position h e)) x.header
        ∙ fseek_ok-lt (path_position (archive_header false fs) e)
            (path_position-lt false fs fits before after f split fp hc dd) in
      rw at_path (
        ap (λ (h : PafHeader). (read_path fp h e).0) x.header
        ∙ read_path-archive false fs fits before after f split fp hc dd ok_file.short ok_file.clean)

  -- The entry of a file leaves the output of the file with its content.
  pub entry-archive :
      (before after : List InputFile) (f : InputFile) (k : Worker) (d : Disk)
      → before ++ f ∷ after ≡ fs
      → k.fp.content ≡ archive false fs
      → Extractable w f
      → (extract_index w
            (some (entry_of (length (path_bytes before)) (length (data_bytes before)) f))
            k
            d).1.files
          (fullpath w f.path)
        ≡ some f.content
  unfolding extract_index extract_entry with_buffer
  entry-archive before after f k d split hc ok_file =
      let full = fullpath w f.path in
      let dd = length (data_bytes before) in
      let e = entry_of (length (path_bytes before)) dd f in
      let fp = (worker_path w k.fp e).1 in
      let d' = make_folders d (ensure_directory full) in
      let at_data : fseek_ok (u64 (32 + dd)) ≡ true =
        fseek_ok-lt (u64 (32 + dd)) (data_position-lt false fs fits before after f split k.fp hc) in
      let no_skip : (not w.overwrite && is_file (d'.files full)) ≡ false =
        ap (λ b. not b && is_file (d'.files full)) x.overwrites in
      rw
        (
          worker_path-archive before after f k.fp split hc ok_file,
          ok_file.accepted,
          no_skip,
          grow-room w.machine k.buf (length f.content) x.memory,
          at_data,
        )
        (write_output-archive before after f (length (path_bytes before))
          (grow w.machine k.buf (length f.content)) fp d' split (content-worker_path w k.fp e ∙ hc)
          ok_file.can_write)
