-- ===== src/Unpack/Confined.antt =====
-- What the parallel extraction of libpaf/src/libpaf_core.c leaves alone, at any archive and in any
-- order of the threads.
use paf_archive.Prelude.{
  ℕ, arith, ◌+◌, ◌≡◌, refl, ◌∙◌, Bool, true, List, [], Option, none, some, ◌⊎◌, inl, inr, get_elem?,
  Bool-cases, ◌==◌, ◌&&◌, not,
}
use paf_archive.Words.{Bytes, u64}
use paf_archive.Stdio.{Stream, fseek_ok, content-fseek}
use paf_archive.Format.{PafIndexEntry}
use paf_archive.Reader.{read_data, path_position}
use paf_archive.Reader.Archive.{content-read_path, content-read_data}
use paf_archive.Paths.{paf_is_path_safe, ensure_directory}
use paf_archive.Paths.Safety.{StaysBelow, paf_is_path_safe-StaysBelow}
use paf_archive.Disk.{
  Disk, write_file, make_folders, is_file, Within, Within-refl, Within-trans, write_file-Within,
}
use paf_archive.Threads.{Thread, Steps, steps-keeps}
use paf_archive.Unpack.{
  Worker, Job, worker_path, fullpath, is_accepted, grow, has_no_room, fill, write_output,
  with_buffer, extract_entry, extract_index, extract_worker_run, run_extract_parallel,
}

-- The path is that of the output folder, a slash, and a path that stays below it.
abbrev pub IsAccepted : Job → Bytes → Type 0
IsAccepted w q = (path : Bytes) × (q ≡ fullpath w path) × StaysBelow path

module _ (w : Job) (P : Bytes → Type 0) where
  fill-Within :
      (full : Bytes) (content : Option Bytes) (d : Disk) → P full → Within P d (fill full content d)
  unfolding fill
  fill-Within full none d h = Within-refl P d
  fill-Within full (some b) d h = write_file-Within P d full b h

  write_output-Within :
      (full : Bytes) (e : PafIndexEntry) (buf : Option ℕ) (fp : Stream) (d : Disk)
      → P full
      → Within P d (write_output w full e buf fp d).1
  unfolding write_output
  write_output-Within full e buf fp d h =
      let made = write_file-Within P d full [] h in
      elim (Bool-cases (w.writable full)) [
        | inl a ↦ elim (Bool-cases (e.data_size == 0)) [
          | inl b ↦ rw (a, b) made
          | inr b ↦
              rw (a, b)
                (Within-trans P d (write_file d full [])
                  (fill full (read_data fp e).0 (write_file d full [])) made
                  (fill-Within full (read_data fp e).0 (write_file d full []) h))
        ]
        | inr a ↦ rw a (Within-refl P d)
      ]

  with_buffer-Within :
      (full : Bytes) (e : PafIndexEntry) (buf : Option ℕ) (fp : Stream) (d : Disk)
      → P full
      → Within P d (with_buffer w full e buf fp d).1
  unfolding with_buffer
  with_buffer-Within full e buf fp d h = elim (Bool-cases (has_no_room buf e.data_size)) [
    | inl a ↦ rw a (Within-refl P d)
    | inr a ↦ elim (Bool-cases (fseek_ok (u64 (32 + e.data_offset)))) [
      | inl b ↦ rw (a, b) (write_output-Within full e buf fp d h)
      | inr b ↦ rw (a, b) (Within-refl P d)
    ]
  ]

  -- An entry with this path changes nothing but the output of the path, if the path is accepted.
  pub extract_entry-Within :
      (e : PafIndexEntry) (path : Bytes) (fp : Stream) (buf : Option ℕ) (d : Disk)
      → (is_accepted w path ≡ true → P (fullpath w path))
      → Within P d (extract_entry w e (some path) fp buf d).1
  unfolding extract_entry make_folders
  extract_entry-Within e path fp buf d h =
      let full = fullpath w path in
      let d' = make_folders d (ensure_directory full) in
      elim (Bool-cases (is_accepted w path)) [
        | inl a ↦ elim (Bool-cases (not w.overwrite && is_file (d'.files full))) [
          | inl b ↦ rw (a, b) (Within-refl P d)
          | inr b ↦
              rw (a, b) (with_buffer-Within full e (grow w.machine buf e.data_size) fp d' (h a))
        ]
        | inr a ↦ rw a (Within-refl P d)
      ]

module _ (w : Job) where
  is_accepted-IsAccepted :
      (path : Bytes) → is_accepted w path ≡ true → IsAccepted w (fullpath w path)
  unfolding is_accepted
  is_accepted-IsAccepted path h =
      let safe : paf_is_path_safe path ≡ true = ground arith in
      (path, refl, (paf_is_path_safe-StaysBelow path safe).0)

  entry-Within :
      (e : PafIndexEntry) (p : Option Bytes) (fp : Stream) (buf : Option ℕ) (d : Disk)
      → Within (IsAccepted w) d (extract_entry w e p fp buf d).1
  unfolding extract_entry
  entry-Within e none fp buf d = Within-refl (IsAccepted w) d
  entry-Within e (some path) fp buf d =
      extract_entry-Within w (IsAccepted w) e path fp buf d (is_accepted-IsAccepted path)

  index-Within :
      (e : Option PafIndexEntry) (k : Worker) (d : Disk)
      → Within (IsAccepted w) d (extract_index w e k d).1
  unfolding extract_index
  index-Within none k d = Within-refl (IsAccepted w) d
  index-Within (some e) k d =
      entry-Within e (worker_path w k.fp e).0 (worker_path w k.fp e).1 k.buf d

  run-Within :
      (i : ℕ) (k : Worker) (d : Disk) → Within (IsAccepted w) d (extract_worker_run w i k d).1
  unfolding extract_worker_run
  run-Within i k d = index-Within (get_elem? w.idx i) k d

  -- Whatever the bytes of the archive, its header and its index are, whichever allocations and
  -- `fopen` calls fail, and in whichever order the threads run: at every moment the only files that
  -- have changed are those whose path is the output folder, a slash, and a path that begins with no
  -- separator and has no `..` segment.
  pub run_extract_parallel-Within :
      (archive : Bytes) (allocated : Bool) (ncpu : ℕ) (ts : List (Thread Worker ℕ)) (d d' : Disk)
      → Steps (extract_worker_run w) (run_extract_parallel w archive allocated ncpu) d ts d'
      → (q : Bytes) → (d'.files q ≡ d.files q) ⊎ IsAccepted w q
  run_extract_parallel-Within archive allocated ncpu ts d d' run =
      steps-keeps (extract_worker_run w) (Within (IsAccepted w) d)
        (λ i k s h.
          Within-trans (IsAccepted w) d s (extract_worker_run w i k s).1 h (run-Within i k s))
        (run_extract_parallel w archive allocated ncpu) ts d d' run (Within-refl (IsAccepted w) d)

-- A worker's stream keeps its bytes.
module _ (w : Job) where
  content-write_output :
      (full : Bytes) (e : PafIndexEntry) (buf : Option ℕ) (fp : Stream) (d : Disk)
      → (write_output w full e buf fp d).0.fp.content ≡ fp.content
  unfolding write_output
  content-write_output full e buf fp d =
      let at = content-fseek fp (u64 (32 + e.data_offset)) in
      elim (Bool-cases (w.writable full)) [
        | inl a ↦ elim (Bool-cases (e.data_size == 0)) [
          | inl b ↦ rw (a, b) at
          | inr b ↦ rw (a, b) (content-read_data fp e)
        ]
        | inr a ↦ rw a at
      ]

  content-with_buffer :
      (full : Bytes) (e : PafIndexEntry) (buf : Option ℕ) (fp : Stream) (d : Disk)
      → (with_buffer w full e buf fp d).0.fp.content ≡ fp.content
  unfolding with_buffer
  content-with_buffer full e buf fp d = elim (Bool-cases (has_no_room buf e.data_size)) [
    | inl a ↦ rw a refl
    | inr a ↦ elim (Bool-cases (fseek_ok (u64 (32 + e.data_offset)))) [
      | inl b ↦ rw (a, b) (content-write_output full e buf fp d)
      | inr b ↦ rw (a, b) refl
    ]
  ]

  content-extract_entry :
      (e : PafIndexEntry) (p : Option Bytes) (fp : Stream) (buf : Option ℕ) (d : Disk)
      → (extract_entry w e p fp buf d).0.fp.content ≡ fp.content
  unfolding extract_entry
  content-extract_entry e none fp buf d = refl
  content-extract_entry e (some path) fp buf d =
      let full = fullpath w path in
      let d' = make_folders d (ensure_directory full) in
      elim (Bool-cases (is_accepted w path)) [
        | inl a ↦ elim (Bool-cases (not w.overwrite && is_file (d'.files full))) [
          | inl b ↦ rw (a, b) refl
          | inr b ↦ rw (a, b) (content-with_buffer full e (grow w.machine buf e.data_size) fp d')
        ]
        | inr a ↦ rw a refl
      ]

  pub content-worker_path :
      (fp : Stream) (e : PafIndexEntry) → (worker_path w fp e).1.content ≡ fp.content
  unfolding worker_path
  content-worker_path fp e = elim (Bool-cases (fseek_ok (path_position w.header e))) [
    | inl a ↦ rw a (content-read_path fp w.header e)
    | inr a ↦ rw a refl
  ]

  content-extract_index :
      (e : Option PafIndexEntry) (k : Worker) (d : Disk)
      → (extract_index w e k d).0.fp.content ≡ k.fp.content
  unfolding extract_index
  content-extract_index none k d = refl
  content-extract_index (some e) k d =
      content-extract_entry e (worker_path w k.fp e).0 (worker_path w k.fp e).1 k.buf d
      ∙ content-worker_path k.fp e

  -- The bytes that a worker reads stay those of the archive.
  pub content-extract_worker_run :
      (i : ℕ) (k : Worker) (d : Disk) → (extract_worker_run w i k d).0.fp.content ≡ k.fp.content
  unfolding extract_worker_run
  content-extract_worker_run i k d = content-extract_index (get_elem? w.idx i) k d
