-- ===== src/Unpack.antt =====
-- The parallel extraction of libpaf/src/libpaf_core.c: extract_worker_run, run_extract_parallel and
-- paf_extract_binary.
pub mod Entry
pub mod Archive
pub mod Confined
use paf_archive.Prelude.{
  ℕ, ◌+◌, ◌*◌, Bool, true, false, List, [], ◌∷◌, ◌++◌, length, ltb, ◌==◌, ◌&&◌, ◌||◌, not,
  if◌then◌else◌, Option, none, some, get_elem?,
}
use paf_archive.Words.{Bytes, u64}
use paf_archive.Stdio.{Machine, Stream, open_stream, fseek, fseek_ok}
use paf_archive.Format.{PafHeader, PafIndexEntry}
use paf_archive.Reader.{Outcome, ok, err, read_path, read_data, path_position}
use paf_archive.Paths.{slash, paf_is_path_safe, ensure_directory}
use paf_archive.Disk.{Disk, write_file, make_folders, is_file}
use paf_archive.Extract.{Opened, open_archive}
use paf_archive.Threads.{Thread}
use paf_archive.Parallel.{workers}

-- What a worker carries from entry to entry: its stream, and the size of its buffer, if it has one.
pub record Worker : Type 0 where
  pub fp : Stream
  pub buf : Option ℕ

-- What the workers share. `writable` says where a file can be opened for writing.
pub record Job : Type 0 where
  pub machine : Machine
  pub writable : Bytes → Bool
  pub header : PafHeader
  pub idx : List PafIndexEntry
  pub output_dir : Bytes
  pub overwrite : Bool

-- The path of the entry: none where the `fseek` fails or the `fread` is short.
unfoldable pub worker_path : Job → Stream → PafIndexEntry → Option Bytes × Stream
worker_path w fp e =
    if fseek_ok (path_position w.header e) then read_path fp w.header e else (none, fp)

abbrev pub fullpath : Job → Bytes → Bytes
fullpath w path = w.output_dir ++ slash ∷ path

-- `paf_is_path_safe`, and the name below the output folder fits 1024 bytes.
unfoldable pub is_accepted : Job → Bytes → Bool
is_accepted w path = if paf_is_path_safe path then ltb (length (fullpath w path)) 1024 else false

-- The size of the buffer that is there; 0 without one.
unfoldable pub capacity : Option ℕ → ℕ
capacity none = 0
capacity (some n) = n

-- The buffer grows when the file does not fit it.
unfoldable pub grow : Machine → Option ℕ → ℕ → Option ℕ
grow m buf size =
    if ltb (capacity buf) size then (if m.malloc size then some size else none) else buf

-- `!buf && data_size > 0`
unfoldable pub has_no_room : Option ℕ → ℕ → Bool
has_no_room none size = ltb 0 size
has_no_room (some _) size = false

-- The `fwrite` behind a whole `fread`; the output is empty otherwise.
unfoldable pub fill : Bytes → Option Bytes → Disk → Disk
fill full none d = d
fill full (some b) d = write_file d full b

-- from the `fopen` of the output on
unfoldable pub write_output : Job → Bytes → PafIndexEntry → Option ℕ → Stream → Disk → Worker × Disk
write_output w full e buf fp d =
    let at = fseek fp (u64 (32 + e.data_offset)) in
    let (content, fp') = read_data fp e in
    if w.writable full
    then (if e.data_size == 0
        then (record { fp = at; buf = buf }, write_file d full [])
        else (record { fp = fp'; buf = buf }, fill full content (write_file d full [])))
    else (record { fp = at; buf = buf }, d)

-- from the buffer on
unfoldable pub with_buffer : Job → Bytes → PafIndexEntry → Option ℕ → Stream → Disk → Worker × Disk
with_buffer w full e buf fp d =
    if has_no_room buf e.data_size
    then (record { fp = fp; buf = buf }, d)
    else if fseek_ok (u64 (32 + e.data_offset))
    then write_output w full e buf fp d
    else (record { fp = fp; buf = buf }, d)

-- An entry whose path has been read: the folders are made, and without `overwrite` a file that is
-- there is left.
unfoldable pub extract_entry :
    Job → PafIndexEntry → Option Bytes → Stream → Option ℕ → Disk → Worker × Disk
extract_entry w e none fp buf d = (record { fp = fp; buf = buf }, d)
extract_entry w e (some path) fp buf d =
    let full = fullpath w path in
    let d' = make_folders d (ensure_directory full) in
    if is_accepted w path
    then (if not w.overwrite && is_file (d'.files full)
        then (record { fp = fp; buf = buf }, d')
        else with_buffer w full e (grow w.machine buf e.data_size) fp d')
    else (record { fp = fp; buf = buf }, d)

unfoldable pub extract_index : Job → Option PafIndexEntry → Worker → Disk → Worker × Disk
extract_index w none k d = (k, d)
extract_index w (some e) k d = let (p, fp) = worker_path w k.fp e in extract_entry w e p fp k.buf d

-- One round of the loop of `extract_worker_run`.
unfoldable pub extract_worker_run : Job → ℕ → Worker → Disk → Worker × Disk
extract_worker_run w i k d = extract_index w (get_elem? w.idx i) k d

-- The workers of `run_extract_parallel`: each opens the archive, whose bytes are given, for itself.
unfoldable pub run_extract_parallel : Job → Bytes → Bool → ℕ → List (Thread Worker ℕ)
run_extract_parallel w archive allocated ncpu =
    workers (record { fp = open_stream archive; buf = none }) allocated ncpu w.header.file_count

-- `paf_extract_binary` up to the threads: a negative return value, or what the workers share.
unfoldable pub extract_job : Machine → (Bytes → Bool) → Bytes → Bool → Outcome Opened → Outcome Job
extract_job m writable output_dir overwrite (err n) = err n
extract_job m writable output_dir overwrite (ok o) = ok (record {
  machine = m;
  writable = writable;
  header = o.header;
  idx = o.entries;
  output_dir = output_dir;
  overwrite = overwrite;
})

unfoldable pub paf_extract_binary :
    Machine → (Bytes → Bool) → Bytes → Bytes → Bool → Disk → Outcome Job
paf_extract_binary m writable paf_path output_dir overwrite d =
    extract_job m writable output_dir overwrite (open_archive m (d.files paf_path))
