-- ===== src/Extract.antt =====
-- libpaf/src/libpaf_extract.c: one file, or the files of one folder, out of an archive.
pub mod Archive
pub mod Confined
use paf_archive.Prelude.{
  ℕ, ◌+◌, ◌*◌, Bool, true, false, List, [], ◌∷◌, ◌++◌, length, drop, ltb, ◌==◌, ◌&&◌, ◌||◌,
  if◌then◌else◌, Option, none, some,
}
use paf_archive.Words.{Bytes, u64}
use paf_archive.Stdio.{Machine, Stream, open_stream, fseek, bytes_eq, starts_with}
use paf_archive.Format.{PafHeader, PafIndexEntry}
use paf_archive.Reader.{Outcome, ok, err, read_header, read_index, read_path, read_data}
use paf_archive.Listing.{file_exists_in_archive, folder_exists_in_archive}
use paf_archive.Paths.{slash, backslash, contains, dot_dot, is_absolute, directories_from}
use paf_archive.Disk.{Disk, write_file, make_folders}

-- An archive that is open, with its header and its index read.
pub record Opened : Type 0 where
  pub header : PafHeader
  pub entries : List PafIndexEntry
  pub fp : Stream

unfoldable pub open_index : PafHeader → Option (List PafIndexEntry × Stream) → Outcome Opened
open_index header none = err 3
open_index header (some (es, fp)) = ok (record { header = header; entries = es; fp = fp })

unfoldable pub open_header : Machine → Option (PafHeader × Stream) → Outcome Opened
open_header m none = err 2
open_header m (some (header, fp)) =
    if m.malloc (128 * header.file_count) then open_index header (read_index fp header) else err 1

-- The first part of `paf_extract_file`, `paf_extract_folder` and `paf_extract_binary`.
unfoldable pub open_archive : Machine → Option Bytes → Outcome Opened
open_archive m none = err 1
open_archive m (some b) = open_header m (read_header (open_stream b))

-- `fwrite`, where the `fread` was whole
unfoldable pub finish_write : Bytes → Option Bytes → Disk → Outcome {0} Unit × Disk
finish_write out none d = (err 7, d)
finish_write out (some b) d = (ok tt, write_file d out b)

-- behind the `strcmp`: the output is opened, and so emptied, before the content is read
unfoldable pub write_entry :
    Machine → (Bytes → Bool) → Bytes → PafIndexEntry → Stream → Disk → Outcome {0} Unit × Disk
write_entry m writable out e fp d =
    if writable out
    then (if m.malloc e.data_size
        then finish_write out (read_data fp e).0 (write_file d out [])
        else (err 5, write_file d out []))
    else (err 4, d)

-- The path was read whole and is this one.
unfoldable pub is_path : Option Bytes → Bytes → Bool
is_path none path = false
is_path (some p) path = bytes_eq p path

-- the loop of `paf_extract_file`
unfoldable pub extract_first :
    Machine
    → (Bytes → Bool)
    → Bytes
    → Bytes
    → PafHeader
    → List PafIndexEntry
    → Stream
    → Disk
    → Outcome {0} Unit × Disk
extract_first m writable path out header [] fp d = (err 6, d)
extract_first m writable path out header (e ∷ es) fp d =
    let (p, fp') = read_path fp header e in
    let rest = extract_first m writable path out header es fp' d in
    if is_path p path then write_entry m writable out e fp' d else rest

unfoldable pub extract_first_opened :
    Machine → (Bytes → Bool) → Bytes → Bytes → Outcome Opened → Disk → Outcome {0} Unit × Disk
extract_first_opened m writable path out (err n) d = (err n, d)
extract_first_opened m writable path out (ok o) d =
    extract_first m writable path out o.header o.entries o.fp d

-- The return value, and the disk behind the call. `writable` says where a file can be opened for
-- writing.
unfoldable pub paf_extract_file :
    Machine → (Bytes → Bool) → Bytes → Bytes → Bytes → Disk → Outcome {0} Unit × Disk
paf_extract_file m writable paf_path path out d =
    if file_exists_in_archive m d.files paf_path path
    then extract_first_opened m writable path out (open_archive m (d.files paf_path)) d
    else (err 4, d)

abbrev pub as_slash : ℕ → ℕ
as_slash c = if c == slash || c == backslash then slash else c

-- The loop that makes the folders leaves a slash for each separator.
unfoldable pub slashes : Bytes → Bytes
slashes [] = []
slashes (c ∷ s) = as_slash c ∷ slashes s

-- the tests of a path in `paf_extract_folder`
unfoldable pub is_wanted : Bytes → Bytes → Bool
is_wanted dir path =
    if starts_with dir path
    then (if contains dot_dot path || is_absolute path then false else true)
    else false

-- the `fseek` to the data
unfoldable pub at_data : Stream → PafIndexEntry → Stream
at_data fp e = fseek fp (u64 (32 + e.data_offset))

-- from the `fopen` of the output on; a short read leaves it empty
unfoldable pub put_content :
    Machine → (Bytes → Bool) → Bytes → PafIndexEntry → Stream → Disk → Stream × Disk
put_content m writable full e fp d =
    let (content, fp') = read_data fp e in
    if writable full
    then (if m.malloc e.data_size
        then (fp', (finish_write full content (write_file d full [])).1)
        else (at_data fp e, write_file d full []))
    else (at_data fp e, d)

-- One entry with the path that was read: the name below the output folder must fit 1024 bytes.
unfoldable pub extract_into :
    Machine
    → (Bytes → Bool)
    → Bytes
    → Bytes
    → PafIndexEntry
    → Option Bytes
    → Stream
    → Disk
    → Stream × Disk
unfolding directories_from
extract_into m writable dir output_dir e none fp d = (fp, d)
extract_into m writable dir output_dir e (some path) fp d =
    let rest = drop (length dir) path in
    let dirs = directories_from (output_dir ++ slash ∷ []) rest in
    if is_wanted dir path && ltb (length (output_dir ++ slash ∷ rest)) 1024
    then put_content m writable (output_dir ++ slash ∷ slashes rest) e fp (make_folders d dirs)
    else (fp, d)

-- the loop of `paf_extract_folder`
unfoldable pub extract_all :
    Machine → (Bytes → Bool) → Bytes → Bytes → PafHeader → List PafIndexEntry → Stream → Disk → Disk
extract_all m writable dir output_dir header [] fp d = d
extract_all m writable dir output_dir header (e ∷ es) fp d =
    let (p, fp1) = read_path fp header e in
    let (fp2, d') = extract_into m writable dir output_dir e p fp1 d in
    extract_all m writable dir output_dir header es fp2 d'

unfoldable pub extract_all_opened :
    Machine → (Bytes → Bool) → Bytes → Bytes → Outcome Opened → Disk → Outcome {0} Unit × Disk
extract_all_opened m writable dir output_dir (err n) d = (err n, d)
extract_all_opened m writable dir output_dir (ok o) d =
    (ok tt, extract_all m writable dir output_dir o.header o.entries o.fp d)

unfoldable pub paf_extract_folder :
    Machine → (Bytes → Bool) → Bytes → Bytes → Bytes → Disk → Outcome {0} Unit × Disk
paf_extract_folder m writable paf_path dir output_dir d =
    if folder_exists_in_archive m d.files paf_path dir
    then extract_all_opened m writable dir output_dir (open_archive m (d.files paf_path)) d
    else (err 4, d)
