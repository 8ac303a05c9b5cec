-- ===== src/Extractor.antt =====
-- libpaf/src/paf_extractor.c: an archive that is kept open, its header, its index and its files.
pub mod Archive
use paf_archive.Prelude.{
  ℕ, ◌+◌, ◌*◌, Bool, true, false, List, length, take, ltb, leb, ◌==◌, if◌then◌else◌, Option, none,
  some, get_elem?,
}
use paf_archive.Words.{Bytes, u64}
use paf_archive.Stdio.{Machine, Files, Stream, open_stream, fseek, fread, bytes_eq, c_string}
use paf_archive.Sha256.{Sha256Path, paf_sha256_compute}
use paf_archive.Format.{PafHeader, PafIndexEntry, decode_header, paf_magic}
use paf_archive.Reader.{Outcome, ok, err, read_header, read_index, read_data, path_position}
use paf_archive.Paths.{is_safe_path}

-- The header of a file: too short is −1, and another magic −2.
unfoldable pub peek_bytes : Bytes → Outcome PafHeader
peek_bytes b =
    if ltb (length b) 32
    then err 1
    else if bytes_eq (take 4 b) paf_magic
    then ok (decode_header b)
    else err 2

unfoldable pub peek_file : Option Bytes → Outcome PafHeader
peek_file none = err 1
peek_file (some b) = peek_bytes (fread (open_stream b) 32).0

unfoldable pub paf_extractor_peek_header : Files → Bytes → Outcome PafHeader
paf_extractor_peek_header files path = peek_file (files path)

-- `paf_extractor_t`
pub record PafExtractor : Type 0 where
  pub fp : Stream
  pub header : PafHeader
  pub entries : List PafIndexEntry

unfoldable pub open_entries :
    PafHeader → Option (List PafIndexEntry × Stream) → Outcome PafExtractor
open_entries header none = err 1
open_entries header (some (es, fp)) = ok (record { fp = fp; header = header; entries = es })

-- The limit on the number of files; that the size of the index fits a `size_t` follows from it.
unfoldable pub open_checked : Machine → Option (PafHeader × Stream) → Outcome PafExtractor
open_checked m none = err 1
open_checked m (some (header, fp)) =
    if ltb 1000000 header.file_count
    then err 4
    else if m.malloc (128 * header.file_count)
    then open_entries header (read_index fp header)
    else err 1

unfoldable pub open_bytes : Machine → Option Bytes → Outcome PafExtractor
open_bytes m none = err 1
open_bytes m (some b) = open_checked m (read_header (open_stream b))

unfoldable pub paf_extractor_open : Machine → Files → Bytes → Outcome PafExtractor
paf_extractor_open m files path = open_bytes m (files path)

-- What `paf_extractor_get_file` gives: the path, and the content or that the file is there already.
pub record Got : Type 0 where
  pub path : Bytes
  pub content : Option Bytes

-- The content, with its limit of 2 GB and its allocation.
unfoldable pub finish_get : Bytes → Option Bytes → Outcome Got
finish_get path none = err 1
finish_get path (some b) = ok (record { path = path; content = some b })

unfoldable pub get_content : Machine → PafIndexEntry → Bytes → Stream → Outcome Got × Stream
get_content m e path fp =
    let (content, fp') = read_data fp e in
    if ltb 0x7fffffff e.data_size
    then (err 4, fp)
    else if m.malloc e.data_size
    then (finish_get path content, fp')
    else (err 5, fp)

-- The smart overwrite: the file is there, has the size, and has the digest.
unfoldable pub is_there : Machine → Sha256Path → Bytes → PafIndexEntry → Option Bytes → Bool
is_there m hasher junk e none = false
is_there m hasher junk e (some old) =
    if length old == e.data_size
    then (if m.malloc e.data_size
        then bytes_eq (paf_sha256_compute hasher junk old) (take 32 e.hash)
        else false)
    else false

-- behind the `fread` of the path
unfoldable pub get_named :
    Machine → Sha256Path → Bytes → Files → PafIndexEntry → Bytes → Stream → Outcome Got × Stream
get_named m hasher junk files e path fp =
    if is_safe_path path
    then (if is_there m hasher junk e (files path)
        then (ok (record { path = path; content = none }), fp)
        else get_content m e path fp)
    else (err 3, fp)

unfoldable pub get_entry :
    Machine
    → Sha256Path
    → Bytes
    → Files
    → PafHeader
    → ℕ
    → Option PafIndexEntry
    → Stream
    → Outcome Got × Stream
get_entry m hasher junk files header path_max none fp = (err 1, fp)
get_entry m hasher junk files header path_max (some e) fp =
    let (got, fp') = fread (fseek fp (path_position header e)) e.path_length in
    let named = get_named m hasher junk files e (c_string got) fp' in
    if leb path_max e.path_length
    then (err 2, fp)
    else if length got == e.path_length
    then named
    else (err 1, fp')

-- `paf_extractor_get_file` for a buffer of `path_max` bytes: the result, and where the stream is
-- then. `files` are the files that are there, and `junk` is what the hasher's buffer holds.
unfoldable pub paf_extractor_get_file :
    Machine → Sha256Path → Bytes → Files → PafExtractor → ℕ → ℕ → Outcome Got × Stream
paf_extractor_get_file m hasher junk files ext index path_max =
    if leb ext.header.file_count index
    then (err 1, ext.fp)
    else get_entry m hasher junk files ext.header path_max (get_elem? ext.entries index) ext.fp
