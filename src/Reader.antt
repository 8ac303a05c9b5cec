-- ===== src/Reader.antt =====
-- The opening moves that libpaf/src/libpaf_list.c, libpaf_extract.c, libpaf_core.c, paf_extractor.c
-- and libpaf_patch.c share: the header and its magic, the index block, and the path of an entry.
pub mod Archive
pub mod Entries
use paf_archive.Prelude.{
  ℕ, ◌+◌, ◌*◌, Bool, true, false, List, length, take, ltb, leb, if◌then◌else◌, Option, none, some,
  ◌==◌,
}
use paf_archive.Words.{Bytes, u64}
use paf_archive.Stdio.{Stream, fseek, fread, bytes_eq, c_string}
use paf_archive.Format.{PafHeader, PafIndexEntry, decode_header, decode_entries, paf_magic}

-- The return value 0 with what it leaves to the caller, or a negative return value.
pub data Outcome {ℓ} (A : Type ℓ) : Type ℓ where
  ok : A → Outcome A
  err : ℕ → Outcome A

-- `fread(&header, sizeof(header), 1, fp) != 1 || memcmp(header.magic, PAF_MAGIC, 4) != 0`
unfoldable pub read_header : Stream → Option (PafHeader × Stream)
read_header fp =
    let (b, fp') = fread fp 32 in
    if ltb (length b) 32
    then none
    else if bytes_eq (take 4 b) paf_magic
    then some (decode_header b, fp')
    else none

abbrev pub with_stream {ℓ} : {A : Type ℓ} → Stream → Option A → Option (A × Stream)
with_stream fp none = none
with_stream fp (some a) = some (a, fp)

-- `fseek(fp, header.index_offset, SEEK_SET)` and the `fread` of the whole index; `none` where it
-- came out short
unfoldable pub read_index : Stream → PafHeader → Option (List PafIndexEntry × Stream)
read_index fp header =
    let (b, fp') = fread (fseek fp header.index_offset) (header.file_count * 128) in
    with_stream fp' (decode_entries header.file_count b)

-- A path is cut to what a buffer of 1024 bytes holds.
abbrev pub clamp_length : ℕ → ℕ
clamp_length n = if leb 1024 n then 1023 else n

-- Where an entry's path stands; the sum is of type `uint64_t`.
abbrev pub path_position : PafHeader → PafIndexEntry → ℕ
path_position header e = u64 (header.path_offset + e.path_buffer_offset)

-- `fseek` to the path and `fread` of it: `none` where it came out short, and the string of the
-- buffer otherwise.
unfoldable pub read_path : Stream → PafHeader → PafIndexEntry → Option Bytes × Stream
read_path fp header e =
    let len = clamp_length e.path_length in
    let (got, fp') = fread (fseek fp (path_position header e)) len in
    (if length got == len then some (c_string got) else none, fp')

-- `fseek` to the data, which follows the header, and `fread` of it
unfoldable pub read_data : Stream → PafIndexEntry → Option Bytes × Stream
read_data fp e =
    let (got, fp') = fread (fseek fp (u64 (32 + e.data_offset))) e.data_size in
    (if length got == e.data_size then some got else none, fp')
