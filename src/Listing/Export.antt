-- ===== src/Listing/Export.antt =====
-- `paf_export_index` of libpaf/src/libpaf_list.c.
pub mod Whole
pub mod Listed
use paf_archive.Prelude.{
  ℕ, zero, suc, ◌+◌, ◌-◌, ◌*◌, ◌^◌, ◌<◌, ◌≤◌, ◌≡◌, refl, ap, ap₂, sym, ◌∙◌, arith, Bool, true,
  false, List, [], ◌∷◌, ◌++◌, length, take, drop, ltb, ◌==◌, ◌&&◌, if◌then◌else◌, Option, none,
  some, bit_or, append_assoc, append-nil, length-append, ==_yes, lt→ltb, le→ltb_false, replicate,
}
use paf_archive.Words.{Bytes, u64}
use paf_archive.Stdio.{
  Machine, Files, Stream, open_stream, fseek, fread, bytes_eq, junk_bytes, fread-front, fseek-fread,
  content-fread,
}
use paf_archive.Format.{
  PafHeader, PafIndexEntry, encode_header, decode_header, encode_entry, decode_entry,
  encode_entries, paf_magic, paf_flag_index_only, IsEntry,
}
use paf_archive.Format.RoundTrip.{
  length-encode_header, decode_header-encode_header, length-encode_entry, decode_entry-encode_entry,
  length-encode_entries,
}
use paf_archive.Reader.{Outcome, ok, err}
use paf_archive.Generator.{InputFile}
use paf_archive.Generator.Files.{Fits-append_left, All-append_right}
use paf_archive.Generator.Spec.{
  data_bytes, path_bytes, stored, entry_of, entries_from, archive, archive_header, Fits,
  archive_header-IsHeader, entries_from-IsEntry, length-entries_from, path_bytes-append,
  data_bytes-append, entries_from-append, encode_entries-append,
}

-- The end of the index, and the end of the path of the last entry.
abbrev pub index_end : PafHeader → ℕ
index_end header = u64 (header.index_offset + header.file_count * 128)

abbrev pub path_end : PafHeader → PafIndexEntry → ℕ
path_end header last = u64 (u64 (header.path_offset + last.path_buffer_offset) + last.path_length)

abbrev pub later : ℕ → ℕ → ℕ
later a b = if ltb b a then a else b

-- The later of the two, if the last entry is read whole.
unfoldable pub end_from : PafHeader → Bytes → ℕ
end_from header b =
    if length b == 128 then later (index_end header) (path_end header (decode_entry b)) else 32

unfoldable pub metadata_end : PafHeader → Stream → ℕ
metadata_end header fp =
    if ltb 0 header.file_count
    then end_from header
        (fread (fseek fp (u64 (header.index_offset + (header.file_count - 1) * 128))) 128).0
    else 32

-- The block that is copied, of a given size: what a short read leaves is what `malloc` left there.
unfoldable pub metadata_block : Machine → Stream → ℕ → Bytes
metadata_block m fp size =
    let got = (fread (fseek fp 32) size).0 in
    if ltb 0 size && m.malloc size
    then got ++ junk_bytes m.junk (length got) (size - length got)
    else []

-- The file with the header `header`, whose flags are changed.
unfoldable pub exported : Machine → PafHeader → Stream → Bytes
exported m header fp =
    encode_header (record header { flags = bit_or header.flags paf_flag_index_only })
    ++ metadata_block m fp (u64 (metadata_end header fp + (2 ^ 64 - 32)))

unfoldable pub export_bytes : Machine → Bool → Bytes → Outcome Bytes
export_bytes m writable b =
    let fp = (fread (open_stream b) 32).1 in
    let start = (fread (open_stream b) 32).0 in
    if ltb (length start) 32
    then err 1
    else if bytes_eq (take 4 start) paf_magic
    then (if writable then ok (exported m (decode_header start) fp) else err 1)
    else err 2

unfoldable pub export_file : Machine → Bool → Option Bytes → Outcome Bytes
export_file m writable none = err 1
export_file m writable (some b) = export_bytes m writable b

-- The result is what the output holds; `writable` says whether it can be opened.
unfoldable pub paf_export_index : Machine → Bool → Files → Bytes → Outcome Bytes
paf_export_index m writable files paf_path = export_file m writable (files paf_path)
