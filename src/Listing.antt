-- ===== src/Listing.antt =====
-- libpaf/src/libpaf_list.c and libpaf_exists.c: the list of an archive's files, the export of an
-- index, and the tests for a file and a folder.
pub mod Archive
pub mod Exists
pub mod Export
use paf_archive.Prelude.{
  ℕ, ◌+◌, ◌-◌, ◌*◌, Bool, true, false, List, [], ◌∷◌, ◌++◌, length, take, drop, ltb, ◌==◌, ◌&&◌,
  ◌||◌, if◌then◌else◌, Option, none, some, not,
}
use paf_archive.Words.{Bytes, u32, u64, le_value}
use paf_archive.Stdio.{
  Machine, Stream, Files, open_stream, fseek, fread, bytes_eq, c_string, junk_bytes, starts_with,
}
use paf_archive.Format.{
  PafHeader, PafIndexEntry, PafEntry, decode_entry, encode_header, paf_magic, paf_flag_index_only,
}
use paf_archive.Reader.{Outcome, ok, err, read_header, read_index, clamp_length, path_position}

-- `sizeof(PafEntry)`
abbrev pub paf_entry_size : ℕ
paf_entry_size = 1064

-- The path of the entry `i`: what `fread` brought into its buffer, and behind a short read what
-- `malloc` left there.
unfoldable pub listed_path : Machine → Bytes → ℕ → ℕ → Bytes
listed_path m got len i =
    c_string (got ++ junk_bytes m.junk (i * paf_entry_size + length got) (len - length got))

-- the loop of `paf_list_binary`
unfoldable pub list_entries : Machine → PafHeader → ℕ → Stream → List PafIndexEntry → List PafEntry
list_entries m header i fp [] = []
list_entries m header i fp (e ∷ es) =
    let len = clamp_length e.path_length in
    let (got, fp') = fread (fseek fp (path_position header e)) len in
    record {
      path = listed_path m got len i;
      size = u32 e.data_size;
      offset = u32 e.data_offset;
      hash = take 32 e.hash;
    }
    ∷ list_entries m header (i + 1) fp' es

unfoldable pub list_indexed :
    Machine → PafHeader → Option (List PafIndexEntry × Stream) → Outcome (List PafEntry)
list_indexed m header none = err 1
list_indexed m header (some (es, fp)) = ok (list_entries m header 0 fp es)

-- behind the header, with the two allocations and the index
unfoldable pub list_opened : Machine → Option (PafHeader × Stream) → Outcome (List PafEntry)
list_opened m none = err 2
list_opened m (some (header, fp)) =
    if m.malloc (paf_entry_size * header.file_count) && m.malloc (128 * header.file_count)
    then list_indexed m header (read_index fp header)
    else err 1

unfoldable pub list_file : Machine → Option Bytes → Outcome (List PafEntry)
list_file m none = err 1
list_file m (some b) = list_opened m (read_header (open_stream b))

-- The result is the list, or the negative of the return value. `free_paf_list` only releases it.
unfoldable pub paf_list_binary : Machine → Files → Bytes → Outcome (List PafEntry)
paf_list_binary m files paf_path = list_file m (files paf_path)

-- the `for` loop of `file_exists_in_archive`
unfoldable pub has_path : Bytes → List PafEntry → Bool
has_path path [] = false
has_path path (e ∷ es) = bytes_eq e.path path || has_path path es

unfoldable pub exists_in : (List PafEntry → Bool) → Outcome (List PafEntry) → Bool
exists_in test (err _) = false
exists_in test (ok es) = test es

unfoldable pub file_exists_in_archive : Machine → Files → Bytes → Bytes → Bool
file_exists_in_archive m files paf_path path =
    exists_in (has_path path) (paf_list_binary m files paf_path)

-- `strncmp(path, dir, dir_len) == 0 && path[dir_len] == '/'`
abbrev pub slash_at : Bytes → Bool
slash_at [] = false
slash_at (c ∷ _) = c == b'/'

abbrev pub is_under : Bytes → Bytes → Bool
is_under dir path = starts_with dir path && slash_at (drop (length dir) path)

unfoldable pub has_folder : Bytes → List PafEntry → Bool
has_folder dir [] = false
has_folder dir (e ∷ es) = is_under dir e.path || has_folder dir es

unfoldable pub folder_exists_in_archive : Machine → Files → Bytes → Bytes → Bool
folder_exists_in_archive m files paf_path dir =
    if length dir == 0 then false else exists_in (has_folder dir) (paf_list_binary m files paf_path)
