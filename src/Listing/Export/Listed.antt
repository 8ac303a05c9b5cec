-- ===== src/Listing/Export/Listed.antt =====
-- The file that `paf_export_index` of libpaf/src/libpaf_list.c makes of an archive, as
-- `paf_list_binary` lists it.
use paf_archive.Prelude.{ℕ, ◌≡◌, true, false, List, ◌++◌}
use paf_archive.Words.{Bytes}
use paf_archive.Stdio.{Machine}
use paf_archive.Format.{PafHeader, encode_header, encode_entries, paf_flag_index_only}
use paf_archive.Generator.{InputFile}
use paf_archive.Generator.Spec.{path_bytes, stored, entries_from, archive_header, Fits}

-- The header with the flag of an index alone.
abbrev flagged : List InputFile → PafHeader
flagged fs = record (archive_header false fs) { flags = paf_flag_index_only }

module _ (m : Machine) (memory : (n : ℕ) → m.malloc n ≡ true) (fs : List InputFile)
    (fits : Fits fs) where
  abbrev top : Bytes
  top = encode_header (flagged fs)

  abbrev body : Bytes
  body = stored false fs ++ (encode_entries (entries_from false 0 0 fs) ++ path_bytes fs)
