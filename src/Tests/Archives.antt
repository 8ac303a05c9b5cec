-- ===== src/Tests/Archives.antt =====
-- Examples of writing, listing and searching an archive, and of its format.
use paf_archive.Prelude.{
  ◌≡◌, ◌<◌, ◌≤◌, length, ◌↔◌, ◌⊎◌, refl, arith, true, false, [], ◌∷◌, ◌++◌, Any, none, some,
  replicate,
}
use paf_archive.Stdio.{open_stream}
use paf_archive.Format.{
  PafHeader, PafIndexEntry, encode_header, decode_header, encode_entry, decode_entry,
  encode_entries, decode_entries, paf_magic, IsHeader, IsEntry,
}
use paf_archive.Format.RoundTrip.{
  decode_header-encode_header, decode_entry-encode_entry, decode_entries-encode_entries,
}
use paf_archive.Reader.{ok}
use paf_archive.Generator.{
  InputFile, paf_generator_init, paf_generator_flush_batch, buffer_file, paf_generator_add_file,
  paf_generator_add_file_stream, paf_generator_finalize, add_all,
}
use paf_archive.Generator.Spec.{archive}
use paf_archive.Generator.Flush.{Represents, FlushLeaves, flush_batch_leaves}
use paf_archive.Generator.Add.{init-Represents, AddLeaves, add_file-leaves}
use paf_archive.Generator.Streaming.{add_file_stream-leaves}
use paf_archive.Generator.Finalize.{finalize-archive, session-archive}
use paf_archive.Listing.{paf_list_binary, file_exists_in_archive, folder_exists_in_archive}
use paf_archive.Listing.Archive.{listing_from, paf_list_binary-archive}
use paf_archive.Listing.Exists.{IsUnder, file_exists-archive, folder_exists-archive}
use paf_archive.Fnmatch.{fnmatch}
use paf_archive.Fnmatch.Glob.{Glob}
use paf_archive.Fnmatch.Decides.{Answers, fnmatch-Answers}
use paf_archive.Paths.{contains, paf_is_path_safe}
use paf_archive.Paths.Safety.{StaysBelow, HasByte, paf_is_path_safe-StaysBelow}
use paf_archive.Tests.Data.{
  roomy, processor, processor-IsBackend, first_file, two_files, two_files-Fits, one_file-Fits,
  two_files-CleanPaths, paf_name, shelf,
}

session-archive_example :
    paf_generator_finalize roomy processor true
      (add_all roomy processor (paf_generator_init false) two_files)
    ≡ some (archive false two_files)
session-archive_example =
    session-archive roomy processor (λ n. refl) false two_files processor-IsBackend two_files-Fits

paf_list_binary-archive_example :
    paf_list_binary roomy shelf.files paf_name ≡ ok (listing_from false 0 two_files)
paf_list_binary-archive_example =
    paf_list_binary-archive roomy false two_files two_files-Fits shelf.files paf_name (λ n. refl)
      refl two_files-CleanPaths

file_exists-archive_example :
    (file_exists_in_archive roomy shelf.files paf_name (99 ∷ []) ≡ true)
    ↔ Any (λ f. InputFile.path f ≡ 99 ∷ []) two_files
file_exists-archive_example =
    file_exists-archive roomy false two_files two_files-Fits shelf.files paf_name (λ n. refl) refl
      two_files-CleanPaths (99 ∷ [])

folder_exists-archive_example :
    (folder_exists_in_archive roomy shelf.files paf_name (97 ∷ []) ≡ true)
    ↔ Any (λ f. IsUnder (97 ∷ []) (InputFile.path f)) two_files
folder_exists-archive_example =
    folder_exists-archive roomy false two_files two_files-Fits shelf.files paf_name (λ n. refl) refl
      two_files-CleanPaths 97 []

add_file-leaves_example : AddLeaves false [] first_file (
    paf_generator_add_file roomy processor
      (paf_generator_init false)
      first_file.path
      first_file.content)
add_file-leaves_example =
    add_file-leaves roomy processor processor-IsBackend [] first_file one_file-Fits
      (init-Represents false)

add_file_stream-leaves_example : AddLeaves true [] first_file (
    paf_generator_add_file_stream roomy processor
      (paf_generator_init true)
      first_file.path
      (open_stream (104 ∷ 105 ∷ 33 ∷ []))
      2)
add_file_stream-leaves_example =
    add_file_stream-leaves roomy processor processor-IsBackend [] first_file
      (open_stream (104 ∷ 105 ∷ 33 ∷ [])) (33 ∷ []) one_file-Fits (init-Represents true) refl

one_added :
    Represents false
      (first_file ∷ [])
      (paf_generator_add_file roomy processor
        (paf_generator_init false)
        first_file.path
        first_file.content).0
unfolding paf_generator_add_file paf_generator_init buffer_file
one_added =
    add_file-leaves roomy processor processor-IsBackend [] first_file one_file-Fits
      (init-Represents false)

finalize-archive_example :
    (paf_generator_finalize roomy processor true
        (paf_generator_add_file roomy processor
          (paf_generator_init false)
          first_file.path
          first_file.content).0
      ≡ some (archive false (first_file ∷ [])))
    ⊎ (paf_generator_finalize roomy processor true
          (paf_generator_add_file roomy processor
            (paf_generator_init false)
            first_file.path
            first_file.content).0
        ≡ none)
finalize-archive_example =
    finalize-archive roomy processor processor-IsBackend one_file-Fits one_added

flush_batch_leaves_example :
    FlushLeaves false
      (first_file ∷ [])
      (paf_generator_add_file roomy processor
        (paf_generator_init false)
        first_file.path
        first_file.content).0
      (paf_generator_flush_batch roomy processor
        (paf_generator_add_file roomy processor
          (paf_generator_init false)
          first_file.path
          first_file.content).0)
flush_batch_leaves_example =
    flush_batch_leaves roomy processor processor-IsBackend one_file-Fits one_added

abbrev small_header : PafHeader
small_header = record {
  magic = paf_magic;
  version = 2;
  flags = 0;
  file_count = 2;
  index_offset = 37;
  path_offset = 293;
}

small_header-IsHeader : IsHeader small_header
small_header-IsHeader = record {
  magic_size = refl;
  version_fits = omega arith;
  flags_fits = omega arith;
  file_count_fits = omega arith;
  index_offset_fits = omega arith;
  path_offset_fits = omega arith;
}

decode_header-encode_header_example : decode_header (encode_header small_header) ≡ small_header
decode_header-encode_header_example = decode_header-encode_header small_header small_header-IsHeader

abbrev small_entry : PafIndexEntry
small_entry = record {
  path_buffer_offset = 3;
  path_length = 1;
  flags = 4;
  data_offset = 2;
  data_size = 70000;
  hash = replicate 64 7;
  reserved = replicate 32 0;
}

small_entry-IsEntry : IsEntry small_entry
small_entry-IsEntry = record {
  path_buffer_offset_fits = omega arith;
  path_length_fits = omega arith;
  flags_fits = omega arith;
  data_offset_fits = omega arith;
  data_size_fits = omega arith;
  hash_size = refl;
  reserved_size = refl;
}

decode_entry-encode_entry_example : decode_entry (encode_entry small_entry) ≡ small_entry
decode_entry-encode_entry_example = decode_entry-encode_entry small_entry small_entry-IsEntry

decode_entries-encode_entries_example :
    decode_entries 2 (encode_entries (small_entry ∷ small_entry ∷ []) ++ 9 ∷ [])
    ≡ some (small_entry ∷ small_entry ∷ [])
decode_entries-encode_entries_example =
    decode_entries-encode_entries (small_entry ∷ small_entry ∷ []) (9 ∷ [])
      (small_entry-IsEntry, (small_entry-IsEntry, tt))

-- `*.c` and `a.c`
fnmatch-Answers_example :
    Answers
      (Glob (42 ∷ 46 ∷ 99 ∷ []) (97 ∷ 46 ∷ 99 ∷ []))
      (fnmatch (42 ∷ 46 ∷ 99 ∷ []) (97 ∷ 46 ∷ 99 ∷ []))
fnmatch-Answers_example = fnmatch-Answers (42 ∷ 46 ∷ 99 ∷ []) (97 ∷ 46 ∷ 99 ∷ [])

paf_is_path_safe-StaysBelow_example :
    StaysBelow first_file.path
    × (0 < length first_file.path)
    × (length first_file.path ≤ 1023)
    × ¬ HasByte b':' first_file.path
unfolding paf_is_path_safe contains
paf_is_path_safe-StaysBelow_example = paf_is_path_safe-StaysBelow first_file.path refl
