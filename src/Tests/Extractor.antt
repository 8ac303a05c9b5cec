-- ===== src/Tests/Extractor.antt =====
-- Examples of the extractor and of the export, on an archive of two files.
use paf_archive.Prelude.{◌≡◌, refl, arith, true, false, replicate, some}
use paf_archive.Stdio.{open_stream}
use paf_archive.Sha256.{generic}
use paf_archive.Reader.{ok}
use paf_archive.Generator.Spec.{archive, archive_header, entries_from}
use paf_archive.Paths.{is_safe_path, no_dot_dot_segment}
use paf_archive.Extractor.{PafExtractor, paf_extractor_open, paf_extractor_get_file}
use paf_archive.Extractor.Archive.{paf_extractor_open-archive, paf_extractor_get_file-archive}
use paf_archive.Tests.Data.{
  roomy, first_file, two_files, two_files-Fits, first_path-NoNul, paf_name, shelf,
}

paf_extractor_open-archive_example :
    (ext : PafExtractor) × (paf_extractor_open roomy shelf.files paf_name ≡ ok ext)
    × (ext.header ≡ archive_header false two_files)
    × (ext.entries ≡ entries_from false 0 0 two_files)
    × (ext.fp.content ≡ archive false two_files)
paf_extractor_open-archive_example =
    paf_extractor_open-archive roomy two_files two_files-Fits (λ n. refl) shelf.files paf_name
      (omega arith) refl

abbrev opened : PafExtractor
opened = record {
  fp = open_stream (archive false two_files);
  header = archive_header false two_files;
  entries = entries_from false 0 0 two_files;
}

first_path-safe : is_safe_path first_file.path ≡ true
unfolding is_safe_path no_dot_dot_segment
first_path-safe = refl

paf_extractor_get_file-archive_example :
    (paf_extractor_get_file roomy generic (replicate 64 0) shelf.files opened 0 260).0
    ≡ ok (record { path = first_file.path; content = some first_file.content })
paf_extractor_get_file-archive_example =
    paf_extractor_get_file-archive roomy two_files two_files-Fits (λ n. refl) generic
      (replicate 64 0) shelf.files opened 0 260 first_file refl refl refl refl (omega arith)
      (omega arith) first_path-NoNul first_path-safe refl (omega arith)
