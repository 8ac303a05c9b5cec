-- ===== src/Tests/Patches.antt =====
-- Examples of the comparison of two archives, and of a patch.
use paf_archive.Prelude.{
  ◌<◌, ◌^◌, ◌≡◌, refl, sym, ◌∙◌, arith, false, List, [], ◌∷◌, ◌++◌, length, Any, replicate, some,
  ◌⊎◌, ◌↔◌,
}
use paf_archive.Stdio.{open_stream}
use paf_archive.Format.{PafEntry}
use paf_archive.Reader.{Outcome, ok}
use paf_archive.Generator.Spec.{archive, archive_header, entries_from, entry_of}
use paf_archive.Listing.{paf_list_binary, has_path}
use paf_archive.Listing.Archive.{listing_from, paf_list_binary-archive}
use paf_archive.Extract.Archive.{open_archive-archive}
use paf_archive.Delta.{PafDeltaEntry, paf_delta_calculate}
use paf_archive.Delta.Filling.{Distinct}
use paf_archive.Delta.Searching.{changes}
use paf_archive.Delta.Changes.{IsAdded, paf_delta_calculate-changes}
use paf_archive.Delta.Ends.{paf_delta_calculate-ends}
use paf_archive.Patch.Staging.{paf_patch_apply_atomic, patch_to}
use paf_archive.Patch.Atomic.{Patched, patch_to-Patched}
use paf_archive.Patch.Run.{IsStageBelow, IsAsked, paf_patch_apply_atomic-Changed}
use paf_archive.Tests.Data.{
  roomy, first_file, second_file, two_files, two_files-Fits, one_file-Fits, two_files-CleanPaths,
  one_file-CleanPaths, paf_name, old_name, target_dir, shelf, both, all_allowed,
}

abbrev old_list : List PafEntry
old_list = listing_from false 0 (first_file ∷ [])

abbrev new_list : List PafEntry
new_list = listing_from false 0 two_files

old_list-lists : paf_list_binary roomy both old_name ≡ ok old_list
old_list-lists =
    paf_list_binary-archive roomy false (first_file ∷ []) one_file-Fits both old_name (λ n. refl)
      refl one_file-CleanPaths

new_list-lists : paf_list_binary roomy both paf_name ≡ ok new_list
new_list-lists =
    paf_list_binary-archive roomy false two_files two_files-Fits both paf_name (λ n. refl) refl
      two_files-CleanPaths

new_list-Distinct : Distinct new_list
unfolding has_path
new_list-Distinct = (refl, (refl, tt))

-- The one old file is still there, and the second file is added.
paf_delta_calculate-changes_example :
    (more : List PafDeltaEntry) × (paf_delta_calculate roomy both old_name paf_name
      ≡ some (ok (changes roomy 0 new_list old_list ++ more)))
    × ((d : PafDeltaEntry) → Any (λ (x : PafDeltaEntry). d ≡ x) more ↔ IsAdded old_list new_list d)
paf_delta_calculate-changes_example =
    paf_delta_calculate-changes roomy old_list new_list (omega arith) new_list-Distinct both
      old_name paf_name (λ n. refl) old_list-lists new_list-lists

paf_delta_calculate-ends_example :
    (r : Outcome (List PafDeltaEntry)) × (paf_delta_calculate roomy both old_name paf_name ≡ some r)
paf_delta_calculate-ends_example =
    paf_delta_calculate-ends roomy both old_name paf_name
      (λ es e. few es (ok_inj new_list es (sym new_list-lists ∙ e)))
  where
    ok_inj : (a b : List PafEntry) → ok a ≡ ok b → a ≡ b
    ok_inj a b h = cc

    few : (es : List PafEntry) → new_list ≡ es → length es < 2 ^ 30
    few es e = rw (sym e) (omega arith)

-- The archive of two files is applied as a patch to the folder `t`.
paf_patch_apply_atomic-Changed_example :
    ((paf_patch_apply_atomic roomy all_allowed (replicate 64 0) paf_name target_dir shelf).1.files
        (116 ∷ 47 ∷ 99 ∷ [])
      ≡ shelf.files (116 ∷ 47 ∷ 99 ∷ []))
    ⊎ (IsStageBelow target_dir (116 ∷ 47 ∷ 99 ∷ [])
        ⊎ IsAsked
            (replicate 64 0)
            target_dir
            (entries_from false 0 0 two_files)
            (116 ∷ 47 ∷ 99 ∷ [])
            (paf_patch_apply_atomic roomy all_allowed (replicate 64 0) paf_name target_dir shelf).1)
paf_patch_apply_atomic-Changed_example =
    paf_patch_apply_atomic-Changed roomy all_allowed (replicate 64 0) target_dir paf_name shelf
      (record {
        header = archive_header false two_files;
        entries = entries_from false 0 0 two_files;
        fp = (open_archive-archive roomy false two_files two_files-Fits (λ n. refl)).0;
      })
      (116 ∷ 47 ∷ 99 ∷ []) (open_archive-archive roomy false two_files two_files-Fits (λ n. refl)).1

patch_to-Patched_example :
    Patched (replicate 64 0) (entry_of 0 0 second_file) (116 ∷ 47 ∷ 99 ∷ []) shelf (
      patch_to roomy all_allowed
        (replicate 64 0)
        (entry_of 0 0 second_file)
        (116 ∷ 47 ∷ 99 ∷ [])
        (open_stream (archive false two_files))
        shelf)
patch_to-Patched_example =
    patch_to-Patched roomy all_allowed (replicate 64 0) (entry_of 0 0 second_file)
      (116 ∷ 47 ∷ 99 ∷ []) (open_stream (archive false two_files)) shelf
