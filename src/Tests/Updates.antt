-- ===== src/Tests/Updates.antt =====
-- An example of a patch with a deletion and a new file, and its application.
use paf_archive.Prelude.{
  ◌≡◌, ◌≢◌, refl, arith, true, false, List, [], ◌∷◌, ◌++◌, All, Any, Option, none, some, ◌⊎◌,
  replicate, if◌then◌else◌,
}
use paf_archive.Words.{Bytes}
use paf_archive.Stdio.{Files, bytes_eq, bytes_eq_refl}
use paf_archive.Reader.{ok}
use paf_archive.Sha256.{sha256}
use paf_archive.Disk.{Disk, is_file}
use paf_archive.Delta.{PafDeltaEntry, added, deleted}
use paf_archive.Patch.{joined}
use paf_archive.Patch.Staging.{paf_patch_apply_atomic}
use paf_archive.Patch.Success.{AllAllowed}
use paf_archive.Patch.Places.{IsUsable, Separate, IsPlace}
use paf_archive.Patch.Update.{paf_patch_apply_atomic-patch_of_delta}
use paf_archive.Create.Patching.{patch_of_delta}
use paf_archive.Create.Layout.{PatchItem, patch_archive, FitsPatch, items_of}
use paf_archive.Tests.Data.{roomy, paf_name, target_dir, all_allowed}

all_allowed-AllAllowed : AllAllowed all_allowed
all_allowed-AllAllowed = record { write = λ q. refl; remove = λ q. refl; move = λ q q'. refl }

-- `c` is deleted, and `b` with the content `hi` is added.
abbrev small_delta : List PafDeltaEntry
small_delta =
    record { path = 99 ∷ []; status = deleted; new_offset = 0; data_size = 0; hash = [] }
    ∷ record {
      path = 98 ∷ [];
      status = added;
      new_offset = 0;
      data_size = 2;
      hash = sha256 (104 ∷ 105 ∷ []);
    }
    ∷ []

abbrev small_items : List PatchItem
small_items =
    record { path = 99 ∷ []; flags = 4; payload = []; hash = replicate 64 0 }
    ∷ record {
      path = 98 ∷ [];
      flags = 0;
      payload = 104 ∷ 105 ∷ [];
      hash = sha256 (104 ∷ 105 ∷ []) ++ replicate 32 0;
    }
    ∷ []

abbrev old_dir : Bytes
old_dir = 111 ∷ []

abbrev new_dir : Bytes
new_dir = 110 ∷ []

abbrev sources : Files
sources q = if bytes_eq q (110 ∷ 47 ∷ 98 ∷ []) then some (104 ∷ 105 ∷ []) else none

abbrev stage_disk : Disk
stage_disk = record {
  files = λ q.
      if bytes_eq q paf_name
      then some (patch_archive small_items)
      else if bytes_eq q (116 ∷ 47 ∷ 99 ∷ [])
      then some (7 ∷ [])
      else none;
  folders = [];
}

abbrev wanted : Bytes → Option Bytes
wanted path = if bytes_eq path (98 ∷ []) then some (104 ∷ 105 ∷ []) else none

small_items-items : items_of sources old_dir new_dir small_delta ≡ some small_items
unfolding items_of paf_archive.Create.Patching.part_of paf_archive.Create.Patching.status_part
    paf_archive.Create.Patching.whole_part paf_archive.Create.Layout.item_of
    paf_archive.Patch.copied paf_archive.Patch.copy_loop paf_archive.Stdio.fread
small_items-items = refl

small_items-FitsPatch : FitsPatch small_items
small_items-FitsPatch = record {
  count = omega arith;
  size = omega arith;
  paths = (omega arith, (omega arith, tt));
}

small_items-IsUsable : All (IsUsable target_dir) small_items
unfolding paf_archive.Paths.paf_is_safe_path paf_archive.Paths.contains
small_items-IsUsable = (
  record { some_path = omega arith; short = omega arith; clean = (omega arith, tt); safe = refl },
  (
    record { some_path = omega arith; short = omega arith; clean = (omega arith, tt); safe = refl },
    tt,
  ),
)

differ : (s t : Bytes) → bytes_eq s t ≡ false → s ≢ t
differ s t h e = let k : bytes_eq s t ≡ true = rw e (bytes_eq_refl t) in absurd (cc)

small_items-Separate : Separate target_dir small_items
small_items-Separate =
    ((((λ e. differ _ _ refl e), (λ e. differ _ _ refl e), (λ e. differ _ _ refl e)), tt), (tt, tt))

deleted-is_file : is_file (stage_disk.files (joined target_dir (99 ∷ []))) ≡ true
unfolding is_file
deleted-is_file = refl

paf_patch_apply_atomic-patch_of_delta_example :
    (patch_of_delta sources old_dir new_dir true (ok small_delta)
      ≡ some (ok (patch_archive small_items)))
    × ((paf_patch_apply_atomic roomy all_allowed (replicate 64 0) paf_name target_dir stage_disk).0
        ≡ ok tt)
    × All
        (λ (e : PafDeltaEntry).
          (paf_patch_apply_atomic roomy all_allowed
              (replicate 64 0)
              paf_name
              target_dir
              stage_disk).1.files
            (joined target_dir e.path)
          ≡ wanted e.path)
        small_delta
    × ((q : Bytes)
        → ((paf_patch_apply_atomic roomy all_allowed
                (replicate 64 0)
                paf_name
                target_dir
                stage_disk).1.files
              q
            ≡ stage_disk.files q)
          ⊎ Any (IsPlace target_dir q) small_items)
paf_patch_apply_atomic-patch_of_delta_example =
    paf_patch_apply_atomic-patch_of_delta sources old_dir new_dir target_dir stage_disk roomy
      (λ n. refl) (replicate 64 0) refl wanted all_allowed all_allowed-AllAllowed small_delta
      small_items paf_name small_items-items small_items-FitsPatch small_items-IsUsable
      small_items-Separate ((deleted-is_file, refl), ((_, refl, (refl, omega arith, refl)), tt))
      refl
