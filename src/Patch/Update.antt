-- ===== src/Patch/Update.antt =====
-- A patch made from two directories by `paf_create_patch` of libpaf/src/libpaf_core.c, and applied by
-- `paf_patch_apply_atomic` of libpaf_patch.c where the old files are.
use paf_archive.Prelude.{
  ℕ, ◌<◌, ◌≡◌, ◌^◌, refl, ap, ap₂, sym, ◌∙◌, arith, true, false, List, [], ◌∷◌, ◌++◌, length,
  replicate, take, All, Any, Option, none, some, ◌⊎◌, inl, inr, if-cases, length-append,
  take-append,
}
use paf_archive.Words.{Bytes}
use paf_archive.Stdio.{Machine, Files}
use paf_archive.Format.{paf_entry_deleted, paf_entry_binary_delta}
use paf_archive.Reader.{ok}
use paf_archive.Sha256.{sha256, paf_sha256_generic}
use paf_archive.Sha256.Padding.{paf_sha256_generic_lem, length-sha256}
use paf_archive.BinaryDelta.{paf_bdelta_apply}
use paf_archive.BinaryDelta.RoundTrip.{paf_bdelta_apply-create}
use paf_archive.Disk.{Disk, Access, is_file}
use paf_archive.Delta.{PafDeltaEntry, PafDeltaStatus, added, updated, deleted}
use paf_archive.Patch.{joined, copied}
use paf_archive.Patch.Copying.{copied-some}
use paf_archive.Patch.Staging.{has_flag, paf_patch_apply_atomic}
use paf_archive.Patch.Success.{AllAllowed, Carries}
use paf_archive.Patch.Reading.{IsItem}
use paf_archive.Patch.Places.{IsUsable, Separate, IsPlace, target, All-map}
use paf_archive.Patch.Items.{paf_patch_apply_atomic-items}
use paf_archive.Create.{path_in}
use paf_archive.Create.Patching.{
  PatchPart, deletion, content, whole_part, delta_of, is_small, delta_part, updated_part,
  status_part, part_of, patch_of_delta,
}
use paf_archive.Create.Layout.{PatchItem, item_entry, patch_archive, FitsPatch, item_of, items_of}
use paf_archive.Create.Making.{and_then-some, patch_of_delta-items}

All-along : {A : Type 0} (P : A → Type 0) (xs ys : List A) → xs ≡ ys → All P xs → All P ys
All-along P xs ys e h = rw (sym e) h

-- The content is that of a file below 4 GB with this hash.
abbrev pub IsNew : Bytes → Bytes → Option Bytes → Type 0
IsNew hash new goal = (hash ≡ sha256 new) × (length new < 2 ^ 32) × (goal ≡ some new)

module _ (files : Files) (old_dir new_dir dst_dir : Bytes) (d : Disk) where
  -- The directories are as an entry of the delta says, and `goal` is what its file is to be: none
  -- where it is DELETED and the destination has the file, the new directory's where it is ADDED, and
  -- so where it is UPDATED and the destination has the file of the old directory.
  abbrev pub Due : PafDeltaStatus → Bytes → Bytes → Option Bytes → Type 0
  Due deleted path hash goal = (is_file (d.files (joined dst_dir path)) ≡ true) × (goal ≡ none)
  Due added path hash goal =
      (new : Bytes) × (files (path_in new_dir path) ≡ some new) × IsNew hash new goal
  Due updated path hash goal =
      (old : Bytes) × (new : Bytes) × (files (path_in old_dir path) ≡ some old)
      × (files (path_in new_dir path) ≡ some new)
      × (length old < 2 ^ 32)
      × (d.files (joined dst_dir path) ≡ some old)
      × IsNew hash new goal

  module _ (m : Machine) (memory : (n : ℕ) → m.malloc n ≡ true) (stack : Bytes)
      (full : length stack ≡ 64) where
    -- A part carries the file at its path to the goal, wherever its item stands in the patch.
    abbrev Sound : Bytes → Option Bytes → PatchPart → Type 0
    Sound path goal part =
        (t : PatchItem) × (item_of path part ≡ some t)
        × (t.path ≡ path)
        × IsItem t
        × ((p q : ℕ)
            → Carries m stack (item_entry p q t) t.payload (d.files (joined dst_dir path)) goal)

    deletion-Sound :
        (path : Bytes) (goal : Option Bytes)
        → is_file (d.files (joined dst_dir path)) ≡ true
        → goal ≡ none
        → Sound path goal deletion
    unfolding item_of
    deletion-Sound path goal there gone =
        (_, refl, refl, (refl, omega arith), λ p q. inl (refl, there, gone))

    stored_hash : (hash new : Bytes) → hash ≡ sha256 new → length hash ≡ 32
    stored_hash hash new h = ap length h ∙ length-sha256 new

    new-HasHash :
        (hash new : Bytes)
        → hash ≡ sha256 new
        → length new < 2 ^ 32
        → paf_sha256_generic stack new ≡ take 32 (hash ++ replicate 32 0)
    new-HasHash hash new h small =
        paf_sha256_generic_lem new (omega arith) stack full
        ∙ sym h
        ∙ sym (take-append 32 hash (replicate 32 0) (stored_hash hash new h))

    content-Sound :
        (path : Bytes) (goal : Option Bytes) (flags : ℕ) (payload hash new : Bytes)
        → flags < 2 ^ 32
        → has_flag flags paf_entry_deleted ≡ false
        → IsNew hash new goal
        → (((has_flag flags paf_entry_binary_delta ≡ false) × (new ≡ payload))
            ⊎ ((has_flag flags paf_entry_binary_delta ≡ true)
                × (paf_bdelta_apply m payload (d.files (joined dst_dir path)) ≡ some (true, new))))
        → Sound path goal (content flags payload hash)
    unfolding item_of
    content-Sound path goal flags payload hash new fits kept (h, small, is_new) how = (
      record { path = path; flags = flags; payload = payload; hash = hash ++ replicate 32 0 },
      refl,
      refl,
      (omega (arith, length-append hash (replicate 32 0), stored_hash hash new h), fits),
      λ p q. inr (kept, (new, is_new, new-HasHash hash new h small, how)),
    )

    whole-Sound :
        (path : Bytes) (goal : Option Bytes) (hash new : Bytes)
        → IsNew hash new goal
        → Sound path goal (whole_part hash (some new))
    unfolding whole_part
    whole-Sound path goal hash new is_new =
        content-Sound path goal 0 (copied (some new)) hash new (omega arith) refl is_new
          (inl (refl, sym (copied-some new)))

    -- The part of an entry.
    abbrev SoundPart : Bytes → Option Bytes → Option PatchPart → Type 0
    SoundPart path goal o = (part : PatchPart) × (o ≡ some part) × Sound path goal part

    updated-Sound :
        (path : Bytes) (goal : Option Bytes) (hash old new : Bytes)
        → d.files (joined dst_dir path) ≡ some old
        → length old < 2 ^ 32
        → IsNew hash new goal
        → SoundPart path goal (updated_part hash (some old) (some new))
    unfolding updated_part delta_of delta_part
    updated-Sound path goal hash old new there small is_new =
        if-cases (SoundPart path goal) (is_small (some old))
          (λ h.
            let (delta, made, applied) = paf_bdelta_apply-create m old new memory small is_new.1 in
            let how : paf_bdelta_apply m delta (d.files (joined dst_dir path)) ≡ some (true, new) =
              ap (paf_bdelta_apply m delta) there ∙ applied in
            (
              content paf_entry_binary_delta delta hash,
              rw made refl,
              content-Sound path goal paf_entry_binary_delta delta hash new (omega arith) refl
                  is_new (inr (refl, how)),
            ))
          (λ h. (whole_part hash (some new), refl, whole-Sound path goal hash new is_new))

    status-Sound :
        (status : PafDeltaStatus) (path hash : Bytes) (goal : Option Bytes)
        → Due status path hash goal
        → SoundPart path goal (status_part files old_dir new_dir status path hash)
    unfolding status_part
    status-Sound deleted path hash goal (there, gone) =
        (deletion, refl, deletion-Sound path goal there gone)
    status-Sound added path hash goal (new, at_new, is_new) = (
      whole_part hash (some new),
      ap (λ (o : Option Bytes). some (whole_part hash o)) at_new,
      whole-Sound path goal hash new is_new,
    )
    status-Sound updated path hash goal (old, new, at_old, at_new, small, there, is_new) =
        let (part, is_part, sound) = updated-Sound path goal hash old new there small is_new in
        (part, ap₂ (updated_part hash) at_old at_new ∙ is_part, sound)

    -- The item of a sound part is the one that was found.
    Sound-IsItem :
        (path : Bytes) (g : Option Bytes) (o : Option PatchPart) (part : PatchPart) (t : PatchItem)
        → SoundPart path g o
        → o ≡ some part
        → item_of path part ≡ some t
        → (t.path ≡ path)
          × IsItem t
          × ((p q : ℕ)
              → Carries m stack (item_entry p q t) t.payload (d.files (joined dst_dir path)) g)
    Sound-IsItem path g o part t (part', is_part', (t', item', named, fits, carries)) is_part item =
        let one_part : part' ≡ part = cc in
        let both : some t' ≡ some t = sym item' ∙ ap (item_of path) one_part ∙ item in
        let one : t' ≡ t = cc in rw (← one) (named, fits, carries)

    module _ (goal : Bytes → Option Bytes) where
      abbrev DueEntry : PafDeltaEntry → Type 0
      DueEntry e = Due e.status e.path e.hash (goal e.path)

      abbrev ReadyItem : PatchItem → Type 0
      ReadyItem t =
          IsItem t
          × ((p q : ℕ)
              → Carries m stack (item_entry p q t) t.payload (d.files (target dst_dir t))
                  (goal t.path))

      at_path :
          (t : PatchItem) (path' path : Bytes)
          → path' ≡ path
          → ((p q : ℕ)
              → Carries m stack
                  (item_entry p q t)
                  t.payload
                  (d.files (joined dst_dir path))
                  (goal path))
          → (p q : ℕ)
          → Carries m stack
              (item_entry p q t)
              t.payload
              (d.files (joined dst_dir path'))
              (goal path')
      at_path t path' path e h = rw e h

      -- The items of a delta whose entries are all due.
      items_of-ReadyItem :
          (es : List PafDeltaEntry) (ts : List PatchItem)
          → All DueEntry es
          → items_of files old_dir new_dir es ≡ some ts
          → All ReadyItem ts
      unfolding items_of part_of
      items_of-ReadyItem [] ts due h = let same : ts ≡ [] = cc in rw same tt
      items_of-ReadyItem (e ∷ es) ts (now, due) h =
          let (part, is_part, h1) = and_then-some (part_of files old_dir new_dir e) _ ts h in
          let (t, item, h2) = and_then-some (item_of e.path part) _ ts h1 in
          let (us, others, h3) = and_then-some (items_of files old_dir new_dir es) _ ts h2 in
          let same : ts ≡ t ∷ us = cc in
          let (named, fits, carries) =
            Sound-IsItem e.path (goal e.path) (part_of files old_dir new_dir e) part t
              (status-Sound e.status e.path e.hash (goal e.path) now) is_part item in
          rw same
            ((fits, at_path t t.path e.path named carries), items_of-ReadyItem es us due others)

      -- The files of the items are those of the entries.
      entries-Reached :
          (d' : Disk) (es : List PafDeltaEntry) (ts : List PatchItem)
          → All DueEntry es
          → items_of files old_dir new_dir es ≡ some ts
          → All (λ (t : PatchItem). d'.files (target dst_dir t) ≡ goal t.path) ts
          → All (λ (e : PafDeltaEntry). d'.files (joined dst_dir e.path) ≡ goal e.path) es
      unfolding items_of part_of
      entries-Reached d' [] ts due h reached = tt
      entries-Reached d' (e ∷ es) ts (now, due) h reached =
          let (part, is_part, h1) = and_then-some (part_of files old_dir new_dir e) _ ts h in
          let (t, item, h2) = and_then-some (item_of e.path part) _ ts h1 in
          let (us, others, h3) = and_then-some (items_of files old_dir new_dir es) _ ts h2 in
          let same : ts ≡ t ∷ us = cc in
          let (named, fits, carries) =
            Sound-IsItem e.path (goal e.path) (part_of files old_dir new_dir e) part t
              (status-Sound e.status e.path e.hash (goal e.path) now) is_part item in
          let (first, rest) = All-along _ ts (t ∷ us) same reached in
          (
            ap (λ (q : Bytes). d'.files (joined dst_dir q)) (sym named) ∙ first ∙ ap goal named,
            entries-Reached d' es us due others rest,
          )

      -- A delta whose entries are all due gives a patch, and the patch, applied where the old files
      -- are, gives each file what is due: a DELETED file is gone, an ADDED one has the bytes of the
      -- new directory, and an UPDATED one too, whether the patch holds it whole or as a binary delta
      -- against the old file. The call returns 0, and no other file changes but staging files. All
      -- writes, removals and renames are allowed and there is memory; the patch fits its format, its
      -- paths can be used, and none is the file or the staging file of another; the files have less
      -- than 4 GB and the delta has their hashes.
      pub paf_patch_apply_atomic-patch_of_delta :
          (a : Access)
          → AllAllowed a
          → (delta : List PafDeltaEntry) (ts : List PatchItem) (patch_paf : Bytes)
          → items_of files old_dir new_dir delta ≡ some ts
          → FitsPatch ts
          → All (IsUsable dst_dir) ts
          → Separate dst_dir ts
          → All DueEntry delta
          → d.files patch_paf ≡ some (patch_archive ts)
          → (patch_of_delta files old_dir new_dir true (ok delta) ≡ some (ok (patch_archive ts)))
            × ((paf_patch_apply_atomic m a stack patch_paf dst_dir d).0 ≡ ok tt)
            × All
                (λ (e : PafDeltaEntry).
                  (paf_patch_apply_atomic m a stack patch_paf dst_dir d).1.files
                    (joined dst_dir e.path)
                  ≡ goal e.path)
                delta
            × ((q : Bytes)
                → ((paf_patch_apply_atomic m a stack patch_paf dst_dir d).1.files q ≡ d.files q)
                  ⊎ Any (IsPlace dst_dir q) ts)
      paf_patch_apply_atomic-patch_of_delta a free delta ts patch_paf items fits usable apart due
            there =
          let ready = items_of-ReadyItem delta ts due items in
          let (done, reached, same) =
            paf_patch_apply_atomic-items m a free memory stack dst_dir
              (λ (t : PatchItem). goal t.path) ts fits
              (All-map ReadyItem IsItem (λ t (fit, carries). fit) ts ready) patch_paf d there usable
              apart
              (All-map ReadyItem
                (λ (t : PatchItem).
                  (p q : ℕ)
                  → Carries m stack (item_entry p q t) t.payload (d.files (target dst_dir t))
                      (goal t.path))
                (λ t (fit, carries). carries) ts ready) in
          (
            patch_of_delta-items files old_dir new_dir delta ts items fits,
            done,
            entries-Reached (paf_patch_apply_atomic m a stack patch_paf dst_dir d).1 delta ts due
                items reached,
            same,
          )
