-- ===== src/Patch/Run.antt =====
-- The whole loop of `paf_patch_apply_atomic` in libpaf/src/libpaf_patch.c, at any patch archive.
use paf_archive.Prelude.{
  ℕ, ◌≡◌, refl, ap, ◌∙◌, arith, Bool, true, List, [], ◌∷◌, ◌++◌, Any, Option, none, some, ◌⊎◌, inl,
  inr, if-cases,
}
use paf_archive.Words.{Bytes}
use paf_archive.Stdio.{Machine, Stream}
use paf_archive.Format.{PafHeader, PafIndexEntry}
use paf_archive.Reader.{ok}
use paf_archive.Paths.{paf_is_safe_path}
use paf_archive.Paths.Safety.{paf_is_safe_path-StaysBelow}
use paf_archive.Extract.{Opened, open_archive}
use paf_archive.Extract.Confined.{IsBelow}
use paf_archive.Disk.{Disk, Access}
use paf_archive.Patch.{joined, count_error}
use paf_archive.Patch.Staging.{
  stage_suffix, patch_to, usable, patch_path, read_rel_path, patch_entry, patch_entries,
  patch_opened, paf_patch_apply_atomic,
}
use paf_archive.Patch.Atomic.{Asked, Patched, patch_to-Patched}

-- The path is that of a staging file of a file below the folder.
abbrev pub IsStageBelow : Bytes → Bytes → Type 0
IsStageBelow dst_dir q = (s : Bytes) × (q ≡ s ++ stage_suffix) × IsBelow dst_dir s

module _ (stack dst_dir : Bytes) where
  -- A file below the folder that is as one of these entries asks.
  abbrev pub IsAsked : List PafIndexEntry → Bytes → Disk → Type 0
  IsAsked es q d = IsBelow dst_dir q × Any (λ (e : PafIndexEntry). Asked stack e (d.files q)) es

  -- What may be with each path behind these entries.
  abbrev pub Changed : List PafIndexEntry → Disk → Disk → Type 0
  Changed es d d' =
      (q : Bytes) → (d'.files q ≡ d.files q) ⊎ (IsStageBelow dst_dir q ⊎ IsAsked es q d')

  Changed-refl : (es : List PafIndexEntry) (d : Disk) → Changed es d d
  Changed-refl es d q = inl refl

  Patched-Changed :
      (e : PafIndexEntry) (dst : Bytes) (d : Disk) (r : Bool × Stream × Disk)
      → IsBelow dst_dir dst
      → Patched stack e dst d r
      → Changed (e ∷ []) d r.2
  Patched-Changed e dst d r below (inl (failed, only)) q = elim (only q) [
    | inl same ↦ inl same
    | inr stage ↦ inr (inl (dst, stage, below))
  ]
  Patched-Changed e dst d r below (inr (done, asked, only)) q = elim (only q) [
    | inl same ↦ inl same
    | inr (inl stage) ↦ inr (inl (dst, stage, below))
    | inr (inr here) ↦ inr (inr (rw here below, inl (rw (ap r.2.files here) asked)))
  ]

  Changed-trans :
      (e : PafIndexEntry) (es : List PafIndexEntry) (d d1 d2 : Disk)
      → Changed (e ∷ []) d d1
      → Changed es d1 d2
      → Changed (e ∷ es) d d2
  Changed-trans e es d d1 d2 h k q = elim (k q) [
    | inl same ↦ elim (h q) [
      | inl same' ↦ inl (same ∙ same')
      | inr (inl stage) ↦ inr (inl stage)
      | inr (inr (below, inl asked)) ↦ inr (inr (below, inl (rw same asked)))
      | inr (inr (below, inr asked)) ↦ elim asked [ ]
    ]
    | inr (inl stage) ↦ inr (inl stage)
    | inr (inr (below, asked)) ↦ inr (inr (below, inr asked))
  ]

  usable-IsBelow : (rel : Bytes) → usable dst_dir rel ≡ true → IsBelow dst_dir (joined dst_dir rel)
  usable-IsBelow rel h =
      let safe : paf_is_safe_path rel ≡ true = ground arith in
      let stays = paf_is_safe_path-StaysBelow rel safe in (rel, refl, stays.no_up)

module _ (m : Machine) (a : Access) (stack dst_dir : Bytes) where
  patch_path-Changed :
      (e : PafIndexEntry) (rel : Option Bytes) (fp : Stream) (d : Disk)
      → Changed stack dst_dir (e ∷ []) d (patch_path m a stack dst_dir e rel fp d).2
  unfolding patch_path
  patch_path-Changed e none fp d = Changed-refl stack dst_dir (e ∷ []) d
  patch_path-Changed e (some rel) fp d =
      if-cases (λ (r : Bool × Stream × Disk). Changed stack dst_dir (e ∷ []) d r.2)
        (usable dst_dir rel)
        (λ h.
          Patched-Changed stack dst_dir e (joined dst_dir rel) d
            (patch_to m a stack e (joined dst_dir rel) fp d) (usable-IsBelow stack dst_dir rel h)
            (patch_to-Patched m a stack e (joined dst_dir rel) fp d))
        (λ h. Changed-refl stack dst_dir (e ∷ []) d)

  patch_entries-Changed :
      (header : PafHeader) (es : List PafIndexEntry) (errors : ℕ) (fp : Stream) (d : Disk)
      → Changed stack dst_dir es d (patch_entries m a stack dst_dir header es errors fp d).1
  unfolding patch_entries patch_entry
  patch_entries-Changed header [] errors fp d = Changed-refl stack dst_dir [] d
  patch_entries-Changed header (e ∷ es) errors fp d =
      let rel = read_rel_path header e fp in
      let r = patch_path m a stack dst_dir e rel.0 rel.1 d in
      let errors' = count_error r.0 errors in
      let last = (patch_entries m a stack dst_dir header es errors' r.1 r.2).1 in
      Changed-trans stack dst_dir e es d r.2 last (patch_path-Changed e rel.0 rel.1 d)
        (patch_entries-Changed header es errors' r.1 r.2)

  -- At any patch archive that opens, and whatever fails on the way: behind
  -- `paf_patch_apply_atomic` each path still has the file it had, or is a staging name of a file
  -- below the destination folder, or is below that folder and has what some entry of the patch asks
  -- for: no file where the entry is marked DELETED, and otherwise bytes whose digest by the portable
  -- code is the hash that the entry states. Below the folder means the folder, a slash, and a name
  -- with no `..` segment.
  pub paf_patch_apply_atomic-Changed :
      (patch_paf : Bytes) (d : Disk) (o : Opened) (q : Bytes)
      → open_archive m (d.files patch_paf) ≡ ok o
      → ((paf_patch_apply_atomic m a stack patch_paf dst_dir d).1.files q ≡ d.files q)
        ⊎ (IsStageBelow dst_dir q
            ⊎ IsAsked stack dst_dir o.entries q
                (paf_patch_apply_atomic m a stack patch_paf dst_dir d).1)
  unfolding paf_patch_apply_atomic patch_opened
  paf_patch_apply_atomic-Changed patch_paf d o q opens =
      rw opens (patch_entries-Changed o.header o.entries 0 o.fp d q)
