-- ===== src/Delta/Changes.antt =====
-- The whole of `paf_delta_calculate` in libpaf/src/paf_delta.c: its result beside a comparison of
-- the two lists without the map.
use paf_archive.Prelude.{
  ℕ, zero, suc, ◌+◌, ◌*◌, ◌<◌, ◌≤◌, ◌^◌, ◌≡◌, refl, ap, sym, ◌∙◌, arith, Bool, true, false, List,
  [], ◌∷◌, ◌++◌, length, Option, some, get_elem?, Any, if◌then◌else◌, ◌↔◌, ◌⊎◌, inl, inr,
  Option-cases, take,
}
use native.Mathlib.Decide.{ℕ_discrete}
use paf_archive.Words.{Bytes, u32}
use paf_archive.Stdio.{Machine, Files}
use paf_archive.Format.{PafEntry}
use paf_archive.Reader.{ok}
use paf_archive.Listing.{paf_list_binary, has_path}
use paf_archive.Delta.{
  PathMap, HashNode, PafDeltaEntry, added, added_entry, added_at, added_from, map_size, with_added,
  find_changes, delta_entry_size, compare_all, no_entry, calculate_listed, paf_delta_calculate,
  with_slot,
}
use paf_archive.Delta.Filling.{Distinct, Filled, fill_map-Filled, node_of}
use paf_archive.Delta.Searching.{changes}
use paf_archive.Delta.Comparing.{mark, get_or-get_elem, compare_all-changes}

module _ {ℓ κ} {A : Type ℓ} (P : A → Type κ) where
  Any-left : (xs ys : List A) → Any P xs → Any P (xs ++ ys)
  Any-left [] ys p = elim p [ ]
  Any-left (x ∷ xs) ys (inl p) = inl p
  Any-left (x ∷ xs) ys (inr p) = inr (Any-left xs ys p)

  Any-right : (xs ys : List A) → Any P ys → Any P (xs ++ ys)
  Any-right [] ys p = p
  Any-right (x ∷ xs) ys p = inr (Any-right xs ys p)

  Any-split : (xs ys : List A) → Any P (xs ++ ys) → Any P xs ⊎ Any P ys
  Any-split [] ys p = inr p
  Any-split (x ∷ xs) ys (inl p) = inl (inl p)
  Any-split (x ∷ xs) ys (inr p) = elim (Any-split xs ys p) [ inl q ↦ inl (inr q) | inr q ↦ inr q ]

  Any-get : (xs : List A) → Any P xs → (i : ℕ) × (x : A) × (get_elem? xs i ≡ some x) × P x
  Any-get [] p = elim p [ ]
  Any-get (x ∷ xs) (inl p) = (0, x, refl, p)
  Any-get (x ∷ xs) (inr p) = let (i, y, at, q) = Any-get xs p in (suc i, y, at, q)

  get-Any : (xs : List A) (i : ℕ) (x : A) → get_elem? xs i ≡ some x → P x → Any P xs
  get-Any [] i x at p = absurd (cc)
  get-Any (y ∷ xs) zero x at p = let same : x ≡ y = cc in inl (rw (sym same) p)
  get-Any (y ∷ xs) (suc i) x at p = inr (get-Any xs i x at p)

  Any-along : (xs ys : List A) → xs ≡ ys → Any P xs → Any P ys
  Any-along xs ys e p = rw (sym e) p

  Any-if : (b : Bool) (x : A) → Any P (if b then [] else x ∷ []) → (b ≡ false) × P x
  Any-if true x p = elim p [ ]
  Any-if false x (inl p) = (refl, p)
  Any-if false x (inr p) = elim p [ ]

-- The loop over the slots collects what each slot gives.
Any-added_from :
    (P : PafDeltaEntry → Type 0) (n i : ℕ) (new : List PafEntry) (t : PathMap)
    → Any P (added_from n i new t)
    → (h : ℕ) × Any P (added_at new (t h))
unfolding added_from
Any-added_from P zero i new t a = elim a [ ]
Any-added_from P (suc n) i new t a =
    elim (Any-split P (added_at new (t i)) (added_from n (i + 1) new t) a) [
      | inl b ↦ (i, b)
      | inr b ↦ Any-added_from P n (i + 1) new t b
    ]

added_from-Any :
    (P : PafDeltaEntry → Type 0) (n i h : ℕ) (new : List PafEntry) (t : PathMap)
    → i ≤ h
    → h < i + n
    → Any P (added_at new (t h))
    → Any P (added_from n i new t)
unfolding added_from
added_from-Any P zero i h new t lo hi a = absurd (omega arith)
added_from-Any P (suc n) i h new t lo hi a = elim (ℕ_discrete i h) [
  | yes here ↦ Any-left P (added_at new (t i)) (added_from n (i + 1) new t) (rw here a)
  | no later ↦
      Any-right P (added_at new (t i)) (added_from n (i + 1) new t)
        (added_from-Any P n (i + 1) h new t (omega arith) (omega arith) a)
]

-- The change is ADDED for one of the entries of the new list with a path that the old list has not,
-- with the place, the size and the hash of the new list, and a path of at most 1023 bytes.
abbrev pub IsAdded : List PafEntry → List PafEntry → PafDeltaEntry → Type 0
IsAdded old new d =
    Any
      (λ (e : PafEntry).
        (has_path e.path old ≡ false)
        × (d ≡ record {
          path = take 1023 e.path;
          status = added;
          new_offset = e.offset;
          data_size = e.size;
          hash = e.hash;
        }))
      new

-- What a slot gives, when its path was marked where the old list has it.
added_at-mark :
    (new : List PafEntry) (met : Bytes → Bool) (e : PafEntry) (i : ℕ)
    → get_elem? new i ≡ some e
    → added_at new (mark met (some (node_of e i))) ≡ (if met e.path then [] else added_entry e ∷ [])
unfolding added_at mark
added_at-mark new met e i at =
    ap (λ (x : PafEntry). if met e.path then [] else added_entry x ∷ [])
      (get_or-get_elem new i e no_entry at)

module _ (size : ℕ) (new : List PafEntry) (t : PathMap) (filled : Filled size new t) where
  slot-added :
      (met : Bytes → Bool) (h : ℕ) (d : PafDeltaEntry)
      → Any (λ (x : PafDeltaEntry). d ≡ x) (added_at new (mark met (t h)))
      → Any (λ (e : PafEntry). (met e.path ≡ false) × (d ≡ added_entry e)) new
  unfolding mark added_at
  slot-added met h d a =
      let gives : Option HashNode → List PafDeltaEntry = λ s. added_at new (mark met s) in
      let is_it : PafDeltaEntry → Type 0 = λ x. d ≡ x in
      elim (Option-cases (t h)) [
        | inl free ↦ elim (Any-along is_it (gives (t h)) [] (ap gives free) a) [ ]
        | inr (nd, at) ↦
            let (e, ie, named, b, p) = filled.known h nd at in
            let same = ap gives (at ∙ ap some named) ∙ added_at-mark new met e nd.index_in_new ie in
            let (fresh, here) =
              Any-if is_it (met e.path) (added_entry e) (Any-along is_it (gives (t h)) _ same a) in
            get-Any (λ (x : PafEntry). (met x.path ≡ false) × (d ≡ added_entry x)) new
              nd.index_in_new e ie (fresh, here)
      ]

  added-slot :
      (met : Bytes → Bool) (d : PafDeltaEntry)
      → Any (λ (e : PafEntry). (met e.path ≡ false) × (d ≡ added_entry e)) new
      → (h : ℕ) × (h < size) × Any (λ (x : PafDeltaEntry). d ≡ x) (added_at new (mark met (t h)))
  added-slot met d a =
      let gives : Option HashNode → List PafDeltaEntry = λ s. added_at new (mark met s) in
      let is_it : PafDeltaEntry → Type 0 = λ x. d ≡ x in
      let (i, e, ie, both) =
        Any-get (λ (x : PafEntry). (met x.path ≡ false) × (d ≡ added_entry x)) new a in
      let (h, at) = filled.found i e ie in
      let (x, ix, named, b, p) = filled.known h (node_of e i) at in
      let one : (if met e.path then [] else added_entry e ∷ []) ≡ added_entry e ∷ [] =
        rw both.0 refl in
      let same = ap gives at ∙ added_at-mark new met e i ie ∙ one in
      (h, b, Any-along is_it _ (gives (t h)) (sym same) (inl both.1))

  -- The third loop gives the entries that no old path marked.
  added_from-IsAdded :
      (met : Bytes → Bool) (t' : PathMap) (d : PafDeltaEntry)
      → ((h : ℕ) → t' h ≡ mark met (t h))
      → Any (λ (x : PafDeltaEntry). d ≡ x) (added_from size 0 new t')
        ↔ Any (λ (e : PafEntry). (met e.path ≡ false) × (d ≡ added_entry e)) new
  added_from-IsAdded met t' d marked =
      let is_it : PafDeltaEntry → Type 0 = λ x. d ≡ x in
      (
        λ a.
            let (h, b) = Any-added_from is_it size 0 new t' a in
            slot-added met h d (Any-along is_it _ _ (ap (added_at new) (marked h)) b),
        λ a.
            let (h, b, c) = added-slot met d a in
            added_from-Any is_it size 0 h new t' (omega arith) (omega arith)
              (Any-along is_it _ _ (ap (added_at new) (sym (marked h))) c),
      )

pub room-map_size : (new : List PafEntry) → length new < 2 ^ 30 → length new < map_size new
unfolding map_size
room-map_size [] h = omega arith
room-map_size (e ∷ es) h = omega arith

-- Behind the first loop no slot is marked.
unmarked :
    (size : ℕ) (new : List PafEntry) (t : PathMap)
    → Filled size new t
    → (h : ℕ) → t h ≡ mark (λ (q : Bytes). false) (t h)
unfolding mark
unmarked size new t filled h = elim (Option-cases (t h)) [
  | inl free ↦ rw free refl
  | inr (nd, at) ↦
      let (e, ie, named, b, p) = filled.known h nd at in
      let no_mark = ap (λ (s : Option HashNode). mark (λ (q : Bytes). false) s) in
      at ∙ ap some named ∙ sym (no_mark (at ∙ ap some named))
]

module _ (m : Machine) (old new : List PafEntry) (fits : length new < 2 ^ 30)
    (apart : Distinct new) where
  find_changes-changes :
      (more : List PafDeltaEntry) × (find_changes m old new ≡ some (changes m 0 new old ++ more))
      × ((d : PafDeltaEntry) → Any (λ (x : PafDeltaEntry). d ≡ x) more ↔ IsAdded old new d)
  unfolding find_changes with_added added_entry
  find_changes-changes =
      let size = map_size new in
      let room = room-map_size new fits in
      let (t, r, filled) = fill_map-Filled size new room apart in
      let (t2, r2, m2) =
        compare_all-changes size new t filled apart room m (λ (q : Bytes). false) t old 0
          (unmarked size new t filled) in
      (
        added_from size 0 new t2,
        ap
              (λ (o : Option PathMap).
                with_slot o
                  (λ (map : PathMap). with_added size new (compare_all m size 0 new old map)))
              r
            ∙ ap (with_added size new) r2,
        λ (d : PafDeltaEntry).
            added_from-IsAdded size new t filled (λ (q : Bytes). has_path q old) t2 d m2,
      )

  -- With memory, the comparison of two archives that can be listed, the new one of fewer than 2 ^ 30
  -- files with different paths, ends. It names the change of each old file in the order of the old
  -- archive, as a search of the new list from its front finds it (DELETED where the path is not
  -- there, UPDATED with the new place and hash where the hashes differ, nothing otherwise), and
  -- behind these as ADDED just the entries of the new list whose path the old list has not.
  pub paf_delta_calculate-changes :
      (files : Files) (old_paf_path new_paf_path : Bytes)
      → ((n : ℕ) → m.malloc n ≡ true)
      → paf_list_binary m files old_paf_path ≡ ok old
      → paf_list_binary m files new_paf_path ≡ ok new
      → (more : List PafDeltaEntry) × (paf_delta_calculate m files old_paf_path new_paf_path
          ≡ some (ok (changes m 0 new old ++ more)))
        × ((d : PafDeltaEntry) → Any (λ (x : PafDeltaEntry). d ≡ x) more ↔ IsAdded old new d)
  unfolding paf_delta_calculate calculate_listed
  paf_delta_calculate-changes files old_paf_path new_paf_path memory lo ln =
      let (more, r, a) = find_changes-changes in
      (
        more,
        rw
            (
              lo,
              ln,
              memory (16 * map_size new),
              memory (delta_entry_size * u32 (length old + length new)),
              r,
            )
            refl,
        a,
      )
