-- ===== src/Delta/Ends.antt =====
-- The loops of libpaf/src/paf_delta.c come to an end, whatever the paths are.
use paf_archive.Prelude.{
  ℕ, zero, suc, ◌+◌, ◌*◌, ◌<◌, ◌≤◌, ◌^◌, ◌≡◌, refl, ap, ap₂, sym, ◌∙◌, arith, true, false, List, [],
  ◌∷◌, ◌++◌, length, Option, some, inl, inr, Option-cases, Bool-cases,
}
use native.Mathlib.Decide.{ℕ_discrete}
use paf_archive.Words.{Bytes, u32}
use paf_archive.Stdio.{Machine, Files}
use paf_archive.Format.{PafEntry}
use paf_archive.Reader.{Outcome, ok, err}
use paf_archive.Listing.{paf_list_binary}
use paf_archive.Delta.{
  PathMap, HashNode, PafDeltaEntry, map_size, with_added, added_from, find_changes,
  delta_entry_size, empty_map, fill_map, compare_all, compare_at, compare_old, put_path,
  calculate_listed, paf_delta_calculate, set_slot, is_null, is_null_or, hash_string,
}
use paf_archive.Delta.Probing.{
  taken, slot_weight, set_slot_here, set_slot_other, taken-set_slot, search-Stopped,
}
use paf_archive.Delta.Filling.{taken-empty_map}
use paf_archive.Delta.Changes.{room-map_size}

-- It gives a result.
abbrev pub Answers {ℓ} : {A : Type ℓ} → Option A → Type ℓ
Answers {A = A} o = (a : A) × (o ≡ some a)

-- A slot that is marked was taken before.
taken-marked :
    (t : PathMap) (h : ℕ) (nd nd' : HashNode) (n : ℕ)
    → t h ≡ some nd
    → taken (set_slot t h nd') n ≡ taken t n
taken-marked t h nd nd' zero at = refl
taken-marked t h nd nd' (suc n) at = elim (ℕ_discrete n h) [
  | yes here ↦
      let new = ap (set_slot t h nd') here ∙ set_slot_here t h nd' in
      let old = ap t here ∙ at in
      ap₂ (λ (x y : ℕ). x + y) (ap slot_weight new ∙ sym (ap slot_weight old))
        (taken-marked t h nd nd' n at)
  | no other ↦
      ap₂ (λ (x y : ℕ). x + y) (ap slot_weight (set_slot_other t h nd' n other))
        (taken-marked t h nd nd' n at)
]

put_path-ends :
    (size i : ℕ) (path : Bytes) (t : PathMap)
    → taken t size < size
    → (t' : PathMap) × (put_path size i path t ≡ some t') × (taken t' size ≤ 1 + taken t size)
unfolding put_path is_null
put_path-ends size i path t room =
    let (h, p, b, s) = search-Stopped is_null refl t size (hash_string path) room in
    let node : HashNode = record { path = path; index_in_new = i; used = false } in
    (set_slot t h node, rw p refl, taken-set_slot t h node size)

fill_map-ends :
    (size i : ℕ) (es : List PafEntry) (t : PathMap)
    → length es + taken t size < size
    → (t' : PathMap) × (fill_map size i es t ≡ some t') × (taken t' size < size)
unfolding fill_map
fill_map-ends size i [] t room = (t, refl, omega arith)
fill_map-ends size i (e ∷ es) t room =
    let (t1, r1, b1) = put_path-ends size i e.path t (omega arith) in
    let (t2, r2, b2) = fill_map-ends size (i + 1) es t1 (omega arith) in (t2, rw (r1, r2) refl, b2)

compare_at-taken :
    (m : Machine) (n : ℕ) (new : List PafEntry) (old : PafEntry) (t : PathMap) (h size : ℕ)
    → taken (compare_at m n new old t h (t h)).1 size ≡ taken t size
unfolding compare_at
compare_at-taken m n new old t h size = elim (Option-cases (t h)) [
  | inl e ↦ rw e refl
  | inr (nd, e) ↦
      ap (λ (s : Option HashNode). taken (compare_at m n new old t h s).1 size) e
      ∙ taken-marked t h nd (record nd { used = true }) size e
]

compare_old-ends :
    (m : Machine) (size n : ℕ) (new : List PafEntry) (old : PafEntry) (t : PathMap)
    → taken t size < size
    → (r : List PafDeltaEntry × PathMap) × (compare_old m size n new old t ≡ some r)
      × (taken r.1 size < size)
unfolding compare_old is_null_or
compare_old-ends m size n new old t room =
    let (h, p, b, s) =
      search-Stopped (is_null_or old.path) refl t size (hash_string old.path) room in
    (
      compare_at m n new old t h (t h),
      rw p refl,
      omega (arith, compare_at-taken m n new old t h size),
    )

compare_all-ends :
    (m : Machine) (size n : ℕ) (new olds : List PafEntry) (t : PathMap)
    → taken t size < size
    → Answers (compare_all m size n new olds t)
unfolding compare_all
compare_all-ends m size n new [] t room = (([], t), refl)
compare_all-ends m size n new (old ∷ olds) t room =
    let (r, p, b) = compare_old-ends m size n new old t room in
    let (q, e) = compare_all-ends m size (n + length r.0) new olds r.1 b in
    ((r.0 ++ q.0, q.1), rw (p, e) refl)

find_changes-ends :
    (m : Machine) (old new : List PafEntry) → length new < 2 ^ 30 → Answers (find_changes m old new)
unfolding find_changes with_added
find_changes-ends m old new few =
    let size = map_size new in
    let room = room-map_size new few in
    let (t, r, b) =
      fill_map-ends size 0 new empty_map
        (no_more (length new) _ size room (taken-empty_map size)) in
    let (q, e) = compare_all-ends m size 0 new old t b in
    (q.0 ++ added_from size 0 new q.1, rw (r, e) refl)
  where
    no_more : (n u size : ℕ) → n < size → u ≡ 0 → n + u < size
    no_more n u size b e = omega arith

calculate_listed-ends :
    (m : Machine) (old new : Outcome (List PafEntry))
    → ((es : List PafEntry) → new ≡ ok es → length es < 2 ^ 30)
    → Answers (calculate_listed m old new)
unfolding calculate_listed
calculate_listed-ends m (err n) new few = (err 1, refl)
calculate_listed-ends m (ok old) (err n) few = (err 1, refl)
calculate_listed-ends m (ok old) (ok new) few =
    let (ds, e) = find_changes-ends m old new (few new refl) in
    elim (Bool-cases (m.malloc (16 * map_size new))) [
      | inl a ↦ elim (Bool-cases (m.malloc (delta_entry_size * u32 (length old + length new)))) [
        | inl b ↦ (ok ds, rw (a, b, e) refl)
        | inr b ↦ (err 1, rw (a, b) refl)
      ]
      | inr a ↦ (err 1, rw a refl)
    ]

-- The comparison of any two files ends, with a delta or an error, whatever paths they hold and
-- whichever allocations fail, if the listing of the new one has fewer than 2 ^ 30 entries.
pub paf_delta_calculate-ends :
    (m : Machine) (files : Files) (old_paf_path new_paf_path : Bytes)
    → ((es : List PafEntry) → paf_list_binary m files new_paf_path ≡ ok es → length es < 2 ^ 30)
    → (r : Outcome (List PafDeltaEntry)) × (paf_delta_calculate m files old_paf_path new_paf_path
        ≡ some r)
unfolding paf_delta_calculate
paf_delta_calculate-ends m files old_paf_path new_paf_path few =
    calculate_listed-ends m (paf_list_binary m files old_paf_path)
      (paf_list_binary m files new_paf_path) few
