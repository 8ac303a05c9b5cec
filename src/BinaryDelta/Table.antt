-- ===== src/BinaryDelta/Table.antt =====
-- The block table of libpaf/src/paf_binary_delta.c: a search stops while some slot is not used.
use paf_archive.Prelude.{
  ℕ, zero, suc, ◌+◌, ◌-◌, ◌%◌, ◌/◌, ◌^◌, length, ◌<◌, ◌≤◌, ◌≡◌, refl, ap, ap₂, sym, ◌∙◌, arith,
  true, Option, none, some, inl, inr, ==_no, Bool-cases, Option-cases,
}
use native.Mathlib.Decide.{ℕ_discrete, dec_lt}
use paf_archive.Words.{Bytes}
use paf_archive.BinaryDelta.{
  block_size, ht_cap, HtSlot, HtTable, ht_alloc, stops_at, probe, put_slot, insert_at, ht_insert,
  slot_offset, found_at, ht_find, and_then, insert_blocks, fnv1a_64, block_at,
}

-- How many of the first `n` slots are used.
abbrev slot_weight : Option HtSlot → ℕ
slot_weight none = 0
slot_weight (some s) = 1

abbrev pub used : HtTable → ℕ → ℕ
used t zero = 0
used t (suc n) = slot_weight (t n) + used t n

-- A slot that is not used, among the first `n`.
abbrev pub Free : HtTable → ℕ → Type 0
Free t n = (j : ℕ) × (j < n) × (t j ≡ none)

Free-used : (t : HtTable) (n : ℕ) → used t n < n → Free t n
Free-used t zero h = absurd (omega arith)
Free-used t (suc n) h = elim (Option-cases (t n)) [
  | inl e ↦ (n, omega arith, e)
  | inr (s, e) ↦
      let full : slot_weight (t n) ≡ 1 = ap slot_weight e in
      let (j, b, free) = Free-used t n (omega arith) in (j, omega arith, free)
]

-- The slot `d` steps behind `idx` ends a search.
probe-free :
    (f : ℕ) (t : HtTable) (hash idx d : ℕ)
    → d < f
    → t ((idx + d) % ht_cap) ≡ none
    → idx < ht_cap
    → (i : ℕ) × (probe f t hash idx ≡ some i) × (i < ht_cap)
unfolding probe stops_at
probe-free zero t hash idx d h free small = absurd (omega arith)
probe-free (suc f) t hash idx zero h free small =
    let here : (idx + 0) % ht_cap ≡ idx = omega arith in
    let e : t idx ≡ none = rw (sym (ap t here)) free in
    let s : stops_at hash (t idx) ≡ true = rw e refl in (idx, rw s refl, small)
probe-free (suc f) t hash idx (suc d) h free small =
    let next = (idx + 1) % ht_cap in
    let same : (next + d) % ht_cap ≡ (idx + suc d) % ht_cap = omega arith in
    let (i, e, b) = probe-free f t hash next d (omega arith) (ap t same ∙ free) (omega arith) in
    elim (Bool-cases (stops_at hash (t idx))) [
      | inl s ↦ (idx, rw s refl, small)
      | inr s ↦ (i, rw s e, b)
    ]

-- How far a slot is from where a search starts.
distance :
    (start j : ℕ)
    → start < ht_cap
    → j < ht_cap
    → (d : ℕ) × (d < ht_cap) × ((start + d) % ht_cap ≡ j)
distance start j hs hj = elim (dec_lt j start) [
  | yes below ↦ (j + ht_cap - start, omega arith, wrapped start j (omega arith) hj)
  | no above ↦ (
    j - start,
    omega arith,
    (let at : start + (j - start) ≡ j = omega arith in rw at (small j hj)),
  )
]
  where
    small : (j : ℕ) → j < ht_cap → j % ht_cap ≡ j
    small j h = omega arith

    wrapped :
        (start j : ℕ)
        → start ≤ j + ht_cap
        → j < ht_cap
        → (start + (j + ht_cap - start)) % ht_cap ≡ j
    wrapped start j hs h =
        let at : start + (j + ht_cap - start) ≡ j + ht_cap = omega arith in
        rw at (let r : (j + ht_cap) % ht_cap ≡ j = omega arith in r)

start-lt : (hash : ℕ) → hash % ht_cap < ht_cap
start-lt hash = omega arith

-- With a slot that is not used, a search stops at a slot.
pub search-stops :
    (t : HtTable) (hash : ℕ)
    → used t ht_cap < ht_cap
    → (i : ℕ) × (probe ht_cap t hash (hash % ht_cap) ≡ some i) × (i < ht_cap)
search-stops t hash h =
    let (j, b, free) = Free-used t ht_cap h in
    let start = hash % ht_cap in
    let (d, e, lands) = distance start j (start-lt hash) b in
    probe-free ht_cap t hash start d e (ap t lands ∙ free) (start-lt hash)

-- A search of a table with a slot that is not used comes to an answer.
pub ht_find-answers :
    (t : HtTable) (hash : ℕ) → used t ht_cap < ht_cap → (c : Option ℕ) × (ht_find t hash ≡ some c)
unfolding ht_find found_at
ht_find-answers t hash h = let (i, e, b) = search-stops t hash h in (slot_offset (t i), rw e refl)

put_slot_other :
    (t : HtTable) (hash offset idx n : ℕ) → ¬ (n ≡ idx) → put_slot t hash offset idx n ≡ t n
unfolding put_slot
put_slot_other t hash offset idx n other = rw (==_no other) refl

put_slot_here :
    (t : HtTable) (hash offset idx n : ℕ) → slot_weight (put_slot t hash offset idx n) ≤ 1
put_slot_here t hash offset idx n = elim (Option-cases (put_slot t hash offset idx n)) [
  | inl e ↦ rw e (omega arith)
  | inr (s, e) ↦ rw e (omega arith)
]

used-below :
    (t : HtTable) (hash offset idx n : ℕ) → n ≤ idx → used (put_slot t hash offset idx) n ≡ used t n
used-below t hash offset idx zero h = refl
used-below t hash offset idx (suc n) h =
    ap₂ (λ (a b : ℕ). a + b) (ap slot_weight (put_slot_other t hash offset idx n (omega arith)))
      (used-below t hash offset idx n (omega arith))

used-put_slot :
    (t : HtTable) (hash offset idx n : ℕ) → used (put_slot t hash offset idx) n ≤ 1 + used t n
used-put_slot t hash offset idx zero = omega arith
used-put_slot t hash offset idx (suc n) = elim (ℕ_discrete n idx) [
  | yes e ↦
      omega (arith, put_slot_here t hash offset idx n, used-below t hash offset idx n (omega arith))
  | no other ↦ omega (
    arith,
    ap slot_weight (put_slot_other t hash offset idx n other),
    used-put_slot t hash offset idx n,
  )
]

none_more : (u : ℕ) → u ≤ zero + u
none_more u = omega arith

room_now : (n u cap : ℕ) → suc n + u < cap → u < cap
room_now n u cap h = omega arith

room_left : (n u v cap : ℕ) → suc n + u < cap → v ≤ 1 + u → n + v < cap
room_left n u v cap h b = omega arith

used_in_all : (n u v w : ℕ) → v ≤ 1 + u → w ≤ n + v → w ≤ suc n + u
used_in_all n u v w b c = omega arith

some_room : (n u v cap : ℕ) → n < cap → u ≡ 0 → v ≤ n + u → v < cap
some_room n u v cap h e b = omega arith

start_room : (n u cap : ℕ) → n < cap → u ≡ 0 → n + u < cap
start_room n u cap h e = omega arith

-- An insertion into such a table comes to an end, and uses at most one more slot.
ht_insert-ends :
    (t : HtTable) (hash offset : ℕ)
    → used t ht_cap < ht_cap
    → (t' : HtTable) × (ht_insert t hash offset ≡ some t') × (used t' ht_cap ≤ 1 + used t ht_cap)
unfolding ht_insert insert_at
ht_insert-ends t hash offset h =
    let (i, e, b) = search-stops t hash h in
    (put_slot t hash offset i, rw e refl, used-put_slot t hash offset i ht_cap)

insert_blocks-ends :
    (n : ℕ) (old : Bytes) (off : ℕ) (t : HtTable)
    → n + used t ht_cap < ht_cap
    → (t' : HtTable) × (insert_blocks n old off t ≡ some t') × (used t' ht_cap ≤ n + used t ht_cap)
unfolding insert_blocks
insert_blocks-ends zero old off t h = (t, refl, none_more (used t ht_cap))
insert_blocks-ends (suc n) old off t h =
    let (t1, e, b) =
      ht_insert-ends t (fnv1a_64 (block_at old off)) off (room_now n (used t ht_cap) ht_cap h) in
    let (t2, e', b') =
      insert_blocks-ends n old (off + block_size) t1
        (room_left n (used t ht_cap) (used t1 ht_cap) ht_cap h b) in
    (
      t2,
      ap (λ (o : Option HtTable). and_then o (insert_blocks n old (off + block_size))) e ∙ e',
      used_in_all n (used t ht_cap) (used t1 ht_cap) (used t2 ht_cap) b b',
    )

used-ht_alloc : (n : ℕ) → used ht_alloc n ≡ 0
unfolding ht_alloc
used-ht_alloc zero = refl
used-ht_alloc (suc n) = omega (arith, used-ht_alloc n)

few_blocks : (n : ℕ) → n < 2 ^ 32 → n / block_size < ht_cap
few_blocks n h = omega arith

-- The table of a file of fewer than 2 ^ 32 bytes is made, and has a slot that is not used.
pub insert_blocks-table :
    (old : Bytes)
    → length old < 2 ^ 32
    → (t : HtTable) × (insert_blocks (length old / block_size) old 0 ht_alloc ≡ some t)
      × (used t ht_cap < ht_cap)
insert_blocks-table old h =
    let n = length old / block_size in
    let none_used = used-ht_alloc ht_cap in
    let few : n < ht_cap = few_blocks (length old) h in
    let (t, e, b) =
      insert_blocks-ends n old 0 ht_alloc
        (start_room n (used ht_alloc ht_cap) ht_cap few none_used) in
    (t, e, some_room n (used ht_alloc ht_cap) (used t ht_cap) ht_cap few none_used b)
