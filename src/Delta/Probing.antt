-- ===== src/Delta/Probing.antt =====
-- The slots of libpaf/src/paf_delta.c: a search ends while some slot is NULL.
use paf_archive.Prelude.{
  ℕ, zero, suc, ◌+◌, ◌%◌, ◌<◌, ◌≤◌, ◌≡◌, refl, ap, ap₂, ◌∙◌, arith, Bool, true, false, Option, none,
  some, inl, inr, ◌==◌, ==_no, ==_yes, Bool-cases, Option-cases,
}
use native.Mathlib.Decide.{ℕ_discrete, dec_lt}
use native.Mathlib.Nat.{mod-lt, mod-eq_of_lt, mod_self}
use paf_archive.Delta.{HashNode, PathMap, probe, set_slot}

abbrev pub slot_weight : Option HashNode → ℕ
slot_weight none = 0
slot_weight (some s) = 1

-- How many of the first `n` slots have a path.
abbrev pub taken : PathMap → ℕ → ℕ
taken t zero = 0
taken t (suc n) = slot_weight (t n) + taken t n

-- A slot among the first `n` that is NULL.
abbrev pub Free : PathMap → ℕ → Type 0
Free t n = (j : ℕ) × (j < n) × (t j ≡ none)

pub Free-taken : (t : PathMap) (n : ℕ) → taken t n < n → Free t n
Free-taken t zero h = absurd (omega arith)
Free-taken t (suc n) h = elim (Option-cases (t n)) [
  | inl e ↦ (n, omega arith, e)
  | inr (s, e) ↦
      let full : slot_weight (t n) ≡ 1 = ap slot_weight e in
      let (j, b, free) = Free-taken t n (omega arith) in (j, omega arith, free)
]

-- The slot where a search stopped.
abbrev pub Stopped : (Option HashNode → Bool) → PathMap → ℕ → Option ℕ → Type 0
Stopped stops t size r = (i : ℕ) × (r ≡ some i) × (i < size) × (stops (t i) ≡ true)

-- A search that stops at once, and one that goes on.
stopped_now :
    (stops : Option HashNode → Bool) (f : ℕ) (t : PathMap) (size h : ℕ)
    → h < size
    → stops (t h) ≡ true
    → Stopped stops t size (probe (suc f) stops t size h)
unfolding probe
stopped_now stops f t size h b e = (h, rw e refl, b, e)

stopped_later :
    (stops : Option HashNode → Bool) (f : ℕ) (t : PathMap) (size h k : ℕ)
    → stops (t h) ≡ false
    → (h + 1) % size ≡ k
    → Stopped stops t size (probe f stops t size k)
    → Stopped stops t size (probe (suc f) stops t size h)
unfolding probe
stopped_later stops f t size h k e next (i, r, b, s) = (i, rw (e, next) r, b, s)

-- A search with a free slot ahead of it, before the end of the block, ends.
ahead :
    (stops : Option HashNode → Bool)
    → stops none ≡ true
    → (f : ℕ) (t : PathMap) (size h j : ℕ) → h ≤ j
    → j < size
    → j < h + f
    → t j ≡ none
    → Stopped stops t size (probe f stops t size h)
ahead stops at_null zero t size h j lo hi b free = absurd (omega arith)
ahead stops at_null (suc f) t size h j lo hi b free = elim (Bool-cases (stops (t h))) [
  | inl e ↦ stopped_now stops f t size h (omega arith) e
  | inr e ↦ elim (ℕ_discrete h j) [
    | yes same ↦
        let null : t h ≡ none = ap t same ∙ free in
        let stop : stops (t h) ≡ true = ap stops null ∙ at_null in absurd (cc)
    | no other ↦
        stopped_later stops f t size h (h + 1) e (mod-eq_of_lt (omega arith))
          (ahead stops at_null f t size (h + 1) j (omega arith) hi (omega arith) free)
  ]
]

-- A search that has to go round the end of the block ends too.
behind :
    (stops : Option HashNode → Bool)
    → stops none ≡ true
    → (f : ℕ) (t : PathMap) (size h j : ℕ) → j < h
    → h < size
    → size + j < h + f
    → t j ≡ none
    → Stopped stops t size (probe f stops t size h)
behind stops at_null zero t size h j lo hi b free = absurd (omega arith)
behind stops at_null (suc f) t size h j lo hi b free = elim (Bool-cases (stops (t h))) [
  | inl e ↦ stopped_now stops f t size h hi e
  | inr e ↦ elim (dec_lt (h + 1) size) [
    | yes inside ↦
        stopped_later stops f t size h (h + 1) e (mod-eq_of_lt inside)
          (behind stops at_null f t size (h + 1) j (omega arith) inside (omega arith) free)
    | no last ↦
        let end : h + 1 ≡ size = omega arith in
        stopped_later stops f t size h 0 e (rw end (mod_self size))
          (ahead stops at_null f t size 0 j (omega arith) (omega arith) (omega arith) free)
  ]
]

-- With a free slot, a search from any slot on ends.
pub search-Stopped :
    (stops : Option HashNode → Bool)
    → stops none ≡ true
    → (t : PathMap) (size x : ℕ) → taken t size < size
    → Stopped stops t size (probe size stops t size (x % size))
search-Stopped stops at_null t size x h =
    let (j, b, free) = Free-taken t size h in
    let start : x % size < size = mod-lt x (omega arith) in
    elim (dec_lt j (x % size)) [
      | yes lo ↦ behind stops at_null size t size (x % size) j lo start (omega arith) free
      | no hi ↦ ahead stops at_null size t size (x % size) j (omega arith) b (omega arith) free
    ]

slot_weight-le : (s : Option HashNode) → slot_weight s ≤ 1
slot_weight-le none = omega arith
slot_weight-le (some s) = omega arith

pub set_slot_other :
    (t : PathMap) (h : ℕ) (node : HashNode) (n : ℕ) → ¬ (n ≡ h) → set_slot t h node n ≡ t n
unfolding set_slot
set_slot_other t h node n other = rw (==_no other) refl

pub set_slot_here : (t : PathMap) (h : ℕ) (node : HashNode) → set_slot t h node h ≡ some node
unfolding set_slot
set_slot_here t h node = let same : (h == h) ≡ true = ==_yes refl in rw same refl

taken-below :
    (t : PathMap) (h : ℕ) (node : HashNode) (n : ℕ)
    → n ≤ h
    → taken (set_slot t h node) n ≡ taken t n
taken-below t h node zero b = refl
taken-below t h node (suc n) b =
    ap₂ (λ (x y : ℕ). x + y) (ap slot_weight (set_slot_other t h node n (omega arith)))
      (taken-below t h node n (omega arith))

-- A write takes at most one more slot.
pub taken-set_slot :
    (t : PathMap) (h : ℕ) (node : HashNode) (n : ℕ) → taken (set_slot t h node) n ≤ 1 + taken t n
taken-set_slot t h node zero = omega arith
taken-set_slot t h node (suc n) = elim (ℕ_discrete n h) [
  | yes e ↦
      omega (arith, slot_weight-le (set_slot t h node n), taken-below t h node n (omega arith))
  | no other ↦
      omega (arith, ap slot_weight (set_slot_other t h node n other), taken-set_slot t h node n)
]
