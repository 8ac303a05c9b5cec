-- ===== src/Parallel/Ranges.antt =====
-- The ranges of the workers cover the items, each once and in order.
use paf_archive.Prelude.{
  ℕ, zero, suc, ◌+◌, ◌*◌, ◌-◌, ◌/◌, ◌<◌, ◌≤◌, ◌≡◌, ◌^◌, refl, ap, ap₂, ◌∙◌, arith, Bool, true,
  false, List, [], ◌∷◌, ◌++◌, Any, All, ◌⊎◌, inl, inr, append-nil, ==_yes, ==_no,
}
use native.Mathlib.Decide.{ℕ_discrete}
use native.Mathlib.Nat.{div-le_of_le-mul, le-div_iff_mul-le, mul-div-le, mul-le-mul_right}
use paf_archive.Words.{u32, u64}
use paf_archive.Threads.{Thread}
use paf_archive.Parallel.{
  thread_count, range_start, range_end, count_up, indices, workers_from, workers,
}

count_up-append :
    (i j a b c : ℕ) → j ≡ i + a → c ≡ a + b → count_up i a ++ count_up j b ≡ count_up i c
unfolding count_up
count_up-append i j zero b c e h = ap₂ count_up (omega arith) (omega arith)
count_up-append i j (suc a) b zero e h = absurd (omega arith)
count_up-append i j (suc a) b (suc c) e h =
    ap (λ (t : List ℕ). i ∷ t) (count_up-append (i + 1) j a b c (omega arith) (omega arith))

-- The items of the workers, in order.
abbrev pub all_jobs {ℓ} : {L : Type ℓ} → List (Thread L ℕ) → List ℕ
all_jobs [] = []
all_jobs (t ∷ ts) = t.jobs ++ all_jobs ts

u32_small : (x : ℕ) → x < 2 ^ 32 → u32 x ≡ x
u32_small x h = omega arith

module _ (n nt : ℕ) (hn : n < 2 ^ 32) (some_thread : 0 < nt) (h32 : nt ≤ 32) where
  product-le : (t : ℕ) → t ≤ nt → t * n ≤ nt * n
  product-le t ht = mul-le-mul_right n ht

  product-lt : (t : ℕ) → t ≤ nt → t * n < 2 ^ 64
  product-lt t ht = omega (arith, product-le t ht, mul-le-mul_right n h32)

  quotient-le : (t : ℕ) → t ≤ nt → t * n / nt ≤ n
  quotient-le t ht = div-le_of_le-mul nt (product-le t ht)

  start_eq : (t : ℕ) → t ≤ nt → range_start n nt t ≡ t * n / nt
  unfolding range_start
  start_eq t ht =
      let whole : u64 (t * n) ≡ t * n = omega (arith, product-lt t ht) in
      let small : u32 (t * n / nt) ≡ t * n / nt =
        u32_small (t * n / nt) (omega (arith, quotient-le t ht)) in
      rw whole small

  start-zero : range_start n nt 0 ≡ 0
  start-zero =
      let none_before : 0 * n ≤ nt * 0 = omega arith in
      let q : 0 * n / nt ≤ 0 = div-le_of_le-mul nt none_before in
      start_eq 0 (omega arith) ∙ omega (arith, q)

  start_mono : (t : ℕ) → t < nt → t * n / nt ≤ (t + 1) * n / nt
  start_mono t ht = (le-div_iff_mul-le some_thread).1 (omega (arith, mul-div-le (t * n) nt))

  end_eq : (t : ℕ) → t + 1 < nt → range_end n nt t ≡ (t + 1) * n / nt
  unfolding range_end range_start
  end_eq t ht =
      let not_last : ¬ (t + 1 ≡ nt) = omega arith in
      rw (==_no not_last) (start_eq (t + 1) (omega arith))

  jobs_from {ℓ} :
      {L : Type ℓ}
      → (l : L) (t k : ℕ) → t + suc k ≡ nt
      → all_jobs (workers_from l n nt t (suc k)) ≡ indices (range_start n nt t) n
  unfolding workers_from count_up range_end range_start
  jobs_from l t zero e = rw (==_yes (let last : t + 1 ≡ nt = omega arith in last)) (append-nil _)
  jobs_from l t (suc k) e =
      let a = start_eq t (omega arith) in
      let b = start_eq (t + 1) (omega arith) in
      let c = end_eq t (omega arith) in
      let mono = start_mono t (omega arith) in
      let top = quotient-le (t + 1) (omega arith) in
      rw (jobs_from l (t + 1) k (omega arith)) (
        count_up-append (range_start n nt t) (range_start n nt (t + 1)) _ _ _ (omega arith)
          (omega arith))

  jobs_from_zero {ℓ} :
      {L : Type ℓ} → (l : L) (k : ℕ) → k ≡ nt → all_jobs (workers_from l n nt 0 k) ≡ indices 0 n
  jobs_from_zero l zero e = absurd (omega arith)
  jobs_from_zero l (suc k) e =
      jobs_from l 0 k (omega arith) ∙ ap (λ (i : ℕ). indices i n) start-zero

thread_count-bounds :
    (ncpu n : ℕ)
    → (thread_count ncpu n ≤ 32) × (thread_count ncpu n ≤ n) × (0 < n → 0 < thread_count ncpu n)
unfolding thread_count
thread_count-bounds ncpu n = (ground arith, ground arith, λ h. ground arith)

no_items {ℓ} :
    {L : Type ℓ}
    → (l : L) (n nt : ℕ) → n ≡ 0
    → nt ≡ 0
    → all_jobs (workers_from l n nt 0 nt) ≡ indices 0 n
unfolding workers_from count_up
no_items l n nt e h = rw (h, e) refl

-- The ranges of the workers, one behind the other, are the numbers from 0 to `n`, for fewer than
-- 2 ^ 32 items, any number of processors, and with or without the memory for the threads.
pub workers-jobs {ℓ} :
    {L : Type ℓ}
    → (l : L) (allocated : Bool) (ncpu n : ℕ) → n < 2 ^ 32
    → all_jobs (workers l allocated ncpu n) ≡ indices 0 n
unfolding workers
workers-jobs l false ncpu n h = append-nil (indices 0 n)
workers-jobs l true ncpu zero h =
    no_items l 0 (thread_count ncpu 0) refl (omega (arith, (thread_count-bounds ncpu 0).1))
workers-jobs l true ncpu (suc n) h =
    let b = thread_count-bounds ncpu (suc n) in
    jobs_from_zero (suc n) (thread_count ncpu (suc n)) h (b.2 (omega arith)) b.0 l
      (thread_count ncpu (suc n)) refl

Any-append :
    (i : ℕ) (js ks : List ℕ)
    → Any (λ (k : ℕ). k ≡ i) (js ++ ks)
    → Any (λ (k : ℕ). k ≡ i) js ⊎ Any (λ (k : ℕ). k ≡ i) ks
Any-append i [] ks h = inr h
Any-append i (j ∷ js) ks h = elim h [
  | inl e ↦ inl (inl e)
  | inr a ↦ elim (Any-append i js ks a) [ inl b ↦ inl (inr b) | inr b ↦ inr b ]
]

Any-jobs {ℓ} :
    {L : Type ℓ}
    → (i : ℕ) (ts : List (Thread L ℕ)) → Any (λ (k : ℕ). k ≡ i) (all_jobs ts)
    → Any (λ (t : Thread L ℕ). Any (λ (k : ℕ). k ≡ i) t.jobs) ts
Any-jobs i [] h = elim h [ ]
Any-jobs i (t ∷ ts) h = elim (Any-append i t.jobs (all_jobs ts) h) [
  | inl a ↦ inl a
  | inr b ↦ inr (Any-jobs i ts b)
]

Any-count_up : (i s k : ℕ) → s ≤ i → i < s + k → Any (λ (j : ℕ). j ≡ i) (count_up s k)
unfolding count_up
Any-count_up i s zero a b = absurd (omega arith)
Any-count_up i s (suc k) a b = elim (ℕ_discrete s i) [
  | yes e ↦ inl e
  | no e ↦ inr (Any-count_up i (s + 1) k (omega arith) (omega arith))
]

-- Each item is left to some worker.
pub workers-Left {ℓ} :
    {L : Type ℓ}
    → (l : L) (allocated : Bool) (ncpu n i : ℕ) → n < 2 ^ 32
    → i < n
    → Any (λ (t : Thread L ℕ). Any (λ (k : ℕ). k ≡ i) t.jobs) (workers l allocated ncpu n)
workers-Left l allocated ncpu n i h hi =
    Any-jobs i (workers l allocated ncpu n) (
      rw (workers-jobs l allocated ncpu n h) (Any-count_up i 0 (n - 0) (omega arith) (omega arith)))

all_tt : (js : List ℕ) → All (λ _. Unit {0}) js
all_tt [] = tt
all_tt (j ∷ js) = (tt, all_tt js)

local_from {ℓ κ} :
    {L : Type ℓ}
    → (I : L → Type κ) (l : L) (n nt t k : ℕ) → I l
    → All (λ (t : Thread L ℕ). I t.local × All (λ _. Unit {0}) t.jobs) (workers_from l n nt t k)
unfolding workers_from
local_from I l n nt t zero h = tt
local_from I l n nt t (suc k) h =
    ((h, all_tt (indices (range_start n nt t) (range_end n nt t))), local_from I l n nt (t + 1) k h)

-- Each worker starts with the local state that it was given.
pub workers-local {ℓ κ} :
    {L : Type ℓ}
    → (I : L → Type κ) (l : L) (allocated : Bool) (ncpu n : ℕ) → I l
    → All (λ (t : Thread L ℕ). I t.local × All (λ _. Unit {0}) t.jobs) (workers l allocated ncpu n)
unfolding workers
workers-local I l false ncpu n h = ((h, all_tt (indices 0 n)), tt)
workers-local I l true ncpu n h = local_from I l n (thread_count ncpu n) 0 (thread_count ncpu n) h
