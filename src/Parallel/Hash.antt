-- ===== src/Parallel/Hash.antt =====
-- The digests that the threads of libpaf/src/paf_parallel.h leave.
use paf_archive.Prelude.{
  ℕ, zero, suc, ◌+◌, ◌<◌, ◌≡◌, ◌≢◌, ◌^◌, refl, sym, ◌∙◌, arith, Bool, List, [], ◌∷◌, length, Option,
  none, some, get_elem?, ==_yes, ==_no,
}
use native.Mathlib.Decide.{ℕ_discrete}
use paf_archive.Words.{Bytes}
use paf_archive.Sha256.{Sha256Path, sha256}
use paf_archive.Sha256.Dispatch.{IsDocumented, paf_sha256_compute_lem}
use paf_archive.Threads.{Thread, Steps, Finished, finished-Mark}
use paf_archive.Parallel.{Slots, set_slot, hash_item, paf_sha256_worker_run, workers}
use paf_archive.Parallel.Ranges.{workers-Left, workers-local}

-- An index at which there is an item is below the length.
pub get_elem-lt {ℓ} :
    {A : Type ℓ} → (items : List A) (i : ℕ) (b : A) → get_elem? items i ≡ some b → i < length items
get_elem-lt [] i b e = absurd (cc)
get_elem-lt (x ∷ items) zero b e = omega arith
get_elem-lt (x ∷ items) (suc i) b e = omega (arith, get_elem-lt items i b e)

module _ (path : Sha256Path) (junk : Bytes) (items : List Bytes) (documented : IsDocumented path)
    (full : length junk ≡ 64)
    (short : (i : ℕ) (b : Bytes) → get_elem? items i ≡ some b → length b + 72 < 2 ^ 64) where
  -- The slot of the item holds its digest.
  abbrev pub Hashed : ℕ → Slots → Type 0
  Hashed i hashes = (b : Bytes) → get_elem? items i ≡ some b → hashes i ≡ sha256 b

  hashes_own :
      (i : ℕ) (hashes : Slots) → Hashed i (paf_sha256_worker_run path junk items i tt hashes).1
  unfolding paf_sha256_worker_run hash_item set_slot
  hashes_own i hashes b e =
      rw (e, ==_yes (let r : i ≡ i = refl in r))
        (paf_sha256_compute_lem path junk b documented full (short i b e))

  keeps_item :
      (i k : ℕ) (content : Option Bytes) (hashes : Slots)
      → k ≢ i
      → hash_item path junk content k hashes i ≡ hashes i
  unfolding hash_item set_slot
  keeps_item i k none hashes other = refl
  keeps_item i k (some b) hashes other = rw (==_no (λ (e : i ≡ k). other (sym e))) refl

  hashes_kept :
      (i k : ℕ) (hashes : Slots)
      → Hashed i hashes
      → Hashed i (paf_sha256_worker_run path junk items k tt hashes).1
  unfolding paf_sha256_worker_run
  hashes_kept i k hashes h = elim (ℕ_discrete k i) [
    | yes e ↦ rw e (hashes_own i hashes)
    | no other ↦ λ b e. keeps_item i k (get_elem? items k) hashes other ∙ h b e
  ]

  -- Whatever the number of processors, whether the threads can be made or not, and in whichever
  -- order they run: when no work is left, each item's slot holds the SHA-256 digest of the item. The
  -- items are fewer than 2 ^ 32, each is short enough for the 64-bit count of its bits, and the
  -- instruction of the vector path, if that is chosen, does what its manual states.
  pub parallel_sha256_cpu-Hashed :
      (allocated : Bool) (ncpu : ℕ) (ts : List (Thread (Unit {0}) ℕ)) (before after : Slots)
      → length items < 2 ^ 32
      → Steps
          (paf_sha256_worker_run path junk items)
          (workers tt allocated ncpu (length items))
          before
          ts
          after
      → Finished (paf_sha256_worker_run path junk items) ts
      → (i : ℕ) (b : Bytes) → get_elem? items i ≡ some b
      → after i ≡ sha256 b
  parallel_sha256_cpu-Hashed allocated ncpu ts before after few run done i b e =
      finished-Mark (paf_sha256_worker_run path junk items) (λ _. Unit {0}) (λ _. Unit {0}) Hashed
        (λ j l s u. tt) (λ j l s u v. hashes_own j s) (λ j k l s u v w h. hashes_kept j k s h) i
        (workers tt allocated ncpu (length items)) ts before after tt
        (workers-local (λ _. Unit {0}) tt allocated ncpu (length items) tt)
        (workers-Left tt allocated ncpu (length items) i few (get_elem-lt items i b e)) run done b e
