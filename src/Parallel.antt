-- ===== src/Parallel.antt =====
-- libpaf/src/paf_parallel.h: the digests of a batch on the threads of the processor, and the ranges
-- into which it and `run_extract_parallel` of libpaf_core.c split `n` items.
pub mod Ranges
pub mod Hash
use paf_archive.Prelude.{
  ℕ, Bool, true, false, zero, suc, ◌+◌, ◌*◌, ◌-◌, ◌/◌, ltb, leb, ◌==◌, List, [], ◌∷◌, if◌then◌else◌,
  Option, none, some, get_elem?,
}
use paf_archive.Words.{Bytes, u32, u64}
use paf_archive.Sha256.{Sha256Path, paf_sha256_compute}
use paf_archive.Threads.{Thread}

-- The number of threads for `n` items, where `sysconf` reports `ncpu` processors; 0 stands for its
-- failure.
unfoldable pub thread_count : ℕ → ℕ → ℕ
thread_count ncpu n =
    let nt = if ltb 0 ncpu then ncpu else 2 in
    let nt' = if ltb 32 nt then 32 else nt in if ltb n nt' then n else nt'

-- `(uint32_t)((uint64_t)t * n / nt)`
unfoldable pub range_start : ℕ → ℕ → ℕ → ℕ
range_start n nt t = u32 (u64 (t * n) / nt)

unfoldable pub range_end : ℕ → ℕ → ℕ → ℕ
range_end n nt t = if t + 1 == nt then n else u32 (u64 ((t + 1) * n) / nt)

-- `k` numbers from `i` on: the values of a loop's counter
unfoldable pub count_up : ℕ → ℕ → List ℕ
count_up i zero = []
count_up i (suc k) = i ∷ count_up (i + 1) k

-- `for (i = start; i < end; i++)`
abbrev pub indices : ℕ → ℕ → List ℕ
indices start end = count_up start (end - start)

-- The workers from the number `t` on, `k` of them, with the items of each.
unfoldable pub workers_from {ℓ} : {L : Type ℓ} → L → ℕ → ℕ → ℕ → ℕ → List (Thread L ℕ)
workers_from l n nt t zero = []
workers_from l n nt t (suc k) =
    record { local = l; jobs = indices (range_start n nt t) (range_end n nt t) }
    ∷ workers_from l n nt (t + 1) k

-- The workers for `n` items. Without memory for their contexts the caller does all items itself; a
-- thread that cannot be made is run by the caller too, which is one more order of the same steps.
unfoldable pub workers {ℓ} : {L : Type ℓ} → L → Bool → ℕ → ℕ → List (Thread L ℕ)
workers l allocated ncpu n =
    if allocated
    then workers_from l n (thread_count ncpu n) 0 (thread_count ncpu n)
    else record { local = l; jobs = indices 0 n } ∷ []

-- The slots of the result, one for each item.
abbrev pub Slots : Type 0
Slots = ℕ → Bytes

unfoldable pub set_slot : Slots → ℕ → Bytes → Slots
set_slot hashes i h j = if j == i then h else hashes j

unfoldable pub hash_item : Sha256Path → Bytes → Option Bytes → ℕ → Slots → Slots
hash_item path junk none i hashes = hashes
hash_item path junk (some b) i hashes = set_slot hashes i (paf_sha256_compute path junk b)

-- One round of the loop of `paf_sha256_worker_run`: the item's digest goes to its slot. `junk` is
-- what the hasher's block buffer holds before.
unfoldable pub paf_sha256_worker_run :
    Sha256Path → Bytes → List Bytes → ℕ → Unit {0} → Slots → Unit {0} × Slots
paf_sha256_worker_run path junk items i l hashes =
    (tt, hash_item path junk (get_elem? items i) i hashes)
