-- ===== src/Tests/Digests.antt =====
-- Examples of the digests, on one path and on two threads.
use paf_archive.Prelude.{
  ℕ, zero, suc, ◌+◌, ◌^◌, ◌<◌, ◌≡◌, refl, arith, true, List, [], ◌∷◌, length, replicate, some,
  get_elem?,
}
use paf_archive.Words.{Bytes}
use paf_archive.Sha256.{generic, x86ni, sha256, paf_sha256_compute, paf_sha256_generic}
use paf_archive.ShaNi.{Rnds2}
use paf_archive.Sha256.Vector.{abef, manual_round}
use paf_archive.Sha256.Padding.{paf_sha256_generic_lem}
use paf_archive.Sha256.Dispatch.{paf_sha256_compute_lem}
use paf_archive.Threads.{Thread, Steps, here, there, stop, step}
use paf_archive.Parallel.{
  Slots, paf_sha256_worker_run, workers, workers_from, thread_count, range_start, range_end,
  count_up, indices,
}
use paf_archive.Parallel.Ranges.{workers-jobs, all_jobs}
use paf_archive.Parallel.Hash.{parallel_sha256_cpu-Hashed}

abbrev abc : Bytes
abc = 97 ∷ 98 ∷ 99 ∷ []

abbrev stack : Bytes
stack = replicate 64 170

paf_sha256_generic_lem_example : paf_sha256_generic stack abc ≡ sha256 abc
paf_sha256_generic_lem_example = paf_sha256_generic_lem abc (omega arith) stack refl

-- The instruction as the manual states it.
abbrev manual_rnds2 : Rnds2
manual_rnds2 x y wk = abef (
    manual_round wk.d1 (
      manual_round wk.d0 (record {
        a = y.d3;
        b = y.d2;
        c = x.d3;
        d = x.d2;
        e = y.d1;
        f = y.d0;
        g = x.d1;
        h = x.d0;
      })))

paf_sha256_compute_lem_example : paf_sha256_compute (x86ni manual_rnds2 true) stack abc ≡ sha256 abc
paf_sha256_compute_lem_example =
    paf_sha256_compute_lem (x86ni manual_rnds2 true) stack abc (λ r wk. refl) refl (omega arith)

abbrev two_items : List Bytes
two_items = abc ∷ [] ∷ []

workers-jobs_example : all_jobs (workers (tt {0}) true 2 5) ≡ indices 0 5
workers-jobs_example = workers-jobs (tt {0}) true 2 5 (omega arith)

abbrev empty_slots : Slots
empty_slots i = []

abbrev after_second : Slots
after_second = (paf_sha256_worker_run generic stack two_items 1 tt empty_slots).1

abbrev after_both : Slots
after_both = (paf_sha256_worker_run generic stack two_items 0 tt after_second).1

abbrev idle : List (Thread (Unit {0}) ℕ)
idle = record { local = tt; jobs = [] } ∷ record { local = tt; jobs = [] } ∷ []

-- The second thread runs first.
second_first :
    Steps
      (paf_sha256_worker_run generic stack two_items)
      (workers tt true 2 2)
      empty_slots
      idle
      after_both
unfolding workers workers_from thread_count range_start range_end count_up
second_first =
    let first : Thread (Unit {0}) ℕ = record { local = tt {0}; jobs = 0 ∷ [] } in
    let second : Thread (Unit {0}) ℕ = record { local = tt {0}; jobs = 1 ∷ [] } in
    let done : Thread (Unit {0}) ℕ = record { local = tt {0}; jobs = [] } in
    step (first ∷ second ∷ []) (first ∷ done ∷ []) idle empty_slots after_second after_both
      (there first (second ∷ []) (done ∷ []) empty_slots after_second
        (here 1 [] tt tt empty_slots after_second [] refl))
      (step (first ∷ done ∷ []) idle idle after_second after_both after_both
        (here 0 [] tt tt after_second after_both (done ∷ []) refl) (stop idle after_both))

short_items : (i : ℕ) (b : Bytes) → get_elem? two_items i ≡ some b → length b + 72 < 2 ^ 64
short_items zero b e = rw (let r : b ≡ abc = cc in r) (omega arith)
short_items (suc zero) b e = rw (let r : b ≡ [] = cc in r) (omega arith)
short_items (suc (suc i)) b e = absurd (cc)

parallel_sha256_cpu-Hashed_example : after_both 0 ≡ sha256 abc
parallel_sha256_cpu-Hashed_example =
    parallel_sha256_cpu-Hashed generic stack two_items tt refl short_items true 2 idle empty_slots
      after_both (omega arith) second_first (refl, (refl, tt)) 0 abc refl
