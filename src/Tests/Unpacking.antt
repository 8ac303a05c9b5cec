-- ===== src/Tests/Unpacking.antt =====
-- Examples of the extraction: of one file, of a folder, and by two threads.
use paf_archive.Prelude.{
  ℕ, zero, suc, ◌≡◌, ◌≢◌, ◌⊎◌, refl, ap, sym, ◌∙◌, arith, true, false, List, [], ◌∷◌, none, some,
  get_elem?,
}
use paf_archive.Words.{Bytes}
use paf_archive.Stdio.{open_stream}
use paf_archive.Reader.{ok}
use paf_archive.Generator.{InputFile}
use paf_archive.Generator.Spec.{archive}
use paf_archive.Paths.{contains, paf_is_path_safe}
use paf_archive.Disk.{Disk, write_file}
use paf_archive.Extract.{paf_extract_file, paf_extract_folder}
use paf_archive.Extract.Archive.{paf_extract_file-archive}
use paf_archive.Extract.Confined.{IsBelow, paf_extract_file-Within, paf_extract_folder-Within}
use paf_archive.Threads.{Thread, Steps, here, there, stop, step}
use paf_archive.Parallel.{workers, workers_from, thread_count, range_start, range_end, count_up}
use paf_archive.Unpack.{
  Worker, Job, is_accepted, extract_worker_run, run_extract_parallel, fullpath, paf_extract_binary,
}
use paf_archive.Unpack.Confined.{IsAccepted, run_extract_parallel-Within}
use paf_archive.Unpack.Entry.{Extractable, Extracts}
use paf_archive.Unpack.Archive.{
  DistinctPaths, archive_job, run_extract_parallel-archive, paf_extract_binary-archive,
}
use paf_archive.Tests.Data.{
  roomy, first_file, second_file, two_files, two_files-Fits, first_path-NoNul, second_path-NoNul,
  two_files-CleanPaths, paf_name, output_name, shelf,
}

paf_extract_file-archive_example :
    paf_extract_file roomy (λ q. true) paf_name second_file.path output_name shelf
    ≡ (ok tt, write_file (write_file shelf output_name []) output_name second_file.content)
paf_extract_file-archive_example =
    paf_extract_file-archive roomy two_files two_files-Fits (λ n. refl) (λ q. true) output_name refl
      second_file [] (first_file ∷ []) paf_name shelf refl ((λ e. cc), tt) two_files-CleanPaths refl

paf_extract_file-Within_example :
    ((paf_extract_file roomy (λ q. true) paf_name second_file.path output_name shelf).1.files
        paf_name
      ≡ shelf.files paf_name)
    ⊎ (paf_name ≡ output_name)
paf_extract_file-Within_example =
    paf_extract_file-Within roomy (λ q. true) paf_name second_file.path output_name shelf paf_name

paf_extract_folder-Within_example :
    ((paf_extract_folder roomy (λ q. true) paf_name (97 ∷ []) output_name shelf).1.files paf_name
      ≡ shelf.files paf_name)
    ⊎ IsBelow output_name paf_name
paf_extract_folder-Within_example =
    paf_extract_folder-Within roomy (λ q. true) (97 ∷ []) output_name paf_name shelf paf_name

abbrev job : Job
job = archive_job roomy (λ q. true) output_name true two_files

abbrev bytes : Bytes
bytes = archive false two_files

abbrev fresh : Worker
fresh = record { fp = open_stream bytes; buf = none }

abbrev after_second : Worker × Disk
after_second = extract_worker_run job 1 fresh shelf

abbrev after_both : Worker × Disk
after_both = extract_worker_run job 0 fresh after_second.1

abbrev idle : List (Thread Worker ℕ)
idle =
    record { local = after_both.0; jobs = [] } ∷ record { local = after_second.0; jobs = [] } ∷ []

-- The second thread runs first.
second_first :
    Steps (extract_worker_run job) (run_extract_parallel job bytes true 2) shelf idle after_both.1
unfolding run_extract_parallel workers workers_from thread_count range_start range_end count_up
second_first =
    let first : Thread Worker ℕ = record { local = fresh; jobs = 0 ∷ [] } in
    let second : Thread Worker ℕ = record { local = fresh; jobs = 1 ∷ [] } in
    let first_done : Thread Worker ℕ = record { local = after_both.0; jobs = [] } in
    let second_done : Thread Worker ℕ = record { local = after_second.0; jobs = [] } in
    step (first ∷ second ∷ []) (first ∷ second_done ∷ []) idle shelf after_second.1 after_both.1
      (there first (second ∷ []) (second_done ∷ []) shelf after_second.1
        (here 1 [] fresh after_second.0 shelf after_second.1 [] refl))
      (step (first ∷ second_done ∷ []) idle idle after_second.1 after_both.1 after_both.1
        (here 0 [] fresh after_both.0 after_second.1 after_both.1 (second_done ∷ []) refl)
        (stop idle after_both.1))

run_extract_parallel-Within_example :
    (after_both.1.files paf_name ≡ shelf.files paf_name) ⊎ IsAccepted job paf_name
run_extract_parallel-Within_example =
    run_extract_parallel-Within job bytes true 2 idle shelf after_both.1 second_first paf_name

paths_differ : first_file.path ≢ second_file.path
paths_differ e = cc

two_files-Distinct : DistinctPaths two_files
two_files-Distinct zero zero f g a b e = refl
two_files-Distinct zero (suc zero) f g a b e =
    let p : first_file ≡ f = cc in
    let q : second_file ≡ g = cc in
    absurd (paths_differ (ap InputFile.path p ∙ e ∙ sym (ap InputFile.path q)))
two_files-Distinct (suc zero) zero f g a b e =
    let p : second_file ≡ f = cc in
    let q : first_file ≡ g = cc in
    absurd (paths_differ (ap InputFile.path q ∙ sym e ∙ sym (ap InputFile.path p)))
two_files-Distinct (suc zero) (suc zero) f g a b e = refl
two_files-Distinct (suc (suc i)) k f g a b e = absurd (cc)
two_files-Distinct zero (suc (suc k)) f g a b e = absurd (cc)
two_files-Distinct (suc zero) (suc (suc k)) f g a b e = absurd (cc)

first-Extractable : Extractable job first_file
unfolding is_accepted paf_is_path_safe contains
first-Extractable = record {
  clean = first_path-NoNul;
  short = omega arith;
  accepted = refl;
  can_write = refl;
}

second-Extractable : Extractable job second_file
unfolding is_accepted paf_is_path_safe contains
second-Extractable = record {
  clean = second_path-NoNul;
  short = omega arith;
  accepted = refl;
  can_write = refl;
}

all-Extractable : (i : ℕ) (f : InputFile) → get_elem? two_files i ≡ some f → Extractable job f
all-Extractable zero f e = rw (let r : f ≡ first_file = cc in r) first-Extractable
all-Extractable (suc zero) f e = rw (let r : f ≡ second_file = cc in r) second-Extractable
all-Extractable (suc (suc i)) f e = absurd (cc)

job-Extracts : Extracts job two_files
job-Extracts = record {
  header = refl;
  idx = refl;
  overwrites = refl;
  memory = λ n. refl;
  files = all-Extractable;
}

run_extract_parallel-archive_example :
    after_both.1.files (fullpath job second_file.path) ≡ some second_file.content
run_extract_parallel-archive_example =
    run_extract_parallel-archive job two_files two_files-Fits job-Extracts two_files-Distinct true 2
      idle shelf after_both.1 second_first (refl, (refl, tt)) 1 second_file refl

paf_extract_binary-archive_example :
    paf_extract_binary roomy (λ q. true) paf_name output_name true shelf ≡ ok job
paf_extract_binary-archive_example =
    paf_extract_binary-archive roomy (λ q. true) two_files paf_name output_name true shelf
      two_files-Fits (λ n. refl) refl
