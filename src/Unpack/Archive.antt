-- ===== src/Unpack/Archive.antt =====
-- The parallel extraction of libpaf/src/libpaf_core.c on an archive that the generator wrote.
use paf_archive.Prelude.{
  ℕ, ◌≡◌, ◌≢◌, refl, ap, ap₂, sym, ◌∙◌, arith, Bool, true, false, List, [], ◌∷◌, ◌++◌, length,
  Option, none, some, get_elem?, inl, inr, Option-cases,
}
use native.Mathlib.Decide.{ℕ_discrete}
use paf_archive.Words.{Bytes}
use paf_archive.Stdio.{Machine, open_stream}
use paf_archive.Format.{PafHeader, PafIndexEntry}
use paf_archive.Reader.{ok}
use paf_archive.Reader.Entries.{at_index, none_index}
use paf_archive.Generator.{InputFile}
use paf_archive.Generator.Spec.{
  data_bytes, path_bytes, entry_of, entries_from, archive, archive_header, Fits,
}
use paf_archive.Paths.{slash}
use paf_archive.Disk.{Disk, Within}
use paf_archive.Extract.Archive.{open_archive-archive}
use paf_archive.Threads.{Thread, Steps, Finished, finished-Mark}
use paf_archive.Parallel.{workers}
use paf_archive.Parallel.Ranges.{workers-Left, workers-local}
use paf_archive.Parallel.Hash.{get_elem-lt}
use paf_archive.Unpack.{
  Worker, Job, worker_path, fullpath, extract_index, extract_worker_run, run_extract_parallel,
  extract_job, paf_extract_binary,
}
use paf_archive.Unpack.Confined.{extract_entry-Within, content-extract_worker_run}
use paf_archive.Unpack.Entry.{Extractable, Extracts, worker_path-archive, entry-archive}

tail_eq : (s t : Bytes) {c : ℕ} → c ∷ s ≡ c ∷ t → s ≡ t
tail_eq s t e = cc

append_cancel : (a b c : Bytes) → a ++ b ≡ a ++ c → b ≡ c
append_cancel [] b c e = e
append_cancel (x ∷ a) b c e = append_cancel a b c (cc)

-- No two files have one path.
abbrev pub DistinctPaths : List InputFile → Type 0
DistinctPaths fs =
    (i k : ℕ) (f g : InputFile)
    → get_elem? fs i ≡ some f
    → get_elem? fs k ≡ some g
    → f.path ≡ g.path
    → i ≡ k

module _ (w : Job) (fs : List InputFile) (fits : Fits fs) (x : Extracts w fs) where
  -- The output of the file with this number holds its content.
  abbrev pub Written : ℕ → Disk → Type 0
  Written i d =
      (f : InputFile) → get_elem? fs i ≡ some f → d.files (fullpath w f.path) ≡ some f.content

  entry_read :
      (i : ℕ) (f : InputFile) (e : get_elem? fs i ≡ some f)
      → get_elem? w.idx i
        ≡ some (
            entry_of
              (length (path_bytes (at_index 0 0 fs i f e).before))
              (length (data_bytes (at_index 0 0 fs i f e).before))
              f)
  entry_read i f e =
      ap (λ (es : List PafIndexEntry). get_elem? es i) x.idx
      ∙ (at_index 0 0 fs i f e).entry
      ∙ ap some (ap₂ (λ (p q : ℕ). entry_of p q f) (omega arith) (omega arith))

  run-Written :
      (i : ℕ) (k : Worker) (d : Disk)
      → k.fp.content ≡ archive false fs
      → Written i (extract_worker_run w i k d).1
  unfolding extract_worker_run
  run-Written i k d hc f e =
      let a = at_index 0 0 fs i f e in
      ap (λ (en : Option PafIndexEntry). (extract_index w en k d).1.files (fullpath w f.path))
        (entry_read i f e)
      ∙ entry-archive w fs fits x a.before a.after f k d a.split hc (x.files i f e)

  -- The entry of a file changes nothing but the output of that file.
  entry-Within :
      (before after : List InputFile) (g : InputFile) (k : Worker) (d : Disk)
      → before ++ g ∷ after ≡ fs
      → k.fp.content ≡ archive false fs
      → Extractable w g
      → Within
          (λ q. q ≡ fullpath w g.path)
          d
          (extract_index w
            (some (entry_of (length (path_bytes before)) (length (data_bytes before)) g))
            k
            d).1
  unfolding extract_index
  entry-Within before after g k d split hc ok_file =
      let e = entry_of (length (path_bytes before)) (length (data_bytes before)) g in
      rw (worker_path-archive w fs fits x before after g k.fp split hc ok_file) (
        extract_entry-Within w (λ q. q ≡ fullpath w g.path) e g.path (worker_path w k.fp e).1 k.buf
          d (λ a. refl))

  run-Within :
      (j : ℕ) (g : InputFile) (k : Worker) (d : Disk)
      → k.fp.content ≡ archive false fs
      → get_elem? fs j ≡ some g
      → Within (λ q. q ≡ fullpath w g.path) d (extract_worker_run w j k d).1
  unfolding extract_worker_run
  run-Within j g k d hc e =
      let a = at_index 0 0 fs j g e in
      rw (entry_read j g e) (entry-Within a.before a.after g k d a.split hc (x.files j g e))

  run-none :
      (j : ℕ) (k : Worker) (d : Disk) → get_elem? fs j ≡ none → (extract_worker_run w j k d).1 ≡ d
  unfolding extract_worker_run extract_index
  run-none j k d e =
      let none_there : get_elem? w.idx j ≡ none =
        ap (λ (es : List PafIndexEntry). get_elem? es j) x.idx ∙ none_index 0 0 fs j e in
      rw none_there refl

  -- An entry with another path leaves the output as it is.
  other-Written :
      (distinct : DistinctPaths fs) (i j : ℕ) (k : Worker) (d : Disk)
      → k.fp.content ≡ archive false fs
      → j ≢ i
      → Written i d
      → Written i (extract_worker_run w j k d).1
  other-Written distinct i j k d hc other h f e = elim (Option-cases (get_elem? fs j)) [
    | inl n ↦ ap (λ (s : Disk). s.files (fullpath w f.path)) (run-none j k d n) ∙ h f e
    | inr (g, s) ↦ elim (run-Within j g k d hc s (fullpath w f.path)) [
      | inl same ↦ same ∙ h f e
      | inr clash ↦
          let paths : f.path ≡ g.path =
            tail_eq f.path g.path
              (append_cancel w.output_dir (slash ∷ f.path) (slash ∷ g.path) clash) in
          absurd (other (sym (distinct i j f g e s paths)))
    ]
  ]

  run-Written_all :
      (distinct : DistinctPaths fs) (i j : ℕ) (k : Worker) (d : Disk)
      → k.fp.content ≡ archive false fs
      → Written i d
      → Written i (extract_worker_run w j k d).1
  run-Written_all distinct i j k d hc h = elim (ℕ_discrete j i) [
    | yes e ↦ rw e (run-Written i k d hc)
    | no other ↦ other-Written distinct i j k d hc other h
  ]

  -- `paf_extract_binary` over what is there, on an archive of files with different, clean and safe
  -- paths, with memory and with outputs that can be opened. Whatever the number of processors,
  -- whether the threads can be made or not, and in whichever order they run: when no work is left,
  -- each file of the archive stands below the output folder with its content.
  pub run_extract_parallel-archive :
      (distinct : DistinctPaths fs) (allocated : Bool) (ncpu : ℕ) (ts : List (Thread Worker ℕ))
      (d d' : Disk)
      → Steps
          (extract_worker_run w)
          (run_extract_parallel w (archive false fs) allocated ncpu)
          d
          ts
          d'
      → Finished (extract_worker_run w) ts
      → (i : ℕ) (f : InputFile) → get_elem? fs i ≡ some f
      → d'.files (fullpath w f.path) ≡ some f.content
  unfolding run_extract_parallel
  run_extract_parallel-archive distinct allocated ncpu ts d d' run done i f e =
      let start : Worker = record { fp = open_stream (archive false fs); buf = none } in
      let n = w.header.file_count in
      let count : n ≡ length fs = ap (λ (h : PafHeader). h.file_count) x.header in
      finished-Mark (extract_worker_run w) (λ k. k.fp.content ≡ archive false fs) (λ _. Unit {0})
        Written (λ j k s hc. content-extract_worker_run w j k s ∙ hc)
        (λ j k s u hc. run-Written j k s hc)
        (λ j l k s u v hc h. run-Written_all distinct j l k s hc h) i
        (workers start allocated ncpu n) ts d d' tt
        (workers-local (λ k. k.fp.content ≡ archive false fs) start allocated ncpu n refl)
        (workers-Left start allocated ncpu n i (omega (arith, count, fits.count))
          (omega (arith, count, get_elem-lt fs i f e)))
        run done f e

-- What the workers share on the archive of `fs`.
abbrev pub archive_job : Machine → (Bytes → Bool) → Bytes → Bool → List InputFile → Job
archive_job m writable output_dir overwrite fs = record {
  machine = m;
  writable = writable;
  header = archive_header false fs;
  idx = entries_from false 0 0 fs;
  output_dir = output_dir;
  overwrite = overwrite;
}

-- With memory, `paf_extract_binary` comes to its threads on every archive of files, with the index
-- that was written.
pub paf_extract_binary-archive :
    (m : Machine) (writable : Bytes → Bool) (fs : List InputFile) (paf_path output_dir : Bytes)
    (overwrite : Bool) (d : Disk)
    → Fits fs
    → ((n : ℕ) → m.malloc n ≡ true)
    → d.files paf_path ≡ some (archive false fs)
    → paf_extract_binary m writable paf_path output_dir overwrite d
      ≡ ok (archive_job m writable output_dir overwrite fs)
unfolding paf_extract_binary extract_job
paf_extract_binary-archive m writable fs paf_path output_dir overwrite d fits memory there =
    let (fp, opened, hc) = open_archive-archive m false fs fits memory in rw (there, opened) refl
