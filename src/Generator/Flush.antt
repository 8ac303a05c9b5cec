-- ===== src/Generator/Flush.antt =====
-- `paf_generator_flush_batch` of libpaf/src/paf_generator.c moves the batch to the temporary files.
use paf_archive.Prelude.{
  ℕ, zero, suc, ◌+◌, ◌*◌, ◌≤◌, ◌≡◌, refl, ap, ap₂, sym, ◌∙◌, arith, List, [], ◌∷◌, ◌++◌, length,
  Bool, append_assoc, append-nil, length-append, map, some, take, drop, take-append, drop-append,
  ==_yes, ==_no, Option-cases, Bool-cases, inl, inr,
}
use paf_archive.Words.{Bytes}
use paf_archive.Stdio.{Machine}
use paf_archive.Sha256.{sha256, paf_sha256_compute}
use paf_archive.Sha256.Dispatch.{IsDocumented, paf_sha256_compute_lem}
use paf_archive.Generator.{
  InputFile, PafGenerator, Backend, pieces, batch_hashes, put_batch, reset_batch,
  paf_generator_flush_batch, batch_bytes,
}
use paf_archive.Generator.Spec.{data_bytes, Fits}
use native.Mathlib.Decide.{ℕ_discrete}
use paf_archive.Generator.Files.{Flushed, put_file-Flushed, Fits-append_left}

-- What the hash functions of the devices promise, and the portable path of the detection.
pub record IsBackend (b : Backend) : Type 0 where
  pub cuda :
      (files hashes : List Bytes) → b.cuda_hash_flat files ≡ some hashes → hashes ≡ map sha256 files
  pub vulkan :
      (files hashes : List Bytes)
      → b.vulkan_hash_flat files ≡ some hashes
      → hashes ≡ map sha256 files
  pub documented : IsDocumented b.path
  pub stack_size : length b.stack ≡ 64

abbrev pub contents : List InputFile → List Bytes
contents [] = []
contents (f ∷ fs) = f.content ∷ contents fs

abbrev pub sizes_of : List InputFile → List ℕ
sizes_of [] = []
sizes_of (f ∷ fs) = length f.content ∷ sizes_of fs

abbrev pub paths_of : List InputFile → List Bytes
paths_of [] = []
paths_of (f ∷ fs) = f.path ∷ paths_of fs

abbrev pub offsets_from : ℕ → List InputFile → List ℕ
offsets_from o [] = []
offsets_from o (f ∷ fs) = o ∷ offsets_from (o + length f.content) fs

-- The batch holds exactly the files `gs`.
pub record Batched (gs : List InputFile) (g : PafGenerator) : Type 0 where
  pub buffer : g.batch_data_buffer ≡ data_bytes gs
  pub offsets : g.batch_offsets ≡ offsets_from 0 gs
  pub sizes : g.batch_sizes ≡ sizes_of gs
  pub paths : g.batch_paths ≡ paths_of gs
  pub count : g.batch_count ≡ length gs
  pub position : g.batch_buffer_pos ≡ length (data_bytes gs)
  pub room : length (data_bytes gs) ≤ batch_bytes

pieces-contents :
    (pre : Bytes) (o : ℕ) (gs : List InputFile)
    → length pre ≡ o
    → pieces (pre ++ data_bytes gs) (offsets_from o gs) (sizes_of gs) ≡ contents gs
pieces-contents pre o [] h = refl
pieces-contents pre o (f ∷ gs) h =
    let rest = data_bytes gs in
    let here : take (length f.content) (drop o (pre ++ (f.content ++ rest))) ≡ f.content =
      rw (drop-append o pre (f.content ++ rest) h)
        (take-append (length f.content) f.content rest refl) in
    let later =
      ap (λ (t : Bytes). pieces t (offsets_from (o + length f.content) gs) (sizes_of gs))
        (sym (append_assoc pre f.content rest))
      ∙ pieces-contents (pre ++ f.content) (o + length f.content) gs
          (omega (arith, length-append pre f.content)) in
    ap₂ (λ (x : Bytes) (xs : List Bytes). x ∷ xs) here later

compute_all :
    {b : Backend}
    → IsBackend b
    → (gs : List InputFile) → length (data_bytes gs) ≤ batch_bytes
    → map (paf_sha256_compute b.path b.stack) (contents gs) ≡ map sha256 (contents gs)
compute_all h [] room = refl
compute_all {b} h (f ∷ gs) room =
    let l = length-append f.content (data_bytes gs) in
    ap₂ (λ (x : Bytes) (xs : List Bytes). x ∷ xs)
      (paf_sha256_compute_lem b.path b.stack f.content h.documented h.stack_size (omega (arith, l)))
      (compute_all h gs (omega (arith, l)))

-- Whichever device answers, the files of a batch of at most 128 MB get their SHA-256 digests, if the
-- devices hash right.
pub batch_hashes-sha256 :
    {b : Backend}
    → IsBackend b
    → (gs : List InputFile) → length (data_bytes gs) ≤ batch_bytes
    → batch_hashes b (contents gs) ≡ map sha256 (contents gs)
unfolding batch_hashes
batch_hashes-sha256 {b} h gs room = elim (Option-cases (b.cuda_hash_flat (contents gs))) [
  | inr (hashes, e) ↦ rw e (h.cuda (contents gs) hashes e)
  | inl e ↦ rw e (elim (Option-cases (b.vulkan_hash_flat (contents gs))) [
    | inr (hashes, e') ↦ rw e' (h.vulkan (contents gs) hashes e')
    | inl e' ↦ rw e' (compute_all h gs room)
  ])
]

put_batch-Flushed :
    (io : Bool) (gs fs : List InputFile) {g : PafGenerator}
    → Flushed io fs g
    → Fits (fs ++ gs)
    → Flushed io
        (fs ++ gs)
        (put_batch g (paths_of gs) (map sha256 (contents gs)) (sizes_of gs) (contents gs))
unfolding put_batch
put_batch-Flushed io [] fs h fits = rw append-nil h
put_batch-Flushed io (f ∷ gs) fs {g} h fits =
    let regroup : (fs ++ f ∷ []) ++ gs ≡ fs ++ f ∷ gs = append_assoc fs (f ∷ []) gs in
    let fits' : Fits ((fs ++ f ∷ []) ++ gs) = rw regroup fits in
    let step = put_file-Flushed io fs f (Fits-append_left (fs ++ f ∷ []) gs fits') h in
    rw (← regroup) (put_batch-Flushed io gs (fs ++ f ∷ []) step fits')

-- The files that were added: those in the temporary files, then those in the batch.
pub record Represents (io : Bool) (fs : List InputFile) (g : PafGenerator) : Type 0 where
  pub done : List InputFile
  pub pending : List InputFile
  pub together : done ++ pending ≡ fs
  pub flushed : Flushed io done g
  pub batched : Batched pending g

reset_batch-Batched : (g : PafGenerator) → Batched [] (reset_batch g)
unfolding reset_batch
reset_batch-Batched g = record {
  buffer = refl;
  offsets = refl;
  sizes = refl;
  paths = refl;
  count = refl;
  position = refl;
  room = omega arith;
}

reset_batch-Flushed :
    {io : Bool} {fs : List InputFile} {g : PafGenerator}
    → Flushed io fs g
    → Flushed io fs (reset_batch g)
unfolding reset_batch
reset_batch-Flushed h = record {
  mode = h.mode;
  data_block = h.data_block;
  index_block = h.index_block;
  path_block = h.path_block;
  count = h.count;
  data_offset = h.data_offset;
  path_offset = h.path_offset;
}

-- What a flush leaves: on success everything is in the temporary files and the batch is empty, and
-- on failure nothing has changed.
abbrev pub FlushLeaves : Bool → List InputFile → PafGenerator → PafGenerator × ℕ → Type 0
FlushLeaves io fs g (g', zero) = Flushed io fs g' × Batched [] g'
FlushLeaves io fs g (g', suc e) = g' ≡ g

put_batch_at :
    (g : PafGenerator) {paths paths' hashes hashes' : List Bytes} {sizes sizes' : List ℕ}
    {files files' : List Bytes}
    → paths ≡ paths'
    → hashes ≡ hashes'
    → sizes ≡ sizes'
    → files ≡ files'
    → put_batch g paths hashes sizes files ≡ put_batch g paths' hashes' sizes' files'
put_batch_at g p h s f = λ i. put_batch g (p i) (h i) (s i) (f i)

nothing_pending :
    {io : Bool} {done fs : List InputFile} {g : PafGenerator} (pending : List InputFile)
    → length pending ≡ 0
    → done ++ pending ≡ fs
    → Flushed io done g
    → Batched pending g
    → Flushed io fs g × Batched [] g
nothing_pending {done} [] e together flushed batched =
    (rw (← together, append-nil done) flushed, batched)
nothing_pending (f ∷ fs) e together flushed batched = absurd (omega arith)

module _ (m : Machine) (b : Backend) (h : IsBackend b) where
  batch_step :
      {io : Bool} {fs : List InputFile} {g : PafGenerator}
      → Fits fs
      → (r : Represents io fs g)
      → (let files = pieces g.batch_data_buffer g.batch_offsets g.batch_sizes in
          Flushed io fs (put_batch g g.batch_paths (batch_hashes b files) g.batch_sizes files))
  batch_step {io} {g} fits r =
      let gs = r.pending in
      let t = r.batched in
      let cut : pieces g.batch_data_buffer g.batch_offsets g.batch_sizes ≡ contents gs =
        rw (t.buffer, t.offsets, t.sizes) (pieces-contents [] 0 gs refl) in
      let fits' : Fits (r.done ++ gs) = rw r.together fits in
      let hashes = ap (batch_hashes b) cut ∙ batch_hashes-sha256 h gs t.room in
      let same = put_batch_at g t.paths hashes t.sizes cut in
      rw (same, ← r.together) (put_batch-Flushed io gs r.done r.flushed fits')

  -- A flush of a generator that holds `fs`, which fit an archive, with devices that hash right: on
  -- success the temporary files hold all of `fs` and the batch is empty, and where there is no memory
  -- nothing has changed.
  pub flush_batch_leaves :
      {io : Bool} {fs : List InputFile} {g : PafGenerator}
      → Fits fs
      → Represents io fs g
      → FlushLeaves io fs g (paf_generator_flush_batch m b g)
  unfolding paf_generator_flush_batch
  flush_batch_leaves {io} {fs} {g} fits r = elim (ℕ_discrete g.batch_count 0) [
    | yes none_pending ↦
        rw (==_yes none_pending) (
          nothing_pending r.pending (omega (arith, r.batched.count)) r.together r.flushed r.batched)
    | no some_pending ↦ rw (==_no some_pending) (
        let files = pieces g.batch_data_buffer g.batch_offsets g.batch_sizes in
        let next = put_batch g g.batch_paths (batch_hashes b files) g.batch_sizes files in
        elim (Bool-cases (m.malloc (g.batch_count * 32))) [
          | inl fine ↦ rw fine (reset_batch-Flushed (batch_step fits r), reset_batch-Batched next)
          | inr full ↦ rw full refl
        ])
  ]
