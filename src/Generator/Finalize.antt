-- ===== src/Generator/Finalize.antt =====
-- `paf_generator_finalize` of libpaf/src/paf_generator.c, and a whole session of the generator.
use paf_archive.Prelude.{
  ℕ, zero, suc, ◌+◌, ◌*◌, ◌<◌, ◌≡◌, ◌^◌, refl, ap, ap₂, ◌∙◌, arith, List, [], ◌∷◌, ◌++◌, length,
  Bool, true, false, append_assoc, append-nil, none, some, ◌⊎◌, inl, inr, Bool-cases, ◌==◌, leb,
  ltb, ◌||◌, if◌then◌else◌,
}
use paf_archive.Words.{Bytes, u64}
use paf_archive.Stdio.{Machine}
use paf_archive.Format.{encode_header, paf_magic, paf_version}
use paf_archive.Generator.{
  InputFile, PafGenerator, Backend, final_header, final_file, finish, paf_generator_finalize,
  paf_generator_init, paf_generator_add_file, paf_generator_flush_batch, add_flushed, buffer_file,
  add_all, batch_bytes, batch_files,
}
use paf_archive.Generator.Spec.{
  stored, archive, archive_header, header_flags, Fits, length-stored-le,
}
use paf_archive.Generator.Files.{Flushed, Fits-append_left, All-append_right}
use paf_archive.Generator.Flush.{IsBackend, Represents, FlushLeaves, flush_batch_leaves}
use paf_archive.Generator.Add.{AddLeaves, add_file-leaves, init-Represents}

header_of_mode :
    (io : Bool) (fs : List InputFile) (offset : ℕ)
    → offset ≡ length (stored io fs)
    → 32 + length (stored io fs) + length fs * 128 < 2 ^ 63
    → (if io then 32 else u64 (32 + offset)) ≡ 32 + length (stored io fs)
header_of_mode true fs offset h room = omega arith
header_of_mode false fs offset h room = omega arith

flags_of_mode : (io : Bool) → (if io then 0x02 else 0) ≡ header_flags io
flags_of_mode true = refl
flags_of_mode false = refl

stored_of_mode :
    (io : Bool) (fs : List InputFile) → (if io then [] else stored io fs) ≡ stored io fs
stored_of_mode true fs = refl
stored_of_mode false fs = refl

module _ {io : Bool} {fs : List InputFile} {g : PafGenerator} (h : Flushed io fs g)
    (fits : Fits fs) where
  final_header-archive : final_header g ≡ archive_header io fs
  unfolding final_header
  final_header-archive =
      let room : 32 + length (stored io fs) + length fs * 128 < 2 ^ 63 =
        omega (arith, fits.size, length-stored-le io fs) in
      let count = h.count in
      let index : (if g.index_only then 32 else u64 (32 + g.current_data_offset))
          ≡ 32 + length (stored io fs) =
        rw h.mode (header_of_mode io fs g.current_data_offset h.data_offset room) in
      let paths : u64
            ((if g.index_only then 32 else u64 (32 + g.current_data_offset)) + g.file_count * 128)
          ≡ 32 + length (stored io fs) + length fs * 128 =
        ap₂ (λ (a c : ℕ). u64 (a + c * 128)) index count ∙ omega arith in
      λ i. record {
        magic = paf_magic;
        version = paf_version;
        flags = (ap (λ (c : Bool). if c then 0x02 else 0) h.mode ∙ flags_of_mode io) i;
        file_count = h.count i;
        index_offset = index i;
        path_offset = paths i;
      }

  final_file-archive : final_file g ≡ archive io fs
  unfolding final_file
  final_file-archive =
      let data_block : (if g.index_only then [] else g.data_tmp) ≡ stored io fs =
        ap₂ (λ (c : Bool) (t : Bytes). if c then [] else t) h.mode h.data_block
        ∙ stored_of_mode io fs in
      ap₂ (λ (a b : Bytes). a ++ b) (ap encode_header final_header-archive)
        (ap₂ (λ (a b : Bytes). a ++ b) data_block
          (ap₂ (λ (a b : Bytes). a ++ b) h.index_block h.path_block))

module _ (m : Machine) (b : Backend) (h : IsBackend b) where
  finish-archive :
      (io : Bool) {fs : List InputFile} (g : PafGenerator)
      → Fits fs
      → (r : PafGenerator × ℕ) → FlushLeaves io fs g r
      → (finish m b true r ≡ some (archive io fs)) ⊎ (finish m b true r ≡ none)
  unfolding finish
  finish-archive io g fits (g', zero) (flushed, _) = inl (ap some (final_file-archive flushed fits))
  finish-archive io g fits (g', suc e) same = inr refl

  -- With devices that hash right and an output that can be opened, `paf_generator_finalize` on a
  -- generator that holds `fs`, which fit an archive, either writes exactly the archive of `fs` or
  -- writes nothing.
  pub finalize-archive :
      {io : Bool} {fs : List InputFile} {g : PafGenerator}
      → Fits fs
      → Represents io fs g
      → (paf_generator_finalize m b true g ≡ some (archive io fs))
        ⊎ (paf_generator_finalize m b true g ≡ none)
  unfolding paf_generator_finalize
  finalize-archive {io} {g} fits rep =
      finish-archive io g fits _ (flush_batch_leaves m b h fits rep)

add_buffered-ok :
    (m : Machine) (b : Backend)
    → ((n : ℕ) → m.malloc n ≡ true)
    → (g : PafGenerator) (path file : Bytes) → (buffer_file m b g path file).1 ≡ 0
unfolding buffer_file
add_buffered-ok m b memory g path file = rw (memory (length path + 1))

-- With memory for its blocks the generator reports no error.
module _ (m : Machine) (b : Backend) (memory : (n : ℕ) → m.malloc n ≡ true) where
  pub flush_batch-ok : (g : PafGenerator) → (paf_generator_flush_batch m b g).1 ≡ 0
  unfolding paf_generator_flush_batch
  flush_batch-ok g = elim (Bool-cases (g.batch_count == 0)) [
    | inl e ↦ rw e
    | inr e ↦ rw (e, memory (g.batch_count * 32))
  ]

  add_flushed-ok :
      (path file : Bytes) (r : PafGenerator × ℕ) → r.1 ≡ 0 → (add_flushed m b path file r).1 ≡ 0
  unfolding add_flushed
  add_flushed-ok path file (g, suc e) h = h
  add_flushed-ok path file (g, zero) h = elim (Bool-cases (ltb batch_bytes (length file))) [
    | inl e ↦ rw e
    | inr e ↦ rw e (add_buffered-ok m b memory g path file)
  ]

  pub add_file-ok :
      (g : PafGenerator) (f : InputFile)
      → length f.path < 1024
      → (paf_generator_add_file m b g f.path f.content).1 ≡ 0
  unfolding paf_generator_add_file
  add_file-ok g f short =
      let full =
        ltb batch_bytes (u64 (g.batch_buffer_pos + length f.content))
        || leb batch_files g.batch_count in
      let fits : leb 1024 (length f.path) ≡ false = ground arith in
      rw fits (elim (Bool-cases full) [
        | inl e ↦ rw e (add_flushed-ok f.path f.content _ (flush_batch-ok g))
        | inr e ↦ rw e (add_buffered-ok m b memory g f.path f.content)
      ])

  added :
      (io : Bool) (fs : List InputFile) (f : InputFile) (r : PafGenerator × ℕ)
      → r.1 ≡ 0
      → AddLeaves io fs f r
      → Represents io (fs ++ f ∷ []) r.0
  added io fs f (g, zero) e h = h
  added io fs f (g, suc n) e h = absurd (omega arith)

  add_all-Represents :
      (io : Bool) (gs fs : List InputFile) (g : PafGenerator)
      → IsBackend b
      → Fits (fs ++ gs)
      → Represents io fs g
      → Represents io (fs ++ gs) (add_all m b g gs)
  unfolding add_all
  add_all-Represents io [] fs g h fits rep = rw append-nil rep
  add_all-Represents io (f ∷ gs) fs g h fits rep =
      let regroup : (fs ++ f ∷ []) ++ gs ≡ fs ++ f ∷ gs = append_assoc fs (f ∷ []) gs in
      let fits' : Fits ((fs ++ f ∷ []) ++ gs) = rw regroup fits in
      let one = Fits-append_left (fs ++ f ∷ []) gs fits' in
      let short = (All-append_right _ fs (f ∷ gs) fits.paths).0 in
      let rep' = added io fs f _ (add_file-ok g f short) (add_file-leaves m b h fs f one rep) in
      rw (← regroup) (add_all-Represents io gs (fs ++ f ∷ []) _ h fits' rep')

  finish-ok :
      (io : Bool) (fs : List InputFile) (g : PafGenerator) (r : PafGenerator × ℕ)
      → Fits fs
      → r.1 ≡ 0
      → FlushLeaves io fs g r
      → finish m b true r ≡ some (archive io fs)
  unfolding finish
  finish-ok io fs g (g', zero) fits e (flushed, _) = ap some (final_file-archive flushed fits)
  finish-ok io fs g (g', suc n) fits e h = absurd (omega arith)

  -- A generator that holds `fs` writes their archive.
  pub finalize-ok :
      {io : Bool} {fs : List InputFile} {g : PafGenerator}
      → IsBackend b
      → Fits fs
      → Represents io fs g
      → paf_generator_finalize m b true g ≡ some (archive io fs)
  unfolding paf_generator_finalize
  finalize-ok {io} {fs} {g} h fits rep =
      finish-ok io fs g _ fits (flush_batch-ok g) (flush_batch_leaves m b h fits rep)

  -- A whole session: init, an add for each file and finalize, with memory, a writable output,
  -- devices that hash right and files that fit an archive, write exactly the archive of the files in
  -- the order in which they were added. Neither the batch buffer, nor files larger than it, nor the
  -- device that hashes leaves a trace.
  pub session-archive :
      (io : Bool) (fs : List InputFile)
      → IsBackend b
      → Fits fs
      → paf_generator_finalize m b true (add_all m b (paf_generator_init io) fs)
        ≡ some (archive io fs)
  session-archive io fs h fits =
      finalize-ok h fits
        (add_all-Represents io fs [] (paf_generator_init io) h fits (init-Represents io))
