-- ===== src/Generator/Add.antt =====
-- `paf_generator_add_file` and `paf_generator_add_file_stream` of libpaf/src/paf_generator.c.
use paf_archive.Prelude.{
  ℕ, zero, suc, ◌+◌, ◌≤◌, ◌<◌, ◌≡◌, ◌^◌, refl, ap, ap₂, sym, ◌∙◌, arith, List, [], ◌∷◌, ◌++◌,
  length, Bool, true, false, append_assoc, append-nil, length-append, ltb, leb, ◌||◌, Bool-cases,
  inl, inr, Option-cases,
}
use paf_archive.Words.{Bytes, u64}
use paf_archive.Stdio.{Machine}
use paf_archive.Sha256.{sha256}
use paf_archive.Sha256.Dispatch.{paf_sha256_compute_lem}
use paf_archive.Format.{encode_entries}
use paf_archive.Generator.{
  InputFile, PafGenerator, Backend, put_file, paf_generator_init, large_hash, buffer_file,
  add_flushed, paf_generator_add_file, batch_bytes, batch_files,
}
use paf_archive.Generator.Spec.{data_bytes, stored, Fits, data_bytes-append}
use paf_archive.Generator.Files.{put_file-Flushed, Fits-append_left}
use paf_archive.Generator.Flush.{
  IsBackend, Batched, Represents, FlushLeaves, flush_batch_leaves, sizes_of, paths_of, offsets_from,
}

stored-nil : (io : Bool) → stored io [] ≡ []
stored-nil true = refl
stored-nil false = refl

encode_entries-nil : ◌≡◌ {A = Bytes} [] (encode_entries [])
unfolding encode_entries
encode_entries-nil = refl

-- A fresh session holds no file.
pub init-Represents : (io : Bool) → Represents io [] (paf_generator_init io)
unfolding paf_generator_init
init-Represents io = record {
  done = [];
  pending = [];
  together = refl;
  flushed = record {
    mode = refl;
    data_block = sym (stored-nil io);
    index_block = encode_entries-nil;
    path_block = refl;
    count = refl;
    data_offset = ap length (sym (stored-nil io));
    path_offset = refl;
  };
  batched = record {
    buffer = refl;
    offsets = refl;
    sizes = refl;
    paths = refl;
    count = refl;
    position = refl;
    room = omega arith;
  };
}

sizes_of-append : (fs gs : List InputFile) → sizes_of (fs ++ gs) ≡ sizes_of fs ++ sizes_of gs
sizes_of-append [] gs = refl
sizes_of-append (f ∷ fs) gs = ap (λ (t : List ℕ). length f.content ∷ t) (sizes_of-append fs gs)

paths_of-append : (fs gs : List InputFile) → paths_of (fs ++ gs) ≡ paths_of fs ++ paths_of gs
paths_of-append [] gs = refl
paths_of-append (f ∷ fs) gs = ap (λ (t : List Bytes). f.path ∷ t) (paths_of-append fs gs)

offsets_from-append :
    (o : ℕ) (fs : List InputFile) (f : InputFile)
    → offsets_from o (fs ++ f ∷ []) ≡ offsets_from o fs ++ (o + length (data_bytes fs)) ∷ []
offsets_from-append o [] f = ap (λ (n : ℕ). n ∷ []) (omega arith)
offsets_from-append o (g ∷ fs) f =
    ap (λ (t : List ℕ). o ∷ t)
      (offsets_from-append (o + length g.content) fs f
        ∙ ap (λ (n : ℕ). offsets_from (o + length g.content) fs ++ n ∷ [])
            (omega (arith, length-append g.content (data_bytes fs))))

-- What an add leaves: on success the file is behind the others, and on failure they are all kept.
abbrev pub AddLeaves : Bool → List InputFile → InputFile → PafGenerator × ℕ → Type 0
AddLeaves io fs f (g, zero) = Represents io (fs ++ f ∷ []) g
AddLeaves io fs f (g, suc e) = Represents io fs g

large_hash-sha256 :
    (b : Backend)
    → IsBackend b
    → (file : Bytes) → length file < 2 ^ 63
    → large_hash b file ≡ sha256 file
unfolding large_hash
large_hash-sha256 b h file room =
    let cpu = paf_sha256_compute_lem b.path b.stack file h.documented h.stack_size (omega arith) in
    elim (Option-cases (b.cuda_hash_flat (file ∷ []))) [
      | inl e ↦ rw e cpu
      | inr (hashes, e) ↦ rw (e, h.cuda (file ∷ []) hashes e)
    ]

pub content_room :
    (fs : List InputFile) (f : InputFile) → Fits (fs ++ f ∷ []) → length f.content < 2 ^ 63
content_room fs f fits = omega (
  arith,
  fits.size,
  ap length (data_bytes-append fs (f ∷ [])),
  length-append (data_bytes fs) (f.content ++ []),
  length-append f.content [],
)

not_full_room :
    (pos len count : ℕ)
    → pos ≤ batch_bytes
    → len < 2 ^ 63
    → (ltb batch_bytes (u64 (pos + len)) || leb batch_files count) ≡ false
    → pos + len ≤ batch_bytes
not_full_room pos len count hp hl h = ground arith

pub put_file-Batched :
    (g : PafGenerator) (path hash : Bytes) (size : ℕ) (payload : Bytes)
    → Batched [] g
    → Batched [] (put_file g path hash size payload)
unfolding put_file
put_file-Batched g path hash size payload t = record {
  buffer = t.buffer;
  offsets = t.offsets;
  sizes = t.sizes;
  paths = t.paths;
  count = t.count;
  position = t.position;
  room = t.room;
}

module _ (m : Machine) where
  buffer_file-leaves :
      (b : Backend) {io : Bool} {fs : List InputFile} {g : PafGenerator} (f : InputFile)
      → (r : Represents io fs g) → length (data_bytes r.pending) + length f.content ≤ batch_bytes
      → AddLeaves io fs f (buffer_file m b g f.path f.content)
  unfolding buffer_file
  buffer_file-leaves b {io} {fs} {g} f r room =
      let gs = r.pending in
      let t = r.batched in
      let size : length (data_bytes (gs ++ f ∷ [])) ≡ length (data_bytes gs) + length f.content =
        omega (
          arith,
          ap length (data_bytes-append gs (f ∷ [])),
          length-append (data_bytes gs) (f.content ++ []),
          length-append f.content [],
        ) in
      elim (Bool-cases (m.malloc (length f.path + 1))) [
        | inr full ↦ rw full r
        | inl fine ↦ rw fine (record {
          done = r.done;
          pending = gs ++ f ∷ [];
          together =
              sym (append_assoc r.done gs (f ∷ []))
              ∙ ap (λ (l : List InputFile). l ++ f ∷ []) r.together;
          flushed = record {
            mode = r.flushed.mode;
            data_block = r.flushed.data_block;
            index_block = r.flushed.index_block;
            path_block = r.flushed.path_block;
            count = r.flushed.count;
            data_offset = r.flushed.data_offset;
            path_offset = r.flushed.path_offset;
          };
          batched = record {
            buffer =
                ap₂ (λ (a b : Bytes). a ++ b) t.buffer (sym (append-nil f.content))
                ∙ sym (data_bytes-append gs (f ∷ []));
            offsets =
                ap₂ (λ (a : List ℕ) (n : ℕ). a ++ n ∷ []) t.offsets (omega (arith, t.position))
                ∙ sym (offsets_from-append 0 gs f);
            sizes =
                ap (λ (a : List ℕ). a ++ length f.content ∷ []) t.sizes
                ∙ sym (sizes_of-append gs (f ∷ []));
            paths =
                ap (λ (a : List Bytes). a ++ f.path ∷ []) t.paths
                ∙ sym (paths_of-append gs (f ∷ []));
            count = omega (arith, t.count, length-append gs (f ∷ []));
            position = omega (arith, t.position, size);
            room = omega (arith, size);
          };
        })
      ]

  module _ (b : Backend) (h : IsBackend b) {io : Bool} (fs : List InputFile) {g : PafGenerator}
      (f : InputFile) (fits : Fits (fs ++ f ∷ [])) where
    add_flushed-leaves :
        (r : PafGenerator × ℕ)
        → Represents io fs g
        → FlushLeaves io fs g r
        → AddLeaves io fs f (add_flushed m b f.path f.content r)
    unfolding add_flushed
    add_flushed-leaves (g', suc e) rep same = rw same rep
    add_flushed-leaves (g', zero) rep (flushed, batched) =
        elim (Bool-cases (ltb batch_bytes (length f.content))) [
          | inl large ↦
              rw (large, large_hash-sha256 b h f.content (content_room fs f fits))
                (record {
                  done = fs ++ f ∷ [];
                  pending = [];
                  together = append-nil (fs ++ f ∷ []);
                  flushed = put_file-Flushed io fs f fits flushed;
                  batched = put_file-Batched g' f.path _ _ _ batched;
                })
          | inr small ↦ rw small (
              buffer_file-leaves b f
                (record {
                  done = fs;
                  pending = [];
                  together = append-nil fs;
                  flushed = flushed;
                  batched = batched;
                })
                (ground arith))
        ]

    -- An add of a file to a generator that holds `fs`, on every branch, where the files fit an archive
    -- and the devices hash right: on success the generator holds `fs` and then the file, and on an
    -- error it still holds `fs`.
    pub add_file-leaves :
        Represents io fs g → AddLeaves io fs f (paf_generator_add_file m b g f.path f.content)
    unfolding paf_generator_add_file
    add_file-leaves rep = elim (Bool-cases (leb 1024 (length f.path))) [
      | inl long ↦ rw long rep
      | inr short ↦ rw short (
          let full =
            ltb batch_bytes (u64 (g.batch_buffer_pos + length f.content))
            || leb batch_files g.batch_count in
          elim (Bool-cases full) [
            | inl yes_full ↦ rw yes_full (
                add_flushed-leaves _ rep
                  (flush_batch_leaves m b h (Fits-append_left fs (f ∷ []) fits) rep))
            | inr not_full ↦ rw not_full (
                buffer_file-leaves b f rep (
                  omega (
                    arith,
                    not_full_room g.batch_buffer_pos (length f.content) g.batch_count
                        (omega (arith, rep.batched.position, rep.batched.room))
                        (content_room fs f fits) not_full,
                    rep.batched.position,
                  )))
          ])
    ]
