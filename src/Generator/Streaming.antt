-- ===== src/Generator/Streaming.antt =====
-- `paf_generator_add_file_stream` of libpaf/src/paf_generator.c: reading in chunks of 64 KB.
use paf_archive.Prelude.{
  ℕ, zero, suc, ◌+◌, ◌-◌, ◌≤◌, ◌<◌, ◌≡◌, ◌^◌, refl, ap, ap₂, sym, ◌∙◌, arith, List, [], ◌∷◌, ◌++◌,
  length, Bool, append_assoc, append-nil, length-append, take, drop, min, length-take, length-drop,
  drop-drop, take_add, take-append, leb, ==_yes, ==_no, Bool-cases, inl, inr,
}
use native.Mathlib.Decide.{ℕ_discrete}
use paf_archive.Words.{Bytes}
use paf_archive.Stdio.{Machine, Stream, fread}
use paf_archive.Sha256.{
  sha256, Sha256Context, sha256_init, sha256_update, sha256_final, paf_sha256_generic,
}
use paf_archive.Sha256.Absorb.{sha256_update-append}
use paf_archive.Sha256.Padding.{paf_sha256_generic_lem}
use paf_archive.Generator.{
  InputFile, PafGenerator, Backend, stream_loop, add_stream, paf_generator_add_file_stream,
}
use paf_archive.Generator.Spec.{Fits}
use paf_archive.Generator.Files.{put_file-Flushed, Fits-append_left}
use paf_archive.Generator.Flush.{IsBackend, Represents, FlushLeaves, flush_batch_leaves}
use paf_archive.Generator.Add.{AddLeaves, put_file-Batched, content_room}

-- `fp` stands before the bytes `rest`.
abbrev Before : Stream → Bytes → Type 0
Before fp rest = drop fp.pos fp.content ≡ rest

fread-Before :
    (fp : Stream) (rest : Bytes) (k : ℕ)
    → Before fp rest
    → k ≤ length rest
    → ((fread fp k).0 ≡ take k rest) × Before (fread fp k).1 (drop k rest)
unfolding fread
fread-Before fp rest k h enough =
    let size : length (take k (drop fp.pos fp.content)) ≡ k =
      ap (λ (t : Bytes). length (take k t)) h ∙ omega (arith, length-take k rest) in
    (
      ap (take k) h,
      ap (λ (n : ℕ). drop (fp.pos + n) fp.content) size
          ∙ sym (drop-drop k fp.pos fp.content)
          ∙ ap (drop k) h,
    )

pub sha256_update-nil : (c : Sha256Context) → sha256_update c [] ≡ c
unfolding sha256_update
sha256_update-nil c = refl

stream_loop_lem :
    (f remaining : ℕ) (fp : Stream) (ctx : Sha256Context) (out rest : Bytes)
    → remaining < f
    → Before fp rest
    → remaining ≤ length rest
    → stream_loop f remaining fp ctx out
      ≡ (sha256_update ctx (take remaining rest), out ++ take remaining rest)
unfolding stream_loop
stream_loop_lem zero remaining fp ctx out rest h before enough = absurd (omega arith)
stream_loop_lem (suc f) remaining fp ctx out rest h before enough =
    let k = min remaining 65536 in
    let (chunk, before') = fread-Before fp rest k before (omega arith) in
    let fp' = (fread fp k).1 in
    let size : length (fread fp k).0 ≡ k = ap length chunk ∙ omega (arith, length-take k rest) in
    let got = (fread fp k).0 in
    let left = remaining - length got in
    let tail = take left (drop k rest) in
    let whole : take remaining rest ≡ got ++ tail =
      ap (λ (n : ℕ). take n rest) (let e : remaining ≡ k + left = omega arith in e)
      ∙ take_add k left rest
      ∙ ap (λ (t : Bytes). t ++ tail) (sym chunk) in
    elim (ℕ_discrete remaining 0) [
      | yes done ↦ rw (==_yes done) (
          rw done (
            ap₂ (λ (c : Sha256Context) (o : Bytes). let r : Sha256Context × Bytes = (c, o) in r)
              (sym (sha256_update-nil ctx)) (sym (append-nil out))))
      | no more ↦
          rw (==_no more, ==_no (let p : ¬ (length (fread fp k).0 ≡ 0) = omega arith in p))
            (stream_loop_lem f left fp' (sha256_update ctx got) (out ++ got) (drop k rest)
                (omega arith) before' (omega (arith, length-drop k rest))
              ∙ ap₂ (λ (c : Sha256Context) (o : Bytes). let r : Sha256Context × Bytes = (c, o) in r)
                  (sym (sha256_update-append ctx got tail) ∙ ap (sha256_update ctx) (sym whole))
                  (append_assoc out got tail ∙ ap (λ (t : Bytes). out ++ t) (sym whole)))
    ]

sha256_stream :
    (b : Backend)
    → IsBackend b
    → (file : Bytes) → length file < 2 ^ 63
    → sha256_final (sha256_update (sha256_init b.stack) file) ≡ sha256 file
sha256_stream b h file room =
    unfold paf_sha256_generic in paf_sha256_generic_lem file (omega arith) b.stack h.stack_size

module _ (m : Machine) (b : Backend) (h : IsBackend b) where
  add_stream-leaves :
      {io : Bool} (fs : List InputFile) {g : PafGenerator} (f : InputFile) (fp : Stream)
      (rest : Bytes) (r : PafGenerator × ℕ)
      → Fits (fs ++ f ∷ [])
      → Represents io fs g
      → FlushLeaves io fs g r
      → drop fp.pos fp.content ≡ f.content ++ rest
      → AddLeaves io fs f (add_stream m b f.path fp (length f.content) r)
  unfolding add_stream
  add_stream-leaves fs f fp rest (g', suc e) fits rep same before = rw same rep
  add_stream-leaves {io} fs f fp rest (g', zero) fits rep (flushed, batched) before =
      let run =
        stream_loop_lem (length f.content + 1) (length f.content) fp (sha256_init b.stack) []
          (f.content ++ rest) (omega arith) before (omega (arith, length-append f.content rest)) in
      let exact = take-append (length f.content) f.content rest refl in
      rw (run, exact, sha256_stream b h f.content (content_room fs f fits))
        (record {
          done = fs ++ f ∷ [];
          pending = [];
          together = append-nil (fs ++ f ∷ []);
          flushed = put_file-Flushed io fs f fits flushed;
          batched = put_file-Batched g' f.path _ _ _ batched;
        })

  -- A streamed add to a generator that holds `fs`, on every branch, where the stream has at least the
  -- announced size left, the files fit an archive and the devices hash right: on success the
  -- generator holds `fs` and then the file, and on an error it still holds `fs`.
  pub add_file_stream-leaves :
      {io : Bool} (fs : List InputFile) {g : PafGenerator} (f : InputFile) (fp : Stream)
      (rest : Bytes)
      → Fits (fs ++ f ∷ [])
      → Represents io fs g
      → drop fp.pos fp.content ≡ f.content ++ rest
      → AddLeaves io fs f (paf_generator_add_file_stream m b g f.path fp (length f.content))
  unfolding paf_generator_add_file_stream
  add_file_stream-leaves fs {g} f fp rest fits rep before =
      elim (Bool-cases (leb 1024 (length f.path))) [
        | inl long ↦ rw long rep
        | inr short ↦ rw short (
            add_stream-leaves fs f fp rest _ fits rep
              (flush_batch_leaves m b h (Fits-append_left fs (f ∷ []) fits) rep) before)
      ]
