-- ===== src/BinaryDelta/Literals.antt =====
-- What the instructions of a delta of libpaf/src/paf_binary_delta.c write when they are applied.
use paf_archive.Prelude.{
  ℕ, zero, suc, ◌+◌, ◌-◌, ◌/◌, ◌^◌, ◌<◌, ◌≤◌, ◌≡◌, refl, ap, ap₂, sym, ◌∙◌, arith, true, false, [],
  ◌∷◌, ◌++◌, length, take, drop, ltb, leb, ◌==◌, ==_yes, ==_no, le→ltb_false, le→leb, append-nil,
  append_assoc, length-append, take-append, drop-append, take-append-drop, length-take, length-drop,
  min, length-eq-zero,
}
use native.Mathlib.Decide.{ℕ_discrete}
use paf_archive.Words.{Bytes, u64, le_bytes, le_value, le_value-le_bytes, length-le_bytes}
use paf_archive.Stdio.{Machine}
use paf_archive.BinaryDelta.{
  apply_instr, apply_loop, read_old, emit_copy, emit_chunks, emit_literal, max_lit_chunk,
}

chunk_count :
    (n r : ℕ)
    → 0 < n
    → r ≡ n - min n max_lit_chunk
    → 1 + (r + max_lit_chunk - 1) / max_lit_chunk ≡ (n + max_lit_chunk - 1) / max_lit_chunk
chunk_count n r h e = omega arith

drop_two :
    (o s behind : Bytes) → length o ≡ 8 → length s ≡ 4 → drop 12 (o ++ (s ++ behind)) ≡ behind
drop_two o s behind lo ls =
    ap (drop 12) (sym (append_assoc o s behind))
    ∙ drop-append 12 (o ++ s) behind (omega (arith, length-append o s))

module _ (m : Machine) (old : Bytes) where
  -- `n` instructions write `out`, whatever stands before and behind them.
  abbrev pub Runs : ℕ → Bytes → Bytes → Type 0
  Runs n instr out =
      (k : ℕ) (rest acc : Bytes)
      → apply_loop m (n + k) (instr ++ rest) old acc ≡ apply_loop m k rest old (acc ++ out)

  pub no_instructions : Runs 0 [] []
  no_instructions k rest acc =
      ap₂ (λ (n : ℕ) (a : Bytes). apply_loop m n rest old a) (omega arith) (sym (append-nil acc))

  pub Runs-add :
      (a b : ℕ) (i j o p : Bytes) → Runs a i o → Runs b j p → Runs (a + b) (i ++ j) (o ++ p)
  Runs-add a b i j o p r s k rest acc =
      ap₂ (λ (n : ℕ) (d : Bytes). apply_loop m n d old acc) (omega arith) (append_assoc i j rest)
      ∙ r (b + k) (j ++ rest) acc
      ∙ s k rest (acc ++ o)
      ∙ ap (λ (w : Bytes). apply_loop m k rest old w) (append_assoc acc o p)

  -- The fields of an instruction are read back.
  apply_loop-instr :
      (n type : ℕ) (o s behind acc : Bytes)
      → length o ≡ 8
      → length s ≡ 4
      → apply_loop m (suc n) (type ∷ (o ++ (s ++ behind))) old acc
        ≡ apply_instr m
            (λ d w. apply_loop m n d old w)
            (le_value (type ∷ []))
            (le_value o)
            (le_value s)
            behind
            old
            acc
  unfolding apply_loop
  apply_loop-instr n type o s behind acc lo ls =
      let long : ltb (suc (length (o ++ (s ++ behind)))) 13 ≡ false =
        le→ltb_false (suc (length (o ++ (s ++ behind)))) 13
          (omega (arith, length-append o (s ++ behind), length-append s behind)) in
      let d12 : drop 12 (o ++ (s ++ behind)) ≡ behind = drop_two o s behind lo ls in
      rw
        (
          long,
          d12,
          take-append 8 o (s ++ behind) lo,
          drop-append 8 o (s ++ behind) lo,
          take-append 4 s behind ls,
        )
        refl

  pub chunk-Runs :
      (chunk : Bytes)
      → length chunk < 2 ^ 32
      → Runs 1 (1 ∷ (le_bytes 8 0 ++ (le_bytes 4 (length chunk) ++ chunk))) chunk
  unfolding apply_instr le_bytes apply_loop le_value
  chunk-Runs chunk short k rest acc =
      let n : 1 + k ≡ suc k = omega arith in
      let size = le_value-le_bytes 4 (length chunk) (omega arith) in
      let regroup : (1 ∷ (le_bytes 8 0 ++ (le_bytes 4 (length chunk) ++ chunk))) ++ rest
          ≡ 1 ∷ (le_bytes 8 0 ++ (le_bytes 4 (length chunk) ++ (chunk ++ rest))) =
        refl in
      let fits : ltb (length (chunk ++ rest)) (length chunk) ≡ false =
        le→ltb_false (length (chunk ++ rest)) (length chunk)
          (omega (arith, length-append chunk rest)) in
      ap₂ (λ (c : ℕ) (d : Bytes). apply_loop m c d old acc) n regroup
      ∙ apply_loop-instr k 1 (le_bytes 8 0) (le_bytes 4 (length chunk)) (chunk ++ rest) acc
          (length-le_bytes 8 0) (length-le_bytes 4 (length chunk))
      ∙ rw
          (
            size,
            fits,
            take-append (length chunk) chunk rest refl,
            drop-append (length chunk) chunk rest refl,
          )
          refl

  pub copy-Runs :
      (off sz : ℕ)
      → off + sz ≤ length old
      → length old < 2 ^ 32
      → 0 < length old
      → Runs 1 (emit_copy off sz) (take sz (drop off old))
  unfolding apply_instr emit_copy read_old apply_loop le_bytes le_value
  copy-Runs off sz inside small full k rest acc =
      let n : 1 + k ≡ suc k = omega arith in
      let at = le_value-le_bytes 8 off (omega arith) in
      let size = le_value-le_bytes 4 sz (omega arith) in
      let there : (length old == 0) ≡ false =
        ==_no (let p : ¬ (length old ≡ 0) = omega arith in p) in
      let whole : u64 (off + sz) ≡ off + sz = omega arith in
      let ends : ltb (length old) (off + sz) ≡ false =
        le→ltb_false (length old) (off + sz) inside in
      let fits : leb (off + sz) (length old) ≡ true = le→leb (off + sz) (length old) inside in
      ap (λ (c : ℕ). apply_loop m c (emit_copy off sz ++ rest) old acc) n
      ∙ apply_loop-instr k 0 (le_bytes 8 off) (le_bytes 4 sz) rest acc (length-le_bytes 8 off)
          (length-le_bytes 4 sz)
      ∙ rw (at, size, there, whole, ends, fits) refl

  pub Runs-at :
      {n n' : ℕ} (i i' : Bytes) {o o' : Bytes}
      → n ≡ n'
      → i ≡ i'
      → o ≡ o'
      → Runs n i o
      → Runs n' i' o'
  Runs-at i i' e f g r = λ k rest acc.
      ap₂ (λ (c : ℕ) (d : Bytes). apply_loop m (c + k) (d ++ rest) old acc) (sym e) (sym f)
      ∙ r k rest acc
      ∙ ap (λ (w : Bytes). apply_loop m k rest old (acc ++ w)) g

  -- The number of chunks of a literal, as the code counts them.
  abbrev pub chunks_of : ℕ → ℕ
  chunks_of n = (n + max_lit_chunk - 1) / max_lit_chunk

  emit_chunks-Runs :
      (f : ℕ) (lit : Bytes)
      → length lit ≤ f
      → length lit < 2 ^ 32
      → Runs (chunks_of (length lit)) (emit_chunks f lit) lit
  unfolding emit_chunks le_bytes
  emit_chunks-Runs zero lit h small =
      let e : [] ≡ lit = sym (length-eq-zero lit (omega arith)) in
      Runs-at [] [] (omega (arith, ap length e)) refl e no_instructions
  emit_chunks-Runs (suc f) lit h small =
      let c = min (length lit) max_lit_chunk in
      let size : length (take c lit) ≡ c = omega (arith, length-take c lit) in
      let first = 1 ∷ (le_bytes 8 0 ++ (le_bytes 4 (length (take c lit)) ++ take c lit)) in
      let left : length (drop c lit) ≡ length lit - c = length-drop c lit in
      elim (ℕ_discrete (length lit) 0) [
        | yes none_left ↦
            let e : [] ≡ lit = sym (length-eq-zero lit none_left) in
            rw (==_yes none_left) (Runs-at [] [] (omega (arith, none_left)) refl e no_instructions)
        | no some_left ↦ rw (==_no some_left) (
            Runs-at (first ++ emit_chunks f (drop c lit))
              (1 ∷ (le_bytes 8 0 ++ (le_bytes 4 c ++ (take c lit ++ emit_chunks f (drop c lit)))))
              (chunk_count (length lit) (length (drop c lit)) (omega arith) left)
              (ap
                (λ (n : ℕ).
                  1
                  ∷ (le_bytes 8 0 ++ (le_bytes 4 n ++ (take c lit ++ emit_chunks f (drop c lit)))))
                size)
              (take-append-drop c lit)
              (Runs-add 1 (chunks_of (length (drop c lit))) first (emit_chunks f (drop c lit))
                (take c lit) (drop c lit) (chunk-Runs (take c lit) (omega arith))
                (emit_chunks-Runs f (drop c lit) (omega arith) (omega arith))))
      ]

  pub emit_literal-Runs :
      (lit : Bytes) → length lit < 2 ^ 32 → Runs (chunks_of (length lit)) (emit_literal lit) lit
  unfolding emit_literal
  emit_literal-Runs lit small = emit_chunks-Runs (length lit) lit (omega arith) small
