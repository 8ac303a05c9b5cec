-- ===== src/Sha256/Vector.antt =====
-- The vector code of `paf_sha256_x86ni` in libpaf/src/paf_sha256_hw.c beside the portable transform of
-- libpaf/src/sha256.c, from what the manual of the processor says of the instruction SHA256RNDS2.
use paf_archive.Prelude.{
  ℕ, zero, suc, ◌+◌, ◌-◌, ◌*◌, ◌/◌, ◌^◌, ◌≡◌, refl, ap, ◌∙◌, arith, List, [], ◌∷◌, ◌++◌, bit_and,
  bit_or, bit_xor, length, length-append, length-take, length-drop, take, drop,
}
use paf_archive.Words.{Bytes, u32}
use paf_archive.ShaNi.{
  sha256_k, M128, Rnds2, State, mm_add_epi32, mm_set_epi32, mm_shuffle_epi32, block_words,
  schedule_from, four_rounds, all_rounds, ni_block, ni_blocks, ni_digest,
}
use paf_archive.Sha256.{
  Regs, load_words, extend_words, round, rounds, round_constants, add_regs, sha256_transform,
  transform_blocks, digest, be32,
}

-- The functions of the manual: a rotation, the choice, the majority and the two sums.
abbrev rotate : ℕ → ℕ → ℕ
rotate x n = bit_or (x / 2 ^ n) (u32 (x * 2 ^ (32 - n)))

abbrev choice : ℕ → ℕ → ℕ → ℕ
choice e f g = bit_xor (bit_and e f) (bit_and (2 ^ 32 - 1 - e) g)

abbrev majority : ℕ → ℕ → ℕ → ℕ
majority a b c = bit_xor (bit_xor (bit_and a b) (bit_and a c)) (bit_and b c)

abbrev sum0 : ℕ → ℕ
sum0 a = bit_xor (bit_xor (rotate a 2) (rotate a 13)) (rotate a 22)

abbrev sum1 : ℕ → ℕ
sum1 e = bit_xor (bit_xor (rotate e 6) (rotate e 11)) (rotate e 25)

-- One round with the sum `wk` of a word and a constant.
unfoldable pub manual_round : ℕ → Regs → Regs
manual_round wk r =
    let t = choice r.e r.f r.g + sum1 r.e + wk + r.h in
    record {
      a = u32 (t + majority r.a r.b r.c + sum0 r.a);
      b = r.a;
      c = r.b;
      d = r.c;
      e = u32 (t + r.d);
      f = r.e;
      g = r.f;
      h = r.g;
    }

abbrev pub abef : Regs → M128
abef r = record { d3 = r.a; d2 = r.b; d1 = r.e; d0 = r.f }

abbrev pub cdgh : Regs → M128
cdgh r = record { d3 = r.c; d2 = r.d; d1 = r.g; d0 = r.h }

-- What the manual says: two rounds, with the two low words of the third operand.
abbrev pub IsRnds2 : Rnds2 → Type 0
IsRnds2 rnds2 =
    (r : Regs) (wk : M128)
    → rnds2 (cdgh r) (abef r) wk ≡ abef (manual_round wk.d1 (manual_round wk.d0 r))

sum_a :
    (h e1 c k m e0 mj : ℕ)
    → u32 (c + e1 + u32 (m + k) + h + mj + e0) ≡ u32 (u32 (h + e1 + c + k + m) + u32 (e0 + mj))
sum_a h e1 c k m e0 mj = omega arith

sum_e : (h e1 c k m d : ℕ) → u32 (c + e1 + u32 (m + k) + h + d) ≡ u32 (d + u32 (h + e1 + c + k + m))
sum_e h e1 c k m d = omega arith

manual_round-round : (k m : ℕ) (r : Regs) → manual_round (u32 (m + k)) r ≡ round k m r
unfolding manual_round round
manual_round-round k m r =
    let e1 = sum1 r.e in
    let c = choice r.e r.f r.g in
    λ i. record {
      a = sum_a r.h e1 c k m (sum0 r.a) (majority r.a r.b r.c) i;
      b = r.a;
      c = r.b;
      d = r.c;
      e = sum_e r.h e1 c k m r.d i;
      f = r.e;
      g = r.f;
      h = r.g;
    }

-- The two registers hold the eight words.
abbrev pub held : Regs → State
held r = (abef r, cdgh r)

module _ (rnds2 : Rnds2) (documented : IsRnds2 rnds2) where
  -- The registers change their roles with each instruction.
  four_rounds-manual :
      (wk0 wk1 wk2 wk3 : ℕ) (r : Regs)
      → four_rounds rnds2 wk0 wk1 wk2 wk3 (held r)
        ≡ held (manual_round wk3 (manual_round wk2 (manual_round wk1 (manual_round wk0 r))))
  unfolding four_rounds manual_round
  four_rounds-manual wk0 wk1 wk2 wk3 r =
      let r2 = manual_round wk1 (manual_round wk0 r) in
      let msg = mm_set_epi32 wk3 wk2 wk1 wk0 in
      let msg' = mm_shuffle_epi32 msg 0x0e in
      ap (λ (x : M128). (rnds2 (abef r) x msg', x)) (documented r msg)
      ∙ ap (λ (x : M128). (x, abef r2)) (documented r2 msg')

  four_rounds-round :
      (k0 k1 k2 k3 w0 w1 w2 w3 : ℕ) (r : Regs)
      → four_rounds rnds2 (u32 (w0 + k0)) (u32 (w1 + k1)) (u32 (w2 + k2)) (u32 (w3 + k3)) (held r)
        ≡ held (round k3 w3 (round k2 w2 (round k1 w1 (round k0 w0 r))))
  four_rounds-round k0 k1 k2 k3 w0 w1 w2 w3 r =
      let next = λ (k w : ℕ) (x : Regs). manual_round (u32 (w + k)) x in
      four_rounds-manual (u32 (w0 + k0)) (u32 (w1 + k1)) (u32 (w2 + k2)) (u32 (w3 + k3)) r
      ∙ ap (λ (x : Regs). held (next k3 w3 (next k2 w2 (next k1 w1 x))))
          (manual_round-round k0 w0 r)
      ∙ ap (λ (x : Regs). held (next k3 w3 (next k2 w2 x))) (manual_round-round k1 w1 _)
      ∙ ap (λ (x : Regs). held (next k3 w3 x)) (manual_round-round k2 w2 _)
      ∙ ap held (manual_round-round k3 w3 _)

  all_rounds-rounds :
      (n : ℕ) (ks ws : List ℕ) (r : Regs)
      → length ks ≡ n * 4
      → length ws ≡ n * 4
      → all_rounds rnds2 ks ws (held r) ≡ held (rounds ks ws r)
  unfolding all_rounds rounds
  all_rounds-rounds zero [] [] r hk hw = refl
  all_rounds-rounds (suc n) (k0 ∷ k1 ∷ k2 ∷ k3 ∷ ks) (w0 ∷ w1 ∷ w2 ∷ w3 ∷ ws) r hk hw =
      ap (all_rounds rnds2 ks ws) (four_rounds-round k0 k1 k2 k3 w0 w1 w2 w3 r)
      ∙ all_rounds-rounds n ks ws _ (omega arith) (omega arith)
  all_rounds-rounds _ _ _ r hk hw = absurd (omega arith)

block_words-load_words : (n : ℕ) (b : Bytes) → length b ≡ n * 4 → block_words b ≡ load_words b
unfolding block_words load_words
block_words-load_words zero [] h = refl
block_words-load_words (suc n) (b0 ∷ b1 ∷ b2 ∷ b3 ∷ b) h =
    ap (λ (ws : List ℕ). bit_or (bit_or (bit_or (b0 * 2 ^ 24) (b1 * 2 ^ 16)) (b2 * 2 ^ 8)) b3 ∷ ws)
      (block_words-load_words n b (omega arith))
block_words-load_words _ _ h = absurd (omega arith)

length-block_words : (n : ℕ) (b : Bytes) → length b ≡ n * 4 → length (block_words b) ≡ n
unfolding block_words
length-block_words zero [] h = refl
length-block_words (suc n) (b0 ∷ b1 ∷ b2 ∷ b3 ∷ b) h = ap suc (length-block_words n b (omega arith))
length-block_words _ _ h = absurd (omega arith)

schedule_from-extend_words : (n i : ℕ) (w : List ℕ) → schedule_from n i w ≡ extend_words n i w
unfolding schedule_from extend_words
schedule_from-extend_words zero i w = refl
schedule_from-extend_words (suc n) i w = schedule_from-extend_words n (i + 1) _

length-schedule_from : (n i : ℕ) (w : List ℕ) → length (schedule_from n i w) ≡ n + length w
unfolding schedule_from
length-schedule_from zero i w = omega arith
length-schedule_from (suc n) i w =
    omega (arith, length-schedule_from n (i + 1) (w ++ _ ∷ []), length-append w (_ ∷ []))

sha256_k-round_constants : sha256_k ≡ round_constants
unfolding sha256_k round_constants
sha256_k-round_constants = refl

length-sha256_k : length sha256_k ≡ 64
unfolding sha256_k
length-sha256_k = refl

sum_comm : (a b : ℕ) → u32 (a + b) ≡ u32 (b + a)
sum_comm a b = omega arith

-- The sums of both registers are those of the eight words.
added_back :
    (s r : Regs)
    → (mm_add_epi32 (abef r) (abef s), mm_add_epi32 (cdgh r) (cdgh s)) ≡ held (add_regs s r)
unfolding add_regs
added_back s r = λ i. held (record {
  a = sum_comm r.a s.a i;
  b = sum_comm r.b s.b i;
  c = sum_comm r.c s.c i;
  d = sum_comm r.d s.d i;
  e = sum_comm r.e s.e i;
  f = sum_comm r.f s.f i;
  g = sum_comm r.g s.g i;
  h = sum_comm r.h s.h i;
})

module _ (rnds2 : Rnds2) (documented : IsRnds2 rnds2) where
  pub ni_block-sha256_transform :
      (st : Regs) (b : Bytes)
      → length b ≡ 64
      → ni_block rnds2 (held st) b ≡ held (sha256_transform st b)
  unfolding ni_block sha256_transform
  ni_block-sha256_transform st b h =
      let words = schedule_from 48 16 (block_words b) in
      let whole : length words ≡ 64 =
        omega (arith, length-schedule_from 48 16 (block_words b), length-block_words 16 b h) in
      let same : words ≡ extend_words 48 16 (load_words b) =
        schedule_from-extend_words 48 16 (block_words b)
        ∙ ap (extend_words 48 16) (block_words-load_words 16 b h) in
      let add : State → State = λ x. (mm_add_epi32 x.0 (abef st), mm_add_epi32 x.1 (cdgh st)) in
      ap add (all_rounds-rounds rnds2 documented 16 sha256_k words st length-sha256_k whole)
      ∙ added_back st (rounds sha256_k words st)
      ∙ ap (λ (ks : List ℕ). held (add_regs st (rounds ks words st))) sha256_k-round_constants
      ∙ ap (λ (ws : List ℕ). held (add_regs st (rounds round_constants ws st))) same

  pub ni_blocks-transform_blocks :
      (n : ℕ) (st : Regs) (buf : Bytes)
      → length buf ≡ n * 64
      → ni_blocks rnds2 n (held st) buf ≡ held (transform_blocks n st buf)
  unfolding ni_blocks transform_blocks
  ni_blocks-transform_blocks zero st buf h = refl
  ni_blocks-transform_blocks (suc n) st buf h =
      ap (λ (x : State). ni_blocks rnds2 n x (drop 64 buf))
        (ni_block-sha256_transform st (take 64 buf) (omega (arith, length-take 64 buf)))
      ∙ ni_blocks-transform_blocks n (sha256_transform st (take 64 buf)) (drop 64 buf)
          (omega (arith, length-drop 64 buf))

-- The shuffles give the digest of the words that the registers hold.
pub ni_digest-digest : (st : Regs) → ni_digest (held st) ≡ digest st
unfolding ni_digest digest be32
ni_digest-digest st = refl
