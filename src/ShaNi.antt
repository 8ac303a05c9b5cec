-- ===== src/ShaNi.antt =====
-- The vector code of `paf_sha256_x86ni` in libpaf/src/paf_sha256_hw.c: the message schedule, the rounds
-- by the instruction SHA256RNDS2, and the digest that is put together from two registers. What the
-- instruction does is a parameter; the moves and sums of lanes are written out.
use paf_archive.Prelude.{
  ℕ, zero, suc, ◌+◌, ◌-◌, ◌*◌, ◌/◌, ◌%◌, ◌^◌, List, [], ◌∷◌, ◌++◌, map, bit_or, bit_xor, get_or,
  take, drop,
}
use paf_archive.Words.{Bytes, u32}

-- `SHA256_K`
unfoldable pub sha256_k : List ℕ
sha256_k =
    0x428a2f98 ∷ 0x71374491 ∷ 0xb5c0fbcf ∷ 0xe9b5dba5 ∷ 0x3956c25b ∷ 0x59f111f1 ∷ 0x923f82a4
    ∷ 0xab1c5ed5 ∷ 0xd807aa98 ∷ 0x12835b01 ∷ 0x243185be ∷ 0x550c7dc3 ∷ 0x72be5d74 ∷ 0x80deb1fe
    ∷ 0x9bdc06a7 ∷ 0xc19bf174 ∷ 0xe49b69c1 ∷ 0xefbe4786 ∷ 0x0fc19dc6 ∷ 0x240ca1cc ∷ 0x2de92c6f
    ∷ 0x4a7484aa ∷ 0x5cb0a9dc ∷ 0x76f988da ∷ 0x983e5152 ∷ 0xa831c66d ∷ 0xb00327c8 ∷ 0xbf597fc7
    ∷ 0xc6e00bf3 ∷ 0xd5a79147 ∷ 0x06ca6351 ∷ 0x14292967 ∷ 0x27b70a85 ∷ 0x2e1b2138 ∷ 0x4d2c6dfc
    ∷ 0x53380d13 ∷ 0x650a7354 ∷ 0x766a0abb ∷ 0x81c2c92e ∷ 0x92722c85 ∷ 0xa2bfe8a1 ∷ 0xa81a664b
    ∷ 0xc24b8b70 ∷ 0xc76c51a3 ∷ 0xd192e819 ∷ 0xd6990624 ∷ 0xf40e3585 ∷ 0x106aa070 ∷ 0x19a4c116
    ∷ 0x1e376c08 ∷ 0x2748774c ∷ 0x34b0bcb5 ∷ 0x391c0cb3 ∷ 0x4ed8aa4a ∷ 0x5b9cca4f ∷ 0x682e6ff3
    ∷ 0x748f82ee ∷ 0x78a5636f ∷ 0x84c87814 ∷ 0x8cc70208 ∷ 0x90befffa ∷ 0xa4506ceb ∷ 0xbef9a3f7
    ∷ 0xc67178f2 ∷ []

-- the macros `ROTR`, `S0` and `S1`
abbrev pub rotr : ℕ → ℕ → ℕ
rotr x n = bit_or (x / 2 ^ n) (u32 (x * 2 ^ (32 - n)))

abbrev pub s0 : ℕ → ℕ
s0 x = bit_xor (bit_xor (rotr x 7) (rotr x 18)) (x / 2 ^ 3)

abbrev pub s1 : ℕ → ℕ
s1 x = bit_xor (bit_xor (rotr x 17) (rotr x 19)) (x / 2 ^ 10)

-- `__m128i` as four words, the lowest first
pub record M128 : Type 0 where
  pub d0 : ℕ
  pub d1 : ℕ
  pub d2 : ℕ
  pub d3 : ℕ

abbrev pub Rnds2 : Type 0
Rnds2 = M128 → M128 → M128 → M128

abbrev pub mm_set_epi32 : ℕ → ℕ → ℕ → ℕ → M128
mm_set_epi32 e3 e2 e1 e0 = record { d0 = e0; d1 = e1; d2 = e2; d3 = e3 }

abbrev pub mm_add_epi32 : M128 → M128 → M128
mm_add_epi32 x y = record {
  d0 = u32 (x.d0 + y.d0);
  d1 = u32 (x.d1 + y.d1);
  d2 = u32 (x.d2 + y.d2);
  d3 = u32 (x.d3 + y.d3);
}

abbrev pub lanes : M128 → List ℕ
lanes x = x.d0 ∷ x.d1 ∷ x.d2 ∷ x.d3 ∷ []

-- Two bits of the operand select each word.
abbrev pub mm_shuffle_epi32 : M128 → ℕ → M128
mm_shuffle_epi32 x imm = record {
  d0 = get_or (lanes x) (imm % 4) 0;
  d1 = get_or (lanes x) (imm / 4 % 4) 0;
  d2 = get_or (lanes x) (imm / 16 % 4) 0;
  d3 = get_or (lanes x) (imm / 64 % 4) 0;
}

-- `_mm_blend_epi16(x, y, 0xf0)`: the upper half is that of `y`.
abbrev pub mm_blend_f0 : M128 → M128 → M128
mm_blend_f0 x y = record { d0 = x.d0; d1 = x.d1; d2 = y.d2; d3 = y.d3 }

-- `_mm_alignr_epi8(x, y, 8)`: the upper half of `y`, and the lower one of `x` above it.
abbrev pub mm_alignr_8 : M128 → M128 → M128
mm_alignr_8 x y = record { d0 = y.d2; d1 = y.d3; d2 = x.d0; d3 = x.d1 }

abbrev pub word_bytes : ℕ → Bytes
word_bytes n = n % 256 ∷ n / 2 ^ 8 % 256 ∷ n / 2 ^ 16 % 256 ∷ n / 2 ^ 24 % 256 ∷ []

-- The bytes of a register in memory.
abbrev pub register_bytes : M128 → Bytes
register_bytes x = word_bytes x.d0 ++ (word_bytes x.d1 ++ (word_bytes x.d2 ++ word_bytes x.d3))

-- `bswap`, the lowest byte first
abbrev pub bswap : List ℕ
bswap = 3 ∷ 2 ∷ 1 ∷ 0 ∷ 7 ∷ 6 ∷ 5 ∷ 4 ∷ 11 ∷ 10 ∷ 9 ∷ 8 ∷ 15 ∷ 14 ∷ 13 ∷ 12 ∷ []

-- `_mm_storeu_si128` of the `_mm_shuffle_epi8` of a register
abbrev pub store_shuffled : M128 → List ℕ → Bytes
store_shuffled x mask = map (λ (i : ℕ). get_or (register_bytes x) i 0) mask

-- `W[0]` to `W[15]`
unfoldable pub block_words : Bytes → List ℕ
block_words (b0 ∷ b1 ∷ b2 ∷ b3 ∷ rest) =
    bit_or (bit_or (bit_or (b0 * 2 ^ 24) (b1 * 2 ^ 16)) (b2 * 2 ^ 8)) b3 ∷ block_words rest
block_words _ = []

-- The loop for `W[i]` on; `n` rounds are left.
unfoldable pub schedule_from : ℕ → ℕ → List ℕ → List ℕ
schedule_from zero i w = w
schedule_from (suc n) i w =
    let next = u32 (
      s1 (get_or w (i - 2) 0)
      + get_or w (i - 7) 0
      + s0 (get_or w (i - 15) 0)
      + get_or w (i - 16) 0) in
    schedule_from n (i + 1) (w ++ next ∷ [])

-- `S0` and `S1`
abbrev pub State : Type 0
State = M128 × M128

-- One round of the loop: four of the hash.
unfoldable pub four_rounds : Rnds2 → ℕ → ℕ → ℕ → ℕ → State → State
four_rounds rnds2 wk0 wk1 wk2 wk3 (st0, st1) =
    let msg = mm_set_epi32 wk3 wk2 wk1 wk0 in
    let st1' = rnds2 st1 st0 msg in (rnds2 st0 st1' (mm_shuffle_epi32 msg 0x0e), st1')

-- The loop over the constants and words, four at a time.
unfoldable pub all_rounds : Rnds2 → List ℕ → List ℕ → State → State
all_rounds rnds2 (k0 ∷ k1 ∷ k2 ∷ k3 ∷ ks) (w0 ∷ w1 ∷ w2 ∷ w3 ∷ ws) st =
    all_rounds rnds2 ks ws
      (four_rounds rnds2 (u32 (w0 + k0)) (u32 (w1 + k1)) (u32 (w2 + k2)) (u32 (w3 + k3)) st)
all_rounds _ _ _ st = st

-- one block
unfoldable pub ni_block : Rnds2 → State → Bytes → State
ni_block rnds2 (sv0, sv1) b =
    let (st0, st1) = all_rounds rnds2 sha256_k (schedule_from 48 16 (block_words b)) (sv0, sv1) in
    (mm_add_epi32 st0 sv0, mm_add_epi32 st1 sv1)

-- The loop over the padded message, on fuel: 64 bytes a round.
unfoldable pub ni_blocks : Rnds2 → ℕ → State → Bytes → State
ni_blocks rnds2 zero st buf = st
ni_blocks rnds2 (suc n) st buf = ni_blocks rnds2 n (ni_block rnds2 st (take 64 buf)) (drop 64 buf)

abbrev pub ni_initial : State
ni_initial = (
  mm_set_epi32 0x6a09e667 0xbb67ae85 0x510e527f 0x9b05688c,
  mm_set_epi32 0x3c6ef372 0xa54ff53a 0x1f83d9ab 0x5be0cd19,
)

-- what is stored behind the loop
unfoldable pub ni_digest : State → Bytes
ni_digest (st0, st1) =
    let tmp = mm_shuffle_epi32 st0 0x1b in
    let st1' = mm_shuffle_epi32 st1 0xb1 in
    store_shuffled (mm_blend_f0 tmp st1') bswap ++ store_shuffled (mm_alignr_8 st1' tmp) bswap
