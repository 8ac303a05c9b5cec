-- ===== src/Sha256.antt =====
-- libpaf/src/sha256.c, and the padding and the choice of a path in libpaf/src/paf_sha256_hw.c. Words
-- are numbers below 2 ^ 32; the bytes of a block are numbers below 256.
pub mod Absorb
pub mod Padding
pub mod Vector
pub mod Dispatch
use paf_archive.Prelude.{
  ℕ, zero, suc, ◌+◌, ◌-◌, ◌*◌, ◌/◌, ◌%◌, ◌^◌, ◌≡◌, refl, List, [], ◌∷◌, ◌++◌, bit_and, bit_or,
  bit_xor, get_or, write_at, replicate, length, ltb, ◌==◌, if◌then◌else◌, take, drop, Bool,
}
use paf_archive.Words.{Bytes, u32, u64}
use paf_archive.ShaNi.{Rnds2, ni_initial, ni_blocks, ni_digest}

-- The macros. `~x` on 32 bits is `2 ^ 32 - 1 - x`.
abbrev rot_right : ℕ → ℕ → ℕ
rot_right a b = bit_or (a / 2 ^ b) (u32 (a * 2 ^ (32 - b)))

abbrev ch : ℕ → ℕ → ℕ → ℕ
ch x y z = bit_xor (bit_and x y) (bit_and (2 ^ 32 - 1 - x) z)

abbrev maj : ℕ → ℕ → ℕ → ℕ
maj x y z = bit_xor (bit_xor (bit_and x y) (bit_and x z)) (bit_and y z)

abbrev ep0 : ℕ → ℕ
ep0 x = bit_xor (bit_xor (rot_right x 2) (rot_right x 13)) (rot_right x 22)

abbrev ep1 : ℕ → ℕ
ep1 x = bit_xor (bit_xor (rot_right x 6) (rot_right x 11)) (rot_right x 25)

abbrev sig0 : ℕ → ℕ
sig0 x = bit_xor (bit_xor (rot_right x 7) (rot_right x 18)) (x / 2 ^ 3)

abbrev sig1 : ℕ → ℕ
sig1 x = bit_xor (bit_xor (rot_right x 17) (rot_right x 19)) (x / 2 ^ 10)

-- the table `k`
round_constants : List ℕ
round_constants =
    0x428a2f98 ∷ 0x71374491 ∷ 0xb5c0fbcf ∷ 0xe9b5dba5 ∷ 0x3956c25b ∷ 0x59f111f1 ∷ 0x923f82a4
    ∷ 0xab1c5ed5 ∷ 0xd807aa98 ∷ 0x12835b01 ∷ 0x243185be ∷ 0x550c7dc3 ∷ 0x72be5d74 ∷ 0x80deb1fe
    ∷ 0x9bdc06a7 ∷ 0xc19bf174 ∷ 0xe49b69c1 ∷ 0xefbe4786 ∷ 0x0fc19dc6 ∷ 0x240ca1cc ∷ 0x2de92c6f
    ∷ 0x4a7484aa ∷ 0x5cb0a9dc ∷ 0x76f988da ∷ 0x983e5152 ∷ 0xa831c66d ∷ 0xb00327c8 ∷ 0xbf597fc7
    ∷ 0xc6e00bf3 ∷ 0xd5a79147 ∷ 0x06ca6351 ∷ 0x14292967 ∷ 0x27b70a85 ∷ 0x2e1b2138 ∷ 0x4d2c6dfc
    ∷ 0x53380d13 ∷ 0x650a7354 ∷ 0x766a0abb ∷ 0x81c2c92e ∷ 0x92722c85 ∷ 0xa2bfe8a1 ∷ 0xa81a664b
    ∷ 0xc24b8b70 ∷ 0xc76c51a3 ∷ 0xd192e819 ∷ 0xd6990624 ∷ 0xf40e3585 ∷ 0x106aa070 ∷ 0x19a4c116
    ∷ 0x1e376c08 ∷ 0x2748774c ∷ 0x34b0bcb5 ∷ 0x391c0cb3 ∷ 0x4ed8aa4a ∷ 0x5b9cca4f ∷ 0x682e6ff3
    ∷ 0x748f82ee ∷ 0x78a5636f ∷ 0x84c87814 ∷ 0x8cc70208 ∷ 0x90befffa ∷ 0xa4506ceb ∷ 0xbef9a3f7
    ∷ 0xc67178f2 ∷ []

-- The eight words, `ctx->state` and the variables `a` to `h` of a block.
pub record Regs : Type 0 where
  pub a : ℕ
  pub b : ℕ
  pub c : ℕ
  pub d : ℕ
  pub e : ℕ
  pub f : ℕ
  pub g : ℕ
  pub h : ℕ

-- the first loop: big-endian words of the block
load_words : Bytes → List ℕ
load_words (b0 ∷ b1 ∷ b2 ∷ b3 ∷ rest) =
    bit_or (bit_or (bit_or (b0 * 2 ^ 24) (b1 * 2 ^ 16)) (b2 * 2 ^ 8)) b3 ∷ load_words rest
load_words _ = []

-- the second loop, from `m[i]` on; `n` rounds are left
extend_words : ℕ → ℕ → List ℕ → List ℕ
extend_words zero i m = m
extend_words (suc n) i m =
    let w = u32 (
      sig1 (get_or m (i - 2) 0)
      + get_or m (i - 7) 0
      + sig0 (get_or m (i - 15) 0)
      + get_or m (i - 16) 0) in
    extend_words n (i + 1) (m ++ w ∷ [])

round : ℕ → ℕ → Regs → Regs
round k m r =
    let t1 = u32 (r.h + ep1 r.e + ch r.e r.f r.g + k + m) in
    let t2 = u32 (ep0 r.a + maj r.a r.b r.c) in
    record {
      a = u32 (t1 + t2);
      b = r.a;
      c = r.b;
      d = r.c;
      e = u32 (r.d + t1);
      f = r.e;
      g = r.f;
      h = r.g;
    }

-- the 64 rounds, one for each constant and word
rounds : List ℕ → List ℕ → Regs → Regs
rounds (k ∷ ks) (m ∷ ms) r = rounds ks ms (round k m r)
rounds _ _ r = r

add_regs : Regs → Regs → Regs
add_regs s r = record {
  a = u32 (s.a + r.a);
  b = u32 (s.b + r.b);
  c = u32 (s.c + r.c);
  d = u32 (s.d + r.d);
  e = u32 (s.e + r.e);
  f = u32 (s.f + r.f);
  g = u32 (s.g + r.g);
  h = u32 (s.h + r.h);
}

unfoldable pub sha256_transform : Regs → Bytes → Regs
unfolding load_words extend_words rounds round round_constants add_regs
sha256_transform st block =
    add_regs st (rounds round_constants (extend_words 48 16 (load_words block)) st)

-- `sha256_context_t`
pub record Sha256Context : Type 0 where
  pub buffer : Bytes
  pub datalen : ℕ
  pub bitlen : ℕ
  pub state : Regs

unfoldable pub initial_state : Regs
initial_state = record {
  a = 0x6a09e667;
  b = 0xbb67ae85;
  c = 0x3c6ef372;
  d = 0xa54ff53a;
  e = 0x510e527f;
  f = 0x9b05688c;
  g = 0x1f83d9ab;
  h = 0x5be0cd19;
}

-- `buffer` is what the 64 bytes of `ctx->data` hold before the call, which does not write them.
unfoldable pub sha256_init : Bytes → Sha256Context
sha256_init buffer = record { buffer = buffer; datalen = 0; bitlen = 0; state = initial_state }

-- one round of the loop of `sha256_update`
unfoldable pub update_byte : Sha256Context → ℕ → Sha256Context
update_byte c x =
    let buffer = write_at c.buffer c.datalen (x ∷ []) in
    if c.datalen + 1 == 64
    then record {
      buffer = buffer;
      datalen = 0;
      bitlen = u64 (c.bitlen + 512);
      state = sha256_transform c.state buffer;
    }
    else record c { buffer = buffer; datalen = c.datalen + 1 }

unfoldable pub sha256_update : Sha256Context → Bytes → Sha256Context
unfolding update_byte
sha256_update c [] = c
sha256_update c (x ∷ xs) = sha256_update (update_byte c x) xs

-- The eight bytes of a 64-bit number, the highest first.
unfoldable pub be64 : ℕ → Bytes
be64 n =
    n / 2 ^ 56 % 256
    ∷ n / 2 ^ 48 % 256
    ∷ n / 2 ^ 40 % 256
    ∷ n / 2 ^ 32 % 256
    ∷ n / 2 ^ 24 % 256
    ∷ n / 2 ^ 16 % 256
    ∷ n / 2 ^ 8 % 256
    ∷ n % 256
    ∷ []

be32 : ℕ → Bytes
be32 n = n / 2 ^ 24 % 256 ∷ n / 2 ^ 16 % 256 ∷ n / 2 ^ 8 % 256 ∷ n % 256 ∷ []

-- the last loop of `sha256_final`
unfoldable pub digest : Regs → Bytes
unfolding be32
digest s =
    be32 s.a
    ++ (be32 s.b ++ (be32 s.c ++ (be32 s.d ++ (be32 s.e ++ (be32 s.f ++ (be32 s.g ++ be32 s.h))))))

-- The block that is left for the last transform, before the length is stored.
unfoldable pub final_padding : Sha256Context → Bytes × Regs
final_padding c =
    let marked = write_at c.buffer c.datalen (0x80 ∷ []) in
    if ltb c.datalen 56
    then (write_at marked (c.datalen + 1) (replicate (56 - (c.datalen + 1)) 0), c.state)
    else let full = write_at marked (c.datalen + 1) (replicate (64 - (c.datalen + 1)) 0) in
      (write_at full 0 (replicate 56 0), sha256_transform c.state full)

unfoldable pub sha256_final : Sha256Context → Bytes
unfolding final_padding
sha256_final c =
    let (block, state) = final_padding c in
    let bitlen = u64 (c.bitlen + c.datalen * 8) in
    digest (sha256_transform state (write_at block 56 (be64 bitlen)))

-- `paf_sha256_generic`; `junk` is what the context's buffer holds on the stack.
unfoldable pub paf_sha256_generic : Bytes → Bytes → Bytes
paf_sha256_generic junk msg = sha256_final (sha256_update (sha256_init junk) msg)

-- `sha256_pad`, where `calloc` succeeds
unfoldable pub sha256_pad : Bytes → Bytes
sha256_pad msg =
    let len = length msg in
    let p = u64 (len + 9 + 63) / 64 * 64 in
    let buf = write_at (replicate p 0) 0 msg in
    write_at (write_at buf len (0x80 ∷ [])) (p - 8) (be64 (u64 (len * 8)))

-- The hash of a padded message, on fuel: 64 bytes a round.
unfoldable pub transform_blocks : ℕ → Regs → Bytes → Regs
transform_blocks zero st buf = st
transform_blocks (suc n) st buf =
    transform_blocks n (sha256_transform st (take 64 buf)) (drop 64 buf)

-- The message digest: the padded message, block by block.
unfoldable pub sha256 : Bytes → Bytes
sha256 msg =
    let buf = sha256_pad msg in digest (transform_blocks (length buf / 64) initial_state buf)

-- `paf_sha256_x86ni`: `calloc` tells whether the padded copy can be had.
unfoldable pub paf_sha256_x86ni : Rnds2 → Bool → Bytes → Bytes → Bytes
paf_sha256_x86ni rnds2 calloc junk msg =
    let buf = sha256_pad msg in
    if calloc
    then ni_digest (ni_blocks rnds2 (length buf / 64) ni_initial buf)
    else paf_sha256_generic junk msg

-- The function that `paf_sha256_detect` has chosen, of those on x86-64.
pub data Sha256Path : Type 0 where
  generic : Sha256Path
  x86ni : Rnds2 → Bool → Sha256Path

unfoldable pub paf_sha256_compute : Sha256Path → Bytes → Bytes → Bytes
paf_sha256_compute generic junk msg = paf_sha256_generic junk msg
paf_sha256_compute (x86ni rnds2 calloc) junk msg = paf_sha256_x86ni rnds2 calloc junk msg
