-- ===== src/Sha256/Padding.antt =====
-- `sha256_final` of libpaf/src/sha256.c against `sha256_pad` of libpaf/src/paf_sha256_hw.c: the
-- streaming implementation and the padded copy of the hardware paths give one digest.
use paf_archive.Prelude.{
  ℕ, zero, suc, ◌+◌, ◌-◌, ◌*◌, ◌/◌, ◌%◌, ◌^◌, ◌<◌, ◌≤◌, ◌≡◌, refl, sym, ap, ◌∙◌, arith, [], ◌∷◌,
  ◌++◌, length, length-append, append_assoc, append-nil, write_at, write_at-append, replicate,
  length-replicate, replicate_add, take, drop, take-append-drop, length-drop, length-take, lt→ltb,
  le→ltb_false, length-eq-zero,
}
use native.Mathlib.Decide.{dec_lt}
use paf_archive.Words.{Bytes, u64}
use paf_archive.Sha256.{
  Regs, Sha256Context, sha256_transform, initial_state, final_padding, sha256_final, digest, be64,
  sha256_pad, transform_blocks, sha256, sha256_init, sha256_update, paf_sha256_generic,
}
use paf_archive.Sha256.Absorb.{
  Pending, absorb, absorb-append, absorb-short, absorb-block, length-absorb, Tracks,
  sha256_init-Tracks, sha256_update-Tracks,
}

abbrev zeros : ℕ → Bytes
zeros n = replicate n 0

-- A mark and zeros behind `p`, in a buffer with `k` more bytes.
marked :
    (p rest : Bytes) (k z : ℕ)
    → length rest ≡ suc (z + k)
    → (r : Bytes) × (length r ≡ k)
      × (write_at (write_at (p ++ rest) (length p) (0x80 ∷ [])) (length p + 1) (zeros z)
          ≡ (p ++ 0x80 ∷ zeros z) ++ r)
marked p [] k z h = absurd (omega arith)
marked p (y ∷ q) k z h =
    let front = p ++ 0x80 ∷ [] in
    let m = take z q in
    let r = drop z q in
    let cut : p ++ 0x80 ∷ q ≡ front ++ (m ++ r) =
      rw (take-append-drop z q, append_assoc p (0x80 ∷ []) q) in
    (
      r,
      omega (arith, length-drop z q),
      rw
          (
            write_at-append (length p) p (y ∷ []) q (0x80 ∷ []) refl refl,
            cut,
            write_at-append (length p + 1) front m r (zeros z) (length-append p (0x80 ∷ []))
                (omega (arith, length-take z q, length-replicate {A = ℕ} z 0)),
          )
          (rw (append_assoc p (0x80 ∷ []) (zeros z ++ r), append_assoc p (0x80 ∷ zeros z) r)),
    )

length-be64 : (n : ℕ) → length (be64 n) ≡ 8
unfolding be64
length-be64 n = refl

length-zeros : (n : ℕ) → length (zeros n) ≡ n
length-zeros n = length-replicate {A = ℕ} n 0

-- What `sha256_final` appends to a message of `n` bytes of which `p` are pending.
abbrev tail_of : ℕ → ℕ → Bytes
tail_of z n = 0x80 ∷ (zeros z ++ be64 (u64 (n * 8)))

-- The length goes over the last eight bytes of a block.
stamped :
    (pre r b : Bytes)
    → length pre ≡ 56
    → length r ≡ 8
    → length b ≡ 8
    → write_at (pre ++ r) 56 b ≡ pre ++ b
stamped pre r b hp hr hb =
    ap (λ (x : Bytes). write_at (pre ++ x) 56 b) (sym (append-nil r))
    ∙ write_at-append 56 pre r [] b hp (omega arith)
    ∙ ap (λ (x : Bytes). pre ++ x) (append-nil b)

absorb_two :
    (st : Regs) (p : Bytes) (z n : ℕ)
    → length p + suc z ≡ 64
    → absorb (st, p) (tail_of (z + 56) n) ≡ (
      sha256_transform (sha256_transform st (p ++ 0x80 ∷ zeros z)) (zeros 56 ++ be64 (u64 (n * 8))),
      [],
    )
absorb_two st p z n h =
    let len = be64 (u64 (n * 8)) in
    let split : tail_of (z + 56) n ≡ (0x80 ∷ zeros z) ++ (zeros 56 ++ len) =
      rw (replicate_add {A = ℕ} z 56 0, append_assoc (zeros z) (zeros 56) len) in
    rw (split, absorb-append (st, p) (0x80 ∷ zeros z) (zeros 56 ++ len))
      (rw (absorb-block st p 0x80 (zeros z) (omega (arith, length-zeros z))) (
        absorb-block (sha256_transform st (p ++ 0x80 ∷ zeros z)) [] 0 (zeros 55 ++ len)
          (omega (arith, length-append (zeros 55) len, length-be64 (u64 (n * 8))))))

module _ (c : Sha256Context) (st : Regs) (p : Bytes) (n : ℕ) (t : Tracks c (st, p) n) where
  bits : u64 (c.bitlen + length p * 8) ≡ u64 (n * 8)
  bits = rw t.datalen at t.bits

  -- The length fits behind the mark.
  final_one : length p < 56 → sha256_final c ≡ digest (absorb (st, p) (tail_of (55 - length p) n)).0
  unfolding sha256_final final_padding
  final_one h =
      let z = 55 - length p in
      let (r, size, buffer) = marked p t.rest 8 z (omega (arith, t.room)) in
      let fill : 56 - (length p + 1) ≡ z = omega arith in
      let len = be64 (u64 (n * 8)) in
      let front = length-append p (0x80 ∷ zeros z) in
      let zs = length-zeros z in
      rw (t.datalen, t.buffer, t.state, lt→ltb (length p) 56 h, fill, buffer, bits)
        (rw (
          stamped (p ++ 0x80 ∷ zeros z) r len (omega arith) size (length-be64 _),
          absorb-block st p 0x80 (zeros z ++ len)
              (omega (arith, length-append (zeros z) len, length-be64 (u64 (n * 8)))),
          append_assoc p (0x80 ∷ zeros z) len,
        ))

  -- The length needs a block of its own.
  final_two :
      56 ≤ length p → sha256_final c ≡ digest (absorb (st, p) (tail_of (119 - length p) n)).0
  unfolding sha256_final final_padding
  final_two h =
      let z = 63 - length p in
      let (r, size, buffer) = marked p t.rest 0 z (omega (arith, t.room, t.short)) in
      let fill : 64 - (length p + 1) ≡ z = omega arith in
      let len = be64 (u64 (n * 8)) in
      let zs = length-zeros z in
      let front = length-append p (0x80 ∷ zeros z) in
      let full = p ++ 0x80 ∷ zeros z in
      let none_left : full ++ r ≡ full = rw (length-eq-zero r size) (append-nil full) in
      let two : 119 - length p ≡ z + 56 = omega (arith, t.short) in
      rw (t.datalen, t.buffer, t.state, le→ltb_false (length p) 56 h, fill, buffer, none_left, bits)
        (ap (λ (b : Bytes). digest (sha256_transform (sha256_transform st full) b))
            (stamped (zeros 56) (drop 56 full) len refl (omega (arith, length-drop 56 full))
              (length-be64 _))
          ∙ rw (two, absorb_two st p z n (omega arith)))

-- Whole blocks, fed byte by byte.
absorb-blocks :
    (k : ℕ) (st : Regs) (buf : Bytes)
    → length buf ≡ k * 64
    → absorb (st, []) buf ≡ (transform_blocks k st buf, [])
unfolding transform_blocks
absorb-blocks zero st [] h = absorb-short st [] [] (omega arith)
absorb-blocks zero st (x ∷ xs) h = absurd (omega arith)
absorb-blocks (suc k) st [] h = absurd (omega arith)
absorb-blocks (suc k) st (x ∷ xs) h =
    let rest = drop 63 xs in
    let cut = take-append-drop 63 xs in
    let first = absorb-block st [] x (take 63 xs) (omega (arith, length-take 63 xs)) in
    ap (λ (t : Bytes). absorb (st, []) (x ∷ t)) (sym cut)
    ∙ absorb-append (st, []) (x ∷ take 63 xs) rest
    ∙ ap (λ (s : Pending). absorb s rest) first
    ∙ absorb-blocks k (sha256_transform st (x ∷ take 63 xs)) rest (omega (arith, length-drop 63 xs))

abbrev padded_size : ℕ → ℕ
padded_size n = (n + 72) / 64 * 64

pad_cells :
    (msg len : Bytes) (p z : ℕ)
    → p ≡ length msg + suc (z + 8)
    → length len ≡ 8
    → write_at (write_at (write_at (zeros p) 0 msg) (length msg) (0x80 ∷ [])) (p - 8) len
      ≡ msg ++ 0x80 ∷ (zeros z ++ len)
pad_cells msg len p z e h =
    let n = length msg in
    let cells : zeros p ≡ zeros n ++ 0 ∷ (zeros z ++ zeros 8) =
      rw (e, replicate_add {A = ℕ} n (suc (z + 8)) 0, replicate_add {A = ℕ} z 8 0) in
    let copied =
      write_at-append 0 [] (zeros n) (0 ∷ (zeros z ++ zeros 8)) msg refl (length-zeros n) in
    let mark = write_at-append n msg (0 ∷ []) (zeros z ++ zeros 8) (0x80 ∷ []) refl refl in
    let front = msg ++ 0x80 ∷ zeros z in
    let regroup : msg ++ 0x80 ∷ (zeros z ++ zeros 8) ≡ front ++ (zeros 8 ++ []) =
      sym (append_assoc msg (0x80 ∷ zeros z) (zeros 8)) in
    let at : length front ≡ p - 8 =
      omega (arith, length-append msg (0x80 ∷ zeros z), length-zeros z) in
    ap (λ (t : Bytes). write_at (write_at (write_at t 0 msg) n (0x80 ∷ [])) (p - 8) len) cells
    ∙ ap (λ (t : Bytes). write_at (write_at t n (0x80 ∷ [])) (p - 8) len) copied
    ∙ ap (λ (t : Bytes). write_at t (p - 8) len) (mark ∙ regroup)
    ∙ write_at-append (p - 8) front (zeros 8) [] len at (sym h)
    ∙ ap (λ (t : Bytes). front ++ t) (append-nil len)
    ∙ append_assoc msg (0x80 ∷ zeros z) len

-- The padded copy: the message, a mark, zeros, and the length in bits.
sha256_pad_lem :
    (msg : Bytes)
    → length msg + 72 < 2 ^ 64
    → sha256_pad msg ≡ msg ++ tail_of (padded_size (length msg) - length msg - 9) (length msg)
unfolding sha256_pad
sha256_pad_lem msg h =
    let n = length msg in
    let z = padded_size n - n - 9 in
    let p : u64 (n + 9 + 63) / 64 * 64 ≡ n + suc (z + 8) = omega arith in
    pad_cells msg (be64 (u64 (n * 8))) _ z p (length-be64 (u64 (n * 8)))

pub length-sha256_pad :
    (msg : Bytes) → length msg + 72 < 2 ^ 64 → length (sha256_pad msg) ≡ padded_size (length msg)
length-sha256_pad msg h =
    let n = length msg in
    let z = padded_size n - n - 9 in
    let len = be64 (u64 (n * 8)) in
    rw (sha256_pad_lem msg h, length-append msg (0x80 ∷ (zeros z ++ len)))
      (omega (arith, length-append (zeros z) len, length-zeros z, length-be64 (u64 (n * 8))))

module _ (msg : Bytes) (h : length msg + 72 < 2 ^ 64) where
  absorb-sha256_pad :
      (z : ℕ)
      → padded_size (length msg) ≡ length msg + 9 + z
      → digest (absorb (absorb (initial_state, []) msg) (tail_of z (length msg))).0 ≡ sha256 msg
  unfolding sha256
  absorb-sha256_pad z e =
      let buf = sha256_pad msg in
      let size = length-sha256_pad msg h in
      let k : length buf ≡ length buf / 64 * 64 = omega (arith, size) in
      let z' : padded_size (length msg) - length msg - 9 ≡ z = omega arith in
      let whole : msg ++ tail_of z (length msg) ≡ buf = rw (sha256_pad_lem msg h, z') in
      ap (λ (s : Pending). digest s.0)
        (sym (absorb-append (initial_state, []) msg (tail_of z (length msg)))
          ∙ ap (absorb (initial_state, [])) whole
          ∙ absorb-blocks (length buf / 64) initial_state buf k)

  -- The streaming implementation computes the digest of the padded message, whatever the
  -- uninitialised buffer held, for a message whose padded size fits a `size_t`.
  pub paf_sha256_generic_lem :
      (junk : Bytes) → length junk ≡ 64 → paf_sha256_generic junk msg ≡ sha256 msg
  unfolding paf_sha256_generic
  paf_sha256_generic_lem junk hj =
      let s = absorb (initial_state, []) msg in
      let t = sha256_update-Tracks msg (sha256_init-Tracks junk hj) in
      let size : length s.1 ≡ length msg % 64 =
        omega (arith, length-absorb msg (initial_state, []) (omega arith)) in
      let n : 0 + length msg ≡ length msg = omega arith in
      let t' : Tracks (sha256_update (sha256_init junk) msg) (s.0, s.1) (length msg) = rw n at t in
      elim (dec_lt (length s.1) 56) [
        | yes small ↦
            final_one _ s.0 s.1 (length msg) t' small
            ∙ absorb-sha256_pad (55 - length s.1) (omega (arith, size))
        | no large ↦
            final_two _ s.0 s.1 (length msg) t' (omega arith)
            ∙ absorb-sha256_pad (119 - length s.1) (omega (arith, size))
      ]

-- A digest has 32 bytes.
pub length-sha256 : (msg : Bytes) → length (sha256 msg) ≡ 32
unfolding sha256 digest
length-sha256 msg = refl
