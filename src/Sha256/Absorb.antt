-- ===== src/Sha256/Absorb.antt =====
-- The streaming half of libpaf/src/sha256.c (`sha256_init`, `sha256_update`) against a description
-- with no buffer: the state after the full blocks, and the bytes that are still pending.
use paf_archive.Prelude.{
  ℕ, suc, ◌+◌, ◌*◌, ◌%◌, ◌<◌, ◌≡◌, refl, sym, ap, ◌∙◌, arith, false, [], ◌∷◌, ◌++◌, length,
  length-append, append_assoc, append-nil, write_at, write_at-append, ◌==◌, if◌then◌else◌, ==_iff,
  length-eq-zero, ap₂, ◌≢◌,
}
use native.Mathlib.Decide.{ℕ_discrete}
use paf_archive.Words.{Bytes, u64}
use paf_archive.Sha256.{
  Regs, Sha256Context, sha256_transform, initial_state, sha256_init, update_byte, sha256_update,
}

-- the state after the full blocks, with the bytes that follow them
abbrev pub Pending : Type 0
Pending = Regs × Bytes

unfoldable pub absorb_byte : Pending → ℕ → Pending
absorb_byte (st, p) x =
    if length p + 1 == 64 then (sha256_transform st (p ++ x ∷ []), []) else (st, p ++ x ∷ [])

unfoldable pub absorb : Pending → Bytes → Pending
absorb s [] = s
absorb s (x ∷ xs) = absorb (absorb_byte s x) xs

pub absorb-append : (s : Pending) (xs ys : Bytes) → absorb s (xs ++ ys) ≡ absorb (absorb s xs) ys
unfolding absorb
absorb-append s [] ys = refl
absorb-append s (x ∷ xs) ys = absorb-append (absorb_byte s x) xs ys

absorb_byte-short :
    (st : Regs) (p : Bytes) (x : ℕ) → length p + 1 < 64 → absorb_byte (st, p) x ≡ (st, p ++ x ∷ [])
unfolding absorb_byte
absorb_byte-short st p x h = ground arith

absorb_byte-full :
    (st : Regs) (p : Bytes) (x : ℕ)
    → length p + 1 ≡ 64
    → absorb_byte (st, p) x ≡ (sha256_transform st (p ++ x ∷ []), [])
unfolding absorb_byte
absorb_byte-full st p x h = ground arith

pub absorb-short :
    (st : Regs) (p xs : Bytes) → length p + length xs < 64 → absorb (st, p) xs ≡ (st, p ++ xs)
unfolding absorb
absorb-short st p [] h = rw append-nil
absorb-short st p (x ∷ xs) h = rw (absorb_byte-short st p x (omega arith)) (
    absorb-short st (p ++ x ∷ []) xs (omega (arith, length-append p (x ∷ [])))
    ∙ rw (append_assoc p (x ∷ []) xs))

pub absorb-block :
    (st : Regs) (p : Bytes) (x : ℕ) (xs : Bytes)
    → length p + length (x ∷ xs) ≡ 64
    → absorb (st, p) (x ∷ xs) ≡ (sha256_transform st (p ++ x ∷ xs), [])
unfolding absorb
absorb-block st p x [] h = absorb_byte-full st p x (omega arith)
absorb-block st p x (y ∷ ys) h = rw (absorb_byte-short st p x (omega arith)) (
    absorb-block st (p ++ x ∷ []) y ys (omega (arith, length-append p (x ∷ [])))
    ∙ rw (append_assoc p (x ∷ []) (y ∷ ys)))

length-absorb_byte :
    (s : Pending) (x : ℕ) → length s.1 < 64 → length (absorb_byte s x).1 ≡ (length s.1 + 1) % 64
unfolding absorb_byte
length-absorb_byte s x h = ground (arith, length-append s.1 (x ∷ []))

-- How many bytes are pending.
pub length-absorb :
    (xs : Bytes) (s : Pending)
    → length s.1 < 64
    → length (absorb s xs).1 ≡ (length s.1 + length xs) % 64
unfolding absorb
length-absorb [] s h = omega arith
length-absorb (x ∷ xs) s h =
    let one = length-absorb_byte s x h in
    omega (arith, one, length-absorb xs (absorb_byte s x) (omega (arith, one)))

-- The context stands for `s` after `n` bytes: the buffer begins with the pending bytes.
pub record Tracks (c : Sha256Context) (s : Pending) (n : ℕ) : Type 0 where
  pub rest : Bytes
  pub state : c.state ≡ s.0
  pub datalen : c.datalen ≡ length s.1
  pub buffer : c.buffer ≡ s.1 ++ rest
  pub room : length s.1 + length rest ≡ 64
  pub short : length s.1 < 64
  pub bits : u64 (c.bitlen + c.datalen * 8) ≡ u64 (n * 8)

pub sha256_init-Tracks :
    (junk : Bytes) → length junk ≡ 64 → Tracks (sha256_init junk) (initial_state, []) 0
unfolding sha256_init
sha256_init-Tracks junk h = record {
  rest = junk;
  state = refl;
  datalen = refl;
  buffer = refl;
  room = omega arith;
  short = omega arith;
  bits = refl;
}

stored :
    (c : Sha256Context) (p : Bytes) (y : ℕ) (q : Bytes) (x : ℕ)
    → c.datalen ≡ length p
    → c.buffer ≡ p ++ y ∷ q
    → write_at c.buffer c.datalen (x ∷ []) ≡ p ++ x ∷ q
stored c p y q x hl hb = rw (hb, hl) (write_at-append (length p) p (y ∷ []) q (x ∷ []) refl refl)

module _ (c : Sha256Context) (st : Regs) (p : Bytes) (y : ℕ) (q : Bytes) (n x : ℕ)
    (hs : c.state ≡ st) (hl : c.datalen ≡ length p) (hb : c.buffer ≡ p ++ y ∷ q)
    (hr : length p + length (y ∷ q) ≡ 64)
    (bits : u64 (c.bitlen + c.datalen * 8) ≡ u64 (n * 8)) where
  step_full : c.datalen + 1 ≡ 64 → Tracks (update_byte c x) (absorb_byte (st, p) x) (n + 1)
  unfolding update_byte
  step_full full =
      let write = stored c p y q x hl hb in
      let none_left : q ≡ [] = length-eq-zero q (omega arith) in
      let block : write_at c.buffer c.datalen (x ∷ []) ≡ p ++ x ∷ [] =
        write ∙ ap (λ (t : Bytes). p ++ x ∷ t) none_left in
      rw ((==_iff (c.datalen + 1) 64).1 full, absorb_byte-full st p x (omega arith))
        (record {
          rest = p ++ x ∷ [];
          state = ap₂ sha256_transform hs block;
          datalen = refl;
          buffer = block;
          room = omega (arith, length-append p (x ∷ []));
          short = omega arith;
          bits = omega arith;
        })

  step_short : c.datalen + 1 ≢ 64 → Tracks (update_byte c x) (absorb_byte (st, p) x) (n + 1)
  unfolding update_byte
  step_short more =
      let more' : (c.datalen + 1 == 64) ≡ false = ground arith in
      let longer = length-append p (x ∷ []) in
      rw (more', absorb_byte-short st p x (omega arith))
        (record {
          rest = q;
          state = hs;
          datalen = omega (arith, longer);
          buffer = stored c p y q x hl hb ∙ sym (append_assoc p (x ∷ []) q);
          room = omega (arith, longer);
          short = omega (arith, longer);
          bits = omega arith;
        })

step :
    (c : Sha256Context) (st : Regs) (p rest : Bytes) (n x : ℕ)
    → c.state ≡ st
    → c.datalen ≡ length p
    → c.buffer ≡ p ++ rest
    → length p + length rest ≡ 64
    → length p < 64
    → u64 (c.bitlen + c.datalen * 8) ≡ u64 (n * 8)
    → Tracks (update_byte c x) (absorb_byte (st, p) x) (n + 1)
step c st p [] n x hs hl hb hr short bits = absurd (omega arith)
step c st p (y ∷ q) n x hs hl hb hr short bits = elim (ℕ_discrete (c.datalen + 1) 64) [
  | yes full ↦ step_full c st p y q n x hs hl hb hr bits full
  | no more ↦ step_short c st p y q n x hs hl hb hr bits more
]

pub sha256_update-Tracks :
    (xs : Bytes) {c : Sha256Context} {s : Pending} {n : ℕ}
    → Tracks c s n
    → Tracks (sha256_update c xs) (absorb s xs) (n + length xs)
unfolding sha256_update absorb
sha256_update-Tracks [] {n} t = let e : n + 0 ≡ n = omega arith in rw e t
sha256_update-Tracks (x ∷ xs) {c} {s} {n} t =
    let e : n + suc (length xs) ≡ n + 1 + length xs = omega arith in
    rw e (
      sha256_update-Tracks xs
        (step c s.0 s.1 t.rest n x t.state t.datalen t.buffer t.room t.short t.bits))

-- Feeding a message in two pieces is feeding it at once.
pub sha256_update-append :
    (c : Sha256Context) (xs ys : Bytes)
    → sha256_update c (xs ++ ys) ≡ sha256_update (sha256_update c xs) ys
unfolding sha256_update
sha256_update-append c [] ys = refl
sha256_update-append c (x ∷ xs) ys = sha256_update-append (update_byte c x) xs ys
