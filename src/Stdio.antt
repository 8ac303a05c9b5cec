-- ===== src/Stdio.antt =====
-- What the sources use of the C library: streams over a file's bytes, NUL-terminated strings, and
-- the machine's choices (which allocations succeed, what a fresh block holds).
use paf_archive.Prelude.{
  ℕ, zero, suc, ◌+◌, ◌^◌, ◌≤◌, ◌<◌, ◌≡◌, refl, arith, Bool, true, false, [], ◌∷◌, ◌++◌, length,
  take, drop, ltb, ◌==◌, ◌&&◌, if◌then◌else◌, Option, lt→ltb, take-append, drop-append, length-take,
}
use paf_archive.Words.{Bytes}

-- An open stream: the bytes of the file and the position.
pub record Stream : Type 0 where
  pub content : Bytes
  pub pos : ℕ

abbrev pub open_stream : Bytes → Stream
open_stream b = record { content = b; pos = 0 }

-- `fseek(fp, (long)off, SEEK_SET)` with a 64-bit `long`: an offset from 2 ^ 63 on is negative, the
-- call fails and the position stays.
unfoldable pub fseek : Stream → ℕ → Stream
fseek s off = if ltb off (2 ^ 63) then record s { pos = off } else s

unfoldable pub fseek_ok : ℕ → Bool
fseek_ok off = ltb off (2 ^ 63)

-- `fread(buf, 1, n, fp)`: the bytes that were there, at most `n`, and the stream behind them.
unfoldable pub fread : Stream → ℕ → Bytes × Stream
fread s n = let got = take n (drop s.pos s.content) in (got, record s { pos = s.pos + length got })

-- Which `malloc(n)` succeed, and what a fresh block holds before it is written.
pub record Machine : Type 0 where
  pub malloc : ℕ → Bool
  pub junk : ℕ → ℕ

-- The first `n` bytes of a fresh block from offset `i` on.
unfoldable pub junk_bytes : (ℕ → ℕ) → ℕ → ℕ → Bytes
junk_bytes junk i zero = []
junk_bytes junk i (suc n) = junk i ∷ junk_bytes junk (i + 1) n

-- The string that a buffer holds: its bytes up to the first NUL.
abbrev pub c_string : Bytes → Bytes
c_string [] = []
c_string (c ∷ s) = if c == 0 then [] else c ∷ c_string s

-- A string has no NUL in it.
abbrev pub NoNul : Bytes → Type 0
NoNul [] = Unit
NoNul (c ∷ s) = (0 < c) × NoNul s

pub c_string_lem : (s : Bytes) → NoNul s → c_string s ≡ s
c_string_lem [] h = refl
c_string_lem (c ∷ s) (h, t) = ground (arith, c_string_lem s t)

-- `strcmp(a, b) == 0` and `memcmp(a, b, n) == 0` at blocks of one length.
abbrev pub bytes_eq : Bytes → Bytes → Bool
bytes_eq [] [] = true
bytes_eq (a ∷ s) (b ∷ t) = a == b && bytes_eq s t
bytes_eq _ _ = false

pub bytes_eq_refl : (s : Bytes) → bytes_eq s s ≡ true
bytes_eq_refl [] = refl
bytes_eq_refl (a ∷ s) = ground (arith, bytes_eq_refl s)

pub bytes_eq→eq : (s t : Bytes) → bytes_eq s t ≡ true → s ≡ t
bytes_eq→eq [] [] h = refl
bytes_eq→eq [] (b ∷ t) h = ground arith
bytes_eq→eq (a ∷ s) [] h = ground arith
bytes_eq→eq (a ∷ s) (b ∷ t) h = ground (arith, bytes_eq→eq s t)

-- `strncmp(s, prefix, strlen(prefix)) == 0`.
abbrev pub starts_with : Bytes → Bytes → Bool
starts_with [] s = true
starts_with (p ∷ ps) [] = false
starts_with (p ∷ ps) (c ∷ s) = p == c && starts_with ps s

-- A file that is read: a missing one is `none`.
abbrev pub Files : Type 0
Files = Bytes → Option Bytes

pub fseek_ok-lt : (off : ℕ) → off < 2 ^ 63 → fseek_ok off ≡ true
unfolding fseek_ok
fseek_ok-lt off h = lt→ltb off (2 ^ 63) h

-- A read at an offset, of the bytes that stand there in the file.
pub fseek-fread :
    (s : Stream) (off n : ℕ) (pre got post : Bytes)
    → s.content ≡ pre ++ (got ++ post)
    → length pre ≡ off
    → length got ≡ n
    → off < 2 ^ 63
    → (fread (fseek s off) n).0 ≡ got
unfolding fread fseek
fseek-fread s off n pre got post e hp hg h =
    rw (lt→ltb off (2 ^ 63) h, e, drop-append off pre (got ++ post) hp, take-append n got post hg)

pub content-fseek : (s : Stream) (off : ℕ) → (fseek s off).content ≡ s.content
unfolding fseek
content-fseek s off = ground arith

pub content-fread : (s : Stream) (n : ℕ) → (fread s n).1.content ≡ s.content
unfolding fread
content-fread s n = refl

pub length-fread-le : (s : Stream) (n : ℕ) → length (fread s n).0 ≤ n
unfolding fread
length-fread-le s n = omega (arith, length-take n (drop s.pos s.content))

-- A read at the start of the file.
pub fread-front :
    (s : Stream) (n : ℕ) (got post : Bytes)
    → s.pos ≡ 0
    → s.content ≡ got ++ post
    → length got ≡ n
    → (fread s n).0 ≡ got
unfolding fread
fread-front s n got post hp e hg = rw (hp, e, take-append n got post hg)
