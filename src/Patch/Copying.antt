-- ===== src/Patch/Copying.antt =====
-- The reading loops of libpaf/src/libpaf_patch.c: what they read is the file, whatever their chunks.
use paf_archive.Prelude.{
  ℕ, zero, suc, ◌+◌, ◌-◌, ◌<◌, ◌≤◌, ◌≡◌, refl, ap, sym, ◌∙◌, arith, Bool, false, [], ◌++◌, length,
  take, drop, min, leb, le→leb, ==_yes, ==_no, some, append-nil, append_assoc, length-take,
  length-drop, length-eq-zero, take_all, take_add, take-append-drop, drop-drop, drop_all,
}
use native.Mathlib.Decide.{ℕ_discrete, dec_lt}
use paf_archive.Words.{Bytes}
use paf_archive.Stdio.{Stream, open_stream, fread}
use paf_archive.Sha256.{Sha256Context, sha256_init, sha256_update, sha256_final, paf_sha256_generic}
use paf_archive.Sha256.Absorb.{sha256_update-append}
use paf_archive.Generator.Streaming.{sha256_update-nil}
use paf_archive.Patch.{copy_loop, copied, hash_loop, hash_file}
use paf_archive.Patch.Staging.{stage_loop}

-- What stands behind the position.
abbrev pub left : Stream → Bytes
left fp = drop fp.pos fp.content

pub left-fread : (fp : Stream) (k : ℕ) → left (fread fp k).1 ≡ drop k (left fp)
unfolding fread
left-fread fp k =
    sym (drop-drop (length (take k (left fp))) fp.pos fp.content)
    ∙ (elim (dec_lt k (length (left fp))) [
      | yes short ↦
          let size : length (take k (left fp)) ≡ k = omega (arith, length-take k (left fp)) in
          ap (λ (n : ℕ). drop n (left fp)) size
      | no long ↦
          drop_all (length (take k (left fp))) (left fp) (omega (arith, length-take k (left fp)))
          ∙ sym (drop_all k (left fp) (omega arith))
    ])

pub got-fread : (fp : Stream) (k : ℕ) → (fread fp k).0 ≡ take k (left fp)
unfolding fread
got-fread fp k = refl

-- What a chunk leaves is read by the rest of the loop.
chunk_left :
    (k : ℕ) (s : Bytes) (n : ℕ)
    → k ≡ 65536
    → ¬ (length (take k s) ≡ 0)
    → length s < suc n
    → length (drop k s) < n
chunk_left k s n big some_read h = omega (arith, length-take k s, length-drop k s)

no_chunk : (s : Bytes) → length (take 65536 s) ≡ 0 → s ≡ []
no_chunk s h = length-eq-zero s (omega (arith, length-take 65536 s))

copy_loop_lem :
    (f : ℕ) (fp : Stream) (out : Bytes) → length (left fp) < f → copy_loop f fp out ≡ out ++ left fp
unfolding copy_loop
copy_loop_lem zero fp out h = absurd (omega arith)
copy_loop_lem (suc f) fp out h =
    let got = got-fread fp 65536 in
    elim (ℕ_discrete (length (take 65536 (left fp))) 0) [
      | yes e ↦ let empty = no_chunk (left fp) e in rw (got, ==_yes e, empty, append-nil out) refl
      | no more ↦
          rw (got, ==_no more)
            (copy_loop_lem f (fread fp 65536).1 (out ++ take 65536 (left fp))
                (rw (left-fread fp 65536) (chunk_left 65536 (left fp) f refl more h))
              ∙ append_assoc out (take 65536 (left fp)) (left (fread fp 65536).1)
              ∙ ap (λ (s : Bytes). out ++ (take 65536 (left fp) ++ s)) (left-fread fp 65536)
              ∙ ap (λ (s : Bytes). out ++ s) (take-append-drop 65536 (left fp)))
    ]

-- A copy has the bytes of the file.
pub copied-some : (b : Bytes) → copied (some b) ≡ b
unfolding copied
copied-some b = copy_loop_lem (length b + 1) (open_stream b) [] (omega arith)

hash_loop_lem :
    (f : ℕ) (fp : Stream) (ctx : Sha256Context)
    → length (left fp) < f
    → hash_loop f fp ctx ≡ sha256_update ctx (left fp)
unfolding hash_loop
hash_loop_lem zero fp ctx h = absurd (omega arith)
hash_loop_lem (suc f) fp ctx h =
    let got = got-fread fp 65536 in
    elim (ℕ_discrete (length (take 65536 (left fp))) 0) [
      | yes e ↦
          let empty = no_chunk (left fp) e in
          rw (got, ==_yes e, empty) (sym (sha256_update-nil ctx))
      | no more ↦
          rw (got, ==_no more)
            (hash_loop_lem f (fread fp 65536).1 (sha256_update ctx (take 65536 (left fp)))
                (rw (left-fread fp 65536) (chunk_left 65536 (left fp) f refl more h))
              ∙ sym (sha256_update-append ctx (take 65536 (left fp)) (left (fread fp 65536).1))
              ∙ ap (λ (s : Bytes). sha256_update ctx (take 65536 (left fp) ++ s))
                  (left-fread fp 65536)
              ∙ ap (sha256_update ctx) (take-append-drop 65536 (left fp)))
    ]

-- The digest of a file that is read in chunks is that of its bytes at once.
pub hash_file-some :
    (stack b : Bytes) → hash_file stack (some b) ≡ some (paf_sha256_generic stack b)
unfolding hash_file paf_sha256_generic
hash_file-some stack b =
    ap (λ (c : Sha256Context). some (sha256_final c))
      (hash_loop_lem (length b + 1) (open_stream b) (sha256_init stack) (omega arith))

nothing_more : (n : ℕ) (s : Bytes) → s ++ take n [] ≡ s
nothing_more zero s = append-nil s
nothing_more (suc n) s = append-nil s

-- What a chunk of at most `rem` bytes leaves to copy.
take-rest :
    (rem k : ℕ) (s : Bytes)
    → k ≤ rem
    → take k s ++ take (rem - length (take k s)) (drop k s) ≡ take rem s
take-rest rem k s h = elim (dec_lt (length s) k) [
  | yes short ↦
      rw (drop_all k s (omega arith), take_all k s (omega arith), take_all rem s (omega arith))
        (nothing_more (rem - length s) s)
  | no long ↦
      let size : length (take k s) ≡ k = omega (arith, length-take k s) in
      let sum : k + (rem - k) ≡ rem = omega arith in
      ap (λ (n : ℕ). take k s ++ take (rem - n) (drop k s)) size
      ∙ sym (take_add k (rem - k) s)
      ∙ ap (λ (n : ℕ). take n s) sum
]

enough_left :
    (rem k : ℕ) (s : Bytes)
    → k ≤ rem
    → leb (rem - length (take k s)) (length (drop k s)) ≡ leb rem (length s)
enough_left rem k s h =
    same_test rem k (length s) (length (take k s)) (length (drop k s)) h (length-take k s)
      (length-drop k s)
  where
    same_test : (rem k n g l : ℕ) → k ≤ rem → g ≡ min k n → l ≡ n - k → leb (rem - g) l ≡ leb rem n
    same_test rem k n g l h hg hl = ground arith

one_chunk : (rem : ℕ) (s : Bytes) → ¬ (rem ≡ 0) → length (take (min rem 65536) s) ≡ 0 → s ≡ []
one_chunk rem s some_left h = length-eq-zero s (omega (arith, length-take (min rem 65536) s))

less_left :
    (f rem : ℕ) (s : Bytes)
    → rem < suc f
    → ¬ (length (take (min rem 65536) s) ≡ 0)
    → rem - length (take (min rem 65536) s) < f
less_left f rem s h more = omega (arith, length-take (min rem 65536) s)

not_enough : (rem : ℕ) → ¬ (rem ≡ 0) → leb rem 0 ≡ false
not_enough rem h = ground arith

-- The staging loop copies as many bytes as it is to, or all there are, and says which.
abbrev pub Copies : ℕ → Stream → Bytes → Bool × Bytes × Stream → Type 0
Copies rem fp out r = (r.0 ≡ leb rem (length (left fp))) × (r.1 ≡ out ++ take rem (left fp))

pub stage_loop-Copies :
    (f : ℕ) (fp : Stream) (rem : ℕ) (out : Bytes)
    → rem < f
    → Copies rem fp out (stage_loop f fp rem out)
unfolding stage_loop
stage_loop-Copies zero fp rem out h = absurd (omega arith)
stage_loop-Copies (suc f) fp rem out h =
    let k = min rem 65536 in
    let chunk = take k (left fp) in
    let r = fread fp k in
    let got = got-fread fp k in
    elim (ℕ_discrete rem 0) [
      | yes e ↦
          rw (==_yes e, e) (sym (le→leb 0 (length (left fp)) (omega arith)), sym (append-nil out))
      | no some_left ↦ elim (ℕ_discrete (length chunk) 0) [
        | yes none_read ↦
            let empty = one_chunk rem (left fp) some_left none_read in
            rw (==_no some_left, got, ==_yes none_read, empty)
              (sym (not_enough rem some_left), sym (nothing_more rem out))
        | no more ↦
            let (io_ok, bytes) =
              stage_loop-Copies f r.1 (rem - length chunk) (out ++ chunk)
                (less_left f rem (left fp) h more) in
            rw (==_no some_left, got, ==_no more)
              (
                io_ok
                    ∙ ap (λ (t : Bytes). leb (rem - length chunk) (length t)) (left-fread fp k)
                    ∙ enough_left rem k (left fp) (omega arith),
                bytes
                    ∙ ap (λ (t : Bytes). (out ++ chunk) ++ take (rem - length chunk) t)
                        (left-fread fp k)
                    ∙ append_assoc out chunk (take (rem - length chunk) (drop k (left fp)))
                    ∙ ap (λ (t : Bytes). out ++ t) (take-rest rem k (left fp) (omega arith)),
              )
      ]
    ]
