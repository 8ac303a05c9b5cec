-- ===== src/Fnmatch/Glob.antt =====
-- What it means for a string to match a pattern, with no order of search in it.
use paf_archive.Prelude.{ℕ, ◌≡◌, ◌≢◌, refl, [], ◌∷◌, true, arith}
use mathlib.Core.Path.{subst}
use paf_archive.Words.{Bytes}
use paf_archive.Fnmatch.{asterisk, only_stars}

-- A star stands for any run of bytes, and every other byte for itself.
pub data Glob : Bytes → Bytes → Type 0 where
  both_end : Glob [] []
  same : {c d : ℕ} {p s : Bytes} → c ≢ asterisk → c ≡ d → Glob p s → Glob (c ∷ p) (d ∷ s)
  leave : {c : ℕ} {p s : Bytes} → c ≡ asterisk → Glob p s → Glob (c ∷ p) s
  cover : {c d : ℕ} {p s : Bytes} → c ≡ asterisk → Glob (c ∷ p) s → Glob (c ∷ p) (d ∷ s)

abbrev pub AfterStar : Bytes → Bytes → Type 0
AfterStar p s = Glob (asterisk ∷ p) s

pub same_inv : {c d : ℕ} {p s : Bytes} → c ≢ asterisk → Glob (c ∷ p) (d ∷ s) → (c ≡ d) × Glob p s
same_inv n (same _ e g) = (e, g)
same_inv n (leave e _) = absurd (n e)
same_inv n (cover e _) = absurd (n e)

pub not-Glob-nil : {d : ℕ} {s : Bytes} → ¬ Glob [] (d ∷ s)
not-Glob-nil g = elim g [ ]

-- At the end of the string a star is empty.
pub AfterStar-nil : {p : Bytes} → AfterStar p [] → Glob p []
AfterStar-nil (leave _ g) = g

-- A star that is not left takes a byte.
pub must_cover : {d : ℕ} {p s : Bytes} → AfterStar p (d ∷ s) → ¬ Glob p (d ∷ s) → AfterStar p s
must_cover (same n _ _) _ = absurd (n refl)
must_cover (leave _ g) n = absurd (n g)
must_cover (cover _ g) n = g

-- Two stars are one.
pub AfterStar-star : {c : ℕ} {p s : Bytes} → c ≡ asterisk → AfterStar (c ∷ p) s → AfterStar p s
AfterStar-star e (same n _ _) = absurd (n refl)
AfterStar-star {p} {s} e (leave _ g) = subst (λ (x : ℕ). Glob (x ∷ p) s) e g
AfterStar-star e (cover _ g) = cover refl (AfterStar-star e g)

not-AfterStar-nil : {c : ℕ} {p : Bytes} → c ≢ asterisk → ¬ AfterStar (c ∷ p) []
not-AfterStar-nil n (leave _ (leave e _)) = n e

-- Why the last star is enough: wherever the next byte matches, the rest stands further on.
pub AfterStar-same :
    {c d : ℕ} {p : Bytes} (s : Bytes) → c ≢ asterisk → AfterStar (c ∷ p) (d ∷ s) → AfterStar p s
AfterStar-same s n (same m _ _) = absurd (m refl)
AfterStar-same s n (leave _ g) = leave refl (same_inv n g).1
AfterStar-same [] n (cover _ g) = absurd (not-AfterStar-nil n g)
AfterStar-same (d ∷ s) n (cover _ g) = cover refl (AfterStar-same s n g)

-- A last star matches whatever is left.
pub AfterStar-end : (s : Bytes) → AfterStar [] s
AfterStar-end [] = leave refl both_end
AfterStar-end (d ∷ s) = cover refl (AfterStar-end s)

only_stars→Glob : (p : Bytes) → only_stars p ≡ true → Glob p []
unfolding only_stars
only_stars→Glob [] h = both_end
only_stars→Glob (c ∷ p) h =
    let both : (c ≡ asterisk) × (only_stars p ≡ true) = ground arith in
    leave both.0 (only_stars→Glob p both.1)

Glob→only_stars : (p : Bytes) → Glob p [] → only_stars p ≡ true
unfolding only_stars
Glob→only_stars [] both_end = refl
Glob→only_stars (c ∷ p) (leave e g) = ground (arith, Glob→only_stars p g)

pub only_stars_iff :
    (p : Bytes) → (only_stars p ≡ true → Glob p []) × (Glob p [] → only_stars p ≡ true)
only_stars_iff p = (only_stars→Glob p, Glob→only_stars p)
