-- ===== src/Create/Ignore.antt =====
-- The ignore rules of libpaf/src/libpaf_core.c: what `match_ignore` says of a name.
use paf_archive.Prelude.{
  ◌≡◌, refl, sym, ◌∙◌, Bool, true, false, List, [], ◌∷◌, Any, Option, none, some, ◌||◌, ◌↔◌, inl,
  inr, Bool-cases,
}
use paf_archive.Words.{Bytes}
use paf_archive.Fnmatch.{fnmatch}
use paf_archive.Fnmatch.Glob.{Glob}
use paf_archive.Fnmatch.Decides.{Answers, fnmatch-Answers}
use paf_archive.Create.{matched, match_ignore}

matched-Answers : (G : Type 0) (r : Option Bool) → Answers G r → (matched r ≡ true) ↔ G
unfolding matched
matched-Answers G none h = absurd h
matched-Answers G (some true) g = (λ e. g, λ g'. refl)
matched-Answers G (some false) n = (λ e. absurd (cc), λ g. absurd (n g))

matched-Glob : (p name : Bytes) → (matched (fnmatch p name) ≡ true) ↔ Glob p name
matched-Glob p name = matched-Answers (Glob p name) (fnmatch p name) (fnmatch-Answers p name)

-- A name is ignored exactly when it matches the pattern of some rule, a star of the pattern standing
-- for any run of bytes; the search ends on every pattern.
pub match_ignore-Glob :
    (name : Bytes) (rules : List Bytes)
    → (match_ignore name rules ≡ true) ↔ Any (λ (p : Bytes). Glob p name) rules
unfolding match_ignore
match_ignore-Glob name [] = (λ e. absurd (cc), λ a. elim a [ ])
match_ignore-Glob name (p ∷ ps) =
    let one = matched-Glob p name in
    let others = match_ignore-Glob name ps in
    (
      λ e. elim (Bool-cases (matched (fnmatch p name))) [
        | inl hit ↦ inl (one.0 hit)
        | inr miss ↦ inr (others.0 (sym (or_false _ _ miss) ∙ e))
      ],
      λ a. elim a [ inl g ↦ or_left _ _ (one.1 g) | inr more ↦ or_right _ _ (others.1 more) ],
    )
  where
    or_false : (a b : Bool) → a ≡ false → a || b ≡ b
    or_false a b e = rw e refl

    or_left : (a b : Bool) → a ≡ true → a || b ≡ true
    or_left a b e = rw e refl

    or_right : (a b : Bool) → b ≡ true → a || b ≡ true
    or_right true b e = refl
    or_right false b e = e
