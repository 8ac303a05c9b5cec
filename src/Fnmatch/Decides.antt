-- ===== src/Fnmatch/Decides.antt =====
-- The loop of libpaf/src/fnmatch.c stops and decides `Glob`.
use paf_archive.Prelude.{
  ℕ, zero, suc, ◌+◌, ◌*◌, ◌≤◌, ◌<◌, ◌≡◌, ◌≢◌, refl, arith, Bool, true, false, [], ◌∷◌, length,
  ==_yes, ==_no, Option, none, some,
}
use native.Mathlib.Decide.{ℕ_discrete}
use paf_archive.Words.{Bytes}
use paf_archive.Fnmatch.{asterisk, Saved, Round, only_stars, go_back, at_star, match_loop, fnmatch}
use paf_archive.Fnmatch.Glob.{
  Glob, same, leave, cover, AfterStar, same_inv, not-Glob-nil, AfterStar-nil, must_cover,
  AfterStar-star, AfterStar-same, AfterStar-end, only_stars_iff,
}

-- An answer came back, and it is the right one about `G`.
abbrev pub Answers : Type 0 → Option Bool → Type 0
Answers G none = ⊥
Answers G (some true) = G
Answers G (some false) = ¬ G

-- `G` is the question of the call, and every pattern that is met is shorter than `k`.
module _ (G : Type 0) (k : ℕ) where
  -- With no star behind, the rest of the strings is the whole question. With one, trying the star
  -- at `ss` is the same as going on from here, and `G` asks whether some place from `ss` on fits.
  abbrev Behind : ℕ → Bytes → Bytes → Saved → Type 0
  Behind m p s none = G → Glob p s
  Behind m p s (some (sp, ss)) =
      (G → AfterStar sp ss)
      × (AfterStar sp ss → G)
      × (Glob sp ss → Glob p s)
      × (length s ≤ length ss)
      × (length ss ≤ m)
      × (length sp < k)

  record Holds (f m : ℕ) (p s : Bytes) (saved : Saved) : Type 0 where
    sound : Glob p s → G
    slack : G → AfterStar p s
    behind : Behind m p s saved
    text : length s ≤ m
    short : length p < k
    fuel : m * k + length p < f

  abbrev NextAnswers : ℕ → Round → Type 0
  NextAnswers f next =
      (m : ℕ) (p s : Bytes) (saved : Saved) → Holds f m p s saved → Answers G (next p s saved)

  -- A star that is tried from `s` on.
  Holds-from :
      {f m : ℕ} {p s : Bytes}
      → (G → AfterStar p s)
      → (AfterStar p s → G)
      → length s ≤ m
      → length p < k
      → m * k + length p < f
      → Holds f m p s (some (p, s))
  Holds-from to from text short fuel = record {
    sound = λ g. from (leave refl g);
    slack = to;
    behind = (to, from, λ g. g, omega arith, text, short);
    text = text;
    short = short;
    fuel = fuel;
  }

  go_back-Answers :
      {f : ℕ} {p : Bytes} {d : ℕ} {s : Bytes} (m : ℕ) (saved : Saved) (next : Round)
      → NextAnswers f next
      → Holds (suc f) m p (d ∷ s) saved
      → ¬ Glob p (d ∷ s)
      → Answers G (go_back next saved)
  unfolding go_back
  go_back-Answers m none next ih i miss = λ g. miss (i.behind g)
  go_back-Answers m (some (sp, [])) next ih i miss = absurd (omega arith)
  go_back-Answers zero (some (sp, x ∷ ss)) next ih i miss = absurd (omega arith)
  go_back-Answers (suc m) (some (sp, x ∷ ss)) next ih i miss =
      let (to, from, down, _, _, _) = i.behind in
      ih m sp ss (some (sp, ss)) (
        Holds-from (λ g. must_cover (to g) (λ h. miss (down h))) (λ h. from (cover refl h))
          (omega arith) (omega arith) (omega arith))

  at_star-Answers :
      {f m c d : ℕ} {s : Bytes} {saved : Saved} (p : Bytes) (next : Round)
      → NextAnswers f next
      → Holds (suc f) m (c ∷ p) (d ∷ s) saved
      → c ≡ asterisk
      → Answers G (at_star next p (d ∷ s))
  unfolding at_star
  at_star-Answers {d} {s} [] next ih i e = i.sound (rw e (AfterStar-end (d ∷ s)))
  at_star-Answers {m} {d} {s} (c ∷ p) next ih i e = ih m (c ∷ p) (d ∷ s) (some (c ∷ p, d ∷ s)) (
      Holds-from (λ g. AfterStar-star e (i.slack g)) (λ h. i.sound (rw e h)) i.text (omega arith)
        (omega arith))

  Behind-same :
      (m c d : ℕ) (p s : Bytes) (saved : Saved)
      → c ≢ asterisk
      → Behind m (c ∷ p) (d ∷ s) saved
      → Behind m p s saved
  Behind-same m c d p s none n b = λ g. (same_inv n (b g)).1
  Behind-same m c d p s (some (sp, ss)) n (to, from, down, len, room, short) =
      (to, from, λ g. (same_inv n (down g)).1, omega arith, room, short)

  only_stars-Answers :
      {f m : ℕ} {p : Bytes} {saved : Saved} (b : Bool)
      → only_stars p ≡ b
      → Holds f m p [] saved
      → Answers G (some b)
  only_stars-Answers {p} true e i = i.sound ((only_stars_iff p).0 e)
  only_stars-Answers {p} false e i =
      λ g. let all = (only_stars_iff p).1 (AfterStar-nil (i.slack g)) in cc

  match_loop-Answers : (f : ℕ) → NextAnswers f (match_loop f)
  unfolding match_loop
  match_loop-Answers zero m p s saved i = absurd (omega arith)
  match_loop-Answers (suc f) m p [] saved i = only_stars-Answers (only_stars p) refl i
  match_loop-Answers (suc f) m [] (d ∷ s) saved i =
      go_back-Answers m saved (match_loop f) (match_loop-Answers f) i not-Glob-nil
  match_loop-Answers (suc f) m (c ∷ p) (d ∷ s) saved i = elim (ℕ_discrete c asterisk) [
    | yes e ↦ rw (==_yes e) (at_star-Answers p (match_loop f) (match_loop-Answers f) i e)
    | no n ↦ rw (==_no n) (elim (ℕ_discrete c d) [
      | yes e ↦ rw (==_yes e) (
          match_loop-Answers f m p s saved (record {
            sound = λ g. i.sound (same n e g);
            slack = λ g. AfterStar-same s n (i.slack g);
            behind = Behind-same m c d p s saved n i.behind;
            text = omega arith;
            short = omega arith;
            fuel = omega arith;
          }))
      | no differ ↦ rw (==_no differ) (
          go_back-Answers m saved (match_loop f) (match_loop-Answers f) i
            λ g. differ (same_inv n g).0)
    ])
  ]

-- `fnmatch` stops within its fuel, never reads past the end of the string, and answers 0 exactly
-- on the strings that match the pattern.
pub fnmatch-Answers :
    (pattern string : Bytes) → Answers (Glob pattern string) (fnmatch pattern string)
unfolding fnmatch
fnmatch-Answers pattern string =
    match_loop-Answers (Glob pattern string) (length pattern + 1) _ (length string) pattern string
      none
      (record {
        sound = λ g. g;
        slack = leave refl;
        behind = λ g. g;
        text = omega arith;
        short = omega arith;
        fuel = omega arith;
      })
