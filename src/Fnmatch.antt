-- ===== src/Fnmatch.antt =====
-- libpaf/src/fnmatch.c: wildcard matching with `*` alone, by going back to the last star. Strings
-- are lists of bytes up to their NUL, so a pointer into one is the rest of the list.
pub mod Glob
pub mod Decides
use paf_archive.Prelude.{
  ℕ, zero, suc, ◌+◌, ◌*◌, Bool, true, false, List, [], ◌∷◌, length, ◌==◌, if◌then◌else◌, Option,
  none, some,
}
use paf_archive.Words.{Bytes}

-- The byte `*`.
abbrev pub asterisk : ℕ
asterisk = b'*'

-- The pointers `star` and `ss`, where `star` is not NULL.
abbrev pub Saved : Type 0
Saved = Option (Bytes × Bytes)

-- the loop `while (*pattern == '*') pattern++` and the test behind it
unfoldable pub only_stars : Bytes → Bool
only_stars [] = true
only_stars (c ∷ p) = if c == asterisk then only_stars p else false

abbrev pub Round : Type 0
Round = Bytes → Bytes → Saved → Option Bool

-- The branch on `star`. `ss` stands at or before `string`, so it has a byte to give up; the case
-- where it had none would read past the NUL, and has no result.
unfoldable pub go_back : Round → Saved → Option Bool
go_back next none = some false
go_back next (some (star, [])) = none
go_back next (some (star, _ ∷ ss)) = next star ss (some (star, ss))

-- a star at the pattern's head
unfoldable pub at_star : Round → Bytes → Bytes → Option Bool
at_star next [] s = some true
at_star next (c ∷ p) s = next (c ∷ p) s (some (c ∷ p, s))

-- The loop over `string`, on fuel. `some true` is the return value 0, `some false` FNM_NOMATCH.
unfoldable pub match_loop : ℕ → Round
match_loop zero p s saved = none
match_loop (suc f) p [] saved = some (only_stars p)
match_loop (suc f) [] (d ∷ s) saved = go_back (match_loop f) saved
match_loop (suc f) (c ∷ p) (d ∷ s) saved =
    let star = at_star (match_loop f) p (d ∷ s) in
    let step = match_loop f p s saved in
    let back = go_back (match_loop f) saved in
    if c == asterisk then star else if c == d then step else back

unfoldable pub fnmatch : Bytes → Bytes → Option Bool
unfolding match_loop at_star go_back only_stars
fnmatch pattern string = match_loop ((length string + 1) * (length pattern + 1)) pattern string none
