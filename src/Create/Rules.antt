-- ===== src/Create/Rules.antt =====
-- What `load_ignore_file` of libpaf/src/libpaf_core.c reads from an ignore file, and the rules that a
-- directory has.
use paf_archive.Prelude.{
  ℕ, zero, suc, ◌≤◌, ◌<◌, ◌≡◌, ◌≢◌, refl, ap, sym, ◌∙◌, arith, Bool, true, false, List, [], ◌∷◌,
  ◌++◌, All, length, length-append, ◌==◌, if◌then◌else◌, Bool-cases, ==_no, inl, inr,
}
use paf_archive.Words.{Bytes}
use paf_archive.Stdio.{NoNul, c_string_lem}
use paf_archive.Create.{Folders, fgets, cut_line, rule_of, read_rules, load_ignore_file, rules_in}
use paf_archive.Create.Tree.{IsLine, lines_text, is_rule, rules_among, HasRules}

-- The byte ends no line.
abbrev Inside : ℕ → Type 0
Inside c = c ≢ b'\n'

fgets-line :
    (n : ℕ) (line rest : Bytes)
    → All Inside line
    → length line < n
    → fgets n (line ++ b'\n' ∷ rest) ≡ (line ++ b'\n' ∷ [], rest)
unfolding fgets
fgets-line zero line rest h short = absurd (omega arith)
fgets-line (suc n) [] rest h short = refl
fgets-line (suc n) (c ∷ line) rest (here, h) short =
    rw (==_no here, fgets-line n line rest h (omega arith)) refl

cut_line-line : (line : Bytes) → All Inside line → cut_line (line ++ b'\n' ∷ []) ≡ line
unfolding cut_line
cut_line-line [] h = refl
cut_line-line (c ∷ line) (here, h) = rw (==_no here, cut_line-line line h) refl

NoNul-line : (line : Bytes) → NoNul line → NoNul (line ++ b'\n' ∷ [])
NoNul-line [] h = (omega arith, tt)
NoNul-line (c ∷ line) (here, h) = (here, NoNul-line line h)

-- One round of the loop takes one line.
read_rules-line :
    (f : ℕ) (line rest : Bytes)
    → IsLine line
    → read_rules (suc f) (line ++ b'\n' ∷ rest) ≡ rule_of line ++ read_rules f rest
unfolding read_rules cut_line
read_rules-line f [] rest h = rw (fgets-line 511 [] rest tt (omega arith)) refl
read_rules-line f (c ∷ line) rest (clean, inside, short) =
    rw
      (
        fgets-line 511 (c ∷ line) rest inside short,
        c_string_lem ((c ∷ line) ++ b'\n' ∷ []) (NoNul-line (c ∷ line) clean),
        cut_line-line (c ∷ line) inside,
      )
      refl

rule_of-is_rule :
    (line : Bytes) (rest : List Bytes)
    → rule_of line ++ rest ≡ (if is_rule line then line ∷ rest else rest)
unfolding rule_of is_rule
rule_of-is_rule [] rest = refl
rule_of-is_rule (c ∷ line) rest = elim (Bool-cases (c == b'#')) [
  | inl e ↦ rw e refl
  | inr e ↦ rw e refl
]

read_rules-lines :
    (f : ℕ) (lines : List Bytes)
    → All IsLine lines
    → length (lines_text lines) ≤ f
    → read_rules f (lines_text lines) ≡ rules_among lines
unfolding lines_text rules_among read_rules
read_rules-lines zero [] h fuel = refl
read_rules-lines (suc f) [] h fuel = refl
read_rules-lines zero (line ∷ lines) h fuel =
    absurd (omega (arith, length-append line (b'\n' ∷ lines_text lines)))
read_rules-lines (suc f) (line ∷ lines) (is_line, h) fuel =
    let left : length (lines_text lines) ≤ f =
      omega (arith, length-append line (b'\n' ∷ lines_text lines)) in
    read_rules-line f line (lines_text lines) is_line
    ∙ rule_of-is_rule line (read_rules f (lines_text lines))
    ∙ ap (λ (rest : List Bytes). if is_rule line then line ∷ rest else rest)
        (read_rules-lines f lines h left)

-- The rules of a directory are what the code reads there.
pub rules_in-HasRules :
    (fs : Folders) (rec : Bool) (dir : Bytes) (rules : List Bytes)
    → HasRules fs rec dir rules
    → rules_in fs rec dir ≡ rules
unfolding rules_in load_ignore_file
rules_in-HasRules fs false dir rules h = sym h
rules_in-HasRules fs true dir rules (inl (missing, empty)) = rw missing (sym empty)
rules_in-HasRules fs true dir rules (inr (lines, are_lines, there, among)) =
    rw there
      (read_rules-lines (length (lines_text lines)) lines are_lines (omega arith) ∙ sym among)
