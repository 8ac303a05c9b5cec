-- ===== src/Reader/Entries.antt =====
-- The index entry of a file of an archive, by its number.
use paf_archive.Prelude.{
  ℕ, zero, suc, ◌+◌, ◌≡◌, refl, ap, ap₂, sym, ◌∙◌, arith, false, List, [], ◌∷◌, ◌++◌, length, none,
  some, get_elem?, length-append,
}
use paf_archive.Generator.{InputFile}
use paf_archive.Generator.Spec.{data_bytes, path_bytes, stored, entry_of, entries_from}

-- The file with the number `i`, with the files around it and its entry.
pub record At (p d : ℕ) (fs : List InputFile) (i : ℕ) (f : InputFile) : Type 0 where
  pub before : List InputFile
  pub after : List InputFile
  pub split : before ++ f ∷ after ≡ fs
  pub entry :
      get_elem? (entries_from false p d fs) i
      ≡ some (entry_of (p + length (path_bytes before)) (d + length (data_bytes before)) f)

-- Every file of an archive stands at some place.
pub at_index :
    (p d : ℕ) (fs : List InputFile) (i : ℕ) (f : InputFile)
    → get_elem? fs i ≡ some f
    → At p d fs i f
at_index p d [] i f e = absurd (cc)
at_index p d (g ∷ fs) zero f e =
    let same : g ≡ f = cc in
    let p0 : p ≡ p + 0 = omega arith in
    let d0 : d ≡ d + 0 = omega arith in
    record {
      before = [];
      after = fs;
      split = ap (λ (h : InputFile). h ∷ fs) (sym same);
      entry = λ k. some (entry_of (p0 k) (d0 k) (same k));
    }
at_index p d (g ∷ fs) (suc i) f e =
    let r = at_index (p + length g.path) (d + length (stored false (g ∷ []))) fs i f e in
    record {
      before = g ∷ r.before;
      after = r.after;
      split = ap (λ (hs : List InputFile). g ∷ hs) r.split;
      entry =
          r.entry
          ∙ ap some (
              ap₂ (λ (a b : ℕ). entry_of a b f)
                (omega (arith, length-append g.path (path_bytes r.before)))
                (omega (
                  arith,
                  length-append g.content (data_bytes r.before),
                  length-append g.content [],
                )));
    }

-- Where there is no file there is no entry.
pub none_index :
    (p d : ℕ) (fs : List InputFile) (i : ℕ)
    → get_elem? fs i ≡ none
    → get_elem? (entries_from false p d fs) i ≡ none
none_index p d [] i e = refl
none_index p d (g ∷ fs) zero e = absurd (cc)
none_index p d (g ∷ fs) (suc i) e =
    none_index (p + length g.path) (d + length (stored false (g ∷ []))) fs i e
