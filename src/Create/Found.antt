-- ===== src/Create/Found.antt =====
-- The files that the walk of `collect_files_binary` in libpaf/src/libpaf_core.c keeps, by the tests of
-- `match_ignore`, are the files that it is to find.
use paf_archive.Prelude.{
  ◌≡◌, ◌≢◌, refl, Bool, true, false, List, [], ◌∷◌, ◌++◌, Any, ◌||◌, ◌⊎◌, ◌↔◌, inl, inr,
  if◌then◌else◌,
}
use paf_archive.Words.{Bytes, u32}
use paf_archive.Fnmatch.Glob.{Glob}
use paf_archive.Create.{FileEntry, match_ignore}
use paf_archive.Create.Ignore.{match_ignore-Glob}
use paf_archive.Create.Tree.{Tree, end, file, folder, other, path_below, Ignored, Keeps, IsFound}

-- The files that are left by the tests.
unfoldable pub kept_files : Bool → Bytes → List Bytes → List Bytes → Tree → List FileEntry
kept_files rec rel own given end = []
kept_files rec rel own given (file name size rest) =
    (if match_ignore name own || match_ignore name given
      then []
      else record { path = path_below rel name; size = u32 size; offset = 0 } ∷ [])
    ++ kept_files rec rel own given rest
kept_files rec rel own given (folder name rules sub rest) =
    let below = kept_files rec (path_below rel name) rules (if rec then own else given) sub in
    (if match_ignore name own || match_ignore name given then [] else below)
    ++ kept_files rec rel own given rest
kept_files rec rel own given (other name rest) = kept_files rec rel own given rest

either-Ignored :
    (b c : Bool) (B C : Type 0)
    → (b ≡ true) ↔ B
    → (c ≡ true) ↔ C
    → (((b || c) ≡ true) × (B ⊎ C)) ⊎ (((b || c) ≡ false) × ¬ (B ⊎ C))
either-Ignored true c B C h k = inl (refl, inl (h.0 refl))
either-Ignored false true B C h k = inl (refl, inr (k.0 refl))
either-Ignored false false B C h k = inr (
  refl,
  λ x. elim x [ inl p ↦ absurd (false-true (h.1 p)) | inr p ↦ absurd (false-true (k.1 p)) ],
)
  where
    false-true : false ≢ true
    false-true e = cc

-- The tests decide whether a rule matches.
Keeps-match_ignore :
    (own given : List Bytes) (name : Bytes) (P : List FileEntry → Type 0) (es : List FileEntry)
    → P es
    → Keeps
        (Ignored own given name)
        P
        (if match_ignore name own || match_ignore name given then [] else es)
Keeps-match_ignore own given name P es p =
    elim (either-Ignored (match_ignore name own) (match_ignore name given)
      (Any (λ (rule : Bytes). Glob rule name) own) (Any (λ (rule : Bytes). Glob rule name) given)
      (match_ignore-Glob name own) (match_ignore-Glob name given)) [
        | inl (e, hit) ↦ inl (hit, rw e refl)
        | inr (e, miss) ↦ inr (miss, rw e p)
      ]

pub kept_files-IsFound :
    (rec : Bool) (rel : Bytes) (own given : List Bytes) (tree : Tree)
    → IsFound rec rel own given tree (kept_files rec rel own given tree)
unfolding kept_files
kept_files-IsFound rec rel own given end = refl
kept_files-IsFound rec rel own given (file name size rest) =
    let e : FileEntry = record { path = path_below rel name; size = u32 size; offset = 0 } in
    (
      _,
      _,
      refl,
      Keeps-match_ignore own given name (λ (es : List FileEntry). es ≡ e ∷ []) (e ∷ []) refl,
      kept_files-IsFound rec rel own given rest,
    )
kept_files-IsFound rec rel own given (folder name rules sub rest) =
    let handed = if rec then own else given in
    (
      _,
      _,
      refl,
      Keeps-match_ignore own given name (IsFound rec (path_below rel name) rules handed sub) _
          (kept_files-IsFound rec (path_below rel name) rules handed sub),
      kept_files-IsFound rec rel own given rest,
    )
kept_files-IsFound rec rel own given (other name rest) = kept_files-IsFound rec rel own given rest
