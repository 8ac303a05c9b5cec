-- ===== src/Patch/Places.antt =====
-- The places of a patch: which paths its items take, and that those of different items are apart, as
-- `paf_patch_apply_atomic` of libpaf/src/libpaf_patch.c needs it.
use paf_archive.Prelude.{
  ◌<◌, ◌≡◌, ◌≢◌, true, List, [], ◌∷◌, ◌++◌, length, All, Any, ◌⊎◌, Bool-cases, inl, inr,
}
use paf_archive.Words.{Bytes}
use paf_archive.Stdio.{NoNul, bytes_eq, bytes_eq→eq, bytes_eq_refl}
use paf_archive.Patch.{joined}
use paf_archive.Patch.Staging.{stage_suffix, usable}
use paf_archive.Create.Layout.{PatchItem}

-- The path of the item can be used below the folder.
pub record IsUsable (dst_dir : Bytes) (t : PatchItem) : Type 0 where
  pub some_path : 0 < length t.path
  pub short : length t.path < 1024
  pub clean : NoNul t.path
  pub safe : usable dst_dir t.path ≡ true

abbrev pub target : Bytes → PatchItem → Bytes
target dst_dir t = joined dst_dir t.path

-- The path is the file or the staging file of the item.
abbrev pub IsPlace : Bytes → Bytes → PatchItem → Type 0
IsPlace dst_dir q t = (q ≡ target dst_dir t) ⊎ (q ≡ target dst_dir t ++ stage_suffix)

-- Neither is the other's file or its staging file.
abbrev pub Apart : Bytes → PatchItem → PatchItem → Type 0
Apart dst_dir t u =
    (target dst_dir u ≢ target dst_dir t)
    × (target dst_dir u ≢ target dst_dir t ++ stage_suffix)
    × (target dst_dir t ≢ target dst_dir u ++ stage_suffix)

abbrev pub Separate : Bytes → List PatchItem → Type 0
Separate dst_dir [] = Unit
Separate dst_dir (t ∷ ts) = All (Apart dst_dir t) ts × Separate dst_dir ts

module _ {A : Type 0} (P Q : A → Type 0) where
  pub All-map : ((x : A) → P x → Q x) → (xs : List A) → All P xs → All Q xs
  All-map f [] h = tt
  All-map f (x ∷ xs) (p, h) = (f x p, All-map f xs h)

  pub All-zip :
      {R : A → Type 0}
      → ((x : A) → P x → Q x → R x)
      → (xs : List A) → All P xs
      → All Q xs
      → All R xs
  All-zip f [] h k = tt
  All-zip f (x ∷ xs) (p, h) (q, k) = (f x p q, All-zip f xs h k)

pub bytes_discrete : (s t : Bytes) → (s ≡ t) ⊎ (s ≢ t)
bytes_discrete s t = elim (Bool-cases (bytes_eq s t)) [
  | inl e ↦ inl (bytes_eq→eq s t e)
  | inr ne ↦
      inr (λ (same : s ≡ t). let e : bytes_eq s t ≡ true = rw same (bytes_eq_refl t) in absurd (cc))
]

pub IsPlace-or_not :
    (dst_dir q : Bytes) (ts : List PatchItem)
    → Any (IsPlace dst_dir q) ts
      ⊎ All (λ (t : PatchItem). (q ≢ target dst_dir t) × (q ≢ target dst_dir t ++ stage_suffix)) ts
IsPlace-or_not dst_dir q [] = inr tt
IsPlace-or_not dst_dir q (t ∷ ts) = elim (bytes_discrete q (target dst_dir t)) [
  | inl e ↦ inl (inl (inl e))
  | inr n ↦ elim (bytes_discrete q (target dst_dir t ++ stage_suffix)) [
    | inl e ↦ inl (inl (inr e))
    | inr k ↦ elim (IsPlace-or_not dst_dir q ts) [
      | inl place ↦ inl (inr place)
      | inr rest ↦ inr ((n, k), rest)
    ]
  ]
]
