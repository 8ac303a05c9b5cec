-- ===== src/Listing/Exists.antt =====
-- libpaf/src/libpaf_exists.c on an archive that the generator wrote.
use paf_archive.Prelude.{
  ℕ, suc, ◌+◌, ◌≡◌, ◌↔◌, refl, ap, ◌∙◌, arith, Bool, true, false, List, [], ◌∷◌, ◌++◌, length, Any,
  some, ◌⊎◌, inl, inr, drop, ◌||◌, ==_no,
}
use paf_archive.Words.{Bytes}
use paf_archive.Stdio.{Machine, Files, bytes_eq, bytes_eq→eq, bytes_eq_refl, starts_with}
use paf_archive.Generator.{InputFile}
use paf_archive.Generator.Spec.{archive, Fits, stored}
use paf_archive.Listing.{
  has_path, has_folder, exists_in, file_exists_in_archive, folder_exists_in_archive, slash_at,
  is_under,
}
use paf_archive.Listing.Archive.{listing_from, CleanPaths, paf_list_binary-archive}

bytes_eq_iff : (s t : Bytes) → (bytes_eq s t ≡ true) ↔ (s ≡ t)
bytes_eq_iff s t = (bytes_eq→eq s t, λ e. rw e (bytes_eq_refl t))

or_iff {ℓ κ} :
    {P : Type ℓ} {Q : Type κ} (a b : Bool)
    → (a ≡ true) ↔ P
    → (b ≡ true) ↔ Q
    → ((a || b) ≡ true) ↔ (P ⊎ Q)
or_iff true b p q = (λ _. inl (p.0 refl), λ _. refl)
or_iff false b p q =
    (λ h. inr (q.0 h), λ s. elim s [ inl x ↦ absurd (let e = p.1 x in cc) | inr y ↦ q.1 y ])

has_path-listing :
    (path : Bytes) (io : Bool) (d : ℕ) (fs : List InputFile)
    → (has_path path (listing_from io d fs) ≡ true) ↔ Any (λ f. InputFile.path f ≡ path) fs
unfolding has_path
has_path-listing path io d [] = (λ h. absurd (cc), λ a. elim a [ ])
has_path-listing path io d (f ∷ fs) =
    or_iff (bytes_eq f.path path) _ (bytes_eq_iff f.path path)
      (has_path-listing path io (d + length (stored io (f ∷ []))) fs)

starts_with-append : (dir rest : Bytes) → starts_with dir (dir ++ rest) ≡ true
starts_with-append [] rest = refl
starts_with-append (c ∷ dir) rest = ground (arith, starts_with-append dir rest)

starts_with→append :
    (dir path : Bytes) → starts_with dir path ≡ true → path ≡ dir ++ drop (length dir) path
starts_with→append [] path h = refl
starts_with→append (c ∷ dir) [] h = absurd (cc)
starts_with→append (c ∷ dir) (d ∷ path) h = ground (arith, starts_with→append dir path)

drop-length-append : (dir rest : Bytes) → drop (length dir) (dir ++ rest) ≡ rest
drop-length-append [] rest = refl
drop-length-append (c ∷ dir) rest = drop-length-append dir rest

-- The path names something in the folder.
abbrev pub IsUnder : Bytes → Bytes → Type 0
IsUnder dir path = (rest : Bytes) × (path ≡ dir ++ b'/' ∷ rest)

slash_at_inv : (t : Bytes) → slash_at t ≡ true → (rest : Bytes) × (t ≡ b'/' ∷ rest)
slash_at_inv [] h = absurd (cc)
slash_at_inv (c ∷ rest) h = (rest, ap (λ (x : ℕ). x ∷ rest) (ground arith))

is_under_iff : (dir path : Bytes) → (is_under dir path ≡ true) ↔ IsUnder dir path
is_under_iff dir path = (to, from)
  where
    to : is_under dir path ≡ true → IsUnder dir path
    to h =
        let both : (starts_with dir path ≡ true) × (slash_at (drop (length dir) path) ≡ true) =
          ground arith in
        let (rest, e) = slash_at_inv (drop (length dir) path) both.1 in
        (rest, starts_with→append dir path both.0 ∙ ap (λ (t : Bytes). dir ++ t) e)

    from : IsUnder dir path → is_under dir path ≡ true
    from (rest, e) =
        rw (e, starts_with-append dir (b'/' ∷ rest), drop-length-append dir (b'/' ∷ rest))

has_folder-listing :
    (dir : Bytes) (io : Bool) (d : ℕ) (fs : List InputFile)
    → (has_folder dir (listing_from io d fs) ≡ true) ↔ Any (λ f. IsUnder dir (InputFile.path f)) fs
unfolding has_folder
has_folder-listing dir io d [] = (λ h. absurd (cc), λ a. elim a [ ])
has_folder-listing dir io d (f ∷ fs) =
    or_iff (is_under dir f.path) _ (is_under_iff dir f.path)
      (has_folder-listing dir io (d + length (stored io (f ∷ []))) fs)

module _ (m : Machine) (io : Bool) (fs : List InputFile) (fits : Fits fs) (files : Files)
    (paf_path : Bytes) (memory : (n : ℕ) → m.malloc n ≡ true)
    (there : files paf_path ≡ some (archive io fs)) (clean : CleanPaths fs) where
  -- With memory, on the archive of files that fit it and whose paths have no NUL, a file is reported
  -- exactly if it was added under that path.
  pub file_exists-archive :
      (path : Bytes)
      → (file_exists_in_archive m files paf_path path ≡ true)
        ↔ Any (λ f. InputFile.path f ≡ path) fs
  unfolding file_exists_in_archive exists_in
  file_exists-archive path =
      rw (paf_list_binary-archive m io fs fits files paf_path memory there clean)
        (has_path-listing path io 0 fs)

  -- With memory, on the archive of files that fit it and whose paths have no NUL, a folder with a
  -- name that is not empty is reported exactly if some path goes on behind its name with a slash.
  pub folder_exists-archive :
      (c : ℕ) (dir : Bytes)
      → (folder_exists_in_archive m files paf_path (c ∷ dir) ≡ true)
        ↔ Any (λ f. IsUnder (c ∷ dir) (InputFile.path f)) fs
  unfolding folder_exists_in_archive exists_in
  folder_exists-archive c dir =
      rw
        (
          ==_no (let p : ¬ (suc (length dir) ≡ 0) = omega arith in p),
          paf_list_binary-archive m io fs fits files paf_path memory there clean,
        )
        (has_folder-listing (c ∷ dir) io 0 fs)
