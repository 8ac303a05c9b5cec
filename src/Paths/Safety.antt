-- ===== src/Paths/Safety.antt =====
-- What the checks of a path keep out: a path that leaves the directory into which it is extracted.
use paf_archive.Prelude.{
  ℕ, ◌<◌, ◌≤◌, length, ==_yes, ◌==◌, ◌≡◌, refl, arith, true, false, [], ◌∷◌, ◌++◌,
}
use paf_archive.Words.{Bytes}
use paf_archive.Paths.{
  dot, contains, dot_dot, is_absolute, paf_is_path_safe, paf_is_safe_path, segment_ends,
}

-- A segment `..` behind `a` and before `b`: it ends the path, or a separator follows it.
abbrev pub HasUp : Bytes → Type 0
HasUp path = (a : Bytes) × (b : Bytes) × (path ≡ a ++ dot ∷ dot ∷ b) × (segment_ends b ≡ true)

-- Behind a directory and a slash the path has no empty first segment and never goes up.
pub record StaysBelow (path : Bytes) : Type 0 where
  pub no_root : is_absolute path ≡ false
  pub no_up : ¬ HasUp path

-- Two dots that stand anywhere are found.
contains-dot_dot : (a b : Bytes) → contains dot_dot (a ++ dot ∷ dot ∷ b) ≡ true
unfolding contains
contains-dot_dot [] b = refl
contains-dot_dot (x ∷ a) b = ground (arith, contains-dot_dot a b)

pub contains→not-HasUp : (path : Bytes) → contains dot_dot path ≡ false → ¬ HasUp path
contains→not-HasUp path h (a, b, e, _) =
    let found : contains dot_dot path ≡ true = rw e (contains-dot_dot a b) in cc

-- A byte that stands anywhere is found.
contains-byte : (x : ℕ) (a b : Bytes) → contains (x ∷ []) (a ++ x ∷ b) ≡ true
unfolding contains
contains-byte x [] b = let e : (x == x) ≡ true = ==_yes refl in rw e refl
contains-byte x (y ∷ a) b = ground (arith, contains-byte x a b)

-- The byte stands somewhere in the path.
abbrev pub HasByte : ℕ → Bytes → Type 0
HasByte x path = (a : Bytes) × (b : Bytes) × (path ≡ a ++ x ∷ b)

contains→not-HasByte : (x : ℕ) (path : Bytes) → contains (x ∷ []) path ≡ false → ¬ HasByte x path
contains→not-HasByte x path h (a, b, e) =
    let found : contains (x ∷ []) path ≡ true = rw e (contains-byte x a b) in cc

-- A path that `paf_is_path_safe`, the check of the parallel extraction, accepts does not begin with a
-- separator and has no `..` segment; it is neither empty nor longer than 1023 bytes and has no colon.
pub paf_is_path_safe-StaysBelow :
    (path : Bytes)
    → paf_is_path_safe path ≡ true
    → StaysBelow path × (0 < length path) × (length path ≤ 1023) × ¬ HasByte b':' path
unfolding paf_is_path_safe
paf_is_path_safe-StaysBelow [] h = ground arith
paf_is_path_safe-StaysBelow (c ∷ s) h = (
  record { no_root = ground arith; no_up = contains→not-HasUp (c ∷ s) (ground arith) },
  omega arith,
  ground arith,
  contains→not-HasByte b':' (c ∷ s) (ground arith),
)

pub paf_is_safe_path-StaysBelow : (path : Bytes) → paf_is_safe_path path ≡ true → StaysBelow path
unfolding paf_is_safe_path
paf_is_safe_path-StaysBelow [] h = ground arith
paf_is_safe_path-StaysBelow (c ∷ s) h = record {
  no_root = ground arith;
  no_up = contains→not-HasUp (c ∷ s) (ground arith);
}
