-- ===== src/Paths.antt =====
-- The three checks of a path from an archive: `paf_is_path_safe` of libpaf/src/libpaf_core.c,
-- `paf_is_safe_path` of libpaf_patch.c and `is_safe_path` of paf_extractor.c (with the same text in
-- paf_extractor_gpu.c). Also the directories that an extraction makes.
pub mod Safety
use paf_archive.Prelude.{
  ℕ, Bool, true, false, List, [], ◌∷◌, ◌++◌, length, leb, ◌==◌, ◌&&◌, ◌||◌, not, if◌then◌else◌,
}
use paf_archive.Words.{Bytes}
use paf_archive.Stdio.{starts_with}

abbrev pub slash : ℕ
slash = b'/'

abbrev pub backslash : ℕ
backslash = 92

abbrev pub dot : ℕ
dot = b'.'

abbrev pub is_separator : ℕ → Bool
is_separator c = c == slash || c == backslash

-- `strstr(s, pattern) != NULL`
unfoldable pub contains : Bytes → Bytes → Bool
contains pattern [] = starts_with pattern []
contains pattern (c ∷ s) = starts_with pattern (c ∷ s) || contains pattern s

abbrev pub dot_dot : Bytes
dot_dot = dot ∷ dot ∷ []

-- The first byte is a separator.
abbrev pub is_absolute : Bytes → Bool
is_absolute [] = false
is_absolute (c ∷ s) = is_separator c

-- `paf_is_path_safe`
unfoldable pub paf_is_path_safe : Bytes → Bool
paf_is_path_safe [] = false
paf_is_path_safe (c ∷ s) =
    let path = c ∷ s in
    if leb 1024 (length path)
    then false
    else if is_absolute path
    then false
    else if contains dot_dot path
    then false
    else if contains (b':' ∷ []) path
    then false
    else true

-- `paf_is_safe_path`
unfoldable pub paf_is_safe_path : Bytes → Bool
paf_is_safe_path [] = false
paf_is_safe_path (c ∷ s) =
    if is_absolute (c ∷ s) then false else if contains dot_dot (c ∷ s) then false else true

-- `p[2] == '/' || p[2] == '\\' || p[2] == '\0'`
abbrev pub segment_ends : Bytes → Bool
segment_ends [] = true
segment_ends (c ∷ s) = is_separator c

-- `p[0] == '.' && p[1] == '.'` and the test of `p[2]`
abbrev pub dot_dot_here : Bytes → Bool
dot_dot_here (a ∷ b ∷ s) = (a == dot && b == dot) && segment_ends s
dot_dot_here _ = false

-- the loop of `is_safe_path`
unfoldable pub no_dot_dot_segment : Bytes → Bool
no_dot_dot_segment [] = true
no_dot_dot_segment (c ∷ s) = if dot_dot_here (c ∷ s) then false else no_dot_dot_segment s

unfoldable pub is_safe_path : Bytes → Bool
is_safe_path path = if is_absolute path then false else no_dot_dot_segment path

-- The directories that `ensure_directory` and `make_parent_dirs` make, in order: what stands before
-- each separator but the first byte. A backslash in the name has become a slash by then.
unfoldable pub directories_from : Bytes → Bytes → List Bytes
directories_from done [] = []
directories_from done (c ∷ s) =
    if is_separator c
    then done ∷ directories_from (done ++ slash ∷ []) s
    else directories_from (done ++ c ∷ []) s

unfoldable pub ensure_directory : Bytes → List Bytes
unfolding directories_from
ensure_directory [] = []
ensure_directory (c ∷ s) = directories_from (c ∷ []) s
