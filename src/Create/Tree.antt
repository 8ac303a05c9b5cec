-- ===== src/Create/Tree.antt =====
-- The tree of directories that the walk of `collect_files_binary` in libpaf/src/libpaf_core.c goes
-- through, the system calls that show it, and the files that the walk is to find in it.
use Prim.Native.Nat.{max}
use paf_archive.Prelude.{
  ℕ, suc, ◌≡◌, ◌<◌, ◌≢◌, ◌%◌, ◌^◌, Bool, true, false, not, ◌==◌, List, [], ◌∷◌, ◌++◌, All, Any,
  length, take, none, some, ◌||◌, ◌⊎◌, if◌then◌else◌,
}
use paf_archive.Words.{Bytes}
use paf_archive.Stdio.{NoNul, bytes_eq}
use paf_archive.Fnmatch.Glob.{Glob}
use paf_archive.Create.{Folders, directory, regular, special, FileEntry}

-- What a directory holds, in the order of `readdir`. A folder comes with the rules of its own ignore
-- file.
pub data Tree : Type 0 where
  end : Tree
  file : Bytes → ℕ → Tree → Tree
  folder : Bytes → List Bytes → Tree → Tree → Tree
  other : Bytes → Tree → Tree

-- How deep its folders go.
unfoldable pub height : Tree → ℕ
height end = 0
height (file name size rest) = height rest
height (folder name rules sub rest) = max (suc (height sub)) (height rest)
height (other name rest) = height rest

unfoldable pub names_of : Tree → List Bytes
names_of end = []
names_of (file name size rest) = name ∷ names_of rest
names_of (folder name rules sub rest) = name ∷ names_of rest
names_of (other name rest) = name ∷ names_of rest

-- `.` and `..`
abbrev pub is_self_or_parent : Bytes → Bool
is_self_or_parent name = bytes_eq name (b'.' ∷ []) || bytes_eq name (b'.' ∷ b'.' ∷ [])

-- The names but `.` and `..`.
unfoldable pub without_dots : List Bytes → List Bytes
without_dots [] = []
without_dots (name ∷ names) =
    if is_self_or_parent name then without_dots names else name ∷ without_dots names

-- The path of a name below the start, where `rel` is that of its directory; paths are cut to 1023
-- bytes.
unfoldable pub path_below : Bytes → Bytes → Bytes
path_below [] name = take 1023 name
path_below (c ∷ rel) name = take 1023 ((c ∷ rel) ++ b'/' ∷ name)

-- Where a path below the start is.
abbrev pub place : Bytes → Bytes → Bytes
place base path = take 1023 (base ++ b'/' ∷ path)

-- Where the directory is; the start is looked for as its own `.`.
unfoldable pub directory_at : Bytes → Bytes → Bytes
directory_at base [] = place base (b'.' ∷ [])
directory_at base (c ∷ rel) = place base (c ∷ rel)

-- A line that `fgets` reads at once.
abbrev pub IsLine : Bytes → Type 0
IsLine line = NoNul line × All (λ (c : ℕ). c ≢ b'\n') line × (length line < 511)

-- The text of an ignore file with these lines.
unfoldable pub lines_text : List Bytes → Bytes
lines_text [] = []
lines_text (line ∷ lines) = line ++ b'\n' ∷ lines_text lines

-- An empty line and a comment are no rules.
unfoldable pub is_rule : Bytes → Bool
is_rule [] = false
is_rule (c ∷ line) = not (c == b'#')

unfoldable pub rules_among : List Bytes → List Bytes
rules_among [] = []
rules_among (line ∷ lines) =
    let rest = rules_among lines in if is_rule line then line ∷ rest else rest

-- The rules are those of the ignore file of the directory, if each directory has rules.
abbrev pub HasRules : Folders → Bool → Bytes → List Bytes → Type 0
HasRules fs false dir rules = rules ≡ []
HasRules fs true dir rules =
    let path =
      dir ++ b'/' ∷ b'.' ∷ b'p' ∷ b'a' ∷ b'f' ∷ b'i' ∷ b'g' ∷ b'n' ∷ b'o' ∷ b'r' ∷ b'e' ∷ [] in
    ((fs.files path ≡ none) × (rules ≡ []))
    ⊎ ((lines : List Bytes) × All IsLine lines
        × (fs.files path ≡ some (lines_text lines))
        × (rules ≡ rules_among lines))

-- `opendir` gives the names of the tree, and the ignore file the rules.
abbrev pub Opens : Folders → Bool → Bytes → Bytes → List Bytes → Tree → Type 0
Opens fs rec base rel rules tree =
    HasRules fs rec (directory_at base rel) rules
    × ((names : List Bytes) × (fs.opendir (directory_at base rel) ≡ some names)
        × (without_dots names ≡ names_of tree))

-- The system calls show this tree below `base`/`rel`.
abbrev pub Shows : Folders → Bool → Bytes → Bytes → Tree → Type 0
Shows fs rec base rel end = Unit
Shows fs rec base rel (file name size rest) =
    (is_self_or_parent name ≡ false)
    × (fs.stat (place base (path_below rel name)) ≡ some (regular size))
    × Shows fs rec base rel rest
Shows fs rec base rel (folder name rules sub rest) =
    (is_self_or_parent name ≡ false)
    × (fs.stat (place base (path_below rel name)) ≡ some directory)
    × Opens fs rec base (path_below rel name) rules sub
    × Shows fs rec base (path_below rel name) sub
    × Shows fs rec base rel rest
Shows fs rec base rel (other name rest) =
    (is_self_or_parent name ≡ false)
    × (fs.stat (place base (path_below rel name)) ≡ some special)
    × Shows fs rec base rel rest

-- Some rule of the directory, or one that was handed down to it, matches the name.
abbrev pub Ignored : List Bytes → List Bytes → Bytes → Type 0
Ignored own given name =
    Any (λ (rule : Bytes). Glob rule name) own ⊎ Any (λ (rule : Bytes). Glob rule name) given

-- An ignored name has no files, and another those of `P`.
abbrev pub Keeps : Type 0 → (List FileEntry → Type 0) → List FileEntry → Type 0
Keeps ignored P files = (ignored × (files ≡ [])) ⊎ ((¬ ignored) × P files)

-- These are the files of the tree, depth first, less what the rules ignore. A folder gets the rules
-- of its parent if each directory has rules, and otherwise those that its parent got.
abbrev pub IsFound : Bool → Bytes → List Bytes → List Bytes → Tree → List FileEntry → Type 0
IsFound rec rel own given end files = files ≡ []
IsFound rec rel own given (file name size rest) files =
    (here : List FileEntry) × (more : List FileEntry) × (files ≡ here ++ more)
    × Keeps (Ignored own given name)
        (λ (es : List FileEntry).
          es ≡ record { path = path_below rel name; size = size % 2 ^ 32; offset = 0 } ∷ [])
        here
    × IsFound rec rel own given rest more
IsFound rec rel own given (folder name rules sub rest) files =
    (here : List FileEntry) × (more : List FileEntry) × (files ≡ here ++ more)
    × Keeps (Ignored own given name)
        (IsFound rec (path_below rel name) rules (if rec then own else given) sub) here
    × IsFound rec rel own given rest more
IsFound rec rel own given (other name rest) files = IsFound rec rel own given rest files
