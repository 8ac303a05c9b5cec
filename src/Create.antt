-- ===== src/Create.antt =====
-- The walk over a directory tree and the making of an archive in libpaf/src/libpaf_core.c
-- (paf_create_binary, paf_create_index_only).
pub mod Archive
pub mod Tree
pub mod Rules
pub mod Found
pub mod Walk
pub mod Ignore
pub mod Patching
pub mod Layout
pub mod Making
use paf_archive.Prelude.{
  ℕ, zero, suc, ◌+◌, ◌*◌, ◌%◌, ◌≡◌, Bool, true, false, List, [], ◌∷◌, ◌++◌, length, take, ltb, leb,
  ◌==◌, ◌||◌, if◌then◌else◌, Option, none, some,
}
use paf_archive.Words.{Bytes, u32}
use paf_archive.Stdio.{Machine, Files, open_stream, bytes_eq, c_string}
use paf_archive.Fnmatch.{fnmatch}
use paf_archive.Paths.{slash, dot}
use paf_archive.Disk.{is_file}
use paf_archive.Generator.{
  PafGenerator, Backend, paf_generator_init, paf_generator_add_file, paf_generator_add_file_stream,
  paf_generator_finalize,
}

-- What `stat` says of a path.
pub data FileKind : Type 0 where
  directory : FileKind
  regular : ℕ → FileKind
  special : FileKind

-- The directories: the names that `readdir` gives in order, and `stat`; and the files.
pub record Folders : Type 0 where
  pub opendir : Bytes → Option (List Bytes)
  pub stat : Bytes → Option FileKind
  pub files : Files

-- `FileEntry`
pub record FileEntry : Type 0 where
  pub path : Bytes
  pub size : ℕ
  pub offset : ℕ

-- `sizeof(FileEntry)`
abbrev pub file_entry_size : ℕ
file_entry_size = 16

-- A line with its end, as `fgets` brings it into a buffer with room for `n` bytes, and the rest.
unfoldable pub fgets : ℕ → Bytes → Bytes × Bytes
fgets zero s = ([], s)
fgets (suc n) [] = ([], [])
fgets (suc n) (c ∷ s) =
    let (line, rest) = fgets n s in if c == b'\n' then (c ∷ [], s) else (c ∷ line, rest)

-- The string up to its first newline.
unfoldable pub cut_line : Bytes → Bytes
cut_line [] = []
cut_line (c ∷ s) = if c == b'\n' then [] else c ∷ cut_line s

-- An empty line and a comment are no rule.
unfoldable pub rule_of : Bytes → List Bytes
rule_of [] = []
rule_of (c ∷ s) = if c == b'#' then [] else (c ∷ s) ∷ []

-- The loop of `load_ignore_file`, on fuel: each round takes a byte.
unfoldable pub read_rules : ℕ → Bytes → List Bytes
read_rules zero s = []
read_rules (suc f) [] = []
read_rules (suc f) (c ∷ s) =
    let (line, rest) = fgets 511 (c ∷ s) in rule_of (cut_line (c_string line)) ++ read_rules f rest

-- A file that cannot be opened leaves the list as it was.
unfoldable pub load_ignore_file : Option Bytes → List Bytes → List Bytes
load_ignore_file none rules = rules
load_ignore_file (some b) rules = read_rules (length b) b

-- `fnmatch(pattern, filename, 0) == 0`; the search always ends.
unfoldable pub matched : Option Bool → Bool
matched none = false
matched (some r) = r

unfoldable pub match_ignore : Bytes → List Bytes → Bool
match_ignore filename [] = false
match_ignore filename (p ∷ ps) = matched (fnmatch p filename) || match_ignore filename ps

abbrev pub ignore_name : Bytes
ignore_name = b'.' ∷ b'p' ∷ b'a' ∷ b'f' ∷ b'i' ∷ b'g' ∷ b'n' ∷ b'o' ∷ b'r' ∷ b'e' ∷ []

-- `snprintf(buf, 1024, "%s/%s", a, b)`, with a cut where it does not fit
abbrev pub path_in : Bytes → Bytes → Bytes
path_in a b = take 1023 (a ++ slash ∷ b)

-- the directory that is opened
unfoldable pub directory_of : Bytes → Bytes → Bytes
directory_of base_dir [] = path_in base_dir (dot ∷ [])
directory_of base_dir (c ∷ rel) = path_in base_dir (c ∷ rel)

unfoldable pub child_of : Bytes → Bytes → Bytes
child_of [] name = take 1023 name
child_of (c ∷ rel) name = path_in (c ∷ rel) name

-- An entry joins the array, which grows by 64 entries at a time.
unfoldable pub add_entry : Machine → FileEntry → List FileEntry → List FileEntry
add_entry m fe entries =
    if length entries % 64 == 0
    then (if m.malloc (file_entry_size * (length entries + 64))
        then entries ++ fe ∷ []
        else entries)
    else entries ++ fe ∷ []

abbrev pub is_dots : Bytes → Bool
is_dots name = bytes_eq name (dot ∷ []) || bytes_eq name (dot ∷ dot ∷ [])

unfoldable pub collect_kind :
    Machine
    → (Bytes → List FileEntry → List FileEntry)
    → Option FileKind
    → Bytes
    → List FileEntry
    → List FileEntry
collect_kind m next none child entries = entries
collect_kind m next (some directory) child entries = next child entries
collect_kind m next (some (regular size)) child entries =
    add_entry m (record { path = child; size = u32 size; offset = 0 }) entries
collect_kind m next (some special) child entries = entries

-- the loop over the names of a directory; `next` walks a directory below
unfoldable pub collect_names :
    Machine
    → Folders
    → (Bytes → List FileEntry → List FileEntry)
    → Bytes
    → Bytes
    → List Bytes
    → List Bytes
    → List Bytes
    → List FileEntry
    → List FileEntry
collect_names m fs next base_dir rel local_rules parent_rules [] entries = entries
collect_names m fs next base_dir rel local_rules parent_rules (name ∷ names) entries =
    let child = child_of rel name in
    let entries' =
      if is_dots name
      then entries
      else if match_ignore name local_rules || match_ignore name parent_rules
      then entries
      else collect_kind m next (fs.stat (path_in base_dir child)) child entries in
    collect_names m fs next base_dir rel local_rules parent_rules names entries'

-- the rules of the directory itself
unfoldable pub rules_in : Folders → Bool → Bytes → List Bytes
rules_in fs true path = load_ignore_file (fs.files (path ++ slash ∷ ignore_name)) []
rules_in fs false path = []

unfoldable pub collect_opened :
    (List Bytes → List FileEntry → List FileEntry)
    → Option (List Bytes)
    → List FileEntry
    → List FileEntry
collect_opened walk none entries = entries
collect_opened walk (some names) entries = walk names entries

-- The walk on fuel, the depth to which directories are entered. The rules that a directory hands
-- down are its own if each directory has rules, and its parent's otherwise.
unfoldable pub collect_files_binary :
    ℕ → Machine → Folders → Bytes → Bytes → List Bytes → Bool → List FileEntry → List FileEntry
collect_files_binary zero m fs base_dir rel parent_rules recursive_ignore entries = entries
collect_files_binary (suc f) m fs base_dir rel parent_rules recursive_ignore entries =
    let path = directory_of base_dir rel in
    let local_rules = rules_in fs recursive_ignore path in
    let handed = if recursive_ignore then local_rules else parent_rules in
    collect_opened
      (collect_names m fs
        (λ child es. collect_files_binary f m fs base_dir child handed recursive_ignore es) base_dir
        rel local_rules parent_rules)
      (fs.opendir path) entries

unfoldable pub collect_all :
    ℕ → Machine → Folders → List Bytes → List Bytes → Bool → List FileEntry → List FileEntry
collect_all depth m fs [] rules recursive_ignore entries = entries
collect_all depth m fs (p ∷ ps) rules recursive_ignore entries =
    collect_all depth m fs ps rules recursive_ignore
      (collect_files_binary depth m fs p [] rules recursive_ignore entries)

-- `input_paths[0]`; there is no such path where there are none.
abbrev pub first_input : List Bytes → Bytes
first_input [] = []
first_input (p ∷ ps) = p

-- The bytes were read into a buffer, which an empty file has not.
unfoldable pub is_buffered : Machine → ℕ → Bytes → Bool
is_buffered m size content =
    if ltb 0 size then (if m.malloc size then leb size (length content) else false) else false

unfoldable pub add_opened :
    Machine → Backend → FileEntry → Option Bytes → PafGenerator → PafGenerator
add_opened m b e none g = g
add_opened m b e (some content) g =
    if is_buffered m e.size content
    then (paf_generator_add_file m b g e.path (take e.size content)).0
    else (paf_generator_add_file_stream m b g e.path (open_stream content) e.size).0

-- the loop that adds the files; each is looked for below the first of the input paths
unfoldable pub add_entries :
    Machine → Backend → Files → Bytes → List FileEntry → PafGenerator → PafGenerator
add_entries m b files base [] g = g
add_entries m b files base (e ∷ es) g =
    add_entries m b files base es (add_opened m b e (files (path_in base e.path)) g)

unfoldable pub root_rules : Folders → Option Bytes → Bytes → List Bytes
root_rules fs (some ignore_file_path) base = load_ignore_file (fs.files ignore_file_path) []
root_rules fs none base = load_ignore_file (fs.files (path_in base ignore_name)) []

-- What the output file holds, if the call returns 0, and else `none`. `writable`: the output can be
-- opened. The generator's temporary files and buffers are taken to be had.
unfoldable pub paf_create_binary :
    ℕ → Machine → Backend → Folders → Bool → List Bytes → Option Bytes → Bool → Option Bytes
paf_create_binary depth m b fs writable input_paths ignore_file_path recursive_ignore =
    let base = first_input input_paths in
    let rules = root_rules fs ignore_file_path base in
    let entries = collect_all depth m fs input_paths rules recursive_ignore [] in
    paf_generator_finalize m b writable
      (add_entries m b fs.files base entries (paf_generator_init false))

-- The same for an index alone; each directory has rules.
unfoldable pub paf_create_index_only :
    ℕ → Machine → Backend → Folders → Bool → List Bytes → Option Bytes
paf_create_index_only depth m b fs writable input_paths =
    let base = first_input input_paths in
    let entries = collect_all depth m fs input_paths (root_rules fs none base) true [] in
    paf_generator_finalize m b writable
      (add_entries m b fs.files base entries (paf_generator_init true))
