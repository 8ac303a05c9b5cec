-- ===== src/Create/Walk.antt =====
-- The walk of `collect_files_binary` in libpaf/src/libpaf_core.c, by paths and system calls, beside a
-- traversal of the tree of directories.
use paf_archive.Prelude.{
  ℕ, zero, suc, ◌+◌, ◌*◌, ◌≤◌, ◌<◌, ◌%◌, ◌≡◌, refl, ap, sym, ◌∙◌, arith, Bool, true, false, List,
  [], ◌∷◌, ◌++◌, length, Option, some, ◌||◌, ◌==◌, if◌then◌else◌, append_assoc, append-nil,
  if-cases, Bool-cases, inl, inr,
}
use paf_archive.Words.{Bytes, u32}
use paf_archive.Stdio.{Machine}
use paf_archive.Create.{
  Folders, FileKind, directory, regular, special, FileEntry, file_entry_size, directory_of,
  child_of, path_in, add_entry, is_dots, match_ignore, collect_kind, collect_names, rules_in,
  collect_opened, collect_files_binary,
}
use paf_archive.Create.Tree.{
  Tree, end, file, folder, other, height, names_of, without_dots, path_below, directory_at, place,
  Opens, Shows, IsFound,
}
use paf_archive.Create.Rules.{rules_in-HasRules}
use paf_archive.Create.Found.{kept_files, kept_files-IsFound}

child_of-path_below : (rel name : Bytes) → child_of rel name ≡ path_below rel name
unfolding child_of path_below
child_of-path_below [] name = refl
child_of-path_below (c ∷ rel) name = refl

directory_of-directory_at : (base rel : Bytes) → directory_of base rel ≡ directory_at base rel
unfolding directory_of directory_at
directory_of-directory_at base [] = refl
directory_of-directory_at base (c ∷ rel) = refl

if_append :
    (b : Bool) (xs ys zs : List FileEntry)
    → ys ≡ xs ++ zs
    → (if b then xs else ys) ≡ xs ++ (if b then [] else zs)
if_append true xs ys zs e = sym (append-nil xs)
if_append false xs ys zs e = e

module _ (m : Machine) (memory : (n : ℕ) → m.malloc n ≡ true) (fs : Folders) (base : Bytes) where
  add_entry-append :
      (fe : FileEntry) (entries : List FileEntry) → add_entry m fe entries ≡ entries ++ fe ∷ []
  unfolding add_entry
  add_entry-append fe entries =
      rw (memory (file_entry_size * (length entries + 64)))
        (same (length entries % 64 == 0) (entries ++ fe ∷ []))
    where
      same : (b : Bool) (x : List FileEntry) → (if b then x else x) ≡ x
      same true x = refl
      same false x = refl

  -- One round, at a name that is not `.` or `..`.
  abbrev visited :
      (Bytes → List FileEntry → List FileEntry)
      → Bytes
      → List Bytes
      → List Bytes
      → Bytes
      → List FileEntry
      → List FileEntry
  visited next rel own given name entries =
      if match_ignore name own || match_ignore name given
      then entries
      else collect_kind m next (fs.stat (path_in base (child_of rel name))) (child_of rel name)
          entries

  module _ (next : Bytes → List FileEntry → List FileEntry) (rel : Bytes)
      (own given : List Bytes) where
    abbrev collect : List Bytes → List FileEntry → List FileEntry
    collect names entries = collect_names m fs next base rel own given names entries

    collect-dots :
        (name : Bytes) (names : List Bytes) (entries : List FileEntry)
        → is_dots name ≡ true
        → collect (name ∷ names) entries ≡ collect names entries
    unfolding collect_names
    collect-dots name names entries e =
        ap
          (λ (b : Bool).
            collect names (if b then entries else visited next rel own given name entries))
          e

    collect-name :
        (name : Bytes) (names : List Bytes) (entries : List FileEntry)
        → is_dots name ≡ false
        → collect (name ∷ names) entries ≡ collect names (visited next rel own given name entries)
    unfolding collect_names
    collect-name name names entries e =
        ap
          (λ (b : Bool).
            collect names (if b then entries else visited next rel own given name entries))
          e

    -- `.` and `..` are passed over.
    collect-without_dots :
        (names : List Bytes) (entries : List FileEntry)
        → collect names entries ≡ collect (without_dots names) entries
    unfolding without_dots
    collect-without_dots [] entries = refl
    collect-without_dots (name ∷ names) entries = elim (Bool-cases (is_dots name)) [
      | inl e ↦ collect-dots name names entries e ∙ rw e (collect-without_dots names entries)
      | inr e ↦
          let entries' = visited next rel own given name entries in
          collect-name name names entries e
          ∙ collect-without_dots names entries'
          ∙ sym (collect-name name (without_dots names) entries e)
          ∙ ap
              (λ (b : Bool).
                collect (if b then without_dots names else name ∷ without_dots names) entries)
              (sym e)
    ]

    -- What `stat` says of the path below is said of the path that the code makes.
    of_child :
        (name : Bytes) (kind : FileKind)
        → fs.stat (place base (path_below rel name)) ≡ some kind
        → fs.stat (path_in base (child_of rel name)) ≡ some kind
    of_child name kind shown =
        ap (λ (path : Bytes). fs.stat (path_in base path)) (child_of-path_below rel name) ∙ shown

    -- A name that is a file adds it, unless it is ignored.
    visited-file :
        (name : Bytes) (size : ℕ) (entries : List FileEntry)
        → fs.stat (place base (path_below rel name)) ≡ some (regular size)
        → visited next rel own given name entries
          ≡ entries
            ++ (if match_ignore name own || match_ignore name given
                then []
                else record { path = path_below rel name; size = u32 size; offset = 0 } ∷ [])
    unfolding collect_kind
    visited-file name size entries shown =
        let child = child_of rel name in
        let added : Bytes → List FileEntry =
          λ path. entries ++ record { path = path; size = u32 size; offset = 0 } ∷ [] in
        if_append (match_ignore name own || match_ignore name given) entries
          (collect_kind m next (fs.stat (path_in base child)) child entries)
          (record { path = path_below rel name; size = u32 size; offset = 0 } ∷ [])
          (ap (λ (k : Option FileKind). collect_kind m next k child entries)
              (of_child name (regular size) shown)
            ∙ add_entry-append (record { path = child; size = u32 size; offset = 0 }) entries
            ∙ ap added (child_of-path_below rel name))

    visited-folder :
        (name : Bytes) (entries below : List FileEntry)
        → fs.stat (place base (path_below rel name)) ≡ some directory
        → next (path_below rel name) entries ≡ entries ++ below
        → visited next rel own given name entries
          ≡ entries ++ (if match_ignore name own || match_ignore name given then [] else below)
    unfolding collect_kind
    visited-folder name entries below shown walked =
        let child = child_of rel name in
        if_append (match_ignore name own || match_ignore name given) entries
          (collect_kind m next (fs.stat (path_in base child)) child entries) below
          (ap (λ (k : Option FileKind). collect_kind m next k child entries)
              (of_child name directory shown)
            ∙ ap (λ (path : Bytes). next path entries) (child_of-path_below rel name)
            ∙ walked)

    visited-other :
        (name : Bytes) (entries : List FileEntry)
        → fs.stat (place base (path_below rel name)) ≡ some special
        → visited next rel own given name entries ≡ entries
    unfolding collect_kind
    visited-other name entries shown =
        if-cases (λ (r : List FileEntry). r ≡ entries)
          (match_ignore name own || match_ignore name given) (λ h. refl)
          (λ h.
            ap (λ (k : Option FileKind). collect_kind m next k (child_of rel name) entries)
              (of_child name special shown))

  -- What the walk of the folders below comes to, up to a depth.
  abbrev Walks : ℕ → Bool → Type 0
  Walks f rec =
      (rel : Bytes) (own given : List Bytes) (tree : Tree) (entries : List FileEntry)
      → height tree < f
      → Opens fs rec base rel own tree
      → Shows fs rec base rel tree
      → collect_files_binary f m fs base rel given rec entries
        ≡ entries ++ kept_files rec rel own given tree

  abbrev enter : ℕ → Bool → List Bytes → Bytes → List FileEntry → List FileEntry
  enter f rec handed child es = collect_files_binary f m fs base child handed rec es

  collect-tree :
      (f : ℕ) (rec : Bool) (rel : Bytes) (own given : List Bytes) (tree : Tree)
      (entries : List FileEntry)
      → Walks f rec
      → height tree ≤ f
      → Shows fs rec base rel tree
      → collect_names m fs
          (enter f rec (if rec then own else given))
          base
          rel
          own
          given
          (names_of tree)
          entries
        ≡ entries ++ kept_files rec rel own given tree
  unfolding names_of kept_files height collect_names
  collect-tree f rec rel own given end entries walks low shown = sym (append-nil entries)
  collect-tree f rec rel own given (file name size rest) entries walks low (named, kind, shown) =
      let next = enter f rec (if rec then own else given) in
      let e' = visited next rel own given name entries in
      collect-name next rel own given name (names_of rest) entries named
      ∙ collect-tree f rec rel own given rest e' walks low shown
      ∙ ap (λ (es : List FileEntry). es ++ kept_files rec rel own given rest)
          (visited-file next rel own given name size entries kind)
      ∙ append_assoc entries _ (kept_files rec rel own given rest)
  collect-tree f rec rel own given (folder name rules sub rest) entries walks low
        (named, kind, opens, below, shown) =
      let child = path_below rel name in
      let handed = if rec then own else given in
      let next = enter f rec handed in
      let e' = visited next rel own given name entries in
      collect-name next rel own given name (names_of rest) entries named
      ∙ collect-tree f rec rel own given rest e' walks (omega arith) shown
      ∙ ap (λ (es : List FileEntry). es ++ kept_files rec rel own given rest)
          (visited-folder next rel own given name entries (kept_files rec child rules handed sub)
            kind (walks child rules handed sub entries (omega arith) opens below))
      ∙ append_assoc entries _ (kept_files rec rel own given rest)
  collect-tree f rec rel own given (other name rest) entries walks low (named, kind, shown) =
      let next = enter f rec (if rec then own else given) in
      let e' = visited next rel own given name entries in
      collect-name next rel own given name (names_of rest) entries named
      ∙ collect-tree f rec rel own given rest e' walks low shown
      ∙ ap (λ (es : List FileEntry). es ++ kept_files rec rel own given rest)
          (visited-other next rel own given name entries kind)

  collect-kept_files : (f : ℕ) (rec : Bool) → Walks f rec
  unfolding collect_files_binary collect_opened
  collect-kept_files zero rec rel own given tree entries low opens shown = absurd (omega arith)
  collect-kept_files (suc f) rec rel own given tree entries low (ruled, (names, opened, listed))
        shown =
      let dir = directory_of-directory_at base rel in
      let open_it = ap fs.opendir dir ∙ opened in
      let rules : rules_in fs rec (directory_of base rel) ≡ own =
        ap (rules_in fs rec) dir ∙ rules_in-HasRules fs rec (directory_at base rel) own ruled in
      let next = enter f rec (if rec then own else given) in
      rw (open_it, rules)
        (collect-without_dots next rel own given names entries
          ∙ ap (λ (ns : List Bytes). collect_names m fs next base rel own given ns entries) listed
          ∙ collect-tree f rec rel own given tree entries (collect-kept_files f rec) (omega arith)
              shown)

  -- With memory, the walk of a directory whose system calls show a tree, with the rules of the ignore
  -- files in it, adds the tree's files, depth first, with their paths below the directory and the low
  -- 32 bits of their sizes, but for the files and folders whose name matches a rule: one of their
  -- directory, or one that was handed down to it. With ignore files in each directory, the lines that
  -- are not empty and no comment are the rules of one, and each hands its own down; otherwise all have
  -- the rules that the walk was given. Such a file has lines of at most 510 bytes. The depth of the
  -- tree, plus one, is fuel enough.
  pub collect_files_binary-tree :
      (f : ℕ) (rec : Bool) (rel : Bytes) (own given : List Bytes) (tree : Tree)
      (entries : List FileEntry)
      → height tree < f
      → Opens fs rec base rel own tree
      → Shows fs rec base rel tree
      → (found : List FileEntry) × (collect_files_binary f m fs base rel given rec entries
          ≡ entries ++ found)
        × IsFound rec rel own given tree found
  collect_files_binary-tree f rec rel own given tree entries low opens shown = (
    kept_files rec rel own given tree,
    collect-kept_files f rec rel own given tree entries low opens shown,
    kept_files-IsFound rec rel own given tree,
  )
