-- ===== src/Disk.antt =====
-- The files that the extraction writes: fopen in the mode "wb", fwrite and mkdir, as they are used
-- in libpaf/src/libpaf_extract.c and libpaf_core.c. A stream that was opened for reading keeps the
-- bytes the file had; a write to an open file succeeds.
use paf_archive.Prelude.{
  ◌≡◌, ◌≢◌, refl, ◌∙◌, Bool, true, false, List, ◌++◌, Option, none, some, ◌⊎◌, inl, inr,
  if◌then◌else◌, Bool-cases,
}
use paf_archive.Words.{Bytes}
use paf_archive.Stdio.{Files, bytes_eq, bytes_eq_refl, bytes_eq→eq}

-- The files with their content, and the folders for which `mkdir` was called, in order.
pub record Disk : Type 0 where
  pub files : Files
  pub folders : List Bytes

unfoldable pub update : Files → Bytes → Bytes → Files
update files path content q = if bytes_eq q path then some content else files q

-- The file holds these bytes now. At no bytes this is what `fopen(path, "wb")` does.
unfoldable pub write_file : Disk → Bytes → Bytes → Disk
write_file d path content = record d { files = update d.files path content }

unfoldable pub make_folders : Disk → List Bytes → Disk
make_folders d dirs = record d { folders = d.folders ++ dirs }

-- `fopen(path, "rb")` succeeds
unfoldable pub is_file : Option Bytes → Bool
is_file none = false
is_file (some _) = true

pub files-write_file_here :
    (d : Disk) (path content : Bytes) → (write_file d path content).files path ≡ some content
unfolding write_file update
files-write_file_here d path content = rw (bytes_eq_refl path) refl

pub files-write_file_other :
    (d : Disk) (path content q : Bytes) → q ≢ path → (write_file d path content).files q ≡ d.files q
unfolding write_file update
files-write_file_other d path content q other = elim (Bool-cases (bytes_eq q path)) [
  | inl e ↦ absurd (other (bytes_eq→eq q path e))
  | inr e ↦ rw e refl
]

pub files-make_folders : (d : Disk) (dirs : List Bytes) → (make_folders d dirs).files ≡ d.files
unfolding make_folders
files-make_folders d dirs = refl

-- What has changed on the disk is at paths of `P`.
abbrev pub Within : (Bytes → Type 0) → Disk → Disk → Type 0
Within P d d' = (q : Bytes) → (d'.files q ≡ d.files q) ⊎ P q

pub Within-refl : (P : Bytes → Type 0) (d : Disk) → Within P d d
Within-refl P d q = inl refl

pub Within-trans : (P : Bytes → Type 0) (a b c : Disk) → Within P a b → Within P b c → Within P a c
Within-trans P a b c h k q = elim (h q) [
  | inl e ↦ elim (k q) [ inl e' ↦ inl (e' ∙ e) | inr p ↦ inr p ]
  | inr p ↦ inr p
]

pub write_file-Within :
    (P : Bytes → Type 0) (d : Disk) (path content : Bytes)
    → P path
    → Within P d (write_file d path content)
unfolding write_file update
write_file-Within P d path content h q = elim (Bool-cases (bytes_eq q path)) [
  | inl e ↦ inr (rw (bytes_eq→eq q path e) h)
  | inr e ↦ inl (rw e refl)
]

-- Where a file can be opened for writing, removed, and given another name.
pub record Access : Type 0 where
  pub writable : Bytes → Bool
  pub removable : Bytes → Bool
  pub movable : Bytes → Bytes → Bool

unfoldable pub erase : Files → Bytes → Files
erase files path q = if bytes_eq q path then none else files q

unfoldable pub remove_file : Disk → Bytes → Disk
remove_file d path = record d { files = erase d.files path }

-- `unlink(path) == 0`, and the disk behind the call
unfoldable pub unlink : Access → Bytes → Disk → Bool × Disk
unlink a path d =
    if (if is_file (d.files path) then a.removable path else false)
    then (true, remove_file d path)
    else (false, d)

-- `rename(from, to) == 0`, which takes the place of a file that was there
unfoldable pub rename_opened : Access → Bytes → Bytes → Option Bytes → Disk → Bool × Disk
rename_opened a from to none d = (false, d)
rename_opened a from to (some content) d =
    if a.movable from to then (true, write_file (remove_file d from) to content) else (false, d)

unfoldable pub rename : Access → Bytes → Bytes → Disk → Bool × Disk
rename a from to d = rename_opened a from to (d.files from) d

pub files-remove_file_here : (d : Disk) (path : Bytes) → (remove_file d path).files path ≡ none
unfolding remove_file erase
files-remove_file_here d path = rw (bytes_eq_refl path) refl

pub files-remove_file_other :
    (d : Disk) (path q : Bytes) → q ≢ path → (remove_file d path).files q ≡ d.files q
unfolding remove_file erase
files-remove_file_other d path q other = elim (Bool-cases (bytes_eq q path)) [
  | inl e ↦ absurd (other (bytes_eq→eq q path e))
  | inr e ↦ rw e refl
]

-- An unlink changes no other file.
pub files-unlink_other :
    (a : Access) (path q : Bytes) (d : Disk) → q ≢ path → (unlink a path d).1.files q ≡ d.files q
unfolding unlink
files-unlink_other a path q d other =
    elim (Bool-cases (if is_file (d.files path) then a.removable path else false)) [
      | inl e ↦ rw e (files-remove_file_other d path q other)
      | inr e ↦ rw e refl
    ]

pub unlink-Within :
    (P : Bytes → Type 0) (a : Access) (path : Bytes) (d : Disk)
    → P path
    → Within P d (unlink a path d).1
unfolding unlink remove_file erase
unlink-Within P a path d h q =
    elim (Bool-cases (if is_file (d.files path) then a.removable path else false)) [
      | inl e ↦ elim (Bool-cases (bytes_eq q path)) [
        | inl k ↦ inr (rw (bytes_eq→eq q path k) h)
        | inr k ↦ inl (rw (e, k) refl)
      ]
      | inr e ↦ inl (rw e refl)
    ]

pub Within-weaken :
    (P Q : Bytes → Type 0) (a b : Disk) → ((q : Bytes) → P q → Q q) → Within P a b → Within Q a b
Within-weaken P Q a b f h q = elim (h q) [ inl e ↦ inl e | inr p ↦ inr (f q p) ]

pub remove_file-Within :
    (P : Bytes → Type 0) (d : Disk) (path : Bytes) → P path → Within P d (remove_file d path)
unfolding remove_file erase
remove_file-Within P d path h q = elim (Bool-cases (bytes_eq q path)) [
  | inl k ↦ inr (rw (bytes_eq→eq q path k) h)
  | inr k ↦ inl (rw k refl)
]
