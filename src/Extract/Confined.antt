-- ===== src/Extract/Confined.antt =====
-- What libpaf/src/libpaf_extract.c leaves alone, at any archive: no check of the archive's bytes is
-- assumed.
use paf_archive.Prelude.{
  ℕ, ◌≡◌, zero, suc, refl, ap₂, ◌∙◌, arith, Bool, true, false, List, [], ◌∷◌, ◌++◌, length, drop,
  Option, none, some, ◌⊎◌, inl, inr, Bool-cases, ltb, ◌||◌, ◌==◌,
}
use paf_archive.Words.{Bytes}
use paf_archive.Stdio.{Machine, Stream, starts_with}
use paf_archive.Format.{PafHeader, PafIndexEntry}
use paf_archive.Reader.{Outcome, ok, err, read_path, read_data}
use paf_archive.Listing.{file_exists_in_archive, folder_exists_in_archive}
use paf_archive.Paths.{dot, slash, contains, dot_dot, directories_from}
use paf_archive.Paths.Safety.{HasUp, contains→not-HasUp}
use paf_archive.Disk.{
  Disk, write_file, make_folders, Within, Within-refl, Within-trans, write_file-Within,
}
use paf_archive.Extract.{
  Opened, open_archive, write_entry, finish_write, is_path, extract_first, extract_first_opened,
  paf_extract_file, as_slash, slashes, is_wanted, put_content, extract_into, extract_all,
  extract_all_opened, paf_extract_folder,
}

finish_write-Within :
    (P : Bytes → Type 0) (out : Bytes) (content : Option Bytes) (d : Disk)
    → P out
    → Within P d (finish_write out content (write_file d out [])).1
unfolding finish_write
finish_write-Within P out none d h = write_file-Within P d out [] h
finish_write-Within P out (some b) d h =
    Within-trans P d (write_file d out []) (write_file (write_file d out []) out b)
      (write_file-Within P d out [] h) (write_file-Within P (write_file d out []) out b h)

module _ (m : Machine) (writable : Bytes → Bool) where
  write_entry-Within :
      (P : Bytes → Type 0) (out : Bytes) (e : PafIndexEntry) (fp : Stream) (d : Disk)
      → P out
      → Within P d (write_entry m writable out e fp d).1
  unfolding write_entry
  write_entry-Within P out e fp d h = elim (Bool-cases (writable out)) [
    | inl w ↦ elim (Bool-cases (m.malloc e.data_size)) [
      | inl a ↦ rw (w, a) (finish_write-Within P out (read_data fp e).0 d h)
      | inr a ↦ rw (w, a) (write_file-Within P d out [] h)
    ]
    | inr w ↦ rw w (Within-refl P d)
  ]

  extract_first-Within :
      (path out : Bytes) (header : PafHeader) (es : List PafIndexEntry) (fp : Stream) (d : Disk)
      → Within (λ q. q ≡ out) d (extract_first m writable path out header es fp d).1
  unfolding extract_first
  extract_first-Within path out header [] fp d = Within-refl _ d
  extract_first-Within path out header (e ∷ es) fp d =
      let r = read_path fp header e in
      elim (Bool-cases (is_path r.0 path)) [
        | inl h ↦ rw h (write_entry-Within (λ q. q ≡ out) out e r.1 d refl)
        | inr h ↦ rw h (extract_first-Within path out header es r.1 d)
      ]

  opened-Within :
      (path out : Bytes) (o : Outcome Opened) (d : Disk)
      → Within (λ q. q ≡ out) d (extract_first_opened m writable path out o d).1
  unfolding extract_first_opened
  opened-Within path out (err n) d = Within-refl _ d
  opened-Within path out (ok o) d = extract_first-Within path out o.header o.entries o.fp d

  -- Whatever the archive holds and whatever fails, `paf_extract_file` changes no file but the output.
  pub paf_extract_file-Within :
      (paf_path path out : Bytes) (d : Disk) (q : Bytes)
      → ((paf_extract_file m writable paf_path path out d).1.files q ≡ d.files q) ⊎ (q ≡ out)
  unfolding paf_extract_file
  paf_extract_file-Within paf_path path out d q =
      elim (Bool-cases (file_exists_in_archive m d.files paf_path path)) [
        | inl h ↦ rw h (opened-Within path out (open_archive m (d.files paf_path)) d q)
        | inr h ↦ rw h (inl refl)
      ]

-- The path is that of the folder, a slash, and a name with no `..` segment.
abbrev pub IsBelow : Bytes → Bytes → Type 0
IsBelow folder q = (rest : Bytes) × (q ≡ folder ++ slash ∷ rest) × (¬ HasUp rest)

as_slash-dot : (c : ℕ) → (dot == as_slash c) ≡ (dot == c)
as_slash-dot c = ground arith

starts_with-slashes : (s : Bytes) → starts_with dot_dot (slashes s) ≡ starts_with dot_dot s
unfolding slashes
starts_with-slashes [] = refl
starts_with-slashes (c ∷ []) = rw (as_slash-dot c) refl
starts_with-slashes (c ∷ c' ∷ s) = rw (as_slash-dot c, as_slash-dot c') refl

contains-slashes : (s : Bytes) → contains dot_dot (slashes s) ≡ contains dot_dot s
unfolding contains slashes
contains-slashes [] = refl
contains-slashes (c ∷ s) = ap₂ (λ a b. a || b) (starts_with-slashes (c ∷ s)) (contains-slashes s)

contains-drop :
    (n : ℕ) (s : Bytes) → contains dot_dot s ≡ false → contains dot_dot (drop n s) ≡ false
unfolding contains
contains-drop zero s h = h
contains-drop (suc n) [] h = h
contains-drop (suc n) (c ∷ s) h = contains-drop n s (ground arith)

module _ (m : Machine) (writable : Bytes → Bool) (dir output_dir : Bytes) where
  put_content-Within :
      (full : Bytes) (e : PafIndexEntry) (fp : Stream) (d : Disk)
      → IsBelow output_dir full
      → Within (IsBelow output_dir) d (put_content m writable full e fp d).1
  unfolding put_content
  put_content-Within full e fp d h = elim (Bool-cases (writable full)) [
    | inl w ↦ elim (Bool-cases (m.malloc e.data_size)) [
      | inl a ↦ rw (w, a) (finish_write-Within (IsBelow output_dir) full (read_data fp e).0 d h)
      | inr a ↦ rw (w, a) (write_file-Within (IsBelow output_dir) d full [] h)
    ]
    | inr w ↦ rw w (Within-refl (IsBelow output_dir) d)
  ]

  wanted-IsBelow :
      (path : Bytes)
      → is_wanted dir path ≡ true
      → IsBelow output_dir (output_dir ++ slash ∷ slashes (drop (length dir) path))
  unfolding is_wanted
  wanted-IsBelow path h =
      let rest = drop (length dir) path in
      let clear : contains dot_dot path ≡ false = ground arith in
      (
        slashes rest,
        refl,
        contains→not-HasUp (slashes rest)
            (contains-slashes rest ∙ contains-drop (length dir) path clear),
      )

  extract_into-Within :
      (e : PafIndexEntry) (path : Option Bytes) (fp : Stream) (d : Disk)
      → Within (IsBelow output_dir) d (extract_into m writable dir output_dir e path fp d).1
  unfolding extract_into make_folders
  extract_into-Within e none fp d = Within-refl (IsBelow output_dir) d
  extract_into-Within e (some path) fp d =
      let rest = drop (length dir) path in
      let dirs = directories_from (output_dir ++ slash ∷ []) rest in
      let fits = ltb (length (output_dir ++ slash ∷ rest)) 1024 in
      elim (Bool-cases (is_wanted dir path)) [
        | inl h ↦ elim (Bool-cases fits) [
          | inl k ↦
              rw (h, k)
                (put_content-Within (output_dir ++ slash ∷ slashes rest) e fp (make_folders d dirs)
                  (wanted-IsBelow path h))
          | inr k ↦ rw (h, k) (Within-refl (IsBelow output_dir) d)
        ]
        | inr h ↦ rw h (Within-refl (IsBelow output_dir) d)
      ]

  extract_all-Within :
      (header : PafHeader) (es : List PafIndexEntry) (fp : Stream) (d : Disk)
      → Within (IsBelow output_dir) d (extract_all m writable dir output_dir header es fp d)
  unfolding extract_all
  extract_all-Within header [] fp d = Within-refl (IsBelow output_dir) d
  extract_all-Within header (e ∷ es) fp d =
      let r = read_path fp header e in
      let s = extract_into m writable dir output_dir e r.0 r.1 d in
      Within-trans (IsBelow output_dir) d s.1
        (extract_all m writable dir output_dir header es s.0 s.1) (extract_into-Within e r.0 r.1 d)
        (extract_all-Within header es s.0 s.1)

  opened_all-Within :
      (o : Outcome Opened) (d : Disk)
      → Within (IsBelow output_dir) d (extract_all_opened m writable dir output_dir o d).1
  unfolding extract_all_opened
  opened_all-Within (err n) d = Within-refl (IsBelow output_dir) d
  opened_all-Within (ok o) d = extract_all-Within o.header o.entries o.fp d

  -- Whatever the archive holds and whatever fails, `paf_extract_folder` changes only files whose
  -- path is the output folder, a slash, and a name with no `..` segment.
  pub paf_extract_folder-Within :
      (paf_path : Bytes) (d : Disk) (q : Bytes)
      → ((paf_extract_folder m writable paf_path dir output_dir d).1.files q ≡ d.files q)
        ⊎ IsBelow output_dir q
  unfolding paf_extract_folder
  paf_extract_folder-Within paf_path d q =
      elim (Bool-cases (folder_exists_in_archive m d.files paf_path dir)) [
        | inl h ↦ rw h (opened_all-Within (open_archive m (d.files paf_path)) d q)
        | inr h ↦ rw h (inl refl)
      ]
