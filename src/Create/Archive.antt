-- ===== src/Create/Archive.antt =====
-- What `paf_create_binary` and `paf_create_index_only` of libpaf/src/libpaf_core.c write.
use paf_archive.Prelude.{
  ℕ, zero, suc, ◌<◌, ◌≡◌, refl, sym, arith, Bool, true, false, List, [], ◌∷◌, ◌++◌, length, take,
  All, Option, none, some, append-nil, append_assoc, take_all, if-cases, leb,
}
use paf_archive.Words.{Bytes}
use paf_archive.Stdio.{Machine, Files, Stream, open_stream}
use paf_archive.Generator.{
  InputFile, PafGenerator, Backend, paf_generator_init, paf_generator_finalize,
  paf_generator_add_file_stream, paf_generator_flush_batch, add_stream,
}
use paf_archive.Generator.Spec.{archive, Fits}
use paf_archive.Generator.Files.{Fits-append_left, All-append_right}
use paf_archive.Generator.Flush.{IsBackend, Represents}
use paf_archive.Generator.Add.{AddLeaves, add_file-leaves, init-Represents}
use paf_archive.Generator.Streaming.{add_file_stream-leaves}
use paf_archive.Generator.Finalize.{flush_batch-ok, add_file-ok, finalize-ok}
use paf_archive.Create.{
  Folders, FileEntry, path_in, is_buffered, add_opened, add_entries, collect_all, root_rules,
  first_input, paf_create_binary, paf_create_index_only,
}

-- The files that are there below the first input path, with their content.
unfoldable pub found_file : Bytes → Option Bytes → List InputFile
found_file path none = []
found_file path (some content) = record { path = path; content = content } ∷ []

unfoldable pub found_files : Files → Bytes → List FileEntry → List InputFile
found_files files base [] = []
found_files files base (e ∷ es) =
    found_file e.path (files (path_in base e.path)) ++ found_files files base es

-- The size that the walk noted is that of the file.
abbrev pub IsHonest : Files → Bytes → FileEntry → Type 0
IsHonest files base e =
    (content : Bytes) → files (path_in base e.path) ≡ some content → length content ≡ e.size

module _ (m : Machine) (b : Backend) (memory : (n : ℕ) → m.malloc n ≡ true)
    (good : IsBackend b) where
  add_stream-ok :
      (path : Bytes) (fp : Stream) (size : ℕ) (r : PafGenerator × ℕ)
      → r.1 ≡ 0
      → (add_stream m b path fp size r).1 ≡ 0
  unfolding add_stream
  add_stream-ok path fp size (g, zero) h = refl
  add_stream-ok path fp size (g, suc e) h = absurd (omega arith)

  add_file_stream-ok :
      (g : PafGenerator) (path : Bytes) (fp : Stream) (size : ℕ)
      → length path < 1024
      → (paf_generator_add_file_stream m b g path fp size).1 ≡ 0
  unfolding paf_generator_add_file_stream
  add_file_stream-ok g path fp size short =
      let fits : leb 1024 (length path) ≡ false = ground arith in
      rw fits
        (add_stream-ok path fp size (paf_generator_flush_batch m b g) (flush_batch-ok m b memory g))

  left-Represents :
      (io : Bool) (fs : List InputFile) (f : InputFile) (r : PafGenerator × ℕ)
      → r.1 ≡ 0
      → AddLeaves io fs f r
      → Represents io (fs ++ f ∷ []) r.0
  left-Represents io fs f (g, zero) e h = h
  left-Represents io fs f (g, suc n) e h = absurd (omega arith)

  -- A file is added with its whole content, by the buffer or by the stream.
  add_opened-Represents :
      (io : Bool) (fs : List InputFile) (e : FileEntry) (content : Bytes) (g : PafGenerator)
      → length content ≡ e.size
      → Fits (fs ++ record { path = e.path; content = content } ∷ [])
      → Represents io fs g
      → Represents io
          (fs ++ record { path = e.path; content = content } ∷ [])
          (add_opened m b e (some content) g)
  unfolding add_opened
  add_opened-Represents io fs e content g size fits rep =
      let f : InputFile = record { path = e.path; content = content } in
      let short = (All-append_right _ fs (f ∷ []) fits.paths).0 in
      let whole : take e.size content ≡ content = take_all e.size content (omega (arith, size)) in
      if-cases (λ (g' : PafGenerator). Represents io (fs ++ f ∷ []) g')
        (is_buffered m e.size content)
        (λ h. rw whole (
          left-Represents io fs f _ (add_file-ok m b memory g f short)
            (add_file-leaves m b good fs f fits rep)))
        (λ h. rw (sym size) (
          left-Represents io fs f _
            (add_file_stream-ok g e.path (open_stream content) (length content) short)
            (add_file_stream-leaves m b good fs f (open_stream content) [] fits rep
              (sym (append-nil content)))))

  -- One entry is added if its file is there.
  one-Represents :
      (io : Bool) (fs rest : List InputFile) (e : FileEntry) (file : Option Bytes)
      (g : PafGenerator)
      → ((content : Bytes) → file ≡ some content → length content ≡ e.size)
      → Fits ((fs ++ found_file e.path file) ++ rest)
      → Represents io fs g
      → Represents io (fs ++ found_file e.path file) (add_opened m b e file g)
  unfolding found_file add_opened
  one-Represents io fs rest e none g honest fits rep = rw (append-nil fs) rep
  one-Represents io fs rest e (some content) g honest fits rep =
      let f : InputFile = record { path = e.path; content = content } in
      add_opened-Represents io fs e content g (honest content refl)
        (Fits-append_left (fs ++ f ∷ []) rest fits) rep

  add_entries-Represents :
      (io : Bool) (files : Files) (base : Bytes) (es : List FileEntry) (fs : List InputFile)
      (g : PafGenerator)
      → All (IsHonest files base) es
      → Fits (fs ++ found_files files base es)
      → Represents io fs g
      → Represents io (fs ++ found_files files base es) (add_entries m b files base es g)
  unfolding add_entries found_files
  add_entries-Represents io files base [] fs g honest fits rep = rw (append-nil fs) rep
  add_entries-Represents io files base (e ∷ es) fs g (h, honest) fits rep =
      let rest = found_files files base es in
      let file = files (path_in base e.path) in
      let assoc : (fs ++ found_file e.path file) ++ rest ≡ fs ++ (found_file e.path file ++ rest) =
        append_assoc fs (found_file e.path file) rest in
      let fits' : Fits ((fs ++ found_file e.path file) ++ rest) = rw assoc fits in
      rw (← assoc) (
        add_entries-Represents io files base es (fs ++ found_file e.path file)
          (add_opened m b e file g) honest fits' (one-Represents io fs rest e file g h fits' rep))

  -- The archive of the entries of a walk.
  entries-archive :
      (io : Bool) (files : Files) (base : Bytes) (es : List FileEntry)
      → All (IsHonest files base) es
      → Fits (found_files files base es)
      → paf_generator_finalize m b true (add_entries m b files base es (paf_generator_init io))
        ≡ some (archive io (found_files files base es))
  entries-archive io files base es honest fits = finalize-ok m b memory good fits (
      add_entries-Represents io files base es [] (paf_generator_init io) honest fits
        (init-Represents io))

  -- With memory, a writable output and devices that hash right: `paf_create_binary` writes exactly
  -- the archive of the files that the walk collected and that are there below the first input path,
  -- in the order of the walk, if the sizes that the walk noted are those of the files and the files
  -- fit an archive. An empty file, which the code streams, is no exception.
  pub paf_create_binary-archive :
      (depth : ℕ) (fs : Folders) (input_paths : List Bytes) (ignore : Option Bytes) (rec : Bool)
      (es : List FileEntry)
      → collect_all depth m fs input_paths (root_rules fs ignore (first_input input_paths)) rec []
        ≡ es
      → All (IsHonest fs.files (first_input input_paths)) es
      → Fits (found_files fs.files (first_input input_paths) es)
      → paf_create_binary depth m b fs true input_paths ignore rec
        ≡ some (archive false (found_files fs.files (first_input input_paths) es))
  unfolding paf_create_binary
  paf_create_binary-archive depth fs input_paths ignore rec es walk honest fits =
      rw walk (entries-archive false fs.files (first_input input_paths) es honest fits)

  -- In the same way `paf_create_index_only` writes exactly the index of these files, with no data
  -- block. Its entries have the hashes of the files and their sizes, for which section 8 of SPEC.md
  -- has 0.
  pub paf_create_index_only-archive :
      (depth : ℕ) (fs : Folders) (input_paths : List Bytes) (es : List FileEntry)
      → collect_all depth m fs input_paths (root_rules fs none (first_input input_paths)) true []
        ≡ es
      → All (IsHonest fs.files (first_input input_paths)) es
      → Fits (found_files fs.files (first_input input_paths) es)
      → paf_create_index_only depth m b fs true input_paths
        ≡ some (archive true (found_files fs.files (first_input input_paths) es))
  unfolding paf_create_index_only
  paf_create_index_only-archive depth fs input_paths es walk honest fits =
      rw walk (entries-archive true fs.files (first_input input_paths) es honest fits)
