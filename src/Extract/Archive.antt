-- ===== src/Extract/Archive.antt =====
-- libpaf/src/libpaf_extract.c on an archive that the generator wrote: what one file gives.
use paf_archive.Prelude.{
  ℕ, ◌+◌, ◌*◌, ◌<◌, ◌≡◌, ◌≢◌, refl, ap, sym, ◌∙◌, arith, Bool, true, false, List, [], ◌∷◌, ◌++◌,
  length, Any, All, some, inl, inr, append_assoc, length-append, Bool-cases,
}
use paf_archive.Words.{Bytes}
use paf_archive.Stdio.{Machine, Stream, open_stream, bytes_eq, bytes_eq→eq, bytes_eq_refl}
use paf_archive.Reader.{ok, read_path}
use paf_archive.Reader.Archive.{
  read_header-archive, read_index-archive, read_path-archive, read_data-archive, content-read_path,
}
use paf_archive.Generator.{InputFile}
use paf_archive.Generator.Spec.{
  data_bytes, path_bytes, stored, entry_of, entries_from, archive, archive_header, Fits,
  path_bytes-append, data_bytes-append,
}
use paf_archive.Listing.{file_exists_in_archive}
use paf_archive.Listing.Archive.{CleanPaths}
use paf_archive.Listing.Exists.{file_exists-archive}
use paf_archive.Disk.{Disk, write_file}
use paf_archive.Extract.{
  open_archive, open_header, open_index, write_entry, finish_write, is_path, extract_first,
  extract_first_opened, paf_extract_file,
}

module _ (m : Machine) (io : Bool) (fs : List InputFile) (fits : Fits fs)
    (memory : (n : ℕ) → m.malloc n ≡ true) where
  -- The archive opens, with the entries of its files.
  pub open_archive-archive :
      (fp : Stream) × (open_archive m (some (archive io fs))
        ≡ ok (record { header = archive_header io fs; entries = entries_from io 0 0 fs; fp = fp }))
      × (fp.content ≡ archive io fs)
  unfolding open_archive open_header open_index
  open_archive-archive =
      let (fp, header, hc) =
        read_header-archive io fs fits (open_stream (archive io fs)) refl refl in
      let (fp', index, hc') = read_index-archive io fs fits fp hc in
      (fp', rw (header, memory (128 * length fs), index) refl, hc')

Any-middle :
    (before after : List InputFile) (f : InputFile)
    → Any (λ g. InputFile.path g ≡ f.path) (before ++ f ∷ after)
Any-middle [] after f = inl refl
Any-middle (g ∷ before) after f = inr (Any-middle before after f)

module _ (m : Machine) (fs : List InputFile) (fits : Fits fs) (memory : (n : ℕ) → m.malloc n ≡ true)
    (writable : Bytes → Bool) (out : Bytes) (can_write : writable out ≡ true) (f : InputFile)
    (after : List InputFile) where
  write_entry-archive :
      (before : List InputFile) (p : ℕ) (fp : Stream) (d : Disk)
      → before ++ f ∷ after ≡ fs
      → fp.content ≡ archive false fs
      → write_entry m writable out (entry_of p (length (data_bytes before)) f) fp d
        ≡ (ok tt, write_file (write_file d out []) out f.content)
  unfolding write_entry finish_write
  write_entry-archive before p fp d split hc =
      rw
        (
          can_write,
          memory (length f.content),
          read_data-archive false fs fits before after f split fp hc p refl,
        )
        refl

  extract_first-archive :
      (before skipped : List InputFile) (fp : Stream) (d : Disk)
      → before ++ (skipped ++ f ∷ after) ≡ fs
      → fp.content ≡ archive false fs
      → All (λ g. length (InputFile.path g) < 1024) (skipped ++ f ∷ after)
      → CleanPaths (skipped ++ f ∷ after)
      → All (λ g. InputFile.path g ≢ f.path) skipped
      → extract_first m writable f.path out
          (archive_header false fs)
          (entries_from false
            (length (path_bytes before))
            (length (data_bytes before))
            (skipped ++ f ∷ after))
          fp
          d
        ≡ (ok tt, write_file (write_file d out []) out f.content)
  unfolding extract_first is_path
  extract_first-archive before [] fp d split hc (short, _) (clean, _) others =
      let dd = length (data_bytes before) in
      let e = entry_of (length (path_bytes before)) dd f in
      rw
        (
          read_path-archive false fs fits before after f split fp hc dd short clean,
          bytes_eq_refl f.path,
        )
        (write_entry-archive before (length (path_bytes before))
          (read_path fp (archive_header false fs) e).1 d split
          (content-read_path fp (archive_header false fs) e ∙ hc))
  extract_first-archive before (g ∷ skipped) fp d split hc (short, shorts) (clean, cleans)
        (other, others) =
      let dd = length (data_bytes before) in
      let e = entry_of (length (path_bytes before)) dd g in
      let fp' = (read_path fp (archive_header false fs) e).1 in
      let not_here : bytes_eq g.path f.path ≡ false = elim (Bool-cases (bytes_eq g.path f.path)) [
        | inl h ↦ absurd (other (bytes_eq→eq g.path f.path h))
        | inr h ↦ h
      ] in
      let one = before ++ g ∷ [] in
      let split' : one ++ (skipped ++ f ∷ after) ≡ fs =
        append_assoc before (g ∷ []) (skipped ++ f ∷ after) ∙ split in
      let rest =
        extract_first-archive one skipped fp' d split'
          (content-read_path fp (archive_header false fs) e ∙ hc) shorts cleans others in
      let at_path : length (path_bytes one) ≡ length (path_bytes before) + length g.path = omega (
        arith,
        ap length (path_bytes-append before (g ∷ [])),
        length-append (path_bytes before) (g.path ++ []),
        length-append g.path [],
      ) in
      let at_content : length (data_bytes one)
          ≡ length (data_bytes before) + length (stored false (g ∷ [])) =
        omega (
          arith,
          ap length (data_bytes-append before (g ∷ [])),
          length-append (data_bytes before) (g.content ++ []),
        ) in
      rw
        (
          read_path-archive false fs fits before (skipped ++ f ∷ after) g split fp hc dd short
              clean,
          not_here,
          sym at_path,
          sym at_content,
        )
        rest

  -- `paf_extract_file` on an archive of `fs`, whose paths have no NUL, with memory and with an
  -- output that can be opened: the return value is 0 and the output then holds the content of the
  -- first file that was added under the path.
  pub paf_extract_file-archive :
      (before : List InputFile) (paf_path : Bytes) (d : Disk)
      → before ++ f ∷ after ≡ fs
      → All (λ g. InputFile.path g ≢ f.path) before
      → CleanPaths fs
      → d.files paf_path ≡ some (archive false fs)
      → paf_extract_file m writable paf_path f.path out d
        ≡ (ok tt, write_file (write_file d out []) out f.content)
  unfolding paf_extract_file extract_first_opened
  paf_extract_file-archive before paf_path d split others clean there =
      let (fp, opened, hc) = open_archive-archive m false fs fits memory in
      let is_there : file_exists_in_archive m d.files paf_path f.path ≡ true =
        (file_exists-archive m false fs fits d.files paf_path memory there clean f.path).1
          (rw (sym split) (Any-middle before after f)) in
      rw (is_there, there, opened)
        (ap
            (λ (gs : List InputFile).
              extract_first m writable f.path out (archive_header false fs)
                (entries_from false 0 0 gs) fp d)
            (sym split)
          ∙ extract_first-archive [] before fp d split hc (rw split fits.paths) (rw split clean)
              others)
