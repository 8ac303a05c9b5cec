-- ===== src/Listing/Export/Whole.antt =====
-- `paf_export_index` of libpaf/src/libpaf_list.c on an archive that the generator wrote.
use paf_archive.Prelude.{
  ℕ, ◌+◌, ◌-◌, ◌*◌, ◌^◌, ◌<◌, ◌≤◌, ◌≡◌, refl, ap, ap₂, sym, ◌∙◌, arith, true, false, List, [], ◌∷◌,
  ◌++◌, length, take, ltb, ◌==◌, some, append_assoc, append-nil, length-append, ==_yes, lt→ltb,
  le→ltb_false,
}
use paf_archive.Words.{Bytes, u64}
use paf_archive.Stdio.{
  Machine, Files, Stream, open_stream, fseek, fread, junk_bytes, fread-front, fseek-fread,
  content-fread,
}
use paf_archive.Format.{
  PafHeader, PafIndexEntry, encode_header, encode_entry, encode_entries, paf_magic,
  paf_flag_index_only, IsEntry,
}
use paf_archive.Format.RoundTrip.{
  length-encode_header, decode_header-encode_header, length-encode_entry, decode_entry-encode_entry,
  length-encode_entries,
}
use paf_archive.Reader.{ok}
use paf_archive.Generator.{InputFile}
use paf_archive.Generator.Files.{Fits-append_left, All-append_right}
use paf_archive.Generator.Spec.{
  data_bytes, path_bytes, stored, entry_of, entries_from, archive, archive_header, Fits,
  archive_header-IsHeader, entries_from-IsEntry, length-entries_from, path_bytes-append,
  data_bytes-append, entries_from-append, encode_entries-append,
}
use paf_archive.Listing.Export.{
  index_end, path_end, later, end_from, metadata_end, metadata_block, exported, export_bytes,
  export_file, paf_export_index,
}

later_lem : (a b n : ℕ) → a ≤ b → b ≡ n → later a b ≡ n
later_lem a b n h e = rw (le→ltb_false b a h) e

module _ (m : Machine) (before : List InputFile) (f : InputFile)
    (fits : Fits (before ++ f ∷ [])) where
  abbrev fs : List InputFile
  fs = before ++ f ∷ []

  abbrev header : PafHeader
  header = archive_header false fs

  -- everything behind the header
  abbrev body : Bytes
  body = stored false fs ++ (encode_entries (entries_from false 0 0 fs) ++ path_bytes fs)

  abbrev last : PafIndexEntry
  last = entry_of (length (path_bytes before)) (length (data_bytes before)) f

  entries : entries_from false 0 0 fs ≡ entries_from false 0 0 before ++ last ∷ []
  entries =
      entries_from-append false 0 0 before (f ∷ [])
      ∙ ap (λ (e : PafIndexEntry). entries_from false 0 0 before ++ e ∷ [])
          (ap₂ (λ (p d : ℕ). entry_of p d f) (omega arith) (omega arith))

  Fits-before : Fits before
  Fits-before = Fits-append_left before (f ∷ []) fits

  data_size : length (data_bytes fs) ≡ length (data_bytes before) + length f.content
  data_size = omega (
    arith,
    ap length (data_bytes-append before (f ∷ [])),
    length-append (data_bytes before) (f.content ++ []),
    length-append f.content [],
  )

  path_size : length (path_bytes fs) ≡ length (path_bytes before) + length f.path
  path_size = omega (
    arith,
    ap length (path_bytes-append before (f ∷ [])),
    length-append (path_bytes before) (f.path ++ []),
    length-append f.path [],
  )

  count : length fs ≡ length before + 1
  count = omega (arith, length-append before (f ∷ []))

  last-IsEntry : IsEntry last
  last-IsEntry =
      (entries_from-IsEntry false (length (path_bytes before)) (length (data_bytes before)) (f ∷ [])
        (omega (arith, fits.size, path_size, length-append f.path []))
        (omega (arith, fits.size, data_size, length-append f.content []))
        (All-append_right (λ g. length (InputFile.path g) < 1024) before (f ∷ []) fits.paths)).0

  entries_before : length (encode_entries (entries_from false 0 0 before)) ≡ length before * 128
  entries_before =
      length-encode_entries (entries_from false 0 0 before) (
        entries_from-IsEntry false 0 0 before (omega (arith, Fits-before.size))
          (omega (arith, Fits-before.size)) Fits-before.paths)
      ∙ ap (λ (n : ℕ). n * 128) (length-entries_from false 0 0 before)

  header_size : length (encode_header header) ≡ 32
  header_size = length-encode_header header (archive_header-IsHeader false fs fits)

  magic_first : take 4 (encode_header header) ≡ paf_magic
  unfolding encode_header
  magic_first = refl

  index_split :
      encode_entries (entries_from false 0 0 fs)
      ≡ encode_entries (entries_from false 0 0 before) ++ encode_entry last
  unfolding encode_entries
  index_split =
      ap encode_entries entries
      ∙ encode_entries-append (entries_from false 0 0 before) (last ∷ [])
      ∙ ap (λ (t : Bytes). encode_entries (entries_from false 0 0 before) ++ t)
          (append-nil (encode_entry last))

  read_last :
      (fp : Stream)
      → fp.content ≡ archive false fs
      → (fread (fseek fp (u64 (header.index_offset + (header.file_count - 1) * 128))) 128).0
        ≡ encode_entry last
  read_last fp hc =
      let start = encode_header header ++ stored false fs in
      let some_entries = encode_entries (entries_from false 0 0 before) in
      let pre = start ++ some_entries in
      let regroup : fp.content ≡ pre ++ (encode_entry last ++ path_bytes fs) =
        hc
        ∙ ap (λ (t : Bytes). encode_header header ++ (stored false fs ++ (t ++ path_bytes fs)))
            index_split
        ∙ sym (
            append_assoc (encode_header header) (stored false fs)
              ((some_entries ++ encode_entry last) ++ path_bytes fs))
        ∙ ap (λ (t : Bytes). start ++ t)
            (append_assoc some_entries (encode_entry last) (path_bytes fs))
        ∙ sym (append_assoc start some_entries (encode_entry last ++ path_bytes fs)) in
      let at : length pre ≡ 32 + length (data_bytes fs) + (length fs - 1) * 128 = omega (
        arith,
        length-append start some_entries,
        length-append (encode_header header) (stored false fs),
        header_size,
        entries_before,
        count,
      ) in
      let place : u64 (32 + length (data_bytes fs) + (length fs - 1) * 128) ≡ length pre =
        omega (arith, at, fits.size) in
      rw place (
        fseek-fread fp (length pre) 128 pre (encode_entry last) (path_bytes fs) regroup refl
          (length-encode_entry last last-IsEntry) (omega (arith, at, fits.size)))

  body_size : length body ≡ length (data_bytes fs) + length fs * 128 + length (path_bytes fs)
  body_size = omega (
    arith,
    length-append (stored false fs) (encode_entries (entries_from false 0 0 fs) ++ path_bytes fs),
    length-append (encode_entries (entries_from false 0 0 fs)) (path_bytes fs),
    ap length index_split,
    length-append (encode_entries (entries_from false 0 0 before)) (encode_entry last),
    entries_before,
    length-encode_entry last last-IsEntry,
    count,
  )

  metadata_end-archive :
      (fp : Stream) → fp.content ≡ archive false fs → metadata_end header fp ≡ 32 + length body
  unfolding metadata_end end_from
  metadata_end-archive fp hc =
      let many : ltb 0 (length fs) ≡ true = lt→ltb 0 (length fs) (omega (arith, count)) in
      let size : (length (encode_entry last) == 128) ≡ true =
        ==_yes (length-encode_entry last last-IsEntry) in
      rw (many, read_last fp hc, size, decode_entry-encode_entry last last-IsEntry)
        (later_lem (index_end header) (path_end header last) (32 + length body)
          (omega (arith, fits.size, path_size)) (omega (arith, fits.size, path_size, body_size)))

  -- `paf_export_index`, with memory and an output that can be opened, of an archive of at least one
  -- file that fits it: the return value is 0, and the output holds the archive with all its data and
  -- with the flag of an index-only archive in its header.
  pub paf_export_index-archive :
      (files : Files) (paf_path : Bytes)
      → ((n : ℕ) → m.malloc n ≡ true)
      → files paf_path ≡ some (archive false fs)
      → paf_export_index m true files paf_path
        ≡ ok (encode_header (record header { flags = paf_flag_index_only }) ++ body)
  unfolding paf_export_index export_file export_bytes exported metadata_block junk_bytes
  paf_export_index-archive files paf_path memory there =
      let b = archive false fs in
      let start =
        fread-front (open_stream b) 32 (encode_header header) body refl refl header_size in
      let fp = (fread (open_stream b) 32).1 in
      let long : ltb (length (encode_header header)) 32 ≡ false =
        le→ltb_false (length (encode_header header)) 32 (omega (arith, header_size)) in
      let hc : fp.content ≡ b = content-fread (open_stream b) 32 in
      let n = length body in
      let size : u64 (metadata_end header fp + (2 ^ 64 - 32)) ≡ n =
        omega (arith, metadata_end-archive fp hc, body_size, fits.size) in
      let got : (fread (fseek fp 32) n).0 ≡ body =
        fseek-fread fp 32 n (encode_header header) body []
          (hc ∙ ap (λ (t : Bytes). encode_header header ++ t) (sym (append-nil body))) header_size
          refl (omega arith) in
      let some_bytes : ltb 0 n ≡ true = lt→ltb 0 n (omega (arith, body_size, count)) in
      let none_missing : n - n ≡ 0 = omega arith in
      rw
        (
          there,
          start,
          long,
          magic_first,
          decode_header-encode_header header (archive_header-IsHeader false fs fits),
          size,
          got,
          some_bytes,
          memory n,
          none_missing,
          append-nil body,
        )
        refl
