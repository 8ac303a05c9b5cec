-- ===== src/Extractor/Archive.antt =====
-- libpaf/src/paf_extractor.c on an archive that the generator wrote.
use paf_archive.Prelude.{
  ℕ, ◌*◌, ◌<◌, ◌≤◌, ◌≡◌, ◌^◌, refl, ap, ap₂, sym, ◌∙◌, arith, true, false, List, ◌∷◌, ◌++◌, length,
  leb, ==_yes, Option, none, some, get_elem?, le→ltb_false,
}
use paf_archive.Words.{Bytes}
use paf_archive.Stdio.{
  Machine, Files, Stream, open_stream, fseek, fread, NoNul, c_string_lem, content-fread,
  content-fseek,
}
use paf_archive.Sha256.{Sha256Path}
use paf_archive.Format.{PafHeader, PafIndexEntry}
use paf_archive.Reader.{ok, path_position, clamp_length}
use paf_archive.Reader.Archive.{
  read_header-archive, read_index-archive, path_read-archive, read_data-archive,
}
use paf_archive.Reader.Entries.{at_index}
use paf_archive.Parallel.Hash.{get_elem-lt}
use paf_archive.Generator.{InputFile}
use paf_archive.Generator.Spec.{
  data_bytes, path_bytes, entry_of, entries_from, archive, archive_header, Fits,
}
use paf_archive.Paths.{is_safe_path}
use paf_archive.Extractor.{
  PafExtractor, open_entries, open_checked, open_bytes, paf_extractor_open, finish_get, get_content,
  is_there, get_named, get_entry, paf_extractor_get_file,
}

module _ (m : Machine) (fs : List InputFile) (fits : Fits fs)
    (memory : (n : ℕ) → m.malloc n ≡ true) where
  -- With memory, the archive of at most a million files, which fit it, opens with its header and the
  -- entries of its files, and the stream reads its bytes.
  pub paf_extractor_open-archive :
      (files : Files) (path : Bytes)
      → length fs ≤ 1000000
      → files path ≡ some (archive false fs)
      → (ext : PafExtractor) × (paf_extractor_open m files path ≡ ok ext)
        × (ext.header ≡ archive_header false fs)
        × (ext.entries ≡ entries_from false 0 0 fs)
        × (ext.fp.content ≡ archive false fs)
  unfolding paf_extractor_open open_bytes open_checked open_entries
  paf_extractor_open-archive files path few there =
      let (fp, header, hc) =
        read_header-archive false fs fits (open_stream (archive false fs)) refl refl in
      let (fp', index, hc') = read_index-archive false fs fits fp hc in
      (
        record { fp = fp'; header = archive_header false fs; entries = entries_from false 0 0 fs },
        rw (there, header, le→ltb_false 1000000 (length fs) few, memory (128 * length fs), index)
            refl,
        refl,
        refl,
        hc',
      )

  module _ (hasher : Sha256Path) (junk : Bytes) (files : Files) where
    get_content-archive :
        (before after : List InputFile) (f : InputFile) (fp : Stream) (p : ℕ)
        → before ++ f ∷ after ≡ fs
        → fp.content ≡ archive false fs
        → length f.content < 2 ^ 31
        → (get_content m (entry_of p (length (data_bytes before)) f) f.path fp).0
          ≡ ok (record { path = f.path; content = some f.content })
    unfolding get_content finish_get
    get_content-archive before after f fp p split hc small =
        rw
          (
            le→ltb_false 0x7fffffff (length f.content) (omega arith),
            memory (length f.content),
            read_data-archive false fs fits before after f split fp hc p refl,
          )
          refl

    get_entry-archive :
        (before after : List InputFile) (f : InputFile) (fp : Stream) (path_max : ℕ)
        → before ++ f ∷ after ≡ fs
        → fp.content ≡ archive false fs
        → length f.path < path_max
        → length f.path < 1024
        → NoNul f.path
        → is_safe_path f.path ≡ true
        → files f.path ≡ none
        → length f.content < 2 ^ 31
        → (get_entry m hasher junk files
            (archive_header false fs)
            path_max
            (some (entry_of (length (path_bytes before)) (length (data_bytes before)) f))
            fp).0
          ≡ ok (record { path = f.path; content = some f.content })
    unfolding get_entry get_named is_there
    get_entry-archive before after f fp path_max split hc room short clean safe absent small =
        let dd = length (data_bytes before) in
        let e = entry_of (length (path_bytes before)) dd f in
        let s = fseek fp (path_position (archive_header false fs) e) in
        let len : clamp_length (length f.path) ≡ length f.path = ground arith in
        let got : (fread s (length f.path)).0 ≡ f.path =
          ap (λ (n : ℕ). (fread s n).0) (sym len)
          ∙ path_read-archive false fs fits before after f split fp hc dd short in
        let fits_buffer : leb path_max (length f.path) ≡ false = ground arith in
        rw
          (
            fits_buffer,
            got,
            ==_yes (let r : length f.path ≡ length f.path = refl in r),
            c_string_lem f.path clean,
            safe,
            absent,
          )
          (get_content-archive before after f (fread s (length f.path)).1
            (length (path_bytes before)) split
            (content-fread s (length f.path)
              ∙ content-fseek fp (path_position (archive_header false fs) e)
              ∙ hc)
            small)

    -- The extractor of an archive of files that fit it, with memory, gives the file with a number its
    -- path and its content, if the path is clean, safe and shorter than the buffer, the content is
    -- smaller than 2 GB, and no such file is there yet.
    pub paf_extractor_get_file-archive :
        (ext : PafExtractor) (index path_max : ℕ) (f : InputFile)
        → ext.header ≡ archive_header false fs
        → ext.entries ≡ entries_from false 0 0 fs
        → ext.fp.content ≡ archive false fs
        → get_elem? fs index ≡ some f
        → length f.path < path_max
        → length f.path < 1024
        → NoNul f.path
        → is_safe_path f.path ≡ true
        → files f.path ≡ none
        → length f.content < 2 ^ 31
        → (paf_extractor_get_file m hasher junk files ext index path_max).0
          ≡ ok (record { path = f.path; content = some f.content })
    unfolding paf_extractor_get_file
    paf_extractor_get_file-archive ext index path_max f eh ee hc there room short clean safe absent
          small =
        let a = at_index 0 0 fs index f there in
        let below = get_elem-lt fs index f there in
        let count : ext.header.file_count ≡ length fs = ap (λ (h : PafHeader). h.file_count) eh in
        let inside : leb ext.header.file_count index ≡ false =
          inside_lem ext.header.file_count (length fs) index count below in
        let entry : get_elem? ext.entries index
            ≡ some (entry_of (length (path_bytes a.before)) (length (data_bytes a.before)) f) =
          ap (λ (es : List PafIndexEntry). get_elem? es index) ee
          ∙ a.entry
          ∙ ap some (ap₂ (λ (p q : ℕ). entry_of p q f) (omega arith) (omega arith)) in
        rw inside (
          ap₂
            (λ (h : PafHeader) (e : Option PafIndexEntry).
              (get_entry m hasher junk files h path_max e ext.fp).0)
            eh entry
          ∙ get_entry-archive a.before a.after f ext.fp path_max a.split hc room short clean safe
              absent small)
      where
        inside_lem : (c n i : ℕ) → c ≡ n → i < n → leb c i ≡ false
        inside_lem c n i e h = ground arith
