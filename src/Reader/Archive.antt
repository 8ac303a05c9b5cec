-- ===== src/Reader/Archive.antt =====
-- What the readers see in an archive that the generator wrote.
use paf_archive.Prelude.{
  ℕ, ◌+◌, ◌*◌, ◌≤◌, ◌<◌, ◌≡◌, ◌^◌, refl, ap, ap₂, sym, ◌∙◌, arith, Bool, false, List, [], ◌∷◌, ◌++◌,
  length, length-append, append_assoc, append-nil, take, All, some, le→ltb_false, ==_yes,
}
use paf_archive.Words.{Bytes, u64}
use paf_archive.Stdio.{
  Stream, fseek, fread, NoNul, c_string_lem, fseek-fread, content-fseek, content-fread, fread-front,
}
use paf_archive.Format.{
  PafHeader, PafIndexEntry, encode_header, encode_entries, decode_entries, paf_magic, IsEntry,
}
use paf_archive.Format.RoundTrip.{
  length-encode_header, decode_header-encode_header, length-encode_entries,
  decode_entries-encode_entries,
}
use paf_archive.Reader.{
  with_stream, read_header, read_index, read_path, read_data, clamp_length, path_position,
}
use paf_archive.Generator.{InputFile}
use paf_archive.Generator.Spec.{
  data_bytes, path_bytes, stored, entry_of, entries_from, archive, archive_header, Fits,
  archive_header-IsHeader, entries_from-IsEntry, length-entries_from, length-stored-le,
  path_bytes-append, data_bytes-append,
}

abbrev pub header_bytes : Bool → List InputFile → Bytes
header_bytes io fs = encode_header (archive_header io fs)

abbrev pub index_bytes : Bool → List InputFile → Bytes
index_bytes io fs = encode_entries (entries_from io 0 0 fs)

magic-encode_header : (io : Bool) (fs : List InputFile) → take 4 (header_bytes io fs) ≡ paf_magic
unfolding encode_header
magic-encode_header io fs = refl

-- A path read whole from where it stands.
path_read_at :
    (fp : Stream) (header : PafHeader) (e : PafIndexEntry) (pre path post : Bytes)
    → fp.content ≡ pre ++ (path ++ post)
    → header.path_offset + e.path_buffer_offset ≡ length pre
    → length pre < 2 ^ 63
    → e.path_length ≡ length path
    → length path < 1024
    → (fread (fseek fp (path_position header e)) (clamp_length e.path_length)).0 ≡ path
path_read_at fp header e pre path post hc hp room hl short =
    let len : clamp_length e.path_length ≡ length path = ground arith in
    let pos : path_position header e ≡ length pre = omega arith in
    rw (len, pos, fseek-fread fp (length pre) (length path) pre path post hc refl refl room)

pub read_data-at :
    (fp : Stream) (e : PafIndexEntry) (pre file post : Bytes)
    → fp.content ≡ pre ++ (file ++ post)
    → 32 + e.data_offset ≡ length pre
    → length pre < 2 ^ 63
    → e.data_size ≡ length file
    → (read_data fp e).0 ≡ some file
unfolding read_data
read_data-at fp e pre file post hc hp room hl =
    let pos : u64 (32 + e.data_offset) ≡ length pre = omega arith in
    rw (
      hl,
      pos,
      fseek-fread fp (length pre) (length file) pre file post hc refl refl room,
      ==_yes (let r : length file ≡ length file = refl in r),
    )

pub content-read_path :
    (fp : Stream) (header : PafHeader) (e : PafIndexEntry)
    → (read_path fp header e).1.content ≡ fp.content
unfolding read_path
content-read_path fp header e = content-fread _ _ ∙ content-fseek fp _

pub content-read_data : (fp : Stream) (e : PafIndexEntry) → (read_data fp e).1.content ≡ fp.content
unfolding read_data
content-read_data fp e = content-fread _ _ ∙ content-fseek fp _

module _ (io : Bool) (fs : List InputFile) (fits : Fits fs) where
  pub length-header_bytes : length (header_bytes io fs) ≡ 32
  length-header_bytes = length-encode_header _ (archive_header-IsHeader io fs fits)

  entries : All IsEntry (entries_from io 0 0 fs)
  entries =
      entries_from-IsEntry io 0 0 fs (omega (arith, fits.size)) (omega (arith, fits.size))
        fits.paths

  length-index_bytes : length (index_bytes io fs) ≡ length fs * 128
  length-index_bytes =
      length-encode_entries _ entries ∙ ap (λ (n : ℕ). n * 128) (length-entries_from io 0 0 fs)

  room : 32 + length (stored io fs) + length fs * 128 + length (path_bytes fs) < 2 ^ 63
  room = omega (arith, fits.size, length-stored-le io fs)

  -- The header is accepted and read back.
  pub read_header-archive :
      (fp : Stream)
      → fp.content ≡ archive io fs
      → fp.pos ≡ 0
      → (fp' : Stream) × (read_header fp ≡ some (archive_header io fs, fp'))
        × (fp'.content ≡ archive io fs)
  unfolding read_header
  read_header-archive fp hc hp =
      let got = fread-front fp 32 (header_bytes io fs) _ hp hc length-header_bytes in
      (
        (fread fp 32).1,
        rw (
          got,
          le→ltb_false (length (header_bytes io fs)) 32 (omega (arith, length-header_bytes)),
          magic-encode_header io fs,
          decode_header-encode_header _ (archive_header-IsHeader io fs fits),
        ),
        content-fread fp 32 ∙ hc,
      )

  -- What the bytes behind the first 32 say does not depend on those.
  module _ (top : Bytes) (top_size : length top ≡ 32) where
    abbrev pub behind : Bytes
    behind = top ++ (stored io fs ++ (index_bytes io fs ++ path_bytes fs))

    -- The index block is the list of the entries.
    pub read_index-behind :
        (fp : Stream)
        → fp.content ≡ behind
        → (fp' : Stream) × (read_index fp (archive_header io fs)
            ≡ some (entries_from io 0 0 fs, fp'))
          × (fp'.content ≡ behind)
    unfolding read_index
    read_index-behind fp hc =
        let n = length fs in
        let pre = top ++ stored io fs in
        let regroup : fp.content ≡ pre ++ (index_bytes io fs ++ path_bytes fs) =
          hc ∙ sym (append_assoc top (stored io fs) _) in
        let at : length pre ≡ 32 + length (stored io fs) =
          omega (arith, length-append top (stored io fs), top_size) in
        let got =
          fseek-fread fp (32 + length (stored io fs)) (n * 128) pre (index_bytes io fs)
            (path_bytes fs) regroup at length-index_bytes (omega (arith, room)) in
        let entries_read = decode_entries-encode_entries (entries_from io 0 0 fs) [] entries in
        let whole =
          ap (decode_entries n) got
          ∙ ap₂ decode_entries (sym (length-entries_from io 0 0 fs))
              (sym (append-nil (index_bytes io fs)))
          ∙ entries_read in
        let fp' = (fread (fseek fp (32 + length (stored io fs))) (n * 128)).1 in
        (fp', ap (with_stream fp') whole, content-fread _ _ ∙ content-fseek fp _ ∙ hc)

    -- The bytes of the path of a file.
    pub path_read-behind :
        (before after : List InputFile) (f : InputFile)
        → before ++ f ∷ after ≡ fs
        → (fp : Stream) → fp.content ≡ behind
        → (d : ℕ) → length f.path < 1024
        → (fread
            (fseek fp
              (path_position (archive_header io fs) (entry_of (length (path_bytes before)) d f)))
            (clamp_length (length f.path))).0
          ≡ f.path
    path_read-behind before after f split fp hc d short =
        let body = top ++ (stored io fs ++ index_bytes io fs) in
        let pre = body ++ path_bytes before in
        let paths : path_bytes fs ≡ path_bytes before ++ (f.path ++ path_bytes after) =
          ap path_bytes (sym split) ∙ path_bytes-append before (f ∷ after) in
        let regroup : fp.content ≡ pre ++ (f.path ++ path_bytes after) =
          hc
          ∙ ap (λ (t : Bytes). top ++ t)
              (sym (append_assoc (stored io fs) (index_bytes io fs) (path_bytes fs)))
          ∙ sym (append_assoc top (stored io fs ++ index_bytes io fs) (path_bytes fs))
          ∙ ap (λ (t : Bytes). body ++ t) paths
          ∙ sym (append_assoc body (path_bytes before) (f.path ++ path_bytes after)) in
        let at : length pre
            ≡ 32 + length (stored io fs) + length fs * 128 + length (path_bytes before) =
          omega (
            arith,
            length-append body (path_bytes before),
            length-append top (stored io fs ++ index_bytes io fs),
            length-append (stored io fs) (index_bytes io fs),
            top_size,
            length-index_bytes,
          ) in
        let below : length (path_bytes before) ≤ length (path_bytes fs) = omega (
          arith,
          ap length paths,
          length-append (path_bytes before) (f.path ++ path_bytes after),
        ) in
        path_read_at fp (archive_header io fs) (entry_of (length (path_bytes before)) d f) pre
          f.path (path_bytes after) regroup (sym at) (omega (arith, at, below, room)) refl short

  pub read_index-archive :
      (fp : Stream)
      → fp.content ≡ archive io fs
      → (fp' : Stream) × (read_index fp (archive_header io fs) ≡ some (entries_from io 0 0 fs, fp'))
        × (fp'.content ≡ archive io fs)
  read_index-archive fp hc = read_index-behind (header_bytes io fs) length-header_bytes fp hc

  module _ (before after : List InputFile) (f : InputFile) (split : before ++ f ∷ after ≡ fs)
      (fp : Stream) (hc : fp.content ≡ archive io fs) where
    -- The bytes of the path of a file of the archive.
    pub path_read-archive :
        (d : ℕ)
        → length f.path < 1024
        → (fread
            (fseek fp
              (path_position (archive_header io fs) (entry_of (length (path_bytes before)) d f)))
            (clamp_length (length f.path))).0
          ≡ f.path
    path_read-archive d short =
        path_read-behind (header_bytes io fs) length-header_bytes before after f split fp hc d short

    -- Where the path stands fits a 64-bit signed `long`.
    pub path_position-lt :
        (d : ℕ)
        → path_position (archive_header io fs) (entry_of (length (path_bytes before)) d f) < 2 ^ 63
    path_position-lt d =
        let paths : path_bytes fs ≡ path_bytes before ++ (f.path ++ path_bytes after) =
          ap path_bytes (sym split) ∙ path_bytes-append before (f ∷ after) in
        let below : length (path_bytes before) ≤ length (path_bytes fs) = omega (
          arith,
          ap length paths,
          length-append (path_bytes before) (f.path ++ path_bytes after),
        ) in
        omega (arith, below, room)

    -- So does the place of the content.
    pub data_position-lt : u64 (32 + length (data_bytes before)) < 2 ^ 63
    data_position-lt =
        let block : data_bytes fs ≡ data_bytes before ++ (f.content ++ data_bytes after) =
          ap data_bytes (sym split) ∙ data_bytes-append before (f ∷ after) in
        let below : length (data_bytes before) ≤ length (data_bytes fs) = omega (
          arith,
          ap length block,
          length-append (data_bytes before) (f.content ++ data_bytes after),
        ) in
        omega (arith, below, fits.size)

    -- The path of a file of the archive.
    pub read_path-archive :
        (d : ℕ)
        → length f.path < 1024
        → NoNul f.path
        → (read_path fp (archive_header io fs) (entry_of (length (path_bytes before)) d f)).0
          ≡ some f.path
    unfolding read_path
    read_path-archive d short clean =
        let len : clamp_length (length f.path) ≡ length f.path = ground arith in
        rw (
          path_read-archive d short,
          len,
          ==_yes (let r : length f.path ≡ length f.path = refl in r),
          c_string_lem f.path clean,
        )

    -- The content of a file of an archive with a data block.
    pub read_data-archive :
        (p : ℕ)
        → io ≡ false
        → (read_data fp (entry_of p (length (data_bytes before)) f)).0 ≡ some f.content
    read_data-archive p mode =
        let tail = index_bytes io fs ++ path_bytes fs in
        let pre = header_bytes io fs ++ data_bytes before in
        let rest = data_bytes after ++ tail in
        let block : stored io fs ≡ data_bytes before ++ (f.content ++ data_bytes after) =
          rw mode (ap data_bytes (sym split) ∙ data_bytes-append before (f ∷ after)) in
        let regroup : fp.content ≡ pre ++ (f.content ++ rest) =
          hc
          ∙ ap (λ (t : Bytes). header_bytes io fs ++ (t ++ tail)) block
          ∙ ap (λ (t : Bytes). header_bytes io fs ++ t)
              (append_assoc (data_bytes before) (f.content ++ data_bytes after) tail
                ∙ ap (λ (t : Bytes). data_bytes before ++ t)
                    (append_assoc f.content (data_bytes after) tail))
          ∙ sym (append_assoc (header_bytes io fs) (data_bytes before) (f.content ++ rest)) in
        let at : length pre ≡ 32 + length (data_bytes before) =
          omega
            (arith, length-append (header_bytes io fs) (data_bytes before), length-header_bytes) in
        let below : length (data_bytes before) ≤ length (stored io fs) = omega (
          arith,
          ap length block,
          length-append (data_bytes before) (f.content ++ data_bytes after),
        ) in
        read_data-at fp (entry_of p (length (data_bytes before)) f) pre f.content rest regroup
          (sym at) (omega (arith, at, below, room)) refl
