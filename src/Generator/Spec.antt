-- ===== src/Generator/Spec.antt =====
-- What libpaf/src/paf_generator.c promises: the archive of a list of files, with no batches, no
-- temporary files and no counters.
use paf_archive.Prelude.{
  ℕ, suc, ◌+◌, ◌*◌, ◌≤◌, ◌<◌, ◌≡◌, ◌^◌, refl, ap, ap₂, sym, ◌∙◌, arith, List, [], ◌∷◌, ◌++◌, length,
  replicate, Bool, true, false, All, append_assoc, length-append,
}
use paf_archive.Words.{Bytes}
use paf_archive.Sha256.{sha256}
use paf_archive.Sha256.Padding.{length-sha256}
use paf_archive.Generator.{InputFile}
use paf_archive.Format.{
  PafHeader, PafIndexEntry, encode_header, encode_entries, encode_entry, paf_magic, paf_version,
  IsEntry, IsHeader,
}

abbrev pub data_bytes : List InputFile → Bytes
data_bytes [] = []
data_bytes (f ∷ fs) = f.content ++ data_bytes fs

abbrev pub path_bytes : List InputFile → Bytes
path_bytes [] = []
path_bytes (f ∷ fs) = f.path ++ path_bytes fs

-- The data block: none in an index-only archive.
abbrev pub stored : Bool → List InputFile → Bytes
stored true fs = []
stored false fs = data_bytes fs

abbrev pub entry_of : ℕ → ℕ → InputFile → PafIndexEntry
entry_of p d f = record {
  path_buffer_offset = p;
  path_length = length f.path;
  flags = 0;
  data_offset = d;
  data_size = length f.content;
  hash = sha256 f.content ++ replicate 32 0;
  reserved = replicate 32 0;
}

-- The index entries, from an offset in the path buffer and one in the data block.
abbrev pub entries_from : Bool → ℕ → ℕ → List InputFile → List PafIndexEntry
entries_from io p d [] = []
entries_from io p d (f ∷ fs) =
    entry_of p d f ∷ entries_from io (p + length f.path) (d + length (stored io (f ∷ []))) fs

abbrev pub header_flags : Bool → ℕ
header_flags true = 0x02
header_flags false = 0

abbrev pub archive_header : Bool → List InputFile → PafHeader
archive_header io fs = record {
  magic = paf_magic;
  version = paf_version;
  flags = header_flags io;
  file_count = length fs;
  index_offset = 32 + length (stored io fs);
  path_offset = 32 + length (stored io fs) + length fs * 128;
}

-- header, data block, index block, path buffer
abbrev pub archive : Bool → List InputFile → Bytes
archive io fs =
    encode_header (archive_header io fs)
    ++ (stored io fs ++ (encode_entries (entries_from io 0 0 fs) ++ path_bytes fs))

-- The archive stays below 2 ^ 63 bytes, has fewer than 2 ^ 32 files, and paths of less than 1024 bytes.
pub record Fits (fs : List InputFile) : Type 0 where
  pub count : length fs < 2 ^ 32
  pub size : 32 + length (data_bytes fs) + length fs * 128 + length (path_bytes fs) < 2 ^ 63
  pub paths : All (λ f. length (InputFile.path f) < 1024) fs

pub data_bytes-append :
    (fs gs : List InputFile) → data_bytes (fs ++ gs) ≡ data_bytes fs ++ data_bytes gs
data_bytes-append [] gs = refl
data_bytes-append (f ∷ fs) gs =
    ap (λ (t : Bytes). f.content ++ t) (data_bytes-append fs gs)
    ∙ sym (append_assoc f.content (data_bytes fs) (data_bytes gs))

pub path_bytes-append :
    (fs gs : List InputFile) → path_bytes (fs ++ gs) ≡ path_bytes fs ++ path_bytes gs
path_bytes-append [] gs = refl
path_bytes-append (f ∷ fs) gs =
    ap (λ (t : Bytes). f.path ++ t) (path_bytes-append fs gs)
    ∙ sym (append_assoc f.path (path_bytes fs) (path_bytes gs))

pub stored-append :
    (io : Bool) (fs gs : List InputFile) → stored io (fs ++ gs) ≡ stored io fs ++ stored io gs
stored-append true fs gs = refl
stored-append false fs gs = data_bytes-append fs gs

pub length-stored-le :
    (io : Bool) (fs : List InputFile) → length (stored io fs) ≤ length (data_bytes fs)
length-stored-le true fs = omega arith
length-stored-le false fs = omega arith

pub length-stored_cons :
    (io : Bool) (f : InputFile) (fs : List InputFile)
    → length (stored io (f ∷ fs)) ≡ length (stored io (f ∷ [])) + length (stored io fs)
length-stored_cons io f fs =
    rw (stored-append io (f ∷ []) fs) (length-append (stored io (f ∷ [])) _)

pub length-stored-nil : (io : Bool) → length (stored io []) ≡ 0
length-stored-nil true = refl
length-stored-nil false = refl

entries_at :
    (io : Bool) {p p' d d' : ℕ} (fs : List InputFile)
    → p ≡ p'
    → d ≡ d'
    → entries_from io p d fs ≡ entries_from io p' d' fs
entries_at io fs e e' = ap₂ (λ (a b : ℕ). entries_from io a b fs) e e'

pub entries_from-append :
    (io : Bool) (p d : ℕ) (fs gs : List InputFile)
    → entries_from io p d (fs ++ gs)
      ≡ entries_from io p d fs
        ++ entries_from io (p + length (path_bytes fs)) (d + length (stored io fs)) gs
entries_from-append io p d [] gs =
    entries_at io gs (omega arith) (omega (arith, length-stored-nil io))
entries_from-append io p d (f ∷ fs) gs =
    let p' = p + length f.path in
    let d' = d + length (stored io (f ∷ [])) in
    ap (λ (t : List PafIndexEntry). entry_of p d f ∷ t)
      (entries_from-append io p' d' fs gs
        ∙ ap (λ (t : List PafIndexEntry). entries_from io p' d' fs ++ t)
            (entries_at io gs (omega (arith, length-append f.path (path_bytes fs)))
              (omega (arith, length-stored_cons io f fs))))

pub encode_entries-append :
    (es es' : List PafIndexEntry)
    → encode_entries (es ++ es') ≡ encode_entries es ++ encode_entries es'
unfolding encode_entries
encode_entries-append [] es' = refl
encode_entries-append (e ∷ es) es' =
    ap (λ (t : Bytes). encode_entry e ++ t) (encode_entries-append es es')
    ∙ sym (append_assoc (encode_entry e) (encode_entries es) (encode_entries es'))

pub length-entries_from :
    (io : Bool) (p d : ℕ) (fs : List InputFile) → length (entries_from io p d fs) ≡ length fs
length-entries_from io p d [] = refl
length-entries_from io p d (f ∷ fs) =
    ap suc (length-entries_from io (p + length f.path) (d + length (stored io (f ∷ []))) fs)

-- Every entry of the archive fits its fields.
pub entries_from-IsEntry :
    (io : Bool) (p d : ℕ) (fs : List InputFile)
    → p + length (path_bytes fs) < 2 ^ 63
    → d + length (data_bytes fs) < 2 ^ 63
    → All (λ f. length (InputFile.path f) < 1024) fs
    → All IsEntry (entries_from io p d fs)
entries_from-IsEntry io p d [] hp hd h = tt
entries_from-IsEntry io p d (f ∷ fs) hp hd (short, h) =
    let lp = length-append f.path (path_bytes fs) in
    let ld = length-append f.content (data_bytes fs) in
    (
      record {
        path_buffer_offset_fits = omega (arith, lp);
        path_length_fits = omega arith;
        flags_fits = omega arith;
        data_offset_fits = omega (arith, ld);
        data_size_fits = omega (arith, ld);
        hash_size =
            omega
              (arith, length-append (sha256 f.content) (replicate 32 0), length-sha256 f.content);
        reserved_size = refl;
      },
      entries_from-IsEntry io (p + length f.path) (d + length (stored io (f ∷ []))) fs
          (omega (arith, lp))
          (omega (arith, ld, length-stored-le io (f ∷ []), length-append f.content [])) h,
    )

header_flags-lt : (io : Bool) → header_flags io < 2 ^ 32
header_flags-lt true = omega arith
header_flags-lt false = omega arith

pub archive_header-IsHeader :
    (io : Bool) (fs : List InputFile) → Fits fs → IsHeader (archive_header io fs)
archive_header-IsHeader io fs h =
    let le = length-stored-le io fs in
    record {
      magic_size = refl;
      version_fits = omega arith;
      flags_fits = header_flags-lt io;
      file_count_fits = omega (arith, h.count);
      index_offset_fits = omega (arith, h.size, le);
      path_offset_fits = omega (arith, h.size, le);
    }
