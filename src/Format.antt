-- ===== src/Format.antt =====
-- libpaf/include/paf.h and libpaf.h: the packed header and index entry as they lie in the file, and
-- the entry of a listing.
pub mod RoundTrip
use paf_archive.Prelude.{
  ℕ, zero, suc, ◌+◌, ◌-◌, ◌<◌, ◌≤◌, ◌≡◌, ◌^◌, List, [], ◌∷◌, ◌++◌, length, take, drop, replicate,
  ltb, if◌then◌else◌, Option, none, some, map, All,
}
use paf_archive.Words.{Bytes, le_bytes, le_value, u32_mod, u64_mod}

-- `PAF_MAGIC`, "PAF1".
abbrev pub paf_magic : Bytes
paf_magic = 0x50 ∷ 0x41 ∷ 0x46 ∷ 0x31 ∷ []

abbrev pub paf_version : ℕ
paf_version = 2

abbrev pub paf_flag_index_only : ℕ
paf_flag_index_only = 0x02

abbrev pub paf_entry_deleted : ℕ
paf_entry_deleted = 0x04

abbrev pub paf_entry_binary_delta : ℕ
paf_entry_binary_delta = 0x08

-- `paf_header_t`
pub record PafHeader : Type 0 where
  pub magic : Bytes
  pub version : ℕ
  pub flags : ℕ
  pub file_count : ℕ
  pub index_offset : ℕ
  pub path_offset : ℕ

-- `paf_index_entry_t`
pub record PafIndexEntry : Type 0 where
  pub path_buffer_offset : ℕ
  pub path_length : ℕ
  pub flags : ℕ
  pub data_offset : ℕ
  pub data_size : ℕ
  pub hash : Bytes
  pub reserved : Bytes

-- `PafEntry`; `path` is the string in the 1024-byte buffer, `hash` has 32 bytes.
pub record PafEntry : Type 0 where
  pub path : Bytes
  pub size : ℕ
  pub offset : ℕ
  pub hash : Bytes

-- `sizeof(paf_header_t)` and `sizeof(paf_index_entry_t)`
abbrev pub header_size : ℕ
header_size = 32

abbrev pub entry_size : ℕ
entry_size = 128

-- What `fwrite(&header, sizeof(header), 1, out)` writes.
unfoldable pub encode_header : PafHeader → Bytes
encode_header h =
    h.magic
    ++ (le_bytes 4 h.version
        ++ (le_bytes 4 h.flags
            ++ (le_bytes 4 h.file_count
                ++ (le_bytes 8 h.index_offset ++ le_bytes 8 h.path_offset))))

-- What a `paf_header_t` holds after `fread` of 32 bytes.
unfoldable pub decode_header : Bytes → PafHeader
decode_header b = record {
  magic = take 4 b;
  version = le_value (take 4 (drop 4 b));
  flags = le_value (take 4 (drop 8 b));
  file_count = le_value (take 4 (drop 12 b));
  index_offset = le_value (take 8 (drop 16 b));
  path_offset = le_value (take 8 (drop 24 b));
}

unfoldable pub encode_entry : PafIndexEntry → Bytes
encode_entry e =
    le_bytes 8 e.path_buffer_offset
    ++ (le_bytes 4 e.path_length
        ++ (le_bytes 4 e.flags
            ++ (le_bytes 8 e.data_offset ++ (le_bytes 8 e.data_size ++ (e.hash ++ e.reserved)))))

unfoldable pub decode_entry : Bytes → PafIndexEntry
decode_entry b = record {
  path_buffer_offset = le_value (take 8 b);
  path_length = le_value (take 4 (drop 8 b));
  flags = le_value (take 4 (drop 12 b));
  data_offset = le_value (take 8 (drop 16 b));
  data_size = le_value (take 8 (drop 24 b));
  hash = take 64 (drop 32 b);
  reserved = take 32 (drop 96 b);
}

abbrev pub cons_some {ℓ} : {A : Type ℓ} → A → Option (List A) → Option (List A)
cons_some a none = none
cons_some a (some xs) = some (a ∷ xs)

-- The array that `fread(idx, sizeof(paf_index_entry_t), n, fp)` fills, where it read them all.
unfoldable pub decode_entries : ℕ → Bytes → Option (List PafIndexEntry)
decode_entries zero b = some []
decode_entries (suc n) b =
    let rest = cons_some (decode_entry (take 128 b)) (decode_entries n (drop 128 b)) in
    if ltb (length b) 128 then none else rest

-- The index block of a list of entries.
unfoldable pub encode_entries : List PafIndexEntry → Bytes
encode_entries [] = []
encode_entries (e ∷ es) = encode_entry e ++ encode_entries es

-- Every field fits its C type.
pub record IsHeader (h : PafHeader) : Type 0 where
  pub magic_size : length h.magic ≡ 4
  pub version_fits : h.version < u32_mod
  pub flags_fits : h.flags < u32_mod
  pub file_count_fits : h.file_count < u32_mod
  pub index_offset_fits : h.index_offset < u64_mod
  pub path_offset_fits : h.path_offset < u64_mod

pub record IsEntry (e : PafIndexEntry) : Type 0 where
  pub path_buffer_offset_fits : e.path_buffer_offset < u64_mod
  pub path_length_fits : e.path_length < u32_mod
  pub flags_fits : e.flags < u32_mod
  pub data_offset_fits : e.data_offset < u64_mod
  pub data_size_fits : e.data_size < u64_mod
  pub hash_size : length e.hash ≡ 64
  pub reserved_size : length e.reserved ≡ 32
