-- ===== src/Create/Layout.antt =====
-- What `paf_create_patch` of libpaf/src/libpaf_core.c writes for a delta: a patch as a list of items,
-- with no temporary files and no counters.
use paf_archive.Prelude.{
  ℕ, ◌+◌, ◌*◌, ◌<◌, ◌^◌, ◌≡◌, refl, ap, ap₂, sym, ◌∙◌, arith, List, [], ◌∷◌, ◌++◌, length,
  replicate, All, Option, none, some, append_assoc, length-append,
}
use paf_archive.Words.{Bytes}
use paf_archive.Stdio.{Files}
use paf_archive.Format.{
  PafHeader, PafIndexEntry, encode_header, encode_entries, paf_magic, paf_version,
  paf_entry_deleted,
}
use paf_archive.BinaryDelta.{and_then}
use paf_archive.Delta.{PafDeltaEntry}
use paf_archive.Create.Patching.{
  PatchMaking, PatchPart, deletion, content, failure, part_of, empty_patch,
}

-- An entry of a patch with its data; `hash` has 64 bytes.
pub record PatchItem : Type 0 where
  pub path : Bytes
  pub flags : ℕ
  pub payload : Bytes
  pub hash : Bytes

abbrev pub payloads : List PatchItem → Bytes
payloads [] = []
payloads (t ∷ ts) = t.payload ++ payloads ts

abbrev pub item_paths : List PatchItem → Bytes
item_paths [] = []
item_paths (t ∷ ts) = t.path ++ item_paths ts

abbrev pub item_entry : ℕ → ℕ → PatchItem → PafIndexEntry
item_entry p d t = record {
  path_buffer_offset = p;
  path_length = length t.path;
  flags = t.flags;
  data_offset = d;
  data_size = length t.payload;
  hash = t.hash;
  reserved = replicate 32 0;
}

abbrev pub item_entries : ℕ → ℕ → List PatchItem → List PafIndexEntry
item_entries p d [] = []
item_entries p d (t ∷ ts) =
    item_entry p d t ∷ item_entries (p + length t.path) (d + length t.payload) ts

abbrev pub items_header : List PatchItem → PafHeader
items_header ts = record {
  magic = paf_magic;
  version = paf_version;
  flags = 0;
  file_count = length ts;
  index_offset = 32 + length (payloads ts);
  path_offset = 32 + length (payloads ts) + length ts * 128;
}

-- header, data block, index block, path buffer
abbrev pub patch_archive : List PatchItem → Bytes
patch_archive ts =
    encode_header (items_header ts)
    ++ (payloads ts ++ (encode_entries (item_entries 0 0 ts) ++ item_paths ts))

-- The patch stays below 2 ^ 63 bytes, has fewer than 2 ^ 32 entries, and paths of less than 1024 bytes.
pub record FitsPatch (ts : List PatchItem) : Type 0 where
  pub count : length ts < 2 ^ 32
  pub size : 32 + length (payloads ts) + length ts * 128 + length (item_paths ts) < 2 ^ 63
  pub paths : All (λ t. length (PatchItem.path t) < 1024) ts

-- What a part comes to; there is no item for an error.
unfoldable pub item_of : Bytes → PatchPart → Option PatchItem
item_of path deletion =
    some (record { path = path; flags = paf_entry_deleted; payload = []; hash = replicate 64 0 })
item_of path (content flags payload hash) =
    some (record { path = path; flags = flags; payload = payload; hash = hash ++ replicate 32 0 })
item_of path failure = none

unfoldable pub items_of : Files → Bytes → Bytes → List PafDeltaEntry → Option (List PatchItem)
items_of files old_dir new_dir [] = some []
items_of files old_dir new_dir (e ∷ es) =
    and_then (part_of files old_dir new_dir e) λ (p : PatchPart).
      and_then (item_of e.path p) λ (t : PatchItem).
        and_then (items_of files old_dir new_dir es) λ (ts : List PatchItem). some (t ∷ ts)

-- The temporary files and the counters hold these items.
pub record Holds (ts : List PatchItem) (s : PatchMaking) : Type 0 where
  pub data_block : s.data_tmp ≡ payloads ts
  pub index_block : s.index_tmp ≡ encode_entries (item_entries 0 0 ts)
  pub path_block : s.path_tmp ≡ item_paths ts
  pub data_at : s.data_offset ≡ length (payloads ts)
  pub path_at : s.path_offset ≡ length (item_paths ts)
  pub count : s.file_count ≡ length ts
  pub no_error : s.errors ≡ 0

pub empty_patch-Holds : Holds [] empty_patch
unfolding empty_patch encode_entries
empty_patch-Holds = record {
  data_block = refl;
  index_block = refl;
  path_block = refl;
  data_at = refl;
  path_at = refl;
  count = refl;
  no_error = refl;
}

pub payloads-append : (ts us : List PatchItem) → payloads (ts ++ us) ≡ payloads ts ++ payloads us
payloads-append [] us = refl
payloads-append (t ∷ ts) us =
    ap (λ (x : Bytes). t.payload ++ x) (payloads-append ts us)
    ∙ sym (append_assoc t.payload (payloads ts) (payloads us))

pub item_paths-append :
    (ts us : List PatchItem) → item_paths (ts ++ us) ≡ item_paths ts ++ item_paths us
item_paths-append [] us = refl
item_paths-append (t ∷ ts) us =
    ap (λ (x : Bytes). t.path ++ x) (item_paths-append ts us)
    ∙ sym (append_assoc t.path (item_paths ts) (item_paths us))

pub item_entries-append :
    (p d : ℕ) (ts us : List PatchItem)
    → item_entries p d (ts ++ us)
      ≡ item_entries p d ts
        ++ item_entries (p + length (item_paths ts)) (d + length (payloads ts)) us
item_entries-append p d [] us = ap₂ (λ (a b : ℕ). item_entries a b us) (omega arith) (omega arith)
item_entries-append p d (t ∷ ts) us =
    ap (λ (es : List PafIndexEntry). item_entry p d t ∷ es)
      (item_entries-append (p + length t.path) (d + length t.payload) ts us
        ∙ ap₂
            (λ (a b : ℕ).
              item_entries (p + length t.path) (d + length t.payload) ts ++ item_entries a b us)
            (omega (arith, length-append t.path (item_paths ts)))
            (omega (arith, length-append t.payload (payloads ts))))
