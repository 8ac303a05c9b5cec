-- ===== src/Create/Patching.antt =====
-- `paf_create_patch` of libpaf/src/libpaf_core.c: what has changed from one directory to another, as
-- an archive whose entries are new files, binary deltas and deletions.
use paf_archive.Prelude.{
  ℕ, zero, suc, ◌+◌, ◌*◌, Bool, false, List, [], ◌∷◌, ◌++◌, length, replicate, leb, if◌then◌else◌,
  Option, none, some,
}
use paf_archive.Words.{Bytes, u32, u64}
use paf_archive.Stdio.{Machine, Files}
use paf_archive.Format.{
  PafHeader, PafIndexEntry, encode_header, encode_entry, paf_magic, paf_version, paf_entry_deleted,
  paf_entry_binary_delta, header_size, entry_size,
}
use paf_archive.Reader.{Outcome, ok, err}
use paf_archive.Disk.{update}
use paf_archive.Generator.{Backend}
use paf_archive.BinaryDelta.{and_then, paf_bdelta_create}
use paf_archive.Delta.{PafDeltaEntry, PafDeltaStatus, added, updated, deleted, paf_delta_calculate}
use paf_archive.Patch.{copied}
use paf_archive.Create.{Folders, path_in, paf_create_index_only}

-- The temporary files and the counters.
pub record PatchMaking : Type 0 where
  pub data_tmp : Bytes
  pub index_tmp : Bytes
  pub path_tmp : Bytes
  pub data_offset : ℕ
  pub path_offset : ℕ
  pub file_count : ℕ
  pub errors : ℕ

-- What an entry of the delta comes to: a deletion, data with the flags and the hash of its entry, or
-- an error.
pub data PatchPart : Type 0 where
  deletion : PatchPart
  content : ℕ → Bytes → Bytes → PatchPart
  failure : PatchPart

-- `memset(&idx_e, 0, sizeof(idx_e))` and the two fields of the path
unfoldable pub path_entry : PatchMaking → Bytes → PafIndexEntry
path_entry s path = record {
  path_buffer_offset = s.path_offset;
  path_length = u32 (length path);
  flags = 0;
  data_offset = 0;
  data_size = 0;
  hash = replicate 64 0;
  reserved = replicate 32 0;
}

-- The entry, its path and its data go to the temporary files.
unfoldable pub put_entry : PatchMaking → Bytes → PafIndexEntry → Bytes → PatchMaking
put_entry s path e payload = record s {
  data_tmp = s.data_tmp ++ payload;
  index_tmp = s.index_tmp ++ encode_entry e;
  path_tmp = s.path_tmp ++ path;
  data_offset = u64 (s.data_offset + length payload);
  path_offset = u64 (s.path_offset + u32 (length path));
  file_count = u32 (s.file_count + 1);
}

unfoldable pub put_part : PatchMaking → Bytes → PatchPart → PatchMaking
put_part s path deletion =
    put_entry s path
      (record (path_entry s path) { flags = paf_entry_deleted; data_offset = s.data_offset }) []
put_part s path (content flags payload hash) =
    put_entry s path
      (record (path_entry s path) {
        flags = flags;
        data_offset = s.data_offset;
        data_size = length payload;
        hash = hash ++ replicate 32 0;
      })
      payload
put_part s path failure = record (put_entry s path (path_entry s path) []) { errors = s.errors + 1 }

-- The new file as a whole, if it can be opened.
unfoldable pub whole_part : Bytes → Option Bytes → PatchPart
whole_part hash none = failure
whole_part hash (some b) = content 0 (copied (some b)) hash

-- `paf_bdelta_create(...)` and the test of its result; the outer `none` is a search with no end.
unfoldable pub delta_of : Option Bytes → Option Bytes → Option (Option Bytes)
delta_of none new = some none
delta_of (some old) none = some none
delta_of (some old) (some new) = and_then (paf_bdelta_create old new) (λ (d : Bytes). some (some d))

-- `stat` succeeds, and the file has at most 128 MB.
unfoldable pub is_small : Option Bytes → Bool
is_small none = false
is_small (some old) = leb (length old) 134217728

unfoldable pub delta_part : Bytes → Option Bytes → Option Bytes → PatchPart
delta_part hash new none = whole_part hash new
delta_part hash new (some d) = content paf_entry_binary_delta d hash

unfoldable pub updated_part : Bytes → Option Bytes → Option Bytes → Option PatchPart
updated_part hash old new =
    if is_small old
    then and_then (delta_of old new) (λ (d : Option Bytes). some (delta_part hash new d))
    else some (whole_part hash new)

unfoldable pub status_part :
    Files → Bytes → Bytes → PafDeltaStatus → Bytes → Bytes → Option PatchPart
status_part files old_dir new_dir deleted path hash = some deletion
status_part files old_dir new_dir added path hash =
    some (whole_part hash (files (path_in new_dir path)))
status_part files old_dir new_dir updated path hash =
    updated_part hash (files (path_in old_dir path)) (files (path_in new_dir path))

unfoldable pub part_of : Files → Bytes → Bytes → PafDeltaEntry → Option PatchPart
part_of files old_dir new_dir e = status_part files old_dir new_dir e.status e.path e.hash

-- The loop over the delta.
unfoldable pub make_parts :
    Files → Bytes → Bytes → List PafDeltaEntry → PatchMaking → Option PatchMaking
make_parts files old_dir new_dir [] s = some s
make_parts files old_dir new_dir (e ∷ es) s =
    and_then (part_of files old_dir new_dir e)
      (λ (p : PatchPart). make_parts files old_dir new_dir es (put_part s e.path p))

unfoldable pub patch_header : PatchMaking → PafHeader
patch_header s =
    let index_offset = u64 (header_size + s.data_offset) in
    record {
      magic = paf_magic;
      version = paf_version;
      flags = 0;
      file_count = s.file_count;
      index_offset = index_offset;
      path_offset = u64 (index_offset + s.file_count * entry_size);
    }

-- The parts of the output, in order.
unfoldable pub patch_bytes : PatchMaking → Bytes
patch_bytes s = encode_header (patch_header s) ++ (s.data_tmp ++ (s.index_tmp ++ s.path_tmp))

-- behind the loop
unfoldable pub finish_patch : Bool → ℕ → PatchMaking → Outcome Bytes
finish_patch writable (suc n) s = err (suc n)
finish_patch writable zero s = if writable then ok (patch_bytes s) else err 1

unfoldable pub empty_patch : PatchMaking
empty_patch = record {
  data_tmp = [];
  index_tmp = [];
  path_tmp = [];
  data_offset = 0;
  path_offset = 0;
  file_count = 0;
  errors = 0;
}

unfoldable pub patch_of_delta :
    Files → Bytes → Bytes → Bool → Outcome (List PafDeltaEntry) → Option (Outcome Bytes)
patch_of_delta files old_dir new_dir writable (err n) = some (err 1)
patch_of_delta files old_dir new_dir writable (ok delta) =
    and_then (make_parts files old_dir new_dir delta empty_patch)
      (λ (s : PatchMaking). some (finish_patch writable s.errors s))

-- The two indexes, under the names of their temporary files.
unfoldable pub with_indexes : Files → Bytes → Bytes → Option Bytes → Option Bytes → Option Files
with_indexes files old_idx new_idx (some o) (some n) =
    some (update (update files old_idx o) new_idx n)
with_indexes files old_idx new_idx _ _ = none

unfoldable pub patch_of_indexes :
    Machine → Folders → Bytes → Bytes → Bytes → Bytes → Bool → Option Files → Option (Outcome Bytes)
patch_of_indexes m fs old_dir new_dir old_idx new_idx writable none = some (err 1)
patch_of_indexes m fs old_dir new_dir old_idx new_idx writable (some indexed) =
    and_then (paf_delta_calculate m indexed old_idx new_idx)
      (patch_of_delta fs.files old_dir new_dir writable)

-- The content of the patch, or the negative of the return value; `none` if a search has no end. The
-- two names of the indexes have the number of the process in them.
unfoldable pub paf_create_patch :
    ℕ
    → Machine
    → Backend
    → Folders
    → (Bytes → Bool)
    → Bytes
    → Bytes
    → Bytes
    → Bytes
    → Bytes
    → Option (Outcome Bytes)
paf_create_patch depth m b fs writable old_idx new_idx old_dir new_dir out_paf =
    patch_of_indexes m fs old_dir new_dir old_idx new_idx (writable out_paf) (
      with_indexes fs.files old_idx new_idx
        (paf_create_index_only depth m b fs (writable old_idx) (old_dir ∷ []))
        (paf_create_index_only depth m b fs (writable new_idx) (new_dir ∷ [])))
