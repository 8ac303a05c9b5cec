-- ===== src/Patch.antt =====
-- libpaf/src/libpaf_patch.c: a delta applied to a directory from a directory or an archive, and a
-- patch archive applied by way of a staging file for each file.
pub mod Staging
pub mod Copying
pub mod Atomic
pub mod Run
pub mod Reading
pub mod Streams
pub mod Success
pub mod Places
pub mod Items
pub mod Update
use paf_archive.Prelude.{
  ℕ, zero, suc, ◌+◌, ◌-◌, Bool, true, false, List, [], ◌∷◌, ◌++◌, length, take, leb, ◌==◌, ◌||◌,
  min, if◌then◌else◌, Option, none, some, bit_and, not,
}
use paf_archive.Words.{Bytes, u64}
use paf_archive.Stdio.{Machine, Stream, open_stream, fseek, fread, bytes_eq, c_string}
use paf_archive.Format.{PafHeader, PafIndexEntry, paf_entry_deleted, paf_entry_binary_delta}
use paf_archive.Reader.{Outcome, ok, err, path_position, read_data}
use paf_archive.Paths.{slash, paf_is_safe_path, directories_from}
use paf_archive.Sha256.{Sha256Context, sha256_init, sha256_update, sha256_final}
use paf_archive.Disk.{Disk, Access, write_file, make_folders, is_file, unlink, rename}
use paf_archive.Extract.{Opened, open_archive, paf_extract_file}
use paf_archive.BinaryDelta.{paf_bdelta_apply}
use paf_archive.Delta.{PafDeltaEntry, PafDeltaStatus, added, updated, deleted}

-- The folders of a path of at most 1023 bytes; a longer one is cut.
unfoldable pub parents_of : Bytes → List Bytes
parents_of [] = []
parents_of (c ∷ s) = directories_from (c ∷ []) s

unfoldable pub make_parent_dirs : Bytes → Disk → Disk
make_parent_dirs filepath d = make_folders d (parents_of (take 1023 filepath))

-- The loop of `copy_file_raw` on fuel.
unfoldable pub copy_loop : ℕ → Stream → Bytes → Bytes
copy_loop zero fp out = out
copy_loop (suc f) fp out =
    let (chunk, fp') = fread fp 65536 in
    let rest = copy_loop f fp' (out ++ chunk) in if length chunk == 0 then out else rest

-- What the loop copies; a missing file has nothing.
unfoldable pub copied : Option Bytes → Bytes
copied none = []
copied (some b) = copy_loop (length b + 1) (open_stream b) []

-- The output is emptied before the input is read, which shows if they are one file.
unfoldable pub copy_file_raw : Access → Bytes → Bytes → Disk → Bool × Disk
copy_file_raw a src dst d =
    if is_file (d.files src)
    then (if a.writable dst
        then (let opened = write_file d dst [] in
            (true, write_file opened dst (copied (opened.files src))))
        else (false, d))
    else (false, d)

-- `snprintf(buf, 1024, "%s/%s", dir, path)`
abbrev pub joined : Bytes → Bytes → Bytes
joined dir path = dir ++ slash ∷ path

-- the part of both loops that an entry's status decides, with the way to get the content
unfoldable pub apply_status :
    Access
    → (Bytes → Bytes → Disk → Bool × Disk)
    → PafDeltaStatus
    → Bytes
    → Bytes
    → Disk
    → Bool × Disk
apply_status a fetch deleted path full d = unlink a full d
apply_status a fetch added path full d = fetch path full (make_parent_dirs full d)
apply_status a fetch updated path full d = fetch path full (make_parent_dirs full d)

-- One entry of a delta: whether it was applied, and the disk.
unfoldable pub apply_entry :
    Access → (Bytes → Bytes → Disk → Bool × Disk) → Bytes → PafDeltaEntry → Disk → Bool × Disk
apply_entry a fetch dst_dir e d =
    let full = joined dst_dir e.path in
    if leb 1024 (length full) then (false, d) else apply_status a fetch e.status e.path full d

abbrev pub count_error : Bool → ℕ → ℕ
count_error true errors = errors
count_error false errors = errors + 1

-- The loop over the delta's entries, with the errors so far.
unfoldable pub apply_entries :
    Access → (Bytes → Bytes → Disk → Bool × Disk) → Bytes → List PafDeltaEntry → ℕ → Disk → ℕ × Disk
apply_entries a fetch dst_dir [] errors d = (errors, d)
apply_entries a fetch dst_dir (e ∷ es) errors d =
    let (done, d') = apply_entry a fetch dst_dir e d in
    apply_entries a fetch dst_dir es (count_error done errors) d'

-- `errors > 0 ? -errors : 0`
unfoldable pub error_result : ℕ → Outcome {0} Unit
error_result zero = ok tt
error_result (suc n) = err (suc n)

abbrev pub with_result : ℕ × Disk → Outcome {0} Unit × Disk
with_result (errors, d) = (error_result errors, d)

unfoldable pub fetch_copy : Access → Bytes → Bytes → Bytes → Disk → Bool × Disk
fetch_copy a new_src_dir path full d =
    if leb 1024 (length (joined new_src_dir path))
    then (false, d)
    else copy_file_raw a (joined new_src_dir path) full d

unfoldable pub paf_patch_apply_from_dir :
    Access → Bytes → List PafDeltaEntry → Bytes → Disk → Outcome {0} Unit × Disk
paf_patch_apply_from_dir a new_src_dir delta dst_dir d =
    with_result (apply_entries a (fetch_copy a new_src_dir) dst_dir delta 0 d)

abbrev pub is_ok {ℓ} : {A : Type ℓ} → Outcome A → Bool
is_ok (ok _) = true
is_ok (err _) = false

unfoldable pub fetch_extract : Machine → Access → Bytes → Bytes → Bytes → Disk → Bool × Disk
fetch_extract m a new_paf_path path full d =
    let (result, d') = paf_extract_file m a.writable new_paf_path path full d in (is_ok result, d')

unfoldable pub paf_patch_apply :
    Machine → Access → Bytes → List PafDeltaEntry → Bytes → Disk → Outcome {0} Unit × Disk
paf_patch_apply m a new_paf_path delta dst_dir d =
    with_result (apply_entries a (fetch_extract m a new_paf_path) dst_dir delta 0 d)

-- The loop of `hash_file` on fuel.
unfoldable pub hash_loop : ℕ → Stream → Sha256Context → Sha256Context
hash_loop zero fp ctx = ctx
hash_loop (suc f) fp ctx =
    let (chunk, fp') = fread fp 65536 in
    let rest = hash_loop f fp' (sha256_update ctx chunk) in if length chunk == 0 then ctx else rest

-- The digest of a file; `stack` is what the hasher's buffer holds before.
unfoldable pub hash_file : Bytes → Option Bytes → Option Bytes
hash_file stack none = none
hash_file stack (some b) =
    some (sha256_final (hash_loop (length b + 1) (open_stream b) (sha256_init stack)))
