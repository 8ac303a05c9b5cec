-- ===== src/Patch/Staging.antt =====
-- `paf_patch_apply_atomic` of libpaf/src/libpaf_patch.c: each file of a patch archive is made under
-- another name, checked against its hash, and renamed.
use paf_archive.Prelude.{
  ℕ, zero, suc, ◌+◌, ◌-◌, Bool, true, false, List, [], ◌∷◌, ◌++◌, length, take, leb, ◌==◌, ◌||◌,
  min, if◌then◌else◌, Option, none, some, bit_and,
}
use paf_archive.Words.{Bytes}
use paf_archive.Stdio.{Machine, Stream, fseek, fread, bytes_eq, c_string}
use paf_archive.Format.{PafHeader, PafIndexEntry, paf_entry_deleted, paf_entry_binary_delta}
use paf_archive.Reader.{Outcome, ok, err, path_position, read_data}
use paf_archive.Paths.{paf_is_safe_path}
use paf_archive.Disk.{Disk, Access, write_file, unlink, rename}
use paf_archive.Extract.{Opened, open_archive, at_data}
use paf_archive.BinaryDelta.{paf_bdelta_apply}
use paf_archive.Patch.{make_parent_dirs, joined, count_error, error_result, hash_file}

-- ".paf_stage"
abbrev pub stage_suffix : Bytes
stage_suffix = b'.' ∷ b'p' ∷ b'a' ∷ b'f' ∷ b'_' ∷ b's' ∷ b't' ∷ b'a' ∷ b'g' ∷ b'e' ∷ []

abbrev pub has_flag : ℕ → ℕ → Bool
has_flag flags flag = if bit_and flags flag == 0 then false else true

-- `idx[i].path_length` is not 0 and below 1024, and the path was read whole.
unfoldable pub read_rel_path : PafHeader → PafIndexEntry → Stream → Option Bytes × Stream
read_rel_path header e fp =
    let (got, fp') = fread (fseek fp (path_position header e)) e.path_length in
    if e.path_length == 0 || leb 1024 e.path_length
    then (none, fp)
    else (if length got == e.path_length then some (c_string got) else none, fp')

-- The loop that copies the data, on fuel: `io_ok`, what was written, and the stream.
unfoldable pub stage_loop : ℕ → Stream → ℕ → Bytes → Bool × Bytes × Stream
stage_loop zero fp rem out = (false, out, fp)
stage_loop (suc f) fp rem out =
    let (got, fp') = fread fp (min rem 65536) in
    let rest = stage_loop f fp' (rem - length got) (out ++ got) in
    if rem == 0 then (true, out, fp) else if length got == 0 then (false, out, fp') else rest

-- The staging file is there, or removed where something failed.
unfoldable pub keep_stage : Access → Bytes → Bool → Stream → Disk → Bool × Stream × Disk
keep_stage a stage true fp d = (true, fp, d)
keep_stage a stage false fp d = (false, fp, (unlink a stage d).1)

unfoldable pub stage_normal : Access → PafIndexEntry → Bytes → Stream → Disk → Bool × Stream × Disk
stage_normal a e stage fp d =
    let fp1 = at_data fp e in
    let (io_ok, out, fp2) = stage_loop (e.data_size + 1) fp1 e.data_size [] in
    if a.writable stage
    then keep_stage a stage io_ok fp2 (write_file d stage out)
    else (false, fp1, d)

-- what `paf_bdelta_apply` did, with the test of its return value
unfoldable pub stage_applied :
    Access → Bytes → Option (Bool × Bytes) → Stream → Disk → Bool × Stream × Disk
stage_applied a stage none fp d = keep_stage a stage false fp d
stage_applied a stage (some (done, out)) fp d =
    if a.writable stage
    then keep_stage a stage done fp (write_file d stage out)
    else keep_stage a stage false fp d

-- the delta of the archive against the file that is to be replaced
unfoldable pub stage_read :
    Machine → Access → Bytes → Bytes → Option Bytes → Stream → Disk → Bool × Stream × Disk
stage_read m a dst stage none fp d = (false, fp, d)
stage_read m a dst stage (some delta) fp d =
    stage_applied a stage (paf_bdelta_apply m delta (d.files dst)) fp d

unfoldable pub stage_delta :
    Machine → Access → PafIndexEntry → Bytes → Bytes → Stream → Disk → Bool × Stream × Disk
stage_delta m a e dst stage fp d =
    let (delta, fp') = read_data fp e in
    if m.malloc e.data_size then stage_read m a dst stage delta fp' d else (false, fp, d)

abbrev pub hash_matches : PafIndexEntry → Option Bytes → Bool
hash_matches e none = false
hash_matches e (some h) = bytes_eq h (take 32 e.hash)

-- A rename that fails removes the staging file.
unfoldable pub renamed : Access → Bytes → Bool × Disk → Bool × Disk
renamed a stage (true, d) = (true, d)
renamed a stage (false, d) = (false, (unlink a stage d).1)

-- the check of the hash and the rename
unfoldable pub install :
    Access → Bytes → PafIndexEntry → Bytes → Bytes → Bool × Stream × Disk → Bool × Stream × Disk
install a stack e dst stage (false, fp, d) = (false, fp, d)
install a stack e dst stage (true, fp, d) =
    if hash_matches e (hash_file stack (d.files stage))
    then (let (done, d') = renamed a stage (rename a stage dst d) in (done, fp, d'))
    else (false, fp, (unlink a stage d).1)

-- an entry whose path may be used: `true` where no error is counted
unfoldable pub patch_to :
    Machine → Access → Bytes → PafIndexEntry → Bytes → Stream → Disk → Bool × Stream × Disk
patch_to m a stack e dst fp d =
    let stage = dst ++ stage_suffix in
    let made = make_parent_dirs stage d in
    if has_flag e.flags paf_entry_deleted
    then (let (done, d') = unlink a dst d in (done, fp, d'))
    else install a stack e dst stage (
        if has_flag e.flags paf_entry_binary_delta
        then stage_delta m a e dst stage fp made
        else stage_normal a e stage fp made)

-- `paf_is_safe_path`, and a destination that fits its buffer
abbrev pub usable : Bytes → Bytes → Bool
usable dst_dir rel =
    if paf_is_safe_path rel
    then (if leb 1024 (length (joined dst_dir rel)) then false else true)
    else false

unfoldable pub patch_path :
    Machine
    → Access
    → Bytes
    → Bytes
    → PafIndexEntry
    → Option Bytes
    → Stream
    → Disk
    → Bool × Stream × Disk
patch_path m a stack dst_dir e none fp d = (false, fp, d)
patch_path m a stack dst_dir e (some rel) fp d =
    if usable dst_dir rel then patch_to m a stack e (joined dst_dir rel) fp d else (false, fp, d)

-- One round of the loop.
unfoldable pub patch_entry :
    Machine
    → Access
    → Bytes
    → Bytes
    → PafHeader
    → PafIndexEntry
    → Stream
    → Disk
    → Bool × Stream × Disk
patch_entry m a stack dst_dir header e fp d =
    let (rel, fp') = read_rel_path header e fp in patch_path m a stack dst_dir e rel fp' d

unfoldable pub patch_entries :
    Machine → Access → Bytes → Bytes → PafHeader → List PafIndexEntry → ℕ → Stream → Disk → ℕ × Disk
patch_entries m a stack dst_dir header [] errors fp d = (errors, d)
patch_entries m a stack dst_dir header (e ∷ es) errors fp d =
    let (done, fp', d') = patch_entry m a stack dst_dir header e fp d in
    patch_entries m a stack dst_dir header es (count_error done errors) fp' d'

unfoldable pub patch_opened :
    Machine → Access → Bytes → Bytes → Outcome Opened → Disk → Outcome {0} Unit × Disk
patch_opened m a stack dst_dir (err n) d = (err n, d)
patch_opened m a stack dst_dir (ok o) d =
    let (errors, d') = patch_entries m a stack dst_dir o.header o.entries 0 o.fp d in
    (error_result errors, d')

-- The result, and the disk. `stack` is what the hasher's buffer holds before it is used.
unfoldable pub paf_patch_apply_atomic :
    Machine → Access → Bytes → Bytes → Bytes → Disk → Outcome {0} Unit × Disk
paf_patch_apply_atomic m a stack patch_paf dst_dir d =
    patch_opened m a stack dst_dir (open_archive m (d.files patch_paf)) d
