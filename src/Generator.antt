-- ===== src/Generator.antt =====
-- libpaf/src/paf_generator.c: an archive is collected in three temporary files and written out at
-- the end. A temporary file is the list of its bytes, since it is only appended to; the batch
-- arrays are the parts of them that are in use. The pointers are not NULL, and writes to
-- temporary files succeed.
pub mod Spec
pub mod Files
pub mod Flush
pub mod Add
pub mod Streaming
pub mod Finalize
use paf_archive.Prelude.{
  ℕ, zero, suc, ◌+◌, ◌*◌, ◌-◌, ◌≤◌, ◌<◌, ◌≡◌, ◌^◌, min, List, [], ◌∷◌, ◌++◌, length, take, drop,
  replicate, ltb, leb, ◌==◌, ◌||◌, not, if◌then◌else◌, Bool, true, false, Option, none, some, map,
}
use paf_archive.Words.{Bytes, u32, u64}
use paf_archive.Stdio.{Machine, Stream, fread}
use paf_archive.Sha256.{
  Sha256Path, paf_sha256_compute, Sha256Context, sha256_init, sha256_update, sha256_final,
}
use paf_archive.Format.{
  PafHeader, PafIndexEntry, encode_header, encode_entry, paf_magic, paf_version,
  paf_flag_index_only, header_size, entry_size,
}

-- A file that is added: its path in the archive and its content.
pub record InputFile : Type 0 where
  pub path : Bytes
  pub content : Bytes

-- 128 MB of file data, and 4096 files
abbrev pub batch_bytes : ℕ
batch_bytes = 134217728

abbrev pub batch_files : ℕ
batch_files = 4096

-- The pieces of a buffer at the given offsets, of the given sizes.
abbrev pub pieces : Bytes → List ℕ → List ℕ → List Bytes
pieces buf (o ∷ os) (s ∷ ss) = take s (drop o buf) ∷ pieces buf os ss
pieces buf _ _ = []

-- `paf_cuda_is_available() && g_paf_cuda_hash_flat != NULL && g_paf_cuda_hash_flat(...) == 0`, and
-- so for Vulkan: the hashes, or `none` where the device is missing or fails. The portable path is
-- the one that the detection chose; `stack` is what a fresh context's buffer holds.
pub record Backend : Type 0 where
  pub cuda_hash_flat : List Bytes → Option (List Bytes)
  pub vulkan_hash_flat : List Bytes → Option (List Bytes)
  pub path : Sha256Path
  pub stack : Bytes

-- `paf_generator_t`
pub record PafGenerator : Type 0 where
  pub data_tmp : Bytes
  pub index_tmp : Bytes
  pub path_tmp : Bytes
  pub file_count : ℕ
  pub current_data_offset : ℕ
  pub current_path_offset : ℕ
  pub batch_data_buffer : Bytes
  pub batch_sizes : List ℕ
  pub batch_offsets : List ℕ
  pub batch_paths : List Bytes
  pub batch_count : ℕ
  pub batch_buffer_pos : ℕ
  pub index_only : Bool

-- What `paf_generator_init` sets, where the temporary files and the buffers can be had. The caller
-- may set `index_only` before the first file.
unfoldable pub paf_generator_init : Bool → PafGenerator
paf_generator_init index_only = record {
  data_tmp = [];
  index_tmp = [];
  path_tmp = [];
  file_count = 0;
  current_data_offset = 0;
  current_path_offset = 0;
  batch_data_buffer = [];
  batch_sizes = [];
  batch_offsets = [];
  batch_paths = [];
  batch_count = 0;
  batch_buffer_pos = 0;
  index_only = index_only;
}

-- The `entry` that is filled for a file: `memset` to zero, then its fields.
unfoldable pub new_entry : PafGenerator → Bytes → Bytes → ℕ → PafIndexEntry
new_entry g path hash size = record {
  path_buffer_offset = g.current_path_offset;
  path_length = u32 (length path);
  flags = 0;
  data_offset = g.current_data_offset;
  data_size = size;
  hash = hash ++ replicate 32 0;
  reserved = replicate 32 0;
}

-- A file goes to the temporary files: its data (not in an index-only archive), path and entry.
unfoldable pub put_file : PafGenerator → Bytes → Bytes → ℕ → Bytes → PafGenerator
unfolding new_entry
put_file g path hash size payload = record g {
  data_tmp = if g.index_only then g.data_tmp else g.data_tmp ++ payload;
  current_data_offset =
      if g.index_only then g.current_data_offset else u64 (g.current_data_offset + size);
  path_tmp = g.path_tmp ++ path;
  index_tmp = g.index_tmp ++ encode_entry (new_entry g path hash size);
  current_path_offset = u64 (g.current_path_offset + u32 (length path));
  file_count = u32 (g.file_count + 1);
}

-- The answer of a device, or the next one's.
abbrev pub or_hashes : Option (List Bytes) → List Bytes → List Bytes
or_hashes (some hashes) next = hashes
or_hashes none next = next

-- CUDA, then Vulkan, then the processor.
unfoldable pub batch_hashes : Backend → List Bytes → List Bytes
batch_hashes b files =
    or_hashes (b.cuda_hash_flat files)
      (or_hashes (b.vulkan_hash_flat files) (map (paf_sha256_compute b.path b.stack) files))

abbrev pub first_hash : Option (List Bytes) → Bytes → Bytes
first_hash (some (hash ∷ _)) next = hash
first_hash (some []) next = next
first_hash none next = next

-- the loop of `paf_generator_flush_batch` over the batch
unfoldable pub put_batch :
    PafGenerator → List Bytes → List Bytes → List ℕ → List Bytes → PafGenerator
unfolding put_file
put_batch g (path ∷ paths) (hash ∷ hashes) (size ∷ sizes) (file ∷ files) =
    put_batch (put_file g path hash size file) paths hashes sizes files
put_batch g _ _ _ _ = g

-- What the reset of `batch_count` and `batch_buffer_pos` leaves in use.
unfoldable pub reset_batch : PafGenerator → PafGenerator
reset_batch g = record g {
  batch_data_buffer = [];
  batch_sizes = [];
  batch_offsets = [];
  batch_paths = [];
  batch_count = 0;
  batch_buffer_pos = 0;
}

-- The loop of `paf_generator_add_file_stream` on fuel: what was read, and the hash context.
unfoldable pub stream_loop : ℕ → ℕ → Stream → Sha256Context → Bytes → Sha256Context × Bytes
stream_loop zero remaining fp ctx out = (ctx, out)
stream_loop (suc f) remaining fp ctx out =
    let (chunk, fp') = fread fp (min remaining 65536) in
    let rest =
      stream_loop f (remaining - length chunk) fp' (sha256_update ctx chunk) (out ++ chunk) in
    if remaining == 0 then (ctx, out) else if length chunk == 0 then (ctx, out) else rest

-- The hash of one file that is larger than the buffer: CUDA, else the processor.
unfoldable pub large_hash : Backend → Bytes → Bytes
large_hash b file =
    first_hash (b.cuda_hash_flat (file ∷ [])) (paf_sha256_compute b.path b.stack file)

module _ (m : Machine) (b : Backend) where
  -- A result carries the return value, as the number of which it is the negative: 0 is success.
  unfoldable pub paf_generator_flush_batch : PafGenerator → PafGenerator × ℕ
  paf_generator_flush_batch g =
      let files = pieces g.batch_data_buffer g.batch_offsets g.batch_sizes in
      if g.batch_count == 0
      then (g, 0)
      else if m.malloc (g.batch_count * 32)
      then (reset_batch (put_batch g g.batch_paths (batch_hashes b files) g.batch_sizes files), 0)
      else (g, 1)

  -- the end of `paf_generator_add_file`: the file joins the batch, if `strdup` succeeds
  unfoldable pub buffer_file : PafGenerator → Bytes → Bytes → PafGenerator × ℕ
  buffer_file g path file =
      if m.malloc (length path + 1)
      then (
        record g {
          batch_data_buffer = g.batch_data_buffer ++ file;
          batch_offsets = g.batch_offsets ++ g.batch_buffer_pos ∷ [];
          batch_sizes = g.batch_sizes ++ length file ∷ [];
          batch_paths = g.batch_paths ++ path ∷ [];
          batch_buffer_pos = u64 (g.batch_buffer_pos + length file);
          batch_count = g.batch_count + 1;
        },
        0,
      )
      else (g, 1)

  -- after a flush that returned `r`
  unfoldable pub add_flushed : Bytes → Bytes → PafGenerator × ℕ → PafGenerator × ℕ
  add_flushed path file (g, suc e) = (g, suc e)
  add_flushed path file (g, zero) =
      if ltb batch_bytes (length file)
      then (put_file g path (large_hash b file) (length file) file, 0)
      else buffer_file g path file

  unfoldable pub paf_generator_add_file : PafGenerator → Bytes → Bytes → PafGenerator × ℕ
  paf_generator_add_file g path file =
      if leb 1024 (length path)
      then (g, 1)
      else if ltb batch_bytes (u64 (g.batch_buffer_pos + length file))
          || leb batch_files g.batch_count
      then add_flushed path file (paf_generator_flush_batch g)
      else buffer_file g path file

  unfoldable pub add_stream : Bytes → Stream → ℕ → PafGenerator × ℕ → PafGenerator × ℕ
  add_stream path fp size (g, suc e) = (g, 1)
  add_stream path fp size (g, zero) =
      let (ctx, out) = stream_loop (size + 1) size fp (sha256_init b.stack) [] in
      (put_file g path (sha256_final ctx) size out, 0)

  unfoldable pub paf_generator_add_file_stream :
      PafGenerator → Bytes → Stream → ℕ → PafGenerator × ℕ
  paf_generator_add_file_stream g path fp size =
      if leb 1024 (length path)
      then (g, 1)
      else add_stream path fp size (paf_generator_flush_batch g)

-- the header that `paf_generator_finalize` writes
unfoldable pub final_header : PafGenerator → PafHeader
final_header g =
    let index_size = g.file_count * entry_size in
    let index_offset =
      if g.index_only then header_size else u64 (header_size + g.current_data_offset) in
    record {
      magic = paf_magic;
      version = paf_version;
      flags = if g.index_only then paf_flag_index_only else 0;
      file_count = g.file_count;
      index_offset = index_offset;
      path_offset = u64 (index_offset + index_size);
    }

-- the parts of the file, in order
unfoldable pub final_file : PafGenerator → Bytes
final_file g =
    encode_header (final_header g)
    ++ ((if g.index_only then [] else g.data_tmp) ++ (g.index_tmp ++ g.path_tmp))

module _ (m : Machine) (b : Backend) where
  unfoldable pub finish : Bool → PafGenerator × ℕ → Option Bytes
  finish writable (g, suc e) = none
  finish writable (g, zero) = if writable then some (final_file g) else none

  -- `writable`: the output file can be opened. The result is the file's content.
  unfoldable pub paf_generator_finalize : Bool → PafGenerator → Option Bytes
  paf_generator_finalize writable g = finish writable (paf_generator_flush_batch m b g)

  -- A caller that adds one file after the other and looks at no return value.
  unfoldable pub add_all : PafGenerator → List InputFile → PafGenerator
  add_all g [] = g
  add_all g (f ∷ fs) = add_all (paf_generator_add_file m b g f.path f.content).0 fs
