-- ===== src/Lib.antt =====
-- The PAF archive library, libpaf/: an archive is a header of 32 bytes, a data block, an index of 128
-- bytes for each file, and a buffer of paths.
--
-- Parts and files. Numbers are ℕ, with the wrap-around of the C types written out where an operation
-- can reach it (Words: u32, u64); bytes are numbers, and a C string is a list with no NUL.
--   Prelude, Words, Stdio: shared names; little-endian fields; streams (fopen, fseek, fread) over the
--     bytes of a file, C strings, and the machine's choices (which allocations succeed, what fresh
--     memory holds).
--   Format: libpaf/include/paf.h, the header and the index entry with their bytes.
--   ShaNi: the vector code for x86-64 of libpaf/src/paf_sha256_hw.c. The instruction SHA256RNDS2 is a
--     parameter, with the two rounds of its manual as the hypothesis (IsRnds2).
--   Sha256: libpaf/src/sha256.c and the dispatch of libpaf/src/paf_sha256_hw.c.
--   Parallel, Threads: libpaf/src/paf_parallel.h. Threads share a state and each works off its list
--     of jobs; a schedule (Steps) picks the thread that runs next.
--   Fnmatch: libpaf/src/fnmatch.c, on fuel: (length of the string + 1) times (length of the
--     pattern + 1) rounds are enough, since each return to the saved star moves its place on.
--   Generator: libpaf/src/paf_generator.c. The temporary files are byte lists; the hash functions of
--     the GPU loaders are parameters (Backend) with the hypothesis that an answer is right. The loop
--     of the streamed add runs on as much fuel as the announced size, plus one.
--   Reader: the steps that open an archive, which libpaf_list.c, libpaf_extract.c and libpaf_core.c
--     share.
--   Listing: libpaf/src/libpaf_list.c (paf_list_binary, paf_export_index) and libpaf_exists.c.
--   Paths: the three path checks, of libpaf_core.c, libpaf_patch.c and paf_extractor.c.
--   Disk, Extract: libpaf/src/libpaf_extract.c over a disk, a function from paths to bytes.
--   Unpack: the parallel extraction of libpaf/src/libpaf_core.c; its threads share the disk.
--   BinaryDelta: libpaf/src/paf_binary_delta.c. A search of the block table runs on as much fuel as
--     there are slots (2 ^ 20); the loop of paf_bdelta_create on the size of the new file plus one,
--     since its position moves on in each round; a literal's chunks on its length. The buffer that
--     grows is a byte list, so that realloc is taken to succeed.
--   Extractor: libpaf/src/paf_extractor.c.
--   Delta: libpaf/src/paf_delta.c. A search of the path map runs on as much fuel as there are slots;
--     the map has four slots for each file of the new archive, so that some slot is always NULL.
--   Patch: libpaf/src/libpaf_patch.c over the disk; which files can be written, removed and renamed
--     are parameters (Access). A loop that reads a file runs on as much fuel as there are bytes, plus
--     one, since each round takes a byte at least.
--   Create: the ignore rules, the walk over a directory, paf_create_binary, paf_create_index_only and
--     paf_create_patch (Create.Patching) of libpaf/src/libpaf_core.c. The system calls are parameters
--     (Folders). The fuel of the walk is the depth to which it enters directories; the depth of the
--     tree, plus one, is enough.
--   Tests: examples at concrete inputs.
--
-- The generator writes what Generator.Spec describes; the readers are related to that description, so
-- the round trips of listing, lookup and extraction follow from it. An archive fits (Fits) when it has
-- fewer than 2 ^ 32 files, paths below 1024 bytes, and fewer than 2 ^ 63 bytes.
--
-- Not modelled: a write to an open file that fails; a file that changes while a stream reads it, so
-- that an output is taken to be none of the archive's own bytes; a thread that cannot open the archive
-- again; the code of paf_sha256_hw.c for ARM. One entry of the parallel extraction is one step of a
-- schedule. The indexes that paf_create_patch writes for itself are taken to be read back as they were
-- written. The progress callbacks are left out: they are told of each entry and return nothing. Of the
-- two variants of the thread code the one for POSIX threads is modelled, with at most 32 threads; the
-- one for Windows differs in that number. The command line tools, the Windows and GPU code, and the
-- bindings are calls and input or output around these parts.
pub mod Prelude
pub mod Words
pub mod Stdio
pub mod Format
pub mod ShaNi
pub mod Sha256
pub mod Fnmatch
pub mod Generator
pub mod Reader
pub mod Listing
pub mod Paths
pub mod Disk
pub mod Extract
pub mod Threads
pub mod Parallel
pub mod Unpack
pub mod BinaryDelta
pub mod Delta
pub mod Patch
pub mod Create
pub mod Extractor
pub mod Tests
