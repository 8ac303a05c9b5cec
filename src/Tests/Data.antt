-- ===== src/Tests/Data.antt =====
-- The data of the examples: an archive of two files on a processor with no device.
use paf_archive.Prelude.{
  refl, arith, true, false, List, [], ◌∷◌, replicate, none, some, if◌then◌else◌,
}
use paf_archive.Words.{Bytes}
use paf_archive.Stdio.{Machine, Files, NoNul, bytes_eq}
use paf_archive.Sha256.{generic}
use paf_archive.Generator.{InputFile, Backend}
use paf_archive.Generator.Spec.{archive, Fits}
use paf_archive.Generator.Flush.{IsBackend}
use paf_archive.Listing.Archive.{CleanPaths}
use paf_archive.Disk.{Disk, Access}

abbrev pub roomy : Machine
roomy = record { malloc = λ n. true; junk = λ i. 170 }

abbrev pub processor : Backend
processor = record {
  cuda_hash_flat = λ files. none;
  vulkan_hash_flat = λ files. none;
  path = generic;
  stack = replicate 64 0;
}

pub processor-IsBackend : IsBackend processor
processor-IsBackend = record {
  cuda = λ files hashes e. absurd (cc);
  vulkan = λ files hashes e. absurd (cc);
  documented = tt;
  stack_size = refl;
}

-- `a/b` with the content `hi`, and `c` with three bytes
abbrev pub first_file : InputFile
first_file = record { path = 97 ∷ 47 ∷ 98 ∷ []; content = 104 ∷ 105 ∷ [] }

abbrev pub second_file : InputFile
second_file = record { path = 99 ∷ []; content = 1 ∷ 0 ∷ 255 ∷ [] }

abbrev pub two_files : List InputFile
two_files = first_file ∷ second_file ∷ []

pub two_files-Fits : Fits two_files
two_files-Fits = record {
  count = omega arith;
  size = omega arith;
  paths = (omega arith, (omega arith, tt));
}

pub one_file-Fits : Fits (first_file ∷ [])
one_file-Fits = record { count = omega arith; size = omega arith; paths = (omega arith, tt) }

pub first_path-NoNul : NoNul first_file.path
first_path-NoNul = (omega arith, (omega arith, (omega arith, tt)))

pub second_path-NoNul : NoNul second_file.path
second_path-NoNul = (omega arith, tt)

pub two_files-CleanPaths : CleanPaths two_files
two_files-CleanPaths = (first_path-NoNul, (second_path-NoNul, tt))

abbrev pub paf_name : Bytes
paf_name = 120 ∷ []

abbrev pub output_name : Bytes
output_name = 111 ∷ []

abbrev pub shelf : Disk
shelf = record {
  files = λ q. if bytes_eq q paf_name then some (archive false two_files) else none;
  folders = [];
}

pub one_file-CleanPaths : CleanPaths (first_file ∷ [])
one_file-CleanPaths = (first_path-NoNul, tt)

abbrev pub old_name : Bytes
old_name = 121 ∷ []

abbrev pub target_dir : Bytes
target_dir = 116 ∷ []

-- An archive of one file, and one of two with the same file.
abbrev pub both : Files
both q =
    if bytes_eq q paf_name
    then some (archive false two_files)
    else if bytes_eq q old_name
    then some (archive false (first_file ∷ []))
    else none

abbrev pub all_allowed : Access
all_allowed = record { writable = λ q. true; removable = λ q. true; movable = λ q q'. true }
