-- ===== src/Tests/Creating.antt =====
-- Examples of the walk over a directory and of the archive that is made of it.
use paf_archive.Prelude.{
  ◌≡◌, refl, ap, arith, true, false, List, [], ◌∷◌, ◌++◌, length, All, Any, none, some, ◌↔◌,
  if◌then◌else◌, inl, inr,
}
use paf_archive.Words.{Bytes}
use paf_archive.Stdio.{bytes_eq}
use paf_archive.Fnmatch.Glob.{Glob}
use paf_archive.Generator.Spec.{archive, Fits}
use paf_archive.Create.{
  Folders, FileKind, directory, regular, FileEntry, directory_of, rules_in, match_ignore,
  collect_files_binary, collect_all, root_rules, path_in, ignore_name, paf_create_binary,
  paf_create_index_only,
}
use paf_archive.Create.Archive.{
  found_files, IsHonest, paf_create_binary-archive, paf_create_index_only-archive,
}
use paf_archive.Create.Tree.{Tree, end, file, folder, IsFound}
use paf_archive.Create.Walk.{collect_files_binary-tree}
use paf_archive.Create.Ignore.{match_ignore-Glob}
use paf_archive.Tests.Data.{
  roomy, processor, processor-IsBackend, two_files, two_files-Fits, target_dir,
}

-- The folder `t` with a folder `a`, which has the file `b`, and the file `c`.
abbrev home_tree : Tree
home_tree = folder (97 ∷ []) [] (file (98 ∷ []) 2 end) (file (99 ∷ []) 3 end)

abbrev home : Folders
home = record {
  opendir = λ q.
      if bytes_eq q (116 ∷ 47 ∷ 46 ∷ [])
      then some ((46 ∷ []) ∷ (97 ∷ []) ∷ (46 ∷ 46 ∷ []) ∷ (99 ∷ []) ∷ [])
      else if bytes_eq q (116 ∷ 47 ∷ 97 ∷ [])
      then some ((98 ∷ []) ∷ [])
      else none;
  stat = λ q.
      if bytes_eq q (116 ∷ 47 ∷ 97 ∷ [])
      then some directory
      else if bytes_eq q (116 ∷ 47 ∷ 97 ∷ 47 ∷ 98 ∷ [])
      then some (regular 2)
      else some (regular 3);
  files = λ q.
      if bytes_eq q (116 ∷ 47 ∷ 97 ∷ 47 ∷ 98 ∷ [])
      then some (104 ∷ 105 ∷ [])
      else if bytes_eq q (116 ∷ 47 ∷ 99 ∷ [])
      then some (1 ∷ 0 ∷ 255 ∷ [])
      else none;
}

-- The same with an ignore file in `t`, which has a comment and the rule `b`.
abbrev ruled_home : Folders
ruled_home = record home {
  files = λ q.
      if bytes_eq q ((116 ∷ 47 ∷ 46 ∷ 47 ∷ []) ++ ignore_name)
      then some (35 ∷ 10 ∷ 98 ∷ 10 ∷ [])
      else none;
}

collect_files_binary-tree_example :
    (found : List FileEntry) × (collect_files_binary 2 roomy ruled_home target_dir [] [] true []
      ≡ [] ++ found)
    × IsFound true [] ((98 ∷ []) ∷ []) [] home_tree found
unfolding paf_archive.Create.Tree.directory_at paf_archive.Create.Tree.path_below
    paf_archive.Create.Tree.without_dots paf_archive.Create.Tree.names_of
    paf_archive.Create.Tree.height paf_archive.Create.Tree.lines_text
    paf_archive.Create.Tree.rules_among paf_archive.Create.Tree.is_rule
collect_files_binary-tree_example =
    collect_files_binary-tree roomy (λ n. refl) ruled_home target_dir 2 true [] ((98 ∷ []) ∷ []) []
      home_tree [] (omega arith)
      (
        inr (
          (35 ∷ []) ∷ (98 ∷ []) ∷ [],
          (
            ((omega arith, tt), ((λ e. omega arith), tt), omega arith),
            (((omega arith, tt), ((λ e. omega arith), tt), omega arith), tt),
          ),
          refl,
          refl,
        ),
        (_, refl, refl),
      )
      (refl, refl, (inl (refl, refl), (_, refl, refl)), (refl, refl, tt), (refl, refl, tt))

abbrev collected : List FileEntry
collected =
    record { path = 97 ∷ 47 ∷ 98 ∷ []; size = 2; offset = 0 }
    ∷ record { path = 99 ∷ []; size = 3; offset = 0 }
    ∷ []

home-collected :
    collect_all 2 roomy home (target_dir ∷ []) (root_rules home none target_dir) true [] ≡ collected
unfolding collect_all root_rules collect_files_binary rules_in directory_of
    paf_archive.Create.collect_opened paf_archive.Create.collect_names
    paf_archive.Create.collect_kind paf_archive.Create.child_of paf_archive.Create.add_entry
    paf_archive.Create.load_ignore_file match_ignore
home-collected = refl

same_length : (a c : Bytes) → some a ≡ some c → length c ≡ length a
same_length a c e = let same : c ≡ a = cc in ap length same

collected-IsHonest : All (IsHonest home.files target_dir) collected
collected-IsHonest =
    (λ c e. same_length (104 ∷ 105 ∷ []) c e, (λ c e. same_length (1 ∷ 0 ∷ 255 ∷ []) c e, tt))

found_two : found_files home.files target_dir collected ≡ two_files
unfolding found_files paf_archive.Create.Archive.found_file
found_two = refl

found-Fits : Fits (found_files home.files target_dir collected)
found-Fits = rw found_two two_files-Fits

paf_create_binary-archive_example :
    paf_create_binary 2 roomy processor home true (target_dir ∷ []) none true
    ≡ some (archive false (found_files home.files target_dir collected))
paf_create_binary-archive_example =
    paf_create_binary-archive roomy processor (λ n. refl) processor-IsBackend 2 home
      (target_dir ∷ []) none true collected home-collected collected-IsHonest found-Fits

paf_create_index_only-archive_example :
    paf_create_index_only 2 roomy processor home true (target_dir ∷ [])
    ≡ some (archive true (found_files home.files target_dir collected))
paf_create_index_only-archive_example =
    paf_create_index_only-archive roomy processor (λ n. refl) processor-IsBackend 2 home
      (target_dir ∷ []) collected home-collected collected-IsHonest found-Fits

-- `*.o` against `a.o`
match_ignore-Glob_example :
    (match_ignore (97 ∷ 46 ∷ 111 ∷ []) ((42 ∷ 46 ∷ 111 ∷ []) ∷ []) ≡ true)
    ↔ Any (λ (p : Bytes). Glob p (97 ∷ 46 ∷ 111 ∷ [])) ((42 ∷ 46 ∷ 111 ∷ []) ∷ [])
match_ignore-Glob_example = match_ignore-Glob (97 ∷ 46 ∷ 111 ∷ []) ((42 ∷ 46 ∷ 111 ∷ []) ∷ [])
