-- ===== src/Delta.antt =====
-- libpaf/src/paf_delta.c: what has changed from one archive to another, by the paths and hashes of
-- their indexes.
pub mod Probing
pub mod Slots
pub mod Filling
pub mod Searching
pub mod Comparing
pub mod Changes
pub mod Ends
use paf_archive.Prelude.{
  ℕ, zero, suc, ◌+◌, ◌*◌, ◌-◌, ◌%◌, Bool, true, false, not, List, [], ◌∷◌, ◌++◌, length, take, ltb,
  ◌==◌, if◌then◌else◌, Option, none, some, get_or,
}
use paf_archive.Words.{Bytes, u32, u32_mod}
use paf_archive.Stdio.{Machine, Files, bytes_eq, junk_bytes}
use paf_archive.Format.{PafEntry}
use paf_archive.Reader.{Outcome, ok, err}
use paf_archive.Listing.{paf_list_binary}

-- `paf_delta_status_t`
pub data PafDeltaStatus : Type 0 where
  added : PafDeltaStatus
  updated : PafDeltaStatus
  deleted : PafDeltaStatus

-- `paf_delta_entry_t`; `path` is the string in the 1024-byte buffer.
pub record PafDeltaEntry : Type 0 where
  pub path : Bytes
  pub status : PafDeltaStatus
  pub new_offset : ℕ
  pub data_size : ℕ
  pub hash : Bytes

-- `sizeof(paf_delta_entry_t)`, and where its hash stands
abbrev pub delta_entry_size : ℕ
delta_entry_size = 1080

abbrev pub delta_hash_offset : ℕ
delta_hash_offset = 1048

-- `hash_node_t`
pub record HashNode : Type 0 where
  pub path : Bytes
  pub index_in_new : ℕ
  pub used : Bool

-- The block of slots; `none` is a slot whose path is NULL.
abbrev pub PathMap : Type 0
PathMap = ℕ → Option HashNode

unfoldable pub empty_map : PathMap
empty_map h = none

-- A `char` is signed: from 128 on it is negative, and the sum is of type `uint32_t`.
unfoldable pub char_value : ℕ → ℕ
char_value c = if ltb c 128 then c else c + (u32_mod - 256)

unfoldable pub hash_from : ℕ → Bytes → ℕ
hash_from hash [] = hash
hash_from hash (c ∷ str) = hash_from (u32 (u32 (u32 (hash * 32) + hash) + char_value c)) str

unfoldable pub hash_string : Bytes → ℕ
hash_string str = hash_from 5381 str

-- The search of both loops from the slot `h` on, over at most `f` slots: where it stops.
unfoldable pub probe : ℕ → (Option HashNode → Bool) → PathMap → ℕ → ℕ → Option ℕ
probe zero stops map size h = none
probe (suc f) stops map size h =
    let rest = probe f stops map size ((h + 1) % size) in if stops (map h) then some h else rest

-- `!(map[h].path != NULL)`
unfoldable pub is_null : Option HashNode → Bool
is_null none = true
is_null (some _) = false

-- the search for an old path ends at NULL, or at the `break`
unfoldable pub is_null_or : Bytes → Option HashNode → Bool
is_null_or path none = true
is_null_or path (some node) = bytes_eq node.path path

unfoldable pub set_slot : PathMap → ℕ → HashNode → PathMap
set_slot map h node n = if n == h then some node else map n

abbrev pub with_slot {ℓ κ} : {A : Type ℓ} {B : Type κ} → Option A → (A → Option B) → Option B
with_slot none k = none
with_slot (some a) k = k a

-- one round of the loop that fills the map
unfoldable pub put_path : ℕ → ℕ → Bytes → PathMap → Option PathMap
put_path size i path map =
    with_slot (probe size is_null map size (hash_string path % size))
      λ h. some (set_slot map h (record { path = path; index_in_new = i; used = false }))

unfoldable pub fill_map : ℕ → ℕ → List PafEntry → PathMap → Option PathMap
fill_map size i [] map = some map
fill_map size i (e ∷ es) map = with_slot (put_path size i e.path map) (fill_map size (i + 1) es)

-- What a read outside the list would give; no slot has such an index.
abbrev pub no_entry : PafEntry
no_entry = record { path = []; size = 0; offset = 0; hash = [] }

unfoldable pub updated_entry : Bytes → PafEntry → PafDeltaEntry
updated_entry path e = record {
  path = take 1023 path;
  status = updated;
  new_offset = e.offset;
  data_size = e.size;
  hash = e.hash;
}

-- The hash is not written: it is what `malloc` left at the entry `n` of the results.
unfoldable pub deleted_entry : Machine → ℕ → Bytes → PafDeltaEntry
deleted_entry m n path = record {
  path = take 1023 path;
  status = deleted;
  new_offset = 0;
  data_size = 0;
  hash = junk_bytes m.junk (n * delta_entry_size + delta_hash_offset) 32;
}

unfoldable pub added_entry : PafEntry → PafDeltaEntry
added_entry e = record {
  path = take 1023 e.path;
  status = added;
  new_offset = e.offset;
  data_size = e.size;
  hash = e.hash;
}

-- `memcmp(...) != 0` decides whether a file that is in both was updated.
unfoldable pub compare_hashes : PafEntry → PafEntry → List PafDeltaEntry
compare_hashes old new = if bytes_eq old.hash new.hash then [] else updated_entry old.path new ∷ []

-- What the slot that stopped the search says of an old entry, with `n` results before: the results
-- to add, and the map with the slot marked.
unfoldable pub compare_at :
    Machine
    → ℕ
    → List PafEntry
    → PafEntry
    → PathMap
    → ℕ
    → Option HashNode
    → List PafDeltaEntry × PathMap
compare_at m n new old map h none = (deleted_entry m n old.path ∷ [], map)
compare_at m n new old map h (some node) = (
  compare_hashes old (get_or new node.index_in_new no_entry),
  set_slot map h (record node { used = true }),
)

-- one round of the loop over the old list
unfoldable pub compare_old :
    Machine → ℕ → ℕ → List PafEntry → PafEntry → PathMap → Option (List PafDeltaEntry × PathMap)
compare_old m size n new old map =
    with_slot (probe size (is_null_or old.path) map size (hash_string old.path % size))
      λ h. some (compare_at m n new old map h (map h))

abbrev pub more_results :
    List PafDeltaEntry
    → Option (List PafDeltaEntry × PathMap)
    → Option (List PafDeltaEntry × PathMap)
more_results ds none = none
more_results ds (some (es, map)) = some (ds ++ es, map)

unfoldable pub compare_all :
    Machine
    → ℕ
    → ℕ
    → List PafEntry
    → List PafEntry
    → PathMap
    → Option (List PafDeltaEntry × PathMap)
compare_all m size n new [] map = some ([], map)
compare_all m size n new (old ∷ olds) map =
    with_slot (compare_old m size n new old map) λ (r : List PafDeltaEntry × PathMap).
      more_results r.0 (compare_all m size (n + length r.0) new olds r.1)

-- the body of the loop over the slots
unfoldable pub added_at : List PafEntry → Option HashNode → List PafDeltaEntry
added_at new none = []
added_at new (some node) =
    if node.used then [] else added_entry (get_or new node.index_in_new no_entry) ∷ []

-- The loop over the slots, `n` of them from `i` on.
unfoldable pub added_from : ℕ → ℕ → List PafEntry → PathMap → List PafDeltaEntry
added_from zero i new map = []
added_from (suc n) i new map = added_at new (map i) ++ added_from n (i + 1) new map

unfoldable pub map_size : List PafEntry → ℕ
map_size [] = 16
map_size (e ∷ es) = u32 (length (e ∷ es) * 4)

unfoldable pub with_added :
    ℕ → List PafEntry → Option (List PafDeltaEntry × PathMap) → Option (List PafDeltaEntry)
with_added size new none = none
with_added size new (some (ds, map)) = some (ds ++ added_from size 0 new map)

-- The three loops; `none` is a search that has no end.
unfoldable pub find_changes : Machine → List PafEntry → List PafEntry → Option (List PafDeltaEntry)
find_changes m old new =
    let size = map_size new in
    with_slot (fill_map size 0 new empty_map)
      λ (map : PathMap). with_added size new (compare_all m size 0 new old map)

abbrev pub return_delta : Option (List PafDeltaEntry) → Option (Outcome (List PafDeltaEntry))
return_delta none = none
return_delta (some ds) = some (ok ds)

-- behind both listings, with the two allocations
unfoldable pub calculate_listed :
    Machine
    → Outcome (List PafEntry)
    → Outcome (List PafEntry)
    → Option (Outcome (List PafDeltaEntry))
calculate_listed m (err _) new = some (err 1)
calculate_listed m (ok old) (err _) = some (err 1)
calculate_listed m (ok old) (ok new) =
    let calloc_ok = m.malloc (16 * map_size new) in
    let malloc_ok = m.malloc (delta_entry_size * u32 (length old + length new)) in
    if (if calloc_ok then malloc_ok else false)
    then return_delta (find_changes m old new)
    else some (err 1)

-- The delta's entries, or the negative of the return value; `none` if a search has no end.
-- `paf_delta_free` only releases the entries.
unfoldable pub paf_delta_calculate :
    Machine → Files → Bytes → Bytes → Option (Outcome (List PafDeltaEntry))
paf_delta_calculate m files old_paf_path new_paf_path =
    calculate_listed m (paf_list_binary m files old_paf_path) (paf_list_binary m files new_paf_path)

-- `compare_delta_offsets(a, b) <= 0`
unfoldable pub compare_delta_offsets : PafDeltaEntry → PafDeltaEntry → Bool
compare_delta_offsets a b = not (ltb b.new_offset a.new_offset)

-- `qsort` sorts by the order that it is given.
unfoldable pub paf_delta_optimize_io :
    ((PafDeltaEntry → PafDeltaEntry → Bool) → List PafDeltaEntry → List PafDeltaEntry)
    → List PafDeltaEntry
    → List PafDeltaEntry
paf_delta_optimize_io qsort [] = []
paf_delta_optimize_io qsort (d ∷ ds) = qsort compare_delta_offsets (d ∷ ds)
