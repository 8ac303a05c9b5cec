-- ===== src/Create/Making.antt =====
-- The loop of `paf_create_patch` in libpaf/src/libpaf_core.c keeps its temporary files and counters in
-- step with the items.
use paf_archive.Prelude.{
  ℕ, ◌+◌, ◌*◌, ◌<◌, ◌≡◌, refl, ap, ap₂, sym, ◌∙◌, arith, true, List, [], ◌∷◌, ◌++◌, length,
  replicate, All, Option, none, some, append_assoc, append-nil, length-append,
}
use paf_archive.Words.{Bytes, u32, u64}
use paf_archive.Stdio.{Files}
use paf_archive.Format.{
  PafIndexEntry, encode_header, encode_entry, encode_entries, paf_magic, paf_version,
  paf_entry_deleted,
}
use paf_archive.Reader.{ok}
use paf_archive.Generator.Spec.{encode_entries-append}
use paf_archive.BinaryDelta.{and_then}
use paf_archive.Delta.{PafDeltaEntry}
use paf_archive.Create.Patching.{
  PatchMaking, PatchPart, deletion, content, failure, path_entry, put_entry, put_part, part_of,
  make_parts, patch_header, patch_bytes, finish_patch, empty_patch, patch_of_delta,
}
use paf_archive.Create.Layout.{
  PatchItem, payloads, item_paths, item_entry, item_entries, items_header, patch_archive, FitsPatch,
  item_of, items_of, Holds, empty_patch-Holds, payloads-append, item_paths-append,
  item_entries-append,
}

-- The entry with the counters as they are.
abbrev raw_entry : PatchMaking → PatchItem → PafIndexEntry
raw_entry s t = record {
  path_buffer_offset = s.path_offset;
  path_length = u32 (length t.path);
  flags = t.flags;
  data_offset = s.data_offset;
  data_size = length t.payload;
  hash = t.hash;
  reserved = replicate 32 0;
}

module _ {ℓ} {A : Type ℓ} (P : A → Type 0) where
  All-left : (xs ys : List A) → All P (xs ++ ys) → All P xs
  All-left [] ys h = tt
  All-left (x ∷ xs) ys (p, h) = (p, All-left xs ys h)

  All-last : (xs : List A) (y : A) (ys : List A) → All P (xs ++ y ∷ ys) → P y
  All-last [] y ys (p, _) = p
  All-last (x ∷ xs) y ys (_, h) = All-last xs y ys h

FitsPatch-left : (ts us : List PatchItem) → FitsPatch (ts ++ us) → FitsPatch ts
FitsPatch-left ts us fits = record {
  count = omega (arith, fits.count, length-append ts us);
  size = omega (
    arith,
    fits.size,
    length-append ts us,
    ap length (payloads-append ts us),
    length-append (payloads ts) (payloads us),
    ap length (item_paths-append ts us),
    length-append (item_paths ts) (item_paths us),
  );
  paths = All-left (λ t. length (PatchItem.path t) < 1024) ts us fits.paths;
}

module _ (ts : List PatchItem) (t : PatchItem) (s : PatchMaking) (fits : FitsPatch (ts ++ t ∷ []))
    (h : Holds ts s) where
  payloads_one : payloads (ts ++ t ∷ []) ≡ payloads ts ++ t.payload
  payloads_one =
      payloads-append ts (t ∷ []) ∙ ap (λ (x : Bytes). payloads ts ++ x) (append-nil t.payload)

  paths_one : item_paths (ts ++ t ∷ []) ≡ item_paths ts ++ t.path
  paths_one =
      item_paths-append ts (t ∷ []) ∙ ap (λ (x : Bytes). item_paths ts ++ x) (append-nil t.path)

  short : u32 (length t.path) ≡ length t.path
  short = let b = All-last (λ t. length (PatchItem.path t) < 1024) ts t [] fits.paths in omega arith

  entry_one : raw_entry s t ≡ item_entry (length (item_paths ts)) (length (payloads ts)) t
  entry_one = λ i. record {
    path_buffer_offset = h.path_at i;
    path_length = short i;
    flags = t.flags;
    data_offset = h.data_at i;
    data_size = length t.payload;
    hash = t.hash;
    reserved = replicate 32 0;
  }

  entries_one :
      item_entries 0 0 (ts ++ t ∷ [])
      ≡ item_entries 0 0 ts ++ item_entry (length (item_paths ts)) (length (payloads ts)) t ∷ []
  entries_one =
      item_entries-append 0 0 ts (t ∷ [])
      ∙ ap₂ (λ (a b : ℕ). item_entries 0 0 ts ++ item_entry a b t ∷ []) (omega arith) (omega arith)

  -- The entry, the path and the data of one more item.
  put_entry-Holds : Holds (ts ++ t ∷ []) (put_entry s t.path (raw_entry s t) t.payload)
  unfolding put_entry encode_entries
  put_entry-Holds = record {
    data_block = ap (λ (x : Bytes). x ++ t.payload) h.data_block ∙ sym payloads_one;
    index_block =
        ap₂ (λ (x : Bytes) (e : PafIndexEntry). x ++ encode_entry e) h.index_block entry_one
        ∙ ap (λ (x : Bytes). encode_entries (item_entries 0 0 ts) ++ x) (sym (append-nil _))
        ∙ sym (
            encode_entries-append (item_entries 0 0 ts)
              (item_entry (length (item_paths ts)) (length (payloads ts)) t ∷ []))
        ∙ ap encode_entries (sym entries_one);
    path_block = ap (λ (x : Bytes). x ++ t.path) h.path_block ∙ sym paths_one;
    data_at = omega (
      arith,
      fits.size,
      h.data_at,
      ap length payloads_one,
      length-append (payloads ts) t.payload,
    );
    path_at = omega (
      arith,
      fits.size,
      h.path_at,
      short,
      ap length paths_one,
      length-append (item_paths ts) t.path,
    );
    count = omega (arith, fits.count, h.count, length-append ts (t ∷ []));
    no_error = h.no_error;
  }

-- One part, which is no error.
put_part-Holds :
    (ts : List PatchItem) (t : PatchItem) (s : PatchMaking) (path : Bytes) (p : PatchPart)
    → FitsPatch (ts ++ t ∷ [])
    → Holds ts s
    → item_of path p ≡ some t
    → Holds (ts ++ t ∷ []) (put_part s path p)
unfolding item_of put_part path_entry
put_part-Holds ts t s path deletion fits h e =
    let u : PatchItem = record {
      path = path;
      flags = paf_entry_deleted;
      payload = [];
      hash = replicate 64 0;
    } in
    let same : u ≡ t = cc in rw (← same) (put_entry-Holds ts u s (rw same fits) h)
put_part-Holds ts t s path (content flags payload hash) fits h e =
    let u : PatchItem = record {
      path = path;
      flags = flags;
      payload = payload;
      hash = hash ++ replicate 32 0;
    } in
    let same : u ≡ t = cc in rw (← same) (put_entry-Holds ts u s (rw same fits) h)
put_part-Holds ts t s path failure fits h e = absurd (cc)

pub and_then-some {ℓ κ} :
    {A : Type ℓ} {B : Type κ} (o : Option A) (k : A → Option B) (r : B)
    → and_then o k ≡ some r
    → (a : A) × (o ≡ some a) × (k a ≡ some r)
and_then-some none k r h = absurd (cc)
and_then-some (some a) k r h = (a, refl, h)

-- The loop, on a delta without errors, holds the items of the delta.
make_parts-Holds :
    (files : Files) (old_dir new_dir : Bytes) (es : List PafDeltaEntry) (ts us : List PatchItem)
    (s : PatchMaking)
    → items_of files old_dir new_dir es ≡ some us
    → FitsPatch (ts ++ us)
    → Holds ts s
    → (s' : PatchMaking) × (make_parts files old_dir new_dir es s ≡ some s') × Holds (ts ++ us) s'
unfolding items_of make_parts
make_parts-Holds files old_dir new_dir [] ts us s e fits h =
    let same : us ≡ [] = cc in (s, refl, rw same (rw (append-nil ts) h))
make_parts-Holds files old_dir new_dir (e ∷ es) ts us s h fits held =
    let (p, part, h1) = and_then-some (part_of files old_dir new_dir e) _ us h in
    let (t, item, h2) = and_then-some (item_of e.path p) _ us h1 in
    let (vs, others, h3) = and_then-some (items_of files old_dir new_dir es) _ us h2 in
    let same : t ∷ vs ≡ us = cc in
    let assoc : (ts ++ t ∷ []) ++ vs ≡ ts ++ us =
      append_assoc ts (t ∷ []) vs ∙ ap (λ (x : List PatchItem). ts ++ x) same in
    let fits' : FitsPatch ((ts ++ t ∷ []) ++ vs) = rw assoc fits in
    let one = put_part-Holds ts t s e.path p (FitsPatch-left (ts ++ t ∷ []) vs fits') held item in
    let (s', r, held') =
      make_parts-Holds files old_dir new_dir es (ts ++ t ∷ []) vs (put_part s e.path p) others fits'
        one in
    (
      s',
      ap
            (λ (o : Option PatchPart).
              and_then o
                (λ (q : PatchPart). make_parts files old_dir new_dir es (put_part s e.path q)))
            part
          ∙ r,
      rw (← assoc) held',
    )

module _ {ts : List PatchItem} {s : PatchMaking} (h : Holds ts s) (fits : FitsPatch ts) where
  patch_header-items : patch_header s ≡ items_header ts
  unfolding patch_header
  patch_header-items =
      let index : u64 (32 + s.data_offset) ≡ 32 + length (payloads ts) =
        omega (arith, fits.size, h.data_at) in
      let paths : u64 (u64 (32 + s.data_offset) + s.file_count * 128)
          ≡ 32 + length (payloads ts) + length ts * 128 =
        omega (arith, fits.size, h.data_at, h.count) in
      λ i. record {
        magic = paf_magic;
        version = paf_version;
        flags = 0;
        file_count = h.count i;
        index_offset = index i;
        path_offset = paths i;
      }

  patch_bytes-items : patch_bytes s ≡ patch_archive ts
  unfolding patch_bytes
  patch_bytes-items =
      ap₂ (λ (a b : Bytes). a ++ b) (ap encode_header patch_header-items)
        (ap₂ (λ (a b : Bytes). a ++ b) h.data_block
          (ap₂ (λ (a b : Bytes). a ++ b) h.index_block h.path_block))

-- From a delta whose entries all come to an item, and an output that can be opened,
-- `paf_create_patch` writes exactly the patch archive of the items, which fit it: the offsets, the
-- counts and the three temporary files agree.
pub patch_of_delta-items :
    (files : Files) (old_dir new_dir : Bytes) (delta : List PafDeltaEntry) (ts : List PatchItem)
    → items_of files old_dir new_dir delta ≡ some ts
    → FitsPatch ts
    → patch_of_delta files old_dir new_dir true (ok delta) ≡ some (ok (patch_archive ts))
unfolding patch_of_delta finish_patch
patch_of_delta-items files old_dir new_dir delta ts items fits =
    let (s, r, held) =
      make_parts-Holds files old_dir new_dir delta [] ts empty_patch items fits empty_patch-Holds in
    ap
      (λ (o : Option PatchMaking).
        and_then o (λ (q : PatchMaking). some (finish_patch true q.errors q)))
      r
    ∙ ap (λ (n : ℕ). some (finish_patch true n s)) held.no_error
    ∙ ap (λ (b : Bytes). some (ok b)) (patch_bytes-items held fits)
