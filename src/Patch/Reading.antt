-- ===== src/Patch/Reading.antt =====
-- What `paf_patch_apply_atomic` of libpaf/src/libpaf_patch.c reads in a patch that
-- `paf_create_patch` of libpaf_core.c wrote.
use paf_archive.Prelude.{
  ℕ, suc, ◌+◌, ◌*◌, ◌≤◌, ◌<◌, ◌≡◌, ◌^◌, refl, ap, ap₂, sym, ◌∙◌, arith, true, false, List, [], ◌∷◌,
  ◌++◌, length, length-append, append_assoc, append-nil, take, All, some, le→ltb_false, lt→ltb, leb,
  ==_yes, ==_no, ◌==◌, drop-append,
}
use paf_archive.Words.{Bytes, u64}
use paf_archive.Stdio.{
  Machine, Stream, open_stream, fseek, fread, NoNul, c_string_lem, fseek-fread, content-fseek,
  content-fread, fread-front,
}
use paf_archive.Format.{encode_header, encode_entries, decode_entries, paf_magic, IsEntry, IsHeader}
use paf_archive.Format.RoundTrip.{
  length-encode_header, decode_header-encode_header, length-encode_entries,
  decode_entries-encode_entries,
}
use paf_archive.Reader.{ok, with_stream, read_header, read_index, read_data, path_position}
use paf_archive.Reader.Archive.{read_data-at}
use paf_archive.Extract.{open_archive, open_header, open_index, at_data}
use paf_archive.Patch.Copying.{left}
use paf_archive.Patch.Staging.{read_rel_path}
use paf_archive.Create.Layout.{
  PatchItem, payloads, item_paths, item_entry, item_entries, items_header, patch_archive, FitsPatch,
  payloads-append, item_paths-append,
}

-- The fields that the format leaves to the item fit their place.
abbrev pub IsItem : PatchItem → Type 0
IsItem t = (length t.hash ≡ 64) × (t.flags < 2 ^ 32)

abbrev head_bytes : List PatchItem → Bytes
head_bytes ts = encode_header (items_header ts)

abbrev entry_bytes : List PatchItem → Bytes
entry_bytes ts = encode_entries (item_entries 0 0 ts)

item_entries-IsEntry :
    (p d : ℕ) (ts : List PatchItem)
    → p + length (item_paths ts) < 2 ^ 63
    → d + length (payloads ts) < 2 ^ 63
    → All (λ t. length (PatchItem.path t) < 1024) ts
    → All IsItem ts
    → All IsEntry (item_entries p d ts)
item_entries-IsEntry p d [] hp hd h k = tt
item_entries-IsEntry p d (t ∷ ts) hp hd (short, h) ((hash, flags), k) =
    let lp = length-append t.path (item_paths ts) in
    let ld = length-append t.payload (payloads ts) in
    (
      record {
        path_buffer_offset_fits = omega (arith, lp);
        path_length_fits = omega arith;
        flags_fits = flags;
        data_offset_fits = omega (arith, ld);
        data_size_fits = omega (arith, ld);
        hash_size = hash;
        reserved_size = refl;
      },
      item_entries-IsEntry (p + length t.path) (d + length t.payload) ts (omega (arith, lp))
          (omega (arith, ld)) h k,
    )

length-item_entries : (p d : ℕ) (ts : List PatchItem) → length (item_entries p d ts) ≡ length ts
length-item_entries p d [] = refl
length-item_entries p d (t ∷ ts) =
    ap suc (length-item_entries (p + length t.path) (d + length t.payload) ts)

magic-head_bytes : (ts : List PatchItem) → take 4 (head_bytes ts) ≡ paf_magic
unfolding encode_header
magic-head_bytes ts = refl

module _ (ts : List PatchItem) (fits : FitsPatch ts) (items : All IsItem ts) where
  items_header-IsHeader : IsHeader (items_header ts)
  items_header-IsHeader = record {
    magic_size = refl;
    version_fits = omega arith;
    flags_fits = omega arith;
    file_count_fits = omega (arith, fits.count);
    index_offset_fits = omega (arith, fits.size);
    path_offset_fits = omega (arith, fits.size);
  }

  length-head_bytes : length (head_bytes ts) ≡ 32
  length-head_bytes = length-encode_header _ items_header-IsHeader

  entries : All IsEntry (item_entries 0 0 ts)
  entries =
      item_entries-IsEntry 0 0 ts (omega (arith, fits.size)) (omega (arith, fits.size)) fits.paths
        items

  length-entry_bytes : length (entry_bytes ts) ≡ length ts * 128
  length-entry_bytes =
      length-encode_entries _ entries ∙ ap (λ (n : ℕ). n * 128) (length-item_entries 0 0 ts)

  read_header-patch :
      (fp : Stream)
      → fp.content ≡ patch_archive ts
      → fp.pos ≡ 0
      → (fp' : Stream) × (read_header fp ≡ some (items_header ts, fp'))
        × (fp'.content ≡ patch_archive ts)
  unfolding read_header
  read_header-patch fp hc hp =
      let got = fread-front fp 32 (head_bytes ts) _ hp hc length-head_bytes in
      (
        (fread fp 32).1,
        rw (
          got,
          le→ltb_false (length (head_bytes ts)) 32 (omega (arith, length-head_bytes)),
          magic-head_bytes ts,
          decode_header-encode_header _ items_header-IsHeader,
        ),
        content-fread fp 32 ∙ hc,
      )

  read_index-patch :
      (fp : Stream)
      → fp.content ≡ patch_archive ts
      → (fp' : Stream) × (read_index fp (items_header ts) ≡ some (item_entries 0 0 ts, fp'))
        × (fp'.content ≡ patch_archive ts)
  unfolding read_index
  read_index-patch fp hc =
      let n = length ts in
      let pre = head_bytes ts ++ payloads ts in
      let regroup : fp.content ≡ pre ++ (entry_bytes ts ++ item_paths ts) =
        hc ∙ sym (append_assoc (head_bytes ts) (payloads ts) _) in
      let at : length pre ≡ 32 + length (payloads ts) =
        omega (arith, length-append (head_bytes ts) (payloads ts), length-head_bytes) in
      let got =
        fseek-fread fp (32 + length (payloads ts)) (n * 128) pre (entry_bytes ts) (item_paths ts)
          regroup at length-entry_bytes (omega (arith, fits.size)) in
      let whole =
        ap (decode_entries n) got
        ∙ ap₂ decode_entries (sym (length-item_entries 0 0 ts)) (sym (append-nil (entry_bytes ts)))
        ∙ decode_entries-encode_entries (item_entries 0 0 ts) [] entries in
      let fp' = (fread (fseek fp (32 + length (payloads ts))) (n * 128)).1 in
      (fp', ap (with_stream fp') whole, content-fread _ _ ∙ content-fseek fp _ ∙ hc)

  -- The patch opens, with the entries of its items.
  pub open_archive-patch :
      (m : Machine)
      → ((n : ℕ) → m.malloc n ≡ true)
      → (fp : Stream) × (open_archive m (some (patch_archive ts))
          ≡ ok (record { header = items_header ts; entries = item_entries 0 0 ts; fp = fp }))
        × (fp.content ≡ patch_archive ts)
  unfolding open_archive open_header open_index
  open_archive-patch m memory =
      let (fp, header, hc) = read_header-patch (open_stream (patch_archive ts)) refl refl in
      let (fp', index, hc') = read_index-patch fp hc in
      (fp', rw (header, memory (128 * length ts), index) refl, hc')

  module _ (before after : List PatchItem) (t : PatchItem) (split : before ++ t ∷ after ≡ ts)
      (fp : Stream) (hc : fp.content ≡ patch_archive ts) where
    all_paths : item_paths ts ≡ item_paths before ++ (t.path ++ item_paths after)
    all_paths = ap item_paths (sym split) ∙ item_paths-append before (t ∷ after)

    all_payloads : payloads ts ≡ payloads before ++ (t.payload ++ payloads after)
    all_payloads = ap payloads (sym split) ∙ payloads-append before (t ∷ after)

    paths_below : length (item_paths before) ≤ length (item_paths ts)
    paths_below =
        omega (
          arith,
          ap length all_paths,
          length-append (item_paths before) (t.path ++ item_paths after),
        )

    payloads_below : length (payloads before) ≤ length (payloads ts)
    payloads_below = omega (
      arith,
      ap length all_payloads,
      length-append (payloads before) (t.payload ++ payloads after),
    )

    -- The path of an item is read whole.
    pub read_rel_path-patch :
        (d : ℕ)
        → 0 < length t.path
        → length t.path < 1024
        → NoNul t.path
        → (read_rel_path (items_header ts) (item_entry (length (item_paths before)) d t) fp).0
          ≡ some t.path
    unfolding read_rel_path
    read_rel_path-patch d some_path short clean =
        let body = head_bytes ts ++ (payloads ts ++ entry_bytes ts) in
        let pre = body ++ item_paths before in
        let regroup : fp.content ≡ pre ++ (t.path ++ item_paths after) =
          hc
          ∙ ap (λ (x : Bytes). head_bytes ts ++ x)
              (sym (append_assoc (payloads ts) (entry_bytes ts) (item_paths ts)))
          ∙ sym (append_assoc (head_bytes ts) (payloads ts ++ entry_bytes ts) (item_paths ts))
          ∙ ap (λ (x : Bytes). body ++ x) all_paths
          ∙ sym (append_assoc body (item_paths before) (t.path ++ item_paths after)) in
        let at : length pre
            ≡ 32 + length (payloads ts) + length ts * 128 + length (item_paths before) =
          omega (
            arith,
            length-append body (item_paths before),
            length-append (head_bytes ts) (payloads ts ++ entry_bytes ts),
            length-append (payloads ts) (entry_bytes ts),
            length-head_bytes,
            length-entry_bytes,
          ) in
        let e = item_entry (length (item_paths before)) d t in
        let pos : path_position (items_header ts) e ≡ length pre =
          omega (arith, at, paths_below, fits.size) in
        let got =
          fseek-fread fp (length pre) (length t.path) pre t.path (item_paths after) regroup refl
            refl (omega (arith, at, paths_below, fits.size)) in
        let not_empty : (length t.path == 0) ≡ false = ==_no (omega arith) in
        let not_long : leb 1024 (length t.path) ≡ false = ground arith in
        rw (
          not_empty,
          not_long,
          pos,
          got,
          ==_yes (let r : length t.path ≡ length t.path = refl in r),
          c_string_lem t.path clean,
        )

    data_regroup :
        fp.content
        ≡ (head_bytes ts ++ payloads before)
          ++ (t.payload ++ (payloads after ++ (entry_bytes ts ++ item_paths ts)))
    data_regroup =
        let tail = entry_bytes ts ++ item_paths ts in
        let rest = payloads after ++ tail in
        hc
        ∙ ap (λ (x : Bytes). head_bytes ts ++ (x ++ tail)) all_payloads
        ∙ ap (λ (x : Bytes). head_bytes ts ++ x)
            (append_assoc (payloads before) (t.payload ++ payloads after) tail
              ∙ ap (λ (x : Bytes). payloads before ++ x)
                  (append_assoc t.payload (payloads after) tail))
        ∙ sym (append_assoc (head_bytes ts) (payloads before) (t.payload ++ rest))

    data_at : length (head_bytes ts ++ payloads before) ≡ 32 + length (payloads before)
    data_at = omega (arith, length-append (head_bytes ts) (payloads before), length-head_bytes)

    -- The data of an item, as one read and as what stands where it is copied from.
    pub read_data-patch :
        (p : ℕ) → (read_data fp (item_entry p (length (payloads before)) t)).0 ≡ some t.payload
    read_data-patch p =
        read_data-at fp (item_entry p (length (payloads before)) t)
          (head_bytes ts ++ payloads before) t.payload
          (payloads after ++ (entry_bytes ts ++ item_paths ts)) data_regroup (sym data_at)
          (omega (arith, data_at, payloads_below, fits.size)) refl

    pub left-at_data :
        (p : ℕ)
        → left (at_data fp (item_entry p (length (payloads before)) t))
          ≡ t.payload ++ (payloads after ++ (entry_bytes ts ++ item_paths ts))
    unfolding at_data fseek
    left-at_data p =
        let off = 32 + length (payloads before) in
        let pos : u64 off ≡ off = omega (arith, payloads_below, fits.size) in
        let room = lt→ltb off (2 ^ 63) (omega (arith, payloads_below, fits.size)) in
        rw (pos, room, data_regroup) (drop-append off (head_bytes ts ++ payloads before) _ data_at)
