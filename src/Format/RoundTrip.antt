-- ===== src/Format/RoundTrip.antt =====
-- The header and the index entries read back as they were written.
use paf_archive.Prelude.{
  ℕ, suc, ◌*◌, ◌≡◌, ◌≤◌, refl, ◌∙◌, arith, List, [], ◌∷◌, ◌++◌, length, take, drop, take-append,
  drop-append, drop-append_add, take_all, length-append, le→ltb_false, append_assoc, some, All,
}
use paf_archive.Words.{Bytes, le_bytes, le_value, length-le_bytes, le_value-le_bytes}
use paf_archive.Format.{
  PafHeader, PafIndexEntry, encode_header, decode_header, encode_entry, decode_entry,
  encode_entries, decode_entries, cons_some, IsHeader, IsEntry,
}

-- The layout of the header, for any bytes in its fields.
module _ (m a b c d e : Bytes) (hm : length m ≡ 4) (ha : length a ≡ 4) (hb : length b ≡ 4)
    (hc : length c ≡ 4) (hd : length d ≡ 8) (he : length e ≡ 8) where
  header_layout : decode_header (m ++ (a ++ (b ++ (c ++ (d ++ e))))) ≡ record {
    magic = m;
    version = le_value a;
    flags = le_value b;
    file_count = le_value c;
    index_offset = le_value d;
    path_offset = le_value e;
  }
  unfolding decode_header
  header_layout = rw (
    take-append 4 m _ hm,
    drop-append 4 m _ hm,
    take-append 4 a _ ha,
    drop-append_add 8 4 m _ (omega arith),
    drop-append 4 a _ ha,
    take-append 4 b _ hb,
    drop-append_add 12 8 m _ (omega arith),
    drop-append_add 8 4 a _ (omega arith),
    drop-append 4 b _ hb,
    take-append 4 c _ hc,
    drop-append_add 16 12 m _ (omega arith),
    drop-append_add 12 8 a _ (omega arith),
    drop-append_add 8 4 b _ (omega arith),
    drop-append 4 c _ hc,
    take-append 8 d _ hd,
    drop-append_add 24 20 m _ (omega arith),
    drop-append_add 20 16 a _ (omega arith),
    drop-append_add 16 12 b _ (omega arith),
    drop-append_add 12 8 c _ (omega arith),
    drop-append 8 d _ hd,
    take_all 8 e (omega arith),
  )

module _ (a b c d e f g : Bytes) (ha : length a ≡ 8) (hb : length b ≡ 4) (hc : length c ≡ 4)
    (hd : length d ≡ 8) (he : length e ≡ 8) (hf : length f ≡ 64) (hg : length g ≡ 32) where
  entry_layout : decode_entry (a ++ (b ++ (c ++ (d ++ (e ++ (f ++ g)))))) ≡ record {
    path_buffer_offset = le_value a;
    path_length = le_value b;
    flags = le_value c;
    data_offset = le_value d;
    data_size = le_value e;
    hash = f;
    reserved = g;
  }
  unfolding decode_entry
  entry_layout = rw (
    take-append 8 a _ ha,
    drop-append 8 a _ ha,
    take-append 4 b _ hb,
    drop-append_add 12 4 a _ (omega arith),
    drop-append 4 b _ hb,
    take-append 4 c _ hc,
    drop-append_add 16 8 a _ (omega arith),
    drop-append_add 8 4 b _ (omega arith),
    drop-append 4 c _ hc,
    take-append 8 d _ hd,
    drop-append_add 24 16 a _ (omega arith),
    drop-append_add 16 12 b _ (omega arith),
    drop-append_add 12 8 c _ (omega arith),
    drop-append 8 d _ hd,
    take-append 8 e _ he,
    drop-append_add 32 24 a _ (omega arith),
    drop-append_add 24 20 b _ (omega arith),
    drop-append_add 20 16 c _ (omega arith),
    drop-append_add 16 8 d _ (omega arith),
    drop-append 8 e _ he,
    take-append 64 f _ hf,
    drop-append_add 96 88 a _ (omega arith),
    drop-append_add 88 84 b _ (omega arith),
    drop-append_add 84 80 c _ (omega arith),
    drop-append_add 80 72 d _ (omega arith),
    drop-append_add 72 64 e _ (omega arith),
    drop-append 64 f _ hf,
    take_all 32 g (omega arith),
  )

pub length-encode_header : (h : PafHeader) → IsHeader h → length (encode_header h) ≡ 32
unfolding encode_header
length-encode_header h v = simp (length-append, length-le_bytes) (omega arith)

pub length-encode_entry : (e : PafIndexEntry) → IsEntry e → length (encode_entry e) ≡ 128
unfolding encode_entry
length-encode_entry e v = simp (length-append, length-le_bytes) (omega arith)

-- A header that fits its fields reads back from the 32 bytes that it is written as.
pub decode_header-encode_header : (h : PafHeader) → IsHeader h → decode_header (encode_header h) ≡ h
unfolding encode_header
decode_header-encode_header h v =
    header_layout h.magic (le_bytes 4 h.version) (le_bytes 4 h.flags) (le_bytes 4 h.file_count)
      (le_bytes 8 h.index_offset) (le_bytes 8 h.path_offset) v.magic_size (length-le_bytes 4 _)
      (length-le_bytes 4 _) (length-le_bytes 4 _) (length-le_bytes 8 _) (length-le_bytes 8 _)
    ∙ λ i. record {
      magic = h.magic;
      version = le_value-le_bytes 4 h.version v.version_fits i;
      flags = le_value-le_bytes 4 h.flags v.flags_fits i;
      file_count = le_value-le_bytes 4 h.file_count v.file_count_fits i;
      index_offset = le_value-le_bytes 8 h.index_offset v.index_offset_fits i;
      path_offset = le_value-le_bytes 8 h.path_offset v.path_offset_fits i;
    }

-- An index entry that fits its fields reads back from the 128 bytes that it is written as.
pub decode_entry-encode_entry : (e : PafIndexEntry) → IsEntry e → decode_entry (encode_entry e) ≡ e
unfolding encode_entry
decode_entry-encode_entry e v =
    entry_layout (le_bytes 8 e.path_buffer_offset) (le_bytes 4 e.path_length) (le_bytes 4 e.flags)
      (le_bytes 8 e.data_offset) (le_bytes 8 e.data_size) e.hash e.reserved (length-le_bytes 8 _)
      (length-le_bytes 4 _) (length-le_bytes 4 _) (length-le_bytes 8 _) (length-le_bytes 8 _)
      v.hash_size v.reserved_size
    ∙ λ i. record {
      path_buffer_offset = le_value-le_bytes 8 e.path_buffer_offset v.path_buffer_offset_fits i;
      path_length = le_value-le_bytes 4 e.path_length v.path_length_fits i;
      flags = le_value-le_bytes 4 e.flags v.flags_fits i;
      data_offset = le_value-le_bytes 8 e.data_offset v.data_offset_fits i;
      data_size = le_value-le_bytes 8 e.data_size v.data_size_fits i;
      hash = e.hash;
      reserved = e.reserved;
    }

pub length-encode_entries :
    (es : List PafIndexEntry) → All IsEntry es → length (encode_entries es) ≡ length es * 128
unfolding encode_entries
length-encode_entries [] v = omega arith
length-encode_entries (e ∷ es) (ve, ves) =
    rw (length-append, length-encode_entry e ve, length-encode_entries es ves) (omega arith)

decode_entries_step :
    (n : ℕ) (b : Bytes)
    → 128 ≤ length b
    → decode_entries (suc n) b
      ≡ cons_some (decode_entry (take 128 b)) (decode_entries n (drop 128 b))
unfolding decode_entries
decode_entries_step n b h = rw (le→ltb_false (length b) 128 h)

decode_entries_none : (b : Bytes) → decode_entries 0 b ≡ some []
unfolding decode_entries
decode_entries_none b = refl

-- The index block reads back as the array of its entries, whatever stands behind it in the file.
pub decode_entries-encode_entries :
    (es : List PafIndexEntry) (post : Bytes)
    → All IsEntry es
    → decode_entries (length es) (encode_entries es ++ post) ≡ some es
unfolding encode_entries
decode_entries-encode_entries [] post v = decode_entries_none post
decode_entries-encode_entries (e ∷ es) post (ve, ves) =
    let tail = encode_entries es ++ post in
    let size = length-encode_entry e ve in
    let enough : 128 ≤ length (encode_entry e ++ tail) =
      omega (arith, length-append (encode_entry e) tail) in
    rw (
      append_assoc (encode_entry e) (encode_entries es) post,
      decode_entries_step (length es) (encode_entry e ++ tail) enough,
      take-append 128 (encode_entry e) tail size,
      drop-append 128 (encode_entry e) tail size,
      decode_entry-encode_entry e ve,
      decode_entries-encode_entries es post ves,
    )
