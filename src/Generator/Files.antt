-- ===== src/Generator/Files.antt =====
-- The temporary files of libpaf/src/paf_generator.c, and what one file more does to them.
use paf_archive.Prelude.{
  ℕ, ◌+◌, ◌<◌, ◌≡◌, ◌^◌, ap, ap₂, sym, ◌∙◌, arith, List, [], ◌∷◌, ◌++◌, length, replicate, Bool,
  true, false, All, append-nil, length-append, if◌then◌else◌,
}
use paf_archive.Words.{Bytes, u32, u64}
use paf_archive.Sha256.{sha256}
use paf_archive.Format.{encode_entries, encode_entry}
use paf_archive.Generator.{InputFile, PafGenerator, new_entry, put_file}
use paf_archive.Generator.Spec.{
  data_bytes, path_bytes, stored, entry_of, entries_from, Fits, data_bytes-append,
  path_bytes-append, entries_from-append, encode_entries-append, length-stored-le,
}

-- The temporary files hold exactly the files `fs`.
pub record Flushed (io : Bool) (fs : List InputFile) (g : PafGenerator) : Type 0 where
  pub mode : g.index_only ≡ io
  pub data_block : g.data_tmp ≡ stored io fs
  pub index_block : g.index_tmp ≡ encode_entries (entries_from io 0 0 fs)
  pub path_block : g.path_tmp ≡ path_bytes fs
  pub count : g.file_count ≡ length fs
  pub data_offset : g.current_data_offset ≡ length (stored io fs)
  pub path_offset : g.current_path_offset ≡ length (path_bytes fs)

pub All-append_right {ℓ κ} :
    {A : Type ℓ} (P : A → Type κ) (xs ys : List A) → All P (xs ++ ys) → All P ys
All-append_right P [] ys h = h
All-append_right P (x ∷ xs) ys h = All-append_right P xs ys h.1

pub All-append_left {ℓ κ} :
    {A : Type ℓ} (P : A → Type κ) (xs ys : List A) → All P (xs ++ ys) → All P xs
All-append_left P [] ys h = tt
All-append_left P (x ∷ xs) ys h = (h.0, All-append_left P xs ys h.1)

-- A part of a list of files that fits.
pub Fits-append_left : (fs gs : List InputFile) → Fits (fs ++ gs) → Fits fs
Fits-append_left fs gs h = record {
  count = omega (arith, h.count, length-append fs gs);
  size = omega (
    arith,
    h.size,
    length-append fs gs,
    ap length (data_bytes-append fs gs),
    length-append (data_bytes fs) (data_bytes gs),
    ap length (path_bytes-append fs gs),
    length-append (path_bytes fs) (path_bytes gs),
  );
  paths = All-append_left _ fs gs h.paths;
}

data_step :
    (io : Bool) (fs : List InputFile) (f : InputFile) (tmp : Bytes)
    → tmp ≡ stored io fs
    → (if io then tmp else tmp ++ f.content) ≡ stored io (fs ++ f ∷ [])
data_step true fs f tmp h = h
data_step false fs f tmp h =
    ap (λ (t : Bytes). t ++ f.content) h
    ∙ ap (λ (t : Bytes). data_bytes fs ++ t) (sym (append-nil f.content))
    ∙ sym (data_bytes-append fs (f ∷ []))

offset_step :
    (io : Bool) (fs : List InputFile) (f : InputFile) (offset : ℕ)
    → offset ≡ length (stored io fs)
    → length (stored io fs) + length f.content < 2 ^ 63
    → (if io then offset else u64 (offset + length f.content)) ≡ length (stored io (fs ++ f ∷ []))
offset_step true fs f offset h room = h
offset_step false fs f offset h room = omega (
  arith,
  ap length (data_bytes-append fs (f ∷ [])),
  length-append (data_bytes fs) (f.content ++ []),
  length-append f.content [],
)

at_zero : {a b : ℕ} → a ≡ b → a ≡ 0 + b
at_zero h = omega arith

one_more :
    (io : Bool) (fs : List InputFile) (f : InputFile)
    → encode_entries (entries_from io 0 0 fs)
        ++ encode_entry (entry_of (0 + length (path_bytes fs)) (0 + length (stored io fs)) f)
      ≡ encode_entries (entries_from io 0 0 (fs ++ f ∷ []))
unfolding encode_entries
one_more io fs f =
    let e = entry_of (0 + length (path_bytes fs)) (0 + length (stored io fs)) f in
    ap (λ (t : Bytes). encode_entries (entries_from io 0 0 fs) ++ t)
      (sym (append-nil (encode_entry e)))
    ∙ sym (encode_entries-append (entries_from io 0 0 fs) (e ∷ []))
    ∙ ap encode_entries (sym (entries_from-append io 0 0 fs (f ∷ [])))

module _ (io : Bool) (fs : List InputFile) (f : InputFile) (fits : Fits (fs ++ f ∷ [])) where
  short : length f.path < 1024
  short = (All-append_right _ fs (f ∷ []) fits.paths).0

  sizes :
      (length fs + 1 < 2 ^ 32)
      × (length (stored io fs) + length f.content < 2 ^ 63)
      × (length (path_bytes fs) + length f.path < 2 ^ 63)
  sizes =
      let n = length-append fs (f ∷ []) in
      let d = ap length (data_bytes-append fs (f ∷ [])) in
      let d' = length-append (data_bytes fs) (f.content ++ []) in
      let p = ap length (path_bytes-append fs (f ∷ [])) in
      let p' = length-append (path_bytes fs) (f.path ++ []) in
      let c = length-append f.content [] in
      let q = length-append f.path [] in
      let le = length-stored-le io fs in
      (
        omega (arith, fits.count, n),
        omega (arith, fits.size, n, d, d', p, p', c, q, le),
        omega (arith, fits.size, n, d, d', p, p', c, q),
      )

  -- One file more.
  pub put_file-Flushed :
      {g : PafGenerator}
      → Flushed io fs g
      → Flushed io
          (fs ++ f ∷ [])
          (put_file g f.path (sha256 f.content) (length f.content) f.content)
  unfolding put_file new_entry
  put_file-Flushed {g} h =
      let (n, d, p) = sizes in
      let entry : new_entry g f.path (sha256 f.content) (length f.content)
          ≡ entry_of (0 + length (path_bytes fs)) (0 + length (stored io fs)) f =
        λ i. record {
          path_buffer_offset = at_zero h.path_offset i;
          path_length = (let e : u32 (length f.path) ≡ length f.path = omega (arith, short) in e) i;
          flags = 0;
          data_offset = at_zero h.data_offset i;
          data_size = length f.content;
          hash = sha256 f.content ++ replicate 32 0;
          reserved = replicate 32 0;
        } in
      record {
        mode = h.mode;
        data_block = rw h.mode (data_step io fs f g.data_tmp h.data_block);
        index_block =
            ap₂ (λ (a b : Bytes). a ++ b) h.index_block (ap encode_entry entry) ∙ one_more io fs f;
        path_block =
            ap (λ (t : Bytes). t ++ f.path) h.path_block
            ∙ ap (λ (t : Bytes). path_bytes fs ++ t) (sym (append-nil f.path))
            ∙ sym (path_bytes-append fs (f ∷ []));
        count = omega (arith, h.count, length-append fs (f ∷ []));
        data_offset = rw h.mode (offset_step io fs f g.current_data_offset h.data_offset d);
        path_offset = omega (
          arith,
          h.path_offset,
          short,
          ap length (path_bytes-append fs (f ∷ [])),
          length-append (path_bytes fs) (f.path ++ []),
          length-append f.path [],
        );
      }
