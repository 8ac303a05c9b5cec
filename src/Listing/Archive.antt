-- ===== src/Listing/Archive.antt =====
-- The list of an archive that the generator wrote.
use paf_archive.Prelude.{
  ℕ, ◌+◌, ◌-◌, ◌*◌, ◌<◌, ◌≡◌, refl, ap, sym, ◌∙◌, arith, Bool, true, List, [], ◌∷◌, ◌++◌, length,
  length-append, append_assoc, append-nil, All, some, take-append, replicate,
}
use paf_archive.Words.{Bytes, u32}
use paf_archive.Stdio.{
  Machine, Stream, Files, open_stream, NoNul, c_string_lem, junk_bytes, fread, fseek, content-fread,
  content-fseek,
}
use paf_archive.Sha256.{sha256}
use paf_archive.Sha256.Padding.{length-sha256}
use paf_archive.Format.{PafEntry}
use paf_archive.Reader.{ok, clamp_length, path_position}
use paf_archive.Reader.Archive.{
  header_bytes, length-header_bytes, behind, read_header-archive, read_index-archive,
  path_read-behind,
}
use paf_archive.Generator.{InputFile}
use paf_archive.Generator.Spec.{
  path_bytes, stored, entry_of, entries_from, archive, archive_header, Fits, path_bytes-append,
  stored-append, length-stored-nil,
}
use paf_archive.Listing.{
  paf_entry_size, listed_path, list_entries, list_indexed, list_opened, list_file, paf_list_binary,
}

-- What a listing should say of the files, with the data block's offsets from `d` on. The 32-bit
-- fields of `PafEntry` keep the low bits of a size and an offset.
abbrev pub listing_from : Bool → ℕ → List InputFile → List PafEntry
listing_from io d [] = []
listing_from io d (f ∷ fs) =
    record { path = f.path; size = u32 (length f.content); offset = u32 d; hash = sha256 f.content }
    ∷ listing_from io (d + length (stored io (f ∷ []))) fs

abbrev pub CleanPaths : List InputFile → Type 0
CleanPaths [] = Unit
CleanPaths (f ∷ fs) = NoNul f.path × CleanPaths fs

listed_path-whole :
    (m : Machine) (path : Bytes) (i : ℕ) → NoNul path → listed_path m path (length path) i ≡ path
unfolding listed_path junk_bytes
listed_path-whole m path i clean =
    let none_missing : length path - length path ≡ 0 = omega arith in
    rw (none_missing, append-nil, c_string_lem path clean)

module _ (m : Machine) (io : Bool) (fs : List InputFile) (fits : Fits fs) where
  -- The list does not depend on the 32 bytes of the header.
  pub list_entries-behind :
      (top : Bytes) (top_size : length top ≡ 32) (before after : List InputFile) (i p d : ℕ)
      (fp : Stream)
      → before ++ after ≡ fs
      → fp.content ≡ behind io fs fits top top_size
      → p ≡ length (path_bytes before)
      → d ≡ length (stored io before)
      → All (λ f. length (InputFile.path f) < 1024) after
      → CleanPaths after
      → list_entries m (archive_header io fs) i fp (entries_from io p d after)
        ≡ listing_from io d after
  unfolding list_entries
  list_entries-behind top top_size before [] i p d fp split hc hp hd short clean = refl
  list_entries-behind top top_size before (f ∷ after) i p d fp split hc hp hd (here, short)
        (clean, cleans) =
      let len : clamp_length (length f.path) ≡ length f.path = ground arith in
      let s = fseek fp (path_position (archive_header io fs) (entry_of p d f)) in
      let got : (fread s (length f.path)).0 ≡ f.path =
        ap (λ (n : ℕ). (fread s n).0) (sym len)
        ∙ ap
            (λ (q : ℕ).
              (fread (fseek fp (path_position (archive_header io fs) (entry_of q d f)))
                (clamp_length (length f.path))).0)
            hp
        ∙ path_read-behind io fs fits top top_size before after f split fp hc d here in
      let fp' = (fread s (length f.path)).1 in
      let path : listed_path m (fread s (length f.path)).0 (length f.path) i ≡ f.path =
        ap (λ (g : Bytes). listed_path m g (length f.path) i) got
        ∙ listed_path-whole m f.path i clean in
      let one : before ++ f ∷ after ≡ (before ++ f ∷ []) ++ after =
        sym (append_assoc before (f ∷ []) after) in
      let rest =
        list_entries-behind top top_size (before ++ f ∷ []) after (i + 1) (p + length f.path)
          (d + length (stored io (f ∷ []))) fp' (sym one ∙ split)
          (content-fread s _ ∙ content-fseek fp _ ∙ hc)
          (omega (
            arith,
            ap length (path_bytes-append before (f ∷ [])),
            length-append (path_bytes before) (f.path ++ []),
            length-append f.path [],
          ))
          (omega (
            arith,
            ap length (stored-append io before (f ∷ [])),
            length-append (stored io before) (stored io (f ∷ [])),
          ))
          short cleans in
      rw len (λ k.
        record {
          path = path k;
          size = u32 (length f.content);
          offset = u32 d;
          hash = take-append 32 (sha256 f.content) (replicate 32 0) (length-sha256 f.content) k;
        }
        ∷ rest k)

  -- With memory, the listing of the archive of files that fit it and whose paths have no NUL names
  -- the files in order, with their digests and the low 32 bits of their sizes and offsets.
  pub paf_list_binary-archive :
      (files : Files) (paf_path : Bytes)
      → ((n : ℕ) → m.malloc n ≡ true)
      → files paf_path ≡ some (archive io fs)
      → CleanPaths fs
      → paf_list_binary m files paf_path ≡ ok (listing_from io 0 fs)
  unfolding paf_list_binary list_file list_opened list_indexed
  paf_list_binary-archive files paf_path memory there clean =
      let (fp, header, hc) =
        read_header-archive io fs fits (open_stream (archive io fs)) refl refl in
      let (fp', index, hc') = read_index-archive io fs fits fp hc in
      rw (there, header, memory (paf_entry_size * length fs), memory (128 * length fs), index)
        (ap ok (
          list_entries-behind (header_bytes io fs) (length-header_bytes io fs fits) [] fs 0 0 0 fp'
            refl hc' refl (sym (length-stored-nil io)) fits.paths clean))
