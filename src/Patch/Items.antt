-- ===== src/Patch/Items.antt =====
-- A whole patch that nothing stands in the way of, from its items as `paf_create_patch` of
-- libpaf/src/libpaf_core.c lays them out to the files that `paf_patch_apply_atomic` of libpaf_patch.c
-- leaves.
use paf_archive.Prelude.{
  ℕ, ◌+◌, ◌≡◌, ◌≢◌, refl, ap, ap₂, sym, ◌∙◌, arith, Bool, true, false, List, [], ◌∷◌, ◌++◌, length,
  All, Any, Option, ◌⊎◌, if◌then◌else◌, some, inl, inr, append_assoc, length-append,
}
use paf_archive.Words.{Bytes}
use paf_archive.Stdio.{Machine, Stream}
use paf_archive.Reader.{ok}
use paf_archive.Disk.{Disk, Access}
use paf_archive.Patch.{count_error, error_result}
use paf_archive.Patch.Staging.{
  stage_suffix, read_rel_path, patch_to, patch_path, patch_entry, patch_entries, patch_opened,
  paf_patch_apply_atomic,
}
use paf_archive.Patch.Success.{AllAllowed, Carries, Applied, patch_to-Applied}
use paf_archive.Patch.Streams.{content-read_rel_path, content-patch_entry}
use paf_archive.Patch.Reading.{
  IsItem, open_archive-patch, read_rel_path-patch, read_data-patch, left-at_data,
}
use paf_archive.Create.Layout.{
  PatchItem, payloads, item_paths, item_entry, item_entries, items_header, patch_archive, FitsPatch,
  payloads-append, item_paths-append,
}
use paf_archive.Patch.Places.{
  IsUsable, target, IsPlace, Apart, Separate, All-map, All-zip, IsPlace-or_not,
}

Applied-along :
    (d : Disk) (dst : Bytes) (g : Option Bytes) (r r' : Bool × Stream × Disk)
    → r' ≡ r
    → Applied d dst g r
    → Applied d dst g r'
Applied-along d dst g r r' e h = rw e h

module _ (m : Machine) (a : Access) (free : AllAllowed a) (memory : (n : ℕ) → m.malloc n ≡ true)
    (stack dst_dir : Bytes) (goal : PatchItem → Option Bytes) (ts : List PatchItem)
    (fits : FitsPatch ts) (items : All IsItem ts) where
  -- The item finds its file in a state from which it carries it to its goal.
  abbrev Ready : Disk → PatchItem → Type 0
  Ready d t =
      (p q : ℕ) → Carries m stack (item_entry p q t) t.payload (d.files (target dst_dir t)) (goal t)

  abbrev Reached : Disk → PatchItem → Type 0
  Reached d t = d.files (target dst_dir t) ≡ goal t

  entry-Applied :
      (before after : List PatchItem) (t : PatchItem) (fp : Stream) (d : Disk)
      → before ++ t ∷ after ≡ ts
      → fp.content ≡ patch_archive ts
      → IsUsable dst_dir t
      → Ready d t
      → Applied d (target dst_dir t) (goal t) (
          patch_entry m a stack dst_dir
            (items_header ts)
            (item_entry (length (item_paths before)) (length (payloads before)) t)
            fp
            d)
  unfolding patch_entry patch_path
  entry-Applied before after t fp d split hc u ready =
      let p = length (item_paths before) in
      let q = length (payloads before) in
      let e = item_entry p q t in
      let fp' = (read_rel_path (items_header ts) e fp).1 in
      let rel =
        read_rel_path-patch ts fits items before after t split fp hc q u.some_path u.short
          u.clean in
      let hc' = content-read_rel_path (items_header ts) e fp ∙ hc in
      let run : patch_entry m a stack dst_dir (items_header ts) e fp d
          ≡ patch_to m a stack e (target dst_dir t) fp' d =
        ap (λ (o : Option Bytes). patch_path m a stack dst_dir e o fp' d) rel
        ∙ ap
            (λ (b : Bool).
              if b then patch_to m a stack e (target dst_dir t) fp' d else (false, fp', d))
            u.safe in
      Applied-along d (target dst_dir t) (goal t) (patch_to m a stack e (target dst_dir t) fp' d) _
        run
        (patch_to-Applied m a free memory stack e (target dst_dir t) t.payload _ (goal t) fp' d
          (left-at_data ts fits items before after t split fp' hc' p)
          (read_data-patch ts fits items before after t split fp' hc' p) refl (ready p q))

  -- The path is neither the file nor the staging file of an item.
  abbrev Elsewhere : Bytes → PatchItem → Type 0
  Elsewhere q t = (q ≢ target dst_dir t) × (q ≢ target dst_dir t ++ stage_suffix)

  abbrev AllReached : ℕ → Disk → List PatchItem → ℕ × Disk → Type 0
  AllReached errors d us r =
      (r.0 ≡ errors)
      × All (Reached r.1) us
      × ((q : Bytes) → All (Elsewhere q) us → r.1.files q ≡ d.files q)

  -- One item more at the front.
  AllReached-cons :
      (errors : ℕ) (d d1 : Disk) (t : PatchItem) (us : List PatchItem) (done : Bool) (x : ℕ × Disk)
      → done ≡ true
      → Reached d1 t
      → ((q : Bytes)
          → q ≢ target dst_dir t
          → q ≢ target dst_dir t ++ stage_suffix
          → d1.files q ≡ d.files q)
      → All (Apart dst_dir t) us
      → AllReached (count_error done errors) d1 us x
      → AllReached errors d (t ∷ us) x
  AllReached-cons errors d d1 t us true x h reached kept apart (count, all, same) =
      let away =
        All-map (Apart dst_dir t) (Elsewhere (target dst_dir t))
          (λ v (far, stage, back). (λ (e : target dst_dir t ≡ target dst_dir v). far (sym e), back))
          us apart in
      (
        count,
        (same (target dst_dir t) away ∙ reached, all),
        λ q ((not_dst, not_stage), rest). same q rest ∙ kept q not_dst not_stage,
      )
  AllReached-cons errors d d1 t us false x h reached kept apart later = absurd (cc)

  AllReached-along :
      (errors : ℕ) (d : Disk) (us : List PatchItem) (x x' : ℕ × Disk)
      → x' ≡ x
      → AllReached errors d us x
      → AllReached errors d us x'
  AllReached-along errors d us x x' e h = rw e h

  entries-AllReached :
      (before us : List PatchItem) (errors : ℕ) (fp : Stream) (d : Disk)
      → before ++ us ≡ ts
      → fp.content ≡ patch_archive ts
      → All (IsUsable dst_dir) us
      → Separate dst_dir us
      → All (Ready d) us
      → AllReached errors d us (
          patch_entries m a stack dst_dir
            (items_header ts)
            (item_entries (length (item_paths before)) (length (payloads before)) us)
            errors
            fp
            d)
  unfolding patch_entries
  entries-AllReached before [] errors fp d split hc usable_all separate ready =
      (refl, tt, λ q h. refl)
  entries-AllReached before (t ∷ us) errors fp d split hc (u, us_usable) (apart, separate)
        (ready, others) =
      let p = length (item_paths before) in
      let q = length (payloads before) in
      let e = item_entry p q t in
      let r = patch_entry m a stack dst_dir (items_header ts) e fp d in
      let (done, reached, kept) = entry-Applied before us t fp d split hc u ready in
      let one = before ++ t ∷ [] in
      let paths : p + length t.path ≡ length (item_paths one) = omega (
        arith,
        ap length (item_paths-append before (t ∷ [])),
        length-append (item_paths before) (t.path ++ []),
        length-append t.path [],
      ) in
      let blocks : q + length t.payload ≡ length (payloads one) = omega (
        arith,
        ap length (payloads-append before (t ∷ [])),
        length-append (payloads before) (t.payload ++ []),
        length-append t.payload [],
      ) in
      let split' : one ++ us ≡ ts = append_assoc before (t ∷ []) us ∙ split in
      let hc' = content-patch_entry m a stack dst_dir (items_header ts) e fp d ∙ hc in
      let still =
        All-zip (Apart dst_dir t) (Ready d)
          (λ v (far, stage, back) at p' q'. rw (kept (target dst_dir v) far stage) (at p' q')) us
          apart others in
      let errors' = count_error r.0 errors in
      let later = entries-AllReached one us errors' r.1 r.2 split' hc' us_usable separate still in
      let index : (x y : ℕ) → ℕ × Disk = λ x y.
        patch_entries m a stack dst_dir (items_header ts) (item_entries x y us) errors' r.1 r.2 in
      let x = index (length (item_paths one)) (length (payloads one)) in
      AllReached-along errors d (t ∷ us) x (index (p + length t.path) (q + length t.payload))
        (ap₂ index paths blocks)
        (AllReached-cons errors d r.2 t us r.0 x done reached kept apart later)

  -- A patch of items whose paths can be used, none of which is the file or the staging file of
  -- another, is applied with no error, if all is allowed, there is memory, and each item carries the
  -- file at its place to its goal: it deletes a file that is there, or its hash is that of its data,
  -- or of what its binary delta makes of the file that is there. Then `paf_patch_apply_atomic` returns
  -- 0, the file of each item is as its goal says, and no other file has changed but staging files.
  pub paf_patch_apply_atomic-items :
      (patch_paf : Bytes) (d : Disk)
      → d.files patch_paf ≡ some (patch_archive ts)
      → All (IsUsable dst_dir) ts
      → Separate dst_dir ts
      → All (Ready d) ts
      → ((paf_patch_apply_atomic m a stack patch_paf dst_dir d).0 ≡ ok tt)
        × All
            (λ (t : PatchItem).
              (paf_patch_apply_atomic m a stack patch_paf dst_dir d).1.files (target dst_dir t)
              ≡ goal t)
            ts
        × ((q : Bytes)
            → ((paf_patch_apply_atomic m a stack patch_paf dst_dir d).1.files q ≡ d.files q)
              ⊎ Any (IsPlace dst_dir q) ts)
  unfolding paf_patch_apply_atomic patch_opened error_result
  paf_patch_apply_atomic-items patch_paf d there usable_all separate ready =
      let (fp, opens, hc) = open_archive-patch ts fits items m memory in
      let (count, all, same) = entries-AllReached [] ts 0 fp d refl hc usable_all separate ready in
      rw (there, opens)
        (
          ap error_result count,
          all,
          λ q. elim (IsPlace-or_not dst_dir q ts) [
            | inl place ↦ inr place
            | inr elsewhere ↦ inl (same q elsewhere)
          ],
        )
