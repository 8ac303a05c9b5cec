-- ===== src/Delta/Comparing.antt =====
-- The second loop of `paf_delta_calculate` in libpaf/src/paf_delta.c, the search of each old path in
-- the map, beside a search of the new list from its front.
use paf_archive.Prelude.{
  ℕ, zero, suc, ◌+◌, ◌%◌, ◌<◌, ◌≡◌, refl, ap, sym, ◌∙◌, Bool, true, false, ◌||◌, List, [], ◌∷◌,
  length, Option, none, some, get_elem?, get_or, inl, inr, Bool-cases,
}
use native.Mathlib.Decide.{ℕ_discrete}
use paf_archive.Words.{Bytes}
use paf_archive.Stdio.{Machine, bytes_eq, bytes_eq_refl, bytes_eq→eq}
use paf_archive.Format.{PafEntry}
use paf_archive.Listing.{has_path}
use paf_archive.Delta.{
  HashNode, PathMap, compare_hashes, updated_entry, deleted_entry, probe, set_slot, is_null_or,
  hash_string, compare_at, compare_old, compare_all, no_entry,
}
use paf_archive.Delta.Probing.{set_slot_here, set_slot_other}
use paf_archive.Delta.Filling.{Distinct, Filled, node_of}
use paf_archive.Delta.Searching.{
  find_entry, change_of, changes, probe-same, search-Answer, one_slot,
}

-- A node that is marked where its path was met.
unfoldable pub mark : (Bytes → Bool) → Option HashNode → Option HashNode
mark met none = none
mark met (some nd) = some (record nd { used = met nd.path })

-- What `compare_old` leaves: the change, and the map with the path marked.
Compared : Machine → ℕ → ℕ → List PafEntry → PathMap → (Bytes → Bool) → PafEntry → PathMap → Type 0
Compared m size n new t met old t1 =
    (t2 : PathMap) × (compare_old m size n new old t1
      ≡ some (change_of m n old (find_entry old.path new), t2))
    × ((h : ℕ) → t2 h ≡ mark (λ (q : Bytes). met q || bytes_eq old.path q) (t h))

is_null_or-mark :
    (path : Bytes) (met : Bytes → Bool) (s : Option HashNode)
    → is_null_or path (mark met s) ≡ is_null_or path s
unfolding is_null_or mark
is_null_or-mark path met none = refl
is_null_or-mark path met (some nd) = refl

-- A path that is not the one met last keeps its mark.
mark-other :
    (met : Bytes → Bool) (path : Bytes) (s : Option HashNode)
    → ((nd : HashNode) → s ≡ some nd → ¬ (nd.path ≡ path))
    → mark met s ≡ mark (λ (q : Bytes). met q || bytes_eq path q) s
unfolding mark
mark-other met path none other = refl
mark-other met path (some nd) other = elim (Bool-cases (bytes_eq path nd.path)) [
  | inl e ↦ absurd (other nd refl (sym (bytes_eq→eq path nd.path e)))
  | inr e ↦ ap (λ (b : Bool). some (record nd { used = b })) (or_none (met nd.path) _ e)
]
  where
    or_none : (a b : Bool) → b ≡ false → a ≡ a || b
    or_none true b e = refl
    or_none false b e = sym e

pub get_or-get_elem :
    (new : List PafEntry) (i : ℕ) (e d : PafEntry) → get_elem? new i ≡ some e → get_or new i d ≡ e
get_or-get_elem [] i e d h = absurd (cc)
get_or-get_elem (a ∷ new) zero e d h = cc
get_or-get_elem (a ∷ new) (suc i) e d h = get_or-get_elem new i e d h

-- The node of an entry, marked or not.
abbrev marked_node : Bool → PafEntry → ℕ → HashNode
marked_node used e i = record (node_of e i) { used = used }

-- The mark of the path that is met now.
mark-here :
    (met : Bytes → Bool) (path : Bytes) (e : PafEntry) (i : ℕ)
    → e.path ≡ path
    → mark (λ (q : Bytes). met q || bytes_eq path q) (some (node_of e i))
      ≡ some (marked_node true e i)
unfolding mark
mark-here met path e i named =
    ap (λ (b : Bool). some (marked_node b e i))
      (or_true (met e.path) (bytes_eq path e.path) (rw named (bytes_eq_refl path)))
  where
    or_true : (a b : Bool) → b ≡ true → a || b ≡ true
    or_true true b e = refl
    or_true false b e = e

mark-none :
    (met : Bytes → Bool) (s : Option HashNode)
    → mark met s ≡ mark (λ (q : Bytes). met q || has_path q []) s
unfolding mark has_path
mark-none met none = refl
mark-none met (some nd) = ap (λ (b : Bool). some (record nd { used = b })) (or_false (met nd.path))
  where
    or_false : (a : Bool) → a ≡ a || false
    or_false true = refl
    or_false false = refl

module _ (size : ℕ) (new : List PafEntry) (t : PathMap) (filled : Filled size new t)
    (apart : Distinct new) (room : length new < size) (m : Machine) where
  abbrev search_in : Bytes → PathMap → Option ℕ
  search_in path map = probe size (is_null_or path) map size (hash_string path % size)

  search-mark :
      (met : Bytes → Bool) (t1 : PathMap) (path : Bytes)
      → ((h : ℕ) → t1 h ≡ mark met (t h))
      → search_in path t1 ≡ search_in path t
  search-mark met t1 path marked =
      probe-same size (is_null_or path) t t1 size (hash_string path % size)
        (λ (h : ℕ). ap (is_null_or path) (marked h) ∙ is_null_or-mark path met (t h))

  compare_old-deleted :
      (met : Bytes → Bool) (t1 : PathMap) (old : PafEntry) (n h : ℕ)
      → ((h : ℕ) → t1 h ≡ mark met (t h))
      → search_in old.path t ≡ some h
      → t h ≡ none
      → find_entry old.path new ≡ none
      → Compared m size n new t met old t1
  unfolding Compared compare_old compare_at compare_hashes updated_entry deleted_entry change_of
      mark
  compare_old-deleted met t1 old n h marked p free e =
      let p1 = search-mark met t1 old.path marked ∙ p in
      let free1 : t1 h ≡ none = marked h ∙ ap (mark met) free in
      (
        t1,
        rw (p1, e, free1) refl,
        λ (x : ℕ).
            marked x
            ∙ mark-other met old.path (t x) (λ (nd : HashNode) at named.
              let same = one_slot size new t filled apart room old.path h x nd p at named in
              let clash : some nd ≡ none = sym at ∙ ap t same ∙ free in absurd (cc)),
      )

  -- The slots behind a mark.
  mark-set_slot :
      (met : Bytes → Bool) (t1 : PathMap) (path : Bytes) (h i : ℕ) (e : PafEntry)
      → ((h : ℕ) → t1 h ≡ mark met (t h))
      → search_in path t ≡ some h
      → t h ≡ some (node_of e i)
      → e.path ≡ path
      → (x : ℕ)
      → set_slot t1 h (marked_node true e i) x
        ≡ mark (λ (q : Bytes). met q || bytes_eq path q) (t x)
  mark-set_slot met t1 path h i e marked p at named x = elim (ℕ_discrete x h) [
    | yes here ↦
        ap (set_slot t1 h (marked_node true e i)) here
        ∙ set_slot_here t1 h (marked_node true e i)
        ∙ sym (mark-here met path e i named)
        ∙ ap (mark (λ (q : Bytes). met q || bytes_eq path q)) (sym (ap t here ∙ at))
    | no other ↦
        set_slot_other t1 h (marked_node true e i) x other
        ∙ marked x
        ∙ mark-other met path (t x) (λ (nd : HashNode) atx namedx.
          other (one_slot size new t filled apart room path h x nd p atx namedx))
  ]

  compare_old-kept :
      (met : Bytes → Bool) (t1 : PathMap) (old : PafEntry) (n h i : ℕ) (e : PafEntry)
      → ((h : ℕ) → t1 h ≡ mark met (t h))
      → search_in old.path t ≡ some h
      → t h ≡ some (node_of e i)
      → get_elem? new i ≡ some e
      → e.path ≡ old.path
      → find_entry old.path new ≡ some e
      → Compared m size n new t met old t1
  unfolding Compared compare_old compare_at compare_hashes updated_entry deleted_entry change_of
      mark
  compare_old-kept met t1 old n h i e marked p at ie named fe =
      let p1 = search-mark met t1 old.path marked ∙ p in
      let at1 = marked h ∙ ap (mark met) at in
      let get = get_or-get_elem new i e no_entry ie in
      (
        set_slot t1 h (marked_node true e i),
        rw (p1, fe, at1, get) refl,
        mark-set_slot met t1 old.path h i e marked p at named,
      )

  -- One old entry is compared as the search of the list says.
  compare_old-Compared :
      (met : Bytes → Bool) (t1 : PathMap) (old : PafEntry) (n : ℕ)
      → ((h : ℕ) → t1 h ≡ mark met (t h))
      → Compared m size n new t met old t1
  compare_old-Compared met t1 old n marked =
      let (h, p, answer) = search-Answer size new t filled apart room old.path in
      elim answer [
        | inl (free, e) ↦ compare_old-deleted met t1 old n h marked p free e
        | inr (x, i, at, ie, named, fe) ↦
            compare_old-kept met t1 old n h i x marked p at ie named fe
      ]

  mark-again :
      (met : Bytes → Bool) (old : PafEntry) (olds : List PafEntry) (s : Option HashNode)
      → mark (λ (q : Bytes). (met q || bytes_eq old.path q) || has_path q olds) s
        ≡ mark (λ (q : Bytes). met q || has_path q (old ∷ olds)) s
  unfolding mark has_path
  mark-again met old olds none = refl
  mark-again met old olds (some nd) =
      ap (λ (b : Bool). some (record nd { used = b }))
        (or_assoc (met nd.path) (bytes_eq old.path nd.path) (has_path nd.path olds))
    where
      or_assoc : (a b c : Bool) → (a || b) || c ≡ a || (b || c)
      or_assoc true b c = refl
      or_assoc false b c = refl

  -- The second loop: the changes of the old list, and the marks of its paths.
  pub compare_all-changes :
      (met : Bytes → Bool) (t1 : PathMap) (olds : List PafEntry) (n : ℕ)
      → ((h : ℕ) → t1 h ≡ mark met (t h))
      → (t2 : PathMap) × (compare_all m size n new olds t1 ≡ some (changes m n new olds, t2))
        × ((h : ℕ) → t2 h ≡ mark (λ (q : Bytes). met q || has_path q olds) (t h))
  unfolding compare_all changes Compared
  compare_all-changes met t1 [] n marked = (t1, refl, λ (h : ℕ). marked h ∙ mark-none met (t h))
  compare_all-changes met t1 (old ∷ olds) n marked =
      let ds = change_of m n old (find_entry old.path new) in
      let (t2, r2, m2) = compare_old-Compared met t1 old n marked in
      let (t3, r3, m3) =
        compare_all-changes (λ (q : Bytes). met q || bytes_eq old.path q) t2 olds (n + length ds)
          m2 in
      (t3, rw (r2, r3) refl, λ (h : ℕ). m3 h ∙ mark-again met old olds (t h))
