-- ===== src/Delta/Searching.antt =====
-- The search for an old path in the map of libpaf/src/paf_delta.c, beside a search of the new list
-- from its front.
use paf_archive.Prelude.{
  ℕ, zero, suc, ◌+◌, ◌%◌, ◌<◌, ◌≡◌, refl, ap, sym, ◌∙◌, arith, Bool, true, false, List, [], ◌∷◌,
  ◌++◌, ◌*◌, take, length, Option, none, some, get_elem?, if◌then◌else◌, ◌⊎◌, inl, inr, Bool-cases,
  Option-cases,
}
use paf_archive.Words.{Bytes}
use paf_archive.Stdio.{Machine, junk_bytes, bytes_eq, bytes_eq_refl, bytes_eq→eq}
use paf_archive.Format.{PafEntry}
use paf_archive.Listing.{has_path}
use paf_archive.Delta.{
  HashNode, PathMap, probe, is_null_or, hash_string, PafDeltaEntry, deleted, updated,
}
use paf_archive.Delta.Probing.{search-Stopped}
use paf_archive.Delta.Filling.{Distinct, Filled, node_of, path-node_of}

-- The first entry with this path.
unfoldable pub find_entry : Bytes → List PafEntry → Option PafEntry
find_entry path [] = none
find_entry path (e ∷ es) =
    let rest = find_entry path es in if bytes_eq e.path path then some e else rest

-- What one old entry has become, with `n` changes before. It is DELETED where the new list has not
-- its path: the change has no place, and its hash is what `malloc` left at that change. Otherwise
-- equal hashes are no change, and different ones an UPDATED with the place, the size and the hash of
-- the new list. Each change has a path of at most 1023 bytes.
unfoldable pub change_of : Machine → ℕ → PafEntry → Option PafEntry → List PafDeltaEntry
change_of m n old none =
    record {
      path = take 1023 old.path;
      status = deleted;
      new_offset = 0;
      data_size = 0;
      hash = junk_bytes m.junk (n * 1080 + 1048) 32;
    }
    ∷ []
change_of m n old (some e) =
    if bytes_eq old.hash e.hash
    then []
    else record {
      path = take 1023 old.path;
      status = updated;
      new_offset = e.offset;
      data_size = e.size;
      hash = e.hash;
    }
      ∷ []

-- What each old entry has become, in the order of the old list.
unfoldable pub changes : Machine → ℕ → List PafEntry → List PafEntry → List PafDeltaEntry
changes m n new [] = []
changes m n new (old ∷ olds) =
    let ds = change_of m n old (find_entry old.path new) in ds ++ changes m (n + length ds) new olds

get_elem-has_path :
    (new : List PafEntry) (i : ℕ) (e : PafEntry)
    → get_elem? new i ≡ some e
    → has_path e.path new ≡ true
unfolding has_path
get_elem-has_path [] i e h = absurd (cc)
get_elem-has_path (a ∷ new) zero e h =
    let same : a ≡ e = cc in
    let eq : bytes_eq a.path e.path ≡ true =
      ap (λ (x : PafEntry). bytes_eq x.path e.path) same ∙ bytes_eq_refl e.path in
    rw eq refl
get_elem-has_path (a ∷ new) (suc i) e h = ground (arith, get_elem-has_path new i e h)

-- Where the paths differ, an entry is the one that is found by its path.
find_entry-Distinct :
    (new : List PafEntry) (i : ℕ) (e : PafEntry)
    → Distinct new
    → get_elem? new i ≡ some e
    → find_entry e.path new ≡ some e
unfolding find_entry
find_entry-Distinct [] i e d h = absurd (cc)
find_entry-Distinct (a ∷ new) zero e d h =
    let same : a ≡ e = cc in
    let eq : bytes_eq a.path e.path ≡ true =
      ap (λ (x : PafEntry). bytes_eq x.path e.path) same ∙ bytes_eq_refl e.path in
    rw eq (ap some same)
find_entry-Distinct (a ∷ new) (suc i) e (d, ds) h = elim (Bool-cases (bytes_eq a.path e.path)) [
  | inl eq ↦
      let there = get_elem-has_path new i e h in
      let here : has_path e.path new ≡ false =
        ap (λ (p : Bytes). has_path p new) (sym (bytes_eq→eq a.path e.path eq)) ∙ d in
      absurd (cc)
  | inr ne ↦ rw ne (find_entry-Distinct new i e ds h)
]

find_entry-path :
    (path : Bytes) (new : List PafEntry) (e : PafEntry)
    → find_entry path new ≡ some e
    → (i : ℕ) × (get_elem? new i ≡ some e) × (e.path ≡ path)
unfolding find_entry
find_entry-path path [] e h = absurd (cc)
find_entry-path path (a ∷ new) e h = elim (Bool-cases (bytes_eq a.path path)) [
  | inl eq ↦
      let here : some a ≡ some e = sym (rw eq refl) ∙ h in
      let same : a ≡ e = cc in
      (0, here, ap (λ (x : PafEntry). x.path) (sym same) ∙ bytes_eq→eq a.path path eq)
  | inr ne ↦
      let (i, at, named) = find_entry-path path new e (sym (rw ne refl) ∙ h) in (suc i, at, named)
]

pub probe-same :
    (f : ℕ) (stops : Option HashNode → Bool) (t t' : PathMap) (size x : ℕ)
    → ((h : ℕ) → stops (t' h) ≡ stops (t h))
    → probe f stops t' size x ≡ probe f stops t size x
unfolding probe
probe-same zero stops t t' size x h = refl
probe-same (suc f) stops t t' size x h =
    rw (h x, probe-same f stops t t' size ((x + 1) % size) h) refl

-- The answer of the map about a path: NULL or an entry with it, as the search of the list says.
abbrev pub Answer : PathMap → List PafEntry → Bytes → ℕ → Type 0
Answer t new path h =
    ((t h ≡ none) × (find_entry path new ≡ none))
    ⊎ ((e : PafEntry) × (i : ℕ) × (t h ≡ some (node_of e i))
        × (get_elem? new i ≡ some e)
        × (e.path ≡ path)
        × (find_entry path new ≡ some e))

module _ (size : ℕ) (new : List PafEntry) (t : PathMap) (filled : Filled size new t)
    (apart : Distinct new) (room : length new < size) where
  abbrev search : Bytes → PathMap → Option ℕ
  search path map = probe size (is_null_or path) map size (hash_string path % size)

  -- A search for the path of a slot ends there.
  search-slot : (h : ℕ) (nd : HashNode) → t h ≡ some nd → search nd.path t ≡ some h
  search-slot h nd at =
      let (x, ix, nx, b, px) = filled.known h nd at in
      ap (λ (q : Bytes). search q t) (path-node_of nd x nd.index_in_new nx) ∙ px

  pub one_slot :
      (path : Bytes) (h h' : ℕ) (nd : HashNode)
      → search path t ≡ some h
      → t h' ≡ some nd
      → nd.path ≡ path
      → h' ≡ h
  one_slot path h h' nd p at named =
      let both : some h' ≡ some h =
        sym (search-slot h' nd at) ∙ ap (λ (q : Bytes). search q t) named ∙ p in
      cc

  slot-node_of : (e : PafEntry) (i : ℕ) → (node_of e i).path ≡ e.path
  slot-node_of e i = path-node_of (node_of e i) e i refl

  not_there :
      (path : Bytes) (h : ℕ) → search path t ≡ some h → t h ≡ none → find_entry path new ≡ none
  not_there path h p free = elim (Option-cases (find_entry path new)) [
    | inl e ↦ e
    | inr (e, at) ↦
        let (i, ie, named) = find_entry-path path new e at in
        let (h', th) = filled.found i e ie in
        let same = one_slot path h h' (node_of e i) p th (slot-node_of e i ∙ named) in
        let clash : none ≡ some (node_of e i) = sym free ∙ ap t (sym same) ∙ th in absurd (cc)
  ]

  -- A search of the map for a path ends, with what the search of the list says.
  pub search-Answer : (path : Bytes) → (h : ℕ) × (search path t ≡ some h) × Answer t new path h
  unfolding is_null_or
  search-Answer path =
      let (h, p, b, stop) =
        search-Stopped (is_null_or path) refl t size (hash_string path)
          (omega (arith, filled.few)) in
      elim (Option-cases (t h)) [
        | inl free ↦ (h, p, inl (free, not_there path h p free))
        | inr (nd, at) ↦
            let eq : bytes_eq nd.path path ≡ true = sym (ap (is_null_or path) at) ∙ stop in
            let (x, ix, nx, bx, px) = filled.known h nd at in
            let named : x.path ≡ path =
              sym (path-node_of nd x nd.index_in_new nx) ∙ bytes_eq→eq nd.path path eq in
            (
              h,
              p,
              inr (
                x,
                nd.index_in_new,
                at ∙ ap some nx,
                ix,
                named,
                ap (λ (q : Bytes). find_entry q new) (sym named)
                    ∙ find_entry-Distinct new nd.index_in_new x apart ix,
              ),
            )
      ]
