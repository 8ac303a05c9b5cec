-- ===== src/Delta/Filling.antt =====
-- The map that the first loop of `paf_delta_calculate` in libpaf/src/paf_delta.c fills: which slot
-- holds which path, and that a search for a path finds its slot.
use paf_archive.Prelude.{
  ℕ, zero, suc, ◌+◌, ◌%◌, ◌<◌, ◌≤◌, ◌≡◌, refl, ap, ap₂, sym, ◌∙◌, arith, true, false, List, [], ◌∷◌,
  ◌++◌, length, Option, none, some, get_elem?, ◌⊎◌, inl, inr, Bool-cases, append_assoc, append-nil,
  length-append,
}
use native.Mathlib.Decide.{ℕ_discrete}
use paf_archive.Words.{Bytes}
use paf_archive.Stdio.{bytes_eq, bytes_eq_refl, bytes_eq→eq}
use paf_archive.Format.{PafEntry}
use paf_archive.Listing.{has_path}
use paf_archive.Delta.{
  HashNode, PathMap, probe, set_slot, is_null, is_null_or, hash_string, put_path, fill_map,
  with_slot, empty_map,
}
use paf_archive.Delta.Probing.{taken, taken-set_slot, search-Stopped, set_slot_here, set_slot_other}
use paf_archive.Delta.Slots.{Unknown, probe-keep, probe-put, is_null→none}

-- No two entries have one path.
abbrev pub Distinct : List PafEntry → Type 0
Distinct [] = Unit
Distinct (e ∷ es) = (has_path e.path es ≡ false) × Distinct es

abbrev pub node_of : PafEntry → ℕ → HashNode
node_of e i = record { path = e.path; index_in_new = i; used = false }

pub index-node_of : (nd : HashNode) (e : PafEntry) (i : ℕ) → nd ≡ node_of e i → nd.index_in_new ≡ i
index-node_of nd e i named = ap (λ (n : HashNode). n.index_in_new) named

pub path-node_of : (nd : HashNode) (e : PafEntry) (i : ℕ) → nd ≡ node_of e i → nd.path ≡ e.path
path-node_of nd e i named = ap (λ (n : HashNode). n.path) named

-- A slot holds an entry of `pre` by its number and is where a search for its path ends, and each
-- entry is in a slot.
pub record Filled (size : ℕ) (pre : List PafEntry) (t : PathMap) : Type 0 where
  pub known :
      (h : ℕ) (node : HashNode)
      → t h ≡ some node
      → (e : PafEntry) × (get_elem? pre node.index_in_new ≡ some e)
        × (node ≡ node_of e node.index_in_new)
        × (h < size)
        × (probe size (is_null_or e.path) t size (hash_string e.path % size) ≡ some h)
  pub found :
      (i : ℕ) (e : PafEntry) → get_elem? pre i ≡ some e → (h : ℕ) × (t h ≡ some (node_of e i))
  pub few : taken t size ≤ length pre

module _ {ℓ} {A : Type ℓ} where
  get_elem-append :
      (xs ys : List A) (i : ℕ) (x : A) → get_elem? xs i ≡ some x → get_elem? (xs ++ ys) i ≡ some x
  get_elem-append [] ys i x h = absurd (cc)
  get_elem-append (a ∷ xs) ys zero x h = h
  get_elem-append (a ∷ xs) ys (suc i) x h = get_elem-append xs ys i x h

  get_elem-length : (xs ys : List A) (y : A) → get_elem? (xs ++ y ∷ ys) (length xs) ≡ some y
  get_elem-length [] ys y = refl
  get_elem-length (x ∷ xs) ys y = get_elem-length xs ys y

  -- An element of a list with one more at the end.
  get_elem-snoc :
      (xs : List A) (y : A) (i : ℕ) (x : A)
      → get_elem? (xs ++ y ∷ []) i ≡ some x
      → (get_elem? xs i ≡ some x) ⊎ ((i ≡ length xs) × (x ≡ y))
  get_elem-snoc [] y zero x h = inr (refl, cc)
  get_elem-snoc [] y (suc i) x h = absurd (cc)
  get_elem-snoc (a ∷ xs) y zero x h = inl h
  get_elem-snoc (a ∷ xs) y (suc i) x h = elim (get_elem-snoc xs y i x h) [
    | inl e ↦ inl e
    | inr (e, same) ↦ inr (ap suc e, same)
  ]

has_path-here :
    (path : Bytes) (pre es : List PafEntry) (e : PafEntry)
    → has_path path (pre ++ e ∷ es) ≡ false
    → bytes_eq e.path path ≡ false
unfolding has_path
has_path-here path [] es e h = ground arith
has_path-here path (x ∷ pre) es e h = has_path-here path pre es e (ground arith)

bytes_eq_sym_false : (s t : Bytes) → bytes_eq s t ≡ false → bytes_eq t s ≡ false
bytes_eq_sym_false s t h = elim (Bool-cases (bytes_eq t s)) [
  | inl e ↦
      let same = bytes_eq→eq t s e in
      let eq : bytes_eq s t ≡ true = rw same (bytes_eq_refl s) in absurd (cc)
  | inr e ↦ e
]

-- The next entry has a path of its own.
Distinct-fresh :
    (pre es : List PafEntry) (e : PafEntry) (i : ℕ) (x : PafEntry)
    → Distinct (pre ++ e ∷ es)
    → get_elem? pre i ≡ some x
    → bytes_eq x.path e.path ≡ false
Distinct-fresh [] es e i x d h = absurd (cc)
Distinct-fresh (a ∷ pre) es e zero x (d, _) h =
    let same : a ≡ x = cc in
    bytes_eq_sym_false e.path x.path (has_path-here x.path pre es e (rw (sym same) d))
Distinct-fresh (a ∷ pre) es e (suc i) x (_, d) h = Distinct-fresh pre es e i x d h

-- The paths of the slots are those of the entries, so a path that is new is in no slot.
Filled-Unknown :
    (size : ℕ) (pre es : List PafEntry) (e : PafEntry) (t : PathMap)
    → Filled size pre t
    → Distinct (pre ++ e ∷ es)
    → Unknown e.path t
Filled-Unknown size pre es e t f d h nd at =
    let (x, i, named, _, _) = f.known h nd at in
    let same : nd.path ≡ x.path = path-node_of nd x nd.index_in_new named in
    rw same (Distinct-fresh pre es e nd.index_in_new x d i)

some_inj : (a b : HashNode) → some a ≡ some b → a ≡ b
some_inj a b h = cc

Slot : ℕ → List PafEntry → PathMap → ℕ → HashNode → Type 0
Slot size pre t h nd =
    (e : PafEntry) × (get_elem? pre nd.index_in_new ≡ some e)
    × (nd ≡ node_of e nd.index_in_new)
    × (h < size)
    × (probe size (is_null_or e.path) t size (hash_string e.path % size) ≡ some h)

known-new :
    (size : ℕ) (pre : List PafEntry) (e : PafEntry) (t : PathMap) (h : ℕ) (nd : HashNode)
    → nd ≡ node_of e (length pre)
    → h < size
    → probe size (is_null_or e.path) t size (hash_string e.path % size) ≡ some h
    → Slot size (pre ++ e ∷ []) t h nd
unfolding Slot
known-new size pre e t h nd named b p =
    let last : nd.index_in_new ≡ length pre = index-node_of nd e (length pre) named in
    (
      e,
      ap (get_elem? (pre ++ e ∷ [])) last ∙ get_elem-length pre [] e,
      named ∙ ap (node_of e) (sym last),
      b,
      p,
    )

-- What the slots hold when an entry is put in a free one.
known-put :
    (size : ℕ) (pre : List PafEntry) (e : PafEntry) (t : PathMap) (hq h : ℕ) (nd : HashNode)
    → Filled size pre t
    → t hq ≡ none
    → hq < size
    → probe size
        (is_null_or e.path)
        (set_slot t hq (node_of e (length pre)))
        size
        (hash_string e.path % size)
      ≡ some hq
    → set_slot t hq (node_of e (length pre)) h ≡ some nd
    → Slot size (pre ++ e ∷ []) (set_slot t hq (node_of e (length pre))) h nd
unfolding Slot
known-put size pre e t hq h nd f free b p at =
    let node = node_of e (length pre) in
    elim (ℕ_discrete h hq) [
      | yes here ↦
          let put : some nd ≡ some node =
            sym at ∙ ap (set_slot t hq node) here ∙ set_slot_here t hq node in
          known-new size pre e (set_slot t hq node) h nd (some_inj nd node put) (rw here b)
            (p ∙ ap some (sym here))
      | no other ↦
          let old : t h ≡ some nd = sym (set_slot_other t hq node h other) ∙ at in
          let (x, i, named, bh, ph) = f.known h nd old in
          let there =
            probe-keep size x.path t size (hash_string x.path % size) hq h node nd free old ph in
          (x, get_elem-append pre (e ∷ []) nd.index_in_new x i, named, bh, there)
    ]

-- A slot that is taken keeps its path.
put-other :
    (t : PathMap) (hq h : ℕ) (node nd : HashNode)
    → t hq ≡ none
    → t h ≡ some nd
    → set_slot t hq node h ≡ some nd
put-other t hq h node nd free at =
    set_slot_other t hq node h
      (λ (e : h ≡ hq). let clash : some nd ≡ none = sym at ∙ ap t e ∙ free in absurd (cc))
    ∙ at

-- One entry is put.
put_path-Filled :
    (size : ℕ) (pre es : List PafEntry) (e : PafEntry) (t : PathMap)
    → length pre < size
    → Filled size pre t
    → Distinct (pre ++ e ∷ es)
    → (t' : PathMap) × (put_path size (length pre) e.path t ≡ some t')
      × Filled size (pre ++ e ∷ []) t'
unfolding put_path is_null Slot
put_path-Filled size pre es e t room f d =
    let start = hash_string e.path % size in
    let node = node_of e (length pre) in
    let (hq, p, b, null) =
      search-Stopped is_null refl t size (hash_string e.path) (omega (arith, f.few)) in
    let free = is_null→none (t hq) null in
    let fresh = Filled-Unknown size pre es e t f d in
    let there = probe-put size e.path t size start hq node fresh refl free p in
    (
      set_slot t hq node,
      ap (λ (o : Option ℕ). with_slot o (λ (h : ℕ). some (set_slot t h node))) p,
      record {
        known = λ (h : ℕ) (nd : HashNode) at. known-put size pre e t hq h nd f free b there at;
        found = λ (i : ℕ) (x : PafEntry) at. elim (get_elem-snoc pre e i x at) [
          | inl old ↦
              let (h, eh) = f.found i x old in (h, put-other t hq h node (node_of x i) free eh)
          | inr (last, same) ↦ (
            hq,
            set_slot_here t hq node
                ∙ ap₂ (λ (y : PafEntry) (n : ℕ). some (node_of y n)) (sym same) (sym last),
          )
        ];
        few = omega (arith, f.few, taken-set_slot t hq node size, length-append pre (e ∷ []));
      },
    )

fill_on-Filled :
    (size : ℕ) (pre es : List PafEntry) (t : PathMap)
    → length pre + length es < size
    → Filled size pre t
    → Distinct (pre ++ es)
    → (t' : PathMap) × (fill_map size (length pre) es t ≡ some t') × Filled size (pre ++ es) t'
unfolding fill_map
fill_on-Filled size pre [] t room f d = (t, refl, rw (append-nil pre) f)
fill_on-Filled size pre (e ∷ es) t room f d =
    let (t1, r1, f1) = put_path-Filled size pre es e t (omega arith) f d in
    let assoc : (pre ++ e ∷ []) ++ es ≡ pre ++ e ∷ es = append_assoc pre (e ∷ []) es in
    let more : length (pre ++ e ∷ []) ≡ length pre + 1 = length-append pre (e ∷ []) in
    let (t2, r2, f2) =
      fill_on-Filled size (pre ++ e ∷ []) es t1 (omega (arith, more)) f1 (rw assoc d) in
    (
      t2,
      ap (λ (o : Option PathMap). with_slot o (fill_map size (length pre + 1) es)) r1
          ∙ ap (λ (n : ℕ). fill_map size n es t1) (sym more)
          ∙ r2,
      rw (sym assoc) f2,
    )

pub taken-empty_map : (n : ℕ) → taken empty_map n ≡ 0
unfolding empty_map
taken-empty_map zero = refl
taken-empty_map (suc n) = omega (arith, taken-empty_map n)

empty_map-Filled : (size : ℕ) → Filled size [] empty_map
unfolding empty_map
empty_map-Filled size = record {
  known = λ (h : ℕ) (nd : HashNode) at. absurd (cc);
  found = λ (i : ℕ) (e : PafEntry) at. absurd (cc);
  few = omega (arith, taken-empty_map size);
}

-- The map of a list whose paths are all different.
pub fill_map-Filled :
    (size : ℕ) (es : List PafEntry)
    → length es < size
    → Distinct es
    → (t : PathMap) × (fill_map size 0 es empty_map ≡ some t) × Filled size es t
fill_map-Filled size es room d =
    fill_on-Filled size [] es empty_map (omega arith) (empty_map-Filled size) d
