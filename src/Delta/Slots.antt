-- ===== src/Delta/Slots.antt =====
-- The searches of the path map in libpaf/src/paf_delta.c when a slot is filled: the ones that ended
-- still end where they did, and the one for the new path ends at its slot.
use paf_archive.Prelude.{
  ℕ, zero, suc, ◌+◌, ◌%◌, ◌≡◌, refl, ap, sym, ◌∙◌, Bool, true, false, Option, none, some, inl, inr,
  Bool-cases, Option-cases,
}
use paf_archive.Words.{Bytes}
use paf_archive.Stdio.{bytes_eq, bytes_eq_refl}
use paf_archive.Delta.{HashNode, PathMap, probe, set_slot, is_null, is_null_or}
use paf_archive.Delta.Probing.{set_slot_here, set_slot_other}

-- One step of a search.
pub probe-now :
    (stops : Option HashNode → Bool) (f : ℕ) (t : PathMap) (size x : ℕ)
    → stops (t x) ≡ true
    → probe (suc f) stops t size x ≡ some x
unfolding probe
probe-now stops f t size x e = rw e refl

pub probe-later :
    (stops : Option HashNode → Bool) (f : ℕ) (t : PathMap) (size x : ℕ)
    → stops (t x) ≡ false
    → probe (suc f) stops t size x ≡ probe f stops t size ((x + 1) % size)
unfolding probe
probe-later stops f t size x e = rw e refl

-- A slot that does not end the search for a path is not a free one.
taken_slot :
    (path : Bytes) (t : PathMap) (x hq : ℕ)
    → t hq ≡ none
    → is_null_or path (t x) ≡ false
    → ¬ (x ≡ hq)
unfolding is_null_or
taken_slot path t x hq free s same =
    let null : t x ≡ none = ap t same ∙ free in
    let stop : is_null_or path (t x) ≡ true = ap (is_null_or path) null in absurd (cc)

-- A search that ended at a path is not changed by a path put in a free slot.
pub probe-keep :
    (f : ℕ) (path : Bytes) (t : PathMap) (size x hq h : ℕ) (node nd : HashNode)
    → t hq ≡ none
    → t h ≡ some nd
    → probe f (is_null_or path) t size x ≡ some h
    → probe f (is_null_or path) (set_slot t hq node) size x ≡ some h
unfolding probe
probe-keep zero path t size x hq h node nd free at p = absurd (cc)
probe-keep (suc f) path t size x hq h node nd free at p =
    let stops = is_null_or path in
    let t' = set_slot t hq node in
    elim (Bool-cases (stops (t x))) [
      | inl s ↦
          let here : some x ≡ some h = sym (probe-now stops f t size x s) ∙ p in
          let same : x ≡ h = cc in
          let other : ¬ (x ≡ hq) = λ (e : x ≡ hq).
            let clash : none ≡ some nd = sym free ∙ ap t (sym e ∙ same) ∙ at in absurd (cc) in
          probe-now stops f t' size x (ap stops (set_slot_other t hq node x other) ∙ s) ∙ here
      | inr s ↦
          let other = taken_slot path t x hq free s in
          probe-later stops f t' size x (ap stops (set_slot_other t hq node x other) ∙ s)
          ∙ probe-keep f path t size ((x + 1) % size) hq h node nd free at
              (sym (probe-later stops f t size x s) ∙ p)
    ]

-- No slot holds this path.
abbrev pub Unknown : Bytes → PathMap → Type 0
Unknown path t = (h : ℕ) (nd : HashNode) → t h ≡ some nd → bytes_eq nd.path path ≡ false

-- A search for a path that is in no slot goes by the slots that have a path.
is_null_or-Unknown :
    (path : Bytes) (t : PathMap) → Unknown path t → (x : ℕ) → is_null_or path (t x) ≡ is_null (t x)
unfolding is_null_or is_null
is_null_or-Unknown path t h x = elim (Option-cases (t x)) [
  | inl e ↦ rw e refl
  | inr (nd, e) ↦ rw e (h x nd e)
]

-- The search for a path that was put where the search for a free slot ended ends there.
pub probe-put :
    (f : ℕ) (path : Bytes) (t : PathMap) (size x hq : ℕ) (node : HashNode)
    → Unknown path t
    → node.path ≡ path
    → t hq ≡ none
    → probe f is_null t size x ≡ some hq
    → probe f (is_null_or path) (set_slot t hq node) size x ≡ some hq
unfolding probe is_null_or
probe-put zero path t size x hq node fresh named free p = absurd (cc)
probe-put (suc f) path t size x hq node fresh named free p =
    let stops = is_null_or path in
    let t' = set_slot t hq node in
    elim (Bool-cases (is_null (t x))) [
      | inl s ↦
          let here : some x ≡ some hq = sym (probe-now is_null f t size x s) ∙ p in
          let same : x ≡ hq = cc in
          let put : t' x ≡ some node = ap t' same ∙ set_slot_here t hq node in
          let eq : bytes_eq node.path path ≡ true = rw named (bytes_eq_refl path) in
          probe-now stops f t' size x (ap stops put ∙ eq) ∙ here
      | inr s ↦
          let s' = is_null_or-Unknown path t fresh x ∙ s in
          let other = taken_slot path t x hq free s' in
          probe-later stops f t' size x (ap stops (set_slot_other t hq node x other) ∙ s')
          ∙ probe-put f path t size ((x + 1) % size) hq node fresh named free
              (sym (probe-later is_null f t size x s) ∙ p)
    ]

pub is_null→none : (s : Option HashNode) → is_null s ≡ true → s ≡ none
unfolding is_null
is_null→none none h = refl
is_null→none (some nd) h = absurd (cc)
