-- ===== src/BinaryDelta/Create.antt =====
-- The loop of `paf_bdelta_create` of libpaf/src/paf_binary_delta.c: the instructions that it makes
-- write the new file.
use paf_archive.Prelude.{
  ℕ, zero, suc, ◌+◌, ◌-◌, ◌/◌, ◌^◌, ◌<◌, ◌≤◌, ◌≡◌, refl, ap, sym, ◌∙◌, arith, ◌++◌, length, take,
  drop, ltb, leb, ltb_false→le, ltb→lt, leb→le, length-take, length-drop, Bool-cases, take_add,
  take_all, Option, none, some, inl, inr,
}
use paf_archive.Words.{Bytes, u32}
use paf_archive.Stdio.{Machine, bytes_eq, bytes_eq→eq}
use paf_archive.BinaryDelta.{
  block_size, ht_cap, HtTable, fnv1a_64, block_at, emit_copy, emit_literal, max_lit_chunk, Making,
  flush_literal, same_block, checked, match_at, after_match, continue_with, create_loop,
}
use paf_archive.BinaryDelta.Table.{used, ht_find-answers}
use paf_archive.BinaryDelta.Literals.{
  Runs, Runs-add, Runs-at, chunks_of, copy-Runs, emit_literal-Runs,
}

-- The count of the chunks does not wrap, and is at most the number of the bytes.
chunks-le :
    (cnt lit pos : ℕ)
    → cnt ≤ lit
    → lit < pos
    → cnt + (pos - lit + max_lit_chunk - 1) / max_lit_chunk ≤ pos
chunks-le cnt lit pos a b = omega arith

u32_sum : (a b n : ℕ) → a + b ≤ n → n < 2 ^ 32 → u32 (a + u32 b) ≡ a + b
u32_sum a b n h small = omega arith

le_self : (n : ℕ) → n ≤ n
le_self n = omega arith

no_fuel : (n : ℕ) → n < 0 → ⊥
no_fuel n h = omega arith

less_fuel : (n p q f : ℕ) → p < q → p < n → n - p < suc f → n - q < f
less_fuel n p q f a b h = omega arith

at_end : (p n : ℕ) → p ≤ n → n ≤ p → p ≡ n
at_end p n a b = omega arith

below_all : (c p n : ℕ) → c ≤ p → p ≤ n → n < 2 ^ 32 → c < 2 ^ 32
below_all c p n a b h = omega arith

module _ (m : Machine) (old new : Bytes) (old_small : length old < 2 ^ 32)
    (new_small : length new < 2 ^ 32) where
  -- The instructions so far write the new file up to the bytes that wait.
  pub record Made (s : Making) : Type 0 where
    pub runs : Runs m old s.cnt s.instr (take s.lit_start new)
    pub behind : s.lit_start ≤ s.pos
    pub inside : s.pos ≤ length new
    pub counted : s.cnt ≤ s.lit_start

  -- The instructions write the new file up to the position.
  record Flushed (s : Making) (pos : ℕ) : Type 0 where
    pub runs : Runs m old s.cnt s.instr (take pos new)
    pub counted : s.cnt ≤ pos

  flush_literal-Flushed : (s : Making) → Made s → Flushed (flush_literal new s) s.pos
  unfolding flush_literal
  flush_literal-Flushed s h =
      let n = s.pos - s.lit_start in
      let lit = take n (drop s.lit_start new) in
      let size : length lit ≡ n = omega (
        arith,
        length-take n (drop s.lit_start new),
        length-drop s.lit_start new,
        h.behind,
        h.inside,
      ) in
      elim (Bool-cases (ltb s.lit_start s.pos)) [
        | inl some_wait ↦
            let lt = ltb→lt s.lit_start s.pos some_wait in
            let chunks = (n + max_lit_chunk - 1) / max_lit_chunk in
            let total = chunks-le s.cnt s.lit_start s.pos h.counted lt in
            let count : s.cnt + chunks_of m old (length lit)
                ≡ u32 (s.cnt + u32 ((n + max_lit_chunk - 1) / max_lit_chunk)) =
              ap (λ (k : ℕ). s.cnt + (k + max_lit_chunk - 1) / max_lit_chunk) size
              ∙ sym (u32_sum s.cnt chunks s.pos total (omega (arith, h.inside))) in
            rw some_wait (record {
              runs =
                  Runs-at m old (s.instr ++ emit_literal lit) (s.instr ++ emit_literal lit) count
                    refl
                    (sym (take_add s.lit_start n new)
                      ∙ ap (λ (i : ℕ). take i new) (omega (arith, lt)))
                    (Runs-add m old s.cnt (chunks_of m old (length lit)) s.instr (emit_literal lit)
                      (take s.lit_start new) lit h.runs
                      (emit_literal-Runs m old lit (omega (arith, size, h.inside))));
              counted = rw (u32_sum s.cnt chunks s.pos total (omega (arith, h.inside))) total;
            })
        | inr none_wait ↦
            let ge = ltb_false→le s.lit_start s.pos none_wait in
            let at : s.lit_start ≡ s.pos = omega (arith, ge, h.behind) in
            rw none_wait (record {
              runs = Runs-at m old s.instr s.instr refl refl (ap (λ (i : ℕ). take i new) at) h.runs;
              counted = omega (arith, h.counted, at);
            })
      ]

  -- What the table offers at a position, if it offers something: the block that stands there.
  abbrev Matches : ℕ → Option ℕ → Type 0
  Matches pos none = Unit
  Matches pos (some off) = (block_size ≤ length new - pos) × (block_at new pos ≡ block_at old off)

  same_block-Matches :
      (pos : ℕ) (c : Option ℕ)
      → block_size ≤ length new - pos
      → Matches pos (same_block old new pos c)
  unfolding same_block
  same_block-Matches pos none room = tt
  same_block-Matches pos (some off) room =
      elim (Bool-cases (bytes_eq (block_at new pos) (block_at old off))) [
        | inl e ↦ rw e (room, bytes_eq→eq (block_at new pos) (block_at old off) e)
        | inr e ↦ rw e tt
      ]

  match_at-answers :
      (t : HtTable) (pos : ℕ)
      → used t ht_cap < ht_cap
      → (c : Option ℕ) × (match_at t old new pos ≡ some c) × Matches pos c
  unfolding match_at checked
  match_at-answers t pos h = elim (Bool-cases (leb block_size (length new - pos))) [
    | inl room ↦
        let (c, e) = ht_find-answers t (fnv1a_64 (block_at new pos)) h in
        (
          same_block old new pos c,
          rw (room, e) refl,
          same_block-Matches pos c (leb→le block_size (length new - pos) room),
        )
    | inr short ↦ (none, rw short refl, tt)
  ]

  after_match-Made :
      (s : Making) (c : Option ℕ)
      → Made s
      → s.pos < length new
      → Matches s.pos c
      → Made (after_match new s c)
  unfolding after_match
  after_match-Made s none h more _ = record {
    runs = h.runs;
    behind = omega (arith, h.behind);
    inside = omega arith;
    counted = h.counted;
  }
  after_match-Made s (some off) h more (room, same) =
      let flushed = flush_literal-Flushed s h in
      let whole : length (block_at new s.pos) ≡ block_size =
        omega (arith, length-take block_size (drop s.pos new), length-drop s.pos new) in
      let full : length (block_at old off) ≡ block_size = ap length (sym same) ∙ whole in
      let inside : off + block_size ≤ length old =
        omega (arith, full, length-take block_size (drop off old), length-drop off old) in
      let next : (flush_literal new s).cnt + 1 ≡ u32 ((flush_literal new s).cnt + 1) =
        omega (arith, flushed.counted) in
      record {
        runs =
            Runs-at m old ((flush_literal new s).instr ++ emit_copy off block_size)
              ((flush_literal new s).instr ++ emit_copy off block_size) next refl
              (ap (λ (b : Bytes). take s.pos new ++ b) (sym same)
                ∙ sym (take_add s.pos block_size new))
              (Runs-add m old (flush_literal new s).cnt 1 (flush_literal new s).instr
                (emit_copy off block_size) (take s.pos new) (block_at old off) flushed.runs
                (copy-Runs m old off block_size inside old_small (omega (arith, inside))));
        behind = omega arith;
        inside = omega (arith, room);
        counted = omega (arith, sym next, flushed.counted);
      }

  after_match-forward : (s : Making) (c : Option ℕ) → s.pos < (after_match new s c).pos
  unfolding after_match
  after_match-forward s none = omega arith
  after_match-forward s (some off) = omega arith

  -- What the loop ends with: instructions that write the new file, and few enough to count.
  abbrev pub Complete : Making → Type 0
  Complete s = Runs m old s.cnt s.instr new × (s.cnt < 2 ^ 32)

  pub create_loop-Complete :
      (f : ℕ) (t : HtTable) (s : Making)
      → used t ht_cap < ht_cap
      → Made s
      → length new - s.pos < f
      → (s' : Making) × (create_loop f t old new s ≡ some s') × Complete s'
  unfolding create_loop continue_with
  create_loop-Complete zero t s h made fuel = absurd (no_fuel (length new - s.pos) fuel)
  create_loop-Complete (suc f) t s h made fuel = elim (Bool-cases (ltb s.pos (length new))) [
    | inl more ↦
        let lt = ltb→lt s.pos (length new) more in
        let (c, e, matches) = match_at-answers t s.pos h in
        let (s', e', done) =
          create_loop-Complete f t (after_match new s c) h (after_match-Made s c made lt matches) (
            less_fuel (length new) s.pos (after_match new s c).pos f (after_match-forward s c) lt
              fuel) in
        (s', rw (more, e) e', done)
    | inr finished ↦
        let flushed = flush_literal-Flushed s made in
        let end : s.pos ≡ length new =
          at_end s.pos (length new) made.inside (ltb_false→le s.pos (length new) finished) in
        let all : take s.pos new ≡ new =
          ap (λ (i : ℕ). take i new) end ∙ take_all (length new) new (le_self (length new)) in
        (
          flush_literal new s,
          rw finished refl,
          (
            Runs-at m old (flush_literal new s).instr (flush_literal new s).instr refl refl all
                flushed.runs,
            below_all (flush_literal new s).cnt s.pos (length new) flushed.counted made.inside
                new_small,
          ),
        )
  ]
