-- ===== src/BinaryDelta/RoundTrip.antt =====
-- A delta of libpaf/src/paf_binary_delta.c that is applied to the old file gives the new file.
use paf_archive.Prelude.{
  ℕ, suc, ◌+◌, ◌-◌, ◌^◌, ◌<◌, ◌≤◌, ◌≡◌, refl, ap, ap₂, sym, ◌∙◌, arith, true, false, [], ◌∷◌, ◌++◌,
  length, take, drop, ltb, leb, le→ltb_false, le→leb, append-nil, append_assoc, length-append,
  take-append, drop-append, take_all, some,
}
use paf_archive.Words.{Bytes, le_bytes, le_value-le_bytes, length-le_bytes}
use paf_archive.Stdio.{Machine}
use paf_archive.BinaryDelta.{
  and_then, Making, bdelta_magic, assemble, create_with, paf_bdelta_create, apply_loop, apply_to,
  old_part, paf_bdelta_apply,
}
use paf_archive.BinaryDelta.Table.{insert_blocks-table}
use paf_archive.BinaryDelta.Literals.{no_instructions}
use paf_archive.BinaryDelta.Create.{Made, create_loop-Complete}

no_more : (n : ℕ) → n ≡ n + 0
no_more n = omega arith

enough : (n : ℕ) → n - 0 < n + 1
enough n = omega arith

le_self : (n : ℕ) → n ≤ n
le_self n = omega arith

-- The old file is read whole when as many bytes as it has are asked for.
old_part-whole :
    (m : Machine) (old : Bytes)
    → ((n : ℕ) → m.malloc n ≡ true)
    → old_part m (length old) (some old) ≡ some old
unfolding old_part
old_part-whole m [] memory = refl
old_part-whole m (b ∷ old) memory =
    let fits : leb (suc (length old)) (suc (length old)) ≡ true =
      le→leb (suc (length old)) (suc (length old)) (omega arith) in
    rw (memory (suc (length old)), fits, take_all (length old) old (le_self (length old))) refl

-- The parts of a delta's header, wherever they come from.
module _ (a c l instr : Bytes) (ha : length a ≡ 4) (hc : length c ≡ 4) (hl : length l ≡ 8) where
  header_long : ltb (length (a ++ (c ++ (l ++ instr)))) 16 ≡ false
  header_long = le→ltb_false (length (a ++ (c ++ (l ++ instr)))) 16 (
      omega (
        arith,
        length-append a (c ++ (l ++ instr)),
        length-append c (l ++ instr),
        length-append l instr,
      ))

  header_magic : take 4 (a ++ (c ++ (l ++ instr))) ≡ a
  header_magic = take-append 4 a (c ++ (l ++ instr)) ha

  header_count : take 4 (drop 4 (a ++ (c ++ (l ++ instr)))) ≡ c
  header_count =
      ap (take 4) (drop-append 4 a (c ++ (l ++ instr)) ha) ∙ take-append 4 c (l ++ instr) hc

  header_size : take 8 (drop 8 (a ++ (c ++ (l ++ instr)))) ≡ l
  header_size =
      ap (λ (d : Bytes). take 8 (drop 8 d)) (sym (append_assoc a c (l ++ instr)))
      ∙ ap (take 8) (drop-append 8 (a ++ c) (l ++ instr) (omega (arith, length-append a c)))
      ∙ take-append 8 l instr hl

  header_rest : drop 16 (a ++ (c ++ (l ++ instr))) ≡ instr
  header_rest =
      ap (drop 16) (sym (append_assoc a c (l ++ instr)) ∙ sym (append_assoc (a ++ c) l instr))
      ∙ drop-append 16 ((a ++ c) ++ l) instr
          (omega (arith, length-append (a ++ c) l, length-append a c))

-- The header of a delta is read back, and its instructions are applied.
apply-assemble :
    (m : Machine) (old : Bytes) (s : Making)
    → ((n : ℕ) → m.malloc n ≡ true)
    → length old < 2 ^ 32
    → s.cnt < 2 ^ 32
    → paf_bdelta_apply m (assemble old s) (some old) ≡ some (apply_loop m s.cnt s.instr old [])
unfolding paf_bdelta_apply assemble apply_to
apply-assemble m old s memory small few =
    let a = le_bytes 4 bdelta_magic in
    let c = le_bytes 4 s.cnt in
    let l = le_bytes 8 (length old) in
    let la = length-le_bytes 4 bdelta_magic in
    let lc = length-le_bytes 4 s.cnt in
    let ll = length-le_bytes 8 (length old) in
    rw
      (
        header_long a c l s.instr la lc ll,
        header_magic a c l s.instr la lc ll,
        le_value-le_bytes 4 bdelta_magic (omega arith),
        header_size a c l s.instr la lc ll,
        le_value-le_bytes 8 (length old) (omega arith),
        old_part-whole m old memory,
        header_count a c l s.instr la lc ll,
        header_rest a c l s.instr la lc ll,
        le_value-le_bytes 4 s.cnt (omega arith),
      )
      refl

-- For an old and a new file of fewer than 2 ^ 32 bytes, `paf_bdelta_create` comes to an end and makes
-- a delta, and with memory `paf_bdelta_apply` of it to the old file returns 0 and writes exactly the
-- new file.
pub paf_bdelta_apply-create :
    (m : Machine) (old new : Bytes)
    → ((n : ℕ) → m.malloc n ≡ true)
    → length old < 2 ^ 32
    → length new < 2 ^ 32
    → (delta : Bytes) × (paf_bdelta_create old new ≡ some delta)
      × (paf_bdelta_apply m delta (some old) ≡ some (true, new))
unfolding paf_bdelta_create create_with apply_loop
paf_bdelta_apply-create m old new memory ho hn =
    let start : Making = record { instr = []; cnt = 0; lit_start = 0; pos = 0 } in
    let made : Made m old new ho hn start = record {
      runs = no_instructions m old;
      behind = omega arith;
      inside = omega arith;
      counted = omega arith;
    } in
    let (t, e, room) = insert_blocks-table old ho in
    let (s, e', (runs, few)) =
      create_loop-Complete m old new ho hn (length new + 1) t start room made
        (enough (length new)) in
    let all : apply_loop m s.cnt s.instr old [] ≡ (true, new) =
      ap₂ (λ (n : ℕ) (d : Bytes). apply_loop m n d old []) (no_more s.cnt)
        (sym (append-nil s.instr))
      ∙ runs 0 [] [] in
    (
      assemble old s,
      ap (λ o. and_then o (create_with old new)) e
          ∙ ap (λ o. and_then o (λ r. some (assemble old r))) e',
      apply-assemble m old s memory ho few ∙ ap some all,
    )
