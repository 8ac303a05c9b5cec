-- ===== src/BinaryDelta.antt =====
-- libpaf/src/paf_binary_delta.c: the block table of the old file, the making of a delta and its
-- application. The growing buffer is a byte list, so that `realloc` is taken to succeed.
pub mod Table
pub mod Literals
pub mod Create
pub mod RoundTrip
use paf_archive.Prelude.{
  ℕ, zero, suc, ◌+◌, ◌-◌, ◌*◌, ◌/◌, ◌%◌, ◌^◌, Bool, true, false, List, [], ◌∷◌, ◌++◌, length, take,
  drop, ltb, leb, ◌==◌, ◌&&◌, not, if◌then◌else◌, Option, none, some, bit_xor, min,
}
use paf_archive.Words.{Bytes, u32, u64, le_bytes, le_value}
use paf_archive.Stdio.{Machine, bytes_eq, junk_bytes}

-- `BLOCK_SIZE`, `HT_CAP` and `MAX_LIT_CHUNK`
abbrev pub block_size : ℕ
block_size = 4096

abbrev pub ht_cap : ℕ
ht_cap = 1048576

abbrev pub max_lit_chunk : ℕ
max_lit_chunk = 65535

-- The loop of `fnv1a_64`, from the value `h` on.
unfoldable pub fnv_from : ℕ → Bytes → ℕ
fnv_from h [] = h
fnv_from h (b ∷ s) = fnv_from (u64 (bit_xor h b * 0x100000001b3)) s

unfoldable pub fnv1a_64 : Bytes → ℕ
unfolding fnv_from
fnv1a_64 s = fnv_from 0xcbf29ce484222325 s

-- A used slot of the table.
pub record HtSlot : Type 0 where
  pub hash : ℕ
  pub offset : ℕ

-- The slots by their index; a slot that is not used is `none`.
abbrev pub HtTable : Type 0
HtTable = ℕ → Option HtSlot

unfoldable pub ht_alloc : HtTable
ht_alloc i = none

-- Where a search for the hash stops: at an unused slot, or at one with this hash.
unfoldable pub stops_at : ℕ → Option HtSlot → Bool
stops_at hash none = true
stops_at hash (some s) = s.hash == hash

-- The `while` loop of `ht_insert` and `ht_find`, on fuel. The indices go round, so with as much fuel
-- as there are slots `none` says that the loop never stops.
unfoldable pub probe : ℕ → HtTable → ℕ → ℕ → Option ℕ
probe zero t hash idx = none
probe (suc f) t hash idx =
    let rest = probe f t hash ((idx + 1) % ht_cap) in
    if stops_at hash (t idx) then some idx else rest

unfoldable pub put_slot : HtTable → ℕ → ℕ → ℕ → HtTable
put_slot t hash offset idx i =
    if i == idx then some (record { hash = hash; offset = offset }) else t i

unfoldable pub insert_at : HtTable → ℕ → ℕ → Option ℕ → Option HtTable
insert_at t hash offset none = none
insert_at t hash offset (some idx) = some (put_slot t hash offset idx)

unfoldable pub ht_insert : HtTable → ℕ → ℕ → Option HtTable
ht_insert t hash offset = insert_at t hash offset (probe ht_cap t hash (hash % ht_cap))

unfoldable pub slot_offset : Option HtSlot → Option ℕ
slot_offset none = none
slot_offset (some s) = some s.offset

unfoldable pub found_at : HtTable → Option ℕ → Option (Option ℕ)
found_at t none = none
found_at t (some idx) = some (slot_offset (t idx))

-- The offset under the hash, or that there is none.
unfoldable pub ht_find : HtTable → ℕ → Option (Option ℕ)
ht_find t hash = found_at t (probe ht_cap t hash (hash % ht_cap))

abbrev pub block_at : Bytes → ℕ → Bytes
block_at file off = take block_size (drop off file)

abbrev pub and_then {ℓ κ} : {A : Type ℓ} {B : Type κ} → Option A → (A → Option B) → Option B
and_then none f = none
and_then (some a) f = f a

-- The `for` loop over the whole blocks of the old file, `n` of them from `off` on.
unfoldable pub insert_blocks : ℕ → Bytes → ℕ → HtTable → Option HtTable
insert_blocks zero old off t = some t
insert_blocks (suc n) old off t =
    and_then (ht_insert t (fnv1a_64 (block_at old off)) off)
      (insert_blocks n old (off + block_size))

unfoldable pub emit_copy : ℕ → ℕ → Bytes
emit_copy off sz = 0 ∷ (le_bytes 8 off ++ le_bytes 4 sz)

-- The loop of `emit_literal` on fuel, one chunk in each round.
unfoldable pub emit_chunks : ℕ → Bytes → Bytes
emit_chunks zero lit = []
emit_chunks (suc f) lit =
    let chunk = min (length lit) max_lit_chunk in
    let rest = emit_chunks f (drop chunk lit) in
    if length lit == 0
    then []
    else 1 ∷ (le_bytes 8 0 ++ (le_bytes 4 chunk ++ (take chunk lit ++ rest)))

unfoldable pub emit_literal : Bytes → Bytes
emit_literal lit = emit_chunks (length lit) lit

-- Where the making of a delta is: what it has written and counted, the start of the bytes that wait
-- for a literal, and the position in the new file.
pub record Making : Type 0 where
  pub instr : Bytes
  pub cnt : ℕ
  pub lit_start : ℕ
  pub pos : ℕ

-- A literal for the bytes that wait.
unfoldable pub flush_literal : Bytes → Making → Making
flush_literal new s =
    let lit = take (s.pos - s.lit_start) (drop s.lit_start new) in
    if ltb s.lit_start s.pos
    then record s {
      instr = s.instr ++ emit_literal lit;
      cnt = u32 (s.cnt + u32 ((s.pos - s.lit_start + max_lit_chunk - 1) / max_lit_chunk));
    }
    else s

-- `memcmp` of the block with the candidate that the table gives
unfoldable pub same_block : Bytes → Bytes → ℕ → Option ℕ → Option ℕ
same_block old new pos none = none
same_block old new pos (some off) =
    if bytes_eq (block_at new pos) (block_at old off) then some off else none

unfoldable pub checked : Bytes → Bytes → ℕ → Option (Option ℕ) → Option (Option ℕ)
checked old new pos none = none
checked old new pos (some c) = some (same_block old new pos c)

-- The block of the old file that stands at the position, if a whole block is left.
unfoldable pub match_at : HtTable → Bytes → Bytes → ℕ → Option (Option ℕ)
match_at t old new pos =
    if leb block_size (length new - pos)
    then checked old new pos (ht_find t (fnv1a_64 (block_at new pos)))
    else some none

-- The state behind a block that was found, or behind one byte.
unfoldable pub after_match : Bytes → Making → Option ℕ → Making
after_match new s none = record s { pos = s.pos + 1 }
after_match new s (some off) =
    let flushed = flush_literal new s in
    record {
      instr = flushed.instr ++ emit_copy off block_size;
      cnt = u32 (flushed.cnt + 1);
      lit_start = s.pos + block_size;
      pos = s.pos + block_size;
    }

unfoldable pub continue_with :
    (Making → Option Making) → Bytes → Making → Option (Option ℕ) → Option Making
continue_with next new s none = none
continue_with next new s (some c) = next (after_match new s c)

-- The `while` loop of `paf_bdelta_create`, on fuel.
unfoldable pub create_loop : ℕ → HtTable → Bytes → Bytes → Making → Option Making
create_loop zero t old new s = none
create_loop (suc f) t old new s =
    let next = continue_with (create_loop f t old new) new s (match_at t old new s.pos) in
    if ltb s.pos (length new) then next else some (flush_literal new s)

abbrev pub bdelta_magic : ℕ
bdelta_magic = 0x44464150

-- magic, count, size of the old file, instructions
unfoldable pub assemble : Bytes → Making → Bytes
assemble old s =
    le_bytes 4 bdelta_magic ++ (le_bytes 4 s.cnt ++ (le_bytes 8 (length old) ++ s.instr))

unfoldable pub create_with : Bytes → Bytes → HtTable → Option Bytes
create_with old new t =
    and_then
      (create_loop (length new + 1) t old new
        (record { instr = []; cnt = 0; lit_start = 0; pos = 0 }))
      (λ s. some (assemble old s))

-- `paf_bdelta_create` on two files that are there, with memory for them and the table: the delta,
-- or `none` where a search of the table never stops.
unfoldable pub paf_bdelta_create : Bytes → Bytes → Option Bytes
paf_bdelta_create old new =
    and_then (insert_blocks (length old / block_size) old 0 ht_alloc) (create_with old new)

-- The bytes that a COPY writes: those of the old file, and what else is in memory where the test
-- in 64 bits let the range pass its end.
unfoldable pub read_old : Machine → Bytes → ℕ → ℕ → Bytes
read_old m old offset sz =
    if leb (offset + sz) (length old)
    then take sz (drop offset old)
    else junk_bytes m.junk offset sz

-- One instruction, with its fields and what stands behind them in the delta: COPY is 0.
unfoldable pub apply_instr :
    Machine → (Bytes → Bytes → Bool × Bytes) → ℕ → ℕ → ℕ → Bytes → Bytes → Bytes → Bool × Bytes
apply_instr m next type offset sz behind old out =
    if type == 0
    then (if length old == 0
        then (false, out)
        else if ltb (length old) (u64 (offset + sz))
        then (false, out)
        else next behind (out ++ read_old m old offset sz))
    else if ltb (length behind) sz
    then (false, out)
    else next (drop sz behind) (out ++ take sz behind)

-- The loop of `paf_bdelta_apply` over the instructions that are left, on what is left of the delta,
-- with the bytes written so far: whether it came through, and the output.
unfoldable pub apply_loop : Machine → ℕ → Bytes → Bytes → Bytes → Bool × Bytes
apply_loop m zero delta old out = (true, out)
apply_loop m (suc n) delta old out =
    let offset = le_value (take 8 (drop 1 delta)) in
    let sz = le_value (take 4 (drop 9 delta)) in
    let rest =
      apply_instr m (λ d o. apply_loop m n d old o) (le_value (take 1 delta)) offset sz
        (drop 13 delta) old out in
    if ltb (length delta) 13 then (false, out) else rest

-- `paf_bdelta_apply` where the output can be opened: the return value 0 as `true`, and what the
-- output holds; `none` where it is not opened. `file` is the old file; as many bytes of it are read
-- as the delta says.
unfoldable pub apply_to : Machine → Bytes → Option Bytes → Option (Bool × Bytes)
apply_to m delta none = none
apply_to m delta (some old) =
    some (apply_loop m (le_value (take 4 (drop 4 delta))) (drop 16 delta) old [])

-- The part of the old file that the delta needs.
unfoldable pub old_part : Machine → ℕ → Option Bytes → Option Bytes
old_part m zero file = some []
old_part m (suc n) none = none
old_part m (suc n) (some file) =
    if m.malloc (suc n) && leb (suc n) (length file) then some (take (suc n) file) else none

unfoldable pub paf_bdelta_apply : Machine → Bytes → Option Bytes → Option (Bool × Bytes)
paf_bdelta_apply m delta file =
    if ltb (length delta) 16
    then none
    else if le_value (take 4 delta) == bdelta_magic
    then apply_to m delta (old_part m (le_value (take 8 (drop 8 delta))) file)
    else none
