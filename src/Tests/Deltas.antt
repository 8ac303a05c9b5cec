-- ===== src/Tests/Deltas.antt =====
-- An example of a binary delta, of a file that shares no block with the old one.
use paf_archive.Prelude.{◌/◌, ◌<◌, ◌≡◌, refl, arith, true, [], ◌∷◌, some}
use paf_archive.Words.{Bytes}
use paf_archive.BinaryDelta.{
  HtTable, ht_alloc, ht_cap, block_size, insert_blocks, paf_bdelta_create, paf_bdelta_apply,
}
use paf_archive.BinaryDelta.Table.{used, insert_blocks-table}
use paf_archive.BinaryDelta.RoundTrip.{paf_bdelta_apply-create}
use paf_archive.Tests.Data.{roomy}

paf_bdelta_apply-create_example :
    (delta : Bytes) × (paf_bdelta_create (1 ∷ 2 ∷ []) (2 ∷ 3 ∷ 4 ∷ []) ≡ some delta)
    × (paf_bdelta_apply roomy delta (some (1 ∷ 2 ∷ [])) ≡ some (true, 2 ∷ 3 ∷ 4 ∷ []))
paf_bdelta_apply-create_example =
    paf_bdelta_apply-create roomy (1 ∷ 2 ∷ []) (2 ∷ 3 ∷ 4 ∷ []) (λ n. refl) (omega arith)
      (omega arith)

insert_blocks-table_example :
    (t : HtTable) × (insert_blocks (3 / block_size) (7 ∷ 8 ∷ 9 ∷ []) 0 ht_alloc ≡ some t)
    × (used t ht_cap < ht_cap)
insert_blocks-table_example = insert_blocks-table (7 ∷ 8 ∷ 9 ∷ []) (omega arith)
