-- ===== src/Sha256/Dispatch.antt =====
-- `paf_sha256_compute` of libpaf/src/paf_sha256_hw.c: the path that the detection has chosen does not
-- show in the digest.
use paf_archive.Prelude.{◌+◌, ◌/◌, ◌^◌, ◌<◌, ◌≡◌, ap, ◌∙◌, arith, true, false, length}
use paf_archive.Words.{Bytes}
use paf_archive.ShaNi.{ni_digest}
use paf_archive.Sha256.{
  initial_state, sha256_pad, sha256, paf_sha256_x86ni, paf_sha256_compute, Sha256Path, generic,
  x86ni,
}
use paf_archive.Sha256.Padding.{paf_sha256_generic_lem, length-sha256_pad}
use paf_archive.Sha256.Vector.{IsRnds2, ni_blocks-transform_blocks, ni_digest-digest}

-- The instruction of the vector path does what its manual says.
abbrev pub IsDocumented : Sha256Path → Type 0
IsDocumented generic = Unit
IsDocumented (x86ni rnds2 _) = IsRnds2 rnds2

-- `paf_sha256_compute` gives one digest on every path that the detection may choose on x86-64: the
-- portable code, and the vector code with or without the memory for its padded copy, if SHA256RNDS2
-- makes the two rounds that its manual states. The message's padded size fits a `size_t`, and the
-- hasher's buffer has 64 bytes, with anything in it.
pub paf_sha256_compute_lem :
    (path : Sha256Path) (junk msg : Bytes)
    → IsDocumented path
    → length junk ≡ 64
    → length msg + 72 < 2 ^ 64
    → paf_sha256_compute path junk msg ≡ sha256 msg
unfolding paf_sha256_compute paf_sha256_x86ni sha256 initial_state
paf_sha256_compute_lem generic junk msg _ hj h = paf_sha256_generic_lem msg h junk hj
paf_sha256_compute_lem (x86ni rnds2 false) junk msg documented hj h =
    paf_sha256_generic_lem msg h junk hj
paf_sha256_compute_lem (x86ni rnds2 true) junk msg documented hj h =
    ap ni_digest (
      ni_blocks-transform_blocks rnds2 documented (length (sha256_pad msg) / 64) initial_state
        (sha256_pad msg) (omega (arith, length-sha256_pad msg h)))
    ∙ ni_digest-digest _
