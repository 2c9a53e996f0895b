-- ===== src/Block/Tests.antt =====
-- Runs of the block framing at concrete inputs.
use trlog.Prelude.{◌≡◌, List, [], ◌∷◌, ◌++◌, arith, false}
use trlog.Wire.{Bytes, ok}
use trlog.Types.{vc_data}
use trlog.Block.{make_block, read_one_block}
use trlog.Block.Scan.{
  Framed, framed_all, iter_raw_blocks, scanned, iter_raw_blocks-framed, read_one_block-make_block,
}

abbrev two_blocks : List Framed
two_blocks =
    record { byte = 0x01; flags = 0; payload = 1 ∷ 2 ∷ [] }
    ∷ record { byte = 0x77; flags = 1; payload = [] }
    ∷ []

iter_raw_blocks-framed_example :
    iter_raw_blocks (λ t. false) (framed_all two_blocks (1 ∷ 2 ∷ []))
    ≡ scanned (λ t. false) 0 two_blocks
iter_raw_blocks-framed_example =
    iter_raw_blocks-framed (λ t. false) two_blocks (1 ∷ 2 ∷ [])
      (
        record { byte_fits = omega arith; flags_fit = omega arith; length_fits = omega arith },
        (
          record { byte_fits = omega arith; flags_fit = omega arith; length_fits = omega arith },
          tt,
        ),
      )
      (omega arith)

read_one_block-make_block_example :
    (bs : Bytes) × (make_block vc_data 1 (5 ∷ []) ≡ ok bs)
    × (read_one_block (bs ++ (9 ∷ [])) ≡ ok (vc_data, 1, 5 ∷ []))
read_one_block-make_block_example =
    read_one_block-make_block vc_data 1 (5 ∷ []) (9 ∷ []) (omega arith) (omega arith)
