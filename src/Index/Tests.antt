-- ===== src/Index/Tests.antt =====
-- Runs of the index block at concrete inputs.
use trlog.Prelude.{◌≡◌, refl, [], ◌∷◌, ◌++◌, arith, some}
use trlog.Wire.{Bytes, ok}
use trlog.Types.{index}
use trlog.Block.{read_one_block}
use trlog.Index.{IndexBlock, empty, encode_block, read_block}
use trlog.Index.RoundTrip.{IsIndexBlock, read-encode_block_index}
use trlog.Index.Find.{Any, Meets, Sought, find_vc_blocks, seek_vc, find_vc_blocks_lem}
use trlog.Index.Find.{find_txn_blocks_for_stream}
use trlog.Index.Streams.{Selected, find_txn_blocks_for_stream_lem}
use trlog.Prelude.{none}
use trlog.Index.Seek.{seek_vc_lem}

abbrev small : IndexBlock
small = record {
  vc_entries = (10, 19, 500) ∷ (0, 9, 300) ∷ [];
  txn_entries = (1, 5, 700, 3) ∷ [];
  var_ranges = [];
  strtab_offset = 64;
  typereg_offset = 0;
  hier_offsets = 96 ∷ [];
  meta_offset = 0;
  key_entries = (2, 7, 0, 900, 40) ∷ [];
}

small-IsIndexBlock : IsIndexBlock small
small-IsIndexBlock = record {
  vc_fit = ((omega arith, omega arith, omega arith), ((omega arith, omega arith, omega arith), tt));
  few_vc = omega arith;
  txn_fit = ((omega arith, omega arith, omega arith, omega arith), tt);
  few_txn = omega arith;
  ranges_fit = tt;
  few_ranges = omega arith;
  strtab_fits = omega arith;
  typereg_fits = omega arith;
  hier_fit = (omega arith, tt);
  few_hier = omega arith;
  meta_fits = omega arith;
  keys_fit = ((omega arith, omega arith, omega arith, omega arith, omega arith), tt);
  few_keys = omega arith;
}

seek_small : seek_vc 5 small ≡ some 500
unfolding seek_vc
seek_small = refl

seek_vc_lem_example : Sought 5 small.vc_entries (seek_vc 5 small)
seek_vc_lem_example = seek_vc_lem 5 small

find_vc_blocks_lem_example :
    (Any (λ m. m ≡ 300) (find_vc_blocks 5 7 small) → Any (Meets 5 7 300) small.vc_entries)
    × (Any (Meets 5 7 300) small.vc_entries → Any (λ m. m ≡ 300) (find_vc_blocks 5 7 small))
find_vc_blocks_lem_example =
    find_vc_blocks_lem 5 7 300 small (omega arith) (omega arith, (omega arith, tt))

abbrev small_block : Bytes
small_block =
    254 ∷ 0 ∷ 159 ∷ 0 ∷ 0 ∷ 0 ∷ 0 ∷ 0 ∷ 0 ∷ 0 ∷ 2 ∷ 10 ∷ 0 ∷ 0 ∷ 0 ∷ 0 ∷ 0 ∷ 0 ∷ 0 ∷ 19 ∷ 0 ∷ 0 ∷ 0
    ∷ 0 ∷ 0 ∷ 0 ∷ 0 ∷ 244 ∷ 1 ∷ 0 ∷ 0 ∷ 0 ∷ 0 ∷ 0 ∷ 0 ∷ 0 ∷ 0 ∷ 0 ∷ 0 ∷ 0 ∷ 0 ∷ 0 ∷ 0 ∷ 9 ∷ 0 ∷ 0
    ∷ 0 ∷ 0 ∷ 0 ∷ 0 ∷ 0 ∷ 44 ∷ 1 ∷ 0 ∷ 0 ∷ 0 ∷ 0 ∷ 0 ∷ 0 ∷ 1 ∷ 1 ∷ 0 ∷ 0 ∷ 0 ∷ 0 ∷ 0 ∷ 0 ∷ 0 ∷ 5 ∷ 0
    ∷ 0 ∷ 0 ∷ 0 ∷ 0 ∷ 0 ∷ 0 ∷ 188 ∷ 2 ∷ 0 ∷ 0 ∷ 0 ∷ 0 ∷ 0 ∷ 0 ∷ 0 ∷ 1 ∷ 64 ∷ 0 ∷ 0 ∷ 0 ∷ 0 ∷ 0 ∷ 0
    ∷ 0 ∷ 0 ∷ 0 ∷ 0 ∷ 0 ∷ 0 ∷ 0 ∷ 0 ∷ 0 ∷ 1 ∷ 96 ∷ 0 ∷ 0 ∷ 0 ∷ 0 ∷ 0 ∷ 0 ∷ 0 ∷ 2 ∷ 1 ∷ 3 ∷ 1 ∷ 0 ∷ 0
    ∷ 0 ∷ 0 ∷ 0 ∷ 0 ∷ 0 ∷ 5 ∷ 0 ∷ 0 ∷ 0 ∷ 0 ∷ 0 ∷ 0 ∷ 0 ∷ 188 ∷ 2 ∷ 0 ∷ 0 ∷ 0 ∷ 0 ∷ 0 ∷ 0 ∷ 4 ∷ 1
    ∷ 2 ∷ 7 ∷ 0 ∷ 132 ∷ 3 ∷ 0 ∷ 0 ∷ 0 ∷ 0 ∷ 0 ∷ 0 ∷ 40 ∷ 0 ∷ 0 ∷ 0 ∷ 0 ∷ 0 ∷ 0 ∷ 0 ∷ []

encode-small_block : encode_block small ≡ ok small_block
unfolding encode_block trlog.Index.encode_payload trlog.Index.encode_list trlog.Index.encode_section
    trlog.Index.encode_offsets trlog.Index.has_stream_ids trlog.Index.encode_vc
    trlog.Index.encode_range trlog.Index.encode_stream_entry trlog.Index.encode_key trlog.Wire.◌+++◌
    trlog.Wire.concat_map trlog.Wire.pack trlog.Wire.le_bytes trlog.Codec.encode_uvarint
    trlog.Codec.uvarint trlog.Codec.uvarint_loop trlog.Block.make_block trlog.Types.block_type_code
encode-small_block = refl

read-encode_block_index_example :
    (payload : Bytes) × (read_one_block (small_block ++ (7 ∷ [])) ≡ ok (index, 0, payload))
    × (read_block payload empty ≡ ok small)
read-encode_block_index_example =
    read-encode_block_index small empty (7 ∷ []) small-IsIndexBlock encode-small_block

find_txn_blocks_for_stream_lem_example :
    (Any (λ m. m ≡ 700) (find_txn_blocks_for_stream 3 (some 2) none small)
      → Any (Selected small.txn_entries 3 (some 2) none 700) small.txn_entries)
    × (Any (Selected small.txn_entries 3 (some 2) none 700) small.txn_entries
        → Any (λ m. m ≡ 700) (find_txn_blocks_for_stream 3 (some 2) none small))
find_txn_blocks_for_stream_lem_example = find_txn_blocks_for_stream_lem 3 700 (some 2) none small
