-- ===== src/Bytesplit/Tests.antt =====
-- Runs of the byte split and of its value-change block at concrete inputs.
use trlog.Prelude.{ℕ, ◌≡◌, refl, [], ◌∷◌, true}
use trlog.Prelude.Int.{pos}
use trlog.Wire.{ok, err, value_error}
use trlog.Types.{two_state}
use trlog.Compression.Samples.{marking, zero_floats}
use trlog.Metadata.{int}
use trlog.Bytesplit.{
  byte_split, byte_unsplit, BytesplitBlock, bytesplit_block, add_change, set_initial,
}
use trlog.Bytesplit.Stream.{encode_block, decode_changes}

split_pairs : byte_split (1 ∷ 2 ∷ 3 ∷ 4 ∷ 5 ∷ 6 ∷ []) 2 ≡ ok (1 ∷ 3 ∷ 5 ∷ 2 ∷ 4 ∷ 6 ∷ [])
unfolding byte_split trlog.Bytesplit.split_planes trlog.Bytesplit.copy_plane
split_pairs = refl

unsplit_pairs : byte_unsplit (1 ∷ 3 ∷ 5 ∷ 2 ∷ 4 ∷ 6 ∷ []) 2 ≡ ok (1 ∷ 2 ∷ 3 ∷ 4 ∷ 5 ∷ 6 ∷ [])
unfolding byte_unsplit trlog.Bytesplit.unsplit_planes trlog.Bytesplit.copy_plane
unsplit_pairs = refl

split_uneven : byte_split (1 ∷ 2 ∷ 3 ∷ []) 2 ≡ err value_error
unfolding byte_split trlog.Bytesplit.split_planes trlog.Bytesplit.copy_plane
split_uneven = refl

-- two changes of a 16-bit variable, the first of which is set last
abbrev filled : BytesplitBlock
filled =
    set_initial 4 (int (pos 258))
      (add_change 4 9 (int (pos 772)) (bytesplit_block 5 ((4, (two_state, 16)) ∷ []) true))

encode_filled :
    encode_block (marking 0x78) zero_floats 3 filled
    ≡ ok (
        0x10 ∷ 0x80 ∷ 25 ∷ 0 ∷ 0 ∷ 0 ∷ 0 ∷ 0 ∷ 0 ∷ 0 ∷ 3 ∷ 1 ∷ 0x78 ∷ 5 ∷ 1 ∷ 4 ∷ 0 ∷ 2 ∷ 2 ∷ 5 ∷ 4
        ∷ 2 ∷ 4 ∷ 1 ∷ 3 ∷ [])
unfolding encode_block set_initial add_change bytesplit_block trlog.Prelude.Dict.get
    trlog.Prelude.Dict.put trlog.Bytesplit.value_width trlog.Codec.encode_uvarint
    trlog.Codec.uvarint trlog.Codec.uvarint_loop trlog.Bytesplit.encode_value trlog.Metadata.to_int
    trlog.Bytesplit.to_bytes_little trlog.Wire.pack trlog.Wire.le_bytes byte_split
    trlog.Bytesplit.split_planes trlog.Bytesplit.copy_plane trlog.Block.make_block trlog.Wire.◌+++◌
    trlog.Types.block_type_code trlog.Prelude.Int.◌-ℤ◌
encode_filled = refl

decode_filled :
    decode_changes
      (marking 0x78)
      (3 ∷ 1 ∷ 0x78 ∷ 5 ∷ 1 ∷ 4 ∷ 0 ∷ 2 ∷ 2 ∷ 5 ∷ 4 ∷ 2 ∷ 4 ∷ 1 ∷ 3 ∷ [])
    ≡ ok ((4, 5, int (pos 258)) ∷ (4, 9, int (pos 772)) ∷ [])
unfolding decode_changes trlog.Codec.decode_uvarint trlog.Codec.decode_uvarint_loop trlog.Wire.◌>>=◌
    trlog.Wire.pure trlog.Wire.read_byte trlog.Wire.read_slice trlog.Wire.lift byte_unsplit
    trlog.Bytesplit.unsplit_planes trlog.Bytesplit.copy_plane trlog.Bytesplit.decode_value
    trlog.Wire.from_le
decode_filled = refl
