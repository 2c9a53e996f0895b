-- ===== src/Block.antt =====
-- The block framing: `_make_block` of python/src/trlog/_string_table.py writes a block, and
-- `_read_one_block` and `_iter_raw_blocks` of python/src/trlog/_reader.py read blocks from a file.
pub mod Scan
pub mod Packed
mod Tests
use trlog.Prelude.{
  ℕ, zero, suc, ◌+◌, ◌-◌, List, [], ◌∷◌, ◌++◌, ltb, leb, ◌==◌, if◌then◌else◌, length, take, drop,
  Bool, Option, none, some,
}
use trlog.Wire.{
  Bytes, Result, ok, err, bind, ◌+++◌, concat, pack, unpack, Decoder, ◌>>=◌, pure, raise, from_le,
}
use trlog.Wire.{eof_error, value_error}
use trlog.Types.{BlockType, block_type_code, to_block_type}

abbrev pub block_header_size : ℕ
block_header_size = 10

unfoldable pub make_block : BlockType → ℕ → Bytes → Result Bytes
make_block block_type flags payload = concat (
    pack 1 (block_type_code block_type)
    ∷ pack 1 flags
    ∷ pack 8 (block_header_size + length payload)
    ∷ ok payload
    ∷ [])

-- A block as the reader hands it on; the payload is `none` where it was skipped.
pub record RawBlock : Type 0 where
  pub block_type : BlockType
  pub flags : ℕ
  pub payload : Option Bytes
  pub file_offset : ℕ

-- `struct.unpack('<BBQ', header)`
unfoldable pub unpack_header : Decoder (ℕ × ℕ × ℕ)
unpack_header = do
  block_type_byte ← unpack 1
  flags ← unpack 1
  block_length ← unpack 8
  pure (block_type_byte, flags, block_length)

-- The bytes of the file from the current position on. A block length below the header's makes
-- `read` raise ValueError, but for the length -1, which reads to the end.
unfoldable pub read_payload : ℕ → Bytes → Result Bytes
read_payload block_length rest =
    if leb block_header_size block_length
    then ok (take (block_length - block_header_size) rest)
    else if block_length == 9
    then ok rest
    else err value_error

unfoldable pub read_one_block : Bytes → Result (BlockType × ℕ × Bytes)
unfolding unpack_header read_payload
read_one_block file =
    if ltb (length file) block_header_size
    then err eof_error
    else bind (unpack_header file) λ ((block_type_byte, flags, block_length), rest).
      bind (read_payload block_length rest) λ payload.
        bind (to_block_type block_type_byte) λ block_type. ok (block_type, flags, payload)
