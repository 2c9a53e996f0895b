-- ===== src/Codec.antt =====
-- python/src/trlog/_codec.py: unsigned LEB-128 varints and zigzag svarints.
pub mod Uvarint
pub mod Svarint
pub mod Offset
pub mod Framed
pub mod Field
pub mod Value
mod Tests
use trlog.Prelude.{
  ℕ, zero, suc, ◌+◌, ◌*◌, ◌/◌, ◌^◌, ◌<◌, bit_and, bit_or, bit_xor, List, [], ◌∷◌, ltb, leb, ◌==◌,
  if◌then◌else◌, length, get_elem?, Option, none, some,
}
use trlog.Prelude.Int.{ℤ, pos, negsuc}
use trlog.Prelude.Int.Bits.{◌<<◌, ◌>>ℤ◌, ◌^ℤ◌, ◌&ℤ◌}
use trlog.Wire.{Bytes, Result, ok, err, negative_uvarint, truncated_uvarint, uvarint_too_large}
use trlog.Wire.{Decoder, ◌>>=◌, pure}

-- The `while True` loop of `encode_uvarint`. Each round shifts `n` by 7 bits, so `n + 1` rounds
-- are more than enough.
unfoldable pub uvarint_loop : ℕ → ℕ → Bytes
uvarint_loop zero n = []
uvarint_loop (suc fuel) n =
    let byte = bit_and n 0x7F in
    let more = bit_or byte 0x80 ∷ uvarint_loop fuel (n / 2 ^ 7) in
    if n / 2 ^ 7 == 0 then byte ∷ [] else more

unfoldable pub uvarint : ℕ → Bytes
uvarint n = uvarint_loop (suc n) n

unfoldable pub encode_uvarint : ℤ → Result Bytes
encode_uvarint (pos n) = ok (uvarint n)
encode_uvarint (negsuc n) = err negative_uvarint

unfoldable pub decode_uvarint_loop : ℕ → ℕ → Decoder ℕ
decode_uvarint_loop result shift [] = err truncated_uvarint
decode_uvarint_loop result shift (byte ∷ rest) =
    let result' = bit_or result (bit_and byte 0x7F * 2 ^ shift) in
    let more = decode_uvarint_loop result' (shift + 7) rest in
    if bit_and byte 0x80 == 0
    then ok (result', rest)
    else if leb 64 (shift + 7)
    then err uvarint_too_large
    else more

unfoldable pub decode_uvarint : Decoder ℕ
decode_uvarint = decode_uvarint_loop 0 0

unfoldable pub encode_svarint : ℤ → Result Bytes
encode_svarint n = encode_uvarint ((n << 1 ^ℤ (n >>ℤ 63)) &ℤ pos 0xFFFF_FFFF_FFFF_FFFF)

-- `-(n & 1)`
unfoldable pub negate_bit : ℕ → ℤ
negate_bit zero = pos 0
negate_bit (suc b) = negsuc b

unfoldable pub decode_svarint : Decoder ℤ
decode_svarint = do n ← decode_uvarint; pure (pos (n / 2) ^ℤ negate_bit (bit_and n 1))
