-- ===== src/Codec/Svarint.antt =====
-- The zigzag codec on the integers of 64 bits, and outside of them.
use trlog.Prelude.{ℕ, ◌+◌, ◌*◌, ◌/◌, ◌%◌, ◌^◌, ◌<◌, ◌-◌, ◌≡◌, ◌∙◌, ap, bit_and, bit_xor, arith}
use trlog.Prelude.Bits.{bit_and_mask, bit_xor-zero}
use trlog.Prelude.Int.{ℤ, pos, negsuc}
use trlog.Prelude.Int.Bits.{◌<<◌, ◌>>ℤ◌, ◌^ℤ◌, ◌&ℤ◌}
use trlog.Wire.Reads.{Codes, Codes-map_eq}
use trlog.Codec.{encode_uvarint, encode_svarint, decode_svarint, negate_bit}
use trlog.Codec.Uvarint.{Codes-uvarint}

-- -2^63 <= n < 2^63
abbrev pub IsI64 : ℤ → Type 0
IsI64 (pos n) = n < 2 ^ 63
IsI64 (negsuc n) = n < 2 ^ 63

-- The number of the source that is written for `n`: 0, -1, 1, -2, … become 0, 1, 2, 3, ….
abbrev pub zigzag : ℤ → ℕ
zigzag (pos n) = 2 * n
zigzag (negsuc n) = 2 * n + 1

mask_64 : (a : ℕ) → bit_and a 0xFFFF_FFFF_FFFF_FFFF ≡ a % 2 ^ 64
mask_64 a = bit_and_mask 64 a

-- with no digit left of the sign, `^` leaves the shifted number
shifted : (a s : ℕ) → a < 2 ^ 64 → s ≡ 0 → bit_and (bit_xor a s) 0xFFFF_FFFF_FFFF_FFFF ≡ a
shifted a s h e = ground (arith, bit_xor-zero a, mask_64 a)

pub encode_svarint-zigzag : (n : ℤ) → IsI64 n → encode_svarint n ≡ encode_uvarint (pos (zigzag n))
unfolding encode_svarint ◌<<◌ ◌>>ℤ◌ ◌^ℤ◌ ◌&ℤ◌
encode_svarint-zigzag (pos n) h =
    ap (λ t. encode_uvarint (pos t))
      (shifted (n * 2 ^ 1) (n / 2 ^ 63) (omega arith) (omega arith) ∙ omega arith)
encode_svarint-zigzag (negsuc n) h =
    ap (λ t. encode_uvarint (pos t))
      (shifted ((n + 1) * 2 ^ 1 - 1) (n / 2 ^ 63) (omega arith) (omega arith) ∙ omega arith)

unzigzag : (n : ℤ) → pos (zigzag n / 2) ^ℤ negate_bit (bit_and (zigzag n) 1) ≡ n
unfolding ◌^ℤ◌ negate_bit
unzigzag (pos n) = ground (arith, bit_and_mask 1 (2 * n), bit_xor-zero (2 * n / 2))
unzigzag (negsuc n) = ground (arith, bit_and_mask 1 (2 * n + 1), bit_xor-zero ((2 * n + 1) / 2))

zigzag-lt : (n : ℤ) → IsI64 n → zigzag n < 2 ^ 70
zigzag-lt (pos n) h = omega arith
zigzag-lt (negsuc n) h = omega arith

-- `decode_svarint` reads back, whatever follows, every 64-bit signed integer that `encode_svarint`
-- wrote.
pub Codes-svarint : (n : ℤ) → IsI64 n → Codes (encode_svarint n) decode_svarint n
unfolding decode_svarint
Codes-svarint n h = rw (encode_svarint-zigzag n h) (
    Codes-map_eq (λ z. pos (z / 2) ^ℤ negate_bit (bit_and z 1)) (unzigzag n)
      (Codes-uvarint (zigzag-lt n h)))
