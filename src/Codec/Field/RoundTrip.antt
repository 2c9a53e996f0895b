-- ===== src/Codec/Field/RoundTrip.antt =====
-- python/src/trlog/_codec.py: the round trips of `encode_field` and `decode_field`.
use trlog.Prelude.{
  ℕ, suc, ◌-◌, ◌*◌, ◌^◌, ◌<◌, ◌≡◌, refl, ◌∙◌, ap, [], ◌∷◌, reverse, length, length-append, arith,
  Bool, true, false, not, ◌==◌, lt→ltb,
}
use trlog.Prelude.Int.{ℤ, pos, negsuc}
use trlog.Wire.{◌>>=◌, pure, Bytes, ok, read_slice, le_bytes}
use trlog.Wire.Reads.{
  Codes, Codes-bind, Codes-map, Codes-map_eq, Codes-pack, Codes-slice, length-le_bytes,
  from_le-le_bytes,
}
use native.Mathlib.Nat.{pow-suc}
use mathlib.Core.List.{reverse-cons, reverse-reverse}
use trlog.Types.{
  FieldType, u8, u16, u32, u64, i8, i16, i32, i64, f32, f64, string, bitvec, bytes, time, enum,
}
use trlog.Types
use trlog.Codec.Uvarint.{Codes-uvarint}
use trlog.Codec.Framed.{Codes-bytes, Codes-text}
use trlog.Codec.Field.{
  Singles, FieldValue, pack_unsigned, pack_signed, signed, unpack_unsigned, unpack_signed,
  to_bytes_big, from_bytes_big, bytes_for, flag, encode_field, decode_field, IsUnsigned, IsSigned,
  IsField,
}

Codes-unsigned : (w : ℕ) (n : ℤ) → IsUnsigned w n → Codes (pack_unsigned w n) (unpack_unsigned w) n
unfolding pack_unsigned unpack_unsigned
Codes-unsigned w (pos n) h = Codes-map pos (Codes-pack w n h)
Codes-unsigned w (negsuc n) h = absurd h

Codes-signed :
    (w : ℕ) (n : ℤ) → IsSigned (suc w) n → Codes (pack_signed (suc w) n) (unpack_signed (suc w)) n
unfolding pack_signed unpack_signed
Codes-signed w (pos n) h =
    rw (lt→ltb (2 * n) (256 ^ suc w) h)
      (Codes-map_eq (signed (suc w)) (ground arith) (Codes-pack (suc w) n (omega arith)))
Codes-signed w (negsuc n) h = rw (lt→ltb (2 * n) (256 ^ suc w) h) (
    Codes-map_eq (signed (suc w)) (ground (arith, pow-suc 256 w, h))
      (Codes-pack (suc w) (256 ^ suc w - 1 - n) (omega arith)))

length-reversed : (bs : Bytes) → length (reverse bs) ≡ length bs
length-reversed [] = refl
length-reversed (b ∷ bs) =
    rw (reverse-cons b bs) (omega (arith, length-append (reverse bs) (b ∷ []), length-reversed bs))

-- The big-endian bytes are as many as asked for, and give the number back.
big_bytes : ℕ → ℕ → Bytes
big_bytes w n = reverse (le_bytes w n)

Codes-big_bytes : (w n : ℕ) → Codes (ok (big_bytes w n)) (read_slice w) (big_bytes w n)
unfolding big_bytes
Codes-big_bytes w n =
    rw (length-reversed (le_bytes w n) ∙ length-le_bytes w n) at (Codes-slice (big_bytes w n))

from-big_bytes : (w n : ℕ) → n < 256 ^ w → from_bytes_big (big_bytes w n) ≡ n
unfolding big_bytes from_bytes_big
from-big_bytes w n h = rw (reverse-reverse (le_bytes w n)) (from_le-le_bytes w n h)

-- A number as big-endian bytes, read as what is made of it.
pub Codes-big {ℓ} :
    {A : Type ℓ} (f : ℕ → A) (w n : ℕ)
    → n < 256 ^ w
    → Codes (to_bytes_big w (pos n)) (read_slice w >>= λ raw. pure (f (from_bytes_big raw))) (f n)
unfolding to_bytes_big big_bytes
Codes-big f w n h = rw (lt→ltb n (256 ^ w) h) (
    Codes-map_eq (λ (raw : Bytes). f (from_bytes_big raw)) (ap f (from-big_bytes w n h))
      (Codes-big_bytes w n))

Codes-bitvec :
    (fl : Singles) (bit_width n : ℕ)
    → bit_width < 2 ^ 70
    → n < 256 ^ bytes_for bit_width
    → Codes (encode_field fl bitvec (bit_width, pos n)) (decode_field fl bitvec) (bit_width, pos n)
unfolding encode_field decode_field to_bytes_big big_bytes
Codes-bitvec fl bit_width n hw hn = rw (lt→ltb n (256 ^ bytes_for bit_width) hn) (
    Codes-bind _ (Codes-uvarint hw) (
      Codes-map_eq (λ (raw : Bytes). (bit_width, pos (from_bytes_big raw)))
        (ap (λ (m : ℕ). (bit_width, pos m)) (from-big_bytes (bytes_for bit_width) n hn))
        (Codes-big_bytes (bytes_for bit_width) n)))

flag-eq : (b : Bool) → not (flag b == 0) ≡ b
flag-eq true = refl
flag-eq false = refl

flag-lt : (b : Bool) → flag b < 256 ^ 1
flag-lt true = omega arith
flag-lt false = omega arith

-- For every field type, a value that the field has room for is encoded, and is read back whatever
-- follows; a single is one that the conversion to 32 bits keeps.
pub Codes-field :
    (fl : Singles) (ft : FieldType) (v : FieldValue ft)
    → IsField fl ft v
    → Codes (encode_field fl ft v) (decode_field fl ft) v
unfolding encode_field decode_field
Codes-field fl u8 n h = Codes-unsigned 1 n h
Codes-field fl u16 n h = Codes-unsigned 2 n h
Codes-field fl u32 n h = Codes-unsigned 4 n h
Codes-field fl u64 n h = Codes-unsigned 8 n h
Codes-field fl i8 n h = Codes-signed 0 n h
Codes-field fl i16 n h = Codes-signed 1 n h
Codes-field fl i32 n h = Codes-signed 3 n h
Codes-field fl i64 n h = Codes-signed 7 n h
Codes-field fl f32 x (b, narrowed, fits, back) =
    rw narrowed (Codes-map_eq fl.from_single back (Codes-pack 4 b fits))
Codes-field fl f64 x h = Codes-pack 8 x h
Codes-field fl Types.FieldType.bool b h =
    Codes-map_eq (λ n. not (n == 0)) (flag-eq b) (Codes-pack 1 (flag b) (flag-lt b))
Codes-field fl string s h = Codes-text h
Codes-field fl bitvec (bit_width, pos n) (hw, hn) = Codes-bitvec fl bit_width n hw hn
Codes-field fl bitvec (bit_width, negsuc n) h = absurd h
Codes-field fl bytes raw h = Codes-bytes raw h
Codes-field fl time n h = Codes-unsigned 8 n h
Codes-field fl enum (pos n) h = Codes-map pos (Codes-uvarint h)
Codes-field fl enum (negsuc n) h = absurd h
