-- ===== src/Codec/Field.antt =====
-- python/src/trlog/_codec.py: `encode_field` and `decode_field`, for each field type with values of
-- the kind that the type stands for.
pub mod RoundTrip
use trlog.Prelude.{
  ℕ, zero, suc, ◌+◌, ◌-◌, ◌*◌, ◌/◌, ◌^◌, ◌<◌, ◌≤◌, ◌≡◌, refl, ◌∙◌, ap, List, [], ◌∷◌, ◌++◌, reverse,
  length, length-append, arith, Bool, true, false, not, ◌==◌, if◌then◌else◌, ltb, lt→ltb,
}
use trlog.Prelude.Int.{ℤ, pos, negsuc}
use trlog.Wire.{
  Bytes, Result, ok, err, bind, ◌+++◌, Decoder, pure, ◌>>=◌, read_slice, pack, unpack, le_bytes,
  from_le, struct_error, overflow_error,
}
use trlog.Wire.Reads.{
  Codes, Codes-bind, Codes-map, Codes-map_eq, Codes-pack, Codes-slice, length-le_bytes,
  from_le-le_bytes,
}
use native.Mathlib.Nat.{pow-suc}
use mathlib.Core.List.{reverse-cons, reverse-reverse}
use trlog.Text.{Str}
use trlog.Floats.{Float}
use trlog.Types.{
  FieldType, u8, u16, u32, u64, i8, i16, i32, i64, f32, f64, string, bitvec, bytes, time, enum,
}
use trlog.Types
use trlog.Codec.{encode_uvarint, decode_uvarint}
use trlog.Codec.Uvarint.{Codes-uvarint}
use trlog.Codec.Framed.{
  encode_bytes, decode_bytes, encode_text, decode_text, IsText, Codes-bytes, Codes-text,
}

-- The interpreter's conversions to and from the 32 bits of a single, which raise OverflowError on
-- a float that is too large.
pub record Singles : Type 0 where
  pub to_single : Float → Result ℕ
  pub from_single : ℕ → Float

-- The values of a field type.
abbrev pub FieldValue : FieldType → Type 0
FieldValue u8 = ℤ
FieldValue u16 = ℤ
FieldValue u32 = ℤ
FieldValue u64 = ℤ
FieldValue i8 = ℤ
FieldValue i16 = ℤ
FieldValue i32 = ℤ
FieldValue i64 = ℤ
FieldValue f32 = Float
FieldValue f64 = Float
FieldValue Types.FieldType.bool = Bool
FieldValue string = Str
FieldValue bitvec = ℕ × ℤ
FieldValue bytes = Bytes
FieldValue time = ℤ
FieldValue enum = ℤ

-- struct.pack of an unsigned and of a signed field of `w` bytes.
unfoldable pub pack_unsigned : ℕ → ℤ → Result Bytes
pack_unsigned w (pos n) = pack w n
pack_unsigned w (negsuc n) = err struct_error

-- The low half is for the numbers from 0, the high half for those below it.
unfoldable pub pack_signed : ℕ → ℤ → Result Bytes
pack_signed w (pos n) = if ltb (2 * n) (256 ^ w) then pack w n else err struct_error
pack_signed w (negsuc n) =
    if ltb (2 * n) (256 ^ w) then pack w (256 ^ w - 1 - n) else err struct_error

abbrev pub signed : ℕ → ℕ → ℤ
signed w u = if ltb (2 * u) (256 ^ w) then pos u else negsuc (256 ^ w - 1 - u)

unfoldable pub unpack_unsigned : ℕ → Decoder ℤ
unpack_unsigned w = do n ← unpack w; pure (pos n)

unfoldable pub unpack_signed : ℕ → Decoder ℤ
unpack_signed w = do u ← unpack w; pure (signed w u)

-- `int.to_bytes(w, 'big')` and `int.from_bytes(raw, 'big')`
unfoldable pub to_bytes_big : ℕ → ℤ → Result Bytes
to_bytes_big w (pos n) = if ltb n (256 ^ w) then ok (reverse (le_bytes w n)) else err overflow_error
to_bytes_big w (negsuc n) = err overflow_error

unfoldable pub from_bytes_big : Bytes → ℕ
from_bytes_big raw = from_le (reverse raw)

abbrev pub bytes_for : ℕ → ℕ
bytes_for bit_width = (bit_width + 7) / 8

abbrev pub flag : Bool → ℕ
flag true = 1
flag false = 0

unfoldable pub encode_field : Singles → (ft : FieldType) → FieldValue ft → Result Bytes
unfolding pack_unsigned pack_signed to_bytes_big encode_text encode_bytes
encode_field fl u8 n = pack_unsigned 1 n
encode_field fl u16 n = pack_unsigned 2 n
encode_field fl u32 n = pack_unsigned 4 n
encode_field fl u64 n = pack_unsigned 8 n
encode_field fl i8 n = pack_signed 1 n
encode_field fl i16 n = pack_signed 2 n
encode_field fl i32 n = pack_signed 4 n
encode_field fl i64 n = pack_signed 8 n
encode_field fl f32 x = bind (fl.to_single x) (pack 4)
encode_field fl f64 x = pack 8 x
encode_field fl Types.FieldType.bool b = pack 1 (flag b)
encode_field fl string s = encode_text s
encode_field fl bitvec (bit_width, n) =
    bind (to_bytes_big (bytes_for bit_width) n) λ raw. encode_uvarint (pos bit_width) +++ ok raw
encode_field fl bytes raw = encode_bytes raw
encode_field fl time n = pack_unsigned 8 n
encode_field fl enum n = encode_uvarint n

unfoldable pub decode_field : Singles → (ft : FieldType) → Decoder (FieldValue ft)
unfolding unpack_unsigned unpack_signed from_bytes_big decode_text decode_bytes
decode_field fl u8 = unpack_unsigned 1
decode_field fl u16 = unpack_unsigned 2
decode_field fl u32 = unpack_unsigned 4
decode_field fl u64 = unpack_unsigned 8
decode_field fl i8 = unpack_signed 1
decode_field fl i16 = unpack_signed 2
decode_field fl i32 = unpack_signed 4
decode_field fl i64 = unpack_signed 8
decode_field fl f32 = do b ← unpack 4; pure (fl.from_single b)
decode_field fl f64 = unpack 8
decode_field fl Types.FieldType.bool = do n ← unpack 1; pure (not (n == 0))
decode_field fl string = decode_text
decode_field fl bitvec = do
  bit_width ← decode_uvarint
  raw ← read_slice (bytes_for bit_width)
  pure (bit_width, pos (from_bytes_big raw))
decode_field fl bytes = decode_bytes
decode_field fl time = unpack_unsigned 8
decode_field fl enum = do n ← decode_uvarint; pure (pos n)

-- The values that a field has room for.
abbrev pub IsUnsigned : ℕ → ℤ → Type 0
IsUnsigned w (pos n) = n < 256 ^ w
IsUnsigned w (negsuc n) = ⊥

abbrev pub IsSigned : ℕ → ℤ → Type 0
IsSigned w (pos n) = 2 * n < 256 ^ w
IsSigned w (negsuc n) = 2 * n < 256 ^ w

abbrev pub IsField : Singles → (ft : FieldType) → FieldValue ft → Type 0
IsField fl u8 n = IsUnsigned 1 n
IsField fl u16 n = IsUnsigned 2 n
IsField fl u32 n = IsUnsigned 4 n
IsField fl u64 n = IsUnsigned 8 n
IsField fl i8 n = IsSigned 1 n
IsField fl i16 n = IsSigned 2 n
IsField fl i32 n = IsSigned 4 n
IsField fl i64 n = IsSigned 8 n
IsField fl f32 x = (b : ℕ) × (fl.to_single x ≡ ok b) × (b < 256 ^ 4) × (fl.from_single b ≡ x)
IsField fl f64 x = x < 256 ^ 8
IsField fl Types.FieldType.bool b = Unit
IsField fl string s = IsText s
IsField fl bitvec (bit_width, pos n) = (bit_width < 2 ^ 70) × (n < 256 ^ bytes_for bit_width)
IsField fl bitvec (bit_width, negsuc n) = ⊥
IsField fl bytes raw = length raw < 2 ^ 70
IsField fl time n = IsUnsigned 8 n
IsField fl enum (pos n) = n < 2 ^ 70
IsField fl enum (negsuc n) = ⊥
