-- ===== src/Codec/Value.antt =====
-- python/src/trlog/_codec.py: `encode_field` on any of the values that an attribute may have, with
-- the conversions that Python makes. `of_field` is the value that `decode_field` returns.
use trlog.Prelude.{
  ℕ, zero, ◌^◌, ◌≡◌, refl, List, [], ◌∷◌, replicate, Bool, true, false, not, ◌&&◌, ltb, leb,
  if◌then◌else◌,
}
use trlog.Prelude.Int.{ℤ, pos, negsuc}
use trlog.Wire.{
  Bytes, Result, ok, err, bind, ◌+++◌, Decoder, pure, ◌>>=◌, append_byte, value_error, type_error,
  struct_error, negative_uvarint,
}
use trlog.Wire.Reads.{Codes, Codes-map}
use trlog.Text.{Str}
use trlog.Floats.{Float, Floats, is_nonzero}
use trlog.Types.{
  FieldType, u8, u16, u32, u64, i8, i16, i32, i64, f32, f64, string, bitvec, bytes, time, enum,
}
use trlog.Types
use trlog.Codec.{encode_uvarint}
use trlog.Codec.Framed.{encode_text, encode_bytes}
use trlog.Codec.Field.{Singles, FieldValue, encode_field, decode_field, IsField}
use trlog.Codec.Field.RoundTrip.{Codes-field}

-- What the interpreter does with numbers.
pub record Numbers : Type 0 where
  pub floats : Floats
  pub singles : Singles

-- An int, a float, a bool, a str, bytes, or a pair of a width and an int.
pub data FieldVal : Type 0 where
  int : ℤ → FieldVal
  float : Float → FieldVal
  bool : Bool → FieldVal
  str : Str → FieldVal
  raw : Bytes → FieldVal
  bits : ℕ → ℤ → FieldVal

abbrev bool_int : Bool → ℤ
bool_int true = pos 1
bool_int false = pos 0

abbrev is_empty : List ℕ → Bool
is_empty [] = true
is_empty (x ∷ xs) = false

-- An integer field of struct.pack.
unfoldable pub as_int : FieldVal → Result ℤ
as_int (int n) = ok n
as_int (bool b) = ok (bool_int b)
as_int (float x) = err struct_error
as_int (str s) = err struct_error
as_int (raw bs) = err struct_error
as_int (bits w n) = err struct_error

-- A float field of struct.pack.
unfoldable pub as_float : Floats → FieldVal → Result Float
as_float fl (float x) = ok x
as_float fl (int n) = fl.from_int n
as_float fl (bool b) = fl.from_int (bool_int b)
as_float fl (str s) = err struct_error
as_float fl (raw bs) = err struct_error
as_float fl (bits w n) = err struct_error

-- `1 if value else 0`
unfoldable pub as_bool : FieldVal → Bool
as_bool (bool b) = b
as_bool (int (pos zero)) = false
as_bool (int n) = true
as_bool (float x) = is_nonzero x
as_bool (str s) = not (is_empty s)
as_bool (raw bs) = not (is_empty bs)
as_bool (bits w n) = true

abbrev zeros : ℤ → Result Bytes
zeros (pos n) = ok (replicate n 0)
zeros (negsuc n) = err value_error

abbrev byte_of : ℤ → Result Bytes
byte_of (pos n) = append_byte n
byte_of (negsuc n) = err value_error

-- `bytes(value)`: an int gives as many zeros, and a pair is two bytes.
unfoldable pub as_bytes : FieldVal → Result Bytes
as_bytes (raw bs) = ok bs
as_bytes (int n) = zeros n
as_bytes (bool b) = zeros (bool_int b)
as_bytes (bits w n) = append_byte w +++ byte_of n
as_bytes (float x) = err type_error
as_bytes (str s) = err type_error

unfoldable pub encode_string : FieldVal → Result Bytes
encode_string (str s) = encode_text s
encode_string v = bind (as_bytes v) encode_bytes

-- `bit_width, int_value = value`: two bytes are a pair of ints too.
unfoldable pub as_bits : FieldVal → Result (ℕ × ℤ)
as_bits (bits w n) = ok (w, n)
as_bits (raw (w ∷ n ∷ [])) = ok (w, pos n)
as_bits (raw bs) = err value_error
as_bits (str (w ∷ n ∷ [])) = err type_error
as_bits (str s) = err value_error
as_bits (int n) = err type_error
as_bits (float x) = err type_error
as_bits (bool b) = err type_error

-- below zero, and no NaN
abbrev is_negative : Float → Bool
is_negative x = ltb (2 ^ 63) x && leb x 0xFFF0_0000_0000_0000

-- `encode_uvarint` compares with 0 before it takes bits.
unfoldable pub encode_enum : FieldVal → Result Bytes
encode_enum (int n) = encode_uvarint n
encode_enum (bool b) = encode_uvarint (bool_int b)
encode_enum (float x) = if is_negative x then err negative_uvarint else err type_error
encode_enum (str s) = err type_error
encode_enum (raw bs) = err type_error
encode_enum (bits w n) = err type_error

module _ (py : Numbers) where
  unfoldable pub encode_value : FieldType → FieldVal → Result Bytes
  unfolding as_int as_float as_bool as_bytes encode_string as_bits encode_enum
  encode_value u8 v = bind (as_int v) (encode_field py.singles u8)
  encode_value u16 v = bind (as_int v) (encode_field py.singles u16)
  encode_value u32 v = bind (as_int v) (encode_field py.singles u32)
  encode_value u64 v = bind (as_int v) (encode_field py.singles u64)
  encode_value i8 v = bind (as_int v) (encode_field py.singles i8)
  encode_value i16 v = bind (as_int v) (encode_field py.singles i16)
  encode_value i32 v = bind (as_int v) (encode_field py.singles i32)
  encode_value i64 v = bind (as_int v) (encode_field py.singles i64)
  encode_value f32 v = bind (as_float py.floats v) (encode_field py.singles f32)
  encode_value f64 v = bind (as_float py.floats v) (encode_field py.singles f64)
  encode_value Types.FieldType.bool v = encode_field py.singles Types.FieldType.bool (as_bool v)
  encode_value string v = encode_string v
  encode_value bitvec v = bind (as_bits v) (encode_field py.singles bitvec)
  encode_value bytes v = bind (as_bytes v) (encode_field py.singles bytes)
  encode_value time v = bind (as_int v) (encode_field py.singles time)
  encode_value enum v = encode_enum v

unfoldable pub of_field : (ft : FieldType) → FieldValue ft → FieldVal
of_field u8 n = int n
of_field u16 n = int n
of_field u32 n = int n
of_field u64 n = int n
of_field i8 n = int n
of_field i16 n = int n
of_field i32 n = int n
of_field i64 n = int n
of_field f32 x = float x
of_field f64 x = float x
of_field Types.FieldType.bool b = bool b
of_field string s = str s
of_field bitvec (w, n) = bits w n
of_field bytes bs = raw bs
of_field time n = int n
of_field enum n = int n

module _ (py : Numbers) where
  unfoldable pub decode_value : (ft : FieldType) → Decoder FieldVal
  decode_value ft = do v ← decode_field py.singles ft; pure (of_field ft v)

  -- A value of the kind that the field type stands for is encoded as that.
  encode-of_field :
      (ft : FieldType) (v : FieldValue ft)
      → encode_value py ft (of_field ft v) ≡ encode_field py.singles ft v
  unfolding encode_value of_field encode_field
  encode-of_field u8 n = refl
  encode-of_field u16 n = refl
  encode-of_field u32 n = refl
  encode-of_field u64 n = refl
  encode-of_field i8 n = refl
  encode-of_field i16 n = refl
  encode-of_field i32 n = refl
  encode-of_field i64 n = refl
  encode-of_field f32 x = refl
  encode-of_field f64 x = refl
  encode-of_field Types.FieldType.bool b = refl
  encode-of_field string s = refl
  encode-of_field bitvec (w, n) = refl
  encode-of_field bytes bs = refl
  encode-of_field time n = refl
  encode-of_field enum n = refl

  -- A value that a field of the type has room for.
  pub record FitsField (ft : FieldType) (v : FieldVal) : Type 0 where
    pub field : FieldValue ft
    pub is_field : IsField py.singles ft field
    pub is_value : v ≡ of_field ft field

  pub Codes-value :
      (ft : FieldType) (v : FieldVal)
      → FitsField ft v
      → Codes (encode_value py ft v) (decode_value ft) v
  unfolding decode_value
  Codes-value ft v h =
      rw (h.is_value, encode-of_field ft h.field)
        (Codes-map (of_field ft) (Codes-field py.singles ft h.field h.is_field))
