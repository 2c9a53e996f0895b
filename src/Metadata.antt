-- ===== src/Metadata.antt =====
-- python/src/trlog/_metadata.py: typed values of the transparent metadata, typed attributes, and
-- the BLK_META block.
pub mod RoundTrip
pub mod Infer
pub mod Attr
pub mod Interned
pub mod Resolve
mod Tests
use trlog.Prelude.{
  ℕ, zero, suc, ◌+◌, ◌-◌, ◌==◌, List, [], ◌∷◌, ◌++◌, Option, none, some, Bool, true, false, not,
  ◌&&◌, if◌then◌else◌, length, ltb, bit_and, map,
}
use trlog.Prelude.Int.{ℤ, pos, negsuc}
use trlog.Wire.{
  Bytes, Result, ok, err, bind, ◌+++◌, concat, concat_map, Decoder, ◌>>=◌, pure, raise, lift,
  repeat, append_byte, read_byte, pack, unpack, value_error, type_error,
}
use trlog.Floats.{Float, Floats, is_nonzero}
use trlog.Types.{meta}
use trlog.Codec.{encode_uvarint, decode_uvarint, encode_svarint, decode_svarint}
use trlog.Compression.{Compression, has_flag, decompress_payload}
use trlog.Block.Packed.{packed_block}

-- AttrType of _types.py; an array type is the element's type with the bit `at_array` set.
abbrev pub at_bool : ℕ
at_bool = 0x00

abbrev pub at_i64 : ℕ
at_i64 = 0x01

abbrev pub at_u64 : ℕ
at_u64 = 0x02

abbrev pub at_f64 : ℕ
at_f64 = 0x03

abbrev pub at_str : ℕ
at_str = 0x04

abbrev pub at_array : ℕ
at_array = 0x40

-- A Python value that can be an attribute's: a bool, an int (also for a string, by its id in the
-- string table), a float, or a list of these.
pub data Scalar : Type 0 where
  bool : Bool → Scalar
  int : ℤ → Scalar
  float : Float → Scalar

pub data Value : Type 0 where
  scalar : Scalar → Value
  list : List Scalar → Value

-- `bool(v)`, `int(v)` and `float(v)`
unfoldable pub truth : Scalar → Bool
truth (bool b) = b
truth (int (pos zero)) = false
truth (int n) = true
truth (float x) = is_nonzero x

abbrev bool_int : Bool → ℤ
bool_int true = pos 1
bool_int false = pos 0

unfoldable pub to_int : Floats → Scalar → Result ℤ
to_int fl (bool b) = ok (bool_int b)
to_int fl (int n) = ok n
to_int fl (float x) = fl.truncate x

unfoldable pub to_float : Floats → Scalar → Result Float
to_float fl (bool b) = fl.from_int (bool_int b)
to_float fl (int n) = fl.from_int n
to_float fl (float x) = ok x

-- `attr_type & ~AT_ARRAY`
unfoldable pub scalar_base : ℕ → ℕ
scalar_base attr_type = attr_type - bit_and attr_type at_array

abbrev truth_byte : Bool → Result Bytes
truth_byte true = ok (1 ∷ [])
truth_byte false = ok (0 ∷ [])

-- `encode_typed_value` at a type without the array bit.
unfoldable pub encode_scalar : Floats → ℕ → Scalar → Result Bytes
unfolding truth to_int to_float
encode_scalar fl base value =
    if base == at_bool
    then truth_byte (truth value)
    else if base == at_i64
    then bind (to_int fl value) encode_svarint
    else if base == at_u64
    then bind (to_int fl value) encode_uvarint
    else if base == at_f64
    then bind (to_float fl value) (pack 8)
    else if base == at_str
    then bind (to_int fl value) encode_uvarint
    else err value_error

-- A list where a scalar is wanted has a truth value, and neither `int` nor `float` takes it; an
-- array wants a list, since `len` takes no scalar.
unfoldable pub encode_typed_value : Floats → ℕ → Value → Result Bytes
unfolding encode_scalar scalar_base
encode_typed_value fl attr_type (list vs) =
    if has_flag attr_type at_array
    then encode_uvarint (pos (length vs))
      +++ concat_map (encode_scalar fl (scalar_base attr_type)) vs
    else if attr_type == at_bool
    then truth_byte (not (length vs == 0))
    else if ltb attr_type 5
    then err type_error
    else err value_error
encode_typed_value fl attr_type (scalar v) =
    if has_flag attr_type at_array then err type_error else encode_scalar fl attr_type v

unfoldable pub decode_scalar : ℕ → Decoder Scalar
decode_scalar base =
    if base == at_bool
    then (do b ← read_byte; pure (bool (not (b == 0))))
    else if base == at_i64
    then (do n ← decode_svarint; pure (int n))
    else if base == at_u64
    then (do n ← decode_uvarint; pure (int (pos n)))
    else if base == at_f64
    then (do x ← unpack 8; pure (float x))
    else if base == at_str
    then (do n ← decode_uvarint; pure (int (pos n)))
    else raise value_error

unfoldable pub decode_typed_value : ℕ → Decoder Value
unfolding decode_scalar scalar_base
decode_typed_value attr_type =
    if has_flag attr_type at_array
    then (do
      count ← decode_uvarint
      vs ← repeat count (decode_scalar (scalar_base attr_type))
      pure (list vs))
    else (do v ← decode_scalar attr_type; pure (scalar v))

pub record TypedAttr : Type 0 where
  pub key_str_id : ℕ
  pub attr_type : ℕ
  pub value : Value

unfoldable pub encode_typed_attr : Floats → TypedAttr → Result Bytes
encode_typed_attr fl attr = concat (
    encode_uvarint (pos attr.key_str_id)
    ∷ append_byte attr.attr_type
    ∷ encode_typed_value fl attr.attr_type attr.value
    ∷ [])

unfoldable pub decode_typed_attr : Decoder TypedAttr
decode_typed_attr = do
  key_id ← decode_uvarint
  attr_type ← read_byte
  value ← decode_typed_value attr_type
  pure (record { key_str_id = key_id; attr_type = attr_type; value = value })

unfoldable pub encode_typed_attr_list : Floats → List TypedAttr → Result Bytes
encode_typed_attr_list fl attrs =
    encode_uvarint (pos (length attrs)) +++ concat_map (encode_typed_attr fl) attrs

unfoldable pub decode_typed_attr_list : Decoder (List TypedAttr)
decode_typed_attr_list = do count ← decode_uvarint; repeat count decode_typed_attr

-- The trace-global block: `self.attrs`, with `add`.
abbrev pub MetaBlock : Type 0
MetaBlock = List TypedAttr

unfoldable pub add : TypedAttr → MetaBlock → MetaBlock
add attr attrs = attrs ++ (attr ∷ [])

-- `if compress and payload`: an empty payload stays as it is.
unfoldable pub encode_block : Compression → Floats → Bool → MetaBlock → Result Bytes
encode_block c fl compress attrs =
    bind (encode_typed_attr_list fl attrs)
      λ payload. packed_block c (compress && not (length payload == 0)) false meta payload

unfoldable pub read_block : Compression → ℕ → Bytes → MetaBlock → Result MetaBlock
read_block c flags payload attrs =
    bind (decompress_payload c flags payload)
      λ raw. bind (decode_typed_attr_list raw) λ (more, _). ok (attrs ++ more)
