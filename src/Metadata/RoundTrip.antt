-- ===== src/Metadata/RoundTrip.antt =====
-- python/src/trlog/_metadata.py: the round trips of typed attributes and of the BLK_META block.
use trlog.Prelude.{
  ℕ, ◌+◌, ◌^◌, ◌<◌, ◌≡◌, refl, List, [], ◌++◌, append-nil, length, arith, Bool, true, false, not,
  ◌==◌, bit_and, ◌&&◌,
}
use trlog.Prelude.Bits.{every, every_sound}
use trlog.Prelude.Int.{ℤ, pos}
use trlog.Wire.{Bytes, ok, ◌>>=◌, pure, read_byte}
use trlog.Wire.Reads.{
  Codes, Codes-bind, Codes-map, Codes-map_eq, Codes-pure, Codes-append_byte, Codes-byte, Codes-pack,
  Codes-repeat, All,
}
use trlog.Floats.{Float, Floats}
use trlog.Types.{meta}
use trlog.Codec.Uvarint.{Codes-uvarint}
use trlog.Codec.Svarint.{IsI64, Codes-svarint}
use trlog.Compression.{Compression, IsSound, has_flag}
use trlog.Block.{read_one_block}
use trlog.Block.Packed.{packed_block-Unpacks}
use trlog.Metadata.{
  at_bool, at_i64, at_u64, at_f64, at_str, at_array, Scalar, bool, int, float, Value, scalar, list,
  encode_scalar, truth_byte, decode_scalar, scalar_base, encode_typed_value, decode_typed_value,
  TypedAttr, encode_typed_attr, decode_typed_attr, encode_typed_attr_list, decode_typed_attr_list,
  MetaBlock, encode_block, read_block,
}

-- The values of a scalar type that can be told apart on the wire.
pub data Fits (base : ℕ) (v : Scalar) : Type 0 where
  a_bool : base ≡ at_bool → (b : Bool) → v ≡ bool b → Fits base v
  an_i64 : base ≡ at_i64 → (n : ℤ) → IsI64 n → v ≡ int n → Fits base v
  a_u64 : base ≡ at_u64 → (n : ℕ) → n < 2 ^ 70 → v ≡ int (pos n) → Fits base v
  an_f64 : base ≡ at_f64 → (x : Float) → x < 2 ^ 64 → v ≡ float x → Fits base v
  a_str : base ≡ at_str → (n : ℕ) → n < 2 ^ 70 → v ≡ int (pos n) → Fits base v

Codes-truth :
    (b : Bool) → Codes (truth_byte b) (read_byte >>= λ x. pure (bool (not (x == 0)))) (bool b)
Codes-truth true = Codes-map_eq (λ x. bool (not (x == 0))) refl (Codes-byte 1)
Codes-truth false = Codes-map_eq (λ x. bool (not (x == 0))) refl (Codes-byte 0)

pub Codes-scalar :
    (fl : Floats) (base : ℕ) (v : Scalar)
    → Fits base v
    → Codes (encode_scalar fl base v) (decode_scalar base) v
unfolding encode_scalar decode_scalar
Codes-scalar fl base v (a_bool e b p) = rw (e, p) (Codes-truth b)
Codes-scalar fl base v (an_i64 e n h p) = rw (e, p) (Codes-map int (Codes-svarint n h))
Codes-scalar fl base v (a_u64 e n h p) = rw (e, p) (Codes-map (λ n. int (pos n)) (Codes-uvarint h))
Codes-scalar fl base v (an_f64 e x h p) = rw (e, p) (Codes-map float (Codes-pack 8 x h))
Codes-scalar fl base v (a_str e n h p) = rw (e, p) (Codes-map (λ n. int (pos n)) (Codes-uvarint h))

-- A scalar at its type, or a list of scalars at the array type over theirs.
pub data Typed (t : ℕ) (v : Value) : Type 0 where
  a_scalar : t < at_array → (x : Scalar) → Fits t x → v ≡ scalar x → Typed t v
  an_array :
      (base : ℕ)
      → base < at_array
      → t ≡ base + at_array
      → (xs : List Scalar) → All (Fits base) xs
      → length xs < 2 ^ 70
      → v ≡ list xs
      → Typed t v

-- the array bit, below it and above it
no_array_bit : (t : ℕ) → t < 64 → has_flag t at_array ≡ false
unfolding every
no_array_bit t h = ground (arith, every_sound (λ x. not (has_flag x at_array)) 64 refl t h)

array_bit :
    (t : ℕ) → t < 64 → (has_flag (t + at_array) at_array ≡ true) × (scalar_base (t + at_array) ≡ t)
unfolding every scalar_base
array_bit t h =
    ground (arith, every_sound (λ x. bit_and (x + at_array) at_array == at_array) 64 refl t h)

pub Codes-typed_value :
    (fl : Floats) (t : ℕ) (v : Value)
    → Typed t v
    → Codes (encode_typed_value fl t v) (decode_typed_value t) v
unfolding encode_typed_value decode_typed_value
Codes-typed_value fl t v (a_scalar ht x h p) =
    rw (p, no_array_bit t ht) (Codes-map scalar (Codes-scalar fl t x h))
Codes-typed_value fl t v (an_array base hb e xs h few p) =
    rw (p, e, (array_bit base hb).0, (array_bit base hb).1)
      (Codes-bind _ (Codes-uvarint few)
        (Codes-map list (Codes-repeat (Fits base) _ _ (Codes-scalar fl base) xs h)))

pub record IsTypedAttr (a : TypedAttr) : Type 0 where
  pub key_fits : a.key_str_id < 2 ^ 70
  pub typed : Typed a.attr_type a.value

Typed-lt : {t : ℕ} {v : Value} → Typed t v → t < 256
Typed-lt (a_scalar ht x h p) = omega arith
Typed-lt (an_array base hb e xs h few p) = omega arith

pub Codes-typed_attr :
    (fl : Floats) (a : TypedAttr)
    → IsTypedAttr a
    → Codes (encode_typed_attr fl a) decode_typed_attr a
unfolding encode_typed_attr decode_typed_attr
Codes-typed_attr fl a h = Codes-bind _ (Codes-uvarint h.key_fits) (
    Codes-bind _ (Codes-append_byte a.attr_type (Typed-lt h.typed))
      (Codes-bind _ (Codes-typed_value fl a.attr_type a.value h.typed) (Codes-pure a)))

-- A list of well-typed attributes is encoded, and is read back whatever follows.
pub Codes-typed_attr_list :
    (fl : Floats) (attrs : List TypedAttr)
    → All IsTypedAttr attrs
    → length attrs < 2 ^ 70
    → Codes (encode_typed_attr_list fl attrs) decode_typed_attr_list attrs
unfolding encode_typed_attr_list decode_typed_attr_list
Codes-typed_attr_list fl attrs h few =
    Codes-bind _ (Codes-uvarint few) (Codes-repeat IsTypedAttr _ _ (Codes-typed_attr fl) attrs h)

-- A BLK_META block, compressed or not, is read back from the file as the attributes that it was
-- written from, and they join those that the reader's block holds already.
pub read-encode_block_meta :
    (c : Compression) (fl : Floats) (compress : Bool) (attrs old : MetaBlock) (rest : Bytes)
    {block : Bytes}
    → IsSound c
    → All IsTypedAttr attrs
    → length attrs < 2 ^ 70
    → encode_block c fl compress attrs ≡ ok block
    → (flags : ℕ) × (payload : Bytes) × (read_one_block (block ++ rest) ≡ ok (meta, flags, payload))
      × (read_block c flags payload old ≡ ok (old ++ attrs))
unfolding encode_block read_block
read-encode_block_meta c fl compress attrs old rest s h few e =
    let codes = Codes-typed_attr_list fl attrs h few in
    let u =
      packed_block-Unpacks c (compress && not (length codes.bytes == 0)) false meta codes.bytes rest
        s (rw codes.encoded at e) in
    let whole = rw append-nil at (codes.decoded []) in
    (u.flags, u.packed, u.block_read, rw (u.unpacked, whole))
