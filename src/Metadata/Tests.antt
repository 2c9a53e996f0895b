-- ===== src/Metadata/Tests.antt =====
-- Runs of the metadata codec at concrete inputs.
use trlog.Prelude.{ℕ, ◌+◌, ◌<◌, ◌^◌, ◌≡◌, refl, List, [], ◌∷◌, ◌++◌, arith, true, false, length}
use trlog.Prelude.Int.{pos, negsuc}
use trlog.Wire.{Bytes, ok, err, negative_uvarint}
use trlog.Wire.Reads.{All, Codes}
use trlog.Types.{meta}
use trlog.Compression.Samples.{marked, marked-IsSound, zero_floats}
use trlog.Block.{read_one_block}
use trlog.Metadata.{
  TypedAttr, Value, encode_typed_value, at_u64, at_i64, at_bool, at_array, bool, int, scalar, list,
  encode_typed_attr_list, decode_typed_attr_list, MetaBlock, encode_block, read_block,
}
use trlog.StringTable.{StringTable, empty, intern}
use trlog.StringTable.Intern.{empty-IsValid}
use trlog.Metadata.Attr.{Attribute, texts, intern_all, build_typed_attr}
use trlog.Metadata.Resolve.{Stored, resolve-build_typed_attr}
use trlog.Metadata.Infer.{infer_attr_type, py_value}
use trlog.Metadata.RoundTrip.{
  IsTypedAttr, a_bool, an_i64, a_scalar, an_array, Codes-typed_attr_list, read-encode_block_meta,
}

-- the attributes 1: -5 and 2: [true, false]
abbrev two_attrs : MetaBlock
two_attrs =
    record { key_str_id = 1; attr_type = at_i64; value = scalar (int (negsuc 4)) }
    ∷ record {
      key_str_id = 2;
      attr_type = at_bool + at_array;
      value = list (bool true ∷ bool false ∷ []);
    }
    ∷ []

two_attrs-typed : All IsTypedAttr two_attrs
two_attrs-typed = (
  record {
    key_fits = omega arith;
    typed =
        a_scalar (omega arith) (int (negsuc 4)) (an_i64 refl (negsuc 4) (omega arith) refl) refl;
  },
  (
    record {
      key_fits = omega arith;
      typed =
          an_array at_bool (omega arith) refl (bool true ∷ bool false ∷ [])
            (a_bool refl true refl, (a_bool refl false refl, tt)) (omega arith) refl;
    },
    tt,
  ),
)

Codes-typed_attr_list_example :
    Codes (encode_typed_attr_list zero_floats two_attrs) decode_typed_attr_list two_attrs
Codes-typed_attr_list_example =
    Codes-typed_attr_list zero_floats two_attrs two_attrs-typed (omega arith)

abbrev two_attrs_block : Bytes
two_attrs_block =
    0x04 ∷ 0x01 ∷ 20 ∷ 0 ∷ 0 ∷ 0 ∷ 0 ∷ 0 ∷ 0 ∷ 0 ∷ 0x78 ∷ 2 ∷ 1 ∷ 1 ∷ 9 ∷ 2 ∷ 0x40 ∷ 2 ∷ 1 ∷ 0 ∷ []

encode-two_attrs_block : encode_block marked zero_floats true two_attrs ≡ ok two_attrs_block
unfolding encode_block encode_typed_attr_list trlog.Wire.◌+++◌ trlog.Codec.encode_uvarint
    trlog.Wire.concat_map trlog.Metadata.encode_typed_attr trlog.Wire.append_byte
    trlog.Metadata.encode_typed_value trlog.Codec.encode_svarint trlog.Prelude.Int.Bits.◌&ℤ◌
    trlog.Prelude.Int.Bits.◌^ℤ◌ trlog.Prelude.Int.Bits.◌<<◌ trlog.Prelude.Int.Bits.◌>>ℤ◌
    trlog.Block.Packed.packed_block trlog.Codec.uvarint trlog.Codec.uvarint_loop
    trlog.Compression.compress_payload trlog.Block.make_block trlog.Metadata.encode_scalar
    trlog.Metadata.scalar_base trlog.Metadata.to_float trlog.Metadata.to_int trlog.Metadata.truth
    trlog.Types.block_type_code trlog.Wire.le_bytes trlog.Wire.pack
encode-two_attrs_block = refl

read-encode_block_meta_example :
    (flags : ℕ) × (payload : Bytes) × (read_one_block (two_attrs_block ++ (7 ∷ []))
      ≡ ok (meta, flags, payload))
    × (read_block marked flags payload [] ≡ ok ([] ++ two_attrs))
read-encode_block_meta_example =
    read-encode_block_meta marked zero_floats true two_attrs [] (7 ∷ []) marked-IsSound
      two_attrs-typed (omega arith) encode-two_attrs_block

abbrev two_names : Attribute
two_names = texts ((97 ∷ []) ∷ (98 ∷ 99 ∷ []) ∷ [])

-- Of the table the key takes the place 1, so the names are 2 and 3.
build-two_names :
    build_typed_attr (107 ∷ []) two_names empty
    ≡ ok (
      record { key_str_id = 1; attr_type = 68; value = list (int (pos 2) ∷ int (pos 3) ∷ []) },
      (intern_all ((97 ∷ []) ∷ (98 ∷ 99 ∷ []) ∷ []) (intern (107 ∷ []) empty).1).1,
    )
unfolding build_typed_attr intern_all intern empty trlog.StringTable.append_str infer_attr_type
    trlog.Metadata.scalar_base trlog.Prelude.Dict.get trlog.Prelude.Dict.put
    trlog.Prelude.Dict.list_beq
build-two_names = refl

resolve-build_typed_attr_example :
    (attr : TypedAttr) × (st' : StringTable) × Stored zero_floats
      (107 ∷ [])
      two_names
      empty
      attr
      st'
unfolding empty
resolve-build_typed_attr_example =
    resolve-build_typed_attr zero_floats (107 ∷ []) two_names empty empty-IsValid (omega arith) tt

-- The first item alone decides, so a list of 1 and -1 cannot be written.
abbrev mixed : Value
mixed = list (int (pos 1) ∷ int (negsuc 0) ∷ [])

infer-mixed : infer_attr_type (py_value mixed) ≡ ok (at_u64 + at_array)
unfolding infer_attr_type
infer-mixed = refl

encode-mixed : encode_typed_value zero_floats (at_u64 + at_array) mixed ≡ err negative_uvarint
unfolding encode_typed_value trlog.Metadata.encode_scalar trlog.Metadata.scalar_base
    trlog.Wire.concat_map trlog.Wire.◌+++◌ trlog.Codec.encode_uvarint trlog.Codec.uvarint
    trlog.Codec.uvarint_loop
encode-mixed = refl
