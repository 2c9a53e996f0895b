-- ===== src/TypeRegistry/Entries.antt =====
-- python/src/trlog/_type_registry.py: signal types, transaction schemas and enum types.
use trlog.Prelude.{ℕ, List, [], ◌∷◌, length, ◌^◌, ◌<◌}
use trlog.Prelude.Int.{ℤ, pos}
use trlog.Wire.{
  Bytes, Result, ◌+++◌, concat, concat_map, Decoder, ◌>>=◌, pure, lift, repeat, append_byte,
  read_byte,
}
use trlog.Wire.Reads.{
  Codes, Codes-bind, Codes-pure, Codes-lift_bind, Codes-append_byte, Codes-repeat, All,
}
use trlog.Types.{
  SignalEncoding, FieldType, Radix, signal_encoding_code, to_signal_encoding, field_type_code,
  to_field_type, radix_code, to_radix,
}
use trlog.Types.Codes.{
  to_signal_encoding-code, signal_encoding_code-lt, to_field_type-code, field_type_code-lt,
  to_radix-code, radix_code-lt,
}
use trlog.Codec.{encode_uvarint, decode_uvarint, encode_svarint, decode_svarint}
use trlog.Codec.Uvarint.{Codes-uvarint}
use trlog.Codec.Svarint.{IsI64, Codes-svarint}

pub record SignalTypeEntry : Type 0 where
  pub sig_type_id : ℕ
  pub encoding : SignalEncoding
  pub bit_width : ℕ
  pub display_radix : Radix

pub record FieldDef : Type 0 where
  pub name_str_id : ℕ
  pub field_type : FieldType
  pub display_hint : Radix
  pub enum_type_id : ℕ

pub record TxnSchemaEntry : Type 0 where
  pub txn_type_id : ℕ
  pub name_str_id : ℕ
  pub fields : List FieldDef

pub record EnumValue : Type 0 where
  pub integer_value : ℤ
  pub label_str_id : ℕ

pub record EnumTypeEntry : Type 0 where
  pub enum_type_id : ℕ
  pub name_str_id : ℕ
  pub values : List EnumValue

-- The encoders write the tag that the registry's loop reads before it calls the decoder.
unfoldable pub encode_signal_type_body : SignalTypeEntry → Result Bytes
encode_signal_type_body e = concat (
    encode_uvarint (pos e.sig_type_id)
    ∷ append_byte (signal_encoding_code e.encoding)
    ∷ encode_uvarint (pos e.bit_width)
    ∷ append_byte (radix_code e.display_radix)
    ∷ [])

unfoldable pub encode_signal_type : SignalTypeEntry → Result Bytes
unfolding encode_signal_type_body
encode_signal_type e = append_byte 0x01 +++ encode_signal_type_body e

unfoldable pub decode_signal_type : Decoder SignalTypeEntry
decode_signal_type = do
  sig_type_id ← decode_uvarint
  encoding ← read_byte
  bit_width ← decode_uvarint
  display_radix ← read_byte
  encoding' ← lift (to_signal_encoding encoding)
  radix ← lift (to_radix display_radix)
  pure (record {
    sig_type_id = sig_type_id;
    encoding = encoding';
    bit_width = bit_width;
    display_radix = radix;
  })

unfoldable pub encode_field_def : FieldDef → Result Bytes
encode_field_def f = concat (
    encode_uvarint (pos f.name_str_id)
    ∷ append_byte (field_type_code f.field_type)
    ∷ append_byte (radix_code f.display_hint)
    ∷ encode_uvarint (pos f.enum_type_id)
    ∷ [])

unfoldable pub decode_field_def : Decoder FieldDef
decode_field_def = do
  fname_id ← decode_uvarint
  ftype_byte ← read_byte
  ftype ← lift (to_field_type ftype_byte)
  dhint_byte ← read_byte
  dhint ← lift (to_radix dhint_byte)
  enum_id ← decode_uvarint
  pure (record {
    name_str_id = fname_id;
    field_type = ftype;
    display_hint = dhint;
    enum_type_id = enum_id;
  })

unfoldable pub encode_txn_schema_body : TxnSchemaEntry → Result Bytes
unfolding encode_field_def
encode_txn_schema_body e = concat (
    encode_uvarint (pos e.txn_type_id)
    ∷ encode_uvarint (pos e.name_str_id)
    ∷ encode_uvarint (pos (length e.fields))
    ∷ concat_map encode_field_def e.fields
    ∷ [])

unfoldable pub encode_txn_schema : TxnSchemaEntry → Result Bytes
unfolding encode_txn_schema_body
encode_txn_schema e = append_byte 0x02 +++ encode_txn_schema_body e

unfoldable pub decode_txn_schema : Decoder TxnSchemaEntry
unfolding decode_field_def
decode_txn_schema = do
  txn_type_id ← decode_uvarint
  name_str_id ← decode_uvarint
  field_count ← decode_uvarint
  fields ← repeat field_count decode_field_def
  pure (record { txn_type_id = txn_type_id; name_str_id = name_str_id; fields = fields })

unfoldable pub encode_enum_value : EnumValue → Result Bytes
encode_enum_value v =
    concat (encode_svarint v.integer_value ∷ encode_uvarint (pos v.label_str_id) ∷ [])

unfoldable pub decode_enum_value : Decoder EnumValue
decode_enum_value = do
  ival ← decode_svarint
  lsid ← decode_uvarint
  pure (record { integer_value = ival; label_str_id = lsid })

unfoldable pub encode_enum_type_body : EnumTypeEntry → Result Bytes
unfolding encode_enum_value
encode_enum_type_body e = concat (
    encode_uvarint (pos e.enum_type_id)
    ∷ encode_uvarint (pos e.name_str_id)
    ∷ encode_uvarint (pos (length e.values))
    ∷ concat_map encode_enum_value e.values
    ∷ [])

unfoldable pub encode_enum_type : EnumTypeEntry → Result Bytes
unfolding encode_enum_type_body
encode_enum_type e = append_byte 0x03 +++ encode_enum_type_body e

unfoldable pub decode_enum_type : Decoder EnumTypeEntry
unfolding decode_enum_value
decode_enum_type = do
  enum_type_id ← decode_uvarint
  name_str_id ← decode_uvarint
  value_count ← decode_uvarint
  values ← repeat value_count decode_enum_value
  pure (record { enum_type_id = enum_type_id; name_str_id = name_str_id; values = values })

-- The numbers that a varint of the format can carry back.
abbrev pub IsUvarint : ℕ → Type 0
IsUvarint n = n < 2 ^ 70

pub record IsSignalType (e : SignalTypeEntry) : Type 0 where
  pub id_fits : IsUvarint e.sig_type_id
  pub width_fits : IsUvarint e.bit_width

pub record IsFieldDef (f : FieldDef) : Type 0 where
  pub name_fits : IsUvarint f.name_str_id
  pub enum_fits : IsUvarint f.enum_type_id

pub record IsTxnSchema (e : TxnSchemaEntry) : Type 0 where
  pub id_fits : IsUvarint e.txn_type_id
  pub name_fits : IsUvarint e.name_str_id
  pub fields_fit : All IsFieldDef e.fields
  pub few : IsUvarint (length e.fields)

pub record IsEnumValue (v : EnumValue) : Type 0 where
  pub value_fits : IsI64 v.integer_value
  pub label_fits : IsUvarint v.label_str_id

pub record IsEnumType (e : EnumTypeEntry) : Type 0 where
  pub id_fits : IsUvarint e.enum_type_id
  pub name_fits : IsUvarint e.name_str_id
  pub values_fit : All IsEnumValue e.values
  pub few : IsUvarint (length e.values)

pub Codes-signal_type :
    (e : SignalTypeEntry) → IsSignalType e → Codes (encode_signal_type_body e) decode_signal_type e
unfolding encode_signal_type_body decode_signal_type
Codes-signal_type e h = Codes-bind _ (Codes-uvarint h.id_fits) (
    Codes-bind _ (Codes-append_byte _ (signal_encoding_code-lt e.encoding)) (
      Codes-bind _ (Codes-uvarint h.width_fits) (
        Codes-bind _ (Codes-append_byte _ (radix_code-lt e.display_radix)) (
          Codes-lift_bind _ (to_signal_encoding-code e.encoding)
            (Codes-lift_bind _ (to_radix-code e.display_radix) (Codes-pure e))))))

Codes-field_def : (f : FieldDef) → IsFieldDef f → Codes (encode_field_def f) decode_field_def f
unfolding encode_field_def decode_field_def
Codes-field_def f h = Codes-bind _ (Codes-uvarint h.name_fits) (
    Codes-bind _ (Codes-append_byte _ (field_type_code-lt f.field_type)) (
      Codes-lift_bind _ (to_field_type-code f.field_type) (
        Codes-bind _ (Codes-append_byte _ (radix_code-lt f.display_hint)) (
          Codes-lift_bind _ (to_radix-code f.display_hint)
            (Codes-bind _ (Codes-uvarint h.enum_fits) (Codes-pure f))))))

pub Codes-txn_schema :
    (e : TxnSchemaEntry) → IsTxnSchema e → Codes (encode_txn_schema_body e) decode_txn_schema e
unfolding encode_txn_schema_body decode_txn_schema
Codes-txn_schema e h = Codes-bind _ (Codes-uvarint h.id_fits) (
    Codes-bind _ (Codes-uvarint h.name_fits) (
      Codes-bind _ (Codes-uvarint h.few) (
        Codes-bind _ (Codes-repeat IsFieldDef _ _ Codes-field_def e.fields h.fields_fit)
          (Codes-pure e))))

Codes-enum_value : (v : EnumValue) → IsEnumValue v → Codes (encode_enum_value v) decode_enum_value v
unfolding encode_enum_value decode_enum_value
Codes-enum_value v h =
    Codes-bind _ (Codes-svarint v.integer_value h.value_fits)
      (Codes-bind _ (Codes-uvarint h.label_fits) (Codes-pure v))

pub Codes-enum_type :
    (e : EnumTypeEntry) → IsEnumType e → Codes (encode_enum_type_body e) decode_enum_type e
unfolding encode_enum_type_body decode_enum_type
Codes-enum_type e h = Codes-bind _ (Codes-uvarint h.id_fits) (
    Codes-bind _ (Codes-uvarint h.name_fits) (
      Codes-bind _ (Codes-uvarint h.few) (
        Codes-bind _ (Codes-repeat IsEnumValue _ _ Codes-enum_value e.values h.values_fit)
          (Codes-pure e))))
