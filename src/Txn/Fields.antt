-- ===== src/Txn/Fields.antt =====
-- python/src/trlog/_txn_data.py: the parts of a record. Under `delta` an id or a time is the
-- difference to that of the record before.
pub mod RoundTrip
use trlog.Prelude.{
  ℕ, zero, suc, List, [], ◌∷◌, ◌++◌, length, Option, none, some, Bool, true, false, if◌then◌else◌,
}
use trlog.Prelude.Int.{ℤ, pos, ◌+ℤ◌, ◌-ℤ◌}
use trlog.Wire.{
  Bytes, Result, ok, err, bind, ◌+++◌, concat, concat_map, Decoder, ◌>>=◌, pure, lift, repeat,
  append_byte, read_byte, pack, unpack,
}
use trlog.Types.{
  FieldType, u64, field_type_code, to_field_type, LinkType, link_type_code, to_link_type,
}
use trlog.Codec.{encode_uvarint, decode_uvarint, encode_svarint, decode_svarint}
use trlog.Codec.Field.{pack_unsigned, unpack_unsigned}
use trlog.Codec.Value.{FieldVal, Numbers, encode_value, decode_value}
use trlog.Txn.{
  TxnAttr, TxnFull, TxnBegin, TxnAttrRecord, TxnEnd, TxnLink, TxnMeta, TxnRecord, txn_full,
  txn_begin, txn_attr, txn_end, txn_link, txn_meta, TxnRecordTag, txn_record_tag_code,
  to_txn_record_tag, full, begin, attr, end, link, meta, Schemas, schema_of, field_type_at,
  TxnDataBlock,
}

-- `prev_txn_id` and `prev_time`
pub record State : Type 0 where
  pub prev_txn_id : ℤ
  pub prev_time : ℤ

unfoldable pub advance_state : TxnRecord → State → State
advance_state (txn_full r) s = record { prev_txn_id = r.txn_id; prev_time = r.end_time }
advance_state (txn_begin r) s = record { prev_txn_id = r.txn_id; prev_time = r.start_time }
advance_state (txn_attr r) s = record { prev_txn_id = r.txn_id; prev_time = s.prev_time }
advance_state (txn_end r) s = record { prev_txn_id = r.txn_id; prev_time = r.end_time }
advance_state (txn_link r) s = record { prev_txn_id = r.source_txn_id; prev_time = s.prev_time }
advance_state (txn_meta r) s = record { prev_txn_id = r.txn_id; prev_time = s.prev_time }

-- The state moves under `delta` only.
unfoldable pub next_state : Bool → TxnRecord → State → State
unfolding advance_state
next_state delta r s = if delta then advance_state r s else s

-- The reader's state, after a record that it has made.
unfoldable pub advance_decoded_state : TxnRecord → State → State
advance_decoded_state (txn_full r) s = record { prev_txn_id = r.txn_id; prev_time = r.end_time }
advance_decoded_state (txn_begin r) s = record { prev_txn_id = r.txn_id; prev_time = r.start_time }
advance_decoded_state (txn_attr r) s = record { prev_txn_id = r.txn_id; prev_time = s.prev_time }
advance_decoded_state (txn_end r) s = record { prev_txn_id = r.txn_id; prev_time = r.end_time }
advance_decoded_state (txn_link r) s = record {
  prev_txn_id = r.source_txn_id;
  prev_time = s.prev_time;
}
advance_decoded_state (txn_meta r) s = record { prev_txn_id = r.txn_id; prev_time = s.prev_time }

unfoldable pub next_decoded : Bool → TxnRecord → State → State
unfolding advance_decoded_state
next_decoded delta r s = if delta then advance_decoded_state r s else s

-- A number against the one before: a svarint of the difference, or a field of eight bytes.
unfoldable pub encode_against : Bool → ℤ → ℤ → Result Bytes
encode_against true prev n = encode_svarint (n -ℤ prev)
encode_against false prev n = pack_unsigned 8 n

unfoldable pub decode_against : Bool → ℤ → Decoder ℤ
decode_against true prev = do d ← decode_svarint; pure (prev +ℤ d)
decode_against false prev = unpack_unsigned 8

-- A duration behind its start; without `delta` the end itself.
unfoldable pub encode_end : Bool → ℤ → ℤ → Result Bytes
encode_end true start end_time = encode_uvarint (end_time -ℤ start)
encode_end false start end_time = pack_unsigned 8 end_time

unfoldable pub decode_end : Bool → ℤ → Decoder ℤ
decode_end true start = do duration ← decode_uvarint; pure (start +ℤ pos duration)
decode_end false start = unpack_unsigned 8

-- The parent, and the target of a link: never a difference.
unfoldable pub encode_id : Bool → ℕ → Result Bytes
encode_id true n = encode_uvarint (pos n)
encode_id false n = pack 8 n

unfoldable pub decode_id : Bool → Decoder ℕ
decode_id true = decode_uvarint
decode_id false = unpack 8

abbrev or_u64 : Option FieldType → FieldType
or_u64 none = u64
or_u64 (some ft) = ft

module _ (py : Numbers) where
  -- An attribute whose type the schema gives.
  unfoldable pub encode_attr : List FieldType → TxnAttr → Result Bytes
  encode_attr schema a =
      encode_uvarint (pos a.field_idx)
      +++ encode_value py (field_type_at schema a.field_idx) a.value

  unfoldable pub decode_attr : List FieldType → Decoder TxnAttr
  decode_attr schema = do
    field_idx ← decode_uvarint
    value ← decode_value py (field_type_at schema field_idx)
    pure (record { field_idx = field_idx; value = value; field_type = none })

  unfoldable pub encode_attrs : List FieldType → List TxnAttr → Result Bytes
  unfolding encode_attr
  encode_attrs schema attrs =
      encode_uvarint (pos (length attrs)) +++ concat_map (encode_attr schema) attrs

  unfoldable pub decode_attrs : List FieldType → Decoder (List TxnAttr)
  unfolding decode_attr
  decode_attrs schema = do count ← decode_uvarint; repeat count (decode_attr schema)

  -- An attribute with its type in front, in a TR_ATTR record.
  unfoldable pub encode_attr_raw : TxnAttr → Result Bytes
  encode_attr_raw a =
      encode_uvarint (pos a.field_idx)
      +++ append_byte (field_type_code (or_u64 a.field_type))
      +++ encode_value py (or_u64 a.field_type) a.value

  unfoldable pub decode_attr_raw : Decoder TxnAttr
  decode_attr_raw = do
    field_idx ← decode_uvarint
    code ← read_byte
    ft ← lift (to_field_type code)
    value ← decode_value py ft
    pure (record { field_idx = field_idx; value = value; field_type = none })

  unfoldable pub encode_attrs_raw : List TxnAttr → Result Bytes
  unfolding encode_attr_raw
  encode_attrs_raw attrs = encode_uvarint (pos (length attrs)) +++ concat_map encode_attr_raw attrs

  unfoldable pub decode_attrs_raw : Decoder (List TxnAttr)
  unfolding decode_attr_raw
  decode_attrs_raw = do count ← decode_uvarint; repeat count decode_attr_raw
