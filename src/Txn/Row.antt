-- ===== src/Txn/Row.antt =====
-- python/src/trlog/_txn_data.py: the row layout of a BLK_TXN_DATA payload.
pub mod RoundTrip
use trlog.Prelude.{
  ℕ, zero, suc, List, [], ◌∷◌, ◌++◌, length, Option, none, some, Bool, true, false, if◌then◌else◌,
}
use trlog.Prelude.Int.{ℤ, pos, ◌+ℤ◌, ◌-ℤ◌}
use trlog.Wire.{
  Bytes, Result, ok, err, bind, ◌+++◌, concat, concat_map, Decoder, ◌>>=◌, pure, lift, repeat,
  append_byte, read_byte, pack, unpack,
}
use trlog.Types.{
  FieldType, u64, field_type_code, to_field_type, LinkType, link_type_code, to_link_type,
}
use trlog.Codec.{encode_uvarint, decode_uvarint, encode_svarint, decode_svarint}
use trlog.Codec.Field.{pack_unsigned, unpack_unsigned}
use trlog.Codec.Value.{FieldVal, Numbers, encode_value, decode_value}
use trlog.Txn.{
  TxnAttr, TxnFull, TxnBegin, TxnAttrRecord, TxnEnd, TxnLink, TxnMeta, TxnRecord, txn_full,
  txn_begin, txn_attr, txn_end, txn_link, txn_meta, TxnRecordTag, txn_record_tag_code,
  to_txn_record_tag, full, begin, attr, end, link, meta, Schemas, schema_of, field_type_at,
  TxnDataBlock,
}
use trlog.Txn.Fields.{
  State, next_state, next_decoded, encode_against, decode_against, encode_end, decode_end,
  encode_id, decode_id, encode_attrs, decode_attrs, encode_attrs_raw, decode_attrs_raw,
}

abbrev append_tag : TxnRecordTag → Result Bytes
append_tag t = append_byte (txn_record_tag_code t)

module _ (py : Numbers) (schemas : Schemas) (delta : Bool) where
  unfoldable pub encode_body : TxnRecord → State → Result Bytes
  unfolding encode_against encode_end encode_id encode_attrs encode_attrs_raw
  encode_body (txn_full r) s = concat (
      encode_uvarint (pos r.stream_inst_id)
      ∷ encode_uvarint (pos r.txn_type_id)
      ∷ encode_against delta s.prev_txn_id r.txn_id
      ∷ encode_against delta s.prev_time r.start_time
      ∷ encode_end delta r.start_time r.end_time
      ∷ encode_id delta r.parent_txn_id
      ∷ encode_attrs py (schema_of schemas r.txn_type_id) r.attrs
      ∷ [])
  encode_body (txn_begin r) s = concat (
      encode_uvarint (pos r.stream_inst_id)
      ∷ encode_uvarint (pos r.txn_type_id)
      ∷ encode_against delta s.prev_txn_id r.txn_id
      ∷ encode_against delta s.prev_time r.start_time
      ∷ encode_id delta r.parent_txn_id
      ∷ [])
  encode_body (txn_attr r) s =
      encode_against delta s.prev_txn_id r.txn_id +++ encode_attrs_raw py r.attrs
  encode_body (txn_end r) s =
      encode_against delta s.prev_txn_id r.txn_id +++ encode_against delta s.prev_time r.end_time
  encode_body (txn_link r) s = concat (
      append_byte (link_type_code r.link_type)
      ∷ encode_against delta s.prev_txn_id r.source_txn_id
      ∷ encode_id delta r.target_txn_id
      ∷ encode_uvarint (pos r.label_str_id)
      ∷ [])
  encode_body (txn_meta r) s = concat (
      encode_against delta s.prev_txn_id r.txn_id
      ∷ encode_uvarint (pos r.key_str_id)
      ∷ encode_uvarint (pos r.value_str_id)
      ∷ [])

  unfoldable pub decode_body : TxnRecordTag → State → Decoder TxnRecord
  unfolding decode_against decode_end decode_id decode_attrs decode_attrs_raw
  decode_body full s = do
    stream_inst_id ← decode_uvarint
    txn_type_id ← decode_uvarint
    txn_id ← decode_against delta s.prev_txn_id
    start ← decode_against delta s.prev_time
    end_time ← decode_end delta start
    parent ← decode_id delta
    attrs ← decode_attrs py (schema_of schemas txn_type_id)
    pure (
        txn_full (record {
          stream_inst_id = stream_inst_id;
          txn_type_id = txn_type_id;
          txn_id = txn_id;
          start_time = start;
          end_time = end_time;
          parent_txn_id = parent;
          attrs = attrs;
        }))
  decode_body begin s = do
    stream_inst_id ← decode_uvarint
    txn_type_id ← decode_uvarint
    txn_id ← decode_against delta s.prev_txn_id
    start ← decode_against delta s.prev_time
    parent ← decode_id delta
    pure (
        txn_begin (record {
          stream_inst_id = stream_inst_id;
          txn_type_id = txn_type_id;
          txn_id = txn_id;
          start_time = start;
          parent_txn_id = parent;
        }))
  decode_body attr s = do
    txn_id ← decode_against delta s.prev_txn_id
    attrs ← decode_attrs_raw py
    pure (txn_attr (record { txn_id = txn_id; attrs = attrs }))
  decode_body end s = do
    txn_id ← decode_against delta s.prev_txn_id
    end_time ← decode_against delta s.prev_time
    pure (txn_end (record { txn_id = txn_id; end_time = end_time }))
  decode_body link s = do
    code ← read_byte
    link_type ← lift (to_link_type code)
    src ← decode_against delta s.prev_txn_id
    tgt ← decode_id delta
    label_id ← decode_uvarint
    pure (
        txn_link (record {
          link_type = link_type;
          source_txn_id = src;
          target_txn_id = tgt;
          label_str_id = label_id;
        }))
  decode_body meta s = do
    txn_id ← decode_against delta s.prev_txn_id
    key_str_id ← decode_uvarint
    value_str_id ← decode_uvarint
    pure (
        txn_meta (record { txn_id = txn_id; key_str_id = key_str_id; value_str_id = value_str_id }))

  unfoldable pub encode_record : TxnRecord → State → Result Bytes
  unfolding encode_body
  encode_record (txn_full r) s = append_tag full +++ encode_body (txn_full r) s
  encode_record (txn_begin r) s = append_tag begin +++ encode_body (txn_begin r) s
  encode_record (txn_attr r) s = append_tag attr +++ encode_body (txn_attr r) s
  encode_record (txn_end r) s = append_tag end +++ encode_body (txn_end r) s
  encode_record (txn_link r) s = append_tag link +++ encode_body (txn_link r) s
  encode_record (txn_meta r) s = append_tag meta +++ encode_body (txn_meta r) s

  -- A byte that is no tag is passed over.
  unfoldable pub decode_known : Result TxnRecordTag → State → Decoder (Option TxnRecord)
  unfolding decode_body
  decode_known (ok tag) s = do r ← decode_body tag s; pure (some r)
  decode_known (err e) s = pure none

  unfoldable pub decode_record : State → Decoder (Option TxnRecord)
  unfolding decode_known
  decode_record s = do tag_byte ← read_byte; decode_known (to_txn_record_tag tag_byte) s

  unfoldable pub encode_records : List TxnRecord → State → Result Bytes
  unfolding encode_record
  encode_records [] s = ok []
  encode_records (r ∷ rs) s = encode_record r s +++ encode_records rs (next_state delta r s)

  abbrev pub after : Option TxnRecord → State → State
  after none s = s
  after (some r) s = next_decoded delta r s

  abbrev pub with_record : Option TxnRecord → List TxnRecord → List TxnRecord
  with_record none rs = rs
  with_record (some r) rs = r ∷ rs

  unfoldable pub decode_records : ℕ → State → Decoder (List TxnRecord)
  unfolding decode_record
  decode_records zero s = pure []
  decode_records (suc count) s = do
    rec ← decode_record s
    rs ← decode_records count (after rec s)
    pure (with_record rec rs)

abbrev pub at_start : ℤ → State
at_start start_time = record { prev_txn_id = pos 0; prev_time = start_time }

unfoldable pub encode_payload : Numbers → Bool → TxnDataBlock → Result Bytes
unfolding encode_records
encode_payload py delta b = concat (
    pack_unsigned 8 b.start_time
    ∷ pack_unsigned 8 b.end_time
    ∷ encode_uvarint (pos (length b.records))
    ∷ encode_records py b.schemas delta b.records (at_start b.start_time)
    ∷ [])

-- The times of the block, and its records.
unfoldable pub decode_payload : Numbers → Bool → Schemas → Decoder (ℤ × ℤ × List TxnRecord)
unfolding decode_records
decode_payload py delta schemas = do
  start_time ← unpack_unsigned 8
  end_time ← unpack_unsigned 8
  count ← decode_uvarint
  rs ← decode_records py schemas delta count (at_start start_time)
  pure (start_time, end_time, rs)
