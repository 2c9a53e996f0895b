-- ===== src/Txn/ColumnReader.antt =====
-- python/src/trlog/_txn_data.py: the reader of the column layout. The cursors stand in the columns:
-- a column is the list of its bytes from the cursor on.
pub mod Cursors
pub mod Parts
pub mod RoundTrip
pub mod Table
pub mod Records
use trlog.Prelude.{
  ℕ, zero, suc, ◌+◌, List, [], ◌∷◌, ◌++◌, Option, none, some, Bool, true, false, ◌==◌,
  if◌then◌else◌,
}
use trlog.Prelude.Int.{ℤ, pos, ◌+ℤ◌}
use trlog.Prelude.Dict.{Dict, get, put, nat_eq}
use trlog.Wire.{Bytes, Result, ok, err, bind, Decoder, read_byte, read_slice, key_error}
use trlog.Wire
use trlog.Types.{FieldType, to_link_type}
use trlog.Codec.{decode_uvarint}
use trlog.Codec.Field.{unpack_unsigned}
use trlog.Codec.Value.{FieldVal, Numbers, decode_value}
use trlog.Txn.{
  TxnAttr, TxnRecord, txn_full, txn_begin, txn_attr, txn_end, txn_link, txn_meta, TxnRecordTag,
  to_txn_record_tag, full, begin, attr, end, link, meta, Schemas, schema_of,
}
use trlog.Txn.Fields.{State, next_decoded, decode_against, decode_attrs_raw}
use trlog.Txn.Row.{at_start}
use trlog.Txn.Column.{
  col_tag, col_stream_inst_id, col_txn_type_id, col_txn_id_delta, col_time_delta, col_duration,
  col_parent, col_link_type, col_link_tgt, col_link_label, col_meta_key, col_meta_val,
  col_attr_data, col_attr_base, or_no_bytes,
}

abbrev pub Reader {ℓ} : Type ℓ → Type ℓ
Reader A = Dict ℕ Bytes → Result (A × Dict ℕ Bytes)

unfoldable pub pure {ℓ} : {A : Type ℓ} → A → Reader A
pure a cols = ok (a, cols)

unfoldable pub lift {ℓ} : {A : Type ℓ} → Result A → Reader A
lift r cols = bind r λ a. ok (a, cols)

module _ {ℓ κ} {A : Type ℓ} {B : Type κ} where
  infixl 5 ◌>>=◌
  unfoldable pub ◌>>=◌ : Reader A → (A → Reader B) → Reader B
  p >>= f = λ cols. bind (p cols) λ (a, rest). f a rest

abbrev or_key_error : Option Bytes → Result Bytes
or_key_error none = err key_error
or_key_error (some bs) = ok bs

-- `val, cur[col] = p(col_data[col], cur[col])`
unfoldable pub read_column {ℓ} : {A : Type ℓ} → ℕ → Decoder A → Reader A
read_column col p cols =
    bind (or_key_error (get cols col)) λ buf. bind (p buf) λ (a, rest). ok (a, put cols col rest)

-- A duration behind its start, in both modes.
unfoldable pub decode_duration : Bool → ℤ → Decoder ℤ
decode_duration true start = Wire.◌>>=◌ decode_uvarint λ d. Wire.pure (start +ℤ pos d)
decode_duration false start = Wire.◌>>=◌ (unpack_unsigned 8) λ d. Wire.pure (start +ℤ d)

-- The bytes of a blob, behind their length.
unfoldable pub read_blob : Decoder Bytes
read_blob = Wire.◌>>=◌ decode_uvarint read_slice

-- What stands behind the attributes in a blob is not looked at.
unfoldable pub parse_blob : Numbers → Bytes → Result (List TxnAttr)
parse_blob py blob = bind (decode_attrs_raw py blob) λ (attrs, rest). ok attrs

module _ (py : Numbers) where
  -- `enumerate(schema)` from `field_idx` on: a field without a column is passed over.
  unfoldable pub read_attrs : ℕ → List FieldType → Reader (List TxnAttr)
  unfolding read_column
  read_attrs field_idx [] = pure []
  read_attrs field_idx (ft ∷ schema) = λ cols.
      let present = (do
        v ← read_column (col_attr_base + field_idx) (decode_value py ft)
        attrs ← read_attrs (suc field_idx) schema
        pure (record { field_idx = field_idx; value = v; field_type = none } ∷ attrs)) in
      elim (get cols (col_attr_base + field_idx)) [
        | none ↦ read_attrs (suc field_idx) schema cols
        | some bs ↦ present cols
      ]

  unfoldable pub read_record : Schemas → Bool → TxnRecordTag → State → Reader TxnRecord
  unfolding read_column read_attrs decode_against decode_duration read_blob parse_blob
  read_record schemas delta full s = do
    stream_inst_id ← read_column col_stream_inst_id decode_uvarint
    txn_type_id ← read_column col_txn_type_id decode_uvarint
    txn_id ← read_column col_txn_id_delta (decode_against delta s.prev_txn_id)
    start ← read_column col_time_delta (decode_against delta s.prev_time)
    end_time ← read_column col_duration (decode_duration delta start)
    parent ← read_column col_parent decode_uvarint
    attrs ← read_attrs 0 (schema_of schemas txn_type_id)
    pure (
        txn_full (record {
          stream_inst_id = stream_inst_id;
          txn_type_id = txn_type_id;
          txn_id = txn_id;
          start_time = start;
          end_time = end_time;
          parent_txn_id = parent;
          attrs = attrs;
        }))
  read_record schemas delta begin s = do
    stream_inst_id ← read_column col_stream_inst_id decode_uvarint
    txn_type_id ← read_column col_txn_type_id decode_uvarint
    txn_id ← read_column col_txn_id_delta (decode_against delta s.prev_txn_id)
    start ← read_column col_time_delta (decode_against delta s.prev_time)
    parent ← read_column col_parent decode_uvarint
    pure (
        txn_begin (record {
          stream_inst_id = stream_inst_id;
          txn_type_id = txn_type_id;
          txn_id = txn_id;
          start_time = start;
          parent_txn_id = parent;
        }))
  read_record schemas delta attr s = do
    txn_id ← read_column col_txn_id_delta (decode_against delta s.prev_txn_id)
    blob ← read_column col_attr_data read_blob
    attrs ← lift (parse_blob py blob)
    pure (txn_attr (record { txn_id = txn_id; attrs = attrs }))
  read_record schemas delta end s = do
    txn_id ← read_column col_txn_id_delta (decode_against delta s.prev_txn_id)
    end_time ← read_column col_time_delta (decode_against delta s.prev_time)
    pure (txn_end (record { txn_id = txn_id; end_time = end_time }))
  read_record schemas delta link s = do
    code ← read_column col_link_type read_byte
    link_type ← lift (to_link_type code)
    src ← read_column col_txn_id_delta (decode_against delta s.prev_txn_id)
    tgt ← read_column col_link_tgt decode_uvarint
    label_id ← read_column col_link_label decode_uvarint
    pure (
        txn_link (record {
          link_type = link_type;
          source_txn_id = src;
          target_txn_id = tgt;
          label_str_id = label_id;
        }))
  read_record schemas delta meta s = do
    txn_id ← read_column col_txn_id_delta (decode_against delta s.prev_txn_id)
    key_str_id ← read_column col_meta_key decode_uvarint
    value_str_id ← read_column col_meta_val decode_uvarint
    pure (
        txn_meta (record { txn_id = txn_id; key_str_id = key_str_id; value_str_id = value_str_id }))

  unfoldable pub read_records : Schemas → Bool → List TxnRecordTag → State → Reader (List TxnRecord)
  unfolding read_record
  read_records schemas delta [] s = pure []
  read_records schemas delta (tag ∷ tags) s = do
    r ← read_record schemas delta tag s
    rs ← read_records schemas delta tags (next_decoded delta r s)
    pure (r ∷ rs)

-- `[TxnRecordTag(b) for b in tags_raw]`
unfoldable pub to_tags : Bytes → Result (List TxnRecordTag)
to_tags [] = ok []
to_tags (b ∷ bs) = bind (to_txn_record_tag b) λ t. bind (to_tags bs) λ ts. ok (t ∷ ts)

unfoldable pub read_table : ℕ → Dict ℕ Bytes → Decoder (Dict ℕ Bytes)
read_table zero cols = Wire.pure cols
read_table (suc n) cols = Wire.◌>>=◌ decode_uvarint λ col.
    Wire.◌>>=◌ decode_uvarint
      λ byte_length. Wire.◌>>=◌ (read_slice byte_length) λ bs. read_table n (put cols col bs)

-- The times of the block, the number of its records, and its columns.
unfoldable pub decode_table : Decoder (ℤ × ℤ × ℕ × Dict ℕ Bytes)
unfolding read_table
decode_table = Wire.◌>>=◌ (unpack_unsigned 8) λ start_time.
    Wire.◌>>=◌ (unpack_unsigned 8) λ end_time. Wire.◌>>=◌ decode_uvarint λ record_count.
      Wire.◌>>=◌ decode_uvarint λ column_count.
        Wire.◌>>=◌ (read_table column_count [])
          λ cols. Wire.pure (start_time, end_time, record_count, cols)

-- The records go by the tags; their count only says whether there are any.
unfoldable pub decode_columns :
    Numbers → Bool → Schemas → ℤ → ℕ → Dict ℕ Bytes → Result (List TxnRecord)
unfolding to_tags read_records
decode_columns py delta schemas start_time record_count cols =
    let records = bind (to_tags (or_no_bytes (get cols col_tag))) λ tags.
      bind (read_records py schemas delta tags (at_start start_time) cols) λ (rs, rest). ok rs in
    if record_count == 0 then ok [] else records

unfoldable pub decode_payload_column :
    Numbers → Bool → Schemas → Bytes → Result (ℤ × ℤ × List TxnRecord)
unfolding decode_table decode_columns
decode_payload_column py delta schemas payload =
    bind (decode_table payload) λ ((start_time, end_time, record_count, cols), rest).
      bind (decode_columns py delta schemas start_time record_count cols)
        λ rs. ok (start_time, end_time, rs)
