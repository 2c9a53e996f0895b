-- ===== src/Txn/Column.antt =====
-- python/src/trlog/_txn_data.py: the column layout of a BLK_TXN_DATA payload. A record says what it
-- appends to which columns; a column that is read is the list of its bytes from the cursor on.
use trlog.Prelude.{
  ℕ, ◌+◌, List, [], ◌∷◌, ◌++◌, length, Option, none, some, Bool, true, false, leb, if◌then◌else◌,
}
use trlog.Prelude.Int.{ℤ, pos, ◌-ℤ◌}
use trlog.Prelude.Dict.{Dict, get, put, nat_eq, sorted}
use trlog.Wire.{Bytes, Result, ok, bind, ◌+++◌, concat, concat_map, append_byte}
use trlog.Types.{FieldType, link_type_code}
use trlog.Codec.{encode_uvarint}
use trlog.Codec.Field.{pack_unsigned}
use trlog.Codec.Value.{Numbers, encode_value}
use trlog.Txn.{
  TxnAttr, TxnRecord, txn_full, txn_begin, txn_attr, txn_end, txn_link, txn_meta,
  txn_record_tag_code, full, begin, attr, end, link, meta, Schemas, schema_of, field_type_at,
  TxnDataBlock,
}
use trlog.Txn.Fields.{State, next_state, encode_against, encode_attrs_raw}
use trlog.Txn.Row.{at_start}

-- TxnColumnId, and the column of the TR_ATTR records.
abbrev pub col_tag : ℕ
col_tag = 0

abbrev pub col_stream_inst_id : ℕ
col_stream_inst_id = 1

abbrev pub col_txn_type_id : ℕ
col_txn_type_id = 2

abbrev pub col_txn_id_delta : ℕ
col_txn_id_delta = 3

abbrev pub col_time_delta : ℕ
col_time_delta = 4

abbrev pub col_duration : ℕ
col_duration = 5

abbrev pub col_parent : ℕ
col_parent = 6

abbrev pub col_link_type : ℕ
col_link_type = 7

abbrev pub col_link_tgt : ℕ
col_link_tgt = 8

abbrev pub col_link_label : ℕ
col_link_label = 9

abbrev pub col_meta_key : ℕ
col_meta_key = 10

abbrev pub col_meta_val : ℕ
col_meta_val = 11

abbrev pub col_attr_data : ℕ
col_attr_data = 12

abbrev pub col_attr_base : ℕ
col_attr_base = 0x80

-- What is appended, in order: `col += bytes`.
abbrev pub Pushes : Type 0
Pushes = List (ℕ × Bytes)

unfoldable pub push : ℕ → Result Bytes → Result Pushes → Result Pushes
push col r more = bind r λ bs. bind more λ ps. ok ((col, bs) ∷ ps)

abbrev pub no_push : Result Pushes
no_push = ok []

-- The duration: unlike the end in the row layout, also without `delta`.
unfoldable pub encode_duration : Bool → ℤ → ℤ → Result Bytes
encode_duration true start end_time = encode_uvarint (end_time -ℤ start)
encode_duration false start end_time = pack_unsigned 8 (end_time -ℤ start)

unfoldable pub encode_blob : Numbers → List TxnAttr → Result Bytes
encode_blob py attrs =
    bind (encode_attrs_raw py attrs) λ blob. encode_uvarint (pos (length blob)) +++ ok blob

module _ (py : Numbers) where
  unfoldable pub push_attrs : List FieldType → List TxnAttr → Result Pushes
  unfolding push
  push_attrs schema [] = no_push
  push_attrs schema (a ∷ attrs) =
      push (col_attr_base + a.field_idx)
        (encode_value py (field_type_at schema a.field_idx) a.value) (push_attrs schema attrs)

  unfoldable pub push_record : Schemas → Bool → TxnRecord → State → Result Pushes
  unfolding push push_attrs encode_against encode_duration encode_blob
  push_record schemas delta (txn_full r) s = push col_tag (append_byte (txn_record_tag_code full)) (
      push col_stream_inst_id (encode_uvarint (pos r.stream_inst_id)) (
        push col_txn_type_id (encode_uvarint (pos r.txn_type_id)) (
          push col_txn_id_delta (encode_against delta s.prev_txn_id r.txn_id) (
            push col_time_delta (encode_against delta s.prev_time r.start_time) (
              push col_duration (encode_duration delta r.start_time r.end_time) (
                push col_parent (encode_uvarint (pos r.parent_txn_id))
                  (push_attrs (schema_of schemas r.txn_type_id) r.attrs)))))))
  push_record schemas delta (txn_begin r) s =
      push col_tag (append_byte (txn_record_tag_code begin)) (
        push col_stream_inst_id (encode_uvarint (pos r.stream_inst_id)) (
          push col_txn_type_id (encode_uvarint (pos r.txn_type_id)) (
            push col_txn_id_delta (encode_against delta s.prev_txn_id r.txn_id) (
              push col_time_delta (encode_against delta s.prev_time r.start_time)
                (push col_parent (encode_uvarint (pos r.parent_txn_id)) no_push)))))
  push_record schemas delta (txn_attr r) s = push col_tag (append_byte (txn_record_tag_code attr)) (
      push col_txn_id_delta (encode_against delta s.prev_txn_id r.txn_id)
        (push col_attr_data (encode_blob py r.attrs) no_push))
  push_record schemas delta (txn_end r) s = push col_tag (append_byte (txn_record_tag_code end)) (
      push col_txn_id_delta (encode_against delta s.prev_txn_id r.txn_id)
        (push col_time_delta (encode_against delta s.prev_time r.end_time) no_push))
  push_record schemas delta (txn_link r) s = push col_tag (append_byte (txn_record_tag_code link)) (
      push col_link_type (append_byte (link_type_code r.link_type)) (
        push col_txn_id_delta (encode_against delta s.prev_txn_id r.source_txn_id) (
          push col_link_tgt (encode_uvarint (pos r.target_txn_id))
            (push col_link_label (encode_uvarint (pos r.label_str_id)) no_push))))
  push_record schemas delta (txn_meta r) s = push col_tag (append_byte (txn_record_tag_code meta)) (
      push col_txn_id_delta (encode_against delta s.prev_txn_id r.txn_id) (
        push col_meta_key (encode_uvarint (pos r.key_str_id))
          (push col_meta_val (encode_uvarint (pos r.value_str_id)) no_push)))

  unfoldable pub push_records : Schemas → Bool → List TxnRecord → State → Result Pushes
  unfolding push_record
  push_records schemas delta [] s = no_push
  push_records schemas delta (r ∷ rs) s =
      bind (push_record schemas delta r s)
        λ ps. bind (push_records schemas delta rs (next_state delta r s)) λ more. ok (ps ++ more)

abbrev pub or_no_bytes : Option Bytes → Bytes
or_no_bytes none = []
or_no_bytes (some bs) = bs

-- The columns after the appends.
unfoldable pub gather : Pushes → Dict ℕ Bytes → Dict ℕ Bytes
gather [] cols = cols
gather ((col, bs) ∷ ps) cols = gather ps (put cols col (or_no_bytes (get cols col) ++ bs))

-- The order of the columns that have a name; those of the attributes come behind them by number.
abbrev pub named_columns : List ℕ
named_columns =
    col_txn_id_delta ∷ col_stream_inst_id ∷ col_txn_type_id ∷ col_time_delta ∷ col_duration
    ∷ col_parent ∷ col_link_type ∷ col_link_tgt ∷ col_link_label ∷ col_meta_key ∷ col_meta_val
    ∷ col_attr_data ∷ []

-- `if col: columns.append((id, col))`
abbrev pub if_filled : ℕ → Bytes → Pushes → Pushes
if_filled col [] rest = rest
if_filled col (b ∷ bs) rest = (col, b ∷ bs) ∷ rest

unfoldable pub filled : Dict ℕ Bytes → List ℕ → Pushes → Pushes
filled cols [] rest = rest
filled cols (col ∷ more) rest = if_filled col (or_no_bytes (get cols col)) (filled cols more rest)

unfoldable pub attr_columns : Dict ℕ Bytes → Pushes
attr_columns [] = []
attr_columns ((col, bs) ∷ cols) =
    let rest = attr_columns cols in if leb col_attr_base col then (col, bs) ∷ rest else rest

unfoldable pub column_table : Dict ℕ Bytes → Pushes
column_table cols =
    (col_tag, or_no_bytes (get cols col_tag))
    ∷ filled cols named_columns (sorted (attr_columns cols))

unfoldable pub encode_column : ℕ × Bytes → Result Bytes
encode_column (col, bs) = encode_uvarint (pos col) +++ encode_uvarint (pos (length bs)) +++ ok bs

unfoldable pub encode_table : TxnDataBlock → Pushes → Result Bytes
unfolding encode_column
encode_table b table = concat (
    pack_unsigned 8 b.start_time
    ∷ pack_unsigned 8 b.end_time
    ∷ encode_uvarint (pos (length b.records))
    ∷ encode_uvarint (pos (length table))
    ∷ concat_map encode_column table
    ∷ [])

unfoldable pub encode_payload_column : Numbers → Bool → TxnDataBlock → Result Bytes
encode_payload_column py delta b =
    bind (push_records py b.schemas delta b.records (at_start b.start_time))
      λ ps. encode_table b (column_table (gather ps []))
