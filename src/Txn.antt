-- ===== src/Txn.antt =====
-- python/src/trlog/_txn_data.py: the records of transactions, and the block that collects them. An
-- id and a time may be negative, since deltas lead to them; the tuple that the writer keeps of a
-- record and the object that the reader makes of it have the same fields.
pub mod Fields
mod Tests
pub mod Row
pub mod Block
pub mod Column
pub mod ColumnReader
use trlog.Prelude.{
  ℕ, zero, suc, ◌+◌, List, [], ◌∷◌, ◌++◌, length, get_or, Option, none, some, Bool, true, false,
  ltb, leb, if◌then◌else◌, ◌==◌,
}
use trlog.Prelude.Int.{ℤ, pos, ltb_ℤ}
use trlog.Prelude.Dict.{Dict, get, put, nat_eq}
use trlog.Wire.{Result, ok, err}
use trlog.Types.{FieldType, u64, LinkType, member}
use trlog.Codec.Value.{FieldVal}

pub data TxnRecordTag : Type 0 where
  full begin attr end link meta : TxnRecordTag

unfoldable pub txn_record_tag_code : TxnRecordTag → ℕ
txn_record_tag_code full = 1
txn_record_tag_code begin = 2
txn_record_tag_code attr = 3
txn_record_tag_code end = 4
txn_record_tag_code link = 5
txn_record_tag_code meta = 6

abbrev txn_record_tag_members : List TxnRecordTag
txn_record_tag_members = full ∷ begin ∷ attr ∷ end ∷ link ∷ meta ∷ []

unfoldable pub to_txn_record_tag : ℕ → Result TxnRecordTag
unfolding member txn_record_tag_code
to_txn_record_tag = member txn_record_tag_code txn_record_tag_members

-- `_field_type` is set by some callers only; an attribute that was read has none.
pub record TxnAttr : Type 0 where
  pub field_idx : ℕ
  pub value : FieldVal
  pub field_type : Option FieldType

pub record TxnFull : Type 0 where
  pub stream_inst_id : ℕ
  pub txn_type_id : ℕ
  pub txn_id : ℤ
  pub start_time : ℤ
  pub end_time : ℤ
  pub parent_txn_id : ℕ
  pub attrs : List TxnAttr

pub record TxnBegin : Type 0 where
  pub stream_inst_id : ℕ
  pub txn_type_id : ℕ
  pub txn_id : ℤ
  pub start_time : ℤ
  pub parent_txn_id : ℕ

pub record TxnAttrRecord : Type 0 where
  pub txn_id : ℤ
  pub attrs : List TxnAttr

pub record TxnEnd : Type 0 where
  pub txn_id : ℤ
  pub end_time : ℤ

pub record TxnLink : Type 0 where
  pub link_type : LinkType
  pub source_txn_id : ℤ
  pub target_txn_id : ℕ
  pub label_str_id : ℕ

pub record TxnMeta : Type 0 where
  pub txn_id : ℤ
  pub key_str_id : ℕ
  pub value_str_id : ℕ

pub data TxnRecord : Type 0 where
  txn_full : TxnFull → TxnRecord
  txn_begin : TxnBegin → TxnRecord
  txn_attr : TxnAttrRecord → TxnRecord
  txn_end : TxnEnd → TxnRecord
  txn_link : TxnLink → TxnRecord
  txn_meta : TxnMeta → TxnRecord

-- The layouts that are named, and any other string, which encode_block takes for "row".
pub data Layout : Type 0 where
  row column auto adaptive other : Layout

abbrev pub Schemas : Type 0
Schemas = Dict ℕ (List FieldType)

pub record TxnDataBlock : Type 0 where
  pub start_time : ℤ
  pub end_time : ℤ
  pub compress : Bool
  pub use_zstd : Bool
  pub delta_encode : Bool
  pub column_layout : Layout
  pub records : List TxnRecord
  pub schemas : Schemas

unfoldable pub txn_data_block : ℤ → Bool → Bool → Layout → TxnDataBlock
txn_data_block start_time compress use_zstd column_layout = record {
  start_time = start_time;
  end_time = start_time;
  compress = compress;
  use_zstd = use_zstd;
  delta_encode = true;
  column_layout = column_layout;
  records = [];
  schemas = [];
}

unfoldable pub set_schema : ℕ → List FieldType → TxnDataBlock → TxnDataBlock
set_schema txn_type_id field_types b = record b { schemas = put b.schemas txn_type_id field_types }

abbrev until : ℤ → TxnDataBlock → ℤ
until end_time b = if ltb_ℤ b.end_time end_time then end_time else b.end_time

unfoldable pub write_full : TxnFull → TxnDataBlock → TxnDataBlock
write_full r b = record b {
  end_time = until r.end_time b;
  records = b.records ++ (txn_full r ∷ []);
}

unfoldable pub write_begin : TxnBegin → TxnDataBlock → TxnDataBlock
write_begin r b = record b { records = b.records ++ (txn_begin r ∷ []) }

unfoldable pub write_attr : TxnAttrRecord → TxnDataBlock → TxnDataBlock
write_attr r b = record b { records = b.records ++ (txn_attr r ∷ []) }

unfoldable pub write_end : TxnEnd → TxnDataBlock → TxnDataBlock
write_end r b = record b { end_time = until r.end_time b; records = b.records ++ (txn_end r ∷ []) }

unfoldable pub write_link : TxnLink → TxnDataBlock → TxnDataBlock
write_link r b = record b { records = b.records ++ (txn_link r ∷ []) }

unfoldable pub write_meta : TxnMeta → TxnDataBlock → TxnDataBlock
write_meta r b = record b { records = b.records ++ (txn_meta r ∷ []) }

abbrev or_no_fields : Option (List FieldType) → List FieldType
or_no_fields none = []
or_no_fields (some fts) = fts

-- `self._schemas.get(txn_type_id, [])`
abbrev pub schema_of : Schemas → ℕ → List FieldType
schema_of schemas txn_type_id = or_no_fields (get schemas txn_type_id)

-- `schema[idx] if idx < len(schema) else FieldType.FT_U64`
abbrev pub field_type_at : List FieldType → ℕ → FieldType
field_type_at schema field_idx = get_or schema field_idx u64
