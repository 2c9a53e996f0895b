-- ===== src/Txn/Block.antt =====
-- python/src/trlog/_txn_data.py: the BLK_TXN_DATA block, with the choice of its layout.
pub mod RoundTrip
use trlog.Prelude.{
  ℕ, List, [], ◌∷◌, length, Option, none, some, Bool, true, false, ltb, if◌then◌else◌, bit_or, not,
  ◌&&◌, ◌||◌,
}
use trlog.Prelude.Int.{ℤ}
use trlog.Prelude.Dict.{get, nat_eq}
use trlog.Wire.{Bytes, Result, ok, bind}
use trlog.Types.{
  FieldType, u8, u16, u32, u64, i8, i16, i32, i64, f32, f64, string, bitvec, bytes, time, enum,
  txn_data,
}
use trlog.Types
use trlog.Compression.{Compression, compress_payload, decompress_payload, has_flag}
use trlog.Block.{make_block}
use trlog.Codec.Value.{Numbers}
use trlog.Txn.{
  TxnRecord, txn_full, txn_begin, txn_attr, txn_end, txn_link, txn_meta, Layout, row, column, auto,
  adaptive, other, Schemas, TxnDataBlock,
}
use trlog.Txn.Row.{encode_payload, decode_payload}
use trlog.Txn.Column.{encode_payload_column}
use trlog.Txn.ColumnReader.{decode_payload_column}

abbrev pub flag_txn_delta : ℕ
flag_txn_delta = 0x04

abbrev pub flag_txn_column : ℕ
flag_txn_column = 0x08

-- `ft in _FIXED_WIDTH_FTS`
abbrev is_fixed_width : FieldType → Bool
is_fixed_width string = false
is_fixed_width bitvec = false
is_fixed_width bytes = false
is_fixed_width _ = true

unfoldable pub all_fixed_width : List FieldType → Bool
all_fixed_width [] = true
all_fixed_width (ft ∷ schema) = is_fixed_width ft && all_fixed_width schema

-- A type without a schema says nothing against columns.
unfoldable pub suits_type : Schemas → ℕ → Bool
unfolding all_fixed_width
suits_type schemas txn_type_id = elim (get schemas txn_type_id) [
  | none ↦ true
  | some schema ↦ all_fixed_width schema
]

unfoldable pub suits_record : Schemas → TxnRecord → Bool
unfolding suits_type
suits_record schemas (txn_full r) = suits_type schemas r.txn_type_id
suits_record schemas (txn_begin r) = suits_type schemas r.txn_type_id
suits_record schemas (txn_attr r) = true
suits_record schemas (txn_end r) = true
suits_record schemas (txn_link r) = true
suits_record schemas (txn_meta r) = true

unfoldable pub suits_records : Schemas → List TxnRecord → Bool
unfolding suits_record
suits_records schemas [] = true
suits_records schemas (r ∷ rs) = suits_record schemas r && suits_records schemas rs

unfoldable pub should_use_column : TxnDataBlock → Bool
unfolding suits_records
should_use_column b = not (ltb (length b.records) 32) && suits_records b.schemas b.records

-- `self._compress_payload(payload)`
abbrev pub compressed : Compression → TxnDataBlock → Bytes → Result Bytes
compressed c b payload = bind (compress_payload c b.use_zstd payload) λ (flags, packed). ok packed

abbrev pub encode_layout : Numbers → TxnDataBlock → Bool → Result (Bool × Bytes)
encode_layout py b use_column =
    bind
      (if use_column
        then encode_payload_column py b.delta_encode b
        else encode_payload py b.delta_encode b)
      λ payload. ok (use_column, payload)

-- "adaptive": both layouts, of which the one that compresses better.
unfoldable pub encode_adaptive : Compression → Numbers → TxnDataBlock → Result (Bool × Bytes)
encode_adaptive c py b = bind (encode_payload py b.delta_encode b) λ row_payload.
    bind (encode_payload_column py b.delta_encode b) λ col_payload.
      bind (compressed c b row_payload) λ row_compressed.
        bind (compressed c b col_payload) λ col_compressed. ok (
          if ltb (length col_compressed) (length row_compressed)
          then (true, col_payload)
          else (false, row_payload))

-- Whether columns are used, and the payload.
unfoldable pub encode_chosen : Compression → Numbers → Layout → TxnDataBlock → Result (Bool × Bytes)
unfolding should_use_column encode_adaptive
encode_chosen c py row b = encode_layout py b false
encode_chosen c py column b = encode_layout py b true
encode_chosen c py auto b = encode_layout py b (should_use_column b)
encode_chosen c py adaptive b = encode_adaptive c py b
encode_chosen c py other b = encode_layout py b false

abbrev pub layout_flags : Bool → Bool → ℕ
layout_flags delta use_column =
    bit_or (if delta then flag_txn_delta else 0) (if use_column then flag_txn_column else 0)

-- The flags and the payload as they are stored.
unfoldable pub packed_payload : Compression → Bool → Bool → ℕ → Bytes → Result (ℕ × Bytes)
packed_payload c compress use_zstd flags payload =
    if compress
    then bind (compress_payload c use_zstd payload) (λ (f, packed). ok (bit_or flags f, packed))
    else ok (flags, payload)

unfoldable pub encode_block : Compression → Numbers → TxnDataBlock → Result Bytes
unfolding encode_chosen packed_payload
encode_block c py b = bind (encode_chosen c py b.column_layout b) λ (use_column, payload).
    bind (packed_payload c b.compress b.use_zstd (layout_flags b.delta_encode use_column) payload)
      λ (flags, packed). make_block txn_data flags packed

unfoldable pub decode_layout :
    Numbers → Bool → Bool → Schemas → Bytes → Result (ℤ × ℤ × List TxnRecord)
decode_layout py delta use_column schemas payload =
    if use_column
    then decode_payload_column py delta schemas payload
    else bind (decode_payload py delta schemas payload) λ (found, rest). ok found

abbrev or_own : Option Schemas → Schemas → Schemas
or_own none own = own
or_own (some schemas) own = schemas

-- `schemas` is None where the caller gives none.
unfoldable pub read_block :
    Compression
    → Numbers
    → ℕ
    → Bytes
    → Option Schemas
    → TxnDataBlock
    → Result (List TxnRecord × TxnDataBlock)
unfolding decode_layout
read_block c py flags packed schemas b = bind (decompress_payload c flags packed) λ payload.
    bind
      (decode_layout py (has_flag flags flag_txn_delta) (has_flag flags flag_txn_column)
        (or_own schemas b.schemas) payload)
      λ (start_time, end_time, rs). ok (
        rs,
        record b {
          start_time = start_time;
          end_time = end_time;
          schemas = or_own schemas b.schemas;
        },
      )
