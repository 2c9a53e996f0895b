-- ===== src/Txn/Tests.antt =====
-- Runs of the transaction block at concrete inputs.
use trlog.Prelude.{
  ℕ, ◌<◌, ◌^◌, ◌≡◌, refl, sym, ◌∙◌, map, List, [], ◌∷◌, ◌++◌, length, Option, none, some, Bool,
  true, false, arith,
}
use trlog.Prelude.Int.{ℤ, pos}
use trlog.Wire.{Bytes, Result, ok, err, bind, struct_error}
use trlog.Wire.Reads.{All}
use trlog.Types.{FieldType, u8, i64, cause_effect}
use trlog.Types
use trlog.Compression.Samples.{marked, marked-IsSound, zero_floats}
use trlog.Codec.Value.{Numbers, int, bool}
use trlog.Txn.{
  TxnAttr, TxnFull, TxnRecord, txn_full, txn_begin, txn_attr, txn_end, txn_link, txn_meta, row,
  column, TxnDataBlock, Schemas,
}
use trlog.Txn.Row.RoundTrip.{FitsBlock, as_read}
use trlog.Txn.Fields.{encode_attrs_raw}
use trlog.Txn.Fields.RoundTrip.{FitsSchema, FitsType}
use trlog.Txn.Row.{at_start}
use trlog.Txn.ColumnReader.{decode_payload_column}
use trlog.Txn.Column.{encode_payload_column, Pushes, column_table, gather, push_records}
use trlog.Txn.ColumnReader.Parts.{FitsColumn}
use trlog.Txn.ColumnReader.RoundTrip.{ColumnsFit}
use trlog.Txn.ColumnReader.Table.{Short}
use trlog.Txn.Block.{encode_chosen, encode_block}
use trlog.Txn.Block.RoundTrip.{ReadBack, read-encode_block_txn}

abbrev numbers : Numbers
numbers = record {
  floats = zero_floats;
  singles = record { to_single = λ x. ok 0; from_single = λ b. b };
}

abbrev field : ℕ → ℕ → TxnAttr
field i n = record { field_idx = i; value = int (pos n); field_type = none }

abbrev write : ℕ → ℕ → List TxnAttr → TxnRecord
write start end_time attrs = txn_full (record {
  stream_inst_id = 1;
  txn_type_id = 7;
  txn_id = pos 40;
  start_time = pos start;
  end_time = pos end_time;
  parent_txn_id = 0;
  attrs = attrs;
})

abbrev schemas : Schemas
schemas = (7, u8 ∷ u8 ∷ []) ∷ []

abbrev six_records : List TxnRecord
six_records =
    write 100 103 (field 0 5 ∷ field 1 6 ∷ [])
    ∷ txn_begin (record {
      stream_inst_id = 1;
      txn_type_id = 7;
      txn_id = pos 41;
      start_time = pos 102;
      parent_txn_id = 40;
    })
    ∷ txn_attr (record {
      txn_id = pos 41;
      attrs = record { field_idx = 1; value = int (pos 9); field_type = some i64 } ∷ [];
    })
    ∷ txn_end (record { txn_id = pos 41; end_time = pos 110 })
    ∷ txn_link (record {
      link_type = cause_effect;
      source_txn_id = pos 40;
      target_txn_id = 41;
      label_str_id = 3;
    })
    ∷ txn_meta (record { txn_id = pos 40; key_str_id = 2; value_str_id = 4 })
    ∷ []

abbrev in_columns : List TxnRecord → TxnDataBlock
in_columns rs = record {
  start_time = pos 100;
  end_time = pos 110;
  compress = true;
  use_zstd = false;
  delta_encode = true;
  column_layout = column;
  records = rs;
  schemas = schemas;
}

abbrev column_block : Bytes
column_block =
    17 ∷ 13 ∷ 102 ∷ 0 ∷ 0 ∷ 0 ∷ 0 ∷ 0 ∷ 0 ∷ 0 ∷ 120 ∷ 100 ∷ 0 ∷ 0 ∷ 0 ∷ 0 ∷ 0 ∷ 0 ∷ 0 ∷ 110 ∷ 0 ∷ 0
    ∷ 0 ∷ 0 ∷ 0 ∷ 0 ∷ 0 ∷ 6 ∷ 15 ∷ 0 ∷ 6 ∷ 1 ∷ 2 ∷ 3 ∷ 4 ∷ 5 ∷ 6 ∷ 3 ∷ 6 ∷ 80 ∷ 2 ∷ 0 ∷ 0 ∷ 1 ∷ 0
    ∷ 1 ∷ 2 ∷ 1 ∷ 1 ∷ 2 ∷ 2 ∷ 7 ∷ 7 ∷ 4 ∷ 3 ∷ 0 ∷ 1 ∷ 16 ∷ 5 ∷ 1 ∷ 3 ∷ 6 ∷ 2 ∷ 0 ∷ 40 ∷ 7 ∷ 1 ∷ 0
    ∷ 8 ∷ 1 ∷ 41 ∷ 9 ∷ 1 ∷ 3 ∷ 10 ∷ 1 ∷ 2 ∷ 11 ∷ 1 ∷ 4 ∷ 12 ∷ 12 ∷ 11 ∷ 1 ∷ 1 ∷ 7 ∷ 9 ∷ 0 ∷ 0 ∷ 0
    ∷ 0 ∷ 0 ∷ 0 ∷ 0 ∷ 128 ∷ 1 ∷ 1 ∷ 5 ∷ 129 ∷ 1 ∷ 1 ∷ 6 ∷ []

encode-six_records : encode_block marked numbers (in_columns six_records) ≡ ok column_block
unfolding encode_block trlog.Txn.Column.encode_payload_column push_records encode_chosen
    trlog.Txn.Column.column_table trlog.Txn.Column.gather trlog.Txn.Column.filled
    trlog.Txn.Column.attr_columns trlog.Txn.Column.encode_table trlog.Prelude.Dict.sorted
    trlog.Txn.Fields.next_state trlog.Txn.Fields.encode_attrs_raw trlog.Codec.Value.encode_value
    trlog.Codec.Field.encode_field trlog.Codec.encode_uvarint trlog.Codec.encode_svarint
    trlog.Codec.uvarint trlog.Codec.uvarint_loop trlog.Prelude.Int.Bits.◌&ℤ◌
    trlog.Prelude.Int.Bits.◌^ℤ◌ trlog.Prelude.Int.Bits.◌<<◌ trlog.Prelude.Int.Bits.◌>>ℤ◌
    trlog.Prelude.Int.◌-ℤ◌ trlog.Prelude.Dict.get trlog.Prelude.Dict.put
    trlog.Compression.compress_payload trlog.Block.make_block trlog.Wire.append_byte trlog.Wire.pack
    trlog.Wire.le_bytes trlog.Wire.◌+++◌ trlog.Wire.concat_map trlog.Txn.txn_record_tag_code
    trlog.Types.field_type_code trlog.Types.link_type_code trlog.Types.block_type_code
encode-six_records = refl

abbrev six_pushes : Pushes
six_pushes =
    (0, 1 ∷ [])
    ∷ (1, 1 ∷ [])
    ∷ (2, 7 ∷ [])
    ∷ (3, 80 ∷ [])
    ∷ (4, 0 ∷ [])
    ∷ (5, 3 ∷ [])
    ∷ (6, 0 ∷ [])
    ∷ (128, 5 ∷ [])
    ∷ (129, 6 ∷ [])
    ∷ (0, 2 ∷ [])
    ∷ (1, 1 ∷ [])
    ∷ (2, 7 ∷ [])
    ∷ (3, 2 ∷ [])
    ∷ (4, 1 ∷ [])
    ∷ (6, 40 ∷ [])
    ∷ (0, 3 ∷ [])
    ∷ (3, 0 ∷ [])
    ∷ (12, 11 ∷ 1 ∷ 1 ∷ 7 ∷ 9 ∷ 0 ∷ 0 ∷ 0 ∷ 0 ∷ 0 ∷ 0 ∷ 0 ∷ [])
    ∷ (0, 4 ∷ [])
    ∷ (3, 0 ∷ [])
    ∷ (4, 16 ∷ [])
    ∷ (0, 5 ∷ [])
    ∷ (7, 0 ∷ [])
    ∷ (3, 1 ∷ [])
    ∷ (8, 41 ∷ [])
    ∷ (9, 3 ∷ [])
    ∷ (0, 6 ∷ [])
    ∷ (3, 0 ∷ [])
    ∷ (10, 2 ∷ [])
    ∷ (11, 4 ∷ [])
    ∷ []

six_pushed : push_records numbers schemas true six_records (at_start (pos 100)) ≡ ok six_pushes
unfolding push_records trlog.Txn.Fields.next_state trlog.Txn.Fields.encode_attrs_raw
    trlog.Codec.Value.encode_value trlog.Codec.Field.encode_field trlog.Codec.encode_uvarint
    trlog.Codec.encode_svarint trlog.Codec.uvarint trlog.Codec.uvarint_loop
    trlog.Prelude.Int.Bits.◌&ℤ◌ trlog.Prelude.Int.Bits.◌^ℤ◌ trlog.Prelude.Int.Bits.◌<<◌
    trlog.Prelude.Int.Bits.◌>>ℤ◌ trlog.Prelude.Int.◌-ℤ◌ trlog.Prelude.Dict.get
    trlog.Prelude.Dict.put trlog.Compression.compress_payload trlog.Block.make_block
    trlog.Wire.append_byte trlog.Wire.pack trlog.Wire.le_bytes trlog.Wire.◌+++◌
    trlog.Wire.concat_map trlog.Txn.txn_record_tag_code trlog.Types.field_type_code
    trlog.Types.link_type_code trlog.Types.block_type_code
six_pushed = refl

fits_first : FitsSchema numbers (u8 ∷ u8 ∷ []) (field 0 5)
unfolding trlog.Codec.Value.of_field
fits_first = record {
  idx_fits = omega arith;
  value_fits = record { field = pos 5; is_field = omega arith; is_value = refl };
}

fits_second : FitsSchema numbers (u8 ∷ u8 ∷ []) (field 1 6)
unfolding trlog.Codec.Value.of_field
fits_second = record {
  idx_fits = omega arith;
  value_fits = record { field = pos 6; is_field = omega arith; is_value = refl };
}

fits_typed : FitsType numbers (record { field_idx = 1; value = int (pos 9); field_type = some i64 })
unfolding trlog.Codec.Value.of_field
fits_typed = record {
  idx_fits = omega arith;
  value_fits = record { field = pos 9; is_field = omega arith; is_value = refl };
}

six-fit : FitsBlock numbers (in_columns six_records)
unfolding trlog.Prelude.Dict.get
six-fit = record {
  start_fits = omega arith;
  end_fits = omega arith;
  records_fit = (
    (
      omega arith,
      omega arith,
      omega arith,
      omega arith,
      omega arith,
      omega arith,
      omega arith,
      (fits_first, (fits_second, tt)),
      omega arith,
    ),
    (
      (omega arith, omega arith, omega arith, omega arith, omega arith),
      (
        (omega arith, (fits_typed, tt), omega arith),
        (
          (omega arith, omega arith),
          ((omega arith, omega arith, omega arith), ((omega arith, omega arith, omega arith), tt)),
        ),
      ),
    ),
  );
  few = omega arith;
}

six-Short :
    All Short (column_table (gather six_pushes []))
    × (length (column_table (gather six_pushes [])) < 2 ^ 70)
unfolding column_table gather trlog.Txn.Column.filled trlog.Txn.Column.attr_columns
    trlog.Prelude.Dict.sorted trlog.Prelude.Dict.get trlog.Prelude.Dict.put
six-Short = omega arith

abbrev typed_attrs : List TxnAttr
typed_attrs = record { field_idx = 1; value = int (pos 9); field_type = some i64 } ∷ []

abbrev typed_bytes : Bytes
typed_bytes = 1 ∷ 1 ∷ 7 ∷ 9 ∷ 0 ∷ 0 ∷ 0 ∷ 0 ∷ 0 ∷ 0 ∷ 0 ∷ []

encode-typed_attrs : encode_attrs_raw numbers typed_attrs ≡ ok typed_bytes
unfolding encode_attrs_raw trlog.Txn.Fields.next_state trlog.Codec.Value.encode_value
    trlog.Codec.Field.encode_field trlog.Codec.encode_uvarint trlog.Codec.encode_svarint
    trlog.Codec.uvarint trlog.Codec.uvarint_loop trlog.Prelude.Int.Bits.◌&ℤ◌
    trlog.Prelude.Int.Bits.◌^ℤ◌ trlog.Prelude.Int.Bits.◌<<◌ trlog.Prelude.Int.Bits.◌>>ℤ◌
    trlog.Prelude.Int.◌-ℤ◌ trlog.Prelude.Dict.get trlog.Prelude.Dict.put
    trlog.Compression.compress_payload trlog.Block.make_block trlog.Wire.append_byte trlog.Wire.pack
    trlog.Wire.le_bytes trlog.Wire.◌+++◌ trlog.Wire.concat_map trlog.Txn.txn_record_tag_code
    trlog.Types.field_type_code trlog.Types.link_type_code trlog.Types.block_type_code
encode-typed_attrs = refl

attrs_short : (bs : Bytes) → encode_attrs_raw numbers typed_attrs ≡ ok bs → length bs < 2 ^ 70
attrs_short bs e = at_bytes (bytes_same (sym encode-typed_attrs ∙ e))
  where
    bytes_same : {xs ys : Bytes} → ok xs ≡ ok ys → xs ≡ ys
    bytes_same q = cc q

    at_bytes : typed_bytes ≡ bs → length bs < 2 ^ 70
    at_bytes q = rw (← q) (omega arith)

fits_columns : All (FitsColumn numbers schemas) six_records
unfolding trlog.Prelude.Dict.get
fits_columns = ((refl, (refl, tt)), (tt, (attrs_short, (tt, (tt, (tt, tt))))))

-- The appends are what was computed, so their columns are short.
six-ColumnsFit : ColumnsFit numbers true (in_columns six_records)
six-ColumnsFit ps e = at_pushes (pushes_same (sym six_pushed ∙ e))
  where
    pushes_same : {xs ys : Pushes} → ok xs ≡ ok ys → xs ≡ ys
    pushes_same q = cc q

    at_pushes :
        six_pushes ≡ ps
        → All Short (column_table (gather ps [])) × (length (column_table (gather ps [])) < 2 ^ 70)
    at_pushes q = rw (← q) six-Short

read-encode_block_txn_example :
    ReadBack marked numbers
      (in_columns six_records)
      (in_columns [])
      column_block
      (9 ∷ [])
      (pos 100, pos 110, map as_read six_records)
read-encode_block_txn_example =
    read-encode_block_txn marked numbers (in_columns six_records) (in_columns []) (9 ∷ [])
      marked-IsSound six-fit (λ payload chosen. (fits_columns, six-ColumnsFit)) encode-six_records

-- The second record has a field that the first leaves out: the reader takes its value for the
-- first record's, and finds none where the second record's is due.
abbrev left_out : TxnDataBlock
left_out =
    in_columns (write 100 103 (field 1 6 ∷ []) ∷ write 103 104 (field 0 5 ∷ field 1 7 ∷ []) ∷ [])

decode-left_out :
    bind (encode_payload_column numbers true left_out) (decode_payload_column numbers true schemas)
    ≡ err struct_error
unfolding encode_payload_column push_records trlog.Txn.Column.column_table trlog.Txn.Column.gather
    trlog.Txn.Column.filled trlog.Txn.Column.attr_columns trlog.Txn.Column.encode_table
    trlog.Prelude.Dict.sorted trlog.Txn.Fields.next_state trlog.Txn.Fields.next_decoded
    trlog.Txn.Fields.encode_attrs_raw trlog.Codec.Value.encode_value trlog.Codec.Field.encode_field
    trlog.Codec.encode_uvarint trlog.Codec.encode_svarint trlog.Codec.uvarint
    trlog.Codec.uvarint_loop trlog.Prelude.Int.Bits.◌&ℤ◌ trlog.Prelude.Int.Bits.◌^ℤ◌
    trlog.Prelude.Int.Bits.◌<<◌ trlog.Prelude.Int.Bits.◌>>ℤ◌ trlog.Prelude.Int.◌-ℤ◌
    trlog.Prelude.Dict.get trlog.Prelude.Dict.put trlog.Compression.compress_payload
    trlog.Block.make_block trlog.Wire.append_byte trlog.Wire.pack trlog.Wire.le_bytes
    trlog.Wire.◌+++◌ trlog.Wire.concat_map trlog.Txn.txn_record_tag_code trlog.Types.field_type_code
    trlog.Types.link_type_code trlog.Types.block_type_code
    trlog.Txn.ColumnReader.decode_payload_column trlog.Wire.◌>>=◌ trlog.Txn.ColumnReader.◌>>=◌
    trlog.Wire.unpack trlog.Wire.from_le trlog.Codec.decode_uvarint trlog.Codec.decode_uvarint_loop
    trlog.Wire.pure trlog.Wire.read_slice trlog.Txn.ColumnReader.pure
    trlog.Codec.Field.unpack_unsigned trlog.Codec.decode_svarint trlog.Codec.negate_bit
    trlog.Prelude.Int.◌+ℤ◌ trlog.Codec.Value.decode_value trlog.Codec.Field.decode_field
    trlog.Codec.Value.of_field trlog.Txn.to_txn_record_tag
decode-left_out = refl
