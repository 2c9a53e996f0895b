-- ===== src/Txn/ColumnReader/Records.antt =====
-- python/src/trlog/_txn_data.py: the records that were appended to the columns are read from them.
use trlog.Prelude.{refl, List, [], ◌∷◌, append-nil, map, Bool, arith}
use trlog.Prelude.Dict.{nat_eq}
use trlog.Wire.{append_byte}
use trlog.Wire.Reads.{Codes-append_byte, All}
use trlog.Types.{link_type_code}
use trlog.Types.Codes.{to_link_type-code, link_type_code-lt}
use trlog.Codec.Uvarint.{Codes-uvarint}
use trlog.Codec.Value.{Numbers}
use trlog.Txn.{
  TxnFull, TxnBegin, TxnAttrRecord, TxnEnd, TxnLink, TxnMeta, TxnRecord, txn_full, txn_begin,
  txn_attr, txn_end, txn_link, txn_meta, TxnRecordTag, txn_record_tag_code, full, begin, attr, end,
  link, meta, Schemas, schema_of,
}
use trlog.Txn.Fields.{State, next_state}
use trlog.Txn.Fields.RoundTrip.{Codes-against, Codes-attrs_raw}
use trlog.Txn.Row.RoundTrip.{as_read, IsRecord, IsState, kept-IsState, next-as_read}
use trlog.Txn.Column.{push_record, push_records}
use trlog.Txn.ColumnReader.{parse_blob, read_record, read_records}
use trlog.Txn.ColumnReader.Cursors.{
  ColumnCodes, ColumnCodes-pure, ColumnCodes-tag, ColumnCodes-push, ColumnCodes-bind,
  ColumnCodes-map, ColumnCodes-lift,
}
use trlog.Txn.ColumnReader.Parts.{
  no_uvarint, no_byte, no_against, no_duration, no_blob, Codes-duration, FitsColumn,
  ColumnCodes-attrs, Codes-blob,
}

abbrev pub tag_of : TxnRecord → TxnRecordTag
tag_of (txn_full r) = full
tag_of (txn_begin r) = begin
tag_of (txn_attr r) = attr
tag_of (txn_end r) = end
tag_of (txn_link r) = link
tag_of (txn_meta r) = meta

module _ (py : Numbers) (schemas : Schemas) (delta : Bool) where
  full_columns :
      (r : TxnFull) (s : State)
      → IsRecord py schemas (txn_full r)
      → FitsColumn py schemas (txn_full r)
      → IsState s
      → ColumnCodes
          (push_record py schemas delta (txn_full r) s)
          (read_record py schemas delta full s)
          (as_read (txn_full r))
          (1 ∷ [])
  unfolding push_record read_record as_read append_byte txn_record_tag_code
  full_columns r s (hi, ht, hid, hst, he, hle, hp, ha, few) hc hs = ColumnCodes-tag 1 refl (
      ColumnCodes-push _ 1 (omega arith) (omega arith) no_uvarint (Codes-uvarint hi) (
        ColumnCodes-push _ 2 (omega arith) (omega arith) no_uvarint (Codes-uvarint ht) (
          ColumnCodes-push _ 3 (omega arith) (omega arith) (no_against delta s.prev_txn_id)
            (Codes-against delta s.prev_txn_id r.txn_id hs.0 hid)
            (ColumnCodes-push _ 4 (omega arith) (omega arith) (no_against delta s.prev_time)
              (Codes-against delta s.prev_time r.start_time hs.1 hst)
              (ColumnCodes-push _ 5 (omega arith) (omega arith) (no_duration delta r.start_time)
                (Codes-duration delta r.start_time r.end_time hst he hle)
                (ColumnCodes-push _ 6 (omega arith) (omega arith) no_uvarint
                  (Codes-uvarint (omega arith))
                  (ColumnCodes-map _
                    (ColumnCodes-attrs py [] (schema_of schemas r.txn_type_id) r.attrs hc ha))))))))

  begin_columns :
      (r : TxnBegin) (s : State)
      → IsRecord py schemas (txn_begin r)
      → IsState s
      → ColumnCodes
          (push_record py schemas delta (txn_begin r) s)
          (read_record py schemas delta begin s)
          (txn_begin r)
          (2 ∷ [])
  unfolding push_record read_record append_byte txn_record_tag_code
  begin_columns r s (hi, ht, hid, hst, hp) hs = ColumnCodes-tag 2 refl (
      ColumnCodes-push _ 1 (omega arith) (omega arith) no_uvarint (Codes-uvarint hi) (
        ColumnCodes-push _ 2 (omega arith) (omega arith) no_uvarint (Codes-uvarint ht) (
          ColumnCodes-push _ 3 (omega arith) (omega arith) (no_against delta s.prev_txn_id)
            (Codes-against delta s.prev_txn_id r.txn_id hs.0 hid)
            (ColumnCodes-push _ 4 (omega arith) (omega arith) (no_against delta s.prev_time)
              (Codes-against delta s.prev_time r.start_time hs.1 hst)
              (ColumnCodes-push _ 6 (omega arith) (omega arith) no_uvarint
                (Codes-uvarint (omega arith)) (ColumnCodes-pure _))))))

  attr_columns :
      (r : TxnAttrRecord) (s : State)
      → IsRecord py schemas (txn_attr r)
      → FitsColumn py schemas (txn_attr r)
      → IsState s
      → ColumnCodes
          (push_record py schemas delta (txn_attr r) s)
          (read_record py schemas delta attr s)
          (as_read (txn_attr r))
          (3 ∷ [])
  unfolding push_record read_record as_read append_byte txn_record_tag_code parse_blob
  attr_columns r s (hid, ha, few) hc hs =
      let blob = Codes-attrs_raw py r.attrs ha few in
      let whole = rw append-nil at (blob.decoded []) in
      ColumnCodes-tag 3 refl (
        ColumnCodes-push _ 3 (omega arith) (omega arith) (no_against delta s.prev_txn_id)
          (Codes-against delta s.prev_txn_id r.txn_id hs.0 hid)
          (ColumnCodes-push _ 12 (omega arith) (omega arith) no_blob
            (Codes-blob py r.attrs blob.encoded (hc blob.bytes blob.encoded))
            (ColumnCodes-lift _ (rw whole refl) (ColumnCodes-pure _))))

  end_columns :
      (r : TxnEnd) (s : State)
      → IsRecord py schemas (txn_end r)
      → IsState s
      → ColumnCodes
          (push_record py schemas delta (txn_end r) s)
          (read_record py schemas delta end s)
          (txn_end r)
          (4 ∷ [])
  unfolding push_record read_record append_byte txn_record_tag_code
  end_columns r s (hid, he) hs = ColumnCodes-tag 4 refl (
      ColumnCodes-push _ 3 (omega arith) (omega arith) (no_against delta s.prev_txn_id)
        (Codes-against delta s.prev_txn_id r.txn_id hs.0 hid)
        (ColumnCodes-push _ 4 (omega arith) (omega arith) (no_against delta s.prev_time)
          (Codes-against delta s.prev_time r.end_time hs.1 he) (ColumnCodes-pure _)))

  link_columns :
      (r : TxnLink) (s : State)
      → IsRecord py schemas (txn_link r)
      → IsState s
      → ColumnCodes
          (push_record py schemas delta (txn_link r) s)
          (read_record py schemas delta link s)
          (txn_link r)
          (5 ∷ [])
  unfolding push_record read_record txn_record_tag_code
  link_columns r s (hid, ht, hl) hs = ColumnCodes-tag 5 (unfold append_byte in refl) (
      ColumnCodes-push _ 7 (omega arith) (omega arith) no_byte
        (Codes-append_byte (link_type_code r.link_type) (link_type_code-lt r.link_type))
        (ColumnCodes-lift _ (to_link_type-code r.link_type) (
          ColumnCodes-push _ 3 (omega arith) (omega arith) (no_against delta s.prev_txn_id)
            (Codes-against delta s.prev_txn_id r.source_txn_id hs.0 hid)
            (ColumnCodes-push _ 8 (omega arith) (omega arith) no_uvarint
              (Codes-uvarint (omega arith))
              (ColumnCodes-push _ 9 (omega arith) (omega arith) no_uvarint (Codes-uvarint hl)
                (ColumnCodes-pure _))))))

  meta_columns :
      (r : TxnMeta) (s : State)
      → IsRecord py schemas (txn_meta r)
      → IsState s
      → ColumnCodes
          (push_record py schemas delta (txn_meta r) s)
          (read_record py schemas delta meta s)
          (txn_meta r)
          (6 ∷ [])
  unfolding push_record read_record append_byte txn_record_tag_code
  meta_columns r s (hid, hk, hv) hs = ColumnCodes-tag 6 refl (
      ColumnCodes-push _ 3 (omega arith) (omega arith) (no_against delta s.prev_txn_id)
        (Codes-against delta s.prev_txn_id r.txn_id hs.0 hid)
        (ColumnCodes-push _ 10 (omega arith) (omega arith) no_uvarint (Codes-uvarint hk) (
          ColumnCodes-push _ 11 (omega arith) (omega arith) no_uvarint (Codes-uvarint hv)
            (ColumnCodes-pure _))))

  record_columns :
      (r : TxnRecord) (s : State)
      → IsRecord py schemas r
      → FitsColumn py schemas r
      → IsState s
      → ColumnCodes
          (push_record py schemas delta r s)
          (read_record py schemas delta (tag_of r) s)
          (as_read r)
          (txn_record_tag_code (tag_of r) ∷ [])
  unfolding txn_record_tag_code
  record_columns (txn_full r) s h hc hs = full_columns r s h hc hs
  record_columns (txn_begin r) s h hc hs = unfold as_read in begin_columns r s h hs
  record_columns (txn_attr r) s h hc hs = attr_columns r s h hc hs
  record_columns (txn_end r) s h hc hs = unfold as_read in end_columns r s h hs
  record_columns (txn_link r) s h hc hs = unfold as_read in link_columns r s h hs
  record_columns (txn_meta r) s h hc hs = unfold as_read in meta_columns r s h hs

  pub records_columns :
      (rs : List TxnRecord) (s : State)
      → All (IsRecord py schemas) rs
      → All (FitsColumn py schemas) rs
      → IsState s
      → ColumnCodes
          (push_records py schemas delta rs s)
          (read_records py schemas delta (map tag_of rs) s)
          (map as_read rs)
          (map (λ r. txn_record_tag_code (tag_of r)) rs)
  unfolding push_records read_records
  records_columns [] s h hc hs = ColumnCodes-pure []
  records_columns (r ∷ rs) s (h, more) (hc, more_c) hs =
      ColumnCodes-bind _ (record_columns r s h hc hs) (
        rw (next-as_read py schemas delta r s) (
          ColumnCodes-map (λ xs. as_read r ∷ xs)
            (records_columns rs (next_state delta r s) more more_c
              (kept-IsState py schemas delta r s h hs))))
