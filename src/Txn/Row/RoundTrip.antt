-- ===== src/Txn/Row/RoundTrip.antt =====
-- python/src/trlog/_txn_data.py: the row layout of a payload is read back as its records.
use trlog.Prelude.{
  ◌^◌, ◌<◌, ◌≡◌, refl, List, [], ◌∷◌, map, length, some, Bool, true, false, arith, if◌then◌else◌,
}
use trlog.Prelude.Int.{ℤ, pos, negsuc, ◌≤ℤ◌}
use trlog.Wire.{Bytes, Result, ok, ◌+++◌, append_byte}
use trlog.Wire.Reads.{
  Codes, Codes-bind, Codes-map, Codes-pure, Codes-append_byte, Codes-lift_bind, Codes-pack, All,
}
use trlog.Types.{link_type_code}
use trlog.Types.Codes.{to_link_type-code, link_type_code-lt}
use trlog.Codec.Uvarint.{Codes-uvarint}
use trlog.Codec.Field.{pack_unsigned, unpack_unsigned}
use trlog.Codec.Value.{Numbers}
use trlog.Txn.{
  TxnFull, TxnBegin, TxnAttrRecord, TxnEnd, TxnLink, TxnMeta, TxnRecord, txn_full, txn_begin,
  txn_attr, txn_end, txn_link, txn_meta, TxnRecordTag, txn_record_tag_code, to_txn_record_tag, full,
  begin, attr, end, link, meta, Schemas, schema_of, TxnDataBlock,
}
use trlog.Txn.Fields.{State, next_state, next_decoded, advance_state}
use trlog.Txn.Fields.RoundTrip.{
  IsId, Codes-against, Codes-end, Codes-id, untyped, FitsSchema, FitsType, Codes-attrs,
  Codes-attrs_raw,
}
use trlog.Txn.Row.{
  encode_body, decode_body, encode_record, decode_record, encode_records, decode_records,
  encode_payload, decode_payload, at_start,
}

-- A record as it is read.
unfoldable pub as_read : TxnRecord → TxnRecord
as_read (txn_full r) = txn_full (record r { attrs = map untyped r.attrs })
as_read (txn_begin r) = txn_begin r
as_read (txn_attr r) = txn_attr (record r { attrs = map untyped r.attrs })
as_read (txn_end r) = txn_end r
as_read (txn_link r) = txn_link r
as_read (txn_meta r) = txn_meta r

-- Records that the layout has room for: ids and times below 2^63, a duration that is not negative,
-- attributes that fit their fields.
abbrev pub IsRecord : Numbers → Schemas → TxnRecord → Type 0
IsRecord py schemas (txn_full r) =
    (r.stream_inst_id < 2 ^ 70)
    × (r.txn_type_id < 2 ^ 70)
    × IsId r.txn_id
    × IsId r.start_time
    × IsId r.end_time
    × (r.start_time ≤ℤ r.end_time)
    × (r.parent_txn_id < 2 ^ 63)
    × All (FitsSchema py (schema_of schemas r.txn_type_id)) r.attrs
    × (length r.attrs < 2 ^ 70)
IsRecord py schemas (txn_begin r) =
    (r.stream_inst_id < 2 ^ 70)
    × (r.txn_type_id < 2 ^ 70)
    × IsId r.txn_id
    × IsId r.start_time
    × (r.parent_txn_id < 2 ^ 63)
IsRecord py schemas (txn_attr r) =
    IsId r.txn_id × All (FitsType py) r.attrs × (length r.attrs < 2 ^ 70)
IsRecord py schemas (txn_end r) = IsId r.txn_id × IsId r.end_time
IsRecord py schemas (txn_link r) =
    IsId r.source_txn_id × (r.target_txn_id < 2 ^ 63) × (r.label_str_id < 2 ^ 70)
IsRecord py schemas (txn_meta r) =
    IsId r.txn_id × (r.key_str_id < 2 ^ 70) × (r.value_str_id < 2 ^ 70)

abbrev pub IsState : State → Type 0
IsState s = IsId s.prev_txn_id × IsId s.prev_time

pub to_tag-code : (t : TxnRecordTag) → to_txn_record_tag (txn_record_tag_code t) ≡ ok t
unfolding to_txn_record_tag
to_tag-code full = refl
to_tag-code begin = refl
to_tag-code attr = refl
to_tag-code end = refl
to_tag-code link = refl
to_tag-code meta = refl

code-lt : (t : TxnRecordTag) → txn_record_tag_code t < 256
unfolding txn_record_tag_code
code-lt full = omega arith
code-lt _ = omega arith

pub Codes-u64 : (n : ℤ) → IsId n → Codes (pack_unsigned 8 n) (unpack_unsigned 8) n
unfolding pack_unsigned unpack_unsigned
Codes-u64 (pos n) h = Codes-map pos (Codes-pack 8 n (omega arith))
Codes-u64 (negsuc n) h = absurd h

module _ (py : Numbers) (schemas : Schemas) (delta : Bool) where
  next-IsState :
      (r : TxnRecord) (s : State) → IsRecord py schemas r → IsState s → IsState (advance_state r s)
  unfolding advance_state
  next-IsState (txn_full r) s (hi, ht, hid, hst, he, hle, hp, ha, few) hs = (hid, he)
  next-IsState (txn_begin r) s (hi, ht, hid, hst, hp) hs = (hid, hst)
  next-IsState (txn_attr r) s (hid, ha, few) hs = (hid, hs.1)
  next-IsState (txn_end r) s (hid, he) hs = (hid, he)
  next-IsState (txn_link r) s (hid, ht, hl) hs = (hid, hs.1)
  next-IsState (txn_meta r) s (hid, hk, hv) hs = (hid, hs.1)

  Codes-full :
      (r : TxnFull) (s : State)
      → IsRecord py schemas (txn_full r)
      → IsState s
      → Codes
          (encode_body py schemas delta (txn_full r) s)
          (decode_body py schemas delta full s)
          (as_read (txn_full r))
  unfolding encode_body decode_body as_read
  Codes-full r s (hi, ht, hid, hst, he, hle, hp, ha, few) hs = Codes-bind _ (Codes-uvarint hi) (
      Codes-bind _ (Codes-uvarint ht) (
        Codes-bind _ (Codes-against delta s.prev_txn_id r.txn_id hs.0 hid) (
          Codes-bind _ (Codes-against delta s.prev_time r.start_time hs.1 hst) (
            Codes-bind _ (Codes-end delta r.start_time r.end_time hst he hle) (
              Codes-bind _ (Codes-id delta r.parent_txn_id hp) (
                Codes-bind _ (Codes-attrs py (schema_of schemas r.txn_type_id) r.attrs ha few)
                  (Codes-pure _)))))))

  Codes-begin :
      (r : TxnBegin) (s : State)
      → IsRecord py schemas (txn_begin r)
      → IsState s
      → Codes
          (encode_body py schemas delta (txn_begin r) s)
          (decode_body py schemas delta begin s)
          (txn_begin r)
  unfolding encode_body decode_body
  Codes-begin r s (hi, ht, hid, hst, hp) hs = Codes-bind _ (Codes-uvarint hi) (
      Codes-bind _ (Codes-uvarint ht) (
        Codes-bind _ (Codes-against delta s.prev_txn_id r.txn_id hs.0 hid) (
          Codes-bind _ (Codes-against delta s.prev_time r.start_time hs.1 hst)
            (Codes-bind _ (Codes-id delta r.parent_txn_id hp) (Codes-pure _)))))

  Codes-attr_record :
      (r : TxnAttrRecord) (s : State)
      → IsRecord py schemas (txn_attr r)
      → IsState s
      → Codes
          (encode_body py schemas delta (txn_attr r) s)
          (decode_body py schemas delta attr s)
          (as_read (txn_attr r))
  unfolding encode_body decode_body as_read
  Codes-attr_record r s (hid, ha, few) hs =
      Codes-bind _ (Codes-against delta s.prev_txn_id r.txn_id hs.0 hid)
        (Codes-map _ (Codes-attrs_raw py r.attrs ha few))

  Codes-end_record :
      (r : TxnEnd) (s : State)
      → IsRecord py schemas (txn_end r)
      → IsState s
      → Codes
          (encode_body py schemas delta (txn_end r) s)
          (decode_body py schemas delta end s)
          (txn_end r)
  unfolding encode_body decode_body
  Codes-end_record r s (hid, he) hs =
      Codes-bind _ (Codes-against delta s.prev_txn_id r.txn_id hs.0 hid)
        (Codes-map _ (Codes-against delta s.prev_time r.end_time hs.1 he))

  Codes-link :
      (r : TxnLink) (s : State)
      → IsRecord py schemas (txn_link r)
      → IsState s
      → Codes
          (encode_body py schemas delta (txn_link r) s)
          (decode_body py schemas delta link s)
          (txn_link r)
  unfolding encode_body decode_body
  Codes-link r s (hid, ht, hl) hs =
      Codes-bind _ (Codes-append_byte (link_type_code r.link_type) (link_type_code-lt r.link_type))
        (Codes-lift_bind _ (to_link_type-code r.link_type) (
          Codes-bind _ (Codes-against delta s.prev_txn_id r.source_txn_id hs.0 hid) (
            Codes-bind _ (Codes-id delta r.target_txn_id ht)
              (Codes-bind _ (Codes-uvarint hl) (Codes-pure _)))))

  Codes-meta :
      (r : TxnMeta) (s : State)
      → IsRecord py schemas (txn_meta r)
      → IsState s
      → Codes
          (encode_body py schemas delta (txn_meta r) s)
          (decode_body py schemas delta meta s)
          (txn_meta r)
  unfolding encode_body decode_body
  Codes-meta r s (hid, hk, hv) hs =
      Codes-bind _ (Codes-against delta s.prev_txn_id r.txn_id hs.0 hid)
        (Codes-bind _ (Codes-uvarint hk) (Codes-bind _ (Codes-uvarint hv) (Codes-pure _)))

  -- A body behind its tag.
  Codes-tagged :
      (tag : TxnRecordTag) (s : State) {body : Result Bytes} {r : TxnRecord}
      → Codes body (decode_body py schemas delta tag s) r
      → Codes
          (append_byte (txn_record_tag_code tag) +++ body)
          (decode_record py schemas delta s)
          (some r)
  unfolding decode_record
  Codes-tagged tag s c =
      Codes-bind _ (Codes-append_byte (txn_record_tag_code tag) (code-lt tag))
        (rw (to_tag-code tag) (Codes-map some c))

  Codes-record :
      (r : TxnRecord) (s : State)
      → IsRecord py schemas r
      → IsState s
      → Codes
          (encode_record py schemas delta r s)
          (decode_record py schemas delta s)
          (some (as_read r))
  unfolding encode_record as_read
  Codes-record (txn_full r) s h hs = Codes-tagged full s (Codes-full r s h hs)
  Codes-record (txn_begin r) s h hs = Codes-tagged begin s (Codes-begin r s h hs)
  Codes-record (txn_attr r) s h hs = Codes-tagged attr s (Codes-attr_record r s h hs)
  Codes-record (txn_end r) s h hs = Codes-tagged end s (Codes-end_record r s h hs)
  Codes-record (txn_link r) s h hs = Codes-tagged link s (Codes-link r s h hs)
  Codes-record (txn_meta r) s h hs = Codes-tagged meta s (Codes-meta r s h hs)

  -- The reader's state follows the writer's.
  pub next-as_read :
      (r : TxnRecord) (s : State) → next_decoded delta (as_read r) s ≡ next_state delta r s
  unfolding next_state next_decoded as_read
  next-as_read (txn_full r) s = refl
  next-as_read (txn_begin r) s = refl
  next-as_read (txn_attr r) s = refl
  next-as_read (txn_end r) s = refl
  next-as_read (txn_link r) s = refl
  next-as_read (txn_meta r) s = refl

  pub kept-IsState :
      (r : TxnRecord) (s : State)
      → IsRecord py schemas r
      → IsState s
      → IsState (next_state delta r s)
  unfolding next_state
  kept-IsState r s h hs = either delta
    where
      either : (d : Bool) → IsState (if d then advance_state r s else s)
      either true = next-IsState r s h hs
      either false = hs

  Codes-records :
      (rs : List TxnRecord) (s : State)
      → All (IsRecord py schemas) rs
      → IsState s
      → Codes
          (encode_records py schemas delta rs s)
          (decode_records py schemas delta (length rs) s)
          (map as_read rs)
  unfolding encode_records decode_records
  Codes-records [] s h hs = Codes-pure []
  Codes-records (r ∷ rs) s (h, more) hs = Codes-bind _ (Codes-record r s h hs) (
      rw (next-as_read r s) (
        Codes-map (λ xs. as_read r ∷ xs)
          (Codes-records rs (next_state delta r s) more (kept-IsState r s h hs))))

-- A block whose times and records the format has room for.
pub record FitsBlock (py : Numbers) (b : TxnDataBlock) : Type 0 where
  pub start_fits : IsId b.start_time
  pub end_fits : IsId b.end_time
  pub records_fit : All (IsRecord py b.schemas) b.records
  pub few : length b.records < 2 ^ 70

pub Codes-payload :
    (py : Numbers) (delta : Bool) (b : TxnDataBlock)
    → FitsBlock py b
    → Codes
        (encode_payload py delta b)
        (decode_payload py delta b.schemas)
        (b.start_time, b.end_time, map as_read b.records)
unfolding encode_payload decode_payload
Codes-payload py delta b h = Codes-bind _ (Codes-u64 b.start_time h.start_fits) (
    Codes-bind _ (Codes-u64 b.end_time h.end_fits) (
      Codes-bind _ (Codes-uvarint h.few) (
        Codes-bind _
          (Codes-records py b.schemas delta b.records (at_start b.start_time) h.records_fit
            (omega arith, h.start_fits))
          (Codes-pure _))))
