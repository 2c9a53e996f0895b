-- ===== src/Txn/ColumnReader/Parts.antt =====
-- python/src/trlog/_txn_data.py: the fields of a record in the columns, and the attributes.
use trlog.Prelude.{
  ℕ, suc, ◌+◌, ◌-◌, ◌^◌, ◌<◌, ◌≡◌, refl, sym, ◌∙◌, ap, List, [], ◌∷◌, ◌++◌, append_assoc, map,
  length, none, some, Bool, true, false, inr, arith,
}
use mathlib.Core.Path.{subst}
use trlog.Prelude.Int.{ℤ, pos, negsuc, ◌+ℤ◌, ◌≤ℤ◌}
use trlog.Prelude.Dict.{Dict, get, nat_eq}
use trlog.Wire.{
  truncated_uvarint, index_error, struct_error, Bytes, Result, ok, err, bind, Error, Decoder,
  append_byte, read_byte, read_slice,
}
use trlog.Wire
use trlog.Wire.Reads.{Codes, Codes-bind, Codes-map_eq, Codes-slice, All}
use trlog.Types.{FieldType}
use trlog.Codec.{encode_uvarint, decode_uvarint, decode_svarint}
use trlog.Codec.Uvarint.{Codes-uvarint}
use trlog.Codec.Field.{unpack_unsigned}
use trlog.Codec.Value.{Numbers, FieldVal, FitsField, Codes-value, encode_value, decode_value}
use trlog.Txn.{
  TxnAttr, TxnRecord, txn_full, txn_begin, txn_attr, txn_end, txn_link, txn_meta, Schemas,
  schema_of, field_type_at,
}
use trlog.Txn.Fields.{decode_against, encode_attrs_raw}
use trlog.Txn.Fields.RoundTrip.{IsId, untyped, FitsSchema, pos_difference, add_duration}
use trlog.Txn.Row.RoundTrip.{Codes-u64}
use trlog.Txn.Column.{
  Pushes, col_tag, col_attr_base, encode_duration, encode_blob, push, push_attrs,
}
use trlog.Txn.ColumnReader.{◌>>=◌, pure, read_column, decode_duration, read_blob, read_attrs}
use trlog.Txn.ColumnReader.Cursors.{
  ColumnCodes, ColumnCodes-pure, ColumnCodes-map, read_head, get-head, gathered-past,
}

-- Nothing is found in no bytes.
pub no_uvarint : decode_uvarint [] ≡ err truncated_uvarint
unfolding decode_uvarint trlog.Codec.decode_uvarint_loop
no_uvarint = refl

pub no_byte : read_byte [] ≡ err index_error
unfolding read_byte
no_byte = refl

abbrev pub missing : Bool → Error
missing true = truncated_uvarint
missing false = struct_error

pub no_against : (delta : Bool) (prev : ℤ) → decode_against delta prev [] ≡ err (missing delta)
unfolding decode_against decode_svarint decode_uvarint trlog.Codec.decode_uvarint_loop
    unpack_unsigned trlog.Wire.unpack trlog.Wire.◌>>=◌
no_against true prev = refl
no_against false prev = refl

pub no_duration : (delta : Bool) (start : ℤ) → decode_duration delta start [] ≡ err (missing delta)
unfolding decode_duration decode_uvarint trlog.Codec.decode_uvarint_loop unpack_unsigned
    trlog.Wire.unpack trlog.Wire.◌>>=◌
no_duration true start = refl
no_duration false start = refl

pub no_blob : read_blob [] ≡ err truncated_uvarint
unfolding read_blob decode_uvarint trlog.Codec.decode_uvarint_loop trlog.Wire.◌>>=◌
no_blob = refl

pub Codes-duration :
    (delta : Bool) (start end_time : ℤ)
    → IsId start
    → IsId end_time
    → start ≤ℤ end_time
    → Codes (encode_duration delta start end_time) (decode_duration delta start) end_time
unfolding encode_duration decode_duration
Codes-duration true (pos s) (pos e) hs he h = rw (pos_difference s e (omega arith)) (
    Codes-map_eq (λ d. pos s +ℤ pos d) (add_duration s e (omega arith))
      (Codes-uvarint {n = e - s} (omega arith)))
Codes-duration false (pos s) (pos e) hs he h = rw (pos_difference s e (omega arith)) (
    Codes-map_eq (λ d. pos s +ℤ d) (add_duration s e (omega arith))
      (Codes-u64 (pos (e - s)) (omega arith)))
Codes-duration delta (negsuc s) e hs he h = absurd hs
Codes-duration delta (pos s) (negsuc e) hs he h = absurd he

-- The attributes of a record are the fields of its schema, each in its place.
abbrev pub Covers : ℕ → List FieldType → List TxnAttr → Type 0
Covers i [] [] = Unit
Covers i [] (a ∷ attrs) = ⊥
Covers i (ft ∷ schema) [] = ⊥
Covers i (ft ∷ schema) (a ∷ attrs) = (a.field_idx ≡ i) × Covers (suc i) schema attrs

-- What the column layout asks of a record over and above the row layout.
abbrev pub FitsColumn : Numbers → Schemas → TxnRecord → Type 0
FitsColumn py schemas (txn_full r) = Covers 0 (schema_of schemas r.txn_type_id) r.attrs
FitsColumn py schemas (txn_attr r) =
    (bs : Bytes) → encode_attrs_raw py r.attrs ≡ ok bs → length bs < 2 ^ 70
FitsColumn py schemas (txn_begin r) = Unit
FitsColumn py schemas (txn_end r) = Unit
FitsColumn py schemas (txn_link r) = Unit
FitsColumn py schemas (txn_meta r) = Unit

at_front :
    (front : List FieldType) (ft : FieldType) (schema : List FieldType)
    → field_type_at (front ++ ft ∷ schema) (length front) ≡ ft
at_front [] ft schema = refl
at_front (x ∷ front) ft schema = at_front front ft schema

length_snoc :
    (front : List FieldType) (ft : FieldType) → length (front ++ ft ∷ []) ≡ suc (length front)
length_snoc [] ft = refl
length_snoc (x ∷ front) ft = ap suc (length_snoc front ft)

module _ (py : Numbers) where
  read_attrs-present :
      (ft : FieldType) (schema : List FieldType) (i : ℕ) (cols : Dict ℕ Bytes) {bs : Bytes}
      → get cols (col_attr_base + i) ≡ some bs
      → read_attrs py i (ft ∷ schema) cols
        ≡ (read_column (col_attr_base + i) (decode_value py ft) >>= λ v.
              read_attrs py (suc i) schema >>= λ xs.
              pure (record { field_idx = i; value = v; field_type = none } ∷ xs))
            cols
  unfolding read_attrs
  read_attrs-present ft schema i cols e = rw (e, read_attrs) refl

  ColumnCodes-attr :
      (ft : FieldType) (schema : List FieldType) (i : ℕ) (v : FieldVal) (attrs : List TxnAttr)
      {s : Result Pushes}
      → Codes (encode_value py ft v) (decode_value py ft) v
      → ColumnCodes s (read_attrs py (suc i) schema) attrs []
      → ColumnCodes
          (push (col_attr_base + i) (encode_value py ft v) s)
          (read_attrs py i (ft ∷ schema))
          (record { field_idx = i; value = v; field_type = none } ∷ attrs)
          []
  unfolding push read_attrs
  ColumnCodes-attr ft schema i v attrs c d =
      let tail =
        ColumnCodes-map
          (λ (xs : List TxnAttr). record { field_idx = i; value = v; field_type = none } ∷ xs) d in
      record {
        pushes = (col_attr_base + i, c.bytes) ∷ tail.pushes;
        pushed = rw (c.encoded, tail.pushed);
        named = (inr (omega arith), tail.named);
        tagged =
            gathered-past (col_attr_base + i) col_tag c.bytes tail.pushes (omega arith)
            ∙ tail.tagged;
        read = λ more cols h.
            let u =
              read_head (decode_value py ft)
                (λ w. read_attrs py (suc i) schema >>= λ xs.
                  pure (record { field_idx = i; value = w; field_type = none } ∷ xs))
                cols (col_attr_base + i) c.bytes tail.pushes more (omega arith) c.decoded tail.read
                h in
            let present =
              get-head cols (col_attr_base + i) c.bytes (tail.pushes ++ more) (omega arith) h in
            record {
              rest = u.rest;
              read_as = read_attrs-present ft schema i cols present ∙ u.read_as;
              rest_holds = u.rest_holds;
            };
      }

  -- An attribute in its place, before those of the rest of the schema.
  attr_in_place :
      (front : List FieldType) (ft : FieldType) (schema : List FieldType) (a : TxnAttr)
      (attrs : List TxnAttr)
      → a.field_idx ≡ length front
      → FitsSchema py (front ++ ft ∷ schema) a
      → ColumnCodes
          (push_attrs py (front ++ ft ∷ schema) attrs)
          (read_attrs py (suc (length front)) schema)
          (map untyped attrs)
          []
      → ColumnCodes
          (push_attrs py (front ++ ft ∷ schema) (a ∷ attrs))
          (read_attrs py (length front) (ft ∷ schema))
          (map untyped (a ∷ attrs))
          []
  unfolding push_attrs
  attr_in_place front ft schema a attrs e fit behind =
      subst
        (λ (i : ℕ).
          ColumnCodes
            (push (col_attr_base + i)
              (encode_value py (field_type_at (front ++ ft ∷ schema) i) a.value)
              (push_attrs py (front ++ ft ∷ schema) attrs))
            (read_attrs py (length front) (ft ∷ schema))
            (record { field_idx = i; value = a.value; field_type = none } ∷ map untyped attrs) [])
        (sym e)
        (rw (at_front front ft schema) (
          ColumnCodes-attr ft schema (length front) a.value (map untyped attrs)
            (Codes-value py ft a.value (rw (at_front front ft schema) at value_fits)) behind))
    where
      value_fits : FitsField py (field_type_at (front ++ ft ∷ schema) (length front)) a.value
      value_fits =
          subst (λ (i : ℕ). FitsField py (field_type_at (front ++ ft ∷ schema) i) a.value) e
            fit.value_fits

  pub ColumnCodes-attrs :
      (front schema : List FieldType) (attrs : List TxnAttr)
      → Covers (length front) schema attrs
      → All (FitsSchema py (front ++ schema)) attrs
      → ColumnCodes
          (push_attrs py (front ++ schema) attrs)
          (read_attrs py (length front) schema)
          (map untyped attrs)
          []
  unfolding push_attrs
  ColumnCodes-attrs front [] [] h fits = unfold read_attrs in ColumnCodes-pure []
  ColumnCodes-attrs front [] (a ∷ attrs) h fits = absurd h
  ColumnCodes-attrs front (ft ∷ schema) [] h fits = absurd h
  ColumnCodes-attrs front (ft ∷ schema) (a ∷ attrs) (e, h) (fit, fits) =
      attr_in_place front ft schema a attrs e fit (
        rw (append_assoc front (ft ∷ []) schema, length_snoc front ft) at
          (ColumnCodes-attrs (front ++ ft ∷ []) schema attrs (rw (← length_snoc front ft) at h)
            (rw (← append_assoc front (ft ∷ []) schema) at fits)))

  -- A blob is read back whole, and parsed.
  pub Codes-blob :
      (attrs : List TxnAttr) {bs : Bytes}
      → encode_attrs_raw py attrs ≡ ok bs
      → length bs < 2 ^ 70
      → Codes (encode_blob py attrs) read_blob bs
  unfolding encode_blob read_blob
  Codes-blob attrs {bs} e few = rw e (Codes-bind _ (Codes-uvarint few) (Codes-slice bs))
