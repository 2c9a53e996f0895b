-- ===== src/Txn/Fields/RoundTrip.antt =====
-- python/src/trlog/_txn_data.py: the parts of a record are read back as they were written.
use trlog.Prelude.{ℕ, ◌-◌, ◌^◌, ◌<◌, ◌≤◌, ◌≡◌, List, map, length, none, Bool, true, false, arith}
use trlog.Prelude.Int.{ℤ, pos, negsuc, ◌+ℤ◌, ◌-ℤ◌, ◌≤ℤ◌}
use trlog.Wire.Reads.{
  Codes, Codes-bind, Codes-map, Codes-map_eq, Codes-pack, Codes-append_byte, Codes-lift_bind,
  Codes-repeat_map, All,
}
use trlog.Types.{FieldType, field_type_code}
use trlog.Types.Codes.{to_field_type-code, field_type_code-lt}
use trlog.Codec.Uvarint.{Codes-uvarint}
use trlog.Codec.Svarint.{IsI64, Codes-svarint}
use trlog.Codec.Field.{pack_unsigned, unpack_unsigned}
use trlog.Codec.Value.{Numbers, FitsField, Codes-value}
use trlog.Txn.{TxnAttr, field_type_at}
use trlog.Txn.Fields.{
  encode_against, decode_against, encode_end, decode_end, encode_id, decode_id, or_u64, encode_attr,
  decode_attr, encode_attrs, decode_attrs, encode_attr_raw, decode_attr_raw, encode_attrs_raw,
  decode_attrs_raw,
}

-- Ids and times that fit a signed field of eight bytes.
abbrev pub IsId : ℤ → Type 0
IsId (pos n) = n < 2 ^ 63
IsId (negsuc n) = ⊥

IsI64-difference : (prev n : ℤ) → IsId prev → IsId n → IsI64 (n -ℤ prev)
unfolding ◌-ℤ◌
IsI64-difference (pos p) (pos n) hp hn = ground (arith, hp, hn)
IsI64-difference (pos p) (negsuc n) hp hn = absurd hn
IsI64-difference (negsuc p) n hp hn = absurd hp

add_difference : (prev n : ℤ) → prev +ℤ (n -ℤ prev) ≡ n
unfolding ◌-ℤ◌ ◌+ℤ◌
add_difference prev n = ground arith

pub Codes-against :
    (delta : Bool) (prev n : ℤ)
    → IsId prev
    → IsId n
    → Codes (encode_against delta prev n) (decode_against delta prev) n
unfolding encode_against decode_against pack_unsigned unpack_unsigned
Codes-against true prev n hp hn =
    Codes-map_eq (λ d. prev +ℤ d) (add_difference prev n)
      (Codes-svarint (n -ℤ prev) (IsI64-difference prev n hp hn))
Codes-against false prev (pos n) hp hn = Codes-map pos (Codes-pack 8 n (omega arith))
Codes-against false prev (negsuc n) hp hn = absurd hn

pub pos_difference : (s e : ℕ) → s ≤ e → pos e -ℤ pos s ≡ pos (e - s)
unfolding ◌-ℤ◌
pos_difference s e h = ground arith

pub add_duration : (s e : ℕ) → s ≤ e → pos s +ℤ pos (e - s) ≡ pos e
unfolding ◌+ℤ◌
add_duration s e h = ground arith

pub Codes-end :
    (delta : Bool) (start end_time : ℤ)
    → IsId start
    → IsId end_time
    → start ≤ℤ end_time
    → Codes (encode_end delta start end_time) (decode_end delta start) end_time
unfolding encode_end decode_end pack_unsigned unpack_unsigned
Codes-end true (pos s) (pos e) hs he h = rw (pos_difference s e (omega arith)) (
    Codes-map_eq (λ d. pos s +ℤ pos d) (add_duration s e (omega arith))
      (Codes-uvarint {n = e - s} (omega arith)))
Codes-end false (pos s) (pos e) hs he h = Codes-map pos (Codes-pack 8 e (omega arith))
Codes-end delta (negsuc s) e hs he h = absurd hs
Codes-end delta (pos s) (negsuc e) hs he h = absurd he

pub Codes-id : (delta : Bool) (n : ℕ) → n < 2 ^ 63 → Codes (encode_id delta n) (decode_id delta) n
unfolding encode_id decode_id
Codes-id true n h = Codes-uvarint (omega arith)
Codes-id false n h = Codes-pack 8 n (omega arith)

-- An attribute as it is read: without the type that the caller may have given.
abbrev pub untyped : TxnAttr → TxnAttr
untyped a = record { field_idx = a.field_idx; value = a.value; field_type = none }

module _ (py : Numbers) where
  -- An attribute whose value the field of the schema has room for.
  pub record FitsSchema (schema : List FieldType) (a : TxnAttr) : Type 0 where
    pub idx_fits : a.field_idx < 2 ^ 70
    pub value_fits : FitsField py (field_type_at schema a.field_idx) a.value

  -- An attribute whose value a field of its own type has room for.
  pub record FitsType (a : TxnAttr) : Type 0 where
    pub idx_fits : a.field_idx < 2 ^ 70
    pub value_fits : FitsField py (or_u64 a.field_type) a.value

  Codes-attr :
      (schema : List FieldType) (a : TxnAttr)
      → FitsSchema schema a
      → Codes (encode_attr py schema a) (decode_attr py schema) (untyped a)
  unfolding encode_attr decode_attr
  Codes-attr schema a h =
      Codes-bind _ (Codes-uvarint h.idx_fits)
        (Codes-map _ (Codes-value py (field_type_at schema a.field_idx) a.value h.value_fits))

  pub Codes-attrs :
      (schema : List FieldType) (attrs : List TxnAttr)
      → All (FitsSchema schema) attrs
      → length attrs < 2 ^ 70
      → Codes (encode_attrs py schema attrs) (decode_attrs py schema) (map untyped attrs)
  unfolding encode_attrs decode_attrs
  Codes-attrs schema attrs h few =
      Codes-bind _ (Codes-uvarint few)
        (Codes-repeat_map (FitsSchema schema) _ _ untyped (Codes-attr schema) attrs h)

  Codes-attr_raw :
      (a : TxnAttr) → FitsType a → Codes (encode_attr_raw py a) (decode_attr_raw py) (untyped a)
  unfolding encode_attr_raw decode_attr_raw
  Codes-attr_raw a h =
      let ft = or_u64 a.field_type in
      Codes-bind _ (Codes-uvarint h.idx_fits) (
        Codes-bind _ (Codes-append_byte (field_type_code ft) (field_type_code-lt ft)) (
          Codes-lift_bind _ (to_field_type-code ft)
            (Codes-map _ (Codes-value py ft a.value h.value_fits))))

  pub Codes-attrs_raw :
      (attrs : List TxnAttr)
      → All FitsType attrs
      → length attrs < 2 ^ 70
      → Codes (encode_attrs_raw py attrs) (decode_attrs_raw py) (map untyped attrs)
  unfolding encode_attrs_raw decode_attrs_raw
  Codes-attrs_raw attrs h few =
      Codes-bind _ (Codes-uvarint few)
        (Codes-repeat_map FitsType _ _ untyped Codes-attr_raw attrs h)
