-- ===== src/Derived/Stored.antt =====
-- python/src/trlog/_derived.py: the round trip of a stored definition.
use trlog.Prelude.{◌≡◌, ◌++◌, length}
use trlog.Wire.{Bytes, ok}
use trlog.Wire.Reads.{Codes, Codes-bind, Codes-pure, Codes-repeat, All}
use trlog.Codec.Uvarint.{Codes-uvarint}
use trlog.Codec.Framed.{Codes-bytes}
use trlog.TypeRegistry.Entries.{IsUvarint}
use trlog.Derived.{DerivedDef, encode, decode, decode_fields}

pub record IsDerivedDef (d : DerivedDef) : Type 0 where
  pub flags_fit : IsUvarint d.flags
  pub width_fits : IsUvarint d.bit_width
  pub inputs_fit : All IsUvarint d.input_var_ids
  pub few : IsUvarint (length d.input_var_ids)
  pub bytecode_fits : IsUvarint (length d.bytecode)

Codes-derived_def : (d : DerivedDef) → IsDerivedDef d → Codes (encode d) decode_fields d
unfolding encode decode_fields
Codes-derived_def d h = Codes-bind _ (Codes-uvarint h.flags_fit) (
    Codes-bind _ (Codes-uvarint h.width_fits) (
      Codes-bind _ (Codes-uvarint h.few) (
        Codes-bind _
          (Codes-repeat IsUvarint _ _ (λ v fits. Codes-uvarint fits) d.input_var_ids h.inputs_fit)
          (Codes-bind _ (Codes-bytes d.bytecode h.bytecode_fits) (Codes-pure d)))))

-- A definition whose numbers fit a varint is encoded, and decoded to the same definition whatever
-- follows it.
pub decode-encode_derived :
    (d : DerivedDef) (rest : Bytes)
    → IsDerivedDef d
    → (bytes : Bytes) × (encode d ≡ ok bytes) × (decode (bytes ++ rest) ≡ ok d)
unfolding decode
decode-encode_derived d rest h =
    let c = Codes-derived_def d h in (c.bytes, c.encoded, rw (c.decoded rest))
