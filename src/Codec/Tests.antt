-- ===== src/Codec/Tests.antt =====
-- Runs of the varint codec at concrete inputs.
use trlog.Prelude.{◌≡◌, refl, [], ◌∷◌, ◌++◌, arith, if◌then◌else◌, ltb, ◌^◌, drop}
use trlog.Prelude.Int.{pos, negsuc}
use trlog.Wire.{ok, err, truncated_uvarint, uvarint_too_large, negative_uvarint}
use trlog.Wire.Reads.{Codes}
use trlog.Wire.{pack, struct_error, overflow_error}
use trlog.Types.{i8, i16, bitvec}
use trlog.Codec.Field.{Singles, encode_field, decode_field}
use trlog.Codec.Field.RoundTrip.{Codes-field}
use trlog.Codec.{
  uvarint, uvarint_loop, encode_uvarint, decode_uvarint, decode_uvarint_loop, encode_svarint,
  decode_svarint,
}
use trlog.Codec.Uvarint.{decode-uvarint}
use trlog.Codec.Svarint.{Codes-svarint}
use trlog.Codec.Offset.{decode_uvarint_at, at_offset, decode_uvarint_at_lem}

encode_300 : encode_uvarint (pos 300) ≡ ok (0xAC ∷ 0x02 ∷ [])
unfolding encode_uvarint uvarint uvarint_loop
encode_300 = refl

encode_negative : encode_uvarint (negsuc 4) ≡ err negative_uvarint
unfolding encode_uvarint
encode_negative = refl

decode_cut : decode_uvarint (0xAC ∷ []) ≡ err truncated_uvarint
unfolding decode_uvarint decode_uvarint_loop
decode_cut = refl

decode-uvarint_example :
    decode_uvarint (uvarint 300 ++ (7 ∷ []))
    ≡ (if ltb 300 (2 ^ 70) then ok (300, 7 ∷ []) else err uvarint_too_large)
decode-uvarint_example = decode-uvarint 300 (7 ∷ [])

Codes-svarint_example : Codes (encode_svarint (negsuc 299)) decode_svarint (negsuc 299)
Codes-svarint_example = Codes-svarint (negsuc 299) (omega arith)

decode_uvarint_at_lem_example :
    decode_uvarint_at (9 ∷ 0xAC ∷ 0x02 ∷ 5 ∷ []) 1
    ≡ at_offset (9 ∷ 0xAC ∷ 0x02 ∷ 5 ∷ []) (decode_uvarint (drop 1 (9 ∷ 0xAC ∷ 0x02 ∷ 5 ∷ [])))
decode_uvarint_at_lem_example = decode_uvarint_at_lem (9 ∷ 0xAC ∷ 0x02 ∷ 5 ∷ []) 1

abbrev no_singles : Singles
no_singles = record { to_single = λ x. err overflow_error; from_single = λ b. b }

field_minus_two : encode_field no_singles i16 (negsuc 1) ≡ ok (254 ∷ 255 ∷ [])
unfolding encode_field pack trlog.Wire.le_bytes
field_minus_two = refl

field_too_large : encode_field no_singles i8 (pos 128) ≡ err struct_error
unfolding encode_field
field_too_large = refl

field_bits : encode_field no_singles bitvec (12, pos 0xABC) ≡ ok (12 ∷ 0x0A ∷ 0xBC ∷ [])
unfolding encode_field trlog.Wire.le_bytes trlog.Wire.◌+++◌ encode_uvarint uvarint uvarint_loop
field_bits = refl

Codes-field_example :
    Codes
      (encode_field no_singles bitvec (12, pos 0xABC))
      (decode_field no_singles bitvec)
      (12, pos 0xABC)
Codes-field_example = Codes-field no_singles bitvec (12, pos 0xABC) (omega arith, omega arith)
