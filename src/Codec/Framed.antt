-- ===== src/Codec/Framed.antt =====
-- Byte strings and texts behind their length, `encode_uvarint(len(raw)) + raw`, as the string
-- table, the fields and the type registry write them.
use trlog.Prelude.{◌*◌, ◌^◌, ◌<◌, length, arith}
use trlog.Prelude.Int.{pos}
use trlog.Wire.{Bytes, Result, ok, bind, ◌+++◌, Decoder, ◌>>=◌, lift, read_slice}
use trlog.Wire.Reads.{Codes, Codes-bind, Codes-lift, Codes-slice, All}
use trlog.Text.{Str, IsScalar, encode_utf8, decode_utf8, decode-encode_utf8, length-encode_utf8}
use trlog.Codec.{encode_uvarint, decode_uvarint}
use trlog.Codec.Uvarint.{Codes-uvarint}

unfoldable pub encode_bytes : Bytes → Result Bytes
encode_bytes raw = encode_uvarint (pos (length raw)) +++ ok raw

unfoldable pub decode_bytes : Decoder Bytes
decode_bytes = do length ← decode_uvarint; read_slice length

unfoldable pub encode_text : Str → Result Bytes
unfolding encode_bytes
encode_text s = bind (encode_utf8 s) encode_bytes

unfoldable pub decode_text : Decoder Str
unfolding decode_bytes
decode_text = do raw ← decode_bytes; lift (decode_utf8 raw)

pub Codes-bytes : (raw : Bytes) → length raw < 2 ^ 70 → Codes (encode_bytes raw) decode_bytes raw
unfolding encode_bytes decode_bytes
Codes-bytes raw h = Codes-bind _ (Codes-uvarint h) (Codes-slice raw)

-- A text that encodes, and whose length is read back.
pub record IsText (s : Str) : Type 0 where
  pub scalars : All IsScalar s
  pub fits : 4 * length s < 2 ^ 70

pub Codes-text : {s : Str} → IsText s → Codes (encode_text s) decode_text s
unfolding encode_text decode_text
Codes-text {s} h =
    let (bs, e, d) = decode-encode_utf8 s h.scalars in
    let short : length bs < 2 ^ 70 = omega (arith, h.fits, length-encode_utf8 s e) in
    rw e (Codes-lift decode_utf8 d (Codes-bytes bs short))
