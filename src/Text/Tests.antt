-- ===== src/Text/Tests.antt =====
-- Runs of the UTF-8 codec at concrete inputs.
use trlog.Prelude.{[], ◌∷◌, ◌≡◌, refl}
use trlog.Wire.{Bytes, ok}
use trlog.Text.{encode_utf8, decode_utf8, decode-encode_utf8}

-- "é€"
utf8_run :
    (bs : Bytes) × (encode_utf8 (0xE9 ∷ 0x20AC ∷ []) ≡ ok bs)
    × (decode_utf8 bs ≡ ok (0xE9 ∷ 0x20AC ∷ []))
utf8_run = decode-encode_utf8 (0xE9 ∷ 0x20AC ∷ []) (refl, (refl, tt))
