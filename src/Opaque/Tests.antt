-- ===== src/Opaque/Tests.antt =====
-- Runs of the opaque blocks at concrete inputs.
use trlog.Prelude.{ℕ, ◌≡◌, refl, [], ◌∷◌, ◌++◌, true}
use trlog.Wire.{Bytes, ok, err, value_error}
use trlog.Types.{aux, ext}
use trlog.Compression.Samples.{marked, marked-IsSound}
use trlog.Block.{read_one_block}
use trlog.Opaque.{
  encode_aux, decode_aux, ExtBlock, ext_block, encode_ext, read_ext, decode-encode_aux,
  read-encode_ext,
}

abbrev aux_block : Bytes
aux_block = 0x12 ∷ 3 ∷ 13 ∷ 0 ∷ 0 ∷ 0 ∷ 0 ∷ 0 ∷ 0 ∷ 0 ∷ 0x28 ∷ 8 ∷ 9 ∷ []

encode-aux_block : encode_aux marked true true (8 ∷ 9 ∷ []) ≡ ok aux_block
unfolding encode_aux trlog.Block.make_block trlog.Wire.pack trlog.Wire.le_bytes trlog.Wire.◌+++◌
    trlog.Types.block_type_code
encode-aux_block = refl

decode-encode_aux_example :
    (flags : ℕ) × (packed : Bytes) × (read_one_block (aux_block ++ (7 ∷ []))
      ≡ ok (aux, flags, packed))
    × (decode_aux marked flags packed ≡ ok (8 ∷ 9 ∷ []))
decode-encode_aux_example =
    decode-encode_aux marked true true (8 ∷ 9 ∷ []) (7 ∷ []) marked-IsSound encode-aux_block

abbrev covg : ExtBlock
covg = record { ext_type = 67 ∷ 79 ∷ 86 ∷ 71 ∷ []; ext_version = 258; payload = 5 ∷ [] }

make_covg : ext_block (67 ∷ 79 ∷ 86 ∷ 71 ∷ []) 258 (5 ∷ []) ≡ ok covg
unfolding ext_block
make_covg = refl

abbrev covg_block : Bytes
covg_block = 0x20 ∷ 0 ∷ 17 ∷ 0 ∷ 0 ∷ 0 ∷ 0 ∷ 0 ∷ 0 ∷ 0 ∷ 67 ∷ 79 ∷ 86 ∷ 71 ∷ 2 ∷ 1 ∷ 5 ∷ []

encode-covg_block : encode_ext covg ≡ ok covg_block
unfolding encode_ext trlog.Block.make_block trlog.Wire.pack trlog.Wire.le_bytes trlog.Wire.◌+++◌
    trlog.Types.block_type_code
encode-covg_block = refl

read-encode_ext_example :
    (body : Bytes) × (read_one_block (covg_block ++ (7 ∷ [])) ≡ ok (ext, 0, body))
    × (read_ext body ≡ ok covg)
read-encode_ext_example =
    read-encode_ext (67 ∷ 79 ∷ 86 ∷ 71 ∷ []) 258 (5 ∷ []) (7 ∷ []) make_covg encode-covg_block
