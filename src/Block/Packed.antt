-- ===== src/Block/Packed.antt =====
-- A block whose payload is put through a compressor, as the `encode_block` methods of the string
-- table, the type registry and the metadata write it: the flags in the header say how.
use trlog.Prelude.{ℕ, ◌++◌, ◌≡◌, Bool, true, false, if◌then◌else◌, refl}
use trlog.Wire.{Bytes, Result, ok, bind, Result-cases}
use trlog.Types.{BlockType}
use trlog.Compression.{
  Compression, IsSound, compress_payload, decompress_payload, decompress-compress_payload,
}
use trlog.Block.{make_block, read_one_block}
use trlog.Block.Scan.{make_block-Reads}
use trlog.Prelude.{inl, inr, arith}

unfoldable pub packed_block : Compression → Bool → Bool → BlockType → Bytes → Result Bytes
packed_block c compress use_zstd block_type payload =
    if compress
    then bind (compress_payload c use_zstd payload)
        (λ (flags, packed). make_block block_type flags packed)
    else make_block block_type 0 payload

-- What a block was made of: read back, its payload decompresses to the bytes that were packed.
pub record Unpacks (c : Compression) (t : BlockType) (block rest payload : Bytes) : Type 0 where
  pub flags : ℕ
  pub packed : Bytes
  pub block_read : read_one_block (block ++ rest) ≡ ok (t, flags, packed)
  pub unpacked : decompress_payload c flags packed ≡ ok payload

pub packed_block-Unpacks :
    (c : Compression) (compress use_zstd : Bool) (t : BlockType) (payload rest : Bytes)
    {block : Bytes}
    → IsSound c
    → packed_block c compress use_zstd t payload ≡ ok block
    → Unpacks c t block rest payload
unfolding packed_block
packed_block-Unpacks c false use_zstd t payload rest s e = record {
  flags = 0;
  packed = payload;
  block_read = make_block-Reads t 0 payload rest e;
  unpacked = unfold decompress_payload in refl;
}
packed_block-Unpacks c true use_zstd t payload rest s e =
    elim (Result-cases (compress_payload c use_zstd payload)) [
      | inl ((flags, packed), d) ↦ record {
        flags = flags;
        packed = packed;
        block_read = make_block-Reads t flags packed rest (rw d at e);
        unpacked = decompress-compress_payload c use_zstd payload s d;
      }
      | inr (x, d) ↦ absurd (ground (arith, d, e))
    ]
