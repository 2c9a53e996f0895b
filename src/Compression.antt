-- ===== src/Compression.antt =====
-- The compressors that the blocks are put through: zlib and, where it is installed, zstandard,
-- neither of which is code of the repository. What is assumed of them is that decompressing what
-- was compressed gives the bytes back.
pub mod Samples
use trlog.Prelude.{
  ℕ, ◌≡◌, ◌==◌, bit_and, bit_or, Bool, not, if◌then◌else◌, Option, none, some, Option-cases, inl,
  inr, true, false, arith,
}
use trlog.Wire.{Bytes, Result, ok, err, bind, runtime_error, import_error}

pub record Zip : Type 0 where
  pub compress : Bytes → Bytes
  pub decompress : Bytes → Result Bytes

-- `zstd` is `none` where `import zstandard` raises ImportError.
pub record Compression : Type 0 where
  pub zlib : Zip
  pub zstd : Option Zip

abbrev pub IsLossless : Zip → Type 0
IsLossless z = (bs : Bytes) → z.decompress (z.compress bs) ≡ ok bs

pub record IsSound (c : Compression) : Type 0 where
  pub zlib_lossless : IsLossless c.zlib
  pub zstd_lossless : (z : Zip) → c.zstd ≡ some z → IsLossless z

abbrev pub flag_compressed : ℕ
flag_compressed = 0x01

abbrev pub flag_compress_alg : ℕ
flag_compress_alg = 0x02

-- `flags & f` as a condition
abbrev pub has_flag : ℕ → ℕ → Bool
has_flag flags f = not (bit_and flags f == 0)

-- `import zstandard`, with the exception that a missing module leads to
abbrev pub import_zstd : Compression → Result Zip
import_zstd c = elim c.zstd [ none ↦ err import_error | some z ↦ ok z ]

-- The payload compressed as asked, with the flags that say so. Where the import is wrapped in
-- `try … except ImportError`, the exception is a RuntimeError.
unfoldable pub compress_payload : Compression → Bool → Bytes → Result (ℕ × Bytes)
compress_payload c use_zstd payload =
    if use_zstd
    then elim c.zstd [
      | none ↦ err runtime_error
      | some z ↦ ok (bit_or flag_compressed flag_compress_alg, z.compress payload)
    ]
    else ok (flag_compressed, c.zlib.compress payload)

-- The payload of a block by its flags.
unfoldable pub decompress_payload : Compression → ℕ → Bytes → Result Bytes
decompress_payload c flags payload =
    if has_flag flags flag_compressed
    then (if has_flag flags flag_compress_alg
        then bind (import_zstd c) (λ z. z.decompress payload)
        else c.zlib.decompress payload)
    else ok payload

-- What was compressed is decompressed by the flags that were returned with it.
pub decompress-compress_payload :
    (c : Compression) (use_zstd : Bool) (payload : Bytes) {flags : ℕ} {packed : Bytes}
    → IsSound c
    → compress_payload c use_zstd payload ≡ ok (flags, packed)
    → decompress_payload c flags packed ≡ ok payload
unfolding compress_payload decompress_payload
decompress-compress_payload c false payload s h = cc (h, s.zlib_lossless payload)
decompress-compress_payload c true payload s h = elim (Option-cases c.zstd) [
  | inl e ↦ ground (arith, e)
  | inr (z, e) ↦ ground (arith, e, s.zstd_lossless z e payload)
]
