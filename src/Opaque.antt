-- ===== src/Opaque.antt =====
-- python/src/trlog/_aux.py: opaque blocks under a key, and python/src/trlog/_ext.py: the blocks of
-- applications.
mod Tests
use trlog.Prelude.{
  ℕ, ◌+◌, ◌<◌, ◌^◌, ◌≡◌, refl, ◌∙◌, List, [], ◌∷◌, ◌++◌, append_assoc, arith, length, length-append,
  take, drop, Bool, true, false, not, ◌&&◌, ◌==◌, if◌then◌else◌, ltb, bit_or, Option, none, some,
  Option-cases, Bool-cases, ap, sym, inl, inr,
}
use trlog.Wire.{
  Bytes, Result, ok, err, bind, ◌+++◌, concat, pack, unpack, le_bytes, Error, Result-cases,
  import_error, value_error,
}
use trlog.Wire.Reads.{
  pack-fits, length-le_bytes, take_front, drop_front, unpack-le_bytes, pack-le_bytes,
}
use trlog.Types.{aux, ext}
use trlog.Compression.{
  Zip, Compression, IsSound, has_flag, flag_compressed, flag_compress_alg, import_zstd,
  decompress_payload,
}
use trlog.Block.{make_block, read_one_block}
use trlog.Block.Scan.{make_block-Reads}

-- The payload as it is stored, with the flags: here a missing zstandard is an ImportError.
unfoldable pub packed_aux : Compression → Bool → Bytes → Result (ℕ × Bytes)
packed_aux c use_zstd payload =
    if use_zstd
    then bind (import_zstd c)
        (λ z. ok (bit_or flag_compressed flag_compress_alg, z.compress payload))
    else ok (flag_compressed, c.zlib.compress payload)

unfoldable pub encode_aux : Compression → Bool → Bool → Bytes → Result Bytes
unfolding packed_aux
encode_aux c compress use_zstd payload =
    if compress && not (length payload == 0)
    then bind (packed_aux c use_zstd payload) (λ (flags, packed). make_block aux flags packed)
    else make_block aux 0 payload

unfoldable pub decode_aux : Compression → ℕ → Bytes → Result Bytes
decode_aux c flags payload = decompress_payload c flags payload

unpack-packed_aux :
    (c : Compression) (use_zstd : Bool) (payload : Bytes) {flags : ℕ} {packed : Bytes}
    → IsSound c
    → packed_aux c use_zstd payload ≡ ok (flags, packed)
    → decompress_payload c flags packed ≡ ok payload
unfolding packed_aux decompress_payload
unpack-packed_aux c false payload s e = cc (e, s.zlib_lossless payload)
unpack-packed_aux c true payload s e = elim (Option-cases c.zstd) [
  | inl n ↦ ground (arith, n, e)
  | inr (z, n) ↦ ground (arith, n, e, s.zstd_lossless z n payload)
]

-- Whatever the codec's bytes and the compression asked for, a BLK_AUX block that `encode` returns
-- is read back from the file, whatever follows, and decodes to these bytes.
pub decode-encode_aux :
    (c : Compression) (compress use_zstd : Bool) (payload rest : Bytes) {block : Bytes}
    → IsSound c
    → encode_aux c compress use_zstd payload ≡ ok block
    → (flags : ℕ) × (packed : Bytes) × (read_one_block (block ++ rest) ≡ ok (aux, flags, packed))
      × (decode_aux c flags packed ≡ ok payload)
unfolding encode_aux decode_aux
decode-encode_aux c compress use_zstd payload rest {block} s e =
    by_case (compress && not (length payload == 0)) e
  where
    by_case :
        (packs : Bool)
        → (if packs
            then bind
                (packed_aux c use_zstd payload)
                (λ (flags, packed). make_block aux flags packed)
            else make_block aux 0 payload)
          ≡ ok block
        → (flags : ℕ) × (packed : Bytes) × (read_one_block (block ++ rest)
            ≡ ok (aux, flags, packed))
          × (decompress_payload c flags packed ≡ ok payload)
    by_case false e =
        (0, payload, make_block-Reads aux 0 payload rest e, unfold decompress_payload in refl)
    by_case true e = elim (Result-cases (packed_aux c use_zstd payload)) [
      | inl ((flags, packed), d) ↦ (
        flags,
        packed,
        make_block-Reads aux flags packed rest (rw d at e),
        unpack-packed_aux c use_zstd payload s d,
      )
      | inr (x, d) ↦ absurd (cc (rw d at e))
    ]

pub record ExtBlock : Type 0 where
  pub ext_type : Bytes
  pub ext_version : ℕ
  pub payload : Bytes

-- `__init__`
unfoldable pub ext_block : Bytes → ℕ → Bytes → Result ExtBlock
ext_block ext_type ext_version payload =
    if length ext_type == 4
    then ok (record { ext_type = ext_type; ext_version = ext_version; payload = payload })
    else err value_error

-- The first header, with its spare field, is thrown away; its fields are the second one's.
unfoldable pub encode_ext : ExtBlock → Result Bytes
encode_ext b = bind (ok b.ext_type +++ pack 2 b.ext_version +++ ok b.payload) (make_block ext 0)

unfoldable pub read_ext : Bytes → Result ExtBlock
unfolding ext_block
read_ext payload =
    if ltb (length payload) 6
    then err value_error
    else bind (unpack 2 (drop 4 payload))
        (λ (ext_version, _). ext_block (take 4 payload) ext_version (drop 6 payload))

-- The type in front and the version behind it are read back from a body.
read-ext_body :
    (b : ExtBlock)
    → length b.ext_type ≡ 4
    → b.ext_version < 256 ^ 2
    → read_ext (b.ext_type ++ (le_bytes 2 b.ext_version ++ b.payload)) ≡ ok b
unfolding read_ext ext_block
read-ext_body b four fits =
    rw
      (
        long_enough,
        type_taken,
        type_dropped,
        unpack-le_bytes 2 b.ext_version fits b.payload,
        body_dropped,
      )
      (rw four refl)
  where
    long_enough : ltb (length (b.ext_type ++ (le_bytes 2 b.ext_version ++ b.payload))) 6 ≡ false
    long_enough = ground (
      arith,
      four,
      length-append b.ext_type (le_bytes 2 b.ext_version ++ b.payload),
      length-append (le_bytes 2 b.ext_version) b.payload,
      length-le_bytes 2 b.ext_version,
    )

    type_taken : take 4 (b.ext_type ++ (le_bytes 2 b.ext_version ++ b.payload)) ≡ b.ext_type
    type_taken = rw four at (take_front b.ext_type (le_bytes 2 b.ext_version ++ b.payload))

    type_dropped :
        drop 4 (b.ext_type ++ (le_bytes 2 b.ext_version ++ b.payload))
        ≡ le_bytes 2 b.ext_version ++ b.payload
    type_dropped = rw four at (drop_front b.ext_type (le_bytes 2 b.ext_version ++ b.payload))

    six : length (b.ext_type ++ le_bytes 2 b.ext_version) ≡ 6
    six = omega (
      arith,
      four,
      length-append b.ext_type (le_bytes 2 b.ext_version),
      length-le_bytes 2 b.ext_version,
    )

    body_dropped : drop 6 (b.ext_type ++ (le_bytes 2 b.ext_version ++ b.payload)) ≡ b.payload
    body_dropped =
        rw (← append_assoc b.ext_type (le_bytes 2 b.ext_version) b.payload)
          (rw six at (drop_front (b.ext_type ++ le_bytes 2 b.ext_version) b.payload))

made-four :
    (ext_type : Bytes) (version : ℕ) (payload : Bytes) {b : ExtBlock}
    → ext_block ext_type version payload ≡ ok b
    → length b.ext_type ≡ 4
unfolding ext_block
made-four ext_type version payload {b} e = elim (Bool-cases (length ext_type == 4)) [
  | inl four ↦ ap length (sym (same (rw four at e))) ∙ ground (arith, four)
  | inr other ↦ absurd (cc (rw other at e))
]
  where
    block_of : {x y : ExtBlock} → ok x ≡ ok y → x ≡ y
    block_of q = cc q

    type_of : ExtBlock → Bytes
    type_of x = x.ext_type

    same :
        ok (record { ext_type = ext_type; ext_version = version; payload = payload }) ≡ ok b
        → ext_type ≡ b.ext_type
    same q = ap type_of (block_of q)

-- A block that the constructor accepts and that is encoded is read back from the file, whatever
-- follows, as the same block.
pub read-encode_ext :
    (ext_type : Bytes) (version : ℕ) (payload rest : Bytes) {b : ExtBlock} {block : Bytes}
    → ext_block ext_type version payload ≡ ok b
    → encode_ext b ≡ ok block
    → (body : Bytes) × (read_one_block (block ++ rest) ≡ ok (ext, 0, body)) × (read_ext body ≡ ok b)
unfolding encode_ext ◌+++◌
read-encode_ext ext_type version payload rest {b} {block} made e =
    elim (Result-cases (pack 2 b.ext_version)) [
      | inl (bs, d) ↦ written (pack-fits 2 b.ext_version d)
      | inr (x, d) ↦ absurd (refused x d)
    ]
  where
    body : Bytes
    body = b.ext_type ++ (le_bytes 2 b.ext_version ++ b.payload)

    never : {x : Error} → err x ≡ ok block → ⊥
    never q = absurd (cc q)

    refused : (x : Error) → pack 2 b.ext_version ≡ err x → ⊥
    refused x d = never (rw d at e)

    packed : b.ext_version < 256 ^ 2 → make_block ext 0 body ≡ ok block
    packed h = rw (pack-le_bytes 2 b.ext_version h) at e

    written :
        b.ext_version < 256 ^ 2
        → (body : Bytes) × (read_one_block (block ++ rest) ≡ ok (ext, 0, body))
          × (read_ext body ≡ ok b)
    written h = (
      body,
      make_block-Reads ext 0 body rest (packed h),
      read-ext_body b (made-four ext_type version payload made) h,
    )
