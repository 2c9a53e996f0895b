-- ===== src/Txn/Block/RoundTrip.antt =====
-- python/src/trlog/_txn_data.py: the BLK_TXN_DATA block is read back from the file.
use trlog.Prelude.{
  ltb, length, sym, ◌∙◌, ℕ, ◌≡◌, refl, List, [], ◌++◌, map, append-nil, some, Option-cases, Bool,
  true, false, bit_or, inl, inr, arith, if◌then◌else◌,
}
use trlog.Prelude.Int.{ℤ}
use trlog.Wire.{Bytes, Result, ok, bind, Result-cases, bind-eq-ok}
use trlog.Types.{txn_data}
use trlog.Compression.{
  Compression, Zip, IsSound, compress_payload, decompress_payload, has_flag, flag_compressed,
  flag_compress_alg,
}
use trlog.Block.{make_block, read_one_block}
use trlog.Block.Scan.{make_block-Reads}
use trlog.Codec.Value.{Numbers}
use trlog.Txn.{TxnRecord, TxnDataBlock}
use trlog.Txn.Row.{encode_payload}
use trlog.Txn.Column.{encode_payload_column}
use trlog.Txn.ColumnReader.Parts.{FitsColumn}
use trlog.Txn.ColumnReader.RoundTrip.{ColumnsFit, decode-encode_payload_column}
use trlog.Wire.Reads.{All}
use trlog.Txn.{Layout, row, column, auto, adaptive, other}
use trlog.Txn.Row.RoundTrip.{as_read, FitsBlock, Codes-payload}
use trlog.Txn.Block.{
  flag_txn_delta, flag_txn_column, layout_flags, packed_payload, encode_layout, encode_chosen,
  encode_adaptive, should_use_column, compressed, encode_block, decode_layout, read_block,
}

-- The flags of the layout and of the compressor do not meet.
record Unpacked (c : Compression) (delta use_column : Bool) (flags : ℕ) (packed payload : Bytes)
    : Type 0 where
  pub unpacked : decompress_payload c flags packed ≡ ok payload
  pub delta_kept : has_flag flags flag_txn_delta ≡ delta
  pub column_kept : has_flag flags flag_txn_column ≡ use_column

-- The block is read from the file, and its records with the schemas that the writer had.
pub record ReadBack (c : Compression) (py : Numbers) (b old : TxnDataBlock) (block rest : Bytes)
    (found : ℤ × ℤ × List TxnRecord) : Type 0 where
  pub flags : ℕ
  pub packed : Bytes
  pub block_read : read_one_block (block ++ rest) ≡ ok (txn_data, flags, packed)
  pub records_read :
      read_block c py flags packed (some b.schemas) old
      ≡ ok (found.2, record old { start_time = found.0; end_time = found.1; schemas = b.schemas })

module _ (c : Compression) (s : IsSound c) where
  unpack_plain :
      (delta use_column : Bool) (payload : Bytes)
      → Unpacked c delta use_column (layout_flags delta use_column) payload payload
  unfolding decompress_payload
  unpack_plain true true p = record { unpacked = refl; delta_kept = refl; column_kept = refl }
  unpack_plain true false p = record { unpacked = refl; delta_kept = refl; column_kept = refl }
  unpack_plain false true p = record { unpacked = refl; delta_kept = refl; column_kept = refl }
  unpack_plain false false p = record { unpacked = refl; delta_kept = refl; column_kept = refl }

  unpack_zlib :
      (delta use_column : Bool) (payload : Bytes)
      → Unpacked c delta use_column
          (bit_or (layout_flags delta use_column) flag_compressed)
          (c.zlib.compress payload)
          payload
  unfolding decompress_payload
  unpack_zlib true true p = record {
    unpacked = s.zlib_lossless p;
    delta_kept = refl;
    column_kept = refl;
  }
  unpack_zlib true false p = record {
    unpacked = s.zlib_lossless p;
    delta_kept = refl;
    column_kept = refl;
  }
  unpack_zlib false true p = record {
    unpacked = s.zlib_lossless p;
    delta_kept = refl;
    column_kept = refl;
  }
  unpack_zlib false false p = record {
    unpacked = s.zlib_lossless p;
    delta_kept = refl;
    column_kept = refl;
  }

  unpack_zstd :
      (delta use_column : Bool) (payload : Bytes) (z : Zip)
      → c.zstd ≡ some z
      → Unpacked c delta use_column
          (bit_or (layout_flags delta use_column) (bit_or flag_compressed flag_compress_alg))
          (z.compress payload)
          payload
  unfolding decompress_payload
  unpack_zstd true true p z e = record {
    unpacked = rw e (s.zstd_lossless z e p);
    delta_kept = refl;
    column_kept = refl;
  }
  unpack_zstd true false p z e = record {
    unpacked = rw e (s.zstd_lossless z e p);
    delta_kept = refl;
    column_kept = refl;
  }
  unpack_zstd false true p z e = record {
    unpacked = rw e (s.zstd_lossless z e p);
    delta_kept = refl;
    column_kept = refl;
  }
  unpack_zstd false false p z e = record {
    unpacked = rw e (s.zstd_lossless z e p);
    delta_kept = refl;
    column_kept = refl;
  }

  moved :
      {delta use_column : Bool} {f flags : ℕ} {p packed payload : Bytes}
      → ◌≡◌ {A = Result (ℕ × Bytes)} (ok (f, p)) (ok (flags, packed))
      → Unpacked c delta use_column f p payload
      → Unpacked c delta use_column flags packed payload
  moved {f} {flags} {p} {packed} e u =
      let flags_same : f ≡ flags = cc e in
      let packed_same : p ≡ packed = cc e in rw (← flags_same, ← packed_same) u

  packed-Unpacked :
      (compress use_zstd delta use_column : Bool) (payload : Bytes) {flags : ℕ} {packed : Bytes}
      → packed_payload c compress use_zstd (layout_flags delta use_column) payload
        ≡ ok (flags, packed)
      → Unpacked c delta use_column flags packed payload
  unfolding packed_payload compress_payload
  packed-Unpacked false use_zstd delta use_column p e = moved e (unpack_plain delta use_column p)
  packed-Unpacked true false delta use_column p e = moved e (unpack_zlib delta use_column p)
  packed-Unpacked true true delta use_column p e = elim (Option-cases c.zstd) [
    | inl n ↦ absurd (ground (arith, n, e))
    | inr (z, n) ↦ moved (rw n at e) (unpack_zstd delta use_column p z n)
  ]

  -- A payload that decodes, packed into a block.
  pub read-packed :
      (py : Numbers) (b old : TxnDataBlock) (use_column : Bool) (payload rest : Bytes)
      {block : Bytes} {found : ℤ × ℤ × List TxnRecord}
      → bind
          (packed_payload c b.compress b.use_zstd (layout_flags b.delta_encode use_column) payload)
          (λ (flags, packed). make_block txn_data flags packed)
        ≡ ok block
      → decode_layout py b.delta_encode use_column b.schemas payload ≡ ok found
      → ReadBack c py b old block rest found
  unfolding read_block
  read-packed py b old use_column payload rest e d =
      elim (Result-cases
        (packed_payload c b.compress b.use_zstd (layout_flags b.delta_encode use_column) payload)) [
          | inl ((flags, packed), k) ↦
              let u = packed-Unpacked b.compress b.use_zstd b.delta_encode use_column payload k in
              record {
                flags = flags;
                packed = packed;
                block_read = make_block-Reads txn_data flags packed rest (rw k at e);
                records_read = rw (u.unpacked, u.delta_kept, u.column_kept, d);
              }
          | inr (x, k) ↦ absurd (cc (rw k at e))
        ]

-- The bytes of a layout.
abbrev encoded_as : Numbers → TxnDataBlock → Bool → Result Bytes
encoded_as py b use_column =
    if use_column
    then encode_payload_column py b.delta_encode b
    else encode_payload py b.delta_encode b

module _ (c : Compression) (py : Numbers) (b : TxnDataBlock) {use_column : Bool}
    {payload : Bytes} where
  settled :
      (u : Bool) (p : Bytes)
      → encoded_as py b u ≡ ok p
      → ◌≡◌ {A = Result (Bool × Bytes)} (ok (u, p)) (ok (use_column, payload))
      → encoded_as py b use_column ≡ ok payload
  settled u p d e =
      let u_same : u ≡ use_column = cc e in
      let p_same : p ≡ payload = cc e in rw (← u_same, ← p_same) d

  from_layout :
      (u : Bool)
      → encode_layout py b u ≡ ok (use_column, payload)
      → encoded_as py b use_column ≡ ok payload
  from_layout u e = elim (Result-cases (encoded_as py b u)) [
    | inl (p, d) ↦ settled u p d (rw d at e)
    | inr (x, d) ↦ absurd (cc (rw d at e))
  ]

  from_smaller :
      (smaller : Bool) (row_payload col_payload : Bytes)
      → encode_payload py b.delta_encode b ≡ ok row_payload
      → encode_payload_column py b.delta_encode b ≡ ok col_payload
      → ◌≡◌ {A = Result (Bool × Bytes)}
          (ok (if smaller then (true, col_payload) else (false, row_payload)))
          (ok (use_column, payload))
      → encoded_as py b use_column ≡ ok payload
  from_smaller true row_payload col_payload hr hc e = settled true col_payload hc e
  from_smaller false row_payload col_payload hr hc e = settled false row_payload hr e

  from_adaptive :
      encode_adaptive c py b ≡ ok (use_column, payload) → encoded_as py b use_column ≡ ok payload
  unfolding encode_adaptive
  from_adaptive e =
      let (row_payload, hr, e1) = bind-eq-ok (encode_payload py b.delta_encode b) _ e in
      let (col_payload, hc, e2) = bind-eq-ok (encode_payload_column py b.delta_encode b) _ e1 in
      let (row_compressed, hrc, e3) = bind-eq-ok (compressed c b row_payload) _ e2 in
      let (col_compressed, hcc, e4) = bind-eq-ok (compressed c b col_payload) _ e3 in
      from_smaller (ltb (length col_compressed) (length row_compressed)) row_payload col_payload hr
        hc e4

  from_chosen :
      (l : Layout)
      → encode_chosen c py l b ≡ ok (use_column, payload)
      → encoded_as py b use_column ≡ ok payload
  unfolding encode_chosen
  from_chosen row e = from_layout false e
  from_chosen column e = from_layout true e
  from_chosen auto e = from_layout (should_use_column b) e
  from_chosen adaptive e = from_adaptive e
  from_chosen other e = from_layout false e

-- A payload of either layout is read back as the records.
decode-encoded_as :
    (py : Numbers) (b : TxnDataBlock) (use_column : Bool) {payload : Bytes}
    → FitsBlock py b
    → (use_column ≡ true → All (FitsColumn py b.schemas) b.records × ColumnsFit py b.delta_encode b)
    → encoded_as py b use_column ≡ ok payload
    → decode_layout py b.delta_encode use_column b.schemas payload
      ≡ ok (b.start_time, b.end_time, map as_read b.records)
unfolding decode_layout
decode-encoded_as py b true fits fits_columns e =
    decode-encode_payload_column py b.delta_encode b fits (fits_columns refl).0
      (fits_columns refl).1 e
decode-encoded_as py b false {payload} fits fits_columns e =
    let c = Codes-payload py b.delta_encode b fits in
    let same : ok c.bytes ≡ ok payload = sym c.encoded ∙ e in
    rw (rw (append-nil, same_bytes same) at (c.decoded [])) refl
  where
    same_bytes : {x y : Bytes} → ok x ≡ ok y → x ≡ y
    same_bytes q = cc q

-- In every layout, compressed or not, with differences or without, a BLK_TXN_DATA block whose
-- records fit the format is read back from the file, whatever follows, as these records under the
-- schemas that they were written with, and the times of the block with them. Where the columns are
-- chosen, the attributes of each TR_FULL record must be the fields of its schema, each in its place.
pub read-encode_block_txn :
    (c : Compression) (py : Numbers) (b old : TxnDataBlock) (rest : Bytes) {block : Bytes}
    → IsSound c
    → FitsBlock py b
    → ((payload : Bytes)
        → encode_chosen c py b.column_layout b ≡ ok (true, payload)
        → All (FitsColumn py b.schemas) b.records × ColumnsFit py b.delta_encode b)
    → encode_block c py b ≡ ok block
    → ReadBack c py b old block rest (b.start_time, b.end_time, map as_read b.records)
unfolding encode_block
read-encode_block_txn c py b old rest {block} s fits fits_columns e =
    let (found, chosen, e1) = bind-eq-ok (encode_chosen c py b.column_layout b) _ e in
    finish found.0 found.1 chosen e1
  where
    finish :
        (use_column : Bool) (payload : Bytes)
        → encode_chosen c py b.column_layout b ≡ ok (use_column, payload)
        → bind
            (packed_payload c b.compress b.use_zstd
              (layout_flags b.delta_encode use_column)
              payload)
            (λ (flags, packed). make_block txn_data flags packed)
          ≡ ok block
        → ReadBack c py b old block rest (b.start_time, b.end_time, map as_read b.records)
    finish use_column payload chosen made = read-packed c s py b old use_column payload rest made (
        decode-encoded_as py b use_column fits (λ u. fits_columns payload (rw u at chosen))
          (from_chosen c py b b.column_layout chosen))
