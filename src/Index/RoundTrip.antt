-- ===== src/Index/RoundTrip.antt =====
-- python/src/trlog/_index.py: the round trip of the index block with its optional sections.
use trlog.Prelude.{
  ℕ, ◌≡◌, refl, List, [], ◌∷◌, ◌++◌, append-nil, map, length, length-map, arith, true, false, not,
  ◌==◌, if◌then◌else◌, Bool-cases, inl, inr,
}
use trlog.Wire.{Bytes, Result, ok, ◌+++◌, concat_map, pure, ◌>>=◌, pack, unpack}
use trlog.Wire.Reads.{Codes, All}
use trlog.Types.{index}
use trlog.TypeRegistry.Entries.{IsUvarint}
use trlog.Block.{read_one_block}
use trlog.Block.Scan.{make_block-Reads}
use trlog.Index.{
  TxnEntry, unknown_stream, IndexBlock, encode_vc, decode_vc, vc_part, of_unknown, encode_range,
  decode_range, encode_stream_entry, decode_stream_entry, encode_key, decode_key, encode_list,
  decode_list, has_stream_ids, is_empty, encode_section, decode_section, encode_offsets,
  decode_offsets, encode_payload, overlay, decode_fields, decode_payload, encode_block, read_block,
}
use trlog.Index.Sections.{
  IsWord, IsVc, IsTxn, IsRange, IsKey, Codes-word, Codes-vc, Codes-range, Codes-stream_entry,
  Codes-key, Codes-list, Codes-offsets, Above, Section, Section-optional,
}

pub record IsIndexBlock (b : IndexBlock) : Type 0 where
  pub vc_fit : All IsVc b.vc_entries
  pub few_vc : IsUvarint (length b.vc_entries)
  pub txn_fit : All IsTxn b.txn_entries
  pub few_txn : IsUvarint (length b.txn_entries)
  pub ranges_fit : All IsRange b.var_ranges
  pub few_ranges : IsUvarint (length b.var_ranges)
  pub strtab_fits : IsWord b.strtab_offset
  pub typereg_fits : IsWord b.typereg_offset
  pub hier_fit : All IsWord b.hier_offsets
  pub few_hier : IsUvarint (length b.hier_offsets)
  pub meta_fits : IsWord b.meta_offset
  pub keys_fit : All IsKey b.key_entries
  pub few_keys : IsUvarint (length b.key_entries)

concat_map-map :
    {A B : Type 0} (f : B → Result Bytes) (g : A → B) (xs : List A)
    → concat_map (λ x. f (g x)) xs ≡ concat_map f (map g xs)
unfolding concat_map
concat_map-map f g [] = refl
concat_map-map f g (x ∷ xs) = rw (concat_map-map f g xs)

encode_list-map :
    {A B : Type 0} (f : B → Result Bytes) (g : A → B) (xs : List A)
    → encode_list (λ x. f (g x)) xs ≡ encode_list f (map g xs)
unfolding encode_list
encode_list-map f g xs = rw (length-map xs g, concat_map-map f g xs)

txn_parts-All : (ts : List TxnEntry) → All IsTxn ts → All IsVc (map vc_part ts)
txn_parts-All [] h = tt
txn_parts-All ((s, e, off, sid) ∷ ts) ((hs, he, ho, hi), h) = ((hs, he, ho), txn_parts-All ts h)

-- Entries without a stream are what the basic section gives back.
all_unknown :
    (ts : List TxnEntry) → has_stream_ids ts ≡ false → map of_unknown (map vc_part ts) ≡ ts
unfolding has_stream_ids
all_unknown [] h = refl
all_unknown ((s, e, off, sid) ∷ ts) h = rw (all_unknown ts (ground (arith, h)), known)
  where
    known : sid ≡ unknown_stream
    known = ground (arith, h)

some_stream : (basic ts : List TxnEntry) → has_stream_ids ts ≡ true → overlay basic ts ≡ ts
unfolding has_stream_ids
some_stream basic [] h = absurd (ground (arith, h))
some_stream basic (t ∷ ts) h = refl

overlay_lem :
    (ts : List TxnEntry)
    → overlay (map of_unknown (map vc_part ts)) (if has_stream_ids ts then ts else []) ≡ ts
overlay_lem ts = elim (Bool-cases (has_stream_ids ts)) [
  | inl known ↦ rw known (some_stream _ ts known)
  | inr unknown ↦ rw unknown (all_unknown ts unknown)
]

kept_nonempty {ℓ} : {A : Type ℓ} (xs : List A) → (if not (is_empty xs) then xs else []) ≡ xs
kept_nonempty [] = refl
kept_nonempty (x ∷ xs) = ground arith

kept_nonzero : (n : ℕ) → (if not (n == 0) then n else 0) ≡ n
kept_nonzero n = ground arith

module _ (b : IndexBlock) (h : IsIndexBlock b) where
  abbrev vcs : Codes (encode_list encode_vc b.vc_entries) (decode_list decode_vc) b.vc_entries
  vcs = Codes-list IsVc encode_vc decode_vc b.vc_entries Codes-vc h.vc_fit h.few_vc

  abbrev txns :
      Codes
        (encode_list (λ t. encode_vc (vc_part t)) b.txn_entries)
        (decode_list decode_vc)
        (map vc_part b.txn_entries)
  txns = rw (encode_list-map encode_vc vc_part b.txn_entries) (
      Codes-list IsVc encode_vc decode_vc (map vc_part b.txn_entries) Codes-vc
        (txn_parts-All b.txn_entries h.txn_fit) (rw (length-map b.txn_entries vc_part) h.few_txn))

  abbrev ranges :
      Codes (encode_list encode_range b.var_ranges) (decode_list decode_range) b.var_ranges
  ranges =
      Codes-list IsRange encode_range decode_range b.var_ranges Codes-range h.ranges_fit
        h.few_ranges

  abbrev offsets :
      Section 0x01
        (encode_section 0x01 true
          (encode_offsets (b.strtab_offset, b.typereg_offset, b.hier_offsets)))
        (decode_section 0x01 (0, 0, []) decode_offsets)
        (b.strtab_offset, b.typereg_offset, b.hier_offsets)
  offsets =
      Section-optional 0x01 true (0, 0, [])
        (Codes-offsets b.strtab_offset b.typereg_offset b.hier_offsets h.strtab_fits h.typereg_fits
          h.hier_fit h.few_hier)

  abbrev streams :
      Section 0x02
        (encode_section 0x02
          (has_stream_ids b.txn_entries)
          (encode_list encode_stream_entry b.txn_entries))
        (decode_section 0x02 [] (decode_list decode_stream_entry))
        (if has_stream_ids b.txn_entries then b.txn_entries else [])
  streams = Section-optional 0x02 (has_stream_ids b.txn_entries) [] (
      Codes-list IsTxn encode_stream_entry decode_stream_entry b.txn_entries Codes-stream_entry
        h.txn_fit h.few_txn)

  abbrev meta_section :
      Section 0x03
        (encode_section 0x03 (not (b.meta_offset == 0)) (pack 8 b.meta_offset))
        (decode_section 0x03 0 (unpack 8))
        (if not (b.meta_offset == 0) then b.meta_offset else 0)
  meta_section =
      Section-optional 0x03 (not (b.meta_offset == 0)) 0 (Codes-word b.meta_offset h.meta_fits)

  abbrev keys :
      Section 0x04
        (encode_section 0x04 (not (is_empty b.key_entries)) (encode_list encode_key b.key_entries))
        (decode_section 0x04 [] (decode_list decode_key))
        (if not (is_empty b.key_entries) then b.key_entries else [])
  keys =
      Section-optional 0x04 (not (is_empty b.key_entries)) []
        (Codes-list IsKey encode_key decode_key b.key_entries Codes-key h.keys_fit h.few_keys)

  abbrev tail4 : Bytes
  tail4 = keys.bytes ++ []

  abbrev tail3 : Bytes
  tail3 = meta_section.bytes ++ tail4

  abbrev tail2 : Bytes
  tail2 = streams.bytes ++ tail3

  abbrev tail1 : Bytes
  tail1 = offsets.bytes ++ tail2

  above3 : Above 0x03 tail4
  above3 = keys.front [] tt 0x03 (omega arith)

  above2 : Above 0x02 tail3
  above2 = meta_section.front tail4 above3 0x02 (omega arith)

  above1 : Above 0x01 tail2
  above1 = streams.front tail3 above2 0x01 (omega arith)

  decode_fields_lem :
      decode_fields (vcs.bytes ++ (txns.bytes ++ (ranges.bytes ++ tail1))) ≡ ok (b, [])
  unfolding decode_fields ◌>>=◌ pure
  decode_fields_lem = rw vcs.decoded (
      rw txns.decoded (
        rw ranges.decoded (
          rw (offsets.decoded tail2 above1) (
            rw (streams.decoded tail3 above2) (
              rw (meta_section.decoded tail4 above3) (
                rw (keys.decoded [] tt) (
                  rw
                    (
                      overlay_lem b.txn_entries,
                      kept_nonzero b.meta_offset,
                      kept_nonempty b.key_entries,
                    )
                    refl)))))))

  decode-encode_payload :
      (payload : Bytes) × (encode_payload b ≡ ok payload)
      × ((old : IndexBlock) → decode_payload payload old ≡ ok b)
  unfolding encode_payload decode_payload ◌+++◌
  decode-encode_payload = (
    vcs.bytes ++ (txns.bytes ++ (ranges.bytes ++ tail1)),
    rw (vcs.encoded, txns.encoded, ranges.encoded)
        (rw (offsets.encoded, streams.encoded, meta_section.encoded, keys.encoded)
          (rw append-nil refl)),
    λ old. rw decode_fields_lem,
  )

-- An index whose numbers fit their fields is written as a BLK_INDEX block that is read back from
-- the file, whatever follows, as the same index, whatever the reader's one held: with the stream of
-- each transaction entry, the metadata's offset and the key index where there are any.
pub read-encode_block_index :
    (b old : IndexBlock) (rest : Bytes) {block : Bytes}
    → IsIndexBlock b
    → encode_block b ≡ ok block
    → (payload : Bytes) × (read_one_block (block ++ rest) ≡ ok (index, 0, payload))
      × (read_block payload old ≡ ok b)
unfolding encode_block read_block
read-encode_block_index b old rest h e =
    let (payload, written, back) = decode-encode_payload b h in
    (payload, make_block-Reads index 0 payload rest (rw written at e), back old)
