-- ===== src/Index.antt =====
-- python/src/trlog/_index.py: the index block, from times and streams to the offsets of the blocks
-- in the file. A tuple of the source is a tuple here; times and offsets are natural numbers.
pub mod Sections
pub mod RoundTrip
pub mod Find
pub mod Seek
pub mod Streams
mod Tests
use trlog.Prelude.{
  ℕ, zero, suc, ◌+◌, List, [], ◌∷◌, ◌++◌, map, length, Option, none, some, Bool, true, false, not,
  ◌&&◌, ◌||◌, ◌==◌, if◌then◌else◌, ltb, leb,
}
use trlog.Prelude.Int.{pos}
use trlog.Wire.{
  Bytes, Result, ok, err, bind, ◌+++◌, concat_map, Decoder, pure, ◌>>=◌, repeat, pack, unpack,
}
use trlog.Types.{index}
use trlog.Codec.{encode_uvarint, decode_uvarint}
use trlog.Block.{make_block}

-- (start, end, offset)
abbrev pub VcEntry : Type 0
VcEntry = ℕ × ℕ × ℕ

-- (start, end, offset, stream_inst_id)
abbrev pub TxnEntry : Type 0
TxnEntry = ℕ × ℕ × ℕ × ℕ

-- (var_id, first, last)
abbrev pub VarRange : Type 0
VarRange = ℕ × ℕ × ℕ

-- (owner_stream_id, key, ordinal, offset, length)
abbrev pub KeyEntry : Type 0
KeyEntry = ℕ × ℕ × ℕ × ℕ × ℕ

abbrev pub unknown_stream : ℕ
unknown_stream = 0xFFFF_FFFF

pub record IndexBlock : Type 0 where
  pub vc_entries : List VcEntry
  pub txn_entries : List TxnEntry
  pub var_ranges : List VarRange
  pub strtab_offset : ℕ
  pub typereg_offset : ℕ
  pub hier_offsets : List ℕ
  pub meta_offset : ℕ
  pub key_entries : List KeyEntry

unfoldable pub empty : IndexBlock
empty = record {
  vc_entries = [];
  txn_entries = [];
  var_ranges = [];
  strtab_offset = 0;
  typereg_offset = 0;
  hier_offsets = [];
  meta_offset = 0;
  key_entries = [];
}

unfoldable pub add_vc_entry : ℕ → ℕ → ℕ → IndexBlock → IndexBlock
add_vc_entry start_time end_time file_offset b = record b {
  vc_entries = b.vc_entries ++ ((start_time, end_time, file_offset) ∷ []);
}

unfoldable pub add_txn_entry : ℕ → ℕ → ℕ → ℕ → IndexBlock → IndexBlock
add_txn_entry start_time end_time file_offset stream_inst_id b = record b {
  txn_entries = b.txn_entries ++ ((start_time, end_time, file_offset, stream_inst_id) ∷ []);
}

unfoldable pub add_var_range : ℕ → ℕ → ℕ → IndexBlock → IndexBlock
add_var_range var_id first_change last_change b = record b {
  var_ranges = b.var_ranges ++ ((var_id, first_change, last_change) ∷ []);
}

unfoldable pub add_aux_entry : ℕ → ℕ → ℕ → ℕ → ℕ → IndexBlock → IndexBlock
add_aux_entry owner_stream_id key ordinal file_offset length b = record b {
  key_entries = b.key_entries ++ ((owner_stream_id, key, ordinal, file_offset, length) ∷ []);
}

-- The fields of one entry of each kind.
unfoldable pub encode_vc : VcEntry → Result Bytes
encode_vc (s, e, off) = pack 8 s +++ pack 8 e +++ pack 8 off

unfoldable pub decode_vc : Decoder VcEntry
decode_vc = do s ← unpack 8; e ← unpack 8; off ← unpack 8; pure (s, e, off)

abbrev pub vc_part : TxnEntry → VcEntry
vc_part (s, e, off, sid) = (s, e, off)

abbrev pub of_unknown : VcEntry → TxnEntry
of_unknown (s, e, off) = (s, e, off, unknown_stream)

unfoldable pub encode_range : VarRange → Result Bytes
encode_range (var_id, first, last) = encode_uvarint (pos var_id) +++ pack 8 first +++ pack 8 last

unfoldable pub decode_range : Decoder VarRange
decode_range = do
  var_id ← decode_uvarint
  first ← unpack 8
  last ← unpack 8
  pure (var_id, first, last)

unfoldable pub encode_stream_entry : TxnEntry → Result Bytes
encode_stream_entry (s, e, off, sid) =
    encode_uvarint (pos sid) +++ pack 8 s +++ pack 8 e +++ pack 8 off

unfoldable pub decode_stream_entry : Decoder TxnEntry
decode_stream_entry = do
  sid ← decode_uvarint
  s ← unpack 8
  e ← unpack 8
  off ← unpack 8
  pure (s, e, off, sid)

unfoldable pub encode_key : KeyEntry → Result Bytes
encode_key (owner, key, ordinal, off, length) =
    encode_uvarint (pos owner)
    +++ encode_uvarint (pos key)
    +++ encode_uvarint (pos ordinal)
    +++ pack 8 off
    +++ pack 8 length

unfoldable pub decode_key : Decoder KeyEntry
decode_key = do
  owner ← decode_uvarint
  key ← decode_uvarint
  ordinal ← decode_uvarint
  off ← unpack 8
  length ← unpack 8
  pure (owner, key, ordinal, off, length)

-- A count, and that many entries.
unfoldable pub encode_list : {A : Type 0} → (A → Result Bytes) → List A → Result Bytes
encode_list f xs = encode_uvarint (pos (length xs)) +++ concat_map f xs

unfoldable pub decode_list : {A : Type 0} → Decoder A → Decoder (List A)
decode_list p = do count ← decode_uvarint; repeat count p

-- `any(sid != 0xFFFFFFFF for _, _, _, sid in self._txn_entries)`
unfoldable pub has_stream_ids : List TxnEntry → Bool
has_stream_ids [] = false
has_stream_ids ((s, e, off, sid) ∷ entries) = not (sid == unknown_stream) || has_stream_ids entries

abbrev pub is_empty {ℓ} : {A : Type ℓ} → List A → Bool
is_empty xs = length xs == 0

-- A section behind its sentinel, or nothing.
unfoldable pub encode_section : ℕ → Bool → Result Bytes → Result Bytes
encode_section sentinel present r = if present then ok (sentinel ∷ []) +++ r else ok []

-- `if offset < len(data) and data[offset] == sentinel`
unfoldable pub decode_section : {A : Type 0} → ℕ → A → Decoder A → Decoder A
decode_section sentinel absent p [] = ok (absent, [])
decode_section sentinel absent p (b ∷ rest) =
    if b == sentinel then p rest else ok (absent, b ∷ rest)

abbrev pub Offsets : Type 0
Offsets = ℕ × ℕ × List ℕ

unfoldable pub encode_offsets : Offsets → Result Bytes
unfolding encode_list
encode_offsets (strtab, typereg, hier) =
    pack 8 strtab +++ pack 8 typereg +++ encode_list (pack 8) hier

unfoldable pub decode_offsets : Decoder Offsets
unfolding decode_list
decode_offsets = do
  strtab ← unpack 8
  typereg ← unpack 8
  hier ← decode_list (unpack 8)
  pure (strtab, typereg, hier)

unfoldable pub encode_payload : IndexBlock → Result Bytes
unfolding encode_list encode_section encode_offsets has_stream_ids encode_vc encode_range
    encode_stream_entry encode_key
encode_payload b =
    encode_list encode_vc b.vc_entries
    +++ encode_list (λ t. encode_vc (vc_part t)) b.txn_entries
    +++ encode_list encode_range b.var_ranges
    +++ encode_section 0x01 true
        (encode_offsets (b.strtab_offset, b.typereg_offset, b.hier_offsets))
    +++ encode_section 0x02 (has_stream_ids b.txn_entries)
        (encode_list encode_stream_entry b.txn_entries)
    +++ encode_section 0x03 (not (b.meta_offset == 0)) (pack 8 b.meta_offset)
    +++ encode_section 0x04 (not (is_empty b.key_entries)) (encode_list encode_key b.key_entries)

-- `if stream_entries: self._txn_entries = stream_entries`
abbrev pub overlay : List TxnEntry → List TxnEntry → List TxnEntry
overlay basic [] = basic
overlay basic (e ∷ es) = e ∷ es

unfoldable pub decode_fields : Decoder IndexBlock
decode_fields = do
  vc ← decode_list decode_vc
  txn ← decode_list decode_vc
  ranges ← decode_list decode_range
  offsets ← decode_section 0x01 (0, 0, []) decode_offsets
  streams ← decode_section 0x02 [] (decode_list decode_stream_entry)
  meta_offset ← decode_section 0x03 0 (unpack 8)
  keys ← decode_section 0x04 [] (decode_list decode_key)
  pure (record {
    vc_entries = vc;
    txn_entries = overlay (map of_unknown txn) streams;
    var_ranges = ranges;
    strtab_offset = offsets.0;
    typereg_offset = offsets.1;
    hier_offsets = offsets.2;
    meta_offset = meta_offset;
    key_entries = keys;
  })

-- Every field is set again, whatever the block held.
unfoldable pub decode_payload : Bytes → IndexBlock → Result IndexBlock
decode_payload payload b = bind (decode_fields payload) λ (b', _). ok b'

unfoldable pub encode_block : IndexBlock → Result Bytes
encode_block b = bind (encode_payload b) (make_block index 0)

unfoldable pub read_block : Bytes → IndexBlock → Result IndexBlock
unfolding decode_payload
read_block payload b = decode_payload payload b
