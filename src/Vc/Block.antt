-- ===== src/Vc/Block.antt =====
-- python/src/trlog/_vc_data.py: the class VcDataBlock.
use trlog.Prelude.{
  ℕ, ◌-◌, ◌^◌, List, [], ◌∷◌, ◌++◌, length, drop, take, get_elem?, bit_or, bit_and, Bool, true,
  false, ◌==◌, ◌&&◌, ◌||◌, ltb, if◌then◌else◌, Option, none, some,
}
use trlog.Prelude.Dict.{Dict, get, put, nat_eq}
use trlog.Prelude.Int.{pos}
use trlog.Wire.{
  Bytes, Result, ok, err, bind, ◌+++◌, concat_map, Decoder, ◌>>=◌, pure, read_byte, read_slice,
  repeat, pack, unpack, append_byte, index_error, key_error,
}
use trlog.Types.{vc_data}
use trlog.Codec.{encode_uvarint, decode_uvarint}
use trlog.Compression.{compress_payload, decompress_payload, has_flag, flag_compressed}
use trlog.Block.{make_block}
use trlog.Vc.{Sample}
use trlog.Vc.Stored.{Tools, WaveAlg, by_zlib, by_lz4, decode_wave, place_waves}
use trlog.Vc.Payload.{
  SigTypes, sig_type, ChangeMap, all_times, key_union, index_from, raw_waves, encode_times,
  decode_times, encode_init, decode_init, flag_time_zlib, flag_wave_lz4, flag_wave_xor_delta,
  flag_wave_zlib, flag_seekable,
}

pub record VcDataBlock : Type 0 where
  pub start_time : ℕ
  pub end_time : ℕ
  pub sig_types : SigTypes
  pub compress : Bool
  pub use_zstd : Bool
  pub compress_time_table : Bool
  pub compress_waves : Bool
  pub compress_waves_alg : WaveAlg
  pub seekable : Bool
  pub changes : ChangeMap
  pub init_values : Dict ℕ Sample

unfoldable pub vc_data_block :
    ℕ → SigTypes → Bool → Bool → Bool → Bool → WaveAlg → Bool → VcDataBlock
vc_data_block start_time sig_types compress use_zstd compress_time_table compress_waves alg
      seekable =
    record {
      start_time = start_time;
      end_time = start_time;
      sig_types = sig_types;
      compress = compress;
      use_zstd = use_zstd;
      compress_time_table = compress_time_table;
      compress_waves = compress_waves;
      compress_waves_alg = alg;
      seekable = seekable;
      changes = [];
      init_values = [];
    }

unfoldable pub set_initial : ℕ → Sample → VcDataBlock → VcDataBlock
set_initial var_id value b = record b { init_values = put b.init_values var_id value }

abbrev pub changes_at : ChangeMap → ℕ → List (ℕ × Sample)
changes_at d var_id = elim (get d var_id) [ none ↦ [] | some changes ↦ changes ]

-- The first change is the initial value where none is set.
abbrev pub with_first : Dict ℕ Sample → ℕ → Sample → Dict ℕ Sample
with_first inits var_id value = elim (get inits var_id) [
  | none ↦ put inits var_id value
  | some v ↦ inits
]

unfoldable pub add_change : ℕ → ℕ → Sample → VcDataBlock → VcDataBlock
add_change var_id time value b = record b {
  end_time = if ltb b.end_time time then time else b.end_time;
  changes = put b.changes var_id (changes_at b.changes var_id ++ ((time, value) ∷ []));
  init_values = with_first b.init_values var_id value;
}

-- `_encode_payload` past the waves: `positions` are those in `wave_data`.
abbrev position_size : Bytes → ℕ
position_size wave_data = if ltb (length wave_data) (2 ^ 32) then 4 else 8

unfoldable pub encode_positions : List ℕ → Bytes → Result Bytes
encode_positions positions wave_data =
    append_byte (position_size wave_data)
    +++ concat_map (pack (position_size wave_data)) positions
    +++ encode_uvarint (pos (length wave_data))
    +++ ok wave_data

abbrev encode_head : Tools → Bool → List ℕ → List ℕ → VcDataBlock → Result Bytes
encode_head k compress_time ts var_ids b =
    (pack 8 b.start_time +++ pack 8 b.end_time)
    +++ encode_times k.compression compress_time b.start_time ts
    +++ encode_uvarint (pos (length var_ids))
    +++ concat_map (encode_init k.interp b.sig_types b.init_values) var_ids

abbrev footer : Bool → Bytes → Result Bytes
footer seekable head = if seekable then pack 8 (length head) else ok []

abbrev wave_alg : ℕ → Option WaveAlg
wave_alg flags =
    if has_flag flags flag_wave_zlib
    then some by_zlib
    else if has_flag flags flag_wave_lz4
    then some by_lz4
    else none

unfoldable pub encode_payload : Tools → ℕ → VcDataBlock → Result Bytes
unfolding all_times key_union index_from raw_waves place_waves encode_times encode_init
    encode_positions
encode_payload k flags b =
    let ts = all_times b.changes in
    let var_ids = key_union b.changes (key_union b.init_values []) in
    bind (raw_waves k.interp b.sig_types b.changes (index_from 0 ts) var_ids) λ raws.
      bind (place_waves k (wave_alg flags) raws [] []) λ (positions, wave_data).
        bind (encode_head k (has_flag flags flag_time_zlib) ts var_ids b) λ head.
          (ok head +++ encode_positions positions wave_data)
          +++ footer (has_flag flags flag_seekable) head

pub record VcChange : Type 0 where
  pub var_id : ℕ
  pub time : ℕ
  pub value : Sample

abbrev before : VcChange → VcChange → Bool
before c d = ltb c.time d.time || (c.time == d.time && ltb c.var_id d.var_id)

-- `changes.sort(key=lambda c: (c.time, c.var_id))`
unfoldable pub insert_change : VcChange → List VcChange → List VcChange
insert_change c [] = c ∷ []
insert_change c (d ∷ ds) =
    let behind = insert_change c ds in if before d c then d ∷ behind else c ∷ d ∷ ds

unfoldable pub sort_changes : List VcChange → List VcChange
unfolding insert_change
sort_changes [] = []
sort_changes (c ∷ cs) = insert_change c (sort_changes cs)

-- `times[tidx]`
unfoldable pub at_times : ℕ → List ℕ → List (ℕ × Sample) → Result (List VcChange)
at_times var_id times [] = ok []
at_times var_id times ((tidx, v) ∷ cs) =
    let rest = at_times var_id times cs in
    elim (get_elem? times tidx) [
      | none ↦ err index_error
      | some t ↦ bind rest λ out. ok (record { var_id = var_id; time = t; value = v } ∷ out)
    ]

abbrev initial_change : ℕ → ℕ → Dict ℕ Sample → Result (List VcChange)
initial_change var_id start_time inits = elim (get inits var_id) [
  | none ↦ err key_error
  | some v ↦ ok (record { var_id = var_id; time = start_time; value = v } ∷ [])
]

-- What a wave without changes stands for is the initial value.
abbrev var_changes : ℕ → ℕ → Dict ℕ Sample → List ℕ → List (ℕ × Sample) → Result (List VcChange)
var_changes var_id start_time inits times [] = initial_change var_id start_time inits
var_changes var_id start_time inits times (c ∷ cs) = at_times var_id times (c ∷ cs)

abbrev is_empty : Bytes → Bool
is_empty [] = true
is_empty (b ∷ bs) = false

unfoldable pub decode_var :
    Tools → ℕ → SigTypes → ℕ → Dict ℕ Sample → List ℕ → Bytes → ℕ → ℕ → Result (List VcChange)
unfolding decode_wave at_times
decode_var k flags sigs start_time inits times wave_data var_id offset =
    if (offset == 0) && is_empty wave_data
    then initial_change var_id start_time inits
    else bind
        (decode_wave k (sig_type sigs var_id).0 (sig_type sigs var_id).1
          (has_flag flags flag_wave_lz4) (has_flag flags flag_wave_xor_delta)
          (has_flag flags flag_wave_zlib) (drop offset wave_data))
        (var_changes var_id start_time inits times)

unfoldable pub decode_vars :
    Tools
    → ℕ
    → SigTypes
    → ℕ
    → Dict ℕ Sample
    → List ℕ
    → Bytes
    → List (ℕ × Sample)
    → List ℕ
    → Result (List VcChange)
unfolding decode_var
decode_vars k flags sigs start_time inits times wave_data [] positions = ok []
decode_vars k flags sigs start_time inits times wave_data (v ∷ vars) [] = err index_error
decode_vars k flags sigs start_time inits times wave_data ((var_id, v) ∷ vars) (p ∷ positions) =
    bind (decode_var k flags sigs start_time inits times wave_data var_id p) λ cs.
      bind (decode_vars k flags sigs start_time inits times wave_data vars positions)
        λ rest. ok (cs ++ rest)

-- `init_values[var_id] = val` for each entry
unfoldable pub init_map : List (ℕ × Sample) → Dict ℕ Sample → Dict ℕ Sample
init_map [] d = d
init_map ((var_id, v) ∷ vars) d = init_map vars (put d var_id v)

-- What the payload has, in the order in which it is read.
pub record Parts : Type 0 where
  pub start_time : ℕ
  pub end_time : ℕ
  pub times : List ℕ
  pub inits : List (ℕ × Sample)
  pub positions : List ℕ
  pub wave_data : Bytes

unfoldable pub decode_parts : Tools → ℕ → SigTypes → Decoder Parts
unfolding decode_times decode_init
decode_parts k flags sigs = do
  start_time ← unpack 8
  end_time ← unpack 8
  times ← decode_times k.compression (has_flag flags flag_time_zlib) start_time
  init_count ← decode_uvarint
  inits ← repeat init_count (decode_init sigs)
  pos_entry_size ← read_byte
  positions ← repeat init_count (unpack (if pos_entry_size == 4 then 4 else 8))
  wave_len ← decode_uvarint
  wave_data ← read_slice wave_len
  pure (record {
    start_time = start_time;
    end_time = end_time;
    times = times;
    inits = inits;
    positions = positions;
    wave_data = wave_data;
  })

abbrev without_footer : ℕ → Bytes → Bytes
without_footer flags buf = if has_flag flags flag_seekable then take (length buf - 8) buf else buf

unfoldable pub decode_payload :
    Tools → ℕ → Bytes → VcDataBlock → Result (VcDataBlock × List VcChange)
unfolding decode_parts decode_vars init_map sort_changes
decode_payload k flags buf b =
    bind (decode_parts k flags b.sig_types (without_footer flags buf)) λ (p, rest).
      bind
        (decode_vars k flags b.sig_types p.start_time (init_map p.inits []) p.times p.wave_data
          p.inits p.positions)
        λ cs. ok (record b { start_time = p.start_time; end_time = p.end_time }, sort_changes cs)

-- The flags of the parts, which a block compressed as a whole does not have.
unfoldable pub sub_flags : VcDataBlock → ℕ
sub_flags b =
    if b.compress
    then flag_wave_xor_delta
    else bit_or
        (bit_or (bit_or flag_wave_xor_delta (if b.compress_time_table then flag_time_zlib else 0)) (
          if b.compress_waves
          then (elim b.compress_waves_alg [ by_zlib ↦ flag_wave_zlib | by_lz4 ↦ flag_wave_lz4 ])
          else 0))
        (if b.seekable then flag_seekable else 0)

unfoldable pub encode_block : Tools → VcDataBlock → Result Bytes
unfolding encode_payload sub_flags
encode_block k b = bind (encode_payload k (sub_flags b) b) λ payload.
    if b.compress
    then bind (compress_payload k.compression b.use_zstd payload)
        (λ (flags, compressed). make_block vc_data (bit_or (sub_flags b) flags) compressed)
    else make_block vc_data (sub_flags b) payload

-- `flags & ~(…)`: of a block that was compressed as a whole only FLAG_WAVE_XOR_DELTA is left, and
-- the bit that no flag of these blocks is.
abbrev flags_left : ℕ → ℕ
flags_left flags = if has_flag flags flag_compressed then bit_and flags 0x90 else flags

abbrev pub with_types : Option SigTypes → VcDataBlock → VcDataBlock
with_types none b = b
with_types (some s) b = record b { sig_types = s }

unfoldable pub read_block :
    Tools → ℕ → Bytes → Option SigTypes → VcDataBlock → Result (VcDataBlock × List VcChange)
unfolding decode_payload
read_block k flags payload sigs b =
    bind (decompress_payload k.compression flags payload)
      λ inner. decode_payload k (flags_left flags) inner (with_types sigs b)
