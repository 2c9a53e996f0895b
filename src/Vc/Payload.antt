-- ===== src/Vc/Payload.antt =====
-- python/src/trlog/_vc_data.py: the payload of a block, and what is read from it.
pub mod Times
use trlog.Prelude.{
  ℕ, zero, suc, ◌+◌, List, [], ◌∷◌, length, Bool, true, false, ◌&&◌, not, ltb, if◌then◌else◌, none,
  some,
}
use trlog.Prelude.Dict.{Dict, get, sorted, nat_eq}
use trlog.Prelude.Int.{pos, sub_ℕ}
use trlog.Wire.{Bytes, Result, ok, bind, ◌+++◌, Decoder, ◌>>=◌, pure, lift, read_slice}
use trlog.Types.{SignalEncoding, two_state}
use trlog.Codec.{encode_uvarint, decode_uvarint}
use trlog.Compression.{Compression}
use trlog.Derived.Changes.{insert_time}
use trlog.Vc.{Sample, Interp, default_value}
use trlog.Vc.Wave.{TimeIndex, encode_value, decode_value, encode_wave}

-- FLAG_TIME_ZLIB, FLAG_WAVE_LZ4, FLAG_WAVE_XOR_DELTA, FLAG_WAVE_ZLIB, FLAG_SEEKABLE
abbrev pub flag_time_zlib : ℕ
flag_time_zlib = 0x04

abbrev pub flag_wave_lz4 : ℕ
flag_wave_lz4 = 0x08

abbrev pub flag_wave_xor_delta : ℕ
flag_wave_xor_delta = 0x10

abbrev pub flag_wave_zlib : ℕ
flag_wave_zlib = 0x20

abbrev pub flag_seekable : ℕ
flag_seekable = 0x40

abbrev pub SigTypes : Type 0
SigTypes = Dict ℕ (SignalEncoding × ℕ)

abbrev pub sig_type : SigTypes → ℕ → SignalEncoding × ℕ
sig_type sigs var_id = elim (get sigs var_id) [ none ↦ (two_state, 1) | some s ↦ s ]

abbrev pub ChangeMap : Type 0
ChangeMap = Dict ℕ (List (ℕ × Sample))

unfoldable pub times_in : List (ℕ × Sample) → List ℕ → List ℕ
unfolding insert_time
times_in [] ts = ts
times_in ((t, v) ∷ changes) ts = insert_time t (times_in changes ts)

-- The distinct times in order, and the variables that changed or have an initial value.
unfoldable pub all_times : ChangeMap → List ℕ
unfolding times_in
all_times [] = []
all_times ((var_id, changes) ∷ d) = times_in changes (all_times d)

unfoldable pub key_union {ℓ} : {A : Type ℓ} → Dict ℕ A → List ℕ → List ℕ
unfolding insert_time
key_union [] ids = ids
key_union ((k, a) ∷ d) ids = insert_time k (key_union d ids)

unfoldable pub index_from : ℕ → List ℕ → TimeIndex
index_from i [] = []
index_from i (t ∷ ts) = (t, i) ∷ index_from (suc i) ts

abbrev pub changes_of : ChangeMap → ℕ → List (ℕ × Sample)
changes_of d var_id = elim (get d var_id) [ none ↦ [] | some changes ↦ sorted changes ]

unfoldable pub raw_waves : Interp → SigTypes → ChangeMap → TimeIndex → List ℕ → Result (List Bytes)
unfolding encode_wave sorted
raw_waves py sigs changes idx [] = ok []
raw_waves py sigs changes idx (var_id ∷ ids) =
    let s = sig_type sigs var_id in
    bind (encode_wave py (changes_of changes var_id) s.0 s.1 idx)
      λ raw. bind (raw_waves py sigs changes idx ids) λ raws. ok (raw ∷ raws)

-- Each time as what it is above the last.
unfoldable pub encode_deltas : ℕ → List ℕ → Result Bytes
encode_deltas prev [] = ok []
encode_deltas prev (t ∷ ts) = encode_uvarint (sub_ℕ t prev) +++ encode_deltas t ts

unfoldable pub decode_deltas : ℕ → ℕ → Decoder (List ℕ)
decode_deltas prev zero = pure []
decode_deltas prev (suc n) = do
  delta ← decode_uvarint
  ts ← decode_deltas (prev + delta) n
  pure ((prev + delta) ∷ ts)

abbrev is_empty {ℓ} : {A : Type ℓ} → List A → Bool
is_empty [] = true
is_empty (x ∷ xs) = false

unfoldable pub encode_times : Compression → Bool → ℕ → List ℕ → Result Bytes
unfolding encode_deltas
encode_times c compress_time start_time ts =
    encode_uvarint (pos (length ts))
    +++ (if compress_time && not (is_empty ts)
        then bind (encode_deltas start_time ts) (λ deltas.
          encode_uvarint (pos (length (c.zlib.compress deltas))) +++ ok (c.zlib.compress deltas))
        else encode_deltas start_time ts)

-- The times of the compressed table.
abbrev parse_deltas : Compression → ℕ → ℕ → Bytes → Result (List ℕ)
parse_deltas c start_time time_count compressed =
    bind (c.zlib.decompress compressed)
      λ delta_bytes. bind (decode_deltas start_time time_count delta_bytes) λ (ts, rest). ok ts

unfoldable pub decode_times : Compression → Bool → ℕ → Decoder (List ℕ)
unfolding decode_deltas
decode_times c decompress_time start_time = do
  time_count ← decode_uvarint
  if decompress_time && ltb 0 time_count
      then (do
        compressed_len ← decode_uvarint
        compressed ← read_slice compressed_len
        lift (parse_deltas c start_time time_count compressed))
      else decode_deltas start_time time_count

unfoldable init_value : Dict ℕ Sample → ℕ → SignalEncoding → Sample
unfolding default_value
init_value inits var_id enc = elim (get inits var_id) [ none ↦ default_value enc | some v ↦ v ]

unfoldable pub encode_init : Interp → SigTypes → Dict ℕ Sample → ℕ → Result Bytes
unfolding encode_value init_value
encode_init py sigs inits var_id =
    let s = sig_type sigs var_id in
    encode_uvarint (pos var_id) +++ encode_value py s.0 s.1 (init_value inits var_id s.0)

unfoldable pub decode_init : SigTypes → Decoder (ℕ × Sample)
unfolding decode_value
decode_init sigs = do
  var_id ← decode_uvarint
  v ← decode_value (sig_type sigs var_id).0
  pure (var_id, v)
