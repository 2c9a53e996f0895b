-- ===== src/Vc/Tests.antt =====
-- Runs of the value-change block at concrete inputs.
use trlog.Prelude.{
  ℕ, ◌<◌, ◌^◌, ◌≡◌, refl, List, [], ◌∷◌, ◌++◌, length, map, ◌⊎◌, Bool, true, false, arith, none,
  some,
}
use trlog.Prelude.Dict.{get, put, nat_eq}
use trlog.Prelude.Int.{pos}
use trlog.Wire.{Bytes, Result, ok, err, value_error, negative_uvarint}
use trlog.Wire.Reads.{Codes, Reads}
use trlog.Types.{two_state}
use trlog.Compression.Samples.{marked, marked-IsSound, zero_floats}
use trlog.Vc.{Interp, Sample, int}
use trlog.Vc.Wave.{TimeIndex, encode_wave, decode_raw}
use trlog.Vc.Wave.RoundTrip.{Change, Placed, written, indexed, Codes-wave}
use trlog.Wire.{concat_map}
use trlog.Vc.Stored.{Tools, by_zlib, place_waves, stored_entry}
use trlog.Vc.Stored.Distinct.{distinct}
use trlog.Vc.Stored.RoundTrip.{IsSoundTools}
use trlog.Vc.Block.{VcDataBlock, vc_data_block, set_initial, add_change}
use trlog.Vc.Valid.{IsValid, new, next, sets, adds, Collected-IsValid}
use trlog.Vc.Payload.{encode_deltas, encode_times, decode_times}
use trlog.Vc.Payload.Times.{Rising, Codes-times, encode_deltas-cases}
use trlog.Vc.Stored.Place.{Wave, AllFound, place_waves-found}

abbrev no_parse : Interp
no_parse = record {
  floats = zero_floats;
  parse_int = λ s. err value_error;
  parse_float = λ s. err value_error;
}

abbrev times : TimeIndex
times = (100, 0) ∷ (105, 1) ∷ (107, 2) ∷ (120, 3) ∷ []

-- The first two flip the same bits at neighbouring times, which makes them a run.
abbrev bus : List Change
bus =
    record { time = 100; index = 0; value = int (pos 0xFF) }
    ∷ record { time = 105; index = 1; value = int (pos 0) }
    ∷ record { time = 120; index = 3; value = int (pos 0x0F) }
    ∷ []

bus-Placed : Placed times 0 bus
unfolding get
bus-Placed = (
  refl,
  omega arith,
  omega arith,
  (refl, omega arith, omega arith, (refl, omega arith, omega arith, tt)),
)

Codes-wave_example :
    Codes
      (encode_wave no_parse (map written bus) two_state 8 times)
      (decode_raw true two_state 8)
      (map indexed bus)
Codes-wave_example =
    Codes-wave no_parse times two_state 8 bus bus-Placed
      (omega arith, (omega arith, (omega arith, tt))) (omega arith)

abbrev tools : Tools
tools = record { compression = marked; lz4 = none; md5 = λ bs. bs; interp = no_parse }

tools-IsSoundTools : IsSoundTools tools
tools-IsSoundTools = record {
  compression_sound = marked-IsSound;
  lz4_lossless = λ z e bs. absurd (cc e);
}

-- Two variables with the same wave, and one of a single bit.
abbrev counter : Wave
counter = record {
  raw = 2 ∷ 1 ∷ 9 ∷ 0 ∷ 1 ∷ 14 ∷ 0 ∷ [];
  enc = two_state;
  bit_width = 8;
  changes = (0, int (pos 9)) ∷ (1, int (pos 7)) ∷ [];
}

abbrev clock : Wave
clock = record { raw = 1 ∷ 3 ∷ []; enc = two_state; bit_width = 1; changes = (0, int (pos 1)) ∷ [] }

abbrev NonEmpty : Bytes → Type 0
NonEmpty [] = ⊥
NonEmpty (b ∷ bs) = Unit

counter-Reads : Reads (decode_raw true two_state 8) counter.raw counter.changes
unfolding decode_raw trlog.Vc.Wave.decode_groups trlog.Vc.Wave.repeated trlog.Vc.Wave.state_after
    trlog.Codec.decode_uvarint trlog.Codec.decode_uvarint_loop trlog.Wire.◌>>=◌ trlog.Wire.pure
counter-Reads rest = refl

clock-Reads : Reads (decode_raw true two_state 1) clock.raw clock.changes
unfolding decode_raw trlog.Vc.Wave.decode_entries trlog.Vc.Wave.decode_entry
    trlog.Codec.decode_uvarint trlog.Codec.decode_uvarint_loop trlog.Wire.◌>>=◌ trlog.Wire.pure
clock-Reads rest = refl

abbrev three_waves : List Wave
three_waves = counter ∷ clock ∷ counter ∷ []

abbrev wave_bytes : Bytes
wave_bytes = 0 ∷ 2 ∷ 1 ∷ 9 ∷ 0 ∷ 1 ∷ 14 ∷ 0 ∷ 0 ∷ 1 ∷ 3 ∷ []

placed :
    place_waves tools (some by_zlib) (counter.raw ∷ clock.raw ∷ counter.raw ∷ []) [] []
    ≡ ok (0 ∷ 8 ∷ 0 ∷ [], wave_bytes)
unfolding place_waves trlog.Vc.Stored.compress_wave_entry get put trlog.Prelude.Dict.list_beq
placed = refl

place_waves-found_example :
    AllFound tools (some by_zlib) three_waves (0 ∷ 8 ∷ 0 ∷ []) wave_bytes
    × (concat_map
          (stored_entry tools (some by_zlib))
          (distinct [] (counter.raw ∷ clock.raw ∷ counter.raw ∷ []))
        ≡ ok wave_bytes)
place_waves-found_example =
    place_waves-found tools tools-IsSoundTools (some by_zlib) NonEmpty (λ a b ka kb e. e) (λ h. h)
      three_waves
      (
        (tt, omega arith, counter-Reads),
        ((tt, omega arith, clock-Reads), ((tt, omega arith, counter-Reads), tt)),
      )
      placed

abbrev started : VcDataBlock
started = vc_data_block 90 ((1, (two_state, 8)) ∷ []) false false true true by_zlib true

abbrev with_initial : VcDataBlock
with_initial = set_initial 3 (int (pos 1)) started

Collected-IsValid_example : IsValid (add_change 1 100 (int (pos 9)) with_initial)
Collected-IsValid_example = Collected-IsValid (add_change 1 100 (int (pos 9)) with_initial) (
    next with_initial (add_change 1 100 (int (pos 9)) with_initial)
      (next started with_initial
        (new 90 ((1, (two_state, 8)) ∷ []) false false true true by_zlib true)
        (sets 3 (int (pos 1)) started))
      (adds 1 100 (int (pos 9)) with_initial))

abbrev deltas : Bytes
deltas = 10 ∷ 5 ∷ []

encode_three : encode_deltas 90 (100 ∷ 105 ∷ []) ≡ ok deltas
unfolding encode_deltas trlog.Codec.encode_uvarint trlog.Codec.uvarint trlog.Codec.uvarint_loop
    trlog.Wire.◌+++◌
encode_three = refl

short_deltas :
    (bs : Bytes)
    → encode_deltas 90 (100 ∷ 105 ∷ []) ≡ ok bs
    → length (marked.zlib.compress bs) < 2 ^ 70
short_deltas bs e = let same : deltas ≡ bs = cc (encode_three, e) in rw (← same) (omega arith)

Codes-times_example :
    Codes
      (encode_times marked true 90 (100 ∷ 105 ∷ []))
      (decode_times marked true 90)
      (100 ∷ 105 ∷ [])
Codes-times_example =
    Codes-times marked marked-IsSound true 90 (100 ∷ 105 ∷ [])
      (omega arith, omega arith, (omega arith, omega arith, tt)) (omega arith) short_deltas

-- A change at 80 in a block that starts at 90.
encode_deltas-cases_example :
    (Rising 90 (80 ∷ []) × ((bs : Bytes) × (encode_deltas 90 (80 ∷ []) ≡ ok bs)))
    ⊎ ((Rising 90 (80 ∷ []) → ⊥) × (encode_deltas 90 (80 ∷ []) ≡ err negative_uvarint))
encode_deltas-cases_example = encode_deltas-cases 90 (80 ∷ [])
