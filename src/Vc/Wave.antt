-- ===== src/Vc/Wave.antt =====
-- python/src/trlog/_vc_data.py: the initial value of a signal, and the wave of its changes. A time
-- index is written as what it is above the one that is due, the one after the last.
pub mod Entries
pub mod Runs
pub mod RoundTrip
use trlog.Prelude.{
  ℕ, zero, suc, ◌+◌, ◌-◌, ◌*◌, ◌/◌, ◌^◌, List, [], ◌∷◌, ◌++◌, length, map, bit_and, bit_xor, Bool,
  true, false, ◌==◌, ◌&&◌, ltb, if◌then◌else◌, Option, none, some,
}
use trlog.Prelude.Dict.{Dict, get, nat_eq}
use trlog.Prelude.Int.{ℤ, pos, negsuc, sub_ℕ, pos_part, neg_part}
use trlog.Prelude.Int.Bits.{◌<<◌, ◌^ℤ◌, ◌&ℤ◌, ◌|ℤ◌}
use trlog.Wire.{
  Bytes, Result, ok, err, bind, ◌+++◌, concat_map, Decoder, ◌>>=◌, pure, lift, repeat, read_slice,
  pack, unpack, key_error,
}
use trlog.Types.{SignalEncoding, two_state, four_state, nine_state, real, string, bitvec, analog}
use trlog.Codec.{encode_uvarint, decode_uvarint}
use trlog.Codec.Framed.{encode_text, decode_text}
use trlog.Codec.Field.{to_bytes_big, from_bytes_big}
use trlog.Vc.{
  Sample, Cell, int, float, str, cells, digit, letter, Interp, to_int, to_float, to_str, bytes_of,
  nibble_bytes, is_int, four_state_code, four_state_decode, pack_4state, unpack_4state, pack_9state,
  unpack_9state,
}

unfoldable pub encode_binary : Interp → ℕ → Sample → Result Bytes
unfolding to_int
encode_binary py bit_width v = bind (to_int py v) (to_bytes_big (bytes_of bit_width))

unfoldable pub decode_binary : ℕ → Decoder Sample
decode_binary bit_width = do
  raw ← read_slice (bytes_of bit_width)
  pure (int (pos (from_bytes_big raw)))

unfoldable pub decode_4state : ℕ → Decoder Sample
decode_4state bit_width = do
  raw ← read_slice (bytes_of (bit_width * 2))
  lift (unpack_4state raw bit_width)

unfoldable pub decode_9state : ℕ → Decoder Sample
decode_9state bit_width = do
  raw ← read_slice (nibble_bytes bit_width)
  lift (unpack_9state raw bit_width)

abbrev encode_real : Interp → Sample → Result Bytes
encode_real py v = bind (to_float py v) (pack 8)

abbrev decode_real : Decoder Sample
decode_real = do x ← unpack 8; pure (float x)

abbrev decode_str : Decoder Sample
decode_str = do s ← decode_text; pure (str s)

-- The initial value stands behind its width.
unfoldable pub encode_value : Interp → SignalEncoding → ℕ → Sample → Result Bytes
unfolding encode_binary to_float to_str
encode_value py two_state bit_width v =
    encode_uvarint (pos bit_width) +++ encode_binary py bit_width v
encode_value py bitvec bit_width v = encode_uvarint (pos bit_width) +++ encode_binary py bit_width v
encode_value py four_state bit_width v =
    encode_uvarint (pos bit_width) +++ ok (pack_4state v bit_width)
encode_value py nine_state bit_width v =
    encode_uvarint (pos bit_width) +++ ok (pack_9state v bit_width)
encode_value py real bit_width v = encode_real py v
encode_value py analog bit_width v = encode_real py v
encode_value py string bit_width v = bind (to_str v) encode_text

unfoldable pub decode_value : SignalEncoding → Decoder Sample
unfolding decode_binary decode_4state decode_9state
decode_value two_state = do bit_width ← decode_uvarint; decode_binary bit_width
decode_value bitvec = do bit_width ← decode_uvarint; decode_binary bit_width
decode_value four_state = do bit_width ← decode_uvarint; decode_4state bit_width
decode_value nine_state = do bit_width ← decode_uvarint; decode_9state bit_width
decode_value real = decode_real
decode_value analog = decode_real
decode_value string = decode_str

-- `(d << k) | bits`
abbrev header : ℤ → ℕ → ℤ → Result Bytes
header d k bits = encode_uvarint ((d << k) |ℤ bits)

-- A value that is an int is written as bytes, another one packed.
abbrev encode_marked : Interp → ℤ → ℕ → Sample → Bytes → Result Bytes
encode_marked py d bit_width v packed =
    if is_int v
    then header d 1 (pos 1) +++ encode_binary py bit_width v
    else header d 1 (pos 0) +++ ok packed

-- Below zero an int is packed too.
abbrev is_natural : Sample → Bool
is_natural (int (pos n)) = true
is_natural v = false

abbrev encode_bit : Interp → ℤ → Sample → Result Bytes
encode_bit py d v =
    bind (to_int py v) λ n. encode_uvarint (((d << 2) |ℤ ((n &ℤ pos 1) << 1)) |ℤ pos 1)

-- An entry that is not of the runs: the time index above the one due, and the value.
unfoldable pub encode_entry : Interp → SignalEncoding → ℕ → ℤ → Sample → Result Bytes
unfolding encode_binary to_float to_str four_state_code
encode_entry py two_state bit_width d v =
    if bit_width == 1
    then encode_bit py d v
    else header d 1 (pos 1) +++ encode_binary py bit_width v
encode_entry py four_state bit_width d v =
    if bit_width == 1
    then encode_uvarint (((d << 3) |ℤ (four_state_code v << 1)) |ℤ pos 1)
    else encode_marked py d bit_width v (pack_4state v bit_width)
encode_entry py nine_state bit_width d v =
    if is_natural v
    then header d 1 (pos 1) +++ encode_binary py bit_width v
    else header d 1 (pos 0) +++ ok (pack_9state v bit_width)
encode_entry py real bit_width d v = encode_uvarint d +++ encode_real py v
encode_entry py analog bit_width d v = encode_uvarint d +++ encode_real py v
encode_entry py string bit_width d v = encode_uvarint d +++ bind (to_str v) encode_text
encode_entry py bitvec bit_width d v = header d 1 (pos 1) +++ encode_binary py bit_width v

-- The entry as the difference and the value.
abbrev after : ℕ → Decoder Sample → Decoder (ℕ × Sample)
after d p = do v ← p; pure (d, v)

abbrev decode_marked : ℕ → Decoder Sample → Decoder (ℕ × Sample)
decode_marked bit_width packed = do
  head ← decode_uvarint
  after (head / 2) (if bit_and head 1 == 0 then packed else decode_binary bit_width)

abbrev cell_sample : Cell → Sample
cell_sample (digit n) = int n
cell_sample (letter c) = str (c ∷ [])

unfoldable pub decode_entry : SignalEncoding → ℕ → Decoder (ℕ × Sample)
unfolding decode_binary decode_4state decode_9state four_state_decode
decode_entry two_state bit_width =
    if bit_width == 1
    then (do head ← decode_uvarint; pure (head / 4, int (pos (bit_and (head / 2) 1))))
    else (do head ← decode_uvarint; after (head / 2) (decode_binary bit_width))
decode_entry four_state bit_width =
    if bit_width == 1
    then (do
      head ← decode_uvarint
      pure (head / 8, cell_sample (four_state_decode (bit_and (head / 2) 3))))
    else decode_marked bit_width (decode_4state bit_width)
decode_entry nine_state bit_width = decode_marked bit_width (decode_9state bit_width)
decode_entry real bit_width = do d ← decode_uvarint; after d decode_real
decode_entry analog bit_width = do d ← decode_uvarint; after d decode_real
decode_entry string bit_width = do d ← decode_uvarint; after d decode_str
decode_entry bitvec bit_width = do head ← decode_uvarint; after (head / 2) (decode_binary bit_width)

-- What `time_to_idx` is: the places of the times in their table.
abbrev pub TimeIndex : Type 0
TimeIndex = Dict ℕ ℕ

abbrev pub index_of : TimeIndex → ℕ → Result ℕ
index_of idx t = elim (get idx t) [ none ↦ err key_error | some i ↦ ok i ]

-- The entries of a wave without runs.
unfoldable pub encode_entries :
    Interp → SignalEncoding → ℕ → TimeIndex → ℕ → List (ℕ × Sample) → Result Bytes
unfolding encode_entry
encode_entries py enc bit_width idx due [] = ok []
encode_entries py enc bit_width idx due ((t, v) ∷ changes) = bind (index_of idx t) λ i.
    encode_entry py enc bit_width (sub_ℕ i due) v
    +++ encode_entries py enc bit_width idx (suc i) changes

-- The runs: each change as the index above the one due, and the bits that it flips.
unfoldable pub flips : Interp → TimeIndex → ℕ → ℤ → List (ℕ × Sample) → Result (List (ℤ × ℤ))
unfolding to_int
flips py idx due prev [] = ok []
flips py idx due prev ((t, v) ∷ changes) = bind (index_of idx t) λ i. bind (to_int py v) λ curr.
    bind (flips py idx (suc i) curr changes) λ pairs. ok ((sub_ℕ i due, curr ^ℤ prev) ∷ pairs)

abbrev pub same_ℤ : ℤ → ℤ → Bool
same_ℤ a b = pos_part a == pos_part b && neg_part a == neg_part b

-- A group is a pair and how often it stands in a row; `count` of the first are counted.
unfoldable pub groups : ℤ × ℤ → ℕ → List (ℤ × ℤ) → List ((ℤ × ℤ) × ℕ)
groups run count [] = (run, count) ∷ []
groups run count (p ∷ pairs) =
    let longer = groups run (suc count) pairs in
    let others = groups p 1 pairs in
    if same_ℤ p.0 run.0 && same_ℤ p.1 run.1 then longer else (run, count) ∷ others

unfoldable pub encode_group : (ℤ × ℤ) × ℕ → Result Bytes
encode_group ((td, xd), count) =
    encode_uvarint ((td << 1) |ℤ pos 1) +++ encode_uvarint xd +++ encode_uvarint (sub_ℕ count 1)

unfoldable pub encode_runs : List (ℤ × ℤ) → Result Bytes
unfolding groups encode_group
encode_runs [] = ok []
encode_runs (p ∷ pairs) =
    let gs = groups p 1 pairs in encode_uvarint (pos (length gs)) +++ concat_map encode_group gs

-- 2-state signals of several bits are written as runs.
abbrev pub has_runs : SignalEncoding → ℕ → Bool
has_runs two_state bit_width = ltb 1 bit_width
has_runs enc bit_width = false

unfoldable pub encode_wave :
    Interp → List (ℕ × Sample) → SignalEncoding → ℕ → TimeIndex → Result Bytes
unfolding encode_entries flips encode_runs
encode_wave py [] enc bit_width idx = encode_uvarint (pos 0)
encode_wave py (c ∷ changes) enc bit_width idx =
    if has_runs enc bit_width
    then bind (flips py idx 0 (pos 0) (c ∷ changes)) encode_runs
    else encode_uvarint (pos (length (c ∷ changes)))
      +++ encode_entries py enc bit_width idx 0 (c ∷ changes)

-- The changes of `count` rounds with the same pair.
unfoldable pub repeated : ℕ → ℕ → ℕ → ℕ → ℕ → List (ℕ × Sample)
repeated zero td xd due val = []
repeated (suc count) td xd due val =
    (due + td, int (pos (bit_xor val xd))) ∷ repeated count td xd (suc (due + td)) (bit_xor val xd)

-- The index due and the value after them.
unfoldable pub state_after : ℕ → ℕ → ℕ → ℕ → ℕ → ℕ × ℕ
state_after zero td xd due val = (due, val)
state_after (suc count) td xd due val = state_after count td xd (suc (due + td)) (bit_xor val xd)

unfoldable pub decode_groups : ℕ → ℕ → ℕ → Decoder (List (ℕ × Sample))
unfolding repeated state_after
decode_groups zero due val = pure []
decode_groups (suc n) due val = do
  head ← decode_uvarint
  xor_delta ← decode_uvarint
  repeat_m1 ← decode_uvarint
  rest ←
      decode_groups n (state_after (suc repeat_m1) (head / 2) xor_delta due val).0
        (state_after (suc repeat_m1) (head / 2) xor_delta due val).1
  pure (repeated (suc repeat_m1) (head / 2) xor_delta due val ++ rest)

unfoldable pub decode_entries : SignalEncoding → ℕ → ℕ → ℕ → Decoder (List (ℕ × Sample))
unfolding decode_entry
decode_entries enc bit_width zero due = pure []
decode_entries enc bit_width (suc n) due = do
  entry ← decode_entry enc bit_width
  rest ← decode_entries enc bit_width n (suc (due + entry.0))
  pure ((due + entry.0, entry.1) ∷ rest)

-- The changes of a wave, as time indexes and values.
unfoldable pub decode_raw : Bool → SignalEncoding → ℕ → Decoder (List (ℕ × Sample))
unfolding decode_groups decode_entries
decode_raw xor_delta enc bit_width = do
  count ← decode_uvarint
  if xor_delta && has_runs enc bit_width
      then decode_groups count 0 0
      else decode_entries enc bit_width count 0
