-- ===== src/Vc.antt =====
-- python/src/trlog/_vc_data.py: the values of signals and their packed forms.
pub mod Wave
pub mod Stored
pub mod Payload
pub mod Block
pub mod Valid
mod Tests
use trlog.Prelude.{
  ℕ, zero, suc, ◌+◌, ◌-◌, ◌*◌, ◌/◌, ◌%◌, ◌^◌, List, [], ◌∷◌, ◌++◌, map, replicate, reverse, set,
  get_or, get_elem?, length, max, bit_or, bit_and, Bool, true, false, ◌&&◌, not, ltb, leb, ◌==◌,
  if◌then◌else◌, Option, none, some,
}
use trlog.Prelude.Dict.{Dict, get, nat_eq}
use trlog.Prelude.Int.{ℤ, pos, negsuc, pos_part}
use trlog.Prelude.Int.Bits.{◌&ℤ◌, ◌>>ℤ◌}
use trlog.Wire.{
  Bytes, Result, ok, err, bind, ◌+++◌, Decoder, ◌>>=◌, pure, lift, read_slice, pack, unpack,
  type_error, index_error, attribute_error,
}
use trlog.Text.{Str}
use trlog.Floats.{Float, Floats, is_nonzero}
use trlog.Types.{SignalEncoding, two_state, four_state, nine_state, real, string, bitvec, analog}
use trlog.Codec.{encode_uvarint, decode_uvarint}
use trlog.Codec.Framed.{encode_text, decode_text}
use trlog.Codec.Field.{to_bytes_big, from_bytes_big}

-- A bit of a list: an int, or a str of one character.
pub data Cell : Type 0 where
  digit : ℤ → Cell
  letter : ℕ → Cell

pub data Sample : Type 0 where
  int : ℤ → Sample
  float : Float → Sample
  str : Str → Sample
  cells : List Cell → Sample

-- What the interpreter does: `int(s)` and `float(s)` of a str, and the conversions of floats.
pub record Interp : Type 0 where
  pub floats : Floats
  pub parse_int : Str → Result ℤ
  pub parse_float : Str → Result Float

-- `int(value)`, `float(value)` and `value or ""`
unfoldable pub to_int : Interp → Sample → Result ℤ
to_int py (int n) = ok n
to_int py (float x) = py.floats.truncate x
to_int py (str s) = py.parse_int s
to_int py (cells cs) = err type_error

unfoldable pub to_float : Interp → Sample → Result Float
to_float py (int n) = py.floats.from_int n
to_float py (float x) = ok x
to_float py (str s) = py.parse_float s
to_float py (cells cs) = err type_error

unfoldable pub to_str : Sample → Result Str
to_str (str s) = ok s
to_str (int (pos zero)) = ok []
to_str (int n) = err attribute_error
to_str (float x) = if is_nonzero x then err attribute_error else ok []
to_str (cells []) = ok []
to_str (cells (c ∷ cs)) = err attribute_error

unfoldable pub default_value : SignalEncoding → Sample
default_value two_state = int (pos 0)
default_value four_state = int (pos 0)
default_value nine_state = int (pos 0)
default_value bitvec = int (pos 0)
default_value real = float 0
default_value analog = float 0
default_value string = str []

abbrev pub is_int : Sample → Bool
is_int (int n) = true
is_int (float x) = false
is_int (str s) = false
is_int (cells cs) = false

-- `(value >> k) & 1`
abbrev bit_at : ℤ → ℕ → ℤ
bit_at n k = (n >>ℤ k) &ℤ pos 1

-- `max(1, (bits + 7) // 8)`
abbrev pub bytes_of : ℕ → ℕ
bytes_of bits = max 1 ((bits + 7) / 8)

-- The code of one bit whose value is a str: `str(value).upper()` looked up.
abbrev state_codes : Dict ℕ ℕ
state_codes = (0x31, 1) ∷ (0x58, 2) ∷ (0x78, 2) ∷ (0x5A, 3) ∷ (0x7A, 3) ∷ []

abbrev found_or : Option ℕ → ℕ
found_or none = 0
found_or (some c) = c

abbrev state_of : Str → ℕ
state_of (c ∷ []) = found_or (get state_codes c)
state_of s = 0

unfoldable pub four_state_code : Sample → ℤ
four_state_code (int n) = n &ℤ pos 1
four_state_code (str s) = pos (state_of s)
four_state_code (float x) = pos 0
four_state_code (cells cs) = pos 0

unfoldable pub four_state_decode : ℕ → Cell
four_state_decode code =
    if code == 1
    then digit (pos 1)
    else if code == 2
    then letter 0x58
    else if code == 3
    then letter 0x5A
    else digit (pos 0)

-- `result[i] |= b`
abbrev or_byte : Bytes → ℕ → ℕ → Bytes
or_byte result i b = set result i (bit_or (get_or result i 0) b)

-- A bit of the value by its place from the left.
abbrev four_bit : Sample → ℕ → ℕ → ℕ
four_bit (int n) bit_width i = pos_part (bit_at n (bit_width - 1 - i))
four_bit v bit_width i = 2

-- The rounds from the place `i` on.
unfoldable pub pack_4state_loop : Sample → ℕ → ℕ → ℕ → Bytes → Bytes
pack_4state_loop v bit_width zero i result = result
pack_4state_loop v bit_width (suc rounds) i result =
    pack_4state_loop v bit_width rounds (suc i)
      (or_byte result (i * 2 / 8) (bit_and (four_bit v bit_width i) 3 * 2 ^ (6 - i * 2 % 8)))

unfoldable pub pack_4state : Sample → ℕ → Bytes
unfolding pack_4state_loop
pack_4state v bit_width =
    pack_4state_loop v bit_width bit_width 0 (replicate (bytes_of (bit_width * 2)) 0)

abbrev byte_at : Bytes → ℕ → Result ℕ
byte_at buf i = elim (get_elem? buf i) [ none ↦ err index_error | some b ↦ ok b ]

-- The codes of the bits from the place `i` on.
abbrev codes_4state : Bytes → ℕ → ℕ → Result (List ℕ)
codes_4state buf zero i = ok []
codes_4state buf (suc rounds) i = bind (byte_at buf (i * 2 / 8)) λ b.
    bind (codes_4state buf rounds (suc i)) λ codes. ok (bit_and (b / 2 ^ (6 - i * 2 % 8)) 3 ∷ codes)

abbrev all_binary : List ℕ → Bool
all_binary [] = true
all_binary (c ∷ codes) = not (ltb 1 c) && all_binary codes

abbrev binary_value : ℕ → List ℕ → ℕ
binary_value int_val [] = int_val
binary_value int_val (c ∷ codes) = binary_value (bit_or (int_val * 2) (bit_and c 1)) codes

abbrev from_codes : (ℕ → Cell) → List ℕ → Sample
from_codes decode codes =
    if all_binary codes then int (pos (binary_value 0 codes)) else cells (map decode codes)

unfoldable pub unpack_4state : Bytes → ℕ → Result Sample
unfolding four_state_decode
unpack_4state buf bit_width =
    bind (codes_4state buf bit_width 0) λ codes. ok (from_codes four_state_decode codes)

-- _9STATE_CODES and _9STATE_DECODE: the two digits are ints.
abbrev letter_codes : Dict ℕ ℕ
letter_codes =
    (0x58, 2) ∷ (0x5A, 3) ∷ (0x48, 4) ∷ (0x55, 5) ∷ (0x57, 6) ∷ (0x4C, 7) ∷ (0x2D, 8) ∷ []

unfoldable pub nine_state_code : Cell → ℕ
nine_state_code (digit (pos n)) = if n == 1 then 1 else 0
nine_state_code (digit (negsuc n)) = 0
nine_state_code (letter c) = found_or (get letter_codes c)

abbrev code_letters : Dict ℕ ℕ
code_letters =
    (2, 0x58) ∷ (3, 0x5A) ∷ (4, 0x48) ∷ (5, 0x55) ∷ (6, 0x57) ∷ (7, 0x4C) ∷ (8, 0x2D) ∷ []

unfoldable pub nine_state_decode : ℕ → Cell
nine_state_decode code = elim (get code_letters code) [
  | none ↦ digit (pos code)
  | some c ↦ letter c
]

abbrev nine_bit : Sample → ℕ → ℕ → ℕ
nine_bit (int n) bit_width i = pos_part (bit_at n (bit_width - 1 - i))
nine_bit (cells cs) bit_width i = nine_state_code (get_or cs i (digit (pos 0)))
nine_bit (str s) bit_width i = nine_state_code (get_or (map letter s) i (digit (pos 0)))
nine_bit (float x) bit_width i = 0

-- The even places are the high halves of the bytes.
abbrev in_half : ℕ → ℕ → ℕ
in_half i code = if i % 2 == 0 then bit_and code 0xF * 16 else bit_and code 0xF

unfoldable pub pack_9state_loop : Sample → ℕ → ℕ → ℕ → Bytes → Bytes
unfolding nine_state_code
pack_9state_loop v bit_width zero i result = result
pack_9state_loop v bit_width (suc rounds) i result =
    pack_9state_loop v bit_width rounds (suc i)
      (or_byte result (i / 2) (in_half i (nine_bit v bit_width i)))

abbrev pub nibble_bytes : ℕ → ℕ
nibble_bytes bit_width = max 1 ((bit_width + 1) / 2)

unfoldable pub pack_9state : Sample → ℕ → Bytes
unfolding pack_9state_loop
pack_9state v bit_width =
    pack_9state_loop v bit_width bit_width 0 (replicate (nibble_bytes bit_width) 0)

abbrev from_half : ℕ → ℕ → ℕ
from_half i b = if i % 2 == 0 then bit_and (b / 16) 0xF else bit_and b 0xF

abbrev codes_9state : Bytes → ℕ → ℕ → Result (List ℕ)
codes_9state buf zero i = ok []
codes_9state buf (suc rounds) i =
    bind (byte_at buf (i / 2))
      λ b. bind (codes_9state buf rounds (suc i)) λ codes. ok (from_half i b ∷ codes)

unfoldable pub unpack_9state : Bytes → ℕ → Result Sample
unfolding nine_state_decode
unpack_9state buf bit_width =
    bind (codes_9state buf bit_width 0) λ codes. ok (from_codes nine_state_decode codes)
