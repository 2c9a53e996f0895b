-- ===== src/Text.antt =====
-- Python's `str` as the list of its code points, with the UTF-8 encoding and decoding that the
-- string table, the fields and the value changes go through.
mod Tests
use trlog.Prelude.{
  ℕ, zero, suc, ◌+◌, ◌-◌, ◌*◌, ◌/◌, ◌%◌, ◌<◌, ◌≤◌, ◌≡◌, refl, ap, ◌∙◌, List, [], ◌∷◌, ◌++◌,
  append_assoc, ltb, leb, if◌then◌else◌, Bool, ◌&&◌, ◌||◌, not, arith, ◌⊎◌, inl, inr, true, false,
  Option, none, some,
}
use trlog.Prelude.{length, length-append}
use trlog.Wire.{Result-cases}
use trlog.Wire.{Bytes, Result, ok, err, bind, unicode_error}
use trlog.Wire.Reads.{All}

abbrev pub Str : Type 0
Str = List ℕ

-- A code point that is no surrogate.
abbrev pub is_scalar : ℕ → Bool
is_scalar c = ltb c 0xD800 || (leb 0xE000 c && ltb c 0x110000)

abbrev pub IsScalar : ℕ → Type 0
IsScalar c = is_scalar c ≡ true

unfoldable pub encode_char : ℕ → Bytes
encode_char c =
    if ltb c 0x80
    then c ∷ []
    else if ltb c 0x800
    then (0xC0 + c / 64) ∷ (0x80 + c % 64) ∷ []
    else if ltb c 0x10000
    then (0xE0 + c / 4096) ∷ (0x80 + c / 64 % 64) ∷ (0x80 + c % 64) ∷ []
    else (0xF0 + c / 262144) ∷ (0x80 + c / 4096 % 64) ∷ (0x80 + c / 64 % 64) ∷ (0x80 + c % 64) ∷ []

-- `s.encode('utf-8')`
unfoldable pub encode_utf8 : Str → Result Bytes
encode_utf8 [] = ok []
encode_utf8 (c ∷ s) =
    let more = bind (encode_utf8 s) λ bs. ok (encode_char c ++ bs) in
    if is_scalar c then more else err unicode_error

-- What a first byte announces: the continuation bytes, the digits that it holds itself, and the
-- least code point that is written so.
unfoldable pub lead : ℕ → Option (ℕ × ℕ × ℕ)
lead b =
    if ltb b 0x80
    then some (0, b, 0)
    else if ltb b 0xC0
    then none
    else if ltb b 0xE0
    then some (1, b - 0xC0, 0x80)
    else if ltb b 0xF0
    then some (2, b - 0xE0, 0x800)
    else if ltb b 0xF8
    then some (3, b - 0xF0, 0x10000)
    else none

abbrev continues : ℕ → Bool
continues b = leb 0x80 b && ltb b 0xC0

-- `b.decode('utf-8')`: `more` continuation bytes are awaited, `acc` is the code point so far, and
-- `least` the least one that has so many bytes.
unfoldable pub decode_utf8_loop : ℕ → ℕ → ℕ → Bytes → Result Str
unfolding lead
decode_utf8_loop zero acc least [] = ok []
decode_utf8_loop zero acc least (b ∷ bs) = elim (lead b) [
  | none ↦ err unicode_error
  | some (zero, c, l) ↦ bind (decode_utf8_loop 0 0 0 bs) λ s. ok (c ∷ s)
  | some (suc more, c, l) ↦ decode_utf8_loop (suc more) c l bs
]
decode_utf8_loop (suc more) acc least [] = err unicode_error
decode_utf8_loop (suc zero) acc least (b ∷ bs) =
    let c = acc * 64 + (b - 0x80) in
    let rest = bind (decode_utf8_loop 0 0 0 bs) λ s. ok (c ∷ s) in
    if continues b && (leb least c && is_scalar c) then rest else err unicode_error
decode_utf8_loop (suc (suc more)) acc least (b ∷ bs) =
    let rest = decode_utf8_loop (suc more) (acc * 64 + (b - 0x80)) least bs in
    if continues b then rest else err unicode_error

unfoldable pub decode_utf8 : Bytes → Result Str
decode_utf8 = decode_utf8_loop 0 0 0

lead_two : (b : ℕ) → b < 32 → lead (0xC0 + b) ≡ some (1, b, 0x80)
unfolding lead
lead_two b h = ground arith

lead_three : (b : ℕ) → b < 16 → lead (0xE0 + b) ≡ some (2, b, 0x800)
unfolding lead
lead_three b h = ground arith

lead_four : (b : ℕ) → b < 8 → lead (0xF0 + b) ≡ some (3, b, 0x10000)
unfolding lead
lead_four b h = ground arith

-- A first byte, an inner and a last continuation byte.
first :
    (b more acc least : ℕ) (bs : Bytes)
    → lead b ≡ some (suc more, acc, least)
    → decode_utf8_loop 0 0 0 (b ∷ bs) ≡ decode_utf8_loop (suc more) acc least bs
unfolding decode_utf8_loop
first b more acc least bs e = ground (arith, e)

inner :
    (more acc least b : ℕ) (bs : Bytes)
    → b < 64
    → decode_utf8_loop (suc (suc more)) acc least ((0x80 + b) ∷ bs)
      ≡ decode_utf8_loop (suc more) (acc * 64 + b) least bs
unfolding decode_utf8_loop
inner more acc least b bs h = rw (ok_byte, same)
  where
    ok_byte : continues (0x80 + b) ≡ true
    ok_byte = ground arith

    same : 0x80 + b - 0x80 ≡ b
    same = omega arith

last :
    (acc least b c : ℕ) (bs : Bytes)
    → b < 64
    → acc * 64 + b ≡ c
    → least ≤ c
    → IsScalar c
    → decode_utf8_loop 1 acc least ((0x80 + b) ∷ bs)
      ≡ bind (decode_utf8_loop 0 0 0 bs) λ s. ok (c ∷ s)
unfolding decode_utf8_loop
last acc least b c bs hb e hl hc = ground arith

scalar-lt : (c : ℕ) → IsScalar c → c < 0x110000
scalar-lt c h = ground arith

encode_char-cases :
    (c : ℕ)
    → (c < 0x80) × (encode_char c ≡ c ∷ [])
      ⊎ (0x80 ≤ c) × (c < 0x800) × (encode_char c ≡ (0xC0 + c / 64) ∷ (0x80 + c % 64) ∷ [])
      ⊎ (0x800 ≤ c)
        × (c < 0x10000)
        × (encode_char c ≡ (0xE0 + c / 4096) ∷ (0x80 + c / 64 % 64) ∷ (0x80 + c % 64) ∷ [])
      ⊎ (0x10000 ≤ c)
        × (encode_char c
            ≡ (0xF0 + c / 262144)
              ∷ (0x80 + c / 4096 % 64)
              ∷ (0x80 + c / 64 % 64)
              ∷ (0x80 + c % 64)
              ∷ [])
unfolding encode_char
encode_char-cases c = ground arith

length-encode_char : (c : ℕ) → length (encode_char c) ≤ 4
unfolding encode_char
length-encode_char c = ground arith

pub length-encode_utf8 : (s : Str) {bs : Bytes} → encode_utf8 s ≡ ok bs → length bs ≤ 4 * length s
unfolding encode_utf8
length-encode_utf8 [] e = ground arith
length-encode_utf8 (c ∷ s) {bs} e = elim (Result-cases (encode_utf8 s)) [
  | inl (more, d) ↦
      ground
        (arith, d, length-encode_utf8 s d, length-append (encode_char c) more, length-encode_char c)
  | inr (x, d) ↦ ground (arith, d)
]

decode_utf8-char :
    (c : ℕ) (rest : Bytes)
    → IsScalar c
    → decode_utf8 (encode_char c ++ rest) ≡ bind (decode_utf8 rest) λ s. ok (c ∷ s)
unfolding decode_utf8
decode_utf8-char c rest h = elim (encode_char-cases c) [
  | inl (lt, e) ↦ rw e (unfold decode_utf8_loop in ground arith)
  | inr (inl (lo, hi, e)) ↦ rw e (
      first _ 0 (c / 64) 0x80 _ (lead_two (c / 64) (omega arith))
      ∙ last (c / 64) 0x80 (c % 64) c rest (omega arith) (omega arith) lo h)
  | inr (inr (inl (lo, hi, e))) ↦ rw e (
      first _ 1 (c / 4096) 0x800 _ (lead_three (c / 4096) (omega arith))
      ∙ inner 0 (c / 4096) 0x800 (c / 64 % 64) _ (omega arith)
      ∙ last (c / 4096 * 64 + c / 64 % 64) 0x800 (c % 64) c rest (omega arith) (omega arith) lo h)
  | inr (inr (inr (lo, e))) ↦ rw e (
      first _ 2 (c / 262144) 0x10000 _ (lead_four (c / 262144) (omega (arith, scalar-lt c h)))
      ∙ inner 1 (c / 262144) 0x10000 (c / 4096 % 64) _ (omega arith)
      ∙ inner 0 (c / 262144 * 64 + c / 4096 % 64) 0x10000 (c / 64 % 64) _ (omega arith)
      ∙ last ((c / 262144 * 64 + c / 4096 % 64) * 64 + c / 64 % 64) 0x10000 (c % 64) c rest
          (omega arith) (omega arith) lo h)
]

-- A text without surrogates encodes, and its bytes decode to the text.
pub decode-encode_utf8 :
    (s : Str) → All IsScalar s → (bs : Bytes) × (encode_utf8 s ≡ ok bs) × (decode_utf8 bs ≡ ok s)
unfolding encode_utf8
decode-encode_utf8 [] h = ([], refl, unfold decode_utf8 decode_utf8_loop in refl)
decode-encode_utf8 (c ∷ s) h =
    let (bs, e, d) = decode-encode_utf8 s h.1 in
    (encode_char c ++ bs, rw (e, h.0), rw (decode_utf8-char c bs h.0, d))

-- A text with a surrogate does not encode.
pub encode_utf8_surrogate :
    (s t : Str) (c : ℕ) → is_scalar c ≡ false → encode_utf8 (s ++ (c ∷ t)) ≡ err unicode_error
unfolding encode_utf8
encode_utf8_surrogate [] t c h = rw h
encode_utf8_surrogate (d ∷ s) t c h = ground (arith, encode_utf8_surrogate s t c h)
