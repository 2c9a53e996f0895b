-- ===== src/Codec/Uvarint.antt =====
-- python/src/trlog/_codec.py: the varints of `encode_uvarint` and `decode_uvarint`, byte by byte.
use trlog.Prelude.{
  ℕ, zero, suc, ◌+◌, ◌*◌, ◌/◌, ◌%◌, ◌^◌, ◌<◌, ◌≤◌, ◌≡◌, refl, sym, ap, ◌∙◌, bit_and, bit_or, [],
  ◌∷◌, ◌++◌, ltb, if◌then◌else◌, arith, leb,
}
use trlog.Prelude.Bits.{bit_and_mask, bit_or_disjoint, bit_and_top}
use trlog.Prelude.Int.{pos}
use trlog.Wire.{Bytes, Result, ok, err, uvarint_too_large}
use trlog.Wire.Reads.{Codes, Codes-ok}
use trlog.Codec.{uvarint_loop, uvarint, encode_uvarint, decode_uvarint_loop, decode_uvarint}
use native.Mathlib.Nat.{div-add-mod, pow-suc, one-le-pow}
use native.Mathlib.Decide.{dec_lt}
use native.Mathlib.Numerals.{towards_suc}

low_group : (n : ℕ) → bit_and n 0x7F ≡ n % 128
low_group n = bit_and_mask 7 n

more_group : (n : ℕ) → bit_or (bit_and n 0x7F) 0x80 ≡ n % 128 + 128
more_group n = rw low_group (bit_or_disjoint 7 (n % 128) 1 (omega arith))

-- any fuel above `n` gives the same bytes
uvarint_fuel : (f g n : ℕ) → n < f → n < g → uvarint_loop f n ≡ uvarint_loop g n
unfolding uvarint_loop
uvarint_fuel zero g n h k = absurd (omega arith)
uvarint_fuel (suc f) zero n h k = absurd (omega arith)
uvarint_fuel (suc f) (suc g) n h k = ground (arith, uvarint_fuel f g (n / 128))

-- One round of the encoder in plain arithmetic.
pub uvarint_step :
    (n : ℕ) → uvarint n ≡ (if ltb n 128 then n ∷ [] else (n % 128 + 128) ∷ uvarint (n / 128))
unfolding uvarint uvarint_loop
uvarint_step n = ground (arith, low_group n, more_group n, uvarint_fuel n (suc (n / 128)) (n / 128))

pub uvarint_last : (n : ℕ) → n < 128 → uvarint n ≡ n ∷ []
uvarint_last n h = uvarint_step n ∙ ground arith

pub uvarint_more : (n : ℕ) → 128 ≤ n → uvarint n ≡ (n % 128 + 128) ∷ uvarint (n / 128)
uvarint_more n h = uvarint_step n ∙ ground arith

seven_more : (k : ℕ) → 128 * 2 ^ k ≡ 2 ^ (k + 7)
seven_more k = simp towards_suc (omega arith)

-- The groups above the lowest one and the lowest one, in their places.
regroup : (shift w : ℕ) → w / 128 * 2 ^ (shift + 7) + w % 128 * 2 ^ shift ≡ w * 2 ^ shift
regroup shift w =
    let place : w / 128 * 2 ^ (shift + 7) ≡ w / 128 * (128 * 2 ^ shift) =
      ap (λ (p : ℕ). w / 128 * p) (sym (seven_more shift)) in
    omega (arith, place, ap (λ (v : ℕ). v * 2 ^ shift) (div-add-mod w 128))

-- One round of the decoder on a last byte, and on a byte with the top bit set over the group `g`.
last_byte :
    (w acc shift : ℕ) (rest : Bytes)
    → w < 128
    → acc < 2 ^ shift
    → decode_uvarint_loop acc shift (w ∷ rest) ≡ ok (acc + w * 2 ^ shift, rest)
unfolding decode_uvarint_loop
last_byte w acc shift rest hw ha =
    ground (arith, low_group w, bit_and_top w, bit_or_disjoint shift acc w)

inner_byte :
    (g acc shift : ℕ) (rest : Bytes)
    → g < 128
    → acc < 2 ^ shift
    → decode_uvarint_loop acc shift ((g + 128) ∷ rest) ≡ (
        if leb 64 (shift + 7)
        then err uvarint_too_large
        else decode_uvarint_loop (acc + g * 2 ^ shift) (shift + 7) rest)
unfolding decode_uvarint_loop
inner_byte g acc shift rest hg ha =
    ground (arith, low_group (g + 128), bit_and_top (g + 128), bit_or_disjoint shift acc g)

fits-next : (g acc shift : ℕ) → g < 128 → acc < 2 ^ shift → acc + g * 2 ^ shift < 2 ^ (shift + 7)
fits-next g acc shift hg ha = rw (← seven_more shift) (grind arith)

-- The value of the bytes that are left, for `k + 1` bytes at most.
abbrev outcome : ℕ → ℕ → ℕ → ℕ → Bytes → Result (ℕ × Bytes)
outcome k w acc shift rest =
    if ltb w (128 ^ suc k) then ok (acc + w * 2 ^ shift, rest) else err uvarint_too_large

outcome_last :
    (k w acc shift : ℕ) (rest : Bytes)
    → w < 128
    → ok (acc + w * 2 ^ shift, rest) ≡ outcome k w acc shift rest
outcome_last k w acc shift rest h = ground (arith, pow-suc 128 k, one-le-pow k 128)

outcome_more :
    (k w acc shift : ℕ) (rest : Bytes)
    → outcome k (w / 128) (acc + w % 128 * 2 ^ shift) (shift + 7) rest
      ≡ outcome (suc k) w acc shift rest
outcome_more k w acc shift rest = ground (arith, pow-suc 128 (suc k), regroup shift w)

-- `k + 1` more bytes may be read, and `w` is what is still to be read.
decode-uvarint_loop :
    (k w acc shift : ℕ) (rest : Bytes)
    → shift + 7 * suc k ≡ 70
    → acc < 2 ^ shift
    → decode_uvarint_loop acc shift (uvarint w ++ rest) ≡ outcome k w acc shift rest
decode-uvarint_loop zero w acc shift rest hs ha = elim (dec_lt w 128) [
  | yes small ↦
      rw (uvarint_last w small)
        (last_byte w acc shift rest small ha ∙ outcome_last 0 w acc shift rest small)
  | no large ↦
      rw (uvarint_more w (omega arith))
        (inner_byte (w % 128) acc shift _ (omega arith) ha ∙ ground arith)
]
decode-uvarint_loop (suc k) w acc shift rest hs ha = elim (dec_lt w 128) [
  | yes small ↦
      rw (uvarint_last w small)
        (last_byte w acc shift rest small ha ∙ outcome_last (suc k) w acc shift rest small)
  | no large ↦ rw (uvarint_more w (omega arith)) (
      inner_byte (w % 128) acc shift _ (omega arith) ha
      ∙ ground (
        arith,
        decode-uvarint_loop k (w / 128) (acc + w % 128 * 2 ^ shift) (shift + 7) rest (omega arith)
            (fits-next (w % 128) acc shift (omega arith) ha),
        outcome_more k w acc shift rest,
      ))
]

-- `decode_uvarint` reads back, whatever follows, every number below 2 ^ 70 that `encode_uvarint`
-- wrote, and refuses the encoding of any other as too large.
pub decode-uvarint :
    (n : ℕ) (rest : Bytes)
    → decode_uvarint (uvarint n ++ rest)
      ≡ (if ltb n (2 ^ 70) then ok (n, rest) else err uvarint_too_large)
unfolding decode_uvarint
decode-uvarint n rest = decode-uvarint_loop 9 n 0 0 rest refl (omega arith) ∙ ground arith

pub Codes-uvarint : {n : ℕ} → n < 2 ^ 70 → Codes (encode_uvarint (pos n)) decode_uvarint n
unfolding encode_uvarint
Codes-uvarint {n} h = Codes-ok (uvarint n) n (λ rest. decode-uvarint n rest ∙ ground arith)
