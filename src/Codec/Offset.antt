-- ===== src/Codec/Offset.antt =====
-- `decode_uvarint(buf, offset)` as the source writes it, over the whole buffer and an index. The
-- other modules read from the bytes after the offset instead; here the two are compared.
use trlog.Prelude.{
  ℕ, zero, suc, ◌+◌, ◌*◌, ◌-◌, ◌^◌, ◌<◌, ◌≤◌, ◌≡◌, refl, bit_and, bit_or, [], ◌∷◌, leb, ◌==◌,
  if◌then◌else◌, length, drop, length-drop, get_elem?, none, some, arith,
}
use trlog.Prelude.{Option-cases, inl, inr}
use native.Mathlib.Numerals.{add-one}
use trlog.Wire.{Bytes, Result, ok, err, bind, truncated_uvarint, uvarint_too_large, out_of_fuel}
use trlog.Codec.{decode_uvarint_loop, decode_uvarint}

-- The shift grows by 7 and the loop ends at 64, so ten rounds are enough.
unfoldable pub decode_uvarint_at_loop : ℕ → Bytes → ℕ → ℕ → ℕ → Result (ℕ × ℕ)
decode_uvarint_at_loop zero buf offset result shift = err out_of_fuel
decode_uvarint_at_loop (suc fuel) buf offset result shift = elim (get_elem? buf offset) [
  | none ↦ err truncated_uvarint
  | some byte ↦
      let result' = bit_or result (bit_and byte 0x7F * 2 ^ shift) in
      let more = decode_uvarint_at_loop fuel buf (offset + 1) result' (shift + 7) in
      if bit_and byte 0x80 == 0
      then ok (result', offset + 1)
      else if leb 64 (shift + 7)
      then err uvarint_too_large
      else more
]

unfoldable pub decode_uvarint_at : Bytes → ℕ → Result (ℕ × ℕ)
decode_uvarint_at buf offset = decode_uvarint_at_loop 10 buf offset 0 0

-- the new offset, from the bytes that are left
abbrev pub at_offset : Bytes → Result (ℕ × Bytes) → Result (ℕ × ℕ)
at_offset buf r = bind r λ (v, rest). ok (v, length buf - length rest)

drop-get_none : (buf : Bytes) (i : ℕ) → get_elem? buf i ≡ none → drop i buf ≡ []
drop-get_none [] zero e = refl
drop-get_none [] (suc i) e = refl
drop-get_none (b ∷ bs) zero e = cc
drop-get_none (b ∷ bs) (suc i) e = drop-get_none bs i e

drop-get_some :
    (buf : Bytes) (i b : ℕ) → get_elem? buf i ≡ some b → drop i buf ≡ b ∷ drop (suc i) buf
drop-get_some [] i b e = cc
drop-get_some (x ∷ bs) zero b e = cc
drop-get_some (x ∷ bs) (suc i) b e = drop-get_some bs i b e

get_some-lt : (buf : Bytes) (i b : ℕ) → get_elem? buf i ≡ some b → i < length buf
get_some-lt [] i b e = cc
get_some-lt (x ∷ bs) zero b e = omega arith
get_some-lt (x ∷ bs) (suc i) b e = omega (arith, get_some-lt bs i b e)

next_offset :
    (buf : Bytes) (i b : ℕ)
    → get_elem? buf i ≡ some b
    → length buf - length (drop (suc i) buf) ≡ i + 1
next_offset buf i b e = omega (arith, length-drop (suc i) buf, get_some-lt buf i b e)

decode_uvarint_at_loop_lem :
    (fuel : ℕ) (buf : Bytes) (offset result shift : ℕ)
    → shift < 64
    → 64 ≤ shift + 7 * fuel
    → decode_uvarint_at_loop fuel buf offset result shift
      ≡ at_offset buf (decode_uvarint_loop result shift (drop offset buf))
unfolding decode_uvarint_at_loop decode_uvarint_loop
decode_uvarint_at_loop_lem zero buf offset result shift lo hi = absurd (omega arith)
decode_uvarint_at_loop_lem (suc fuel) buf offset result shift lo hi =
    elim (Option-cases (get_elem? buf offset)) [
      | inl end ↦ rw (end, decode_uvarint_at_loop, drop-get_none buf offset end)
      | inr (b, e) ↦
          rw (e, decode_uvarint_at_loop, drop-get_some buf offset b e)
            (ground (
              arith,
              add-one offset,
              next_offset buf offset b e,
              decode_uvarint_at_loop_lem fuel buf (offset + 1)
                  (bit_or result (bit_and b 0x7F * 2 ^ shift)) (shift + 7),
            ))
    ]

-- The decoder over a whole buffer and an offset gives, on every input, the value, the new offset or
-- the error of the decoder that is given the bytes from that offset on.
pub decode_uvarint_at_lem :
    (buf : Bytes) (offset : ℕ)
    → decode_uvarint_at buf offset ≡ at_offset buf (decode_uvarint (drop offset buf))
unfolding decode_uvarint_at decode_uvarint
decode_uvarint_at_lem buf offset =
    decode_uvarint_at_loop_lem 10 buf offset 0 0 (omega arith) (omega arith)
