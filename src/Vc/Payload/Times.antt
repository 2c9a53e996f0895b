-- ===== src/Vc/Payload/Times.antt =====
-- python/src/trlog/_vc_data.py: the table of the times of a block is read back.
use trlog.Prelude.{
  ℕ, ◌+◌, ◌-◌, ◌^◌, ◌<◌, ◌≤◌, ◌≡◌, refl, List, [], ◌∷◌, length, append-nil, Bool, true, false, ltb,
  arith, ◌∙◌, ◌++◌, ◌⊎◌, inl, inr,
}
use native.Mathlib.Decide.{dec_lt}
use trlog.Prelude.Int.{pos, negsuc, sub_ℕ}
use trlog.Wire.{Bytes, ok, err, negative_uvarint, ◌+++◌, ◌>>=◌, lift, read_slice}
use trlog.Wire.Reads.{Codes, Codes-bind, Codes-map, Codes-pure, Codes-lift, Codes-slice}
use trlog.Codec.{uvarint, encode_uvarint, decode_uvarint}
use trlog.Codec.Uvarint.{Codes-uvarint}
use trlog.Compression.{Compression, IsSound}
use trlog.Vc.Payload.{encode_deltas, decode_deltas, encode_times, decode_times, parse_deltas}

-- Times in order from the start, that a varint has room for.
abbrev pub Ordered : ℕ → List ℕ → Type 0
Ordered start [] = Unit
Ordered start (t ∷ ts) = (start ≤ t) × (t < 2 ^ 70) × Ordered t ts

difference : (t start : ℕ) → start ≤ t → sub_ℕ t start ≡ pos (t - start)
difference t start h = ground (arith, h)

Codes-deltas :
    (start : ℕ) (ts : List ℕ)
    → Ordered start ts
    → Codes (encode_deltas start ts) (decode_deltas start (length ts)) ts
unfolding encode_deltas decode_deltas
Codes-deltas start [] h = Codes-pure []
Codes-deltas start (t ∷ ts) (above, few, h) =
    let there : start + (t - start) ≡ t = omega arith in
    rw (difference t start above) (
      Codes-bind _ (Codes-uvarint (omega arith))
        (rw there (Codes-map (λ rest. t ∷ rest) (Codes-deltas t ts h))))

module _ (c : Compression) (s : IsSound c) where
  Codes-packed :
      (start : ℕ) (ts : List ℕ) {deltas : Bytes}
      → Ordered start ts
      → encode_deltas start ts ≡ ok deltas
      → length (c.zlib.compress deltas) < 2 ^ 70
      → Codes
          (encode_uvarint (pos (length (c.zlib.compress deltas))) +++ ok (c.zlib.compress deltas))
          (decode_uvarint >>= λ n.
            read_slice n >>= λ compressed. lift (parse_deltas c start (length ts) compressed))
          ts
  Codes-packed start ts {deltas} h e few =
      Codes-bind _ (Codes-uvarint few) (Codes-lift _ parsed (Codes-slice (c.zlib.compress deltas)))
    where
      d : Codes (encode_deltas start ts) (decode_deltas start (length ts)) ts
      d = Codes-deltas start ts h

      same : d.bytes ≡ deltas
      same = cc (d.encoded, e)

      plain : decode_deltas start (length ts) deltas ≡ ok (ts, [])
      plain = rw (append-nil d.bytes, same) at (d.decoded [])

      parsed : parse_deltas c start (length ts) (c.zlib.compress deltas) ≡ ok ts
      parsed = rw (s.zlib_lossless deltas, plain) refl

  -- The table of the times, compressed or not, is read back whatever follows, where the times are in
  -- order from the start of the block and the lengths are such that a varint has room for them.
  pub Codes-times :
      (compress_time : Bool) (start : ℕ) (ts : List ℕ)
      → Ordered start ts
      → length ts < 2 ^ 70
      → ((deltas : Bytes)
          → encode_deltas start ts ≡ ok deltas
          → length (c.zlib.compress deltas) < 2 ^ 70)
      → Codes (encode_times c compress_time start ts) (decode_times c compress_time start) ts
  unfolding encode_times decode_times
  Codes-times false start ts h few short =
      Codes-bind _ (Codes-uvarint few) (Codes-deltas start ts h)
  Codes-times true start [] h few short = Codes-bind _ (Codes-uvarint few) (Codes-deltas start [] h)
  Codes-times true start (t ∷ ts) h few short =
      let d = Codes-deltas start (t ∷ ts) h in
      let some_times : ltb 0 (length (t ∷ ts)) ≡ true = ground arith in
      rw d.encoded (
        Codes-bind _ (Codes-uvarint few)
          (rw some_times (Codes-packed start (t ∷ ts) h d.encoded (short d.bytes d.encoded))))

abbrev pub Rising : ℕ → List ℕ → Type 0
Rising start [] = Unit
Rising start (t ∷ ts) = (start ≤ t) × Rising t ts

first_delta :
    (start t : ℕ) (ts : List ℕ) → t < start → encode_deltas start (t ∷ ts) ≡ err negative_uvarint
unfolding encode_deltas encode_uvarint ◌+++◌
first_delta start t ts h =
    let below : sub_ℕ t start ≡ negsuc (start - t - 1) = ground (arith, h) in rw below refl

next_delta :
    (start t : ℕ) (ts : List ℕ)
    → start ≤ t
    → encode_deltas start (t ∷ ts) ≡ encode_uvarint (pos (t - start)) +++ encode_deltas t ts
unfolding encode_deltas
next_delta start t ts h = rw (difference t start h) refl

-- The table of the times is written if they rise from the start of the block, a time perhaps more
-- than once, and otherwise the encoder raises: a change before the start cannot be written.
pub encode_deltas-cases :
    (start : ℕ) (ts : List ℕ)
    → (Rising start ts × ((bs : Bytes) × (encode_deltas start ts ≡ ok bs)))
      ⊎ ((Rising start ts → ⊥) × (encode_deltas start ts ≡ err negative_uvarint))
unfolding ◌+++◌ encode_uvarint
encode_deltas-cases start [] = inl (tt, ([], unfold encode_deltas in refl))
encode_deltas-cases start (t ∷ ts) = elim (dec_lt t start) [
  | yes below ↦ inr ((λ h. absurd (omega (arith, h.0, below))), first_delta start t ts below)
  | no not_below ↦
      let above : start ≤ t = omega (arith, not_below) in
      elim (encode_deltas-cases t ts) [
        | inl (rising, (bs, e)) ↦
            inl (
              (above, rising),
              (uvarint (t - start) ++ bs, next_delta start t ts above ∙ rw e refl),
            )
        | inr (falls, e) ↦ inr ((λ h. falls h.1), next_delta start t ts above ∙ rw e refl)
      ]
]
