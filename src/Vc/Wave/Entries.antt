-- ===== src/Vc/Wave/Entries.antt =====
-- python/src/trlog/_vc_data.py: an entry of a wave that was encoded is read back whatever follows.
use trlog.Prelude.{
  ℕ, zero, suc, ◌+◌, ◌*◌, ◌/◌, ◌%◌, ◌^◌, ◌<◌, ◌≡◌, ◌≢◌, refl, ap, ◌∙◌, bit_or, bit_and, false, ◌==◌,
  arith,
}
use trlog.Prelude.Bits.{bit_or_above, bit_and_mask}
use trlog.Prelude.Dict.{get}
use trlog.Prelude.Int.{pos}
use trlog.Prelude.Int.Bits.{◌<<◌, ◌|ℤ◌, ◌&ℤ◌}
use native.Mathlib.Nat.{pow-suc}
use trlog.Text.{Str}
use trlog.Wire.{Bytes, Result, ◌+++◌, Decoder, ◌>>=◌}
use trlog.Wire.Reads.{Codes, Codes-bind, Codes-map, Codes-map_eq, Codes-pack}
use trlog.Types.{SignalEncoding, two_state, four_state, nine_state, real, string, bitvec, analog}
use trlog.Codec.{decode_uvarint}
use trlog.Codec.Uvarint.{Codes-uvarint}
use trlog.Codec.Framed.{IsText, Codes-text}
use trlog.Codec.Field.RoundTrip.{Codes-big}
use trlog.Vc.{
  Sample, int, float, str, Interp, to_int, to_float, to_str, bytes_of, four_state_decode,
  four_state_code,
}
use trlog.Vc.Wave.{
  encode_binary, decode_binary, encode_entry, decode_entry, decode_marked, header, after,
  cell_sample,
}

-- Values that the reader gives back as they are.
pub data Fits : SignalEncoding → ℕ → Sample → Type 0 where
  one_bit : (n : ℕ) → n < 2 → Fits two_state 1 (int (pos n))
  number :
      (bit_width n : ℕ)
      → bit_width ≢ 1
      → n < 256 ^ bytes_of bit_width
      → Fits two_state bit_width (int (pos n))
  vector : (bit_width n : ℕ) → n < 256 ^ bytes_of bit_width → Fits bitvec bit_width (int (pos n))
  one_state : (code : ℕ) → code < 4 → Fits four_state 1 (cell_sample (four_state_decode code))
  known :
      (bit_width n : ℕ)
      → bit_width ≢ 1
      → n < 256 ^ bytes_of bit_width
      → Fits four_state bit_width (int (pos n))
  strong :
      (bit_width n : ℕ) → n < 256 ^ bytes_of bit_width → Fits nine_state bit_width (int (pos n))
  double : (bit_width x : ℕ) → x < 256 ^ 8 → Fits real bit_width (float x)
  level : (bit_width x : ℕ) → x < 256 ^ 8 → Fits analog bit_width (float x)
  text : (bit_width : ℕ) (s : Str) → IsText s → Fits string bit_width (str s)

above : (k q r : ℕ) {m : ℕ} → m ≡ q * 2 ^ k → r < 2 ^ k → bit_or m r ≡ m + r
above k q r e h = rw e (bit_or_above k r q h)

marked_head : (d b : ℕ) → b < 2 → (pos d << 1) |ℤ pos b ≡ pos (d * 2 + b)
unfolding ◌<<◌ ◌|ℤ◌
marked_head d b h = ap pos (bit_or_above 1 b d h)

bit_head :
    (k d n : ℕ)
    → n < 2 ^ k
    → ((pos d << suc k) |ℤ (pos n << 1)) |ℤ pos 1 ≡ pos (d * 2 ^ suc k + n * 2 + 1)
unfolding ◌<<◌ ◌|ℤ◌
bit_head k d n h =
    let place : d * 2 ^ suc k ≡ d * (2 ^ k * 2) = ap (λ (p : ℕ). d * p) (pow-suc 2 k) in
    let inner = bit_or_above (suc k) (n * 2) d (omega (arith, pow-suc 2 k)) in
    ap pos (rw inner (above 1 (d * 2 ^ k + n) 1 (omega (place, arith)) (omega arith)))

half_head : (d : ℕ) → (d * 2 + 1) / 2 ≡ d
half_head d = omega arith

odd_head : (d : ℕ) → bit_and (d * 2 + 1) 1 ≡ 1
odd_head d = bit_and_mask 1 (d * 2 + 1) ∙ omega arith

code_kept :
    (code : ℕ) → code < 4 → four_state_code (cell_sample (four_state_decode code)) ≡ pos code
unfolding four_state_code four_state_decode ◌&ℤ◌ get
code_kept zero h = refl
code_kept (suc zero) h = refl
code_kept (suc (suc zero)) h = refl
code_kept (suc (suc (suc zero))) h = refl
code_kept (suc (suc (suc (suc code)))) h = absurd (omega arith)

state_head : (d code : ℕ) → code < 4 → bit_and ((d * 8 + code * 2 + 1) / 2) 3 ≡ code
state_head d code h = bit_and_mask 2 ((d * 8 + code * 2 + 1) / 2) ∙ omega arith

same :
    (d code : ℕ)
    → code < 4
    → ◌≡◌ {A = ℕ × Sample}
        (
          (d * 8 + code * 2 + 1) / 8,
          cell_sample (four_state_decode (bit_and ((d * 8 + code * 2 + 1) / 2) 3)),
        )
        (d, cell_sample (four_state_decode code))
same d code h =
    let whole : (d * 8 + code * 2 + 1) / 8 ≡ d = omega arith in rw (whole, state_head d code h) refl

ne→== : (a b : ℕ) → a ≢ b → (a == b) ≡ false
ne→== a b h = ground (arith, h)

module _ (py : Interp) where
  Codes-binary :
      (bit_width n : ℕ)
      → n < 256 ^ bytes_of bit_width
      → Codes (encode_binary py bit_width (int (pos n))) (decode_binary bit_width) (int (pos n))
  unfolding encode_binary decode_binary to_int
  Codes-binary bit_width n h = Codes-big (λ m. int (pos m)) (bytes_of bit_width) n h

  -- The index and a value behind it.
  Codes-after :
      {r : Result Bytes} {p : Decoder Sample} (d : ℕ) {v : Sample}
      → Codes r p v
      → Codes r (after d p) (d, v)
  Codes-after d c = Codes-map (λ v. (d, v)) c

  -- A number behind a head that marks it as one.
  Codes-marked :
      {A : Type 0} (f : ℕ → Decoder A) (d b : ℕ) {r : Result Bytes} {a : A}
      → d < 2 ^ 60
      → b < 2
      → Codes r (f (d * 2 + b)) a
      → Codes (header (pos d) 1 (pos b) +++ r) (decode_uvarint >>= f) a
  Codes-marked f d b hd hb c =
      rw (marked_head d b hb) (Codes-bind f (Codes-uvarint (omega arith)) c)

  Codes-vector :
      (d bit_width n : ℕ)
      → d < 2 ^ 60
      → n < 256 ^ bytes_of bit_width
      → Codes
          (header (pos d) 1 (pos 1) +++ encode_binary py bit_width (int (pos n)))
          (decode_uvarint >>= λ head. after (head / 2) (decode_binary bit_width))
          (d, int (pos n))
  Codes-vector d bit_width n hd hn =
      Codes-marked _ d 1 hd (omega arith)
        (rw (half_head d) (Codes-after d (Codes-binary bit_width n hn)))

  Codes-known :
      (d bit_width n : ℕ) (packed : Decoder Sample)
      → d < 2 ^ 60
      → n < 256 ^ bytes_of bit_width
      → Codes
          (header (pos d) 1 (pos 1) +++ encode_binary py bit_width (int (pos n)))
          (decode_marked bit_width packed)
          (d, int (pos n))
  Codes-known d bit_width n packed hd hn =
      Codes-marked _ d 1 hd (omega arith)
        (rw (half_head d, odd_head d) (Codes-after d (Codes-binary bit_width n hn)))

  Codes-one_bit :
      (d n : ℕ)
      → d < 2 ^ 60
      → n < 2
      → Codes
          (encode_entry py two_state 1 (pos d) (int (pos n)))
          (decode_entry two_state 1)
          (d, int (pos n))
  unfolding encode_entry decode_entry ◌&ℤ◌ to_int
  Codes-one_bit d n hd hn =
      rw (bit_and_mask 1 n, small, bit_head 1 d n hn)
        (Codes-map_eq _ (ground (arith, bit_and_mask 1 ((d * 4 + n * 2 + 1) / 2)))
          (Codes-uvarint (omega arith)))
    where
      small : n % 2 ≡ n
      small = omega arith

  Codes-one_state :
      (d code : ℕ)
      → d < 2 ^ 60
      → code < 4
      → Codes
          (encode_entry py four_state 1 (pos d) (cell_sample (four_state_decode code)))
          (decode_entry four_state 1)
          (d, cell_sample (four_state_decode code))
  unfolding encode_entry decode_entry
  Codes-one_state d code hd hc =
      rw (code_kept code hc, bit_head 2 d code hc)
        (Codes-map_eq
          (λ (head : ℕ). (head / 8, cell_sample (four_state_decode (bit_and (head / 2) 3))))
          (same d code hc) (Codes-uvarint (omega arith)))

  -- An entry whose value fits is read back with its index.
  pub Codes-entry :
      (enc : SignalEncoding) (bit_width d : ℕ) (v : Sample)
      → d < 2 ^ 60
      → Fits enc bit_width v
      → Codes (encode_entry py enc bit_width (pos d) v) (decode_entry enc bit_width) (d, v)
  unfolding encode_entry decode_entry to_float to_str
  Codes-entry _ _ d _ hd (one_bit n hn) = Codes-one_bit d n hd hn
  Codes-entry _ _ d _ hd (number bit_width n one hn) =
      rw (ne→== bit_width 1 one) (Codes-vector d bit_width n hd hn)
  Codes-entry _ _ d _ hd (vector bit_width n hn) = Codes-vector d bit_width n hd hn
  Codes-entry _ _ d _ hd (one_state code hc) = Codes-one_state d code hd hc
  Codes-entry _ _ d _ hd (known bit_width n one hn) =
      rw (ne→== bit_width 1 one) (Codes-known d bit_width n _ hd hn)
  Codes-entry _ _ d _ hd (strong bit_width n hn) = Codes-known d bit_width n _ hd hn
  Codes-entry _ _ d _ hd (double bit_width x hx) =
      Codes-bind _ (Codes-uvarint (omega arith))
        (Codes-after d (Codes-map float (Codes-pack 8 x hx)))
  Codes-entry _ _ d _ hd (level bit_width x hx) =
      Codes-bind _ (Codes-uvarint (omega arith))
        (Codes-after d (Codes-map float (Codes-pack 8 x hx)))
  Codes-entry _ _ d _ hd (text bit_width s hs) =
      Codes-bind _ (Codes-uvarint (omega arith)) (Codes-after d (Codes-map str (Codes-text hs)))
