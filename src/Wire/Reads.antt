-- ===== src/Wire/Reads.antt =====
-- An encoder and a decoder that fit: the encoder returns bytes, and the decoder reads the value
-- off their front whatever follows. One rule for each way in which the codecs are built.
use trlog.Prelude.{ℕ, zero, suc, ◌/◌, ◌^◌, ◌<◌, ◌≡◌, refl, ap}
use trlog.Prelude.{map, List, [], ◌∷◌, ◌++◌, append_assoc, append-nil, arith, ltb, length}
use trlog.Prelude.{take, drop, length-append, lt→ltb}
use trlog.Wire.{Bytes, Result, ok, err, ◌+++◌, concat_map, Decoder, pure, ◌>>=◌}
use trlog.Prelude.{false}
use trlog.Wire.{lift, append_byte}
use trlog.Wire.{read_byte, read_slice, repeat, le_bytes, from_le, pack, unpack}
use native.Mathlib.Nat.{pow-suc}

pub record Codes {ℓ} {A : Type ℓ} (r : Result Bytes) (p : Decoder A) (a : A) : Type ℓ where
  pub bytes : Bytes
  pub encoded : r ≡ ok bytes
  pub decoded : (rest : Bytes) → p (bytes ++ rest) ≡ ok (a, rest)

-- The same for bytes that are at hand.
abbrev pub Reads {ℓ} : {A : Type ℓ} → Decoder A → Bytes → A → Type ℓ
Reads p bs a = (rest : Bytes) → p (bs ++ rest) ≡ ok (a, rest)

module _ {ℓ} {A : Type ℓ} where
  pub Codes-ok : {p : Decoder A} (bs : Bytes) (a : A) → Reads p bs a → Codes (ok bs) p a
  Codes-ok bs a h = record { bytes = bs; encoded = refl; decoded = h }

  pub Codes-pure : (a : A) → Codes (ok []) (pure a) a
  unfolding pure
  Codes-pure a = record { bytes = []; encoded = refl; decoded = λ rest. refl }

module _ {ℓ κ} {A : Type ℓ} {B : Type κ} where
  pub Codes-bind :
      {r s : Result Bytes} {p : Decoder A} (f : A → Decoder B) {a : A} {b : B}
      → Codes r p a
      → Codes s (f a) b
      → Codes (r +++ s) (p >>= f) b
  unfolding ◌+++◌ ◌>>=◌
  Codes-bind f c d = record {
    bytes = c.bytes ++ d.bytes;
    encoded = rw (c.encoded, d.encoded);
    decoded = λ rest. rw (append_assoc, c.decoded) (d.decoded rest);
  }

-- The last step of a decoder writes nothing.
pub Codes-map {ℓ κ} :
    {A : Type ℓ} {B : Type κ} {r : Result Bytes} {p : Decoder A} {a : A} (g : A → B)
    → Codes r p a
    → Codes r (p >>= λ x. pure (g x)) (g a)
unfolding ◌>>=◌ pure
Codes-map g c = record { bytes = c.bytes; encoded = c.encoded; decoded = λ rest. rw c.decoded }

pub Codes-lift {ℓ κ} :
    {A : Type ℓ} {B : Type κ} {r : Result Bytes} {p : Decoder A} {a : A} (g : A → Result B) {b : B}
    → g a ≡ ok b
    → Codes r p a
    → Codes r (p >>= λ x. lift (g x)) b
unfolding ◌>>=◌ lift
Codes-lift g e c = record {
  bytes = c.bytes;
  encoded = c.encoded;
  decoded = λ rest. rw (c.decoded, e);
}

-- A conversion in the middle of a decoder.
pub Codes-lift_bind {ℓ κ} :
    {A : Type ℓ} {B : Type κ} {r : Result Bytes} {g : Result A} (f : A → Decoder B) {a : A} {b : B}
    → g ≡ ok a
    → Codes r (f a) b
    → Codes r (lift g >>= f) b
unfolding ◌>>=◌ lift
Codes-lift_bind f e c = record {
  bytes = c.bytes;
  encoded = c.encoded;
  decoded = λ rest. rw e (c.decoded rest);
}

-- The same where the last step undoes a conversion of the encoder.
pub Codes-map_eq {ℓ κ} :
    {A : Type ℓ} {B : Type κ} {r : Result Bytes} {p : Decoder A} {a : A} (g : A → B) {b : B}
    → g a ≡ b
    → Codes r p a
    → Codes r (p >>= λ x. pure (g x)) b
Codes-map_eq g e c = rw (← e) (Codes-map g c)

pub Codes-byte : (b : ℕ) → Codes (ok (b ∷ [])) read_byte b
unfolding read_byte
Codes-byte b = Codes-ok (b ∷ []) b (λ rest. refl)

pub Codes-append_byte : (b : ℕ) → b < 256 → Codes (append_byte b) read_byte b
unfolding append_byte
Codes-append_byte b h = rw (lt→ltb b 256 h) (Codes-byte b)

pub take_front : (bs rest : Bytes) → take (length bs) (bs ++ rest) ≡ bs
take_front [] rest = refl
take_front (b ∷ bs) rest = rw (take_front bs rest)

pub drop_front : (bs rest : Bytes) → drop (length bs) (bs ++ rest) ≡ rest
drop_front [] rest = refl
drop_front (b ∷ bs) rest = drop_front bs rest

pub Codes-slice : (bs : Bytes) → Codes (ok bs) (read_slice (length bs)) bs
unfolding read_slice
Codes-slice bs = Codes-ok bs bs (λ rest. rw (take_front bs rest, drop_front bs rest))

abbrev pub All {ℓ κ} : {A : Type ℓ} → (A → Type κ) → List A → Type κ
All P [] = Unit
All P (x ∷ xs) = P x × All P xs

-- A counted loop reads back what a loop over the list wrote.
pub Codes-repeat {ℓ κ} :
    {A : Type ℓ} (P : A → Type κ) (f : A → Result Bytes) (p : Decoder A)
    → ((x : A) → P x → Codes (f x) p x)
    → (xs : List A) → All P xs
    → Codes (concat_map f xs) (repeat (length xs) p) xs
unfolding concat_map repeat
Codes-repeat P f p each [] h = Codes-pure []
Codes-repeat P f p each (x ∷ xs) h =
    Codes-bind _ (each x h.0) (Codes-map (λ ys. x ∷ ys) (Codes-repeat P f p each xs h.1))

-- The same where the decoder leaves out a part of what was written.
pub Codes-repeat_map {ℓ κ ι} :
    {A : Type ℓ} {B : Type ι} (P : A → Type κ) (f : A → Result Bytes) (p : Decoder B) (g : A → B)
    → ((x : A) → P x → Codes (f x) p (g x))
    → (xs : List A) → All P xs
    → Codes (concat_map f xs) (repeat (length xs) p) (map g xs)
unfolding concat_map repeat
Codes-repeat_map P f p g each [] h = Codes-pure []
Codes-repeat_map P f p g each (x ∷ xs) h =
    Codes-bind _ (each x h.0) (Codes-map (λ ys. g x ∷ ys) (Codes-repeat_map P f p g each xs h.1))

pub length-le_bytes : (w v : ℕ) → length (le_bytes w v) ≡ w
unfolding le_bytes
length-le_bytes zero v = refl
length-le_bytes (suc w) v = ap suc (length-le_bytes w (v / 256))

pub from_le-le_bytes : (w v : ℕ) → v < 256 ^ w → from_le (le_bytes w v) ≡ v
unfolding le_bytes from_le
from_le-le_bytes zero v h = omega arith
from_le-le_bytes (suc w) v h =
    omega (arith, pow-suc 256 w, from_le-le_bytes w (v / 256) (omega (arith, pow-suc 256 w)))

unpack_front : (bs rest : Bytes) → unpack (length bs) (bs ++ rest) ≡ ok (from_le bs, rest)
unfolding unpack
unpack_front bs rest = rw (long_enough, take_front bs rest, drop_front bs rest)
  where
    long_enough : ltb (length (bs ++ rest)) (length bs) ≡ false
    long_enough = ground (arith, length-append bs rest)

pub unpack-le_bytes : (w v : ℕ) → v < 256 ^ w → Reads (unpack w) (le_bytes w v) v
unpack-le_bytes w v h rest =
    rw (length-le_bytes, from_le-le_bytes w v h) at (unpack_front (le_bytes w v) rest)

pub pack-le_bytes : (w v : ℕ) → v < 256 ^ w → pack w v ≡ ok (le_bytes w v)
unfolding pack
pack-le_bytes w v h = rw (lt→ltb v (256 ^ w) h)

pub Codes-pack : (w v : ℕ) → v < 256 ^ w → Codes (pack w v) (unpack w) v
Codes-pack w v h = record {
  bytes = le_bytes w v;
  encoded = pack-le_bytes w v h;
  decoded = unpack-le_bytes w v h;
}

pub pack-fits : (w v : ℕ) {bs : Bytes} → pack w v ≡ ok bs → v < 256 ^ w
unfolding pack
pack-fits w v e = ground (arith, e)

pub +++-eq-ok :
    (r s : Result Bytes) {bs : Bytes}
    → r +++ s ≡ ok bs
    → (a : Bytes) × (b : Bytes) × (r ≡ ok a) × (s ≡ ok b)
unfolding ◌+++◌
+++-eq-ok (ok a) (ok b) e = (a, b, refl, refl)
+++-eq-ok (ok a) (err x) e = cc
+++-eq-ok (err x) s e = cc

+++-nil : (r : Result Bytes) → r +++ ok [] ≡ r
unfolding ◌+++◌
+++-nil (ok a) = ap ok (append-nil a)
+++-nil (err e) = refl

-- A last step that reads nothing.
pub Codes-bind_last {ℓ κ} :
    {A : Type ℓ} {B : Type κ} {r : Result Bytes} {p : Decoder A} (f : A → Decoder B) {a : A} {b : B}
    → Codes r p a
    → Codes (ok []) (f a) b
    → Codes r (p >>= f) b
Codes-bind_last {r = r} f c d = rw (+++-nil r) at (Codes-bind f c d)

pub +++_assoc : (r s t : Result Bytes) → (r +++ s) +++ t ≡ r +++ (s +++ t)
unfolding ◌+++◌
+++_assoc (ok a) (ok b) (ok c) = ap ok (append_assoc a b c)
+++_assoc (ok a) (ok b) (err e) = refl
+++_assoc (ok a) (err e) t = refl
+++_assoc (err e) s t = refl
