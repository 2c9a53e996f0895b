-- ===== src/Wire.antt =====
-- What every block of the format is written and read with: byte strings, the exceptions that
-- python/src/trlog/_exceptions.py and the standard library raise, an encoder's result and a
-- decoder of bytes. A pair (buf, offset) of the source is the list of the bytes from offset on: a
-- read past the end finds the empty list, as `len(buf)` and `IndexError` do.
pub mod Reads
use trlog.Prelude.{ℕ, zero, suc, List, [], ◌∷◌, ◌++◌, ltb, if◌then◌else◌, take, drop, length, ◌*◌}
use trlog.Prelude.{◌/◌, ◌%◌, ◌^◌, ◌+◌, Bool, ◌≡◌, refl, ◌⊎◌, inl, inr}

abbrev pub Bytes : Type 0
Bytes = List ℕ

pub data Error : Type 0 where
  -- ValueError of the varint codec
  negative_uvarint truncated_uvarint uvarint_too_large : Error
  -- the standard library's exceptions
  value_error index_error struct_error overflow_error key_error unicode_error type_error
        attribute_error runtime_error :
      Error
  import_error eof_error not_implemented_error : Error
  -- no Python exception: a loop of the model ran out of rounds
  out_of_fuel : Error
  -- _exceptions.py
  format_error dependency_error magic_error version_error no_index_error : Error

pub data Result {ℓ} (A : Type ℓ) : Type ℓ where
  ok : A → Result A
  err : Error → Result A

abbrev pub bind {ℓ κ} : {A : Type ℓ} {B : Type κ} → Result A → (A → Result B) → Result B
bind (ok a) f = f a
bind (err e) f = err e

pub Result-cases {ℓ} :
    {A : Type ℓ} (r : Result A) → ((a : A) × (r ≡ ok a)) ⊎ ((e : Error) × (r ≡ err e))
Result-cases (ok a) = inl (a, refl)
Result-cases (err e) = inr (e, refl)

-- Inversion of a chain that succeeds.
pub bind-eq-ok {ℓ κ} :
    {A : Type ℓ} {B : Type κ} (r : Result A) (f : A → Result B) {b : B}
    → bind r f ≡ ok b
    → (a : A) × (r ≡ ok a) × (f a ≡ ok b)
bind-eq-ok (ok a) f h = (a, refl, h)
bind-eq-ok (err e) f h = cc

-- `out += a; out += b`: the first exception ends the encoder.
infixr 67 ◌+++◌
unfoldable pub ◌+++◌ : Result Bytes → Result Bytes → Result Bytes
ok a +++ ok b = ok (a ++ b)
ok a +++ err e = err e
err e +++ b = err e

abbrev pub concat : List (Result Bytes) → Result Bytes
concat [] = ok []
concat (r ∷ rs) = r +++ concat rs

-- `for x in xs: out += f(x)`
unfoldable pub concat_map {ℓ} : {A : Type ℓ} → (A → Result Bytes) → List A → Result Bytes
concat_map f [] = ok []
concat_map f (x ∷ xs) = f x +++ concat_map f xs

abbrev pub Decoder {ℓ} : Type ℓ → Type ℓ
Decoder A = Bytes → Result (A × Bytes)

unfoldable pub pure {ℓ} : {A : Type ℓ} → A → Decoder A
pure a buf = ok (a, buf)

unfoldable pub raise {ℓ} : {A : Type ℓ} → Error → Decoder A
raise e buf = err e

module _ {ℓ κ} {A : Type ℓ} {B : Type κ} where
  infixl 5 ◌>>=◌ ◌>>◌
  unfoldable pub ◌>>=◌ : Decoder A → (A → Decoder B) → Decoder B
  p >>= f = λ buf. bind (p buf) λ (a, rest). f a rest

  abbrev pub ◌>>◌ : Decoder A → Decoder B → Decoder B
  p >> q = p >>= λ _. q

-- A conversion that may raise.
unfoldable pub lift {ℓ} : {A : Type ℓ} → Result A → Decoder A
lift r buf = bind r λ a. ok (a, buf)

-- `out.append(b)` of a bytearray
unfoldable pub append_byte : ℕ → Result Bytes
append_byte b = if ltb b 256 then ok (b ∷ []) else err value_error

-- `buf[offset]; offset += 1`
unfoldable pub read_byte : Decoder ℕ
read_byte [] = err index_error
read_byte (b ∷ rest) = ok (b, rest)

-- `bytes(buf[offset:offset + n]); offset += n`: a slice is cut at the end of the buffer.
unfoldable pub read_slice : ℕ → Decoder Bytes
read_slice n buf = ok (take n buf, drop n buf)

-- `for _ in range(n): x, offset = p(buf, offset); xs.append(x)`
unfoldable pub repeat {ℓ} : {A : Type ℓ} → ℕ → Decoder A → Decoder (List A)
repeat zero p = pure []
repeat (suc n) p = do x ← p; xs ← repeat n p; pure (x ∷ xs)

-- The low `w` bytes of a number, lowest first: `int.to_bytes(w, 'little')`.
unfoldable pub le_bytes : ℕ → ℕ → Bytes
le_bytes zero v = []
le_bytes (suc w) v = (v % 256) ∷ le_bytes w (v / 256)

unfoldable pub from_le : Bytes → ℕ
from_le [] = 0
from_le (b ∷ bs) = b + 256 * from_le bs

-- `struct.pack` of an unsigned little-endian field of `w` bytes ('<B', '<H', '<I', '<Q').
unfoldable pub pack : ℕ → ℕ → Result Bytes
pack w v = if ltb v (256 ^ w) then ok (le_bytes w v) else err struct_error

-- `struct.unpack_from` of the same: too short a buffer is an error.
unfoldable pub unpack : ℕ → Decoder ℕ
unpack w buf =
    if ltb (length buf) w then err struct_error else ok (from_le (take w buf), drop w buf)
