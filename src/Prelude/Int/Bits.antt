-- ===== src/Prelude/Int/Bits.antt =====
-- Python's `<<`, `>>`, `^`, `&`, `|` and `~` on integers of any size: two's complement with the
-- sign bit repeated for ever, where `negsuc n`, which is -(n + 1), has the digits of `n` flipped.
use Prim.Native.Nat.{ℕ, ◌+◌, ◌-◌, ◌*◌, ◌/◌, ◌^◌, bit_and, bit_or, bit_xor}
use trlog.Prelude.Int.{ℤ, pos, negsuc}

infixl 60 ◌<<◌ ◌>>ℤ◌
infixl 55 ◌&ℤ◌
infixl 54 ◌^ℤ◌
infixl 53 ◌|ℤ◌
unfoldable pub ◌<<◌ : ℤ → ℕ → ℤ
pos a << k = pos (a * 2 ^ k)
negsuc a << k = negsuc ((a + 1) * 2 ^ k - 1)

unfoldable pub ◌>>ℤ◌ : ℤ → ℕ → ℤ
pos a >>ℤ k = pos (a / 2 ^ k)
negsuc a >>ℤ k = negsuc (a / 2 ^ k)

unfoldable pub invert : ℤ → ℤ
invert (pos a) = negsuc a
invert (negsuc a) = pos a

-- the digits of `a` that `b` lacks
abbrev and_not : ℕ → ℕ → ℕ
and_not a b = a - bit_and a b

unfoldable pub ◌&ℤ◌ : ℤ → ℤ → ℤ
pos a &ℤ pos b = pos (bit_and a b)
pos a &ℤ negsuc b = pos (and_not a b)
negsuc a &ℤ pos b = pos (and_not b a)
negsuc a &ℤ negsuc b = negsuc (bit_or a b)

unfoldable pub ◌|ℤ◌ : ℤ → ℤ → ℤ
pos a |ℤ pos b = pos (bit_or a b)
pos a |ℤ negsuc b = negsuc (and_not b a)
negsuc a |ℤ pos b = negsuc (and_not a b)
negsuc a |ℤ negsuc b = negsuc (bit_and a b)

unfoldable pub ◌^ℤ◌ : ℤ → ℤ → ℤ
pos a ^ℤ pos b = pos (bit_xor a b)
pos a ^ℤ negsuc b = negsuc (bit_xor a b)
negsuc a ^ℤ pos b = negsuc (bit_xor a b)
negsuc a ^ℤ negsuc b = pos (bit_xor a b)
