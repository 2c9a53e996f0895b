-- ===== src/Floats.antt =====
-- Python's float as the 64 bits of an IEEE 754 double, which `struct.pack('<d', x)` writes. The
-- conversions between floats and integers are the interpreter's, and are given as a parameter.
use trlog.Prelude.{ℕ, ◌%◌, ◌^◌, ◌==◌, Bool, not}
use trlog.Prelude.Int.{ℤ}
use trlog.Wire.{Result}

abbrev pub Float : Type 0
Float = ℕ

-- `float(n)`, which raises OverflowError on a large `n`, and `int(x)`, which raises on an infinity
-- and on NaN.
pub record Floats : Type 0 where
  pub from_int : ℤ → Result Float
  pub truncate : Float → Result ℤ

-- `bool(x)`: both zeros are false.
abbrev pub is_nonzero : Float → Bool
is_nonzero x = not (x % 2 ^ 63 == 0)
