-- ===== src/Derived/Value.antt =====
-- python/src/trlog/_derived.py: what the operators of the expression language mean as arithmetic on
-- whole numbers, without shifts and masks, and that the evaluator's operations are these.
use trlog.Prelude.{
  ℕ, ◌-◌, ◌/◌, ◌%◌, ◌^◌, ◌<◌, ◌≡◌, refl, ◌∙◌, ap, arith, Bool, true, false, not, ◌==◌, ◌&&◌,
}
use native.Mathlib.Nat.{one-le-pow}
use trlog.Prelude.Bits.{bit_and_mask, bit_or_above, bit_and_comm, ones_below}
use trlog.Prelude.Int.{ℤ, pos, negsuc, pos_part, neg_part, ◌+ℤ◌, ◌-ℤ◌, ◌*ℤ◌}
use trlog.Prelude.Int.Bits.{◌<<◌, ◌>>ℤ◌, invert, ◌&ℤ◌, ◌|ℤ◌, ◌^ℤ◌}
use trlog.Derived.{
  UnaryOp, op_not, op_lnot, BinaryOp, op_and, op_or, op_xor, op_eq, op_ne, Shift, op_shl, op_shr,
  Reduction, op_red_and, op_red_or, eq_ℤ, mask, bit, apply_unary, apply_binary, apply_shift,
  apply_reduction, slice, concat_bits,
}

-- The quotient by a power of 2, rounded down, and the remainder, which is never negative.
abbrev pub div_pow : ℤ → ℕ → ℤ
div_pow (pos a) k = pos (a / 2 ^ k)
div_pow (negsuc a) k = negsuc (a / 2 ^ k)

abbrev pub mod_pow : ℤ → ℕ → ℕ
mod_pow (pos a) k = a % 2 ^ k
mod_pow (negsuc a) k = 2 ^ k - 1 - a % 2 ^ k

abbrev pub same_ℤ : ℤ → ℤ → Bool
same_ℤ a b = pos_part a == pos_part b && neg_part a == neg_part b

abbrev pub truth : Bool → ℤ
truth true = pos 1
truth false = pos 0

abbrev pub unary_value : UnaryOp → ℤ → ℤ
unary_value op_not a = negsuc 0 -ℤ a
unary_value op_lnot a = truth (same_ℤ a (pos 0))

-- `&`, `|` and `^` are those of Python.
abbrev pub binary_value : BinaryOp → ℤ → ℤ → ℤ
binary_value op_and a b = a &ℤ b
binary_value op_or a b = a |ℤ b
binary_value op_xor a b = a ^ℤ b
binary_value op_eq a b = truth (same_ℤ a b)
binary_value op_ne a b = truth (not (same_ℤ a b))

abbrev pub shift_value : Shift → ℤ → ℕ → ℤ
shift_value op_shl a k = a *ℤ pos (2 ^ k)
shift_value op_shr a k = div_pow a k

-- Whether the low digits are all 1, and whether any is.
abbrev pub reduction_value : Reduction → ℤ → ℕ → ℤ
reduction_value op_red_and a w = truth (mod_pow a w == 2 ^ w - 1)
reduction_value op_red_or a w = truth (not (mod_pow a w == 0))

abbrev pub slice_value : ℤ → ℕ → ℕ → ℤ
slice_value a lo w = pos (mod_pow (div_pow a lo) w)

abbrev pub concat_value : ℤ → ℤ → ℕ → ℤ
concat_value a b wb = a *ℤ pos (2 ^ wb) +ℤ pos (mod_pow b wb)

-- The quotient and the remainder are those of Euclid.
div_mod : (a : ℤ) (k : ℕ) → div_pow a k *ℤ pos (2 ^ k) +ℤ pos (mod_pow a k) ≡ a
unfolding ◌*ℤ◌ ◌+ℤ◌
div_mod (pos a) k = ground (arith, one-le-pow k 2)
div_mod (negsuc a) k = ground (arith, one-le-pow k 2)

and_mask : (a : ℤ) (k : ℕ) → a &ℤ pos (2 ^ k - 1) ≡ pos (mod_pow a k)
unfolding ◌&ℤ◌
and_mask (pos a) k = ap pos (bit_and_mask k a)
and_mask (negsuc a) k =
    ap (λ (n : ℕ). pos (2 ^ k - 1 - n)) (bit_and_comm (2 ^ k - 1) a ∙ bit_and_mask k a)

eq_ℤ-same : (a b : ℤ) → eq_ℤ a b ≡ same_ℤ a b
unfolding eq_ℤ
eq_ℤ-same (pos a) (pos b) = ground arith
eq_ℤ-same (pos a) (negsuc b) = ground arith
eq_ℤ-same (negsuc a) (pos b) = ground arith
eq_ℤ-same (negsuc a) (negsuc b) = ground arith

bit-truth : (b : Bool) → bit b ≡ truth b
bit-truth true = refl
bit-truth false = refl

pub apply_unary_lem : (op : UnaryOp) (a : ℤ) → apply_unary op a ≡ unary_value op a
unfolding apply_unary
apply_unary_lem op_not (pos a) = unfold invert ◌-ℤ◌ in ground arith
apply_unary_lem op_not (negsuc a) = unfold invert ◌-ℤ◌ in ground arith
apply_unary_lem op_lnot a = bit-truth (eq_ℤ a (pos 0)) ∙ ap truth (eq_ℤ-same a (pos 0))

pub apply_binary_lem : (op : BinaryOp) (a b : ℤ) → apply_binary op a b ≡ binary_value op a b
unfolding apply_binary
apply_binary_lem op_and a b = refl
apply_binary_lem op_or a b = refl
apply_binary_lem op_xor a b = refl
apply_binary_lem op_eq a b = bit-truth (eq_ℤ a b) ∙ ap truth (eq_ℤ-same a b)
apply_binary_lem op_ne a b = bit-truth (not (eq_ℤ a b)) ∙ ap (λ t. truth (not t)) (eq_ℤ-same a b)

shift_left : (a : ℤ) (k : ℕ) → a << k ≡ a *ℤ pos (2 ^ k)
unfolding ◌<<◌ ◌*ℤ◌
shift_left (pos a) k = ground arith
shift_left (negsuc a) k = ground (arith, one-le-pow k 2)

pub apply_shift_lem : (op : Shift) (a : ℤ) (k : ℕ) → apply_shift op a k ≡ shift_value op a k
unfolding apply_shift
apply_shift_lem op_shl a k = shift_left a k
apply_shift_lem op_shr (pos a) k = unfold ◌>>ℤ◌ in refl
apply_shift_lem op_shr (negsuc a) k = unfold ◌>>ℤ◌ in refl

pub apply_reduction_lem :
    (op : Reduction) (a : ℤ) (w : ℕ) → apply_reduction op a w ≡ reduction_value op a w
unfolding apply_reduction mask
apply_reduction_lem op_red_and a w = rw (and_mask a w, bit-truth) (unfold eq_ℤ in refl)
apply_reduction_lem op_red_or a w = rw (and_mask a w, bit-truth) (unfold eq_ℤ in refl)

shift_right : (a : ℤ) (k : ℕ) → a >>ℤ k ≡ div_pow a k
unfolding ◌>>ℤ◌
shift_right (pos a) k = refl
shift_right (negsuc a) k = refl

pub slice_lem : (a : ℤ) (lo w : ℕ) → slice a lo w ≡ slice_value a lo w
unfolding slice mask
slice_lem a lo w = and_mask (a >>ℤ lo) w ∙ ap (λ x. pos (mod_pow x w)) (shift_right a lo)

mod_pow-lt : (a : ℤ) (k : ℕ) → mod_pow a k < 2 ^ k
mod_pow-lt (pos a) k = ground (arith, one-le-pow k 2)
mod_pow-lt (negsuc a) k = ground (arith, one-le-pow k 2)

or_below : (a : ℤ) (r k : ℕ) → r < 2 ^ k → (a << k) |ℤ pos r ≡ a *ℤ pos (2 ^ k) +ℤ pos r
unfolding ◌<<◌ ◌|ℤ◌ ◌*ℤ◌ ◌+ℤ◌
or_below (pos a) r k h = ground (arith, bit_or_above k r a h)
or_below (negsuc a) r k h = ground (arith, one-le-pow k 2, ones_below k r a h)

pub concat_bits_lem : (a b : ℤ) (wb : ℕ) → concat_bits a b wb ≡ concat_value a b wb
unfolding concat_bits mask
concat_bits_lem a b wb = rw (and_mask b wb) (or_below a (mod_pow b wb) wb (mod_pow-lt b wb))

pub cut_lem : (a : ℤ) (k : ℕ) → a &ℤ mask k ≡ pos (mod_pow a k)
unfolding mask
cut_lem a k = and_mask a k
