-- ===== src/Prelude/Bits.antt =====
-- `&`, `|` and `^` on non-negative Python integers: the native operations, and the laws that the
-- codecs rely on, proved from one equation for the lowest digit.
use Prim.Native.Nat.{
  ℕ, zero, suc, ◌+◌, ◌-◌, ◌*◌, ◌/◌, ◌%◌, ◌^◌, ◌≤◌, ◌<◌, min, max, digits, bitwise, bit_and, bit_or,
  bit_xor, differ, bit_and-bitwise, bit_or-bitwise, bit_xor-bitwise,
}
use mathlib.Core.Path.{◌≡◌, refl, ap, ◌∙◌}
use native.Mathlib.Nat.{le_refl, pow-suc, one-le-pow}
use native.Mathlib.Omega.{arith}
use mathlib.Core.Bool.{Bool, true, false}
use trlog.Prelude.Tests.{◌==◌, ==_iff, if◌then◌else◌}
use native.Mathlib.Decide.{dec_lt}

-- Numbers by their halves.
by_halves {ℓ} :
    (P : ℕ → Type ℓ) → P 0 → ((a : ℕ) → P (suc a / 2) → P (suc a)) → (n a : ℕ) → a ≤ n → P a
by_halves P none more n zero h = none
by_halves P none more zero (suc a) h = absurd (omega arith)
by_halves P none more (suc n) (suc a) h = more a (by_halves P none more n (suc a / 2) (omega arith))

-- An operation on binary digits, `f` on two of them and `z` once the first number has run out.
module _ (z : ℕ → ℕ) (f : ℕ → ℕ → ℕ) where
  spare_round : (n b a : ℕ) → a ≤ n → digits z f (suc n) a b ≡ digits z f n a b
  spare_round zero b zero h = refl
  spare_round (suc n) b zero h = refl
  spare_round zero b (suc a) h = absurd (omega arith)
  spare_round (suc n) b (suc a) h =
      ap (λ (d : ℕ). d * 2 + f (suc a % 2) (b % 2))
        (spare_round n (b / 2) (suc a / 2) (omega arith))

  enough_rounds : (n b a : ℕ) → a ≤ n → digits z f n a b ≡ bitwise z f a b
  enough_rounds zero b zero h = refl
  enough_rounds zero b (suc a) h = absurd (omega arith)
  enough_rounds (suc n) b a h = elim (dec_lt n a) [
    | yes last ↦ ap (λ (m : ℕ). digits z f m a b) (all_of n a h last)
    | no fewer ↦ spare_round n b a (omega arith) ∙ enough_rounds n b a (omega arith)
  ]
    where
      all_of : (n a : ℕ) → a ≤ suc n → n < a → suc n ≡ a
      all_of n a h last = omega arith

  lowest_digit :
      ((b : ℕ) → z b ≡ z (b / 2) * 2 + f 0 (b % 2))
      → (a b : ℕ) → bitwise z f a b ≡ bitwise z f (a / 2) (b / 2) * 2 + f (a % 2) (b % 2)
  lowest_digit law zero b = law b
  lowest_digit law (suc a) b =
      ap (λ (d : ℕ). d * 2 + f (suc a % 2) (b % 2))
        (enough_rounds a (b / 2) (suc a / 2) (omega arith))

or_low : (a b : ℕ) → bit_or a b ≡ bit_or (a / 2) (b / 2) * 2 + max (a % 2) (b % 2)
or_low a b = simp bit_or-bitwise (lowest_digit (λ y. y) max (λ y. omega arith) a b)

and_low : (a b : ℕ) → bit_and a b ≡ bit_and (a / 2) (b / 2) * 2 + min (a % 2) (b % 2)
and_low a b = simp bit_and-bitwise (lowest_digit (λ y. 0) min (λ y. omega arith) a b)

-- the exclusive or of two digits is the digit of their sum
differ-digits : (x y : ℕ) → x < 2 → y < 2 → differ x y ≡ (x + y) % 2
differ-digits zero y hx hy = omega arith
differ-digits (suc zero) zero hx hy = refl
differ-digits (suc zero) (suc zero) hx hy = refl
differ-digits (suc zero) (suc (suc y)) hx hy = absurd (omega arith)
differ-digits (suc (suc x)) y hx hy = absurd (omega arith)

xor_low : (a b : ℕ) → bit_xor a b ≡ bit_xor (a / 2) (b / 2) * 2 + (a % 2 + b % 2) % 2
xor_low a b = simp bit_xor-bitwise (
    lowest_digit (λ y. y) differ (λ y. omega arith) a b
    ∙ ap (λ (d : ℕ). bitwise (λ y. y) differ (a / 2) (b / 2) * 2 + d)
        (differ-digits (a % 2) (b % 2) (omega arith) (omega arith)))

pub bit_and-zero : (a : ℕ) → bit_and a 0 ≡ 0
bit_and-zero a =
    by_halves (λ (x : ℕ). bit_and x 0 ≡ 0) refl (λ x half. omega (arith, half, and_low (suc x) 0)) a
      a (le_refl a)

pub zero-bit_or : (b : ℕ) → bit_or 0 b ≡ b
zero-bit_or b = simp bit_or-bitwise

pub zero-bit_xor : (b : ℕ) → bit_xor 0 b ≡ b
zero-bit_xor b = simp bit_xor-bitwise

pub bit_xor-zero : (a : ℕ) → bit_xor a 0 ≡ a
bit_xor-zero a =
    by_halves (λ (x : ℕ). bit_xor x 0 ≡ x) refl (λ x half. omega (arith, half, xor_low (suc x) 0)) a
      a (le_refl a)

-- A place to the left counts double.
next_place : (k q : ℕ) → 2 * (q * 2 ^ k) ≡ q * 2 ^ suc k
next_place k q =
    let doubled : q * 2 ^ suc k ≡ q * (2 ^ k * 2) = ap (λ (place : ℕ). q * place) (pow-suc 2 k) in
    omega (doubled, arith)

-- `r | (q << k)` is a sum when `r` fits `k` bits.
pub bit_or_disjoint : (k r q : ℕ) → r < 2 ^ k → bit_or r (q * 2 ^ k) ≡ r + q * 2 ^ k
bit_or_disjoint zero r q fits = ground (arith, zero-bit_or q)
bit_or_disjoint (suc k) r q fits =
    let halves = bit_or_disjoint k (r / 2) q (omega (arith, pow-suc 2 k)) in
    ground (arith, next_place k q, halves, or_low r (q * 2 ^ suc k))

pub bit_or-zero : (a : ℕ) → bit_or a 0 ≡ a
bit_or-zero a =
    by_halves (λ (x : ℕ). bit_or x 0 ≡ x) refl (λ x half. omega (arith, half, or_low (suc x) 0)) a a
      (le_refl a)

-- `(q << k) | r` is the same sum.
pub bit_or_above : (k r q : ℕ) → r < 2 ^ k → bit_or (q * 2 ^ k) r ≡ q * 2 ^ k + r
bit_or_above zero r q fits = ground (arith, bit_or-zero q)
bit_or_above (suc k) r q fits =
    let halves = bit_or_above k (r / 2) q (omega (arith, pow-suc 2 k)) in
    ground (arith, next_place k q, halves, or_low (q * 2 ^ suc k) r)

-- The low digits of `r + (q << k)`, where `r` has no others.
low_digits : (k r q : ℕ) → r < 2 ^ k → bit_and (r + q * 2 ^ k) (2 ^ k - 1) ≡ r
low_digits zero r q fits = rw bit_and-zero (omega (fits, arith))
low_digits (suc k) r q fits =
    let halves = low_digits k (r / 2) q (omega (arith, pow-suc 2 k)) in
    ground (arith, pow-suc 2 k, next_place k q, halves, and_low (r + q * 2 ^ suc k) (2 ^ suc k - 1))

-- `a & ((1 << k) - 1)` is the remainder by `2 ^ k`.
pub bit_and_mask : (k a : ℕ) → bit_and a (2 ^ k - 1) ≡ a % 2 ^ k
bit_and_mask k a =
    let split = low_digits k (a % 2 ^ k) (a / 2 ^ k) in ground (arith, split, one-le-pow k 2)

zero-bit_and : (b : ℕ) → bit_and 0 b ≡ 0
zero-bit_and b = simp bit_and-bitwise

bit_and_swap_below : (n b a : ℕ) → a ≤ n → bit_and a b ≡ bit_and b a
bit_and_swap_below n b zero h = ground (arith, zero-bit_and b, bit_and-zero b)
bit_and_swap_below zero b (suc a) h = absurd (omega arith)
bit_and_swap_below (suc n) b (suc a) h = ground (
  arith,
  and_low (suc a) b,
  and_low b (suc a),
  bit_and_swap_below n (b / 2) (suc a / 2) (omega arith),
)

pub bit_and_comm : (a b : ℕ) → bit_and a b ≡ bit_and b a
bit_and_comm a b = bit_and_swap_below a b a (le_refl a)

-- `((q << k) + (1 << k) - 1) & r` keeps all of `r` when `r` fits `k` bits.
pub ones_below : (k r q : ℕ) → r < 2 ^ k → bit_and (q * 2 ^ k + (2 ^ k - 1)) r ≡ r
ones_below zero r q fits =
    let nothing : r ≡ 0 = omega (arith, fits) in rw nothing (bit_and-zero (q * 1 + (1 - 1)))
ones_below (suc k) r q fits =
    let halves = ones_below k (r / 2) q (omega (arith, pow-suc 2 k)) in
    ground (
      arith,
      pow-suc 2 k,
      one-le-pow k 2,
      next_place k q,
      halves,
      and_low (q * 2 ^ suc k + (2 ^ suc k - 1)) r,
    )

bit_xor_cancel_below : (n c p : ℕ) → c + p ≤ n → bit_xor p (bit_xor c p) ≡ c
bit_xor_cancel_below n zero zero h = refl
bit_xor_cancel_below zero zero (suc p) h = absurd (omega arith)
bit_xor_cancel_below zero (suc c) p h = absurd (omega arith)
bit_xor_cancel_below (suc n) c p h = ground (
  arith,
  xor_low p (bit_xor c p),
  xor_low c p,
  bit_xor_cancel_below n (c / 2) (p / 2) (omega arith),
)

-- Xor with the same number twice changes nothing.
pub bit_xor_cancel : (c p : ℕ) → bit_xor p (bit_xor c p) ≡ c
bit_xor_cancel c p = bit_xor_cancel_below (c + p) c p (le_refl _)

pub bit_xor-lt : (k a b : ℕ) → a < 2 ^ k → b < 2 ^ k → bit_xor a b < 2 ^ k
bit_xor-lt zero a b p q = ground (arith, zero-bit_xor b)
bit_xor-lt (suc k) a b p q = ground (
  arith,
  xor_low a b,
  pow-suc 2 k,
  bit_xor-lt k (a / 2) (b / 2) (omega (arith, pow-suc 2 k)) (omega (arith, pow-suc 2 k)),
)

-- A test that is run on every number of a range.
unfoldable pub every : (ℕ → Bool) → ℕ → Bool
every test zero = true
every test (suc limit) = if test limit then every test limit else false

pub every_sound :
    (test : ℕ → Bool) (limit : ℕ) → every test limit ≡ true → (x : ℕ) → x < limit → test x ≡ true
unfolding every
every_sound test zero e x h = absurd (omega arith)
every_sound test (suc limit) e x h = elim (dec_lt x limit) [
  | yes below ↦ every_sound test limit (ground (arith, e)) x below
  | no last ↦ the_last (omega arith)
]
  where
    limit_passes : test limit ≡ true
    limit_passes = ground (arith, e)

    the_last : limit ≡ x → test x ≡ true
    the_last same = rw same at limit_passes

-- The top bit of a byte, as the varint codec tests it.
pub bit_and_top : (a : ℕ) → a < 256 → bit_and a 128 ≡ a / 128 * 128
unfolding every
bit_and_top a h = (==_iff _ _).0 (every_sound (λ x. bit_and x 128 == x / 128 * 128) 256 refl a h)
