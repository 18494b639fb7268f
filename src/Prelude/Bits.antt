-- ===== src/Prelude/Bits.antt =====
-- Bitwise operations of the source as arithmetic: a mask of low bits, and the `|` of values with no
-- bit in common.
use Prim.Native.Nat.{
  ℕ, zero, suc, ◌+◌, ◌-◌, ◌*◌, ◌/◌, ◌%◌, ◌^◌, ◌≤◌, ◌<◌, min, max, bit_and, bit_or, digits,
  bit_and-bitwise, bit_or-bitwise,
}
use mathlib.Core.Path.{◌≡◌, refl, ap, ◌∙◌}
use native.Mathlib.Nat.{pow-suc, div-add-mod, mul_comm, le_refl}
use native.Mathlib.Omega.{arith}

-- The digits of `a | b` and `a & b`, for a count `n` of digits to go.
abbrev or_digits : ℕ → ℕ → ℕ → ℕ
or_digits n a b = digits (λ y. y) max n a b

abbrev and_digits : ℕ → ℕ → ℕ → ℕ
and_digits n a b = digits (λ _. zero) min n a b

double_pow : (k : ℕ) → 2 ^ suc k ≡ 2 * 2 ^ k
double_pow k = pow-suc 2 k ∙ mul_comm (2 ^ k) 2

pow_pos : (k : ℕ) → 0 < 2 ^ k
pow_pos zero = omega arith
pow_pos (suc k) = omega (arith, pow_pos k, double_pow k)

or_digits-zero : (n a : ℕ) → a ≤ n → or_digits n a 0 ≡ a
or_digits-zero zero zero h = refl
or_digits-zero zero (suc a) h = absurd (omega arith)
or_digits-zero (suc n) zero h = refl
or_digits-zero (suc n) (suc a) h = omega (arith, or_digits-zero n (suc a / 2) (omega arith))

-- `a` is a multiple of 2 ^ k, and `b` has its bits below k.
or_digits_disjoint : (k n a b q : ℕ) → a ≤ n → a ≡ q * 2 ^ k → b < 2 ^ k → or_digits n a b ≡ a + b
or_digits_disjoint zero n a b q h e hb =
    let z : b ≡ 0 = omega arith in rw z (omega (arith, or_digits-zero n a h))
or_digits_disjoint (suc k) zero zero b q h e hb = omega arith
or_digits_disjoint (suc k) (suc n) zero b q h e hb = omega arith
or_digits_disjoint (suc k) zero (suc a) b q h e hb = absurd (omega arith)
or_digits_disjoint (suc k) (suc n) (suc a) b q h e hb =
    let doubled : suc a ≡ 2 * (q * 2 ^ k) = omega (arith, ap (λ (t : ℕ). q * t) (double_pow k)) in
    let below : b / 2 < 2 ^ k = omega (arith, double_pow k) in
    let rest = or_digits_disjoint k n (suc a / 2) (b / 2) q (omega arith) (omega arith) below in
    omega arith

and_digits-zero : (n a : ℕ) → and_digits n a 0 ≡ 0
and_digits-zero zero a = refl
and_digits-zero (suc n) zero = refl
and_digits-zero (suc n) (suc a) = omega (arith, and_digits-zero n (suc a / 2))

-- The mask is 2 ^ k - 1, and keeps the remainder `r` of `a`.
and_digits_mask :
    (k n a q r : ℕ) → a ≤ n → a ≡ q * 2 ^ k + r → r < 2 ^ k → and_digits n a (2 ^ k - 1) ≡ r
and_digits_mask zero n a q r h e hr = omega (arith, and_digits-zero n a)
and_digits_mask (suc k) zero zero q r h e hr = omega arith
and_digits_mask (suc k) (suc n) zero q r h e hr = omega arith
and_digits_mask (suc k) zero (suc a) q r h e hr = absurd (omega arith)
and_digits_mask (suc k) (suc n) (suc a) q r h e hr =
    let split : suc a ≡ 2 * (q * 2 ^ k) + r = omega (arith, ap (λ (t : ℕ). q * t) (double_pow k)) in
    let below : r / 2 < 2 ^ k = omega (arith, double_pow k) in
    let half_mask : (2 ^ suc k - 1) / 2 ≡ 2 ^ k - 1 = omega (arith, double_pow k) in
    let odd_mask : (2 ^ suc k - 1) % 2 ≡ 1 = omega (arith, double_pow k) in
    let rest = and_digits_mask k n (suc a / 2) q (r / 2) (omega arith) (omega arith) below in
    rw (half_mask, odd_mask, rest) (omega arith)

pub bit_or_disjoint : (k q b : ℕ) → b < 2 ^ k → bit_or (q * 2 ^ k) b ≡ q * 2 ^ k + b
bit_or_disjoint k q b h =
    rw bit_or-bitwise (or_digits_disjoint k (q * 2 ^ k) (q * 2 ^ k) b q (le_refl _) refl h)

pub bit_and_mask : (k a : ℕ) → bit_and a (2 ^ k - 1) ≡ a % 2 ^ k
bit_and_mask k a = rw bit_and-bitwise (
    and_digits_mask k a a (a / 2 ^ k) (a % 2 ^ k) (le_refl _)
      (omega (arith, div-add-mod a (2 ^ k), pow_pos k)) (omega (arith, pow_pos k)))

pub bit_and_ff : (a : ℕ) → bit_and a 0xff ≡ a % 256
bit_and_ff a = bit_and_mask 8 a
