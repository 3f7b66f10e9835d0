-- ===== src/Common/Bits.antt =====
-- The binary digits of a number, and what the operations on words do to them.
use Prim.Native.Nat.{
  ℕ, zero, suc, ◌+◌, ◌-◌, ◌*◌, ◌/◌, ◌%◌, ◌^◌, ◌≤◌, ◌<◌, min, max, bit_and, bit_or, bit_xor, digits,
  bitwise, differ, bit_and-bitwise, bit_or-bitwise, bit_xor-bitwise,
}
use native.Mathlib.Nat.{mul_assoc}
use mathlib.Core.Path.{◌≡◌, refl, ◌∙◌}
use mathlib.Core.Bool.{not}
use native.Mathlib.Omega.{arith}
use csed.Common.Tests.{◌==◌, if◌then◌else◌}

-- Digit `i` of `w`.
abbrev pub bit : ℕ → ℕ → ℕ
bit zero w = w % 2
bit (suc i) w = bit i (w / 2)

-- What an operation on digits does to the lowest one: `z` and `f` are the operation where the first
-- number has run out, and on two digits.
module _ (z : ℕ → ℕ) (f : ℕ → ℕ → ℕ) where
  any_fuel : (limit fuel a b : ℕ) → fuel ≤ limit → a ≤ fuel → digits z f fuel a b ≡ bitwise z f a b
  any_fuel limit zero zero b h g = refl
  any_fuel limit (suc fuel) zero b h g = refl
  any_fuel limit zero (suc a) b h g = elim g [ ]
  any_fuel zero (suc fuel) (suc a) b h g = elim h [ ]
  any_fuel (suc limit) (suc fuel) (suc a) b h g =
      rw
        (
          any_fuel limit fuel (suc a / 2) (b / 2) (omega arith) (omega arith),
          any_fuel limit a (suc a / 2) (b / 2) (omega arith) (omega arith),
        )
        refl

  pub halve :
      (a b : ℕ)
      → z b ≡ z (b / 2) * 2 + f 0 (b % 2)
      → bitwise z f a b ≡ bitwise z f (a / 2) (b / 2) * 2 + f (a % 2) (b % 2)
  halve zero b h = h
  halve (suc a) b h = rw (any_fuel a a (suc a / 2) (b / 2) (omega arith) (omega arith)) refl

  module _ (out : (b : ℕ) → z b ≡ z (b / 2) * 2 + f 0 (b % 2))
      (small : (x y : ℕ) → x < 2 → y < 2 → f x y < 2) where
    bit-bitwise : (i a b : ℕ) → bit i (bitwise z f a b) ≡ f (bit i a) (bit i b)
    bit-bitwise zero a b =
        omega (arith, halve a b (out b), small (a % 2) (b % 2) (omega arith) (omega arith))
    bit-bitwise (suc i) a b = rw (half) (bit-bitwise i (a / 2) (b / 2))
      where
        half : bitwise z f a b / 2 ≡ bitwise z f (a / 2) (b / 2)
        half = omega (arith, halve a b (out b), small (a % 2) (b % 2) (omega arith) (omega arith))

pub bit_bound : (i w : ℕ) → bit i w < 2
bit_bound zero w = omega arith
bit_bound (suc i) w = bit_bound i (w / 2)

pub bit-or : (i a b : ℕ) → bit i (bit_or a b) ≡ max (bit i a) (bit i b)
bit-or i a b =
    rw (bit_or-bitwise a b)
      (bit-bitwise (λ y. y) max (λ y. omega arith) (λ x y p q. omega arith) i a b)

pub bit-and : (i a b : ℕ) → bit i (bit_and a b) ≡ min (bit i a) (bit i b)
bit-and i a b =
    rw (bit_and-bitwise a b)
      (bit-bitwise (λ y. 0) min (λ y. omega arith) (λ x y p q. omega arith) i a b)

pub differ_digits : (x y : ℕ) → x < 2 → y < 2 → differ x y ≡ (if x == y then 0 else 1)
differ_digits zero zero h g = refl
differ_digits zero (suc zero) h g = refl
differ_digits (suc zero) zero h g = refl
differ_digits (suc zero) (suc zero) h g = refl
differ_digits (suc (suc x)) y h g = absurd (omega arith)
differ_digits x (suc (suc y)) h g = absurd (omega arith)

pub bit-xor : (i a b : ℕ) → bit i (bit_xor a b) ≡ (if bit i a == bit i b then 0 else 1)
bit-xor i a b = rw (bit_xor-bitwise a b) (
    bit-bitwise (λ y. y) differ (λ y. low y (y % 2) refl)
      (λ x y p q. ground (arith, differ_digits x y p q)) i a b
    ∙ differ_digits (bit i a) (bit i b) (bit_bound i a) (bit_bound i b))
  where
    low : (y r : ℕ) → y % 2 ≡ r → y ≡ y / 2 * 2 + differ 0 r
    low y r e = omega arith

half_zero : (i : ℕ) → bit i 0 ≡ 0
half_zero zero = refl
half_zero (suc i) = half_zero i

pub pow_suc : (i : ℕ) → 2 ^ suc i ≡ 2 ^ i * 2
pow_suc i = omega arith

pub pow_pos : (i : ℕ) → 1 ≤ 2 ^ i
pow_pos zero = omega arith
pow_pos (suc i) = omega (arith, pow_pos i, pow_suc i)

pub bit-mask : (i j : ℕ) → bit j (2 ^ i) ≡ (if i == j then 1 else 0)
bit-mask zero zero = refl
bit-mask zero (suc j) = ground (arith, half_zero j)
bit-mask (suc i) zero = ground (arith, pow_suc i)
bit-mask (suc i) (suc j) = rw (half) (ground (arith, bit-mask i j))
  where
    half : 2 ^ suc i / 2 ≡ 2 ^ i
    half = omega (arith, pow_suc i)

-- The digits of `~a` in a word of `n` digits.
pub bit-complement : (n i a : ℕ) → i < n → a < 2 ^ n → bit i (2 ^ n - 1 - a) ≡ 1 - bit i a
bit-complement zero i a h b = absurd (omega arith)
bit-complement (suc n) zero a h b = omega (arith, pow_suc n)
bit-complement (suc n) (suc i) a h b =
    rw (half) (bit-complement n i (a / 2) (omega arith) (omega (arith, pow_suc n)))
  where
    half : (2 ^ suc n - 1 - a) / 2 ≡ 2 ^ n - 1 - a / 2
    half = omega (arith, pow_suc n)

pub none_left : (fuel a : ℕ) → digits (λ y. 0) min fuel a 0 ≡ 0
none_left zero a = refl
none_left (suc fuel) zero = refl
none_left (suc fuel) (suc a) = omega (arith, none_left fuel (suc a / 2))

-- A number and a mask of one digit have that digit in common, or none.
common : (i a : ℕ) → bitwise (λ y. 0) min a (2 ^ i) ≡ bit i a * 2 ^ i
common zero a = omega (arith, halve (λ y. 0) min a 1 (omega arith), none_left (a / 2) (a / 2))
common (suc i) a =
    rw (halve (λ y. 0) min a (2 ^ suc i) (omega arith), half, common i (a / 2), pow_suc i)
      (product (bit i (a / 2)) (2 ^ i))
  where
    half : 2 ^ suc i / 2 ≡ 2 ^ i
    half = omega (arith, pow_suc i)

    product : (x y : ℕ) → x * y * 2 + min (a % 2) (y * 2 % 2) ≡ x * (y * 2)
    product x y = grind (arith, mul_assoc x y 2)

and_mask : (i a : ℕ) → bit_and a (2 ^ i) ≡ bit i a * 2 ^ i
and_mask i a = bit_and-bitwise a (2 ^ i) ∙ common i a

-- `(a & mask) != 0` reads the digit.
pub test_mask : (i a : ℕ) → not (bit_and a (2 ^ i) == 0) ≡ (bit i a == 1)
test_mask i a = ground (arith, and_mask i a, pow_pos i, bit_bound i a)
