-- ===== src/Common/Masks.antt =====
-- What masks do to a word, as a number.
use Prim.Native.Nat.{
  ℕ, zero, suc, ◌+◌, ◌-◌, ◌*◌, ◌/◌, ◌%◌, ◌^◌, ◌≤◌, ◌<◌, min, max, bit_and, bit_or, bit_xor, differ,
  bit_and-bitwise, bit_or-bitwise, bit_xor-bitwise,
}
use mathlib.Core.Path.{◌≡◌, refl, ap, ◌∙◌}
use native.Mathlib.Omega.{arith}
use csed.Common.Tests.{◌==◌, if◌then◌else◌}
use csed.Common.Bits.{bit, halve, none_left, differ_digits, pow_suc, pow_pos}

-- The lowest digit and the rest of `a & b`.
pub bit_and-halve : (a b : ℕ) → bit_and a b ≡ bit_and (a / 2) (b / 2) * 2 + min (a % 2) (b % 2)
bit_and-halve a b =
    rw (bit_and-bitwise a b, bit_and-bitwise (a / 2) (b / 2)) (halve (λ y. 0) min a b (omega arith))

pub bit_and_self : (fuel a : ℕ) → a ≤ fuel → bit_and a a ≡ a
bit_and_self fuel zero h = refl
bit_and_self zero (suc a) h = elim h [ ]
bit_and_self (suc fuel) (suc a) h =
    omega (arith, bit_and-halve (suc a) (suc a), bit_and_self fuel (suc a / 2) (omega arith))

-- `a & (2 ^ k - 1)` is below 2 ^ k.
pub bit_and-mask : (k a : ℕ) → bit_and a (2 ^ k - 1) < 2 ^ k
bit_and-mask zero a = omega (arith, bit_and-halve a 0, none_and a)
  where
    none_and : (a : ℕ) → bit_and a 0 ≡ 0
    none_and a = bit_and-bitwise a 0 ∙ none_left a a
bit_and-mask (suc k) a = omega (
  arith,
  bit_and-halve a (2 ^ suc k - 1),
  bit_and-mask k (a / 2),
  ap (bit_and (a / 2)) half,
  pow_suc k,
)
  where
    half : (2 ^ suc k - 1) / 2 ≡ 2 ^ k - 1
    half = omega (arith, pow_suc k, pow_pos k)

pub pow_mono : (i j : ℕ) → i < j → 2 ^ i < 2 ^ j
pow_mono i zero h = absurd (omega arith)
pow_mono zero (suc j) h = omega (arith, pow_suc j, pow_pos j)
pow_mono (suc i) (suc j) h = omega (arith, pow_mono i j (omega arith), pow_suc i, pow_suc j)

-- The lowest digit and the rest of `a ^ b`.
bit_xor-halve : (a b : ℕ) → bit_xor a b ≡ bit_xor (a / 2) (b / 2) * 2 + differ (a % 2) (b % 2)
bit_xor-halve a b =
    rw (bit_xor-bitwise a b, bit_xor-bitwise (a / 2) (b / 2))
      (halve (λ y. y) differ a b (low (b % 2) refl))
  where
    low : (r : ℕ) → b % 2 ≡ r → b ≡ b / 2 * 2 + differ 0 r
    low r e = omega arith

-- `a ^ b` of two words is a word.
pub xor_bound : (n a b : ℕ) → a < 2 ^ n → b < 2 ^ n → bit_xor a b < 2 ^ n
xor_bound zero a b p q =
    let e : a ≡ 0 = omega arith in let e' : b ≡ 0 = omega arith in rw (e, e') (omega arith)
xor_bound (suc n) a b p q = ground (
  arith,
  bit_xor-halve a b,
  differ_digits (a % 2) (b % 2) (omega arith) (omega arith),
  xor_bound n (a / 2) (b / 2) (omega (arith, pow_suc n)) (omega (arith, pow_suc n)),
  pow_suc n,
)

-- The lowest digit and the rest of `a | b`.
bit_or-halve : (a b : ℕ) → bit_or a b ≡ bit_or (a / 2) (b / 2) * 2 + max (a % 2) (b % 2)
bit_or-halve a b =
    rw (bit_or-bitwise a b, bit_or-bitwise (a / 2) (b / 2)) (halve (λ y. y) max a b (omega arith))

pub bit_or-zero : (fuel a : ℕ) → a ≤ fuel → bit_or a 0 ≡ a
bit_or-zero fuel zero h = refl
bit_or-zero zero (suc a) h = elim h [ ]
bit_or-zero (suc fuel) (suc a) h =
    omega (arith, bit_or-halve (suc a) 0, bit_or-zero fuel (suc a / 2) (omega arith))

-- `a | mask` sets a digit, and `a & ~mask` clears it.
pub or_mask : (i a : ℕ) → bit_or a (2 ^ i) ≡ (if bit i a == 1 then a else a + 2 ^ i)
or_mask zero a = ground (arith, bit_or-halve a 1, bit_or-zero (a / 2) (a / 2) (omega arith))
or_mask (suc i) a =
    ground
      (arith, bit_or-halve a (2 ^ suc i), ap (bit_or (a / 2)) half, or_mask i (a / 2), pow_suc i)
  where
    half : 2 ^ suc i / 2 ≡ 2 ^ i
    half = omega (arith, pow_suc i)

pub and_ones : (n a : ℕ) → a < 2 ^ n → bit_and a (2 ^ n - 1) ≡ a
and_ones zero a h = let e : a ≡ 0 = omega arith in rw (e) refl
and_ones (suc n) a h = omega (
  arith,
  bit_and-halve a (2 ^ suc n - 1),
  ap (bit_and (a / 2)) half,
  and_ones n (a / 2) (omega (arith, pow_suc n)),
  pow_suc n,
  pow_pos n,
)
  where
    half : (2 ^ suc n - 1) / 2 ≡ 2 ^ n - 1
    half = omega (arith, pow_suc n, pow_pos n)

bit_le : (i a : ℕ) → bit i a ≡ 1 → 2 ^ i ≤ a
bit_le zero a h = omega arith
bit_le (suc i) a h = omega (arith, bit_le i (a / 2) h, pow_suc i)

pub and_clear :
    (n i a : ℕ)
    → i < n
    → a < 2 ^ n
    → bit_and a (2 ^ n - 1 - 2 ^ i) ≡ (if bit i a == 1 then a - 2 ^ i else a)
and_clear zero i a h b = absurd (omega arith)
and_clear (suc n) zero a h b = ground (
  arith,
  bit_and-halve a (2 ^ suc n - 2),
  ap (bit_and (a / 2)) half,
  and_ones n (a / 2) (omega (arith, pow_suc n)),
  pow_suc n,
  pow_pos n,
)
  where
    half : (2 ^ suc n - 1 - 1) / 2 ≡ 2 ^ n - 1
    half = omega (arith, pow_suc n, pow_pos n)
and_clear (suc n) (suc i) a h b = ground (
  arith,
  bit_and-halve a (2 ^ suc n - 1 - 2 ^ suc i),
  ap (bit_and (a / 2)) half,
  and_clear n i (a / 2) (omega arith) (omega (arith, pow_suc n)),
  pow_suc n,
  pow_suc i,
  pow_mono i n (omega arith),
  bit_le i (a / 2),
)
  where
    half : (2 ^ suc n - 1 - 2 ^ suc i) / 2 ≡ 2 ^ n - 1 - 2 ^ i
    half = omega (arith, pow_suc n, pow_suc i, pow_mono i n (omega arith))
