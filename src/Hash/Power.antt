-- ===== src/Hash/Power.antt =====
-- The bucket counts of src/lib/kernel/hash.c: turn_off_least_1bit, is_power_of_2 and the loop of
-- rehash.
use csed.Common.{
  ℕ, zero, suc, ◌+◌, ◌-◌, ◌*◌, ◌/◌, ◌%◌, ◌^◌, ◌≤◌, ◌<◌, ◌≡◌, refl, true, false, ◌==◌, ltb, arith,
  bit_and, if◌then◌else◌, Bool-cases, inl, inr, ap, ap₂, ◌∙◌, ◌⊎◌,
}
use csed.Common.Bits.{pow_suc, pow_pos}
use csed.Common.Masks.{bit_and-halve, bit_and_self}
use csed.Hash.{turn_off_least_1bit, is_power_of_2, to_power_of_2, ideal_bucket_cnt}

turn_off_eq : (x : ℕ) → 1 ≤ x → x < 2 ^ 32 → turn_off_least_1bit x ≡ bit_and x (x - 1)
unfolding turn_off_least_1bit
turn_off_eq x h b = ap (bit_and x) (omega arith)

-- `x & (x - 1)` of an even and of an odd number.
even_step : (y : ℕ) → 1 ≤ y → bit_and (y * 2) (y * 2 - 1) ≡ bit_and y (y - 1) * 2
even_step y h = omega (
  arith,
  bit_and-halve (y * 2) (y * 2 - 1),
  ap₂ bit_and (let e : y * 2 / 2 ≡ y = omega arith in e)
      (let e : (y * 2 - 1) / 2 ≡ y - 1 = omega arith in e),
)

odd_step : (y : ℕ) → bit_and (y * 2 + 1) (y * 2) ≡ y * 2
odd_step y = omega (
  arith,
  bit_and-halve (y * 2 + 1) (y * 2),
  ap₂ bit_and (let e : (y * 2 + 1) / 2 ≡ y = omega arith in e)
      (let e : y * 2 / 2 ≡ y = omega arith in e),
  bit_and_self y y (omega arith),
)

and_pred :
    (k x : ℕ)
    → 2 ^ k ≤ x
    → x < 2 ^ suc k
    → ((bit_and x (x - 1) ≡ 0) × (x ≡ 2 ^ k))
      ⊎ ((2 ^ k ≤ bit_and x (x - 1)) × (bit_and x (x - 1) < x))
and_pred zero x l u = let e : x ≡ 1 = omega arith in rw (e) (inl (refl, refl))
and_pred (suc k) x l u = elim (Bool-cases (x % 2 == 0)) [
  | inl p ↦
      let e : x ≡ x / 2 * 2 = ground arith in
      elim (and_pred k (x / 2) (omega (arith, pow_suc k))
        (omega (arith, pow_suc k, pow_suc (suc k)))) [
          | inl (z, q) ↦ inl (omega (arith, doubled e, z), omega (arith, e, q, pow_suc k))
          | inr (a, b) ↦
              inr (omega (arith, doubled e, a, pow_suc k), omega (arith, doubled e, b, e))
        ]
  | inr p ↦
      let e : x ≡ x / 2 * 2 + 1 = ground arith in
      inr (omega (arith, odd e, pow_suc k, pow_suc (suc k)), omega (arith, odd e, e))
]
  where
    doubled : x ≡ x / 2 * 2 → bit_and x (x - 1) ≡ bit_and (x / 2) (x / 2 - 1) * 2
    doubled e =
        ap (λ v. bit_and v (v - 1)) e ∙ even_step (x / 2) (omega (arith, l, pow_suc k, pow_pos k))

    odd : x ≡ x / 2 * 2 + 1 → bit_and x (x - 1) ≡ x / 2 * 2
    odd e =
        ap (λ v. bit_and v (v - 1)) e
        ∙ ap (bit_and (x / 2 * 2 + 1)) (omega arith)
        ∙ odd_step (x / 2)

is_power_eq :
    (k x : ℕ)
    → 2 ^ k ≤ x
    → x < 2 ^ suc k
    → x < 2 ^ 32
    → ((is_power_of_2 x ≡ true) × (x ≡ 2 ^ k))
      ⊎ ((is_power_of_2 x ≡ false) × (2 ^ k ≤ turn_off_least_1bit x) × (turn_off_least_1bit x < x))
unfolding is_power_of_2
is_power_eq k x l u b = elim (and_pred k x l u) [
  | inl (z, q) ↦ inl (ground (arith, pow_pos k, turn_off_eq x (omega (arith, pow_pos k)) b), q)
  | inr (p, q) ↦
      let e = turn_off_eq x (omega (arith, pow_pos k)) b in
      inr (ground (arith, pow_pos k, e), omega (arith, e), omega (arith, e))
]

-- The loop of rehash ends with the highest power of 2 up to the number.
pub to_power_of_2_lem :
    (rounds k x : ℕ)
    → x ≤ rounds
    → 2 ^ k ≤ x
    → x < 2 ^ suc k
    → x < 2 ^ 32
    → to_power_of_2 rounds x ≡ 2 ^ k
unfolding to_power_of_2
to_power_of_2_lem zero k x h l u b = absurd (omega (arith, pow_pos k))
to_power_of_2_lem (suc rounds) k x h l u b = elim (is_power_eq k x l u b) [
  | inl (p, q) ↦ rw (p, to_power_of_2) q
  | inr (p, q, r) ↦
      rw (p, to_power_of_2)
        (to_power_of_2_lem rounds k (turn_off_least_1bit x) (omega arith) q (omega arith)
          (omega arith))
]

-- The number of binary digits of a number, less one.
log : (fuel x : ℕ) → x ≤ fuel → 1 ≤ x → (k : ℕ) × (2 ^ k ≤ x) × (x < 2 ^ suc k)
log zero x h l = absurd (omega arith)
log (suc fuel) x h l = elim (Bool-cases (x == 1)) [
  | inl e ↦ (0, ground arith, ground arith)
  | inr e ↦
      let (k, a, b) = log fuel (x / 2) (omega arith) (ground arith) in
      (suc k, omega (arith, pow_suc k), omega (arith, pow_suc k, pow_suc (suc k)))
]

pow_cancel : (i j : ℕ) → 2 ^ i < 2 ^ j → i < j
pow_cancel i zero h = absurd (omega (arith, pow_pos i))
pow_cancel zero (suc j) h = omega arith
pow_cancel (suc i) (suc j) h = omega (arith, pow_cancel i j (omega (arith, pow_suc i, pow_suc j)))

-- A count of buckets: a power of 2, at least 4.
abbrev pub IsCount : ℕ → Type 0
IsCount n = (k : ℕ) × (n ≡ 2 ^ k) × (k < 32) × (4 ≤ n)

abbrev pub wanted : ℕ → ℕ
wanted n = if ltb (n / 2) 4 then 4 else n / 2

-- The bucket count that rehash chooses.
pub ideal_bucket_cnt_lem :
    (n : ℕ)
    → n < 2 ^ 32
    → IsCount (ideal_bucket_cnt n)
      × (ideal_bucket_cnt n ≤ wanted n)
      × (wanted n < 2 * ideal_bucket_cnt n)
unfolding ideal_bucket_cnt
ideal_bucket_cnt_lem n h =
    let (k, l, u) = log (wanted n) (wanted n) (omega arith) (ground arith) in
    let e = to_power_of_2_lem (wanted n) k (wanted n) (omega arith) l u (ground arith) in
    rw (e) ((k, refl, pow_cancel k 32 (ground arith), four k l u), l, omega (arith, pow_suc k))
  where
    four : (k : ℕ) → 2 ^ k ≤ wanted n → wanted n < 2 ^ suc k → 4 ≤ 2 ^ k
    four zero l u = absurd (ground arith)
    four (suc zero) l u = absurd (ground arith)
    four (suc (suc k)) l u = omega (arith, pow_suc k, pow_suc (suc k), pow_pos k)
