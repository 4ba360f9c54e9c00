-- ===== src/Decimal/Laws.antt =====
-- What the code relies on of `rust_decimal`: within its range it computes with no round-off, and
-- its roundings go to the neighbour on the grid that the strategy names.
use hype_trigger_twap.Prelude.{ℕ, ◌+◌, ◌-◌, ◌*◌, ◌^◌, ◌/◌, ◌≤◌, ◌≡◌, ◌⊎◌, some}
use hype_trigger_twap.Decimal.{
  DecimalApi, to_zero, to_positive_infinity, to_negative_infinity, step_of,
}

-- The multiples of `g` next to `n`, below it and above it.
abbrev pub floor_to : ℕ → ℕ → ℕ
floor_to g n = n / g * g

abbrev pub ceil_to : ℕ → ℕ → ℕ
ceil_to g n = (n + (g - 1)) / g * g

-- What bounds a step of the last digit of `n`, where 96 bits of mantissa are not enough for 28
-- fractional digits.
abbrev pub last_step : ℕ → ℕ
last_step n = n / 10 ^ 27

-- The value of `c` is the sum, the difference of the values of `a` and `b`.
module _ (D : DecimalApi) where
  open D use {Decimal, plus, minus}

  abbrev pub IsSum : Decimal → Decimal → Decimal → Type 0
  IsSum a b c = plus c + minus a + minus b ≡ minus c + plus a + plus b

  abbrev pub IsDifference : Decimal → Decimal → Decimal → Type 0
  IsDifference a b c = plus c + minus a + plus b ≡ minus c + plus a + minus b

pub record DecimalLaws (D : DecimalApi) : Type 0 where
  pub one_sign : (a : D.Decimal) → (D.plus a ≡ 0) ⊎ (D.minus a ≡ 0)
  pub plus-new : (m s : ℕ) → s ≤ 28 → D.plus (D.new m s) ≡ m * step_of s
  pub minus-new : (m s : ℕ) → D.minus (D.new m s) ≡ 0
  pub add_value : (a b : D.Decimal) → IsSum D a b (D.add a b)
  pub sub_value : (a b : D.Decimal) → IsDifference D a b (D.sub a b)
  pub plus-neg : (a : D.Decimal) → D.plus (D.neg a) ≡ D.minus a
  pub minus-neg : (a : D.Decimal) → D.minus (D.neg a) ≡ D.plus a
  pub plus-abs : (a : D.Decimal) → D.plus (D.abs a) ≡ D.plus a + D.minus a
  pub minus-abs : (a : D.Decimal) → D.minus (D.abs a) ≡ 0
  -- a product by a whole number is exact
  pub plus-mul_nat : (a : D.Decimal) (n : ℕ) → D.plus (D.mul a (D.new n 0)) ≡ D.plus a * n
  pub minus-mul_nat : (a : D.Decimal) (n : ℕ) → D.minus (D.mul a (D.new n 0)) ≡ D.minus a * n
  -- a product and a quotient of values that are not negative are not negative
  pub mul_nonneg : (a b : D.Decimal) → D.minus a ≡ 0 → D.minus b ≡ 0 → D.minus (D.mul a b) ≡ 0
  pub div_nonneg : (a b : D.Decimal) → D.minus a ≡ 0 → D.minus b ≡ 0 → D.minus (D.div a b) ≡ 0
  -- a quotient by a whole number is rounded to 96 bits of mantissa: it is off by half a unit, or by
  -- half a step of its last digit, and that step is at most 10^-27 of the quotient
  pub div_nat-le :
      (a : D.Decimal) (n : ℕ)
      → D.minus a ≡ 0
      → 2 * (D.plus (D.div a (D.new n 0)) * n) ≤ 2 * D.plus a + n + last_step (D.plus a)
  pub checked_add_value :
      (a b : D.Decimal) {c : D.Decimal} → D.checked_add a b ≡ some c → IsSum D a b c
  pub checked_sub_value :
      (a b : D.Decimal) {c : D.Decimal} → D.checked_sub a b ≡ some c → IsDifference D a b c
  pub checked_mul_nonneg :
      (a b : D.Decimal) {c : D.Decimal}
      → D.checked_mul a b ≡ some c
      → D.minus a ≡ 0
      → D.minus b ≡ 0
      → D.minus c ≡ 0
  -- a checked product by a whole number is exact, where there is one
  pub checked_mul_nat :
      (a : D.Decimal) (n : ℕ) {c : D.Decimal}
      → D.checked_mul a (D.new n 0) ≡ some c
      → (D.plus c ≡ D.plus a * n) × (D.minus c ≡ D.minus a * n)
  pub plus-to_zero :
      (a : D.Decimal) (n : ℕ) → D.plus (D.round_dp a n to_zero) ≡ floor_to (step_of n) (D.plus a)
  pub minus-to_zero :
      (a : D.Decimal) (n : ℕ) → D.minus (D.round_dp a n to_zero) ≡ floor_to (step_of n) (D.minus a)
  pub plus-to_positive_infinity :
      (a : D.Decimal) (n : ℕ)
      → D.plus (D.round_dp a n to_positive_infinity) ≡ ceil_to (step_of n) (D.plus a)
  pub minus-to_positive_infinity :
      (a : D.Decimal) (n : ℕ)
      → D.minus (D.round_dp a n to_positive_infinity) ≡ floor_to (step_of n) (D.minus a)
  pub plus-to_negative_infinity :
      (a : D.Decimal) (n : ℕ)
      → D.plus (D.round_dp a n to_negative_infinity) ≡ floor_to (step_of n) (D.plus a)
  pub minus-to_negative_infinity :
      (a : D.Decimal) (n : ℕ)
      → D.minus (D.round_dp a n to_negative_infinity) ≡ ceil_to (step_of n) (D.minus a)
