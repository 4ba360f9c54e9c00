-- ===== src/Decimal.antt =====
-- The interface of the `rust_decimal` package, which the repository calls and does not contain.
-- A decimal is seen through its value in units of 10^-28, the finest scale that the package has:
-- `plus` is that value where it is positive, `minus` its absolute value where it is negative.
-- The operations are parameters; the comparisons are those of the values, as the package's `Ord`
-- and `Eq` are. What the code relies on of the operations is `Decimal.Laws`.
pub mod Laws
pub mod Fixed
pub mod Unary
use hype_trigger_twap.Prelude.{
  ℕ, ◌+◌, ◌-◌, ◌*◌, ◌^◌, Bool, Option, String, ltb, leb, ◌==◌, if◌then◌else◌,
}

-- `RoundingStrategy`, the three members that the code names.
pub data Strategy : Type 0 where
  to_zero to_positive_infinity to_negative_infinity : Strategy

pub record DecimalApi : Type 1 where
  pub Decimal : Type 0
  pub plus : Decimal → ℕ
  pub minus : Decimal → ℕ
  -- `Decimal::new(mantissa, scale)` at a mantissa that is not negative
  pub new : ℕ → ℕ → Decimal
  pub max_value : Decimal
  pub add : Decimal → Decimal → Decimal
  pub sub : Decimal → Decimal → Decimal
  pub mul : Decimal → Decimal → Decimal
  pub div : Decimal → Decimal → Decimal
  pub neg : Decimal → Decimal
  pub abs : Decimal → Decimal
  pub checked_add : Decimal → Decimal → Option Decimal
  pub checked_sub : Decimal → Decimal → Option Decimal
  pub checked_mul : Decimal → Decimal → Option Decimal
  pub checked_div : Decimal → Decimal → Option Decimal
  pub round_dp : Decimal → ℕ → Strategy → Decimal
  pub trunc : Decimal → Decimal
  pub normalize : Decimal → Decimal
  -- `Display`, and `str::parse::<Decimal>().ok()`
  pub to_string : Decimal → String
  pub parse : String → Option Decimal

-- How many units make 1, and how many make one step of the grid with `n` fractional digits.
abbrev pub unit : ℕ
unit = 10 ^ 28

abbrev pub step_of : ℕ → ℕ
step_of n = 10 ^ (28 - n)

module _ (D : DecimalApi) where
  open D use {Decimal, plus, minus, new}

  -- `Decimal::from(n)` for an unsigned integer.
  abbrev pub from_nat : ℕ → Decimal
  from_nat n = new n 0

  abbrev pub lt : Decimal → Decimal → Bool
  lt a b = ltb (plus a + minus b) (plus b + minus a)

  abbrev pub le : Decimal → Decimal → Bool
  le a b = leb (plus a + minus b) (plus b + minus a)

  abbrev pub eq : Decimal → Decimal → Bool
  eq a b = plus a + minus b == plus b + minus a

  -- `Ord::max` and `Ord::min`.
  abbrev pub max : Decimal → Decimal → Decimal
  max a b = if lt b a then a else b

  abbrev pub min : Decimal → Decimal → Decimal
  min a b = if lt b a then b else a
