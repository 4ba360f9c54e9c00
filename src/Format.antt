-- ===== src/Format.antt =====
-- src/format.rs: rounding of sizes and prices onto the exchange's grid.
pub mod Grid
pub mod Snapping
use hype_trigger_twap.Prelude.{
  ℕ, zero, suc, ◌+◌, ◌-◌, Bool, true, false, if◌then◌else◌, leb, ◌==◌, String,
}
use Prim.Native.String.{len}
use hype_trigger_twap.Decimal.{
  DecimalApi, Strategy, to_zero, to_positive_infinity, to_negative_infinity, from_nat, lt, le, eq,
}
use hype_trigger_twap.Types.{Side, long, short}

abbrev pub max_px_significant_digits : ℕ
max_px_significant_digits = 5

abbrev pub max_px_decimals_base : ℕ
max_px_decimals_base = 6

-- The direction that keeps a taker order marketable.
abbrev pub strategy_for : Side → Strategy
strategy_for long = to_positive_infinity
strategy_for short = to_negative_infinity

module _ (D : DecimalApi) where
  open D use {Decimal, add, sub, mul, div, round_dp, trunc, normalize, to_string}

  unfoldable pub round_size : Decimal → ℕ → Decimal
  round_size sz sz_decimals = round_dp sz sz_decimals to_zero

  unfoldable pub integer_digit_count : Decimal → ℕ
  integer_digit_count px =
      let whole = trunc px in
      if eq D whole (from_nat D 0) then 0 else len (to_string (normalize whole))

  -- The loop, over the rounds left of 28 and the count so far. `scaled < 1` is tested before and
  -- after the multiplication, and the count grows only where both hold.
  pub leading_zeros_from : ℕ → Decimal → ℕ → ℕ
  leading_zeros_from zero scaled zeros = zeros
  leading_zeros_from (suc rounds) scaled zeros =
      let next = mul scaled (from_nat D 10) in
      let rest = leading_zeros_from rounds next (zeros + 1) in
      if lt D scaled (from_nat D 1)
      then (if le D (from_nat D 1) next then zeros else rest)
      else zeros

  unfoldable pub leading_fraction_zeros : Decimal → ℕ
  unfolding leading_zeros_from
  leading_fraction_zeros px = leading_zeros_from 28 px 0

  -- The number of fractional digits that the significant-digit cap leaves.
  unfoldable pub allowed_decimals : Decimal → ℕ → ℕ
  allowed_decimals px sig =
      let int_digits = integer_digit_count px in
      if leb sig int_digits
      then 0
      else if lt D px (from_nat D 1)
      then sig + leading_fraction_zeros px
      else sig - int_digits

  unfoldable pub round_to_significant_digits : Decimal → ℕ → Strategy → Decimal
  round_to_significant_digits px sig strategy =
      if le D px (from_nat D 0) then px else round_dp px (allowed_decimals px sig) strategy

  -- `6 - szDecimals` is clamped at 0, as the truncated `-` is.
  unfoldable pub round_price : Decimal → ℕ → Side → Decimal
  unfolding round_to_significant_digits
  round_price px sz_decimals side =
      if le D px (from_nat D 0)
      then px
      else round_to_significant_digits
          (round_dp px (max_px_decimals_base - sz_decimals) (strategy_for side))
          max_px_significant_digits (strategy_for side)

  abbrev pub raw_taker_price : Side → Decimal → Decimal → Decimal → Decimal
  raw_taker_price long best_bid best_ask bps = add best_ask (mul best_ask bps)
  raw_taker_price short best_bid best_ask bps = sub best_bid (mul best_bid bps)

  unfoldable pub taker_limit_price : Decimal → Decimal → Side → Decimal → ℕ → Decimal
  taker_limit_price best_bid best_ask side slippage_bps sz_decimals =
      let bps = div slippage_bps (from_nat D 10000) in
      round_price (raw_taker_price side best_bid best_ask bps) sz_decimals side

  unfoldable pub notional : Decimal → Decimal → Decimal
  notional sz px = mul sz px
