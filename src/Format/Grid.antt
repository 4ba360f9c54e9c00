-- ===== src/Format/Grid.antt =====
-- The grid laws of the roundings of format.rs.
use hype_trigger_twap.Prelude.{ℕ, ◌+◌, ◌-◌, ◌≤◌, ◌<◌, ◌≡◌, arith}
use native.Mathlib.Nat.{div-mul-le_self, lt-div-mul-add, one-le-pow}
use hype_trigger_twap.Decimal.{DecimalApi, to_positive_infinity, to_negative_infinity, step_of}
use hype_trigger_twap.Decimal.Laws.{DecimalLaws, floor_to, ceil_to}
use hype_trigger_twap.Types.{Side, long, short}
use hype_trigger_twap.Format.{round_size, round_price, allowed_decimals}

pub step_pos : (n : ℕ) → 0 < step_of n
step_pos n = one-le-pow (28 - n) 10 (omega arith)

pub floor-le : (g n : ℕ) → floor_to g n ≤ n
floor-le g n = div-mul-le_self n g

pub le-ceil : (g n : ℕ) → 0 < g → n ≤ ceil_to g n
le-ceil g n h = omega (arith, lt-div-mul-add {a = n + (g - 1)} h)

module _ (D : DecimalApi) (L : DecimalLaws D) where
  open D use {Decimal, plus, minus, round_dp}
  open L use {
    plus-new, minus-new, plus-to_zero, minus-to_zero, plus-to_positive_infinity,
    minus-to_positive_infinity, plus-to_negative_infinity, minus-to_negative_infinity,
  }

  -- `a` is at most `b` in value.
  abbrev pub AtMost : Decimal → Decimal → Type 0
  AtMost a b = plus a + minus b ≤ plus b + minus a

  round_up-ge : (a : Decimal) (n : ℕ) → AtMost a (round_dp a n to_positive_infinity)
  round_up-ge a n = omega (
    arith,
    plus-to_positive_infinity a n,
    minus-to_positive_infinity a n,
    le-ceil (step_of n) (plus a) (step_pos n),
    floor-le (step_of n) (minus a),
  )

  round_down-le : (a : Decimal) (n : ℕ) → AtMost (round_dp a n to_negative_infinity) a
  round_down-le a n = omega (
    arith,
    plus-to_negative_infinity a n,
    minus-to_negative_infinity a n,
    le-ceil (step_of n) (minus a) (step_pos n),
    floor-le (step_of n) (plus a),
  )

  -- Two roundings of one direction: what holds of both holds of the price.
  pub round_price-ge :
      (px : Decimal) (sz_decimals : ℕ) → AtMost px (round_price D px sz_decimals long)
  unfolding round_price
  round_price-ge px sz_decimals =
      let once = round_dp px (6 - sz_decimals) to_positive_infinity in
      ground (arith, round_up-ge px (6 - sz_decimals), round_up-ge once (allowed_decimals D once 5))

  pub round_price-le :
      (px : Decimal) (sz_decimals : ℕ) → AtMost (round_price D px sz_decimals short) px
  unfolding round_price
  round_price-le px sz_decimals =
      let once = round_dp px (6 - sz_decimals) to_negative_infinity in
      ground
        (arith, round_down-le px (6 - sz_decimals), round_down-le once (allowed_decimals D once 5))

  -- The side's promise: a buyer's rounded price is at least the raw one, a seller's at most.
  abbrev pub IsMarketable : Side → Decimal → Decimal → Type 0
  IsMarketable long raw px = AtMost raw px
  IsMarketable short raw px = AtMost px raw

  -- Rounding a price, to the decimals and then to five significant digits, never makes an order less
  -- marketable: a buyer's price does not fall, a seller's does not rise.
  pub round_price-IsMarketable :
      (px : Decimal) (sz_decimals : ℕ) (side : Side)
      → IsMarketable side px (round_price D px sz_decimals side)
  round_price-IsMarketable px sz_decimals long = round_price-ge px sz_decimals
  round_price-IsMarketable px sz_decimals short = round_price-le px sz_decimals

  -- A size that is not negative is cut to the grid from below, by less than one step.
  pub round_size_bounds :
      (sz : Decimal) (n : ℕ)
      → minus sz ≡ 0
      → (minus (round_size D sz n) ≡ 0)
        × (plus (round_size D sz n) ≤ plus sz)
        × (plus sz < plus (round_size D sz n) + step_of n)
  unfolding round_size
  round_size_bounds sz n h =
      let below = floor-le (step_of n) (plus sz) in
      let none_below = floor-le (step_of n) (minus sz) in
      let near = lt-div-mul-add {a = plus sz} (step_pos n) in
      let p = plus-to_zero sz n in
      let m = minus-to_zero sz n in
      (omega (arith, m, none_below), omega (arith, p, below), omega (arith, p, near))
