-- ===== src/Format/Snapping.antt =====
-- Prices leave format.rs on the grid, and a taker's price does not retreat from the touch.
use hype_trigger_twap.Prelude.{
  ℕ, zero, suc, ◌+◌, ◌-◌, ◌*◌, ◌/◌, ◌^◌, ◌≤◌, ◌<◌, ◌≡◌, inl, inr, sym, ap, ◌∙◌, arith, false,
  Bool-cases,
}
use Prim.Native.Nat.{◌∣◌}
use mathlib.Core.Path.{subst}
use native.Mathlib.Nat.{
  pow-suc, dvd_refl, dvd_trans, dvd-mul_right_of_dvd, dvd-mul_left_of_dvd, div-mul_cancel,
  div-eq_of_lt, add-mul-div_right,
}
use native.Mathlib.Decide.{dec_le}
use hype_trigger_twap.Decimal.{
  DecimalApi, to_positive_infinity, to_negative_infinity, from_nat, le, step_of,
}
use hype_trigger_twap.Decimal.Laws.{DecimalLaws, floor_to, ceil_to}
use hype_trigger_twap.Types.{Side, long, short}
use hype_trigger_twap.Format.{
  round_price, round_to_significant_digits, allowed_decimals, strategy_for, taker_limit_price,
}
use hype_trigger_twap.Format.Grid.{step_pos, AtMost, round_price-ge, round_price-le}

pow-dvd-pow : (b i k : ℕ) → b ^ i ∣ b ^ (i + k)
pow-dvd-pow b i zero = subst (λ j. b ^ i ∣ b ^ j) (omega arith) (dvd_refl (b ^ i))
pow-dvd-pow b i (suc k) =
    let more : b ^ i ∣ b ^ suc (i + k) =
      subst (λ t. b ^ i ∣ t) (sym (pow-suc b (i + k)))
        (dvd-mul_right_of_dvd (b ^ i) (pow-dvd-pow b i k) b) in
    subst (λ j. b ^ i ∣ b ^ j) (omega arith) more

-- A coarser grid lies within a finer one.
step-dvd-step : (m n : ℕ) → m ≤ n → step_of n ∣ step_of m
step-dvd-step m n h =
    subst (λ j. step_of n ∣ 10 ^ j) (omega arith) (pow-dvd-pow 10 (28 - n) (28 - m - (28 - n)))

pub floor-eq_of_dvd : (g n : ℕ) → g ∣ n → floor_to g n ≡ n
floor-eq_of_dvd g n h = div-mul_cancel g h

ceil-eq_of_dvd : (g n : ℕ) → 0 < g → g ∣ n → ceil_to g n ≡ n
ceil-eq_of_dvd g n p h =
    let q : ℕ = n / g in
    let whole : q * g ≡ n = div-mul_cancel g h in
    let none_left : (g - 1) / g ≡ 0 = div-eq_of_lt (omega arith) in
    let split : (g - 1 + q * g) / g ≡ (g - 1) / g + q = add-mul-div_right (g - 1) q p in
    let regroup : n + (g - 1) ≡ g - 1 + q * g = omega (arith, whole) in
    let count : (n + (g - 1)) / g ≡ q =
      ap (λ t. t / g) regroup ∙ split ∙ omega (arith, none_left) in
    ap (λ t. t * g) count ∙ whole

module _ (D : DecimalApi) (L : DecimalLaws D) where
  open D use {Decimal, plus, minus, round_dp, add, sub, mul, div}
  open L use {
    plus-new, minus-new, plus-to_positive_infinity, plus-to_negative_infinity, one_sign, add_value,
    sub_value, mul_nonneg, div_nonneg,
  }

  -- At most `k` fractional digits.
  abbrev pub OnGrid : ℕ → Decimal → Type 0
  OnGrid k a = step_of k ∣ plus a

  round_up-OnGrid :
      (k n : ℕ) (a : Decimal) → OnGrid k a → OnGrid k (round_dp a n to_positive_infinity)
  round_up-OnGrid k n a h = elim (dec_le n k) [
    | yes p ↦
        subst (λ t. step_of k ∣ t) (sym (plus-to_positive_infinity a n))
          (dvd-mul_left_of_dvd (step_of k) (step-dvd-step n k p) _)
    | no p ↦
        subst (λ t. step_of k ∣ t)
          (sym (
            plus-to_positive_infinity a n
            ∙ ceil-eq_of_dvd (step_of n) (plus a) (step_pos n)
                (dvd_trans (step_of n) (step-dvd-step k n (omega arith)) h)))
          h
  ]

  round_down-OnGrid :
      (k n : ℕ) (a : Decimal) → OnGrid k a → OnGrid k (round_dp a n to_negative_infinity)
  round_down-OnGrid k n a h = elim (dec_le n k) [
    | yes p ↦
        subst (λ t. step_of k ∣ t) (sym (plus-to_negative_infinity a n))
          (dvd-mul_left_of_dvd (step_of k) (step-dvd-step n k p) _)
    | no p ↦
        subst (λ t. step_of k ∣ t)
          (sym (
            plus-to_negative_infinity a n
            ∙ floor-eq_of_dvd (step_of n) (plus a)
                (dvd_trans (step_of n) (step-dvd-step k n (omega arith)) h)))
          h
  ]

  first_round-OnGrid :
      (k : ℕ) (a : Decimal) (side : Side) → OnGrid k (round_dp a k (strategy_for side))
  first_round-OnGrid k a long =
      subst (λ t. step_of k ∣ t) (sym (plus-to_positive_infinity a k))
        (dvd-mul_left_of_dvd (step_of k) (dvd_refl (step_of k)) _)
  first_round-OnGrid k a short =
      subst (λ t. step_of k ∣ t) (sym (plus-to_negative_infinity a k))
        (dvd-mul_left_of_dvd (step_of k) (dvd_refl (step_of k)) _)

  round-OnGrid :
      (k n : ℕ) (a : Decimal) (side : Side)
      → OnGrid k a
      → OnGrid k (round_dp a n (strategy_for side))
  round-OnGrid k n a long h = round_up-OnGrid k n a h
  round-OnGrid k n a short h = round_down-OnGrid k n a h

  round_to_significant_digits-OnGrid :
      (k sig : ℕ) (a : Decimal) (side : Side)
      → OnGrid k a
      → OnGrid k (round_to_significant_digits D a sig (strategy_for side))
  unfolding round_to_significant_digits
  round_to_significant_digits-OnGrid k sig a side h = elim (Bool-cases (le D a (from_nat D 0))) [
    | inl low ↦ rw low h
    | inr high ↦ rw high (round-OnGrid k (allowed_decimals D a sig) a side h)
  ]

  -- A positive price has at most `6 - szDecimals` fractional digits after rounding, whatever the
  -- significant-digit cap does to it.
  pub round_price-OnGrid :
      (px : Decimal) (sz_decimals : ℕ) (side : Side)
      → le D px (from_nat D 0) ≡ false
      → OnGrid (6 - sz_decimals) (round_price D px sz_decimals side)
  unfolding round_price
  round_price-OnGrid px sz_decimals side h = rw h (
      round_to_significant_digits-OnGrid (6 - sz_decimals) 5
        (round_dp px (6 - sz_decimals) (strategy_for side)) side
        (first_round-OnGrid (6 - sz_decimals) px side))

  -- What a taker's limit promises: a buy at or above the best ask, a sell at or below the best bid.
  abbrev pub CrossesTouch : Side → Decimal → Decimal → Decimal → Type 0
  CrossesTouch long best_bid best_ask px = AtMost D L best_ask px
  CrossesTouch short best_bid best_ask px = AtMost D L px best_bid

  -- For a book and a slippage that are not negative, a taker's limit crosses the touch: a buy's is at
  -- or above the best ask, a sell's at or below the best bid.
  pub taker_limit_price-CrossesTouch :
      (best_bid best_ask slippage_bps : Decimal) (side : Side) (sz_decimals : ℕ)
      → minus best_bid ≡ 0
      → minus best_ask ≡ 0
      → minus slippage_bps ≡ 0
      → CrossesTouch side best_bid best_ask
          (taker_limit_price D best_bid best_ask side slippage_bps sz_decimals)
  unfolding taker_limit_price
  taker_limit_price-CrossesTouch best_bid best_ask slippage_bps long sz_decimals hb ha hs =
      let bps : Decimal = div slippage_bps (from_nat D 10000) in
      let cushion : minus (mul best_ask bps) ≡ 0 =
        mul_nonneg best_ask bps ha
          (div_nonneg slippage_bps (from_nat D 10000) hs (minus-new 10000 0)) in
      omega (
        arith,
        cushion,
        add_value best_ask (mul best_ask bps),
        round_price-ge D L (add best_ask (mul best_ask bps)) sz_decimals,
      )
  taker_limit_price-CrossesTouch best_bid best_ask slippage_bps short sz_decimals hb ha hs =
      let bps : Decimal = div slippage_bps (from_nat D 10000) in
      let cushion : minus (mul best_bid bps) ≡ 0 =
        mul_nonneg best_bid bps hb
          (div_nonneg slippage_bps (from_nat D 10000) hs (minus-new 10000 0)) in
      omega (
        arith,
        cushion,
        sub_value best_bid (mul best_bid bps),
        round_price-le D L (sub best_bid (mul best_bid bps)) sz_decimals,
      )
