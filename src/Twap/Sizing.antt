-- ===== src/Twap/Sizing.antt =====
-- src/twap.rs: pre-flight sizing, the size of each slice with catch-up, and the decision on it.
pub mod Bounds
use hype_trigger_twap.Prelude.{
  ℕ, Bool, true, false, Result, ok, err, fail_if, ◌>>=◌, ◌>>◌, if◌then◌else◌, leb, Option, none,
  some,
}
use hype_trigger_twap.Decimal.{DecimalApi, from_nat, lt, le}
use hype_trigger_twap.Format.{round_size}

module _ (D : DecimalApi) where
  open D use {Decimal, new, add, sub, mul, div}

  -- `dec!(10)` and `dec!(1.01)`
  abbrev pub min_notional_usd : Decimal
  min_notional_usd = new 10 0

  abbrev pub min_notional_margin : Decimal
  min_notional_margin = new 101 2

  abbrev pub min_notional_gate : Decimal
  min_notional_gate = mul min_notional_usd min_notional_margin

  pub data PreflightError : Type 0 where
    per_slice_zero : Decimal → ℕ → ℕ → PreflightError
    per_slice_below_min_notional : Decimal → Decimal → PreflightError
    non_positive_total : Decimal → PreflightError
    non_positive_mid : Decimal → PreflightError

  pub record Sizing : Type 0 where
    pub per_slice : Decimal
    pub total_adjusted : Decimal

  unfoldable pub compute_sizing : Decimal → ℕ → ℕ → Decimal → Result PreflightError Sizing
  compute_sizing total_coin slices sz_decimals mid = do
    fail_if (le D total_coin (from_nat D 0)) (non_positive_total total_coin)
    let per_slice = round_size D (div total_coin (from_nat D slices)) sz_decimals
    fail_if (le D per_slice (from_nat D 0)) (per_slice_zero total_coin slices sz_decimals)
    let notional = mul per_slice mid
    fail_if (lt D notional min_notional_usd)
        (per_slice_below_min_notional notional min_notional_usd)
    ok (record { per_slice = per_slice; total_adjusted = mul per_slice (from_nat D slices) })

  unfoldable pub usd_to_coin : Decimal → Decimal → Result PreflightError Decimal
  usd_to_coin usd mid =
      if le D mid (from_nat D 0) then err (non_positive_mid mid) else ok (div usd mid)

  -- `slice_idx` is 1-based; the last slice takes what rounding left.
  unfoldable pub target_at_slice : ℕ → ℕ → Decimal → Decimal → Decimal
  target_at_slice slice_idx slices per_slice total_adjusted =
      if leb slices slice_idx then total_adjusted else mul per_slice (from_nat D slice_idx)

  unfoldable pub slice_order_size : ℕ → ℕ → Decimal → Decimal → Decimal → ℕ → Decimal
  slice_order_size slice_idx slices per_slice total_adjusted filled_so_far sz_decimals =
      let target = target_at_slice slice_idx slices per_slice total_adjusted in
      let raw = sub target filled_so_far in
      if le D raw (from_nat D 0) then from_nat D 0 else round_size D raw sz_decimals

  pub data SliceDecision : Type 0 where
    place : Decimal → SliceDecision
    skip_ahead : SliceDecision
    skip_below_min_notional : Decimal → Decimal → SliceDecision

  unfoldable pub decide_slice : ℕ → ℕ → Decimal → Decimal → Decimal → ℕ → Decimal → SliceDecision
  decide_slice slice_idx slices per_slice total_adjusted filled_so_far sz_decimals order_px =
      let sz =
        slice_order_size slice_idx slices per_slice total_adjusted filled_so_far sz_decimals in
      if le D sz (from_nat D 0)
      then skip_ahead
      else (let notional = mul sz order_px in
          if lt D notional min_notional_gate then skip_below_min_notional sz notional else place sz)
