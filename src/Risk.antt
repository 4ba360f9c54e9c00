-- ===== src/Risk.antt =====
-- src/risk.rs: the risk envelope, checked before any access to the network and before each order.
pub mod Endpoint
pub mod Envelope
pub mod Authority
pub mod Loopback
use hype_trigger_twap.Prelude.{
  Bool, true, false, not, ◌&&◌, Option, none, some, Result, ok, err, fail_if, ok_or, ◌>>◌, ◌>>=◌,
}
use hype_trigger_twap.Decimal.{DecimalApi, from_nat, lt, le, max}
use hype_trigger_twap.Types.{Side, long, short}

module _ (D : DecimalApi) where
  open D use {Decimal, max_value}

  abbrev pub slippage_hard_cap_bps : Decimal
  slippage_hard_cap_bps = from_nat D 10000

  abbrev pub slippage_warn_threshold_bps : Decimal
  slippage_warn_threshold_bps = from_nat D 1000

  -- The errors of the decimal checks.
  pub data RiskError : Type 0 where
    slippage_hard_cap_exceeded : Decimal → Decimal → RiskError
    slippage_warn_threshold_exceeded : Decimal → Decimal → RiskError
    negative_slippage : Decimal → RiskError
    non_positive_limit_price : Decimal → Side → Decimal → Decimal → Decimal → RiskError
    max_notional_required : RiskError
    non_positive_max_notional : Decimal → RiskError
    notional_cap_exceeded : Decimal → Decimal → RiskError

  unfoldable pub validate_slippage : Decimal → Bool → Result RiskError (Unit {0})
  validate_slippage slippage_bps allow_high_slippage = do
    fail_if (lt D slippage_bps (from_nat D 0)) (negative_slippage slippage_bps)
    fail_if (le D slippage_hard_cap_bps slippage_bps)
        (slippage_hard_cap_exceeded slippage_bps slippage_hard_cap_bps)
    fail_if (lt D slippage_warn_threshold_bps slippage_bps && not allow_high_slippage)
        (slippage_warn_threshold_exceeded slippage_bps slippage_warn_threshold_bps)

  unfoldable pub validate_limit_price :
      Decimal → Side → Decimal → Decimal → Decimal → Result RiskError (Unit {0})
  validate_limit_price px side bps bid ask =
      fail_if (le D px (from_nat D 0)) (non_positive_limit_price px side bps bid ask)

  abbrev pub positive_cap : Decimal → Result RiskError Decimal
  positive_cap cap = fail_if (le D cap (from_nat D 0)) (non_positive_max_notional cap) >> ok cap

  -- A cap is required of a live run only; where none is given, the largest decimal is the cap.
  unfoldable pub validate_max_notional_required : Bool → Option Decimal → Result RiskError Decimal
  validate_max_notional_required true none = ok max_value
  validate_max_notional_required true (some cap) = positive_cap cap
  validate_max_notional_required false max_notional_usd =
      ok_or max_notional_usd max_notional_required >>= positive_cap

  unfoldable pub taker_notional_price : Decimal → Decimal → Side → Decimal
  taker_notional_price limit_px best_bid long = limit_px
  taker_notional_price limit_px best_bid short = max D limit_px best_bid

  unfoldable pub check_notional_cap : Decimal → Decimal → Result RiskError (Unit {0})
  check_notional_cap requested cap =
      fail_if (lt D cap requested) (notional_cap_exceeded requested cap)
