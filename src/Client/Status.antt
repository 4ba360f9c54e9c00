-- ===== src/Client/Status.antt =====
-- src/client.rs: the vocabulary of order statuses, and the identity check of a status response.
use hype_trigger_twap.Prelude.{
  ℕ, String, Option, some, Bool, true, false, not, ◌&&◌, List, [], ◌∷◌, Result, ok, fail_if, ◌>>◌,
  ◌==◌, any, str_eq,
}
use hype_trigger_twap.Prelude.Text.{codes, codes_eq, to_ascii_lowercase, replace}
use hype_trigger_twap.Decimal.{DecimalApi}
use hype_trigger_twap.Types.{Side, long, short, Cloid, OrderId, Symbol}
use hype_trigger_twap.Errors.{HlError, invalid_response}

-- Each status with its class: `true` where it is terminal.
abbrev pub order_status_vocabulary : List (String × Bool)
order_status_vocabulary =
    ("open", false)
    ∷ ("triggered", false)
    ∷ ("rejected", true)
    ∷ ("tickRejected", true)
    ∷ ("minTradeNtlRejected", true)
    ∷ ("perpMarginRejected", true)
    ∷ ("reduceOnlyRejected", true)
    ∷ ("badAloPxRejected", true)
    ∷ ("iocCancelRejected", true)
    ∷ ("badTriggerPxRejected", true)
    ∷ ("marketOrderNoLiquidityRejected", true)
    ∷ ("positionIncreaseAtOpenInterestCapRejected", true)
    ∷ ("positionFlipAtOpenInterestCapRejected", true)
    ∷ ("tooAggressiveAtOpenInterestCapRejected", true)
    ∷ ("openInterestIncreaseRejected", true)
    ∷ ("insufficientSpotBalanceRejected", true)
    ∷ ("oracleRejected", true)
    ∷ ("perpMaxPositionRejected", true)
    ∷ ("filled", true)
    ∷ ("canceled", true)
    ∷ ("marginCanceled", true)
    ∷ ("reduceOnlyCanceled", true)
    ∷ ("liquidatedCanceled", true)
    ∷ ("vaultWithdrawalCanceled", true)
    ∷ ("openInterestCapCanceled", true)
    ∷ ("selfTradeCanceled", true)
    ∷ ("siblingFilledCanceled", true)
    ∷ ("delistedCanceled", true)
    ∷ ("scheduledCancel", true)
    ∷ []

unfoldable pub normalise_status : String → List ℕ
unfolding to_ascii_lowercase replace
normalise_status s = replace (codes "cancelled") (codes "canceled") (to_ascii_lowercase (codes s))

unfoldable pub is_terminal_order_status : String → Bool
unfolding normalise_status codes_eq
is_terminal_order_status status =
    let got = normalise_status status in
    any (λ e. e.1 && codes_eq (normalise_status e.0) got) order_status_vocabulary

unfoldable pub is_known_order_status : String → Bool
unfolding normalise_status codes_eq
is_known_order_status status =
    let got = normalise_status status in
    any (λ e. codes_eq (normalise_status e.0) got) order_status_vocabulary

-- The exchange's letter for a side.
abbrev pub side_letter : Side → String
side_letter long = "B"
side_letter short = "A"

-- Two cloids differ; a cloid that is absent on either side is no mismatch.
abbrev pub cloid_mismatch : Option Cloid → Option Cloid → Bool
cloid_mismatch (some expected) (some got) = not (expected == got)
cloid_mismatch _ _ = false

module _ (D : DecimalApi) where
  open D use {Decimal}

  pub record OrderStatusFill : Type 0 where
    pub filled_sz : Decimal
    pub avg_px : Option Decimal
    pub status : String
    pub oid : OrderId
    pub cloid : Option Cloid
    pub coin : String
    pub side : String

  pub record UserFill : Type 0 where
    pub coin : String
    pub px : Decimal
    pub sz : Decimal
    pub side : String
    pub time_ms : ℕ
    pub oid : OrderId
    pub tid : ℕ
    pub cloid : Option Cloid

  unfoldable pub cross_check :
      OrderStatusFill → Symbol → Side → Option Cloid → Result HlError (Unit {0})
  cross_check st expected_coin expected_side expected_cloid = do
    fail_if (not (str_eq st.coin expected_coin)) (invalid_response "coin mismatch")
    fail_if (not (str_eq st.side (side_letter expected_side))) (invalid_response "side mismatch")
    fail_if (cloid_mismatch expected_cloid st.cloid) (invalid_response "cloid mismatch")
    ok tt

  unfoldable pub is_terminal : OrderStatusFill → Bool
  is_terminal st = is_terminal_order_status st.status
