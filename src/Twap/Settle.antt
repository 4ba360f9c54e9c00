-- ===== src/Twap/Settle.antt =====
-- src/twap.rs: settling an order that may rest on the book. The exchange is a parameter: `World`
-- gives its replies in the order in which they are asked for, and the clock's readings.
pub mod Polling
pub mod Outcome
use hype_trigger_twap.Prelude.{
  ℕ, zero, suc, ◌+◌, ◌-◌, Option, none, some, Bool, true, false, not, ◌&&◌, Result, ok, err,
  fail_if, ok_or, map_err, ◌>>=◌, ◌>>◌, ◌==◌, if◌then◌else◌, String, str_eq, List,
}
use Prim.Native.Nat.{max}
use hype_trigger_twap.Prelude.Text.{codes, contains}
use hype_trigger_twap.Decimal.{DecimalApi}
use hype_trigger_twap.Types.{Side, Symbol, Cloid, OrderId, Address, OrderIntent}
use hype_trigger_twap.Errors.{HlError, exchange, invalid_response, invalid_config}
use hype_trigger_twap.Client.Status.{
  OrderStatusFill, UserFill, cross_check, is_terminal, side_letter,
}
use hype_trigger_twap.Client.Fill.{ValidatedFill, try_from_status}
use hype_trigger_twap.Twap.Schedule.{order_status_retry_delay_settle}
use hype_trigger_twap.Twap.Ledger.{SliceOutcome, aggregate_verified_user_fills}

pub data CancelConfirmation : Type 0 where
  unconfirmed cancelled not_live : CancelConfirmation

abbrev pub confirmed : CancelConfirmation → Bool
confirmed unconfirmed = false
confirmed _ = true

abbrev is_cancel_error : Option String → Bool
is_cancel_error (some code) = str_eq code "cancel_error"
is_cancel_error none = false

unfoldable pub is_cancel_of_non_live_order : HlError → Bool
is_cancel_of_non_live_order (exchange code message) =
    is_cancel_error code
    && contains (codes "Order was never placed, already canceled, or filled") (codes message)
is_cancel_of_non_live_order _ = false

abbrev after_reply : Result HlError (Unit {0}) → CancelConfirmation
after_reply (ok _) = cancelled
after_reply (err e) = if is_cancel_of_non_live_order e then not_live else unconfirmed

-- `SettleCancel::send`, with the reply that a send gets; a confirmed cancel is not sent again.
unfoldable pub send : CancelConfirmation → Result HlError (Unit {0}) → CancelConfirmation
send c reply = if confirmed c then c else after_reply reply

-- The part of `TwapPlan` that settling reads.
pub record SettlePlan : Type 0 where
  pub symbol : Symbol
  pub side : Side
  pub settle_retries : ℕ
  pub master : Option Address

module _ (D : DecimalApi) where
  open D use {Decimal}

  -- `status n` answers the poll of attempt `n`; `cancel n` the cancel sent after that attempt,
  -- `first_cancel` the one before the first; `ledger from to` a query of the fill ledger.
  pub record World : Type 0 where
    pub status : ℕ → Result HlError (Option (OrderStatusFill D))
    pub first_cancel : Result HlError (Unit {0})
    pub cancel : ℕ → Result HlError (Unit {0})
    pub ledger : ℕ → ℕ → Result HlError (List (UserFill D))
    pub cancel_started_ms : ℕ
    pub cancel_settled_ms : ℕ

  -- What one reply settles: a result, or nothing yet.
  pub data Verdict : Type 0 where
    settled : Result HlError (OrderStatusFill D) → Verdict
    pending : Verdict

  unfoldable pub accept_terminal :
      SettlePlan → OrderId → Cloid → OrderStatusFill D → Result HlError (OrderStatusFill D)
  accept_terminal plan oid cloid st = do
    fail_if (not (st.oid == oid)) (invalid_response "oid mismatch")
    cross_check D st plan.symbol plan.side (some cloid)
    ok st

  unfoldable pub judge :
      SettlePlan → OrderId → Cloid → Result HlError (Option (OrderStatusFill D)) → Verdict
  judge plan oid cloid (ok (some st)) =
      if is_terminal D st then settled (accept_terminal plan oid cloid st) else pending
  judge plan oid cloid (ok none) = pending
  judge plan oid cloid (err e) = pending

  -- The outcome of polling, what is known of the cancel, and the milliseconds slept.
  pub record Polled : Type 0 where
    pub result : Result HlError (OrderStatusFill D)
    pub cancel : Option CancelConfirmation
    pub slept_ms : ℕ

  abbrev resend : Option CancelConfirmation → Result HlError (Unit {0}) → Option CancelConfirmation
  resend none reply = none
  resend (some c) reply = some (send c reply)

  -- The loop with `left` attempts to go; between attempts the cancel is sent again and the delay
  -- is slept, after the last one neither.
  unfoldable pub poll_from :
      World → SettlePlan → OrderId → Cloid → ℕ → ℕ → Option CancelConfirmation → ℕ → Polled
  poll_from w plan oid cloid zero attempt c slept = record {
    result = err (invalid_response "no terminal status");
    cancel = c;
    slept_ms = slept;
  }
  poll_from w plan oid cloid (suc left) attempt c slept =
      elim (judge plan oid cloid (w.status attempt)) [
        | settled r ↦ record { result = r; cancel = c; slept_ms = slept }
        | pending ↦
            poll_from w plan oid cloid left (attempt + 1)
              (if left == 0 then c else resend c (w.cancel attempt))
              (if left == 0 then slept else slept + order_status_retry_delay_settle attempt)
      ]

  unfoldable pub poll_terminal_status :
      World → SettlePlan → OrderId → Cloid → Option CancelConfirmation → Polled
  poll_terminal_status w plan oid cloid c = poll_from w plan oid cloid plan.settle_retries 0 c 0

  abbrev pub is_confirmed : Option CancelConfirmation → Bool
  is_confirmed none = false
  is_confirmed (some c) = confirmed c

  -- The fallback on the fill ledger, once a confirmed cancel has closed the order.
  unfoldable pub recover_from_ledger :
      World → SettlePlan → OrderId → Cloid → OrderIntent D → Result HlError (OrderStatusFill D)
  recover_from_ledger w plan oid cloid intent = do
    fills ←
        map_err (λ _. invalid_response "userFillsByTime fallback failed")
          (w.ledger (w.cancel_started_ms - 10000) (max w.cancel_settled_ms w.cancel_started_ms))
    aggregate ←
        map_err (λ _. invalid_response "userFillsByTime fallback rejected")
          (aggregate_verified_user_fills D fills intent oid true)
    let status : OrderStatusFill D = record {
      filled_sz = aggregate.sz;
      avg_px = some aggregate.px;
      status = "canceled";
      oid = oid;
      cloid = some cloid;
      coin = plan.symbol;
      side = side_letter plan.side;
    }
    credited ← try_from_status D status intent
    ok status

  abbrev pub or_ledger :
      Result HlError (OrderStatusFill D)
      → Bool
      → Result HlError (OrderStatusFill D)
      → Result HlError (OrderStatusFill D)
  or_ledger (ok st) is_closed fallback = ok st
  or_ledger (err e) is_closed fallback = if is_closed then fallback else err e

  unfoldable pub recover_resting_fill :
      World → SettlePlan → Cloid → OrderId → OrderIntent D → Result HlError (OrderStatusFill D)
  recover_resting_fill w plan cloid oid intent = do
    user ← ok_or plan.master (invalid_config "orderStatus requires the master address")
    let polled = poll_terminal_status w plan oid cloid (some (send unconfirmed w.first_cancel))
    or_ledger polled.result (is_confirmed polled.cancel)
        (recover_from_ledger w plan oid cloid intent)
