-- ===== src/Twap/Place/Contract.antt =====
-- src/twap.rs: what `place_slice_reconciled` may do, as the steps of an abstract machine: its states
-- are what the journal and the exchange may know of the order.
use hype_trigger_twap.Prelude.{
  ℕ, suc, ◌+◌, ◌≤◌, ◌<◌, ◌≡◌, ◌⊎◌, Option, none, some, Bool, true, false, Result, ok, err, String,
}
use hype_trigger_twap.Decimal.{DecimalApi, from_nat}
use hype_trigger_twap.Types.{OrderId}
use hype_trigger_twap.Errors.{HlError, network, exchange}
use hype_trigger_twap.Client.Fill.{
  PlaceOutcome, resting, CreditHolds, ValidatedFill, try_from_status, try_from_place,
}
use hype_trigger_twap.Client.Status.{OrderStatusFill, is_terminal}
use hype_trigger_twap.Twap.Settle.{recover_resting_fill}
use hype_trigger_twap.Twap.Ledger.{SliceOutcome}
use hype_trigger_twap.Twap.Reconcile.{reconcile_by_cloid}
use hype_trigger_twap.Journal.Records.{submitted_unknown, acknowledged}
use hype_trigger_twap.Journal.Replay.{is_valid_journal_terminal_status}
use hype_trigger_twap.Twap.Reconcile.Streaks.{SafeResendBasis}
use hype_trigger_twap.Twap.Place.{
  Event, wrote, sent, PositionTargetGuard, reached_or_crossed, SliceCall, Surroundings,
  PlaceSliceOutcome, Attempt, finished, absent, settled, prepared_record, terminal_record,
  place_resend_limit, unwrap_or,
}

-- `unresolved n`: attempt `n` is the last that was sent, and an unknown outcome is on record.
-- `on_book n oid`: the reply to attempt `n` is that the order rests, and this is its id.
pub data SliceState : Type 0 where
  idle ready in_flight : SliceState
  unresolved : ℕ → SliceState
  on_book : ℕ → OrderId → SliceState
  closed : SliceState

-- The states in which a fill may come to be known.
abbrev pub IsSent : SliceState → Type 0
IsSent in_flight = Unit
IsSent (unresolved n) = Unit
IsSent (on_book n oid) = Unit
IsSent s = ⊥

-- The attempt in flight.
abbrev pub IsAttempt : SliceState → ℕ → Type 0
IsAttempt in_flight n = n ≡ 0
IsAttempt (unresolved m) n = n ≡ m
IsAttempt s n = ⊥

module _ (D : DecimalApi) (c : SliceCall D) (w : Surroundings D) where
  open D use {Decimal, plus, minus}

  -- The guard, if there is one, has read a position short of its target.
  abbrev pub IsShort : Option (PositionTargetGuard D) → Result HlError Decimal → Type 0
  IsShort none current = Unit
  IsShort (some g) current =
      (szi : Decimal) × (current ≡ ok szi) × (reached_or_crossed D g szi ≡ false)

  pub record MaySend (n : ℕ) : Type 0 where
    pub on_time : w.guarded_at n < c.deadline.monotonic
    pub running : w.shutdown_before_send n ≡ false
    pub short_of_target : IsShort c.position_guard (w.position n)

  -- The send of attempt `n` failed in transport, and the exchange has then denied the order for
  -- long enough; the order is not reduce-only.
  pub record IsAbsent (n : ℕ) : Type 0 where
    pub error : String
    pub lost : w.place n ≡ err (network error)
    pub first : ℕ
    pub last : ℕ
    pub basis : SafeResendBasis D (w.replies n) first last
    pub may_increase : c.reduce_only ≡ false

  -- A fill within the order's size, and within its limit where it is positive.
  abbrev pub IsWithinIntent : Decimal → Option Decimal → Type 0
  IsWithinIntent filled avg_px =
      (minus filled ≡ 0)
      × (plus filled + minus c.intent.sz ≤ plus c.intent.sz + minus filled)
      × ((plus filled ≡ 0) ⊎ CreditHolds D c.intent filled avg_px)

  -- The exchange has shown the status of the order: as the order's that rests, settled; in answer to
  -- the queries after an unknown outcome; or in answer to the probe, settled where it was live.
  pub data IsShown : SliceState → OrderStatusFill D → Type 0 where
    by_settling :
        (n : ℕ) (oid : OrderId) (st : OrderStatusFill D)
        → recover_resting_fill D (w.settling n) c.plan c.intent.cloid oid c.intent ≡ ok st
        → IsShown (on_book n oid) st
    by_queries :
        (n : ℕ) (st : OrderStatusFill D)
        → reconcile_by_cloid D (w.replies n) c.plan c.intent.cloid ≡ ok (some st)
        → IsShown (unresolved n) st
    by_probe :
        (st : OrderStatusFill D)
        → w.probe ≡ ok (some st)
        → is_terminal D st ≡ true
        → IsShown (unresolved 0) st
    by_settled_probe :
        (live st : OrderStatusFill D)
        → w.probe ≡ ok (some live)
        → recover_resting_fill D (w.settling 0) c.plan c.intent.cloid live.oid c.intent ≡ ok st
        → IsShown (unresolved 0) st

  -- The status, the size and the price are those of a status that the exchange has shown, or of a
  -- reply that the order is filled, as their validation leaves them.
  pub data IsCredited : SliceState → String → Decimal → Option Decimal → Type 0 where
    by_status :
        (s : SliceState) (st : OrderStatusFill D) (vf : ValidatedFill D)
        → IsShown s st
        → try_from_status D st c.intent ≡ ok vf
        → IsCredited s st.status vf.filled_sz vf.avg_px
    by_reply :
        (s : SliceState) (n : ℕ) (oid : OrderId) (total_sz px : Decimal) (vf : ValidatedFill D)
        → IsAttempt s n
        → w.place n ≡ ok (PlaceOutcome.filled oid total_sz px)
        → try_from_place D (PlaceOutcome.filled oid total_sz px) c.intent ≡ ok vf
        → IsCredited s "filled" vf.filled_sz (some (unwrap_or D vf.avg_px c.intent.px))

  pub data SliceStep : SliceState → Event → SliceState → Type 0 where
    prepare : SliceStep idle (wrote (prepared_record D c)) ready
    send_first : MaySend 0 → SliceStep ready (sent 0) in_flight
    send_again :
        (n : ℕ)
        → IsAbsent n
        → n < place_resend_limit
        → MaySend (suc n)
        → SliceStep (unresolved n) (sent (suc n)) (unresolved (suc n))
    mark : SliceStep in_flight (wrote (submitted_unknown c.slice_idx c.intent.cloid)) (unresolved 0)
    acknowledge :
        (s : SliceState) (n : ℕ) (oid : OrderId)
        → IsAttempt s n
        → w.place n ≡ ok (resting oid)
        → SliceStep s
            (wrote (acknowledged c.slice_idx c.intent.cloid (some oid) "resting"))
            (on_book n oid)
    close_unsent :
        (status : String)
        → is_valid_journal_terminal_status status ≡ true
        → SliceStep ready (wrote (terminal_record D c status (from_nat D 0) none)) closed
    close_absent :
        (n : ℕ) (status : String)
        → IsAbsent n
        → is_valid_journal_terminal_status status ≡ true
        → SliceStep (unresolved n) (wrote (terminal_record D c status (from_nat D 0) none)) closed
    close_rejected :
        (s : SliceState) (n : ℕ) (code : Option String) (message status : String)
        → IsAttempt s n
        → w.place n ≡ err (exchange code message)
        → is_valid_journal_terminal_status status ≡ true
        → SliceStep s (wrote (terminal_record D c status (from_nat D 0) none)) closed
    close_credited :
        (s : SliceState) (status : String) (filled : Decimal) (avg_px : Option Decimal)
        → IsSent s
        → IsCredited s status filled avg_px
        → IsWithinIntent filled avg_px
        → is_valid_journal_terminal_status status ≡ true
        → SliceStep s (wrote (terminal_record D c status filled avg_px)) closed

  -- A fill that is returned is one that the exchange has shown, at its size and price.
  pub record IsShownOutcome (o : SliceOutcome D) : Type 0 where
    pub from : SliceState
    pub status : String
    pub avg_px : Option Decimal
    pub credited : IsCredited from status o.sz avg_px
    pub priced : o.px ≡ unwrap_or D avg_px c.intent.px

  -- What is returned agrees with the state: the order is closed; and what is credited is within
  -- its size, and is what the exchange has shown.
  abbrev pub IsReported : SliceState → PlaceSliceOutcome D → Type 0
  IsReported s (settled o) =
      (s ≡ closed)
      × (minus o.sz ≡ 0)
      × (plus o.sz + minus c.intent.sz ≤ plus c.intent.sz + minus o.sz)
      × IsShownOutcome o
  IsReported s _ = s ≡ closed

  -- What an attempt leaves: the report of its outcome, or an order that is proved absent.
  abbrev pub After : ℕ → SliceState → Attempt D → Type 0
  After n s (finished outcome) = IsReported s outcome
  After n s absent = (s ≡ unresolved n) × IsAbsent n

  -- The state at the beginning of attempt `n`, by the mark.
  pub data AtLoop : ℕ → Bool → SliceState → Type 0 where
    at_first : AtLoop 0 false ready
    at_resend : (n : ℕ) → IsAbsent n → n < place_resend_limit → AtLoop (suc n) true (unresolved n)

  -- The state after the send of attempt `n`.
  pub data AtReply : ℕ → Bool → SliceState → Type 0 where
    first_reply : AtReply 0 false in_flight
    later_reply : (n : ℕ) → AtReply n true (unresolved n)
