-- ===== src/Twap/Place.antt =====
-- src/twap.rs: `place_slice_reconciled`, which places one slice's order and settles what became of
-- it, with the journal's records and the sends as a log of effects.
pub mod Contract
pub mod Credit
pub mod Closing
pub mod Replying
pub mod Refinement
pub mod Sends
pub mod Records
pub mod Taken
pub mod Acceptance
use hype_trigger_twap.Prelude.{
  ℕ, zero, suc, ◌+◌, Option, none, some, Bool, true, false, Result, ok, err, ok_or, String, List,
  if◌then◌else◌,
}
use hype_trigger_twap.Prelude.Runs.{Logged, ◌>>=◌, ◌>>◌, lift, emit}
use hype_trigger_twap.Decimal.{DecimalApi, from_nat, le}
use hype_trigger_twap.Types.{Side, long, short, Cloid, OrderId, OrderIntent}
use hype_trigger_twap.Errors.{HlError, network, invalid_response, invalid_config, exchange}
use hype_trigger_twap.Client.Status.{OrderStatusFill}
use hype_trigger_twap.Client.Fill.{
  PlaceOutcome, filled, resting, ValidatedFill, try_from_place, try_from_status,
}
use hype_trigger_twap.Twap.Schedule.{ExecutionDeadline, check_before_send}
use hype_trigger_twap.Twap.Ledger.{SliceOutcome}
use hype_trigger_twap.Twap.Settle.{SettlePlan, World, recover_resting_fill}
use hype_trigger_twap.Twap.Reconcile.{Replies, Reconciled, reconcile_by_cloid}
use hype_trigger_twap.Journal.Records.{
  JournalRecord, prepared, submitted_unknown, acknowledged, terminal, PreparedJournalIntent,
}

abbrev pub place_resend_limit : ℕ
place_resend_limit = 2

-- What leaves the process: a durable record, or the send of an attempt.
pub data Event : Type 0 where
  wrote : JournalRecord → Event
  sent : ℕ → Event

-- The attached journal: whether the write of a record succeeds.
abbrev pub Sink : Type 0
Sink = Option (JournalRecord → Bool)

abbrev pub Placing : Type 0 → Type 0
Placing A = Logged Event HlError A

abbrev fail : {A : Type 0} → HlError → Placing A
fail e = lift (err e)

abbrev pub write : Bool → JournalRecord → Placing (Unit {0})
write true r = emit (wrote r)
write false r = lift (err (invalid_response "journal write failed"))

-- `ExecutionJournal::record`, where a journal is attached.
unfoldable pub record_in : Sink → JournalRecord → Placing (Unit {0})
record_in none r = lift (ok tt)
record_in (some accepts) r = write (accepts r) r

module _ (D : DecimalApi) where
  open D use {Decimal, to_string}

  -- `PositionTargetGuard`; its master is the address of the replies.
  pub record PositionTargetGuard : Type 0 where
    pub target_szi : Decimal
    pub side : Side

  abbrev reached : Side → Decimal → Decimal → Bool
  reached long current target = le D target current
  reached short current target = le D current target

  unfoldable pub reached_or_crossed : PositionTargetGuard → Decimal → Bool
  reached_or_crossed g current_szi = reached g.side current_szi g.target_szi

  -- What the function is called with.
  pub record SliceCall : Type 0 where
    pub plan : SettlePlan
    pub reduce_only : Bool
    pub intent : OrderIntent D
    pub deadline : ExecutionDeadline
    pub slice_idx : ℕ
    pub sink : Sink
    pub position_guard : Option PositionTargetGuard

  -- What every order of a run is placed with.
  pub record RunCall : Type 0 where
    pub plan : SettlePlan
    pub reduce_only : Bool
    pub deadline : ExecutionDeadline
    pub sink : Sink
    pub position_guard : Option PositionTargetGuard

  abbrev pub slice_call : RunCall → ℕ → OrderIntent D → SliceCall
  slice_call r slice_idx intent = record {
    plan = r.plan;
    reduce_only = r.reduce_only;
    intent = intent;
    deadline = r.deadline;
    slice_idx = slice_idx;
    sink = r.sink;
    position_guard = r.position_guard;
  }

  -- What the outside gives in attempt `n`: the position read before the send, the reply to it, the
  -- replies while a resting order settles, and those to the queries by cloid; the instants of the
  -- deadline checks; and whether shutdown was requested by then.
  pub record Surroundings : Type 0 where
    pub started_at : ℕ
    pub looped_at : ℕ → ℕ
    pub position : ℕ → Result HlError Decimal
    pub guarded_at : ℕ → ℕ
    pub shutdown_before_send : ℕ → Bool
    pub place : ℕ → Result HlError (PlaceOutcome D)
    pub settling : ℕ → World D
    pub replies : ℕ → Replies D
    -- the reply to the one query by cloid after an ambiguous post-only send
    pub probe : Reconciled D
    pub shutdown_after_reconcile : ℕ → Bool
    pub reconciled_at : ℕ → ℕ

  pub data PlaceSliceOutcome : Type 0 where
    settled : SliceOutcome D → PlaceSliceOutcome
    position_target_reached shutdown_requested : PlaceSliceOutcome

  -- An attempt ends the function, or proves the order absent.
  pub data Attempt : Type 0 where
    finished : PlaceSliceOutcome → Attempt
    absent : Attempt

  abbrev pub text_of : Option Decimal → Option String
  text_of none = none
  text_of (some px) = some (to_string px)

  abbrev pub unwrap_or : Option Decimal → Decimal → Decimal
  unwrap_or none px = px
  unwrap_or (some avg) px = avg

  abbrev pub prepared_record : SliceCall → JournalRecord
  prepared_record c = prepared c.intent.cloid none (record {
    slice_idx = c.slice_idx;
    symbol = c.intent.symbol;
    side = c.intent.side;
    tif = some c.intent.tif;
    px = to_string c.intent.px;
    sz = to_string c.intent.sz;
  })

  abbrev pub terminal_record : SliceCall → String → Decimal → Option Decimal → JournalRecord
  terminal_record c status filled_sz avg_px =
      terminal c.slice_idx c.intent.cloid
        (record { status = status; filled_sz = to_string filled_sz; avg_px = text_of avg_px })

  unfoldable pub journal_terminal :
      SliceCall → String → Decimal → Option Decimal → Placing (Unit {0})
  journal_terminal c status filled_sz avg_px =
      record_in c.sink (terminal_record c status filled_sz avg_px)

  -- A zero fill is recorded, and the function returns.
  abbrev pub close_unfilled : SliceCall → String → PlaceSliceOutcome → Placing Attempt
  close_unfilled c status outcome =
      journal_terminal c status (from_nat D 0) none >> lift (ok (finished outcome))

  -- `PositionTargetGuard::check_before_place`, and the close of the intent where the read fails.
  unfoldable pub position_check :
      SliceCall → Option PositionTargetGuard → Result HlError Decimal → Placing Bool
  position_check c none current = lift (ok false)
  position_check c (some g) (ok szi) = lift (ok (reached_or_crossed g szi))
  position_check c (some g) (err e) = do
    journal_terminal c "neverReceived" (from_nat D 0) none
    fail (invalid_response "position check failed closed")

  -- A terminal status is credited after its validation against the intent.
  unfoldable pub credit_status : SliceCall → OrderStatusFill D → Placing Attempt
  credit_status c st = do
    vf ← lift (try_from_status D st c.intent)
    journal_terminal c st.status vf.filled_sz vf.avg_px
    lift (
        ok
          (finished (settled (record { sz = vf.filled_sz; px = unwrap_or vf.avg_px c.intent.px }))))

  unfoldable pub credit_place : SliceCall → OrderId → Decimal → Decimal → Placing Attempt
  credit_place c oid total_sz avg_px = do
    vf ← lift (try_from_place D (filled oid total_sz avg_px) c.intent)
    let px = unwrap_or vf.avg_px c.intent.px
    journal_terminal c "filled" vf.filled_sz (some px)
    lift (ok (finished (settled (record { sz = vf.filled_sz; px = px }))))

  -- The answer of the reconciliation.
  unfoldable pub after_reconcile : SliceCall → Surroundings → ℕ → Reconciled D → Placing Attempt
  after_reconcile c w n (ok (some st)) = credit_status c st
  after_reconcile c w n (ok none) =
      if c.reduce_only
      then fail (invalid_response "ambiguous reduce-only order absent")
      else if w.shutdown_after_reconcile n
      then close_unfilled c "neverReceived" shutdown_requested
      else do lift (check_before_send c.deadline (w.reconciled_at n)); lift (ok absent)
  after_reconcile c w n (err e) = fail (invalid_response "place outcome unknown")

  abbrev pub mark_unknown : SliceCall → Bool → Placing (Unit {0})
  mark_unknown c true = lift (ok tt)
  mark_unknown c false = record_in c.sink (submitted_unknown c.slice_idx c.intent.cloid)

  -- The reply to a send; `is_marked` once SubmittedUnknown is recorded.
  unfoldable pub handle_reply :
      SliceCall → Surroundings → ℕ → Bool → Result HlError (PlaceOutcome D) → Placing Attempt
  handle_reply c w n is_marked (ok (filled oid total_sz avg_px)) =
      credit_place c oid total_sz avg_px
  handle_reply c w n is_marked (ok (resting oid)) = do
    record_in c.sink (acknowledged c.slice_idx c.intent.cloid (some oid) "resting")
    st ← lift (recover_resting_fill D (w.settling n) c.plan c.intent.cloid oid c.intent)
    credit_status c st
  handle_reply c w n is_marked (err (exchange code message)) = do
    journal_terminal c "rejected" (from_nat D 0) none
    fail (exchange code message)
  handle_reply c w n is_marked (err (network e)) = do
    mark_unknown c is_marked
    user ← lift (ok_or c.plan.master (invalid_config "orderStatus requires the master address"))
    after_reconcile c w n (reconcile_by_cloid D (w.replies n) c.plan c.intent.cloid)
  handle_reply c w n is_marked (err e) = fail e

  -- The checks after the position was read, the send, and its reply.
  unfoldable pub send_once : SliceCall → Surroundings → ℕ → Bool → Placing Attempt
  send_once c w n is_marked = do
    lift (check_before_send c.deadline (w.guarded_at n))
    (if w.shutdown_before_send n
        then close_unfilled c "neverReceived" shutdown_requested
        else do emit (sent n); handle_reply c w n is_marked (w.place n))

  unfoldable pub attempt_once : SliceCall → Surroundings → ℕ → Bool → Placing Attempt
  attempt_once c w n is_marked = do
    lift (check_before_send c.deadline (w.looped_at n))
    is_reached ← position_check c c.position_guard (w.position n)
    (if is_reached
        then close_unfilled c "positionTargetReached" position_target_reached
        else send_once c w n is_marked)

  abbrev pub unless_absent : Attempt → Placing PlaceSliceOutcome → Placing PlaceSliceOutcome
  unless_absent (finished outcome) next = lift (ok outcome)
  unless_absent absent next = next

  -- The loop, with `resends` to go after attempt `n`; only the first attempt finds no mark.
  unfoldable pub place_from : SliceCall → Surroundings → ℕ → ℕ → Bool → Placing PlaceSliceOutcome
  place_from c w zero n is_marked = do
    result ← attempt_once c w n is_marked
    unless_absent result (fail (network "the order was never received"))
  place_from c w (suc resends) n is_marked = do
    result ← attempt_once c w n is_marked
    unless_absent result (place_from c w resends (suc n) true)

  unfoldable pub place_slice_reconciled : SliceCall → Surroundings → Placing PlaceSliceOutcome
  place_slice_reconciled c w = do
    lift (check_before_send c.deadline w.started_at)
    record_in c.sink (prepared_record c)
    place_from c w place_resend_limit 0 false
