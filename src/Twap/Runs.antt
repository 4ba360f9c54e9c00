-- ===== src/Twap/Runs.antt =====
-- src/twap.rs: the loop over the slices from its beginning to its report.
use hype_trigger_twap.Prelude.{
  ℕ, zero, suc, ◌+◌, ◌-◌, ◌*◌, Option, none, some, Result, ok, err, String,
}
use hype_trigger_twap.Prelude.Runs.{◌>>=◌, lift}
use hype_trigger_twap.Decimal.{DecimalApi}
use hype_trigger_twap.Errors.{HlError}
use hype_trigger_twap.Twap.Schedule.{ExecutionDeadline, new_deadline, slice_deadline}
use hype_trigger_twap.Twap.Ledger.{SliceOutcome}
use hype_trigger_twap.Twap.Settle.{World}
use hype_trigger_twap.Twap.Place.{Sink, PositionTargetGuard, RunCall}
use hype_trigger_twap.Twap.Alo.{RestingChild, settle_call, settle_resting_child}
use hype_trigger_twap.Twap.Stats.{
  TwapPlan, with_prior_notional, avg_px, of_order, TwapReport, settled_left,
}
use hype_trigger_twap.Twap.Slices.{SliceWorld, RunState, Running, credit_settled, open_slice}
use hype_trigger_twap.Twap.Trades.{trade_slice}

module _ (D : DecimalApi) where
  open D use {Decimal, add, mul}

  -- `starts_at` is the start of the run in nanoseconds.
  unfoldable pub slice_once :
      TwapPlan D → RunCall D → ℕ → ℕ → SliceWorld D → RunState D → Running D (RunState D)
  slice_once plan run starts_at slice_idx w s = do
    opened ← open_slice D plan run slice_idx w s
    trade_slice D plan run slice_idx
        (slice_deadline starts_at (plan.duration * 1000000) slice_idx plan.slices) w opened

  -- `left` slices to go, from slice `slice_idx` on.
  unfoldable pub run_slices :
      TwapPlan D
      → RunCall D
      → ℕ
      → (ℕ → (SliceWorld D))
      → ℕ
      → ℕ
      → RunState D
      → Running D (RunState D)
  run_slices plan run starts_at worlds zero slice_idx s = lift (ok s)
  run_slices plan run starts_at worlds (suc left) slice_idx s = do
    s' ← slice_once plan run starts_at slice_idx (worlds slice_idx) s
    run_slices plan run starts_at worlds left (slice_idx + 1) s'

  abbrev pub final_state : Result (RunState D) (RunState D) → RunState D
  final_state (ok s) = s
  final_state (err s) = s

  abbrev pub get_or_insert_reason : Option String → String → Option String
  get_or_insert_reason none reason = some reason
  get_or_insert_reason (some first) reason = some first

  abbrev pub note_cleanup : RunState D → Result HlError (SliceOutcome D) → RunState D
  note_cleanup s (ok o) = credit_settled D s o
  note_cleanup s (err e) = record s {
    abort_reason = get_or_insert_reason s.abort_reason "final cleanup failed";
  }

  -- The order that rests when the loop is over.
  unfoldable pub clean_up :
      RunCall D → World D → RunState D → Option (RestingChild D) → Running D (RunState D)
  clean_up run w s none = lift (ok s)
  clean_up run w s (some child) = do
    r ←
        of_order D s.stats (settle_call D run child).intent (settled_left D)
          (settle_resting_child D run w child)
    lift (ok (note_cleanup (record s { resting = none }) r))

  abbrev pub initial : Decimal → RunState D
  initial prior = record {
    stats = with_prior_notional D prior;
    slices_executed = 0;
    slices_skipped = 0;
    abort_reason = none;
    resting = none;
  }

  -- The deadline of the whole run: the given one, or the end of its duration. Milliseconds.
  unfoldable pub run_deadline : TwapPlan D → ℕ → ℕ → ExecutionDeadline
  run_deadline plan start now_wall = elim plan.absolute_deadline_unix_ms [
    | some expires_after_ms ↦ record {
      monotonic = start + (expires_after_ms - now_wall);
      expires_after_ms = expires_after_ms;
    }
    | none ↦ new_deadline start plan.duration now_wall
  ]

  abbrev pub run_call :
      TwapPlan D → ExecutionDeadline → Sink → Option (PositionTargetGuard D) → RunCall D
  run_call plan deadline sink guard = record {
    plan = plan.settle;
    reduce_only = plan.reduce_only;
    deadline = deadline;
    sink = sink;
    position_guard = guard;
  }

  -- What a run reads of the outside: both clocks at its start, its slices, and the replies of the
  -- last settling.
  pub record RunWorld : Type 0 where
    pub start_ms : ℕ
    pub start_ns : ℕ
    pub wall_ms : ℕ
    pub slices : ℕ → SliceWorld D
    pub settling : World D

  unfoldable pub run_loop :
      TwapPlan D
      → Sink
      → Option (PositionTargetGuard D)
      → Decimal
      → RunWorld
      → Running D (RunState D)
  run_loop plan sink guard prior w = do
    let run = run_call plan (run_deadline plan w.start_ms w.wall_ms) sink guard
    let loop = run_slices plan run w.start_ns w.slices plan.slices 1 (initial prior)
    s ← record { events = loop.events; result = ok (final_state loop.result) }
    clean_up run w.settling s s.resting

  unfoldable pub report_of : TwapPlan D → RunState D → TwapReport D
  report_of plan s = record {
    total_requested = plan.total_requested;
    total_adjusted = plan.total_adjusted;
    filled = s.stats.filled;
    avg_px = avg_px D s.stats;
    slices_executed = s.slices_executed;
    slices_skipped = s.slices_skipped;
    abort_reason = s.abort_reason;
    read_only = plan.read_only;
  }
