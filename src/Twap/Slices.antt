-- ===== src/Twap/Slices.antt =====
-- src/twap.rs: the loop over the slices, `run_twap_journaled_with_prior_notional_and_completion` up to
-- the record of its report: its state, and the first part of an iteration. A `break` of the loop stands
-- in place of an error, with the state that it leaves. `is_down` says of a reading that shutdown was
-- asked for.
pub mod Kept
pub mod Envelope
pub mod Trading
pub mod Runs
pub mod Tally
pub mod Sending
pub mod Counted
use hype_trigger_twap.Prelude.{
  ℕ, zero, suc, ◌+◌, ◌-◌, ◌*◌, Option, none, some, Bool, true, false, not, ◌&&◌, Result, ok, err,
  String, List, ◌==◌, if◌then◌else◌,
}
use hype_trigger_twap.Prelude.Runs.{Logged, ◌>>=◌, ◌>>◌, lift}
use hype_trigger_twap.Decimal.{DecimalApi, from_nat, lt, le}
use hype_trigger_twap.Types.{Tif, ioc, alo, Cloid, OrderIntent}
use hype_trigger_twap.Errors.{HlError}
use hype_trigger_twap.Client.Book.{ValidatedMarketSnapshot}
use hype_trigger_twap.Risk.{validate_limit_price, check_notional_cap}
use hype_trigger_twap.Twap.Schedule.{ExecutionDeadline, new_deadline, has_passed, slice_deadline}
use hype_trigger_twap.Twap.Ledger.{SliceOutcome}
use hype_trigger_twap.Twap.Settle.{World}
use hype_trigger_twap.Twap.Sizing.{
  SliceDecision, place, skip_ahead, skip_below_min_notional, decide_slice,
}
use hype_trigger_twap.Twap.Place.{
  Sink, PositionTargetGuard, reached_or_crossed, RunCall, slice_call, Surroundings,
  PlaceSliceOutcome, place_slice_reconciled,
}
use hype_trigger_twap.Twap.Alo.{
  RestingChild, AloPlaceOutcome, AloSurroundings, settle_call, settle_resting_child,
  place_alo_child,
}
use hype_trigger_twap.Twap.Books.{BookReplies, fetch_fresh_book}
use hype_trigger_twap.Twap.Stats.{
  ChildAlgo, market, passive, follow, TwapPlan, FillStats, with_prior_notional, add_fill,
  cumulative_notional, avg_px, RunEvent, of_order, quote, cap_price, TwapReport, settled_left,
}
use hype_trigger_twap.Twap.Follow.{
  FollowLoopExit, slice_end_reached, deadline_passed, shutdown_requested, position_target_reached,
  FollowTick, FollowState, FollowReturn, follow_from,
}

module _ (D : DecimalApi) where
  open D use {Decimal, add, mul}

  -- What slice `n` reads of the outside.
  pub record SliceWorld : Type 0 where
    pub is_down_at_top : Bool
    pub settling : World D
    pub position : Result HlError Decimal
    pub checked_at : ℕ
    pub books : BookReplies D
    pub cloid : Cloid
    pub placing : Surroundings D
    pub alo : AloSurroundings D
    pub follow_starts_at : ℕ
    pub ticks : List (FollowTick D)
    pub is_down_in_wait : Bool

  pub record RunState : Type 0 where
    pub stats : FillStats D
    pub slices_executed : ℕ
    pub slices_skipped : ℕ
    pub abort_reason : Option String
    pub resting : Option (RestingChild D)

  abbrev pub Running : Type 0 → Type 0
  Running A = Logged (RunEvent D) RunState A

  -- `break`, with and without a reason to abort.
  abbrev pub stop : {A : Type 0} → RunState → Running A
  stop s = lift (err s)

  abbrev pub abort : {A : Type 0} → RunState → String → Running A
  abort s reason = lift (err (record s { abort_reason = some reason }))

  abbrev pub abort_if : Bool → RunState → String → Running (Unit {0})
  abort_if true s reason = abort s reason
  abort_if false s reason = lift (ok tt)

  abbrev pub or_abort : {E A : Type 0} → Result E A → RunState → String → Running A
  or_abort (ok a) s reason = lift (ok a)
  or_abort (err e) s reason = abort s reason

  abbrev pub credit_settled : RunState → SliceOutcome D → RunState
  credit_settled s o =
      if lt D (from_nat D 0) o.sz then record s { stats = add_fill D s.stats o.sz o.px } else s

  abbrev pub executed : RunState → RunState
  executed s = record s { slices_executed = s.slices_executed + 1 }

  abbrev pub skipped : RunState → RunState
  skipped s = record s { slices_skipped = s.slices_skipped + 1 }

  abbrev pub credited : RunState → SliceOutcome D → RunState
  credited s o = record s { stats = add_fill D s.stats o.sz o.px }

  abbrev pub note_settled : RunState → Result HlError (SliceOutcome D) → Running RunState
  note_settled s (ok o) = lift (ok (credit_settled s o))
  note_settled s (err e) = abort s "failed to settle the resting passive child order"

  -- The order of the slice before that still rests.
  unfoldable pub settle_previous :
      RunCall D → World D → RunState → Option (RestingChild D) → Running RunState
  settle_previous run w s none = lift (ok s)
  settle_previous run w s (some child) = do
    let taken = record s { resting = none }
    r ←
        of_order D s.stats (settle_call D run child).intent (settled_left D)
          (settle_resting_child D run w child)
    note_settled taken r

  unfoldable pub check_position :
      Option (PositionTargetGuard D) → Result HlError Decimal → RunState → Running (Unit {0})
  check_position none position s = lift (ok tt)
  check_position (some g) (ok szi) s = if reached_or_crossed D g szi then stop s else lift (ok tt)
  check_position (some g) (err e) s = abort s "position check failed closed"

  -- The checks that come before the book is fetched.
  unfoldable pub open_slice : TwapPlan D → RunCall D → ℕ → SliceWorld → RunState → Running RunState
  open_slice plan run slice_idx w s = do
    abort_if
        (slice_idx == 1
          && (not plan.read_only && le D plan.max_notional_usd s.stats.prior_notional))
        s "prior fills consumed the notional cap"
    abort_if w.is_down_at_top s "shutdown requested"
    settled ← settle_previous run w.settling s s.resting
    check_position run.position_guard w.position settled
    abort_if (has_passed run.deadline w.checked_at) settled "duration elapsed"
    lift (ok settled)
