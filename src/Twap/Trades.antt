-- ===== src/Twap/Trades.antt =====
-- src/twap.rs: the order of one slice, and what the loop over the slices does with its outcome.
use hype_trigger_twap.Prelude.{ℕ, some, Result, ok, err, String, if◌then◌else◌}
use hype_trigger_twap.Prelude.Runs.{◌>>=◌, ◌>>◌, lift}
use hype_trigger_twap.Decimal.{DecimalApi, le}
use hype_trigger_twap.Types.{Tif, ioc, alo, Cloid, OrderIntent}
use hype_trigger_twap.Errors.{HlError}
use hype_trigger_twap.Client.Book.{ValidatedMarketSnapshot}
use hype_trigger_twap.Risk.{validate_limit_price, check_notional_cap}
use hype_trigger_twap.Twap.Sizing.{
  SliceDecision, place, skip_ahead, skip_below_min_notional, decide_slice,
}
use hype_trigger_twap.Twap.Place.{RunCall, slice_call, PlaceSliceOutcome, place_slice_reconciled}
use hype_trigger_twap.Twap.Alo.{AloPlaceOutcome, place_alo_child}
use hype_trigger_twap.Twap.Books.{fetch_fresh_book}
use hype_trigger_twap.Twap.Stats.{
  ChildAlgo, market, passive, follow, TwapPlan, add_fill, cumulative_notional, of_order, quote,
  cap_price, placed_left, alo_left,
}
use hype_trigger_twap.Twap.Follow.{
  FollowLoopExit, slice_end_reached, deadline_passed, shutdown_requested, position_target_reached,
  FollowState, FollowReturn, follow_from,
}
use hype_trigger_twap.Twap.Slices.{
  SliceWorld, RunState, Running, stop, abort, abort_if, or_abort, executed, skipped, credited,
}

module _ (D : DecimalApi) where
  open D use {Decimal, add, mul}

  abbrev pub tif_of : ChildAlgo → Tif
  tif_of market = ioc
  tif_of _ = alo

  abbrev pub slice_intent : TwapPlan D → ChildAlgo → Cloid → Decimal → Decimal → OrderIntent D
  slice_intent plan algo cloid px sz = record {
    cloid = cloid;
    symbol = plan.settle.symbol;
    side = plan.settle.side;
    px = px;
    sz = sz;
    tif = tif_of algo;
    reduce_only = plan.reduce_only;
  }

  unfoldable pub note_market :
      RunState D → Result HlError (PlaceSliceOutcome D) → Running D (RunState D)
  note_market s (ok (PlaceSliceOutcome.settled o)) = lift (ok (executed D (credited D s o)))
  note_market s (ok PlaceSliceOutcome.position_target_reached) = stop D s
  note_market s (ok PlaceSliceOutcome.shutdown_requested) =
      abort D s "shutdown requested at the IOC send boundary"
  note_market s (err e) = abort D s "slice failed"

  unfoldable pub note_alo : RunState D → Result String (AloPlaceOutcome D) → Running D (RunState D)
  note_alo s (ok (AloPlaceOutcome.resting child)) =
      lift (ok (executed D (record s { resting = some child })))
  note_alo s (ok (AloPlaceOutcome.settled o)) = lift (ok (executed D (credited D s o)))
  note_alo s (ok AloPlaceOutcome.rejected_skip) = lift (ok (skipped D s))
  note_alo s (ok AloPlaceOutcome.position_target_reached) = stop D s
  note_alo s (ok AloPlaceOutcome.shutdown_requested) =
      abort D s "shutdown requested at the ALO send boundary"
  note_alo s (err reason) = abort D s reason

  abbrev pub entering : RunState D → ℕ → FollowState D
  entering s now = record { resting = s.resting; stats = s.stats; last_place_at = now }

  abbrev pub returned : RunState D → FollowState D → RunState D
  returned s f = record s { resting = f.resting; stats = f.stats }

  unfoldable pub note_follow : RunState D → Result String FollowLoopExit → Running D (RunState D)
  note_follow s (ok slice_end_reached) = lift (ok s)
  note_follow s (ok deadline_passed) = abort D s "duration elapsed"
  note_follow s (ok shutdown_requested) = abort D s "shutdown requested during follow loop"
  note_follow s (ok position_target_reached) = stop D s
  note_follow s (err reason) = abort D s reason

  -- What the loop left to its caller, by whichever way it ended.
  abbrev pub left_by : Result (FollowReturn D) (FollowState D) → FollowReturn D
  left_by (ok f) = record { state = f; exit = ok slice_end_reached }
  left_by (err r) = r

  unfoldable pub run_follow_loop :
      TwapPlan D → RunCall D → ℕ → ℕ → SliceWorld D → RunState D → Running D (RunState D)
  run_follow_loop plan run slice_idx slice_end w s = do
    let loop = follow_from D plan run slice_idx slice_end w.ticks (entering s w.follow_starts_at)
    left ← record { events = loop.events; result = ok (left_by loop.result) }
    note_follow (returned s left.state) left.exit

  unfoldable pub send_child :
      TwapPlan D
      → RunCall D
      → ℕ
      → ℕ
      → SliceWorld D
      → RunState D
      → ChildAlgo
      → OrderIntent D
      → Running D (RunState D)
  send_child plan run slice_idx slice_end w s market intent = do
    r ←
        of_order D s.stats intent (placed_left D)
          (place_slice_reconciled D (slice_call D run slice_idx intent) w.placing)
    note_market s r
  send_child plan run slice_idx slice_end w s passive intent = do
    r ←
        of_order D s.stats intent (alo_left D)
          (place_alo_child D (slice_call D run slice_idx intent) w.alo)
    note_alo s r
  send_child plan run slice_idx slice_end w s follow intent = do
    r ←
        of_order D s.stats intent (alo_left D)
          (place_alo_child D (slice_call D run slice_idx intent) w.alo)
    s' ← note_alo s r
    run_follow_loop plan run slice_idx slice_end w s'

  -- The end of an iteration that placed an order.
  unfoldable pub close_slice : TwapPlan D → SliceWorld D → RunState D → Running D (RunState D)
  close_slice plan w s =
      if le D plan.total_adjusted s.stats.filled
      then stop D s
      else abort_if D w.is_down_in_wait s "shutdown requested during inter-slice wait"
        >> lift (ok s)

  -- The order itself. A dry run takes it for filled.
  abbrev pub trade_placed :
      TwapPlan D
      → RunCall D
      → ℕ
      → ℕ
      → SliceWorld D
      → RunState D
      → Decimal
      → Decimal
      → Running D (RunState D)
  trade_placed plan run slice_idx slice_end w s px sz =
      if plan.read_only
      then lift (ok (executed D (record s { stats = add_fill D s.stats sz px })))
      else (do
        s' ←
            send_child plan run slice_idx slice_end w s plan.child_algo
              (slice_intent plan plan.child_algo w.cloid px sz)
        close_slice plan w s')

  unfoldable pub trade_sized :
      TwapPlan D
      → RunCall D
      → ℕ
      → ℕ
      → SliceWorld D
      → RunState D
      → Decimal
      → Decimal
      → SliceDecision D
      → Running D (RunState D)
  trade_sized plan run slice_idx slice_end w s px bid skip_ahead = lift (ok (skipped D s))
  trade_sized plan run slice_idx slice_end w s px bid (skip_below_min_notional sz notional) =
      lift (ok (skipped D s))
  trade_sized plan run slice_idx slice_end w s px bid (place sz) = do
    or_abort D
        (check_notional_cap D
          (add (cumulative_notional D s.stats) (mul sz (cap_price D plan plan.child_algo px bid)))
          plan.max_notional_usd)
        s "notional cap"
    trade_placed plan run slice_idx slice_end w s px sz

  abbrev pub trade_at :
      TwapPlan D
      → RunCall D
      → ℕ
      → ℕ
      → SliceWorld D
      → RunState D
      → Decimal
      → Decimal
      → Running D (RunState D)
  trade_at plan run slice_idx slice_end w s px bid =
      trade_sized plan run slice_idx slice_end w s px bid (
        decide_slice D slice_idx plan.slices plan.per_slice plan.total_adjusted s.stats.filled
          plan.sz_decimals px)

  abbrev pub trade_on :
      TwapPlan D
      → RunCall D
      → ℕ
      → ℕ
      → SliceWorld D
      → RunState D
      → ValidatedMarketSnapshot D
      → Running D (RunState D)
  trade_on plan run slice_idx slice_end w s book = do
    let px = quote D plan plan.child_algo book
    or_abort D
        (validate_limit_price D px plan.settle.side plan.slippage_bps book.best_bid book.best_ask) s
        "limit price rejected"
    trade_at plan run slice_idx slice_end w s px book.best_bid

  unfoldable pub trade_slice :
      TwapPlan D → RunCall D → ℕ → ℕ → SliceWorld D → RunState D → Running D (RunState D)
  trade_slice plan run slice_idx slice_end w s =
      or_abort D
        (fetch_fresh_book D w.books plan.settle.symbol plan.max_book_age_ms (some run.deadline)) s
        "book fetch failed"
      >>= trade_on plan run slice_idx slice_end w s
