-- ===== src/Twap/Follow.antt =====
-- src/twap.rs: `run_follow_loop`, which keeps a post-only order at the touch within a slice. The loop
-- is a recursion on its iterations; each holds what it reads of the clock, the book and the exchange.
-- Instants that are held against the end of the slice are nanoseconds, the others milliseconds. The
-- count of consecutive rejects, which is only logged, is left out.
pub mod Envelope
pub mod Placing
pub mod Tally
pub mod Counted
use hype_trigger_twap.Prelude.{
  ℕ, ◌-◌, ◌*◌, Option, none, some, Bool, true, false, ◌&&◌, Result, ok, err, map_err, String, List,
  [], ◌∷◌, ltb, leb, not, if◌then◌else◌,
}
use hype_trigger_twap.Prelude.Runs.{Logged, ◌>>=◌, ◌>>◌, lift}
use hype_trigger_twap.Decimal.{DecimalApi, from_nat, lt, le}
use hype_trigger_twap.Types.{Side, long, short, Cloid}
use hype_trigger_twap.Errors.{HlError}
use hype_trigger_twap.Format.{round_price}
use hype_trigger_twap.Risk.{validate_limit_price, check_notional_cap}
use hype_trigger_twap.Client.Book.{ValidatedMarketSnapshot}
use hype_trigger_twap.Twap.Schedule.{has_passed}
use hype_trigger_twap.Twap.Ledger.{SliceOutcome}
use hype_trigger_twap.Twap.Settle.{World}
use hype_trigger_twap.Twap.Sizing.{
  SliceDecision, place, skip_ahead, skip_below_min_notional, decide_slice,
}
use hype_trigger_twap.Twap.Place.{RunCall, slice_call}
use hype_trigger_twap.Twap.Alo.{
  RestingChild, AloPlaceOutcome, AloSurroundings, alo_intent, settle_call, settle_resting_child,
  place_alo_child,
}
use hype_trigger_twap.Twap.Books.{BookReplies, fetch_fresh_book}
use hype_trigger_twap.Twap.Stats.{
  TwapPlan, FillStats, add_fill, cumulative_notional, RunEvent, of_order, touch_of, settled_left,
  alo_left,
}

pub data FollowLoopExit : Type 0 where
  slice_end_reached deadline_passed shutdown_requested position_target_reached : FollowLoopExit

module _ (D : DecimalApi) where
  open D use {Decimal, add, sub, mul, div, abs}

  pub data FollowPlace : Type 0 where
    placed : RestingChild D → FollowPlace
    settled : SliceOutcome D → FollowPlace
    alo_rejected target_met below_min_notional : FollowPlace
    position_target_reached shutdown_requested : FollowPlace

  abbrev pub of_alo : AloPlaceOutcome D → FollowPlace
  of_alo (AloPlaceOutcome.resting child) = placed child
  of_alo (AloPlaceOutcome.settled o) = settled o
  of_alo AloPlaceOutcome.rejected_skip = alo_rejected
  of_alo AloPlaceOutcome.position_target_reached = FollowPlace.position_target_reached
  of_alo AloPlaceOutcome.shutdown_requested = FollowPlace.shutdown_requested

  -- One iteration's surroundings: the clock at each of its readings, whether shutdown was asked
  -- for by the end of the pause, the book, the cloid and the replies for a new order, and those for
  -- the order that rests.
  pub record FollowTick : Type 0 where
    pub top_at : ℕ
    pub shutdown : Bool
    pub woke_at : ℕ
    pub deadline_at : ℕ
    pub books : BookReplies D
    pub failed_at : ℕ
    pub throttle_at : ℕ
    pub settling : World D
    pub cloid : Cloid
    pub alo : AloSurroundings D
    pub placed_at : ℕ
    pub shutdown_in_rest : Bool

  -- The caller's state that the loop changes, and the instant of the last placing.
  pub record FollowState : Type 0 where
    pub resting : Option (RestingChild D)
    pub stats : FillStats D
    pub last_place_at : ℕ

  -- A return from the loop: what it leaves to the caller, with an exit or a reason to abort.
  pub record FollowReturn : Type 0 where
    pub state : FollowState
    pub exit : Result String FollowLoopExit

  abbrev pub Following : Type 0 → Type 0
  Following A = Logged (RunEvent D) FollowReturn A

  abbrev pub leave : {A : Type 0} → FollowState → Result String FollowLoopExit → Following A
  leave s exit = lift (err (record { state = s; exit = exit }))

  abbrev pub leave_if : Bool → FollowState → FollowLoopExit → Following (Unit {0})
  leave_if true s exit = leave s (ok exit)
  leave_if false s exit = lift (ok tt)

  abbrev pub because : {E A : Type 0} → String → Result E A → Logged (RunEvent D) String A
  because reason r = lift (map_err (λ _. reason) r)

  abbrev pub place_sized :
      TwapPlan D
      → RunCall D
      → ℕ
      → Decimal
      → FillStats D
      → FollowTick
      → SliceDecision D
      → Logged (RunEvent D) String FollowPlace
  place_sized plan run slice_idx new_px stats t skip_ahead = lift (ok target_met)
  place_sized plan run slice_idx new_px stats t (skip_below_min_notional sz notional) =
      lift (ok below_min_notional)
  place_sized plan run slice_idx new_px stats t (place order_sz) = do
    because "follow: limit price rejected"
        (validate_limit_price D new_px plan.settle.side plan.slippage_bps new_px new_px)
    because "follow: notional cap" (
        check_notional_cap D (add (cumulative_notional D stats) (mul order_sz new_px))
          plan.max_notional_usd)
    let intent = alo_intent D plan.settle plan.reduce_only t.cloid new_px order_sz
    result ←
        of_order D stats intent (alo_left D)
          (place_alo_child D (slice_call D run slice_idx intent) t.alo)
    outcome ← lift result
    lift (ok (of_alo outcome))

  unfoldable pub place_follow_child :
      TwapPlan D
      → RunCall D
      → ℕ
      → Decimal
      → FillStats D
      → FollowTick
      → Logged (RunEvent D) String FollowPlace
  place_follow_child plan run slice_idx new_px stats t =
      place_sized plan run slice_idx new_px stats t (
        decide_slice D slice_idx plan.slices plan.per_slice plan.total_adjusted stats.filled
          plan.sz_decimals new_px)

  abbrev pub rest_exit : Bool → FollowLoopExit
  rest_exit true = FollowLoopExit.shutdown_requested
  rest_exit false = slice_end_reached

  -- What the loop does with a placing; after `leave` it is over.
  unfoldable pub note_place :
      FollowTick → FollowState → Result String FollowPlace → Following FollowState
  note_place t s (ok (placed child)) =
      lift (ok (record s { resting = some child; last_place_at = t.placed_at }))
  note_place t s (ok (settled o)) =
      lift (ok (record s { stats = add_fill D s.stats o.sz o.px; last_place_at = t.placed_at }))
  note_place t s (ok alo_rejected) = lift (ok (record s { last_place_at = t.placed_at }))
  note_place t s (ok target_met) = leave s (ok (rest_exit t.shutdown_in_rest))
  note_place t s (ok below_min_notional) = leave s (ok (rest_exit t.shutdown_in_rest))
  note_place t s (ok FollowPlace.position_target_reached) =
      leave s (ok FollowLoopExit.position_target_reached)
  note_place t s (ok FollowPlace.shutdown_requested) =
      leave s (ok FollowLoopExit.shutdown_requested)
  note_place t s (err reason) = leave s (err reason)

  abbrev pub attempt :
      {F A : Type 0} → Logged (RunEvent D) String A → Logged (RunEvent D) F (Result String A)
  attempt m = record { events = m.events; result = ok m.result }

  unfoldable pub place_and_note :
      TwapPlan D → RunCall D → ℕ → Decimal → FollowTick → FollowState → Following FollowState
  place_and_note plan run slice_idx touch t s = do
    r ← attempt (
        place_follow_child plan run slice_idx
          (round_price D touch plan.sz_decimals plan.settle.side) s.stats t)
    note_place t s r

  abbrev pub credit_settled : FollowState → Result HlError (SliceOutcome D) → Following FollowState
  credit_settled s (ok o) = lift (
      ok
        (if lt D (from_nat D 0) o.sz then record s { stats = add_fill D s.stats o.sz o.px } else s))
  credit_settled s (err e) = leave s (err "follow: failed to settle")

  -- The order that rests is settled, and the loop is left once the target is filled.
  unfoldable pub settle_child :
      TwapPlan D → RunCall D → FollowTick → RestingChild D → FollowState → Following FollowState
  settle_child plan run t child s = do
    r ←
        of_order D s.stats (settle_call D run child).intent (settled_left D)
          (settle_resting_child D run t.settling child)
    s' ← credit_settled (record s { resting = none }) r
    leave_if (le D plan.total_adjusted s'.stats.filled) s' slice_end_reached
    lift (ok s')

  abbrev pub moved_through : Side → Decimal → Decimal → Bool
  moved_through long touch child_px = lt D touch child_px
  moved_through short touch child_px = lt D child_px touch

  abbrev pub moved_away : Side → Decimal → Decimal → Bool
  moved_away long touch child_px = lt D child_px touch
  moved_away short touch child_px = lt D touch child_px

  abbrev pub distance_bps : Decimal → Decimal → Decimal
  distance_bps touch child_px =
      if lt D (from_nat D 0) child_px
      then mul (div (abs (sub touch child_px)) child_px) (from_nat D 10000)
      else from_nat D 0

  abbrev pub is_throttled : TwapPlan D → FollowTick → FollowState → Bool
  is_throttled plan t s = ltb (t.throttle_at - s.last_place_at) (plan.follow_repost_secs * 1000)

  -- The touch moved away from the resting price by the threshold, and the last placing is old enough.
  abbrev pub is_worth_moving : TwapPlan D → FollowTick → FollowState → Decimal → Decimal → Bool
  is_worth_moving plan t s touch child_px =
      moved_away plan.settle.side touch child_px
      && (le D plan.follow_threshold_bps (distance_bps touch child_px)
          && not (is_throttled plan t s))

  unfoldable pub requote :
      TwapPlan D
      → RunCall D
      → ℕ
      → FollowTick
      → FollowState
      → Decimal
      → Option (RestingChild D)
      → Following FollowState
  requote plan run slice_idx t s touch none =
      if is_throttled plan t s then lift (ok s) else place_and_note plan run slice_idx touch t s
  requote plan run slice_idx t s touch (some child) =
      if moved_through plan.settle.side touch child.px
      then settle_child plan run t child s
      else if is_worth_moving plan t s touch child.px
      then (do s' ← settle_child plan run t child s; place_and_note plan run slice_idx touch t s')
      else lift (ok s)

  abbrev pub with_book :
      TwapPlan D
      → RunCall D
      → ℕ
      → FollowTick
      → FollowState
      → Result HlError (ValidatedMarketSnapshot D)
      → Following FollowState
  with_book plan run slice_idx t s (ok book) =
      requote plan run slice_idx t s (touch_of D plan.settle.side book) s.resting
  with_book plan run slice_idx t s (err e) =
      leave_if (has_passed run.deadline t.failed_at) s deadline_passed >> lift (ok s)

  unfoldable pub tick :
      TwapPlan D → RunCall D → ℕ → ℕ → FollowTick → FollowState → Following FollowState
  tick plan run slice_idx slice_end t s = do
    leave_if (leb slice_end t.top_at) s slice_end_reached
    leave_if t.shutdown s FollowLoopExit.shutdown_requested
    leave_if (leb slice_end t.woke_at) s slice_end_reached
    leave_if (has_passed run.deadline t.deadline_at) s deadline_passed
    with_book plan run slice_idx t s
        (fetch_fresh_book D t.books plan.settle.symbol plan.max_book_age_ms (some run.deadline))

  -- The list holds the iterations that begin before the slice ends.
  unfoldable pub follow_from :
      TwapPlan D → RunCall D → ℕ → ℕ → List FollowTick → FollowState → Following FollowState
  follow_from plan run slice_idx slice_end [] s = leave s (ok slice_end_reached)
  follow_from plan run slice_idx slice_end (t ∷ ts) s = do
    s' ← tick plan run slice_idx slice_end t s
    follow_from plan run slice_idx slice_end ts s'
