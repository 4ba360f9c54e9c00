-- ===== src/Twap/Slices/Sending.antt =====
-- src/twap.rs: the order of a slice is counted.
use hype_trigger_twap.Prelude.{
  ℕ, ◌≡◌, refl, Result, ok, err, String, Bool-cases, inl, inr, sym, ap, ok-injective,
}
use mathlib.Core.Path.{subst}
use hype_trigger_twap.Decimal.{DecimalApi, le}
use hype_trigger_twap.Errors.{HlError}
use hype_trigger_twap.Types.{OrderIntent}
use hype_trigger_twap.Twap.Place.{RunCall, slice_call, PlaceSliceOutcome, place_slice_reconciled}
use hype_trigger_twap.Twap.Alo.{AloPlaceOutcome, place_alo_child}
use hype_trigger_twap.Twap.Stats.{
  ChildAlgo, market, passive, follow, TwapPlan, add_fill, of_order, placed_left, alo_left,
}
use hype_trigger_twap.Twap.Stats.Tally.{
  Tally, after_outcome, counts-err, counts_bind, order-Counts, IsBook, IsLeft,
}
use hype_trigger_twap.Twap.Follow.{
  FollowLoopExit, slice_end_reached, deadline_passed, shutdown_requested, position_target_reached,
  FollowState, FollowReturn, follow_from,
}
use hype_trigger_twap.Twap.Follow.Tally.{is_failed, IsReturned}
use hype_trigger_twap.Twap.Follow.Counted.{follow_from-Counts}
use hype_trigger_twap.Twap.Slices.Tally.{
  IsBooked, IsClear, IsBroken, Running-Counts, goes_on, stops, aborts, unless_aborted,
}
use hype_trigger_twap.Twap.Slices.{SliceWorld, RunState}
use hype_trigger_twap.Twap.Trades.{
  note_market, note_alo, note_follow, entering, returned, left_by, run_follow_loop, send_child,
  close_slice,
}

module _ (D : DecimalApi) (plan : TwapPlan D) (run : RunCall D) where
  market-Counts :
      (t : Tally D) (s : RunState D) (r : Result HlError (PlaceSliceOutcome D))
      → IsClear D t s
      → Running-Counts D (after_outcome D t (placed_left D r)) (note_market D s r) (IsBooked D)
  unfolding note_market add_fill
  market-Counts t s (ok (PlaceSliceOutcome.settled o)) ((st, re), free) =
      goes_on D _ _ (ap (λ x. add_fill D x o.sz o.px) st, free)
  market-Counts t s (ok PlaceSliceOutcome.position_target_reached) ((st, re), free) =
      stops D _ s (st, free)
  market-Counts t s (ok PlaceSliceOutcome.shutdown_requested) ((st, re), free) =
      aborts D _ s _ (st, free)
  market-Counts t s (err e) ((st, re), free) = aborts D _ s _ (st, free)

  alo-Counts :
      (t : Tally D) (s : RunState D) (r : Result String (AloPlaceOutcome D))
      → IsClear D t s
      → Running-Counts D (after_outcome D t (alo_left D r)) (note_alo D s r) (IsBooked D)
  unfolding note_alo add_fill
  alo-Counts t s (ok (AloPlaceOutcome.resting child)) ((st, re), free) = goes_on D _ _ (st, refl)
  alo-Counts t s (ok (AloPlaceOutcome.settled o)) ((st, re), free) =
      goes_on D _ _ (ap (λ x. add_fill D x o.sz o.px) st, free)
  alo-Counts t s (ok AloPlaceOutcome.rejected_skip) ((st, re), free) = goes_on D _ _ (st, free)
  alo-Counts t s (ok AloPlaceOutcome.position_target_reached) ((st, re), free) =
      stops D _ s (st, free)
  alo-Counts t s (ok AloPlaceOutcome.shutdown_requested) ((st, re), free) =
      aborts D _ s _ (st, free)
  alo-Counts t s (err reason) ((st, re), free) = aborts D _ s reason (st, free)

  -- A loop that returns a reason leaves the run to abort.
  follow-Counts :
      (t : Tally D) (s : RunState D) (r : Result String FollowLoopExit)
      → IsLeft D t s.stats s.resting (is_failed r)
      → Running-Counts D t (note_follow D s r) (IsBooked D)
  unfolding note_follow
  follow-Counts t s (ok slice_end_reached) (st, inl re) = goes_on D t s (st, re)
  follow-Counts t s (ok deadline_passed) (st, inl re) = aborts D t s _ (st, re)
  follow-Counts t s (ok shutdown_requested) (st, inl re) = aborts D t s _ (st, re)
  follow-Counts t s (ok position_target_reached) (st, inl re) = stops D t s (st, re)
  follow-Counts t s (err reason) (st, inl re) = aborts D t s reason (st, re)
  follow-Counts t s (err reason) (st, inr (re, failed)) =
      counts-err D (IsBroken D) t _ (st, inr (re, refl))
  follow-Counts t s (ok exit) (st, inr (re, failed)) = absurd cc

  left_by-Counts :
      (t : Tally D) (r : Result (FollowReturn D) (FollowState D))
      → ((f : FollowState D) → r ≡ ok f → IsBook D t f.stats f.resting)
      → ((x : FollowReturn D) → r ≡ err x → IsReturned D t x)
      → IsReturned D t (left_by D r)
  left_by-Counts t (ok f) h k = (let b = h f refl in (b.0, inl b.1))
  left_by-Counts t (err x) h k = k x refl

  run_follow_loop-Counts :
      (t : Tally D) (slice_idx slice_end : ℕ) (w : SliceWorld D) (s : RunState D)
      → IsBooked D t s
      → Running-Counts D t (run_follow_loop D plan run slice_idx slice_end w s) (IsBooked D)
  unfolding run_follow_loop
  run_follow_loop-Counts t slice_idx slice_end w s b =
      let state : FollowState D = entering D s w.follow_starts_at in
      let loop = follow_from D plan run slice_idx slice_end w.ticks state in
      let counts = follow_from-Counts D plan run t slice_idx slice_end w.ticks state b in
      counts_bind D (IsBroken D) {Mid = IsReturned D} t
        (record { events = loop.events; result = ok (left_by D loop.result) }) _
        (record {
          counted = counts.counted;
          post = λ x h.
              subst (IsReturned D _) (ok-injective h)
                (left_by-Counts _ loop.result counts.post counts.left);
          left = λ e h. absurd cc;
        })
        (λ u x h. follow-Counts u (returned D s x.state) x.exit h)

  pub send_child-Counts :
      (t : Tally D) (slice_idx slice_end : ℕ) (w : SliceWorld D) (s : RunState D) (algo : ChildAlgo)
      (intent : OrderIntent D)
      → IsClear D t s
      → Running-Counts D t (send_child D plan run slice_idx slice_end w s algo intent) (IsBooked D)
  unfolding send_child
  send_child-Counts t slice_idx slice_end w s market intent clear =
      counts_bind D (IsBroken D) t
        (of_order D s.stats intent (placed_left D)
          (place_slice_reconciled D (slice_call D run slice_idx intent) w.placing))
        (note_market D s) (order-Counts D (IsBroken D) t s.stats intent (placed_left D) _ clear.0.0)
        (λ u r same.
          subst (λ v. Running-Counts D v (note_market D s r) (IsBooked D)) (sym same)
            (market-Counts t s r clear))
  send_child-Counts t slice_idx slice_end w s passive intent clear =
      counts_bind D (IsBroken D) t
        (of_order D s.stats intent (alo_left D)
          (place_alo_child D (slice_call D run slice_idx intent) w.alo))
        (note_alo D s) (order-Counts D (IsBroken D) t s.stats intent (alo_left D) _ clear.0.0)
        (λ u r same.
          subst (λ v. Running-Counts D v (note_alo D s r) (IsBooked D)) (sym same)
            (alo-Counts t s r clear))
  send_child-Counts t slice_idx slice_end w s follow intent clear =
      counts_bind D (IsBroken D) t
        (of_order D s.stats intent (alo_left D)
          (place_alo_child D (slice_call D run slice_idx intent) w.alo))
        _ (order-Counts D (IsBroken D) t s.stats intent (alo_left D) _ clear.0.0)
        (λ u r same.
          counts_bind D (IsBroken D) u (note_alo D s r) _
            (subst (λ v. Running-Counts D v (note_alo D s r) (IsBooked D)) (sym same)
              (alo-Counts t s r clear))
            (λ v s' b. run_follow_loop-Counts v slice_idx slice_end w s' b))

  pub close_slice-Counts :
      (t : Tally D) (w : SliceWorld D) (s : RunState D)
      → IsBooked D t s
      → Running-Counts D t (close_slice D plan w s) (IsBooked D)
  unfolding close_slice
  close_slice-Counts t w s b = elim (Bool-cases (le D plan.total_adjusted s.stats.filled)) [
    | inl full ↦ rw full (stops D t s b)
    | inr open_yet ↦ rw open_yet (unless_aborted D t w.is_down_in_wait s _ _ b (goes_on D t s b))
  ]
