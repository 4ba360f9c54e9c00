-- ===== src/Twap/Slices/Envelope.antt =====
-- src/twap.rs: the loop over the slices keeps to the envelope of its run.
use hype_trigger_twap.Prelude.{
  ℕ, ◌≡◌, refl, arith, ok-injective, Option, none, some, Bool, false, Result, ok, err, Bool-cases,
  inl, inr,
}
use mathlib.Core.Path.{subst}
use hype_trigger_twap.Prelude.Ensures.{ensures_bind}
use hype_trigger_twap.Decimal.{DecimalApi, le}
use hype_trigger_twap.Decimal.Laws.{DecimalLaws}
use hype_trigger_twap.Types.{OrderIntent}
use hype_trigger_twap.Journal.Records.{JournalRecord}
use hype_trigger_twap.Twap.Schedule.{has_passed}
use hype_trigger_twap.Twap.Place.{RunCall, slice_call, place_slice_reconciled}
use hype_trigger_twap.Twap.Alo.{RestingChild, settle_call, settle_resting_child, place_alo_child}
use hype_trigger_twap.Twap.Stats.{
  ChildAlgo, market, passive, follow, TwapPlan, of_order, settled_left, placed_left, alo_left,
}
use hype_trigger_twap.Twap.Stats.Envelope.{IsSized, IsAffordable, IsWithinEnvelope, IsBounded}
use hype_trigger_twap.Twap.Stats.Orders.{settle-Ensures, place-Ensures, alo-Ensures}
use hype_trigger_twap.Twap.Follow.{FollowState, FollowReturn, follow_from}
use hype_trigger_twap.Twap.Follow.Envelope.{follow_from-Ensures}
use hype_trigger_twap.Twap.Slices.{SliceWorld, RunState, settle_previous, note_settled, open_slice}
use hype_trigger_twap.Twap.Trades.{
  note_alo, entering, returned, left_by, run_follow_loop, send_child, close_slice,
}
use hype_trigger_twap.Twap.Slices.Kept.{
  IsKept, IsFree, Keeps, IsFree-IsKept, goes_on, stops, unless_aborted, check_position-Ensures,
  note_follow-Ensures, note_settled-Ensures, note_market-Ensures, note_alo-Ensures,
}

module _ (D : DecimalApi) (L : DecimalLaws D) (plan : TwapPlan D) (run : RunCall D)
    (accepts : JournalRecord → Bool) (attached : run.sink ≡ some accepts)
    (sized : IsSized D plan) where
  open D use {Decimal, plus, minus, add, mul}

  settle_previous-Ensures :
      (w : SliceWorld D) (s : RunState D) (resting : Option (RestingChild D))
      → s.resting ≡ resting
      → IsKept D plan s
      → Keeps D plan (settle_previous D run w.settling s resting) (IsFree D plan)
  unfolding settle_previous
  settle_previous-Ensures w s none e k = goes_on D plan s (subst (IsBounded D plan s.stats) e k, e)
  settle_previous-Ensures w s (some child) e k =
      let taken : RunState D = record s { resting = none } in
      let b = subst (IsBounded D plan s.stats) e k in
      let freed : IsBounded D plan s.stats none = record {
        filled_nonneg = b.filled_nonneg;
        resting_nonneg = tt;
        within = (let p = b.within in omega arith);
      } in
      ensures_bind (IsWithinEnvelope D plan) (IsKept D plan)
        (of_order D s.stats (settle_call D run child).intent (settled_left D)
          (settle_resting_child D run w.settling child))
        (note_settled D taken)
        (settle-Ensures D L plan run accepts attached w.placing w.settling s.stats child
          b.resting_nonneg)
        (λ r h. note_settled-Ensures D L plan taken child r b (freed, refl) h)

  pub open_slice-Ensures :
      (slice_idx : ℕ) (w : SliceWorld D) (s : RunState D)
      → IsKept D plan s
      → Keeps D plan (open_slice D plan run slice_idx w s) (IsFree D plan)
  unfolding open_slice
  open_slice-Ensures slice_idx w s k = unless_aborted D plan _ s _ _ k (
      unless_aborted D plan w.is_down_at_top s _ _ k (
        ensures_bind (IsWithinEnvelope D plan) (IsKept D plan)
          (settle_previous D run w.settling s s.resting) _
          (settle_previous-Ensures w s s.resting refl k)
          (λ settled free.
            let kept = IsFree-IsKept D plan settled free in
            check_position-Ensures D plan run.position_guard w.position settled _ kept (
              unless_aborted D plan (has_passed run.deadline w.checked_at) settled _ _ kept
                (goes_on D plan settled free)))))

  left_by-IsKept :
      (s : RunState D) (r : Result (FollowReturn D) (FollowState D))
      → ((f : FollowState D) → r ≡ ok f → IsBounded D plan f.stats f.resting)
      → ((x : FollowReturn D) → r ≡ err x → IsBounded D plan x.state.stats x.state.resting)
      → IsKept D plan (returned D s (left_by D r).state)
  left_by-IsKept s (ok f) h k = h f refl
  left_by-IsKept s (err x) h k = k x refl

  run_follow_loop-Ensures :
      (slice_idx slice_end : ℕ) (w : SliceWorld D) (s : RunState D)
      → plan.read_only ≡ false
      → IsKept D plan s
      → Keeps D plan (run_follow_loop D plan run slice_idx slice_end w s) (IsKept D plan)
  unfolding run_follow_loop
  run_follow_loop-Ensures slice_idx slice_end w s live k =
      let state : FollowState D = entering D s w.follow_starts_at in
      let loop = follow_from D plan run slice_idx slice_end w.ticks state in
      let kept =
        follow_from-Ensures D L plan run accepts attached sized live slice_idx slice_end w.ticks
          state k in
      ensures_bind (IsWithinEnvelope D plan) (IsKept D plan)
        (record { events = loop.events; result = ok (left_by D loop.result) }) _
        (record {
          good = kept.good;
          post = λ x h.
              subst (λ y. IsKept D plan (returned D s y.state)) (ok-injective h)
                (left_by-IsKept s loop.result kept.post kept.left);
          left = λ e h. absurd cc;
        })
        (λ x h. note_follow-Ensures D plan (returned D s x.state) x.exit h)

  pub send_child-Ensures :
      (slice_idx slice_end : ℕ) (w : SliceWorld D) (s : RunState D) (algo : ChildAlgo)
      (intent : OrderIntent D)
      → IsFree D plan s
      → IsAffordable D plan s.stats intent
      → Keeps D plan (send_child D plan run slice_idx slice_end w s algo intent) (IsKept D plan)
  unfolding send_child
  send_child-Ensures slice_idx slice_end w s market intent free may =
      ensures_bind (IsWithinEnvelope D plan) (IsKept D plan)
        (of_order D s.stats intent (placed_left D)
          (place_slice_reconciled D (slice_call D run slice_idx intent) w.placing))
        _ (place-Ensures D L plan run accepts attached w.placing s.stats slice_idx intent may)
        (λ r h. note_market-Ensures D L plan s intent.sz r free may.within_total h)
  send_child-Ensures slice_idx slice_end w s passive intent free may =
      ensures_bind (IsWithinEnvelope D plan) (IsKept D plan)
        (of_order D s.stats intent (alo_left D)
          (place_alo_child D (slice_call D run slice_idx intent) w.alo))
        _ (alo-Ensures D L plan run accepts attached w.alo s.stats slice_idx intent may)
        (λ r h. note_alo-Ensures D L plan s intent.sz r free may.size_nonneg may.within_total h)
  send_child-Ensures slice_idx slice_end w s follow intent free may =
      ensures_bind (IsWithinEnvelope D plan) (IsKept D plan)
        (of_order D s.stats intent (alo_left D)
          (place_alo_child D (slice_call D run slice_idx intent) w.alo))
        _ (alo-Ensures D L plan run accepts attached w.alo s.stats slice_idx intent may)
        (λ r h.
          ensures_bind (IsWithinEnvelope D plan) (IsKept D plan) (note_alo D s r) _
            (note_alo-Ensures D L plan s intent.sz r free may.size_nonneg may.within_total h)
            (λ s' k. run_follow_loop-Ensures slice_idx slice_end w s' may.is_live k))

  pub close_slice-Ensures :
      (w : SliceWorld D) (s : RunState D)
      → IsKept D plan s
      → Keeps D plan (close_slice D plan w s) (IsKept D plan)
  unfolding close_slice
  close_slice-Ensures w s k = elim (Bool-cases (le D plan.total_adjusted s.stats.filled)) [
    | inl full ↦ rw full (stops D plan s k)
    | inr open_yet ↦
        rw open_yet (unless_aborted D plan w.is_down_in_wait s _ _ k (goes_on D plan s k))
  ]
