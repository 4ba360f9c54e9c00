-- ===== src/Twap/Follow/Placing.antt =====
-- src/twap.rs: one placing of the follow loop.
use hype_trigger_twap.Prelude.{
  ℕ, ◌+◌, ◌≤◌, ◌≡◌, refl, arith, none, some, Bool, false, Result, ok, err, String, fail_if-ok,
  ok-injective, sym,
}
use mathlib.Core.Path.{subst}
use hype_trigger_twap.Prelude.Runs.{Logged, lift, ◌>>=◌}
use hype_trigger_twap.Prelude.Ensures.{Ensures, ensures-ok, ensures-err, ensures_bind}
use hype_trigger_twap.Decimal.{DecimalApi, lt}
use hype_trigger_twap.Decimal.Laws.{DecimalLaws}
use hype_trigger_twap.Types.{OrderIntent}
use hype_trigger_twap.Journal.Records.{JournalRecord}
use hype_trigger_twap.Risk.{validate_limit_price, check_notional_cap}
use hype_trigger_twap.Twap.Sizing.{
  SliceDecision, place, skip_ahead, skip_below_min_notional, decide_slice,
}
use hype_trigger_twap.Twap.Place.{RunCall, slice_call}
use hype_trigger_twap.Twap.Alo.{AloPlaceOutcome, alo_intent, place_alo_child}
use hype_trigger_twap.Twap.Stats.{
  TwapPlan, FillStats, cumulative_notional, RunEvent, of_order, alo_left,
}
use hype_trigger_twap.Twap.Stats.Envelope.{
  IsSized, IsAffordable, IsWithinEnvelope, IsBounded, decide_slice-within,
}
use hype_trigger_twap.Twap.Stats.Orders.{IsAloWithin, alo-Ensures}
use hype_trigger_twap.Twap.Follow.{
  FollowPlace, placed, settled, alo_rejected, target_met, below_min_notional, of_alo, FollowTick,
  because, place_sized, attempt,
}

-- An accepted notional is within the cap.
pub check_notional_cap-ok :
    (D : DecimalApi) (requested cap : D.Decimal)
    → check_notional_cap D requested cap ≡ ok tt
    → lt D cap requested ≡ false
unfolding check_notional_cap
check_notional_cap-ok D requested cap h = fail_if-ok (lt D cap requested) _ h

module _ (D : DecimalApi) (plan : TwapPlan D) where
  open D use {plus, minus}

  -- What a placing leaves: an order that rests within what the total leaves, or a credit within it.
  abbrev pub IsPlaceWithin : FillStats D → FollowPlace D → Type 0
  IsPlaceWithin stats (placed child) = IsBounded D plan stats (some child)
  IsPlaceWithin stats (settled o) =
      (minus o.sz ≡ 0) × (plus stats.filled + plus o.sz ≤ plus plan.total_adjusted)
  IsPlaceWithin stats _ = Unit

  abbrev pub IsResultWithin : FillStats D → Result String (FollowPlace D) → Type 0
  IsResultWithin stats (ok p) = IsPlaceWithin stats p
  IsResultWithin stats (err reason) = Unit

  abbrev pub Placing : FillStats D → Logged (RunEvent D) String (FollowPlace D) → Type 0
  Placing stats m = Ensures (IsWithinEnvelope D plan) (λ _. Unit) m (IsPlaceWithin stats)

module _ (D : DecimalApi) (L : DecimalLaws D) (plan : TwapPlan D) (run : RunCall D)
    (accepts : JournalRecord → Bool) (attached : run.sink ≡ some accepts) (sized : IsSized D plan)
    (live : plan.read_only ≡ false) where
  open D use {Decimal, plus, minus, add, mul}

  because-Ensures :
      {E A : Type 0} (stats : FillStats D) (reason : String) (r : Result E A)
      (next : A → Logged (RunEvent D) String (FollowPlace D))
      → ((a : A) → r ≡ ok a → Placing D plan stats (next a))
      → Placing D plan stats (because D reason r >>= next)
  because-Ensures stats reason (ok a) next h = h a refl
  because-Ensures stats reason (err e) next h =
      ensures-err (IsWithinEnvelope D plan) (λ _. Unit) reason tt

  of_alo-within :
      (stats : FillStats D) (intent : OrderIntent D) (r : Result String (AloPlaceOutcome D))
      → IsBounded D plan stats none
      → IsAffordable D plan stats intent
      → IsAloWithin D plan intent.sz r
      → Placing D plan stats (lift r >>= λ outcome. lift (ok (of_alo D outcome)))
  of_alo-within stats intent (err reason) b may h =
      ensures-err (IsWithinEnvelope D plan) (λ _. Unit) reason tt
  of_alo-within stats intent (ok (AloPlaceOutcome.resting child)) b may h =
      ensures-ok (IsWithinEnvelope D plan) (λ _. Unit) (placed child)
        (record {
          filled_nonneg = b.filled_nonneg;
          resting_nonneg = subst (λ x. minus x ≡ 0) (sym h) may.size_nonneg;
          within =
              subst (λ x. plus stats.filled + plus x ≤ plus plan.total_adjusted) (sym h)
                may.within_total;
        })
  of_alo-within stats intent (ok (AloPlaceOutcome.settled o)) b may h =
      ensures-ok (IsWithinEnvelope D plan) (λ _. Unit) (settled o)
        (h.credit_nonneg, (let p = h.credit_within in let q = may.within_total in omega arith))
  of_alo-within stats intent (ok AloPlaceOutcome.rejected_skip) b may h =
      ensures-ok (IsWithinEnvelope D plan) (λ _. Unit) alo_rejected tt
  of_alo-within stats intent (ok AloPlaceOutcome.position_target_reached) b may h =
      ensures-ok (IsWithinEnvelope D plan) (λ _. Unit) FollowPlace.position_target_reached tt
  of_alo-within stats intent (ok AloPlaceOutcome.shutdown_requested) b may h =
      ensures-ok (IsWithinEnvelope D plan) (λ _. Unit) FollowPlace.shutdown_requested tt

  pub place_sized-Ensures :
      (slice_idx : ℕ) (new_px : Decimal) (stats : FillStats D) (t : FollowTick D)
      (decision : SliceDecision D)
      → IsBounded D plan stats none
      → decide_slice D slice_idx plan.slices plan.per_slice plan.total_adjusted stats.filled
          plan.sz_decimals new_px
        ≡ decision
      → Placing D plan stats (place_sized D plan run slice_idx new_px stats t decision)
  place_sized-Ensures slice_idx new_px stats t skip_ahead b e =
      ensures-ok (IsWithinEnvelope D plan) (λ _. Unit) target_met tt
  place_sized-Ensures slice_idx new_px stats t (skip_below_min_notional sz notional) b e =
      ensures-ok (IsWithinEnvelope D plan) (λ _. Unit) below_min_notional tt
  place_sized-Ensures slice_idx new_px stats t (place sz) b e =
      let intent : OrderIntent D = alo_intent D plan.settle plan.reduce_only t.cloid new_px sz in
      let requested : Decimal = add (cumulative_notional D stats) (mul sz new_px) in
      let fits = decide_slice-within D L plan slice_idx stats new_px sz sized b e in
      because-Ensures stats "follow: limit price rejected"
        (validate_limit_price D new_px plan.settle.side plan.slippage_bps new_px new_px) _
        (λ _ _.
          because-Ensures stats "follow: notional cap"
            (check_notional_cap D requested plan.max_notional_usd) _
            (λ _ h.
              let may : IsAffordable D plan stats intent = record {
                is_live = live;
                size_nonneg = fits.0;
                within_total = fits.1;
                cap_px = new_px;
                at_least = omega arith;
                within_cap = check_notional_cap-ok D requested plan.max_notional_usd h;
              } in
              ensures_bind (IsWithinEnvelope D plan) (λ _. Unit)
                (of_order D stats intent (alo_left D)
                  (place_alo_child D (slice_call D run slice_idx intent) t.alo))
                (λ result. lift result >>= λ outcome. lift (ok (of_alo D outcome)))
                (alo-Ensures D L plan run accepts attached t.alo stats slice_idx intent may)
                (λ result h. of_alo-within stats intent result b may h)))

  result_within :
      (stats : FillStats D) (r : Result String (FollowPlace D))
      → ((p : FollowPlace D) → r ≡ ok p → IsPlaceWithin D plan stats p)
      → IsResultWithin D plan stats r
  result_within stats (ok p) h = h p refl
  result_within stats (err reason) h = tt

  pub attempt-Ensures :
      {F : Type 0} {Left : F → Type 0} (stats : FillStats D)
      (m : Logged (RunEvent D) String (FollowPlace D))
      → Placing D plan stats m
      → Ensures (IsWithinEnvelope D plan) Left (attempt D m) (IsResultWithin D plan stats)
  attempt-Ensures stats m placing = record {
    good = placing.good;
    post = λ r h.
        subst (IsResultWithin D plan stats) (ok-injective h)
          (result_within stats m.result placing.post);
    left = λ e h. absurd cc;
  }
