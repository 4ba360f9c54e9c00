-- ===== src/Twap/Follow/Tally.antt =====
-- src/twap.rs: a placing of the follow loop is counted.
use hype_trigger_twap.Prelude.{
  ℕ, ◌≡◌, refl, none, Bool, true, false, Result, ok, err, String, inl, sym, ◌∙◌, ap, ok-injective,
}
use mathlib.Core.Path.{subst}
use hype_trigger_twap.Prelude.Runs.{Logged, lift, ◌>>=◌, ◌>>◌}
use hype_trigger_twap.Decimal.{DecimalApi}
use hype_trigger_twap.Format.{round_price}
use hype_trigger_twap.Types.{OrderIntent}
use hype_trigger_twap.Risk.{validate_limit_price, check_notional_cap}
use hype_trigger_twap.Twap.Sizing.{SliceDecision, place, skip_ahead, skip_below_min_notional}
use hype_trigger_twap.Twap.Place.{RunCall, slice_call}
use hype_trigger_twap.Twap.Alo.{AloPlaceOutcome, alo_intent, place_alo_child}
use hype_trigger_twap.Twap.Stats.{
  TwapPlan, FillStats, add_fill, cumulative_notional, OrderOutcome, gave, gave_nothing,
  left_resting, RunEvent, of_order, alo_left,
}
use hype_trigger_twap.Twap.Stats.Tally.{
  Tally, after_outcome, tally, Counts, counts-ok, counts-err, counts_bind, order-Counts, untouched,
  IsBook, IsLeft,
}
use hype_trigger_twap.Twap.Follow.{
  FollowLoopExit, FollowPlace, placed, settled, alo_rejected, target_met, below_min_notional,
  of_alo, because, place_sized, FollowTick, FollowState, FollowReturn, Following, leave, leave_if,
  place_follow_child, note_place, attempt, place_and_note,
}

abbrev pub is_failed : {A : Type 0} → Result String A → Bool
is_failed (ok a) = false
is_failed (err e) = true

module _ (D : DecimalApi) where
  abbrev follow_left : Result String (FollowPlace D) → OrderOutcome D
  follow_left (ok (placed child)) = left_resting child
  follow_left (ok (settled o)) = gave o
  follow_left _ = gave_nothing

  abbrev pub IsBooked : Tally D → FollowState D → Type 0
  IsBooked t s = IsBook D t s.stats s.resting

  -- Nothing rests.
  abbrev pub IsClear : Tally D → FollowState D → Type 0
  IsClear t s = IsBooked t s × (s.resting ≡ none)

  abbrev pub IsReturned : Tally D → FollowReturn D → Type 0
  IsReturned t x = IsLeft D t x.state.stats x.state.resting (is_failed x.exit)

  abbrev pub Following-Counts : Tally D → Following D (FollowState D) → Type 0
  Following-Counts t m = Counts D t m IsBooked IsReturned

  abbrev Placing-Counts : Tally D → Logged (RunEvent D) String (FollowPlace D) → Type 0
  Placing-Counts t m =
      Counts D t m (λ u p. u ≡ after_outcome D t (follow_left (ok p)))
        (λ u e. u ≡ after_outcome D t gave_nothing)

module _ (D : DecimalApi) (plan : TwapPlan D) (run : RunCall D) where
  open D use {Decimal, add, mul}

  pub goes_on :
      (t : Tally D) (s : FollowState D) → IsBooked D t s → Following-Counts D t (lift (ok s))
  goes_on t s b = counts-ok D (IsReturned D) t s b

  pub leaves :
      {A : Type 0} {Post : Tally D → A → Type 0} (t : Tally D) (s : FollowState D)
      (exit : Result String FollowLoopExit)
      → IsBooked D t s
      → Counts D t (leave D {A = A} s exit) Post (IsReturned D)
  leaves t s exit b = counts-err D (IsReturned D) t _ (b.0, inl b.1)

  pub unless_left :
      {A : Type 0} {Post : Tally D → A → Type 0} (t : Tally D) (test : Bool) (s : FollowState D)
      (exit : FollowLoopExit) (next : Following D A)
      → IsBooked D t s
      → Counts D t next Post (IsReturned D)
      → Counts D t (leave_if D test s exit >> next) Post (IsReturned D)
  unless_left t true s exit next b m = leaves t s (ok exit) b
  unless_left t false s exit next b m = m

  because-Counts :
      {E A : Type 0} (t : Tally D) (reason : String) (r : Result E A)
      (next : A → Logged (RunEvent D) String (FollowPlace D))
      → t.held ≡ none
      → ((a : A) → Placing-Counts D t (next a))
      → Placing-Counts D t (because D reason r >>= next)
  because-Counts t reason (ok a) next none_held h = h a
  because-Counts t reason (err e) next none_held h =
      counts-err D _ t reason (untouched D t none_held)

  of_alo-Counts :
      (t u : Tally D) (r : Result String (AloPlaceOutcome D))
      → u ≡ after_outcome D t (alo_left D r)
      → Counts D u
          (lift r >>= λ outcome. lift (ok (of_alo D outcome)))
          (λ v p. v ≡ after_outcome D t (follow_left D (ok p)))
          (λ v e. v ≡ after_outcome D t gave_nothing)
  of_alo-Counts t u (err reason) e = counts-err D _ u reason e
  of_alo-Counts t u (ok (AloPlaceOutcome.resting child)) e = counts-ok D _ u _ e
  of_alo-Counts t u (ok (AloPlaceOutcome.settled o)) e = counts-ok D _ u _ e
  of_alo-Counts t u (ok AloPlaceOutcome.rejected_skip) e = counts-ok D _ u _ e
  of_alo-Counts t u (ok AloPlaceOutcome.position_target_reached) e = counts-ok D _ u _ e
  of_alo-Counts t u (ok AloPlaceOutcome.shutdown_requested) e = counts-ok D _ u _ e

  place_sized-Counts :
      (t : Tally D) (slice_idx : ℕ) (new_px : Decimal) (stats : FillStats D) (k : FollowTick D)
      (decision : SliceDecision D)
      → stats ≡ t.stats
      → t.held ≡ none
      → Placing-Counts D t (place_sized D plan run slice_idx new_px stats k decision)
  place_sized-Counts t slice_idx new_px stats k skip_ahead e none_held =
      counts-ok D _ t _ (untouched D t none_held)
  place_sized-Counts t slice_idx new_px stats k (skip_below_min_notional sz notional) e none_held =
      counts-ok D _ t _ (untouched D t none_held)
  place_sized-Counts t slice_idx new_px stats k (place sz) e none_held =
      let intent : OrderIntent D = alo_intent D plan.settle plan.reduce_only k.cloid new_px sz in
      because-Counts t "follow: limit price rejected"
        (validate_limit_price D new_px plan.settle.side plan.slippage_bps new_px new_px) _ none_held
        (λ _.
          because-Counts t "follow: notional cap"
            (check_notional_cap D (add (cumulative_notional D stats) (mul sz new_px))
              plan.max_notional_usd)
            _ none_held
            (λ _.
              counts_bind D _ t
                (of_order D stats intent (alo_left D)
                  (place_alo_child D (slice_call D run slice_idx intent) k.alo))
                (λ result. lift result >>= λ outcome. lift (ok (of_alo D outcome)))
                (order-Counts D _ t stats intent (alo_left D) _ e)
                (λ u result h. of_alo-Counts t u result h)))

  attempt_outcome :
      (t u : Tally D) (r : Result String (FollowPlace D))
      → ((p : FollowPlace D) → r ≡ ok p → u ≡ after_outcome D t (follow_left D (ok p)))
      → ((e : String) → r ≡ err e → u ≡ after_outcome D t gave_nothing)
      → u ≡ after_outcome D t (follow_left D r)
  attempt_outcome t u (ok p) h k = h p refl
  attempt_outcome t u (err e) h k = k e refl

  noted :
      (t : Tally D) (k : FollowTick D) (s : FollowState D) (r : Result String (FollowPlace D))
      → IsClear D t s
      → Following-Counts D (after_outcome D t (follow_left D r)) (note_place D k s r)
  unfolding note_place add_fill
  noted t k s (ok (placed child)) ((st, re), free) = goes_on _ _ (st, refl)
  noted t k s (ok (settled o)) ((st, re), free) =
      goes_on _ _ (ap (λ x. add_fill D x o.sz o.px) st, free)
  noted t k s (ok alo_rejected) ((st, re), free) = goes_on _ _ (st, free)
  noted t k s (ok target_met) ((st, re), free) = leaves _ s _ (st, free)
  noted t k s (ok below_min_notional) ((st, re), free) = leaves _ s _ (st, free)
  noted t k s (ok FollowPlace.position_target_reached) ((st, re), free) = leaves _ s _ (st, free)
  noted t k s (ok FollowPlace.shutdown_requested) ((st, re), free) = leaves _ s _ (st, free)
  noted t k s (err reason) ((st, re), free) = leaves _ s _ (st, free)

  pub place_and_note-Counts :
      (t : Tally D) (slice_idx : ℕ) (touch : Decimal) (k : FollowTick D) (s : FollowState D)
      → IsClear D t s
      → Following-Counts D t (place_and_note D plan run slice_idx touch k s)
  unfolding place_and_note place_follow_child
  place_and_note-Counts t slice_idx touch k s clear =
      let px : Decimal = round_price D touch plan.sz_decimals plan.settle.side in
      let m = place_follow_child D plan run slice_idx px s.stats k in
      let counts =
        place_sized-Counts t slice_idx px s.stats k _ clear.0.0 (sym clear.0.1 ∙ clear.1) in
      counts_bind D (IsReturned D) {Mid = λ u r. u ≡ after_outcome D t (follow_left D r)} t
        (attempt D m) (note_place D k s)
        (record {
          counted = counts.counted;
          post = λ r h.
              subst (λ x. tally D t m.events ≡ after_outcome D t (follow_left D x)) (ok-injective h)
                (attempt_outcome t (tally D t m.events) m.result counts.post counts.left);
          left = λ e h. absurd cc;
        })
        (λ u r e.
          subst (λ v. Following-Counts D v (note_place D k s r)) (sym e) (noted t k s r clear))
