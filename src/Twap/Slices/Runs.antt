-- ===== src/Twap/Slices/Runs.antt =====
-- src/twap.rs: what a whole run keeps to.
use hype_trigger_twap.Prelude.{
  ◌≡◌, refl, arith, ok-injective, Option, none, some, Bool, Result, ok, err, All, true, ◌⊎◌, inl,
  inr, Bool-cases,
}
use mathlib.Core.Path.{subst}
use hype_trigger_twap.Prelude.Runs.{lift}
use hype_trigger_twap.Prelude.Ensures.{ensures_bind}
use hype_trigger_twap.Decimal.{DecimalApi}
use hype_trigger_twap.Decimal.Laws.{DecimalLaws}
use hype_trigger_twap.Errors.{HlError}
use hype_trigger_twap.Journal.Records.{JournalRecord}
use hype_trigger_twap.Twap.Ledger.{SliceOutcome}
use hype_trigger_twap.Twap.Settle.{World}
use hype_trigger_twap.Twap.Place.{Sink, PositionTargetGuard, RunCall, Surroundings}
use hype_trigger_twap.Twap.Alo.{RestingChild, settle_call, settle_resting_child}
use hype_trigger_twap.Twap.Stats.{TwapPlan, of_order, with_prior_notional, settled_left}
use hype_trigger_twap.Twap.Stats.Envelope.{IsSized, IsWithinEnvelope, IsBounded}
use hype_trigger_twap.Twap.Stats.Orders.{IsSettledWithin, settle-Ensures}
use hype_trigger_twap.Twap.Slices.{RunState}
use hype_trigger_twap.Twap.Runs.{
  note_cleanup, clean_up, final_state, initial, run_deadline, run_call, RunWorld, run_slices,
  run_loop,
}
use hype_trigger_twap.Twap.Slices.Kept.{IsKept, IsFree, Keeps, goes_on, credit_settled-IsFree}
use hype_trigger_twap.Twap.Slices.Trading.{run_slices-Ensures}
use hype_trigger_twap.Twap.Stats.Tally.{IsCounted}
use hype_trigger_twap.Twap.Slices.Counted.{start, run_loop-Counts}

module _ (D : DecimalApi) (L : DecimalLaws D) (plan : TwapPlan D) (run : RunCall D)
    (accepts : JournalRecord → Bool) (attached : run.sink ≡ some accepts) where
  open D use {minus}

  note_cleanup-IsFree :
      (s : RunState D) (child : RestingChild D) (r : Result HlError (SliceOutcome D))
      → IsBounded D plan s.stats (some child)
      → IsFree D plan s
      → IsSettledWithin D plan child.requested_sz r
      → IsFree D plan (note_cleanup D s r)
  note_cleanup-IsFree s child (ok o) b free h = credit_settled-IsFree D L plan s child o b free.1 h
  note_cleanup-IsFree s child (err e) b free h = free

  -- The last settling leaves nothing at rest.
  clean_up-Ensures :
      (around : Surroundings D) (w : World D) (s : RunState D) (resting : Option (RestingChild D))
      → s.resting ≡ resting
      → IsKept D plan s
      → Keeps D plan (clean_up D run w s resting) (IsFree D plan)
  unfolding clean_up
  clean_up-Ensures around w s none e k = goes_on D plan s (subst (IsBounded D plan s.stats) e k, e)
  clean_up-Ensures around w s (some child) e k =
      let taken : RunState D = record s { resting = none } in
      let b = subst (IsBounded D plan s.stats) e k in
      let freed : IsBounded D plan s.stats none = record {
        filled_nonneg = b.filled_nonneg;
        resting_nonneg = tt;
        within = (let p = b.within in omega arith);
      } in
      ensures_bind (IsWithinEnvelope D plan) (IsKept D plan)
        (of_order D s.stats (settle_call D run child).intent (settled_left D)
          (settle_resting_child D run w child))
        (λ r. lift (ok (note_cleanup D taken r)))
        (settle-Ensures D L plan run accepts attached around w s.stats child b.resting_nonneg)
        (λ r h. goes_on D plan _ (note_cleanup-IsFree taken child r b (freed, refl) h))

  final_state-IsKept :
      (r : Result (RunState D) (RunState D))
      → ((s : RunState D) → r ≡ ok s → IsKept D plan s)
      → ((s : RunState D) → r ≡ err s → IsKept D plan s)
      → IsKept D plan (final_state D r)
  final_state-IsKept (ok s) h k = h s refl
  final_state-IsKept (err s) h k = k s refl

module _ (D : DecimalApi) (L : DecimalLaws D) (plan : TwapPlan D) (sink : Sink)
    (accepts : JournalRecord → Bool) (attached : sink ≡ some accepts) (sized : IsSized D plan) where
  open D use {Decimal, plus, minus}
  open L use {plus-new, minus-new}

  initial-IsKept : (prior : Decimal) → IsKept D plan (initial D prior)
  unfolding with_prior_notional
  initial-IsKept prior = record {
    filled_nonneg = minus-new 0 0;
    resting_nonneg = tt;
    within = (let start = plus-new 0 0 (omega arith) in omega arith);
  }

  run_loop-Ensures :
      (guard : Option (PositionTargetGuard D)) (prior : Decimal) (w : RunWorld D)
      → Keeps D plan (run_loop D plan sink guard prior w) (IsFree D plan)
  unfolding run_loop
  run_loop-Ensures guard prior w =
      let run : RunCall D = run_call D plan (run_deadline D plan w.start_ms w.wall_ms) sink guard in
      let loop = run_slices D plan run w.start_ns w.slices plan.slices 1 (initial D prior) in
      let kept =
        run_slices-Ensures D L plan run accepts attached sized w.start_ns w.slices plan.slices 1
          (initial D prior) (initial-IsKept prior) in
      ensures_bind (IsWithinEnvelope D plan) (IsKept D plan)
        (record { events = loop.events; result = ok (final_state D loop.result) })
        (λ s. clean_up D run w.settling s s.resting)
        (record {
          good = kept.good;
          post = λ s h.
              subst (IsKept D plan) (ok-injective h)
                (final_state-IsKept D L plan run accepts attached loop.result kept.post kept.left);
          left = λ e h. absurd cc;
        })
        (λ s k.
          clean_up-Ensures D L plan run accepts attached (w.slices 0).placing w.settling s s.resting
            refl k)

  -- Every order that a run sends keeps to its envelope, whatever the exchange answers, whatever
  -- algorithm is chosen, and however the run ends: the run is no dry run; the size is not negative;
  -- the count of what was filled before it and the size are within the adjusted total; and the
  -- notional that was counted before it, with the prior runs' one, and that of the order at a price
  -- that is at least its own, are within the cap. Unless the run is a dry run, the count before
  -- each order is no fills and the prior runs' notional, and over these the fill that each order
  -- before it has left, in the order of the log. The slices of the plan are within its total, and a
  -- journal is attached.
  pub run_loop-IsWithinEnvelope :
      (guard : Option (PositionTargetGuard D)) (prior : Decimal) (w : RunWorld D)
      → All (IsWithinEnvelope D plan) (run_loop D plan sink guard prior w).events
        × ((plan.read_only ≡ true)
            ⊎ IsCounted D (start D prior) (run_loop D plan sink guard prior w).events)
  run_loop-IsWithinEnvelope guard prior w = (
    (run_loop-Ensures guard prior w).good,
    (elim (Bool-cases plan.read_only) [
      | inl dry ↦ inl dry
      | inr live ↦ inr (run_loop-Counts D plan sink live guard prior w).counted
    ]),
  )
