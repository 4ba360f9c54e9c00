-- ===== src/Twap/Slices/Tally.antt =====
-- src/twap.rs: the parts of the loop over the slices count their orders.
use hype_trigger_twap.Prelude.{
  ℕ, ◌≡◌, refl, Option, none, some, Bool, true, false, Result, ok, err, String, Bool-cases, inl,
  inr, sym, ap, is_some,
}
use mathlib.Core.Path.{subst}
use hype_trigger_twap.Prelude.Runs.{lift, ◌>>=◌, ◌>>◌}
use hype_trigger_twap.Decimal.{DecimalApi, from_nat, lt}
use hype_trigger_twap.Errors.{HlError}
use hype_trigger_twap.Twap.Ledger.{SliceOutcome}
use hype_trigger_twap.Twap.Schedule.{has_passed}
use hype_trigger_twap.Twap.Settle.{World}
use hype_trigger_twap.Twap.Place.{PositionTargetGuard, reached_or_crossed, RunCall}
use hype_trigger_twap.Twap.Alo.{RestingChild, settle_call, settle_resting_child}
use hype_trigger_twap.Twap.Stats.{TwapPlan, add_fill, of_order, settled_left}
use hype_trigger_twap.Twap.Stats.Tally.{
  Tally, after_outcome, Counts, counts-ok, counts-err, counts_bind, order-Counts, IsBook, IsLeft,
}
use hype_trigger_twap.Twap.Slices.{
  SliceWorld, RunState, Running, stop, abort, abort_if, or_abort, note_settled, settle_previous,
  check_position, open_slice,
}

module _ (D : DecimalApi) where
  abbrev pub IsBooked : Tally D → RunState D → Type 0
  IsBooked t s = IsBook D t s.stats s.resting

  -- Nothing rests.
  abbrev pub IsClear : Tally D → RunState D → Type 0
  IsClear t s = IsBooked t s × (s.resting ≡ none)

  -- What the loop leaves: an order that is still held could not be settled, and the run aborts.
  abbrev pub IsBroken : Tally D → RunState D → Type 0
  IsBroken t s = IsLeft D t s.stats s.resting (is_some s.abort_reason)

  abbrev pub Running-Counts : {A : Type 0} → Tally D → Running D A → (Tally D → A → Type 0) → Type 0
  Running-Counts t m Post = Counts D t m Post IsBroken

module _ (D : DecimalApi) where
  open D use {Decimal}

  pub goes_on :
      {A : Type 0} {Post : Tally D → A → Type 0} (t : Tally D) (a : A)
      → Post t a
      → Running-Counts D t (lift (ok a)) Post
  goes_on t a p = counts-ok D (IsBroken D) t a p

  pub stops :
      {A : Type 0} {Post : Tally D → A → Type 0} (t : Tally D) (s : RunState D)
      → IsBooked D t s
      → Running-Counts D t (stop D {A = A} s) Post
  stops t s b = counts-err D (IsBroken D) t s (b.0, inl b.1)

  pub aborts :
      {A : Type 0} {Post : Tally D → A → Type 0} (t : Tally D) (s : RunState D) (reason : String)
      → IsBooked D t s
      → Running-Counts D t (abort D {A = A} s reason) Post
  aborts t s reason b = counts-err D (IsBroken D) t _ (b.0, inl b.1)

  pub unless_aborted :
      {A : Type 0} {Post : Tally D → A → Type 0} (t : Tally D) (test : Bool) (s : RunState D)
      (reason : String) (next : Running D A)
      → IsBooked D t s
      → Running-Counts D t next Post
      → Running-Counts D t (abort_if D test s reason >> next) Post
  unless_aborted t true s reason next b m = aborts t s reason b
  unless_aborted t false s reason next b m = m

  pub or_abort-Counts :
      {E A B : Type 0} {Post : Tally D → B → Type 0} (t : Tally D) (r : Result E A) (s : RunState D)
      (reason : String) (next : A → Running D B)
      → IsBooked D t s
      → ((a : A) → Running-Counts D t (next a) Post)
      → Running-Counts D t (or_abort D r s reason >>= next) Post
  or_abort-Counts t (ok a) s reason next b h = h a
  or_abort-Counts t (err e) s reason next b h = aborts t s reason b

  check_position-Counts :
      {A : Type 0} {Post : Tally D → A → Type 0} (t : Tally D)
      (guard : Option (PositionTargetGuard D)) (position : Result HlError Decimal) (s : RunState D)
      (next : Running D A)
      → IsBooked D t s
      → Running-Counts D t next Post
      → Running-Counts D t (check_position D guard position s >> next) Post
  unfolding check_position
  check_position-Counts t none position s next b m = m
  check_position-Counts t (some g) (err e) s next b m = aborts t s _ b
  check_position-Counts t (some g) (ok szi) s next b m =
      elim (Bool-cases (reached_or_crossed D g szi)) [
        | inl reached ↦ rw reached (stops t s b)
        | inr not_yet ↦ rw not_yet m
      ]

  -- The order that rested is settled, or its settling fails and the run aborts.
  settled-Counts :
      (t : Tally D) (s : RunState D) (r : Result HlError (SliceOutcome D))
      → s.stats ≡ t.stats
      → s.resting ≡ none
      → Running-Counts D (after_outcome D t (settled_left D r)) (note_settled D s r) (IsClear D)
  unfolding add_fill
  settled-Counts t s (err e) st free = counts-err D (IsBroken D) _ _ (st, inr (free, refl))
  settled-Counts t s (ok o) st free = elim (Bool-cases (lt D (from_nat D 0) o.sz)) [
    | inl more ↦ rw more (goes_on _ _ ((ap (λ x. add_fill D x o.sz o.px) st, free), free))
    | inr nothing ↦ rw nothing (goes_on _ s ((st, free), free))
  ]

  module _ (plan : TwapPlan D) (run : RunCall D) where
    settle_previous-Counts :
        (t : Tally D) (w : World D) (s : RunState D) (resting : Option (RestingChild D))
        → s.resting ≡ resting
        → IsBooked D t s
        → Running-Counts D t (settle_previous D run w s resting) (IsClear D)
    unfolding settle_previous
    settle_previous-Counts t w s none e b = goes_on t s (b, e)
    settle_previous-Counts t w s (some child) e b =
        let taken : RunState D = record s { resting = none } in
        counts_bind D (IsBroken D) t
          (of_order D s.stats (settle_call D run child).intent (settled_left D)
            (settle_resting_child D run w child))
          (note_settled D taken)
          (order-Counts D (IsBroken D) t s.stats (settle_call D run child).intent (settled_left D) _
            b.0)
          (λ u r same.
            subst (λ v. Running-Counts D v (note_settled D taken r) (IsClear D)) (sym same)
              (settled-Counts t taken r b.0 refl))

    pub open_slice-Counts :
        (t : Tally D) (slice_idx : ℕ) (w : SliceWorld D) (s : RunState D)
        → IsBooked D t s
        → Running-Counts D t (open_slice D plan run slice_idx w s) (IsClear D)
    unfolding open_slice
    open_slice-Counts t slice_idx w s b = unless_aborted t _ s _ _ b (
        unless_aborted t w.is_down_at_top s _ _ b (
          counts_bind D (IsBroken D) t (settle_previous D run w.settling s s.resting) _
            (settle_previous-Counts t w.settling s s.resting refl b)
            (λ u settled clear.
              check_position-Counts u run.position_guard w.position settled _ clear.0 (
                unless_aborted u (has_passed run.deadline w.checked_at) settled _ _ clear.0
                  (goes_on u settled clear)))))
