-- ===== src/Twap/Slices/Kept.antt =====
-- src/twap.rs: the bookkeeping of the loop over the slices, and what it keeps: the fills and what
-- rests are within the total.
use hype_trigger_twap.Prelude.{
  ◌+◌, ◌≤◌, ◌≡◌, refl, arith, Option, none, some, Bool, true, false, Result, ok, err, String,
  if◌then◌else◌, Bool-cases, inl, inr, sym,
}
use mathlib.Core.Path.{subst}
use hype_trigger_twap.Prelude.Runs.{lift, ◌>>=◌, ◌>>◌}
use hype_trigger_twap.Prelude.Ensures.{Ensures, ensures-ok, ensures-err}
use hype_trigger_twap.Decimal.{DecimalApi, from_nat, lt}
use hype_trigger_twap.Decimal.Laws.{DecimalLaws}
use hype_trigger_twap.Errors.{HlError}
use hype_trigger_twap.Twap.Ledger.{SliceOutcome}
use hype_trigger_twap.Twap.Place.{PositionTargetGuard, reached_or_crossed, PlaceSliceOutcome}
use hype_trigger_twap.Twap.Alo.{RestingChild, AloPlaceOutcome}
use hype_trigger_twap.Twap.Follow.{
  FollowLoopExit, slice_end_reached, deadline_passed, shutdown_requested, position_target_reached,
}
use hype_trigger_twap.Twap.Stats.{TwapPlan}
use hype_trigger_twap.Twap.Stats.Envelope.{IsWithinEnvelope, IsBounded, add_fill-IsBounded}
use hype_trigger_twap.Twap.Stats.Orders.{IsCreditOf, IsSettledWithin, IsPlacedWithin, IsAloWithin}
use hype_trigger_twap.Twap.Slices.{
  RunState, Running, stop, abort, abort_if, or_abort, credit_settled, note_settled, credited,
  check_position,
}
use hype_trigger_twap.Twap.Trades.{note_market, note_alo, note_follow}

module _ (D : DecimalApi) (plan : TwapPlan D) where
  open D use {plus, minus}

  abbrev pub IsKept : RunState D → Type 0
  IsKept s = IsBounded D plan s.stats s.resting

  -- Nothing rests.
  abbrev pub IsFree : RunState D → Type 0
  IsFree s = IsBounded D plan s.stats none × (s.resting ≡ none)

  abbrev pub Keeps : {A : Type 0} → Running D A → (A → Type 0) → Type 0
  Keeps m Post = Ensures (IsWithinEnvelope D plan) IsKept m Post

  pub IsFree-IsKept : (s : RunState D) → IsFree s → IsKept s
  IsFree-IsKept s (b, e) = subst (IsBounded D plan s.stats) (sym e) b

  pub goes_on : {Post : RunState D → Type 0} (s : RunState D) → Post s → Keeps (lift (ok s)) Post
  goes_on s p = ensures-ok (IsWithinEnvelope D plan) IsKept s p

  pub stops :
      {A : Type 0} {Post : A → Type 0} (s : RunState D) → IsKept s → Keeps (stop D {A = A} s) Post
  stops s k = ensures-err (IsWithinEnvelope D plan) IsKept s k

  pub aborts :
      {A : Type 0} {Post : A → Type 0} (s : RunState D) (reason : String)
      → IsKept s
      → Keeps (abort D {A = A} s reason) Post
  aborts s reason k = ensures-err (IsWithinEnvelope D plan) IsKept _ k

  pub either_way :
      {A : Type 0} {Post : A → Type 0} (test : Bool) (m n : Running D A)
      → (test ≡ true → Keeps m Post)
      → (test ≡ false → Keeps n Post)
      → Keeps (if test then m else n) Post
  either_way true m n h k = h refl
  either_way false m n h k = k refl

  pub unless_aborted :
      {A : Type 0} {Post : A → Type 0} (test : Bool) (s : RunState D) (reason : String)
      (next : Running D A)
      → IsKept s
      → Keeps next Post
      → Keeps (abort_if D test s reason >> next) Post
  unless_aborted true s reason next k m = aborts s reason k
  unless_aborted false s reason next k m = m

  pub or_abort-Ensures :
      {E A B : Type 0} {Post : B → Type 0} (r : Result E A) (s : RunState D) (reason : String)
      (next : A → Running D B)
      → IsKept s
      → ((a : A) → r ≡ ok a → Keeps (next a) Post)
      → Keeps (or_abort D r s reason >>= next) Post
  or_abort-Ensures (ok a) s reason next k h = h a refl
  or_abort-Ensures (err e) s reason next k h = aborts s reason k

  pub check_position-Ensures :
      {A : Type 0} {Post : A → Type 0} (guard : Option (PositionTargetGuard D))
      (position : Result HlError D.Decimal) (s : RunState D) (next : Running D A)
      → IsKept s
      → Keeps next Post
      → Keeps (check_position D guard position s >> next) Post
  unfolding check_position
  check_position-Ensures none position s next k m = m
  check_position-Ensures (some g) (err e) s next k m = aborts s _ k
  check_position-Ensures (some g) (ok szi) s next k m =
      elim (Bool-cases (reached_or_crossed D g szi)) [
        | inl reached ↦ rw reached (stops s k)
        | inr not_yet ↦ rw not_yet m
      ]

  pub note_follow-Ensures :
      (s : RunState D) (r : Result String FollowLoopExit)
      → IsKept s
      → Keeps (note_follow D s r) IsKept
  unfolding note_follow
  note_follow-Ensures s (ok slice_end_reached) k = goes_on s k
  note_follow-Ensures s (ok deadline_passed) k = aborts s _ k
  note_follow-Ensures s (ok shutdown_requested) k = aborts s _ k
  note_follow-Ensures s (ok position_target_reached) k = stops s k
  note_follow-Ensures s (err reason) k = aborts s reason k

module _ (D : DecimalApi) (L : DecimalLaws D) (plan : TwapPlan D) where
  open D use {Decimal, plus, minus}

  -- A fill within what the total leaves, where nothing rests.
  pub credited-IsFree :
      (s : RunState D) (size : Decimal) (o : SliceOutcome D)
      → IsFree D plan s
      → plus s.stats.filled + plus size ≤ plus plan.total_adjusted
      → IsCreditOf D plan size o
      → IsFree D plan (credited D s o)
  credited-IsFree s size o (b, e) fits credit = (
    add_fill-IsBounded D L plan s.stats o.sz o.px none b.filled_nonneg credit.credit_nonneg tt
        (let p = credit.credit_within in omega arith),
    e,
  )

  -- The credit of the order that rested.
  pub credit_settled-IsFree :
      (s : RunState D) (child : RestingChild D) (o : SliceOutcome D)
      → IsBounded D plan s.stats (some child)
      → s.resting ≡ none
      → IsCreditOf D plan child.requested_sz o
      → IsFree D plan (credit_settled D s o)
  credit_settled-IsFree s child o b gone credit =
      let free : IsFree D plan s = (
        record {
          filled_nonneg = b.filled_nonneg;
          resting_nonneg = tt;
          within = (let p = b.within in omega arith);
        },
        gone,
      ) in
      elim (Bool-cases (lt D (from_nat D 0) o.sz)) [
        | inl more ↦ rw more (credited-IsFree s child.requested_sz o free b.within credit)
        | inr nothing ↦ rw nothing free
      ]

  pub note_settled-Ensures :
      (s : RunState D) (child : RestingChild D) (r : Result HlError (SliceOutcome D))
      → IsBounded D plan s.stats (some child)
      → IsFree D plan s
      → IsSettledWithin D plan child.requested_sz r
      → Keeps D plan (note_settled D s r) (IsFree D plan)
  note_settled-Ensures s child (ok o) b free h =
      goes_on D plan _ (credit_settled-IsFree s child o b free.1 h)
  note_settled-Ensures s child (err e) b free h = aborts D plan s _ (IsFree-IsKept D plan s free)

  pub note_market-Ensures :
      (s : RunState D) (size : Decimal) (r : Result HlError (PlaceSliceOutcome D))
      → IsFree D plan s
      → plus s.stats.filled + plus size ≤ plus plan.total_adjusted
      → IsPlacedWithin D plan size r
      → Keeps D plan (note_market D s r) (IsKept D plan)
  unfolding note_market
  note_market-Ensures s size (ok (PlaceSliceOutcome.settled o)) free fits h =
      goes_on D plan _
        (IsFree-IsKept D plan (credited D s o) (credited-IsFree s size o free fits h))
  note_market-Ensures s size (ok PlaceSliceOutcome.position_target_reached) free fits h =
      stops D plan s (IsFree-IsKept D plan s free)
  note_market-Ensures s size (ok PlaceSliceOutcome.shutdown_requested) free fits h =
      aborts D plan s _ (IsFree-IsKept D plan s free)
  note_market-Ensures s size (err e) free fits h = aborts D plan s _ (IsFree-IsKept D plan s free)

  pub note_alo-Ensures :
      (s : RunState D) (size : Decimal) (r : Result String (AloPlaceOutcome D))
      → IsFree D plan s
      → minus size ≡ 0
      → plus s.stats.filled + plus size ≤ plus plan.total_adjusted
      → IsAloWithin D plan size r
      → Keeps D plan (note_alo D s r) (IsKept D plan)
  unfolding note_alo
  note_alo-Ensures s size (ok (AloPlaceOutcome.resting child)) (b, e) nonneg fits h =
      goes_on D plan _ (record {
        filled_nonneg = b.filled_nonneg;
        resting_nonneg = subst (λ x. minus x ≡ 0) (sym h) nonneg;
        within = subst (λ x. plus s.stats.filled + plus x ≤ plus plan.total_adjusted) (sym h) fits;
      })
  note_alo-Ensures s size (ok (AloPlaceOutcome.settled o)) free nonneg fits h =
      goes_on D plan _
        (IsFree-IsKept D plan (credited D s o) (credited-IsFree s size o free fits h))
  note_alo-Ensures s size (ok AloPlaceOutcome.rejected_skip) free nonneg fits h =
      goes_on D plan _ (IsFree-IsKept D plan s free)
  note_alo-Ensures s size (ok AloPlaceOutcome.position_target_reached) free nonneg fits h =
      stops D plan s (IsFree-IsKept D plan s free)
  note_alo-Ensures s size (ok AloPlaceOutcome.shutdown_requested) free nonneg fits h =
      aborts D plan s _ (IsFree-IsKept D plan s free)
  note_alo-Ensures s size (err reason) free nonneg fits h =
      aborts D plan s reason (IsFree-IsKept D plan s free)
