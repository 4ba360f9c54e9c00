-- ===== src/Twap/Follow/Counted.antt =====
-- src/twap.rs: the follow loop counts its orders.
use hype_trigger_twap.Prelude.{
  ℕ, ◌≡◌, refl, Option, none, some, Result, ok, err, List, [], ◌∷◌, leb, Bool-cases, inl, inr, sym,
  ap,
}
use mathlib.Core.Path.{subst}
use hype_trigger_twap.Prelude.Runs.{lift, ◌>>=◌}
use hype_trigger_twap.Decimal.{DecimalApi, from_nat, lt, le}
use hype_trigger_twap.Errors.{HlError}
use hype_trigger_twap.Client.Book.{ValidatedMarketSnapshot}
use hype_trigger_twap.Twap.Schedule.{has_passed}
use hype_trigger_twap.Twap.Ledger.{SliceOutcome}
use hype_trigger_twap.Twap.Place.{RunCall}
use hype_trigger_twap.Twap.Alo.{RestingChild, settle_call, settle_resting_child}
use hype_trigger_twap.Twap.Stats.{TwapPlan, add_fill, of_order, touch_of, settled_left}
use hype_trigger_twap.Twap.Stats.Tally.{
  Tally, after_outcome, Counts, counts-ok, counts-err, counts_bind, order-Counts,
}
use hype_trigger_twap.Twap.Follow.Tally.{
  IsBooked, IsClear, IsReturned, Following-Counts, goes_on, leaves, unless_left,
  place_and_note-Counts,
}
use hype_trigger_twap.Twap.Follow.{
  FollowLoopExit, slice_end_reached, deadline_passed, FollowTick, FollowState, place_and_note,
  credit_settled, settle_child, moved_through, is_throttled, is_worth_moving, requote, with_book,
  tick, follow_from,
}

module _ (D : DecimalApi) (plan : TwapPlan D) (run : RunCall D) where
  open D use {Decimal, add, mul}

  -- The order that rested is settled, or its settling fails and the loop is left.
  credited-Counts :
      (t : Tally D) (s : FollowState D) (r : Result HlError (SliceOutcome D))
      → s.stats ≡ t.stats
      → s.resting ≡ none
      → Counts D
          (after_outcome D t (settled_left D r))
          (credit_settled D s r)
          (IsClear D)
          (IsReturned D)
  unfolding add_fill
  credited-Counts t s (err e) st free = counts-err D (IsReturned D) _ _ (st, inr (free, refl))
  credited-Counts t s (ok o) st free = elim (Bool-cases (lt D (from_nat D 0) o.sz)) [
    | inl more ↦
        rw more (counts-ok D (IsReturned D) _ _ ((ap (λ x. add_fill D x o.sz o.px) st, free), free))
    | inr nothing ↦ rw nothing (counts-ok D (IsReturned D) _ s ((st, free), free))
  ]

  settle_child-Counts :
      (t : Tally D) (k : FollowTick D) (child : RestingChild D) (s : FollowState D)
      → IsBooked D t s
      → Counts D t (settle_child D plan run k child s) (IsClear D) (IsReturned D)
  unfolding settle_child
  settle_child-Counts t k child s b =
      let freed : FollowState D = record s { resting = none } in
      counts_bind D (IsReturned D) t
        (of_order D s.stats (settle_call D run child).intent (settled_left D)
          (settle_resting_child D run k.settling child))
        _
        (order-Counts D (IsReturned D) t s.stats (settle_call D run child).intent (settled_left D) _
          b.0)
        (λ u r e.
          counts_bind D (IsReturned D) u (credit_settled D freed r) _
            (subst (λ v. Counts D v (credit_settled D freed r) (IsClear D) (IsReturned D)) (sym e)
              (credited-Counts t freed r b.0 refl))
            (λ v s' clear.
              unless_left D plan run v (le D plan.total_adjusted s'.stats.filled) s'
                slice_end_reached (lift (ok s')) clear.0 (counts-ok D (IsReturned D) v s' clear)))

  settle_and_place-Counts :
      (t : Tally D) (slice_idx : ℕ) (touch : Decimal) (k : FollowTick D) (child : RestingChild D)
      (s : FollowState D)
      → IsBooked D t s
      → Following-Counts D t (
          settle_child D plan run k child s >>= λ s'.
          place_and_note D plan run slice_idx touch k s')
  settle_and_place-Counts t slice_idx touch k child s b =
      counts_bind D (IsReturned D) t (settle_child D plan run k child s)
        (place_and_note D plan run slice_idx touch k) (settle_child-Counts t k child s b)
        (λ u s' clear. place_and_note-Counts D plan run u slice_idx touch k s' clear)

  settle_only-Counts :
      (t : Tally D) (k : FollowTick D) (child : RestingChild D) (s : FollowState D)
      → IsBooked D t s
      → Following-Counts D t (settle_child D plan run k child s)
  settle_only-Counts t k child s b =
      let done = settle_child-Counts t k child s b in
      record { counted = done.counted; post = λ s' h. (done.post s' h).0; left = done.left }

  requote-Counts :
      (t : Tally D) (slice_idx : ℕ) (k : FollowTick D) (s : FollowState D) (touch : Decimal)
      (resting : Option (RestingChild D))
      → s.resting ≡ resting
      → IsBooked D t s
      → Following-Counts D t (requote D plan run slice_idx k s touch resting)
  unfolding requote
  requote-Counts t slice_idx k s touch none e b = elim (Bool-cases (is_throttled D plan k s)) [
    | inl wait ↦ rw wait (goes_on D plan run t s b)
    | inr free ↦ rw free (place_and_note-Counts D plan run t slice_idx touch k s (b, e))
  ]
  requote-Counts t slice_idx k s touch (some child) e b =
      elim (Bool-cases (moved_through D plan.settle.side touch child.px)) [
        | inl through ↦ rw through (settle_only-Counts t k child s b)
        | inr same ↦ rw same (elim (Bool-cases (is_worth_moving D plan k s touch child.px)) [
          | inl move ↦ rw move (settle_and_place-Counts t slice_idx touch k child s b)
          | inr stay ↦ rw stay (goes_on D plan run t s b)
        ])
      ]

  with_book-Counts :
      (t : Tally D) (slice_idx : ℕ) (k : FollowTick D) (s : FollowState D)
      (reply : Result HlError (ValidatedMarketSnapshot D))
      → IsBooked D t s
      → Following-Counts D t (with_book D plan run slice_idx k s reply)
  with_book-Counts t slice_idx k s (ok book) b =
      requote-Counts t slice_idx k s (touch_of D plan.settle.side book) s.resting refl b
  with_book-Counts t slice_idx k s (err e) b =
      unless_left D plan run t (has_passed run.deadline k.failed_at) s deadline_passed _ b
        (goes_on D plan run t s b)

  tick-Counts :
      (t : Tally D) (slice_idx slice_end : ℕ) (k : FollowTick D) (s : FollowState D)
      → IsBooked D t s
      → Following-Counts D t (tick D plan run slice_idx slice_end k s)
  unfolding tick
  tick-Counts t slice_idx slice_end k s b =
      unless_left D plan run t (leb slice_end k.top_at) s slice_end_reached _ b (
        unless_left D plan run t k.shutdown s FollowLoopExit.shutdown_requested _ b (
          unless_left D plan run t (leb slice_end k.woke_at) s slice_end_reached _ b (
            unless_left D plan run t (has_passed run.deadline k.deadline_at) s deadline_passed _ b
              (with_book-Counts t slice_idx k s _ b))))

  pub follow_from-Counts :
      (t : Tally D) (slice_idx slice_end : ℕ) (ks : List (FollowTick D)) (s : FollowState D)
      → IsBooked D t s
      → Following-Counts D t (follow_from D plan run slice_idx slice_end ks s)
  unfolding follow_from
  follow_from-Counts t slice_idx slice_end [] s b = leaves D plan run t s (ok slice_end_reached) b
  follow_from-Counts t slice_idx slice_end (k ∷ ks) s b =
      counts_bind D (IsReturned D) t (tick D plan run slice_idx slice_end k s) _
        (tick-Counts t slice_idx slice_end k s b)
        (λ u s' b'. follow_from-Counts u slice_idx slice_end ks s' b')
