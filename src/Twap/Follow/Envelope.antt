-- ===== src/Twap/Follow/Envelope.antt =====
-- src/twap.rs: the follow loop keeps to the envelope of its run.
use hype_trigger_twap.Prelude.{
  ℕ, ◌≡◌, refl, arith, Option, none, some, Bool, true, false, Result, ok, err, String, List, [],
  ◌∷◌, leb, Bool-cases, inl, inr, sym,
}
use mathlib.Core.Path.{subst}
use hype_trigger_twap.Prelude.Runs.{lift, ◌>>=◌, ◌>>◌}
use hype_trigger_twap.Prelude.Ensures.{Ensures, ensures-ok, ensures-err, ensures_bind}
use hype_trigger_twap.Decimal.{DecimalApi, from_nat, lt, le}
use hype_trigger_twap.Decimal.Laws.{DecimalLaws}
use hype_trigger_twap.Errors.{HlError}
use hype_trigger_twap.Format.{round_price}
use hype_trigger_twap.Journal.Records.{JournalRecord}
use hype_trigger_twap.Client.Book.{ValidatedMarketSnapshot}
use hype_trigger_twap.Twap.Schedule.{has_passed}
use hype_trigger_twap.Twap.Ledger.{SliceOutcome}
use hype_trigger_twap.Twap.Place.{RunCall}
use hype_trigger_twap.Twap.Alo.{RestingChild, settle_call, settle_resting_child}
use hype_trigger_twap.Twap.Stats.{TwapPlan, add_fill, of_order, touch_of, settled_left}
use hype_trigger_twap.Twap.Stats.Envelope.{IsSized, IsWithinEnvelope, IsBounded, add_fill-IsBounded}
use hype_trigger_twap.Twap.Stats.Orders.{IsSettledWithin, settle-Ensures}
use hype_trigger_twap.Twap.Follow.{
  FollowLoopExit, slice_end_reached, deadline_passed, FollowPlace, placed, settled, alo_rejected,
  target_met, below_min_notional, FollowTick, FollowState, Following, leave, leave_if,
  place_follow_child, note_place, attempt, place_and_note, credit_settled, settle_child,
  moved_through, is_throttled, is_worth_moving, requote, with_book, tick, follow_from,
}
use hype_trigger_twap.Twap.Follow.Placing.{IsResultWithin, place_sized-Ensures, attempt-Ensures}

module _ (D : DecimalApi) (plan : TwapPlan D) where
  open D use {plus, minus}

  abbrev pub IsKept : FollowState D → Type 0
  IsKept s = IsBounded D plan s.stats s.resting

  -- Nothing rests.
  abbrev IsFree : FollowState D → Type 0
  IsFree s = IsBounded D plan s.stats none × (s.resting ≡ none)

  IsFree-IsKept : (s : FollowState D) → IsFree s → IsKept s
  IsFree-IsKept s (b, e) = subst (IsBounded D plan s.stats) (sym e) b

  abbrev pub Keeps : Following D (FollowState D) → Type 0
  Keeps m = Ensures (IsWithinEnvelope D plan) (λ r. IsKept r.state) m IsKept

module _ (D : DecimalApi) (L : DecimalLaws D) (plan : TwapPlan D) (run : RunCall D)
    (accepts : JournalRecord → Bool) (attached : run.sink ≡ some accepts) (sized : IsSized D plan)
    (live : plan.read_only ≡ false) where
  open D use {Decimal, plus, minus, add, mul}

  goes_on : (s : FollowState D) → IsKept D plan s → Keeps D plan (lift (ok s))
  goes_on s k = ensures-ok (IsWithinEnvelope D plan) (λ r. IsKept D plan r.state) s k

  leaves :
      {A : Type 0} {Post : A → Type 0} (s : FollowState D) (exit : Result String FollowLoopExit)
      → IsKept D plan s
      → Ensures (IsWithinEnvelope D plan) (λ r. IsKept D plan r.state) (leave D {A = A} s exit) Post
  leaves s exit k =
      ensures-err (IsWithinEnvelope D plan) (λ r. IsKept D plan r.state)
        (record { state = s; exit = exit }) k

  unless_left :
      {A : Type 0} {Post : A → Type 0} (test : Bool) (s : FollowState D) (exit : FollowLoopExit)
      (next : Following D A)
      → IsKept D plan s
      → Ensures (IsWithinEnvelope D plan) (λ r. IsKept D plan r.state) next Post
      → Ensures
          (IsWithinEnvelope D plan)
          (λ r. IsKept D plan r.state)
          (leave_if D test s exit >> next)
          Post
  unless_left true s exit next k m = leaves s (ok exit) k
  unless_left false s exit next k m = m

  note_place-Ensures :
      (t : FollowTick D) (s : FollowState D) (r : Result String (FollowPlace D))
      → IsFree D plan s
      → IsResultWithin D plan s.stats r
      → Keeps D plan (note_place D t s r)
  unfolding note_place
  note_place-Ensures t s (ok (placed child)) free h = goes_on _ h
  note_place-Ensures t s (ok (settled o)) (b, e) h = goes_on _ (
      subst (IsBounded D plan (add_fill D s.stats o.sz o.px)) (sym e) (
        add_fill-IsBounded D L plan s.stats o.sz o.px none b.filled_nonneg h.0 tt
          (let fits = h.1 in omega arith)))
  note_place-Ensures t s (ok alo_rejected) free h = goes_on _ (IsFree-IsKept D plan s free)
  note_place-Ensures t s (ok target_met) free h = leaves s _ (IsFree-IsKept D plan s free)
  note_place-Ensures t s (ok below_min_notional) free h = leaves s _ (IsFree-IsKept D plan s free)
  note_place-Ensures t s (ok FollowPlace.position_target_reached) free h =
      leaves s _ (IsFree-IsKept D plan s free)
  note_place-Ensures t s (ok FollowPlace.shutdown_requested) free h =
      leaves s _ (IsFree-IsKept D plan s free)
  note_place-Ensures t s (err reason) free h = leaves s _ (IsFree-IsKept D plan s free)

  place_and_note-Ensures :
      (slice_idx : ℕ) (touch : Decimal) (t : FollowTick D) (s : FollowState D)
      → IsFree D plan s
      → Keeps D plan (place_and_note D plan run slice_idx touch t s)
  unfolding place_and_note place_follow_child
  place_and_note-Ensures slice_idx touch t s free =
      let px : Decimal = round_price D touch plan.sz_decimals plan.settle.side in
      ensures_bind (IsWithinEnvelope D plan) (λ r. IsKept D plan r.state)
        (attempt D (place_follow_child D plan run slice_idx px s.stats t)) (note_place D t s)
        (attempt-Ensures D L plan run accepts attached sized live s.stats
          (place_follow_child D plan run slice_idx px s.stats t)
          (place_sized-Ensures D L plan run accepts attached sized live slice_idx px s.stats t _
            free.0 refl))
        (λ r h. note_place-Ensures t s r free h)

  -- The credit of the order that rested.
  credited-Ensures :
      (s : FollowState D) (child : RestingChild D) (r : Result HlError (SliceOutcome D))
      → IsBounded D plan s.stats (some child)
      → s.resting ≡ none
      → IsSettledWithin D plan child.requested_sz r
      → Ensures
          (IsWithinEnvelope D plan)
          (λ r. IsKept D plan r.state)
          (credit_settled D s r)
          (IsFree D plan)
  credited-Ensures s child (err e) b gone h = leaves s _ (
      IsFree-IsKept D plan s (
        record {
          filled_nonneg = b.filled_nonneg;
          resting_nonneg = tt;
          within = (let p = b.within in omega arith);
        },
        gone,
      ))
  credited-Ensures s child (ok o) b gone h = elim (Bool-cases (lt D (from_nat D 0) o.sz)) [
    | inl more ↦ rw more (
        ensures-ok (IsWithinEnvelope D plan) (λ r. IsKept D plan r.state) _
          (
            add_fill-IsBounded D L plan s.stats o.sz o.px none b.filled_nonneg h.credit_nonneg tt
                (let p = b.within in let q = h.credit_within in omega arith),
            gone,
          ))
    | inr nothing ↦ rw nothing (
        ensures-ok (IsWithinEnvelope D plan) (λ r. IsKept D plan r.state) _
          (
            record {
              filled_nonneg = b.filled_nonneg;
              resting_nonneg = tt;
              within = (let p = b.within in omega arith);
            },
            gone,
          ))
  ]

  settle_child-Ensures :
      (t : FollowTick D) (child : RestingChild D) (s : FollowState D)
      → IsBounded D plan s.stats (some child)
      → Ensures
          (IsWithinEnvelope D plan)
          (λ r. IsKept D plan r.state)
          (settle_child D plan run t child s)
          (IsFree D plan)
  unfolding settle_child
  settle_child-Ensures t child s b =
      let freed : FollowState D = record s { resting = none } in
      ensures_bind (IsWithinEnvelope D plan) (λ r. IsKept D plan r.state)
        (of_order D s.stats (settle_call D run child).intent (settled_left D)
          (settle_resting_child D run t.settling child))
        _
        (settle-Ensures D L plan run accepts attached t.alo.around t.settling s.stats child
          b.resting_nonneg)
        (λ r h.
          ensures_bind (IsWithinEnvelope D plan) (λ r. IsKept D plan r.state)
            (credit_settled D freed r) _ (credited-Ensures freed child r b refl h)
            (λ s' free.
              unless_left (le D plan.total_adjusted s'.stats.filled) s' slice_end_reached
                (lift (ok s')) (IsFree-IsKept D plan s' free)
                (ensures-ok (IsWithinEnvelope D plan) (λ r. IsKept D plan r.state) s' free)))

  settle_and_place-Ensures :
      (slice_idx : ℕ) (touch : Decimal) (t : FollowTick D) (child : RestingChild D)
      (s : FollowState D)
      → IsBounded D plan s.stats (some child)
      → Keeps D plan (
          settle_child D plan run t child s >>= λ s'.
          place_and_note D plan run slice_idx touch t s')
  settle_and_place-Ensures slice_idx touch t child s b =
      ensures_bind (IsWithinEnvelope D plan) (λ r. IsKept D plan r.state)
        (settle_child D plan run t child s) (place_and_note D plan run slice_idx touch t)
        (settle_child-Ensures t child s b)
        (λ s' free. place_and_note-Ensures slice_idx touch t s' free)

  settle_only-Ensures :
      (t : FollowTick D) (child : RestingChild D) (s : FollowState D)
      → IsBounded D plan s.stats (some child)
      → Keeps D plan (settle_child D plan run t child s)
  settle_only-Ensures t child s b =
      let settled = settle_child-Ensures t child s b in
      record {
        good = settled.good;
        post = λ s' h. IsFree-IsKept D plan s' (settled.post s' h);
        left = settled.left;
      }

  requote-Ensures :
      (slice_idx : ℕ) (t : FollowTick D) (s : FollowState D) (touch : Decimal)
      (resting : Option (RestingChild D))
      → s.resting ≡ resting
      → IsKept D plan s
      → Keeps D plan (requote D plan run slice_idx t s touch resting)
  unfolding requote
  requote-Ensures slice_idx t s touch none e k = elim (Bool-cases (is_throttled D plan t s)) [
    | inl wait ↦ rw wait (goes_on s k)
    | inr free ↦
        rw free
          (place_and_note-Ensures slice_idx touch t s (subst (IsBounded D plan s.stats) e k, e))
  ]
  requote-Ensures slice_idx t s touch (some child) e k =
      let b = subst (IsBounded D plan s.stats) e k in
      elim (Bool-cases (moved_through D plan.settle.side touch child.px)) [
        | inl through ↦ rw through (settle_only-Ensures t child s b)
        | inr same ↦ rw same (elim (Bool-cases (is_worth_moving D plan t s touch child.px)) [
          | inl move ↦ rw move (settle_and_place-Ensures slice_idx touch t child s b)
          | inr stay ↦ rw stay (goes_on s k)
        ])
      ]

  with_book-Ensures :
      (slice_idx : ℕ) (t : FollowTick D) (s : FollowState D)
      (reply : Result HlError (ValidatedMarketSnapshot D))
      → IsKept D plan s
      → Keeps D plan (with_book D plan run slice_idx t s reply)
  with_book-Ensures slice_idx t s (ok book) k =
      requote-Ensures slice_idx t s (touch_of D plan.settle.side book) s.resting refl k
  with_book-Ensures slice_idx t s (err e) k =
      unless_left (has_passed run.deadline t.failed_at) s deadline_passed _ k (goes_on s k)

  tick-Ensures :
      (slice_idx slice_end : ℕ) (t : FollowTick D) (s : FollowState D)
      → IsKept D plan s
      → Keeps D plan (tick D plan run slice_idx slice_end t s)
  unfolding tick
  tick-Ensures slice_idx slice_end t s k =
      unless_left (leb slice_end t.top_at) s slice_end_reached _ k (
        unless_left t.shutdown s FollowLoopExit.shutdown_requested _ k (
          unless_left (leb slice_end t.woke_at) s slice_end_reached _ k (
            unless_left (has_passed run.deadline t.deadline_at) s deadline_passed _ k
              (with_book-Ensures slice_idx t s _ k))))

  -- Whatever the iterations bring, the orders of the follow loop are within the envelope, and so is
  -- what it leaves.
  pub follow_from-Ensures :
      (slice_idx slice_end : ℕ) (ts : List (FollowTick D)) (s : FollowState D)
      → IsKept D plan s
      → Keeps D plan (follow_from D plan run slice_idx slice_end ts s)
  unfolding follow_from
  follow_from-Ensures slice_idx slice_end [] s k = leaves s (ok slice_end_reached) k
  follow_from-Ensures slice_idx slice_end (t ∷ ts) s k =
      ensures_bind (IsWithinEnvelope D plan) (λ r. IsKept D plan r.state)
        (tick D plan run slice_idx slice_end t s) _ (tick-Ensures slice_idx slice_end t s k)
        (λ s' k'. follow_from-Ensures slice_idx slice_end ts s' k')
