-- ===== src/Twap/Slices/Counted.antt =====
-- src/twap.rs: a whole run counts its orders, and takes the one that rests to be settled.
use hype_trigger_twap.Prelude.{
  ℕ, zero, suc, ◌+◌, ◌*◌, ◌≡◌, refl, Option, none, some, Bool, true, false, Result, ok, err, String,
  ◌⊎◌, inl, inr, Bool-cases, sym, ◌∙◌, ap, is_some, ok-injective, if◌then◌else◌,
}
use mathlib.Core.Path.{subst}
use hype_trigger_twap.Prelude.Runs.{lift}
use hype_trigger_twap.Decimal.{DecimalApi, from_nat, lt}
use hype_trigger_twap.Errors.{HlError}
use hype_trigger_twap.Risk.{validate_limit_price}
use hype_trigger_twap.Client.Book.{ValidatedMarketSnapshot}
use hype_trigger_twap.Twap.Books.{fetch_fresh_book}
use hype_trigger_twap.Twap.Ledger.{SliceOutcome}
use hype_trigger_twap.Twap.Schedule.{slice_deadline}
use hype_trigger_twap.Twap.Settle.{World}
use hype_trigger_twap.Twap.Sizing.{SliceDecision, place, skip_ahead, skip_below_min_notional}
use hype_trigger_twap.Twap.Place.{Sink, PositionTargetGuard, RunCall}
use hype_trigger_twap.Twap.Alo.{RestingChild, settle_call, settle_resting_child}
use hype_trigger_twap.Twap.Stats.{
  TwapPlan, with_prior_notional, add_fill, of_order, quote, settled_left,
}
use hype_trigger_twap.Twap.Stats.Tally.{Tally, after_outcome, tally, counts_bind, order-Counts}
use hype_trigger_twap.Twap.Slices.{SliceWorld, RunState, Running, open_slice}
use hype_trigger_twap.Twap.Slices.Tally.{
  IsBooked, IsClear, IsBroken, Running-Counts, goes_on, or_abort-Counts, open_slice-Counts,
}
use hype_trigger_twap.Twap.Slices.Sending.{send_child-Counts, close_slice-Counts}
use hype_trigger_twap.Twap.Trades.{
  slice_intent, send_child, close_slice, trade_placed, trade_sized, trade_at, trade_on, trade_slice,
}
use hype_trigger_twap.Twap.Runs.{
  slice_once, run_slices, final_state, get_or_insert_reason, note_cleanup, clean_up, initial,
  run_deadline, run_call, RunWorld, run_loop,
}

module _ (D : DecimalApi) where
  -- A run begins with no fills and the notional of the prior runs.
  abbrev pub start : D.Decimal → Tally D
  start prior = record {
    stats = record { filled = from_nat D 0; notional = from_nat D 0; prior_notional = prior };
    held = none;
  }

  -- The state at the end of a run: its fills are those of the tally, and an order that is still
  -- held could not be settled, for which the run aborts.
  abbrev pub IsDone : Tally D → RunState D → Type 0
  IsDone t s = (s.stats ≡ t.stats) × ((t.held ≡ none) ⊎ (is_some s.abort_reason ≡ true))

module _ (D : DecimalApi) (plan : TwapPlan D) (run : RunCall D)
    (live : plan.read_only ≡ false) where
  open D use {Decimal, add, mul}

  when_false :
      {A : Type 0} {Post : Tally D → A → Type 0} (t : Tally D) (test : Bool) (m n : Running D A)
      → test ≡ false
      → Running-Counts D t n Post
      → Running-Counts D t (if test then m else n) Post
  when_false t true m n e k = absurd cc
  when_false t false m n e k = k

  trade_placed-Counts :
      (t : Tally D) (slice_idx slice_end : ℕ) (w : SliceWorld D) (s : RunState D) (px sz : Decimal)
      → IsClear D t s
      → Running-Counts D t (trade_placed D plan run slice_idx slice_end w s px sz) (IsBooked D)
  trade_placed-Counts t slice_idx slice_end w s px sz clear = when_false t plan.read_only _ _ live (
      counts_bind D (IsBroken D) t
        (send_child D plan run slice_idx slice_end w s plan.child_algo
          (slice_intent D plan plan.child_algo w.cloid px sz))
        (close_slice D plan w)
        (send_child-Counts D plan run t slice_idx slice_end w s plan.child_algo _ clear)
        (λ u s' b. close_slice-Counts D plan run u w s' b))

  trade_sized-Counts :
      (t : Tally D) (slice_idx slice_end : ℕ) (w : SliceWorld D) (s : RunState D) (px bid : Decimal)
      (decision : SliceDecision D)
      → IsClear D t s
      → Running-Counts D t
          (trade_sized D plan run slice_idx slice_end w s px bid decision)
          (IsBooked D)
  unfolding trade_sized
  trade_sized-Counts t slice_idx slice_end w s px bid skip_ahead clear = goes_on D t _ clear.0
  trade_sized-Counts t slice_idx slice_end w s px bid (skip_below_min_notional sz notional) clear =
      goes_on D t _ clear.0
  trade_sized-Counts t slice_idx slice_end w s px bid (place sz) clear =
      or_abort-Counts D t _ s _ (λ _. trade_placed D plan run slice_idx slice_end w s px sz) clear.0
        (λ _. trade_placed-Counts t slice_idx slice_end w s px sz clear)

  trade_on-Counts :
      (t : Tally D) (slice_idx slice_end : ℕ) (w : SliceWorld D) (s : RunState D)
      (book : ValidatedMarketSnapshot D)
      → IsClear D t s
      → Running-Counts D t (trade_on D plan run slice_idx slice_end w s book) (IsBooked D)
  trade_on-Counts t slice_idx slice_end w s book clear =
      let px : Decimal = quote D plan plan.child_algo book in
      or_abort-Counts D t
        (validate_limit_price D px plan.settle.side plan.slippage_bps book.best_bid book.best_ask) s
        "limit price rejected" (λ _. trade_at D plan run slice_idx slice_end w s px book.best_bid)
        clear.0 (λ _. trade_sized-Counts t slice_idx slice_end w s px book.best_bid _ clear)

  slice_once-Counts :
      (t : Tally D) (starts_at slice_idx : ℕ) (w : SliceWorld D) (s : RunState D)
      → IsBooked D t s
      → Running-Counts D t (slice_once D plan run starts_at slice_idx w s) (IsBooked D)
  unfolding slice_once trade_slice
  slice_once-Counts t starts_at slice_idx w s b =
      let slice_end : ℕ =
        slice_deadline starts_at (plan.duration * 1000000) slice_idx plan.slices in
      counts_bind D (IsBroken D) t (open_slice D plan run slice_idx w s)
        (trade_slice D plan run slice_idx slice_end w)
        (open_slice-Counts D plan run t slice_idx w s b)
        (λ u opened clear.
          or_abort-Counts D u
            (fetch_fresh_book D w.books plan.settle.symbol plan.max_book_age_ms (some run.deadline))
            opened "book fetch failed" (trade_on D plan run slice_idx slice_end w opened) clear.0
            (λ book. trade_on-Counts u slice_idx slice_end w opened book clear))

  run_slices-Counts :
      (t : Tally D) (starts_at : ℕ) (worlds : ℕ → SliceWorld D) (left slice_idx : ℕ)
      (s : RunState D)
      → IsBooked D t s
      → Running-Counts D t (run_slices D plan run starts_at worlds left slice_idx s) (IsBooked D)
  unfolding run_slices
  run_slices-Counts t starts_at worlds zero slice_idx s b = goes_on D t s b
  run_slices-Counts t starts_at worlds (suc left) slice_idx s b =
      counts_bind D (IsBroken D) t (slice_once D plan run starts_at slice_idx (worlds slice_idx) s)
        _ (slice_once-Counts t starts_at slice_idx (worlds slice_idx) s b)
        (λ u s' b'. run_slices-Counts u starts_at worlds left (slice_idx + 1) s' b')

  some_reason :
      (first : Option String) (reason : String)
      → is_some (get_or_insert_reason D first reason) ≡ true
  some_reason none reason = refl
  some_reason (some first) reason = refl

  -- The order that is held at the end is settled, or the run aborts.
  cleaned :
      (t : Tally D) (s : RunState D) (r : Result HlError (SliceOutcome D))
      → s.stats ≡ t.stats
      → IsDone D (after_outcome D t (settled_left D r)) (note_cleanup D s r)
  unfolding add_fill
  cleaned t s (err e) st = (st, inr (some_reason s.abort_reason _))
  cleaned t s (ok o) st = elim (Bool-cases (lt D (from_nat D 0) o.sz)) [
    | inl more ↦ rw more (ap (λ x. add_fill D x o.sz o.px) st, inl refl)
    | inr nothing ↦ rw nothing (st, inl refl)
  ]

  clean_up-Counts :
      (t : Tally D) (w : World D) (s : RunState D) (resting : Option (RestingChild D))
      → s.resting ≡ resting
      → IsBroken D t s
      → Running-Counts D t (clean_up D run w s resting) (IsDone D)
  unfolding clean_up
  clean_up-Counts t w s none e (st, inl re) = goes_on D t s (st, inl (sym re ∙ e))
  clean_up-Counts t w s none e (st, inr (free, aborted)) = goes_on D t s (st, inr aborted)
  clean_up-Counts t w s (some child) e (st, why) =
      let taken : RunState D = record s { resting = none } in
      counts_bind D (IsBroken D) t
        (of_order D s.stats (settle_call D run child).intent (settled_left D)
          (settle_resting_child D run w child))
        (λ r. lift (ok (note_cleanup D taken r)))
        (order-Counts D (IsBroken D) t s.stats (settle_call D run child).intent (settled_left D) _
          st)
        (λ u r same.
          goes_on D u _
            (subst (λ v. IsDone D v (note_cleanup D taken r)) (sym same) (cleaned t taken r st)))

  final_state-IsBroken :
      (t : Tally D) (r : Result (RunState D) (RunState D))
      → ((s : RunState D) → r ≡ ok s → IsBooked D t s)
      → ((s : RunState D) → r ≡ err s → IsBroken D t s)
      → IsBroken D t (final_state D r)
  final_state-IsBroken t (ok s) h k = (let b = h s refl in (b.0, inl b.1))
  final_state-IsBroken t (err s) h k = k s refl

-- A live run counts each of its orders, and ends by the tally of its log.
pub run_loop-Counts :
    (D : DecimalApi) (plan : TwapPlan D) (sink : Sink)
    → plan.read_only ≡ false
    → (guard : Option (PositionTargetGuard D)) (prior : D.Decimal) (w : RunWorld D)
    → Running-Counts D (start D prior) (run_loop D plan sink guard prior w) (IsDone D)
unfolding run_loop with_prior_notional
run_loop-Counts D plan sink live guard prior w =
    let run : RunCall D = run_call D plan (run_deadline D plan w.start_ms w.wall_ms) sink guard in
    let loop = run_slices D plan run w.start_ns w.slices plan.slices 1 (initial D prior) in
    let counts =
      run_slices-Counts D plan run live (start D prior) w.start_ns w.slices plan.slices 1
        (initial D prior) (refl, refl) in
    counts_bind D (IsBroken D) {Mid = IsBroken D} (start D prior)
      (record { events = loop.events; result = ok (final_state D loop.result) })
      (λ s. clean_up D run w.settling s s.resting)
      (record {
        counted = counts.counted;
        post = λ s h.
            subst (IsBroken D (tally D (start D prior) loop.events)) (ok-injective h)
              (final_state-IsBroken D plan run live _ loop.result counts.post counts.left);
        left = λ e h. absurd cc;
      })
      (λ u s b. clean_up-Counts D plan run live u w.settling s s.resting refl b)
