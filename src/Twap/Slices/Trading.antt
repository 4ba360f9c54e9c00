-- ===== src/Twap/Slices/Trading.antt =====
-- src/twap.rs: the loop over the slices trades within the envelope of its run.
use hype_trigger_twap.Prelude.{ℕ, zero, suc, ◌+◌, ◌*◌, ◌≤◌, ◌≡◌, refl, arith, some, Bool, false}
use hype_trigger_twap.Prelude.Runs.{◌>>=◌}
use hype_trigger_twap.Prelude.Ensures.{ensures_bind}
use hype_trigger_twap.Decimal.{DecimalApi, lt}
use hype_trigger_twap.Decimal.Laws.{DecimalLaws}
use hype_trigger_twap.Types.{OrderIntent}
use hype_trigger_twap.Journal.Records.{JournalRecord}
use hype_trigger_twap.Twap.Ledger.{SliceOutcome}
use hype_trigger_twap.Twap.Sizing.{
  SliceDecision, place, skip_ahead, skip_below_min_notional, decide_slice,
}
use hype_trigger_twap.Twap.Schedule.{slice_deadline}
use hype_trigger_twap.Twap.Place.{RunCall}
use hype_trigger_twap.Twap.Stats.{TwapPlan, cumulative_notional, quote, cap_price}
use hype_trigger_twap.Risk.{validate_limit_price}
use hype_trigger_twap.Twap.Books.{fetch_fresh_book}
use hype_trigger_twap.Twap.Stats.Envelope.{
  IsSized, IsWithinEnvelope, decide_slice-within, cap_price-at_least,
}
use hype_trigger_twap.Twap.Follow.Placing.{check_notional_cap-ok}
use hype_trigger_twap.Twap.Slices.{SliceWorld, RunState, open_slice}
use hype_trigger_twap.Twap.Trades.{
  slice_intent, send_child, close_slice, trade_placed, trade_sized, trade_at, trade_on, trade_slice,
}
use hype_trigger_twap.Twap.Runs.{slice_once, run_slices}
use hype_trigger_twap.Twap.Slices.Kept.{
  IsKept, IsFree, Keeps, IsFree-IsKept, goes_on, or_abort-Ensures,
}
use hype_trigger_twap.Twap.Slices.{credited}
use hype_trigger_twap.Client.Book.{ValidatedMarketSnapshot}
use hype_trigger_twap.Twap.Slices.Kept.{either_way}
use hype_trigger_twap.Twap.Slices.Kept.{credited-IsFree}
use hype_trigger_twap.Twap.Slices.Envelope.{
  send_child-Ensures, close_slice-Ensures, open_slice-Ensures,
}

-- What a dry run takes an order for.
abbrev filled_at : {D : DecimalApi} → D.Decimal → D.Decimal → SliceOutcome D
filled_at px sz = record { sz = sz; px = px }

module _ (D : DecimalApi) (L : DecimalLaws D) (plan : TwapPlan D) (run : RunCall D)
    (accepts : JournalRecord → Bool) (attached : run.sink ≡ some accepts)
    (sized : IsSized D plan) where
  open D use {Decimal, plus, minus, add, mul}

  -- An order of a live run, whose notional was accepted.
  trade_live-Ensures :
      (slice_idx slice_end : ℕ) (w : SliceWorld D) (s : RunState D) (px bid sz : Decimal)
      → IsFree D plan s
      → plan.read_only ≡ false
      → (minus sz ≡ 0) × (plus s.stats.filled + plus sz ≤ plus plan.total_adjusted)
      → lt D plan.max_notional_usd
          (add (cumulative_notional D s.stats) (mul sz (cap_price D plan plan.child_algo px bid)))
        ≡ false
      → Keeps D plan
          (send_child D plan run slice_idx slice_end w s plan.child_algo
              (slice_intent D plan plan.child_algo w.cloid px sz)
            >>= λ s'. close_slice D plan w s')
          (IsKept D plan)
  trade_live-Ensures slice_idx slice_end w s px bid sz free live fits within =
      let intent : OrderIntent D = slice_intent D plan plan.child_algo w.cloid px sz in
      ensures_bind (IsWithinEnvelope D plan) (IsKept D plan)
        (send_child D plan run slice_idx slice_end w s plan.child_algo intent)
        (close_slice D plan w)
        (send_child-Ensures D L plan run accepts attached sized slice_idx slice_end w s
          plan.child_algo intent free
          (record {
            is_live = live;
            size_nonneg = fits.0;
            within_total = fits.1;
            cap_px = cap_price D plan plan.child_algo px bid;
            at_least = cap_price-at_least D L plan plan.child_algo px bid;
            within_cap = within;
          }))
        (close_slice-Ensures D L plan run accepts attached sized w)

  trade_sized-Ensures :
      (slice_idx slice_end : ℕ) (w : SliceWorld D) (s : RunState D) (px bid : Decimal)
      (decision : SliceDecision D)
      → IsFree D plan s
      → decide_slice D slice_idx plan.slices plan.per_slice plan.total_adjusted s.stats.filled
          plan.sz_decimals px
        ≡ decision
      → Keeps D plan
          (trade_sized D plan run slice_idx slice_end w s px bid decision)
          (IsKept D plan)
  unfolding trade_sized
  trade_sized-Ensures slice_idx slice_end w s px bid skip_ahead free e =
      goes_on D plan _ (IsFree-IsKept D plan s free)
  trade_sized-Ensures slice_idx slice_end w s px bid (skip_below_min_notional sz notional) free e =
      goes_on D plan _ (IsFree-IsKept D plan s free)
  trade_sized-Ensures slice_idx slice_end w s px bid (place sz) free e =
      let fits = decide_slice-within D L plan slice_idx s.stats px sz sized free.0 e in
      or_abort-Ensures D plan _ s _ (λ _. trade_placed D plan run slice_idx slice_end w s px sz)
        (IsFree-IsKept D plan s free)
        (λ _ h.
          either_way D plan plan.read_only _ _
            (λ dry. goes_on D plan _ (
              IsFree-IsKept D plan (credited D s (filled_at px sz)) (
                credited-IsFree D L plan s sz (filled_at px sz) free fits.1
                  (record { credit_nonneg = fits.0; credit_within = omega arith }))))
            (λ live.
              trade_live-Ensures slice_idx slice_end w s px bid sz free live fits
                (check_notional_cap-ok D _ plan.max_notional_usd h)))

  trade_on-Ensures :
      (slice_idx slice_end : ℕ) (w : SliceWorld D) (s : RunState D)
      (book : ValidatedMarketSnapshot D)
      → IsFree D plan s
      → Keeps D plan (trade_on D plan run slice_idx slice_end w s book) (IsKept D plan)
  trade_on-Ensures slice_idx slice_end w s book free =
      let px : Decimal = quote D plan plan.child_algo book in
      or_abort-Ensures D plan
        (validate_limit_price D px plan.settle.side plan.slippage_bps book.best_bid book.best_ask) s
        "limit price rejected" (λ _. trade_at D plan run slice_idx slice_end w s px book.best_bid)
        (IsFree-IsKept D plan s free)
        (λ _ _. trade_sized-Ensures slice_idx slice_end w s px book.best_bid _ free refl)

  slice_once-Ensures :
      (starts_at slice_idx : ℕ) (w : SliceWorld D) (s : RunState D)
      → IsKept D plan s
      → Keeps D plan (slice_once D plan run starts_at slice_idx w s) (IsKept D plan)
  unfolding slice_once trade_slice
  slice_once-Ensures starts_at slice_idx w s k =
      let slice_end : ℕ =
        slice_deadline starts_at (plan.duration * 1000000) slice_idx plan.slices in
      ensures_bind (IsWithinEnvelope D plan) (IsKept D plan) (open_slice D plan run slice_idx w s)
        (trade_slice D plan run slice_idx slice_end w)
        (open_slice-Ensures D L plan run accepts attached sized slice_idx w s k)
        (λ opened free.
          or_abort-Ensures D plan
            (fetch_fresh_book D w.books plan.settle.symbol plan.max_book_age_ms (some run.deadline))
            opened "book fetch failed" (trade_on D plan run slice_idx slice_end w opened)
            (IsFree-IsKept D plan opened free)
            (λ book _. trade_on-Ensures slice_idx slice_end w opened book free))

  pub run_slices-Ensures :
      (starts_at : ℕ) (worlds : ℕ → SliceWorld D) (left slice_idx : ℕ) (s : RunState D)
      → IsKept D plan s
      → Keeps D plan (run_slices D plan run starts_at worlds left slice_idx s) (IsKept D plan)
  unfolding run_slices
  run_slices-Ensures starts_at worlds zero slice_idx s k = goes_on D plan s k
  run_slices-Ensures starts_at worlds (suc left) slice_idx s k =
      ensures_bind (IsWithinEnvelope D plan) (IsKept D plan)
        (slice_once D plan run starts_at slice_idx (worlds slice_idx) s) _
        (slice_once-Ensures starts_at slice_idx (worlds slice_idx) s k)
        (λ s' k'. run_slices-Ensures starts_at worlds left (slice_idx + 1) s' k')
