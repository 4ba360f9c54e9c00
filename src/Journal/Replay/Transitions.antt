-- ===== src/Journal/Replay/Transitions.antt =====
-- src/journal.rs: the steps of `ValidatedJournalReplay::replay`, one function per kind of record,
-- and the loop over the records.
pub mod Closing
use hype_trigger_twap.Prelude.{
  ℕ, zero, suc, Bool, true, false, not, ◌&&◌, ◌||◌, Option, none, some, String, List, [], ◌∷◌,
  length, is_empty, Map, lookup, insert, Result, ok, err, fail_if, ok_or, ◌>>=◌, ◌>>◌,
  if◌then◌else◌, ◌==◌,
}
use hype_trigger_twap.Decimal.{DecimalApi, from_nat, lt, le, eq}
use hype_trigger_twap.Types.{Side, long, short, Tif, alo, Cloid}
use hype_trigger_twap.Client.Fill.{outside_limit}
use hype_trigger_twap.Journal.Records.{
  RunHeader, ExecutionPlanFingerprint, PreparedJournalIntent, TerminalOutcome, FinalReport,
  JournalRecord, header, prepared, submitted_unknown, acknowledged, terminal, final_report,
  abandoned, CloidState, closed, prepared_only, submitted, known, Label, missing, at_prepared,
  at_submitted, at_acknowledged, at_terminal, fingerprint_version,
}
use hype_trigger_twap.Journal.Errors.{
  accounting, negative_size, non_positive_price, unprepared, filled_size_exceeds_prepared,
  average_price_violates_limit, missing_average_price_for_short, terminal_accounting_regressed,
  overflow, missing_header, header_not_first, duplicate_header, missing_prepared,
  conflicting_prepared, slice_index_changed, invalid_transition, invalid_terminal_status,
  abandoned_with_unresolved, record_after_abandoned, completed_final_report_not_complete,
  final_report_unknown_cloids_mismatch, record_after_completed_final_report,
  invalid_final_report_filled_total, final_report_filled_total_mismatch,
  invalid_fingerprint_max_notional,
}
use hype_trigger_twap.Journal.Fingerprint.{validate_current_fingerprint}
use hype_trigger_twap.Journal.WholeRun.{validate_whole_run}
use hype_trigger_twap.Journal.Replay.{
  is_valid_journal_terminal_status, allowed, intent_eq, unresolved_of, distinct, same_set,
  AccountingPrepared, TerminalFill, ReplayState, empty_state, Replayed, decimal, calculate_totals,
}

abbrev pub label_or : Option Label → Label → Label
label_or none l = l
label_or (some l) _ = l

module _ (D : DecimalApi) where
  open D use {Decimal, parse, checked_mul}

  -- What a typed fingerprint promises as the cap, checked whatever the version.
  unfoldable pub check_fingerprint :
      RunHeader → Option ExecutionPlanFingerprint → Replayed D (Option Decimal)
  check_fingerprint h none = ok none
  check_fingerprint h (some f) = do
    most ← ok_or (parse f.max_notional_usd) (invalid_fingerprint_max_notional f.max_notional_usd)
    fail_if (le D most (from_nat D 0)) (invalid_fingerprint_max_notional f.max_notional_usd)
    if f.version == fingerprint_version then validate_current_fingerprint D h f else ok tt
    ok (some most)

  -- A header without a typed fingerprint leaves the cap as it is.
  abbrev or_cap : Option Decimal → Option Decimal → Option Decimal
  or_cap none old = old
  or_cap (some d) _ = some d

  unfoldable pub check_header : ℕ → RunHeader → Replayed D (Option Decimal)
  unfolding check_fingerprint
  check_header index h = do
    fail_if (not (index == 0)) duplicate_header
    check_fingerprint h h.execution_fingerprint

  abbrev pub open_header : RunHeader → Option Decimal → ReplayState D → ReplayState D
  open_header h cap s = record s {
    header = some h;
    fingerprint_max_notional = or_cap cap s.fingerprint_max_notional;
  }

  unfoldable pub header_step : ℕ → RunHeader → ReplayState D → Replayed D (ReplayState D)
  unfolding check_header
  header_step index h s = check_header index h >>= λ cap. ok (open_header h cap s)

  -- A second `Prepared` of a cloid: a conflict, or a transition that no state allows.
  unfoldable pub check_unprepared :
      Cloid
      → PreparedJournalIntent
      → Option PreparedJournalIntent
      → ReplayState D
      → Replayed D (Unit {0})
  check_unprepared cloid next none s = ok tt
  check_unprepared cloid next (some old) s = do
    fail_if (not (intent_eq old next)) (conflicting_prepared cloid)
    err (invalid_transition cloid (label_or (lookup cloid s.states) at_prepared) at_prepared)

  unfoldable pub check_prepared :
      Cloid → PreparedJournalIntent → ReplayState D → Replayed D (AccountingPrepared D)
  unfolding check_unprepared
  check_prepared cloid next s = do
    check_unprepared cloid next (lookup cloid s.prepared) s
    sz ← decimal D cloid "Prepared.sz" next.sz
    fail_if (lt D sz (from_nat D 0)) (accounting (negative_size cloid "Prepared.sz" sz))
    px ← decimal D cloid "Prepared.px" next.px
    fail_if (le D px (from_nat D 0)) (accounting (non_positive_price cloid "Prepared.px" px))
    ok (record { px = px; sz = sz; side = next.side; tif = next.tif })

  abbrev pub enter : Cloid → Label → CloidState → ReplayState D → ReplayState D
  enter cloid label value s = record s {
    state_values = insert cloid value s.state_values;
    states = insert cloid label s.states;
  }

  abbrev pub admit :
      Cloid → PreparedJournalIntent → AccountingPrepared D → ReplayState D → ReplayState D
  admit cloid next p s = enter cloid at_prepared prepared_only (record s {
    prepared = insert cloid next s.prepared;
    accounting_prepared = insert cloid p s.accounting_prepared;
  })

  unfoldable pub prepared_step :
      Cloid → PreparedJournalIntent → ReplayState D → Replayed D (ReplayState D)
  unfolding check_prepared
  prepared_step cloid next s = check_prepared cloid next s >>= λ p. ok (admit cloid next p s)

  abbrev pub is_alo : Option Tif → Bool
  is_alo (some alo) = true
  is_alo _ = false

  abbrev pub is_short : Side → Bool
  is_short short = true
  is_short long = false

  -- The price of a positive fill, and the price that is trusted for the average.
  unfoldable pub fill_price :
      Cloid → AccountingPrepared D → Option String → Replayed D (Decimal × Option Decimal)
  fill_price cloid p none =
      if is_short p.side && not (is_alo p.tif)
      then err (accounting (missing_average_price_for_short cloid p.tif))
      else ok (p.px, none)
  fill_price cloid p (some text) = do
    value ← decimal D cloid "Terminal.avg_px" text
    fail_if (le D value (from_nat D 0))
        (accounting (non_positive_price cloid "Terminal.avg_px" value))
    fail_if (outside_limit D p.side value p.px)
        (accounting (average_price_violates_limit cloid p.side value p.px))
    ok (value, some value)

  -- What one terminal record contributes to the accounting.
  unfoldable pub contribution :
      Cloid → AccountingPrepared D → Decimal → Option String → Replayed D (TerminalFill D)
  unfolding fill_price
  contribution cloid p filled avg_px =
      if lt D (from_nat D 0) filled
      then (do
        fail_if (lt D p.sz filled) (accounting (filled_size_exceeds_prepared cloid filled p.sz))
        (price, trusted) ← fill_price cloid p avg_px
        notional ←
            ok_or (checked_mul filled price) (accounting (overflow cloid "fill size by price"))
        ok (record { filled_sz = filled; notional = notional; avg_px = trusted }))
      else ok (record { filled_sz = filled; notional = from_nat D 0; avg_px = none })

  -- A later terminal record of the same cloid never takes back what an earlier one credited.
  unfoldable pub check_regression :
      Cloid → Option (TerminalFill D) → TerminalFill D → Replayed D (Unit {0})
  check_regression cloid none next = ok tt
  check_regression cloid (some previous) next =
      fail_if (lt D next.filled_sz previous.filled_sz || lt D next.notional previous.notional) (
        accounting (
          terminal_accounting_regressed cloid previous.filled_sz next.filled_sz previous.notional
            next.notional))

  -- The guards that the three records of a submitted cloid share.
  unfoldable pub check_transition : ℕ → Cloid → Label → ReplayState D → Replayed D (Unit {0})
  check_transition slice_idx cloid to s = do
    intent ← ok_or (lookup cloid s.prepared) (missing_prepared cloid)
    fail_if (not (intent.slice_idx == slice_idx))
        (slice_index_changed cloid intent.slice_idx slice_idx)
    let from = label_or (lookup cloid s.states) missing
    fail_if (not (allowed from to)) (invalid_transition cloid from to)

  unfoldable pub check_terminal :
      ℕ → Cloid → TerminalOutcome → ReplayState D → Replayed D (TerminalFill D)
  unfolding check_transition contribution check_regression
  check_terminal slice_idx cloid outcome s = do
    check_transition slice_idx cloid at_terminal s
    fail_if (not (is_valid_journal_terminal_status outcome.status))
        (invalid_terminal_status cloid outcome.status)
    filled ← decimal D cloid "Terminal.filled_sz" outcome.filled_sz
    fail_if (lt D filled (from_nat D 0))
        (accounting (negative_size cloid "Terminal.filled_sz" filled))
    p ← ok_or (lookup cloid s.accounting_prepared) (accounting (unprepared cloid))
    next ← contribution cloid p filled outcome.avg_px
    check_regression cloid (lookup cloid s.terminal_fills) next
    ok next

  abbrev pub credit : Cloid → TerminalOutcome → TerminalFill D → ReplayState D → ReplayState D
  credit cloid outcome next s =
      enter cloid at_terminal (closed outcome.filled_sz outcome.avg_px)
        (record s { terminal_fills = insert cloid next s.terminal_fills })

  unfoldable pub terminal_step :
      ℕ → Cloid → TerminalOutcome → ReplayState D → Replayed D (ReplayState D)
  unfolding check_terminal
  terminal_step slice_idx cloid outcome s =
      check_terminal slice_idx cloid outcome s >>= λ next. ok (credit cloid outcome next s)
