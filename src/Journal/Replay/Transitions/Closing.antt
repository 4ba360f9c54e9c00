-- ===== src/Journal/Replay/Transitions/Closing.antt =====
-- src/journal.rs: the records that end a journal, and the loop of the replay.
use hype_trigger_twap.Prelude.{
  ℕ, ◌+◌, Bool, true, false, not, ◌&&◌, some, List, [], ◌∷◌, length, is_empty, Map, ok, err,
  fail_if, ok_or, ◌>>=◌, ◌>>◌, if◌then◌else◌, ◌==◌,
}
use hype_trigger_twap.Decimal.{DecimalApi, eq}
use hype_trigger_twap.Types.{Cloid}
use hype_trigger_twap.Journal.Records.{
  FinalReport, JournalRecord, header, prepared, submitted_unknown, acknowledged, terminal,
  final_report, abandoned, CloidState, submitted, known, at_submitted, at_acknowledged,
}
use hype_trigger_twap.Journal.Errors.{
  missing_header, header_not_first, abandoned_with_unresolved, record_after_abandoned,
  completed_final_report_not_complete, final_report_unknown_cloids_mismatch,
  record_after_completed_final_report, invalid_final_report_filled_total,
  final_report_filled_total_mismatch,
}
use hype_trigger_twap.Journal.WholeRun.{validate_whole_run}
use hype_trigger_twap.Journal.Replay.{
  unresolved_of, distinct, same_set, ReplayState, empty_state, Replayed, calculate_totals,
}
use hype_trigger_twap.Journal.Replay.Transitions.{
  header_step, prepared_step, check_transition, terminal_step, enter,
}

module _ (D : DecimalApi) where
  open D use {Decimal, parse}

  unfoldable pub submitted_step : ℕ → Cloid → ReplayState D → Replayed D (ReplayState D)
  unfolding check_transition
  submitted_step slice_idx cloid s = check_transition D slice_idx cloid at_submitted s >>= λ _.
      ok (enter D cloid at_submitted submitted s)

  unfoldable pub acknowledged_step : ℕ → Cloid → ReplayState D → Replayed D (ReplayState D)
  unfolding check_transition
  acknowledged_step slice_idx cloid s =
      check_transition D slice_idx cloid at_acknowledged s >>= λ _.
      ok (enter D cloid at_acknowledged known s)

  -- The cloids that a report calls unknown are the ones that the records leave open.
  unfoldable pub check_unknown : FinalReport → Map CloidState → Replayed D (Unit {0})
  unfolding unresolved_of distinct same_set
  check_unknown report values =
      if report.completed
      then fail_if (not (is_empty report.outcome_unknown_cloids && is_empty (unresolved_of values)))
          completed_final_report_not_complete
      else fail_if
          (not (
            distinct report.outcome_unknown_cloids
            && same_set report.outcome_unknown_cloids (unresolved_of values)))
          (final_report_unknown_cloids_mismatch report.outcome_unknown_cloids
            (unresolved_of values))

  unfoldable pub check_final_report : FinalReport → ReplayState D → Replayed D (Unit {0})
  unfolding check_unknown unresolved_of calculate_totals
  check_final_report report s = do
    reported ←
        ok_or (parse report.filled_total) (invalid_final_report_filled_total report.filled_total)
    (totals, vwap) ← calculate_totals D s.terminal_fills
    fail_if (not (eq D reported totals.filled_sz))
        (final_report_filled_total_mismatch reported totals.filled_sz)
    validate_whole_run D s.header report.whole_run totals vwap
        (length (unresolved_of s.state_values))
    check_unknown report s.state_values

  abbrev pub close_report : FinalReport → ReplayState D → ReplayState D
  close_report report s = record s {
    final_report_seen = true;
    last_completed = some report.completed;
    last_unknown_cloids = some report.outcome_unknown_cloids;
    last_whole_run = report.whole_run;
    completed_final_seen = report.completed;
  }

  unfoldable pub final_report_step : FinalReport → ReplayState D → Replayed D (ReplayState D)
  unfolding check_final_report
  final_report_step report s = check_final_report report s >>= λ _. ok (close_report report s)

  unfoldable pub check_abandoned : ReplayState D → Replayed D (Unit {0})
  unfolding unresolved_of
  check_abandoned s =
      fail_if (not (length (unresolved_of s.state_values) == 0))
        (abandoned_with_unresolved (length (unresolved_of s.state_values)))

  unfoldable pub abandoned_step : ReplayState D → Replayed D (ReplayState D)
  unfolding check_abandoned
  abandoned_step s = check_abandoned s >>= λ _. ok (record s { abandoned = true })

  -- The `match` on the record.
  unfoldable pub apply_record : ℕ → JournalRecord → ReplayState D → Replayed D (ReplayState D)
  unfolding header_step prepared_step submitted_step acknowledged_step terminal_step
      final_report_step abandoned_step
  apply_record index (header h) s = header_step D index h s
  apply_record index (prepared cloid _ intent) s = prepared_step D cloid intent s
  apply_record index (submitted_unknown slice cloid) s = submitted_step slice cloid s
  apply_record index (acknowledged slice cloid oid status) s = acknowledged_step slice cloid s
  apply_record index (terminal slice cloid outcome) s = terminal_step D slice cloid outcome s
  apply_record index (final_report report) s = final_report_step report s
  apply_record index (abandoned reason) s = abandoned_step s

  -- The body of the loop.
  unfoldable pub step : ℕ → JournalRecord → ReplayState D → Replayed D (ReplayState D)
  unfolding apply_record
  step index r s = do
    fail_if s.abandoned record_after_abandoned
    fail_if s.completed_final_seen record_after_completed_final_report
    apply_record index r s

  unfoldable pub replay_from : ℕ → List JournalRecord → ReplayState D → Replayed D (ReplayState D)
  unfolding step
  replay_from index [] s = ok s
  replay_from index (r ∷ rs) s = step index r s >>= λ next. replay_from (1 + index) rs next

  abbrev pub is_header : JournalRecord → Bool
  is_header (header h) = true
  is_header _ = false

  -- The guards before the loop, and the loop.
  unfoldable pub replay_records : List JournalRecord → Replayed D (ReplayState D)
  unfolding replay_from
  replay_records [] = err missing_header
  replay_records (r ∷ rs) = do
    fail_if (not (is_header r)) header_not_first
    replay_from 0 (r ∷ rs) (empty_state D)
