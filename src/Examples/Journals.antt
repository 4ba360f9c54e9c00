-- ===== src/Examples/Journals.antt =====
-- src/journal.rs: two short journals, one that a completed report ends and one that is still open.
use hype_trigger_twap.Prelude.{
  ◌*◌, ◌≡◌, refl, true, false, not, none, some, List, [], ◌∷◌, ◌++◌, ok,
}
use hype_trigger_twap.Decimal.{unit}
use hype_trigger_twap.Decimal.Fixed.{fixed, pos}
use hype_trigger_twap.Types.{long, ioc}
use hype_trigger_twap.Journal.Records.{
  RunHeader, PreparedJournalIntent, TerminalOutcome, FinalReport, JournalRecord, header, prepared,
  submitted_unknown, terminal, final_report, submitted, closed, at_submitted, at_terminal,
}
use hype_trigger_twap.Journal.Replay.{
  TerminalFill, ReplayState, empty_state, decimal, is_valid_journal_terminal_status,
  calculate_totals, add_totals, add_execution, unresolved_of, distinct, same_set, member,
}
use hype_trigger_twap.Journal.WholeRun.{validate_whole_run}
use hype_trigger_twap.Client.Status.{is_terminal_order_status, normalise_status}
use hype_trigger_twap.Prelude.Text.{
  to_ascii_lowercase, starts_with, replace, replace_from, codes_eq, eq_ignore_ascii_case,
}
use hype_trigger_twap.Journal.Replay.Transitions.{
  header_step, check_header, check_fingerprint, prepared_step, check_prepared, check_unprepared,
  check_transition, terminal_step, check_terminal, contribution, fill_price, check_regression,
}
use hype_trigger_twap.Journal.Replay.Transitions.Closing.{
  replay_from, replay_records, step, apply_record, submitted_step, final_report_step,
  check_final_report, check_unknown,
}
use hype_trigger_twap.Journal.Ending.{ends}
use hype_trigger_twap.Journal.Ending.Loop.{ends_with, replay_records-ends}
use hype_trigger_twap.Journal.Credit.{books}
use hype_trigger_twap.Journal.Credit.Bounds.{IsAccounted, replay_records-IsAccounted}
use hype_trigger_twap.Journal.Credit.Growth.{StillCredited, replay_from-StillCredited}
use hype_trigger_twap.Journal.Summary.{
  ValidatedJournalReplay, summary_of, replay, is_incomplete, unresolved_cloids,
}
use hype_trigger_twap.Journal.Summary.Completion.{replay-is_incomplete, replay-unresolved_cloids}

abbrev pub started : RunHeader
started = record {
  run_id = "run";
  network = "mainnet";
  agent = none;
  master = none;
  symbol = "HYPE";
  side = long;
  slices = 1;
  plan_hash = "hash";
  execution_fingerprint = none;
  started_at_unix_ms = 0;
  execution_deadline_unix_ms = none;
}

abbrev pub order : PreparedJournalIntent
order = record { slice_idx = 1; symbol = "HYPE"; side = long; tif = some ioc; px = "2"; sz = "10" }

abbrev filled : TerminalOutcome
filled = record { status = "filled"; filled_sz = "10"; avg_px = some "1" }

abbrev report : FinalReport
report = record {
  completed = true;
  filled_total = "10";
  outcome_unknown_cloids = [];
  note = "";
  whole_run = none;
}

abbrev pub open_run : List JournalRecord
open_run = header started ∷ prepared 7 none order ∷ submitted_unknown 1 7 ∷ []

abbrev closed_run : List JournalRecord
closed_run = open_run ++ terminal 1 7 filled ∷ final_report report ∷ []

abbrev fill : TerminalFill fixed
fill = record { filled_sz = pos (10 * unit); notional = pos (10 * unit); avg_px = some (pos unit) }

abbrev pub open_state : ReplayState fixed
open_state = record (empty_state fixed) {
  prepared = (7, order) ∷ [];
  accounting_prepared =
      (7, record { px = pos (2 * unit); sz = pos (10 * unit); side = long; tif = some ioc }) ∷ [];
  state_values = (7, submitted) ∷ [];
  states = (7, at_submitted) ∷ [];
  header = some started;
}

abbrev credited_state : ReplayState fixed
credited_state = record open_state {
  terminal_fills = (7, fill) ∷ [];
  state_values = (7, closed "10" (some "1")) ∷ [];
  states = (7, at_terminal) ∷ [];
}

abbrev pub closed_state : ReplayState fixed
closed_state = record credited_state {
  final_report_seen = true;
  last_completed = some true;
  last_unknown_cloids = some [];
  completed_final_seen = true;
}

open_replays : replay_records fixed open_run ≡ ok open_state
unfolding replay_records replay_from step apply_record header_step check_header check_fingerprint
    prepared_step check_prepared check_unprepared decimal submitted_step check_transition
open_replays = refl

closed_replays : replay_records fixed closed_run ≡ ok closed_state
unfolding replay_records replay_from step apply_record header_step check_header check_fingerprint
    prepared_step check_prepared check_unprepared decimal submitted_step check_transition
    terminal_step check_terminal is_valid_journal_terminal_status is_terminal_order_status
    normalise_status to_ascii_lowercase starts_with replace replace_from codes_eq
    eq_ignore_ascii_case contribution fill_price check_regression final_report_step
    check_final_report calculate_totals add_totals add_execution validate_whole_run check_unknown
    unresolved_of distinct same_set member
closed_replays = refl

report_replays : replay_from fixed 4 (final_report report ∷ []) credited_state ≡ ok closed_state
unfolding replay_records replay_from step apply_record header_step check_header check_fingerprint
    prepared_step check_prepared check_unprepared decimal submitted_step check_transition
    terminal_step check_terminal is_valid_journal_terminal_status is_terminal_order_status
    normalise_status to_ascii_lowercase starts_with replace replace_from codes_eq
    eq_ignore_ascii_case contribution fill_price check_regression final_report_step
    check_final_report calculate_totals add_totals add_execution validate_whole_run check_unknown
    unresolved_of distinct same_set member
report_replays = refl

abbrev pub closed_journal : ValidatedJournalReplay fixed
closed_journal = record {
  summary = summary_of fixed closed_state;
  fill_totals = record { filled_sz = pos (10 * unit); notional = pos (10 * unit) };
  fingerprint_max_notional = none;
  execution_vwap = some (pos unit);
  prepared = (7, order) ∷ [];
}

closed_replayed : replay fixed closed_run ≡ ok closed_journal
unfolding replay replay_records replay_from step apply_record header_step check_header
    check_fingerprint prepared_step check_prepared check_unprepared decimal submitted_step
    check_transition terminal_step check_terminal is_valid_journal_terminal_status
    is_terminal_order_status normalise_status to_ascii_lowercase starts_with replace replace_from
    codes_eq eq_ignore_ascii_case contribution fill_price check_regression final_report_step
    check_final_report calculate_totals add_totals add_execution validate_whole_run check_unknown
    unresolved_of distinct same_set member
closed_replayed = refl

replay_records-ends_example : ends (prepared 7 none order) ≡ false
replay_records-ends_example =
    replay_records-ends fixed (header started ∷ []) (prepared 7 none order) (submitted_unknown 1 7)
      [] open_replays

replay-is_incomplete_example : is_incomplete closed_journal.summary ≡ not (ends_with closed_run)
replay-is_incomplete_example = replay-is_incomplete fixed closed_run closed_replayed

ended : ends_with closed_run ≡ true
unfolding ends_with
ended = refl

replay-unresolved_cloids_example : unresolved_cloids closed_journal.summary ≡ []
replay-unresolved_cloids_example = replay-unresolved_cloids fixed closed_run closed_replayed ended

replay_records-IsAccounted_example : IsAccounted fixed (books fixed closed_state)
replay_records-IsAccounted_example = replay_records-IsAccounted fixed closed_run closed_replays

replay_from-StillCredited_example : StillCredited fixed 7 fill closed_state
replay_from-StillCredited_example =
    replay_from-StillCredited fixed 4 (final_report report ∷ []) 7 fill credited_state refl
      report_replays
