-- ===== src/Journal/Summary.antt =====
-- src/journal.rs: `RunSummary`, `ValidatedJournalReplay` and what their consumers ask of them.
pub mod Completion
use hype_trigger_twap.Prelude.{
  is_some, ℕ, Bool, true, false, not, ◌&&◌, ◌||◌, Option, none, some, String, List, [], ◌∷◌,
  is_empty, any, Map, Result, ok, err, map_err, ◌>>=◌, ◌>>◌, if◌then◌else◌,
}
use hype_trigger_twap.Decimal.{DecimalApi, from_nat}
use hype_trigger_twap.Types.{Cloid, long}
use hype_trigger_twap.Journal.Records.{
  PreparedJournalIntent, RunHeader, WholeRunSummary, JournalRecord, header, CloidState, closed,
}
use hype_trigger_twap.Journal.Errors.{
  JournalReplayError, JournalAccountingError, accounting, invalid_replay,
}
use hype_trigger_twap.Journal.WholeRun.{JournalFillTotals}
use hype_trigger_twap.Journal.Replay.{
  is_closed, unresolved_of, ReplayState, Replayed, calculate_totals,
}
use hype_trigger_twap.Journal.Replay.Transitions.Closing.{is_header, replay_records}

pub record RunSummary : Type 0 where
  pub header : Option RunHeader
  pub cloids : Map CloidState
  pub final_report_seen : Bool
  pub last_final_report_completed : Option Bool
  pub last_final_report_unknown_cloids : Option (List Cloid)
  pub last_whole_run : Option WholeRunSummary
  pub abandoned : Bool

abbrev pub is_true : Option Bool → Bool
is_true (some b) = b
is_true none = false

abbrev pub names_any : Option (List Cloid) → Bool
names_any (some cs) = not (is_empty cs)
names_any none = false

unfoldable pub is_incomplete : RunSummary → Bool
is_incomplete s =
    if not (is_some s.header) || s.abandoned
    then false
    else if not s.final_report_seen || not (is_true s.last_final_report_completed)
    then true
    else names_any s.last_final_report_unknown_cloids
      || any (λ (c, st). not (is_closed st)) s.cloids

unfoldable pub unresolved_cloids : RunSummary → List Cloid
unfolding unresolved_of
unresolved_cloids s = unresolved_of s.cloids

module _ (D : DecimalApi) where
  open D use {Decimal, parse, add}

  -- The terminal sizes that parse, summed.
  unfoldable pub sum_filled : Map CloidState → Decimal → Decimal
  sum_filled [] sum = sum
  sum_filled ((c, closed filled avg) ∷ m) sum = elim (parse filled) [
    | none ↦ sum_filled m sum
    | some d ↦ sum_filled m (add sum d)
  ]
  sum_filled ((c, _) ∷ m) sum = sum_filled m sum

  unfoldable pub total_filled : RunSummary → Decimal
  unfolding sum_filled
  total_filled s = sum_filled s.cloids (from_nat D 0)

  pub record ValidatedJournalReplay : Type 0 where
    pub summary : RunSummary
    pub fill_totals : JournalFillTotals D
    pub fingerprint_max_notional : Option Decimal
    pub execution_vwap : Option Decimal
    pub prepared : Map PreparedJournalIntent

  abbrev pub summary_of : ReplayState D → RunSummary
  summary_of s = record {
    header = s.header;
    cloids = s.state_values;
    final_report_seen = s.final_report_seen;
    last_final_report_completed = s.last_completed;
    last_final_report_unknown_cloids = s.last_unknown_cloids;
    last_whole_run = s.last_whole_run;
    abandoned = s.abandoned;
  }

  unfoldable pub replay : List JournalRecord → Replayed D ValidatedJournalReplay
  unfolding replay_records calculate_totals
  replay records = do
    s ← replay_records D records
    (totals, vwap) ← calculate_totals D s.terminal_fills
    ok (record {
      summary = summary_of s;
      fill_totals = totals;
      fingerprint_max_notional = s.fingerprint_max_notional;
      execution_vwap = vwap;
      prepared = s.prepared;
    })

  unfoldable pub summarize : List JournalRecord → Replayed D RunSummary
  unfolding replay
  summarize records = replay records >>= λ r. ok r.summary

  -- The header that a fragment without one is read under.
  abbrev fragment_header : RunHeader
  fragment_header = record {
    run_id = "legacy-accounting-fragment";
    network = "unknown";
    agent = none;
    master = none;
    symbol = "UNKNOWN";
    side = long;
    slices = 0;
    plan_hash = "";
    execution_fingerprint = none;
    started_at_unix_ms = 0;
    execution_deadline_unix_ms = none;
  }

  abbrev with_header : List JournalRecord → List JournalRecord
  with_header [] = header fragment_header ∷ []
  with_header (r ∷ rs) = if is_header D r then r ∷ rs else header fragment_header ∷ r ∷ rs

  abbrev accounting_of : JournalReplayError D → JournalAccountingError D
  accounting_of (accounting e) = e
  accounting_of _ = invalid_replay "replay"

  unfoldable pub restore_fill_totals :
      List JournalRecord → Result (JournalAccountingError D) (JournalFillTotals D)
  unfolding replay
  restore_fill_totals records =
      map_err accounting_of (replay (with_header records) >>= λ r. ok r.fill_totals)
