-- ===== src/Journal/Replay.antt =====
-- src/journal.rs: `ValidatedJournalReplay::replay`, record by record. The source's hash maps are
-- association lists in the order of first insertion.
pub mod Transitions
use hype_trigger_twap.Prelude.{
  ℕ, zero, suc, ◌+◌, Bool, true, false, not, ◌&&◌, ◌||◌, Option, none, some, String, List, [], ◌∷◌,
  ◌++◌, length, is_empty, any, all, Map, lookup, insert, Result, ok, err, fail_if, ok_or, ◌>>=◌,
  ◌>>◌, if◌then◌else◌, str_eq, ◌==◌,
}
use hype_trigger_twap.Prelude.Text.{eq_ignore_ascii_case}
use hype_trigger_twap.Decimal.{DecimalApi, from_nat, lt, le, eq}
use hype_trigger_twap.Types.{Side, long, short, Tif, alo, Cloid, side_eq, tif_eq}
use hype_trigger_twap.Client.Status.{is_terminal_order_status}
use hype_trigger_twap.Client.Fill.{outside_limit}
use hype_trigger_twap.Journal.Records.{
  RunHeader, PreparedJournalIntent, TerminalOutcome, FinalReport, WholeRunSummary, JournalRecord,
  CloidState, closed, prepared_only, Label, at_prepared, at_submitted, at_acknowledged, at_terminal,
  fingerprint_version,
}
use hype_trigger_twap.Journal.Records
use hype_trigger_twap.Journal.Errors.{
  JournalReplayError, JournalAccountingError, accounting, invalid_decimal, negative_size,
  non_positive_price, unprepared, filled_size_exceeds_prepared, average_price_violates_limit,
  missing_average_price_for_short, terminal_accounting_regressed, overflow, missing_header,
  header_not_first, duplicate_header, missing_prepared, conflicting_prepared, slice_index_changed,
  invalid_transition, invalid_terminal_status, abandoned_with_unresolved, record_after_abandoned,
  completed_final_report_not_complete, final_report_unknown_cloids_mismatch,
  record_after_completed_final_report, invalid_final_report_filled_total,
  final_report_filled_total_mismatch, invalid_fingerprint_max_notional,
}
use hype_trigger_twap.Journal.Fingerprint.{validate_current_fingerprint, text_option_eq}
use hype_trigger_twap.Journal.WholeRun.{JournalFillTotals, validate_whole_run}

unfoldable pub is_valid_journal_terminal_status : String → Bool
is_valid_journal_terminal_status status =
    is_terminal_order_status status
    || (eq_ignore_ascii_case status "aloRejected"
        || (eq_ignore_ascii_case status "neverReceived"
            || eq_ignore_ascii_case status "positionTargetReached"))

-- The transitions that a cloid may make.
abbrev pub allowed : Label → Label → Bool
allowed at_prepared at_prepared = false
allowed at_prepared _ = true
allowed at_submitted at_acknowledged = true
allowed at_submitted at_terminal = true
allowed at_acknowledged at_acknowledged = true
allowed at_acknowledged at_terminal = true
allowed at_terminal at_terminal = true
allowed _ _ = false

abbrev pub is_closed : CloidState → Bool
is_closed (closed filled avg) = true
is_closed _ = false

abbrev tif_option_eq : Option Tif → Option Tif → Bool
tif_option_eq none none = true
tif_option_eq (some a) (some b) = tif_eq a b
tif_option_eq _ _ = false

abbrev pub intent_eq : PreparedJournalIntent → PreparedJournalIntent → Bool
intent_eq a b =
    a.slice_idx == b.slice_idx
    && (str_eq a.symbol b.symbol
        && (side_eq a.side b.side
            && (tif_option_eq a.tif b.tif && (str_eq a.px b.px && str_eq a.sz b.sz))))

-- The cloids, in the order of preparation, whose state is not terminal.
unfoldable pub unresolved_of : Map CloidState → List Cloid
unresolved_of [] = []
unresolved_of ((c, s) ∷ m) = let rest = unresolved_of m in if is_closed s then rest else c ∷ rest

unfoldable pub member : ℕ → List ℕ → Bool
member a [] = false
member a (x ∷ xs) = x == a || member a xs

-- The number of distinct items, which is the size of the source's set.
unfoldable pub distinct : List ℕ → Bool
unfolding member
distinct [] = true
distinct (x ∷ xs) = not (member x xs) && distinct xs

-- The two sets hold the same cloids.
unfoldable pub same_set : List ℕ → List ℕ → Bool
unfolding member
same_set xs ys = all (λ x. member x ys) xs && all (λ y. member y xs) ys

module _ (D : DecimalApi) where
  open D use {Decimal, parse, checked_add, checked_mul, div}

  pub record AccountingPrepared : Type 0 where
    pub px : Decimal
    pub sz : Decimal
    pub side : Side
    pub tif : Option Tif

  pub record TerminalFill : Type 0 where
    pub filled_sz : Decimal
    pub notional : Decimal
    pub avg_px : Option Decimal

  -- The variables of the loop. `order` and `state_values` are one map here: both begin with the
  -- record `Prepared`, and a map keeps the order of first insertion.
  pub record ReplayState : Type 0 where
    pub prepared : Map PreparedJournalIntent
    pub accounting_prepared : Map AccountingPrepared
    pub terminal_fills : Map TerminalFill
    pub state_values : Map CloidState
    pub states : Map Label
    pub header : Option RunHeader
    pub fingerprint_max_notional : Option Decimal
    pub final_report_seen : Bool
    pub last_completed : Option Bool
    pub last_unknown_cloids : Option (List Cloid)
    pub last_whole_run : Option WholeRunSummary
    pub abandoned : Bool
    pub completed_final_seen : Bool

  abbrev pub empty_state : ReplayState
  empty_state = record {
    prepared = [];
    accounting_prepared = [];
    terminal_fills = [];
    state_values = [];
    states = [];
    header = none;
    fingerprint_max_notional = none;
    final_report_seen = false;
    last_completed = none;
    last_unknown_cloids = none;
    last_whole_run = none;
    abandoned = false;
    completed_final_seen = false;
  }

  abbrev pub Replayed : Type 0 → Type 0
  Replayed A = Result (JournalReplayError D) A

  unfoldable pub decimal : Cloid → String → String → Replayed Decimal
  decimal cloid field value = ok_or (parse value) (accounting (invalid_decimal cloid field value))

  -- The running sums of `calculate_totals`.
  pub record Totals : Type 0 where
    pub filled : Decimal
    pub notional : Decimal
    pub execution_filled : Decimal
    pub execution_notional : Decimal
    pub vwap_available : Bool

  -- The trusted part of one fill's contribution.
  unfoldable pub add_execution : Cloid → TerminalFill → Totals → Replayed Totals
  add_execution cloid t acc =
      if lt D (from_nat D 0) t.filled_sz
      then elim t.avg_px [
        | none ↦ ok (record acc { vwap_available = false })
        | some px ↦ do
          filled ←
              ok_or (checked_add acc.execution_filled t.filled_sz)
                (accounting (overflow cloid "execution fills"))
          product ←
              ok_or (checked_mul t.filled_sz px)
                (accounting (overflow cloid "execution fill by price"))
          notional ←
              ok_or (checked_add acc.execution_notional product)
                (accounting (overflow cloid "execution notional"))
          ok (record acc { execution_filled = filled; execution_notional = notional })
      ]
      else ok acc

  unfoldable pub add_totals : Map TerminalFill → Totals → Replayed Totals
  unfolding add_execution
  add_totals [] acc = ok acc
  add_totals ((cloid, t) ∷ m) acc = do
    filled ← ok_or (checked_add acc.filled t.filled_sz) (accounting (overflow cloid "filled sizes"))
    notional ← ok_or (checked_add acc.notional t.notional) (accounting (overflow cloid "notional"))
    next ← add_execution cloid t (record acc { filled = filled; notional = notional })
    add_totals m next

  unfoldable pub calculate_totals :
      Map TerminalFill → Replayed (JournalFillTotals D × Option Decimal)
  unfolding add_totals
  calculate_totals fills = do
    let nothing = from_nat D 0
    acc ← add_totals fills (record {
      filled = nothing;
      notional = nothing;
      execution_filled = nothing;
      execution_notional = nothing;
      vwap_available = true;
    })
    ok (
      record { filled_sz = acc.filled; notional = acc.notional },
      if acc.vwap_available && lt D (from_nat D 0) acc.execution_filled
          then some (div acc.execution_notional acc.execution_filled)
          else none,
    )
