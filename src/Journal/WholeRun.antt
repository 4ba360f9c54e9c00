-- ===== src/Journal/WholeRun.antt =====
-- src/journal.rs: `validate_whole_run`, the check of a final report's optional projection.
use hype_trigger_twap.Prelude.{
  ℕ, Bool, true, false, not, Option, none, some, String, List, [], ◌∷◌, Result, ok, err, fail_if,
  ok_or, ◌>>=◌, ◌>>◌, if◌then◌else◌, str_eq, ◌==◌,
}
use hype_trigger_twap.Decimal.{DecimalApi, from_nat, le, eq, max}
use hype_trigger_twap.Journal.Records.{
  RunHeader, WholeRunSummary, ExecutionPlanFingerprint, PositionPhaseFingerprint,
}
use hype_trigger_twap.Journal.Errors.{JournalReplayError, invalid_whole_run_summary}

module _ (D : DecimalApi) where
  open D use {Decimal, sub, parse, to_string, checked_add}

  pub record JournalFillTotals : Type 0 where
    pub filled_sz : Decimal
    pub notional : Decimal

  -- The `try_fold` of `logical_position_total`: a size that does not parse, or an overflow, ends it.
  unfoldable pub sum_sizes : List PositionPhaseFingerprint → Decimal → Option Decimal
  sum_sizes [] total = some total
  sum_sizes (p ∷ ps) total = elim (parse p.size) [
    | none ↦ none
    | some size ↦ elim (checked_add total size) [ none ↦ none | some next ↦ sum_sizes ps next ]
  ]

  abbrev shown : Option Decimal → Option String
  shown none = none
  shown (some d) = some (to_string d)

  unfoldable pub logical_position_total : List PositionPhaseFingerprint → Option String
  unfolding sum_sizes
  logical_position_total [] = none
  logical_position_total (p ∷ ps) = shown (sum_sizes (p ∷ ps) (from_nat D 0))

  abbrev nonnegative : String → Option Decimal → Result (JournalReplayError D) Decimal
  nonnegative field none = err (invalid_whole_run_summary field)
  nonnegative field (some d) =
      if le D (from_nat D 0) d then ok d else err (invalid_whole_run_summary field)

  abbrev pub parse_nonnegative : String → String → Result (JournalReplayError D) Decimal
  parse_nonnegative field value = nonnegative field (parse value)

  abbrev fingerprint_of : Option RunHeader → Option ExecutionPlanFingerprint
  fingerprint_of none = none
  fingerprint_of (some h) = h.execution_fingerprint

  -- `cap_remaining`, where it is reported.
  unfoldable pub check_cap :
      Option RunHeader → Option String → Decimal → Result (JournalReplayError D) (Unit {0})
  check_cap header none notional = ok tt
  check_cap header (some value) notional = do
    reported ← parse_nonnegative "cap_remaining" value
    fingerprint ← ok_or (fingerprint_of header) (invalid_whole_run_summary "no typed fingerprint")
    cap ←
        ok_or (parse fingerprint.max_notional_usd)
          (invalid_whole_run_summary "max_notional_usd is invalid")
    let expected = max D (sub cap notional) (from_nat D 0)
    fail_if (not (eq D reported expected)) (invalid_whole_run_summary "cap_remaining")

  abbrev vwap_eq : Option Decimal → Option Decimal → Bool
  vwap_eq none none = true
  vwap_eq (some a) (some b) = eq D a b
  vwap_eq _ _ = false

  abbrev reported_vwap : Option String → Result (JournalReplayError D) (Option Decimal)
  reported_vwap none = ok none
  reported_vwap (some value) = parse_nonnegative "trusted_vwap" value >>= λ d. ok (some d)

  abbrev or_text : Option String → String → String
  or_text none d = d
  or_text (some s) d = s

  -- One of the two totals, where it is reported.
  unfoldable pub check_total :
      String → Option String → String → Result (JournalReplayError D) (Unit {0})
  check_total field none expected = ok tt
  check_total field (some value) expected = do
    d ← parse_nonnegative field value
    fail_if (not (str_eq value expected)) (invalid_whole_run_summary field)

  unfoldable pub check_totals :
      Option ExecutionPlanFingerprint → WholeRunSummary → Result (JournalReplayError D) (Unit {0})
  check_totals none whole = ok tt
  check_totals (some f) whole = do
    let logical = logical_position_total f.position_phases
    check_total "requested_total" whole.requested_total (or_text logical f.total_requested)
    check_total "adjusted_total" whole.adjusted_total (or_text logical f.total_adjusted)

  unfoldable pub validate_whole_run :
      Option RunHeader
      → Option WholeRunSummary
      → JournalFillTotals
      → Option Decimal
      → ℕ
      → Result (JournalReplayError D) (Unit {0})
  unfolding check_cap check_totals
  validate_whole_run header none totals vwap unresolved = ok tt
  validate_whole_run header (some whole) totals vwap unresolved = do
    accounted ← parse_nonnegative "accounted_notional" whole.accounted_notional
    fail_if (not (eq D accounted totals.notional)) (invalid_whole_run_summary "accounted_notional")
    check_cap header whole.cap_remaining totals.notional
    vwap_reported ← reported_vwap whole.trusted_vwap
    fail_if (not (vwap_eq vwap_reported vwap)) (invalid_whole_run_summary "trusted_vwap")
    fail_if (not (whole.unresolved_cloids == unresolved))
        (invalid_whole_run_summary "unresolved_cloids")
    check_totals (fingerprint_of header) whole
