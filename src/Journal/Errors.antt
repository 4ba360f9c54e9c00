-- ===== src/Journal/Errors.antt =====
-- src/journal.rs: why a replay refuses a journal.
use hype_trigger_twap.Prelude.{ℕ, Option, String, List}
use hype_trigger_twap.Decimal.{DecimalApi}
use hype_trigger_twap.Types.{Side, Tif, Cloid}
use hype_trigger_twap.Journal.Records.{Label}

module _ (D : DecimalApi) where
  open D use {Decimal}

  pub data JournalAccountingError : Type 0 where
    invalid_replay : String → JournalAccountingError
    invalid_decimal : Cloid → String → String → JournalAccountingError
    negative_size : Cloid → String → Decimal → JournalAccountingError
    non_positive_price : Cloid → String → Decimal → JournalAccountingError
    unprepared : Cloid → JournalAccountingError
    filled_size_exceeds_prepared : Cloid → Decimal → Decimal → JournalAccountingError
    average_price_violates_limit : Cloid → Side → Decimal → Decimal → JournalAccountingError
    missing_average_price_for_short : Cloid → Option Tif → JournalAccountingError
    terminal_accounting_regressed :
        Cloid → Decimal → Decimal → Decimal → Decimal → JournalAccountingError
    overflow : Cloid → String → JournalAccountingError

  pub data JournalReplayError : Type 0 where
    missing_header header_not_first duplicate_header : JournalReplayError
    missing_prepared conflicting_prepared : Cloid → JournalReplayError
    slice_index_changed : Cloid → ℕ → ℕ → JournalReplayError
    invalid_transition : Cloid → Label → Label → JournalReplayError
    invalid_terminal_status : Cloid → String → JournalReplayError
    abandoned_with_unresolved : ℕ → JournalReplayError
    record_after_abandoned : JournalReplayError
    completed_final_report_not_complete : JournalReplayError
    final_report_unknown_cloids_mismatch : List Cloid → List Cloid → JournalReplayError
    record_after_completed_final_report : JournalReplayError
    invalid_final_report_filled_total : String → JournalReplayError
    final_report_filled_total_mismatch : Decimal → Decimal → JournalReplayError
    invalid_fingerprint_max_notional : String → JournalReplayError
    invalid_fingerprint : String → JournalReplayError
    invalid_whole_run_summary : String → JournalReplayError
    accounting : JournalAccountingError → JournalReplayError
