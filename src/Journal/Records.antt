-- ===== src/Journal/Records.antt =====
-- src/journal.rs: the records of a journal file. Decimals are texts, as on disk.
use hype_trigger_twap.Prelude.{ℕ, Bool, Option, String, List}
use hype_trigger_twap.Types.{Address, Symbol, Side, Tif, Cloid}

pub record PositionPhaseFingerprint : Type 0 where
  pub kind : String
  pub side : String
  pub size : String
  pub reduce_only : Bool

pub record ExecutionPlanFingerprint : Type 0 where
  pub version : ℕ
  pub symbol : String
  pub side : String
  pub request_mode : String
  pub request_value : String
  pub per_slice : String
  pub total_adjusted : String
  pub total_requested : String
  pub slices : ℕ
  pub duration_ms : ℕ
  pub slippage_bps : String
  pub max_notional_usd : String
  pub max_book_age_ms : ℕ
  pub settle_retries : ℕ
  pub child_algo : String
  pub follow_poll_secs : ℕ
  pub follow_repost_secs : ℕ
  pub follow_threshold_bps : String
  pub network : String
  pub agent : Option String
  pub master : Option String
  pub position_mode : Option String
  pub initial_position_szi : Option String
  pub target_position_szi : Option String
  pub position_requested_value : Option String
  pub position_reference_price : Option String
  pub position_phases : List PositionPhaseFingerprint
  pub reduce_only : Bool
  pub absolute_deadline_unix_ms : Option ℕ

abbrev pub fingerprint_version : ℕ
fingerprint_version = 3

pub record WholeRunSummary : Type 0 where
  pub requested_total : Option String
  pub adjusted_total : Option String
  pub accounted_notional : String
  pub cap_remaining : Option String
  pub trusted_vwap : Option String
  pub logical_elapsed_ms : ℕ
  pub unresolved_cloids : ℕ

pub record RunHeader : Type 0 where
  pub run_id : String
  pub network : String
  pub agent : Option Address
  pub master : Option Address
  pub symbol : Symbol
  pub side : Side
  pub slices : ℕ
  pub plan_hash : String
  pub execution_fingerprint : Option ExecutionPlanFingerprint
  pub started_at_unix_ms : ℕ
  pub execution_deadline_unix_ms : Option ℕ

-- The fields of the variant `Prepared` but its cloid and nonce, which a replay keeps.
pub record PreparedJournalIntent : Type 0 where
  pub slice_idx : ℕ
  pub symbol : Symbol
  pub side : Side
  pub tif : Option Tif
  pub px : String
  pub sz : String

-- The fields of the variant `Terminal` after its slice and cloid.
pub record TerminalOutcome : Type 0 where
  pub status : String
  pub filled_sz : String
  pub avg_px : Option String

pub record FinalReport : Type 0 where
  pub completed : Bool
  pub filled_total : String
  pub outcome_unknown_cloids : List Cloid
  pub note : String
  pub whole_run : Option WholeRunSummary

-- `prepared cloid nonce intent`; `submitted_unknown slice cloid`; `acknowledged slice cloid oid
-- status`; `terminal slice cloid outcome`.
pub data JournalRecord : Type 0 where
  header : RunHeader → JournalRecord
  prepared : Cloid → Option ℕ → PreparedJournalIntent → JournalRecord
  submitted_unknown : ℕ → Cloid → JournalRecord
  acknowledged : ℕ → Cloid → Option ℕ → String → JournalRecord
  terminal : ℕ → Cloid → TerminalOutcome → JournalRecord
  final_report : FinalReport → JournalRecord
  abandoned : String → JournalRecord

-- `CloidState`
pub data CloidState : Type 0 where
  prepared_only : CloidState
  submitted : CloidState
  known : CloidState
  closed : String → Option String → CloidState

-- The state names that the replay compares, texts in the source.
pub data Label : Type 0 where
  missing at_prepared at_submitted at_acknowledged at_terminal : Label
