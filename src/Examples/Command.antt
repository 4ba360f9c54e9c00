-- ===== src/Examples/Command.antt =====
-- src/main.rs: the sizing of a position phase, the one that a resume restores, and the options of a run.
use hype_trigger_twap.Prelude.{◌<◌, ◌≡◌, refl, arith, true, false, none, some, [], ok}
use native.Mathlib.Nat.{dvd-mul_right}
use hype_trigger_twap.Decimal.{from_nat, step_of}
use hype_trigger_twap.Decimal.Fixed.{fixed, fixed_laws}
use hype_trigger_twap.Journal.Records.{ExecutionPlanFingerprint}
use hype_trigger_twap.Format.{round_size}
use hype_trigger_twap.Twap.Sizing.{Sizing, compute_sizing}
use hype_trigger_twap.Command.{
  execution_sizing, parse_canonical_fingerprint_decimal, expected_total_adjusted,
  validate_fingerprint_sizing,
}
use hype_trigger_twap.Command.Fitting.{IsFitting, IsOnGrid, execution_sizing-IsFitting}
use hype_trigger_twap.Command.Stored.{validate_fingerprint_sizing-IsFitting}
use hype_trigger_twap.Types.{long}
use hype_trigger_twap.Position.{
  PositionExecutionPlan, apply_signed_fill, is_between_frozen_endpoints,
}
use hype_trigger_twap.Command.{expected_from, expected_position_from_replay}
use hype_trigger_twap.Command.Expected.{
  IsMovedBy, filled_units, expected_position_from_replay-IsMovedBy,
}
use hype_trigger_twap.Examples.Journals.{closed_journal}
use hype_trigger_twap.Risk.{validate_slippage, validate_max_notional_required}
use hype_trigger_twap.Trigger.{above}
use hype_trigger_twap.Command.Options.{
  Cli, is_read_only, is_live, is_position_mode, check_asked, check_positive, check_counts,
  check_envelope, check_start, check_expire_after, check_trigger, check_follow, validate,
  has_no_conflict,
}
use hype_trigger_twap.Command.Options.Consistent.{IsConsistent, validate-IsConsistent}

-- A hundred coins in three slices of 33.33.
abbrev in_thirds : Sizing fixed
in_thirds = record { per_slice = fixed.new 3333 2; total_adjusted = from_nat fixed 100 }

on_grid : IsOnGrid fixed (from_nat fixed 100) 3 2
on_grid = record { on_grid = dvd-mul_right (step_of 2) 10000; few = omega arith }

sized : execution_sizing fixed (from_nat fixed 100) 3 2 (from_nat fixed 20) true ≡ ok in_thirds
unfolding execution_sizing compute_sizing round_size
sized = refl

execution_sizing-IsFitting_example : IsFitting fixed in_thirds.per_slice in_thirds.total_adjusted 3
execution_sizing-IsFitting_example =
    execution_sizing-IsFitting fixed fixed_laws (from_nat fixed 100) (from_nat fixed 20) 3 2 true
      in_thirds (λ _. on_grid) sized

abbrev stored : ExecutionPlanFingerprint
stored = record {
  version = 3;
  symbol = "HYPE";
  side = "long";
  request_mode = "size";
  request_value = "40";
  per_slice = "10";
  total_adjusted = "40";
  total_requested = "40";
  slices = 4;
  duration_ms = 60000;
  slippage_bps = "50";
  max_notional_usd = "1000";
  max_book_age_ms = 5000;
  settle_retries = 25;
  child_algo = "market";
  follow_poll_secs = 2;
  follow_repost_secs = 10;
  follow_threshold_bps = "1";
  network = "mainnet";
  agent = none;
  master = none;
  position_mode = none;
  initial_position_szi = none;
  target_position_szi = none;
  position_requested_value = none;
  position_reference_price = none;
  position_phases = [];
  reduce_only = false;
  absolute_deadline_unix_ms = none;
}

restored : validate_fingerprint_sizing fixed stored (from_nat fixed 40) false 2 false ≡ ok tt
unfolding validate_fingerprint_sizing parse_canonical_fingerprint_decimal expected_total_adjusted
    round_size
restored = refl

validate_fingerprint_sizing-IsFitting_example :
    (per_slice : fixed.Decimal) × (total : fixed.Decimal) × (fixed.parse "10" ≡ some per_slice)
    × (fixed.parse "40" ≡ some total)
    × (0 < 4)
    × IsFitting fixed per_slice total 4
validate_fingerprint_sizing-IsFitting_example =
    validate_fingerprint_sizing-IsFitting fixed fixed_laws stored (from_nat fixed 40) false 2 false
      (λ e. absurd cc) restored

-- A long plan, and the journal of one fill of ten.
abbrev frozen : PositionExecutionPlan fixed
frozen = record {
  symbol = "HYPE";
  current_szi = from_nat fixed 0;
  target_szi = from_nat fixed 40;
  phases = [];
}

position : expected_position_from_replay fixed closed_journal frozen ≡ ok (from_nat fixed 10)
unfolding expected_position_from_replay expected_from apply_signed_fill is_between_frozen_endpoints
position = refl

expected_position_from_replay-IsMovedBy_example :
    IsMovedBy fixed long
      (from_nat fixed 0)
      (filled_units fixed closed_journal.summary.cloids)
      (from_nat fixed 10)
    × (is_between_frozen_endpoints fixed (from_nat fixed 10) (from_nat fixed 0) (from_nat fixed 40)
        ≡ true)
expected_position_from_replay-IsMovedBy_example =
    expected_position_from_replay-IsMovedBy fixed fixed_laws closed_journal frozen long
      (from_nat fixed 10) refl position

-- A live purchase for 1,000 dollars, which waits for a price or a minute, and for two at most.
abbrev purchase : Cli fixed
purchase = record {
  side = some long;
  size = none;
  usd = some (from_nat fixed 1000);
  flatten = false;
  flatten_deadline_unix_ms = none;
  target_sz = none;
  target_usd = none;
  duration = 600000;
  slices = 10;
  trigger_price = some (from_nat fixed 20);
  trigger_when = some above;
  start_after = some 60000;
  live = true;
  read_only = true;
  event_jsonl = none;
  slippage_bps = from_nat fixed 20;
  allow_high_slippage = false;
  max_notional_usd = some (from_nat fixed 1100);
  max_book_age_ms = 3000;
  settle_retries = 25;
  trigger_poll_secs = 2;
  wait_network_grace = 1800000;
  expire_after = some 120000;
  follow_poll_secs = 2;
  follow_repost_secs = 10;
  follow_threshold_bps = from_nat fixed 1;
}

accepted : validate fixed purchase ≡ ok tt
unfolding validate is_read_only is_live is_position_mode check_asked check_positive check_counts
    check_envelope check_start check_expire_after check_trigger check_follow validate_slippage
    validate_max_notional_required
accepted = refl

unambiguous : has_no_conflict fixed purchase ≡ true
unfolding has_no_conflict
unambiguous = refl

validate-IsConsistent_example : IsConsistent fixed purchase
validate-IsConsistent_example = validate-IsConsistent fixed fixed_laws purchase unambiguous accepted
