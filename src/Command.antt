-- ===== src/Command.antt =====
-- src/main.rs: the sizing of a run before it begins and when it is resumed, and the
-- position that its journal implies. A duration is in
-- milliseconds; the messages of the errors are shortened to the check that failed.
pub mod Fitting
pub mod Stored
pub mod Expected
pub mod Options
use hype_trigger_twap.Prelude.{
  ℕ, ◌-◌, List, [], ◌∷◌, Map, lookup, map_err, Option, none, some, Bool, true, false, ◌||◌, not,
  Result, ok, err, fail_if, ok_or, ◌>>=◌, ◌>>◌, String, str_eq, ltb, ◌==◌, if◌then◌else◌,
}
use hype_trigger_twap.Decimal.{DecimalApi, from_nat, lt, le, eq, max}
use hype_trigger_twap.Types.{Side, long, short}
use hype_trigger_twap.Format.{round_size, round_price}
use hype_trigger_twap.Risk.{taker_notional_price}
use hype_trigger_twap.Journal.Records.{ExecutionPlanFingerprint, CloidState, closed}
use hype_trigger_twap.Journal.Summary.{ValidatedJournalReplay}
use hype_trigger_twap.Position.{
  PositionExecutionPlan, apply_signed_fill, is_between_frozen_endpoints,
}
use hype_trigger_twap.Twap.Sizing.{PreflightError, Sizing, compute_sizing}
use hype_trigger_twap.Twap.Stats.{ChildAlgo, market, passive, follow}

-- What is left of the window of a resumed run; none at the deadline or after it.
unfoldable pub remaining_execution_window : ℕ → ℕ → Option ℕ
remaining_execution_window deadline_unix_ms now_unix_ms =
    if ltb now_unix_ms deadline_unix_ms then some (deadline_unix_ms - now_unix_ms) else none

abbrev pub differs : Bool → Bool → Bool
differs true b = not b
differs false b = b

abbrev pub moves_away : Option Side → Side → Bool
moves_away (some long) short = true
moves_away (some short) long = true
moves_away _ _ = false

module _ (D : DecimalApi) where
  open D use {Decimal, div, normalize, checked_mul, to_string, parse}

  abbrev pub canonical_decimal : Decimal → String
  canonical_decimal value = to_string (normalize value)

  abbrev pub exact_total : Decimal → Bool → Sizing D → Sizing D
  exact_total total_coin true sizing = record sizing { total_adjusted = total_coin }
  exact_total total_coin false sizing = sizing

  unfoldable pub execution_sizing :
      Decimal → ℕ → ℕ → Decimal → Bool → Result (PreflightError D) (Sizing D)
  execution_sizing total_coin slices sz_decimals mid require_exact_position_target = do
    sizing ← compute_sizing D total_coin slices sz_decimals mid
    ok (exact_total total_coin require_exact_position_target sizing)

  -- The unit price that the cap is held against before a live run.
  unfoldable pub preflight_cap_price : ChildAlgo → Side → Decimal → Decimal → Decimal → ℕ → Decimal
  preflight_cap_price market side taker_limit_px best_bid best_ask sz_decimals =
      taker_notional_price D taker_limit_px best_bid side
  preflight_cap_price algo long taker_limit_px best_bid best_ask sz_decimals =
      taker_notional_price D taker_limit_px best_bid long
  preflight_cap_price algo short taker_limit_px best_bid best_ask sz_decimals =
      max D (taker_notional_price D taker_limit_px best_bid short)
        (round_price D best_ask sz_decimals short)

  unfoldable pub parse_canonical_fingerprint_decimal : String → Result String Decimal
  parse_canonical_fingerprint_decimal value = do
    parsed ← ok_or (parse value) "invalid stored decimal"
    fail_if (not (str_eq (canonical_decimal parsed) value)) "stored decimal is not canonical"
    ok parsed

  -- The total that the stored sizing has to have.
  unfoldable pub expected_total_adjusted : Decimal → Decimal → ℕ → Bool → Result String Decimal
  expected_total_adjusted expected_total_requested per_slice slices true =
      ok expected_total_requested
  expected_total_adjusted expected_total_requested per_slice slices false =
      ok_or (checked_mul per_slice (from_nat D slices)) "stored sizing overflows"

  unfoldable pub validate_fingerprint_sizing :
      ExecutionPlanFingerprint → Decimal → Bool → ℕ → Bool → Result String (Unit {0})
  validate_fingerprint_sizing fp requested reduce_only sz_decimals require_exact = do
    fail_if (fp.slices == 0) "stored slices must be positive"
    per_slice ← parse_canonical_fingerprint_decimal fp.per_slice
    total_adjusted ← parse_canonical_fingerprint_decimal fp.total_adjusted
    total_requested ← parse_canonical_fingerprint_decimal fp.total_requested
    fail_if
        (le D requested (from_nat D 0)
          || (le D per_slice (from_nat D 0)
              || (le D total_adjusted (from_nat D 0) || le D total_requested (from_nat D 0))))
        "stored sizing must be positive"
    let expected_per_slice = round_size D (div requested (from_nat D fp.slices)) sz_decimals
    expected_total ← expected_total_adjusted requested expected_per_slice fp.slices require_exact
    fail_if
        (not (eq D total_requested requested)
          || (not (eq D per_slice expected_per_slice)
              || (not (eq D total_adjusted expected_total) || differs fp.reduce_only reduce_only)))
        "execution plan fingerprint mismatch"

  abbrev pub expected_side : PositionExecutionPlan D → Option Side
  expected_side frozen =
      if lt D frozen.current_szi frozen.target_szi
      then some long
      else if lt D frozen.target_szi frozen.current_szi
      then some short
      else none

  -- The loop over the orders of the journal, from the position `expected` on.
  unfoldable pub expected_from :
      ValidatedJournalReplay D
      → PositionExecutionPlan D
      → Option Side
      → Decimal
      → Map CloidState
      → Result String Decimal
  expected_from v frozen side expected [] = ok expected
  expected_from v frozen side expected ((cloid, closed filled_sz avg_px) ∷ rest) = do
    intent ← ok_or (lookup cloid v.prepared) "terminal cloid lacks validated Prepared intent"
    fail_if (moves_away side intent.side) "durable cloid moves away from the frozen target"
    filled ← ok_or (parse filled_sz) "invalid terminal fill"
    next ←
        map_err (λ _. "cannot reconstruct position")
          (apply_signed_fill D expected intent.side filled)
    fail_if (not (is_between_frozen_endpoints D next frozen.current_szi frozen.target_szi))
        "durable fills imply a position beyond the frozen target"
    expected_from v frozen side next rest
  expected_from v frozen side expected ((cloid, state) ∷ rest) =
      expected_from v frozen side expected rest

  unfoldable pub expected_position_from_replay :
      ValidatedJournalReplay D → PositionExecutionPlan D → Result String Decimal
  expected_position_from_replay v frozen =
      expected_from v frozen (expected_side frozen) frozen.current_szi v.summary.cloids
