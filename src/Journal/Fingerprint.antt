-- ===== src/Journal/Fingerprint.antt =====
-- src/journal.rs: `validate_current_fingerprint`, the self-contained check of a header's typed plan.
use hype_trigger_twap.Prelude.{
  ℕ, Bool, true, false, not, ◌&&◌, ◌||◌, Option, none, some, is_some, is_none, String, List, [],
  ◌∷◌, is_empty, Result, ok, fail_if, ok_or, ◌>>=◌, ◌>>◌, if◌then◌else◌, str_eq, ◌==◌,
}
use hype_trigger_twap.Decimal.{DecimalApi, from_nat, lt, le, eq}
use hype_trigger_twap.Types.{Side, long, short}
use hype_trigger_twap.Position.{decimal_sign, sign_eq}
use hype_trigger_twap.Journal.Records.{
  RunHeader, ExecutionPlanFingerprint, PositionPhaseFingerprint,
}
use hype_trigger_twap.Journal.Errors.{JournalReplayError, invalid_fingerprint}

-- `Side`'s `Display`.
abbrev pub show_side : Side → String
show_side long = "long"
show_side short = "short"

abbrev pub text_option_eq : Option String → Option String → Bool
text_option_eq none none = true
text_option_eq (some a) (some b) = str_eq a b
text_option_eq _ _ = false

abbrev pub nat_option_eq : Option ℕ → Option ℕ → Bool
nat_option_eq none none = true
nat_option_eq (some a) (some b) = a == b
nat_option_eq _ _ = false

-- `matches!(value, "a" | "b" | …)`
abbrev pub one_of : String → List String → Bool
one_of value [] = false
one_of value (s ∷ ss) = str_eq value s || one_of value ss

abbrev pub bool_eq : Bool → Bool → Bool
bool_eq true b = b
bool_eq false b = not b

module _ (D : DecimalApi) where
  open D use {Decimal, parse, to_string, normalize, checked_mul, sub, neg, abs}

  abbrev Check : Type 0
  Check = Result (JournalReplayError D) (Unit {0})

  abbrev deny : Bool → String → Check
  deny c field = fail_if c (invalid_fingerprint field)

  unfoldable pub canonical_decimal : String → String → Result (JournalReplayError D) Decimal
  canonical_decimal field value = do
    parsed ← ok_or (parse value) (invalid_fingerprint field)
    deny (not (str_eq (to_string (normalize parsed)) value)) field
    ok parsed

  unfoldable pub positive_decimal : String → String → Result (JournalReplayError D) Decimal
  unfolding canonical_decimal
  positive_decimal field value = do
    parsed ← canonical_decimal field value
    deny (le D parsed (from_nat D 0)) field
    ok parsed

  unfoldable pub nonnegative_decimal : String → String → Result (JournalReplayError D) Decimal
  unfolding canonical_decimal
  nonnegative_decimal field value = do
    parsed ← canonical_decimal field value
    deny (lt D parsed (from_nat D 0)) field
    ok parsed

  -- The identity that the fingerprint shares with its header.
  unfoldable pub check_identity : RunHeader → ExecutionPlanFingerprint → Check
  check_identity header f = do
    deny (f.slices == 0) "slices"
    deny (f.duration_ms == 0) "duration_ms"
    deny (not (str_eq f.symbol header.symbol)) "symbol"
    deny
        (not (str_eq f.side (show_side header.side)) || not (one_of f.side ("long" ∷ "short" ∷ [])))
        "side"
    deny (not (f.slices == header.slices)) "slices"
    deny
        (not (nat_option_eq f.absolute_deadline_unix_ms header.execution_deadline_unix_ms)
          || is_none f.absolute_deadline_unix_ms)
        "absolute_deadline_unix_ms"
    deny (not (str_eq f.network header.network)) "network"
    deny (not (text_option_eq f.agent header.agent)) "agent"
    deny (not (text_option_eq f.master header.master)) "master"

  unfoldable pub check_settings : ExecutionPlanFingerprint → Check
  check_settings f = do
    slippage_bps ← nonnegative_decimal "slippage_bps" f.slippage_bps
    deny (le D (from_nat D 10000) slippage_bps) "slippage_bps"
    cap ← positive_decimal "max_notional_usd" f.max_notional_usd
    threshold ← nonnegative_decimal "follow_threshold_bps" f.follow_threshold_bps
    deny (f.settle_retries == 0) "settle_retries"
    deny (not (one_of f.child_algo ("market" ∷ "passive" ∷ "follow" ∷ []))) "child_algo"
    deny (f.follow_poll_secs == 0 || f.follow_repost_secs == 0) "follow timing"
    deny (not (one_of f.network ("mainnet" ∷ "testnet" ∷ []))) "network"

  -- An ordinary run: the slices make up the adjusted total, and nothing speaks of positions.
  unfoldable pub check_ordinary : ExecutionPlanFingerprint → Decimal → Decimal → Decimal → Check
  check_ordinary f per_slice total_adjusted total_requested = do
    deny (not (one_of f.request_mode ("size" ∷ "usd" ∷ []))) "request_mode"
    request_value ← positive_decimal "request_value" f.request_value
    scheduled_total ←
        ok_or (checked_mul per_slice (from_nat D f.slices)) (invalid_fingerprint "sizing")
    deny (not (eq D scheduled_total total_adjusted)) "sizing"
    deny (str_eq f.request_mode "size" && not (eq D request_value total_requested)) "request_value"
    deny
        (is_some f.initial_position_szi
          || (is_some f.target_position_szi
              || (is_some f.position_requested_value
                  || (is_some f.position_reference_price
                      || (not (is_empty f.position_phases) || f.reduce_only)))))
        "position fields"

  unfoldable pub check_request : ExecutionPlanFingerprint → String → Decimal → Check
  check_request f mode target =
      if str_eq mode "flatten"
      then deny
          (not (str_eq f.request_value "0")
            || (not (eq D target (from_nat D 0))
                || (is_some f.position_requested_value || is_some f.position_reference_price)))
          "flatten fields"
      else (do
        request ← ok_or f.position_requested_value (invalid_fingerprint "position_requested_value")
        d ← canonical_decimal "position_requested_value" request
        d' ← canonical_decimal "request_value" f.request_value
        deny (not (str_eq f.request_value request)) "request_value"
        (if str_eq mode "target_usd"
            then (do
              price ←
                  ok_or f.position_reference_price (invalid_fingerprint "position_reference_price")
              p ← positive_decimal "position_reference_price" price
              ok tt)
            else deny (is_some f.position_reference_price) "position_reference_price"))

  unfoldable pub check_phase_texts : List PositionPhaseFingerprint → Check
  check_phase_texts [] = ok tt
  check_phase_texts (p ∷ ps) = do
    deny
        (not (one_of p.kind ("adjust" ∷ "close_to_flat" ∷ "open_from_flat" ∷ []))
          || not (one_of p.side ("long" ∷ "short" ∷ [])))
        "position_phases"
    size ← positive_decimal "position_phases.size" p.size
    check_phase_texts ps

  abbrev expected_side : Decimal → String
  expected_side delta = if lt D (from_nat D 0) delta then "long" else "short"

  abbrev pub same_signum : Decimal → Decimal → Bool
  same_signum a b = sign_eq (decimal_sign D a) (decimal_sign D b)

  abbrev bad_adjust : PositionPhaseFingerprint → Decimal → Decimal → Bool
  bad_adjust p initial target =
      let delta = sub target initial in
      let reduces =
        not (eq D initial (from_nat D 0))
        && (eq D target (from_nat D 0)
            || (same_signum initial target && lt D (abs target) (abs initial))) in
      not (str_eq p.kind "adjust")
      || (not (str_eq p.side (expected_side delta))
          || (not (str_eq p.size (to_string (abs delta))) || not (bool_eq p.reduce_only reduces)))

  abbrev bad_crossing :
      PositionPhaseFingerprint → PositionPhaseFingerprint → Decimal → Decimal → Bool
  bad_crossing close reopen initial target =
      eq D initial (from_nat D 0)
      || (eq D target (from_nat D 0)
          || (same_signum initial target
              || (not (str_eq close.kind "close_to_flat")
                  || (not (str_eq close.side (expected_side (neg initial)))
                      || (not (str_eq close.size (to_string (abs initial)))
                          || (not close.reduce_only
                              || (not (str_eq reopen.kind "open_from_flat")
                                  || (not (str_eq reopen.side (expected_side target))
                                      || (not (str_eq reopen.size (to_string (abs target)))
                                          || reopen.reduce_only)))))))))

  unfoldable pub check_phases : List PositionPhaseFingerprint → Decimal → Decimal → Check
  check_phases [] initial target = ok tt
  check_phases (p ∷ []) initial target = deny (bad_adjust p initial target) "position_phases"
  check_phases (close ∷ reopen ∷ []) initial target =
      deny (bad_crossing close reopen initial target) "position_phases"
  check_phases (a ∷ b ∷ c ∷ ps) initial target = deny true "position_phases"

  abbrev bad_first : ExecutionPlanFingerprint → List PositionPhaseFingerprint → Bool
  bad_first f [] = f.reduce_only
  bad_first f (p ∷ ps) = not (bool_eq f.reduce_only p.reduce_only) || not (str_eq f.side p.side)

  unfoldable pub check_position : ExecutionPlanFingerprint → String → Check
  check_position f mode = do
    deny
        (not (one_of mode ("flatten" ∷ "target_sz" ∷ "target_usd" ∷ []))
          || not (str_eq f.request_mode mode))
        "position_mode"
    initial_text ← ok_or f.initial_position_szi (invalid_fingerprint "initial_position_szi")
    target_text ← ok_or f.target_position_szi (invalid_fingerprint "target_position_szi")
    initial ← canonical_decimal "initial_position_szi" initial_text
    target ← canonical_decimal "target_position_szi" target_text
    check_request f mode target
    check_phase_texts f.position_phases
    deny (not (eq D initial target) && is_empty f.position_phases) "position_phases"
    check_phases f.position_phases initial target
    deny (bad_first f f.position_phases) "reduce_only"

  abbrev check_mode : ExecutionPlanFingerprint → Option String → Decimal → Decimal → Decimal → Check
  check_mode f none per_slice total_adjusted total_requested =
      check_ordinary f per_slice total_adjusted total_requested
  check_mode f (some mode) per_slice total_adjusted total_requested = check_position f mode

  unfoldable pub validate_current_fingerprint : RunHeader → ExecutionPlanFingerprint → Check
  unfolding positive_decimal check_settings
  validate_current_fingerprint header f = do
    check_identity header f
    per_slice ← positive_decimal "per_slice" f.per_slice
    total_adjusted ← positive_decimal "total_adjusted" f.total_adjusted
    total_requested ← positive_decimal "total_requested" f.total_requested
    deny (lt D total_requested total_adjusted || lt D total_adjusted per_slice) "sizing"
    check_settings f
    check_mode f f.position_mode per_slice total_adjusted total_requested
