-- ===== src/Position.antt =====
-- src/position.rs: from a position and a target to the ordered phases that lead there.
pub mod Phases
use hype_trigger_twap.Prelude.{
  ℕ, Bool, true, false, not, ◌&&◌, ◌||◌, Result, ok, err, fail_if, ok_or, ◌>>=◌, ◌>>◌,
  if◌then◌else◌, List, [], ◌∷◌, str_eq,
}
use hype_trigger_twap.Decimal.{DecimalApi, to_zero, from_nat, lt, le, eq, max, min}
use hype_trigger_twap.Types.{Side, long, short, Symbol, SignedPerpPosition}

pub data PositionPhaseKind : Type 0 where
  adjust close_to_flat open_from_flat : PositionPhaseKind

-- `decimal_sign` returns 1, -1 or 0 as an `i8`.
pub data Sign : Type 0 where
  positive negative flat : Sign

abbrev pub is_flat : Sign → Bool
is_flat flat = true
is_flat _ = false

abbrev pub sign_eq : Sign → Sign → Bool
sign_eq positive positive = true
sign_eq negative negative = true
sign_eq flat flat = true
sign_eq _ _ = false

module _ (D : DecimalApi) where
  open D use {Decimal, abs, neg, checked_add, checked_sub, checked_div, round_dp}

  pub record PositionPhase : Type 0 where
    pub kind : PositionPhaseKind
    pub side : Side
    pub size : Decimal
    pub reduce_only : Bool

  pub record PositionExecutionPlan : Type 0 where
    pub symbol : Symbol
    pub current_szi : Decimal
    pub target_szi : Decimal
    pub phases : List PositionPhase

  pub data PositionPlanError : Type 0 where
    symbol_mismatch : Symbol → Symbol → PositionPlanError
    current_precision : Decimal → ℕ → PositionPlanError
    invalid_price : Decimal → PositionPlanError
    overflow : PositionPlanError
    invalid_fill : Decimal → PositionPlanError

  unfoldable pub quantize_toward_zero : Decimal → ℕ → Decimal
  quantize_toward_zero value sz_decimals = round_dp value sz_decimals to_zero

  abbrev pub fill_on : Side → Decimal → Decimal → Result PositionPlanError Decimal
  fill_on long current filled = ok_or (checked_add current filled) overflow
  fill_on short current filled = ok_or (checked_sub current filled) overflow

  unfoldable pub apply_signed_fill : Decimal → Side → Decimal → Result PositionPlanError Decimal
  apply_signed_fill current_szi side filled_sz = do
    fail_if (lt D filled_sz (from_nat D 0)) (invalid_fill filled_sz)
    fill_on side current_szi filled_sz

  unfoldable pub is_between_frozen_endpoints : Decimal → Decimal → Decimal → Bool
  is_between_frozen_endpoints value initial_szi target_szi =
      le D (min D initial_szi target_szi) value && le D value (max D initial_szi target_szi)

  unfoldable pub decimal_sign : Decimal → Sign
  decimal_sign value =
      if lt D (from_nat D 0) value
      then positive
      else if lt D value (from_nat D 0)
      then negative
      else flat

  unfoldable pub side_for_delta : Decimal → Result PositionPlanError Side
  side_for_delta delta =
      if lt D (from_nat D 0) delta
      then ok long
      else if lt D delta (from_nat D 0)
      then ok short
      else err overflow

  -- The branch of `phases_for` that crosses zero.
  unfoldable pub crossing_phases : Decimal → Decimal → Result PositionPlanError (List PositionPhase)
  unfolding side_for_delta
  crossing_phases current target = do
    close_side ← side_for_delta (neg current)
    open_side ← side_for_delta target
    let close : PositionPhase = record {
      kind = close_to_flat;
      side = close_side;
      size = abs current;
      reduce_only = true;
    }
    let reopen : PositionPhase = record {
      kind = open_from_flat;
      side = open_side;
      size = abs target;
      reduce_only = false;
    }
    ok (close ∷ reopen ∷ [])

  unfoldable pub reduces_existing : Decimal → Decimal → Bool
  unfolding decimal_sign
  reduces_existing current target =
      let current_sign = decimal_sign current in
      let target_sign = decimal_sign target in
      not (is_flat current_sign)
      && (is_flat target_sign
          || (sign_eq current_sign target_sign && lt D (abs target) (abs current)))

  -- The branch that keeps to one side of zero.
  unfoldable pub adjusting_phases :
      Decimal → Decimal → Result PositionPlanError (List PositionPhase)
  unfolding side_for_delta reduces_existing
  adjusting_phases current target = do
    delta ← ok_or (checked_sub target current) overflow
    side ← side_for_delta delta
    let phase : PositionPhase = record {
      kind = adjust;
      side = side;
      size = abs delta;
      reduce_only = reduces_existing current target;
    }
    ok (phase ∷ [])

  unfoldable pub crosses : Decimal → Decimal → Bool
  unfolding decimal_sign
  crosses current target =
      let current_sign = decimal_sign current in
      let target_sign = decimal_sign target in
      not (is_flat current_sign)
      && (not (is_flat target_sign) && not (sign_eq current_sign target_sign))

  unfoldable pub phases_for : Decimal → Decimal → Result PositionPlanError (List PositionPhase)
  unfolding crossing_phases adjusting_phases crosses
  phases_for current target =
      if eq D current target
      then ok []
      else if crosses current target
      then crossing_phases current target
      else adjusting_phases current target

  unfoldable pub target_size :
      SignedPerpPosition D → Symbol → Decimal → ℕ → Result PositionPlanError PositionExecutionPlan
  target_size position requested_symbol target_szi sz_decimals = do
    fail_if (not (str_eq position.symbol requested_symbol))
        (symbol_mismatch requested_symbol position.symbol)
    let current = quantize_toward_zero position.szi sz_decimals
    fail_if (not (eq D current position.szi)) (current_precision position.szi sz_decimals)
    let target = quantize_toward_zero target_szi sz_decimals
    phases ← phases_for current target
    ok (record {
      symbol = requested_symbol;
      current_szi = current;
      target_szi = target;
      phases = phases;
    })

  unfoldable pub target_usd :
      SignedPerpPosition D
      → Symbol
      → Decimal
      → Decimal
      → ℕ
      → Result PositionPlanError PositionExecutionPlan
  target_usd position requested_symbol usd preflight_price sz_decimals = do
    fail_if (le D preflight_price (from_nat D 0)) (invalid_price preflight_price)
    target_szi ← ok_or (checked_div usd preflight_price) overflow
    target_size position requested_symbol target_szi sz_decimals

  unfoldable pub flatten :
      SignedPerpPosition D → Symbol → ℕ → Result PositionPlanError PositionExecutionPlan
  flatten position requested_symbol sz_decimals =
      target_size position requested_symbol (from_nat D 0) sz_decimals

  unfoldable pub is_noop : PositionExecutionPlan → Bool
  is_noop plan = elim plan.phases [ [] ↦ true | _ ↦ false ]

  abbrev kind_pair : List PositionPhase → Bool
  kind_pair (a ∷ b ∷ []) = elim a.kind [
    | close_to_flat ↦ elim b.kind [ open_from_flat ↦ true | _ ↦ false ]
    | _ ↦ false
  ]
  kind_pair _ = false

  unfoldable pub crosses_zero : PositionExecutionPlan → Bool
  crosses_zero plan = kind_pair plan.phases
