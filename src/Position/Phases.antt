-- ===== src/Position/Phases.antt =====
-- What the phases of position.rs do to a position, taken in order and filled in full.
pub mod Safety
use hype_trigger_twap.Prelude.{
  ◌+◌, ◌≤◌, ◌<◌, ◌≡◌, inl, inr, Bool, true, false, Bool-cases, arith, Result, ok, ◌>>=◌, List, [],
  ◌∷◌, ok_or, >>=-eq-ok, ok_or-eq-ok, All,
}
use mathlib.Core.Path.{subst}
use hype_trigger_twap.Decimal.{DecimalApi, from_nat, lt, eq}
use hype_trigger_twap.Decimal.Laws.{DecimalLaws, IsSum, IsDifference}
use hype_trigger_twap.Types.{Side, long, short}
use hype_trigger_twap.Position.{
  PositionPhase, PositionPlanError, apply_signed_fill, fill_on, phases_for, crossing_phases,
  adjusting_phases, side_for_delta, crosses, reduces_existing, overflow, PositionPhaseKind,
  close_to_flat, open_from_flat, adjust,
}

module _ (D : DecimalApi) where
  open D use {Decimal, plus, minus}

  -- Filling each phase in full, in order, by the code's own fill rule.
  unfoldable pub fill_phases :
      Decimal → List (PositionPhase D) → Result (PositionPlanError D) Decimal
  fill_phases szi [] = ok szi
  fill_phases szi (p ∷ ps) = apply_signed_fill D szi p.side p.size >>= λ next. fill_phases next ps

  abbrev pub SameValue : Decimal → Decimal → Type 0
  SameValue a b = plus a + minus b ≡ plus b + minus a

module _ (D : DecimalApi) (L : DecimalLaws D) where
  open D use {Decimal, plus, minus, abs, neg, checked_sub, checked_add}
  open L use {
    one_sign, plus-new, minus-new, plus-neg, minus-neg, plus-abs, minus-abs, checked_add_value,
    checked_sub_value,
  }

  pub zero_value : (plus (from_nat D 0) ≡ 0) × (minus (from_nat D 0) ≡ 0)
  zero_value = (plus-new 0 0 (omega arith), minus-new 0 0)

  -- A buy adds the size, a sell takes it away.
  abbrev pub IsFilled : Side → Decimal → Decimal → Decimal → Type 0
  IsFilled long szi size next = IsSum D szi size next
  IsFilled short szi size next = IsDifference D szi size next

  fill_on_value :
      (side : Side) (szi size : Decimal) {next : Decimal}
      → fill_on D side szi size ≡ ok next
      → IsFilled side szi size next
  fill_on_value long szi size h = checked_add_value szi size (ground arith)
  fill_on_value short szi size h = checked_sub_value szi size (ground arith)

  -- A fill that is taken is not negative and moves the position by its size, in its side's direction.
  pub apply_signed_fill_value :
      (szi size : Decimal) (side : Side) {next : Decimal}
      → apply_signed_fill D szi side size ≡ ok next
      → (minus size ≡ 0) × IsFilled side szi size next
  unfolding apply_signed_fill
  apply_signed_fill_value szi size side h = elim (Bool-cases (lt D size (from_nat D 0))) [
    | inl low ↦ cc
    | inr high ↦
        (ground (arith, one_sign size, zero_value), fill_on_value side szi size (rw (high) at h))
  ]

  -- The sign that a side stands for.
  abbrev pub HasSide : Side → Decimal → Type 0
  HasSide long delta = (minus delta ≡ 0) × (0 < plus delta)
  HasSide short delta = (plus delta ≡ 0) × (0 < minus delta)

  side_for_delta_value :
      (delta : Decimal) (side : Side) → side_for_delta D delta ≡ ok side → HasSide side delta
  unfolding side_for_delta
  side_for_delta_value delta long h = ground (arith, one_sign delta, zero_value)
  side_for_delta_value delta short h = ground (arith, one_sign delta, zero_value)

  -- A sell reduces a long position, a buy a short one.
  abbrev pub Reduces : Side → Decimal → Type 0
  Reduces long szi = 0 < minus szi
  Reduces short szi = 0 < plus szi

  -- One phase towards a difference `delta`, filled in full, makes up that difference.
  abbrev phase_for : Side → Decimal → Bool → PositionPhaseKind → PositionPhase D
  phase_for side delta reduce kind = record {
    kind = kind;
    side = side;
    size = abs delta;
    reduce_only = reduce;
  }

  fill_towards :
      (szi delta size : Decimal) (side : Side) {next : Decimal}
      → plus size ≡ plus delta + minus delta
      → HasSide side delta
      → apply_signed_fill D szi side size ≡ ok next
      → IsSum D szi delta next
  fill_towards szi delta size long p has e = omega (arith, apply_signed_fill_value szi size long e)
  fill_towards szi delta size short p has e =
      omega (arith, apply_signed_fill_value szi size short e)

  pub abs_of_neg : (a : Decimal) → plus (abs a) ≡ plus (neg a) + minus (neg a)
  abs_of_neg a = omega (arith, plus-abs a, plus-neg a, minus-neg a)

  -- The phases that cross zero, with their sides.
  pub crossing_phases_inv :
      (current target : Decimal) {ps : List (PositionPhase D)}
      → crossing_phases D current target ≡ ok ps
      → (close : Side) × (reopen : Side) × HasSide close (neg current)
        × HasSide reopen target
        × (ps
            ≡ record { kind = close_to_flat; side = close; size = abs current; reduce_only = true }
              ∷ phase_for reopen target false open_from_flat
              ∷ [])
  unfolding crossing_phases
  crossing_phases_inv current target h =
      let (close, e, h') = >>=-eq-ok (side_for_delta D (neg current)) _ h in
      let (reopen, e', h'') = >>=-eq-ok (side_for_delta D target) _ h' in
      (close, reopen, side_for_delta_value _ close e, side_for_delta_value _ reopen e', cc)

  pub adjusting_phases_inv :
      (current target : Decimal) {ps : List (PositionPhase D)}
      → adjusting_phases D current target ≡ ok ps
      → (delta : Decimal) × (side : Side) × IsDifference D target current delta
        × HasSide side delta
        × (ps ≡ phase_for side delta (reduces_existing D current target) adjust ∷ [])
  unfolding adjusting_phases
  adjusting_phases_inv current target h =
      let (delta, e, h') = >>=-eq-ok (ok_or (checked_sub target current) overflow) _ h in
      let (side, e', h'') = >>=-eq-ok (side_for_delta D delta) _ h' in
      (
        delta,
        side,
        checked_sub_value target current (ok_or-eq-ok _ overflow e),
        side_for_delta_value _ side e',
        cc,
      )

  module _ (current target : Decimal) where
    crossing_reaches :
        (ps : List (PositionPhase D)) {final : Decimal}
        → crossing_phases D current target ≡ ok ps
        → fill_phases D current ps ≡ ok final
        → SameValue D final target
    unfolding fill_phases
    crossing_reaches ps {final} h filled =
        let (close, reopen, side, side', same) = crossing_phases_inv current target h in
        let run : fill_phases D current (
              record { kind = close_to_flat; side = close; size = abs current; reduce_only = true }
              ∷ phase_for reopen target false open_from_flat
              ∷ [])
            ≡ ok final =
          rw same at filled in
        let (middle, first_fill, later) =
          >>=-eq-ok (apply_signed_fill D current close (abs current)) _ run in
        let (last, second_fill, done) =
          >>=-eq-ok (apply_signed_fill D middle reopen (abs target)) _ later in
        let flat =
          fill_towards current (neg current) (abs current) close (abs_of_neg current) side
            first_fill in
        let opened =
          fill_towards middle target (abs target) reopen (plus-abs target) side' second_fill in
        let is_last : last ≡ final = cc in
        subst (λ f. SameValue D f target) is_last
          (omega (arith, flat, opened, plus-neg current, minus-neg current))

    adjusting_reaches :
        (ps : List (PositionPhase D)) {final : Decimal}
        → adjusting_phases D current target ≡ ok ps
        → fill_phases D current ps ≡ ok final
        → SameValue D final target
    unfolding fill_phases
    adjusting_reaches ps {final} h filled =
        let (delta, side, difference, has, same) = adjusting_phases_inv current target h in
        let run : fill_phases D current
              (phase_for side delta (reduces_existing D current target) adjust ∷ [])
            ≡ ok final =
          rw same at filled in
        let (last, fill, done) = >>=-eq-ok (apply_signed_fill D current side (abs delta)) _ run in
        let sum = fill_towards current delta (abs delta) side (plus-abs delta) has fill in
        let is_last : last ≡ final = cc in
        subst (λ f. SameValue D f target) is_last (omega (arith, sum, difference))

    -- Filling the planned phases in full and in order takes the current position to the target.
    pub phases_for-reaches :
        (ps : List (PositionPhase D)) {final : Decimal}
        → phases_for D current target ≡ ok ps
        → fill_phases D current ps ≡ ok final
        → SameValue D final target
    unfolding phases_for fill_phases
    phases_for-reaches ps {final} h filled = elim (Bool-cases (eq D current target)) [
      | inl same ↦
          let empty : ps ≡ [] = (let e = rw same at h in cc) in
          let run : fill_phases D current [] ≡ ok final = rw empty at filled in
          let is_last : current ≡ final = cc in
          subst (λ f. SameValue D f target) is_last (ground arith)
      | inr other ↦ elim (Bool-cases (crosses D current target)) [
        | inl over ↦ crossing_reaches ps (rw (other, over) at h) filled
        | inr within ↦ adjusting_reaches ps (rw (other, within) at h) filled
      ]
    ]
