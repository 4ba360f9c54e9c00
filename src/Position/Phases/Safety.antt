-- ===== src/Position/Phases/Safety.antt =====
-- src/position.rs: the phases of a plan are safe for the position that it starts from.
use hype_trigger_twap.Prelude.{
  ◌+◌, ◌≤◌, ◌<◌, ◌≡◌, inl, inr, true, Bool-cases, arith, ok, List, [], All,
}
use hype_trigger_twap.Decimal.{DecimalApi, eq}
use hype_trigger_twap.Decimal.Laws.{DecimalLaws, IsDifference}
use hype_trigger_twap.Types.{Side, long, short}
use hype_trigger_twap.Position.{PositionPhase, phases_for, crosses, reduces_existing}
use hype_trigger_twap.Position.Phases.{
  zero_value, HasSide, Reduces, abs_of_neg, crossing_phases_inv, adjusting_phases_inv,
}

module _ (D : DecimalApi) (L : DecimalLaws D) where
  open D use {Decimal, plus, minus, abs, neg, checked_sub, checked_add}
  open L use {
    one_sign, plus-new, minus-new, plus-neg, minus-neg, plus-abs, minus-abs, checked_add_value,
    checked_sub_value,
  }

  -- What makes a phase safe for a position: its size is positive, and where it is reduce-only it
  -- takes the position towards zero and not past it.
  abbrev pub IsSafe : Decimal → PositionPhase D → Type 0
  IsSafe szi p =
      (0 < plus p.size)
      × (minus p.size ≡ 0)
      × (p.reduce_only ≡ true → (plus p.size ≤ plus szi + minus szi) × Reduces D L p.side szi)

  Reduces-of_side :
      (szi : Decimal) (side : Side) → HasSide D L side (neg szi) → Reduces D L side szi
  Reduces-of_side szi long h = omega (arith, plus-neg szi)
  Reduces-of_side szi short h = omega (arith, minus-neg szi)

  reduces_existing_bounds :
      (current target delta : Decimal) (side : Side)
      → reduces_existing D current target ≡ true
      → IsDifference D target current delta
      → HasSide D L side delta
      → (plus delta + minus delta ≤ plus current + minus current) × Reduces D L side current
  unfolding reduces_existing
  reduces_existing_bounds current target delta long r d has = ground (
    arith,
    one_sign current,
    one_sign target,
    (zero_value D L),
    plus-abs current,
    plus-abs target,
    minus-abs current,
    minus-abs target,
  )
  reduces_existing_bounds current target delta short r d has = ground (
    arith,
    one_sign current,
    one_sign target,
    (zero_value D L),
    plus-abs current,
    plus-abs target,
    minus-abs current,
    minus-abs target,
  )

  HasSide-pos :
      (delta : Decimal) (side : Side) → HasSide D L side delta → 0 < plus delta + minus delta
  HasSide-pos delta long h = omega arith
  HasSide-pos delta short h = omega arith

  -- Every planned phase has a positive size, and one that is reduce-only takes the current position
  -- towards zero and not past it.
  pub phases_for-IsSafe :
      (current target : Decimal) (ps : List (PositionPhase D))
      → phases_for D current target ≡ ok ps
      → All (IsSafe current) ps
  unfolding phases_for
  phases_for-IsSafe current target ps h = elim (Bool-cases (eq D current target)) [
    | inl same ↦ let empty : ps ≡ [] = (let e = rw same at h in cc) in rw empty tt
    | inr other ↦ elim (Bool-cases (crosses D current target)) [
      | inl over ↦
          let (close, reopen, side, side', same) =
            crossing_phases_inv D L current target (rw (other, over) at h) in
          let size = abs_of_neg D L current in
          let some_size = HasSide-pos (neg current) close side in
          let some_target = HasSide-pos target reopen side' in
          rw same (
            (
              omega (arith, size, some_size),
              minus-abs current,
              λ _. (omega (arith, plus-abs current), Reduces-of_side current close side),
            ),
            ((omega (arith, plus-abs target, some_target), minus-abs target, λ e. cc), tt),
          )
      | inr within ↦
          let (delta, side, difference, has, same) =
            adjusting_phases_inv D L current target (rw (other, within) at h) in
          let some_delta = HasSide-pos delta side has in
          rw same (
            (
              omega (arith, plus-abs delta, some_delta),
              minus-abs delta,
              λ r.
                  let bounds = reduces_existing_bounds current target delta side r difference has in
                  (omega (arith, plus-abs delta, bounds.0), bounds.1),
            ),
            tt,
          )
    ]
  ]
