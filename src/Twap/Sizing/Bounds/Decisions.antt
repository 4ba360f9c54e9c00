-- ===== src/Twap/Sizing/Bounds/Decisions.antt =====
-- src/twap.rs: what the decision on a slice is right about, and that the last slice completes.
use hype_trigger_twap.Prelude.{
  ℕ, ◌+◌, ◌-◌, ◌≤◌, ◌<◌, ◌≡◌, refl, inl, inr, sym, arith, true, false, Bool-cases, leb,
}
use native.Mathlib.Nat.{dvd-sub}
use Prim.Native.Nat.{◌∣◌}
use mathlib.Core.Path.{subst}
use hype_trigger_twap.Decimal.{DecimalApi, from_nat, lt, le, step_of}
use hype_trigger_twap.Decimal.Laws.{DecimalLaws}
use hype_trigger_twap.Format.{round_size}
use hype_trigger_twap.Format.Grid.{step_pos, round_size_bounds}
use hype_trigger_twap.Twap.Sizing.{
  target_at_slice, slice_order_size, SliceDecision, place, skip_ahead, skip_below_min_notional,
  decide_slice, min_notional_gate,
}
use hype_trigger_twap.Twap.Sizing.Bounds.{
  round_size-eq_of_dvd, zero_value, minus_of_pos, slice_order_size_bounds,
}

module _ (D : DecimalApi) (L : DecimalLaws D) where
  open D use {Decimal, plus, minus, mul, div, add, sub}
  open L use {
    one_sign, plus-new, minus-new, add_value, plus-to_zero, sub_value, plus-mul_nat, minus-mul_nat,
    div_nonneg, div_nat-le,
  }

  -- What is left undone is less than one step of the size grid, unless the target is reached.
  slice_order_size_near :
      (slice_idx slices sz_decimals : ℕ) (per_slice total_adjusted filled : Decimal)
      → let target = target_at_slice D slice_idx slices per_slice total_adjusted in
        let sz = slice_order_size D slice_idx slices per_slice total_adjusted filled sz_decimals in
        plus target + minus filled < plus filled + plus sz + minus target + step_of sz_decimals
  unfolding slice_order_size
  slice_order_size_near slice_idx slices sz_decimals per_slice total_adjusted filled =
      let target : Decimal = target_at_slice D slice_idx slices per_slice total_adjusted in
      let raw : Decimal = sub target filled in
      let some_step = step_pos sz_decimals in
      let difference = sub_value target filled in
      elim (Bool-cases (le D raw (from_nat D 0))) [
        | inl low ↦
            let at_most : plus raw ≤ minus raw = ground (arith, (zero_value D L)) in
            rw low (omega (arith, (zero_value D L), at_most, some_step, difference))
        | inr high ↦
            let pos_raw = minus_of_pos D L raw high in
            let cut = round_size_bounds D L raw sz_decimals pos_raw.0 in
            rw high (omega (arith, cut.2, pos_raw.0, difference))
      ]

  -- What a decision on a slice says of its target, the fills so far and the order's price.
  -- placed: the size is positive, its notional at that price meets the gate, and it stays within
  -- the target; skipped ahead: less than one step of the size grid is due; skipped below the
  -- minimum: something is due, and its notional at that price is below the gate.
  abbrev pub DecisionHolds : Decimal → Decimal → Decimal → ℕ → SliceDecision D → Type 0
  DecisionHolds target filled px sz_decimals (place sz) =
      (0 < plus sz)
      × (lt D (mul sz px) (min_notional_gate D) ≡ false)
      × (plus filled + plus sz + minus target ≤ plus target + minus filled)
  DecisionHolds target filled px sz_decimals skip_ahead =
      plus target + minus filled < plus filled + minus target + step_of sz_decimals
  DecisionHolds target filled px sz_decimals (skip_below_min_notional sz notional) =
      (0 < plus sz) × (notional ≡ mul sz px) × (lt D notional (min_notional_gate D) ≡ true)

  -- The decision on a slice is right about its target, the fills so far and the price, whatever they
  -- are: an order is positive, meets the minimum notional and stays within the target; a slice that is
  -- ahead lacks less than one step of the size grid; one below the minimum has something to order.
  pub decide_slice-DecisionHolds :
      (slice_idx slices sz_decimals : ℕ) (per_slice total_adjusted filled px : Decimal)
      → DecisionHolds
          (target_at_slice D slice_idx slices per_slice total_adjusted)
          filled
          px
          sz_decimals
          (decide_slice D slice_idx slices per_slice total_adjusted filled sz_decimals px)
  unfolding decide_slice
  decide_slice-DecisionHolds slice_idx slices sz_decimals per_slice total_adjusted filled px =
      let sz : Decimal =
        slice_order_size D slice_idx slices per_slice total_adjusted filled sz_decimals in
      let bounds =
        slice_order_size_bounds D L slice_idx slices sz_decimals per_slice total_adjusted filled in
      let near =
        slice_order_size_near slice_idx slices sz_decimals per_slice total_adjusted filled in
      elim (Bool-cases (le D sz (from_nat D 0))) [
        | inl low ↦
            let at_most : plus sz ≤ minus sz = ground (arith, (zero_value D L)) in
            rw low (omega (arith, near, at_most, bounds.0))
        | inr high ↦
            let some_size = minus_of_pos D L sz high in
            elim (Bool-cases (lt D (mul sz px) (min_notional_gate D))) [
              | inl small ↦ rw (high, small) (some_size.1, refl, small)
              | inr large ↦
                  rw (high, large) (some_size.1, large, omega (arith, bounds.1, some_size.1))
            ]
      ]

  -- With a total and fills that are not negative and on the size grid, and fills within the total,
  -- the last slice orders exactly what is left.
  pub slice_order_size_last :
      (slices slice_idx sz_decimals : ℕ) (per_slice total_adjusted filled : Decimal)
      → slices ≤ slice_idx
      → minus total_adjusted ≡ 0
      → minus filled ≡ 0
      → step_of sz_decimals ∣ plus total_adjusted
      → step_of sz_decimals ∣ plus filled
      → plus filled ≤ plus total_adjusted
      → plus filled
          + plus (slice_order_size D slice_idx slices per_slice total_adjusted filled sz_decimals)
        ≡ plus total_adjusted
  unfolding slice_order_size target_at_slice
  slice_order_size_last slices slice_idx sz_decimals per_slice total_adjusted filled last ht hf gt
        gf within =
      let raw : Decimal = sub total_adjusted filled in
      let difference = sub_value total_adjusted filled in
      let is_last : leb slices slice_idx ≡ true = ground arith in
      elim (Bool-cases (le D raw (from_nat D 0))) [
        | inl low ↦
            let at_most : plus raw ≤ minus raw = ground (arith, (zero_value D L)) in
            rw (is_last, low) (omega (arith, (zero_value D L), at_most, difference))
        | inr high ↦
            let pos_raw = minus_of_pos D L raw high in
            let left : plus raw ≡ plus total_adjusted - plus filled =
              omega (arith, pos_raw.0, difference) in
            let on_grid : step_of sz_decimals ∣ plus raw =
              subst (λ t. step_of sz_decimals ∣ t) (sym left)
                (dvd-sub (step_of sz_decimals) gt gf) in
            let exact : plus (round_size D raw sz_decimals) ≡ plus raw =
              round_size-eq_of_dvd D L raw sz_decimals on_grid in
            rw (is_last, high) (omega (arith, exact, left))
      ]
