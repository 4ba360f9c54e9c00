-- ===== src/Twap/Sizing/Bounds.antt =====
-- The bounds that make sizing safe: a run never orders more than it targets.
pub mod Decisions
use hype_trigger_twap.Prelude.{
  ℕ, ◌+◌, ◌-◌, ◌*◌, ◌≤◌, ◌<◌, ◌≡◌, refl, ◌⊎◌, inl, inr, sym, ◌∙◌, arith, true, false, Bool-cases,
  leb, ok,
}
use native.Mathlib.Nat.{mul-le-mul_right, mul-le-mul_left, dvd-sub}
use Prim.Native.Nat.{◌∣◌}
use mathlib.Core.Path.{subst}
use hype_trigger_twap.Format.Snapping.{floor-eq_of_dvd}
use hype_trigger_twap.Decimal.{DecimalApi, from_nat, lt, le, step_of}
use hype_trigger_twap.Decimal.Laws.{last_step, DecimalLaws}
use hype_trigger_twap.Format.{round_size}
use hype_trigger_twap.Format.Grid.{step_pos, AtMost, round_size_bounds}
use hype_trigger_twap.Twap.Sizing.{
  Sizing, compute_sizing, target_at_slice, slice_order_size, SliceDecision, place, skip_ahead,
  skip_below_min_notional, decide_slice, min_notional_usd, min_notional_gate,
}

module _ (D : DecimalApi) (L : DecimalLaws D) where
  open D use {Decimal, plus, minus, mul, div, add, sub}
  open L use {
    one_sign, plus-new, minus-new, add_value, plus-to_zero, sub_value, plus-mul_nat, minus-mul_nat,
    div_nonneg, div_nat-le,
  }

  pub round_size-eq_of_dvd :
      (a : Decimal) (n : ℕ) → step_of n ∣ plus a → plus (round_size D a n) ≡ plus a
  unfolding round_size
  round_size-eq_of_dvd a n h = plus-to_zero a n ∙ floor-eq_of_dvd (step_of n) (plus a) h

  pub zero_value : (plus (from_nat D 0) ≡ 0) × (minus (from_nat D 0) ≡ 0)
  zero_value = (plus-new 0 0 (omega arith), minus-new 0 0)

  -- A value above zero has no negative part.
  pub minus_of_pos : (a : Decimal) → le D a (from_nat D 0) ≡ false → (minus a ≡ 0) × (0 < plus a)
  minus_of_pos a h = ground (arith, one_sign a, zero_value)

  pub compute_sizing_inv :
      (total_coin mid : Decimal) (slices sz_decimals : ℕ) {s : Sizing D}
      → compute_sizing D total_coin slices sz_decimals mid ≡ ok s
      → let per_slice = round_size D (div total_coin (from_nat D slices)) sz_decimals in
        (le D total_coin (from_nat D 0) ≡ false)
        × (le D per_slice (from_nat D 0) ≡ false)
        × (lt D (mul per_slice mid) (min_notional_usd D) ≡ false)
        × (s ≡ record { per_slice = per_slice; total_adjusted = mul per_slice (from_nat D slices) })
  unfolding compute_sizing
  compute_sizing_inv total_coin mid slices sz_decimals h = ground arith

  -- An accepted sizing: the per-slice size is positive and meets the minimum notional at the given
  -- mid, the adjusted total is that size times the slices, and it passes the requested total by at
  -- most half a unit of 10^-28 for each slice and 10^-27 of the total, the round-off of the quotient.
  pub compute_sizing_ok :
      (total_coin mid : Decimal) (slices sz_decimals : ℕ) {s : Sizing D}
      → compute_sizing D total_coin slices sz_decimals mid ≡ ok s
      → (0 < plus s.per_slice)
        × (minus s.per_slice ≡ 0)
        × (lt D (mul s.per_slice mid) (min_notional_usd D) ≡ false)
        × (plus s.total_adjusted ≡ plus s.per_slice * slices)
        × (minus s.total_adjusted ≡ 0)
        × (2 * plus s.total_adjusted ≤ 2 * plus total_coin + slices + last_step (plus total_coin))
  compute_sizing_ok total_coin mid slices sz_decimals {s} h =
      let (total_pos, per_slice_pos, floor, same) =
        compute_sizing_inv total_coin mid slices sz_decimals h in
      let quotient : Decimal = div total_coin (from_nat D slices) in
      let per_slice : Decimal = round_size D quotient sz_decimals in
      let (total_minus, _) = minus_of_pos total_coin total_pos in
      let (per_slice_minus, some_left) = minus_of_pos per_slice per_slice_pos in
      let nonneg : minus quotient ≡ 0 =
        div_nonneg total_coin (from_nat D slices) total_minus (minus-new slices 0) in
      let (_, below, _) = round_size_bounds D L quotient sz_decimals nonneg in
      let scaled : plus per_slice * slices ≤ plus quotient * slices =
        mul-le-mul_right slices below in
      let product = plus-mul_nat per_slice slices in
      let no_minus = minus-mul_nat per_slice slices in
      let vanish : minus per_slice * slices ≡ 0 = rw per_slice_minus (omega arith) in
      let near = div_nat-le total_coin slices total_minus in
      rw same (
        some_left,
        per_slice_minus,
        floor,
        product,
        no_minus ∙ vanish,
        omega (arith, product, scaled, near),
      )

  pub slice_order_size_bounds :
      (slice_idx slices sz_decimals : ℕ) (per_slice total_adjusted filled : Decimal)
      → let target = target_at_slice D slice_idx slices per_slice total_adjusted in
        let sz = slice_order_size D slice_idx slices per_slice total_adjusted filled sz_decimals in
        (minus sz ≡ 0)
        × ((plus sz ≡ 0) ⊎ (plus filled + plus sz + minus target ≤ plus target + minus filled))
  unfolding slice_order_size
  slice_order_size_bounds slice_idx slices sz_decimals per_slice total_adjusted filled =
      let target : Decimal = target_at_slice D slice_idx slices per_slice total_adjusted in
      let raw : Decimal = sub target filled in
      elim (Bool-cases (le D raw (from_nat D 0))) [
        | inl low ↦ rw low (zero_value.1, inl zero_value.0)
        | inr high ↦
            let pos_raw = minus_of_pos raw high in
            let cut = round_size_bounds D L raw sz_decimals pos_raw.0 in
            rw high (cut.0, inr (omega (arith, cut.1, pos_raw.0, sub_value target filled)))
      ]

  pub target_at_slice_le :
      (slice_idx slices : ℕ) (per_slice total_adjusted : Decimal)
      → plus total_adjusted ≡ plus per_slice * slices
      → minus per_slice ≡ 0
      → minus total_adjusted ≡ 0
      → let target = target_at_slice D slice_idx slices per_slice total_adjusted in
        (minus target ≡ 0) × (plus target ≤ plus total_adjusted)
  unfolding target_at_slice
  target_at_slice_le slice_idx slices per_slice total_adjusted whole p t =
      elim (Bool-cases (leb slices slice_idx)) [
        | inl last ↦ rw last (t, omega arith)
        | inr early ↦
            let product = plus-mul_nat per_slice slice_idx in
            let none_below = minus-mul_nat per_slice slice_idx in
            let vanish : minus per_slice * slice_idx ≡ 0 = rw p (omega arith) in
            let fewer : plus per_slice * slice_idx ≤ plus per_slice * slices =
              mul-le-mul_left (plus per_slice) (ground arith) in
            rw early (none_below ∙ vanish, omega (arith, product, fewer, whole))
      ]

  -- No slice's order takes the fills past the cumulative target of that slice.
  pub slice_order_size-le-target :
      (slice_idx slices sz_decimals : ℕ) (per_slice total_adjusted filled : Decimal)
      → minus filled ≡ 0
      → let target = target_at_slice D slice_idx slices per_slice total_adjusted in
        let sz = slice_order_size D slice_idx slices per_slice total_adjusted filled sz_decimals in
        AtMost D L filled target → AtMost D L (add filled sz) target
  slice_order_size-le-target slice_idx slices sz_decimals per_slice total_adjusted filled h
        reached =
      let sz : Decimal =
        slice_order_size D slice_idx slices per_slice total_adjusted filled sz_decimals in
      let bounds =
        slice_order_size_bounds slice_idx slices sz_decimals per_slice total_adjusted filled in
      omega (arith, bounds, add_value filled sz)

  -- With an accepted sizing, and fills that are not negative and within the adjusted total, no slice's
  -- order takes the fills past that total.
  pub slice_order_size-le-total :
      (total_coin mid : Decimal) (slice_idx slices sz_decimals : ℕ) (filled : Decimal)
      {s : Sizing D}
      → compute_sizing D total_coin slices sz_decimals mid ≡ ok s
      → minus filled ≡ 0
      → plus filled ≤ plus s.total_adjusted
      → let sz =
          slice_order_size D slice_idx slices s.per_slice s.total_adjusted filled sz_decimals in
        (minus sz ≡ 0) × (plus filled + plus sz ≤ plus s.total_adjusted)
  slice_order_size-le-total total_coin mid slice_idx slices sz_decimals filled {s} h nonneg within =
      let sized = compute_sizing_ok total_coin mid slices sz_decimals h in
      let bounds =
        slice_order_size_bounds slice_idx slices sz_decimals s.per_slice s.total_adjusted filled in
      let target =
        target_at_slice_le slice_idx slices s.per_slice s.total_adjusted sized.3 sized.1 sized.4 in
      (bounds.0, omega (arith, bounds.1, target))
