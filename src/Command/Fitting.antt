-- ===== src/Command/Fitting.antt =====
-- src/main.rs: the sizing of a new run, and the one that a resume restores, fit their slices.
use hype_trigger_twap.Prelude.{
  ℕ, ◌+◌, ◌*◌, ◌/◌, ◌≤◌, ◌<◌, ◌≡◌, refl, sym, arith, Bool-cases, leb, inl, inr, Bool, true, false,
  ok, >>=-eq-ok, ok-injective,
}
use native.Mathlib.Nat.{mul-le-mul_right, div-mul_cancel}
use Prim.Native.Nat.{◌∣◌}
use mathlib.Core.Path.{subst}
use hype_trigger_twap.Decimal.{DecimalApi, from_nat, step_of}
use hype_trigger_twap.Decimal.Laws.{last_step, DecimalLaws}
use hype_trigger_twap.Format.{round_size}
use hype_trigger_twap.Format.Grid.{floor-le, round_size_bounds}
use hype_trigger_twap.Twap.Sizing.{Sizing, compute_sizing}
use hype_trigger_twap.Twap.Sizing.Bounds.{compute_sizing_inv, compute_sizing_ok, minus_of_pos}
use hype_trigger_twap.Twap.Stats.{TwapPlan}
use hype_trigger_twap.Twap.Stats.Envelope.{IsSized}
use hype_trigger_twap.Command.{execution_sizing}

fits_below :
    (g j m n e : ℕ) → 2 * (j * g * n) ≤ 2 * (m * g) + n + e → n + e < 2 * g → j * g * n ≤ m * g
fits_below g j m n e h small =
    let regroup : j * g * n ≡ j * n * g = omega arith in
    elim (Bool-cases (leb (j * n) m)) [
      | inl fits ↦ let scaled : j * n * g ≤ m * g = mul-le-mul_right g (ground arith) in omega arith
      | inr over ↦
          let scaled : (m + 1) * g ≤ j * n * g = mul-le-mul_right g (ground arith) in
          let spread : (m + 1) * g ≡ m * g + g = omega arith in omega arith
    ]

module _ (D : DecimalApi) where
  open D use {Decimal, plus, minus}

  -- The slices together are within the total, and nothing is negative.
  pub record IsFitting (per_slice total : Decimal) (slices : ℕ) : Type 0 where
    pub slice_nonneg : minus per_slice ≡ 0
    pub total_nonneg : minus total ≡ 0
    pub slices_fit : plus per_slice * slices ≤ plus total

  -- The total is on the grid of sizes; and the slices, with the total at 27 digits, are few against
  -- the grid's step.
  pub record IsOnGrid (total : Decimal) (slices sz_decimals : ℕ) : Type 0 where
    pub on_grid : step_of sz_decimals ∣ plus total
    pub few : slices + last_step (plus total) < 2 * step_of sz_decimals

module _ (D : DecimalApi) (L : DecimalLaws D) where
  open D use {Decimal, plus, minus, div, mul, parse}
  open L use {
    one_sign, minus-new, plus-to_zero, plus-mul_nat, minus-mul_nat, div_nonneg, div_nat-le,
    checked_mul_nat,
  }

  pub fits_on_grid :
      (total : Decimal) (n sz_decimals : ℕ)
      → minus total ≡ 0
      → IsOnGrid D total n sz_decimals
      → plus (round_size D (div total (from_nat D n)) sz_decimals) * n ≤ plus total
  unfolding round_size
  fits_on_grid total n sz_decimals nonneg grid =
      let g : ℕ = step_of sz_decimals in
      let q : Decimal = div total (from_nat D n) in
      let whole : plus total / g * g ≡ plus total = div-mul_cancel g grid.on_grid in
      let near = div_nat-le total n nonneg in
      let scaled : plus q / g * g * n ≤ plus q * n = mul-le-mul_right n (floor-le g (plus q)) in
      rw (plus-to_zero q sz_decimals) (
        subst (λ t. plus q / g * g * n ≤ t) whole
          (fits_below g (plus q / g) (plus total / g) n (last_step (plus total))
            (rw whole (omega (arith, near, scaled))) grid.few))

  pub per_slice_nonneg :
      (total : Decimal) (n sz_decimals : ℕ)
      → minus total ≡ 0
      → minus (round_size D (div total (from_nat D n)) sz_decimals) ≡ 0
  per_slice_nonneg total n sz_decimals nonneg =
      (round_size_bounds D L (div total (from_nat D n)) sz_decimals
        (div_nonneg total (from_nat D n) nonneg (minus-new n 0))).0

  -- The sizing of a new run fits its slices. Where the total of a position phase is kept, it is on
  -- the grid of sizes, and the slices and 10^-27 of the total, in units of
  -- 10^-28, are together fewer than two of its steps.
  pub execution_sizing-IsFitting :
      (total mid : Decimal) (slices sz_decimals : ℕ) (exact : Bool) (s : Sizing D)
      → (exact ≡ true → IsOnGrid D total slices sz_decimals)
      → execution_sizing D total slices sz_decimals mid exact ≡ ok s
      → IsFitting D s.per_slice s.total_adjusted slices
  unfolding execution_sizing
  execution_sizing-IsFitting total mid slices sz_decimals false s grid h =
      let (sizing, e, same) = >>=-eq-ok (compute_sizing D total slices sz_decimals mid) _ h in
      let sized = compute_sizing_ok D L total mid slices sz_decimals e in
      subst (λ t. IsFitting D t.per_slice t.total_adjusted slices) (ok-injective same)
        (record {
          slice_nonneg = sized.1;
          total_nonneg = sized.4;
          slices_fit = (let p = sized.3 in omega arith);
        })
  execution_sizing-IsFitting total mid slices sz_decimals true s grid h =
      let (sizing, e, same) = >>=-eq-ok (compute_sizing D total slices sz_decimals mid) _ h in
      let sized = compute_sizing_ok D L total mid slices sz_decimals e in
      let (positive, _, _, is_record) = compute_sizing_inv D L total mid slices sz_decimals e in
      let (nonneg, _) = minus_of_pos D L total positive in
      subst (λ t. IsFitting D t.per_slice t.total_adjusted slices) (ok-injective same)
        (record {
          slice_nonneg = sized.1;
          total_nonneg = nonneg;
          slices_fit =
              subst (λ t. plus t.per_slice * slices ≤ plus total) (sym is_record)
                (fits_on_grid total slices sz_decimals nonneg (grid refl));
        })

  pub IsFitting-IsSized :
      (plan : TwapPlan D)
      → IsFitting D plan.per_slice plan.total_adjusted plan.slices
      → IsSized D plan
  IsFitting-IsSized plan f = record {
    slice_nonneg = f.slice_nonneg;
    total_nonneg = f.total_nonneg;
    slices_fit = f.slices_fit;
  }
