-- ===== src/Twap/Place/Credit.antt =====
-- src/twap.rs: what `place_slice_reconciled` credits is within the order.
use hype_trigger_twap.Prelude.{
  ◌≡◌, refl, arith, ◌⊎◌, inl, inr, Option, some, ok, fail_if-eq-ok, Bool-cases, sym, ok-injective,
  ap,
}
use mathlib.Core.Path.{subst}
use hype_trigger_twap.Decimal.{DecimalApi, from_nat, lt, le}
use hype_trigger_twap.Decimal.Laws.{DecimalLaws}
use hype_trigger_twap.Client.Fill.{
  CreditHolds, AvgPxRequirement, ValidatedFill, validate, validate_price, validate-IsCredited,
  outside_limit, zero_value,
}
use hype_trigger_twap.Twap.Place.{SliceCall, Surroundings, unwrap_or}
use hype_trigger_twap.Twap.Place.Contract.{IsWithinIntent}

module _ (D : DecimalApi) (L : DecimalLaws D) (c : SliceCall D) (w : Surroundings D) where
  open D use {Decimal, plus, minus}
  open L use {one_sign}

  pub within_intent :
      (size : Decimal) (avg_px : Option Decimal) (requirement : AvgPxRequirement)
      (vf : ValidatedFill D)
      → validate D size avg_px c.intent requirement ≡ ok vf
      → IsWithinIntent D c w vf.filled_sz vf.avg_px
  within_intent size avg_px requirement vf h =
      let ((same, nonneg, credit), bound) =
        validate-IsCredited D L size avg_px c.intent requirement h in
      subst (λ z. IsWithinIntent D c w z vf.avg_px) (sym same) (nonneg, bound, inr credit)

  -- A price that is given stands in the validated fill, unless nothing was filled.
  priced :
      (size px : Decimal) (requirement : AvgPxRequirement) (vf : ValidatedFill D)
      → validate D size (some px) c.intent requirement ≡ ok vf
      → (plus vf.filled_sz ≡ 0) ⊎ (vf.avg_px ≡ some px)
  unfolding validate validate_price
  priced size px requirement vf h =
      let (_, h1) = fail_if-eq-ok (lt D size (from_nat D 0)) _ _ h in
      let (_, h2) = fail_if-eq-ok (lt D c.intent.sz size) _ _ h1 in
      elim (Bool-cases (lt D (from_nat D 0) size)) [
        | inl more ↦
            let h3 = rw more at h2 in
            let (_, h4) = fail_if-eq-ok (le D px (from_nat D 0)) _ _ h3 in
            let (_, h5) = fail_if-eq-ok (outside_limit D c.intent.side px c.intent.px) _ _ h4 in
            inr (sym (ap (λ f. f.avg_px) (ok-injective h5)))
        | inr nothing ↦
            let z : plus size ≡ 0 = ground (arith, zero_value D L, one_sign size) in
            inl (subst (λ f. plus f.filled_sz ≡ 0) (ok-injective (rw nothing at h2)) z)
      ]

  -- A fill that the reply to the send reports, at the price that is recorded for it.
  pub IsWithinIntent-priced :
      (size px : Decimal) (requirement : AvgPxRequirement) (vf : ValidatedFill D)
      → validate D size (some px) c.intent requirement ≡ ok vf
      → IsWithinIntent D c w vf.filled_sz (some (unwrap_or D vf.avg_px c.intent.px))
  IsWithinIntent-priced size px requirement vf h =
      let (nonneg, bound, price) = within_intent size (some px) requirement vf h in
      elim (priced size px requirement vf h) [
        | inl z ↦ (nonneg, bound, inl z)
        | inr e ↦
            let same : some (unwrap_or D vf.avg_px c.intent.px) ≡ vf.avg_px = rw e refl in
            (
              nonneg,
              bound,
              subst (λ a. (plus vf.filled_sz ≡ 0) ⊎ CreditHolds D c.intent vf.filled_sz a)
                  (sym same) price,
            )
      ]
