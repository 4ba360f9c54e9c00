-- ===== src/Risk/Envelope.antt =====
-- src/risk.rs: which slippages and caps the envelope lets through.
use hype_trigger_twap.Prelude.{
  ◌*◌, ◌≤◌, ◌<◌, ◌≡◌, ◌↔◌, refl, arith, ◌⊎◌, inl, inr, Bool, true, false, Option, none, some, ok,
  Bool-cases, ok-injective, sym, ap,
}
use mathlib.Core.Path.{subst}
use hype_trigger_twap.Decimal.{DecimalApi, from_nat, le, unit}
use hype_trigger_twap.Decimal.Laws.{DecimalLaws}
use hype_trigger_twap.Risk.{positive_cap, validate_slippage, validate_max_notional_required}

module _ (D : DecimalApi) (L : DecimalLaws D) where
  open D use {Decimal, plus, minus}
  open L use {one_sign, plus-new, minus-new}

  -- Slippage is accepted exactly if it is not negative, below 10,000 basis points, and at most 1,000
  -- unless more is allowed.
  pub validate_slippage_ok :
      (bps : Decimal) (allow : Bool)
      → (validate_slippage D bps allow ≡ ok tt) ↔ (
          (minus bps ≡ 0) × (plus bps < 10000 * unit) × ((plus bps ≤ 1000 * unit) ⊎ (allow ≡ true)))
  unfolding validate_slippage
  validate_slippage_ok bps allow =
      let zero_plus = plus-new 0 0 (omega arith) in
      let zero_minus = minus-new 0 0 in
      let cap_plus = plus-new 10000 0 (omega arith) in
      let cap_minus = minus-new 10000 0 in
      let warn_plus = plus-new 1000 0 (omega arith) in
      let warn_minus = minus-new 1000 0 in let sign = one_sign bps in ground arith

  positive_iff : (cap : Decimal) → (le D cap (from_nat D 0) ≡ false) ↔ (0 < plus cap)
  positive_iff cap =
      let zero_plus = plus-new 0 0 (omega arith) in
      let zero_minus = minus-new 0 0 in let sign = one_sign cap in ground arith

  positive_cap_ok : (c cap : Decimal) → (positive_cap D c ≡ ok cap) ↔ ((c ≡ cap) × (0 < plus cap))
  positive_cap_ok c cap = elim (Bool-cases (le D c (from_nat D 0))) [
    | inl low ↦ (
      λ h. (let k = rw low at h in cc),
      λ (e, p).
          (let low' : le D cap (from_nat D 0) ≡ true =
              subst (λ x. le D x (from_nat D 0) ≡ true) e low in
            let high = (positive_iff cap).1 p in cc),
    )
    | inr high ↦ (
      λ h.
          (let e : c ≡ cap = ok-injective (rw high at h) in
            (e, subst (λ x. 0 < plus x) e ((positive_iff c).0 high))),
      λ (e, p). rw (high, e) refl,
    )
  ]

  some_same : {a b : Decimal} → ◌≡◌ {A = Option Decimal} (some a) (some b) → a ≡ b
  some_same h = cc

  given_ok :
      (read_only : Bool) (c cap : Decimal)
      → (positive_cap D c ≡ ok cap) ↔ (
          ((some c ≡ some cap) × (0 < plus cap))
          ⊎ ((read_only ≡ true) × (some c ≡ none) × (cap ≡ D.max_value)))
  given_ok read_only c cap = (
    λ h. (let (e, p) = (positive_cap_ok c cap).0 h in inl (ap some e, p)),
    λ o. elim o [
      | inl (e, p) ↦ (positive_cap_ok c cap).1 (some_same e, p)
      | inr (a, b, e) ↦ absurd cc
    ],
  )

  -- The cap of a run: a live run has the given one, which is positive; a read-only one may have
  -- none, and is then capped by the largest decimal.
  pub validate_max_notional_required_ok :
      (read_only : Bool) (given : Option Decimal) (cap : Decimal)
      → (validate_max_notional_required D read_only given ≡ ok cap) ↔ (
          ((given ≡ some cap) × (0 < plus cap))
          ⊎ ((read_only ≡ true) × (given ≡ none) × (cap ≡ D.max_value)))
  unfolding validate_max_notional_required
  validate_max_notional_required_ok true none cap = (
    λ h. inr (refl, refl, sym (ok-injective h)),
    λ o. elim o [ inl (e, p) ↦ cc | inr (a, b, e) ↦ cc ],
  )
  validate_max_notional_required_ok true (some c) cap = given_ok true c cap
  validate_max_notional_required_ok false none cap =
      (λ h. absurd cc, λ o. elim o [ inl (e, p) ↦ cc | inr (e, b, q) ↦ cc ])
  validate_max_notional_required_ok false (some c) cap = given_ok false c cap
