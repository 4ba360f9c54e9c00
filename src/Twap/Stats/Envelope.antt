-- ===== src/Twap/Stats/Envelope.antt =====
-- src/twap.rs: the envelope of a run: what each send keeps to, and what the fills keep to.
use hype_trigger_twap.Prelude.{
  ℕ, ◌+◌, ◌*◌, ◌≤◌, ◌≡◌, arith, Option, none, some, false, List, [], ◌∷◌, All, leb, inl, inr,
  Bool-cases, ◌∙◌,
}
use native.Mathlib.Nat.{mul-le-mul_left}
use hype_trigger_twap.Decimal.{DecimalApi, lt}
use hype_trigger_twap.Decimal.Laws.{DecimalLaws}
use hype_trigger_twap.Types.{OrderIntent}
use hype_trigger_twap.Risk.{taker_notional_price}
use hype_trigger_twap.Twap.Sizing.{
  SliceDecision, place, target_at_slice, slice_order_size, decide_slice,
}
use hype_trigger_twap.Twap.Sizing.Bounds.{slice_order_size_bounds}
use hype_trigger_twap.Twap.Alo.{RestingChild}
use hype_trigger_twap.Twap.Place.{Event, wrote, sent}
use hype_trigger_twap.Twap.Stats.{
  ChildAlgo, market, passive, follow, TwapPlan, FillStats, add_fill, cumulative_notional, RunEvent,
  OrderEvent, did, ended, label, cap_price,
}

-- What holds of a send, and says nothing of a record.
abbrev pub OnSend : {D : DecimalApi} → OrderEvent D → Type 0 → Type 0
OnSend (did (sent n)) P = P
OnSend (did (wrote r)) P = Unit
OnSend (ended o) P = Unit

module _ (D : DecimalApi) (plan : TwapPlan D) where
  open D use {Decimal, plus, minus, add, mul}

  -- The sizing of the plan: the slices together are within the total, and nothing is negative.
  pub record IsSized : Type 0 where
    pub slice_nonneg : minus plan.per_slice ≡ 0
    pub total_nonneg : minus plan.total_adjusted ≡ 0
    pub slices_fit : plus plan.per_slice * plan.slices ≤ plus plan.total_adjusted

  -- An order that may be sent, by what the run has filled before: it is no dry run; the size is
  -- within what the total leaves; and the notional of all fills so far and of this order, at a price
  -- that is at least its own, is within the cap.
  pub record IsAffordable (stats : FillStats D) (intent : OrderIntent D) : Type 0 where
    pub is_live : plan.read_only ≡ false
    pub size_nonneg : minus intent.sz ≡ 0
    pub within_total : plus stats.filled + plus intent.sz ≤ plus plan.total_adjusted
    pub cap_px : Decimal
    pub at_least : plus intent.px + minus cap_px ≤ plus cap_px + minus intent.px
    pub within_cap :
        lt D plan.max_notional_usd (add (cumulative_notional D stats) (mul intent.sz cap_px))
        ≡ false

  abbrev pub IsWithinEnvelope : RunEvent D → Type 0
  IsWithinEnvelope e = OnSend e.event (IsAffordable e.stats e.intent)

  -- The size that a resting order may still fill.
  abbrev pub outstanding : Option (RestingChild D) → ℕ
  outstanding none = 0
  outstanding (some child) = plus child.requested_sz

  abbrev pub IsNonneg : Option (RestingChild D) → Type 0
  IsNonneg none = Unit
  IsNonneg (some child) = minus child.requested_sz ≡ 0

  -- The fills, and what still rests, are within the total.
  pub record IsBounded (stats : FillStats D) (resting : Option (RestingChild D)) : Type 0 where
    pub filled_nonneg : minus stats.filled ≡ 0
    pub resting_nonneg : IsNonneg resting
    pub within : plus stats.filled + outstanding resting ≤ plus plan.total_adjusted

module _ (D : DecimalApi) (L : DecimalLaws D) (plan : TwapPlan D) where
  open D use {Decimal, plus, minus, add, mul}
  open L use {one_sign, add_value, plus-mul_nat, minus-mul_nat}

  IsAffordable-OnSend :
      (stats : FillStats D) (intent : OrderIntent D) (v : Event)
      → IsAffordable D plan stats intent
      → OnSend {D = D} (did v) (IsAffordable D plan stats intent)
  IsAffordable-OnSend stats intent (wrote r) a = tt
  IsAffordable-OnSend stats intent (sent n) a = a

  -- The effects of an order that may be sent.
  pub label-IsAffordable :
      (stats : FillStats D) (intent : OrderIntent D) (vs : List Event)
      → IsAffordable D plan stats intent
      → All (IsWithinEnvelope D plan) (label D stats intent vs)
  label-IsAffordable stats intent [] a = tt
  label-IsAffordable stats intent (v ∷ vs) a =
      (IsAffordable-OnSend stats intent v a, label-IsAffordable stats intent vs a)

  sum_nonneg :
      (a b : Decimal)
      → minus a ≡ 0
      → minus b ≡ 0
      → (minus (add a b) ≡ 0) × (plus (add a b) ≡ plus a + plus b)
  sum_nonneg a b p q =
      let value = add_value a b in let sign = one_sign (add a b) in (omega arith, omega arith)

  -- A fill within what the total leaves.
  pub add_fill-IsBounded :
      (stats : FillStats D) (sz px : Decimal) (resting : Option (RestingChild D))
      → minus stats.filled ≡ 0
      → minus sz ≡ 0
      → IsNonneg D plan resting
      → plus stats.filled + plus sz + outstanding D plan resting ≤ plus plan.total_adjusted
      → IsBounded D plan (add_fill D stats sz px) resting
  unfolding add_fill
  add_fill-IsBounded stats sz px resting p q r fits =
      let sum = sum_nonneg stats.filled sz p q in
      record {
        filled_nonneg = sum.0;
        resting_nonneg = r;
        within = (let value = sum.1 in omega arith);
      }

  target_within :
      (slice_idx : ℕ)
      → IsSized D plan
      → let target = target_at_slice D slice_idx plan.slices plan.per_slice plan.total_adjusted in
        (minus target ≡ 0) × (plus target ≤ plus plan.total_adjusted)
  unfolding target_at_slice
  target_within slice_idx sized = elim (Bool-cases (leb plan.slices slice_idx)) [
    | inl last ↦ rw last (sized.total_nonneg, omega arith)
    | inr early ↦
        let product = plus-mul_nat plan.per_slice slice_idx in
        let below = minus-mul_nat plan.per_slice slice_idx in
        let nonneg = sized.slice_nonneg in
        let all_of_it = sized.slices_fit in
        let vanish : minus plan.per_slice * slice_idx ≡ 0 = rw nonneg (omega arith) in
        let fewer : plus plan.per_slice * slice_idx ≤ plus plan.per_slice * plan.slices =
          mul-le-mul_left (plus plan.per_slice) (ground arith) in
        rw early (below ∙ vanish, omega (arith, product, fewer, all_of_it))
  ]

  place-injective : {a b : Decimal} → ◌≡◌ {A = SliceDecision D} (place a) (place b) → a ≡ b
  place-injective h = cc

  -- An order that is decided on is within what the total leaves.
  pub decide_slice-within :
      (slice_idx : ℕ) (stats : FillStats D) (px sz : Decimal)
      → IsSized D plan
      → IsBounded D plan stats none
      → decide_slice D slice_idx plan.slices plan.per_slice plan.total_adjusted stats.filled
          plan.sz_decimals px
        ≡ place sz
      → (minus sz ≡ 0) × (plus stats.filled + plus sz ≤ plus plan.total_adjusted)
  unfolding decide_slice
  decide_slice-within slice_idx stats px sz sized bounded h =
      let size : Decimal =
        slice_order_size D slice_idx plan.slices plan.per_slice plan.total_adjusted stats.filled
          plan.sz_decimals in
      let same : size ≡ sz = ground arith in
      let bounds =
        slice_order_size_bounds D L slice_idx plan.slices plan.sz_decimals plan.per_slice
          plan.total_adjusted stats.filled in
      let target = target_within slice_idx sized in
      let nonneg = bounded.filled_nonneg in
      let fits = bounded.within in rw (← same) (bounds.0, omega (arith, bounds.1, target))

  -- The price that an order's notional is held against is at least its own.
  pub cap_price-at_least :
      (algo : ChildAlgo) (px bid : Decimal)
      → plus px + minus (cap_price D plan algo px bid)
        ≤ plus (cap_price D plan algo px bid) + minus px
  unfolding cap_price taker_notional_price
  cap_price-at_least market px bid = ground arith
  cap_price-at_least passive px bid = omega arith
  cap_price-at_least follow px bid = omega arith
