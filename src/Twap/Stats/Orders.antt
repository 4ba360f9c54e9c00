-- ===== src/Twap/Stats/Orders.antt =====
-- src/twap.rs: what the placing and the settling of one order ensure for the run.
use hype_trigger_twap.Prelude.{
  ℕ, ◌+◌, ◌≤◌, ◌≡◌, refl, arith, some, Bool, Result, ok, err, String, List, [], ◌∷◌, All,
  ok-injective,
}
use mathlib.Core.Path.{subst}
use hype_trigger_twap.Prelude.Runs.{Logged, Trace, stop, next}
use hype_trigger_twap.Prelude.Ensures.{Ensures, All-append}
use hype_trigger_twap.Decimal.{DecimalApi}
use hype_trigger_twap.Decimal.Laws.{DecimalLaws}
use hype_trigger_twap.Types.{OrderIntent}
use hype_trigger_twap.Errors.{HlError}
use hype_trigger_twap.Journal.Records.{JournalRecord}
use hype_trigger_twap.Twap.Ledger.{SliceOutcome}
use hype_trigger_twap.Twap.Settle.{World}
use hype_trigger_twap.Twap.Place.{
  Event, wrote, sent, RunCall, SliceCall, slice_call, Surroundings, PlaceSliceOutcome,
  place_slice_reconciled,
}
use hype_trigger_twap.Twap.Place.Contract.{
  SliceState, on_book, closed, SliceStep, prepare, send_first, send_again, mark, acknowledge,
  close_unsent, close_absent, close_rejected, close_credited,
}
use hype_trigger_twap.Twap.Place.Refinement.{place_slice_reconciled-Follows}
use hype_trigger_twap.Twap.Alo.{
  RestingChild, AloPlaceOutcome, AloSurroundings, settle_call, settle_resting_child,
  place_alo_child,
}
use hype_trigger_twap.Twap.Alo.Settling.{settled_in, settle_resting_child-Follows}
use hype_trigger_twap.Twap.Alo.Refinement.{place_alo_child-Follows}
use hype_trigger_twap.Twap.Stats.{
  TwapPlan, FillStats, OrderOutcome, label, of_order, settled_left, placed_left, alo_left,
}
use hype_trigger_twap.Twap.Stats.Envelope.{IsAffordable, IsWithinEnvelope, label-IsAffordable}

-- The states after which an order is not sent again.
abbrev IsOver : SliceState → Type 0
IsOver (on_book n oid) = Unit
IsOver closed = Unit
IsOver s = ⊥

abbrev IsRecord : Event → Type 0
IsRecord (wrote r) = Unit
IsRecord (sent n) = ⊥

module _ (D : DecimalApi) (c : SliceCall D) (w : Surroundings D) where
  step-IsOver :
      {s t : SliceState} (v : Event) → SliceStep D c w s v t → IsOver s → IsRecord v × IsOver t
  step-IsOver v prepare over = elim over [ ]
  step-IsOver v (send_first may) over = elim over [ ]
  step-IsOver v (send_again n gone lt may) over = elim over [ ]
  step-IsOver v mark over = elim over [ ]
  step-IsOver v (acknowledge s n oid at reply) over = (tt, tt)
  step-IsOver v (close_unsent status valid) over = (tt, tt)
  step-IsOver v (close_absent n status gone valid) over = (tt, tt)
  step-IsOver v (close_rejected s n code message status at reply valid) over = (tt, tt)
  step-IsOver v (close_credited s status filled avg_px sending credited within valid) over =
      (tt, tt)

  trace-IsRecord :
      (vs : List Event) {s t : SliceState}
      → Trace (SliceStep D c w) s vs t
      → IsOver s
      → All IsRecord vs
  trace-IsRecord [] stop over = tt
  trace-IsRecord (v ∷ vs) (next {t = middle} one rest) over =
      let (now, later) = step-IsOver v one over in (now, trace-IsRecord vs {s = middle} rest later)

module _ (D : DecimalApi) (plan : TwapPlan D) where
  open D use {plus, minus}

  -- A credit within a size.
  pub record IsCreditOf (size : D.Decimal) (o : SliceOutcome D) : Type 0 where
    pub credit_nonneg : minus o.sz ≡ 0
    pub credit_within : plus o.sz ≤ plus size

  -- What the results say, by the size of their order.
  abbrev pub IsSettledWithin : D.Decimal → Result HlError (SliceOutcome D) → Type 0
  IsSettledWithin size (ok o) = IsCreditOf size o
  IsSettledWithin size (err e) = Unit

  abbrev pub IsPlacedWithin : D.Decimal → Result HlError (PlaceSliceOutcome D) → Type 0
  IsPlacedWithin size (ok (PlaceSliceOutcome.settled o)) = IsCreditOf size o
  IsPlacedWithin size _ = Unit

  abbrev pub IsAloWithin : D.Decimal → Result String (AloPlaceOutcome D) → Type 0
  IsAloWithin size (ok (AloPlaceOutcome.resting child)) = child.requested_sz ≡ size
  IsAloWithin size (ok (AloPlaceOutcome.settled o)) = IsCreditOf size o
  IsAloWithin size _ = Unit

  records-IsWithinEnvelope :
      (stats : FillStats D) (intent : OrderIntent D) (vs : List Event)
      → All IsRecord vs
      → All (IsWithinEnvelope D plan) (label D stats intent vs)
  records-IsWithinEnvelope stats intent [] h = tt
  records-IsWithinEnvelope stats intent (wrote r ∷ vs) h =
      (tt, records-IsWithinEnvelope stats intent vs h.1)
  records-IsWithinEnvelope stats intent (sent n ∷ vs) h = elim h.0 [ ]

  of_order-Ensures :
      {E F A : Type 0} {Left : F → Type 0} {Post : Result E A → Type 0} (stats : FillStats D)
      (intent : OrderIntent D) (left : Result E A → OrderOutcome D) (m : Logged Event E A)
      → All (IsWithinEnvelope D plan) (label D stats intent m.events)
      → Post m.result
      → Ensures (IsWithinEnvelope D plan) Left (of_order D stats intent left m) Post
  of_order-Ensures {Post = P} stats intent left m good p = record {
    good = All-append (IsWithinEnvelope D plan) (label D stats intent m.events) _ good (tt, tt);
    post = λ r h. subst P (ok-injective h) p;
    left = λ e h. absurd cc;
  }

module _ (D : DecimalApi) (L : DecimalLaws D) (plan : TwapPlan D) (run : RunCall D)
    (accepts : JournalRecord → Bool) (attached : run.sink ≡ some accepts) where
  open D use {Decimal, plus, minus}

  settled_within :
      (size : Decimal) (r : Result HlError (SliceOutcome D))
      → minus size ≡ 0
      → ((o : SliceOutcome D)
          → r ≡ ok o
          → (minus o.sz ≡ 0) × (plus o.sz + minus size ≤ plus size + minus o.sz))
      → IsSettledWithin D plan size r
  settled_within size (err e) nonneg h = tt
  settled_within size (ok o) nonneg h =
      let (p, q) = h o refl in record { credit_nonneg = p; credit_within = omega arith }

  -- Settling an order sends nothing, and credits what the order may fill at most.
  pub settle-Ensures :
      {F : Type 0} {Left : F → Type 0} (w : Surroundings D) (world : World D) (stats : FillStats D)
      (child : RestingChild D)
      → minus child.requested_sz ≡ 0
      → Ensures
          (IsWithinEnvelope D plan)
          Left
          (of_order D stats
            (settle_call D run child).intent
            (settled_left D)
            (settle_resting_child D run world child))
          (IsSettledWithin D plan child.requested_sz)
  settle-Ensures w world stats child nonneg =
      let follows = settle_resting_child-Follows D L run w accepts attached world child in
      of_order-Ensures D plan stats (settle_call D run child).intent (settled_left D)
        (settle_resting_child D run world child)
        (records-IsWithinEnvelope D plan stats (settle_call D run child).intent
          (settle_resting_child D run world child).events
          (trace-IsRecord D (settle_call D run child) (settled_in w world)
            (settle_resting_child D run world child).events follows.run tt))
        (settled_within child.requested_sz (settle_resting_child D run world child).result nonneg
          (λ o h. (let (_, p, q, _) = follows.post o h in (p, q))))

  placed_within :
      (intent : OrderIntent D) (r : Result HlError (PlaceSliceOutcome D))
      → minus intent.sz ≡ 0
      → ((o : SliceOutcome D)
          → r ≡ ok (PlaceSliceOutcome.settled o)
          → (minus o.sz ≡ 0) × (plus o.sz + minus intent.sz ≤ plus intent.sz + minus o.sz))
      → IsPlacedWithin D plan intent.sz r
  placed_within intent (err e) nonneg h = tt
  placed_within intent (ok (PlaceSliceOutcome.settled o)) nonneg h =
      let (p, q) = h o refl in record { credit_nonneg = p; credit_within = omega arith }
  placed_within intent (ok PlaceSliceOutcome.position_target_reached) nonneg h = tt
  placed_within intent (ok PlaceSliceOutcome.shutdown_requested) nonneg h = tt

  -- An order that may be sent is credited within its size.
  pub place-Ensures :
      {F : Type 0} {Left : F → Type 0} (w : Surroundings D) (stats : FillStats D) (slice_idx : ℕ)
      (intent : OrderIntent D)
      → IsAffordable D plan stats intent
      → Ensures
          (IsWithinEnvelope D plan)
          Left
          (of_order D stats intent
            (placed_left D)
            (place_slice_reconciled D (slice_call D run slice_idx intent) w))
          (IsPlacedWithin D plan intent.sz)
  place-Ensures w stats slice_idx intent may =
      let call : SliceCall D = slice_call D run slice_idx intent in
      let follows = place_slice_reconciled-Follows D L call w accepts attached in
      of_order-Ensures D plan stats intent (placed_left D) (place_slice_reconciled D call w)
        (label-IsAffordable D L plan stats intent (place_slice_reconciled D call w).events may)
        (placed_within intent (place_slice_reconciled D call w).result may.size_nonneg
          (λ o h. (let (_, p, q, _) = follows.post _ h in (p, q))))

  alo_within :
      (intent : OrderIntent D) (r : Result String (AloPlaceOutcome D))
      → minus intent.sz ≡ 0
      → ((child : RestingChild D)
          → r ≡ ok (AloPlaceOutcome.resting child)
          → child.requested_sz ≡ intent.sz)
      → ((o : SliceOutcome D)
          → r ≡ ok (AloPlaceOutcome.settled o)
          → (minus o.sz ≡ 0) × (plus o.sz + minus intent.sz ≤ plus intent.sz + minus o.sz))
      → IsAloWithin D plan intent.sz r
  alo_within intent (err e) nonneg h k = tt
  alo_within intent (ok (AloPlaceOutcome.resting child)) nonneg h k = h child refl
  alo_within intent (ok (AloPlaceOutcome.settled o)) nonneg h k =
      let (p, q) = k o refl in record { credit_nonneg = p; credit_within = omega arith }
  alo_within intent (ok AloPlaceOutcome.rejected_skip) nonneg h k = tt
  alo_within intent (ok AloPlaceOutcome.position_target_reached) nonneg h k = tt
  alo_within intent (ok AloPlaceOutcome.shutdown_requested) nonneg h k = tt

  -- A post-only order that may be sent rests at its size, or is credited within it.
  pub alo-Ensures :
      {F : Type 0} {Left : F → Type 0} (w : AloSurroundings D) (stats : FillStats D) (slice_idx : ℕ)
      (intent : OrderIntent D)
      → IsAffordable D plan stats intent
      → Ensures
          (IsWithinEnvelope D plan)
          Left
          (of_order D stats intent
            (alo_left D)
            (place_alo_child D (slice_call D run slice_idx intent) w))
          (IsAloWithin D plan intent.sz)
  alo-Ensures w stats slice_idx intent may =
      let call : SliceCall D = slice_call D run slice_idx intent in
      let follows = place_alo_child-Follows D L call w accepts attached in
      of_order-Ensures D plan stats intent (alo_left D) (place_alo_child D call w)
        (label-IsAffordable D L plan stats intent (place_alo_child D call w).events may)
        (alo_within intent (place_alo_child D call w).result may.size_nonneg
          (λ child h. (let (_, _, e, _, _) = follows.post _ h in e))
          (λ o h. (let (_, p, q, _) = follows.post _ h in (p, q))))
