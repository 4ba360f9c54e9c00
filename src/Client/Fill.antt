-- ===== src/Client/Fill.antt =====
-- src/client.rs: a reported fill is credited only after it is held against the order's intent.
use hype_trigger_twap.Prelude.{
  ◌+◌, ◌≤◌, ◌<◌, ◌≡◌, refl, inl, inr, arith, ◌⊎◌, Bool-cases, Option, none, some, Bool, true, false,
  not, ◌&&◌, Result, ok, err, fail_if, fail_if-eq-ok, ok-injective, ◌>>◌, if◌then◌else◌,
}
use mathlib.Core.Path.{subst}
use hype_trigger_twap.Decimal.{DecimalApi, from_nat, lt, le}
use hype_trigger_twap.Decimal.Laws.{DecimalLaws}
use hype_trigger_twap.Types.{Side, long, short, Tif, alo, OrderIntent, OrderId, side_eq, tif_eq}
use hype_trigger_twap.Errors.{HlError, invalid_response}
use hype_trigger_twap.Client.Status.{OrderStatusFill}

pub data AvgPxRequirement : Type 0 where
  required optional : AvgPxRequirement

module _ (D : DecimalApi) where
  open D use {Decimal, plus, minus}

  pub data PlaceOutcome : Type 0 where
    filled : OrderId → Decimal → Decimal → PlaceOutcome
    resting : OrderId → PlaceOutcome

  pub record ValidatedFill : Type 0 where
    pub filled_sz : Decimal
    pub avg_px : Option Decimal

  abbrev pub outside_limit : Side → Decimal → Decimal → Bool
  outside_limit long px limit = lt D limit px
  outside_limit short px limit = lt D px limit

  -- A positive fill with its price, if the response has one.
  unfoldable pub validate_price :
      Decimal → Option Decimal → OrderIntent D → AvgPxRequirement → Result HlError ValidatedFill
  validate_price filled_sz (some px) intent requirement = do
    fail_if (le D px (from_nat D 0)) (invalid_response "avgPx not positive")
    fail_if (outside_limit intent.side px intent.px) (invalid_response "avgPx outside limit")
    ok (record { filled_sz = filled_sz; avg_px = some px })
  validate_price filled_sz none intent required = err (invalid_response "avgPx missing")
  validate_price filled_sz none intent optional = do
    fail_if (side_eq intent.side short && not (tif_eq intent.tif alo))
        (invalid_response "short fill has no avgPx")
    ok (record { filled_sz = filled_sz; avg_px = none })

  unfoldable pub validate :
      Decimal → Option Decimal → OrderIntent D → AvgPxRequirement → Result HlError ValidatedFill
  unfolding validate_price
  validate filled_sz avg_px intent requirement = do
    fail_if (lt D filled_sz (from_nat D 0)) (invalid_response "filled_sz negative")
    fail_if (lt D intent.sz filled_sz) (invalid_response "filled_sz exceeds intent size")
    (if lt D (from_nat D 0) filled_sz
        then validate_price filled_sz avg_px intent requirement
        else ok (record { filled_sz = filled_sz; avg_px = none }))

  unfoldable pub try_from_place : PlaceOutcome → OrderIntent D → Result HlError ValidatedFill
  unfolding validate
  try_from_place (filled oid total_sz avg_px) intent =
      validate total_sz (some avg_px) intent required
  try_from_place (resting oid) intent = err (invalid_response "resting outcome is no fill")

  unfoldable pub try_from_status : OrderStatusFill D → OrderIntent D → Result HlError ValidatedFill
  unfolding validate
  try_from_status fill intent = validate fill.filled_sz fill.avg_px intent optional

  -- What a credited fill guarantees of its order: no overfill, and a price within the limit; where
  -- there is none, the limit bounds it, as for a buy, or is it, as for a maker.
  abbrev pub PriceHolds : Side → Decimal → Decimal → Type 0
  PriceHolds long px limit = plus px + minus limit ≤ plus limit + minus px
  PriceHolds short px limit = plus limit + minus px ≤ plus px + minus limit

  abbrev pub CreditHolds : OrderIntent D → Decimal → Option Decimal → Type 0
  CreditHolds intent size (some px) = (0 < plus px) × PriceHolds intent.side px intent.px
  CreditHolds intent size none = (plus size ≡ 0) ⊎ (intent.side ≡ long) ⊎ (intent.tif ≡ alo)

module _ (D : DecimalApi) (L : DecimalLaws D) where
  open D use {Decimal, plus, minus}
  open L use {one_sign, plus-new, minus-new}

  pub zero_value : (plus (from_nat D 0) ≡ 0) × (minus (from_nat D 0) ≡ 0)
  zero_value = (plus-new 0 0 (omega arith), minus-new 0 0)

  within_limit :
      (side : Side) (px limit : Decimal)
      → outside_limit D side px limit ≡ false
      → PriceHolds D side px limit
  within_limit long px limit h = ground arith
  within_limit short px limit h = ground arith

  -- What is known of a fill `f` that was credited for a reported size.
  abbrev pub IsCredited : Decimal → OrderIntent D → ValidatedFill D → Type 0
  IsCredited size intent f =
      (f.filled_sz ≡ size) × (minus size ≡ 0) × CreditHolds D intent size f.avg_px

  positive_of : (px : Decimal) → le D px (from_nat D 0) ≡ false → 0 < plus px
  positive_of px h = ground (arith, zero_value, one_sign px)

  maker_or_buyer :
      (side : Side) (tif : Tif)
      → side_eq side short && not (tif_eq tif alo) ≡ false
      → (side ≡ long) ⊎ (tif ≡ alo)
  maker_or_buyer side tif h = ground arith

  validate_price-IsCredited :
      (size : Decimal) (avg_px : Option Decimal) (intent : OrderIntent D)
      (requirement : AvgPxRequirement) {f : ValidatedFill D}
      → minus size ≡ 0
      → validate_price D size avg_px intent requirement ≡ ok f
      → IsCredited size intent f
  unfolding validate_price
  validate_price-IsCredited size (some px) intent requirement m h =
      let (pos, h') = fail_if-eq-ok (le D px (from_nat D 0)) _ _ h in
      let (within, h'') = fail_if-eq-ok (outside_limit D intent.side px intent.px) _ _ h' in
      subst (IsCredited size intent) (ok-injective h'')
        (refl, m, (positive_of px pos, within_limit intent.side px intent.px within))
  validate_price-IsCredited size none intent required m h = cc
  validate_price-IsCredited size none intent optional m h =
      let (safe, h') =
        fail_if-eq-ok (side_eq intent.side short && not (tif_eq intent.tif alo)) _ _ h in
      subst (IsCredited size intent) (ok-injective h')
        (refl, m, inr (maker_or_buyer intent.side intent.tif safe))

  -- A credited fill is the reported one: not negative, not more than was ordered, and its price, if
  -- it is positive, is within the limit; a positive fill without a price is a buy or a maker's.
  pub validate-IsCredited :
      (size : Decimal) (avg_px : Option Decimal) (intent : OrderIntent D)
      (requirement : AvgPxRequirement) {f : ValidatedFill D}
      → validate D size avg_px intent requirement ≡ ok f
      → IsCredited size intent f × (plus size + minus intent.sz ≤ plus intent.sz + minus size)
  unfolding validate
  validate-IsCredited size avg_px intent requirement h =
      let (nonneg, h') = fail_if-eq-ok (lt D size (from_nat D 0)) _ _ h in
      let (no_over, h'') = fail_if-eq-ok (lt D intent.sz size) _ _ h' in
      let no_minus : minus size ≡ 0 = ground (arith, zero_value, one_sign size) in
      let within : plus size + minus intent.sz ≤ plus intent.sz + minus size = ground arith in
      elim (Bool-cases (lt D (from_nat D 0) size)) [
        | inl some_fill ↦ (
          validate_price-IsCredited size avg_px intent requirement no_minus (rw some_fill at h''),
          within,
        )
        | inr no_fill ↦
            let empty : plus size ≡ 0 = ground (arith, zero_value) in
            (
              subst (IsCredited size intent) (ok-injective (rw no_fill at h''))
                  (refl, no_minus, inl empty),
              within,
            )
      ]

  -- An overfill is refused, whatever its price.
  pub validate_overfill :
      (size : Decimal) (avg_px : Option Decimal) (intent : OrderIntent D)
      (requirement : AvgPxRequirement)
      → lt D size (from_nat D 0) ≡ false
      → lt D intent.sz size ≡ true
      → validate D size avg_px intent requirement
        ≡ err (invalid_response "filled_sz exceeds intent size")
  unfolding validate
  validate_overfill size avg_px intent requirement h k = rw (h, k)
