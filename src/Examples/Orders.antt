-- ===== src/Examples/Orders.antt =====
-- src/format.rs, src/position.rs, src/client.rs, src/twap.rs: prices, phases, fills, sizes.
use hype_trigger_twap.Prelude.{
  ℕ, ◌+◌, ◌-◌, ◌*◌, ◌≤◌, ◌≡◌, refl, some, true, false, List, [], ◌∷◌, All, ok,
}
use hype_trigger_twap.Decimal.{unit, from_nat}
use hype_trigger_twap.Decimal.Fixed.{fixed, fixed_laws, negsuc}
use hype_trigger_twap.Types.{long, short, ioc, OrderIntent, OrderBook, BookLevel}
use hype_trigger_twap.Format.{round_size, round_price, taker_limit_price}
use hype_trigger_twap.Format.Grid.{IsMarketable, round_price-IsMarketable}
use hype_trigger_twap.Format.Snapping.{
  OnGrid, round_price-OnGrid, CrossesTouch, taker_limit_price-CrossesTouch,
}
use hype_trigger_twap.Position.{
  PositionPhase, phases_for, crosses, crossing_phases, decimal_sign, close_to_flat, open_from_flat,
  apply_signed_fill,
}
use hype_trigger_twap.Position.Phases.{fill_phases, SameValue, phases_for-reaches}
use hype_trigger_twap.Position.Phases.Safety.{IsSafe, phases_for-IsSafe}
use hype_trigger_twap.Client.Fill.{
  required, ValidatedFill, validate_price, IsCredited, validate-IsCredited,
}
use hype_trigger_twap.Client.Fill.{validate as validate_fill}
use hype_trigger_twap.Client.Book.{
  ValidatedMarketSnapshot, is_sorted_desc, is_sorted_asc, IsTrusted, validate-IsTrusted,
}
use hype_trigger_twap.Client.Book.{validate as validate_book}
use hype_trigger_twap.Twap.Sizing.{compute_sizing, target_at_slice, decide_slice}
use hype_trigger_twap.Twap.Sizing.Bounds.Decisions.{DecisionHolds, decide_slice-DecisionHolds}

-- A whole amount.
abbrev whole : ℕ → fixed.Decimal
whole n = from_nat fixed n

round_price-IsMarketable_example :
    IsMarketable fixed fixed_laws long (whole 1234567) (round_price fixed (whole 1234567) 2 long)
round_price-IsMarketable_example = round_price-IsMarketable fixed fixed_laws (whole 1234567) 2 long

round_price-OnGrid_example : OnGrid fixed fixed_laws 4 (round_price fixed (whole 1234567) 2 short)
round_price-OnGrid_example = round_price-OnGrid fixed fixed_laws (whole 1234567) 2 short refl

taker_limit_price-CrossesTouch_example :
    CrossesTouch fixed fixed_laws short
      (whole 100)
      (whole 101)
      (taker_limit_price fixed (whole 100) (whole 101) short (whole 50) 2)
taker_limit_price-CrossesTouch_example =
    taker_limit_price-CrossesTouch fixed fixed_laws (whole 100) (whole 101) (whole 50) short 2 refl
      refl refl

-- From 3 long to 2 short: a phase that closes and one that opens.
abbrev crossing : List (PositionPhase fixed)
crossing =
    record { kind = close_to_flat; side = short; size = whole 3; reduce_only = true }
    ∷ record { kind = open_from_flat; side = short; size = whole 2; reduce_only = false }
    ∷ []

abbrev two_short : fixed.Decimal
two_short = negsuc (2 * unit - 1)

crossing_phases_planned : phases_for fixed (whole 3) two_short ≡ ok crossing
unfolding phases_for crosses crossing_phases decimal_sign
crossing_phases_planned = refl

crossing_filled : fill_phases fixed (whole 3) crossing ≡ ok two_short
unfolding fill_phases apply_signed_fill
crossing_filled = refl

phases_for-reaches_example : SameValue fixed two_short two_short
phases_for-reaches_example =
    phases_for-reaches fixed fixed_laws (whole 3) two_short crossing crossing_phases_planned
      crossing_filled

phases_for-IsSafe_example : All (IsSafe fixed fixed_laws (whole 3)) crossing
phases_for-IsSafe_example =
    phases_for-IsSafe fixed fixed_laws (whole 3) two_short crossing crossing_phases_planned

-- A buy of 10 at 2, of which 10 are reported as filled at 1.
abbrev buy : OrderIntent fixed
buy = record {
  cloid = 7;
  symbol = "HYPE";
  side = long;
  px = whole 2;
  sz = whole 10;
  tif = ioc;
  reduce_only = false;
}

abbrev bought : ValidatedFill fixed
bought = record { filled_sz = whole 10; avg_px = some (whole 1) }

validated : validate_fill fixed (whole 10) (some (whole 1)) buy required ≡ ok bought
unfolding validate_fill validate_price
validated = refl

validate-IsCredited_example :
    IsCredited fixed fixed_laws (whole 10) buy bought
    × (fixed.plus (whole 10) + fixed.minus buy.sz ≤ fixed.plus buy.sz + fixed.minus (whole 10))
validate-IsCredited_example =
    validate-IsCredited fixed fixed_laws (whole 10) (some (whole 1)) buy required validated

abbrev level : ℕ → BookLevel fixed
level px = record { px = whole px; sz = whole 1; n = 1 }

abbrev pub book : OrderBook fixed
book = record {
  coin = "HYPE";
  bids = level 40 ∷ level 39 ∷ [];
  asks = level 42 ∷ [];
  time_ms = 1000000;
}

abbrev pub snapshot : ValidatedMarketSnapshot fixed
snapshot = record {
  coin = "HYPE";
  server_ts_ms = 1000000;
  best_bid = whole 40;
  best_ask = whole 42;
  mid = whole 41;
}

book_validated : validate_book fixed book "HYPE" 5000 1003000 ≡ ok snapshot
unfolding validate_book is_sorted_desc is_sorted_asc
book_validated = refl

validate-IsTrusted_example : IsTrusted fixed book "HYPE" 5000 1003000 snapshot
validate-IsTrusted_example = validate-IsTrusted fixed book "HYPE" 5000 1003000 book_validated

sized :
    compute_sizing fixed (whole 40) 4 2 (whole 10)
    ≡ ok (record { per_slice = whole 10; total_adjusted = whole 40 })
unfolding compute_sizing round_size
sized = refl

decide_slice-DecisionHolds_example :
    DecisionHolds fixed fixed_laws
      (target_at_slice fixed 2 4 (whole 10) (whole 40))
      (whole 5)
      (whole 10)
      2
      (decide_slice fixed 2 4 (whole 10) (whole 40) (whole 5) 2 (whole 10))
decide_slice-DecisionHolds_example =
    decide_slice-DecisionHolds fixed fixed_laws 2 4 2 (whole 10) (whole 40) (whole 5) (whole 10)
