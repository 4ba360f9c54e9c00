-- ===== src/Twap/Stats.antt =====
-- src/twap.rs: the plan of a run, what it has filled, its report, and the log of its orders.
pub mod Envelope
pub mod Orders
pub mod Tally
use hype_trigger_twap.Prelude.{
  ℕ, Option, none, some, Bool, Result, ok, err, String, List, [], ◌∷◌, ◌++◌, if◌then◌else◌, is_some,
}
use hype_trigger_twap.Prelude.Runs.{Logged}
use hype_trigger_twap.Decimal.{DecimalApi, from_nat, lt}
use hype_trigger_twap.Types.{Side, long, short, OrderIntent}
use hype_trigger_twap.Format.{round_price, taker_limit_price}
use hype_trigger_twap.Risk.{taker_notional_price}
use hype_trigger_twap.Client.Book.{ValidatedMarketSnapshot}
use hype_trigger_twap.Twap.Settle.{SettlePlan}
use hype_trigger_twap.Twap.Place.{Event, PlaceSliceOutcome}
use hype_trigger_twap.Twap.Ledger.{SliceOutcome}
use hype_trigger_twap.Twap.Alo.{RestingChild, AloPlaceOutcome}
use hype_trigger_twap.Errors.{HlError}

pub data ChildAlgo : Type 0 where
  market passive follow : ChildAlgo

module _ (D : DecimalApi) where
  open D use {Decimal, add, sub, mul, div}

  -- `settle` holds the symbol, the side, the settle retries and the master. The asset index and
  -- the agent, which only reach the exchange, and the poll seconds, which pace the iterations of
  -- the follow loop, are left out; durations are milliseconds.
  pub record TwapPlan : Type 0 where
    pub settle : SettlePlan
    pub sz_decimals : ℕ
    pub per_slice : Decimal
    pub total_adjusted : Decimal
    pub total_requested : Decimal
    pub slices : ℕ
    pub duration : ℕ
    pub absolute_deadline_unix_ms : Option ℕ
    pub slippage_bps : Decimal
    pub max_book_age_ms : ℕ
    pub read_only : Bool
    pub reduce_only : Bool
    pub max_notional_usd : Decimal
    pub child_algo : ChildAlgo
    pub follow_repost_secs : ℕ
    pub follow_threshold_bps : Decimal

  pub record FillStats : Type 0 where
    pub filled : Decimal
    pub notional : Decimal
    pub prior_notional : Decimal

  unfoldable pub with_prior_notional : Decimal → FillStats
  with_prior_notional prior = record {
    filled = from_nat D 0;
    notional = from_nat D 0;
    prior_notional = prior;
  }

  unfoldable pub add_fill : FillStats → Decimal → Decimal → FillStats
  add_fill s sz px = record s { filled = add s.filled sz; notional = add s.notional (mul sz px) }

  unfoldable pub cumulative_notional : FillStats → Decimal
  cumulative_notional s = add s.prior_notional s.notional

  unfoldable pub avg_px : FillStats → Option Decimal
  avg_px s = if lt D (from_nat D 0) s.filled then some (div s.notional s.filled) else none

  -- What an order leaves: a fill that is to be counted, none, an order that rests, or one that
  -- could not be settled.
  pub data OrderOutcome : Type 0 where
    gave : SliceOutcome D → OrderOutcome
    gave_nothing : OrderOutcome
    left_resting : RestingChild D → OrderOutcome
    left_unsettled : OrderOutcome

  -- What the log of a run holds of an order: its effects, and at its end what it leaves.
  pub data OrderEvent : Type 0 where
    did : Event → OrderEvent
    ended : OrderOutcome → OrderEvent

  abbrev pub placed_left : Result HlError (PlaceSliceOutcome D) → OrderOutcome
  placed_left (ok (PlaceSliceOutcome.settled o)) = gave o
  placed_left _ = gave_nothing

  abbrev pub alo_left : Result String (AloPlaceOutcome D) → OrderOutcome
  alo_left (ok (AloPlaceOutcome.resting child)) = left_resting child
  alo_left (ok (AloPlaceOutcome.settled o)) = gave o
  alo_left _ = gave_nothing

  -- A settled order that filled nothing is not counted.
  abbrev pub settled_left : Result HlError (SliceOutcome D) → OrderOutcome
  settled_left (ok o) = if lt D (from_nat D 0) o.sz then gave o else gave_nothing
  settled_left (err e) = left_unsettled

  -- An event of one of the run's orders: its intent, and what the run had filled when it took
  -- place.
  pub record RunEvent : Type 0 where
    pub stats : FillStats
    pub intent : OrderIntent D
    pub event : OrderEvent

  abbrev pub label : FillStats → OrderIntent D → List Event → List RunEvent
  label stats intent [] = []
  label stats intent (v ∷ vs) =
      record { stats = stats; intent = intent; event = did v } ∷ label stats intent vs

  -- The effects of one order and what it leaves, and its result as a value.
  abbrev pub of_order :
      {E F A : Type 0}
      → FillStats
      → OrderIntent D
      → (Result E A → OrderOutcome)
      → Logged Event E A
      → Logged RunEvent F (Result E A)
  of_order stats intent left m = record {
    events =
        label stats intent m.events
        ++ (record { stats = stats; intent = intent; event = ended (left m.result) } ∷ []);
    result = ok m.result;
  }

  -- The touch that a post-only order quotes at, and the price at which an order is signed.
  abbrev pub touch_of : Side → ValidatedMarketSnapshot D → Decimal
  touch_of long book = book.best_bid
  touch_of short book = book.best_ask

  unfoldable pub quote : TwapPlan → ChildAlgo → ValidatedMarketSnapshot D → Decimal
  quote plan market book =
      taker_limit_price D book.best_bid book.best_ask plan.settle.side plan.slippage_bps
        plan.sz_decimals
  quote plan _ book =
      round_price D (touch_of plan.settle.side book) plan.sz_decimals plan.settle.side

  -- The price that bounds an order's notional.
  unfoldable pub cap_price : TwapPlan → ChildAlgo → Decimal → Decimal → Decimal
  cap_price plan market px bid = taker_notional_price D px bid plan.settle.side
  cap_price plan _ px bid = px

  -- The part of the report that is no text.
  pub record TwapReport : Type 0 where
    pub total_requested : Decimal
    pub total_adjusted : Decimal
    pub filled : Decimal
    pub avg_px : Option Decimal
    pub slices_executed : ℕ
    pub slices_skipped : ℕ
    pub abort_reason : Option String
    pub read_only : Bool

  unfoldable pub exit_code : TwapReport → ℕ
  exit_code r = if is_some r.abort_reason then 1 else 0

  unfoldable pub is_partial : TwapReport → Bool
  is_partial r = lt D r.filled r.total_adjusted

  unfoldable pub rounding_dropped : TwapReport → Option Decimal
  rounding_dropped r =
      let diff = sub r.total_requested r.total_adjusted in
      if lt D (from_nat D 0) diff then some diff else none
