-- ===== src/Types.antt =====
-- src/types.rs: sides, order intents, positions, the top of the book. A cloid is a UUID, which the
-- code only compares and prints: it is the UUID's 128-bit number here.
use hype_trigger_twap.Prelude.{ℕ, Bool, true, false, Option, none, some, List, String, first}
use hype_trigger_twap.Decimal.{DecimalApi, from_nat}

pub data Side : Type 0 where
  long short : Side

pub data Tif : Type 0 where
  alo ioc gtc : Tif

-- `Address` and `Symbol` are transparent wrappers of their text.
abbrev pub Address : Type 0
Address = String

abbrev pub Symbol : Type 0
Symbol = String

abbrev pub Cloid : Type 0
Cloid = ℕ

abbrev pub OrderId : Type 0
OrderId = ℕ

-- The derived `PartialEq` of `Side` and `Option<Tif>`.
abbrev pub side_eq : Side → Side → Bool
side_eq long long = true
side_eq short short = true
side_eq _ _ = false

abbrev pub tif_eq : Tif → Tif → Bool
tif_eq alo alo = true
tif_eq ioc ioc = true
tif_eq gtc gtc = true
tif_eq _ _ = false

module _ (D : DecimalApi) where
  open D use {Decimal, add, div, neg}

  pub record SignedPerpPosition : Type 0 where
    pub symbol : Symbol
    pub szi : Decimal

  pub record OrderIntent : Type 0 where
    pub cloid : Cloid
    pub symbol : Symbol
    pub side : Side
    pub px : Decimal
    pub sz : Decimal
    pub tif : Tif
    pub reduce_only : Bool

  pub record BookLevel : Type 0 where
    pub px : Decimal
    pub sz : Decimal
    pub n : ℕ

  pub record OrderBook : Type 0 where
    pub coin : String
    pub bids : List BookLevel
    pub asks : List BookLevel
    pub time_ms : ℕ

  abbrev pub as_signed_unit : Side → Decimal
  as_signed_unit long = from_nat D 1
  as_signed_unit short = neg (from_nat D 1)

  abbrev px_of : Option BookLevel → Option Decimal
  px_of none = none
  px_of (some l) = some l.px

  pub best_bid : OrderBook → Option Decimal
  best_bid b = px_of (first b.bids)

  pub best_ask : OrderBook → Option Decimal
  best_ask b = px_of (first b.asks)

  abbrev mid_of : Option Decimal → Option Decimal → Option Decimal
  mid_of (some b) (some a) = some (div (add b a) (from_nat D 2))
  mid_of _ _ = none

  unfoldable pub mid : OrderBook → Option Decimal
  unfolding best_bid best_ask
  mid b = mid_of (best_bid b) (best_ask b)
