-- ===== src/Twap/Ledger.antt =====
-- src/twap.rs: the strict sum of the fill ledger's rows for one order.
pub mod Totals
use hype_trigger_twap.Prelude.{
  ℕ, zero, suc, ◌+◌, Option, none, some, Bool, true, false, not, ◌&&◌, ◌||◌, Result, ok, err,
  fail_if, ok_or, ◌>>=◌, ◌>>◌, ◌==◌, if◌then◌else◌, String, str_eq, List, [], ◌∷◌, is_empty, Map,
  lookup, insert,
}
use hype_trigger_twap.Decimal.{DecimalApi, from_nat, lt, le, eq}
use hype_trigger_twap.Types.{Side, Cloid, OrderId, OrderIntent}
use hype_trigger_twap.Errors.{HlError, invalid_response}
use hype_trigger_twap.Client.Status.{UserFill, side_letter, cloid_mismatch}

module _ (D : DecimalApi) where
  open D use {Decimal, checked_add, checked_mul, checked_div}

  pub record SliceOutcome : Type 0 where
    pub sz : Decimal
    pub px : Decimal

  abbrev pub option_eq : Option ℕ → Option ℕ → Bool
  option_eq none none = true
  option_eq (some a) (some b) = a == b
  option_eq _ _ = false

  -- The derived `PartialEq` of `UserFill`.
  unfoldable pub user_fill_eq : UserFill D → UserFill D → Bool
  user_fill_eq a b =
      str_eq a.coin b.coin
      && (eq D a.px b.px
          && (eq D a.sz b.sz
              && (str_eq a.side b.side
                  && (a.time_ms == b.time_ms
                      && (a.oid == b.oid && (a.tid == b.tid && option_eq a.cloid b.cloid))))))

  unfoldable pub matching : OrderId → List (UserFill D) → List (UserFill D)
  matching oid [] = []
  matching oid (f ∷ fs) = let rest = matching oid fs in if f.oid == oid then f ∷ rest else rest

  -- What the loop has seen and summed.
  pub record Tally : Type 0 where
    pub seen : Map (UserFill D)
    pub sz : Decimal
    pub notional : Decimal

  unfoldable pub check_fill : OrderIntent D → UserFill D → Result HlError (Unit {0})
  check_fill intent f = do
    fail_if (not (str_eq f.coin intent.symbol) || not (str_eq f.side (side_letter intent.side)))
        (invalid_response "identity mismatch")
    fail_if (cloid_mismatch f.cloid (some intent.cloid)) (invalid_response "cloid mismatch")
    fail_if (le D f.sz (from_nat D 0) || le D f.px (from_nat D 0))
        (invalid_response "non-positive px/sz")

  -- `seen_fills.insert` returns the row that it replaces.
  abbrev pub credit : Tally → UserFill D → Option (UserFill D) → Result HlError Tally
  credit t f (some previous) = do
    fail_if (not (user_fill_eq previous f)) (invalid_response "conflicting duplicate tid")
    ok (record t { seen = insert f.tid f t.seen })
  credit t f none = do
    sz ← ok_or (checked_add t.sz f.sz) (invalid_response "size overflow")
    fill_notional ← ok_or (checked_mul f.sz f.px) (invalid_response "notional overflow")
    notional ← ok_or (checked_add t.notional fill_notional) (invalid_response "notional overflow")
    ok (record { seen = insert f.tid f t.seen; sz = sz; notional = notional })

  unfoldable pub add_fill : OrderIntent D → Tally → UserFill D → Result HlError Tally
  unfolding check_fill
  add_fill intent t f = do check_fill intent f; credit t f (lookup f.tid t.seen)

  unfoldable pub add_fills : OrderIntent D → Tally → List (UserFill D) → Result HlError Tally
  add_fills intent t [] = ok t
  add_fills intent t (f ∷ fs) = add_fill intent t f >>= λ t'. add_fills intent t' fs

  abbrev pub empty_tally : Tally
  empty_tally = record { seen = []; sz = from_nat D 0; notional = from_nat D 0 }

  unfoldable pub aggregate_verified_user_fills :
      List (UserFill D) → OrderIntent D → OrderId → Bool → Result HlError SliceOutcome
  unfolding add_fills
  aggregate_verified_user_fills fills intent oid cancel_acknowledged_or_full = do
    fail_if (not cancel_acknowledged_or_full) (invalid_response "before cancel acknowledgement")
    fail_if (is_empty (matching oid fills)) (invalid_response "no fill for cancelled oid")
    total ← add_fills intent empty_tally (matching oid fills)
    fail_if (lt D intent.sz total.sz) (invalid_response "total exceeds requested")
    fail_if (lt D total.sz intent.sz) (invalid_response "partial total")
    fail_if (le D total.sz (from_nat D 0)) (invalid_response "no unique positive fill")
    px ← ok_or (checked_div total.notional total.sz) (invalid_response "aggregate price")
    ok (record { sz = total.sz; px = px })
