-- ===== src/Twap/Ledger/Totals.antt =====
-- src/twap.rs: what an accepted sum of ledger rows guarantees.
use hype_trigger_twap.Prelude.{
  ◌≡◌, arith, Bool, true, false, not, ok, ok_or, fail_if-eq-ok, >>=-eq-ok, ok-injective, List, [],
  ◌∷◌, is_empty, All, not-false,
}
use mathlib.Core.Path.{subst}
use hype_trigger_twap.Decimal.{DecimalApi, from_nat, lt, le, eq}
use hype_trigger_twap.Types.{OrderId, OrderIntent}
use hype_trigger_twap.Client.Status.{UserFill}
use hype_trigger_twap.Twap.Ledger.{
  SliceOutcome, matching, Tally, check_fill, add_fill, add_fills, empty_tally,
  aggregate_verified_user_fills,
}

module _ (D : DecimalApi) (intent : OrderIntent D) where
  -- The rows that passed the checks of identity, client id and sign.
  abbrev pub AllChecked : List (UserFill D) → Type 0
  AllChecked fs = All (λ f. check_fill D intent f ≡ ok tt) fs

  add_fills-AllChecked :
      (t : Tally D) (fs : List (UserFill D)) {u : Tally D}
      → add_fills D intent t fs ≡ ok u
      → AllChecked fs
  unfolding add_fills add_fill
  add_fills-AllChecked t [] e = tt
  add_fills-AllChecked t (f ∷ fs) e =
      let (next, added, rest) = >>=-eq-ok (add_fill D intent t f) _ e in
      let (_, checked, _) = >>=-eq-ok (check_fill D intent f) _ added in
      (checked, add_fills-AllChecked next fs rest)

  -- A sum of ledger rows is accepted only after the cancel is acknowledged or the order full; it is
  -- then the whole ordered size, and positive, and each row of the order was checked.
  pub aggregate_verified_user_fills_complete :
      (fills : List (UserFill D)) (oid : OrderId) (acknowledged : Bool) {out : SliceOutcome D}
      → aggregate_verified_user_fills D fills intent oid acknowledged ≡ ok out
      → (acknowledged ≡ true)
        × (eq D out.sz intent.sz ≡ true)
        × (le D out.sz (from_nat D 0) ≡ false)
        × AllChecked (matching D oid fills)
  unfolding aggregate_verified_user_fills
  aggregate_verified_user_fills_complete fills oid acknowledged e =
      let (ack, e1) = fail_if-eq-ok (not acknowledged) _ _ e in
      let (_, e2) = fail_if-eq-ok (is_empty (matching D oid fills)) _ _ e1 in
      let (total, summed, e3) =
        >>=-eq-ok (add_fills D intent (empty_tally D) (matching D oid fills)) _ e2 in
      let (not_over, e4) = fail_if-eq-ok (lt D intent.sz total.sz) _ _ e3 in
      let (not_under, e5) = fail_if-eq-ok (lt D total.sz intent.sz) _ _ e4 in
      let (positive, e6) = fail_if-eq-ok (le D total.sz (from_nat D 0)) _ _ e5 in
      let (px, _, e7) = >>=-eq-ok (ok_or (D.checked_div total.notional total.sz) _) _ e6 in
      (
        not-false _ ack,
        subst (λ o. eq D o.sz intent.sz ≡ true) (ok-injective e7) (ground arith),
        subst (λ o. le D o.sz (from_nat D 0) ≡ false) (ok-injective e7) positive,
        add_fills-AllChecked (empty_tally D) (matching D oid fills) summed,
      )
