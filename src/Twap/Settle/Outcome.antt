-- ===== src/Twap/Settle/Outcome.antt =====
-- src/twap.rs: what `recover_resting_fill` adopts, how soon, and how long it sleeps at most.
use hype_trigger_twap.Prelude.{
  ℕ, ◌+◌, ◌-◌, ◌*◌, ◌≤◌, ◌<◌, ◌≡◌, refl, arith, Option, some, Bool, true, false, Result, ok, err,
  ok_or, map_err, >>=-eq-ok, ok-injective,
}
use mathlib.Core.Path.{subst}
use hype_trigger_twap.Prelude.Text.{to_ascii_lowercase, starts_with, replace, codes_eq}
use hype_trigger_twap.Decimal.{DecimalApi}
use hype_trigger_twap.Types.{Cloid, OrderId, OrderIntent}
use hype_trigger_twap.Errors.{HlError, invalid_response}
use hype_trigger_twap.Client.Status.{
  OrderStatusFill, is_terminal, is_terminal_order_status, normalise_status, cloid_mismatch,
}
use hype_trigger_twap.Client.Fill.{try_from_status}
use hype_trigger_twap.Twap.Ledger.{aggregate_verified_user_fills}
use hype_trigger_twap.Twap.Settle.{
  SettlePlan, World, settled, pending, CancelConfirmation, poll_terminal_status, or_ledger,
  recover_from_ledger, recover_resting_fill,
}
use hype_trigger_twap.Twap.Settle.Polling.{
  IsTheOrder, verdict, poll_from_first, poll_from_none, poll_from-IsTheOrder, slept_bound,
}

module _ (D : DecimalApi) (w : World D) (plan : SettlePlan) (oid : OrderId) (cloid : Cloid) where
  from_zero : (n : ℕ) → n ≡ 0 + n
  from_zero n = omega arith

  -- The first reply that settles, if it comes within the attempts, is the outcome, whether it is a
  -- status or a refusal; the replies before it were live, missing or failed.
  pub poll_terminal_status_first :
      (before : ℕ) (c : Option CancelConfirmation) {r : Result HlError (OrderStatusFill D)}
      → before < plan.settle_retries
      → ((i : ℕ) → i < before → verdict D w plan oid cloid i ≡ pending)
      → verdict D w plan oid cloid before ≡ settled r
      → (poll_terminal_status D w plan oid cloid c).result ≡ r
  unfolding poll_terminal_status
  poll_terminal_status_first before c {r} lt wait hit =
      poll_from_first D w plan oid cloid before plan.settle_retries 0 0 c r lt
        (λ i h. subst (λ n. verdict D w plan oid cloid n ≡ pending) (from_zero i) (wait i h))
        (subst (λ n. verdict D w plan oid cloid n ≡ settled r) (from_zero before) hit)

  -- Where no reply settles, the outcome is an error, never a fill; and the waits between the
  -- attempts sum to 15 seconds for each at most.
  pub poll_terminal_status_none :
      (c : Option CancelConfirmation)
      → ((i : ℕ) → i < plan.settle_retries → verdict D w plan oid cloid i ≡ pending)
      → ((poll_terminal_status D w plan oid cloid c).result
          ≡ err (invalid_response "no terminal status"))
        × ((poll_terminal_status D w plan oid cloid c).slept_ms ≤ (plan.settle_retries - 1) * 15000)
  unfolding poll_terminal_status
  poll_terminal_status_none c wait = (
    poll_from_none D w plan oid cloid plan.settle_retries 0 0 c
        (λ i h. subst (λ n. verdict D w plan oid cloid n ≡ pending) (from_zero i) (wait i h)),
    omega (arith, slept_bound D w plan oid cloid plan.settle_retries 0 0 c),
  )

  same_cloid : cloid_mismatch (some cloid) (some cloid) ≡ false
  same_cloid = ground arith

  canceled_terminal : is_terminal_order_status "canceled" ≡ true
  unfolding is_terminal_order_status normalise_status to_ascii_lowercase starts_with replace
      codes_eq
  canceled_terminal = refl

  ledger-IsTheOrder :
      (intent : OrderIntent D) {st : OrderStatusFill D}
      → recover_from_ledger D w plan oid cloid intent ≡ ok st
      → IsTheOrder D plan oid cloid st
  unfolding recover_from_ledger is_terminal
  ledger-IsTheOrder intent e =
      let (fills, _, e1) = >>=-eq-ok (map_err _ (w.ledger _ _)) _ e in
      let (total, _, e2) =
        >>=-eq-ok (map_err _ (aggregate_verified_user_fills D fills intent oid true)) _ e1 in
      let (_, _, e3) = >>=-eq-ok (try_from_status D _ intent) _ e2 in
      subst (IsTheOrder D plan oid cloid) (ok-injective e3) (record {
        terminal = canceled_terminal;
        same_oid = refl;
        same_coin = refl;
        same_side = refl;
        same_cloid = same_cloid;
      })

  or_ledger-IsTheOrder :
      (polled : Result HlError (OrderStatusFill D)) (closed : Bool)
      (fallback : Result HlError (OrderStatusFill D)) {st : OrderStatusFill D}
      → ((s : OrderStatusFill D) → polled ≡ ok s → IsTheOrder D plan oid cloid s)
      → ((s : OrderStatusFill D) → fallback ≡ ok s → IsTheOrder D plan oid cloid s)
      → or_ledger D polled closed fallback ≡ ok st
      → IsTheOrder D plan oid cloid st
  or_ledger-IsTheOrder (ok s) closed fallback {st} a b e = a st e
  or_ledger-IsTheOrder (err x) true fallback {st} a b e = b st e
  or_ledger-IsTheOrder (err x) false fallback a b e = cc

  -- What is recovered of a resting order, from its status or from the fill ledger, is a terminal
  -- status of that order: its id, its client id, its coin and its side.
  pub recover_resting_fill-IsTheOrder :
      (intent : OrderIntent D) {st : OrderStatusFill D}
      → recover_resting_fill D w plan cloid oid intent ≡ ok st
      → IsTheOrder D plan oid cloid st
  unfolding recover_resting_fill poll_terminal_status
  recover_resting_fill-IsTheOrder intent {st} e =
      let (user, _, e1) = >>=-eq-ok (ok_or plan.master _) _ e in
      or_ledger-IsTheOrder _ _ (recover_from_ledger D w plan oid cloid intent)
        (λ s h. poll_from-IsTheOrder D w plan oid cloid plan.settle_retries 0 0 _ s h)
        (λ s h. ledger-IsTheOrder intent h) e1
