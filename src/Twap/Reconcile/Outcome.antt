-- ===== src/Twap/Reconcile/Outcome.antt =====
-- src/twap.rs: when `reconcile_by_cloid` calls an order absent, and which status it adopts.
use hype_trigger_twap.Prelude.{
  ℕ, zero, suc, ◌+◌, ◌≤◌, ◌<◌, ◌≡◌, refl, arith, inl, inr, none, some, ok, true, false, Bool-cases,
  sym, ap, ◌∙◌,
}
use mathlib.Core.Path.{subst}
use native.Mathlib.Decide.{dec_lt}
use hype_trigger_twap.Decimal.{DecimalApi}
use hype_trigger_twap.Types.{Cloid}
use hype_trigger_twap.Client.Status.{OrderStatusFill, is_terminal, side_letter, cloid_mismatch}
use hype_trigger_twap.Twap.Settle.{SettlePlan}
use hype_trigger_twap.Twap.Reconcile.{
  Streak, no_streak, get_or_insert, Replies, examine, Reconciled, concluded, inconclusive,
  reconcile_from, reconcile_by_cloid, unknown_oid_max_attempts,
}
use hype_trigger_twap.Twap.Reconcile.Streaks.{
  SafeResendBasis, IsStreak, one_more, found, Finding-cases, examine-none, examine-some,
  examine-IsStreak,
}

module _ (D : DecimalApi) (r : Replies D) where
  module _ (plan : SettlePlan) (cloid : Cloid) where
    long_enough :
        (n : ℕ) (s : Streak)
        → n < unknown_oid_max_attempts
        → IsStreak D r n s
        → found D r plan cloid n s ≡ concluded (ok none)
        → (first : ℕ) × (last : ℕ) × SafeResendBasis D r first last
    unfolding IsStreak
    long_enough n s lt (inl e) h =
        let (_, c, _) = examine-none D r plan cloid (r.status n) (r.seen_at n) s h in
        let none_yet : s.count ≡ 0 = ap (λ x. x.count) e in absurd (omega arith)
    long_enough n s lt (inr (first, run)) h =
        let (now, c, w) = examine-none D r plan cloid (r.status n) (r.seen_at n) s h in
        let counted = run.counted in
        let began : get_or_insert s.start (r.seen_at n) ≡ r.seen_at first =
          ap (λ o. get_or_insert o (r.seen_at n)) run.began in
        (
          first,
          n,
          record {
            within = lt;
            three = omega arith;
            window = omega arith;
            denied = λ i a b. one_more D r n first run.denied now i a (omega arith);
          },
        )

    -- One turn of the loop.
    pub turn_concluded :
        (left attempt : ℕ) (s : Streak) (out : Reconciled D)
        → found D r plan cloid attempt s ≡ concluded out
        → reconcile_from D r plan cloid (suc left) attempt s ≡ out
    unfolding reconcile_from
    turn_concluded left attempt s out h = rw (h, reconcile_from)

    pub turn_inconclusive :
        (left attempt : ℕ) (s next : Streak)
        → found D r plan cloid attempt s ≡ inconclusive next
        → reconcile_from D r plan cloid (suc left) attempt s
          ≡ reconcile_from D r plan cloid left (attempt + 1) next
    unfolding reconcile_from
    turn_inconclusive left attempt s next h = rw (h, reconcile_from)

    reconcile_from-SafeResendBasis :
        (left attempt : ℕ) (s : Streak)
        → left + attempt ≤ unknown_oid_max_attempts
        → IsStreak D r attempt s
        → reconcile_from D r plan cloid left attempt s ≡ ok none
        → (first : ℕ) × (last : ℕ) × SafeResendBasis D r first last
    unfolding reconcile_from
    reconcile_from-SafeResendBasis zero attempt s fits before h = cc
    reconcile_from-SafeResendBasis (suc left) attempt s fits before h =
        elim (Finding-cases D r plan cloid (found D r plan cloid attempt s)) [
          | inl (out, e) ↦
              let is_none : out ≡ ok none = sym (turn_concluded left attempt s out e) ∙ h in
              long_enough attempt s (omega arith) before (e ∙ ap concluded is_none)
          | inr (next, e) ↦
              reconcile_from-SafeResendBasis left (attempt + 1) next (omega arith)
                (examine-IsStreak D r plan cloid attempt s next (r.status attempt) refl before e)
                (sym (turn_inconclusive left attempt s next e) ∙ h)
        ]

    -- An order is called absent, which allows to send it again, only on a safe basis: within the
    -- attempts, at least three replies in a row denied knowing it, with no other reply between them,
    -- and the last came at least two seconds after the first.
    pub reconcile_by_cloid-SafeResendBasis :
        reconcile_by_cloid D r plan cloid ≡ ok none
        → (first : ℕ) × (last : ℕ) × SafeResendBasis D r first last
    unfolding reconcile_by_cloid IsStreak
    reconcile_by_cloid-SafeResendBasis h =
        reconcile_from-SafeResendBasis unknown_oid_max_attempts 0 no_streak (omega arith) (inl refl)
          h

    -- The status that attempt `n` gave is adopted.
    pub record IsAdopted (n : ℕ) (st : OrderStatusFill D) : Type 0 where
      pub within : n < unknown_oid_max_attempts
      pub reply : r.status n ≡ ok (some st)
      pub terminal : is_terminal D st ≡ true
      pub same_coin : st.coin ≡ plan.symbol
      pub same_side : st.side ≡ side_letter plan.side
      pub same_cloid : cloid_mismatch (some cloid) st.cloid ≡ false
      pub earliest :
          (i : ℕ) (other : OrderStatusFill D)
          → i < n
          → r.status i ≡ ok (some other)
          → is_terminal D other ≡ false

    still_live :
        (reply : Reconciled D) (now : ℕ) (s next : Streak) (other : OrderStatusFill D)
        → examine D plan cloid reply now s ≡ inconclusive next
        → reply ≡ ok (some other)
        → is_terminal D other ≡ false
    unfolding examine
    still_live reply now s next other h e = elim (Bool-cases (is_terminal D other)) [
      | inl t ↦ (let k = rw (e, t) at h in absurd cc)
      | inr live ↦ live
    ]

    reconcile_from-IsAdopted :
        (left attempt : ℕ) (s : Streak) (st : OrderStatusFill D)
        → left + attempt ≤ unknown_oid_max_attempts
        → ((i : ℕ) (other : OrderStatusFill D)
            → i < attempt
            → r.status i ≡ ok (some other)
            → is_terminal D other ≡ false)
        → reconcile_from D r plan cloid left attempt s ≡ ok (some st)
        → (n : ℕ) × IsAdopted n st
    unfolding reconcile_from
    reconcile_from-IsAdopted zero attempt s st fits live h = cc
    reconcile_from-IsAdopted (suc left) attempt s st fits live h =
        elim (Finding-cases D r plan cloid (found D r plan cloid attempt s)) [
          | inl (out, e) ↦
              let is_st : out ≡ ok (some st) = sym (turn_concluded left attempt s out e) ∙ h in
              let (reply, order) =
                examine-some D r plan cloid (r.status attempt) (r.seen_at attempt) s st
                  (e ∙ ap concluded is_st) in
              (
                attempt,
                record {
                  within = omega arith;
                  reply = reply;
                  terminal = order.terminal;
                  same_coin = order.same_coin;
                  same_side = order.same_side;
                  same_cloid = order.same_cloid;
                  earliest = live;
                },
              )
          | inr (next, e) ↦
              reconcile_from-IsAdopted left (attempt + 1) next st (omega arith)
                (λ i other lt reply. elim (dec_lt i attempt) [
                  | yes before ↦ live i other before reply
                  | no here ↦
                      let same : i ≡ attempt = omega arith in
                      still_live (r.status attempt) (r.seen_at attempt) s next other e
                        (subst (λ k. r.status k ≡ ok (some other)) same reply)
                ])
                (sym (turn_inconclusive left attempt s next e) ∙ h)
        ]

    -- A status that reconciliation adopts is the first terminal status among the replies to its
    -- queries by cloid; its coin and side are the plan's, and it names no other cloid than the one
    -- that was asked for.
    pub reconcile_by_cloid-IsAdopted :
        (st : OrderStatusFill D)
        → reconcile_by_cloid D r plan cloid ≡ ok (some st)
        → (n : ℕ) × IsAdopted n st
    unfolding reconcile_by_cloid
    reconcile_by_cloid-IsAdopted st h =
        reconcile_from-IsAdopted unknown_oid_max_attempts 0 no_streak st (omega arith)
          (λ i other lt reply. absurd (omega arith)) h
