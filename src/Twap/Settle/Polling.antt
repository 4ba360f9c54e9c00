-- ===== src/Twap/Settle/Polling.antt =====
-- Which reply the settle loop of twap.rs adopts, and how long it waits for it.
use hype_trigger_twap.Prelude.{
  ℕ, zero, suc, ◌+◌, ◌-◌, ◌*◌, ◌≤◌, ◌<◌, ◌≡◌, refl, arith, inl, inr, Option, none, some, true,
  false, not, Result, ok, err, fail_if-eq-ok, ok-injective, >>=-eq-ok, Bool-cases, ◌==◌, str_eq,
  eq_iff, not-false, sym, ap, ◌∙◌, ◌⊎◌, if◌then◌else◌,
}
use mathlib.Core.Path.{subst}
use hype_trigger_twap.Decimal.{DecimalApi}
use hype_trigger_twap.Types.{Cloid, OrderId}
use hype_trigger_twap.Errors.{HlError, invalid_response}
use hype_trigger_twap.Client.Status.{
  OrderStatusFill, cross_check, is_terminal, side_letter, cloid_mismatch,
}
use hype_trigger_twap.Twap.Schedule.{order_status_retry_delay_settle}
use hype_trigger_twap.Twap.Settle.{
  SettlePlan, World, Verdict, settled, pending, judge, accept_terminal, poll_from,
  CancelConfirmation,
}

module _ (D : DecimalApi) where
  -- The status response describes the order that was asked about.
  pub record IsTheOrder (plan : SettlePlan) (oid : OrderId) (cloid : Cloid) (st : OrderStatusFill D)
      : Type 0 where
    pub terminal : is_terminal D st ≡ true
    pub same_oid : st.oid ≡ oid
    pub same_coin : st.coin ≡ plan.symbol
    pub same_side : st.side ≡ side_letter plan.side
    pub same_cloid : cloid_mismatch (some cloid) st.cloid ≡ false

-- A terminal status that passes the check of identity is the order's.
pub cross_check-IsTheOrder :
    (D : DecimalApi) (plan : SettlePlan) (st : OrderStatusFill D) (cloid : Cloid)
    → is_terminal D st ≡ true
    → cross_check D st plan.symbol plan.side (some cloid) ≡ ok tt
    → IsTheOrder D plan st.oid cloid st
unfolding cross_check
cross_check-IsTheOrder D plan st cloid t c =
    let (coin, c1) = fail_if-eq-ok (not (str_eq st.coin plan.symbol)) _ _ c in
    let (side, c2) = fail_if-eq-ok (not (str_eq st.side (side_letter plan.side))) _ _ c1 in
    let (same, c3) = fail_if-eq-ok (cloid_mismatch (some cloid) st.cloid) _ _ c2 in
    record {
      terminal = t;
      same_oid = refl;
      same_coin = (eq_iff st.coin plan.symbol).0 (not-false _ coin);
      same_side = (eq_iff st.side (side_letter plan.side)).0 (not-false _ side);
      same_cloid = same;
    }

Verdict-cases :
    {D : DecimalApi} (v : Verdict D)
    → ((r : Result HlError (OrderStatusFill D)) × (v ≡ settled r)) ⊎ (v ≡ pending)
Verdict-cases (settled r) = inl (r, refl)
Verdict-cases pending = inr refl

delay-le : (attempt : ℕ) → order_status_retry_delay_settle attempt ≤ 15000
unfolding order_status_retry_delay_settle
delay-le attempt = omega arith

module _ (D : DecimalApi) (w : World D) (plan : SettlePlan) (oid : OrderId) (cloid : Cloid) where
  abbrev pub verdict : ℕ → Verdict D
  verdict n = judge D plan oid cloid (w.status n)

  accept_terminal-IsTheOrder :
      (st st' : OrderStatusFill D)
      → is_terminal D st ≡ true
      → accept_terminal D plan oid cloid st ≡ ok st'
      → (st ≡ st') × IsTheOrder D plan oid cloid st
  unfolding accept_terminal
  accept_terminal-IsTheOrder st st' t h =
      let (o, h1) = fail_if-eq-ok (not (st.oid == oid)) _ _ h in
      let (_, c, h2) = >>=-eq-ok (cross_check D st plan.symbol plan.side (some cloid)) _ h1 in
      let asked : st.oid ≡ oid = ground arith in
      (
        ok-injective h2,
        subst (λ o. IsTheOrder D plan o cloid st) asked
            (cross_check-IsTheOrder D plan st cloid t c),
      )

  judge-IsTheOrder :
      (reply : Result HlError (Option (OrderStatusFill D))) (st : OrderStatusFill D)
      → judge D plan oid cloid reply ≡ settled (ok st)
      → (reply ≡ ok (some st)) × IsTheOrder D plan oid cloid st
  unfolding judge
  judge-IsTheOrder (ok (some s)) st h = elim (Bool-cases (is_terminal D s)) [
    | inl t ↦
        let e : accept_terminal D plan oid cloid s ≡ ok st = (let k = rw t at h in cc) in
        let (same, order) = accept_terminal-IsTheOrder s st t e in
        (cc, subst (IsTheOrder D plan oid cloid) same order)
    | inr live ↦ (let k = rw live at h in cc)
  ]
  judge-IsTheOrder (ok none) st h = cc
  judge-IsTheOrder (err e) st h = cc

  -- The loop's step where a reply settles, and where it does not.
  poll_settled :
      (left attempt slept : ℕ) (c : Option CancelConfirmation)
      (r : Result HlError (OrderStatusFill D))
      → verdict attempt ≡ settled r
      → (poll_from D w plan oid cloid (suc left) attempt c slept).result ≡ r
  unfolding poll_from
  poll_settled left attempt slept c r h = rw (h, poll_from)

  -- The first settling reply within the attempts left is the outcome.
  pub poll_from_first :
      (before left attempt slept : ℕ) (c : Option CancelConfirmation)
      (r : Result HlError (OrderStatusFill D))
      → before < left
      → ((i : ℕ) → i < before → verdict (attempt + i) ≡ pending)
      → verdict (attempt + before) ≡ settled r
      → (poll_from D w plan oid cloid left attempt c slept).result ≡ r
  unfolding poll_from
  poll_from_first before zero attempt slept c r lt wait hit = absurd (omega arith)
  poll_from_first zero (suc left) attempt slept c r lt wait hit =
      let e : attempt + 0 ≡ attempt = omega arith in
      poll_settled left attempt slept c r (subst (λ n. verdict n ≡ settled r) e hit)
  poll_from_first (suc before) (suc left) attempt slept c r lt wait hit =
      let e : attempt + 0 ≡ attempt = omega arith in
      let p : verdict attempt ≡ pending =
        subst (λ n. verdict n ≡ pending) e (wait 0 (omega arith)) in
      let shift : (i : ℕ) → attempt + suc i ≡ attempt + 1 + i = λ i. omega arith in
      rw (p, poll_from)
        (poll_from_first before left (attempt + 1) _ _ r (omega arith)
          (λ i h. subst (λ n. verdict n ≡ pending) (shift i) (wait (suc i) (omega arith)))
          (subst (λ n. verdict n ≡ settled r) (shift before) hit))

  -- Replies that never settle exhaust the attempts, and the outcome is an error.
  pub poll_from_none :
      (left attempt slept : ℕ) (c : Option CancelConfirmation)
      → ((i : ℕ) → i < left → verdict (attempt + i) ≡ pending)
      → (poll_from D w plan oid cloid left attempt c slept).result
        ≡ err (invalid_response "no terminal status")
  unfolding poll_from
  poll_from_none zero attempt slept c wait = refl
  poll_from_none (suc left) attempt slept c wait =
      let e : attempt + 0 ≡ attempt = omega arith in
      let p : verdict attempt ≡ pending =
        subst (λ n. verdict n ≡ pending) e (wait 0 (omega arith)) in
      let shift : (i : ℕ) → attempt + suc i ≡ attempt + 1 + i = λ i. omega arith in
      rw (p, poll_from)
        (poll_from_none left (attempt + 1) _ _
          (λ i h. subst (λ n. verdict n ≡ pending) (shift i) (wait (suc i) (omega arith))))

  -- Whatever the loop returns as a status is a terminal status of the order that was asked about.
  pub poll_from-IsTheOrder :
      (left attempt slept : ℕ) (c : Option CancelConfirmation) (st : OrderStatusFill D)
      → (poll_from D w plan oid cloid left attempt c slept).result ≡ ok st
      → IsTheOrder D plan oid cloid st
  unfolding poll_from
  poll_from-IsTheOrder zero attempt slept c st h = cc
  poll_from-IsTheOrder (suc left) attempt slept c st h = elim (Verdict-cases (verdict attempt)) [
    | inl (r, e) ↦
        let is_ok : r ≡ ok st = (sym (poll_settled left attempt slept c r e) ∙ h) in
        let hit : verdict attempt ≡ settled (ok st) = e ∙ ap settled is_ok in
        (judge-IsTheOrder (w.status attempt) st hit).1
    | inr p ↦ poll_from-IsTheOrder left (attempt + 1) _ _ st (rw (p, poll_from) at h)
  ]

  pub slept_bound :
      (left attempt slept : ℕ) (c : Option CancelConfirmation)
      → (poll_from D w plan oid cloid left attempt c slept).slept_ms ≤ slept + (left - 1) * 15000
  unfolding poll_from
  slept_bound zero attempt slept c = omega arith
  slept_bound (suc zero) attempt slept c = elim (Verdict-cases (verdict attempt)) [
    | inl (r, e) ↦ rw (e, poll_from) (omega arith)
    | inr p ↦ rw (p, poll_from) (omega arith)
  ]
  slept_bound (suc (suc left)) attempt slept c =
      let longer : ℕ = slept + order_status_retry_delay_settle attempt in
      let more : (if suc left == 0 then slept else longer) ≡ longer = ground arith in
      elim (Verdict-cases (verdict attempt)) [
        | inl (r, e) ↦ rw (e, poll_from) (omega arith)
        | inr p ↦
            rw (p, poll_from)
              (omega (arith, more, delay-le attempt, slept_bound (suc left) (attempt + 1) _ _))
      ]
