-- ===== src/Twap/Reconcile/Absence.antt =====
-- src/twap.rs: `reconcile_by_cloid` does come to call an order absent, if the exchange denies it for
-- long enough.
use hype_trigger_twap.Prelude.{
  ℕ, zero, suc, ◌+◌, ◌-◌, leb, true, ◌≤◌, ◌<◌, ◌≡◌, refl, arith, ◌⊎◌, inl, inr, none, some, false,
  ok, err, ◌∙◌,
}
use mathlib.Core.Path.{subst}
use hype_trigger_twap.Decimal.{DecimalApi}
use hype_trigger_twap.Types.{Cloid}
use hype_trigger_twap.Errors.{HlError}
use hype_trigger_twap.Client.Status.{OrderStatusFill, is_terminal}
use hype_trigger_twap.Twap.Settle.{SettlePlan}
use hype_trigger_twap.Twap.Reconcile.{
  Streak, no_streak, Replies, Reconciled, concluded, inconclusive, examine, reconcile_from,
  reconcile_by_cloid, unknown_oid_max_attempts, unknown_oid_min_window, unknown_oid_poll_interval,
}
use hype_trigger_twap.Twap.Reconcile.Streaks.{Unknown, found}
use hype_trigger_twap.Twap.Reconcile.Outcome.{turn_concluded, turn_inconclusive}

-- A reply that ends a streak of denials: a failed query, or an order that is still live.
abbrev pub IsReset : (D : DecimalApi) → Reconciled D → Type 0
IsReset D reply =
    ((e : HlError) × (reply ≡ err e))
    ⊎ ((st : OrderStatusFill D) × (reply ≡ ok (some st)) × (is_terminal D st ≡ false))

module _ (D : DecimalApi) (r : Replies D) (plan : SettlePlan) (cloid : Cloid) where
  reset_found :
      (n : ℕ) (s : Streak)
      → IsReset D (r.status n)
      → found D r plan cloid n s ≡ inconclusive no_streak
  unfolding examine
  reset_found n s (inl (fault, e)) = rw e refl
  reset_found n s (inr (st, e, live)) = rw (e, live) refl

  skip_resets :
      (before left attempt : ℕ)
      → ((i : ℕ) → i < before → IsReset D (r.status (attempt + i)))
      → reconcile_from D r plan cloid (before + left) attempt no_streak
        ≡ reconcile_from D r plan cloid left (attempt + before) no_streak
  skip_resets zero left attempt resets =
      let same : attempt + 0 ≡ attempt = omega arith in
      let all : 0 + left ≡ left = omega arith in rw (same, all) refl
  skip_resets (suc before) left attempt resets =
      let here : attempt + 0 ≡ attempt = omega arith in
      let shift : (i : ℕ) → attempt + suc i ≡ attempt + 1 + i = λ i. omega arith in
      let total : suc before + left ≡ suc (before + left) = omega arith in
      let reset : IsReset D (r.status attempt) =
        subst (λ n. IsReset D (r.status n)) here (resets 0 (omega arith)) in
      let later : (i : ℕ) → i < before → IsReset D (r.status (attempt + 1 + i)) =
        λ i h. subst (λ n. IsReset D (r.status n)) (shift i) (resets (suc i) (omega arith)) in
      rw (total, shift before)
        (turn_inconclusive D r plan cloid (before + left) attempt no_streak no_streak
            (reset_found attempt no_streak reset)
          ∙ skip_resets before left (attempt + 1) later)

  -- The streak of `count` denials that began at an instant.
  abbrev streak : ℕ → ℕ → Streak
  streak start count = record { start = some start; count = count }

  next_denial :
      (n start : ℕ)
      → Unknown D r n
      → found D r plan cloid n (streak start 1) ≡ inconclusive (streak start 2)
  unfolding examine
  next_denial n start e = rw e refl

  first_denial :
      (n : ℕ)
      → Unknown D r n
      → found D r plan cloid n no_streak ≡ inconclusive (streak (r.seen_at n) 1)
  unfolding examine
  first_denial n e = rw e refl

  last_denial :
      (n start : ℕ)
      → Unknown D r n
      → start + unknown_oid_min_window ≤ r.seen_at n
      → found D r plan cloid n (streak start 2) ≡ concluded (ok none)
  unfolding examine
  last_denial n start e window =
      let long : leb unknown_oid_min_window (r.seen_at n - start) ≡ true = ground arith in
      rw (e, long) refl

  three_denials :
      (left n : ℕ)
      → Unknown D r n
      → Unknown D r (n + 1)
      → Unknown D r (n + 2)
      → r.seen_at n + unknown_oid_min_window ≤ r.seen_at (n + 2)
      → reconcile_from D r plan cloid (3 + left) n no_streak ≡ ok none
  three_denials left n a b c window =
      let third : n + 1 + 1 ≡ n + 2 = omega arith in
      let total : 3 + left ≡ suc (suc (suc left)) = omega arith in
      rw total (
        turn_inconclusive D r plan cloid (suc (suc left)) n no_streak _ (first_denial n a)
        ∙ turn_inconclusive D r plan cloid (suc left) (n + 1) _ _
            (next_denial (n + 1) (r.seen_at n) b)
        ∙ rw third (
            turn_concluded D r plan cloid left (n + 2) _ _
              (last_denial (n + 2) (r.seen_at n) c window)))

  -- If the query fails or shows the order live for a while, and then three replies in a row deny
  -- it, within the attempts and with the poll's interval between their arrivals, the order is
  -- called absent.
  pub reconcile_by_cloid_absent :
      (before left : ℕ)
      → before + (3 + left) ≡ unknown_oid_max_attempts
      → ((i : ℕ) → i < before → IsReset D (r.status i))
      → ((i : ℕ) → before ≤ i → i ≤ before + 2 → r.status i ≡ ok none)
      → ((n : ℕ) → r.seen_at n + unknown_oid_poll_interval ≤ r.seen_at (n + 1))
      → reconcile_by_cloid D r plan cloid ≡ ok none
  unfolding reconcile_by_cloid
  reconcile_by_cloid_absent before left total resets denied interval =
      let from_zero : (n : ℕ) → n ≡ 0 + n = λ n. omega arith in
      let second : before + 1 + 1 ≡ before + 2 = omega arith in
      let step : r.seen_at (before + 1) + unknown_oid_poll_interval ≤ r.seen_at (before + 2) =
        subst (λ n. r.seen_at (before + 1) + unknown_oid_poll_interval ≤ r.seen_at n) second
          (interval (before + 1)) in
      let window : r.seen_at before + unknown_oid_min_window ≤ r.seen_at (before + 2) =
        omega (arith, interval before, step) in
      let basis : reconcile_from D r plan cloid (3 + left) before no_streak ≡ ok none =
        three_denials left before (denied before (omega arith) (omega arith))
          (denied (before + 1) (omega arith) (omega arith))
          (denied (before + 2) (omega arith) (omega arith)) window in
      subst (λ n. reconcile_from D r plan cloid n 0 no_streak ≡ ok none) total
        (skip_resets before (3 + left) 0
            (λ i h. subst (λ n. IsReset D (r.status n)) (from_zero i) (resets i h))
          ∙ subst (λ n. reconcile_from D r plan cloid (3 + left) n no_streak ≡ ok none)
              (from_zero before) basis)
