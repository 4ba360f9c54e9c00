-- ===== src/Twap/Reconcile/Streaks.antt =====
-- src/twap.rs: what one reply in `reconcile_by_cloid` does to the streak of denials.
use hype_trigger_twap.Prelude.{
  ℕ, ◌+◌, ◌-◌, ◌≤◌, ◌<◌, ◌≡◌, refl, arith, ◌⊎◌, inl, inr, none, some, Bool, ◌&&◌, ok, err, ◌>>=◌,
  >>=-eq-ok, Bool-cases, leb, sym, leb→le, and_parts,
}
use mathlib.Core.Path.{subst}
use native.Mathlib.Decide.{dec_lt}
use hype_trigger_twap.Decimal.{DecimalApi}
use hype_trigger_twap.Types.{Cloid}
use hype_trigger_twap.Client.Status.{OrderStatusFill, cross_check, is_terminal}
use hype_trigger_twap.Twap.Settle.{SettlePlan}
use hype_trigger_twap.Twap.Settle.Polling.{IsTheOrder, cross_check-IsTheOrder}
use hype_trigger_twap.Twap.Reconcile.{
  Streak, no_streak, get_or_insert, Replies, Reconciled, Finding, concluded, inconclusive, examine,
  unknown_oid_max_attempts, unknown_oid_min_window,
}

module _ (D : DecimalApi) (r : Replies D) where
  abbrev pub Unknown : ℕ → Type 0
  Unknown n = r.status n ≡ ok none

  -- Three or more replies in a row, the window apart, denied knowing the order; nothing else was
  -- heard from the first of them to the last.
  pub record SafeResendBasis (first last : ℕ) : Type 0 where
    pub within : last < unknown_oid_max_attempts
    pub three : first + 2 ≤ last
    pub window : r.seen_at first + unknown_oid_min_window ≤ r.seen_at last
    pub denied : (i : ℕ) → first ≤ i → i ≤ last → Unknown i

  -- The streak before attempt `n`: none, or the replies from attempt `first` on.
  pub record Running (n : ℕ) (s : Streak) (first : ℕ) : Type 0 where
    pub counted : first + s.count ≡ n
    pub some_time : 0 < s.count
    pub began : s.start ≡ some (r.seen_at first)
    pub denied : (i : ℕ) → first ≤ i → i < n → Unknown i

  unfoldable pub IsStreak : ℕ → Streak → Type 0
  IsStreak n s = (s ≡ no_streak) ⊎ ((first : ℕ) × Running n s first)

  -- The streak after one more reply that does not know the order.
  abbrev longer : Streak → ℕ → Streak
  longer s now = record { start = some (get_or_insert s.start now); count = s.count + 1 }

  pub one_more :
      (n first : ℕ)
      → ((i : ℕ) → first ≤ i → i < n → Unknown i)
      → Unknown n
      → (i : ℕ) → first ≤ i
      → i < n + 1
      → Unknown i
  one_more n first before now i from to = elim (dec_lt i n) [
    | yes lt ↦ before i from lt
    | no ge ↦ (let same : n ≡ i = omega arith in subst Unknown same now)
  ]

  longer-Running :
      (n : ℕ) (s : Streak)
      → IsStreak n s
      → Unknown n
      → (first : ℕ) × Running (n + 1) (longer s (r.seen_at n)) first
  unfolding IsStreak
  longer-Running n s (inl e) now = (
    n,
    rw e (record {
      counted = omega arith;
      some_time = omega arith;
      began = refl;
      denied = one_more n n (λ i a b. absurd (omega arith)) now;
    }),
  )
  longer-Running n s (inr (first, run)) now = (
    first,
    record {
      counted = (let c = run.counted in omega arith);
      some_time = omega arith;
      began = (let b = run.began in rw b refl);
      denied = one_more n first run.denied now;
    },
  )

  module _ (plan : SettlePlan) (cloid : Cloid) where
    abbrev pub found : ℕ → Streak → Finding D
    found n s = examine D plan cloid (r.status n) (r.seen_at n) s

    pub Finding-cases :
        (f : Finding D)
        → ((out : Reconciled D) × (f ≡ concluded out)) ⊎ ((s : Streak) × (f ≡ inconclusive s))
    Finding-cases (concluded out) = inl (out, refl)
    Finding-cases (inconclusive s) = inr (s, refl)

    abbrev is_basis : Streak → ℕ → Bool
    is_basis s now =
        leb 3 (s.count + 1) && leb unknown_oid_min_window (now - get_or_insert s.start now)

    -- What one reply may conclude: that the order is absent, once the streak is long enough, or
    -- its terminal status.
    pub examine-none :
        (reply : Reconciled D) (now : ℕ) (s : Streak)
        → examine D plan cloid reply now s ≡ concluded (ok none)
        → (reply ≡ ok none)
          × (3 ≤ s.count + 1)
          × (unknown_oid_min_window ≤ now - get_or_insert s.start now)
    unfolding examine
    examine-none (ok none) now s h = elim (Bool-cases (is_basis s now)) [
      | inl basis ↦ (
        refl,
        leb→le 3 (s.count + 1) (and_parts _ _ basis).0,
        leb→le unknown_oid_min_window _ (and_parts _ _ basis).1,
      )
      | inr short ↦ (let k = rw short at h in cc)
    ]
    examine-none (ok (some st)) now s h = elim (Bool-cases (is_terminal D st)) [
      | inl t ↦
          let e : (cross_check D st plan.symbol plan.side (some cloid) >>= λ _. ok (some st))
              ≡ ok none =
            (let k = rw t at h in cc) in
          let (_, _, same) = >>=-eq-ok (cross_check D st plan.symbol plan.side (some cloid)) _ e in
          cc
      | inr live ↦ (let k = rw live at h in cc)
    ]
    examine-none (err e) now s h = cc

    pub examine-some :
        (reply : Reconciled D) (now : ℕ) (s : Streak) (st : OrderStatusFill D)
        → examine D plan cloid reply now s ≡ concluded (ok (some st))
        → (reply ≡ ok (some st)) × IsTheOrder D plan st.oid cloid st
    unfolding examine
    examine-some (ok none) now s st h = elim (Bool-cases (is_basis s now)) [
      | inl basis ↦ (let k = rw basis at h in cc)
      | inr short ↦ (let k = rw short at h in cc)
    ]
    examine-some (ok (some other)) now s st h = elim (Bool-cases (is_terminal D other)) [
      | inl t ↦
          let e : (cross_check D other plan.symbol plan.side (some cloid) >>= λ _. ok (some other))
              ≡ ok (some st) =
            (let k = rw t at h in cc) in
          let (_, c, same) =
            >>=-eq-ok (cross_check D other plan.symbol plan.side (some cloid)) _ e in
          let is_st : other ≡ st = cc in
          (
            cc,
            subst (λ x. IsTheOrder D plan x.oid cloid x) is_st
                (cross_check-IsTheOrder D plan other cloid t c),
          )
      | inr live ↦ (let k = rw live at h in cc)
    ]
    examine-some (err e) now s st h = cc

    inconclusive-injective :
        {a b : Streak} → ◌≡◌ {A = Finding D} (inconclusive a) (inconclusive b) → a ≡ b
    inconclusive-injective h = cc

    pub examine-IsStreak :
        (n : ℕ) (s next : Streak) (reply : Reconciled D)
        → r.status n ≡ reply
        → IsStreak n s
        → examine D plan cloid reply (r.seen_at n) s ≡ inconclusive next
        → IsStreak (n + 1) next
    unfolding examine IsStreak
    examine-IsStreak n s next (ok none) e before h = elim (Bool-cases (is_basis s (r.seen_at n))) [
      | inl basis ↦ (let k = rw basis at h in cc)
      | inr short ↦
          let same : longer s (r.seen_at n) ≡ next = inconclusive-injective (rw short at h) in
          let (first, run) = longer-Running n s before e in
          inr (first, subst (λ x. Running (n + 1) x first) same run)
    ]
    examine-IsStreak n s next (ok (some st)) e before h = elim (Bool-cases (is_terminal D st)) [
      | inl t ↦ (let k = rw t at h in cc)
      | inr live ↦ inl (sym (inconclusive-injective (rw live at h)))
    ]
    examine-IsStreak n s next (err fault) e before h = inl (sym (inconclusive-injective h))
