-- ===== src/Trigger/Waiting.antt =====
-- src/trigger.rs: why a wait ends, that it ends in time, and what it does not depend on.
use hype_trigger_twap.Prelude.{
  sym, ap, ◌++◌, ℕ, ◌-◌, ◌≤◌, ◌<◌, ◌≡◌, refl, Bool, true, false, Option, none, some, List, [], ◌∷◌,
  Result, ok, err, Bool-cases, inl, inr, ◌⊎◌, leb, arith,
}
use mathlib.Core.Option.{some-injective}
use mathlib.Core.Path.{subst}
use hype_trigger_twap.Decimal.{DecimalApi}
use hype_trigger_twap.Types.{Symbol}
use hype_trigger_twap.Errors.{HlError}
use hype_trigger_twap.Client.Book.{ValidatedMarketSnapshot}
use hype_trigger_twap.Trigger.{
  TriggerConfig, immediate, price, elapsed, TriggerOutcome, fired, expired, TriggerWhen,
  price_condition_met, Tick, Turn, over, waiting, time_is_up, or_zero, check_expiry, failed_poll,
  poll_price, polled, check_price, turn, wait_loop, streak_exceeds_grace, or_now,
}

module _ (D : DecimalApi) (symbol : Symbol) (cfg : TriggerConfig D) where
  open D use {Decimal}

  -- The price condition gave no trigger: there is none, or the poll failed, or the trusted book did
  -- not satisfy it.
  abbrev pub IsUntriggered : Tick D → Option (TriggerWhen × Decimal) → Type 0
  IsUntriggered t none = Unit
  IsUntriggered t (some (when, threshold)) =
      ((reason : HlError) × (polled D symbol cfg t ≡ err reason))
      ⊎ ((snapshot : ValidatedMarketSnapshot D) × (polled D symbol cfg t ≡ ok snapshot)
          × (price_condition_met D when threshold snapshot.mid ≡ false))

  -- What an outcome says of the iteration that it came from, where the failures before it began at
  -- the time `run`, if the iterations before it ended with failures.
  abbrev pub Explains : Option ℕ → Tick D → Result HlError (TriggerOutcome D) → Type 0
  Explains run t (ok (fired immediate)) = Path Bool true false
  Explains run t (ok (fired (elapsed after))) = (cfg.start_after ≡ some after) × (after ≤ t.top)
  Explains run t (ok (fired (price when threshold mid snapshot))) =
      (cfg.price ≡ some (when, threshold))
      × (polled D symbol cfg t ≡ ok snapshot)
      × (mid ≡ snapshot.mid)
      × (price_condition_met D when threshold mid ≡ true)
      × (time_is_up D cfg.start_after t.top ≡ false)
  Explains run t (ok (expired after)) =
      (cfg.expire_after ≡ some after)
      × (after ≤ t.expiry_at)
      × (time_is_up D cfg.start_after t.top ≡ false)
      × IsUntriggered t cfg.price
  Explains run t (err e) =
      (reason : HlError) × (polled D symbol cfg t ≡ err reason)
      × (cfg.wait_network_grace < t.streak_at - or_now D run t.failed_at)

  abbrev after_poll :
      Option (TriggerWhen × Decimal)
      → Result HlError (ValidatedMarketSnapshot D)
      → Option ℕ
      → ℕ
      → Option ℕ
  after_poll none reply run now = run
  after_poll (some p) (ok snapshot) run now = none
  after_poll (some p) (err e) run now = some (or_now D run now)

  -- When the failures began that these iterations end with, if they end with failures: a trusted
  -- book clears the time, and the first failure after it sets the time again.
  unfoldable pub streak_after : Option ℕ → List (Tick D) → Option ℕ
  streak_after run [] = run
  streak_after run (t ∷ ts) =
      streak_after (after_poll cfg.price (polled D symbol cfg t) run t.failed_at) ts

  over-injective :
      {a b : Result HlError (TriggerOutcome D)} → ◌≡◌ {A = Turn D} (over a) (over b) → a ≡ b
  over-injective h = cc

  check_expiry-over :
      (e : Option ℕ) (now : ℕ) (streak : Option ℕ) {r : Result HlError (TriggerOutcome D)}
      → check_expiry D e now streak ≡ over r
      → (after : ℕ) × (e ≡ some after) × (after ≤ now) × (ok (expired after) ≡ r)
  check_expiry-over none now streak h = cc
  check_expiry-over (some after) now streak h = elim (Bool-cases (leb after now)) [
    | inl due ↦ (after, refl, ground arith, (let k = rw due at h in cc))
    | inr early ↦ (let k = rw early at h in cc)
  ]

  expiry-Explains :
      (run : Option ℕ) (t : Tick D) (streak : Option ℕ) {r : Result HlError (TriggerOutcome D)}
      → time_is_up D cfg.start_after t.top ≡ false
      → IsUntriggered t cfg.price
      → check_expiry D cfg.expire_after t.expiry_at streak ≡ over r
      → Explains run t r
  expiry-Explains run t streak early no_price h =
      let (after, set, due, is_r) = check_expiry-over cfg.expire_after t.expiry_at streak h in
      subst (Explains run t) is_r (set, due, early, no_price)

  failed_poll-Explains :
      (run : Option ℕ) (t : Tick D) (p : TriggerWhen × Decimal) {reason : HlError}
      {r : Result HlError (TriggerOutcome D)}
      → cfg.price ≡ some p
      → polled D symbol cfg t ≡ err reason
      → time_is_up D cfg.start_after t.top ≡ false
      → failed_poll D cfg t (or_now D run t.failed_at) ≡ over r
      → Explains run t r
  failed_poll-Explains run t p {reason} set got early h =
      let since : ℕ = or_now D run t.failed_at in
      elim (Bool-cases (streak_exceeds_grace (t.streak_at - since) cfg.wait_network_grace)) [
        | inl blind ↦
            subst (Explains run t) (over-injective (rw blind at h)) (reason, got, ground arith)
        | inr patient ↦
            expiry-Explains run t (some since) early
              (subst (IsUntriggered t) (sym set) (inl (reason, got))) (rw patient at h)
      ]

  poll_price-Explains :
      (t : Tick D) (streak : Option ℕ) (when : TriggerWhen) (threshold : Decimal)
      (snapshot : Result HlError (ValidatedMarketSnapshot D))
      {r : Result HlError (TriggerOutcome D)}
      → cfg.price ≡ some (when, threshold)
      → polled D symbol cfg t ≡ snapshot
      → time_is_up D cfg.start_after t.top ≡ false
      → poll_price D cfg t streak when threshold snapshot ≡ over r
      → Explains streak t r
  unfolding poll_price
  poll_price-Explains t streak when threshold (ok s) set got early h =
      elim (Bool-cases (price_condition_met D when threshold s.mid)) [
        | inl met ↦
            subst (Explains streak t) (over-injective (rw met at h)) (set, got, refl, met, early)
        | inr unmet ↦
            expiry-Explains streak t none early
              (subst (IsUntriggered t) (sym set) (inr (s, got, unmet))) (rw unmet at h)
      ]
  poll_price-Explains t streak when threshold (err e) set got early h =
      failed_poll-Explains streak t (when, threshold) set got early h

  check_price-Explains :
      (t : Tick D) (streak : Option ℕ) (p : Option (TriggerWhen × Decimal))
      {r : Result HlError (TriggerOutcome D)}
      → cfg.price ≡ p
      → time_is_up D cfg.start_after t.top ≡ false
      → check_price D symbol cfg t streak p ≡ over r
      → Explains streak t r
  unfolding check_price
  check_price-Explains t streak none set early h =
      expiry-Explains streak t streak early (subst (IsUntriggered t) (sym set) tt) h
  check_price-Explains t streak (some (when, threshold)) set early h =
      poll_price-Explains t streak when threshold _ set refl early h

  elapsed-Explains :
      (run : Option ℕ) (t : Tick D) (start : Option ℕ)
      → cfg.start_after ≡ start
      → time_is_up D start t.top ≡ true
      → Explains run t (ok (fired (elapsed (or_zero D start))))
  elapsed-Explains run t none set due = cc
  elapsed-Explains run t (some after) set due = (set, ground arith)

  turn-Explains :
      (t : Tick D) (streak : Option ℕ) {r : Result HlError (TriggerOutcome D)}
      → turn D symbol cfg streak t ≡ over r
      → Explains streak t r
  unfolding turn
  turn-Explains t streak h = elim (Bool-cases (time_is_up D cfg.start_after t.top)) [
    | inl due ↦
        subst (Explains streak t) (over-injective (rw due at h))
          (elapsed-Explains streak t cfg.start_after refl due)
    | inr early ↦ check_price-Explains t streak cfg.price refl early (rw early at h)
  ]

  pub Turn-cases :
      (v : Turn D)
      → ((r : Result HlError (TriggerOutcome D)) × (v ≡ over r))
        ⊎ ((s : Option ℕ) × (v ≡ waiting s))
  Turn-cases (over r) = inl (r, refl)
  Turn-cases (waiting s) = inr (s, refl)

  check_expiry-waiting :
      (e : Option ℕ) (now : ℕ) (streak : Option ℕ) {next : Option ℕ}
      → check_expiry D e now streak ≡ waiting next
      → streak ≡ next
  check_expiry-waiting none now streak h = cc
  check_expiry-waiting (some after) now streak h = elim (Bool-cases (leb after now)) [
    | inl due ↦ (let k = rw due at h in cc)
    | inr early ↦ (let k = rw early at h in cc)
  ]

  poll_price-waiting :
      (t : Tick D) (streak : Option ℕ) (when : TriggerWhen) (threshold : Decimal)
      (s : Result HlError (ValidatedMarketSnapshot D)) {next : Option ℕ}
      → poll_price D cfg t streak when threshold s ≡ waiting next
      → after_poll (some (when, threshold)) s streak t.failed_at ≡ next
  unfolding poll_price
  poll_price-waiting t streak when threshold (ok s) h =
      elim (Bool-cases (price_condition_met D when threshold s.mid)) [
        | inl met ↦ (let k = rw met at h in cc)
        | inr unmet ↦ check_expiry-waiting cfg.expire_after t.expiry_at none (rw unmet at h)
      ]
  poll_price-waiting t streak when threshold (err e) h =
      let since : ℕ = or_now D streak t.failed_at in
      elim (Bool-cases (streak_exceeds_grace (t.streak_at - since) cfg.wait_network_grace)) [
        | inl blind ↦ (let k = rw blind at h in cc)
        | inr patient ↦
            check_expiry-waiting cfg.expire_after t.expiry_at (some since) (rw patient at h)
      ]

  check_price-waiting :
      (t : Tick D) (streak : Option ℕ) (p : Option (TriggerWhen × Decimal)) {next : Option ℕ}
      → check_price D symbol cfg t streak p ≡ waiting next
      → after_poll p (polled D symbol cfg t) streak t.failed_at ≡ next
  unfolding check_price
  check_price-waiting t streak none h = check_expiry-waiting cfg.expire_after t.expiry_at streak h
  check_price-waiting t streak (some (when, threshold)) h =
      poll_price-waiting t streak when threshold (polled D symbol cfg t) h

  turn-waiting :
      (t : Tick D) (streak : Option ℕ) {next : Option ℕ}
      → turn D symbol cfg streak t ≡ waiting next
      → after_poll cfg.price (polled D symbol cfg t) streak t.failed_at ≡ next
  unfolding turn
  turn-waiting t streak h = elim (Bool-cases (time_is_up D cfg.start_after t.top)) [
    | inl due ↦ (let k = rw due at h in cc)
    | inr early ↦ check_price-waiting t streak cfg.price (rw early at h)
  ]

  -- The outcome of a wait is explained by one of its iterations: the time had come; or it had not
  -- and the polled book, trusted, satisfied the price condition at its mid; or the time had not come,
  -- no price condition held of this poll, and the expiry had come; or this poll failed, and since the first of the failures that led to it without
  -- a trusted book between them more than the grace had passed.
  pub wait_loop-Explains :
      (streak : Option ℕ) (ts : List (Tick D)) {r : Result HlError (TriggerOutcome D)}
      → wait_loop D symbol cfg streak ts ≡ some r
      → (before : List (Tick D)) × (t : Tick D) × (after : List (Tick D)) × (ts
          ≡ before ++ t ∷ after)
        × Explains (streak_after streak before) t r
  unfolding wait_loop streak_after
  wait_loop-Explains streak [] h = cc
  wait_loop-Explains streak (t ∷ ts) {r} h = elim (Turn-cases (turn D symbol cfg streak t)) [
    | inl (r', e) ↦ (
      [],
      t,
      ts,
      refl,
      subst (Explains streak t) (some-injective _ _ (rw (e, wait_loop) at h))
          (turn-Explains t streak e),
    )
    | inr (s, e) ↦
        let (before, u, after, split, why) = wait_loop-Explains s ts (rw (e, wait_loop) at h) in
        (
          t ∷ before,
          u,
          after,
          ap (λ us. t ∷ us) split,
          subst (λ k. Explains (streak_after k before) u r) (sym (turn-waiting t streak e)) why,
        )
  ]
