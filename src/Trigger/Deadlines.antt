-- ===== src/Trigger/Deadlines.antt =====
-- src/trigger.rs: a wait ends at its deadlines, is not overslept, and without a price condition
-- does not read the book.
use hype_trigger_twap.Prelude.{
  ℕ, ◌+◌, ◌-◌, ◌≤◌, ◌≡◌, refl, sym, ap, ◌∙◌, Bool, true, false, Option, none, some, is_some, List,
  [], ◌∷◌, ◌++◌, Result, ok, err, Bool-cases, inl, inr, ◌⊎◌, arith,
}
use hype_trigger_twap.Decimal.{DecimalApi}
use hype_trigger_twap.Types.{Symbol, OrderBook}
use hype_trigger_twap.Errors.{HlError}
use hype_trigger_twap.Client.Book.{ValidatedMarketSnapshot}
use hype_trigger_twap.Trigger.{
  TriggerConfig, TriggerWhen, price_condition_met, Tick, Turn, over, waiting, time_is_up,
  check_expiry, failed_poll, poll_price, polled, check_price, turn, wait_loop, sleep_for,
  streak_exceeds_grace, or_now, until,
}
use hype_trigger_twap.Trigger.Waiting.{Turn-cases}

-- A pause ends no later than a deadline that is still ahead, and is not longer than the pause asked.
until-le : (d : Option ℕ) (now sleep : ℕ) → until d now sleep ≤ sleep
until-le none now sleep = omega arith
until-le (some deadline) now sleep = ground arith

until-deadline :
    (deadline now sleep : ℕ) → now ≤ deadline → now + until (some deadline) now sleep ≤ deadline
until-deadline deadline now sleep h = ground arith

module _ (D : DecimalApi) (symbol : Symbol) (cfg : TriggerConfig D) where
  open D use {Decimal}

  -- The pause is not longer than the poll interval and ends by each deadline that is still ahead.
  pub sleep_for_bounds :
      (now : ℕ)
      → (sleep_for D cfg now ≤ cfg.poll_interval)
        × ((after : ℕ)
            → cfg.start_after ≡ some after
            → now ≤ after
            → now + sleep_for D cfg now ≤ after)
        × ((after : ℕ)
            → cfg.expire_after ≡ some after
            → now ≤ after
            → now + sleep_for D cfg now ≤ after)
  unfolding sleep_for
  sleep_for_bounds now =
      let inner : ℕ = until cfg.start_after now cfg.poll_interval in
      let outer_le = until-le cfg.expire_after now inner in
      let inner_le = until-le cfg.start_after now cfg.poll_interval in
      (
        omega arith,
        (λ after set ahead.
            let b : now + inner ≤ after =
              rw set (until-deadline after now cfg.poll_interval ahead) in
            omega arith),
        (λ after set ahead. rw set (until-deadline after now inner ahead)),
      )

  -- One of the two deadlines has come when the iteration tests for it.
  abbrev pub IsDue : Tick D → Type 0
  IsDue t =
      (time_is_up D cfg.start_after t.top ≡ true)
      ⊎ (time_is_up D cfg.expire_after t.expiry_at ≡ true)

  abbrev is_over : Turn D → Bool
  is_over (over r) = true
  is_over (waiting s) = false

  check_expiry-due :
      (e : Option ℕ) (now : ℕ) (streak : Option ℕ)
      → time_is_up D e now ≡ true
      → is_over (check_expiry D e now streak) ≡ true
  check_expiry-due none now streak h = cc
  check_expiry-due (some after) now streak h = rw h refl

  failed_poll-due :
      (t : Tick D) (since : ℕ)
      → time_is_up D cfg.expire_after t.expiry_at ≡ true
      → is_over (failed_poll D cfg t since) ≡ true
  failed_poll-due t since due =
      elim (Bool-cases (streak_exceeds_grace (t.streak_at - since) cfg.wait_network_grace)) [
        | inl blind ↦ rw blind refl
        | inr patient ↦ rw patient (check_expiry-due cfg.expire_after t.expiry_at (some since) due)
      ]

  poll_price-due :
      (t : Tick D) (streak : Option ℕ) (when : TriggerWhen) (threshold : Decimal)
      (s : Result HlError (ValidatedMarketSnapshot D))
      → time_is_up D cfg.expire_after t.expiry_at ≡ true
      → is_over (poll_price D cfg t streak when threshold s) ≡ true
  unfolding poll_price
  poll_price-due t streak when threshold (ok s) due =
      elim (Bool-cases (price_condition_met D when threshold s.mid)) [
        | inl met ↦ rw met refl
        | inr unmet ↦ rw unmet (check_expiry-due cfg.expire_after t.expiry_at none due)
      ]
  poll_price-due t streak when threshold (err e) due =
      failed_poll-due t (or_now D streak t.failed_at) due

  check_price-due :
      (t : Tick D) (streak : Option ℕ) (p : Option (TriggerWhen × Decimal))
      → time_is_up D cfg.expire_after t.expiry_at ≡ true
      → is_over (check_price D symbol cfg t streak p) ≡ true
  unfolding check_price
  check_price-due t streak none due = check_expiry-due cfg.expire_after t.expiry_at streak due
  check_price-due t streak (some (when, threshold)) due =
      poll_price-due t streak when threshold (polled D symbol cfg t) due

  turn-due :
      (t : Tick D) (streak : Option ℕ) → IsDue t → is_over (turn D symbol cfg streak t) ≡ true
  unfolding turn
  turn-due t streak due = elim (Bool-cases (time_is_up D cfg.start_after t.top)) [
    | inl now ↦ rw now refl
    | inr early ↦
        rw early
          (elim due [ inl now ↦ cc | inr expired ↦ check_price-due t streak cfg.price expired ])
  ]

  -- A wait is over with the first iteration that meets one of its deadlines, at the latest, whatever
  -- the polls brought before.
  pub wait_loop_ends :
      (streak : Option ℕ) (before : List (Tick D)) (t : Tick D)
      → IsDue t
      → is_some (wait_loop D symbol cfg streak (before ++ t ∷ [])) ≡ true
  unfolding wait_loop
  wait_loop_ends streak [] t due = elim (Turn-cases D symbol cfg (turn D symbol cfg streak t)) [
    | inl (r, e) ↦ rw (e, wait_loop) refl
    | inr (s, e) ↦ (let k = ap is_over (sym e) ∙ turn-due t streak due in cc)
  ]
  wait_loop_ends streak (b ∷ before) t due =
      elim (Turn-cases D symbol cfg (turn D symbol cfg streak b)) [
        | inl (r, e) ↦ rw (e, wait_loop) refl
        | inr (s, e) ↦ rw (e, wait_loop) (wait_loop_ends s before t due)
      ]

  -- The same iterations with other books.
  abbrev pub rebook : (Tick D → Result HlError (OrderBook D)) → List (Tick D) → List (Tick D)
  rebook f [] = []
  rebook f (t ∷ ts) = record t { book = f t } ∷ rebook f ts

  -- A wait without a price condition does not depend on any book.
  pub wait_loop-rebook :
      (f : Tick D → Result HlError (OrderBook D)) (streak : Option ℕ) (ts : List (Tick D))
      → cfg.price ≡ none
      → wait_loop D symbol cfg streak (rebook f ts) ≡ wait_loop D symbol cfg streak ts
  unfolding wait_loop turn check_price
  wait_loop-rebook f streak [] unpriced = refl
  wait_loop-rebook f streak (t ∷ ts) unpriced =
      let same : turn D symbol cfg streak (record t { book = f t }) ≡ turn D symbol cfg streak t =
        rw unpriced refl in
      elim (Turn-cases D symbol cfg (turn D symbol cfg streak t)) [
        | inl (r, e) ↦ rw (same, e, wait_loop) refl
        | inr (s, e) ↦ rw (same, e, wait_loop) (wait_loop-rebook f s ts unpriced)
      ]
