-- ===== src/Trigger.antt =====
-- src/trigger.rs: the wait for a trigger. Durations and readings of the monotonic clock are
-- milliseconds, the readings counted from the start of the wait. Logs and the heartbeat's clock,
-- which only logs read, are left out.
pub mod Waiting
pub mod Deadlines
use hype_trigger_twap.Prelude.{
  ℕ, ◌+◌, ◌-◌, ◌&&◌, Bool, true, false, Option, none, some, List, [], ◌∷◌, Result, ok, err, ◌>>=◌,
  if◌then◌else◌, ltb, leb, is_none, is_some,
}
use hype_trigger_twap.Decimal.{DecimalApi, le}
use hype_trigger_twap.Types.{Symbol, OrderBook}
use hype_trigger_twap.Errors.{HlError, network}
use hype_trigger_twap.Client.Book.{ValidatedMarketSnapshot, validate}

pub data TriggerWhen : Type 0 where
  above below : TriggerWhen

-- `streak_exceeds_grace`
abbrev pub streak_exceeds_grace : ℕ → ℕ → Bool
streak_exceeds_grace streak_duration grace = ltb grace streak_duration

abbrev pub min_ms : ℕ → ℕ → ℕ
min_ms remaining sleep = if ltb remaining sleep then remaining else sleep

-- `saturating_duration_since`
abbrev pub until : Option ℕ → ℕ → ℕ → ℕ
until none now sleep = sleep
until (some deadline) now sleep = min_ms (deadline - now) sleep

module _ (D : DecimalApi) where
  open D use {Decimal}

  pub record TriggerConfig : Type 0 where
    pub price : Option (TriggerWhen × Decimal)
    pub start_after : Option ℕ
    pub poll_interval : ℕ
    pub max_book_age_ms : ℕ
    pub wait_network_grace : ℕ
    pub expire_after : Option ℕ

  unfoldable pub is_immediate : TriggerConfig → Bool
  is_immediate cfg = is_none cfg.price && is_none cfg.start_after

  unfoldable pub is_time_only : TriggerConfig → Bool
  is_time_only cfg = is_none cfg.price && is_some cfg.start_after

  pub data TriggerReason : Type 0 where
    immediate : TriggerReason
    price : TriggerWhen → Decimal → Decimal → ValidatedMarketSnapshot D → TriggerReason
    elapsed : ℕ → TriggerReason

  pub data TriggerOutcome : Type 0 where
    fired : TriggerReason → TriggerOutcome
    expired : ℕ → TriggerOutcome

  unfoldable pub price_condition_met : TriggerWhen → Decimal → Decimal → Bool
  price_condition_met above threshold mid = le D threshold mid
  price_condition_met below threshold mid = le D mid threshold

  -- What one iteration meets: the readings of the clock at its top, at a failure, at the test of
  -- the streak, at the test of expiry; the book, if it is asked for; the wall clock.
  pub record Tick : Type 0 where
    pub top : ℕ
    pub book : Result HlError (OrderBook D)
    pub wall_ms : ℕ
    pub failed_at : ℕ
    pub streak_at : ℕ
    pub expiry_at : ℕ

  -- How an iteration ends: the wait is over, or the streak that it leaves.
  pub data Turn : Type 0 where
    over : Result HlError TriggerOutcome → Turn
    waiting : Option ℕ → Turn

  abbrev pub time_is_up : Option ℕ → ℕ → Bool
  time_is_up none now = false
  time_is_up (some after) now = leb after now

  abbrev pub or_now : Option ℕ → ℕ → ℕ
  or_now none now = now
  or_now (some since) now = since

  -- The test of expiry, which comes last.
  abbrev pub check_expiry : Option ℕ → ℕ → Option ℕ → Turn
  check_expiry none now streak = waiting streak
  check_expiry (some after) now streak =
      if leb after now then over (ok (expired after)) else waiting streak

  -- A failed poll starts or extends the streak, which may be longer than the grace.
  abbrev pub failed_poll : TriggerConfig → Tick → ℕ → Turn
  failed_poll cfg t since =
      if streak_exceeds_grace (t.streak_at - since) cfg.wait_network_grace
      then over (err (network "trigger polling blind"))
      else check_expiry cfg.expire_after t.expiry_at (some since)

  unfoldable pub poll_price :
      TriggerConfig
      → Tick
      → Option ℕ
      → TriggerWhen
      → Decimal
      → Result HlError (ValidatedMarketSnapshot D)
      → Turn
  unfolding price_condition_met
  poll_price cfg t streak when threshold (ok snapshot) =
      if price_condition_met when threshold snapshot.mid
      then over (ok (fired (price when threshold snapshot.mid snapshot)))
      else check_expiry cfg.expire_after t.expiry_at none
  poll_price cfg t streak when threshold (err e) = failed_poll cfg t (or_now streak t.failed_at)

  -- The validated snapshot of a poll.
  abbrev pub polled : Symbol → TriggerConfig → Tick → Result HlError (ValidatedMarketSnapshot D)
  polled symbol cfg t = t.book >>= λ book. validate D book symbol cfg.max_book_age_ms t.wall_ms

  unfoldable pub check_price :
      Symbol → TriggerConfig → Tick → Option ℕ → Option (TriggerWhen × Decimal) → Turn
  unfolding poll_price validate
  check_price symbol cfg t streak none = check_expiry cfg.expire_after t.expiry_at streak
  check_price symbol cfg t streak (some (when, threshold)) =
      poll_price cfg t streak when threshold (polled symbol cfg t)

  abbrev pub or_zero : Option ℕ → ℕ
  or_zero none = 0
  or_zero (some n) = n

  -- One iteration of the loop.
  unfoldable pub turn : Symbol → TriggerConfig → Option ℕ → Tick → Turn
  unfolding check_price
  turn symbol cfg streak t =
      if time_is_up cfg.start_after t.top
      then over (ok (fired (elapsed (or_zero cfg.start_after))))
      else check_price symbol cfg t streak cfg.price

  -- The pause after an iteration, by the clock's reading `now`.
  unfoldable pub sleep_for : TriggerConfig → ℕ → ℕ
  sleep_for cfg now = until cfg.expire_after now (until cfg.start_after now cfg.poll_interval)

  -- The loop over the iterations that take place; `none` while it still waits.
  unfoldable pub wait_loop :
      Symbol → TriggerConfig → Option ℕ → List Tick → Option (Result HlError TriggerOutcome)
  unfolding turn
  wait_loop symbol cfg streak [] = none
  wait_loop symbol cfg streak (t ∷ ts) = elim (turn symbol cfg streak t) [
    | over r ↦ some r
    | waiting streak' ↦ wait_loop symbol cfg streak' ts
  ]

  unfoldable pub wait_for_trigger :
      Symbol → TriggerConfig → List Tick → Option (Result HlError TriggerOutcome)
  unfolding is_immediate wait_loop
  wait_for_trigger symbol cfg ts =
      if is_immediate cfg then some (ok (fired immediate)) else wait_loop symbol cfg none ts
