-- ===== src/Examples/Waits.antt =====
-- src/twap.rs, src/trigger.rs: settling an order, and waiting for a trigger.
use hype_trigger_twap.Prelude.{
  List, ◌++◌, ℕ, zero, suc, ◌≢◌, ◌⊎◌, ◌+◌, ◌-◌, ◌*◌, ◌≤◌, ◌<◌, ◌≡◌, refl, arith, Option, none, some,
  is_some, Bool, true, false, [], ◌∷◌, Result, ok, err, inl,
}
use hype_trigger_twap.Prelude.Text.{
  to_ascii_lowercase, starts_with, replace, replace_from, codes_eq,
}
use hype_trigger_twap.Decimal.{from_nat, le, eq}
use hype_trigger_twap.Decimal.Fixed.{fixed}
use hype_trigger_twap.Types.{long, gtc, OrderIntent}
use hype_trigger_twap.Errors.{HlError, network, invalid_response}
use hype_trigger_twap.Client.Status.{
  OrderStatusFill, UserFill, is_terminal, is_terminal_order_status, normalise_status, cross_check,
}
use hype_trigger_twap.Twap.Schedule.{
  order_status_retry_delay_settle, slice_deadline, order_status_retry_delay_settle_lem,
  slice_deadline_schedule, capped_doubling,
}
use hype_trigger_twap.Twap.Ledger.{
  SliceOutcome, matching, check_fill, add_fill, add_fills, aggregate_verified_user_fills,
}
use hype_trigger_twap.Twap.Ledger.Totals.{AllChecked, aggregate_verified_user_fills_complete}
use hype_trigger_twap.Twap.Settle.{
  SettlePlan, World, settled, pending, cancelled, send, judge, accept_terminal, poll_from,
  poll_terminal_status, recover_resting_fill,
}
use hype_trigger_twap.Twap.Settle.Polling.{IsTheOrder, verdict}
use hype_trigger_twap.Twap.Settle.Outcome.{
  poll_terminal_status_first, poll_terminal_status_none, recover_resting_fill-IsTheOrder,
}
use hype_trigger_twap.Trigger.{TriggerConfig, fired, elapsed, Tick, turn, wait_loop, check_price}
use hype_trigger_twap.Trigger.Waiting.{Explains, streak_after, wait_loop-Explains}
use hype_trigger_twap.Trigger.Deadlines.{wait_loop_ends, rebook, wait_loop-rebook}

abbrev plan : SettlePlan
plan = record { symbol = "HYPE"; side = long; settle_retries = 3; master = some "0xmaster" }

abbrev intent : OrderIntent fixed
intent = record {
  cloid = 7;
  symbol = "HYPE";
  side = long;
  px = from_nat fixed 2;
  sz = from_nat fixed 10;
  tif = gtc;
  reduce_only = false;
}

abbrev done : OrderStatusFill fixed
done = record {
  filled_sz = from_nat fixed 10;
  avg_px = some (from_nat fixed 1);
  status = "filled";
  oid = 5;
  cloid = some 7;
  coin = "HYPE";
  side = "B";
}

-- The exchange fails once, and then reports the order as filled.
abbrev reply : ℕ → Result HlError (Option (OrderStatusFill fixed))
reply zero = err (network "timeout")
reply (suc n) = ok (some done)

abbrev world : World fixed
world = record {
  status = reply;
  first_cancel = ok tt;
  cancel = λ _. ok tt;
  ledger = λ _ _. ok [];
  cancel_started_ms = 0;
  cancel_settled_ms = 0;
}

-- An exchange that never knows the order.
abbrev silent : World fixed
silent = record world { status = λ _. ok none }

second_settles : verdict fixed world plan 5 7 1 ≡ settled (ok done)
unfolding judge accept_terminal cross_check is_terminal is_terminal_order_status normalise_status
    to_ascii_lowercase starts_with replace replace_from codes_eq
second_settles = refl

first_waits : (i : ℕ) → i < 1 → verdict fixed world plan 5 7 i ≡ pending
unfolding judge
first_waits i h = (let z : i ≡ 0 = omega arith in rw z refl)

poll_terminal_status_first_example :
    (poll_terminal_status fixed world plan 5 7 (some cancelled)).result ≡ ok done
poll_terminal_status_first_example =
    poll_terminal_status_first fixed world plan 5 7 1 (some cancelled) (omega arith) first_waits
      second_settles

all_wait : (i : ℕ) → i < 3 → verdict fixed silent plan 5 7 i ≡ pending
unfolding judge
all_wait i h = refl

poll_terminal_status_none_example :
    ((poll_terminal_status fixed silent plan 5 7 none).result
      ≡ err (invalid_response "no terminal status"))
    × ((poll_terminal_status fixed silent plan 5 7 none).slept_ms ≤ (3 - 1) * 15000)
poll_terminal_status_none_example = poll_terminal_status_none fixed silent plan 5 7 none all_wait

recovered : recover_resting_fill fixed world plan 7 5 intent ≡ ok done
unfolding recover_resting_fill poll_terminal_status poll_from send judge accept_terminal cross_check
    is_terminal is_terminal_order_status normalise_status to_ascii_lowercase starts_with replace
    replace_from codes_eq order_status_retry_delay_settle
recovered = refl

recover_resting_fill-IsTheOrder_example : IsTheOrder fixed plan 5 7 done
recover_resting_fill-IsTheOrder_example =
    recover_resting_fill-IsTheOrder fixed world plan 5 7 intent recovered

abbrev row : UserFill fixed
row = record {
  coin = "HYPE";
  px = from_nat fixed 1;
  sz = from_nat fixed 10;
  side = "B";
  time_ms = 1;
  oid = 5;
  tid = 1;
  cloid = some 7;
}

abbrev total : SliceOutcome fixed
total = record { sz = from_nat fixed 10; px = from_nat fixed 1 }

aggregated : aggregate_verified_user_fills fixed (row ∷ []) intent 5 true ≡ ok total
unfolding aggregate_verified_user_fills matching add_fills add_fill check_fill
aggregated = refl

aggregate_verified_user_fills_complete_example :
    (◌≡◌ {A = Bool} true true)
    × (eq fixed total.sz intent.sz ≡ true)
    × (le fixed total.sz (from_nat fixed 0) ≡ false)
    × AllChecked fixed intent (matching fixed 5 (row ∷ []))
aggregate_verified_user_fills_complete_example =
    aggregate_verified_user_fills_complete fixed intent (row ∷ []) 5 true aggregated

-- A wait by time alone, of a minute with a poll each ten seconds.
abbrev config : TriggerConfig fixed
config = record {
  price = none;
  start_after = some 60000;
  poll_interval = 10000;
  max_book_age_ms = 5000;
  wait_network_grace = 1800000;
  expire_after = none;
}

abbrev tick : ℕ → Tick fixed
tick now = record {
  top = now;
  book = err (network "not asked");
  wall_ms = 0;
  failed_at = now;
  streak_at = now;
  expiry_at = now;
}

time_fires :
    wait_loop fixed "HYPE" config none (tick 50000 ∷ tick 60000 ∷ [])
    ≡ some (ok (fired (elapsed 60000)))
unfolding wait_loop turn check_price
time_fires = refl

wait_loop-Explains_example :
    (before : List (Tick fixed)) × (t : Tick fixed) × (after : List (Tick fixed)) × (tick 50000
        ∷ tick 60000
        ∷ []
      ≡ before ++ t ∷ after)
    × Explains fixed "HYPE" config
        (streak_after fixed "HYPE" config none before)
        t
        (ok (fired (elapsed 60000)))
wait_loop-Explains_example =
    wait_loop-Explains fixed "HYPE" config none (tick 50000 ∷ tick 60000 ∷ []) time_fires

wait_loop_ends_example :
    is_some (wait_loop fixed "HYPE" config none (tick 50000 ∷ tick 60000 ∷ [])) ≡ true
wait_loop_ends_example =
    wait_loop_ends fixed "HYPE" config none (tick 50000 ∷ []) (tick 60000) (inl refl)

wait_loop-rebook_example :
    wait_loop fixed "HYPE" config none
      (rebook fixed "HYPE" config (λ _. err (network "down")) (tick 50000 ∷ []))
    ≡ wait_loop fixed "HYPE" config none (tick 50000 ∷ [])
wait_loop-rebook_example =
    wait_loop-rebook fixed "HYPE" config (λ _. err (network "down")) none (tick 50000 ∷ []) refl

slice_deadline_schedule_example :
    (slice_deadline 100 60000 1 4 ≤ slice_deadline 100 60000 3 4)
    × (slice_deadline 100 60000 4 4 ≡ 100 + 60000)
slice_deadline_schedule_example =
    slice_deadline_schedule 100 60000 4 1 3 (omega arith) (omega arith) (omega arith)

order_status_retry_delay_settle_lem_example :
    ((◌≢◌ {A = ℕ} 62 62)
      → (◌≢◌ {A = ℕ} 62 63)
      → order_status_retry_delay_settle 62 ≡ capped_doubling 62)
    × ((◌≡◌ {A = ℕ} 62 62) ⊎ (◌≡◌ {A = ℕ} 62 63) → order_status_retry_delay_settle 62 ≡ 0)
order_status_retry_delay_settle_lem_example = order_status_retry_delay_settle_lem 62
