-- ===== src/Twap/Reconcile.antt =====
-- src/twap.rs: `reconcile_by_cloid`, which finds out whether the exchange holds an order whose send
-- was ambiguous. The replies and the instants (in milliseconds) at which they arrive are given.
pub mod Streaks
pub mod Outcome
pub mod Absence
use hype_trigger_twap.Prelude.{
  ℕ, zero, suc, ◌+◌, ◌-◌, Option, none, some, Bool, true, false, ◌&&◌, Result, ok, err, ◌>>=◌, leb,
  if◌then◌else◌,
}
use hype_trigger_twap.Decimal.{DecimalApi}
use hype_trigger_twap.Types.{Cloid}
use hype_trigger_twap.Errors.{HlError, invalid_response}
use hype_trigger_twap.Client.Status.{OrderStatusFill, cross_check, is_terminal}
use hype_trigger_twap.Twap.Settle.{SettlePlan}

abbrev pub unknown_oid_min_consecutive : ℕ
unknown_oid_min_consecutive = 3

abbrev pub unknown_oid_min_window : ℕ
unknown_oid_min_window = 2000

abbrev pub unknown_oid_poll_interval : ℕ
unknown_oid_poll_interval = 1100

abbrev pub unknown_oid_max_attempts : ℕ
unknown_oid_max_attempts = 8

-- `streak_start` and `streak_count`
pub record Streak : Type 0 where
  pub start : Option ℕ
  pub count : ℕ

abbrev pub no_streak : Streak
no_streak = record { start = none; count = 0 }

abbrev pub get_or_insert : Option ℕ → ℕ → ℕ
get_or_insert none now = now
get_or_insert (some start) now = start

module _ (D : DecimalApi) where
  -- `status n` answers the query of attempt `n`, and arrives at `seen_at n`.
  pub record Replies : Type 0 where
    pub status : ℕ → Result HlError (Option (OrderStatusFill D))
    pub seen_at : ℕ → ℕ

  abbrev pub Reconciled : Type 0
  Reconciled = Result HlError (Option (OrderStatusFill D))

  -- What one reply brings: the result, or the streak to go on with.
  pub data Finding : Type 0 where
    concluded : Reconciled → Finding
    inconclusive : Streak → Finding

  unfoldable pub examine : SettlePlan → Cloid → Reconciled → ℕ → Streak → Finding
  examine plan cloid (ok (some st)) now s =
      if is_terminal D st
      then concluded (cross_check D st plan.symbol plan.side (some cloid) >>= λ _. ok (some st))
      else inconclusive no_streak
  examine plan cloid (ok none) now s =
      let count = s.count + 1 in
      let start = get_or_insert s.start now in
      if leb unknown_oid_min_consecutive count && leb unknown_oid_min_window (now - start)
      then concluded (ok none)
      else inconclusive (record { start = some start; count = count })
  examine plan cloid (err e) now s = inconclusive no_streak

  -- The loop with `left` attempts to go.
  unfoldable pub reconcile_from : Replies → SettlePlan → Cloid → ℕ → ℕ → Streak → Reconciled
  reconcile_from r plan cloid zero attempt s = err (invalid_response "no safe-resend basis")
  reconcile_from r plan cloid (suc left) attempt s =
      elim (examine plan cloid (r.status attempt) (r.seen_at attempt) s) [
        | concluded result ↦ result
        | inconclusive next ↦ reconcile_from r plan cloid left (attempt + 1) next
      ]

  unfoldable pub reconcile_by_cloid : Replies → SettlePlan → Cloid → Reconciled
  reconcile_by_cloid r plan cloid = reconcile_from r plan cloid unknown_oid_max_attempts 0 no_streak
