-- ===== src/Examples/Placing.antt =====
-- src/twap.rs: the placing of a slice, and the reconciliation of an ambiguous send.
use hype_trigger_twap.Prelude.{
  ℕ, zero, suc, ◌+◌, ◌*◌, ◌≤◌, ◌<◌, ◌≡◌, refl, sym, arith, Option, none, some, Bool, true, false,
  List, [], All, Result, ok, err, inl,
}
use mathlib.Core.List.{append-nil}
use hype_trigger_twap.Prelude.Text.{
  to_ascii_lowercase, starts_with, replace, replace_from, codes_eq,
}
use hype_trigger_twap.Prelude.Runs.{Follows, Trace}
use hype_trigger_twap.Decimal.Fixed.{pos}
use hype_trigger_twap.Decimal.Unary.{unary, unary_laws, read-print}
use hype_trigger_twap.Types.{long, ioc, OrderIntent}
use hype_trigger_twap.Errors.{HlError, network}
use hype_trigger_twap.Client.Fill.{PlaceOutcome, filled}
use hype_trigger_twap.Journal.Records.{JournalRecord}
use hype_trigger_twap.Client.Status.{
  OrderStatusFill, is_terminal, is_terminal_order_status, normalise_status, cross_check,
}
use hype_trigger_twap.Journal.Replay.{empty_state}
use hype_trigger_twap.Journal.Replay.Transitions.Closing.{replay_from}
use hype_trigger_twap.Twap.Settle.{SettlePlan, World}
use hype_trigger_twap.Twap.Reconcile.{
  Replies, examine, reconcile_from, reconcile_by_cloid, unknown_oid_poll_interval,
}
use hype_trigger_twap.Twap.Reconcile.Streaks.{SafeResendBasis}
use hype_trigger_twap.Twap.Reconcile.Outcome.{
  IsAdopted, reconcile_by_cloid-SafeResendBasis, reconcile_by_cloid-IsAdopted,
}
use hype_trigger_twap.Twap.Reconcile.Absence.{IsReset, reconcile_by_cloid_absent}
use hype_trigger_twap.Twap.Place.{Event, SliceCall, Surroundings, place_slice_reconciled}
use hype_trigger_twap.Twap.Place.Contract.{SliceState, idle, SliceStep, IsReported}
use hype_trigger_twap.Twap.Place.Refinement.{place_slice_reconciled-Follows}
use hype_trigger_twap.Twap.Place.Sends.{
  sends, IsJustified, place_slice_reconciled-sends, place_slice_reconciled-IsJustified,
}
use hype_trigger_twap.Twap.Place.Taken.{TakenInto}
use hype_trigger_twap.Twap.Place.Acceptance.{Awaits, records, place_slice_reconciled-TakenInto}

abbrev pub plan : SettlePlan
plan = record { symbol = "HYPE"; side = long; settle_retries = 3; master = some "0xmaster" }

abbrev order : OrderIntent unary
order = record {
  cloid = 7;
  symbol = "HYPE";
  side = long;
  px = pos 2;
  sz = pos 5;
  tif = ioc;
  reduce_only = false;
}

-- An exchange that denies the order; one that fails first; and one that has filled it.
abbrev pub denials : Replies unary
denials = record { status = λ _. ok none; seen_at = λ n. 1100 * n }

abbrev status_late : ℕ → Result HlError (Option (OrderStatusFill unary))
status_late zero = err (network "timeout")
status_late (suc n) = ok none

abbrev late_denials : Replies unary
late_denials = record { status = status_late; seen_at = λ n. 1100 * n }

abbrev done : OrderStatusFill unary
done = record {
  filled_sz = pos 5;
  avg_px = some (pos 1);
  status = "filled";
  oid = 5;
  cloid = some 7;
  coin = "HYPE";
  side = "B";
}

abbrev known : Replies unary
known = record { status = λ _. ok (some done); seen_at = λ n. 1100 * n }

denied : reconcile_by_cloid unary denials plan 7 ≡ ok none
unfolding reconcile_by_cloid reconcile_from examine
denied = refl

found : reconcile_by_cloid unary known plan 7 ≡ ok (some done)
unfolding reconcile_by_cloid reconcile_from examine cross_check is_terminal is_terminal_order_status
    normalise_status to_ascii_lowercase starts_with replace replace_from codes_eq
found = refl

reconcile_by_cloid-SafeResendBasis_example :
    (first : ℕ) × (last : ℕ) × SafeResendBasis unary denials first last
reconcile_by_cloid-SafeResendBasis_example =
    reconcile_by_cloid-SafeResendBasis unary denials plan 7 denied

reconcile_by_cloid-IsAdopted_example : (n : ℕ) × IsAdopted unary known plan 7 n done
reconcile_by_cloid-IsAdopted_example = reconcile_by_cloid-IsAdopted unary known plan 7 done found

late-IsReset : (i : ℕ) → i < 1 → IsReset unary (late_denials.status i)
late-IsReset zero h = inl (network "timeout", refl)
late-IsReset (suc i) h = absurd (omega arith)

late_denied : (i : ℕ) → 1 ≤ i → i ≤ 1 + 2 → late_denials.status i ≡ ok none
late_denied zero h k = absurd (omega arith)
late_denied (suc i) h k = refl

late_interval :
    (n : ℕ) → late_denials.seen_at n + unknown_oid_poll_interval ≤ late_denials.seen_at (n + 1)
late_interval n = omega arith

reconcile_by_cloid_absent_example : reconcile_by_cloid unary late_denials plan 7 ≡ ok none
reconcile_by_cloid_absent_example =
    reconcile_by_cloid_absent unary late_denials plan 7 1 4 refl late-IsReset late_denied
      late_interval

abbrev pub accept_all : JournalRecord → Bool
accept_all r = true

abbrev pub call : SliceCall unary
call = record {
  plan = plan;
  reduce_only = false;
  intent = order;
  deadline = record { monotonic = 60000; expires_after_ms = 60000 };
  slice_idx = 1;
  sink = some accept_all;
  position_guard = none;
}

abbrev pub settling : World unary
settling = record {
  status = λ _. ok (some done);
  first_cancel = ok tt;
  cancel = λ _. ok tt;
  ledger = λ _ _. ok [];
  cancel_started_ms = 0;
  cancel_settled_ms = 0;
}

-- The first send is lost, the second fills.
abbrev lost_once : ℕ → Result HlError (PlaceOutcome unary)
lost_once zero = err (network "reset")
lost_once (suc n) = ok (filled 5 (pos 5) (pos 1))

abbrev pub world : Surroundings unary
world = record {
  started_at = 0;
  looped_at = λ n. 5000 * n;
  position = λ _. ok (pos 0);
  guarded_at = λ n. 5000 * n + 10;
  shutdown_before_send = λ _. false;
  place = lost_once;
  settling = λ _. settling;
  replies = λ _. denials;
  probe = ok none;
  shutdown_after_reconcile = λ _. false;
  reconciled_at = λ n. 5000 * n + 4000;
}

place_slice_reconciled-Follows_example :
    Follows
      (SliceStep unary call world)
      idle
      (place_slice_reconciled unary call world)
      (IsReported unary call world)
place_slice_reconciled-Follows_example =
    place_slice_reconciled-Follows unary unary_laws call world accept_all refl

place_slice_reconciled-sends_example : sends (place_slice_reconciled unary call world).events ≤ 3
place_slice_reconciled-sends_example =
    place_slice_reconciled-sends unary unary_laws call world accept_all refl

place_slice_reconciled-IsJustified_example :
    All (IsJustified unary call world) (place_slice_reconciled unary call world).events
place_slice_reconciled-IsJustified_example =
    place_slice_reconciled-IsJustified unary unary_laws call world accept_all refl

abbrev logged : List Event
logged = (place_slice_reconciled unary call world).events

awaits : Awaits unary unary_laws call world read-print refl refl (empty_state unary)
awaits = record { going = refl; unfinished = refl; unprepared = refl; uncredited = refl }

place_slice_reconciled-TakenInto_example :
    (state : SliceState) × Trace (SliceStep unary call world) idle logged state
    × TakenInto unary unary_laws call world read-print refl refl state
        (replay_from unary 1 (records logged) (empty_state unary))
place_slice_reconciled-TakenInto_example =
    place_slice_reconciled-TakenInto unary unary_laws call world read-print refl refl accept_all
      refl (empty_state unary) 1 awaits logged [] (sym (append-nil logged))
