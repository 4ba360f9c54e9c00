-- ===== src/Twap/Place/Refinement.antt =====
-- src/twap.rs: `place_slice_reconciled` with a journal keeps to its contract.
use hype_trigger_twap.Prelude.{
  ℕ, zero, suc, ◌+◌, ◌<◌, ◌≡◌, refl, arith, Option, none, some, Bool, true, false, Result, ok, err,
  String, if◌then◌else◌, sym,
}
use mathlib.Core.Path.{subst}
use hype_trigger_twap.Prelude.Runs.{
  Follows, follows-lift, follows-pure, follows-error, follows-emit, follows_bind, lift, emit, ◌>>◌,
}
use hype_trigger_twap.Decimal.{DecimalApi, from_nat}
use hype_trigger_twap.Decimal.Laws.{DecimalLaws}
use hype_trigger_twap.Errors.{HlError, network, invalid_response}
use hype_trigger_twap.Journal.Records.{JournalRecord}
use hype_trigger_twap.Twap.Schedule.{deadline_gate}
use hype_trigger_twap.Twap.Place.{
  Placing, wrote, sent, record_in, PositionTargetGuard, SliceCall, Surroundings, PlaceSliceOutcome,
  position_target_reached, shutdown_requested, Attempt, finished, absent, prepared_record,
  terminal_record, place_resend_limit, close_unfilled, position_check, handle_reply, send_once,
  attempt_once, place_from, unless_absent, place_slice_reconciled,
}
use hype_trigger_twap.Twap.Place.Contract.{
  SliceState, idle, ready, unresolved, closed, IsShort, MaySend, IsAbsent, SliceStep, prepare,
  send_first, send_again, close_unsent, close_absent, IsReported, After, AtLoop, at_first,
  at_resend, AtReply, first_reply, later_reply,
}
use hype_trigger_twap.Journal.Replay.{is_valid_journal_terminal_status}
use hype_trigger_twap.Twap.Place.Closing.{
  valid_never_received, valid_target_reached, record_in-Follows, close-Follows,
  close_and_fail-Follows,
}
use hype_trigger_twap.Twap.Place.Replying.{handle_reply-Follows}

module _ (D : DecimalApi) (L : DecimalLaws D) (c : SliceCall D) (w : Surroundings D)
    (accepts : JournalRecord → Bool) (attached : c.sink ≡ some accepts) where
  open D use {Decimal, plus, minus}

  -- Before a send, the order can be closed with a zero fill.
  close-AtLoop :
      {n : ℕ} {is_marked : Bool} {s : SliceState} (status : String)
      → is_valid_journal_terminal_status status ≡ true
      → AtLoop D c w n is_marked s
      → SliceStep D c w s (wrote (terminal_record D c status (from_nat D 0) none)) closed
  close-AtLoop status valid at_first = close_unsent status valid
  close-AtLoop status valid (at_resend m a lt) = close_absent m status a valid

  send-Follows :
      {n : ℕ} {is_marked : Bool} {s : SliceState}
      → AtLoop D c w n is_marked s
      → MaySend D c w n
      → Follows
          (SliceStep D c w)
          {E = HlError}
          s
          (emit (sent n))
          (λ t _. AtReply D c w n is_marked t)
  send-Follows at_first may = follows-emit (SliceStep D c w) (send_first may) first_reply
  send-Follows (at_resend m a lt) may =
      follows-emit (SliceStep D c w) (send_again m a lt may) (later_reply (suc m))

  -- The choice that the shutdown flag makes, and the send with its reply.
  unless_down-Follows :
      {n : ℕ} {is_marked : Bool} {s : SliceState} (is_down : Bool)
      → w.shutdown_before_send n ≡ is_down
      → AtLoop D c w n is_marked s
      → w.guarded_at n < c.deadline.monotonic
      → IsShort D c w c.position_guard (w.position n)
      → Follows
          (SliceStep D c w)
          s
          (if is_down
            then close_unfilled D c "neverReceived" shutdown_requested
            else emit (sent n) >> handle_reply D c w n is_marked (w.place n))
          (After D c w n)
  unless_down-Follows {n} true down at on_time short =
      close-Follows D L c w accepts attached n "neverReceived" (from_nat D 0) none
        shutdown_requested (close-AtLoop "neverReceived" valid_never_received at) refl
  unless_down-Follows {n} {is_marked} false up at on_time short =
      follows_bind (SliceStep D c w) {Q = λ t _. AtReply D c w n is_marked t} _ _
        (send-Follows at (record { on_time = on_time; running = up; short_of_target = short }))
        (λ t _ replied.
          handle_reply-Follows D L c w accepts attached n is_marked t (w.place n) replied refl)

  send_once-Follows :
      (n : ℕ) (is_marked : Bool) (s : SliceState)
      → AtLoop D c w n is_marked s
      → IsShort D c w c.position_guard (w.position n)
      → Follows (SliceStep D c w) s (send_once D c w n is_marked) (After D c w n)
  unfolding send_once
  send_once-Follows n is_marked s at short =
      follows_bind (SliceStep D c w)
        {Q = λ t _. AtLoop D c w n is_marked t × (w.guarded_at n < c.deadline.monotonic)} _ _
        (follows-lift (SliceStep D c w) _
          (λ _ h. (at, (deadline_gate c.deadline (w.guarded_at n)).0.0 h)))
        (λ t _ (at', on_time).
          unless_down-Follows (w.shutdown_before_send n) refl at' on_time short)

  -- The read of the position, where the loop has a guard.
  pub position_check-Follows :
      {n : ℕ} {is_marked : Bool} {s : SliceState} (g : Option (PositionTargetGuard D))
      (current : Result HlError Decimal)
      → AtLoop D c w n is_marked s
      → Follows (SliceStep D c w) s (position_check D c g current) (λ t is_reached.
        AtLoop D c w n is_marked t × ((is_reached ≡ false) → IsShort D c w g current))
  unfolding position_check
  position_check-Follows none current at = follows-pure (SliceStep D c w) false (at, λ _. tt)
  position_check-Follows (some g) (ok szi) at =
      follows-pure (SliceStep D c w) _ (at, λ h. (szi, refl, h))
  position_check-Follows (some g) (err e) at =
      close_and_fail-Follows D L c w accepts attached "neverReceived"
        (invalid_response "position check failed closed")
        (close-AtLoop "neverReceived" valid_never_received at)

  unless_reached-Follows :
      {n : ℕ} {is_marked : Bool} {s : SliceState} (is_reached : Bool)
      → AtLoop D c w n is_marked s
      → ((is_reached ≡ false) → IsShort D c w c.position_guard (w.position n))
      → Follows
          (SliceStep D c w)
          s
          (if is_reached
            then close_unfilled D c "positionTargetReached" position_target_reached
            else send_once D c w n is_marked)
          (After D c w n)
  unless_reached-Follows {n} true at short =
      close-Follows D L c w accepts attached n "positionTargetReached" (from_nat D 0) none
        position_target_reached (close-AtLoop "positionTargetReached" valid_target_reached at) refl
  unless_reached-Follows {n} {is_marked} {s} false at short =
      send_once-Follows n is_marked s at (short refl)

  attempt_once-Follows :
      (n : ℕ) (is_marked : Bool) (s : SliceState)
      → AtLoop D c w n is_marked s
      → Follows (SliceStep D c w) s (attempt_once D c w n is_marked) (After D c w n)
  unfolding attempt_once
  attempt_once-Follows n is_marked s at =
      follows_bind (SliceStep D c w) {Q = λ t _. AtLoop D c w n is_marked t} _ _
        (follows-lift (SliceStep D c w) _ (λ _ _. at))
        (λ t _ at'.
          follows_bind (SliceStep D c w)
            {Q = λ u is_reached.
              AtLoop D c w n is_marked u
              × ((is_reached ≡ false) → IsShort D c w c.position_guard (w.position n))}
            _ _ (position_check-Follows c.position_guard (w.position n) at')
            (λ u is_reached (at'', short). unless_reached-Follows is_reached at'' short))

  give_up-Follows :
      (n : ℕ) (s : SliceState) (result : Attempt D)
      → After D c w n s result
      → Follows
          (SliceStep D c w)
          s
          (unless_absent D result (lift (err (network "the order was never received"))))
          (IsReported D c w)
  give_up-Follows n s (finished outcome) after = follows-pure (SliceStep D c w) outcome after
  give_up-Follows n s absent after = follows-error (SliceStep D c w) _

  go_on-Follows :
      (n : ℕ) (s : SliceState) (again : Placing (PlaceSliceOutcome D)) (result : Attempt D)
      → (IsAbsent D c w n → Follows (SliceStep D c w) (unresolved n) again (IsReported D c w))
      → After D c w n s result
      → Follows (SliceStep D c w) s (unless_absent D result again) (IsReported D c w)
  go_on-Follows n s again (finished outcome) next after =
      follows-pure (SliceStep D c w) outcome after
  go_on-Follows n s again absent next (same, gone) =
      subst (λ v. Follows (SliceStep D c w) v again (IsReported D c w)) (sym same) (next gone)

  place_from-Follows :
      (resends n : ℕ) (is_marked : Bool) (s : SliceState)
      → resends + n ≡ place_resend_limit
      → AtLoop D c w n is_marked s
      → Follows (SliceStep D c w) s (place_from D c w resends n is_marked) (IsReported D c w)
  unfolding place_from
  place_from-Follows zero n is_marked s total at =
      follows_bind (SliceStep D c w) {Q = After D c w n} _ _ (attempt_once-Follows n is_marked s at)
        (λ t result after. give_up-Follows n t result after)
  place_from-Follows (suc resends) n is_marked s total at =
      follows_bind (SliceStep D c w) {Q = After D c w n} _ _ (attempt_once-Follows n is_marked s at)
        (λ t result after.
          go_on-Follows n t _ result
            (λ gone.
              place_from-Follows resends (suc n) true (unresolved n) (omega arith)
                (at_resend n gone (omega arith)))
            after)

  -- With a journal attached, the records and the sends of the call are a run of the contract, in
  -- this order; and where it returns, the order is closed, and a fill that it returns is within the
  -- order and has the size and the price that the exchange has shown of it.
  pub place_slice_reconciled-Follows :
      Follows (SliceStep D c w) idle (place_slice_reconciled D c w) (IsReported D c w)
  unfolding place_slice_reconciled
  place_slice_reconciled-Follows =
      follows_bind (SliceStep D c w) {Q = λ t _. t ≡ idle} _ _
        (follows-lift (SliceStep D c w) _ (λ _ _. refl))
        (λ t _ e.
          follows_bind (SliceStep D c w) {Q = λ u _. u ≡ ready} _ _
            (subst
              (λ v.
                Follows (SliceStep D c w) v (record_in c.sink (prepared_record D c))
                  (λ u _. u ≡ ready))
              (sym e) (record_in-Follows D L c w accepts attached prepare refl))
            (λ u _ e'.
              place_from-Follows place_resend_limit 0 false u (omega arith)
                (subst (AtLoop D c w 0 false) (sym e') at_first)))
