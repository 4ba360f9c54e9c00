-- ===== src/Twap/Alo/Refinement.antt =====
-- src/twap.rs: `place_alo_child` keeps to the contract of an order.
use hype_trigger_twap.Prelude.{
  ℕ, ◌<◌, ◌≡◌, refl, none, some, Bool, true, false, Result, ok, err, ok_or, String, if◌then◌else◌,
  sym, Bool-cases, inl, inr,
}
use mathlib.Core.Path.{subst}
use hype_trigger_twap.Prelude.Runs.{
  Follows, follows-lift, follows-pure, follows-error, follows-emit, follows-recast, follows_bind,
  lift, emit, ◌>>=◌, ◌>>◌,
}
use hype_trigger_twap.Decimal.{DecimalApi}
use hype_trigger_twap.Decimal.Laws.{DecimalLaws}
use hype_trigger_twap.Errors.{
  HlError, network, exchange, signature, invalid_response, invalid_config, action_format,
  unknown_symbol, other,
}
use hype_trigger_twap.Client.Status.{OrderStatusFill, is_terminal, cross_check}
use hype_trigger_twap.Client.Fill.{PlaceOutcome}
use hype_trigger_twap.Journal.Records.{JournalRecord, submitted_unknown, acknowledged}
use hype_trigger_twap.Twap.Schedule.{check_before_send, deadline_gate}
use hype_trigger_twap.Twap.Settle.{recover_resting_fill}
use hype_trigger_twap.Twap.Settle.Outcome.{recover_resting_fill-IsTheOrder}
use hype_trigger_twap.Twap.Reconcile.{Reconciled}
use hype_trigger_twap.Twap.Place.{
  wrote, sent, SliceCall, record_in, prepared_record, position_check,
}
use hype_trigger_twap.Twap.Place.Contract.{
  SliceState, idle, ready, in_flight, unresolved, IsSent, IsShown, by_probe, by_settled_probe,
  IsShort, SliceStep, prepare, mark, acknowledge, close_unsent, close_rejected, send_first, AtLoop,
  at_first, at_resend,
}
use hype_trigger_twap.Twap.Place.Closing.{
  valid_never_received, valid_target_reached, valid_alo_rejected, record_in-Follows,
}
use hype_trigger_twap.Twap.Place.Refinement.{position_check-Follows}
use hype_trigger_twap.Twap.Alo.{
  AloPlaceOutcome, settled, rejected_skip, position_target_reached, shutdown_requested,
  AloSurroundings, is_alo_reject, credit_alo, close_alo, describe, settle_probed, ambiguous,
  AloPlacing, after_probe, handle_alo_reply, send_alo, place_alo_child,
}
use hype_trigger_twap.Twap.Alo.Settling.{
  IsSettled, IsAloReported, credit_alo-Follows, close_alo-Follows,
}

module _ (D : DecimalApi) (L : DecimalLaws D) (c : SliceCall D) (w : AloSurroundings D)
    (accepts : JournalRecord → Bool) (attached : c.sink ≡ some accepts) where
  open D use {Decimal, plus, minus}

  -- The run of the contract, from state `s`.
  abbrev Keeps : SliceState → AloPlacing (AloPlaceOutcome D) → Type 0
  Keeps s m = Follows (SliceStep D c w.around) s m (IsAloReported D c w.around)

  moved : {s t : SliceState} (m : AloPlacing (AloPlaceOutcome D)) → t ≡ s → Keeps s m → Keeps t m
  moved m e k = subst (λ u. Keeps u m) (sym e) k

  settle_probed-Follows :
      {s : SliceState} (st : OrderStatusFill D)
      → is_terminal D st ≡ true
      → IsSent s
      → IsShown D c w.around s st
      → Keeps s (settle_probed D c st)
  settle_probed-Follows st terminal is_sent shown =
      follows_bind (SliceStep D c w.around) {Q = IsSettled D c w.around}
        (describe "ambiguous ALO fill invalid" (credit_alo D c st)) (λ o. lift (ok (settled o)))
        (follows-recast (SliceStep D c w.around) _ _
          (credit_alo-Follows D L c w.around accepts attached st terminal is_sent shown))
        (λ t o report. follows-pure (SliceStep D c w.around) (settled o) report)

  -- A lookup that only tells of the outside leaves the state.
  asked-Follows :
      {A : Type 0} {s : SliceState} (reason : String) (r : Result HlError A)
      (next : A → AloPlacing (AloPlaceOutcome D))
      → ((a : A) → r ≡ ok a → Keeps s (next a))
      → Keeps s (describe reason (lift r) >>= next)
  asked-Follows {A} {s} reason r next keeps =
      follows_bind (SliceStep D c w.around) {Q = λ t a. (t ≡ s) × (r ≡ ok a)}
        (describe reason (lift r)) next
        (follows-recast (SliceStep D c w.around) _ _
          (follows-lift (SliceStep D c w.around) r (λ a h. (refl, h))))
        (λ t a (e, h). moved (next a) e (keeps a h))

  by_status-Follows :
      (is_done : Bool) (st : OrderStatusFill D)
      → is_terminal D st ≡ is_done
      → w.around.probe ≡ ok (some st)
      → Keeps (unresolved 0) (
          if is_done
          then settle_probed D c st
          else describe "ambiguous ALO was live but cancel/settle failed" (
              lift (
                recover_resting_fill D (w.around.settling 0) c.plan c.intent.cloid st.oid c.intent))
            >>= λ done. settle_probed D c done)
  by_status-Follows true st e shown = settle_probed-Follows st e tt (by_probe st shown e)
  by_status-Follows false st e shown =
      asked-Follows "ambiguous ALO was live but cancel/settle failed"
        (recover_resting_fill D (w.around.settling 0) c.plan c.intent.cloid st.oid c.intent)
        (λ done. settle_probed D c done)
        (λ done h.
          settle_probed-Follows done
            (recover_resting_fill-IsTheOrder D (w.around.settling 0) c.plan st.oid c.intent.cloid
              c.intent h).terminal
            tt (by_settled_probe st done shown h))

  after_probe-Follows :
      (probe : Reconciled D)
      → w.around.probe ≡ probe
      → Keeps (unresolved 0) (after_probe D c w probe)
  unfolding after_probe
  after_probe-Follows (ok (some st)) shown =
      asked-Follows "ambiguous ALO status cross-check failed"
        (cross_check D st c.plan.symbol c.plan.side (some c.intent.cloid)) _
        (λ _ _. by_status-Follows (is_terminal D st) st refl shown)
  after_probe-Follows (ok none) shown = follows-error (SliceStep D c w.around) _
  after_probe-Follows (err e) shown = follows-error (SliceStep D c w.around) _

  -- A record that has been written, and what comes after it.
  written-Follows :
      {s t : SliceState} (reason : String) (r : JournalRecord)
      (next : Unit {0} → AloPlacing (AloPlaceOutcome D))
      → SliceStep D c w.around s (wrote r) t
      → Keeps t (next tt)
      → Keeps s (describe reason (record_in c.sink r) >>= next)
  written-Follows {s} {t} reason r next step keeps =
      follows_bind (SliceStep D c w.around) {Q = λ u _. u ≡ t}
        (describe reason (record_in c.sink r)) next
        (follows-recast (SliceStep D c w.around) _ _
          (record_in-Follows D L c w.around accepts attached step refl))
        (λ u _ e. moved (next tt) e keeps)

  ambiguous-Follows : Keeps in_flight (ambiguous D c w)
  ambiguous-Follows =
      written-Follows "journal write (SubmittedUnknown) failed"
        (submitted_unknown c.slice_idx c.intent.cloid) _ mark
        (asked-Follows "failed after ambiguous ALO send"
          (ok_or c.plan.master (invalid_config "orderStatus requires the master address")) _
          (λ _ _. after_probe-Follows w.around.probe refl))

  handle_alo_reply-Follows :
      (reply : Result HlError (PlaceOutcome D))
      → w.around.place 0 ≡ reply
      → Keeps in_flight (handle_alo_reply D c w reply)
  unfolding handle_alo_reply
  handle_alo_reply-Follows (ok (PlaceOutcome.filled oid total_sz avg_px)) e =
      follows-error (SliceStep D c w.around) _
  handle_alo_reply-Follows (ok (PlaceOutcome.resting oid)) e =
      written-Follows "journal write (Acknowledged) failed"
        (acknowledged c.slice_idx c.intent.cloid (some oid) "resting") _
        (acknowledge in_flight 0 oid refl e)
        (follows-pure (SliceStep D c w.around) _ (refl, refl, refl, refl, refl))
  handle_alo_reply-Follows (err (exchange code message)) e =
      elim (Bool-cases (is_alo_reject code message)) [
        | inl skip ↦ rw skip (
            close_alo-Follows D L c w.around accepts attached "aloRejected" rejected_skip
              (close_rejected in_flight 0 code message "aloRejected" refl e valid_alo_rejected)
              refl)
        | inr fatal ↦ rw fatal (follows-error (SliceStep D c w.around) _)
      ]
  handle_alo_reply-Follows (err (network m)) e = ambiguous-Follows
  handle_alo_reply-Follows (err (signature m)) e = ambiguous-Follows
  handle_alo_reply-Follows (err (invalid_response m)) e = ambiguous-Follows
  handle_alo_reply-Follows (err (invalid_config m)) e = ambiguous-Follows
  handle_alo_reply-Follows (err (action_format m)) e = ambiguous-Follows
  handle_alo_reply-Follows (err (unknown_symbol m)) e = ambiguous-Follows
  handle_alo_reply-Follows (err (other m)) e = ambiguous-Follows

  -- Before the first send the loop's state is `ready`.
  AtLoop-ready :
      {n : ℕ} {is_marked : Bool} {s : SliceState}
      → AtLoop D c w.around n is_marked s
      → is_marked ≡ false
      → s ≡ ready
  AtLoop-ready at_first e = refl
  AtLoop-ready (at_resend n gone lt) e = absurd cc

  position-Follows :
      Follows
        (SliceStep D c w.around)
        ready
        (position_check D c c.position_guard (w.around.position 0))
        (λ u is_reached.
          (u ≡ ready)
          × ((is_reached ≡ false) → IsShort D c w.around c.position_guard (w.around.position 0)))
  position-Follows =
      let checked =
        position_check-Follows D L c w.around accepts attached c.position_guard
          (w.around.position 0) at_first in
      record {
        last = checked.last;
        run = checked.run;
        post = λ is_reached h.
            (let (at, short) = checked.post is_reached h in (AtLoop-ready at refl, short));
      }

  unless_down-Follows :
      (is_down : Bool)
      → w.around.shutdown_before_send 0 ≡ is_down
      → w.around.guarded_at 0 < c.deadline.monotonic
      → IsShort D c w.around c.position_guard (w.around.position 0)
      → Keeps ready (
          if is_down
          then close_alo D c "neverReceived" shutdown_requested
          else emit (sent 0) >> handle_alo_reply D c w (w.around.place 0))
  unless_down-Follows true down on_time short =
      close_alo-Follows D L c w.around accepts attached "neverReceived" shutdown_requested
        (close_unsent "neverReceived" valid_never_received) refl
  unless_down-Follows false up on_time short =
      follows_bind (SliceStep D c w.around) {Q = λ t _. t ≡ in_flight} (emit (sent 0))
        (λ _. handle_alo_reply D c w (w.around.place 0))
        (follows-emit (SliceStep D c w.around)
          (send_first (record { on_time = on_time; running = up; short_of_target = short })) refl)
        (λ t _ e. moved _ e (handle_alo_reply-Follows (w.around.place 0) refl))

  unless_reached-Follows :
      (is_reached : Bool)
      → ((is_reached ≡ false) → IsShort D c w.around c.position_guard (w.around.position 0))
      → Keeps ready (
          if is_reached
          then close_alo D c "positionTargetReached" position_target_reached
          else send_alo D c w)
  unfolding send_alo
  unless_reached-Follows true short =
      close_alo-Follows D L c w.around accepts attached "positionTargetReached"
        position_target_reached (close_unsent "positionTargetReached" valid_target_reached) refl
  unless_reached-Follows false short =
      asked-Follows "execution deadline elapsed"
        (check_before_send c.deadline (w.around.guarded_at 0)) _
        (λ _ h.
          unless_down-Follows (w.around.shutdown_before_send 0) refl
            ((deadline_gate c.deadline (w.around.guarded_at 0)).0.0 h) (short refl))

  after_position-Follows : Keeps ready (
      describe "position check failed closed"
        (position_check D c c.position_guard (w.around.position 0))
      >>= λ is_reached.
          if is_reached
          then close_alo D c "positionTargetReached" position_target_reached
          else send_alo D c w)
  after_position-Follows =
      follows_bind (SliceStep D c w.around)
        {Q = λ u is_reached.
          (u ≡ ready)
          × ((is_reached ≡ false) → IsShort D c w.around c.position_guard (w.around.position 0))}
        (describe "position check failed closed"
          (position_check D c c.position_guard (w.around.position 0)))
        (λ is_reached.
          if is_reached
          then close_alo D c "positionTargetReached" position_target_reached
          else send_alo D c w)
        (follows-recast (SliceStep D c w.around) _ _ position-Follows)
        (λ u is_reached (e, short). moved _ e (unless_reached-Follows is_reached short))

  -- With a journal attached, the records and the sends of a post-only placing are a run of the
  -- contract, in this order; an order that is left resting is on the book under its intent, and any
  -- other that is returned is closed, with the fill that the exchange has shown of it.
  pub place_alo_child-Follows :
      Follows (SliceStep D c w.around) idle (place_alo_child D c w) (IsAloReported D c w.around)
  unfolding place_alo_child
  place_alo_child-Follows =
      written-Follows "journal write (Prepared) failed" (prepared_record D c) _ prepare (
        asked-Follows "execution deadline elapsed"
          (check_before_send c.deadline (w.around.looped_at 0)) _ (λ _ _. after_position-Follows))
