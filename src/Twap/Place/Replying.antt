-- ===== src/Twap/Place/Replying.antt =====
-- src/twap.rs: what `place_slice_reconciled` does with the reply to a send.
use hype_trigger_twap.Prelude.{
  ℕ, ◌≡◌, refl, none, some, Bool, true, false, Result, ok, err, ok_or, String, if◌then◌else◌, sym,
}
use mathlib.Core.Path.{subst}
use hype_trigger_twap.Prelude.Runs.{
  Follows, follows-lift, follows-pure, follows-error, follows_bind, lift, ◌>>=◌, ◌>>◌,
}
use hype_trigger_twap.Decimal.{DecimalApi, from_nat}
use hype_trigger_twap.Decimal.Laws.{DecimalLaws}
use hype_trigger_twap.Errors.{
  HlError, network, exchange, signature, invalid_response, invalid_config, action_format,
  unknown_symbol, other,
}
use hype_trigger_twap.Client.Fill.{PlaceOutcome, filled, resting}
use hype_trigger_twap.Journal.Records.{JournalRecord}
use hype_trigger_twap.Twap.Settle.Outcome.{recover_resting_fill-IsTheOrder}
use hype_trigger_twap.Client.Status.{is_terminal}
use hype_trigger_twap.Twap.Schedule.{check_before_send}
use hype_trigger_twap.Twap.Reconcile.{Reconciled, reconcile_by_cloid}
use hype_trigger_twap.Twap.Reconcile.Outcome.{
  reconcile_by_cloid-SafeResendBasis, reconcile_by_cloid-IsAdopted,
}
use hype_trigger_twap.Twap.Place.{
  SliceCall, Surroundings, shutdown_requested, absent, close_unfilled, after_reconcile,
  mark_unknown, handle_reply,
}
use hype_trigger_twap.Twap.Place.Contract.{
  SliceState, unresolved, on_book, IsAbsent, IsSent, IsAttempt, SliceStep, mark, acknowledge,
  close_absent, close_rejected, After, IsShown, by_settling, by_queries, AtReply, first_reply,
  later_reply,
}
use hype_trigger_twap.Twap.Place.Closing.{
  valid_never_received, valid_rejected, record_in-Follows, close-Follows, close_and_fail-Follows,
  credit_status-Follows, credit_place-Follows,
}

module _ (D : DecimalApi) (L : DecimalLaws D) (c : SliceCall D) (w : Surroundings D)
    (accepts : JournalRecord → Bool) (attached : c.sink ≡ some accepts) where
  open D use {Decimal, plus, minus}

  is_absent :
      (n : ℕ) (message : String)
      → w.place n ≡ err (network message)
      → reconcile_by_cloid D (w.replies n) c.plan c.intent.cloid ≡ ok none
      → c.reduce_only ≡ false
      → IsAbsent D c w n
  is_absent n message lost e r =
      let (first, last, basis) =
        reconcile_by_cloid-SafeResendBasis D (w.replies n) c.plan c.intent.cloid e in
      record {
        error = message;
        lost = lost;
        first = first;
        last = last;
        basis = basis;
        may_increase = r;
      }

  absent-Follows :
      (n : ℕ) (message : String)
      → w.place n ≡ err (network message)
      → reconcile_by_cloid D (w.replies n) c.plan c.intent.cloid ≡ ok none
      → (is_down reduces : Bool) → c.reduce_only ≡ reduces
      → Follows
          (SliceStep D c w)
          (unresolved n)
          (if reduces
            then lift (err (invalid_response "ambiguous reduce-only order absent"))
            else if is_down
            then close_unfilled D c "neverReceived" shutdown_requested
            else lift (check_before_send c.deadline (w.reconciled_at n)) >> lift (ok absent))
          (After D c w n)
  absent-Follows n message lost e is_down true r = follows-error (SliceStep D c w) _
  absent-Follows n message lost e true false r =
      close-Follows D L c w accepts attached n "neverReceived" (from_nat D 0) none
        shutdown_requested
        (close_absent n "neverReceived" (is_absent n message lost e r) valid_never_received) refl
  absent-Follows n message lost e false false r =
      follows_bind (SliceStep D c w) {Q = λ t _. t ≡ unresolved n} _ _
        (follows-lift (SliceStep D c w) _ (λ _ _. refl))
        (λ t _ same. follows-pure (SliceStep D c w) absent (same, is_absent n message lost e r))

  -- The answer of the reconciliation, once an unknown outcome is on record.
  after_reconcile-Follows :
      (n : ℕ) (message : String) (answer : Reconciled D)
      → w.place n ≡ err (network message)
      → reconcile_by_cloid D (w.replies n) c.plan c.intent.cloid ≡ answer
      → Follows (SliceStep D c w) (unresolved n) (after_reconcile D c w n answer) (After D c w n)
  unfolding after_reconcile
  after_reconcile-Follows n message (ok (some st)) lost e =
      let (_, order) = reconcile_by_cloid-IsAdopted D (w.replies n) c.plan c.intent.cloid st e in
      credit_status-Follows D L c w accepts attached n st order.terminal tt (by_queries n st e)
  after_reconcile-Follows n message (ok none) lost e =
      absent-Follows n message lost e (w.shutdown_after_reconcile n) c.reduce_only refl
  after_reconcile-Follows n message (err fault) lost e = follows-error (SliceStep D c w) _

  AtReply-IsSent :
      {n : ℕ} {is_marked : Bool} {s : SliceState} → AtReply D c w n is_marked s → IsSent s
  AtReply-IsSent first_reply = tt
  AtReply-IsSent (later_reply m) = tt

  AtReply-IsAttempt :
      {n : ℕ} {is_marked : Bool} {s : SliceState} → AtReply D c w n is_marked s → IsAttempt s n
  AtReply-IsAttempt first_reply = refl
  AtReply-IsAttempt (later_reply m) = refl

  mark_unknown-Follows :
      {n : ℕ} {is_marked : Bool} {s : SliceState}
      → AtReply D c w n is_marked s
      → Follows (SliceStep D c w) s (mark_unknown D c is_marked) (λ t _. t ≡ unresolved n)
  mark_unknown-Follows first_reply = record_in-Follows D L c w accepts attached mark refl
  mark_unknown-Follows (later_reply m) = follows-pure (SliceStep D c w) tt refl

  ask-Follows :
      (n : ℕ) (message : String)
      → w.place n ≡ err (network message)
      → Follows
          (SliceStep D c w)
          (unresolved n)
          (lift (ok_or c.plan.master (invalid_config "orderStatus requires the master address"))
            >>= λ user.
                after_reconcile D c w n (reconcile_by_cloid D (w.replies n) c.plan c.intent.cloid))
          (After D c w n)
  ask-Follows n message lost =
      follows_bind (SliceStep D c w) {Q = λ u _. u ≡ unresolved n}
        (lift (ok_or c.plan.master (invalid_config "orderStatus requires the master address")))
        (λ user. after_reconcile D c w n (reconcile_by_cloid D (w.replies n) c.plan c.intent.cloid))
        (follows-lift (SliceStep D c w) _ (λ _ _. refl))
        (λ u _ same.
          subst
            (λ v.
              Follows (SliceStep D c w) v
                (after_reconcile D c w n (reconcile_by_cloid D (w.replies n) c.plan c.intent.cloid))
                (After D c w n))
            (sym same) (after_reconcile-Follows n message _ lost refl))

  pub handle_reply-Follows :
      (n : ℕ) (is_marked : Bool) (s : SliceState) (reply : Result HlError (PlaceOutcome D))
      → AtReply D c w n is_marked s
      → w.place n ≡ reply
      → Follows (SliceStep D c w) s (handle_reply D c w n is_marked reply) (After D c w n)
  unfolding handle_reply
  handle_reply-Follows n is_marked s (ok (filled oid total_sz avg_px)) at e =
      credit_place-Follows D L c w accepts attached n oid total_sz avg_px (AtReply-IsSent at)
        (AtReply-IsAttempt at) e
  handle_reply-Follows n is_marked s (ok (resting oid)) at e =
      follows_bind (SliceStep D c w) {Q = λ t _. t ≡ on_book n oid} _ _
        (record_in-Follows D L c w accepts attached (acknowledge s n oid (AtReply-IsAttempt at) e)
          refl)
        (λ t _ same.
          follows_bind (SliceStep D c w)
            {Q = λ u st.
              (u ≡ on_book n oid) × (is_terminal D st ≡ true) × IsShown D c w (on_book n oid) st}
            _ _
            (follows-lift (SliceStep D c w) _ (λ st h. (
              same,
              (recover_resting_fill-IsTheOrder D (w.settling n) c.plan oid c.intent.cloid c.intent
                  h).terminal,
              by_settling n oid st h,
            )))
            (λ u st (same', terminal, shown).
              credit_status-Follows D L c w accepts attached n st terminal
                (subst IsSent (sym same') tt) (subst (λ v. IsShown D c w v st) (sym same') shown)))
  handle_reply-Follows n is_marked s (err (exchange code message)) at e =
      close_and_fail-Follows D L c w accepts attached "rejected" (exchange code message)
        (close_rejected s n code message "rejected" (AtReply-IsAttempt at) e valid_rejected)
  handle_reply-Follows n is_marked s (err (network message)) at e =
      follows_bind (SliceStep D c w) {Q = λ t _. t ≡ unresolved n} _ _ (mark_unknown-Follows at)
        (λ t _ same.
          subst
            (λ v.
              Follows (SliceStep D c w) v
                (lift
                    (ok_or c.plan.master (invalid_config "orderStatus requires the master address"))
                  >>= λ user.
                      after_reconcile D c w n
                        (reconcile_by_cloid D (w.replies n) c.plan c.intent.cloid))
                (After D c w n))
            (sym same) (ask-Follows n message e))
  handle_reply-Follows n is_marked s (err (signature m)) at e = follows-error (SliceStep D c w) _
  handle_reply-Follows n is_marked s (err (invalid_response m)) at e =
      follows-error (SliceStep D c w) _
  handle_reply-Follows n is_marked s (err (invalid_config m)) at e =
      follows-error (SliceStep D c w) _
  handle_reply-Follows n is_marked s (err (action_format m)) at e =
      follows-error (SliceStep D c w) _
  handle_reply-Follows n is_marked s (err (unknown_symbol m)) at e =
      follows-error (SliceStep D c w) _
  handle_reply-Follows n is_marked s (err (other m)) at e = follows-error (SliceStep D c w) _
