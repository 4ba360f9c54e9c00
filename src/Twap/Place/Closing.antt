-- ===== src/Twap/Place/Closing.antt =====
-- src/twap.rs: the records that close an order in `place_slice_reconciled`, and the credit of a fill.
use hype_trigger_twap.Prelude.{
  ℕ, ◌≡◌, refl, Option, none, some, Bool, true, false, ok, err, String, sym,
}
use mathlib.Core.Path.{subst}
use hype_trigger_twap.Prelude.Runs.{
  Follows, follows-lift, follows-pure, follows-error, follows-emit, follows_bind, lift, ◌>>◌,
}
use hype_trigger_twap.Decimal.{DecimalApi, from_nat}
use hype_trigger_twap.Decimal.Laws.{DecimalLaws}
use hype_trigger_twap.Types.{OrderId}
use hype_trigger_twap.Errors.{HlError}
use hype_trigger_twap.Client.Status.{
  OrderStatusFill, is_terminal, is_terminal_order_status, normalise_status,
}
use hype_trigger_twap.Prelude.Text.{
  to_ascii_lowercase, starts_with, replace, replace_from, codes_eq, eq_ignore_ascii_case,
}
use hype_trigger_twap.Journal.Replay.{is_valid_journal_terminal_status}
use hype_trigger_twap.Client.Fill.{filled, required, ValidatedFill, try_from_place, try_from_status}
use hype_trigger_twap.Journal.Records.{JournalRecord}
use hype_trigger_twap.Twap.Place.{
  wrote, record_in, write, SliceCall, Surroundings, PlaceSliceOutcome, settled, finished,
  terminal_record, journal_terminal, credit_status, credit_place, unwrap_or,
}
use hype_trigger_twap.Twap.Place.Credit.{within_intent, IsWithinIntent-priced}
use hype_trigger_twap.Twap.Place.Contract.{
  SliceState, closed, IsWithinIntent, IsSent, SliceStep, close_credited, IsReported, After, IsShown,
  IsCredited, by_status, by_reply, IsAttempt,
}

valid_filled : is_valid_journal_terminal_status "filled" ≡ true
unfolding is_valid_journal_terminal_status is_terminal_order_status normalise_status
    to_ascii_lowercase starts_with replace replace_from codes_eq
valid_filled = refl

pub valid_never_received : is_valid_journal_terminal_status "neverReceived" ≡ true
unfolding is_valid_journal_terminal_status is_terminal_order_status normalise_status
    to_ascii_lowercase starts_with replace replace_from codes_eq eq_ignore_ascii_case
valid_never_received = refl

pub valid_target_reached : is_valid_journal_terminal_status "positionTargetReached" ≡ true
unfolding is_valid_journal_terminal_status is_terminal_order_status normalise_status
    to_ascii_lowercase starts_with replace replace_from codes_eq eq_ignore_ascii_case
valid_target_reached = refl

pub valid_rejected : is_valid_journal_terminal_status "rejected" ≡ true
unfolding is_valid_journal_terminal_status is_terminal_order_status normalise_status
    to_ascii_lowercase starts_with replace replace_from codes_eq
valid_rejected = refl

pub valid_alo_rejected : is_valid_journal_terminal_status "aloRejected" ≡ true
unfolding is_valid_journal_terminal_status is_terminal_order_status normalise_status
    to_ascii_lowercase starts_with replace replace_from codes_eq eq_ignore_ascii_case
valid_alo_rejected = refl

pub valid_terminal :
    (D : DecimalApi) (st : OrderStatusFill D)
    → is_terminal D st ≡ true
    → is_valid_journal_terminal_status st.status ≡ true
unfolding is_valid_journal_terminal_status is_terminal
valid_terminal D st t = rw t refl

module _ (D : DecimalApi) (L : DecimalLaws D) (c : SliceCall D) (w : Surroundings D)
    (accepts : JournalRecord → Bool) (attached : c.sink ≡ some accepts) where
  open D use {Decimal, plus, minus}

  write-Follows :
      {s t : SliceState} {r : JournalRecord} {Q : SliceState → Unit {0} → Type 0} (b : Bool)
      → SliceStep D c w s (wrote r) t
      → Q t tt
      → Follows (SliceStep D c w) s (write b r) Q
  write-Follows true step q = follows-emit (SliceStep D c w) step q
  write-Follows false step q = follows-error (SliceStep D c w) _

  pub record_in-Follows :
      {s t : SliceState} {r : JournalRecord} {Q : SliceState → Unit {0} → Type 0}
      → SliceStep D c w s (wrote r) t
      → Q t tt
      → Follows (SliceStep D c w) s (record_in c.sink r) Q
  unfolding record_in
  record_in-Follows {s} {t} {r} {Q} step q =
      subst (λ k. Follows (SliceStep D c w) s (record_in k r) Q) (sym attached)
        (write-Follows (accepts r) step q)

  -- The steps that close the order, and the return after them.
  pub close-Follows :
      {s : SliceState} (n : ℕ) (status : String) (filled_sz : Decimal) (avg_px : Option Decimal)
      (outcome : PlaceSliceOutcome D)
      → SliceStep D c w s (wrote (terminal_record D c status filled_sz avg_px)) closed
      → IsReported D c w closed outcome
      → Follows
          (SliceStep D c w)
          s
          (journal_terminal D c status filled_sz avg_px >> lift (ok (finished outcome)))
          (After D c w n)
  unfolding journal_terminal
  close-Follows {s} n status filled_sz avg_px outcome step report =
      follows_bind (SliceStep D c w) {Q = λ t _. t ≡ closed} _ _ (record_in-Follows step refl)
        (λ t _ e.
          follows-pure (SliceStep D c w) (finished outcome)
            (subst (λ u. IsReported D c w u outcome) (sym e) report))

  pub close_and_fail-Follows :
      {A : Type 0} {s : SliceState} {Q : SliceState → A → Type 0} (status : String) (e : HlError)
      → SliceStep D c w s (wrote (terminal_record D c status (from_nat D 0) none)) closed
      → Follows
          (SliceStep D c w)
          s
          (journal_terminal D c status (from_nat D 0) none >> lift {A = A} (err e))
          Q
  unfolding journal_terminal
  close_and_fail-Follows status e step =
      follows_bind (SliceStep D c w) {Q = λ t _. t ≡ closed} _ _ (record_in-Follows step refl)
        (λ t _ _. follows-error (SliceStep D c w) e)

  pub credit_status-Follows :
      {s : SliceState} (n : ℕ) (st : OrderStatusFill D)
      → is_terminal D st ≡ true
      → IsSent s
      → IsShown D c w s st
      → Follows (SliceStep D c w) s (credit_status D c st) (After D c w n)
  unfolding credit_status try_from_status
  credit_status-Follows {s} n st terminal is_sent shown =
      follows_bind (SliceStep D c w)
        {Q = λ t vf.
          (t ≡ s)
          × IsWithinIntent D c w vf.filled_sz vf.avg_px
          × IsCredited D c w s st.status vf.filled_sz vf.avg_px}
        _ _
        (follows-lift (SliceStep D c w) _
          (λ vf h. (refl, within_intent D L c w _ _ _ vf h, by_status s st vf shown h)))
        (λ t vf (e, within, credited).
          close-Follows n st.status vf.filled_sz vf.avg_px
            (settled (record { sz = vf.filled_sz; px = unwrap_or D vf.avg_px c.intent.px }))
            (close_credited t st.status vf.filled_sz vf.avg_px (subst IsSent (sym e) is_sent)
              (subst (λ u. IsCredited D c w u st.status vf.filled_sz vf.avg_px) (sym e) credited)
              within (valid_terminal D st terminal))
            (
              refl,
              within.0,
              within.1,
              record {
                from = s;
                status = st.status;
                avg_px = vf.avg_px;
                credited = credited;
                priced = refl;
              },
            ))

  pub credit_place-Follows :
      {s : SliceState} (n : ℕ) (oid : OrderId) (total_sz avg_px : Decimal)
      → IsSent s
      → IsAttempt s n
      → w.place n ≡ ok (filled oid total_sz avg_px)
      → Follows (SliceStep D c w) s (credit_place D c oid total_sz avg_px) (After D c w n)
  unfolding credit_place try_from_place
  credit_place-Follows {s} n oid total_sz avg_px is_sent at reply =
      let paid : ValidatedFill D → Decimal = λ vf. unwrap_or D vf.avg_px c.intent.px in
      follows_bind (SliceStep D c w)
        {Q = λ t vf.
          (t ≡ s)
          × IsWithinIntent D c w vf.filled_sz (some (paid vf))
          × IsCredited D c w s "filled" vf.filled_sz (some (paid vf))}
        _ _
        (follows-lift (SliceStep D c w) _ (λ vf h. (
          refl,
          IsWithinIntent-priced D L c w total_sz avg_px required vf h,
          by_reply s n oid total_sz avg_px vf at reply h,
        )))
        (λ t vf (e, within, credited).
          close-Follows n "filled" vf.filled_sz (some (paid vf))
            (settled (record { sz = vf.filled_sz; px = paid vf }))
            (close_credited t "filled" vf.filled_sz (some (paid vf)) (subst IsSent (sym e) is_sent)
              (subst (λ u. IsCredited D c w u "filled" vf.filled_sz (some (paid vf))) (sym e)
                credited)
              within valid_filled)
            (
              refl,
              within.0,
              within.1,
              record {
                from = s;
                status = "filled";
                avg_px = some (paid vf);
                credited = credited;
                priced = refl;
              },
            ))
