-- ===== src/Twap/Resume/Resolved.antt =====
-- src/twap.rs, src/main.rs: what a resume records of the orders that were left unresolved.
use hype_trigger_twap.Prelude.{
  ℕ, ◌≡◌, refl, Option, none, some, Bool, true, false, Result, ok, err, ok_or, String, List, [],
  ◌∷◌, ◌++◌, ◌⊎◌, inl, inr, Bool-cases, ◌∙◌, if◌then◌else◌,
}
use mathlib.Core.List.{append-nil}
use hype_trigger_twap.Prelude.Runs.{follow, lift, ◌>>=◌}
use hype_trigger_twap.Decimal.{DecimalApi, from_nat}
use hype_trigger_twap.Decimal.Laws.{DecimalLaws}
use hype_trigger_twap.Errors.{HlError, invalid_config}
use hype_trigger_twap.Client.Status.{OrderStatusFill, is_terminal, cross_check}
use hype_trigger_twap.Client.Fill.{ValidatedFill, optional, try_from_status}
use hype_trigger_twap.Journal.Records.{JournalRecord}
use hype_trigger_twap.Journal.Replay.{is_valid_journal_terminal_status}
use hype_trigger_twap.Twap.Settle.{recover_resting_fill}
use hype_trigger_twap.Twap.Settle.Outcome.{recover_resting_fill-IsTheOrder}
use hype_trigger_twap.Twap.Reconcile.{Reconciled, reconcile_by_cloid}
use hype_trigger_twap.Twap.Reconcile.Streaks.{SafeResendBasis}
use hype_trigger_twap.Twap.Reconcile.Outcome.{
  reconcile_by_cloid-SafeResendBasis, reconcile_by_cloid-IsAdopted,
}
use hype_trigger_twap.Twap.Place.{
  Event, wrote, Placing, Sink, SliceCall, Surroundings, record_in, write, terminal_record,
  journal_terminal,
}
use hype_trigger_twap.Twap.Place.Contract.{IsWithinIntent}
use hype_trigger_twap.Twap.Place.Closing.{valid_terminal, valid_never_received}
use hype_trigger_twap.Twap.Place.Credit.{within_intent}
use hype_trigger_twap.Twap.Alo.{write_credit, credit_alo, outcome_of}
use hype_trigger_twap.Twap.Resume.{
  ResumeWorld, credit_resumed, after_queries, settle_live, ask_by_cloid, after_first_probe,
  reconcile_unresolved_cloid,
}

module _ (D : DecimalApi) (c : SliceCall D) (w : ResumeWorld D) (around : Surroundings D) where
  open D use {Decimal}

  -- The exchange has shown the status of the order: in answer to the queries by cloid, or when the
  -- order that the probe showed live was settled.
  pub data IsFound : OrderStatusFill D → Type 0 where
    by_queries :
        (st : OrderStatusFill D)
        → reconcile_by_cloid D w.replies c.plan c.intent.cloid ≡ ok (some st)
        → IsFound st
    by_settling :
        (live st : OrderStatusFill D)
        → w.probe ≡ ok (some live)
        → is_terminal D live ≡ false
        → recover_resting_fill D w.settling c.plan c.intent.cloid live.oid c.intent ≡ ok st
        → IsFound st

  -- The fill is the one of a status that the exchange has shown, validated, and within the intent.
  pub record IsShownFill (status : String) (filled : Decimal) (avg_px : Option Decimal)
      : Type 0 where
    pub st : OrderStatusFill D
    pub vf : ValidatedFill D
    pub found : IsFound st
    pub validated : try_from_status D st c.intent ≡ ok vf
    pub same_status : status ≡ st.status
    pub same_filled : filled ≡ vf.filled_sz
    pub same_avg_px : avg_px ≡ vf.avg_px
    pub within : IsWithinIntent D c around filled avg_px

  -- One record closes the order: either no fill, after the exchange denied the order for long
  -- enough; or the fill that the exchange has shown, within the intent that the journal holds.
  pub record Resolved (vs : List Event) : Type 0 where
    pub status : String
    pub filled : Decimal
    pub avg_px : Option Decimal
    pub valid : is_valid_journal_terminal_status status ≡ true
    pub only : vs ≡ wrote (terminal_record D c status filled avg_px) ∷ []
    pub basis :
        ((status ≡ "neverReceived")
          × (filled ≡ from_nat D 0)
          × (avg_px ≡ none)
          × ((first : ℕ) × (last : ℕ) × SafeResendBasis D w.replies first last))
        ⊎ IsShownFill status filled avg_px

  abbrev Resolves : Placing (Unit {0}) → Type 0
  Resolves m = m.result ≡ ok tt → Resolved m.events

  -- A part without effects before the record.
  pub first_asked :
      {A : Type 0} (r : Result HlError A) (next : A → Placing (Unit {0}))
      → ((a : A) → r ≡ ok a → Resolves (next a))
      → Resolves (lift r >>= next)
  first_asked (ok a) next h = h a refl
  first_asked (err e) next h = λ e. cc

  first_asked_within :
      {A B : Type 0} (r : Result HlError A) (k : A → Placing B) (j : B → Placing (Unit {0}))
      → ((a : A) → r ≡ ok a → Resolves (k a >>= j))
      → Resolves ((lift r >>= k) >>= j)
  first_asked_within (ok a) k j h = h a refl
  first_asked_within (err e) k j h = λ e. cc

  -- The record itself.
  written_once :
      (r : JournalRecord) (taken : Bool)
      → (write taken r).result ≡ ok tt
      → (write taken r).events ≡ wrote r ∷ []
  written_once r true h = refl
  written_once r false h = cc

  only_record :
      (accepts : JournalRecord → Bool) (sink : Sink) (r : JournalRecord)
      → sink ≡ some accepts
      → (record_in sink r).result ≡ ok tt
      → (record_in sink r).events ≡ wrote r ∷ []
  unfolding record_in
  only_record accepts none r e h = cc
  only_record accepts (some taken) r e h = written_once r (taken r) h

  returned :
      {B : Type 0} (log vs : List Event) (r : Result HlError (Unit {0})) (b : B)
      → (r ≡ ok tt → log ≡ vs)
      → (follow
          (follow log r (λ _. lift (ok b))).events
          (follow log r (λ _. lift (ok b))).result
          (λ _. lift (ok tt))).result
        ≡ ok tt
      → (follow
          (follow log r (λ _. lift (ok b))).events
          (follow log r (λ _. lift (ok b))).result
          (λ _. lift (ok tt))).events
        ≡ vs
  returned log vs (ok u) b h e = append-nil (log ++ []) ∙ append-nil log ∙ h refl
  returned log vs (err d) b h e = cc

module _ (D : DecimalApi) (L : DecimalLaws D) (c : SliceCall D) (w : ResumeWorld D)
    (around : Surroundings D) (accepts : JournalRecord → Bool)
    (attached : c.sink ≡ some accepts) where
  open D use {Decimal}

  credit_resumed-Resolved :
      (st : OrderStatusFill D)
      → is_terminal D st ≡ true
      → IsFound D c w around st
      → (credit_resumed D c st).result ≡ ok tt
      → Resolved D c w around (credit_resumed D c st).events
  unfolding credit_alo write_credit try_from_status journal_terminal
  credit_resumed-Resolved st terminal found =
      first_asked_within D c w around (try_from_status D st c.intent)
        (λ vf. write_credit D c st.status vf) (λ _. lift (ok tt))
        (λ vf h e. record {
          status = st.status;
          filled = vf.filled_sz;
          avg_px = vf.avg_px;
          valid = valid_terminal D st terminal;
          only =
              returned D c w around _ _ (record_in c.sink _).result (outcome_of D c vf)
                (only_record D c w around accepts c.sink _ attached) e;
          basis = inr (record {
            st = st;
            vf = vf;
            found = found;
            validated = h;
            same_status = refl;
            same_filled = refl;
            same_avg_px = refl;
            within = within_intent D L c around st.filled_sz st.avg_px optional vf h;
          });
        })

  after_queries-Resolved :
      (reply : Reconciled D)
      → reconcile_by_cloid D w.replies c.plan c.intent.cloid ≡ reply
      → (after_queries D c reply).result ≡ ok tt
      → Resolved D c w around (after_queries D c reply).events
  unfolding after_queries journal_terminal
  after_queries-Resolved (ok (some st)) e h =
      let (_, order) = reconcile_by_cloid-IsAdopted D w.replies c.plan c.intent.cloid st e in
      credit_resumed-Resolved st order.terminal (by_queries st e) h
  after_queries-Resolved (ok none) e h = record {
    status = "neverReceived";
    filled = from_nat D 0;
    avg_px = none;
    valid = valid_never_received;
    only = only_record D c w around accepts c.sink _ attached h;
    basis =
        inl (
          refl,
          refl,
          refl,
          reconcile_by_cloid-SafeResendBasis D w.replies c.plan c.intent.cloid e,
        );
  }
  after_queries-Resolved (err d) e h = cc

  settle_live-Resolved :
      (st : OrderStatusFill D)
      → w.probe ≡ ok (some st)
      → is_terminal D st ≡ false
      → (settle_live D c w st).result ≡ ok tt
      → Resolved D c w around (settle_live D c w st).events
  settle_live-Resolved st shown live =
      first_asked D c w around
        (recover_resting_fill D w.settling c.plan c.intent.cloid st.oid c.intent) _
        (λ settled e.
          first_asked D c w around
            (cross_check D settled c.plan.symbol c.plan.side (some c.intent.cloid)) _
            (λ _ _.
              credit_resumed-Resolved settled
                (recover_resting_fill-IsTheOrder D w.settling c.plan st.oid c.intent.cloid c.intent
                  e).terminal
                (by_settling st settled shown live e)))

  after_first_probe-Resolved :
      (probe : Reconciled D)
      → w.probe ≡ probe
      → (after_first_probe D c w probe).result ≡ ok tt
      → Resolved D c w around (after_first_probe D c w probe).events
  unfolding after_first_probe
  after_first_probe-Resolved (ok (some st)) shown =
      first_asked D c w around (cross_check D st c.plan.symbol c.plan.side (some c.intent.cloid))
        (λ _. if is_terminal D st then ask_by_cloid D c w else settle_live D c w st)
        (λ _ _. (elim (Bool-cases (is_terminal D st)) [
          | inl terminal ↦ rw terminal (after_queries-Resolved _ refl)
          | inr live ↦ rw live (settle_live-Resolved st shown live)
        ]))
  after_first_probe-Resolved (ok none) shown = after_queries-Resolved _ refl
  after_first_probe-Resolved (err e) shown = after_queries-Resolved _ refl

  -- With a journal attached, an order that is reconciled on a resume is closed by one record: of no
  -- fill, after the exchange denied the order three times in a row at least, two seconds apart; or
  -- the fill of a status that the exchange has shown, within the intent that the journal holds.
  -- `around` is where it was placed.
  pub reconcile_unresolved_cloid-Resolved :
      (reconcile_unresolved_cloid D c w).result ≡ ok tt
      → Resolved D c w around (reconcile_unresolved_cloid D c w).events
  unfolding reconcile_unresolved_cloid
  reconcile_unresolved_cloid-Resolved =
      first_asked D c w around
        (ok_or c.plan.master (invalid_config "orderStatus requires the master address"))
        (λ _. after_first_probe D c w w.probe) (λ _ _. after_first_probe-Resolved w.probe refl)
