-- ===== src/Twap/Place/Taken.antt =====
-- src/twap.rs, src/journal.rs: one record of `place_slice_reconciled` and the replay's step for it.
use hype_trigger_twap.Prelude.{
  ℕ, ◌≡◌, refl, arith, Option, none, some, true, false, String, inl, inr, ◌⊎◌, ok, err, lookup, sym,
  ◌∙◌, ap, lookup-insert_same,
}
use mathlib.Core.Path.{subst}
use hype_trigger_twap.Decimal.{DecimalApi, from_nat, lt, le}
use hype_trigger_twap.Decimal.Laws.{DecimalLaws}
use hype_trigger_twap.Client.Fill.{zero_value}
use hype_trigger_twap.Journal.Records.{
  JournalRecord, Label, at_prepared, at_submitted, at_acknowledged, at_terminal, CloidState,
  submitted, known,
}
use hype_trigger_twap.Journal.Errors.{JournalReplayError, accounting, overflow}
use hype_trigger_twap.Journal.Replay.{
  ReplayState, Replayed, allowed, is_valid_journal_terminal_status,
}
use hype_trigger_twap.Journal.Replay.Transitions.{enter, credit}
use hype_trigger_twap.Journal.Replay.Transitions.Closing.{
  step, apply_record, submitted_step, acknowledged_step,
}
use hype_trigger_twap.Twap.Place.{wrote, SliceCall, Surroundings, terminal_record}
use hype_trigger_twap.Twap.Place.Contract.{
  SliceState, idle, ready, in_flight, unresolved, on_book, closed, SliceStep, IsWithinIntent,
  prepare, mark, acknowledge, close_unsent, close_absent, close_rejected, close_credited, IsSent,
  IsAttempt,
}
use hype_trigger_twap.Twap.Place.Records.{
  label_of, IsEntered, Tracks, accounted, written_intent, written_outcome, prepared_step_ok,
  check_transition_ok, terminal_step_taken,
}

-- The label of a state in which a send is out, and where it may go.
record MayGo (from : SliceState) (to : Label) : Type 0 where
  label : Label
  stands : label_of from ≡ some label
  may : allowed label to ≡ true
  still : from ≡ closed → ⊥

IsSent-MayGo : (from : SliceState) → IsSent from → MayGo from at_terminal
IsSent-MayGo in_flight s = record {
  label = at_prepared;
  stands = refl;
  may = refl;
  still = λ e. cc;
}
IsSent-MayGo (unresolved n) s = record {
  label = at_submitted;
  stands = refl;
  may = refl;
  still = λ e. cc;
}
IsSent-MayGo (on_book n oid) s = record {
  label = at_acknowledged;
  stands = refl;
  may = refl;
  still = λ e. cc;
}
IsSent-MayGo idle s = elim s [ ]
IsSent-MayGo ready s = elim s [ ]
IsSent-MayGo closed s = elim s [ ]

IsAttempt-MayGo :
    (from : SliceState) (n : ℕ) (to : Label)
    → (to ≡ at_terminal) ⊎ (to ≡ at_acknowledged)
    → IsAttempt from n
    → MayGo from to
IsAttempt-MayGo in_flight n to which s = record {
  label = at_prepared;
  stands = refl;
  may = ground arith;
  still = λ e. cc;
}
IsAttempt-MayGo (unresolved m) n to which s = record {
  label = at_submitted;
  stands = refl;
  may = ground arith;
  still = λ e. cc;
}
IsAttempt-MayGo idle n to which s = elim s [ ]
IsAttempt-MayGo ready n to which s = elim s [ ]
IsAttempt-MayGo (on_book m oid) n to which s = elim s [ ]
IsAttempt-MayGo closed n to which s = elim s [ ]

module _ (D : DecimalApi) (L : DecimalLaws D) (c : SliceCall D) (w : Surroundings D)
    (prints : (d : D.Decimal) → D.parse (D.to_string d) ≡ some d)
    (positive_px : le D c.intent.px (from_nat D 0) ≡ false)
    (size_not_negative : lt D c.intent.sz (from_nat D 0) ≡ false) where
  open D use {Decimal, plus, minus}

  same_label : {a b : Label} → ◌≡◌ {A = Option Label} (some a) (some b) → a ≡ b
  same_label h = cc

  step_going :
      (index : ℕ) (r : JournalRecord) (s : ReplayState D)
      → s.abandoned ≡ false
      → s.completed_final_seen ≡ false
      → step D index r s ≡ apply_record D index r s
  unfolding step
  step_going index r s going unfinished = rw (going, unfinished) refl

  pub is_some_label : (label : Label) → some label ≡ none → ⊥
  is_some_label label e = cc

  -- The state after a record for the cloid: its label is new, and its intent stands.
  pub entered-Tracks :
      (state : SliceState) (label : Label) (s : ReplayState D)
      → label_of state ≡ some label
      → s.abandoned ≡ false
      → s.completed_final_seen ≡ false
      → IsEntered D c w label s
      → ((state ≡ closed → ⊥) → lookup c.intent.cloid s.terminal_fills ≡ none)
      → Tracks D c w state s
  entered-Tracks state label s e going unfinished entered uncredited = record {
    going = going;
    unfinished = unfinished;
    entered = λ other e'. subst (λ l. IsEntered D c w l s) (same_label (sym e ∙ e')) entered;
    new = λ at_idle. absurd (is_some_label label (sym e ∙ ap label_of at_idle));
    uncredited = uncredited;
  }

  -- The overflow of a fill's notional, the one error that is left.
  abbrev pub overflowed : JournalReplayError D
  overflowed = accounting (overflow c.intent.cloid "fill size by price")

  abbrev pub TakenInto : SliceState → Replayed D (ReplayState D) → Type 0
  TakenInto state out =
      ((s : ReplayState D) × (out ≡ ok s) × Tracks D c w state s) ⊎ (out ≡ err overflowed)

  moved :
      (from to : SliceState) (label label' : Label) (s : ReplayState D) (value : CloidState)
      → label_of from ≡ some label
      → label_of to ≡ some label'
      → (from ≡ closed → ⊥)
      → Tracks D c w from s
      → Tracks D c w to (enter D c.intent.cloid label' value s)
  moved from to label label' s value e e' open_yet t =
      let (a, b, _) = t.entered label e in
      entered-Tracks to label' _ e' t.going t.unfinished
        (a, b, lookup-insert_same c.intent.cloid label' s.states) (λ _. t.uncredited open_yet)

  -- What the replay does with each record of the contract.
  taken_transition :
      (from to : SliceState) (label label' : Label) (s : ReplayState D) (value : CloidState)
      (out : Replayed D (ReplayState D))
      → label_of from ≡ some label
      → label_of to ≡ some label'
      → (from ≡ closed → ⊥)
      → Tracks D c w from s
      → out ≡ ok (enter D c.intent.cloid label' value s)
      → TakenInto to out
  taken_transition from to label label' s value out e e' open_yet t h =
      inl (_, h, moved from to label label' s value e e' open_yet t)

  pub taken_closing :
      (from : SliceState) (label : Label) (s : ReplayState D) (index : ℕ) (status : String)
      (filled : Decimal) (avg_px : Option Decimal)
      → label_of from ≡ some label
      → allowed label at_terminal ≡ true
      → (from ≡ closed → ⊥)
      → is_valid_journal_terminal_status status ≡ true
      → IsWithinIntent D c w filled avg_px
      → Tracks D c w from s
      → TakenInto closed (step D index (terminal_record D c status filled avg_px) s)
  unfolding apply_record
  taken_closing from label s index status filled avg_px e go open_yet valid within t =
      let going = t.going in
      let unfinished = t.unfinished in
      let (a, b, _) = t.entered label e in
      let starts = step_going index (terminal_record D c status filled avg_px) s going unfinished in
      elim (terminal_step_taken D c w prints positive_px size_not_negative L s label status filled
        avg_px (t.entered label e) go valid (t.uncredited open_yet) within) [
          | inl (fill, h) ↦ inl (
            credit D c.intent.cloid (written_outcome D c w status filled avg_px) fill s,
            starts ∙ h,
            entered-Tracks closed at_terminal _ refl going unfinished
                (a, b, lookup-insert_same c.intent.cloid at_terminal s.states)
                (λ no. absurd (no refl)),
          )
          | inr h ↦ inr (starts ∙ h)
        ]

  pub zero_within : IsWithinIntent D c w (from_nat D 0) none
  zero_within = (
    (zero_value D L).1,
    (let z = zero_value D L in let n = size_not_negative in ground arith),
    inl (zero_value D L).0,
  )

  pub step_taken :
      {from to : SliceState} (r : JournalRecord) (s : ReplayState D) (index : ℕ)
      → Tracks D c w from s
      → SliceStep D c w from (wrote r) to
      → TakenInto to (step D index r s)
  unfolding apply_record submitted_step acknowledged_step
  step_taken r s index t prepare = inl (
    _,
    step_going index r s t.going t.unfinished
        ∙ prepared_step_ok D c w prints positive_px size_not_negative s (t.new refl),
    entered-Tracks ready at_prepared _ refl t.going t.unfinished
        (
          lookup-insert_same c.intent.cloid (written_intent D c w) s.prepared,
          lookup-insert_same c.intent.cloid (accounted D c w) s.accounting_prepared,
          lookup-insert_same c.intent.cloid at_prepared s.states,
        )
        (λ _. t.uncredited (λ e. cc)),
  )
  step_taken r s index t mark =
      taken_transition in_flight (unresolved 0) at_prepared at_submitted s submitted _ refl refl
        (λ e. cc) t
        (let goes =
            check_transition_ok D c w prints positive_px size_not_negative s at_prepared
              at_submitted (t.entered at_prepared refl) refl in
          step_going index r s t.going t.unfinished ∙ rw goes refl)
  step_taken r s index t (acknowledge from n oid at reply) =
      let go = IsAttempt-MayGo from n at_acknowledged (inr refl) at in
      taken_transition from (on_book n oid) go.label at_acknowledged s known _ go.stands refl
        go.still t
        (let goes =
            check_transition_ok D c w prints positive_px size_not_negative s go.label
              at_acknowledged (t.entered go.label go.stands) go.may in
          step_going index r s t.going t.unfinished ∙ rw goes refl)
  step_taken r s index t (close_unsent status valid) =
      taken_closing ready at_prepared s index status (from_nat D 0) none refl refl (λ e. cc) valid
        zero_within t
  step_taken r s index t (close_absent n status gone valid) =
      taken_closing (unresolved n) at_submitted s index status (from_nat D 0) none refl refl
        (λ e. cc) valid zero_within t
  step_taken r s index t (close_rejected from n code message status at reply valid) =
      let go = IsAttempt-MayGo from n at_terminal (inl refl) at in
      taken_closing from go.label s index status (from_nat D 0) none go.stands go.may go.still valid
        zero_within t
  step_taken r s index t (close_credited from status filled avg_px sending credited within valid) =
      let go = IsSent-MayGo from sending in
      taken_closing from go.label s index status filled avg_px go.stands go.may go.still valid
        within t
