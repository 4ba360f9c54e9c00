-- ===== src/Twap/Resume/Taken.antt =====
-- src/main.rs, src/journal.rs: the record of a resume, as the replay of the journal reads it.
use hype_trigger_twap.Prelude.{
  ℕ, ◌≡◌, refl, sym, Option, some, Bool, true, false, ok, String, List, [], ◌∷◌, inl, inr,
}
use mathlib.Core.Path.{subst}
use hype_trigger_twap.Decimal.{DecimalApi, from_nat, lt, le}
use hype_trigger_twap.Decimal.Laws.{DecimalLaws}
use hype_trigger_twap.Journal.Records.{
  JournalRecord, Label, at_prepared, at_submitted, at_acknowledged, at_terminal,
}
use hype_trigger_twap.Journal.Replay.{ReplayState, allowed, is_valid_journal_terminal_status}
use hype_trigger_twap.Journal.Replay.Transitions.Closing.{step, replay_from}
use hype_trigger_twap.Twap.Place.{Event, wrote, SliceCall, Surroundings, terminal_record}
use hype_trigger_twap.Twap.Place.Contract.{
  SliceState, idle, ready, in_flight, unresolved, on_book, closed, IsWithinIntent,
}
use hype_trigger_twap.Twap.Place.Records.{Tracks, label_of}
use hype_trigger_twap.Twap.Place.Taken.{TakenInto, taken_closing, zero_within}
use hype_trigger_twap.Twap.Place.Acceptance.{records}
use hype_trigger_twap.Twap.Resume.{ResumeWorld, reconcile_unresolved_cloid}
use hype_trigger_twap.Twap.Resume.Resolved.{Resolved, reconcile_unresolved_cloid-Resolved}

-- The order is prepared, and not closed.
abbrev pub IsOpen : SliceState → Type 0
IsOpen idle = ⊥
IsOpen closed = ⊥
IsOpen s = Unit

module _ (D : DecimalApi) (L : DecimalLaws D) (c : SliceCall D) (w : ResumeWorld D)
    (around : Surroundings D) (prints : (d : D.Decimal) → D.parse (D.to_string d) ≡ some d)
    (positive_px : le D c.intent.px (from_nat D 0) ≡ false)
    (size_not_negative : lt D c.intent.sz (from_nat D 0) ≡ false) where
  open D use {Decimal}

  abbrev IsReadAsClosed : Event → ReplayState D → ℕ → Type 0
  IsReadAsClosed v s index =
      TakenInto D L c around prints positive_px size_not_negative closed
        (replay_from D index (records (v ∷ [])) s)

  read_alone :
      (r : JournalRecord) (s : ReplayState D) (index : ℕ)
      → TakenInto D L c around prints positive_px size_not_negative closed (step D index r s)
      → IsReadAsClosed (wrote r) s index
  unfolding replay_from
  read_alone r s index taken = elim taken [
    | inl (s', e, t) ↦ inl (s', rw e refl, t)
    | inr e ↦ inr (rw e refl)
  ]

  closing_taken :
      (from : SliceState) (label : Label) (s : ReplayState D) (index : ℕ) (status : String)
      (filled : Decimal) (avg_px : Option Decimal)
      → label_of from ≡ some label
      → allowed label at_terminal ≡ true
      → (from ≡ closed → ⊥)
      → is_valid_journal_terminal_status status ≡ true
      → IsWithinIntent D c around filled avg_px
      → Tracks D c around from s
      → IsReadAsClosed (wrote (terminal_record D c status filled avg_px)) s index
  closing_taken from label s index status filled avg_px e go open_yet valid within t =
      read_alone (terminal_record D c status filled avg_px) s index (
        taken_closing D L c around prints positive_px size_not_negative from label s index status
          filled avg_px e go open_yet valid within t)

  open_taken :
      (from : SliceState) (s : ReplayState D) (index : ℕ) (status : String) (filled : Decimal)
      (avg_px : Option Decimal)
      → IsOpen from
      → is_valid_journal_terminal_status status ≡ true
      → IsWithinIntent D c around filled avg_px
      → Tracks D c around from s
      → IsReadAsClosed (wrote (terminal_record D c status filled avg_px)) s index
  open_taken idle s index status filled avg_px may valid within t = elim may [ ]
  open_taken closed s index status filled avg_px may valid within t = elim may [ ]
  open_taken ready s index status filled avg_px may valid within t =
      closing_taken ready at_prepared s index status filled avg_px refl refl (λ e. cc) valid within
        t
  open_taken in_flight s index status filled avg_px may valid within t =
      closing_taken in_flight at_prepared s index status filled avg_px refl refl (λ e. cc) valid
        within t
  open_taken (unresolved n) s index status filled avg_px may valid within t =
      closing_taken (unresolved n) at_submitted s index status filled avg_px refl refl (λ e. cc)
        valid within t
  open_taken (on_book n oid) s index status filled avg_px may valid within t =
      closing_taken (on_book n oid) at_acknowledged s index status filled avg_px refl refl (λ e. cc)
        valid within t

  -- An order of the journal that is not closed, and that a resume reconciles: the replay takes the
  -- record that is written for it, and knows the order closed, unless the notional of its fill
  -- overflows. A journal is attached, the order's price is positive and its size not negative, and
  -- a printed decimal is read back as it was.
  pub reconcile_unresolved_cloid-TakenInto :
      (accepts : JournalRecord → Bool)
      → c.sink ≡ some accepts
      → (from : SliceState) → IsOpen from
      → (s : ReplayState D) (index : ℕ) → Tracks D c around from s
      → (reconcile_unresolved_cloid D c w).result ≡ ok tt
      → TakenInto D L c around prints positive_px size_not_negative closed
          (replay_from D index (records (reconcile_unresolved_cloid D c w).events) s)
  reconcile_unresolved_cloid-TakenInto accepts attached from may s index t h =
      let r = reconcile_unresolved_cloid-Resolved D L c w around accepts attached h in
      subst
        (λ vs.
          TakenInto D L c around prints positive_px size_not_negative closed
            (replay_from D index (records vs) s))
        (sym r.only) (open_taken from s index r.status r.filled r.avg_px may r.valid (within r) t)
    where
      within :
          {vs : List Event} (r : Resolved D c w around vs)
          → IsWithinIntent D c around r.filled r.avg_px
      within r = elim r.basis [
        | inl (_, none_filled, no_price, _) ↦
            rw (none_filled, no_price)
              (zero_within D L c around prints positive_px size_not_negative)
        | inr credit ↦ credit.within
      ]
