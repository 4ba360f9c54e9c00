-- ===== src/Twap/Place/Records.antt =====
-- src/twap.rs, src/journal.rs: the records that `place_slice_reconciled` writes, one by one, as the
-- replay of the journal reads them.
use hype_trigger_twap.Prelude.{
  ◌≡◌, refl, arith, Option, none, some, true, false, not, ◌&&◌, String, inl, inr, ◌⊎◌, Bool-cases,
  Option-cases, ok, err, ◌==◌, lookup,
}
use hype_trigger_twap.Decimal.{DecimalApi, from_nat, lt, le}
use hype_trigger_twap.Decimal.Laws.{DecimalLaws}
use hype_trigger_twap.Types.{Side, long, short}
use hype_trigger_twap.Client.Fill.{PriceHolds, outside_limit, zero_value}
use hype_trigger_twap.Journal.Records.{
  Label, at_prepared, at_submitted, at_acknowledged, at_terminal, PreparedJournalIntent,
  TerminalOutcome,
}
use hype_trigger_twap.Journal.Errors.{accounting, overflow}
use hype_trigger_twap.Journal.Replay.{
  ReplayState, TerminalFill, AccountingPrepared, allowed, is_valid_journal_terminal_status, decimal,
}
use hype_trigger_twap.Journal.Replay.Transitions.{
  prepared_step, check_prepared, check_unprepared, check_transition, admit, fill_price,
  contribution, is_alo, is_short, terminal_step, check_terminal, check_regression, credit,
}
use hype_trigger_twap.Twap.Place.{SliceCall, Surroundings, text_of}
use hype_trigger_twap.Twap.Place.Contract.{
  SliceState, idle, ready, in_flight, unresolved, on_book, closed, IsWithinIntent,
}

-- What the journal says of the order's cloid in each state.
abbrev pub label_of : SliceState → Option Label
label_of idle = none
label_of ready = some at_prepared
label_of in_flight = some at_prepared
label_of (unresolved n) = some at_submitted
label_of (on_book n oid) = some at_acknowledged
label_of closed = some at_terminal

module _ (D : DecimalApi) (c : SliceCall D) (w : Surroundings D) where
  open D use {Decimal, parse, to_string, checked_mul}

  abbrev pub written_intent : PreparedJournalIntent
  written_intent = record {
    slice_idx = c.slice_idx;
    symbol = c.intent.symbol;
    side = c.intent.side;
    tif = some c.intent.tif;
    px = to_string c.intent.px;
    sz = to_string c.intent.sz;
  }

  abbrev pub accounted : AccountingPrepared D
  accounted = record {
    px = c.intent.px;
    sz = c.intent.sz;
    side = c.intent.side;
    tif = some c.intent.tif;
  }

  abbrev pub written_outcome : String → Decimal → Option Decimal → TerminalOutcome
  written_outcome status filled avg_px = record {
    status = status;
    filled_sz = to_string filled;
    avg_px = text_of D avg_px;
  }

  -- The entries of the cloid in the replay's maps, once it is prepared.
  abbrev pub IsEntered : Label → ReplayState D → Type 0
  IsEntered label s =
      (lookup c.intent.cloid s.prepared ≡ some written_intent)
      × (lookup c.intent.cloid s.accounting_prepared ≡ some accounted)
      × (lookup c.intent.cloid s.states ≡ some label)

  -- The replay's state agrees with the contract's, and the journal is not closed.
  pub record Tracks (state : SliceState) (s : ReplayState D) : Type 0 where
    pub going : s.abandoned ≡ false
    pub unfinished : s.completed_final_seen ≡ false
    pub entered : (label : Label) → label_of state ≡ some label → IsEntered label s
    pub new : state ≡ idle → lookup c.intent.cloid s.prepared ≡ none
    pub uncredited : (state ≡ closed → ⊥) → lookup c.intent.cloid s.terminal_fills ≡ none

  limit_kept :
      (side : Side) (px limit : Decimal)
      → PriceHolds D side px limit
      → outside_limit D side px limit ≡ false
  limit_kept long px limit h = ground arith
  limit_kept short px limit h = ground arith

  module _ (prints : (d : Decimal) → parse (to_string d) ≡ some d)
      (positive_px : le D c.intent.px (from_nat D 0) ≡ false)
      (size_not_negative : lt D c.intent.sz (from_nat D 0) ≡ false) where
    pub prepared_step_ok :
        (s : ReplayState D)
        → lookup c.intent.cloid s.prepared ≡ none
        → prepared_step D c.intent.cloid written_intent s
          ≡ ok (admit D c.intent.cloid written_intent accounted s)
    unfolding prepared_step check_prepared check_unprepared decimal
    prepared_step_ok s e =
        rw (e, prints c.intent.sz, size_not_negative, prints c.intent.px, positive_px) refl

    pub check_transition_ok :
        (s : ReplayState D) (from to : Label)
        → IsEntered from s
        → allowed from to ≡ true
        → check_transition D c.slice_idx c.intent.cloid to s ≡ ok tt
    unfolding check_transition
    check_transition_ok s from to (e, _, l) go =
        let same : c.slice_idx == c.slice_idx ≡ true = ground arith in rw (e, same, l, go) refl

    module _ (L : DecimalLaws D) where
      open D use {plus, minus}
      open L use {one_sign}

      -- The price of a fill within the intent is one that the replay takes.
      priced_fill :
          (filled : Decimal) (avg_px : Option Decimal)
          → lt D (from_nat D 0) filled ≡ true
          → IsWithinIntent D c w filled avg_px
          → (price : Decimal × Option Decimal) × (fill_price D c.intent.cloid accounted
                (text_of D avg_px)
              ≡ ok price)
      unfolding fill_price decimal
      priced_fill filled none more (nonneg, bound, price) =
          let maker : is_short D c.intent.side && not (is_alo D (some c.intent.tif)) ≡ false =
            ground (arith, zero_value D L) in
          ((c.intent.px, none), rw maker refl)
      priced_fill filled (some px) more (nonneg, bound, inl z) =
          absurd (ground (arith, zero_value D L))
      priced_fill filled (some px) more (nonneg, bound, inr (paid, within)) =
          let above : le D px (from_nat D 0) ≡ false =
            ground (arith, zero_value D L, one_sign px, paid) in
          let inside : outside_limit D c.intent.side px c.intent.px ≡ false =
            limit_kept c.intent.side px c.intent.px within in
          ((px, some px), rw (prints px, above, inside) refl)

      abbrev pub TakenOrOverflow : Decimal → Option Decimal → Type 0
      TakenOrOverflow filled avg_px =
          ((next : TerminalFill D) × (contribution D c.intent.cloid accounted filled
                (text_of D avg_px)
              ≡ ok next))
          ⊎ (contribution D c.intent.cloid accounted filled (text_of D avg_px)
              ≡ err (accounting (overflow c.intent.cloid "fill size by price")))

      pub contribution_taken :
          (filled : Decimal) (avg_px : Option Decimal)
          → IsWithinIntent D c w filled avg_px
          → TakenOrOverflow filled avg_px
      unfolding contribution
      contribution_taken filled avg_px within = elim (Bool-cases (lt D (from_nat D 0) filled)) [
        | inr nothing ↦
            inl (
              record { filled_sz = filled; notional = from_nat D 0; avg_px = none },
              rw nothing refl,
            )
        | inl more ↦
            let no_over : lt D c.intent.sz filled ≡ false = (let b = within.1 in ground arith) in
            let ((price, trusted), e) = priced_fill filled avg_px more within in
            elim (Option-cases (checked_mul filled price)) [
              | inl too_large ↦ inr (rw (more, no_over, e, too_large) refl)
              | inr (notional, fits) ↦ inl (
                record { filled_sz = filled; notional = notional; avg_px = trusted },
                rw (more, no_over, e, fits) refl,
              )
            ]
      ]

      pub terminal_step_taken :
          (s : ReplayState D) (from : Label) (status : String) (filled : Decimal)
          (avg_px : Option Decimal)
          → IsEntered from s
          → allowed from at_terminal ≡ true
          → is_valid_journal_terminal_status status ≡ true
          → lookup c.intent.cloid s.terminal_fills ≡ none
          → IsWithinIntent D c w filled avg_px
          → ((next : TerminalFill D) × (terminal_step D c.slice_idx c.intent.cloid
                  (written_outcome status filled avg_px)
                  s
                ≡ ok (credit D c.intent.cloid (written_outcome status filled avg_px) next s)))
            ⊎ (terminal_step D c.slice_idx c.intent.cloid (written_outcome status filled avg_px) s
                ≡ err (accounting (overflow c.intent.cloid "fill size by price")))
      unfolding terminal_step check_terminal check_regression decimal
      terminal_step_taken s from status filled avg_px entered go valid first within =
          let moves = check_transition_ok s from at_terminal entered go in
          let not_below : lt D filled (from_nat D 0) ≡ false =
            (let n = within.0 in ground (arith, zero_value D L)) in
          let known = entered.1 in
          elim (contribution_taken filled avg_px within) [
            | inl (next, e) ↦
                inl (next, rw (moves, valid, prints filled, not_below, known, e, first) refl)
            | inr e ↦ inr (rw (moves, valid, prints filled, not_below, known, e) refl)
          ]
