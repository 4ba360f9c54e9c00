-- ===== src/Twap/Place/Acceptance.antt =====
-- src/twap.rs, src/journal.rs: what `place_slice_reconciled` writes, the replay of the journal takes.
use hype_trigger_twap.Prelude.{
  ℕ, suc, ◌+◌, ◌≡◌, refl, none, some, Bool, false, List, [], ◌∷◌, ◌++◌, inl, inr, lookup, sym,
}
use mathlib.Core.Path.{subst}
use hype_trigger_twap.Prelude.Runs.{Trace, stop, next}
use hype_trigger_twap.Decimal.{DecimalApi, from_nat, lt, le}
use hype_trigger_twap.Decimal.Laws.{DecimalLaws}
use hype_trigger_twap.Journal.Records.{JournalRecord, at_prepared, at_submitted}
use hype_trigger_twap.Journal.Replay.{ReplayState}
use hype_trigger_twap.Journal.Replay.Transitions.Closing.{replay_from}
use hype_trigger_twap.Twap.Place.{
  Event, wrote, sent, SliceCall, Surroundings, place_slice_reconciled,
}
use hype_trigger_twap.Twap.Place.Contract.{
  SliceState, idle, in_flight, unresolved, SliceStep, send_first, send_again,
}
use hype_trigger_twap.Twap.Place.Refinement.{place_slice_reconciled-Follows}
use hype_trigger_twap.Twap.Place.Records.{Tracks}
use hype_trigger_twap.Twap.Place.Taken.{is_some_label, entered-Tracks, TakenInto, step_taken}

-- The records of a log, in their order.
abbrev pub records : List Event → List JournalRecord
records [] = []
records (wrote r ∷ rest) = r ∷ records rest
records (sent n ∷ rest) = records rest

module _ (D : DecimalApi) (L : DecimalLaws D) (c : SliceCall D) (w : Surroundings D)
    (prints : (d : D.Decimal) → D.parse (D.to_string d) ≡ some d)
    (positive_px : le D c.intent.px (from_nat D 0) ≡ false)
    (size_not_negative : lt D c.intent.sz (from_nat D 0) ≡ false) where
  open D use {Decimal, plus, minus}

  -- A send leaves the journal as it is, and what it knows of the order.
  sent-Tracks :
      {from to : SliceState} (n : ℕ) (s : ReplayState D)
      → Tracks D c w from s
      → SliceStep D c w from (sent n) to
      → Tracks D c w to s
  sent-Tracks n s t (send_first may) =
      entered-Tracks D L c w prints positive_px size_not_negative in_flight at_prepared s refl
        t.going t.unfinished (t.entered at_prepared refl) (λ _. t.uncredited (λ e. cc))
  sent-Tracks n s t (send_again m gone lt may) =
      entered-Tracks D L c w prints positive_px size_not_negative (unresolved (suc m)) at_submitted
        s refl t.going t.unfinished (t.entered at_submitted refl) (λ _. t.uncredited (λ e. cc))

  run_taken :
      (vs : List Event) {from to : SliceState} (s : ReplayState D) (index : ℕ)
      → Tracks D c w from s
      → Trace (SliceStep D c w) from vs to
      → TakenInto D L c w prints positive_px size_not_negative to
          (replay_from D index (records vs) s)
  unfolding replay_from
  run_taken [] {from} {to} s index t stop = inl (s, refl, t)
  run_taken (sent n ∷ vs) {from} {to} s index t (next {t = middle} one rest) =
      run_taken vs {from = middle} {to = to} s index (sent-Tracks n s t one) rest
  run_taken (wrote r ∷ vs) {from} {to} s index t (next {t = middle} one rest) =
      elim (step_taken D L c w prints positive_px size_not_negative r s index t one) [
        | inl (s', e, t') ↦ rw e (run_taken vs {from = middle} {to = to} s' (1 + index) t' rest)
        | inr e ↦ inr (rw e refl)
      ]

  -- The part of a run before a cut.
  cut :
      (vs ws : List Event) {from to : SliceState}
      → Trace (SliceStep D c w) from (vs ++ ws) to
      → (middle : SliceState) × Trace (SliceStep D c w) from vs middle
  cut [] ws {from} run = (from, stop)
  cut (v ∷ vs) ws {from} (next {t = after} one rest) =
      let (middle, before) = cut vs ws {from = after} rest in (middle, next one before)

  -- The replay of a journal that is not closed and does not name the order yet.
  pub record Awaits (s : ReplayState D) : Type 0 where
    pub going : s.abandoned ≡ false
    pub unfinished : s.completed_final_seen ≡ false
    pub unprepared : lookup c.intent.cloid s.prepared ≡ none
    pub uncredited : lookup c.intent.cloid s.terminal_fills ≡ none

  Awaits-Tracks : (s : ReplayState D) → Awaits s → Tracks D c w idle s
  Awaits-Tracks s a = record {
    going = a.going;
    unfinished = a.unfinished;
    entered = λ label e.
        absurd (is_some_label D L c w prints positive_px size_not_negative label (sym e));
    new = λ _. a.unprepared;
    uncredited = λ _. a.uncredited;
  }

  -- Wherever the log of a slice is cut, by a crash or an error, the replay that awaits the order
  -- takes the records before the cut, and then knows of the order what the state says to which the
  -- contract has come by the events before the cut; unless
  -- the notional of its fill overflows. The order's price is positive and its size not negative,
  -- and a printed decimal is read back as it was.
  pub place_slice_reconciled-TakenInto :
      (accepts : JournalRecord → Bool)
      → c.sink ≡ some accepts
      → (s : ReplayState D) (index : ℕ) → Awaits s
      → (before after : List Event) → (place_slice_reconciled D c w).events ≡ before ++ after
      → (state : SliceState) × Trace (SliceStep D c w) idle before state
        × TakenInto D L c w prints positive_px size_not_negative state
            (replay_from D index (records before) s)
  place_slice_reconciled-TakenInto accepts attached s index awaits before after e =
      let follows = place_slice_reconciled-Follows D L c w accepts attached in
      let run = subst (λ vs. Trace (SliceStep D c w) idle vs follows.last) e follows.run in
      let (state, part) = cut before after run in
      (state, part, run_taken before s index (Awaits-Tracks s awaits) part)
