-- ===== src/Journal/Summary/Completion.antt =====
-- src/journal.rs: when a run counts as incomplete.
use hype_trigger_twap.Prelude.{
  ◌≡◌, refl, sym, ap, ◌∙◌, Bool, true, false, not, ◌||◌, List, [], ◌∷◌, any, Map, ok, >>=-eq-ok,
  ok-injective, Bool-cases, inl, inr, arith,
}
use hype_trigger_twap.Decimal.{DecimalApi}
use hype_trigger_twap.Journal.Records.{JournalRecord, CloidState}
use hype_trigger_twap.Journal.Replay.{is_closed, unresolved_of, ReplayState, calculate_totals}
use hype_trigger_twap.Journal.Replay.Transitions.Closing.{replay_records}
use hype_trigger_twap.Journal.Ending.{is_ended, IsFinal}
use hype_trigger_twap.Journal.Ending.Loop.{ends_with, replay_records-IsFinal}
use hype_trigger_twap.Journal.Summary.{
  ValidatedJournalReplay, summary_of, replay, is_incomplete, unresolved_cloids,
}

or_true : (a : Bool) → a || true ≡ true
or_true a = ground arith

any-open :
    (m : Map CloidState) → unresolved_of m ≡ [] → any (λ (c, st). not (is_closed st)) m ≡ false
unfolding unresolved_of
any-open [] h = refl
any-open ((c, st) ∷ m) h = elim (Bool-cases (is_closed st)) [
  | inl y ↦ rw (y, any-open m (rw y at h))
  | inr n ↦ cc
]

module _ (D : DecimalApi) where
  final-is_incomplete :
      (s : ReplayState D) (last : Bool)
      → IsFinal D last s
      → is_incomplete (summary_of D s) ≡ not last
  unfolding is_incomplete
  final-is_incomplete s last (closed, over, head) = elim (Bool-cases s.abandoned) [
    | inl gone ↦ rw (head, gone) (ap not (sym (ap (λ a. a || s.completed_final_seen) gone) ∙ over))
    | inr kept ↦ elim (Bool-cases s.completed_final_seen) [
      | inl done ↦
          let ended : is_ended D s ≡ true = rw (kept, done) refl in
          rw
            (
              head,
              kept,
              closed.seen done,
              closed.consistent ∙ done,
              closed.none_unknown done,
              any-open s.state_values (closed.none_open ended),
            )
            (ap not (sym ended ∙ over))
      | inr not_done ↦
          let going : is_ended D s ≡ false = rw (kept, not_done) refl in
          rw (head, kept, closed.consistent ∙ not_done, or_true (not s.final_report_seen))
            (ap not (sym going ∙ over))
    ]
  ]

  replay-state :
      (records : List JournalRecord) {v : ValidatedJournalReplay D}
      → replay D records ≡ ok v
      → (s : ReplayState D) × (replay_records D records ≡ ok s) × (summary_of D s ≡ v.summary)
  unfolding replay
  replay-state records e =
      let (s, e1, rest) = >>=-eq-ok (replay_records D records) _ e in
      let ((totals, vwap), _, q) = >>=-eq-ok (calculate_totals D s.terminal_fills) _ rest in
      (s, e1, ap (λ w. w.summary) (ok-injective q))

  -- An accepted journal is incomplete exactly if its last record is neither a completed report nor
  -- the record of abandonment, whatever the states of its orders.
  pub replay-is_incomplete :
      (records : List JournalRecord) {v : ValidatedJournalReplay D}
      → replay D records ≡ ok v
      → is_incomplete v.summary ≡ not (ends_with records)
  replay-is_incomplete records e =
      let (s, e1, q) = replay-state records e in
      sym (ap is_incomplete q) ∙ final-is_incomplete s _ (replay_records-IsFinal D records e1)

  -- A journal that ends with a completed report or an abandonment leaves no order open.
  pub replay-unresolved_cloids :
      (records : List JournalRecord) {v : ValidatedJournalReplay D}
      → replay D records ≡ ok v
      → ends_with records ≡ true
      → unresolved_cloids v.summary ≡ []
  unfolding unresolved_cloids
  replay-unresolved_cloids records e h =
      let (s, e1, q) = replay-state records e in
      let (closed, over, _) = replay_records-IsFinal D records e1 in
      ap (λ r. unresolved_of r.cloids) (sym q) ∙ closed.none_open (over ∙ h)
