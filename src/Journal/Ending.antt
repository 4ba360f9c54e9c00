-- ===== src/Journal/Ending.antt =====
-- src/journal.rs: which records may follow which, and what an accepted journal says of its end.
pub mod Loop
use hype_trigger_twap.Prelude.{
  is_some, ℕ, ◌+◌, ◌≡◌, refl, sym, ap, ◌∙◌, String, ◌||◌, or_parts, Bool, true, false, not, ◌&&◌,
  Option, none, some, List, [], ◌∷◌, ◌++◌, length, is_empty, Map, Result, ok, err, ok_or,
  fail_if-ok, fail_if, fail_if-eq-ok, >>=-eq-ok, >>=-ok-eq-ok, ok-injective, ok_or-eq-ok, ◌>>=◌,
  ◌>>◌, if◌then◌else◌, ◌==◌, arith, Bool-cases, inl, inr, ◌⊎◌, and_parts, not-false,
}
use mathlib.Core.Path.{subst}
use hype_trigger_twap.Decimal.{DecimalApi, eq}
use hype_trigger_twap.Types.{Cloid}
use hype_trigger_twap.Journal.Records.{
  RunHeader, FinalReport, JournalRecord, header, prepared, submitted_unknown, acknowledged,
  terminal, final_report, abandoned, CloidState, PreparedJournalIntent, TerminalOutcome,
  at_submitted, at_acknowledged, at_terminal, Label, submitted, known,
}
use hype_trigger_twap.Journal.Summary.{is_true}
use hype_trigger_twap.Journal.WholeRun.{validate_whole_run}
use hype_trigger_twap.Journal.Replay.{unresolved_of, ReplayState, Replayed, calculate_totals}
use hype_trigger_twap.Journal.Replay.Transitions.{
  check_header, open_header, header_step, check_prepared, admit, prepared_step, check_transition,
  enter, check_terminal, credit, terminal_step,
}
use hype_trigger_twap.Journal.Replay.Transitions.Closing.{
  submitted_step, check_final_report, close_report, check_abandoned, acknowledged_step,
  check_unknown, final_report_step, abandoned_step, is_header, apply_record, step, replay_from,
}

-- The records that end a journal.
abbrev pub ends : JournalRecord → Bool
ends (final_report report) = report.completed
ends (abandoned reason) = true
ends _ = false

length-zero : (cs : List Cloid) → not (length cs == 0) ≡ false → cs ≡ []
length-zero [] h = refl
length-zero (c ∷ cs) h = ground arith

is_empty-nil : (cs : List Cloid) → is_empty cs ≡ true → cs ≡ []
is_empty-nil [] h = refl
is_empty-nil (c ∷ cs) h = cc

module _ (D : DecimalApi) where
  -- The two flags that close the loop.
  abbrev pub is_ended : ReplayState D → Bool
  is_ended s = s.abandoned || s.completed_final_seen

  -- What the last report says agrees with the flag.
  abbrev pub IsConsistent : ReplayState D → Type 0
  IsConsistent s = is_true s.last_completed ≡ s.completed_final_seen

  -- What the two flags promise: a completed report is seen and names no unknown order; after it,
  -- and after abandonment, no order is open.
  pub record IsClosed (s : ReplayState D) : Type 0 where
    pub consistent : IsConsistent s
    pub seen : s.completed_final_seen ≡ true → s.final_report_seen ≡ true
    pub none_unknown : s.completed_final_seen ≡ true → s.last_unknown_cloids ≡ some []
    pub none_open : is_ended s ≡ true → unresolved_of s.state_values ≡ []

  -- The flags and the last report as they were.
  abbrev pub Quiet : ReplayState D → ReplayState D → Type 0
  Quiet s t =
      (t.abandoned ≡ s.abandoned)
      × (t.completed_final_seen ≡ s.completed_final_seen)
      × (t.last_completed ≡ s.last_completed)

  -- What an accepted record does: it leaves the flags as they are, or it is a report, or it abandons.
  pub data Effect (s : ReplayState D) : JournalRecord → ReplayState D → Type 0 where
    quiet :
        {r : JournalRecord} {t : ReplayState D}
        → ends r ≡ false
        → Quiet s t
        → (is_header D r || is_some s.header ≡ true → is_some t.header ≡ true)
        → Effect s r t
    reported :
        {report : FinalReport} {t : ReplayState D}
        → check_unknown D report s.state_values ≡ ok tt
        → close_report D report s ≡ t
        → Effect s (final_report report) t
    gave_up :
        {reason : String} {t : ReplayState D}
        → check_abandoned D s ≡ ok tt
        → record s { abandoned = true } ≡ t
        → Effect s (abandoned reason) t

  check_final_report-unknown :
      (report : FinalReport) (s : ReplayState D)
      → check_final_report D report s ≡ ok tt
      → check_unknown D report s.state_values ≡ ok tt
  unfolding check_final_report
  check_final_report-unknown report s e =
      let (sum, _, e1) = >>=-eq-ok (ok_or (D.parse report.filled_total) _) _ e in
      let ((totals, vwap), _, e2) = >>=-eq-ok (calculate_totals D s.terminal_fills) _ e1 in
      let (_, e3) = fail_if-eq-ok (not (eq D sum totals.filled_sz)) _ _ e2 in
      let (u, _, e4) =
        >>=-eq-ok
          (validate_whole_run D s.header report.whole_run totals vwap
            (length (unresolved_of s.state_values)))
          _ e3 in
      e4

  apply_record-Effect :
      (index : ℕ) (r : JournalRecord) (s : ReplayState D) {t : ReplayState D}
      → apply_record D index r s ≡ ok t
      → Effect s r t
  unfolding apply_record header_step prepared_step submitted_step acknowledged_step terminal_step
      final_report_step abandoned_step
  apply_record-Effect index (header h) s e =
      let (cap, _, q) = >>=-ok-eq-ok (check_header D index h) (λ cap. open_header D h cap s) e in
      quiet refl (subst (Quiet s) q (refl, refl, refl))
        (λ _. subst (λ u. is_some u.header ≡ true) q refl)
  apply_record-Effect index (prepared cloid _ intent) s e =
      let (p, _, q) =
        >>=-ok-eq-ok (check_prepared D cloid intent s) (λ p. admit D cloid intent p s) e in
      quiet refl (subst (Quiet s) q (refl, refl, refl)) (subst (λ u. is_some u.header ≡ true) q)
  apply_record-Effect index (submitted_unknown slice cloid) s e =
      let (_, _, q) =
        >>=-ok-eq-ok (check_transition D slice cloid at_submitted s)
          (λ _. enter D cloid at_submitted submitted s) e in
      quiet refl (subst (Quiet s) q (refl, refl, refl)) (subst (λ u. is_some u.header ≡ true) q)
  apply_record-Effect index (acknowledged slice cloid oid status) s e =
      let (_, _, q) =
        >>=-ok-eq-ok (check_transition D slice cloid at_acknowledged s)
          (λ _. enter D cloid at_acknowledged known s) e in
      quiet refl (subst (Quiet s) q (refl, refl, refl)) (subst (λ u. is_some u.header ≡ true) q)
  apply_record-Effect index (terminal slice cloid outcome) s e =
      let (p, _, q) =
        >>=-ok-eq-ok (check_terminal D slice cloid outcome s) (λ p. credit D cloid outcome p s) e in
      quiet refl (subst (Quiet s) q (refl, refl, refl)) (subst (λ u. is_some u.header ≡ true) q)
  apply_record-Effect index (final_report report) s e =
      let (_, c, q) =
        >>=-ok-eq-ok (check_final_report D report s) (λ _. close_report D report s) e in
      reported (check_final_report-unknown report s c) q
  apply_record-Effect index (abandoned reason) s e =
      let (_, c, q) = >>=-ok-eq-ok (check_abandoned D s) (λ _. record s { abandoned = true }) e in
      gave_up c q

  completed_facts :
      (report : FinalReport) (values : Map CloidState)
      → check_unknown D report values ≡ ok tt
      → report.completed ≡ true
      → (report.outcome_unknown_cloids ≡ []) × (unresolved_of values ≡ [])
  unfolding check_unknown
  completed_facts report values c h =
      let empty =
        fail_if-ok (not (is_empty report.outcome_unknown_cloids && is_empty (unresolved_of values)))
          _ (rw h at c) in
      let (e, f) = and_parts (is_empty report.outcome_unknown_cloids) _ (not-false _ empty) in
      (is_empty-nil _ e, is_empty-nil _ f)

  abandoned_facts :
      (s : ReplayState D) → check_abandoned D s ≡ ok tt → unresolved_of s.state_values ≡ []
  unfolding check_abandoned
  abandoned_facts s c =
      length-zero _ (fail_if-ok (not (length (unresolved_of s.state_values) == 0)) _ c)

  -- A state in which the loop may go on.
  abbrev pub IsLive : ReplayState D → Type 0
  IsLive s = (s.abandoned ≡ false) × (s.completed_final_seen ≡ false) × IsConsistent s

  -- The state at the end of an accepted journal.
  abbrev pub IsFinal : Bool → ReplayState D → Type 0
  IsFinal last s = IsClosed s × (is_ended s ≡ last) × (is_some s.header ≡ true)

  pub false-true : {A : Type 0} (b : Bool) → b ≡ false → b ≡ true → A
  false-true b h k = cc

  drop_false : (a b : Bool) → a ≡ false → a || b ≡ b
  drop_false a b h = ground arith

  pub Effect-IsFinal :
      (s : ReplayState D) (r : JournalRecord) (t : ReplayState D)
      → IsLive s
      → is_some t.header ≡ true
      → Effect s r t
      → IsFinal (ends r) t
  Effect-IsFinal s r t (na, nc, same) head (quiet e (ab, co, la) _) =
      let tc : t.completed_final_seen ≡ false = co ∙ nc in
      let over : is_ended t ≡ false = drop_false t.abandoned _ (ab ∙ na) ∙ tc in
      (
        record {
          consistent = ap is_true la ∙ (same ∙ sym co);
          seen = false-true _ tc;
          none_unknown = false-true _ tc;
          none_open = false-true _ over;
        },
        over ∙ sym e,
        head,
      )
  Effect-IsFinal s (final_report report) t (na, nc, same) head (reported c q) =
      let step : is_ended (close_report D report s) ≡ report.completed =
        drop_false s.abandoned _ na in
      (
        subst IsClosed q (record {
          consistent = refl;
          seen = λ h. refl;
          none_unknown = λ h. ap some (completed_facts report s.state_values c h).0;
          none_open = λ h. (completed_facts report s.state_values c (sym step ∙ h)).1;
        }),
        sym (ap is_ended q) ∙ step,
        head,
      )
  Effect-IsFinal s (abandoned reason) t (na, nc, same) head (gave_up c q) = (
    subst IsClosed q (record {
      consistent = same;
      seen = false-true _ nc;
      none_unknown = false-true _ nc;
      none_open = λ h. abandoned_facts s c;
    }),
    sym (ap is_ended q),
    head,
  )

  -- A step that was accepted started from a state that was not ended, and had its effect.
  pub step-Effect :
      (index : ℕ) (r : JournalRecord) (s : ReplayState D) {t : ReplayState D}
      → step D index r s ≡ ok t
      → (s.abandoned ≡ false) × (s.completed_final_seen ≡ false) × Effect s r t
  unfolding step
  step-Effect index r s e =
      let (na, e1) = fail_if-eq-ok s.abandoned _ _ e in
      let (nc, e2) = fail_if-eq-ok s.completed_final_seen _ _ e1 in
      (na, nc, apply_record-Effect index r s e2)

  pub Effect-header :
      (s : ReplayState D) (r : JournalRecord) (t : ReplayState D)
      → is_header D r || is_some s.header ≡ true
      → Effect s r t
      → is_some t.header ≡ true
  Effect-header s r t h (quiet e _ keeps) = keeps h
  Effect-header s (final_report report) t h (reported c q) =
      subst (λ u. is_some u.header ≡ true) q h
  Effect-header s (abandoned reason) t h (gave_up c q) = subst (λ u. is_some u.header ≡ true) q h
