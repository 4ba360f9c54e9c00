-- ===== src/Journal/Credit.antt =====
-- src/journal.rs: what the replay keeps of the orders and of the fills it credits to them, and how
-- one record changes it.
pub mod Bounds
pub mod Growth
use hype_trigger_twap.Prelude.{
  ℕ, ◌+◌, ◌≤◌, ◌≡◌, refl, sym, ap, ◌∙◌, String, Bool, true, false, not, ◌&&◌, Option, none, some,
  is_some, List, Map, lookup, insert, lookup-insert, Result, ok, err, ok_or, fail_if, fail_if-ok,
  fail_if-eq-ok, ok_or-eq-ok, >>=-eq-ok, >>=-ok-eq-ok, ok-injective, ◌>>=◌, ◌>>◌, if◌then◌else◌,
  Bool-cases, inl, inr, ◌⊎◌, ◌==◌, arith, Option-cases,
}
use mathlib.Core.Path.{subst}
use hype_trigger_twap.Decimal.{DecimalApi, from_nat, lt, le}
use hype_trigger_twap.Types.{Cloid, Side, Tif}
use hype_trigger_twap.Client.Fill.{outside_limit}
use hype_trigger_twap.Journal.Records.{
  PreparedJournalIntent, TerminalOutcome, JournalRecord, header, prepared, submitted_unknown,
  acknowledged, terminal, final_report, abandoned, at_submitted, at_acknowledged, at_terminal,
  submitted, known,
}
use hype_trigger_twap.Journal.Errors.{JournalReplayError}
use hype_trigger_twap.Journal.Replay.{
  is_valid_journal_terminal_status, AccountingPrepared, intent_eq, TerminalFill, ReplayState,
  decimal,
}
use hype_trigger_twap.Journal.Replay.Transitions.{
  check_header, open_header, header_step, check_unprepared, check_prepared, admit, prepared_step,
  check_transition, enter, fill_price, contribution, check_regression, check_terminal, credit,
  terminal_step,
}
use hype_trigger_twap.Journal.Replay.Transitions.Closing.{
  submitted_step, acknowledged_step, check_final_report, close_report, final_report_step,
  check_abandoned, abandoned_step, apply_record, step,
}

module _ (D : DecimalApi) where
  open D use {Decimal}

  -- The three maps that carry the accounting.
  abbrev pub Books : Type 0
  Books = Map PreparedJournalIntent × Map (AccountingPrepared D) × Map (TerminalFill D)

  abbrev pub books : ReplayState D → Books
  books s = (s.prepared, s.accounting_prepared, s.terminal_fills)

  -- What an accepted record does to them.
  pub data Booking (s t : ReplayState D) : Type 0 where
    kept : books s ≡ books t → Booking s t
    admitted :
        (cloid : Cloid) (next : PreparedJournalIntent) (p : AccountingPrepared D)
        → check_prepared D cloid next s ≡ ok p
        → books (admit D cloid next p s) ≡ books t
        → Booking s t
    credited :
        (slice_idx : ℕ) (cloid : Cloid) (outcome : TerminalOutcome) (f : TerminalFill D)
        → check_terminal D slice_idx cloid outcome s ≡ ok f
        → books (credit D cloid outcome f s) ≡ books t
        → Booking s t

  pub apply_record-Booking :
      (index : ℕ) (r : JournalRecord) (s : ReplayState D) {t : ReplayState D}
      → apply_record D index r s ≡ ok t
      → Booking s t
  unfolding apply_record header_step prepared_step submitted_step acknowledged_step terminal_step
      final_report_step abandoned_step
  apply_record-Booking index (header h) s e =
      let (cap, _, q) = >>=-ok-eq-ok (check_header D index h) (λ cap. open_header D h cap s) e in
      kept (ap books q)
  apply_record-Booking index (prepared cloid _ intent) s e =
      let (p, c, q) =
        >>=-ok-eq-ok (check_prepared D cloid intent s) (λ p. admit D cloid intent p s) e in
      admitted cloid intent p c (ap books q)
  apply_record-Booking index (submitted_unknown slice cloid) s e =
      let (_, _, q) =
        >>=-ok-eq-ok (check_transition D slice cloid at_submitted s)
          (λ _. enter D cloid at_submitted submitted s) e in
      kept (ap books q)
  apply_record-Booking index (acknowledged slice cloid oid status) s e =
      let (_, _, q) =
        >>=-ok-eq-ok (check_transition D slice cloid at_acknowledged s)
          (λ _. enter D cloid at_acknowledged known s) e in
      kept (ap books q)
  apply_record-Booking index (terminal slice cloid outcome) s e =
      let (f, c, q) =
        >>=-ok-eq-ok (check_terminal D slice cloid outcome s) (λ f. credit D cloid outcome f s) e in
      credited slice cloid outcome f c (ap books q)
  apply_record-Booking index (final_report report) s e =
      let (_, _, q) =
        >>=-ok-eq-ok (check_final_report D report s) (λ _. close_report D report s) e in
      kept (ap books q)
  apply_record-Booking index (abandoned reason) s e =
      let (_, _, q) = >>=-ok-eq-ok (check_abandoned D s) (λ _. record s { abandoned = true }) e in
      kept (ap books q)

  pub step-Booking :
      (index : ℕ) (r : JournalRecord) (s : ReplayState D) {t : ReplayState D}
      → step D index r s ≡ ok t
      → Booking s t
  unfolding step
  step-Booking index r s e =
      let (_, e1) = fail_if-eq-ok s.abandoned _ _ e in
      let (_, e2) = fail_if-eq-ok s.completed_final_seen _ _ e1 in apply_record-Booking index r s e2

  -- What a terminal record passed before its fill `f` was credited to the order `p`.
  pub record WasChecked (s : ReplayState D) (cloid : Cloid) (avg_px : Option String)
      (f : TerminalFill D) : Type 0 where
    pub order : AccountingPrepared D
    pub reported : Decimal
    pub is_prepared : is_some (lookup cloid s.prepared) ≡ true
    pub of_order : lookup cloid s.accounting_prepared ≡ some order
    pub nonnegative : lt D reported (from_nat D 0) ≡ false
    pub contributes : contribution D cloid order reported avg_px ≡ ok f
    pub no_regression : check_regression D cloid (lookup cloid s.terminal_fills) f ≡ ok tt

  pub check_terminal-WasChecked :
      (slice_idx : ℕ) (cloid : Cloid) (outcome : TerminalOutcome) (s : ReplayState D)
      {f : TerminalFill D}
      → check_terminal D slice_idx cloid outcome s ≡ ok f
      → WasChecked s cloid outcome.avg_px f
  unfolding check_terminal check_transition
  check_terminal-WasChecked slice_idx cloid outcome s {f} e =
      let (_, moved, e1) = >>=-eq-ok (check_transition D slice_idx cloid at_terminal s) _ e in
      let (intent, found, _) = >>=-eq-ok (ok_or (lookup cloid s.prepared) _) _ moved in
      let (_, e2) = fail_if-eq-ok (not (is_valid_journal_terminal_status outcome.status)) _ _ e1 in
      let (filled, _, e3) = >>=-eq-ok (decimal D cloid _ outcome.filled_sz) _ e2 in
      let (nonneg, e4) = fail_if-eq-ok (lt D filled (from_nat D 0)) _ _ e3 in
      let (p, of_p, e5) = >>=-eq-ok (ok_or (lookup cloid s.accounting_prepared) _) _ e4 in
      let (next, c, e6) = >>=-eq-ok (contribution D cloid p filled outcome.avg_px) _ e5 in
      let (_, grows, e7) =
        >>=-eq-ok (check_regression D cloid (lookup cloid s.terminal_fills) next) _ e6 in
      subst (WasChecked s cloid outcome.avg_px) (ok-injective e7) (record {
        order = p;
        reported = filled;
        is_prepared = ap is_some (ok_or-eq-ok _ _ found);
        of_order = ok_or-eq-ok _ _ of_p;
        nonnegative = nonneg;
        contributes = c;
        no_regression = grows;
      })

  unprepared_none :
      (cloid : Cloid) (next : PreparedJournalIntent) (old : Option PreparedJournalIntent)
      (s : ReplayState D)
      → check_unprepared D cloid next old s ≡ ok tt
      → old ≡ none
  unfolding check_unprepared
  unprepared_none cloid next none s h = refl
  unprepared_none cloid next (some old) s h =
      let (_, h1) = fail_if-eq-ok (not (intent_eq old next)) _ _ h in cc

  pub check_prepared-fresh :
      (cloid : Cloid) (next : PreparedJournalIntent) (s : ReplayState D) {p : AccountingPrepared D}
      → check_prepared D cloid next s ≡ ok p
      → (lookup cloid s.prepared ≡ none) × (lt D p.sz (from_nat D 0) ≡ false)
  unfolding check_prepared
  check_prepared-fresh cloid next s e =
      let (_, free, e1) =
        >>=-eq-ok (check_unprepared D cloid next (lookup cloid s.prepared) s) _ e in
      let (sz, _, e2) = >>=-eq-ok (decimal D cloid _ next.sz) _ e1 in
      let (nonneg, e3) = fail_if-eq-ok (lt D sz (from_nat D 0)) _ _ e2 in
      let (px, _, e4) = >>=-eq-ok (decimal D cloid _ next.px) _ e3 in
      let (_, e5) = fail_if-eq-ok (le D px (from_nat D 0)) _ _ e4 in
      (
        unprepared_none cloid next _ s free,
        subst (λ q. lt D q.sz (from_nat D 0) ≡ false) (ok-injective e5) nonneg,
      )
