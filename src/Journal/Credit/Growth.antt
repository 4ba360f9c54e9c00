-- ===== src/Journal/Credit/Growth.antt =====
-- src/journal.rs: a later record never takes back what an earlier one credited.
use hype_trigger_twap.Prelude.{
  ℕ, ◌+◌, ◌≡◌, sym, ap, ◌∙◌, false, or_parts, some, List, [], ◌∷◌, lookup, ok, fail_if-ok,
  >>=-eq-ok, ok-injective, Bool-cases, inl, inr, ◌==◌, arith,
}
use hype_trigger_twap.Decimal.{DecimalApi, lt}
use hype_trigger_twap.Types.{Cloid}
use hype_trigger_twap.Journal.Records.{JournalRecord}
use hype_trigger_twap.Journal.Replay.{TerminalFill, ReplayState}
use hype_trigger_twap.Journal.Replay.Transitions.{check_regression}
use hype_trigger_twap.Journal.Replay.Transitions.Closing.{step, replay_from}
use hype_trigger_twap.Journal.Credit.{
  Booking, kept, admitted, credited, check_terminal-WasChecked, step-Booking,
}
use hype_trigger_twap.Journal.Credit.Bounds.{lookup_same, lookup_other, same_key}

module _ (D : DecimalApi) where
  -- The order of fills: the later one is not smaller in size nor in notional.
  pub record Grew (f g : TerminalFill D) : Type 0 where
    pub size : lt D g.filled_sz f.filled_sz ≡ false
    pub notional : lt D g.notional f.notional ≡ false

  abbrev pub StillCredited : Cloid → TerminalFill D → ReplayState D → Type 0
  StillCredited c f t = (g : TerminalFill D) × (lookup c t.terminal_fills ≡ some g) × Grew f g

  Grew-refl : (f : TerminalFill D) → Grew f f
  Grew-refl f = record { size = ground arith; notional = ground arith }

  Grew-trans : (f g h : TerminalFill D) → Grew f g → Grew g h → Grew f h
  Grew-trans f g h a b = record {
    size = not_lt_trans f.filled_sz g.filled_sz h.filled_sz a.size b.size;
    notional = not_lt_trans f.notional g.notional h.notional a.notional b.notional;
  }
    where
      not_lt_trans : (x y z : D.Decimal) → lt D y x ≡ false → lt D z y ≡ false → lt D z x ≡ false
      not_lt_trans x y z h k = ground arith

  regression-Grew :
      (c : Cloid) (f g : TerminalFill D) → check_regression D c (some f) g ≡ ok tt → Grew f g
  unfolding check_regression
  regression-Grew c f g h =
      let (a, b) =
        or_parts (lt D g.filled_sz f.filled_sz) (lt D g.notional f.notional) (fail_if-ok _ _ h) in
      record { size = a; notional = b }

  step-Grew :
      (c : Cloid) (f : TerminalFill D) (s t : ReplayState D)
      → Booking D s t
      → lookup c s.terminal_fills ≡ some f
      → StillCredited c f t
  step-Grew c f s t (kept q) h = (f, ap (λ b. lookup c b.2) (sym q) ∙ h, Grew-refl f)
  step-Grew c f s t (admitted cloid next p checked q) h =
      (f, ap (λ b. lookup c b.2) (sym q) ∙ h, Grew-refl f)
  step-Grew c f s t (credited slice_idx cloid outcome g checked q) h =
      elim (Bool-cases (cloid == c)) [
        | inl same ↦
            let w = check_terminal-WasChecked D slice_idx cloid outcome s checked in
            let here : lookup cloid s.terminal_fills ≡ some f =
              ap (λ k. lookup k s.terminal_fills) (same_key cloid c same) ∙ h in
            (
              g,
              ap (λ b. lookup c b.2) (sym q) ∙ lookup_same cloid c g s.terminal_fills same,
              regression-Grew cloid f g
                  (ap (λ o. check_regression D cloid o g) (sym here) ∙ w.no_regression),
            )
        | inr other ↦ (
          f,
          ap (λ b. lookup c b.2) (sym q) ∙ (lookup_other cloid c g s.terminal_fills other ∙ h),
          Grew-refl f,
        )
      ]

  -- Records that a replay accepts never take back a fill: an order that is credited stays so, with
  -- a size and a notional that are not smaller.
  pub replay_from-StillCredited :
      (index : ℕ) (records : List JournalRecord) (c : Cloid) (f : TerminalFill D)
      (s : ReplayState D) {t : ReplayState D}
      → lookup c s.terminal_fills ≡ some f
      → replay_from D index records s ≡ ok t
      → StillCredited c f t
  unfolding replay_from
  replay_from-StillCredited index [] c f s h e =
      (f, ap (λ u. lookup c u.terminal_fills) (sym (ok-injective e)) ∙ h, Grew-refl f)
  replay_from-StillCredited index (r ∷ rs) c f s h e =
      let (m, e1, rest) = >>=-eq-ok (step D index r s) _ e in
      let (g, now, more) = step-Grew c f s m (step-Booking D index r s e1) h in
      let (k, later, still) = replay_from-StillCredited (1 + index) rs c g m now rest in
      (k, later, Grew-trans f g k more still)
