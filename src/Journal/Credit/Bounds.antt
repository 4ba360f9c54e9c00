-- ===== src/Journal/Credit/Bounds.antt =====
-- src/journal.rs: no credited fill is larger than its order, and no price is outside its limit.
use hype_trigger_twap.Prelude.{
  ℕ, ◌+◌, ◌≡◌, refl, sym, ap, ◌∙◌, String, Bool, true, false, not, Option, none, some, is_some,
  List, [], ◌∷◌, Map, lookup, insert, lookup-insert, Result, ok, err, ok_or, fail_if-eq-ok,
  >>=-eq-ok, ok-injective, if◌then◌else◌, Bool-cases, inl, inr, ◌==◌, arith,
}
use mathlib.Core.Path.{subst}
use mathlib.Core.Option.{some-injective}
use hype_trigger_twap.Decimal.{DecimalApi, from_nat, lt, le}
use hype_trigger_twap.Types.{Cloid}
use hype_trigger_twap.Client.Fill.{outside_limit}
use hype_trigger_twap.Journal.Records.{JournalRecord}
use hype_trigger_twap.Journal.Errors.{JournalReplayError}
use hype_trigger_twap.Journal.Replay.{
  AccountingPrepared, TerminalFill, ReplayState, empty_state, decimal,
}
use hype_trigger_twap.Journal.Replay.Transitions.{fill_price, contribution}
use hype_trigger_twap.Journal.Replay.Transitions.Closing.{
  is_header, step, replay_from, replay_records,
}
use hype_trigger_twap.Journal.Credit.{
  Books, books, Booking, check_terminal-WasChecked, check_prepared-fresh, step-Booking,
}

-- Lookups after an insertion.
pub lookup_same :
    {V : Type 0} (k j : ℕ) (v : V) (m : Map V) → (k == j) ≡ true → lookup j (insert k v m) ≡ some v
lookup_same k j v m h = rw (lookup-insert k j v m, h) refl

pub lookup_other :
    {V : Type 0} (k j : ℕ) (v : V) (m : Map V)
    → (k == j) ≡ false
    → lookup j (insert k v m) ≡ lookup j m
lookup_other k j v m h = rw (lookup-insert k j v m, h) refl

pub same_key : (k j : ℕ) → (k == j) ≡ true → k ≡ j
same_key k j h = ground arith

module _ (D : DecimalApi) where
  open D use {Decimal}

  -- The fill of an order: not more than its size, at a trusted price within its limit.
  pub record IsBacked (p : AccountingPrepared D) (f : TerminalFill D) : Type 0 where
    pub nonnegative : lt D f.filled_sz (from_nat D 0) ≡ false
    pub bounded : lt D p.sz f.filled_sz ≡ false
    pub within : (px : Decimal) → f.avg_px ≡ some px → outside_limit D p.side px p.px ≡ false

  -- Every credited fill has its order, and every order has a size that is not negative.
  pub record IsAccounted (b : Books D) : Type 0 where
    pub sized :
        (c : Cloid) (p : AccountingPrepared D)
        → lookup c b.1 ≡ some p
        → lt D p.sz (from_nat D 0) ≡ false
    pub backed :
        (c : Cloid) (f : TerminalFill D)
        → lookup c b.2 ≡ some f
        → (is_some (lookup c b.0) ≡ true)
          × (p : AccountingPrepared D) × (lookup c b.1 ≡ some p)
          × IsBacked p f

  untrusted :
      (c : Bool) (e : JournalReplayError D) (x : Decimal) {price : Decimal}
      {trusted : Option Decimal}
      → ◌≡◌ {A = Result (JournalReplayError D) (Decimal × Option Decimal)}
          (if c then err e else ok (x, none))
          (ok (price, trusted))
      → trusted ≡ none
  untrusted true e x h = cc
  untrusted false e x h = sym (ap (λ q. q.1) (ok-injective h))

  fill_price-within :
      (cloid : Cloid) (p : AccountingPrepared D) (avg_px : Option String) {price : Decimal}
      {trusted : Option Decimal}
      → fill_price D cloid p avg_px ≡ ok (price, trusted)
      → (px : Decimal) → trusted ≡ some px
      → outside_limit D p.side px p.px ≡ false
  unfolding fill_price
  fill_price-within cloid p none {price} {trusted} e px h =
      let none_trusted : trusted ≡ none = untrusted _ _ _ e in cc
  fill_price-within cloid p (some text) e px h =
      let (value, _, e1) = >>=-eq-ok (decimal D cloid _ text) _ e in
      let (_, e2) = fail_if-eq-ok (le D value (from_nat D 0)) _ _ e1 in
      let (within, e3) = fail_if-eq-ok (outside_limit D p.side value p.px) _ _ e2 in
      let same : value ≡ px = some-injective _ _ (ap (λ q. q.1) (ok-injective e3) ∙ h) in
      subst (λ v. outside_limit D p.side v p.px ≡ false) same within

  contribution-IsBacked :
      (cloid : Cloid) (p : AccountingPrepared D) (filled : Decimal) (avg_px : Option String)
      {f : TerminalFill D}
      → contribution D cloid p filled avg_px ≡ ok f
      → lt D filled (from_nat D 0) ≡ false
      → lt D p.sz (from_nat D 0) ≡ false
      → IsBacked p f
  unfolding contribution
  contribution-IsBacked cloid p filled avg_px e nonneg sized =
      elim (Bool-cases (lt D (from_nat D 0) filled)) [
        | inl some_fill ↦
            let (no_over, e1) = fail_if-eq-ok (lt D p.sz filled) _ _ (rw some_fill at e) in
            let ((price, trusted), priced, e2) = >>=-eq-ok (fill_price D cloid p avg_px) _ e1 in
            let (notional, _, e3) = >>=-eq-ok (ok_or (D.checked_mul filled price) _) _ e2 in
            subst (IsBacked p) (ok-injective e3) (record {
              nonnegative = nonneg;
              bounded = no_over;
              within = fill_price-within cloid p avg_px priced;
            })
        | inr no_fill ↦
            subst (IsBacked p) (ok-injective (rw no_fill at e))
              (record { nonnegative = nonneg; bounded = ground arith; within = λ px h. cc })
      ]

  step-IsAccounted :
      (s t : ReplayState D) → Booking D s t → IsAccounted (books D s) → IsAccounted (books D t)
  step-IsAccounted s t (Booking.kept q) inv = subst IsAccounted q inv
  step-IsAccounted s t (Booking.admitted cloid next p checked q) inv =
      let (free, sized) = check_prepared-fresh D cloid next s checked in
      subst IsAccounted q (record {
        sized = λ c r h. elim (Bool-cases (cloid == c)) [
          | inl same ↦
              subst (λ u. lt D u.sz (from_nat D 0) ≡ false)
                (some-injective _ _ (sym (lookup_same cloid c p s.accounting_prepared same) ∙ h))
                sized
          | inr other ↦ inv.sized c r (sym (lookup_other cloid c p s.accounting_prepared other) ∙ h)
        ];
        backed = λ c f h.
            let (known, r, of_r, good) = inv.backed c f h in
            elim (Bool-cases (cloid == c)) [
              | inl same ↦
                  let here : cloid ≡ c = same_key cloid c same in
                  let gone : lookup c s.prepared ≡ none =
                    ap (λ k. lookup k s.prepared) (sym here) ∙ free in
                  cc
              | inr other ↦ (
                ap is_some (lookup_other cloid c next s.prepared other) ∙ known,
                r,
                lookup_other cloid c p s.accounting_prepared other ∙ of_r,
                good,
              )
            ];
      })
  step-IsAccounted s t (Booking.credited slice_idx cloid outcome f checked q) inv =
      let w = check_terminal-WasChecked D slice_idx cloid outcome s checked in
      let good =
        contribution-IsBacked cloid w.order w.reported outcome.avg_px w.contributes w.nonnegative
          (inv.sized cloid w.order w.of_order) in
      subst IsAccounted q (record {
        sized = inv.sized;
        backed = λ c g h. elim (Bool-cases (cloid == c)) [
          | inl same ↦
              let here : cloid ≡ c = same_key cloid c same in
              let is_f : f ≡ g =
                some-injective _ _ (sym (lookup_same cloid c f s.terminal_fills same) ∙ h) in
              (
                ap (λ k. is_some (lookup k s.prepared)) (sym here) ∙ w.is_prepared,
                w.order,
                ap (λ k. lookup k s.accounting_prepared) (sym here) ∙ w.of_order,
                subst (IsBacked w.order) is_f good,
              )
          | inr other ↦ inv.backed c g (sym (lookup_other cloid c f s.terminal_fills other) ∙ h)
        ];
      })

  replay_from-IsAccounted :
      (index : ℕ) (records : List JournalRecord) (s : ReplayState D) {t : ReplayState D}
      → IsAccounted (books D s)
      → replay_from D index records s ≡ ok t
      → IsAccounted (books D t)
  unfolding replay_from
  replay_from-IsAccounted index [] s inv e =
      subst (λ u. IsAccounted (books D u)) (ok-injective e) inv
  replay_from-IsAccounted index (r ∷ rs) s inv e =
      let (m, e1, rest) = >>=-eq-ok (step D index r s) _ e in
      replay_from-IsAccounted (1 + index) rs m
        (step-IsAccounted s m (step-Booking D index r s e1) inv) rest

  -- In an accepted journal every fill that counts belongs to an order that was prepared; it is not
  -- negative and not larger than the order, and a price that is trusted for it is within the
  -- order's limit.
  pub replay_records-IsAccounted :
      (records : List JournalRecord) {s : ReplayState D}
      → replay_records D records ≡ ok s
      → IsAccounted (books D s)
  unfolding replay_records
  replay_records-IsAccounted [] e = cc
  replay_records-IsAccounted (r ∷ rs) e =
      let (_, e1) = fail_if-eq-ok (not (is_header D r)) _ _ e in
      replay_from-IsAccounted 0 (r ∷ rs) (empty_state D)
        (record { sized = λ c p h. cc; backed = λ c f h. cc }) e1
