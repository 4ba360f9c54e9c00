-- ===== src/Twap/Alo/Settling.antt =====
-- src/twap.rs: `settle_resting_child` keeps to the contract of an order, and so does the credit of a
-- post-only order.
use hype_trigger_twap.Prelude.{ℕ, ◌+◌, ◌≤◌, ◌≡◌, refl, none, some, Bool, true, ok, String, sym}
use mathlib.Core.Path.{subst}
use hype_trigger_twap.Prelude.Runs.{
  Follows, follows-lift, follows-pure, follows-recast, follows_bind, lift, recast, ◌>>=◌,
}
use hype_trigger_twap.Decimal.{DecimalApi, from_nat}
use hype_trigger_twap.Decimal.Laws.{DecimalLaws}
use hype_trigger_twap.Types.{OrderId}
use hype_trigger_twap.Client.Status.{OrderStatusFill, is_terminal}
use hype_trigger_twap.Client.Fill.{ValidatedFill, optional, try_from_status}
use hype_trigger_twap.Journal.Replay.{is_valid_journal_terminal_status}
use hype_trigger_twap.Journal.Records.{JournalRecord}
use hype_trigger_twap.Twap.Ledger.{SliceOutcome}
use hype_trigger_twap.Twap.Settle.{World, recover_resting_fill}
use hype_trigger_twap.Twap.Settle.Outcome.{recover_resting_fill-IsTheOrder}
use hype_trigger_twap.Twap.Place.{
  wrote, RunCall, SliceCall, Surroundings, record_in, terminal_record, journal_terminal,
}
use hype_trigger_twap.Twap.Place.Contract.{
  IsShownOutcome, SliceState, on_book, closed, IsSent, IsWithinIntent, SliceStep, close_credited,
  IsShown, IsCredited, by_status, by_settling,
}
use hype_trigger_twap.Twap.Place.Closing.{valid_terminal, record_in-Follows}
use hype_trigger_twap.Twap.Place.Credit.{within_intent}
use hype_trigger_twap.Twap.Alo.{
  RestingChild, AloPlaceOutcome, resting, settled, settle_call, settle_resting_child, credit_alo,
  outcome_of, write_credit, close_alo,
}

-- What a settled order credits: the order is closed, and the size is within the order's and, with the
-- price, what the exchange has shown.
abbrev pub IsSettled :
    (D : DecimalApi) → SliceCall D → Surroundings D → SliceState → SliceOutcome D → Type 0
IsSettled D c w s o =
    (s ≡ closed)
    × (D.minus o.sz ≡ 0)
    × (D.plus o.sz + D.minus c.intent.sz ≤ D.plus c.intent.sz + D.minus o.sz)
    × IsShownOutcome D c w o

-- What is returned agrees with the state: an order that rests is on the book, under its intent;
-- any other is closed.
abbrev pub IsAloReported :
    (D : DecimalApi) → SliceCall D → Surroundings D → SliceState → AloPlaceOutcome D → Type 0
IsAloReported D c w s (resting child) =
    (s ≡ on_book 0 child.oid)
    × (child.cloid ≡ c.intent.cloid)
    × (child.requested_sz ≡ c.intent.sz)
    × (child.px ≡ c.intent.px)
    × (child.slice_idx ≡ c.slice_idx)
IsAloReported D c w s (settled o) = IsSettled D c w s o
IsAloReported D c w s _ = s ≡ closed

module _ (D : DecimalApi) (L : DecimalLaws D) (c : SliceCall D) (w : Surroundings D)
    (accepts : JournalRecord → Bool) (attached : c.sink ≡ some accepts) where
  open D use {Decimal, plus, minus}

  write_credit-Follows :
      {s : SliceState} (status : String) (vf : ValidatedFill D)
      → is_valid_journal_terminal_status status ≡ true
      → IsSent s
      → IsCredited D c w s status vf.filled_sz vf.avg_px
      → IsWithinIntent D c w vf.filled_sz vf.avg_px
      → Follows (SliceStep D c w) s (write_credit D c status vf) (IsSettled D c w)
  unfolding write_credit journal_terminal
  write_credit-Follows {s} status vf valid is_sent credited within =
      follows_bind (SliceStep D c w) {Q = λ u _. u ≡ closed}
        (record_in c.sink (terminal_record D c status vf.filled_sz vf.avg_px))
        (λ _. lift (ok (outcome_of D c vf)))
        (record_in-Follows D L c w accepts attached
          (close_credited s status vf.filled_sz vf.avg_px is_sent credited within valid) refl)
        (λ u _ e. follows-pure (SliceStep D c w) (outcome_of D c vf) (
          e,
          within.0,
          within.1,
          record {
            from = s;
            status = status;
            avg_px = vf.avg_px;
            credited = credited;
            priced = refl;
          },
        ))

  pub credit_alo-Follows :
      {s : SliceState} (st : OrderStatusFill D)
      → is_terminal D st ≡ true
      → IsSent s
      → IsShown D c w s st
      → Follows (SliceStep D c w) s (credit_alo D c st) (IsSettled D c w)
  unfolding credit_alo try_from_status
  credit_alo-Follows {s} st terminal is_sent shown =
      follows_bind (SliceStep D c w)
        {Q = λ t vf.
          (t ≡ s)
          × IsWithinIntent D c w vf.filled_sz vf.avg_px
          × IsCredited D c w s st.status vf.filled_sz vf.avg_px}
        (lift (try_from_status D st c.intent)) (λ vf. write_credit D c st.status vf)
        (follows-lift (SliceStep D c w) _ (λ vf h. (
          refl,
          within_intent D L c w st.filled_sz st.avg_px optional vf h,
          by_status s st vf shown h,
        )))
        (λ t vf (e, within, credited).
          write_credit-Follows st.status vf (valid_terminal D st terminal)
            (subst IsSent (sym e) is_sent)
            (subst (λ u. IsCredited D c w u st.status vf.filled_sz vf.avg_px) (sym e) credited)
            within)

  -- The order that rests is closed by one record, and what is credited is within its size.
  settle-Follows :
      (n : ℕ) (oid : OrderId)
      → Follows
          (SliceStep D c w)
          (on_book n oid)
          (lift (recover_resting_fill D (w.settling n) c.plan c.intent.cloid oid c.intent) >>= λ st.
            credit_alo D c st)
          (IsSettled D c w)
  settle-Follows n oid =
      follows_bind (SliceStep D c w)
        {Q = λ t st.
          (t ≡ on_book n oid) × (is_terminal D st ≡ true) × IsShown D c w (on_book n oid) st}
        (lift (recover_resting_fill D (w.settling n) c.plan c.intent.cloid oid c.intent))
        (λ st. credit_alo D c st)
        (follows-lift (SliceStep D c w) _ (λ st h. (
          refl,
          (recover_resting_fill-IsTheOrder D (w.settling n) c.plan oid c.intent.cloid c.intent
              h).terminal,
          by_settling n oid st h,
        )))
        (λ t st (e, terminal, shown).
          credit_alo-Follows st terminal (subst IsSent (sym e) tt)
            (subst (λ u. IsShown D c w u st) (sym e) shown))

  pub close_alo-Follows :
      {s : SliceState} (status : String) (outcome : AloPlaceOutcome D)
      → SliceStep D c w s (wrote (terminal_record D c status (from_nat D 0) none)) closed
      → IsAloReported D c w closed outcome
      → Follows (SliceStep D c w) s (close_alo D c status outcome) (IsAloReported D c w)
  unfolding journal_terminal
  close_alo-Follows status outcome step report =
      follows_bind (SliceStep D c w) {Q = λ t _. t ≡ closed}
        (recast (λ _. "journal write (Terminal) failed")
          (record_in c.sink (terminal_record D c status (from_nat D 0) none)))
        (λ _. lift (ok outcome))
        (follows-recast (SliceStep D c w) _ _
          (record_in-Follows D L c w accepts attached step refl))
        (λ t _ e.
          follows-pure (SliceStep D c w) outcome
            (subst (λ u. IsAloReported D c w u outcome) (sym e) report))

-- The surroundings of an order whose settling meets `world`.
abbrev pub settled_in : {D : DecimalApi} → Surroundings D → World D → Surroundings D
settled_in w world = record w { settling = λ _. world }

-- A child that rests is settled by one record, and what is credited is within its size.
pub settle_resting_child-Follows :
    (D : DecimalApi) (L : DecimalLaws D) (r : RunCall D) (w : Surroundings D)
    (accepts : JournalRecord → Bool)
    → r.sink ≡ some accepts
    → (world : World D) (child : RestingChild D)
    → Follows
        (SliceStep D (settle_call D r child) (settled_in w world))
        (on_book 0 child.oid)
        (settle_resting_child D r world child)
        (IsSettled D (settle_call D r child) (settled_in w world))
unfolding settle_resting_child
settle_resting_child-Follows D L r w accepts attached world child =
    settle-Follows D L (settle_call D r child) (settled_in w world) accepts attached 0 child.oid
