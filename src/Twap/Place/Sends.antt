-- ===== src/Twap/Place/Sends.antt =====
-- src/twap.rs: how often `place_slice_reconciled` sends an order, and what every send rests on.
use hype_trigger_twap.Prelude.{
  ℕ, zero, suc, ◌+◌, ◌-◌, ◌≤◌, ◌≡◌, refl, arith, some, Bool, true, false, List, [], ◌∷◌, All,
  if◌then◌else◌,
}
use hype_trigger_twap.Prelude.Runs.{Trace, stop, next}
use hype_trigger_twap.Decimal.{DecimalApi}
use hype_trigger_twap.Decimal.Laws.{DecimalLaws}
use hype_trigger_twap.Journal.Records.{JournalRecord}
use hype_trigger_twap.Twap.Place.{
  Event, wrote, sent, SliceCall, Surroundings, place_resend_limit, place_slice_reconciled,
}
use hype_trigger_twap.Twap.Place.Contract.{
  SliceState, idle, ready, in_flight, unresolved, MaySend, IsAbsent, SliceStep, prepare, send_first,
  send_again, mark, acknowledge, close_unsent, close_absent, close_rejected, close_credited,
}
use hype_trigger_twap.Twap.Place.Refinement.{place_slice_reconciled-Follows}

abbrev pub sends : List Event → ℕ
sends [] = 0
sends (sent n ∷ rest) = suc (sends rest)
sends (wrote r ∷ rest) = sends rest

-- How many sends a state can still lead to.
abbrev sends_left : Bool → SliceState → ℕ
sends_left true idle = 1
sends_left true ready = 1
sends_left false idle = place_resend_limit + 1
sends_left false ready = place_resend_limit + 1
sends_left false in_flight = place_resend_limit
sends_left false (unresolved n) = place_resend_limit - n
sends_left reduces s = 0

sends_left_idle :
    (reduces : Bool) → sends_left reduces idle ≡ (if reduces then 1 else place_resend_limit + 1)
sends_left_idle true = refl
sends_left_idle false = refl

module _ (D : DecimalApi) (c : SliceCall D) (w : Surroundings D) where
  -- What a send rests on: it is in time, nothing stopped it; and a second or third one, on the proof
  -- that the one before it never arrived.
  abbrev pub IsJustified : Event → Type 0
  IsJustified (wrote r) = Unit
  IsJustified (sent zero) = MaySend D c w 0
  IsJustified (sent (suc n)) = MaySend D c w (suc n) × IsAbsent D c w n

  step_sends :
      (reduces : Bool) {s t : SliceState} (v : Event)
      → c.reduce_only ≡ reduces
      → SliceStep D c w s v t
      → sends (v ∷ []) + sends_left reduces t ≤ sends_left reduces s
  step_sends true v e prepare = omega arith
  step_sends false v e prepare = omega arith
  step_sends true v e (send_first may) = omega arith
  step_sends false v e (send_first may) = omega arith
  step_sends true v e (send_again n gone lt may) = (let no = gone.may_increase in cc)
  step_sends false v e (send_again n gone lt may) = omega arith
  step_sends true v e mark = omega arith
  step_sends false v e mark = omega arith
  step_sends true v e (acknowledge s n oid at reply) = omega arith
  step_sends false v e (acknowledge s n oid at reply) = omega arith
  step_sends true v e (close_unsent status valid) = omega arith
  step_sends false v e (close_unsent status valid) = omega arith
  step_sends true v e (close_absent n status gone valid) = omega arith
  step_sends false v e (close_absent n status gone valid) = omega arith
  step_sends true v e (close_rejected s n code message status at reply valid) = omega arith
  step_sends false v e (close_rejected s n code message status at reply valid) = omega arith
  step_sends true v e (close_credited s status filled avg_px sending credited within valid) =
      omega arith
  step_sends false v e (close_credited s status filled avg_px sending credited within valid) =
      omega arith

  sends_first : (v : Event) (vs : List Event) → sends (v ∷ vs) ≡ sends (v ∷ []) + sends vs
  sends_first (sent n) vs = omega arith
  sends_first (wrote r) vs = omega arith

  run_sends :
      {s t : SliceState} (vs : List Event)
      → Trace (SliceStep D c w) s vs t
      → sends vs ≤ sends_left c.reduce_only s
  run_sends [] stop = omega arith
  run_sends (v ∷ vs) (next step rest) =
      omega (arith, sends_first v vs, step_sends c.reduce_only v refl step, run_sends vs rest)

  step-IsJustified : {s t : SliceState} (v : Event) → SliceStep D c w s v t → IsJustified v
  step-IsJustified (wrote r) step = tt
  step-IsJustified (sent zero) (send_first may) = may
  step-IsJustified (sent (suc n)) (send_again m gone lt may) = (may, gone)

  run-IsJustified :
      {s t : SliceState} (vs : List Event) → Trace (SliceStep D c w) s vs t → All IsJustified vs
  run-IsJustified [] stop = tt
  run-IsJustified (v ∷ vs) (next step rest) = (step-IsJustified v step, run-IsJustified vs rest)

module _ (D : DecimalApi) (L : DecimalLaws D) (c : SliceCall D) (w : Surroundings D)
    (accepts : JournalRecord → Bool) (attached : c.sink ≡ some accepts) where
  -- With a journal attached, a slice sends its order at most three times; and a reduce-only order at
  -- most once, whatever the replies.
  pub place_slice_reconciled-sends :
      sends (place_slice_reconciled D c w).events
      ≤ (if c.reduce_only then 1 else place_resend_limit + 1)
  place_slice_reconciled-sends =
      let run = (place_slice_reconciled-Follows D L c w accepts attached).run in
      omega (arith, run_sends D c w _ run, sends_left_idle c.reduce_only)

  -- With a journal attached, every send is justified: it is before the deadline, after a read of the
  -- position that is short of the guard's target, with no shutdown requested; and a second or third
  -- send follows a failure in transport of the one before it, and a reconciliation that proved that
  -- order absent, and the order is not reduce-only.
  pub place_slice_reconciled-IsJustified :
      All (IsJustified D c w) (place_slice_reconciled D c w).events
  place_slice_reconciled-IsJustified =
      run-IsJustified D c w _ (place_slice_reconciled-Follows D L c w accepts attached).run
