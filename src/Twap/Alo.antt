-- ===== src/Twap/Alo.antt =====
-- src/twap.rs: post-only child orders: `place_alo_child` places one, and `settle_resting_child`
-- cancels one that rests and learns what it filled.
pub mod Settling
pub mod Refinement
use hype_trigger_twap.Prelude.{
  ℕ, zero, suc, ◌+◌, Option, none, some, Bool, true, false, ◌||◌, Result, ok, err, ok_or, String,
  str_eq, if◌then◌else◌,
}
use hype_trigger_twap.Prelude.Text.{codes, contains, to_ascii_lowercase}
use hype_trigger_twap.Prelude.Runs.{Logged, ◌>>=◌, ◌>>◌, lift, emit, recast}
use hype_trigger_twap.Decimal.{DecimalApi, from_nat}
use hype_trigger_twap.Types.{Cloid, OrderId, OrderIntent, alo}
use hype_trigger_twap.Errors.{HlError, exchange, invalid_config}
use hype_trigger_twap.Client.Status.{OrderStatusFill, is_terminal, cross_check}
use hype_trigger_twap.Client.Fill.{PlaceOutcome, ValidatedFill, try_from_status}
use hype_trigger_twap.Twap.Schedule.{check_before_send}
use hype_trigger_twap.Twap.Ledger.{SliceOutcome}
use hype_trigger_twap.Twap.Settle.{
  SettlePlan, World, CancelConfirmation, unconfirmed, cancelled, not_live, confirmed, send,
  recover_resting_fill,
}
use hype_trigger_twap.Twap.Reconcile.{Reconciled}
use hype_trigger_twap.Twap.Place.{
  Event, sent, Placing, SliceCall, Surroundings, record_in, journal_terminal, position_check,
  prepared_record, unwrap_or, RunCall, slice_call,
}
use hype_trigger_twap.Journal.Records.{submitted_unknown, acknowledged}

abbrev is_alo_code : Option String → Bool
is_alo_code none = false
is_alo_code (some code) = str_eq code "badAloPxRejected"

unfoldable pub is_alo_reject : Option String → String → Bool
unfolding contains to_ascii_lowercase
is_alo_reject code message =
    let m = to_ascii_lowercase (codes message) in
    is_alo_code code
    || (contains (codes "badalopxrejected") m
        || contains (codes "post only order would have immediately matched") m)

abbrev pub ambiguous_alo_cancel_attempts : ℕ
ambiguous_alo_cancel_attempts = 3

-- The cancels after a probe that found nothing; `cancel n` is the reply to the one of attempt `n`.
unfoldable pub cancel_ambiguous :
    (ℕ → Result HlError (Unit {0})) → ℕ → ℕ → CancelConfirmation → CancelConfirmation
cancel_ambiguous cancel zero attempt c = c
cancel_ambiguous cancel (suc left) attempt c =
    let next = send c (cancel attempt) in
    let later = cancel_ambiguous cancel left (attempt + 1) next in
    if confirmed next then next else later

abbrev cancel_note : CancelConfirmation → String
cancel_note cancelled = "ambiguous ALO send; a cancel was acknowledged"
cancel_note not_live = "ambiguous ALO send; no live order"
cancel_note unconfirmed = "ambiguous ALO send; the order may still be live"

-- The reason for which a run is aborted stands in place of an error.
abbrev pub AloPlacing : Type 0 → Type 0
AloPlacing A = Logged Event String A

abbrev pub describe : {A : Type 0} → String → Placing A → AloPlacing A
describe reason m = recast (λ _. reason) m

module _ (D : DecimalApi) where
  open D use {Decimal}

  pub record RestingChild : Type 0 where
    pub cloid : Cloid
    pub oid : OrderId
    pub requested_sz : Decimal
    pub px : Decimal
    pub slice_idx : ℕ

  pub data AloPlaceOutcome : Type 0 where
    resting : RestingChild → AloPlaceOutcome
    settled : SliceOutcome D → AloPlaceOutcome
    rejected_skip position_target_reached shutdown_requested : AloPlaceOutcome

  -- What the outside gives to attempt 0, the only one, and the replies to the cancels after the
  -- probe.
  pub record AloSurroundings : Type 0 where
    pub around : Surroundings D
    pub cancel : ℕ → Result HlError (Unit {0})

  abbrev pub alo_intent : SettlePlan → Bool → Cloid → Decimal → Decimal → OrderIntent D
  alo_intent plan reduce_only cloid px sz = record {
    cloid = cloid;
    symbol = plan.symbol;
    side = plan.side;
    px = px;
    sz = sz;
    tif = alo;
    reduce_only = reduce_only;
  }

  -- The call that settles `child`, in the run that placed it.
  abbrev pub settle_call : RunCall D → RestingChild → SliceCall D
  settle_call r child =
      slice_call D r child.slice_idx
        (alo_intent r.plan r.reduce_only child.cloid child.px child.requested_sz)

  -- A terminal status is credited after its validation against the intent.
  abbrev pub outcome_of : SliceCall D → ValidatedFill D → SliceOutcome D
  outcome_of c vf = record { sz = vf.filled_sz; px = unwrap_or D vf.avg_px c.intent.px }

  unfoldable pub write_credit : SliceCall D → String → ValidatedFill D → Placing (SliceOutcome D)
  write_credit c status vf = do
    journal_terminal D c status vf.filled_sz vf.avg_px
    lift (ok (outcome_of c vf))

  unfoldable pub credit_alo : SliceCall D → OrderStatusFill D → Placing (SliceOutcome D)
  credit_alo c st = do vf ← lift (try_from_status D st c.intent); write_credit c st.status vf

  unfoldable pub settle_resting_child :
      RunCall D → World D → RestingChild → Placing (SliceOutcome D)
  settle_resting_child r w child = do
    let call = settle_call r child
    st ← lift (recover_resting_fill D w r.plan child.cloid child.oid call.intent)
    credit_alo call st

  abbrev pub settle_probed : SliceCall D → OrderStatusFill D → AloPlacing AloPlaceOutcome
  settle_probed c st = do
    outcome ← describe "ambiguous ALO fill invalid" (credit_alo c st)
    lift (ok (settled outcome))

  -- The answer to the one probe after an ambiguous send.
  unfoldable pub after_probe :
      SliceCall D → AloSurroundings → Reconciled D → AloPlacing AloPlaceOutcome
  after_probe c w (ok (some st)) = do
    describe "ambiguous ALO status cross-check failed"
        (lift (cross_check D st c.plan.symbol c.plan.side (some c.intent.cloid)))
    (if is_terminal D st then settle_probed c st else do
      done ← describe "ambiguous ALO was live but cancel/settle failed" (
          lift (recover_resting_fill D (w.around.settling 0) c.plan c.intent.cloid st.oid c.intent))
      settle_probed c done)
  after_probe c w _ =
      lift
        (err (cancel_note (cancel_ambiguous w.cancel ambiguous_alo_cancel_attempts 0 unconfirmed)))

  abbrev pub close_alo : SliceCall D → String → AloPlaceOutcome → AloPlacing AloPlaceOutcome
  close_alo c status outcome =
      describe "journal write (Terminal) failed" (journal_terminal D c status (from_nat D 0) none)
      >> lift (ok outcome)

  abbrev pub ambiguous : SliceCall D → AloSurroundings → AloPlacing AloPlaceOutcome
  ambiguous c w = do
    describe "journal write (SubmittedUnknown) failed"
        (record_in c.sink (submitted_unknown c.slice_idx c.intent.cloid))
    user ←
        describe "failed after ambiguous ALO send"
          (lift (ok_or c.plan.master (invalid_config "orderStatus requires the master address")))
    after_probe c w w.around.probe

  unfoldable pub handle_alo_reply :
      SliceCall D → AloSurroundings → Result HlError (PlaceOutcome D) → AloPlacing AloPlaceOutcome
  handle_alo_reply c w (ok (PlaceOutcome.resting oid)) = do
    describe "journal write (Acknowledged) failed"
        (record_in c.sink (acknowledged c.slice_idx c.intent.cloid (some oid) "resting"))
    lift (
        ok (
          resting (record {
            cloid = c.intent.cloid;
            oid = oid;
            requested_sz = c.intent.sz;
            px = c.intent.px;
            slice_idx = c.slice_idx;
          })))
  handle_alo_reply c w (ok (PlaceOutcome.filled oid total_sz avg_px)) =
      lift (err "unexpected Filled outcome of a post-only order")
  handle_alo_reply c w (err (exchange code message)) =
      if is_alo_reject code message
      then close_alo c "aloRejected" rejected_skip
      else lift (err "rejected by exchange")
  handle_alo_reply c w (err e) = ambiguous c w

  unfoldable pub send_alo : SliceCall D → AloSurroundings → AloPlacing AloPlaceOutcome
  send_alo c w = do
    describe "execution deadline elapsed"
        (lift (check_before_send c.deadline (w.around.guarded_at 0)))
    (if w.around.shutdown_before_send 0
        then close_alo c "neverReceived" shutdown_requested
        else do emit (sent 0); handle_alo_reply c w (w.around.place 0))

  -- The intent of `c` is an `alo_intent`.
  unfoldable pub place_alo_child : SliceCall D → AloSurroundings → AloPlacing AloPlaceOutcome
  place_alo_child c w = do
    describe "journal write (Prepared) failed" (record_in c.sink (prepared_record D c))
    describe "execution deadline elapsed"
        (lift (check_before_send c.deadline (w.around.looped_at 0)))
    is_reached ←
        describe "position check failed closed"
          (position_check D c c.position_guard (w.around.position 0))
    (if is_reached
        then close_alo c "positionTargetReached" position_target_reached
        else send_alo c w)
