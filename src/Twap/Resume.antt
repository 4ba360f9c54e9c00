-- ===== src/Twap/Resume.antt =====
-- src/twap.rs: `reconcile_unresolved_cloid`, which learns on a resume what became of an order of an
-- incomplete run; and its caller `reconcile_incomplete_run` of src/main.rs.
pub mod Resolved
pub mod Closes
pub mod Taken
use hype_trigger_twap.Prelude.{
  ℕ, Option, none, some, false, Result, ok, err, ok_or, map_err, String, List, [], ◌∷◌,
  if◌then◌else◌, lookup,
}
use hype_trigger_twap.Prelude.Runs.{Logged, ◌>>=◌, ◌>>◌, lift, recast}
use hype_trigger_twap.Decimal.{DecimalApi, from_nat}
use hype_trigger_twap.Types.{Symbol, Side, Tif, ioc, Cloid, OrderIntent}
use hype_trigger_twap.Errors.{HlError, invalid_config}
use hype_trigger_twap.Client.Status.{OrderStatusFill, is_terminal, cross_check}
use hype_trigger_twap.Journal.Records.{JournalRecord, PreparedJournalIntent}
use hype_trigger_twap.Journal.Summary.{ValidatedJournalReplay, replay, unresolved_cloids}
use hype_trigger_twap.Twap.Settle.{SettlePlan, World, recover_resting_fill}
use hype_trigger_twap.Twap.Reconcile.{Replies, Reconciled, reconcile_by_cloid}
use hype_trigger_twap.Twap.Place.{Event, Placing, Sink, SliceCall, journal_terminal}
use hype_trigger_twap.Twap.Alo.{AloPlacing, describe, credit_alo}

abbrev pub tif_or_ioc : Option Tif → Tif
tif_or_ioc none = ioc
tif_or_ioc (some tif) = tif

module _ (D : DecimalApi) where
  open D use {Decimal, parse}

  pub record PreparedIntent : Type 0 where
    pub symbol : Symbol
    pub side : Side
    pub tif : Option Tif
    pub px : Decimal
    pub sz : Decimal

  unfoldable pub as_order_intent : PreparedIntent → Cloid → OrderIntent D
  as_order_intent p cloid = record {
    cloid = cloid;
    symbol = p.symbol;
    side = p.side;
    px = p.px;
    sz = p.sz;
    tif = tif_or_ioc p.tif;
    reduce_only = false;
  }

  -- What the outside gives for one cloid: the reply to the first probe, those while a live order
  -- settles, and those to the queries by cloid.
  pub record ResumeWorld : Type 0 where
    pub probe : Reconciled D
    pub settling : World D
    pub replies : Replies D

  -- Nothing is sent, so the deadline and the guard are not read.
  abbrev pub resume_call : SettlePlan → Cloid → ℕ → PreparedIntent → Sink → SliceCall D
  resume_call plan cloid slice_idx prepared sink = record {
    plan = plan;
    reduce_only = false;
    intent = as_order_intent prepared cloid;
    deadline = record { monotonic = 0; expires_after_ms = 0 };
    slice_idx = slice_idx;
    sink = sink;
    position_guard = none;
  }

  abbrev pub credit_resumed : SliceCall D → OrderStatusFill D → Placing (Unit {0})
  credit_resumed c st = credit_alo D c st >>= λ _. lift (ok tt)

  unfoldable pub after_queries : SliceCall D → Reconciled D → Placing (Unit {0})
  after_queries c (ok (some st)) = credit_resumed c st
  after_queries c (ok none) = journal_terminal D c "neverReceived" (from_nat D 0) none
  after_queries c (err e) = lift (err e)

  abbrev pub settle_live : SliceCall D → ResumeWorld → OrderStatusFill D → Placing (Unit {0})
  settle_live c w st = do
    settled ← lift (recover_resting_fill D w.settling c.plan c.intent.cloid st.oid c.intent)
    lift (cross_check D settled c.plan.symbol c.plan.side (some c.intent.cloid))
    credit_resumed c settled

  abbrev pub ask_by_cloid : SliceCall D → ResumeWorld → Placing (Unit {0})
  ask_by_cloid c w = after_queries c (reconcile_by_cloid D w.replies c.plan c.intent.cloid)

  unfoldable pub after_first_probe : SliceCall D → ResumeWorld → Reconciled D → Placing (Unit {0})
  after_first_probe c w (ok (some st)) =
      lift (cross_check D st c.plan.symbol c.plan.side (some c.intent.cloid))
      >> (if is_terminal D st then ask_by_cloid c w else settle_live c w st)
  after_first_probe c w _ = ask_by_cloid c w

  unfoldable pub reconcile_unresolved_cloid : SliceCall D → ResumeWorld → Placing (Unit {0})
  reconcile_unresolved_cloid c w = do
    user ← lift (ok_or c.plan.master (invalid_config "orderStatus requires the master address"))
    after_first_probe c w w.probe

  -- What the loop does for one unresolved cloid: its plan and its intent are those that the journal
  -- holds for it.
  unfoldable pub resume_cloid :
      SettlePlan
      → Sink
      → ValidatedJournalReplay D
      → (Cloid → ResumeWorld)
      → Cloid
      → AloPlacing (Unit {0})
  resume_cloid plan sink v worlds cloid = do
    stored ← lift (ok_or (lookup cloid v.prepared) "no Prepared record found")
    px ← lift (ok_or (parse stored.px) "invalid durable Prepared.px")
    sz ← lift (ok_or (parse stored.sz) "invalid durable Prepared.sz")
    let prepared : PreparedIntent = record {
      symbol = stored.symbol;
      side = stored.side;
      tif = stored.tif;
      px = px;
      sz = sz;
    }
    let cloid_plan = record plan { symbol = stored.symbol; side = stored.side }
    describe "reconciliation failed" (
        reconcile_unresolved_cloid (resume_call cloid_plan cloid stored.slice_idx prepared sink)
          (worlds cloid))

  unfoldable pub resume_each :
      SettlePlan
      → Sink
      → ValidatedJournalReplay D
      → (Cloid → ResumeWorld)
      → List Cloid
      → AloPlacing (Unit {0})
  resume_each plan sink v worlds [] = lift (ok tt)
  resume_each plan sink v worlds (cloid ∷ cloids) =
      resume_cloid plan sink v worlds cloid >> resume_each plan sink v worlds cloids

  -- `records` is the journal as it is read at the beginning.
  unfoldable pub reconcile_incomplete_run :
      SettlePlan → Sink → List JournalRecord → (Cloid → ResumeWorld) → AloPlacing (Unit {0})
  reconcile_incomplete_run plan sink records worlds = do
    v ← lift (map_err (λ _. "cannot reconcile invalid journal") (replay D records))
    resume_each plan sink v worlds (unresolved_cloids v.summary)
