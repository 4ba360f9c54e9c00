-- ===== src/Twap/Resume/Closes.antt =====
-- src/main.rs: `reconcile_incomplete_run` closes every order that its journal leaves unresolved.
use hype_trigger_twap.Prelude.{
  ◌≡◌, refl, some, Bool, Result, ok, err, ok_or, ok_or-eq-ok, List, [], ◌∷◌, ◌++◌, lookup, map_err,
  map_err-eq-ok,
}
use mathlib.Core.Path.{subst}
use hype_trigger_twap.Prelude.Runs.{Logged, follow, lift, ◌>>=◌}
use hype_trigger_twap.Decimal.{DecimalApi}
use hype_trigger_twap.Decimal.Laws.{DecimalLaws}
use hype_trigger_twap.Types.{Cloid}
use hype_trigger_twap.Journal.Records.{JournalRecord, PreparedJournalIntent}
use hype_trigger_twap.Journal.Summary.{ValidatedJournalReplay, replay, unresolved_cloids}
use hype_trigger_twap.Twap.Settle.{SettlePlan}
use hype_trigger_twap.Twap.Place.{Event, Sink, SliceCall, Surroundings}
use hype_trigger_twap.Twap.Resume.{
  PreparedIntent, ResumeWorld, resume_call, resume_cloid, resume_each, reconcile_incomplete_run,
}
use hype_trigger_twap.Twap.Resume.Resolved.{Resolved, reconcile_unresolved_cloid-Resolved}

module _ {E : Type 0} where
  -- A part without effects, and a part with some, before others.
  asked_first :
      {A : Type 0} (P : List Event → Type 0) (r : Result E A) (next : A → Logged Event E (Unit {0}))
      → ((a : A) → r ≡ ok a → (next a).result ≡ ok tt → P (next a).events)
      → (lift r >>= next).result ≡ ok tt
      → P (lift r >>= next).events
  asked_first P (ok a) next h e = h a refl e
  asked_first P (err d) next h e = absurd cc

  both_done :
      (log : List Event) (r : Result E (Unit {0})) (rest : Logged Event E (Unit {0}))
      → (follow log r (λ _. rest)).result ≡ ok tt
      → (r ≡ ok tt)
        × (rest.result ≡ ok tt)
        × (log ++ rest.events ≡ (follow log r (λ _. rest)).events)
  both_done log (ok u) rest e = (refl, e, refl)
  both_done log (err d) rest e = absurd cc

module _ (D : DecimalApi) (plan : SettlePlan) (sink : Sink) (v : ValidatedJournalReplay D)
    (worlds : Cloid → ResumeWorld D) (around : Surroundings D) where
  open D use {Decimal, parse}

  abbrev pub stored_prepared : PreparedJournalIntent → Decimal → Decimal → PreparedIntent D
  stored_prepared stored px sz = record {
    symbol = stored.symbol;
    side = stored.side;
    tif = stored.tif;
    px = px;
    sz = sz;
  }

  abbrev pub stored_call : Cloid → PreparedJournalIntent → Decimal → Decimal → SliceCall D
  stored_call cloid stored px sz =
      resume_call D (record plan { symbol = stored.symbol; side = stored.side }) cloid
        stored.slice_idx (stored_prepared stored px sz) sink

  -- The effects close the order that the journal holds for the cloid.
  pub record IsClosing (cloid : Cloid) (vs : List Event) : Type 0 where
    pub stored : PreparedJournalIntent
    pub px : Decimal
    pub sz : Decimal
    pub found : lookup cloid v.prepared ≡ some stored
    pub read_px : parse stored.px ≡ some px
    pub read_sz : parse stored.sz ≡ some sz
    pub resolved : Resolved D (stored_call cloid stored px sz) (worlds cloid) around vs

  -- The effects close the orders one by one.
  pub data Closes : List Cloid → List Event → Type 0 where
    all_closed : Closes [] []
    one_closed :
        {cloid : Cloid} {cloids : List Cloid} {vs ws : List Event}
        → IsClosing cloid vs
        → Closes cloids ws
        → Closes (cloid ∷ cloids) (vs ++ ws)

module _ (D : DecimalApi) (L : DecimalLaws D) (plan : SettlePlan) (sink : Sink)
    (v : ValidatedJournalReplay D) (worlds : Cloid → ResumeWorld D) (around : Surroundings D)
    (accepts : JournalRecord → Bool) (attached : sink ≡ some accepts) where
  open D use {Decimal, parse}

  resume_cloid-IsClosing :
      (cloid : Cloid)
      → (resume_cloid D plan sink v worlds cloid).result ≡ ok tt
      → IsClosing D plan sink v worlds around cloid (resume_cloid D plan sink v worlds cloid).events
  unfolding resume_cloid
  resume_cloid-IsClosing cloid =
      asked_first (IsClosing D plan sink v worlds around cloid)
        (ok_or (lookup cloid v.prepared) "no Prepared record found") _
        (λ stored e.
          asked_first (IsClosing D plan sink v worlds around cloid)
            (ok_or (parse stored.px) "invalid durable Prepared.px") _
            (λ px e1.
              asked_first (IsClosing D plan sink v worlds around cloid)
                (ok_or (parse stored.sz) "invalid durable Prepared.sz") _
                (λ sz e2 h. record {
                  stored = stored;
                  px = px;
                  sz = sz;
                  found = ok_or-eq-ok _ _ e;
                  read_px = ok_or-eq-ok _ _ e1;
                  read_sz = ok_or-eq-ok _ _ e2;
                  resolved =
                      reconcile_unresolved_cloid-Resolved D L
                        (stored_call D plan sink v worlds around cloid stored px sz) (worlds cloid)
                        around accepts attached (map_err-eq-ok _ _ h);
                })))

  resume_each-Closes :
      (cloids : List Cloid)
      → (resume_each D plan sink v worlds cloids).result ≡ ok tt
      → Closes D plan sink v worlds around cloids (resume_each D plan sink v worlds cloids).events
  unfolding resume_each
  resume_each-Closes [] h = all_closed
  resume_each-Closes (cloid ∷ cloids) h =
      let first = resume_cloid D plan sink v worlds cloid in
      let rest = resume_each D plan sink v worlds cloids in
      let (a, b, same) = both_done first.events first.result rest h in
      subst (Closes D plan sink v worlds around (cloid ∷ cloids)) same
        (one_closed (resume_cloid-IsClosing cloid a) (resume_each-Closes cloids b))

-- A resume that succeeds, with a journal attached, has read a valid journal and has closed each
-- order that is unresolved there, in order, by one record each and no other: of no fill, after the
-- exchange denied the order for long enough; or of the fill of a status that the exchange has shown,
-- in answer to the queries or in settling the order, within the intent that the journal holds.
pub reconcile_incomplete_run-Closes :
    (D : DecimalApi) (L : DecimalLaws D) (plan : SettlePlan) (sink : Sink)
    (records : List JournalRecord) (worlds : Cloid → ResumeWorld D) (around : Surroundings D)
    (accepts : JournalRecord → Bool)
    → sink ≡ some accepts
    → (reconcile_incomplete_run D plan sink records worlds).result ≡ ok tt
    → (v : ValidatedJournalReplay D) × (replay D records ≡ ok v)
      × Closes D plan sink v worlds around
          (unresolved_cloids v.summary)
          (reconcile_incomplete_run D plan sink records worlds).events
unfolding reconcile_incomplete_run
reconcile_incomplete_run-Closes D L plan sink records worlds around accepts attached =
    asked_first
      (λ vs.
        (v : ValidatedJournalReplay D) × (replay D records ≡ ok v)
        × Closes D plan sink v worlds around (unresolved_cloids v.summary) vs)
      (map_err (λ _. "cannot reconcile invalid journal") (replay D records)) _
      (λ v e h. (
        v,
        map_err-eq-ok _ _ e,
        resume_each-Closes D L plan sink v worlds around accepts attached
            (unresolved_cloids v.summary) h,
      ))
