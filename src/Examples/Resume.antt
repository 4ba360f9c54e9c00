-- ===== src/Examples/Resume.antt =====
-- src/twap.rs, src/main.rs: the resume of a run that left one order unresolved.
use hype_trigger_twap.Prelude.{◌*◌, ◌≡◌, refl, none, some, true, [], ◌∷◌, ok, err}
use hype_trigger_twap.Decimal.Fixed.{fixed, fixed_laws}
use hype_trigger_twap.Decimal.Unary.{unary, unary_laws, read-print}
use hype_trigger_twap.Types.{Cloid}
use hype_trigger_twap.Errors.{network}
use hype_trigger_twap.Journal.Records.{submitted, at_submitted}
use hype_trigger_twap.Journal.Replay.{
  ReplayState, empty_state, decimal, calculate_totals, add_totals, add_execution, unresolved_of,
}
use hype_trigger_twap.Journal.Replay.Transitions.{
  header_step, check_header, check_fingerprint, prepared_step, check_prepared, check_unprepared,
  check_transition,
}
use hype_trigger_twap.Journal.Replay.Transitions.Closing.{
  replay_from, replay_records, step, apply_record, submitted_step,
}
use hype_trigger_twap.Journal.Summary.{ValidatedJournalReplay, replay, unresolved_cloids}
use hype_trigger_twap.Twap.Settle.{World}
use hype_trigger_twap.Twap.Reconcile.{examine, reconcile_from, reconcile_by_cloid}
use hype_trigger_twap.Twap.Place.{Surroundings, record_in, journal_terminal}
use hype_trigger_twap.Twap.Place.Contract.{unresolved, closed}
use hype_trigger_twap.Twap.Place.Records.{Tracks, written_intent, accounted}
use hype_trigger_twap.Twap.Place.Taken.{TakenInto, entered-Tracks}
use hype_trigger_twap.Twap.Place.Acceptance.{records}
use hype_trigger_twap.Twap.Resume.{
  ResumeWorld, as_order_intent, after_queries, after_first_probe, reconcile_unresolved_cloid,
  resume_cloid, resume_each, reconcile_incomplete_run,
}
use hype_trigger_twap.Twap.Resume.Closes.{Closes, reconcile_incomplete_run-Closes}
use hype_trigger_twap.Twap.Resume.Taken.{reconcile_unresolved_cloid-TakenInto}
use hype_trigger_twap.Examples.Journals.{open_run}
use hype_trigger_twap.Examples.Placing.{plan, accept_all, call, world, settling, denials}

-- The exchange is down at first, and then denies the order.
abbrev idle_world : World fixed
idle_world = record {
  status = λ _. ok none;
  first_cancel = ok tt;
  cancel = λ _. ok tt;
  ledger = λ _ _. ok [];
  cancel_started_ms = 0;
  cancel_settled_ms = 0;
}

abbrev resumed : Cloid → ResumeWorld fixed
resumed cloid = record {
  probe = err (network "down");
  settling = idle_world;
  replies = record { status = λ _. ok none; seen_at = λ n. 1100 * n };
}

abbrev placed_in : Surroundings fixed
placed_in = record {
  started_at = 0;
  looped_at = λ n. n;
  position = λ _. err (network "down");
  guarded_at = λ n. n;
  shutdown_before_send = λ _. true;
  place = λ _. err (network "down");
  settling = λ _. idle_world;
  replies = λ _. (resumed 7).replies;
  probe = err (network "down");
  shutdown_after_reconcile = λ _. true;
  reconciled_at = λ n. n;
}

reconciled : (reconcile_incomplete_run fixed plan (some accept_all) open_run resumed).result ≡ ok tt
unfolding reconcile_incomplete_run resume_each resume_cloid reconcile_unresolved_cloid
    after_first_probe after_queries reconcile_by_cloid reconcile_from examine record_in
    journal_terminal unresolved_cloids as_order_intent replay replay_records replay_from step
    apply_record header_step check_header check_fingerprint prepared_step check_prepared
    check_unprepared decimal submitted_step check_transition calculate_totals add_totals
    add_execution unresolved_of
reconciled = refl

reconcile_incomplete_run-Closes_example :
    (v : ValidatedJournalReplay fixed) × (replay fixed open_run ≡ ok v)
    × Closes fixed plan
        (some accept_all)
        v
        resumed
        placed_in
        (unresolved_cloids v.summary)
        (reconcile_incomplete_run fixed plan (some accept_all) open_run resumed).events
reconcile_incomplete_run-Closes_example =
    reconcile_incomplete_run-Closes fixed fixed_laws plan (some accept_all) open_run resumed
      placed_in accept_all refl reconciled

abbrev denied_world : ResumeWorld unary
denied_world = record { probe = ok none; settling = settling; replies = denials }

-- The journal after the mark of an unknown outcome.
abbrev marked_state : ReplayState unary
marked_state = record (empty_state unary) {
  prepared = (7, written_intent unary call world) ∷ [];
  accounting_prepared = (7, accounted unary call world) ∷ [];
  state_values = (7, submitted) ∷ [];
  states = (7, at_submitted) ∷ [];
}

marked-Tracks : Tracks unary call world (unresolved 0) marked_state
marked-Tracks =
    entered-Tracks unary unary_laws call world read-print refl refl (unresolved 0) at_submitted
      marked_state refl refl refl (refl, refl, refl) (λ _. refl)

denied_again : (reconcile_unresolved_cloid unary call denied_world).result ≡ ok tt
unfolding reconcile_unresolved_cloid after_first_probe after_queries reconcile_by_cloid
    reconcile_from examine record_in journal_terminal
denied_again = refl

reconcile_unresolved_cloid-TakenInto_example :
    TakenInto unary unary_laws call world read-print refl refl closed (
      replay_from unary 1
        (records (reconcile_unresolved_cloid unary call denied_world).events)
        marked_state)
reconcile_unresolved_cloid-TakenInto_example =
    reconcile_unresolved_cloid-TakenInto unary unary_laws call denied_world world read-print refl
      refl accept_all refl (unresolved 0) tt marked_state 1 marked-Tracks denied_again
