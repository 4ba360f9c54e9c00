-- ===== src/Examples/Runs.antt =====
-- src/twap.rs: post-only placing, the fetch of a book, and whole runs.
use hype_trigger_twap.Prelude.{
  ℕ, ◌+◌, ◌*◌, ◌∷◌, ◌≡◌, refl, arith, none, some, true, false, [], All, ok, ◌⊎◌,
}
use hype_trigger_twap.Prelude.Runs.{Follows}
use hype_trigger_twap.Decimal.{from_nat}
use hype_trigger_twap.Decimal.Fixed.{fixed}
use hype_trigger_twap.Decimal.Unary.{unary, unary_laws}
use hype_trigger_twap.Types.{alo, BookLevel}
use hype_trigger_twap.Client.Book.{validate, is_sorted_desc, is_sorted_asc}
use hype_trigger_twap.Twap.Books.{BookReplies, fetch_from, fetch_fresh_book}
use hype_trigger_twap.Twap.Books.Trusted.{IsFetched, fetch_fresh_book-IsFetched}
use hype_trigger_twap.Twap.Schedule.{ExecutionDeadline, has_passed}
use hype_trigger_twap.Twap.Place.{SliceCall}
use hype_trigger_twap.Twap.Alo.{AloSurroundings, place_alo_child}
use hype_trigger_twap.Twap.Alo.Settling.{IsAloReported}
use hype_trigger_twap.Twap.Alo.Refinement.{place_alo_child-Follows}
use hype_trigger_twap.Twap.Place.Contract.{idle, SliceStep}
use hype_trigger_twap.Twap.Stats.{TwapPlan, follow}
use hype_trigger_twap.Twap.Stats.Envelope.{IsSized, IsWithinEnvelope}
use hype_trigger_twap.Twap.Follow.{FollowTick}
use hype_trigger_twap.Twap.Slices.{SliceWorld}
use hype_trigger_twap.Twap.Runs.{RunWorld, run_loop}
use hype_trigger_twap.Twap.Stats.Tally.{IsCounted}
use hype_trigger_twap.Twap.Slices.Counted.{start}
use hype_trigger_twap.Twap.Slices.Runs.{run_loop-IsWithinEnvelope}
use hype_trigger_twap.Examples.Orders.{book, snapshot}
use hype_trigger_twap.Examples.Placing.{plan, accept_all, call, settling, world}

-- Every fetch brings the same book.
abbrev books : BookReplies fixed
books = record {
  checked_at = λ n. 200 * n;
  reply = λ _. some (ok book);
  wall_ms = λ n. 1000000 + 3000 * n;
  paused_at = λ n. 200 * n + 100;
}

abbrev deadline : ExecutionDeadline
deadline = record { monotonic = 60000; expires_after_ms = 60000 }

fetched : fetch_fresh_book fixed books "HYPE" 5000 (some deadline) ≡ ok snapshot
unfolding fetch_fresh_book fetch_from validate is_sorted_desc is_sorted_asc has_passed
fetched = refl

fetch_fresh_book-IsFetched_example : IsFetched fixed books "HYPE" 5000 (some deadline) snapshot
fetch_fresh_book-IsFetched_example =
    fetch_fresh_book-IsFetched fixed books "HYPE" 5000 (some deadline) snapshot fetched

-- The post-only order is lost on its way, and a probe does not find it.
abbrev alo_world : AloSurroundings unary
alo_world = record { around = world; cancel = λ _. ok tt }

abbrev alo_call : SliceCall unary
alo_call = record call { intent = record call.intent { tif = alo } }

place_alo_child-Follows_example :
    Follows
      (SliceStep unary alo_call world)
      idle
      (place_alo_child unary alo_call alo_world)
      (IsAloReported unary alo_call world)
place_alo_child-Follows_example =
    place_alo_child-Follows unary unary_laws alo_call alo_world accept_all refl

-- Ten coins in two slices, at a follow threshold of five basis points.
abbrev run_plan : TwapPlan unary
run_plan = record {
  settle = plan;
  sz_decimals = 2;
  per_slice = from_nat unary 5;
  total_adjusted = from_nat unary 10;
  total_requested = from_nat unary 10;
  slices = 2;
  duration = 60000;
  absolute_deadline_unix_ms = none;
  slippage_bps = from_nat unary 50;
  max_book_age_ms = 5000;
  read_only = false;
  reduce_only = false;
  max_notional_usd = from_nat unary 1000;
  child_algo = follow;
  follow_repost_secs = 5;
  follow_threshold_bps = from_nat unary 5;
}

run_plan-IsSized : IsSized unary run_plan
run_plan-IsSized = record { slice_nonneg = refl; total_nonneg = refl; slices_fit = omega arith }

abbrev level : ℕ → BookLevel unary
level n = record { px = from_nat unary n; sz = from_nat unary 3; n = 1 }

abbrev quoted : BookReplies unary
quoted = record {
  checked_at = λ n. n;
  reply = λ _. some (
      ok (record {
        coin = "HYPE";
        bids = level 20 ∷ level 19 ∷ [];
        asks = level 21 ∷ level 22 ∷ [];
        time_ms = 1000000;
      }));
  wall_ms = λ _. 1001000;
  paused_at = λ n. n;
}

abbrev tick : ℕ → FollowTick unary
tick n = record {
  top_at = n;
  shutdown = false;
  woke_at = n;
  deadline_at = n;
  books = quoted;
  failed_at = n;
  throttle_at = n;
  settling = settling;
  cloid = n;
  alo = alo_world;
  placed_at = n;
  shutdown_in_rest = false;
}

abbrev slice : ℕ → SliceWorld unary
slice n = record {
  is_down_at_top = false;
  settling = settling;
  position = ok (from_nat unary 0);
  checked_at = 10 * n;
  books = quoted;
  cloid = n;
  placing = world;
  alo = alo_world;
  follow_starts_at = 10 * n + 1;
  ticks = tick (10 * n + 2) ∷ [];
  is_down_in_wait = false;
}

abbrev run_world : RunWorld unary
run_world = record {
  start_ms = 0;
  start_ns = 0;
  wall_ms = 1000000;
  slices = slice;
  settling = settling;
}

run_loop-IsWithinEnvelope_example :
    All
      (IsWithinEnvelope unary run_plan)
      (run_loop unary run_plan (some accept_all) none (from_nat unary 7) run_world).events
    × ((run_plan.read_only ≡ true)
        ⊎ IsCounted unary
            (start unary (from_nat unary 7))
            (run_loop unary run_plan (some accept_all) none (from_nat unary 7) run_world).events)
run_loop-IsWithinEnvelope_example =
    run_loop-IsWithinEnvelope unary unary_laws run_plan (some accept_all) accept_all refl
      run_plan-IsSized none (from_nat unary 7) run_world
