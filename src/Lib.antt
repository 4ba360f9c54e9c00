-- ===== src/Lib.antt =====
-- Hype-trigger-twap waits for a trigger, splits an order on a perpetual into slices over a window
-- of time, and keeps a journal from which a run is resumed after a crash. This library models the
-- parts that decide whether it orders, credits and resumes what it should.
--
-- The parts, with the files that model them:
--   Types, Errors: src/types.rs and src/errors.rs. A cloid is its 128-bit number; an error keeps its
--     variant, and its message is shortened to the check that failed.
--   Format: src/format.rs, the rounding of sizes and prices to the exchange's grid (`round_size`,
--     `round_price`, `taker_limit_price`). Format.Grid and Format.Snapping are its bounds.
--   Position: src/position.rs, plans that take a position to a target (`phases_for`, `target_size`,
--     `target_usd`, `flatten`). Position.Phases and Position.Phases.Safety say what the phases of
--     a plan do.
--   Client: src/client.rs, the validation of replies. Client.Status: the vocabulary of statuses and
--     `cross_check`; Client.Fill: `ValidatedFill::validate`; Client.Book:
--     `ValidatedMarketSnapshot::validate`.
--   Twap: src/twap.rs. Twap.Sizing: `compute_sizing`, `decide_slice`; Twap.Schedule: deadlines, the
--     clock skew, the delay between polls; Twap.Ledger: `aggregate_verified_user_fills`;
--     Twap.Settle: `recover_resting_fill`, with `poll_terminal_status` as recursion on the attempts
--     that are left, of which there are `settle_retries`. The exchange is the record `World`.
--     Twap.Reconcile: `reconcile_by_cloid`; Twap.Place: `place_slice_reconciled` with its resends;
--     Twap.Alo: `place_alo_child` and `settle_resting_child`. Their effects, journal records and
--     sends, are a log; Twap.Place.Contract is the contract of that log. Twap.Books:
--     `fetch_fresh_book`; Twap.Stats: the plan, the fills and the report; Twap.Follow:
--     `run_follow_loop`, as recursion on its iterations; Twap.Slices, Twap.Trades and Twap.Runs:
--     `run_twap_journaled_with_prior_notional_and_completion` up to its final report, as recursion
--     on the slices that are left, of which there are `slices`. Twap.Resume:
--     `reconcile_unresolved_cloid`, and `reconcile_incomplete_run` of src/main.rs, which calls it.
--   Risk: src/risk.rs, the checks of prices, notionals, endpoints and networks (`RiskEnvelope`).
--   Command: src/main.rs, the sizing of a run and the check of a stored sizing on a resume
--     (`execution_sizing`, `validate_fingerprint_sizing`), and the position that a journal implies
--     (`expected_position_from_replay`); Command.Options: `Cli::validate`,
--     `Cli::trigger_config`, and the conflicts that the options declare to the parser.
--   Trigger: src/trigger.rs, `wait_for_trigger` as recursion on the list of the iterations that take
--     place, each with what it reads of the clock and the book; `none` says that the wait goes on.
--   Journal: src/journal.rs. Journal.Records: the records; Journal.Replay and the modules below it:
--     `ValidatedJournalReplay::replay`, one function per kind of record, and the loop;
--     Journal.Fingerprint and Journal.WholeRun: the checks that it calls; Journal.Summary:
--     `RunSummary`. Journal.Ending and Journal.Credit hold the invariants of the loop.
--   Prelude: Boolean tests, lists, results, maps and texts that the parts share.
--   Examples: the theorems at concrete inputs.
-- A slice is sized by Twap.Sizing at a price of Format, its fill is validated by Client.Fill or
-- settled by Twap.Settle, and recorded; Journal.Replay reads the records under the same rules of
-- price and size. Twap.Runs drives Twap.Slices and Twap.Trades, which call Twap.Place, Twap.Alo and
-- Twap.Follow; every event of an order is labelled with what the run had counted as filled when it
-- took place, and what each order leaves (a fill, an order that rests) is an event of its own, from
-- which Twap.Stats.Tally counts the fills a second time. What the exchange, the clocks and the
-- shutdown signal give is read from records of the outside (`World`, `Surroundings`, `SliceWorld`),
-- over which the theorems quantify.
--
-- Decimals: `rust_decimal` is the parameter `DecimalApi` of each module, and what is relied on of
-- it is the record `DecimalLaws`: sums and products by whole numbers are exact, roundings go to the
-- neighbour on the grid, a quotient by a whole number is off by half of 10^-28, or of 10^-27 of
-- itself, at most. This holds of results within 96 bits of mantissa whose scale is within 28
-- digits; the panic of an operator on overflow is not modelled, while the checked operations may
-- fail at will. Decimal.Fixed is an arithmetic that has the laws. Sections where a theorem needs
-- laws take them as a second parameter.
--
-- Machine integers: the shift of `order_status_retry_delay_settle` wraps at 2^64, and the deadlines
-- saturate there; other counters are far from their bounds. `max_book_age_ms` is below 2^63, and
-- times are not before the epoch. The source's hash maps are association lists in the order of first
-- insertion; its sums over a map are taken in that order.
--
-- Not modelled: HTTP, signing, files, locks, logs and metrics, and the rest of the command line
-- (src/main.rs); of src/twap.rs the writing of the final report.
pub mod Prelude
pub mod Decimal
pub mod Types
pub mod Format
pub mod Errors
pub mod Client
pub mod Position
pub mod Twap
pub mod Command
pub mod Trigger
pub mod Risk
pub mod Journal
pub mod Examples
