-- ===== src/Twap/Books.antt =====
-- src/twap.rs: `fetch_fresh_book`, which fetches the book until one is trusted, within the deadline.
pub mod Trusted
use hype_trigger_twap.Prelude.{
  ℕ, zero, suc, ◌+◌, ◌≤◌, ◌≡◌, Option, none, some, Bool, false, Result, ok, err, fail_if, ◌>>=◌,
  ◌>>◌, ◌==◌,
}
use Prim.Native.Nat.{min}
use hype_trigger_twap.Decimal.{DecimalApi}
use hype_trigger_twap.Types.{Symbol, OrderBook}
use hype_trigger_twap.Errors.{HlError, invalid_response}
use hype_trigger_twap.Client.Book.{ValidatedMarketSnapshot, validate, IsTrusted}
use hype_trigger_twap.Twap.Schedule.{ExecutionDeadline, has_passed, remaining}

abbrev pub stale_book_retries : ℕ
stale_book_retries = 3

abbrev pub stale_book_retry_interval : ℕ
stale_book_retry_interval = 1000

-- Whether an instant is past the deadline, where there is one.
abbrev pub is_late : Option ExecutionDeadline → ℕ → Bool
is_late none now = false
is_late (some dl) now = has_passed dl now

abbrev pub pause : Option ExecutionDeadline → ℕ → ℕ
pause none now = stale_book_retry_interval
pause (some dl) now = min stale_book_retry_interval (remaining dl now)

module _ (D : DecimalApi) where
  -- `reply n` is the book of attempt `n`, or none where the deadline cut the fetch off, which only a
  -- deadline does. The instants are those of the test before it and of the pause after it, in
  -- milliseconds; `wall_ms` is the clock against which the book is held.
  pub record BookReplies : Type 0 where
    pub checked_at : ℕ → ℕ
    pub reply : ℕ → Option (Result HlError (OrderBook D))
    pub wall_ms : ℕ → ℕ
    pub paused_at : ℕ → ℕ

  abbrev pub fetched : Option (Result HlError (OrderBook D)) → Result HlError (OrderBook D)
  fetched none = err (invalid_response "execution deadline elapsed in a book fetch")
  fetched (some reply) = reply

  abbrev pub or_again :
      Result HlError (ValidatedMarketSnapshot D)
      → Result HlError (ValidatedMarketSnapshot D)
      → Result HlError (ValidatedMarketSnapshot D)
  or_again (ok s) again = ok s
  or_again (err e) again = again

  -- With `left` retries to go after attempt `attempt`.
  unfoldable pub fetch_from :
      BookReplies
      → Symbol
      → ℕ
      → Option ExecutionDeadline
      → ℕ
      → ℕ
      → Result HlError (ValidatedMarketSnapshot D)
  fetch_from r symbol max_age_ms deadline zero attempt = do
    fail_if (is_late deadline (r.checked_at attempt))
        (invalid_response "execution deadline elapsed")
    book ← fetched (r.reply attempt)
    or_again (validate D book symbol max_age_ms (r.wall_ms attempt))
        (err (invalid_response "book still invalid"))
  fetch_from r symbol max_age_ms deadline (suc left) attempt = do
    fail_if (is_late deadline (r.checked_at attempt))
        (invalid_response "execution deadline elapsed")
    book ← fetched (r.reply attempt)
    or_again (validate D book symbol max_age_ms (r.wall_ms attempt)) (do
      fail_if (pause deadline (r.paused_at attempt) == 0)
          (invalid_response "execution deadline elapsed")
      fetch_from r symbol max_age_ms deadline left (attempt + 1))

  unfoldable pub fetch_fresh_book :
      BookReplies
      → Symbol
      → ℕ
      → Option ExecutionDeadline
      → Result HlError (ValidatedMarketSnapshot D)
  fetch_fresh_book r symbol max_age_ms deadline =
      fetch_from r symbol max_age_ms deadline stale_book_retries 0
