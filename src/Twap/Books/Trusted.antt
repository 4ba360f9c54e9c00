-- ===== src/Twap/Books/Trusted.antt =====
-- src/twap.rs: which books `fetch_fresh_book` returns.
use hype_trigger_twap.Prelude.{
  ℕ, zero, suc, ◌+◌, ◌≤◌, ◌≡◌, arith, Option, none, some, false, Result, ok, fail_if, ◌>>=◌, ◌>>◌,
  ◌==◌, >>=-eq-ok, fail_if-eq-ok, Result-cases, ok-injective, inl, inr,
}
use mathlib.Core.Path.{subst}
use hype_trigger_twap.Decimal.{DecimalApi}
use hype_trigger_twap.Types.{Symbol, OrderBook}
use hype_trigger_twap.Errors.{HlError, invalid_response}
use hype_trigger_twap.Client.Book.{ValidatedMarketSnapshot, validate, IsTrusted, validate-IsTrusted}
use hype_trigger_twap.Twap.Schedule.{ExecutionDeadline}
use hype_trigger_twap.Twap.Books.{
  stale_book_retries, is_late, pause, BookReplies, fetched, or_again, fetch_from, fetch_fresh_book,
}

module _ (D : DecimalApi) (r : BookReplies D) (symbol : Symbol) (max_age_ms : ℕ)
    (deadline : Option ExecutionDeadline) where
  -- A fetched book is the trusted reply of one of the attempts, which began before the deadline.
  pub record IsFetched (s : ValidatedMarketSnapshot D) : Type 0 where
    pub attempt : ℕ
    pub within : attempt ≤ stale_book_retries
    pub book : OrderBook D
    pub replied : r.reply attempt ≡ some (ok book)
    pub in_time : is_late deadline (r.checked_at attempt) ≡ false
    pub trusted : IsTrusted D book symbol max_age_ms (r.wall_ms attempt) s

  fetched-some :
      (reply : Option (Result HlError (OrderBook D))) {book : OrderBook D}
      → fetched D reply ≡ ok book
      → reply ≡ some (ok book)
  fetched-some none h = cc
  fetched-some (some reply) h = cc

  -- One attempt: its book is trusted, or the loop goes on.
  attempt-IsFetched :
      (attempt : ℕ) (again : Result HlError (ValidatedMarketSnapshot D))
      {s : ValidatedMarketSnapshot D}
      → attempt ≤ stale_book_retries
      → (fail_if
            (is_late deadline (r.checked_at attempt))
            (invalid_response "execution deadline elapsed")
          >> (fetched D (r.reply attempt) >>= λ book.
              or_again D (validate D book symbol max_age_ms (r.wall_ms attempt)) again))
        ≡ ok s
      → (again ≡ ok s → IsFetched s)
      → IsFetched s
  attempt-IsFetched attempt again {s} within h next =
      let (in_time, h1) = fail_if-eq-ok (is_late deadline (r.checked_at attempt)) _ _ h in
      let (book, got, h2) = >>=-eq-ok (fetched D (r.reply attempt)) _ h1 in
      elim (Result-cases (validate D book symbol max_age_ms (r.wall_ms attempt))) [
        | inl (e, bad) ↦ next (rw bad at h2)
        | inr (snapshot, good) ↦
            let same : snapshot ≡ s = ok-injective (rw good at h2) in
            record {
              attempt = attempt;
              within = within;
              book = book;
              replied = fetched-some (r.reply attempt) got;
              in_time = in_time;
              trusted =
                  subst (IsTrusted D book symbol max_age_ms (r.wall_ms attempt)) same
                    (validate-IsTrusted D book symbol max_age_ms (r.wall_ms attempt) good);
            }
      ]

  fetch_from-IsFetched :
      (left attempt : ℕ) {s : ValidatedMarketSnapshot D}
      → left + attempt ≤ stale_book_retries
      → fetch_from D r symbol max_age_ms deadline left attempt ≡ ok s
      → IsFetched s
  unfolding fetch_from
  fetch_from-IsFetched zero attempt total h =
      attempt-IsFetched attempt _ (omega arith) h (λ e. absurd cc)
  fetch_from-IsFetched (suc left) attempt {s} total h =
      attempt-IsFetched attempt _ (omega arith) h (λ e.
        (let (_, rest) = fail_if-eq-ok (pause deadline (r.paused_at attempt) == 0) _ _ e in
          fetch_from-IsFetched left (attempt + 1) {s = s} (omega arith) rest))

  -- A book that is returned is the reply of one of the four attempts at most, asked for before the
  -- deadline where there is one, and trusted at the time of the reply.
  pub fetch_fresh_book-IsFetched :
      (s : ValidatedMarketSnapshot D)
      → fetch_fresh_book D r symbol max_age_ms deadline ≡ ok s
      → IsFetched s
  unfolding fetch_fresh_book
  fetch_fresh_book-IsFetched s h = fetch_from-IsFetched stale_book_retries 0 (omega arith) h
