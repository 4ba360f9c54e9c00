-- ===== src/Client/Book.antt =====
-- src/client.rs: a book snapshot is trusted only after it is held against the request, its own
-- order and the clock. Times are milliseconds since the epoch.
use hype_trigger_twap.Prelude.{
  ℕ, ◌+◌, ◌≤◌, ◌<◌, ◌≡◌, arith, some, Bool, true, false, not, ◌&&◌, ◌||◌, List, [], ◌∷◌, Result, ok,
  fail_if, fail_if-eq-ok, ok_or, ok_or-eq-ok, >>=-eq-ok, ok-injective, ◌>>=◌, ◌>>◌, ltb, any, first,
  str_eq, String, All, eq_iff, and_parts, not-false,
}
use mathlib.Core.Path.{subst}
use mathlib.Core.Option.{some-injective}
use hype_trigger_twap.Decimal.{DecimalApi, from_nat, lt, le}
use hype_trigger_twap.Types.{Symbol, BookLevel, OrderBook}
use hype_trigger_twap.Errors.{HlError, invalid_response}

abbrev pub max_future_skew_ms : ℕ
max_future_skew_ms = 2000

module _ (D : DecimalApi) where
  open D use {Decimal, add, div, plus, minus}

  pub record ValidatedMarketSnapshot : Type 0 where
    pub coin : String
    pub server_ts_ms : ℕ
    pub best_bid : Decimal
    pub best_ask : Decimal
    pub mid : Decimal

  abbrev pub bad_level : BookLevel D → Bool
  bad_level l = le D l.px (from_nat D 0) || le D l.sz (from_nat D 0)

  -- `windows(2).all(…)`
  unfoldable pub is_sorted_desc : List (BookLevel D) → Bool
  is_sorted_desc [] = true
  is_sorted_desc (a ∷ []) = true
  is_sorted_desc (a ∷ b ∷ ls) = le D b.px a.px && is_sorted_desc (b ∷ ls)

  unfoldable pub is_sorted_asc : List (BookLevel D) → Bool
  is_sorted_asc [] = true
  is_sorted_asc (a ∷ []) = true
  is_sorted_asc (a ∷ b ∷ ls) = le D a.px b.px && is_sorted_asc (b ∷ ls)

  -- The age test, on a snapshot that may be ahead of the clock: its age is negative then.
  abbrev pub too_old : ℕ → ℕ → ℕ → Bool
  too_old now_ms time_ms max_age_ms = ltb 0 max_age_ms && ltb (time_ms + max_age_ms) now_ms

  -- `now_ms` is the clock's reading, which the source takes in the middle of the checks.
  unfoldable pub validate : OrderBook D → Symbol → ℕ → ℕ → Result HlError ValidatedMarketSnapshot
  validate book requested max_age_ms now_ms = do
    fail_if (not (str_eq book.coin requested)) (invalid_response "coin mismatch")
    best_bid ← ok_or (first book.bids) (invalid_response "empty bid side")
    best_ask ← ok_or (first book.asks) (invalid_response "empty ask side")
    fail_if (any bad_level book.bids) (invalid_response "non-positive bid level")
    fail_if (any bad_level book.asks) (invalid_response "non-positive ask level")
    fail_if (lt D best_ask.px best_bid.px) (invalid_response "crossed book")
    fail_if (not (is_sorted_desc book.bids)) (invalid_response "bid levels not descending")
    fail_if (not (is_sorted_asc book.asks)) (invalid_response "ask levels not ascending")
    fail_if (ltb (now_ms + max_future_skew_ms) book.time_ms) (invalid_response "in the future")
    fail_if (too_old now_ms book.time_ms max_age_ms) (invalid_response "stale")
    ok (record {
      coin = book.coin;
      server_ts_ms = book.time_ms;
      best_bid = best_bid.px;
      best_ask = best_ask.px;
      mid = div (add best_bid.px best_ask.px) (from_nat D 2);
    })

  -- What a trusted snapshot says of its book: it is the requested coin's; the best levels are
  -- positive and do not cross; no bid is above the best one and no ask below; the time is at most
  -- two seconds ahead of the clock and, where an age is set, at most that old.
  pub record IsTrusted (book : OrderBook D) (requested : Symbol) (max_age_ms now_ms : ℕ)
      (s : ValidatedMarketSnapshot) : Type 0 where
    pub same_coin : s.coin ≡ requested
    pub bid_positive : le D s.best_bid (from_nat D 0) ≡ false
    pub ask_positive : le D s.best_ask (from_nat D 0) ≡ false
    pub uncrossed : plus s.best_bid + minus s.best_ask ≤ plus s.best_ask + minus s.best_bid
    pub top_bid : All (λ l. le D l.px s.best_bid ≡ true) book.bids
    pub top_ask : All (λ l. le D s.best_ask l.px ≡ true) book.asks
    pub not_ahead : s.server_ts_ms ≤ now_ms + max_future_skew_ms
    pub fresh : 0 < max_age_ms → now_ms ≤ s.server_ts_ms + max_age_ms

  le_trans_decimal : (a b c : Decimal) → le D a b ≡ true → le D b c ≡ true → le D a c ≡ true
  le_trans_decimal a b c h k = ground arith

  le_refl_decimal : (a : Decimal) → le D a a ≡ true
  le_refl_decimal a = ground arith

  -- In a list in descending order nothing is above the head, nor above what the head is below.
  sorted_desc-top :
      (top : Decimal) (a : BookLevel D) (ls : List (BookLevel D))
      → le D a.px top ≡ true
      → is_sorted_desc (a ∷ ls) ≡ true
      → All (λ l. le D l.px top ≡ true) (a ∷ ls)
  unfolding is_sorted_desc
  sorted_desc-top top a [] h s = (h, tt)
  sorted_desc-top top a (b ∷ ls) h s =
      let (step, rest) = and_parts (le D b.px a.px) (is_sorted_desc (b ∷ ls)) s in
      (h, sorted_desc-top top b ls (le_trans_decimal b.px a.px top step h) rest)

  sorted_asc-top :
      (top : Decimal) (a : BookLevel D) (ls : List (BookLevel D))
      → le D top a.px ≡ true
      → is_sorted_asc (a ∷ ls) ≡ true
      → All (λ l. le D top l.px ≡ true) (a ∷ ls)
  unfolding is_sorted_asc
  sorted_asc-top top a [] h s = (h, tt)
  sorted_asc-top top a (b ∷ ls) h s =
      let (step, rest) = and_parts (le D a.px b.px) (is_sorted_asc (b ∷ ls)) s in
      (h, sorted_asc-top top b ls (le_trans_decimal top a.px b.px h step) rest)

  first-top :
      (bids : List (BookLevel D)) (b : BookLevel D)
      → first bids ≡ some b
      → is_sorted_desc bids ≡ true
      → any bad_level bids ≡ false
      → (le D b.px (from_nat D 0) ≡ false) × All (λ l. le D l.px b.px ≡ true) bids
  first-top [] b e s n = cc
  first-top (a ∷ ls) b e s n =
      let same : a ≡ b = some-injective _ _ e in
      subst (λ c. (le D c.px (from_nat D 0) ≡ false) × All (λ l. le D l.px c.px ≡ true) (a ∷ ls))
        same (ground arith, sorted_desc-top a.px a ls (le_refl_decimal a.px) s)

  first-bottom :
      (asks : List (BookLevel D)) (b : BookLevel D)
      → first asks ≡ some b
      → is_sorted_asc asks ≡ true
      → any bad_level asks ≡ false
      → (le D b.px (from_nat D 0) ≡ false) × All (λ l. le D b.px l.px ≡ true) asks
  first-bottom [] b e s n = cc
  first-bottom (a ∷ ls) b e s n =
      let same : a ≡ b = some-injective _ _ e in
      subst (λ c. (le D c.px (from_nat D 0) ≡ false) × All (λ l. le D c.px l.px ≡ true) (a ∷ ls))
        same (ground arith, sorted_asc-top a.px a ls (le_refl_decimal a.px) s)

  -- An accepted book is trusted: it is the requested coin's, its best levels are positive, do not
  -- cross and bound the levels of their sides, and its time is at most two seconds ahead of the
  -- clock and, where an age is set, at most that old.
  pub validate-IsTrusted :
      (book : OrderBook D) (requested : Symbol) (max_age_ms now_ms : ℕ)
      {s : ValidatedMarketSnapshot}
      → validate book requested max_age_ms now_ms ≡ ok s
      → IsTrusted book requested max_age_ms now_ms s
  unfolding validate
  validate-IsTrusted book requested max_age_ms now_ms h =
      let (coin, h1) = fail_if-eq-ok (not (str_eq book.coin requested)) _ _ h in
      let (bid, eb, h2) = >>=-eq-ok (ok_or (first book.bids) _) _ h1 in
      let (ask, ea, h3) = >>=-eq-ok (ok_or (first book.asks) _) _ h2 in
      let (bids, h4) = fail_if-eq-ok (any bad_level book.bids) _ _ h3 in
      let (asks, h5) = fail_if-eq-ok (any bad_level book.asks) _ _ h4 in
      let (cross, h6) = fail_if-eq-ok (lt D ask.px bid.px) _ _ h5 in
      let (desc, h7) = fail_if-eq-ok (not (is_sorted_desc book.bids)) _ _ h6 in
      let (asc, h8) = fail_if-eq-ok (not (is_sorted_asc book.asks)) _ _ h7 in
      let (ahead, h9) = fail_if-eq-ok (ltb (now_ms + max_future_skew_ms) book.time_ms) _ _ h8 in
      let (old, h10) = fail_if-eq-ok (too_old now_ms book.time_ms max_age_ms) _ _ h9 in
      let top = first-top book.bids bid (ok_or-eq-ok _ _ eb) (not-false _ desc) bids in
      let bottom = first-bottom book.asks ask (ok_or-eq-ok _ _ ea) (not-false _ asc) asks in
      subst (IsTrusted book requested max_age_ms now_ms) (ok-injective h10) (record {
        same_coin = (eq_iff book.coin requested).0 (not-false _ coin);
        bid_positive = top.0;
        ask_positive = bottom.0;
        uncrossed = ground arith;
        top_bid = top.1;
        top_ask = bottom.1;
        not_ahead = ground arith;
        fresh = λ aged. ground arith;
      })
