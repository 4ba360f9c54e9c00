-- ===== src/Command/Options/Consistent.antt =====
-- src/main.rs: what the validation of the command line lets through.
use hype_trigger_twap.Prelude.{
  ℕ, ◌+◌, ◌*◌, not, ◌≤◌, ◌<◌, ◌≡◌, refl, sym, ◌∙◌, arith, ◌⊎◌, inl, inr, Bool, true, false, ◌||◌,
  ◌&&◌, Option, String, none, some, is_some, is_none, ok, Bool-cases, fail_if-eq-ok, fail_if-ok,
  >>=-eq-ok, map_err, leb, ◌==◌, map_err-eq-ok,
}
use mathlib.Core.Path.{subst}
use mathlib.Core.Option.{some-injective}
use hype_trigger_twap.Decimal.{DecimalApi, unit}
use hype_trigger_twap.Decimal.Laws.{DecimalLaws}
use hype_trigger_twap.Risk.{validate_slippage, validate_max_notional_required}
use hype_trigger_twap.Risk.Envelope.{validate_slippage_ok, validate_max_notional_required_ok}
use hype_trigger_twap.Trigger.{TriggerWhen, TriggerConfig, is_immediate}
use hype_trigger_twap.Command.{differs}
use hype_trigger_twap.Command.Options.{
  Cli, envelope, is_read_only, is_live, is_position_mode, check_asked, check_positive, check_counts,
  check_envelope, has_no_conflict, check_start, check_expire_after, check_trigger, validate,
  price_trigger, trigger_config,
}

abbrev pub count : Bool → ℕ
count true = 1
count false = 0

-- Five flags, of which no two conflict; either one of the last three is set, or one of the first two.
one_flag :
    (size usd flatten sz target : Bool)
    → (not (size && (usd || flatten || sz || target))
        && (not (usd && (flatten || sz || target))
            && (not (flatten && (sz || target)) && not (sz && target))))
      ≡ true
    → ((flatten || (sz || target)) ≡ true) ⊎ ((size || usd) ≡ true)
    → count size + count usd + count flatten + count sz + count target ≡ 1
one_flag size usd flatten sz target clear asked = ground arith

neither : (a b : Bool) → (a || b) ≡ false → (a ≡ false) × (b ≡ false)
neither true b h = absurd cc
neither false b h = (refl, h)

one_given :
    {A B : Type 0} (a : Option A) (b : Option B)
    → (is_none a && is_none b) ≡ false
    → (is_some a || is_some b) ≡ true
one_given (some x) b h = refl
one_given none (some y) h = refl
one_given none none h = absurd cc

given : {A : Type 0} (a : Option A) → is_none a ≡ false → is_some a ≡ true
given (some x) h = refl
given none h = absurd cc

module _ (D : DecimalApi) where
  open D use {Decimal, plus, minus}

  abbrev pub IsPositive : Option Decimal → Type 0
  IsPositive given = (d : Decimal) → given ≡ some d → 0 < plus d

  -- A position implies its amount and side; an order names both.
  pub IsRequested : Cli D → Type 0
  IsRequested c =
      ((is_position_mode D c ≡ true)
        × ((is_some c.size ≡ false) × (is_some c.usd ≡ false))
        × (is_some c.side ≡ false))
      ⊎ ((is_position_mode D c ≡ false)
          × ((is_some c.size || is_some c.usd) ≡ true)
          × (is_some c.side ≡ true))

  -- In how many ways the options say what to trade.
  abbrev pub ways : Cli D → ℕ
  ways c =
      count (is_some c.size)
      + count (is_some c.usd)
      + count c.flatten
      + count (is_some c.target_sz)
      + count (is_some c.target_usd)

  -- The slippage is in its bounds, and a run that is not read-only has a positive cap.
  pub record IsCapped (c : Cli D) : Type 0 where
    pub slippage_nonneg : minus c.slippage_bps ≡ 0
    pub slippage_capped : plus c.slippage_bps < 10000 * unit
    pub slippage_allowed : (plus c.slippage_bps ≤ 1000 * unit) ⊎ (c.allow_high_slippage ≡ true)
    pub cap_given : is_read_only D c ≡ false → is_some c.max_notional_usd ≡ true
    pub cap_positive : IsPositive c.max_notional_usd

  -- The wait asks again after a time, and its expiry has a condition that can be met before it.
  pub record IsWaitable (cfg : TriggerConfig D) : Type 0 where
    pub polls : 0 < cfg.poll_interval
    pub patient : 0 < cfg.wait_network_grace
    pub conditional : (e : ℕ) → cfg.expire_after ≡ some e → is_immediate D cfg ≡ false
    pub ordered : (e s : ℕ) → cfg.expire_after ≡ some e → cfg.start_after ≡ some s → s < e

  pub record IsConsistent (c : Cli D) : Type 0 where
    pub requested : IsRequested c
    pub one_way : ways c ≡ 1
    pub size_positive : IsPositive c.size
    pub usd_positive : IsPositive c.usd
    pub takes_time : 0 < c.duration
    pub has_slices : 0 < c.slices
    pub retries : 0 < c.settle_retries
    pub capped : IsCapped c
    pub waitable : IsWaitable (trigger_config D c)

  check_asked_ok : (c : Cli D) → check_asked D c ≡ ok tt → IsRequested c
  unfolding check_asked is_position_mode IsRequested
  check_asked_ok c h = elim (Bool-cases (is_position_mode D c)) [
    | inl position ↦
        (let k = rw position at h in
          let (amounts, k1) = fail_if-eq-ok (is_some c.size || is_some c.usd) _ _ k in
          inl (position, neither (is_some c.size) (is_some c.usd) amounts, fail_if-ok _ _ k1))
    | inr order ↦
        (let k = rw order at h in
          let (amounts, k1) = fail_if-eq-ok (is_none c.size && is_none c.usd) _ _ k in
          inr (order, one_given c.size c.usd amounts, given c.side (fail_if-ok _ _ k1)))
  ]

  one_way_ok : (c : Cli D) → has_no_conflict D c ≡ true → IsRequested c → ways c ≡ 1
  unfolding has_no_conflict is_position_mode IsRequested
  one_way_ok c clear (inl position) =
      one_flag (is_some c.size) (is_some c.usd) c.flatten (is_some c.target_sz)
        (is_some c.target_usd) clear (inl position.0)
  one_way_ok c clear (inr order) =
      one_flag (is_some c.size) (is_some c.usd) c.flatten (is_some c.target_sz)
        (is_some c.target_usd) clear (inr order.1)

  check_counts_ok :
      (c : Cli D)
      → check_counts D c ≡ ok tt
      → (0 < c.duration) × (0 < c.slices) × (0 < c.settle_retries)
  unfolding check_counts
  check_counts_ok c h = ground arith

  check_expire_after_conditional :
      (expire : Option ℕ) (c : Cli D) (e : ℕ)
      → check_expire_after D expire c ≡ ok tt
      → expire ≡ some e
      → (is_none c.trigger_price ≡ false) ⊎ (is_none c.start_after ≡ false)
  unfolding check_expire_after
  check_expire_after_conditional none c e h same = absurd cc
  check_expire_after_conditional (some t) c e h same = ground arith

  check_expire_after_ordered :
      (expire start : Option ℕ) (c : Cli D) (e s : ℕ)
      → check_expire_after D expire c ≡ ok tt
      → c.start_after ≡ start
      → expire ≡ some e
      → start ≡ some s
      → s < e
  unfolding check_expire_after check_start
  check_expire_after_ordered none start c e s h at same from = absurd cc
  check_expire_after_ordered (some t) none c e s h at same from = absurd cc
  check_expire_after_ordered (some t) (some b) c e s h at same from =
      let started : check_start D (some b) t ≡ ok tt =
        (let (_, rest) = fail_if-eq-ok (t == 0) _ _ h in
          let (_, begun, _) = >>=-eq-ok (check_start D c.start_after t) _ rest in
          subst (λ o. check_start D o t ≡ ok tt) at begun) in
      let later : leb t b ≡ false = fail_if-ok _ _ started in
      let te = some-injective _ _ same in let bs = some-injective _ _ from in ground arith

module _ (D : DecimalApi) (L : DecimalLaws D) where
  open D use {Decimal, plus, minus}
  open L use {one_sign, plus-new, minus-new}

  check_positive_ok :
      (message : String) (given : Option Decimal)
      → check_positive D message given ≡ ok tt
      → IsPositive D given
  unfolding check_positive
  check_positive_ok message none h d e = cc
  check_positive_ok message (some x) h d e =
      let low = fail_if-ok _ _ h in
      let same : x ≡ d = some-injective _ _ e in
      let zero_plus = plus-new 0 0 (omega arith) in
      let zero_minus = minus-new 0 0 in
      let sign = one_sign x in subst (λ y. 0 < plus y) same (ground arith)

  check_envelope_ok : (c : Cli D) → check_envelope D c ≡ ok tt → IsCapped D c
  unfolding check_envelope
  check_envelope_ok c h =
      let (u, slippage, rest) =
        >>=-eq-ok (map_err envelope (validate_slippage D c.slippage_bps c.allow_high_slippage)) _
          h in
      let bounds =
        (validate_slippage_ok D L c.slippage_bps c.allow_high_slippage).0
          (map_err-eq-ok _ _ slippage) in
      let (cap, taken, done) =
        >>=-eq-ok
          (map_err envelope
            (validate_max_notional_required D (is_read_only D c) c.max_notional_usd))
          _ rest in
      let given =
        (validate_max_notional_required_ok D L (is_read_only D c) c.max_notional_usd cap).0
          (map_err-eq-ok _ _ taken) in
      record {
        slippage_nonneg = bounds.0;
        slippage_capped = bounds.1;
        slippage_allowed = bounds.2;
        cap_given = λ live. elim given [ inl (e, p) ↦ rw e refl | inr (a, b, e) ↦ absurd cc ];
        cap_positive = λ d e. elim given [
          | inl (g, p) ↦ subst (λ y. 0 < plus y) (some-injective _ _ (sym g ∙ e)) p
          | inr (a, b, f) ↦ absurd cc
        ];
      }

  conditional_when :
      (px : Option Decimal) (w : Option TriggerWhen) (start : Option ℕ)
      → differs (is_some px) (is_some w) ≡ false
      → ((is_none px ≡ false) ⊎ (is_none start ≡ false))
      → (is_none (price_trigger D px w) && is_none start) ≡ false
  unfolding price_trigger
  conditional_when (some px) (some w) start together cond = refl
  conditional_when (some px) none start together cond = absurd cc
  conditional_when none w (some t) together cond = refl
  conditional_when none w none together (inl a) = absurd cc
  conditional_when none w none together (inr a) = absurd cc

  check_trigger_ok : (c : Cli D) → check_trigger D c ≡ ok tt → IsWaitable D (trigger_config D c)
  unfolding check_trigger trigger_config is_immediate
  check_trigger_ok c h =
      let (together, h1) =
        fail_if-eq-ok (differs (is_some c.trigger_price) (is_some c.trigger_when)) _ _ h in
      let (_, _, h2) =
        >>=-eq-ok (check_positive D "--trigger-price must be > 0" c.trigger_price) _ h1 in
      let (polls, h3) = fail_if-eq-ok (c.trigger_poll_secs == 0) _ _ h2 in
      let (patient, h4) = fail_if-eq-ok (c.wait_network_grace == 0) _ _ h3 in
      record {
        polls = ground arith;
        patient = ground arith;
        conditional = λ e same.
            conditional_when c.trigger_price c.trigger_when c.start_after together
              (check_expire_after_conditional D c.expire_after c e h4 same);
        ordered = λ e s at from.
            check_expire_after_ordered D c.expire_after c.start_after c e s h4 refl at from;
      }

  -- A command line without conflicting options that is accepted says in exactly one way what to
  -- trade, with its side where it is an order, and with positive amounts; its
  -- slippage and cap are within the envelope; and where its trigger can expire, the run does not
  -- start at once and its start comes before the expiry.
  pub validate-IsConsistent :
      (c : Cli D) → has_no_conflict D c ≡ true → validate D c ≡ ok tt → IsConsistent D c
  unfolding validate
  validate-IsConsistent c clear h =
      let (_, h1) = fail_if-eq-ok (is_live D c && is_some c.event_jsonl) _ _ h in
      let (_, request, h2) = >>=-eq-ok (check_asked D c) _ h1 in
      let (_, size, h3) = >>=-eq-ok (check_positive D "--size must be > 0" c.size) _ h2 in
      let (_, usd, h4) = >>=-eq-ok (check_positive D "--usd must be > 0" c.usd) _ h3 in
      let (_, counts, h5) = >>=-eq-ok (check_counts D c) _ h4 in
      let (_, capped, h6) = >>=-eq-ok (check_envelope D c) _ h5 in
      let (_, trigger, _) = >>=-eq-ok (check_trigger D c) _ h6 in
      let (time, slices, retries) = check_counts_ok D c counts in
      record {
        requested = check_asked_ok D c request;
        one_way = one_way_ok D c clear (check_asked_ok D c request);
        size_positive = check_positive_ok "--size must be > 0" c.size size;
        usd_positive = check_positive_ok "--usd must be > 0" c.usd usd;
        takes_time = time;
        has_slices = slices;
        retries = retries;
        capped = check_envelope_ok c capped;
        waitable = check_trigger_ok c trigger;
      }
