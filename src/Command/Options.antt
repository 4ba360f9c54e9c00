-- ===== src/Command/Options.antt =====
-- src/main.rs: the options of the command line, their validation, and the trigger that they set up. A
-- duration is in milliseconds. A message is shortened to the check that failed, and an error of the
-- envelope is kept as a value. The warning about options that the child algorithm ignores is a log,
-- and left out.
pub mod Consistent
use hype_trigger_twap.Prelude.{
  ℕ, ◌*◌, Bool, true, false, not, ◌&&◌, ◌||◌, Option, none, some, is_some, is_none, String, Result,
  ok, err, fail_if, map_err, ◌>>=◌, ◌>>◌, if◌then◌else◌, leb, ◌==◌,
}
use hype_trigger_twap.Decimal.{DecimalApi, from_nat, lt, le}
use hype_trigger_twap.Types.{Side}
use hype_trigger_twap.Risk.{RiskError, validate_slippage, validate_max_notional_required}
use hype_trigger_twap.Trigger.{TriggerWhen, TriggerConfig}
use hype_trigger_twap.Command.{differs}

module _ (D : DecimalApi) where
  open D use {Decimal}

  -- The options that the validation and the trigger read.
  pub record Cli : Type 0 where
    pub side : Option Side
    pub size : Option Decimal
    pub usd : Option Decimal
    pub flatten : Bool
    pub flatten_deadline_unix_ms : Option ℕ
    pub target_sz : Option Decimal
    pub target_usd : Option Decimal
    pub duration : ℕ
    pub slices : ℕ
    pub trigger_price : Option Decimal
    pub trigger_when : Option TriggerWhen
    pub start_after : Option ℕ
    pub live : Bool
    pub read_only : Bool
    pub event_jsonl : Option String
    pub slippage_bps : Decimal
    pub allow_high_slippage : Bool
    pub max_notional_usd : Option Decimal
    pub max_book_age_ms : ℕ
    pub settle_retries : ℕ
    pub trigger_poll_secs : ℕ
    pub wait_network_grace : ℕ
    pub expire_after : Option ℕ
    pub follow_poll_secs : ℕ
    pub follow_repost_secs : ℕ
    pub follow_threshold_bps : Decimal

  pub data CliError : Type 0 where
    refused : String → CliError
    envelope : RiskError D → CliError

  unfoldable pub is_read_only : Cli → Bool
  is_read_only c = c.read_only && not c.live

  unfoldable pub is_live : Cli → Bool
  unfolding is_read_only
  is_live c = not (is_read_only c)

  unfoldable pub is_position_mode : Cli → Bool
  is_position_mode c = c.flatten || (is_some c.target_sz || is_some c.target_usd)

  abbrev pub Checked : Type 0
  Checked = Result CliError (Unit {0})

  -- What the run is asked to trade: an amount with its side, or a position, which implies both.
  unfoldable pub check_asked : Cli → Checked
  unfolding is_position_mode
  check_asked c =
      if is_position_mode c
      then (do
        fail_if (is_some c.size || is_some c.usd) (refused "position modes take no amount")
        fail_if (is_some c.side) (refused "position modes derive the side"))
      else (do
        fail_if (is_none c.size && is_none c.usd) (refused "an amount is required")
        fail_if (is_none c.side) (refused "the side is required"))

  -- An amount that is given is positive.
  unfoldable pub check_positive : String → Option Decimal → Checked
  check_positive message none = ok tt
  check_positive message (some d) = fail_if (le D d (from_nat D 0)) (refused message)

  unfoldable pub check_counts : Cli → Checked
  check_counts c = do
    fail_if (c.duration == 0) (refused "--duration must be > 0")
    fail_if (c.slices == 0) (refused "--slices must be > 0")
    fail_if (c.settle_retries == 0) (refused "--settle-retries must be > 0")
    fail_if (is_some c.flatten_deadline_unix_ms && not c.flatten)
        (refused "--flatten-deadline-unix-ms requires --flatten")

  unfoldable pub check_envelope : Cli → Checked
  unfolding is_read_only
  check_envelope c = do
    map_err envelope (validate_slippage D c.slippage_bps c.allow_high_slippage)
    cap ← map_err envelope (validate_max_notional_required D (is_read_only c) c.max_notional_usd)
    ok tt

  unfoldable pub check_start : Option ℕ → ℕ → Checked
  check_start none expire_after = ok tt
  check_start (some start_after) expire_after =
      fail_if (leb expire_after start_after) (refused "--expire-after is never reached")

  unfoldable pub check_expire_after : Option ℕ → Cli → Checked
  unfolding check_start
  check_expire_after none c = ok tt
  check_expire_after (some expire_after) c = do
    fail_if (expire_after == 0) (refused "--expire-after must be > 0")
    check_start c.start_after expire_after
    fail_if (is_none c.trigger_price && is_none c.start_after)
        (refused "--expire-after requires a trigger")

  unfoldable pub check_trigger : Cli → Checked
  unfolding check_positive check_expire_after
  check_trigger c = do
    fail_if (differs (is_some c.trigger_price) (is_some c.trigger_when))
        (refused "--trigger-price and --trigger-when go together")
    check_positive "--trigger-price must be > 0" c.trigger_price
    fail_if (c.trigger_poll_secs == 0) (refused "--trigger-poll-secs must be > 0")
    fail_if (c.wait_network_grace == 0) (refused "--wait-network-grace must be > 0")
    check_expire_after c.expire_after c

  unfoldable pub check_follow : Cli → Checked
  check_follow c = do
    fail_if (c.follow_poll_secs == 0) (refused "--follow-poll-secs must be > 0")
    fail_if (c.follow_repost_secs == 0) (refused "--follow-repost-secs must be > 0")
    fail_if (lt D c.follow_threshold_bps (from_nat D 0))
        (refused "--follow-threshold-bps must be >= 0")

  -- The conflicts that the attributes of the options declare to the parser of arguments.
  unfoldable pub has_no_conflict : Cli → Bool
  has_no_conflict c =
      not (
        is_some c.size
        && (is_some c.usd || c.flatten || is_some c.target_sz || is_some c.target_usd))
      && (not (is_some c.usd && (c.flatten || is_some c.target_sz || is_some c.target_usd))
          && (not (c.flatten && (is_some c.target_sz || is_some c.target_usd))
              && not (is_some c.target_sz && is_some c.target_usd)))

  -- `Cli::validate`.
  unfoldable pub validate : Cli → Checked
  unfolding is_live check_asked check_positive check_counts check_envelope check_trigger
      check_follow
  validate c = do
    fail_if (is_live c && is_some c.event_jsonl) (refused "--event-jsonl is for simulations")
    check_asked c
    check_positive "--size must be > 0" c.size
    check_positive "--usd must be > 0" c.usd
    check_counts c
    check_envelope c
    check_trigger c
    check_follow c

  unfoldable pub price_trigger :
      Option Decimal → Option TriggerWhen → Option (TriggerWhen × Decimal)
  price_trigger (some px) (some w) = some (w, px)
  price_trigger _ _ = none

  unfoldable pub trigger_config : Cli → TriggerConfig D
  unfolding price_trigger
  trigger_config c = record {
    price = price_trigger c.trigger_price c.trigger_when;
    start_after = c.start_after;
    poll_interval = c.trigger_poll_secs * 1000;
    max_book_age_ms = c.max_book_age_ms;
    wait_network_grace = c.wait_network_grace;
    expire_after = c.expire_after;
  }
