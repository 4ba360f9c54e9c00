-- ===== src/Twap/Schedule.antt =====
-- src/twap.rs: the clocks of a run. Durations are nanoseconds or milliseconds as in the source,
-- instants are natural numbers of the same unit.
use hype_trigger_twap.Prelude.{
  ℕ, zero, suc, ◌+◌, ◌-◌, ◌*◌, ◌/◌, ◌%◌, ◌^◌, ◌≤◌, ◌<◌, ◌≡◌, ◌⊎◌, ◌↔◌, refl, arith, Bool, true,
  Result, ok, err, ltb, leb, if◌then◌else◌, ◌&&◌, ◌||◌, ◌==◌, ◌≢◌,
}
use hype_trigger_twap.Errors.{HlError, invalid_response, invalid_config}
use Prim.Native.Nat.{min}
use native.Mathlib.Decide.{dec_lt}
use native.Mathlib.Nat.{
  div-mul-le_self, le-div_iff_mul-le, le_trans, pow-le-pow_right, mul-le-mul_left, mul-div_cancel,
}

abbrev pub u64_max : ℕ
u64_max = 2 ^ 64 - 1

-- `checked_shl` refuses a shift by 64 or more, and lets the bits that it shifts out go.
unfoldable pub order_status_retry_delay_settle : ℕ → ℕ
order_status_retry_delay_settle attempt =
    let doubled_ms = if ltb attempt 64 then 500 * 2 ^ attempt % 2 ^ 64 else u64_max in
    min doubled_ms 15000

pub record ExecutionDeadline : Type 0 where
  pub monotonic : ℕ
  pub expires_after_ms : ℕ

-- `start` and `duration` in milliseconds; `saturating_add` stops at the largest u64.
unfoldable pub new_deadline : ℕ → ℕ → ℕ → ExecutionDeadline
new_deadline start duration wall_now_ms = record {
  monotonic = start + duration;
  expires_after_ms = min (wall_now_ms + duration % 2 ^ 64) u64_max;
}

unfoldable pub remaining : ExecutionDeadline → ℕ → ℕ
remaining dl now = dl.monotonic - now

unfoldable pub has_passed : ExecutionDeadline → ℕ → Bool
has_passed dl now = leb dl.monotonic now

unfoldable pub check_before_send : ExecutionDeadline → ℕ → Result HlError (Unit {0})
unfolding has_passed
check_before_send dl now =
    if has_passed dl now then err (invalid_response "execution deadline elapsed") else ok tt

abbrev pub max_clock_skew_ms : ℕ
max_clock_skew_ms = 5000

-- Both clocks are milliseconds since the epoch; the skew's absolute value is the larger difference.
unfoldable pub check_clock_skew : ℕ → ℕ → Result HlError (Unit {0})
check_clock_skew local_wall_now_ms server_ts_ms =
    let skew_ms = (local_wall_now_ms - server_ts_ms) + (server_ts_ms - local_wall_now_ms) in
    if ltb max_clock_skew_ms skew_ms then err (invalid_config "clock skewed") else ok tt

-- Nanoseconds; `slices` is not 0, as the command line checks.
unfoldable pub slice_deadline : ℕ → ℕ → ℕ → ℕ → ℕ
slice_deadline start duration slice_idx slices = start + min (duration * slice_idx / slices) u64_max

-- A test that a table of values passes, from the last entry down.
passes : (ℕ → Bool) → ℕ → Bool
passes test zero = true
passes test (suc last) = passes test last && test last

passes_at :
    (test : ℕ → Bool) (size entry : ℕ) → entry < size → passes test size ≡ true → test entry ≡ true
unfolding passes
passes_at test zero entry inside checked = absurd (omega arith)
passes_at test (suc last) entry inside checked = ground (arith, passes_at test last entry)

-- The backoff doubles from 500 ms up to a cap of 15 s.
abbrev pub capped_doubling : ℕ → ℕ
capped_doubling attempt = min (500 * 2 ^ attempt) 15000

delay_at : ℕ → Bool
delay_at a =
    if a == 62 || a == 63
    then order_status_retry_delay_settle a == 0
    else order_status_retry_delay_settle a == capped_doubling a

delay_table : passes delay_at 64 ≡ true
unfolding passes delay_at order_status_retry_delay_settle
delay_table = refl

large_shift : (a : ℕ) → 64 ≤ a → 15000 ≤ 500 * 2 ^ a
large_shift a h =
    let wide : 2 ^ 64 ≤ 2 ^ a = pow-le-pow_right (omega arith) h in omega (arith, wide)

large_delay : (a : ℕ) → 64 ≤ a → order_status_retry_delay_settle a ≡ 15000
unfolding order_status_retry_delay_settle
large_delay a h = ground arith

-- The delay is the capped doubling at every attempt but two: at attempts 62 and 63 all bits of the
-- base are shifted out, and the delay is 0.
pub order_status_retry_delay_settle_lem :
    (attempt : ℕ)
    → ((attempt ≢ 62)
        → (attempt ≢ 63)
        → order_status_retry_delay_settle attempt ≡ capped_doubling attempt)
      × ((attempt ≡ 62) ⊎ (attempt ≡ 63) → order_status_retry_delay_settle attempt ≡ 0)
unfolding delay_at
order_status_retry_delay_settle_lem attempt = elim (dec_lt attempt 64) [
  | yes small ↦ ground (arith, passes_at delay_at 64 attempt small delay_table)
  | no large ↦ (
    λ _ _. omega (arith, large_delay attempt (omega arith), large_shift attempt (omega arith)),
    λ e. absurd (omega arith),
  )
]

-- For at least one slice and a duration that fits the u64 of nanoseconds, the slice deadlines never
-- go back, and the last one is the end of the window.
pub slice_deadline_schedule :
    (start duration slices i j : ℕ)
    → 0 < slices
    → i ≤ j
    → duration ≤ u64_max
    → (slice_deadline start duration i slices ≤ slice_deadline start duration j slices)
      × (slice_deadline start duration slices slices ≡ start + duration)
unfolding slice_deadline
slice_deadline_schedule start duration slices i j h le fits =
    let later : duration * i / slices ≤ duration * j / slices =
      (le-div_iff_mul-le h).1
        (le_trans (div-mul-le_self (duration * i) slices) (mul-le-mul_left duration le)) in
    let all_of_it : duration * slices / slices ≡ duration = mul-div_cancel duration h in
    (omega (arith, later), omega (arith, all_of_it))

-- The remaining time is zero exactly when the deadline has passed, and sends are refused exactly then.
pub deadline_gate :
    (dl : ExecutionDeadline) (now : ℕ)
    → ((check_before_send dl now ≡ ok tt) ↔ (now < dl.monotonic))
      × ((remaining dl now ≡ 0) ↔ (has_passed dl now ≡ true))
unfolding check_before_send remaining
deadline_gate dl now = ground arith

pub check_clock_skew_lem :
    (wall server : ℕ)
    → (check_clock_skew wall server ≡ ok tt) ↔ ((wall ≤ server + 5000) × (server ≤ wall + 5000))
unfolding check_clock_skew
check_clock_skew_lem wall server = ground arith
