-- ===== src/Scheduling/Backoff.antt =====
-- core/scheduling/scheduling.go: calcBackoff and DecideFailureThrottle. A `time.Duration` is an int64
-- of nanoseconds: its bit pattern below 2 ^ 64, negative from 2 ^ 63 on.
pub mod Bounds
use meow_cli.Common.{
  ℕ, zero, suc, ◌-◌, ◌*◌, ◌/◌, ◌%◌, ◌^◌, Bool, true, false, ◌&&◌, ◌||◌, ltb, leb, ◌==◌, not,
  if◌then◌else◌,
}

abbrev pub Duration : Type 0
Duration = ℕ

-- d > 0.
abbrev pub is_positive : Duration → Bool
is_positive d = ltb 0 d && ltb d (2 ^ 63)

-- d >= e and d > e, for e that is not negative.
abbrev pub at_least : Duration → Duration → Bool
at_least d e = leb e d && ltb d (2 ^ 63)

abbrev pub exceeds : Duration → Duration → Bool
exceeds d e = ltb e d && ltb d (2 ^ 63)

-- d *= 2, with the wrap of an int64.
abbrev pub twice : Duration → Duration
twice d = d * 2 % 2 ^ 64

-- The loop of calcBackoff with `rounds` rounds to go, and the test behind it.
pub backoff_loop : ℕ → Duration → Duration → Duration
backoff_loop zero d most = if is_positive most && exceeds d most then most else d
backoff_loop (suc rounds) d most =
    let rest = backoff_loop rounds (twice d) most in
    if is_positive most && at_least d (most / 2) then most else rest

pub calc_backoff : ℕ → Duration → Duration → Duration
unfolding backoff_loop
calc_backoff consecutive base most =
    if not (is_positive base)
    then 0
    else if leb consecutive 1
    then base
    else backoff_loop (consecutive - 1) base most

abbrev pub consecutive_failure_throttle_threshold : ℕ
consecutive_failure_throttle_threshold = 3

pub data Reason : Type 0 where
  unset retry_after_header consecutive_failures : Reason

pub record FailureThrottleDecision : Type 0 where
  pub throttle : Bool
  pub backoff : Duration
  pub explicit_retry_after : Bool
  pub reason : Reason

abbrev pub too_many_requests : ℕ
too_many_requests = 429

abbrev pub service_unavailable : ℕ
service_unavailable = 503

-- Status codes and failure counts are not negative.
unfoldable pub decide_failure_throttle :
    ℕ → Duration → ℕ → Duration → Duration → FailureThrottleDecision
decide_failure_throttle status retry_after consecutive base most =
    if (status == too_many_requests || status == service_unavailable) && is_positive retry_after
    then record {
      throttle = true;
      backoff = retry_after;
      explicit_retry_after = true;
      reason = retry_after_header;
    }
    else if ltb consecutive consecutive_failure_throttle_threshold
    then record { throttle = false; backoff = 0; explicit_retry_after = false; reason = unset }
    else record {
      throttle = true;
      backoff = calc_backoff (suc (consecutive - consecutive_failure_throttle_threshold)) base most;
      explicit_retry_after = false;
      reason = consecutive_failures;
    }
