-- ===== src/Codex/Throttle.antt =====
-- core/codex/scheduler.go: the table of throttle states. The goroutine that rememberThrottleUntil
-- starts, which refreshes the snapshot behind the deadline, is left out.
pub mod Streak
pub mod Counted
use meow_cli.Common.{
  ℕ, suc, ◌+◌, ◌-◌, ◌^◌, Bool, true, false, List, [], ◌∷◌, ◌++◌, Option, none, some, ltb, leb, any,
  ◌==◌, ◌&&◌, ◌||◌, not, if◌then◌else◌,
}
use meow_cli.Common.Text.{Text, text_eq, has_prefix}
use meow_cli.Common.Table.{Table, lookup, insert, delete, discard}
use meow_cli.Float.{Float}
use meow_cli.Scheduling.Times.{Time}
use meow_cli.Scheduling.Backoff.{Duration, FailureThrottleDecision, decide_failure_throttle}
use meow_cli.Logs.Rows.{LogRequestMetrics, new_insert_log_params}
use meow_cli.Logs.Store.{Store, insert_log}
use meow_cli.Codex.Tiers.{throttle_tier_for_model, throttle_state_key}
use meow_cli.Codex.Rows.{AvailableRow, AvailableSnapshot}
use meow_cli.Codex.Pool.{throttle_credential_tier}
use meow_cli.Codex.Weights.{Config, handler_codex, refresh_credential_weight}

pub record ThrottleState : Type 0 where
  pub consecutive : ℕ
  pub last_fail : Time
  pub until : Time

abbrev pub no_failures : ThrottleState
no_failures = record { consecutive = 0; last_fail = 0; until = 0 }

-- now.Add(d); a negative duration moves the instant back, to the zero time at most.
abbrev pub after : Time → Duration → Time
after now d = if ltb d (2 ^ 63) then now + d else now - (2 ^ 64 - d)

abbrev pub state_or_new : Option ThrottleState → ThrottleState
state_or_new none = no_failures
state_or_new (some state) = state

-- The deadline is set and has passed.
abbrev pub is_over : Time → ThrottleState → Bool
is_over now state = not (state.until == 0) && leb state.until now

abbrev pub set_until : Time → ThrottleState → ThrottleState
set_until until state = record state { until = until }

-- What RecordFailure does to the state of its key.
abbrev pub failed : Time → ThrottleState → ThrottleState
failed now state = record state {
  consecutive = suc (if is_over now state then 0 else state.consecutive);
  last_fail = now;
}

unfoldable pub active_throttle_until : Table ThrottleState → Text → Text → Time → Time
active_throttle_until states id tier now = elim (lookup (throttle_state_key id tier) states) [
  | none ↦ 0
  | some state ↦ if state.until == 0 || leb state.until now then 0 else state.until
]

unfoldable pub clear_expired_throttles : Time → Table ThrottleState → Table ThrottleState
clear_expired_throttles now = discard λ key state. is_over now state

unfoldable pub has_expired_throttle_window : Time → Table ThrottleState → Bool
has_expired_throttle_window now = any λ entry. is_over now entry.1

unfoldable pub delete_credential_throttle_states : Table ThrottleState → Text → Table ThrottleState
delete_credential_throttle_states states id =
    discard (λ key state. has_prefix (id ++ (0 ∷ [])) key) states

-- The part of the scheduler that the records of responses change.
pub record Scheduler (W : Type 0) : Type 0 where
  pub throttle : Table ThrottleState
  pub available : Option (AvailableSnapshot W)
  pub logs : Store W

-- What happens around a record: the clock, read once, the context, and the settings.
pub record Setting (W : Type 0) : Type 0 where
  pub sort : List (AvailableRow W) → List (AvailableRow W)
  pub json_valid : Text → Bool
  pub ctx_done : Bool
  pub now : Time
  pub config : Config

module _ {W : Type 0} ⦃f : Float W⦄ where
  unfoldable pub remember_throttle_until : Text → Text → Time → Scheduler W → Scheduler W
  remember_throttle_until id tier until s =
      let key = throttle_state_key id tier in
      record s {
        throttle = insert key (set_until until (state_or_new (lookup key s.throttle))) s.throttle;
        available = throttle_credential_tier id (throttle_tier_for_model tier) until s.available;
      }

  -- recordResponse, and refreshCredentialWeight where that succeeded.
  unfoldable pub log_response :
      Setting W → Text → ℕ → Text → LogRequestMetrics W → Scheduler W → Scheduler W
  log_response e id status tier metrics s =
      let (logs, ok) =
        insert_log e.json_valid e.ctx_done e.config.limits e.now
          (new_insert_log_params handler_codex id status tier metrics) s.logs in
      let (available, logs') =
        refresh_credential_weight e.sort e.ctx_done e.now e.config id tier s.available logs in
      if ok then record s { available = available; logs = logs' } else record s { logs = logs }

  unfoldable pub record_success :
      Setting W → Text → ℕ → Text → LogRequestMetrics W → Scheduler W → Scheduler W
  record_success e id status tier metrics s =
      log_response e id status tier metrics
        (record s { throttle = delete (throttle_state_key id tier) s.throttle })

  abbrev pub failures_of : Setting W → Text → Text → Scheduler W → ThrottleState
  failures_of e id tier s =
      failed e.now (state_or_new (lookup (throttle_state_key id tier) s.throttle))

  abbrev pub decision_on :
      Setting W → Text → ℕ → Text → Duration → Scheduler W → FailureThrottleDecision
  decision_on e id status tier retry_after s =
      decide_failure_throttle status retry_after (failures_of e id tier s).consecutive
        e.config.throttle_base e.config.throttle_max

  -- The part behind the log. The second result is the call of SetQuotaThrottled, if there is one.
  unfoldable pub throttle_failure :
      Setting W → Text → ℕ → Text → Duration → Scheduler W → Scheduler W × Option (Text × Time)
  throttle_failure e id status tier retry_after s =
      let counted = record s {
        throttle = insert (throttle_state_key id tier) (failures_of e id tier s) s.throttle;
      } in
      let decision = decision_on e id status tier retry_after s in
      if decision.throttle
      then (
        remember_throttle_until id (throttle_tier_for_model tier) (after e.now decision.backoff)
            counted,
        some (throttle_tier_for_model tier, after e.now decision.backoff),
      )
      else (counted, none)

  unfoldable pub record_failure :
      Setting W
      → Text
      → ℕ
      → Text
      → Duration
      → LogRequestMetrics W
      → Scheduler W
      → Scheduler W × Option (Text × Time)
  record_failure e id status tier retry_after metrics s =
      throttle_failure e id status tier retry_after (log_response e id status tier metrics s)
