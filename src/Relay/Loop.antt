-- ===== src/Relay/Loop.antt =====
-- internal/bridge/relay.go: relayUpstream.
pub mod Account
pub mod Rounds
pub mod Settling
pub mod Answers
pub mod Failures
pub mod Refusals
use meow_cli.Common.{ℕ, zero, suc, ◌+◌, true, false, [], Option, none, some, Bool, if◌then◌else◌}
use meow_cli.Common.Text.{Text}
use meow_cli.Relay.Status.{RelayError}
use meow_cli.Relay.World.{World}
use meow_cli.Relay.Attempt.{
  UpstreamRelay, RetryTracker, Outcome, failed, Step, stop, again, attempt,
}

-- The limit relay_max_retries is not negative.
unfoldable pub max_attempts : ℕ → ℕ
max_attempts retries = suc retries

abbrev pub fresh : RetryTracker
fresh = record {
  last_err = RelayError.upstream_request_failed;
  has_last_err = false;
  grace_credential_id = [];
  grace_retried_credential_id = [];
}

module _ {S W : Type 0} (w : World S W) (cfg : UpstreamRelay) where
  -- The rounds that are left. The tracker's error is upstream_request_failed as long as none is
  -- remembered.
  unfoldable pub relay_loop : ℕ → Text → RetryTracker → S → S × Outcome
  relay_loop zero body t s = (s, failed t.last_err)
  relay_loop (suc n) body t s = elim (attempt w cfg body t s) [
    | stop s' o ↦ (s', o)
    | again s' t' ↦ relay_loop n body t' s'
  ]

  -- The body is `none` where the request has no JSON, or it cannot be written out.
  unfoldable pub relay_upstream : ℕ → Option Text → S → S × Outcome
  unfolding relay_loop max_attempts
  relay_upstream retries none s = (s, failed RelayError.read_request_body)
  relay_upstream retries (some body) s = relay_loop (max_attempts retries) body fresh s
