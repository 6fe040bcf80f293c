-- ===== src/Codex/Retry.antt =====
-- core/codex/scheduler.go: RetryDecision. A Codex response never asks for the same credential.
use meow_cli.Common.{ℕ, false, ◌==◌, ◌||◌, if◌then◌else◌}
use meow_cli.Utils.RetryAfter.{parse_retry_after_header}
use meow_cli.Relay.World.{Headers, RetryDecision}

unfoldable pub codex_retry_decision : ℕ → Headers → RetryDecision
unfolding parse_retry_after_header
codex_retry_decision status headers = record {
  delay = if status == 429 || status == 503 then parse_retry_after_header headers else 0;
  same_credential = false;
}
