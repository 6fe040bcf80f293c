-- ===== src/Relay/World.antt =====
-- internal/bridge: what the relay loop calls. A value of S is the state of everything outside the loop:
-- the scheduler, the upstream, the client's connection, the clock and the caches of otter.
use meow_cli.Common.{ℕ, Bool, List, Option}
use meow_cli.Common.Text.{Text}
use meow_cli.Common.Table.{Table}
use meow_cli.Scheduling.Backoff.{Duration}
use meow_cli.Logs.Rows.{LogRequestMetrics}

-- The keys of an http.Header are in canonical form.
abbrev pub Headers : Type 0
Headers = Table (List Text)

pub record Response : Type 0 where
  pub status : ℕ
  pub headers : Headers

pub record RetryDecision : Type 0 where
  pub delay : Duration
  pub same_credential : Bool

-- The answer of ComputeIfPresent's function.
pub data ComputeOp : Type 0 where
  invalidate cancel : ComputeOp

-- How writing the response to the client ended: whether it failed, whether anything was written, and
-- the two times in seconds.
pub record Written (W : Type 0) : Type 0 where
  pub failed : Bool
  pub any_written : Bool
  pub first_byte : W
  pub duration : W

pub record World (S W : Type 0) : Type 0 where
  -- The interface CredentialScheduler. SelectCredential takes the preferred credential, the allowed
  -- plan types and the tier.
  pub select_credential : Text → List Text → Text → S → S × Option Text
  pub auth_headers : Text → S → S × Option Headers
  pub record_success : Text → ℕ → Text → LogRequestMetrics W → S → S
  pub record_failure : Text → ℕ → Text → Duration → LogRequestMetrics W → S → S
  pub handle_unauthorized : Text → ℕ → Text → LogRequestMetrics W → S → S × Bool
  pub queue_quota_refresh : Text → Text → S → S
  pub retry_decision : ℕ → Text → Headers → RetryDecision
  -- The context is done.
  pub ctx_err : S → Bool
  -- The backend, with the preparation of its options.
  pub send : Text → Headers → Text → S → S × Option Response
  pub read_upstream_error : Response → S → S × (Text × W × W)
  pub write_upstream_response : Response → S → S × Written W
  -- The seconds since the request was sent, and none.
  pub elapsed : S → W
  pub no_time : W
  -- Waiting for a time; false where the context was done first.
  pub wait : Duration → S → S × Bool
  -- The two caches of otter, and the affinity of the request's content, for its model and hash.
  pub session_get : Text → S → S × Option Text
  pub session_set : Text → Text → S → S
  pub fill_first_get : Text → S → S × Option Text
  pub fill_first_set_if_absent : Text → Text → S → S
  pub fill_first_compute_if_present : Text → (Text → ComputeOp) → S → S
  pub content_match : S → S × Text
  pub content_bind : Text → S → S
