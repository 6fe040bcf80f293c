-- ===== src/Examples/Relay.antt =====
-- internal/bridge/relay.go: its theorems at concrete inputs.
use meow_cli.Common.{
  ℕ, suc, ◌+◌, ◌≤◌, ◌≡◌, refl, true, false, inl, arith, ◌||◌, if◌then◌else◌, List, [], ◌∷◌, Option,
  none, some,
}
use meow_cli.Common.Text.{Text, text_eq, bytes}
use meow_cli.Relay.Status.{
  RelayError, is_successful_upstream_status, retryable_upstream_status,
  relay_error_for_upstream_status,
}
use meow_cli.Relay.World.{World, Response, Written}
use meow_cli.Relay.Attempt.{
  attempt, UpstreamRelay, Outcome, failed, RetryTracker, again, select_relay_credential,
  handle_upstream_error,
}
use meow_cli.Relay.Loop.{relay_upstream, max_attempts, fresh}
use meow_cli.Relay.Loop.Failures.{cause, rounds_behind, relay_upstream-answers_failure}
use meow_cli.Relay.Loop.Refusals.{is_temporary, refusal, refusal-handle_upstream_error}
use meow_cli.Relay.Loop.Account.{IsMeter}
use meow_cli.Relay.Loop.Rounds.{excused}
use meow_cli.Relay.Loop.Settling.{relay_upstream-IsSettled}
use meow_cli.Relay.Loop.Answers.{relay_upstream-sent_nothing}

-- A backend that answers with a list of status codes.
record Backend : Type 0 where
  sends : ℕ
  records : ℕ
  answers : List ℕ

abbrev next_answer : List ℕ → Backend → Backend × Option Response
next_answer [] b = (record b { sends = suc b.sends }, none)
next_answer (x ∷ xs) b =
    (record b { sends = suc b.sends; answers = xs }, some (record { status = x; headers = [] }))

abbrev note : Backend → Backend
note b = record b { records = suc b.records }

abbrev written : Written ℕ
written = record { failed = false; any_written = true; first_byte = 1; duration = 2 }

-- A pool that always selects the same credential, or none.
abbrev backend : Option Text → World Backend ℕ
backend chosen = record {
  select_credential = λ p plans tier b. (b, chosen);
  auth_headers = λ id b. (b, some []);
  record_success = λ id status tier metrics b. note b;
  record_failure = λ id status tier delay metrics b. note b;
  handle_unauthorized = λ id status tier metrics b. (b, false);
  queue_quota_refresh = λ id tier b. b;
  retry_decision = λ status error headers. record { delay = 0; same_credential = true };
  ctx_err = λ b. false;
  send = λ id headers body b. next_answer b.answers b;
  read_upstream_error = λ resp b. (b, ([], 0, 0));
  write_upstream_response = λ resp b. (b, written);
  elapsed = λ b. 0;
  no_time = 0;
  wait = λ delay b. (b, true);
  session_get = λ key b. (b, none);
  session_set = λ key id b. b;
  fill_first_get = λ key b. (b, none);
  fill_first_set_if_absent = λ key id b. b;
  fill_first_compute_if_present = λ key f b. b;
  content_match = λ b. (b, []);
  content_bind = λ id b. b;
}

next_answer-counts :
    (xs : List ℕ) (b : Backend)
    → ((next_answer xs b).0.sends ≡ suc b.sends) × ((next_answer xs b).0.records ≡ b.records)
next_answer-counts [] b = (refl, refl)
next_answer-counts (x ∷ xs) b = (refl, refl)

backend-IsMeter : (chosen : Option Text) → IsMeter (backend chosen) (λ b. b.sends) (λ b. b.records)
backend-IsMeter chosen = record {
  of_select = λ p a t s. (refl, refl);
  of_auth_headers = λ id s. (refl, refl);
  of_success = λ id status t m s. (refl, refl);
  of_failure = λ id status t d m s. (refl, refl);
  of_unauthorized = λ id status t m s. (refl, refl);
  of_refresh = λ id t s. (refl, refl);
  of_send = λ id h body s. next_answer-counts s.answers s;
  of_read = λ r s. (refl, refl);
  of_write = λ r s. (refl, refl);
  of_wait = λ d s. (refl, refl);
  of_session_get = λ k s. (refl, refl);
  of_session_set = λ k v s. (refl, refl);
  of_fill_get = λ k s. (refl, refl);
  of_fill_set = λ k v s. (refl, refl);
  of_fill_compute = λ k f s. (refl, refl);
  of_match = λ s. (refl, refl);
  of_bind = λ id s. (refl, refl);
}

abbrev request : UpstreamRelay
request = record {
  request_headers = [];
  allowed_plans = [];
  stream_request = false;
  model_alias = bytes "gpt";
  model_tier = [];
  api_type = bytes "responses";
  session_key = [];
  content_affinity = false;
  fill_first = false;
}

abbrev start : List ℕ → Backend
start answers = record { sends = 0; records = 0; answers = answers }

abbrev busy_twice : Backend × Outcome
busy_twice =
    relay_upstream (backend (some (bytes "a"))) request 3 (some (bytes "{}"))
      (start (429 ∷ 429 ∷ 200 ∷ []))

abbrev no_credentials : Backend × Outcome
no_credentials = relay_upstream (backend none) request 3 (some (bytes "{}")) (start [])

relay_upstream-IsSettled_example :
    (busy_twice.0.sends ≤ 0 + max_attempts 3)
    × (busy_twice.0.sends + 0 ≤ (busy_twice.0.records + 0) + excused busy_twice.1)
relay_upstream-IsSettled_example =
    relay_upstream-IsSettled (backend (some (bytes "a"))) (λ b. b.sends) (λ b. b.records) request
      (backend-IsMeter (some (bytes "a"))) 3 (some (bytes "{}")) (start (429 ∷ 429 ∷ 200 ∷ []))

relay_upstream-sent_nothing_example : (no_credentials.0.sends ≡ 0) × (no_credentials.0.records ≡ 0)
unfolding relay_upstream attempt text_eq
relay_upstream-sent_nothing_example =
    relay_upstream-sent_nothing (backend none) request (λ b. b.sends) (λ b. b.records)
      (backend-IsMeter none) 3 (some (bytes "{}")) (start []) refl

abbrev one_busy : World Backend ℕ
one_busy = backend (some (bytes "a"))

abbrev busy_tracker : RetryTracker
busy_tracker = record {
  last_err = RelayError.upstream_unavailable;
  has_last_err = true;
  grace_credential_id = [];
  grace_retried_credential_id = [];
}

goes_on :
    attempt one_busy request (bytes "{}") fresh (start (503 ∷ []))
    ≡ again (record { sends = 1; records = 1; answers = [] }) busy_tracker
unfolding attempt text_eq is_successful_upstream_status retryable_upstream_status
    relay_error_for_upstream_status
goes_on = refl

chosen_a :
    select_relay_credential one_busy request fresh (start (503 ∷ []))
    ≡ (start (503 ∷ []), some (bytes "a"))
unfolding select_relay_credential text_eq
chosen_a = refl

relay_upstream-answers_failure_example :
    (relay_upstream one_busy request 0 (some (bytes "{}")) (start (503 ∷ []))).1
    ≡ failed (cause one_busy request (bytes "{}") (bytes "a") (start (503 ∷ [])))
unfolding rounds_behind
relay_upstream-answers_failure_example =
    relay_upstream-answers_failure one_busy request 0 0 (bytes "{}") (start (503 ∷ []))
      (start (503 ∷ [])) (start (503 ∷ [])) (record { sends = 1; records = 1; answers = [] }) fresh
      busy_tracker (bytes "a") (omega arith) refl chosen_a goes_on (inl refl)

refusal-handle_upstream_error_example :
    refusal (
      handle_upstream_error one_busy request
        (bytes "a")
        (record { status = 404; headers = [] })
        fresh
        (start []))
    ≡ (if false || is_temporary (relay_error_for_upstream_status 404)
        then none
        else some (relay_error_for_upstream_status 404))
refusal-handle_upstream_error_example =
    refusal-handle_upstream_error one_busy request (bytes "a")
      (record { status = 404; headers = [] }) fresh (start [])
