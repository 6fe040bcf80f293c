-- ===== src/Relay/Status.antt =====
-- internal/bridge/errors.go: the errors that a client sees, and the classes of upstream status codes.
use meow_cli.Common.{ℕ, Bool, List, [], ◌∷◌, any, ◌==◌, if◌then◌else◌}

pub data RelayError : Type 0 where
  read_request_body no_available_credential upstream_auth_failed upstream_request_failed :
      RelayError
  upstream_request_invalid upstream_credential_fail upstream_rate_limited : RelayError
  upstream_unavailable relay_response_failed : RelayError

abbrev pub status_code : RelayError → ℕ
status_code RelayError.read_request_body = 400
status_code RelayError.no_available_credential = 503
status_code RelayError.upstream_auth_failed = 502
status_code RelayError.upstream_request_failed = 502
status_code RelayError.upstream_request_invalid = 400
status_code RelayError.upstream_credential_fail = 502
status_code RelayError.upstream_rate_limited = 429
status_code RelayError.upstream_unavailable = 502
status_code RelayError.relay_response_failed = 502

abbrev is_one_of : List ℕ → ℕ → Bool
is_one_of codes status = any (λ c. c == status) codes

abbrev request_fault_codes : List ℕ
request_fault_codes =
    400 ∷ 403 ∷ 404 ∷ 405 ∷ 406 ∷ 409 ∷ 410 ∷ 411 ∷ 412 ∷ 413 ∷ 414 ∷ 415 ∷ 416 ∷ 417 ∷ 422 ∷ 423
    ∷ 424 ∷ 426 ∷ 428 ∷ 431 ∷ 451 ∷ []

unfoldable pub relay_error_for_upstream_status : ℕ → RelayError
relay_error_for_upstream_status status =
    if is_one_of (401 ∷ 402 ∷ []) status
    then RelayError.upstream_credential_fail
    else if status == 429
    then RelayError.upstream_rate_limited
    else if is_one_of request_fault_codes status
    then RelayError.upstream_request_invalid
    else if is_one_of (408 ∷ 421 ∷ 425 ∷ 500 ∷ 502 ∷ 503 ∷ 504 ∷ []) status
    then RelayError.upstream_unavailable
    else RelayError.upstream_request_failed

unfoldable pub is_successful_upstream_status : ℕ → Bool
is_successful_upstream_status =
    is_one_of (200 ∷ 201 ∷ 202 ∷ 203 ∷ 204 ∷ 205 ∷ 206 ∷ 207 ∷ 208 ∷ 226 ∷ [])

unfoldable pub retryable_upstream_status : ℕ → Bool
retryable_upstream_status = is_one_of (408 ∷ 421 ∷ 425 ∷ 429 ∷ 500 ∷ 502 ∷ 503 ∷ 504 ∷ [])
