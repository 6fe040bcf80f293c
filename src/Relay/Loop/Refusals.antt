-- ===== src/Relay/Loop/Refusals.antt =====
-- Which responses of the upstream end the relay with an error.
use meow_cli.Common.{
  ℕ, ◌≡◌, ◌∙◌, inl, inr, refl, ap, Bool, true, false, ◌||◌, Option, none, some, arith, Bool-cases,
  if◌then◌else◌,
}
use meow_cli.Common.Text.{Text}
use meow_cli.Logs.Rows.{LogRequestMetrics}
use meow_cli.Relay.Status.{RelayError, relay_error_for_upstream_status, retryable_upstream_status}
use meow_cli.Relay.World.{World, Response, RetryDecision}
use meow_cli.Relay.Attempt.{
  UpstreamRelay, RetryTracker, failed, relayed, broken_off, cancelled, Step, stop, again,
  log_metrics, remember, next_credential, grace_retry, handle_retry_hint_decision,
  handle_error_status, handle_upstream_error,
}

-- The errors that say that the upstream may answer later.
abbrev pub is_temporary : RelayError → Bool
is_temporary e = elim e [
  | RelayError.upstream_rate_limited ↦ true
  | RelayError.upstream_unavailable ↦ true
  | _ ↦ false
]

-- The error that the relay ends with, if a round does so.
unfoldable pub refusal {ℓ} : {S : Type ℓ} → Step S → Option RelayError
refusal (stop s (failed e)) = some e
refusal (stop s relayed) = none
refusal (stop s broken_off) = none
refusal (stop s cancelled) = none
refusal (again s t) = none

refusal-if {ℓ} :
    {S : Type ℓ} (c : Bool) (x y : Step S) (o : Option RelayError)
    → refusal x ≡ o
    → refusal y ≡ o
    → refusal (if c then x else y) ≡ o
refusal-if true x y o h k = h
refusal-if false x y o h k = k

retryable_upstream_status_lem :
    (status : ℕ)
    → retryable_upstream_status status ≡ is_temporary (relay_error_for_upstream_status status)
unfolding retryable_upstream_status relay_error_for_upstream_status
retryable_upstream_status_lem status = ground arith

module _ {S W : Type 0} (w : World S W) (cfg : UpstreamRelay) where
  handle_retry_hint_decision-goes_on :
      (id : Text) (status : ℕ) (decision : RetryDecision) (metrics : LogRequestMetrics W)
      (t : RetryTracker) (refresh : Bool) (s : S)
      → refusal (handle_retry_hint_decision w cfg id status decision metrics t refresh s) ≡ none
  unfolding refusal handle_retry_hint_decision next_credential grace_retry
  handle_retry_hint_decision-goes_on id status decision metrics t refresh s = ground arith

  refusal-handle_error_status :
      (id : Text) (resp : Response) (metrics : LogRequestMetrics W) (t : RetryTracker) (s : S)
      → refusal (handle_error_status w cfg id resp metrics t s)
        ≡ (if retryable_upstream_status resp.status then none else some t.last_err)
  unfolding handle_error_status
  refusal-handle_error_status id resp metrics t s =
      let decision = w.retry_decision resp.status metrics.error resp.headers in
      let moved_on : refusal (next_credential w cfg false id resp.status 0 metrics t s) ≡ none =
        unfold refusal next_credential in refl in
      elim (Bool-cases (retryable_upstream_status resp.status)) [
        | inr e ↦ rw e (unfold refusal in refl)
        | inl e ↦ rw e (
            refusal-if _ _ _ none
              (handle_retry_hint_decision-goes_on id resp.status decision metrics t true s)
              (refusal-if _ _ _ none
                (handle_retry_hint_decision-goes_on id resp.status decision metrics t false s)
                moved_on))
      ]

  -- A response with an error status ends the relay with the error of that status if
  -- HandleUnauthorized has not taken it over and the error is neither that the upstream is rate
  -- limited nor that it is unavailable; in every other case the round ends the relay with no error.
  pub refusal-handle_upstream_error :
      (id : Text) (resp : Response) (t : RetryTracker) (s : S)
      → let (s1, (error, first_byte, duration)) = w.read_upstream_error resp s in
        let metrics = log_metrics w cfg first_byte duration error in
        let taken_over = (w.handle_unauthorized id resp.status cfg.model_tier metrics s1).1 in
        let e = relay_error_for_upstream_status resp.status in
        refusal (handle_upstream_error w cfg id resp t s)
        ≡ (if taken_over || is_temporary e then none else some e)
  unfolding handle_upstream_error
  refusal-handle_upstream_error id resp t s =
      let (s1, (error, first_byte, duration)) = w.read_upstream_error resp s in
      let metrics = log_metrics w cfg first_byte duration error in
      let (s2, taken_over) = w.handle_unauthorized id resp.status cfg.model_tier metrics s1 in
      let e = relay_error_for_upstream_status resp.status in
      elim (Bool-cases taken_over) [
        | inl h ↦ rw h (unfold refusal in refl)
        | inr h ↦ rw h (
            refusal-handle_error_status id resp metrics (remember e t) s2
            ∙ ap (λ b. if b then none else some e) (retryable_upstream_status_lem resp.status))
      ]
