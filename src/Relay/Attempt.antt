-- ===== src/Relay/Attempt.antt =====
-- internal/bridge/relay.go: one round of the retry loop. Logging is left out.
use meow_cli.Common.{
  ℕ, ◌≡◌, ◌⊎◌, inl, inr, refl, Bool, true, false, List, [], ◌∷◌, Option, none, some, ◌==◌, ◌&&◌,
  ◌||◌, not, if◌then◌else◌,
}
use meow_cli.Common.Text.{Text, text_eq, bytes}
use meow_cli.Common.Table.{insert, delete}
use meow_cli.Scheduling.Backoff.{Duration, is_positive}
use meow_cli.Logs.Rows.{LogRequestMetrics}
use meow_cli.Relay.Status.{
  RelayError, relay_error_for_upstream_status, is_successful_upstream_status,
  retryable_upstream_status,
}
use meow_cli.Relay.World.{World, Headers, Response, RetryDecision, ComputeOp, Written}

pub record UpstreamRelay : Type 0 where
  pub request_headers : Headers
  pub allowed_plans : List Text
  pub stream_request : Bool
  pub model_alias : Text
  pub model_tier : Text
  pub api_type : Text
  pub session_key : Text
  pub content_affinity : Bool
  pub fill_first : Bool

pub record RetryTracker : Type 0 where
  pub last_err : RelayError
  pub has_last_err : Bool
  pub grace_credential_id : Text
  pub grace_retried_credential_id : Text

abbrev pub remember : RelayError → RetryTracker → RetryTracker
remember err t = record t { last_err = err; has_last_err = true }

abbrev pub clear_grace : RetryTracker → RetryTracker
clear_grace t = record t { grace_credential_id = []; grace_retried_credential_id = [] }

-- How a request ended: with an error that is written, with the upstream's response, with a response
-- that broke off after its first bytes, or without an answer since the context was done.
pub data Outcome : Type 0 where
  failed : RelayError → Outcome
  relayed broken_off cancelled : Outcome

pub data Step {ℓ} (S : Type ℓ) : Type ℓ where
  stop : S → Outcome → Step S
  again : S → RetryTracker → Step S

pub Step-cases {ℓ} :
    {S : Type ℓ} (step : Step S)
    → ((s : S) × ((o : Outcome) × (step ≡ stop s o)))
      ⊎ ((s : S) × ((t : RetryTracker) × (step ≡ again s t)))
Step-cases (stop s o) = inl (s, (o, refl))
Step-cases (again s t) = inr (s, (t, refl))

unfoldable pub upstream_headers : UpstreamRelay → Headers → Headers
upstream_headers cfg [] =
    delete (bytes "X-Api-Key")
      (delete (bytes "X-Goog-Api-Key") (delete (bytes "Accept") cfg.request_headers))
upstream_headers cfg ((k, vs) ∷ auth) = insert k vs (upstream_headers cfg auth)

module _ {S W : Type 0} (w : World S W) (cfg : UpstreamRelay) where
  unfoldable pub log_metrics : W → W → Text → LogRequestMetrics W
  log_metrics first_byte duration error = record {
    model = cfg.model_alias;
    api_type = cfg.api_type;
    stream = cfg.stream_request;
    first_byte = first_byte;
    duration = duration;
    error = error;
  }

  unfoldable pub delete_if : Text → Text → S → S
  delete_if key id =
      w.fill_first_compute_if_present key
        (λ current. if text_eq current id then ComputeOp.invalidate else ComputeOp.cancel)

  abbrev pub text_or_empty : Option Text → Text
  text_or_empty none = []
  text_or_empty (some t) = t

  unfoldable pub session_credential : S → S × Text
  session_credential s =
      if text_eq cfg.session_key []
      then (s, [])
      else let (s', found) = w.session_get cfg.session_key s in (s', text_or_empty found)

  unfoldable pub bind_session_credential : Text → S → S
  bind_session_credential id s =
      if text_eq cfg.session_key [] || text_eq id [] then s else w.session_set cfg.session_key id s

  unfoldable pub preferred_credential : RetryTracker → S → S × Text
  unfolding session_credential
  preferred_credential t s =
      if not (text_eq t.grace_credential_id [])
      then (s, t.grace_credential_id)
      else session_credential s

  unfoldable pub select : Text → S → S × Option Text
  select preferred = w.select_credential preferred cfg.allowed_plans cfg.model_tier

  -- The last choice, behind the preferences.
  unfoldable pub select_any : S → S × Option Text
  unfolding select
  select_any = select []

  -- A preference that was found: take its credential, or undo it and go on.
  unfoldable pub prefer : Text → (S → S) → (S → S × Option Text) → S → S × Option Text
  prefer id undo next s =
      let (s', chosen) = select id s in
      elim chosen [ some credential ↦ (s', some credential) | none ↦ next (undo s') ]

  unfoldable pub select_by_content : RetryTracker → Text → S → S × Option Text
  unfolding prefer select_any
  select_by_content t preferred s =
      let (s', matched) = w.content_match s in
      if cfg.content_affinity && not t.has_last_err
      then elim (not (text_eq matched []) && not (text_eq matched preferred)) [
        | true ↦ prefer matched (λ z. z) select_any s'
        | false ↦ select_any s'
      ]
      else select_any s

  unfoldable pub select_by_fill_first : RetryTracker → Text → S → S × Option Text
  unfolding prefer select_by_content delete_if
  select_by_fill_first t preferred s =
      let (s', found) = w.fill_first_get cfg.model_alias s in
      let id = text_or_empty found in
      if cfg.fill_first && not t.has_last_err
      then elim (not (text_eq id []) && not (text_eq id preferred)) [
        | true ↦ prefer id (delete_if cfg.model_alias id) (select_by_content t preferred) s'
        | false ↦ select_by_content t preferred s'
      ]
      else select_by_content t preferred s

  unfoldable pub select_relay_credential : RetryTracker → S → S × Option Text
  unfolding preferred_credential prefer select_by_fill_first
  select_relay_credential t s =
      let (s', preferred) = preferred_credential t s in
      elim (text_eq preferred []) [
        | true ↦ select_by_fill_first t preferred s'
        | false ↦ prefer preferred (λ z. z) (select_by_fill_first t preferred) s'
      ]

  -- A failure of the relay itself, before a response: RecordFailure with status 0, and the next round.
  unfoldable pub fail_early : RelayError → W → Text → RetryTracker → S → Step S
  unfolding delete_if log_metrics
  fail_early err duration id t s =
      if w.ctx_err s
      then stop s cancelled
      else again
          (delete_if cfg.model_alias id
            (w.record_failure id 0 cfg.model_tier 0 (log_metrics w.no_time duration []) s))
          (remember err t)

  unfoldable pub handle_auth_failure : Text → RetryTracker → S → Step S
  unfolding fail_early
  handle_auth_failure id = fail_early RelayError.upstream_auth_failed w.no_time id

  unfoldable pub handle_send_failure : Text → RetryTracker → S → Step S
  unfolding fail_early
  handle_send_failure id t s = fail_early RelayError.upstream_request_failed (w.elapsed s) id t s

  unfoldable pub handle_written : Text → Response → Written W → S → Step S
  unfolding log_metrics delete_if bind_session_credential
  handle_written id resp written s =
      let metrics = log_metrics written.first_byte written.duration [] in
      if not written.failed
      then stop
          (w.record_success id resp.status cfg.model_tier metrics
            (w.content_bind id (bind_session_credential id s)))
          relayed
      else if w.ctx_err s
      then stop (w.record_success id resp.status cfg.model_tier metrics s) cancelled
      else stop (w.record_failure id 0 cfg.model_tier 0 metrics (delete_if cfg.model_alias id s))
          (if written.any_written then broken_off else failed RelayError.relay_response_failed)

  unfoldable pub handle_successful_response : Text → Response → S → Step S
  unfolding handle_written
  handle_successful_response id resp s =
      let filled = if cfg.fill_first then w.fill_first_set_if_absent cfg.model_alias id s else s in
      let (s', written) = w.write_upstream_response resp filled in handle_written id resp written s'

  unfoldable pub wait_for_retry : Duration → S → S × Bool
  wait_for_retry delay s = if is_positive delay then w.wait delay s else (s, true)

  -- The end of a round whose failure is recorded and that moves on to another credential.
  unfoldable pub next_credential :
      Bool → Text → ℕ → Duration → LogRequestMetrics W → RetryTracker → S → Step S
  next_credential refresh_quota id status delay metrics t s =
      again
        (w.record_failure id status cfg.model_tier delay metrics
          (if refresh_quota then w.queue_quota_refresh id cfg.model_tier s else s))
        (clear_grace t)

  unfoldable pub grace_retry : Text → ℕ → Duration → LogRequestMetrics W → RetryTracker → S → Step S
  unfolding wait_for_retry
  grace_retry id status delay metrics t s =
      let (s', waited) =
        wait_for_retry delay (w.record_failure id status cfg.model_tier 0 metrics s) in
      if waited
      then again s' (record t { grace_credential_id = id; grace_retried_credential_id = id })
      else stop s' cancelled

  unfoldable pub handle_retry_hint_decision :
      Text → ℕ → RetryDecision → LogRequestMetrics W → RetryTracker → Bool → S → Step S
  unfolding next_credential grace_retry
  handle_retry_hint_decision id status decision metrics t refresh_quota s =
      if not decision.same_credential || text_eq t.grace_retried_credential_id id
      then next_credential refresh_quota id status decision.delay metrics t s
      else grace_retry id status decision.delay metrics t s

  -- handleUpstreamError behind HandleUnauthorized, which has not taken the response over.
  unfoldable pub handle_error_status :
      Text → Response → LogRequestMetrics W → RetryTracker → S → Step S
  unfolding handle_retry_hint_decision next_credential
  handle_error_status id resp metrics t s =
      let decision = w.retry_decision resp.status metrics.error resp.headers in
      if not (retryable_upstream_status resp.status)
      then stop (w.record_failure id resp.status cfg.model_tier 0 metrics s) (failed t.last_err)
      else if resp.status == 429
      then handle_retry_hint_decision id resp.status decision metrics t true s
      else if is_positive decision.delay
      then handle_retry_hint_decision id resp.status decision metrics t false s
      else next_credential false id resp.status 0 metrics t s

  unfoldable pub handle_upstream_error : Text → Response → RetryTracker → S → Step S
  unfolding handle_error_status log_metrics
  handle_upstream_error id resp t s =
      let (s1, (error, first_byte, duration)) = w.read_upstream_error resp s in
      let metrics = log_metrics first_byte duration error in
      let t' = remember (relay_error_for_upstream_status resp.status) t in
      let (s2, taken_over) = w.handle_unauthorized id resp.status cfg.model_tier metrics s1 in
      if taken_over then again s2 (clear_grace t') else handle_error_status id resp metrics t' s2

  -- Behind an error of the upstream the credential is no longer the one to fill first, unless it is
  -- tried again.
  unfoldable pub forget_fill_first : Text → Step S → Step S
  unfolding delete_if
  forget_fill_first id (stop s o) = stop s o
  forget_fill_first id (again s t) =
      again (if text_eq t.grace_credential_id [] then delete_if cfg.model_alias id s else s) t

  unfoldable pub handle_response : Text → RetryTracker → Response → S → Step S
  unfolding handle_successful_response handle_upstream_error forget_fill_first
  handle_response id t resp s =
      if is_successful_upstream_status resp.status
      then handle_successful_response id resp s
      else forget_fill_first id (handle_upstream_error id resp t s)

  unfoldable pub send_request : Text → Text → RetryTracker → Headers → S → Step S
  unfolding handle_response handle_send_failure upstream_headers
  send_request body id t auth s =
      let (s', answer) = w.send id (upstream_headers cfg auth) body s in
      elim answer [ none ↦ handle_send_failure id t s' | some resp ↦ handle_response id t resp s' ]

  unfoldable pub use_credential : Text → RetryTracker → Text → S → Step S
  unfolding send_request handle_auth_failure
  use_credential body t id s =
      let (s', headers) = w.auth_headers id s in
      elim headers [
        | none ↦ handle_auth_failure id t s'
        | some auth ↦ send_request body id t auth s'
      ]

  unfoldable pub attempt : Text → RetryTracker → S → Step S
  unfolding use_credential select_relay_credential
  attempt body t s =
      let (s', chosen) = select_relay_credential t s in
      elim chosen [
        | none ↦
            stop s'
              (failed (if t.has_last_err then t.last_err else RelayError.no_available_credential))
        | some id ↦ use_credential body t id s'
      ]
