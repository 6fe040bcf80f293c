-- ===== src/Relay/Loop/Settling.antt =====
-- A whole round of the relay loop sends one request at most, and settles it with the scheduler.
use meow_cli.Common.{
  ℕ, zero, suc, ◌+◌, ◌≤◌, ◌≡◌, inl, inr, Bool, true, false, Option, none, some, arith, Bool-cases,
  Option-cases, if◌then◌else◌,
}
use meow_cli.Common.Text.{Text}
use meow_cli.Logs.Rows.{LogRequestMetrics}
use meow_cli.Relay.Status.{RelayError, relay_error_for_upstream_status}
use meow_cli.Relay.World.{World, Headers, Response, RetryDecision}
use meow_cli.Relay.Attempt.{
  UpstreamRelay, RetryTracker, failed, Step, stop, again, Step-cases, select_relay_credential,
  handle_auth_failure, upstream_headers, log_metrics, remember, handle_send_failure,
  handle_retry_hint_decision, handle_error_status, handle_upstream_error, forget_fill_first,
  handle_response, send_request, use_credential, attempt,
}
use meow_cli.Relay.Loop.{relay_loop, relay_upstream, max_attempts, fresh}
use meow_cli.Relay.Loop.Account.{IsMeter, Same-delete_if, Same-select_relay_credential}
use meow_cli.Relay.Loop.Rounds.{
  Owing, Settled, excused, Settled-fail_early, Settled-handle_successful_response,
  Settled-next_credential, Settled-grace_retry,
}

module _ {S W : Type 0} (w : World S W) (sends records : S → ℕ) (cfg : UpstreamRelay)
    (m : IsMeter w sends records) where
  module _ (a b : ℕ) where
    Settled-if :
        (c : Bool) (x y : Step S)
        → Settled w sends records a b x
        → Settled w sends records a b y
        → Settled w sends records a b (if c then x else y)
    unfolding Settled
    Settled-if true x y h k = h
    Settled-if false x y h k = k

    Settled-handle_retry_hint_decision :
        (id : Text) (status : ℕ) (decision : RetryDecision) (metrics : LogRequestMetrics W)
        (t : RetryTracker) (refresh : Bool) (s : S)
        → Owing w sends records a b s
        → Settled w sends records a b
            (handle_retry_hint_decision w cfg id status decision metrics t refresh s)
    unfolding handle_retry_hint_decision
    Settled-handle_retry_hint_decision id status decision metrics t refresh s h =
        Settled-if _ _ _
          (Settled-next_credential w sends records cfg m a b refresh id status decision.delay
            metrics t s h)
          (Settled-grace_retry w sends records cfg m a b id status decision.delay metrics t s h)

    Settled-handle_error_status :
        (id : Text) (resp : Response) (metrics : LogRequestMetrics W) (t : RetryTracker) (s : S)
        → Owing w sends records a b s
        → Settled w sends records a b (handle_error_status w cfg id resp metrics t s)
    unfolding handle_error_status
    Settled-handle_error_status id resp metrics t s h =
        let decision = w.retry_decision resp.status metrics.error resp.headers in
        let i = m.of_failure id resp.status cfg.model_tier 0 metrics s in
        let z = w.record_failure id resp.status cfg.model_tier 0 metrics s in
        let refused : Settled w sends records a b (stop z (failed t.last_err)) =
          unfold Settled in ground arith in
        Settled-if _ _ _ refused (
          Settled-if _ _ _
            (Settled-handle_retry_hint_decision id resp.status decision metrics t true s h)
            (Settled-if _ _ _
              (Settled-handle_retry_hint_decision id resp.status decision metrics t false s h)
              (Settled-next_credential w sends records cfg m a b false id resp.status 0 metrics t s
                h)))

    Settled-handle_upstream_error :
        (id : Text) (resp : Response) (t : RetryTracker) (s : S)
        → Owing w sends records a b s
        → Settled w sends records a b (handle_upstream_error w cfg id resp t s)
    unfolding handle_upstream_error
    Settled-handle_upstream_error id resp t s h =
        let (s1, (error, first_byte, duration)) = w.read_upstream_error resp s in
        let metrics = log_metrics w cfg first_byte duration error in
        let t' = remember (relay_error_for_upstream_status resp.status) t in
        let (s2, taken_over) = w.handle_unauthorized id resp.status cfg.model_tier metrics s1 in
        let i = m.of_read resp s in
        let j = m.of_unauthorized id resp.status cfg.model_tier metrics s1 in
        elim (Bool-cases taken_over) [
          | inl e ↦ rw e (unfold Settled in ground arith)
          | inr e ↦ rw e (Settled-handle_error_status id resp metrics t' s2 (ground arith))
        ]

    Settled-forget_fill_first :
        (id : Text) (step : Step S)
        → Settled w sends records a b step
        → Settled w sends records a b (forget_fill_first w cfg id step)
    unfolding Settled forget_fill_first
    Settled-forget_fill_first id (stop s o) h = h
    Settled-forget_fill_first id (again s t) h =
        let i = Same-delete_if w sends records cfg m cfg.model_alias id s in ground arith

    Settled-handle_response :
        (id : Text) (t : RetryTracker) (resp : Response) (s : S)
        → Owing w sends records a b s
        → Settled w sends records a b (handle_response w cfg id t resp s)
    unfolding handle_response
    Settled-handle_response id t resp s h =
        Settled-if _ _ _ (Settled-handle_successful_response w sends records cfg m a b id resp s h)
          (Settled-forget_fill_first id _ (Settled-handle_upstream_error id resp t s h))

    Settled-send_request :
        (body id : Text) (t : RetryTracker) (auth : Headers) (s : S)
        → (sends s ≡ a) × (records s ≡ b)
        → Settled w sends records a b (send_request w cfg body id t auth s)
    unfolding send_request handle_send_failure
    Settled-send_request body id t auth s h =
        let (z, answer) = w.send id (upstream_headers cfg auth) body s in
        let i = m.of_send id (upstream_headers cfg auth) body s in
        elim (Option-cases answer) [
          | inl e ↦
              rw (e, send_request)
                (Settled-fail_early w sends records cfg m a b RelayError.upstream_request_failed
                  (w.elapsed z) id t z (ground arith))
          | inr (resp, e) ↦
              rw (e, send_request) (Settled-handle_response id t resp z (ground arith))
        ]

    Settled-use_credential :
        (body : Text) (t : RetryTracker) (id : Text) (s : S)
        → (sends s ≡ a) × (records s ≡ b)
        → Settled w sends records a b (use_credential w cfg body t id s)
    unfolding use_credential handle_auth_failure
    Settled-use_credential body t id s h =
        let (z, headers) = w.auth_headers id s in
        let i = m.of_auth_headers id s in
        elim (Option-cases headers) [
          | inl e ↦
              rw (e, use_credential)
                (Settled-fail_early w sends records cfg m a b RelayError.upstream_auth_failed
                  w.no_time id t z (ground arith))
          | inr (auth, e) ↦
              rw (e, use_credential) (Settled-send_request body id t auth z (ground arith))
        ]

  Settled-attempt :
      (body : Text) (t : RetryTracker) (s : S)
      → Settled w sends records (sends s) (records s) (attempt w cfg body t s)
  unfolding attempt
  Settled-attempt body t s =
      let (z, chosen) = select_relay_credential w cfg t s in
      let i = Same-select_relay_credential w sends records cfg m t s in
      elim (Option-cases chosen) [
        | inl e ↦ rw (e, attempt) (unfold Settled in ground arith)
        | inr (id, e) ↦ rw (e, attempt) (Settled-use_credential (sends s) (records s) body t id z i)
      ]

  -- Rounds of the loop send at most as many requests, and report each of them but the excused one.
  pub Settled-relay_loop :
      (n : ℕ) (body : Text) (t : RetryTracker) (s : S)
      → let (s', o) = relay_loop w cfg n body t s in
        (sends s' ≤ sends s + n) × (sends s' + records s ≤ (records s' + sends s) + excused o)
  unfolding Settled relay_loop
  Settled-relay_loop zero body t s = ground arith
  Settled-relay_loop (suc n) body t s =
      let h = Settled-attempt body t s in
      elim (Step-cases (attempt w cfg body t s)) [
        | inl (s', (o, e)) ↦ (let k = rw e at h in rw (e, relay_loop) (ground arith))
        | inr (s', (t', e)) ↦
            (let k = rw e at h in
              rw (e, relay_loop) (ground (arith, Settled-relay_loop n body t' s')))
      ]

  -- If the two counters move as the calls of the backend and the reports to the scheduler do, then
  -- the loop ends behind at most retries + 1 requests to the backend, and every request is reported
  -- to the scheduler, but for one if the client has gone away.
  pub relay_upstream-IsSettled :
      (retries : ℕ) (body : Option Text) (s : S)
      → let (s', o) = relay_upstream w cfg retries body s in
        (sends s' ≤ sends s + max_attempts retries)
        × (sends s' + records s ≤ (records s' + sends s) + excused o)
  unfolding relay_upstream
  relay_upstream-IsSettled retries none s = ground arith
  relay_upstream-IsSettled retries (some body) s =
      Settled-relay_loop (max_attempts retries) body fresh s
