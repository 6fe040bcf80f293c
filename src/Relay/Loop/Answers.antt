-- ===== src/Relay/Loop/Answers.antt =====
-- The errors that the relay loop answers with.
use meow_cli.Common.{
  ℕ, zero, suc, ◌≡◌, inl, inr, refl, Bool, true, false, Option, none, some, arith, Option-cases,
  if◌then◌else◌,
}
use meow_cli.Common.Text.{Text}
use meow_cli.Logs.Rows.{LogRequestMetrics}
use meow_cli.Relay.Status.{RelayError, relay_error_for_upstream_status}
use meow_cli.Relay.World.{World, Response, RetryDecision, Written}
use meow_cli.Relay.Attempt.{
  UpstreamRelay, RetryTracker, failed, Step, stop, again, Step-cases, select_relay_credential,
  fail_early, handle_auth_failure, upstream_headers, log_metrics, remember, clear_grace,
  handle_written, handle_send_failure, handle_successful_response, next_credential, grace_retry,
  handle_retry_hint_decision, handle_error_status, handle_upstream_error, forget_fill_first,
  handle_response, send_request, use_credential, attempt,
}
use meow_cli.Relay.Loop.{relay_loop, relay_upstream, max_attempts, fresh}
use meow_cli.Relay.Loop.Account.{Same, IsMeter, Same-select_relay_credential}

-- A tracker that remembers an error, which is not the one of an empty pool.
abbrev IsCause : RetryTracker → Type 0
IsCause t = (t.has_last_err ≡ true) × ¬ (t.last_err ≡ RelayError.no_available_credential)

relay_error_for_upstream_status-IsCause :
    (status : ℕ) → ¬ (relay_error_for_upstream_status status ≡ RelayError.no_available_credential)
unfolding relay_error_for_upstream_status
relay_error_for_upstream_status-IsCause status = ground arith

module _ {S W : Type 0} (w : World S W) (cfg : UpstreamRelay) where
  unfoldable IsExplained : Step S → Type 0
  IsExplained (stop s o) = ¬ (o ≡ failed RelayError.no_available_credential)
  IsExplained (again s t) = IsCause t

  IsExplained-if :
      (c : Bool) (x y : Step S) → IsExplained x → IsExplained y → IsExplained (if c then x else y)
  unfolding IsExplained
  IsExplained-if true x y h k = h
  IsExplained-if false x y h k = k

  fail_early-IsExplained :
      (e : RelayError) (d : W) (id : Text) (t : RetryTracker) (s : S)
      → ¬ (e ≡ RelayError.no_available_credential)
      → IsExplained (fail_early w cfg e d id t s)
  unfolding IsExplained fail_early
  fail_early-IsExplained e d id t s h = ground arith

  handle_written-IsExplained :
      (id : Text) (resp : Response) (written : Written W) (s : S)
      → IsExplained (handle_written w cfg id resp written s)
  unfolding IsExplained handle_written
  handle_written-IsExplained id resp written s = ground arith

  handle_retry_hint_decision-IsExplained :
      (id : Text) (status : ℕ) (decision : RetryDecision) (metrics : LogRequestMetrics W)
      (t : RetryTracker) (refresh : Bool) (s : S)
      → IsCause t
      → IsExplained (handle_retry_hint_decision w cfg id status decision metrics t refresh s)
  unfolding IsExplained handle_retry_hint_decision next_credential grace_retry
  handle_retry_hint_decision-IsExplained id status decision metrics t refresh s h = ground arith

  handle_error_status-IsExplained :
      (id : Text) (resp : Response) (metrics : LogRequestMetrics W) (t : RetryTracker) (s : S)
      → IsCause t
      → IsExplained (handle_error_status w cfg id resp metrics t s)
  unfolding handle_error_status
  handle_error_status-IsExplained id resp metrics t s h =
      let decision = w.retry_decision resp.status metrics.error resp.headers in
      let z = w.record_failure id resp.status cfg.model_tier 0 metrics s in
      let refused : IsExplained (stop z (failed t.last_err)) = unfold IsExplained in ground arith in
      let moved_on : IsExplained (next_credential w cfg false id resp.status 0 metrics t s) =
        unfold IsExplained next_credential in h in
      IsExplained-if _ _ _ refused (
        IsExplained-if _ _ _
          (handle_retry_hint_decision-IsExplained id resp.status decision metrics t true s h)
          (IsExplained-if _ _ _
            (handle_retry_hint_decision-IsExplained id resp.status decision metrics t false s h)
            moved_on))

  handle_upstream_error-IsExplained :
      (id : Text) (resp : Response) (t : RetryTracker) (s : S)
      → IsExplained (handle_upstream_error w cfg id resp t s)
  unfolding handle_upstream_error
  handle_upstream_error-IsExplained id resp t s =
      let (s1, (error, first_byte, duration)) = w.read_upstream_error resp s in
      let metrics = log_metrics w cfg first_byte duration error in
      let t' = remember (relay_error_for_upstream_status resp.status) t in
      let s2 = (w.handle_unauthorized id resp.status cfg.model_tier metrics s1).0 in
      let h = relay_error_for_upstream_status-IsCause resp.status in
      let taken : IsExplained (again s2 (clear_grace t')) = unfold IsExplained in (refl, h) in
      IsExplained-if _ _ _ taken (handle_error_status-IsExplained id resp metrics t' s2 (refl, h))

  forget_fill_first-IsExplained :
      (id : Text) (step : Step S) → IsExplained step → IsExplained (forget_fill_first w cfg id step)
  unfolding IsExplained forget_fill_first
  forget_fill_first-IsExplained id (stop s o) h = h
  forget_fill_first-IsExplained id (again s t) h = h

  handle_successful_response-IsExplained :
      (id : Text) (resp : Response) (s : S)
      → IsExplained (handle_successful_response w cfg id resp s)
  unfolding handle_successful_response
  handle_successful_response-IsExplained id resp s = handle_written-IsExplained id resp _ _

  handle_response-IsExplained :
      (id : Text) (t : RetryTracker) (resp : Response) (s : S)
      → IsExplained (handle_response w cfg id t resp s)
  unfolding handle_response
  handle_response-IsExplained id t resp s =
      IsExplained-if _ _ _ (handle_successful_response-IsExplained id resp s)
        (forget_fill_first-IsExplained id _ (handle_upstream_error-IsExplained id resp t s))

  use_credential-IsExplained :
      (body : Text) (t : RetryTracker) (id : Text) (s : S)
      → IsExplained (use_credential w cfg body t id s)
  unfolding use_credential send_request handle_auth_failure handle_send_failure
  use_credential-IsExplained body t id s =
      let (y, headers) = w.auth_headers id s in
      elim (Option-cases headers) [
        | inl e ↦ rw (e, use_credential) (fail_early-IsExplained _ _ id t y (ground arith))
        | inr (auth, e) ↦
            let (z, answer) = w.send id (upstream_headers cfg auth) body y in
            rw (e, use_credential, send_request)
              (elim (Option-cases answer) [
                | inl f ↦ rw (f, send_request) (fail_early-IsExplained _ _ id t z (ground arith))
                | inr (resp, f) ↦ rw (f, send_request) (handle_response-IsExplained id t resp z)
              ])
      ]

  attempt-IsExplained :
      (body : Text) (t : RetryTracker) (s : S) → IsCause t → IsExplained (attempt w cfg body t s)
  unfolding attempt
  attempt-IsExplained body t s h =
      let (z, chosen) = select_relay_credential w cfg t s in
      elim (Option-cases chosen) [
        | inl e ↦ rw (e, attempt) (unfold IsExplained in ground arith)
        | inr (id, e) ↦ rw (e, attempt) (use_credential-IsExplained body t id z)
      ]

  -- Behind a remembered error the loop never says that there is no credential.
  relay_loop-IsExplained :
      (n : ℕ) (body : Text) (t : RetryTracker) (s : S)
      → IsCause t
      → ¬ ((relay_loop w cfg n body t s).1 ≡ failed RelayError.no_available_credential)
  unfolding relay_loop
  relay_loop-IsExplained zero body t s h = ground arith
  relay_loop-IsExplained (suc n) body t s h =
      let k = attempt-IsExplained body t s h in
      elim (Step-cases (attempt w cfg body t s)) [
        | inl (s', (o, e)) ↦ (let l = rw e at k in rw (e, relay_loop) (unfold IsExplained in l))
        | inr (s', (t', e)) ↦
            (let l = rw e at k in
              rw (e, relay_loop) (relay_loop-IsExplained n body t' s' (unfold IsExplained in l)))
      ]

  module _ (sends records : S → ℕ) (m : IsMeter w sends records) where
    -- A round that says there is no credential has moved no counter; one that goes on has a cause.
    unfoldable IsOpening : S → Step S → Type 0
    IsOpening s (stop s' o) =
        o ≡ failed RelayError.no_available_credential → Same w sends records s s'
    IsOpening s (again s' t) = IsCause t

    IsOpening-IsExplained : (s : S) (step : Step S) → IsExplained step → IsOpening s step
    unfolding IsOpening IsExplained
    IsOpening-IsExplained s (stop s' o) h = λ e. absurd (h e)
    IsOpening-IsExplained s (again s' t) h = h

    attempt-IsOpening :
        (body : Text) (t : RetryTracker) (s : S) → IsOpening s (attempt w cfg body t s)
    unfolding attempt
    attempt-IsOpening body t s =
        let (z, chosen) = select_relay_credential w cfg t s in
        let i = Same-select_relay_credential w sends records cfg m t s in
        elim (Option-cases chosen) [
          | inl e ↦ rw (e, attempt) (unfold IsOpening in λ q. i)
          | inr (id, e) ↦
              rw (e, attempt) (IsOpening-IsExplained s _ (use_credential-IsExplained body t id z))
        ]

    relay_loop-sent_nothing :
        (n : ℕ) (body : Text) (t : RetryTracker) (s : S)
        → let (s', o) = relay_loop w cfg (suc n) body t s in
          o ≡ failed RelayError.no_available_credential → Same w sends records s s'
    unfolding relay_loop
    relay_loop-sent_nothing n body t s h =
        let k = attempt-IsOpening body t s in
        elim (Step-cases (attempt w cfg body t s)) [
          | inl (s', (o, e)) ↦
              let l = rw e at k in
              let g = rw (e, relay_loop) at h in rw (e, relay_loop) (unfold IsOpening in l g)
          | inr (s', (t', e)) ↦
              let l = rw e at k in
              let g = rw (e, relay_loop) at h in
              absurd (relay_loop-IsExplained n body t' s' (unfold IsOpening in l) g)
        ]

    -- If the two counters move as the calls of the backend and the reports to the scheduler do, and
    -- the client is told that no credential is available, then no request was sent and nothing was
    -- reported.
    pub relay_upstream-sent_nothing :
        (retries : ℕ) (body : Option Text) (s : S)
        → let (s', o) = relay_upstream w cfg retries body s in
          o ≡ failed RelayError.no_available_credential
          → (sends s' ≡ sends s) × (records s' ≡ records s)
    unfolding relay_upstream max_attempts
    relay_upstream-sent_nothing retries none s h = (refl, refl)
    relay_upstream-sent_nothing retries (some body) s h =
        relay_loop-sent_nothing retries body fresh s h
