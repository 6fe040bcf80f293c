-- ===== src/Relay/Loop/Rounds.antt =====
-- What one round of the relay loop sends, and what it still owes to the scheduler.
use meow_cli.Common.{ℕ, suc, ◌+◌, ◌≤◌, inl, inr, Bool, [], arith, Bool-cases, if◌then◌else◌}
use meow_cli.Common.Text.{Text}
use meow_cli.Scheduling.Backoff.{Duration}
use meow_cli.Logs.Rows.{LogRequestMetrics}
use meow_cli.Relay.Status.{RelayError}
use meow_cli.Relay.World.{World, Response, Written}
use meow_cli.Relay.Attempt.{
  UpstreamRelay, RetryTracker, Outcome, failed, relayed, broken_off, cancelled, Step, stop, again,
  delete_if, bind_session_credential, fail_early, log_metrics, handle_written,
  handle_successful_response, wait_for_retry, next_credential, grace_retry,
}
use meow_cli.Relay.Loop.Account.{Same, IsMeter, Same-delete_if}

-- A request that the client gave up may be left out.
abbrev pub excused : Outcome → ℕ
excused (failed e) = 0
excused relayed = 0
excused broken_off = 0
excused cancelled = 1

module _ {S W : Type 0} (w : World S W) (sends records : S → ℕ) where
  -- Since the counters stood at a and b, one request was sent at most, and all but one are recorded.
  abbrev pub Owing : ℕ → ℕ → S → Type 0
  Owing a b s = (sends s ≤ suc a) × (sends s + b ≤ suc (records s + a))

  -- As above, and all but the excused ones are recorded.
  abbrev pub Paid : ℕ → ℕ → ℕ → S → Type 0
  Paid x a b s = (sends s ≤ suc a) × (sends s + b ≤ (records s + a) + x)

  unfoldable pub Settled : ℕ → ℕ → Step S → Type 0
  Settled a b (stop s o) = Paid (excused o) a b s
  Settled a b (again s t) = Paid 0 a b s

  module _ (cfg : UpstreamRelay) (m : IsMeter w sends records) (a b : ℕ) where
    pub Settled-fail_early :
        (e : RelayError) (d : W) (id : Text) (t : RetryTracker) (s : S)
        → Owing a b s
        → Settled a b (fail_early w cfg e d id t s)
    unfolding Settled fail_early
    Settled-fail_early e d id t s h =
        let metrics = log_metrics w cfg w.no_time d [] in
        let z = w.record_failure id 0 cfg.model_tier 0 metrics s in
        let i = m.of_failure id 0 cfg.model_tier 0 metrics s in
        let j = Same-delete_if w sends records cfg m cfg.model_alias id z in
        elim (Bool-cases (w.ctx_err s)) [
          | inl e ↦ rw e (ground arith)
          | inr e ↦ rw e (ground arith)
        ]

    pub Same-bind_session_credential :
        (id : Text) (s : S) → Same w sends records s (bind_session_credential w cfg id s)
    unfolding bind_session_credential
    Same-bind_session_credential id s = ground (arith, m.of_session_set cfg.session_key id s)

    pub Settled-handle_written :
        (id : Text) (resp : Response) (written : Written W) (s : S)
        → Owing a b s
        → Settled a b (handle_written w cfg id resp written s)
    unfolding Settled handle_written
    Settled-handle_written id resp written s h =
        let metrics = log_metrics w cfg written.first_byte written.duration [] in
        let y = bind_session_credential w cfg id s in
        let z = w.content_bind id y in
        let v = delete_if w cfg cfg.model_alias id s in
        let h1 = Same-bind_session_credential id s in
        let h2 = m.of_bind id y in
        let h3 = m.of_success id resp.status cfg.model_tier metrics z in
        let h4 = m.of_success id resp.status cfg.model_tier metrics s in
        let h5 = Same-delete_if w sends records cfg m cfg.model_alias id s in
        let h6 = m.of_failure id 0 cfg.model_tier 0 metrics v in
        elim (Bool-cases written.failed) [
          | inr e ↦ rw e (ground arith)
          | inl e ↦ rw e (elim (Bool-cases (w.ctx_err s)) [
            | inl e' ↦ rw e' (ground arith)
            | inr e' ↦ rw e' (elim (Bool-cases written.any_written) [
              | inl k ↦ rw k (ground arith)
              | inr k ↦ rw k (ground arith)
            ])
          ])
        ]

    pub Settled-handle_successful_response :
        (id : Text) (resp : Response) (s : S)
        → Owing a b s
        → Settled a b (handle_successful_response w cfg id resp s)
    unfolding Settled handle_successful_response
    Settled-handle_successful_response id resp s h =
        let y = if cfg.fill_first then w.fill_first_set_if_absent cfg.model_alias id s else s in
        let (z, written) = w.write_upstream_response resp y in
        let i = m.of_fill_set cfg.model_alias id s in
        let j = m.of_write resp y in Settled-handle_written id resp written z (ground arith)

    pub Settled-next_credential :
        (refresh : Bool) (id : Text) (status : ℕ) (d : Duration) (metrics : LogRequestMetrics W)
        (t : RetryTracker) (s : S)
        → Owing a b s
        → Settled a b (next_credential w cfg refresh id status d metrics t s)
    unfolding Settled next_credential
    Settled-next_credential refresh id status d metrics t s h =
        let z = if refresh then w.queue_quota_refresh id cfg.model_tier s else s in
        let i = m.of_refresh id cfg.model_tier s in
        let j = m.of_failure id status cfg.model_tier d metrics z in ground arith

    pub Settled-grace_retry :
        (id : Text) (status : ℕ) (d : Duration) (metrics : LogRequestMetrics W) (t : RetryTracker)
        (s : S)
        → Owing a b s
        → Settled a b (grace_retry w cfg id status d metrics t s)
    unfolding Settled grace_retry wait_for_retry
    Settled-grace_retry id status d metrics t s h =
        let z = w.record_failure id status cfg.model_tier 0 metrics s in
        let i = m.of_failure id status cfg.model_tier 0 metrics s in
        let j = m.of_wait d z in ground arith
