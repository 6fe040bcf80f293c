-- ===== src/Relay/Loop/Account.antt =====
-- How many requests the relay loop sends, and that each of them is recorded with the scheduler.
use meow_cli.Common.{ℕ, suc, ◌≡◌, refl, List, [], Option, arith, if◌then◌else◌}
use meow_cli.Common.Text.{Text}
use meow_cli.Scheduling.Backoff.{Duration}
use meow_cli.Logs.Rows.{LogRequestMetrics}
use meow_cli.Relay.World.{World, Headers, Response, ComputeOp}
use meow_cli.Relay.Attempt.{
  UpstreamRelay, RetryTracker, delete_if, session_credential, preferred_credential, text_or_empty,
  select, select_any, prefer, select_by_content, select_by_fill_first, select_relay_credential,
}

module _ {S W : Type 0} (w : World S W) (sends records : S → ℕ) where
  -- Neither counter moves.
  abbrev pub Same : S → S → Type 0
  Same s s' = (sends s' ≡ sends s) × (records s' ≡ records s)

  -- `sends` counts the calls of the backend, and `records` the responses that the scheduler was told
  -- of: by RecordSuccess, by RecordFailure, or by a HandleUnauthorized that took them over.
  pub record IsMeter : Type 0 where
    pub of_select :
        (p : Text) (a : List Text) (t : Text) (s : S) → Same s (w.select_credential p a t s).0
    pub of_auth_headers : (id : Text) (s : S) → Same s (w.auth_headers id s).0
    pub of_success :
        (id : Text) (status : ℕ) (t : Text) (m : LogRequestMetrics W) (s : S)
        → let s' = w.record_success id status t m s in
          (sends s' ≡ sends s) × (records s' ≡ suc (records s))
    pub of_failure :
        (id : Text) (status : ℕ) (t : Text) (d : Duration) (m : LogRequestMetrics W) (s : S)
        → let s' = w.record_failure id status t d m s in
          (sends s' ≡ sends s) × (records s' ≡ suc (records s))
    pub of_unauthorized :
        (id : Text) (status : ℕ) (t : Text) (m : LogRequestMetrics W) (s : S)
        → let (s', taken_over) = w.handle_unauthorized id status t m s in
          (sends s' ≡ sends s) × (records s' ≡ (if taken_over then suc (records s) else records s))
    pub of_refresh : (id t : Text) (s : S) → Same s (w.queue_quota_refresh id t s)
    pub of_send :
        (id : Text) (h : Headers) (body : Text) (s : S)
        → let s' = (w.send id h body s).0 in (sends s' ≡ suc (sends s)) × (records s' ≡ records s)
    pub of_read : (r : Response) (s : S) → Same s (w.read_upstream_error r s).0
    pub of_write : (r : Response) (s : S) → Same s (w.write_upstream_response r s).0
    pub of_wait : (d : Duration) (s : S) → Same s (w.wait d s).0
    pub of_session_get : (k : Text) (s : S) → Same s (w.session_get k s).0
    pub of_session_set : (k v : Text) (s : S) → Same s (w.session_set k v s)
    pub of_fill_get : (k : Text) (s : S) → Same s (w.fill_first_get k s).0
    pub of_fill_set : (k v : Text) (s : S) → Same s (w.fill_first_set_if_absent k v s)
    pub of_fill_compute :
        (k : Text) (f : Text → ComputeOp) (s : S) → Same s (w.fill_first_compute_if_present k f s)
    pub of_match : (s : S) → Same s (w.content_match s).0
    pub of_bind : (id : Text) (s : S) → Same s (w.content_bind id s)

  module _ (cfg : UpstreamRelay) (m : IsMeter) where
    pub Same-delete_if : (k id : Text) (s : S) → Same s (delete_if w cfg k id s)
    unfolding delete_if
    Same-delete_if k id s = m.of_fill_compute k _ s

    Same-select : (id : Text) (s : S) → Same s (select w cfg id s).0
    unfolding select
    Same-select id s = m.of_select id cfg.allowed_plans cfg.model_tier s

    Same-session_credential : (s : S) → Same s (session_credential w cfg s).0
    unfolding session_credential
    Same-session_credential s = ground (arith, m.of_session_get cfg.session_key s)

    Same-preferred_credential :
        (t : RetryTracker) (s : S) → Same s (preferred_credential w cfg t s).0
    unfolding preferred_credential
    Same-preferred_credential t s = ground (arith, Same-session_credential s)

    Same-prefer :
        (id : Text) (undo : S → S) (next : S → S × Option Text) (s : S)
        → ((z : S) → Same z (undo z))
        → ((z : S) → Same z (next z).0)
        → Same s (prefer w cfg id undo next s).0
    unfolding prefer
    Same-prefer id undo next s hu hn =
        let z = (select w cfg id s).0 in ground (arith, Same-select id s, hu z, hn (undo z))

    Same-select_by_content :
        (t : RetryTracker) (preferred : Text) (s : S)
        → Same s (select_by_content w cfg t preferred s).0
    unfolding select_by_content
    Same-select_by_content t preferred s =
        let (z, matched) = w.content_match s in
        ground (
          arith,
          m.of_match s,
          Same-select [] s,
          Same-select [] z,
          Same-prefer matched (λ z. z) (select_any w cfg) z (λ z. (refl, refl))
              (λ z. unfold select_any in Same-select [] z),
        )

    Same-select_by_fill_first :
        (t : RetryTracker) (preferred : Text) (s : S)
        → Same s (select_by_fill_first w cfg t preferred s).0
    unfolding select_by_fill_first
    Same-select_by_fill_first t preferred s =
        let (z, found) = w.fill_first_get cfg.model_alias s in
        let key = cfg.model_alias in
        let id = text_or_empty w cfg found in
        ground (
          arith,
          m.of_fill_get key s,
          Same-select_by_content t preferred s,
          Same-select_by_content t preferred z,
          Same-prefer id (delete_if w cfg key id) (select_by_content w cfg t preferred) z
              (Same-delete_if key id) (Same-select_by_content t preferred),
        )

    pub Same-select_relay_credential :
        (t : RetryTracker) (s : S) → Same s (select_relay_credential w cfg t s).0
    unfolding select_relay_credential
    Same-select_relay_credential t s =
        let (z, preferred) = preferred_credential w cfg t s in
        ground (
          arith,
          Same-preferred_credential t s,
          Same-select_by_fill_first t preferred z,
          Same-prefer preferred (λ y. y) (select_by_fill_first w cfg t preferred) z
              (λ y. (refl, refl)) (Same-select_by_fill_first t preferred),
        )
