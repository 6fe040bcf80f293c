-- ===== src/Relay/Loop/Failures.antt =====
-- Behind a failed attempt the relay answers with the error of that attempt.
use mathlib.Core.Option.{some-injective, none-ne-some}
use meow_cli.Common.{
  ℕ, zero, suc, ◌+◌, ◌-◌, ◌≤◌, ◌≡◌, ◌∙◌, ◌⊎◌, inl, inr, refl, sym, ap, subst, Bool, true, false,
  Option, none, some, arith, Option-cases, if◌then◌else◌,
}
use meow_cli.Common.Text.{Text}
use meow_cli.Logs.Rows.{LogRequestMetrics}
use meow_cli.Relay.Status.{RelayError, relay_error_for_upstream_status}
use meow_cli.Relay.World.{World, Response, RetryDecision, Written}
use meow_cli.Relay.Attempt.{
  UpstreamRelay, RetryTracker, Outcome, failed, Step, stop, again, Step-cases,
  select_relay_credential, fail_early, handle_auth_failure, upstream_headers, log_metrics, remember,
  clear_grace, handle_written, handle_send_failure, handle_successful_response, next_credential,
  grace_retry, handle_retry_hint_decision, handle_error_status, handle_upstream_error,
  forget_fill_first, handle_response, send_request, use_credential, attempt,
}
use meow_cli.Relay.Loop.{relay_loop, relay_upstream, max_attempts, fresh}

module _ {S W : Type 0} (w : World S W) (cfg : UpstreamRelay) where
  abbrev error_of_answer : Option Response → RelayError
  error_of_answer none = RelayError.upstream_request_failed
  error_of_answer (some resp) = relay_error_for_upstream_status resp.status

  -- Why an attempt with a credential fails: there are no headers for it, or no answer, or an error status.
  unfoldable pub cause : Text → Text → S → RelayError
  cause body id s =
      let (y, headers) = w.auth_headers id s in
      elim headers [
        | none ↦ RelayError.upstream_auth_failed
        | some auth ↦ error_of_answer (w.send id (upstream_headers cfg auth) body y).1
      ]

  -- A round that goes on remembers the error.
  unfoldable Remembers : RelayError → Step S → Type 0
  Remembers e (stop s o) = Unit
  Remembers e (again s t) = (t.has_last_err ≡ true) × (t.last_err ≡ e)

  Remembers-if :
      (e : RelayError) (c : Bool) (x y : Step S)
      → Remembers e x
      → Remembers e y
      → Remembers e (if c then x else y)
  unfolding Remembers
  Remembers-if e true x y h k = h
  Remembers-if e false x y h k = k

  Remembers-fail_early :
      (e : RelayError) (d : W) (id : Text) (t : RetryTracker) (s : S)
      → Remembers e (fail_early w cfg e d id t s)
  unfolding Remembers fail_early
  Remembers-fail_early e d id t s = ground arith

  Remembers-handle_written :
      (e : RelayError) (id : Text) (resp : Response) (written : Written W) (s : S)
      → Remembers e (handle_written w cfg id resp written s)
  unfolding Remembers handle_written
  Remembers-handle_written e id resp written s = ground arith

  Remembers-handle_retry_hint_decision :
      (id : Text) (status : ℕ) (decision : RetryDecision) (metrics : LogRequestMetrics W)
      (t : RetryTracker) (refresh : Bool) (s : S)
      → t.has_last_err ≡ true
      → Remembers t.last_err
          (handle_retry_hint_decision w cfg id status decision metrics t refresh s)
  unfolding Remembers handle_retry_hint_decision next_credential grace_retry
  Remembers-handle_retry_hint_decision id status decision metrics t refresh s h = ground arith

  Remembers-handle_error_status :
      (id : Text) (resp : Response) (metrics : LogRequestMetrics W) (t : RetryTracker) (s : S)
      → t.has_last_err ≡ true
      → Remembers t.last_err (handle_error_status w cfg id resp metrics t s)
  unfolding handle_error_status
  Remembers-handle_error_status id resp metrics t s h =
      let decision = w.retry_decision resp.status metrics.error resp.headers in
      let e = t.last_err in
      let z = w.record_failure id resp.status cfg.model_tier 0 metrics s in
      let refused : Remembers e (stop z (failed e)) = unfold Remembers in tt in
      let moved_on : Remembers e (next_credential w cfg false id resp.status 0 metrics t s) =
        unfold Remembers next_credential in (h, refl) in
      Remembers-if e _ _ _ refused (
        Remembers-if e _ _ _
          (Remembers-handle_retry_hint_decision id resp.status decision metrics t true s h)
          (Remembers-if e _ _ _
            (Remembers-handle_retry_hint_decision id resp.status decision metrics t false s h)
            moved_on))

  Remembers-handle_upstream_error :
      (id : Text) (resp : Response) (t : RetryTracker) (s : S)
      → Remembers
          (relay_error_for_upstream_status resp.status)
          (handle_upstream_error w cfg id resp t s)
  unfolding handle_upstream_error
  Remembers-handle_upstream_error id resp t s =
      let (s1, (error, first_byte, duration)) = w.read_upstream_error resp s in
      let metrics = log_metrics w cfg first_byte duration error in
      let e = relay_error_for_upstream_status resp.status in
      let s2 = (w.handle_unauthorized id resp.status cfg.model_tier metrics s1).0 in
      let taken : Remembers e (again s2 (clear_grace (remember e t))) =
        unfold Remembers in (refl, refl) in
      Remembers-if e _ _ _ taken
        (Remembers-handle_error_status id resp metrics (remember e t) s2 refl)

  Remembers-forget_fill_first :
      (e : RelayError) (id : Text) (step : Step S)
      → Remembers e step
      → Remembers e (forget_fill_first w cfg id step)
  unfolding Remembers forget_fill_first
  Remembers-forget_fill_first e id (stop s o) h = h
  Remembers-forget_fill_first e id (again s t) h = h

  Remembers-handle_successful_response :
      (e : RelayError) (id : Text) (resp : Response) (s : S)
      → Remembers e (handle_successful_response w cfg id resp s)
  unfolding handle_successful_response
  Remembers-handle_successful_response e id resp s = Remembers-handle_written e id resp _ _

  Remembers-handle_response :
      (id : Text) (t : RetryTracker) (resp : Response) (s : S)
      → Remembers (relay_error_for_upstream_status resp.status) (handle_response w cfg id t resp s)
  unfolding handle_response
  Remembers-handle_response id t resp s =
      let e = relay_error_for_upstream_status resp.status in
      Remembers-if e _ _ _ (Remembers-handle_successful_response e id resp s)
        (Remembers-forget_fill_first e id _ (Remembers-handle_upstream_error id resp t s))

  Remembers-use_credential :
      (body : Text) (t : RetryTracker) (id : Text) (s : S)
      → Remembers (cause body id s) (use_credential w cfg body t id s)
  unfolding use_credential send_request handle_auth_failure handle_send_failure cause
  Remembers-use_credential body t id s =
      let (y, headers) = w.auth_headers id s in
      elim (Option-cases headers) [
        | inl e ↦ rw (e, use_credential, cause) (Remembers-fail_early _ _ id t y)
        | inr (auth, e) ↦
            let (z, answer) = w.send id (upstream_headers cfg auth) body y in
            rw (e, use_credential, cause)
              (elim (Option-cases answer) [
                | inl f ↦ rw (f, send_request) (Remembers-fail_early _ _ id t z)
                | inr (resp, f) ↦ rw (f, send_request) (Remembers-handle_response id t resp z)
              ])
      ]

  -- The tracker and the state behind k rounds, if all of them go on.
  unfoldable pub rounds_behind : ℕ → Text → RetryTracker → S → Option (RetryTracker × S)
  rounds_behind zero body t s = some (t, s)
  rounds_behind (suc k) body t s = elim (attempt w cfg body t s) [
    | stop s' o ↦ none
    | again s' t' ↦ rounds_behind k body t' s'
  ]

  relay_loop-rounds_behind :
      (k m n : ℕ) (body : Text) (t t' : RetryTracker) (s s' : S)
      → n ≡ k + suc m
      → rounds_behind k body t s ≡ some (t', s')
      → relay_loop w cfg n body t s ≡ relay_loop w cfg (suc m) body t' s'
  unfolding rounds_behind relay_loop
  relay_loop-rounds_behind zero m n body t t' s s' size e =
      let same = some-injective (t, s) (t', s') e in
      let whole : n ≡ suc m = omega (arith, size) in
      ap (λ v. relay_loop w cfg v body t s) whole
      ∙ ap (λ (v : RetryTracker × S). relay_loop w cfg (suc m) body v.0 v.1) same
  relay_loop-rounds_behind (suc k) m zero body t t' s s' size e = absurd (omega (arith, size))
  relay_loop-rounds_behind (suc k) m (suc n) body t t' s s' size e =
      elim (Step-cases (attempt w cfg body t s)) [
        | inl (y, (o, h)) ↦ absurd (none-ne-some (t', s') (rw (h, rounds_behind) at e))
        | inr (y, (u, h)) ↦
            rw (h, relay_loop)
              (relay_loop-rounds_behind k m n body u t' y s' (omega (arith, size))
                (rw (h, rounds_behind) at e))
      ]

  -- The rounds that are left behind a remembered error, where there are none or there is no credential.
  relay_loop-remembered :
      (m : ℕ) (body : Text) (t : RetryTracker) (s : S)
      → t.has_last_err ≡ true
      → (m ≡ 0) ⊎ ((select_relay_credential w cfg t s).1 ≡ none)
      → (relay_loop w cfg m body t s).1 ≡ failed t.last_err
  unfolding relay_loop attempt
  relay_loop-remembered zero body t s h k = refl
  relay_loop-remembered (suc m) body t s h (inl k) = absurd (omega (arith, k))
  relay_loop-remembered (suc m) body t s h (inr k) = rw (k, relay_loop, attempt) (rw h refl)

  -- Where a round with a credential goes on, and it was the last one or no credential is selected
  -- next, the relay answers with the error of that round: that the headers or the answer failed, or
  -- the error of the upstream's status.
  pub relay_upstream-answers_failure :
      (retries k : ℕ) (body : Text) (s s1 z s2 : S) (t t2 : RetryTracker) (id : Text)
      → k ≤ retries
      → rounds_behind k body fresh s ≡ some (t, s1)
      → select_relay_credential w cfg t s1 ≡ (z, some id)
      → attempt w cfg body t s1 ≡ again s2 t2
      → (k ≡ retries) ⊎ ((select_relay_credential w cfg t2 s2).1 ≡ none)
      → (relay_upstream w cfg retries (some body) s).1 ≡ failed (cause body id z)
  unfolding relay_upstream max_attempts
  relay_upstream-answers_failure retries k body s s1 z s2 t t2 id le behind chosen goes_on last =
      let m = retries - k in
      let size : suc retries ≡ k + suc m = omega (arith, le) in
      let known = remembered (Remembers-use_credential body t id z) in
      ap (λ (v : S × Outcome). v.1)
        (relay_loop-rounds_behind k m (suc retries) body fresh t s s1 size behind)
      ∙ one_more
      ∙ relay_loop-remembered m body t2 s2 known.0 (left last)
      ∙ ap failed known.1
    where
      continued : S × Option Text → Step S
      continued r = elim r.1 [
        | none ↦
            stop r.0
              (failed (if t.has_last_err then t.last_err else RelayError.no_available_credential))
        | some chosen_id ↦ use_credential w cfg body t chosen_id r.0
      ]

      used : attempt w cfg body t s1 ≡ use_credential w cfg body t id z
      used = unfold attempt in ap continued chosen

      remembered :
          Remembers (cause body id z) (use_credential w cfg body t id z)
          → (t2.has_last_err ≡ true) × (t2.last_err ≡ cause body id z)
      remembered h = unfold Remembers in subst (Remembers (cause body id z)) (sym used ∙ goes_on) h

      one_more :
          (relay_loop w cfg (suc (retries - k)) body t s1).1
          ≡ (relay_loop w cfg (retries - k) body t2 s2).1
      one_more = unfold relay_loop in rw (goes_on, relay_loop) refl

      left :
          (k ≡ retries) ⊎ ((select_relay_credential w cfg t2 s2).1 ≡ none)
          → (retries - k ≡ 0) ⊎ ((select_relay_credential w cfg t2 s2).1 ≡ none)
      left (inl e) = inl (omega (arith, e))
      left (inr e) = inr e
