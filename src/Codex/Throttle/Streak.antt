-- ===== src/Codex/Throttle/Streak.antt =====
-- How responses move the throttle state of a credential and a tier.
use meow_cli.Common.{
  ℕ, suc, ◌+◌, ◌^◌, ◌≡◌, ◌<◌, ltb, ◌∙◌, inl, inr, ap, refl, true, false, ◌∷◌, none, some, arith,
  Bool-cases, if◌then◌else◌, ◌++◌, ◌||◌,
}
use meow_cli.Common.Text.{Text, text_eq, text_eq_refl}
use meow_cli.Common.Table.{lookup, insert, lookup-insert, lookup-delete}
use meow_cli.Float.{Float}
use meow_cli.Scheduling.Backoff.{Duration, decide_failure_throttle}
use meow_cli.Scheduling.Backoff.Bounds.{calc_backoff_first}
use meow_cli.Logs.Rows.{LogRequestMetrics, new_insert_log_params}
use meow_cli.Logs.Store.{insert_log}
use meow_cli.Codex.Weights.{handler_codex}
use meow_cli.Codex.Tiers.{
  model_tier_default, model_tier_spark, throttle_tier_for_model, throttle_state_key,
}
use meow_cli.Codex.Throttle.{
  ThrottleState, Scheduler, Setting, failures_of, decision_on, log_response, record_success,
  throttle_failure, record_failure, remember_throttle_until, no_failures, set_until, state_or_new,
  after, is_over,
}

throttle_tier_twice :
    (tier : Text)
    → throttle_tier_for_model (throttle_tier_for_model tier) ≡ throttle_tier_for_model tier
unfolding throttle_tier_for_model text_eq
throttle_tier_twice tier =
    elim (Bool-cases (text_eq tier model_tier_default || text_eq tier model_tier_spark)) [
      | inl e ↦ rw e (rw e)
      | inr e ↦ rw e
    ]

throttle_state_key_twice :
    (id tier : Text)
    → throttle_state_key id (throttle_tier_for_model tier) ≡ throttle_state_key id tier
unfolding throttle_state_key
throttle_state_key_twice id tier = ap (λ t. id ++ (0 ∷ t)) (throttle_tier_twice tier)

module _ {W : Type 0} ⦃f : Float W⦄ where
  throttle-log_response :
      (e : Setting W) (id : Text) (status : ℕ) (tier : Text) (metrics : LogRequestMetrics W)
      (s : Scheduler W)
      → (log_response e id status tier metrics s).throttle ≡ s.throttle
  unfolding log_response
  throttle-log_response e id status tier metrics s =
      elim (Bool-cases
        (insert_log e.json_valid e.ctx_done e.config.limits e.now
          (new_insert_log_params handler_codex id status tier metrics) s.logs).1) [
            | inl k ↦ rw k
            | inr k ↦ rw k
          ]

  -- A success clears the throttle state of its credential and tier, and touches no other.
  pub lookup-record_success :
      (e : Setting W) (id : Text) (status : ℕ) (tier : Text) (metrics : LogRequestMetrics W)
      (s : Scheduler W) (key : Text)
      → lookup key (record_success e id status tier metrics s).throttle
        ≡ (if text_eq (throttle_state_key id tier) key then none else lookup key s.throttle)
  unfolding record_success
  lookup-record_success e id status tier metrics s key =
      ap (lookup key) (throttle-log_response e id status tier metrics _)
      ∙ lookup-delete (throttle_state_key id tier) key s.throttle

  lookup-throttle_failure :
      (e : Setting W) (id : Text) (status : ℕ) (tier : Text) (retry_after : Duration)
      (s : Scheduler W) (key : Text)
      → let state = failures_of e id tier s in
        let decision = decision_on e id status tier retry_after s in
        lookup key (throttle_failure e id status tier retry_after s).0.throttle ≡ (
          if text_eq (throttle_state_key id tier) key
          then some (
              set_until
                (if decision.throttle then after e.now decision.backoff else state.until)
                state)
          else lookup key s.throttle)
  unfolding throttle_failure remember_throttle_until
  lookup-throttle_failure e id status tier retry_after s key =
      let k = throttle_state_key id tier in
      let state = failures_of e id tier s in
      let counted = insert k state s.throttle in
      let decision = decision_on e id status tier retry_after s in
      let found : lookup k counted ≡ some state =
        lookup-insert k k state s.throttle ∙ rw (text_eq_refl k) in
      elim (Bool-cases decision.throttle) [
        | inr d ↦ rw d (lookup-insert k key state s.throttle)
        | inl d ↦
            let later = set_until (after e.now decision.backoff) state in
            let same : lookup key (
                  insert k
                    (set_until (after e.now decision.backoff) (state_or_new (lookup k counted)))
                    counted)
                ≡ lookup key (insert k later counted) =
              ap
                (λ o.
                  lookup key
                    (insert k (set_until (after e.now decision.backoff) (state_or_new o)) counted))
                found in
            rw (d, throttle_state_key_twice id tier)
              (same ∙ lookup-insert k key later counted ∙ (elim (Bool-cases (text_eq k key)) [
                | inl q ↦ rw q
                | inr q ↦ rw q (lookup-insert k key state s.throttle ∙ rw q)
              ]))
      ]

  -- The state behind a failure, through what the code computes.
  pub lookup-record_failure :
      (e : Setting W) (id : Text) (status : ℕ) (tier : Text) (retry_after : Duration)
      (metrics : LogRequestMetrics W) (s : Scheduler W) (key : Text)
      → let state = failures_of e id tier s in
        let decision = decision_on e id status tier retry_after s in
        lookup key (record_failure e id status tier retry_after metrics s).0.throttle ≡ (
          if text_eq (throttle_state_key id tier) key
          then some (
              set_until
                (if decision.throttle then after e.now decision.backoff else state.until)
                state)
          else lookup key s.throttle)
  unfolding record_failure
  lookup-record_failure e id status tier retry_after metrics s key =
      let logged = log_response e id status tier metrics s in
      lookup-throttle_failure e id status tier retry_after logged key
      ∙ rw (throttle-log_response e id status tier metrics s)

early_decision :
    (status consecutive base most : ℕ)
    → consecutive < 3
    → (decide_failure_throttle status 0 consecutive base most).throttle ≡ false
unfolding decide_failure_throttle
early_decision status consecutive base most h = ground arith

third_decision :
    (status base most : ℕ)
    → 0 < base
    → base < 2 ^ 63
    → ((decide_failure_throttle status 0 3 base most).throttle ≡ true)
      × ((decide_failure_throttle status 0 3 base most).backoff ≡ base)
unfolding decide_failure_throttle
third_decision status base most h k = ground (arith, calc_backoff_first base most h k)

module _ {W : Type 0} ⦃f : Float W⦄ where
  -- One failure without a Retry-After on a state whose deadline has not passed.
  record_failure-counts :
      (e : Setting W) (id : Text) (status : ℕ) (tier : Text) (metrics : LogRequestMetrics W)
      (s : Scheduler W) (old : ThrottleState)
      → let decision =
          decide_failure_throttle status 0
            (suc old.consecutive)
            e.config.throttle_base
            e.config.throttle_max in
        state_or_new (lookup (throttle_state_key id tier) s.throttle) ≡ old
        → is_over e.now old ≡ false
        → lookup
            (throttle_state_key id tier)
            (record_failure e id status tier 0 metrics s).0.throttle
          ≡ some (record {
            consecutive = suc old.consecutive;
            last_fail = e.now;
            until = if decision.throttle then after e.now decision.backoff else old.until;
          })
  record_failure-counts e id status tier metrics s old h over =
      let k = throttle_state_key id tier in
      lookup-record_failure e id status tier 0 metrics s k ∙ rw (text_eq_refl k) (rw h (rw over))

  -- Three failures in a row without a Retry-After, on a credential and tier without a state and
  -- with a positive int64 throttle base: the first two set no deadline, and the third sets it at
  -- its time plus the throttle base.
  pub three_failures_throttle :
      (e1 e2 e3 : Setting W) (id : Text) (status1 status2 status3 : ℕ) (tier : Text)
      (metrics : LogRequestMetrics W) (s : Scheduler W)
      → lookup (throttle_state_key id tier) s.throttle ≡ none
      → 0 < e3.config.throttle_base
      → e3.config.throttle_base < 2 ^ 63
      → let key = throttle_state_key id tier in
        let s1 = (record_failure e1 id status1 tier 0 metrics s).0 in
        let s2 = (record_failure e2 id status2 tier 0 metrics s1).0 in
        let s3 = (record_failure e3 id status3 tier 0 metrics s2).0 in
        (lookup key s1.throttle ≡ some (record { consecutive = 1; last_fail = e1.now; until = 0 }))
        × (lookup key s2.throttle
            ≡ some (record { consecutive = 2; last_fail = e2.now; until = 0 }))
        × (lookup key s3.throttle
            ≡ some (record {
              consecutive = 3;
              last_fail = e3.now;
              until = e3.now + e3.config.throttle_base;
            }))
  three_failures_throttle e1 e2 e3 id status1 status2 status3 tier metrics s h p q =
      let key = throttle_state_key id tier in
      let s1 = (record_failure e1 id status1 tier 0 metrics s).0 in
      let s2 = (record_failure e2 id status2 tier 0 metrics s1).0 in
      let first : lookup key s1.throttle
          ≡ some (record { consecutive = 1; last_fail = e1.now; until = 0 }) =
        record_failure-counts e1 id status1 tier metrics s no_failures (ap state_or_new h) refl
        ∙ rw (
            early_decision status1 1 e1.config.throttle_base e1.config.throttle_max
              (omega arith)) in
      let second : lookup key s2.throttle
          ≡ some (record { consecutive = 2; last_fail = e2.now; until = 0 }) =
        record_failure-counts e2 id status2 tier metrics s1 _ (ap state_or_new first) refl
        ∙ rw (
            early_decision status2 2 e2.config.throttle_base e2.config.throttle_max
              (omega arith)) in
      let (throttles, backoff) =
        third_decision status3 e3.config.throttle_base e3.config.throttle_max p q in
      let forward : ltb e3.config.throttle_base (2 ^ 63) ≡ true = ground arith in
      (
        first,
        second,
        record_failure-counts e3 id status3 tier metrics s2 _ (ap state_or_new second) refl
            ∙ rw (throttles, backoff, forward),
      )
