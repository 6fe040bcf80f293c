-- ===== src/Codex/Throttle/Counted.antt =====
-- What a failure does to the throttle state of its credential and tier, against a description of its own.
use meow_cli.Common.{
  ℕ, suc, ◌+◌, ◌-◌, ◌^◌, ◌≡◌, ◌≢◌, ◌≤◌, ◌<◌, ◌⊎◌, sym, ltb, ◌∙◌, inl, inr, ap, refl, true, false,
  none, some, arith, if◌then◌else◌,
}
use meow_cli.Common.Text.{Text, text_eq, text_eq_refl}
use meow_cli.Scheduling.Times.{Time}
use meow_cli.Common.Table.{Table, lookup}
use meow_cli.Float.{Float}
use meow_cli.Scheduling.Backoff.{Duration, calc_backoff, decide_failure_throttle}
use meow_cli.Scheduling.Backoff.Bounds.{HasRetryAfter}
use meow_cli.Logs.Rows.{LogRequestMetrics}
use meow_cli.Codex.Tiers.{throttle_state_key}
use meow_cli.Codex.Throttle.{
  ThrottleState, Scheduler, Setting, record_failure, set_until, state_or_new, after, failed,
}
use meow_cli.Codex.Throttle.Streak.{lookup-record_failure}

-- What a decision asks for, in all cases.
decide_failure_throttle-cases :
    (status : ℕ) (retry_after : Duration) (consecutive : ℕ) (base most : Duration)
    → let d = decide_failure_throttle status retry_after consecutive base most in
      (HasRetryAfter status retry_after × ((d.throttle ≡ true) × (d.backoff ≡ retry_after)))
      ⊎ ((¬ HasRetryAfter status retry_after)
          × ((3 ≤ consecutive)
              × ((d.throttle ≡ true)
                  × (d.backoff ≡ calc_backoff (suc (consecutive - 3)) base most))))
      ⊎ ((¬ HasRetryAfter status retry_after) × ((consecutive < 3) × (d.throttle ≡ false)))
unfolding decide_failure_throttle
decide_failure_throttle-cases status retry_after consecutive base most = ground arith

-- The state of a key, where a missing one counts for nothing.
abbrev pub HasState : Text → Table ThrottleState → ThrottleState → Type 0
HasState key states old =
    (lookup key states ≡ some old)
    ⊎ ((lookup key states ≡ none) × (old ≡ record { consecutive = 0; last_fail = 0; until = 0 }))

HasState→state_or_new :
    (key : Text) (states : Table ThrottleState) (old : ThrottleState)
    → HasState key states old
    → state_or_new (lookup key states) ≡ old
HasState→state_or_new key states old (inl e) = ap state_or_new e
HasState→state_or_new key states old (inr (e, same)) = ap state_or_new e ∙ sym same

-- The count behind a failure at a time: one again where the old deadline has passed.
abbrev pub IsCounted : Time → ThrottleState → ℕ → Type 0
IsCounted now old n =
    ((old.until ≢ 0) × ((old.until ≤ now) × (n ≡ 1)))
    ⊎ (((old.until ≡ 0) ⊎ (now < old.until)) × (n ≡ old.consecutive + 1))

-- The deadline behind a failure that was counted up to n.
abbrev pub IsDeadline : Time → ℕ → Duration → Duration → Duration → Time → ℕ → Time → Type 0
IsDeadline now status retry_after base most old n until =
    (HasRetryAfter status retry_after × (until ≡ now + retry_after))
    ⊎ ((¬ HasRetryAfter status retry_after)
        × ((3 ≤ n) × (until ≡ after now (calc_backoff (suc (n - 3)) base most))))
    ⊎ ((¬ HasRetryAfter status retry_after) × ((n < 3) × (until ≡ old)))

failed-IsCounted :
    (now : Time) (old : ThrottleState) → IsCounted now old (failed now old).consecutive
failed-IsCounted now old = ground arith

decision-IsDeadline :
    (now : Time) (status : ℕ) (retry_after base most : Duration) (old : Time) (n : ℕ)
    → let d = decide_failure_throttle status retry_after n base most in
      IsDeadline now status retry_after base most old n
        (if d.throttle then after now d.backoff else old)
decision-IsDeadline now status retry_after base most old n =
    let d = decide_failure_throttle status retry_after n base most in
    elim (decide_failure_throttle-cases status retry_after n base most) [
      | inl (h, (t, b)) ↦
          let forward : ltb retry_after (2 ^ 63) ≡ true = ground arith in
          inl (h, rw (t, b, forward) refl)
      | inr (inl (h, (three, (t, b)))) ↦ inr (inl (h, (three, rw (t, b) refl)))
      | inr (inr (h, (few, t))) ↦ inr (inr (h, (few, rw t refl)))
    ]

module _ {W : Type 0} ⦃f : Float W⦄ where
  -- A failure sets the state of its credential and tier and no other. The count is one if the old
  -- deadline was set and has passed, and else one more than before, a missing state counting for
  -- nothing; the time of the failure is noted; and the deadline is the time plus the delay of a
  -- usable Retry-After, and without one the time plus the backoff from the third failure in a row
  -- on, or the old deadline before that.
  pub record_failure-IsCounted :
      (e : Setting W) (id : Text) (status : ℕ) (tier : Text) (retry_after : Duration)
      (metrics : LogRequestMetrics W) (s : Scheduler W) (old : ThrottleState) (key : Text)
      → HasState (throttle_state_key id tier) s.throttle old
      → let states = (record_failure e id status tier retry_after metrics s).0.throttle in
        (new : ThrottleState) × ((lookup (throttle_state_key id tier) states ≡ some new)
          × ((new.last_fail ≡ e.now)
              × (IsCounted e.now old new.consecutive
                  × (IsDeadline e.now status retry_after e.config.throttle_base
                        e.config.throttle_max old.until new.consecutive new.until
                      × (lookup key states ≡ (
                          if text_eq (throttle_state_key id tier) key
                          then some new
                          else lookup key s.throttle))))))
  record_failure-IsCounted e id status tier retry_after metrics s old key h =
      let k = throttle_state_key id tier in
      let same = HasState→state_or_new k s.throttle old h in
      let state = failed e.now old in
      let d =
        decide_failure_throttle status retry_after state.consecutive e.config.throttle_base
          e.config.throttle_max in
      let until = if d.throttle then after e.now d.backoff else old.until in
      (
        set_until until state,
        (
          lookup-record_failure e id status tier retry_after metrics s k
              ∙ rw (text_eq_refl k, same) refl,
          (
            refl,
            (
              failed-IsCounted e.now old,
              (
                decision-IsDeadline e.now status retry_after e.config.throttle_base
                    e.config.throttle_max old.until state.consecutive,
                lookup-record_failure e id status tier retry_after metrics s key ∙ rw same refl,
              ),
            ),
          ),
        ),
      )
