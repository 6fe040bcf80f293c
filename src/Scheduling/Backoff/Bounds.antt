-- ===== src/Scheduling/Backoff/Bounds.antt =====
-- How calcBackoff grows, how it is capped, and when a failure throttles.
use meow_cli.Common.{
  ℕ, zero, suc, ◌+◌, ◌-◌, ◌*◌, ◌/◌, ◌%◌, ◌^◌, ◌≤◌, ◌<◌, ◌≡◌, ◌⊎◌, inl, inr, ◌↔◌, true, arith, leb,
  Bool-cases,
}
use meow_cli.Scheduling.Backoff.{
  Duration, is_positive, backoff_loop, calc_backoff, decide_failure_throttle, too_many_requests,
  service_unavailable,
}

-- base * 2 ^ k.
abbrev pub doubled : ℕ → ℕ → ℕ
doubled zero base = base
doubled (suc k) base = doubled k (base * 2)

doubled-ge : (k base : ℕ) → base ≤ doubled k base
doubled-ge zero base = omega arith
doubled-ge (suc k) base = omega (arith, doubled-ge k (base * 2))

-- What a capped doubling returns: the exact value if that stays below the cap, else the cap. The
-- code halves the cap before it compares, so the largest value below an odd cap counts as the cap.
abbrev pub Capped : ℕ → ℕ → ℕ → Type 0
Capped most exact r = ((r ≡ exact) × (exact ≤ most)) ⊎ ((r ≡ most) × (most ≤ exact + 1))

backoff_loop-Capped :
    (rounds d most : ℕ)
    → 0 < d
    → d ≤ most
    → most < 2 ^ 63
    → Capped most (doubled rounds d) (backoff_loop rounds d most)
unfolding backoff_loop
backoff_loop-Capped zero d most p h m = ground arith
backoff_loop-Capped (suc rounds) d most p h m = elim (Bool-cases (leb (most / 2) d)) [
  | inl e ↦ ground (arith, doubled-ge rounds (d * 2))
  | inr e ↦
      let small : d * 2 % 2 ^ 64 ≡ d * 2 = ground arith in
      rw (e, small) (ground (arith, backoff_loop-Capped rounds (d * 2) most))
]

-- With 0 < base ≤ most, both int64 durations, the backoff is base * 2 ^ (consecutive - 1), or the
-- cap where that is not below it or is one below it.
pub calc_backoff-Capped :
    (consecutive base most : ℕ)
    → 0 < base
    → base ≤ most
    → most < 2 ^ 63
    → Capped most (doubled (consecutive - 1) base) (calc_backoff consecutive base most)
unfolding calc_backoff
calc_backoff-Capped zero base most p h m = ground arith
calc_backoff-Capped (suc zero) base most p h m = ground arith
calc_backoff-Capped (suc (suc c)) base most p h m =
    ground (arith, backoff_loop-Capped (suc c) base most p h m)

pub calc_backoff_first :
    (base most : ℕ) → 0 < base → base < 2 ^ 63 → calc_backoff 1 base most ≡ base
unfolding calc_backoff
calc_backoff_first base most p h = ground arith

-- Where base is an int64 duration above a positive cap, the first backoff is base itself and every
-- later one is the cap.
pub calc_backoff_over_cap :
    (consecutive base most : ℕ)
    → 0 < most
    → most < base
    → base < 2 ^ 63
    → (calc_backoff 1 base most ≡ base) × (calc_backoff (2 + consecutive) base most ≡ most)
unfolding calc_backoff backoff_loop
calc_backoff_over_cap consecutive base most p h m =
    let e : 2 + consecutive ≡ suc (suc consecutive) = omega arith in
    (ground arith, rw e (ground arith))

-- The response carries a usable Retry-After: a 429 or 503 with a positive delay.
abbrev pub HasRetryAfter : ℕ → Duration → Type 0
HasRetryAfter status retry_after =
    ((status ≡ too_many_requests) ⊎ (status ≡ service_unavailable))
    × (is_positive retry_after ≡ true)

-- A failure throttles exactly when its response carries a usable Retry-After or it is at least the
-- third in a row, and the decision is marked explicit exactly in the first case.
pub decide_failure_throttle_iff :
    (status : ℕ) (retry_after : Duration) (consecutive : ℕ) (base most : Duration)
    → let d = decide_failure_throttle status retry_after consecutive base most in
      ((d.throttle ≡ true) ↔ (HasRetryAfter status retry_after ⊎ (3 ≤ consecutive)))
      × ((d.explicit_retry_after ≡ true) ↔ HasRetryAfter status retry_after)
unfolding decide_failure_throttle
decide_failure_throttle_iff status retry_after consecutive base most =
    ((λ h. ground arith, λ h. ground arith), (λ h. ground arith, λ h. ground arith))

-- With 0 < base ≤ most, both int64 durations, the backoff of a decision that throttles is the
-- upstream's own delay if the response carries one, and only otherwise the capped doubling of base
-- that starts at the third failure.
pub decide_failure_throttle-backoff :
    (status : ℕ) (retry_after : Duration) (consecutive : ℕ) (base most : Duration)
    → 0 < base
    → base ≤ most
    → most < 2 ^ 63
    → (decide_failure_throttle status retry_after consecutive base most).throttle ≡ true
    → let d = decide_failure_throttle status retry_after consecutive base most in
      (HasRetryAfter status retry_after × (d.backoff ≡ retry_after))
      ⊎ ((¬ HasRetryAfter status retry_after)
          × (3 ≤ consecutive)
          × Capped most (doubled (consecutive - 3) base) d.backoff)
unfolding decide_failure_throttle
decide_failure_throttle-backoff status retry_after consecutive base most p h m t =
    ground (arith, calc_backoff-Capped (suc (consecutive - 3)) base most p h m)
