-- ===== src/Settings/Normal.antt =====
-- internal/settings/service.go: the normal form of the settings.
use mathlib.Core.Bool.{true≢false}
use meow_cli.Common.{ℕ, ◌≡◌, ◌<◌, inl, inr, true, sym, if_same, arith, Bool-cases, if◌then◌else◌}
use meow_cli.Common.Trim.{trim_space-trim_space}
use meow_cli.Common.Numerals.{ℤ, pos, negsuc, is_positive, ltb_int, IsInt, int_limit}
use meow_cli.Settings.Snapshots.{Snapshot, normalize, positive_or}
use meow_cli.Settings.Endpoints.{normalize_antigravity_api_endpoint-idempotent}

positive_or-idempotent : (d n : ℤ) → positive_or d (positive_or d n) ≡ positive_or d n
positive_or-idempotent d n = elim (Bool-cases (is_positive n)) [
  | inl e ↦ rw (e, e)
  | inr e ↦ rw e (if_same (is_positive d) d)
]

-- The cap of the throttle: a default where it is below the base.
abbrev capped : ℤ → ℤ → ℤ → ℤ
capped default base most = if ltb_int most base then default else most

capped-idempotent :
    (default base most : ℤ)
    → capped default base (capped default base most) ≡ capped default base most
capped-idempotent default base most = elim (Bool-cases (ltb_int most base)) [
  | inl e ↦ rw e (if_same (ltb_int default base) default)
  | inr e ↦ rw (e, e)
]

pub normalize-idempotent : (s : Snapshot) → normalize (normalize s) ≡ normalize s
unfolding normalize
normalize-idempotent s =
    let base = positive_or (pos 60) s.throttle_base_seconds in
    rw (
      trim_space-trim_space s.global_proxy,
      positive_or-idempotent (pos 21600) s.quota_sync_interval_seconds,
      positive_or-idempotent (pos 60) s.score_refresh_interval_seconds,
      positive_or-idempotent (pos 60) s.throttle_base_seconds,
      capped-idempotent (pos 1800) base s.throttle_max_seconds,
      positive_or-idempotent (pos 3) s.relay_max_retries,
      positive_or-idempotent (pos 10) s.weighted_best_count,
      positive_or-idempotent (pos 100000) s.content_affinity_max_entries,
      positive_or-idempotent (pos 4) s.import_concurrency,
      positive_or-idempotent (pos 86400) s.logs_retention_seconds,
      positive_or-idempotent (pos 100000) s.max_log_rows,
      trim_space-trim_space s.codex_proxy,
      trim_space-trim_space s.codex_preferred_plan_types,
      trim_space-trim_space s.codex_user_agent,
      trim_space-trim_space s.gemini_proxy,
      trim_space-trim_space s.gemini_base_urls,
      trim_space-trim_space s.gemini_preferred_plan_types,
      trim_space-trim_space s.antigravity_proxy,
      trim_space-trim_space s.antigravity_preferred_plan_types,
      normalize_antigravity_api_endpoint-idempotent s.antigravity_api_endpoint,
      trim_space-trim_space s.antigravity_user_agent,
      trim_space-trim_space s.opencode_go_proxy,
    )

-- Every number of the settings is one that an int can have.
abbrev pub IsSized : Snapshot → Type 0
IsSized s =
    IsInt s.quota_sync_interval_seconds
    × (IsInt s.score_refresh_interval_seconds
        × (IsInt s.throttle_base_seconds
            × (IsInt s.throttle_max_seconds
                × (IsInt s.relay_max_retries
                    × (IsInt s.weighted_best_count
                        × (IsInt s.content_affinity_max_entries
                            × (IsInt s.import_concurrency
                                × (IsInt s.logs_retention_seconds × (IsInt s.max_log_rows)))))))))

-- Every number of the settings is positive.
abbrev pub IsPositive : Snapshot → Type 0
IsPositive s =
    (is_positive s.quota_sync_interval_seconds ≡ true)
    × ((is_positive s.score_refresh_interval_seconds ≡ true)
        × ((is_positive s.throttle_base_seconds ≡ true)
            × ((is_positive s.throttle_max_seconds ≡ true)
                × ((is_positive s.relay_max_retries ≡ true)
                    × ((is_positive s.weighted_best_count ≡ true)
                        × ((is_positive s.content_affinity_max_entries ≡ true)
                            × ((is_positive s.import_concurrency ≡ true)
                                × ((is_positive s.logs_retention_seconds ≡ true)
                                    × ((is_positive s.max_log_rows ≡ true))))))))))

positive_or-IsPositive : (d : ℕ) (n : ℤ) → 0 < d → is_positive (positive_or (pos d) n) ≡ true
positive_or-IsPositive d n h = elim (Bool-cases (is_positive n)) [
  | inl e ↦ rw (e, e)
  | inr e ↦ rw e (ground arith)
]

capped-IsPositive :
    (d : ℕ) (base most : ℤ)
    → 0 < d
    → is_positive base ≡ true
    → is_positive (capped (pos d) base most) ≡ true
capped-IsPositive d (negsuc b) most h k = absurd (true≢false (sym k))
capped-IsPositive d (pos b) (negsuc n) h k = ground arith
capped-IsPositive d (pos b) (pos n) h k = ground arith

normalize-IsPositive : (s : Snapshot) → IsPositive (normalize s)
unfolding normalize
normalize-IsPositive s = (
  positive_or-IsPositive 21600 s.quota_sync_interval_seconds (omega arith),
  (
    positive_or-IsPositive 60 s.score_refresh_interval_seconds (omega arith),
    (
      positive_or-IsPositive 60 s.throttle_base_seconds (omega arith),
      (
        capped-IsPositive 1800 (positive_or (pos 60) s.throttle_base_seconds) s.throttle_max_seconds
            (omega arith) (positive_or-IsPositive 60 s.throttle_base_seconds (omega arith)),
        (
          positive_or-IsPositive 3 s.relay_max_retries (omega arith),
          (
            positive_or-IsPositive 10 s.weighted_best_count (omega arith),
            (
              positive_or-IsPositive 100000 s.content_affinity_max_entries (omega arith),
              (
                positive_or-IsPositive 4 s.import_concurrency (omega arith),
                (
                  positive_or-IsPositive 86400 s.logs_retention_seconds (omega arith),
                  positive_or-IsPositive 100000 s.max_log_rows (omega arith),
                ),
              ),
            ),
          ),
        ),
      ),
    ),
  ),
)

-- Normalising settings twice is normalising them once, and every number of the result is positive.
pub normalize-IsNormal :
    (s : Snapshot) → (normalize (normalize s) ≡ normalize s) × IsPositive (normalize s)
normalize-IsNormal s = (normalize-idempotent s, normalize-IsPositive s)

positive_or-IsInt : (d : ℕ) (n : ℤ) → d < int_limit → IsInt n → IsInt (positive_or (pos d) n)
positive_or-IsInt d n h k = elim (Bool-cases (is_positive n)) [ inl e ↦ rw e k | inr e ↦ rw e h ]

capped-IsInt :
    (d : ℕ) (base most : ℤ) → d < int_limit → IsInt most → IsInt (capped (pos d) base most)
capped-IsInt d base most h k = elim (Bool-cases (ltb_int most base)) [
  | inl e ↦ rw e h
  | inr e ↦ rw e k
]

pub normalize-IsSized : (s : Snapshot) → IsSized s → IsSized (normalize s)
unfolding normalize
normalize-IsSized s h = (
  positive_or-IsInt 21600 s.quota_sync_interval_seconds (omega arith) h.0,
  (
    positive_or-IsInt 60 s.score_refresh_interval_seconds (omega arith) h.1.0,
    (
      positive_or-IsInt 60 s.throttle_base_seconds (omega arith) h.1.1.0,
      (
        capped-IsInt 1800 (positive_or (pos 60) s.throttle_base_seconds) s.throttle_max_seconds
            (omega arith) h.1.1.1.0,
        (
          positive_or-IsInt 3 s.relay_max_retries (omega arith) h.1.1.1.1.0,
          (
            positive_or-IsInt 10 s.weighted_best_count (omega arith) h.1.1.1.1.1.0,
            (
              positive_or-IsInt 100000 s.content_affinity_max_entries (omega arith) h.1.1.1.1.1.1.0,
              (
                positive_or-IsInt 4 s.import_concurrency (omega arith) h.1.1.1.1.1.1.1.0,
                (
                  positive_or-IsInt 86400 s.logs_retention_seconds (omega arith)
                      h.1.1.1.1.1.1.1.1.0,
                  positive_or-IsInt 100000 s.max_log_rows (omega arith) h.1.1.1.1.1.1.1.1.1,
                ),
              ),
            ),
          ),
        ),
      ),
    ),
  ),
)
