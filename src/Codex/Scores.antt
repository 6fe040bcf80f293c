-- ===== src/Codex/Scores.antt =====
-- core/codex/scheduler.go: calcCodexScore over the quota windows, with QuotaPressureScore of
-- core/scheduling/scheduling.go.
use meow_cli.Common.{
  ℕ, ◌-◌, Bool, List, [], ◌∷◌, ◌++◌, Option, none, some, any, leb, ◌==◌, ◌||◌, if◌then◌else◌,
}
use meow_cli.Float.{Float, nought, one}
use meow_cli.Scheduling.Times.{Time}
use meow_cli.Codex.Weights.{monthly_window_seconds}

pub record QuotaWindow (W : Type 0) : Type 0 where
  pub quota : W
  pub reset : Time
  pub window_seconds : ℕ

module _ {W : Type 0} ⦃f : Float W⦄ where
  abbrev max_quota_pressure : W
  max_quota_pressure = f.lit 10 0

  abbrev quota_pressure_epsilon : W
  quota_pressure_epsilon = f.lit 1 6

  -- A difference of instants is taken only where it is positive.
  unfoldable pub remaining_fraction : Time → Time → ℕ → W
  remaining_fraction reset_at now window_seconds =
      let remaining = f.of_ns (reset_at - now) in
      let whole = f.of_int window_seconds in
      if reset_at == 0 || window_seconds == 0
      then one
      else if leb reset_at now
      then quota_pressure_epsilon
      else if f.lt remaining whole
      then f.max_of (f.quotient remaining whole) quota_pressure_epsilon
      else one

  unfoldable pub quota_pressure_score : W → Time → Time → ℕ → W
  unfolding remaining_fraction
  quota_pressure_score quota reset_at now window_seconds =
      if f.le quota nought
      then f.minus_one
      else f.min_of (f.quotient quota (remaining_fraction reset_at now window_seconds))
          max_quota_pressure

  -- The loop of layeredQuotaPressureScore, from the longest window, which is the last, to the first:
  -- the effective pressures, and the cap for what is before them.
  unfoldable pub effective_loop : Time → List (QuotaWindow W) → Option (List W × W)
  unfolding quota_pressure_score
  effective_loop now [] = some ([], max_quota_pressure)
  effective_loop now (w ∷ ws) = elim (effective_loop now ws) [
    | none ↦ none
    | some (effective, cap) ↦
        let pressure = quota_pressure_score w.quota w.reset now w.window_seconds in
        let capped = f.min_of pressure cap in
        if f.lt pressure nought then none else some (capped ∷ effective, capped)
  ]

  layered : List W → W
  layered [] = f.minus_one
  layered (a ∷ []) = a
  layered (a ∷ b ∷ []) = f.add (f.mul (f.lit 8 1) a) (f.mul (f.lit 2 1) b)
  layered (a ∷ b ∷ c ∷ rest) =
      f.add (f.add (f.mul (f.lit 7 1) a) (f.mul (f.lit 2 1) b)) (f.mul (f.lit 1 1) c)

  unfoldable pub layered_quota_pressure_score : Time → List (QuotaWindow W) → W
  unfolding effective_loop layered
  layered_quota_pressure_score now windows = elim (effective_loop now windows) [
    | none ↦ f.minus_one
    | some (effective, cap) ↦ layered effective
  ]

  abbrev pub window_if_known : W → Time → ℕ → List (QuotaWindow W)
  window_if_known quota reset seconds =
      if reset == 0
      then []
      else record { quota = quota; reset = reset; window_seconds = seconds } ∷ []

  abbrev pub is_exhausted : QuotaWindow W → Bool
  is_exhausted w = f.le w.quota nought

  score_windows : Time → List (QuotaWindow W) → W
  unfolding layered_quota_pressure_score
  score_windows now [] = f.minus_one
  score_windows now (w ∷ ws) =
      if any is_exhausted (w ∷ ws) then f.minus_one else layered_quota_pressure_score now (w ∷ ws)

  abbrev pub known_windows : W → W → W → Time → Time → Time → ℕ → ℕ → List (QuotaWindow W)
  known_windows quota_5h quota_7d quota_1mo reset_5h reset_7d reset_1mo seconds_5h seconds_7d =
      window_if_known quota_5h reset_5h seconds_5h
      ++ window_if_known quota_7d reset_7d seconds_7d
      ++ window_if_known quota_1mo reset_1mo monthly_window_seconds

  unfoldable pub calc_codex_score : W → W → W → Time → Time → Time → ℕ → ℕ → Time → W
  unfolding score_windows
  calc_codex_score quota_5h quota_7d quota_1mo reset_5h reset_7d reset_1mo seconds_5h seconds_7d
        now =
      score_windows now (
        known_windows quota_5h quota_7d quota_1mo reset_5h reset_7d reset_1mo seconds_5h seconds_7d)
