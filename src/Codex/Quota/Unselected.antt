-- ===== src/Codex/Quota/Unselected.antt =====
-- core/codex/scheduler.go: neither a refresh of the scores nor a quota update brings a credential back
-- that is out of the pool.
use meow_cli.Common.{
  ℕ, ◌≡◌, ◌≢◌, ◌⊎◌, inl, inr, true, List, [], ◌∷◌, some, All, In, All-In, All-of_In, All-mono, map,
  arith, if◌then◌else◌,
}
use meow_cli.Common.Text.{Text, text_eq}
use meow_cli.Float.{Float, IsFloat, nought}
use meow_cli.Scheduling.Times.{Time}
use meow_cli.Scheduling.Best.{adjusted_score}
use meow_cli.Scheduling.Refresh.{Cell, refresh_rows}
use meow_cli.Scheduling.Refresh.Kept.{Holds, Holds-update_loop}
use meow_cli.Codex.Tiers.{model_tier_spark}
use meow_cli.Codex.Rows.{
  AvailableRow, AvailableSnapshot, weighted_tier_score, build_available_snapshot,
}
use meow_cli.Codex.Select.{select_credential}
use meow_cli.Codex.Pool.Barred.{IsBarred, not_selected}
use meow_cli.Codex.Weights.{Config}
use meow_cli.Codex.Quota.{rescore_row, refresh_available_scores}

module _ {W : Type 0} ⦃f : Float W⦄ where
  abbrev pub tier_score : Text → AvailableRow W → W
  tier_score tier row = if text_eq tier model_tier_spark then row.score_spark else row.score

  -- Every row of the id has a score below zero for the tier, before it is weighted.
  abbrev pub IsSunk : Text → Text → List (AvailableRow W) → Type 0
  IsSunk id tier = All λ r. (r.id ≢ id) ⊎ (f.lt (tier_score tier r) nought ≡ true)

  -- What sort.Slice is known to do: it adds no row.
  abbrev pub AddsNoRow : (List (AvailableRow W) → List (AvailableRow W)) → Type 0
  AddsNoRow sort =
      (rows : List (AvailableRow W)) (r : AvailableRow W) → In r (sort rows) → In r rows

  IsSunk-sort :
      (sort : List (AvailableRow W) → List (AvailableRow W)) (id tier : Text)
      (rows : List (AvailableRow W))
      → AddsNoRow sort
      → IsSunk id tier rows
      → IsSunk id tier (sort rows)
  IsSunk-sort sort id tier rows less h =
      All-of_In _ (sort rows) (λ r m. All-In _ rows r h (less rows r m))

  pub IsBarred-sunk :
      (id tier : Text) (rows : List (AvailableRow W)) → IsSunk id tier rows → IsBarred id tier rows
  IsBarred-sunk id tier rows =
      All-mono _ _ rows λ r h. elim h [ inl other ↦ inl other | inr low ↦ inr (below r low) ]
    where
      below :
          (r : AvailableRow W)
          → f.lt (tier_score tier r) nought ≡ true
          → f.lt (weighted_tier_score tier r) nought ≡ true
      below r low = unfold weighted_tier_score adjusted_score in ground arith

  module _ (laws : IsFloat W) (config : Config) (now : Time) (id tier : Text) where
    rescore_row-low :
        (r : AvailableRow W)
        → f.lt (tier_score tier r) nought ≡ true
        → f.lt (tier_score tier (rescore_row config now r)) nought ≡ true
    unfolding rescore_row
    rescore_row-low r low =
        ground (arith, laws.lt-not-le r.score nought, laws.lt-not-le r.score_spark nought)

    IsSunk-rescore :
        (rows : List (AvailableRow W))
        → IsSunk id tier rows
        → IsSunk id tier (map (rescore_row config now) rows)
    unfolding rescore_row
    IsSunk-rescore [] h = tt
    IsSunk-rescore (r ∷ rows) h = (
      elim h.0 [ inl other ↦ inl other | inr low ↦ inr (rescore_row-low r low) ],
      IsSunk-rescore rows h.1,
    )

    -- Under the laws of comparison, where sorting adds no row: a credential that scores below zero
    -- for a tier, in the snapshot and in every snapshot that others store meanwhile, is not
    -- selected for the tier behind a refresh of the scores.
    pub refresh_available_scores-unselected :
        (sort : List (AvailableRow W) → List (AvailableRow W)) (c : Cell (AvailableSnapshot W))
        (rounds : List (List (AvailableSnapshot W))) (snap : AvailableSnapshot W) (best : ℕ)
        (preferred_codes allowed_codes : List ℕ) (preferred : Text) (random : ℕ → W)
        → AddsNoRow sort
        → Holds (λ s. IsSunk id tier s.rows) c.value
        → All (All (λ s. IsSunk id tier s.rows)) rounds
        → (refresh_available_scores sort config now c rounds).0.value ≡ some snap
        → select_credential best snap preferred_codes allowed_codes preferred tier random ≢ some id
    unfolding refresh_available_scores refresh_rows build_available_snapshot
    refresh_available_scores-unselected sort c rounds snap best preferred_codes allowed_codes
          preferred random less h k e =
        let rebuild = λ (s : AvailableSnapshot W).
          some (build_available_snapshot (sort (map (rescore_row config now) s.rows))) in
        let keeps = λ (s : AvailableSnapshot W) (g : IsSunk id tier s.rows).
          IsSunk-sort sort id tier (map (rescore_row config now) s.rows) less
            (IsSunk-rescore s.rows g) in
        let kept = Holds-update_loop (λ s. IsSunk id tier s.rows) rebuild keeps c rounds h k in
        let low = rw e at kept in
        not_selected laws best snap preferred_codes allowed_codes preferred tier random id
          (IsBarred-sunk id tier snap.rows low)
