-- ===== src/Codex/Quota/Held.antt =====
-- core/codex/scheduler.go: a quota update does not bring a credential back before its throttle ends.
use meow_cli.Common.{
  ℕ, ◌≡◌, ◌≢◌, ◌⊎◌, inl, inr, refl, true, not, ◌&&◌, List, [], ◌∷◌, Option, none, some, All, All-In,
  All-of_In, All-mono, any, ltb, Bool-cases, if◌then◌else◌,
}
use meow_cli.Common.Text.{Text, text_eq}
use meow_cli.Float.{Float, IsFloat, nought}
use meow_cli.Scheduling.Times.{Time}
use meow_cli.Scheduling.Refresh.{Cell}
use meow_cli.Scheduling.Refresh.Kept.{Holds, Holds-if, Holds-update_loop}
use meow_cli.Codex.Tiers.{model_tier_spark}
use meow_cli.Codex.Rows.{AvailableRow, AvailableSnapshot, build_available_snapshot}
use meow_cli.Codex.Select.{select_credential}
use meow_cli.Codex.Pool.{update_first}
use meow_cli.Codex.Pool.Barred.{not_selected}
use meow_cli.Codex.Weights.{Config}
use meow_cli.Codex.Quota.{
  Quota, with_quota, apply_quota_row, apply_quota, apply_quota_to_available, update_quota,
  merge_quota_update,
}
use meow_cli.Codex.Quota.Unselected.{AddsNoRow, IsBarred-sunk, tier_score}

module _ {W : Type 0} ⦃f : Float W⦄ where
  abbrev tier_until : Text → AvailableRow W → Time
  tier_until tier row =
      if text_eq tier model_tier_spark then row.throttled_until_spark else row.throttled_until

  -- The row of the id is out of the pool, and throttled beyond the instant.
  abbrev IsHeldRow : Text → Text → Time → AvailableRow W → Type 0
  IsHeldRow id tier now r =
      (r.id ≢ id)
      ⊎ ((f.lt (tier_score tier r) nought ≡ true) × (ltb now (tier_until tier r) ≡ true))

  abbrev pub IsHeld : Text → Text → Time → List (AvailableRow W) → Type 0
  IsHeld id tier now = All (IsHeldRow id tier now)

  module _ (laws : IsFloat W) (config : Config) (now : Time) (id tier : Text) where
    -- The change of a quota keeps the id and the deadlines of its row.
    IsHeldRow-apply_quota_row :
        (q : Quota W) (r : AvailableRow W)
        → IsHeldRow id tier now r
        → Holds (IsHeldRow id tier now) (apply_quota_row config now q r)
    unfolding apply_quota_row with_quota
    IsHeldRow-apply_quota_row q r (inl other) = inl other
    IsHeldRow-apply_quota_row q r (inr (low, late)) =
        inr (elim (Bool-cases (text_eq tier model_tier_spark)) [
          | inl e ↦ let l = rw e at late in rw (e, l) (laws.minus_one_neg, refl)
          | inr e ↦ let l = rw e at late in rw (e, l) (laws.minus_one_neg, refl)
        ])

    IsHeld-update_first :
        (target : Text) (q : Quota W) (rows : List (AvailableRow W))
        → IsHeld id tier now rows
        → Holds (IsHeld id tier now) (update_first target (apply_quota_row config now q) rows)
    unfolding update_first
    IsHeld-update_first target q [] h = tt
    IsHeld-update_first target q (r ∷ rows) h =
        let changed = apply_quota_row config now q r in
        let rest = update_first target (apply_quota_row config now q) rows in
        elim (Bool-cases (text_eq r.id target)) [
          | inl e ↦ rw e (first changed (IsHeldRow-apply_quota_row q r h.0))
          | inr e ↦ rw e (later rest (IsHeld-update_first target q rows h.1))
        ]
      where
        first :
            (o : Option (AvailableRow W))
            → Holds (IsHeldRow id tier now) o
            → Holds (IsHeld id tier now) (elim o as (λ _. Option (List (AvailableRow W))) [
              | none ↦ none
              | some row' ↦ some (row' ∷ rows)
            ])
        first none k = tt
        first (some row') k = (k, h.1)

        later :
            (o : Option (List (AvailableRow W)))
            → Holds (IsHeld id tier now) o
            → Holds (IsHeld id tier now) (elim o as (λ _. Option (List (AvailableRow W))) [
              | none ↦ none
              | some rows' ↦ some (r ∷ rows')
            ])
        later none k = tt
        later (some rows') k = (h.0, k)

    IsHeld-apply_quota :
        (sort : List (AvailableRow W) → List (AvailableRow W)) (target : Text) (q : Quota W)
        (snap : AvailableSnapshot W)
        → AddsNoRow sort
        → IsHeld id tier now snap.rows
        → Holds (λ s. IsHeld id tier now s.rows) (apply_quota sort config now target q snap)
    unfolding apply_quota build_available_snapshot
    IsHeld-apply_quota sort target q snap less h =
        let changed = update_first target (apply_quota_row config now q) snap.rows in
        elim (Bool-cases (any (λ row. text_eq row.id target) snap.rows)) [
          | inl e ↦ rw e (built changed (IsHeld-update_first target q snap.rows h))
          | inr e ↦ rw e tt
        ]
      where
        built :
            (o : Option (List (AvailableRow W)))
            → Holds (IsHeld id tier now) o
            → Holds
                (λ s. IsHeld id tier now s.rows)
                (elim o as (λ _. Option (AvailableSnapshot W)) [
                  | none ↦ none
                  | some rows ↦ some (build_available_snapshot (sort rows))
                ])
        built none k = tt
        built (some rows) k = All-of_In _ (sort rows) (λ r m. All-In _ rows r k (less rows r m))

    -- Under the laws of comparison, where sorting adds no row: a credential that is throttled
    -- beyond the present and scores below zero for a tier, in the snapshot and in every snapshot
    -- that others store meanwhile, is not selected for the tier from the snapshot behind an
    -- UpdateQuota of this or another credential.
    pub update_quota-unselected :
        (sort : List (AvailableRow W) → List (AvailableRow W)) (target : Text) (q : Quota W)
        (c : Cell (AvailableSnapshot W)) (rounds : List (List (AvailableSnapshot W)))
        (snap : AvailableSnapshot W) (best : ℕ) (preferred_codes allowed_codes : List ℕ)
        (preferred : Text) (random : ℕ → W)
        → AddsNoRow sort
        → Holds (λ s. IsHeld id tier now s.rows) c.value
        → All (All (λ s. IsHeld id tier now s.rows)) rounds
        → (update_quota sort config now target q c rounds).value ≡ some snap
        → select_credential best snap preferred_codes allowed_codes preferred tier random ≢ some id
    unfolding update_quota apply_quota_to_available
    update_quota-unselected sort target q c rounds snap best preferred_codes allowed_codes preferred
          random less h k e =
        let merged = merge_quota_update target q c.value in
        let loop =
          Holds-update_loop (λ s. IsHeld id tier now s.rows)
            (apply_quota sort config now target merged)
            (λ s. IsHeld-apply_quota sort target merged s less) c rounds h k in
        let held : Holds (λ s. IsHeld id tier now s.rows)
            (update_quota sort config now target q c rounds).value =
          Holds-if (λ s. IsHeld id tier now s.rows)
            (not q.has_default_quota && not q.has_spark_quota) c
            (apply_quota_to_available sort config now target merged c rounds).0 h loop in
        let low = rw e at held in
        not_selected laws best snap preferred_codes allowed_codes preferred tier random id (
          IsBarred-sunk id tier snap.rows (
            All-mono _ _ snap.rows (λ r g. elim g [ inl other ↦ inl other | inr both ↦ inr both.0 ])
              low))
