-- ===== src/Codex/Pool/Barred.antt =====
-- A credential that was evicted, suspended or throttled is not selected.
use mathlib.Core.Bool.{true≢false}
use mathlib.Core.Option.{some-injective, none-ne-some}
use meow_cli.Common.{
  ℕ, ◌≡◌, ◌≢◌, ◌∙◌, ◌⊎◌, inl, inr, sym, ap, subst, refl, true, false, List, [], ◌∷◌, Option, none,
  some, All, All-In, All-mono, Bool-cases, Option-cases, if◌then◌else◌,
}
use meow_cli.Common.Text.{Text, text_eq, text_eq_iff}
use meow_cli.Float.{Float, IsFloat, nought}
use meow_cli.Scheduling.Times.{Time}
use meow_cli.Scheduling.Best.{adjusted_score}
use meow_cli.Codex.Tiers.{model_tier_default, model_tier_spark}
use meow_cli.Codex.Rows.{
  AvailableRow, AvailableSnapshot, weighted_tier_score, build_available_snapshot,
}
use meow_cli.Codex.Select.{select_credential}
use meow_cli.Codex.Select.Selected.{select_credential-IsSelectable}
use meow_cli.Codex.Pool.{
  without_id, evict_credential, update_first, suspend_row, throttle_row, change_snapshot,
  suspend_credential_tier, throttle_credential_tier,
}

abbrev pub IsTier : Text → Type 0
IsTier tier = (tier ≡ model_tier_spark) ⊎ (tier ≡ model_tier_default)

pub default_tier :
    (tier : Text)
    → IsTier tier
    → text_eq tier model_tier_spark ≡ false
    → text_eq tier model_tier_default ≡ true
default_tier tier (inl e) h =
    absurd (true≢false (sym ((text_eq_iff tier model_tier_spark).1 e) ∙ h))
default_tier tier (inr e) h = (text_eq_iff tier model_tier_default).1 e

module _ {W : Type 0} ⦃f : Float W⦄ where
  -- No two rows have the same id.
  abbrev pub HasDistinctIds : List (AvailableRow W) → Type 0
  HasDistinctIds [] = Unit
  HasDistinctIds (row ∷ rows) = All (λ r. r.id ≢ row.id) rows × HasDistinctIds rows

  -- Every row of the id scores below zero for the tier.
  abbrev pub IsBarred : Text → Text → List (AvailableRow W) → Type 0
  IsBarred id tier = All λ r. (r.id ≢ id) ⊎ (f.lt (weighted_tier_score tier r) nought ≡ true)

  rows-build_available_snapshot :
      (rows : List (AvailableRow W)) → (build_available_snapshot rows).rows ≡ rows
  unfolding build_available_snapshot
  rows-build_available_snapshot rows = refl

  module _ (laws : IsFloat W) where
    adjusted_minus_one : (weight : W) → f.lt (adjusted_score f.minus_one weight) nought ≡ true
    unfolding adjusted_score
    adjusted_minus_one weight = rw laws.minus_one_neg laws.minus_one_neg

    -- A barred credential is not selected for the tier.
    pub not_selected :
        (best : ℕ) (snap : AvailableSnapshot W) (preferred_codes allowed_codes : List ℕ)
        (preferred tier : Text) (random : ℕ → W) (id : Text)
        → IsBarred id tier snap.rows
        → select_credential best snap preferred_codes allowed_codes preferred tier random ≢ some id
    not_selected best snap preferred_codes allowed_codes preferred tier random id h e =
        let (row, (there, allows, above), named, same) =
          select_credential-IsSelectable laws best snap preferred_codes allowed_codes preferred tier
            random id e in
        elim (All-In _ snap.rows row h there) [
          | inl other ↦ other named
          | inr below ↦ true≢false (sym below ∙ above)
        ]

    pub weighted_tier_score-below :
        (tier : Text) (row : AvailableRow W)
        → (if text_eq tier model_tier_spark then row.score_spark else row.score) ≡ f.minus_one
        → f.lt (weighted_tier_score tier row) nought ≡ true
    unfolding weighted_tier_score
    weighted_tier_score-below tier row h = elim (Bool-cases (text_eq tier model_tier_spark)) [
      | inl e ↦
          let low : row.score_spark ≡ f.minus_one = rw e at h in
          rw (e, low) (adjusted_minus_one row.weight_spark)
      | inr e ↦
          let low : row.score ≡ f.minus_one = rw e at h in
          rw (e, low) (adjusted_minus_one row.weight)
    ]

    throttle_row-below :
        (tier : Text) (until : Time) (row row' : AvailableRow W)
        → throttle_row tier until row ≡ some row'
        → f.lt (weighted_tier_score tier row') nought ≡ true
    unfolding throttle_row
    throttle_row-below tier until row row' e =
        weighted_tier_score-below tier row' (elim (Bool-cases (text_eq tier model_tier_spark)) [
          | inl k ↦
              let same = some-injective _ row' (rw k at e) in
              rw k (ap (λ (r : AvailableRow W). r.score_spark) (sym same))
          | inr k ↦ elim (Bool-cases (text_eq tier model_tier_default)) [
            | inl d ↦
                let same = some-injective _ row' (rw (k, d) at e) in
                rw k (ap (λ (r : AvailableRow W). r.score) (sym same))
            | inr d ↦ absurd (none-ne-some row' (rw (k, d) at e))
          ]
        ])

    suspend_row-below :
        (tier : Text) (row row' : AvailableRow W)
        → suspend_row tier row ≡ some row'
        → f.lt (weighted_tier_score tier row') nought ≡ true
    unfolding suspend_row
    suspend_row-below tier row row' e =
        weighted_tier_score-below tier row' (elim (Bool-cases (text_eq tier model_tier_spark)) [
          | inl k ↦
              let same = some-injective _ row' (rw k at e) in
              rw k (ap (λ (r : AvailableRow W). r.score_spark) (sym same))
          | inr k ↦ elim (Bool-cases (text_eq tier model_tier_default)) [
            | inl d ↦
                let same = some-injective _ row' (rw (k, d) at e) in
                rw k (ap (λ (r : AvailableRow W). r.score) (sym same))
            | inr d ↦ absurd (none-ne-some row' (rw (k, d) at e))
          ]
        ])

    others-IsBarred :
        (id tier : Text) (rows : List (AvailableRow W))
        → All (λ r. r.id ≢ id) rows
        → IsBarred id tier rows
    others-IsBarred id tier rows h = All-mono _ _ rows (λ r k. inl k) h

    -- A change that lowers the score bars the credential, unless it returns early.
    update_first-IsBarred :
        (id tier : Text) (change : AvailableRow W → Option (AvailableRow W))
        (rows : List (AvailableRow W))
        → ((row : AvailableRow W)
            → (row' : AvailableRow W) × (change row ≡ some row')
              × (f.lt (weighted_tier_score tier row') nought ≡ true))
        → HasDistinctIds rows
        → (rows' : List (AvailableRow W)) × (update_first id change rows ≡ some rows')
          × IsBarred id tier rows'
    unfolding update_first
    update_first-IsBarred id tier change [] below d = ([], refl, tt)
    update_first-IsBarred id tier change (row ∷ rows) below d =
        elim (Bool-cases (text_eq row.id id)) [
          | inl e ↦
              let (row', changed, low) = below row in
              let same = (text_eq_iff row.id id).0 e in
              (
                row' ∷ rows,
                rw e (rw changed),
                (inr low, others-IsBarred id tier rows (rw same at d.0)),
              )
          | inr e ↦
              let (rows', changed, barred) = update_first-IsBarred id tier change rows below d.1 in
              let other : row.id ≢ id =
                λ same. true≢false (sym ((text_eq_iff row.id id).1 same) ∙ e) in
              (row ∷ rows', rw e (rw changed), (inl other, barred))
        ]

    throttle_row_known :
        (tier : Text) (until : Time) (row : AvailableRow W)
        → IsTier tier
        → throttle_row tier until row ≢ none
    unfolding throttle_row
    throttle_row_known tier until row known e = elim (Bool-cases (text_eq tier model_tier_spark)) [
      | inl k ↦ none-ne-some _ (sym (rw k at e))
      | inr k ↦ none-ne-some _ (sym (rw (k, default_tier tier known k) at e))
    ]

    throttle_row_total :
        (tier : Text) (until : Time) (row : AvailableRow W)
        → IsTier tier
        → (row' : AvailableRow W) × (throttle_row tier until row ≡ some row')
          × (f.lt (weighted_tier_score tier row') nought ≡ true)
    throttle_row_total tier until row known = elim (Option-cases (throttle_row tier until row)) [
      | inr (row', e) ↦ (row', e, throttle_row-below tier until row row' e)
      | inl e ↦ absurd (throttle_row_known tier until row known e)
    ]

    suspend_row_known :
        (tier : Text) (row : AvailableRow W) → IsTier tier → suspend_row tier row ≢ none
    unfolding suspend_row
    suspend_row_known tier row known e = elim (Bool-cases (text_eq tier model_tier_spark)) [
      | inl k ↦ none-ne-some _ (sym (rw k at e))
      | inr k ↦ none-ne-some _ (sym (rw (k, default_tier tier known k) at e))
    ]

    suspend_row_total :
        (tier : Text) (row : AvailableRow W)
        → IsTier tier
        → (row' : AvailableRow W) × (suspend_row tier row ≡ some row')
          × (f.lt (weighted_tier_score tier row') nought ≡ true)
    suspend_row_total tier row known = elim (Option-cases (suspend_row tier row)) [
      | inr (row', e) ↦ (row', e, suspend_row-below tier row row' e)
      | inl e ↦ absurd (suspend_row_known tier row known e)
    ]

    change_snapshot-IsBarred :
        (id tier : Text) (change : AvailableRow W → Option (AvailableRow W))
        (snap : AvailableSnapshot W)
        → ((row : AvailableRow W)
            → (row' : AvailableRow W) × (change row ≡ some row')
              × (f.lt (weighted_tier_score tier row') nought ≡ true))
        → HasDistinctIds snap.rows
        → IsBarred id tier (change_snapshot id change snap).rows
    unfolding change_snapshot
    change_snapshot-IsBarred id tier change snap below d =
        let (rows, changed, barred) = update_first-IsBarred id tier change snap.rows below d in
        rw (changed, change_snapshot) (rw (rows-build_available_snapshot rows) barred)

    -- Under the laws of comparison, and where the ids of the snapshot are distinct, a credential
    -- that was just throttled for a known tier is not selected for it from the new snapshot,
    -- whatever is preferred or allowed.
    pub throttle_credential_tier-unselected :
        (best : ℕ) (snap snap' : AvailableSnapshot W) (preferred_codes allowed_codes : List ℕ)
        (preferred tier : Text) (random : ℕ → W) (id : Text) (until : Time)
        → IsTier tier
        → HasDistinctIds snap.rows
        → throttle_credential_tier id tier until (some snap) ≡ some snap'
        → select_credential best snap' preferred_codes allowed_codes preferred tier random ≢ some id
    unfolding throttle_credential_tier
    throttle_credential_tier-unselected best snap snap' preferred_codes allowed_codes preferred tier
          random id until known d e =
        let same = some-injective _ snap' e in
        let barred =
          change_snapshot-IsBarred id tier (throttle_row tier until) snap
            (λ row. throttle_row_total tier until row known) d in
        not_selected best snap' preferred_codes allowed_codes preferred tier random id
          (subst (λ (s : AvailableSnapshot W). IsBarred id tier s.rows) same barred)

    -- Under the laws of comparison, and where the ids of the snapshot are distinct, a credential
    -- whose known tier was just suspended is not selected for it from the new snapshot.
    pub suspend_credential_tier-unselected :
        (best : ℕ) (snap snap' : AvailableSnapshot W) (preferred_codes allowed_codes : List ℕ)
        (preferred tier : Text) (random : ℕ → W) (id : Text)
        → IsTier tier
        → HasDistinctIds snap.rows
        → suspend_credential_tier id tier (some snap) ≡ some snap'
        → select_credential best snap' preferred_codes allowed_codes preferred tier random ≢ some id
    unfolding suspend_credential_tier
    suspend_credential_tier-unselected best snap snap' preferred_codes allowed_codes preferred tier
          random id known d e =
        let same = some-injective _ snap' e in
        let barred =
          change_snapshot-IsBarred id tier (suspend_row tier) snap
            (λ row. suspend_row_total tier row known) d in
        not_selected best snap' preferred_codes allowed_codes preferred tier random id
          (subst (λ (s : AvailableSnapshot W). IsBarred id tier s.rows) same barred)

    without_id-IsBarred :
        (id tier : Text) (rows : List (AvailableRow W)) → IsBarred id tier (without_id id rows)
    unfolding without_id
    without_id-IsBarred id tier [] = tt
    without_id-IsBarred id tier (row ∷ rows) = elim (Bool-cases (text_eq row.id id)) [
      | inl e ↦ rw e (without_id-IsBarred id tier rows)
      | inr e ↦
          let other : row.id ≢ id = λ same. true≢false (sym ((text_eq_iff row.id id).1 same) ∙ e) in
          rw e (inl other, without_id-IsBarred id tier rows)
    ]

    -- Under the laws of comparison, an evicted credential is not selected for any tier from the new
    -- snapshot.
    pub evict_credential-unselected :
        (best : ℕ) (snap snap' : AvailableSnapshot W) (preferred_codes allowed_codes : List ℕ)
        (preferred tier : Text) (random : ℕ → W) (id : Text)
        → evict_credential id (some snap) ≡ some snap'
        → select_credential best snap' preferred_codes allowed_codes preferred tier random ≢ some id
    unfolding evict_credential
    evict_credential-unselected best snap snap' preferred_codes allowed_codes preferred tier random
          id e =
        let same = some-injective _ snap' e in
        let barred : IsBarred id tier (build_available_snapshot (without_id id snap.rows)).rows =
          rw (rows-build_available_snapshot (without_id id snap.rows))
            (without_id-IsBarred id tier snap.rows) in
        not_selected best snap' preferred_codes allowed_codes preferred tier random id
          (subst (λ (s : AvailableSnapshot W). IsBarred id tier s.rows) same barred)
