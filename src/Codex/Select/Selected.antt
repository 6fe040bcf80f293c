-- ===== src/Codex/Select/Selected.antt =====
-- What a selected credential is, and when there is one.
use mathlib.Core.Bool.{true≢false}
use mathlib.Core.Option.{some-injective, none-ne-some}
use meow_cli.Common.{
  ℕ, suc, ◌<◌, ◌≡◌, ◌∙◌, ◌⊎◌, inl, inr, sym, ap, subst, refl, Bool, true, false, List, [], ◌∷◌,
  Option, none, some, arith, ◌==◌, ◌&&◌, &&-true, is_some, In, In→any, Bool-cases, Option-cases,
  if◌then◌else◌,
}
use meow_cli.Common.Text.{Text, text_eq, text_eq_iff}
use meow_cli.Float.{Float, IsFloat, nought}
use meow_cli.Scheduling.Best.{is_eligible}
use meow_cli.Scheduling.Best.Pick.{pick-eligible, pick-is_some}
use meow_cli.Scheduling.Plans.{plan_type_allowed, plan_type_code_set}
use meow_cli.Codex.Rows.{AvailableRow, AvailableSnapshot, weighted_tier_score, row_by_id}
use meow_cli.Codex.Select.{
  matched_score, select_weighted_credential, preferred_loop, select_preferred, id_of,
  select_credential,
}

code_of_test : (code wanted : ℕ) → (code == wanted) ≡ true → code ≡ wanted
code_of_test code wanted h = ground arith

module _ {W : Type 0} ⦃f : Float W⦄ where
  -- A row of the list that may serve the tier: its plan type is allowed, and its weighted score is not
  -- below zero.
  abbrev pub IsSelectable : List (AvailableRow W) → Text → List ℕ → AvailableRow W → Type 0
  IsSelectable rows tier allowed row =
      In row rows
      × (plan_type_allowed row.plan_type_code allowed ≡ true)
      × (f.lt (weighted_tier_score tier row) nought ≡ false)

  -- A row that the weighted pick accepts: its plan type is allowed, and its weighted score is not ≤ 0.
  abbrev pub IsPickable :
      List (AvailableRow W) → Text → (AvailableRow W → Bool) → AvailableRow W → Type 0
  IsPickable rows tier match row =
      In row rows × (match row ≡ true) × (f.le (weighted_tier_score tier row) nought ≡ false)

  row_by_id-In :
      (rows : List (AvailableRow W)) (id : Text) (row : AvailableRow W)
      → row_by_id rows id ≡ some row
      → In row rows × (row.id ≡ id)
  unfolding row_by_id
  row_by_id-In [] id row e = cc
  row_by_id-In (r ∷ rows) id row e = elim (Bool-cases (text_eq r.id id)) [
    | inl k ↦
        let same : r ≡ row = some-injective r row (rw k at e) in
        (inl same, ap (λ (z : AvailableRow W). z.id) (sym same) ∙ (text_eq_iff r.id id).0 k)
    | inr k ↦ let (there, q) = row_by_id-In rows id row (rw k at e) in (inr there, q)
  ]

  -- The three ways through the loop for a preferred code.
  preferred_loop-barred :
      (best : ℕ) (rows : List (AvailableRow W)) (tier : Text) (allowed : List ℕ) (code : ℕ)
      (codes : List ℕ) (random : ℕ → W) (call : ℕ)
      → plan_type_allowed code allowed ≡ false
      → preferred_loop best rows tier allowed (code ∷ codes) random call
        ≡ preferred_loop best rows tier allowed codes random (suc call)
  unfolding preferred_loop
  preferred_loop-barred best rows tier allowed code codes random call e = rw e

  preferred_loop-found :
      (best : ℕ) (rows : List (AvailableRow W)) (tier : Text) (allowed : List ℕ) (code : ℕ)
      (codes : List ℕ) (random : ℕ → W) (call : ℕ) (row : AvailableRow W)
      → plan_type_allowed code allowed ≡ true
      → select_weighted_credential best rows tier (λ row. row.plan_type_code == code) (random call)
        ≡ some row
      → preferred_loop best rows tier allowed (code ∷ codes) random call ≡ some row
  unfolding preferred_loop
  preferred_loop-found best rows tier allowed code codes random call row e k = rw (e, k)

  preferred_loop-missed :
      (best : ℕ) (rows : List (AvailableRow W)) (tier : Text) (allowed : List ℕ) (code : ℕ)
      (codes : List ℕ) (random : ℕ → W) (call : ℕ)
      → plan_type_allowed code allowed ≡ true
      → select_weighted_credential best rows tier (λ row. row.plan_type_code == code) (random call)
        ≡ none
      → preferred_loop best rows tier allowed (code ∷ codes) random call
        ≡ preferred_loop best rows tier allowed codes random (suc call)
  unfolding preferred_loop
  preferred_loop-missed best rows tier allowed code codes random call e k = rw (e, k)

  module _ (laws : IsFloat W) where
    not_below : (x : W) → f.le x nought ≡ false → f.lt x nought ≡ false
    not_below x h = elim (Bool-cases (f.lt x nought)) [
      | inl e ↦ absurd (true≢false (sym (laws.le_of_lt x nought e) ∙ h))
      | inr e ↦ e
    ]

    at_or_above : (x : W) → f.le nought x ≡ true → f.lt x nought ≡ false
    at_or_above x h = elim (Bool-cases (f.lt x nought)) [
      | inl e ↦ absurd (true≢false (sym h ∙ laws.lt-not-le x nought e))
      | inr e ↦ e
    ]

    select_weighted-IsPickable :
        (best : ℕ) (rows : List (AvailableRow W)) (tier : Text) (match : AvailableRow W → Bool)
        (random : W) (row : AvailableRow W)
        → select_weighted_credential best rows tier match random ≡ some row
        → IsPickable rows tier match row
    unfolding select_weighted_credential
    select_weighted-IsPickable best rows tier match random row e =
        let (there, score) = pick-eligible rows best (matched_score tier match) random e in
        elim (Bool-cases (match row)) [
          | inl m ↦ (there, m, rw m at score)
          | inr m ↦ absurd (
              true≢false
                (sym (laws.le_of_lt f.minus_one nought laws.minus_one_neg) ∙ rw m at score))
        ]

    preferred_loop-IsSelectable :
        (best : ℕ) (rows : List (AvailableRow W)) (tier : Text) (allowed codes : List ℕ)
        (random : ℕ → W) (call : ℕ) (row : AvailableRow W)
        → preferred_loop best rows tier allowed codes random call ≡ some row
        → IsSelectable rows tier allowed row
    unfolding preferred_loop
    preferred_loop-IsSelectable best rows tier allowed [] random call row e =
        let (there, m, s) = select_weighted-IsPickable best rows tier _ (random call) row e in
        (there, m, not_below _ s)
    preferred_loop-IsSelectable best rows tier allowed (code ∷ codes) random call row e =
        elim (Bool-cases (plan_type_allowed code allowed)) [
          | inr a ↦
              let later =
                sym (preferred_loop-barred best rows tier allowed code codes random call a) ∙ e in
              preferred_loop-IsSelectable best rows tier allowed codes random (suc call) row later
          | inl a ↦
              let pick =
                select_weighted_credential best rows tier (λ r. r.plan_type_code == code)
                  (random call) in
              elim (Option-cases pick) [
                | inl n ↦
                    let later =
                      sym (preferred_loop-missed best rows tier allowed code codes random call a n)
                      ∙ e in
                    preferred_loop-IsSelectable best rows tier allowed codes random (suc call) row
                      later
                | inr (r, n) ↦
                    let same = some-injective r row (
                      sym (preferred_loop-found best rows tier allowed code codes random call r a n)
                      ∙ e) in
                    let (there, m, s) =
                      select_weighted-IsPickable best rows tier _ (random call) r n in
                    let this : IsSelectable rows tier allowed r = (
                      there,
                      ap (λ c. plan_type_allowed c allowed) (code_of_test _ code m) ∙ a,
                      not_below _ s,
                    ) in
                    subst (IsSelectable rows tier allowed) same this
              ]
        ]

    select_preferred-IsSelectable :
        (rows : List (AvailableRow W)) (tier : Text) (allowed : List ℕ) (preferred id : Text)
        → select_preferred rows tier allowed preferred ≡ some id
        → (row : AvailableRow W) × IsSelectable rows tier allowed row
          × (row.id ≡ id)
          × (id ≡ preferred)
    unfolding select_preferred
    select_preferred-IsSelectable rows tier allowed preferred id e =
        elim (Option-cases (row_by_id rows preferred)) [
          | inl n ↦
              let nothing : select_preferred rows tier allowed preferred ≡ none =
                rw (n, select_preferred) in
              absurd (none-ne-some id (sym nothing ∙ e))
          | inr (row, n) ↦
              let (there, named) = row_by_id-In rows preferred row n in
              let test =
                f.le nought (weighted_tier_score tier row)
                && plan_type_allowed row.plan_type_code allowed in
              let result : select_preferred rows tier allowed preferred
                  ≡ (if test then some preferred else none) =
                rw (n, select_preferred) in
              elim (Bool-cases test) [
                | inr t ↦
                    let nothing : select_preferred rows tier allowed preferred ≡ none =
                      result ∙ rw t in
                    absurd (none-ne-some id (sym nothing ∙ e))
                | inl t ↦
                    let (above, allows) =
                      &&-true (f.le nought (weighted_tier_score tier row)) _ t in
                    let chosen : select_preferred rows tier allowed preferred ≡ some preferred =
                      result ∙ rw t in
                    let same = some-injective preferred id (sym chosen ∙ e) in
                    (row, (there, allows, at_or_above _ above), named ∙ same, sym same)
              ]
        ]

    id_of-some :
        (found : Option (AvailableRow W)) (id : Text)
        → id_of found ≡ some id
        → (row : AvailableRow W) × (found ≡ some row) × (row.id ≡ id)
    id_of-some none id e = cc
    id_of-some (some row) id e = (row, refl, some-injective row.id id e)

    -- Under the laws of comparison, a selected id is that of a row of the snapshot whose plan type
    -- is allowed and whose weighted score for the tier is not below zero, and a preferred
    -- credential is the only one that is selected.
    pub select_credential-IsSelectable :
        (best : ℕ) (snap : AvailableSnapshot W) (preferred_codes allowed_codes : List ℕ)
        (preferred tier : Text) (random : ℕ → W) (id : Text)
        → select_credential best snap preferred_codes allowed_codes preferred tier random ≡ some id
        → (row : AvailableRow W) × IsSelectable snap.rows tier
            (plan_type_code_set allowed_codes)
            row
          × (row.id ≡ id)
          × ((preferred ≡ []) ⊎ (id ≡ preferred))
    unfolding select_credential
    select_credential-IsSelectable best snap preferred_codes allowed_codes preferred tier random id
          e =
        let allowed = plan_type_code_set allowed_codes in
        elim (Bool-cases (text_eq preferred [])) [
          | inr t ↦
              let (row, selectable, named, same) =
                select_preferred-IsSelectable snap.rows tier allowed preferred id (rw t at e) in
              (row, selectable, named, inr same)
          | inl t ↦
              let found = preferred_loop best snap.rows tier allowed preferred_codes random 0 in
              let (row, picked, named) = id_of-some found id (rw t at e) in
              (
                row,
                preferred_loop-IsSelectable best snap.rows tier allowed preferred_codes random 0 row
                    picked,
                named,
                inl ((text_eq_iff preferred []).0 t),
              )
        ]

  -- A row that the weighted pick accepts makes it succeed.
  select_weighted_some :
      (best : ℕ) (rows : List (AvailableRow W)) (tier : Text) (match : AvailableRow W → Bool)
      (random : W) (row : AvailableRow W)
      → 0 < best
      → IsPickable rows tier match row
      → is_some (select_weighted_credential best rows tier match random) ≡ true
  unfolding select_weighted_credential
  select_weighted_some best rows tier match random row p (there, m, s) =
      let score = matched_score tier match in
      let eligible : is_eligible score row ≡ true = rw m (rw s) in
      let exists = In→any (is_eligible score) rows row there eligible in
      ground (arith, pick-is_some rows best score random, exists)

  preferred_loop_some :
      (best : ℕ) (rows : List (AvailableRow W)) (tier : Text) (allowed codes : List ℕ)
      (random : ℕ → W) (call : ℕ) (row : AvailableRow W)
      → 0 < best
      → IsPickable rows tier (λ row. plan_type_allowed row.plan_type_code allowed) row
      → is_some (preferred_loop best rows tier allowed codes random call) ≡ true
  unfolding preferred_loop
  preferred_loop_some best rows tier allowed [] random call row p h =
      select_weighted_some best rows tier _ (random call) row p h
  preferred_loop_some best rows tier allowed (code ∷ codes) random call row p h =
      let later = preferred_loop_some best rows tier allowed codes random (suc call) row p h in
      elim (Bool-cases (plan_type_allowed code allowed)) [
        | inr a ↦
            ap is_some (preferred_loop-barred best rows tier allowed code codes random call a)
            ∙ later
        | inl a ↦
            let pick =
              select_weighted_credential best rows tier (λ r. r.plan_type_code == code)
                (random call) in
            elim (Option-cases pick) [
              | inl n ↦
                  ap is_some
                    (preferred_loop-missed best rows tier allowed code codes random call a n)
                  ∙ later
              | inr (r, n) ↦
                  ap is_some
                    (preferred_loop-found best rows tier allowed code codes random call r a n)
            ]
      ]

  -- With a positive best count and no preferred credential, one is selected if the snapshot has a
  -- row of an allowed plan type whose weighted score is not ≤ 0.
  pub select_credential_some :
      (best : ℕ) (snap : AvailableSnapshot W) (preferred_codes allowed_codes : List ℕ) (tier : Text)
      (random : ℕ → W) (row : AvailableRow W)
      → 0 < best
      → IsPickable snap.rows tier
          (λ row. plan_type_allowed row.plan_type_code (plan_type_code_set allowed_codes))
          row
      → is_some (select_credential best snap preferred_codes allowed_codes [] tier random) ≡ true
  unfolding select_credential text_eq
  select_credential_some best snap preferred_codes allowed_codes tier random row p h =
      let allowed = plan_type_code_set allowed_codes in
      is_some-id_of _
      ∙ preferred_loop_some best snap.rows tier allowed preferred_codes random 0 row p h
    where
      is_some-id_of : (found : Option (AvailableRow W)) → is_some (id_of found) ≡ is_some found
      is_some-id_of none = refl
      is_some-id_of (some r) = refl
