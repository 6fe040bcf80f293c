-- ===== src/Scheduling/QuotaSync/Attempted.antt =====
-- What a round of syncs does to the next delay: a row that was synced waits for its interval, but a
-- row whose reset time stays in the past keeps the delay at zero.
use meow_cli.Common.{
  ℕ, ◌+◌, ◌≤◌, ◌<◌, ◌≡◌, ◌≢◌, ◌∙◌, sym, ◌⊎◌, All, map, inl, inr, refl, true, false, List, [], ◌∷◌,
  some, arith, In, In→any, take, Bool-cases, Option-cases, ltb, ap, subst,
}
use mathlib.Core.Bool.{true≢false}
use meow_cli.Common.Text.{Text, text_eq, text_eq_refl, text_eq→eq}
use meow_cli.Common.Table.{Table, lookup, insert, lookup-insert}
use meow_cli.Scheduling.Times.{Time}
use meow_cli.Scheduling.QuotaSync.{
  Rows, quota_reset_refresh_due, next_delay, prioritized_due_rows, mark_attempted,
  with_attempted_row, with_attempted_sync_times, sync_due_rows,
}
use meow_cli.Scheduling.QuotaSync.Delay.{next_delay_due, is_due}

module _ {ℓ} {T : Type ℓ} (q : Rows T) where
  -- What the accessors promise of WithSyncedAt.
  pub record IsRows : Type ℓ where
    pub synced_at_set : (row : T) (t : Time) → q.synced_at (q.with_synced_at row t) ≡ t
    pub row_id_kept : (row : T) (t : Time) → q.row_id (q.with_synced_at row t) ≡ q.row_id row
    pub reset_at_kept : (row : T) (t : Time) → q.reset_at (q.with_synced_at row t) ≡ q.reset_at row

  lookup-mark_attempted :
      (now : Time) (rows : List T) (attempted : Table Time) (row : T)
      → In row rows ⊎ (lookup (q.row_id row) attempted ≡ some now)
      → lookup (q.row_id row) (mark_attempted q now rows attempted) ≡ some now
  unfolding mark_attempted
  lookup-mark_attempted now [] attempted row (inl m) = absurd (m refl)
  lookup-mark_attempted now [] attempted row (inr e) = e
  lookup-mark_attempted now (r ∷ rows) attempted row h =
      lookup-mark_attempted now rows (insert (q.row_id r) now attempted) row (next h)
    where
      fresh : lookup (q.row_id r) (insert (q.row_id r) now attempted) ≡ some now
      fresh = rw (lookup-insert (q.row_id r) (q.row_id r) now attempted, text_eq_refl (q.row_id r))

      next :
          In row (r ∷ rows) ⊎ (lookup (q.row_id row) attempted ≡ some now)
          → In row rows ⊎ (lookup (q.row_id row) (insert (q.row_id r) now attempted) ≡ some now)
      next (inl (inl e)) =
          inr (
            subst (λ z. lookup (q.row_id z) (insert (q.row_id r) now attempted) ≡ some now) e fresh)
      next (inl (inr m)) = inl m
      next (inr e) = inr (ground (arith, lookup-insert (q.row_id r) (q.row_id row) now attempted))

  In-with_attempted :
      (rows : List T) (attempted : Table Time) (row : T)
      → In row rows
      → In (with_attempted_row q attempted row) (with_attempted_sync_times q rows attempted)
  unfolding with_attempted_sync_times
  In-with_attempted [] attempted row m = absurd (m refl)
  In-with_attempted (r ∷ rows) attempted row (inl e) = inl (ap (with_attempted_row q attempted) e)
  In-with_attempted (r ∷ rows) attempted row (inr m) = inr (In-with_attempted rows attempted row m)

  module _ (laws : IsRows) where
    reset_at-with_attempted_row :
        (attempted : Table Time) (row : T)
        → q.reset_at (with_attempted_row q attempted row) ≡ q.reset_at row
    unfolding with_attempted_row
    reset_at-with_attempted_row attempted row =
        elim (Option-cases (lookup (q.row_id row) attempted)) [
          | inl e ↦ rw (e, with_attempted_row)
          | inr (at, e) ↦ elim (Bool-cases (ltb (q.synced_at row) at)) [
            | inl b ↦ rw (e, with_attempted_row) (rw b (laws.reset_at_kept row at))
            | inr b ↦ rw (e, with_attempted_row) (rw b)
          ]
        ]

    le-with_attempted_row :
        (attempted : Table Time) (row : T) (now : Time)
        → lookup (q.row_id row) attempted ≡ some now
        → now ≤ q.synced_at (with_attempted_row q attempted row)
    unfolding with_attempted_row
    le-with_attempted_row attempted row now e = elim (Bool-cases (ltb (q.synced_at row) now)) [
      | inl b ↦ rw (e, with_attempted_row) (rw b (omega (arith, laws.synced_at_set row now)))
      | inr b ↦ rw (e, with_attempted_row) (rw b (ground arith))
    ]

    row_id-with_attempted_row :
        (attempted : Table Time) (row : T)
        → q.row_id (with_attempted_row q attempted row) ≡ q.row_id row
    unfolding with_attempted_row
    row_id-with_attempted_row attempted row =
        elim (Option-cases (lookup (q.row_id row) attempted)) [
          | inl e ↦ rw (e, with_attempted_row)
          | inr (at, e) ↦ elim (Bool-cases (ltb (q.synced_at row) at)) [
            | inl b ↦ rw (e, with_attempted_row) (rw b (laws.row_id_kept row at))
            | inr b ↦ rw (e, with_attempted_row) (rw b)
          ]
        ]

    map-with_attempted :
        (attempted : Table Time) (rows : List T)
        → (map q.row_id (with_attempted_sync_times q rows attempted) ≡ map q.row_id rows)
          × (map q.reset_at (with_attempted_sync_times q rows attempted) ≡ map q.reset_at rows)
    unfolding with_attempted_sync_times
    map-with_attempted attempted [] = (refl, refl)
    map-with_attempted attempted (r ∷ rows) =
        let (ids, resets) = map-with_attempted attempted rows in
        (
          rw (row_id-with_attempted_row attempted r, ids) refl,
          rw (reset_at-with_attempted_row attempted r, resets) refl,
        )

    -- A row of another credential, or one whose reset is due, or one that waits.
    abbrev pub IsQuiet : Text → ℕ → Time → T → Type 0
    IsQuiet id interval later row =
        (q.row_id row ≢ id)
        ⊎ ((quota_reset_refresh_due (q.reset_at row) later ≡ true)
            ⊎ (is_due q interval later row ≡ false))

    with_attempted-IsQuiet :
        (attempted : Table Time) (id : Text) (now later : Time) (interval : ℕ) (rows : List T)
        → 0 < now
        → later < now + interval
        → lookup id attempted ≡ some now
        → All (IsQuiet id interval later) (with_attempted_sync_times q rows attempted)
    unfolding with_attempted_sync_times
    with_attempted-IsQuiet attempted id now later interval [] p h known = tt
    with_attempted-IsQuiet attempted id now later interval (r ∷ rows) p h known = (
      elim (Bool-cases (text_eq id (q.row_id r))) [
        | inr apart ↦ inl (λ e. true≢false (
            sym (text_eq_refl id)
            ∙ ap (text_eq id) (sym (sym (row_id-with_attempted_row attempted r) ∙ e))
            ∙ apart))
        | inl same ↦
            let known' : lookup (q.row_id r) attempted ≡ some now =
              ap (λ v. lookup v attempted) (sym (text_eq→eq id (q.row_id r) same)) ∙ known in
            let late = le-with_attempted_row attempted r now known' in
            inr (waits (with_attempted_row q attempted r) late)
      ],
      with_attempted-IsQuiet attempted id now later interval rows p h known,
    )
      where
        waits :
            (row : T)
            → now ≤ q.synced_at row
            → (quota_reset_refresh_due (q.reset_at row) later ≡ true)
              ⊎ (is_due q interval later row ≡ false)
        waits row late = elim (Bool-cases (quota_reset_refresh_due (q.reset_at row) later)) [
          | inl due ↦ inl due
          | inr calm ↦ inr (ground arith)
        ]

    -- With accessors that set and keep what they should, a round of syncs leaves one row for each
    -- row that is listed afterwards, in order, with its credential and reset time, and every row of
    -- a credential that was synced whose reset is not due is not due again within the interval.
    pub synced_rows_wait :
        (rows fresh : List T) (now later : Time) (interval started : ℕ) (synced : T)
        → 0 < now
        → later < now + interval
        → In synced (sync_due_rows q (some rows) now interval started (some fresh)).1
        → let result = (sync_due_rows q (some rows) now interval started (some fresh)).0 in
          (map q.row_id result ≡ map q.row_id fresh)
          × (map q.reset_at result ≡ map q.reset_at fresh)
          × All (IsQuiet (q.row_id synced) interval later) result
    unfolding sync_due_rows
    synced_rows_wait rows fresh now later interval started synced p h m =
        let begun = take started (prioritized_due_rows q rows now interval) in
        let attempted = mark_attempted q now begun [] in
        let known = lookup-mark_attempted now begun [] synced (inl m) in
        let (ids, resets) = map-with_attempted attempted fresh in
        (
          ids,
          resets,
          with_attempted-IsQuiet attempted (q.row_id synced) now later interval fresh p h known,
        )

    -- With accessors that set and keep what they should, a row that is listed after a round, and
    -- whose reset lies more than the grace period in the past, makes the next delay zero, whether
    -- or not the round synced it.
    pub past_reset_spins :
        (rows fresh : List T) (now later : Time) (interval started : ℕ) (row : T)
        → In row fresh
        → quota_reset_refresh_due (q.reset_at row) later ≡ true
        → next_delay q
            (sync_due_rows q (some rows) now interval started (some fresh)).0
            later
            interval
          ≡ 0
    unfolding sync_due_rows
    past_reset_spins rows fresh now later interval started row m r =
        let begun = take started (prioritized_due_rows q rows now interval) in
        let attempted = mark_attempted q now begun [] in
        let there = In-with_attempted fresh attempted row m in
        let late : quota_reset_refresh_due (q.reset_at (with_attempted_row q attempted row)) later
            ≡ true =
          rw (reset_at-with_attempted_row attempted row) r in
        next_delay_due q (with_attempted_sync_times q fresh attempted) later interval
          (In→any (is_due q interval later) _ _ there (rw late))
