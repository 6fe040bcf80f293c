-- ===== src/Logs/ErrorRates/Complete.antt =====
-- With no zero since, breaking off the loop loses nothing: every row that should count is counted.
use mathlib.Core.List.{reverse, reverse-cons}
use meow_cli.Common.{
  ℕ, suc, ◌+◌, ◌≤◌, ◌≡◌, ◌≢◌, ◌∙◌, sym, ap, refl, Bool, false, List, [], ◌∷◌, ◌++◌, some, arith,
  ltb, ◌==◌, ◌&&◌, ◌||◌, not, All, All-append, All-mono, Bool-cases, Option-cases, if◌then◌else◌,
  inl, inr, count_of,
}
use meow_cli.Common.Text.{Text, text_eq, text_eq_iff}
use meow_cli.Common.Table.{Table, lookup, insert, lookup-insert}
use meow_cli.Scheduling.Times.{Time}
use meow_cli.Logs.Rows.{LogRow}
use meow_cli.Logs.Store.{Store, Limits, snapshot_rows}
use meow_cli.Logs.Store.Retention.{visible}
use meow_cli.Logs.Store.Invariant.{IsOrdered, snapshot_rows-IsOrdered}
use meow_cli.Logs.ErrorRates.{
  ErrorRateSince, is_log_error, since_step, since_loop, count_since, is_of_tier, is_since,
  counters_of, count_row, count_loop, count_errors,
}

-- Every since of the table is at or after the instant, and neither is zero.
abbrev IsOldest : Time → Table Time → Type 0
IsOldest oldest by_id =
    (id : Text) (since : Time)
    → lookup id by_id ≡ some since
    → (since ≢ 0) × (oldest ≢ 0) × (oldest ≤ since)

module _ {W : Type 0} where
  -- The row counts for the credential.
  abbrev pub is_counted : Text → Text → Table Time → Text → LogRow W → Bool
  is_counted handler tier by_id id row =
      text_eq row.credential_id id && is_of_tier handler tier row && is_since by_id row

  -- The specification of the counters of a credential: all its rows that count, and the errors.
  abbrev pub tally_of : Text → Text → Table Time → Text → List (LogRow W) → ℕ × ℕ
  tally_of handler tier by_id id rows = (
    count_of (is_counted handler tier by_id id) rows,
    count_of (λ row. is_counted handler tier by_id id row && is_log_error row.status_code) rows,
  )

  -- What counting a row adds for a credential.
  counters_of-count_row :
      (id : Text) (row : LogRow W) (counts : Table (ℕ × ℕ))
      → let c = counters_of id counts in
        let c' = counters_of id (count_row row counts) in
        (c'.0 ≡ (if text_eq row.credential_id id then suc c.0 else c.0))
        × (c'.1 ≡ (
            if text_eq row.credential_id id && is_log_error row.status_code then suc c.1 else c.1))
  unfolding count_row
  counters_of-count_row id row counts =
      let c = counters_of row.credential_id counts in
      let new : ℕ × ℕ = (suc c.0, if is_log_error row.status_code then suc c.1 else c.1) in
      let found = lookup-insert row.credential_id id new counts in
      elim (Bool-cases (text_eq row.credential_id id)) [
        | inl e ↦
            let same : row.credential_id ≡ id = (text_eq_iff row.credential_id id).0 e in
            let old : counters_of row.credential_id counts ≡ counters_of id counts =
              ap (λ k. counters_of k counts) same in
            let got : lookup id (insert row.credential_id new counts) ≡ some new = found ∙ rw e in
            rw e (rw (got, counters_of) (ground (arith, old)))
        | inr e ↦
            let got : lookup id (insert row.credential_id new counts) ≡ lookup id counts =
              found ∙ rw e in
            rw e (rw (got, counters_of) (refl, refl))
      ]

  -- Newest first.
  abbrev pub IsNewestFirst : List (LogRow W) → Type 0
  IsNewestFirst [] = Unit
  IsNewestFirst (row ∷ rows) = All (λ r. r.created_at ≤ row.created_at) rows × IsNewestFirst rows

  old_row :
      (by_id : Table Time) (oldest : Time) (row : LogRow W)
      → IsOldest oldest by_id
      → row.created_at ≤ oldest
      → is_since by_id row ≡ false
  unfolding is_since
  old_row by_id oldest row h k = elim (Option-cases (lookup row.credential_id by_id)) [
    | inl e ↦ rw (e, is_since)
    | inr (since, e) ↦ let bound = h row.credential_id since e in rw (e, is_since) (ground arith)
  ]

  old_rows :
      (handler tier : Text) (by_id : Table Time) (oldest : Time) (id : Text)
      (rows : List (LogRow W))
      → IsOldest oldest by_id
      → All (λ r. r.created_at ≤ oldest) rows
      → (count_of (is_counted handler tier by_id id) rows ≡ 0)
        × (count_of
              (λ row. is_counted handler tier by_id id row && is_log_error row.status_code)
              rows
            ≡ 0)
  old_rows handler tier by_id oldest id [] h k = (refl, refl)
  old_rows handler tier by_id oldest id (row ∷ rows) h k =
      let (none_left, no_error) = old_rows handler tier by_id oldest id rows h k.1 in
      let old = old_row by_id oldest row h k.0 in (ground arith, ground arith)

  count_loop-tally :
      (handler tier : Text) (by_id : Table Time) (oldest : Time) (id : Text)
      (rows : List (LogRow W)) (counts : Table (ℕ × ℕ))
      → IsOldest oldest by_id
      → IsNewestFirst rows
      → let c = counters_of id counts in
        let c' = counters_of id (count_loop handler tier by_id oldest rows counts) in
        let spec = tally_of handler tier by_id id rows in
        (c'.0 ≡ spec.0 + c.0) × (c'.1 ≡ spec.1 + c.1)
  unfolding count_loop
  count_loop-tally handler tier by_id oldest id [] counts h n = (omega arith, omega arith)
  count_loop-tally handler tier by_id oldest id (row ∷ rows) counts h n =
      elim (Bool-cases (not (oldest == 0) && not (ltb oldest row.created_at))) [
        | inl e ↦
            let past : row.created_at ≤ oldest = ground arith in
            let all =
              All-mono (λ r. r.created_at ≤ row.created_at) (λ r. r.created_at ≤ oldest) rows
                (λ r k. omega arith) n.0 in
            let (none_left, no_error) =
              old_rows handler tier by_id oldest id (row ∷ rows) h (past, all) in
            rw e (omega (arith, none_left), omega (arith, no_error))
        | inr e ↦ rw e (elim (Bool-cases (is_of_tier handler tier row && is_since by_id row)) [
          | inl k ↦
              let (one, two) =
                count_loop-tally handler tier by_id oldest id rows (count_row row counts) h n.1 in
              let (add, err) = counters_of-count_row id row counts in
              rw k (ground arith, ground arith)
          | inr k ↦
              let (one, two) = count_loop-tally handler tier by_id oldest id rows counts h n.1 in
              rw k (ground arith, ground arith)
        ])
      ]

abbrev older : Time → Time → Time
older since oldest = if oldest == 0 || ltb since oldest then since else oldest

insert-IsOldest :
    (key : Text) (since : Time) (by_id : Table Time) (oldest : Time)
    → since ≢ 0
    → IsOldest oldest by_id
    → IsOldest (older since oldest) (insert key since by_id)
insert-IsOldest key since by_id oldest nonzero h id found k =
    let got = sym (lookup-insert key id since by_id) ∙ k in
    elim (Bool-cases (text_eq key id)) [
      | inl e ↦ ground (arith, got, e, nonzero)
      | inr e ↦
          let old : lookup id by_id ≡ some found = ground (arith, got, e) in
          let bound = h id found old in ground (arith, nonzero, bound)
    ]

since_step-IsOldest :
    (item : ErrorRateSince) (by_id : Table Time) (oldest : Time)
    → item.since ≢ 0
    → IsOldest oldest by_id
    → IsOldest (since_step item by_id oldest).1 (since_step item by_id oldest).0
unfolding since_step
since_step-IsOldest item by_id oldest nonzero h =
    elim (Bool-cases (text_eq item.credential_id [])) [
      | inl e ↦ rw e h
      | inr e ↦
          let test : (item.since == 0) ≡ false = ground arith in
          rw (e, test) (insert-IsOldest item.credential_id item.since by_id oldest nonzero h)
    ]

both : {a b : ℕ × ℕ} → a.0 ≡ b.0 → a.1 ≡ b.1 → a ≡ b
both {a} {b} p q = cc

nothing-IsOldest : IsOldest 0 []
unfolding lookup
nothing-IsOldest id since k = cc

since_loop-IsOldest :
    (items : List ErrorRateSince) (acc : Table Time × Time)
    → All (λ item. item.since ≢ 0) items
    → IsOldest acc.1 acc.0
    → IsOldest (since_loop items acc).1 (since_loop items acc).0
unfolding since_loop
since_loop-IsOldest [] acc nonzero h = h
since_loop-IsOldest (item ∷ items) acc nonzero h =
    since_loop-IsOldest items (since_step item acc.0 acc.1) nonzero.1
      (since_step-IsOldest item acc.0 acc.1 nonzero.0 h)

module _ {W : Type 0} where
  IsNewestFirst-snoc :
      (rows : List (LogRow W)) (row : LogRow W)
      → IsNewestFirst rows
      → All (λ r. row.created_at ≤ r.created_at) rows
      → IsNewestFirst (rows ++ (row ∷ []))
  IsNewestFirst-snoc [] row h k = (tt, tt)
  IsNewestFirst-snoc (r ∷ rows) row h k =
      (All-append _ rows (row ∷ []) h.0 (k.0, tt), IsNewestFirst-snoc rows row h.1 k.1)

  All-reverse : (P : LogRow W → Type 0) (rows : List (LogRow W)) → All P rows → All P (reverse rows)
  All-reverse P [] h = tt
  All-reverse P (row ∷ rows) h =
      rw (reverse-cons row rows)
        (All-append P (reverse rows) (row ∷ []) (All-reverse P rows h.1) (h.0, tt))

  reverse-IsNewestFirst : (rows : List (LogRow W)) → IsOrdered rows → IsNewestFirst (reverse rows)
  reverse-IsNewestFirst [] h = tt
  reverse-IsNewestFirst (row ∷ rows) h = rw (reverse-cons row rows) (
      IsNewestFirst-snoc (reverse rows) row (reverse-IsNewestFirst rows h.1)
        (All-reverse _ rows h.0))

  count_of-snoc :
      (p : LogRow W → Bool) (rows : List (LogRow W)) (row : LogRow W)
      → count_of p (rows ++ (row ∷ [])) ≡ count_of p (row ∷ rows)
  count_of-snoc p [] row = refl
  count_of-snoc p (r ∷ rows) row = omega (arith, count_of-snoc p rows row)

  count_of-reverse :
      (p : LogRow W → Bool) (rows : List (LogRow W)) → count_of p (reverse rows) ≡ count_of p rows
  count_of-reverse p [] = refl
  count_of-reverse p (row ∷ rows) =
      rw (reverse-cons row rows, count_of-snoc p (reverse rows) row, count_of-reverse p rows)

  nothing_counted :
      (handler tier id : Text) (rows : List (LogRow W)) → tally_of handler tier [] id rows ≡ (0, 0)
  unfolding is_since lookup
  nothing_counted handler tier id [] = refl
  nothing_counted handler tier id (row ∷ rows) =
      let rest = nothing_counted handler tier id rows in
      both (ground (arith, ap (λ t. t.0) rest)) (ground (arith, ap (λ t. t.1) rest))

  count_since-tally :
      (now : Time) (limits : Limits) (handler tier : Text) (by_id : Table Time) (oldest : Time)
      (s : Store W) (id : Text)
      → IsOldest oldest by_id
      → IsOrdered (visible s)
      → counters_of id (count_since now limits handler tier by_id oldest s).1
        ≡ tally_of handler tier by_id id (snapshot_rows now limits s).1
  unfolding count_since lookup
  count_since-tally now limits handler tier [] oldest s id h k =
      sym (nothing_counted handler tier id (snapshot_rows now limits s).1)
  count_since-tally now limits handler tier (entry ∷ rest) oldest s id h k =
      let rows = (snapshot_rows now limits s).1 in
      let newest = reverse-IsNewestFirst rows (snapshot_rows-IsOrdered now limits s k) in
      let (one, two) =
        count_loop-tally handler tier (entry ∷ rest) oldest id (reverse rows) [] h newest in
      both (one ∙ omega arith ∙ count_of-reverse (is_counted handler tier (entry ∷ rest) id) rows) (
        two
        ∙ omega arith
        ∙ count_of-reverse
            (λ row. is_counted handler tier (entry ∷ rest) id row && is_log_error row.status_code)
            rows)

  -- Where no since is zero and the stored rows are in the order of their times, the two counters of
  -- a credential are the number of its rows in the snapshot that are of the handler and tier and
  -- younger than the since that the code keeps for it, and the number of errors among them.
  pub count_errors-tally :
      (now : Time) (limits : Limits) (handler tier : Text) (items : List ErrorRateSince)
      (s : Store W) (id : Text)
      → All (λ item. item.since ≢ 0) items
      → IsOrdered (visible s)
      → counters_of id (count_errors now limits handler tier items s).1
        ≡ tally_of handler tier (since_loop items ([], 0)).0 id (snapshot_rows now limits s).1
  unfolding count_errors
  count_errors-tally now limits handler tier items s id nonzero ordered =
      let found = since_loop items ([], 0) in
      count_since-tally now limits handler tier found.0 found.1 s id
        (since_loop-IsOldest items ([], 0) nonzero nothing-IsOldest) ordered
