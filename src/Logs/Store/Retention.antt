-- ===== src/Logs/Store/Retention.antt =====
-- The store refines a queue of rows: inserting drops the expired rows from the front, appends the new
-- one and keeps the last rows up to the limit.
use meow_cli.Common.{
  ℕ, ◌-◌, ◌*◌, ◌≤◌, ◌≡◌, ◌∙◌, sym, ap, refl, Bool, false, List, [], ◌∷◌, ◌++◌, arith, ltb, leb,
  ◌==◌, length, drop, drop-drop, drop-length, length-drop, drop-append, Bool-cases, ◌&&◌,
  if◌then◌else◌, leb→le, inl, inr,
}
use meow_cli.Common.Text.{Text}
use meow_cli.Scheduling.Times.{Time}
use meow_cli.Logs.Rows.{LogRow, InsertLogParams}
use meow_cli.Logs.Store.{
  Store, Limits, max_rows, is_expired, expired_count, prune_locked, trim_locked, compact_locked,
  log_row, insert_log, needs_prune, snapshot_rows, append_row,
}

module _ {W : Type 0} where
  -- The retained rows, oldest first.
  abbrev pub visible : Store W → List (LogRow W)
  visible s = drop s.head s.rows

  -- The specification: the rows behind the expired ones in front, and the last n rows.
  unfoldable pub live : Time → ℕ → List (LogRow W) → List (LogRow W)
  live now retention [] = []
  live now retention (row ∷ rows) =
      if is_expired now retention row then live now retention rows else row ∷ rows

  abbrev pub retained : Time → Limits → List (LogRow W) → List (LogRow W)
  retained now limits rows = if limits.retention == 0 then [] else live now limits.retention rows

  abbrev pub last_rows : ℕ → List (LogRow W) → List (LogRow W)
  last_rows n rows = drop (length rows - n) rows

  drop-expired_count :
      (now : Time) (retention : ℕ) (rows : List (LogRow W))
      → drop (expired_count now retention rows) rows ≡ live now retention rows
  unfolding expired_count live
  drop-expired_count now retention [] = refl
  drop-expired_count now retention (row ∷ rows) = elim (Bool-cases (is_expired now retention row)) [
    | inl e ↦ rw (e, drop-expired_count now retention rows)
    | inr e ↦ rw e
  ]

  live-nil : (now : Time) (retention : ℕ) → live now retention [] ≡ []
  unfolding live
  live-nil now retention = refl

  visible-prune_locked :
      (now : Time) (limits : Limits) (s : Store W)
      → visible (prune_locked now limits s) ≡ retained now limits (visible s)
  unfolding prune_locked
  visible-prune_locked now limits s = elim (Bool-cases (leb (length s.rows) s.head)) [
    | inl e ↦
        let gone = drop-length s.head s.rows (leb→le _ _ e) in
        rw e (ground (arith, gone, live-nil now limits.retention))
    | inr e ↦ elim (Bool-cases (limits.retention == 0)) [
      | inl z ↦ rw (e, z)
      | inr z ↦
          let gone = expired_count now limits.retention (visible s) in
          rw (e, z)
            (sym (drop-drop gone s.head s.rows)
              ∙ drop-expired_count now limits.retention (visible s))
    ]
  ]

  visible-compact_locked : (s : Store W) → visible (compact_locked s) ≡ visible s
  unfolding compact_locked
  visible-compact_locked s = elim (Bool-cases (s.head == 0)) [
    | inl z ↦ rw z
    | inr z ↦ elim (Bool-cases (leb (length s.rows) s.head)) [
      | inl e ↦ simp (z, e) (sym (drop-length s.head s.rows (leb→le _ _ e)))
      | inr e ↦ elim (Bool-cases (ltb s.head 1024 && ltb (s.head * 2) (length s.rows))) [
        | inl k ↦ rw (z, e, k)
        | inr k ↦ rw (z, e, k)
      ]
    ]
  ]

  visible-trim_locked :
      (limits : Limits) (s : Store W)
      → visible (trim_locked limits s) ≡ last_rows (max_rows limits) (visible s)
  unfolding trim_locked
  visible-trim_locked limits s =
      let most = max_rows limits in
      let same : length (visible s) ≡ length s.rows - s.head = length-drop s.head s.rows in
      elim (Bool-cases (leb (length s.rows - s.head) most)) [
        | inl e ↦ let all : length (visible s) - most ≡ 0 = ground arith in rw (e, all)
        | inr e ↦ rw (e, same) (sym (drop-drop (length s.rows - s.head - most) s.head s.rows))
      ]

  expired_count-le :
      (now : Time) (retention : ℕ) (rows : List (LogRow W))
      → expired_count now retention rows ≤ length rows
  unfolding expired_count
  expired_count-le now retention [] = omega arith
  expired_count-le now retention (row ∷ rows) = ground (arith, expired_count-le now retention rows)

  pub prune_locked-within :
      (now : Time) (limits : Limits) (s : Store W)
      → (prune_locked now limits s).head ≤ length (prune_locked now limits s).rows
  unfolding prune_locked
  prune_locked-within now limits s =
      ground (
        arith,
        expired_count-le now limits.retention (drop s.head s.rows),
        length-drop s.head s.rows,
      )

  -- After an entry is stored, the retained rows are the unexpired old ones and the new one, up to
  -- the row limit, the newest kept.
  pub visible-insert_log :
      (json_valid : Text → Bool) (limits : Limits) (now : Time) (arg : InsertLogParams W)
      (s : Store W)
      → visible (insert_log json_valid false limits now arg s).0
        ≡ last_rows
            (max_rows limits)
            (retained now limits (visible s) ++ (log_row json_valid now arg ∷ []))
  unfolding insert_log
  visible-insert_log json_valid limits now arg s =
      let row = log_row json_valid now arg in
      let pruned = prune_locked now limits s in
      visible-compact_locked (trim_locked limits (append_row row pruned))
      ∙ visible-trim_locked limits (append_row row pruned)
      ∙ ap (last_rows (max_rows limits)) (
          drop-append pruned.head pruned.rows (row ∷ []) (prune_locked-within now limits s)
          ∙ ap (λ rows. rows ++ (row ∷ [])) (visible-prune_locked now limits s))

  -- Reading prunes in the same way, but only if the oldest row has expired; then the limit is applied
  -- too. Else the retained rows are returned as they are.
  pub snapshot_rows_lem :
      (now : Time) (limits : Limits) (s : Store W)
      → (snapshot_rows now limits s).1 ≡ (
          if needs_prune now limits s
          then last_rows (max_rows limits) (retained now limits (visible s))
          else visible s)
  unfolding snapshot_rows
  snapshot_rows_lem now limits s = elim (Bool-cases (needs_prune now limits s)) [
    | inl e ↦
        let pruned = prune_locked now limits s in
        rw e (
          visible-compact_locked (trim_locked limits pruned)
          ∙ visible-trim_locked limits pruned
          ∙ ap (last_rows (max_rows limits)) (visible-prune_locked now limits s))
    | inr e ↦ rw e
  ]
