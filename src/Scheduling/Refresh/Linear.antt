-- ===== src/Scheduling/Refresh/Linear.antt =====
-- The retry loop is one atomic update: whatever lands between its loads and its compare-and-swaps
-- is kept, and the new snapshot is computed once, from the value that it replaces.
use mathlib.Core.Option.{some-injective}
use meow_cli.Common.{
  ℕ, suc, ◌≤◌, ◌≡◌, ◌∙◌, sym, inl, inr, refl, Bool, true, false, List, [], ◌∷◌, ◌++◌, map, Option,
  none, some, arith, Option-cases, ap,
}
use meow_cli.Scheduling.Refresh.{
  Cell, store, store_all, compare_and_swap, update_loop, update, refresh_rows, interference,
}

module _ {ℓ} {S : Type ℓ} where
  le-stores-store_all : (c : Cell S) (ss : List S) → c.stores ≤ (store_all c ss).stores
  unfolding store_all
  le-stores-store_all c [] = omega arith
  le-stores-store_all c (s ∷ ss) = omega (arith, le-stores-store_all (store c s) ss)

  store_all-append :
      (c : Cell S) (xs ys : List S) → store_all c (xs ++ ys) ≡ store_all (store_all c xs) ys
  unfolding store_all
  store_all-append c [] ys = refl
  store_all-append c (x ∷ xs) ys = store_all-append (store c x) xs ys

  -- A compare-and-swap fails if anything was stored since the load, and else succeeds.
  compare_and_swap-stale :
      (c : Cell S) (s new : S) (ss : List S)
      → compare_and_swap (store_all c (s ∷ ss)) c new ≡ (store_all c (s ∷ ss), false)
  unfolding compare_and_swap store_all
  compare_and_swap-stale c s new ss =
      let newer : suc c.stores ≤ (store_all (store c s) ss).stores =
        le-stores-store_all (store c s) ss in
      ground arith

  compare_and_swap-fresh : (c : Cell S) (new : S) → compare_and_swap c c new ≡ (store c new, true)
  unfolding compare_and_swap
  compare_and_swap-fresh c new = ground arith

  abbrev cell : ℕ → Option S → Cell S
  cell n v = record { stores = n; value = v }

  update_loop-stale :
      (f : S → Option S) (n : ℕ) (snap new s : S) (ss : List S) (rounds : List (List S))
      → f snap ≡ some new
      → update_loop f (cell n (some snap)) ((s ∷ ss) ∷ rounds)
        ≡ update_loop f (store_all (cell n (some snap)) (s ∷ ss)) rounds
  unfolding update_loop
  update_loop-stale f n snap new s ss rounds g =
      let stale = compare_and_swap-stale (cell n (some snap)) s new ss in
      rw (g, stale) (ap (λ (z : Cell S × Bool). update_loop f z.0 rounds) stale)

  interference-stale :
      (f : S → Option S) (n : ℕ) (snap new s : S) (ss : List S) (rounds : List (List S))
      → f snap ≡ some new
      → interference f (cell n (some snap)) ((s ∷ ss) ∷ rounds)
        ≡ (s ∷ ss) ++ interference f (store_all (cell n (some snap)) (s ∷ ss)) rounds
  unfolding interference
  interference-stale f n snap new s ss rounds g = rw g

  -- Where the update gives up, nothing is stored and nothing interferes.
  update_loop-none :
      (f : S → Option S) (n : ℕ) (snap : S) (rounds : List (List S))
      → f snap ≡ none
      → update_loop f (cell n (some snap)) rounds ≡ (cell n (some snap), false)
  unfolding update_loop
  update_loop-none f n snap [] g = rw g
  update_loop-none f n snap (ss ∷ rounds) g = rw g

  interference-none :
      (f : S → Option S) (n : ℕ) (snap : S) (rounds : List (List S))
      → f snap ≡ none
      → interference f (cell n (some snap)) rounds ≡ []
  unfolding interference
  interference-none f n snap [] g = refl
  interference-none f n snap ([] ∷ rounds) g = refl
  interference-none f n snap ((s ∷ ss) ∷ rounds) g = rw g

  update-some :
      (f : S → Option S) (n : ℕ) (snap : S)
      → update f (cell n (some snap)) ≡ (elim (f snap) [
        | none ↦ (cell n (some snap), false)
        | some new ↦ (store (cell n (some snap)) new, true)
      ])
  unfolding update
  update-some f n snap = refl

  store_all-nil : (c : Cell S) → store_all c [] ≡ c
  unfolding store_all
  store_all-nil c = refl

  update_loop-quiet :
      (f : S → Option S) (n : ℕ) (snap new : S) (rounds : List (List S))
      → f snap ≡ some new
      → update_loop f (cell n (some snap)) ([] ∷ rounds) ≡ (store (cell n (some snap)) new, true)
  unfolding update_loop store_all
  update_loop-quiet f n snap new rounds g =
      let fresh = compare_and_swap-fresh (cell n (some snap)) new in
      rw (g, fresh) (ap (λ (z : Cell S × Bool). (z.0, true)) fresh)

  update_loop-last :
      (f : S → Option S) (n : ℕ) (snap new : S)
      → f snap ≡ some new
      → update_loop f (cell n (some snap)) [] ≡ (store (cell n (some snap)) new, true)
  unfolding update_loop
  update_loop-last f n snap new g = rw g (compare_and_swap-fresh (cell n (some snap)) new)

  update_loop-cell :
      (f : S → Option S) (n : ℕ) (v : Option S) (rounds : List (List S))
      → update_loop f (cell n v) rounds
        ≡ update f (store_all (cell n v) (interference f (cell n v) rounds))
  update_loop-cell f n none [] = unfold update_loop update interference store_all in refl
  update_loop-cell f n none ([] ∷ rounds) = unfold update_loop update interference store_all in refl
  update_loop-cell f n none ((s ∷ ss) ∷ rounds) =
      unfold update_loop update interference store_all in refl
  update_loop-cell f n (some snap) [] = elim (Option-cases (f snap)) [
    | inl g ↦ rw (
      update_loop-none f n snap [] g,
      interference-none f n snap [] g,
      store_all-nil,
      update-some,
      g,
    )
    | inr (new, g) ↦
        rw (update_loop-last f n snap new g) (unfold interference store_all update in rw g)
  ]
  update_loop-cell f n (some snap) ([] ∷ rounds) = elim (Option-cases (f snap)) [
    | inl g ↦ rw (
      update_loop-none f n snap ([] ∷ rounds) g,
      interference-none f n snap ([] ∷ rounds) g,
      store_all-nil,
      update-some,
      g,
    )
    | inr (new, g) ↦
        rw (update_loop-quiet f n snap new rounds g) (unfold interference store_all update in rw g)
  ]
  update_loop-cell f n (some snap) ((s ∷ ss) ∷ rounds) =
      let c = cell n (some snap) in
      let c' = store_all c (s ∷ ss) in
      elim (Option-cases (f snap)) [
        | inl g ↦ rw (
          update_loop-none f n snap ((s ∷ ss) ∷ rounds) g,
          interference-none f n snap ((s ∷ ss) ∷ rounds) g,
          store_all-nil,
          update-some,
          g,
        )
        | inr (new, g) ↦
            rw
              (
                update_loop-stale f n snap new s ss rounds g,
                interference-stale f n snap new s ss rounds g,
              )
              (update_loop-cell f c'.stores c'.value rounds
                ∙ ap (update f) (sym (store_all-append c (s ∷ ss) (interference f c' rounds))))
      ]

  -- For every interleaving of other goroutines' stores, the load, compute and compare-and-swap loop
  -- ends in the state and with the answer of one update made after the stores that interfered with
  -- it.
  pub update_loop-update :
      (f : S → Option S) (c : Cell S) (rounds : List (List S))
      → update_loop f c rounds ≡ update f (store_all c (interference f c rounds))
  update_loop-update f c rounds = update_loop-cell f c.stores c.value rounds

module _ {ℓ κ} {S : Type ℓ} {T : Type κ} where
  -- Where there is a snapshot when the interference ends, RefreshRows stores the rebuilt image of
  -- that snapshot and ends.
  pub refresh_rows_lem :
      (clone_rows : S → List T) (build_snapshot : List T → S) (refresh_row : T → T) (c : Cell S)
      (rounds : List (List S)) (snap : S)
      → let rebuild = λ (s : S). some (build_snapshot (map refresh_row (clone_rows s))) in
        let before = store_all c (interference rebuild c rounds) in
        before.value ≡ some snap
        → refresh_rows clone_rows build_snapshot refresh_row c rounds
          ≡ (store before (build_snapshot (map refresh_row (clone_rows snap))), true)
  unfolding refresh_rows update
  refresh_rows_lem clone_rows build_snapshot refresh_row c rounds snap e =
      let rebuild = λ (s : S). some (build_snapshot (map refresh_row (clone_rows s))) in
      let before = store_all c (interference rebuild c rounds) in
      update_loop-update rebuild c rounds ∙ done before.stores before.value e
    where
      done :
          (n : ℕ) (v : Option S)
          → v ≡ some snap
          → update
              (λ (s : S). some (build_snapshot (map refresh_row (clone_rows s))))
              (record { stores = n; value = v })
            ≡ (
              store
                  (record { stores = n; value = v })
                  (build_snapshot (map refresh_row (clone_rows snap))),
              true,
            )
      done n none e = cc
      done n (some s) e =
          ap
            (λ z. (store (cell n (some s)) (build_snapshot (map refresh_row (clone_rows z))), true))
            (some-injective s snap e)
