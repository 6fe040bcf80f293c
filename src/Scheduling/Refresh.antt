-- ===== src/Scheduling/Refresh.antt =====
-- core/scheduling/score_refresh.go, RefreshRows, over an atomic pointer. A pointer is modelled with
-- the number of stores so far, since compare-and-swap compares addresses and every store brings a new
-- one. What other goroutines store between a load and the compare-and-swap is part of the input, a
-- list of stores for each attempt; after the last of the lists nobody interferes.
pub mod Linear
pub mod Kept
use meow_cli.Common.{
  ℕ, zero, suc, ◌+◌, ◌≤◌, ◌<◌, ◌≡◌, ◌∙◌, refl, Bool, true, false, List, [], ◌∷◌, ◌++◌, map, Option,
  none, some, arith, ◌==◌, if◌then◌else◌,
}

pub record Cell {ℓ} (S : Type ℓ) : Type ℓ where
  pub stores : ℕ
  pub value : Option S

module _ {ℓ} {S : Type ℓ} where
  unfoldable pub store : Cell S → S → Cell S
  store c s = record { stores = suc c.stores; value = some s }

  unfoldable pub store_all : Cell S → List S → Cell S
  unfolding store
  store_all c [] = c
  store_all c (s ∷ ss) = store_all (store c s) ss

  unfoldable pub compare_and_swap : Cell S → Cell S → S → Cell S × Bool
  unfolding store
  compare_and_swap c seen s = if c.stores == seen.stores then (store c s, true) else (c, false)

  -- The loop: load, compute the new snapshot or give up, compare-and-swap, and start again if that
  -- fails. The result says whether a snapshot was stored.
  unfoldable pub update_loop : (S → Option S) → Cell S → List (List S) → Cell S × Bool
  update_loop f c [] = elim c.value [
    | none ↦ (c, false)
    | some snap ↦ elim (f snap) [ none ↦ (c, false) | some new ↦ compare_and_swap c c new ]
  ]
  update_loop f c (ss ∷ rounds) = elim c.value [
    | none ↦ (c, false)
    | some snap ↦ elim (f snap) [
      | none ↦ (c, false)
      | some new ↦
          let (c', done) = compare_and_swap (store_all c ss) c new in
          elim done [ true ↦ (c', true) | false ↦ update_loop f c' rounds ]
    ]
  ]

  -- What the loop is for: one update of the value at hand, with nothing in between.
  unfoldable pub update : (S → Option S) → Cell S → Cell S × Bool
  update f c = elim c.value [
    | none ↦ (c, false)
    | some snap ↦ elim (f snap) [ none ↦ (c, false) | some new ↦ (store c new, true) ]
  ]

module _ {ℓ κ} {S : Type ℓ} {T : Type κ} where
  unfoldable pub refresh_rows :
      (S → List T) → (List T → S) → (T → T) → Cell S → List (List S) → Cell S × Bool
  unfolding update_loop
  refresh_rows clone_rows build_snapshot refresh_row =
      update_loop λ snap. some (build_snapshot (map refresh_row (clone_rows snap)))

-- The stores that land while the loop keeps failing: those of the rounds up to the first quiet one,
-- or up to a snapshot on which the update gives up.
unfoldable pub interference {ℓ} : {S : Type ℓ} → (S → Option S) → Cell S → List (List S) → List S
interference f c [] = []
interference f c ([] ∷ rounds) = []
interference f c ((s ∷ ss) ∷ rounds) = elim c.value [
  | none ↦ []
  | some snap ↦ elim (f snap) [
    | none ↦ []
    | some new ↦ (s ∷ ss) ++ interference f (store_all c (s ∷ ss)) rounds
  ]
]
