-- ===== src/Affinity/Edges.antt =====
-- internal/bridge/affinity_cache.go: commonElementPrefix, and the slices that are taken at it.
use mathlib.Core.Option.{some-injective, none-ne-some}
use meow_cli.Common.{
  ℕ, suc, ◌≡◌, ◌≢◌, inl, inr, ap, refl, List, [], ◌∷◌, ◌++◌, Option, none, some, arith, take, drop,
  ◌==◌, Bool-cases, if◌then◌else◌,
}

unfoldable pub common_element_prefix : List ℕ → List ℕ → ℕ
common_element_prefix [] right = 0
common_element_prefix (a ∷ left) [] = 0
common_element_prefix (a ∷ left) (b ∷ right) =
    let rest = common_element_prefix left right in if a == b then suc rest else 0

-- The common prefix, and what is left of either side.
unfoldable pub fork : List ℕ → List ℕ → List ℕ × (List ℕ × List ℕ)
fork [] right = ([], ([], right))
fork (a ∷ left) [] = ([], (a ∷ left, []))
fork (a ∷ left) (b ∷ right) =
    let (p, (i, j)) = fork left right in
    if a == b then (a ∷ p, (i, j)) else ([], (a ∷ left, b ∷ right))

pub fork_lem :
    (left right : List ℕ)
    → let c = common_element_prefix left right in
      fork left right ≡ (take c left, (drop c left, drop c right))
unfolding fork common_element_prefix
fork_lem [] right = refl
fork_lem (a ∷ left) [] = refl
fork_lem (a ∷ left) (b ∷ right) = elim (Bool-cases (a == b)) [
  | inl e ↦ rw e (rw (fork_lem left right) refl)
  | inr e ↦ rw e
]

pub fork-append :
    (left right : List ℕ) → let (p, (i, j)) = fork left right in (left ≡ p ++ i) × (right ≡ p ++ j)
unfolding fork
fork-append [] right = (refl, refl)
fork-append (a ∷ left) [] = (refl, refl)
fork-append (a ∷ left) (b ∷ right) = elim (Bool-cases (a == b)) [
  | inl e ↦
      let same : a ≡ b = ground arith in
      let (l, r) = fork-append left right in rw e (ap (◌∷◌ a) l, rw (← same) (ap (◌∷◌ a) r))
  | inr e ↦ rw e (refl, refl)
]

-- The heads of the two rests differ.
abbrev pub IsApart : List ℕ → List ℕ → Type 0
IsApart [] j = Unit
IsApart (a ∷ i) [] = Unit
IsApart (a ∷ i) (b ∷ j) = a ≢ b

pub fork-IsApart : (left right : List ℕ) → let (p, (i, j)) = fork left right in IsApart i j
unfolding fork
fork-IsApart [] right = tt
fork-IsApart (a ∷ left) [] = tt
fork-IsApart (a ∷ left) (b ∷ right) = elim (Bool-cases (a == b)) [
  | inl e ↦ rw e (fork-IsApart left right)
  | inr e ↦ let differ : a ≢ b = ground arith in rw e differ
]

-- A key behind an edge.
unfoldable pub strip : List ℕ → List ℕ → Option (List ℕ)
strip [] k = some k
strip (a ∷ edge) [] = none
strip (a ∷ edge) (b ∷ k) = let rest = strip edge k in if a == b then rest else none

pub strip_self : (edge k : List ℕ) → strip edge (edge ++ k) ≡ some k
unfolding strip
strip_self [] k = refl
strip_self (a ∷ edge) k = ground (arith, strip_self edge k)

-- The second edge is behind the first.
abbrev pub strip_next : List ℕ → Option (List ℕ) → Option (List ℕ)
strip_next edge none = none
strip_next edge (some k) = strip edge k

pub strip-append : (edge next k : List ℕ) → strip (edge ++ next) k ≡ strip_next next (strip edge k)
unfolding strip
strip-append [] next k = refl
strip-append (a ∷ edge) next [] = refl
strip-append (a ∷ edge) next (b ∷ k) = elim (Bool-cases (a == b)) [
  | inl e ↦ rw e (strip-append edge next k)
  | inr e ↦ rw e
]

pub strip-some : (edge k rest : List ℕ) → strip edge k ≡ some rest → k ≡ edge ++ rest
unfolding strip
strip-some [] k rest h = some-injective k rest h
strip-some (a ∷ edge) [] rest h = absurd (none-ne-some rest h)
strip-some (a ∷ edge) (b ∷ k) rest h = elim (Bool-cases (a == b)) [
  | inl e ↦
      let same : a ≡ b = ground arith in rw same (ap (◌∷◌ b) (strip-some edge k rest (rw e at h)))
  | inr e ↦ absurd (none-ne-some rest (rw e at h))
]
