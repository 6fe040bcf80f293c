-- ===== src/Common/Table.antt =====
-- A Go map with string keys, as an association list. Iteration order is never observed: the code
-- ranges over a map only to test for a member or to delete by a test on the key or the value.
use mathlib.Core.Path.{◌≡◌, refl}
use mathlib.Core.Bool.{Bool}
use mathlib.Core.List.{List, [], ◌∷◌}
use mathlib.Core.Option.{Option, none, some}
use native.Mathlib.Omega.{arith}
use meow_cli.Common.Tests.{if◌then◌else◌}
use meow_cli.Common.Text.{Text, text_eq, text_eq_iff}

abbrev pub Table {ℓ} : Type ℓ → Type ℓ
Table V = List (Text × V)

module _ {ℓ} {V : Type ℓ} where
  unfoldable pub lookup : Text → Table V → Option V
  lookup k [] = none
  lookup k ((j, v) ∷ m) = if text_eq j k then some v else lookup k m

  unfoldable pub insert : Text → V → Table V → Table V
  insert k v [] = (k, v) ∷ []
  insert k v ((j, w) ∷ m) = if text_eq j k then (k, v) ∷ m else (j, w) ∷ insert k v m

  -- `for key, v := range m { if drop(key, v) { delete(m, key) } }`
  unfoldable pub discard : (Text → V → Bool) → Table V → Table V
  discard gone [] = []
  discard gone ((j, v) ∷ m) = if gone j v then discard gone m else (j, v) ∷ discard gone m

  unfoldable pub delete : Text → Table V → Table V
  unfolding discard
  delete k = discard λ j _. text_eq j k

  pub lookup-insert :
      (k j : Text) (v : V) (m : Table V)
      → lookup j (insert k v m) ≡ (if text_eq k j then some v else lookup j m)
  unfolding lookup insert
  lookup-insert k j v [] = refl
  lookup-insert k j v ((i, w) ∷ m) =
      ground (arith, text_eq_iff k j, text_eq_iff i k, text_eq_iff i j, lookup-insert k j v m)

  pub lookup-delete :
      (k j : Text) (m : Table V)
      → lookup j (delete k m) ≡ (if text_eq k j then none else lookup j m)
  unfolding lookup delete
  lookup-delete k j [] = ground arith
  lookup-delete k j ((i, w) ∷ m) =
      ground (arith, text_eq_iff k j, text_eq_iff i k, text_eq_iff i j, lookup-delete k j m)
