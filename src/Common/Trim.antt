-- ===== src/Common/Trim.antt =====
-- strings.TrimSpace twice is strings.TrimSpace.
use mathlib.Core.Path.{◌≡◌, refl, sym, ap, ◌∙◌, subst}
use mathlib.Core.Bool.{false}
use mathlib.Core.List.{[], ◌∷◌, ◌++◌, reverse, reverse-append, reverse-reverse}
use mathlib.Core.Logic.{inl, inr}
use meow_cli.Common.Tests.{Bool-cases}
use meow_cli.Common.Text.{Text}
use meow_cli.Common.Strings.{is_space, trim_left, trim_space}

-- The text does not begin with white space.
abbrev IsInked : Text → Type 0
IsInked [] = Unit
IsInked (c ∷ s) = is_space c ≡ false

trim_left-IsInked : (s : Text) → IsInked (trim_left s)
unfolding trim_left
trim_left-IsInked [] = tt
trim_left-IsInked (c ∷ s) = elim (Bool-cases (is_space c)) [
  | inl e ↦ rw e (trim_left-IsInked s)
  | inr e ↦ rw e e
]

trim_left_inked : (s : Text) → IsInked s → trim_left s ≡ s
unfolding trim_left
trim_left_inked [] h = refl
trim_left_inked (c ∷ s) h = rw h

IsInked-front : (s t : Text) → IsInked (s ++ t) → IsInked s
IsInked-front [] t h = tt
IsInked-front (c ∷ s) t h = h

-- What was trimmed stands before the rest.
trim_left-suffix : (s : Text) → (front : Text) × (s ≡ front ++ trim_left s)
unfolding trim_left
trim_left-suffix [] = ([], refl)
trim_left-suffix (c ∷ s) = elim (Bool-cases (is_space c)) [
  | inl e ↦ let (front, q) = trim_left-suffix s in (c ∷ front, rw e (ap (◌∷◌ c) q))
  | inr e ↦ ([], rw e)
]

pub trim_space-trim_space : (s : Text) → trim_space (trim_space s) ≡ trim_space s
unfolding trim_space
trim_space-trim_space s =
    let t = trim_left s in
    let u = trim_left (reverse t) in
    let (front, q) = trim_left-suffix (reverse t) in
    let whole : t ≡ reverse u ++ reverse front =
      sym (reverse-reverse t) ∙ ap reverse q ∙ reverse-append front u in
    let inked : IsInked (reverse u) =
      IsInked-front (reverse u) (reverse front) (subst IsInked whole (trim_left-IsInked s)) in
    rw (
      trim_left_inked (reverse u) inked,
      reverse-reverse u,
      trim_left_inked u (trim_left-IsInked (reverse t)),
    )
