-- ===== src/Affinity/Trie/Wellformed.antt =====
-- The invariant of a radix trie: the children of a node begin with different elements, and every node
-- caches the nearest terminal behind it.
use mathlib.Core.Option.{none-ne-some}
use mathlib.Core.List.{append_assoc}
use meow_cli.Common.{
  ℕ, suc, ◌+◌, ◌≡◌, ◌≢◌, ◌∙◌, ◌⊎◌, inl, inr, sym, ap, refl, Bool, true, false, List, [], ◌∷◌, ◌++◌,
  Option, none, some, arith, length, length-append, Option-cases,
}
use meow_cli.Affinity.Edges.{strip, strip_self, strip-some}
use meow_cli.Affinity.Trie.{Mark, Terminal, Children, no_child, child, Root, climb, propagate}
use meow_cli.Affinity.Trie.Find.{find, bound, behind, find-child, find-only_child, find-sibling}
use meow_cli.Affinity.Trie.Nearest.{IsNearest, IsOlder, HasShorter}

-- No child begins with the element.
abbrev pub Lacks : ℕ → Children → Type 0
Lacks x no_child = Unit
Lacks x (child first rest mark nearest children siblings) = (first ≢ x) × Lacks x siblings

-- The children of a node whose key is p.
abbrev pub IsTrie : List ℕ → Children → Type 0
IsTrie p no_child = Unit
IsTrie p (child first rest mark nearest children siblings) =
    Lacks first siblings
    × (IsNearest (bound mark children) (p ++ (first ∷ rest)) nearest
        × ((nearest ≢ none) × (IsTrie (p ++ (first ∷ rest)) children × IsTrie p siblings)))

abbrev pub IsRoot : Root → Type 0
IsRoot root = IsNearest (bound root.mark root.children) [] root.nearest × IsTrie [] root.children

pub find-Lacks : (x : ℕ) (k : List ℕ) (c : Children) → Lacks x c → find c x k ≡ none
unfolding find
find-Lacks x k no_child h = refl
find-Lacks x k (child first rest mark nearest children siblings) h =
    find-sibling first x rest mark nearest children siblings k h.0 ∙ find-Lacks x k siblings h.1

pub climb-ne-none : (t : Terminal) (n : Option Terminal) → (climb t n).0 ≢ none
unfolding climb
climb-ne-none t none h = none-ne-some t (sym h)
climb-ne-none t (some n) h = ground arith

pub propagate-ne-none :
    (up : Bool) (t : Terminal) (n : Option Terminal) → n ≢ none → (propagate up t n).0 ≢ none
propagate-ne-none true t n h = climb-ne-none t n
propagate-ne-none false t n h = h

module _ (first : ℕ) (rest : List ℕ) (mark : Option Mark) (nearest : Option Terminal)
    (children siblings : Children) where
  -- A mark behind a node is a mark behind its parent.
  pub find-lifted :
      (k : List ℕ)
      → find (child first rest mark nearest children siblings) first (rest ++ k)
        ≡ bound mark children k
  find-lifted k =
      find-child first rest mark nearest children siblings (rest ++ k)
      ∙ ap (behind mark children) (strip_self rest k)

  pub HasShorter-lifted :
      (n : ℕ)
      → HasShorter (bound mark children) n
      → HasShorter
          (bound none (child first rest mark nearest children siblings))
          (suc (length rest + n))
  unfolding bound
  HasShorter-lifted n (k, (m, (found, less))) =
      (first ∷ (rest ++ k), (m, (find-lifted k ∙ found, omega (arith, length-append rest k, less))))

  pub IsOlder-below :
      (n : ℕ)
      → IsOlder (bound none (child first rest mark nearest children siblings)) n
      → IsOlder (bound mark children) n
  unfolding bound
  IsOlder-below n older k m found = older (first ∷ (rest ++ k)) m (find-lifted k ∙ found)

  -- A mark behind the child alone is one behind its node.
  pub found-behind :
      (k : List ℕ) (m : Mark)
      → bound none (child first rest mark nearest children no_child) k ≡ some m
      → (l : List ℕ) × ((k ≡ first ∷ (rest ++ l)) × (bound mark children l ≡ some m))
  unfolding bound
  found-behind [] m e = absurd (none-ne-some m e)
  found-behind (z ∷ k) m e =
      let there = sym (find-only_child first rest mark nearest children z k) ∙ e in
      elim (Option-cases (strip (first ∷ rest) (z ∷ k))) [
        | inl s ↦ absurd (none-ne-some m (sym (ap (behind mark children) s) ∙ there))
        | inr (l, s) ↦
            (l, (strip-some (first ∷ rest) (z ∷ k) l s, sym (ap (behind mark children) s) ∙ there))
      ]

  find-lifted_alone :
      (k : List ℕ)
      → find (child first rest mark nearest children no_child) first (rest ++ k)
        ≡ bound mark children k
  find-lifted_alone k =
      find-child first rest mark nearest children no_child (rest ++ k)
      ∙ ap (behind mark children) (strip_self rest k)

  -- The nearest terminal of the only child is the nearest one.
  pub IsNearest-only_child :
      (p : List ℕ)
      → IsNearest (bound mark children) (p ++ (first ∷ rest)) nearest
      → IsNearest (bound none (child first rest mark nearest children no_child)) p nearest
  IsNearest-only_child p h = of nearest h
    where
      nothing :
          ((l : List ℕ) → bound mark children l ≡ none)
          → (k : List ℕ)
          → (bound none (child first rest mark nearest children no_child) k ≡ none)
            ⊎ ((m : Mark) × (bound none (child first rest mark nearest children no_child) k
                  ≡ some m))
          → bound none (child first rest mark nearest children no_child) k ≡ none
      nothing empty k (inl e) = e
      nothing empty k (inr (m, e)) =
          let (l, (same, found)) = found-behind k m e in
          absurd (none-ne-some m (sym (empty l) ∙ found))

      of :
          (n : Option Terminal)
          → IsNearest (bound mark children) (p ++ (first ∷ rest)) n
          → IsNearest (bound none (child first rest mark nearest children no_child)) p n
      of none empty = λ k.
          nothing empty k
            (Option-cases (bound none (child first rest mark nearest children no_child) k))
      of (some t) ((k0, named, found), before) = (
        (
          first ∷ (rest ++ k0),
          named ∙ append_assoc p (first ∷ rest) k0,
          unfold bound in (find-lifted_alone k0 ∙ found),
        ),
        λ k m e.
            let (l, (same, there)) = found-behind k m e in
            let size = ap length same in
            omega
              (arith, before l m there, size, length-append p (first ∷ rest), length-append rest l),
      )
