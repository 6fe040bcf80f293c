-- ===== src/Affinity/Expiry/Kept.antt =====
-- expireTerminal keeps the trie well formed: what is recomputed is right, and nothing else has to be.
use mathlib.Core.Option.{none-ne-some}
use mathlib.Core.List.{append_assoc}
use meow_cli.Common.{
  ℕ, suc, ◌≡◌, ◌≢◌, ◌∙◌, ◌⊎◌, inl, inr, sym, ap, refl, subst, false, List, [], ◌∷◌, ◌++◌, Option,
  none, some, arith, length, length-append, Bool-cases,
}
use meow_cli.Common.Text.{text_eq, text_eq→eq}
use meow_cli.Affinity.Trie.{Mark, Terminal, Children, no_child, child}
use meow_cli.Affinity.Trie.Find.{find, bound}
use meow_cli.Affinity.Trie.Nearest.{IsNearest, HasShorter}
use meow_cli.Affinity.Trie.Wellformed.{Lacks, IsTrie, find-lifted, HasShorter-lifted}
use meow_cli.Affinity.Trie.Placed.{HasShorter-bound}
use meow_cli.Affinity.Expiry.{Progress, pruning, recomputing, settled, prune_node, raise}
use meow_cli.Affinity.Expiry.Best.{
  HasChild, IsNearest-best_child, best_child-ne-none, IsNearest-recompute_node,
  recompute_node-ne-none,
}
use meow_cli.Affinity.Expiry.Removed.{taken}

-- `g` is `f` without the mark of q.
abbrev pub IsTaken : (List ℕ → Option Mark) → (List ℕ → Option Mark) → List ℕ → Type 0
IsTaken f g q = (k : List ℕ) → g k ≡ taken (text_eq k q) (f k)

-- Either another key is shorter, or there was no mark to take.
abbrev pub IsHarmless : (List ℕ → Option Mark) → (List ℕ → Option Mark) → List ℕ → Type 0
IsHarmless f g q = HasShorter g (length q) ⊎ (f q ≡ none)

module _ (f g : List ℕ → Option Mark) (p q : List ℕ) (took : IsTaken f g q) where
  IsTaken-some : (k : List ℕ) (m : Mark) → g k ≡ some m → f k ≡ some m
  IsTaken-some k m e = elim (Bool-cases (text_eq k q)) [
    | inl h ↦ absurd (none-ne-some m (sym (took k ∙ rw h refl) ∙ e))
    | inr h ↦ sym (took k ∙ rw h refl) ∙ e
  ]

  IsTaken-none : (k : List ℕ) → f k ≡ none → g k ≡ none
  IsTaken-none k e = elim (Bool-cases (text_eq k q)) [
    | inl h ↦ took k ∙ rw h refl
    | inr h ↦ took k ∙ rw h e
  ]

  -- The key of a terminal that is not behind another key stays.
  pub IsNearest-taken : (n : Option Terminal) → IsNearest f p n → IsHarmless f g q → IsNearest g p n
  IsNearest-taken none near harmless = λ k. IsTaken-none k (near k)
  IsNearest-taken (some n) ((k0, named, found), first) harmless =
      ((k0, named, took k0 ∙ rw (apart harmless) found), λ k m e. first k m (IsTaken-some k m e))
    where
      apart : IsHarmless f g q → text_eq k0 q ≡ false
      apart h = elim (Bool-cases (text_eq k0 q)) [
        | inr e ↦ e
        | inl e ↦ absurd (clash h (text_eq→eq k0 q e))
      ]
        where
          clash : IsHarmless f g q → k0 ≢ q
          clash (inr empty) same = none-ne-some n.mark (sym empty ∙ ap f (sym same) ∙ found)
          clash (inl (k, (m, (there, less)))) same =
              let before = first k m (IsTaken-some k m there) in
              let size = ap length named ∙ length-append p k0 in
              let long = ap length same in omega (arith, before, size, long, less)

pub IsTaken-bound :
    (mark : Option Mark) (c c' : Children) (y : ℕ) (r : List ℕ)
    → ((w : ℕ) (l : List ℕ) → find c' w l ≡ taken (text_eq (w ∷ l) (y ∷ r)) (find c w l))
    → IsTaken (bound mark c) (bound mark c') (y ∷ r)
unfolding bound text_eq
IsTaken-bound mark c c' y r took [] = refl
IsTaken-bound mark c c' y r took (w ∷ l) = took w l

-- What an expiry leaves for the nodes above.
abbrev pub IsLeft : Children → ℕ → List ℕ → Children → Progress → Type 0
IsLeft c x q c' settled = HasShorter (bound none c') (suc (length q)) ⊎ (find c x q ≡ none)
IsLeft c x q c' recomputing = HasChild c'
IsLeft c x q c' pruning = Unit

module _ (p : List ℕ) (first : ℕ) (rest : List ℕ) (siblings : Children)
    (lacks : Lacks first siblings) (others : IsTrie p siblings) where
  pub prune_node-IsTrie :
      (whole children : Children) (x : ℕ) (q : List ℕ)
      → IsTrie (p ++ (first ∷ rest)) children
      → let (c', progress) = prune_node first rest children siblings in
        IsTrie p c' × IsLeft whole x q c' progress
  unfolding prune_node
  prune_node-IsTrie whole no_child x q trie = (others, tt)
  prune_node-IsTrie whole (child y r mark near children no_child) x q
        (l, (n, (cached, (trie, more)))) =
      let same = append_assoc p (first ∷ rest) (y ∷ r) in
      (
        (
          lacks,
          (
            subst (λ v. IsNearest (bound mark children) v near) same n,
            (cached, (subst (λ v. IsTrie v children) same trie, others)),
          ),
        ),
        tt,
      )
  prune_node-IsTrie whole (child y r mark near children (child z l mark' near' children' more)) x q
        trie =
      let below = child y r mark near children (child z l mark' near' children' more) in
      let p' = p ++ (first ∷ rest) in
      (
        (
          lacks,
          (
            IsNearest-best_child p' below trie,
            (best_child-ne-none p' below trie tt, (trie, others)),
          ),
        ),
        tt,
      )

  module _ (mark : Option Mark) (nearest : Option Terminal) (children children' : Children)
      (near : IsNearest (bound mark children) (p ++ (first ∷ rest)) nearest)
      (cached : nearest ≢ none) (y : ℕ) (r : List ℕ)
      (took : (w : ℕ) (l : List ℕ)
        → find children' w l ≡ taken (text_eq (w ∷ l) (y ∷ r)) (find children w l))
      (trie' : IsTrie (p ++ (first ∷ rest)) children') where
    abbrev before : Children
    before = child first rest mark nearest children siblings

    abbrev after : Children
    after = child first rest mark nearest children' siblings

    kept :
        IsHarmless (bound mark children) (bound mark children') (y ∷ r)
        → IsTrie p after × IsLeft before first (rest ++ (y ∷ r)) after settled
    unfolding bound
    kept harmless = (
      (
        lacks,
        (
          IsNearest-taken (bound mark children) (bound mark children') (p ++ (first ∷ rest)) (y ∷ r)
              (IsTaken-bound mark children children' y r took) nearest near harmless,
          (cached, (trie', others)),
        ),
      ),
      above harmless,
    )
      where
        above :
            IsHarmless (bound mark children) (bound mark children') (y ∷ r)
            → HasShorter (bound none after) (suc (length (rest ++ (y ∷ r))))
              ⊎ (find before first (rest ++ (y ∷ r)) ≡ none)
        above (inr empty) =
            inr (find-lifted first rest mark nearest children siblings (y ∷ r) ∙ empty)
        above (inl short) = inl (
            subst (HasShorter (bound none after)) (ap suc (sym (length-append rest (y ∷ r))))
              (HasShorter-lifted first rest mark nearest children' siblings (suc (length r)) short))

    pub raise-IsTrie :
        (progress : Progress)
        → IsLeft children y r children' progress
        → let (c', progress') =
            raise progress (p ++ (first ∷ rest)) first rest mark nearest children' siblings in
          IsTrie p c' × IsLeft before first (rest ++ (y ∷ r)) c' progress'
    unfolding raise
    raise-IsTrie settled left = kept (harmless left)
      where
        harmless :
            IsLeft children y r children' settled
            → IsHarmless (bound mark children) (bound mark children') (y ∷ r)
        harmless (inl short) = inl (HasShorter-bound mark children' (suc (length r)) short)
        harmless (inr empty) = inr (unfold bound in empty)
    raise-IsTrie recomputing left =
        let p' = p ++ (first ∷ rest) in
        (
          (
            lacks,
            (
              IsNearest-recompute_node p' mark children' trie',
              (recompute_node-ne-none p' mark children' trie' left, (trie', others)),
            ),
          ),
          tt,
        )
    raise-IsTrie pruning left = of mark refl
      where
        of :
            (o : Option Mark)
            → mark ≡ o
            → let (c', progress') =
                raise pruning (p ++ (first ∷ rest)) first rest o nearest children' siblings in
              IsTrie p c' × IsLeft before first (rest ++ (y ∷ r)) c' progress'
        of none e = prune_node-IsTrie before children' first (rest ++ (y ∷ r)) trie'
        of (some m) e =
            subst
              (λ o.
                IsTrie p (child first rest o nearest children' siblings)
                × IsLeft before first (rest ++ (y ∷ r))
                    (child first rest o nearest children' siblings) settled)
              e (kept (inl ([], (m, (unfold bound in e, omega arith)))))
