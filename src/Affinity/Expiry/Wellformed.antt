-- ===== src/Affinity/Expiry/Wellformed.antt =====
-- expireTerminal on a whole bucket keeps it well formed.
use meow_cli.Common.{
  ℕ, suc, ◌≡◌, ◌≢◌, ◌∙◌, ◌⊎◌, inl, inr, sym, ap, refl, subst, List, [], ◌∷◌, ◌++◌, Option, none,
  some, arith, length, ◌==◌, Bool-cases,
}
use meow_cli.Common.Text.{text_eq}
use meow_cli.Affinity.Edges.{strip, strip-some}
use meow_cli.Affinity.Trie.{Mark, Terminal, Children, no_child, child, Root}
use meow_cli.Affinity.Trie.Find.{find, bound, behind, find-child, find-sibling}
use meow_cli.Affinity.Trie.Nearest.{IsNearest, HasShorter}
use meow_cli.Affinity.Trie.Wellformed.{Lacks, IsTrie, IsRoot}
use meow_cli.Affinity.Trie.Inserted.{HasShorter-sibling}
use meow_cli.Affinity.Trie.Placed.{HasShorter-bound}
use meow_cli.Affinity.Expiry.{
  Progress, pruning, recomputing, settled, prune_node, raise, raise_root, expire_edge,
  recompute_node, expire_child, expire_root,
}
use meow_cli.Affinity.Expiry.Best.{IsNearest-recompute_node}
use meow_cli.Affinity.Expiry.Removed.{taken, find-expire_child}
use meow_cli.Affinity.Expiry.Kept.{
  IsHarmless, IsLeft, IsTaken-bound, IsNearest-taken, prune_node-IsTrie, raise-IsTrie,
}

Lacks-prune_node :
    (z first : ℕ) (rest : List ℕ) (children siblings : Children)
    → first ≢ z
    → Lacks z siblings
    → Lacks z (prune_node first rest children siblings).0
unfolding prune_node
Lacks-prune_node z first rest no_child siblings apart h = h
Lacks-prune_node z first rest (child y r mark near children no_child) siblings apart h = (apart, h)
Lacks-prune_node z first rest (child y r mark near children (child z' l mark' near' children' more))
      siblings apart h =
    (apart, h)

Lacks-raise :
    (progress : Progress) (p : List ℕ) (z first : ℕ) (rest : List ℕ) (mark : Option Mark)
    (nearest : Option Terminal) (children siblings : Children)
    → first ≢ z
    → Lacks z siblings
    → Lacks z (raise progress p first rest mark nearest children siblings).0
unfolding raise
Lacks-raise settled p z first rest mark nearest children siblings apart h = (apart, h)
Lacks-raise recomputing p z first rest mark nearest children siblings apart h = (apart, h)
Lacks-raise pruning p z first rest none nearest children siblings apart h =
    Lacks-prune_node z first rest children siblings apart h
Lacks-raise pruning p z first rest (some m) nearest children siblings apart h = (apart, h)

Lacks-expire_child :
    (p : List ℕ) (c : Children) (z x : ℕ) (q : List ℕ)
    → Lacks z c
    → Lacks z (expire_child p c x q).0
unfolding expire_child
Lacks-expire_child p no_child z x q h = h
Lacks-expire_child p (child first rest mark nearest children siblings) z x q (apart, h) =
    elim (Bool-cases (first == x)) [
      | inr e ↦ rw (e, Lacks) (apart, Lacks-expire_child p siblings z x q h)
      | inl e ↦ rw (e, Lacks) (edge (strip rest q))
    ]
  where
    edge :
        (o : Option (List ℕ))
        → Lacks z
            (expire_edge
              (p ++ (first ∷ rest))
              first
              rest
              mark
              nearest
              children
              siblings
              o
              (expire_child (p ++ (first ∷ rest)) children)).0
    edge none = unfold expire_edge in (apart, h)
    edge (some []) = unfold expire_edge in Lacks-prune_node z first rest children siblings apart h
    edge (some (y ∷ r)) =
        unfold expire_edge in
        Lacks-raise (expire_child (p ++ (first ∷ rest)) children y r).1 (p ++ (first ∷ rest)) z
          first rest mark nearest (expire_child (p ++ (first ∷ rest)) children y r).0 siblings apart
          h

-- The children are well formed, and what is left to do is left to the nodes above.
abbrev IsExpired : List ℕ → Children → ℕ → List ℕ → Children × Progress → Type 0
IsExpired p c x q (c', progress) = IsTrie p c' × IsLeft c x q c' progress

-- An expiry among the other children.
IsLeft-sibling :
    (first : ℕ) (rest : List ℕ) (mark : Option Mark) (nearest : Option Terminal)
    (children siblings siblings' : Children) (x : ℕ) (q : List ℕ) (progress : Progress)
    → first ≢ x
    → Lacks first siblings'
    → IsLeft siblings x q siblings' progress
    → IsLeft
        (child first rest mark nearest children siblings)
        x
        q
        (child first rest mark nearest children siblings')
        progress
IsLeft-sibling first rest mark nearest children siblings siblings' x q settled apart lacks
      (inl short) =
    inl (HasShorter-sibling first rest mark nearest children siblings' (suc (length q)) lacks short)
IsLeft-sibling first rest mark nearest children siblings siblings' x q settled apart lacks
      (inr empty) =
    inr (find-sibling first x rest mark nearest children siblings q apart ∙ empty)
IsLeft-sibling first rest mark nearest children siblings siblings' x q recomputing apart lacks
      left =
    tt
IsLeft-sibling first rest mark nearest children siblings siblings' x q pruning apart lacks left = tt

expire_child-IsExpired :
    (p : List ℕ) (c : Children) (x : ℕ) (q : List ℕ)
    → IsTrie p c
    → IsExpired p c x q (expire_child p c x q)
unfolding expire_child
expire_child-IsExpired p no_child x q trie = (tt, inr (unfold find in refl))
expire_child-IsExpired p (child first rest mark nearest children siblings) x q
      (lacks, (near, (cached, (trie, others)))) =
    elim (Bool-cases (first == x)) [
      | inr e ↦
          let apart : first ≢ x = ground arith in
          let (kept, left) = expire_child-IsExpired p siblings x q others in
          let (siblings', progress) = expire_child p siblings x q in
          let still = Lacks-expire_child p siblings first x q lacks in
          rw (e, expire_child)
            (
              (still, (near, (cached, (trie, kept)))),
              IsLeft-sibling first rest mark nearest children siblings siblings' x q progress apart
                  still left,
            )
      | inl e ↦
          let same : first ≡ x = ground arith in
          rw (e, expire_child)
            (subst
              (λ v. IsExpired p (child first rest mark nearest children siblings) v q (
                expire_edge (p ++ (first ∷ rest)) first rest mark nearest children siblings
                  (strip rest q) (expire_child (p ++ (first ∷ rest)) children)))
              same
              (edge (strip rest q) refl
                (λ y r. expire_child-IsExpired (p ++ (first ∷ rest)) children y r trie)))
    ]
  where
    edge :
        (o : Option (List ℕ))
        → strip rest q ≡ o
        → ((y : ℕ) (r : List ℕ)
            → IsExpired
                (p ++ (first ∷ rest))
                children
                y
                r
                (expire_child (p ++ (first ∷ rest)) children y r))
        → IsExpired p (child first rest mark nearest children siblings) first q (
            expire_edge
              (p ++ (first ∷ rest))
              first
              rest
              mark
              nearest
              children
              siblings
              o
              (expire_child (p ++ (first ∷ rest)) children))
    edge none s below =
        unfold expire_edge in
        (
          (lacks, (near, (cached, (trie, others)))),
          inr (
              find-child first rest mark nearest children siblings q ∙ ap (behind mark children) s),
        )
    edge (some []) s below =
        unfold expire_edge in
        prune_node-IsTrie p first rest siblings lacks others
          (child first rest mark nearest children siblings) children first q trie
    edge (some (y ∷ r)) s below =
        let (kept, left) = below y r in
        let (children', progress) = expire_child (p ++ (first ∷ rest)) children y r in
        unfold expire_edge in
        subst
          (λ v.
            IsExpired p (child first rest mark nearest children siblings) first v
              (raise progress (p ++ (first ∷ rest)) first rest mark nearest children' siblings))
          (sym (strip-some rest q (y ∷ r) s))
          (raise-IsTrie p first rest siblings lacks others mark nearest children children' near
            cached y r (λ w l. find-expire_child (p ++ (first ∷ rest)) children y r w l trie) kept
            progress left)

-- The expiry of a terminal keeps a trie well formed, though it recomputes only the nodes above the
-- last one that was pruned, and none above a terminal.
pub expire_root-IsRoot : (q : List ℕ) (root : Root) → IsRoot root → IsRoot (expire_root q root)
unfolding expire_root recompute_node
expire_root-IsRoot [] root (near, trie) =
    (IsNearest-recompute_node [] none root.children trie, trie)
expire_root-IsRoot (x ∷ q) root (near, trie) =
    let (c, progress) = expire_child [] root.children x q in
    let (kept, left) = expire_child-IsExpired [] root.children x q trie in
    of progress root.mark near left kept (λ w l. find-expire_child [] root.children x q w l trie)
  where
    c' : Children
    c' = (expire_child [] root.children x q).0

    of :
        (progress : Progress) (mark : Option Mark)
        → IsNearest (bound mark root.children) [] root.nearest
        → IsLeft root.children x q c' progress
        → IsTrie [] c'
        → ((w : ℕ) (l : List ℕ)
            → find c' w l ≡ taken (text_eq (w ∷ l) (x ∷ q)) (find root.children w l))
        → IsRoot (raise_root progress c' mark root.nearest)
    of settled mark n left kept took =
        unfold raise_root in
        (
          IsNearest-taken (bound mark root.children) (bound mark c') [] (x ∷ q)
              (IsTaken-bound mark root.children c' x q took) root.nearest n (harmless left),
          kept,
        )
      where
        harmless :
            HasShorter (bound none c') (suc (length q)) ⊎ (find root.children x q ≡ none)
            → IsHarmless (bound mark root.children) (bound mark c') (x ∷ q)
        harmless (inl short) = inl (HasShorter-bound mark c' (suc (length q)) short)
        harmless (inr empty) = inr (unfold bound in empty)
    of recomputing mark n left kept took =
        unfold raise_root in (IsNearest-recompute_node [] mark c' kept, kept)
    of pruning none n left kept took =
        unfold raise_root in (IsNearest-recompute_node [] none c' kept, kept)
    of pruning (some m) n left kept took =
        unfold raise_root in
        (
          IsNearest-taken (bound (some m) root.children) (bound (some m) c') [] (x ∷ q)
              (IsTaken-bound (some m) root.children c' x q took) root.nearest n
              (inl ([], (m, (unfold bound in refl, omega arith)))),
          kept,
        )
