-- ===== src/Affinity/Trie/Inserted.antt =====
-- insert keeps the invariant of the radix trie: the walk of propagateTerminal may stop where it stops.
use mathlib.Core.Option.{none-ne-some}
use mathlib.Core.List.{append_assoc}
use mathlib.Core.Bool.{true≢false}
use meow_cli.Common.{
  ℕ, suc, ◌≡◌, ◌≢◌, ◌∙◌, inl, inr, sym, ap, subst, List, [], ◌∷◌, ◌++◌, Option, none, arith, length,
  ◌==◌, Bool-cases,
}
use meow_cli.Affinity.Edges.{fork, fork-append, fork-IsApart, IsApart}
use meow_cli.Affinity.Trie.{Mark, Terminal, Children, no_child, child, insert_edge, insert_child}
use meow_cli.Affinity.Trie.Find.{bound, find-sibling}
use meow_cli.Affinity.Trie.Nearest.{IsNearest, IsOlder, HasShorter}
use meow_cli.Affinity.Trie.Wellformed.{Lacks, IsTrie, find-Lacks, IsOlder-below}
use meow_cli.Affinity.Trie.Placed.{
  IsInserted, IsNearest-leaf, IsInserted-ends, IsInserted-before, IsInserted-apart,
  IsInserted-further, append-nil, IsOlder-bound,
}

Lacks-insert_child :
    (t : Terminal) (c : Children) (z x : ℕ) (q : List ℕ)
    → z ≢ x
    → Lacks z c
    → Lacks z (insert_child t c x q).0
unfolding insert_child insert_edge
Lacks-insert_child t no_child z x q apart h = (λ e. apart (sym e), tt)
Lacks-insert_child t (child first rest mark nearest children siblings) z x q apart h =
    elim (Bool-cases (first == x)) [
      | inr e ↦ rw (e, Lacks) (h.0, Lacks-insert_child t siblings z x q apart h.1)
      | inl e ↦ rw (e, Lacks) (edge (fork rest q))
    ]
  where
    edge :
        (s : List ℕ × (List ℕ × List ℕ))
        → Lacks z (insert_edge first s mark nearest children siblings t (insert_child t children)).0
    edge (a, ([], [])) = h
    edge (a, ([], y ∷ r)) = h
    edge (a, (y ∷ i, [])) = h
    edge (a, (y ∷ i, w ∷ r)) = h

-- A mark behind the other children is one behind the node.
pub HasShorter-sibling :
    (first : ℕ) (rest : List ℕ) (mark : Option Mark) (nearest : Option Terminal)
    (children siblings : Children) (n : ℕ)
    → Lacks first siblings
    → HasShorter (bound none siblings) n
    → HasShorter (bound none (child first rest mark nearest children siblings)) n
unfolding bound
HasShorter-sibling first rest mark nearest children siblings n lacks ([], (m, (found, less))) =
    absurd (none-ne-some m found)
HasShorter-sibling first rest mark nearest children siblings n lacks (x ∷ k, (m, (found, less))) =
    let apart : first ≢ x = λ e.
      none-ne-some m
        (sym (find-Lacks x k siblings (subst (λ v. Lacks v siblings) e lacks)) ∙ found) in
    (x ∷ k, (m, (find-sibling first x rest mark nearest children siblings k apart ∙ found, less)))

IsOlder-sibling :
    (first : ℕ) (rest : List ℕ) (mark : Option Mark) (nearest : Option Terminal)
    (children siblings : Children) (n : ℕ)
    → Lacks first siblings
    → IsOlder (bound none (child first rest mark nearest children siblings)) n
    → IsOlder (bound none siblings) n
unfolding bound
IsOlder-sibling first rest mark nearest children siblings n lacks older [] m e =
    absurd (none-ne-some m e)
IsOlder-sibling first rest mark nearest children siblings n lacks older (x ∷ k) m e =
    let apart : first ≢ x = λ h.
      none-ne-some m (sym (find-Lacks x k siblings (subst (λ v. Lacks v siblings) h lacks)) ∙ e) in
    older (x ∷ k) m (find-sibling first x rest mark nearest children siblings k apart ∙ e)

pub IsInserted-insert_child :
    (t : Terminal) (c : Children) (p : List ℕ) (x : ℕ) (q : List ℕ)
    → IsTrie p c
    → IsOlder (bound none c) t.mark.sequence
    → t.key ≡ p ++ (x ∷ q)
    → IsInserted p c (suc (length q)) (insert_child t c x q)
unfolding insert_child insert_edge
IsInserted-insert_child t no_child p x q trie older key = (
  (tt, (IsNearest-leaf t (p ++ (x ∷ q)) key, (λ h. none-ne-some t (sym h), (tt, tt)))),
  λ h. absurd (true≢false h),
)
IsInserted-insert_child t (child first rest mark nearest children siblings) p x q
      (lacks, (near, (cached, (trie, others)))) older key =
    elim (Bool-cases (first == x)) [
      | inr e ↦
          let apart : first ≢ x = ground arith in
          let old =
            IsOlder-sibling first rest mark nearest children siblings t.mark.sequence lacks older in
          let (kept, stop) = IsInserted-insert_child t siblings p x q others old key in
          rw (e, insert_child)
            (
              (Lacks-insert_child t siblings first x q apart lacks, (near, (cached, (trie, kept)))),
              λ h.
                  HasShorter-sibling first rest mark nearest children siblings (suc (length q))
                    lacks (stop h),
            )
      | inl e ↦
          let same : first ≡ x = ground arith in
          let (l, r) = fork-append rest q in
          rw (e, insert_child)
            (edge (λ p' y r. IsInserted-insert_child t children p' y r) (fork rest q) l r
              (fork-IsApart rest q) (key ∙ ap (λ v. p ++ (v ∷ q)) (sym same)))
    ]
  where
    older_below : IsOlder (bound mark children) t.mark.sequence
    older_below = IsOlder-below first rest mark nearest children siblings t.mark.sequence older

    edge :
        ((p' : List ℕ) (y : ℕ) (r : List ℕ)
          → IsTrie p' children
          → IsOlder (bound none children) t.mark.sequence
          → t.key ≡ p' ++ (y ∷ r)
          → IsInserted p' children (suc (length r)) (insert_child t children y r))
        → (s : List ℕ × (List ℕ × List ℕ))
        → let (a, (i, j)) = s in
          rest ≡ a ++ i
          → q ≡ a ++ j
          → IsApart i j
          → t.key ≡ p ++ (first ∷ q)
          → IsInserted p
              (child first rest mark nearest children siblings)
              (suc (length q))
              (insert_edge first s mark nearest children siblings t (insert_child t children))
    edge recurse (a, ([], [])) l r apart named =
        let whole : rest ≡ a = l ∙ append-nil a in
        let there : q ≡ a = r ∙ append-nil a in
        let (kept, moves) =
          IsInserted-ends p first a mark nearest children siblings t lacks cached others
            (named ∙ ap (λ v. p ++ (first ∷ v)) there)
            (subst (λ v. IsNearest (bound mark children) (p ++ (first ∷ v)) nearest) whole near)
            older_below (subst (λ v. IsTrie (p ++ (first ∷ v)) children) whole trie) in
        (kept, λ h. absurd (moves h))
    edge recurse (a, ([], y ∷ r')) l r apart named =
        let whole : rest ≡ a = l ∙ append-nil a in
        let below = subst (λ v. IsTrie (p ++ (first ∷ v)) children) whole trie in
        let goes : t.key ≡ p ++ (first ∷ (a ++ (y ∷ r'))) = named ∙ ap (λ v. p ++ (first ∷ v)) r in
        let inner =
          recurse (p ++ (first ∷ a)) y r' below
            (IsOlder-bound mark children t.mark.sequence older_below)
            (goes ∙ sym (append_assoc p (first ∷ a) (y ∷ r'))) in
        let (kept, stop) =
          IsInserted-further p first a mark nearest children siblings t lacks cached others y r'
            goes
            (subst (λ v. IsNearest (bound mark children) (p ++ (first ∷ v)) nearest) whole near)
            older_below inner in
        (
          kept,
          λ h.
              subst
                (λ v.
                  HasShorter (bound none (child first v mark nearest children siblings))
                    (suc (length q)))
                (sym whole)
                (subst
                  (λ v.
                    HasShorter (bound none (child first a mark nearest children siblings))
                      (suc (length v)))
                  (sym r) (stop h)),
        )
    edge recurse (a, (y ∷ i, [])) l r apart named =
        let there : q ≡ a = r ∙ append-nil a in
        let (kept, moves) =
          IsInserted-before p first a mark nearest children siblings t lacks cached others y i
            (subst (λ v. IsNearest (bound mark children) (p ++ (first ∷ v)) nearest) l near)
            older_below (subst (λ v. IsTrie (p ++ (first ∷ v)) children) l trie)
            (named ∙ ap (λ v. p ++ (first ∷ v)) there) in
        (kept, λ h. absurd (moves h))
    edge recurse (a, (y ∷ i, z ∷ r')) l r apart named =
        let (kept, stop) =
          IsInserted-apart p first a mark nearest children siblings t lacks cached others y i
            (subst (λ v. IsNearest (bound mark children) (p ++ (first ∷ v)) nearest) l near)
            older_below (subst (λ v. IsTrie (p ++ (first ∷ v)) children) l trie) z r' apart
            (named ∙ ap (λ v. p ++ (first ∷ v)) r) in
        (
          kept,
          λ h.
              subst
                (λ v.
                  HasShorter (bound none (child first v mark nearest children siblings))
                    (suc (length q)))
                (sym l)
                (subst
                  (λ v.
                    HasShorter
                      (bound none (child first (a ++ (y ∷ i)) mark nearest children siblings))
                      (suc (length v)))
                  (sym r) (stop h)),
        )
