-- ===== src/Affinity/Expiry/Removed.antt =====
-- expireTerminal takes the mark of its key, and no other.
use meow_cli.Common.{
  ℕ, ◌≡◌, ◌≢◌, ◌∙◌, ◌⊎◌, inl, inr, sym, ap, refl, subst, Bool, true, false, List, [], ◌∷◌, ◌++◌,
  Option, none, some, arith, ◌==◌, Bool-cases, if◌then◌else◌,
}
use meow_cli.Common.Text.{text_eq, text_eq→eq}
use meow_cli.Affinity.Edges.{strip, strip_next, strip-append, strip-some}
use meow_cli.Affinity.Trie.{Mark, Terminal, Children, no_child, child, Root}
use meow_cli.Affinity.Trie.Find.{
  find, bound, behind, find-child, find-only_child, find-sibling, same_behind, text_eq-strip,
}
use meow_cli.Affinity.Trie.Lookup.{find_root}
use meow_cli.Affinity.Trie.Wellformed.{Lacks, IsTrie, IsRoot, find-Lacks}
use meow_cli.Affinity.Expiry.{
  Progress, pruning, recomputing, settled, prune_node, raise, raise_root, expire_edge, expire_child,
  expire_root,
}

-- By the first element of the key.
by_first :
    (first z : ℕ) (k : List ℕ) (c d : Children)
    → (first ≢ z → find c z k ≡ find d z k)
    → find c first k ≡ find d first k
    → find c z k ≡ find d z k
by_first first z k c d other same = elim (Bool-cases (first == z)) [
  | inr e ↦ let apart : first ≢ z = ground arith in other apart
  | inl e ↦ let eq : first ≡ z = ground arith in subst (λ v. find c v k ≡ find d v k) eq same
]

find-prune_node :
    (first : ℕ) (rest : List ℕ) (nearest : Option Terminal) (children siblings : Children) (z : ℕ)
    (k : List ℕ)
    → Lacks first siblings
    → find (prune_node first rest children siblings).0 z k
      ≡ find (child first rest none nearest children siblings) z k
unfolding prune_node
find-prune_node first rest nearest no_child siblings z k lacks =
    by_first first z k siblings (child first rest none nearest no_child siblings)
      (λ apart. sym (find-sibling first z rest none nearest no_child siblings k apart))
      (find-Lacks first k siblings lacks
        ∙ sym (find-child first rest none nearest no_child siblings k ∙ nothing (strip rest k)))
  where
    nothing : (o : Option (List ℕ)) → behind none no_child o ≡ none
    nothing none = refl
    nothing (some []) = unfold bound in refl
    nothing (some (w ∷ l)) = unfold bound find in refl
find-prune_node first rest nearest (child y r mark near children no_child) siblings z k lacks =
    let below = child y r mark near children no_child in
    by_first first z k (child first (rest ++ (y ∷ r)) mark near children siblings)
      (child first rest none nearest below siblings)
      (λ apart.
        find-sibling first z (rest ++ (y ∷ r)) mark near children siblings k apart
        ∙ sym (find-sibling first z rest none nearest below siblings k apart))
      (find-child first (rest ++ (y ∷ r)) mark near children siblings k
        ∙ ap (behind mark children) (strip-append rest (y ∷ r) k)
        ∙ merged (strip rest k)
        ∙ sym (find-child first rest none nearest below siblings k))
  where
    merged :
        (o : Option (List ℕ))
        → behind mark children (strip_next (y ∷ r) o)
          ≡ behind none (child y r mark near children no_child) o
    merged none = refl
    merged (some []) = unfold bound strip in refl
    merged (some (w ∷ l)) = unfold bound in sym (find-only_child y r mark near children w l)
find-prune_node first rest nearest
      (child y r mark near children (child z' l mark' near' children' more)) siblings z k lacks =
    unfold find in refl

find-raise :
    (progress : Progress) (p : List ℕ) (first : ℕ) (rest : List ℕ) (mark : Option Mark)
    (nearest : Option Terminal) (children siblings : Children) (z : ℕ) (k : List ℕ)
    → Lacks first siblings
    → find (raise progress p first rest mark nearest children siblings).0 z k
      ≡ find (child first rest mark nearest children siblings) z k
unfolding raise
find-raise settled p first rest mark nearest children siblings z k lacks = refl
find-raise recomputing p first rest mark nearest children siblings z k lacks = unfold find in refl
find-raise pruning p first rest none nearest children siblings z k lacks =
    find-prune_node first rest nearest children siblings z k lacks
find-raise pruning p first rest (some m) nearest children siblings z k lacks = refl

-- What is found where one mark was taken.
abbrev pub taken : Bool → Option Mark → Option Mark
taken here old = if here then none else old

taken-none : (b : Bool) → taken b none ≡ none
taken-none true = refl
taken-none false = refl

module _ (p : List ℕ) (first : ℕ) (rest : List ℕ) (mark : Option Mark) (nearest : Option Terminal)
    (children siblings : Children) (lacks : Lacks first siblings)
    (down : ℕ → List ℕ → Children × Progress) where
  edge-apart :
      (o : Option (List ℕ)) (z : ℕ) (k : List ℕ)
      → first ≢ z
      → find (expire_edge p first rest mark nearest children siblings o down).0 z k
        ≡ find siblings z k
  unfolding expire_edge
  edge-apart none z k apart = find-sibling first z rest mark nearest children siblings k apart
  edge-apart (some []) z k apart =
      find-prune_node first rest nearest children siblings z k lacks
      ∙ find-sibling first z rest none nearest children siblings k apart
  edge-apart (some (y ∷ r)) z k apart =
      find-raise (down y r).1 p first rest mark nearest (down y r).0 siblings z k lacks
      ∙ find-sibling first z rest mark nearest (down y r).0 siblings k apart

  edge-here :
      (j : List ℕ)
      → ((y : ℕ) (r : List ℕ) (w : ℕ) (l : List ℕ)
          → find (down y r).0 w l ≡ taken (text_eq (w ∷ l) (y ∷ r)) (find children w l))
      → (k : List ℕ)
      → find (expire_edge p first rest mark nearest children siblings (some j) down).0 first k
        ≡ taken (same_behind j (strip rest k)) (behind mark children (strip rest k))
  unfolding expire_edge
  edge-here [] below k =
      find-prune_node first rest nearest children siblings first k lacks
      ∙ find-child first rest none nearest children siblings k
      ∙ unmarked (strip rest k)
    where
      unmarked :
          (o : Option (List ℕ))
          → behind none children o ≡ taken (same_behind [] o) (behind mark children o)
      unmarked none = refl
      unmarked (some []) = unfold bound text_eq in refl
      unmarked (some (w ∷ l)) = unfold bound text_eq in refl
  edge-here (y ∷ r) below k =
      find-raise (down y r).1 p first rest mark nearest (down y r).0 siblings first k lacks
      ∙ find-child first rest mark nearest (down y r).0 siblings k
      ∙ further (strip rest k)
    where
      further :
          (o : Option (List ℕ))
          → behind mark (down y r).0 o ≡ taken (same_behind (y ∷ r) o) (behind mark children o)
      further none = refl
      further (some []) = unfold bound text_eq in refl
      further (some (w ∷ l)) = unfold bound in below y r w l

  edge-found :
      (o : Option (List ℕ)) (q : List ℕ)
      → strip rest q ≡ o
      → ((y : ℕ) (r : List ℕ) (w : ℕ) (l : List ℕ)
          → find (down y r).0 w l ≡ taken (text_eq (w ∷ l) (y ∷ r)) (find children w l))
      → (k : List ℕ)
      → find (expire_edge p first rest mark nearest children siblings o down).0 first k
        ≡ taken (text_eq k q) (find (child first rest mark nearest children siblings) first k)
  unfolding expire_edge
  edge-found none q s below k = elim (Bool-cases (text_eq k q)) [
    | inr e ↦ rw e refl
    | inl e ↦ rw e (
        find-child first rest mark nearest children siblings k
        ∙ ap (behind mark children) (ap (strip rest) (text_eq→eq k q e) ∙ s))
  ]
  edge-found (some j) q s below k =
      let same = sym (text_eq-strip rest j k) ∙ ap (text_eq k) (sym (strip-some rest q j s)) in
      edge-here j below k
      ∙ rw same
          (ap (taken (text_eq k q)) (sym (find-child first rest mark nearest children siblings k)))

pub find-expire_child :
    (p : List ℕ) (c : Children) (x : ℕ) (q : List ℕ) (z : ℕ) (k : List ℕ)
    → IsTrie p c
    → find (expire_child p c x q).0 z k ≡ taken (text_eq (z ∷ k) (x ∷ q)) (find c z k)
unfolding expire_child
find-expire_child p no_child x q z k trie =
    unfold find in sym (taken-none (text_eq (z ∷ k) (x ∷ q)))
find-expire_child p (child first rest mark nearest children siblings) x q z k
      (lacks, (near, (cached, (trie, others)))) =
    let p' = p ++ (first ∷ rest) in
    elim (Bool-cases (first == x)) [
      | inr e ↦
          let apart : first ≢ x = ground arith in
          rw (e, expire_child)
            (elsewhere apart (find-expire_child p siblings x q z k others)
              (Bool-cases (first == z)))
      | inl e ↦
          rw (e, expire_child)
            (there (ground arith) (λ y r w l. find-expire_child p' children y r w l trie)
              (Bool-cases (first == z)))
    ]
  where
    elsewhere :
        first ≢ x
        → find (expire_child p siblings x q).0 z k
          ≡ taken (text_eq (z ∷ k) (x ∷ q)) (find siblings z k)
        → ((first == z) ≡ true) ⊎ ((first == z) ≡ false)
        → find (child first rest mark nearest children (expire_child p siblings x q).0) z k
          ≡ taken
              (text_eq (z ∷ k) (x ∷ q))
              (find (child first rest mark nearest children siblings) z k)
    elsewhere apart later (inl h) =
        let same : first ≡ z = ground arith in
        let away : (z == x) ≡ false = ground arith in unfold find text_eq in (rw (h, away) refl)
    elsewhere apart later (inr h) =
        let other : first ≢ z = ground arith in
        find-sibling first z rest mark nearest children (expire_child p siblings x q).0 k other
        ∙ later
        ∙ ap (taken (text_eq (z ∷ k) (x ∷ q)))
            (sym (find-sibling first z rest mark nearest children siblings k other))

    there :
        first ≡ x
        → ((y : ℕ) (r : List ℕ) (w : ℕ) (l : List ℕ)
            → find (expire_child (p ++ (first ∷ rest)) children y r).0 w l
              ≡ taken (text_eq (w ∷ l) (y ∷ r)) (find children w l))
        → ((first == z) ≡ true) ⊎ ((first == z) ≡ false)
        → find
            (expire_edge
              (p ++ (first ∷ rest))
              first
              rest
              mark
              nearest
              children
              siblings
              (strip rest q)
              (expire_child (p ++ (first ∷ rest)) children)).0
            z
            k
          ≡ taken
              (text_eq (z ∷ k) (x ∷ q))
              (find (child first rest mark nearest children siblings) z k)
    there same below (inr h) =
        let other : first ≢ z = ground arith in
        let away : (z == x) ≡ false = ground arith in
        let key : text_eq (z ∷ k) (x ∷ q) ≡ false = unfold text_eq in (rw away) in
        edge-apart (p ++ (first ∷ rest)) first rest mark nearest children siblings lacks
          (expire_child (p ++ (first ∷ rest)) children) (strip rest q) z k other
        ∙ rw key (sym (find-sibling first z rest mark nearest children siblings k other))
    there same below (inl h) =
        let here : first ≡ z = ground arith in
        let at : (z == x) ≡ true = ground arith in
        let key : text_eq k q ≡ text_eq (z ∷ k) (x ∷ q) = unfold text_eq in (rw at) in
        let found =
          edge-found (p ++ (first ∷ rest)) first rest mark nearest children siblings lacks
            (expire_child (p ++ (first ∷ rest)) children) (strip rest q) q refl below k in
        subst
          (λ b.
            find
              (expire_edge (p ++ (first ∷ rest)) first rest mark nearest children siblings
                (strip rest q) (expire_child (p ++ (first ∷ rest)) children)).0
              z k
            ≡ taken b (find (child first rest mark nearest children siblings) z k))
          key
          (subst
            (λ v.
              find
                (expire_edge (p ++ (first ∷ rest)) first rest mark nearest children siblings
                  (strip rest q) (expire_child (p ++ (first ∷ rest)) children)).0
                v k
              ≡ taken (text_eq k q) (find (child first rest mark nearest children siblings) v k))
            here found)

find_root-raise_root :
    (progress : Progress) (children : Children) (mark : Option Mark) (nearest : Option Terminal)
    (k : List ℕ)
    → find_root (raise_root progress children mark nearest) k ≡ bound mark children k
unfolding find_root raise_root
find_root-raise_root settled children mark nearest k = refl
find_root-raise_root recomputing children mark nearest k = refl
find_root-raise_root pruning children none nearest k = refl
find_root-raise_root pruning children (some m) nearest k = refl

-- The expiry of a key takes its mark and no other, with pruning and merging of nodes.
pub find_root-expire_root :
    (root : Root) (q k : List ℕ)
    → IsRoot root
    → find_root (expire_root q root) k ≡ (if text_eq k q then none else find_root root k)
unfolding find_root expire_root bound text_eq
find_root-expire_root root [] [] h = refl
find_root-expire_root root [] (z ∷ k) h = refl
find_root-expire_root root (x ∷ q) [] h =
    let (c, progress) = expire_child [] root.children x q in
    find_root-raise_root progress c root.mark root.nearest []
find_root-expire_root root (x ∷ q) (z ∷ k) (near, trie) =
    let (c, progress) = expire_child [] root.children x q in
    find_root-raise_root progress c root.mark root.nearest (z ∷ k)
    ∙ find-expire_child [] root.children x q z k trie
