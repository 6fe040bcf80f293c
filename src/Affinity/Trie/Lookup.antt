-- ===== src/Affinity/Trie/Lookup.antt =====
-- lookup gives the best match among the marks of a trie.
use mathlib.Core.Option.{none-ne-some}
use mathlib.Core.List.{append_assoc}
use std.Path.{fun_ext}
use meow_cli.Common.{
  ℕ, suc, ◌+◌, ◌<◌, ◌≡◌, ◌≢◌, ◌∙◌, ◌⊎◌, inl, inr, sym, ap, refl, subst, false, List, [], ◌∷◌, ◌++◌,
  Option, none, some, arith, length, length-append, ◌==◌, Bool-cases, Option-cases,
}
use meow_cli.Affinity.Edges.{
  common_element_prefix, fork, fork-append, fork-IsApart, IsApart, strip, strip_self, strip-some,
}
use meow_cli.Affinity.Trie.{
  Mark, Terminal, Children, no_child, child, Root, lookup_edge, lookup_child, lookup_root,
}
use meow_cli.Affinity.Trie.Find.{find, bound, behind, find-child, find-sibling}
use meow_cli.Affinity.Trie.Nearest.{IsBefore, IsNearest}
use meow_cli.Affinity.Trie.Wellformed.{IsTrie, IsRoot}

-- Of the marks that `f` gives the keys behind p, the terminal is the nearest of those whose keys have the
-- greatest size, which is the number beside it.
abbrev pub IsBest : (List ℕ → ℕ) → (List ℕ → Option Mark) → List ℕ → ℕ × Option Terminal → Type 0
IsBest size f p (d, none) = (k : List ℕ) → f k ≡ none
IsBest size f p (d, some t) =
    ((k : List ℕ) × ((t.key ≡ p ++ k) × ((f k ≡ some t.mark) × (d ≡ size k))))
    × ((k : List ℕ) (m : Mark)
        → f k ≡ some m
        → (size k < d) ⊎ ((size k ≡ d) × IsBefore t (length p + length k) m.sequence))

-- Where all sizes are the same.
IsNearest→IsBest :
    (size : List ℕ → ℕ) (f : List ℕ → Option Mark) (p : List ℕ) (d : ℕ) (n : Option Terminal)
    → ((k : List ℕ) (m : Mark) → f k ≡ some m → size k ≡ d)
    → IsNearest f p n
    → IsBest size f p (d, n)
IsNearest→IsBest size f p d none same near = near
IsNearest→IsBest size f p d (some t) same ((k, named, found), first) =
    ((k, (named, (found, sym (same k t.mark found)))), λ l m e. inr (same l m e, first l m e))

common-append :
    (a i j : List ℕ)
    → common_element_prefix (a ++ j) (a ++ i) ≡ length a + common_element_prefix j i
unfolding common_element_prefix
common-append [] i j = omega arith
common-append (x ∷ a) i j = ground (arith, common-append a i j)

common-apart :
    (x : ℕ) (i j l : List ℕ) → IsApart (x ∷ i) j → common_element_prefix j (x ∷ (i ++ l)) ≡ 0
unfolding common_element_prefix
common-apart x i [] l apart = refl
common-apart x i (y ∷ j) l apart = let other : (y == x) ≡ false = ground arith in rw other

IsBest-size :
    (size size' : List ℕ → ℕ) (f : List ℕ → Option Mark) (p : List ℕ) (r : ℕ × Option Terminal)
    → ((k : List ℕ) → size k ≡ size' k)
    → IsBest size f p r
    → IsBest size' f p r
IsBest-size size size' f p r same = subst (λ v. IsBest v f p r) (fun_ext same)

-- What is best behind a child is best behind its node for a query that goes to the child.
module _ (f : List ℕ → Option Mark) (p : List ℕ) (x : ℕ) (rest a i j : List ℕ) (mark : Option Mark)
    (children : Children) (split : rest ≡ a ++ i)
    (there : (k : List ℕ) → f (x ∷ k) ≡ behind mark children (strip rest k)) where
  abbrev below : List ℕ → ℕ
  below l = length p + suc (length a + common_element_prefix j (i ++ l))

  abbrev above : List ℕ → ℕ
  above k = length p + common_element_prefix (x ∷ (a ++ j)) k

  above-below : (l : List ℕ) → above (x ∷ (rest ++ l)) ≡ below l
  unfolding common_element_prefix
  above-below l =
      let whole : rest ++ l ≡ a ++ (i ++ l) = ap (λ v. v ++ l) split ∙ append_assoc a i l in
      let shared = ap (common_element_prefix (a ++ j)) whole ∙ common-append a (i ++ l) j in
      ground (arith, shared)

  above-first : (z : ℕ) (k : List ℕ) → x ≢ z → above (z ∷ k) ≡ length p
  unfolding common_element_prefix
  above-first z k apart = ground arith

  IsBest-child :
      (d : ℕ) (n : Option Terminal)
      → n ≢ none
      → IsBest below (bound mark children) (p ++ (x ∷ rest)) (d, n)
      → IsBest above f p (d, n)
  unfolding common_element_prefix
  IsBest-child d none some_ h = absurd (some_ refl)
  IsBest-child d (some t) some_ ((k0, (named, (found, size))), first) = (
    (
      x ∷ (rest ++ k0),
      (
        named ∙ append_assoc p (x ∷ rest) k0,
        (
          there (rest ++ k0) ∙ ap (behind mark children) (strip_self rest k0) ∙ found,
          size ∙ sym (above-below k0),
        ),
      ),
    ),
    other,
  )
    where
      behind_edge :
          (k : List ℕ) (m : Mark)
          → f (x ∷ k) ≡ some m
          → (strip rest k ≡ none) ⊎ ((l : List ℕ) × (strip rest k ≡ some l))
          → (above (x ∷ k) < d)
            ⊎ ((above (x ∷ k) ≡ d) × IsBefore t (length p + suc (length k)) m.sequence)
      behind_edge k m e (inl none_) =
          absurd (none-ne-some m (ap (behind mark children) (sym none_) ∙ sym (there k) ∙ e))
      behind_edge k m e (inr (l, s)) =
          let same : k ≡ rest ++ l = strip-some rest k l s in
          let count = ap length same ∙ length-append rest l in
          let measure : above (x ∷ k) ≡ below l = ap (λ v. above (x ∷ v)) same ∙ above-below l in
          let order = first l m (ap (behind mark children) (sym s) ∙ sym (there k) ∙ e) in
          omega (arith, length-append p (x ∷ rest), count, measure, order)

      other :
          (k : List ℕ) (m : Mark)
          → f k ≡ some m
          → (above k < d) ⊎ ((above k ≡ d) × IsBefore t (length p + length k) m.sequence)
      other [] m e = inl (omega (arith, size))
      other (z ∷ k) m e = elim (Bool-cases (x == z)) [
        | inr h ↦
            let apart : x ≢ z = ground arith in inl (omega (arith, size, above-first z k apart))
        | inl h ↦
            let same : x ≡ z = ground arith in
            subst
              (λ v.
                (above (v ∷ k) < d)
                ⊎ ((above (v ∷ k) ≡ d) × IsBefore t (length p + suc (length k)) m.sequence))
              same (behind_edge k m (ap (λ v. f (v ∷ k)) same ∙ e) (Option-cases (strip rest k)))
      ]

-- The walk among children that have a nearest terminal ends at one.
lookup_child-ne-none :
    (current : Option Terminal) (c : Children) (p : List ℕ) (matched x : ℕ) (q : List ℕ)
    → current ≢ none
    → IsTrie p c
    → (lookup_child current c matched x q).1 ≢ none
unfolding lookup_child lookup_edge
lookup_child-ne-none current no_child p matched x q some_ trie = some_
lookup_child-ne-none current (child first rest mark nearest children siblings) p matched x q some_
      (lacks, (near, (cached, (trie, others)))) =
    elim (Bool-cases (first == x)) [
      | inr e ↦
          rw (e, lookup_child) (lookup_child-ne-none current siblings p matched x q some_ others)
      | inl e ↦
          rw (e, lookup_child)
            (edge (fork rest q) (λ y r.
              lookup_child-ne-none nearest children (p ++ (first ∷ rest))
                (matched + suc (length rest)) y r cached trie))
    ]
  where
    edge :
        (s : List ℕ × (List ℕ × List ℕ))
        → ((y : ℕ) (r : List ℕ)
            → (lookup_child nearest children (matched + suc (length rest)) y r).1 ≢ none)
        → (lookup_edge matched s nearest
            (lookup_child nearest children (matched + suc (length rest)))).1
          ≢ none
    edge (a, ([], [])) down = cached
    edge (a, ([], y ∷ r)) down = down y r
    edge (a, (y ∷ i, j)) down = cached

pub lookup_child-IsBest :
    (f : List ℕ → Option Mark) (p : List ℕ) (current : Option Terminal) (c : Children)
    (matched x : ℕ) (q : List ℕ)
    → IsNearest f p current
    → ((k : List ℕ) → f (x ∷ k) ≡ find c x k)
    → IsTrie p c
    → matched ≡ length p
    → IsBest
        (λ k. length p + common_element_prefix (x ∷ q) k)
        f
        p
        (lookup_child current c matched x q)
unfolding lookup_child lookup_edge common_element_prefix find bound
lookup_child-IsBest f p current no_child matched x q near there trie at =
    IsNearest→IsBest (λ k. length p + common_element_prefix (x ∷ q) k) f p matched current apart
      near
  where
    apart :
        (k : List ℕ) (m : Mark)
        → f k ≡ some m
        → length p + common_element_prefix (x ∷ q) k ≡ matched
    apart [] m e = omega (arith, at)
    apart (z ∷ k) m e = elim (Bool-cases (x == z)) [
      | inr h ↦ rw h (omega (arith, at))
      | inl h ↦
          let same : x ≡ z = ground arith in
          absurd (none-ne-some m (sym (there k) ∙ ap (λ v. f (v ∷ k)) same ∙ e))
    ]
lookup_child-IsBest f p current (child first rest mark nearest children siblings) matched x q near
      there (lacks, (inner, (cached, (trie, others)))) at =
    elim (Bool-cases (first == x)) [
      | inr e ↦
          let other : first ≢ x = ground arith in
          rw (e, lookup_child)
            (lookup_child-IsBest f p current siblings matched x q near
              (λ k. there k ∙ find-sibling first x rest mark nearest children siblings k other)
              others at)
      | inl e ↦
          let same : first ≡ x = ground arith in
          let (l, r) = fork-append rest q in
          rw (e, lookup_child)
            (edge (fork rest q) l r (fork-IsApart rest q)
              (λ k.
                there k
                ∙ ap (λ v. find (child first rest mark nearest children siblings) v k) (sym same)
                ∙ find-child first rest mark nearest children siblings k)
              (subst (λ v. IsNearest (bound mark children) (p ++ (v ∷ rest)) nearest) same inner)
              (subst (λ v. IsTrie (p ++ (v ∷ rest)) children) same trie)
              (λ y r.
                lookup_child-IsBest (bound mark children) (p ++ (x ∷ rest)) nearest children
                  (matched + suc (length rest)) y r))
    ]
  where
    edge :
        (s : List ℕ × (List ℕ × List ℕ))
        → let (a, (i, j)) = s in
          rest ≡ a ++ i
          → q ≡ a ++ j
          → IsApart i j
          → ((k : List ℕ) → f (x ∷ k) ≡ behind mark children (strip rest k))
          → IsNearest (bound mark children) (p ++ (x ∷ rest)) nearest
          → IsTrie (p ++ (x ∷ rest)) children
          → ((y : ℕ) (r : List ℕ)
              → IsNearest (bound mark children) (p ++ (x ∷ rest)) nearest
              → ((k : List ℕ) → bound mark children (y ∷ k) ≡ find children y k)
              → IsTrie (p ++ (x ∷ rest)) children
              → matched + suc (length rest) ≡ length (p ++ (x ∷ rest))
              → IsBest
                  (λ k. length (p ++ (x ∷ rest)) + common_element_prefix (y ∷ r) k)
                  (bound mark children)
                  (p ++ (x ∷ rest))
                  (lookup_child nearest children (matched + suc (length rest)) y r))
          → IsBest
              (λ k. length p + common_element_prefix (x ∷ q) k)
              f
              p
              (lookup_edge matched s nearest
                (lookup_child nearest children (matched + suc (length rest))))
    edge (a, ([], [])) l r apart here near_ trie_ down =
        subst
          (λ v.
            IsBest (λ k. length p + common_element_prefix (x ∷ v) k) f p
              (matched + suc (length a), nearest))
          (sym r)
          (IsBest-child f p x rest a [] [] mark children l here (matched + suc (length a)) nearest
            cached
            (IsNearest→IsBest (below f p x rest a [] [] mark children l here) (bound mark children)
              (p ++ (x ∷ rest)) (matched + suc (length a)) nearest (λ k m e. omega (arith, at))
              near_))
    edge (a, ([], y ∷ r')) l r apart here near_ trie_ down =
        let whole = ap length l ∙ length-append a [] in
        let size = length-append p (x ∷ rest) in
        let (d, n) = lookup_child nearest children (matched + suc (length rest)) y r' in
        subst (λ v. IsBest (λ k. length p + common_element_prefix (x ∷ v) k) f p (d, n)) (sym r)
          (IsBest-child f p x rest a [] (y ∷ r') mark children l here d n
            (lookup_child-ne-none nearest children (p ++ (x ∷ rest)) (matched + suc (length rest)) y
              r' cached trie_)
            (IsBest-size (λ k. length (p ++ (x ∷ rest)) + common_element_prefix (y ∷ r') k)
              (below f p x rest a [] (y ∷ r') mark children l here) (bound mark children)
              (p ++ (x ∷ rest)) (d, n) (λ k. omega (arith, whole, size))
              (down y r' near_ (λ k. refl) trie_ (omega (arith, at, size)))))
    edge (a, (y ∷ i, j)) l r apart here near_ trie_ down =
        subst
          (λ v.
            IsBest (λ k. length p + common_element_prefix (x ∷ v) k) f p
              (matched + suc (length a), nearest))
          (sym r)
          (IsBest-child f p x rest a (y ∷ i) j mark children l here (matched + suc (length a))
            nearest cached
            (IsNearest→IsBest (below f p x rest a (y ∷ i) j mark children l here)
              (bound mark children) (p ++ (x ∷ rest)) (matched + suc (length a)) nearest
              (λ k m e. omega (arith, at, common-apart y i j k apart)) near_))

-- The marks of a bucket by the elements behind its prefix.
unfoldable pub find_root : Root → List ℕ → Option Mark
find_root root = bound root.mark root.children

-- In a trie that is well formed, a lookup gives the best of all terminals: none has more elements
-- of the query, of those with as many none is less deep, of those as deep none is newer, and the
-- number beside it is that of the elements they share; there is none only if no key has a mark.
pub lookup_root-IsBest :
    (root : Root) (q : List ℕ)
    → IsRoot root
    → IsBest (common_element_prefix q) (find_root root) [] (lookup_root root q)
unfolding lookup_root find_root common_element_prefix bound
lookup_root-IsBest root [] (near, trie) =
    IsNearest→IsBest (common_element_prefix []) (bound root.mark root.children) [] 0 root.nearest
      (λ k m e. refl) near
lookup_root-IsBest root (x ∷ q) (near, trie) =
    IsBest-size (λ k. 0 + common_element_prefix (x ∷ q) k) (common_element_prefix (x ∷ q))
      (bound root.mark root.children) [] (lookup_root root (x ∷ q)) (λ k. omega arith)
      (lookup_child-IsBest (bound root.mark root.children) [] root.nearest root.children 0 x q near
        (λ k. refl) trie refl)
