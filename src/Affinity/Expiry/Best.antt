-- ===== src/Affinity/Expiry/Best.antt =====
-- recomputeNode finds the nearest terminal behind a node from its mark and its children.
use mathlib.Core.Option.{some-injective, none-ne-some}
use mathlib.Core.List.{append_assoc}
use meow_cli.Common.{
  ℕ, suc, ◌+◌, ◌≡◌, ◌≢◌, ◌∙◌, ◌⊎◌, inl, inr, sym, ap, refl, subst, true, false, List, [], ◌∷◌, ◌++◌,
  Option, none, some, arith, length, length-append, ◌==◌, Bool-cases, Option-cases, if◌then◌else◌,
}
use meow_cli.Affinity.Edges.{strip, strip-some}
use meow_cli.Affinity.Trie.{
  Mark, Terminal, Children, no_child, child, depth, better_content_terminal,
}
use meow_cli.Affinity.Trie.Find.{find, bound, behind, find-child, find-sibling}
use meow_cli.Affinity.Trie.Nearest.{IsBefore, IsNearest}
use meow_cli.Affinity.Trie.Wellformed.{Lacks, IsTrie, find-Lacks, find-lifted}
use meow_cli.Affinity.Expiry.{best_child, recompute_node}

-- There is a terminal, and one of this depth and sequence is not before it.
abbrev pub IsNoLater : Option Terminal → ℕ → ℕ → Type 0
IsNoLater none d n = ⊥
IsNoLater (some t) d n = IsBefore t d n

IsNoLater-ne-none : (o : Option Terminal) (d n : ℕ) → IsNoLater o d n → o ≢ none
IsNoLater-ne-none none d n h e = h
IsNoLater-ne-none (some t) d n h e = none-ne-some t (sym e)

abbrev better : Option Terminal → Option Terminal → Option Terminal
better nearest best = if better_content_terminal nearest best then nearest else best

better-right :
    (nearest best : Option Terminal) (d n : ℕ)
    → IsNoLater best d n
    → IsNoLater (better nearest best) d n
unfolding better_content_terminal
better-right none best d n h = h
better-right (some t) none d n h = absurd h
better-right (some t) (some u) d n h =
    elim (Bool-cases (better_content_terminal (some t) (some u))) [
      | inl e ↦ rw e (ground arith)
      | inr e ↦ rw e h
    ]

better-left :
    (nearest best : Option Terminal) (d n : ℕ)
    → IsNoLater nearest d n
    → IsNoLater (better nearest best) d n
unfolding better_content_terminal
better-left none best d n h = absurd h
better-left (some t) none d n h = h
better-left (some t) (some u) d n h =
    elim (Bool-cases (better_content_terminal (some t) (some u))) [
      | inl e ↦ rw e h
      | inr e ↦ rw e (ground arith)
    ]

best_child-right :
    (best : Option Terminal) (c : Children) (d n : ℕ)
    → IsNoLater best d n
    → IsNoLater (best_child best c) d n
unfolding best_child
best_child-right best no_child d n h = h
best_child-right best (child first rest mark nearest children siblings) d n h =
    best_child-right (better nearest best) siblings d n (better-right nearest best d n h)

-- The nearest terminal of a node is not later than any mark behind it.
IsNearest→IsNoLater :
    (f : List ℕ → Option Mark) (p : List ℕ) (n : Option Terminal) (k : List ℕ) (m : Mark)
    → IsNearest f p n
    → f k ≡ some m
    → IsNoLater n (length p + length k) m.sequence
IsNearest→IsNoLater f p none k m near e = absurd (none-ne-some m (sym (near k) ∙ e))
IsNearest→IsNoLater f p (some t) k m near e = near.1 k m e

best_child-covers :
    (p : List ℕ) (best : Option Terminal) (c : Children) (k : List ℕ) (m : Mark)
    → IsTrie p c
    → bound none c k ≡ some m
    → IsNoLater (best_child best c) (length p + length k) m.sequence
unfolding best_child bound find
best_child-covers p best c [] m trie e = absurd (none-ne-some m e)
best_child-covers p best no_child (z ∷ k) m trie e = absurd (none-ne-some m e)
best_child-covers p best (child first rest mark nearest children siblings) (z ∷ k) m
      (lacks, (near, (cached, (trie, others)))) e =
    elim (Bool-cases (first == z)) [
      | inr h ↦
          let other : first ≢ z = ground arith in
          best_child-covers p (better nearest best) siblings (z ∷ k) m others
            (sym (find-sibling first z rest mark nearest children siblings k other) ∙ e)
      | inl h ↦
          let same : first ≡ z = ground arith in
          here
            (sym (find-child first rest mark nearest children siblings k)
              ∙ ap (λ v. find (child first rest mark nearest children siblings) v k) same
              ∙ e)
            (Option-cases (strip rest k))
    ]
  where
    here :
        behind mark children (strip rest k) ≡ some m
        → (strip rest k ≡ none) ⊎ ((l : List ℕ) × (strip rest k ≡ some l))
        → IsNoLater
            (best_child (better nearest best) siblings)
            (length p + suc (length k))
            m.sequence
    here found (inl none_) = absurd (none-ne-some m (ap (behind mark children) (sym none_) ∙ found))
    here found (inr (l, s)) =
        let size = ap length (strip-some rest k l s) ∙ length-append rest l in
        let whole = length-append p (first ∷ rest) in
        let same : length (p ++ (first ∷ rest)) + length l ≡ length p + suc (length k) =
          omega (arith, size, whole) in
        let inner =
          IsNearest→IsNoLater (bound mark children) (p ++ (first ∷ rest)) nearest l m near
            (ap (behind mark children) (sym s) ∙ found) in
        best_child-right (better nearest best) siblings (length p + suc (length k)) m.sequence (
          better-left nearest best (length p + suc (length k)) m.sequence
            (subst (λ v. IsNoLater nearest v m.sequence) same inner))

-- A terminal behind a node, with its key.
abbrev IsBehind : List ℕ → Children → Terminal → Type 0
IsBehind p c t = (k : List ℕ) × ((t.key ≡ p ++ k) × (bound none c k ≡ some t.mark))

IsBehind-sibling :
    (p : List ℕ) (first : ℕ) (rest : List ℕ) (mark : Option Mark) (nearest : Option Terminal)
    (children siblings : Children) (t : Terminal)
    → Lacks first siblings
    → IsBehind p siblings t
    → IsBehind p (child first rest mark nearest children siblings) t
unfolding bound
IsBehind-sibling p first rest mark nearest children siblings t lacks ([], (named, found)) =
    absurd (none-ne-some t.mark found)
IsBehind-sibling p first rest mark nearest children siblings t lacks (x ∷ k, (named, found)) =
    let apart : first ≢ x = λ e.
      none-ne-some t.mark
        (sym (find-Lacks x k siblings (subst (λ v. Lacks v siblings) e lacks)) ∙ found) in
    (x ∷ k, (named, find-sibling first x rest mark nearest children siblings k apart ∙ found))

IsBehind-child :
    (p : List ℕ) (first : ℕ) (rest : List ℕ) (mark : Option Mark) (nearest : Option Terminal)
    (children siblings : Children) (n : Option Terminal) (t : Terminal)
    → n ≡ some t
    → IsNearest (bound mark children) (p ++ (first ∷ rest)) n
    → IsBehind p (child first rest mark nearest children siblings) t
unfolding bound
IsBehind-child p first rest mark nearest children siblings none t e near = absurd (none-ne-some t e)
IsBehind-child p first rest mark nearest children siblings (some u) t e near =
    let ((k, named, found), before) = near in
    let same : u ≡ t = some-injective u t e in
    (
      first ∷ (rest ++ k),
      (
        ap (λ (v : Terminal). v.key) (sym same) ∙ named ∙ append_assoc p (first ∷ rest) k,
        find-lifted first rest mark nearest children siblings k
            ∙ found
            ∙ ap (λ (v : Terminal). some v.mark) same,
      ),
    )

best_child-source :
    (p : List ℕ) (best : Option Terminal) (c : Children) (t : Terminal)
    → IsTrie p c
    → best_child best c ≡ some t
    → (best ≡ some t) ⊎ IsBehind p c t
unfolding best_child
best_child-source p best no_child t trie e = inl e
best_child-source p best (child first rest mark nearest children siblings) t
      (lacks, (near, (cached, (trie, others)))) e =
    of (best_child-source p (better nearest best) siblings t others e)
      (Bool-cases (better_content_terminal nearest best))
  where
    of :
        (better nearest best ≡ some t) ⊎ IsBehind p siblings t
        → (better_content_terminal nearest best ≡ true)
          ⊎ (better_content_terminal nearest best ≡ false)
        → (best ≡ some t) ⊎ IsBehind p (child first rest mark nearest children siblings) t
    of (inr there) b =
        inr (IsBehind-sibling p first rest mark nearest children siblings t lacks there)
    of (inl here) (inl b) =
        inr
          (IsBehind-child p first rest mark nearest children siblings nearest t (rw b at here) near)
    of (inl here) (inr b) = inl (rw b at here)

pub IsNearest-best_child :
    (p : List ℕ) (c : Children) → IsTrie p c → IsNearest (bound none c) p (best_child none c)
IsNearest-best_child p c trie = of (best_child none c) refl
  where
    empty :
        (o : Option Mark) (k : List ℕ) → bound none c k ≡ o → best_child none c ≡ none → o ≡ none
    empty none k e h = refl
    empty (some m) k e h = absurd (
        IsNoLater-ne-none (best_child none c) (length p + length k) m.sequence
          (best_child-covers p none c k m trie e) h)

    source : (t : Terminal) → (none ≡ some t) ⊎ IsBehind p c t → IsBehind p c t
    source t (inl e) = absurd (none-ne-some t e)
    source t (inr there) = there

    of : (o : Option Terminal) → best_child none c ≡ o → IsNearest (bound none c) p o
    of none e = λ k. empty (bound none c k) k refl e
    of (some t) e =
        let (k, (named, found)) = source t (best_child-source p none c t trie e) in
        (
          (k, named, found),
          λ l m h.
              subst (λ v. IsNoLater v (length p + length l) m.sequence) e
                (best_child-covers p none c l m trie h),
        )

-- There is a child.
abbrev pub HasChild : Children → Type 0
HasChild no_child = ⊥
HasChild (child first rest mark nearest children siblings) = Unit

pub best_child-ne-none :
    (p : List ℕ) (c : Children) → IsTrie p c → HasChild c → best_child none c ≢ none
unfolding best_child
best_child-ne-none p no_child trie some_ = absurd some_
best_child-ne-none p (child first rest mark nearest children siblings)
      (lacks, (near, (cached, (trie, others)))) some_ =
    of nearest cached
  where
    of : (n : Option Terminal) → n ≢ none → best_child (better n none) siblings ≢ none
    of none h = absurd (h refl)
    of (some t) h =
        IsNoLater-ne-none (best_child (better (some t) none) siblings) (depth t) t.mark.sequence (
          best_child-right (better (some t) none) siblings (depth t) t.mark.sequence
            (better-left (some t) none (depth t) t.mark.sequence (inr (refl, omega arith))))

append_nil : (l : List ℕ) → l ++ [] ≡ l
append_nil [] = refl
append_nil (x ∷ l) = ap (◌∷◌ x) (append_nil l)

pub IsNearest-recompute_node :
    (p : List ℕ) (mark : Option Mark) (c : Children)
    → IsTrie p c
    → IsNearest (bound mark c) p (recompute_node p mark c)
unfolding recompute_node bound
IsNearest-recompute_node p none c trie = IsNearest-best_child p c trie
IsNearest-recompute_node p (some m) c trie =
    (([], sym (append_nil p), refl), λ k m' e. later k m' e)
  where
    later :
        (k : List ℕ) (m' : Mark)
        → bound (some m) c k ≡ some m'
        → IsBefore (record { key = p; mark = m }) (length p + length k) m'.sequence
    later [] m' e =
        let same : m.sequence ≡ m'.sequence =
          ap (λ (v : Mark). v.sequence) (some-injective m m' e) in
        omega (arith, same)
    later (x ∷ k) m' e = inl (omega arith)

pub recompute_node-ne-none :
    (p : List ℕ) (mark : Option Mark) (c : Children)
    → IsTrie p c
    → HasChild c
    → recompute_node p mark c ≢ none
unfolding recompute_node
recompute_node-ne-none p none c trie some_ = best_child-ne-none p c trie some_
recompute_node-ne-none p (some m) c trie some_ =
    λ h. none-ne-some (record { key = p; mark = m }) (sym h)
