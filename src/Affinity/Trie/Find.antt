-- ===== src/Affinity/Trie/Find.antt =====
-- The marks of a trie by their keys, and what insertion does to them.
use meow_cli.Common.{
  ℕ, ◌≡◌, ◌≢◌, ◌∙◌, inl, inr, sym, ap, refl, Bool, true, false, List, [], ◌∷◌, ◌++◌, Option, none,
  some, arith, ◌==◌, Bool-cases, Option-cases, if◌then◌else◌,
}
use meow_cli.Affinity.Edges.{
  fork, fork-append, fork-IsApart, IsApart, strip, strip_next, strip-append,
}
use meow_cli.Affinity.Trie.{
  Mark, Terminal, Children, no_child, child, climb, insert_edge, insert_child,
}
use meow_cli.Common.Text.{text_eq}

-- The mark of a key behind the edge to a child.
unfoldable pub find : Children → ℕ → List ℕ → Option Mark
unfolding strip
find no_child x q = none
find (child first rest mark nearest children siblings) x q =
    let there = strip rest q in
    if first == x
    then (elim there [ none ↦ none | some k ↦ elim k [ [] ↦ mark | y ∷ r ↦ find children y r ] ])
    else find siblings x q

-- The mark of a key behind a node.
unfoldable pub bound : Option Mark → Children → List ℕ → Option Mark
unfolding find
bound mark children [] = mark
bound mark children (x ∷ q) = find children x q

abbrev pub behind : Option Mark → Children → Option (List ℕ) → Option Mark
behind mark children none = none
behind mark children (some k) = bound mark children k

pub find-child :
    (first : ℕ) (rest : List ℕ) (mark : Option Mark) (nearest : Option Terminal)
    (children siblings : Children) (k : List ℕ)
    → find (child first rest mark nearest children siblings) first k
      ≡ behind mark children (strip rest k)
unfolding find bound
find-child first rest mark nearest children siblings k = elim (Option-cases (strip rest k)) [
  | inl e ↦ ground arith
  | inr (j, e) ↦ rw e (ground arith)
]

-- The child alone.
pub find-only_child :
    (first : ℕ) (rest : List ℕ) (mark : Option Mark) (nearest : Option Terminal)
    (children : Children) (x : ℕ) (k : List ℕ)
    → find (child first rest mark nearest children no_child) x k
      ≡ behind mark children (strip (first ∷ rest) (x ∷ k))
unfolding find strip bound
find-only_child first rest mark nearest children x k = elim (Option-cases (strip rest k)) [
  | inl e ↦ ground arith
  | inr (j, e) ↦ rw e (ground arith)
]

pub find-sibling :
    (first x : ℕ) (rest : List ℕ) (mark : Option Mark) (nearest : Option Terminal)
    (children siblings : Children) (k : List ℕ)
    → first ≢ x
    → find (child first rest mark nearest children siblings) x k ≡ find siblings x k
unfolding find
find-sibling first x rest mark nearest children siblings k h = ground arith

abbrev pub same_behind : List ℕ → Option (List ℕ) → Bool
same_behind j none = false
same_behind j (some r) = text_eq r j

pub text_eq-strip : (a j k : List ℕ) → text_eq k (a ++ j) ≡ same_behind j (strip a k)
unfolding text_eq strip
text_eq-strip [] j k = refl
text_eq-strip (x ∷ a) j [] = refl
text_eq-strip (x ∷ a) j (y ∷ k) = elim (Bool-cases (x == y)) [
  | inl e ↦ rw e (ground (arith, text_eq-strip a j k))
  | inr e ↦ rw e (ground arith)
]

-- What is found where one mark was set.
abbrev pub set_mark : Option Mark → Bool → Option Mark → Option Mark
set_mark m here old = if here then m else old

behind-leaf :
    (m : Mark) (r l : List ℕ)
    → behind (some m) no_child (strip r l) ≡ set_mark (some m) (text_eq l r) none
unfolding strip bound find text_eq
behind-leaf m [] [] = refl
behind-leaf m [] (x ∷ l) = refl
behind-leaf m (y ∷ r) [] = refl
behind-leaf m (y ∷ r) (x ∷ l) = elim (Bool-cases (y == x)) [
  | inl e ↦ let f : (x == y) ≡ true = ground arith in rw (e, f) (behind-leaf m r l)
  | inr e ↦ let f : (x == y) ≡ false = ground arith in rw (e, f)
]

-- A new leaf before a child with another first element.
pub find-leaf :
    (y : ℕ) (i : List ℕ) (mark : Option Mark) (nearest : Option Terminal) (children : Children)
    (z : ℕ) (r : List ℕ) (t : Terminal) (w : ℕ) (l : List ℕ)
    → y ≢ z
    → find
        (child z r (some t.mark) (some t) no_child (child y i mark nearest children no_child))
        w
        l
      ≡ set_mark
          (some t.mark)
          (text_eq (w ∷ l) (z ∷ r))
          (behind mark children (strip (y ∷ i) (w ∷ l)))
find-leaf y i mark nearest children z r t w l apart =
    let rest = child y i mark nearest children no_child in
    elim (Bool-cases (z == w)) [
      | inl e ↦
          let same : z ≡ w = ground arith in
          let other : (y == w) ≡ false = ground arith in
          let here : (w == z) ≡ true = ground arith in
          ap (λ v. find (child z r (some t.mark) (some t) no_child rest) v l) (sym same)
          ∙ find-child z r (some t.mark) (some t) no_child rest l
          ∙ behind-leaf t.mark r l
          ∙ unfold text_eq strip in (rw (here, other))
      | inr e ↦
          let other : z ≢ w = ground arith in
          let away : (w == z) ≡ false = ground arith in
          find-sibling z w r (some t.mark) (some t) no_child rest l other
          ∙ find-only_child y i mark nearest children w l
          ∙ unfold text_eq in (rw away)
    ]

-- An edge that ends at the new key, or before it, or behind it, or apart from it; `o` is the key that is
-- looked for, behind the common part.
bound-insert_edge :
    (i j : List ℕ) (first : ℕ) (a : List ℕ) (mark : Option Mark) (nearest : Option Terminal)
    (children siblings : Children) (t : Terminal) (down : ℕ → List ℕ → Children × Bool)
    → IsApart i j
    → ((y : ℕ) (r : List ℕ) (z : ℕ) (k : List ℕ)
        → j ≡ y ∷ r
        → find (down y r).0 z k
          ≡ set_mark (some t.mark) (text_eq (z ∷ k) (y ∷ r)) (find children z k))
    → (k : List ℕ)
    → find (insert_edge first (a, (i, j)) mark nearest children siblings t down).0 first k
      ≡ set_mark
          (some t.mark)
          (same_behind j (strip a k))
          (behind mark children (strip_next i (strip a k)))
unfolding insert_edge
bound-insert_edge [] [] first a mark nearest children siblings t down apart below k =
    find-child first a (some t.mark) (climb t nearest).0 children siblings k ∙ at_end (strip a k)
  where
    at_end :
        (o : Option (List ℕ))
        → behind (some t.mark) children o
          ≡ set_mark (some t.mark) (same_behind [] o) (behind mark children (strip_next [] o))
    at_end none = refl
    at_end (some []) = unfold text_eq bound strip in refl
    at_end (some (z ∷ r)) = unfold text_eq bound strip in refl
bound-insert_edge [] (y ∷ r) first a mark nearest children siblings t down apart below k =
    let (children', up) = down y r in
    find-child first a mark _ children' siblings k ∙ further (strip a k)
  where
    further :
        (o : Option (List ℕ))
        → behind mark (down y r).0 o
          ≡ set_mark (some t.mark) (same_behind (y ∷ r) o) (behind mark children (strip_next [] o))
    further none = refl
    further (some []) = unfold text_eq bound strip in refl
    further (some (z ∷ l)) = unfold bound strip in below y r z l refl
bound-insert_edge (y ∷ i) [] first a mark nearest children siblings t down apart below k =
    find-child first a (some t.mark) (climb t nearest).0 (child y i mark nearest children no_child)
      siblings k
    ∙ split (strip a k)
  where
    split :
        (o : Option (List ℕ))
        → behind (some t.mark) (child y i mark nearest children no_child) o
          ≡ set_mark (some t.mark) (same_behind [] o) (behind mark children (strip_next (y ∷ i) o))
    split none = refl
    split (some []) = unfold text_eq bound strip in refl
    split (some (z ∷ l)) = unfold text_eq bound in find-only_child y i mark nearest children z l
bound-insert_edge (y ∷ i) (z ∷ r) first a mark nearest children siblings t down apart below k =
    find-child first a none (climb t nearest).0
      (child z r (some t.mark) (some t) no_child (child y i mark nearest children no_child))
      siblings k
    ∙ split (strip a k)
  where
    split :
        (o : Option (List ℕ))
        → behind none
            (child z r (some t.mark) (some t) no_child (child y i mark nearest children no_child))
            o
          ≡ set_mark
              (some t.mark)
              (same_behind (z ∷ r) o)
              (behind mark children (strip_next (y ∷ i) o))
    split none = refl
    split (some []) = unfold text_eq bound strip in refl
    split (some (w ∷ l)) = unfold bound in find-leaf y i mark nearest children z r t w l apart

-- The two ways that insertion takes at a child.
pub insert_child-here :
    (t : Terminal) (first : ℕ) (rest : List ℕ) (mark : Option Mark) (nearest : Option Terminal)
    (children siblings : Children) (x : ℕ) (q : List ℕ)
    → (first == x) ≡ true
    → insert_child t (child first rest mark nearest children siblings) x q
      ≡ insert_edge first (fork rest q) mark nearest children siblings t (insert_child t children)
unfolding insert_child
insert_child-here t first rest mark nearest children siblings x q e = rw (e, insert_child)

pub insert_child-further :
    (t : Terminal) (first : ℕ) (rest : List ℕ) (mark : Option Mark) (nearest : Option Terminal)
    (children siblings : Children) (x : ℕ) (q : List ℕ)
    → (first == x) ≡ false
    → insert_child t (child first rest mark nearest children siblings) x q ≡ (
      child first rest mark nearest children (insert_child t siblings x q).0,
      (insert_child t siblings x q).1,
    )
unfolding insert_child
insert_child-further t first rest mark nearest children siblings x q e = rw (e, insert_child)

-- The first elements of the edges are as they were.
insert_edge-first :
    (first x : ℕ) (edge : List ℕ × (List ℕ × List ℕ)) (mark : Option Mark)
    (nearest : Option Terminal) (children siblings : Children) (t : Terminal)
    (down : ℕ → List ℕ → Children × Bool) (k : List ℕ)
    → first ≢ x
    → find (insert_edge first edge mark nearest children siblings t down).0 x k ≡ find siblings x k
unfolding insert_edge
insert_edge-first first x (a, ([], [])) mark nearest children siblings t down k h =
    find-sibling first x a _ _ _ siblings k h
insert_edge-first first x (a, ([], y ∷ r)) mark nearest children siblings t down k h =
    find-sibling first x a _ _ _ siblings k h
insert_edge-first first x (a, (y ∷ i, [])) mark nearest children siblings t down k h =
    find-sibling first x a _ _ _ siblings k h
insert_edge-first first x (a, (y ∷ i, z ∷ r)) mark nearest children siblings t down k h =
    find-sibling first x a _ _ _ siblings k h

-- Insertion sets the mark of its key, and no other.
pub find-insert_child :
    (t : Terminal) (children : Children) (x : ℕ) (q : List ℕ) (y : ℕ) (k : List ℕ)
    → find (insert_child t children x q).0 y k
      ≡ set_mark (some t.mark) (text_eq (y ∷ k) (x ∷ q)) (find children y k)
unfolding insert_child
find-insert_child t no_child x q y k =
    find-only_child x q (some t.mark) (some t) no_child y k
    ∙ behind-leaf t.mark (x ∷ q) (y ∷ k)
    ∙ unfold find in refl
find-insert_child t (child first rest mark nearest children siblings) x q y k =
    let whole = child first rest mark nearest children siblings in
    let there = λ (c : Children × Bool). find c.0 y k in
    let wanted = set_mark (some t.mark) (text_eq (y ∷ k) (x ∷ q)) (find whole y k) in
    let (a, (i, j)) = fork rest q in
    let (l, r) = fork-append rest q in
    elim (Bool-cases (first == x)) [
      | inr e ↦
          ap there (insert_child-further t first rest mark nearest children siblings x q e)
          ∙ elim (Bool-cases (first == y)) [
            | inl f ↦
                let away : (y == x) ≡ false = ground arith in unfold text_eq find in (rw (away, f))
            | inr f ↦
                let other : first ≢ y = ground arith in
                find-sibling first y rest mark nearest children (insert_child t siblings x q).0 k
                  other
                ∙ find-insert_child t siblings x q y k
                ∙ ap (set_mark (some t.mark) (text_eq (y ∷ k) (x ∷ q)))
                    (sym (find-sibling first y rest mark nearest children siblings k other))
          ]
      | inl e ↦
          ap there (insert_child-here t first rest mark nearest children siblings x q e)
          ∙ elim (Bool-cases (first == y)) [
            | inl f ↦
                let same : first ≡ y = ground arith in
                let at_x : (y == x) ≡ true = ground arith in
                let key : same_behind j (strip a k) ≡ text_eq (y ∷ k) (x ∷ q) =
                  sym (text_eq-strip a j k)
                  ∙ ap (text_eq k) (sym r)
                  ∙ unfold text_eq in (rw at_x) in
                let old : behind mark children (strip_next i (strip a k)) ≡ find whole first k =
                  ap (behind mark children) (sym (strip-append a i k) ∙ ap (λ l. strip l k) (sym l))
                  ∙ sym (find-child first rest mark nearest children siblings k) in
                let new =
                  insert_edge first (fork rest q) mark nearest children siblings t
                    (insert_child t children) in
                ap (λ v. find new.0 v k) (sym same)
                ∙ bound-insert_edge i j first a mark nearest children siblings t
                    (insert_child t children) (fork-IsApart rest q)
                    (λ y r z k e. find-insert_child t children y r z k) k
                ∙ rw (key, old)
                    (ap (λ v. set_mark (some t.mark) (text_eq (y ∷ k) (x ∷ q)) (find whole v k))
                      same)
            | inr f ↦
                let other : first ≢ y = ground arith in
                let away : (y == x) ≡ false = ground arith in
                insert_edge-first first y (fork rest q) mark nearest children siblings t
                  (insert_child t children) k other
                ∙ sym (find-sibling first y rest mark nearest children siblings k other)
                ∙ unfold text_eq in (rw away)
          ]
    ]
