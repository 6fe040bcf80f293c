-- ===== src/Affinity/Trie/Bucket.antt =====
-- The insertion into a bucket, from its root, and the lookup of what was inserted.
use mathlib.Core.Option.{some-injective, none-ne-some}
use meow_cli.Common.{
  ℕ, suc, ◌+◌, ◌≤◌, ◌<◌, ◌≡◌, ◌∙◌, inl, inr, sym, ap, refl, List, [], ◌∷◌, Option, none, some,
  arith, length, ◌==◌, Bool-cases, if◌then◌else◌,
}
use meow_cli.Common.Text.{text_eq, text_eq_refl}
use meow_cli.Affinity.Edges.{common_element_prefix}
use meow_cli.Affinity.Trie.{
  Mark, Terminal, Root, empty_root, depth, insert_child, insert_root, lookup_root,
}
use meow_cli.Affinity.Trie.Find.{find, bound}
use meow_cli.Affinity.Trie.Nearest.{IsNearest-climb, IsNearest-propagate}
use meow_cli.Affinity.Trie.Wellformed.{IsRoot}
use meow_cli.Affinity.Trie.Inserted.{IsInserted-insert_child}
use meow_cli.Affinity.Trie.Placed.{IsMarked-here, IsMarked-below, HasShorter-bound, IsOlder-bound}
use meow_cli.Affinity.Trie.Lookup.{IsBest, find_root, lookup_root-IsBest}

-- Every mark is older than the sequence.
abbrev pub IsOlderThan : Root → ℕ → Type 0
IsOlderThan root n = (k : List ℕ) (m : Mark) → find_root root k ≡ some m → m.sequence < n

-- The insertion sets the mark of its key and keeps the mark of every other key, whether it follows
-- an edge, splits one or adds one.
pub find_root-insert_root :
    (t : Terminal) (root : Root) (q k : List ℕ)
    → find_root (insert_root t q root) k ≡ (if text_eq k q then some t.mark else find_root root k)
unfolding find_root insert_root
find_root-insert_root t root [] k = IsMarked-here root.mark root.children t.mark k
find_root-insert_root t root (x ∷ q) k = IsMarked-below root.mark root.children t x q k

-- The insertion of a terminal that is newer than all marks keeps a trie well formed: the children
-- of a node begin with different elements, and every node points to the least deep and then newest
-- terminal behind it, though the walk to the root stops early.
pub insert_root-IsRoot :
    (t : Terminal) (root : Root)
    → IsRoot root
    → IsOlderThan root t.mark.sequence
    → IsRoot (insert_root t t.key root)
unfolding find_root insert_root
insert_root-IsRoot t root (near, trie) older = of t.key refl
  where
    of : (q : List ℕ) → t.key ≡ q → IsRoot (insert_root t q root)
    of [] named = (
      IsNearest-climb (bound root.mark root.children) (bound (some t.mark) root.children) [] [] t
          named (IsMarked-here root.mark root.children t.mark) root.nearest near older,
      trie,
    )
    of (x ∷ q) named =
        let (c, up) = insert_child t root.children x q in
        let (kept, stop) =
          IsInserted-insert_child t root.children [] x q trie
            (IsOlder-bound root.mark root.children t.mark.sequence older) named in
        (
          IsNearest-propagate (bound root.mark root.children) (bound root.mark c) [] (x ∷ q) t named
              (IsMarked-below root.mark root.children t x q) up root.nearest near older
              (λ h. HasShorter-bound root.mark root.children (suc (length q)) (stop h)),
          kept,
        )

common_self : (q : List ℕ) → common_element_prefix q q ≡ length q
unfolding common_element_prefix
common_self [] = refl
common_self (x ∷ q) = ground (arith, common_self q)

common_le : (q k : List ℕ) → common_element_prefix q k ≤ length q
unfolding common_element_prefix
common_le [] k = omega arith
common_le (x ∷ q) [] = omega arith
common_le (x ∷ q) (y ∷ k) = ground (arith, common_le q k)

-- A key that has the whole query and is not longer is the query.
common-eq : (q k : List ℕ) → common_element_prefix q k ≡ length q → length k ≤ length q → k ≡ q
unfolding common_element_prefix
common-eq [] [] e h = refl
common-eq [] (y ∷ k) e h = absurd (omega (arith, h))
common-eq (x ∷ q) [] e h = absurd (omega (arith, e))
common-eq (x ∷ q) (y ∷ k) e h = elim (Bool-cases (x == y)) [
  | inl f ↦
      let same : y ≡ x = ground arith in
      let rest = rw f at e in
      rw same (ap (◌∷◌ x) (common-eq q k (omega (arith, rest)) (omega (arith, h))))
  | inr f ↦ let rest = rw f at e in absurd (omega (arith, rest))
]

-- The best match of a key that has a mark is that key.
pub best-here :
    (f : List ℕ → Option Mark) (q : List ℕ) (m : Mark) (d : ℕ) (n : Option Terminal)
    → f q ≡ some m
    → IsBest (common_element_prefix q) f [] (d, n)
    → (d ≡ length q) × (n ≡ some (record { key = q; mark = m }))
best-here f q m d none found empty = absurd (none-ne-some m (sym (empty q) ∙ found))
best-here f q m d (some t) found ((k, (named, (there, size))), first) =
    let order = first q m found in
    let most = common_le q k in
    let self = common_self q in
    let all : d ≡ length q = omega (arith, order, most, self, size) in
    let short : depth t ≤ length q = omega (arith, order, all, self) in
    let key : t.key ≡ q =
      named ∙ common-eq q k (sym size ∙ all) (omega (arith, short, ap length named)) in
    let mark : t.mark ≡ m = some-injective t.mark m (sym there ∙ ap f (sym named ∙ key) ∙ found) in
    (all, rw (← key, ← mark) refl)

-- In a trie that is well formed and has no newer mark, a lookup of the key that was inserted last
-- matches the whole key and gives the terminal that was inserted.
pub lookup_root-insert_root :
    (t : Terminal) (root : Root)
    → IsRoot root
    → IsOlderThan root t.mark.sequence
    → lookup_root (insert_root t t.key root) t.key ≡ (length t.key, some t)
lookup_root-insert_root t root h older =
    let root' = insert_root t t.key root in
    let (d, n) = lookup_root root' t.key in
    let found = find_root-insert_root t root t.key t.key ∙ rw (text_eq_refl t.key) refl in
    let (depth, nearest) =
      best-here (find_root root') t.key t.mark d n found
        (lookup_root-IsBest root' t.key (insert_root-IsRoot t root h older)) in
    rw (depth, nearest) refl

pub insert_root-IsOlderThan :
    (t : Terminal) (root : Root) (q : List ℕ)
    → IsOlderThan root t.mark.sequence
    → IsOlderThan (insert_root t q root) (t.mark.sequence + 1)
insert_root-IsOlderThan t root q older k m e = elim (Bool-cases (text_eq k q)) [
  | inl here ↦
      let known = find_root-insert_root t root q k in
      let same = some-injective t.mark m (sym (rw here at known) ∙ e) in
      let sequence : t.mark.sequence ≡ m.sequence = ap (λ (v : Mark). v.sequence) same in
      omega (arith, sequence)
  | inr there ↦
      let known = find_root-insert_root t root q k in
      let before = older k m (sym (rw there at known) ∙ e) in omega (arith, before)
]

pub find_root-empty_root : (k : List ℕ) → find_root empty_root k ≡ none
unfolding find_root bound find
find_root-empty_root [] = refl
find_root-empty_root (x ∷ k) = refl

pub empty_root-IsRoot : IsRoot empty_root
empty_root-IsRoot = (unfold find_root in find_root-empty_root, tt)

pub empty_root-IsOlderThan : (n : ℕ) → IsOlderThan empty_root n
empty_root-IsOlderThan n k m e = absurd (none-ne-some m (sym (find_root-empty_root k) ∙ e))
