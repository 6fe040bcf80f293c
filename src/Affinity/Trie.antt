-- ===== src/Affinity/Trie.antt =====
-- internal/bridge/affinity_cache.go: the radix trie of one bucket. A node is known by its key, the
-- elements behind the bucket's prefix, and its depth is the length of that key. The candidate heap of a
-- node with many children gives the best of them, which is computed here from the children.
pub mod Find
pub mod Bucket
pub mod Inserted
pub mod Lookup
pub mod Nearest
pub mod Placed
pub mod Wellformed
use meow_cli.Common.{
  ℕ, suc, ◌+◌, Bool, true, false, not, ◌&&◌, ◌||◌, List, [], ◌∷◌, ◌++◌, Option, none, some, length,
  ltb, ◌==◌, if◌then◌else◌,
}
use meow_cli.Affinity.Edges.{fork, strip}
use meow_cli.Common.Text.{Text, text_eq}

-- credential and boundSequence of a node that is terminal.
pub record Mark : Type 0 where
  pub credential : Text
  pub sequence : ℕ

-- A terminal node, as nearestTerminal points to it.
pub record Terminal : Type 0 where
  pub key : List ℕ
  pub mark : Mark

-- The children of a node: the first element of the edge, by which the node's map finds the child, the
-- rest of the edge, the mark of a terminal, nearestTerminal, the child's own children, and the other
-- children of the node.
pub data Children : Type 0 where
  no_child : Children
  child : ℕ → List ℕ → Option Mark → Option Terminal → Children → Children → Children

-- The root of a bucket.
pub record Root : Type 0 where
  pub mark : Option Mark
  pub nearest : Option Terminal
  pub children : Children

abbrev pub empty_root : Root
empty_root = record { mark = none; nearest = none; children = no_child }

abbrev pub depth : Terminal → ℕ
depth t = length t.key

abbrev pub terminal_newer : Terminal → Terminal → Bool
terminal_newer left right = ltb right.mark.sequence left.mark.sequence

unfoldable pub better_content_terminal : Option Terminal → Option Terminal → Bool
better_content_terminal none right = false
better_content_terminal (some left) none = true
better_content_terminal (some left) (some right) =
    if depth left == depth right then terminal_newer left right else ltb (depth left) (depth right)

-- One node of the loop of propagateTerminal (a node's key is compared for its address): its nearestTerminal, and whether the loop goes on.
unfoldable pub climb : Terminal → Option Terminal → Option Terminal × Bool
unfolding text_eq
climb t none = (some t, true)
climb t (some n) =
    if not (text_eq n.key t.key)
      && (ltb (depth n) (depth t) || (depth n == depth t) && not (terminal_newer t n))
    then (some n, false)
    else (some t, true)

-- The same where the loop may have ended below.
abbrev pub propagate : Bool → Terminal → Option Terminal → Option Terminal × Bool
propagate up t nearest = if up then climb t nearest else (nearest, false)

-- The end of the longest common prefix of an edge and a key. `down` inserts into the child's children.
-- The result is the child in its place, and whether propagateTerminal goes on above it.
unfoldable pub insert_edge :
    ℕ
    → List ℕ × (List ℕ × List ℕ)
    → Option Mark
    → Option Terminal
    → Children
    → Children
    → Terminal
    → (ℕ → List ℕ → Children × Bool)
    → Children × Bool
unfolding climb
insert_edge first (a, ([], [])) mark nearest children siblings t down =
    let (nearest', up) = climb t nearest in
    (child first a (some t.mark) nearest' children siblings, up)
insert_edge first (a, ([], y ∷ r)) mark nearest children siblings t down =
    let (children', up) = down y r in
    let (nearest', up') = propagate up t nearest in
    (child first a mark nearest' children' siblings, up')
insert_edge first (a, (y ∷ i, [])) mark nearest children siblings t down =
    let (nearest', up) = climb t nearest in
    (child first a (some t.mark) nearest' (child y i mark nearest children no_child) siblings, up)
insert_edge first (a, (y ∷ i, z ∷ r)) mark nearest children siblings t down =
    let (nearest', up) = climb t nearest in
    let rest = child y i mark nearest children no_child in
    (child first a none nearest' (child z r (some t.mark) (some t) no_child rest) siblings, up)

unfoldable pub insert_child : Terminal → Children → ℕ → List ℕ → Children × Bool
unfolding insert_edge fork
insert_child t no_child x q = (child x q (some t.mark) (some t) no_child no_child, true)
insert_child t (child first rest mark nearest children siblings) x q = elim (first == x) [
  | true ↦
      insert_edge first (fork rest q) mark nearest children siblings t (insert_child t children)
  | false ↦
      let (siblings', up) = insert_child t siblings x q in
      (child first rest mark nearest children siblings', up)
]

-- insert with markTerminal and propagateTerminal: `t` is the new terminal, whose key is `q`.
unfoldable pub insert_root : Terminal → List ℕ → Root → Root
unfolding insert_child climb
insert_root t [] root = record root { mark = some t.mark; nearest = (climb t root.nearest).0 }
insert_root t (x ∷ q) root =
    let (children, up) = insert_child t root.children x q in
    record root { nearest = (propagate up t root.nearest).0; children = children }

-- The loop of lookup: the elements that matched, and the nearest terminal behind them. `nearest` is
-- that of the current node.
unfoldable pub lookup_edge :
    ℕ
    → List ℕ × (List ℕ × List ℕ)
    → Option Terminal
    → (ℕ → List ℕ → ℕ × Option Terminal)
    → ℕ × Option Terminal
lookup_edge matched (a, ([], [])) nearest down = (matched + suc (length a), nearest)
lookup_edge matched (a, ([], y ∷ r)) nearest down = down y r
lookup_edge matched (a, (y ∷ i, j)) nearest down = (matched + suc (length a), nearest)

unfoldable pub lookup_child : Option Terminal → Children → ℕ → ℕ → List ℕ → ℕ × Option Terminal
unfolding lookup_edge fork
lookup_child current no_child matched x q = (matched, current)
lookup_child current (child first rest mark nearest children siblings) matched x q =
    elim (first == x) [
      | true ↦
          lookup_edge matched (fork rest q) nearest
            (lookup_child nearest children (matched + suc (length rest)))
      | false ↦ lookup_child current siblings matched x q
    ]

-- The elements behind the prefix that match, without the prefix.
unfoldable pub lookup_root : Root → List ℕ → ℕ × Option Terminal
unfolding lookup_child
lookup_root root [] = (0, root.nearest)
lookup_root root (x ∷ q) = lookup_child root.nearest root.children 0 x q
