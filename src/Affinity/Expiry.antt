-- ===== src/Affinity/Expiry.antt =====
-- internal/bridge/affinity_cache.go: expireTerminal, with pruneEmptyPath and recomputePath. The path is
-- walked down to the node and then back up, where the code follows the parents' pointers.
pub mod Best
pub mod Kept
pub mod Wellformed
pub mod Removed
use meow_cli.Common.{
  ℕ, ◌≡◌, Bool, true, false, List, [], ◌∷◌, ◌++◌, Option, none, some, ◌==◌, if◌then◌else◌,
}
use meow_cli.Affinity.Edges.{strip}
use meow_cli.Affinity.Trie.{
  Mark, Terminal, Children, no_child, child, Root, better_content_terminal,
}

-- What is left to do behind a node: pruneEmptyPath goes on, or it has returned a node behind which
-- recomputePath goes on, or a node where nothing above has to change.
pub data Progress : Type 0 where
  pruning recomputing settled : Progress

-- The loop of recomputeNode over the children.
unfoldable pub best_child : Option Terminal → Children → Option Terminal
best_child best no_child = best
best_child best (child first rest mark nearest children siblings) =
    best_child (if better_content_terminal nearest best then nearest else best) siblings

-- recomputeNode for the node whose key is p.
unfoldable pub recompute_node : List ℕ → Option Mark → Children → Option Terminal
unfolding best_child
recompute_node p (some m) children = some (record { key = p; mark = m })
recompute_node p none children = best_child none children

-- One round of pruneEmptyPath at a node that is not terminal and not the root: its parent's children.
unfoldable pub prune_node : ℕ → List ℕ → Children → Children → Children × Progress
unfolding best_child
prune_node first rest no_child siblings = (siblings, pruning)
prune_node first rest (child y r mark nearest children no_child) siblings =
    (child first (rest ++ (y ∷ r)) mark nearest children siblings, pruning)
prune_node first rest (child y r mark nearest children (child z l mark' nearest' children' more))
      siblings =
    let below = child y r mark nearest children (child z l mark' nearest' children' more) in
    (child first rest none (best_child none below) below siblings, recomputing)

-- The node whose key is p, where its children are those behind the work below it.
unfoldable pub raise :
    Progress
    → List ℕ
    → ℕ
    → List ℕ
    → Option Mark
    → Option Terminal
    → Children
    → Children
    → Children × Progress
unfolding prune_node recompute_node
raise settled p first rest mark nearest children siblings =
    (child first rest mark nearest children siblings, settled)
raise recomputing p first rest mark nearest children siblings =
    (child first rest mark (recompute_node p mark children) children siblings, recomputing)
raise pruning p first rest none nearest children siblings = prune_node first rest children siblings
raise pruning p first rest (some m) nearest children siblings =
    (child first rest (some m) nearest children siblings, settled)

-- The child whose edge the key begins with: what is behind the edge, if the whole edge is there.
unfoldable pub expire_edge :
    List ℕ
    → ℕ
    → List ℕ
    → Option Mark
    → Option Terminal
    → Children
    → Children
    → Option (List ℕ)
    → (ℕ → List ℕ → Children × Progress)
    → Children × Progress
unfolding raise prune_node
expire_edge p first rest mark nearest children siblings none down =
    (child first rest mark nearest children siblings, settled)
expire_edge p first rest mark nearest children siblings (some []) down =
    prune_node first rest children siblings
expire_edge p first rest mark nearest children siblings (some (y ∷ r)) down =
    let (children', progress) = down y r in
    raise progress p first rest mark nearest children' siblings

-- p is the key of the node whose children these are; the terminal is behind it, at x and q.
unfoldable pub expire_child : List ℕ → Children → ℕ → List ℕ → Children × Progress
unfolding expire_edge strip
expire_child p no_child x q = (no_child, settled)
expire_child p (child first rest mark nearest children siblings) x q = elim (first == x) [
  | true ↦
      expire_edge (p ++ (first ∷ rest)) first rest mark nearest children siblings (strip rest q)
        (expire_child (p ++ (first ∷ rest)) children)
  | false ↦
      let (siblings', progress) = expire_child p siblings x q in
      (child first rest mark nearest children siblings', progress)
]

-- The root, which is not pruned.
unfoldable pub raise_root : Progress → Children → Option Mark → Option Terminal → Root
unfolding recompute_node
raise_root settled children mark nearest = record {
  mark = mark;
  nearest = nearest;
  children = children;
}
raise_root recomputing children mark nearest = record {
  mark = mark;
  nearest = recompute_node [] mark children;
  children = children;
}
raise_root pruning children none nearest = record {
  mark = none;
  nearest = recompute_node [] none children;
  children = children;
}
raise_root pruning children (some m) nearest = record {
  mark = some m;
  nearest = nearest;
  children = children;
}

-- Whether the bucket goes is asked of what is left.
unfoldable pub expire_root : List ℕ → Root → Root
unfolding expire_child raise_root
expire_root [] root = record root { mark = none; nearest = recompute_node [] none root.children }
expire_root (x ∷ q) root =
    let (children, progress) = expire_child [] root.children x q in
    raise_root progress children root.mark root.nearest
