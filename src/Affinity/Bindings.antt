-- ===== src/Affinity/Bindings.antt =====
-- internal/bridge/affinity_cache.go: contentAffinityTable with its match, bind and deletion callback, over
-- the cache of otter, which is a parameter. A node is known by its model, its bucket's prefix and its key.
pub mod Deleted
pub mod Invariant
pub mod Matching
pub mod Rebound
use meow_cli.Common.{
  ℕ, suc, ◌+◌, Bool, true, false, not, ◌&&◌, ◌||◌, List, [], ◌∷◌, Option, none, some, length, take,
  drop, ltb, leb, ◌==◌, if◌then◌else◌,
}
use meow_cli.Common.Text.{Text, text_eq}
use meow_cli.Common.Table.{Table, lookup, insert, delete}
use meow_cli.Affinity.Trie.{
  Mark, Terminal, Children, no_child, child, Root, empty_root, insert_root, lookup_root,
}
use meow_cli.Affinity.Trie.Lookup.{find_root}
use meow_cli.Affinity.Expiry.{expire_root}

abbrev pub minimum_content_affinity_elements : ℕ
minimum_content_affinity_elements = 4

pub record ContentHash : Type 0 where
  pub elements : List ℕ
  pub first_dialogue : ℕ

unfoldable pub valid : ContentHash → Bool
valid f =
    ltb 0 f.first_dialogue
    && leb f.first_dialogue (length f.elements)
    && leb minimum_content_affinity_elements (length f.elements)

abbrev pub content_affinity_prefix_for : ContentHash → List ℕ
content_affinity_prefix_for f = take minimum_content_affinity_elements f.elements

abbrev pub suffix : ContentHash → List ℕ
suffix f = drop minimum_content_affinity_elements f.elements

-- The buckets of a model by their prefixes, and the last number that a binding got.
pub record ContentAffinityTrie : Type 0 where
  pub buckets : Table Root
  pub bind_sequence : ℕ

abbrev pub new_content_affinity_trie : ContentAffinityTrie
new_content_affinity_trie = record { buckets = []; bind_sequence = 0 }

pub record Node : Type 0 where
  pub model : Text
  pub prefix : List ℕ
  pub key : List ℕ

-- A value that otter has removed or replaced.
pub record Deletion : Type 0 where
  pub node : Node
  pub value : ℕ

-- The cache: each operation may also remove values, for which it runs the callback at once.
pub record Otter (E : Type 0) : Type 0 where
  pub get_if_present : Node → E → Option ℕ × (E × List Deletion)
  pub set : Node → ℕ → E → E × List Deletion

pub record ContentAffinityTable (E : Type 0) : Type 0 where
  pub tries : Table ContentAffinityTrie
  pub entries : E

abbrev pub trie_or_new : Option ContentAffinityTrie → ContentAffinityTrie
trie_or_new none = new_content_affinity_trie
trie_or_new (some trie) = trie

abbrev pub root_or_new : Option Root → Root
root_or_new none = empty_root
root_or_new (some root) = root

abbrev pub buckets_of : Option ContentAffinityTrie → Table Root
buckets_of none = []
buckets_of (some trie) = trie.buckets

-- The bucket of a model for a prefix, where there is one.
unfoldable pub bucket_of : Table ContentAffinityTrie → Text → List ℕ → Option Root
bucket_of tries model prefix = lookup prefix (buckets_of (lookup model tries))

-- The mark of a node that is terminal.
abbrev pub mark_in : Option Root → List ℕ → Option Mark
mark_in none k = none
mark_in (some root) k = find_root root k

abbrev no_children : Children → Bool
no_children no_child = true
no_children (child first rest mark nearest children siblings) = false

abbrev is_none : Option Mark → Bool
is_none none = true
is_none (some m) = false

abbrev pub is_empty : Root → Bool
is_empty root = is_none root.mark && no_children root.children

-- expireTerminal, with the removal of a bucket that is empty.
unfoldable pub expire_terminal : List ℕ → List ℕ → Root → ContentAffinityTrie → ContentAffinityTrie
expire_terminal prefix key root trie =
    let left = expire_root key root in
    record trie {
      buckets =
          if is_empty left then delete prefix trie.buckets else insert prefix left trie.buckets;
    }

-- The node is terminal, and its number is that of the removed value.
abbrev pub is_current : ℕ → Option Mark → Bool
is_current n none = false
is_current n (some m) = m.sequence == n

abbrev pub expire_in_bucket : Node → ℕ → Option Root → ContentAffinityTrie → ContentAffinityTrie
expire_in_bucket node n none trie = trie
expire_in_bucket node n (some root) trie =
    if is_current n (find_root root node.key)
    then expire_terminal node.prefix node.key root trie
    else trie

abbrev pub expire_in_trie :
    Deletion → Option ContentAffinityTrie → Table ContentAffinityTrie → Table ContentAffinityTrie
expire_in_trie d none tries = tries
expire_in_trie d (some trie) tries =
    insert d.node.model (expire_in_bucket d.node d.value (lookup d.node.prefix trie.buckets) trie)
      tries

unfoldable pub expire_content_affinity_binding :
    Deletion → Table ContentAffinityTrie → Table ContentAffinityTrie
unfolding expire_terminal
expire_content_affinity_binding d tries = expire_in_trie d (lookup d.node.model tries) tries

-- The callbacks of one operation of the cache.
unfoldable pub expire_all : List Deletion → Table ContentAffinityTrie → Table ContentAffinityTrie
expire_all [] tries = tries
expire_all (d ∷ ds) tries = expire_all ds (expire_content_affinity_binding d tries)

-- What the cache gives for a node is its number.
abbrev pub is_value : Option ℕ → ℕ → Bool
is_value none n = false
is_value (some v) n = v == n

abbrev pub minimum_matched : ContentHash → ℕ
minimum_matched f =
    if ltb minimum_content_affinity_elements f.first_dialogue
    then f.first_dialogue
    else minimum_content_affinity_elements

module _ {E : Type 0} (otter : Otter E) where
  -- The last part of match, for a terminal: whether the cache still has its number.
  unfoldable pub match_cached :
      Text → ContentHash → Terminal → ContentAffinityTable E → ContentAffinityTable E × Text
  match_cached model f t s =
      let node : Node = record {
        model = model;
        prefix = content_affinity_prefix_for f;
        key = t.key;
      } in
      let (cached, (entries, deletions)) = otter.get_if_present node s.entries in
      let s' : ContentAffinityTable E = record {
        tries = expire_all deletions s.tries;
        entries = entries;
      } in
      (s', if is_value cached t.mark.sequence then t.mark.credential else [])

  unfoldable pub match_nearest :
      Text
      → ContentHash
      → ℕ × Option Terminal
      → ContentAffinityTable E
      → ContentAffinityTable E × Text
  unfolding match_cached
  match_nearest model f (depth, none) s = (s, [])
  match_nearest model f (depth, some t) s =
      if ltb (minimum_content_affinity_elements + depth) (minimum_matched f)
      then (s, [])
      else match_cached model f t s

  abbrev pub match_bucket :
      Text → ContentHash → Option Root → ContentAffinityTable E → ContentAffinityTable E × Text
  match_bucket model f none s = (s, [])
  match_bucket model f (some root) s = match_nearest model f (lookup_root root (suffix f)) s

  -- `match` of the table.
  unfoldable pub match_content :
      Text → ContentHash → ContentAffinityTable E → ContentAffinityTable E × Text
  unfolding match_nearest bucket_of valid
  match_content model f s =
      if text_eq model [] || not (valid f)
      then (s, [])
      else match_bucket model f (bucket_of s.tries model (content_affinity_prefix_for f)) s

  -- `bind` of the table.
  unfoldable pub bind_content :
      Text → ContentHash → Text → ContentAffinityTable E → ContentAffinityTable E
  unfolding valid
  bind_content model f credential s =
      let trie = trie_or_new (lookup model s.tries) in
      let prefix = content_affinity_prefix_for f in
      let generation = suc trie.bind_sequence in
      let t : Terminal = record {
        key = suffix f;
        mark = record { credential = credential; sequence = generation };
      } in
      let root = insert_root t t.key (root_or_new (lookup prefix trie.buckets)) in
      let trie' : ContentAffinityTrie = record {
        buckets = insert prefix root trie.buckets;
        bind_sequence = generation;
      } in
      let node : Node = record { model = model; prefix = prefix; key = suffix f } in
      let (entries, deletions) = otter.set node generation s.entries in
      if text_eq model [] || not (valid f) || text_eq credential []
      then s
      else record { tries = expire_all deletions (insert model trie' s.tries); entries = entries }
