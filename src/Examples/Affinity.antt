-- ===== src/Examples/Affinity.antt =====
-- internal/bridge/affinity_cache.go: the theorems on the trie at a bucket with two terminals.
use meow_cli.Common.{
  ℕ, ◌≡◌, ◌≢◌, refl, ap, sym, ◌&&◌, Option, none, List, [], ◌∷◌, some, if◌then◌else◌,
}
use meow_cli.Common.Text.{Text, bytes, text_eq}
use meow_cli.Affinity.Edges.{common_element_prefix}
use mathlib.Core.Bool.{true≢false}
use meow_cli.Common.Table.{lookup, insert}
use meow_cli.Affinity.Expiry.{expire_root}
use meow_cli.Affinity.Expiry.Wellformed.{expire_root-IsRoot}
use meow_cli.Affinity.Bindings.{
  ContentHash, ContentAffinityTable, Node, Deletion, Otter, valid, is_current, expire_all,
  expire_content_affinity_binding, match_content, bind_content,
}
use meow_cli.Affinity.Bindings.Invariant.{
  IsBindings, bind_content-IsBindings, Call, match_call, bind_call, deletion_call, run,
  run-IsBindings, IsBindings-nil,
}
use meow_cli.Affinity.Bindings.Deleted.{mark_of, is_node, mark_of-expire_content_affinity_binding}
use meow_cli.Affinity.Bindings.Matching.{IsMatch, match_content-IsMatch}
use meow_cli.Affinity.Bindings.Rebound.{match_content-bind_content}
use meow_cli.Affinity.Trie.{Terminal, Root, empty_root, insert_root, lookup_root}
use meow_cli.Affinity.Trie.Wellformed.{IsRoot}
use meow_cli.Affinity.Trie.Lookup.{IsBest, find_root, lookup_root-IsBest}
use meow_cli.Affinity.Trie.Bucket.{
  IsOlderThan, insert_root-IsRoot, insert_root-IsOlderThan, empty_root-IsRoot,
  empty_root-IsOlderThan,
}

abbrev terminal : ℕ → List ℕ → Terminal
terminal n key = record {
  key = key;
  mark = record { credential = bytes "credential"; sequence = n };
}

abbrev long : Terminal
long = terminal 1 (5 ∷ 6 ∷ 7 ∷ [])

abbrev short : Terminal
short = terminal 2 (5 ∷ 8 ∷ [])

abbrev one : Root
one = insert_root long long.key empty_root

abbrev two : Root
two = insert_root short short.key one

one-IsRoot : IsRoot one
one-IsRoot = insert_root-IsRoot long empty_root empty_root-IsRoot (empty_root-IsOlderThan 1)

one-IsOlderThan : IsOlderThan one 2
one-IsOlderThan = insert_root-IsOlderThan long empty_root long.key (empty_root-IsOlderThan 1)

insert_root-IsRoot_example : IsRoot two
insert_root-IsRoot_example = insert_root-IsRoot short one one-IsRoot one-IsOlderThan

two-IsRoot : IsRoot two
two-IsRoot = insert_root-IsRoot short one one-IsRoot one-IsOlderThan

abbrev query : List ℕ
query = 5 ∷ 6 ∷ 9 ∷ []

lookup_of_query : lookup_root two query ≡ (2, some long)
unfolding lookup_root insert_root
lookup_of_query = refl

lookup_root-IsBest_example :
    IsBest (common_element_prefix query) (find_root two) [] (lookup_root two query)
lookup_root-IsBest_example = lookup_root-IsBest two query two-IsRoot

expire_root-IsRoot_example : IsRoot (expire_root (5 ∷ 8 ∷ []) two)
expire_root-IsRoot_example = expire_root-IsRoot (5 ∷ 8 ∷ []) two two-IsRoot

-- A cache of one value, which the next one replaces.
abbrev cached : Node → Option (Node × ℕ) → Option ℕ
cached node none = none
cached node (some (other, n)) =
    if text_eq node.model other.model
      && (text_eq node.prefix other.prefix && text_eq node.key other.key)
    then some n
    else none

abbrev removed : Option (Node × ℕ) → List Deletion
removed none = []
removed (some (node, n)) = record { node = node; value = n } ∷ []

abbrev otter : Otter (Option (Node × ℕ))
otter = record {
  get_if_present = λ node e. (cached node e, (e, []));
  set = λ node n e. (some (node, n), removed e);
}

abbrev model : Text
model = bytes "model"

abbrev hash : List ℕ → ContentHash
hash elements = record { elements = elements; first_dialogue = 3 }

abbrev first_hash : ContentHash
first_hash = hash (1 ∷ 2 ∷ 3 ∷ 4 ∷ 5 ∷ 6 ∷ [])

abbrev second_hash : ContentHash
second_hash = hash (1 ∷ 2 ∷ 3 ∷ 4 ∷ 5 ∷ 7 ∷ [])

abbrev empty_table : ContentAffinityTable (Option (Node × ℕ))
empty_table = record { tries = []; entries = none }

abbrev bound_table : ContentAffinityTable (Option (Node × ℕ))
bound_table = bind_content otter model first_hash (bytes "credential") empty_table

bound_table-IsBindings : IsBindings bound_table.tries
bound_table-IsBindings =
    bind_content-IsBindings otter model first_hash (bytes "credential") empty_table IsBindings-nil

match_content-bind_content_example :
    (match_content otter model second_hash
      (bind_content otter model second_hash (bytes "other") bound_table)).1
    ≡ bytes "other"
unfolding bind_content lookup insert valid text_eq expire_all
match_content-bind_content_example =
    match_content-bind_content otter model second_hash (bytes "other") bound_table
      bound_table-IsBindings refl refl refl (refl, tt) refl

credential_is_named : bytes "credential" ≢ []
unfolding text_eq
credential_is_named h = true≢false (ap (λ v. text_eq v []) (sym h))

second_matches : (match_content otter model second_hash bound_table).1 ≡ bytes "credential"
unfolding match_content bind_content lookup insert text_eq valid expire_all insert_root lookup_root
second_matches = refl

match_content-IsMatch_example :
    (t : Terminal) × IsMatch otter model second_hash bound_table (bytes "credential") t
match_content-IsMatch_example =
    match_content-IsMatch otter model second_hash bound_table (bytes "credential")
      bound_table-IsBindings credential_is_named second_matches

abbrev first_node : Node
first_node = record { model = model; prefix = 1 ∷ 2 ∷ 3 ∷ 4 ∷ []; key = 5 ∷ 6 ∷ [] }

abbrev first_deleted : Deletion
first_deleted = record { node = first_node; value = 1 }

abbrev calls : List Call
calls =
    bind_call model first_hash (bytes "credential")
    ∷ match_call model second_hash
    ∷ deletion_call first_deleted
    ∷ []

run-IsBindings_example : IsBindings (run otter calls empty_table).tries
run-IsBindings_example = run-IsBindings otter calls empty_table IsBindings-nil

mark_of-expire_content_affinity_binding_example :
    mark_of
      (expire_content_affinity_binding first_deleted bound_table.tries)
      model
      (1 ∷ 2 ∷ 3 ∷ 4 ∷ [])
      (5 ∷ 6 ∷ [])
    ≡ (if is_node first_node model
          (1 ∷ 2 ∷ 3 ∷ 4 ∷ [])
          (5 ∷ 6 ∷ [])
          (is_current 1 (mark_of bound_table.tries model (1 ∷ 2 ∷ 3 ∷ 4 ∷ []) (5 ∷ 6 ∷ [])))
        then none
        else mark_of bound_table.tries model (1 ∷ 2 ∷ 3 ∷ 4 ∷ []) (5 ∷ 6 ∷ []))
mark_of-expire_content_affinity_binding_example =
    mark_of-expire_content_affinity_binding first_deleted bound_table.tries model
      (1 ∷ 2 ∷ 3 ∷ 4 ∷ []) (5 ∷ 6 ∷ []) bound_table-IsBindings
