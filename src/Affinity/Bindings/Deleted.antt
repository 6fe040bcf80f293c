-- ===== src/Affinity/Bindings/Deleted.antt =====
-- What a deletion that the cache reports does to the marks.
use meow_cli.Common.{
  ℕ, ◌≡◌, ◌∙◌, ◌⊎◌, inl, inr, sym, ap, refl, Bool, true, false, ◌&&◌, List, [], ◌∷◌, Option, none,
  some, Bool-cases, if◌then◌else◌,
}
use meow_cli.Common.Text.{Text, text_eq, text_eq→eq}
use meow_cli.Common.Table.{Table, lookup, lookup-insert, lookup-delete}
use meow_cli.Affinity.Trie.{Mark, Root, Children, no_child, child}
use meow_cli.Affinity.Trie.Find.{find, bound}
use meow_cli.Affinity.Trie.Wellformed.{IsRoot}
use meow_cli.Affinity.Trie.Lookup.{find_root}
use meow_cli.Affinity.Expiry.{expire_root}
use meow_cli.Affinity.Expiry.Removed.{taken, find_root-expire_root}
use meow_cli.Affinity.Bindings.{
  ContentAffinityTrie, Node, Deletion, is_current, is_empty, mark_in, buckets_of, bucket_of,
  expire_terminal, expire_in_bucket, expire_in_trie, expire_content_affinity_binding,
}
use meow_cli.Affinity.Bindings.Invariant.{IsSound, IsBindings}

find_root-is_empty : (root : Root) (k : List ℕ) → is_empty root ≡ true → find_root root k ≡ none
unfolding find_root
find_root-is_empty root k e = of root.mark root.children e k
  where
    of :
        (mark : Option Mark) (c : Children)
        → is_empty (record { mark = mark; nearest = none; children = c }) ≡ true
        → (k : List ℕ) → bound mark c k ≡ none
    of none no_child e [] = unfold bound in refl
    of none no_child e (x ∷ k) = unfold bound find in refl
    of none (child first rest m n c s) e k = cc
    of (some m) c e k = cc

-- The mark in a bucket of a map of buckets.
abbrev mark_at : Table Root → List ℕ → List ℕ → Option Mark
mark_at buckets prefix k = mark_in (lookup prefix buckets) k

mark_at-expire_terminal :
    (at key : List ℕ) (root : Root) (trie : ContentAffinityTrie) (prefix k : List ℕ)
    → IsRoot root
    → lookup at trie.buckets ≡ some root
    → mark_at (expire_terminal at key root trie).buckets prefix k
      ≡ taken (text_eq at prefix && text_eq k key) (mark_at trie.buckets prefix k)
unfolding expire_terminal
mark_at-expire_terminal at key root trie prefix k well there =
    let left = expire_root key root in
    let took = find_root-expire_root root key k well in
    elim (Bool-cases (is_empty left)) [
      | inl e ↦ rw e (
          ap (λ o. mark_in o k) (lookup-delete at prefix trie.buckets)
          ∙ gone took (find_root-is_empty left k e) (Bool-cases (text_eq at prefix)))
      | inr e ↦ rw e (
          ap (λ o. mark_in o k) (lookup-insert at prefix left trie.buckets)
          ∙ stays took (Bool-cases (text_eq at prefix)))
    ]
  where
    same_bucket : text_eq at prefix ≡ true → find_root root k ≡ mark_at trie.buckets prefix k
    same_bucket h =
        ap (λ o. mark_in o k) (sym there)
        ∙ ap (λ v. mark_at trie.buckets v k) (text_eq→eq at prefix h)

    gone :
        find_root (expire_root key root) k ≡ (if text_eq k key then none else find_root root k)
        → find_root (expire_root key root) k ≡ none
        → (text_eq at prefix ≡ true) ⊎ (text_eq at prefix ≡ false)
        → mark_in (if text_eq at prefix then none else lookup prefix trie.buckets) k
          ≡ taken (text_eq at prefix && text_eq k key) (mark_at trie.buckets prefix k)
    gone took empty (inr h) = rw h refl
    gone took empty (inl h) = rw h (sym empty ∙ took ∙ ap (taken (text_eq k key)) (same_bucket h))

    stays :
        find_root (expire_root key root) k ≡ (if text_eq k key then none else find_root root k)
        → (text_eq at prefix ≡ true) ⊎ (text_eq at prefix ≡ false)
        → mark_in
            (if text_eq at prefix then some (expire_root key root) else lookup prefix trie.buckets)
            k
          ≡ taken (text_eq at prefix && text_eq k key) (mark_at trie.buckets prefix k)
    stays took (inr h) = rw h refl
    stays took (inl h) = rw h (took ∙ ap (taken (text_eq k key)) (same_bucket h))

taken-false : (a : Bool) (b : Bool) (o : Option Mark) → taken (a && (b && false)) o ≡ o
taken-false true true o = refl
taken-false true false o = refl
taken-false false b o = refl

mark_at-expire_in_bucket :
    (node : Node) (n : ℕ) (o : Option Root) (trie : ContentAffinityTrie) (prefix k : List ℕ)
    → IsSound trie
    → lookup node.prefix trie.buckets ≡ o
    → mark_at (expire_in_bucket node n o trie).buckets prefix k
      ≡ taken
          (text_eq node.prefix prefix && (text_eq k node.key && is_current n (mark_in o node.key)))
          (mark_at trie.buckets prefix k)
mark_at-expire_in_bucket node n none trie prefix k sound e =
    sym (
      taken-false (text_eq node.prefix prefix) (text_eq k node.key) (mark_at trie.buckets prefix k))
mark_at-expire_in_bucket node n (some root) trie prefix k sound e =
    elim (Bool-cases (is_current n (find_root root node.key))) [
      | inr h ↦ rw h (
          sym (
            taken-false (text_eq node.prefix prefix) (text_eq k node.key)
              (mark_at trie.buckets prefix k)))
      | inl h ↦ rw h (
          mark_at-expire_terminal node.prefix node.key root trie prefix k
            (sound node.prefix root e).0 e
          ∙ ap (λ b. taken (text_eq node.prefix prefix && b) (mark_at trie.buckets prefix k))
              (sym (and_true (text_eq k node.key))))
    ]
  where
    and_true : (b : Bool) → (b && true) ≡ b
    and_true true = refl
    and_true false = refl

-- The mark of a model's node.
unfoldable pub mark_of : Table ContentAffinityTrie → Text → List ℕ → List ℕ → Option Mark
unfolding bucket_of
mark_of tries model prefix k = mark_in (bucket_of tries model prefix) k

abbrev pub is_node : Node → Text → List ℕ → List ℕ → Bool → Bool
is_node node model prefix k also =
    text_eq node.model model && (text_eq node.prefix prefix && (text_eq k node.key && also))

mark_of-expire_in_trie :
    (d : Deletion) (o : Option ContentAffinityTrie) (tries : Table ContentAffinityTrie)
    (model : Text) (prefix k : List ℕ)
    → IsBindings tries
    → lookup d.node.model tries ≡ o
    → mark_at (buckets_of (lookup model (expire_in_trie d o tries))) prefix k
      ≡ taken
          (is_node d.node model prefix k
            (is_current d.value (mark_at (buckets_of o) d.node.prefix d.node.key)))
          (mark_at (buckets_of (lookup model tries)) prefix k)
unfolding lookup
mark_of-expire_in_trie d none tries model prefix k all e = sym (
    taken_nothing (text_eq d.node.model model) (text_eq d.node.prefix prefix) (text_eq k d.node.key)
      (mark_at (buckets_of (lookup model tries)) prefix k))
  where
    taken_nothing : (a b c : Bool) (o : Option Mark) → taken (a && (b && (c && false))) o ≡ o
    taken_nothing true b c o = taken-false b c o
    taken_nothing false b c o = refl
mark_of-expire_in_trie d (some trie) tries model prefix k all e =
    ap (λ o. mark_at (buckets_of o) prefix k) (lookup-insert d.node.model model new tries)
    ∙ of (Bool-cases (text_eq d.node.model model))
  where
    new : ContentAffinityTrie
    new = expire_in_bucket d.node d.value (lookup d.node.prefix trie.buckets) trie

    of :
        (text_eq d.node.model model ≡ true) ⊎ (text_eq d.node.model model ≡ false)
        → mark_at
            (buckets_of (if text_eq d.node.model model then some new else lookup model tries))
            prefix
            k
          ≡ taken
              (is_node d.node model prefix k
                (is_current d.value (mark_at trie.buckets d.node.prefix d.node.key)))
              (mark_at (buckets_of (lookup model tries)) prefix k)
    of (inr h) = rw h refl
    of (inl h) =
        let same : lookup model tries ≡ some trie =
          ap (λ v. lookup v tries) (sym (text_eq→eq d.node.model model h)) ∙ e in
        rw (h, same)
          (mark_at-expire_in_bucket d.node d.value (lookup d.node.prefix trie.buckets) trie prefix k
            (all d.node.model trie e) refl)

-- In a well-formed table, a deletion that the cache reports takes the mark of its node if its value
-- is the number of the mark, and changes no other mark; with another value it changes none.
pub mark_of-expire_content_affinity_binding :
    (d : Deletion) (tries : Table ContentAffinityTrie) (model : Text) (prefix k : List ℕ)
    → IsBindings tries
    → mark_of (expire_content_affinity_binding d tries) model prefix k ≡ (
        if is_node d.node model prefix k
          (is_current d.value (mark_of tries d.node.model d.node.prefix d.node.key))
        then none
        else mark_of tries model prefix k)
unfolding mark_of bucket_of expire_content_affinity_binding
mark_of-expire_content_affinity_binding d tries model prefix k all =
    mark_of-expire_in_trie d (lookup d.node.model tries) tries model prefix k all refl
