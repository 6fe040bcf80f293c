-- ===== src/Affinity/Bindings/Rebound.antt =====
-- Behind a binding, match gives the credential that was bound.
use mathlib.Core.Option.{none-ne-some}
use meow_cli.Common.{
  ℕ, suc, ◌+◌, ◌≡◌, ◌∙◌, inl, inr, sym, ap, refl, subst, true, false, List, [], ◌∷◌, Option, none,
  some, arith, ◌==◌, ltb, length, length-drop, All, Bool-cases, if◌then◌else◌,
}
use meow_cli.Common.Text.{Text, text_eq, text_eq_refl, text_eq→eq}
use meow_cli.Common.Table.{Table, lookup, insert, lookup-insert}
use meow_cli.Affinity.Trie.{Mark, Terminal, Root, insert_root, lookup_root}
use meow_cli.Affinity.Trie.Lookup.{find_root, lookup_root-IsBest}
use meow_cli.Affinity.Trie.Bucket.{find_root-insert_root, best-here}
use meow_cli.Affinity.Bindings.{
  ContentHash, ContentAffinityTrie, ContentAffinityTable, Node, Deletion, Otter, valid, suffix,
  content_affinity_prefix_for, trie_or_new, root_or_new, buckets_of, bucket_of, mark_in, is_current,
  minimum_matched, minimum_content_affinity_elements, expire_all, expire_content_affinity_binding,
  match_cached, match_nearest, match_bucket, match_content, bind_content,
}
use meow_cli.Affinity.Bindings.Invariant.{
  IsBindings, expire_content_affinity_binding-IsBindings, bind_content-IsBindings,
  bound_tries-IsBindings,
}
use meow_cli.Affinity.Bindings.Deleted.{mark_of, is_node, mark_of-expire_content_affinity_binding}

-- The deletion is not of this number of this node.
abbrev pub IsOther : Node → ℕ → Deletion → Type 0
IsOther node n d = is_node d.node node.model node.prefix node.key (n == d.value) ≡ false

mark_of-expire_all :
    (node : Node) (m : Mark) (ds : List Deletion) (tries : Table ContentAffinityTrie)
    → IsBindings tries
    → All (IsOther node m.sequence) ds
    → mark_of tries node.model node.prefix node.key ≡ some m
    → mark_of (expire_all ds tries) node.model node.prefix node.key ≡ some m
unfolding expire_all
mark_of-expire_all node m [] tries all others e = e
mark_of-expire_all node m (d ∷ ds) tries all (other, others) e =
    mark_of-expire_all node m ds (expire_content_affinity_binding d tries)
      (expire_content_affinity_binding-IsBindings d tries all) others
      (mark_of-expire_content_affinity_binding d tries node.model node.prefix node.key all ∙ still)
  where
    still :
        (if is_node d.node node.model node.prefix node.key
            (is_current d.value (mark_of tries d.node.model d.node.prefix d.node.key))
          then none
          else mark_of tries node.model node.prefix node.key)
        ≡ some m
    still = elim (Bool-cases (text_eq d.node.model node.model)) [
      | inr h ↦ rw h e
      | inl h ↦ elim (Bool-cases (text_eq d.node.prefix node.prefix)) [
        | inr i ↦ rw (h, i) e
        | inl i ↦ elim (Bool-cases (text_eq node.key d.node.key)) [
          | inr j ↦ rw (h, i, j) e
          | inl j ↦
              let same : mark_of tries d.node.model d.node.prefix d.node.key ≡ some m =
                ap (λ v. mark_of tries v d.node.prefix d.node.key)
                  (text_eq→eq d.node.model node.model h)
                ∙ ap (λ v. mark_of tries node.model v d.node.key)
                    (text_eq→eq d.node.prefix node.prefix i)
                ∙ ap (mark_of tries node.model node.prefix) (sym (text_eq→eq node.key d.node.key j))
                ∙ e in
              let differ : (m.sequence == d.value) ≡ false = rw (h, i, j) at other in
              rw (h, i, j, same, differ) e
        ]
      ]
    ]

bound_mark :
    (model : Text) (f : ContentHash) (trie : ContentAffinityTrie)
    (tries : Table ContentAffinityTrie) (m : Mark)
    → let prefix = content_affinity_prefix_for f in
      let t : Terminal = record { key = suffix f; mark = m } in
      let root = insert_root t (suffix f) (root_or_new (lookup prefix trie.buckets)) in
      mark_of
        (insert model
          (record { buckets = insert prefix root trie.buckets; bind_sequence = m.sequence })
          tries)
        model
        prefix
        (suffix f)
      ≡ some m
unfolding mark_of bucket_of
bound_mark model f trie tries m =
    let prefix = content_affinity_prefix_for f in
    let t : Terminal = record { key = suffix f; mark = m } in
    let old = root_or_new (lookup prefix trie.buckets) in
    let root = insert_root t (suffix f) old in
    let trie' : ContentAffinityTrie = record {
      buckets = insert prefix root trie.buckets;
      bind_sequence = m.sequence;
    } in
    let there : lookup model (insert model trie' tries) ≡ some trie' =
      lookup-insert model model trie' tries ∙ rw (text_eq_refl model) refl in
    let here : lookup prefix (insert prefix root trie.buckets) ≡ some root =
      lookup-insert prefix prefix root trie.buckets ∙ rw (text_eq_refl prefix) refl in
    ap (λ o. mark_in (lookup prefix (buckets_of o)) (suffix f)) there
    ∙ ap (λ o. mark_in o (suffix f)) here
    ∙ find_root-insert_root t old (suffix f) (suffix f)
    ∙ rw (text_eq_refl (suffix f)) refl

module _ {E : Type 0} (otter : Otter E) (model : Text) (f : ContentHash) where
  match_nearest-here :
      (s : ContentAffinityTable E) (m : Mark)
      → valid f ≡ true
      → (otter.get_if_present
          (record { model = model; prefix = content_affinity_prefix_for f; key = suffix f })
          s.entries).0
        ≡ some m.sequence
      → (match_nearest otter model f
          (length (suffix f), some (record { key = suffix f; mark = m }))
          s).1
        ≡ m.credential
  unfolding match_nearest match_cached valid
  match_nearest-here s m good cached =
      let size = length-drop minimum_content_affinity_elements f.elements in
      let enough : ltb (minimum_content_affinity_elements + length (suffix f)) (minimum_matched f)
          ≡ false =
        ground (arith, size) in
      let same : (m.sequence == m.sequence) ≡ true = ground arith in rw (enough, cached, same) refl

  -- Where the best terminal is that of the hash itself, and the cache has its number.
  match_content-here :
      (s : ContentAffinityTable E) (m : Mark)
      → IsBindings s.tries
      → text_eq model [] ≡ false
      → valid f ≡ true
      → mark_of s.tries model (content_affinity_prefix_for f) (suffix f) ≡ some m
      → (otter.get_if_present
          (record { model = model; prefix = content_affinity_prefix_for f; key = suffix f })
          s.entries).0
        ≡ some m.sequence
      → (match_content otter model f s).1 ≡ m.credential
  unfolding match_content mark_of bucket_of
  match_content-here s m all named good marked cached =
      rw (named, good) (of (lookup model s.tries) refl)
    where
      prefix : List ℕ
      prefix = content_affinity_prefix_for f

      in_bucket :
          (o : Option ContentAffinityTrie) (r : Option Root)
          → lookup model s.tries ≡ o
          → lookup prefix (buckets_of o) ≡ r
          → mark_in r (suffix f) ≡ some m
          → (match_bucket otter model f r s).1 ≡ m.credential
      in_bucket o none e1 e2 e = absurd (none-ne-some m e)
      in_bucket none (some root) e1 e2 e = absurd (none-ne-some root (unfold lookup in e2))
      in_bucket (some trie) (some root) e1 e2 e =
          let well = (all model trie e1 prefix root e2).0 in
          let (d, n) = lookup_root root (suffix f) in
          let (deep, here) =
            best-here (find_root root) (suffix f) m d n e
              (lookup_root-IsBest root (suffix f) well) in
          let t : Terminal = record { key = suffix f; mark = m } in
          let same : lookup_root root (suffix f) ≡ (length (suffix f), some t) =
            rw (deep, here) refl in
          ap (λ v. (match_nearest otter model f v s).1) same ∙ match_nearest-here s m good cached

      of :
          (o : Option ContentAffinityTrie)
          → lookup model s.tries ≡ o
          → (match_bucket otter model f (lookup prefix (buckets_of (lookup model s.tries))) s).1
            ≡ m.credential
      of o e1 = rw e1 (
          in_bucket o (lookup prefix (buckets_of o)) e1 refl
            (ap (λ v. mark_in (lookup prefix (buckets_of v)) (suffix f)) (sym e1) ∙ marked))

  abbrev bound_tries : Text → ContentAffinityTable E → Table ContentAffinityTrie
  bound_tries credential s =
      let trie = trie_or_new (lookup model s.tries) in
      let prefix = content_affinity_prefix_for f in
      let n = suc trie.bind_sequence in
      let t : Terminal = record {
        key = suffix f;
        mark = record { credential = credential; sequence = n };
      } in
      let root = insert_root t t.key (root_or_new (lookup prefix trie.buckets)) in
      let trie' : ContentAffinityTrie = record {
        buckets = insert prefix root trie.buckets;
        bind_sequence = n;
      } in
      insert model trie' s.tries

  abbrev bound_state : Text → ContentAffinityTable E → ContentAffinityTable E
  bound_state credential s =
      let node : Node = record {
        model = model;
        prefix = content_affinity_prefix_for f;
        key = suffix f;
      } in
      let (entries, deletions) =
        otter.set node (suc (trie_or_new (lookup model s.tries)).bind_sequence) s.entries in
      record { tries = expire_all deletions (bound_tries credential s); entries = entries }

  -- In a well-formed table, behind a bind of a credential that is not empty to a valid hash for a
  -- named model, a match of the same model and hash gives that credential, whatever other bindings
  -- the cache has dropped meanwhile, provided that it reports no deletion of the new number and
  -- still has it.
  pub match_content-bind_content :
      (credential : Text) (s : ContentAffinityTable E)
      → let node : Node = record {
        model = model;
        prefix = content_affinity_prefix_for f;
        key = suffix f;
      } in
        let generation = suc (trie_or_new (lookup model s.tries)).bind_sequence in
        let (entries, deletions) = otter.set node generation s.entries in
        IsBindings s.tries
        → text_eq model [] ≡ false
        → valid f ≡ true
        → text_eq credential [] ≡ false
        → All (IsOther node generation) deletions
        → (otter.get_if_present node entries).0 ≡ some generation
        → (match_content otter model f (bind_content otter model f credential s)).1 ≡ credential
  unfolding bind_content
  match_content-bind_content credential s all named good some_ others cached =
      let trie = trie_or_new (lookup model s.tries) in
      let m : Mark = record { credential = credential; sequence = suc trie.bind_sequence } in
      let node : Node = record {
        model = model;
        prefix = content_affinity_prefix_for f;
        key = suffix f;
      } in
      let deletions = (otter.set node m.sequence s.entries).1 in
      let s' = bind_content otter model f credential s in
      let same : s' ≡ bound_state credential s = rw (named, good, some_) refl in
      let all' =
        subst (λ (v : ContentAffinityTable E). IsBindings v.tries) same
          (bind_content-IsBindings otter model f credential s all) in
      ap (λ v. (match_content otter model f v).1) same
      ∙ match_content-here (bound_state credential s) m all' named good
          (mark_of-expire_all node m deletions (bound_tries credential s)
            (bound_tries-IsBindings model f credential s.tries all) others
            (bound_mark model f trie s.tries m))
          cached
