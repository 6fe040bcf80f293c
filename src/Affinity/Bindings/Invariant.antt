-- ===== src/Affinity/Bindings/Invariant.antt =====
-- Every trie of the table is well formed, and its marks are not newer than the last number.
use mathlib.Core.Option.{some-injective, none-ne-some}
use meow_cli.Common.{
  ℕ, suc, ◌+◌, ◌≡◌, ◌∙◌, inl, inr, sym, refl, subst, not, ◌||◌, List, [], ◌∷◌, Option, none, some,
  arith, Bool-cases, ltb,
}
use meow_cli.Common.Text.{Text, text_eq}
use meow_cli.Common.Table.{Table, lookup, insert, delete, lookup-insert, lookup-delete}
use meow_cli.Affinity.Trie.{Terminal, Root, insert_root, lookup_root}
use meow_cli.Affinity.Trie.Wellformed.{IsRoot}
use meow_cli.Affinity.Trie.Lookup.{find_root}
use meow_cli.Affinity.Trie.Bucket.{
  IsOlderThan, insert_root-IsRoot, insert_root-IsOlderThan, empty_root-IsRoot,
  empty_root-IsOlderThan,
}
use meow_cli.Affinity.Expiry.{expire_root}
use meow_cli.Affinity.Expiry.Removed.{find_root-expire_root}
use meow_cli.Affinity.Expiry.Wellformed.{expire_root-IsRoot}
use meow_cli.Affinity.Bindings.{
  ContentHash, ContentAffinityTrie, ContentAffinityTable, Node, Deletion, Otter, valid, suffix,
  content_affinity_prefix_for, trie_or_new, root_or_new, is_current, is_empty, expire_terminal,
  expire_in_bucket, expire_in_trie, expire_content_affinity_binding, expire_all, match_cached,
  match_nearest, match_bucket, match_content, bind_content, bucket_of,
  minimum_content_affinity_elements, minimum_matched,
}

-- All values of a map.
abbrev pub IsAll : {V : Type 0} → (V → Type 0) → Table V → Type 0
IsAll {V = V} P m = (k : Text) (v : V) → lookup k m ≡ some v → P v

IsAll-insert :
    {V : Type 0} (P : V → Type 0) (k : Text) (v : V) (m : Table V)
    → P v
    → IsAll P m
    → IsAll P (insert k v m)
IsAll-insert P k v m new all j w e =
    let known = lookup-insert k j v m in
    elim (Bool-cases (text_eq k j)) [
      | inl h ↦ subst P (some-injective v w (sym (rw h at known) ∙ e)) new
      | inr h ↦ all j w (sym (rw h at known) ∙ e)
    ]

IsAll-delete :
    {V : Type 0} (P : V → Type 0) (k : Text) (m : Table V) → IsAll P m → IsAll P (delete k m)
IsAll-delete P k m all j w e =
    let known = lookup-delete k j m in
    elim (Bool-cases (text_eq k j)) [
      | inl h ↦ absurd (none-ne-some w (sym (rw h at known) ∙ e))
      | inr h ↦ all j w (sym (rw h at known) ∙ e)
    ]

abbrev pub IsBucket : ℕ → Root → Type 0
IsBucket n root = IsRoot root × IsOlderThan root (n + 1)

abbrev pub IsSound : ContentAffinityTrie → Type 0
IsSound trie = IsAll (IsBucket trie.bind_sequence) trie.buckets

abbrev pub IsBindings : Table ContentAffinityTrie → Type 0
IsBindings tries = IsAll IsSound tries

IsOlderThan-expire_root :
    (root : Root) (q : List ℕ) (n : ℕ)
    → IsRoot root
    → IsOlderThan root n
    → IsOlderThan (expire_root q root) n
IsOlderThan-expire_root root q n well older k m e =
    let known = find_root-expire_root root q k well in
    elim (Bool-cases (text_eq k q)) [
      | inl h ↦ absurd (none-ne-some m (sym (rw h at known) ∙ e))
      | inr h ↦ older k m (sym (rw h at known) ∙ e)
    ]

expire_terminal-IsSound :
    (prefix key : List ℕ) (root : Root) (trie : ContentAffinityTrie)
    → IsBucket trie.bind_sequence root
    → IsSound trie
    → IsSound (expire_terminal prefix key root trie)
unfolding expire_terminal
expire_terminal-IsSound prefix key root trie (well, older) sound =
    let P = IsBucket trie.bind_sequence in
    let left = expire_root key root in
    elim (Bool-cases (is_empty left)) [
      | inl e ↦ rw e (IsAll-delete P prefix trie.buckets sound)
      | inr e ↦ rw e (
          IsAll-insert P prefix left trie.buckets
            (
              expire_root-IsRoot key root well,
              IsOlderThan-expire_root root key (trie.bind_sequence + 1) well older,
            )
            sound)
    ]

expire_in_bucket-IsSound :
    (node : Node) (n : ℕ) (o : Option Root) (trie : ContentAffinityTrie)
    → lookup node.prefix trie.buckets ≡ o
    → IsSound trie
    → IsSound (expire_in_bucket node n o trie)
expire_in_bucket-IsSound node n none trie e sound = sound
expire_in_bucket-IsSound node n (some root) trie e sound =
    elim (Bool-cases (is_current n (find_root root node.key))) [
      | inl h ↦
          rw h (
            expire_terminal-IsSound node.prefix node.key root trie (sound node.prefix root e) sound)
      | inr h ↦ rw h sound
    ]

expire_in_trie-IsBindings :
    (d : Deletion) (o : Option ContentAffinityTrie) (tries : Table ContentAffinityTrie)
    → lookup d.node.model tries ≡ o
    → IsBindings tries
    → IsBindings (expire_in_trie d o tries)
expire_in_trie-IsBindings d none tries e all = all
expire_in_trie-IsBindings d (some trie) tries e all =
    IsAll-insert IsSound d.node.model
      (expire_in_bucket d.node d.value (lookup d.node.prefix trie.buckets) trie) tries
      (expire_in_bucket-IsSound d.node d.value (lookup d.node.prefix trie.buckets) trie refl
        (all d.node.model trie e))
      all

pub expire_content_affinity_binding-IsBindings :
    (d : Deletion) (tries : Table ContentAffinityTrie)
    → IsBindings tries
    → IsBindings (expire_content_affinity_binding d tries)
unfolding expire_content_affinity_binding
expire_content_affinity_binding-IsBindings d tries all =
    expire_in_trie-IsBindings d (lookup d.node.model tries) tries refl all

pub expire_all-IsBindings :
    (ds : List Deletion) (tries : Table ContentAffinityTrie)
    → IsBindings tries
    → IsBindings (expire_all ds tries)
unfolding expire_all
expire_all-IsBindings [] tries all = all
expire_all-IsBindings (d ∷ ds) tries all =
    expire_all-IsBindings ds (expire_content_affinity_binding d tries)
      (expire_content_affinity_binding-IsBindings d tries all)

IsSound-trie_or_new :
    (o : Option ContentAffinityTrie) (tries : Table ContentAffinityTrie) (model : Text)
    → lookup model tries ≡ o
    → IsBindings tries
    → IsSound (trie_or_new o)
unfolding lookup
IsSound-trie_or_new none tries model e all = λ k v h. absurd (none-ne-some v h)
IsSound-trie_or_new (some trie) tries model e all = all model trie e

IsBucket-root_or_new :
    (o : Option Root) (trie : ContentAffinityTrie) (prefix : Text)
    → lookup prefix trie.buckets ≡ o
    → IsSound trie
    → IsBucket trie.bind_sequence (root_or_new o)
IsBucket-root_or_new none trie prefix e sound =
    (empty_root-IsRoot, empty_root-IsOlderThan (trie.bind_sequence + 1))
IsBucket-root_or_new (some root) trie prefix e sound = sound prefix root e

-- The trie behind a binding: its buckets, and the next number.
pub bound_trie-IsSound :
    (trie : ContentAffinityTrie) (prefix key : List ℕ) (credential : Text)
    → IsSound trie
    → let n = suc trie.bind_sequence in
      let t : Terminal = record {
        key = key;
        mark = record { credential = credential; sequence = n };
      } in
      let root = insert_root t key (root_or_new (lookup prefix trie.buckets)) in
      IsSound (record { buckets = insert prefix root trie.buckets; bind_sequence = n })
bound_trie-IsSound trie prefix key credential sound =
    let n = suc trie.bind_sequence in
    let t : Terminal = record {
      key = key;
      mark = record { credential = credential; sequence = n };
    } in
    let (well, older) = IsBucket-root_or_new (lookup prefix trie.buckets) trie prefix refl sound in
    let before : IsOlderThan (root_or_new (lookup prefix trie.buckets)) n =
      λ k m e. omega (arith, older k m e) in
    IsAll-insert (IsBucket n) prefix (insert_root t key (root_or_new (lookup prefix trie.buckets)))
      trie.buckets
      (
        insert_root-IsRoot t (root_or_new (lookup prefix trie.buckets)) well before,
        insert_root-IsOlderThan t (root_or_new (lookup prefix trie.buckets)) key before,
      )
      (λ k v e. let (w, o) = sound k v e in (w, λ l m h. omega (arith, o l m h)))

pub bound_tries-IsBindings :
    (model : Text) (f : ContentHash) (credential : Text) (tries : Table ContentAffinityTrie)
    → IsBindings tries
    → let trie = trie_or_new (lookup model tries) in
      let prefix = content_affinity_prefix_for f in
      let n = suc trie.bind_sequence in
      let t : Terminal = record {
        key = suffix f;
        mark = record { credential = credential; sequence = n };
      } in
      let root = insert_root t t.key (root_or_new (lookup prefix trie.buckets)) in
      let trie' : ContentAffinityTrie = record {
        buckets = insert prefix root trie.buckets;
        bind_sequence = n;
      } in
      IsBindings (insert model trie' tries)
bound_tries-IsBindings model f credential tries all =
    let trie = trie_or_new (lookup model tries) in
    let prefix = content_affinity_prefix_for f in
    let n = suc trie.bind_sequence in
    let t : Terminal = record {
      key = suffix f;
      mark = record { credential = credential; sequence = n };
    } in
    let root = insert_root t t.key (root_or_new (lookup prefix trie.buckets)) in
    let trie' : ContentAffinityTrie = record {
      buckets = insert prefix root trie.buckets;
      bind_sequence = n;
    } in
    IsAll-insert IsSound model trie' tries
      (bound_trie-IsSound trie prefix (suffix f) credential
        (IsSound-trie_or_new (lookup model tries) tries model refl all))
      all

module _ {E : Type 0} (otter : Otter E) where
  pub bind_content-IsBindings :
      (model : Text) (f : ContentHash) (credential : Text) (s : ContentAffinityTable E)
      → IsBindings s.tries
      → IsBindings (bind_content otter model f credential s).tries
  unfolding bind_content
  bind_content-IsBindings model f credential s all =
      elim (Bool-cases (text_eq model [] || not (valid f) || text_eq credential [])) [
        | inl e ↦ rw e all
        | inr e ↦
            rw e (expire_all-IsBindings _ _ (bound_tries-IsBindings model f credential s.tries all))
      ]

  match_nearest-IsBindings :
      (model : Text) (f : ContentHash) (found : ℕ × Option Terminal) (s : ContentAffinityTable E)
      → IsBindings s.tries
      → IsBindings (match_nearest otter model f found s).0.tries
  unfolding match_nearest match_cached
  match_nearest-IsBindings model f (depth, none) s all = all
  match_nearest-IsBindings model f (depth, some t) s all =
      elim (Bool-cases (ltb (minimum_content_affinity_elements + depth) (minimum_matched f))) [
        | inl e ↦ rw e all
        | inr e ↦ rw e (expire_all-IsBindings _ s.tries all)
      ]

  pub match_content-IsBindings :
      (model : Text) (f : ContentHash) (s : ContentAffinityTable E)
      → IsBindings s.tries
      → IsBindings (match_content otter model f s).0.tries
  unfolding match_content
  match_content-IsBindings model f s all = elim (Bool-cases (text_eq model [] || not (valid f))) [
    | inl e ↦ rw e all
    | inr e ↦ rw e (of (bucket_of s.tries model (content_affinity_prefix_for f)))
  ]
    where
      of : (o : Option Root) → IsBindings (match_bucket otter model f o s).0.tries
      of none = all
      of (some root) = match_nearest-IsBindings model f (lookup_root root (suffix f)) s all

-- A call of the table, or a deletion that the cache reports on its own.
pub data Call : Type 0 where
  match_call : Text → ContentHash → Call
  bind_call : Text → ContentHash → Text → Call
  deletion_call : Deletion → Call

module _ {E : Type 0} (otter : Otter E) where
  unfoldable pub step : ContentAffinityTable E → Call → ContentAffinityTable E
  step s (match_call model f) = (match_content otter model f s).0
  step s (bind_call model f credential) = bind_content otter model f credential s
  step s (deletion_call d) = record s { tries = expire_content_affinity_binding d s.tries }

  unfoldable pub run : List Call → ContentAffinityTable E → ContentAffinityTable E
  run [] s = s
  run (c ∷ cs) s = run cs (step s c)

  -- Matches, binds and reported deletions in any order keep a table well formed: every bucket's
  -- trie is, and its marks are not newer than the last number of its model.
  pub run-IsBindings :
      (cs : List Call) (s : ContentAffinityTable E)
      → IsBindings s.tries
      → IsBindings (run cs s).tries
  unfolding run step
  run-IsBindings [] s all = all
  run-IsBindings (match_call model f ∷ cs) s all =
      run-IsBindings cs (match_content otter model f s).0
        (match_content-IsBindings otter model f s all)
  run-IsBindings (bind_call model f credential ∷ cs) s all =
      run-IsBindings cs (bind_content otter model f credential s)
        (bind_content-IsBindings otter model f credential s all)
  run-IsBindings (deletion_call d ∷ cs) s all =
      run-IsBindings cs (record s { tries = expire_content_affinity_binding d s.tries })
        (expire_content_affinity_binding-IsBindings d s.tries all)

-- A table without tries.
pub IsBindings-nil : IsBindings []
unfolding lookup
IsBindings-nil k v h = absurd (none-ne-some v h)
