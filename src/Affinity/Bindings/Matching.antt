-- ===== src/Affinity/Bindings/Matching.antt =====
-- What match gives: the best terminal of the model, where the cache still has its number.
use mathlib.Core.Option.{none-ne-some}
use meow_cli.Common.{
  ℕ, ◌+◌, ◌≤◌, ◌≡◌, ◌≢◌, ◌∙◌, inl, inr, sym, ap, refl, subst, false, not, ◌||◌, List, [], Option,
  none, some, arith, ◌==◌, ltb, Bool-cases, if◌then◌else◌,
}
use meow_cli.Common.Text.{Text, text_eq}
use meow_cli.Common.Table.{lookup}
use meow_cli.Affinity.Edges.{common_element_prefix}
use meow_cli.Affinity.Trie.{Terminal, Root, lookup_root}
use meow_cli.Affinity.Trie.Lookup.{IsBest, find_root, lookup_root-IsBest}
use meow_cli.Affinity.Bindings.{
  ContentHash, ContentAffinityTrie, ContentAffinityTable, Node, Otter, valid, suffix,
  content_affinity_prefix_for, buckets_of, bucket_of, mark_in, is_value, minimum_matched,
  minimum_content_affinity_elements, match_cached, match_nearest, match_bucket, match_content,
}
use meow_cli.Affinity.Bindings.Invariant.{IsBindings}
use meow_cli.Affinity.Bindings.Deleted.{mark_of}

module _ {E : Type 0} (otter : Otter E) (model : Text) (f : ContentHash) where
  abbrev node_of : Terminal → Node
  node_of t = record { model = model; prefix = content_affinity_prefix_for f; key = t.key }

  -- The terminal is the best of the model for the hash, it shares enough elements with it, the cache still
  -- has its number, and it has this credential.
  abbrev pub IsMatch : ContentAffinityTable E → Text → Terminal → Type 0
  IsMatch s c t =
      IsBest (common_element_prefix (suffix f))
        (mark_of s.tries model (content_affinity_prefix_for f)) []
        (common_element_prefix (suffix f) t.key, some t)
      × ((minimum_matched f
            ≤ minimum_content_affinity_elements + common_element_prefix (suffix f) t.key)
          × (((otter.get_if_present (node_of t) s.entries).0 ≡ some t.mark.sequence)
              × (t.mark.credential ≡ c)))

  match_nearest-IsMatch :
      (s : ContentAffinityTable E) (c : Text) (d : ℕ) (n : Option Terminal)
      → c ≢ []
      → IsBest
          (common_element_prefix (suffix f))
          (mark_of s.tries model (content_affinity_prefix_for f))
          []
          (d, n)
      → (match_nearest otter model f (d, n) s).1 ≡ c
      → (t : Terminal) × IsMatch s c t
  unfolding match_nearest match_cached
  match_nearest-IsMatch s c d none some_ best e = absurd (some_ (sym e))
  match_nearest-IsMatch s c d (some t) some_ best e =
      elim (Bool-cases (ltb (minimum_content_affinity_elements + d) (minimum_matched f))) [
        | inl h ↦ absurd (some_ (sym (rw h at e)))
        | inr h ↦ cached (rw h at e) h (otter.get_if_present (node_of t) s.entries).0 refl
      ]
    where
      deep : d ≡ common_element_prefix (suffix f) t.key
      deep =
          let ((k, (named, (found, size))), first) = best in
          size ∙ ap (common_element_prefix (suffix f)) (sym named)

      cached :
          (if is_value (otter.get_if_present (node_of t) s.entries).0 t.mark.sequence
              then t.mark.credential
              else [])
            ≡ c
          → ltb (minimum_content_affinity_elements + d) (minimum_matched f) ≡ false
          → (o : Option ℕ) → (otter.get_if_present (node_of t) s.entries).0 ≡ o
          → (t : Terminal) × IsMatch s c t
      cached e h none there = absurd (some_ (sym (rw there at e)))
      cached e h (some v) there = elim (Bool-cases (v == t.mark.sequence)) [
        | inr g ↦ absurd (some_ (sym (rw (there, g) at e)))
        | inl g ↦
            let same : v ≡ t.mark.sequence = ground arith in
            let enough : minimum_matched f ≤ minimum_content_affinity_elements + d = ground arith in
            (
              t,
              (
                subst
                    (λ v.
                      IsBest (common_element_prefix (suffix f))
                        (mark_of s.tries model (content_affinity_prefix_for f)) [] (v, some t))
                    deep best,
                (
                  subst (λ v. minimum_matched f ≤ minimum_content_affinity_elements + v) deep
                      enough,
                  (there ∙ ap some same, rw (there, g) at e),
                ),
              ),
            )
      ]

  -- In a well-formed table, a match that is not empty gives the credential of the best terminal of
  -- the model for the hash: they share as many elements as the first dialogue element and the
  -- minimum ask for, no other terminal is better, and the cache still has its number.
  pub match_content-IsMatch :
      (s : ContentAffinityTable E) (c : Text)
      → IsBindings s.tries
      → c ≢ []
      → (match_content otter model f s).1 ≡ c
      → (t : Terminal) × IsMatch s c t
  unfolding match_content mark_of bucket_of
  match_content-IsMatch s c all some_ e = elim (Bool-cases (text_eq model [] || not (valid f))) [
    | inl h ↦ absurd (some_ (sym (rw h at e)))
    | inr h ↦ of (lookup model s.tries) refl (rw h at e)
  ]
    where
      prefix : List ℕ
      prefix = content_affinity_prefix_for f

      in_bucket :
          (o : Option ContentAffinityTrie) (r : Option Root)
          → lookup model s.tries ≡ o
          → lookup prefix (buckets_of o) ≡ r
          → (match_bucket otter model f r s).1 ≡ c
          → (t : Terminal) × IsMatch s c t
      in_bucket o none e1 e2 e = absurd (some_ (sym e))
      in_bucket none (some root) e1 e2 e = absurd (none-ne-some root (unfold lookup in e2))
      in_bucket (some trie) (some root) e1 e2 e =
          let (d, n) = lookup_root root (suffix f) in
          let well = (all model trie e1 prefix root e2).0 in
          let there : lookup prefix (buckets_of (lookup model s.tries)) ≡ some root =
            ap (λ o. lookup prefix (buckets_of o)) e1 ∙ e2 in
          let marks : mark_of s.tries model prefix ≡ find_root root = ap mark_in there in
          match_nearest-IsMatch s c d n some_
            (subst (λ g. IsBest (common_element_prefix (suffix f)) g [] (d, n)) (sym marks)
              (lookup_root-IsBest root (suffix f) well))
            e

      of :
          (o : Option ContentAffinityTrie)
          → lookup model s.tries ≡ o
          → (match_bucket otter model f (lookup prefix (buckets_of (lookup model s.tries))) s).1 ≡ c
          → (t : Terminal) × IsMatch s c t
      of o e1 e = in_bucket o (lookup prefix (buckets_of o)) e1 refl (rw e1 at e)
