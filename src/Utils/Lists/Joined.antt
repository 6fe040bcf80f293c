-- ===== src/Utils/Lists/Joined.antt =====
-- utils/helpers.go: a list of normal words that was joined by commas is read back as it was.
use meow_cli.Common.{
  ℕ, ◌≡◌, ◌≢◌, ◌∙◌, inl, inr, sym, ap, refl, Bool, true, false, List, [], ◌∷◌, ◌++◌, arith, All,
  ◌||◌, Bool-cases, All-mono,
}
use meow_cli.Common.Text.{Text, text_eq, text_eq_iff, text_eq-ne}
use mathlib.Core.Bool.{true≢false}
use meow_cli.Utils.Lists.{
  split_words, add_word, fields_func, join, normalize_loop, parse_delimited_list,
  join_normalized_list, contains_text, is_delimiter,
}

-- A word that a list keeps as it is: neither empty nor with a delimiter, and a normal form.
abbrev pub IsWord : (Text → Text) → Text → Type 0
IsWord normalize w = (w ≢ []) × (All (λ c. is_delimiter c ≡ false) w × (normalize w ≡ w))

-- The words are distinct, also from those that were seen.
abbrev pub IsFresh : List Text → List Text → Type 0
IsFresh seen [] = Unit
IsFresh seen (w ∷ ws) = (contains_text seen w ≡ false) × IsFresh (w ∷ seen) ws

add_word_lem : (w : Text) (ws : List Text) → w ≢ [] → add_word w ws ≡ w ∷ ws
add_word_lem [] ws h = absurd (h refl)
add_word_lem (c ∷ w) ws h = refl

module _ (p : ℕ → Bool) where
  split_words-word : (w : Text) → All (λ c. p c ≡ false) w → split_words p w ≡ (w, [])
  unfolding split_words
  split_words-word [] h = refl
  split_words-word (c ∷ w) h = rw (h.0, split_words-word w h.1)

  split_words-delimited :
      (w : Text) (sep : ℕ) (s : Text)
      → All (λ c. p c ≡ false) w
      → p sep ≡ true
      → split_words p (w ++ (sep ∷ s)) ≡ (w, fields_func p s)
  unfolding split_words fields_func
  split_words-delimited [] sep s h k = rw k
  split_words-delimited (c ∷ w) sep s h k = rw (h.0, split_words-delimited w sep s h.1 k)

  pub fields_func-join :
      (sep : ℕ) (ws : List Text)
      → p sep ≡ true
      → All (λ w. (w ≢ []) × All (λ c. p c ≡ false) w) ws
      → fields_func p (join (sep ∷ []) ws) ≡ ws
  unfolding fields_func join split_words
  fields_func-join sep [] k h = refl
  fields_func-join sep (w ∷ []) k h = rw (split_words-word w h.0.1) (add_word_lem w [] h.0.0)
  fields_func-join sep (w ∷ (v ∷ ws)) k h =
      rw (split_words-delimited w sep (join (sep ∷ []) (v ∷ ws)) h.0.1 k)
        (rw (fields_func-join sep (v ∷ ws) k h.1) (add_word_lem w (v ∷ ws) h.0.0))

module _ (normalize : Text → Text) where
  pub normalize_loop-words :
      (seen ws : List Text)
      → All (IsWord normalize) ws
      → IsFresh seen ws
      → normalize_loop normalize seen ws ≡ ws
  unfolding normalize_loop
  normalize_loop-words seen [] h k = refl
  normalize_loop-words seen (w ∷ ws) h k =
      rw (h.0.1.1, text_eq-ne w [] h.0.0, k.0)
        (ap (◌∷◌ w) (normalize_loop-words (w ∷ seen) ws h.1 k.1))

  -- Distinct words that are not empty, have no delimiter and are normal forms, joined by
  -- JoinNormalizedList, are read back as they were by ParseDelimitedList.
  pub parse_delimited_list-join :
      (ws : List Text)
      → All (IsWord normalize) ws
      → IsFresh [] ws
      → parse_delimited_list (join_normalized_list ws normalize) normalize ≡ ws
  unfolding parse_delimited_list join_normalized_list
  parse_delimited_list-join ws h k = rw (normalize_loop-words [] ws h k) (
      rw (fields_func-join is_delimiter b',' ws refl (All-mono _ _ ws (λ w i. (i.0, i.1.0)) h))
        (normalize_loop-words [] ws h k))

  -- The list that is read: its words are fresh, and normal forms of something.
  pub normalize_loop-IsFresh :
      (seen parts : List Text) → IsFresh seen (normalize_loop normalize seen parts)
  unfolding normalize_loop
  normalize_loop-IsFresh seen [] = tt
  normalize_loop-IsFresh seen (part ∷ parts) =
      elim (Bool-cases (text_eq (normalize part) [] || contains_text seen (normalize part))) [
        | inl e ↦ rw e (normalize_loop-IsFresh seen parts)
        | inr e ↦ rw e ((ground arith, normalize_loop-IsFresh (normalize part ∷ seen) parts))
      ]

  pub normalize_loop-All :
      (P : Text → Type 0) (seen parts : List Text)
      → ((v : Text) → normalize v ≢ [] → P (normalize v))
      → All P (normalize_loop normalize seen parts)
  unfolding normalize_loop
  normalize_loop-All P seen [] f = tt
  normalize_loop-All P seen (part ∷ parts) f =
      elim (Bool-cases (text_eq (normalize part) [] || contains_text seen (normalize part))) [
        | inl e ↦ rw e (normalize_loop-All P seen parts f)
        | inr e ↦ rw e (
            (
              f part (λ q. true≢false (sym ((text_eq_iff (normalize part) []).1 q) ∙ ground arith)),
              normalize_loop-All P (normalize part ∷ seen) parts f,
            ))
      ]
