-- ===== src/Affinity/Trie/Nearest.antt =====
-- What nearestTerminal stands for: the terminal that is the least deep, and of those the newest.
use mathlib.Core.Option.{some-injective, none-ne-some}
use mathlib.Core.Bool.{true≢false}
use meow_cli.Common.{
  ℕ, ◌+◌, ◌≤◌, ◌<◌, ◌≡◌, ◌≢◌, ◌∙◌, ◌⊎◌, inl, inr, sym, ap, refl, Bool, true, false, ◌&&◌, ◌||◌, not,
  List, ◌++◌, Option, none, some, arith, length, length-append, ltb, ◌==◌, Bool-cases,
}
use meow_cli.Affinity.Trie.{Mark, Terminal, depth, terminal_newer, climb, propagate}
use meow_cli.Affinity.Trie.Find.{set_mark}
use meow_cli.Common.Text.{text_eq, text_eq_refl, text_eq→eq}

-- A terminal of this depth and sequence is not before t.
abbrev pub IsBefore : Terminal → ℕ → ℕ → Type 0
IsBefore t n sequence = (depth t < n) ⊎ ((depth t ≡ n) × (sequence ≤ t.mark.sequence))

-- Of the marks that `f` gives the keys behind a node, whose own key is p, the nearest is n.
abbrev pub IsNearest : (List ℕ → Option Mark) → List ℕ → Option Terminal → Type 0
IsNearest f p none = (k : List ℕ) → f k ≡ none
IsNearest f p (some t) =
    ((k : List ℕ) × (t.key ≡ p ++ k) × (f k ≡ some t.mark))
    × ((k : List ℕ) (m : Mark) → f k ≡ some m → IsBefore t (length p + length k) m.sequence)

-- All marks are older than the sequence.
abbrev pub IsOlder : (List ℕ → Option Mark) → ℕ → Type 0
IsOlder f n = (k : List ℕ) (m : Mark) → f k ≡ some m → m.sequence < n

-- Some key is shorter.
abbrev pub HasShorter : (List ℕ → Option Mark) → ℕ → Type 0
HasShorter f n = (k : List ℕ) × ((m : Mark) × ((f k ≡ some m) × (length k < n)))

-- `g` is `f` with one mark set.
abbrev pub IsMarked : (List ℕ → Option Mark) → (List ℕ → Option Mark) → List ℕ → Mark → Type 0
IsMarked f g q m = (k : List ℕ) → g k ≡ set_mark (some m) (text_eq k q) (f k)

module _ (f g : List ℕ → Option Mark) (p q : List ℕ) (t : Terminal) (key : t.key ≡ p ++ q)
    (set : IsMarked f g q t.mark) where
  depth_lem : depth t ≡ length p + length q
  depth_lem = ap length key ∙ length-append p q

  set_here : g q ≡ some t.mark
  set_here = set q ∙ rw (text_eq_refl q)

  set_apart : (k : List ℕ) → text_eq k q ≡ false → g k ≡ f k
  set_apart k e = set k ∙ rw e

  -- A terminal that keeps its mark stays nearest where it is not behind the new one.
  stays :
      (n : Terminal)
      → IsNearest f p (some n)
      → n.key ≢ t.key
      → IsBefore n (depth t) t.mark.sequence
      → IsNearest g p (some n)
  stays n ((k0, named, found), first) other before =
      ((k0, named, set_apart k0 apart ∙ found), λ k m e. later k m e (Bool-cases (text_eq k q)))
    where
      apart : text_eq k0 q ≡ false
      apart = elim (Bool-cases (text_eq k0 q)) [
        | inl e ↦ absurd (other (named ∙ ap (λ l. p ++ l) (text_eq→eq k0 q e) ∙ sym key))
        | inr e ↦ e
      ]

      later :
          (k : List ℕ) (m : Mark)
          → g k ≡ some m
          → (text_eq k q ≡ true) ⊎ (text_eq k q ≡ false)
          → IsBefore n (length p + length k) m.sequence
      later k m e (inl here) =
          let same : k ≡ q = text_eq→eq k q here in
          let mark : t.mark ≡ m = some-injective t.mark m (sym set_here ∙ ap g (sym same) ∙ e) in
          let size : length k ≡ length q = ap length same in
          let older : t.mark.sequence ≡ m.sequence = ap (λ (v : Mark). v.sequence) mark in
          omega (arith, depth_lem, size, older, before)
      later k m e (inr there) = first k m (sym (set_apart k there) ∙ e)

  -- The new terminal is nearest where every other is behind it.
  takes_over :
      ((k : List ℕ) (m : Mark) → f k ≡ some m → IsBefore t (length p + length k) m.sequence)
      → IsNearest g p (some t)
  takes_over first = ((q, key, set_here), λ k m e. later k m e (Bool-cases (text_eq k q)))
    where
      later :
          (k : List ℕ) (m : Mark)
          → g k ≡ some m
          → (text_eq k q ≡ true) ⊎ (text_eq k q ≡ false)
          → IsBefore t (length p + length k) m.sequence
      later k m e (inl here) =
          let same : k ≡ q = text_eq→eq k q here in
          let mark : t.mark ≡ m = some-injective t.mark m (sym set_here ∙ ap g (sym same) ∙ e) in
          let size : length k ≡ length q = ap length same in
          let older : t.mark.sequence ≡ m.sequence = ap (λ (v : Mark). v.sequence) mark in
          omega (arith, depth_lem, size, older)
      later k m e (inr there) = first k m (sym (set_apart k there) ∙ e)

  abbrev stops : Terminal → Bool
  stops n =
      not (text_eq n.key t.key)
      && (ltb (depth n) (depth t) || (depth n == depth t) && not (terminal_newer t n))

  -- One node of propagateTerminal makes the cache right again.
  pub IsNearest-climb :
      (n : Option Terminal)
      → IsNearest f p n
      → IsOlder f t.mark.sequence
      → IsNearest g p (climb t n).0
  unfolding climb
  IsNearest-climb none empty older =
      takes_over (λ k m e. absurd (none-ne-some m (sym (empty k) ∙ e)))
  IsNearest-climb (some n) near older = elim (Bool-cases (stops n)) [
    | inl e ↦
        let differ : text_eq n.key t.key ≡ false = ground arith in
        let other : n.key ≢ t.key =
          λ s. true≢false (sym (text_eq_refl n.key) ∙ ap (text_eq n.key) s ∙ differ) in
        rw e (stays n near other (ground arith))
    | inr e ↦
        rw e (takes_over (λ k m found. overtakes k m found (near.1 k m found) (older k m found) e))
  ]
    where
      overtakes :
          (k : List ℕ) (m : Mark)
          → f k ≡ some m
          → IsBefore n (length p + length k) m.sequence
          → m.sequence < t.mark.sequence
          → stops n ≡ false
          → IsBefore t (length p + length k) m.sequence
      overtakes k m found before older e = elim (Bool-cases (text_eq n.key t.key)) [
        | inl same ↦
            let size : depth n ≡ depth t = ap length (text_eq→eq n.key t.key same) in
            omega (arith, size, before, older)
        | inr differ ↦ let rest = rw differ at e in ground arith
      ]

  -- Where it stops, a key is shorter than the new one.
  pub HasShorter-climb :
      (n : Option Terminal)
      → IsNearest f p n
      → IsOlder f t.mark.sequence
      → (climb t n).1 ≡ false
      → HasShorter f (length q)
  unfolding climb
  HasShorter-climb none empty older h = absurd (true≢false h)
  HasShorter-climb (some n) near older h = elim (Bool-cases (stops n)) [
    | inr e ↦ absurd (true≢false (rw (e, climb) at h))
    | inl e ↦
        let ((k, named, found), first) = near in
        let size = ap length named ∙ length-append p k in
        let newer = older k n.mark found in
        let less : length k < length q = ground (arith, depth_lem) in (k, (n.mark, (found, less)))
  ]

  -- Where a key is shorter than the new one, the cache was right.
  pub IsNearest-shorter :
      (n : Option Terminal) → IsNearest f p n → HasShorter f (length q) → IsNearest g p n
  IsNearest-shorter none empty (k, (m, (found, less))) =
      absurd (none-ne-some m (sym (empty k) ∙ found))
  IsNearest-shorter (some n) near (k, (m, (found, less))) =
      let before = near.1 k m found in
      let above : depth n < depth t = omega (arith, depth_lem, before, less) in
      stays n near (λ same. absurd (omega (arith, ap length same, above))) (inl above)

  pub IsNearest-propagate :
      (up : Bool) (n : Option Terminal)
      → IsNearest f p n
      → IsOlder f t.mark.sequence
      → (up ≡ false → HasShorter f (length q))
      → IsNearest g p (propagate up t n).0
  IsNearest-propagate true n near older stop = IsNearest-climb n near older
  IsNearest-propagate false n near older stop = IsNearest-shorter n near (stop refl)

  pub HasShorter-propagate :
      (up : Bool) (n : Option Terminal)
      → IsNearest f p n
      → IsOlder f t.mark.sequence
      → (up ≡ false → HasShorter f (length q))
      → (propagate up t n).1 ≡ false
      → HasShorter f (length q)
  HasShorter-propagate true n near older stop h = HasShorter-climb n near older h
  HasShorter-propagate false n near older stop h = stop refl
