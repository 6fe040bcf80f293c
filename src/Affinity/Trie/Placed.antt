-- ===== src/Affinity/Trie/Placed.antt =====
-- The cases of insert, by where the edge of a child and the key part: the walk of propagateTerminal may
-- stop where it stops.
use mathlib.Core.Option.{some-injective, none-ne-some}
use mathlib.Core.List.{append_assoc}
use meow_cli.Common.{
  ℕ, suc, ◌+◌, ◌≡◌, ◌≢◌, ◌∙◌, sym, ap, refl, subst, Bool, false, List, [], ◌∷◌, ◌++◌, Option, none,
  some, arith, length, length-append,
}
use meow_cli.Affinity.Trie.{
  Mark, Terminal, Children, no_child, child, climb, propagate, insert_child,
}
use meow_cli.Affinity.Trie.Find.{
  find, bound, set_mark, find-leaf, find-only_child, find-insert_child,
}
use meow_cli.Affinity.Trie.Nearest.{
  IsBefore, IsNearest, IsOlder, HasShorter, IsMarked, IsNearest-climb, HasShorter-climb,
  IsNearest-propagate, HasShorter-propagate,
}
use meow_cli.Affinity.Trie.Wellformed.{
  Lacks, IsTrie, climb-ne-none, propagate-ne-none, find-lifted, HasShorter-lifted, found-behind,
  IsNearest-only_child,
}
use meow_cli.Common.Text.{text_eq}

-- The children after an insertion are those of the node whose key is p, and where the walk has stopped,
-- an older key is shorter.
abbrev pub IsInserted : List ℕ → Children → ℕ → Children × Bool → Type 0
IsInserted p c n (c', up) = IsTrie p c' × (up ≡ false → HasShorter (bound none c) n)

pub append-nil : (l : List ℕ) → l ++ [] ≡ l
append-nil [] = refl
append-nil (x ∷ l) = ap (◌∷◌ x) (append-nil l)

-- A new leaf.
pub IsNearest-leaf :
    (t : Terminal) (p : List ℕ) → t.key ≡ p → IsNearest (bound (some t.mark) no_child) p (some t)
unfolding bound find
IsNearest-leaf t p named = (([], named ∙ sym (append-nil p), refl), λ k m e. alone k m e)
  where
    alone :
        (k : List ℕ) (m : Mark)
        → bound (some t.mark) no_child k ≡ some m
        → IsBefore t (length p + length k) m.sequence
    alone [] m e =
        let older : t.mark.sequence ≡ m.sequence =
          ap (λ (v : Mark). v.sequence) (some-injective t.mark m e) in
        omega (arith, ap length named, older)
    alone (x ∷ k) m e = absurd (none-ne-some m e)

-- The mark of the node itself is the shortest.
pub HasShorter-bound :
    (mark : Option Mark) (c : Children) (n : ℕ)
    → HasShorter (bound none c) n
    → HasShorter (bound mark c) n
unfolding bound
HasShorter-bound mark c n ([], (m, (found, less))) = absurd (none-ne-some m found)
HasShorter-bound mark c n (x ∷ k, (m, (found, less))) = (x ∷ k, (m, (found, less)))

pub IsOlder-bound :
    (mark : Option Mark) (c : Children) (n : ℕ)
    → IsOlder (bound mark c) n
    → IsOlder (bound none c) n
unfolding bound
IsOlder-bound mark c n older [] m e = absurd (none-ne-some m e)
IsOlder-bound mark c n older (x ∷ k) m e = older (x ∷ k) m e

pub IsMarked-here :
    (mark : Option Mark) (c : Children) (m : Mark) → IsMarked (bound mark c) (bound (some m) c) [] m
unfolding bound text_eq
IsMarked-here mark c m [] = refl
IsMarked-here mark c m (x ∷ k) = refl

pub IsMarked-below :
    (mark : Option Mark) (c : Children) (t : Terminal) (y : ℕ) (r : List ℕ)
    → IsMarked (bound mark c) (bound mark (insert_child t c y r).0) (y ∷ r) t.mark
unfolding bound text_eq
IsMarked-below mark c t y r [] = refl
IsMarked-below mark c t y r (z ∷ k) = find-insert_child t c y r z k

-- Nothing is shorter than the node itself.
not-HasShorter-0 : (f : List ℕ → Option Mark) → ¬ HasShorter f 0
not-HasShorter-0 f (k, (m, (found, less))) = omega (arith, less)

-- The child that is inserted into, by where its edge and the key part: p is the key of the node above.
module _ (p : List ℕ) (first : ℕ) (a : List ℕ) (mark : Option Mark) (nearest : Option Terminal)
    (children siblings : Children) (t : Terminal) (lacks : Lacks first siblings)
    (cached : nearest ≢ none) (others : IsTrie p siblings) where
  pub IsInserted-ends :
      t.key ≡ p ++ (first ∷ a)
      → IsNearest (bound mark children) (p ++ (first ∷ a)) nearest
      → IsOlder (bound mark children) t.mark.sequence
      → IsTrie (p ++ (first ∷ a)) children
      → IsTrie p (child first a (some t.mark) (climb t nearest).0 children siblings)
        × ((climb t nearest).1 ≢ false)
  IsInserted-ends key near older trie =
      let named : t.key ≡ (p ++ (first ∷ a)) ++ [] = key ∙ sym (append-nil (p ++ (first ∷ a))) in
      let f = bound mark children in
      let g = bound (some t.mark) children in
      let set = IsMarked-here mark children t.mark in
      (
        (
          lacks,
          (
            IsNearest-climb f g (p ++ (first ∷ a)) [] t named set nearest near older,
            (climb-ne-none t nearest, (trie, others)),
          ),
        ),
        λ h.
            not-HasShorter-0 f
              (HasShorter-climb f g (p ++ (first ∷ a)) [] t named set nearest near older h),
      )

  -- The edge goes on below the new node: the part that is cut off becomes a child of it.
  module _ (y : ℕ) (i : List ℕ)
      (near : IsNearest (bound mark children) (p ++ (first ∷ (a ++ (y ∷ i)))) nearest)
      (older : IsOlder (bound mark children) t.mark.sequence)
      (trie : IsTrie (p ++ (first ∷ (a ++ (y ∷ i)))) children) where
    abbrev cut : Children
    cut = child y i mark nearest children no_child

    moved : p ++ (first ∷ (a ++ (y ∷ i))) ≡ (p ++ (first ∷ a)) ++ (y ∷ i)
    moved = sym (append_assoc p (first ∷ a) (y ∷ i))

    near_cut : IsNearest (bound mark children) ((p ++ (first ∷ a)) ++ (y ∷ i)) nearest
    near_cut = subst (λ l. IsNearest (bound mark children) l nearest) moved near

    IsTrie-cut : IsTrie (p ++ (first ∷ a)) cut
    IsTrie-cut = (tt, (near_cut, (cached, (subst (λ l. IsTrie l children) moved trie, tt))))

    IsNearest-cut : IsNearest (bound none cut) (p ++ (first ∷ a)) nearest
    IsNearest-cut =
        IsNearest-only_child y i mark nearest children no_child (p ++ (first ∷ a)) near_cut

    IsOlder-cut : IsOlder (bound none cut) t.mark.sequence
    IsOlder-cut k m found =
        let (l, (same, there)) = found-behind y i mark nearest children no_child k m found in
        older l m there

    pub IsInserted-before :
        t.key ≡ p ++ (first ∷ a)
        → IsTrie p (child first a (some t.mark) (climb t nearest).0 cut siblings)
          × ((climb t nearest).1 ≢ false)
    IsInserted-before key =
        let named : t.key ≡ (p ++ (first ∷ a)) ++ [] = key ∙ sym (append-nil (p ++ (first ∷ a))) in
        let f = bound none cut in
        let g = bound (some t.mark) cut in
        let set = IsMarked-here none cut t.mark in
        (
          (
            lacks,
            (
              IsNearest-climb f g (p ++ (first ∷ a)) [] t named set nearest IsNearest-cut
                  IsOlder-cut,
              (climb-ne-none t nearest, (IsTrie-cut, others)),
            ),
          ),
          λ h. not-HasShorter-0 f (
              HasShorter-climb f g (p ++ (first ∷ a)) [] t named set nearest IsNearest-cut
                IsOlder-cut h),
        )

    abbrev branches : ℕ → List ℕ → Children
    branches z r = child z r (some t.mark) (some t) no_child cut

    IsMarked-branches :
        (z : ℕ) (r : List ℕ)
        → y ≢ z
        → IsMarked (bound none cut) (bound none (branches z r)) (z ∷ r) t.mark
    unfolding bound text_eq
    IsMarked-branches z r apart [] = refl
    IsMarked-branches z r apart (w ∷ l) =
        find-leaf y i mark nearest children z r t w l apart
        ∙ ap (set_mark (some t.mark) (text_eq (w ∷ l) (z ∷ r)))
            (sym (find-only_child y i mark nearest children w l))

    pub IsInserted-apart :
        (z : ℕ) (r : List ℕ)
        → y ≢ z
        → t.key ≡ p ++ (first ∷ (a ++ (z ∷ r)))
        → IsInserted p
            (child first (a ++ (y ∷ i)) mark nearest children siblings)
            (suc (length (a ++ (z ∷ r))))
            (child first a none (climb t nearest).0 (branches z r) siblings, (climb t nearest).1)
    IsInserted-apart z r apart key =
        let named : t.key ≡ (p ++ (first ∷ a)) ++ (z ∷ r) =
          key ∙ sym (append_assoc p (first ∷ a) (z ∷ r)) in
        let set = IsMarked-branches z r apart in
        let f = bound none cut in
        let g = bound none (branches z r) in
        let leaf = IsNearest-leaf t ((p ++ (first ∷ a)) ++ (z ∷ r)) named in
        (
          (
            lacks,
            (
              IsNearest-climb f g (p ++ (first ∷ a)) (z ∷ r) t named set nearest IsNearest-cut
                  IsOlder-cut,
              (
                climb-ne-none t nearest,
                (((apart, tt), (leaf, (λ h. none-ne-some t (sym h), (tt, IsTrie-cut)))), others),
              ),
            ),
          ),
          λ h. lifted (
              HasShorter-climb f g (p ++ (first ∷ a)) (z ∷ r) t named set nearest IsNearest-cut
                IsOlder-cut h),
        )
      where
        lifted :
            HasShorter (bound none cut) (length (z ∷ r))
            → HasShorter
                (bound none (child first (a ++ (y ∷ i)) mark nearest children siblings))
                (suc (length (a ++ (z ∷ r))))
        lifted (k, (m, (found, less))) =
            let (l, (same, there)) = found-behind y i mark nearest children no_child k m found in
            let size : length k ≡ suc (length i + length l) =
              ap length same ∙ ap suc (length-append i l) in
            let whole = length-append (a ++ (y ∷ i)) l in
            let left = length-append a (y ∷ i) in
            let right = length-append a (z ∷ r) in
            (
              first ∷ ((a ++ (y ∷ i)) ++ l),
              (
                m,
                (
                  unfold bound in
                      (find-lifted first (a ++ (y ∷ i)) mark nearest children siblings l ∙ there),
                  omega (arith, size, whole, left, right, less),
                ),
              ),
            )

  pub IsInserted-further :
      (y : ℕ) (r : List ℕ)
      → t.key ≡ p ++ (first ∷ (a ++ (y ∷ r)))
      → IsNearest (bound mark children) (p ++ (first ∷ a)) nearest
      → IsOlder (bound mark children) t.mark.sequence
      → IsInserted (p ++ (first ∷ a)) children (suc (length r)) (insert_child t children y r)
      → let (children', up) = insert_child t children y r in
        let (nearest', up') = propagate up t nearest in
        IsInserted p
          (child first a mark nearest children siblings)
          (suc (length (a ++ (y ∷ r))))
          (child first a mark nearest' children' siblings, up')
  IsInserted-further y r key near older (trie, stop) =
      let named : t.key ≡ (p ++ (first ∷ a)) ++ (y ∷ r) =
        key ∙ sym (append_assoc p (first ∷ a) (y ∷ r)) in
      let set = IsMarked-below mark children t y r in
      let f = bound mark children in
      let (children', up) = insert_child t children y r in
      let g = bound mark children' in
      let below : up ≡ false → HasShorter f (suc (length r)) =
        λ h. HasShorter-bound mark children (suc (length r)) (stop h) in
      (
        (
          lacks,
          (
            IsNearest-propagate f g (p ++ (first ∷ a)) (y ∷ r) t named set up nearest near older
                below,
            (propagate-ne-none up t nearest cached, (trie, others)),
          ),
        ),
        λ h.
            subst (HasShorter (bound none (child first a mark nearest children siblings)))
              (ap suc (sym (length-append a (y ∷ r))))
              (HasShorter-lifted first a mark nearest children siblings (suc (length r)) (
                HasShorter-propagate f g (p ++ (first ∷ a)) (y ∷ r) t named set up nearest near
                  older below h)),
      )
