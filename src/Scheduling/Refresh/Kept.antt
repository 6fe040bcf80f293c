-- ===== src/Scheduling/Refresh/Kept.antt =====
-- core/scheduling/score_refresh.go: what the update keeps and the other goroutines keep, the loop of
-- compare-and-swap keeps.
use meow_cli.Common.{
  inl, inr, Bool, true, false, List, [], ◌∷◌, Option, none, some, All, ◌==◌, Bool-cases,
  if◌then◌else◌,
}
use meow_cli.Scheduling.Refresh.{Cell, store, store_all, compare_and_swap, update_loop}

module _ {S : Type 0} (P : S → Type 0) where
  -- The snapshot of the cell, if there is one, satisfies P.
  abbrev pub Holds : Option S → Type 0
  Holds none = Unit
  Holds (some s) = P s

  Holds-store_all :
      (c : Cell S) (ss : List S) → Holds c.value → All P ss → Holds (store_all c ss).value
  unfolding store_all store
  Holds-store_all c [] h k = h
  Holds-store_all c (s ∷ ss) h k = Holds-store_all (store c s) ss k.0 k.1

  Holds-compare_and_swap :
      (c seen : Cell S) (s : S) → Holds c.value → P s → Holds (compare_and_swap c seen s).0.value
  unfolding compare_and_swap store
  Holds-compare_and_swap c seen s h k = elim (Bool-cases (c.stores == seen.stores)) [
    | inl e ↦ rw e k
    | inr e ↦ rw e h
  ]

  pub Holds-if :
      (b : Bool) (c d : Cell S) → Holds c.value → Holds d.value → Holds (if b then c else d).value
  Holds-if true c d h k = h
  Holds-if false c d h k = k

  module _ (f : S → Option S) (keeps : (s : S) → P s → Holds (f s)) where
    -- One attempt on a snapshot: give up, or compute and go on.
    Holds-attempt :
        (c : Cell S) (w : Option S) (next : S → Cell S × Bool)
        → Holds c.value
        → Holds w
        → ((new : S) → P new → Holds (next new).0.value)
        → Holds (elim w as (λ _. Cell S × Bool) [ none ↦ (c, false) | some new ↦ next new ]).0.value
    Holds-attempt c none next h k g = h
    Holds-attempt c (some new) next h k g = g new k

    Holds-load :
        (c : Cell S) (v : Option S) (next : S → Cell S × Bool)
        → Holds c.value
        → Holds v
        → ((new : S) → P new → Holds (next new).0.value)
        → Holds
            (elim v as (λ _. Cell S × Bool) [
              | none ↦ (c, false)
              | some snap ↦ elim (f snap) as (λ _. Cell S × Bool) [
                | none ↦ (c, false)
                | some new ↦ next new
              ]
            ]).0.value
    Holds-load c none next h k g = h
    Holds-load c (some snap) next h k g = Holds-attempt c (f snap) next h (keeps snap k) g

    Holds-again :
        (c : Cell S) (done : Bool) (other : Cell S × Bool)
        → Holds c.value
        → Holds other.0.value
        → Holds (elim done as (λ _. Cell S × Bool) [ true ↦ (c, true) | false ↦ other ]).0.value
    Holds-again c true other h k = h
    Holds-again c false other h k = k

    pub Holds-update_loop :
        (c : Cell S) (rounds : List (List S))
        → Holds c.value
        → All (All P) rounds
        → Holds (update_loop f c rounds).0.value
    unfolding update_loop
    Holds-update_loop c [] h k =
        Holds-load c c.value (compare_and_swap c c) h h
          (λ new g. Holds-compare_and_swap c c new h g)
    Holds-update_loop c (ss ∷ rounds) h k =
        let next = λ (new : S).
          let (c', done) = compare_and_swap (store_all c ss) c new in
          elim done as (λ _. Cell S × Bool) [
            | true ↦ (c', true)
            | false ↦ update_loop f c' rounds
          ] in
        Holds-load c c.value next h h (λ new g.
          let r = compare_and_swap (store_all c ss) c new in
          let kept = Holds-compare_and_swap (store_all c ss) c new (Holds-store_all c ss h k.0) g in
          Holds-again r.0 r.1 (update_loop f r.0 rounds) kept
            (Holds-update_loop r.0 rounds kept k.1))
