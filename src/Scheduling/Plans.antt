-- ===== src/Scheduling/Plans.antt =====
-- core/scheduling/scheduling.go: plan type codes, as lists and as sets.
use meow_cli.Common.{
  ℕ, ◌≡◌, ◌∙◌, any, ◌≢◌, ◌⊎◌, inl, inr, ◌↔◌, refl, sym, Bool, true, false, List, [], ◌∷◌, ◌++◌,
  arith, ◌==◌, ◌||◌, All, All-append, In, Bool-cases, if◌then◌else◌,
}

-- A `map[int]struct{}` is the list of its keys.
unfoldable pub has_code : ℕ → List ℕ → Bool
has_code code [] = false
has_code code (c ∷ cs) = c == code || has_code code cs

add_code : List ℕ → ℕ → List ℕ
unfolding has_code
add_code set code = if has_code code set then set else code ∷ set

code_set_loop : List ℕ → List ℕ → List ℕ
unfolding add_code
code_set_loop [] set = set
code_set_loop (c ∷ cs) set = code_set_loop cs (add_code set c)

-- The empty list stands for nil: both allow every plan type.
unfoldable pub plan_type_code_set : List ℕ → List ℕ
unfolding code_set_loop
plan_type_code_set codes = code_set_loop codes []

unfoldable pub plan_type_allowed : ℕ → List ℕ → Bool
unfolding has_code
plan_type_allowed code [] = true
plan_type_allowed code (c ∷ cs) = has_code code (c ∷ cs)

-- The inner body of MergePlanTypeCodes, over the codes seen and merged so far.
merge_code : ℕ → List ℕ × List ℕ → List ℕ × List ℕ
unfolding has_code
merge_code c (seen, merged) =
    if has_code c seen then (seen, merged) else (c ∷ seen, merged ++ (c ∷ []))

merge_group : List ℕ → List ℕ × List ℕ → List ℕ × List ℕ
unfolding merge_code
merge_group [] acc = acc
merge_group (c ∷ cs) acc = merge_group cs (merge_code c acc)

merge_groups : List (List ℕ) → List ℕ × List ℕ → List ℕ × List ℕ
unfolding merge_group
merge_groups [] acc = acc
merge_groups (g ∷ gs) acc = merge_groups gs (merge_group g acc)

unfoldable pub merge_plan_type_codes : List (List ℕ) → List ℕ
unfolding merge_groups
merge_plan_type_codes groups = (merge_groups groups ([], [])).1

pub has_code→In : (code : ℕ) (cs : List ℕ) → has_code code cs ≡ true → In code cs
unfolding has_code
has_code→In code [] h = cc
has_code→In code (c ∷ cs) h = ground (arith, has_code→In code cs)

pub In→has_code : (code : ℕ) (cs : List ℕ) → In code cs → has_code code cs ≡ true
unfolding has_code
In→has_code code [] m = absurd (m refl)
In→has_code code (c ∷ cs) m = ground (arith, In→has_code code cs)

pub has_code-nil : (code : ℕ) → has_code code [] ≡ false
unfolding has_code
has_code-nil code = refl

pub has_code-cons : (x c : ℕ) (xs : List ℕ) → has_code x (c ∷ xs) ≡ (c == x || has_code x xs)
unfolding has_code
has_code-cons x c xs = refl

has_code-add_code :
    (code c : ℕ) (set : List ℕ) → has_code code (add_code set c) ≡ (c == code || has_code code set)
unfolding add_code
has_code-add_code code c set = elim (Bool-cases (c == code)) [
  | inl e ↦ let same : c ≡ code = ground arith in rw same (ground arith)
  | inr e ↦ ground arith
]

has_code-code_set_loop :
    (code : ℕ) (cs set : List ℕ)
    → has_code code (code_set_loop cs set) ≡ (has_code code cs || has_code code set)
unfolding code_set_loop has_code
has_code-code_set_loop code [] set = refl
has_code-code_set_loop code (c ∷ cs) set =
    ground (arith, has_code-code_set_loop code cs (add_code set c), has_code-add_code code c set)

pub has_code-append :
    (code : ℕ) (xs ys : List ℕ) → has_code code (xs ++ ys) ≡ (has_code code xs || has_code code ys)
unfolding has_code
has_code-append code [] ys = refl
has_code-append code (x ∷ xs) ys = ground (arith, has_code-append code xs ys)

plan_type_allowed-cons :
    (code c : ℕ) (cs : List ℕ) → plan_type_allowed code (c ∷ cs) ≡ has_code code (c ∷ cs)
unfolding plan_type_allowed
plan_type_allowed-cons code c cs = refl

allowed_of_nonempty :
    (code : ℕ) (set : List ℕ) → set ≢ [] → plan_type_allowed code set ≡ has_code code set
allowed_of_nonempty code [] h = absurd (h refl)
allowed_of_nonempty code (c ∷ cs) h = plan_type_allowed-cons code c cs

plan_type_code_set-has_code :
    (code : ℕ) (codes : List ℕ) → has_code code (plan_type_code_set codes) ≡ has_code code codes
unfolding plan_type_code_set
plan_type_code_set-has_code code codes =
    ground (arith, has_code-code_set_loop code codes [], has_code-nil code)

code_set_nonempty : (c : ℕ) (cs : List ℕ) → plan_type_code_set (c ∷ cs) ≢ []
unfolding plan_type_code_set
code_set_nonempty c cs e =
    let there = has_code-code_set_loop c (c ∷ cs) [] in
    let inside : has_code c (c ∷ cs) ≡ true = In→has_code c (c ∷ cs) (inl refl) in
    ground (arith, rw e at there, inside, has_code-nil c)

-- No two members are equal.
abbrev pub Distinct : List ℕ → Type 0
Distinct [] = Unit
Distinct (x ∷ xs) = All (λ y. y ≢ x) xs × Distinct xs

Distinct-snoc :
    (xs : List ℕ) (x : ℕ) → Distinct xs → All (λ y. x ≢ y) xs → Distinct (xs ++ (x ∷ []))
Distinct-snoc [] x d n = (tt, tt)
Distinct-snoc (y ∷ ys) x d n =
    (All-append (λ z. z ≢ y) ys (x ∷ []) d.0 (n.0, tt), Distinct-snoc ys x d.1 n.1)

abbrev IsMerging : List ℕ × List ℕ → Type 0
IsMerging acc = Distinct acc.1 × ((x : ℕ) → has_code x acc.0 ≡ has_code x acc.1)

not_in_ne : (c : ℕ) (xs : List ℕ) → has_code c xs ≡ false → All (λ y. c ≢ y) xs
unfolding has_code
not_in_ne c [] h = tt
not_in_ne c (x ∷ xs) h = (λ e. ground arith, not_in_ne c xs (ground arith))

merge_code-IsMerging :
    (c : ℕ) (acc : List ℕ × List ℕ) → IsMerging acc → IsMerging (merge_code c acc)
unfolding merge_code
merge_code-IsMerging c (seen, merged) (d, same) = elim (Bool-cases (has_code c seen)) [
  | inl e ↦ rw e (d, same)
  | inr e ↦ rw e (
    Distinct-snoc merged c d (not_in_ne c merged (sym (same c) ∙ e)),
    λ x. ground (
      arith,
      has_code-append x merged (c ∷ []),
      same x,
      has_code-cons x c seen,
      has_code-cons x c [],
      has_code-nil x,
    ),
  )
]

merge_code-has_code :
    (x c : ℕ) (acc : List ℕ × List ℕ)
    → IsMerging acc
    → has_code x (merge_code c acc).1 ≡ (c == x || has_code x acc.1)
unfolding merge_code
merge_code-has_code x c (seen, merged) (d, same) = elim (Bool-cases (has_code c seen)) [
  | inl e ↦ rw e (elim (Bool-cases (c == x)) [
    | inl q ↦
        let there : has_code c merged ≡ true = sym (same c) ∙ e in
        let equal : c ≡ x = ground arith in rw q (rw equal at there)
    | inr q ↦ rw q
  ])
  | inr e ↦
      rw e (ground (arith, has_code-append x merged (c ∷ []), has_code-cons x c [], has_code-nil x))
]

merge_group-IsMerging :
    (g : List ℕ) (acc : List ℕ × List ℕ) → IsMerging acc → IsMerging (merge_group g acc)
unfolding merge_group
merge_group-IsMerging [] acc v = v
merge_group-IsMerging (c ∷ cs) acc v =
    merge_group-IsMerging cs (merge_code c acc) (merge_code-IsMerging c acc v)

merge_group-has_code :
    (x : ℕ) (g : List ℕ) (acc : List ℕ × List ℕ)
    → IsMerging acc
    → has_code x (merge_group g acc).1 ≡ (has_code x g || has_code x acc.1)
unfolding merge_group
merge_group-has_code x [] acc v = ground (arith, has_code-nil x)
merge_group-has_code x (c ∷ cs) acc v =
    let later = merge_group-has_code x cs (merge_code c acc) (merge_code-IsMerging c acc v) in
    ground (arith, later, merge_code-has_code x c acc v, has_code-cons x c cs)

merge_groups_lem :
    (x : ℕ) (gs : List (List ℕ)) (acc : List ℕ × List ℕ)
    → IsMerging acc
    → Distinct (merge_groups gs acc).1
      × (has_code x (merge_groups gs acc).1 ≡ (any (has_code x) gs || has_code x acc.1))
unfolding merge_groups
merge_groups_lem x [] acc v = (v.0, refl)
merge_groups_lem x (g ∷ gs) acc v =
    let (d, h) = merge_groups_lem x gs (merge_group g acc) (merge_group-IsMerging g acc v) in
    (d, ground (arith, h, merge_group-has_code x g acc v))

-- Merging lists every code at most once, and lists just the codes that stand in some group.
pub merge_plan_type_codes_lem :
    (groups : List (List ℕ)) (code : ℕ)
    → Distinct (merge_plan_type_codes groups)
      × (has_code code (merge_plan_type_codes groups) ≡ any (has_code code) groups)
unfolding merge_plan_type_codes
merge_plan_type_codes_lem groups code =
    let (d, h) = merge_groups_lem code groups ([], []) (tt, λ x. refl) in
    (d, ground (arith, h, has_code-nil code))

-- A set made from a list of codes allows every code if the list is empty, and else just its
-- members.
pub plan_type_allowed_iff :
    (code : ℕ) (codes : List ℕ)
    → (plan_type_allowed code (plan_type_code_set codes) ≡ true) ↔ ((codes ≡ []) ⊎ In code codes)
plan_type_allowed_iff code [] = (λ h. inl refl, λ h. allow_all)
  where
    allow_all : plan_type_allowed code (plan_type_code_set []) ≡ true
    allow_all = unfold plan_type_allowed plan_type_code_set in refl
plan_type_allowed_iff code (c ∷ cs) =
    let set = plan_type_code_set (c ∷ cs) in
    let open_set = allowed_of_nonempty code set (code_set_nonempty c cs) in
    let members = plan_type_code_set-has_code code (c ∷ cs) in
    (
      λ h. inr (has_code→In code (c ∷ cs) (ground arith)),
      elim [ inl e ↦ absurd (cc) | inr m ↦ open_set ∙ members ∙ In→has_code code (c ∷ cs) m ],
    )
