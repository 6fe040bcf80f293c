-- ===== src/Codex/PlanTypes/Named.antt =====
-- core/codex/plan_type.go: the plan types that a list of names allows, told by their names.
use meow_cli.Common.{
  ℕ, ◌≡◌, ◌⊎◌, inl, inr, ◌↔◌, refl, Bool, true, false, List, [], ◌∷◌, arith, ◌==◌, ◌||◌, any,
  &&-true, ap, sym, ◌∙◌, not, ◌&&◌, Bool-cases, if◌then◌else◌,
}
use mathlib.Core.Bool.{true≢false}
use meow_cli.Common.Text.{Text, text_eq, bytes, text_eq_refl, text_eq→eq}
use meow_cli.Scheduling.Plans.{plan_type_allowed, plan_type_code_set}
use meow_cli.Codex.PlanTypes.{
  normalize_plan_type, code_of, plan_code, plan_type_code_unknown, codes_for, is_known, is_named,
  codes_for_lem,
}

-- The plan types that are known, without the type unknown.
abbrev pub known_plans : List Text
known_plans =
    bytes "free"
    ∷ bytes "plus"
    ∷ bytes "edu"
    ∷ bytes "prolite"
    ∷ bytes "pro"
    ∷ bytes "team"
    ∷ bytes "enterprise"
    ∷ []

-- The name is that of a known plan type, in its normal form.
abbrev pub names_known : Text → Bool
names_known name = any (text_eq (normalize_plan_type name)) known_plans

-- The names have the same normal form.
abbrev pub names_same : Text → Text → Bool
names_same candidate name = text_eq (normalize_plan_type name) (normalize_plan_type candidate)

abbrev name_of : ℕ → Text
name_of code =
    if code == 0
    then bytes "free"
    else if code == 1
    then bytes "plus"
    else if code == 2
    then bytes "edu"
    else if code == 3
    then bytes "prolite"
    else if code == 4
    then bytes "pro"
    else if code == 5
    then bytes "team"
    else bytes "enterprise"

name_of-code_of :
    (name : Text) → (code_of name == plan_type_code_unknown) ≡ false → name_of (code_of name) ≡ name
unfolding code_of
name_of-code_of name h = elim (Bool-cases (text_eq name (bytes "free"))) [
  | inl e ↦ rw (e) (sym (text_eq→eq name (bytes "free") e))
  | inr e0 ↦ elim (Bool-cases (text_eq name (bytes "plus"))) [
    | inl e ↦ rw (e0, e) (sym (text_eq→eq name (bytes "plus") e))
    | inr e1 ↦ elim (Bool-cases (text_eq name (bytes "edu"))) [
      | inl e ↦ rw (e0, e1, e) (sym (text_eq→eq name (bytes "edu") e))
      | inr e2 ↦ elim (Bool-cases (text_eq name (bytes "prolite"))) [
        | inl e ↦ rw (e0, e1, e2, e) (sym (text_eq→eq name (bytes "prolite") e))
        | inr e3 ↦ elim (Bool-cases (text_eq name (bytes "pro"))) [
          | inl e ↦ rw (e0, e1, e2, e3, e) (sym (text_eq→eq name (bytes "pro") e))
          | inr e4 ↦ elim (Bool-cases (text_eq name (bytes "team"))) [
            | inl e ↦ rw (e0, e1, e2, e3, e4, e) (sym (text_eq→eq name (bytes "team") e))
            | inr e5 ↦ elim (Bool-cases (text_eq name (bytes "enterprise"))) [
              | inl e ↦
                  rw (e0, e1, e2, e3, e4, e5, e) (sym (text_eq→eq name (bytes "enterprise") e))
              | inr e6 ↦
                  let none_ : (code_of name == plan_type_code_unknown) ≡ true =
                    rw (e0, e1, e2, e3, e4, e5, e6) refl in
                  absurd (true≢false (sym none_ ∙ h))
            ]
          ]
        ]
      ]
    ]
  ]
]

code_of-known :
    (name : Text) → not (code_of name == plan_type_code_unknown) ≡ any (text_eq name) known_plans
unfolding code_of
code_of-known name = ground arith

and_false : (b : Bool) → (b && false) ≡ false
and_false true = refl
and_false false = refl

-- Known plan types have codes of their own.
same_code :
    (a b : Text)
    → (not (code_of a == plan_type_code_unknown) && code_of a == code_of b)
      ≡ (any (text_eq b) known_plans && text_eq a b)
same_code a b = elim (Bool-cases (text_eq a b)) [
  | inl e ↦
      ap (λ v. not (code_of v == plan_type_code_unknown) && code_of v == code_of b)
        (text_eq→eq a b e)
      ∙ one (code_of b) (any (text_eq b) known_plans) (code_of-known b)
      ∙ ap (λ v. any (text_eq b) known_plans && v) (sym e)
  | inr e ↦
      apart e
      ∙ sym (ap (λ v. any (text_eq b) known_plans && v) e ∙ and_false (any (text_eq b) known_plans))
]
  where
    one :
        (n : ℕ) (k : Bool)
        → not (n == plan_type_code_unknown) ≡ k
        → (not (n == plan_type_code_unknown) && n == n) ≡ (k && true)
    one n k h = ground arith

    clash :
        (code_of a == plan_type_code_unknown) ≡ false → code_of a ≡ code_of b → text_eq a b ≡ true
    clash h same =
        let other : (code_of b == plan_type_code_unknown) ≡ false =
          ap (λ n. n == plan_type_code_unknown) (sym same) ∙ h in
        let eq : a ≡ b = sym (name_of-code_of a h) ∙ ap name_of same ∙ name_of-code_of b other in
        ap (text_eq a) (sym eq) ∙ text_eq_refl a

    apart :
        text_eq a b ≡ false
        → (not (code_of a == plan_type_code_unknown) && code_of a == code_of b) ≡ false
    apart e = elim (Bool-cases (code_of a == plan_type_code_unknown)) [
      | inl h ↦ rw h refl
      | inr h ↦ elim (Bool-cases (code_of a == code_of b)) [
        | inr g ↦ rw (h, g) refl
        | inl g ↦
            let same : code_of a ≡ code_of b = ground arith in
            absurd (true≢false (sym (clash h same) ∙ e))
      ]
    ]

any-names_same :
    (candidate : Text) (names : List Text)
    → is_named (plan_code candidate) names
      ≡ (names_known candidate && any (names_same candidate) names)
unfolding plan_code
any-names_same candidate [] = sym (and_false (names_known candidate))
any-names_same candidate (t ∷ ts) =
    spread _ (names_known candidate) (names_same candidate t) _ (any (names_same candidate) ts)
      (same_code (normalize_plan_type t) (normalize_plan_type candidate))
      (any-names_same candidate ts)
  where
    spread : (x k y z w : Bool) → x ≡ (k && y) → z ≡ (k && w) → (x || z) ≡ (k && (y || w))
    spread x k y z w h g = ground arith

any-names_known : (names : List Text) → any is_known names ≡ any names_known names
unfolding plan_code
any-names_known [] = refl
any-names_known (t ∷ ts) = rw (code_of-known (normalize_plan_type t), any-names_known ts) refl

-- A list of allowed plan types, as names, allows a plan type exactly when it names none of the
-- seven known plan types, or the plan type is one of them and a name of the list has the same
-- normal form. The type unknown is not among the seven: naming it allows nothing.
pub codes_for_iff :
    (names : List Text) (candidate : Text)
    → (plan_type_allowed (plan_code candidate) (plan_type_code_set (codes_for names)) ≡ true) ↔ (
        (any names_known names ≡ false)
        ⊎ ((names_known candidate ≡ true) × (any (names_same candidate) names ≡ true)))
codes_for_iff names candidate =
    let (from, into) = codes_for_lem names (plan_code candidate) in
    let known = any-names_known names in
    let same = any-names_same candidate names in
    (
      λ h. elim (from h) [ inl e ↦ inl (sym known ∙ e) | inr e ↦ inr (&&-true _ _ (sym same ∙ e)) ],
      elim [ inl e ↦ into (inl (known ∙ e)) | inr (k, m) ↦ into (inr (same ∙ rw (k, m) refl)) ],
    )
