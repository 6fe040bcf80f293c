-- ===== src/Codex/PlanTypes.antt =====
-- core/codex/plan_type.go: the codes of plan types.
pub mod Named
use meow_cli.Common.{
  ℕ, ◌≡◌, ◌⊎◌, inl, inr, ◌↔◌, refl, Bool, true, false, List, [], ◌∷◌, ◌++◌, arith, ◌==◌, ◌||◌, any,
  any→In, In→any, &&-true, ap, sym, ◌∙◌, not, ◌&&◌, Bool-cases, if◌then◌else◌,
}
use mathlib.Core.Bool.{true≢false}
use meow_cli.Common.Text.{Text, text_eq, bytes, text_eq_refl, text_eq→eq}
use meow_cli.Common.Strings.{trim_space, to_lower}
use meow_cli.Scheduling.Plans.{
  has_code, plan_type_allowed, plan_type_code_set, plan_type_allowed_iff, has_code→In, In→has_code,
  has_code-append, has_code-cons, has_code-nil,
}

abbrev plan_list : List Text
plan_list =
    bytes "free"
    ∷ bytes "plus"
    ∷ bytes "edu"
    ∷ bytes "prolite"
    ∷ bytes "pro"
    ∷ bytes "team"
    ∷ bytes "enterprise"
    ∷ bytes "unknown"
    ∷ []

unfoldable pub normalize_plan_type : Text → Text
unfolding trim_space to_lower text_eq
normalize_plan_type plan_type =
    let normalized = to_lower (trim_space plan_type) in
    if text_eq normalized (bytes "-")
    then bytes "unknown"
    else if any (text_eq normalized) plan_list
    then normalized
    else []

abbrev pub plan_type_code_unknown : ℕ
plan_type_code_unknown = 999

-- The table planTypeCodes; a name that it lacks has the code of an unknown type.
unfoldable pub code_of : Text → ℕ
unfolding text_eq
code_of name =
    if text_eq name (bytes "free")
    then 0
    else if text_eq name (bytes "plus")
    then 1
    else if text_eq name (bytes "edu")
    then 2
    else if text_eq name (bytes "prolite")
    then 3
    else if text_eq name (bytes "pro")
    then 4
    else if text_eq name (bytes "team")
    then 5
    else if text_eq name (bytes "enterprise")
    then 6
    else plan_type_code_unknown

unfoldable pub plan_code : Text → ℕ
unfolding normalize_plan_type code_of
plan_code plan_type = code_of (normalize_plan_type plan_type)

-- One round of the loop of codesFor. What was seen is what was appended.
codes_step : Text → List ℕ → List ℕ
codes_step t codes =
    if plan_code t == plan_type_code_unknown
    then codes
    else if has_code (plan_code t) codes
    then codes
    else codes ++ (plan_code t ∷ [])

unfoldable pub codes_loop : List Text → List ℕ → List ℕ
unfolding codes_step
codes_loop [] codes = codes
codes_loop (t ∷ ts) codes = codes_loop ts (codes_step t codes)

unfoldable pub codes_for : List Text → List ℕ
unfolding codes_loop
codes_for plan_types = codes_loop plan_types []

abbrev pub is_known : Text → Bool
is_known t = not (plan_code t == plan_type_code_unknown)

-- Some name of the list has the code, which is not that of an unknown type.
abbrev pub is_named : ℕ → List Text → Bool
is_named code = any λ t. is_known t && plan_code t == code

has_code-codes_step :
    (code : ℕ) (t : Text) (codes : List ℕ)
    → has_code code (codes_step t codes) ≡ (
        has_code code codes || (not (plan_code t == plan_type_code_unknown) && plan_code t == code))
unfolding codes_step
has_code-codes_step code t codes = elim (Bool-cases (plan_code t == code)) [
  | inl e ↦
      let same : plan_code t ≡ code = ground arith in
      rw same (
        ground (
          arith,
          has_code-append code codes (code ∷ []),
          has_code-cons code code [],
          has_code-nil code,
        ))
  | inr e ↦ ground (
    arith,
    has_code-append code codes (plan_code t ∷ []),
    has_code-cons code (plan_code t) [],
    has_code-nil code,
  )
]

has_code-codes_loop :
    (code : ℕ) (ts : List Text) (codes : List ℕ)
    → has_code code (codes_loop ts codes) ≡ (has_code code codes || is_named code ts)
unfolding codes_loop
has_code-codes_loop code [] codes = ground arith
has_code-codes_loop code (t ∷ ts) codes =
    ground
      (arith, has_code-codes_loop code ts (codes_step t codes), has_code-codes_step code t codes)

codes_loop_unknown :
    (names : List Text) (codes : List ℕ)
    → any is_known names ≡ false
    → codes_loop names codes ≡ codes
unfolding codes_loop codes_step
codes_loop_unknown [] codes h = refl
codes_loop_unknown (t ∷ ts) codes h =
    let e : (plan_code t == plan_type_code_unknown) ≡ true = ground arith in
    rw e (codes_loop_unknown ts codes (ground arith))

codes_for_empty : (names : List Text) → codes_for names ≡ [] → any is_known names ≡ false
unfolding codes_for
codes_for_empty names e = elim (Bool-cases (any is_known names)) [
  | inr h ↦ h
  | inl h ↦
      let (t, there, known) = any→In is_known names h in
      let named : is_named (plan_code t) names ≡ true = In→any _ names t there (ground arith) in
      let listed = has_code-codes_loop (plan_code t) names [] in
      let nowhere : has_code (plan_code t) (codes_loop names []) ≡ false =
        ap (has_code (plan_code t)) e ∙ has_code-nil (plan_code t) in
      ground (arith, listed, nowhere)
]

-- Which codes a list of names allows.
pub codes_for_lem :
    (names : List Text) (code : ℕ)
    → (plan_type_allowed code (plan_type_code_set (codes_for names)) ≡ true)
      ↔ ((any is_known names ≡ false) ⊎ (is_named code names ≡ true))
unfolding codes_for
codes_for_lem names code =
    let (from, into) = plan_type_allowed_iff code (codes_for names) in
    let named = has_code-codes_loop code names [] in
    (
      λ h. elim (from h) [
        | inl e ↦ inl (codes_for_empty names e)
        | inr m ↦
            inr (ground (arith, named, In→has_code code (codes_for names) m, has_code-nil code))
      ],
      elim [
        | inl e ↦ into (inl (codes_loop_unknown names [] e))
        | inr e ↦
            into
              (inr (has_code→In code (codes_for names) (ground (arith, named, has_code-nil code))))
      ],
    )
