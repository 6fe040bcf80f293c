-- ===== src/Settings/Endpoints.antt =====
-- internal/settings/service.go: NormalizeAntigravityAPIEndpoint.
use meow_cli.Common.{
  ◌≡◌, ◌≢◌, ◌∙◌, ◌⊎◌, inl, inr, ap, refl, subst, false, List, [], ◌∷◌, arith, All, All-In, All-mono,
  any→In, Bool-cases,
}
use meow_cli.Common.Text.{Text, bytes, text_eq, text_eq→eq}
use meow_cli.Common.Strings.{trim_space, to_lower}
use meow_cli.Utils.Lists.{
  parse_delimited_list, normalize_allowed_keys, normalize_loop, fields_func, join, allowed_key,
  allowed_set, contains_text, is_delimiter, folded, or_fallback,
}
use meow_cli.Utils.Lists.Joined.{
  IsWord, normalize_loop-words, normalize_loop-All, normalize_loop-IsFresh, fields_func-join,
}
use meow_cli.Settings.Snapshots.{
  antigravity_api_endpoints, normalize_antigravity_api_endpoint,
  normalize_antigravity_api_endpoint_keys,
}

abbrev endpoint_key : Text → Text
endpoint_key = allowed_key antigravity_api_endpoints

endpoint-IsWord : All (IsWord endpoint_key) antigravity_api_endpoints
unfolding to_lower trim_space text_eq
endpoint-IsWord = (
  (ground arith, (ground arith, refl)),
  ((ground arith, (ground arith, refl)), ((ground arith, (ground arith, refl)), tt)),
)

endpoint_key-IsWord : (v : Text) → endpoint_key v ≢ [] → IsWord endpoint_key (endpoint_key v)
endpoint_key-IsWord v ne = elim (Bool-cases (contains_text antigravity_api_endpoints (folded v))) [
  | inl e ↦
      let (u, m, q) = any→In (λ x. text_eq x (folded v)) antigravity_api_endpoints e in
      rw e (
        subst (IsWord endpoint_key) (text_eq→eq u (folded v) q)
          (All-In (IsWord endpoint_key) antigravity_api_endpoints u endpoint-IsWord m))
  | inr e ↦ absurd (ne (rw e))
]

-- The keys that are read from a value.
abbrev read_keys : Text → List Text
read_keys value = parse_delimited_list value endpoint_key

parse_delimited_list-joined :
    (value : Text) → read_keys (join (bytes ",") (read_keys value)) ≡ read_keys value
unfolding parse_delimited_list
parse_delimited_list-joined value =
    let ws = normalize_loop endpoint_key [] (fields_func is_delimiter value) in
    let words =
      normalize_loop-All endpoint_key (IsWord endpoint_key) [] (fields_func is_delimiter value)
        endpoint_key-IsWord in
    let fresh = normalize_loop-IsFresh endpoint_key [] (fields_func is_delimiter value) in
    rw
      (fields_func-join is_delimiter b',' ws refl (
        All-mono (IsWord endpoint_key) (λ w. (w ≢ []) × All (λ c. is_delimiter c ≡ false) w) ws
          (λ w i. (i.0, i.1.0)) words))
      (normalize_loop-words endpoint_key [] ws words fresh)

allowed_set_endpoints : allowed_set antigravity_api_endpoints ≡ antigravity_api_endpoints
unfolding allowed_set to_lower trim_space text_eq
allowed_set_endpoints = refl

normalize_antigravity_api_endpoint_lem :
    (value : Text)
    → normalize_antigravity_api_endpoint value
      ≡ join (bytes ",") (or_fallback antigravity_api_endpoints (bytes "prod") (read_keys value))
unfolding normalize_antigravity_api_endpoint normalize_antigravity_api_endpoint_keys
    normalize_allowed_keys
normalize_antigravity_api_endpoint_lem value = rw allowed_set_endpoints

or_fallback_cases :
    (keys : List Text)
    → ((keys ≡ [])
        × (or_fallback antigravity_api_endpoints (bytes "prod") keys ≡ bytes "prod" ∷ []))
      ⊎ (or_fallback antigravity_api_endpoints (bytes "prod") keys ≡ keys)
unfolding to_lower trim_space text_eq
or_fallback_cases [] = inl (refl, refl)
or_fallback_cases (key ∷ keys) = inr refl

normalize_prod : normalize_antigravity_api_endpoint (bytes "prod") ≡ bytes "prod"
unfolding normalize_antigravity_api_endpoint to_lower trim_space text_eq
normalize_prod = refl

pub normalize_antigravity_api_endpoint-idempotent :
    (value : Text)
    → normalize_antigravity_api_endpoint (normalize_antigravity_api_endpoint value)
      ≡ normalize_antigravity_api_endpoint value
normalize_antigravity_api_endpoint-idempotent value =
    rw (normalize_antigravity_api_endpoint_lem value) (elim (or_fallback_cases (read_keys value)) [
      | inl h ↦ rw h.1 (unfold join in normalize_prod)
      | inr h ↦ rw h (
          normalize_antigravity_api_endpoint_lem (join (bytes ",") (read_keys value))
          ∙ rw (parse_delimited_list-joined value) (ap (join (bytes ",")) h))
    ])
