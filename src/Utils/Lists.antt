-- ===== src/Utils/Lists.antt =====
-- utils/helpers.go: lists that are written as one string. Strings are ASCII.
pub mod Joined
use meow_cli.Common.{ℕ, Bool, true, false, List, [], ◌∷◌, ◌++◌, any, ◌==◌, ◌||◌, if◌then◌else◌}
use meow_cli.Common.Text.{Text, text_eq}
use meow_cli.Common.Strings.{is_space, trim_space, to_lower}

abbrev pub contains_text : List Text → Text → Bool
contains_text ts t = any (λ u. text_eq u t) ts

-- A comma, a semicolon or white space.
abbrev pub is_delimiter : ℕ → Bool
is_delimiter c = c == b',' || c == b';' || is_space c

abbrev pub add_word : Text → List Text → List Text
add_word [] ws = ws
add_word (c ∷ w) ws = (c ∷ w) ∷ ws

-- The first word, which may be empty, and the words behind it.
unfoldable pub split_words : (ℕ → Bool) → Text → Text × List Text
split_words p [] = ([], [])
split_words p (c ∷ s) =
    let (w, ws) = split_words p s in if p c then ([], add_word w ws) else (c ∷ w, ws)

-- strings.FieldsFunc.
unfoldable pub fields_func : (ℕ → Bool) → Text → List Text
unfolding split_words
fields_func p s = let (w, ws) = split_words p s in add_word w ws

-- strings.Join.
unfoldable pub join : Text → List Text → Text
join sep [] = []
join sep (w ∷ []) = w
join sep (w ∷ (v ∷ ws)) = w ++ (sep ++ join sep (v ∷ ws))

-- The words that are behind, where `seen` are those that are in the result.
unfoldable pub normalize_loop : (Text → Text) → List Text → List Text → List Text
normalize_loop normalize seen [] = []
normalize_loop normalize seen (part ∷ parts) =
    let normalized = normalize part in
    let without = normalize_loop normalize seen parts in
    let others = normalize_loop normalize (normalized ∷ seen) parts in
    if text_eq normalized [] || contains_text seen normalized then without else normalized ∷ others

unfoldable pub parse_delimited_list : Text → (Text → Text) → List Text
unfolding fields_func normalize_loop
parse_delimited_list raw normalize = normalize_loop normalize [] (fields_func is_delimiter raw)

unfoldable pub join_normalized_list : List Text → (Text → Text) → Text
unfolding normalize_loop join
join_normalized_list items normalize = join (b',' ∷ []) (normalize_loop normalize [] items)

abbrev pub folded : Text → Text
folded key = to_lower (trim_space key)

unfoldable pub allowed_set : List Text → List Text
allowed_set [] = []
allowed_set (key ∷ keys) =
    let rest = allowed_set keys in if text_eq (folded key) [] then rest else folded key ∷ rest

abbrev pub allowed_key : List Text → Text → Text
allowed_key allowed value = if contains_text allowed (folded value) then folded value else []

abbrev pub or_fallback : List Text → Text → List Text → List Text
or_fallback allowed fallback [] =
    if contains_text allowed (folded fallback) then folded fallback ∷ [] else []
or_fallback allowed fallback (key ∷ keys) = key ∷ keys

unfoldable pub normalize_allowed_keys : Text → List Text → Text → List Text
unfolding allowed_set parse_delimited_list
normalize_allowed_keys raw allowed fallback =
    let set = allowed_set allowed in
    or_fallback set fallback (parse_delimited_list raw (allowed_key set))
