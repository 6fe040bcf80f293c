-- ===== src/Contents.antt =====
-- internal/bridge/contenthash: Collector and the Collect methods of the builders. A node of sonic's AST is
-- a value of N, and what the code asks of it is a record of functions.
pub mod Position
use meow_cli.Common.{
  ℕ, zero, suc, ◌+◌, Bool, true, false, not, ◌&&◌, ◌||◌, List, [], ◌∷◌, ◌++◌, Option, none, some,
  length, leb, ltb, ◌==◌, if◌then◌else◌,
}
use meow_cli.Common.Text.{Text, bytes, text_eq}

pub data Kind : Type 0 where
  kind_dialogue kind_context kind_tools : Kind

-- The types of a node that the code tells apart.
pub data NodeType : Type 0 where
  v_none v_null v_string v_array v_object v_other : NodeType

-- NodeType, Get, Len with Index, Len, StrictString and MarshalJSON; none for an error.
pub record Ast (N : Type 0) : Type 0 where
  pub node_type : N → NodeType
  pub get : N → Text → N
  pub items : N → Option (List N)
  pub len : N → Option ℕ
  pub strict_string : N → Option Text
  pub marshal : N → Option Text

pub record CollectedElement (N : Type 0) : Type 0 where
  pub node : N
  pub kind : Kind

pub record Collector (N : Type 0) : Type 0 where
  pub elements : List (CollectedElement N)
  pub first_dialogue : ℕ

pub record Fingerprint : Type 0 where
  pub elements : List ℕ
  pub first_dialogue : ℕ

-- The protocols; the one of the Messages API is left out.
pub data Builder : Type 0 where
  completion responses gemini : Builder

abbrev pub is_dialogue : Kind → Bool
is_dialogue kind_dialogue = true
is_dialogue kind_context = false
is_dialogue kind_tools = false

abbrev pub type_eq : NodeType → NodeType → Bool
type_eq v_none v_none = true
type_eq v_null v_null = true
type_eq v_string v_string = true
type_eq v_array v_array = true
type_eq v_object v_object = true
type_eq v_other v_other = true
type_eq _ _ = false

abbrev pub is_absent : NodeType → Bool
is_absent v_none = true
is_absent v_null = true
is_absent _ = false

abbrev pub new_collector : {N : Type 0} → Collector N
new_collector = record { elements = []; first_dialogue = 0 }

abbrev pub and_then : {A B : Type 0} → Option A → (A → Option B) → Option B
and_then none k = none
and_then (some a) k = k a

module _ {N : Type 0} (ast : Ast N) where
  unfoldable pub value_empty : N → Option Bool
  value_empty node = elim (ast.node_type node) [
    | v_none ↦ some true
    | v_null ↦ some true
    | v_string ↦ and_then (ast.strict_string node) (λ s. some (text_eq s []))
    | v_array ↦ and_then (ast.len node) (λ n. some (n == 0))
    | v_object ↦ and_then (ast.len node) (λ n. some (n == 0))
    | v_other ↦ some false
  ]

  -- Add, where valueEmpty has answered.
  unfoldable pub append_element : N → Kind → Collector N → Bool → Collector N
  append_element node kind c empty = if empty then c else record {
    elements = c.elements ++ (record { node = node; kind = kind } ∷ []);
    first_dialogue =
        if is_dialogue kind && c.first_dialogue == 0
        then length c.elements + 1
        else c.first_dialogue;
  }

  unfoldable pub add : N → Kind → Collector N → Option (Collector N)
  unfolding value_empty append_element
  add node kind c = and_then (value_empty node) (λ empty. some (append_element node kind c empty))

  unfoldable pub collect_whole_value : N → Kind → NodeType → Collector N → Option (Collector N)
  unfolding add
  collect_whole_value node kind expected c =
      if is_absent (ast.node_type node)
      then some c
      else if type_eq (ast.node_type node) expected
      then add node kind c
      else none

  abbrev all_objects : List N → Bool
  all_objects [] = true
  all_objects (n ∷ ns) = type_eq (ast.node_type n) v_object && all_objects ns

  unfoldable pub validate_object_items : N → Bool
  validate_object_items node =
      type_eq (ast.node_type node) v_array
      && (elim (ast.items node) [ none ↦ false | some ns ↦ all_objects ns ])

  unfoldable pub collect_object_array : N → Kind → Collector N → Option (Collector N)
  unfolding add validate_object_items
  collect_object_array node kind c =
      if is_absent (ast.node_type node)
      then some c
      else if type_eq (ast.node_type node) v_array && validate_object_items node
      then add node kind c
      else none

  unfoldable pub sequence_loop : List N → Collector N → Option (Collector N)
  unfolding add
  sequence_loop [] c = some c
  sequence_loop (n ∷ ns) c =
      if type_eq (ast.node_type n) v_object
      then and_then (add n kind_dialogue c) (λ c'. sequence_loop ns c')
      else none

  unfoldable pub collect_object_sequence : N → Collector N → Option (Collector N)
  unfolding sequence_loop
  collect_object_sequence node c =
      if is_absent (ast.node_type node)
      then some c
      else if type_eq (ast.node_type node) v_array
      then and_then (ast.items node) (λ ns. sequence_loop ns c)
      else none

  -- collectInput of the Responses API.
  unfoldable pub collect_input : N → Collector N → Option (Collector N)
  unfolding add collect_object_sequence
  collect_input node c = elim (ast.node_type node) [
    | v_none ↦ some c
    | v_null ↦ some c
    | v_string ↦ add node kind_dialogue c
    | v_array ↦ collect_object_sequence node c
    | v_object ↦ none
    | v_other ↦ none
  ]

  -- Collect of the builders for Chat Completions, the Responses API and Gemini.
  unfoldable pub collect_completion : N → Collector N → Option (Collector N)
  unfolding collect_object_array collect_object_sequence
  collect_completion root c =
      and_then (collect_object_array (ast.get root (bytes "tools")) kind_tools c)
        (collect_object_sequence (ast.get root (bytes "messages")))

  unfoldable pub collect_responses : N → Collector N → Option (Collector N)
  unfolding collect_whole_value collect_object_array collect_input
  collect_responses root c =
      and_then (collect_whole_value (ast.get root (bytes "instructions")) kind_context v_string c)
        (λ c'.
          and_then (collect_object_array (ast.get root (bytes "tools")) kind_tools c')
            (collect_input (ast.get root (bytes "input"))))

  unfoldable pub collect_gemini : N → Collector N → Option (Collector N)
  unfolding collect_whole_value collect_object_array collect_object_sequence
  collect_gemini root c =
      and_then
        (collect_whole_value (ast.get root (bytes "systemInstruction")) kind_context v_object c)
        (λ c'.
          and_then (collect_object_array (ast.get root (bytes "tools")) kind_tools c')
            (collect_object_sequence (ast.get root (bytes "contents"))))

  unfoldable pub collect_request : Builder → N → Collector N → Option (Collector N)
  unfolding collect_completion collect_responses collect_gemini
  collect_request completion = collect_completion
  collect_request responses = collect_responses
  collect_request gemini = collect_gemini

  unfoldable pub hashable : ℕ → Collector N → Bool
  hashable minimum c = ltb 0 c.first_dialogue && leb minimum (length c.elements)

  -- The loop of fingerprint; the hash is an argument.
  unfoldable pub hash_loop : (Kind → Text → ℕ) → List (CollectedElement N) → Option (List ℕ)
  hash_loop hasher [] = some []
  hash_loop hasher (e ∷ es) =
      and_then (ast.marshal e.node)
        (λ raw. and_then (hash_loop hasher es) (λ hs. some (hasher e.kind raw ∷ hs)))

  -- The end of build, behind the collection.
  unfoldable pub finish : ℕ → (Kind → Text → ℕ) → Collector N → Option Fingerprint
  unfolding hashable hash_loop
  finish minimum hasher c =
      if not (hashable minimum c)
      then some (record { elements = []; first_dialogue = c.first_dialogue })
      else and_then (hash_loop hasher c.elements)
          (λ hs. some (record { elements = hs; first_dialogue = c.first_dialogue }))
