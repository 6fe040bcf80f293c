-- ===== src/Examples/Contents.antt =====
-- internal/bridge/contenthash: the theorem at a request with four messages.
use meow_cli.Common.{ℕ, ◌≡◌, refl, [], ◌∷◌, none, some, length, ◌==◌, if◌then◌else◌}
use meow_cli.Common.Text.{Text, bytes, text_eq}
use meow_cli.Affinity.Bindings.{valid}
use meow_cli.Contents.{
  Kind, kind_dialogue, NodeType, v_none, v_array, v_object, Ast, CollectedElement, Collector,
  Fingerprint, completion, new_collector, collect_request, hashable, finish,
}
use meow_cli.Contents.Position.{dialogue_position, content_hash, collect_request-finish}

-- The nodes of one request: 0 is the request, 1 its messages, 9 a missing value, and the others are messages.
abbrev type_of : ℕ → NodeType
type_of n = if n == 1 then v_array else (if n == 9 then v_none else v_object)

abbrev request : Ast ℕ
request = record {
  node_type = type_of;
  get = λ n key. if text_eq key (bytes "messages") then 1 else 9;
  items = λ n. some (2 ∷ 3 ∷ 4 ∷ 5 ∷ []);
  len = λ n. some 1;
  strict_string = λ n. none;
  marshal = λ n. some (n ∷ []);
}

abbrev element : ℕ → CollectedElement ℕ
element n = record { node = n; kind = kind_dialogue }

abbrev collected : Collector ℕ
collected = record {
  elements = element 2 ∷ element 3 ∷ element 4 ∷ element 5 ∷ [];
  first_dialogue = 1;
}

abbrev hasher : Kind → Text → ℕ
hasher kind raw = length raw

abbrev printed : Fingerprint
printed = record { elements = 1 ∷ 1 ∷ 1 ∷ 1 ∷ []; first_dialogue = 1 }

collected_all : collect_request request completion 0 new_collector ≡ some collected
unfolding collect_request text_eq
collected_all = refl

finished : finish request 4 hasher collected ≡ some printed
unfolding finish
finished = refl

collect_request-finish_example :
    (printed.first_dialogue ≡ dialogue_position collected.elements)
    × (valid (content_hash printed) ≡ hashable request 4 collected)
collect_request-finish_example =
    collect_request-finish request completion 0 hasher collected printed collected_all finished
