-- ===== src/Contents/Position.antt =====
-- The place of the first dialogue element, and what makes a hash valid.
use mathlib.Core.Option.{some-injective, none-ne-some}
use meow_cli.Common.{
  ℕ, suc, ◌+◌, ◌≤◌, ◌≡◌, ◌∙◌, inl, inr, sym, ap, refl, subst, Bool, true, false, ◌&&◌, List, [],
  ◌∷◌, ◌++◌, Option, none, some, arith, length, ◌==◌, Bool-cases, if◌then◌else◌,
}
use meow_cli.Common.Text.{Text, bytes}
use meow_cli.Affinity.Bindings.{ContentHash, valid}
use meow_cli.Contents.{
  Kind, NodeType, v_none, v_null, v_string, v_array, v_object, v_other, kind_dialogue, kind_context,
  kind_tools, Ast, CollectedElement, Collector, Fingerprint, Builder, completion, responses, gemini,
  is_dialogue, is_absent, type_eq, new_collector, and_then, value_empty, append_element, add,
  collect_whole_value, validate_object_items, collect_object_array, sequence_loop,
  collect_object_sequence, collect_input, collect_completion, collect_responses, collect_gemini,
  collect_request, hashable, hash_loop, finish,
}

-- The place of the first dialogue element, from 1, and 0 where there is none.
unfoldable pub dialogue_position : {N : Type 0} → List (CollectedElement N) → ℕ
dialogue_position [] = 0
dialogue_position (e ∷ es) =
    let rest = dialogue_position es in
    if is_dialogue e.kind then 1 else (if rest == 0 then 0 else rest + 1)

dialogue_position-append :
    {N : Type 0} (es : List (CollectedElement N)) (e : CollectedElement N)
    → dialogue_position (es ++ (e ∷ [])) ≡ (
        if is_dialogue e.kind && dialogue_position es == 0
        then length es + 1
        else dialogue_position es)
unfolding dialogue_position
dialogue_position-append [] e = ground arith
dialogue_position-append (d ∷ es) e = let h = dialogue_position-append es e in ground arith

dialogue_position_le :
    {N : Type 0} (es : List (CollectedElement N)) → dialogue_position es ≤ length es
unfolding dialogue_position
dialogue_position_le [] = omega arith
dialogue_position_le (e ∷ es) = let h = dialogue_position_le es in ground arith

abbrev pub IsPositioned : {N : Type 0} → Collector N → Type 0
IsPositioned c = c.first_dialogue ≡ dialogue_position c.elements

-- An operation that keeps the place, where it succeeds.
abbrev Keeps : {N : Type 0} → (Collector N → Option (Collector N)) → Type 0
Keeps {N = N} f = (c c' : Collector N) → IsPositioned c → f c ≡ some c' → IsPositioned c'

Keeps-if :
    {N : Type 0} (b : Bool) (f g : Collector N → Option (Collector N))
    → Keeps f
    → Keeps g
    → Keeps (λ c. if b then f c else g c)
Keeps-if true f g kf kg = kf
Keeps-if false f g kf kg = kg

Keeps-some : {N : Type 0} → Keeps {N = N} (λ c. some c)
Keeps-some c c' h e = subst IsPositioned (some-injective c c' e) h

Keeps-none : {N : Type 0} → Keeps {N = N} (λ c. none)
Keeps-none c c' h e = absurd (none-ne-some c' e)

Keeps-and_then :
    {N : Type 0} (f g : Collector N → Option (Collector N))
    → Keeps f
    → Keeps g
    → Keeps (λ c. and_then (f c) g)
Keeps-and_then {N = N} f g kf kg c c' h e = of (f c) refl e
  where
    of : (o : Option (Collector N)) → f c ≡ o → and_then o g ≡ some c' → IsPositioned c'
    of none same e = absurd (none-ne-some c' e)
    of (some d) same e = kg d c' (kf c d h same) e

-- The contentHash that buildContentHash makes of a Fingerprint.
abbrev pub content_hash : Fingerprint → ContentHash
content_hash fp = record { elements = fp.elements; first_dialogue = fp.first_dialogue }

module _ {N : Type 0} (ast : Ast N) where
  append_element-IsPositioned :
      (node : N) (kind : Kind) (c : Collector N) (empty : Bool)
      → IsPositioned c
      → IsPositioned (append_element ast node kind c empty)
  unfolding append_element
  append_element-IsPositioned node kind c true h = h
  append_element-IsPositioned node kind c false h =
      rw h (sym (dialogue_position-append c.elements (record { node = node; kind = kind })))

  Keeps-add : (node : N) (kind : Kind) → Keeps (add ast node kind)
  unfolding add
  Keeps-add node kind c c' h e = of (value_empty ast node) e
    where
      of :
          (o : Option Bool)
          → and_then o (λ empty. some (append_element ast node kind c empty)) ≡ some c'
          → IsPositioned c'
      of none e = absurd (none-ne-some c' e)
      of (some empty) e =
          subst IsPositioned (some-injective _ c' e)
            (append_element-IsPositioned node kind c empty h)

  Keeps-collect_whole_value :
      (node : N) (kind : Kind) (expected : NodeType)
      → Keeps (collect_whole_value ast node kind expected)
  unfolding collect_whole_value
  Keeps-collect_whole_value node kind expected =
      Keeps-if (is_absent (ast.node_type node)) (λ c. some c) _ Keeps-some
        (Keeps-if (type_eq (ast.node_type node) expected) (add ast node kind) (λ c. none)
          (Keeps-add node kind) Keeps-none)

  Keeps-collect_object_array : (node : N) (kind : Kind) → Keeps (collect_object_array ast node kind)
  unfolding collect_object_array
  Keeps-collect_object_array node kind =
      Keeps-if (is_absent (ast.node_type node)) (λ c. some c) _ Keeps-some
        (Keeps-if (type_eq (ast.node_type node) v_array && validate_object_items ast node)
          (add ast node kind) (λ c. none) (Keeps-add node kind) Keeps-none)

  Keeps-sequence_loop : (ns : List N) → Keeps (sequence_loop ast ns)
  unfolding sequence_loop
  Keeps-sequence_loop [] = Keeps-some
  Keeps-sequence_loop (n ∷ ns) =
      Keeps-if (type_eq (ast.node_type n) v_object)
        (λ c. and_then (add ast n kind_dialogue c) (sequence_loop ast ns)) (λ c. none)
        (Keeps-and_then (add ast n kind_dialogue) (sequence_loop ast ns) (Keeps-add n kind_dialogue)
          (Keeps-sequence_loop ns))
        Keeps-none

  Keeps-items : (o : Option (List N)) → Keeps (λ c. and_then o (λ ns. sequence_loop ast ns c))
  Keeps-items none = Keeps-none
  Keeps-items (some ns) = Keeps-sequence_loop ns

  Keeps-collect_object_sequence : (node : N) → Keeps (collect_object_sequence ast node)
  unfolding collect_object_sequence
  Keeps-collect_object_sequence node =
      Keeps-if (is_absent (ast.node_type node)) (λ c. some c) _ Keeps-some
        (Keeps-if (type_eq (ast.node_type node) v_array)
          (λ c. and_then (ast.items node) (λ ns. sequence_loop ast ns c)) (λ c. none)
          (Keeps-items (ast.items node)) Keeps-none)

  Keeps-collect_input : (node : N) → Keeps (collect_input ast node)
  unfolding collect_input
  Keeps-collect_input node = of (ast.node_type node)
    where
      of :
          (t : NodeType)
          → Keeps (λ c. elim t [
            | v_none ↦ some c
            | v_null ↦ some c
            | v_string ↦ add ast node kind_dialogue c
            | v_array ↦ collect_object_sequence ast node c
            | v_object ↦ none
            | v_other ↦ none
          ])
      of v_none = Keeps-some
      of v_null = Keeps-some
      of v_string = Keeps-add node kind_dialogue
      of v_array = Keeps-collect_object_sequence node
      of v_object = Keeps-none
      of v_other = Keeps-none

  Keeps-collect_request : (b : Builder) (root : N) → Keeps (collect_request ast b root)
  unfolding collect_request collect_completion collect_responses collect_gemini
  Keeps-collect_request completion root =
      Keeps-and_then _ _ (Keeps-collect_object_array (ast.get root (bytes "tools")) kind_tools)
        (Keeps-collect_object_sequence (ast.get root (bytes "messages")))
  Keeps-collect_request responses root =
      Keeps-and_then _ _
        (Keeps-collect_whole_value (ast.get root (bytes "instructions")) kind_context v_string)
        (Keeps-and_then _ _ (Keeps-collect_object_array (ast.get root (bytes "tools")) kind_tools)
          (Keeps-collect_input (ast.get root (bytes "input"))))
  Keeps-collect_request gemini root =
      Keeps-and_then _ _
        (Keeps-collect_whole_value (ast.get root (bytes "systemInstruction")) kind_context v_object)
        (Keeps-and_then _ _ (Keeps-collect_object_array (ast.get root (bytes "tools")) kind_tools)
          (Keeps-collect_object_sequence (ast.get root (bytes "contents"))))

  length-hash_loop :
      (hasher : Kind → Text → ℕ) (es : List (CollectedElement N)) (hs : List ℕ)
      → hash_loop ast hasher es ≡ some hs
      → length hs ≡ length es
  unfolding hash_loop
  length-hash_loop hasher [] hs e = ap length (sym (some-injective [] hs e))
  length-hash_loop hasher (x ∷ es) hs e =
      of (λ ks. length-hash_loop hasher es ks) (ast.marshal x.node) (hash_loop ast hasher es) refl e
    where
      of :
          ((ks : List ℕ) → hash_loop ast hasher es ≡ some ks → length ks ≡ length es)
          → (raw : Option Text) (rest : Option (List ℕ)) → hash_loop ast hasher es ≡ rest
          → and_then raw (λ r. and_then rest (λ ks. some (hasher x.kind r ∷ ks))) ≡ some hs
          → length hs ≡ suc (length es)
      of later none rest same e = absurd (none-ne-some hs e)
      of later (some r) none same e = absurd (none-ne-some hs e)
      of later (some r) (some ks) same e =
          ap length (sym (some-injective (hasher x.kind r ∷ ks) hs e)) ∙ ap suc (later ks same)

  finish-valid :
      (hasher : Kind → Text → ℕ) (c : Collector N) (fp : Fingerprint)
      → IsPositioned c
      → finish ast 4 hasher c ≡ some fp
      → (fp.first_dialogue ≡ dialogue_position c.elements)
        × (valid (content_hash fp) ≡ hashable ast 4 c)
  unfolding finish hashable valid
  finish-valid hasher c fp h e = elim (Bool-cases (hashable ast 4 c)) [
    | inl b ↦ hashed b (hash_loop ast hasher c.elements) refl (rw b at e)
    | inr b ↦
        let same = some-injective _ fp (rw b at e) in
        let empty : valid (record { elements = []; first_dialogue = c.first_dialogue }) ≡ false =
          ground arith in
        (
          ap (λ (v : Fingerprint). v.first_dialogue) (sym same) ∙ h,
          ap (λ (v : Fingerprint). valid (content_hash v)) (sym same) ∙ empty ∙ sym b,
        )
  ]
    where
      hashed :
          hashable ast 4 c ≡ true
          → (o : Option (List ℕ)) → hash_loop ast hasher c.elements ≡ o
          → and_then o (λ hs. some (record { elements = hs; first_dialogue = c.first_dialogue }))
            ≡ some fp
          → (fp.first_dialogue ≡ dialogue_position c.elements)
            × (valid (content_hash fp) ≡ hashable ast 4 c)
      hashed b none same e = absurd (none-ne-some fp e)
      hashed b (some hs) same e =
          let eq =
            some-injective (record { elements = hs; first_dialogue = c.first_dialogue }) fp e in
          let size = length-hash_loop hasher c.elements hs same in
          let le = dialogue_position_le c.elements in
          let whole : valid (record { elements = hs; first_dialogue = c.first_dialogue })
              ≡ hashable ast 4 c =
            ground (arith, size, le, h) in
          (
            ap (λ (v : Fingerprint). v.first_dialogue) (sym eq) ∙ h,
            ap (λ (v : Fingerprint). valid (content_hash v)) (sym eq) ∙ whole,
          )

  -- Where one of the three builders collects a request and its hash is built, FirstDialogue is the
  -- place of the first dialogue element among the collected ones, from 1, and the hash is valid if
  -- and only if what was collected is hashable.
  pub collect_request-finish :
      (b : Builder) (root : N) (hasher : Kind → Text → ℕ) (c : Collector N) (fp : Fingerprint)
      → collect_request ast b root new_collector ≡ some c
      → finish ast 4 hasher c ≡ some fp
      → (fp.first_dialogue ≡ dialogue_position c.elements)
        × (valid (content_hash fp) ≡ hashable ast 4 c)
  unfolding dialogue_position
  collect_request-finish b root hasher c fp e k =
      finish-valid hasher c fp (Keeps-collect_request b root new_collector c refl e) k
