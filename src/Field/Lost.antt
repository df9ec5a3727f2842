-- ===== src/Field/Lost.antt =====
-- ext/endpoint_security/field.c, read_field on the thread state of a remote thread: the first "_t" of
-- "es_thread_state_t" does not end that name.
use endpoint_security.Base.{ℕ, ◌+◌, ◌≤◌, ◌≡◌, refl, ap, ◌∙◌, true, false, none, some, List, arith}
use endpoint_security.Ruby.{returned}
use endpoint_security.Field.{
  Field, Schema, Objects, View, message_valid_object, get_view, address, find_schema, find_field,
  gate, access,
}
use endpoint_security.Field.Text.{text, referenced_schema_name}
use endpoint_security.Field.Choose.{choose}
use endpoint_security.Field.Value.{nil, Encoding, Sdk}
use endpoint_security.Field.Union.{read_array}
use endpoint_security.Field.Read.{is_schema, read_reference, read_struct, field_value, read_field}
use endpoint_security.Field.Guard.{read}

-- The row of es_event_remote_thread_create_t, for a struct that has the member at `offset`
abbrev pub thread_state : ℕ → Field
thread_state offset = record {
  name = text "thread_state";
  type = text "es_thread_state_t *";
  offset = offset;
  minimum_version = 1;
}

state_name : referenced_schema_name (text "es_thread_state_t *") 128 ≡ text "es_t"
unfolding referenced_schema_name
state_name = refl

module _ (schemas : List Schema) (sdk : Sdk) (encoding : Encoding) (v : View) where
  state_reference :
      (place : ℕ)
      → is_schema schemas sdk encoding (text "es_t") ≡ false
      → read_reference schemas sdk encoding v (text "es_thread_state_t *") place ≡ nil
  unfolding read_reference choose
  state_reference place h = rw (state_name, h)

  state_struct :
      (offset place : ℕ)
      → v.schema.name ≡ text "es_event_remote_thread_create_t"
      → read_struct schemas sdk encoding v (thread_state offset) place
        ≡ read_reference schemas sdk encoding v (text "es_thread_state_t *") place
  unfolding read_struct choose
  state_struct offset place h = rw h

  state_value :
      (offset place : ℕ)
      → v.schema.name ≡ text "es_event_remote_thread_create_t"
      → field_value schemas sdk encoding v (thread_state offset) place
        ≡ read_struct schemas sdk encoding v (thread_state offset) place
  unfolding field_value read_array choose
  state_value offset place h = refl

  gate_open :
      (offset : ℕ)
      → 1 ≤ v.message_version
      → gate v (some (thread_state offset))
        ≡ returned (address (thread_state offset) (v.pointer + offset))
  unfolding gate
  gate_open offset new = ground arith

  state_access :
      (objects : Objects) (offset : ℕ)
      → message_valid_object objects v.owner ≡ returned true
      → find_field v.schema.fields (text "thread_state") ≡ some (thread_state offset)
      → 1 ≤ v.message_version
      → access objects v (text "thread_state")
        ≡ returned (address (thread_state offset) (v.pointer + offset))
  unfolding access get_view
  state_access objects offset valid found new =
      rw (access, get_view, valid, found) (gate_open offset new)

  not_a_schema :
      find_schema schemas (text "es_t") ≡ none
      → is_schema schemas sdk encoding (text "es_t") ≡ false
  unfolding is_schema
  not_a_schema h = rw (is_schema, h)

-- On a valid view of an es_event_remote_thread_create_t whose schema lists thread_state as the
-- generated table does, with a message version of at least 1, and if no schema is called "es_t":
-- read_field gives back nil for thread_state, whatever the event holds.
pub thread_state_lost :
    (schemas : List Schema) (sdk : Sdk) (encoding : Encoding) (objects : Objects) (v : View)
    (offset : ℕ)
    → message_valid_object objects v.owner ≡ returned true
    → v.schema.name ≡ text "es_event_remote_thread_create_t"
    → find_field v.schema.fields (text "thread_state") ≡ some (thread_state offset)
    → 1 ≤ v.message_version
    → find_schema schemas (text "es_t") ≡ none
    → read_field schemas sdk encoding objects v (text "thread_state") ≡ returned (some nil)
unfolding read_field
thread_state_lost schemas sdk encoding objects v offset valid named found new unknown =
    let place = v.pointer + offset in
    ap (read schemas sdk encoding v)
      (state_access schemas sdk encoding v objects offset valid found new)
    ∙ ap (λ x. returned (some x))
        (state_value schemas sdk encoding v offset place named
          ∙ state_struct schemas sdk encoding v offset place named
          ∙ state_reference schemas sdk encoding v place
              (not_a_schema schemas sdk encoding v unknown))
