-- ===== src/Field/Tests.antt =====
-- The event of a remote thread in a valid message, and the bytes 15 and 160.
use endpoint_security.Base.{
  ℕ, ◌*◌, ◌<◌, ◌≡◌, inl, inr, refl, ap, true, false, none, some, ◌==◌, if◌then◌else◌, [], ◌∷◌,
  arith,
}
use endpoint_security.Base.Lists.{length}
use endpoint_security.Ruby.{returned}
use endpoint_security.Field.{
  Field, Schema, Objects, View, get_view, message_valid_object, find_field, find_schema, hex_value,
}
use endpoint_security.Field.Lookup.{IsIn}
use endpoint_security.Field.Hex.{bytes_of, bytes_of-hex_value}
use endpoint_security.Field.Text.{text, referenced_schema_name}
use endpoint_security.Field.Name.{NamesSchema, referenced_schema_name-NamesSchema}
use endpoint_security.Field.Value.{nil, view, file_class, utf8}
use endpoint_security.Field.Samples.{sdk_of, sdk}
use endpoint_security.Field.Choose.{choose}
use endpoint_security.Field.Read.{read_field}
use endpoint_security.Field.Guard.{read_field-Guarded}
use endpoint_security.Field.Inherited.{InheritsResult, read_field-Inherits}
use Prim.Native.String.{String}
use endpoint_security.Field.Tables.{schema}
use endpoint_security.Field.Tables.ProcessEvents.{fields_es_event_remote_thread_create_t}
use endpoint_security.Field.Tables.Schemas.{esrb_schemas}
use endpoint_security.Field.Lost.{thread_state, thread_state_lost}

bytes_of-hex_value_example :
    (bytes_of (hex_value (15 ∷ 160 ∷ [])) ≡ 15 ∷ 160 ∷ [])
    × (length (hex_value (15 ∷ 160 ∷ [])) ≡ 2 * 2)
bytes_of-hex_value_example = bytes_of-hex_value (15 ∷ 160 ∷ []) (omega arith, (omega arith, _))

abbrev file_schema : Schema
file_schema = record { name = text "es_file_t"; fields = [] }

abbrev executable : Field
executable = record {
  name = text "executable";
  type = text "es_file_t *";
  offset = 16;
  minimum_version = 3;
}

abbrev remote_schema : Schema
remote_schema = record {
  name = text "es_event_remote_thread_create_t";
  fields = thread_state 8 ∷ executable ∷ [];
}

-- In the process 77, object 5 is a valid message of its own client.
abbrev objects : Objects
objects = record {
  pid = 77;
  message = λ object. if object == 5 then some (record { owner_pid = 77; valid = true }) else none;
}

abbrev remote : View
remote = record {
  owner = 5;
  pointer = 1000;
  schema = remote_schema;
  message_version = 3;
  strict_version = false;
}

-- A file that a field points at is a view at the address in the field.
executable_read :
    read_field (file_schema ∷ remote_schema ∷ []) sdk utf8 objects remote (text "executable")
    ≡ returned (some (view file_class (record remote { pointer = 5; schema = file_schema })))
unfolding read_field get_view message_valid_object choose
executable_read = refl

-- The generated tables, with every member at offset 8
abbrev eight : String → String → ℕ
eight struct member = 8

abbrev generated : View
generated = record remote {
  schema = schema "es_event_remote_thread_create_t" (fields_es_event_remote_thread_create_t eight);
}

thread_state_lost_example :
    read_field (esrb_schemas eight) sdk utf8 objects generated (text "thread_state")
    ≡ returned (some nil)
unfolding find_field find_schema message_valid_object
thread_state_lost_example =
    thread_state_lost (esrb_schemas eight) sdk utf8 objects generated 8 refl refl refl (omega arith)
      refl

referenced_schema_name-NamesSchema_example :
    NamesSchema
      (text "const es_file_t *")
      128
      (referenced_schema_name (text "const es_file_t *") 128)
referenced_schema_name-NamesSchema_example =
    referenced_schema_name-NamesSchema (text "const es_file_t *") 128

older :
    (f : Field) → IsIn f remote_schema.fields → f.name ≡ text "executable" → 2 < f.minimum_version
older f (inl e) h = omega (arith, ap (λ (x : Field). length x.name) e, ap length h)
older f (inr (inl e)) h = omega (arith, ap (λ (x : Field). x.minimum_version) e)
older f (inr (inr other)) h = elim other [ ]

read_field-Guarded_example :
    read_field
      (file_schema ∷ [])
      sdk
      utf8
      objects
      (record remote { message_version = 2 })
      (text "executable")
    ≡ read_field
        (file_schema ∷ [])
        (sdk_of (λ place n. []))
        utf8
        objects
        (record remote { message_version = 2 })
        (text "executable")
read_field-Guarded_example =
    read_field-Guarded (file_schema ∷ []) sdk (sdk_of (λ place n. [])) utf8 objects
      (record remote { message_version = 2 }) (text "executable") (inr older)

read_field-Inherits_example :
    InheritsResult
      (file_schema ∷ [])
      sdk
      utf8
      remote
      (read_field (file_schema ∷ []) sdk utf8 objects remote (text "executable"))
read_field-Inherits_example =
    read_field-Inherits (file_schema ∷ []) sdk utf8 objects remote (text "executable")
