-- ===== src/Field/Tables.antt =====
-- ext/endpoint_security/generated/es_schema.c: the tables of schemas. `offset_of` stands for
-- offsetof, by the struct and its member; the compiler knows it.
pub mod Entities
pub mod FileEvents
pub mod FileAttributes
pub mod ProcessEvents
pub mod Authentication
pub mod Authorization
pub mod Directory
pub mod Whole
pub mod Schemas
pub mod Events
use Prim.Native.String.{String}
use endpoint_security.Base.{ℕ, Bool, List, [], ◌∷◌}
use endpoint_security.Field.{Field, Schema, EventSchema}
use endpoint_security.Field.Text.{text}

-- The rows of a struct: name, type and the first message version
abbrev pub fields : (String → String → ℕ) → String → List (String × String × ℕ) → List Field
fields offset_of struct [] = []
fields offset_of struct ((name, type, version) ∷ rest) =
    record {
      name = text name;
      type = text type;
      offset = offset_of struct name;
      minimum_version = version;
    }
    ∷ fields offset_of struct rest

abbrev pub schema : String → List Field → Schema
schema name rows = record { name = text name; fields = rows }

abbrev pub event : (String → String → ℕ) → ℕ → String → String → Bool → EventSchema
event offset_of type member name indirect = record {
  event_type = type;
  offset = offset_of "es_events_t" member;
  schema = text name;
  indirect = indirect;
}
