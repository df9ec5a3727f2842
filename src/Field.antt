-- ===== src/Field.antt =====
-- ext/endpoint_security/field.c: the lookup of schemas and fields, the version gate in front of every
-- field, and the conversions of bytes and of arrays of strings. A C string is the list of its
-- bytes without the final 0; a pointer is a number, 0 for NULL.
pub mod Lookup
pub mod Hex
pub mod Text
pub mod Name
pub mod Value
pub mod Choose
pub mod Union
pub mod Convert
pub mod Read
pub mod Guard
pub mod Inherit
pub mod UnionInherits
pub mod Inherited
pub mod Lost
pub mod Tables
pub mod Samples
mod Tests
use endpoint_security.Base.{
  ℕ, ◌+◌, ◌-◌, ◌/◌, ◌%◌, ◌^◌, Bool, true, false, ◌&&◌, not, Option, none, some, List, [], ◌∷◌, ltb,
  ◌==◌, if◌then◌else◌, u32_max,
}
use endpoint_security.Base.Lists.{length}
use endpoint_security.Ruby.{
  Error, forked_client_error, field_unavailable_error, message_invalidated_error, Result, raised,
  returned,
}

abbrev pub CString : Type 0
CString = List ℕ

-- strcmp(a, b) == 0
unfoldable pub same_string : CString → CString → Bool
same_string [] [] = true
same_string (x ∷ xs) (y ∷ ys) = (x == y) && same_string xs ys
same_string _ _ = false

-- esrb_field_t, esrb_schema_t, esrb_event_schema_t
pub record Field : Type 0 where
  pub name : CString
  pub type : CString
  pub offset : ℕ
  pub minimum_version : ℕ

pub record Schema : Type 0 where
  pub name : CString
  pub fields : List Field

pub record EventSchema : Type 0 where
  pub event_type : ℕ
  pub offset : ℕ
  pub schema : CString
  pub indirect : Bool

-- What esrb_message_valid_object reads of a message's object: the pid its client belongs to, and `valid`
pub record MessageObject : Type 0 where
  pub owner_pid : ℕ
  pub valid : Bool

-- The process, and its Ruby objects by their VALUE; `none` is an object that is no message.
pub record Objects : Type 0 where
  pub pid : ℕ
  pub message : ℕ → Option MessageObject

-- esrb_message_valid_object, with its message_owned_here
unfoldable pub message_valid_object : Objects → ℕ → Result Bool
message_valid_object objects object = elim (objects.message object) [
  | none ↦ returned false
  | some m ↦ if m.owner_pid == objects.pid then returned m.valid else raised forked_client_error
]

-- esrb_view_t; `owner` is the VALUE of the message.
pub record View : Type 0 where
  pub owner : ℕ
  pub pointer : ℕ
  pub schema : Schema
  pub message_version : ℕ
  pub strict_version : Bool

-- find_schema and find_field, over the tables that the build generates
unfoldable pub find_schema : List Schema → CString → Option Schema
unfolding same_string
find_schema [] name = none
find_schema (s ∷ rest) name = if same_string s.name name then some s else find_schema rest name

unfoldable pub find_field : List Field → CString → Option Field
unfolding same_string
find_field [] name = none
find_field (f ∷ rest) name = if same_string f.name name then some f else find_field rest name

-- esrb_view_wrap; `none` is nil.
unfoldable pub view_wrap : List Schema → ℕ → ℕ → CString → ℕ → Bool → Option View
unfolding find_schema
view_wrap schemas owner pointer name version strict =
    let made : Option View = elim (find_schema schemas name) [
      | none ↦ none
      | some s ↦ some (record {
        owner = owner;
        pointer = pointer;
        schema = s;
        message_version = version;
        strict_version = strict;
      })
    ] in
    if pointer == 0 then none else made

-- esrb_event_wrap: the first entry of the event's type; `load` reads a pointer from memory.
unfoldable pub event_wrap :
    List Schema → List EventSchema → (ℕ → ℕ) → ℕ → ℕ → ℕ → ℕ → Bool → Option View
unfolding view_wrap
event_wrap schemas [] load owner base type version strict = none
event_wrap schemas (e ∷ rest) load owner base type version strict =
    let address = base + e.offset in
    let found =
      view_wrap schemas owner (if e.indirect then load address else address) e.schema version
        strict in
    let others = event_wrap schemas rest load owner base type version strict in
    if e.event_type == type then found else others

-- What read_field does with a name before it reads: not a field, not there in this version, or
-- the field's address.
pub data Access : Type 0 where
  no_field unavailable : Access
  address : Field → ℕ → Access

-- read_field once it has looked for the field
unfoldable pub gate : View → Option Field → Result Access
gate v none = returned no_field
gate v (some f) =
    if ltb v.message_version f.minimum_version
    then (if v.strict_version then raised field_unavailable_error else returned unavailable)
    else returned (address f (v.pointer + f.offset))

unfoldable pub get_view : Objects → View → Result View
unfolding message_valid_object
get_view objects v = elim (message_valid_object objects v.owner) [
  | raised e ↦ raised e
  | returned valid ↦ if valid then returned v else raised message_invalidated_error
]

-- read_field up to the address
unfoldable pub access : Objects → View → CString → Result Access
unfolding get_view find_field gate
access objects v name = elim (get_view objects v) [
  | raised e ↦ raised e
  | returned w ↦ gate w (find_field w.schema.fields name)
]

-- field_names
unfoldable pub names_of : List Field → List CString
names_of [] = []
names_of (f ∷ rest) = f.name ∷ names_of rest

unfoldable pub field_names : Objects → View → Result (List CString)
unfolding get_view names_of
field_names objects v = elim (get_view objects v) [
  | raised e ↦ raised e
  | returned w ↦ returned (names_of w.schema.fields)
]

-- hex_value: the digits "0123456789abcdef"
abbrev pub digit : ℕ → ℕ
digit n = if ltb n 10 then 48 + n else 87 + n

unfoldable pub hex_value : List ℕ → CString
hex_value [] = []
hex_value (b ∷ bytes) = digit (b / 16) ∷ digit (b % 16) ∷ hex_value bytes
