-- ===== src/Field/Guard.antt =====
-- ext/endpoint_security/field.c, read_field: what it does without reading the event's data.
use endpoint_security.Base.{
  ℕ, ◌<◌, ◌≡◌, ◌≢◌, ◌⊎◌, ◌↔◌, inl, inr, refl, ap, sym, subst, ◌∙◌, true, Option, none, some, List,
  [], ◌∷◌, Bool-cases, arith,
}
use endpoint_security.Ruby.{Result, raised, returned}
use endpoint_security.Field.{
  CString, Field, Schema, Objects, View, Access, no_field, unavailable, address, same_string,
  find_field, gate, message_valid_object, get_view, access,
}
use endpoint_security.Field.Lookup.{IsIn, get_view-ViewCases, access_lem, find_field_found}
use endpoint_security.Field.Value.{Encoding, FieldValue, nil, Sdk}
use endpoint_security.Field.Read.{field_value, read_field}

-- The view's owner is no valid message of this process, or every field with the name is newer than
-- the message.
abbrev pub Guarded : Objects → View → CString → Type 0
Guarded objects v name =
    (message_valid_object objects v.owner ≢ returned true)
    ⊎ ((f : Field) → IsIn f v.schema.fields → f.name ≡ name → v.message_version < f.minimum_version)

-- What read_field makes of an access
abbrev pub read : List Schema → Sdk → Encoding → View → Result Access → Result (Option FieldValue)
read schemas sdk encoding v a = elim a [
  | raised e ↦ raised e
  | returned no_field ↦ returned none
  | returned unavailable ↦ returned (some nil)
  | returned (address f place) ↦ returned (some (field_value schemas sdk encoding v f place))
]

never_address :
    (objects : Objects) (v : View) (name : CString) (f : Field) (place : ℕ)
    → Guarded objects v name
    → access objects v name ≢ returned (address f place)
never_address objects v name f place (inl gone) e =
    let (valid, named, member, old, at) = access_lem objects v name f place e in absurd (gone valid)
never_address objects v name f place (inr newer) e =
    let (valid, named, member, old, at) = access_lem objects v name f place e in
    absurd (omega (arith, newer f member named, old))

read_same :
    (schemas : List Schema) (sdk other : Sdk) (encoding : Encoding) (v : View) (a : Result Access)
    → ((f : Field) (place : ℕ) → a ≢ returned (address f place))
    → read schemas sdk encoding v a ≡ read schemas other encoding v a
read_same schemas sdk other encoding v (raised e) h = refl
read_same schemas sdk other encoding v (returned no_field) h = refl
read_same schemas sdk other encoding v (returned unavailable) h = refl
read_same schemas sdk other encoding v (returned (address f place)) h = absurd (h f place refl)

-- On a view of a message that is released or of another process, and for a name that the schema has
-- only for newer messages or not at all, what read_field does does not depend on the event's data:
-- it is the same for any two contents of the framework's memory.
pub read_field-Guarded :
    (schemas : List Schema) (sdk other : Sdk) (encoding : Encoding) (objects : Objects) (v : View)
    (name : CString)
    → Guarded objects v name
    → read_field schemas sdk encoding objects v name
      ≡ read_field schemas other encoding objects v name
unfolding read_field
read_field-Guarded schemas sdk other encoding objects v name h =
    read_same schemas sdk other encoding v (access objects v name)
      (λ f place. never_address objects v name f place h)

same_string_refl : (s : CString) → same_string s s ≡ true
unfolding same_string
same_string_refl [] = refl
same_string_refl (x ∷ s) = ground (arith, same_string_refl s)

-- No field has the name.
abbrev pub Missing : List Field → CString → Type 0
Missing fields name = (f : Field) → IsIn f fields → f.name ≢ name

find_field-Missing :
    (fields : List Field) (name : CString) → find_field fields name ≡ none → Missing fields name
unfolding find_field
find_field-Missing [] name h f member e = elim member [ ]
find_field-Missing (x ∷ fields) name h f (inl same) e =
    let found : same_string x.name name ≡ true =
      subst (λ n. same_string x.name n ≡ true) (ap (λ (y : Field). y.name) (sym same) ∙ e)
        (same_string_refl x.name) in
    ground (arith, h, found)
find_field-Missing (x ∷ fields) name h f (inr member) e =
    elim (Bool-cases (same_string x.name name)) [
      | inl t ↦ ground (arith, h, t)
      | inr n ↦ find_field-Missing fields name (ground (arith, h, n)) f member e
    ]

Missing-find_field :
    (fields : List Field) (name : CString) (r : Option Field)
    → find_field fields name ≡ r
    → Missing fields name
    → r ≡ none
Missing-find_field fields name none e h = refl
Missing-find_field fields name (some f) e h =
    let (named, member) = find_field_found fields name e in absurd (h f member named)

gate_no_field : (v : View) (r : Option Field) → gate v r ≡ returned no_field → r ≡ none
unfolding gate
gate_no_field v none e = refl
gate_no_field v (some f) e = ground arith

read_undefined :
    (schemas : List Schema) (sdk : Sdk) (encoding : Encoding) (v : View) (a : Result Access)
    → read schemas sdk encoding v a ≡ returned none
    → a ≡ returned no_field
read_undefined schemas sdk encoding v (raised e) h = ground arith
read_undefined schemas sdk encoding v (returned no_field) h = refl
read_undefined schemas sdk encoding v (returned unavailable) h = ground arith
read_undefined schemas sdk encoding v (returned (address f place)) h = ground arith

access_undefined :
    (objects : Objects) (v : View) (name : CString)
    → access objects v name ≡ returned no_field
    → (message_valid_object objects v.owner ≡ returned true)
      × (find_field v.schema.fields name ≡ none)
unfolding access
access_undefined objects v name e = elim (get_view-ViewCases objects v) [
  | inl (same, valid) ↦
      let gated : gate v (find_field v.schema.fields name) ≡ returned no_field =
        sym (rw (access, same)) ∙ e in
      (valid, gate_no_field v (find_field v.schema.fields name) gated)
  | inr (r, refused, not_valid) ↦
      let bad : access objects v name ≡ raised r = rw (access, refused) in ground (arith, e, bad)
]

access_missing :
    (objects : Objects) (v : View) (name : CString)
    → message_valid_object objects v.owner ≡ returned true
    → find_field v.schema.fields name ≡ none
    → access objects v name ≡ returned no_field
unfolding access get_view gate
access_missing objects v name valid e = rw (access, get_view, valid, e)

-- read_field gives back Qundef exactly when the message is valid, in its own process, and the
-- view's schema has no field of the name: every field there is has a value, be it nil, or raises.
pub read_field_undefined :
    (schemas : List Schema) (sdk : Sdk) (encoding : Encoding) (objects : Objects) (v : View)
    (name : CString)
    → (read_field schemas sdk encoding objects v name ≡ returned none)
      ↔ ((message_valid_object objects v.owner ≡ returned true) × Missing v.schema.fields name)
unfolding read_field
read_field_undefined schemas sdk encoding objects v name = (
  λ e.
      let (valid, lost) =
        access_undefined objects v name
          (read_undefined schemas sdk encoding v (access objects v name) e) in
      (valid, find_field-Missing v.schema.fields name lost),
  λ h.
      let (valid, missing) = h in
      ap (read schemas sdk encoding v) (
        access_missing objects v name valid
          (Missing-find_field v.schema.fields name (find_field v.schema.fields name) refl missing)),
)
