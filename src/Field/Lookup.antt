-- ===== src/Field/Lookup.antt =====
-- ext/endpoint_security/field.c, find_field and read_field up to the address of a field.
use mathlib.Core.Path.{ap₂}
use endpoint_security.Base.{
  ℕ, ◌+◌, ◌≤◌, ◌≡◌, ◌≢◌, ◌⊎◌, inl, inr, refl, ap, sym, ◌∙◌, Bool, true, false, ◌==◌, ==→eq, Option,
  none, some, List, [], ◌∷◌, arith, Bool-cases,
}
use endpoint_security.Ruby.{Error, message_invalidated_error, Result, raised, returned}
use endpoint_security.Field.{
  CString, same_string, Field, Objects, View, message_valid_object, get_view, find_field, address,
  gate, access,
}

same_string-eq : (a b : CString) → same_string a b ≡ true → a ≡ b
unfolding same_string
same_string-eq [] [] h = refl
same_string-eq [] (y ∷ b) h = ground arith
same_string-eq (x ∷ a) [] h = ground arith
same_string-eq (x ∷ a) (y ∷ b) h = elim (Bool-cases (x == y)) [
  | inl t ↦ ap₂ ◌∷◌ (==→eq x y t) (same_string-eq a b (ground (arith, t)))
  | inr f ↦ ground (arith, f)
]

abbrev pub IsIn : Field → List Field → Type 0
IsIn f [] = ⊥
IsIn f (x ∷ fields) = (f ≡ x) ⊎ IsIn f fields

pub find_field_found :
    (fields : List Field) (name : CString) {f : Field}
    → find_field fields name ≡ some f
    → (f.name ≡ name) × IsIn f fields
unfolding find_field
find_field_found [] name h = ground arith
find_field_found (x ∷ fields) name {f} h = elim (Bool-cases (same_string x.name name)) [
  | inl t ↦
      let same : x ≡ f = ground (arith, t) in
      (ap (λ (y : Field). y.name) (sym same) ∙ same_string-eq x.name name t, inl (sym same))
  | inr n ↦
      let (named, rest) = find_field_found fields name (ground (arith, n)) in (named, inr rest)
]

gate_lem :
    (v : View) (r : Option Field) (f : Field) (place : ℕ)
    → gate v r ≡ returned (address f place)
    → (r ≡ some f) × (f.minimum_version ≤ v.message_version) × (place ≡ v.pointer + f.offset)
unfolding gate
gate_lem v none f place h = ground arith
gate_lem v (some x) f place h = ground arith

abbrev ViewCases : Objects → View → Type 0
ViewCases objects v =
    ((get_view objects v ≡ returned v) × (message_valid_object objects v.owner ≡ returned true))
    ⊎ ((e : Error) × (get_view objects v ≡ raised e)
        × (message_valid_object objects v.owner ≢ returned true))

get_view-from :
    (objects : Objects) (v : View) (r : Result Bool)
    → message_valid_object objects v.owner ≡ r
    → ViewCases objects v
unfolding get_view
get_view-from objects v (raised e) h = inr (e, rw (get_view, h), λ bad. ground (arith, sym h ∙ bad))
get_view-from objects v (returned true) h = inl (rw (get_view, h), h)
get_view-from objects v (returned false) h =
    inr (message_invalidated_error, rw (get_view, h), λ bad. ground (arith, sym h ∙ bad))

-- get_view gives back the view itself, and only if its owner is a valid message of this process.
pub get_view-ViewCases : (objects : Objects) (v : View) → ViewCases objects v
get_view-ViewCases objects v = get_view-from objects v (message_valid_object objects v.owner) refl

-- What access found before it gave an address
pub access_lem :
    (objects : Objects) (v : View) (name : CString) (f : Field) (place : ℕ)
    → access objects v name ≡ returned (address f place)
    → (message_valid_object objects v.owner ≡ returned true)
      × (f.name ≡ name)
      × IsIn f v.schema.fields
      × (f.minimum_version ≤ v.message_version)
      × (place ≡ v.pointer + f.offset)
unfolding access
access_lem objects v name f place h = elim (get_view-ViewCases objects v) [
  | inl (same, valid) ↦
      let gated : gate v (find_field v.schema.fields name) ≡ returned (address f place) =
        sym (rw (access, same)) ∙ h in
      let (found, version, here) = gate_lem v (find_field v.schema.fields name) f place gated in
      let (named, inside) = find_field_found v.schema.fields name found in
      (valid, named, inside, version, here)
  | inr (e, refused, not_valid) ↦
      let bad : access objects v name ≡ raised e = rw (access, refused) in ground (arith, h, bad)
]
