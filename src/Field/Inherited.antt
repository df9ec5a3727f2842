-- ===== src/Field/Inherited.antt =====
-- ext/endpoint_security/field.c, read_field: the views inside of what they give back.
use endpoint_security.Base.{ℕ, Option, none, some, List, if◌then◌else◌, arith}
use endpoint_security.Ruby.{Result, raised, returned}
use endpoint_security.Field.{
  CString, Field, Schema, Objects, View, Access, no_field, unavailable, address, access,
}
use endpoint_security.Field.Text.{has_char, referenced_schema_name}
use endpoint_security.Field.Choose.{choose-All}
use endpoint_security.Field.Value.{FieldValue, nil, string, Encoding, ascii8bit, Sdk}
use endpoint_security.Field.Convert.{string_token_value, audit_token_value, statfs_value}
use endpoint_security.Field.Union.{read_union, read_array}
use endpoint_security.Field.Read.{
  read_number, read_reference, read_struct, field_value, read_field, or_else, pointer_at,
  if_not_null, pipe_value,
}
use endpoint_security.Field.Guard.{read}
use endpoint_security.Field.Inherit.{
  Inherits, nested-Inherits, string_token_value-Inherits, token_value-Inherits, acl_value-Inherits,
  audit_token_value-Inherits, attrlist_value-Inherits, stat_value-Inherits, statfs_value-Inherits,
}
use endpoint_security.Field.UnionInherits.{InheritsIf, read_union-Inherits, read_array-Inherits}

module _ (schemas : List Schema) (sdk : Sdk) (encoding : Encoding) (v : View) where
  read_number-Inherits :
      (type : CString) (place : ℕ) → Inherits v (read_number schemas sdk encoding type place)
  unfolding read_number
  read_number-Inherits type place =
      choose-All (Inherits v) _ nil (tt, (tt, (tt, (tt, (tt, (tt, (tt, (tt, (tt, (tt, tt))))))))))
        tt

  read_reference-Inherits :
      (type : CString) (place : ℕ) → Inherits v (read_reference schemas sdk encoding v type place)
  unfolding read_reference
  read_reference-Inherits type place =
      let name = referenced_schema_name type 128 in
      choose-All (Inherits v) _ (read_number schemas sdk encoding type place)
        (
          nested-Inherits schemas v
              (if has_char type 42 then pointer_at schemas sdk encoding place else place) name,
          (tt, (tt, tt)),
        )
        (read_number-Inherits type place)

  not_null :
      (place : ℕ) (g : ℕ → FieldValue)
      → ((p : ℕ) → Inherits v (g p))
      → Inherits v (if_not_null schemas sdk encoding place g)
  not_null place g h = ground (arith, h (pointer_at schemas sdk encoding place))

  pipe : Inherits v (pipe_value schemas sdk encoding v)
  pipe = ground arith

  read_struct-Inherits :
      (f : Field) (place : ℕ) → Inherits v (read_struct schemas sdk encoding v f place)
  unfolding read_struct
  read_struct-Inherits f place =
      let token = string_token_value-Inherits sdk encoding v in
      choose-All (Inherits v) _ (read_reference schemas sdk encoding v f.type place)
        (
          token (sdk.token place),
          (
            not_null place (λ p. string_token_value sdk encoding (sdk.token p))
                (λ p. token (sdk.token p)),
            (
              token_value-Inherits sdk encoding v (sdk.token place),
              (
                audit_token_value-Inherits sdk encoding v place,
                (
                  not_null place (audit_token_value sdk encoding)
                      (audit_token_value-Inherits sdk encoding v),
                  (
                    stat_value-Inherits sdk encoding v place,
                    (
                      not_null place (statfs_value sdk encoding)
                          (statfs_value-Inherits sdk encoding v),
                      (
                        attrlist_value-Inherits sdk encoding v place,
                        (
                          tt,
                          (
                            tt,
                            (
                              tt,
                              (
                                tt,
                                (
                                  not_null place (λ p. string ascii8bit (sdk.bytes p 32)) (λ p. tt),
                                  (
                                    acl_value-Inherits sdk encoding v
                                        (pointer_at schemas sdk encoding place),
                                    (pipe, tt),
                                  ),
                                ),
                              ),
                            ),
                          ),
                        ),
                      ),
                    ),
                  ),
                ),
              ),
            ),
          ),
        )
        (read_reference-Inherits f.type place)

  or_else-Inherits :
      (r : Option FieldValue) (x : FieldValue)
      → InheritsIf v r
      → Inherits v x
      → Inherits v (or_else r x)
  or_else-Inherits none x h g = g
  or_else-Inherits (some y) x h g = h

  field_value-Inherits :
      (f : Field) (place : ℕ) → Inherits v (field_value schemas sdk encoding v f place)
  unfolding field_value
  field_value-Inherits f place =
      let union =
        or_else-Inherits (read_union schemas sdk encoding v f) nil
          (read_union-Inherits schemas sdk encoding v f) tt in
      let pointer =
        or_else-Inherits (read_array schemas sdk encoding v f)
          (read_struct schemas sdk encoding v f place)
          (read_array-Inherits schemas sdk encoding v f) (read_struct-Inherits f place) in
      ground (arith, union, pointer, read_struct-Inherits f place)

  -- What read_field gave back, if anything
  abbrev pub InheritsResult : Result (Option FieldValue) → Type 0
  InheritsResult (raised e) = Unit
  InheritsResult (returned r) = InheritsIf v r

  read-Inherits : (a : Result Access) → InheritsResult (read schemas sdk encoding v a)
  read-Inherits (raised e) = tt
  read-Inherits (returned no_field) = tt
  read-Inherits (returned unavailable) = tt
  read-Inherits (returned (address f place)) = field_value-Inherits f place

-- Every view in what read_field gives back, however deep in unions, hashes and arrays, has the same
-- owner, the same Ruby object of a message, as the view it was read from, with the same version and
-- the same version rule, and is not at NULL: what get_view and the version gate refuse of the one
-- view they refuse of the other.
pub read_field-Inherits :
    (schemas : List Schema) (sdk : Sdk) (encoding : Encoding) (objects : Objects) (v : View)
    (name : CString)
    → InheritsResult schemas sdk encoding v (read_field schemas sdk encoding objects v name)
unfolding read_field
read_field-Inherits schemas sdk encoding objects v name =
    read-Inherits schemas sdk encoding v (access objects v name)
