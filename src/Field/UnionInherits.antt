-- ===== src/Field/UnionInherits.antt =====
-- ext/endpoint_security/field.c, read_union and read_array: the views inside of what they give back.
use endpoint_security.Base.{ℕ, ◌+◌, ◌*◌, Bool, true, false, Option, none, some, List, arith}
use endpoint_security.Field.{Field, Schema, View}
use endpoint_security.Field.Text.{text}
use endpoint_security.Field.Choose.{choose-All}
use endpoint_security.Field.Value.{FieldValue, Encoding, Sdk, Counted}
use endpoint_security.Field.Convert.{nested, string_token_value}
use endpoint_security.Field.Union.{
  destination_union, authentication_union, od_member_union, od_member_array_union, override_union,
  acl_union, read_union, result_array, read_array, uuid_value,
}
use endpoint_security.Field.Inherit.{
  Inherits, each-Inherits, nested-Inherits, string_token_value-Inherits, acl_value-Inherits,
  uid_union-Inherits, string_array-Inherits,
}

-- A value that may be Qundef
abbrev pub InheritsIf : View → Option FieldValue → Type 0
InheritsIf v none = Unit
InheritsIf v (some x) = Inherits v x

module _ (schemas : List Schema) (sdk : Sdk) (encoding : Encoding) (v : View) where
  destination_union-Inherits :
      (create : Bool) → Inherits v (destination_union schemas sdk encoding v create)
  unfolding destination_union
  destination_union-Inherits create = ground (
    arith,
    λ (p : ℕ). nested-Inherits schemas v p (text "es_file_t"),
    string_token_value-Inherits sdk encoding v,
  )

  authentication_union-Inherits : Inherits v (authentication_union schemas sdk encoding v)
  unfolding authentication_union
  authentication_union-Inherits =
      ground (arith, nested-Inherits schemas v (sdk.authentication v.pointer).data_pointer)

  od_member_union-Inherits : Inherits v (od_member_union schemas sdk encoding v)
  unfolding od_member_union
  od_member_union-Inherits =
      ground (arith, string_token_value-Inherits sdk encoding v (sdk.member v.pointer).name)

  od_member_array_union-Inherits : Inherits v (od_member_array_union schemas sdk encoding v)
  unfolding od_member_array_union
  od_member_array_union-Inherits =
      let m = sdk.members v.pointer in
      let names =
        each-Inherits v m.count 0
          (λ index. string_token_value sdk encoding (sdk.token (m.names + index * sdk.token_size)))
          (λ index.
            string_token_value-Inherits sdk encoding v
              (sdk.token (m.names + index * sdk.token_size))) in
      let uuids =
        each-Inherits v m.count 0 (λ index. uuid_value schemas sdk encoding (m.uuids + index * 16))
          (λ index. tt) in
      ground (arith, names, uuids)

  override_union-Inherits : Inherits v (override_union schemas sdk encoding v)
  unfolding override_union
  override_union-Inherits =
      let o = sdk.override_of_gatekeeper v.pointer in
      ground (
        arith,
        nested-Inherits schemas v o.file (text "es_file_t"),
        string_token_value-Inherits sdk encoding v o.path,
      )

  acl_union-Inherits : Inherits v (acl_union schemas sdk encoding v)
  unfolding acl_union
  acl_union-Inherits = ground (arith, acl_value-Inherits sdk encoding v (sdk.setacl v.pointer).acl)

  result_array-Inherits :
      (results : Counted) → Inherits v (result_array schemas sdk encoding v results)
  unfolding result_array
  result_array-Inherits results =
      let all =
        each-Inherits v results.count 0
          (λ index.
            nested schemas v (results.first + index * sdk.result_size)
              (text "es_authorization_result_t"))
          (λ index.
            nested-Inherits schemas v (results.first + index * sdk.result_size)
              (text "es_authorization_result_t")) in
      ground (arith, all)

  pub read_union-Inherits : (f : Field) → InheritsIf v (read_union schemas sdk encoding v f)
  unfolding read_union
  read_union-Inherits f =
      let uid = uid_union-Inherits sdk encoding v in
      choose-All (InheritsIf v) _ none
        (
          destination_union-Inherits false,
          (
            destination_union-Inherits true,
            (
              uid (sdk.uid_of_touchid v.pointer),
              (
                uid (sdk.uid_of_openssh_login v.pointer),
                (
                  uid (sdk.uid_of_login_login v.pointer),
                  (
                    uid (sdk.to_uid_of_su v.pointer),
                    (
                      uid (sdk.from_uid_of_sudo v.pointer),
                      (
                        uid (sdk.to_uid_of_sudo v.pointer),
                        (
                          authentication_union-Inherits,
                          (
                            od_member_union-Inherits,
                            (
                              od_member_array_union-Inherits,
                              (override_union-Inherits, (acl_union-Inherits, tt)),
                            ),
                          ),
                        ),
                      ),
                    ),
                  ),
                ),
              ),
            ),
          ),
        )
        tt

  pub read_array-Inherits : (f : Field) → InheritsIf v (read_array schemas sdk encoding v f)
  unfolding read_array
  read_array-Inherits f =
      let strings = string_array-Inherits sdk encoding v in
      choose-All (InheritsIf v) _ none
        (
          strings (sdk.argv_of_su v.pointer),
          (
            strings (sdk.env_of_su v.pointer),
            (
              strings (sdk.rights_of_petition v.pointer),
              (
                strings (sdk.values_of_attribute_set v.pointer),
                (result_array-Inherits (sdk.results_of_judgement v.pointer), tt),
              ),
            ),
          ),
        )
        tt
