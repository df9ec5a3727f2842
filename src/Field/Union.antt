-- ===== src/Field/Union.antt =====
-- ext/endpoint_security/field.c, read_union and read_array: the fields whose meaning another member
-- of their struct decides.
use endpoint_security.Base.{
  ℕ, ◌+◌, ◌*◌, Bool, true, false, ◌&&◌, Option, none, some, List, [], ◌∷◌, ltb, ◌==◌, if◌then◌else◌,
  u32_max,
}
use endpoint_security.Field.{CString, same_string, Field, Schema, View, hex_value}
use endpoint_security.Field.Text.{text}
use endpoint_security.Field.Choose.{choose}
use endpoint_security.Field.Value.{
  Encoding, ascii8bit, pos, FieldValue, nil, number, string, tagged, array, hash, no_items, each,
  no_entries, entry, existing_file, new_path, other_destination, by_od, by_touchid, by_token,
  by_auto_unlock, other_authentication, user_name, user_uuid, group_uuid, other_member,
  override_path, override_file, other_override, acl_set, acl_clear, other_acl, Counted, Sdk,
}
use endpoint_security.Field.Convert.{nested, string_token_value, acl_value, uid_union, string_array}

module _ (schemas : List Schema) (sdk : Sdk) (encoding : Encoding) where
  -- destination_union, of a create or a rename event
  unfoldable pub destination_union : View → Bool → FieldValue
  unfolding nested string_token_value
  destination_union v create =
      let d =
        if create
        then sdk.destination_of_create v.pointer
        else sdk.destination_of_rename v.pointer in
      elim d.type [
        | existing_file ↦
            tagged (text "existing_file") (nested schemas v d.existing (text "es_file_t"))
        | other_destination ↦ tagged (text "unknown") nil
        | new_path ↦ tagged (text "new_path") (
            hash (
              entry (text "dir") (nested schemas v d.dir (text "es_file_t")) (
                entry (text "filename") (string_token_value sdk encoding d.filename) (
                  if create
                  then entry (text "mode") (number (pos d.mode)) no_entries
                  else no_entries))))
      ]

  -- authentication_union
  unfoldable pub authentication_union : View → FieldValue
  unfolding nested
  authentication_union v =
      let a = sdk.authentication v.pointer in
      elim a.type [
        | by_od ↦
            tagged (text "od")
              (nested schemas v a.data_pointer (text "es_event_authentication_od_t"))
        | by_touchid ↦
            tagged (text "touchid")
              (nested schemas v a.data_pointer (text "es_event_authentication_touchid_t"))
        | by_token ↦
            tagged (text "token")
              (nested schemas v a.data_pointer (text "es_event_authentication_token_t"))
        | by_auto_unlock ↦
            tagged (text "auto_unlock")
              (nested schemas v a.data_pointer (text "es_event_authentication_auto_unlock_t"))
        | other_authentication ↦ tagged (text "unknown") nil
      ]

  abbrev pub uuid_value : ℕ → FieldValue
  uuid_value address = string ascii8bit (hex_value (sdk.bytes address 16))

  -- od_member_union
  unfoldable pub od_member_union : View → FieldValue
  unfolding string_token_value hex_value
  od_member_union v =
      let m = sdk.member v.pointer in
      elim m.type [
        | user_name ↦ tagged (text "name") (string_token_value sdk encoding m.name)
        | user_uuid ↦ tagged (text "uuid") (uuid_value m.uuid)
        | group_uuid ↦ tagged (text "uuid") (uuid_value m.uuid)
        | other_member ↦ tagged (text "unknown") nil
      ]

  -- od_member_array_union
  unfoldable pub od_member_array_union : View → FieldValue
  unfolding string_token_value hex_value each
  od_member_array_union v =
      let m = sdk.members v.pointer in
      let names =
        each m.count 0 (λ index.
          string_token_value sdk encoding (sdk.token (m.names + index * sdk.token_size))) in
      let uuids = each m.count 0 (λ index. uuid_value (m.uuids + index * 16)) in
      let value : FieldValue = elim m.type [
        | user_name ↦ tagged (text "names") (array names)
        | user_uuid ↦ tagged (text "uuids") (array uuids)
        | group_uuid ↦ tagged (text "uuids") (array uuids)
        | other_member ↦ tagged (text "unknown") nil
      ] in
      if ltb u32_max m.count then tagged (text "invalid") nil else value

  -- read_union on the file of a Gatekeeper override, and on an ACL
  unfoldable pub override_union : View → FieldValue
  unfolding nested string_token_value
  override_union v =
      let o = sdk.override_of_gatekeeper v.pointer in
      elim o.type [
        | override_path ↦ tagged (text "path") (string_token_value sdk encoding o.path)
        | override_file ↦ tagged (text "file") (nested schemas v o.file (text "es_file_t"))
        | other_override ↦ tagged (text "unknown") nil
      ]

  unfoldable pub acl_union : View → FieldValue
  unfolding acl_value
  acl_union v =
      let a = sdk.setacl v.pointer in
      elim a.set_or_clear [
        | acl_set ↦ tagged (text "set") (acl_value sdk encoding a.acl)
        | acl_clear ↦ tagged (text "clear") nil
        | other_acl ↦ tagged (text "unknown") nil
      ]

  abbrev pub is_field : View → Field → CString → CString → Bool
  is_field v f name schema = same_string f.name name && same_string v.schema.name schema

  -- read_union; none is Qundef.
  unfoldable pub read_union : View → Field → Option FieldValue
  unfolding same_string destination_union uid_union authentication_union od_member_union
      od_member_array_union override_union acl_union
  read_union v f =
      choose
        ((
          is_field v f (text "destination") (text "es_event_rename_t"),
          some (destination_union v false),
        )
          ∷ (
            is_field v f (text "destination") (text "es_event_create_t"),
            some (destination_union v true),
          )
          ∷ (
            is_field v f (text "uid") (text "es_event_authentication_touchid_t"),
            some (uid_union sdk encoding (sdk.uid_of_touchid v.pointer)),
          )
          ∷ (
            is_field v f (text "uid") (text "es_event_openssh_login_t"),
            some (uid_union sdk encoding (sdk.uid_of_openssh_login v.pointer)),
          )
          ∷ (
            is_field v f (text "uid") (text "es_event_login_login_t"),
            some (uid_union sdk encoding (sdk.uid_of_login_login v.pointer)),
          )
          ∷ (
            is_field v f (text "to_uid") (text "es_event_su_t"),
            some (uid_union sdk encoding (sdk.to_uid_of_su v.pointer)),
          )
          ∷ (
            is_field v f (text "from_uid") (text "es_event_sudo_t"),
            some (uid_union sdk encoding (sdk.from_uid_of_sudo v.pointer)),
          )
          ∷ (
            is_field v f (text "to_uid") (text "es_event_sudo_t"),
            some (uid_union sdk encoding (sdk.to_uid_of_sudo v.pointer)),
          )
          ∷ (
            is_field v f (text "data") (text "es_event_authentication_t"),
            some (authentication_union v),
          )
          ∷ (
            is_field v f (text "member_value") (text "es_od_member_id_t"),
            some (od_member_union v),
          )
          ∷ (
            is_field v f (text "member_array") (text "es_od_member_id_array_t"),
            some (od_member_array_union v),
          )
          ∷ (
            is_field v f (text "file") (text "es_event_gatekeeper_user_override_t"),
            some (override_union v),
          )
          ∷ (is_field v f (text "acl") (text "es_event_setacl_t"), some (acl_union v))
          ∷ [])
        none

  -- read_array on the results of an authorization judgement
  unfoldable pub result_array : View → Counted → FieldValue
  unfolding nested each
  result_array v results =
      if results.first == 0
      then array no_items
      else if ltb u32_max results.count
      then array no_items
      else array (
          each results.count 0 (λ index.
            nested schemas v (results.first + index * sdk.result_size)
              (text "es_authorization_result_t")))

  -- read_array; none is Qundef.
  unfoldable pub read_array : View → Field → Option FieldValue
  unfolding same_string string_array result_array
  read_array v f =
      choose
        ((
          is_field v f (text "argv") (text "es_event_su_t"),
          some (string_array sdk encoding (sdk.argv_of_su v.pointer)),
        )
          ∷ (
            is_field v f (text "env") (text "es_event_su_t"),
            some (string_array sdk encoding (sdk.env_of_su v.pointer)),
          )
          ∷ (
            is_field v f (text "rights") (text "es_event_authorization_petition_t"),
            some (string_array sdk encoding (sdk.rights_of_petition v.pointer)),
          )
          ∷ (
            is_field v f (text "attribute_values") (text "es_event_od_attribute_set_t"),
            some (string_array sdk encoding (sdk.values_of_attribute_set v.pointer)),
          )
          ∷ (
            is_field v f (text "results") (text "es_event_authorization_judgement_t"),
            some (result_array v (sdk.results_of_judgement v.pointer)),
          )
          ∷ [])
        none
