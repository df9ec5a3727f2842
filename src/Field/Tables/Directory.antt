-- ===== src/Field/Tables/Directory.antt =====
-- ext/endpoint_security/generated/es_schema.c: Open Directory and the events after it.
use Prim.Native.String.{String}
use endpoint_security.Base.{ℕ, List, [], ◌∷◌}
use endpoint_security.Field.{Field}
use endpoint_security.Field.Tables.{fields}

module _ (offset_of : String → String → ℕ) where
  abbrev pub fields_es_od_member_id_t : List Field
  fields_es_od_member_id_t = fields offset_of "es_od_member_id_t" (
      ("member_type", "es_od_member_type_t", 1)
      ∷ ("member_value", "union es_od_member_id_t::(anonymous)", 1)
      ∷ [])

  abbrev pub fields_es_event_od_group_add_t : List Field
  fields_es_event_od_group_add_t = fields offset_of "es_event_od_group_add_t" (
      ("instigator", "es_process_t *", 1)
      ∷ ("error_code", "int", 1)
      ∷ ("group_name", "es_string_token_t", 1)
      ∷ ("member", "es_od_member_id_t *", 1)
      ∷ ("node_name", "es_string_token_t", 1)
      ∷ ("db_path", "es_string_token_t", 1)
      ∷ ("instigator_token", "audit_token_t", 8)
      ∷ [])

  abbrev pub fields_es_event_od_group_remove_t : List Field
  fields_es_event_od_group_remove_t = fields offset_of "es_event_od_group_remove_t" (
      ("instigator", "es_process_t *", 1)
      ∷ ("error_code", "int", 1)
      ∷ ("group_name", "es_string_token_t", 1)
      ∷ ("member", "es_od_member_id_t *", 1)
      ∷ ("node_name", "es_string_token_t", 1)
      ∷ ("db_path", "es_string_token_t", 1)
      ∷ ("instigator_token", "audit_token_t", 8)
      ∷ [])

  abbrev pub fields_es_od_member_id_array_t : List Field
  fields_es_od_member_id_array_t = fields offset_of "es_od_member_id_array_t" (
      ("member_type", "es_od_member_type_t", 1)
      ∷ ("member_count", "unsigned long", 1)
      ∷ ("member_array", "union es_od_member_id_array_t::(anonymous)", 1)
      ∷ [])

  abbrev pub fields_es_event_od_group_set_t : List Field
  fields_es_event_od_group_set_t = fields offset_of "es_event_od_group_set_t" (
      ("instigator", "es_process_t *", 1)
      ∷ ("error_code", "int", 1)
      ∷ ("group_name", "es_string_token_t", 1)
      ∷ ("members", "es_od_member_id_array_t *", 1)
      ∷ ("node_name", "es_string_token_t", 1)
      ∷ ("db_path", "es_string_token_t", 1)
      ∷ ("instigator_token", "audit_token_t", 8)
      ∷ [])

  abbrev pub fields_es_event_od_modify_password_t : List Field
  fields_es_event_od_modify_password_t = fields offset_of "es_event_od_modify_password_t" (
      ("instigator", "es_process_t *", 1)
      ∷ ("error_code", "int", 1)
      ∷ ("account_type", "es_od_account_type_t", 1)
      ∷ ("account_name", "es_string_token_t", 1)
      ∷ ("node_name", "es_string_token_t", 1)
      ∷ ("db_path", "es_string_token_t", 1)
      ∷ ("instigator_token", "audit_token_t", 8)
      ∷ [])

  abbrev pub fields_es_event_od_disable_user_t : List Field
  fields_es_event_od_disable_user_t = fields offset_of "es_event_od_disable_user_t" (
      ("instigator", "es_process_t *", 1)
      ∷ ("error_code", "int", 1)
      ∷ ("user_name", "es_string_token_t", 1)
      ∷ ("node_name", "es_string_token_t", 1)
      ∷ ("db_path", "es_string_token_t", 1)
      ∷ ("instigator_token", "audit_token_t", 8)
      ∷ [])

  abbrev pub fields_es_event_od_enable_user_t : List Field
  fields_es_event_od_enable_user_t = fields offset_of "es_event_od_enable_user_t" (
      ("instigator", "es_process_t *", 1)
      ∷ ("error_code", "int", 1)
      ∷ ("user_name", "es_string_token_t", 1)
      ∷ ("node_name", "es_string_token_t", 1)
      ∷ ("db_path", "es_string_token_t", 1)
      ∷ ("instigator_token", "audit_token_t", 8)
      ∷ [])

  abbrev pub fields_es_event_od_attribute_value_add_t : List Field
  fields_es_event_od_attribute_value_add_t = fields offset_of "es_event_od_attribute_value_add_t" (
      ("instigator", "es_process_t *", 1)
      ∷ ("error_code", "int", 1)
      ∷ ("record_type", "es_od_record_type_t", 1)
      ∷ ("record_name", "es_string_token_t", 1)
      ∷ ("attribute_name", "es_string_token_t", 1)
      ∷ ("attribute_value", "es_string_token_t", 1)
      ∷ ("node_name", "es_string_token_t", 1)
      ∷ ("db_path", "es_string_token_t", 1)
      ∷ ("instigator_token", "audit_token_t", 8)
      ∷ [])

  abbrev pub fields_es_event_od_attribute_value_remove_t : List Field
  fields_es_event_od_attribute_value_remove_t =
      fields offset_of "es_event_od_attribute_value_remove_t" (
        ("instigator", "es_process_t *", 1)
        ∷ ("error_code", "int", 1)
        ∷ ("record_type", "es_od_record_type_t", 1)
        ∷ ("record_name", "es_string_token_t", 1)
        ∷ ("attribute_name", "es_string_token_t", 1)
        ∷ ("attribute_value", "es_string_token_t", 1)
        ∷ ("node_name", "es_string_token_t", 1)
        ∷ ("db_path", "es_string_token_t", 1)
        ∷ ("instigator_token", "audit_token_t", 8)
        ∷ [])

  abbrev pub fields_es_event_od_attribute_set_t : List Field
  fields_es_event_od_attribute_set_t = fields offset_of "es_event_od_attribute_set_t" (
      ("instigator", "es_process_t *", 1)
      ∷ ("error_code", "int", 1)
      ∷ ("record_type", "es_od_record_type_t", 1)
      ∷ ("record_name", "es_string_token_t", 1)
      ∷ ("attribute_name", "es_string_token_t", 1)
      ∷ ("attribute_value_count", "unsigned long", 1)
      ∷ ("attribute_values", "es_string_token_t *", 1)
      ∷ ("node_name", "es_string_token_t", 1)
      ∷ ("db_path", "es_string_token_t", 1)
      ∷ ("instigator_token", "audit_token_t", 8)
      ∷ [])

  abbrev pub fields_es_event_od_create_user_t : List Field
  fields_es_event_od_create_user_t = fields offset_of "es_event_od_create_user_t" (
      ("instigator", "es_process_t *", 1)
      ∷ ("error_code", "int", 1)
      ∷ ("user_name", "es_string_token_t", 1)
      ∷ ("node_name", "es_string_token_t", 1)
      ∷ ("db_path", "es_string_token_t", 1)
      ∷ ("instigator_token", "audit_token_t", 8)
      ∷ [])

  abbrev pub fields_es_event_od_create_group_t : List Field
  fields_es_event_od_create_group_t = fields offset_of "es_event_od_create_group_t" (
      ("instigator", "es_process_t *", 1)
      ∷ ("error_code", "int", 1)
      ∷ ("group_name", "es_string_token_t", 1)
      ∷ ("node_name", "es_string_token_t", 1)
      ∷ ("db_path", "es_string_token_t", 1)
      ∷ ("instigator_token", "audit_token_t", 8)
      ∷ [])

  abbrev pub fields_es_event_od_delete_user_t : List Field
  fields_es_event_od_delete_user_t = fields offset_of "es_event_od_delete_user_t" (
      ("instigator", "es_process_t *", 1)
      ∷ ("error_code", "int", 1)
      ∷ ("user_name", "es_string_token_t", 1)
      ∷ ("node_name", "es_string_token_t", 1)
      ∷ ("db_path", "es_string_token_t", 1)
      ∷ ("instigator_token", "audit_token_t", 8)
      ∷ [])

  abbrev pub fields_es_event_od_delete_group_t : List Field
  fields_es_event_od_delete_group_t = fields offset_of "es_event_od_delete_group_t" (
      ("instigator", "es_process_t *", 1)
      ∷ ("error_code", "int", 1)
      ∷ ("group_name", "es_string_token_t", 1)
      ∷ ("node_name", "es_string_token_t", 1)
      ∷ ("db_path", "es_string_token_t", 1)
      ∷ ("instigator_token", "audit_token_t", 8)
      ∷ [])

  abbrev pub fields_es_event_xpc_connect_t : List Field
  fields_es_event_xpc_connect_t = fields offset_of "es_event_xpc_connect_t" (
      ("service_name", "es_string_token_t", 1)
      ∷ ("service_domain_type", "es_xpc_domain_type_t", 1)
      ∷ [])

  abbrev pub fields_es_event_gatekeeper_user_override_t : List Field
  fields_es_event_gatekeeper_user_override_t =
      fields offset_of "es_event_gatekeeper_user_override_t" (
        ("file_type", "es_gatekeeper_user_override_file_type_t", 1)
        ∷ ("file", "union es_event_gatekeeper_user_override_t::(anonymous)", 1)
        ∷ ("sha256", "es_sha256_t *", 1)
        ∷ ("signing_info", "es_signed_file_info_t *", 1)
        ∷ [])
