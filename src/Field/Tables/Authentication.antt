-- ===== src/Field/Tables/Authentication.antt =====
-- ext/endpoint_security/generated/es_schema.c: authentication, sessions and launch items.
use Prim.Native.String.{String}
use endpoint_security.Base.{ℕ, List, [], ◌∷◌}
use endpoint_security.Field.{Field}
use endpoint_security.Field.Tables.{fields}

module _ (offset_of : String → String → ℕ) where
  abbrev pub fields_es_event_authentication_od_t : List Field
  fields_es_event_authentication_od_t = fields offset_of "es_event_authentication_od_t" (
      ("instigator", "es_process_t *", 1)
      ∷ ("record_type", "es_string_token_t", 1)
      ∷ ("record_name", "es_string_token_t", 1)
      ∷ ("node_name", "es_string_token_t", 1)
      ∷ ("db_path", "es_string_token_t", 1)
      ∷ ("instigator_token", "audit_token_t", 8)
      ∷ [])

  abbrev pub fields_es_event_authentication_touchid_t : List Field
  fields_es_event_authentication_touchid_t = fields offset_of "es_event_authentication_touchid_t" (
      ("instigator", "es_process_t *", 1)
      ∷ ("touchid_mode", "es_touchid_mode_t", 1)
      ∷ ("has_uid", "bool", 1)
      ∷ ("uid", "union es_event_authentication_touchid_t::(anonymous)", 1)
      ∷ ("instigator_token", "audit_token_t", 8)
      ∷ [])

  abbrev pub fields_es_event_authentication_token_t : List Field
  fields_es_event_authentication_token_t = fields offset_of "es_event_authentication_token_t" (
      ("instigator", "es_process_t *", 1)
      ∷ ("pubkey_hash", "es_string_token_t", 1)
      ∷ ("token_id", "es_string_token_t", 1)
      ∷ ("kerberos_principal", "es_string_token_t", 1)
      ∷ ("instigator_token", "audit_token_t", 8)
      ∷ [])

  abbrev pub fields_es_event_authentication_auto_unlock_t : List Field
  fields_es_event_authentication_auto_unlock_t =
      fields offset_of "es_event_authentication_auto_unlock_t"
        (("username", "es_string_token_t", 1) ∷ ("type", "es_auto_unlock_type_t", 1) ∷ [])

  abbrev pub fields_es_event_authentication_t : List Field
  fields_es_event_authentication_t = fields offset_of "es_event_authentication_t" (
      ("success", "bool", 1)
      ∷ ("type", "es_authentication_type_t", 1)
      ∷ ("data", "union es_event_authentication_t::(anonymous)", 1)
      ∷ [])

  abbrev pub fields_es_event_xp_malware_detected_t : List Field
  fields_es_event_xp_malware_detected_t = fields offset_of "es_event_xp_malware_detected_t" (
      ("signature_version", "es_string_token_t", 1)
      ∷ ("malware_identifier", "es_string_token_t", 1)
      ∷ ("incident_identifier", "es_string_token_t", 1)
      ∷ ("detected_path", "es_string_token_t", 1)
      ∷ ("detected_executable", "es_string_token_t", 10)
      ∷ [])

  abbrev pub fields_es_event_xp_malware_remediated_t : List Field
  fields_es_event_xp_malware_remediated_t = fields offset_of "es_event_xp_malware_remediated_t" (
      ("signature_version", "es_string_token_t", 1)
      ∷ ("malware_identifier", "es_string_token_t", 1)
      ∷ ("incident_identifier", "es_string_token_t", 1)
      ∷ ("action_type", "es_string_token_t", 1)
      ∷ ("success", "bool", 1)
      ∷ ("result_description", "es_string_token_t", 1)
      ∷ ("remediated_path", "es_string_token_t", 1)
      ∷ ("remediated_process_audit_token", "audit_token_t *", 1)
      ∷ [])

  abbrev pub fields_es_event_lw_session_login_t : List Field
  fields_es_event_lw_session_login_t =
      fields offset_of "es_event_lw_session_login_t"
        (("username", "es_string_token_t", 1) ∷ ("graphical_session_id", "unsigned int", 1) ∷ [])

  abbrev pub fields_es_event_lw_session_logout_t : List Field
  fields_es_event_lw_session_logout_t =
      fields offset_of "es_event_lw_session_logout_t"
        (("username", "es_string_token_t", 1) ∷ ("graphical_session_id", "unsigned int", 1) ∷ [])

  abbrev pub fields_es_event_lw_session_lock_t : List Field
  fields_es_event_lw_session_lock_t =
      fields offset_of "es_event_lw_session_lock_t"
        (("username", "es_string_token_t", 1) ∷ ("graphical_session_id", "unsigned int", 1) ∷ [])

  abbrev pub fields_es_event_lw_session_unlock_t : List Field
  fields_es_event_lw_session_unlock_t =
      fields offset_of "es_event_lw_session_unlock_t"
        (("username", "es_string_token_t", 1) ∷ ("graphical_session_id", "unsigned int", 1) ∷ [])

  abbrev pub fields_es_event_screensharing_attach_t : List Field
  fields_es_event_screensharing_attach_t = fields offset_of "es_event_screensharing_attach_t" (
      ("success", "bool", 1)
      ∷ ("source_address_type", "es_address_type_t", 1)
      ∷ ("source_address", "es_string_token_t", 1)
      ∷ ("viewer_appleid", "es_string_token_t", 1)
      ∷ ("authentication_type", "es_string_token_t", 1)
      ∷ ("authentication_username", "es_string_token_t", 1)
      ∷ ("session_username", "es_string_token_t", 1)
      ∷ ("existing_session", "bool", 1)
      ∷ ("graphical_session_id", "unsigned int", 1)
      ∷ [])

  abbrev pub fields_es_event_screensharing_detach_t : List Field
  fields_es_event_screensharing_detach_t = fields offset_of "es_event_screensharing_detach_t" (
      ("source_address_type", "es_address_type_t", 1)
      ∷ ("source_address", "es_string_token_t", 1)
      ∷ ("viewer_appleid", "es_string_token_t", 1)
      ∷ ("graphical_session_id", "unsigned int", 1)
      ∷ [])

  abbrev pub fields_es_event_openssh_login_t : List Field
  fields_es_event_openssh_login_t = fields offset_of "es_event_openssh_login_t" (
      ("success", "bool", 1)
      ∷ ("result_type", "es_openssh_login_result_type_t", 1)
      ∷ ("source_address_type", "es_address_type_t", 1)
      ∷ ("source_address", "es_string_token_t", 1)
      ∷ ("username", "es_string_token_t", 1)
      ∷ ("has_uid", "bool", 1)
      ∷ ("uid", "union es_event_openssh_login_t::(anonymous)", 1)
      ∷ [])

  abbrev pub fields_es_event_openssh_logout_t : List Field
  fields_es_event_openssh_logout_t = fields offset_of "es_event_openssh_logout_t" (
      ("source_address_type", "es_address_type_t", 1)
      ∷ ("source_address", "es_string_token_t", 1)
      ∷ ("username", "es_string_token_t", 1)
      ∷ ("uid", "unsigned int", 1)
      ∷ [])

  abbrev pub fields_es_event_login_login_t : List Field
  fields_es_event_login_login_t = fields offset_of "es_event_login_login_t" (
      ("success", "bool", 1)
      ∷ ("failure_message", "es_string_token_t", 1)
      ∷ ("username", "es_string_token_t", 1)
      ∷ ("has_uid", "bool", 1)
      ∷ ("uid", "union es_event_login_login_t::(anonymous)", 1)
      ∷ [])

  abbrev pub fields_es_event_login_logout_t : List Field
  fields_es_event_login_logout_t =
      fields offset_of "es_event_login_logout_t"
        (("username", "es_string_token_t", 1) ∷ ("uid", "unsigned int", 1) ∷ [])

  abbrev pub fields_es_event_btm_launch_item_add_t : List Field
  fields_es_event_btm_launch_item_add_t = fields offset_of "es_event_btm_launch_item_add_t" (
      ("instigator", "es_process_t *", 1)
      ∷ ("app", "es_process_t *", 1)
      ∷ ("item", "es_btm_launch_item_t *", 1)
      ∷ ("executable_path", "es_string_token_t", 1)
      ∷ ("instigator_token", "audit_token_t *", 8)
      ∷ ("app_token", "audit_token_t *", 8)
      ∷ [])

  abbrev pub fields_es_event_btm_launch_item_remove_t : List Field
  fields_es_event_btm_launch_item_remove_t = fields offset_of "es_event_btm_launch_item_remove_t" (
      ("instigator", "es_process_t *", 1)
      ∷ ("app", "es_process_t *", 1)
      ∷ ("item", "es_btm_launch_item_t *", 1)
      ∷ ("instigator_token", "audit_token_t *", 8)
      ∷ ("app_token", "audit_token_t *", 8)
      ∷ [])
