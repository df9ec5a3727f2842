-- ===== src/Field/Tables/Authorization.antt =====
-- ext/endpoint_security/generated/es_schema.c: su, sudo, profiles and authorization.
use Prim.Native.String.{String}
use endpoint_security.Base.{ℕ, List, [], ◌∷◌}
use endpoint_security.Field.{Field}
use endpoint_security.Field.Tables.{fields}

module _ (offset_of : String → String → ℕ) where
  abbrev pub fields_es_event_su_t : List Field
  fields_es_event_su_t = fields offset_of "es_event_su_t" (
      ("success", "bool", 1)
      ∷ ("failure_message", "es_string_token_t", 1)
      ∷ ("from_uid", "unsigned int", 1)
      ∷ ("from_username", "es_string_token_t", 1)
      ∷ ("has_to_uid", "bool", 1)
      ∷ ("to_uid", "union es_event_su_t::(anonymous)", 1)
      ∷ ("to_username", "es_string_token_t", 1)
      ∷ ("shell", "es_string_token_t", 1)
      ∷ ("argc", "unsigned long", 1)
      ∷ ("argv", "es_string_token_t *", 1)
      ∷ ("env_count", "unsigned long", 1)
      ∷ ("env", "es_string_token_t *", 1)
      ∷ [])

  abbrev pub fields_es_sudo_reject_info_t : List Field
  fields_es_sudo_reject_info_t = fields offset_of "es_sudo_reject_info_t" (
      ("plugin_name", "es_string_token_t", 1)
      ∷ ("plugin_type", "es_sudo_plugin_type_t", 1)
      ∷ ("failure_message", "es_string_token_t", 1)
      ∷ [])

  abbrev pub fields_es_event_sudo_t : List Field
  fields_es_event_sudo_t = fields offset_of "es_event_sudo_t" (
      ("success", "bool", 1)
      ∷ ("reject_info", "es_sudo_reject_info_t *", 1)
      ∷ ("has_from_uid", "bool", 1)
      ∷ ("from_uid", "union es_event_sudo_t::(anonymous)", 1)
      ∷ ("from_username", "es_string_token_t", 1)
      ∷ ("has_to_uid", "bool", 1)
      ∷ ("to_uid", "union es_event_sudo_t::(anonymous)", 1)
      ∷ ("to_username", "es_string_token_t", 1)
      ∷ ("command", "es_string_token_t", 1)
      ∷ [])

  abbrev pub fields_es_event_profile_add_t : List Field
  fields_es_event_profile_add_t = fields offset_of "es_event_profile_add_t" (
      ("instigator", "es_process_t *", 1)
      ∷ ("is_update", "bool", 1)
      ∷ ("profile", "es_profile_t *", 1)
      ∷ ("instigator_token", "audit_token_t", 8)
      ∷ [])

  abbrev pub fields_es_event_profile_remove_t : List Field
  fields_es_event_profile_remove_t = fields offset_of "es_event_profile_remove_t" (
      ("instigator", "es_process_t *", 1)
      ∷ ("profile", "es_profile_t *", 1)
      ∷ ("instigator_token", "audit_token_t", 8)
      ∷ [])

  abbrev pub fields_es_event_authorization_petition_t : List Field
  fields_es_event_authorization_petition_t = fields offset_of "es_event_authorization_petition_t" (
      ("instigator", "es_process_t *", 1)
      ∷ ("petitioner", "es_process_t *", 1)
      ∷ ("flags", "unsigned int", 1)
      ∷ ("right_count", "unsigned long", 1)
      ∷ ("rights", "es_string_token_t *", 1)
      ∷ ("instigator_token", "audit_token_t", 8)
      ∷ ("petitioner_token", "audit_token_t", 8)
      ∷ [])

  abbrev pub fields_es_authorization_result_t : List Field
  fields_es_authorization_result_t = fields offset_of "es_authorization_result_t" (
      ("right_name", "es_string_token_t", 1)
      ∷ ("rule_class", "es_authorization_rule_class_t", 1)
      ∷ ("granted", "bool", 1)
      ∷ [])

  abbrev pub fields_es_event_authorization_judgement_t : List Field
  fields_es_event_authorization_judgement_t =
      fields offset_of "es_event_authorization_judgement_t" (
        ("instigator", "es_process_t *", 1)
        ∷ ("petitioner", "es_process_t *", 1)
        ∷ ("return_code", "int", 1)
        ∷ ("result_count", "unsigned long", 1)
        ∷ ("results", "es_authorization_result_t *", 1)
        ∷ ("instigator_token", "audit_token_t", 8)
        ∷ ("petitioner_token", "audit_token_t", 8)
        ∷ [])
