-- ===== src/Field/Tables/Entities.antt =====
-- ext/endpoint_security/generated/es_schema.c: the structs that events share.
use Prim.Native.String.{String}
use endpoint_security.Base.{ℕ, List, [], ◌∷◌}
use endpoint_security.Field.{Field}
use endpoint_security.Field.Tables.{fields}

module _ (offset_of : String → String → ℕ) where
  abbrev pub fields_es_token_t : List Field
  fields_es_token_t =
      fields offset_of "es_token_t"
        (("size", "unsigned long", 1) ∷ ("data", "const uint8_t *", 1) ∷ [])

  abbrev pub fields_es_string_token_t : List Field
  fields_es_string_token_t =
      fields offset_of "es_string_token_t"
        (("length", "unsigned long", 1) ∷ ("data", "const char *", 1) ∷ [])

  abbrev pub fields_es_muted_path_t : List Field
  fields_es_muted_path_t = fields offset_of "es_muted_path_t" (
      ("type", "es_mute_path_type_t", 1)
      ∷ ("event_count", "unsigned long", 1)
      ∷ ("events", "const es_event_type_t *", 1)
      ∷ ("path", "es_string_token_t", 1)
      ∷ [])

  abbrev pub fields_es_muted_paths_t : List Field
  fields_es_muted_paths_t =
      fields offset_of "es_muted_paths_t"
        (("count", "unsigned long", 1) ∷ ("paths", "const es_muted_path_t *", 1) ∷ [])

  abbrev pub fields_es_muted_process_t : List Field
  fields_es_muted_process_t = fields offset_of "es_muted_process_t" (
      ("audit_token", "audit_token_t", 1)
      ∷ ("event_count", "unsigned long", 1)
      ∷ ("events", "const es_event_type_t *", 1)
      ∷ [])

  abbrev pub fields_es_muted_processes_t : List Field
  fields_es_muted_processes_t =
      fields offset_of "es_muted_processes_t"
        (("count", "unsigned long", 1) ∷ ("processes", "const es_muted_process_t *", 1) ∷ [])

  abbrev pub fields_es_signed_file_info_t : List Field
  fields_es_signed_file_info_t = fields offset_of "es_signed_file_info_t" (
      ("cdhash", "uint8_t[20]", 1)
      ∷ ("signing_id", "es_string_token_t", 1)
      ∷ ("team_id", "es_string_token_t", 1)
      ∷ [])

  abbrev pub fields_es_file_t : List Field
  fields_es_file_t = fields offset_of "es_file_t" (
      ("path", "es_string_token_t", 1)
      ∷ ("path_truncated", "bool", 1)
      ∷ ("stat", "struct stat", 1)
      ∷ [])

  abbrev pub fields_es_process_t : List Field
  fields_es_process_t = fields offset_of "es_process_t" (
      ("audit_token", "audit_token_t", 1)
      ∷ ("ppid", "int", 1)
      ∷ ("original_ppid", "int", 1)
      ∷ ("group_id", "int", 1)
      ∷ ("session_id", "int", 1)
      ∷ ("codesigning_flags", "unsigned int", 1)
      ∷ ("is_platform_binary", "bool", 1)
      ∷ ("is_es_client", "bool", 1)
      ∷ ("cdhash", "uint8_t[20]", 1)
      ∷ ("signing_id", "es_string_token_t", 1)
      ∷ ("team_id", "es_string_token_t", 1)
      ∷ ("executable", "es_file_t *", 1)
      ∷ ("tty", "es_file_t *", 2)
      ∷ ("start_time", "struct timeval", 3)
      ∷ ("responsible_audit_token", "audit_token_t", 4)
      ∷ ("parent_audit_token", "audit_token_t", 4)
      ∷ ("cs_validation_category", "es_cs_validation_category_t", 10)
      ∷ [])

  abbrev pub fields_es_thread_t : List Field
  fields_es_thread_t = fields offset_of "es_thread_t" (("thread_id", "unsigned long long", 1) ∷ [])

  abbrev pub fields_es_thread_state_t : List Field
  fields_es_thread_state_t =
      fields offset_of "es_thread_state_t" (("flavor", "int", 1) ∷ ("state", "es_token_t", 1) ∷ [])

  abbrev pub fields_es_fd_t : List Field
  fields_es_fd_t = fields offset_of "es_fd_t" (
      ("fd", "int", 1)
      ∷ ("fdtype", "unsigned int", 1)
      ∷ ("pipe", "struct es_fd_t::(anonymous)", 1)
      ∷ [])

  abbrev pub fields_es_btm_launch_item_t : List Field
  fields_es_btm_launch_item_t = fields offset_of "es_btm_launch_item_t" (
      ("item_type", "es_btm_item_type_t", 1)
      ∷ ("legacy", "bool", 1)
      ∷ ("managed", "bool", 1)
      ∷ ("uid", "unsigned int", 1)
      ∷ ("item_url", "es_string_token_t", 1)
      ∷ ("app_url", "es_string_token_t", 1)
      ∷ [])

  abbrev pub fields_es_profile_t : List Field
  fields_es_profile_t = fields offset_of "es_profile_t" (
      ("identifier", "es_string_token_t", 1)
      ∷ ("uuid", "es_string_token_t", 1)
      ∷ ("install_source", "es_profile_source_t", 1)
      ∷ ("organization", "es_string_token_t", 1)
      ∷ ("display_name", "es_string_token_t", 1)
      ∷ ("scope", "es_string_token_t", 1)
      ∷ [])
