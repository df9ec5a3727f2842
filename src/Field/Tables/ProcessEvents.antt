-- ===== src/Field/Tables/ProcessEvents.antt =====
-- ext/endpoint_security/generated/es_schema.c: events on sockets and processes.
use Prim.Native.String.{String}
use endpoint_security.Base.{ℕ, List, [], ◌∷◌}
use endpoint_security.Field.{Field}
use endpoint_security.Field.Tables.{fields}

module _ (offset_of : String → String → ℕ) where
  abbrev pub fields_es_event_uipc_bind_t : List Field
  fields_es_event_uipc_bind_t = fields offset_of "es_event_uipc_bind_t" (
      ("dir", "es_file_t *", 1)
      ∷ ("filename", "es_string_token_t", 1)
      ∷ ("mode", "unsigned short", 1)
      ∷ [])

  abbrev pub fields_es_event_uipc_connect_t : List Field
  fields_es_event_uipc_connect_t = fields offset_of "es_event_uipc_connect_t" (
      ("file", "es_file_t *", 1)
      ∷ ("domain", "int", 1)
      ∷ ("type", "int", 1)
      ∷ ("protocol", "int", 1)
      ∷ [])

  abbrev pub fields_es_event_setacl_t : List Field
  fields_es_event_setacl_t = fields offset_of "es_event_setacl_t" (
      ("target", "es_file_t *", 1)
      ∷ ("set_or_clear", "es_set_or_clear_t", 1)
      ∷ ("acl", "union es_event_setacl_t::(anonymous)", 1)
      ∷ [])

  abbrev pub fields_es_event_pty_grant_t : List Field
  fields_es_event_pty_grant_t = fields offset_of "es_event_pty_grant_t" (("dev", "int", 1) ∷ [])

  abbrev pub fields_es_event_pty_close_t : List Field
  fields_es_event_pty_close_t = fields offset_of "es_event_pty_close_t" (("dev", "int", 1) ∷ [])

  abbrev pub fields_es_event_proc_check_t : List Field
  fields_es_event_proc_check_t = fields offset_of "es_event_proc_check_t" (
      ("target", "es_process_t *", 1)
      ∷ ("type", "es_proc_check_type_t", 1)
      ∷ ("flavor", "int", 1)
      ∷ [])

  abbrev pub fields_es_event_searchfs_t : List Field
  fields_es_event_searchfs_t =
      fields offset_of "es_event_searchfs_t"
        (("attrlist", "struct attrlist", 1) ∷ ("target", "es_file_t *", 1) ∷ [])

  abbrev pub fields_es_event_proc_suspend_resume_t : List Field
  fields_es_event_proc_suspend_resume_t =
      fields offset_of "es_event_proc_suspend_resume_t"
        (("target", "es_process_t *", 1) ∷ ("type", "es_proc_suspend_resume_type_t", 1) ∷ [])

  abbrev pub fields_es_event_trace_t : List Field
  fields_es_event_trace_t =
      fields offset_of "es_event_trace_t" (("target", "es_process_t *", 1) ∷ [])

  abbrev pub fields_es_event_remote_thread_create_t : List Field
  fields_es_event_remote_thread_create_t =
      fields offset_of "es_event_remote_thread_create_t"
        (("target", "es_process_t *", 1) ∷ ("thread_state", "es_thread_state_t *", 1) ∷ [])

  abbrev pub fields_es_event_setuid_t : List Field
  fields_es_event_setuid_t = fields offset_of "es_event_setuid_t" (("uid", "unsigned int", 1) ∷ [])

  abbrev pub fields_es_event_setgid_t : List Field
  fields_es_event_setgid_t = fields offset_of "es_event_setgid_t" (("gid", "unsigned int", 1) ∷ [])

  abbrev pub fields_es_event_seteuid_t : List Field
  fields_es_event_seteuid_t =
      fields offset_of "es_event_seteuid_t" (("euid", "unsigned int", 1) ∷ [])

  abbrev pub fields_es_event_setegid_t : List Field
  fields_es_event_setegid_t =
      fields offset_of "es_event_setegid_t" (("egid", "unsigned int", 1) ∷ [])

  abbrev pub fields_es_event_setreuid_t : List Field
  fields_es_event_setreuid_t =
      fields offset_of "es_event_setreuid_t"
        (("ruid", "unsigned int", 1) ∷ ("euid", "unsigned int", 1) ∷ [])

  abbrev pub fields_es_event_setregid_t : List Field
  fields_es_event_setregid_t =
      fields offset_of "es_event_setregid_t"
        (("rgid", "unsigned int", 1) ∷ ("egid", "unsigned int", 1) ∷ [])
