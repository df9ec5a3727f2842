-- ===== src/Field/Tables/FileEvents.antt =====
-- ext/endpoint_security/generated/es_schema.c: events on files, up to es_event_setmode_t.
use Prim.Native.String.{String}
use endpoint_security.Base.{ℕ, List, [], ◌∷◌}
use endpoint_security.Field.{Field}
use endpoint_security.Field.Tables.{fields}

module _ (offset_of : String → String → ℕ) where
  abbrev pub fields_es_event_exec_t : List Field
  fields_es_event_exec_t = fields offset_of "es_event_exec_t" (
      ("target", "es_process_t *", 1)
      ∷ ("dyld_exec_path", "es_string_token_t", 7)
      ∷ ("script", "es_file_t *", 2)
      ∷ ("cwd", "es_file_t *", 3)
      ∷ ("last_fd", "int", 4)
      ∷ ("image_cputype", "int", 6)
      ∷ ("image_cpusubtype", "int", 6)
      ∷ [])

  abbrev pub fields_es_event_tcc_modify_t : List Field
  fields_es_event_tcc_modify_t = fields offset_of "es_event_tcc_modify_t" (
      ("service", "es_string_token_t", 1)
      ∷ ("identity", "es_string_token_t", 1)
      ∷ ("identity_type", "es_tcc_identity_type_t", 1)
      ∷ ("update_type", "es_tcc_event_type_t", 1)
      ∷ ("instigator_token", "audit_token_t", 1)
      ∷ ("instigator", "es_process_t *", 1)
      ∷ ("responsible_token", "audit_token_t *", 1)
      ∷ ("responsible", "es_process_t *", 1)
      ∷ ("right", "es_tcc_authorization_right_t", 1)
      ∷ ("reason", "es_tcc_authorization_reason_t", 1)
      ∷ [])

  abbrev pub fields_es_event_open_t : List Field
  fields_es_event_open_t =
      fields offset_of "es_event_open_t" (("fflag", "int", 1) ∷ ("file", "es_file_t *", 1) ∷ [])

  abbrev pub fields_es_event_kextload_t : List Field
  fields_es_event_kextload_t =
      fields offset_of "es_event_kextload_t" (("identifier", "es_string_token_t", 1) ∷ [])

  abbrev pub fields_es_event_kextunload_t : List Field
  fields_es_event_kextunload_t =
      fields offset_of "es_event_kextunload_t" (("identifier", "es_string_token_t", 1) ∷ [])

  abbrev pub fields_es_event_unlink_t : List Field
  fields_es_event_unlink_t =
      fields offset_of "es_event_unlink_t"
        (("target", "es_file_t *", 1) ∷ ("parent_dir", "es_file_t *", 1) ∷ [])

  abbrev pub fields_es_event_mmap_t : List Field
  fields_es_event_mmap_t = fields offset_of "es_event_mmap_t" (
      ("protection", "int", 1)
      ∷ ("max_protection", "int", 1)
      ∷ ("flags", "int", 1)
      ∷ ("file_pos", "unsigned long long", 1)
      ∷ ("source", "es_file_t *", 1)
      ∷ [])

  abbrev pub fields_es_event_link_t : List Field
  fields_es_event_link_t = fields offset_of "es_event_link_t" (
      ("source", "es_file_t *", 1)
      ∷ ("target_dir", "es_file_t *", 1)
      ∷ ("target_filename", "es_string_token_t", 1)
      ∷ [])

  abbrev pub fields_es_event_mount_t : List Field
  fields_es_event_mount_t =
      fields offset_of "es_event_mount_t"
        (("statfs", "struct statfs *", 1) ∷ ("disposition", "es_mount_disposition_t", 8) ∷ [])

  abbrev pub fields_es_event_unmount_t : List Field
  fields_es_event_unmount_t =
      fields offset_of "es_event_unmount_t" (("statfs", "struct statfs *", 1) ∷ [])

  abbrev pub fields_es_event_remount_t : List Field
  fields_es_event_remount_t = fields offset_of "es_event_remount_t" (
      ("statfs", "struct statfs *", 1)
      ∷ ("remount_flags", "unsigned long long", 8)
      ∷ ("disposition", "es_mount_disposition_t", 8)
      ∷ [])

  abbrev pub fields_es_event_fork_t : List Field
  fields_es_event_fork_t = fields offset_of "es_event_fork_t" (("child", "es_process_t *", 1) ∷ [])

  abbrev pub fields_es_event_mprotect_t : List Field
  fields_es_event_mprotect_t = fields offset_of "es_event_mprotect_t" (
      ("protection", "int", 1)
      ∷ ("address", "unsigned long long", 1)
      ∷ ("size", "unsigned long long", 1)
      ∷ [])

  abbrev pub fields_es_event_signal_t : List Field
  fields_es_event_signal_t = fields offset_of "es_event_signal_t" (
      ("sig", "int", 1)
      ∷ ("target", "es_process_t *", 1)
      ∷ ("instigator", "es_process_t *", 9)
      ∷ [])

  abbrev pub fields_es_event_rename_t : List Field
  fields_es_event_rename_t = fields offset_of "es_event_rename_t" (
      ("source", "es_file_t *", 1)
      ∷ ("destination_type", "es_destination_type_t", 1)
      ∷ ("destination", "union es_event_rename_t::(anonymous)", 1)
      ∷ [])

  abbrev pub fields_es_event_setextattr_t : List Field
  fields_es_event_setextattr_t =
      fields offset_of "es_event_setextattr_t"
        (("target", "es_file_t *", 1) ∷ ("extattr", "es_string_token_t", 1) ∷ [])

  abbrev pub fields_es_event_getextattr_t : List Field
  fields_es_event_getextattr_t =
      fields offset_of "es_event_getextattr_t"
        (("target", "es_file_t *", 1) ∷ ("extattr", "es_string_token_t", 1) ∷ [])

  abbrev pub fields_es_event_deleteextattr_t : List Field
  fields_es_event_deleteextattr_t =
      fields offset_of "es_event_deleteextattr_t"
        (("target", "es_file_t *", 1) ∷ ("extattr", "es_string_token_t", 1) ∷ [])

  abbrev pub fields_es_event_setmode_t : List Field
  fields_es_event_setmode_t =
      fields offset_of "es_event_setmode_t"
        (("mode", "unsigned short", 1) ∷ ("target", "es_file_t *", 1) ∷ [])
