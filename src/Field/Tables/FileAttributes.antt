-- ===== src/Field/Tables/FileAttributes.antt =====
-- ext/endpoint_security/generated/es_schema.c: events on files and tasks, up to es_event_dup_t.
use Prim.Native.String.{String}
use endpoint_security.Base.{ℕ, List, [], ◌∷◌}
use endpoint_security.Field.{Field}
use endpoint_security.Field.Tables.{fields}

module _ (offset_of : String → String → ℕ) where
  abbrev pub fields_es_event_setflags_t : List Field
  fields_es_event_setflags_t =
      fields offset_of "es_event_setflags_t"
        (("flags", "unsigned int", 1) ∷ ("target", "es_file_t *", 1) ∷ [])

  abbrev pub fields_es_event_setowner_t : List Field
  fields_es_event_setowner_t =
      fields offset_of "es_event_setowner_t" (
        ("uid", "unsigned int", 1) ∷ ("gid", "unsigned int", 1) ∷ ("target", "es_file_t *", 1) ∷ [])

  abbrev pub fields_es_event_close_t : List Field
  fields_es_event_close_t = fields offset_of "es_event_close_t" (
      ("modified", "bool", 1)
      ∷ ("target", "es_file_t *", 1)
      ∷ ("was_mapped_writable", "bool", 6)
      ∷ [])

  abbrev pub fields_es_event_create_t : List Field
  fields_es_event_create_t = fields offset_of "es_event_create_t" (
      ("destination_type", "es_destination_type_t", 1)
      ∷ ("destination", "union es_event_create_t::(anonymous)", 1)
      ∷ ("acl", "struct _acl *", 2)
      ∷ [])

  abbrev pub fields_es_event_exit_t : List Field
  fields_es_event_exit_t = fields offset_of "es_event_exit_t" (("stat", "int", 1) ∷ [])

  abbrev pub fields_es_event_exchangedata_t : List Field
  fields_es_event_exchangedata_t =
      fields offset_of "es_event_exchangedata_t"
        (("file1", "es_file_t *", 1) ∷ ("file2", "es_file_t *", 1) ∷ [])

  abbrev pub fields_es_event_write_t : List Field
  fields_es_event_write_t = fields offset_of "es_event_write_t" (("target", "es_file_t *", 1) ∷ [])

  abbrev pub fields_es_event_truncate_t : List Field
  fields_es_event_truncate_t =
      fields offset_of "es_event_truncate_t" (("target", "es_file_t *", 1) ∷ [])

  abbrev pub fields_es_event_chdir_t : List Field
  fields_es_event_chdir_t = fields offset_of "es_event_chdir_t" (("target", "es_file_t *", 1) ∷ [])

  abbrev pub fields_es_event_stat_t : List Field
  fields_es_event_stat_t = fields offset_of "es_event_stat_t" (("target", "es_file_t *", 1) ∷ [])

  abbrev pub fields_es_event_chroot_t : List Field
  fields_es_event_chroot_t =
      fields offset_of "es_event_chroot_t" (("target", "es_file_t *", 1) ∷ [])

  abbrev pub fields_es_event_listextattr_t : List Field
  fields_es_event_listextattr_t =
      fields offset_of "es_event_listextattr_t" (("target", "es_file_t *", 1) ∷ [])

  abbrev pub fields_es_event_iokit_open_t : List Field
  fields_es_event_iokit_open_t = fields offset_of "es_event_iokit_open_t" (
      ("user_client_type", "unsigned int", 1)
      ∷ ("user_client_class", "es_string_token_t", 1)
      ∷ ("parent_registry_id", "unsigned long long", 10)
      ∷ ("parent_path", "es_string_token_t", 10)
      ∷ [])

  abbrev pub fields_es_event_get_task_t : List Field
  fields_es_event_get_task_t =
      fields offset_of "es_event_get_task_t"
        (("target", "es_process_t *", 1) ∷ ("type", "es_get_task_type_t", 5) ∷ [])

  abbrev pub fields_es_event_get_task_read_t : List Field
  fields_es_event_get_task_read_t =
      fields offset_of "es_event_get_task_read_t"
        (("target", "es_process_t *", 1) ∷ ("type", "es_get_task_type_t", 5) ∷ [])

  abbrev pub fields_es_event_get_task_inspect_t : List Field
  fields_es_event_get_task_inspect_t =
      fields offset_of "es_event_get_task_inspect_t"
        (("target", "es_process_t *", 1) ∷ ("type", "es_get_task_type_t", 5) ∷ [])

  abbrev pub fields_es_event_get_task_name_t : List Field
  fields_es_event_get_task_name_t =
      fields offset_of "es_event_get_task_name_t"
        (("target", "es_process_t *", 1) ∷ ("type", "es_get_task_type_t", 5) ∷ [])

  abbrev pub fields_es_event_getattrlist_t : List Field
  fields_es_event_getattrlist_t =
      fields offset_of "es_event_getattrlist_t"
        (("attrlist", "struct attrlist", 1) ∷ ("target", "es_file_t *", 1) ∷ [])

  abbrev pub fields_es_event_setattrlist_t : List Field
  fields_es_event_setattrlist_t =
      fields offset_of "es_event_setattrlist_t"
        (("attrlist", "struct attrlist", 1) ∷ ("target", "es_file_t *", 1) ∷ [])

  abbrev pub fields_es_event_file_provider_update_t : List Field
  fields_es_event_file_provider_update_t =
      fields offset_of "es_event_file_provider_update_t"
        (("source", "es_file_t *", 1) ∷ ("target_path", "es_string_token_t", 1) ∷ [])

  abbrev pub fields_es_event_file_provider_materialize_t : List Field
  fields_es_event_file_provider_materialize_t =
      fields offset_of "es_event_file_provider_materialize_t" (
        ("instigator", "es_process_t *", 1)
        ∷ ("source", "es_file_t *", 1)
        ∷ ("target", "es_file_t *", 1)
        ∷ ("instigator_token", "audit_token_t", 8)
        ∷ [])

  abbrev pub fields_es_event_readlink_t : List Field
  fields_es_event_readlink_t =
      fields offset_of "es_event_readlink_t" (("source", "es_file_t *", 1) ∷ [])

  abbrev pub fields_es_event_lookup_t : List Field
  fields_es_event_lookup_t =
      fields offset_of "es_event_lookup_t"
        (("source_dir", "es_file_t *", 1) ∷ ("relative_target", "es_string_token_t", 1) ∷ [])

  abbrev pub fields_es_event_access_t : List Field
  fields_es_event_access_t =
      fields offset_of "es_event_access_t" (("mode", "int", 1) ∷ ("target", "es_file_t *", 1) ∷ [])

  abbrev pub fields_es_event_utimes_t : List Field
  fields_es_event_utimes_t = fields offset_of "es_event_utimes_t" (
      ("target", "es_file_t *", 1)
      ∷ ("atime", "struct timespec", 1)
      ∷ ("mtime", "struct timespec", 1)
      ∷ [])

  abbrev pub fields_es_event_clone_t : List Field
  fields_es_event_clone_t = fields offset_of "es_event_clone_t" (
      ("source", "es_file_t *", 1)
      ∷ ("target_dir", "es_file_t *", 1)
      ∷ ("target_name", "es_string_token_t", 1)
      ∷ [])

  abbrev pub fields_es_event_copyfile_t : List Field
  fields_es_event_copyfile_t = fields offset_of "es_event_copyfile_t" (
      ("source", "es_file_t *", 1)
      ∷ ("target_file", "es_file_t *", 1)
      ∷ ("target_dir", "es_file_t *", 1)
      ∷ ("target_name", "es_string_token_t", 1)
      ∷ ("mode", "unsigned short", 1)
      ∷ ("flags", "int", 1)
      ∷ [])

  abbrev pub fields_es_event_fcntl_t : List Field
  fields_es_event_fcntl_t =
      fields offset_of "es_event_fcntl_t" (("target", "es_file_t *", 1) ∷ ("cmd", "int", 1) ∷ [])

  abbrev pub fields_es_event_readdir_t : List Field
  fields_es_event_readdir_t =
      fields offset_of "es_event_readdir_t" (("target", "es_file_t *", 1) ∷ [])

  abbrev pub fields_es_event_fsgetpath_t : List Field
  fields_es_event_fsgetpath_t =
      fields offset_of "es_event_fsgetpath_t" (("target", "es_file_t *", 1) ∷ [])

  abbrev pub fields_es_event_dup_t : List Field
  fields_es_event_dup_t = fields offset_of "es_event_dup_t" (("target", "es_file_t *", 1) ∷ [])
