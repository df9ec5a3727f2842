-- ===== src/Field/Tables/Whole.antt =====
-- ext/endpoint_security/generated/es_schema.c: the union of the events, and the message.
use Prim.Native.String.{String}
use endpoint_security.Base.{ℕ, List, [], ◌∷◌}
use endpoint_security.Field.{Field}
use endpoint_security.Field.Tables.{fields}

module _ (offset_of : String → String → ℕ) where
  abbrev pub fields_es_events_t : List Field
  fields_es_events_t = fields offset_of "es_events_t" (
      ("access", "es_event_access_t", 1)
      ∷ ("chdir", "es_event_chdir_t", 1)
      ∷ ("chroot", "es_event_chroot_t", 1)
      ∷ ("clone", "es_event_clone_t", 1)
      ∷ ("close", "es_event_close_t", 1)
      ∷ ("copyfile", "es_event_copyfile_t", 1)
      ∷ ("create", "es_event_create_t", 1)
      ∷ ("cs_invalidated", "es_event_cs_invalidated_t", 1)
      ∷ ("deleteextattr", "es_event_deleteextattr_t", 1)
      ∷ ("dup", "es_event_dup_t", 1)
      ∷ ("exchangedata", "es_event_exchangedata_t", 1)
      ∷ ("exec", "es_event_exec_t", 1)
      ∷ ("exit", "es_event_exit_t", 1)
      ∷ ("file_provider_materialize", "es_event_file_provider_materialize_t", 1)
      ∷ ("file_provider_update", "es_event_file_provider_update_t", 1)
      ∷ ("fcntl", "es_event_fcntl_t", 1)
      ∷ ("fork", "es_event_fork_t", 1)
      ∷ ("fsgetpath", "es_event_fsgetpath_t", 1)
      ∷ ("get_task", "es_event_get_task_t", 1)
      ∷ ("get_task_read", "es_event_get_task_read_t", 1)
      ∷ ("get_task_inspect", "es_event_get_task_inspect_t", 1)
      ∷ ("get_task_name", "es_event_get_task_name_t", 1)
      ∷ ("getattrlist", "es_event_getattrlist_t", 1)
      ∷ ("getextattr", "es_event_getextattr_t", 1)
      ∷ ("iokit_open", "es_event_iokit_open_t", 1)
      ∷ ("kextload", "es_event_kextload_t", 1)
      ∷ ("kextunload", "es_event_kextunload_t", 1)
      ∷ ("link", "es_event_link_t", 1)
      ∷ ("listextattr", "es_event_listextattr_t", 1)
      ∷ ("lookup", "es_event_lookup_t", 1)
      ∷ ("mmap", "es_event_mmap_t", 1)
      ∷ ("mount", "es_event_mount_t", 1)
      ∷ ("mprotect", "es_event_mprotect_t", 1)
      ∷ ("open", "es_event_open_t", 1)
      ∷ ("proc_check", "es_event_proc_check_t", 1)
      ∷ ("proc_suspend_resume", "es_event_proc_suspend_resume_t", 1)
      ∷ ("pty_close", "es_event_pty_close_t", 1)
      ∷ ("pty_grant", "es_event_pty_grant_t", 1)
      ∷ ("readdir", "es_event_readdir_t", 1)
      ∷ ("readlink", "es_event_readlink_t", 1)
      ∷ ("remote_thread_create", "es_event_remote_thread_create_t", 1)
      ∷ ("remount", "es_event_remount_t", 1)
      ∷ ("rename", "es_event_rename_t", 1)
      ∷ ("searchfs", "es_event_searchfs_t", 1)
      ∷ ("setacl", "es_event_setacl_t", 1)
      ∷ ("setattrlist", "es_event_setattrlist_t", 1)
      ∷ ("setextattr", "es_event_setextattr_t", 1)
      ∷ ("setflags", "es_event_setflags_t", 1)
      ∷ ("setmode", "es_event_setmode_t", 1)
      ∷ ("setowner", "es_event_setowner_t", 1)
      ∷ ("settime", "es_event_settime_t", 1)
      ∷ ("setuid", "es_event_setuid_t", 1)
      ∷ ("setgid", "es_event_setgid_t", 1)
      ∷ ("seteuid", "es_event_seteuid_t", 1)
      ∷ ("setegid", "es_event_setegid_t", 1)
      ∷ ("setreuid", "es_event_setreuid_t", 1)
      ∷ ("setregid", "es_event_setregid_t", 1)
      ∷ ("signal", "es_event_signal_t", 1)
      ∷ ("stat", "es_event_stat_t", 1)
      ∷ ("trace", "es_event_trace_t", 1)
      ∷ ("truncate", "es_event_truncate_t", 1)
      ∷ ("uipc_bind", "es_event_uipc_bind_t", 1)
      ∷ ("uipc_connect", "es_event_uipc_connect_t", 1)
      ∷ ("unlink", "es_event_unlink_t", 1)
      ∷ ("unmount", "es_event_unmount_t", 1)
      ∷ ("utimes", "es_event_utimes_t", 1)
      ∷ ("write", "es_event_write_t", 1)
      ∷ ("authentication", "es_event_authentication_t *", 1)
      ∷ ("xp_malware_detected", "es_event_xp_malware_detected_t *", 1)
      ∷ ("xp_malware_remediated", "es_event_xp_malware_remediated_t *", 1)
      ∷ ("lw_session_login", "es_event_lw_session_login_t *", 1)
      ∷ ("lw_session_logout", "es_event_lw_session_logout_t *", 1)
      ∷ ("lw_session_lock", "es_event_lw_session_lock_t *", 1)
      ∷ ("lw_session_unlock", "es_event_lw_session_unlock_t *", 1)
      ∷ ("screensharing_attach", "es_event_screensharing_attach_t *", 1)
      ∷ ("screensharing_detach", "es_event_screensharing_detach_t *", 1)
      ∷ ("openssh_login", "es_event_openssh_login_t *", 1)
      ∷ ("openssh_logout", "es_event_openssh_logout_t *", 1)
      ∷ ("login_login", "es_event_login_login_t *", 1)
      ∷ ("login_logout", "es_event_login_logout_t *", 1)
      ∷ ("btm_launch_item_add", "es_event_btm_launch_item_add_t *", 1)
      ∷ ("btm_launch_item_remove", "es_event_btm_launch_item_remove_t *", 1)
      ∷ ("profile_add", "es_event_profile_add_t *", 1)
      ∷ ("profile_remove", "es_event_profile_remove_t *", 1)
      ∷ ("su", "es_event_su_t *", 1)
      ∷ ("authorization_petition", "es_event_authorization_petition_t *", 1)
      ∷ ("authorization_judgement", "es_event_authorization_judgement_t *", 1)
      ∷ ("sudo", "es_event_sudo_t *", 1)
      ∷ ("od_group_add", "es_event_od_group_add_t *", 1)
      ∷ ("od_group_remove", "es_event_od_group_remove_t *", 1)
      ∷ ("od_group_set", "es_event_od_group_set_t *", 1)
      ∷ ("od_modify_password", "es_event_od_modify_password_t *", 1)
      ∷ ("od_disable_user", "es_event_od_disable_user_t *", 1)
      ∷ ("od_enable_user", "es_event_od_enable_user_t *", 1)
      ∷ ("od_attribute_value_add", "es_event_od_attribute_value_add_t *", 1)
      ∷ ("od_attribute_value_remove", "es_event_od_attribute_value_remove_t *", 1)
      ∷ ("od_attribute_set", "es_event_od_attribute_set_t *", 1)
      ∷ ("od_create_user", "es_event_od_create_user_t *", 1)
      ∷ ("od_create_group", "es_event_od_create_group_t *", 1)
      ∷ ("od_delete_user", "es_event_od_delete_user_t *", 1)
      ∷ ("od_delete_group", "es_event_od_delete_group_t *", 1)
      ∷ ("xpc_connect", "es_event_xpc_connect_t *", 1)
      ∷ ("gatekeeper_user_override", "es_event_gatekeeper_user_override_t *", 1)
      ∷ ("tcc_modify", "es_event_tcc_modify_t *", 1)
      ∷ [])

  abbrev pub fields_es_result_t : List Field
  fields_es_result_t = fields offset_of "es_result_t" (
      ("result_type", "es_result_type_t", 1) ∷ ("result", "union es_result_t::(anonymous)", 1) ∷ [])

  abbrev pub fields_es_message_t : List Field
  fields_es_message_t = fields offset_of "es_message_t" (
      ("version", "unsigned int", 1)
      ∷ ("time", "struct timespec", 1)
      ∷ ("mach_time", "unsigned long long", 1)
      ∷ ("deadline", "unsigned long long", 1)
      ∷ ("process", "es_process_t *", 1)
      ∷ ("seq_num", "unsigned long long", 2)
      ∷ ("action_type", "es_action_type_t", 1)
      ∷ ("action", "union es_message_t::(anonymous)", 1)
      ∷ ("event_type", "es_event_type_t", 1)
      ∷ ("event", "es_events_t", 1)
      ∷ ("thread", "es_thread_t *", 4)
      ∷ ("global_seq_num", "unsigned long long", 4)
      ∷ ("opaque", "uint64_t[]", 1)
      ∷ [])
