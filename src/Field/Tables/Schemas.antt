-- ===== src/Field/Tables/Schemas.antt =====
-- ext/endpoint_security/generated/es_schema.c, esrb_schemas.
use Prim.Native.String.{String}
use endpoint_security.Base.{ℕ, List, [], ◌∷◌}
use endpoint_security.Field.{Schema}
use endpoint_security.Field.Tables.{schema}
use endpoint_security.Field.Tables.Entities.{
  fields_es_token_t, fields_es_string_token_t, fields_es_muted_path_t, fields_es_muted_paths_t,
  fields_es_muted_process_t, fields_es_muted_processes_t, fields_es_signed_file_info_t,
  fields_es_file_t, fields_es_process_t, fields_es_thread_t, fields_es_thread_state_t,
  fields_es_fd_t, fields_es_btm_launch_item_t, fields_es_profile_t,
}
use endpoint_security.Field.Tables.FileEvents.{
  fields_es_event_exec_t, fields_es_event_tcc_modify_t, fields_es_event_open_t,
  fields_es_event_kextload_t, fields_es_event_kextunload_t, fields_es_event_unlink_t,
  fields_es_event_mmap_t, fields_es_event_link_t, fields_es_event_mount_t,
  fields_es_event_unmount_t, fields_es_event_remount_t, fields_es_event_fork_t,
  fields_es_event_mprotect_t, fields_es_event_signal_t, fields_es_event_rename_t,
  fields_es_event_setextattr_t, fields_es_event_getextattr_t, fields_es_event_deleteextattr_t,
  fields_es_event_setmode_t,
}
use endpoint_security.Field.Tables.FileAttributes.{
  fields_es_event_setflags_t, fields_es_event_setowner_t, fields_es_event_close_t,
  fields_es_event_create_t, fields_es_event_exit_t, fields_es_event_exchangedata_t,
  fields_es_event_write_t, fields_es_event_truncate_t, fields_es_event_chdir_t,
  fields_es_event_stat_t, fields_es_event_chroot_t, fields_es_event_listextattr_t,
  fields_es_event_iokit_open_t, fields_es_event_get_task_t, fields_es_event_get_task_read_t,
  fields_es_event_get_task_inspect_t, fields_es_event_get_task_name_t,
  fields_es_event_getattrlist_t, fields_es_event_setattrlist_t,
  fields_es_event_file_provider_update_t, fields_es_event_file_provider_materialize_t,
  fields_es_event_readlink_t, fields_es_event_lookup_t, fields_es_event_access_t,
  fields_es_event_utimes_t, fields_es_event_clone_t, fields_es_event_copyfile_t,
  fields_es_event_fcntl_t, fields_es_event_readdir_t, fields_es_event_fsgetpath_t,
  fields_es_event_dup_t,
}
use endpoint_security.Field.Tables.ProcessEvents.{
  fields_es_event_uipc_bind_t, fields_es_event_uipc_connect_t, fields_es_event_setacl_t,
  fields_es_event_pty_grant_t, fields_es_event_pty_close_t, fields_es_event_proc_check_t,
  fields_es_event_searchfs_t, fields_es_event_proc_suspend_resume_t, fields_es_event_trace_t,
  fields_es_event_remote_thread_create_t, fields_es_event_setuid_t, fields_es_event_setgid_t,
  fields_es_event_seteuid_t, fields_es_event_setegid_t, fields_es_event_setreuid_t,
  fields_es_event_setregid_t,
}
use endpoint_security.Field.Tables.Authentication.{
  fields_es_event_authentication_od_t, fields_es_event_authentication_touchid_t,
  fields_es_event_authentication_token_t, fields_es_event_authentication_auto_unlock_t,
  fields_es_event_authentication_t, fields_es_event_xp_malware_detected_t,
  fields_es_event_xp_malware_remediated_t, fields_es_event_lw_session_login_t,
  fields_es_event_lw_session_logout_t, fields_es_event_lw_session_lock_t,
  fields_es_event_lw_session_unlock_t, fields_es_event_screensharing_attach_t,
  fields_es_event_screensharing_detach_t, fields_es_event_openssh_login_t,
  fields_es_event_openssh_logout_t, fields_es_event_login_login_t, fields_es_event_login_logout_t,
  fields_es_event_btm_launch_item_add_t, fields_es_event_btm_launch_item_remove_t,
}
use endpoint_security.Field.Tables.Authorization.{
  fields_es_event_su_t, fields_es_sudo_reject_info_t, fields_es_event_sudo_t,
  fields_es_event_profile_add_t, fields_es_event_profile_remove_t,
  fields_es_event_authorization_petition_t, fields_es_authorization_result_t,
  fields_es_event_authorization_judgement_t,
}
use endpoint_security.Field.Tables.Directory.{
  fields_es_od_member_id_t, fields_es_event_od_group_add_t, fields_es_event_od_group_remove_t,
  fields_es_od_member_id_array_t, fields_es_event_od_group_set_t,
  fields_es_event_od_modify_password_t, fields_es_event_od_disable_user_t,
  fields_es_event_od_enable_user_t, fields_es_event_od_attribute_value_add_t,
  fields_es_event_od_attribute_value_remove_t, fields_es_event_od_attribute_set_t,
  fields_es_event_od_create_user_t, fields_es_event_od_create_group_t,
  fields_es_event_od_delete_user_t, fields_es_event_od_delete_group_t,
  fields_es_event_xpc_connect_t, fields_es_event_gatekeeper_user_override_t,
}
use endpoint_security.Field.Tables.Whole.{
  fields_es_events_t, fields_es_result_t, fields_es_message_t,
}

module _ (offset_of : String → String → ℕ) where
  abbrev pub esrb_schemas : List Schema
  esrb_schemas =
      schema "es_event_id_t" []
      ∷ schema "es_token_t" (fields_es_token_t offset_of)
      ∷ schema "es_string_token_t" (fields_es_string_token_t offset_of)
      ∷ schema "es_muted_path_t" (fields_es_muted_path_t offset_of)
      ∷ schema "es_muted_paths_t" (fields_es_muted_paths_t offset_of)
      ∷ schema "es_muted_process_t" (fields_es_muted_process_t offset_of)
      ∷ schema "es_muted_processes_t" (fields_es_muted_processes_t offset_of)
      ∷ schema "es_signed_file_info_t" (fields_es_signed_file_info_t offset_of)
      ∷ schema "es_file_t" (fields_es_file_t offset_of)
      ∷ schema "es_process_t" (fields_es_process_t offset_of)
      ∷ schema "es_thread_t" (fields_es_thread_t offset_of)
      ∷ schema "es_thread_state_t" (fields_es_thread_state_t offset_of)
      ∷ schema "es_fd_t" (fields_es_fd_t offset_of)
      ∷ schema "es_btm_launch_item_t" (fields_es_btm_launch_item_t offset_of)
      ∷ schema "es_profile_t" (fields_es_profile_t offset_of)
      ∷ schema "es_event_exec_t" (fields_es_event_exec_t offset_of)
      ∷ schema "es_event_tcc_modify_t" (fields_es_event_tcc_modify_t offset_of)
      ∷ schema "es_event_open_t" (fields_es_event_open_t offset_of)
      ∷ schema "es_event_kextload_t" (fields_es_event_kextload_t offset_of)
      ∷ schema "es_event_kextunload_t" (fields_es_event_kextunload_t offset_of)
      ∷ schema "es_event_unlink_t" (fields_es_event_unlink_t offset_of)
      ∷ schema "es_event_mmap_t" (fields_es_event_mmap_t offset_of)
      ∷ schema "es_event_link_t" (fields_es_event_link_t offset_of)
      ∷ schema "es_event_mount_t" (fields_es_event_mount_t offset_of)
      ∷ schema "es_event_unmount_t" (fields_es_event_unmount_t offset_of)
      ∷ schema "es_event_remount_t" (fields_es_event_remount_t offset_of)
      ∷ schema "es_event_fork_t" (fields_es_event_fork_t offset_of)
      ∷ schema "es_event_mprotect_t" (fields_es_event_mprotect_t offset_of)
      ∷ schema "es_event_signal_t" (fields_es_event_signal_t offset_of)
      ∷ schema "es_event_rename_t" (fields_es_event_rename_t offset_of)
      ∷ schema "es_event_setextattr_t" (fields_es_event_setextattr_t offset_of)
      ∷ schema "es_event_getextattr_t" (fields_es_event_getextattr_t offset_of)
      ∷ schema "es_event_deleteextattr_t" (fields_es_event_deleteextattr_t offset_of)
      ∷ schema "es_event_setmode_t" (fields_es_event_setmode_t offset_of)
      ∷ schema "es_event_setflags_t" (fields_es_event_setflags_t offset_of)
      ∷ schema "es_event_setowner_t" (fields_es_event_setowner_t offset_of)
      ∷ schema "es_event_close_t" (fields_es_event_close_t offset_of)
      ∷ schema "es_event_create_t" (fields_es_event_create_t offset_of)
      ∷ schema "es_event_exit_t" (fields_es_event_exit_t offset_of)
      ∷ schema "es_event_exchangedata_t" (fields_es_event_exchangedata_t offset_of)
      ∷ schema "es_event_write_t" (fields_es_event_write_t offset_of)
      ∷ schema "es_event_truncate_t" (fields_es_event_truncate_t offset_of)
      ∷ schema "es_event_chdir_t" (fields_es_event_chdir_t offset_of)
      ∷ schema "es_event_stat_t" (fields_es_event_stat_t offset_of)
      ∷ schema "es_event_chroot_t" (fields_es_event_chroot_t offset_of)
      ∷ schema "es_event_listextattr_t" (fields_es_event_listextattr_t offset_of)
      ∷ schema "es_event_iokit_open_t" (fields_es_event_iokit_open_t offset_of)
      ∷ schema "es_event_get_task_t" (fields_es_event_get_task_t offset_of)
      ∷ schema "es_event_get_task_read_t" (fields_es_event_get_task_read_t offset_of)
      ∷ schema "es_event_get_task_inspect_t" (fields_es_event_get_task_inspect_t offset_of)
      ∷ schema "es_event_get_task_name_t" (fields_es_event_get_task_name_t offset_of)
      ∷ schema "es_event_getattrlist_t" (fields_es_event_getattrlist_t offset_of)
      ∷ schema "es_event_setattrlist_t" (fields_es_event_setattrlist_t offset_of)
      ∷ schema "es_event_file_provider_update_t" (fields_es_event_file_provider_update_t offset_of)
      ∷ schema "es_event_file_provider_materialize_t"
          (fields_es_event_file_provider_materialize_t offset_of)
      ∷ schema "es_event_readlink_t" (fields_es_event_readlink_t offset_of)
      ∷ schema "es_event_lookup_t" (fields_es_event_lookup_t offset_of)
      ∷ schema "es_event_access_t" (fields_es_event_access_t offset_of)
      ∷ schema "es_event_utimes_t" (fields_es_event_utimes_t offset_of)
      ∷ schema "es_event_clone_t" (fields_es_event_clone_t offset_of)
      ∷ schema "es_event_copyfile_t" (fields_es_event_copyfile_t offset_of)
      ∷ schema "es_event_fcntl_t" (fields_es_event_fcntl_t offset_of)
      ∷ schema "es_event_readdir_t" (fields_es_event_readdir_t offset_of)
      ∷ schema "es_event_fsgetpath_t" (fields_es_event_fsgetpath_t offset_of)
      ∷ schema "es_event_settime_t" []
      ∷ schema "es_event_dup_t" (fields_es_event_dup_t offset_of)
      ∷ schema "es_event_uipc_bind_t" (fields_es_event_uipc_bind_t offset_of)
      ∷ schema "es_event_uipc_connect_t" (fields_es_event_uipc_connect_t offset_of)
      ∷ schema "es_event_setacl_t" (fields_es_event_setacl_t offset_of)
      ∷ schema "es_event_pty_grant_t" (fields_es_event_pty_grant_t offset_of)
      ∷ schema "es_event_pty_close_t" (fields_es_event_pty_close_t offset_of)
      ∷ schema "es_event_proc_check_t" (fields_es_event_proc_check_t offset_of)
      ∷ schema "es_event_searchfs_t" (fields_es_event_searchfs_t offset_of)
      ∷ schema "es_event_proc_suspend_resume_t" (fields_es_event_proc_suspend_resume_t offset_of)
      ∷ schema "es_event_cs_invalidated_t" []
      ∷ schema "es_event_trace_t" (fields_es_event_trace_t offset_of)
      ∷ schema "es_event_remote_thread_create_t" (fields_es_event_remote_thread_create_t offset_of)
      ∷ schema "es_event_setuid_t" (fields_es_event_setuid_t offset_of)
      ∷ schema "es_event_setgid_t" (fields_es_event_setgid_t offset_of)
      ∷ schema "es_event_seteuid_t" (fields_es_event_seteuid_t offset_of)
      ∷ schema "es_event_setegid_t" (fields_es_event_setegid_t offset_of)
      ∷ schema "es_event_setreuid_t" (fields_es_event_setreuid_t offset_of)
      ∷ schema "es_event_setregid_t" (fields_es_event_setregid_t offset_of)
      ∷ schema "es_event_authentication_od_t" (fields_es_event_authentication_od_t offset_of)
      ∷ schema "es_event_authentication_touchid_t"
          (fields_es_event_authentication_touchid_t offset_of)
      ∷ schema "es_event_authentication_token_t" (fields_es_event_authentication_token_t offset_of)
      ∷ schema "es_event_authentication_auto_unlock_t"
          (fields_es_event_authentication_auto_unlock_t offset_of)
      ∷ schema "es_event_authentication_t" (fields_es_event_authentication_t offset_of)
      ∷ schema "es_event_xp_malware_detected_t" (fields_es_event_xp_malware_detected_t offset_of)
      ∷ schema "es_event_xp_malware_remediated_t"
          (fields_es_event_xp_malware_remediated_t offset_of)
      ∷ schema "es_event_lw_session_login_t" (fields_es_event_lw_session_login_t offset_of)
      ∷ schema "es_event_lw_session_logout_t" (fields_es_event_lw_session_logout_t offset_of)
      ∷ schema "es_event_lw_session_lock_t" (fields_es_event_lw_session_lock_t offset_of)
      ∷ schema "es_event_lw_session_unlock_t" (fields_es_event_lw_session_unlock_t offset_of)
      ∷ schema "es_event_screensharing_attach_t" (fields_es_event_screensharing_attach_t offset_of)
      ∷ schema "es_event_screensharing_detach_t" (fields_es_event_screensharing_detach_t offset_of)
      ∷ schema "es_event_openssh_login_t" (fields_es_event_openssh_login_t offset_of)
      ∷ schema "es_event_openssh_logout_t" (fields_es_event_openssh_logout_t offset_of)
      ∷ schema "es_event_login_login_t" (fields_es_event_login_login_t offset_of)
      ∷ schema "es_event_login_logout_t" (fields_es_event_login_logout_t offset_of)
      ∷ schema "es_event_btm_launch_item_add_t" (fields_es_event_btm_launch_item_add_t offset_of)
      ∷ schema "es_event_btm_launch_item_remove_t"
          (fields_es_event_btm_launch_item_remove_t offset_of)
      ∷ schema "es_event_su_t" (fields_es_event_su_t offset_of)
      ∷ schema "es_sudo_reject_info_t" (fields_es_sudo_reject_info_t offset_of)
      ∷ schema "es_event_sudo_t" (fields_es_event_sudo_t offset_of)
      ∷ schema "es_event_profile_add_t" (fields_es_event_profile_add_t offset_of)
      ∷ schema "es_event_profile_remove_t" (fields_es_event_profile_remove_t offset_of)
      ∷ schema "es_event_authorization_petition_t"
          (fields_es_event_authorization_petition_t offset_of)
      ∷ schema "es_authorization_result_t" (fields_es_authorization_result_t offset_of)
      ∷ schema "es_event_authorization_judgement_t"
          (fields_es_event_authorization_judgement_t offset_of)
      ∷ schema "es_od_member_id_t" (fields_es_od_member_id_t offset_of)
      ∷ schema "es_event_od_group_add_t" (fields_es_event_od_group_add_t offset_of)
      ∷ schema "es_event_od_group_remove_t" (fields_es_event_od_group_remove_t offset_of)
      ∷ schema "es_od_member_id_array_t" (fields_es_od_member_id_array_t offset_of)
      ∷ schema "es_event_od_group_set_t" (fields_es_event_od_group_set_t offset_of)
      ∷ schema "es_event_od_modify_password_t" (fields_es_event_od_modify_password_t offset_of)
      ∷ schema "es_event_od_disable_user_t" (fields_es_event_od_disable_user_t offset_of)
      ∷ schema "es_event_od_enable_user_t" (fields_es_event_od_enable_user_t offset_of)
      ∷ schema "es_event_od_attribute_value_add_t"
          (fields_es_event_od_attribute_value_add_t offset_of)
      ∷ schema "es_event_od_attribute_value_remove_t"
          (fields_es_event_od_attribute_value_remove_t offset_of)
      ∷ schema "es_event_od_attribute_set_t" (fields_es_event_od_attribute_set_t offset_of)
      ∷ schema "es_event_od_create_user_t" (fields_es_event_od_create_user_t offset_of)
      ∷ schema "es_event_od_create_group_t" (fields_es_event_od_create_group_t offset_of)
      ∷ schema "es_event_od_delete_user_t" (fields_es_event_od_delete_user_t offset_of)
      ∷ schema "es_event_od_delete_group_t" (fields_es_event_od_delete_group_t offset_of)
      ∷ schema "es_event_xpc_connect_t" (fields_es_event_xpc_connect_t offset_of)
      ∷ schema "es_event_gatekeeper_user_override_t"
          (fields_es_event_gatekeeper_user_override_t offset_of)
      ∷ schema "es_events_t" (fields_es_events_t offset_of)
      ∷ schema "es_result_t" (fields_es_result_t offset_of)
      ∷ schema "es_message_t" (fields_es_message_t offset_of)
      ∷ []
