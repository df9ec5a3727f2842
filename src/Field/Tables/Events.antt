-- ===== src/Field/Tables/Events.antt =====
-- ext/endpoint_security/generated/es_schema.c, esrb_event_schemas.
use Prim.Native.String.{String}
use endpoint_security.Base.{ℕ, true, false, List, [], ◌∷◌}
use endpoint_security.Field.{EventSchema}
use endpoint_security.Field.Tables.{event}

module _ (offset_of : String → String → ℕ) where
  abbrev pub esrb_event_schemas : List EventSchema
  esrb_event_schemas =
      event offset_of 0 "exec" "es_event_exec_t" false
      ∷ event offset_of 1 "open" "es_event_open_t" false
      ∷ event offset_of 2 "kextload" "es_event_kextload_t" false
      ∷ event offset_of 3 "mmap" "es_event_mmap_t" false
      ∷ event offset_of 4 "mprotect" "es_event_mprotect_t" false
      ∷ event offset_of 5 "mount" "es_event_mount_t" false
      ∷ event offset_of 6 "rename" "es_event_rename_t" false
      ∷ event offset_of 7 "signal" "es_event_signal_t" false
      ∷ event offset_of 8 "unlink" "es_event_unlink_t" false
      ∷ event offset_of 9 "exec" "es_event_exec_t" false
      ∷ event offset_of 10 "open" "es_event_open_t" false
      ∷ event offset_of 11 "fork" "es_event_fork_t" false
      ∷ event offset_of 12 "close" "es_event_close_t" false
      ∷ event offset_of 13 "create" "es_event_create_t" false
      ∷ event offset_of 14 "exchangedata" "es_event_exchangedata_t" false
      ∷ event offset_of 15 "exit" "es_event_exit_t" false
      ∷ event offset_of 16 "get_task" "es_event_get_task_t" false
      ∷ event offset_of 17 "kextload" "es_event_kextload_t" false
      ∷ event offset_of 18 "kextunload" "es_event_kextunload_t" false
      ∷ event offset_of 19 "link" "es_event_link_t" false
      ∷ event offset_of 20 "mmap" "es_event_mmap_t" false
      ∷ event offset_of 21 "mprotect" "es_event_mprotect_t" false
      ∷ event offset_of 22 "mount" "es_event_mount_t" false
      ∷ event offset_of 23 "unmount" "es_event_unmount_t" false
      ∷ event offset_of 24 "iokit_open" "es_event_iokit_open_t" false
      ∷ event offset_of 25 "rename" "es_event_rename_t" false
      ∷ event offset_of 26 "setattrlist" "es_event_setattrlist_t" false
      ∷ event offset_of 27 "setextattr" "es_event_setextattr_t" false
      ∷ event offset_of 28 "setflags" "es_event_setflags_t" false
      ∷ event offset_of 29 "setmode" "es_event_setmode_t" false
      ∷ event offset_of 30 "setowner" "es_event_setowner_t" false
      ∷ event offset_of 31 "signal" "es_event_signal_t" false
      ∷ event offset_of 32 "unlink" "es_event_unlink_t" false
      ∷ event offset_of 33 "write" "es_event_write_t" false
      ∷ event offset_of 34 "file_provider_materialize" "es_event_file_provider_materialize_t" false
      ∷ event offset_of 35 "file_provider_materialize" "es_event_file_provider_materialize_t" false
      ∷ event offset_of 36 "file_provider_update" "es_event_file_provider_update_t" false
      ∷ event offset_of 37 "file_provider_update" "es_event_file_provider_update_t" false
      ∷ event offset_of 38 "readlink" "es_event_readlink_t" false
      ∷ event offset_of 39 "readlink" "es_event_readlink_t" false
      ∷ event offset_of 40 "truncate" "es_event_truncate_t" false
      ∷ event offset_of 41 "truncate" "es_event_truncate_t" false
      ∷ event offset_of 42 "link" "es_event_link_t" false
      ∷ event offset_of 43 "lookup" "es_event_lookup_t" false
      ∷ event offset_of 44 "create" "es_event_create_t" false
      ∷ event offset_of 45 "setattrlist" "es_event_setattrlist_t" false
      ∷ event offset_of 46 "setextattr" "es_event_setextattr_t" false
      ∷ event offset_of 47 "setflags" "es_event_setflags_t" false
      ∷ event offset_of 48 "setmode" "es_event_setmode_t" false
      ∷ event offset_of 49 "setowner" "es_event_setowner_t" false
      ∷ event offset_of 50 "chdir" "es_event_chdir_t" false
      ∷ event offset_of 51 "chdir" "es_event_chdir_t" false
      ∷ event offset_of 52 "getattrlist" "es_event_getattrlist_t" false
      ∷ event offset_of 53 "getattrlist" "es_event_getattrlist_t" false
      ∷ event offset_of 54 "stat" "es_event_stat_t" false
      ∷ event offset_of 55 "access" "es_event_access_t" false
      ∷ event offset_of 56 "chroot" "es_event_chroot_t" false
      ∷ event offset_of 57 "chroot" "es_event_chroot_t" false
      ∷ event offset_of 58 "utimes" "es_event_utimes_t" false
      ∷ event offset_of 59 "utimes" "es_event_utimes_t" false
      ∷ event offset_of 60 "clone" "es_event_clone_t" false
      ∷ event offset_of 61 "clone" "es_event_clone_t" false
      ∷ event offset_of 62 "fcntl" "es_event_fcntl_t" false
      ∷ event offset_of 63 "getextattr" "es_event_getextattr_t" false
      ∷ event offset_of 64 "getextattr" "es_event_getextattr_t" false
      ∷ event offset_of 65 "listextattr" "es_event_listextattr_t" false
      ∷ event offset_of 66 "listextattr" "es_event_listextattr_t" false
      ∷ event offset_of 67 "readdir" "es_event_readdir_t" false
      ∷ event offset_of 68 "readdir" "es_event_readdir_t" false
      ∷ event offset_of 69 "deleteextattr" "es_event_deleteextattr_t" false
      ∷ event offset_of 70 "deleteextattr" "es_event_deleteextattr_t" false
      ∷ event offset_of 71 "fsgetpath" "es_event_fsgetpath_t" false
      ∷ event offset_of 72 "fsgetpath" "es_event_fsgetpath_t" false
      ∷ event offset_of 73 "dup" "es_event_dup_t" false
      ∷ event offset_of 74 "settime" "es_event_settime_t" false
      ∷ event offset_of 75 "settime" "es_event_settime_t" false
      ∷ event offset_of 76 "uipc_bind" "es_event_uipc_bind_t" false
      ∷ event offset_of 77 "uipc_bind" "es_event_uipc_bind_t" false
      ∷ event offset_of 78 "uipc_connect" "es_event_uipc_connect_t" false
      ∷ event offset_of 79 "uipc_connect" "es_event_uipc_connect_t" false
      ∷ event offset_of 80 "exchangedata" "es_event_exchangedata_t" false
      ∷ event offset_of 81 "setacl" "es_event_setacl_t" false
      ∷ event offset_of 82 "setacl" "es_event_setacl_t" false
      ∷ event offset_of 83 "pty_grant" "es_event_pty_grant_t" false
      ∷ event offset_of 84 "pty_close" "es_event_pty_close_t" false
      ∷ event offset_of 85 "proc_check" "es_event_proc_check_t" false
      ∷ event offset_of 86 "proc_check" "es_event_proc_check_t" false
      ∷ event offset_of 87 "get_task" "es_event_get_task_t" false
      ∷ event offset_of 88 "searchfs" "es_event_searchfs_t" false
      ∷ event offset_of 89 "searchfs" "es_event_searchfs_t" false
      ∷ event offset_of 90 "fcntl" "es_event_fcntl_t" false
      ∷ event offset_of 91 "iokit_open" "es_event_iokit_open_t" false
      ∷ event offset_of 92 "proc_suspend_resume" "es_event_proc_suspend_resume_t" false
      ∷ event offset_of 93 "proc_suspend_resume" "es_event_proc_suspend_resume_t" false
      ∷ event offset_of 94 "cs_invalidated" "es_event_cs_invalidated_t" false
      ∷ event offset_of 95 "get_task_name" "es_event_get_task_name_t" false
      ∷ event offset_of 96 "trace" "es_event_trace_t" false
      ∷ event offset_of 97 "remote_thread_create" "es_event_remote_thread_create_t" false
      ∷ event offset_of 98 "remount" "es_event_remount_t" false
      ∷ event offset_of 99 "remount" "es_event_remount_t" false
      ∷ event offset_of 100 "get_task_read" "es_event_get_task_read_t" false
      ∷ event offset_of 101 "get_task_read" "es_event_get_task_read_t" false
      ∷ event offset_of 102 "get_task_inspect" "es_event_get_task_inspect_t" false
      ∷ event offset_of 103 "setuid" "es_event_setuid_t" false
      ∷ event offset_of 104 "setgid" "es_event_setgid_t" false
      ∷ event offset_of 105 "seteuid" "es_event_seteuid_t" false
      ∷ event offset_of 106 "setegid" "es_event_setegid_t" false
      ∷ event offset_of 107 "setreuid" "es_event_setreuid_t" false
      ∷ event offset_of 108 "setregid" "es_event_setregid_t" false
      ∷ event offset_of 109 "copyfile" "es_event_copyfile_t" false
      ∷ event offset_of 110 "copyfile" "es_event_copyfile_t" false
      ∷ event offset_of 111 "authentication" "es_event_authentication_t" true
      ∷ event offset_of 112 "xp_malware_detected" "es_event_xp_malware_detected_t" true
      ∷ event offset_of 113 "xp_malware_remediated" "es_event_xp_malware_remediated_t" true
      ∷ event offset_of 114 "lw_session_login" "es_event_lw_session_login_t" true
      ∷ event offset_of 115 "lw_session_logout" "es_event_lw_session_logout_t" true
      ∷ event offset_of 116 "lw_session_lock" "es_event_lw_session_lock_t" true
      ∷ event offset_of 117 "lw_session_unlock" "es_event_lw_session_unlock_t" true
      ∷ event offset_of 118 "screensharing_attach" "es_event_screensharing_attach_t" true
      ∷ event offset_of 119 "screensharing_detach" "es_event_screensharing_detach_t" true
      ∷ event offset_of 120 "openssh_login" "es_event_openssh_login_t" true
      ∷ event offset_of 121 "openssh_logout" "es_event_openssh_logout_t" true
      ∷ event offset_of 122 "login_login" "es_event_login_login_t" true
      ∷ event offset_of 123 "login_logout" "es_event_login_logout_t" true
      ∷ event offset_of 124 "btm_launch_item_add" "es_event_btm_launch_item_add_t" true
      ∷ event offset_of 125 "btm_launch_item_remove" "es_event_btm_launch_item_remove_t" true
      ∷ event offset_of 126 "profile_add" "es_event_profile_add_t" true
      ∷ event offset_of 127 "profile_remove" "es_event_profile_remove_t" true
      ∷ event offset_of 128 "su" "es_event_su_t" true
      ∷ event offset_of 129 "authorization_petition" "es_event_authorization_petition_t" true
      ∷ event offset_of 130 "authorization_judgement" "es_event_authorization_judgement_t" true
      ∷ event offset_of 131 "sudo" "es_event_sudo_t" true
      ∷ event offset_of 132 "od_group_add" "es_event_od_group_add_t" true
      ∷ event offset_of 133 "od_group_remove" "es_event_od_group_remove_t" true
      ∷ event offset_of 134 "od_group_set" "es_event_od_group_set_t" true
      ∷ event offset_of 135 "od_modify_password" "es_event_od_modify_password_t" true
      ∷ event offset_of 136 "od_disable_user" "es_event_od_disable_user_t" true
      ∷ event offset_of 137 "od_enable_user" "es_event_od_enable_user_t" true
      ∷ event offset_of 138 "od_attribute_value_add" "es_event_od_attribute_value_add_t" true
      ∷ event offset_of 139 "od_attribute_value_remove" "es_event_od_attribute_value_remove_t" true
      ∷ event offset_of 140 "od_attribute_set" "es_event_od_attribute_set_t" true
      ∷ event offset_of 141 "od_create_user" "es_event_od_create_user_t" true
      ∷ event offset_of 142 "od_create_group" "es_event_od_create_group_t" true
      ∷ event offset_of 143 "od_delete_user" "es_event_od_delete_user_t" true
      ∷ event offset_of 144 "od_delete_group" "es_event_od_delete_group_t" true
      ∷ event offset_of 145 "xpc_connect" "es_event_xpc_connect_t" true
      ∷ event offset_of 146 "gatekeeper_user_override" "es_event_gatekeeper_user_override_t" true
      ∷ event offset_of 147 "tcc_modify" "es_event_tcc_modify_t" true
      ∷ []
