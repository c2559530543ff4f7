-- ===== src/Parseconf/Tables.antt =====
-- parseconf.c: the tables of names.
use dragonsunited_minecraft.Base.{List, [], ◌∷◌, Bytes, text}

unfoldable pub parseconf_str_array : List Bytes
parseconf_str_array =
    text "secure_chroot_dir"
    ∷ text "ftp_username"
    ∷ text "chown_username"
    ∷ text "xferlog_file"
    ∷ text "vsftpd_log_file"
    ∷ text "message_file"
    ∷ text "nopriv_user"
    ∷ text "ftpd_banner"
    ∷ text "banned_email_file"
    ∷ text "chroot_list_file"
    ∷ text "pam_service_name"
    ∷ text "guest_username"
    ∷ text "userlist_file"
    ∷ text "anon_root"
    ∷ text "local_root"
    ∷ text "banner_file"
    ∷ text "pasv_address"
    ∷ text "listen_address"
    ∷ text "user_config_dir"
    ∷ text "listen_address6"
    ∷ text "cmds_allowed"
    ∷ text "hide_file"
    ∷ text "deny_file"
    ∷ text "user_sub_token"
    ∷ text "email_password_file"
    ∷ text "rsa_cert_file"
    ∷ text "dsa_cert_file"
    ∷ text "ssl_ciphers"
    ∷ text "rsa_private_key_file"
    ∷ text "dsa_private_key_file"
    ∷ text "ca_certs_file"
    ∷ text "cmds_denied"
    ∷ []

unfoldable pub parseconf_bool_array : List Bytes
parseconf_bool_array =
    text "anonymous_enable"
    ∷ text "utf8_filesystem"
    ∷ text "local_enable"
    ∷ text "pasv_enable"
    ∷ text "port_enable"
    ∷ text "chroot_local_user"
    ∷ text "write_enable"
    ∷ text "anon_upload_enable"
    ∷ text "anon_mkdir_write_enable"
    ∷ text "anon_other_write_enable"
    ∷ text "chown_uploads"
    ∷ text "connect_from_port_20"
    ∷ text "xferlog_enable"
    ∷ text "dirmessage_enable"
    ∷ text "anon_world_readable_only"
    ∷ text "async_abor_enable"
    ∷ text "ascii_upload_enable"
    ∷ text "ascii_download_enable"
    ∷ text "one_process_model"
    ∷ text "xferlog_std_format"
    ∷ text "pasv_promiscuous"
    ∷ text "deny_email_enable"
    ∷ text "chroot_list_enable"
    ∷ text "setproctitle_enable"
    ∷ text "text_userdb_names"
    ∷ text "ls_recurse_enable"
    ∷ text "log_ftp_protocol"
    ∷ text "guest_enable"
    ∷ text "userlist_enable"
    ∷ text "userlist_deny"
    ∷ text "use_localtime"
    ∷ text "check_shell"
    ∷ text "hide_ids"
    ∷ text "listen"
    ∷ text "port_promiscuous"
    ∷ text "passwd_chroot_enable"
    ∷ text "no_anon_password"
    ∷ text "tcp_wrappers"
    ∷ text "use_sendfile"
    ∷ text "force_dot_files"
    ∷ text "listen_ipv6"
    ∷ text "dual_log_enable"
    ∷ text "syslog_enable"
    ∷ text "background"
    ∷ text "virtual_use_local_privs"
    ∷ text "session_support"
    ∷ text "download_enable"
    ∷ text "dirlist_enable"
    ∷ text "chmod_enable"
    ∷ text "secure_email_list_enable"
    ∷ text "run_as_launching_user"
    ∷ text "no_log_lock"
    ∷ text "ssl_enable"
    ∷ text "allow_anon_ssl"
    ∷ text "force_local_logins_ssl"
    ∷ text "force_local_data_ssl"
    ∷ text "ssl_sslv2"
    ∷ text "ssl_sslv3"
    ∷ text "ssl_tlsv1"
    ∷ text "tilde_user_enable"
    ∷ text "force_anon_logins_ssl"
    ∷ text "force_anon_data_ssl"
    ∷ text "mdtm_write"
    ∷ text "lock_upload_files"
    ∷ text "pasv_addr_resolve"
    ∷ text "debug_ssl"
    ∷ text "require_cert"
    ∷ text "validate_cert"
    ∷ text "strict_ssl_read_eof"
    ∷ text "strict_ssl_write_shutdown"
    ∷ text "ssl_request_cert"
    ∷ text "delete_failed_uploads"
    ∷ text "implicit_ssl"
    ∷ text "sandbox"
    ∷ text "require_ssl_reuse"
    ∷ text "isolate"
    ∷ text "isolate_network"
    ∷ text "ftp_enable"
    ∷ text "http_enable"
    ∷ []

unfoldable pub parseconf_uint_array : List Bytes
parseconf_uint_array =
    text "accept_timeout"
    ∷ text "connect_timeout"
    ∷ text "local_umask"
    ∷ text "anon_umask"
    ∷ text "ftp_data_port"
    ∷ text "idle_session_timeout"
    ∷ text "data_connection_timeout"
    ∷ text "pasv_min_port"
    ∷ text "pasv_max_port"
    ∷ text "anon_max_rate"
    ∷ text "local_max_rate"
    ∷ text "listen_port"
    ∷ text "max_clients"
    ∷ text "file_open_mode"
    ∷ text "max_per_ip"
    ∷ text "trans_chunk_size"
    ∷ text "delay_failed_login"
    ∷ text "delay_successful_login"
    ∷ text "max_login_fails"
    ∷ text "chown_upload_mode"
    ∷ []
