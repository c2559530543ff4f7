-- ===== src/Postlogin/Tests.antt =====
-- Runs of the commands, and the theorems at concrete sessions.
use dragonsunited_minecraft.Base.{
  ◌≡◌, refl, arith, [], ◌∷◌, some, none, true, false, if◌then◌else◌, length, bytes_eq, text,
}
use dragonsunited_minecraft.Base.Int.{pos}
use dragonsunited_minecraft.Files.{Files}
use dragonsunited_minecraft.Ipaddr.{vsf_sysutil_parse_ipv6, hex_loop, hex_digit}
use dragonsunited_minecraft.Str.Text.{str_isempty, str_split_char, str_locate_char, str_split_text}
use dragonsunited_minecraft.Sysutil.{vsf_sysutil_toupper}
use dragonsunited_minecraft.Postlogin.Data.Active.{either_active_both}
use dragonsunited_minecraft.Postlogin.Data.Eprt.{TooShort, handle_eprt-Ends}
use dragonsunited_minecraft.Postlogin.Data.Passive.{Passive, handle_pasv-Ends}
use dragonsunited_minecraft.Postlogin.Data.Ports.{
  Ends, WellFormed, own_port, handle_port-WellFormed,
}
use dragonsunited_minecraft.Postlogin.Data.{
  port_active, pasv_active, handle_port, handle_eprt, handle_pasv,
  vsf_sysutil_sockaddr_set_ipv6addr,
}
use dragonsunited_minecraft.Postlogin.Dispatch
use dragonsunited_minecraft.Postlogin.Dispatch.Names.{allows, process_command-allows}
use dragonsunited_minecraft.Postlogin.Files.Accounts.{Accounted, changes-Accounted}
use dragonsunited_minecraft.Postlogin.Files.{handle_mkd, handle_rmd, handle_dele}
use dragonsunited_minecraft.Postlogin.Paths.Meaning.{full_path, expanded, paths_lem}
use dragonsunited_minecraft.Postlogin.Paths.{resolve_tilde, prepend_path_to_filename}
use dragonsunited_minecraft.Postlogin.Site.Send.{Waiting, outcome, uins_send-outcome}
use dragonsunited_minecraft.Postlogin.Site.{uins_send}
use dragonsunited_minecraft.Run.{ok, stop, overrun, undefined, out_of_fuel}
use dragonsunited_minecraft.Session.{
  Tunables, Host, Session, Sockaddr, Connection, connected, log_mkdir, log_rmdir, log_delete, mkdir,
  rmdir, unlink,
}

abbrev pub settings : Tunables
settings = record {
  write_enable = true;
  anon_upload_enable = false;
  anon_mkdir_write_enable = false;
  anon_other_write_enable = false;
  chmod_enable = true;
  dirlist_enable = true;
  download_enable = true;
  pasv_enable = true;
  port_enable = true;
  port_promiscuous = false;
  ssl_enable = false;
  force_local_data_ssl = true;
  force_anon_data_ssl = false;
  tilde_user_enable = false;
  local_enable = true;
  anonymous_enable = true;
  allow_anon_ssl = false;
  force_anon_logins_ssl = false;
  force_local_logins_ssl = true;
  userlist_enable = false;
  userlist_deny = true;
  no_anon_password = false;
  ftp_enable = true;
  http_enable = false;
  mdtm_write = true;
  max_login_fails = 3;
  max_clients = 2000;
  max_per_ip = 50;
  cmds_allowed = none;
  cmds_denied = some (text "DELE,RMD");
  deny_file = some (text "*.key");
  pasv_address = none;
  dirmessage_enable = false;
  message_file = text ".message";
  utf8_filesystem = false;
  sslv2 = false;
  sslv3 = false;
  tlsv1 = true;
  require_ssl_reuse = true;
  ftp_username = text "ftp";
}

abbrev no_files : Files
no_files = record { open_file = λ p. none; stat = λ p. none }

-- A host on which every call succeeds; numbers are not read from texts.
abbrev pub host : Connection → Host
host c = record {
  getcwd = λ es. text "/srv";
  succeeds = λ es e. true;
  stat = λ es p. none;
  files = λ es. no_files;
  home_of = λ u. none;
  connect_result = λ es. c;
  handshake = λ es. true;
  ssl_error = λ es. [];
  listen_port = λ es. 5000;
  umask = λ es. 63;
  atoi = λ s. pos (length s);
  inet_ntop = λ a. text "10.0.0.1";
  inet_ntoa = λ b. text "10.0.0.1";
  inet_aton = λ s. none;
  ulong_to_str = λ n. text "5000";
  uint_to_octal = λ n. text "077";
}

abbrev client : Sockaddr
client = record { is_ipv6 = false; addr = 10 ∷ 0 ∷ 0 ∷ 9 ∷ []; port = 40000 }

abbrev pub session : Session
session = record {
  local_addr = record { is_ipv6 = false; addr = 10 ∷ 0 ∷ 0 ∷ 1 ∷ []; port = 21 };
  remote_addr = client;
  pasv_listening = true;
  port_sockaddr = none;
  is_anonymous = false;
  user_str = text "steve";
  restart_pos = 0;
  is_ascii = false;
  rnfr_filename_str = [];
  epsv_all = false;
  data_open = false;
  visited = [];
  log_type = none;
  log_str = [];
  ftp_cmd_str = text "DELE";
  ftp_arg_str = text "~/old.jar";
  home_str = text "/home/steve";
  control_use_ssl = false;
  data_use_ssl = false;
  userlist_str = [];
  banned_email_str = [];
  email_passwords_str = [];
  anon_pass_str = [];
  login_fails = 0;
  events = [];
}

process_command-allows_example :
    Dispatch.process_command settings session
    ≡ ok (
        if allows settings (text "DELE")
        then Dispatch.handler_of settings session
        else Dispatch.no_permission)
process_command-allows_example = process_command-allows settings session

-- A state that no command leaves behind.
abbrev torn : Session
torn = record session { port_sockaddr = some client }

neither_active : (port_active 9 torn ≡ stop out_of_fuel) × (pasv_active 9 torn ≡ stop out_of_fuel)
neither_active = either_active_both 9 torn refl

handle_port-WellFormed_example :
    (s' : Session) × (handle_port settings (host connected) session ≡ ok s')
    × WellFormed settings s'
handle_port-WellFormed_example = handle_port-WellFormed settings (host connected) session

abbrev six : Session
six = record session {
  local_addr = record { is_ipv6 = true; addr = []; port = 21 };
  ftp_arg_str = text "|xx|1f|x|";
}

-- The same with an address of eight groups.
abbrev whole : Session
whole = record six { ftp_arg_str = text "|xx|1:2:3:4:5:6:7:8|x|" }

handle_eprt-Ends_example :
    Ends settings overrun
      (TooShort settings (host connected) whole)
      (handle_eprt settings (host connected) whole)
handle_eprt-Ends_example = handle_eprt-Ends settings (host connected) whole

session-WellFormed : WellFormed settings session
unfolding own_port
session-WellFormed = record { one_kind = refl; own = refl }

handle_pasv-Ends_example :
    Passive settings (host connected) false (handle_pasv settings (host connected) session false)
handle_pasv-Ends_example =
    handle_pasv-Ends settings (host connected) session false session-WellFormed

session-Waiting : Waiting session
session-Waiting = record { one_kind = refl; active = refl; closed = refl }

uins_send-outcome_example : uins_send settings (host connected) session [] ≡ stop undefined
unfolding outcome
uins_send-outcome_example =
    uins_send-outcome settings (host connected) session [] session-Waiting refl

paths_lem_example :
    (resolve_tilde settings (host connected) session (text "~/a")
      ≡ ok (expanded settings (host connected) (text "/home/steve") (text "~/a")))
    × (prepend_path_to_filename settings (host connected) session (text "~/a")
        ≡ ok (full_path (text "/srv") (text "~/a")))
paths_lem_example = paths_lem settings (host connected) session (text "~/a")

changes-Accounted_example :
    let h = host connected in
    let full = full_path (text "/srv") in
    Accounted settings h session mkdir log_mkdir 257 full (handle_mkd settings h session)
    × Accounted settings h session rmdir log_rmdir 250 full (handle_rmd settings h session)
    × Accounted settings h session unlink log_delete 250 full (handle_dele settings h session)
changes-Accounted_example =
    changes-Accounted settings (host connected) session
      (omega arith, (omega arith, (omega arith, (omega arith, (omega arith, tt))))) refl

-- One group alone as an address is copied from behind its end.
eprt_short : handle_eprt settings (host connected) six ≡ stop overrun
unfolding handle_eprt str_isempty str_split_char vsf_sysutil_parse_ipv6 hex_loop hex_digit
    vsf_sysutil_toupper str_locate_char str_split_text vsf_sysutil_sockaddr_set_ipv6addr bytes_eq
eprt_short = refl

-- An address of sixteen bytes is taken, and here refused for its port.
eprt_whole : (s' : Session) × (handle_eprt settings (host connected) whole ≡ ok s')
unfolding handle_eprt str_isempty str_split_char vsf_sysutil_parse_ipv6 hex_loop hex_digit
    vsf_sysutil_toupper str_locate_char str_split_text vsf_sysutil_sockaddr_set_ipv6addr bytes_eq
eprt_whole = (_, refl)
