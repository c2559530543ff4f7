-- ===== src/Session.antt =====
-- session.h and tunables.h, as far as the login and the commands use them, and what a session does
-- to the world as a list of events, the newest first. The operating system is a parameter: what it
-- answers may depend on all that has happened. A reply that the network does not take stops the
-- process, and is not in the model.
pub mod Log
use dragonsunited_minecraft.Base.{
  ℕ, Bool, true, false, not, List, [], ◌∷◌, ◌++◌, Option, none, some, ◌==◌, if◌then◌else◌, Bytes,
  text,
}
use dragonsunited_minecraft.Base.Int.{ℤ}
use dragonsunited_minecraft.Files.{Kind, Files}

-- The settings that are read here. A text that may be NULL is an option.
pub record Tunables : Type 0 where
  pub write_enable : Bool
  pub anon_upload_enable : Bool
  pub anon_mkdir_write_enable : Bool
  pub anon_other_write_enable : Bool
  pub chmod_enable : Bool
  pub dirlist_enable : Bool
  pub download_enable : Bool
  pub pasv_enable : Bool
  pub port_enable : Bool
  pub port_promiscuous : Bool
  pub ssl_enable : Bool
  pub force_local_data_ssl : Bool
  pub force_anon_data_ssl : Bool
  pub tilde_user_enable : Bool
  pub local_enable : Bool
  pub anonymous_enable : Bool
  pub allow_anon_ssl : Bool
  pub force_anon_logins_ssl : Bool
  pub force_local_logins_ssl : Bool
  pub userlist_enable : Bool
  pub userlist_deny : Bool
  pub no_anon_password : Bool
  pub ftp_enable : Bool
  pub http_enable : Bool
  pub mdtm_write : Bool
  pub max_login_fails : ℕ
  pub max_clients : ℕ
  pub max_per_ip : ℕ
  pub cmds_allowed : Option Bytes
  pub cmds_denied : Option Bytes
  pub deny_file : Option Bytes
  pub pasv_address : Option Bytes
  pub dirmessage_enable : Bool
  pub message_file : Bytes
  pub utf8_filesystem : Bool
  pub sslv2 : Bool
  pub sslv3 : Bool
  pub tlsv1 : Bool
  pub require_ssl_reuse : Bool
  pub ftp_username : Bytes

-- `struct vsf_sysutil_sockaddr`: the family, the address and the port.
pub record Sockaddr : Type 0 where
  pub is_ipv6 : Bool
  pub addr : Bytes
  pub port : ℕ

pub data LogEntry : Type 0 where
  log_mkdir log_rmdir log_delete log_rename log_chmod log_update log_download log_upload log_login :
      LogEntry

-- What a session does, in the calls that the code makes.
pub data Event : Type 0 where
  -- a reply: the status, the separator and the text
  reply : ℕ → ℕ → Bytes → Event
  raw : Bytes → Event
  logged : Bool → LogEntry → Bytes → Event
  chdir mkdir rmdir unlink : Bytes → Event
  rename : Bytes → Bytes → Event
  chmod : Bytes → ℕ → Event
  set_umask : ℕ → Event
  -- the passive socket is opened or closed
  listen pasv_close : Event
  -- a data connection is asked for, data written to it, and it is closed
  connect : Event
  data_write : Bytes → Event
  dispose : Event
  -- a login is asked for, of a user with a password
  login : Bytes → Bytes → Event
  exit : ℕ → Event

pub record Stat : Type 0 where
  pub kind : Kind
  pub size : ℕ

-- How a data connection comes about; an address other than the client's is told apart.
pub data Connection : Type 0 where
  connected refused bad_address : Connection

-- The operating system, the network and the C library. `succeeds` is the result of a call, and
-- `home_of` the home directory of a user by `getpwnam`.
pub record Host : Type 0 where
  pub getcwd : List Event → Bytes
  pub succeeds : List Event → Event → Bool
  pub stat : List Event → Bytes → Option Stat
  pub files : List Event → Files
  pub home_of : Bytes → Option Bytes
  pub connect_result : List Event → Connection
  pub handshake : List Event → Bool
  pub ssl_error : List Event → Bytes
  pub listen_port : List Event → ℕ
  pub umask : List Event → ℕ
  pub atoi : Bytes → ℤ
  pub inet_ntop : Sockaddr → Bytes
  pub inet_ntoa : Bytes → Bytes
  pub inet_aton : Bytes → Option Bytes
  pub ulong_to_str : ℕ → Bytes
  pub uint_to_octal : ℕ → Bytes

-- `struct vsf_session`
pub record Session : Type 0 where
  pub local_addr : Sockaddr
  pub remote_addr : Sockaddr
  pub pasv_listening : Bool
  pub port_sockaddr : Option Sockaddr
  pub is_anonymous : Bool
  pub user_str : Bytes
  pub restart_pos : ℕ
  pub is_ascii : Bool
  pub rnfr_filename_str : Bytes
  pub epsv_all : Bool
  pub data_open : Bool
  pub visited : List Bytes
  pub log_type : Option LogEntry
  pub log_str : Bytes
  pub ftp_cmd_str : Bytes
  pub ftp_arg_str : Bytes
  pub home_str : Bytes
  pub control_use_ssl : Bool
  pub data_use_ssl : Bool
  pub userlist_str : Bytes
  pub banned_email_str : Bytes
  pub email_passwords_str : Bytes
  pub anon_pass_str : Bytes
  pub login_fails : ℕ
  pub events : List Event

abbrev pub emit : Event → Session → Session
emit e s = record s { events = e ∷ s.events }

-- `vsf_cmdio_write` and `vsf_cmdio_write_str`
abbrev pub vsf_cmdio_write : ℕ → Bytes → Session → Session
vsf_cmdio_write status t s = emit (reply status b' ' t) s

abbrev pub vsf_cmdio_write_hyphen : ℕ → Bytes → Session → Session
vsf_cmdio_write_hyphen status t s = emit (reply status b'-' t) s

abbrev pub vsf_cmdio_write_raw : Bytes → Session → Session
vsf_cmdio_write_raw t s = emit (raw t) s

-- A system call with its result.
abbrev pub attempt : Host → Event → Session → Bool × Session
attempt h e s = (h.succeeds s.events e, emit e s)
