-- ===== src/Prelogin.antt =====
-- prelogin.c and ssl.c: the commands before a login, where FTP is enabled. The login is that of the
-- two process model: what the child asks for, the parent decides with privops.c.
pub mod Bools
pub mod Decides
pub mod User
mod Tests
use dragonsunited_minecraft.Base.{
  ℕ, ◌+◌, Bool, true, false, not, ◌&&◌, ◌||◌, List, [], ◌∷◌, ◌++◌, leb, if◌then◌else◌, Bytes, text,
}
use dragonsunited_minecraft.Postlogin.Simple.{handle_feat, handle_opts}
use dragonsunited_minecraft.Privops.{
  LoginResult, login_fail, login_anon, login_real, anonymous_name, vsf_privop_do_login,
}
use dragonsunited_minecraft.Run.{Run, ok, ◌>>=◌, ◌>>◌}
use dragonsunited_minecraft.Session.{Tunables, Host, Session, exit, emit, vsf_cmdio_write}
use dragonsunited_minecraft.Str.Cut.{str_upper}
use dragonsunited_minecraft.Str.Lines.{str_contains_line}
use dragonsunited_minecraft.Str.Text.{str_isempty, str_equal_text}

-- What a command comes to: the next command, the end of the process, or a login.
pub data Fate : Type 0 where
  goes_on exits : Session → Fate
  logged_in : LoginResult → Session → Fate

abbrev pub refuse : Bytes → Session → Session
refuse why s = vsf_cmdio_write 530 why s

-- A reply and the end of the process.
abbrev pub leave : Bytes → Session → Fate
leave why s = exits (emit (exit 0) (refuse why s))

abbrev pub no_user : Session → Session
no_user s = record s { user_str = [] }

module _ (t : Tunables) (h : Host) where
  -- The count of failures, and the user name emptied where the process goes on.
  unfoldable pub check_login_fails : Session → Fate
  check_login_fails s =
      let s1 = record s { login_fails = s.login_fails + 1 } in
      if leb t.max_login_fails s1.login_fails
      then exits (emit (exit 0) s1)
      else goes_on (no_user s1)

  unfoldable pub login_answered : LoginResult × Session → Fate
  unfolding check_login_fails
  login_answered (login_fail, s) = check_login_fails (refuse (text "Login incorrect.") s)
  login_answered (login_anon, s) = logged_in login_anon (record s { is_anonymous = true })
  login_answered (login_real, s) = logged_in login_real s

  unfoldable pub handle_pass_command : Session → Run Fate
  unfolding login_answered
  handle_pass_command s =
      let asked : Run Fate = (do
        r ← vsf_privop_do_login t h s s.ftp_arg_str
        ok (login_answered r)) in
      if str_isempty s.user_str
      then ok (goes_on (vsf_cmdio_write 503 (text "Login with USER first.") s))
      else asked

  -- With every test passed.
  unfoldable pub user_accepted : Session → Bool → Run Fate
  unfolding handle_pass_command
  user_accepted s is_anon =
      let faked = handle_pass_command (record s { ftp_arg_str = text "<no password>" }) in
      let asks = goes_on (vsf_cmdio_write 331 (text "Please specify the password.") s) in
      if is_anon && t.no_anon_password then faked else ok asks

  unfoldable pub user_listed : Session → Bool → Bool → Run Fate
  unfolding user_accepted check_login_fails
  user_listed s is_anon located =
      let accepted = user_accepted s is_anon in
      if (located && t.userlist_deny) || (not located && not t.userlist_deny)
      then ok (check_login_fails (refuse (text "Permission denied.") s))
      else accepted

  unfoldable pub user_checked : Session → Bool → Run Fate
  unfolding user_listed
  user_checked s is_anon =
      let listed : Run Fate = (do
        located ← str_contains_line s.userlist_str s.user_str
        user_listed s is_anon located) in
      let accepted = user_accepted s is_anon in if t.userlist_enable then listed else accepted

  unfoldable pub handle_user_command : Session → Run Fate
  unfolding anonymous_name user_checked
  handle_user_command s0 =
      let is_anon = anonymous_name s0.ftp_arg_str in
      let s = record s0 { user_str = s0.ftp_arg_str; ftp_arg_str = str_upper s0.ftp_arg_str } in
      let plain = t.ssl_enable && not s.control_use_ssl in
      let checked = user_checked s is_anon in
      if not t.local_enable && not is_anon
      then ok (goes_on (no_user (refuse (text "This FTP server is anonymous only.") s)))
      else if is_anon
          && (s.control_use_ssl && (not t.allow_anon_ssl && not t.force_anon_logins_ssl))
      then ok (goes_on (no_user (refuse (text "Anonymous sessions may not use encryption.") s)))
      else if plain && (not is_anon && t.force_local_logins_ssl)
      then ok (leave (text "Non-anonymous sessions must use encryption.") s)
      else if plain && (is_anon && t.force_anon_logins_ssl)
      then ok (leave (text "Anonymous sessions must use encryption.") s)
      else checked

  unfoldable pub ssl_control_handshake : Session → Fate
  ssl_control_handshake s =
      let why = text "Negotiation failed: " ++ h.ssl_error s.events in
      if h.handshake s.events
      then goes_on (record s { control_use_ssl = true })
      else exits (emit (exit 0) (vsf_cmdio_write 421 why s))

  abbrev pub protected : Bool → Fate → Fate
  protected true (goes_on s) = goes_on (record s { data_use_ssl = true })
  protected true (exits s) = exits s
  protected true (logged_in r s) = logged_in r s
  protected false f = f

  unfoldable pub handle_auth : Session → Fate
  unfolding ssl_control_handshake
  handle_auth s0 =
      let s = record s0 { ftp_arg_str = str_upper s0.ftp_arg_str } in
      let is : Bytes → Bool = λ name. str_equal_text s.ftp_arg_str name in
      let shaken =
        ssl_control_handshake (vsf_cmdio_write 234 (text "Proceed with negotiation.") s) in
      if is (text "TLS") || (is (text "TLS-C") || (is (text "SSL") || is (text "TLS-P")))
      then protected (is (text "SSL") || is (text "TLS-P")) shaken
      else goes_on (vsf_cmdio_write 504 (text "Unknown AUTH type.") s)

  unfoldable pub handle_pbsz : Session → Session
  handle_pbsz s =
      if not s.control_use_ssl
      then vsf_cmdio_write 503 (text "PBSZ needs a secure connection.") s
      else vsf_cmdio_write 200 (text "PBSZ set to 0.") s

  unfoldable pub handle_prot : Session → Session
  handle_prot s0 =
      let s = record s0 { ftp_arg_str = str_upper s0.ftp_arg_str } in
      let is : Bytes → Bool = λ name. str_equal_text s.ftp_arg_str name in
      if not s.control_use_ssl
      then vsf_cmdio_write 503 (text "PROT needs a secure connection.") s
      else if is (text "C")
      then vsf_cmdio_write 200 (text "PROT now Clear.") (record s { data_use_ssl = false })
      else if is (text "P")
      then vsf_cmdio_write 200 (text "PROT now Private.") (record s { data_use_ssl = true })
      else if is (text "S") || is (text "E")
      then vsf_cmdio_write 536 (text "PROT not supported.") s
      else vsf_cmdio_write 504 (text "PROT not recognized.") s

  abbrev answered : Run Session → Run Fate
  answered r = do s ← r; ok (goes_on s)

  -- The chain of tests of `parse_username_password`.
  unfoldable pub prelogin_command : Session → Run Fate
  unfolding handle_user_command handle_auth handle_pbsz handle_prot
  prelogin_command s =
      let is : Bytes → Bool = λ name. str_equal_text s.ftp_cmd_str name in
      let user = handle_user_command s in
      let pass = handle_pass_command s in
      if is (text "USER")
      then user
      else if is (text "PASS")
      then pass
      else if is (text "QUIT")
      then ok (exits (emit (exit 0) (vsf_cmdio_write 221 (text "Goodbye.") s)))
      else if is (text "FEAT")
      then answered (handle_feat t s)
      else if is (text "OPTS")
      then answered (handle_opts s)
      else if t.ssl_enable && (is (text "AUTH") && not s.control_use_ssl)
      then ok (handle_auth s)
      else if t.ssl_enable && is (text "PBSZ")
      then ok (goes_on (handle_pbsz s))
      else if t.ssl_enable && is (text "PROT")
      then ok (goes_on (handle_prot s))
      else if str_isempty s.ftp_cmd_str && str_isempty s.ftp_arg_str
      then ok (goes_on s)
      else ok (goes_on (refuse (text "Please login with USER and PASS.") s))
