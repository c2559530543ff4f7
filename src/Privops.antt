-- ===== src/Privops.antt =====
-- privops.c: the decision on a login. The check of a user with a password is the system's.
pub mod Sockets
use dragonsunited_minecraft.Base.{
  Bool, true, false, not, ◌&&◌, ◌||◌, [], ltb, ◌==◌, if◌then◌else◌, length, Bytes, text,
}
use dragonsunited_minecraft.Run.{Run, ok, stop, die, ◌>>=◌}
use dragonsunited_minecraft.Session.{Tunables, Host, Session, log_login, login, attempt}
use dragonsunited_minecraft.Session.Log.{vsf_log_start_entry, vsf_log_do_log}
use dragonsunited_minecraft.Str.Cut.{
  str_get_char_at, str_upper, str_replace_char, str_contains_space, str_contains_unprintable,
}
use dragonsunited_minecraft.Str.Lines.{str_contains_line}
use dragonsunited_minecraft.Str.Text.{str_isempty, str_equal_text}
use dragonsunited_minecraft.Sysutil.{vsf_sysutil_isalnum}

-- `kVSFLoginNull` is what a variable holds before the decision, and is never its result.
pub data LoginResult : Type 0 where
  login_fail login_anon login_real : LoginResult

-- A name that stands for an anonymous user.
unfoldable pub anonymous_name : Bytes → Bool
anonymous_name user =
    let upper = str_upper user in
    str_equal_text upper (text "FTP") || str_equal_text upper (text "ANONYMOUS")

-- What is kept away from the system's check.
unfoldable pub dodgy : Bytes → Bytes → Run Bool
dodgy user pass =
    let first : Run Bool = (do
      c ← str_get_char_at user 0
      ok (
          (not (vsf_sysutil_isalnum c) && (not (c == b'_') && not (c == b'.')))
          || (str_contains_space user
              || str_contains_unprintable user
              || ltb 128 (length pass)))) in
    if length user == 0 || ltb 128 (length user) then ok true else first

-- `str_contains_line`, asked only where the list is not empty.
abbrev pub in_lines : Bytes → Bytes → Run Bool
in_lines lines line = if str_isempty lines then ok false else str_contains_line lines line

module _ (t : Tunables) (h : Host) where
  -- The identity of an anonymous user, for the log.
  unfoldable pub identity : Bytes → Bytes
  identity pass =
      let shown = if str_isempty pass then text "?" else pass in
      str_replace_char (str_replace_char shown b' ' b'_') b'\n' b'?'

  abbrev pub anonymous : Session → Bytes → Session
  anonymous s pass = record s {
    anon_pass_str = identity pass;
    user_str = t.ftp_username;
    banned_email_str = [];
    email_passwords_str = [];
  }

  unfoldable pub handle_anonymous_login : Session → Bytes → Run (LoginResult × Session)
  unfolding identity
  handle_anonymous_login s pass =
      let rest : Run (LoginResult × Session) = (do
        known ← in_lines s.email_passwords_str pass
        let unknown = not (str_isempty s.email_passwords_str) && (not known || str_isempty pass)
        ok (if unknown then (login_fail, s) else (login_anon, anonymous s pass))) in
      do banned ← in_lines s.banned_email_str pass; if banned then ok (login_fail, s) else rest

  abbrev pub checked : Bool × Session → LoginResult × Session
  checked (true, s) = (login_real, s)
  checked (false, s) = (login_fail, s)

  unfoldable pub handle_local_login : Session → Bytes → Run (LoginResult × Session)
  handle_local_login s pass = ok (checked (attempt h (login s.user_str pass) s))

  unfoldable pub handle_login : Session → Bytes → Run (LoginResult × Session)
  unfolding dodgy anonymous_name handle_anonymous_login handle_local_login
  handle_login s pass =
      let anon = handle_anonymous_login s pass in
      let real : Run (LoginResult × Session) =
        if not t.local_enable then stop die else handle_local_login s pass in
      do
        bad ← dodgy s.user_str pass
        if bad
            then ok (login_fail, s)
            else if t.anonymous_enable && anonymous_name s.user_str
            then anon
            else real

  abbrev pub succeeded : LoginResult → Bool
  succeeded login_fail = false
  succeeded login_anon = true
  succeeded login_real = true

  unfoldable pub vsf_privop_do_login : Session → Bytes → Run (LoginResult × Session)
  unfolding handle_login vsf_log_start_entry vsf_log_do_log
  vsf_privop_do_login s pass = do
    (result, s1) ← handle_login s pass
    s2 ← vsf_log_start_entry log_login s1
    ok (result, vsf_log_do_log (succeeded result) s2)
