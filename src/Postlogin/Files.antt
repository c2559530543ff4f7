-- ===== src/Postlogin/Files.antt =====
-- postlogin.c: the commands on directories and files.
pub mod Accounts
use dragonsunited_minecraft.Base.{
  ℕ, ◌+◌, ◌-◌, Bool, true, false, not, ◌&&◌, ◌||◌, List, [], ◌∷◌, ◌++◌, Option, none, some, ltb,
  ◌==◌, if◌then◌else◌, length, Bytes, text,
}
use dragonsunited_minecraft.Files.{is_regfile}
use dragonsunited_minecraft.Filter.{vsf_access_check_file}
use dragonsunited_minecraft.Postlogin.Paths.{resolve_tilde, prepend_path_to_filename}
use dragonsunited_minecraft.Postlogin.Simple.{vsf_banner_dir_changed}
use dragonsunited_minecraft.Run.{Run, ok, ◌>>=◌, ◌>>◌}
use dragonsunited_minecraft.Session.{
  Tunables, Host, Session, Stat, LogEntry, log_mkdir, log_rmdir, log_delete, log_rename, Event,
  chdir, mkdir, rmdir, unlink, rename, emit, attempt, vsf_cmdio_write,
}
use dragonsunited_minecraft.Session.Log.{vsf_log_start_entry, vsf_log_do_log}
use dragonsunited_minecraft.Str.Text.{str_isempty, str_replace_text}

abbrev pub permission_denied : Session → Session
permission_denied s = vsf_cmdio_write 550 (text "Permission denied.") s

module _ (t : Tunables) (h : Host) where
  -- The opening of a log entry for the path of a file.
  unfoldable pub log_path : LogEntry → Bytes → Session → Run Session
  unfolding vsf_log_start_entry
  log_path what path s = do
    s1 ← vsf_log_start_entry what s
    full ← prepend_path_to_filename t h s1 path
    ok (record s1 { log_str = full })

  -- With the argument's `~` resolved.
  unfoldable pub resolved : Session → Run Session
  resolved s = do arg ← resolve_tilde t h s s.ftp_arg_str; ok (record s { ftp_arg_str = arg })

  unfoldable pub cwd_done : Bool × Session → Run Session
  cwd_done (true, s) = do
    s1 ← vsf_banner_dir_changed t h 250 s
    ok (vsf_cmdio_write 250 (text "Directory successfully changed.") s1)
  cwd_done (false, s) = ok (vsf_cmdio_write 550 (text "Failed to change directory.") s)

  unfoldable pub handle_cwd : Session → Run Session
  unfolding resolved cwd_done
  handle_cwd s0 = do
    s ← resolved s0
    allowed ← vsf_access_check_file t.deny_file s.ftp_arg_str
    if allowed then cwd_done (attempt h (chdir s.ftp_arg_str) s) else ok (permission_denied s)

  unfoldable pub handle_cdup : Session → Run Session
  unfolding handle_cwd
  handle_cdup s = handle_cwd (record s { ftp_arg_str = text ".." })

  unfoldable pub mkd_done : Bool × Session → Run Session
  unfolding vsf_log_do_log
  mkd_done (false, s) = ok (vsf_cmdio_write 550 (text "Create directory operation failed.") s)
  mkd_done (true, s) = do
    let s1 = vsf_log_do_log true s
    full ← prepend_path_to_filename t h s1 s1.ftp_arg_str
    quoted ← str_replace_text full (text "\"") (text "\"\"")
    ok (vsf_cmdio_write 257 ((text "\"" ++ quoted) ++ text "\" created") s1)

  unfoldable pub handle_mkd : Session → Run Session
  unfolding resolved log_path mkd_done
  handle_mkd s0 = do
    s1 ← resolved s0
    s ← log_path log_mkdir s1.ftp_arg_str s1
    allowed ← vsf_access_check_file t.deny_file s.ftp_arg_str
    if allowed then mkd_done (attempt h (mkdir s.ftp_arg_str) s) else ok (permission_denied s)

  unfoldable pub rmd_done : Bool × Session → Run Session
  unfolding vsf_log_do_log
  rmd_done (false, s) = ok (vsf_cmdio_write 550 (text "Remove directory operation failed.") s)
  rmd_done (true, s) =
      ok (
        vsf_cmdio_write 250 (text "Remove directory operation successful.") (vsf_log_do_log true s))

  unfoldable pub handle_rmd : Session → Run Session
  unfolding resolved log_path rmd_done
  handle_rmd s0 = do
    s1 ← resolved s0
    s ← log_path log_rmdir s1.ftp_arg_str s1
    allowed ← vsf_access_check_file t.deny_file s.ftp_arg_str
    if allowed then rmd_done (attempt h (rmdir s.ftp_arg_str) s) else ok (permission_denied s)

  unfoldable pub dele_done : Bool × Session → Run Session
  unfolding vsf_log_do_log
  dele_done (false, s) = ok (vsf_cmdio_write 550 (text "Delete operation failed.") s)
  dele_done (true, s) =
      ok (vsf_cmdio_write 250 (text "Delete operation successful.") (vsf_log_do_log true s))

  unfoldable pub handle_dele : Session → Run Session
  unfolding resolved log_path dele_done
  handle_dele s0 = do
    s1 ← resolved s0
    s ← log_path log_delete s1.ftp_arg_str s1
    allowed ← vsf_access_check_file t.deny_file s.ftp_arg_str
    if allowed then dele_done (attempt h (unlink s.ftp_arg_str) s) else ok (permission_denied s)

  unfoldable pub rnfr_found : Session → Option Stat → Run Session
  unfolding log_path
  rnfr_found s (some st) = ok (
      vsf_cmdio_write 350 (text "Ready for RNTO.") (record s { rnfr_filename_str = s.ftp_arg_str }))
  rnfr_found s none = do
    s1 ← log_path log_rename s.ftp_arg_str s
    ok (vsf_cmdio_write 550 (text "RNFR command failed.") s1)

  unfoldable pub rnfr_denied : Session → Run Session
  unfolding log_path
  rnfr_denied s = do s1 ← log_path log_rename s.ftp_arg_str s; ok (permission_denied s1)

  unfoldable pub handle_rnfr : Session → Run Session
  unfolding resolved rnfr_found rnfr_denied
  handle_rnfr s0 = do
    s ← resolved (record s0 { rnfr_filename_str = [] })
    allowed ← vsf_access_check_file t.deny_file s.ftp_arg_str
    if allowed then rnfr_found s (h.stat s.events s.ftp_arg_str) else rnfr_denied s

  unfoldable pub rnto_done : Bool × Session → Run Session
  unfolding vsf_log_do_log
  rnto_done (false, s) =
      ok (vsf_cmdio_write 550 (text "Rename failed.") (record s { rnfr_filename_str = [] }))
  rnto_done (true, s) = ok (
      vsf_cmdio_write 250 (text "Rename successful.")
        (vsf_log_do_log true (record s { rnfr_filename_str = [] })))

  unfoldable pub handle_rnto : Session → Run Session
  unfolding resolved log_path rnto_done
  handle_rnto s0 =
      let renamed : Run Session = (do
        s1 ← resolved s0
        s2 ← log_path log_rename s1.rnfr_filename_str s1
        full ← prepend_path_to_filename t h s2 s2.ftp_arg_str
        let s = record s2 { log_str = (s2.log_str ++ b' ' ∷ []) ++ full }
        allowed ← vsf_access_check_file t.deny_file s.ftp_arg_str
        if allowed
            then rnto_done (attempt h (rename s.rnfr_filename_str s.ftp_arg_str) s)
            else ok (permission_denied s)) in
      if str_isempty s0.rnfr_filename_str
      then ok (vsf_cmdio_write 503 (text "RNFR required first.") s0)
      else renamed

  unfoldable pub size_of : Session → Option Stat → Session
  size_of s none = vsf_cmdio_write 550 (text "Could not get file size.") s
  size_of s (some st) =
      if is_regfile st.kind
      then vsf_cmdio_write 213 (h.ulong_to_str st.size) s
      else vsf_cmdio_write 550 (text "Could not get file size.") s

  unfoldable pub handle_size : Session → Run Session
  unfolding resolved size_of
  handle_size s0 = do
    s ← resolved s0
    allowed ← vsf_access_check_file t.deny_file s.ftp_arg_str
    ok (if allowed then size_of s (h.stat s.events s.ftp_arg_str) else permission_denied s)
