-- ===== src/Postlogin/Site.antt =====
-- postlogin.c: `SITE` with the commands of the modpacks, which call mcupdate.c.
pub mod Send
use dragonsunited_minecraft.Base.{
  ℕ, ◌+◌, ◌-◌, Bool, true, false, not, ◌&&◌, ◌||◌, List, [], ◌∷◌, ◌++◌, Option, none, some, ltb,
  ◌==◌, if◌then◌else◌, length, Bytes, text,
}
use dragonsunited_minecraft.Filter.{vsf_access_check_file}
use dragonsunited_minecraft.Mcupdate.{
  Status, done, no_modpack, no_version, listfile_error, mcu_get_latest_version,
  mcu_create_update_instructions,
}
use dragonsunited_minecraft.Postlogin.Data.{data_transfer_checks_ok}
use dragonsunited_minecraft.Postlogin.Files.{permission_denied}
use dragonsunited_minecraft.Postlogin.Paths.{resolve_tilde, prepend_path_to_filename}
use dragonsunited_minecraft.Postlogin.Transfer.{
  get_remote_transfer_fd, vsf_ftpdataio_dispose_transfer_fd,
}
use dragonsunited_minecraft.Run.{Run, ok, stop, undefined, ◌>>=◌, ◌>>◌}
use dragonsunited_minecraft.Session.{
  Tunables, Host, Session, log_chmod, log_update, chmod, set_umask, data_write, emit, attempt,
  vsf_cmdio_write,
}
use dragonsunited_minecraft.Session.Log.{vsf_log_start_entry, vsf_log_do_log}
use dragonsunited_minecraft.Str.Cut.{str_upper}
use dragonsunited_minecraft.Str.Text.{
  LocateResult, c_text, str_isempty, str_equal_text, str_locate_char, str_split_char,
}
use dragonsunited_minecraft.Sysutil.Numbers.{vsf_sysutil_octal_to_uint}

module _ (t : Tunables) (h : Host) where
  unfoldable pub chmod_done : Bool × Session → Session
  unfolding vsf_log_do_log
  chmod_done (true, s) = vsf_cmdio_write 200 (text "SITE CHMOD command ok.") (vsf_log_do_log true s)
  chmod_done (false, s) = vsf_cmdio_write 550 (text "SITE CHMOD command failed.") s

  unfoldable pub chmod_file : Session → Bytes → Bytes → Run Session
  unfolding vsf_log_start_entry chmod_done
  chmod_file s0 mode file0 = do
    file ← resolve_tilde t h s0 file0
    s1 ← vsf_log_start_entry log_chmod s0
    full ← prepend_path_to_filename t h s1 file
    let s = record s1 { log_str = (full ++ b' ' ∷ []) ++ mode }
    allowed ← vsf_access_check_file t.deny_file file
    let changed = chmod_done (attempt h (chmod file (vsf_sysutil_octal_to_uint (c_text mode))) s)
    ok (if allowed then changed else permission_denied s)

  unfoldable pub handle_site_chmod : Session → Bytes → Run Session
  unfolding chmod_file
  handle_site_chmod s arg =
      let usage = vsf_cmdio_write 500 (text "SITE CHMOD needs 2 arguments.") s in
      let on : Run Session = (do
        (mode, file) ← str_split_char arg b' '
        if str_isempty file then ok usage else chmod_file s mode file) in
      if str_isempty arg then ok usage else on

  unfoldable pub handle_site_umask : Session → Bytes → Session
  handle_site_umask s arg =
      let s1 = emit (set_umask (vsf_sysutil_octal_to_uint (c_text arg))) s in
      let now = text "Your current UMASK is " ++ h.uint_to_octal (h.umask s.events) in
      let new = text "UMASK set to " ++ h.uint_to_octal (h.umask s1.events) in
      if str_isempty arg then vsf_cmdio_write 200 now s else vsf_cmdio_write 200 new s1

  unfoldable pub vers_reply : Session → Bool × Bytes → Session
  vers_reply s (false, version) = vsf_cmdio_write 550 (text "Modpack not found.") s
  vers_reply s (true, version) = vsf_cmdio_write 216 (c_text version) s

  unfoldable pub handle_site_vers : Session → Bytes → Run Session
  unfolding vers_reply
  handle_site_vers s arg =
      let on : Run Session = (do
        r ← mcu_get_latest_version (h.files s.events) arg
        ok (vers_reply s r)) in
      if str_isempty arg
      then ok (vsf_cmdio_write 500 (text "Which modpack?") s)
      else if (str_locate_char arg b'/').found
      then ok (vsf_cmdio_write 500 (text "Illegal character.") s)
      else on

  -- What `trans_ret` holds: nothing is written to it where there is nothing to send.
  unfoldable pub send_instructions : Session → Bytes → Option Bool × Session
  send_instructions s instructions = if str_isempty instructions then (none, s) else (
    some (s.data_open && h.succeeds s.events (data_write instructions)),
    emit (data_write instructions) s,
  )

  unfoldable pub uins_end : Bool → Option Bool → Session → Run Session
  unfolding vsf_log_do_log
  uins_end disposed trans_ret s =
      let failed =
        vsf_cmdio_write 426 (text "Failure writing network stream.") (vsf_log_do_log false s) in
      let sent = vsf_cmdio_write 226 (text "Instructions send OK.") (vsf_log_do_log true s) in
      if not disposed
      then ok failed
      else elim trans_ret [ none ↦ stop undefined | some fine ↦ ok (if fine then sent else failed) ]

  -- The result of the data connection is not looked at.
  unfoldable pub uins_send : Session → Bytes → Run Session
  unfolding send_instructions uins_end
  uins_send s instructions = do
    (fd, s1) ← get_remote_transfer_fd t h s (text "Here comes the update instructions.")
    let (trans_ret, s2) = send_instructions s1 instructions
    (disposed, s3) ← vsf_ftpdataio_dispose_transfer_fd t h s2
    uins_end disposed trans_ret s3

  unfoldable pub uins_failed : Session → Bytes → Run Session
  unfolding vsf_log_do_log
  uins_failed s why = ok (vsf_cmdio_write 550 why (vsf_log_do_log false s))

  -- The `switch` on the result.
  unfoldable pub uins_result : Session → Status × Bytes → Run Session
  unfolding uins_failed uins_send
  uins_result s (no_modpack, instructions) = uins_failed s (text "Modpack not found.")
  uins_result s (no_version, instructions) = uins_failed s (text "Version not found.")
  uins_result s (listfile_error, instructions) = uins_failed s (text "Listfile error.")
  uins_result s (done, instructions) = uins_send s instructions

  -- With both arguments; `instr` is what an earlier request left in the static string.
  unfoldable pub uins_request : Session → Bytes → Bytes → Bytes → Run Session
  unfolding vsf_log_start_entry uins_result
  uins_request s0 instr modpack version =
      let on : Session → Run Session = λ s. (do
        s1 ← vsf_log_start_entry log_update s
        let logged = ((text "Modpack: " ++ modpack) ++ text ", Version: ") ++ version
        let s2 = record s1 { log_str = logged }
        r ← mcu_create_update_instructions (h.files s2.events) instr modpack version
        uins_result s2 r) in
      do (checked, s) ← data_transfer_checks_ok t h s0; if checked then on s else ok s

  unfoldable pub handle_site_uins : Session → Bytes → Bytes → Run Session
  unfolding uins_request
  handle_site_uins s instr arg =
      let usage = vsf_cmdio_write 500 (text "SITE UINS needs 2 arguments.") s in
      let on : Run Session = (do
        (modpack, version) ← str_split_char arg b' '
        if str_isempty version then ok usage else uins_request s instr modpack version) in
      if str_isempty arg
      then ok usage
      else if (str_locate_char arg b'/').found
      then ok (vsf_cmdio_write 500 (text "Illegal character.") s)
      else on

  abbrev pub site_help : Bytes
  site_help =
      if t.write_enable && t.chmod_enable
      then text "CHMOD UMASK VERS UINS HELP"
      else text "UMASK VERS UINS HELP"

  unfoldable pub handle_site : Session → Bytes → Run Session
  unfolding handle_site_chmod handle_site_umask handle_site_vers handle_site_uins
  handle_site s0 instr = do
    (cmd, args) ← str_split_char s0.ftp_arg_str b' '
    let s = record s0 { ftp_arg_str = str_upper cmd }
    if t.write_enable && (t.chmod_enable && str_equal_text s.ftp_arg_str (text "CHMOD"))
        then handle_site_chmod s args
        else if str_equal_text s.ftp_arg_str (text "UMASK")
        then ok (handle_site_umask s args)
        else if str_equal_text s.ftp_arg_str (text "VERS")
        then handle_site_vers s args
        else if str_equal_text s.ftp_arg_str (text "UINS")
        then handle_site_uins s instr args
        else if str_equal_text s.ftp_arg_str (text "HELP")
        then ok (vsf_cmdio_write 214 site_help s)
        else ok (vsf_cmdio_write 500 (text "Unknown SITE command.") s)
