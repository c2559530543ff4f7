-- ===== src/Postlogin/Simple.antt =====
-- postlogin.c, opts.c, features.c and banner.c: the commands that only answer or set a variable.
use dragonsunited_minecraft.Base.{
  ℕ, zero, suc, Bool, true, false, not, ◌&&◌, ◌||◌, List, [], ◌∷◌, ◌++◌, ltb, if◌then◌else◌, length,
  Bytes, text,
}
use dragonsunited_minecraft.Files.{str_fileread}
use dragonsunited_minecraft.Mcupdate.{contents}
use dragonsunited_minecraft.Run.{Run, ok, stop, out_of_fuel, ◌>>=◌}
use dragonsunited_minecraft.Session.{
  Tunables, Host, Session, vsf_cmdio_write, vsf_cmdio_write_hyphen, vsf_cmdio_write_raw,
}
use dragonsunited_minecraft.Str.Cut.{str_upper}
use dragonsunited_minecraft.Str.Lines.{str_getline}
use dragonsunited_minecraft.Str.Text.{c_text, str_equal, str_equal_text, str_replace_text}
use dragonsunited_minecraft.Sysutil.Numbers.{vsf_sysutil_a_to_filesize_t}

unfoldable pub handle_type : Session → Run Session
handle_type s0 =
    let arg = str_upper s0.ftp_arg_str in
    let s = record s0 { ftp_arg_str = arg } in
    let binary =
      vsf_cmdio_write 200 (text "Switching to Binary mode.") (record s { is_ascii = false }) in
    let ascii =
      vsf_cmdio_write 200 (text "Switching to ASCII mode.") (record s { is_ascii = true }) in
    ok (
      if str_equal_text arg (text "I")
        || str_equal_text arg (text "L8")
        || str_equal_text arg (text "L 8")
      then binary
      else if str_equal_text arg (text "A") || str_equal_text arg (text "A N")
      then ascii
      else vsf_cmdio_write 500 (text "Unrecognised TYPE command.") s)

-- The branch for `STRU`.
unfoldable pub stru : Session → Run Session
stru s0 =
    let s = record s0 { ftp_arg_str = str_upper s0.ftp_arg_str } in
    ok (
      if str_equal_text s.ftp_arg_str (text "F")
      then vsf_cmdio_write 200 (text "Structure set to F.") s
      else vsf_cmdio_write 504 (text "Bad STRU command.") s)

-- The branch for `MODE`.
unfoldable pub mode : Session → Run Session
mode s0 =
    let s = record s0 { ftp_arg_str = str_upper s0.ftp_arg_str } in
    ok (
      if str_equal_text s.ftp_arg_str (text "S")
      then vsf_cmdio_write 200 (text "Mode set to S.") s
      else vsf_cmdio_write 504 (text "Bad MODE command.") s)

unfoldable pub handle_opts : Session → Run Session
handle_opts s0 =
    let s = record s0 { ftp_arg_str = str_upper s0.ftp_arg_str } in
    ok (
      if str_equal_text s.ftp_arg_str (text "UTF8 ON")
      then vsf_cmdio_write 200 (text "Always in UTF8 mode.") s
      else vsf_cmdio_write 501 (text "Option not understood.") s)

-- A line where a setting asks for it.
abbrev pub raw_if : Bool → Bytes → Session → Session
raw_if true line s = vsf_cmdio_write_raw line s
raw_if false line s = s

unfoldable pub handle_feat : Tunables → Session → Run Session
handle_feat t s0 = do
  let s1 = vsf_cmdio_write_hyphen 211 (text "Features:") s0
  let s2 = raw_if (t.ssl_enable && (t.sslv2 || t.sslv3)) (text " AUTH SSL\r\n") s1
  let s3 = raw_if (t.ssl_enable && t.tlsv1) (text " AUTH TLS\r\n") s2
  let s4 = raw_if t.utf8_filesystem (text " UTF8\r\n") s3
  let s5 = raw_if t.port_enable (text " EPRT\r\n") s4
  let s6 = raw_if t.pasv_enable (text " EPSV\r\n") s5
  let s7 = vsf_cmdio_write_raw (text " MDTM\r\n") s6
  let s8 = raw_if t.pasv_enable (text " PASV\r\n") s7
  let s9 = raw_if t.ssl_enable (text " PBSZ\r\n") s8
  let s10 = raw_if t.ssl_enable (text " PROT\r\n") s9
  let s11 = vsf_cmdio_write_raw (text " REST STREAM\r\n") s10
  let s12 = vsf_cmdio_write_raw (text " SIZE\r\n") s11
  let s13 = vsf_cmdio_write_raw (text " TVFS\r\n") s12
  let s14 = vsf_cmdio_write_raw (text " UTF8\r\n") s13
  ok (vsf_cmdio_write 211 (text "End") s14)

unfoldable pub handle_help : Session → Run Session
handle_help s0 = do
  let s1 = vsf_cmdio_write_hyphen 214 (text "The following commands are recognized.") s0
  let s2 =
      vsf_cmdio_write_raw
        (text " ABOR ACCT ALLO APPE CDUP CWD  DELE EPRT EPSV FEAT HELP LIST MDTM MKD\r\n") s1
  let s3 =
      vsf_cmdio_write_raw
        (text " MODE NLST NOOP OPTS PASS PASV PORT PWD  QUIT REIN REST RETR RMD  RNFR\r\n") s2
  let s4 =
      vsf_cmdio_write_raw
        (text " RNTO SITE SIZE SMNT STAT STOR STOU STRU SYST TYPE USER XCUP XCWD XMKD\r\n") s3
  let s5 = vsf_cmdio_write_raw (text " XPWD XRMD\r\n") s4
  ok (vsf_cmdio_write 214 (text "Help OK.") s5)

unfoldable pub handle_rest : Host → Session → Run Session
handle_rest h s =
    let val = vsf_sysutil_a_to_filesize_t (c_text s.ftp_arg_str) in
    let answer = (text "Restart position accepted (" ++ h.ulong_to_str val) ++ text ")." in
    ok (vsf_cmdio_write 350 answer (record s { restart_pos = val }))

unfoldable pub handle_logged_in_user : Session → Run Session
handle_logged_in_user s = ok (
    if s.is_anonymous
    then vsf_cmdio_write 530 (text "Can't change from guest user.") s
    else if str_equal s.user_str s.ftp_arg_str
    then vsf_cmdio_write 331 (text "Any password will do.") s
    else vsf_cmdio_write 530 (text "Can't change to another user.") s)

unfoldable pub handle_logged_in_pass : Session → Run Session
handle_logged_in_pass s = ok (vsf_cmdio_write 230 (text "Already logged in.") s)

module _ (t : Tunables) (h : Host) where
  unfoldable pub handle_pwd : Session → Run Session
  handle_pwd s = do
    mangled ← str_replace_text (h.getcwd s.events) (text "\"") (text "\"\"")
    ok (vsf_cmdio_write 257 ((text "\"" ++ mangled) ++ text "\"") s)

  -- The loop of `vsf_banner_write`; each round but the last takes a byte.
  unfoldable pub banner_loop : ℕ → Bytes → ℕ → ℕ → Session → Run Session
  banner_loop zero str pos code s = stop out_of_fuel
  banner_loop (suc f) str pos code s = do
    l ← str_getline str pos
    let rest = banner_loop f str l.pos code (vsf_cmdio_write_hyphen code l.line_str s)
    if l.result then rest else ok s

  unfoldable pub vsf_banner_write : Bytes → ℕ → Session → Run Session
  unfolding banner_loop
  vsf_banner_write str code s = banner_loop (suc (length str)) str 0 code s

  -- `str_list_contains_str` of the directories that were visited
  unfoldable pub was_visited : List Bytes → Bytes → Bool
  was_visited [] dir = false
  was_visited (d ∷ ds) dir = let rest = was_visited ds dir in if str_equal dir d then true else rest

  abbrev pub visit : Bytes → Session → Session
  visit dir s =
      if ltb (length s.visited) 100 then record s { visited = s.visited ++ dir ∷ [] } else s

  unfoldable pub vsf_banner_dir_changed : ℕ → Session → Run Session
  unfolding vsf_banner_write was_visited
  vsf_banner_dir_changed code s =
      let dir = h.getcwd s.events in
      let show : Run Session = (do
        message ← str_fileread (h.files s.events) t.message_file 4000
        vsf_banner_write (contents message) code (visit dir s)) in
      if not t.dirmessage_enable then ok s else if was_visited s.visited dir then ok s else show
