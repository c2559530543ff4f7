-- ===== src/Postlogin/Dispatch.antt =====
-- postlogin.c, `process_post_login`: which commands a session may give, and what each one leads to.
pub mod Policy
pub mod Names
use dragonsunited_minecraft.Base.{
  ℕ, zero, suc, ◌+◌, Bool, true, false, not, ◌&&◌, ◌||◌, List, [], ◌∷◌, ◌++◌, Option, none, some,
  ◌==◌, if◌then◌else◌, length, Bytes, text,
}
use dragonsunited_minecraft.Run.{Run, ok, stop, out_of_fuel, ◌>>=◌, ◌>>◌}
use dragonsunited_minecraft.Session.{Tunables, Session}
use dragonsunited_minecraft.Session.Log.{vsf_log_entry_pending, vsf_log_do_log}
use dragonsunited_minecraft.Str.Text.{str_isempty, str_equal, str_equal_text, str_split_char}

-- What a command leads to: a handler, or one of the answers that are written in place.
pub data Handler : Type 0 where
  quit pwd cwd cdup pasv epsv retr noop syst help list type port stor mkd rmd dele rest : Handler
  rnfr rnto nlst size site abor appe mdtm eprt stru mode stou allo rein acct smnt : Handler
  feat opts stat stat_file pbsz prot user pass no_permission ignored unknown : Handler

-- The first branch whose test holds.
unfoldable pub chain : List (Bool × Handler) → Handler → Handler
chain [] last = last
chain ((b, x) ∷ rows) last = let rest = chain rows last in if b then x else rest

abbrev pub is : Session → Bytes → Bool
is s name = str_equal_text s.ftp_cmd_str name

abbrev pub rows_paths : Tunables → Session → List (Bool × Handler)
rows_paths t s =
    (is s (text "QUIT"), quit)
    ∷ (is s (text "PWD") || is s (text "XPWD"), pwd)
    ∷ (is s (text "CWD") || is s (text "XCWD"), cwd)
    ∷ (is s (text "CDUP") || is s (text "XCUP"), cdup)
    ∷ (t.pasv_enable && (not s.epsv_all && (is s (text "PASV") || is s (text "P@SW"))), pasv)
    ∷ (t.pasv_enable && is s (text "EPSV"), epsv)
    ∷ (t.download_enable && is s (text "RETR"), retr)
    ∷ (is s (text "NOOP"), noop)
    ∷ (is s (text "SYST"), syst)
    ∷ (is s (text "HELP"), help)
    ∷ (t.dirlist_enable && is s (text "LIST"), list)
    ∷ (is s (text "TYPE"), type)
    ∷ (t.port_enable && (not s.epsv_all && is s (text "PORT")), port)
    ∷ []

abbrev pub rows_writes : Tunables → Session → List (Bool × Handler)
rows_writes t s =
    let upload = t.anon_upload_enable || not s.is_anonymous in
    let make = t.anon_mkdir_write_enable || not s.is_anonymous in
    let other = t.anon_other_write_enable || not s.is_anonymous in
    (t.write_enable && (upload && is s (text "STOR")), stor)
    ∷ (t.write_enable && (make && (is s (text "MKD") || is s (text "XMKD"))), mkd)
    ∷ (t.write_enable && (other && (is s (text "RMD") || is s (text "XRMD"))), rmd)
    ∷ (t.write_enable && (other && is s (text "DELE")), dele)
    ∷ (is s (text "REST"), rest)
    ∷ (t.write_enable && (other && is s (text "RNFR")), rnfr)
    ∷ (t.write_enable && (other && is s (text "RNTO")), rnto)
    ∷ (t.dirlist_enable && is s (text "NLST"), nlst)
    ∷ (is s (text "SIZE"), size)
    ∷ (not s.is_anonymous && is s (text "SITE"), site)
    ∷ (is s (text "ABOR") || is s (255 ∷ 244 ∷ 255 ∷ 242 ∷ text "ABOR"), abor)
    ∷ (t.write_enable && (other && is s (text "APPE")), appe)
    ∷ (is s (text "MDTM"), mdtm)
    ∷ (t.port_enable && is s (text "EPRT"), eprt)
    ∷ (is s (text "STRU"), stru)
    ∷ (is s (text "MODE"), mode)
    ∷ (t.write_enable && (upload && is s (text "STOU")), stou)
    ∷ []

abbrev pub rows_answers : Tunables → Session → List (Bool × Handler)
rows_answers t s =
    (is s (text "ALLO"), allo)
    ∷ (is s (text "REIN"), rein)
    ∷ (is s (text "ACCT"), acct)
    ∷ (is s (text "SMNT"), smnt)
    ∷ (is s (text "FEAT"), feat)
    ∷ (is s (text "OPTS"), opts)
    ∷ (is s (text "STAT") && str_isempty s.ftp_arg_str, stat)
    ∷ (t.dirlist_enable && is s (text "STAT"), stat_file)
    ∷ (t.ssl_enable && is s (text "PBSZ"), pbsz)
    ∷ (t.ssl_enable && is s (text "PROT"), prot)
    ∷ (is s (text "USER"), user)
    ∷ (is s (text "PASS"), pass)
    ∷ []

unfoldable pub any_is : Session → List Bytes → Bool
any_is s [] = false
any_is s (name ∷ names) = let rest = any_is s names in is s name || rest

-- The commands that are known and reach this place only where they are not permitted.
abbrev pub refused_names : List Bytes
refused_names =
    text "PASV"
    ∷ text "PORT"
    ∷ text "STOR"
    ∷ text "MKD"
    ∷ text "XMKD"
    ∷ text "RMD"
    ∷ text "XRMD"
    ∷ text "DELE"
    ∷ text "RNFR"
    ∷ text "RNTO"
    ∷ text "SITE"
    ∷ text "APPE"
    ∷ text "EPSV"
    ∷ text "EPRT"
    ∷ text "RETR"
    ∷ text "LIST"
    ∷ text "NLST"
    ∷ text "STOU"
    ∷ text "ALLO"
    ∷ text "REIN"
    ∷ text "ACCT"
    ∷ text "SMNT"
    ∷ text "FEAT"
    ∷ text "OPTS"
    ∷ text "STAT"
    ∷ text "PBSZ"
    ∷ text "PROT"
    ∷ []

abbrev pub rows_end : Session → List (Bool × Handler)
rows_end s =
    (any_is s refused_names, no_permission)
    ∷ (str_isempty s.ftp_cmd_str && str_isempty s.ftp_arg_str, ignored)
    ∷ []

-- The chain of tests.
unfoldable pub handler_of : Tunables → Session → Handler
unfolding chain any_is
handler_of t s =
    chain (rows_paths t s)
      (chain (rows_writes t s) (chain (rows_answers t s) (chain (rows_end s) unknown)))

-- The loop through `cmds_allowed` or `cmds_denied`, up to the first empty piece.
unfoldable pub list_loop : ℕ → Bytes → Bytes → Run Bool
list_loop zero src cmd = stop out_of_fuel
list_loop (suc f) src cmd = do
  (piece, rhs) ← str_split_char src b','
  let rest = list_loop f rhs cmd
  if str_isempty piece then ok false else if str_equal piece cmd then ok true else rest

unfoldable pub in_list : Bytes → Bytes → Run Bool
unfolding list_loop
in_list src cmd = list_loop (suc (length src)) src cmd

unfoldable pub allowed_by : Option Bytes → Bytes → Run Bool
unfolding in_list
allowed_by none cmd = ok true
allowed_by (some names) cmd = in_list names cmd

unfoldable pub denied_by : Option Bytes → Bytes → Run Bool
unfolding in_list
denied_by none cmd = ok false
denied_by (some names) cmd = in_list names cmd

-- `cmd_ok`
unfoldable pub cmd_ok : Tunables → Bytes → Run Bool
unfolding allowed_by denied_by
cmd_ok t cmd = do
  a ← allowed_by t.cmds_allowed cmd
  d ← denied_by t.cmds_denied cmd
  ok (a && not d)

-- The handler of a command that the lists let through, and a refusal of the others.
unfoldable pub process_command : Tunables → Session → Run Handler
unfolding cmd_ok handler_of
process_command t s = do
  fine ← cmd_ok t s.ftp_cmd_str
  ok (if fine then handler_of t s else no_permission)

-- Behind the handler: an entry of the log that it has left open is that of a failure.
unfoldable pub log_failure : Session → Session
unfolding vsf_log_entry_pending vsf_log_do_log
log_failure s = if vsf_log_entry_pending s then vsf_log_do_log false s else s
