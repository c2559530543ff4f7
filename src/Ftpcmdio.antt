-- ===== src/Ftpcmdio.antt =====
-- ftpcmdio.c: a command read from the client, and a reply written to it. The alarm, the states of
-- the command socket and OpenSSL are not modelled: `log_ftp_protocol` is the setting of that name,
-- `ulong_to_str` the C library's, and what is logged is part of the result.
mod Lines
pub mod Read
pub mod Reply
mod Tests
use dragonsunited_minecraft.Base.{
  ℕ, zero, suc, ◌-◌, Bool, true, false, not, ◌&&◌, [], ◌∷◌, ◌++◌, Option, none, some, ◌==◌,
  if◌then◌else◌, length, take, get_or, Bytes, text,
}
use dragonsunited_minecraft.Run.{Run, ok, ◌>>=◌}
use dragonsunited_minecraft.Str.Cut.{str_get_char_at, str_upper, str_replace_char}
use dragonsunited_minecraft.Str.Text.{str_equal_text, str_isempty, str_replace_text, str_split_char}
use dragonsunited_minecraft.Netstr.{Socket, Got, str_netfd_alloc}

-- VSFTP_MAX_COMMAND_LINE
abbrev pub max_command_line : ℕ
max_command_line = 4096

-- The loop that strips carriage returns from the end, with the length of the string.
unfoldable pub strip : ℕ → Bytes → Run Bytes
unfolding str_get_char_at
strip zero s = ok s
strip (suc len) s = do
  let rest = strip len (take len s)
  c ← str_get_char_at s len
  if c == b'\r' then rest else ok s

-- `vsf_cmdio_write_exit` has ended the process in the first case.
pub data Control (S : Type 0) : Type 0 where
  too_long : S → Control S
  line : Bytes → S → Control S

unfoldable pub got_line : {S : Type 0} → Got S → Run (Control S)
unfolding strip str_replace_char
got_line g = elim g.retval [
  | none ↦ ok (too_long g.socket)
  | some i ↦ do let s = str_replace_char g.str 0 b'\n'; l ← strip (length s) s; ok (line l g.socket)
]

unfoldable pub control_getline : {S : Type 0} → Socket S → S → Run (Control S)
unfolding str_netfd_alloc got_line
control_getline k s = do g ← str_netfd_alloc k b'\n' max_command_line s; got_line g

pub data Command (S : Type 0) : Type 0 where
  -- the reply 500 and the end of the process
  exits : S → Command S
  -- the command, its argument and what is logged of them
  command : Bytes → Bytes → Option Bytes → S → Command S

-- `str_split_char` by the first space, but for a line that is one space.
unfoldable pub split_command : Bytes → Run (Bytes × Bytes)
unfolding str_get_char_at str_split_char
split_command l =
    let split = str_split_char l b' ' in
    if length l == 1
    then (do c ← str_get_char_at l 0; if c == b' ' then ok (l, []) else split)
    else split

-- The password is not logged.
unfoldable pub input_log : Bool → Bytes → Bytes → Option Bytes
unfolding str_equal_text str_isempty
input_log log_ftp_protocol cmd arg =
    if not log_ftp_protocol
    then none
    else if str_equal_text cmd (text "PASS")
    then some (text "PASS <password>")
    else some (if not (str_isempty arg) then (cmd ++ (b' ' ∷ [])) ++ arg else cmd)

unfoldable pub split_line : {S : Type 0} → Bool → Control S → Run (Command S)
unfolding split_command input_log str_upper
split_line log_ftp_protocol (too_long s) = ok (exits s)
split_line log_ftp_protocol (line l s) = do
  (word, arg) ← split_command l
  let cmd = str_upper word
  ok (command cmd arg (input_log log_ftp_protocol cmd arg) s)

unfoldable pub vsf_cmdio_get_cmd_and_arg : {S : Type 0} → Bool → Socket S → S → Run (Command S)
unfolding control_getline split_line
vsf_cmdio_get_cmd_and_arg log_ftp_protocol k s = do
  c ← control_getline k s
  split_line log_ftp_protocol c

module _ (ulong_to_str : ℕ → Bytes) where
  -- What is written to the client, for the status, the separator and the text.
  unfoldable pub ftp_write_str_common : ℕ → ℕ → Bytes → Run Bytes
  unfolding str_replace_text str_replace_char
  ftp_write_str_common status sep s = do
    escaped ← str_replace_text s (255 ∷ []) (255 ∷ 255 ∷ [])
    let mangled = str_replace_char escaped b'\n' 0
    ok (((ulong_to_str status ++ (sep ∷ [])) ++ mangled) ++ (b'\r' ∷ b'\n' ∷ []))

  -- What is logged of a reply.
  unfoldable pub output_log : Bool → ℕ → ℕ → Bytes → Option Bytes
  output_log log_ftp_protocol status sep s =
      if log_ftp_protocol then some ((ulong_to_str status ++ (sep ∷ [])) ++ s) else none
