-- ===== src/Session/Log.antt =====
-- logging.c: the entry that a command opens, and that is written once.
use dragonsunited_minecraft.Base.{Bool, true, false, [], Option, none, some}
use dragonsunited_minecraft.Run.{Run, ok, ◌>>◌, bug_if}
use dragonsunited_minecraft.Session.{LogEntry, Session, logged, emit}

abbrev pub is_pending : Option LogEntry → Bool
is_pending none = false
is_pending (some what) = true

unfoldable pub vsf_log_entry_pending : Session → Bool
vsf_log_entry_pending s = is_pending s.log_type

unfoldable pub vsf_log_start_entry : LogEntry → Session → Run Session
vsf_log_start_entry what s = do
  bug_if (is_pending s.log_type)
  ok (record s { log_type = some what; log_str = [] })

unfoldable pub vsf_log_clear_entry : Session → Session
vsf_log_clear_entry s = record s { log_type = none }

-- The entry as an event; every caller has opened one.
abbrev pub write_entry : Bool → Option LogEntry → Session → Session
write_entry succeeded none s = s
write_entry succeeded (some what) s = emit (logged succeeded what s.log_str) s

unfoldable pub vsf_log_do_log : Bool → Session → Session
vsf_log_do_log succeeded s = record (write_entry succeeded s.log_type s) { log_type = none }
