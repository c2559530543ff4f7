-- ===== src/Postlogin/Files/Accounts.antt =====
-- postlogin.c: what the commands that change files do, and what the log has of it.
use dragonsunited_minecraft.Base.{
  ℕ, Bool, true, false, List, [], ◌∷◌, ◌++◌, none, some, ◌≡◌, inl, inr, refl, ap, ◌∙◌,
  if◌then◌else◌, Bytes, text, Bool-cases,
}
use dragonsunited_minecraft.Filter.{vsf_access_check_file}
use dragonsunited_minecraft.Filter.Ends.{CleanSetting, access_check-ok}
use dragonsunited_minecraft.Postlogin.Dispatch.{log_failure}
use dragonsunited_minecraft.Postlogin.Files.{
  permission_denied, log_path, resolved, mkd_done, handle_mkd, rmd_done, handle_rmd, dele_done,
  handle_dele,
}
use dragonsunited_minecraft.Postlogin.Paths.Meaning.{
  full_path, expanded, prepend_path-full_path, resolve_tilde-expanded,
}
use dragonsunited_minecraft.Run.{Run, ok, ◌>>=◌}
use dragonsunited_minecraft.Session.{
  Tunables, Host, Session, LogEntry, log_mkdir, log_rmdir, log_delete, Event, reply, logged, mkdir,
  rmdir, unlink, attempt, emit, vsf_cmdio_write,
}
use dragonsunited_minecraft.Session.Log.{vsf_log_start_entry, vsf_log_entry_pending, vsf_log_do_log}
use dragonsunited_minecraft.Str.Text.Replace.{substituted, str_replace_text-substituted}

-- What a command does, the newest first, with `said` for the text of its reply. Where the path is
-- denied it makes no attempt. Where the attempt succeeds, the entry of the log comes before the reply;
-- a failure is logged after it.
unfoldable pub trail : Host → Bool → Event → LogEntry → ℕ → Bytes → Bytes → List Event → List Event
trail h false change what success path said es = logged false what path ∷ reply 550 b' ' said ∷ es
trail h true change what success path said es =
    if h.succeeds es change
    then reply success b' ' said ∷ logged true what path ∷ change ∷ es
    else logged false what path ∷ reply 550 b' ' said ∷ change ∷ es

-- A handler with what is behind it in the loop over the commands.
abbrev pub and_logged : Run Session → Run Session
and_logged r = r >>= λ s. ok (log_failure s)

-- The command returns; its events are its trail, for the argument as it is expanded, and no entry of
-- the log is left open.
pub record Accounted (t : Tunables) (h : Host) (s : Session) (change : Bytes → Event)
    (what : LogEntry) (success : ℕ) (path : Bytes → Bytes) (r : Run Session) : Type 0 where
  pub allowed : Bool
  pub decided :
      vsf_access_check_file t.deny_file (expanded t h s.home_str s.ftp_arg_str) ≡ ok allowed
  pub said : Bytes
  pub final : Session
  pub returns : and_logged r ≡ ok final
  pub done :
      let name = expanded t h s.home_str s.ftp_arg_str in
      final.events ≡ trail h allowed (change name) what success (path name) said s.events
  pub closed : final.log_type ≡ none

module _ (t : Tunables) (h : Host) where
  resolved_lem :
      (s : Session)
      → resolved t h s ≡ ok (record s { ftp_arg_str = expanded t h s.home_str s.ftp_arg_str })
  unfolding resolved
  resolved_lem s = rw (resolve_tilde-expanded t h s s.ftp_arg_str) refl

  log_path_lem :
      (what : LogEntry) (path : Bytes) (s : Session)
      → s.log_type ≡ none
      → log_path t h what path s
        ≡ ok (record s { log_type = some what; log_str = full_path (h.getcwd s.events) path })
  unfolding log_path vsf_log_start_entry
  log_path_lem what path s e =
      rw e (
        rw (prepend_path-full_path t h (record s { log_type = some what; log_str = [] }) path) refl)

  do_log-events :
      (what : LogEntry) (s : Session)
      → s.log_type ≡ some what
      → (vsf_log_do_log true s).events ≡ logged true what s.log_str ∷ s.events
  unfolding vsf_log_do_log
  do_log-events what s e = rw e refl

  log_failure_closed : (s : Session) → s.log_type ≡ none → log_failure s ≡ s
  unfolding log_failure vsf_log_entry_pending
  log_failure_closed s e = rw e refl

  log_failure_open :
      (what : LogEntry) (s : Session)
      → s.log_type ≡ some what
      → ((log_failure s).events ≡ logged false what s.log_str ∷ s.events)
        × ((log_failure s).log_type ≡ none)
  unfolding log_failure vsf_log_entry_pending vsf_log_do_log
  log_failure_open what s e = (rw e refl, rw e refl)

  -- An end of a command that replies once: with the number of the success behind the entry of the
  -- log where the change was made, else with 550, and the entry left open.
  record Closing (success : ℕ) (finish : Bool × Session → Run Session) : Type 0 where
    good :
        (s : Session)
        → (final : Session) × (said : Bytes) × (finish (true, s) ≡ ok final)
          × (final.events ≡ reply success b' ' said ∷ (vsf_log_do_log true s).events)
          × (final.log_type ≡ none)
    bad :
        (s : Session)
        → (final : Session) × (said : Bytes) × (finish (false, s) ≡ ok final)
          × (final.events ≡ reply 550 b' ' said ∷ s.events)
          × (final.log_type ≡ s.log_type)
          × (final.log_str ≡ s.log_str)

  -- What the three commands have in common.
  abbrev one_change :
      (Bool × Session → Run Session) → (Bytes → Event) → LogEntry → Session → Run Session
  one_change finish change what s0 = do
    s1 ← resolved t h s0
    s ← log_path t h what s1.ftp_arg_str s1
    allowed ← vsf_access_check_file t.deny_file s.ftp_arg_str
    if allowed then finish (attempt h (change s.ftp_arg_str) s) else ok (permission_denied s)

  Closing-trail :
      (finish : Bool × Session → Run Session) (change : Event) (what : LogEntry) (success : ℕ)
      (s : Session)
      → Closing success finish
      → s.log_type ≡ some what
      → (final : Session) × (said : Bytes) × (finish (attempt h change s) ≡ ok final)
        × ((log_failure final).events ≡ trail h true change what success s.log_str said s.events)
        × ((log_failure final).log_type ≡ none)
  unfolding trail
  Closing-trail finish change what success s c e = elim (Bool-cases (h.succeeds s.events change)) [
    | inl y ↦
        let (final, said, there, events, closed) = c.good (emit change s) in
        let same = log_failure_closed final closed in
        (
          final,
          said,
          rw y there,
          rw y (
              ap (λ z. z.events) same
              ∙ events
              ∙ ap (λ es. reply success b' ' said ∷ es) (do_log-events what (emit change s) e)),
          ap (λ z. z.log_type) same ∙ closed,
        )
    | inr y ↦
        let (final, said, there, events, open_, str) = c.bad (emit change s) in
        let (told, closed) = log_failure_open what final (open_ ∙ e) in
        (
          final,
          said,
          rw y there,
          rw y (
              told
              ∙ ap (λ z. logged false what z ∷ final.events) str
              ∙ ap (λ z. logged false what s.log_str ∷ z) events),
          closed,
        )
  ]

  one_change-Accounted :
      (finish : Bool × Session → Run Session) (change : Bytes → Event) (what : LogEntry)
      (success : ℕ) (s : Session)
      → Closing success finish
      → CleanSetting t.deny_file
      → s.log_type ≡ none
      → Accounted t h s change what success
          (full_path (h.getcwd s.events))
          (one_change finish change what s)
  one_change-Accounted finish change what success s c clean e =
      let name = expanded t h s.home_str s.ftp_arg_str in
      let s1 = record s { ftp_arg_str = name } in
      let s2 = record s1 { log_type = some what; log_str = full_path (h.getcwd s.events) name } in
      let (allowed, decided) = access_check-ok t.deny_file name clean in
      let begun : one_change finish change what s
          ≡ (if allowed then finish (attempt h (change name) s2) else ok (permission_denied s2)) =
        rw (resolved_lem s) (rw (log_path_lem what name s1 e) (rw decided refl)) in
      elim (Bool-cases allowed) [
        | inl y ↦
            let (final, said, there, events, closed) =
              Closing-trail finish (change name) what success s2 c refl in
            let went : one_change finish change what s ≡ ok final = begun ∙ rw y there in
            record {
              allowed = true;
              decided = decided ∙ ap ok y;
              said = said;
              final = log_failure final;
              returns = ap and_logged went;
              done = events;
              closed = closed;
            }
        | inr y ↦
            let refused : one_change finish change what s ≡ ok (permission_denied s2) =
              begun ∙ rw y refl in
            record {
              allowed = false;
              decided = decided ∙ ap ok y;
              said = text "Permission denied.";
              final = log_failure (permission_denied s2);
              returns = ap and_logged refused;
              done = unfold trail in (log_failure_open what (permission_denied s2) refl).0;
              closed = (log_failure_open what (permission_denied s2) refl).1;
            }
      ]

  dele-Closing : Closing 250 (dele_done t h)
  unfolding dele_done
  dele-Closing = record {
    good = λ s. (_, _, refl, refl, refl);
    bad = λ s. (_, _, refl, refl, refl, refl);
  }

  rmd-Closing : Closing 250 (rmd_done t h)
  unfolding rmd_done
  rmd-Closing = record {
    good = λ s. (_, _, refl, refl, refl);
    bad = λ s. (_, _, refl, refl, refl, refl);
  }

  mkd-Closing : Closing 257 (mkd_done t h)
  unfolding mkd_done
  mkd-Closing = record {
    good = λ s.
        let s1 = vsf_log_do_log true s in
        let full = full_path (h.getcwd s1.events) s1.ftp_arg_str in
        let quoted = substituted (text "\"") (text "\"\"") 0 full in
        (
          vsf_cmdio_write 257 ((text "\"" ++ quoted) ++ text "\" created") s1,
          _,
          rw (prepend_path-full_path t h s1 s1.ftp_arg_str)
              (rw (str_replace_text-substituted full (text "\"") (text "\"\"") (λ e. cc)) refl),
          refl,
          refl,
        );
    bad = λ s. (_, _, refl, refl, refl, refl);
  }

  -- `MKD`, `RMD` and `DELE`, for a session with no entry of the log open and a `deny_file` that is a
  -- C string, return, and with what the loop over the commands does behind them their only events
  -- are, in this order: for a name that the filter does not deny, one attempt at the change, with the
  -- argument's tilde expanded; where it succeeds, an entry of the log for it and a reply, whose number
  -- is 257 for `MKD` and 250 for the others; elsewhere a reply with the number 550 and an entry of
  -- the log for the failure. The entries have the absolute path, and none is left open.
  pub changes-Accounted :
      (s : Session)
      → CleanSetting t.deny_file
      → s.log_type ≡ none
      → Accounted t h s mkdir log_mkdir 257 (full_path (h.getcwd s.events)) (handle_mkd t h s)
        × Accounted t h s rmdir log_rmdir 250 (full_path (h.getcwd s.events)) (handle_rmd t h s)
        × Accounted t h s unlink log_delete 250 (full_path (h.getcwd s.events)) (handle_dele t h s)
  unfolding handle_mkd handle_rmd handle_dele
  changes-Accounted s clean e = (
    one_change-Accounted (mkd_done t h) mkdir log_mkdir 257 s mkd-Closing clean e,
    one_change-Accounted (rmd_done t h) rmdir log_rmdir 250 s rmd-Closing clean e,
    one_change-Accounted (dele_done t h) unlink log_delete 250 s dele-Closing clean e,
  )
