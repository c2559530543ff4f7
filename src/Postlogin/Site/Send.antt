-- ===== src/Postlogin/Site/Send.antt =====
-- postlogin.c, `handle_site_uins`: what becomes of the instructions once they are made.
use dragonsunited_minecraft.Base.{
  ℕ, Bool, true, false, ◌||◌, [], ◌∷◌, ◌≡◌, inl, inr, refl, ◌∙◌, if◌then◌else◌, Bytes, text,
  Bool-cases,
}
use dragonsunited_minecraft.Postlogin.Data.{is_set}
use dragonsunited_minecraft.Postlogin.Data.Active.{both, pasv_active_lem, either_active_lem}
use dragonsunited_minecraft.Postlogin.Site.{uins_send, send_instructions, uins_end}
use dragonsunited_minecraft.Postlogin.Transfer.{
  init_data_sock_params, connection, vsf_ftpdataio_post_mark_connect,
  vsf_ftpdataio_dispose_transfer_fd, marked, get_remote_transfer_fd,
}
use dragonsunited_minecraft.Run.{Run, ok, stop, bug, undefined, ◌>>=◌}
use dragonsunited_minecraft.Session.{
  Tunables, Host, Session, Connection, connected, refused, bad_address, connect, dispose,
  data_write, emit, vsf_cmdio_write,
}
use dragonsunited_minecraft.Session.Log.{vsf_log_do_log}
use dragonsunited_minecraft.Str.Text.{str_isempty}
use dragonsunited_minecraft.Str.Text.Split.{isempty_empty, isempty-cons}

-- A session that has asked for a data connection of one kind, and has none yet.
pub record Waiting (s : Session) : Type 0 where
  pub one_kind : both s ≡ false
  pub active : (s.pasv_listening || is_set s.port_sockaddr) ≡ true
  pub closed : s.data_open ≡ false

abbrev pub is_connected : Connection → Bool
is_connected connected = true
is_connected refused = false
is_connected bad_address = false

module _ (t : Tunables) (h : Host) where
  get_fd_step :
      (s : Session) (status : Bytes)
      → Waiting s
      → get_remote_transfer_fd t h s status ≡ (
          connection t h (h.connect_result s.events) s.pasv_listening (emit connect s)
          >>= marked t h status)
  unfolding get_remote_transfer_fd
  get_fd_step s status w =
      rw (either_active_lem t h s w.one_kind)
        (rw (pasv_active_lem 0 s w.one_kind) (rw (w.active) refl))

  -- The data connection that is refused leaves none open.
  unconnected :
      (c : Connection) (pasv : Bool) (s : Session)
      → is_connected c ≡ false
      → s.data_open ≡ false
      → (s' : Session) × (connection t h c pasv s ≡ ok (false, s')) × (s'.data_open ≡ false)
  unfolding connection
  unconnected connected pasv s n e = cc
  unconnected refused pasv s n e = (_, refl, e)
  unconnected bad_address true s n e = (_, refl, e)
  unconnected bad_address false s n e = (_, refl, e)

  -- The instructions do not open a connection.
  send_instructions-open :
      (s : Session) (instructions : Bytes)
      → (send_instructions t h s instructions).1.data_open ≡ s.data_open
  unfolding send_instructions
  send_instructions-open s instructions = elim (Bool-cases (str_isempty instructions)) [
    | inl e ↦ rw e refl
    | inr e ↦ rw e refl
  ]

  dispose-closed :
      (s : Session) → s.data_open ≡ false → vsf_ftpdataio_dispose_transfer_fd t h s ≡ stop bug
  unfolding vsf_ftpdataio_dispose_transfer_fd
  dispose-closed s e = rw e refl

  uins_send-unconnected :
      (s : Session) (instructions : Bytes)
      → Waiting s
      → is_connected (h.connect_result s.events) ≡ false
      → uins_send t h s instructions ≡ stop bug
  unfolding uins_send marked
  uins_send-unconnected s instructions w n =
      let (s', e, closed) =
        unconnected (h.connect_result s.events) s.pasv_listening (emit connect s) n w.closed in
      rw (get_fd_step s (text "Here comes the update instructions.") w) (
        rw e (
          rw
            (dispose-closed (send_instructions t h s' instructions).1
              (send_instructions-open s' instructions ∙ closed))
            refl))

  -- The session with the connection open and the reply that announces it.
  abbrev pub opened : Session → Session
  opened s =
      vsf_cmdio_write 150 (text "Here comes the update instructions.")
        (record (emit connect s) { data_open = true })

  get_fd-connected :
      (s : Session)
      → Waiting s
      → h.connect_result s.events ≡ connected
      → s.data_use_ssl ≡ false
      → get_remote_transfer_fd t h s (text "Here comes the update instructions.")
        ≡ ok (true, opened s)
  unfolding connection init_data_sock_params marked vsf_ftpdataio_post_mark_connect
  get_fd-connected s w c plain =
      get_fd_step s (text "Here comes the update instructions.") w
      ∙ rw c (rw (w.closed) (rw plain refl))

  -- The session after the instructions are written and the connection is closed.
  abbrev pub delivered : Session → Bytes → Session
  delivered s instructions = record (emit dispose (emit (data_write instructions) (opened s))) {
    data_open = false;
  }

  uins_send-delivered :
      (s : Session) (x : ℕ) (instructions : Bytes)
      → Waiting s
      → h.connect_result s.events ≡ connected
      → s.data_use_ssl ≡ false
      → uins_send t h s (x ∷ instructions)
        ≡ ok (
            if h.succeeds (opened s).events (data_write (x ∷ instructions))
            then vsf_cmdio_write 226
                (text "Instructions send OK.")
                (vsf_log_do_log true (delivered s (x ∷ instructions)))
            else vsf_cmdio_write 426
                (text "Failure writing network stream.")
                (vsf_log_do_log false (delivered s (x ∷ instructions))))
  unfolding uins_send send_instructions uins_end vsf_ftpdataio_dispose_transfer_fd
  uins_send-delivered s x instructions w c plain =
      rw (get_fd-connected s w c plain) (rw (isempty-cons x instructions) (rw plain refl))

  uins_send-nothing :
      (s : Session)
      → Waiting s
      → h.connect_result s.events ≡ connected
      → s.data_use_ssl ≡ false
      → uins_send t h s [] ≡ stop undefined
  unfolding uins_send send_instructions uins_end vsf_ftpdataio_dispose_transfer_fd
  uins_send-nothing s w c plain =
      rw (get_fd-connected s w c plain) (rw isempty_empty (rw plain refl))

  -- What comes of instructions, by whether the connection is made and whether there are any.
  unfoldable pub outcome : Bool → Session → Bytes → Run Session
  outcome false s instructions = stop bug
  outcome true s [] = stop undefined
  outcome true s (x ∷ instructions) = ok (
      if h.succeeds (opened s).events (data_write (x ∷ instructions))
      then vsf_cmdio_write 226 (text "Instructions send OK.")
          (vsf_log_do_log true (delivered s (x ∷ instructions)))
      else vsf_cmdio_write 426 (text "Failure writing network stream.")
          (vsf_log_do_log false (delivered s (x ∷ instructions))))

  made : (c : Connection) → is_connected c ≡ true → c ≡ connected
  made connected e = refl
  made refused e = cc
  made bad_address e = cc

  -- For a session without encryption that has asked for a data connection, the end of `SITE UINS`:
  -- where the connection is not made, the process ends with a `bug`; where it is made and the client
  -- has nothing to update, a result of the transfer is read that was never written; else the
  -- instructions are written, the connection is closed, the entry of the log is written with what
  -- came of it, and the reply is 226, or 426 where the write failed.
  pub uins_send-outcome :
      (s : Session) (instructions : Bytes)
      → Waiting s
      → s.data_use_ssl ≡ false
      → uins_send t h s instructions
        ≡ outcome (is_connected (h.connect_result s.events)) s instructions
  unfolding outcome
  uins_send-outcome s [] w plain = elim (Bool-cases (is_connected (h.connect_result s.events))) [
    | inl c ↦ rw c (uins_send-nothing s w (made _ c) plain)
    | inr c ↦ rw c (uins_send-unconnected s [] w c)
  ]
  uins_send-outcome s (x ∷ xs) w plain =
      elim (Bool-cases (is_connected (h.connect_result s.events))) [
        | inl c ↦ rw c (uins_send-delivered s x xs w (made _ c) plain)
        | inr c ↦ rw c (uins_send-unconnected s (x ∷ xs) w c)
      ]
