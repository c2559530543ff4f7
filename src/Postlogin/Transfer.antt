-- ===== src/Postlogin/Transfer.antt =====
-- postlogin.c, `get_remote_transfer_fd`, and the connection's beginning and end in ftpdataio.c. The
-- descriptor of the data connection is there or not; timeouts are signals, and not in the model.
use dragonsunited_minecraft.Base.{Bool, true, false, not, [], Bytes, text, ◌++◌, if◌then◌else◌}
use dragonsunited_minecraft.Postlogin.Data.{either_active, pasv_active, call_depth}
use dragonsunited_minecraft.Run.{Run, ok, ◌>>=◌, ◌>>◌, bug_if}
use dragonsunited_minecraft.Session.{
  Tunables, Host, Session, Connection, connected, refused, bad_address, connect, dispose, emit,
  vsf_cmdio_write,
}

module _ (t : Tunables) (h : Host) where
  unfoldable pub init_data_sock_params : Session → Run Session
  init_data_sock_params s = do bug_if s.data_open; ok (record s { data_open = true })

  -- Both ways to connect, by what comes of it; only the passive one tells a bad address.
  unfoldable pub connection : Connection → Bool → Session → Run (Bool × Session)
  unfolding init_data_sock_params
  connection connected pasv s = do s1 ← init_data_sock_params s; ok (true, s1)
  connection refused pasv s =
      ok (false, vsf_cmdio_write 425 (text "Failed to establish connection.") s)
  connection bad_address true s =
      ok (false, vsf_cmdio_write 425 (text "Security: Bad IP connecting.") s)
  connection bad_address false s =
      ok (false, vsf_cmdio_write 425 (text "Failed to establish connection.") s)

  abbrev pub reuse_hint : Bytes
  reuse_hint =
      if t.require_ssl_reuse
      then text "; session reuse required: see require_ssl_reuse option in vsftpd.conf man page"
      else []

  -- The encryption of a data connection.
  unfoldable pub vsf_ftpdataio_post_mark_connect : Session → Bool × Session
  vsf_ftpdataio_post_mark_connect s =
      if not s.data_use_ssl
      then (true, s)
      else if h.handshake s.events
      then (true, s)
      else (false, vsf_cmdio_write 522 (text "SSL connection failed" ++ reuse_hint) s)

  -- 1 without encryption, and what the close of the encryption says with it.
  unfoldable pub vsf_ftpdataio_dispose_transfer_fd : Session → Run (Bool × Session)
  vsf_ftpdataio_dispose_transfer_fd s = do
    bug_if (not s.data_open)
    let result = if s.data_use_ssl then h.succeeds s.events dispose else true
    ok (result, record (emit dispose s) { data_open = false })

  unfoldable pub marked : Bytes → Bool × Session → Run (Bool × Session)
  unfolding vsf_ftpdataio_post_mark_connect vsf_ftpdataio_dispose_transfer_fd
  marked status (false, s) = ok (false, s)
  marked status (true, s) =
      let (shaken, s1) = vsf_ftpdataio_post_mark_connect (vsf_cmdio_write 150 status s) in
      let failed : Run (Bool × Session) = (do
        (d, s2) ← vsf_ftpdataio_dispose_transfer_fd s1
        ok (false, s2)) in
      if shaken then ok (true, s1) else failed

  unfoldable pub get_remote_transfer_fd : Session → Bytes → Run (Bool × Session)
  unfolding connection marked
  get_remote_transfer_fd s status = do
    active ← either_active t h s
    bug_if (not active)
    pasv ← pasv_active call_depth s
    r ← connection (h.connect_result s.events) pasv (emit connect s)
    marked status r
