-- ===== src/Twoprocess.antt =====
-- postprivparent.c, twoprocess.c and oneprocess.c: the requests of a session's unprivileged process
-- and the privileged parent that serves them. Where the child waits for an answer, the parent goes
-- once through its loop. The login that comes before is not modelled.
mod Tests
pub mod Serve
pub mod Child
pub mod Same
use dragonsunited_minecraft.Base.{
  ℕ, zero, suc, ◌+◌, ◌-◌, ◌*◌, ◌/◌, ◌%◌, ◌^◌, Bool, true, false, not, ◌&&◌, ◌||◌, List, [], ◌∷◌,
  ◌++◌, Option, none, some, ltb, ◌==◌, if◌then◌else◌,
}
use dragonsunited_minecraft.Base.Int.{ℤ, pos, negsuc}
use dragonsunited_minecraft.Run.{Run, ok, stop, die, ◌>>=◌, ◌>>◌, die_if}
use dragonsunited_minecraft.Privsock.{
  Item, Stream, int_word, priv_sock_send_cmd, priv_sock_send_result, priv_sock_send_int,
  priv_sock_send_fd, priv_sock_get_cmd, priv_sock_get_result, priv_sock_get_int, priv_sock_recv_fd,
}
use dragonsunited_minecraft.Privops.Sockets.{
  Settings, Os, Priv, call, close, vsf_privop_get_ftp_port_sock, vsf_privop_pasv_listen,
  vsf_privop_accept_pasv, vsf_privop_pasv_cleanup, vsf_privop_pasv_active, vsf_privop_do_file_chown,
}

abbrev pub sock_chown : ℕ
sock_chown = 2

abbrev pub sock_get_data_sock : ℕ
sock_get_data_sock = 3

abbrev pub sock_pasv_cleanup : ℕ
sock_pasv_cleanup = 10

abbrev pub sock_pasv_active : ℕ
sock_pasv_active = 11

abbrev pub sock_pasv_listen : ℕ
sock_pasv_listen = 12

abbrev pub sock_pasv_accept : ℕ
sock_pasv_accept = 13

abbrev pub result_ok : ℕ
result_ok = 1

abbrev pub result_bad : ℕ
result_bad = 2

-- The two directions of the socket pair, and the parent behind it.
pub record Pair : Type 0 where
  pub to_parent : Stream
  pub to_child : Stream
  pub priv : Priv

abbrev pub answered : Stream → Stream → Priv → Run Pair
answered q a p = ok (record { to_parent = q; to_child = a; priv = p })

-- -1 and less is no descriptor, and the parent closes its own once it is passed.
unfoldable pub send_data_sock : ℤ → Stream → Stream → Priv → Run Pair
unfolding priv_sock_send_result priv_sock_send_fd
send_data_sock (negsuc n) q a p = answered q (priv_sock_send_result result_bad a) p
send_data_sock (pos fd) q a p =
    answered q (priv_sock_send_fd fd (priv_sock_send_result result_ok a)) (call (close fd) p)

unfoldable pub send_accepted : ℤ → Stream → Stream → Priv → Run Pair
unfolding priv_sock_send_result priv_sock_send_fd priv_sock_send_int
send_accepted (negsuc n) q a p =
    answered q (priv_sock_send_int (negsuc n) (priv_sock_send_result result_bad a)) p
send_accepted (pos fd) q a p =
    answered q (priv_sock_send_fd fd (priv_sock_send_result result_ok a)) (call (close fd) p)

module _ (os : Os) (t : Settings) where
  unfoldable pub cmd_process_chown : Stream → Stream → Priv → Run Pair
  unfolding priv_sock_recv_fd vsf_privop_do_file_chown priv_sock_send_result
  cmd_process_chown q a p = do
    (the_fd, q') ← priv_sock_recv_fd q
    p' ← vsf_privop_do_file_chown os the_fd p
    answered q' (priv_sock_send_result result_ok a) (call (close the_fd) p')

  -- The port is an `unsigned short` of the `int` that was sent.
  unfoldable pub cmd_process_get_data_sock : Stream → Stream → Priv → Run Pair
  unfolding priv_sock_get_int int_word vsf_privop_get_ftp_port_sock send_data_sock
  cmd_process_get_data_sock q a p = do
    (n, q') ← priv_sock_get_int q
    (fd, p') ← vsf_privop_get_ftp_port_sock os t (int_word n % 2 ^ 16) false p
    send_data_sock fd q' a p'

  unfoldable pub cmd_process_pasv_cleanup : Stream → Stream → Priv → Run Pair
  unfolding vsf_privop_pasv_cleanup priv_sock_send_result
  cmd_process_pasv_cleanup q a p =
      answered q (priv_sock_send_result result_ok a) (vsf_privop_pasv_cleanup p)

  unfoldable pub cmd_process_pasv_active : Stream → Stream → Priv → Run Pair
  unfolding vsf_privop_pasv_active priv_sock_send_int
  cmd_process_pasv_active q a p =
      answered q (priv_sock_send_int (pos (vsf_privop_pasv_active p)) a) p

  unfoldable pub cmd_process_pasv_listen : Stream → Stream → Priv → Run Pair
  unfolding vsf_privop_pasv_listen priv_sock_send_int
  cmd_process_pasv_listen q a p = do
    (port, p') ← vsf_privop_pasv_listen os t p
    answered q (priv_sock_send_int (pos port) a) p'

  unfoldable pub cmd_process_pasv_accept : Stream → Stream → Priv → Run Pair
  unfolding vsf_privop_accept_pasv send_accepted
  cmd_process_pasv_accept q a p =
      let (fd, p') = vsf_privop_accept_pasv os t p in send_accepted fd q a p'

  -- The command that has been read, with the handler that it stands for.
  unfoldable pub request : ℕ → Stream → Stream → Priv → Run Pair
  unfolding cmd_process_chown cmd_process_get_data_sock cmd_process_pasv_cleanup
      cmd_process_pasv_active cmd_process_pasv_listen cmd_process_pasv_accept
  request cmd q a p =
      if t.chown_uploads && (cmd == sock_chown)
      then cmd_process_chown q a p
      else if cmd == sock_get_data_sock
      then cmd_process_get_data_sock q a p
      else if cmd == sock_pasv_cleanup
      then cmd_process_pasv_cleanup q a p
      else if cmd == sock_pasv_active
      then cmd_process_pasv_active q a p
      else if cmd == sock_pasv_listen
      then cmd_process_pasv_listen q a p
      else if cmd == sock_pasv_accept
      then cmd_process_pasv_accept q a p
      else stop die

  unfoldable pub process_post_login_req : Pair → Run Pair
  unfolding priv_sock_get_cmd request
  process_post_login_req w = do
    (cmd, q) ← priv_sock_get_cmd w.to_parent
    request cmd q w.to_child w.priv

  -- `vsf_priv_parent_postlogin`, for so many requests; it ends with the process alone.
  unfoldable pub serve : ℕ → Pair → Run Pair
  unfolding process_post_login_req
  serve zero w = ok w
  serve (suc n) w = do w' ← process_post_login_req w; serve n w'
