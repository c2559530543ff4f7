-- ===== src/Twoprocess/Child.antt =====
-- twoprocess.c and oneprocess.c: what the unprivileged process asks of its parent, and what a
-- session in one process does itself. Between the request and the answer the parent serves it.
use dragonsunited_minecraft.Base.{ℕ, ◌%◌, ◌^◌, true, not, ◌==◌, if◌then◌else◌}
use dragonsunited_minecraft.Base.Int.{ℤ, pos, negsuc}
use dragonsunited_minecraft.Run.{Run, ok, ◌>>=◌, ◌>>◌, die_if}
use dragonsunited_minecraft.Privsock.{
  Stream, int_word, priv_sock_send_cmd, priv_sock_send_int, priv_sock_send_fd, priv_sock_get_result,
  priv_sock_get_int, priv_sock_recv_fd,
}
use dragonsunited_minecraft.Privops.Sockets.{
  Settings, Os, Priv, vsf_privop_get_ftp_port_sock, vsf_privop_pasv_listen, vsf_privop_accept_pasv,
  vsf_privop_pasv_cleanup, vsf_privop_pasv_active, vsf_privop_do_file_chown,
}
use dragonsunited_minecraft.Twoprocess.{
  Pair, process_post_login_req, sock_chown, sock_get_data_sock, sock_pasv_cleanup, sock_pasv_active,
  sock_pasv_listen, sock_pasv_accept, result_ok, result_bad,
}

-- The answer that a descriptor follows, unless the call has failed.
unfoldable pub recv_data_sock : ℕ → Stream → Run (ℤ × Stream)
unfolding priv_sock_recv_fd
recv_data_sock res a =
    if res == result_bad
    then ok (negsuc 0, a)
    else (do die_if (not (res == result_ok)); (fd, a') ← priv_sock_recv_fd a; ok (pos fd, a'))

unfoldable pub recv_pasv_fd : ℕ → Stream → Run (ℤ × Stream)
unfolding priv_sock_get_int priv_sock_recv_fd
recv_pasv_fd res a =
    if res == result_bad
    then priv_sock_get_int a
    else (do die_if (not (res == result_ok)); (fd, a') ← priv_sock_recv_fd a; ok (pos fd, a'))

unfoldable pub data_sock_answer : Pair → Run (ℤ × Pair)
unfolding priv_sock_get_result recv_data_sock
data_sock_answer w = do
  (res, a) ← priv_sock_get_result w.to_child
  (fd, a') ← recv_data_sock res a
  ok (fd, record w { to_child = a' })

unfoldable pub pasv_fd_answer : Pair → Run (ℤ × Pair)
unfolding priv_sock_get_result recv_pasv_fd
pasv_fd_answer w = do
  (res, a) ← priv_sock_get_result w.to_child
  (fd, a') ← recv_pasv_fd res a
  ok (fd, record w { to_child = a' })

-- Anything but a good answer ends the process.
unfoldable pub good_answer : Pair → Run Pair
unfolding priv_sock_get_result
good_answer w = do
  (res, a) ← priv_sock_get_result w.to_child
  die_if (not (res == result_ok))
  ok (record w { to_child = a })

module _ (os : Os) (t : Settings) where
  -- The parent's turn.
  abbrev pub wait : Stream → Pair → Run Pair
  wait q w = process_post_login_req os t (record w { to_parent = q })

  unfoldable pub vsf_two_process_get_priv_data_sock : ℕ → Pair → Run (ℤ × Pair)
  unfolding priv_sock_send_cmd priv_sock_send_int process_post_login_req data_sock_answer
  vsf_two_process_get_priv_data_sock port w = do
    let q = priv_sock_send_int (pos port) (priv_sock_send_cmd sock_get_data_sock w.to_parent)
    w' ← wait q w
    data_sock_answer w'

  unfoldable pub vsf_two_process_pasv_cleanup : Pair → Run Pair
  unfolding priv_sock_send_cmd process_post_login_req good_answer
  vsf_two_process_pasv_cleanup w = do
    w' ← wait (priv_sock_send_cmd sock_pasv_cleanup w.to_parent) w
    good_answer w'

  unfoldable pub vsf_two_process_pasv_active : Pair → Run (ℤ × Pair)
  unfolding priv_sock_send_cmd process_post_login_req priv_sock_get_int
  vsf_two_process_pasv_active w = do
    w' ← wait (priv_sock_send_cmd sock_pasv_active w.to_parent) w
    (n, a) ← priv_sock_get_int w'.to_child
    ok (n, record w' { to_child = a })

  -- The `int` as an `unsigned short`.
  unfoldable pub vsf_two_process_listen : Pair → Run (ℕ × Pair)
  unfolding priv_sock_send_cmd process_post_login_req priv_sock_get_int int_word
  vsf_two_process_listen w = do
    w' ← wait (priv_sock_send_cmd sock_pasv_listen w.to_parent) w
    (n, a) ← priv_sock_get_int w'.to_child
    ok (int_word n % 2 ^ 16, record w' { to_child = a })

  unfoldable pub vsf_two_process_get_pasv_fd : Pair → Run (ℤ × Pair)
  unfolding priv_sock_send_cmd process_post_login_req pasv_fd_answer
  vsf_two_process_get_pasv_fd w = do
    w' ← wait (priv_sock_send_cmd sock_pasv_accept w.to_parent) w
    pasv_fd_answer w'

  unfoldable pub vsf_two_process_chown_upload : ℕ → Pair → Run Pair
  unfolding priv_sock_send_cmd priv_sock_send_fd process_post_login_req good_answer
  vsf_two_process_chown_upload fd w = do
    let q = priv_sock_send_fd fd (priv_sock_send_cmd sock_chown w.to_parent)
    w' ← wait q w
    good_answer w'

  unfoldable pub vsf_one_process_get_priv_data_sock : Priv → Run (ℤ × Priv)
  unfolding vsf_privop_get_ftp_port_sock
  vsf_one_process_get_priv_data_sock p =
      vsf_privop_get_ftp_port_sock os t p.port_sockaddr.port true p

  unfoldable pub vsf_one_process_listen : Priv → Run (ℕ × Priv)
  unfolding vsf_privop_pasv_listen
  vsf_one_process_listen p = vsf_privop_pasv_listen os t p

  unfoldable pub vsf_one_process_get_pasv_fd : Priv → ℤ × Priv
  unfolding vsf_privop_accept_pasv
  vsf_one_process_get_pasv_fd p = vsf_privop_accept_pasv os t p

  unfoldable pub vsf_one_process_chown_upload : ℕ → Priv → Run Priv
  unfolding vsf_privop_do_file_chown
  vsf_one_process_chown_upload fd p = vsf_privop_do_file_chown os fd p

unfoldable pub vsf_one_process_pasv_cleanup : Priv → Priv
unfolding vsf_privop_pasv_cleanup
vsf_one_process_pasv_cleanup p = vsf_privop_pasv_cleanup p

unfoldable pub vsf_one_process_pasv_active : Priv → ℕ
unfolding vsf_privop_pasv_active
vsf_one_process_pasv_active p = vsf_privop_pasv_active p

-- The requests, with what a session has to say with each.
pub data Request : Type 0 where
  data_sock : ℕ → Request
  cleanup active listen accept : Request
  chown : ℕ → Request

abbrev pub with_result : {P : Type 0} → Run P → Run (ℤ × P)
with_result r = do p ← r; ok (pos 0, p)

abbrev pub with_port : {P : Type 0} → Run (ℕ × P) → Run (ℤ × P)
with_port r = do (n, p) ← r; ok (pos n, p)

-- Each request in both models; the caller of the second has the port in `port_sockaddr`.
abbrev pub two : Os → Settings → Request → Pair → Run (ℤ × Pair)
two os t (data_sock port) w = vsf_two_process_get_priv_data_sock os t port w
two os t cleanup w = with_result (vsf_two_process_pasv_cleanup os t w)
two os t active w = vsf_two_process_pasv_active os t w
two os t listen w = with_port (vsf_two_process_listen os t w)
two os t accept w = vsf_two_process_get_pasv_fd os t w
two os t (chown fd) w = with_result (vsf_two_process_chown_upload os t fd w)

abbrev pub one : Os → Settings → Request → Priv → Run (ℤ × Priv)
one os t (data_sock port) p = vsf_one_process_get_priv_data_sock os t p
one os t cleanup p = ok (pos 0, vsf_one_process_pasv_cleanup p)
one os t active p = ok (pos (vsf_one_process_pasv_active p), p)
one os t listen p = with_port (vsf_one_process_listen os t p)
one os t accept p = ok (vsf_one_process_get_pasv_fd os t p)
one os t (chown fd) p = with_result (vsf_one_process_chown_upload os t fd p)
