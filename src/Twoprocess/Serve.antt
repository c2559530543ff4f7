-- ===== src/Twoprocess/Serve.antt =====
-- The privileged parent against whatever its child sends.
use dragonsunited_minecraft.Base.{
  ℕ, zero, suc, ◌%◌, ◌^◌, Bool, true, false, ◌&&◌, [], ◌∷◌, Option, ◌==◌, if◌then◌else◌, Bytes, ◌≡◌,
  inl, inr, refl, arith, Bool-cases,
}
use dragonsunited_minecraft.Base.Int.{ℤ, pos, negsuc}
use dragonsunited_minecraft.Run.{Run}
use dragonsunited_minecraft.Privsock.{
  byte, passed, Stream, int_word, read_item, read_word, priv_sock_get_cmd, priv_sock_get_int,
  priv_sock_recv_fd,
}
use dragonsunited_minecraft.Privops.Sockets.{
  Settings, Os, Priv, close, vsf_privop_get_ftp_port_sock, vsf_privop_pasv_listen,
  vsf_privop_accept_pasv, vsf_privop_do_file_chown,
}
use dragonsunited_minecraft.Privops.Sockets.Allowed.{
  OrDies, bind-OrDies, Guarded, call-Guarded, pasv_listen-Guarded, accept_pasv-Guarded,
  pasv_cleanup-Guarded, get_ftp_port_sock-Guarded, do_file_chown-Guarded,
}
use dragonsunited_minecraft.Twoprocess.{
  Pair, send_data_sock, send_accepted, cmd_process_chown, cmd_process_get_data_sock,
  cmd_process_pasv_cleanup, cmd_process_pasv_active, cmd_process_pasv_listen,
  cmd_process_pasv_accept, request, process_post_login_req, serve, sock_chown, sock_get_data_sock,
  sock_pasv_cleanup, sock_pasv_active, sock_pasv_listen, sock_pasv_accept,
}

-- What is read from the other end is there or the process dies; nothing is said of it.
abbrev Any : {A : Type 0} → A → Type 0
Any a = Unit

item-OrDies : (q : Stream) → OrDies Any (read_item q)
item-OrDies [] = inl refl
item-OrDies (i ∷ q) = inr (_, refl, tt)

cmd-OrDies : (q : Stream) → OrDies Any (priv_sock_get_cmd q)
unfolding priv_sock_get_cmd
cmd-OrDies q = item-OrDies q

fd-OrDies : (q : Stream) → OrDies Any (priv_sock_recv_fd q)
unfolding priv_sock_recv_fd
fd-OrDies [] = inl refl
fd-OrDies (byte b ∷ q) = inl refl
fd-OrDies (passed fd ∷ q) = inr (_, refl, tt)

int_word-OrDies : (q : Stream) → OrDies Any (read_word q)
unfolding read_word
int_word-OrDies [] = inl refl
int_word-OrDies (a ∷ []) = inl refl
int_word-OrDies (a ∷ b ∷ []) = inl refl
int_word-OrDies (a ∷ b ∷ c ∷ []) = inl refl
int_word-OrDies (a ∷ b ∷ c ∷ d ∷ q) = inr (_, refl, tt)

int-OrDies : (q : Stream) → OrDies Any (priv_sock_get_int q)
unfolding priv_sock_get_int
int-OrDies q = bind-OrDies (read_word q) _ (int_word-OrDies q) (λ r k. inr (_, refl, tt))

module _ (os : Os) (t : Settings) (client : Bytes) (anon guest owner : Option ℕ) where
  abbrev pub GuardedPair : Pair → Type 0
  GuardedPair w = Guarded os t client anon guest owner w.priv

  data_sock-Guarded :
      (fd : ℤ) (q a : Stream) (p : Priv)
      → Guarded os t client anon guest owner p
      → OrDies GuardedPair (send_data_sock fd q a p)
  unfolding send_data_sock
  data_sock-Guarded (negsuc n) q a p g = inr (_, refl, g)
  data_sock-Guarded (pos fd) q a p g =
      inr (_, refl, call-Guarded os t client anon guest owner (close fd) p g tt)

  send_accepted-Guarded :
      (fd : ℤ) (q a : Stream) (p : Priv)
      → Guarded os t client anon guest owner p
      → OrDies GuardedPair (send_accepted fd q a p)
  unfolding send_accepted
  send_accepted-Guarded (negsuc n) q a p g = inr (_, refl, g)
  send_accepted-Guarded (pos fd) q a p g =
      inr (_, refl, call-Guarded os t client anon guest owner (close fd) p g tt)

  chown-Guarded :
      (q a : Stream) (p : Priv)
      → t.chown_uploads ≡ true
      → Guarded os t client anon guest owner p
      → OrDies GuardedPair (cmd_process_chown os t q a p)
  unfolding cmd_process_chown
  chown-Guarded q a p h g = bind-OrDies (priv_sock_recv_fd q) _ (fd-OrDies q) (λ (fd, q') k.
      bind-OrDies (vsf_privop_do_file_chown os fd p) _
        (do_file_chown-Guarded os t client anon guest owner fd p h g)
        (λ p' g'. inr (_, refl, call-Guarded os t client anon guest owner (close fd) p' g' tt)))

  get_data_sock-Guarded :
      (q a : Stream) (p : Priv)
      → Guarded os t client anon guest owner p
      → OrDies GuardedPair (cmd_process_get_data_sock os t q a p)
  unfolding cmd_process_get_data_sock
  get_data_sock-Guarded q a p g = bind-OrDies (priv_sock_get_int q) _ (int-OrDies q) (λ (n, q') k.
      bind-OrDies (vsf_privop_get_ftp_port_sock os t (int_word n % 2 ^ 16) false p) _
        (get_ftp_port_sock-Guarded os t client anon guest owner (int_word n % 2 ^ 16) p g)
        (λ (fd, p') g'. data_sock-Guarded fd q' a p' g'))

  request-Guarded :
      (cmd : ℕ) (q a : Stream) (p : Priv)
      → Guarded os t client anon guest owner p
      → OrDies GuardedPair (request os t cmd q a p)
  unfolding request cmd_process_pasv_cleanup cmd_process_pasv_active cmd_process_pasv_listen
      cmd_process_pasv_accept
  request-Guarded cmd q a p g = elim (Bool-cases (t.chown_uploads && (cmd == sock_chown))) [
    | inl e ↦ rw e (chown-Guarded q a p (first t.chown_uploads (cmd == sock_chown) e) g)
    | inr e ↦ rw e (
        later (cmd == sock_get_data_sock) (get_data_sock-Guarded q a p g) (
          later (cmd == sock_pasv_cleanup)
            (inr (_, refl, pasv_cleanup-Guarded os t client anon guest owner p g))
            (later (cmd == sock_pasv_active) (inr (_, refl, g)) (
              later (cmd == sock_pasv_listen)
                (bind-OrDies (vsf_privop_pasv_listen os t p) _
                  (pasv_listen-Guarded os t client anon guest owner p g)
                  (λ (port, p') g'. inr (_, refl, g')))
                (later (cmd == sock_pasv_accept)
                  (send_accepted-Guarded (vsf_privop_accept_pasv os t p).0 q a
                    (vsf_privop_accept_pasv os t p).1
                    (accept_pasv-Guarded os t client anon guest owner p g))
                  (inl refl))))))
  ]
    where
      first : (a b : Bool) → (a && b) ≡ true → a ≡ true
      first a b e = ground arith

      later :
          (b : Bool) {x y : Run Pair}
          → OrDies GuardedPair x
          → OrDies GuardedPair y
          → OrDies GuardedPair (if b then x else y)
      later true h k = h
      later false h k = k

  req-Guarded : (w : Pair) → GuardedPair w → OrDies GuardedPair (process_post_login_req os t w)
  unfolding process_post_login_req
  req-Guarded w g =
      bind-OrDies (priv_sock_get_cmd w.to_parent) _ (cmd-OrDies w.to_parent)
        (λ (cmd, q) k. request-Guarded cmd q w.to_child w.priv g)

  -- Whatever the child sends, the privileged parent dies or has made none but allowed calls: after
  -- any number of requests, it has connected to the client alone and to no reserved port, has bound
  -- its sockets to the port of the settings for data, cut to 16 bits, or to one of the passive range,
  -- and has given to the configured user only regular files of the anonymous or the guest user, and
  -- those only where the settings want that.
  pub serve-Guarded : (n : ℕ) (w : Pair) → GuardedPair w → OrDies GuardedPair (serve os t n w)
  unfolding serve
  serve-Guarded zero w g = inr (w, refl, g)
  serve-Guarded (suc n) w g =
      bind-OrDies (process_post_login_req os t w) _ (req-Guarded w g)
        (λ w' g'. serve-Guarded n w' g')
