-- ===== src/Twoprocess/Same.antt =====
-- A request over the socket pair does what the same operation does in one process.
use dragonsunited_minecraft.Base.{
  ℕ, ◌%◌, ◌^◌, ◌<◌, Bool, true, false, not, ◌&&◌, List, [], ◌∷◌, Option, none, some, if◌then◌else◌,
  ◌≡◌, ◌⊎◌, inl, inr, refl, sym, ap, ◌∙◌, arith, ltb, Bool-cases, Option-cases, append-nil,
}
use dragonsunited_minecraft.Base.Int.{ℤ, pos, negsuc}
use dragonsunited_minecraft.Postlogin.Data.{
  vsf_sysutil_sockaddr_addr_equal, vsf_sysutil_is_port_reserved,
}
use dragonsunited_minecraft.Run.{Run, ok, stop, die, ◌>>=◌}
use dragonsunited_minecraft.Session.{Sockaddr}
use dragonsunited_minecraft.Privsock.{
  byte, Stream, int_word, priv_sock_send_cmd, priv_sock_send_int, priv_sock_send_result,
  priv_sock_send_fd, priv_sock_get_cmd, priv_sock_get_result, priv_sock_get_int, priv_sock_recv_fd,
}
use dragonsunited_minecraft.Privsock.Wire.{IsInt, get_int-send_int}
use dragonsunited_minecraft.Privops.Sockets.{
  accept as accept_call, bind as bind_call, socket, is_fine, may_retry,
}
use dragonsunited_minecraft.Privops.Sockets.{
  Settings, Os, Priv, Call, call, close, sockaddr_set_port, connect_to, bind_twice,
  vsf_privop_get_ftp_port_sock, vsf_privop_pasv_listen, vsf_privop_accept_pasv, accept_result,
  vsf_privop_pasv_cleanup, vsf_privop_pasv_active, vsf_privop_do_file_chown,
}
use dragonsunited_minecraft.Privops.Sockets.Range.{pasv_listen-InRange}
use dragonsunited_minecraft.Twoprocess.{
  Pair, send_data_sock, send_accepted, cmd_process_chown, cmd_process_get_data_sock,
  cmd_process_pasv_cleanup, cmd_process_pasv_active, cmd_process_pasv_listen,
  cmd_process_pasv_accept, request, process_post_login_req, sock_get_data_sock, sock_pasv_cleanup,
  sock_pasv_active, sock_pasv_listen, sock_pasv_accept,
}
use dragonsunited_minecraft.Twoprocess.Child.{
  Request, data_sock, cleanup, active, listen, accept, chown, two, one, with_result, with_port,
  recv_data_sock, recv_pasv_fd, data_sock_answer, pasv_fd_answer, good_answer,
  vsf_two_process_get_priv_data_sock, vsf_two_process_pasv_cleanup, vsf_two_process_pasv_active,
  vsf_two_process_listen, vsf_two_process_get_pasv_fd, vsf_two_process_chown_upload,
  vsf_one_process_get_priv_data_sock, vsf_one_process_listen, vsf_one_process_get_pasv_fd,
  vsf_one_process_chown_upload, vsf_one_process_pasv_cleanup, vsf_one_process_pasv_active,
}

-- Nothing is on its way.
abbrev pub quiet : Priv → Pair
quiet p = record { to_parent = []; to_child = []; priv = p }

-- What the parent does besides: it closes its descriptor once that is passed, and writes the port
-- into the client's address.
abbrev pub closed : ℤ → Priv → Priv
closed (negsuc n) p = p
closed (pos fd) p = call (close fd) p

abbrev pub shut : Request → ℤ → Priv → Priv
shut (data_sock port) x p = closed x (record p { remote_addr = p.port_sockaddr })
shut accept x p = closed x p
shut (chown fd) x p = call (close fd) p
shut _ x p = p

-- The session's port is one of the client's address, and an upload is given away where the settings
-- want it.
abbrev pub Asked : Settings → Request → Priv → Type 0
Asked t (data_sock port) p =
    (port < 2 ^ 16) × (p.port_sockaddr ≡ sockaddr_set_port p.remote_addr port)
Asked t (chown fd) p = t.chown_uploads ≡ true
Asked t _ p = Unit

get_int-alone : (z : ℤ) → IsInt z → priv_sock_get_int (priv_sock_send_int z []) ≡ ok (z, [])
get_int-alone z h =
    ap priv_sock_get_int (sym (append-nil (priv_sock_send_int z []))) ∙ get_int-send_int z [] h

not_chown : (b : Bool) → (b && false) ≡ false
not_chown true = refl
not_chown false = refl

-- A descriptor, or the negative of a small number.
abbrev IsResult : ℤ → Type 0
IsResult (pos fd) = Unit
IsResult (negsuc n) = n < 2

-- A descriptor, or -1.
abbrev IsData : ℤ → Type 0
IsData (pos fd) = Unit
IsData (negsuc n) = n ≡ 0

bind_ok : {A B : Type 0} (r : Run A) (f : A → Run B) (a : A) → r ≡ ok a → (r >>= f) ≡ f a
bind_ok r f a e = rw e refl

bind_assoc :
    {A B C : Type 0} (r : Run A) (f : A → Run B) (g : B → Run C)
    → ((r >>= f) >>= g) ≡ (r >>= λ a. f a >>= g)
bind_assoc (stop why) f g = refl
bind_assoc (ok a) f g = refl

bind-eq : {A B : Type 0} (r r' : Run A) (f : A → Run B) → r ≡ r' → (r >>= f) ≡ (r' >>= f)
bind-eq r r' f e = ap (λ z. z >>= f) e

-- A request that has been read, of which there is no other on the way.
module _ (os : Os) (t : Settings) (p : Priv) where
  abbrev asked : ℕ → Stream → Pair
  asked cmd q = record { to_parent = byte cmd ∷ q; to_child = []; priv = p }

  abbrev answered_by : Stream → Priv → Pair
  answered_by a p' = record { to_parent = []; to_child = a; priv = p' }

  served_active :
      process_post_login_req os t (asked sock_pasv_active [])
      ≡ ok (answered_by (priv_sock_send_int (pos (vsf_privop_pasv_active p)) []) p)
  unfolding process_post_login_req priv_sock_get_cmd request cmd_process_pasv_active
  served_active = rw (not_chown t.chown_uploads) refl

  active-IsInt : IsInt (pos (vsf_privop_pasv_active p))
  unfolding vsf_privop_pasv_active
  active-IsInt = elim (Option-cases p.pasv_listen_fd) [
    | inl e ↦ rw e (omega arith)
    | inr (fd, e) ↦ rw e (omega arith)
  ]

  two_active :
      vsf_two_process_pasv_active os t (quiet p) ≡ ok (pos (vsf_privop_pasv_active p), quiet p)
  unfolding vsf_two_process_pasv_active priv_sock_send_cmd
  two_active =
      let z = pos (vsf_privop_pasv_active p) in
      bind_ok (process_post_login_req os t (asked sock_pasv_active [])) _ _ served_active
      ∙ bind_ok (priv_sock_get_int (priv_sock_send_int z [])) (λ r. ok (r.0, answered_by r.1 p))
          (z, []) (get_int-alone z active-IsInt)

  served_cleanup :
      process_post_login_req os t (asked sock_pasv_cleanup [])
      ≡ ok (answered_by (byte 1 ∷ []) (vsf_privop_pasv_cleanup p))
  unfolding process_post_login_req priv_sock_get_cmd request cmd_process_pasv_cleanup
      priv_sock_send_result
  served_cleanup = rw (not_chown t.chown_uploads) refl

  two_cleanup : vsf_two_process_pasv_cleanup os t (quiet p) ≡ ok (quiet (vsf_privop_pasv_cleanup p))
  unfolding vsf_two_process_pasv_cleanup priv_sock_send_cmd good_answer priv_sock_get_result
  two_cleanup =
      bind_ok (process_post_login_req os t (asked sock_pasv_cleanup [])) _ _ served_cleanup

  -- The answer is what the listening operation says.
  served_listen : process_post_login_req os t (asked sock_pasv_listen []) ≡ (
      vsf_privop_pasv_listen os t p >>= λ r. ok (answered_by (priv_sock_send_int (pos r.0) []) r.1))
  unfolding process_post_login_req priv_sock_get_cmd request cmd_process_pasv_listen
  served_listen = rw (not_chown t.chown_uploads) refl

  word_port : (n : ℕ) → n < 2 ^ 16 → int_word (pos n) % 2 ^ 16 ≡ n
  unfolding int_word
  word_port n h = omega arith

  two_listen :
      vsf_two_process_listen os t (quiet p)
      ≡ (vsf_privop_pasv_listen os t p >>= λ r. ok (r.0, quiet r.1))
  unfolding vsf_two_process_listen priv_sock_send_cmd
  two_listen =
      bind-eq (process_post_login_req os t (asked sock_pasv_listen [])) _ _ served_listen
      ∙ elim (pasv_listen-InRange os t p) [
        | inl e ↦ rw e refl
        | inr (port, p', e, (_, ceiling, _, _), _, _, _) ↦
            let small : port < 2 ^ 16 = omega arith in
            rw e (
              bind_ok (priv_sock_get_int (priv_sock_send_int (pos port) []))
                (λ r.
                  ok (int_word r.0 % 2 ^ 16, record { to_parent = []; to_child = r.1; priv = p' }))
                (pos port, []) (get_int-alone (pos port) (omega arith))
              ∙ ap (λ n. ok (n, quiet p')) (word_port port small))
      ]

  -- A connection from outside: the descriptor comes over the socket, or the number of the failure.
  accept_result-IsInt : (p : Priv) (o : Option (ℕ × Sockaddr)) → IsResult (accept_result os t o p).0
  unfolding accept_result
  accept_result-IsInt p none = omega arith
  accept_result-IsInt p (some (fd, a)) =
      elim (Bool-cases
        (not t.pasv_promiscuous && not (vsf_sysutil_sockaddr_addr_equal p.remote_addr a))) [
          | inl r ↦ rw r (omega arith)
          | inr r ↦ rw r tt
        ]

  served_accept :
      process_post_login_req os t (asked sock_pasv_accept [])
      ≡ send_accepted (vsf_privop_accept_pasv os t p).0 [] [] (vsf_privop_accept_pasv os t p).1
  unfolding process_post_login_req priv_sock_get_cmd request cmd_process_pasv_accept
  served_accept = rw (not_chown t.chown_uploads) refl

  -- What the child makes of the answer to a request for a descriptor.
  accept_answer :
      (x : ℤ) (p' : Priv)
      → IsResult x
      → (send_accepted x [] [] p' >>= pasv_fd_answer) ≡ ok (x, quiet (closed x p'))
  unfolding send_accepted pasv_fd_answer priv_sock_get_result recv_pasv_fd priv_sock_send_result
      priv_sock_send_fd priv_sock_send_int priv_sock_recv_fd
  accept_answer (pos fd) p' h = refl
  accept_answer (negsuc n) p' h =
      bind_ok (priv_sock_get_int (priv_sock_send_int (negsuc n) []))
        (λ r. ok (r.0, answered_by r.1 p')) (negsuc n, []) (get_int-alone (negsuc n) (omega arith))

  two_accept :
      vsf_two_process_get_pasv_fd os t (quiet p)
      ≡ ok (
        (vsf_privop_accept_pasv os t p).0,
        quiet (closed (vsf_privop_accept_pasv os t p).0 (vsf_privop_accept_pasv os t p).1),
      )
  unfolding vsf_two_process_get_pasv_fd priv_sock_send_cmd
  two_accept =
      let (x, p') = vsf_privop_accept_pasv os t p in
      let small : IsResult x =
        unfold vsf_privop_accept_pasv in
        accept_result-IsInt (call accept_call p) (os.accept p.calls) in
      bind-eq (process_post_login_req os t (asked sock_pasv_accept [])) (send_accepted x [] [] p')
        pasv_fd_answer served_accept
      ∙ accept_answer x p' small

  -- The upload's descriptor goes to the parent.
  two_chown :
      (fd : ℕ)
      → t.chown_uploads ≡ true
      → vsf_two_process_chown_upload os t fd (quiet p)
        ≡ (vsf_privop_do_file_chown os fd p >>= λ p'. ok (quiet (call (close fd) p')))
  unfolding vsf_two_process_chown_upload priv_sock_send_cmd priv_sock_send_fd process_post_login_req
      priv_sock_get_cmd request cmd_process_chown priv_sock_recv_fd priv_sock_send_result
      good_answer priv_sock_get_result
  two_chown fd h = rw h (
      bind_assoc (vsf_privop_do_file_chown os fd p)
        (λ p'. ok (answered_by (byte 1 ∷ []) (call (close fd) p'))) good_answer)

  bind_twice-calls :
      (s port : ℕ) (q : Priv)
      → (bind_twice os s port q ≡ stop die)
        ⊎ ((cs : List Call) × (bind_twice os s port q ≡ ok (record q { calls = cs })))
  unfolding bind_twice
  bind_twice-calls s port q =
      let q' = call (bind_call s port) q in
      let first = os.bind q.calls port in
      elim (Bool-cases (is_fine first)) [
        | inl e ↦ inr (q'.calls, rw e refl)
        | inr e ↦ elim (Bool-cases (may_retry first)) [
          | inl r ↦ elim (Bool-cases (is_fine (os.bind q'.calls port))) [
            | inl e' ↦ inr ((call (bind_call s port) q').calls, rw (e, r, e') refl)
            | inr e' ↦ inl (rw (e, r, e') refl)
          ]
          | inr r ↦ inl (rw (e, r) refl)
        ]
      ]

  -- The client's address is written over by that of the session's port.
  abbrev moved : ℤ × Priv → ℤ × Priv
  moved r = (r.0, record r.1 { remote_addr = r.1.port_sockaddr })

  connect-moved :
      (s : ℕ) (q : Priv)
      → connect_to os s q.port_sockaddr (record q { remote_addr = q.port_sockaddr })
        ≡ moved (connect_to os s q.port_sockaddr q)
  unfolding connect_to
  connect-moved s q = elim (Bool-cases (os.connect q.calls q.port_sockaddr)) [
    | inl e ↦ rw e refl
    | inr e ↦ rw e refl
  ]

  connect-IsData : (s : ℕ) (a : Sockaddr) (q : Priv) → IsData (connect_to os s a q).0
  unfolding connect_to
  connect-IsData s a q = elim (Bool-cases (os.connect q.calls a)) [
    | inl e ↦ rw e tt
    | inr e ↦ rw e refl
  ]

  -- A connection to the client, for a port that the session has asked for.
  same_sock :
      (port : ℕ)
      → p.port_sockaddr ≡ sockaddr_set_port p.remote_addr port
      → ((vsf_privop_get_ftp_port_sock os t port true p ≡ stop die)
          × (vsf_privop_get_ftp_port_sock os t port false p ≡ stop die))
        ⊎ ((r : ℤ × Priv) × (vsf_privop_get_ftp_port_sock os t port true p ≡ ok r)
            × (vsf_privop_get_ftp_port_sock os t port false p ≡ ok (moved r))
            × IsData r.0)
  unfolding vsf_privop_get_ftp_port_sock vsf_sysutil_is_port_reserved
  same_sock port h =
      let s = os.socket p.calls in
      let q = call (socket s) p in
      let from = if t.connect_from_port_20 then t.ftp_data_port % 2 ^ 16 else 0 in
      elim (Bool-cases (ltb port 1024)) [
        | inl e ↦ inl (rw e refl, rw e refl)
        | inr e ↦ elim (bind_twice-calls s from q) [
          | inl f ↦ inl (rw e (rw f refl), rw e (rw f refl))
          | inr (cs, f) ↦
              let q' = record q { calls = cs } in
              inr (
                connect_to os s q'.port_sockaddr q',
                rw e (rw f refl),
                rw e (
                    rw f (
                      ap (λ z. ok (connect_to os s z (record q' { remote_addr = z }))) (sym h)
                      ∙ ap ok (connect-moved s q'))),
                connect-IsData s q'.port_sockaddr q',
              )
        ]
      ]

  data_answer :
      (x : ℤ) (p' : Priv)
      → IsData x
      → (send_data_sock x [] [] p' >>= data_sock_answer) ≡ ok (x, quiet (closed x p'))
  unfolding send_data_sock data_sock_answer priv_sock_get_result recv_data_sock
      priv_sock_send_result priv_sock_send_fd priv_sock_recv_fd
  data_answer (pos fd) p' h = refl
  data_answer (negsuc n) p' h = rw h refl

  served_data :
      (port : ℕ)
      → port < 2 ^ 16
      → process_post_login_req os t (asked sock_get_data_sock (priv_sock_send_int (pos port) []))
        ≡ (vsf_privop_get_ftp_port_sock os t port false p >>= λ r. send_data_sock r.0 [] [] r.1)
  unfolding process_post_login_req priv_sock_get_cmd request cmd_process_get_data_sock
  served_data port h = rw (not_chown t.chown_uploads) (
      bind_ok (priv_sock_get_int (priv_sock_send_int (pos port) []))
        (λ n. vsf_privop_get_ftp_port_sock os t (int_word n.0 % 2 ^ 16) false p >>= λ r.
          send_data_sock r.0 n.1 [] r.1)
        (pos port, []) (get_int-alone (pos port) (omega arith))
      ∙ ap (λ n. vsf_privop_get_ftp_port_sock os t n false p >>= λ r. send_data_sock r.0 [] [] r.1)
          (word_port port h))

  two_data :
      (port : ℕ)
      → port < 2 ^ 16
      → p.port_sockaddr ≡ sockaddr_set_port p.remote_addr port
      → vsf_two_process_get_priv_data_sock os t port (quiet p) ≡ (
          vsf_privop_get_ftp_port_sock os t port true p >>= λ r.
          ok (r.0, quiet (shut (data_sock port) r.0 r.1)))
  unfolding vsf_two_process_get_priv_data_sock priv_sock_send_cmd
  two_data port small h =
      let request_q = asked sock_get_data_sock (priv_sock_send_int (pos port) []) in
      let false_sock = vsf_privop_get_ftp_port_sock os t port false p in
      let served : (process_post_login_req os t request_q >>= data_sock_answer)
          ≡ ((false_sock >>= λ r. send_data_sock r.0 [] [] r.1) >>= data_sock_answer) =
        bind-eq (process_post_login_req os t request_q) _ data_sock_answer
          (served_data port small) in
      served ∙ elim (same_sock port h) [
        | inl (e, e') ↦ rw (e, e') refl
        | inr (r, e, e', k) ↦ rw (e, e') (data_answer r.0 (moved r).1 k)
      ]

regroup_listen :
    (r : Run (ℕ × Priv))
    → with_port (r >>= λ x. ok (x.0, quiet x.1)) ≡ (with_port r >>= λ x. ok (x.0, quiet x.1))
regroup_listen (stop why) = refl
regroup_listen (ok x) = refl

regroup_chown :
    (fd : ℕ) (r : Run Priv)
    → with_result (r >>= λ p. ok (quiet (call (close fd) p)))
      ≡ (with_result r >>= λ x. ok (x.0, quiet (call (close fd) x.1)))
regroup_chown fd (stop why) = refl
regroup_chown fd (ok x) = refl

-- A request over the socket pair does what the same operation does in one process: it makes the
-- same calls and has the same result, and nothing is left on its way. Besides, the parent closes
-- its copy of a descriptor that it passes, and writes the port of a connection into the client's
-- address. The port of the session is one of the client's address, and an upload's owner is
-- changed only where the settings say so.
pub two-one :
    (os : Os) (t : Settings) (r : Request) (p : Priv)
    → Asked t r p
    → two os t r (quiet p) ≡ (one os t r p >>= λ x. ok (x.0, quiet (shut r x.0 x.1)))
unfolding vsf_one_process_get_priv_data_sock vsf_one_process_listen vsf_one_process_get_pasv_fd
    vsf_one_process_chown_upload vsf_one_process_pasv_cleanup vsf_one_process_pasv_active
two-one os t (data_sock port) p (small, h) =
    two_data os t p port small h
    ∙ ap
        (λ n. vsf_privop_get_ftp_port_sock os t n true p >>= λ r.
          ok (r.0, quiet (shut (data_sock port) r.0 r.1)))
        (sym (ap (λ a. a.port) h))
two-one os t cleanup p h = ap with_result (two_cleanup os t p)
two-one os t active p h = two_active os t p
two-one os t listen p h =
    ap with_port (two_listen os t p) ∙ regroup_listen (vsf_privop_pasv_listen os t p)
two-one os t accept p h = two_accept os t p
two-one os t (chown fd) p h =
    ap with_result (two_chown os t p fd h) ∙ regroup_chown fd (vsf_privop_do_file_chown os fd p)
