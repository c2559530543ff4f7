-- ===== src/Privops/Sockets/Allowed.antt =====
-- Which calls the privileged process may make for its child, and that the operations make no other.
use dragonsunited_minecraft.Base.{
  ℕ, zero, suc, ◌%◌, ◌^◌, ◌≤◌, Bool, true, false, not, ◌&&◌, ◌||◌, List, [], ◌∷◌, Option, none,
  some, ltb, if◌then◌else◌, Bytes, ◌≡◌, ◌⊎◌, inl, inr, refl, sym, ap, ◌∙◌, arith, Bool-cases,
  Option-cases, ltb→le,
}
use mathlib.Core.Path.{subst}
use dragonsunited_minecraft.Postlogin.Data.{
  vsf_sysutil_sockaddr_addr_equal, vsf_sysutil_is_port_reserved,
}
use dragonsunited_minecraft.Run.{Run, ok, stop, die, ◌>>=◌}
use dragonsunited_minecraft.Session.{Sockaddr}
use dragonsunited_minecraft.Privops.Sockets.{
  Settings, Os, Priv, Call, socket, bind, listen, connect, accept, close, chown, random, is_fine,
  is_busy, is_uid, is_no_uid, chown_refused, accept_result, may_retry, call, fchown,
  sockaddr_set_port, lowest_port, highest_port, drawn, bind_and_listen, bind_twice, connect_to,
  pasv_tries, vsf_privop_get_ftp_port_sock, vsf_privop_pasv_listen, vsf_privop_accept_pasv,
  vsf_privop_pasv_cleanup, vsf_privop_do_file_chown,
}
use dragonsunited_minecraft.Privops.Sockets.Range.{drawn-InRange}

-- The process dies, or goes on with what `Q` holds of.
abbrev pub OrDies : {A : Type 0} → (A → Type 0) → Run A → Type 0
OrDies {A} Q r = (r ≡ stop die) ⊎ ((a : A) × (r ≡ ok a) × Q a)

pub bind-OrDies :
    {A B : Type 0} {P : A → Type 0} {Q : B → Type 0} (r : Run A) (f : A → Run B)
    → OrDies P r
    → ((a : A) → P a → OrDies Q (f a))
    → OrDies Q (r >>= f)
bind-OrDies r f (inl e) k = inl (rw e refl)
bind-OrDies r f (inr (a, e, p)) k = elim (k a p) [
  | inl g ↦ inl (rw e g)
  | inr (b, g, q) ↦ inr (b, rw e g, q)
]

tests :
    (n r a b : Bool)
    → (n || (not r || (not a && not b))) ≡ false
    → (n ≡ false) × (r ≡ true) × ((a ≡ true) ⊎ (b ≡ true))
tests true r a b e = absurd (ground arith)
tests false false a b e = absurd (ground arith)
tests false true true b e = (refl, refl, inl refl)
tests false true false true e = (refl, refl, inr refl)
tests false true false false e = absurd (ground arith)

module _ (os : Os) (t : Settings) (client : Bytes) (anon guest owner : Option ℕ) where
  -- A call after those before it. The ports are that of the settings for data connections, cut to
  -- 16 bits, or lie
  -- in the passive range; a connection goes to the client, and not to a reserved port; an upload is
  -- given away where it is a regular file of the anonymous or the guest user.
  abbrev pub Allowed : Call → List Call → Type 0
  Allowed (bind s port) before =
      (port ≡ (if t.connect_from_port_20 then t.ftp_data_port % 2 ^ 16 else 0))
      ⊎ ((lowest_port os t ≤ port) × (port ≤ highest_port os t))
  Allowed (connect s a) before = (a.addr ≡ client) × (1024 ≤ a.port)
  Allowed (chown fd u) before =
      (t.chown_uploads ≡ true)
      × (owner ≡ some u)
      × ((os.fstat before fd).regfile ≡ true)
      × ((is_uid anon (os.fstat before fd).uid ≡ true)
          ⊎ (is_uid guest (os.fstat before fd).uid ≡ true))
  Allowed _ before = Unit

  abbrev pub AllAllowed : List Call → Type 0
  AllAllowed [] = Unit
  AllAllowed (c ∷ cs) = Allowed c cs × AllAllowed cs

  -- The session of the client with these users, in which no other call has been made.
  abbrev pub Guarded : Priv → Type 0
  Guarded p =
      (p.remote_addr.addr ≡ client)
      × (p.anon_ftp_uid ≡ anon)
      × (p.guest_user_uid ≡ guest)
      × (p.anon_upload_chown_uid ≡ owner)
      × AllAllowed p.calls

  -- One more call.
  pub call-Guarded : (c : Call) (p : Priv) → Guarded p → Allowed c p.calls → Guarded (call c p)
  call-Guarded c p (a, b, d, e, all) h = (a, b, d, e, (h, all))

  bind_and_listen-Guarded :
      (s port : ℕ) (p : Priv)
      → Guarded p
      → lowest_port os t ≤ port
      → port ≤ highest_port os t
      → Guarded (bind_and_listen os t s port p).1
  unfolding bind_and_listen
  bind_and_listen-Guarded s port p g low high =
      let g' = call-Guarded (bind s port) p g (inr (low, high)) in
      elim (Bool-cases (is_fine (os.bind p.calls port))) [
        | inl e ↦ rw e (call-Guarded (listen s) (call (bind s port) p) g' tt)
        | inr e ↦ rw e g'
      ]

  drawn-Guarded : (p : Priv) → Guarded p → Guarded (drawn os t p).1
  drawn-Guarded p g = call-Guarded random (call random p) (call-Guarded random p g tt) tt

  tries-Guarded :
      (n s : ℕ) (p : Priv) → Guarded p → OrDies (λ r. Guarded r.1) (pasv_tries os t n s p)
  unfolding pasv_tries
  tries-Guarded zero s p g = inl refl
  tries-Guarded (suc n) s p g =
      let (port, p') = drawn os t p in
      let (answer, p'') = bind_and_listen os t s port p' in
      let (low, high) = drawn-InRange os t p in
      let g' = bind_and_listen-Guarded s port p' (drawn-Guarded p g) low high in
      elim (Bool-cases (is_fine answer)) [
        | inl e ↦ inr ((port, p''), rw e refl, g')
        | inr e ↦ elim (Bool-cases (is_busy answer)) [
          | inl b ↦ rw (e, b) (tries-Guarded n s p'' g')
          | inr b ↦ inl (rw (e, b) refl)
        ]
      ]

  pub pasv_listen-Guarded :
      (p : Priv) → Guarded p → OrDies (λ r. Guarded r.1) (vsf_privop_pasv_listen os t p)
  unfolding vsf_privop_pasv_listen
  pasv_listen-Guarded p g =
      let s = os.socket p.calls in
      tries-Guarded 9 s (record (call (socket s) p) { pasv_listen_fd = some s })
        (call-Guarded (socket s) p g tt)

  accept_result-Guarded :
      (o : Option (ℕ × Sockaddr)) (p : Priv) → Guarded p → Guarded (accept_result os t o p).1
  unfolding accept_result
  accept_result-Guarded none p g = g
  accept_result-Guarded (some (fd, a)) p g =
      let refused =
        not t.pasv_promiscuous && not (vsf_sysutil_sockaddr_addr_equal p.remote_addr a) in
      elim (Bool-cases refused) [ inl r ↦ rw r (call-Guarded (close fd) p g tt) | inr r ↦ rw r g ]

  pub accept_pasv-Guarded : (p : Priv) → Guarded p → Guarded (vsf_privop_accept_pasv os t p).1
  unfolding vsf_privop_accept_pasv
  accept_pasv-Guarded p g =
      accept_result-Guarded (os.accept p.calls) (call accept p) (call-Guarded accept p g tt)

  pub pasv_cleanup-Guarded : (p : Priv) → Guarded p → Guarded (vsf_privop_pasv_cleanup p)
  unfolding vsf_privop_pasv_cleanup
  pasv_cleanup-Guarded p g = elim (Option-cases p.pasv_listen_fd) [
    | inl e ↦ rw e g
    | inr (fd, e) ↦ rw e (call-Guarded (close fd) p g tt)
  ]

  bind_twice-Guarded :
      (s port : ℕ) (p : Priv)
      → port ≡ (if t.connect_from_port_20 then t.ftp_data_port % 2 ^ 16 else 0)
      → Guarded p
      → OrDies Guarded (bind_twice os s port p)
  unfolding bind_twice
  bind_twice-Guarded s port p h g =
      let p' = call (bind s port) p in
      let g' = call-Guarded (bind s port) p g (inl h) in
      let g'' = call-Guarded (bind s port) p' g' (inl h) in
      let first = os.bind p.calls port in
      elim (Bool-cases (is_fine first)) [
        | inl e ↦ inr (p', rw e refl, g')
        | inr e ↦ elim (Bool-cases (may_retry first)) [
          | inl r ↦ elim (Bool-cases (is_fine (os.bind p'.calls port))) [
            | inl e' ↦ inr (call (bind s port) p', rw (e, r, e') refl, g'')
            | inr e' ↦ inl (rw (e, r, e') refl)
          ]
          | inr r ↦ inl (rw (e, r) refl)
        ]
      ]

  connect_to-Guarded :
      (s : ℕ) (a : Sockaddr) (p : Priv)
      → a.addr ≡ client
      → 1024 ≤ a.port
      → Guarded p
      → Guarded (connect_to os s a p).1
  unfolding connect_to
  connect_to-Guarded s a p h k g =
      let g' = call-Guarded (connect s a) p g (h, k) in
      elim (Bool-cases (os.connect p.calls a)) [
        | inl e ↦ rw e g'
        | inr e ↦ rw e (call-Guarded (close s) (call (connect s a) p) g' tt)
      ]

  pub get_ftp_port_sock-Guarded :
      (remote_port : ℕ) (p : Priv)
      → Guarded p
      → OrDies (λ r. Guarded r.1) (vsf_privop_get_ftp_port_sock os t remote_port false p)
  unfolding vsf_privop_get_ftp_port_sock vsf_sysutil_is_port_reserved
  get_ftp_port_sock-Guarded remote_port p0 g0 =
      let s = os.socket p0.calls in
      let p = call (socket s) p0 in
      let port = if t.connect_from_port_20 then t.ftp_data_port % 2 ^ 16 else 0 in
      elim (Bool-cases (ltb remote_port 1024)) [
        | inl e ↦ inl (rw e refl)
        | inr e ↦
            let high = ltb→le remote_port 1024 e in
            rw e (
              bind-OrDies (bind_twice os s port p) _
                (bind_twice-Guarded s port p refl (call-Guarded (socket s) p0 g0 tt))
                (λ p' g'.
                  let (a, _, _, _, _) = g' in
                  let target = sockaddr_set_port p'.remote_addr remote_port in
                  inr (_, refl, connect_to-Guarded s target _ a high g')))
      ]

  fchown-Guarded :
      (fd : ℕ) (p : Priv)
      → t.chown_uploads ≡ true
      → Guarded p
      → chown_refused p (os.fstat p.calls fd) ≡ false
      → Guarded (fchown fd p.anon_upload_chown_uid p)
  fchown-Guarded fd p h g r =
      let (_, b, d, e, _) = g in
      let st = os.fstat p.calls fd in
      let (some_uid, regular, whose) =
        tests (is_no_uid p.anon_upload_chown_uid) st.regfile (is_uid p.anon_ftp_uid st.uid)
          (is_uid p.guest_user_uid st.uid) r in
      elim (Option-cases p.anon_upload_chown_uid) [
        | inl n ↦
            let m : is_no_uid p.anon_upload_chown_uid ≡ true = rw n refl in absurd (ground arith)
        | inr (u, n) ↦
            let mine : (is_uid anon st.uid ≡ true) ⊎ (is_uid guest st.uid ≡ true) = elim whose [
              | inl w ↦ inl (ap (λ z. is_uid z st.uid) (sym b) ∙ w)
              | inr w ↦ inr (ap (λ z. is_uid z st.uid) (sym d) ∙ w)
            ] in
            subst (λ z. Guarded (fchown fd z p)) (sym n)
              (call-Guarded (chown fd u) p g (h, sym e ∙ n, regular, mine))
      ]

  -- What the tests before a change of the owner say.
  pub do_file_chown-Guarded :
      (fd : ℕ) (p : Priv)
      → t.chown_uploads ≡ true
      → Guarded p
      → OrDies Guarded (vsf_privop_do_file_chown os fd p)
  unfolding vsf_privop_do_file_chown
  do_file_chown-Guarded fd p h g =
      let st = os.fstat p.calls fd in
      elim (Bool-cases (is_uid p.anon_upload_chown_uid st.uid)) [
        | inl e ↦ inr (p, rw e refl, g)
        | inr e ↦ elim (Bool-cases (chown_refused p st)) [
          | inl r ↦ inl (rw (e, r) refl)
          | inr r ↦
              inr (fchown fd p.anon_upload_chown_uid p, rw (e, r) refl, fchown-Guarded fd p h g r)
        ]
      ]
