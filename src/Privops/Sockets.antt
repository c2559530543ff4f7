-- ===== src/Privops/Sockets.antt =====
-- privops.c: what an unprivileged client of the server may ask for behind its back: a connection
-- from a privileged port, the passive socket, and the owner of an upload. The system is a parameter
-- whose answers may depend on the calls that were made, the newest first. A descriptor stands for
-- the open file that it is of.
pub mod Range
pub mod Allowed
use dragonsunited_minecraft.Base.{
  ℕ, zero, suc, ◌+◌, ◌-◌, ◌*◌, ◌/◌, ◌%◌, ◌^◌, Bool, true, false, not, ◌&&◌, ◌||◌, List, [], ◌∷◌,
  Option, none, some, ltb, leb, ◌==◌, if◌then◌else◌, bytes_eq,
}
use dragonsunited_minecraft.Base.Int.{ℤ, pos, negsuc}
use dragonsunited_minecraft.Postlogin.Data.{
  vsf_sysutil_sockaddr_addr_equal, vsf_sysutil_is_port_reserved,
}
use dragonsunited_minecraft.Run.{Run, ok, stop, die, ◌>>=◌, ◌>>◌, die_if}
use dragonsunited_minecraft.Session.{Sockaddr}

-- The settings that are read here.
pub record Settings : Type 0 where
  pub connect_from_port_20 : Bool
  pub ftp_data_port : ℕ
  pub pasv_min_port : ℕ
  pub pasv_max_port : ℕ
  pub pasv_promiscuous : Bool
  pub chown_uploads : Bool

pub data Call : Type 0 where
  socket : ℕ → Call
  -- `bind` of a socket to a port, and `listen`
  bind : ℕ → ℕ → Call
  listen : ℕ → Call
  connect : ℕ → Sockaddr → Call
  accept : Call
  close : ℕ → Call
  chown : ℕ → ℕ → Call
  random : Call

-- What `bind` and `listen` answer.
pub data Answer : Type 0 where
  fine address_in_use access_denied failed : Answer

pub record FileStat : Type 0 where
  pub uid : ℕ
  pub regfile : Bool

pub record Os : Type 0 where
  pub socket : List Call → ℕ
  pub bind : List Call → ℕ → Answer
  pub listen : List Call → Answer
  pub connect : List Call → Sockaddr → Bool
  pub accept : List Call → Option (ℕ × Sockaddr)
  pub random : List Call → ℕ
  pub fstat : List Call → ℕ → FileStat

-- `struct vsf_session` here; a descriptor or a user that is -1 is `none`.
pub record Priv : Type 0 where
  pub remote_addr : Sockaddr
  pub port_sockaddr : Sockaddr
  pub pasv_listen_fd : Option ℕ
  pub anon_ftp_uid : Option ℕ
  pub guest_user_uid : Option ℕ
  pub anon_upload_chown_uid : Option ℕ
  pub calls : List Call

abbrev pub call : Call → Priv → Priv
call c p = record p { calls = c ∷ p.calls }

abbrev pub sockaddr_set_port : Sockaddr → ℕ → Sockaddr
sockaddr_set_port a port = record a { port = port }

-- Two tries, the second without a pardon for an address in use.
abbrev pub may_retry : Answer → Bool
may_retry address_in_use = true
may_retry _ = false

abbrev pub is_fine : Answer → Bool
is_fine fine = true
is_fine _ = false

-- SELinux may refuse where the address is in use.
abbrev pub is_busy : Answer → Bool
is_busy address_in_use = true
is_busy access_denied = true
is_busy _ = false

unfoldable pub vsf_privop_pasv_cleanup : Priv → Priv
vsf_privop_pasv_cleanup p = elim p.pasv_listen_fd [
  | none ↦ p
  | some fd ↦ record (call (close fd) p) { pasv_listen_fd = none }
]

unfoldable pub vsf_privop_pasv_active : Priv → ℕ
vsf_privop_pasv_active p = elim p.pasv_listen_fd [ none ↦ 0 | some fd ↦ 1 ]

abbrev pub is_uid : Option ℕ → ℕ → Bool
is_uid none uid = false
is_uid (some u) uid = u == uid

abbrev pub is_no_uid : Option ℕ → Bool
is_no_uid none = true
is_no_uid (some u) = false

-- An upload is given away only where it is a regular file of the anonymous or the guest user.
abbrev pub chown_refused : Priv → FileStat → Bool
chown_refused p st =
    is_no_uid p.anon_upload_chown_uid
    || (not st.regfile
        || (not (is_uid p.anon_ftp_uid st.uid) && not (is_uid p.guest_user_uid st.uid)))

abbrev pub fchown : ℕ → Option ℕ → Priv → Priv
fchown fd none p = p
fchown fd (some u) p = call (chown fd u) p

module _ (os : Os) where
  -- A number below 2 ^ 8.
  abbrev pub random_byte : Priv → ℕ × Priv
  random_byte p = (os.random p.calls % 2 ^ 8, call random p)

  unfoldable pub bind_twice : ℕ → ℕ → Priv → Run Priv
  bind_twice s port p =
      let first = os.bind p.calls port in
      let p' = call (bind s port) p in
      let second = os.bind p'.calls port in
      let p'' = call (bind s port) p' in
      let again = if is_fine second then ok p'' else stop die in
      if is_fine first then ok p' else if may_retry first then again else stop die

  -- The connection, with -1 for a failure.
  unfoldable pub connect_to : ℕ → Sockaddr → Priv → ℤ × Priv
  connect_to s a p =
      let p' = call (connect s a) p in
      if os.connect p.calls a then (pos s, p') else (negsuc 0, call (close s) p')

  module _ (t : Settings) where
    unfoldable pub vsf_privop_get_ftp_port_sock : ℕ → Bool → Priv → Run (ℤ × Priv)
    unfolding bind_twice connect_to vsf_sysutil_is_port_reserved
    vsf_privop_get_ftp_port_sock remote_port use_port_sockaddr p0 = do
      let s = os.socket p0.calls
      let p = call (socket s) p0
      die_if (vsf_sysutil_is_port_reserved remote_port)
      let port = if t.connect_from_port_20 then t.ftp_data_port % 2 ^ 16 else 0
      p' ← bind_twice s port p
      let moved = record p' { remote_addr = sockaddr_set_port p'.remote_addr remote_port }
      let direct = connect_to s p'.port_sockaddr p'
      let back = connect_to s moved.remote_addr moved
      ok (if use_port_sockaddr then direct else back)

    -- The range of ports, of which the settings are taken where they make sense.
    unfoldable pub lowest_port : ℕ
    lowest_port =
        if ltb 1024 t.pasv_min_port && leb t.pasv_min_port 65535 then t.pasv_min_port else 1024

    unfoldable pub highest_port : ℕ
    unfolding lowest_port
    highest_port =
        if leb lowest_port t.pasv_max_port && ltb t.pasv_max_port 65535
        then t.pasv_max_port
        else 65535

    -- Two random bytes scaled to the range. The quotient by 65536 and the product are exact in a
    -- `double`, whose conversion to an `unsigned short` cuts the fraction off.
    unfoldable pub scaled_port : ℕ → ℕ
    unfolding lowest_port highest_port
    scaled_port the_port =
        (lowest_port + the_port * (highest_port - lowest_port + 1) / 65536) % 2 ^ 16

    abbrev pub drawn : Priv → ℕ × Priv
    drawn p =
        let (high, p') = random_byte p in
        let (low, p'') = random_byte p' in (scaled_port ((high * 2 ^ 8) % 2 ^ 16 + low), p'')

    -- The outcome of a try: what the last call answered.
    unfoldable pub bind_and_listen : ℕ → ℕ → Priv → Answer × Priv
    bind_and_listen s port p =
        let bound = os.bind p.calls port in
        let p' = call (bind s port) p in
        if is_fine bound then (os.listen p'.calls, call (listen s) p') else (bound, p')

    -- The loop, with the number of tries that are left.
    unfoldable pub pasv_tries : ℕ → ℕ → Priv → Run (ℕ × Priv)
    unfolding scaled_port bind_and_listen
    pasv_tries zero s p = stop die
    pasv_tries (suc n) s p =
        let (port, p') = drawn p in
        let (answer, p'') = bind_and_listen s port p' in
        let rest = pasv_tries n s p'' in
        if is_fine answer then ok (port, p'') else if is_busy answer then rest else stop die

    unfoldable pub vsf_privop_pasv_listen : Priv → Run (ℕ × Priv)
    unfolding pasv_tries
    vsf_privop_pasv_listen p =
        let s = os.socket p.calls in
        pasv_tries 9 s (record (call (socket s) p) { pasv_listen_fd = some s })

    -- -1 where nobody comes, and -2 for one who is not the client.
    unfoldable pub accept_result : Option (ℕ × Sockaddr) → Priv → ℤ × Priv
    unfolding vsf_sysutil_sockaddr_addr_equal
    accept_result none p = (negsuc 0, p)
    accept_result (some (remote_fd, a)) p =
        if not t.pasv_promiscuous && not (vsf_sysutil_sockaddr_addr_equal p.remote_addr a)
        then (negsuc 1, call (close remote_fd) p)
        else (pos remote_fd, p)

    unfoldable pub vsf_privop_accept_pasv : Priv → ℤ × Priv
    unfolding accept_result
    vsf_privop_accept_pasv p = accept_result (os.accept p.calls) (call accept p)

  unfoldable pub vsf_privop_do_file_chown : ℕ → Priv → Run Priv
  vsf_privop_do_file_chown fd p =
      let st = os.fstat p.calls fd in
      if is_uid p.anon_upload_chown_uid st.uid
      then ok p
      else (do die_if (chown_refused p st); ok (fchown fd p.anon_upload_chown_uid p))
