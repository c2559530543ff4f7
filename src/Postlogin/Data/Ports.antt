-- ===== src/Postlogin/Data/Ports.antt =====
-- postlogin.c: what the commands that ask for a data connection leave behind.
use dragonsunited_minecraft.Base.{
  ℕ, Bool, true, false, not, ◌&&◌, ◌||◌, [], Option, none, some, ◌≡◌, inl, inr, refl, arith, Bytes,
  Bool-cases, ◌⊎◌,
}
use dragonsunited_minecraft.Ipaddr.{vsf_sysutil_parse_uchar_string_sep}
use dragonsunited_minecraft.Ipaddr.Fields.{sep_loop-ok}
use dragonsunited_minecraft.Postlogin.Data.{
  port_cleanup, pasv_cleanup, vsf_sysutil_sockaddr_addr_equal, vsf_sysutil_is_port_reserved,
  set_port, port_of, handle_port,
}
use dragonsunited_minecraft.Postlogin.Data.Active.{both}
use dragonsunited_minecraft.Run.{Run, Stop, ok, stop, overrun}
use dragonsunited_minecraft.Session.{Tunables, Host, Session, Sockaddr, vsf_cmdio_write}

-- An address of the client that is kept is the client's own, at a port that is not reserved, unless
-- the setting lets it be any.
unfoldable pub own_port : Tunables → Sockaddr → Option Sockaddr → Bool
own_port t remote none = true
own_port t remote (some a) =
    t.port_promiscuous
    || (vsf_sysutil_sockaddr_addr_equal remote a && not (vsf_sysutil_is_port_reserved a.port))

pub record WellFormed (t : Tunables) (s : Session) : Type 0 where
  pub one_kind : both s ≡ false
  pub own : own_port t s.remote_addr s.port_sockaddr ≡ true

-- The command returns a session that is well-formed, or stops so where `Bad` holds.
abbrev pub Ends : Tunables → Stop → Type 0 → Run Session → Type 0
Ends t why Bad r = ((s : Session) × (r ≡ ok s) × WellFormed t s) ⊎ (Bad × (r ≡ stop why))

accepted : (a b c : Bool) → (not a && (not b || c)) ≡ false → (a || (b && not c)) ≡ true
accepted true b c e = refl
accepted false true true e = cc
accepted false true false e = refl
accepted false false c e = cc

-- Neither is active.
pub record Idle (s : Session) : Type 0 where
  pub silent : s.pasv_listening ≡ false
  pub unset : s.port_sockaddr ≡ none

pub Idle-WellFormed : (t : Tunables) (s : Session) → Idle s → WellFormed t s
unfolding own_port
Idle-WellFormed t s i = record { one_kind = rw (i.silent) refl; own = rw (i.unset) refl }

pub cleanup-Idle : (s : Session) → Idle (port_cleanup (pasv_cleanup s))
unfolding port_cleanup pasv_cleanup
cleanup-Idle s = elim (Bool-cases s.pasv_listening) [
  | inl e ↦ record { silent = rw e refl; unset = refl }
  | inr e ↦ record { silent = rw e refl; unset = refl }
]

pub cleanup_other-Idle : (s : Session) → Idle (pasv_cleanup (port_cleanup s))
unfolding port_cleanup pasv_cleanup
cleanup_other-Idle s = elim (Bool-cases s.pasv_listening) [
  | inl e ↦ record { silent = rw e refl; unset = rw e refl }
  | inr e ↦ record { silent = rw e refl; unset = rw e refl }
]

module _ (t : Tunables) (h : Host) where
  pub write-WellFormed :
      {Bad : Type 0} (s : Session) (status : ℕ) (what : Bytes)
      → Idle s
      → Ends t overrun Bad (ok (vsf_cmdio_write status what s))
  write-WellFormed s status what i =
      let i' : Idle (vsf_cmdio_write status what s) = record {
        silent = i.silent;
        unset = i.unset;
      } in
      inl (vsf_cmdio_write status what s, refl, Idle-WellFormed t _ i')

  set_port-WellFormed :
      (s : Session) (a : Sockaddr) (refusal success : Bytes) (status : ℕ)
      → Idle s
      → WellFormed t (set_port t h s a refusal status success)
  unfolding set_port own_port
  set_port-WellFormed s a refusal success status i =
      let eq = vsf_sysutil_sockaddr_addr_equal s.remote_addr a in
      let res = vsf_sysutil_is_port_reserved a.port in
      elim (Bool-cases (not t.port_promiscuous && (not eq || res))) [
        | inl e ↦ rw e (record { one_kind = rw (i.silent) refl; own = refl })
        | inr e ↦
            rw e
              (record { one_kind = rw (i.silent) refl; own = accepted t.port_promiscuous eq res e })
      ]

  pub set_port-Ends :
      {Bad : Type 0} (s : Session) (a : Sockaddr) (refusal success : Bytes) (status : ℕ)
      → Idle s
      → Ends t overrun Bad (ok (set_port t h s a refusal status success))
  set_port-Ends s a refusal success status i =
      inl (_, refl, set_port-WellFormed s a refusal success status i)

  port_of-WellFormed :
      (s : Session) (vals : Option Bytes) → Idle s → WellFormed t (port_of t h s vals)
  unfolding port_of
  port_of-WellFormed s none i =
      Idle-WellFormed t _
        (let i' : Idle (port_of t h s none) = record { silent = i.silent; unset = i.unset } in i')
  port_of-WellFormed s (some vals) i = set_port-WellFormed s _ _ _ _ i

  -- `PORT` returns for every argument, and leaves a well-formed session, whatever was there before.
  pub handle_port-WellFormed :
      (s : Session) → (s' : Session) × (handle_port t h s ≡ ok s') × WellFormed t s'
  unfolding handle_port vsf_sysutil_parse_uchar_string_sep
  handle_port-WellFormed s =
      let s1 = port_cleanup (pasv_cleanup s) in
      let (vals, e) = sep_loop-ok h.atoi 6 s1.ftp_arg_str b',' [] (omega arith) in
      (port_of t h s1 vals, rw e refl, port_of-WellFormed s1 vals (cleanup-Idle s))
