-- ===== src/Postlogin/Data/Passive.antt =====
-- postlogin.c, `handle_pasv`: what it leaves behind, and where it stops.
use dragonsunited_minecraft.Base.{
  ℕ, Bool, true, false, not, ◌&&◌, Option, none, some, ◌≡◌, inl, inr, refl, Bytes, text, Bool-cases,
  Option-cases, ◌⊎◌,
}
use dragonsunited_minecraft.Postlogin.Data.{
  port_cleanup, pasv_cleanup, epsv_refused, configured, pasv_shown, pasv_reply, pasv_listen,
  handle_pasv,
}
use dragonsunited_minecraft.Run.{Run, ok, stop, die}
use dragonsunited_minecraft.Postlogin.Data.Ports.{WellFormed, own_port, cleanup-Idle}
use dragonsunited_minecraft.Session.{emit, listen, Tunables, Host, Session, Sockaddr}
use dragonsunited_minecraft.Str.Cut.{str_upper}
use dragonsunited_minecraft.Str.Text.{c_text, str_isempty, str_equal_text}

listening-WellFormed : (t : Tunables) (s : Session) → s.port_sockaddr ≡ none → WellFormed t s
unfolding own_port
listening-WellFormed t s e = elim (Bool-cases s.pasv_listening) [
  | inl l ↦ record { one_kind = rw (e, l) refl; own = rw e refl }
  | inr l ↦ record { one_kind = rw l refl; own = rw e refl }
]

module _ (t : Tunables) (h : Host) where
  -- There is no address that is configured, or it is one.
  abbrev pub Usable : Option Bytes → Type 0
  Usable setting =
      (setting ≡ none)
      ⊎ ((address : Bytes) × (raw : Bytes) × (setting ≡ some address)
          × (h.inet_aton address ≡ some raw))

  -- The address that is configured is none.
  abbrev pub Unusable : Option Bytes → Type 0
  Unusable setting = (address : Bytes) × (setting ≡ some address) × (h.inet_aton address ≡ none)

  -- A well-formed session where the reply does not need the configured address or can use it, and
  -- the end of the process where it needs it and cannot.
  abbrev pub Passive : Bool → Run Session → Type 0
  Passive is_epsv r =
      ((s : Session) × (r ≡ ok s) × WellFormed t s × ((is_epsv ≡ true) ⊎ Usable t.pasv_address))
      ⊎ ((is_epsv ≡ false) × Unusable t.pasv_address × (r ≡ stop die))

  configured-cases :
      (s : Session) (setting : Option Bytes)
      → ((a : Sockaddr) × (configured t h s setting ≡ ok a) × Usable setting)
        ⊎ ((configured t h s setting ≡ stop die) × Unusable setting)
  configured-cases s none = inl (s.local_addr, refl, inl refl)
  configured-cases s (some address) = elim (Option-cases (h.inet_aton address)) [
    | inl k ↦ inr (rw k refl, (address, refl, k))
    | inr (raw, k) ↦
        inl
          (record { is_ipv6 = false; addr = raw; port = 0 }, rw k refl, inr (address, raw, refl, k))
  ]

  pasv_reply-Passive :
      (s : Session) (is_epsv : Bool) (the_port : ℕ)
      → s.port_sockaddr ≡ none
      → Passive is_epsv (pasv_reply t h s is_epsv the_port)
  unfolding pasv_reply pasv_shown
  pasv_reply-Passive s true the_port e = inl (_, refl, listening-WellFormed t _ e, inl refl)
  pasv_reply-Passive s false the_port e = elim (configured-cases s t.pasv_address) [
    | inl (a, k, u) ↦ rw k (inl (_, refl, listening-WellFormed t _ e, inr u))
    | inr (k, u) ↦ rw k (inr (refl, u, refl))
  ]

  pasv_listen-Passive : (s : Session) (is_epsv : Bool) → Passive is_epsv (pasv_listen t h s is_epsv)
  unfolding pasv_listen
  pasv_listen-Passive s is_epsv =
      let s1 = port_cleanup (pasv_cleanup s) in
      let s2 = record (emit listen s1) { pasv_listening = true } in
      pasv_reply-Passive s2 is_epsv (h.listen_port s1.events) (cleanup-Idle s).unset

  left_true : (a b : Bool) → (a && b) ≡ true → a ≡ true
  left_true true b e = refl
  left_true false b e = cc

  -- `PASV` and `EPSV` on a well-formed session: the process ends where it is `PASV` and
  -- `pasv_address` is set to what is no address, and in every other case, and only there, a
  -- well-formed session is returned.
  pub handle_pasv-Ends :
      (s : Session) (is_epsv : Bool) → WellFormed t s → Passive is_epsv (handle_pasv t h s is_epsv)
  unfolding handle_pasv
  handle_pasv-Ends s is_epsv w =
      let s1 = record s { ftp_arg_str = str_upper s.ftp_arg_str } in
      elim (Bool-cases (is_epsv && not (str_isempty s.ftp_arg_str))) [
        | inl e ↦
            let extended = left_true is_epsv (not (str_isempty s.ftp_arg_str)) e in
            elim (Bool-cases (str_equal_text s1.ftp_arg_str (text "ALL"))) [
              | inl k ↦
                  rw (e, k)
                    (inl (_, refl, record { one_kind = w.one_kind; own = w.own }, inl extended))
              | inr k ↦ elim (Bool-cases (epsv_refused t h s1 (h.atoi (c_text s1.ftp_arg_str)))) [
                | inl r ↦
                    rw (e, k)
                      (rw r (
                        inl (_, refl, record { one_kind = w.one_kind; own = w.own }, inl extended)))
                | inr r ↦ rw (e, k) (rw r (pasv_listen-Passive s1 is_epsv))
              ]
            ]
        | inr e ↦ rw e (pasv_listen-Passive s is_epsv)
      ]
