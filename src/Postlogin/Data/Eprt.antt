-- ===== src/Postlogin/Data/Eprt.antt =====
-- postlogin.c, `handle_eprt`: what it leaves behind, and where it stops.
use dragonsunited_minecraft.Base.{
  ℕ, true, false, not, ◌||◌, [], Option, none, some, ◌≡◌, inl, inr, refl, sym, ap, ◌∙◌, arith, ltb,
  leb, ◌==◌, ◌<◌, length, take, Bytes, text, Bool-cases,
}
use dragonsunited_minecraft.Base.Int.{ℤ, pos, negsuc}
use dragonsunited_minecraft.Ipaddr.{
  vsf_sysutil_parse_uchar_string_sep, vsf_sysutil_parse_ipv4, vsf_sysutil_parse_ipv6,
}
use dragonsunited_minecraft.Ipaddr.Fields.{sep_loop-ok}
use dragonsunited_minecraft.Ipaddr.Groups.{parse_ipv6-length}
use dragonsunited_minecraft.Postlogin.Data.{
  port_cleanup, pasv_cleanup, vsf_sysutil_sockaddr_set_ipv4addr, vsf_sysutil_sockaddr_set_ipv6addr,
  eprt_proto, eprt_address, eprt_set, eprt_port, eprt_rest, eprt_body, handle_eprt,
}
use dragonsunited_minecraft.Run.{ok, stop, overrun}
use dragonsunited_minecraft.Postlogin.Data.Ports.{
  Ends, Idle, cleanup_other-Idle, write-WellFormed, set_port-Ends,
}
use dragonsunited_minecraft.Session.{Tunables, Host, Session, Sockaddr}
use dragonsunited_minecraft.Str.Text.{c_text, str_isempty}
use dragonsunited_minecraft.Str.Text.Split.{before, after, str_split_char-parts}

set_ipv6addr-long :
    (a : Sockaddr) (raw : Bytes)
    → a.is_ipv6 ≡ true
    → leb 16 (length raw) ≡ true
    → vsf_sysutil_sockaddr_set_ipv6addr a raw ≡ ok (record a { addr = take 16 raw })
unfolding vsf_sysutil_sockaddr_set_ipv6addr
set_ipv6addr-long a raw e k = rw k (rw e refl)

set_ipv6addr-short :
    (a : Sockaddr) (raw : Bytes)
    → a.is_ipv6 ≡ true
    → leb 16 (length raw) ≡ false
    → vsf_sysutil_sockaddr_set_ipv6addr a raw ≡ stop overrun
unfolding vsf_sysutil_sockaddr_set_ipv6addr
set_ipv6addr-short a raw e k = rw k (rw e refl)

module _ (t : Tunables) (h : Host) where
  eprt_proto-v6 :
      (s : Session) (z : ℤ) (n : ℕ)
      → eprt_proto t h s z ≡ some n
      → (n == 2) ≡ true
      → s.local_addr.is_ipv6 ≡ true
  unfolding eprt_proto
  eprt_proto-v6 s (pos k) n e two = elim (Bool-cases s.local_addr.is_ipv6) [
    | inl v ↦ v
    | inr v ↦ ground arith
  ]
  eprt_proto-v6 s (negsuc k) n e two = cc

  eprt_set-Ends :
      {Bad : Type 0} (s : Session) (proto : ℕ) (raw : Bytes) (port : ℕ)
      → ((proto == 2) ≡ true → s.local_addr.is_ipv6 ≡ true)
      → ((proto == 2) ≡ true → leb 16 (length raw) ≡ false → Bad)
      → Idle s
      → Ends t overrun Bad (eprt_set t h s proto raw port)
  unfolding eprt_set
  eprt_set-Ends s proto raw port v6 bad i = elim (Bool-cases (proto == 2)) [
    | inl two ↦ elim (Bool-cases (leb 16 (length raw))) [
      | inl long ↦
          let a = record s.local_addr { addr = take 16 raw; port = port } in
          rw two (
            rw (set_ipv6addr-long s.local_addr raw (v6 two) long) (
              set_port-Ends t h s a (text "Illegal EPRT command.")
                (text "EPRT command successful. Consider using EPSV.") 200 i))
      | inr short ↦
          rw two
            (rw (set_ipv6addr-short s.local_addr raw (v6 two) short) (inr (bad two short, refl)))
    ]
    | inr four ↦
        let a = record (vsf_sysutil_sockaddr_set_ipv4addr s.local_addr raw) { port = port } in
        rw four (
          set_port-Ends t h s a (text "Illegal EPRT command.")
            (text "EPRT command successful. Consider using EPSV.") 200 i)
  ]

  eprt_port-Ends :
      {Bad : Type 0} (s : Session) (proto : ℕ) (raw rest field : Bytes) (z : ℤ)
      → ((proto == 2) ≡ true → s.local_addr.is_ipv6 ≡ true)
      → ((proto == 2) ≡ true → leb 16 (length raw) ≡ false → Bad)
      → Idle s
      → Ends t overrun Bad (eprt_port t h s proto raw rest field z)
  unfolding eprt_port
  eprt_port-Ends s proto raw rest field (negsuc n) v6 bad i = write-WellFormed t h s _ _ i
  eprt_port-Ends s proto raw rest field (pos n) v6 bad i =
      elim (Bool-cases (not (str_isempty rest) || str_isempty field)) [
        | inl e ↦ rw e (write-WellFormed t h s _ _ i)
        | inr e ↦ elim (Bool-cases (ltb 65535 n)) [
          | inl k ↦ rw (e, k) (write-WellFormed t h s _ _ i)
          | inr k ↦ rw (e, k) (eprt_set-Ends s proto raw n v6 bad i)
        ]
      ]

  eprt_rest-Ends :
      {Bad : Type 0} (s : Session) (proto : ℕ) (part : Bytes) (raw : Option Bytes)
      → ((proto == 2) ≡ true → s.local_addr.is_ipv6 ≡ true)
      → ((r : Bytes) → raw ≡ some r → (proto == 2) ≡ true → leb 16 (length r) ≡ false → Bad)
      → Idle s
      → Ends t overrun Bad (eprt_rest t h s proto part raw)
  unfolding eprt_rest
  eprt_rest-Ends s proto part none v6 bad i = write-WellFormed t h s _ _ i
  eprt_rest-Ends s proto part (some raw) v6 bad i =
      rw (str_split_char-parts part b'|' (omega arith))
        (eprt_port-Ends s proto raw _ _ _ v6 (bad raw refl) i)

  eprt_address-ok :
      (part : Bytes) (proto : ℕ) → (o : Option Bytes) × (eprt_address t h part proto ≡ ok o)
  unfolding eprt_address vsf_sysutil_parse_ipv4 vsf_sysutil_parse_uchar_string_sep
  eprt_address-ok part proto = elim (Bool-cases (proto == 2)) [
    | inl two ↦
        let (o, e, short) = parse_ipv6-length (before b'%' part) in
        (o, rw two (rw (str_split_char-parts part b'%' (omega arith)) e))
    | inr four ↦ let (o, e) = sep_loop-ok h.atoi 4 part b'.' [] (omega arith) in (o, rw four e)
  ]

  -- The address of IPv6 in an argument, the scope left out.
  abbrev pub address_of : Bytes → Bytes
  address_of part = before b'%' (before b'|' part)

  eprt_address-v6 :
      (part : Bytes) (proto : ℕ)
      → (proto == 2) ≡ true
      → eprt_address t h (before b'|' part) proto ≡ vsf_sysutil_parse_ipv6 (address_of part)
  unfolding eprt_address
  eprt_address-v6 part proto two =
      rw two (rw (str_split_char-parts (before b'|' part) b'%' (omega arith)) refl)

  eprt_body-Ends :
      {Bad : Type 0} (s : Session) (part : Bytes) (proto : Option ℕ)
      → ((n : ℕ) → proto ≡ some n → (n == 2) ≡ true → s.local_addr.is_ipv6 ≡ true)
      → ((n : ℕ) (raw : Bytes)
          → proto ≡ some n
          → (n == 2) ≡ true
          → vsf_sysutil_parse_ipv6 (address_of part) ≡ ok (some raw)
          → leb 16 (length raw) ≡ false
          → Bad)
      → Idle s
      → Ends t overrun Bad (eprt_body t h s part proto)
  unfolding eprt_body
  eprt_body-Ends s part none v6 bad i = write-WellFormed t h s _ _ i
  eprt_body-Ends s part (some proto) v6 bad i =
      let (raw, e) = eprt_address-ok (before b'|' part) proto in
      rw (str_split_char-parts part b'|' (omega arith)) (
        rw e (
          eprt_rest-Ends s proto _ raw (v6 proto refl)
            (λ r k two.
              bad proto r refl two (sym (eprt_address-v6 part proto two) ∙ e ∙ ap (λ z. ok z) k))
            i))

  -- The text that stands for the address in the argument of a session whose local address is of
  -- IPv6 is taken for an address of fewer than sixteen bytes.
  abbrev pub TooShort : Session → Type 0
  TooShort s =
      (s.local_addr.is_ipv6 ≡ true)
      × ((raw : Bytes) × (vsf_sysutil_parse_ipv6
              (address_of (after b'|' (after b'|' s.ftp_arg_str)))
            ≡ ok (some raw))
          × (length raw < 16))

  cleanup_keeps :
      (s : Session)
      → ((pasv_cleanup (port_cleanup s)).ftp_arg_str ≡ s.ftp_arg_str)
        × ((pasv_cleanup (port_cleanup s)).local_addr ≡ s.local_addr)
  unfolding port_cleanup pasv_cleanup
  cleanup_keeps s = elim (Bool-cases s.pasv_listening) [
    | inl e ↦ rw e (refl, refl)
    | inr e ↦ rw e (refl, refl)
  ]

  below_sixteen : (n : ℕ) → leb 16 n ≡ false → n < 16
  below_sixteen n e = ground arith

  -- `EPRT`, whatever its argument and the session before, returns a well-formed session, or stops at
  -- the copy of an address of IPv6, which happens only where the text of the address is taken for
  -- one of fewer than sixteen bytes, and the local address is of IPv6.
  pub handle_eprt-Ends : (s : Session) → Ends t overrun (TooShort s) (handle_eprt t h s)
  unfolding handle_eprt
  handle_eprt-Ends s =
      let s1 = pasv_cleanup (port_cleanup s) in
      let (arg, local) = cleanup_keeps s in
      let i = cleanup_other-Idle s in
      let parts2 = after b'|' s1.ftp_arg_str in
      let v6 = λ (n : ℕ). eprt_proto-v6 s1 (h.atoi (c_text (before b'|' parts2))) n in
      let bad : (n : ℕ) (raw : Bytes)
          → eprt_proto t h s1 (h.atoi (c_text (before b'|' parts2))) ≡ some n
          → (n == 2) ≡ true
          → vsf_sysutil_parse_ipv6 (address_of (after b'|' parts2)) ≡ ok (some raw)
          → leb 16 (length raw) ≡ false
          → TooShort s =
        λ n raw p two e short. (
          sym (ap (λ z. z.is_ipv6) local) ∙ v6 n p two,
          (
            raw,
            sym (ap (λ z. vsf_sysutil_parse_ipv6 (address_of (after b'|' (after b'|' z)))) arg) ∙ e,
            below_sixteen (length raw) short,
          ),
        ) in
      rw (str_split_char-parts s1.ftp_arg_str b'|' (omega arith)) (
        rw (str_split_char-parts parts2 b'|' (omega arith))
          (elim (Bool-cases (not (str_isempty (before b'|' s1.ftp_arg_str)))) [
            | inl e ↦ rw e (write-WellFormed t h s1 _ _ i)
            | inr e ↦ rw e (eprt_body-Ends s1 _ _ v6 bad i)
          ]))
