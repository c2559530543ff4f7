-- ===== src/Postlogin/Data.antt =====
-- postlogin.c: which data connection a session has asked for, with the addresses of sysutil.c. The
-- passive socket belongs to the session in the one process model; in the other its parent has it.
pub mod Active
pub mod Ports
pub mod Eprt
pub mod Passive
use Prim.Native.Nat.{bit_or}
use dragonsunited_minecraft.Base.{
  ℕ, zero, suc, ◌+◌, ◌-◌, ◌*◌, ◌/◌, ◌%◌, Bool, true, false, not, ◌&&◌, ◌||◌, List, [], ◌∷◌, ◌++◌,
  Option, none, some, ltb, leb, ◌==◌, if◌then◌else◌, length, take, drop, get_or, replicate, Bytes,
  bytes_eq, text,
}
use dragonsunited_minecraft.Base.Int.{ℤ, pos, negsuc}
use dragonsunited_minecraft.Ipaddr.{
  vsf_sysutil_parse_uchar_string_sep, vsf_sysutil_parse_ipv4, vsf_sysutil_parse_ipv6,
}
use dragonsunited_minecraft.Run.{
  Run, ok, stop, bug, die, out_of_fuel, overrun, ◌>>=◌, ◌>>◌, bug_if, access,
}
use dragonsunited_minecraft.Session.{
  Tunables, Host, Session, Sockaddr, emit, listen, pasv_close, vsf_cmdio_write,
}
use dragonsunited_minecraft.Str.Cut.{str_upper, str_replace_char}
use dragonsunited_minecraft.Str.Text.{c_text, str_isempty, str_equal_text, str_split_char}

abbrev pub is_set : Option Sockaddr → Bool
is_set none = false
is_set (some a) = true

-- The two ask each other; the depth of the calls is the model's fuel.
unfoldable mutual
  pub port_active : ℕ → Session → Run Bool
  port_active zero s = stop out_of_fuel
  port_active (suc f) s =
      let check : Run Bool = (do p ← pasv_active f s; bug_if p; ok true) in
      if is_set s.port_sockaddr then check else ok false

  pub pasv_active : ℕ → Session → Run Bool
  pasv_active zero s = stop out_of_fuel
  pasv_active (suc f) s =
      let check : Run Bool = (do p ← port_active f s; bug_if p; ok true) in
      if s.pasv_listening then check else ok false

-- The depth that is enough where not both are active.
abbrev pub call_depth : ℕ
call_depth = 2

unfoldable pub port_cleanup : Session → Session
port_cleanup s = record s { port_sockaddr = none }

unfoldable pub pasv_cleanup : Session → Session
pasv_cleanup s =
    if s.pasv_listening then record (emit pasv_close s) { pasv_listening = false } else s

-- The mapped form of an IPv4 address.
abbrev pub mapped_prefix : Bytes
mapped_prefix = 0 ∷ 0 ∷ 0 ∷ 0 ∷ 0 ∷ 0 ∷ 0 ∷ 0 ∷ 0 ∷ 0 ∷ 255 ∷ 255 ∷ []

unfoldable pub vsf_sysutil_sockaddr_ipv6_v4 : Sockaddr → Option Bytes
vsf_sysutil_sockaddr_ipv6_v4 a =
    if not a.is_ipv6 || not (bytes_eq (take 12 a.addr) mapped_prefix)
    then none
    else some (drop 12 a.addr)

unfoldable pub vsf_sysutil_sockaddr_set_ipv4addr : Sockaddr → Bytes → Sockaddr
vsf_sysutil_sockaddr_set_ipv4addr a raw = record a {
  addr = if a.is_ipv6 then mapped_prefix ++ take 4 raw else take 4 raw;
}

-- Sixteen bytes are copied from where the address stands.
unfoldable pub vsf_sysutil_sockaddr_set_ipv6addr : Sockaddr → Bytes → Run Sockaddr
vsf_sysutil_sockaddr_set_ipv6addr a raw = do
  bug_if (not a.is_ipv6)
  access (leb 16 (length raw))
  ok (record a { addr = take 16 raw })

abbrev pub same_v4 : Option Bytes → Bytes → Bool
same_v4 none b = false
same_v4 (some a) b = bytes_eq a b

unfoldable pub vsf_sysutil_sockaddr_addr_equal : Sockaddr → Sockaddr → Bool
unfolding vsf_sysutil_sockaddr_ipv6_v4
vsf_sysutil_sockaddr_addr_equal a b =
    if a.is_ipv6
    then (if b.is_ipv6
        then bytes_eq a.addr b.addr
        else same_v4 (vsf_sysutil_sockaddr_ipv6_v4 a) b.addr)
    else (if b.is_ipv6
        then same_v4 (vsf_sysutil_sockaddr_ipv6_v4 b) a.addr
        else bytes_eq a.addr b.addr)

unfoldable pub vsf_sysutil_is_port_reserved : ℕ → Bool
vsf_sysutil_is_port_reserved the_port = ltb the_port 1024

module _ (t : Tunables) (h : Host) where
  -- The end of both commands: the address is taken, or dropped where it is not the client's own or
  -- its port is reserved.
  unfoldable pub set_port : Session → Sockaddr → Bytes → ℕ → Bytes → Session
  unfolding vsf_sysutil_sockaddr_addr_equal vsf_sysutil_is_port_reserved
  set_port s a refusal status success =
      if not t.port_promiscuous
        && (not (vsf_sysutil_sockaddr_addr_equal s.remote_addr a)
            || vsf_sysutil_is_port_reserved a.port)
      then record (vsf_cmdio_write 500 refusal s) { port_sockaddr = none }
      else vsf_cmdio_write status success (record s { port_sockaddr = some a })

  unfoldable pub port_of : Session → Option Bytes → Session
  unfolding set_port vsf_sysutil_sockaddr_set_ipv4addr
  port_of s none = vsf_cmdio_write 500 (text "Illegal PORT command.") s
  port_of s (some vals) =
      let the_port = get_or vals 4 0 * 256 + get_or vals 5 0 in
      let a = record (vsf_sysutil_sockaddr_set_ipv4addr s.local_addr vals) { port = the_port } in
      set_port s a (text "Illegal PORT command.") 200 (text "PORT command successful.")

  unfoldable pub handle_port : Session → Run Session
  unfolding port_of pasv_cleanup port_cleanup
  handle_port s = do
    let s1 = port_cleanup (pasv_cleanup s)
    vals ← vsf_sysutil_parse_uchar_string_sep h.atoi s1.ftp_arg_str b',' 6
    ok (port_of s1 vals)

  abbrev pub bad_eprt : Session → Run Session
  bad_eprt s = ok (vsf_cmdio_write 500 (text "Bad EPRT command.") s)

  -- The number of the protocol, where the local address can have it.
  unfoldable pub eprt_proto : Session → ℤ → Option ℕ
  eprt_proto s (negsuc n) = none
  eprt_proto s (pos n) =
      if ltb n 1 || ltb 2 n || (not s.local_addr.is_ipv6 && n == 2) then none else some n

  unfoldable pub eprt_address : Bytes → ℕ → Run (Option Bytes)
  eprt_address part proto =
      let v6 : Run (Option Bytes) = (do
        (address, scope) ← str_split_char part b'%'
        vsf_sysutil_parse_ipv6 address) in
      if proto == 2 then v6 else vsf_sysutil_parse_ipv4 h.atoi part

  unfoldable pub eprt_set : Session → ℕ → Bytes → ℕ → Run Session
  unfolding vsf_sysutil_sockaddr_set_ipv4addr vsf_sysutil_sockaddr_set_ipv6addr set_port
  eprt_set s proto raw port = do
    a ←
        (if proto == 2
          then vsf_sysutil_sockaddr_set_ipv6addr s.local_addr raw
          else ok (vsf_sysutil_sockaddr_set_ipv4addr s.local_addr raw))
    ok (
        set_port s (record a { port = port }) (text "Illegal EPRT command.") 200
          (text "EPRT command successful. Consider using EPSV."))

  unfoldable pub eprt_port : Session → ℕ → Bytes → Bytes → Bytes → ℤ → Run Session
  unfolding eprt_set
  eprt_port s proto raw rest field (negsuc n) = bad_eprt s
  eprt_port s proto raw rest field (pos port) =
      if not (str_isempty rest) || str_isempty field
      then bad_eprt s
      else if ltb 65535 port
      then bad_eprt s
      else eprt_set s proto raw port

  unfoldable pub eprt_rest : Session → ℕ → Bytes → Option Bytes → Run Session
  unfolding eprt_port
  eprt_rest s proto part none = bad_eprt s
  eprt_rest s proto part (some raw) = do
    (field, rest) ← str_split_char part b'|'
    eprt_port s proto raw rest field (h.atoi (c_text field))

  unfoldable pub eprt_body : Session → Bytes → Option ℕ → Run Session
  unfolding eprt_address eprt_rest
  eprt_body s part none = ok (vsf_cmdio_write 500 (text "Bad EPRT protocol.") s)
  eprt_body s part (some proto) = do
    (address, rest) ← str_split_char part b'|'
    raw ← eprt_address address proto
    eprt_rest s proto rest raw

  unfoldable pub handle_eprt : Session → Run Session
  unfolding eprt_proto eprt_body pasv_cleanup port_cleanup
  handle_eprt s = do
    let s1 = pasv_cleanup (port_cleanup s)
    (front, part2) ← str_split_char s1.ftp_arg_str b'|'
    (proto, part1) ← str_split_char part2 b'|'
    let body = eprt_body s1 part1 (eprt_proto s1 (h.atoi (c_text proto)))
    if not (str_isempty front) then bad_eprt s1 else body

  -- `EPSV` with an argument: `ALL`, a protocol that is there, or a refusal.
  unfoldable pub epsv_refused : Session → ℤ → Bool
  epsv_refused s (negsuc n) = true
  epsv_refused s (pos n) = ltb n 1 || ltb 2 n || (not s.local_addr.is_ipv6 && n == 2)

  abbrev pub aton : Option Bytes → Run Sockaddr
  aton none = stop die
  aton (some raw) = ok (record { is_ipv6 = false; addr = raw; port = 0 })

  abbrev pub configured : Session → Option Bytes → Run Sockaddr
  configured s none = ok s.local_addr
  configured s (some address) = aton (h.inet_aton address)

  abbrev pub shown_v4 : Option Bytes → Bytes
  shown_v4 none = text "0,0,0,0"
  shown_v4 (some raw) = h.inet_ntoa raw

  -- The IPv4 address that the reply shows: of the setting, or of the local end.
  unfoldable pub pasv_shown : Session → Run Bytes
  unfolding vsf_sysutil_sockaddr_ipv6_v4
  pasv_shown s = do
    a ← configured s t.pasv_address
    ok (if s.local_addr.is_ipv6 then shown_v4 (vsf_sysutil_sockaddr_ipv6_v4 a) else h.inet_ntop a)

  unfoldable pub pasv_reply : Session → Bool → ℕ → Run Session
  unfolding pasv_shown
  pasv_reply s is_epsv the_port =
      let epsv =
        (text "Entering Extended Passive Mode (|||" ++ h.ulong_to_str the_port) ++ text "|)." in
      let pasv : Run Session = (do
        shown ← pasv_shown s
        let start = str_replace_char (text "Entering Passive Mode (" ++ shown) b'.' b','
        let high = (start ++ text ",") ++ h.ulong_to_str (the_port / 256)
        let low = (high ++ text ",") ++ h.ulong_to_str (the_port % 256)
        ok (vsf_cmdio_write 227 (low ++ text ").") s)) in
      if is_epsv then ok (vsf_cmdio_write 229 epsv s) else pasv

  unfoldable pub pasv_listen : Session → Bool → Run Session
  unfolding pasv_reply pasv_cleanup port_cleanup
  pasv_listen s is_epsv = do
    let s1 = port_cleanup (pasv_cleanup s)
    let s2 = record (emit listen s1) { pasv_listening = true }
    pasv_reply s2 is_epsv (h.listen_port s1.events)

  unfoldable pub handle_pasv : Session → Bool → Run Session
  unfolding epsv_refused pasv_listen
  handle_pasv s is_epsv =
      let s1 = record s { ftp_arg_str = str_upper s.ftp_arg_str } in
      let all = vsf_cmdio_write 200 (text "EPSV ALL ok.") (record s1 { epsv_all = true }) in
      let refused = vsf_cmdio_write 522 (text "Bad network protocol.") s1 in
      if is_epsv && not (str_isempty s.ftp_arg_str)
      then (if str_equal_text s1.ftp_arg_str (text "ALL")
          then ok all
          else if epsv_refused s1 (h.atoi (c_text s1.ftp_arg_str))
          then ok refused
          else pasv_listen s1 is_epsv)
      else pasv_listen s is_epsv

  -- `pasv_active(p_sess) || port_active(p_sess)`
  unfoldable pub either_active : Session → Run Bool
  either_active s = do p ← pasv_active call_depth s; if p then ok true else port_active call_depth s

  unfoldable pub data_transfer_checks_ok : Session → Run (Bool × Session)
  unfolding either_active
  data_transfer_checks_ok s = do
    active ← either_active s
    let unencrypted =
        t.ssl_enable
        && (not s.data_use_ssl
            && ((t.force_local_data_ssl && not s.is_anonymous)
                || (t.force_anon_data_ssl && s.is_anonymous)))
    ok (
        if not active
        then (false, vsf_cmdio_write 425 (text "Use PORT or PASV first.") s)
        else if unencrypted
        then (false, vsf_cmdio_write 522 (text "Data connections must be encrypted.") s)
        else (true, s))
