-- ===== src/Twoprocess/Tests.antt =====
-- A session whose parent listens, connects and gives an upload away.
use dragonsunited_minecraft.Base.{
  ℕ, ◌≤◌, ◌<◌, ◌≡◌, ◌⊎◌, ◌++◌, [], ◌∷◌, none, some, true, false, refl, arith, text, Bytes,
}
use dragonsunited_minecraft.Run.{ok, stop, die, ◌>>=◌}
use dragonsunited_minecraft.Session.{Sockaddr}
use dragonsunited_minecraft.Privsock.{
  byte, passed, privsock_maxstr, priv_sock_send_str, priv_sock_get_str,
}
use dragonsunited_minecraft.Privsock.Wire.{get_str-send_str}
use dragonsunited_minecraft.Privops.Sockets.{Settings, Os, Priv, fine, vsf_privop_pasv_listen}
use dragonsunited_minecraft.Privops.Sockets.Allowed.{OrDies}
use dragonsunited_minecraft.Privops.Sockets.Range.{ListensOrDies, pasv_listen-InRange}
use dragonsunited_minecraft.Twoprocess.{Pair, serve}
use dragonsunited_minecraft.Twoprocess.Child.{data_sock, two, one}
use dragonsunited_minecraft.Twoprocess.Same.{quiet, shut, two-one}
use dragonsunited_minecraft.Twoprocess.Serve.{GuardedPair, serve-Guarded}

abbrev calm : Os
calm = record {
  socket = λ cs. 5;
  bind = λ cs port. fine;
  listen = λ cs. fine;
  connect = λ cs a. true;
  accept = λ cs. none;
  random = λ cs. 77;
  fstat = λ cs fd. record { uid = 14; regfile = true };
}

abbrev settings : Settings
settings = record {
  connect_from_port_20 = true;
  ftp_data_port = 20;
  pasv_min_port = 50000;
  pasv_max_port = 50009;
  pasv_promiscuous = false;
  chown_uploads = true;
}

abbrev client : Bytes
client = 192 ∷ 0 ∷ 2 ∷ 7 ∷ []

abbrev at : ℕ → Sockaddr
at n = record { is_ipv6 = false; addr = client; port = n }

abbrev parent : Priv
parent = record {
  remote_addr = at 40000;
  port_sockaddr = at 2048;
  pasv_listen_fd = none;
  anon_ftp_uid = some 14;
  guest_user_uid = none;
  anon_upload_chown_uid = some 30;
  calls = [];
}

pasv_listen-InRange_example :
    ListensOrDies calm settings 5 9 (vsf_privop_pasv_listen calm settings parent)
pasv_listen-InRange_example = pasv_listen-InRange calm settings parent

-- A request to give an upload away, one to listen, and one that is no request.
abbrev odd_requests : Pair
odd_requests = record {
  to_parent = byte 2 ∷ passed 9 ∷ byte 12 ∷ byte 99 ∷ [];
  to_child = [];
  priv = parent;
}

serve-Guarded_example :
    OrDies
      (GuardedPair calm settings client (some 14) none (some 30))
      (serve calm settings 2 odd_requests)
serve-Guarded_example =
    serve-Guarded calm settings client (some 14) none (some 30) 2 odd_requests
      (refl, refl, refl, refl, tt)

two-one_example : two calm settings (data_sock 2048) (quiet parent) ≡ (
    one calm settings (data_sock 2048) parent >>= λ x.
    ok (x.0, quiet (shut (data_sock 2048) x.0 x.1)))
two-one_example = two-one calm settings (data_sock 2048) parent (omega arith, refl)

get_str-send_str_example :
    ((5 ≤ privsock_maxstr)
      × (priv_sock_get_str (priv_sock_send_str (text "alice") [] ++ (byte 1 ∷ []))
          ≡ ok (text "alice", byte 1 ∷ [])))
    ⊎ ((privsock_maxstr < 5)
        × (priv_sock_get_str (priv_sock_send_str (text "alice") [] ++ (byte 1 ∷ [])) ≡ stop die))
get_str-send_str_example = get_str-send_str (text "alice") (byte 1 ∷ []) (omega arith)
