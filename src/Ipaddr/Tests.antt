-- ===== src/Ipaddr/Tests.antt =====
-- Runs of ipaddrparse.c, and the theorems at concrete addresses.
use dragonsunited_minecraft.Base.{◌≤◌, ◌≡◌, refl, arith, [], ◌∷◌, Option, some, length, Bytes, text}
use dragonsunited_minecraft.Ipaddr.Dotted.{dotted, dotquad-dotted}
use dragonsunited_minecraft.Ipaddr.Groups.{IsGroup, parse_ipv6-length, parse_ipv6_short}
use dragonsunited_minecraft.Ipaddr.{hex_loop, hex_digit, ipv4_parse_dotquad, vsf_sysutil_parse_ipv6}
use dragonsunited_minecraft.Run.{ok}
use dragonsunited_minecraft.Str.Text.Split.{has}
use dragonsunited_minecraft.Sysutil.{vsf_sysutil_toupper}

dotted_address : dotted 192 168 0 1 ≡ text "192.168.0.1"
unfolding dotted
dotted_address = refl

dotquad-dotted_example : ipv4_parse_dotquad [] (dotted 192 168 0 1) ≡ some (192 ∷ 168 ∷ 0 ∷ 1 ∷ [])
dotquad-dotted_example =
    dotquad-dotted [] 192 168 0 1 (omega arith) (omega arith) (omega arith) (omega arith)

loopback_length :
    (o : Option Bytes) × (vsf_sysutil_parse_ipv6 (text "fe80::1") ≡ ok o)
    × ((a : Bytes) → o ≡ some a → length a ≤ 16)
loopback_length = parse_ipv6-length (text "fe80::1")

one-IsGroup : IsGroup (text "1f") 31
unfolding hex_loop hex_digit vsf_sysutil_toupper has
one-IsGroup = record { digits = refl; some_digit = λ e. cc; no_colon = refl; no_dot = refl }

short_refused : vsf_sysutil_parse_ipv6 (text "1f") ≡ ok (some (0 ∷ 31 ∷ []))
short_refused = parse_ipv6_short (text "1f") 31 one-IsGroup
