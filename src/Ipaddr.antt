-- ===== src/Ipaddr.antt =====
-- ipaddrparse.c: texts of addresses. `atoi` is the C library's, and so a parameter.
mod Dotted
pub mod Groups
pub mod Fields
mod Tests
use dragonsunited_minecraft.Base.{
  ℕ, zero, suc, ◌+◌, ◌-◌, ◌*◌, ◌/◌, ◌%◌, ◌^◌, Bool, true, false, not, ◌&&◌, ◌||◌, List, [], ◌∷◌,
  ◌++◌, Option, none, some, ltb, leb, ◌==◌, if◌then◌else◌, length, replicate, Bytes, text,
}
use dragonsunited_minecraft.Base.Int.{ℤ, pos, negsuc}
use dragonsunited_minecraft.Run.{Run, ok, stop, out_of_fuel, ◌>>=◌, ◌>>◌}
use dragonsunited_minecraft.Str.Text.{
  LocateResult, c_text, str_isempty, str_locate_char, str_split_char, str_split_text,
}
use dragonsunited_minecraft.Sysutil.{vsf_sysutil_toupper}

abbrev within : ℕ → ℕ → ℕ → Bool
within lo hi c = leb lo c && leb c hi

-- The value of a hexadecimal digit.
unfoldable pub hex_digit : ℕ → Option ℕ
unfolding vsf_sysutil_toupper
hex_digit c =
    let ch = vsf_sysutil_toupper c in
    if within b'0' b'9' ch
    then some (ch - b'0')
    else if within b'A' b'F' ch
    then some (ch - b'A' + 10)
    else none

unfoldable pub hex_step : ℕ → Option ℕ → Option ℕ
hex_step val none = none
hex_step val (some d) = let v = val * 16 + d in if ltb 0xFFFF v then none else some v

unfoldable pub hex_loop : ℕ → Bytes → Option ℕ
unfolding hex_step hex_digit
hex_loop val [] = some val
hex_loop val (c ∷ cs) = elim (hex_step val (hex_digit c)) [ none ↦ none | some v ↦ hex_loop v cs ]

-- The string with the two bytes behind it; `none` where the code returns 0.
unfoldable pub ipv6_parse_hex : Bytes → Bytes → Option Bytes
ipv6_parse_hex out s = elim (hex_loop 0 s) [
  | none ↦ none
  | some val ↦ some (out ++ val / 256 ∷ val % 256 ∷ [])
]

-- The variables of the loop of `ipv4_parse_dotquad`.
pub record Quad : Type 0 where
  pub val : ℕ
  pub final_val : ℕ
  pub seen_char : Bool
  pub dots : ℕ

abbrev pub uint_mod : ℕ
uint_mod = 2 ^ 32

unfoldable pub quad_step : Quad → ℕ → Option Quad
quad_step q ch =
    let val = q.val * 10 + (ch - b'0') in
    if ch == b'.'
    then (if not q.seen_char || q.dots == 3
        then none
        else some (record {
          val = 0;
          final_val = (q.final_val * 256 + q.val) % uint_mod;
          seen_char = false;
          dots = q.dots + 1;
        }))
    else if not (within b'0' b'9' ch) || ltb 255 val
    then none
    else some (record q { val = val; seen_char = true })

unfoldable pub quad_loop : Quad → Bytes → Option Quad
unfolding quad_step
quad_loop q [] = some q
quad_loop q (c ∷ cs) = elim (quad_step q c) [ none ↦ none | some r ↦ quad_loop r cs ]

abbrev pub no_quad : Quad
no_quad = record { val = 0; final_val = 0; seen_char = false; dots = 0 }

-- The bytes of a word, the highest first.
abbrev pub word_bytes : ℕ → Bytes
word_bytes w = w / 2 ^ 24 ∷ w / 2 ^ 16 % 256 ∷ w / 2 ^ 8 % 256 ∷ w % 256 ∷ []

unfoldable pub quad_end : Bytes → Quad → Option Bytes
quad_end out q =
    if not (q.dots == 3) || not q.seen_char
    then none
    else some (out ++ word_bytes ((q.final_val * 256 + q.val) % uint_mod))

unfoldable pub ipv4_parse_dotquad : Bytes → Bytes → Option Bytes
unfolding quad_loop quad_end
ipv4_parse_dotquad out s = elim (quad_loop no_quad s) [ none ↦ none | some q ↦ quad_end out q ]

-- One group between two colons.
unfoldable pub parse_group : Bytes → Bytes → Option Bytes
unfolding ipv4_parse_dotquad ipv6_parse_hex
parse_group out lhs =
    if str_isempty lhs
    then none
    else if (str_locate_char lhs b'.').found
    then ipv4_parse_dotquad out lhs
    else ipv6_parse_hex out lhs

-- The loop of `ipv6_parse_main`; each round takes a byte, so the length is fuel enough.
unfoldable pub main_loop : ℕ → Bytes → Bytes → Run (Option Bytes)
unfolding parse_group
main_loop zero out lhs = stop out_of_fuel
main_loop (suc f) out lhs =
    let round : Run (Option Bytes) = (do
      (group, rhs) ← str_split_char lhs b':'
      elim (parse_group out group) [ none ↦ ok none | some out' ↦ main_loop f out' rhs ]) in
    if str_isempty lhs then ok (some out) else round

unfoldable pub ipv6_parse_main : Bytes → Run (Option Bytes)
unfolding main_loop
ipv6_parse_main s = main_loop (suc (length s)) [] s

-- Both sides of the `::` with the bytes between them. Without a right side nothing is filled up.
unfoldable pub joined : Bytes → Bytes → Option Bytes
joined lhs rhs =
    if ltb 16 (length lhs + length rhs)
    then none
    else if ltb 0 (length rhs)
    then some (lhs ++ (replicate (16 - (length lhs + length rhs)) 0 ++ rhs))
    else some lhs

unfoldable pub joined_sides : Option Bytes → Option Bytes → Option Bytes
unfolding joined
joined_sides none r = none
joined_sides (some a) none = none
joined_sides (some a) (some b) = joined a b

-- The code parses the right side only where the left one is an address, which changes no result.
unfoldable pub vsf_sysutil_parse_ipv6 : Bytes → Run (Option Bytes)
unfolding ipv6_parse_main joined_sides
vsf_sysutil_parse_ipv6 s = do
  (lhs, rhs) ← str_split_text s (text "::")
  l ← ipv6_parse_main lhs
  r ← ipv6_parse_main rhs
  ok (joined_sides l r)

abbrev pub in_uchar : ℤ → Option ℕ
in_uchar (pos n) = if ltb 255 n then none else some n
in_uchar (negsuc n) = none

module _ (atoi : Bytes → ℤ) where
  -- The loop over the fields that are left; the last one is followed by nothing.
  unfoldable pub sep_loop : ℕ → Bytes → ℕ → Bytes → Run (Option Bytes)
  sep_loop zero s sep items = ok (some items)
  sep_loop (suc left) s sep items = do
    (field, rhs) ← str_split_char s sep
    let bad = if left == 0 then not (str_isempty rhs) else str_isempty rhs
    let go_on : Option ℕ → Run (Option Bytes) =
        λ n. elim n [ none ↦ ok none | some k ↦ sep_loop left rhs sep (items ++ k ∷ []) ]
    if bad then ok none else go_on (in_uchar (atoi (c_text field)))

  unfoldable pub vsf_sysutil_parse_uchar_string_sep : Bytes → ℕ → ℕ → Run (Option Bytes)
  unfolding sep_loop
  vsf_sysutil_parse_uchar_string_sep s sep items = sep_loop items s sep []

  unfoldable pub vsf_sysutil_parse_ipv4 : Bytes → Run (Option Bytes)
  unfolding vsf_sysutil_parse_uchar_string_sep
  vsf_sysutil_parse_ipv4 s = vsf_sysutil_parse_uchar_string_sep s b'.' 4
