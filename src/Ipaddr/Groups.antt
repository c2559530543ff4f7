-- ===== src/Ipaddr/Groups.antt =====
-- Addresses of IPv6: the parse ends, and how long the address is that it returns.
use dragonsunited_minecraft.Base.{
  ℕ, zero, suc, ◌+◌, ◌-◌, ◌/◌, ◌%◌, ◌≤◌, ◌<◌, false, [], ◌∷◌, ◌++◌, Option, none, some, ◌≡◌, ◌≢◌,
  inl, inr, refl, ◌∙◌, arith, length, replicate, Bytes, text, Option-cases, length-append,
  length-replicate,
}
use dragonsunited_minecraft.Run.{Run, ok}
use dragonsunited_minecraft.Str.Text.{str_split_text}
use dragonsunited_minecraft.Str.Text.Replace.{sides, str_split_text-sides}
use dragonsunited_minecraft.Str.Text.Search.{first_match, is_prefix}
use dragonsunited_minecraft.Str.Text.Split.{
  before, after, has, str_split_char-parts, isempty_empty, isempty-cons, locate_char-has,
  length-after,
}
use dragonsunited_minecraft.Ipaddr.{
  parse_group, ipv6_parse_hex, hex_loop, main_loop, ipv6_parse_main, joined, joined_sides,
  vsf_sysutil_parse_ipv6,
}

-- What one round does with the group that it has parsed.
abbrev next : ℕ → Option Bytes → Bytes → Run (Option Bytes)
next f none rhs = ok none
next f (some out) rhs = main_loop f out rhs

next_lem :
    (f : ℕ) (o : Option Bytes) (rhs : Bytes)
    → (elim o as (λ x. Run (Option Bytes)) [ none ↦ ok none | some out ↦ main_loop f out rhs ])
      ≡ next f o rhs
next_lem f none rhs = refl
next_lem f (some out) rhs = refl

main_loop_step :
    (f : ℕ) (out : Bytes) (x : ℕ) (s : Bytes)
    → main_loop (suc f) out (x ∷ s)
      ≡ next f (parse_group out (before b':' (x ∷ s))) (after b':' (x ∷ s))
unfolding main_loop
main_loop_step f out x s =
    rw (isempty-cons x s, str_split_char-parts (x ∷ s) b':' (omega arith))
      (next_lem f (parse_group out (before b':' (x ∷ s))) (after b':' (x ∷ s)))

main_loop_end : (f : ℕ) (out : Bytes) → main_loop (suc f) out [] ≡ ok (some out)
unfolding main_loop
main_loop_end f out = rw isempty_empty

main_loop-ok :
    (f : ℕ) (out s : Bytes) → length s < f → (o : Option Bytes) × (main_loop f out s ≡ ok o)
main_loop-ok zero out s h = absurd (omega arith)
main_loop-ok (suc f) out [] h = (some out, main_loop_end f out)
main_loop-ok (suc f) out (x ∷ s) h =
    let short : length (after b':' (x ∷ s)) < f = omega (arith, length-after b':' x s) in
    elim (Option-cases (parse_group out (before b':' (x ∷ s)))) [
      | inl e ↦ (none, rw (main_loop_step f out x s, e) refl)
      | inr (out', e) ↦
          let (o, there) = main_loop-ok f out' (after b':' (x ∷ s)) short in
          (o, rw (main_loop_step f out x s, e) there)
    ]

joined-length : (a b c : Bytes) → joined a b ≡ some c → length c ≤ 16
unfolding joined
joined-length a b c e =
    let n = 16 - (length a + length b) in
    ground (
      arith,
      length-append {0} a (replicate n 0 ++ b),
      length-append {0} (replicate n 0) b,
      length-replicate {0} n (let z : ℕ = 0 in z),
    )

joined_sides-length : (l r : Option Bytes) (c : Bytes) → joined_sides l r ≡ some c → length c ≤ 16
unfolding joined_sides
joined_sides-length none r c e = cc
joined_sides-length (some a) none c e = cc
joined_sides-length (some a) (some b) c e = joined-length a b c e

colons-ne-nil : text "::" ≢ []
colons-ne-nil = λ e. cc

-- Every text is parsed to the end, and an address that is returned has 16 bytes at most.
pub parse_ipv6-length :
    (s : Bytes)
    → (o : Option Bytes) × (vsf_sysutil_parse_ipv6 s ≡ ok o)
      × ((a : Bytes) → o ≡ some a → length a ≤ 16)
unfolding vsf_sysutil_parse_ipv6 ipv6_parse_main
parse_ipv6-length s =
    let (lhs, rhs) = sides (first_match (text "::") s) 2 s in
    let (l, el) = main_loop-ok (suc (length lhs)) [] lhs (omega arith) in
    let (r, er) = main_loop-ok (suc (length rhs)) [] rhs (omega arith) in
    (
      joined_sides l r,
      rw (str_split_text-sides s (text "::") colons-ne-nil) (rw (el, er)),
      λ a e. joined_sides-length l r a e,
    )

-- The digits of one group, without a separator.
pub record IsGroup (s : Bytes) (v : ℕ) : Type 0 where
  pub digits : hex_loop 0 s ≡ some v
  pub some_digit : s ≢ []
  pub no_colon : has b':' s ≡ false
  pub no_dot : has b'.' s ≡ false

before-none : (c : ℕ) (s : Bytes) → has c s ≡ false → before c s ≡ s
unfolding has before
before-none c [] h = refl
before-none c (x ∷ s) h = ground (arith, before-none c s)

pub after-none : (c : ℕ) (s : Bytes) → has c s ≡ false → after c s ≡ []
unfolding has after
after-none c [] h = refl
after-none c (x ∷ s) h = ground (arith, after-none c s)

colons-none : (s : Bytes) → has b':' s ≡ false → first_match (text "::") s ≡ none
unfolding has first_match is_prefix
colons-none [] h = refl
colons-none (x ∷ s) h = ground (arith, colons-none s)

parse_group-hex :
    (x v : ℕ) (s : Bytes)
    → IsGroup (x ∷ s) v
    → parse_group [] (x ∷ s) ≡ some (v / 256 ∷ v % 256 ∷ [])
unfolding parse_group ipv6_parse_hex
parse_group-hex x v s g =
    rw (isempty-cons x s, locate_char-has (x ∷ s) b'.' (omega arith), g.no_dot)
      (rw (g.digits, ipv6_parse_hex))

one_group :
    (s : Bytes) (v : ℕ)
    → IsGroup s v
    → main_loop (suc (length s)) [] s ≡ ok (some (v / 256 ∷ v % 256 ∷ []))
one_group [] v g = absurd (g.some_digit refl)
one_group (x ∷ s) v g =
    main_loop_step (suc (length s)) [] x s
    ∙ rw (before-none b':' (x ∷ s) g.no_colon, after-none b':' (x ∷ s) g.no_colon)
        (rw (parse_group-hex x v s g) (main_loop_end (length s) _))

whole_text : (s : Bytes) → has b':' s ≡ false → str_split_text s (text "::") ≡ ok (s, [])
unfolding sides
whole_text s h = rw (str_split_text-sides s (text "::") colons-ne-nil, colons-none s h)

-- A group alone, without `::`, is taken for an address of two bytes.
pub parse_ipv6_short :
    (s : Bytes) (v : ℕ)
    → IsGroup s v
    → vsf_sysutil_parse_ipv6 s ≡ ok (some (v / 256 ∷ v % 256 ∷ []))
unfolding vsf_sysutil_parse_ipv6 ipv6_parse_main joined_sides joined
parse_ipv6_short s v g =
    rw (whole_text s g.no_colon) (rw (one_group s v g) (rw (main_loop_end 0 [])))
