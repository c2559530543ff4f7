-- ===== src/Ftpcmdio/Reply.antt =====
-- `ftp_write_str_common` as its reader sees it.
use dragonsunited_minecraft.Base.{
  ℕ, false, [], ◌∷◌, ◌++◌, ◌≡◌, inl, inr, refl, sym, ap, ◌∙◌, arith, ◌==◌, ◌&&◌, if◌then◌else◌,
  Bytes, Bool-cases, ==_iff,
}
use dragonsunited_minecraft.Run.{ok}
use dragonsunited_minecraft.Str.Cut.{str_replace_char}
use dragonsunited_minecraft.Str.Text.Search.{is_prefix}
use dragonsunited_minecraft.Str.Text.Split.{has}
use dragonsunited_minecraft.Str.Text.Replace.{substituted, str_replace_text-substituted}
use dragonsunited_minecraft.Ftpcmdio.{ftp_write_str_common}
use dragonsunited_minecraft.Ftpcmdio.Lines.{without, has-join}

-- A telnet reader: two bytes 255 stand for one.
unfoldable pub telnet_read : Bytes → Bytes
telnet_read [] = []
telnet_read (x ∷ []) = x ∷ []
telnet_read (x ∷ y ∷ s) =
    let one = y ∷ s in
    let pair = telnet_read s in
    let single = telnet_read (y ∷ s) in if x == 255 && y == 255 then x ∷ pair else x ∷ single

unfoldable pub doubled : Bytes → Bytes
doubled [] = []
doubled (x ∷ s) = let rest = doubled s in if x == 255 then 255 ∷ 255 ∷ rest else x ∷ rest

substituted-doubled : (s : Bytes) → substituted (255 ∷ []) (255 ∷ 255 ∷ []) 0 s ≡ doubled s
unfolding substituted doubled is_prefix
substituted-doubled [] = refl
substituted-doubled (x ∷ s) = elim (Bool-cases (x == 255)) [
  | inl e ↦ rw e (ap (λ z. 255 ∷ 255 ∷ z) (substituted-doubled s))
  | inr e ↦ rw e (ap (◌∷◌ x) (substituted-doubled s))
]

telnet_read-plain :
    (x : ℕ) (s : Bytes) → (x == 255) ≡ false → telnet_read (x ∷ s) ≡ x ∷ telnet_read s
unfolding telnet_read
telnet_read-plain x [] e = refl
telnet_read-plain x (y ∷ s) e = rw e refl

telnet_read-pair : (s : Bytes) → telnet_read (255 ∷ 255 ∷ s) ≡ 255 ∷ telnet_read s
unfolding telnet_read
telnet_read-pair s = refl

telnet_read-doubled : (s : Bytes) → telnet_read (doubled s) ≡ s
unfolding doubled
telnet_read-doubled [] = unfold telnet_read in refl
telnet_read-doubled (x ∷ s) = elim (Bool-cases (x == 255)) [
  | inl e ↦
      let back : 255 ∷ s ≡ x ∷ s = ap (λ z. z ∷ s) (sym ((==_iff x 255).0 e)) in
      rw e (telnet_read-pair (doubled s) ∙ (ap (λ z. 255 ∷ z) (telnet_read-doubled s) ∙ back))
  | inr e ↦ rw e (telnet_read-plain x (doubled s) e ∙ ap (◌∷◌ x) (telnet_read-doubled s))
]

telnet_read-append : (p s : Bytes) → has 255 p ≡ false → telnet_read (p ++ s) ≡ p ++ telnet_read s
unfolding has
telnet_read-append [] s h = refl
telnet_read-append (x ∷ p) s h = elim (Bool-cases (x == 255)) [
  | inl e ↦ absurd (ground arith)
  | inr e ↦ telnet_read-plain x (p ++ s) e ∙ ap (◌∷◌ x) (telnet_read-append p s (ground arith))
]

-- Escaping and the exchange of newlines do not meet.
replace_char-doubled :
    (s : Bytes) → str_replace_char (doubled s) b'\n' 0 ≡ doubled (str_replace_char s b'\n' 0)
unfolding doubled str_replace_char
replace_char-doubled [] = refl
replace_char-doubled (x ∷ s) = elim (Bool-cases (x == 255)) [
  | inl e ↦
      let n : (x == b'\n') ≡ false = ground arith in
      rw (n, e) (ap (λ z. 255 ∷ 255 ∷ z) (replace_char-doubled s))
  | inr e ↦ elim (Bool-cases (x == b'\n')) [
    | inl n ↦ rw (e, n) (ap (λ z. 0 ∷ z) (replace_char-doubled s))
    | inr n ↦ rw (e, n) (rw e (ap (◌∷◌ x) (replace_char-doubled s)))
  ]
]

module _ (ulong_to_str : ℕ → Bytes) (status sep : ℕ) where
  -- A reply is one line, whatever its text is: the only newline is at its end. A telnet reader
  -- gets the status, the separator and the text back, with NUL for each newline of the text. The
  -- digits of a status and the separator are neither newlines nor the byte 255.
  pub write_str_common-one_line :
      (s : Bytes)
      → has b'\n' (ulong_to_str status) ≡ false
      → has 255 (ulong_to_str status) ≡ false
      → has b'\n' (sep ∷ []) ≡ false
      → has 255 (sep ∷ []) ≡ false
      → (l : Bytes) × (ftp_write_str_common ulong_to_str status sep s
          ≡ ok (l ++ (b'\r' ∷ b'\n' ∷ [])))
        × (has b'\n' l ≡ false)
        × (telnet_read l ≡ (ulong_to_str status ++ (sep ∷ [])) ++ str_replace_char s b'\n' 0)
  unfolding ftp_write_str_common
  write_str_common-one_line s h1 h2 h3 h4 =
      let p = ulong_to_str status ++ (sep ∷ []) in
      let t = str_replace_char s b'\n' 0 in
      let escaped =
        str_replace_text-substituted s (255 ∷ []) (255 ∷ 255 ∷ []) (λ e. cc)
        ∙ ap ok (substituted-doubled s) in
      (
        p ++ str_replace_char (doubled s) b'\n' 0,
        rw escaped refl,
        has-join b'\n' p (str_replace_char (doubled s) b'\n' 0)
              (has-join b'\n' (ulong_to_str status) (sep ∷ []) h1 ∙ h3)
            ∙ without b'\n' 0 (doubled s) (omega arith),
        telnet_read-append p (str_replace_char (doubled s) b'\n' 0)
              (has-join 255 (ulong_to_str status) (sep ∷ []) h2 ∙ h4)
            ∙ ap (◌++◌ p) (ap telnet_read (replace_char-doubled s) ∙ telnet_read-doubled t),
      )
