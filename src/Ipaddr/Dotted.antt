-- ===== src/Ipaddr/Dotted.antt =====
-- `ipv4_parse_dotquad` reads back what a dotted address is written as.
use dragonsunited_minecraft.Base.{
  ℕ, ◌+◌, ◌*◌, ◌/◌, ◌%◌, ◌^◌, ◌<◌, Bool, true, false, [], ◌∷◌, ◌++◌, some, ◌≡◌, inl, inr, refl, ◌∙◌,
  arith, ltb, ◌==◌, if◌then◌else◌, Bytes, Bool-cases, ltb→lt,
}
use dragonsunited_minecraft.Ipaddr.{
  Quad, no_quad, quad_step, quad_loop, quad_end, ipv4_parse_dotquad, uint_mod,
}

-- A byte in decimal.
unfoldable pub decimal : ℕ → Bytes → Bytes
decimal n rest =
    if ltb n 10
    then (b'0' + n) ∷ rest
    else if ltb n 100
    then (b'0' + n / 10) ∷ (b'0' + n % 10) ∷ rest
    else (b'0' + n / 100) ∷ (b'0' + n / 10 % 10) ∷ (b'0' + n % 10) ∷ rest

unfoldable pub dotted : ℕ → ℕ → ℕ → ℕ → Bytes
unfolding decimal
dotted a b c d = decimal a (b'.' ∷ decimal b (b'.' ∷ decimal c (b'.' ∷ decimal d [])))

digit :
    (q : Quad) (d v : ℕ)
    → d < 10
    → v ≡ q.val * 10 + d
    → v < 256
    → quad_step q (b'0' + d) ≡ some (record q { val = v; seen_char = true })
unfolding quad_step
digit q d v h e k = ground arith

digit_loop :
    (q : Quad) (d v : ℕ) (rest : Bytes)
    → d < 10
    → v ≡ q.val * 10 + d
    → v < 256
    → quad_loop q ((b'0' + d) ∷ rest) ≡ quad_loop (record q { val = v; seen_char = true }) rest
unfolding quad_loop
digit_loop q d v rest h e k = rw (digit q d v h e k, quad_loop)

-- A number is read into the field.
decimal_loop :
    (final dots n : ℕ) (rest : Bytes)
    → n < 256
    → quad_loop
        (record { val = 0; final_val = final; seen_char = false; dots = dots })
        (decimal n rest)
      ≡ quad_loop (record { val = n; final_val = final; seen_char = true; dots = dots }) rest
unfolding decimal
decimal_loop final dots n rest h =
    let q : ℕ → Bool → Quad =
      λ v b. record { val = v; final_val = final; seen_char = b; dots = dots } in
    elim (Bool-cases (ltb n 10)) [
      | inl e ↦
          let lt = ltb→lt _ _ e in
          rw e (digit_loop (q 0 false) n n rest (omega arith) (omega arith) (omega arith))
      | inr e ↦ rw e (elim (Bool-cases (ltb n 100)) [
        | inl k ↦
            let lt = ltb→lt _ _ k in
            rw k (
              digit_loop (q 0 false) (n / 10) (n / 10) _ (omega arith) (omega arith) (omega arith)
              ∙ digit_loop (q (n / 10) true) (n % 10) n rest (omega arith) (omega arith)
                  (omega arith))
        | inr k ↦ rw k (
            digit_loop (q 0 false) (n / 100) (n / 100) _ (omega arith) (omega arith) (omega arith)
            ∙ digit_loop (q (n / 100) true) (n / 10 % 10) (n / 10) _ (omega arith) (omega arith)
                (omega arith)
            ∙ digit_loop (q (n / 10) true) (n % 10) n rest (omega arith) (omega arith)
                (omega arith))
      ])
    ]

dot_loop :
    (final dots n : ℕ) (rest : Bytes)
    → dots < 3
    → quad_loop (record { val = n; final_val = final; seen_char = true; dots = dots }) (b'.' ∷ rest)
      ≡ quad_loop
          (record {
            val = 0;
            final_val = (final * 256 + n) % uint_mod;
            seen_char = false;
            dots = dots + 1;
          })
          rest
unfolding quad_loop quad_step
dot_loop final dots n rest h = rw (let e : (dots == 3) ≡ false = ground arith in e, quad_loop)

abbrev word : ℕ → ℕ → ℕ → ℕ → ℕ
word a b c d = ((a * 256 + b) * 256 + c) * 256 + d

four_fields :
    (a b c d : ℕ)
    → a < 256
    → b < 256
    → c < 256
    → d < 256
    → quad_loop no_quad (dotted a b c d)
      ≡ some (record { val = d; final_val = (a * 256 + b) * 256 + c; seen_char = true; dots = 3 })
unfolding dotted
four_fields a b c d ha hb hc hd =
    decimal_loop 0 0 a _ ha
    ∙ dot_loop 0 0 a _ (omega arith)
    ∙ rw (let e : (0 * 256 + a) % uint_mod ≡ a = omega arith in e) (
        decimal_loop a 1 b _ hb
        ∙ dot_loop a 1 b _ (omega arith)
        ∙ rw (let e : (a * 256 + b) % uint_mod ≡ a * 256 + b = omega arith in e) (
            decimal_loop (a * 256 + b) 2 c _ hc
            ∙ dot_loop (a * 256 + b) 2 c _ (omega arith)
            ∙ rw
                (let e : ((a * 256 + b) * 256 + c) % uint_mod ≡ (a * 256 + b) * 256 + c =
                    omega arith in
                  e)
                (decimal_loop ((a * 256 + b) * 256 + c) 3 d [] hd ∙ (unfold quad_loop in refl))))

-- For four bytes in decimal with dots between them, the four bytes are appended.
pub dotquad-dotted :
    (out : Bytes) (a b c d : ℕ)
    → a < 256
    → b < 256
    → c < 256
    → d < 256
    → ipv4_parse_dotquad out (dotted a b c d) ≡ some (out ++ a ∷ b ∷ c ∷ d ∷ [])
unfolding ipv4_parse_dotquad quad_end
dotquad-dotted out a b c d ha hb hc hd =
    let w : word a b c d % uint_mod ≡ word a b c d = omega arith in
    let p : word a b c d / 2 ^ 24 ≡ a = omega arith in
    let q : word a b c d / 2 ^ 16 % 256 ≡ b = omega arith in
    let r : word a b c d / 2 ^ 8 % 256 ≡ c = omega arith in
    let s : word a b c d % 256 ≡ d = omega arith in
    rw (four_fields a b c d ha hb hc hd, ipv4_parse_dotquad) (rw w (rw (p, q, r, s)))
