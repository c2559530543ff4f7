-- ===== src/Ftpcmdio/Read.antt =====
-- `vsf_cmdio_get_cmd_and_arg` on a line that a client sends.
use dragonsunited_minecraft.Base.{
  ℕ, zero, suc, ◌+◌, ◌<◌, Bool, true, false, [], ◌∷◌, ◌++◌, some, ◌≡◌, ◌≢◌, inl, inr, refl, ap, ◌∙◌,
  arith, ◌==◌, length, take, replicate, Bytes, Bool-cases, ==_iff, length-append, length-replicate,
  append_assoc,
}
use dragonsunited_minecraft.Run.{ok}
use dragonsunited_minecraft.Str.Cut.{str_upper, str_replace_char}
use dragonsunited_minecraft.Str.Text.Split.{before, after, has, before-append, after-append}
use dragonsunited_minecraft.Netstr.{Socket, str_netfd_alloc}
use dragonsunited_minecraft.Netstr.Line.{Delivers, netfd_alloc-Ended}
use dragonsunited_minecraft.Ftpcmdio.{
  max_command_line, line, got_line, control_getline, command, input_log, split_line,
  vsf_cmdio_get_cmd_and_arg,
}
use dragonsunited_minecraft.Ftpcmdio.Lines.{
  split_command_lem, without, back, replace_char-append, has-join, strip-replicate, sent, word_of,
  arg_of, Trimmed,
}

-- The bytes on the wire, and where their line ends.
wire-has :
    (c n : ℕ) (a b : Bytes) → has c a ≡ false → length a < n → has c (take n (a ++ (c ∷ b))) ≡ true
unfolding has
wire-has c zero a b h lt = absurd (omega arith)
wire-has c (suc n) [] b h lt = let e : (c == c) ≡ true = (==_iff c c).1 refl in rw e
wire-has c (suc n) (x ∷ a) b h lt = elim (Bool-cases (x == c)) [
  | inl e ↦ absurd (ground arith)
  | inr e ↦ rw e (wire-has c n a b (ground arith) (omega arith))
]

has-replicate : (n c d : ℕ) → c ≢ d → has c (replicate n d) ≡ false
unfolding has
has-replicate zero c d ne = refl
has-replicate (suc n) c d ne =
    let e : (d == c) ≡ false = ground arith in rw e (has-replicate n c d ne)

replace_char-replicate :
    (n a b d : ℕ) → a ≢ d → str_replace_char (replicate n d) a b ≡ replicate n d
unfolding str_replace_char
replace_char-replicate zero a b d ne = refl
replace_char-replicate (suc n) a b d ne =
    let e : (d == a) ≡ false = ground arith in rw e (ap (◌∷◌ d) (replace_char-replicate n a b d ne))

-- What the string holds before carriage returns are stripped.
restored :
    (l : Bytes) (n : ℕ)
    → has 0 l ≡ false
    → str_replace_char (str_replace_char l b'\n' 0 ++ replicate n b'\r') 0 b'\n'
      ≡ l ++ replicate n b'\r'
restored l n h =
    replace_char-append 0 b'\n' (str_replace_char l b'\n' 0) (replicate n b'\r')
    ∙ rw (back b'\n' 0 l h, replace_char-replicate n 0 b'\n' b'\r' (omega arith)) refl

length-replace_char : (l : Bytes) (a b : ℕ) → length (str_replace_char l a b) ≡ length l
unfolding str_replace_char
length-replace_char [] a b = refl
length-replace_char (x ∷ l) a b = ap suc (length-replace_char l a b)

-- What stands on the wire before the newline that ends the line.
wire : Bytes → ℕ → Bytes
wire l n = str_replace_char l b'\n' 0 ++ replicate n b'\r'

wire-sent : (l rest : Bytes) (n : ℕ) → sent l n ++ rest ≡ wire l n ++ (b'\n' ∷ rest)
unfolding wire
wire-sent l rest n = simp append_assoc

wire-clean : (l : Bytes) (n : ℕ) → has b'\n' (wire l n) ≡ false
unfolding wire
wire-clean l n =
    has-join b'\n' (str_replace_char l b'\n' 0) (replicate n b'\r')
      (without b'\n' 0 l (omega arith))
    ∙ has-replicate n b'\n' b'\r' (omega arith)

length-wire : (l : Bytes) (n : ℕ) → length (wire l n) ≡ length l + n
unfolding wire
length-wire l n =
    let crs : length (let e : Bytes = replicate n b'\r' in e) ≡ n = length-replicate n b'\r' in
    omega (
      arith,
      length-append (str_replace_char l b'\n' 0) (replicate n b'\r'),
      length-replace_char l b'\n' 0,
      crs,
    )

module _ {S : Type 0} (k : Socket S) (incoming : S → Bytes) (d : Delivers k incoming) where
  -- The line is found, and got.
  found :
      (l rest : Bytes) (n : ℕ) (s : S)
      → length l + n < max_command_line
      → incoming s ≡ sent l n ++ rest
      → (i : ℕ) × (s' : S) × (str_netfd_alloc k b'\n' max_command_line s
          ≡ ok (record { retval = some i; str = wire l n; socket = s' }))
        × (incoming s' ≡ rest)
  found l rest n s room e =
      let whole = e ∙ wire-sent l rest n in
      let there : has b'\n' (take max_command_line (incoming s)) ≡ true =
        ap (λ z. has b'\n' (take max_command_line z)) whole
        ∙ wire-has b'\n' max_command_line (wire l n) rest (wire-clean l n)
            (omega (arith, length-wire l n)) in
      elim (netfd_alloc-Ended k incoming d b'\n' max_command_line s) [
        | inl (h, i, s', got, left) ↦
            let str =
              ap (before b'\n') whole ∙ before-append b'\n' (wire l n) rest (wire-clean l n) in
            (
              i,
              s',
              got ∙ rw str refl,
              left ∙ (ap (after b'\n') whole ∙ after-append b'\n' (wire l n) rest (wire-clean l n)),
            )
        | inr (inl (h, _, s', got, left)) ↦ absurd (ground arith)
        | inr (inr (h, _, got)) ↦ absurd (ground arith)
      ]

  received :
      (l rest : Bytes) (n : ℕ) (s : S)
      → has 0 l ≡ false
      → Trimmed l
      → length l + n < max_command_line
      → incoming s ≡ sent l n ++ rest
      → (s' : S) × (control_getline k s ≡ ok (line l s')) × (incoming s' ≡ rest)
  received l rest n s clean trim room e =
      let (i, s', got, left) = found l rest n s room e in
      let same : str_replace_char (wire l n) 0 b'\n' ≡ l ++ replicate n b'\r' =
        unfold wire in restored l n clean in
      (
        s',
        unfold control_getline got_line in rw got (rw same (rw (strip-replicate n l trim) refl)),
        left,
      )

  -- A line that a client sends in the way the protocol says, its newlines as NUL and any number of
  -- carriage returns before its end, is read as the command and the argument that stand in it,
  -- the command in upper case, however the bytes of the line arrive; what comes behind the line
  -- stays to be read. The line has no NUL of its own, does not end in a carriage return, and fits
  -- the buffer.
  pub get_cmd_and_arg-sent :
      (log : Bool) (l rest : Bytes) (n : ℕ) (s : S)
      → has 0 l ≡ false
      → Trimmed l
      → length l + n < max_command_line
      → incoming s ≡ sent l n ++ rest
      → (s' : S) × (vsf_cmdio_get_cmd_and_arg log k s
          ≡ ok (
              command
                (str_upper (word_of l))
                (arg_of l)
                (input_log log (str_upper (word_of l)) (arg_of l))
                s'))
        × (incoming s' ≡ rest)
  get_cmd_and_arg-sent log l rest n s clean trim room e =
      let (s', got, left) = received l rest n s clean trim room e in
      (
        s',
        unfold vsf_cmdio_get_cmd_and_arg split_line in rw got (rw (split_command_lem l) refl),
        left,
      )
