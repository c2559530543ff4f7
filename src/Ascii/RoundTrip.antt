-- ===== src/Ascii/RoundTrip.antt =====
-- What the server sends in ASCII mode, received in ASCII mode, is the file.
use dragonsunited_minecraft.Base.{
  ℕ, Bool, true, false, not, ◌&&◌, ◌||◌, length, take, drop, [], ◌∷◌, ◌++◌, ◌≡◌, refl, sym, ap, ◌∙◌,
  arith, ◌==◌, if◌then◌else◌, Bytes, append_assoc, inl, inr, Bool-cases, ==_iff,
}
use dragonsunited_minecraft.Ascii.InPlace.{ascii_to_bin-plain}
use dragonsunited_minecraft.Ascii.Stream.{
  flushed, plain, held_back, lf_next, kept, plain_step, held_back_step,
}
use dragonsunited_minecraft.Ascii.{
  cr, lf, ascii_loop, vsf_ascii_bin_to_ascii, vsf_ascii_ascii_to_bin,
}

-- What a receiver has when the data ends: the translation, and what is held back.
abbrev pub received : Bytes → Bytes
received s = plain s ++ (if held_back s then cr ∷ [] else [])

-- No carriage return stands before a line feed.
abbrev pub NoPair : Bytes → Type 0
NoPair [] = Unit
NoPair (c ∷ cs) = ((c == cr && lf_next cs) ≡ false) × NoPair cs

received_two : (c d : ℕ) (w : Bytes) → received (c ∷ d ∷ w) ≡ kept c (d == lf) ++ received (d ∷ w)
received_two c d w =
    rw (plain_step c d w, held_back_step c d w) (append_assoc (kept c (d == lf)) (plain (d ∷ w)) _)

received_one : (c : ℕ) → received (c ∷ []) ≡ c ∷ []
unfolding plain held_back
received_one c = ground arith

kept_self : (c : ℕ) (b : Bool) → (c == cr && b) ≡ false → kept c b ≡ c ∷ []
unfolding kept
kept_self c b e = rw e

-- A byte that starts no pair is received as it is.
received_cons :
    (c : ℕ) (w : Bytes) → (c == cr && lf_next w) ≡ false → received (c ∷ w) ≡ c ∷ received w
received_cons c [] e = received_one c ∙ unfold plain held_back in refl
received_cons c (d ∷ w) e =
    received_two c d w ∙ ap (λ (z : Bytes). z ++ received (d ∷ w)) (kept_self c (d == lf) e)

received_pair : (w : Bytes) → received (cr ∷ lf ∷ w) ≡ lf ∷ received w
received_pair w = received_two cr lf w ∙ unfold kept in received_cons lf w refl

-- The head of what is sent is no line feed where that of the data is none.
lf_next-ascii_loop :
    (b : Bool) (s : Bytes) → lf_next s ≡ false → lf_next (ascii_loop b s).stored ≡ false
unfolding ascii_loop
lf_next-ascii_loop b [] e = refl
lf_next-ascii_loop b (c ∷ cs) e = rw e e

quiet :
    (c : ℕ) (cs : Bytes)
    → (c == cr && lf_next cs) ≡ false
    → (c == cr && lf_next (ascii_loop (c == cr) cs).stored) ≡ false
quiet c cs e = elim (Bool-cases (c == cr)) [
  | inl p ↦ rw p (lf_next-ascii_loop true cs (rw p at e))
  | inr p ↦ rw p
]

sent :
    (b : Bool) (s : Bytes)
    → NoPair s
    → (b && lf_next s) ≡ false
    → received (ascii_loop b s).stored ≡ s
unfolding ascii_loop
sent b [] n e = unfold plain held_back in refl
sent b (c ∷ cs) n e =
    let later = (ascii_loop (c == cr) cs).stored in
    let ih = sent (c == cr) cs n.1 n.0 in
    elim (Bool-cases (c == lf)) [
      | inl p ↦
          let z : c ≡ lf = (==_iff _ _).0 p in
          let fresh : b ≡ false = ground arith in
          rw (p, fresh)
            (ap (λ (k : ℕ). received (cr ∷ k ∷ later)) z
              ∙ received_pair later
              ∙ ap (λ (k : ℕ). k ∷ received later) (sym z)
              ∙ ap (◌∷◌ c) ih)
      | inr p ↦ rw p (received_cons c later (quiet c cs n.0) ∙ ap (◌∷◌ c) ih)
    ]

-- Every line feed has a carriage return before it; `b` says whether one stands before the data.
unfoldable pub lines_end_crlf : Bool → Bytes → Bool
lines_end_crlf b [] = true
lines_end_crlf b (c ∷ cs) = (not (c == lf) || b) && lines_end_crlf (c == cr) cs

ascii_loop-lines_end_crlf : (b : Bool) (s : Bytes) → lines_end_crlf b (ascii_loop b s).stored ≡ true
unfolding ascii_loop lines_end_crlf
ascii_loop-lines_end_crlf b [] = refl
ascii_loop-lines_end_crlf b (c ∷ cs) =
    let ih = ascii_loop-lines_end_crlf (c == cr) cs in
    elim (Bool-cases (c == lf)) [
      | inl p ↦ elim (Bool-cases b) [ inl q ↦ rw (p, q) (rw p ih) | inr q ↦ rw (p, q) (rw p ih) ]
      | inr p ↦ rw p (rw p ih)
    ]

-- What a call of `vsf_ascii_ascii_to_bin` returns, with `p` for the byte before its input.
abbrev pub to_bin : ℕ → Bytes → Bool → Bytes
to_bin p input prev_cr =
    let (b, r) = vsf_ascii_ascii_to_bin (p ∷ input) (length input) prev_cr in
    take r.stored (drop r.p_buf b)

abbrev pub holds_back : ℕ → Bytes → Bool → Bool
holds_back p input prev_cr =
    (vsf_ascii_ascii_to_bin (p ∷ input) (length input) prev_cr).1.last_was_cr

last_call : (b : Bool) → flushed b [] ++ plain [] ≡ (if b then cr ∷ [] else [])
unfolding plain
last_call true = refl
last_call false = refl

-- Data in which no carriage return stands before a line feed, sent and received in ASCII mode: what
-- is sent has a carriage return before every line feed, and what `vsf_ascii_ascii_to_bin` makes of
-- it in one call, with what it makes of the end of the data in a second, is the data. The byte
-- before the input of either call may be anything.
pub received-bin_to_ascii :
    (s : Bytes) (p q : ℕ)
    → NoPair s
    → (lines_end_crlf false (vsf_ascii_bin_to_ascii s false).stored ≡ true)
      × (to_bin p (vsf_ascii_bin_to_ascii s false).stored false
            ++ to_bin q [] (holds_back p (vsf_ascii_bin_to_ascii s false).stored false)
          ≡ s)
unfolding vsf_ascii_bin_to_ascii
received-bin_to_ascii s p q n =
    let sent_bytes = (ascii_loop false s).stored in
    let (first, held) = ascii_to_bin-plain p sent_bytes false in
    let (second, _) = ascii_to_bin-plain q [] (holds_back p sent_bytes false) in
    (
      ascii_loop-lines_end_crlf false s,
      ap (λ (z : Bytes). z ++ to_bin q [] (holds_back p sent_bytes false)) first
          ∙ ap (λ (z : Bytes). plain sent_bytes ++ z)
              (second ∙ last_call (holds_back p sent_bytes false))
          ∙ ap (λ (z : Bool). plain sent_bytes ++ (if z then cr ∷ [] else [])) held
          ∙ sent false s n refl,
    )
