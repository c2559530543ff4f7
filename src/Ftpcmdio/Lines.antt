-- ===== src/Ftpcmdio/Lines.antt =====
-- A command line: its split at the first space, the carriage returns at its end, and NUL for newline.
use dragonsunited_minecraft.Base.{
  ℕ, zero, suc, false, [], ◌∷◌, ◌++◌, ◌≡◌, ◌≢◌, inl, inr, refl, sym, ap, ◌∙◌, arith, ◌==◌,
  if◌then◌else◌, length, get_or, replicate, Bytes, Bool-cases, ==_iff, lt→leb, length-append,
  append-nil, append_assoc, leb, take-append_eq,
}
use dragonsunited_minecraft.Run.{ok}
use dragonsunited_minecraft.Str.Cut.{str_get_char_at, str_replace_char}
use dragonsunited_minecraft.Str.Text.Split.{before, after, has, str_split_char-parts}
use dragonsunited_minecraft.Ftpcmdio.{strip, split_command}

-- A line as a client writes it: newlines within it as NUL, then carriage returns and a newline.
abbrev pub sent : Bytes → ℕ → Bytes
sent l crs = str_replace_char l b'\n' 0 ++ (replicate crs b'\r' ++ (b'\n' ∷ []))

-- The command and the argument that a line stands for.
unfoldable pub word_of : Bytes → Bytes
word_of l = if length l == 1 then l else before b' ' l

unfoldable pub arg_of : Bytes → Bytes
arg_of l = if length l == 1 then [] else after b' ' l

pub ne_two : (n : ℕ) → (suc (suc n) == 1) ≡ false
ne_two n = ground arith

pub split_one : (x : ℕ) → split_command (x ∷ []) ≡ ok (x ∷ [], [])
unfolding split_command
split_one x = elim (Bool-cases (x == b' ')) [
  | inl e ↦ unfold str_get_char_at in rw e refl
  | inr e ↦
      unfold str_get_char_at in
      rw e (str_split_char-parts (x ∷ []) b' ' (omega arith) ∙ (unfold before after in rw e refl))
]

pub split_command_lem : (l : Bytes) → split_command l ≡ ok (word_of l, arg_of l)
unfolding word_of arg_of
split_command_lem [] = unfold split_command in str_split_char-parts [] b' ' (omega arith)
split_command_lem (x ∷ []) = split_one x
split_command_lem (x ∷ y ∷ l) =
    unfold split_command in
    rw (ne_two (length l)) (str_split_char-parts (x ∷ y ∷ l) b' ' (omega arith))

pub without : (a b : ℕ) (l : Bytes) → a ≢ b → has a (str_replace_char l a b) ≡ false
unfolding has str_replace_char
without a b [] ne = refl
without a b (x ∷ l) ne = elim (Bool-cases (x == a)) [
  | inl e ↦ rw e (let d : (b == a) ≡ false = ground arith in rw d (without a b l ne))
  | inr e ↦ rw e (rw e (without a b l ne))
]

pub back :
    (a b : ℕ) (l : Bytes) → has b l ≡ false → str_replace_char (str_replace_char l a b) b a ≡ l
unfolding has str_replace_char
back a b [] h = refl
back a b (x ∷ l) h = elim (Bool-cases (x == b)) [
  | inl e ↦ absurd (ground arith)
  | inr e ↦ ground (arith, back a b l (ground arith))
]

pub replace_char-append :
    (a b : ℕ) (l m : Bytes)
    → str_replace_char (l ++ m) a b ≡ str_replace_char l a b ++ str_replace_char m a b
unfolding str_replace_char
replace_char-append a b [] m = refl
replace_char-append a b (x ∷ l) m = rw (replace_char-append a b l m)

pub has-join : (c : ℕ) (a b : Bytes) → has c a ≡ false → has c (a ++ b) ≡ has c b
unfolding has
has-join c [] b h = refl
has-join c (x ∷ a) b h = elim (Bool-cases (x == c)) [
  | inl e ↦ absurd (ground arith)
  | inr e ↦ rw e (has-join c a b (ground arith))
]

-- A line that does not end in a carriage return.
abbrev pub Trimmed : Bytes → Type 0
Trimmed l = (m : Bytes) → l ≢ m ++ (b'\r' ∷ [])

pub get_or-end : (l : Bytes) (x : ℕ) → get_or (l ++ (x ∷ [])) (length l) 0 ≡ x
get_or-end [] x = refl
get_or-end (y ∷ l) x = get_or-end l x

-- A list that is not empty has a last element.
pub last-cases : (x : ℕ) (l : Bytes) → (m : Bytes) × (y : ℕ) × (x ∷ l ≡ m ++ (y ∷ []))
last-cases x [] = ([], x, refl)
last-cases x (z ∷ l) = let (m, y, e) = last-cases z l in (x ∷ m, y, ap (◌∷◌ x) e)

pub strip-last :
    (m : Bytes) (y : ℕ)
    → strip (length (m ++ (y ∷ []))) (m ++ (y ∷ []))
      ≡ (if y == b'\r' then strip (length m) m else ok (m ++ (y ∷ [])))
unfolding strip str_get_char_at
strip-last m y =
    let n : length (m ++ (y ∷ [])) ≡ suc (length m) = length-append m (y ∷ []) ∙ omega arith in
    let inside : leb (suc (length m)) (length m) ≡ false =
      lt→leb (suc (length m)) (length m) (omega arith) in
    rw n (rw (take-append_eq (length m) m (y ∷ []) refl) (rw (n, inside, get_or-end m y) refl))

pub strip-Trimmed : (l : Bytes) → Trimmed l → strip (length l) l ≡ ok l
strip-Trimmed [] h = unfold strip in refl
strip-Trimmed (x ∷ l) h =
    let (m, y, e) = last-cases x l in
    let other : (y == b'\r') ≡ false = elim (Bool-cases (y == b'\r')) [
      | inl t ↦ absurd (h m (e ∙ ap (λ z. m ++ (z ∷ [])) ((==_iff y b'\r').0 t)))
      | inr f ↦ f
    ] in
    let whole : strip (length (m ++ (y ∷ []))) (m ++ (y ∷ [])) ≡ ok (m ++ (y ∷ [])) =
      strip-last m y ∙ rw other refl in
    ap (λ z. strip (length z) z) e ∙ whole ∙ ap ok (sym e)

pub replicate-last : (n : ℕ) (c : ℕ) → replicate (suc n) c ≡ replicate n c ++ (c ∷ [])
replicate-last zero c = refl
replicate-last (suc n) c = ap (◌∷◌ c) (replicate-last n c)

-- The carriage returns at the end of a line are stripped, however many there are.
pub strip-replicate :
    (n : ℕ) (l : Bytes)
    → Trimmed l
    → strip (length (l ++ replicate n b'\r')) (l ++ replicate n b'\r') ≡ ok l
strip-replicate zero l h = rw append-nil (strip-Trimmed l h)
strip-replicate (suc n) l h =
    let e : l ++ replicate (suc n) b'\r' ≡ (l ++ replicate n b'\r') ++ (b'\r' ∷ []) =
      rw (replicate-last n b'\r') (sym (append_assoc l (replicate n b'\r') (b'\r' ∷ []))) in
    rw e (strip-last (l ++ replicate n b'\r') b'\r' ∙ strip-replicate n l h)
