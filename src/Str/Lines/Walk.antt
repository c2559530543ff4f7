-- ===== src/Str/Lines/Walk.antt =====
-- What `str_getline` yields, call after call, is the list of the lines.
use dragonsunited_minecraft.Base.{
  ℕ, zero, suc, ◌+◌, ◌-◌, ◌≤◌, ◌<◌, true, false, List, [], ◌∷◌, ◌≡◌, inl, inr, refl, sym, ap, ◌∙◌,
  arith, ◌==◌, drop-drop, get_or-drop, if◌then◌else◌, length, take, drop, get_or, Bytes, Bool-cases,
  le→ltb, lt→ltb, ==_iff, length-drop,
}
use dragonsunited_minecraft.Run.{ok}
use dragonsunited_minecraft.Str.Lines.{newline, line_end, str_getline}

-- The bytes before the first newline, and those after it.
unfoldable pub first_line : Bytes → Bytes
first_line [] = []
first_line (c ∷ cs) = let rest = first_line cs in if c == newline then [] else c ∷ rest

unfoldable pub after_line : Bytes → Bytes
after_line [] = []
after_line (c ∷ cs) = let rest = after_line cs in if c == newline then cs else rest

-- The lines of a text. A newline at the end closes the last line and opens no other.
abbrev pub onto_first : ℕ → List Bytes → List Bytes
onto_first c [] = (c ∷ []) ∷ []
onto_first c (l ∷ ls) = (c ∷ l) ∷ ls

unfoldable pub lines : Bytes → List Bytes
lines [] = []
lines (c ∷ cs) = let rest = lines cs in if c == newline then [] ∷ rest else onto_first c rest

pub lines-cons :
    (c : ℕ) (cs : Bytes) → lines (c ∷ cs) ≡ first_line (c ∷ cs) ∷ lines (after_line (c ∷ cs))
unfolding lines first_line after_line
lines-cons c [] = ground arith
lines-cons c (d ∷ cs) = ground (arith, lines-cons d cs)

-- What stands at `pos`, in the terms of the rest of the text.
drop-cons :
    (i : ℕ) (s : Bytes) {x : ℕ} {u : Bytes}
    → drop i s ≡ x ∷ u
    → (get_or s i 0 ≡ x) × (drop (suc i) s ≡ u) × (i < length s)
drop-cons zero [] h = cc
drop-cons zero (x ∷ s) h = ground arith
drop-cons (suc i) [] h = cc
drop-cons (suc i) (x ∷ s) h = ground (arith, drop-cons i s h)

drop-nil : (i : ℕ) (s : Bytes) → drop i s ≡ [] → i ≤ length s → i ≡ length s
drop-nil i s h le = omega (arith, length-drop {0} i s, ap length h)

-- The scan stops at the end of the first line of the rest.
line_end_lem :
    (u s : Bytes) (i : ℕ)
    → drop i s ≡ u
    → i ≤ length s
    → line_end (length u) s i ≡ i + length (first_line u)
unfolding line_end first_line
line_end_lem [] s i h le = omega arith
line_end_lem (x ∷ u) s i h le =
    let (x', u', lt) = drop-cons i s h in
    rw (x', lt→ltb i (length s) lt)
      (elim (Bool-cases (x == newline)) [
        | inl e ↦ rw e (omega arith)
        | inr e ↦ rw e (line_end_lem u s (suc i) u' lt ∙ omega arith)
      ])

take-first_line : (u : Bytes) → take (length (first_line u)) u ≡ first_line u
unfolding first_line
take-first_line [] = refl
take-first_line (c ∷ cs) = elim (Bool-cases (c == newline)) [
  | inl e ↦ rw e
  | inr e ↦ rw e (ap (◌∷◌ c) (take-first_line cs))
]

-- The line fills the rest, or a newline follows it.
data Ends (u : Bytes) : Type 0 where
  filled : length (first_line u) ≡ length u → after_line u ≡ [] → Ends u
  closed :
      length (first_line u) < length u
      → (get_or u (length (first_line u)) 0 == newline) ≡ true
      → after_line u ≡ drop (suc (length (first_line u))) u
      → Ends u

first_line-Ends : (u : Bytes) → Ends u
unfolding first_line after_line
first_line-Ends [] = filled refl refl
first_line-Ends (c ∷ cs) = elim (Bool-cases (c == newline)) [
  | inl e ↦ closed (rw e (omega arith)) (rw (e, e)) (rw e)
  | inr e ↦ longer c cs e (first_line-Ends cs)
]
  where
    longer : (c : ℕ) (cs : Bytes) → c == newline ≡ false → Ends cs → Ends (c ∷ cs)
    longer c cs e (filled h k) = filled (rw e (omega arith)) (rw e k)
    longer c cs e (closed h k m) = closed (rw e (omega arith)) (rw e k) (rw e m)

drop_past : (k : ℕ) (u : Bytes) → k ≡ length u → drop k u ≡ []
drop_past zero [] h = refl
drop_past zero (x ∷ u) h = absurd (omega arith)
drop_past (suc k) [] h = refl
drop_past (suc k) (x ∷ u) h = drop_past k u (omega arith)

-- `str_getline` at the start of the rest `u` of a text.
pub record Reads (s : Bytes) (pos : ℕ) (u : Bytes) : Type 0 where
  pub after : ℕ
  pub reads :
      str_getline s pos ≡ ok (record { result = true; line_str = first_line u; pos = after })
  pub rest : drop after s ≡ after_line u
  pub moves : pos < after
  pub inside : after ≤ length s

ne_of_lt : (i n : ℕ) → i < n → (i == n) ≡ false
ne_of_lt i n h = ground arith

module _ (s : Bytes) (pos : ℕ) (u : Bytes) (e : drop pos s ≡ u) (h : pos < length s) where
  rest_length : length u ≡ length s - pos
  rest_length = omega (arith, ap length e, length-drop {0} pos s)

  scanned : line_end (length s - pos) s pos ≡ pos + length (first_line u)
  scanned = rw (← rest_length) (line_end_lem u s pos e (omega arith))

  taken : take (pos + length (first_line u) - pos) (drop pos s) ≡ first_line u
  taken =
      let k : pos + length (first_line u) - pos ≡ length (first_line u) = omega arith in
      rw (k, e) (take-first_line u)

  getline-Ends : Ends u → 0 < length u → Reads s pos u
  getline-Ends (filled k m) long =
      let curr = pos + length (first_line u) in
      let at_end : curr ≡ length s = omega (arith, rest_length) in
      record {
        after = curr;
        reads =
            unfold str_getline in
            rw (le→ltb (length s) pos (omega arith), ne_of_lt pos (length s) h, scanned)
              (rw (taken, le→ltb curr (length s) (omega arith)));
        rest =
            sym (drop-drop pos (length (first_line u)) s)
            ∙ ap (drop (length (first_line u))) e
            ∙ drop_past (length (first_line u)) u k
            ∙ sym m;
        moves = omega arith;
        inside = omega arith;
      }
  getline-Ends (closed k c m) long =
      let curr = pos + length (first_line u) in
      let before : curr < length s = omega (arith, rest_length) in
      record {
        after = curr + 1;
        reads =
            unfold str_getline in
            rw (le→ltb (length s) pos (omega arith), ne_of_lt pos (length s) h, scanned)
              (rw (
                taken,
                lt→ltb curr (length s) before,
                ← get_or-drop pos (length (first_line u)) s 0,
                e,
                c,
              ));
        rest =
            let n : curr + 1 ≡ pos + suc (length (first_line u)) = omega arith in
            rw n (
              sym (drop-drop pos (suc (length (first_line u))) s)
              ∙ ap (drop (suc (length (first_line u)))) e
              ∙ sym m);
        moves = omega arith;
        inside = omega arith;
      }

-- `str_getline` inside a text yields the first line of what stands there and passes it with its
-- newline; at the end of the text it yields nothing.
pub getline-Reads : (s : Bytes) (pos x : ℕ) (u : Bytes) → drop pos s ≡ x ∷ u → Reads s pos (x ∷ u)
getline-Reads s pos x u e =
    getline-Ends s pos (x ∷ u) e (drop-cons pos s e).2 (first_line-Ends (x ∷ u)) (omega arith)

pub getline-end :
    (s : Bytes) (pos : ℕ)
    → pos ≤ length s
    → drop pos s ≡ []
    → str_getline s pos ≡ ok (record { result = false; line_str = []; pos = pos })
unfolding str_getline
getline-end s pos h e =
    let z = drop-nil pos s e h in
    let same : pos == length s ≡ true = (==_iff _ _).1 z in rw (le→ltb (length s) pos h, same)
