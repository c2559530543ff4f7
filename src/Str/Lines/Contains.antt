-- ===== src/Str/Lines/Contains.antt =====
-- `str_contains_line` against membership in the list of lines.
use dragonsunited_minecraft.Base.{
  ℕ, zero, suc, ◌-◌, ◌≤◌, ◌<◌, Bool, true, false, ◌||◌, List, [], ◌∷◌, ◌≡◌, ◌⊎◌, inl, inr, refl, ap,
  arith, if◌then◌else◌, length, drop, Bytes, length-drop, bytes_eq,
}
use dragonsunited_minecraft.Run.{ok}
use dragonsunited_minecraft.Str.Lines.{contains_loop, str_contains_line}
use dragonsunited_minecraft.Str.Lines.Walk.{
  first_line, lines, lines-cons, getline-Reads, getline-end,
}
use dragonsunited_minecraft.Str.Text.Compare.{limit, str_equal-bytes_eq}

-- `line` is one of `ls`.
unfoldable pub has_line : List Bytes → Bytes → Bool
has_line [] line = false
has_line (l ∷ ls) line = bytes_eq l line || has_line ls line

pub length-first_line : (u : Bytes) → length (first_line u) ≤ length u
unfolding first_line
length-first_line [] = omega arith
length-first_line (c ∷ cs) = ground (arith, length-first_line cs)

pub rest-cases : (u : Bytes) → (u ≡ []) ⊎ ((x : ℕ) × (v : Bytes) × (u ≡ x ∷ v))
rest-cases [] = inl refl
rest-cases (x ∷ v) = inr (x, v, refl)

or_if : (a b : Bool) → (if a then ok true else ok b) ≡ ok (a || b)
or_if true b = refl
or_if false b = refl

contains_loop-has_line :
    (f : ℕ) (s line : Bytes) (pos : ℕ)
    → length s < limit
    → length line < limit
    → pos ≤ length s
    → length s - pos < f
    → contains_loop f s line pos ≡ ok (has_line (lines (drop pos s)) line)
unfolding contains_loop
contains_loop-has_line zero s line pos hs hl le h = absurd (omega arith)
contains_loop-has_line (suc f) s line pos hs hl le h = elim (rest-cases (drop pos s)) [
  | inl e ↦ rw (getline-end s pos le e) (rw e (unfold lines has_line in refl))
  | inr (x, v, e) ↦
      let r = getline-Reads s pos x v e in
      let short : length (first_line (x ∷ v)) < limit =
        omega (arith, length-first_line (x ∷ v), length-drop {0} pos s, ap length e) in
      let ih =
        contains_loop-has_line f s line r.after hs hl r.inside
          (let m = r.moves in let i = r.inside in omega arith) in
      rw (r.reads, str_equal-bytes_eq (first_line (x ∷ v)) line short hl)
        (rw (ih, r.rest, e, lines-cons x v)
          (unfold has_line in or_if (bytes_eq (first_line (x ∷ v)) line) _))
]

-- `str_contains_line` tells whether the line is one of the lines of the text; it ends, and the
-- `bug` of `str_getline` is never reached.
pub str_contains_line-has_line :
    (s line : Bytes)
    → length s < limit
    → length line < limit
    → str_contains_line s line ≡ ok (has_line (lines s) line)
unfolding str_contains_line
str_contains_line-has_line s line hs hl =
    contains_loop-has_line (suc (length s)) s line 0 hs hl (omega arith) (omega arith)
