-- ===== src/Str/Lines/Join.antt =====
-- A text that is made of its lines, and the lines of such a text.
use dragonsunited_minecraft.Base.{
  ℕ, true, false, List, [], ◌∷◌, ◌++◌, ◌≡◌, ◌≢◌, refl, ap, ◌∙◌, arith, ◌==◌, Bytes, bytes_eq_refl,
  append_assoc,
}
use dragonsunited_minecraft.Str.Lines.Contains.{has_line}
use dragonsunited_minecraft.Str.Lines.Walk.{lines}
use dragonsunited_minecraft.Str.Lines.{newline}

-- Each line with a newline behind it.
abbrev pub with_newlines : List Bytes → Bytes
with_newlines [] = []
with_newlines (l ∷ ls) = l ++ (newline ∷ with_newlines ls)

-- The byte `d` does not occur.
abbrev pub Free : ℕ → Bytes → Type 0
Free d [] = Unit
Free d (c ∷ cs) = (c ≢ d) × Free d cs

abbrev pub AllFree : List Bytes → Type 0
AllFree [] = Unit
AllFree (l ∷ ls) = Free newline l × AllFree ls

lines_line : (l s : Bytes) → Free newline l → lines (l ++ (newline ∷ s)) ≡ l ∷ lines s
unfolding lines
lines_line [] s h = refl
lines_line (c ∷ l) s h = let ne : c == newline ≡ false = ground arith in rw (ne, lines_line l s h.1)

-- Lines that hold no newline are read back from their text.
pub lines-with_newlines : (ls : List Bytes) → AllFree ls → lines (with_newlines ls) ≡ ls
lines-with_newlines [] h = unfold lines in refl
lines-with_newlines (l ∷ ls) h =
    lines_line l (with_newlines ls) h.0 ∙ ap (◌∷◌ l) (lines-with_newlines ls h.1)

pub with_newlines-append :
    (ls ms : List Bytes) → with_newlines (ls ++ ms) ≡ with_newlines ls ++ with_newlines ms
with_newlines-append [] ms = refl
with_newlines-append (l ∷ ls) ms = rw (with_newlines-append ls ms) (simp append_assoc)

pub has_line_head : (l : Bytes) (ls : List Bytes) → has_line (l ∷ ls) l ≡ true
unfolding has_line
has_line_head l ls = rw (bytes_eq_refl l)
