-- ===== src/Mcupdate/Manual.antt =====
-- The manual list: where it starts, and its lines in turn.
use dragonsunited_minecraft.Base.{
  ℕ, zero, suc, ◌-◌, ◌≤◌, ◌<◌, Bool, true, false, List, [], ◌∷◌, ◌≡◌, inl, inr, refl, ap, arith,
  if◌then◌else◌, length, drop, Option, none, some, Bytes, bytes_eq,
}
use mathlib.Core.Path.{fun_ext}
use dragonsunited_minecraft.Run.{Run, ok, ◌>>=◌}
use dragonsunited_minecraft.Mcupdate.Diff.{short_line}
use dragonsunited_minecraft.Mcupdate.{change, change_loop, version_loop}
use dragonsunited_minecraft.Str.Lines.Contains.{rest-cases}
use dragonsunited_minecraft.Str.Lines.Walk.{
  first_line, after_line, lines, lines-cons, getline-Reads, getline-end,
}
use dragonsunited_minecraft.Str.Text.Compare.{limit, str_equal-bytes_eq}

-- The lines behind the first that is `line`.
unfoldable pub lines_behind : List Bytes → Bytes → Option (List Bytes)
lines_behind [] line = none
lines_behind (l ∷ ls) line =
    let rest = lines_behind ls line in if bytes_eq l line then some ls else rest

-- A place of the text that `version_loop` may return, with what stands there.
abbrev pub Behind : Bytes → Option (List Bytes) → Run (Option ℕ) → Type 0
Behind s none r = r ≡ ok none
Behind s (some ls) r = (p : ℕ) × (r ≡ ok (some p)) × (p ≤ length s) × (lines (drop p s) ≡ ls)

pub version_loop-Behind :
    (f : ℕ) (s line : Bytes) (pos : ℕ)
    → length s < limit
    → length line < limit
    → pos ≤ length s
    → length s - pos < f
    → Behind s (lines_behind (lines (drop pos s)) line) (version_loop f s line pos)
unfolding version_loop lines_behind
version_loop-Behind zero s line pos h k le m = absurd (omega arith)
version_loop-Behind (suc f) s line pos h k le m = elim (rest-cases (drop pos s)) [
  | inl e ↦ rw e (unfold lines lines_behind in rw (getline-end s pos le e))
  | inr (x, v, e) ↦
      let r = getline-Reads s pos x v e in
      let l = first_line (x ∷ v) in
      let ih =
        version_loop-Behind f s line r.after h k r.inside
          (let a = r.moves in let i = r.inside in omega arith) in
      rw (e, lines-cons x v, r.reads, str_equal-bytes_eq l line (short_line s pos x v h e) k)
        (chosen s (bytes_eq l line) (lines (after_line (x ∷ v))) line r.after _ (ap lines r.rest)
          r.inside ih)
]
  where
    chosen :
        (s : Bytes) (b : Bool) (ls : List Bytes) (line : Bytes) (p : ℕ) (rest : Run (Option ℕ))
        → lines (drop p s) ≡ ls
        → p ≤ length s
        → Behind s (lines_behind (lines (drop p s)) line) rest
        → Behind s (if b then some ls else lines_behind ls line) (if b then ok (some p) else rest)
    chosen s true ls line p rest e le ih = (p, refl, le, e)
    chosen s false ls line p rest e le ih = rw e at ih

-- The changes of a list of lines, one after another.
unfoldable pub change_all : List Bytes → Bytes → Run Bytes
change_all [] instr = ok instr
change_all (l ∷ ls) instr = change instr l >>= change_all ls

pub change_loop-change_all :
    (f : ℕ) (s : Bytes) (pos : ℕ) (instr : Bytes)
    → pos ≤ length s
    → length s - pos < f
    → change_loop f s pos instr ≡ change_all (lines (drop pos s)) instr
unfolding change_loop
change_loop-change_all zero s pos instr le m = absurd (omega arith)
change_loop-change_all (suc f) s pos instr le m = elim (rest-cases (drop pos s)) [
  | inl e ↦ rw e (unfold lines change_all in rw (getline-end s pos le e))
  | inr (x, v, e) ↦
      let r = getline-Reads s pos x v e in
      let ih = λ (i : Bytes).
        change_loop-change_all f s r.after i r.inside
          (let a = r.moves in let b = r.inside in omega arith) in
      rw (e, lines-cons x v, r.reads) (rw (fun_ext ih) (rw r.rest (unfold change_all in refl)))
]
