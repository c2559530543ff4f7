-- ===== src/Mcupdate/Pass.antt =====
-- The additions, and the differences as a whole.
use dragonsunited_minecraft.Base.{
  ℕ, zero, suc, ◌-◌, ◌≤◌, ◌<◌, Bool, true, false, List, [], ◌∷◌, ◌++◌, ◌≡◌, ◌≢◌, inl, inr, refl,
  sym, ap, ◌∙◌, arith, if◌then◌else◌, length, drop, Option, none, some, Bytes, text, append-nil,
}
use dragonsunited_minecraft.Run.{ok}
use dragonsunited_minecraft.Files.{Kind, Files, is_regfile, is_dir}
use dragonsunited_minecraft.Mcupdate.Diff.{
  unreported, reported, skipped_nil, skipped-unreported, reported_step, Written, itself,
  written_step, short_line, removal_loop-reported,
}
use dragonsunited_minecraft.Mcupdate.{
  addition_line, addition_mark, described, addition, addition_loop, differences,
}
use dragonsunited_minecraft.Str.Lines.{newline}
use dragonsunited_minecraft.Str.Lines.Contains.{rest-cases}
use dragonsunited_minecraft.Str.Lines.Walk.{first_line, lines, getline-Reads, getline-end}
use dragonsunited_minecraft.Str.Text.Compare.{limit}
use dragonsunited_minecraft.Str.Text.Replace.{substituted, str_replace_text-substituted}
use dragonsunited_minecraft.Str.Text.{c_text}

-- The instruction for a new path: its mark by what the path is, or a remark where it is not there.
mark_of : Option Kind → Bytes → Bytes → Bytes
mark_of none path file = text "# unstatable file: " ++ path
mark_of (some Kind.regular) path file = substituted (text "./") (text "+fmods/") 0 file
mark_of (some Kind.directory) path file = substituted (text "./") (text "+dmods/") 0 file
mark_of (some Kind.symlink) path file = substituted (text "./") (text "+umods/") 0 file
mark_of (some Kind.other) path file = substituted (text "./") (text "+umods/") 0 file

unfoldable pub instruction : Files → Bytes → Bytes → Bytes
unfolding mark_of
instruction fs modpack file =
    let path = ((text "/" ++ modpack) ++ text "/mods/") ++ file in
    mark_of (fs.stat (c_text path)) path file

dot_slash-ne-nil : text "./" ≢ []
dot_slash-ne-nil = λ e. cc

addition_line-mark_of :
    (k : Option Kind) (path file : Bytes) → addition_line k path file ≡ ok (mark_of k path file)
unfolding addition_line addition_mark mark_of is_regfile is_dir
addition_line-mark_of none path file = refl
addition_line-mark_of (some Kind.regular) path file =
    str_replace_text-substituted file _ _ dot_slash-ne-nil
addition_line-mark_of (some Kind.directory) path file =
    str_replace_text-substituted file _ _ dot_slash-ne-nil
addition_line-mark_of (some Kind.symlink) path file =
    str_replace_text-substituted file _ _ dot_slash-ne-nil
addition_line-mark_of (some Kind.other) path file =
    str_replace_text-substituted file _ _ dot_slash-ne-nil

described-instruction :
    (fs : Files) (modpack file : Bytes)
    → described fs modpack file ≡ ok (instruction fs modpack file)
unfolding described instruction
described-instruction fs modpack file = addition_line-mark_of _ _ file

addition-nil :
    (fs : Files) (modpack list1 instr : Bytes) → addition fs modpack list1 instr [] ≡ ok instr
unfolding addition
addition-nil fs modpack list1 instr = rw (skipped_nil list1)

ok_if : (b : Bool) (x y : Bytes) → (if b then ok x else ok y) ≡ ok (if b then x else y)
ok_if true x y = refl
ok_if false x y = refl

addition-unreported :
    (fs : Files) (modpack list1 instr file : Bytes)
    → length list1 < limit
    → length file < limit
    → addition fs modpack list1 instr file
      ≡ ok (
          if unreported (lines list1) file
          then instr
          else instr ++ (instruction fs modpack file ++ newline ∷ []))
unfolding addition
addition-unreported fs modpack list1 instr file h k =
    rw (skipped-unreported list1 file h k, described-instruction fs modpack file)
      (ok_if (unreported (lines list1) file) _ _)

addition_loop-reported :
    (f : ℕ) (fs : Files) (modpack list1 list2 : Bytes) (pos : ℕ) (instr : Bytes)
    → length list1 < limit
    → length list2 < limit
    → pos ≤ length list2
    → length list2 - pos < f
    → addition_loop f fs modpack list1 list2 pos instr
      ≡ ok (
          instr
          ++ Written (instruction fs modpack) (reported (lines list1) (lines (drop pos list2))))
unfolding addition_loop
addition_loop-reported zero fs modpack list1 list2 pos instr h1 h2 le h = absurd (omega arith)
addition_loop-reported (suc f) fs modpack list1 list2 pos instr h1 h2 le h =
    elim (rest-cases (drop pos list2)) [
      | inl e ↦
          rw (getline-end list2 pos le e) (
            rw (addition-nil fs modpack list1 instr)
              (rw e (unfold lines reported in rw append-nil)))
      | inr (x, v, e) ↦
          let r = getline-Reads list2 pos x v e in
          let l = first_line (x ∷ v) in
          let b = unreported (lines list1) l in
          let instr' = if b then instr else instr ++ (instruction fs modpack l ++ newline ∷ []) in
          let ih =
            addition_loop-reported f fs modpack list1 list2 r.after instr' h1 h2 r.inside
              (let m = r.moves in let i = r.inside in omega arith) in
          rw r.reads (
            rw (addition-unreported fs modpack list1 instr l h1 (short_line list2 pos x v h2 e)) (
              ih
              ∙ ap ok (
                  written_step (instruction fs modpack) b instr l
                    (reported (lines list1) (lines (drop r.after list2)))
                  ∙ ap (λ (z : List Bytes). instr ++ Written (instruction fs modpack) z)
                      (sym (reported_step (lines list1) list2 pos x v r e)))))
    ]

-- Before the manual list, the instructions are exactly: the lines that only the old list has, each
-- closed by a newline, with "-umods/" for every "./"; then for each line that only the new list
-- has its instruction, in the order of the lists. Empty lines and "." are left out. The loops end.
pub differences-reported :
    (fs : Files) (modpack list1 list2 : Bytes)
    → length list1 < limit
    → length list2 < limit
    → differences fs modpack list1 list2
      ≡ ok (
          substituted
            (text "./")
            (text "-umods/")
            0
            (Written itself (reported (lines list2) (lines list1)))
          ++ Written (instruction fs modpack) (reported (lines list1) (lines list2)))
unfolding differences
differences-reported fs modpack list1 list2 h1 h2 =
    rw
      (removal_loop-reported (suc (length list1)) list1 list2 0 [] h1 h2 (omega arith)
        (omega arith))
      (rw
        (str_replace_text-substituted (Written itself (reported (lines list2) (lines list1)))
          (text "./") (text "-umods/") dot_slash-ne-nil)
        (addition_loop-reported (suc (length list2)) fs modpack list1 list2 0 _ h1 h2 (omega arith)
          (omega arith)))
