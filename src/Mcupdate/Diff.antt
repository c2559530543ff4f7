-- ===== src/Mcupdate/Diff.antt =====
-- The two passes over the list files, as functions of the lists of their lines.
use dragonsunited_minecraft.Base.{
  ℕ, zero, suc, ◌-◌, ◌≤◌, ◌<◌, Bool, true, false, ◌||◌, List, [], ◌∷◌, ◌++◌, map, ◌≡◌, inl, inr,
  refl, sym, ap, ◌∙◌, arith, if◌then◌else◌, length, drop, Bytes, text, Bool-cases, bytes_eq,
  length-drop, append-nil, append_assoc,
}
use dragonsunited_minecraft.Run.{ok}
use dragonsunited_minecraft.Mcupdate.{skipped, removal, removal_loop}
use dragonsunited_minecraft.Str.Lines.{newline}
use dragonsunited_minecraft.Str.Lines.Contains.{
  has_line, rest-cases, length-first_line, str_contains_line-has_line,
}
use dragonsunited_minecraft.Str.Lines.Walk.{
  first_line, lines, lines-cons, Reads, getline-Reads, getline-end,
}
use dragonsunited_minecraft.Str.Lines.Join.{with_newlines}
use dragonsunited_minecraft.Str.Text.Compare.{limit, str_equal_text-bytes_eq}
use dragonsunited_minecraft.Str.Text.{str_isempty, str_equal_text}

-- A line that neither pass reports.
unfoldable pub unreported : List Bytes → Bytes → Bool
unreported others [] = true
unreported others (c ∷ cs) = bytes_eq (c ∷ cs) (text ".") || has_line others (c ∷ cs)

-- The lines of `ls` that are not among `others`.
unfoldable pub reported : List Bytes → List Bytes → List Bytes
reported others [] = []
reported others (l ∷ ls) =
    let rest = reported others ls in if unreported others l then rest else l ∷ rest

or_chain : (a b : Bool) → (if a || false then ok true else ok b) ≡ ok (a || b)
or_chain true b = refl
or_chain false b = refl

isempty-cons : (c : ℕ) (cs : Bytes) → str_isempty (c ∷ cs) ≡ false
unfolding str_isempty
isempty-cons c cs = ground arith

pub skipped_nil : (list : Bytes) → skipped list [] ≡ ok true
unfolding skipped str_isempty
skipped_nil list = elim (Bool-cases (str_equal_text [] (text "."))) [ inl e ↦ rw e | inr e ↦ rw e ]

pub skipped-unreported :
    (list file : Bytes)
    → length list < limit
    → length file < limit
    → skipped list file ≡ ok (unreported (lines list) file)
unfolding skipped unreported
skipped-unreported list [] hs hl = skipped_nil list
skipped-unreported list (c ∷ cs) hs hl =
    rw
      (
        str_equal_text-bytes_eq (c ∷ cs) (text ".") hl (omega arith),
        isempty-cons c cs,
        str_contains_line-has_line list (c ∷ cs) hs hl,
      )
      (or_chain (bytes_eq (c ∷ cs) (text ".")) (has_line (lines list) (c ∷ cs)))

-- The lines that a pass reports from `pos` on, where a line stands there.
pub reported_step :
    (others : List Bytes) (s : Bytes) (pos x : ℕ) (v : Bytes) (r : Reads s pos (x ∷ v))
    → drop pos s ≡ x ∷ v
    → reported others (lines (drop pos s)) ≡ (
        if unreported others (first_line (x ∷ v))
        then reported others (lines (drop r.after s))
        else first_line (x ∷ v) ∷ reported others (lines (drop r.after s)))
unfolding reported
reported_step others s pos x v r e = rw (e, lines-cons x v, r.rest)

-- What `f` makes of each line that is reported.
abbrev pub Written : (Bytes → Bytes) → List Bytes → Bytes
Written f ls = with_newlines (map f ls)

pub written_step :
    (f : Bytes → Bytes) (b : Bool) (instr l : Bytes) (ls : List Bytes)
    → (if b then instr else instr ++ (f l ++ newline ∷ [])) ++ Written f ls
      ≡ instr ++ Written f (if b then ls else l ∷ ls)
written_step f true instr l ls = refl
written_step f false instr l ls = simp append_assoc

removal-unreported :
    (list2 instr file : Bytes)
    → length list2 < limit
    → length file < limit
    → removal list2 instr file
      ≡ ok (if unreported (lines list2) file then instr else instr ++ (file ++ newline ∷ []))
unfolding removal
removal-unreported list2 instr file h k = rw (skipped-unreported list2 file h k)

pub short_line :
    (s : Bytes) (pos x : ℕ) (v : Bytes)
    → length s < limit
    → drop pos s ≡ x ∷ v
    → length (first_line (x ∷ v)) < limit
short_line s pos x v h e =
    omega (arith, length-first_line (x ∷ v), length-drop {0} pos s, ap length e)

abbrev pub itself : Bytes → Bytes
itself l = l

removal-nil : (list2 instr : Bytes) → removal list2 instr [] ≡ ok instr
unfolding removal
removal-nil list2 instr = rw (skipped_nil list2)

pub removal_loop-reported :
    (f : ℕ) (list1 list2 : Bytes) (pos : ℕ) (instr : Bytes)
    → length list1 < limit
    → length list2 < limit
    → pos ≤ length list1
    → length list1 - pos < f
    → removal_loop f list1 list2 pos instr
      ≡ ok (instr ++ Written itself (reported (lines list2) (lines (drop pos list1))))
unfolding removal_loop
removal_loop-reported zero list1 list2 pos instr h1 h2 le h = absurd (omega arith)
removal_loop-reported (suc f) list1 list2 pos instr h1 h2 le h =
    elim (rest-cases (drop pos list1)) [
      | inl e ↦
          rw (getline-end list1 pos le e)
            (rw (removal-nil list2 instr) (rw e (unfold lines reported in rw append-nil)))
      | inr (x, v, e) ↦
          let r = getline-Reads list1 pos x v e in
          let l = first_line (x ∷ v) in
          let b = unreported (lines list2) l in
          let instr' = if b then instr else instr ++ (l ++ newline ∷ []) in
          let ih =
            removal_loop-reported f list1 list2 r.after instr' h1 h2 r.inside
              (let m = r.moves in let i = r.inside in omega arith) in
          rw r.reads (
            rw (removal-unreported list2 instr l h2 (short_line list1 pos x v h1 e)) (
              ih
              ∙ ap ok (
                  written_step itself b instr l
                    (reported (lines list2) (lines (drop r.after list1)))
                  ∙ ap (λ (z : List Bytes). instr ++ Written itself z)
                      (sym (reported_step (lines list2) list1 pos x v r e)))))
    ]
