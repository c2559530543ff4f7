-- ===== src/Mcupdate/Create.antt =====
-- `mcu_create_update_instructions` as a function of the lines of the files.
use dragonsunited_minecraft.Base.{
  ℕ, suc, ◌≤◌, ◌<◌, true, List, ◌∷◌, ◌++◌, ◌≡◌, arith, length, Option, none, some, Bytes, text,
}
use dragonsunited_minecraft.Run.{Run, ok, ◌>>=◌}
use dragonsunited_minecraft.Files.{Files, str_fileread}
use dragonsunited_minecraft.Mcupdate.Diff.{reported, Written, itself}
use dragonsunited_minecraft.Mcupdate.Manual.{
  lines_behind, Behind, version_loop-Behind, change_all, change_loop-change_all,
}
use dragonsunited_minecraft.Mcupdate.Pass.{differences-reported, instruction}
use dragonsunited_minecraft.Mcupdate.{
  version_loop, Status, done, listfile_error, manual, with_changes, with_lists, old_list, listfile,
  mcu_get_latest_version, mcu_create_update_instructions,
}
use dragonsunited_minecraft.Str.Lines.Walk.{lines}
use dragonsunited_minecraft.Str.Text.Compare.{limit}
use dragonsunited_minecraft.Str.Text.Replace.{substituted}
use dragonsunited_minecraft.Str.Text.{c_text}

-- The instructions before the manual list, from the two list files.
unfoldable pub base_instructions : Files → Bytes → Bytes → Bytes → Bytes
base_instructions fs modpack list1 list2 =
    substituted (text "./") (text "-umods/") 0
      (Written itself (reported (lines list2) (lines list1)))
    ++ Written (instruction fs modpack) (reported (lines list1) (lines list2))

-- What the manual list makes of them: the lines behind the line of the version are applied in turn,
-- and a list with no such line is an error.
pub outcome_of : Option (List Bytes) → Bytes → Run (Status × Bytes)
outcome_of none instr = ok (listfile_error, instr)
outcome_of (some ls) instr = do instr' ← change_all ls instr; ok (done, instr')

pub fileread-length :
    (fs : Files) (name : Bytes) (m : ℕ) {b : Bytes}
    → str_fileread fs name m ≡ ok (some b)
    → length b ≤ m
unfolding str_fileread
fileread-length fs name m e = ground arith

manual-Behind :
    (s version instr : Bytes) (o : Option (List Bytes))
    → Behind s o (version_loop (suc (length s)) s (b'@' ∷ version) 0)
    → manual s version instr ≡ outcome_of o instr
unfolding manual outcome_of
manual-Behind s version instr none e = rw e
manual-Behind s version instr (some ls) (p, e, le, at) =
    rw e (rw (change_loop-change_all (suc (length s)) s p instr le (omega arith), at))

manual-outcome_of :
    (s version instr : Bytes)
    → length s < limit
    → suc (length version) < limit
    → manual s version instr ≡ outcome_of (lines_behind (lines s) (b'@' ∷ version)) instr
manual-outcome_of s version instr h k =
    manual-Behind s version instr _
      (version_loop-Behind (suc (length s)) s (b'@' ∷ version) 0 h k (omega arith) (omega arith))

-- For files that can be read and a version shorter than 2^31 - 1, the outcome is that of the base
-- instructions changed in turn by the lines that stand behind the version's line of the manual
-- list, or the list file error with the base instructions where it has no such line.
pub create_update_instructions-outcome_of :
    (fs : Files) (instr modpack version latest list1 list2 changes : Bytes)
    → suc (length version) < limit
    → mcu_get_latest_version fs modpack ≡ ok (true, latest)
    → str_fileread fs (listfile modpack version) 100000 ≡ ok (some list1)
    → str_fileread fs (listfile modpack latest) 100000 ≡ ok (some list2)
    → str_fileread fs (c_text (text "/DATA/CHANGE/" ++ modpack)) 100000 ≡ ok (some changes)
    → mcu_create_update_instructions fs instr modpack version
      ≡ outcome_of
          (lines_behind (lines changes) (b'@' ∷ version))
          (base_instructions fs modpack list1 list2)
unfolding mcu_create_update_instructions old_list with_lists with_changes base_instructions
create_update_instructions-outcome_of fs instr modpack version latest list1 list2 changes short
      known e1 e2 e3 =
    let l1 = fileread-length fs _ 100000 e1 in
    let l2 = fileread-length fs _ 100000 e2 in
    let l3 = fileread-length fs _ 100000 e3 in
    rw (known, e1, e2)
      (rw (differences-reported fs modpack list1 list2 (omega arith) (omega arith))
        (rw e3 (manual-outcome_of changes version _ (omega arith) short)))
