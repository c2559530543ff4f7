-- ===== src/Mcupdate/Errors.antt =====
-- `mcu_create_update_instructions` where a file cannot be read.
use dragonsunited_minecraft.Base.{true, false, ◌++◌, ◌≡◌, arith, none, some, Bytes, text}
use dragonsunited_minecraft.Run.{ok}
use dragonsunited_minecraft.Files.{Files, str_fileread}
use dragonsunited_minecraft.Mcupdate.Create.{base_instructions, fileread-length}
use dragonsunited_minecraft.Mcupdate.Pass.{differences-reported}
use dragonsunited_minecraft.Mcupdate.{
  Status, no_modpack, no_version, listfile_error, with_changes, with_lists, old_list, listfile,
  mcu_get_latest_version, mcu_create_update_instructions,
}
use dragonsunited_minecraft.Str.Text.{c_text}

-- The first file of a request that cannot be read, with the status and the string it leads to.
pub data Missing (fs : Files) (instr modpack version : Bytes) : Status × Bytes → Type 0 where
  version_file :
      (latest : Bytes)
      → mcu_get_latest_version fs modpack ≡ ok (false, latest)
      → Missing fs instr modpack version (no_modpack, instr)
  old_listfile :
      (latest : Bytes)
      → mcu_get_latest_version fs modpack ≡ ok (true, latest)
      → str_fileread fs (listfile modpack version) 100000 ≡ ok none
      → Missing fs instr modpack version (no_version, instr)
  new_listfile :
      (latest list1 : Bytes)
      → mcu_get_latest_version fs modpack ≡ ok (true, latest)
      → str_fileread fs (listfile modpack version) 100000 ≡ ok (some list1)
      → str_fileread fs (listfile modpack latest) 100000 ≡ ok none
      → Missing fs instr modpack version (listfile_error, instr)
  manual_list :
      (latest list1 list2 : Bytes)
      → mcu_get_latest_version fs modpack ≡ ok (true, latest)
      → str_fileread fs (listfile modpack version) 100000 ≡ ok (some list1)
      → str_fileread fs (listfile modpack latest) 100000 ≡ ok (some list2)
      → str_fileread fs (c_text (text "/DATA/CHANGE/" ++ modpack)) 100000 ≡ ok none
      → Missing fs instr modpack version (listfile_error, base_instructions fs modpack list1 list2)

-- The call returns where a file is missing: without the version file or a list file with a status
-- of its own or the list file error and the string as it was, and without the manual list with the
-- list file error and the instructions of the differences.
pub create_update_instructions-Missing :
    (fs : Files) (instr modpack version : Bytes) (r : Status × Bytes)
    → Missing fs instr modpack version r
    → mcu_create_update_instructions fs instr modpack version ≡ ok r
unfolding mcu_create_update_instructions old_list with_lists with_changes base_instructions
create_update_instructions-Missing fs instr modpack version _ (version_file latest e) = rw e
create_update_instructions-Missing fs instr modpack version _ (old_listfile latest e e1) =
    rw (e, e1)
create_update_instructions-Missing fs instr modpack version _ (new_listfile latest l e e1 e2) =
    rw (e, e1, e2)
create_update_instructions-Missing fs instr modpack version _ (manual_list latest l k e e1 e2 e3) =
    let l1 = fileread-length fs _ 100000 e1 in
    let l2 = fileread-length fs _ 100000 e2 in
    rw (e, e1, e2) (rw (differences-reported fs modpack l k (omega arith) (omega arith)) (rw e3))
