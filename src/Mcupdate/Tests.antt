-- ===== src/Mcupdate/Tests.antt =====
-- Runs of mcupdate.c on a small modpack, and the theorems at these inputs.
use dragonsunited_minecraft.Base.{
  true, List, [], ◌∷◌, ◌++◌, Option, none, some, ◌≡◌, refl, arith, if◌then◌else◌, length, Bytes,
  text, bytes_eq,
}
use dragonsunited_minecraft.Run.{ok}
use dragonsunited_minecraft.Files.{Kind, File, Files, str_fileread}
use dragonsunited_minecraft.Mcupdate.Changes.{change_add_hits_longer, two_lines}
use dragonsunited_minecraft.Mcupdate.Create.{
  base_instructions, outcome_of, create_update_instructions-outcome_of,
}
use dragonsunited_minecraft.Mcupdate.Errors.{
  Missing, manual_list, create_update_instructions-Missing,
}
use dragonsunited_minecraft.Mcupdate.Manual.{lines_behind}
use dragonsunited_minecraft.Mcupdate.Pass.{differences-reported, instruction}
use dragonsunited_minecraft.Mcupdate.Diff.{reported, unreported, Written, itself}
use dragonsunited_minecraft.Mcupdate.{
  listfile_error, mcu_get_latest_version, listfile, differences, change_add,
  mcu_create_update_instructions,
}
use dragonsunited_minecraft.Str.Lines.Contains.{has_line}
use dragonsunited_minecraft.Str.Lines.Join.{with_newlines}
use dragonsunited_minecraft.Str.Lines.Walk.{lines}
use dragonsunited_minecraft.Str.Text.Replace.{substituted}
use dragonsunited_minecraft.Str.Text.Search.{is_prefix}
use dragonsunited_minecraft.Str.Text.{c_text, str_replace_text}

abbrev regular_file : Bytes → File
regular_file b = record { kind = Kind.regular; size = length b; read = λ n. some b }

-- Looks a path up in a list of files.
abbrev open_in : List (Bytes × Bytes) → Bytes → Option File
open_in [] p = none
open_in ((q, b) ∷ fs) p =
    let rest = open_in fs p in if bytes_eq q p then some (regular_file b) else rest

abbrev old_files : Bytes
old_files = text ".\n./a.jar\n./b.jar\n"

abbrev new_files : Bytes
new_files = text ".\n./b.jar\n./c.jar\n"

abbrev changes : Bytes
changes = text "@1\n+config/x\n"

abbrev server : Files
server = record {
  open_file = open_in (
      (text "/DATA/VERSION/pack", text "2\n")
      ∷ (text "/DATA/LISTFILE/pack/1", old_files)
      ∷ (text "/DATA/LISTFILE/pack/2", new_files)
      ∷ (text "/DATA/CHANGE/pack", changes)
      ∷ []);
  stat = λ p. if bytes_eq p (text "/pack/mods/./c.jar") then some Kind.regular else none;
}

latest_two : mcu_get_latest_version server (text "pack") ≡ ok (true, text "2")
unfolding mcu_get_latest_version str_fileread str_replace_text c_text bytes_eq
latest_two = refl

reads_old : str_fileread server (listfile (text "pack") (text "1")) 100000 ≡ ok (some old_files)
unfolding str_fileread listfile c_text bytes_eq
reads_old = refl

reads_new : str_fileread server (listfile (text "pack") (text "2")) 100000 ≡ ok (some new_files)
unfolding str_fileread listfile c_text bytes_eq
reads_new = refl

reads_changes :
    str_fileread server (c_text (text "/DATA/CHANGE/" ++ text "pack")) 100000 ≡ ok (some changes)
unfolding str_fileread c_text bytes_eq
reads_changes = refl

create_update_instructions-outcome_of_example :
    mcu_create_update_instructions server [] (text "pack") (text "1")
    ≡ outcome_of
        (lines_behind (lines changes) (b'@' ∷ text "1"))
        (base_instructions server (text "pack") old_files new_files)
create_update_instructions-outcome_of_example =
    create_update_instructions-outcome_of server [] (text "pack") (text "1") (text "2") old_files
      new_files changes (omega arith) latest_two reads_old reads_new reads_changes

base_two :
    base_instructions server (text "pack") old_files new_files ≡ text "-umods/a.jar\n+fmods/c.jar\n"
unfolding base_instructions reported unreported lines substituted has_line bytes_eq instruction
    c_text is_prefix
base_two = refl

differences-reported_example :
    differences server (text "pack") old_files new_files
    ≡ ok (
        substituted
          (text "./")
          (text "-umods/")
          0
          (Written itself (reported (lines new_files) (lines old_files)))
        ++ Written
            (instruction server (text "pack"))
            (reported (lines old_files) (lines new_files)))
differences-reported_example =
    differences-reported server (text "pack") old_files new_files (omega arith) (omega arith)

longer_name_hit :
    change_add (with_newlines (two_lines b'-' (text "umods/a") b'b')) (text "umods/a")
    ≡ ok (with_newlines (two_lines b'*' (text "umods/a") b'b'))
longer_name_hit =
    change_add_hits_longer (text "umods/a") b'b' (omega arith) (omega arith) (omega arith)
      (omega arith) (omega arith)

-- The server without the manual list.
abbrev no_changes : Files
no_changes = record server {
  open_file = open_in (
      (text "/DATA/VERSION/pack", text "2\n")
      ∷ (text "/DATA/LISTFILE/pack/1", old_files)
      ∷ (text "/DATA/LISTFILE/pack/2", new_files)
      ∷ []);
}

no_changes-Missing :
    Missing no_changes []
      (text "pack")
      (text "1")
      (listfile_error, base_instructions no_changes (text "pack") old_files new_files)
unfolding mcu_get_latest_version str_fileread str_replace_text c_text bytes_eq listfile
no_changes-Missing = manual_list (text "2") old_files new_files refl refl refl refl

create_update_instructions-Missing_example :
    mcu_create_update_instructions no_changes [] (text "pack") (text "1")
    ≡ ok (listfile_error, base_instructions no_changes (text "pack") old_files new_files)
create_update_instructions-Missing_example =
    create_update_instructions-Missing no_changes [] (text "pack") (text "1") _ no_changes-Missing
