-- ===== src/Mcupdate.antt =====
-- mcupdate.c: the instructions that bring a client's modpack from one version to the latest.
-- The static strings are all written before they are read in each call, so none is state.
pub mod Diff
pub mod Pass
pub mod Manual
pub mod Create
pub mod Errors
pub mod Changes
mod Tests
use dragonsunited_minecraft.Base.{
  ℕ, zero, suc, ◌+◌, Bool, true, false, not, ◌&&◌, ◌||◌, List, [], ◌∷◌, ◌++◌, Option, none, some,
  ◌==◌, if◌then◌else◌, length, Bytes, text,
}
use dragonsunited_minecraft.Files.{Kind, is_regfile, is_dir, Files, str_fileread}
use dragonsunited_minecraft.Run.{Run, ok, stop, out_of_fuel, ◌>>=◌, ◌>>◌}
use dragonsunited_minecraft.Str.Lines.{newline, str_getline, str_contains_line}
use dragonsunited_minecraft.Str.Text.{
  c_text, str_isempty, str_equal, str_equal_text, str_replace_text,
}

-- What `str_fileread` leaves in the string.
abbrev pub contents : Option Bytes → Bytes
contents none = []
contents (some b) = b

abbrev pub opened : Option Bytes → Bool
opened none = false
opened (some b) = true

pub mcu_get_latest_version : Files → Bytes → Run (Bool × Bytes)
mcu_get_latest_version fs modpack = do
  r ← str_fileread fs (c_text (text "/DATA/VERSION/" ++ modpack)) 40
  version ← str_replace_text (contents r) (text "\n") []
  ok (opened r, version)

-- The lines that neither pass reports: the directory itself, the empty line, and what both have.
unfoldable pub skipped : Bytes → Bytes → Run Bool
skipped list file =
    if str_equal_text file (text ".") || str_isempty file
    then ok true
    else str_contains_line list file

-- One line of the old list that the new one lacks.
pub removal : Bytes → Bytes → Bytes → Run Bytes
removal list2 instr file = do
  b ← skipped list2 file
  ok (if b then instr else instr ++ (file ++ newline ∷ []))

-- The first `do`-`while`; each round but the last passes a byte of the list.
pub removal_loop : ℕ → Bytes → Bytes → ℕ → Bytes → Run Bytes
removal_loop zero list1 list2 pos instr = stop out_of_fuel
removal_loop (suc f) list1 list2 pos instr = do
  l ← str_getline list1 pos
  instr' ← removal list2 instr l.line_str
  let rest = removal_loop f list1 list2 l.pos instr'
  if l.result then rest else ok instr'

-- The mark for what a new path is.
pub addition_mark : Kind → Bytes
addition_mark k =
    if is_regfile k then text "+fmods/" else if is_dir k then text "+dmods/" else text "+umods/"

-- The line for a path of the new list, from `str_stat` of the file in the modpack.
pub addition_line : Option Kind → Bytes → Bytes → Run Bytes
addition_line none file2 file = ok (text "# unstatable file: " ++ file2)
addition_line (some k) file2 file = str_replace_text file (text "./") (addition_mark k)

pub described : Files → Bytes → Bytes → Run Bytes
unfolding addition_line addition_mark
described fs modpack file =
    let file2 = ((text "/" ++ modpack) ++ text "/mods/") ++ file in
    addition_line (fs.stat (c_text file2)) file2 file

pub addition : Files → Bytes → Bytes → Bytes → Bytes → Run Bytes
addition fs modpack list1 instr file = do
  b ← skipped list1 file
  let added = do line ← described fs modpack file; ok (instr ++ (line ++ newline ∷ []))
  if b then ok instr else added

-- The second `do`-`while`.
pub addition_loop : ℕ → Files → Bytes → Bytes → Bytes → ℕ → Bytes → Run Bytes
addition_loop zero fs modpack list1 list2 pos instr = stop out_of_fuel
addition_loop (suc f) fs modpack list1 list2 pos instr = do
  l ← str_getline list2 pos
  instr' ← addition fs modpack list1 instr l.line_str
  let rest = addition_loop f fs modpack list1 list2 l.pos instr'
  if l.result then rest else ok instr'

-- The search for the line of the version; `none` at the end of the list.
pub version_loop : ℕ → Bytes → Bytes → ℕ → Run (Option ℕ)
version_loop zero list version_line pos = stop out_of_fuel
version_loop (suc f) list version_line pos = do
  l ← str_getline list pos
  let rest = version_loop f list version_line l.pos
  if not l.result
      then ok none
      else if str_equal l.line_str version_line
      then ok (some l.pos)
      else rest

-- `case '+'`, with the name behind the mark.
unfoldable pub change_add : Bytes → Bytes → Run Bytes
change_add instr name = do
  let filep = b'+' ∷ name
  let filem = b'-' ∷ name
  let filea = b'*' ∷ name
  m ← str_contains_line instr filem
  p ← str_contains_line instr filep
  a ← str_contains_line instr filea
  if m
      then str_replace_text instr (c_text filem) (c_text filea)
      else if not p && not a
      then ok (instr ++ (filep ++ newline ∷ []))
      else ok instr

-- `case '-'`
unfoldable pub change_remove : Bytes → Bytes → Run Bytes
change_remove instr name = do
  let filep = b'+' ∷ name
  let filem = b'-' ∷ name
  let filea = b'*' ∷ name
  p ← str_contains_line instr filep
  a ← str_contains_line instr filea
  m ← str_contains_line instr filem
  let both = do
    once ← str_replace_text instr (c_text (filep ++ newline ∷ [])) []
    str_replace_text once (c_text (filea ++ newline ∷ [])) []
  if p || a then both else if not m then ok (instr ++ (filem ++ newline ∷ [])) else ok instr

-- `case '*'`
unfoldable pub change_update : Bytes → Bytes → Run Bytes
change_update instr name = do
  let filep = b'+' ∷ name
  let filem = b'-' ∷ name
  let filea = b'*' ∷ name
  m ← str_contains_line instr filem
  p ← str_contains_line instr filep
  a ← str_contains_line instr filea
  if m
      then str_replace_text instr (c_text filem) (c_text filea)
      else if p
      then str_replace_text instr (c_text filep) (c_text filea)
      else if not a
      then ok (instr ++ (filea ++ newline ∷ []))
      else ok instr

-- One line of the manual list; a line that is empty or has another mark changes nothing.
unfoldable pub change : Bytes → Bytes → Run Bytes
unfolding change_add change_remove change_update
change instr [] = ok instr
change instr (c ∷ name) =
    if c == b'+'
    then change_add instr name
    else if c == b'-'
    then change_remove instr name
    else if c == b'*'
    then change_update instr name
    else ok instr

pub change_loop : ℕ → Bytes → ℕ → Bytes → Run Bytes
change_loop zero list pos instr = stop out_of_fuel
change_loop (suc f) list pos instr = do
  l ← str_getline list pos
  let rest = change instr l.line_str >>= change_loop f list l.pos
  if not l.result then ok instr else rest

-- The numbers that `mcu_create_update_instructions` returns.
pub data Status : Type 0 where
  -- 0
  done : Status
  -- 1, 2 and -1
  no_modpack no_version listfile_error : Status

-- From the two lists on: the differences.
pub differences : Files → Bytes → Bytes → Bytes → Run Bytes
unfolding removal_loop addition_loop removal addition skipped described
differences fs modpack list1 list2 = do
  removed ← removal_loop (suc (length list1)) list1 list2 0 []
  marked ← str_replace_text removed (text "./") (text "-umods/")
  addition_loop (suc (length list2)) fs modpack list1 list2 0 marked

manual : Bytes → Bytes → Bytes → Run (Status × Bytes)
manual list version instr = do
  found ← version_loop (suc (length list)) list (b'@' ∷ version) 0
  elim found [
    | none ↦ ok (listfile_error, instr)
    | some pos ↦ do instr' ← change_loop (suc (length list)) list pos instr; ok (done, instr')
  ]

-- The manual list is read when the differences stand in `instr`.
with_changes : Files → Bytes → Bytes → Bytes → Run (Status × Bytes)
with_changes fs modpack version instr = do
  r ← str_fileread fs (c_text (text "/DATA/CHANGE/" ++ modpack)) 100000
  elim r [ none ↦ ok (listfile_error, instr) | some list ↦ manual list version instr ]

unfoldable pub listfile : Bytes → Bytes → Bytes
listfile modpack version = c_text (((text "/DATA/LISTFILE/" ++ modpack) ++ text "/") ++ version)

with_lists : Files → Bytes → Bytes → Bytes → Bytes → Bytes → Run (Status × Bytes)
with_lists fs modpack version latest list1 instr = do
  r ← str_fileread fs (listfile modpack latest) 100000
  elim r [
    | none ↦ ok (listfile_error, instr)
    | some list2 ↦ do
      diff ← differences fs modpack list1 list2
      with_changes fs modpack version diff
  ]

old_list : Files → Bytes → Bytes → Bytes → Bytes → Run (Status × Bytes)
old_list fs instr modpack version latest = do
  r ← str_fileread fs (listfile modpack version) 100000
  elim r [
    | none ↦ ok (no_version, instr)
    | some list1 ↦ with_lists fs modpack version latest list1 instr
  ]

-- The status, and what is in `instr` then: what was there before, where a list is missing.
pub mcu_create_update_instructions : Files → Bytes → Bytes → Bytes → Run (Status × Bytes)
mcu_create_update_instructions fs instr modpack version = do
  (known, latest) ← mcu_get_latest_version fs modpack
  if not known then ok (no_modpack, instr) else old_list fs instr modpack version latest
