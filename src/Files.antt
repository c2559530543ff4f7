-- ===== src/Files.antt =====
-- filestr.c: reading a file into a string, over what the operating system shows of its files.
use dragonsunited_minecraft.Base.{
  ℕ, Bool, true, false, not, [], Option, none, some, ltb, ◌==◌, if◌then◌else◌, length, Bytes,
}
use dragonsunited_minecraft.Run.{Run, ok, stop, die}

pub data Kind : Type 0 where
  regular directory symlink other : Kind

unfoldable pub is_regfile : Kind → Bool
is_regfile regular = true
is_regfile _ = false

unfoldable pub is_dir : Kind → Bool
is_dir directory = true
is_dir _ = false

-- An open file: what `fstat` says, and what a read of so many bytes yields.
pub record File : Type 0 where
  pub kind : Kind
  pub size : ℕ
  pub read : ℕ → Option Bytes

-- The operating system's files: `open` and `stat` of a path, `none` where they fail.
pub record Files : Type 0 where
  pub open_file : Bytes → Option File
  pub stat : Bytes → Option Kind

read_whole : File → ℕ → Run (Option Bytes)
read_whole f size = elim (f.read size) [
  | none ↦ ok none
  | some b ↦ if not (length b == size) then stop die else ok (some b)
]

-- `none` for a negative result; the string is empty then.
unfoldable pub str_fileread : Files → Bytes → ℕ → Run (Option Bytes)
unfolding read_whole is_regfile
str_fileread fs name maxsize = elim (fs.open_file name) [
  | none ↦ ok none
  | some f ↦
      if is_regfile f.kind
      then read_whole f (if ltb maxsize f.size then maxsize else f.size)
      else ok (some [])
]
