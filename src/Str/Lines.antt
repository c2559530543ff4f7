-- ===== src/Str/Lines.antt =====
-- str.c: `str_getline` and `str_contains_line`, the loops over the lines of a string.
pub mod Walk
pub mod Contains
pub mod Join
mod Tests
use dragonsunited_minecraft.Base.{
  ℕ, zero, suc, ◌+◌, ◌-◌, Bool, true, false, not, ◌&&◌, List, [], ◌∷◌, ltb, ◌==◌, if◌then◌else◌,
  length, take, drop, get_or, Bytes,
}
use dragonsunited_minecraft.Run.{Run, ok, stop, out_of_fuel, ◌>>=◌, ◌>>◌, bug_if}
use dragonsunited_minecraft.Str.Text.{str_equal}

abbrev pub newline : ℕ
newline = b'\n'

-- The scan for the end of the line, with the bytes that are left from `curr` on.
unfoldable pub line_end : ℕ → Bytes → ℕ → ℕ
line_end zero s curr = curr
line_end (suc r) s curr =
    let next = line_end r s (suc curr) in
    if ltb curr (length s) && not (get_or s curr 0 == newline) then next else curr

pub record Line : Type 0 where
  pub result : Bool
  pub line_str : Bytes
  pub pos : ℕ

-- The line that stands at `pos`: `line_str` is empty and `pos` stays where there is none.
unfoldable pub str_getline : Bytes → ℕ → Run Line
unfolding line_end
str_getline s pos = do
  bug_if (ltb (length s) pos)
  let curr = line_end (length s - pos) s pos
  let out_len = curr - pos
  let after = if ltb curr (length s) && get_or s curr 0 == newline then curr + 1 else curr
  if pos == length s
      then ok (record { result = false; line_str = []; pos = pos })
      else ok (record { result = true; line_str = take out_len (drop pos s); pos = after })

-- The loop of `str_contains_line`; each round passes a byte at least.
unfoldable pub contains_loop : ℕ → Bytes → Bytes → ℕ → Run Bool
contains_loop zero s line pos = stop out_of_fuel
contains_loop (suc f) s line pos = do
  l ← str_getline s pos
  let rest = contains_loop f s line l.pos
  if not l.result then ok false else if str_equal l.line_str line then ok true else rest

unfoldable pub str_contains_line : Bytes → Bytes → Run Bool
unfolding contains_loop
str_contains_line s line = contains_loop (suc (length s)) s line 0
