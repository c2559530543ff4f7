-- ===== src/Str/Lines/Tests.antt =====
-- Runs over the lines of a text, and the theorems at these inputs.
use dragonsunited_minecraft.Base.{true, [], ◌∷◌, ◌≡◌, refl, arith, Bytes, List, text}
use dragonsunited_minecraft.Run.{ok}
use dragonsunited_minecraft.Str.Lines.Contains.{has_line, str_contains_line-has_line}
use dragonsunited_minecraft.Str.Lines.Join.{with_newlines, lines-with_newlines}
use dragonsunited_minecraft.Str.Lines.Walk.{lines, Reads, getline-Reads}
use dragonsunited_minecraft.Str.Lines.{str_getline, str_contains_line}

getline-Reads_example : Reads (text "ab\ncd") 3 (text "cd")
getline-Reads_example = getline-Reads (text "ab\ncd") 3 b'c' (text "d") refl

getline_first :
    str_getline (text "ab\ncd") 0 ≡ ok (record { result = true; line_str = text "ab"; pos = 3 })
unfolding str_getline
getline_first = refl

str_contains_line-has_line_example :
    str_contains_line (text "ab\ncd\n") (text "cd")
    ≡ ok (has_line (lines (text "ab\ncd\n")) (text "cd"))
str_contains_line-has_line_example =
    str_contains_line-has_line (text "ab\ncd\n") (text "cd") (omega arith) (omega arith)

abbrev two : List Bytes
two = text "ab" ∷ text "" ∷ []

lines-with_newlines_example : lines (with_newlines two) ≡ two
lines-with_newlines_example = lines-with_newlines two (omega arith)
