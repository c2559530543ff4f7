-- ===== src/Str/Cut/Tests.antt =====
-- Runs of the functions over characters, and the theorems at these inputs.
use dragonsunited_minecraft.Base.{
  true, false, ◌++◌, none, some, ◌≡◌, refl, arith, length, replicate, text, [], ◌-◌,
}
use dragonsunited_minecraft.Run.{ok, ◌>>=◌}
use dragonsunited_minecraft.Str.Cut.{
  str_left, str_mid_to_end, str_lpad, str_rpad, str_contains_unprintable, str_replace_unprintable,
  str_strdup_trimmed,
}
use dragonsunited_minecraft.Str.Cut.Laws.{
  left-mid_to_end, pads-replicate, replace_unprintable-contains,
}
use dragonsunited_minecraft.Sysutil.{vsf_sysutil_isprint, vsf_sysutil_isspace}

left_and_rest :
    (do a ← str_left (text "VERS 1") 4; b ← str_mid_to_end (text "VERS 1") 4; ok (a ++ b))
    ≡ ok (text "VERS 1")
left_and_rest = left-mid_to_end (text "VERS 1") 4 (omega arith)

pads_to_four :
    (str_lpad (text "ab") 4 ≡ replicate (4 - 2) b' ' ++ text "ab")
    × (str_rpad (text "ab") 4 ≡ text "ab" ++ replicate (4 - 2) b' ')
pads_to_four = pads-replicate (text "ab") 4

question_mark : vsf_sysutil_isprint b'?' ≡ true
unfolding vsf_sysutil_isprint
question_mark = refl

bell_replaced :
    (str_contains_unprintable (str_replace_unprintable (text "a\tb") b'?') ≡ false)
    × (length (str_replace_unprintable (text "a\tb") b'?') ≡ length (text "a\tb"))
bell_replaced = replace_unprintable-contains (text "a\tb") b'?' question_mark

trimmed : str_strdup_trimmed (text "  a b ") ≡ some (text "a b")
unfolding str_strdup_trimmed vsf_sysutil_isspace
trimmed = refl

-- Only the empty string gives NULL: the length of one of spaces is negative, and not 0.
all_spaces : str_strdup_trimmed (text "  ") ≡ some []
unfolding str_strdup_trimmed vsf_sysutil_isspace
all_spaces = refl

empty_is_null : str_strdup_trimmed [] ≡ none
unfolding str_strdup_trimmed
empty_is_null = refl
