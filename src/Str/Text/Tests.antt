-- ===== src/Str/Text/Tests.antt =====
-- Runs of str.c's searches, and the theorems at these inputs.
use dragonsunited_minecraft.Base.{
  ℕ, ◌+◌, ◌≤◌, ◌<◌, true, false, [], ◌≡◌, ◌≢◌, ◌↔◌, refl, arith, length, drop, text, bytes_eq,
}
use dragonsunited_minecraft.Run.{ok}
use dragonsunited_minecraft.Str.Text.Compare.{dictionary, str_strcmp-dictionary, str_equal_iff}
use dragonsunited_minecraft.Str.Text.Replace.{substituted, str_replace_text-substituted}
use dragonsunited_minecraft.Str.Text.Search.{is_prefix, str_locate_text-found}
use dragonsunited_minecraft.Str.Text.{
  str_strcmp, str_equal, str_locate_text, str_locate_text_reverse, found_at, str_split_char,
  str_replace_text,
}

ab-ne-nil : text "ab" ≢ []
ab-ne-nil = λ e. cc

str_strcmp-dictionary_example :
    str_strcmp (text "abc") (text "abd") ≡ dictionary (text "abc") (text "abd")
str_strcmp-dictionary_example =
    str_strcmp-dictionary (text "abc") (text "abd") (omega arith) (omega arith)

ab_and_abc : (str_equal (text "ab") (text "abc") ≡ true) ↔ (text "ab" ≡ text "abc")
ab_and_abc = str_equal_iff (text "ab") (text "abc") (omega arith) (omega arith)

found_two : str_locate_text (text "xxabab") (text "ab") ≡ found_at 2
unfolding str_locate_text bytes_eq
found_two = refl

found_last : str_locate_text_reverse (text "xxabab") (text "ab") ≡ found_at 4
unfolding str_locate_text_reverse bytes_eq
found_last = refl

split_at_equals : str_split_char (text "a=b=c") b'=' ≡ ok (text "a", text "b=c")
unfolding str_split_char bytes_eq
split_at_equals = refl

located_text :
    (2 + 2 ≤ length (text "xxabab"))
    × (is_prefix (text "ab") (drop 2 (text "xxabab")) ≡ true)
    × ((j : ℕ) → j < 2 → is_prefix (text "ab") (drop j (text "xxabab")) ≡ false)
located_text = str_locate_text-found (text "xxabab") (text "ab") 2 ab-ne-nil found_two

str_replace_text-substituted_example :
    str_replace_text (text "xxabab") (text "ab") (text "c")
    ≡ ok (substituted (text "ab") (text "c") 0 (text "xxabab"))
str_replace_text-substituted_example =
    str_replace_text-substituted (text "xxabab") (text "ab") (text "c") ab-ne-nil

substituted_twice : substituted (text "ab") (text "c") 0 (text "xxabab") ≡ text "xxcc"
unfolding substituted is_prefix
substituted_twice = refl
