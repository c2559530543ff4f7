-- ===== src/Filter/Tests.antt =====
-- Runs of the filter.
use dragonsunited_minecraft.Base.{true, false, ◌≡◌, refl, arith, text, bytes_eq}
use dragonsunited_minecraft.Run.{ok}
use dragonsunited_minecraft.Str.Cut.{str_left, str_right, str_mid_to_end}
use dragonsunited_minecraft.Str.Text.{
  str_isempty, str_locate_chars, str_locate_str, str_locate_char, str_split_char,
}
use dragonsunited_minecraft.Filter.Ends.{Decides, passes_filter-Decides}
use dragonsunited_minecraft.Filter.{vsf_filename_passes_filter}

star : vsf_filename_passes_filter (text "mods.jar") (text "*.jar") 0 ≡ ok (true, 2)
unfolding vsf_filename_passes_filter str_isempty str_locate_chars str_left str_mid_to_end str_right
    str_locate_str bytes_eq str_locate_char str_split_char
star = refl

list_in_braces : vsf_filename_passes_filter (text "a.zip") (text "?.{jar,zip}") 0 ≡ ok (true, 4)
unfolding vsf_filename_passes_filter str_isempty str_locate_chars str_left str_mid_to_end str_right
    str_locate_str bytes_eq str_locate_char str_split_char
list_in_braces = refl

no_match : vsf_filename_passes_filter (text "ab") (text "?") 0 ≡ ok (false, 1)
unfolding vsf_filename_passes_filter str_isempty str_locate_chars str_left str_mid_to_end str_right
    str_locate_str bytes_eq str_locate_char str_split_char
no_match = refl

passes_filter-Decides_example :
    Decides 0 (vsf_filename_passes_filter (text "mods.jar") (text "*.jar") 0)
passes_filter-Decides_example =
    passes_filter-Decides (text "mods.jar") (text "*.jar") 0
      (omega arith, (omega arith, (omega arith, (omega arith, (omega arith, tt))))) (omega arith)
