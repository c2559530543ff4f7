-- ===== src/Str/Cut.antt =====
-- str.c over bytes: pieces of a string, padding, and the functions that go over each character.
mod Laws
mod Tests
use dragonsunited_minecraft.Base.{
  ℕ, zero, suc, ◌+◌, ◌-◌, ◌%◌, ◌^◌, Bool, true, false, List, [], ◌∷◌, ◌++◌, Option, none, some, map,
  ltb, leb, ◌==◌, if◌then◌else◌, length, take, drop, get_or, Bytes,
}
use dragonsunited_minecraft.Run.{Run, ok, stop, overrun, ◌>>=◌, ◌>>◌, bug_if}
use dragonsunited_minecraft.Str.Text.{c_text}
use dragonsunited_minecraft.Sysutil.{vsf_sysutil_isspace, vsf_sysutil_isprint, vsf_sysutil_toupper}

unfoldable pub str_left : Bytes → ℕ → Run Bytes
str_left s chars = do bug_if (ltb (length s) chars); ok (take chars s)

-- The offset wraps where the guard fails, and is not used then.
unfoldable pub str_right : Bytes → ℕ → Run Bytes
str_right s chars = do
  let indexx = length s - chars
  bug_if (ltb (length s) chars)
  ok (take chars (drop indexx s))

unfoldable pub str_mid_to_end : Bytes → ℕ → Run Bytes
str_mid_to_end s indexx = do
  bug_if (ltb (length s) indexx)
  ok (take (length s - indexx) (drop indexx s))

unfoldable pub str_get_char_at : Bytes → ℕ → Run ℕ
str_get_char_at s indexx = do bug_if (leb (length s) indexx); ok (get_or s indexx 0)

-- The bytes before the terminator; without one the code reads on behind the block.
unfoldable pub str_alloc_alt_term : Bytes → ℕ → Run Bytes
str_alloc_alt_term [] term = stop overrun
str_alloc_alt_term (c ∷ cs) term =
    let rest = str_alloc_alt_term cs term in if c == term then ok [] else (do r ← rest; ok (c ∷ r))

-- The first loop of `str_strdup_trimmed`: how many characters are space.
unfoldable pub leading : Bytes → ℕ
leading [] = 0
leading (c ∷ cs) = let rest = leading cs in if vsf_sysutil_isspace c then suc rest else 0

-- The second loop, whose counter is one more than `t`.
unfoldable pub behind_last : ℕ → Bytes → ℕ
behind_last zero s = 0
behind_last (suc t) s =
    let rest = behind_last t s in if vsf_sysutil_isspace (get_or s t 0) then rest else suc t

-- `strndup` copies up to a NUL; NULL is `none`.
unfoldable pub str_strdup_trimmed : Bytes → Option Bytes
unfolding leading behind_last c_text
str_strdup_trimmed s =
    let h = leading s in
    let newlen = (behind_last (length s) s + 2 ^ 32 - h) % 2 ^ 32 in
    if newlen == 0 then none else some (take newlen (c_text (drop h s)))

unfoldable pub str_upper : Bytes → Bytes
str_upper s = map vsf_sysutil_toupper s

unfoldable pub pad_loop : ℕ → Bytes → Bytes
pad_loop zero s = s
pad_loop (suc to_pad) s = pad_loop to_pad (s ++ b' ' ∷ [])

unfoldable pub str_rpad : Bytes → ℕ → Bytes
unfolding pad_loop
str_rpad s min_width = if leb min_width (length s) then s else pad_loop (min_width - length s) s

unfoldable pub str_lpad : Bytes → ℕ → Bytes
unfolding pad_loop
str_lpad s min_width =
    if leb min_width (length s) then s else pad_loop (min_width - length s) [] ++ s

unfoldable pub str_replace_char : Bytes → ℕ → ℕ → Bytes
str_replace_char s from to = map (λ c. if c == from then to else c) s

unfoldable pub str_contains_space : Bytes → Bool
str_contains_space [] = false
str_contains_space (c ∷ cs) =
    let rest = str_contains_space cs in if vsf_sysutil_isspace c then true else rest

unfoldable pub str_all_space : Bytes → Bool
str_all_space [] = true
str_all_space (c ∷ cs) =
    let rest = str_all_space cs in if vsf_sysutil_isspace c then rest else false

unfoldable pub str_contains_unprintable : Bytes → Bool
str_contains_unprintable [] = false
str_contains_unprintable (c ∷ cs) =
    let rest = str_contains_unprintable cs in if vsf_sysutil_isprint c then rest else true

unfoldable pub str_replace_unprintable : Bytes → ℕ → Bytes
str_replace_unprintable s new_char = map (λ c. if vsf_sysutil_isprint c then c else new_char) s
