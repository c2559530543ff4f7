-- ===== src/Sysutil/Numbers.antt =====
-- sysutil.c: numbers in text, over the bytes before the NUL.
use dragonsunited_minecraft.Base.{
  ℕ, zero, suc, ◌+◌, ◌-◌, ◌*◌, ◌%◌, ◌^◌, Bool, false, not, ◌||◌, [], ◌∷◌, ltb, ◌==◌, if◌then◌else◌,
  length, get_or, Bytes,
}

-- The loop of `vsf_sysutil_a_to_filesize_t`, from the last character to the first.
unfoldable pub filesize_loop : ℕ → Bytes → ℕ → ℕ → ℕ
filesize_loop zero s mult result = result
filesize_loop (suc i) s mult result =
    let c = get_or s i 0 in
    let rest = filesize_loop i s (mult * 10) (result + (c - b'0') * mult) in
    if ltb c b'0' || ltb b'9' c then 0 else rest

-- Fifteen digits are below 2^63, so nothing wraps.
unfoldable pub vsf_sysutil_a_to_filesize_t : Bytes → ℕ
unfolding filesize_loop
vsf_sysutil_a_to_filesize_t s = if ltb 15 (length s) then 0 else filesize_loop (length s) s 1 0

-- The loop of `vsf_sysutil_octal_to_uint`.
unfoldable pub octal_loop : Bytes → ℕ → Bool → ℕ
octal_loop [] result seen = result
octal_loop (c ∷ cs) result seen =
    let seen' = seen || not (c == b'0') in
    let next = if seen' then (result * 8 + (c - b'0')) % 2 ^ 32 else result in
    let rest = octal_loop cs next seen' in if ltb c b'0' || ltb b'7' c then result else rest

unfoldable pub vsf_sysutil_octal_to_uint : Bytes → ℕ
unfolding octal_loop
vsf_sysutil_octal_to_uint s = octal_loop s 0 false
