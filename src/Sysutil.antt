-- ===== src/Sysutil.antt =====
-- sysutil.c: characters and numbers in text, over the C library's classes in the locale "C".
pub mod Numbers
use dragonsunited_minecraft.Base.{ℕ, Bool, ◌&&◌, ◌||◌, false, ◌-◌, leb, ◌==◌, if◌then◌else◌}

abbrev within : ℕ → ℕ → ℕ → Bool
within lo hi c = leb lo c && leb c hi

unfoldable pub vsf_sysutil_isspace : ℕ → Bool
vsf_sysutil_isspace c = c == b' ' || within 9 13 c

unfoldable pub vsf_sysutil_toupper : ℕ → ℕ
vsf_sysutil_toupper c = if within b'a' b'z' c then c - 32 else c

unfoldable pub vsf_sysutil_isdigit : ℕ → Bool
vsf_sysutil_isdigit c = within b'0' b'9' c

-- The extra tests come before the C library's.
unfoldable pub vsf_sysutil_isprint : ℕ → Bool
vsf_sysutil_isprint c =
    if leb c 31
    then false
    else if c == 177
    then false
    else if leb 128 c && leb c 159
    then false
    else within 32 126 c

unfoldable pub vsf_sysutil_isalnum : ℕ → Bool
vsf_sysutil_isalnum c = within b'0' b'9' c || (within b'A' b'Z' c || within b'a' b'z' c)
