-- ===== src/Str/Text.antt =====
-- str.c over the bytes that its strings hold: comparison, search, splitting, substitution, lines.
-- A `struct mystr` is the list of its bytes, which Str/Buffer.antt justifies, and a `const char*`
-- is the list of the bytes before its NUL. Lengths are those of valid strings, below INT_MAX, so
-- that a sum of two does not wrap, and texts are those whose length `vsf_sysutil_strlen` returns.
pub mod Compare
pub mod Search
pub mod Replace
pub mod Split
pub mod Clean
mod Tests
use Prim.Native.Nat.{compare, Ordering}
use dragonsunited_minecraft.Base.{
  ℕ, zero, suc, ◌+◌, ◌-◌, ◌*◌, ◌%◌, ◌^◌, Bool, true, false, not, ◌&&◌, ◌||◌, List, [], ◌∷◌, ◌++◌,
  map, ltb, leb, ◌==◌, if◌then◌else◌, length, take, drop, get_or, replicate, bytes_eq, Bytes,
}
use dragonsunited_minecraft.Run.{Run, ok, stop, bug, out_of_fuel, ◌>>=◌, ◌>>◌, bug_if}
use dragonsunited_minecraft.Sysutil.{vsf_sysutil_isspace, vsf_sysutil_isprint, vsf_sysutil_toupper}

-- The text that a buffer's pointer is read as, up to the first NUL.
unfoldable pub c_text : Bytes → Bytes
c_text [] = []
c_text (c ∷ cs) = let rest = c_text cs in if c == 0 then [] else c ∷ rest

unfoldable pub str_isempty : Bytes → Bool
str_isempty s = length s == 0

-- `vsf_sysutil_memcmp(a, b, n) == 0`
abbrev pub same_bytes : Bytes → Bytes → ℕ → Bool
same_bytes a b n = bytes_eq (take n a) (take n b)

abbrev pub is_eq : Ordering → Bool
is_eq Ordering.eq = true
is_eq _ = false

-- The sign of the C library's `memcmp` on two blocks of one size.
unfoldable pub memcmp : Bytes → Bytes → Ordering
memcmp (x ∷ xs) (y ∷ ys) =
    let rest = memcmp xs ys in
    elim (compare x y) [
      | Ordering.lt ↦ Ordering.lt
      | Ordering.eq ↦ rest
      | Ordering.gt ↦ Ordering.gt
    ]
memcmp _ _ = Ordering.eq

-- The sign of `(int) (len1 - len2)`, on 32 bits.
unfoldable pub int_sign : ℕ → ℕ → Ordering
int_sign len1 len2 =
    let d = (len1 + 2 ^ 32 - len2) % 2 ^ 32 in
    if d == 0 then Ordering.eq else if ltb d (2 ^ 31) then Ordering.gt else Ordering.lt

-- The sign of the number that the function returns.
unfoldable pub str_equal_internal : Bytes → Bytes → Ordering
unfolding memcmp int_sign
str_equal_internal a b =
    let minlen = if ltb (length b) (length a) then length b else length a in
    let retval = memcmp (take minlen a) (take minlen b) in
    if not (is_eq retval) || length a == length b then retval else int_sign (length a) (length b)

unfoldable pub str_strcmp : Bytes → Bytes → Ordering
unfolding str_equal_internal
str_strcmp a b = str_equal_internal a b

unfoldable pub str_equal : Bytes → Bytes → Bool
unfolding str_strcmp
str_equal a b = is_eq (str_strcmp a b)

unfoldable pub str_equal_text : Bytes → Bytes → Bool
unfolding str_equal_internal
str_equal_text s t = is_eq (str_equal_internal s t)

pub record LocateResult : Type 0 where
  pub found : Bool
  pub index : ℕ
  pub char_found : ℕ

abbrev pub not_found : LocateResult
not_found = record { found = false; index = 0; char_found = 0 }

abbrev pub found_at : ℕ → LocateResult
found_at i = record { found = true; index = i; char_found = 0 }

-- The loop of `str_locate_text` with the rounds that are left.
locate_loop : ℕ → ℕ → Bytes → Bytes → LocateResult
locate_loop zero i s t = not_found
locate_loop (suc r) i s t =
    let rest = locate_loop r (suc i) s t in
    if same_bytes (drop i s) t (length t) then found_at i else rest

unfoldable pub str_locate_text : Bytes → Bytes → LocateResult
unfolding locate_loop
str_locate_text s t =
    if length t == 0 || ltb (length s) (length t)
    then not_found
    else locate_loop (length s - length t + 1) 0 s t

-- The loop of `str_locate_text_reverse`, down to the start.
locate_back : ℕ → Bytes → Bytes → LocateResult
locate_back zero s t = if same_bytes s t (length t) then found_at 0 else not_found
locate_back (suc i) s t =
    let rest = locate_back i s t in
    if same_bytes (drop (suc i) s) t (length t) then found_at (suc i) else rest

unfoldable pub str_locate_text_reverse : Bytes → Bytes → LocateResult
unfolding locate_back
str_locate_text_reverse s t =
    if length t == 0 || ltb (length s) (length t)
    then not_found
    else locate_back (length s - length t) s t

unfoldable pub str_locate_str : Bytes → Bytes → LocateResult
unfolding str_locate_text c_text
str_locate_str s look = str_locate_text s (c_text look)

-- A text of one character, which is empty for NUL.
unfoldable pub str_locate_char : Bytes → ℕ → LocateResult
unfolding str_locate_text c_text
str_locate_char s c = str_locate_text s (c_text (c ∷ []))

-- The inner loop of `str_locate_chars`.
has_char : Bytes → ℕ → Bool
has_char [] c = false
has_char (x ∷ xs) c = x == c || has_char xs c

locate_chars_loop : ℕ → Bytes → Bytes → LocateResult
locate_chars_loop i [] chars = not_found
locate_chars_loop i (c ∷ cs) chars =
    let rest = locate_chars_loop (suc i) cs chars in
    if has_char chars c then record { found = true; index = i; char_found = c } else rest

unfoldable pub str_locate_chars : Bytes → Bytes → LocateResult
unfolding has_char locate_chars_loop
str_locate_chars s chars = locate_chars_loop 0 s chars

split_at : LocateResult → ℕ → Bytes → Run (Bytes × Bytes)
split_at r search_len s = if not r.found then ok (s, []) else (do
  bug_if (ltb (length s) (r.index + search_len))
  ok (take r.index s, drop (r.index + search_len) s))

-- The source's new value and the right side.
unfoldable pub str_split_text_common : Bytes → Bytes → Bool → Run (Bytes × Bytes)
unfolding split_at str_locate_text str_locate_text_reverse
str_split_text_common s t is_reverse =
    split_at (if is_reverse then str_locate_text_reverse s t else str_locate_text s t) (length t) s

unfoldable pub str_split_text : Bytes → Bytes → Run (Bytes × Bytes)
unfolding str_split_text_common
str_split_text s t = str_split_text_common s t false

unfoldable pub str_split_char : Bytes → ℕ → Run (Bytes × Bytes)
unfolding str_split_text c_text
str_split_char s c = str_split_text s (c_text (c ∷ []))

-- The loop of `str_replace_text` with the destination so far.
pub replace_loop : ℕ → Bytes → Bytes → Bytes → Bytes → Run Bytes
replace_loop zero lhs from to out = stop out_of_fuel
replace_loop (suc f) lhs from to out = do
  (l, r) ← str_split_text lhs from
  let out' = if ltb (length l) (length lhs) then (out ++ l) ++ to else out ++ l
  let rest = replace_loop f r from to out'
  if str_isempty r then ok out' else rest

-- Each round but the last takes a byte at least, so the length is fuel enough.
unfoldable pub str_replace_text : Bytes → Bytes → Bytes → Run Bytes
unfolding replace_loop str_split_text str_isempty
str_replace_text s from to = replace_loop (suc (length s)) s from to []
