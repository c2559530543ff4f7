-- ===== src/Str/Buffer.antt =====
-- str.c below its interface: `struct mystr` with its buffer, and the functions that allocate and
-- write it. A buffer is the list of the bytes of its block, and NULL is `none`. `malloc` and
-- `realloc` are the C library's, and so a parameter; the guards of sysutil.c around them are here.
-- A source that the code passes as a pointer is the list of the bytes that lie from there on; no
-- caller passes a pointer into the string that is written.
pub mod Memory
pub mod Refine
mod Tests
pub mod Alloc
use dragonsunited_minecraft.Base.{
  ℕ, ◌+◌, ◌-◌, ◌%◌, ◌^◌, ◌≤◌, min, Bool, not, ◌||◌, List, [], ◌++◌, Option, none, some, ◌≡◌, ltb,
  leb, ◌==◌, if◌then◌else◌, length, take, drop, set, Bytes,
}
use dragonsunited_minecraft.Run.{Run, ok, stop, bug, die, overrun, ◌>>=◌, ◌>>◌, bug_if, access}

abbrev pub int_max : ℕ
int_max = 2147483647

abbrev pub uint_mod : ℕ
uint_mod = 2 ^ 32

pub record Mystr : Type 0 where
  pub p_buf : Option Bytes
  pub len : ℕ
  pub alloc_bytes : ℕ

-- `INIT_MYSTR`
abbrev pub init_mystr : Mystr
init_mystr = record { p_buf = none; len = 0; alloc_bytes = 0 }

-- What the code relies on of the C library: a block has the size asked for, and `realloc` keeps
-- the bytes that fit. The other bytes of a block are arbitrary.
pub record Libc : Type 0 where
  pub malloc : ℕ → Option Bytes
  pub realloc : Bytes → ℕ → Option Bytes
  pub length-malloc : (n : ℕ) (b : Bytes) → malloc n ≡ some b → length b ≡ n
  pub length-realloc : (old : Bytes) (n : ℕ) (b : Bytes) → realloc old n ≡ some b → length b ≡ n
  pub take-realloc :
      (old : Bytes) (n k : ℕ) (b : Bytes)
      → realloc old n ≡ some b
      → k ≤ n
      → k ≤ length old
      → take k b ≡ take k old

module _ (libc : Libc) where
  pub vsf_sysutil_malloc : ℕ → Run Bytes
  vsf_sysutil_malloc size =
      if size == 0 || ltb int_max size
      then stop bug
      else elim (libc.malloc size) [ none ↦ stop die | some b ↦ ok b ]

  -- `realloc` of NULL is `malloc`
  resized : Option Bytes → ℕ → Option Bytes
  resized none size = libc.malloc size
  resized (some old) size = libc.realloc old size

  pub vsf_sysutil_realloc : Option Bytes → ℕ → Run Bytes
  unfolding resized
  vsf_sysutil_realloc p size =
      if size == 0 || ltb int_max size
      then stop bug
      else elim (resized p size) [ none ↦ stop die | some b ↦ ok b ]

-- The bytes of `src` over those of `b` from `off` on.
abbrev pub write_at : Bytes → ℕ → Bytes → Bytes
write_at b off src = take off b ++ (src ++ drop (off + length src) b)

-- the bytes that a string's pointer leads to
abbrev pub block : Option Bytes → Bytes
block none = []
block (some b) = b

copy_into : Option Bytes → ℕ → Bytes → ℕ → Run (Option Bytes)
copy_into none off src size = stop overrun
copy_into (some b) off src size = do
  access (leb size (length src))
  access (leb (off + size) (length b))
  ok (some (write_at b off (take size src)))

-- `vsf_sysutil_memcpy(p + off, src, size)`
pub vsf_sysutil_memcpy : Option Bytes → ℕ → Bytes → ℕ → Run (Option Bytes)
unfolding copy_into
vsf_sysutil_memcpy p off src size =
    if size == 0 then ok p else if ltb int_max size then stop die else copy_into p off src size

-- `p[i] = c`
pub put_byte : Option Bytes → ℕ → ℕ → Run (Option Bytes)
put_byte none i c = stop overrun
put_byte (some b) i c = do access (ltb i (length b)); ok (some (set b i c))

pub s_setbuf : Mystr → Bytes → Run Mystr
s_setbuf s newbuf = elim s.p_buf [
  | none ↦ ok (record s { p_buf = some newbuf })
  | some _ ↦ stop bug
]

-- `vsf_sysutil_free` of the buffer, where there is one, leaves nothing to model
pub str_free : Mystr → Mystr
str_free s = init_mystr

-- The copy, the terminator and the length, with which both private functions end.
pub fill : Mystr → ℕ → Bytes → ℕ → Run Mystr
fill s off src len = do
  p ← vsf_sysutil_memcpy s.p_buf off src len
  q ← put_byte p (off + len) 0
  ok (record s { p_buf = q; len = off + len })

module _ (libc : Libc) where
  pub fresh : Mystr → ℕ → Run Mystr
  fresh s buf_needed = do
    b ← vsf_sysutil_malloc libc buf_needed
    t ← s_setbuf (str_free s) b
    ok (record t { alloc_bytes = buf_needed })

  pub grown : Mystr → ℕ → Run Mystr
  grown s buf_needed = do
    b ← vsf_sysutil_realloc libc s.p_buf buf_needed
    ok (record s { p_buf = some b; alloc_bytes = buf_needed })

  pub private_str_alloc_memchunk : Mystr → Bytes → ℕ → Run Mystr
  unfolding fresh fill
  private_str_alloc_memchunk s src len = do
    let buf_needed = (len + 1) % uint_mod
    t ← (if ltb s.alloc_bytes buf_needed then fresh s buf_needed else ok s)
    fill t 0 src len

  pub private_str_append_memchunk : Mystr → Bytes → ℕ → Run Mystr
  unfolding grown fill
  private_str_append_memchunk s src len = do
    let buf_needed = (s.len + len + 1) % uint_mod
    t ← (if ltb s.alloc_bytes buf_needed then grown s buf_needed else ok s)
    fill t s.len src len

  -- the string with a buffer, which `str_getbuf` makes sure of
  pub str_getbuf : Mystr → Run Mystr
  str_getbuf s = elim s.p_buf [
    | some _ ↦ ok s
    | none ↦ do
      bug_if (not (s.len == 0) || not (s.alloc_bytes == 0))
      private_str_alloc_memchunk s [] 0
  ]

  pub str_trunc : Mystr → ℕ → Run Mystr
  str_trunc s trunc_len = do
    bug_if (leb s.alloc_bytes trunc_len)
    q ← put_byte s.p_buf trunc_len 0
    ok (record s { p_buf = q; len = trunc_len })

  pub str_empty : Mystr → Run Mystr
  str_empty s = do t ← str_getbuf s; str_trunc t 0

  pub str_reserve : Mystr → ℕ → Run Mystr
  unfolding grown
  str_reserve s n = do
    let res_len = (n + 1) % uint_mod
    t ← (if ltb s.alloc_bytes res_len then grown s res_len else ok s)
    q ← put_byte t.p_buf ((res_len + uint_mod - 1) % uint_mod) 0
    ok (record t { p_buf = q })

  pub str_copy : Mystr → Mystr → Run Mystr
  str_copy dest src = private_str_alloc_memchunk dest (block src.p_buf) src.len

  pub str_append_str : Mystr → Mystr → Run Mystr
  str_append_str s other = private_str_append_memchunk s (block other.p_buf) other.len

  pub str_append_char : Mystr → ℕ → Run Mystr
  str_append_char s c = private_str_append_memchunk s (List.◌∷◌ c []) 1
