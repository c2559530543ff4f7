-- ===== src/Str/Buffer/Alloc.antt =====
-- What a valid string is, the bytes it stands for, and the steps of allocation and copying from
-- which the functions of str.c are made.
use dragonsunited_minecraft.Base.{
  ℕ, zero, suc, ◌+◌, ◌≤◌, ◌<◌, false, [], ◌++◌, Option, none, some, ◌≡◌, ◌⊎◌, inl, inr, refl, ◌∙◌,
  arith, ◌==◌, if◌then◌else◌, length, take, set, get_or, length-set, length-take, Bytes, Bool-cases,
  Option-cases, le→ltb, lt→ltb, le→leb, ==_iff, append-nil,
}
use native.Mathlib.Nat.{add-zero}
use dragonsunited_minecraft.Run.{Run, ok, stop, bug, die, overrun, undefined, out_of_fuel}
use dragonsunited_minecraft.Str.Buffer.Memory.{length-write_at, take-write_at, take-set, get_or-set}
use dragonsunited_minecraft.Str.Buffer.{
  Mystr, int_max, Libc, block, write_at, vsf_sysutil_memcpy, put_byte, fill, fresh, grown,
  vsf_sysutil_malloc, vsf_sysutil_realloc, resized, s_setbuf, str_free,
}

-- A null pointer goes with no length; a buffer has room for the bytes and their terminator.
abbrev pub Holds : Option Bytes → ℕ → ℕ → Type 0
Holds none len alloc = (len ≡ 0) × (alloc ≡ 0)
Holds (some b) len alloc =
    (length b ≡ alloc) × (len < alloc) × (alloc ≤ int_max) × (get_or b len 1 ≡ 0)

abbrev pub IsValid : Mystr → Type 0
IsValid s = Holds s.p_buf s.len s.alloc_bytes

-- The bytes that a string stands for.
abbrev pub view : Mystr → Bytes
view s = take s.len (block s.p_buf)

-- The C library had no memory for a request that sysutil.c lets through.
pub data Exhausted (c : Libc) : Type 0 where
  no_malloc : (n : ℕ) → n ≤ int_max → c.malloc n ≡ none → Exhausted c
  no_realloc : (old : Bytes) (n : ℕ) → n ≤ int_max → c.realloc old n ≡ none → Exhausted c

-- A result is as `P` says; the process stops only where `n` bytes are too many or memory is
-- exhausted, and no access leaves its block.
abbrev pub Outcome : Libc → ℕ → (Mystr → Type 0) → Run Mystr → Type 0
Outcome c n P (ok s) = P s
Outcome c n P (stop bug) = (int_max < n) ⊎ Exhausted c
Outcome c n P (stop die) = (int_max < n) ⊎ Exhausted c
Outcome c n P (stop overrun) = ⊥
Outcome c n P (stop undefined) = ⊥
Outcome c n P (stop out_of_fuel) = ⊥

take_zero : (k : ℕ) (b : Bytes) → k ≤ 0 → take k b ≡ take k []
take_zero zero b h = refl
take_zero (suc k) b h = absurd (omega arith)

-- What a copy leaves in a buffer with room for it.
written : Bytes → ℕ → Bytes → ℕ → Bytes
written b off src len = if len == 0 then b else write_at b off (take len src)

memcpy_ok :
    (b : Bytes) (off : ℕ) (src : Bytes) (len : ℕ)
    → off + len ≤ length b
    → len ≤ int_max
    → len ≤ length src
    → vsf_sysutil_memcpy (some b) off src len ≡ ok (some (written b off src len))
unfolding vsf_sysutil_memcpy written
memcpy_ok b off src len fits small long = elim (Bool-cases (len == 0)) [
  | inl e ↦ rw e
  | inr e ↦ rw (
    e,
    le→ltb int_max len small,
    le→leb len (length src) long,
    le→leb (off + len) (length b) fits,
  )
]

length-taken : (len : ℕ) (src : Bytes) → len ≤ length src → length (take len src) ≡ len
length-taken len src h = omega (arith, length-take {0} len src)

length-written :
    (b : Bytes) (off : ℕ) (src : Bytes) (len : ℕ)
    → off + len ≤ length b
    → len ≤ length src
    → length (written b off src len) ≡ length b
unfolding written
length-written b off src len fits long = elim (Bool-cases (len == 0)) [
  | inl e ↦ rw e
  | inr e ↦ rw e (length-write_at b off len (take len src) (length-taken len src long) fits)
]

take-written :
    (b : Bytes) (off : ℕ) (src : Bytes) (len : ℕ)
    → off + len ≤ length b
    → len ≤ length src
    → take (off + len) (written b off src len) ≡ take off b ++ take len src
unfolding written
take-written b off src len fits long = elim (Bool-cases (len == 0)) [
  | inl e ↦ let z : len ≡ 0 = (==_iff len 0).0 e in rw e (rw (z, add-zero, append-nil))
  | inr e ↦ rw e (take-write_at b off len (take len src) (length-taken len src long) fits)
]

pub fill_dies :
    (s : Mystr) (off : ℕ) (src : Bytes) (len : ℕ) → int_max < len → fill s off src len ≡ stop die
unfolding fill vsf_sysutil_memcpy
fill_dies s off src len h = let e : len == 0 ≡ false = ground arith in rw (e, lt→ltb int_max len h)

-- The end of both private functions, on a block with room for the bytes and the terminator.
pub fill_ok :
    (b : Bytes) (old alloc off : ℕ) (src : Bytes) (len : ℕ)
    → length b ≡ alloc
    → off + len < alloc
    → alloc ≤ int_max
    → len ≤ length src
    → (t : Mystr) × (fill (record { p_buf = some b; len = old; alloc_bytes = alloc }) off src len
        ≡ ok t)
      × IsValid t
      × (view t ≡ take off b ++ take len src)
unfolding fill put_byte
fill_ok b old alloc off src len size room small long =
    let w = written b off src len in
    let same = length-written b off src len (omega arith) long in
    let inside : off + len < length w = omega arith in
    let w' = set w (off + len) 0 in
    (
      record { p_buf = some w'; len = off + len; alloc_bytes = alloc },
      rw (
        memcpy_ok b off src len (omega arith) (omega arith) long,
        lt→ltb (off + len) (length w) inside,
      ),
      (
        omega (arith, length-set {0} w (off + len) 0),
        room,
        small,
        get_or-set w (off + len) 0 1 inside,
      ),
      take-set w (off + len) 0 ∙ take-written b off src len (omega arith) long,
    )

module _ (c : Libc) where
  pub malloc_big : (n : ℕ) → int_max < n → vsf_sysutil_malloc c n ≡ stop bug
  unfolding vsf_sysutil_malloc
  malloc_big n h = let e : n == 0 ≡ false = ground arith in rw (e, lt→ltb int_max n h)

  pub realloc_big : (p : Option Bytes) (n : ℕ) → int_max < n → vsf_sysutil_realloc c p n ≡ stop bug
  unfolding vsf_sysutil_realloc
  realloc_big p n h = let e : n == 0 ≡ false = ground arith in rw (e, lt→ltb int_max n h)

  pub fresh_lem :
      (s : Mystr) (n : ℕ)
      → 0 < n
      → n ≤ int_max
      → (fresh c s n ≡ stop die) × Exhausted c
        ⊎ ((b : Bytes) × (length b ≡ n)
            × (fresh c s n ≡ ok (record { p_buf = some b; len = 0; alloc_bytes = n })))
  unfolding fresh vsf_sysutil_malloc s_setbuf str_free
  fresh_lem s n pos h =
      let e : n == 0 ≡ false = ground arith in
      let f = le→ltb int_max n h in
      elim (Option-cases (c.malloc n)) [
        | inl m ↦ inl (rw (e, f, m), no_malloc n h m)
        | inr (b, m) ↦ inr (b, c.length-malloc n b m, rw (e, f, m))
      ]

  resized_lem :
      (p : Option Bytes) (n : ℕ)
      → n ≤ int_max
      → (resized c p n ≡ none) × Exhausted c
        ⊎ ((b : Bytes) × (resized c p n ≡ some b)
            × (length b ≡ n)
            × ((k : ℕ) → k ≤ n → k ≤ length (block p) → take k b ≡ take k (block p)))
  unfolding resized
  resized_lem none n h = elim (Option-cases (c.malloc n)) [
    | inl m ↦ inl (m, no_malloc n h m)
    | inr (b, m) ↦ inr (b, m, c.length-malloc n b m, λ k _ z. take_zero k b z)
  ]
  resized_lem (some old) n h = elim (Option-cases (c.realloc old n)) [
    | inl m ↦ inl (m, no_realloc old n h m)
    | inr (b, m) ↦
        inr (b, m, c.length-realloc old n b m, λ k le le'. c.take-realloc old n k b m le le')
  ]

  pub grown_lem :
      (s : Mystr) (n : ℕ)
      → 0 < n
      → n ≤ int_max
      → (grown c s n ≡ stop die) × Exhausted c
        ⊎ ((b : Bytes) × (grown c s n
              ≡ ok (record { p_buf = some b; len = s.len; alloc_bytes = n }))
            × (length b ≡ n)
            × ((k : ℕ) → k ≤ n → k ≤ length (block s.p_buf) → take k b ≡ take k (block s.p_buf)))
  unfolding grown vsf_sysutil_realloc
  grown_lem s n pos h =
      let e : n == 0 ≡ false = ground arith in
      let f = le→ltb int_max n h in
      elim (resized_lem s.p_buf n h) [
        | inl (m, x) ↦ inl (rw (e, f, m), x)
        | inr (b, m, size, keeps) ↦ inr (b, rw (e, f, m), size, keeps)
      ]
