-- ===== src/Str/Buffer/Refine.antt =====
-- The buffer functions of str.c against plain byte sequences.
use native.Mathlib.Decide.{dec_lt}
use dragonsunited_minecraft.Base.{
  ℕ, ◌+◌, ◌%◌, ◌≤◌, ◌<◌, [], ◌++◌, Option, none, some, ◌≡◌, ◌⊎◌, inl, inr, ◌∙◌, arith, ltb, length,
  take, Bytes, Bool-cases, ltb→le, ltb→lt,
}
use dragonsunited_minecraft.Run.{Run, ◌>>=◌}
use dragonsunited_minecraft.Str.Buffer.Alloc.{
  Holds, IsValid, view, Outcome, fill_dies, fill_ok, malloc_big, realloc_big, fresh_lem, grown_lem,
}
use dragonsunited_minecraft.Str.Buffer.{
  Mystr, int_max, uint_mod, Libc, block, fill, fresh, grown, private_str_alloc_memchunk,
  private_str_append_memchunk,
}

len-le-block : (p : Option Bytes) (len alloc : ℕ) → Holds p len alloc → len ≤ length (block p)
len-le-block none len alloc v = omega arith
len-le-block (some b) len alloc v = omega arith

len-le-int_max :
    (p : Option Bytes) (len alloc : ℕ) → Holds p len alloc → (len < int_max) × (alloc ≤ int_max)
len-le-int_max none len alloc v = omega arith
len-le-int_max (some b) len alloc v = omega arith

-- A copy that is too long is refused before memory is touched.
fill-too_long :
    (c : Libc) (s : Mystr) (off : ℕ) (src : Bytes) (len n : ℕ) (P : Mystr → Type 0)
    → int_max < len
    → int_max < n
    → Outcome c n P (fill s off src len)
fill-too_long c s off src len n P h k = rw (fill_dies s off src len h) (inl k)

-- The string that a source of `len` bytes from `off` on leaves, after the bytes `front`.
abbrev Leaves : Bytes → Bytes → ℕ → Mystr → Type 0
Leaves front src len t = IsValid t × (view t ≡ front ++ take len src)

module _ (c : Libc) (s : Mystr) (src : Bytes) (len m : ℕ) (long : len ≤ length src) where
  fresh_step : ℕ → Run Mystr
  fresh_step n = do t ← fresh c s n; fill t 0 src len

  fresh_step-big :
      (n : ℕ) → int_max < n → int_max < m → Outcome c m (Leaves [] src len) (fresh_step n)
  unfolding fresh_step fresh
  fresh_step-big n h k = rw (malloc_big c n h) (inl k)

  fresh_step-fits : len + 1 ≤ int_max → Outcome c m (Leaves [] src len) (fresh_step (len + 1))
  unfolding fresh_step
  fresh_step-fits h = elim (fresh_lem c s (len + 1) (omega arith) h) [
    | inl (e, x) ↦ rw e (inr x)
    | inr (b, size, e) ↦
        let (t, f, valid, seen) = fill_ok b 0 (len + 1) 0 src len size (omega arith) h long in
        rw (e, f) (valid, seen)
  ]

  -- The buffer at hand is long enough.
  reuse :
      (p : Option Bytes) (old alloc : ℕ)
      → Holds p old alloc
      → len + 1 ≤ alloc
      → Outcome c m
          (Leaves [] src len)
          (fill (record { p_buf = p; len = old; alloc_bytes = alloc }) 0 src len)
  reuse none old alloc v h = absurd (omega arith)
  reuse (some b) old alloc v h =
      let (t, f, valid, seen) = fill_ok b old alloc 0 src len v.0 (omega arith) v.2 long in
      rw f (valid, seen)

-- `private_str_alloc_memchunk` leaves exactly the first `len` bytes of the source in a valid
-- string, for every valid string and every unsigned `len` that the source covers; it stops only
-- where `len + 1` is above INT_MAX or memory is exhausted, and never writes outside a block.
pub alloc_memchunk-Outcome :
    (c : Libc) (s : Mystr) (src : Bytes) (len : ℕ)
    → IsValid s
    → len ≤ length src
    → len < uint_mod
    → Outcome c
        (len + 1)
        (λ t. IsValid t × (view t ≡ take len src))
        (private_str_alloc_memchunk c s src len)
unfolding private_str_alloc_memchunk fresh_step
alloc_memchunk-Outcome c s src len v long h =
    let n = (len + 1) % uint_mod in
    elim (Bool-cases (ltb s.alloc_bytes n)) [
      | inl e ↦
          let lt : s.alloc_bytes < n = ltb→lt _ _ e in
          let whole : n ≡ len + 1 = omega arith in
          rw e (elim (dec_lt int_max (len + 1)) [
            | yes k ↦ fresh_step-big c s src len (len + 1) long n (omega arith) k
            | no k ↦ rw whole (fresh_step-fits c s src len (len + 1) long (omega arith))
          ])
      | inr e ↦
          let le : n ≤ s.alloc_bytes = ltb→le _ _ e in
          rw e (elim (dec_lt int_max len) [
            | yes k ↦ fill-too_long c s 0 src len (len + 1) _ k (omega arith)
            | no k ↦ reuse c s src len (len + 1) long s.p_buf s.len s.alloc_bytes v (omega arith)
          ])
    ]

module _ (c : Libc) (src : Bytes) (len m : ℕ) (long : len ≤ length src) where
  extend :
      (p : Option Bytes) (old alloc : ℕ)
      → Holds p old alloc
      → old + len + 1 ≤ alloc
      → Outcome c m
          (Leaves (take old (block p)) src len)
          (fill (record { p_buf = p; len = old; alloc_bytes = alloc }) old src len)
  extend none old alloc v h = absurd (omega arith)
  extend (some b) old alloc v h =
      let (t, f, valid, seen) = fill_ok b old alloc old src len v.0 (omega arith) v.2 long in
      rw f (valid, seen)

  grown_step : Mystr → ℕ → Run Mystr
  grown_step s n = do t ← grown c s n; fill t s.len src len

  grown_step-big :
      (s : Mystr) (n : ℕ)
      → int_max < n
      → int_max < m
      → Outcome c m (Leaves (view s) src len) (grown_step s n)
  unfolding grown_step grown
  grown_step-big s n h k = rw (realloc_big c s.p_buf n h) (inl k)

  -- The realloc succeeds or memory is exhausted; then the source follows what was there. With a
  -- source above INT_MAX the copy is refused.
  grown_step-Outcome :
      (s : Mystr) (n : ℕ)
      → IsValid s
      → 0 < n
      → n ≤ int_max
      → (n ≡ s.len + len + 1) ⊎ ((int_max < len) × (int_max < m))
      → Outcome c m (Leaves (view s) src len) (grown_step s n)
  unfolding grown_step
  grown_step-Outcome s n v pos small why = elim (grown_lem c s n pos small) [
    | inl (e, x) ↦ rw e (inr x)
    | inr (b, e, size, keeps) ↦ rw e (elim why [
      | inr (k, k') ↦ fill-too_long c _ s.len src len m _ k k'
      | inl whole ↦
          let (t, f, valid, seen) = fill_ok b s.len n s.len src len size (omega arith) small long in
          rw f (
            valid,
            seen ∙ rw (keeps s.len (omega arith) (len-le-block s.p_buf s.len s.alloc_bytes v)),
          )
    ])
  ]

-- `private_str_append_memchunk` leaves the old bytes and the first `len` of the source, on the
-- same conditions; the sum of the lengths that wraps is no way around them.
pub append_memchunk-Outcome :
    (c : Libc) (s : Mystr) (src : Bytes) (len : ℕ)
    → IsValid s
    → len ≤ length src
    → len < uint_mod
    → Outcome c
        (s.len + len + 1)
        (λ t. IsValid t × (view t ≡ view s ++ take len src))
        (private_str_append_memchunk c s src len)
unfolding private_str_append_memchunk grown_step
append_memchunk-Outcome c s src len v long h =
    let n = (s.len + len + 1) % uint_mod in
    let bound = len-le-int_max s.p_buf s.len s.alloc_bytes v in
    elim (Bool-cases (ltb s.alloc_bytes n)) [
      | inl e ↦
          let lt : s.alloc_bytes < n = ltb→lt _ _ e in
          rw e (elim (dec_lt int_max n) [
            | yes k ↦ grown_step-big c src len (s.len + len + 1) long s n k (omega arith)
            | no k ↦
                grown_step-Outcome c src len (s.len + len + 1) long s n v (omega arith)
                  (omega arith)
                  (elim (dec_lt int_max len) [
                    | yes big ↦ inr (big, omega arith)
                    | no fits ↦ inl (omega arith)
                  ])
          ])
      | inr e ↦
          let le : n ≤ s.alloc_bytes = ltb→le _ _ e in
          rw e (elim (dec_lt int_max len) [
            | yes k ↦ fill-too_long c s s.len src len (s.len + len + 1) _ k (omega arith)
            | no k ↦
                extend c src len (s.len + len + 1) long s.p_buf s.len s.alloc_bytes v (omega arith)
          ])
    ]
