-- ===== src/Str/Buffer/Tests.antt =====
-- The buffer theorems over a C library that always has memory.
use dragonsunited_minecraft.Base.{
  ℕ, zero, suc, ◌+◌, ◌≤◌, [], ◌∷◌, ◌++◌, some, ◌≡◌, refl, arith, length, take, replicate,
  length-replicate, Bytes, text,
}
use dragonsunited_minecraft.Str.Buffer.Alloc.{IsValid, view, Outcome}
use dragonsunited_minecraft.Str.Buffer.Refine.{alloc_memchunk-Outcome, append_memchunk-Outcome}
use dragonsunited_minecraft.Str.Buffer.{
  Mystr, Libc, init_mystr, private_str_alloc_memchunk, private_str_append_memchunk,
}

-- The old bytes that fit, and zeros.
abbrev moved : Bytes → ℕ → Bytes
moved old zero = []
moved [] (suc n) = 0 ∷ moved [] n
moved (x ∷ old) (suc n) = x ∷ moved old n

length-moved : (old : Bytes) (n : ℕ) → length (moved old n) ≡ n
length-moved old zero = refl
length-moved [] (suc n) = omega (arith, length-moved [] n)
length-moved (x ∷ old) (suc n) = omega (arith, length-moved old n)

take-moved : (old : Bytes) (n k : ℕ) → k ≤ n → k ≤ length old → take k (moved old n) ≡ take k old
take-moved old n zero h m = refl
take-moved old zero (suc k) h m = absurd (omega arith)
take-moved [] (suc n) (suc k) h m = absurd (omega arith)
take-moved (x ∷ old) (suc n) (suc k) h m = rw (take-moved old n k (omega arith) (omega arith))

length-zeros : (n : ℕ) (b : Bytes) → some (replicate n 0) ≡ some b → length b ≡ n
length-zeros n b e = ground (arith, length-replicate {0} n (let z : ℕ = 0 in z))

moved_size : (old : Bytes) (n : ℕ) (b : Bytes) → some (moved old n) ≡ some b → length b ≡ n
moved_size old n b e = ground (arith, length-moved old n)

moved_keeps :
    (old : Bytes) (n k : ℕ) (b : Bytes)
    → some (moved old n) ≡ some b
    → k ≤ n
    → k ≤ length old
    → take k b ≡ take k old
moved_keeps old n k b e h m = ground (arith, take-moved old n k h m)

abbrev plenty : Libc
plenty = record {
  malloc = λ n. some (replicate n 0);
  realloc = λ old n. some (moved old n);
  length-malloc = length-zeros;
  length-realloc = moved_size;
  take-realloc = moved_keeps;
}

allocated_word :
    Outcome plenty
      (2 + 1)
      (λ t. IsValid t × (view t ≡ take 2 (text "abc")))
      (private_str_alloc_memchunk plenty init_mystr (text "abc") 2)
allocated_word =
    alloc_memchunk-Outcome plenty init_mystr (text "abc") 2 (omega arith) (omega arith)
      (omega arith)

abbrev stored : Mystr
stored = record { p_buf = some (b'x' ∷ 0 ∷ []); len = 1; alloc_bytes = 2 }

append_memchunk-Outcome_example :
    Outcome plenty
      (1 + 3 + 1)
      (λ t. IsValid t × (view t ≡ view stored ++ take 3 (text "abc")))
      (private_str_append_memchunk plenty stored (text "abc") 3)
append_memchunk-Outcome_example =
    append_memchunk-Outcome plenty stored (text "abc") 3 (omega arith) (omega arith) (omega arith)
