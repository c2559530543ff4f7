-- ===== src/Str/Text/Compare.antt =====
-- `str_strcmp` and the equality that it decides.
use Prim.Native.Nat.{compare, Ordering}
use dragonsunited_minecraft.Base.{
  ℕ, zero, suc, ◌<◌, ◌^◌, true, not, ◌||◌, [], ◌∷◌, ◌≡◌, ◌↔◌, refl, arith, ltb, ◌==◌, if◌then◌else◌,
  length, take, Bytes, min, bytes_eq, bytes_eq_iff,
}
use dragonsunited_minecraft.Str.Text.{
  is_eq, memcmp, int_sign, str_equal_internal, str_strcmp, str_equal, str_equal_text,
}

memcmp-eq : (a b : Bytes) → length a ≡ length b → memcmp a b ≡ Ordering.eq → a ≡ b
unfolding memcmp
memcmp-eq [] [] e h = refl
memcmp-eq [] (y ∷ b) e h = absurd (omega arith)
memcmp-eq (x ∷ a) [] e h = absurd (omega arith)
memcmp-eq (x ∷ a) (y ∷ b) e h = ground (arith, memcmp-eq a b)

memcmp_refl : (a : Bytes) → memcmp a a ≡ Ordering.eq
unfolding memcmp
memcmp_refl [] = refl
memcmp_refl (x ∷ a) = ground (arith, memcmp_refl a)

abbrev pub limit : ℕ
limit = 2 ^ 31

-- Two lengths of valid strings are equal where their difference has no sign.
int_sign-eq : (m n : ℕ) → m < limit → n < limit → int_sign m n ≡ Ordering.eq → m ≡ n
unfolding int_sign
int_sign-eq m n h k e = ground arith

-- A three-way comparison of byte sequences in dictionary order, where a proper prefix is less.
unfoldable pub dictionary : Bytes → Bytes → Ordering
dictionary [] [] = Ordering.eq
dictionary [] (y ∷ b) = Ordering.lt
dictionary (x ∷ a) [] = Ordering.gt
dictionary (x ∷ a) (y ∷ b) =
    let rest = dictionary a b in
    elim (compare x y) [
      | Ordering.lt ↦ Ordering.lt
      | Ordering.eq ↦ rest
      | Ordering.gt ↦ Ordering.gt
    ]

-- The comparison of the common prefix, and of the lengths where that is equal.
by_prefix : Ordering → ℕ → ℕ → Ordering
by_prefix r m n = if not (is_eq r) || m == n then r else int_sign m n

by_prefix-suc :
    (r : Ordering) (m n : ℕ)
    → suc m < limit
    → suc n < limit
    → by_prefix r (suc m) (suc n) ≡ by_prefix r m n
unfolding by_prefix int_sign
by_prefix-suc r m n h k = ground arith

by_prefix-lt : (m n : ℕ) → by_prefix Ordering.lt m n ≡ Ordering.lt
unfolding by_prefix
by_prefix-lt m n = refl

by_prefix-gt : (m n : ℕ) → by_prefix Ordering.gt m n ≡ Ordering.gt
unfolding by_prefix
by_prefix-gt m n = refl

-- The common prefix decides a comparison that runs to the end of the shorter one.
memcmp-take :
    (n : ℕ) (a b : Bytes)
    → n ≡ min (length a) (length b)
    → memcmp (take n a) (take n b) ≡ memcmp a b
unfolding memcmp
memcmp-take zero [] [] e = refl
memcmp-take zero [] (y ∷ b) e = refl
memcmp-take zero (x ∷ a) [] e = refl
memcmp-take zero (x ∷ a) (y ∷ b) e = absurd (omega arith)
memcmp-take (suc n) [] b e = absurd (omega arith)
memcmp-take (suc n) (x ∷ a) [] e = absurd (omega arith)
memcmp-take (suc n) (x ∷ a) (y ∷ b) e = ground (arith, memcmp-take n a b (omega arith))

by_prefix-dictionary :
    (a b : Bytes)
    → length a < limit
    → length b < limit
    → by_prefix (memcmp a b) (length a) (length b) ≡ dictionary a b
unfolding memcmp dictionary
by_prefix-dictionary [] [] h k = unfold by_prefix in refl
by_prefix-dictionary [] (y ∷ b) h k = unfold by_prefix int_sign in ground arith
by_prefix-dictionary (x ∷ a) [] h k = unfold by_prefix int_sign in ground arith
by_prefix-dictionary (x ∷ a) (y ∷ b) h k = ground (
  arith,
  by_prefix-dictionary a b (omega arith) (omega arith),
  by_prefix-suc (memcmp a b) (length a) (length b) h k,
  by_prefix-lt (suc (length a)) (suc (length b)),
  by_prefix-gt (suc (length a)) (suc (length b)),
)

-- `str_strcmp` is the dictionary order on unsigned bytes, for all strings of valid length.
pub str_strcmp-dictionary :
    (a b : Bytes) → length a < limit → length b < limit → str_strcmp a b ≡ dictionary a b
unfolding str_strcmp str_equal_internal
str_strcmp-dictionary a b h k =
    let m = if ltb (length b) (length a) then length b else length a in
    rw (memcmp-take m a b (ground arith)) (unfold by_prefix in by_prefix-dictionary a b h k)

pub dictionary-eq : (a b : Bytes) → (dictionary a b ≡ Ordering.eq) ↔ (a ≡ b)
unfolding dictionary
dictionary-eq [] [] = ground arith
dictionary-eq [] (y ∷ b) = ground arith
dictionary-eq (x ∷ a) [] = ground arith
dictionary-eq (x ∷ a) (y ∷ b) = ground (arith, dictionary-eq a b)

-- `str_equal` holds of the same bytes and of no others.
pub str_equal_iff :
    (a b : Bytes) → length a < limit → length b < limit → (str_equal a b ≡ true) ↔ (a ≡ b)
unfolding str_equal
str_equal_iff a b h k = rw (str_strcmp-dictionary a b h k) (ground (arith, dictionary-eq a b))

pub str_equal-bytes_eq :
    (a b : Bytes) → length a < limit → length b < limit → str_equal a b ≡ bytes_eq a b
str_equal-bytes_eq a b h k = ground (arith, str_equal_iff a b h k, bytes_eq_iff a b)

pub str_equal_text-bytes_eq :
    (a b : Bytes) → length a < limit → length b < limit → str_equal_text a b ≡ bytes_eq a b
unfolding str_equal_text
str_equal_text-bytes_eq a b h k = unfold str_equal str_strcmp in str_equal-bytes_eq a b h k
