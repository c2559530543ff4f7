-- ===== src/Str/Text/Clean.antt =====
-- Strings without NUL, which the pointer of their buffer shows whole.
use dragonsunited_minecraft.Base.{
  ℕ, zero, suc, ◌+◌, ◌<◌, true, [], ◌∷◌, ◌++◌, ◌≡◌, inl, inr, refl, arith, ◌==◌, length, take, drop,
  Bytes, Bool-cases,
}
use dragonsunited_minecraft.Str.Text.{c_text, locate_chars_loop, str_locate_chars}
use dragonsunited_minecraft.Str.Text.Split.{before, after}

abbrev pub Clean : Bytes → Type 0
Clean [] = Unit {0}
Clean (x ∷ s) = (0 < x) × Clean s

pub c_text-Clean : (s : Bytes) → Clean (c_text s)
unfolding c_text
c_text-Clean [] = tt
c_text-Clean (x ∷ s) = elim (Bool-cases (x == 0)) [
  | inl e ↦ rw e tt
  | inr e ↦ rw e (ground arith, c_text-Clean s)
]

pub Clean-c_text : (s : Bytes) → Clean s → c_text s ≡ s
unfolding c_text
Clean-c_text [] h = refl
Clean-c_text (x ∷ s) (p, h) = ground (arith, Clean-c_text s h)

pub Clean-append : (s t : Bytes) → Clean s → Clean t → Clean (s ++ t)
Clean-append [] t h k = k
Clean-append (x ∷ s) t (p, h) k = (p, Clean-append s t h k)

pub Clean-take : (n : ℕ) (s : Bytes) → Clean s → Clean (take n s)
Clean-take zero s h = tt
Clean-take (suc n) [] h = tt
Clean-take (suc n) (x ∷ s) (p, h) = (p, Clean-take n s h)

pub Clean-drop : (n : ℕ) (s : Bytes) → Clean s → Clean (drop n s)
Clean-drop zero s h = h
Clean-drop (suc n) [] h = tt
Clean-drop (suc n) (x ∷ s) (p, h) = Clean-drop n s h

pub Clean-before : (c : ℕ) (s : Bytes) → Clean s → Clean (before c s)
unfolding before
Clean-before c [] h = tt
Clean-before c (x ∷ s) (p, h) = elim (Bool-cases (x == c)) [
  | inl e ↦ rw e tt
  | inr e ↦ rw e (p, Clean-before c s h)
]

pub Clean-after : (c : ℕ) (s : Bytes) → Clean s → Clean (after c s)
unfolding after
Clean-after c [] h = tt
Clean-after c (x ∷ s) (p, h) = elim (Bool-cases (x == c)) [
  | inl e ↦ rw e h
  | inr e ↦ rw e (Clean-after c s h)
]

-- Where `str_locate_chars` finds something, it is inside the string.
locate_chars_loop-bound :
    (i : ℕ) (s chars : Bytes)
    → (locate_chars_loop i s chars).found ≡ true
    → (locate_chars_loop i s chars).index < i + length s
unfolding locate_chars_loop
locate_chars_loop-bound i [] chars h = cc
locate_chars_loop-bound i (c ∷ s) chars h = ground (arith, locate_chars_loop-bound (suc i) s chars)

pub locate_chars-bound :
    (s chars : Bytes)
    → (str_locate_chars s chars).found ≡ true
    → (str_locate_chars s chars).index < length s
unfolding str_locate_chars
locate_chars-bound s chars h = omega (arith, locate_chars_loop-bound 0 s chars h)
