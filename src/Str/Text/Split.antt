-- ===== src/Str/Text/Split.antt =====
-- `str_split_char` and `str_locate_char` at the first place of the character.
use dragonsunited_minecraft.Base.{
  ℕ, suc, ◌+◌, ◌≤◌, ◌<◌, Bool, true, false, [], ◌∷◌, Option, none, some, ◌≡◌, ◌≢◌, inl, inr, refl,
  ap, ◌∙◌, arith, ◌==◌, if◌then◌else◌, length, Bytes, Bool-cases, ==_iff, ◌++◌,
}
use dragonsunited_minecraft.Run.{ok}
use dragonsunited_minecraft.Str.Text.Replace.{sides, str_split_text-sides}
use dragonsunited_minecraft.Str.Text.Search.{
  is_prefix, first_match, located, str_locate_text-first_match,
}
use dragonsunited_minecraft.Str.Text.{c_text, str_isempty, str_locate_char, str_split_char}

-- What stands before the first `c`, and what stands behind it; nothing does where there is none.
unfoldable pub before : ℕ → Bytes → Bytes
before c [] = []
before c (x ∷ s) = let rest = before c s in if x == c then [] else x ∷ rest

unfoldable pub after : ℕ → Bytes → Bytes
after c [] = []
after c (x ∷ s) = let rest = after c s in if x == c then s else rest

unfoldable pub has : ℕ → Bytes → Bool
has c [] = false
has c (x ∷ s) = let rest = has c s in if x == c then true else rest

one_char : (c : ℕ) → 0 < c → c_text (c ∷ []) ≡ c ∷ []
unfolding c_text
one_char c h = ground arith

char-ne-nil : (c : ℕ) → c ∷ [] ≢ []
char-ne-nil c = λ e. cc

sides-later :
    (x : ℕ) (s : Bytes) (o : Option ℕ)
    → sides (elim o [ none ↦ none | some i ↦ some (suc i) ]) 1 (x ∷ s)
      ≡ (x ∷ (sides o 1 s).0, (sides o 1 s).1)
unfolding sides
sides-later x s none = refl
sides-later x s (some i) = rw (let e : suc i + 1 ≡ suc (i + 1) = omega arith in e)

sides-parts : (c : ℕ) (s : Bytes) → sides (first_match (c ∷ []) s) 1 s ≡ (before c s, after c s)
unfolding first_match is_prefix before after
sides-parts c [] = unfold sides in refl
sides-parts c (x ∷ s) = elim (Bool-cases (x == c)) [
  | inl e ↦ rw e (unfold sides in refl)
  | inr e ↦ rw e (sides-later x s (first_match (c ∷ []) s) ∙ rw (sides-parts c s))
]

-- For a character that is not NUL, `str_split_char` leaves what stands before its first place and
-- what stands behind it, and reaches no `bug`.
pub str_split_char-parts :
    (s : Bytes) (c : ℕ) → 0 < c → str_split_char s c ≡ ok (before c s, after c s)
unfolding str_split_char
str_split_char-parts s c h =
    rw (one_char c h) (str_split_text-sides s (c ∷ []) (char-ne-nil c) ∙ ap ok (sides-parts c s))

found-later :
    (o : Option ℕ)
    → (located (elim o [ none ↦ none | some i ↦ some (suc i) ])).found ≡ (located o).found
unfolding located
found-later none = refl
found-later (some i) = refl

found-has : (c : ℕ) (s : Bytes) → (located (first_match (c ∷ []) s)).found ≡ has c s
unfolding first_match is_prefix has
found-has c [] = unfold located in refl
found-has c (x ∷ s) = elim (Bool-cases (x == c)) [
  | inl e ↦ rw e (unfold located in refl)
  | inr e ↦ rw e (found-later (first_match (c ∷ []) s) ∙ found-has c s)
]

pub locate_char-has : (s : Bytes) (c : ℕ) → 0 < c → (str_locate_char s c).found ≡ has c s
unfolding str_locate_char
locate_char-has s c h =
    rw (one_char c h, str_locate_text-first_match s (c ∷ []) (char-ne-nil c)) (found-has c s)

pub length-before-after : (c : ℕ) (s : Bytes) → length (before c s) + length (after c s) ≤ length s
unfolding before after
length-before-after c [] = omega arith
length-before-after c (x ∷ s) = ground (arith, length-before-after c s)

-- The rest is shorter, unless there was nothing to split.
pub length-after : (c x : ℕ) (s : Bytes) → length (after c (x ∷ s)) ≤ length s
unfolding after
length-after c x s = ground (arith, length-before-after c s)

pub isempty_empty : str_isempty [] ≡ true
unfolding str_isempty
isempty_empty = refl

pub isempty-cons : (x : ℕ) (s : Bytes) → str_isempty (x ∷ s) ≡ false
unfolding str_isempty
isempty-cons x s = ground arith

-- The parts of a string with one separator in sight.
pub before-append : (c : ℕ) (a b : Bytes) → has c a ≡ false → before c (a ++ (c ∷ b)) ≡ a
unfolding has before
before-append c [] b h = let e : (c == c) ≡ true = (==_iff c c).1 refl in rw e
before-append c (x ∷ a) b h = elim (Bool-cases (x == c)) [
  | inl e ↦ absurd (ground arith)
  | inr e ↦ rw e (ap (◌∷◌ x) (before-append c a b (ground arith)))
]

pub after-append : (c : ℕ) (a b : Bytes) → has c a ≡ false → after c (a ++ (c ∷ b)) ≡ b
unfolding has after
after-append c [] b h = let e : (c == c) ≡ true = (==_iff c c).1 refl in rw e
after-append c (x ∷ a) b h = elim (Bool-cases (x == c)) [
  | inl e ↦ absurd (ground arith)
  | inr e ↦ rw e (after-append c a b (ground arith))
]
