-- ===== src/Str/Text/Replace.antt =====
-- `str_split_text` and `str_replace_text` against substitution from left to right.
use dragonsunited_minecraft.Base.{
  ℕ, zero, suc, ◌+◌, ◌-◌, ◌≤◌, ◌<◌, true, false, [], ◌∷◌, ◌++◌, Option, none, some, ◌≡◌, ◌≢◌, inl,
  inr, refl, sym, ap, ◌∙◌, arith, ◌==◌, if◌then◌else◌, length, take, drop, Bytes, Bool-cases,
  Option-cases, le→ltb, lt→ltb, length-take, length-drop, append-nil, append_assoc, drop-append_eq,
}
use dragonsunited_minecraft.Run.{ok}
use dragonsunited_minecraft.Str.Text.Search.{
  is_prefix, first_match, located, first_match-suc, str_locate_text-first_match, first_match-fits,
}
use dragonsunited_minecraft.Str.Text.{
  split_at, str_split_text, replace_loop, str_replace_text, str_isempty, str_split_text_common,
}

-- The places of `from`, the first from the left and then on behind it, hold `to` in its stead. The
-- number counts the bytes of a place that are still to be passed over.
unfoldable pub substituted : Bytes → Bytes → ℕ → Bytes → Bytes
substituted from to k [] = []
substituted from to (suc k) (x ∷ s) = substituted from to k s
substituted from to zero (x ∷ s) =
    let here = to ++ substituted from to (length from - 1) s in
    let later = x ∷ substituted from to zero s in if is_prefix from (x ∷ s) then here else later

substituted-drop :
    (from to : Bytes) (k : ℕ) (s : Bytes)
    → substituted from to k s ≡ substituted from to 0 (drop k s)
unfolding substituted
substituted-drop from to zero s = refl
substituted-drop from to (suc k) [] = refl
substituted-drop from to (suc k) (x ∷ s) = substituted-drop from to k s

substituted-none : (from to s : Bytes) → first_match from s ≡ none → substituted from to 0 s ≡ s
unfolding first_match substituted
substituted-none from to [] e = refl
substituted-none from to (x ∷ s) e = ground (arith, substituted-none from to s)

first_match-zero :
    (t : Bytes) (x : ℕ) (s : Bytes) → first_match t (x ∷ s) ≡ some 0 → is_prefix t (x ∷ s) ≡ true
unfolding first_match
first_match-zero t x s e = ground arith

substituted-some :
    (from to s : Bytes) (i n : ℕ)
    → from ≢ []
    → first_match from s ≡ some i
    → n ≡ i + length from
    → substituted from to 0 s ≡ take i s ++ (to ++ substituted from to 0 (drop n s))
unfolding substituted
substituted-some [] to s i n ne e h = absurd (ne refl)
substituted-some (y ∷ f) to [] i n ne e h = unfold first_match in cc
substituted-some (y ∷ f) to (x ∷ s) i zero ne e h = absurd (omega arith)
substituted-some (y ∷ f) to (x ∷ s) zero (suc n) ne e h =
    let m : suc (length f) - 1 ≡ n = omega arith in
    rw (first_match-zero (y ∷ f) x s e, m, substituted-drop (y ∷ f) to n s) refl
substituted-some (y ∷ f) to (x ∷ s) (suc i) (suc n) ne e h =
    let (p, e') = first_match-suc (y ∷ f) x s i e in
    rw p (ap (◌∷◌ x) (substituted-some (y ∷ f) to s i n ne e' (omega arith)))

-- What a split leaves on both sides.
unfoldable pub sides : Option ℕ → ℕ → Bytes → Bytes × Bytes
sides none n s = (s, [])
sides (some i) n s = (take i s, drop (i + n) s)

split_at-sides :
    (o : Option ℕ) (n : ℕ) (s : Bytes)
    → ((i : ℕ) → o ≡ some i → i + n ≤ length s)
    → split_at (located o) n s ≡ ok (sides o n s)
unfolding split_at located sides
split_at-sides none n s fits = refl
split_at-sides (some i) n s fits = rw (le→ltb (length s) (i + n) (fits i refl))

-- `str_split_text` cuts at the first place of the text and never reaches its `bug`.
pub str_split_text-sides :
    (s t : Bytes) → t ≢ [] → str_split_text s t ≡ ok (sides (first_match t s) (length t) s)
unfolding str_split_text str_split_text_common
str_split_text-sides s t ne =
    rw (str_locate_text-first_match s t ne)
      (split_at-sides (first_match t s) (length t) s (λ i e. first_match-fits t s i e))

-- One round of the loop, by whether there is a place.
replace_loop-none :
    (f : ℕ) (lhs from to out : Bytes)
    → from ≢ []
    → first_match from lhs ≡ none
    → replace_loop (suc f) lhs from to out ≡ ok (out ++ lhs)
unfolding replace_loop sides str_isempty
replace_loop-none f lhs from to out ne e =
    rw (str_split_text-sides lhs from ne)
      (rw e (rw (le→ltb (length lhs) (length lhs) (omega arith)) refl))

length-ne_nil : (t : Bytes) → t ≢ [] → 0 < length t
length-ne_nil [] ne = absurd (ne refl)
length-ne_nil (x ∷ t) ne = omega arith

replace_loop-some :
    (f : ℕ) (lhs from to out : Bytes) (i : ℕ)
    → from ≢ []
    → first_match from lhs ≡ some i
    → replace_loop (suc f) lhs from to out ≡ (
        if str_isempty (drop (i + length from) lhs)
        then ok ((out ++ take i lhs) ++ to)
        else replace_loop f (drop (i + length from) lhs) from to ((out ++ take i lhs) ++ to))
unfolding replace_loop sides str_isempty
replace_loop-some f lhs from to out i ne e =
    let fits = first_match-fits from lhs i e in
    let pos = length-ne_nil from ne in
    let hit : length (take i lhs) < length lhs = omega (arith, length-take {0} i lhs) in
    rw (str_split_text-sides lhs from ne)
      (rw e (rw (lt→ltb (length (take i lhs)) (length lhs) hit)))

pub isempty-nil : (s : Bytes) → str_isempty s ≡ true → s ≡ []
unfolding str_isempty
isempty-nil [] e = refl
isempty-nil (x ∷ s) e = absurd (ground arith)

regroup : (out a b c : Bytes) → ((out ++ a) ++ b) ++ c ≡ out ++ (a ++ (b ++ c))
regroup out a b c = simp append_assoc

-- The test at the end of a round: an empty rest has nothing left to substitute.
last_round :
    (f : ℕ) (r from to out : Bytes)
    → replace_loop f r from to out ≡ ok (out ++ substituted from to 0 r)
    → (if str_isempty r then ok out else replace_loop f r from to out)
      ≡ ok (out ++ substituted from to 0 r)
last_round f r from to out ih = elim (Bool-cases (str_isempty r)) [
  | inl e ↦ rw e (rw (isempty-nil r e) (unfold substituted in rw append-nil))
  | inr e ↦ rw e ih
]

replace_loop-substituted :
    (f : ℕ) (lhs from to out : Bytes)
    → from ≢ []
    → length lhs < f
    → replace_loop f lhs from to out ≡ ok (out ++ substituted from to 0 lhs)
replace_loop-substituted zero lhs from to out ne h = absurd (omega arith)
replace_loop-substituted (suc f) lhs from to out ne h = elim (Option-cases (first_match from lhs)) [
  | inl e ↦ rw (substituted-none from to lhs e) (replace_loop-none f lhs from to out ne e)
  | inr (i, e) ↦
      let r = drop (i + length from) lhs in
      let out' = (out ++ take i lhs) ++ to in
      let shorter : length r < f = omega (
        arith,
        length-drop {0} (i + length from) lhs,
        length-ne_nil from ne,
        first_match-fits from lhs i e,
      ) in
      let ih = replace_loop-substituted f r from to out' ne shorter in
      replace_loop-some f lhs from to out i ne e
      ∙ last_round f r from to out' ih
      ∙ ap ok (regroup out (take i lhs) to (substituted from to 0 r))
      ∙ ap (λ (z : Bytes). ok (out ++ z))
          (sym (substituted-some from to lhs i (i + length from) ne e refl))
]

-- `str_replace_text` substitutes from left to right, for every string and every text to look for
-- that is not empty: it ends, and no `bug` is reached.
pub str_replace_text-substituted :
    (s from to : Bytes) → from ≢ [] → str_replace_text s from to ≡ ok (substituted from to 0 s)
unfolding str_replace_text
str_replace_text-substituted s from to ne =
    replace_loop-substituted (suc (length s)) s from to [] ne (omega arith)

is_prefix-append : (t s : Bytes) → is_prefix t (t ++ s) ≡ true
unfolding is_prefix
is_prefix-append [] s = refl
is_prefix-append (x ∷ t) s = ground (arith, is_prefix-append t s)

pred-suc : (n : ℕ) → suc n - 1 ≡ n
pred-suc n = omega arith

-- A place at the start is substituted, and the rest on its own.
pub substituted-prefix :
    (y : ℕ) (f to s : Bytes)
    → substituted (y ∷ f) to 0 ((y ∷ f) ++ s) ≡ to ++ substituted (y ∷ f) to 0 s
unfolding substituted
substituted-prefix y f to s = rw (is_prefix-append (y ∷ f) s) (
    ap (◌++◌ to) (
      ap (λ (k : ℕ). substituted (y ∷ f) to k (f ++ s)) (pred-suc (length f))
      ∙ substituted-drop (y ∷ f) to (length f) (f ++ s)
      ∙ ap (substituted (y ∷ f) to 0) (drop-append_eq (length f) f s refl)))

-- A byte that does not start the text is passed.
pub substituted-other :
    (y : ℕ) (f to : Bytes) (c : ℕ) (s : Bytes)
    → c ≢ y
    → substituted (y ∷ f) to 0 (c ∷ s) ≡ c ∷ substituted (y ∷ f) to 0 s
unfolding substituted is_prefix
substituted-other y f to c s ne = let e : c == y ≡ false = ground arith in rw e

pub substituted_nil : (from to : Bytes) → substituted from to 0 [] ≡ []
unfolding substituted
substituted_nil from to = refl
