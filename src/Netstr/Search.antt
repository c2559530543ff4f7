-- ===== src/Netstr/Search.antt =====
-- The search for a terminator in a stream of which some bytes are seen, and the line before it.
use dragonsunited_minecraft.Base.{
  ℕ, zero, suc, ◌-◌, ◌≤◌, ◌<◌, true, false, [], ◌∷◌, ◌++◌, none, some, ◌≡◌, ◌⊎◌, inl, inr, refl,
  sym, ap, arith, ◌==◌, length, take, drop, get_or, Bytes, Bool-cases, ==_iff,
}
use dragonsunited_minecraft.Run.{ok}
use dragonsunited_minecraft.Str.Cut.{str_alloc_alt_term}
use dragonsunited_minecraft.Str.Text.Split.{before, after, has}
use dragonsunited_minecraft.Netstr.{find_term}

-- What a search finds in the first `m` bytes.
pub find_term-take :
    (m : ℕ) (u : Bytes) (term : ℕ)
    → ((find_term (take m u) term ≡ none)
        × (before term (take m u) ≡ take m u)
        × (has term (take m u) ≡ false))
      ⊎ ((find_term (take m u) term ≡ some (length (before term u)))
          × (length (before term u) < m)
          × (has term u ≡ true))
unfolding find_term before has
find_term-take zero u term = inl (refl, refl, refl)
find_term-take (suc m) [] term = inl (refl, refl, refl)
find_term-take (suc m) (c ∷ u) term = elim (Bool-cases (c == term)) [
  | inl e ↦ rw e (inr (refl, omega arith, refl))
  | inr e ↦ rw e (elim (find_term-take m u term) [
    | inl (a, b, d) ↦ rw (a, b, d) (inl (refl, refl, refl))
    | inr (a, b, d) ↦ rw (a, d) (inr (refl, omega arith, refl))
  ])
]

pub has-append : (c : ℕ) (a b : Bytes) → has c a ≡ false → has c b ≡ false → has c (a ++ b) ≡ false
unfolding has
has-append c [] b h k = k
has-append c (x ∷ a) b h k = elim (Bool-cases (x == c)) [
  | inl e ↦ absurd (ground arith)
  | inr e ↦ rw e (has-append c a b (ground arith) k)
]

pub has-before : (c : ℕ) (u : Bytes) → has c (before c u) ≡ false
unfolding has before
has-before c [] = refl
has-before c (x ∷ u) = elim (Bool-cases (x == c)) [
  | inl e ↦ rw e refl
  | inr e ↦ rw (e, e) (has-before c u)
]

pub alloc_alt_term-found :
    (c : ℕ) (a z : Bytes) → has c a ≡ false → str_alloc_alt_term (a ++ (c ∷ z)) c ≡ ok a
unfolding has str_alloc_alt_term
alloc_alt_term-found c [] z h = let e : (c == c) ≡ true = (==_iff c c).1 refl in rw e
alloc_alt_term-found c (x ∷ a) z h = elim (Bool-cases (x == c)) [
  | inl e ↦ absurd (ground arith)
  | inr e ↦ rw (e, alloc_alt_term-found c a z (ground arith))
]

pub line_taken :
    (c : ℕ) (u : Bytes)
    → has c u ≡ true
    → take (suc (length (before c u))) u ≡ before c u ++ (c ∷ [])
unfolding has before
line_taken c [] h = cc
line_taken c (x ∷ u) h = elim (Bool-cases (x == c)) [
  | inl e ↦ rw e (ap (λ z. z ∷ []) ((==_iff x c).0 e))
  | inr e ↦ rw e (ap (◌∷◌ x) (line_taken c u (ground arith)))
]

pub line_left :
    (c : ℕ) (u : Bytes) → has c u ≡ true → drop (suc (length (before c u))) u ≡ after c u
unfolding has before after
line_left c [] h = cc
line_left c (x ∷ u) h = elim (Bool-cases (x == c)) [
  | inl e ↦ rw e refl
  | inr e ↦ rw e (line_left c u (ground arith))
]

pub line_fits : (c : ℕ) (u : Bytes) → has c u ≡ true → length (before c u) < length u
unfolding has before
line_fits c [] h = absurd (ground arith)
line_fits c (x ∷ u) h = ground (arith, line_fits c u)

pub get_or-last : (p : Bytes) (c : ℕ) → get_or (p ++ (c ∷ [])) (length p) 0 ≡ c
get_or-last [] c = refl
get_or-last (x ∷ p) c = get_or-last p c

-- What holds of a stream whose first `m` bytes are without the terminator.
module _ (c : ℕ) where
  pub has-behind : (m : ℕ) (u : Bytes) → has c (take m u) ≡ false → has c u ≡ has c (drop m u)
  unfolding has
  has-behind zero u h = refl
  has-behind (suc m) [] h = refl
  has-behind (suc m) (x ∷ u) h = elim (Bool-cases (x == c)) [
    | inl e ↦ absurd (ground arith)
    | inr e ↦ rw e (has-behind m u (ground arith))
  ]

  pub before-behind :
      (m : ℕ) (u : Bytes) → has c (take m u) ≡ false → before c u ≡ take m u ++ before c (drop m u)
  unfolding has before
  before-behind zero u h = refl
  before-behind (suc m) [] h = refl
  before-behind (suc m) (x ∷ u) h = elim (Bool-cases (x == c)) [
    | inl e ↦ absurd (ground arith)
    | inr e ↦ rw e (ap (◌∷◌ x) (before-behind m u (ground arith)))
  ]

  pub after-behind : (m : ℕ) (u : Bytes) → has c (take m u) ≡ false → after c u ≡ after c (drop m u)
  unfolding has after
  after-behind zero u h = refl
  after-behind (suc m) [] h = refl
  after-behind (suc m) (x ∷ u) h = elim (Bool-cases (x == c)) [
    | inl e ↦ absurd (ground arith)
    | inr e ↦ rw e (after-behind m u (ground arith))
  ]

  pub has-take :
      (n : ℕ) (u : Bytes) → has c u ≡ true → length (before c u) < n → has c (take n u) ≡ true
  unfolding has before
  has-take zero u h lt = absurd (omega arith)
  has-take (suc n) [] h lt = h
  has-take (suc n) (x ∷ u) h lt = elim (Bool-cases (x == c)) [
    | inl e ↦ rw e refl
    | inr e ↦ rw e (has-take n u (ground arith) (ground arith))
  ]

pub take-take : (m n : ℕ) (u : Bytes) → m ≤ n → take m (take n u) ≡ take m u
take-take zero n u h = refl
take-take (suc m) zero u h = absurd (omega arith)
take-take (suc m) (suc n) [] h = refl
take-take (suc m) (suc n) (x ∷ u) h = ap (◌∷◌ x) (take-take m n u (omega arith))

pub take_nil : (n : ℕ) → take n (let e : Bytes = [] in e) ≡ []
take_nil zero = refl
take_nil (suc n) = refl

pub drop-take : (m n : ℕ) (u : Bytes) → drop m (take n u) ≡ take (n - m) (drop m u)
drop-take zero n u = let e : n - 0 ≡ n = omega arith in rw e
drop-take (suc m) zero u = let e : 0 - suc m ≡ 0 = omega arith in rw e
drop-take (suc m) (suc n) [] =
    let e : suc n - suc m ≡ n - m = omega arith in rw e (sym (take_nil (n - m)))
drop-take (suc m) (suc n) (x ∷ u) =
    let e : suc n - suc m ≡ n - m = omega arith in rw e (drop-take m n u)
