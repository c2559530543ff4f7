-- ===== src/Str/Text/Search.antt =====
-- The searches of str.c against the first place where a text stands.
use dragonsunited_minecraft.Base.{
  ℕ, zero, suc, ◌+◌, ◌-◌, ◌≤◌, ◌<◌, Bool, true, false, ◌&&◌, [], ◌∷◌, Option, none, some, ◌≡◌, ◌≢◌,
  inl, inr, refl, sym, ap, ◌∙◌, arith, ltb, ◌==◌, if◌then◌else◌, length, drop, Bytes, Bool-cases,
  bytes_eq, ltb→lt, ltb→le,
}
use dragonsunited_minecraft.Str.Text.{
  LocateResult, not_found, found_at, locate_loop, str_locate_text, same_bytes,
}

-- `t` stands at the start of `s`.
unfoldable pub is_prefix : Bytes → Bytes → Bool
is_prefix [] s = true
is_prefix (x ∷ t) [] = false
is_prefix (x ∷ t) (y ∷ s) = y == x && is_prefix t s

-- The first place of `t` in `s`.
unfoldable pub first_match : Bytes → Bytes → Option ℕ
first_match t [] = none
first_match t (x ∷ s) =
    let rest = first_match t s in
    if is_prefix t (x ∷ s) then some 0 else elim rest [ none ↦ none | some i ↦ some (suc i) ]

same_bytes-is_prefix : (s t : Bytes) → same_bytes s t (length t) ≡ is_prefix t s
unfolding is_prefix bytes_eq
same_bytes-is_prefix s [] = refl
same_bytes-is_prefix [] (y ∷ t) = refl
same_bytes-is_prefix (x ∷ s) (y ∷ t) = rw (same_bytes-is_prefix s t)

is_prefix-length : (t s : Bytes) → is_prefix t s ≡ true → length t ≤ length s
unfolding is_prefix
is_prefix-length [] s h = omega arith
is_prefix-length (x ∷ t) [] h = cc
is_prefix-length (x ∷ t) (y ∷ s) h = ground (arith, is_prefix-length t s)

first_match-short : (t s : Bytes) → length s < length t → first_match t s ≡ none
unfolding first_match
first_match-short t [] h = refl
first_match-short t (x ∷ s) h = ground (arith, first_match-short t s, is_prefix-length t (x ∷ s))

-- An offset into the whole string.
shifted : ℕ → Option ℕ → LocateResult
shifted i none = not_found
shifted i (some j) = found_at (i + j)

drop-suc : (i : ℕ) (s : Bytes) {x : ℕ} {u : Bytes} → drop i s ≡ x ∷ u → drop (suc i) s ≡ u
drop-suc zero [] h = cc
drop-suc zero (x ∷ s) h = cc
drop-suc (suc i) [] h = cc
drop-suc (suc i) (x ∷ s) h = drop-suc i s h

shifted_step :
    (i : ℕ) (o : Option ℕ)
    → shifted (suc i) o ≡ shifted i (elim o [ none ↦ none | some j ↦ some (suc j) ])
unfolding shifted
shifted_step i none = refl
shifted_step i (some j) = ap found_at (omega arith)

locate_done : (u t : Bytes) (i : ℕ) → length u < length t → not_found ≡ shifted i (first_match t u)
unfolding shifted
locate_done u t i h = rw (first_match-short t u h)

found_here : (i : ℕ) → found_at i ≡ shifted i (some 0)
unfolding shifted
found_here i = ap found_at (omega arith)

locate_loop-first_match :
    (u s t : Bytes) (i r : ℕ)
    → drop i s ≡ u
    → t ≢ []
    → r ≡ length u + 1 - length t
    → locate_loop r i s t ≡ shifted i (first_match t u)
unfolding first_match locate_loop
locate_loop-first_match u s [] i r e ne h = absurd (ne refl)
locate_loop-first_match [] s (y ∷ t) i zero e ne h = unfold shifted in refl
locate_loop-first_match [] s (y ∷ t) i (suc r) e ne h = absurd (omega arith)
locate_loop-first_match (x ∷ u) s t i zero e ne h = locate_done (x ∷ u) t i (omega arith)
locate_loop-first_match (x ∷ u) s t i (suc r) e ne h =
    rw (e, same_bytes-is_prefix (x ∷ u) t)
      (elim (Bool-cases (is_prefix t (x ∷ u))) [
        | inl p ↦ rw p (found_here i)
        | inr p ↦ rw p (
            locate_loop-first_match u s t (suc i) r (drop-suc i s e) ne (omega arith)
            ∙ shifted_step i (first_match t u))
      ])

-- A `found_at`, or `not_found`, for what a search by a specification says.
unfoldable pub located : Option ℕ → LocateResult
located none = not_found
located (some i) = found_at i

located_inv : (o : Option ℕ) (i : ℕ) → located o ≡ found_at i → o ≡ some i
unfolding located
located_inv none i e = cc
located_inv (some j) i e = ap some (ap (λ (r : LocateResult). r.index) e)

shifted-located : (o : Option ℕ) → shifted 0 o ≡ located o
unfolding shifted located
shifted-located none = refl
shifted-located (some i) = ap found_at (omega arith)

-- `str_locate_text` finds the first place of a text that is not empty, and nothing else.
pub str_locate_text-first_match :
    (s t : Bytes) → t ≢ [] → str_locate_text s t ≡ located (first_match t s)
unfolding str_locate_text
str_locate_text-first_match s [] ne = absurd (ne refl)
str_locate_text-first_match s (y ∷ t) ne =
    let f : suc (length t) == 0 ≡ false = ground arith in
    elim (Bool-cases (ltb (length s) (suc (length t)))) [
      | inl e ↦ rw (f, e, first_match-short (y ∷ t) s (ltb→lt _ _ e)) (unfold located in refl)
      | inr e ↦
          rw (f, e)
            (locate_loop-first_match s s (y ∷ t) 0 (length s - suc (length t) + 1) refl ne
                (let le = ltb→le _ _ e in omega arith)
              ∙ shifted-located (first_match (y ∷ t) s))
    ]

pub first_match-suc :
    (t : Bytes) (x : ℕ) (s : Bytes) (i : ℕ)
    → first_match t (x ∷ s) ≡ some (suc i)
    → (is_prefix t (x ∷ s) ≡ false) × (first_match t s ≡ some i)
unfolding first_match
first_match-suc t x s i e = ground arith

pub first_match-is_prefix :
    (t s : Bytes) (i : ℕ) → first_match t s ≡ some i → is_prefix t (drop i s) ≡ true
unfolding first_match
first_match-is_prefix t [] i e = cc
first_match-is_prefix t (x ∷ s) zero e = ground arith
first_match-is_prefix t (x ∷ s) (suc i) e =
    first_match-is_prefix t s i (first_match-suc t x s i e).1

pub first_match-first :
    (t s : Bytes) (i j : ℕ) → first_match t s ≡ some i → j < i → is_prefix t (drop j s) ≡ false
first_match-first t [] i j e h = unfold first_match in cc
first_match-first t (x ∷ s) zero j e h = absurd (omega arith)
first_match-first t (x ∷ s) (suc i) zero e h = (first_match-suc t x s i e).0
first_match-first t (x ∷ s) (suc i) (suc j) e h =
    first_match-first t s i j (first_match-suc t x s i e).1 (omega arith)

pub first_match-none :
    (t s : Bytes) (j : ℕ) → first_match t s ≡ none → j < length s → is_prefix t (drop j s) ≡ false
unfolding first_match
first_match-none t [] j e h = absurd (omega arith)
first_match-none t (x ∷ s) zero e h = ground arith
first_match-none t (x ∷ s) (suc j) e h = first_match-none t s j (ground arith) (omega arith)

pub first_match-fits : (t s : Bytes) (i : ℕ) → first_match t s ≡ some i → i + length t ≤ length s
first_match-fits t [] i e = unfold first_match in cc
first_match-fits t (x ∷ s) zero e =
    omega (arith, is_prefix-length t (x ∷ s) (first_match-is_prefix t (x ∷ s) zero e))
first_match-fits t (x ∷ s) (suc i) e =
    omega (arith, first_match-fits t s i (first_match-suc t x s i e).1)

-- A place that `str_locate_text` finds is inside the string, holds the text, and no place before
-- it does.
pub str_locate_text-found :
    (s t : Bytes) (i : ℕ)
    → t ≢ []
    → str_locate_text s t ≡ found_at i
    → (i + length t ≤ length s)
      × (is_prefix t (drop i s) ≡ true)
      × ((j : ℕ) → j < i → is_prefix t (drop j s) ≡ false)
str_locate_text-found s t i ne e =
    let m = located_inv (first_match t s) i (sym (str_locate_text-first_match s t ne) ∙ e) in
    (first_match-fits t s i m, first_match-is_prefix t s i m, λ j h. first_match-first t s i j m h)
