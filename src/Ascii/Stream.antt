-- ===== src/Ascii/Stream.antt =====
-- Both translations as functions of the whole data, and their independence of how it is cut.
use dragonsunited_minecraft.Base.{
  ℕ, Bool, true, false, not, ◌&&◌, [], ◌∷◌, ◌++◌, ◌≡◌, refl, sym, ap, ◌∙◌, arith, ◌==◌,
  if◌then◌else◌, Bytes, append_assoc, inl, inr, Bool-cases,
}
use dragonsunited_minecraft.Ascii.{cr, lf, vsf_ascii_bin_to_ascii}

-- A line feed comes next.
abbrev pub lf_next : Bytes → Bool
lf_next [] = false
lf_next (c ∷ cs) = c == lf

abbrev pub is_empty : Bytes → Bool
is_empty [] = true
is_empty (c ∷ cs) = false

-- A carriage return before a line feed goes; one at the very end is held back.
unfoldable pub plain : Bytes → Bytes
plain [] = []
plain (c ∷ cs) =
    let rest = plain cs in
    if not (c == cr)
    then c ∷ rest
    else if is_empty cs
    then []
    else if lf_next cs
    then rest
    else c ∷ rest

unfoldable pub held_back : Bytes → Bool
held_back [] = false
held_back (c ∷ cs) = let rest = held_back cs in if is_empty cs then c == cr else rest

-- What was held back before some data is written before it, unless a line feed comes first.
abbrev pub flushed : Bool → Bytes → Bytes
flushed true cs = if lf_next cs then [] else cr ∷ []
flushed false cs = []

-- What one byte with another behind it becomes.
unfoldable pub kept : ℕ → Bool → Bytes
kept x lf_behind = if x == cr && lf_behind then [] else x ∷ []

pub plain_step : (x z : ℕ) (w : Bytes) → plain (x ∷ z ∷ w) ≡ kept x (z == lf) ++ plain (z ∷ w)
unfolding kept
plain_step x z w = elim (Bool-cases (x == cr)) [
  | inr e ↦ unfold plain in rw e
  | inl e ↦ elim (Bool-cases (z == lf)) [
    | inl k ↦ unfold plain in rw (e, k)
    | inr k ↦ unfold plain in rw (e, k)
  ]
]

one_byte :
    (x : ℕ) (b : Bool) (rest : Bytes)
    → kept x b ++ rest
      ≡ plain (x ∷ []) ++ ((if held_back (x ∷ []) then (if b then [] else cr ∷ []) else []) ++ rest)
unfolding kept plain held_back
one_byte x b rest = ground arith

flushed_if :
    (h : Bool) (y : ℕ) (ys : Bytes)
    → flushed h (y ∷ ys) ≡ (if h then (if y == lf then [] else cr ∷ []) else [])
flushed_if true y ys = refl
flushed_if false y ys = refl

pub held_back_step : (x z : ℕ) (w : Bytes) → held_back (x ∷ z ∷ w) ≡ held_back (z ∷ w)
unfolding held_back
held_back_step x z w = refl

-- The translation from a carriage return on does not depend on how the data is cut into reads: the
-- first piece and the second, with what the first held back, give that of the whole.
pub plain-append :
    (x : ℕ) (xs ys : Bytes) (y : ℕ)
    → plain ((x ∷ xs) ++ y ∷ ys)
      ≡ plain (x ∷ xs) ++ (flushed (held_back (x ∷ xs)) (y ∷ ys) ++ plain (y ∷ ys))
plain-append x [] ys y =
    plain_step x y ys
    ∙ one_byte x (y == lf) (plain (y ∷ ys))
    ∙ ap (λ (z : Bytes). plain (x ∷ []) ++ (z ++ plain (y ∷ ys)))
        (sym (flushed_if (held_back (x ∷ [])) y ys))
plain-append x (z ∷ xs) ys y =
    plain_step x z (xs ++ y ∷ ys)
    ∙ ap (◌++◌ (kept x (z == lf))) (plain-append z xs ys y)
    ∙ rw (plain_step x z xs, held_back_step x z xs)
        (sym (append_assoc (kept x (z == lf)) (plain (z ∷ xs)) _))

-- The translation of data in two pieces is that of the first and, with whether it ended in a
-- carriage return, of the second.
pub bin_to_ascii-append :
    (xs ys : Bytes) (prev_cr : Bool)
    → vsf_ascii_bin_to_ascii (xs ++ ys) prev_cr ≡ (
        let first = vsf_ascii_bin_to_ascii xs prev_cr in
        let second = vsf_ascii_bin_to_ascii ys first.last_was_cr in
        record { stored = first.stored ++ second.stored; last_was_cr = second.last_was_cr })
unfolding vsf_ascii_bin_to_ascii
bin_to_ascii-append [] ys prev_cr = refl
bin_to_ascii-append (c ∷ xs) ys prev_cr =
    rw (bin_to_ascii-append xs ys (c == cr)) (simp append_assoc)
