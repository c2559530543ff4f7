-- ===== src/Postlogin/Paths/Meaning.antt =====
-- postlogin.c, `resolve_tilde` and `prepend_path_to_filename`, by the first and the last characters.
use dragonsunited_minecraft.Base.{
  ℕ, suc, ◌-◌, Bool, true, false, not, ◌||◌, [], ◌∷◌, ◌++◌, Option, none, some, ap, ◌≡◌, ◌≢◌, inl,
  inr, refl, sym, ◌∙◌, arith, ltb, leb, ◌==◌, if◌then◌else◌, length, get_or, Bytes, Bool-cases,
}
use dragonsunited_minecraft.Postlogin.Paths.{
  own_home, home_with, user_home, starts_with, own_tilde, after_tilde, resolve_tilde, with_slash,
  prepend_path_to_filename,
}
use dragonsunited_minecraft.Run.{ok}
use dragonsunited_minecraft.Session.{Tunables, Host, Session}
use dragonsunited_minecraft.Str.Cut.{str_get_char_at}
use dragonsunited_minecraft.Str.Text.{str_isempty}
use dragonsunited_minecraft.Str.Text.Split.{
  before, after, str_split_char-parts, isempty_empty, isempty-cons,
}

unfoldable pub begins : ℕ → Bytes → Bool
begins c [] = false
begins c (x ∷ s) = x == c

unfoldable pub ends : ℕ → Bytes → Bool
ends c [] = false
ends c (x ∷ []) = x == c
ends c (x ∷ y ∷ s) = ends c (y ∷ s)

-- The absolute path of a file.
unfoldable pub full_path : Bytes → Bytes → Bytes
unfolding begins ends
full_path dir str =
    if begins b'/' str then str else (if ends b'/' dir then dir else dir ++ b'/' ∷ []) ++ str

-- A path whose `~user` is replaced by the user's home, with what is behind the first slash below it;
-- the path itself where there is no such user.
unfoldable pub below_home : Bytes → Bytes → Option Bytes → Bytes
below_home path named none = path
below_home path named (some home) =
    let below = after b'/' named in if str_isempty below then home else (home ++ b'/' ∷ []) ++ below

-- A path with its `~` or `~user` replaced.
unfoldable pub expanded : Tunables → Host → Bytes → Bytes → Bytes
unfolding begins below_home
expanded t h home [] = []
expanded t h home (x ∷ rest) =
    if not (x == b'~')
    then x ∷ rest
    else if str_isempty rest || begins b'/' rest
    then home ++ rest
    else if t.tilde_user_enable
    then below_home (x ∷ rest) rest (h.home_of (before b'/' rest))
    else x ∷ rest

last-ends : (x : ℕ) (s : Bytes) → (get_or (x ∷ s) (length s) 0 == b'/') ≡ ends b'/' (x ∷ s)
unfolding ends
last-ends x [] = refl
last-ends x (y ∷ s) = last-ends y s

get_char_first : (x : ℕ) (s : Bytes) → str_get_char_at (x ∷ s) 0 ≡ ok x
unfolding str_get_char_at
get_char_first x s = rw (let e : leb (suc (length s)) 0 ≡ false = ground arith in e) refl

get_char_second : (x y : ℕ) (s : Bytes) → str_get_char_at (x ∷ y ∷ s) 1 ≡ ok y
unfolding str_get_char_at
get_char_second x y s = rw (let e : leb (suc (suc (length s))) 1 ≡ false = ground arith in e) refl

get_char_last :
    (x : ℕ) (s : Bytes) → str_get_char_at (x ∷ s) (length s) ≡ ok (get_or (x ∷ s) (length s) 0)
unfolding str_get_char_at
get_char_last x s = rw (let e : leb (suc (length s)) (length s) ≡ false = ground arith in e) refl

true_ne_false : true ≢ false
true_ne_false = λ e. cc

not_left : (a b : Bool) → (a || b) ≡ false → a ≡ false
not_left false b e = refl
not_left true b e = cc

after_first : (x : ℕ) (s : Bytes) → (x == b'~') ≡ true → after b'~' (x ∷ s) ≡ s
unfolding after
after_first x s e = rw e refl

append-slash : (a b : Bytes) → a ++ b'/' ∷ b ≡ (a ++ b'/' ∷ []) ++ b
append-slash [] b = refl
append-slash (x ∷ a) b = ap (λ z. x ∷ z) (append-slash a b)

module _ (t : Tunables) (h : Host) where
  with_slash-ends :
      (dir : Bytes) → with_slash t h dir ≡ ok (if ends b'/' dir then dir else dir ++ b'/' ∷ [])
  unfolding with_slash
  with_slash-ends [] = unfold ends in rw isempty_empty refl
  with_slash-ends (x ∷ s) = rw (isempty-cons x s) (
      rw (let e : suc (length s) - 1 ≡ length s = omega arith in e, get_char_last x s)
        (rw (last-ends x s) refl))

  pub prepend_path-full_path :
      (s : Session) (str : Bytes)
      → prepend_path_to_filename t h s str ≡ ok (full_path (h.getcwd s.events) str)
  unfolding prepend_path_to_filename starts_with full_path begins
  prepend_path-full_path s [] = rw isempty_empty (rw (with_slash-ends (h.getcwd s.events)) refl)
  prepend_path-full_path s (x ∷ str) = elim (Bool-cases (x == b'/')) [
    | inl e ↦ rw (isempty-cons x str) (rw (get_char_first x str) (rw e refl))
    | inr e ↦
        rw (isempty-cons x str)
          (rw (get_char_first x str) (rw e (rw (with_slash-ends (h.getcwd s.events)) refl)))
  ]

  own_tilde-begins :
      (x : ℕ) (str : Bytes) → own_tilde t h (x ∷ str) ≡ ok (str_isempty str || begins b'/' str)
  unfolding own_tilde begins
  own_tilde-begins x [] = rw isempty_empty refl
  own_tilde-begins x (y ∷ s) =
      rw (let e : (suc (suc (length s)) == 1) ≡ false = ground arith in e)
        (rw (get_char_second x y s, isempty-cons y s) refl)

  own_home_lem :
      (s : Session) (x : ℕ) (str : Bytes)
      → (x == b'~') ≡ true
      → own_home t h s (x ∷ str) ≡ ok (s.home_str ++ str)
  unfolding own_home
  own_home_lem s x str e =
      rw (str_split_char-parts (x ∷ str) b'~' (omega arith)) (rw (after_first x str e) refl)

  home_with_lem :
      (path named : Bytes) (o : Option Bytes)
      → home_with t h path o (after b'/' named) ≡ below_home path named o
  unfolding home_with below_home
  home_with_lem path named none = refl
  home_with_lem path named (some home) = elim (Bool-cases (str_isempty (after b'/' named))) [
    | inl e ↦ rw e refl
    | inr e ↦ rw e (append-slash home (after b'/' named))
  ]

  user_home_lem :
      (x : ℕ) (str : Bytes)
      → (x == b'~') ≡ true
      → user_home t h (x ∷ str) ≡ ok (below_home (x ∷ str) str (h.home_of (before b'/' str)))
  unfolding user_home
  user_home_lem x str e = rw (str_split_char-parts (x ∷ str) b'~' (omega arith)) (
      rw (after_first x str e) (
        rw (str_split_char-parts str b'/' (omega arith))
          (ap ok (home_with_lem (x ∷ str) str (h.home_of (before b'/' str))))))

  after_tilde-other :
      (s : Session) (x : ℕ) (str : Bytes)
      → (x == b'~') ≡ true
      → str_isempty str ≡ false
      → after_tilde t h s (x ∷ str) false
        ≡ ok (
            if t.tilde_user_enable
            then below_home (x ∷ str) str (h.home_of (before b'/' str))
            else x ∷ str)
  unfolding after_tilde
  after_tilde-other s x [] e n = absurd (true_ne_false (sym isempty_empty ∙ n))
  after_tilde-other s x (y ∷ str) e n = elim (Bool-cases t.tilde_user_enable) [
    | inl u ↦
        rw (let e : ltb 1 (suc (suc (length str))) ≡ true = ground arith in e)
          (rw (user_home_lem x (y ∷ str) e) (rw u refl))
    | inr u ↦ rw u refl
  ]

  after_tilde_lem :
      (s : Session) (x : ℕ) (str : Bytes)
      → (x == b'~') ≡ true
      → after_tilde t h s (x ∷ str) (str_isempty str || begins b'/' str)
        ≡ ok (expanded t h s.home_str (x ∷ str))
  unfolding expanded
  after_tilde_lem s x str e = elim (Bool-cases (str_isempty str || begins b'/' str)) [
    | inl b ↦ rw (e, b) (unfold after_tilde in own_home_lem s x str e)
    | inr b ↦ rw (e, b) (after_tilde-other s x str e (not_left _ _ b))
  ]

  pub resolve_tilde-expanded :
      (s : Session) (str : Bytes) → resolve_tilde t h s str ≡ ok (expanded t h s.home_str str)
  unfolding resolve_tilde starts_with
  resolve_tilde-expanded s [] = unfold expanded in refl
  resolve_tilde-expanded s (x ∷ str) =
      rw (let e : ltb 0 (suc (length str)) ≡ true = ground arith in e) (
        rw (get_char_first x str) (elim (Bool-cases (x == b'~')) [
          | inl e ↦ rw (own_tilde-begins x str) (rw (after_tilde_lem s x str e) (rw e refl))
          | inr e ↦ unfold expanded in rw e refl
        ]))

  -- For every session and every path, `resolve_tilde` and `prepend_path_to_filename` return: the one
  -- replaces a first tilde as `expanded` does, the other makes the path absolute as `full_path` does,
  -- and neither reads a character that is not there.
  pub paths_lem :
      (s : Session) (str : Bytes)
      → (resolve_tilde t h s str ≡ ok (expanded t h s.home_str str))
        × (prepend_path_to_filename t h s str ≡ ok (full_path (h.getcwd s.events) str))
  paths_lem s str = (resolve_tilde-expanded s str, prepend_path-full_path s str)
