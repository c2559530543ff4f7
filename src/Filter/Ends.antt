-- ===== src/Filter/Ends.antt =====
-- The filter always gives an answer: its bound on the rounds is enough for the model's fuel, and
-- no piece is cut outside its string.
use dragonsunited_minecraft.Base.{
  ℕ, zero, suc, ◌+◌, ◌-◌, ◌≤◌, ◌<◌, Bool, true, false, not, ◌&&◌, ◌||◌, [], ◌∷◌, ◌++◌, Option, none,
  some, ◌≡◌, inl, inr, refl, arith, ltb, ◌==◌, length, take, drop, get_or, Bytes, Bool-cases,
  lt→leb, ltb→lt,
}
use dragonsunited_minecraft.Run.{Run, ok}
use dragonsunited_minecraft.Str.Cut.{str_get_char_at}
use dragonsunited_minecraft.Str.Text.{str_isempty, str_locate_char, str_locate_str}
use dragonsunited_minecraft.Str.Text.Clean.{Clean, Clean-append, Clean-before, Clean-after}
use dragonsunited_minecraft.Str.Text.Split.{
  before, after, str_split_char-parts, length-after, isempty_empty, isempty-cons,
}
use dragonsunited_minecraft.Filter.Pieces.{next_piece-ok, match_needed-ok, right_lem}
use dragonsunited_minecraft.Filter.{
  iters_max, Loop, brace_loop, braces, finish, question, open_brace, brace, next_token,
  filter_round, filter_loop, vsf_filename_passes_filter, vsf_access_check_file,
}

-- A match is decided, and the count did not fall below where it was nor pass the bound.
abbrev pub Decides : ℕ → Run (Bool × ℕ) → Type 0
Decides lo r = (b : Bool) × (i : ℕ) × (r ≡ ok (b, i)) × (lo ≤ i) × (i ≤ iters_max)

-- What the recursive call does from a count on.
abbrev DecidesFrom : ℕ → (Bytes → ℕ → Run (Bool × ℕ)) → Type 0
DecidesFrom lo passes =
    (g : Bytes) (i : ℕ) → Clean g → lo ≤ i → i ≤ iters_max → Decides i (passes g i)

brace_loop_end :
    (f : ℕ) (passes : Bytes → ℕ → Run (Bool × ℕ)) (temp remain : Bytes) (i : ℕ)
    → brace_loop (suc f) passes [] temp remain i ≡ ok (false, i)
unfolding brace_loop
brace_loop_end f passes temp remain i = rw isempty_empty

-- The list in braces, with fuel for each piece that is left.
brace_loop-Decides :
    (f : ℕ) (passes : Bytes → ℕ → Run (Bool × ℕ)) (item temp remain : Bytes) (lo i : ℕ)
    → DecidesFrom lo passes
    → Clean item
    → Clean temp
    → Clean remain
    → length temp < f
    → lo ≤ i
    → i ≤ iters_max
    → Decides i (brace_loop (suc f) passes item temp remain i)
unfolding brace_loop
brace_loop-Decides zero passes item temp remain lo i d ci ct cr h le k = absurd (omega arith)
brace_loop-Decides (suc f) passes [] temp remain lo i d ci ct cr h le k =
    (false, i, brace_loop_end (suc f) passes temp remain i, omega arith, k)
brace_loop-Decides (suc f) passes (x ∷ item) [] remain lo i d ci ct cr h le k =
    let (b, j, there, from, below) =
      d ((x ∷ item) ++ remain) i (Clean-append (x ∷ item) remain ci cr) le k in
    elim (Bool-cases b) [
      | inl e ↦ (true, j, rw (isempty-cons x item, there) (rw e), from, below)
      | inr e ↦ (
        false,
        j,
        rw (isempty-cons x item, there)
            (rw e (
              rw (str_split_char-parts [] b',' (omega arith))
                (unfold before after in brace_loop_end f passes [] remain j))),
        from,
        below,
      )
    ]
brace_loop-Decides (suc f) passes (x ∷ item) (y ∷ temp) remain lo i d ci ct cr h le k =
    let (b, j, there, from, below) =
      d ((x ∷ item) ++ remain) i (Clean-append (x ∷ item) remain ci cr) le k in
    let (b', j', there', from', below') =
      brace_loop-Decides f passes (before b',' (y ∷ temp)) (after b',' (y ∷ temp)) remain lo j d
        (Clean-before b',' (y ∷ temp) ct) (Clean-after b',' (y ∷ temp) ct) cr
        (omega (arith, length-after b',' y temp)) (omega arith) below in
    elim (Bool-cases b) [
      | inl e ↦ (true, j, rw (isempty-cons x item, there) (rw e), from, below)
      | inr e ↦ (
        b',
        j',
        rw (isempty-cons x item, there)
            (rw e (rw (str_split_char-parts (y ∷ temp) b',' (omega arith)) there')),
        omega arith,
        below',
      )
    ]

length-after_le : (c : ℕ) (s : Bytes) → length (after c s) ≤ length s
length-after_le c [] = unfold after in omega arith
length-after_le c (x ∷ s) = omega (arith, length-after c x s)

braces-Decides :
    (passes : Bytes → ℕ → Run (Bool × ℕ)) (filter : Bytes) (i : ℕ)
    → DecidesFrom i passes
    → Clean filter
    → i ≤ iters_max
    → Decides i (braces passes filter i)
unfolding braces
braces-Decides passes filter i d c k =
    let list = before b'}' filter in
    let cl = Clean-before b'}' filter c in
    let (b, j, there, from, below) =
      brace_loop-Decides (suc (length list)) passes (before b',' list) (after b',' list)
        (after b'}' filter) i i d (Clean-before b',' list cl) (Clean-after b',' list cl)
        (Clean-after b'}' filter c) (omega (arith, length-after_le b',' list)) (omega arith) k in
    (
      b,
      j,
      rw (str_split_char-parts filter b'}' (omega arith))
          (rw (str_split_char-parts list b',' (omega arith)) there),
      from,
      below,
    )

-- What the loop does with every filter without NUL, from a count on.
abbrev LoopDecides : ℕ → Loop → Type 0
LoopDecides lo loop =
    (g name : Bytes) (must : Bool) (token i : ℕ)
    → Clean g
    → lo ≤ i
    → i ≤ iters_max
    → Decides i (loop g name must token i)

module _ (loop : Loop) (i : ℕ) (d : LoopDecides i loop) (k : i ≤ iters_max) where
  question-Decides : (name rest : Bytes) → Clean rest → Decides i (question loop name rest i)
  unfolding question
  question-Decides name rest c = elim (Bool-cases (str_isempty name)) [
    | inl e ↦ (false, i, rw e, omega arith, k)
    | inr e ↦
        let t = take (length name - 1) (drop (length name - (length name - 1)) name) in
        let (b, j, there, from, below) = d rest t true b'?' i c (omega arith) k in
        (b, j, rw e (rw (right_lem name (length name - 1) (omega arith)) there), from, below)
  ]

  first_char : (name : Bytes) → str_isempty name ≡ false → 0 < length name
  unfolding str_isempty
  first_char [] e = cc
  first_char (x ∷ s) e = omega arith

  open_brace-Decides : (name rest : Bytes) → Clean rest → Decides i (open_brace loop name rest i)
  unfolding open_brace str_get_char_at
  open_brace-Decides name rest c = elim (Bool-cases (str_isempty name)) [
    | inl e ↦ (false, i, rw e, omega arith, k)
    | inr e ↦
        let pos = first_char name e in
        let t = take (length name - 1) (drop (length name - (length name - 1)) name) in
        let (b, j, there, from, below) = d rest t true b'{' i c (omega arith) k in
        elim (Bool-cases (get_or name 0 0 == b'{')) [
          | inl e' ↦ (
            b,
            j,
            rw (e, lt→leb (length name) 0 pos)
                (rw e' (rw (right_lem name (length name - 1) (omega arith)) there)),
            from,
            below,
          )
          | inr e' ↦ (false, i, rw (e, lt→leb (length name) 0 pos) (rw e'), omega arith, k)
        ]
  ]

  brace-Decides : (name rest : Bytes) → Clean rest → Decides i (brace loop name rest i)
  unfolding brace
  brace-Decides name rest c = elim (Bool-cases (str_locate_char rest b'}').found) [
    | inl e ↦ rw e (
        braces-Decides (λ g j. loop g name true 0 j) rest i
          (λ g j cg from below. d g name true 0 j cg from below) c k)
    | inr e ↦ rw e (open_brace-Decides name rest c)
  ]

  next_token-Decides :
      (o : Option Bytes) (rest : Bytes) (token : ℕ)
      → Clean rest
      → Decides i (next_token loop o rest token i)
  unfolding next_token
  next_token-Decides none rest token c = (false, i, refl, omega arith, k)
  next_token-Decides (some name) rest token c = elim (Bool-cases (token == b'?')) [
    | inl e ↦ rw e (question-Decides name rest c)
    | inr e ↦ rw e (elim (Bool-cases (token == b'{')) [
      | inl e' ↦ rw e' (brace-Decides name rest c)
      | inr e' ↦ rw e' (d rest name false token i c (omega arith) k)
    ])
  ]

filter_round-Decides :
    (loop : Loop) (filter name : Bytes) (must : Bool) (i : ℕ)
    → LoopDecides (suc i) loop
    → Clean filter
    → i < iters_max
    → Decides i (filter_round loop filter name must i)
unfolding filter_round
filter_round-Decides loop filter name must i d c k =
    let (needed, rest, token, cut, cn, cr) = next_piece-ok filter c in
    let (o, matched) = match_needed-ok name needed must cn in
    let (b, j, there, from, below) =
      next_token-Decides loop (suc i) d (omega arith) o rest token cr in
    (b, j, rw cut (rw matched there), omega arith, below)

-- What follows the loop keeps the count.
finish-Decides : (name : Bytes) (token i : ℕ) → i ≤ iters_max → Decides i (ok (finish name token i))
unfolding finish
finish-Decides name token i k = elim (Bool-cases (ltb 0 (length name) && not (token == b'*'))) [
  | inl e ↦ (false, i, rw e, omega arith, k)
  | inr e ↦ (not (i == iters_max), i, rw e, omega arith, k)
]

more : (i : ℕ) (b : Bool) → (not b && ltb i iters_max) ≡ true → i < iters_max
more i true e = cc
more i false e = ltb→lt i iters_max e

filter_loop-Decides :
    (f : ℕ) (filter name : Bytes) (must : Bool) (token i : ℕ)
    → Clean filter
    → i ≤ iters_max
    → iters_max < f + i
    → Decides i (filter_loop f filter name must token i)
unfolding filter_loop
filter_loop-Decides zero filter name must token i c k h = absurd (omega arith)
filter_loop-Decides (suc f) filter name must token i c k h =
    elim (Bool-cases (not (str_isempty filter) && ltb i iters_max)) [
      | inl e ↦ rw e (
          filter_round-Decides (filter_loop f) filter name must i
            (λ g n m t j cg from below. filter_loop-Decides f g n m t j cg below (omega arith)) c
            (more i (str_isempty filter) e))
      | inr e ↦ rw e (finish-Decides name token i k)
    ]

-- For every name, every filter without NUL and every count up to the bound, the filter returns an
-- answer and a count that has not fallen and is within the bound; it reaches no `bug`.
pub passes_filter-Decides :
    (name filter : Bytes) (i : ℕ)
    → Clean filter
    → i ≤ iters_max
    → Decides i (vsf_filename_passes_filter name filter i)
unfolding vsf_filename_passes_filter
passes_filter-Decides name filter i c k =
    filter_loop-Decides (suc iters_max) filter name true 0 i c k (omega arith)

-- The settings are C strings, or not there.
abbrev pub CleanSetting : Option Bytes → Type 0
CleanSetting none = Unit {0}
CleanSetting (some names) = Clean names

pub access_check-ok :
    (setting : Option Bytes) (name : Bytes)
    → CleanSetting setting
    → (b : Bool) × (vsf_access_check_file setting name ≡ ok b)
unfolding vsf_access_check_file
access_check-ok none name c = (true, refl)
access_check-ok (some names) name c =
    let (b, i, e, lo, hi) = passes_filter-Decides name names 0 c (omega arith) in
    (not (b || (str_locate_str name names).found), rw e refl)
