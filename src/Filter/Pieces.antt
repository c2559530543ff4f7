-- ===== src/Filter/Pieces.antt =====
-- One piece of the filter: it is cut off without a `bug`, and so is what it matches.
use dragonsunited_minecraft.Base.{
  ℕ, zero, suc, ◌+◌, ◌-◌, ◌≤◌, ◌<◌, Bool, false, [], ◌∷◌, Option, none, some, ◌≡◌, ◌≢◌, inl, inr,
  refl, sym, ap, ◌∙◌, arith, ltb, ◌==◌, length, take, drop, Bytes, text, Bool-cases, Option-cases,
  le→ltb, length-drop, take_all,
}
use dragonsunited_minecraft.Run.{ok}
use dragonsunited_minecraft.Str.Cut.{str_left, str_right, str_mid_to_end}
use dragonsunited_minecraft.Str.Text.{str_isempty, str_locate_str, str_locate_chars}
use dragonsunited_minecraft.Str.Text.Clean.{
  Clean, Clean-c_text, Clean-take, Clean-drop, locate_chars-bound,
}
use dragonsunited_minecraft.Str.Text.Search.{
  first_match, located, str_locate_text-first_match, first_match-fits,
}
use dragonsunited_minecraft.Filter.{next_piece, scan_loop, match_needed}

pub mid_to_end_lem : (s : Bytes) (i : ℕ) → i ≤ length s → str_mid_to_end s i ≡ ok (drop i s)
unfolding str_mid_to_end
mid_to_end_lem s i h =
    rw (
      le→ltb (length s) i h,
      take_all (length s - i) (drop i s) (omega (arith, length-drop {0} i s)),
    )

pub left_lem : (s : Bytes) (i : ℕ) → i ≤ length s → str_left s i ≡ ok (take i s)
unfolding str_left
left_lem s i h = rw (le→ltb (length s) i h)

pub right_lem :
    (s : Bytes) (i : ℕ) → i ≤ length s → str_right s i ≡ ok (take i (drop (length s - i) s))
unfolding str_right
right_lem s i h = rw (le→ltb (length s) i h)

-- A piece of a filter without NUL is cut off, and both parts are without NUL.
pub next_piece-ok :
    (filter : Bytes)
    → Clean filter
    → (needed : Bytes) × (rest : Bytes) × (token : ℕ) × (next_piece filter
        ≡ ok (needed, (rest, token)))
      × Clean needed
      × Clean rest
unfolding next_piece
next_piece-ok filter h =
    let r = str_locate_chars filter (text "*?{") in
    elim (Bool-cases r.found) [
      | inl e ↦
          let inside = locate_chars-bound filter (text "*?{") e in
          (
            take r.index filter,
            drop (r.index + 1) filter,
            r.char_found,
            rw e (
                rw (
                  left_lem filter r.index (omega arith),
                  mid_to_end_lem filter (r.index + 1) (omega arith),
                )),
            Clean-take r.index filter h,
            Clean-drop (r.index + 1) filter h,
          )
      | inr e ↦ (filter, [], 0, rw e, h, tt)
    ]

locate_str_lem : (s t : Bytes) → Clean t → t ≢ [] → str_locate_str s t ≡ located (first_match t s)
unfolding str_locate_str
locate_str_lem s t h ne = rw (Clean-c_text t h) (str_locate_text-first_match s t ne)

pub length-ne_nil : (t : Bytes) → t ≢ [] → 0 < length t
length-ne_nil [] ne = absurd (ne refl)
length-ne_nil (x ∷ t) ne = omega arith

-- The scan ends at a place where the text fits into the whole.
scan_loop-ok :
    (f : ℕ) (scan needed : Bytes) (i n : ℕ)
    → Clean needed
    → needed ≢ []
    → length scan < f
    → i + length needed + length scan ≡ n
    → (j : ℕ) × (scan_loop f scan needed i ≡ ok j) × (j + length needed ≤ n)
unfolding scan_loop located
scan_loop-ok zero scan needed i n h ne k e = absurd (omega arith)
scan_loop-ok (suc f) scan needed i n h ne k e = elim (Option-cases (first_match needed scan)) [
  | inl m ↦ (i, rw (locate_str_lem scan needed h ne) (rw m), omega arith)
  | inr (p, m) ↦
      let fits = first_match-fits needed scan p m in
      let pos = length-ne_nil needed ne in
      let left = length-drop (p + length needed) scan in
      let (j, there, bound) =
        scan_loop-ok f (drop (p + length needed) scan) needed (i + (p + length needed)) n h ne
          (omega arith) (omega arith) in
      (
        j,
        rw (locate_str_lem scan needed h ne)
            (rw m (rw (mid_to_end_lem scan (p + length needed) fits) there)),
        bound,
      )
]

not_empty : (s : Bytes) → str_isempty s ≡ false → s ≢ []
unfolding str_isempty
not_empty s e q = cc (sym e ∙ ap (λ t. length t == 0) q)

-- The match of a piece without NUL is decided.
pub match_needed-ok :
    (name needed : Bytes) (must : Bool)
    → Clean needed
    → (o : Option Bytes) × (match_needed name needed must ≡ ok o)
unfolding match_needed located
match_needed-ok name needed must h = elim (Bool-cases (str_isempty needed)) [
  | inl e ↦ (some name, rw e)
  | inr e ↦
      let ne : needed ≢ [] = λ q. not_empty needed e q in
      elim (Option-cases (first_match needed name)) [
        | inl m ↦ (none, rw (e, locate_str_lem name needed h ne) (rw m))
        | inr (p, m) ↦
            let fits = first_match-fits needed name p m in
            let left = length-drop (p + length needed) name in
            let (j, there, bound) =
              scan_loop-ok (suc (length name)) (drop (p + length needed) name) needed p
                (length name) h ne (omega arith) (omega arith) in
            elim (Bool-cases must) [
              | inl b ↦ elim (Bool-cases (ltb 0 p)) [
                | inl l ↦ (none, rw (e, locate_str_lem name needed h ne) (rw (m, b) (rw l)))
                | inr l ↦ (
                  some (drop (p + length needed) name),
                  rw (e, locate_str_lem name needed h ne)
                      (rw (m, b) (rw l (rw (mid_to_end_lem name (p + length needed) fits)))),
                )
              ]
              | inr b ↦ (
                some (drop (j + length needed) name),
                rw (e, locate_str_lem name needed h ne)
                    (rw (m, b)
                      (rw (mid_to_end_lem name (p + length needed) fits)
                        (rw there (rw (mid_to_end_lem name (j + length needed) bound))))),
              )
            ]
      ]
]
