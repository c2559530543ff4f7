-- ===== src/Str/Cut/Laws.antt =====
-- What the pieces, the padding and the replacement of characters keep.
use dragonsunited_minecraft.Base.{
  ℕ, zero, suc, ◌-◌, ◌≤◌, true, false, [], ◌∷◌, ◌++◌, ◌≡◌, inl, inr, refl, sym, ◌∙◌, arith, leb,
  length, drop, replicate, append-nil, append_assoc, Bytes, Bool-cases, le→ltb, leb→le, take_all,
  length-drop, take-append-drop,
}
use dragonsunited_minecraft.Run.{ok, ◌>>=◌}
use dragonsunited_minecraft.Str.Cut.{
  str_left, str_mid_to_end, pad_loop, str_lpad, str_rpad, str_contains_unprintable,
  str_replace_unprintable,
}
use dragonsunited_minecraft.Sysutil.{vsf_sysutil_isprint}

-- At a position inside a string both pieces are returned, and together they are the string.
pub left-mid_to_end :
    (s : Bytes) (i : ℕ)
    → i ≤ length s
    → (do a ← str_left s i; b ← str_mid_to_end s i; ok (a ++ b)) ≡ ok s
unfolding str_left str_mid_to_end
left-mid_to_end s i h = rw (
  le→ltb (length s) i h,
  take_all (length s - i) (drop i s) (omega (arith, length-drop i s)),
  take-append-drop i s,
)

pad_loop-replicate : (n : ℕ) (s : Bytes) → pad_loop n s ≡ s ++ replicate n b' '
unfolding pad_loop
pad_loop-replicate zero s = sym (append-nil s)
pad_loop-replicate (suc n) s =
    pad_loop-replicate n (s ++ b' ' ∷ []) ∙ append_assoc s (b' ' ∷ []) (replicate n b' ')

no_padding : (s : Bytes) (w : ℕ) → w ≤ length s → w - length s ≡ 0
no_padding s w h = omega arith

-- The padded strings are the string with spaces up to the width, in front and behind.
pub pads-replicate :
    (s : Bytes) (w : ℕ)
    → (str_lpad s w ≡ replicate (w - length s) b' ' ++ s)
      × (str_rpad s w ≡ s ++ replicate (w - length s) b' ')
unfolding str_lpad str_rpad
pads-replicate s w = elim (Bool-cases (leb w (length s))) [
  | inl e ↦ rw (e, no_padding s w (leb→le _ _ e)) (refl, sym (append-nil s))
  | inr e ↦
      rw (e, pad_loop-replicate (w - length s) [], pad_loop-replicate (w - length s) s) (refl, refl)
]

-- With a printable character the replacement leaves no unprintable one, and the length.
pub replace_unprintable-contains :
    (s : Bytes) (c : ℕ)
    → vsf_sysutil_isprint c ≡ true
    → (str_contains_unprintable (str_replace_unprintable s c) ≡ false)
      × (length (str_replace_unprintable s c) ≡ length s)
unfolding str_contains_unprintable str_replace_unprintable
replace_unprintable-contains [] c h = (refl, refl)
replace_unprintable-contains (x ∷ s) c h =
    let (p, q) = replace_unprintable-contains s c h in
    elim (Bool-cases (vsf_sysutil_isprint x)) [
      | inl e ↦ rw (e, e, p, q) (refl, refl)
      | inr e ↦ rw (e, h, p, q) (refl, refl)
    ]
