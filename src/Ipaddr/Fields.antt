-- ===== src/Ipaddr/Fields.antt =====
-- Lists of decimal numbers: the parse of each returns.
use dragonsunited_minecraft.Base.{
  ℕ, zero, suc, ◌<◌, not, [], ◌∷◌, ◌++◌, Option, none, some, ◌≡◌, inl, inr, refl, ◌==◌,
  if◌then◌else◌, Bytes, Bool-cases, Option-cases,
}
use dragonsunited_minecraft.Base.Int.{ℤ}
use dragonsunited_minecraft.Ipaddr.{in_uchar, sep_loop}
use dragonsunited_minecraft.Run.{ok}
use dragonsunited_minecraft.Str.Text.{c_text, str_isempty}
use dragonsunited_minecraft.Str.Text.Split.{before, after, str_split_char-parts}

pub sep_loop-ok :
    (atoi : Bytes → ℤ) (left : ℕ) (s : Bytes) (sep : ℕ) (items : Bytes)
    → 0 < sep
    → (o : Option Bytes) × (sep_loop atoi left s sep items ≡ ok o)
unfolding sep_loop
sep_loop-ok atoi zero s sep items h = (some items, refl)
sep_loop-ok atoi (suc left) s sep items h =
    let rest = after sep s in
    let bad = if left == 0 then not (str_isempty rest) else str_isempty rest in
    elim (Bool-cases bad) [
      | inl e ↦ (none, rw (str_split_char-parts s sep h) (rw e refl))
      | inr e ↦ elim (Option-cases (in_uchar (atoi (c_text (before sep s))))) [
        | inl n ↦ (none, rw (str_split_char-parts s sep h) (rw e (rw n refl)))
        | inr (k, n) ↦
            let (o, there) = sep_loop-ok atoi left rest sep (items ++ k ∷ []) h in
            (o, rw (str_split_char-parts s sep h) (rw e (rw n there)))
      ]
    ]
