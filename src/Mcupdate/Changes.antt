-- ===== src/Mcupdate/Changes.antt =====
-- A line of the manual list that also changes a longer name.
use dragonsunited_minecraft.Base.{
  ℕ, suc, ◌<◌, List, [], ◌∷◌, ◌++◌, ◌≡◌, ◌≢◌, refl, sym, ap, ◌∙◌, arith, length, Bytes,
  append_assoc, length-append,
}
use dragonsunited_minecraft.Run.{ok}
use dragonsunited_minecraft.Mcupdate.{change_add}
use dragonsunited_minecraft.Str.Lines.{newline, str_contains_line}
use dragonsunited_minecraft.Str.Lines.Contains.{has_line, str_contains_line-has_line}
use dragonsunited_minecraft.Str.Lines.Join.{
  with_newlines, Free, AllFree, lines-with_newlines, has_line_head,
}
use dragonsunited_minecraft.Str.Text.Compare.{limit}
use dragonsunited_minecraft.Str.Text.Replace.{
  substituted, substituted-prefix, substituted-other, substituted_nil, str_replace_text-substituted,
}
use dragonsunited_minecraft.Str.Text.{c_text}

contains-lines :
    (ls : List Bytes) (line : Bytes)
    → AllFree ls
    → length (with_newlines ls) < limit
    → length line < limit
    → str_contains_line (with_newlines ls) line ≡ ok (has_line ls line)
contains-lines ls line h hs hl =
    str_contains_line-has_line (with_newlines ls) line hs hl
    ∙ ap (λ (z : List Bytes). ok (has_line z line)) (lines-with_newlines ls h)

c_text-Free : (s : Bytes) → Free 0 s → c_text s ≡ s
unfolding c_text
c_text-Free [] h = refl
c_text-Free (c ∷ s) h = ground (arith, c_text-Free s h.1)

Free-append : (d : ℕ) (s t : Bytes) → Free d s → Free d t → Free d (s ++ t)
Free-append d [] t h k = k
Free-append d (c ∷ s) t h k = (h.0, Free-append d s t h.1 k)

regroup : (n : Bytes) (c : ℕ) (t : Bytes) → (n ++ c ∷ []) ++ t ≡ n ++ (c ∷ t)
regroup n c t = simp append_assoc

abbrev pub two_lines : ℕ → Bytes → ℕ → List Bytes
two_lines mark n c = (mark ∷ n) ∷ (mark ∷ (n ++ c ∷ [])) ∷ []

substituted-two_lines :
    (m : ℕ) (n : Bytes) (c : ℕ)
    → c ≢ m
    → newline ≢ m
    → substituted (m ∷ n) (b'*' ∷ n) 0 (with_newlines (two_lines m n c))
      ≡ with_newlines (two_lines b'*' n c)
substituted-two_lines m n c ne nl =
    let f = m ∷ n in
    let t = b'*' ∷ n in
    substituted-prefix m n t (newline ∷ (m ∷ ((n ++ c ∷ []) ++ newline ∷ [])))
    ∙ ap (◌++◌ t) (
        substituted-other m n t newline (m ∷ ((n ++ c ∷ []) ++ newline ∷ [])) nl
        ∙ ap (◌∷◌ newline) (
            ap (λ (z : Bytes). substituted f t 0 (m ∷ z)) (regroup n c (newline ∷ []))
            ∙ substituted-prefix m n t (c ∷ newline ∷ [])
            ∙ ap (◌++◌ t) (
                substituted-other m n t c (newline ∷ []) ne
                ∙ ap (◌∷◌ c) (
                    substituted-other m n t newline [] nl ∙ ap (◌∷◌ newline) (substituted_nil f t)))
            ∙ ap (◌∷◌ b'*') (sym (regroup n c (newline ∷ [])))))

-- The substring search of `str_replace_text` does not keep to lines: where a file `n` and a file
-- whose name is `n` and one more byte are both marked as removed, a `+` for `n` marks both as
-- changed.
pub change_add_hits_longer :
    (n : Bytes) (c : ℕ)
    → Free newline n
    → Free 0 n
    → c ≢ newline
    → c ≢ b'-'
    → length (with_newlines (two_lines b'-' n c)) < limit
    → change_add (with_newlines (two_lines b'-' n c)) n ≡ ok (with_newlines (two_lines b'*' n c))
unfolding change_add
change_add_hits_longer n c h z nl minus short =
    let ls = two_lines b'-' n c in
    let m : newline ≢ b'-' = omega arith in
    let free : AllFree ls =
      ((omega arith, h), ((omega arith, Free-append newline n (c ∷ []) h (nl, tt)), tt)) in
    let fits : suc (length n) < limit =
      omega (arith, length-append {0} n (newline ∷ ((b'-' ∷ (n ++ c ∷ [])) ++ newline ∷ []))) in
    rw
      (
        contains-lines ls (b'-' ∷ n) free short fits,
        contains-lines ls (b'+' ∷ n) free short fits,
        contains-lines ls (b'*' ∷ n) free short fits,
        has_line_head (b'-' ∷ n) ((b'-' ∷ (n ++ c ∷ [])) ∷ []),
        c_text-Free (b'-' ∷ n) (omega arith, z),
        c_text-Free (b'*' ∷ n) (omega arith, z),
      )
      (str_replace_text-substituted (with_newlines ls) (b'-' ∷ n) (b'*' ∷ n) (λ e. cc)
        ∙ ap ok (substituted-two_lines b'-' n c minus m))
