-- ===== src/Netstr/Line.antt =====
-- `str_netfd_alloc` against the bytes that are to come, however they arrive.
use dragonsunited_minecraft.Base.{
  ℕ, zero, suc, ◌+◌, ◌-◌, ◌≤◌, ◌<◌, true, false, [], ◌∷◌, ◌++◌, Option, none, some, ◌≡◌, ◌⊎◌, inl,
  inr, refl, sym, ap, ◌∙◌, arith, ◌==◌, length, take, drop, get_or, Bytes, ==_iff, le→ltb,
  length-append, length-take, length-drop, drop-drop, append_assoc,
}
use dragonsunited_minecraft.Run.{Run, ok, stop, die}
use dragonsunited_minecraft.Str.Text.Split.{before, after, has}
use dragonsunited_minecraft.Netstr.Search.{
  find_term-take, has-append, has-before, alloc_alt_term-found, line_taken, line_left, line_fits,
  get_or-last, has-behind, before-behind, after-behind, has-take, take-take, drop-take,
}
use dragonsunited_minecraft.Netstr.{
  Socket, Got, find_term, exactly, shown, take_line, netfd_round, netfd_loop, str_netfd_alloc,
}

-- A connection that shows and yields the bytes that are to come, in order. A look shows at least
-- one and takes none; nothing shows at the end of the stream or where the connection fails. What
-- has been shown can be read.
pub record Delivers {S : Type 0} (k : Socket S) (incoming : S → Bytes) : Type 0 where
  pub looks :
      (s : S) (n : ℕ)
      → 0 < n
      → 0 < length (incoming s)
      → (m : ℕ) × (0 < m)
        × (m ≤ n)
        × (m ≤ length (incoming s))
        × ((k.peek s n).0 ≡ some (take m (incoming s)))
  pub keeps : (s : S) (n : ℕ) → incoming (k.peek s n).1 ≡ incoming s
  pub ends :
      (s : S) (n : ℕ) → incoming s ≡ [] → ((k.peek s n).0 ≡ none) ⊎ ((k.peek s n).0 ≡ some [])
  pub yields :
      (s : S) (n : ℕ) → n ≤ length (incoming s) → (k.read s n).0 ≡ some (take n (incoming s))
  pub moves :
      (s : S) (n : ℕ) → n ≤ length (incoming s) → incoming (k.read s n).1 ≡ drop n (incoming s)

module _ {S : Type 0} where
  shown_lem :
      (p : Option Bytes × S) (c : ℕ) (cs : Bytes) → p.0 ≡ some (c ∷ cs) → shown p ≡ ok (c ∷ cs, p.1)
  shown_lem (none, s) c cs e = cc
  shown_lem (some [], s) c cs e = absurd (ground arith)
  shown_lem (some (x ∷ xs), s) c cs e = ground arith

  exactly_lem :
      (p : Option Bytes × S) (b : Bytes) (n : ℕ)
      → p.0 ≡ some b
      → length b ≡ n
      → exactly n p ≡ ok (b, p.1)
  exactly_lem (none, s) b n e h = cc
  exactly_lem (some x, s) b n e h =
      let xb : x ≡ b = cc in
      let full : (length x == n) ≡ true = (==_iff (length x) n).1 (ap length xb ∙ h) in
      rw (full, xb) refl

  seen :
      (p : Option Bytes × S) (m x : ℕ) (u : Bytes)
      → 0 < m
      → p.0 ≡ some (take m (x ∷ u))
      → shown p ≡ ok (take m (x ∷ u), p.1)
  seen p zero x u h e = absurd (omega arith)
  seen p (suc m) x u h e = shown_lem p x (take m u) e

  shown-dies : (p : Option Bytes × S) → (p.0 ≡ none) ⊎ (p.0 ≡ some []) → shown p ≡ stop die
  shown-dies (none, s) h = refl
  shown-dies (some [], s) h = refl
  shown-dies (some (x ∷ xs), s) (inl h) = cc
  shown-dies (some (x ∷ xs), s) (inr h) = absurd (ground arith)

-- The three ways in which the call ends: with the line, with -1 where the terminator is not among
-- the bytes that there is room for, and with `die` where the stream ends before that.
abbrev pub Ended : {S : Type 0} → (S → Bytes) → ℕ → Run (Got S) → Bytes → ℕ → Bytes → Type 0
Ended {S} incoming term result held left u =
    ((has term (take left u) ≡ true)
      × (i : ℕ) × (s' : S) × (result
          ≡ ok (record { retval = some i; str = held ++ before term u; socket = s' }))
      × (incoming s' ≡ after term u))
    ⊎ ((has term (take left u) ≡ false)
        × (left ≤ length u)
        × (s' : S) × (result ≡ ok (record { retval = none; str = []; socket = s' }))
        × (incoming s' ≡ drop left u))
    ⊎ ((has term (take left u) ≡ false) × (length u < left) × (result ≡ stop die))

module _ {S : Type 0} (k : Socket S) (incoming : S → Bytes) (d : Delivers k incoming)
    (term : ℕ) where
  exactly-yields :
      (s : S) (u : Bytes) (n : ℕ)
      → incoming s ≡ u
      → n ≤ length u
      → (exactly n (k.read s n) ≡ ok (take n u, (k.read s n).1))
        × (incoming (k.read s n).1 ≡ drop n u)
  exactly-yields s u n e h =
      let fits : n ≤ length (incoming s) = rw e h in
      let short : length (take n u) ≡ n = omega (arith, length-take {0} n u) in
      (
        exactly_lem (k.read s n) (take n u) n (d.yields s n fits ∙ ap (λ z. some (take n z)) e)
            short,
        d.moves s n fits ∙ ap (drop n) e,
      )

  take_line_lem :
      (held chunk u : Bytes) (s : S)
      → incoming s ≡ u
      → has term u ≡ true
      → has term held ≡ false
      → (s' : S) × (take_line k term held chunk s (length (before term u))
          ≡ ok (record {
            retval = some (length (before term u));
            str = held ++ before term u;
            socket = s';
          }))
        × (incoming s' ≡ after term u)
  take_line_lem held chunk u s e h clean =
      let i = length (before term u) in
      let (got, rest) = exactly-yields s u (suc i) e (line_fits term u h) in
      let p = before term u in
      let z = drop (suc i) chunk in
      let here : (get_or (take (suc i) u) i 0 == term) ≡ true =
        rw (line_taken term u h)
          ((==_iff (get_or (p ++ (term ∷ [])) i 0) term).1 (get_or-last p term)) in
      let buffer : held ++ (take (suc i) u ++ z) ≡ (held ++ p) ++ (term ∷ z) =
        rw (line_taken term u h) (simp append_assoc) in
      let line =
        alloc_alt_term-found term (held ++ p) z
          (has-append term held p clean (has-before term u)) in
      (
        (k.read s (suc i)).1,
        unfold take_line in rw got (rw here (rw buffer (rw line refl))),
        rest ∙ line_left term u h,
      )

  -- What is to come, the first `m` bytes of the rest being held back already.
  Ended-later :
      (r : Run (Got S)) (held u : Bytes) (m left : ℕ)
      → has term (take m u) ≡ false
      → m ≤ left
      → m ≤ length u
      → Ended incoming term r (held ++ take m u) (left - m) (drop m u)
      → Ended incoming term r held left u
  Ended-later r held u m left clear le fits ended =
      let clear' : has term (take m (take left u)) ≡ false = rw (take-take m left u le) clear in
      let same : has term (take left u) ≡ has term (take (left - m) (drop m u)) =
        has-behind term m (take left u) clear' ∙ ap (has term) (drop-take m left u) in
      let short = length-drop {0} m u in
      let join : (held ++ take m u) ++ before term (drop m u) ≡ held ++ before term u =
        rw (before-behind term m u clear) (simp append_assoc) in
      elim ended [
        | inl (h, i, s', e, rest) ↦
            inl (same ∙ h, i, s', rw (← join) e, rest ∙ sym (after-behind term m u clear))
        | inr (inl (h, n, s', e, rest)) ↦
            let sum : m + (left - m) ≡ left = omega arith in
            inr (inl (same ∙ h, omega arith, s', e, rest ∙ (drop-drop m (left - m) u ∙ rw sum)))
        | inr (inr (h, n, e)) ↦ inr (inr (same ∙ h, omega arith, e))
      ]

  looked :
      (s : S) (x : ℕ) (u : Bytes) (n : ℕ)
      → incoming s ≡ x ∷ u
      → 0 < n
      → (m : ℕ) × (m ≤ n)
        × (m ≤ length (x ∷ u))
        × (0 < m)
        × (shown (k.peek s n) ≡ ok (take m (x ∷ u), (k.peek s n).1))
        × (incoming (k.peek s n).1 ≡ x ∷ u)
  looked s x u n e h =
      let some_left : 0 < length (incoming s) = rw e (omega arith) in
      let (m, pos, le, fits, see) = d.looks s n h some_left in
      let see' : (k.peek s n).0 ≡ some (take m (x ∷ u)) = see ∙ ap (λ z. some (take m z)) e in
      (
        m,
        le,
        omega (arith, fits, ap length e),
        pos,
        seen (k.peek s n) m x u pos see',
        d.keeps s n ∙ e,
      )

  -- A round of the loop, by what it finds.
  loop-none :
      (maxlen f l m : ℕ) (held chunk : Bytes) (s s' s'' : S)
      → (length held + suc l == maxlen) ≡ true
      → shown (k.peek s (suc l)) ≡ ok (chunk, s')
      → find_term chunk term ≡ none
      → length chunk ≡ m
      → m ≤ suc l
      → exactly m (k.read s' m) ≡ ok (chunk, s'')
      → netfd_loop k term maxlen (suc f) held (suc l) s
        ≡ netfd_loop k term maxlen f (held ++ chunk) (suc l - m) s''
  unfolding netfd_loop
  loop-none maxlen f l m held chunk s s' s'' full see missing size le got = rw full (
      rw see (
        rw missing
          (unfold netfd_round in rw size (rw (le→ltb (suc l) m le) (rw got (rw size refl))))))

  loop-some :
      (maxlen f l i : ℕ) (held chunk : Bytes) (s s' : S)
      → (length held + suc l == maxlen) ≡ true
      → shown (k.peek s (suc l)) ≡ ok (chunk, s')
      → find_term chunk term ≡ some i
      → netfd_loop k term maxlen (suc f) held (suc l) s ≡ take_line k term held chunk s' i
  unfolding netfd_loop
  loop-some maxlen f l i held chunk s s' full see found =
      rw full (rw see (rw found (unfold netfd_round in refl)))

  loop-Ended :
      (maxlen f left : ℕ) (held u : Bytes) (s : S)
      → incoming s ≡ u
      → length held + left ≡ maxlen
      → left < f
      → has term held ≡ false
      → Ended incoming term (netfd_loop k term maxlen f held left s) held left u
  unfolding netfd_loop
  loop-Ended maxlen zero left held u s e room fuel clean = absurd (omega arith)
  loop-Ended maxlen (suc f) zero held u s e room fuel clean =
      let full : (length held + zero == maxlen) ≡ true =
        (==_iff (length held + zero) maxlen).1 room in
      rw full (inr (inl (unfold has in refl, omega arith, s, refl, e)))
  loop-Ended maxlen (suc f) (suc l) held [] s e room fuel clean =
      let full : (length held + suc l == maxlen) ≡ true =
        (==_iff (length held + suc l) maxlen).1 room in
      let dead = shown-dies (k.peek s (suc l)) (d.ends s (suc l) e) in
      inr (inr (unfold has in refl, omega arith, rw full (rw dead refl)))
  loop-Ended maxlen (suc f) (suc l) held (x ∷ u) s e room fuel clean =
      let full : (length held + suc l == maxlen) ≡ true =
        (==_iff (length held + suc l) maxlen).1 room in
      let (m, le, fits, pos, see, still) = looked s x u (suc l) e (omega arith) in
      let chunk = take m (x ∷ u) in
      let s' = (k.peek s (suc l)).1 in
      elim (find_term-take m (x ∷ u) term) [
        | inl (missing, same, clear) ↦
            let size : length chunk ≡ m = omega (arith, length-take {0} m (x ∷ u)) in
            let (got, rest) = exactly-yields s' (x ∷ u) m still fits in
            let s'' = (k.read s' m).1 in
            let again =
              loop-Ended maxlen f (suc l - m) (held ++ chunk) (drop m (x ∷ u)) s'' rest
                (omega (arith, size, length-append held chunk)) (omega arith)
                (has-append term held chunk clean clear) in
            let step = loop-none maxlen f l m held chunk s s' s'' full see missing size le got in
            rw step (
              Ended-later (netfd_loop k term maxlen f (held ++ chunk) (suc l - m) s'') held (x ∷ u)
                m (suc l) clear le fits again)
        | inr (found, lt, h) ↦
            let (s'', e', rest) = take_line_lem held chunk (x ∷ u) s' still h clean in
            let i = length (before term (x ∷ u)) in
            let step = loop-some maxlen f l i held chunk s s' full see found in
            inl (has-take term (suc l) (x ∷ u) h (omega arith), i, s'', step ∙ e', rest)
      ]

  -- A call for a line of a connection that delivers its bytes in order, however many of them a
  -- look shows: it returns the bytes before the first terminator, and takes the terminator too and
  -- no more, where that stands among the first `maxlen` bytes that are to come; it returns -1 and
  -- takes `maxlen` bytes where it does not; it ends in `die` where the stream ends before either.
  pub netfd_alloc-Ended :
      (maxlen : ℕ) (s : S)
      → Ended incoming term (str_netfd_alloc k term maxlen s) [] maxlen (incoming s)
  unfolding str_netfd_alloc
  netfd_alloc-Ended maxlen s =
      loop-Ended maxlen (suc maxlen) maxlen [] (incoming s) s refl (omega arith) (omega arith)
        (unfold has in refl)
