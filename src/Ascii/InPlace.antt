-- ===== src/Ascii/InPlace.antt =====
-- The loop of `ascii_to_bin` over its own buffer.
use dragonsunited_minecraft.Base.{
  ℕ, zero, suc, ◌+◌, ◌-◌, ◌≤◌, ◌<◌, Bool, true, false, not, ◌&&◌, ◌||◌, [], ◌∷◌, ◌++◌, ◌≡◌, refl,
  sym, ap, ◌∙◌, arith, ◌==◌, length, drop, take, set, get_or, Bytes, append_assoc, append-nil, inl,
  inr, Bool-cases, length-append, ==_iff, length-set, length-drop,
}
use dragonsunited_minecraft.Ascii.Stream.{
  kept, plain_step, held_back_step, plain, held_back, flushed,
}
use dragonsunited_minecraft.Ascii.{
  cr, lf, BinLoop, put, bin_round, bin_loop, vsf_ascii_ascii_to_bin,
}

drop-set_lt : (b : Bytes) (i k v : ℕ) → i < k → drop k (set b i v) ≡ drop k b
drop-set_lt b i zero v h = absurd (omega arith)
drop-set_lt [] i (suc k) v h = refl
drop-set_lt (x ∷ b) zero (suc k) v h = refl
drop-set_lt (x ∷ b) (suc i) (suc k) v h = drop-set_lt b i k v (omega arith)

take-set-suc : (b : Bytes) (i v : ℕ) → i < length b → take (suc i) (set b i v) ≡ take i b ++ v ∷ []
take-set-suc [] i v h = absurd (omega arith)
take-set-suc (x ∷ b) zero v h = refl
take-set-suc (x ∷ b) (suc i) v h = ap (◌∷◌ x) (take-set-suc b i v (omega arith))

drop-suc : (i : ℕ) (s : Bytes) {x : ℕ} {u : Bytes} → drop i s ≡ x ∷ u → drop (suc i) s ≡ u
drop-suc zero [] h = cc
drop-suc zero (x ∷ s) h = cc
drop-suc (suc i) [] h = cc
drop-suc (suc i) (x ∷ s) h = drop-suc i s h

head-drop : (i : ℕ) (s : Bytes) {x : ℕ} {u : Bytes} → drop i s ≡ x ∷ u → get_or s i 0 ≡ x
head-drop zero [] h = cc
head-drop zero (x ∷ s) h = cc
head-drop (suc i) [] h = cc
head-drop (suc i) (x ∷ s) h = head-drop i s h

-- The input that is left, and room for it: what is written never passes what is read.
record Before (s : BinLoop) (in_len i : ℕ) (u : Bytes) : Type 0 where
  left : drop (suc i) s.buffer ≡ u
  size : length s.buffer ≡ suc in_len
  behind : s.out ≤ suc i
  not_cr : s.was_cr ≡ false

-- After the rounds `bytes` stand behind what was written, and the flag is `held`.
record Wrote (s t : BinLoop) (bytes : Bytes) (held : Bool) : Type 0 where
  output : take t.out t.buffer ≡ take s.out s.buffer ++ bytes
  out_moves : t.out ≡ s.out + length bytes
  counts : t.written ≡ s.written + length bytes
  flag : t.was_cr ≡ held

put-Wrote :
    (s : BinLoop) (c : ℕ)
    → s.out < length s.buffer
    → s.was_cr ≡ false
    → Wrote s (put s c) (c ∷ []) false
unfolding put
put-Wrote s c h f = record {
  output =
      ap (λ (k : ℕ). take k (set s.buffer s.out c))
        (let e : s.out + 1 ≡ suc s.out = omega arith in e)
      ∙ take-set-suc s.buffer s.out c h;
  out_moves = refl;
  counts = refl;
  flag = f;
}

put-Before :
    (s : BinLoop) (c in_len i : ℕ) (x : ℕ) (v : Bytes)
    → Before s in_len i (x ∷ v)
    → Before (put s c) in_len (suc i) v
unfolding put
put-Before s c in_len i x v b = record {
  left =
      drop-set_lt s.buffer s.out (suc (suc i)) c (omega arith) ∙ drop-suc (suc i) s.buffer b.left;
  size = length-set s.buffer s.out c ∙ b.size;
  behind = omega arith;
  not_cr = b.not_cr;
}

skip-Before :
    (s : BinLoop) (in_len i : ℕ) (x : ℕ) (v : Bytes)
    → Before s in_len i (x ∷ v)
    → Before s in_len (suc i) v
skip-Before s in_len i x v b = record {
  left = drop-suc (suc i) s.buffer b.left;
  size = b.size;
  behind = omega arith;
  not_cr = b.not_cr;
}

skip-Wrote : (s : BinLoop) → s.was_cr ≡ false → Wrote s s [] false
skip-Wrote s f = record {
  output = sym (append-nil _);
  out_moves = omega arith;
  counts = omega arith;
  flag = f;
}

-- A round that is not the last: the next byte of the input is `y`.
round_inner :
    (s : BinLoop) (in_len i x y : ℕ) (v : Bytes)
    → Before s in_len i (x ∷ y ∷ v)
    → Before (bin_round in_len i s) in_len (suc i) (y ∷ v)
      × Wrote s (bin_round in_len i s) (kept x (y == lf)) false
unfolding bin_round
round_inner s in_len i x y v b =
    let e0 : get_or s.buffer (i + 1) 0 ≡ x =
      ap (λ (k : ℕ). get_or s.buffer k 0) (let e : i + 1 ≡ suc i = omega arith in e)
      ∙ head-drop (suc i) s.buffer b.left in
    let e1 : get_or s.buffer (i + 2) 0 ≡ y =
      ap (λ (k : ℕ). get_or s.buffer k 0) (let e : i + 2 ≡ suc (suc i) = omega arith in e)
      ∙ head-drop (suc (suc i)) s.buffer (drop-suc (suc i) s.buffer b.left) in
    let sz = b.size in
    let inside : suc i < in_len =
      omega (arith, ap length b.left, length-drop {0} (suc i) s.buffer) in
    let inner : i == in_len - 1 ≡ false = ground arith in
    let room : s.out < length s.buffer = let k = b.behind in omega arith in
    rw (e0, e1, inner)
      (unfold kept in
        elim (Bool-cases (x == cr)) [
          | inr p ↦ rw p (put-Before s x in_len i x (y ∷ v) b, put-Wrote s x room b.not_cr)
          | inl p ↦ rw p (elim (Bool-cases (y == lf)) [
            | inr q ↦ rw q (put-Before s x in_len i x (y ∷ v) b, put-Wrote s x room b.not_cr)
            | inl q ↦ rw q (skip-Before s in_len i x (y ∷ v) b, skip-Wrote s b.not_cr)
          ])
        ])

-- The last round holds a carriage return back.
round_last :
    (s : BinLoop) (in_len i x : ℕ)
    → Before s in_len i (x ∷ [])
    → Wrote s (bin_round in_len i s) (plain (x ∷ [])) (x == cr)
unfolding bin_round
round_last s in_len i x b =
    let e0 : get_or s.buffer (i + 1) 0 ≡ x =
      ap (λ (k : ℕ). get_or s.buffer k 0) (let e : i + 1 ≡ suc i = omega arith in e)
      ∙ head-drop (suc i) s.buffer b.left in
    let sz = b.size in
    let here : i ≡ in_len - 1 = omega (arith, ap length b.left, length-drop {0} (suc i) s.buffer) in
    let last : i == in_len - 1 ≡ true = (==_iff _ _).1 here in
    let room : s.out < length s.buffer =
      let k = b.behind in omega (arith, ap length b.left, length-drop {0} (suc i) s.buffer) in
    rw (e0, last)
      (elim (Bool-cases (x == cr)) [
        | inr p ↦ rw p (unfold plain in rw p (put-Wrote s x room b.not_cr))
        | inl p ↦ rw p (
            unfold plain in
            rw p (record {
              output = sym (append-nil _);
              out_moves = omega arith;
              counts = omega arith;
              flag = refl;
            }))
      ])

Wrote-trans :
    {s t r : BinLoop} (xs ys : Bytes) {b c : Bool}
    → Wrote s t xs b
    → Wrote t r ys c
    → Wrote s r (xs ++ ys) c
Wrote-trans {s = s} {t = t} {r = r} xs ys v w = record {
  output =
      w.output ∙ ap (λ (z : Bytes). z ++ ys) v.output ∙ append_assoc (take s.out s.buffer) xs ys;
  out_moves = let a = v.out_moves in let b = w.out_moves in omega (arith, length-append {0} xs ys);
  counts = let a = v.counts in let b = w.counts in omega (arith, length-append {0} xs ys);
  flag = w.flag;
}

joined :
    {s t : BinLoop} (x y : ℕ) (u : Bytes)
    → Wrote s t (kept x (y == lf) ++ plain (y ∷ u)) (held_back (y ∷ u))
    → Wrote s t (plain (x ∷ y ∷ u)) (held_back (x ∷ y ∷ u))
joined x y u w = rw (plain_step x y u, held_back_step x y u) w

bin_loop-Wrote :
    (u : Bytes) (n : ℕ) (s : BinLoop) (in_len i : ℕ)
    → n ≡ length u
    → Before s in_len i u
    → Wrote s (bin_loop n in_len i s) (plain u) (held_back u)
unfolding bin_loop
bin_loop-Wrote [] zero s in_len i e b = unfold plain held_back in skip-Wrote s b.not_cr
bin_loop-Wrote [] (suc n) s in_len i e b = absurd (omega arith)
bin_loop-Wrote (x ∷ u) zero s in_len i e b = absurd (omega arith)
bin_loop-Wrote (x ∷ []) (suc zero) s in_len i e b = unfold held_back in round_last s in_len i x b
bin_loop-Wrote (x ∷ []) (suc (suc n)) s in_len i e b = absurd (omega arith)
bin_loop-Wrote (x ∷ y ∷ u) (suc n) s in_len i e b =
    let (b', w) = round_inner s in_len i x y u b in
    joined x y u (
      Wrote-trans (kept x (y == lf)) (plain (y ∷ u)) w
        (bin_loop-Wrote (y ∷ u) n (bin_round in_len i s) in_len (suc i) (omega arith) b'))

take-tail :
    (n : ℕ) (b : Bytes) {x : ℕ} {ys : Bytes} → take (suc n) b ≡ x ∷ ys → take n (drop 1 b) ≡ ys
take-tail n [] e = cc
take-tail n (z ∷ b) e = cc

flushed-true :
    (prev_cr : Bool) (input : Bytes)
    → (prev_cr && (length input == 0 || not (get_or (0 ∷ input) 1 0 == lf))) ≡ true
    → flushed prev_cr input ≡ cr ∷ []
flushed-true prev_cr [] e = ground arith
flushed-true prev_cr (x ∷ xs) e = ground arith

flushed-false :
    (prev_cr : Bool) (input : Bytes)
    → (prev_cr && (length input == 0 || not (get_or (0 ∷ input) 1 0 == lf))) ≡ false
    → flushed prev_cr input ≡ []
flushed-false prev_cr [] e = ground arith
flushed-false prev_cr (x ∷ xs) e = ground arith

-- The bytes that the function returns are what the last call held back, if no line feed follows
-- it, and the translation; the flag is whether a carriage return is held back again. In place, the
-- output never overtakes the input. The byte `p` before the input may be anything.
pub ascii_to_bin-plain :
    (p : ℕ) (input : Bytes) (prev_cr : Bool)
    → let (b, r) = vsf_ascii_ascii_to_bin (p ∷ input) (length input) prev_cr in
      (take r.stored (drop r.p_buf b) ≡ flushed prev_cr input ++ plain input)
      × (r.last_was_cr ≡ held_back input)
unfolding vsf_ascii_ascii_to_bin
ascii_to_bin-plain p input prev_cr =
    elim (Bool-cases (prev_cr && (length input == 0 || not (get_or (p ∷ input) 1 0 == lf)))) [
      | inl e ↦ rw e (
          let s : BinLoop = record { buffer = cr ∷ input; out = 1; written = 1; was_cr = false } in
          let w =
            bin_loop-Wrote input (length input) s (length input) 0 refl
              (record { left = refl; size = refl; behind = omega arith; not_cr = refl }) in
          let same : (bin_loop (length input) (length input) 0 s).written
              ≡ (bin_loop (length input) (length input) 0 s).out =
            let a = w.out_moves in let b = w.counts in omega arith in
          (rw (same, w.output) (rw (flushed-true prev_cr input e)), w.flag))
      | inr e ↦ rw e (
          let s : BinLoop = record { buffer = p ∷ input; out = 1; written = 0; was_cr = false } in
          let w =
            bin_loop-Wrote input (length input) s (length input) 0 refl
              (record { left = refl; size = refl; behind = omega arith; not_cr = refl }) in
          let t = bin_loop (length input) (length input) 0 s in
          let same : suc t.written ≡ t.out =
            let a = w.out_moves in let b = w.counts in omega arith in
          (
            rw (flushed-false prev_cr input e)
                (take-tail t.written t.buffer {x = p} (rw same w.output)),
            w.flag,
          ))
    ]
