-- ===== src/Privsock/Wire.antt =====
-- What one end sends the other gets, and no more of the stream is read.
use dragonsunited_minecraft.Base.{
  ℕ, suc, ◌+◌, ◌-◌, ◌*◌, ◌/◌, ◌%◌, ◌^◌, ◌≤◌, ◌<◌, [], ◌∷◌, ◌++◌, ltb, false, if◌then◌else◌, length,
  Bytes, ◌≡◌, refl, ap, ◌∙◌, arith, append_assoc, le→ltb, lt→ltb, ltb→lt, ltb→le, ◌⊎◌, inl, inr,
  Bool-cases,
}
use dragonsunited_minecraft.Base.Int.{ℤ, pos, negsuc}
use dragonsunited_minecraft.Run.{ok, stop, die}
use dragonsunited_minecraft.Privsock.{
  Stream, sends, read_items, read_word, int_word, int_of, int_bytes, privsock_maxstr,
  priv_sock_send_int, priv_sock_send_str, priv_sock_get_int, priv_sock_get_str,
}

read_items-sends : (bs : Bytes) (r : Stream) → read_items (length bs) (sends bs ++ r) ≡ ok (bs, r)
unfolding read_items
read_items-sends [] r = refl
read_items-sends (b ∷ bs) r = rw (read_items-sends bs r) refl

digits :
    (w : ℕ)
    → w < 2 ^ 32
    → w % 256
        + 256 * ((w / 256) % 256)
        + 65536 * ((w / 65536) % 256)
        + 16777216 * ((w / 16777216) % 256)
      ≡ w
digits w h = omega arith

read_word-sends :
    (w : ℕ) (r : Stream) → w < 2 ^ 32 → read_word (sends (int_bytes w) ++ r) ≡ ok (w, r)
unfolding int_bytes read_word
read_word-sends w r h = rw (digits w h) refl

int_word-lt : (z : ℤ) → int_word z < 2 ^ 32
unfolding int_word
int_word-lt (pos n) = omega arith
int_word-lt (negsuc n) = omega arith

-- The numbers that an `int` holds.
abbrev pub IsInt : ℤ → Type 0
IsInt (pos n) = n < 2 ^ 31
IsInt (negsuc n) = n < 2 ^ 31

int_of-word : (z : ℤ) → IsInt z → int_of (int_word z) ≡ z
unfolding int_of int_word
int_of-word (pos n) h = let e : n % 2 ^ 32 ≡ n = omega arith in rw e (rw (lt→ltb n (2 ^ 31) h) refl)
int_of-word (negsuc n) h =
    let e : 2 ^ 32 - suc (n % 2 ^ 32) ≡ 2 ^ 32 - suc n = omega arith in
    let big : ltb (2 ^ 32 - suc n) (2 ^ 31) ≡ false =
      le→ltb (2 ^ 32 - suc n) (2 ^ 31) (omega arith) in
    let m : 2 ^ 32 - suc (2 ^ 32 - suc n) ≡ n = omega arith in rw e (rw big (ap negsuc m))

get_int-int_word :
    (q : Stream) (w : ℕ) (r : Stream)
    → read_word q ≡ ok (w, r)
    → priv_sock_get_int q ≡ ok (int_of w, r)
unfolding priv_sock_get_int
get_int-int_word q w r e = rw e refl

-- An `int` that one process sends is the one that the other gets.
pub get_int-send_int :
    (z : ℤ) (r : Stream) → IsInt z → priv_sock_get_int (priv_sock_send_int z [] ++ r) ≡ ok (z, r)
unfolding priv_sock_send_int
get_int-send_int z r h =
    get_int-int_word (priv_sock_send_int z [] ++ r) (int_word z) r
      (read_word-sends (int_word z) r (int_word-lt z))
    ∙ ap (λ i. ok (i, r)) (int_of-word z h)

length_word : (n : ℕ) → n < 2 ^ 31 → int_word (pos n) ≡ n
unfolding int_word
length_word n h = omega arith

get_str-int :
    (q r : Stream) (n : ℕ)
    → n < 2 ^ 31
    → priv_sock_get_int q ≡ ok (pos n, r)
    → priv_sock_get_str q ≡ (if ltb privsock_maxstr n then stop die else read_items n r)
unfolding priv_sock_get_str
get_str-int q r n h e = rw e (
    rw (length_word n h)
      (elim (Bool-cases (ltb privsock_maxstr n)) [ inl b ↦ rw b refl | inr b ↦ rw b refl ]))

get_str-sent :
    (s : Bytes) (r : Stream)
    → length s < 2 ^ 31
    → priv_sock_get_str (priv_sock_send_str s [] ++ r)
      ≡ (if ltb privsock_maxstr (length s) then stop die else ok (s, r))
unfolding priv_sock_send_str
get_str-sent s r k =
    let split = append_assoc (priv_sock_send_int (pos (length s)) []) (sends s) r in
    get_str-int (priv_sock_send_str s [] ++ r) (sends s ++ r) (length s) k
      (ap priv_sock_get_int split ∙ get_int-send_int (pos (length s)) (sends s ++ r) k)
    ∙ ap (λ x. if ltb privsock_maxstr (length s) then stop die else x) (read_items-sends s r)

-- A string that one process sends is the one that the other gets, as long as it is not longer than
-- the other allows; a longer one ends the process that is to get it. No more of the stream is read.
pub get_str-send_str :
    (s : Bytes) (r : Stream)
    → length s < 2 ^ 31
    → ((length s ≤ privsock_maxstr)
        × (priv_sock_get_str (priv_sock_send_str s [] ++ r) ≡ ok (s, r)))
      ⊎ ((privsock_maxstr < length s)
          × (priv_sock_get_str (priv_sock_send_str s [] ++ r) ≡ stop die))
get_str-send_str s r k = elim (Bool-cases (ltb privsock_maxstr (length s))) [
  | inl b ↦ inr (ltb→lt privsock_maxstr (length s) b, get_str-sent s r k ∙ rw b refl)
  | inr b ↦ inl (ltb→le privsock_maxstr (length s) b, get_str-sent s r k ∙ rw b refl)
]
