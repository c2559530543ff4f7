-- ===== src/Str/Buffer/Memory.antt =====
-- Writes into a block: its length, and what a prefix of it holds afterwards.
use dragonsunited_minecraft.Base.{
  ℕ, zero, suc, ◌+◌, ◌≤◌, ◌<◌, [], ◌∷◌, ◌++◌, ◌≡◌, refl, arith, length, take, drop, set, get_or,
  length-append, length-take, length-drop, take-append_eq, append_assoc, Bytes,
}
use dragonsunited_minecraft.Str.Buffer.{write_at}

pub length-write_at :
    (b : Bytes) (off n : ℕ) (src : Bytes)
    → length src ≡ n
    → off + n ≤ length b
    → length (write_at b off src) ≡ length b
length-write_at b off n src e h = omega (
  arith,
  length-append {0} (take off b) (src ++ drop (off + length src) b),
  length-append {0} src (drop (off + length src) b),
  length-take {0} off b,
  length-drop {0} (off + length src) b,
)

-- The bytes before the written ones stay, and the written ones follow.
pub take-write_at :
    (b : Bytes) (off n : ℕ) (src : Bytes)
    → length src ≡ n
    → off + n ≤ length b
    → take (off + n) (write_at b off src) ≡ take off b ++ src
take-write_at b off n src e h =
    let front = take off b ++ src in
    let same : length front ≡ off + n =
      omega (arith, length-append {0} (take off b) src, length-take {0} off b) in
    rw (← append_assoc (take off b) src (drop (off + length src) b))
      (take-append_eq (off + n) front (drop (off + length src) b) same)

pub take-set : (b : Bytes) (i v : ℕ) → take i (set b i v) ≡ take i b
take-set [] i v = refl
take-set (x ∷ xs) zero v = refl
take-set (x ∷ xs) (suc i) v = rw (take-set xs i v)

pub get_or-set : (b : Bytes) (i v d : ℕ) → i < length b → get_or (set b i v) i d ≡ v
get_or-set [] i v d h = absurd (omega arith)
get_or-set (x ∷ xs) zero v d h = refl
get_or-set (x ∷ xs) (suc i) v d h = get_or-set xs i v d (omega arith)
