-- ===== src/Standalone/Sessions.antt =====
-- The sessions that are under way, as a list of process ids with their addresses, newest first.
use dragonsunited_minecraft.Base.{
  ℕ, suc, ◌≤◌, Bool, true, false, [], ◌∷◌, some, ◌≡◌, inl, inr, refl, ap, arith, ◌==◌,
  if◌then◌else◌, length, Bool-cases, Bytes, bytes_eq,
}
use dragonsunited_minecraft.Hash.{Chain, find, unlink}
use dragonsunited_minecraft.Standalone.{pid_key, ip_key}

abbrev pub Sessions : Type 0
Sessions = Chain ℕ Bytes

-- How many sessions an address has.
abbrev pub tally : Bytes → Sessions → ℕ
tally a [] = 0
tally a ((p, b) ∷ l) = let rest = tally a l in if bytes_eq a b then suc rest else rest

pub tally-le-length : (a : Bytes) (l : Sessions) → tally a l ≤ length l
tally-le-length a [] = omega arith
tally-le-length a ((p, b) ∷ l) = ground (arith, tally-le-length a l)

pub length-unlink :
    (p : ℕ) (l : Sessions) {ip : Bytes} → find p l ≡ some ip → suc (length (unlink p l)) ≡ length l
unfolding find unlink
length-unlink p [] e = cc
length-unlink p ((q, b) ∷ l) e = elim (Bool-cases (p == q)) [
  | inl h ↦ rw h
  | inr h ↦ rw h (ap suc (length-unlink p l (rw h at e)))
]

exchange :
    (x y : Bool) (n : ℕ)
    → (if x then suc (if y then suc n else n) else (if y then suc n else n))
      ≡ (if y then suc (if x then suc n else n) else (if x then suc n else n))
exchange true true n = refl
exchange true false n = refl
exchange false true n = refl
exchange false false n = refl

-- A session that ends is one less for its address and none less for any other.
pub tally-unlink :
    (p : ℕ) (a : Bytes) (l : Sessions) {ip : Bytes}
    → find p l ≡ some ip
    → tally a l ≡ (if bytes_eq a ip then suc (tally a (unlink p l)) else tally a (unlink p l))
unfolding find unlink
tally-unlink p a [] e = cc
tally-unlink p a ((q, b) ∷ l) {ip} e = elim (Bool-cases (p == q)) [
  | inl h ↦ rw h (rw (let s : b ≡ ip = ground arith in s) refl)
  | inr h ↦ rw h (
      rw (tally-unlink p a l (rw h at e))
        (exchange (bytes_eq a b) (bytes_eq a ip) (tally a (unlink p l))))
]
