-- ===== src/Postlogin/Data/Active.antt =====
-- postlogin.c, `port_active` and `pasv_active`, which ask each other.
use dragonsunited_minecraft.Base.{
  ℕ, zero, suc, Bool, true, false, ◌&&◌, ◌||◌, ◌≡◌, inl, inr, refl, Bool-cases,
}
use dragonsunited_minecraft.Postlogin.Data.{is_set, port_active, pasv_active, either_active}
use dragonsunited_minecraft.Run.{ok, stop, out_of_fuel}
use dragonsunited_minecraft.Session.{Tunables, Host, Session}

-- Both are active, which the commands never leave behind.
abbrev pub both : Session → Bool
both s = s.pasv_listening && is_set s.port_sockaddr

port_active_round :
    (f : ℕ) (s : Session)
    → s.pasv_listening ≡ true
    → is_set s.port_sockaddr ≡ true
    → (port_active f s ≡ stop out_of_fuel) × (pasv_active f s ≡ stop out_of_fuel)
unfolding port_active pasv_active
port_active_round zero s p q = (refl, refl)
port_active_round (suc f) s p q =
    let (a, b) = port_active_round f s p q in (rw b (rw q refl), rw a (rw p refl))

-- Where a passive socket listens and an address of the client is kept, the question whether one is
-- active goes back and forth: no depth of calls is enough, and no `bug` is reached.
pub either_active_both :
    (f : ℕ) (s : Session)
    → both s ≡ true
    → (port_active f s ≡ stop out_of_fuel) × (pasv_active f s ≡ stop out_of_fuel)
either_active_both f s h = elim (Bool-cases s.pasv_listening) [
  | inl p ↦ elim (Bool-cases (is_set s.port_sockaddr)) [
    | inl q ↦ port_active_round f s p q
    | inr q ↦ cc
  ]
  | inr p ↦ cc
]

pub pasv_active_lem :
    (f : ℕ) (s : Session) → both s ≡ false → pasv_active (suc (suc f)) s ≡ ok s.pasv_listening
unfolding port_active pasv_active
pasv_active_lem f s h = elim (Bool-cases s.pasv_listening) [
  | inl p ↦ elim (Bool-cases (is_set s.port_sockaddr)) [ inl q ↦ cc | inr q ↦ rw p (rw q refl) ]
  | inr p ↦ rw p refl
]

port_active_lem :
    (f : ℕ) (s : Session)
    → both s ≡ false
    → port_active (suc (suc f)) s ≡ ok (is_set s.port_sockaddr)
unfolding port_active pasv_active
port_active_lem f s h = elim (Bool-cases (is_set s.port_sockaddr)) [
  | inl q ↦ elim (Bool-cases s.pasv_listening) [ inl p ↦ cc | inr p ↦ rw q (rw p refl) ]
  | inr q ↦ rw q refl
]

-- Where not both are active, the depth is enough, and the answer says whether one is.
pub either_active_lem :
    (t : Tunables) (h : Host) (s : Session)
    → both s ≡ false
    → either_active t h s ≡ ok (s.pasv_listening || is_set s.port_sockaddr)
unfolding either_active
either_active_lem t h s e = rw (pasv_active_lem 0 s e) (elim (Bool-cases s.pasv_listening) [
  | inl p ↦ rw p refl
  | inr p ↦ rw (port_active_lem 0 s e) (rw p refl)
])
