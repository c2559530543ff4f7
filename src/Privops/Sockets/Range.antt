-- ===== src/Privops/Sockets/Range.antt =====
-- The passive port lies in the range that is configured.
use dragonsunited_minecraft.Base.{
  ℕ, zero, suc, ◌+◌, ◌-◌, ◌*◌, ◌/◌, ◌%◌, ◌^◌, ◌≤◌, ◌<◌, true, false, List, [], ◌∷◌, ltb, some, ◌≡◌,
  ◌⊎◌, inl, inr, refl, sym, ap, ◌∙◌, arith, Bool-cases,
}
use native.Mathlib.Nat.{div-lt_iff_lt-mul, mul-le-mul_right}
use dragonsunited_minecraft.Run.{Run, ok, stop, die}
use dragonsunited_minecraft.Privops.Sockets.{
  Settings, Os, Priv, Call, socket, bind, listen, random, Answer, fine, address_in_use,
  access_denied, failed, is_fine, is_busy, call, lowest_port, highest_port, scaled_port, drawn,
  bind_and_listen, pasv_tries, vsf_privop_pasv_listen,
}

module _ (os : Os) (t : Settings) where
  pub lowest-InRange : (1024 ≤ lowest_port os t) × (lowest_port os t ≤ 65535)
  unfolding lowest_port
  lowest-InRange = ground arith

  pub highest-InRange : (lowest_port os t ≤ highest_port os t) × (highest_port os t ≤ 65535)
  unfolding highest_port
  highest-InRange = let (a, b) = lowest-InRange in ground arith

scaled_lt : (x w : ℕ) → x < 65536 → 0 < w → x * w / 65536 < w
scaled_lt x w h pos =
    let n : 65535 * w < w * 65536 = omega arith in
    let m : x * w ≤ 65535 * w = mul-le-mul_right w (omega arith) in
    (div-lt_iff_lt-mul (omega arith)).1 (omega arith)

module _ (os : Os) (t : Settings) where
  scaled-InRange :
      (x : ℕ)
      → x < 65536
      → (lowest_port os t ≤ scaled_port os t x) × (scaled_port os t x ≤ highest_port os t)
  unfolding scaled_port
  scaled-InRange x h =
      let (a, b) = highest-InRange os t in
      let q = scaled_lt x (highest_port os t - lowest_port os t + 1) h (omega arith) in
      (omega arith, omega arith)

  -- The socket listens at the port: the two last calls were to bind it and to listen, and went well.
  abbrev pub Listens : ℕ → ℕ → List Call → Type 0
  Listens s port calls =
      (before : List Call) × (calls ≡ listen s ∷ bind s port ∷ before)
      × (os.bind before port ≡ fine)
      × (os.listen (bind s port ∷ before) ≡ fine)

  fine-case : (a : Answer) → is_fine a ≡ true → a ≡ fine
  fine-case fine e = refl
  fine-case address_in_use e = cc
  fine-case access_denied e = cc
  fine-case failed e = cc

  bound-eq :
      (s port : ℕ) (p : Priv)
      → is_fine (os.bind p.calls port) ≡ true
      → bind_and_listen os t s port p
        ≡ (os.listen (bind s port ∷ p.calls), call (listen s) (call (bind s port) p))
  unfolding bind_and_listen
  bound-eq s port p e = rw e refl

  unbound-eq :
      (s port : ℕ) (p : Priv)
      → is_fine (os.bind p.calls port) ≡ false
      → bind_and_listen os t s port p ≡ (os.bind p.calls port, call (bind s port) p)
  unfolding bind_and_listen
  unbound-eq s port p e = rw e refl

  -- A try that goes well has the socket listen.
  try-Listens :
      (s port : ℕ) (p : Priv)
      → is_fine (bind_and_listen os t s port p).0 ≡ true
      → Listens s port (bind_and_listen os t s port p).1.calls
  try-Listens s port p e = elim (Bool-cases (is_fine (os.bind p.calls port))) [
    | inl b ↦
        let r = bound-eq s port p b in
        (
          p.calls,
          ap (λ z. z.1.calls) r,
          fine-case (os.bind p.calls port) b,
          fine-case (os.listen (bind s port ∷ p.calls)) (sym (ap (λ z. is_fine z.0) r) ∙ e),
        )
    | inr b ↦
        let r : is_fine (os.bind p.calls port) ≡ true =
          sym (ap (λ z. is_fine z.0) (unbound-eq s port p b)) ∙ e in
        absurd (ground arith)
  ]

  try-keeps_fd :
      (s port : ℕ) (p : Priv) → (bind_and_listen os t s port p).1.pasv_listen_fd ≡ p.pasv_listen_fd
  try-keeps_fd s port p = elim (Bool-cases (is_fine (os.bind p.calls port))) [
    | inl b ↦ ap (λ z. z.1.pasv_listen_fd) (bound-eq s port p b)
    | inr b ↦ ap (λ z. z.1.pasv_listen_fd) (unbound-eq s port p b)
  ]

  pub drawn-InRange :
      (p : Priv) → (lowest_port os t ≤ (drawn os t p).0) × ((drawn os t p).0 ≤ highest_port os t)
  drawn-InRange p =
      let high = os.random p.calls in
      let low = os.random (random ∷ p.calls) in
      scaled-InRange (((high % 2 ^ 8) * 2 ^ 8) % 2 ^ 16 + low % 2 ^ 8) (omega arith)

  -- The calls of `bind`.
  abbrev pub binds : List Call → ℕ
  binds [] = 0
  binds (bind s port ∷ calls) = suc (binds calls)
  binds (_ ∷ calls) = binds calls

  try-binds :
      (s port : ℕ) (p : Priv) → binds (bind_and_listen os t s port p).1.calls ≡ suc (binds p.calls)
  try-binds s port p = elim (Bool-cases (is_fine (os.bind p.calls port))) [
    | inl b ↦ ap (λ z. binds z.1.calls) (bound-eq s port p b)
    | inr b ↦ ap (λ z. binds z.1.calls) (unbound-eq s port p b)
  ]

  -- The port is in the range of the ports that are not reserved. It is not below `pasv_min_port`,
  -- unless that is above it, and not above `pasv_max_port`, unless that is below this
  -- range or below a `pasv_min_port` that is not above it.
  abbrev pub InRange : ℕ → Type 0
  InRange port =
      (1024 ≤ port)
      × (port ≤ 65535)
      × ((t.pasv_min_port ≤ port) ⊎ (65535 < t.pasv_min_port))
      × ((port ≤ t.pasv_max_port)
          ⊎ ((t.pasv_max_port < 1024)
              ⊎ ((t.pasv_max_port < t.pasv_min_port) × (t.pasv_min_port ≤ 65535))))

  above_min :
      (port : ℕ) → lowest_port os t ≤ port → (t.pasv_min_port ≤ port) ⊎ (65535 < t.pasv_min_port)
  unfolding lowest_port
  above_min port h = elim (Bool-cases (ltb 65535 t.pasv_min_port)) [
    | inl e ↦ inr (ground arith)
    | inr e ↦ inl (ground arith)
  ]

  below_max :
      (port : ℕ)
      → port ≤ highest_port os t
      → (port ≤ t.pasv_max_port)
        ⊎ ((t.pasv_max_port < 1024)
            ⊎ ((t.pasv_max_port < t.pasv_min_port) × (t.pasv_min_port ≤ 65535)))
  unfolding lowest_port highest_port
  below_max port h = elim (Bool-cases (ltb t.pasv_max_port port)) [
    | inr e ↦ inl (ground arith)
    | inl e ↦ elim (Bool-cases (ltb t.pasv_max_port 1024)) [
      | inl k ↦ inr (inl (ground arith))
      | inr k ↦ inr (inr (ground arith, ground arith))
    ]
  ]

  -- The socket listens at a port of the range, unless the process has ended.
  abbrev pub ListensOrDies : ℕ → ℕ → Run (ℕ × Priv) → Type 0
  ListensOrDies s most r =
      (r ≡ stop die)
      ⊎ ((port : ℕ) × (p : Priv) × (r ≡ ok (port, p))
          × InRange port
          × (binds p.calls ≤ most)
          × (p.pasv_listen_fd ≡ some s)
          × Listens s port p.calls)

  tries-ListensOrDies :
      (n s most : ℕ) (p : Priv)
      → p.pasv_listen_fd ≡ some s
      → binds p.calls + n ≤ most
      → ListensOrDies s most (pasv_tries os t n s p)
  unfolding pasv_tries
  tries-ListensOrDies zero s most p h k = inl refl
  tries-ListensOrDies (suc n) s most p h k =
      let (port, p') = drawn os t p in
      let (answer, p'') = bind_and_listen os t s port p' in
      let fd = try-keeps_fd s port p' ∙ h in
      let tried = try-binds s port p' in
      elim (Bool-cases (is_fine answer)) [
        | inl e ↦
            let (low, high) = drawn-InRange p in
            let (floor, _) = lowest-InRange os t in
            let (_, ceiling) = highest-InRange os t in
            let range : InRange port =
              (omega arith, omega arith, above_min port low, below_max port high) in
            inr (port, p'', rw e refl, range, omega arith, fd, try-Listens s port p' e)
        | inr e ↦ elim (Bool-cases (is_busy answer)) [
          | inl b ↦ rw (e, b) (tries-ListensOrDies n s most p'' fd (omega arith))
          | inr b ↦ inl (rw (e, b) refl)
        ]
      ]

  -- A request for the passive socket ends: the process dies, or the new socket is the one that the
  -- session keeps, it has been bound and listens at the port that is returned, and nine calls of
  -- `bind` were made at most. The port lies between 1024 and 65535; it is not below `pasv_min_port`,
  -- unless that is above 65535, and not above `pasv_max_port`, unless that is below 1024 or below a
  -- `pasv_min_port` of at most 65535.
  pub pasv_listen-InRange :
      (p : Priv)
      → ListensOrDies (os.socket p.calls) (binds p.calls + 9) (vsf_privop_pasv_listen os t p)
  unfolding vsf_privop_pasv_listen
  pasv_listen-InRange p =
      let s = os.socket p.calls in
      tries-ListensOrDies 9 s (binds p.calls + 9)
        (record (call (socket s) p) { pasv_listen_fd = some s }) refl (omega arith)
