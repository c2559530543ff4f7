-- ===== src/Hash/Chain.antt =====
-- Chains as maps.
use dragonsunited_minecraft.Base.{
  true, false, [], ◌∷◌, none, some, ◌≡◌, inl, inr, refl, sym, ◌∙◌, arith, if◌then◌else◌, Bool-cases,
}
use dragonsunited_minecraft.Hash.{is_null, Key, Chain, find, unlink, store}

module _ {K : Type 0} ⦃key : Key K⦄ where
  pub other_key : (k j q : K) → key.beq k j ≡ false → key.beq q j ≡ true → key.beq q k ≡ false
  other_key k j q e p = elim (Bool-cases (key.beq q k)) [
    | inr h ↦ h
    | inl h ↦
        let same : k ≡ j = sym ((key.beq_iff q k).0 h) ∙ (key.beq_iff q j).0 p in
        let yes' = (key.beq_iff k j).1 same in cc
  ]

module _ {K V : Type 0} ⦃key : Key K⦄ where
  -- No key stands in a chain twice.
  abbrev pub Distinct : Chain K V → Type 0
  Distinct [] = Unit
  Distinct ((j, v) ∷ c) = (find j c ≡ none) × Distinct c

  pub find-unlink :
      (k q : K) (c : Chain K V)
      → Distinct c
      → find q (unlink k c) ≡ (if key.beq q k then none else find q c)
  unfolding find unlink
  find-unlink k q [] d = ground arith
  find-unlink k q ((j, v) ∷ c) d = elim (Bool-cases (key.beq k j)) [
    | inl e ↦
        let z : k ≡ j = (key.beq_iff k j).0 e in
        rw (e, z)
          (elim (Bool-cases (key.beq q j)) [
            | inl p ↦ rw p (rw ((key.beq_iff q j).0 p) d.0)
            | inr p ↦ rw p
          ])
    | inr e ↦ rw e (elim (Bool-cases (key.beq q j)) [
      | inr p ↦ rw p (find-unlink k q c d.1)
      | inl p ↦ rw (p, other_key k j q e p)
    ])
  ]

  pub find-store :
      (k q : K) (w : V) (c : Chain K V)
      → is_null (find k c) ≡ false
      → find q (store k w c) ≡ (if key.beq q k then some w else find q c)
  unfolding find store
  find-store k q w [] d = cc
  find-store k q w ((j, v) ∷ c) d = elim (Bool-cases (key.beq k j)) [
    | inl e ↦
        let z : k ≡ j = (key.beq_iff k j).0 e in
        rw (e, z) (elim (Bool-cases (key.beq q j)) [ inl p ↦ rw p | inr p ↦ rw p ])
    | inr e ↦ rw e (elim (Bool-cases (key.beq q j)) [
      | inr p ↦ rw p (find-store k q w c (rw e at d))
      | inl p ↦ rw (p, other_key k j q e p)
    ])
  ]

  -- Only the key itself may leave a chain.
  find-unlink-none : (k q : K) (c : Chain K V) → find q c ≡ none → find q (unlink k c) ≡ none
  unfolding find unlink
  find-unlink-none k q [] d = refl
  find-unlink-none k q ((j, v) ∷ c) d = elim (Bool-cases (key.beq q j)) [
    | inl p ↦ let a = rw p at d in cc
    | inr p ↦ elim (Bool-cases (key.beq k j)) [
      | inl e ↦ rw e (rw p at d)
      | inr e ↦ rw (e, p) (find-unlink-none k q c (rw p at d))
    ]
  ]

  pub unlink-Distinct : (k : K) (c : Chain K V) → Distinct c → Distinct (unlink k c)
  unfolding unlink
  unlink-Distinct k [] d = tt
  unlink-Distinct k ((j, v) ∷ c) d = elim (Bool-cases (key.beq k j)) [
    | inl e ↦ rw e d.1
    | inr e ↦ rw e (find-unlink-none k j c d.0, unlink-Distinct k c d.1)
  ]

  find-store-none :
      (k q : K) (w : V) (c : Chain K V) → find q c ≡ none → find q (store k w c) ≡ none
  unfolding find store
  find-store-none k q w [] d = refl
  find-store-none k q w ((j, v) ∷ c) d = elim (Bool-cases (key.beq q j)) [
    | inl p ↦ let a = rw p at d in cc
    | inr p ↦ elim (Bool-cases (key.beq k j)) [
      | inl e ↦ rw (e, p) (rw p at d)
      | inr e ↦ rw (e, p) (find-store-none k q w c (rw p at d))
    ]
  ]

  pub store-Distinct : (k : K) (w : V) (c : Chain K V) → Distinct c → Distinct (store k w c)
  unfolding store
  store-Distinct k w [] d = tt
  store-Distinct k w ((j, v) ∷ c) d = elim (Bool-cases (key.beq k j)) [
    | inl e ↦ rw e d
    | inr e ↦ rw e (find-store-none k j w c d.0, store-Distinct k w c d.1)
  ]
