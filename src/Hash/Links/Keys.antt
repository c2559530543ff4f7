-- ===== src/Hash/Links/Keys.antt =====
-- hash.c: the keys and values of a chain whose links change, and a node put before it.
use dragonsunited_minecraft.Base.{ℕ, List, [], ◌∷◌, Option, none, some, ◌≡◌, refl, sym, ap, ◌∙◌}
use native.Mathlib.Decide.{ℕ_discrete}
use dragonsunited_minecraft.Hash.Links.{
  HashNode, Memory, Linked, Fresh, chain_of, store_node, set_next, set_prev, unlink_before,
  unlink_behind, unlink_node,
}
use dragonsunited_minecraft.Hash.Links.Relink.{store_node_self, store_node_other, behind}

module _ {K V : Type 0} where
  -- A relinking changes neither keys nor values.
  abbrev pub Keeps : Memory K V → Memory K V → Type 0
  Keeps h h' = (a : ℕ) → ((h' a).p_key ≡ (h a).p_key) × ((h' a).p_value ≡ (h a).p_value)

  pub store_node-Keeps :
      (h : Memory K V) (p : ℕ) (c : HashNode K V)
      → c.p_key ≡ (h p).p_key
      → c.p_value ≡ (h p).p_value
      → Keeps h (store_node h p c)
  store_node-Keeps h p c k v = λ a. elim (ℕ_discrete a p) [
    | yes e ↦
        let same = ap (λ z. store_node h p c z) e ∙ store_node_self h p c in
        let old = sym (ap h e) in
        (
          ap (λ z. z.p_key) same ∙ k ∙ ap (λ z. z.p_key) old,
          ap (λ z. z.p_value) same ∙ v ∙ ap (λ z. z.p_value) old,
        )
    | no n ↦
        let same = store_node_other h p c a n in (ap (λ z. z.p_key) same, ap (λ z. z.p_value) same)
  ]

  unlink_before-Keeps :
      (h : Memory K V) (bucket prev next : Option ℕ) → Keeps h (unlink_before h bucket prev next).0
  unfolding unlink_before set_next
  unlink_before-Keeps h bucket none next = λ a. (refl, refl)
  unlink_before-Keeps h bucket (some q) next = store_node-Keeps h q _ refl refl

  pub unlink_behind-Keeps :
      (h : Memory K V) (next prev : Option ℕ) → Keeps h (unlink_behind h next prev)
  unfolding unlink_behind set_prev
  unlink_behind-Keeps h none prev = λ a. (refl, refl)
  unlink_behind-Keeps h (some r) prev = store_node-Keeps h r _ refl refl

  pub unlink_node-Keeps :
      (h : Memory K V) (bucket : Option ℕ) (p : ℕ) → Keeps h (unlink_node h bucket p).0
  unfolding unlink_node
  unlink_node-Keeps h bucket p = λ a.
      let (h1, _) = unlink_before h bucket (h p).p_prev (h p).p_next in
      let (k, v) = unlink_before-Keeps h bucket (h p).p_prev (h p).p_next a in
      let (k', v') = unlink_behind-Keeps h1 (h1 p).p_next (h1 p).p_prev a in (k' ∙ k, v' ∙ v)

  pair_eq : {k k' : K} {v v' : V} → k' ≡ k → v' ≡ v → ◌≡◌ {A = K × V} (k', v') (k, v)
  pair_eq {k = k} {v' = v'} e g = ap (λ z. (z, v')) e ∙ ap (λ z. (k, z)) g

  pub chain_of-Keeps :
      (h h' : Memory K V) (zs : List ℕ) → Keeps h h' → chain_of h' zs ≡ chain_of h zs
  unfolding chain_of
  chain_of-Keeps h h' [] k = refl
  chain_of-Keeps h h' (a ∷ zs) k =
      let (e, g) = k a in
      ap (λ z. z ∷ chain_of h' zs) (pair_eq e g)
      ∙ ap (λ z. ((h a).p_key, (h a).p_value) ∷ z) (chain_of-Keeps h h' zs k)

  pub chain_of-store_node :
      (h : Memory K V) (p : ℕ) (c : HashNode K V) (zs : List ℕ)
      → Fresh p zs
      → chain_of (store_node h p c) zs ≡ chain_of h zs
  unfolding chain_of
  chain_of-store_node h p c [] f = refl
  chain_of-store_node h p c (a ∷ zs) f =
      let same = store_node_other h p c a f.0 in
      ap (λ z. (z.p_key, z.p_value) ∷ chain_of (store_node h p c) zs) same
      ∙ ap (λ z. ((h a).p_key, (h a).p_value) ∷ z) (chain_of-store_node h p c zs f.1)

  -- A new node before a chain that is as it was.
  pub in_front :
      (h h' : Memory K V) (next : Option ℕ) (zs : List ℕ) (p : ℕ) (k : K) (v : V)
      → h' p ≡ record { p_key = k; p_value = v; p_prev = none; p_next = next }
      → Linked h' (some p) next zs
      → chain_of h' zs ≡ chain_of h zs
      → Linked h' none (some p) (p ∷ zs) × (chain_of h' (p ∷ zs) ≡ (k, v) ∷ chain_of h zs)
  unfolding chain_of
  in_front h h' next zs p k v e l c = (
    behind h h' none (some p) next p zs refl (ap (λ z. z.p_prev) e) (ap (λ z. z.p_next) e) l,
    ap (λ z. (z.p_key, z.p_value) ∷ chain_of h' zs) e ∙ ap (λ z. (k, v) ∷ z) c,
  )
