-- ===== src/Hash/Links/Entry.antt =====
-- hash.c: `hash_add_entry` and `hash_free_entry` on the linked nodes of a bucket.
use dragonsunited_minecraft.Base.{
  ℕ, zero, suc, ◌<◌, List, [], ◌∷◌, ◌++◌, Option, none, some, ◌≡◌, ◌⊎◌, inl, inr, refl, sym, ap,
  ◌∙◌, arith, length, Bool-cases,
}
use mathlib.Core.Path.{subst}
use dragonsunited_minecraft.Run.{Run, ok, stop, bug, ◌>>=◌}
use dragonsunited_minecraft.Hash.{Key, find, unlink}
use dragonsunited_minecraft.Hash.Links.{
  HashNode, Memory, Linked, Fresh, Apart, chain_of, store_node, set_prev, link_node, unlink_behind,
  unlink_node, find_node, freed, free_entry,
}
use dragonsunited_minecraft.Hash.Links.Relink.{
  store_node_self, store_node_other, store_node-Linked, unlink_behind-Linked, unlink_node-Linked,
}
use dragonsunited_minecraft.Hash.Links.Keys.{
  unlink_behind-Keeps, unlink_node-Keeps, chain_of-Keeps, chain_of-store_node, in_front,
}

Fresh-drop : (x p : ℕ) (xs ys : List ℕ) → Fresh x (xs ++ p ∷ ys) → Fresh x (xs ++ ys)
Fresh-drop x p [] ys f = f.1
Fresh-drop x p (a ∷ xs) ys f = (f.0, Fresh-drop x p xs ys f.1)

Apart-drop : (p : ℕ) (xs ys : List ℕ) → Apart (xs ++ p ∷ ys) → Apart (xs ++ ys)
Apart-drop p [] ys d = d.1
Apart-drop p (a ∷ xs) ys d = (Fresh-drop a p xs ys d.0, Apart-drop p xs ys d.1)

module _ {K V : Type 0} where
  -- `hash_add_entry`'s new node, at an address that is not in the chain of its bucket: the nodes are
  -- linked both ways again, with the bucket at the new node and the others behind it in their order,
  -- all with their keys and values.
  pub link_node-Linked :
      (h : Memory K V) (bucket : Option ℕ) (zs : List ℕ) (p : ℕ) (k : K) (v : V)
      → Apart (p ∷ zs)
      → Linked h none bucket zs
      → Linked (link_node h bucket p k v).0 none (link_node h bucket p k v).1 (p ∷ zs)
        × (chain_of (link_node h bucket p k v).0 (p ∷ zs) ≡ (k, v) ∷ chain_of h zs)
  link_node-Linked h bucket [] p k v d l =
      subst
        (λ z.
          Linked (link_node h z p k v).0 none (link_node h z p k v).1 (p ∷ [])
          × (chain_of (link_node h z p k v).0 (p ∷ []) ≡ (k, v) ∷ chain_of h []))
        (sym l)
        (unfold link_node in
          in_front h _ none [] p k v (store_node_self h p _) refl (chain_of-store_node h p _ [] tt))
  link_node-Linked h bucket (a ∷ zs) p k v d l =
      let new : HashNode K V = record { p_key = k; p_value = v; p_prev = none; p_next = some a } in
      let h1 = store_node h p new in
      let h2 = set_prev h1 a (some p) in
      let first : Linked h none (some a) (a ∷ zs) = (refl, l.1, l.2) in
      let linked : Linked h2 (some p) (some a) (a ∷ zs) =
        unfold unlink_behind in
        unlink_behind-Linked h1 none (some p) (some a) (a ∷ zs) d.1
          (store_node-Linked h p new none (some a) (a ∷ zs) d.0 first) in
      let kept : chain_of h2 (a ∷ zs) ≡ chain_of h1 (a ∷ zs) =
        unfold unlink_behind in
        chain_of-Keeps h1 _ (a ∷ zs) (unlink_behind-Keeps h1 (some a) (some p)) in
      let there : h2 p ≡ new =
        unfold set_prev in
        store_node_other h1 a _ p (λ e. d.0.0 (sym e)) ∙ store_node_self h p new in
      subst
        (λ z.
          Linked (link_node h z p k v).0 none (link_node h z p k v).1 (p ∷ a ∷ zs)
          × (chain_of (link_node h z p k v).0 (p ∷ a ∷ zs) ≡ (k, v) ∷ chain_of h (a ∷ zs)))
        (sym l.0)
        (unfold link_node in
          in_front h h2 (some a) (a ∷ zs) p k v there linked
            (kept ∙ chain_of-store_node h p new (a ∷ zs) d.0))

module _ {K V : Type 0} ⦃key : Key K⦄ where
  -- Where the key is, and what is left of the chain without it.
  abbrev Located : Memory K V → K → List ℕ → Run (Option ℕ) → Type 0
  Located h k zs r =
      ((r ≡ ok none) × (find k (chain_of h zs) ≡ none))
      ⊎ ((xs : List ℕ) × (p : ℕ) × (ys : List ℕ) × (r ≡ ok (some p))
          × (zs ≡ xs ++ p ∷ ys)
          × (unlink k (chain_of h zs) ≡ chain_of h (xs ++ ys)))

  find_node-Located :
      (f : ℕ) (h : Memory K V) (k : K) (prev at_ : Option ℕ) (zs : List ℕ)
      → length zs < f
      → Linked h prev at_ zs
      → Located h k zs (find_node f h k at_)
  unfolding find_node find unlink chain_of
  find_node-Located zero h k prev at_ zs m l = absurd (omega arith)
  find_node-Located (suc f) h k prev at_ [] m l = inl (ap (λ z. find_node (suc f) h k z) l, refl)
  find_node-Located (suc f) h k prev at_ (a ∷ zs) m l =
      subst (λ z. Located h k (a ∷ zs) (find_node (suc f) h k z)) (sym l.0)
        (elim (Bool-cases (key.beq k (h a).p_key)) [
          | inl e ↦ inr ([], a, zs, rw e refl, refl, rw e refl)
          | inr e ↦ elim (find_node-Located f h k (some a) (h a).p_next zs (omega arith) l.2) [
            | inl (r, n) ↦ inl (rw e r, rw e n)
            | inr (xs, p, ys, r, s, u) ↦ inr (
              a ∷ xs,
              p,
              ys,
              rw e r,
              ap (λ z. a ∷ z) s,
              rw e (ap (λ z. ((h a).p_key, (h a).p_value) ∷ z) u),
            )
          ]
        ])

  -- For a bucket whose nodes are a chain linked both ways, at addresses that are all different, and
  -- with fuel for more nodes than it has, freeing a key ends: with `bug` where no node has it; else
  -- the nodes are linked both ways again, with the bucket at the first one, and their keys and values
  -- are those of the chain before, in its order, without the first that had the key.
  pub free_entry-unlink :
      (f : ℕ) (h : Memory K V) (bucket : Option ℕ) (k : K) (zs : List ℕ)
      → length zs < f
      → Apart zs
      → Linked h none bucket zs
      → ((find k (chain_of h zs) ≡ none) × (free_entry f h bucket k ≡ stop bug))
        ⊎ ((h' : Memory K V) × (bucket' : Option ℕ) × (left : List ℕ) × (free_entry f h bucket k
              ≡ ok (h', bucket'))
            × Linked h' none bucket' left
            × Apart left
            × (chain_of h' left ≡ unlink k (chain_of h zs)))
  unfolding free_entry
  free_entry-unlink f h bucket k zs m d l = elim (find_node-Located f h k none bucket zs m l) [
    | inl (r, n) ↦ inl (n, ap (λ z. z >>= freed h bucket) r)
    | inr (xs, p, ys, r, s, u) ↦
        let apart = subst Apart s d in
        let linked = subst (Linked h none bucket) s l in
        inr (
          (unlink_node h bucket p).0,
          (unlink_node h bucket p).1,
          xs ++ ys,
          ap (λ z. z >>= freed h bucket) r,
          unlink_node-Linked h bucket p xs ys apart linked,
          Apart-drop p xs ys apart,
          chain_of-Keeps h _ (xs ++ ys) (unlink_node-Keeps h bucket p) ∙ sym u,
        )
  ]
