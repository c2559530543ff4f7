-- ===== src/Hash/Links.antt =====
-- hash.c: the nodes in memory with their links. A chain of hash.c is walked by `p_next` and relinked
-- by both; here that is shown to be the list of the parent module with the node put in or taken out.
-- An address is a number, and NULL is `none`.
pub mod Relink
pub mod Keys
pub mod Entry
use dragonsunited_minecraft.Base.{
  ℕ, zero, suc, ◌+◌, ◌<◌, Bool, true, false, List, [], ◌∷◌, ◌++◌, Option, none, some, ◌≡◌, ◌≢◌, ◌⊎◌,
  inl, inr, refl, sym, ap, ◌∙◌, arith, ◌==◌, ==_iff, if◌then◌else◌, length, Bool-cases,
}
use native.Mathlib.Decide.{ℕ_discrete}
use mathlib.Core.Path.{subst}
use dragonsunited_minecraft.Run.{Run, ok, stop, bug, out_of_fuel, ◌>>=◌, ◌>>◌}
use dragonsunited_minecraft.Hash.{Key, Chain, find, unlink}

-- `struct hash_node`
pub record HashNode (K V : Type 0) : Type 0 where
  pub p_key : K
  pub p_value : V
  pub p_prev : Option ℕ
  pub p_next : Option ℕ

abbrev pub Memory : Type 0 → Type 0 → Type 0
Memory K V = ℕ → HashNode K V

abbrev pub Fresh : ℕ → List ℕ → Type 0
Fresh p [] = Unit
Fresh p (a ∷ zs) = (a ≢ p) × Fresh p zs

abbrev pub Apart : List ℕ → Type 0
Apart [] = Unit
Apart (a ∷ zs) = Fresh a zs × Apart zs

module _ {K V : Type 0} where
  unfoldable pub store_node : Memory K V → ℕ → HashNode K V → Memory K V
  store_node h p c q = if q == p then c else h q

  unfoldable pub set_next : Memory K V → ℕ → Option ℕ → Memory K V
  unfolding store_node
  set_next h p a = store_node h p (record (h p) { p_next = a })

  unfoldable pub set_prev : Memory K V → ℕ → Option ℕ → Memory K V
  unfolding store_node
  set_prev h p a = store_node h p (record (h p) { p_prev = a })

  -- The new node in front of its bucket, which is the memory's second part here.
  unfoldable pub link_node : Memory K V → Option ℕ → ℕ → K → V → Memory K V × Option ℕ
  unfolding set_prev store_node
  link_node h none p k v =
      (store_node h p (record { p_key = k; p_value = v; p_prev = none; p_next = none }), some p)
  link_node h (some first) p k v =
      let h1 =
        store_node h p (record { p_key = k; p_value = v; p_prev = none; p_next = some first }) in
      (set_prev h1 first (some p), some p)

  -- The node before is linked to the one behind, or the bucket is where there is none before.
  unfoldable pub unlink_before : Memory K V → Option ℕ → Option ℕ → Option ℕ → Memory K V × Option ℕ
  unfolding set_next
  unlink_before h bucket none next = (h, next)
  unlink_before h bucket (some q) next = (set_next h q next, bucket)

  unfoldable pub unlink_behind : Memory K V → Option ℕ → Option ℕ → Memory K V
  unfolding set_prev
  unlink_behind h none prev = h
  unlink_behind h (some r) prev = set_prev h r prev

  unfoldable pub unlink_node : Memory K V → Option ℕ → ℕ → Memory K V × Option ℕ
  unfolding unlink_before unlink_behind
  unlink_node h bucket p =
      let (h1, bucket') = unlink_before h bucket (h p).p_prev (h p).p_next in
      (unlink_behind h1 (h1 p).p_next (h1 p).p_prev, bucket')

  -- The nodes of these addresses are a chain, from `at`, behind `prev`.
  abbrev pub Linked : Memory K V → Option ℕ → Option ℕ → List ℕ → Type 0
  Linked h prev at_ [] = at_ ≡ none
  Linked h prev at_ (a ∷ zs) =
      (at_ ≡ some a) × ((h a).p_prev ≡ prev) × Linked h (some a) (h a).p_next zs

  unfoldable pub chain_of : Memory K V → List ℕ → Chain K V
  chain_of h [] = []
  chain_of h (a ∷ zs) = ((h a).p_key, (h a).p_value) ∷ chain_of h zs

module _ {K V : Type 0} ⦃key : Key K⦄ where
  -- The walk of `hash_get_node_by_key`, with fuel for the nodes that it meets.
  unfoldable pub find_node : ℕ → Memory K V → K → Option ℕ → Run (Option ℕ)
  find_node zero h k at_ = stop out_of_fuel
  find_node (suc f) h k none = ok none
  find_node (suc f) h k (some a) =
      let rest = find_node f h k (h a).p_next in if key.beq k (h a).p_key then ok (some a) else rest

  abbrev pub freed : Memory K V → Option ℕ → Option ℕ → Run (Memory K V × Option ℕ)
  freed h bucket none = stop bug
  freed h bucket (some p) = ok (unlink_node h bucket p)

  -- `hash_free_entry` on one bucket: the memory and the bucket after it.
  unfoldable pub free_entry : ℕ → Memory K V → Option ℕ → K → Run (Memory K V × Option ℕ)
  unfolding find_node unlink_node
  free_entry f h bucket k = do node ← find_node f h k bucket; freed h bucket node
