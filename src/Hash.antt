-- ===== src/Hash.antt =====
-- hash.c: a table of buckets with chained nodes. A chain is the list of its nodes' keys and values,
-- the newest in front, which Hash/Links.antt shows of the nodes in memory. A key is a value with the
-- test that `memcmp` over `key_size` bytes makes, and the hash function is the caller's.
pub mod Chain
pub mod Table
pub mod Links
mod Tests
use dragonsunited_minecraft.Base.{
  ℕ, zero, suc, ◌+◌, ◌<◌, Bool, true, false, List, [], ◌∷◌, Option, none, some, ◌≡◌, ◌↔◌, leb,
  if◌then◌else◌, length, get_or, set, replicate,
}
use dragonsunited_minecraft.Run.{Run, ok, stop, bug, ◌>>=◌, ◌>>◌, bug_if}

pub record Key (K : Type 0) : Type 0 where
  pub beq : K → K → Bool
  pub beq_iff : (a b : K) → (beq a b ≡ true) ↔ (a ≡ b)

abbrev pub Chain : Type 0 → Type 0 → Type 0
Chain K V = List (K × V)

pub record Hash (K V : Type 0) : Type 0 where
  pub buckets : ℕ
  pub hash_func : ℕ → K → ℕ
  pub nodes : List (Chain K V)

unfoldable pub hash_alloc : {K V : Type 0} → ℕ → (ℕ → K → ℕ) → Hash K V
hash_alloc buckets hash_func = record {
  buckets = buckets;
  hash_func = hash_func;
  nodes = replicate buckets [];
}

-- Whether the search of a chain ended at a node.
abbrev pub is_null : {V : Type 0} → Option V → Bool
is_null none = true
is_null (some v) = false

module _ {K V : Type 0} ⦃key : Key K⦄ where
  -- The value of the first node with the key.
  unfoldable pub find : K → Chain K V → Option V
  find k [] = none
  find k ((j, v) ∷ c) = let rest = find k c in if key.beq k j then some v else rest

  -- The chain without its first node with the key.
  unfoldable pub unlink : K → Chain K V → Chain K V
  unlink k [] = []
  unlink k ((j, v) ∷ c) = let rest = unlink k c in if key.beq k j then c else (j, v) ∷ rest

  -- The chain with the value of its first node with the key written.
  unfoldable pub store : K → V → Chain K V → Chain K V
  store k w [] = []
  store k w ((j, v) ∷ c) =
      let rest = store k w c in if key.beq k j then (j, w) ∷ c else (j, v) ∷ rest

  -- The index of the bucket.
  unfoldable pub hash_get_bucket : Hash K V → K → Run ℕ
  hash_get_bucket h k = do
    let bucket = h.hash_func h.buckets k
    bug_if (leb h.buckets bucket)
    ok bucket

  abbrev pub chain_at : Hash K V → ℕ → Chain K V
  chain_at h b = get_or h.nodes b []

  abbrev pub with_chain : Hash K V → ℕ → Chain K V → Hash K V
  with_chain h b c = record h { nodes = set h.nodes b c }

  -- The value of the node that is found.
  unfoldable pub hash_get_node_by_key : Hash K V → K → Run (Option V)
  hash_get_node_by_key h k = do b ← hash_get_bucket h k; ok (find k (chain_at h b))

  unfoldable pub hash_lookup_entry : Hash K V → K → Run (Option V)
  hash_lookup_entry h k = hash_get_node_by_key h k

  unfoldable pub hash_add_entry : Hash K V → K → V → Run (Hash K V)
  hash_add_entry h k v = do
    present ← hash_lookup_entry h k
    bug_if (if is_null present then false else true)
    b ← hash_get_bucket h k
    ok (with_chain h b ((k, v) ∷ chain_at h b))

  unfoldable pub hash_free_entry : Hash K V → K → Run (Hash K V)
  hash_free_entry h k = do
    node ← hash_get_node_by_key h k
    bug_if (is_null node)
    b ← hash_get_bucket h k
    ok (with_chain h b (unlink k (chain_at h b)))

  -- A caller's write through the pointer that `hash_lookup_entry` returned.
  unfoldable pub write_value : Hash K V → K → V → Run (Hash K V)
  write_value h k v = do b ← hash_get_bucket h k; ok (with_chain h b (store k v (chain_at h b)))
