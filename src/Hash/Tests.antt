-- ===== src/Hash/Tests.antt =====
-- The table of process ids at small inputs.
use dragonsunited_minecraft.Base.{
  ℕ, zero, suc, ◌%◌, List, [], ◌∷◌, Option, ◌⊎◌, none, some, ◌≡◌, refl, arith, ◌==◌, ==_iff,
  replicate, get_or,
}
use dragonsunited_minecraft.Hash.Chain.{Distinct}
use dragonsunited_minecraft.Run.{ok, stop, bug}
use dragonsunited_minecraft.Hash.Table.{
  IsTable, view, Updates, lookup_entry-view, add_entry-Updates, free_entry-Updates, add_entry-bug,
}
use dragonsunited_minecraft.Hash.Links.Entry.{free_entry-unlink, link_node-Linked}
use dragonsunited_minecraft.Hash.Links.{
  Memory, Linked, Apart, chain_of, store_node, link_node, free_entry,
}
use dragonsunited_minecraft.Hash.{
  Key, Hash, hash_alloc, hash_lookup_entry, hash_add_entry, hash_free_entry, find, unlink,
}

instance abbrev number_key : Key ℕ
number_key = record { beq = ◌==◌; beq_iff = ==_iff }

abbrev empty : Hash ℕ ℕ
empty = hash_alloc 4 (λ n k. k % n)

empty-IsTable : IsTable empty
unfolding hash_alloc
empty-IsTable = record { in_range = λ k. omega arith; sized = refl; distinct = λ b. nothing b }
  where
    nothing : (b : ℕ) → Distinct {K = ℕ} {V = ℕ} (get_or (replicate 4 []) b [])
    nothing zero = tt
    nothing (suc zero) = tt
    nothing (suc (suc zero)) = tt
    nothing (suc (suc (suc zero))) = tt
    nothing (suc (suc (suc (suc b)))) = tt

nothing_there : view empty 6 ≡ none
unfolding view hash_alloc find
nothing_there = refl

lookup_entry-view_example : hash_lookup_entry empty 6 ≡ ok (view empty 6)
lookup_entry-view_example = lookup_entry-view empty empty-IsTable 6

add_entry-Updates_example :
    (h' : Hash ℕ ℕ) × (hash_add_entry empty 6 9 ≡ ok h') × Updates empty 6 (some 9) h'
add_entry-Updates_example = add_entry-Updates empty empty-IsTable 6 9 nothing_there

-- The table that holds 9 for the key 6.
abbrev one : Hash ℕ ℕ
one = record { buckets = 4; hash_func = λ n k. k % n; nodes = [] ∷ [] ∷ ((6, 9) ∷ []) ∷ [] ∷ [] }

one-IsTable : IsTable one
unfolding find
one-IsTable = record { in_range = λ k. omega arith; sized = refl; distinct = λ b. chains b }
  where
    chains : (b : ℕ) → Distinct {K = ℕ} {V = ℕ} (get_or one.nodes b [])
    chains zero = tt
    chains (suc zero) = tt
    chains (suc (suc zero)) = (refl, tt)
    chains (suc (suc (suc zero))) = tt
    chains (suc (suc (suc (suc b)))) = tt

nine_there : view one 6 ≡ some 9
unfolding view find
nine_there = refl

six_freed : (h' : Hash ℕ ℕ) × (hash_free_entry one 6 ≡ ok h') × Updates one 6 none h'
six_freed = free_entry-Updates one one-IsTable 6 nine_there

key_there_already : hash_add_entry one 6 3 ≡ stop bug
key_there_already = add_entry-bug one one-IsTable 6 3 nine_there

-- Three nodes of one bucket: at 1 with the key 6, at 2 with 10, and at 3 with 14.
abbrev memory : Memory ℕ ℕ
memory =
    store_node
      (store_node
        (store_node (λ a. record { p_key = 6; p_value = 60; p_prev = none; p_next = some 2 }) 2
          (record { p_key = 10; p_value = 100; p_prev = some 1; p_next = some 3 }))
        3 (record { p_key = 14; p_value = 140; p_prev = some 2; p_next = none }))
      4 (record { p_key = 0; p_value = 0; p_prev = none; p_next = none })

memory-Linked : Linked memory none (some 1) (1 ∷ 2 ∷ 3 ∷ [])
unfolding store_node
memory-Linked = (refl, refl, (refl, refl, (refl, refl, refl)))

addresses-Apart : Apart (1 ∷ 2 ∷ 3 ∷ [])
addresses-Apart = ((omega arith, (omega arith, tt)), ((omega arith, tt), (tt, tt)))

more-Apart : Apart (5 ∷ 1 ∷ 2 ∷ 3 ∷ [])
more-Apart = ((omega arith, (omega arith, (omega arith, tt))), addresses-Apart)

free_entry-unlink_example :
    ((find 10 (chain_of memory (1 ∷ 2 ∷ 3 ∷ [])) ≡ none)
      × (free_entry 4 memory (some 1) 10 ≡ stop bug))
    ⊎ ((h' : Memory ℕ ℕ) × (bucket' : Option ℕ) × (left : List ℕ) × (free_entry 4 memory (some 1) 10
          ≡ ok (h', bucket'))
        × Linked h' none bucket' left
        × Apart left
        × (chain_of h' left ≡ unlink 10 (chain_of memory (1 ∷ 2 ∷ 3 ∷ []))))
free_entry-unlink_example =
    free_entry-unlink 4 memory (some 1) 10 (1 ∷ 2 ∷ 3 ∷ []) (omega arith) addresses-Apart
      memory-Linked

link_node-Linked_example :
    Linked
      (link_node memory (some 1) 5 2 20).0
      none
      (link_node memory (some 1) 5 2 20).1
      (5 ∷ 1 ∷ 2 ∷ 3 ∷ [])
    × (chain_of (link_node memory (some 1) 5 2 20).0 (5 ∷ 1 ∷ 2 ∷ 3 ∷ [])
        ≡ (2, 20) ∷ chain_of memory (1 ∷ 2 ∷ 3 ∷ []))
link_node-Linked_example =
    link_node-Linked memory (some 1) (1 ∷ 2 ∷ 3 ∷ []) 5 2 20 more-Apart memory-Linked
