-- ===== src/Hash/Table.antt =====
-- The table as a map: what each function does to the value that every key has.
use native.Mathlib.Decide.{ℕ_discrete}
use mathlib.Core.Path.{subst}
use dragonsunited_minecraft.Base.{
  ℕ, zero, suc, ◌<◌, true, List, [], ◌∷◌, Option, none, some, ◌≡◌, ◌≢◌, inl, inr, refl, sym, ap,
  ◌∙◌, arith, if◌then◌else◌, Bool-cases, length, get_or, set, replicate, length-set,
  length-replicate, lt→leb,
}
use dragonsunited_minecraft.Run.{ok, stop, bug}
use dragonsunited_minecraft.Hash.Chain.{
  Distinct, find-unlink, find-store, unlink-Distinct, store-Distinct,
}
use dragonsunited_minecraft.Hash.{
  Key, Chain, Hash, find, unlink, store, chain_at, with_chain, hash_alloc, hash_get_bucket,
  hash_get_node_by_key, hash_lookup_entry, hash_add_entry, hash_free_entry, write_value,
}

get_or-set_self :
    {A : Type 0} (xs : List A) (i : ℕ) (v d : A) → i < length xs → get_or (set xs i v) i d ≡ v
get_or-set_self [] i v d h = absurd (omega arith)
get_or-set_self (x ∷ xs) zero v d h = refl
get_or-set_self (x ∷ xs) (suc i) v d h = get_or-set_self xs i v d (omega arith)

get_or-set_ne :
    {A : Type 0} (xs : List A) (i j : ℕ) (v d : A) → i ≢ j → get_or (set xs i v) j d ≡ get_or xs j d
get_or-set_ne [] i j v d h = refl
get_or-set_ne (x ∷ xs) zero zero v d h = absurd (h refl)
get_or-set_ne (x ∷ xs) zero (suc j) v d h = refl
get_or-set_ne (x ∷ xs) (suc i) zero v d h = refl
get_or-set_ne (x ∷ xs) (suc i) (suc j) v d h = get_or-set_ne xs i j v d (λ e. h (ap suc e))

get_or-replicate : {A : Type 0} (n i : ℕ) (a : A) → get_or (replicate n a) i a ≡ a
get_or-replicate zero i a = refl
get_or-replicate (suc n) zero a = refl
get_or-replicate (suc n) (suc i) a = get_or-replicate n i a

module _ {K V : Type 0} ⦃key : Key K⦄ where
  -- The hash function stays within the buckets, and no key stands in the table twice.
  pub record IsTable (h : Hash K V) : Type 0 where
    pub in_range : (k : K) → h.hash_func h.buckets k < h.buckets
    pub sized : length h.nodes ≡ h.buckets
    pub distinct : (b : ℕ) → Distinct (chain_at h b)

  -- The value of a key.
  unfoldable pub view : Hash K V → K → Option V
  view h k = find k (chain_at h (h.hash_func h.buckets k))

  -- One chain replaced by another.
  module _ (h : Hash K V) (valid : IsTable h) (k : K) (c : Chain K V) where
    home : ℕ
    home = h.hash_func h.buckets k

    home-lt : home < length h.nodes
    unfolding home
    home-lt = let s = valid.sized in let r = valid.in_range k in omega arith

    with_chain-IsTable : Distinct c → IsTable (with_chain h home c)
    with_chain-IsTable d = record {
      in_range = valid.in_range;
      sized = length-set h.nodes home c ∙ valid.sized;
      distinct = λ b. chains b (dec b);
    }
      where
        dec : (b : ℕ) → Dec (home ≡ b)
        dec b = ℕ_discrete home b

        chains : (b : ℕ) → Dec (home ≡ b) → Distinct (chain_at (with_chain h home c) b)
        chains b (yes e) =
            subst (λ x. Distinct (get_or (set h.nodes home c) x [])) e
              (rw (get_or-set_self h.nodes home c [] home-lt) d)
        chains b (no ne) = rw (get_or-set_ne h.nodes home b c [] ne) (valid.distinct b)

    -- A key's value after the replacement, if the new chain treats the keys of other buckets as
    -- the old one did.
    view-with_chain :
        (q : K) {o : Option V}
        → (home ≡ h.hash_func h.buckets q → find q c ≡ o)
        → (home ≢ h.hash_func h.buckets q → view h q ≡ o)
        → view (with_chain h home c) q ≡ o
    unfolding view
    view-with_chain q here there = elim (ℕ_discrete home (h.hash_func h.buckets q)) [
      | yes e ↦ rw (← e, get_or-set_self h.nodes home c [] home-lt) (here e)
      | no ne ↦ rw (get_or-set_ne h.nodes home (h.hash_func h.buckets q) c [] ne) (there ne)
    ]

-- `h'` has `o` for the key `k`, and for every other key what `h` has.
pub record Updates {K V : Type 0} ⦃key : Key K⦄ (h : Hash K V) (k : K) (o : Option V)
    (h' : Hash K V) : Type 0 where
  pub table : IsTable h'
  pub reads : (q : K) → view h' q ≡ (if key.beq q k then o else view h q)

module _ {K V : Type 0} ⦃key : Key K⦄ (h : Hash K V) (valid : IsTable h) (k : K) where
  bucket : ℕ
  bucket = h.hash_func h.buckets k

  get_bucket_lem : hash_get_bucket h k ≡ ok bucket
  unfolding hash_get_bucket bucket
  get_bucket_lem = rw (lt→leb h.buckets (h.hash_func h.buckets k) (valid.in_range k))

  -- `hash_lookup_entry` returns the key's value; its `bug` is never reached.
  pub lookup_entry-view : hash_lookup_entry h k ≡ ok (view h k)
  unfolding hash_lookup_entry hash_get_node_by_key view
  lookup_entry-view = unfold bucket in rw get_bucket_lem

  same_home : (q : K) → key.beq q k ≡ true → bucket ≡ h.hash_func h.buckets q
  unfolding bucket
  same_home q e = ap (h.hash_func h.buckets) (sym ((key.beq_iff q k).0 e))

  elsewhere :
      (q : K) (o : Option V)
      → bucket ≢ h.hash_func h.buckets q
      → view h q ≡ (if key.beq q k then o else view h q)
  elsewhere q o ne = elim (Bool-cases (key.beq q k)) [
    | inl e ↦ absurd (ne (same_home q e))
    | inr e ↦ rw e
  ]

  in_home : (q : K) → bucket ≡ h.hash_func h.buckets q → find q (chain_at h bucket) ≡ view h q
  unfolding view
  in_home q e = ap (λ (b : ℕ). find q (chain_at h b)) e

  -- A new chain for the bucket of `k` that changes the key alone.
  rechain :
      (c : Chain K V) (o : Option V)
      → Distinct c
      → ((q : K) → find q c ≡ (if key.beq q k then o else find q (chain_at h bucket)))
      → Updates h k o (with_chain h bucket c)
  unfolding bucket
  rechain c o d f = record {
    table = unfold home in with_chain-IsTable h valid k c d;
    reads = λ q.
        unfold home in
        view-with_chain h valid k c q
          (λ e. f q ∙ ap (λ (z : Option V). if key.beq q k then o else z) (in_home q e))
          (elsewhere q o);
  }

  home_view : find k (chain_at h bucket) ≡ view h k
  unfolding view bucket
  home_view = refl

  -- A key that is not there is added.
  pub add_entry-Updates :
      (v : V)
      → view h k ≡ none
      → (h' : Hash K V) × (hash_add_entry h k v ≡ ok h') × Updates h k (some v) h'
  unfolding hash_add_entry
  add_entry-Updates v e = (
    with_chain h bucket ((k, v) ∷ chain_at h bucket),
    rw (lookup_entry-view, e, get_bucket_lem),
    rechain ((k, v) ∷ chain_at h bucket) (some v) (home_view ∙ e, valid.distinct bucket)
        (λ q. unfold find in refl),
  )

  -- A key that is there already is a `bug`.
  pub add_entry-bug : (v : V) {w : V} → view h k ≡ some w → hash_add_entry h k v ≡ stop bug
  unfolding hash_add_entry
  add_entry-bug v e = rw (lookup_entry-view, e)

  get_node_lem : hash_get_node_by_key h k ≡ ok (view h k)
  get_node_lem = unfold hash_lookup_entry in lookup_entry-view

  -- A key that is there is removed.
  pub free_entry-Updates :
      {w : V}
      → view h k ≡ some w
      → (h' : Hash K V) × (hash_free_entry h k ≡ ok h') × Updates h k none h'
  unfolding hash_free_entry
  free_entry-Updates e = (
    with_chain h bucket (unlink k (chain_at h bucket)),
    rw (get_node_lem, e, get_bucket_lem),
    rechain (unlink k (chain_at h bucket)) none (unlink-Distinct k _ (valid.distinct bucket))
        (λ q. find-unlink k q (chain_at h bucket) (valid.distinct bucket)),
  )

  -- A key that is not there cannot be removed.
  pub free_entry-bug : view h k ≡ none → hash_free_entry h k ≡ stop bug
  unfolding hash_free_entry
  free_entry-bug e = rw (get_node_lem, e)

  pub write_value-Updates :
      (v : V) {w : V}
      → view h k ≡ some w
      → (h' : Hash K V) × (write_value h k v ≡ ok h') × Updates h k (some v) h'
  unfolding write_value
  write_value-Updates v e = (
    with_chain h bucket (store k v (chain_at h bucket)),
    rw get_bucket_lem,
    rechain (store k v (chain_at h bucket)) (some v) (store-Distinct k v _ (valid.distinct bucket))
        (λ q. find-store k q v (chain_at h bucket) (rw (home_view, e) refl)),
  )

-- `hash_alloc` makes an empty table.
pub alloc-IsTable :
    {K V : Type 0} ⦃key : Key K⦄ (buckets : ℕ) (f : ℕ → K → ℕ)
    → ((k : K) → f buckets k < buckets)
    → (h : Hash K V) × (h ≡ hash_alloc buckets f) × IsTable h × ((k : K) → view h k ≡ none)
unfolding hash_alloc view find
alloc-IsTable {K} {V} buckets f r = (
  hash_alloc buckets f,
  refl,
  record {
    in_range = r;
    sized = length-replicate buckets [];
    distinct = λ b. rw (get_or-replicate {A = Chain K V} buckets b []) tt;
  },
  λ k. rw (get_or-replicate {A = Chain K V} buckets (f buckets k) []),
)
