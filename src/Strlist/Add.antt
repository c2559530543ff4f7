-- ===== src/Strlist/Add.antt =====
-- `str_list_add` as an append to the nodes of the list.
use dragonsunited_minecraft.Base.{
  ℕ, zero, suc, ◌+◌, ◌*◌, ◌%◌, ◌^◌, ◌≤◌, ◌<◌, ◌⊎◌, inl, inr, false, List, [], ◌∷◌, ◌++◌, Option,
  none, some, ◌≡◌, refl, sym, ap, ◌∙◌, arith, ltb, ◌==◌, length, take, set, Bytes, Bool-cases,
  Option-cases, ==_iff, length-set, lt→ltb, ltb→lt, ltb→le, take_all,
}
use dragonsunited_minecraft.Run.{Run, ok, stop, bug, die, ◌>>=◌}
use dragonsunited_minecraft.Strlist.{
  Node, StrList, NodeMemory, node_size, uint_mod, int_max, allocated, expand, put_node, nodes_of,
  key_of, str_list_add,
}

-- What the functions keep: the block has the nodes that are counted, and those in use fit.
pub record IsValid (l : StrList) : Type 0 where
  pub block_size : length (nodes_of l.p_nodes) ≡ l.alloc_len
  pub in_use : l.list_len ≤ l.alloc_len
  pub bounded : l.alloc_len < 2 ^ 26

-- The nodes in use.
abbrev pub items : StrList → List Node
items l = take l.list_len (nodes_of l.p_nodes)

-- How an add of a node to a list ends: with the node behind the others, out of memory, or by `bug`
-- on a list of 2^25 nodes and more.
pub data Added (mem : NodeMemory) (l : StrList) (node : Node) : Run StrList → Type 0 where
  added : (t : StrList) → IsValid t → items t ≡ items l ++ node ∷ [] → Added mem l node (ok t)
  exhausted :
      (mem.malloc 32 ≡ none) ⊎ (mem.realloc (nodes_of l.p_nodes) (l.alloc_len * 2) ≡ none)
      → Added mem l node (stop die)
  full : 2 ^ 25 ≤ l.list_len → Added mem l node (stop bug)

take-set-suc :
    (b : List Node) (i : ℕ) (v : Node)
    → i < length b
    → take (suc i) (set b i v) ≡ take i b ++ v ∷ []
take-set-suc [] i v h = absurd (omega arith)
take-set-suc (x ∷ b) zero v h = refl
take-set-suc (x ∷ b) (suc i) v h = ap (◌∷◌ x) (take-set-suc b i v (omega arith))

-- The write of a node into a block with room for it.
append_node-Added :
    (mem : NodeMemory) (l : StrList) (node : Node) (b : List Node) (n : ℕ)
    → length b ≡ n
    → l.list_len < n
    → n < 2 ^ 26
    → take l.list_len b ≡ items l
    → Added mem l node (do
      p ← put_node (some b) l.list_len node
      ok (record { alloc_len = n; list_len = (l.list_len + 1) % uint_mod; p_nodes = p }))
unfolding put_node
append_node-Added mem l node b n e h k same =
    let counted : (l.list_len + 1) % uint_mod ≡ suc l.list_len = omega arith in
    let room : l.list_len < length b = omega arith in
    rw (lt→ltb l.list_len (length b) room, counted)
      (added _ (record { block_size = length-set b l.list_len node ∙ e; in_use = h; bounded = k })
        (take-set-suc b l.list_len node room ∙ ap (λ xs. xs ++ node ∷ []) same))

-- `realloc` of a full block keeps the nodes in use.
kept :
    (mem : NodeMemory) (l : StrList) (b : List Node)
    → length (nodes_of l.p_nodes) ≡ l.alloc_len
    → l.list_len ≡ l.alloc_len
    → mem.realloc (nodes_of l.p_nodes) (l.alloc_len * 2) ≡ some b
    → take l.list_len b ≡ items l
kept mem l b size is_full there =
    let all : l.list_len ≡ length (nodes_of l.p_nodes) = is_full ∙ sym size in
    rw all (
      mem.take-realloc _ _ b there (omega arith)
      ∙ sym (take_all (length (nodes_of l.p_nodes)) (nodes_of l.p_nodes) (omega arith)))

-- The three ends of an allocation for `n` nodes, before the rest of the code.
allocated-Added :
    (mem : NodeMemory) (l : StrList) (node : Node) (n : ℕ) (block : Option (List Node))
    (with_block : List Node → StrList) (rest : StrList → Run StrList)
    → 0 < n
    → n < 2 ^ 27
    → (2 ^ 26 ≤ n → 2 ^ 25 ≤ l.list_len)
    → (block ≡ none
        → (mem.malloc 32 ≡ none) ⊎ (mem.realloc (nodes_of l.p_nodes) (l.alloc_len * 2) ≡ none))
    → ((b : List Node) → block ≡ some b → n < 2 ^ 26 → Added mem l node (rest (with_block b)))
    → Added mem l node ((allocated n block >>= λ b. ok (with_block b)) >>= rest)
unfolding allocated
allocated-Added mem l node n block with_block rest pos big over refusal room =
    let whole : n * node_size % uint_mod ≡ n * node_size = omega arith in
    let some_size : (n * node_size == 0) ≡ false = ground arith in
    rw (whole, some_size)
      (elim (Bool-cases (ltb int_max (n * node_size))) [
        | inl e ↦ rw e (full (over (omega (arith, ltb→lt _ _ e))))
        | inr e ↦ rw e (elim (Option-cases block) [
          | inl none_left ↦ rw none_left (exhausted (refusal none_left))
          | inr (b, there) ↦ rw there (room b there (omega (arith, ltb→le _ _ e)))
        ])
      ])

-- The add where the block is full.
add_full-Added :
    (mem : NodeMemory) (l : StrList) (str : Bytes) (key : Option Bytes)
    → IsValid l
    → l.list_len ≡ l.alloc_len
    → Added mem l (record { str = str; sort_key_str = key_of key }) (str_list_add mem l str key)
unfolding str_list_add expand allocated
add_full-Added mem l str key ok_l is_full =
    let node : Node = record { str = str; sort_key_str = key_of key } in
    rw ((==_iff l.list_len l.alloc_len).1 is_full) (elim (Bool-cases (l.alloc_len == 0)) [
      | inl e ↦
          let empty : l.alloc_len ≡ 0 = (==_iff _ _).0 e in
          let unused : l.list_len ≡ 0 = is_full ∙ empty in
          rw e (
            allocated-Added mem l node 32 (mem.malloc 32) _ _ (omega arith) (omega arith)
              (λ h. absurd (omega arith)) inl
              (λ b there k.
                append_node-Added mem l node b 32 (mem.length-malloc 32 b there) (omega arith) k
                  (rw unused refl)))
      | inr e ↦
          let bounded = ok_l.bounded in
          let doubled : l.alloc_len * 2 % uint_mod ≡ l.alloc_len * 2 = omega arith in
          let pos : 0 < l.alloc_len = ground arith in
          let size = ok_l.block_size in
          rw (e, doubled)
            (allocated-Added mem l node (l.alloc_len * 2) _ _ _ (omega arith) (omega arith)
              (λ h. omega arith) inr
              (λ b there k.
                append_node-Added mem l node b (l.alloc_len * 2) (mem.length-realloc _ _ b there)
                  (omega arith) k (kept mem l b size is_full there)))
    ])

add_room-Added :
    (mem : NodeMemory) (l : StrList) (str : Bytes) (key : Option Bytes)
    → IsValid l
    → (l.list_len == l.alloc_len) ≡ false
    → Added mem l (record { str = str; sort_key_str = key_of key }) (str_list_add mem l str key)
unfolding str_list_add
add_room-Added mem l str key ok_l free =
    let size = ok_l.block_size in
    let used = ok_l.in_use in
    let node : Node = record { str = str; sort_key_str = key_of key } in
    let less : l.list_len < l.alloc_len = ground arith in
    rw free (elim (Option-cases l.p_nodes) [
      | inl e ↦ absurd (omega (arith, sym (ap (λ p. length (nodes_of p)) e) ∙ size))
      | inr (b, e) ↦
          let block : length b ≡ l.alloc_len = sym (ap (λ p. length (nodes_of p)) e) ∙ size in
          rw e (
            append_node-Added mem (record l { p_nodes = some b }) node b l.alloc_len block less
              ok_l.bounded refl)
    ])

-- On a valid list, an add leaves a valid list with the node behind the others, or the process
-- stops: where the C library refuses the block asked for, or on a list of 2^25 nodes and more.
pub str_list_add-Added :
    (mem : NodeMemory) (l : StrList) (str : Bytes) (key : Option Bytes)
    → IsValid l
    → Added mem l (record { str = str; sort_key_str = key_of key }) (str_list_add mem l str key)
str_list_add-Added mem l str key ok_l = elim (Bool-cases (l.list_len == l.alloc_len)) [
  | inl e ↦ add_full-Added mem l str key ok_l ((==_iff _ _).0 e)
  | inr e ↦ add_room-Added mem l str key ok_l e
]
