-- ===== src/Strlist.antt =====
-- strlist.c: lists of strings with sort keys. The block of nodes is a list of nodes, NULL is
-- `none`, and a node has 32 bytes. `malloc`, `realloc` and `qsort` are the C library's and so
-- parameters; the guards of sysutil.c around the first two are here.
mod Add
mod Order
mod Tests
use Prim.Native.Nat.{Ordering}
use dragonsunited_minecraft.Base.{
  ℕ, ◌+◌, ◌*◌, ◌%◌, ◌^◌, ◌≤◌, Bool, true, false, ◌||◌, List, [], ◌∷◌, ◌++◌, Option, none, some, ◌≡◌,
  ltb, leb, ◌==◌, if◌then◌else◌, length, take, drop, set, get_or, Bytes,
}
use dragonsunited_minecraft.Run.{Run, ok, stop, bug, die, overrun, ◌>>=◌, ◌>>◌, bug_if, access}
use dragonsunited_minecraft.Str.Text.{str_isempty, str_equal, str_strcmp}

-- `struct mystr_list_node`
pub record Node : Type 0 where
  pub str : Bytes
  pub sort_key_str : Bytes

-- `struct mystr_list`
pub record StrList : Type 0 where
  pub alloc_len : ℕ
  pub list_len : ℕ
  pub p_nodes : Option (List Node)

-- `INIT_STRLIST`
abbrev pub init_strlist : StrList
init_strlist = record { alloc_len = 0; list_len = 0; p_nodes = none }

abbrev pub node_size : ℕ
node_size = 32

abbrev pub uint_mod : ℕ
uint_mod = 2 ^ 32

abbrev pub int_max : ℕ
int_max = 2147483647

-- A block for a number of nodes, by the C library: it has that number, and keeps what was there.
pub record NodeMemory : Type 0 where
  pub malloc : ℕ → Option (List Node)
  pub realloc : List Node → ℕ → Option (List Node)
  pub length-malloc : (n : ℕ) (b : List Node) → malloc n ≡ some b → length b ≡ n
  pub length-realloc :
      (old : List Node) (n : ℕ) (b : List Node) → realloc old n ≡ some b → length b ≡ n
  pub take-realloc :
      (old : List Node) (n : ℕ) (b : List Node)
      → realloc old n ≡ some b
      → length old ≤ n
      → take (length old) b ≡ old

-- The pointer that the guards of `vsf_sysutil_malloc` and `vsf_sysutil_realloc` let through; the
-- size is passed as an unsigned int.
unfoldable pub allocated : ℕ → Option (List Node) → Run (List Node)
allocated n block =
    let size = n * node_size % uint_mod in
    if size == 0 || ltb int_max size
    then stop bug
    else elim block [ none ↦ stop die | some b ↦ ok b ]

abbrev pub nodes_of : Option (List Node) → List Node
nodes_of none = []
nodes_of (some b) = b

unfoldable pub expand : NodeMemory → StrList → Run StrList
unfolding allocated
expand mem l =
    let n = if l.alloc_len == 0 then 32 else l.alloc_len * 2 % uint_mod in
    let block = if l.alloc_len == 0 then mem.malloc n else mem.realloc (nodes_of l.p_nodes) n in
    do b ← allocated n block; ok (record l { alloc_len = n; p_nodes = some b })

unfoldable pub put_node : Option (List Node) → ℕ → Node → Run (Option (List Node))
put_node none i node = stop overrun
put_node (some b) i node = do access (ltb i (length b)); ok (some (set b i node))

-- `p_sort_key_str` may be NULL.
abbrev pub key_of : Option Bytes → Bytes
key_of none = []
key_of (some key) = key

unfoldable pub str_list_add : NodeMemory → StrList → Bytes → Option Bytes → Run StrList
unfolding expand put_node
str_list_add mem l str key = do
  t ← (if l.list_len == l.alloc_len then expand mem l else ok l)
  p ← put_node t.p_nodes t.list_len (record { str = str; sort_key_str = key_of key })
  ok (record t { p_nodes = p; list_len = (t.list_len + 1) % uint_mod })

unfoldable pub str_list_free : StrList → StrList
str_list_free l = init_strlist

unfoldable pub str_list_get_length : StrList → ℕ
str_list_get_length l = l.list_len

-- The loop over the nodes that are in use.
unfoldable pub contains_str : List Node → Bytes → Bool
contains_str [] s = false
contains_str (x ∷ xs) s = let rest = contains_str xs s in if str_equal s x.str then true else rest

unfoldable pub str_list_contains_str : StrList → Bytes → Bool
unfolding contains_str
str_list_contains_str l s = contains_str (take l.list_len (nodes_of l.p_nodes)) s

abbrev pub no_node : Node
no_node = record { str = []; sort_key_str = [] }

unfoldable pub str_list_get_pstr : StrList → ℕ → Run Bytes
str_list_get_pstr l i = do
  bug_if (leb l.list_len i)
  access (ltb i (length (nodes_of l.p_nodes)))
  ok (get_or (nodes_of l.p_nodes) i no_node).str

unfoldable pub sort_name : Node → Bytes
sort_name n = if str_isempty n.sort_key_str then n.str else n.sort_key_str

-- The sign of the number that the function returns.
unfoldable pub sort_compare_common : Node → Node → Bool → Ordering
unfolding sort_name
sort_compare_common a b reverse =
    if reverse
    then str_strcmp (sort_name b) (sort_name a)
    else str_strcmp (sort_name a) (sort_name b)

unfoldable pub sort_compare_func : Node → Node → Ordering
unfolding sort_compare_common
sort_compare_func a b = sort_compare_common a b false

unfoldable pub sort_compare_func_reverse : Node → Node → Ordering
unfolding sort_compare_common
sort_compare_func_reverse a b = sort_compare_common a b true

-- `qsort` over the nodes in use, with the rest of the block as it was.
unfoldable pub str_list_sort :
    ((Node → Node → Ordering) → List Node → List Node) → StrList → Bool → StrList
str_list_sort qsort l reverse =
    let compare = if reverse then sort_compare_func_reverse else sort_compare_func in
    let sorted : List Node → List Node =
      λ b. qsort compare (take l.list_len b) ++ drop l.list_len b in
    record l { p_nodes = elim l.p_nodes [ none ↦ none | some b ↦ some (sorted b) ] }
