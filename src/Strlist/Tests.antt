-- ===== src/Strlist/Tests.antt =====
-- A list with memory that always has room, and the theorems at these inputs.
use dragonsunited_minecraft.Base.{
  ℕ, ◌-◌, ◌≤◌, List, [], ◌++◌, none, some, ◌≡◌, refl, sym, ap, ◌∙◌, arith, inl, inr, leb,
  if◌then◌else◌, length, take, replicate, text, Bool-cases, length-append, length-replicate,
  length-take, leb→le, le→leb, take-append_eq,
}
use dragonsunited_minecraft.Str.Text.{str_isempty}
use dragonsunited_minecraft.Str.Text.Compare.{dictionary}
use dragonsunited_minecraft.Strlist.{
  Node, NodeMemory, no_node, init_strlist, str_list_add, sort_name, sort_compare_func,
  sort_compare_func_reverse,
}
use dragonsunited_minecraft.Strlist.Add.{IsValid, Added, str_list_add-Added}
use dragonsunited_minecraft.Strlist.Order.{key_or, compares-dictionary}

abbrev resize : List Node → ℕ → List Node
resize old n = if leb (length old) n then old ++ replicate (n - length old) no_node else take n old

some_inj : {a b : List Node} → some a ≡ some b → a ≡ b
some_inj e = cc

length-resize : (old : List Node) (n : ℕ) → length (resize old n) ≡ n
length-resize old n = elim (Bool-cases (leb (length old) n)) [
  | inl e ↦ rw e (
      omega (
        arith,
        leb→le _ _ e,
        length-append old (replicate (n - length old) no_node),
        length-replicate (n - length old) no_node,
      ))
  | inr e ↦ rw e (ground (arith, length-take n old))
]

take-resize : (old : List Node) (n : ℕ) → length old ≤ n → take (length old) (resize old n) ≡ old
take-resize old n h =
    rw (le→leb (length old) n h)
      (take-append_eq (length old) old (replicate (n - length old) no_node) refl)

abbrev roomy : NodeMemory
roomy = record {
  malloc = λ n. some (replicate n no_node);
  realloc = λ old n. some (resize old n);
  length-malloc = λ n b e. ap length (sym (some_inj e)) ∙ length-replicate n no_node;
  length-realloc = λ old n b e. ap length (sym (some_inj e)) ∙ length-resize old n;
  take-realloc = λ old n b e h. ap (take (length old)) (sym (some_inj e)) ∙ take-resize old n h;
}

init_strlist-IsValid : IsValid init_strlist
init_strlist-IsValid = record { block_size = refl; in_use = omega arith; bounded = omega arith }

str_list_add-Added_example :
    Added roomy init_strlist
      (record { str = text "a.jar"; sort_key_str = [] })
      (str_list_add roomy init_strlist (text "a.jar") none)
str_list_add-Added_example =
    str_list_add-Added roomy init_strlist (text "a.jar") none init_strlist-IsValid

abbrev plain : Node
plain = record { str = text "b"; sort_key_str = [] }

abbrev keyed : Node
keyed = record { str = text "a"; sort_key_str = text "c" }

plain_name : sort_name plain ≡ text "b"
unfolding sort_name str_isempty
plain_name = refl

keyed_name : sort_name keyed ≡ text "c"
unfolding sort_name str_isempty
keyed_name = refl

compares-dictionary_example :
    (sort_compare_func plain keyed
      ≡ dictionary (key_or plain.sort_key_str plain.str) (key_or keyed.sort_key_str keyed.str))
    × (sort_compare_func_reverse plain keyed
        ≡ dictionary (key_or keyed.sort_key_str keyed.str) (key_or plain.sort_key_str plain.str))
compares-dictionary_example =
    compares-dictionary plain keyed (unfold key_or in omega arith) (unfold key_or in omega arith)
