-- ===== src/Strlist/Order.antt =====
-- The order in which `str_list_sort` asks for the nodes, and the search for a string.
use dragonsunited_minecraft.Base.{[], ◌∷◌, ◌<◌, ◌≡◌, refl, length, Bytes}
use dragonsunited_minecraft.Str.Text.Compare.{limit, dictionary, str_strcmp-dictionary}
use dragonsunited_minecraft.Str.Text.Split.{isempty_empty, isempty-cons}
use dragonsunited_minecraft.Strlist.{
  Node, sort_name, sort_compare_func, sort_compare_func_reverse, sort_compare_common,
}

-- The key with the string that stands for it where the key is empty.
unfoldable pub key_or : Bytes → Bytes → Bytes
key_or [] str = str
key_or (c ∷ key) str = c ∷ key

sort_name-key_or :
    (key str : Bytes) → sort_name (record { str = str; sort_key_str = key }) ≡ key_or key str
unfolding sort_name key_or
sort_name-key_or [] str = rw isempty_empty refl
sort_name-key_or (c ∷ key) str = rw (isempty-cons c key) refl

name_of : (n : Node) → sort_name n ≡ key_or n.sort_key_str n.str
name_of n = sort_name-key_or n.sort_key_str n.str

-- For nodes whose strings and keys are below 2^31 bytes, one comparison is the dictionary order of
-- what they are sorted by, which is the key, or the string of a node whose key is empty, and the
-- other is that with the nodes swapped.
pub compares-dictionary :
    (a b : Node)
    → length (key_or a.sort_key_str a.str) < limit
    → length (key_or b.sort_key_str b.str) < limit
    → (sort_compare_func a b
        ≡ dictionary (key_or a.sort_key_str a.str) (key_or b.sort_key_str b.str))
      × (sort_compare_func_reverse a b
          ≡ dictionary (key_or b.sort_key_str b.str) (key_or a.sort_key_str a.str))
unfolding sort_compare_func sort_compare_func_reverse sort_compare_common
compares-dictionary a b h k = (
  rw (name_of a, name_of b) (str_strcmp-dictionary _ _ h k),
  rw (name_of a, name_of b) (str_strcmp-dictionary _ _ k h),
)
