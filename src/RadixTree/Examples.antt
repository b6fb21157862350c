-- ===== src/RadixTree/Examples.antt =====
-- The theorems on radix trees at concrete keys.
use infinity_os.Base.{ℕ, ◌≡◌, List, [], ◌∷◌, some, none, if◌then◌else◌}
use infinity_os.RadixTree.{
  Node, node, Children, no_child, child, radix_tree_init, radix_tree_insert, radix_tree_lookup,
}
use infinity_os.RadixTree.Strings.{same}
use infinity_os.RadixTree.Map.{
  radix_tree_insert-lookup, insert_all, last_value, insert_all-last_value,
}

-- The keys "car" and "cat" share a node for "ca".
abbrev cars : Children
cars =
    child
      (node (99 ∷ 97 ∷ []) none (
        child (node (114 ∷ []) (some 1) no_child)
          (child (node (116 ∷ []) (some 2) no_child) no_child)))
      no_child

radix_tree_insert-lookup_example :
    (f : Children) × (radix_tree_insert (node [] none cars) (99 ∷ 98 ∷ []) 3
      ≡ some (node [] none f))
    × ((other : List ℕ)
        → radix_tree_lookup (node [] none f) other ≡ (
            if same other (99 ∷ 98 ∷ [])
            then some 3
            else radix_tree_lookup (node [] none cars) other))
radix_tree_insert-lookup_example = radix_tree_insert-lookup none cars 99 (98 ∷ []) 3

abbrev three_words : List (List ℕ × ℕ)
three_words = (99 ∷ 97 ∷ [], 3) ∷ (99 ∷ 97 ∷ 116 ∷ [], 2) ∷ (99 ∷ 97 ∷ 114 ∷ [], 1) ∷ []

insert_all-last_value_example :
    (root : Node) × (insert_all three_words radix_tree_init ≡ some root)
    × ((k : List ℕ) → radix_tree_lookup root k ≡ last_value three_words k)
insert_all-last_value_example = insert_all-last_value three_words
