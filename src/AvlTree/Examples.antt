-- ===== src/AvlTree/Examples.antt =====
-- The theorems on AVL trees at concrete ones: a tree with the keys 2, 4 and 6.
use infinity_os.Base.{◌^◌, ◌≤◌, ◌≡◌, refl, some, true, [], ◌∷◌, ◌++◌, suc, arith, length}
use infinity_os.AvlTree.{
  Tree, empty, node, Ancestor, avl_tree_insert, avl_tree_remove, avl_tree_lookup_node,
  avl_tree_first, avl_tree_last, avl_tree_prev, avl_tree_next,
}
use infinity_os.AvlTree.Entries.{entries, find, put, delete}
use infinity_os.AvlTree.Map.{
  IsSearchTree, Yields, avl_tree_insert-Yields, avl_tree_remove-Yields, avl_tree_lookup_node-find,
}
use infinity_os.AvlTree.Height.{Built, Built-depth}
use infinity_os.AvlTree.Walk.{whole, before, behind, first, last, walk-InOrder}

abbrev three : Tree
three = node (node empty 2 20 0 empty) 4 40 2 (node empty 6 60 0 empty)

abbrev three_measured : Tree
three_measured = node (node empty 2 20 1 empty) 4 40 0 (node empty 6 60 1 empty)

three-IsSearchTree : IsSearchTree three_measured
unfolding entries
three-IsSearchTree = (
  (
    2,
    (
      1,
      1,
      refl,
      (0, 0, refl, refl, refl, refl, omega arith, omega arith, refl),
      refl,
      (0, 0, refl, refl, refl, refl, omega arith, omega arith, refl),
      omega arith,
      omega arith,
      refl,
    ),
  ),
  ((omega arith, (omega arith, tt)), ((omega arith, tt), (tt, tt))),
)

-- The rotations at work: rising keys, which would make a list without them.
rising :
    (avl_tree_lookup_node three 6 ≡ some 60)
    × (avl_tree_insert (node empty 2 20 0 (node empty 4 40 0 empty)) 6 60
        ≡ some (node (node empty 2 20 1 empty) 4 40 2 (node empty 6 60 1 empty)))
unfolding avl_tree_insert avl_tree_lookup_node
rising = (refl, refl)

avl_tree_insert-Yields_example :
    Yields (avl_tree_insert three_measured 7 70) (put 7 70 (entries three_measured))
unfolding entries find
avl_tree_insert-Yields_example = avl_tree_insert-Yields three_measured 7 70 three-IsSearchTree refl

avl_tree_remove-Yields_example :
    Yields (avl_tree_remove three_measured 4) (delete 4 (entries three_measured))
unfolding entries find
avl_tree_remove-Yields_example = avl_tree_remove-Yields three_measured 4 40 three-IsSearchTree refl

avl_tree_lookup_node-find_example :
    avl_tree_lookup_node three_measured 6 ≡ find 6 (entries three_measured)
avl_tree_lookup_node-find_example = avl_tree_lookup_node-find three_measured 6 three-IsSearchTree.1

two-Built : Built (node empty 2 20 0 (node empty 4 40 1 empty))
unfolding avl_tree_insert
two-Built =
    Built.insert (node empty 2 20 0 empty) _ 4 40 (Built.insert empty _ 2 20 Built.start refl) refl

Built-depth_example : 2 ^ 1 ≤ suc (length (entries (node empty 2 20 0 (node empty 4 40 1 empty))))
Built-depth_example =
    Built-depth (node empty 2 20 0 (node empty 4 40 1 empty)) 1 two-Built (omega arith)

abbrev up_to_four : Ancestor
up_to_four = record {
  from_left = true;
  key = 4;
  value = 40;
  height = 2;
  other = node empty 6 60 0 empty;
}

walk-InOrder_example :
    (entries (whole (node empty 2 20 0 empty) (up_to_four ∷ []))
      ≡ (before (up_to_four ∷ []) ++ entries empty)
        ++ (2, 20) ∷ (entries empty ++ behind (up_to_four ∷ [])))
    × (avl_tree_prev empty empty (up_to_four ∷ [])
        ≡ last (before (up_to_four ∷ []) ++ entries empty))
    × (avl_tree_next empty empty (up_to_four ∷ [])
        ≡ first (entries empty ++ behind (up_to_four ∷ [])))
    × (avl_tree_first (whole (node empty 2 20 0 empty) (up_to_four ∷ []))
        ≡ first (entries (whole (node empty 2 20 0 empty) (up_to_four ∷ []))))
    × (avl_tree_last (whole (node empty 2 20 0 empty) (up_to_four ∷ []))
        ≡ last (entries (whole (node empty 2 20 0 empty) (up_to_four ∷ []))))
walk-InOrder_example = walk-InOrder empty 2 20 0 empty (up_to_four ∷ [])
