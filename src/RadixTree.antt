-- ===== src/RadixTree.antt =====
-- source/kernel/lib/radix_tree.c: radix trees, maps from strings to values.
--
-- A key is the list of the bytes before the terminator; the root, whose key is NULL, has the empty
-- key. The two-level array of the children of a node is the list of its occupied slots: a slot
-- belongs to a first byte, and is found by it. A value of NULL is `none`. Where the source goes
-- down in a loop and changes a node in place, the functions return the node that is put in its slot.
-- Iteration over a tree and clearing it are not part of the model.
pub mod Strings
pub mod Insert
pub mod Map
mod Examples
use infinity_os.Base.{
  ℕ, zero, suc, ◌+◌, Bool, true, false, Option, none, some, List, [], ◌∷◌, ◌++◌, if◌then◌else◌,
  ◌==◌, length, drop,
}

mutual
  pub data Node : Type 0 where
    node : List ℕ → Option ℕ → Children → Node

  pub data Children : Type 0 where
    no_child : Children
    child : Node → Children → Children

-- `key[0]`, which is the terminator for an empty key.
abbrev pub first : List ℕ → ℕ
first [] = 0
first (c ∷ cs) = c

abbrev pub key_of : Node → List ℕ
key_of (node key value children) = key

-- The results 0, 1, 2 and 3 of `radix_tree_node_match`.
pub data Match : Type 0 where
  different partial exact longer : Match

unfoldable pub match_rest : List ℕ → List ℕ → Match
match_rest [] [] = exact
match_rest [] (c ∷ cs) = longer
match_rest (k ∷ ks) [] = partial
match_rest (k ∷ ks) (c ∷ cs) = let rest = match_rest ks cs in if k == c then rest else partial

unfoldable pub radix_tree_node_match : List ℕ → List ℕ → Match
unfolding match_rest
radix_tree_node_match [] str = longer
radix_tree_node_match (k ∷ ks) str = if k == first str then match_rest (k ∷ ks) str else different

unfoldable pub radix_tree_key_common : List ℕ → List ℕ → List ℕ
radix_tree_key_common [] str = []
radix_tree_key_common (k ∷ ks) [] = []
radix_tree_key_common (k ∷ ks) (c ∷ cs) =
    let rest = radix_tree_key_common ks cs in if k == c then k ∷ rest else []

-- The loop that goes down, at a node and at the slots of its children.
unfoldable mutual
  pub radix_tree_node_lookup : Node → List ℕ → Option ℕ
  radix_tree_node_lookup (node key value children) str =
      let below = find_child children (drop (length key) str) in
      elim (radix_tree_node_match key str) [
        | exact ↦ value
        | longer ↦ below
        | partial ↦ none
        | different ↦ none
      ]

  pub find_child : Children → List ℕ → Option ℕ
  find_child no_child str = none
  find_child (child n rest) str =
      let here = radix_tree_node_lookup n str in
      let there = find_child rest str in if first (key_of n) == first str then here else there

-- An intermediate node for the common part of two keys, with the old node and, where something of
-- the new key is left, a new one.
abbrev pub split : List ℕ → Option ℕ → Children → List ℕ → ℕ → List ℕ → Node
split key value children str v common =
    let old = node (drop (length common) key) value children in
    elim (drop (length common) str) [
      | [] ↦ node common (some v) (child old no_child)
      | c ∷ cs ↦ node common none (child old (child (node (c ∷ cs) (some v) no_child) no_child))
    ]

abbrev pub put_below : List ℕ → Option ℕ → Option Children → Option Node
put_below key value none = none
put_below key value (some children) = some (node key value children)

abbrev pub put_here : Children → Option Node → Option Children
put_here rest none = none
put_here rest (some n) = some (child n rest)

abbrev pub put_there : Node → Option Children → Option Children
put_there n none = none
put_there n (some rest) = some (child n rest)

-- `none` is the fatal error "Should not get here".
unfoldable mutual
  pub insert_node : Node → List ℕ → ℕ → Option Node
  insert_node (node key value children) str v =
      let below = insert_child children (drop (length key) str) v in
      elim (radix_tree_node_match key str) [
        | partial ↦ some (split key value children str v (radix_tree_key_common str key))
        | exact ↦ some (node key (some v) children)
        | longer ↦ put_below key value below
        | different ↦ none
      ]

  pub insert_child : Children → List ℕ → ℕ → Option Children
  insert_child no_child str v = some (child (node str (some v) no_child) no_child)
  insert_child (child n rest) str v =
      let here = insert_node n str v in
      let there = insert_child rest str v in
      if first (key_of n) == first str then put_here rest here else put_there n there

unfoldable pub radix_tree_insert : Node → List ℕ → ℕ → Option Node
unfolding insert_node
radix_tree_insert root [] v = some root
radix_tree_insert root (c ∷ cs) v = insert_node root (c ∷ cs) v

unfoldable pub radix_tree_lookup : Node → List ℕ → Option ℕ
radix_tree_lookup root [] = none
radix_tree_lookup root (c ∷ cs) = radix_tree_node_lookup root (c ∷ cs)

abbrev pub radix_tree_init : Node
radix_tree_init = node [] none no_child

-- What becomes of a node without a value: nothing if it has no child, its only child with a longer
-- key, or itself.
pub data Optimized : Type 0 where
  gone : Optimized
  kept : Node → Optimized

abbrev pub optimize : List ℕ → Option ℕ → Children → Optimized
optimize key (some v) children = kept (node key (some v) children)
optimize key none no_child = gone
optimize key none (child (node ks w grandchildren) no_child) =
    kept (node (key ++ ks) w grandchildren)
optimize key none (child n (child m rest)) = kept (node key none (child n (child m rest)))

-- The children after a removal, and whether a slot became free.
abbrev pub optimize_below : List ℕ → Option ℕ → Children × Bool → Optimized
optimize_below key value (children, true) = optimize key value children
optimize_below key value (children, false) = kept (node key value children)

abbrev pub replaced : Children → Optimized → Children × Bool
replaced rest gone = (rest, true)
replaced rest (kept n) = (child n rest, false)

abbrev pub kept_first : Node → Children × Bool → Children × Bool
kept_first n (rest, freed) = (child n rest, freed)

unfoldable mutual
  pub remove_node : Node → List ℕ → Optimized
  remove_node (node key value children) str =
      let below = remove_below children (drop (length key) str) in
      elim (radix_tree_node_match key str) [
        | exact ↦ optimize key none children
        | longer ↦ optimize_below key value below
        | partial ↦ kept (node key value children)
        | different ↦ kept (node key value children)
      ]

  pub remove_below : Children → List ℕ → Children × Bool
  remove_below no_child str = (no_child, false)
  remove_below (child n rest) str =
      let here = remove_node n str in
      let there = remove_below rest str in
      if first (key_of n) == first str then replaced rest here else kept_first n there

-- The root is not optimized. The value that the helper frees is what a lookup finds.
unfoldable pub radix_tree_remove : Node → List ℕ → Node × Option ℕ
radix_tree_remove root [] = (root, none)
radix_tree_remove (node key value children) (c ∷ cs) = (
  node key value (remove_below children (c ∷ cs)).0,
  radix_tree_lookup (node key value children) (c ∷ cs),
)
