-- ===== src/AvlTree.antt =====
-- source/kernel/lib/avl_tree.c: balanced search trees.
--
-- A node carries its key, a number that names the structure that it is embedded in, and the height
-- that is stored in it, which is brought up to date only where the source does so. A function that
-- follows parent pointers upwards is the return of a recursion. `none` is a failed assertion, an
-- access through NULL, or a removal of a node that the tree does not have.
pub mod Entries
pub mod Balance
pub mod Turning
pub mod Settling
pub mod Sorted
pub mod Insertion
pub mod Removal
pub mod Map
pub mod Height
pub mod Walk
mod Examples
use infinity_os.Base.{
  ℕ, zero, suc, ◌+◌, Bool, true, false, Option, none, some, max, if◌then◌else◌, ltb, ◌==◌, List, [],
  ◌∷◌,
}

pub data Tree : Type 0 where
  empty : Tree
  node : Tree → (key value height : ℕ) → Tree → Tree

-- The height that is stored, 0 for NULL.
abbrev pub stored : Tree → ℕ
stored empty = 0
stored (node l k v h r) = h

-- `avl_tree_subtree_height` as a change of the tree; the height that it returns is then `stored`.
abbrev pub avl_tree_subtree_height : Tree → Tree
avl_tree_subtree_height empty = empty
avl_tree_subtree_height (node l k v h r) = node l k v (max (stored l + 1) (stored r + 1)) r

-- `avl_tree_balance_factor` stores the heights of the children; the factor is their difference.
abbrev pub avl_tree_balance_factor : Tree → Tree
avl_tree_balance_factor empty = empty
avl_tree_balance_factor (node l k v h r) =
    node (avl_tree_subtree_height l) k v h (avl_tree_subtree_height r)

abbrev pub avl_tree_rotate_left : Tree → Option Tree
avl_tree_rotate_left empty = none
avl_tree_rotate_left (node a k v h empty) = none
avl_tree_rotate_left (node a k v h (node b kr vr hr c)) = some (node (node a k v h b) kr vr hr c)

abbrev pub avl_tree_rotate_right : Tree → Option Tree
avl_tree_rotate_right empty = none
avl_tree_rotate_right (node empty k v h c) = none
avl_tree_rotate_right (node (node a kl vl hl b) k v h c) = some (node a kl vl hl (node b k v h c))

-- Whether the factor of a node whose children's heights are stored is below 0, or above 0.
abbrev pub leans_left : Tree → Bool
leans_left empty = false
leans_left (node l k v h r) = ltb (stored r) (stored l)

abbrev pub leans_right : Tree → Bool
leans_right empty = false
leans_right (node l k v h r) = ltb (stored l) (stored r)

-- The first of the two rotations, at the child on the heavy side.
abbrev pub turn_right_child : Tree → Option Tree
turn_right_child t = if leans_left t then avl_tree_rotate_right t else some t

abbrev pub turn_left_child : Tree → Option Tree
turn_left_child t = if leans_right t then avl_tree_rotate_left t else some t

abbrev pub with_right : Tree → (k v h : ℕ) → Option Tree → Option Tree
with_right l k v h none = none
with_right l k v h (some r) = avl_tree_rotate_left (node l k v h r)

abbrev pub with_left : Option Tree → (k v h : ℕ) → Tree → Option Tree
with_left none k v h r = none
with_left (some l) k v h r = avl_tree_rotate_right (node l k v h r)

-- The factor is greater than 1, less than -1, or neither.
abbrev pub is_right_heavy : Tree → Tree → Bool
is_right_heavy l r = ltb (stored l + 1) (stored r)

unfoldable pub avl_tree_balance_node : Tree → Option Tree
avl_tree_balance_node empty = some empty
avl_tree_balance_node (node l k v h r) =
    if is_right_heavy l r
    then with_right l k v h (turn_right_child (avl_tree_balance_factor r))
    else if is_right_heavy r l
    then with_left (turn_left_child (avl_tree_balance_factor l)) k v h r
    else some (node l k v h r)

abbrev pub is_unbalanced : Tree → Bool
is_unbalanced empty = false
is_unbalanced (node l k v h r) = if is_right_heavy l r then true else is_right_heavy r l

-- The rounds of the loop up the tree at one place: after a rotation the parent of the current node
-- is the new root of the subtree, which is looked at next. `none` also stands for rounds that do
-- not suffice.
unfoldable pub settle : ℕ → Tree → Option Tree
unfolding avl_tree_balance_node
settle zero t = none
settle (suc rounds) t =
    let measured = avl_tree_balance_factor t in
    if is_unbalanced measured
    then (elim (avl_tree_balance_node measured) [ none ↦ none | some t' ↦ settle rounds t' ])
    else some measured

-- A node is looked at once, and once more if it was rotated.
abbrev pub settled : Tree → Option Tree
settled t = settle 2 t

abbrev pub settle_left : Option Tree → (k v h : ℕ) → Tree → Option Tree
settle_left none k v h r = none
settle_left (some l) k v h r = settled (node l k v h r)

abbrev pub settle_right : Tree → (k v h : ℕ) → Option Tree → Option Tree
settle_right l k v h none = none
settle_right l k v h (some r) = settled (node l k v h r)

unfoldable pub avl_tree_insert : Tree → (key value : ℕ) → Option Tree
unfolding settle
avl_tree_insert empty key value = some (node empty key value 0 empty)
avl_tree_insert (node l k v h r) key value =
    let left = avl_tree_insert l key value in
    let right = avl_tree_insert r key value in
    if key == k
    then none
    else if ltb k key
    then settle_right l k v h right
    else settle_left left k v h r

-- The right-most node of a subtree, and what is left of it: its left child takes its place, and
-- the loop starts there, or at its parent.
abbrev pub Taken : Type 0
Taken = (ℕ × ℕ × ℕ) × Option Tree

abbrev pub settle_child : Tree → Option Tree
settle_child empty = some empty
settle_child (node l k v h r) = settled (node l k v h r)

unfoldable pub take_last : Tree → (k v h : ℕ) → Tree → Taken
unfolding settle
take_last l k v h empty = ((k, v, h), settle_child l)
take_last l k v h (node rl rk rv rh rr) =
    let (last, rest) = take_last rl rk rv rh rr in (last, settle_right l k v h rest)

abbrev pub put_last : Taken → Tree → Option Tree
put_last ((k, v, h), rest) r = settle_left rest k v h r

-- What takes the place of a node that is removed.
unfoldable pub join : Tree → Tree → Option Tree
unfolding settle take_last
join empty empty = some empty
join empty (node l k v h r) = settled (node l k v h r)
join (node ll lk lv lh empty) r = settled (node ll lk lv lh r)
join (node ll lk lv lh (node a k v h b)) r = put_last (take_last ll lk lv lh (node a k v h b)) r

unfoldable pub avl_tree_remove : Tree → ℕ → Option Tree
unfolding settle join
avl_tree_remove empty key = none
avl_tree_remove (node l k v h r) key =
    let left = avl_tree_remove l key in
    let right = avl_tree_remove r key in
    if key == k
    then join l r
    else if ltb k key
    then settle_right l k v h right
    else settle_left left k v h r

unfoldable pub avl_tree_lookup_node : Tree → ℕ → Option ℕ
avl_tree_lookup_node empty key = none
avl_tree_lookup_node (node l k v h r) key =
    let left = avl_tree_lookup_node l key in
    let right = avl_tree_lookup_node r key in
    if ltb key k then left else if ltb k key then right else some v

unfoldable pub avl_tree_first : Tree → Option (ℕ × ℕ)
avl_tree_first empty = none
avl_tree_first (node empty k v h r) = some (k, v)
avl_tree_first (node (node ll lk lv lh lr) k v h r) = avl_tree_first (node ll lk lv lh lr)

unfoldable pub avl_tree_last : Tree → Option (ℕ × ℕ)
avl_tree_last empty = none
avl_tree_last (node l k v h empty) = some (k, v)
avl_tree_last (node l k v h (node rl rk rv rh rr)) = avl_tree_last (node rl rk rv rh rr)

-- The way up from a node: for each ancestor whether the way came from its left child, its key and
-- value, what it stores, and its other child.
pub record Ancestor : Type 0 where
  from_left : Bool
  key : ℕ
  value : ℕ
  height : ℕ
  other : Tree

unfoldable pub climb_left : List Ancestor → Option (ℕ × ℕ)
climb_left [] = none
climb_left (a ∷ up) =
    let rest = climb_left up in if a.from_left then rest else some (a.key, a.value)

unfoldable pub climb_right : List Ancestor → Option (ℕ × ℕ)
climb_right [] = none
climb_right (a ∷ up) =
    let rest = climb_right up in if a.from_left then some (a.key, a.value) else rest

-- The node before a node with these children, and the one behind it.
unfoldable pub avl_tree_prev : Tree → Tree → List Ancestor → Option (ℕ × ℕ)
unfolding avl_tree_last climb_left
avl_tree_prev empty r up = climb_left up
avl_tree_prev (node ll k v h lr) r up = avl_tree_last (node ll k v h lr)

unfoldable pub avl_tree_next : Tree → Tree → List Ancestor → Option (ℕ × ℕ)
unfolding avl_tree_first climb_right
avl_tree_next l empty up = climb_right up
avl_tree_next l (node rl k v h rr) up = avl_tree_first (node rl k v h rr)
