-- ===== src/AvlTree/Map.antt =====
-- Search trees as finite maps: every tree that insertions and removals make is one, and is low.
use infinity_os.Base.{ℕ, ◌≡◌, refl, Option, none, some, List, arith, ◌∙◌, sym, inl, inr, subst}
use mathlib.Core.Option.{none-ne-some}
use infinity_os.AvlTree.{Tree, empty, node, avl_tree_insert, avl_tree_remove, avl_tree_lookup_node}
use infinity_os.AvlTree.Entries.{
  Entry, entries, find, put, delete, IsSorted, split-IsSorted, side, find_left, find_right,
  find_here, find-append,
}
use infinity_os.AvlTree.Balance.{Fits}
use infinity_os.AvlTree.Sorted.{put-IsSorted, delete-IsSorted}
use infinity_os.AvlTree.Insertion.{avl_tree_insert-Grows}
use infinity_os.AvlTree.Removal.{avl_tree_remove-Shrinks}

-- A search tree whose nodes are balanced and have the heights that the next operation reads.
abbrev pub IsSearchTree : Tree → Type 0
IsSearchTree t = ((n : ℕ) × Fits t n) × IsSorted (entries t)

-- An operation succeeds with a search tree that has the given entries.
abbrev pub Yields : Option Tree → List Entry → Type 0
Yields o es = (t : Tree) × (o ≡ some t) × IsSearchTree t × (entries t ≡ es)

pub avl_tree_insert-Yields :
    (t : Tree) (key value : ℕ)
    → IsSearchTree t
    → find key (entries t) ≡ none
    → Yields (avl_tree_insert t key value) (put key value (entries t))
avl_tree_insert-Yields t key value ((n, f), s) new =
    let (m, low, high, (w, done, fits, same)) = avl_tree_insert-Grows t n key value f s new in
    (
      w,
      done,
      ((m, fits), subst IsSorted (sym same) (put-IsSorted key value (entries t) s new)),
      same,
    )

pub avl_tree_remove-Yields :
    (t : Tree) (key value : ℕ)
    → IsSearchTree t
    → find key (entries t) ≡ some value
    → Yields (avl_tree_remove t key) (delete key (entries t))
avl_tree_remove-Yields t key value ((n, f), s) old =
    let (m, low, high, (w, done, fits, same)) = avl_tree_remove-Shrinks t n key value f s old in
    (w, done, ((m, fits), subst IsSorted (sym same) (delete-IsSorted key (entries t) s)), same)

pub avl_tree_lookup_node-find :
    (t : Tree) (key : ℕ) → IsSorted (entries t) → avl_tree_lookup_node t key ≡ find key (entries t)
unfolding avl_tree_lookup_node entries find
avl_tree_lookup_node-find empty key s = refl
avl_tree_lookup_node-find (node l k v h r) key s =
    let (below, sl, above, sr) = split-IsSorted (entries l) k v (entries r) s in
    rw (avl_tree_lookup_node-find l key sl, avl_tree_lookup_node-find r key sr)
      (sym (find-append key (entries l) k v (entries r) below above))

pub avl_tree_insert-present :
    (t : Tree) (key value old : ℕ)
    → IsSorted (entries t)
    → find key (entries t) ≡ some old
    → avl_tree_insert t key value ≡ none
unfolding avl_tree_insert entries find
avl_tree_insert-present empty key value old s here = absurd (none-ne-some old here)
avl_tree_insert-present (node l k v h r) key value old s here =
    let (below, sl, above, sr) = split-IsSorted (entries l) k v (entries r) s in
    elim (side key k) [
      | inl lt ↦
          let rest =
            avl_tree_insert-present l key value old sl
              (sym (find_left key (entries l) k v (entries r) below above lt) ∙ here) in
          ground (arith, rest)
      | inr (inl eq) ↦ ground arith
      | inr (inr gt) ↦
          let rest =
            avl_tree_insert-present r key value old sr
              (sym (find_right key (entries l) k v (entries r) below above gt) ∙ here) in
          ground (arith, rest)
    ]

pub avl_tree_remove-absent :
    (t : Tree) (key : ℕ)
    → IsSorted (entries t)
    → find key (entries t) ≡ none
    → avl_tree_remove t key ≡ none
unfolding avl_tree_remove entries find
avl_tree_remove-absent empty key s gone = refl
avl_tree_remove-absent (node l k v h r) key s gone =
    let (below, sl, above, sr) = split-IsSorted (entries l) k v (entries r) s in
    elim (side key k) [
      | inl lt ↦
          let rest =
            avl_tree_remove-absent l key sl
              (sym (find_left key (entries l) k v (entries r) below above lt) ∙ gone) in
          ground (arith, rest)
      | inr (inl eq) ↦
          absurd
            (none-ne-some v (sym gone ∙ find_here key (entries l) k v (entries r) below above eq))
      | inr (inr gt) ↦
          let rest =
            avl_tree_remove-absent r key sr
              (sym (find_right key (entries l) k v (entries r) below above gt) ∙ gone) in
          ground (arith, rest)
    ]
