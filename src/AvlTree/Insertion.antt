-- ===== src/AvlTree/Insertion.antt =====
-- `avl_tree_insert` against the entries of the tree.
use infinity_os.Base.{
  ℕ, ◌+◌, ◌≤◌, ◌<◌, ◌≡◌, refl, true, false, Option, none, List, ltb, arith, ◌∙◌, sym, inl, inr,
  ◌==◌,
}
use mathlib.Core.Option.{none-ne-some}
use infinity_os.AvlTree.{Tree, empty, node, avl_tree_insert}
use infinity_os.AvlTree.Entries.{
  Entry, entries, find, put, IsSorted, Below, split-IsSorted, side, find_left, find_right,
  find_here, put_left, put_right,
}
use infinity_os.AvlTree.Balance.{Fits, Settles}
use infinity_os.AvlTree.Settling.{settle_left-Restores, settle_right-Restores}

-- The tree may grow by one level.
abbrev pub Grows : Option Tree → ℕ → List Entry → Type 0
Grows o n es = (m : ℕ) × (n ≤ m) × (m ≤ n + 1) × Settles o m es

module _ (l : Tree) (k v h : ℕ) (r : Tree) (key value n : ℕ) (fits : Fits (node l k v h r) n) where
  insert_left-Grows :
      ((a : ℕ) → Fits l a → Grows (avl_tree_insert l key value) a (put key value (entries l)))
      → key < k
      → Grows
          (avl_tree_insert (node l k v h r) key value)
          n
          (put key value (entries (node l k v h r)))
  unfolding avl_tree_insert entries
  insert_left-Grows grows lt =
      let (a, b, p, fl, q, fr, c, d, size) = fits in
      let (a', more, less, settles) = grows a fl in
      let (m, low, high, (w, done, t, same)) =
        settle_left-Restores (avl_tree_insert l key value) k v h r a' b (put key value (entries l))
          settles fr (omega arith) (omega arith) in
      let other : (key == k) ≡ false = ground arith in
      let left : ltb k key ≡ false = ground arith in
      (
        m,
        ground arith,
        ground arith,
        (
          w,
          rw other (rw left done),
          t,
          same ∙ sym (put_left key value (entries l) k v (entries r) lt),
        ),
      )

  insert_right-Grows :
      ((b : ℕ) → Fits r b → Grows (avl_tree_insert r key value) b (put key value (entries r)))
      → Below k (entries l)
      → k < key
      → Grows
          (avl_tree_insert (node l k v h r) key value)
          n
          (put key value (entries (node l k v h r)))
  unfolding avl_tree_insert entries
  insert_right-Grows grows below lt =
      let (a, b, p, fl, q, fr, c, d, size) = fits in
      let (b', more, less, settles) = grows b fr in
      let (m, low, high, (w, done, t, same)) =
        settle_right-Restores l k v h (avl_tree_insert r key value) a b' (put key value (entries r))
          fl settles (omega arith) (omega arith) in
      let other : (key == k) ≡ false = ground arith in
      let right : ltb k key ≡ true = ground arith in
      (
        m,
        ground arith,
        ground arith,
        (
          w,
          rw other (rw right done),
          t,
          same ∙ sym (put_right key value (entries l) k v (entries r) below lt),
        ),
      )

pub avl_tree_insert-Grows :
    (t : Tree) (n key value : ℕ)
    → Fits t n
    → IsSorted (entries t)
    → find key (entries t) ≡ none
    → Grows (avl_tree_insert t key value) n (put key value (entries t))
unfolding avl_tree_insert entries put
avl_tree_insert-Grows empty n key value f s new = (
  1,
  omega (arith, f),
  omega (arith, f),
  (
    node empty key value 0 empty,
    refl,
    (0, 0, refl, refl, refl, refl, omega arith, omega arith, refl),
    refl,
  ),
)
avl_tree_insert-Grows (node l k v h r) n key value f s new =
    let (below, sl, above, sr) = split-IsSorted (entries l) k v (entries r) s in
    elim (side key k) [
      | inl lt ↦
          insert_left-Grows l k v h r key value n f
            (λ a fl.
              avl_tree_insert-Grows l a key value fl sl
                (sym (find_left key (entries l) k v (entries r) below above lt) ∙ new))
            lt
      | inr (inl eq) ↦
          absurd
            (none-ne-some v (sym new ∙ find_here key (entries l) k v (entries r) below above eq))
      | inr (inr gt) ↦
          insert_right-Grows l k v h r key value n f
            (λ b fr.
              avl_tree_insert-Grows r b key value fr sr
                (sym (find_right key (entries l) k v (entries r) below above gt) ∙ new))
            below gt
    ]
