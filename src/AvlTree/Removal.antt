-- ===== src/AvlTree/Removal.antt =====
-- `avl_tree_remove` against the entries of the tree.
use infinity_os.Base.{
  ℕ, suc, ◌+◌, ◌≤◌, ◌<◌, ◌≡◌, refl, true, false, Option, some, List, [], ◌∷◌, ◌++◌, ltb, arith, ap,
  ◌∙◌, sym, max, inl, inr, ◌==◌, subst,
}
use mathlib.Core.Option.{none-ne-some}
use mathlib.Core.List.{append_assoc}
use infinity_os.AvlTree.{
  Tree, empty, node, settle_left, settled, settle_child, Taken, take_last, put_last, join,
  avl_tree_remove,
}
use infinity_os.AvlTree.Entries.{
  Entry, entries, find, delete, IsSorted, Above, Below, split-IsSorted, side, find_left, find_right,
  delete_left, delete_here, delete_right,
}
use infinity_os.AvlTree.Balance.{Fits, Settles}
use infinity_os.AvlTree.Settling.{settled-Restores, settle_left-Restores, settle_right-Restores}

-- The tree may lose one level.
abbrev pub Shrinks : Option Tree → ℕ → List Entry → Type 0
Shrinks o n es = (m : ℕ) × (m ≤ n) × (n ≤ m + 1) × Settles o m es

-- A tree that is balanced already keeps its height.
settle_child-Settles : (t : Tree) (n : ℕ) → Fits t n → Settles (settle_child t) n (entries t)
unfolding entries
settle_child-Settles empty n f = (empty, refl, f, refl)
settle_child-Settles (node l k v h r) n f =
    let (a, b, p, fl, q, fr, c, d, size) = f in
    let (m, low, high, s) = settled-Restores l k v h r a b fl fr (omega arith) (omega arith) in
    let same : m ≡ n = ground arith in
    subst (λ m. Settles (settled (node l k v h r)) m (entries l ++ (k, v) ∷ entries r)) same s

-- The last entry is taken off.
abbrev pub TakesLast : Taken → ℕ → List Entry → Type 0
TakesLast ((k, v, h), rest) n es =
    (m : ℕ) × (m ≤ n)
    × (n ≤ m + 1)
    × (kept : List Entry) × Settles rest m kept
    × (kept ++ (k, v) ∷ [] ≡ es)

pub take_last-TakesLast :
    (l : Tree) (k v h : ℕ) (r : Tree) (n : ℕ)
    → Fits (node l k v h r) n
    → TakesLast (take_last l k v h r) n (entries (node l k v h r))
unfolding take_last entries
take_last-TakesLast l k v h empty n f =
    let (a, b, p, fl, q, fr, c, d, size) = f in
    (a, ground arith, ground arith, entries l, settle_child-Settles l a fl, refl)
take_last-TakesLast l k v h (node rl rk rv rh rr) n f =
    let (a, b, p, fl, q, fr, c, d, size) = f in
    let (b', less, more, kept, s, whole) = take_last-TakesLast rl rk rv rh rr b fr in
    let (m, low, high, done) =
      settle_right-Restores l k v h (take_last rl rk rv rh rr).1 a b' kept fl s (omega arith)
        (omega arith) in
    let last = (take_last rl rk rv rh rr).0 in
    (
      m,
      ground arith,
      ground arith,
      entries l ++ (k, v) ∷ kept,
      done,
      append_assoc (entries l) ((k, v) ∷ kept) ((last.0, last.1) ∷ [])
          ∙ ap (λ e. entries l ++ (k, v) ∷ e) whole,
    )

put_last-Shrinks :
    (taken : Taken) (r : Tree) (a b : ℕ) (es : List Entry)
    → TakesLast taken a es
    → Fits r b
    → a ≤ b + 1
    → b ≤ a + 1
    → Shrinks (put_last taken r) (suc (max a b)) (es ++ entries r)
put_last-Shrinks ((k, v, h), rest) r a b es (a', less, more, kept, s, whole) fr c d =
    let (m, low, high, done) =
      settle_left-Restores rest k v h r a' b kept s fr (omega arith) (omega arith) in
    (
      m,
      ground arith,
      ground arith,
      subst (λ e. Settles (settle_left rest k v h r) m e)
          (sym (append_assoc kept ((k, v) ∷ []) (entries r)) ∙ ap (λ e. e ++ entries r) whole) done,
    )

pub join-Shrinks :
    (l r : Tree) (a b : ℕ)
    → Fits l a
    → Fits r b
    → a ≤ b + 1
    → b ≤ a + 1
    → Shrinks (join l r) (suc (max a b)) (entries l ++ entries r)
unfolding join entries
join-Shrinks empty empty a b fl fr c d = (0, omega arith, ground arith, (empty, refl, refl, refl))
join-Shrinks empty (node l k v h r) a b fl fr c d =
    (b, ground arith, ground arith, settle_child-Settles (node l k v h r) b fr)
join-Shrinks (node ll lk lv lh empty) r a b fl fr c d =
    let (x, y, p, fx, q, fy, g, e, size) = fl in
    let (m, low, high, done) =
      settled-Restores ll lk lv lh r x b fx fr (ground arith) (ground arith) in
    (
      m,
      ground arith,
      ground arith,
      subst (λ e. Settles (settled (node ll lk lv lh r)) m e)
          (sym (append_assoc (entries ll) ((lk, lv) ∷ []) (entries r))) done,
    )
join-Shrinks (node ll lk lv lh (node s k v h t)) r a b fl fr c d =
    put_last-Shrinks (take_last ll lk lv lh (node s k v h t)) r a b
      (entries (node ll lk lv lh (node s k v h t)))
      (take_last-TakesLast ll lk lv lh (node s k v h t) a fl) fr c d

module _ (l : Tree) (k v h : ℕ) (r : Tree) (key n : ℕ) (fits : Fits (node l k v h r) n) where
  remove_left-Shrinks :
      ((a : ℕ) → Fits l a → Shrinks (avl_tree_remove l key) a (delete key (entries l)))
      → Above k (entries r)
      → key < k
      → Shrinks (avl_tree_remove (node l k v h r) key) n (delete key (entries (node l k v h r)))
  unfolding avl_tree_remove entries
  remove_left-Shrinks shrinks above lt =
      let (a, b, p, fl, q, fr, c, d, size) = fits in
      let (a', less, more, settles) = shrinks a fl in
      let (m, low, high, (w, done, t, same)) =
        settle_left-Restores (avl_tree_remove l key) k v h r a' b (delete key (entries l)) settles
          fr (omega arith) (omega arith) in
      let other : (key == k) ≡ false = ground arith in
      let left : ltb k key ≡ false = ground arith in
      (
        m,
        ground arith,
        ground arith,
        (
          w,
          rw other (rw left done),
          t,
          same ∙ sym (delete_left key (entries l) k v (entries r) lt above),
        ),
      )

  remove_right-Shrinks :
      ((b : ℕ) → Fits r b → Shrinks (avl_tree_remove r key) b (delete key (entries r)))
      → Below k (entries l)
      → k < key
      → Shrinks (avl_tree_remove (node l k v h r) key) n (delete key (entries (node l k v h r)))
  unfolding avl_tree_remove entries
  remove_right-Shrinks shrinks below lt =
      let (a, b, p, fl, q, fr, c, d, size) = fits in
      let (b', less, more, settles) = shrinks b fr in
      let (m, low, high, (w, done, t, same)) =
        settle_right-Restores l k v h (avl_tree_remove r key) a b' (delete key (entries r)) fl
          settles (omega arith) (omega arith) in
      let other : (key == k) ≡ false = ground arith in
      let right : ltb k key ≡ true = ground arith in
      (
        m,
        ground arith,
        ground arith,
        (
          w,
          rw other (rw right done),
          t,
          same ∙ sym (delete_right key (entries l) k v (entries r) lt below),
        ),
      )

  remove_here-Shrinks :
      Below k (entries l)
      → key ≡ k
      → Shrinks (avl_tree_remove (node l k v h r) key) n (delete key (entries (node l k v h r)))
  unfolding avl_tree_remove entries
  remove_here-Shrinks below eq =
      let (a, b, p, fl, q, fr, c, d, size) = fits in
      let here : (key == k) ≡ true = ground arith in
      let gone : delete key (entries l ++ (k, v) ∷ entries r) ≡ entries l ++ entries r =
        rw eq (delete_here (entries l) k v (entries r) below) in
      rw here (rw gone (rw size (join-Shrinks l r a b fl fr c d)))

pub avl_tree_remove-Shrinks :
    (t : Tree) (n key value : ℕ)
    → Fits t n
    → IsSorted (entries t)
    → find key (entries t) ≡ some value
    → Shrinks (avl_tree_remove t key) n (delete key (entries t))
unfolding entries find
avl_tree_remove-Shrinks empty n key value f s old = absurd (none-ne-some value old)
avl_tree_remove-Shrinks (node l k v h r) n key value f s old =
    let (below, sl, above, sr) = split-IsSorted (entries l) k v (entries r) s in
    elim (side key k) [
      | inl lt ↦
          remove_left-Shrinks l k v h r key n f
            (λ a fl.
              avl_tree_remove-Shrinks l a key value fl sl
                (sym (find_left key (entries l) k v (entries r) below above lt) ∙ old))
            above lt
      | inr (inl eq) ↦ remove_here-Shrinks l k v h r key n f below eq
      | inr (inr gt) ↦
          remove_right-Shrinks l k v h r key n f
            (λ b fr.
              avl_tree_remove-Shrinks r b key value fr sr
                (sym (find_right key (entries l) k v (entries r) below above gt) ∙ old))
            below gt
    ]
