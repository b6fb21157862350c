-- ===== src/AvlTree/Settling.antt =====
-- The loop up the tree at one place: two rounds restore the balance there.
use infinity_os.Base.{
  ℕ, suc, ◌+◌, ◌≤◌, ◌≡◌, refl, true, Option, some, List, ◌∷◌, ◌++◌, arith, ◌∙◌, subst, max, inl,
  inr,
}
use infinity_os.AvlTree.{
  Tree, node, avl_tree_subtree_height, avl_tree_balance_factor, avl_tree_balance_node,
  is_unbalanced, settle, settled, settle_left, settle_right,
}
use infinity_os.AvlTree.Entries.{Entry, entries}
use infinity_os.AvlTree.Balance.{
  Fits, subtree_height-Exact, entries-subtree_height, Settles, is_right_heavy-light,
  is_right_heavy-heavy, settle-Ready,
}
use infinity_os.AvlTree.Turning.{le_or_lt, Rebalances, balance_node-right, balance_node-left}

-- The loop succeeds, and the tree that it leaves has one of two heights.
abbrev pub Restores : Option Tree → (a b : ℕ) → List Entry → Type 0
Restores o a b es = (m : ℕ) × (m ≤ suc (max a b)) × (a + b + 2 ≤ m + m) × Settles o m es

settle-heavy :
    (t u : Tree)
    → is_unbalanced (avl_tree_balance_factor t) ≡ true
    → avl_tree_balance_node (avl_tree_balance_factor t) ≡ some u
    → settled t ≡ settle 1 u
unfolding settle
settle-heavy t u heavy turned = rw (heavy, turned) refl

settled-turned :
    (t : Tree) (a b : ℕ) (es : List Entry)
    → is_unbalanced (avl_tree_balance_factor t) ≡ true
    → Rebalances (avl_tree_balance_node (avl_tree_balance_factor t)) a b es
    → Restores (settled t) a b es
settled-turned t a b es heavy (m, le, ge, (u, turned, ready, same)) =
    let (w, done, fits, kept) = settle-Ready 0 u m ready in
    (m, le, ge, (w, settle-heavy t u heavy turned ∙ done, fits, kept ∙ same))

entries-measured :
    (l : Tree) (k v h : ℕ) (r : Tree)
    → entries (avl_tree_balance_factor (node l k v h r)) ≡ entries (node l k v h r)
unfolding entries
entries-measured l k v h r = rw (entries-subtree_height l) (rw (entries-subtree_height r) refl)

pub settled-Restores :
    (l : Tree) (k v h : ℕ) (r : Tree) (a b : ℕ)
    → Fits l a
    → Fits r b
    → a ≤ b + 2
    → b ≤ a + 2
    → Restores (settled (node l k v h r)) a b (entries (node l k v h r))
settled-Restores l k v h r a b fl fr c d =
    let el = subtree_height-Exact l a fl in
    let er = subtree_height-Exact r b fr in
    let l' = avl_tree_subtree_height l in
    let r' = avl_tree_subtree_height r in
    elim (le_or_lt b (a + 1)) [
      | inr right ↦
          subst (λ es. Restores (settled (node l k v h r)) a b es) (entries-measured l k v h r)
            (settled-turned (node l k v h r) a b (entries (node l' k v h r'))
              (rw (is_right_heavy-heavy l' r' a b el.0 er.0 (omega arith)) refl)
              (balance_node-right l' k v h r' a b el er (omega arith)))
      | inl light ↦ elim (le_or_lt a (b + 1)) [
        | inl calm ↦ (
          suc (max a b),
          omega arith,
          ground arith,
          settle-Ready 1 (node l k v h r) (suc (max a b)) (a, b, fl, fr, calm, light, refl),
        )
        | inr left ↦
            subst (λ es. Restores (settled (node l k v h r)) a b es) (entries-measured l k v h r)
              (settled-turned (node l k v h r) a b (entries (node l' k v h r'))
                (rw
                  (
                    is_right_heavy-light l' r' a b el.0 er.0 light,
                    is_right_heavy-heavy r' l' b a er.0 el.0 (omega arith),
                  )
                  refl)
                (balance_node-left l' k v h r' a b el er (omega arith)))
      ]
    ]

pub settle_left-Restores :
    (o : Option Tree) (k v h : ℕ) (r : Tree) (a b : ℕ) (es : List Entry)
    → Settles o a es
    → Fits r b
    → a ≤ b + 2
    → b ≤ a + 2
    → Restores (settle_left o k v h r) a b (es ++ (k, v) ∷ entries r)
unfolding entries
settle_left-Restores o k v h r a b es (l, here, fits, same) fr c d =
    let whole = settled-Restores l k v h r a b fits fr c d in
    rw here
      (subst (λ e. Restores (settled (node l k v h r)) a b (e ++ (k, v) ∷ entries r)) same whole)

pub settle_right-Restores :
    (l : Tree) (k v h : ℕ) (o : Option Tree) (a b : ℕ) (es : List Entry)
    → Fits l a
    → Settles o b es
    → a ≤ b + 2
    → b ≤ a + 2
    → Restores (settle_right l k v h o) a b (entries l ++ (k, v) ∷ es)
unfolding entries
settle_right-Restores l k v h o a b es fl (r, here, fits, same) c d =
    let whole = settled-Restores l k v h r a b fl fits c d in
    rw here
      (subst (λ e. Restores (settled (node l k v h r)) a b (entries l ++ (k, v) ∷ e)) same whole)
