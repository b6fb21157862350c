-- ===== src/AvlTree/Turning.antt =====
-- `avl_tree_balance_node` where one child is higher than the other by 2.
use infinity_os.Base.{
  ℕ, suc, ◌+◌, ◌≤◌, ◌<◌, ◌≡◌, refl, Option, some, List, ◌∷◌, ◌++◌, ltb, arith, ap, ◌∙◌, sym, max,
  ◌⊎◌, inl, inr, Bool-cases, lt→ltb,
}
use mathlib.Core.List.{append_assoc}
use infinity_os.AvlTree.{
  Tree, empty, node, stored, avl_tree_subtree_height, avl_tree_balance_factor, turn_right_child,
  turn_left_child, avl_tree_balance_node,
}
use infinity_os.AvlTree.Entries.{Entry, entries}
use infinity_os.AvlTree.Balance.{
  Fits, Exact, subtree_height-Exact, entries-subtree_height, is_right_heavy-light,
  is_right_heavy-heavy, Turns, rotate_left-Turns, rotate_right-Turns,
}

pub le_or_lt : (a b : ℕ) → (a ≤ b) ⊎ (b < a)
le_or_lt a b = elim (Bool-cases (ltb b a)) [
  | inl p ↦ inr (ground arith)
  | inr p ↦ inl (ground arith)
]

-- The right child before the second rotation: its right side is not the lower one.
abbrev pub LeansRight : Option Tree → ℕ → List Entry → Type 0
LeansRight o n es =
    (b : Tree) × (k : ℕ) × (v : ℕ) × (h : ℕ) × (c : Tree) × (y : ℕ) × (z : ℕ) × (o
      ≡ some (node b k v h c))
    × Exact b y
    × Fits c z
    × (y ≤ z)
    × (z ≤ y + 2)
    × (suc z ≡ n)
    × (entries (node b k v h c) ≡ es)

abbrev pub LeansLeft : Option Tree → ℕ → List Entry → Type 0
LeansLeft o n es =
    (a : Tree) × (k : ℕ) × (v : ℕ) × (h : ℕ) × (b : Tree) × (x : ℕ) × (y : ℕ) × (o
      ≡ some (node a k v h b))
    × Fits a x
    × Exact b y
    × (y ≤ x)
    × (x ≤ y + 2)
    × (suc x ≡ n)
    × (entries (node a k v h b) ≡ es)

turn_right_child-lean :
    (b : Tree) (k v h : ℕ) (c : Tree) (n y z : ℕ)
    → Fits b y
    → Fits c z
    → y ≤ z
    → z ≤ y + 1
    → n ≡ suc (max y z)
    → LeansRight
        (turn_right_child (avl_tree_balance_factor (node b k v h c)))
        n
        (entries (node b k v h c))
unfolding entries
turn_right_child-lean b k v h c n y z fb fc p q size =
    let (sb, eb) = subtree_height-Exact b y fb in
    let (sc, ec) = subtree_height-Exact c z fc in
    (
      avl_tree_subtree_height b,
      k,
      v,
      h,
      avl_tree_subtree_height c,
      y,
      z,
      ground arith,
      (sb, eb),
      ec,
      p,
      ground arith,
      ground arith,
      rw (entries-subtree_height b) (rw (entries-subtree_height c) refl),
    )

turn_right_child-rotate :
    (b : Tree) (k v h : ℕ) (c : Tree) (n y z : ℕ)
    → Fits b y
    → Fits c z
    → z < y
    → y ≤ z + 1
    → n ≡ suc (max y z)
    → LeansRight
        (turn_right_child (avl_tree_balance_factor (node b k v h c)))
        n
        (entries (node b k v h c))
unfolding entries
turn_right_child-rotate empty k v h c n y z fb fc p q size = absurd (omega (arith, fb))
turn_right_child-rotate (node a kl vl hl b) k v h c n y z fb fc p q size =
    let (x, w, sa, fa, sb, eb, g, e, tall) = fb in
    let (sc, ec) = subtree_height-Exact c z fc in
    let (high, _) = subtree_height-Exact (node a kl vl hl b) y fb in
    let leans =
      lt→ltb (stored (avl_tree_subtree_height c)) (max (stored a + 1) (stored b + 1))
        (omega (arith, sc, high, p)) in
    (
      a,
      kl,
      vl,
      max (stored a + 1) (stored b + 1),
      node b k v h (avl_tree_subtree_height c),
      x,
      suc (max w z),
      rw leans refl,
      (sa, fa),
      (w, z, sb, eb, sc, ec, ground arith, ground arith, refl),
      ground arith,
      ground arith,
      ground arith,
      rw (entries-subtree_height c)
          (sym (append_assoc (entries a) ((kl, vl) ∷ entries b) ((k, v) ∷ entries c))),
    )

pub turn_right_child-LeansRight :
    (r : Tree) (n : ℕ)
    → Fits r n
    → 0 < n
    → LeansRight (turn_right_child (avl_tree_balance_factor r)) n (entries r)
turn_right_child-LeansRight empty n f h = absurd (omega (arith, f))
turn_right_child-LeansRight (node b k v h c) n f hn =
    let (y, z, sb, fb, sc, fc, p, q, size) = f in
    elim (le_or_lt y z) [
      | inl le ↦ turn_right_child-lean b k v h c n y z fb fc le q size
      | inr lt ↦ turn_right_child-rotate b k v h c n y z fb fc lt p size
    ]

-- The tree that is left is ready, and has one of two heights.
abbrev pub Rebalances : Option Tree → (a b : ℕ) → List Entry → Type 0
Rebalances o a b es = (m : ℕ) × (m ≤ suc (max a b)) × (a + b + 2 ≤ m + m) × Turns o m es

pub balance_node-right :
    (l : Tree) (k v h : ℕ) (r : Tree) (a b : ℕ)
    → Exact l a
    → Exact r b
    → b ≡ a + 2
    → Rebalances (avl_tree_balance_node (node l k v h r)) a b (entries (node l k v h r))
unfolding avl_tree_balance_node entries
balance_node-right l k v h r a b el er gap =
    let (p, kr, vr, hr, q, y, z, turned, ep, fq, le, ge, high, es) =
      turn_right_child-LeansRight r b er.1 (omega arith) in
    let (t, rotated, ready, same) =
      rotate_left-Turns l k v h p kr vr hr q a y z el ep fq (ground arith) (ground arith)
        (ground arith) (ground arith) in
    let heavy = is_right_heavy-heavy l r a b el.0 er.0 (omega arith) in
    (
      suc (max (suc (max a y)) z),
      ground arith,
      ground arith,
      (t, rw heavy (rw turned rotated), ready, same ∙ ap (λ e. entries l ++ (k, v) ∷ e) es),
    )

turn_left_child-lean :
    (a : Tree) (k v h : ℕ) (b : Tree) (n x y : ℕ)
    → Fits a x
    → Fits b y
    → y ≤ x
    → x ≤ y + 1
    → n ≡ suc (max x y)
    → LeansLeft
        (turn_left_child (avl_tree_balance_factor (node a k v h b)))
        n
        (entries (node a k v h b))
unfolding entries
turn_left_child-lean a k v h b n x y fa fb p q size =
    let (sa, ea) = subtree_height-Exact a x fa in
    let (sb, eb) = subtree_height-Exact b y fb in
    (
      avl_tree_subtree_height a,
      k,
      v,
      h,
      avl_tree_subtree_height b,
      x,
      y,
      ground arith,
      ea,
      (sb, eb),
      p,
      ground arith,
      ground arith,
      rw (entries-subtree_height a) (rw (entries-subtree_height b) refl),
    )

turn_left_child-rotate :
    (a : Tree) (k v h : ℕ) (b : Tree) (n x y : ℕ)
    → Fits a x
    → Fits b y
    → x < y
    → y ≤ x + 1
    → n ≡ suc (max x y)
    → LeansLeft
        (turn_left_child (avl_tree_balance_factor (node a k v h b)))
        n
        (entries (node a k v h b))
unfolding entries
turn_left_child-rotate a k v h empty n x y fa fb p q size = absurd (omega (arith, fb))
turn_left_child-rotate a k v h (node b kr vr hr c) n x y fa fb p q size =
    let (w, z, sb, eb, sc, fc, g, e, tall) = fb in
    let (sa, ea) = subtree_height-Exact a x fa in
    let (high, _) = subtree_height-Exact (node b kr vr hr c) y fb in
    let leans =
      lt→ltb (stored (avl_tree_subtree_height a)) (max (stored b + 1) (stored c + 1))
        (omega (arith, sa, high, p)) in
    (
      node (avl_tree_subtree_height a) k v h b,
      kr,
      vr,
      max (stored b + 1) (stored c + 1),
      c,
      suc (max x w),
      z,
      rw leans refl,
      (x, w, sa, ea, sb, eb, ground arith, ground arith, refl),
      (sc, fc),
      ground arith,
      ground arith,
      ground arith,
      rw (entries-subtree_height a)
          (append_assoc (entries a) ((k, v) ∷ entries b) ((kr, vr) ∷ entries c)),
    )

pub turn_left_child-LeansLeft :
    (l : Tree) (n : ℕ)
    → Fits l n
    → 0 < n
    → LeansLeft (turn_left_child (avl_tree_balance_factor l)) n (entries l)
turn_left_child-LeansLeft empty n f h = absurd (omega (arith, f))
turn_left_child-LeansLeft (node a k v h b) n f hn =
    let (x, y, sa, fa, sb, fb, p, q, size) = f in
    elim (le_or_lt y x) [
      | inl le ↦ turn_left_child-lean a k v h b n x y fa fb le p size
      | inr lt ↦ turn_left_child-rotate a k v h b n x y fa fb lt q size
    ]

pub balance_node-left :
    (l : Tree) (k v h : ℕ) (r : Tree) (a b : ℕ)
    → Exact l a
    → Exact r b
    → a ≡ b + 2
    → Rebalances (avl_tree_balance_node (node l k v h r)) a b (entries (node l k v h r))
unfolding avl_tree_balance_node entries
balance_node-left l k v h r a b el er gap =
    let (p, kl, vl, hl, q, x, y, turned, fp, eq, le, ge, high, es) =
      turn_left_child-LeansLeft l a el.1 (omega arith) in
    let (t, rotated, ready, same) =
      rotate_right-Turns p kl vl hl q k v h r x y b fp eq er (ground arith) (ground arith)
        (ground arith) (ground arith) in
    let light = is_right_heavy-light l r a b el.0 er.0 (omega arith) in
    let heavy = is_right_heavy-heavy r l b a er.0 el.0 (omega arith) in
    (
      suc (max x (suc (max y b))),
      ground arith,
      ground arith,
      (
        t,
        rw light (rw heavy (rw turned rotated)),
        ready,
        same ∙ ap (λ e. e ++ (k, v) ∷ entries r) es,
      ),
    )
