-- ===== src/AvlTree/Balance.antt =====
-- The heights of a search tree, and the loop that restores them at one place of it.
use infinity_os.Base.{
  ℕ, suc, ◌+◌, ◌≤◌, ◌<◌, ◌≡◌, refl, true, false, Option, some, List, ◌∷◌, arith, sym, max,
}
use mathlib.Core.List.{append_assoc}
use infinity_os.AvlTree.{
  Tree, empty, node, stored, avl_tree_subtree_height, avl_tree_rotate_left, avl_tree_rotate_right,
  is_right_heavy, settle,
}
use infinity_os.AvlTree.Entries.{Entry, entries}

-- The height of an AVL tree: the heights that the children of every node store are theirs, and
-- differ by 1 at most. What the root itself stores is open.
abbrev pub Fits : Tree → ℕ → Type 0
Fits empty n = n ≡ 0
Fits (node l k v h r) n =
    (a : ℕ) × (b : ℕ) × (stored l ≡ a)
    × Fits l a
    × (stored r ≡ b)
    × Fits r b
    × (a ≤ b + 1)
    × (b ≤ a + 1)
    × (n ≡ suc (max a b))

-- What the root stores is its height too.
abbrev pub Exact : Tree → ℕ → Type 0
Exact t n = (stored t ≡ n) × Fits t n

pub subtree_height-Exact : (t : Tree) (n : ℕ) → Fits t n → Exact (avl_tree_subtree_height t) n
subtree_height-Exact empty n f = ground arith
subtree_height-Exact (node l k v h r) n f =
    let (a, b, p, fl, q, fr, c, d, e) = f in (ground arith, f)

pub entries-subtree_height : (t : Tree) → entries (avl_tree_subtree_height t) ≡ entries t
unfolding entries
entries-subtree_height empty = refl
entries-subtree_height (node l k v h r) = refl

-- The loop leaves an AVL tree of a height, with given entries.
abbrev pub Settles : Option Tree → ℕ → List Entry → Type 0
Settles o n es = (t : Tree) × (o ≡ some t) × Fits t n × (entries t ≡ es)

pub is_right_heavy-light :
    (l r : Tree) (a b : ℕ) → stored l ≡ a → stored r ≡ b → b ≤ a + 1 → is_right_heavy l r ≡ false
is_right_heavy-light l r a b p q h = ground arith

pub is_right_heavy-heavy :
    (l r : Tree) (a b : ℕ) → stored l ≡ a → stored r ≡ b → a + 1 < b → is_right_heavy l r ≡ true
is_right_heavy-heavy l r a b p q h = ground arith

-- A tree whose root has children that fit, whatever they store.
abbrev pub Ready : Tree → ℕ → Type 0
Ready empty n = n ≡ 0
Ready (node l k v h r) n =
    (a : ℕ) × (b : ℕ) × Fits l a × Fits r b × (a ≤ b + 1) × (b ≤ a + 1) × (n ≡ suc (max a b))

pub settle-Ready :
    (rounds : ℕ) (t : Tree) (n : ℕ) → Ready t n → Settles (settle (suc rounds) t) n (entries t)
unfolding settle entries
settle-Ready rounds empty n f = (empty, refl, f, refl)
settle-Ready rounds (node l k v h r) n f =
    let (a, b, fl, fr, c, d, size) = f in
    let (p, el) = subtree_height-Exact l a fl in
    let (q, er) = subtree_height-Exact r b fr in
    let light =
      is_right_heavy-light (avl_tree_subtree_height l) (avl_tree_subtree_height r) a b p q d in
    let calm =
      is_right_heavy-light (avl_tree_subtree_height r) (avl_tree_subtree_height l) b a q p c in
    (
      node (avl_tree_subtree_height l) k v h (avl_tree_subtree_height r),
      rw light (rw calm refl),
      (a, b, p, el, q, er, c, d, size),
      rw (entries-subtree_height l) (rw (entries-subtree_height r) refl),
    )

-- A change of the tree that leaves it ready.
abbrev pub Turns : Option Tree → ℕ → List Entry → Type 0
Turns o n es = (t : Tree) × (o ≡ some t) × Ready t n × (entries t ≡ es)

pub rotate_left-Turns :
    (l : Tree) (k v h : ℕ) (b : Tree) (kr vr hr : ℕ) (c : Tree) (x y z : ℕ)
    → Exact l x
    → Exact b y
    → Fits c z
    → x ≤ y + 1
    → y ≤ x + 1
    → suc (max x y) ≤ z + 1
    → z ≤ suc (max x y) + 1
    → Turns
        (avl_tree_rotate_left (node l k v h (node b kr vr hr c)))
        (suc (max (suc (max x y)) z))
        (entries (node l k v h (node b kr vr hr c)))
unfolding entries
rotate_left-Turns l k v h b kr vr hr c x y z el eb fc p q s t = (
  node (node l k v h b) kr vr hr c,
  refl,
  (suc (max x y), z, (x, y, el.0, el.1, eb.0, eb.1, p, q, refl), fc, s, t, refl),
  append_assoc (entries l) ((k, v) ∷ entries b) ((kr, vr) ∷ entries c),
)

pub rotate_right-Turns :
    (a : Tree) (kl vl hl : ℕ) (b : Tree) (k v h : ℕ) (r : Tree) (x y z : ℕ)
    → Fits a x
    → Exact b y
    → Exact r z
    → y ≤ z + 1
    → z ≤ y + 1
    → suc (max y z) ≤ x + 1
    → x ≤ suc (max y z) + 1
    → Turns
        (avl_tree_rotate_right (node (node a kl vl hl b) k v h r))
        (suc (max x (suc (max y z))))
        (entries (node (node a kl vl hl b) k v h r))
unfolding entries
rotate_right-Turns a kl vl hl b k v h r x y z fa eb er p q s t = (
  node a kl vl hl (node b k v h r),
  refl,
  (x, suc (max y z), fa, (y, z, eb.0, eb.1, er.0, er.1, p, q, refl), t, s, refl),
  sym (append_assoc (entries a) ((kl, vl) ∷ entries b) ((k, v) ∷ entries r)),
)
