-- ===== src/AvlTree/Height.antt =====
-- The trees that a program can reach, and how high they are.
use infinity_os.Base.{
  ℕ, zero, suc, ◌+◌, ◌^◌, ◌≤◌, ◌≡◌, refl, Option, some, List, ◌∷◌, arith, ◌∙◌, sym, inl, inr, subst,
  max, length, length-append, Option-cases,
}
use mathlib.Core.Option.{none-ne-some, some-injective}
use infinity_os.AvlTree.{Tree, empty, node, avl_tree_insert, avl_tree_remove}
use infinity_os.AvlTree.Entries.{Entry, entries, find}
use infinity_os.AvlTree.Balance.{Fits}
use infinity_os.AvlTree.Map.{
  IsSearchTree, Yields, avl_tree_insert-Yields, avl_tree_remove-Yields, avl_tree_insert-present,
  avl_tree_remove-absent,
}

-- The trees that insertions and removals which succeed make of the empty one.
pub data Built : Tree → Type 0 where
  start : Built empty
  insert :
      (t t' : Tree) (key value : ℕ) → Built t → avl_tree_insert t key value ≡ some t' → Built t'
  remove : (t t' : Tree) (key : ℕ) → Built t → avl_tree_remove t key ≡ some t' → Built t'

yielded : (o : Option Tree) (es : List Entry) (t : Tree) → Yields o es → o ≡ some t → IsSearchTree t
yielded o es t (w, done, good, same) here =
    subst IsSearchTree (some-injective w t (sym done ∙ here)) good

pub Built-IsSearchTree : (t : Tree) → Built t → IsSearchTree t
unfolding entries
Built-IsSearchTree t start = ((0, refl), tt)
Built-IsSearchTree t (insert u _ key value b here) =
    let good = Built-IsSearchTree u b in
    elim (Option-cases (find key (entries u))) [
      | inl new ↦
          yielded (avl_tree_insert u key value) _ t (avl_tree_insert-Yields u key value good new)
            here
      | inr (old, old_at) ↦
          absurd
            (none-ne-some t (sym (avl_tree_insert-present u key value old good.1 old_at) ∙ here))
    ]
Built-IsSearchTree t (remove u _ key b here) =
    let good = Built-IsSearchTree u b in
    elim (Option-cases (find key (entries u))) [
      | inl gone ↦ absurd (none-ne-some t (sym (avl_tree_remove-absent u key good.1 gone) ∙ here))
      | inr (old, old_at) ↦
          yielded (avl_tree_remove u key) _ t (avl_tree_remove-Yields u key old good old_at) here
    ]

-- The number of nodes on the longest way down, which bounds the loops.
abbrev pub depth : Tree → ℕ
depth empty = 0
depth (node l k v h r) = suc (max (depth l) (depth r))

Fits-depth : (t : Tree) (n : ℕ) → Fits t n → depth t ≡ n
Fits-depth empty n f = sym f
Fits-depth (node l k v h r) n f =
    let (a, b, p, fl, q, fr, c, d, size) = f in rw (Fits-depth l a fl, Fits-depth r b fr) (sym size)

double : (j n : ℕ) → 2 ^ j ≤ n → (m : ℕ) → 2 ^ j ≤ m → 2 ^ suc j ≤ n + m
double j n p m q = omega (arith, p, q)

Fits-length : (t : Tree) (n j : ℕ) → Fits t n → j + j ≤ n → 2 ^ j ≤ suc (length (entries t))
unfolding entries
Fits-length t n zero f h = omega arith
Fits-length empty n (suc j) f h = absurd (omega (arith, f))
Fits-length (node l k v h r) n (suc j) f high =
    let (a, b, p, fl, q, fr, c, d, size) = f in
    let left = Fits-length l a j fl (ground arith) in
    let right = Fits-length r b j fr (ground arith) in
    let split = length-append (entries l) ((k, v) ∷ entries r) in
    omega (arith, split, double j (suc (length (entries l))) left (suc (length (entries r))) right)

pub Built-depth : (t : Tree) (j : ℕ) → Built t → j + j ≤ depth t → 2 ^ j ≤ suc (length (entries t))
Built-depth t j b high =
    let ((n, f), _) = Built-IsSearchTree t b in
    Fits-length t n j f (omega (arith, Fits-depth t n f, high))
