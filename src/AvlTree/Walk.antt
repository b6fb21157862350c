-- ===== src/AvlTree/Walk.antt =====
-- The walk over a search tree in the order of its entries.
use infinity_os.Base.{
  ℕ, ◌≡◌, refl, Option, none, some, List, [], ◌∷◌, ◌++◌, if◌then◌else◌, ap, ◌∙◌, sym, inl, inr,
  Bool-cases,
}
use mathlib.Core.List.{append_assoc, append-nil}
use infinity_os.AvlTree.{
  Tree, empty, node, Ancestor, climb_left, climb_right, avl_tree_first, avl_tree_last,
  avl_tree_prev, avl_tree_next,
}
use infinity_os.AvlTree.Entries.{Entry, entries}

abbrev pub first : List Entry → Option Entry
first [] = none
first (e ∷ es) = some e

abbrev pub last : List Entry → Option Entry
last [] = none
last (e ∷ []) = some e
last (e ∷ f ∷ es) = last (f ∷ es)

-- The whole tree around a subtree.
abbrev pub whole : Tree → List Ancestor → Tree
whole t [] = t
whole t (a ∷ up) =
    whole
      (if a.from_left
        then node t a.key a.value a.height a.other
        else node a.other a.key a.value a.height t)
      up

-- The entries on both sides of a subtree.
abbrev pub before : List Ancestor → List Entry
before [] = []
before (a ∷ up) =
    let rest = before up in
    if a.from_left then rest else rest ++ (entries a.other ++ (a.key, a.value) ∷ [])

abbrev pub behind : List Ancestor → List Entry
behind [] = []
behind (a ∷ up) =
    let rest = behind up in
    if a.from_left then (a.key, a.value) ∷ (entries a.other ++ rest) else rest

first-append :
    (xs : List Entry) (e : Entry) (ys zs : List Entry)
    → first ((xs ++ e ∷ ys) ++ zs) ≡ first (xs ++ e ∷ ys)
first-append [] e ys zs = refl
first-append (x ∷ xs) e ys zs = refl

last-append : (xs : List Entry) (e : Entry) (ys : List Entry) → last (xs ++ e ∷ ys) ≡ last (e ∷ ys)
last-append [] e ys = refl
last-append (x ∷ []) e ys = refl
last-append (x ∷ y ∷ xs) e ys = last-append (y ∷ xs) e ys

-- What stands before a list that is not empty does not matter.
last_behind :
    (es xs : List Entry) (e : Entry) (ys : List Entry)
    → last (es ++ (xs ++ e ∷ ys)) ≡ last (xs ++ e ∷ ys)
last_behind es xs e ys =
    ap last (sym (append_assoc es xs (e ∷ ys)))
    ∙ last-append (es ++ xs) e ys
    ∙ sym (last-append xs e ys)

avl_tree_first-first : (t : Tree) → avl_tree_first t ≡ first (entries t)
unfolding avl_tree_first entries
avl_tree_first-first empty = refl
avl_tree_first-first (node empty k v h r) = refl
avl_tree_first-first (node (node a x w g b) k v h r) =
    avl_tree_first-first (node a x w g b)
    ∙ sym (first-append (entries a) (x, w) (entries b) ((k, v) ∷ entries r))

avl_tree_last-last : (t : Tree) → avl_tree_last t ≡ last (entries t)
unfolding avl_tree_last entries
avl_tree_last-last empty = refl
avl_tree_last-last (node l k v h empty) = sym (last-append (entries l) (k, v) [])
avl_tree_last-last (node l k v h (node a x w g b)) =
    avl_tree_last-last (node a x w g b)
    ∙ sym (
        last-append (entries l) (k, v) (entries a ++ (x, w) ∷ entries b)
        ∙ last_behind ((k, v) ∷ []) (entries a) (x, w) (entries b))

entries-whole :
    (t : Tree) (up : List Ancestor) → entries (whole t up) ≡ before up ++ (entries t ++ behind up)
unfolding entries
entries-whole t [] = sym (append-nil (entries t))
entries-whole t (a ∷ up) = elim (Bool-cases a.from_left) [
  | inl p ↦ rw p (
      entries-whole (node t a.key a.value a.height a.other) up
      ∙ ap (λ e. before up ++ e)
          (append_assoc (entries t) ((a.key, a.value) ∷ entries a.other) (behind up)))
  | inr p ↦ rw p (
      entries-whole (node a.other a.key a.value a.height t) up
      ∙ ap (λ e. before up ++ e)
          (append_assoc (entries a.other) ((a.key, a.value) ∷ entries t) (behind up)
            ∙ sym (append_assoc (entries a.other) ((a.key, a.value) ∷ []) (entries t ++ behind up)))
      ∙ sym (
          append_assoc (before up) (entries a.other ++ (a.key, a.value) ∷ [])
            (entries t ++ behind up)))
]

climb_right-first : (up : List Ancestor) → climb_right up ≡ first (behind up)
unfolding climb_right
climb_right-first [] = refl
climb_right-first (a ∷ up) = elim (Bool-cases a.from_left) [
  | inl p ↦ rw p refl
  | inr p ↦ rw p (climb_right-first up)
]

climb_left-last : (up : List Ancestor) → climb_left up ≡ last (before up)
unfolding climb_left
climb_left-last [] = refl
climb_left-last (a ∷ up) = elim (Bool-cases a.from_left) [
  | inl p ↦ rw p (climb_left-last up)
  | inr p ↦ rw p (
      sym (
        last_behind (before up) (entries a.other) (a.key, a.value) []
        ∙ last-append (entries a.other) (a.key, a.value) []))
]

avl_tree_prev-last :
    (l r : Tree) (up : List Ancestor) → avl_tree_prev l r up ≡ last (before up ++ entries l)
unfolding avl_tree_prev entries
avl_tree_prev-last empty r up = climb_left-last up ∙ ap last (sym (append-nil (before up)))
avl_tree_prev-last (node a x w g b) r up =
    avl_tree_last-last (node a x w g b)
    ∙ sym (last_behind (before up) (entries a) (x, w) (entries b))

avl_tree_next-first :
    (l r : Tree) (up : List Ancestor) → avl_tree_next l r up ≡ first (entries r ++ behind up)
unfolding avl_tree_next entries
avl_tree_next-first l empty up = climb_right-first up
avl_tree_next-first l (node a x w g b) up =
    avl_tree_first-first (node a x w g b)
    ∙ sym (first-append (entries a) (x, w) (entries b) (behind up))

-- From each node of a tree the walk goes to the entries next to its own, and it starts and ends at
-- the first and the last one.
pub walk-InOrder :
    (l : Tree) (k v h : ℕ) (r : Tree) (up : List Ancestor)
    → (entries (whole (node l k v h r) up)
        ≡ (before up ++ entries l) ++ (k, v) ∷ (entries r ++ behind up))
      × (avl_tree_prev l r up ≡ last (before up ++ entries l))
      × (avl_tree_next l r up ≡ first (entries r ++ behind up))
      × (avl_tree_first (whole (node l k v h r) up) ≡ first (entries (whole (node l k v h r) up)))
      × (avl_tree_last (whole (node l k v h r) up) ≡ last (entries (whole (node l k v h r) up)))
unfolding entries
walk-InOrder l k v h r up = (
  entries-whole (node l k v h r) up
      ∙ ap (λ e. before up ++ e) (append_assoc (entries l) ((k, v) ∷ entries r) (behind up))
      ∙ sym (append_assoc (before up) (entries l) ((k, v) ∷ (entries r ++ behind up))),
  avl_tree_prev-last l r up,
  avl_tree_next-first l r up,
  avl_tree_first-first (whole (node l k v h r) up),
  avl_tree_last-last (whole (node l k v h r) up),
)
