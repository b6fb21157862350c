-- ===== src/AddressSpace/Keys.antt =====
-- The tree of an address space holds the allocated regions in the order of the list.
use infinity_os.Base.{
  ℕ, ◌≤◌, ◌<◌, ◌≡◌, refl, true, false, Option, none, some, List, [], ◌∷◌, ◌++◌, if◌then◌else◌,
  arith, ap, ◌∙◌, sym, Bool-cases, inl, inr, subst, ◌↔◌,
}
use mathlib.Core.List.{append_assoc}
use infinity_os.AvlTree.{Tree, avl_tree_insert, avl_tree_remove}
use infinity_os.AvlTree.Entries.{
  Entry, entries, find, put, delete, Above, Below, IsSorted, split-IsSorted, find_here, delete_here,
}
use infinity_os.AvlTree.Map.{IsSearchTree, avl_tree_insert-Yields, avl_tree_remove-Yields}
use infinity_os.AddressSpace.{Region, is_allocated}
use infinity_os.AddressSpace.Change.{onto}

unfoldable pub keyed : List Region → List Entry
keyed [] = []
keyed (r ∷ rs) =
    let rest = keyed rs in if is_allocated (r.state) then (r.start, r.id) ∷ rest else rest

abbrev pub InTree : Tree → List Region → Type 0
InTree t rs = IsSearchTree t × (entries t ≡ keyed rs)

keyed-cons : (r : Region) (ys : List Region) → keyed (r ∷ ys) ≡ keyed (r ∷ []) ++ keyed ys
unfolding keyed
keyed-cons r ys = elim (Bool-cases (is_allocated (r.state))) [
  | inl a ↦ rw a refl
  | inr u ↦ rw u refl
]

-- The entries of the regions before a place.
abbrev pub keyed_before : List Region → List Entry
keyed_before before = keyed (onto before [])

pub keyed-onto :
    (before ys : List Region) → keyed (onto before ys) ≡ keyed_before before ++ keyed ys
unfolding onto
keyed-onto [] ys = unfold keyed in refl
keyed-onto (r ∷ before) ys =
    rw (keyed-onto before (r ∷ ys), keyed-onto before (r ∷ []), keyed-cons r ys)
      (sym (append_assoc (keyed_before before) (keyed (r ∷ [])) (keyed ys)))

keyed_allocated :
    (r : Region) (ys : List Region)
    → is_allocated (r.state) ≡ true
    → keyed (r ∷ ys) ≡ (r.start, r.id) ∷ keyed ys
unfolding keyed
keyed_allocated r ys a = rw a refl

keyed_unused :
    (r : Region) (ys : List Region) → is_allocated (r.state) ≡ false → keyed (r ∷ ys) ≡ keyed ys
unfolding keyed
keyed_unused r ys u = rw u refl

pub keyed-here :
    (before : List Region) (r : Region) (ys : List Region)
    → is_allocated (r.state) ≡ true
    → keyed (onto before (r ∷ ys)) ≡ keyed_before before ++ (r.start, r.id) ∷ keyed ys
keyed-here before r ys a =
    keyed-onto before (r ∷ ys) ∙ ap (λ e. keyed_before before ++ e) (keyed_allocated r ys a)

pub keyed-other :
    (before : List Region) (r : Region) (ys : List Region)
    → is_allocated (r.state) ≡ false
    → keyed (onto before (r ∷ ys)) ≡ keyed (onto before ys)
keyed-other before r ys u =
    keyed-onto before (r ∷ ys)
    ∙ ap (λ e. keyed_before before ++ e) (keyed_unused r ys u)
    ∙ sym (keyed-onto before ys)

put-between :
    (k v : ℕ) (xs ys : List Entry)
    → Below k xs
    → Above k ys
    → put k v (xs ++ ys) ≡ xs ++ (k, v) ∷ ys
unfolding put
put-between k v [] [] b a = refl
put-between k v [] ((x, w) ∷ ys) b a = ground arith
put-between k v ((x, w) ∷ xs) ys b a = ground (arith, put-between k v xs ys)

find-from : (k : ℕ) (es : List Entry) → Above k es → find k es ≡ none
unfolding find
find-from k [] a = refl
find-from k ((x, w) ∷ es) a = ground (arith, find-from k es)

find-between : (k : ℕ) (xs ys : List Entry) → Below k xs → Above k ys → find k (xs ++ ys) ≡ none
unfolding find
find-between k [] ys b a = find-from k ys a
find-between k ((x, w) ∷ xs) ys b a = ground (arith, find-between k xs ys)

abbrev pub StartsFrom : ℕ → List Region → Type 0
StartsFrom m [] = Unit {0}
StartsFrom m (r ∷ rs) = (m ≤ r.start) × StartsFrom m rs

abbrev pub StartsBelow : ℕ → List Region → Type 0
StartsBelow m [] = Unit {0}
StartsBelow m (r ∷ rs) = (r.start < m) × StartsBelow m rs

pub Above-keyed : (k m : ℕ) (rs : List Region) → k < m → StartsFrom m rs → Above k (keyed rs)
unfolding keyed
Above-keyed k m [] h s = tt
Above-keyed k m (r ∷ rs) h s = elim (Bool-cases (is_allocated (r.state))) [
  | inl a ↦ rw a (omega (arith, s.0), Above-keyed k m rs h s.1)
  | inr u ↦ rw u (Above-keyed k m rs h s.1)
]

pub Below-append : (k : ℕ) (xs ys : List Entry) → Below k xs → Below k ys → Below k (xs ++ ys)
Below-append k [] ys b c = c
Below-append k ((x, w) ∷ xs) ys b c = (b.0, Below-append k xs ys b.1 c)

Below-one : (m : ℕ) (r : Region) → r.start < m → Below m (keyed (r ∷ []))
unfolding keyed
Below-one m r h = elim (Bool-cases (is_allocated (r.state))) [
  | inl a ↦ rw a (h, tt)
  | inr u ↦ rw u tt
]

pub Below-keyed :
    (m : ℕ) (before : List Region) → StartsBelow m before → Below m (keyed_before before)
unfolding keyed onto
Below-keyed m [] s = tt
Below-keyed m (r ∷ before) s = subst (Below m) (sym (keyed-onto before (r ∷ []))) (
    Below-append m (keyed_before before) (keyed (r ∷ [])) (Below-keyed m before s.1)
      (Below-one m r s.0))

-- The entries on both sides of an allocated region.
pub sides :
    (t : Tree) (before : List Region) (r : Region) (ys : List Region)
    → InTree t (onto before (r ∷ ys))
    → is_allocated (r.state) ≡ true
    → Below (r.start) (keyed_before before) × Above (r.start) (keyed ys)
sides t before r ys (((n, f), s), e) a =
    let (b, sb, c, sc) =
      split-IsSorted (keyed_before before) (r.start) (r.id) (keyed ys)
        (subst IsSorted (e ∙ keyed-here before r ys a) s) in
    (b, c)

-- A tree that an operation leaves.
abbrev pub Leaves : Option Tree → List Region → Type 0
Leaves o rs = (t : Tree) × (o ≡ some t) × InTree t rs

pub InTree-insert :
    (t : Tree) (before : List Region) (r : Region) (ys : List Region)
    → InTree t (onto before ys)
    → is_allocated (r.state) ≡ true
    → Below (r.start) (keyed_before before)
    → Above (r.start) (keyed ys)
    → Leaves (avl_tree_insert t (r.start) (r.id)) (onto before (r ∷ ys))
InTree-insert t before r ys (sorted, e) a below above =
    let old = e ∙ keyed-onto before ys in
    let new =
      ap (find (r.start)) old
      ∙ find-between (r.start) (keyed_before before) (keyed ys) below above in
    let (w, done, s, same) = avl_tree_insert-Yields t (r.start) (r.id) sorted new in
    (
      w,
      done,
      (
        s,
        same
            ∙ ap (put (r.start) (r.id)) old
            ∙ put-between (r.start) (r.id) (keyed_before before) (keyed ys) below above
            ∙ sym (keyed-here before r ys a),
      ),
    )

pub InTree-remove :
    (t : Tree) (before : List Region) (r : Region) (ys : List Region)
    → InTree t (onto before (r ∷ ys))
    → is_allocated (r.state) ≡ true
    → Leaves (avl_tree_remove t (r.start)) (onto before ys)
InTree-remove t before r ys (sorted, e) a =
    let (below, above) = sides t before r ys (sorted, e) a in
    let old = e ∙ keyed-here before r ys a in
    let here =
      ap (find (r.start)) old
      ∙ find_here (r.start) (keyed_before before) (r.start) (r.id) (keyed ys) below above refl in
    let (w, done, s, same) = avl_tree_remove-Yields t (r.start) (r.id) sorted here in
    (
      w,
      done,
      (
        s,
        same
            ∙ ap (delete (r.start)) old
            ∙ delete_here (keyed_before before) (r.start) (r.id) (keyed ys) below
            ∙ sym (keyed-onto before ys),
      ),
    )

pub InTree-same :
    (t : Tree) (before : List Region) (r : Region) (ys : List Region)
    → is_allocated (r.state) ≡ false
    → InTree t (onto before ys) ↔ InTree t (onto before (r ∷ ys))
InTree-same t before r ys u = (
  (λ (s, e). (s, e ∙ sym (keyed-other before r ys u))),
  (λ (s, e). (s, e ∙ keyed-other before r ys u)),
)
