-- ===== src/AvlTree/Entries.antt =====
-- A search tree as the list of its entries in the order of the keys.
use infinity_os.Base.{
  ℕ, ◌≤◌, ◌<◌, ◌≡◌, refl, Option, none, some, List, [], ◌∷◌, ◌++◌, if◌then◌else◌, ltb, ◌==◌, arith,
  ◌∙◌, ◌⊎◌, inl, inr, Bool-cases,
}
use infinity_os.AvlTree.{Tree, empty, node}

abbrev pub Entry : Type 0
Entry = ℕ × ℕ

unfoldable pub entries : Tree → List Entry
entries empty = []
entries (node l k v h r) = entries l ++ (k, v) ∷ entries r

-- The map that a list of entries stands for, and its changes in order.
unfoldable pub find : ℕ → List Entry → Option ℕ
find key [] = none
find key ((k, v) ∷ es) = let rest = find key es in if key == k then some v else rest

unfoldable pub put : (key value : ℕ) → List Entry → List Entry
put key value [] = (key, value) ∷ []
put key value ((k, v) ∷ es) =
    let rest = put key value es in if ltb key k then (key, value) ∷ (k, v) ∷ es else (k, v) ∷ rest

unfoldable pub delete : ℕ → List Entry → List Entry
delete key [] = []
delete key ((k, v) ∷ es) = let rest = delete key es in if key == k then es else (k, v) ∷ rest

abbrev pub Below : ℕ → List Entry → Type 0
Below key [] = Unit {0}
Below key ((k, v) ∷ es) = (k < key) × Below key es

abbrev pub Above : ℕ → List Entry → Type 0
Above key [] = Unit {0}
Above key ((k, v) ∷ es) = (key < k) × Above key es

-- The keys rise.
abbrev pub IsSorted : List Entry → Type 0
IsSorted [] = Unit {0}
IsSorted ((k, v) ∷ es) = Above k es × IsSorted es

pub Above-append :
    (key : ℕ) (xs ys : List Entry) → Above key (xs ++ ys) → Above key xs × Above key ys
Above-append key [] ys a = (tt, a)
Above-append key ((k, v) ∷ xs) ys a = let (ax, ay) = Above-append key xs ys a.1 in ((a.0, ax), ay)

-- The entries on both sides of one.
pub split-IsSorted :
    (xs : List Entry) (k v : ℕ) (ys : List Entry)
    → IsSorted (xs ++ (k, v) ∷ ys)
    → Below k xs × IsSorted xs × Above k ys × IsSorted ys
split-IsSorted [] k v ys s = (tt, tt, s.0, s.1)
split-IsSorted ((a, b) ∷ xs) k v ys s =
    let (below, sx, above, sy) = split-IsSorted xs k v ys s.1 in
    let (ax, ay) = Above-append a xs ((k, v) ∷ ys) s.0 in ((ay.0, below), (ax, sx), above, sy)

find-Above : (key : ℕ) (es : List Entry) (b : ℕ) → key ≤ b → Above b es → find key es ≡ none
unfolding find
find-Above key [] b h a = refl
find-Above key ((k, v) ∷ es) b h a = ground (arith, find-Above key es b h)

find-Below : (key : ℕ) (es : List Entry) (b : ℕ) → b ≤ key → Below b es → find key es ≡ none
unfolding find
find-Below key [] b h a = refl
find-Below key ((k, v) ∷ es) b h a = ground (arith, find-Below key es b h)

pub find-append :
    (key : ℕ) (xs : List Entry) (k v : ℕ) (ys : List Entry)
    → Below k xs
    → Above k ys
    → find key (xs ++ (k, v) ∷ ys)
      ≡ (if ltb key k then find key xs else if ltb k key then find key ys else some v)
unfolding find
find-append key [] k v ys b a = ground (arith, find-Above key ys k)
find-append key ((x, w) ∷ xs) k v ys b a = ground (arith, find-append key xs k v ys)

-- A number is below another, is it, or is above it.
abbrev pub Side : (key k : ℕ) → Type 0
Side key k = (key < k) ⊎ ((key ≡ k) ⊎ (k < key))

pub side : (key k : ℕ) → Side key k
side key k = elim (Bool-cases (ltb key k)) [
  | inl p ↦ inl (ground arith)
  | inr p ↦ elim (Bool-cases (ltb k key)) [
    | inl q ↦ inr (inr (ground arith))
    | inr q ↦ inr (inl (ground arith))
  ]
]

module _ (key : ℕ) (xs : List Entry) (k v : ℕ) (ys : List Entry) (below : Below k xs)
    (above : Above k ys) where
  pub find_left : key < k → find key (xs ++ (k, v) ∷ ys) ≡ find key xs
  find_left h = find-append key xs k v ys below above ∙ ground arith

  pub find_right : k < key → find key (xs ++ (k, v) ∷ ys) ≡ find key ys
  find_right h = find-append key xs k v ys below above ∙ ground arith

  pub find_here : key ≡ k → find key (xs ++ (k, v) ∷ ys) ≡ some v
  find_here h = find-append key xs k v ys below above ∙ ground arith

pub put_left :
    (key value : ℕ) (xs : List Entry) (k v : ℕ) (ys : List Entry)
    → key < k
    → put key value (xs ++ (k, v) ∷ ys) ≡ put key value xs ++ (k, v) ∷ ys
unfolding put
put_left key value [] k v ys h = ground arith
put_left key value ((x, w) ∷ xs) k v ys h = ground (arith, put_left key value xs k v ys)

pub put_right :
    (key value : ℕ) (xs : List Entry) (k v : ℕ) (ys : List Entry)
    → Below k xs
    → k < key
    → put key value (xs ++ (k, v) ∷ ys) ≡ xs ++ (k, v) ∷ put key value ys
unfolding put
put_right key value [] k v ys b h = ground arith
put_right key value ((x, w) ∷ xs) k v ys b h = ground (arith, put_right key value xs k v ys)

delete-Above : (key : ℕ) (es : List Entry) (b : ℕ) → key ≤ b → Above b es → delete key es ≡ es
unfolding delete
delete-Above key [] b h a = refl
delete-Above key ((k, v) ∷ es) b h a = ground (arith, delete-Above key es b h)

pub delete_left :
    (key : ℕ) (xs : List Entry) (k v : ℕ) (ys : List Entry)
    → key < k
    → Above k ys
    → delete key (xs ++ (k, v) ∷ ys) ≡ delete key xs ++ (k, v) ∷ ys
unfolding delete
delete_left key [] k v ys h a = ground (arith, delete-Above key ys k)
delete_left key ((x, w) ∷ xs) k v ys h a = ground (arith, delete_left key xs k v ys)

pub delete_here :
    (xs : List Entry) (k v : ℕ) (ys : List Entry)
    → Below k xs
    → delete k (xs ++ (k, v) ∷ ys) ≡ xs ++ ys
unfolding delete
delete_here [] k v ys b = ground arith
delete_here ((x, w) ∷ xs) k v ys b = ground (arith, delete_here xs k v ys)

pub delete_right :
    (key : ℕ) (xs : List Entry) (k v : ℕ) (ys : List Entry)
    → k < key
    → Below k xs
    → delete key (xs ++ (k, v) ∷ ys) ≡ xs ++ (k, v) ∷ delete key ys
unfolding delete
delete_right key [] k v ys h b = ground arith
delete_right key ((x, w) ∷ xs) k v ys h b = ground (arith, delete_right key xs k v ys)
