-- ===== src/AddressSpace/Counts.antt =====
-- The regions of a list counted by a test, and the entries of the free lists.
use infinity_os.Base.{
  ℕ, ◌+◌, ◌≤◌, ◌≡◌, refl, Bool, true, false, not, ◌&&◌, List, [], ◌∷◌, ◌++◌, if◌then◌else◌, ◌==◌,
  arith, ap,
}
use infinity_os.AddressSpace.{Region, is_free, is_allocated, unlink, list_for, list_empty}
use infinity_os.AddressSpace.Change.{onto, is_some}

abbrev pub mark : Bool → ℕ
mark b = if b then 1 else 0

unfoldable pub tally : (Region → Bool) → List Region → ℕ
tally p [] = 0
tally p (r ∷ rs) = mark (p r) + tally p rs

pub tally-onto :
    (p : Region → Bool) (before after : List Region)
    → tally p (onto before after) ≡ tally p before + tally p after
unfolding tally onto
tally-onto p [] after = omega arith
tally-onto p (r ∷ before) after = omega (arith, tally-onto p before (r ∷ after))

-- What is counted: the name of a region, and where the region is found.
abbrev pub is_named : ℕ → Region → Bool
is_named x r = r.id == x

abbrev pub is_listed : (list x : ℕ) → Region → Bool
is_listed list x r = (is_free (r.state) && (list_for (r.size) == list)) && (r.id == x)

abbrev pub is_held : ℕ → Region → Bool
is_held x r = is_allocated (r.state) && (r.id == x)

-- A region that no operation's assertions refuse.
abbrev pub is_odd : Region → Bool
is_odd r =
    if is_allocated (r.state)
    then not (is_some (r.handle)) && not (is_some (r.amap))
    else not (r.flags == 0)

pub tally_le :
    (p q : Region → Bool)
    → ((r : Region) → mark (p r) ≤ mark (q r))
    → (rs : List Region) → tally p rs ≤ tally q rs
unfolding tally
tally_le p q le [] = omega arith
tally_le p q le (r ∷ rs) = omega (arith, le r, tally_le p q le rs)

mark_and : (a b : Bool) → mark (a && b) ≤ mark b
mark_and true b = omega arith
mark_and false true = omega arith
mark_and false false = omega arith

pub listed-le-named :
    (list x : ℕ) (rs : List Region) → tally (is_listed list x) rs ≤ tally (is_named x) rs
listed-le-named list x rs =
    tally_le (is_listed list x) (is_named x)
      (λ r. mark_and (is_free (r.state) && (list_for (r.size) == list)) (r.id == x)) rs

pub held-le-named : (x : ℕ) (rs : List Region) → tally (is_held x) rs ≤ tally (is_named x) rs
held-le-named x rs =
    tally_le (is_held x) (is_named x) (λ r. mark_and (is_allocated (r.state)) (r.id == x)) rs

-- How often a list has a name.
unfoldable pub count : ℕ → List ℕ → ℕ
count x [] = 0
count x (y ∷ ys) = mark (y == x) + count x ys

pub count-append : (x : ℕ) (xs ys : List ℕ) → count x (xs ++ ys) ≡ count x xs + count x ys
unfolding count
count-append x [] ys = omega arith
count-append x (y ∷ xs) ys = omega (arith, count-append x xs ys)

pub count-unlink :
    (x id : ℕ) (ys : List ℕ) → count x (unlink id ys) ≡ (if id == x then 0 else count x ys)
unfolding count unlink
count-unlink x id [] = ground arith
count-unlink x id (y ∷ ys) = ground (arith, count-unlink x id ys)

pub list_empty-append : (xs : List ℕ) (id : ℕ) → list_empty (xs ++ id ∷ []) ≡ false
list_empty-append [] id = refl
list_empty-append (x ∷ xs) id = refl

unlink-away : (id : ℕ) (ys : List ℕ) → count id ys ≡ 0 → unlink id ys ≡ ys
unfolding count unlink
unlink-away id [] h = refl
unlink-away id (y ∷ ys) h =
    let other : (y == id) ≡ false = ground arith in
    rw other (ap (λ zs. y ∷ zs) (unlink-away id ys (ground arith)))

pub list_empty-unlink :
    (id : ℕ) (ys : List ℕ) → count id ys ≡ 0 → list_empty (unlink id ys) ≡ list_empty ys
list_empty-unlink id ys h = ap list_empty (unlink-away id ys h)

mark-zero : (b : Bool) {n : ℕ} → mark b + n ≡ 0 → (b ≡ false) × (n ≡ 0)
mark-zero true h = absurd (omega (arith, h))
mark-zero false h = (refl, omega (arith, h))

-- No region is odd.
pub odd_none :
    (r : Region) (rs : List Region)
    → tally is_odd (r ∷ rs) ≡ 0
    → (is_odd r ≡ false) × (tally is_odd rs ≡ 0)
unfolding tally
odd_none r rs h = mark-zero (is_odd r) h

pub odd_more :
    (r : Region) (rs : List Region)
    → is_odd r ≡ false
    → tally is_odd rs ≡ 0
    → tally is_odd (r ∷ rs) ≡ 0
unfolding tally
odd_more r rs h k = rw h (omega (arith, k))
