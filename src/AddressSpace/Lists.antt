-- ===== src/AddressSpace/Lists.antt =====
-- The free lists and their bit map under an insertion and a removal of a region.
use infinity_os.Base.{
  ℕ, ◌+◌, ◌≤◌, ◌≡◌, refl, Bool, true, false, not, ◌&&◌, Option, some, List, [], ◌∷◌, if◌then◌else◌,
  ◌==◌, arith, ap, ◌∙◌, sym, Bool-cases, inl, inr, ◌↔◌, ==_refl,
}
use mathlib.Core.Bool.{false≢true}
use infinity_os.Object.{put_at}
use infinity_os.AddressSpace.{
  Region, is_free, unlink, list_append, list_remove, list_for, list_empty, Index,
  vm_freelist_insert, vm_freelist_remove,
}
use infinity_os.AddressSpace.Change.{onto}
use infinity_os.AddressSpace.Counts.{
  mark, tally, tally-onto, is_named, is_listed, listed-le-named, count, count-append, count-unlink,
  list_empty-append, list_empty-unlink,
}

-- Each free list has the free regions of its sizes, each of them once.
abbrev pub InLists : (ℕ → List ℕ) → List Region → Type 0
InLists free rs = (list x : ℕ) → count x (free list) ≡ tally (is_listed list x) rs

abbrev pub IsMapped : (ℕ → List ℕ) → (ℕ → Bool) → Type 0
IsMapped free map = (list : ℕ) → map list ≡ not (list_empty (free list))

abbrev pub Distinct : List Region → Type 0
Distinct rs = (x : ℕ) → tally (is_named x) rs ≤ 1

-- One region more or less, in a count.
pub tally-here :
    (p : Region → Bool) (before : List Region) (r : Region) (ys : List Region)
    → tally p (onto before (r ∷ ys)) ≡ mark (p r) + tally p (onto before ys)
unfolding tally
tally-here p before r ys =
    let with_r = tally-onto p before (r ∷ ys) in
    let without = tally-onto p before ys in omega (arith, with_r, without)

listed_away :
    (list x : ℕ) (before : List Region) (r : Region) (ys : List Region)
    → is_free (r.state) ≡ false
    → tally (is_listed list x) (onto before (r ∷ ys)) ≡ tally (is_listed list x) (onto before ys)
listed_away list x before r ys u = tally-here (is_listed list x) before r ys ∙ rw u (omega arith)

pub InLists-other :
    (free : ℕ → List ℕ) (before : List Region) (r : Region) (ys : List Region)
    → is_free (r.state) ≡ false
    → InLists free (onto before ys) ↔ InLists free (onto before (r ∷ ys))
InLists-other free before r ys u = (
  (λ l list x. l list x ∙ sym (listed_away list x before r ys u)),
  (λ l list x. l list x ∙ listed_away list x before r ys u),
)

no_mark : (b : Bool) {n : ℕ} → mark ((true && b) && false) + n ≡ n
no_mark true = omega arith
no_mark false = omega arith

count-put :
    (list id : ℕ) (free : ℕ → List ℕ) (i x : ℕ)
    → count id (free i) ≡ 0
    → count x (list_append list id free i) ≡ mark ((list == i) && (id == x)) + count x (free i)
unfolding list_append count
count-put list id free i x new = elim (Bool-cases (list == i)) [
  | inl p ↦
      rw p
        (count-append x (unlink id (free i)) (id ∷ []) ∙ ground (arith, count-unlink x id (free i)))
  | inr p ↦ rw p (count-unlink x id (free i) ∙ ground arith)
]

module _ (free : ℕ → List ℕ) (before : List Region) (r : Region) (ys : List Region)
    (is : is_free (r.state) ≡ true) where
  pub InLists-add :
      InLists free (onto before ys)
      → tally (is_named (r.id)) (onto before ys) ≡ 0
      → InLists (list_append (list_for (r.size)) (r.id) free) (onto before (r ∷ ys))
  InLists-add l new list x =
      let below = listed-le-named list (r.id) (onto before ys) in
      count-put (list_for (r.size)) (r.id) free list x (l list (r.id) ∙ omega (arith, below, new))
      ∙ ap (λ n. mark ((list_for (r.size) == list) && (r.id == x)) + n) (l list x)
      ∙ sym (tally-here (is_listed list x) before r ys ∙ rw is refl)

  pub InLists-drop :
      InLists free (onto before (r ∷ ys))
      → Distinct (onto before (r ∷ ys))
      → InLists (list_remove (r.id) free) (onto before ys)
  unfolding list_remove
  InLists-drop l once list x =
      let here = tally-here (is_listed list x) before r ys in
      let named = tally-here (is_named x) before r ys in
      let below = listed-le-named list x (onto before ys) in
      let left = count-unlink x (r.id) (free list) in
      let most = once x in
      elim (Bool-cases (r.id == x)) [
        | inl p ↦ let named = rw p at named in left ∙ rw p (omega (arith, most, named, below))
        | inr p ↦ left ∙ rw p (l list x ∙ here ∙ rw (is, p) (no_mark (list_for (r.size) == list)))
      ]

IsMapped-add :
    (free : ℕ → List ℕ) (map : ℕ → Bool) (list id : ℕ)
    → IsMapped free map
    → ((i : ℕ) → count id (free i) ≡ 0)
    → IsMapped (list_append list id free) (put_at map list true)
unfolding list_append put_at
IsMapped-add free map list id m new i = elim (Bool-cases (list == i)) [
  | inl p ↦ rw p (rw (list_empty-append (unlink id (free i)) id) refl)
  | inr p ↦ rw p (rw (list_empty-unlink id (free i) (new i)) (m i))
]

list_empty-unlink_all :
    (id : ℕ) (ys : List ℕ) → list_empty ys ≡ true → list_empty (unlink id ys) ≡ true
unfolding unlink
list_empty-unlink_all id [] h = refl
list_empty-unlink_all id (y ∷ ys) h = absurd (false≢true h)

still_full : (id : ℕ) (ys : List ℕ) → list_empty (unlink id ys) ≡ false → list_empty ys ≡ false
still_full id ys h = elim (Bool-cases (list_empty ys)) [
  | inl p ↦ absurd (false≢true (sym h ∙ list_empty-unlink_all id ys p))
  | inr p ↦ p
]

IsMapped-drop :
    (free : ℕ → List ℕ) (map : ℕ → Bool) (list id : ℕ)
    → IsMapped free map
    → ((i : ℕ) → (list == i) ≡ false → count id (free i) ≡ 0)
    → IsMapped
        (list_remove id free)
        (if list_empty (list_remove id free list) then put_at map list false else map)
unfolding list_remove put_at
IsMapped-drop free map list id m other i = elim (Bool-cases (list == i)) [
  | inl p ↦
      let same : list ≡ i = ground arith in
      elim (Bool-cases (list_empty (unlink id (free list)))) [
        | inl q ↦
            rw q (rw p (ap not (sym (ap (λ j. list_empty (unlink id (free j))) (sym same) ∙ q))))
        | inr q ↦ rw q (
            ap map (sym same)
            ∙ m list
            ∙ ap not (still_full id (free list) q ∙ sym q)
            ∙ ap (λ j. not (list_empty (unlink id (free j)))) same)
      ]
  | inr p ↦
      let kept = m i ∙ ap not (sym (list_empty-unlink id (free i) (other i p))) in
      elim (Bool-cases (list_empty (unlink id (free list)))) [
        | inl q ↦ rw q (rw p kept)
        | inr q ↦ rw q kept
      ]
]

abbrev pub InFree : Index → List Region → Type 0
InFree ix rs = InLists (ix.free) rs × IsMapped (ix.free) (ix.free_map)

abbrev pub with_lists : Index → (ℕ → List ℕ) → (ℕ → Bool) → Index
with_lists ix free map = record ix { free = free; free_map = map }

-- An operation that changes the free lists alone.
abbrev pub Relists : Option Index → Index → List Region → Type 0
Relists o ix rs =
    (free : ℕ → List ℕ) × (map : ℕ → Bool) × (o ≡ some (with_lists ix free map))
    × InFree (with_lists ix free map) rs

pub vm_freelist_insert-Relists :
    (ix : Index) (before : List Region) (r : Region) (ys : List Region)
    → InFree ix (onto before ys)
    → is_free (r.state) ≡ true
    → tally (is_named (r.id)) (onto before ys) ≡ 0
    → Relists (vm_freelist_insert r (r.size) ix) ix (onto before (r ∷ ys))
unfolding vm_freelist_insert
vm_freelist_insert-Relists ix before r ys (l, m) is new = (
  list_append (list_for (r.size)) (r.id) (ix.free),
  put_at (ix.free_map) (list_for (r.size)) true,
  rw is refl,
  (
    InLists-add (ix.free) before r ys is l new,
    IsMapped-add (ix.free) (ix.free_map) (list_for (r.size)) (r.id) m (λ i.
        let below = listed-le-named i (r.id) (onto before ys) in
        l i (r.id) ∙ omega (arith, below, new)),
  ),
)

pub vm_freelist_remove-Relists :
    (ix : Index) (before : List Region) (r : Region) (ys : List Region)
    → InFree ix (onto before (r ∷ ys))
    → Distinct (onto before (r ∷ ys))
    → is_free (r.state) ≡ true
    → (r.flags == 0) ≡ true
    → Relists (vm_freelist_remove r ix) ix (onto before ys)
unfolding vm_freelist_remove
vm_freelist_remove-Relists ix before r ys (l, m) once is plain =
    let left = list_remove (r.id) (ix.free) in
    let list = list_for (r.size) in
    (
      left,
      (if list_empty (left list) then put_at (ix.free_map) list false else ix.free_map),
      rw plain refl,
      (
        InLists-drop (ix.free) before r ys is l once,
        IsMapped-drop (ix.free) (ix.free_map) list (r.id) m (λ i p.
            let here = tally-here (is_listed i (r.id)) before r ys in
            let named = tally-here (is_named (r.id)) before r ys in
            let below = listed-le-named i (r.id) (onto before ys) in
            let one = rw (==_refl (r.id)) at named in
            let most = once (r.id) in
            l i (r.id) ∙ here ∙ rw (is, p) (omega (arith, below, one, most))),
      ),
    )
