-- ===== src/AvlTree/Sorted.antt =====
-- The order of the entries under an insertion and a removal.
use infinity_os.Base.{
  ℕ, ◌<◌, ◌≡◌, refl, true, false, none, some, List, [], ◌∷◌, ltb, ◌==◌, arith, ◌∙◌, sym, inl, inr,
  Bool-cases,
}
use mathlib.Core.Option.{none-ne-some}
use infinity_os.AvlTree.Entries.{Entry, find, put, delete, Above, IsSorted, side}

Above-trans : (a b : ℕ) (es : List Entry) → a < b → Above b es → Above a es
Above-trans a b [] h x = tt
Above-trans a b ((k, v) ∷ es) h x = (omega (arith, h, x.0), Above-trans a b es h x.1)

Above-put : (b key value : ℕ) (es : List Entry) → b < key → Above b es → Above b (put key value es)
unfolding put
Above-put b key value [] h x = (h, tt)
Above-put b key value ((k, v) ∷ es) h x = elim (Bool-cases (ltb key k)) [
  | inl p ↦ rw p (h, x)
  | inr p ↦ rw p (x.0, Above-put b key value es h x.1)
]

Above-delete : (b key : ℕ) (es : List Entry) → Above b es → Above b (delete key es)
unfolding delete
Above-delete b key [] x = tt
Above-delete b key ((k, v) ∷ es) x = elim (Bool-cases (key == k)) [
  | inl p ↦ rw p x.1
  | inr p ↦ rw p (x.0, Above-delete b key es x.1)
]

pub put-IsSorted :
    (key value : ℕ) (es : List Entry)
    → IsSorted es
    → find key es ≡ none
    → IsSorted (put key value es)
unfolding put find
put-IsSorted key value [] s new = (tt, tt)
put-IsSorted key value ((k, v) ∷ es) s new = elim (side key k) [
  | inl lt ↦
      let first : ltb key k ≡ true = ground arith in rw first ((lt, Above-trans key k es lt s.0), s)
  | inr (inl eq) ↦
      let here : (key == k) ≡ true = ground arith in
      let found : find key ((k, v) ∷ es) ≡ some v = rw here refl in
      absurd (none-ne-some v (sym new ∙ found))
  | inr (inr gt) ↦
      let later : ltb key k ≡ false = ground arith in
      let other : (key == k) ≡ false = ground arith in
      let same : find key ((k, v) ∷ es) ≡ find key es = rw other refl in
      rw later (Above-put k key value es gt s.0, put-IsSorted key value es s.1 (sym same ∙ new))
]

pub delete-IsSorted : (key : ℕ) (es : List Entry) → IsSorted es → IsSorted (delete key es)
unfolding delete
delete-IsSorted key [] s = tt
delete-IsSorted key ((k, v) ∷ es) s = elim (Bool-cases (key == k)) [
  | inl p ↦ rw p s.1
  | inr p ↦ rw p (Above-delete k key es s.0, delete-IsSorted key es s.1)
]
