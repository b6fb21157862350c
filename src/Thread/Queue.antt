-- ===== src/Thread/Queue.antt =====
-- Lists of waiting threads: membership and removal.
use infinity_os.Base.{
  ℕ, ◌≡◌, refl, Bool, true, false, ◌||◌, List, [], ◌∷◌, ◌++◌, ◌==◌, arith, zero, suc, take, drop,
  length, ◌+◌,
}
use infinity_os.Thread.{remove}

abbrev pub has : ℕ → List ℕ → Bool
has t [] = false
has t (u ∷ us) = (u == t) || has t us

-- No thread stands twice in the list.
abbrev pub IsDistinct : List ℕ → Type 0
IsDistinct [] = Unit {0}
IsDistinct (u ∷ us) = (has u us ≡ false) × IsDistinct us

pub remove-cons_self : (t : ℕ) (us : List ℕ) → remove t (t ∷ us) ≡ us
unfolding remove
remove-cons_self t us = ground arith

pub has-append : (t : ℕ) (us vs : List ℕ) → has t (us ++ vs) ≡ (has t us || has t vs)
has-append t [] vs = refl
has-append t (u ∷ us) vs = ground (arith, has-append t us vs)

pub remove-nil : (t : ℕ) → remove t [] ≡ []
unfolding remove
remove-nil t = refl

pub remove-absent : (t : ℕ) (us : List ℕ) → has t us ≡ false → remove t us ≡ us
unfolding remove
remove-absent t [] h = refl
remove-absent t (u ∷ us) h = ground (arith, remove-absent t us)

-- A thread that was put at the end and is taken off again leaves the list as it was.
pub remove-append_self : (t : ℕ) (us : List ℕ) → has t us ≡ false → remove t (us ++ t ∷ []) ≡ us
unfolding remove
remove-append_self t [] h = ground arith
remove-append_self t (u ∷ us) h = ground (arith, remove-append_self t us)

pub has-remove : (t u : ℕ) (us : List ℕ) → has u us ≡ false → has u (remove t us) ≡ false
unfolding remove
has-remove t u [] h = refl
has-remove t u (v ∷ us) h = ground (arith, has-remove t u us)

pub has_of_has-remove : (t u : ℕ) (us : List ℕ) → has u (remove t us) ≡ true → has u us ≡ true
unfolding remove
has_of_has-remove t u [] h = h
has_of_has-remove t u (v ∷ us) h = ground (arith, has_of_has-remove t u us)

pub remove-IsDistinct : (t : ℕ) (us : List ℕ) → IsDistinct us → IsDistinct (remove t us)
unfolding remove
remove-IsDistinct t [] d = tt
remove-IsDistinct t (u ∷ us) d = ground (arith, remove-IsDistinct t us d.1, has-remove t u us)

-- In a list without repetitions, removal takes the one entry.
pub has-remove_self : (t : ℕ) (us : List ℕ) → IsDistinct us → has t (remove t us) ≡ false
unfolding remove
has-remove_self t [] d = refl
has-remove_self t (u ∷ us) d = ground (arith, has-remove_self t us d.1)

pub append-IsDistinct :
    (t : ℕ) (us : List ℕ) → IsDistinct us → has t us ≡ false → IsDistinct (us ++ t ∷ [])
append-IsDistinct t [] d h = (refl, tt)
append-IsDistinct t (u ∷ us) d h =
    ground (arith, append-IsDistinct t us d.1, has-append u us (t ∷ []))

pub has_of_has-drop : (n u : ℕ) (us : List ℕ) → has u (drop n us) ≡ true → has u us ≡ true
has_of_has-drop zero u us h = h
has_of_has-drop (suc n) u [] h = h
has_of_has-drop (suc n) u (v ∷ us) h = ground (arith, has_of_has-drop n u us)

pub drop-IsDistinct : (n : ℕ) (us : List ℕ) → IsDistinct us → IsDistinct (drop n us)
drop-IsDistinct zero us d = d
drop-IsDistinct (suc n) [] d = tt
drop-IsDistinct (suc n) (v ∷ us) d = drop-IsDistinct n us d.1

-- The two parts of a list without repetitions share nothing.
pub has-take_of_has-drop :
    (n u : ℕ) (us : List ℕ) → IsDistinct us → has u (drop n us) ≡ true → has u (take n us) ≡ false
has-take_of_has-drop zero u us d h = refl
has-take_of_has-drop (suc n) u [] d h = refl
has-take_of_has-drop (suc n) u (v ∷ us) d h =
    ground (arith, has-take_of_has-drop n u us d.1, has_of_has-drop n u us)

pub length-remove : (t : ℕ) (ts : List ℕ) → has t ts ≡ true → length (remove t ts) + 1 ≡ length ts
unfolding remove
length-remove t [] h = cc
length-remove t (u ∷ ts) h = ground (arith, length-remove t ts)

pub nil_of_length : (us : List ℕ) → length us ≡ 0 → us ≡ []
nil_of_length [] h = refl
nil_of_length (w ∷ us) h = absurd (omega (arith, h))
