-- ===== src/Object/Populate.antt =====
-- A new table that is filled with the entries of a map, and emptied again.
use infinity_os.Base.{
  ℕ, ◌+◌, ◌<◌, ◌≡◌, refl, false, Option, none, some, List, [], ◌∷◌, ltb, ◌==◌, arith, ap, ◌∙◌, sym,
  subst, Bool-cases, lt→ltb, ltb→lt, ◌⊎◌, inl, inr,
}
use mathlib.Core.Option.{none-ne-some}
use infinity_os.Base.Int.{ℤ, pos, negsuc}
use infinity_os.Status.{Status, success}
use infinity_os.Object.{Heap, HandleTable, put_at, is_success, entry_at, handle_table_size}
use infinity_os.Object.Counts.{
  one, slots, slots-put_at, put_at-here, put_at-away, Owned, Owned-same, SameTypes, more, Leaves,
}
use infinity_os.Object.Release.{==→eq, object_handle_release-Leaves}
use infinity_os.Object.Table.{IsConsistent}
use infinity_os.Object.Detach.{entry_at-cases}
use infinity_os.Object.Processes.{populate, Populated, unpopulate}
use infinity_os.Object.Inherit.{inherit_handle-Inherits}

-- Every pair of a map stands for an entry that has the handle of its source.
abbrev pub Mapped : List (ℤ × ℤ) → HandleTable → HandleTable → Type 0
Mapped [] parent n = Unit {0}
Mapped ((source, dest) ∷ pairs) parent n =
    ((h : ℕ) × (entry_at n dest ≡ some h) × (entry_at parent source ≡ some h))
    × Mapped pairs parent n

-- The references of the entries of a map.
abbrev pub tally : List (ℤ × ℤ) → HandleTable → ℕ → ℕ
tally [] n k = 0
tally ((source, dest) ∷ pairs) n k = one (entry_at n dest) k + tally pairs n k

-- A table that has the entries of a map and no other references.
abbrev pub IsMade : List (ℤ × ℤ) → HandleTable → HandleTable → Type 0
IsMade made parent n =
    Mapped made parent n × ((k : ℕ) → slots handle_table_size (n.handles) k ≡ tally made n k)

entry_at-range :
    (n : HandleTable) (d : ℕ) (o : Option ℕ)
    → d < handle_table_size
    → n.handles d ≡ o
    → entry_at n (pos d) ≡ o
entry_at-range n d o lt here = rw (lt→ltb d handle_table_size lt, entry_at) here

-- An entry stays where it is when another one is filled.
entry_at-other :
    (n n' : HandleTable) (d h : ℕ) (o : Option ℕ) (dest : ℤ) (h' : ℕ)
    → n.handles d ≡ none
    → n'.handles ≡ put_at (n.handles) d o
    → entry_at n dest ≡ some h'
    → entry_at n' dest ≡ some h'
entry_at-other n n' d h o (negsuc i) h' free e here = here
entry_at-other n n' d h o (pos i) h' free e here = elim (Bool-cases (ltb i handle_table_size)) [
  | inr out ↦ absurd (none-ne-some h' (sym (rw (out, entry_at) refl) ∙ here))
  | inl lt ↦
      let at : n.handles i ≡ some h' =
        sym (entry_at-range n i (n.handles i) (ltb→lt i handle_table_size lt) refl) ∙ here in
      entry_at-range n' i (some h') (ltb→lt i handle_table_size lt) (
        ap (λ f. f i) e ∙ elim (Bool-cases (d == i)) [
          | inl p ↦ absurd (none-ne-some h' (sym free ∙ ap (n.handles) (==→eq d i p) ∙ at))
          | inr p ↦ put_at-away (n.handles) d o i p ∙ at
        ])
]

Mapped-filled :
    (made : List (ℤ × ℤ)) (parent n n' : HandleTable) (d h : ℕ)
    → n.handles d ≡ none
    → n'.handles ≡ put_at (n.handles) d (some h)
    → Mapped made parent n
    → Mapped made parent n' × ((k : ℕ) → tally made n' k ≡ tally made n k)
Mapped-filled [] parent n n' d h free e m = (tt, λ k. refl)
Mapped-filled ((source, dest) ∷ made) parent n n' d h free e ((x, here, there), m) =
    let (rest, same) = Mapped-filled made parent n n' d h free e m in
    let kept = entry_at-other n n' d h (some h) dest x free e here in
    (((x, kept, there), rest), λ k. rw (kept, here) (rw (same k) refl))

IsMade-filled :
    (made : List (ℤ × ℤ)) (parent n n' : HandleTable) (s d h : ℕ)
    → s < handle_table_size
    → d < handle_table_size
    → parent.handles s ≡ some h
    → n.handles d ≡ none
    → n'.handles ≡ put_at (n.handles) d (some h)
    → IsMade made parent n
    → IsMade ((pos s, pos d) ∷ made) parent n'
IsMade-filled made parent n n' s d h ls ld there free e (m, counted) =
    let (rest, same) = Mapped-filled made parent n n' d h free e m in
    let here : entry_at n' (pos d) ≡ some h =
      entry_at-range n' d (some h) ld (ap (λ f. f d) e ∙ put_at-here (n.handles) d (some h)) in
    (
      ((h, here, entry_at-range parent s (some h) ls there), rest),
      λ k.
          let moved = slots-put_at handle_table_size (n.handles) d (some h) k ld in
          let gained : slots handle_table_size (n'.handles) k
              ≡ slots handle_table_size (n.handles) k + one (some h) k =
            rw e (
              omega (
                arith,
                subst
                    (λ o.
                      slots handle_table_size (put_at (n.handles) d (some h)) k + one o k
                      ≡ slots handle_table_size (n.handles) k + one (some h) k)
                    free moved,
              )) in
          rw here (omega (arith, gained, counted k, same k)),
    )

abbrev pub onto : List (ℤ × ℤ) → List (ℤ × ℤ) → List (ℤ × ℤ)
onto [] made = made
onto (p ∷ pairs) made = onto pairs (p ∷ made)

pub Mapped-onto :
    (pairs made : List (ℤ × ℤ)) (parent n : HandleTable)
    → Mapped (onto pairs made) parent n
    → Mapped pairs parent n × Mapped made parent n
Mapped-onto [] made parent n m = (tt, m)
Mapped-onto ((source, dest) ∷ pairs) made parent n m =
    let (rest, (first, others)) = Mapped-onto pairs ((source, dest) ∷ made) parent n m in
    ((first, rest), others)

-- A table with what was made of a map so far: all of it, or the part before the pair that fails.
abbrev pub Populates : List (ℤ × ℤ) → HandleTable → Heap → (ℕ → ℕ) → Option Populated → Type 0
Populates all parent heap ext o =
    (status : Status) × (made : List (ℤ × ℤ)) × (n : HandleTable) × (heap' : Heap) × (o
      ≡ some (status, made, n, heap'))
    × IsMade made parent n
    × IsConsistent heap' n ext
    × SameTypes (heap.handles) (heap'.handles)
    × ((is_success status ≡ false) ⊎ ((status ≡ success) × (made ≡ all)))

pub populate-Populates :
    (pairs made : List (ℤ × ℤ)) (n parent : HandleTable) (heap : Heap) (ext : ℕ → ℕ)
    → ((s h : ℕ) → s < handle_table_size → parent.handles s ≡ some h → 0 < ext h)
    → IsConsistent heap n ext
    → IsMade made parent n
    → Populates (onto pairs made) parent heap ext (populate pairs made n parent heap)
unfolding populate
populate-Populates [] made n parent heap ext backed c m =
    (success, made, n, heap, refl, m, c, λ h. refl, inr (refl, refl))
populate-Populates ((source, dest) ∷ pairs) made n parent heap ext backed c m =
    elim (inherit_handle-Inherits parent n none heap ext c backed source dest) [
      | inl (status, failed, e) ↦ (
        status,
        made,
        n,
        heap,
        rw (e, populate) (rw (failed, populate) refl),
        m,
        c,
        λ h. refl,
        inl failed,
      )
      | inr (s, d, h, from, ls, to, ld, there, free, (n', heap', done, e, flags, c', types)) ↦
          let m' : IsMade ((source, dest) ∷ made) parent n' =
            rw from (rw to (IsMade-filled made parent n n' s d h ls ld there free e m)) in
          let (status, made', n'', heap'', runs, m'', c'', types', outcome) =
            populate-Populates pairs ((source, dest) ∷ made) n' parent heap' ext backed c' m' in
          (
            status,
            made',
            n'',
            heap'',
            rw (done, populate) runs,
            m'',
            c'',
            λ h. types' h ∙ types h,
            outcome,
          )
    ]

-- Releasing the entries that were made gives back their references.
pub unpopulate-Leaves :
    (made : List (ℤ × ℤ)) (parent n : HandleTable) (heap : Heap) (refs : ℕ → ℕ)
    → Mapped made parent n
    → Owned (heap.handles) (λ k. tally made n k + refs k)
    → Leaves heap (unpopulate made n heap) refs
unfolding unpopulate
unpopulate-Leaves [] parent n heap refs m owned = (
  heap,
  refl,
  Owned-same (heap.handles) (λ k. 0 + refs k) refs (λ k. omega arith) owned,
  λ h. refl,
)
unpopulate-Leaves ((source, dest) ∷ made) parent n heap refs ((h, here, there), m) owned =
    elim (entry_at-cases n dest) [
      | inl gone ↦ absurd (none-ne-some h (sym gone ∙ here))
      | inr (d, x, at, lt, there_is) ↦
          let found : n.handles d ≡ some h =
            there_is
            ∙ sym (entry_at-range n d (some x) lt there_is)
            ∙ ap (entry_at n) (sym at)
            ∙ here in
          let rest = λ (k : ℕ). tally made n k + refs k in
          let (heap', done, owned', types) = object_handle_release-Leaves h heap rest (
            Owned-same (heap.handles) (λ k. one (entry_at n dest) k + tally made n k + refs k)
              (more rest h) (λ k. rw here (omega arith)) owned) in
          let (heap'', runs, owned'', types') =
            unpopulate-Leaves made parent n heap' refs m owned' in
          (
            heap'',
            rw at (
                rw (lt→ltb d handle_table_size lt, unpopulate)
                  (rw (found, unpopulate) (rw (done, unpopulate) runs))),
            owned'',
            λ k. types' k ∙ types k,
          )
    ]
