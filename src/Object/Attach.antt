-- ===== src/Object/Attach.antt =====
-- `attach_handle`: a handle gets the lowest free ID.
use infinity_os.Base.{
  ℕ, ◌<◌, ◌≡◌, refl, Bool, true, false, Option, none, some, if◌then◌else◌, arith, ap, ◌∙◌, sym,
  subst, Bool-cases, ◌⊎◌, inl, inr,
}
use mathlib.Core.Option.{some-injective}
use mathlib.Core.Bool.{true≢false}
use infinity_os.Status.{Status, success, no_handles}
use infinity_os.Bitmap.Bits.{bits}
use infinity_os.Bitmap.Scan.{Finds}
use infinity_os.Bitmap.Scan.Zero.{bitmap_ffz-Finds}
use infinity_os.Bitmap.{Found, found, absent, fault}
use infinity_os.Object.{
  Handle, Heap, HandleTable, put_at, placed, attach_call, attach_to, attach_handle, Outcome,
  is_success, written, handle_table_size, object_handle_retain,
}
use infinity_os.Object.Counts.{
  put_at-here, put_at-away, Owned, Owned-same, SameTypes, more, handles-call,
}
use infinity_os.Object.Table.{
  is_used, IsTable, IsTable-SameTypes, refs_of, IsConsistent, Entered, refs_of-Entered,
  place-IsTable,
}

-- A handle is in a new entry of the table, and the counts agree.
abbrev pub Entry : HandleTable → (ℕ → ℕ) → (id h : ℕ) → Option Outcome → Type 0
Entry t ext id h o =
    (t' : HandleTable) × (heap' : Heap) × (o ≡ some (success, some id, t', heap'))
    × Entered t id (some h) t'
    × (t'.flags id ≡ 0)
    × IsConsistent heap' t' ext

abbrev pub Entering : HandleTable → HandleTable → (id : ℕ) → Option ℕ → Type 0
Entering t t' id o = (t'.handles ≡ put_at (t.handles) id o) × (t'.flags ≡ put_at (t.flags) id 0)

pub Entering-Entered :
    (t t' : HandleTable) (id : ℕ) (o : Option ℕ)
    → Entering t t' id o
    → Entered t id o t' × (t'.flags id ≡ 0)
Entering-Entered t t' id o (p, q) = (
  (
    ap (λ f. f id) p ∙ put_at-here (t.handles) id o,
    λ j away. (
      ap (λ f. f j) p ∙ put_at-away (t.handles) id o j away,
      ap (λ f. f j) q ∙ put_at-away (t.flags) id 0 j away,
    ),
  ),
  ap (λ f. f id) q ∙ put_at-here (t.flags) id 0,
)

placed-Entry :
    (process id h : ℕ) (t : HandleTable) (heap : Heap) (ext : ℕ → ℕ)
    → IsTable (heap.handles) t
    → Owned (heap.handles) (more (refs_of t ext) h)
    → id < handle_table_size
    → t.handles id ≡ none
    → Entry t ext id h (placed t process id h (some heap))
placed-Entry process id h t heap ext v o lt free =
    let (t', made, v', (p, q)) =
      place-IsTable (heap.handles) t id h 0 v lt (λ e. absurd (ground (arith, e))) in
    let heap' = attach_call h process heap in
    let same : heap'.handles ≡ heap.handles =
      handles-call ((heap.handles h).type.has_attach) (attach_to h process) heap in
    let (entered, clear) = Entering-Entered t t' id (some h) (p, q) in
    (
      t',
      heap',
      rw (made, placed) refl,
      entered,
      clear,
      (
        subst (λ f. IsTable f t') (sym same) v',
        subst (λ f. Owned f (refs_of t' ext)) (sym same)
            (Owned-same (heap.handles) (more (refs_of t ext) h) (refs_of t' ext)
              (λ k. sym (refs_of-Entered t t' ext id (some h) k lt p) ∙ rw free (omega arith)) o),
      ),
    )

-- What `attach_handle` does: no place is left; the ID could not be written, and nothing is changed;
-- or the lowest ID that is free has the handle.
abbrev pub Attached : HandleTable → Heap → (ℕ → ℕ) → (h : ℕ) → Status → Option Outcome → Type 0
Attached t heap ext h status o =
    (((i : ℕ) → i < handle_table_size → is_used (t.handles i) ≡ true)
      × (o ≡ some (no_handles, none, t, heap)))
    ⊎ ((id : ℕ) × (id < handle_table_size)
        × (t.handles id ≡ none)
        × ((i : ℕ) → i < id → is_used (t.handles i) ≡ true)
        × (((is_success status ≡ false) × (o ≡ some (status, some id, t, heap)))
            ⊎ ((is_success status ≡ true) × Entry t ext id h o)))

is_used-none : (o : Option ℕ) → is_used o ≡ false → o ≡ none
is_used-none none p = refl
is_used-none (some h) p = absurd (ground (arith, p))

-- The entry that the scan of the bitmap finds.
pub free_entry :
    (hs : ℕ → Handle) (t : HandleTable) (r : Found)
    → IsTable hs t
    → Finds false (bits (t.bitmap)) 0 handle_table_size 0 r
    → ((r ≡ absent) × ((i : ℕ) → i < handle_table_size → is_used (t.handles i) ≡ true))
      ⊎ ((id : ℕ) × (r ≡ found id)
          × (id < handle_table_size)
          × (t.handles id ≡ none)
          × ((i : ℕ) → i < id → is_used (t.handles i) ≡ true))
free_entry hs t fault v finds = absurd finds
free_entry hs t absent v finds = inl (refl, λ i lt. sym (v.in_use i lt) ∙ finds i (omega arith) lt)
free_entry hs t (found id) v (k, i, s, lt, hit, low) =
    let same_id : id ≡ k = omega arith in
    let l : id < handle_table_size = omega (arith, same_id, lt) in
    inr (
      id,
      refl,
      l,
      is_used-none (t.handles id) (sym (v.in_use id l) ∙ rw same_id hit),
      λ j b.
          sym (v.in_use j (omega (arith, b, l))) ∙ low j (omega arith) (omega (arith, b, same_id)),
    )

pub attach_handle-Attached :
    (process h : ℕ) (uidp : Option Status) (retain : Bool) (t : HandleTable) (heap heap' : Heap)
    (ext : ℕ → ℕ)
    → IsTable (heap.handles) t
    → (if retain then object_handle_retain h heap else some heap) ≡ some heap'
    → SameTypes (heap.handles) (heap'.handles)
    → Owned (heap'.handles) (more (refs_of t ext) h)
    → Attached t heap ext h (written uidp) (attach_handle process h uidp retain t heap)
unfolding attach_handle
attach_handle-Attached process h uidp retain t heap heap' ext v kept same o =
    elim (free_entry (heap.handles) t _ v
      (bitmap_ffz-Finds (t.bitmap) handle_table_size v.words v.room)) [
        | inl (e, full) ↦ inl (full, rw (e, attach_handle) refl)
        | inr (id, e, l, free, low) ↦ inr (
          id,
          l,
          free,
          low,
          elim (Bool-cases (is_success (written uidp))) [
            | inl ok ↦ inr (
              ok,
              let entry =
                    placed-Entry process id h t heap' ext
                      (IsTable-SameTypes (heap.handles) (heap'.handles) t same v) o l free in
                  let runs : attach_handle process h uidp retain t heap
                      ≡ placed t process id h (some heap') =
                    rw (e, attach_handle) (rw ok (rw kept refl)) in
                  subst (λ r. Entry t ext id h r) (sym runs) entry,
            )
            | inr failed ↦ inl (failed, rw (e, attach_handle) (rw failed refl))
          ],
        )
      ]

abbrev pub Made : HandleTable → HandleTable → Heap → (ℕ → ℕ) → (id h : ℕ) → Type 0
Made t t' heap' ext id h = Entered t id (some h) t' × (t'.flags id ≡ 0) × IsConsistent heap' t' ext

-- A call that succeeds has made an entry.
pub Attached-success :
    (t t' : HandleTable) (heap heap' : Heap) (ext : ℕ → ℕ) (id h : ℕ) (status : Status)
    (o : Option Outcome)
    → Attached t heap ext h status o
    → o ≡ some (success, some id, t', heap')
    → (id < handle_table_size) × (t.handles id ≡ none) × Made t t' heap' ext id h
Attached-success t t' heap heap' ext id h status o (inl (full, done)) e =
    let ends = some-injective _ _ (sym e ∙ done) in
    absurd (true≢false (ap (λ x. is_success (x.0)) ends))
Attached-success t t' heap heap' ext id h status o (inr (k, lt, free, low, inl (failed, done))) e =
    let ends = some-injective _ _ (sym e ∙ done) in
    absurd (true≢false (ap (λ x. is_success (x.0)) ends ∙ failed))
Attached-success t t' heap heap' ext id h status o
      (inr (k, lt, free, low, inr (ok, (a, b, done, entered, clear, c)))) e =
    let ends = some-injective _ _ (sym done ∙ e) in
    let same_id : k ≡ id = some-injective _ _ (ap (λ x. x.1) ends) in
    let same_table : a ≡ t' = ap (λ x. x.2) ends in
    let same_heap : b ≡ heap' = ap (λ x. x.3) ends in
    subst (λ i. (i < handle_table_size) × (t.handles i ≡ none) × Made t t' heap' ext i h) same_id
      (
        lt,
        free,
        subst (λ x. Made t x heap' ext k h) same_table
            (subst (λ y. Made t a y ext k h) same_heap (entered, clear, c)),
      )
