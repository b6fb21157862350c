-- ===== src/Object/Room.antt =====
-- The parts of a duplication: the tests, the room for the duplicate, and its entry.
use infinity_os.Base.{
  ℕ, zero, suc, ◌+◌, ◌<◌, ◌≡◌, ◌≢◌, refl, true, false, Option, none, some, ltb, ◌==◌, arith, ap,
  ◌∙◌, sym, subst, Bool-cases, lt→ltb, ltb→lt, Option-cases, ◌⊎◌, inl, inr,
}
use mathlib.Core.Option.{none-ne-some}
use mathlib.Core.Bool.{true≢false}
use infinity_os.Base.Int.{ℤ, pos, negsuc}
use infinity_os.Bitmap.Scan.Zero.{bitmap_ffz-Finds}
use infinity_os.Status.{Status, success, invalid_handle}
use infinity_os.Object.{
  Heap, HandleTable, attach_call, attach_to, entry_at, is_success, handle_table_size, detach_handle,
}
use infinity_os.Object.Counts.{
  one, Owned, Owned-same, one, more, object_handle_retain-Leaves, handles-call,
}
use infinity_os.Object.Release.{==→eq}
use infinity_os.Object.Table.{
  IsTable, IsTable-SameTypes, IsConsistent, refs_of, refs_of-after, place-IsTable, is_used, Entered,
}
use infinity_os.Object.Attach.{free_entry, Entering-Entered, Made}
use infinity_os.Object.Detach.{detach_taken, detach_absent}
use infinity_os.Object.Calls.{
  kern_handle_duplicate, Destination, is_invalid, Room, destination, slot, make_room, room, invalid,
  fresh, full, inserted, insert_duplicate, write_to,
}

pub make_room-detach_handle :
    (process i : ℕ) (t t' : HandleTable) (heap heap' : Heap) (status : Status)
    → detach_handle process (pos i) t heap ≡ some (status, t', heap')
    → make_room process (slot i) t heap ≡ room i t' heap'
unfolding make_room
make_room-detach_handle process i t t' heap heap' status done = rw (make_room, done) refl

pub destination-pos :
    (i : ℕ) (newp : Option Status) → i < handle_table_size → destination (pos i) newp ≡ slot i
unfolding destination
destination-pos i newp lt = rw (lt→ltb i handle_table_size lt, destination) refl

-- Past the tests the call makes room and inserts the duplicate.
pub duplicate_runs :
    (process i h : ℕ) (null : Status) (dest : ℤ) (newp : Option Status) (t : HandleTable)
    (heap : Heap) (d : Destination) (r : Room)
    → i < handle_table_size
    → t.handles i ≡ some h
    → destination dest newp ≡ d
    → is_invalid d ≡ false
    → make_room process d t heap ≡ r
    → kern_handle_duplicate process null (pos i) dest newp t heap
      ≡ insert_duplicate process h (write_to null newp) t heap r
unfolding kern_handle_duplicate
duplicate_runs process i h null dest newp t heap d r lt here to valid made =
    rw (lt→ltb i handle_table_size lt, kern_handle_duplicate)
      (rw (to, kern_handle_duplicate)
        (rw (valid, kern_handle_duplicate)
          (rw (here, kern_handle_duplicate)
            (ap (insert_duplicate process h (write_to null newp) t heap)
              (ap (λ x. make_room process x t heap) to ∙ made)))))

abbrev pub slot_or_size : Destination → ℕ
slot_or_size invalid = 0
slot_or_size fresh = 0
slot_or_size (slot j) = j

pub destination-bound :
    (dest : ℤ) (newp : Option Status) → slot_or_size (destination dest newp) < handle_table_size
unfolding destination
destination-bound (negsuc zero) none = omega arith
destination-bound (negsuc zero) (some status) = omega arith
destination-bound (negsuc (suc n)) newp = omega arith
destination-bound (pos n) newp = elim (Bool-cases (ltb n handle_table_size)) [
  | inl p ↦ rw p (ltb→lt n handle_table_size p)
  | inr p ↦ rw p (omega arith)
]

-- The ID of the duplicate is the one that was asked for, or one that was free.
abbrev pub Chosen : Destination → HandleTable → ℕ → Type 0
Chosen invalid t id = (true ≡ false)
Chosen fresh t id = t.handles id ≡ none
Chosen (slot j) t id = j ≡ id

-- Room for a duplicate: no ID is free, or there is one without a handle in a table whose other
-- entries are the old ones.
abbrev pub MakesRoom : Destination → HandleTable → (ℕ → ℕ) → Room → Type 0
MakesRoom d t ext r =
    ((r ≡ full) × ((i : ℕ) → i < handle_table_size → is_used (t.handles i) ≡ true))
    ⊎ ((id : ℕ) × (t₁ : HandleTable) × (heap₁ : Heap) × (r ≡ room id t₁ heap₁)
        × (id < handle_table_size)
        × (Chosen d t id)
        × Entered t id none t₁
        × IsConsistent heap₁ t₁ ext)

pub make_room-MakesRoom :
    (process : ℕ) (d : Destination) (t : HandleTable) (heap : Heap) (ext : ℕ → ℕ)
    → IsConsistent heap t ext
    → is_invalid d ≡ false
    → slot_or_size d < handle_table_size
    → MakesRoom d t ext (make_room process d t heap)
unfolding make_room
make_room-MakesRoom process invalid t heap ext c valid lt = absurd (true≢false valid)
make_room-MakesRoom process fresh t heap ext c valid lt =
    elim (free_entry (heap.handles) t _ (c.0)
      (bitmap_ffz-Finds (t.bitmap) handle_table_size (c.0).words (c.0).room)) [
        | inl (e, used) ↦ inl (rw (make_room, e) refl, used)
        | inr (id, e, l, free, low) ↦
            inr (id, t, heap, rw (make_room, e) refl, l, free, (free, λ j away. (refl, refl)), c)
      ]
make_room-MakesRoom process (slot j) t heap ext c valid lt = elim (Option-cases (t.handles j)) [
  | inl free ↦
      let absent =
        detach_absent process (pos j) t heap (rw (lt→ltb j handle_table_size lt, entry_at) free) in
      inr (
        j,
        t,
        heap,
        make_room-detach_handle process j t t heap heap invalid_handle absent,
        lt,
        refl,
        (free, λ i away. (refl, refl)),
        c,
      )
  | inr (h', old) ↦
      let (t₁, heap₁, detached, entered, clear, callbacks, c₁) =
        detach_taken process j h' t heap ext c lt old in
      inr (
        j,
        t₁,
        heap₁,
        make_room-detach_handle process j t t₁ heap heap₁ success detached,
        lt,
        refl,
        entered,
        c₁,
      )
]

-- An entry that is not duplicated onto itself is still there when room was made.
pub Chosen-other :
    (d : Destination) (t : HandleTable) (id i h : ℕ)
    → Chosen d t id
    → d ≢ slot i
    → t.handles i ≡ some h
    → (id == i) ≡ false
Chosen-other d t id i h chosen other here = elim (Bool-cases (id == i)) [
  | inr p ↦ p
  | inl p ↦ absurd (clash d chosen other (==→eq id i p))
]
  where
    clash : (e : Destination) → Chosen e t id → e ≢ slot i → id ≢ i
    clash invalid x o same = true≢false x
    clash fresh x o same = none-ne-some h (sym x ∙ ap (t.handles) same ∙ here)
    clash (slot j) x o same = o (ap slot (x ∙ same))

module _ (process h j : ℕ) (status : Status) (t t₁ : HandleTable) (heap heap₁ : Heap)
    (ext : ℕ → ℕ) where
  pub insert_duplicate-Made :
      IsConsistent heap₁ t₁ ext
      → 0 < refs_of t₁ ext h
      → j < handle_table_size
      → t₁.handles j ≡ none
      → is_success status ≡ true
      → (t' : HandleTable) × (heap' : Heap) × (insert_duplicate process h status t heap
            (room j t₁ heap₁)
          ≡ some (success, some j, t', heap'))
        × Made t₁ t' heap' ext j h
  insert_duplicate-Made (v, owned) live lt free ok =
      let called = attach_call h process heap₁ in
      let same : called.handles ≡ heap₁.handles =
        handles-call ((heap₁.handles h).type.has_attach) (attach_to h process) heap₁ in
      let (heap', kept, owned', types) =
        object_handle_retain-Leaves h called (refs_of t₁ ext)
          (subst (λ f. Owned f (refs_of t₁ ext)) (sym same) owned) live in
      let v₁ =
        IsTable-SameTypes (called.handles) (heap'.handles) t₁ types
          (subst (λ f. IsTable f t₁) (sym same) v) in
      let (t', made, v', e) =
        place-IsTable (heap'.handles) t₁ j h 0 v₁ lt (λ p. absurd (ground (arith, p))) in
      let (entered, clear) = Entering-Entered t₁ t' j (some h) e in
      (
        t',
        heap',
        rw (ok, insert_duplicate) (rw (kept, inserted) (rw (made, inserted) refl)),
        (
          entered,
          clear,
          (
            v',
            Owned-same (heap'.handles) (more (refs_of t₁ ext) h) (refs_of t' ext)
                (λ k.
                  let counted =
                    subst (λ o. refs_of t' ext k + one o k ≡ refs_of t₁ ext k + one (some h) k) free
                      (refs_of-after t₁ t' ext j (some h) k lt entered) in
                  omega (arith, counted))
                owned',
          ),
        ),
      )
