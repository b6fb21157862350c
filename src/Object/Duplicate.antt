-- ===== src/Object/Duplicate.antt =====
-- Duplicating a table entry, with all outcomes.
use infinity_os.Base.{
  ℕ, ◌+◌, ◌<◌, ◌≡◌, ◌≢◌, refl, true, false, Option, none, some, ltb, ◌==◌, arith, ap, ◌∙◌, sym,
  subst, Bool-cases, lt→ltb, ◌⊎◌, inl, inr,
}
use infinity_os.Base.Int.{ℤ, pos, negsuc}
use infinity_os.Status.{Status, success, no_handles, invalid_handle, invalid_arg}
use infinity_os.Object.{
  Heap, HandleTable, attach_call, attach_to, entry_at, Outcome, is_success, handle_table_size,
  object_handle_retain,
}
use infinity_os.Object.Counts.{one, one, one_self, handles-call}
use infinity_os.Object.Release.{slots-positive}
use infinity_os.Object.Table.{IsConsistent, refs_of, refs_of-after, is_used}
use infinity_os.Object.Attach.{Made}
use infinity_os.Object.Detach.{detach_taken, entry_at-cases}
use infinity_os.Object.Calls.{
  kern_handle_duplicate, Destination, is_invalid, Room, destination, slot, make_room, room,
  insert_duplicate, write_to,
}
use infinity_os.Object.Room.{
  make_room-detach_handle, destination-pos, duplicate_runs, destination-bound, Chosen, MakesRoom,
  make_room-MakesRoom, Chosen-other, insert_duplicate-Made,
}
use infinity_os.Object.Keeps.{Keeps}

retain_freed :
    (h : ℕ) (heap : Heap) → (heap.handles h).freed ≡ true → object_handle_retain h heap ≡ none
unfolding object_handle_retain
retain_freed h heap gone = rw gone refl

-- Duplicating an entry onto itself when it holds the last reference uses the handle after it was
-- freed.
pub kern_handle_duplicate_self :
    (process i h : ℕ) (null : Status) (newp : Option Status) (t : HandleTable) (heap : Heap)
    (ext : ℕ → ℕ)
    → IsConsistent heap t ext
    → i < handle_table_size
    → t.handles i ≡ some h
    → refs_of t ext h ≡ 1
    → is_success (write_to null newp) ≡ true
    → kern_handle_duplicate process null (pos i) (pos i) newp t heap ≡ none
kern_handle_duplicate_self process i h null newp t heap ext c lt here last ok =
    let (t', heap', done, entered, clear, callbacks, (v, owned)) =
      detach_taken process i h t heap ext c lt here in
    let lost = refs_of-after t t' ext i none h lt entered in
    let unreferenced : refs_of t' ext h ≡ 0 = omega (
      arith,
      last,
      subst (λ o. refs_of t' ext h + one o h ≡ refs_of t ext h + 0) here lost,
      one_self h,
    ) in
    let called = attach_call h process heap' in
    let gone : (called.handles h).freed ≡ true =
      ap (λ f. (f h).freed)
        (handles-call ((heap'.handles h).type.has_attach) (attach_to h process) heap')
      ∙ (owned h).1
      ∙ ap (λ n. n == 0) unreferenced in
    duplicate_runs process i h null (pos i) newp t heap (slot i) (room i t' heap') lt here
      (destination-pos i newp lt) refl
      (make_room-detach_handle process i t t' heap heap' success done)
    ∙ rw (ok, insert_duplicate) (rw (retain_freed h called gone, insert_duplicate) refl)

abbrev pub Duplicated : Destination → HandleTable → Heap → (ℕ → ℕ) → ℕ → Option Outcome → Type 0
Duplicated d t heap ext h o =
    (((i : ℕ) → i < handle_table_size → is_used (t.handles i) ≡ true)
      × (o ≡ some (no_handles, none, t, heap)))
    ⊎ ((id : ℕ) × (t' : HandleTable) × (heap' : Heap) × (o ≡ some (success, some id, t', heap'))
        × Chosen d t id
        × Made t t' heap' ext id h)

-- The duplicate has its entry, or no ID is left for it; every other outcome keeps the table
-- consistent as well.
module _ (process i h : ℕ) (status : Status) (d : Destination) (t : HandleTable) (heap : Heap)
    (ext : ℕ → ℕ) (c : IsConsistent heap t ext) (lt : i < handle_table_size)
    (here : t.handles i ≡ some h) (other : d ≢ slot i) where
  insert_duplicate-Duplicated :
      (r : Room)
      → MakesRoom d t ext r
      → is_success status ≡ true
      → Duplicated d t heap ext h (insert_duplicate process h status t heap r)
  insert_duplicate-Duplicated r (inl (e, used)) ok = inl (used, rw (e, insert_duplicate) refl)
  insert_duplicate-Duplicated r (inr (id, t₁, heap₁, e, l, chosen, (free, others), c₁)) ok =
      let still = (others i (Chosen-other d t id i h chosen other here)).0 ∙ here in
      let live : 0 < refs_of t₁ ext h =
        omega (arith, slots-positive handle_table_size (t₁.handles) h i lt still) in
      let (t', heap', done, ((entry, kept), flags, c')) =
        insert_duplicate-Made process h id status t t₁ heap heap₁ ext c₁ live l free ok in
      inr (
        id,
        t',
        heap',
        ap (insert_duplicate process h status t heap) e ∙ done,
        chosen,
        (
          (
            entry,
            λ k away. ((kept k away).0 ∙ (others k away).0, (kept k away).1 ∙ (others k away).1),
          ),
          flags,
          c',
        ),
      )

  insert_duplicate-Keeps :
      (r : Room) → MakesRoom d t ext r → Keeps ext (insert_duplicate process h status t heap r)
  insert_duplicate-Keeps r m = elim (Bool-cases (is_success status)) [
    | inl ok ↦ elim (insert_duplicate-Duplicated r m ok) [
      | inl (used, e) ↦ (no_handles, none, t, heap, e, c)
      | inr (id, t', heap', e, chosen, (entered, flags, c')) ↦ (success, some id, t', heap', e, c')
    ]
    | inr failed ↦ elim m [
      | inl (e, used) ↦ (no_handles, none, t, heap, rw (e, insert_duplicate) refl, c)
      | inr (id, t₁, heap₁, e, l, chosen, entered, c₁) ↦ (
        status,
        some id,
        t₁,
        heap₁,
        rw (e, insert_duplicate) (rw (failed, insert_duplicate) refl),
        c₁,
      )
    ]
  ]

-- An entry that is duplicated to another ID, or to a new one, gives a table with this entry more:
-- at the ID that was asked for, whose old handle is released, or at one that was free. Without a
-- free one nothing is changed.
pub kern_handle_duplicate-Duplicated :
    (process i h : ℕ) (null : Status) (dest : ℤ) (newp : Option Status) (t : HandleTable)
    (heap : Heap) (ext : ℕ → ℕ)
    → IsConsistent heap t ext
    → i < handle_table_size
    → t.handles i ≡ some h
    → is_success (write_to null newp) ≡ true
    → is_invalid (destination dest newp) ≡ false
    → (destination dest newp ≢ slot i)
    → Duplicated
        (destination dest newp)
        t
        heap
        ext
        h
        (kern_handle_duplicate process null (pos i) dest newp t heap)
kern_handle_duplicate-Duplicated process i h null dest newp t heap ext c lt here ok valid other =
    let d = destination dest newp in
    let made = make_room-MakesRoom process d t heap ext c valid (destination-bound dest newp) in
    subst (Duplicated d t heap ext h)
      (sym (
        duplicate_runs process i h null dest newp t heap d (make_room process d t heap) lt here refl
          valid refl))
      (insert_duplicate-Duplicated process i h (write_to null newp) d t heap ext c lt here other _
        made ok)

duplicate_absent :
    (process : ℕ) (null : Status) (handle dest : ℤ) (newp : Option Status) (t : HandleTable)
    (heap : Heap)
    → entry_at t handle ≡ none
    → (status : Status) × (kern_handle_duplicate process null handle dest newp t heap
        ≡ some (status, none, t, heap))
unfolding kern_handle_duplicate
duplicate_absent process null (negsuc n) dest newp t heap free = (invalid_handle, refl)
duplicate_absent process null (pos n) dest newp t heap free =
    elim (Bool-cases (ltb n handle_table_size)) [
      | inr out ↦ (invalid_handle, rw (out, kern_handle_duplicate) refl)
      | inl lt ↦
          let gone : t.handles n ≡ none = sym (rw (lt, entry_at) refl) ∙ free in
          elim (Bool-cases (is_invalid (destination dest newp))) [
            | inl bad ↦
                (invalid_arg, rw (lt, kern_handle_duplicate) (rw (bad, kern_handle_duplicate) refl))
            | inr good ↦ (
              invalid_handle,
              rw (lt, kern_handle_duplicate)
                  (rw (good, kern_handle_duplicate) (rw (gone, kern_handle_duplicate) refl)),
            )
          ]
    ]

duplicate_nowhere :
    (process i h : ℕ) (null : Status) (dest : ℤ) (newp : Option Status) (t : HandleTable)
    (heap : Heap)
    → i < handle_table_size
    → is_invalid (destination dest newp) ≡ true
    → kern_handle_duplicate process null (pos i) dest newp t heap
      ≡ some (invalid_arg, none, t, heap)
unfolding kern_handle_duplicate
duplicate_nowhere process i h null dest newp t heap lt bad =
    rw (lt→ltb i handle_table_size lt, kern_handle_duplicate) (rw (bad, kern_handle_duplicate) refl)

-- A duplication that is not onto the entry itself keeps the table consistent, also where it fails.
pub kern_handle_duplicate-Keeps :
    (process : ℕ) (null : Status) (handle dest : ℤ) (newp : Option Status) (t : HandleTable)
    (heap : Heap) (ext : ℕ → ℕ)
    → IsConsistent heap t ext
    → ((i : ℕ) → handle ≡ pos i → destination dest newp ≢ slot i)
    → Keeps ext (kern_handle_duplicate process null handle dest newp t heap)
kern_handle_duplicate-Keeps process null handle dest newp t heap ext c other =
    elim (entry_at-cases t handle) [
      | inl free ↦
          let (status, e) = duplicate_absent process null handle dest newp t heap free in
          (status, none, t, heap, e, c)
      | inr (i, h, same, lt, here) ↦
          subst (λ k. Keeps ext (kern_handle_duplicate process null k dest newp t heap)) (sym same)
            (elim (Bool-cases (is_invalid (destination dest newp))) [
              | inl bad ↦ (
                invalid_arg,
                none,
                t,
                heap,
                duplicate_nowhere process i h null dest newp t heap lt bad,
                c,
              )
              | inr good ↦
                  let d = destination dest newp in
                  let made =
                    make_room-MakesRoom process d t heap ext c good (destination-bound dest newp) in
                  subst (Keeps ext)
                    (sym (
                      duplicate_runs process i h null dest newp t heap d
                        (make_room process d t heap) lt here refl good refl))
                    (insert_duplicate-Keeps process i h (write_to null newp) d t heap ext c lt here
                      (other i same) _ made)
            ])
    ]
