-- ===== src/Object/Keeps.antt =====
-- What every outcome of the operations on a table keeps, whatever it is.
use infinity_os.Base.{
  ℕ, ◌<◌, ◌≡◌, ◌≢◌, refl, true, false, Option, none, some, ◌==◌, arith, ap, ◌∙◌, sym, Bool-cases,
  lt→ltb, ◌⊎◌, inl, inr,
}
use infinity_os.Base.Int.{ℤ}
use infinity_os.Status.{Status, success, no_handles, invalid_handle}
use infinity_os.Object.{
  ObjectType, is_transferrable, Handle, Heap, HandleTable, put_at, Outcome, Lookup, is_type,
  entry_at, handle_table_size, object_handle_create, lookup_handle, retained, attach_handle,
  object_handle_attach, object_handle_open, object_handle_detach, written, slab_cache_free, opened,
}
use infinity_os.Object.Counts.{
  put_at-away, Owned, Owned-put_at, Owned-same, more, more-here, more-away,
  object_handle_retain-Leaves,
}
use infinity_os.Object.Release.{slots-positive, slots-zero, ==→eq}
use infinity_os.Object.Table.{IsTable, IsTable-SameTypes, IsConsistent, refs_of}
use infinity_os.Object.Attach.{Attached, attach_handle-Attached}
use infinity_os.Object.Detach.{
  entry_at-cases, object_handle_attach-Attached, object_handle_detach-Vacant,
}

-- An operation does not fault, and leaves a consistent table.
abbrev pub Keeps : (ℕ → ℕ) → Option Outcome → Type 0
Keeps ext o =
    (status : Status) × (id : Option ℕ) × (t' : HandleTable) × (heap' : Heap) × (o
      ≡ some (status, id, t', heap'))
    × IsConsistent heap' t' ext

Attached-Keeps :
    (t : HandleTable) (heap : Heap) (ext : ℕ → ℕ) (h : ℕ) (status : Status) (o : Option Outcome)
    → IsConsistent heap t ext
    → Attached t heap ext h status o
    → Keeps ext o
Attached-Keeps t heap ext h status o c (inl (full, e)) = (no_handles, none, t, heap, e, c)
Attached-Keeps t heap ext h status o c (inr (id, lt, free, low, inl (failed, e))) =
    (status, some id, t, heap, e, c)
Attached-Keeps t heap ext h status o c
      (inr (id, lt, free, low, inr (ok, (t', heap', e, entered, clear, c')))) =
    (success, some id, t', heap', e, c')

pub object_handle_attach-Keeps :
    (process h : ℕ) (uidp : Option Status) (t : HandleTable) (heap : Heap) (ext : ℕ → ℕ)
    → IsConsistent heap t ext
    → 0 < refs_of t ext h
    → Keeps ext (object_handle_attach process h uidp t heap)
object_handle_attach-Keeps process h uidp t heap ext c live =
    Attached-Keeps t heap ext h (written uidp) _ c
      (object_handle_attach-Attached process h uidp t heap ext c live)

-- A table without a handle does not see what becomes of it.
IsTable-put_at :
    (hs : ℕ → Handle) (t : HandleTable) (h : ℕ) (x : Handle)
    → ((i : ℕ) → i < handle_table_size → t.handles i ≢ some h)
    → IsTable hs t
    → IsTable (put_at hs h x) t
IsTable-put_at hs t h x unseen v = record {
  words = v.words;
  room = v.room;
  in_use = v.in_use;
  inheritable = λ i lt p.
      let (k, e, q) = v.inheritable i lt p in
      (
        k,
        e,
        elim (Bool-cases (h == k)) [
          | inl here ↦ absurd (unseen i lt (e ∙ ap (λ n. some n) (sym (==→eq h k here))))
          | inr away ↦ ap (λ y. is_transferrable (y.type)) (put_at-away hs h x k away) ∙ q
        ],
      );
}

-- A handle that exists newly.
module _ (type : ObjectType) (h : ℕ) (t : HandleTable) (heap : Heap) (ext : ℕ → ℕ)
    (c : IsConsistent heap t ext) (new : (heap.handles h).freed ≡ true) where
  no_refs : refs_of t ext h ≡ 0
  no_refs = ==→eq (refs_of t ext h) 0 (sym ((c.1 h).1) ∙ new)

  unseen : (i : ℕ) → i < handle_table_size → t.handles i ≢ some h
  unseen i lt = slots-zero handle_table_size (t.handles) h i lt (omega (arith, no_refs))

  create-IsTable : IsTable ((object_handle_create type h heap).handles) t
  unfolding object_handle_create
  create-IsTable = IsTable-put_at (heap.handles) t h _ unseen (c.0)

  create-Owned : Owned ((object_handle_create type h heap).handles) (more (refs_of t ext) h)
  unfolding object_handle_create
  create-Owned =
      Owned-put_at (heap.handles) (refs_of t ext) (more (refs_of t ext) h) h _ (c.1)
        (omega (arith, no_refs, more-here (refs_of t ext) h))
        (ground (arith, more-here (refs_of t ext) h))
        (λ k away. sym (more-away (refs_of t ext) h k away))

  -- Without an entry the new handle goes again.
  unopened : IsConsistent (slab_cache_free h (object_handle_create type h heap)) t ext
  unopened = (
    IsTable-put_at ((object_handle_create type h heap).handles) t h _ unseen create-IsTable,
    Owned-put_at ((object_handle_create type h heap).handles) (more (refs_of t ext) h)
        (refs_of t ext) h _ create-Owned (omega (arith, no_refs)) (ground (arith, no_refs))
        (λ k away. more-away (refs_of t ext) h k away),
  )

  pub object_handle_open-Keeps :
      (process : ℕ) (uidp : Option Status)
      → Keeps ext (object_handle_open process type h uidp t heap)
  unfolding object_handle_open
  object_handle_open-Keeps process uidp =
      from (attach_handle process h uidp false t (object_handle_create type h heap)) (
        attach_handle-Attached process h uidp false t (object_handle_create type h heap)
          (object_handle_create type h heap) ext create-IsTable refl (λ k. refl) create-Owned)
    where
      from :
          (o : Option Outcome)
          → Attached t (object_handle_create type h heap) ext h (written uidp) o
          → Keeps ext (opened h o)
      from o (inl (full, e)) = (
        no_handles,
        none,
        t,
        slab_cache_free h (object_handle_create type h heap),
        rw e refl,
        unopened,
      )
      from o (inr (id, lt, free, low, inl (failed, e))) = (
        written uidp,
        some id,
        t,
        slab_cache_free h (object_handle_create type h heap),
        rw e (rw failed refl),
        unopened,
      )
      from o (inr (id, lt, free, low, inr (ok, (t', heap', e, entered, clear, c')))) =
          (success, some id, t', heap', rw e refl, c')

-- A detachment does not fault, and leaves a consistent table.
pub object_handle_detach-Keeps :
    (process : ℕ) (id : ℤ) (t : HandleTable) (heap : Heap) (ext : ℕ → ℕ)
    → IsConsistent heap t ext
    → (status : Status) × (t' : HandleTable) × (heap' : Heap) × (object_handle_detach process id t
          heap
        ≡ some (status, t', heap'))
      × IsConsistent heap' t' ext
object_handle_detach-Keeps process id t heap ext c =
    elim (object_handle_detach-Vacant process id t heap ext c) [
      | inl (absent, e) ↦ (invalid_handle, t, heap, e, c)
      | inr (i, h, same, lt, here, (t', heap', e, entered, clear, callbacks, c')) ↦
          (success, t', heap', e, c')
    ]

-- A lookup does not fault; where it finds a handle it takes one reference, and nothing else.
abbrev pub LooksUp : HandleTable → Heap → (ℕ → ℕ) → Option Lookup → Type 0
LooksUp t heap ext o =
    (o ≡ some (invalid_handle, none, heap))
    ⊎ ((h : ℕ) × (heap' : Heap) × (o ≡ some (success, some h, heap'))
        × IsConsistent heap' t (more ext h))

pub lookup_handle-LooksUp :
    (id type : ℤ) (t : HandleTable) (heap : Heap) (ext : ℕ → ℕ)
    → IsConsistent heap t ext
    → LooksUp t heap ext (lookup_handle id type t heap)
unfolding lookup_handle
lookup_handle-LooksUp id type t heap ext (v, owned) = elim (entry_at-cases t id) [
  | inl free ↦ inl (rw (free, lookup_handle) refl)
  | inr (i, h, same, lt, here) ↦
      let at_id : entry_at t id ≡ some h =
        rw same (rw (lt→ltb i handle_table_size lt, entry_at) here) in
      elim (Bool-cases (is_type type ((heap.handles h).type))) [
        | inr other ↦ inl (rw (at_id, lookup_handle) (rw (other, lookup_handle) refl))
        | inl fits ↦
            let live : 0 < refs_of t ext h =
              omega (arith, slots-positive handle_table_size (t.handles) h i lt here) in
            let (heap', kept, owned', types) =
              object_handle_retain-Leaves h heap (refs_of t ext) owned live in
            inr (
              h,
              heap',
              rw (at_id, lookup_handle) (rw (fits, lookup_handle) (rw (kept, retained) refl)),
              (
                IsTable-SameTypes (heap.handles) (heap'.handles) t types v,
                Owned-same (heap'.handles) (more (refs_of t ext) h) (refs_of t (more ext h))
                    (λ k. omega arith) owned',
              ),
            )
      ]
]
