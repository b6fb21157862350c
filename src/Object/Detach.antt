-- ===== src/Object/Detach.antt =====
-- Attaching a handle and detaching it again.
use infinity_os.Base.{
  ℕ, ◌+◌, ◌<◌, ◌≡◌, refl, true, false, not, Option, none, some, ltb, ◌==◌, arith, ap, ◌∙◌, sym,
  subst, Bool-cases, ◌⊎◌, inl, inr, Option-cases, lt→ltb, ltb→lt,
}
use infinity_os.Status.{Status, success, invalid_handle}
use infinity_os.Base.Int.{ℤ, pos, negsuc}
use infinity_os.Bitmap.Bits.{bits, bitmap_clear-Updated}
use infinity_os.Object.{
  is_inheritable, Handle, Heap, HandleTable, put_at, vacate, vacated, Detached, detach_call,
  detach_from, detach_handle, written, handle_table_size, object_handle_release, remove_callbacks,
  keep, entry_at, object_handle_attach, object_handle_detach,
}
use infinity_os.Object.Counts.{
  one, put_at-here, put_at-away, everywhere, Owned, Owned-same, more, Leaves,
  object_handle_retain-Leaves, handles-call, handles-remove_callbacks,
}
use infinity_os.Object.Release.{slots-same, object_handle_release-Leaves}
use infinity_os.Object.Table.{
  is_used, Transferrable, IsTable, IsTable-SameTypes, refs_of, refs_of-Entered, IsConsistent,
  Entered,
}
use infinity_os.Object.Attach.{
  Entering, Entering-Entered, Attached, attach_handle-Attached, Attached-success,
}

vacate-IsTable :
    (hs : ℕ → Handle) (t : HandleTable) (id : ℕ)
    → IsTable hs t
    → id < handle_table_size
    → (t' : HandleTable) × (vacate t id ≡ some t')
      × IsTable hs t'
      × Entering t t' id none
      × (t'.callbacks ≡ keep (λ w. not (w.slot == id)) (t.callbacks))
vacate-IsTable hs t id v lt =
    let (bm, cleared, u) = bitmap_clear-Updated (t.bitmap) id v.words (omega (arith, v.room)) in
    let hs' = put_at (t.handles) id none in
    (
      record t {
        handles = hs';
        flags = put_at (t.flags) id 0;
        callbacks = keep (λ w. not (w.slot == id)) (t.callbacks);
        bitmap = bm;
      },
      rw (cleared, vacate) refl,
      record {
        words = u.well_formed;
        room = omega (arith, v.room, u.size);
        in_use =
            everywhere {P = λ i. i < handle_table_size → bits bm i ≡ is_used (hs' i)} id
              (λ l. u.changed ∙ ap is_used (sym (put_at-here (t.handles) id none)))
              (λ i away l.
                u.others i away
                ∙ v.in_use i l
                ∙ ap is_used (sym (put_at-away (t.handles) id none i away)));
        inheritable =
            everywhere
              {P = λ i.
                i < handle_table_size
                → is_inheritable (put_at (t.flags) id 0 i) ≡ true
                → Transferrable hs (hs' i)}
              id
              (λ l p.
                absurd (ground (arith, ap is_inheritable (sym (put_at-here (t.flags) id 0)) ∙ p)))
              (λ i away l p.
                let (x, e, q) =
                  v.inheritable i l
                    (ap is_inheritable (sym (put_at-away (t.flags) id 0 i away)) ∙ p) in
                (x, put_at-away (t.handles) id none i away ∙ e, q));
      },
      (refl, refl),
      refl,
    )

-- The entry is gone, with its callbacks, and so is the reference of the table.
abbrev pub Vacant : HandleTable → (ℕ → ℕ) → (id : ℕ) → Option Detached → Type 0
Vacant t ext id o =
    (t' : HandleTable) × (heap' : Heap) × (o ≡ some (success, t', heap'))
    × Entered t id none t'
    × (t'.flags id ≡ 0)
    × (t'.callbacks ≡ keep (λ w. not (w.slot == id)) (t.callbacks))
    × IsConsistent heap' t' ext

vacated-Vacant :
    (id h : ℕ) (t : HandleTable) (heap : Heap) (o : Option Heap) (ext : ℕ → ℕ)
    → IsTable (heap.handles) t
    → Owned (heap.handles) (refs_of t ext)
    → id < handle_table_size
    → t.handles id ≡ some h
    → ((refs : ℕ → ℕ) → Owned (heap.handles) (more refs h) → Leaves heap o refs)
    → Vacant t ext id (vacated t id o)
vacated-Vacant id h t heap o ext v owned lt here release =
    let (t', made, v', e, c) = vacate-IsTable (heap.handles) t id v lt in
    let counts : (k : ℕ) → refs_of t ext k ≡ more (refs_of t' ext) h k = λ k.
      let moved =
        subst (λ x. refs_of t' ext k + one x k ≡ refs_of t ext k + 0) here
          (refs_of-Entered t t' ext id none k lt (e.0)) in
      omega (arith, moved) in
    let (heap', done, owned', same) =
      release (refs_of t' ext)
        (Owned-same (heap.handles) (refs_of t ext) (more (refs_of t' ext) h) counts owned) in
    let (entered, clear) = Entering-Entered t t' id none e in
    (
      t',
      heap',
      rw (done, vacated) (rw (made, vacated) refl),
      entered,
      clear,
      c,
      (IsTable-SameTypes (heap.handles) (heap'.handles) t' same v', owned'),
    )

pub detach_taken :
    (process i h : ℕ) (t : HandleTable) (heap : Heap) (ext : ℕ → ℕ)
    → IsConsistent heap t ext
    → i < handle_table_size
    → t.handles i ≡ some h
    → Vacant t ext i (detach_handle process (pos i) t heap)
unfolding detach_handle
detach_taken process i h t heap ext (v, owned) lt here =
    let called = detach_call h process heap in
    let unwaited = remove_callbacks (keep (λ w. w.slot == i) (t.callbacks)) called in
    let same : unwaited.handles ≡ heap.handles =
      handles-remove_callbacks (keep (λ w. w.slot == i) (t.callbacks)) called
      ∙ handles-call ((heap.handles h).type.has_detach) (detach_from h process) heap in
    let vacant =
      vacated-Vacant i h t unwaited (object_handle_release h unwaited) ext
        (subst (λ f. IsTable f t) (sym same) v)
        (subst (λ f. Owned f (refs_of t ext)) (sym same) owned) lt here
        (λ refs o. object_handle_release-Leaves h unwaited refs o) in
    let runs : detach_handle process (pos i) t heap
        ≡ vacated t i (object_handle_release h unwaited) =
      rw (lt→ltb i handle_table_size lt, detach_handle) (rw (here, detach_handle) refl) in
    subst (λ r. Vacant t ext i r) (sym runs) vacant

pub entry_at-cases :
    (t : HandleTable) (id : ℤ)
    → (entry_at t id ≡ none)
      ⊎ ((i : ℕ) × (h : ℕ) × (id ≡ pos i) × (i < handle_table_size) × (t.handles i ≡ some h))
entry_at-cases t (negsuc n) = inl refl
entry_at-cases t (pos n) = elim (Bool-cases (ltb n handle_table_size)) [
  | inr out ↦ inl (rw (out, entry_at) refl)
  | inl lt ↦ elim (Option-cases (t.handles n)) [
    | inl free ↦ inl (rw (lt, entry_at) free)
    | inr (h, here) ↦ inr (n, h, refl, ltb→lt n handle_table_size lt, here)
  ]
]

pub detach_absent :
    (process : ℕ) (id : ℤ) (t : HandleTable) (heap : Heap)
    → entry_at t id ≡ none
    → detach_handle process id t heap ≡ some (invalid_handle, t, heap)
unfolding detach_handle
detach_absent process (negsuc n) t heap free = refl
detach_absent process (pos n) t heap free = elim (Bool-cases (ltb n handle_table_size)) [
  | inr out ↦ rw (out, detach_handle) refl
  | inl lt ↦
      let gone : t.handles n ≡ none = sym (rw (lt, entry_at) refl) ∙ free in
      rw (lt, detach_handle) (rw (gone, detach_handle) refl)
]

-- Detaching an ID without a handle reports so and changes nothing. Any other entry is freed with its
-- flags and callbacks; no other entry changes, and the table is consistent with one reference less.
pub object_handle_detach-Vacant :
    (process : ℕ) (id : ℤ) (t : HandleTable) (heap : Heap) (ext : ℕ → ℕ)
    → IsConsistent heap t ext
    → ((entry_at t id ≡ none)
        × (object_handle_detach process id t heap ≡ some (invalid_handle, t, heap)))
      ⊎ ((i : ℕ) × (h : ℕ) × (id ≡ pos i)
          × (i < handle_table_size)
          × (t.handles i ≡ some h)
          × Vacant t ext i (object_handle_detach process id t heap))
object_handle_detach-Vacant process id t heap ext c = elim (entry_at-cases t id) [
  | inl free ↦ inl (free, detach_absent process id t heap free)
  | inr (i, h, e, lt, here) ↦ inr (
    i,
    h,
    e,
    lt,
    here,
    subst (λ j. Vacant t ext i (detach_handle process j t heap)) (sym e)
        (detach_taken process i h t heap ext c lt here),
  )
]

-- Attaching a referenced handle finds no ID free, fails to write the lowest free one with nothing
-- changed, or gives it the handle with one reference more; no other entry changes.
pub object_handle_attach-Attached :
    (process h : ℕ) (uidp : Option Status) (t : HandleTable) (heap : Heap) (ext : ℕ → ℕ)
    → IsConsistent heap t ext
    → 0 < refs_of t ext h
    → Attached t heap ext h (written uidp) (object_handle_attach process h uidp t heap)
object_handle_attach-Attached process h uidp t heap ext (v, owned) live =
    let (heap', done, owned', same) =
      object_handle_retain-Leaves h heap (refs_of t ext) owned live in
    attach_handle-Attached process h uidp true t heap heap' ext v done same owned'

-- A handle that was attached and is detached again leaves the entries of the table and all reference
-- counts as they were, and the flags of the other entries; the entry that it had has no flags.
pub object_handle_detach-object_handle_attach :
    (process h id : ℕ) (uidp : Option Status) (t t' : HandleTable) (heap heap' : Heap) (ext : ℕ → ℕ)
    → IsConsistent heap t ext
    → 0 < refs_of t ext h
    → object_handle_attach process h uidp t heap ≡ some (success, some id, t', heap')
    → (t'' : HandleTable) × (heap'' : Heap) × (object_handle_detach process (pos id) t' heap'
        ≡ some (success, t'', heap''))
      × ((i : ℕ) → t''.handles i ≡ t.handles i)
      × ((i : ℕ) → (id == i) ≡ false → t''.flags i ≡ t.flags i)
      × (t''.flags id ≡ 0)
      × ((k : ℕ) → (heap''.handles k).count ≡ (heap.handles k).count)
object_handle_detach-object_handle_attach process h id uidp t t' heap heap' ext c live attached =
    let (lt, free, ((here, others), clear, c')) =
      Attached-success t t' heap heap' ext id h (written uidp) _
        (object_handle_attach-Attached process h uidp t heap ext c live) attached in
    let (t'', heap'', done, (gone, away), clear', callbacks, (v, owned)) =
      detach_taken process id h t' heap' ext c' lt here in
    let same : (i : ℕ) → t''.handles i ≡ t.handles i =
      everywhere {P = λ i. t''.handles i ≡ t.handles i} id (gone ∙ sym free)
        (λ i x. (away i x).0 ∙ (others i x).0) in
    (
      t'',
      heap'',
      done,
      same,
      (λ i x. (away i x).1 ∙ (others i x).1),
      clear',
      λ k.
          (owned k).0
          ∙ ap (λ n. n + ext k) (slots-same handle_table_size (t''.handles) (t.handles) k same)
          ∙ sym ((c.1 k).0),
    )
