-- ===== src/Object/Exec.antt =====
-- `object_process_exec`: the new table has what the map says, or nothing is changed.
use infinity_os.Base.{
  ℕ, zero, suc, ◌+◌, ◌*◌, ◌≤◌, ◌≡◌, refl, false, not, Option, none, some, List, [], ◌==◌, arith, ap,
  ◌∙◌, sym, subst, Option-cases, ◌⊎◌, inl, inr, length,
}
use infinity_os.Base.Int.{ℤ}
use infinity_os.Status.{Status, success}
use infinity_os.Bitmap.Words.{Word, word_bits}
use infinity_os.Bitmap.Bits.{IsBitmap}
use infinity_os.Object.{
  Heap, HandleTable, Detached, keep, remove_callbacks, is_success, handle_table_size,
  object_handle_release, attach_to, detach_call, detach_from,
}
use infinity_os.Object.Counts.{
  one, slots, Owned, Owned-same, more, Leaves, handles-call, handles-remove_callbacks,
}
use infinity_os.Object.Release.{slots-positive, object_handle_release-Leaves}
use infinity_os.Object.Table.{IsTable, IsTable-SameTypes, IsConsistent, refs_of}
use infinity_os.Object.Processes.{
  mapped, object_process_init, release_entries, object_process_cleanup, object_thread_cleanup,
  attach_entries, switch_tables, exec_map, failed_exec, object_process_exec,
}
use infinity_os.Object.System.{init-IsSystem}
use infinity_os.Object.Populate.{
  Mapped, tally, onto, Mapped-onto, populate-Populates, unpopulate-Leaves,
}

module _ (process m : ℕ) (t : HandleTable) (heap heap' : Heap)
    (before : release_entries process m t heap ≡ some heap') where
  release_free : t.handles m ≡ none → release_entries process (suc m) t heap ≡ some heap'
  unfolding release_entries
  release_free free = rw (before, release_entries) (rw (free, release_entries) refl)

  release_taken :
      (h : ℕ)
      → t.handles m ≡ some h
      → release_entries process (suc m) t heap
        ≡ object_handle_release h (detach_call h process heap')
  unfolding release_entries
  release_taken h here = rw (before, release_entries) (rw (here, release_entries) refl)

-- Releasing all entries of a table gives back its references.
release_entries-Leaves :
    (process m : ℕ) (t : HandleTable) (heap : Heap) (refs : ℕ → ℕ)
    → Owned (heap.handles) (λ k. slots m (t.handles) k + refs k)
    → Leaves heap (release_entries process m t heap) refs
unfolding release_entries slots
release_entries-Leaves process zero t heap refs owned = (
  heap,
  refl,
  Owned-same (heap.handles) (λ k. 0 + refs k) refs (λ k. omega arith) owned,
  λ h. refl,
)
release_entries-Leaves process (suc m) t heap refs owned =
    let before = λ (k : ℕ). one (t.handles m) k + refs k in
    let (heap', done, owned', types) = release_entries-Leaves process m t heap before (
      Owned-same (heap.handles) (λ k. slots m (t.handles) k + one (t.handles m) k + refs k)
        (λ k. slots m (t.handles) k + before k) (λ k. omega arith) owned) in
    elim (Option-cases (t.handles m)) [
      | inl free ↦ (
        heap',
        release_free process m t heap heap' done free,
        Owned-same (heap'.handles) before refs (λ k. rw free (omega arith)) owned',
        types,
      )
      | inr (h, here) ↦
          let called = detach_call h process heap' in
          let same =
            handles-call ((heap'.handles h).type.has_detach) (detach_from h process) heap' in
          let (heap'', released, owned'', types') = object_handle_release-Leaves h called refs (
            subst (λ f. Owned f (more refs h)) (sym same)
              (Owned-same (heap'.handles) before (more refs h) (λ k. rw here (omega arith))
                owned')) in
          (
            heap'',
            release_taken process m t heap heap' done h here ∙ released,
            owned'',
            λ k. types' k ∙ ap (λ f. (f k).type) same ∙ types k,
          )
    ]

handles-attach_entries :
    (process m : ℕ) (n : HandleTable) (heap : Heap)
    → (attach_entries process m n heap).handles ≡ heap.handles
unfolding attach_entries
handles-attach_entries process zero n heap = refl
handles-attach_entries process (suc m) n heap = elim (Option-cases (n.handles m)) [
  | inl free ↦ rw (free, attach_entries) (handles-attach_entries process m n heap)
  | inr (h, here) ↦
      rw (here, attach_entries)
        (handles-call _ (attach_to h process) (attach_entries process m n heap)
          ∙ handles-attach_entries process m n heap)
]

cleanup_idle :
    (process : ℕ) (t : HandleTable) (heap : Heap)
    → t.callbacks ≡ []
    → object_process_cleanup process t heap ≡ release_entries process handle_table_size t heap
unfolding object_process_cleanup
cleanup_idle process t heap idle = rw (idle, object_process_cleanup) refl

object_process_cleanup-Leaves :
    (process : ℕ) (t : HandleTable) (heap : Heap) (refs : ℕ → ℕ)
    → t.callbacks ≡ []
    → Owned (heap.handles) (λ k. slots handle_table_size (t.handles) k + refs k)
    → Leaves heap (object_process_cleanup process t heap) refs
object_process_cleanup-Leaves process t heap refs idle owned =
    let (heap', done, owned', types) =
      release_entries-Leaves process handle_table_size t heap refs owned in
    (heap', cleanup_idle process t heap idle ∙ done, owned', types)

module _ (process thread : ℕ) (t n : HandleTable) (heap : Heap) (ext : ℕ → ℕ)
    (idle : keep (λ w. not (w.thread == thread)) (t.callbacks) ≡ []) where
  switch_tables-IsConsistent :
      IsTable (heap.handles) n
      → Owned (heap.handles) (λ k. slots handle_table_size (t.handles) k + refs_of n ext k)
      → (heap' : Heap) × (switch_tables process thread t n heap ≡ some (success, n, heap'))
        × IsConsistent heap' n ext
  unfolding switch_tables object_thread_cleanup
  switch_tables-IsConsistent v owned =
      let quiet = remove_callbacks (keep (λ w. w.thread == thread) (t.callbacks)) heap in
      let same : quiet.handles ≡ heap.handles =
        handles-remove_callbacks (keep (λ w. w.thread == thread) (t.callbacks)) heap in
      let t' : HandleTable = record t {
        callbacks = keep (λ w. not (w.thread == thread)) (t.callbacks);
      } in
      let (heap', cleaned, owned', types) =
        object_process_cleanup-Leaves process t' quiet (refs_of n ext) idle (
          subst (λ f. Owned f (λ k. slots handle_table_size (t.handles) k + refs_of n ext k))
            (sym same) owned) in
      let attached = handles-attach_entries process handle_table_size n heap' in
      let v' =
        IsTable-SameTypes (quiet.handles) (heap'.handles) n types
          (subst (λ f. IsTable f n) (sym same) v) in
      (
        attach_entries process handle_table_size n heap',
        rw (cleaned, switch_tables) refl,
        (
          subst (λ f. IsTable f n) (sym attached) v',
          subst (λ f. Owned f (refs_of n ext)) (sym attached) owned',
        ),
      )

-- What the execution of a program does to the table.
abbrev pub Execs : List (ℤ × ℤ) → HandleTable → Heap → (ℕ → ℕ) → Option Detached → Type 0
Execs pairs t heap ext o =
    ((n : HandleTable) × (heap' : Heap) × (o ≡ some (success, n, heap'))
      × Mapped pairs t n
      × ((k : ℕ) → slots handle_table_size (n.handles) k ≡ tally (onto pairs []) n k)
      × IsConsistent heap' n ext)
    ⊎ ((status : Status) × (heap' : Heap) × (is_success status ≡ false)
        × (o ≡ some (status, t, heap'))
        × ((k : ℕ) → (heap'.handles k).count ≡ (heap.handles k).count)
        × IsConsistent heap' t ext)

slots-none : (m k : ℕ) → slots m (λ i. none) k ≡ 0
unfolding slots
slots-none zero k = refl
slots-none (suc m) k = omega (arith, slots-none m k)

-- With a map, when all callbacks in the table are the thread's own, the execution of a program either
-- succeeds with a new table in which the ID of each pair has the handle that its source had, and no
-- other entry, or fails with the table as it was and all counts as they were; the table is consistent
-- in either case, so that handles which lose their last reference are freed, and no other ones.
pub object_process_exec-Execs :
    (process thread : ℕ) (memory : List Word) (pairs : List (ℤ × ℤ)) (t : HandleTable) (heap : Heap)
    (ext : ℕ → ℕ)
    → IsConsistent heap t ext
    → IsBitmap memory
    → handle_table_size ≤ word_bits * length memory
    → keep (λ w. not (w.thread == thread)) (t.callbacks) ≡ []
    → Execs pairs t heap ext (object_process_exec process thread memory t (mapped pairs) heap)
unfolding object_process_exec
object_process_exec-Execs process thread memory pairs t heap ext (v, owned) words large idle =
    let new = object_process_init memory in
    let outer = refs_of t ext in
    let (status, made, n, heap', runs, (m, counted), (v', owned'), types, outcome) =
      populate-Populates pairs [] new t heap outer
        (λ s h lt here. omega (arith, slots-positive handle_table_size (t.handles) h s lt here))
        (init-IsSystem memory heap outer words large owned)
        (tt, λ k. slots-none handle_table_size k) in
    elim outcome [
      | inl failed ↦
          let (heap'', undone, owned'', types') = unpopulate-Leaves made t n heap' outer m (
            Owned-same (heap'.handles) (refs_of n outer) (λ k. tally made n k + outer k)
              (λ k. omega (arith, counted k)) owned') in
          inr (
            status,
            heap'',
            failed,
            rw (runs, object_process_exec) (rw (failed, exec_map) (rw (undone, failed_exec) refl)),
            λ k. (owned'' k).0 ∙ sym ((owned k).0),
            (
              IsTable-SameTypes (heap.handles) (heap''.handles) t (λ h. types' h ∙ types h) v,
              owned'',
            ),
          )
      | inr (ok, whole) ↦
          let (heap'', switched, c) =
            switch_tables-IsConsistent process thread t n heap' ext idle v' (
              Owned-same (heap'.handles) (refs_of n outer)
                (λ k. slots handle_table_size (t.handles) k + refs_of n ext k) (λ k. omega arith)
                owned') in
          let (listed, _) = Mapped-onto pairs [] t n (subst (λ l. Mapped l t n) whole m) in
          inl (
            n,
            heap'',
            rw (runs, object_process_exec) (rw (ok, exec_map) switched),
            listed,
            λ k. counted k ∙ ap (λ l. tally l n k) whole,
            c,
          )
    ]
