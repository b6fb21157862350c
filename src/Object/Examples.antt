-- ===== src/Object/Examples.antt =====
-- The theorems on handles at a concrete table: one handle, 0, which one other holds.
use infinity_os.Base.{
  not, ℕ, ◌<◌, ◌≡◌, refl, Bool, true, false, none, some, List, [], ◌∷◌, ◌==◌, if◌then◌else◌, arith,
  ◌⊎◌, replicate, ap,
}
use infinity_os.Base.Int.{pos, negsuc}
use infinity_os.Status.{success, invalid_handle, invalid_addr}
use infinity_os.Bitmap.Words.{Word, nonzero, complement, ffz}
use infinity_os.Bitmap.Bits.{IsBitmap, bits}
use infinity_os.Object.{
  keep, ObjectType, Heap, HandleTable, put_at, entry_at, handle_table_size, object_handle_attach,
  object_handle_detach, written, attach_handle, object_handle_release, object_handle_retain,
}
use infinity_os.Bitmap.{bitmap_ffz, bitmap_set, bitmap_zero, zero_bits}
use infinity_os.Object.Counts.{Owned, slots}
use infinity_os.Object.Table.{IsConsistent, refs_of}
use infinity_os.Object.Attach.{Attached}
use infinity_os.Object.Detach.{
  Vacant, object_handle_attach-Attached, object_handle_detach-Vacant,
  object_handle_detach-object_handle_attach,
}
use infinity_os.Object.Calls.{kern_handle_duplicate, destination, Destination, fresh, slot, invalid}
use mathlib.Core.Bool.{true≢false}
use infinity_os.Object.Duplicate.{
  kern_handle_duplicate_self, kern_handle_duplicate-Duplicated, Duplicated,
}
use infinity_os.Object.System.{
  System, Step, Reach, IsAlive, Reach-IsSystem, Reach-IsAlive, init-IsSystem,
}
use infinity_os.Object.Processes.{object_process_init, object_process_exec, mapped}
use infinity_os.Object.Exec.{Execs, object_process_exec-Execs}

abbrev file : ObjectType
file = record { id = 7; flags = 1; has_close = true; has_attach = false; has_detach = false }

abbrev heap : Heap
heap = record {
  handles = λ h.
      if h == 0
      then record { type = file; count = 1; freed = false }
      else record { type = file; count = 0; freed = true };
  calls = [];
}

abbrev held : ℕ → ℕ
held h = if h == 0 then 1 else 0

abbrev memory : List Word
memory = replicate 8 (replicate 64 false)

abbrev new_table : HandleTable
new_table = object_process_init memory

memory-IsBitmap : IsBitmap memory
memory-IsBitmap = (refl, (refl, (refl, (refl, (refl, (refl, (refl, (refl, tt))))))))

heap-Owned : Owned (heap.handles) held
heap-Owned h = (ground arith, ground arith)

new-IsConsistent : IsConsistent heap new_table held
new-IsConsistent = init-IsSystem memory heap held memory-IsBitmap (omega arith) heap-Owned

object_handle_attach-Attached_example :
    Attached new_table heap held 0 (written none) (object_handle_attach 1 0 none new_table heap)
object_handle_attach-Attached_example =
    object_handle_attach-Attached 1 0 none new_table heap held new-IsConsistent (omega arith)

object_handle_detach-Vacant_example :
    ((entry_at new_table (pos 5) ≡ none)
      × (object_handle_detach 1 (pos 5) new_table heap ≡ some (invalid_handle, new_table, heap)))
    ⊎ ((i : ℕ) × (h : ℕ) × (pos 5 ≡ pos i)
        × (i < handle_table_size)
        × (new_table.handles i ≡ some h)
        × Vacant new_table held i (object_handle_detach 1 (pos 5) new_table heap))
object_handle_detach-Vacant_example =
    object_handle_detach-Vacant 1 (pos 5) new_table heap held new-IsConsistent

abbrev heap_attached : Heap
heap_attached = record heap {
  handles = put_at (heap.handles) 0 (record (heap.handles 0) { count = 2 });
}

abbrev table_attached : HandleTable
table_attached = record new_table {
  handles = put_at (new_table.handles) 0 (some 0);
  flags = put_at (new_table.flags) 0 0;
  bitmap = (true ∷ replicate 63 false) ∷ replicate 7 (replicate 64 false);
}

attaches :
    object_handle_attach 1 0 none new_table heap
    ≡ some (success, some 0, table_attached, heap_attached)
unfolding attach_handle bitmap_ffz bitmap_set object_handle_retain put_at bitmap_zero zero_bits
    nonzero complement ffz
attaches = refl

object_handle_detach-object_handle_attach_example :
    (t : HandleTable) × (heap' : Heap) × (object_handle_detach 1
        (pos 0)
        table_attached
        heap_attached
      ≡ some (success, t, heap'))
    × ((i : ℕ) → t.handles i ≡ new_table.handles i)
    × ((i : ℕ) → (0 == i) ≡ false → t.flags i ≡ new_table.flags i)
    × (t.flags 0 ≡ 0)
    × ((k : ℕ) → (heap'.handles k).count ≡ (heap.handles k).count)
object_handle_detach-object_handle_attach_example =
    object_handle_detach-object_handle_attach 1 0 0 none new_table table_attached heap heap_attached
      held new-IsConsistent (omega arith) attaches

abbrev attached : System
attached = record { table = table_attached; heap = heap_attached; others = held }

attached-Reach : Reach 1 attached
attached-Reach =
    Reach.step (record { table = new_table; heap = heap; others = held }) _
      (Reach.start memory heap held memory-IsBitmap (omega arith) heap-Owned)
      (Step.attach (record { table = new_table; heap = heap; others = held }) 0 none success
        (some 0) table_attached heap_attached (omega arith) attaches)

Reach-IsAlive_example : (bits (table_attached.bitmap) 0 ≡ true) × IsAlive attached 0 0
unfolding put_at
Reach-IsAlive_example = Reach-IsAlive 1 attached 0 0 attached-Reach (omega arith) refl

attached-IsConsistent : IsConsistent heap_attached table_attached held
attached-IsConsistent = Reach-IsSystem 1 attached attached-Reach

abbrev is_fresh : Destination → Bool
is_fresh fresh = true
is_fresh (slot i) = false
is_fresh invalid = false

kern_handle_duplicate-Duplicated_example : Duplicated fresh table_attached heap_attached held 0 (
    kern_handle_duplicate 1 invalid_addr
      (pos 0)
      (negsuc 0)
      (some success)
      table_attached
      heap_attached)
unfolding put_at destination
kern_handle_duplicate-Duplicated_example =
    kern_handle_duplicate-Duplicated 1 0 0 invalid_addr (negsuc 0) (some success) table_attached
      heap_attached held attached-IsConsistent (omega arith) refl refl refl
      (λ e. true≢false (ap is_fresh e))

abbrev heap_last : Heap
heap_last = record heap_attached {
  handles = put_at (heap_attached.handles) 0 (record (heap_attached.handles 0) { count = 1 });
}

releases : object_handle_release 0 heap_attached ≡ some heap_last
unfolding object_handle_release put_at
releases = refl

last-Reach : Reach 1 (record { table = table_attached; heap = heap_last; others = λ h. 0 })
last-Reach =
    Reach.step attached _ attached-Reach
      (Step.release attached 0 (λ h. 0) heap_last (λ k. ground arith) releases)

last-refs : refs_of table_attached (λ h. 0) 0 ≡ 1
unfolding slots put_at
last-refs = refl

kern_handle_duplicate_self_example :
    kern_handle_duplicate 1 invalid_addr (pos 0) (pos 0) (some success) table_attached heap_last
    ≡ none
unfolding put_at
kern_handle_duplicate_self_example =
    kern_handle_duplicate_self 1 0 0 invalid_addr (some success) table_attached heap_last (λ h. 0)
      (Reach-IsSystem 1 _ last-Reach) (omega arith) refl last-refs refl

idle : keep (λ w. not (w.thread == 3)) (table_attached.callbacks) ≡ []
unfolding keep
idle = refl

object_process_exec-Execs_example :
    Execs
      ((pos 0, pos 5) ∷ [])
      table_attached
      heap_attached
      held
      (object_process_exec 1 3 memory table_attached (mapped ((pos 0, pos 5) ∷ [])) heap_attached)
object_process_exec-Execs_example =
    object_process_exec-Execs 1 3 memory ((pos 0, pos 5) ∷ []) table_attached heap_attached held
      attached-IsConsistent memory-IsBitmap (omega arith) idle
