-- ===== src/Object/Processes.antt =====
-- source/kernel/object.c: the tables of processes that start, execute a program, and end.
use infinity_os.Base.{
  ℕ, zero, suc, Bool, true, false, not, Option, none, some, List, [], ◌∷◌, if◌then◌else◌, ◌==◌,
}
use infinity_os.Base.Int.{ℤ, pos}
use infinity_os.Status.{Status, success, invalid_handle, already_exists, not_supported}
use infinity_os.Bitmap.Words.{Word}
use infinity_os.Bitmap.{bitmap_zero}
use infinity_os.Object.{
  is_transferrable, is_inheritable, Heap, HandleTable, in_table, place, attach_call, detach_call,
  Detached, keep, remove_callbacks, is_success, handle_table_size, object_handle_retain,
  object_handle_release,
}

-- `memory` is what `bitmap_alloc` clears; the other allocations of the kernel wait for memory.
abbrev pub object_process_init : List Word → HandleTable
object_process_init memory = record {
  handles = λ i. none;
  flags = λ i. 0;
  callbacks = [];
  bitmap = bitmap_zero memory handle_table_size;
}

abbrev pub inherited : HandleTable → (dest h flags : ℕ) → Option ℕ → Option Heap → Option Detached
inherited table dest h flags process none = none
inherited table dest h flags process (some heap) = elim (place table dest h flags) [
  | none ↦ none
  | some table' ↦
      some (success, table', elim process [ none ↦ heap | some p ↦ attach_call h p heap ])
]

-- The tests on the entries, both IDs being in range.
abbrev pub inherit_entry : HandleTable → ℕ → HandleTable → ℕ → Option ℕ → Heap → Option Detached
inherit_entry table dest parent source process heap = elim (parent.handles source) [
  | none ↦ some (invalid_handle, table, heap)
  | some h ↦ elim (table.handles dest) [
    | some old ↦ some (already_exists, table, heap)
    | none ↦
        if is_transferrable ((heap.handles h).type)
        then inherited table dest h (parent.flags source) process (object_handle_retain h heap)
        else some (not_supported, table, heap)
  ]
]

unfoldable pub inherit_handle :
    HandleTable → ℤ → HandleTable → ℤ → Option ℕ → Heap → Option Detached
unfolding object_handle_retain
inherit_handle table dest parent source process heap = elim (in_table source) [
  | none ↦ some (invalid_handle, table, heap)
  | some s ↦ elim (in_table dest) [
    | none ↦ some (invalid_handle, table, heap)
    | some d ↦ inherit_entry table d parent s process heap
  ]
]

-- The pairs of a source and a destination, in order, until one fails.
unfoldable pub inherit_map :
    List (ℤ × ℤ) → HandleTable → HandleTable → Option ℕ → Heap → Option Detached
unfolding inherit_handle
inherit_map [] table parent process heap = some (success, table, heap)
inherit_map ((source, dest) ∷ pairs) table parent process heap =
    elim (inherit_handle table dest parent source process heap) [
      | none ↦ none
      | some (status, table', heap') ↦
          let rest = inherit_map pairs table' parent process heap' in
          if is_success status then rest else some (status, table', heap')
    ]

-- The entries below a number that a test picks, in order, whatever becomes of each.
unfoldable pub inherit_where :
    (ℕ → Bool) → ℕ → HandleTable → HandleTable → Option ℕ → Heap → Option (HandleTable × Heap)
unfolding inherit_handle
inherit_where p zero table parent process heap = some (table, heap)
inherit_where p (suc n) table parent process heap =
    elim (inherit_where p n table parent process heap) [
      | none ↦ none
      | some (table', heap') ↦
          if p n
          then (elim (inherit_handle table' (pos n) parent (pos n) process heap') [
            | none ↦ none
            | some (status, table'', heap'') ↦ some (table'', heap'')
          ])
          else some (table', heap')
    ]

-- A map with its count, which may be 0, or the negative count.
pub data Selection : Type 0 where
  mapped : List (ℤ × ℤ) → Selection
  all_inheritable : Selection

abbrev pub succeeded : Option (HandleTable × Heap) → Option Detached
succeeded none = none
succeeded (some (table, heap)) = some (success, table, heap)

unfoldable pub object_process_create :
    ℕ → HandleTable → HandleTable → Selection → Heap → Option Detached
unfolding inherit_map inherit_where
object_process_create process table parent (mapped pairs) heap =
    inherit_map pairs table parent (some process) heap
object_process_create process table parent all_inheritable heap = succeeded (
    inherit_where (λ i. is_inheritable (parent.flags i)) handle_table_size table parent
      (some process) heap)

abbrev pub is_entry : Option ℕ → Bool
is_entry none = false
is_entry (some h) = true

unfoldable pub object_process_clone :
    ℕ → HandleTable → HandleTable → Heap → Option (HandleTable × Heap)
unfolding inherit_where
object_process_clone process table parent heap =
    inherit_where (λ i. is_entry (parent.handles i)) handle_table_size table parent (some process)
      heap

-- All entries below a number are detached and released, in order.
unfoldable pub release_entries : ℕ → ℕ → HandleTable → Heap → Option Heap
unfolding object_handle_release
release_entries process zero table heap = some heap
release_entries process (suc n) table heap = elim (release_entries process n table heap) [
  | none ↦ none
  | some heap' ↦ elim (table.handles n) [
    | none ↦ some heap'
    | some h ↦ object_handle_release h (detach_call h process heap')
  ]
]

-- The lists of callbacks are to be empty.
unfoldable pub object_process_cleanup : ℕ → HandleTable → Heap → Option Heap
unfolding release_entries
object_process_cleanup process table heap = elim (table.callbacks) [
  | [] ↦ release_entries process handle_table_size table heap
  | w ∷ ws ↦ none
]

unfoldable pub object_thread_cleanup : ℕ → HandleTable → Heap → HandleTable × Heap
unfolding keep remove_callbacks
object_thread_cleanup thread table heap = (
  record table { callbacks = keep (λ w. not (w.thread == thread)) (table.callbacks) },
  remove_callbacks (keep (λ w. w.thread == thread) (table.callbacks)) heap,
)

unfoldable pub attach_entries : ℕ → ℕ → HandleTable → Heap → Heap
attach_entries process zero table heap = heap
attach_entries process (suc n) table heap = elim (table.handles n) [
  | none ↦ attach_entries process n table heap
  | some h ↦ attach_call h process (attach_entries process n table heap)
]

-- The part of a map before the pair that fails, the latest pair first, with the status and the table
-- that is then thrown away.
abbrev pub Populated : Type 0
Populated = Status × List (ℤ × ℤ) × HandleTable × Heap

unfoldable pub populate :
    List (ℤ × ℤ) → List (ℤ × ℤ) → HandleTable → HandleTable → Heap → Option Populated
unfolding inherit_handle
populate [] made table parent heap = some (success, made, table, heap)
populate ((source, dest) ∷ pairs) made table parent heap =
    elim (inherit_handle table dest parent source none heap) [
      | none ↦ none
      | some (status, table', heap') ↦
          let rest = populate pairs ((source, dest) ∷ made) table' parent heap' in
          if is_success status then rest else some (status, made, table', heap')
    ]

unfoldable pub unpopulate : List (ℤ × ℤ) → HandleTable → Heap → Option Heap
unfolding object_handle_release
unpopulate [] table heap = some heap
unpopulate ((source, dest) ∷ made) table heap = elim (in_table dest) [
  | none ↦ none
  | some d ↦ elim (table.handles d) [
    | none ↦ none
    | some h ↦ elim (object_handle_release h heap) [
      | none ↦ none
      | some heap' ↦ unpopulate made table heap'
    ]
  ]
]

-- The new table takes the place of the old one.
unfoldable pub switch_tables : ℕ → ℕ → HandleTable → HandleTable → Heap → Option Detached
unfolding object_process_cleanup object_thread_cleanup attach_entries
switch_tables process thread table new heap =
    let (table', heap') = object_thread_cleanup thread table heap in
    elim (object_process_cleanup process table' heap') [
      | none ↦ none
      | some heap'' ↦ some (success, new, attach_entries process handle_table_size new heap'')
    ]

abbrev pub failed_exec : Status → HandleTable → Option Heap → Option Detached
failed_exec status table none = none
failed_exec status table (some heap) = some (status, table, heap)

abbrev pub exec_map : ℕ → ℕ → HandleTable → Option Populated → Option Detached
exec_map process thread table none = none
exec_map process thread table (some (status, made, new, heap)) =
    if is_success status
    then switch_tables process thread table new heap
    else failed_exec status table (unpopulate made new heap)

abbrev pub exec_all : ℕ → ℕ → HandleTable → Option (HandleTable × Heap) → Option Detached
exec_all process thread table none = none
exec_all process thread table (some (new, heap)) = switch_tables process thread table new heap

unfoldable pub object_process_exec :
    ℕ → ℕ → List Word → HandleTable → Selection → Heap → Option Detached
unfolding populate unpopulate switch_tables inherit_where
object_process_exec process thread memory table (mapped pairs) heap =
    exec_map process thread table (populate pairs [] (object_process_init memory) table heap)
object_process_exec process thread memory table all_inheritable heap =
    exec_all process thread table (
      inherit_where (λ i. is_inheritable (table.flags i)) handle_table_size
        (object_process_init memory) table none heap)
