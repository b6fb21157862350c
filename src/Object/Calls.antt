-- ===== src/Object/Calls.antt =====
-- source/kernel/object.c: the system calls on table entries.
--
-- A user address is what `write_user` returns for it, `none` for NULL; `null` is what `write_user`
-- returns for NULL. `none` as a result is an access to a handle that was freed.
use infinity_os.Base.{
  ℕ, zero, suc, Bool, true, false, not, ◌&&◌, Option, none, some, if◌then◌else◌, ltb,
}
use infinity_os.Base.Int.{ℤ, pos, negsuc}
use infinity_os.Status.{Status, success, invalid_handle, invalid_arg, not_supported, no_handles}
use infinity_os.Bitmap.{found, absent, fault, bitmap_ffz}
use infinity_os.Object.{
  is_transferrable, is_inheritable, Heap, HandleTable, put_at, in_table, place, attach_call,
  Outcome, Detached, is_success, handle_table_size, object_handle_retain, detach_handle,
  object_handle_detach,
}

-- The status, and the flags that are written.
unfoldable pub kern_handle_flags : ℤ → Status → HandleTable → Status × Option ℕ
kern_handle_flags id flagsp table = elim (in_table id) [
  | none ↦ (invalid_handle, none)
  | some i ↦ elim (table.handles i) [
    | none ↦ (invalid_handle, none)
    | some h ↦ (flagsp, some (table.flags i))
  ]
]

unfoldable pub kern_handle_set_flags : ℤ → ℕ → HandleTable → Heap → Status × HandleTable
unfolding put_at
kern_handle_set_flags id flags table heap = elim (in_table id) [
  | none ↦ (invalid_handle, table)
  | some i ↦ elim (table.handles i) [
    | none ↦ (invalid_handle, table)
    | some h ↦
        if is_inheritable flags && not (is_transferrable ((heap.handles h).type))
        then (not_supported, table)
        else (success, record table { flags = put_at (table.flags) i flags })
  ]
]

pub data Destination : Type 0 where
  invalid fresh : Destination
  slot : ℕ → Destination

-- `INVALID_HANDLE` is -1.
unfoldable pub destination : ℤ → Option Status → Destination
destination (negsuc zero) none = invalid
destination (negsuc zero) (some status) = fresh
destination (negsuc (suc n)) newp = invalid
destination (pos n) newp = if ltb n handle_table_size then slot n else invalid

-- The ID for the duplicate; a handle that has it is closed.
pub data Room : Type 0 where
  lost full : Room
  room : ℕ → HandleTable → Heap → Room

abbrev closed : ℕ → Option Detached → Room
closed i none = lost
closed i (some (status, table, heap)) = room i table heap

unfoldable pub make_room : ℕ → Destination → HandleTable → Heap → Room
unfolding detach_handle
make_room process invalid table heap = lost
make_room process (slot i) table heap = closed i (detach_handle process (pos i) table heap)
make_room process fresh table heap = elim (bitmap_ffz (table.bitmap) handle_table_size) [
  | absent ↦ full
  | fault ↦ lost
  | found id ↦ room id table heap
]

abbrev pub inserted : ℕ → ℕ → HandleTable → Option Heap → Option Outcome
inserted id h table none = none
inserted id h table (some heap) = elim (place table id h 0) [
  | none ↦ none
  | some table' ↦ some (success, some id, table', heap)
]

abbrev pub insert_duplicate : ℕ → ℕ → Status → HandleTable → Heap → Room → Option Outcome
insert_duplicate process h status table heap lost = none
insert_duplicate process h status table heap full = some (no_handles, none, table, heap)
insert_duplicate process h status table heap (room id table' heap') =
    if is_success status
    then inserted id h table' (object_handle_retain h (attach_call h process heap'))
    else some (status, some id, table', heap')

abbrev pub write_to : Status → Option Status → Status
write_to null none = null
write_to null (some status) = status

abbrev pub is_invalid : Destination → Bool
is_invalid invalid = true
is_invalid fresh = false
is_invalid (slot i) = false

unfoldable pub kern_handle_duplicate :
    ℕ → Status → ℤ → ℤ → Option Status → HandleTable → Heap → Option Outcome
unfolding destination make_room object_handle_retain
kern_handle_duplicate process null handle dest newp table heap = elim (in_table handle) [
  | none ↦ some (invalid_handle, none, table, heap)
  | some i ↦
      if is_invalid (destination dest newp)
      then some (invalid_arg, none, table, heap)
      else (elim (table.handles i) [
        | none ↦ some (invalid_handle, none, table, heap)
        | some h ↦
            insert_duplicate process h (write_to null newp) table heap
              (make_room process (destination dest newp) table heap)
      ])
]

abbrev pub kern_handle_close : ℕ → ℤ → HandleTable → Heap → Option Detached
kern_handle_close process id table heap = object_handle_detach process id table heap
