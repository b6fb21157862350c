-- ===== src/Object.antt =====
-- source/kernel/object.c: handles to kernel objects, and the table of the handles of a process.
--
-- A handle is named by a number; the structures are a function from names, and the calls of the
-- functions of an object's type are kept in the order of time, the latest first. Each function is
-- one step under the lock of the table. `none` is a fatal error, a failed assertion, or an access
-- to a handle that was freed. What `write_user` returns for an address is passed in its place.
pub mod Processes
pub mod Inherit
pub mod Populate
pub mod Exec
mod Examples
pub mod Calls
pub mod Counts
pub mod Release
pub mod Table
pub mod Attach
pub mod Detach
pub mod Duplicate
pub mod Keeps
pub mod Flags
pub mod Room
pub mod System
use infinity_os.Base.{
  ℕ, zero, suc, ◌+◌, ◌-◌, ◌%◌, Bool, true, false, not, ◌&&◌, ◌||◌, Option, none, some, List, [],
  ◌∷◌, if◌then◌else◌, ltb, ◌==◌,
}
use infinity_os.Base.Int.{ℤ, pos, negsuc}
use infinity_os.Status.{Status, success, invalid_handle, no_handles}
use infinity_os.Bitmap.Words.{Word}
use infinity_os.Bitmap.{Found, found, absent, fault, bitmap_ffz, bitmap_set, bitmap_clear}

abbrev pub handle_table_size : ℕ
handle_table_size = 512

-- The functions of a type may be NULL.
pub record ObjectType : Type 0 where
  pub id : ℕ
  pub flags : ℕ
  pub has_close : Bool
  pub has_attach : Bool
  pub has_detach : Bool

-- `OBJECT_TRANSFERRABLE` is bit 0.
abbrev pub is_transferrable : ObjectType → Bool
is_transferrable type = type.flags % 2 == 1

-- `HANDLE_INHERITABLE` is bit 0 as well.
abbrev pub is_inheritable : ℕ → Bool
is_inheritable flags = flags % 2 == 1

-- A name that no handle has is one that was freed.
pub record Handle : Type 0 where
  pub type : ObjectType
  pub count : ℕ
  pub freed : Bool

pub data Call : Type 0 where
  close_handle : (handle : ℕ) → Call
  attach_to detach_from : (handle process : ℕ) → Call
  unwait_event : (handle wait : ℕ) → Call

pub record Heap : Type 0 where
  pub handles : ℕ → Handle
  pub calls : List Call

-- A callback stands in the list of its table entry and in that of its thread; both lists are the
-- ones of the table in the order of time.
pub record Wait : Type 0 where
  pub name : ℕ
  pub slot : ℕ
  pub handle : ℕ
  pub thread : ℕ

pub record HandleTable : Type 0 where
  pub handles : ℕ → Option ℕ
  pub flags : ℕ → ℕ
  pub callbacks : List Wait
  pub bitmap : List Word

unfoldable pub put_at {ℓ} : {A : Type ℓ} → (ℕ → A) → ℕ → A → ℕ → A
put_at f i a j = if i == j then a else f j

abbrev pub store : Heap → ℕ → Handle → Heap
store heap h x = record heap { handles = put_at (heap.handles) h x }

abbrev pub call : Bool → Call → Heap → Heap
call exists c heap = if exists then record heap { calls = c ∷ heap.calls } else heap

unfoldable pub object_handle_create : ObjectType → ℕ → Heap → Heap
unfolding put_at
object_handle_create type h heap = store heap h (record { type = type; count = 1; freed = false })

unfoldable pub object_handle_retain : ℕ → Heap → Option Heap
unfolding put_at
object_handle_retain h heap =
    let x = heap.handles h in
    if x.freed then none else some (store heap h (record x { count = x.count + 1 }))

abbrev pub slab_cache_free : ℕ → Heap → Heap
slab_cache_free h heap = store heap h (record (heap.handles h) { count = 0; freed = true })

-- A count of 0 would go below 0.
unfoldable pub object_handle_release : ℕ → Heap → Option Heap
unfolding put_at
object_handle_release h heap =
    let x = heap.handles h in
    if x.freed || (x.count == 0)
    then none
    else if x.count == 1
    then some (slab_cache_free h (call (x.type.has_close) (close_handle h) heap))
    else some (store heap h (record x { count = x.count - 1 }))

-- A handle ID that the table has a place for.
abbrev pub in_table : ℤ → Option ℕ
in_table (negsuc n) = none
in_table (pos n) = if ltb n handle_table_size then some n else none

abbrev pub entry_at : HandleTable → ℤ → Option ℕ
entry_at table id = elim (in_table id) [ none ↦ none | some i ↦ table.handles i ]

-- A negative type is any type.
abbrev pub is_type : ℤ → ObjectType → Bool
is_type (negsuc n) type = true
is_type (pos n) type = type.id == n

-- The status, the handle where there is one, and the handles with their counts.
abbrev pub Lookup : Type 0
Lookup = Status × Option ℕ × Heap

abbrev pub retained : ℕ → Option Heap → Option Lookup
retained h none = none
retained h (some heap) = some (success, some h, heap)

unfoldable pub lookup_handle : ℤ → ℤ → HandleTable → Heap → Option Lookup
unfolding object_handle_retain
lookup_handle id type table heap = elim (entry_at table id) [
  | none ↦ some (invalid_handle, none, heap)
  | some h ↦
      if is_type type ((heap.handles h).type)
      then retained h (object_handle_retain h heap)
      else some (invalid_handle, none, heap)
]

abbrev pub object_handle_lookup : ℤ → ℤ → HandleTable → Heap → Option Lookup
object_handle_lookup id type table heap = lookup_handle id type table heap

-- The status, the ID where there is one, the table, and the handles with their counts.
abbrev pub Outcome : Type 0
Outcome = Status × Option ℕ × HandleTable × Heap

-- A table entry for a handle, with its flags.
abbrev pub place : HandleTable → ℕ → ℕ → ℕ → Option HandleTable
place table id h flags = elim (bitmap_set (table.bitmap) id) [
  | none ↦ none
  | some bm ↦ some (record table {
    handles = put_at (table.handles) id (some h);
    flags = put_at (table.flags) id flags;
    bitmap = bm;
  })
]

abbrev pub attach_call : ℕ → ℕ → Heap → Heap
attach_call h process heap = call ((heap.handles h).type.has_attach) (attach_to h process) heap

abbrev pub detach_call : ℕ → ℕ → Heap → Heap
detach_call h process heap = call ((heap.handles h).type.has_detach) (detach_from h process) heap

-- The entry is made after the reference was taken.
abbrev pub placed : HandleTable → ℕ → ℕ → ℕ → Option Heap → Option Outcome
placed table process id h none = none
placed table process id h (some heap) = elim (place table id h 0) [
  | none ↦ none
  | some table' ↦ some (success, some id, table', attach_call h process heap)
]

-- What `write_user` returns, if there is a user address.
abbrev pub written : Option Status → Status
written none = success
written (some status) = status

abbrev pub is_success : Status → Bool
is_success success = true
is_success status = false

unfoldable pub attach_handle : ℕ → ℕ → Option Status → Bool → HandleTable → Heap → Option Outcome
unfolding object_handle_retain put_at
attach_handle process h uidp retain table heap =
    elim (bitmap_ffz (table.bitmap) handle_table_size) [
      | absent ↦ some (no_handles, none, table, heap)
      | fault ↦ none
      | found id ↦
          if is_success (written uidp)
          then placed table process id h (if retain then object_handle_retain h heap else some heap)
          else some (written uidp, some id, table, heap)
    ]

-- `remove_callback` for each callback in a list.
unfoldable pub remove_callbacks : List Wait → Heap → Heap
remove_callbacks [] heap = heap
remove_callbacks (w ∷ ws) heap =
    remove_callbacks ws (record heap { calls = unwait_event (w.handle) (w.name) ∷ heap.calls })

unfoldable pub keep : (Wait → Bool) → List Wait → List Wait
keep p [] = []
keep p (w ∷ ws) = let rest = keep p ws in if p w then w ∷ rest else rest

abbrev pub vacate : HandleTable → ℕ → Option HandleTable
vacate table id = elim (bitmap_clear (table.bitmap) id) [
  | none ↦ none
  | some bm ↦ some (record table {
    handles = put_at (table.handles) id none;
    flags = put_at (table.flags) id 0;
    callbacks = keep (λ w. not (w.slot == id)) (table.callbacks);
    bitmap = bm;
  })
]

abbrev pub Detached : Type 0
Detached = Status × HandleTable × Heap

abbrev pub vacated : HandleTable → ℕ → Option Heap → Option Detached
vacated table id none = none
vacated table id (some heap) = elim (vacate table id) [
  | none ↦ none
  | some table' ↦ some (success, table', heap)
]

unfoldable pub detach_handle : ℕ → ℤ → HandleTable → Heap → Option Detached
unfolding object_handle_release keep remove_callbacks put_at
detach_handle process id table heap = elim (in_table id) [
  | none ↦ some (invalid_handle, table, heap)
  | some i ↦ elim (table.handles i) [
    | none ↦ some (invalid_handle, table, heap)
    | some h ↦
        let called = detach_call h process heap in
        let unwaited = remove_callbacks (keep (λ w. w.slot == i) (table.callbacks)) called in
        vacated table i (object_handle_release h unwaited)
  ]
]

abbrev pub object_handle_attach : ℕ → ℕ → Option Status → HandleTable → Heap → Option Outcome
object_handle_attach process h uidp table heap = attach_handle process h uidp true table heap

abbrev pub object_handle_detach : ℕ → ℤ → HandleTable → Heap → Option Detached
object_handle_detach process id table heap = detach_handle process id table heap

-- If the handle could not be attached it is freed without a call of its type.
abbrev pub opened : ℕ → Option Outcome → Option Outcome
opened h none = none
opened h (some (status, id, table, heap)) =
    some (status, id, table, if is_success status then heap else slab_cache_free h heap)

-- `h` is the handle that the allocation returns.
unfoldable pub object_handle_open :
    ℕ → ObjectType → ℕ → Option Status → HandleTable → Heap → Option Outcome
unfolding object_handle_create attach_handle
object_handle_open process type h uidp table heap =
    opened h (attach_handle process h uidp false table (object_handle_create type h heap))
