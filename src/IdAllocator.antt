-- ===== src/IdAllocator.antt =====
-- source/kernel/lib/id_allocator.c: IDs from 0 up to a highest one, kept in a bitmap.
--
-- Each function is one step under the allocator's spinlock. `none` is a fault: an access outside
-- the memory of the bitmap or a failed assertion. IDs are taken to stay below 2^31, where the
-- conversions to `int32_t` keep them.
pub mod Laws
mod Examples
use infinity_os.Base.{ℕ, ◌+◌, Bool, true, false, Option, none, some, List}
use infinity_os.Status.{Status, success, no_memory}
use infinity_os.Bitmap.Words.{Word}
use infinity_os.Bitmap.{
  found, absent, fault, bitmap_alloc, bitmap_set, bitmap_clear, bitmap_test, bitmap_ffz,
}

pub record IdAllocator : Type 0 where
  pub nbits : ℕ
  pub bitmap : List Word

abbrev with_bitmap : IdAllocator → Option (List Word) → Option IdAllocator
with_bitmap a none = none
with_bitmap a (some bm) = some (record a { bitmap = bm })

abbrev taken : ℕ → Option IdAllocator → Option (Option ℕ × IdAllocator)
taken id none = none
taken id (some a) = some (some id, a)

-- The inner `none` is the answer -1.
unfoldable pub id_allocator_alloc : IdAllocator → Option (Option ℕ × IdAllocator)
id_allocator_alloc a = elim (bitmap_ffz a.bitmap a.nbits) [
  | found id ↦ taken id (with_bitmap a (bitmap_set a.bitmap id))
  | absent ↦ some (none, a)
  | fault ↦ none
]

abbrev if_tested : Bool → Option Bool → Option IdAllocator → Option IdAllocator
if_tested wanted none r = none
if_tested true (some true) r = r
if_tested true (some false) r = none
if_tested false (some true) r = none
if_tested false (some false) r = r

unfoldable pub id_allocator_free : IdAllocator → ℕ → Option IdAllocator
id_allocator_free a id =
    if_tested true (bitmap_test a.bitmap id) (with_bitmap a (bitmap_clear a.bitmap id))

unfoldable pub id_allocator_reserve : IdAllocator → ℕ → Option IdAllocator
id_allocator_reserve a id =
    if_tested false (bitmap_test a.bitmap id) (with_bitmap a (bitmap_set a.bitmap id))

-- `memory` is what `kmalloc` returned.
unfoldable pub id_allocator_init : Option (List Word) → ℕ → Status × Option IdAllocator
id_allocator_init memory max = elim (bitmap_alloc memory (max + 1)) [
  | none ↦ (no_memory, none)
  | some bm ↦ (success, some (record { nbits = max + 1; bitmap = bm }))
]
