-- ===== src/FixedHeap.antt =====
-- source/kernel/lib/fixed_heap.c: a heap in one area of memory, cut into tagged segments.
--
-- The tags are listed as their `next` pointers chain them. A tag's `data` is its size and the bit
-- that says whether it is allocated. `none` is a fatal error.
pub mod Segments
mod Examples
use infinity_os.Base.{
  ℕ, zero, suc, ◌+◌, ◌-◌, ◌*◌, ◌/◌, ◌%◌, ◌^◌, Bool, true, false, ◌&&◌, ◌||◌, Option, none, some,
  List, [], ◌∷◌, if◌then◌else◌, ltb, ◌==◌,
}

pub record Tag : Type 0 where
  pub address : ℕ
  pub size : ℕ
  pub allocated : Bool

-- `sizeof(fixed_heap_tag_t)`.
abbrev pub tag_bytes : ℕ
tag_bytes = 16

-- `round_up(size, 8) + sizeof(fixed_heap_tag_t)` as a `size_t`.
abbrev pub total_size : ℕ → ℕ
total_size size = ((size + 7) / 8 * 8 + tag_bytes) % 2 ^ 64

-- The segment that was found is cut if what is left of it can hold more than the least segment.
unfoldable pub chop : ℕ → Tag → List Tag → List Tag
chop total t rest =
    if ltb total t.size && ltb (tag_bytes + 8) (t.size - total)
    then record t { size = total; allocated = true }
      ∷ record { address = t.address + total; size = t.size - total; allocated = false }
      ∷ rest
    else record t { allocated = true } ∷ rest

abbrev pub behind : Tag → Option (ℕ × List Tag) → Option (ℕ × List Tag)
behind t none = none
behind t (some (p, rest)) = some (p, t ∷ rest)

unfoldable pub alloc_loop : ℕ → List Tag → Option (ℕ × List Tag)
unfolding chop
alloc_loop total [] = none
alloc_loop total (t ∷ rest) =
    let further = alloc_loop total rest in
    if t.allocated || ltb t.size total
    then behind t further
    else some (t.address + tag_bytes, chop total t rest)

-- Here `none` is NULL.
unfoldable pub fixed_heap_alloc : ℕ → List Tag → Option (ℕ × List Tag)
unfolding alloc_loop
fixed_heap_alloc size tags = if size == 0 then none else alloc_loop (total_size size) tags

abbrev pub merge_next : Tag → List Tag → List Tag
merge_next t [] = t ∷ []
merge_next t (n ∷ rest) =
    if n.allocated then t ∷ n ∷ rest else record t { size = t.size + n.size } ∷ rest

abbrev pub is_next : ℕ → List Tag → Bool
is_next address [] = false
is_next address (n ∷ rest) = n.address == address

abbrev pub merge_with : Tag → List Tag → List Tag
merge_with prev [] = prev ∷ []
merge_with prev (t ∷ rest) =
    if prev.allocated then prev ∷ t ∷ rest else record prev { size = prev.size + t.size } ∷ rest

-- A free tag in front takes in the tag that was freed.
abbrev pub merge_previous : ℕ → Tag → List Tag → Option (List Tag) → Option (List Tag)
merge_previous address prev old none = none
merge_previous address prev old (some rest) =
    if is_next address old then some (merge_with prev rest) else some (prev ∷ rest)

-- The search for the tag and for the one in front of it.
unfoldable pub free_loop : ℕ → List Tag → Option (List Tag)
free_loop address [] = none
free_loop address (t ∷ rest) =
    let further = free_loop address rest in
    if t.address == address
    then if t.allocated then some (merge_next (record t { allocated = false }) rest) else none
    else merge_previous address t rest further

unfoldable pub fixed_heap_free : ℕ → List Tag → Option (List Tag)
unfolding free_loop
fixed_heap_free ptr tags = if ptr == 0 then some tags else free_loop (ptr - tag_bytes) tags

unfoldable pub fixed_heap_init : (mem size : ℕ) → List Tag
fixed_heap_init mem size = record { address = mem; size = size; allocated = false } ∷ []
