-- ===== src/IdAllocator/Examples.antt =====
-- The theorems on ID allocators at a concrete one.
use infinity_os.Base.{ℕ, ◌≡◌, refl, true, false, [], ◌∷◌, arith, some, replicate}
use infinity_os.Bitmap.Words.{complement, nonzero, word_or, shift_left, ffz}
use infinity_os.Bitmap.{bitmap_set, bitmap_ffz, ffz_loop}
use infinity_os.IdAllocator.{IdAllocator, id_allocator_alloc, id_allocator_free}
use infinity_os.IdAllocator.Laws.{
  in_use, IsAllocator, AllocResult, id_allocator_alloc-AllocResult, id_allocator_free-alloc,
}

-- IDs 0 to 9, of which 0 and 1 are in use.
abbrev ten : IdAllocator
ten = record { nbits = 10; bitmap = (true ∷ true ∷ replicate 62 false) ∷ [] }

ten-IsAllocator : IsAllocator ten
ten-IsAllocator = record { words = (refl, tt); room = omega arith }

abbrev ten_and_two : IdAllocator
ten_and_two = record { nbits = 10; bitmap = (true ∷ true ∷ true ∷ replicate 61 false) ∷ [] }

id_allocator_alloc-AllocResult_example : AllocResult ten (id_allocator_alloc ten)
id_allocator_alloc-AllocResult_example = id_allocator_alloc-AllocResult ten ten-IsAllocator

alloc_two : id_allocator_alloc ten ≡ some (some 2, ten_and_two)
unfolding id_allocator_alloc bitmap_ffz ffz_loop bitmap_set complement nonzero word_or shift_left
    ffz
alloc_two = refl

id_allocator_free-alloc_example :
    (a'' : IdAllocator) × (id_allocator_free ten_and_two 2 ≡ some a'')
    × ((j : ℕ) → in_use a'' j ≡ in_use ten j)
id_allocator_free-alloc_example =
    id_allocator_free-alloc ten ten_and_two 2 ten-IsAllocator alloc_two
