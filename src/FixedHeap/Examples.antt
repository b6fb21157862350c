-- ===== src/FixedHeap/Examples.antt =====
-- The theorems on fixed heaps at a concrete one.
use infinity_os.Base.{◌+◌, ◌≤◌, ◌≡◌, refl, true, false, [], ◌∷◌, arith, none, ◌⊎◌}
use infinity_os.FixedHeap.{Tag, tag_bytes, total_size, fixed_heap_alloc, fixed_heap_free}
use infinity_os.FixedHeap.Segments.{
  Gained, IsFull, Freed, fixed_heap_alloc-Gained, fixed_heap_free-Freed,
}

abbrev used : Tag
used = record { address = 4096; size = 32; allocated = true }

abbrev unused : Tag
unused = record { address = 4128; size = 96; allocated = false }

fixed_heap_alloc-Gained_example :
    ((fixed_heap_alloc 10 (used ∷ unused ∷ []) ≡ none)
      × (IsFull (total_size 10) (used ∷ unused ∷ [])))
    ⊎ ((10 + tag_bytes ≤ total_size 10)
        × (Gained 4096 4224
            (total_size 10)
            (used ∷ unused ∷ [])
            (fixed_heap_alloc 10 (used ∷ unused ∷ []))))
fixed_heap_alloc-Gained_example =
    fixed_heap_alloc-Gained 4096 4224 10 (used ∷ unused ∷ []) (omega arith) (omega arith)
      (refl, omega arith, (refl, omega arith, refl))

fixed_heap_free-Freed_example :
    Freed 4096 4224 [] (unused ∷ []) (fixed_heap_free 4112 (used ∷ unused ∷ []))
fixed_heap_free-Freed_example =
    fixed_heap_free-Freed 4096 4224 [] used (unused ∷ []) refl
      (refl, omega arith, (refl, omega arith, refl))
