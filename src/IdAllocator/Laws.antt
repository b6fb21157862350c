-- ===== src/IdAllocator/Laws.antt =====
-- The allocator as a set of IDs.
use infinity_os.Base.{
  ℕ, ◌+◌, ◌*◌, ◌≤◌, ◌<◌, ◌≡◌, refl, Bool, true, false, Option, none, some, List, ◌==◌, arith,
  length, ◌⊎◌, inl, inr, subst, Bool-cases, ◌∙◌,
}
use infinity_os.Bitmap.Words.{Word, word_bits}
use infinity_os.Bitmap.Bits.{
  IsBitmap, bits, Updated, bitmap_zero-bits, bitmap_test-bits, bitmap_set-Updated,
  bitmap_clear-Updated,
}
use infinity_os.Bitmap.Scan.{Finds}
use infinity_os.Bitmap.Scan.Zero.{bitmap_ffz-Finds}
use infinity_os.Status.{success, no_memory}
use infinity_os.Bitmap.{bitmap_zero, bitmap_alloc, Found, found, absent, fault, bitmap_ffz}
use infinity_os.IdAllocator.{
  IdAllocator, id_allocator_alloc, id_allocator_free, id_allocator_reserve, id_allocator_init,
}

-- The IDs that are in use.
abbrev pub in_use : IdAllocator → ℕ → Bool
in_use a = bits a.bitmap

-- The memory of the bitmap holds a bit for each ID.
pub record IsAllocator (a : IdAllocator) : Type 0 where
  pub words : IsBitmap a.bitmap
  pub room : a.nbits ≤ word_bits * length a.bitmap

-- The allocator after one ID changed.
pub record Changed (a : IdAllocator) (id : ℕ) (b : Bool) (a' : IdAllocator) : Type 0 where
  pub valid : IsAllocator a'
  pub limit : a'.nbits ≡ a.nbits
  pub changed : in_use a' id ≡ b
  pub others : (j : ℕ) → (id == j) ≡ false → in_use a' j ≡ in_use a j

Updated-Changed :
    (a : IdAllocator) (id : ℕ) (b : Bool) (bm : List Word)
    → IsAllocator a
    → Updated a.bitmap id b bm
    → Changed a id b (record a { bitmap = bm })
Updated-Changed a id b bm v u = record {
  valid = record { words = u.well_formed; room = omega (arith, v.room, u.size) };
  limit = refl;
  changed = u.changed;
  others = u.others;
}

-- What `id_allocator_alloc` returns: the lowest free ID, which is in use from then on, or -1 with
-- nothing changed if no ID is free.
abbrev pub AllocResult : IdAllocator → Option (Option ℕ × IdAllocator) → Type 0
AllocResult a r =
    ((r ≡ some (none, a)) × ((j : ℕ) → j < a.nbits → in_use a j ≡ true))
    ⊎ ((id : ℕ) × (a' : IdAllocator) × (r ≡ some (some id, a'))
        × (id < a.nbits)
        × (in_use a id ≡ false)
        × ((j : ℕ) → j < id → in_use a j ≡ true)
        × Changed a id true a')

alloc_found :
    (a : IdAllocator) (r : Found)
    → IsAllocator a
    → bitmap_ffz a.bitmap a.nbits ≡ r
    → Finds false (in_use a) 0 a.nbits 0 r
    → AllocResult a (id_allocator_alloc a)
unfolding id_allocator_alloc
alloc_found a (found id) v e (k, i, s, h, hit, low) =
    let same : id ≡ k = omega arith in
    let (bm, p, u) = bitmap_set-Updated a.bitmap id v.words (omega (arith, v.room)) in
    inr (
      id,
      record a { bitmap = bm },
      rw (e, p, id_allocator_alloc) refl,
      omega arith,
      rw same hit,
      λ j l. low j (omega arith) (omega arith),
      Updated-Changed a id true bm v u,
    )
alloc_found a absent v e none_free =
    inl (rw (e, id_allocator_alloc) refl, λ j l. none_free j (omega arith) l)
alloc_found a fault v e h = absurd h

module _ (a : IdAllocator) (v : IsAllocator a) where
  -- `id_allocator_alloc` does not fault: it returns the lowest ID that is not in use and marks it,
  -- with all other IDs as before, or it returns -1 and changes nothing, all IDs being in use.
  pub id_allocator_alloc-AllocResult : AllocResult a (id_allocator_alloc a)
  id_allocator_alloc-AllocResult =
      alloc_found a _ v refl (bitmap_ffz-Finds a.bitmap a.nbits v.words v.room)

  -- Freeing an ID in range that is in use succeeds and changes no other ID.
  pub id_allocator_free-Changed :
      (id : ℕ)
      → id < a.nbits
      → in_use a id ≡ true
      → (a' : IdAllocator) × (id_allocator_free a id ≡ some a') × Changed a id false a'
  unfolding id_allocator_free
  id_allocator_free-Changed id l h =
      let (bm, p, u) = bitmap_clear-Updated a.bitmap id v.words (omega (arith, v.room)) in
      let t = bitmap_test-bits a.bitmap id (omega (arith, v.room)) in
      (
        record a { bitmap = bm },
        rw (t, h, p, id_allocator_free) refl,
        Updated-Changed a id false bm v u,
      )

  -- Reserving an ID in range that is not in use succeeds, marks it and changes no other ID.
  id_allocator_reserve-Changed :
      (id : ℕ)
      → id < a.nbits
      → in_use a id ≡ false
      → (a' : IdAllocator) × (id_allocator_reserve a id ≡ some a') × Changed a id true a'
  unfolding id_allocator_reserve
  id_allocator_reserve-Changed id l h =
      let (bm, p, u) = bitmap_set-Updated a.bitmap id v.words (omega (arith, v.room)) in
      let t = bitmap_test-bits a.bitmap id (omega (arith, v.room)) in
      (
        record a { bitmap = bm },
        rw (t, h, p, id_allocator_reserve) refl,
        Updated-Changed a id true bm v u,
      )

-- An ID that was just allocated can be freed, and then exactly those IDs are in use that were in
-- use before.
pub id_allocator_free-alloc :
    (a a' : IdAllocator) (id : ℕ)
    → IsAllocator a
    → id_allocator_alloc a ≡ some (some id, a')
    → (a'' : IdAllocator) × (id_allocator_free a' id ≡ some a'')
      × ((j : ℕ) → in_use a'' j ≡ in_use a j)
id_allocator_free-alloc a a' id v e = freed (id_allocator_alloc-AllocResult a v)
  where
    freed :
        AllocResult a (id_allocator_alloc a)
        → (a'' : IdAllocator) × (id_allocator_free a' id ≡ some a'')
          × ((j : ℕ) → in_use a'' j ≡ in_use a j)
    freed (inl (p, all_used)) = absurd (ground arith)
    freed (inr (k, b, p, l, free, low, c)) =
        let same : k ≡ id = ground arith in
        let same' : b ≡ a' = ground arith in
        let c' : Changed a id true a' =
          subst (λ x. Changed a id true x) same' (subst (λ x. Changed a x true b) same c) in
        let (a'', q, d) =
          id_allocator_free-Changed a' c'.valid id (omega (arith, c'.limit)) c'.changed in
        (
          a'',
          q,
          λ j. elim (Bool-cases (id == j)) [
            | inl here ↦ ground (arith, d.changed)
            | inr away ↦ d.others j away ∙ c'.others j away
          ],
        )

-- A new allocator over enough zeroed memory for the IDs up to `max` has none in use; without memory
-- there is none.
id_allocator_init-empty :
    (memory : List Word) (max : ℕ)
    → IsBitmap memory
    → max < word_bits * length memory
    → (a : IdAllocator) × (id_allocator_init (some memory) max ≡ (success, some a))
      × (id_allocator_init none max ≡ (no_memory, none))
      × (a.nbits ≡ max + 1)
      × (IsAllocator a)
      × ((id : ℕ) → id ≤ max → in_use a id ≡ false)
unfolding id_allocator_init bitmap_alloc
id_allocator_init-empty memory max v h =
    let (w, l, clear, rest) = bitmap_zero-bits memory (max + 1) v in
    (
      record { nbits = max + 1; bitmap = bitmap_zero memory (max + 1) },
      refl,
      refl,
      refl,
      record { words = w; room = omega arith },
      λ id k. clear id (omega arith),
    )
