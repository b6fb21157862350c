-- ===== src/FixedHeap/Segments.antt =====
-- The segments tile the memory of the heap, and the blocks in use are those that were handed out.
use infinity_os.Base.{
  ℕ, ◌+◌, ◌-◌, ◌^◌, ◌≤◌, ◌<◌, ◌≡◌, refl, true, false, ◌&&◌, ◌||◌, Option, none, some, List, [], ◌∷◌,
  ◌++◌, if◌then◌else◌, ltb, ◌==◌, arith, ◌⊎◌, inl, inr, Bool-cases, ==_refl, ap, sym, subst, ◌∙◌,
}
use infinity_os.FixedHeap.{
  Tag, tag_bytes, total_size, chop, alloc_loop, fixed_heap_alloc, merge_previous, is_next,
  free_loop, fixed_heap_free,
}

-- The segments follow one another from an address to another, without a gap, and none is empty.
abbrev pub Tiles : ℕ → ℕ → List Tag → Type 0
Tiles from to [] = from ≡ to
Tiles from to (t ∷ rest) = (t.address ≡ from) × (0 < t.size) × (Tiles (from + t.size) to rest)

-- The segments in use.
abbrev pub live : List Tag → List Tag
live [] = []
live (t ∷ rest) = if t.allocated then t ∷ live rest else live rest

-- A new segment of at least that size is in use besides those that were.
abbrev pub Gained : ℕ → ℕ → ℕ → List Tag → Option (ℕ × List Tag) → Type 0
Gained from to total tags r =
    (t : Tag) × (tags' : List Tag) × (before : List Tag) × (after : List Tag) × (r
      ≡ some (t.address + tag_bytes, tags'))
    × (Tiles from to tags')
    × (total ≤ t.size)
    × (live tags ≡ before ++ after)
    × (live tags' ≡ before ++ t ∷ after)

-- No free segment is large enough.
abbrev pub IsFull : ℕ → List Tag → Type 0
IsFull total [] = Unit {0}
IsFull total (t ∷ rest) = ((t.allocated || ltb t.size total) ≡ true) × IsFull total rest

alloc_skip :
    (from to total : ℕ) (t : Tag) (rest : List Tag)
    → (t.allocated || ltb t.size total) ≡ true
    → Tiles from to (t ∷ rest)
    → Gained (from + t.size) to total rest (alloc_loop total rest)
    → Gained from to total (t ∷ rest) (alloc_loop total (t ∷ rest))
unfolding alloc_loop
alloc_skip from to total t rest busy v (u, tags', before, after, e, tiles, large, old, new) = (
  u,
  t ∷ tags',
  (if t.allocated then t ∷ before else before),
  after,
  rw (busy, e) refl,
  (v.0, v.1, tiles),
  large,
  ground (arith, old),
  ground (arith, new),
)

alloc_take :
    (from to total : ℕ) (t : Tag) (rest : List Tag)
    → 0 < total
    → (t.allocated || ltb t.size total) ≡ false
    → Tiles from to (t ∷ rest)
    → Gained from to total (t ∷ rest) (alloc_loop total (t ∷ rest))
unfolding alloc_loop chop
alloc_take from to total t rest p free v =
    elim (Bool-cases (ltb total t.size && ltb (tag_bytes + 8) (t.size - total))) [
      | inl large ↦
          let end : from + total + (t.size - total) ≡ from + t.size = ground arith in
          (
            record t { size = total; allocated = true },
            record t { size = total; allocated = true }
                ∷ record { address = t.address + total; size = t.size - total; allocated = false }
                ∷ rest,
            [],
            live rest,
            rw (free, large) refl,
            (
              v.0,
              p,
              (ground (arith, v.0), ground arith, subst (λ x. Tiles x to rest) (sym end) v.2),
            ),
            omega arith,
            ground arith,
            refl,
          )
      | inr exact ↦ (
        record t { allocated = true },
        record t { allocated = true } ∷ rest,
        [],
        live rest,
        rw (free, exact) refl,
        (v.0, v.1, v.2),
        ground arith,
        ground arith,
        refl,
      )
    ]

alloc_loop-cases :
    (from to total : ℕ) (tags : List Tag)
    → 0 < total
    → Tiles from to tags
    → ((alloc_loop total tags ≡ none) × IsFull total tags)
      ⊎ Gained from to total tags (alloc_loop total tags)
unfolding alloc_loop
alloc_loop-cases from to total [] p v = inl (refl, tt)
alloc_loop-cases from to total (t ∷ rest) p v =
    elim (Bool-cases (t.allocated || ltb t.size total)) [
      | inl busy ↦ elim (alloc_loop-cases (from + t.size) to total rest p v.2) [
        | inl none_left ↦ inl (rw (busy, none_left.0) refl, (busy, none_left.1))
        | inr g ↦ inr (alloc_skip from to total t rest busy v g)
      ]
      | inr free ↦ inr (alloc_take from to total t rest p free v)
    ]

-- An allocation of a size that does not overflow in a heap whose segments tile its memory hands out
-- a segment of at least the size and its tag, the segments tile the memory as before, and the
-- segments in use are those that were and this one; or it returns NULL, and no free segment is
-- large enough.
pub fixed_heap_alloc-Gained :
    (from to size : ℕ) (tags : List Tag)
    → 0 < size
    → size + 32 < 2 ^ 64
    → Tiles from to tags
    → ((fixed_heap_alloc size tags ≡ none) × IsFull (total_size size) tags)
      ⊎ ((size + tag_bytes ≤ total_size size)
          × Gained from to (total_size size) tags (fixed_heap_alloc size tags))
unfolding fixed_heap_alloc
fixed_heap_alloc-Gained from to size tags p fits v =
    let some_size : (size == 0) ≡ false = ground arith in
    let large : size + tag_bytes ≤ total_size size = omega arith in
    rw some_size (elim (alloc_loop-cases from to (total_size size) tags (omega (arith, large)) v) [
      | inl full ↦ inl full
      | inr g ↦ inr (large, g)
    ])

-- The segments tile the memory as before, and one is not in use any more.
abbrev pub Freed : ℕ → ℕ → List Tag → List Tag → Option (List Tag) → Type 0
Freed from to before after r =
    (tags' : List Tag) × (r ≡ some tags')
    × (Tiles from to tags')
    × (live tags' ≡ live before ++ live after)

starts_before :
    (from to : ℕ) (before : List Tag) (t : Tag) (after : List Tag)
    → Tiles from to (before ++ t ∷ after)
    → from ≤ t.address
starts_before from to [] t after v = omega (arith, v.0)
starts_before from to (u ∷ before) t after v =
    omega (arith, starts_before (from + u.size) to before t after v.2)

free_first :
    (from to : ℕ) (t : Tag) (after : List Tag)
    → t.allocated ≡ true
    → Tiles from to (t ∷ after)
    → (h : Tag) × (more : List Tag) × (free_loop t.address (t ∷ after) ≡ some (h ∷ more))
      × (Tiles from to (h ∷ more))
      × (h.allocated ≡ false)
      × (live (h ∷ more) ≡ live after)
unfolding free_loop
free_first from to t [] busy v =
    (record t { allocated = false }, [], ground arith, (v.0, v.1, v.2), refl, refl)
free_first from to t (n ∷ after) busy v = elim (Bool-cases n.allocated) [
  | inl used ↦
      (record t { allocated = false }, n ∷ after, ground arith, (v.0, v.1, v.2), refl, refl)
  | inr free ↦ (
    record t { allocated = false; size = t.size + n.size },
    after,
    ground arith,
    (v.0, ground arith, subst (λ x. Tiles x to after) (omega arith) v.2.2),
    refl,
    ground arith,
  )
]

free_past :
    (a : ℕ) (u : Tag) (rest : List Tag)
    → (u.address == a) ≡ false
    → free_loop a (u ∷ rest) ≡ merge_previous a u rest (free_loop a rest)
unfolding free_loop
free_past a u rest h = rw h refl

-- The freed segment, perhaps merged with the next one, behind a segment that may take it in.
merge_back :
    (from to a : ℕ) (u h : Tag) (more old : List Tag)
    → is_next a old ≡ true
    → u.address ≡ from
    → 0 < u.size
    → Tiles (from + u.size) to (h ∷ more)
    → h.allocated ≡ false
    → (tags' : List Tag) × (merge_previous a u old (some (h ∷ more)) ≡ some tags')
      × (Tiles from to tags')
      × (live tags' ≡ (if u.allocated then u ∷ live (h ∷ more) else live (h ∷ more)))
merge_back from to a u h more old is at pos v free = elim (Bool-cases u.allocated) [
  | inl used ↦ (u ∷ h ∷ more, rw (is, used) refl, (at, pos, v), refl)
  | inr empty ↦ (
    record u { size = u.size + h.size } ∷ more,
    rw (is, empty) refl,
    (at, omega arith, subst (λ x. Tiles x to more) (omega arith) v.2),
    ground arith,
  )
]

free_loop-Freed :
    (from to : ℕ) (before : List Tag) (t : Tag) (after : List Tag)
    → t.allocated ≡ true
    → Tiles from to (before ++ t ∷ after)
    → Freed from to before after (free_loop t.address (before ++ t ∷ after))
free_loop-Freed from to [] t after busy v =
    let (h, more, e, tiles, free, l) = free_first from to t after busy v in (h ∷ more, e, tiles, l)
free_loop-Freed from to (u ∷ []) t after busy v =
    let (h, more, e, tiles, free, l) = free_first (from + u.size) to t after busy v.2 in
    let far = starts_before (from + u.size) to [] t after v.2 in
    let past = free_past t.address u (t ∷ after) (ground (arith, v.0, v.1)) in
    let (tags, m, tiled, l') =
      merge_back from to t.address u h more (t ∷ after) (==_refl t.address) v.0 v.1 tiles free in
    (
      tags,
      past ∙ ap (λ r. merge_previous t.address u (t ∷ after) r) e ∙ m,
      tiled,
      ground (arith, l, l'),
    )
free_loop-Freed from to (u ∷ x ∷ before) t after busy v =
    let (tags, e, tiles, l) = free_loop-Freed (from + u.size) to (x ∷ before) t after busy v.2 in
    let far = starts_before (from + u.size + x.size) to before t after v.2.2 in
    let old = x ∷ (before ++ t ∷ after) in
    let past = free_past t.address u old (ground (arith, v.0, v.1, v.2.0, v.2.1)) in
    let apart : (x.address == t.address) ≡ false = ground (arith, v.2.0, v.2.1) in
    let kept : merge_previous t.address u old (some tags) ≡ some (u ∷ tags) = rw apart refl in
    (
      u ∷ tags,
      past ∙ ap (λ r. merge_previous t.address u old r) e ∙ kept,
      (v.0, v.1, tiles),
      ground (arith, l),
    )

-- Freeing the memory of a segment in use, in a heap whose segments tile its memory
-- succeeds; the segments tile the memory as before, and all other segments in use stay
-- in use with their places and sizes.
pub fixed_heap_free-Freed :
    (from to : ℕ) (before : List Tag) (t : Tag) (after : List Tag)
    → t.allocated ≡ true
    → Tiles from to (before ++ t ∷ after)
    → Freed from to before after (fixed_heap_free (t.address + tag_bytes) (before ++ t ∷ after))
unfolding fixed_heap_free
fixed_heap_free-Freed from to before t after busy v =
    let pointer : (t.address + tag_bytes == 0) ≡ false = ground arith in
    let back : t.address + tag_bytes - tag_bytes ≡ t.address = omega arith in
    rw (pointer, back) (free_loop-Freed from to before t after busy v)
