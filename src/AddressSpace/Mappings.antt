-- ===== src/AddressSpace/Mappings.antt =====
-- Mapping memory at any address and at an exact one.
use infinity_os.AddressSpace.Map.{map_object-Maps}
use infinity_os.Base.{
  ℕ, ◌+◌, ◌*◌, ◌/◌, ◌%◌, ◌≤◌, ◌<◌, ◌≡◌, refl, Bool, true, false, not, ◌&&◌, ◌||◌, Option, none,
  some, List, ◌∷◌, if◌then◌else◌, leb, ltb, ◌==◌, arith, ap, ◌∙◌, ◌⊎◌, sym, Bool-cases, inl, inr,
  subst,
}
use mathlib.Core.Option.{none-ne-some}
use infinity_os.Status.{Status, no_memory, invalid_arg}
use infinity_os.AddressSpace.{◌>>=◌, Region, vm_region_free, AddressSpace}
use infinity_os.AddressSpace.Change.{onto, at_range, insert_region, slab_cache_alloc}
use infinity_os.AddressSpace.Counts.{mark, tally, tally-onto, is_odd}
use infinity_os.AddressSpace.Indexes.{running}
use infinity_os.AddressSpace.Views.{unused, content, view}
use infinity_os.AddressSpace.Mapping.{
  word, ObjectHandle, check_args, stack_flags, exact_region, map_object, map_placed, find_place,
  vm_map,
}
use infinity_os.AddressSpace.Allocation.{allocated_region}
use infinity_os.AddressSpace.Place.{Holds}
use infinity_os.AddressSpace.Insert.{
  IsValid, in_range, everywhere, onto-Tiles, insert_region-Replaces,
}
use infinity_os.AddressSpace.Fitting.{is_fit}
use infinity_os.AddressSpace.Take.{alloc_region-Took}
use infinity_os.AddressSpace.Attach.{Placed, region_of-onto}
use infinity_os.AddressSpace.Unmap.{vm_aspace_fits-Within}
use infinity_os.AddressSpace.Map.{Accepts, Maps}

-- Arguments that are not refused.
size_given :
    (size : ℕ) → ((size == 0) || not (size % 4096 == 0)) ≡ false → (0 < size) × (size % 4096 ≡ 0)
size_given size h = (ground arith, ground arith)

addr_given :
    (addr size : ℕ)
    → (not (addr % 4096 == 0) || ltb ((addr + size) % word) addr) ≡ false
    → addr % 4096 ≡ 0
addr_given addr size h = ground arith

not_refused :
    (b : Bool) (status : Status) {o : Option Status}
    → (if b then some status else o) ≡ none
    → (b ≡ false) × (o ≡ none)
not_refused true status h = absurd (none-ne-some _ (sym h))
not_refused false status h = (refl, h)

module _ (addr size access : ℕ) (handle : Option ObjectHandle) (offset : ℕ) where
  given_size :
      (spec : ℕ)
      → check_args addr size spec access handle offset ≡ none
      → (0 < size) × (size % 4096 ≡ 0)
  unfolding check_args
  given_size spec accepted =
      size_given size ((not_refused ((size == 0) || not (size % 4096 == 0)) invalid_arg accepted).0)

  given_addr : check_args addr size 2 access handle offset ≡ none → addr % 4096 ≡ 0
  unfolding check_args
  given_addr accepted =
      let rest = (not_refused ((size == 0) || not (size % 4096 == 0)) invalid_arg accepted).1 in
      let rest = (not_refused (access == 0) invalid_arg rest).1 in
      addr_given addr size (
        (not_refused (not (addr % 4096 == 0) || ltb ((addr + size) % word) addr) invalid_arg
          rest).0)

within_space :
    (s e addr size : ℕ)
    → (leb s addr && leb (addr + size) e) ≡ true
    → (s ≤ addr) × (addr + size ≤ e)
within_space s e addr size h = (ground arith, ground arith)

abbrev Stands : List Region → AddressSpace → Region → Type 0
Stands rs old r =
    (addr : ℕ)
    → view rs addr
      ≡ (if in_range (r.start) (r.size) addr then content r addr else view (old.regions) addr)

-- Where free regions stand, and nothing else is changed.
abbrev pub WasFree : (start size : ℕ) → AddressSpace → Type 0
WasFree start size space =
    (addr : ℕ)
    → view (space.regions) addr
      ≡ (if in_range start size addr then unused vm_region_free else view (space.regions) addr)

-- The flags that a mapping has: those that were asked for, but that a stack of a single page loses
-- VM_MAP_STACK, the bit of weight 2.
abbrev pub flags_kept : (flags size : ℕ) → ℕ
flags_kept flags size = if size == 4096 then flags / 4 * 4 + flags % 2 else flags

stack_flags-kept : (flags size : ℕ) → stack_flags flags size ≡ flags_kept flags size
stack_flags-kept flags size = ground arith

module _ (left : Region) (s e : ℕ) (amap size access flags : ℕ) (handle : Option ObjectHandle)
    (offset : ℕ) (space : AddressSpace) (al : s % 4096 ≡ 0) (valid : IsValid s e space)
    (accepts : Accepts handle) where
  placed_odd :
      (b ys : List Region) (r : Region)
      → tally is_odd b ≡ 0
      → tally is_odd ys ≡ 0
      → tally is_odd (onto b (r ∷ ys)) ≡ mark (is_odd r)
  unfolding tally
  placed_odd b ys r odd_b odd_y = tally-onto is_odd b (r ∷ ys) ∙ omega (arith, odd_b, odd_y)

  opened_map :
      (addr spec : ℕ)
      → check_args addr size spec access handle offset ≡ none
      → vm_map left amap addr size spec access flags handle offset space ≡ (
          find_place left addr size spec access (flags_kept flags size) space
          >>= map_placed handle size (flags_kept flags size) offset amap)
  unfolding vm_map
  opened_map addr spec accepted =
      rw (accepted, vm_map)
        (ap
          (λ kept.
            find_place left addr size spec access kept space
            >>= map_placed handle size kept offset amap)
          (stack_flags-kept flags size))

  -- With arguments that are not refused and an object that can be mapped, a mapping at any address of
  -- a valid address space never fails an assertion. Either no free region is large enough, the
  -- status is STATUS_NO_MEMORY and nothing changes, or it succeeds with a range where only free
  -- regions stood: every address of it then has the access, the flags, less VM_MAP_STACK if it is a
  -- single page, the object with the offset counted from the range's start, and the new map of pages
  -- if one is needed; nothing else changes, and the state is valid.
  pub vm_map-any :
      (addr : ℕ)
      → check_args addr size 1 access handle offset ≡ none
      → ((vm_map left amap addr size 1 access flags handle offset space
            ≡ some (no_memory, none, space))
          × (tally (is_fit size) (space.regions) ≡ 0))
        ⊎ ((start : ℕ) × WasFree start size space
            × Maps s e size access
                (flags_kept flags size)
                handle
                offset
                amap
                start
                space
                (vm_map left amap addr size 1 access flags handle offset space))
  vm_map-any addr accepted =
      let (p, a) = given_size addr size access handle offset 1 accepted in
      let fl = flags_kept flags size in
      elim (alloc_region-Took s e size access fl p a space valid) [
        | inl (ran, small) ↦ inl (
          opened_map addr 1 accepted ∙ running (map_placed handle size fl offset amap) ran,
          small,
        )
        | inr (r, b, ys, ix, ran, good, u, t, odd_b, odd_y, was, eq) ↦
            let taken = allocated_region access fl size r in
            let space1 : AddressSpace = record { regions = onto b (taken ∷ ys); index = ix } in
            let placed_at : Placed s e space taken space1 = (
              region_of-onto b taken ys (good.3),
              refl,
              onto-Tiles s b (r.start) (taken ∷ ys) e u (refl, p, a, t),
              good,
              placed_odd b ys taken odd_b odd_y,
              eq,
            ) in
            let (space2, ran2, valid2, eq2) =
              map_object-Maps s e space amap handle offset space1 taken placed_at accepts in
            inr (
              r.start,
              was,
              (
                space2,
                opened_map addr 1 accepted
                    ∙ running (map_placed handle size fl offset amap) ran
                    ∙ ran2,
                valid2,
                eq2,
              ),
            )
      ]

  -- With arguments that are not refused and an object that can be mapped, a mapping at an exact
  -- address of a valid address space never fails an assertion. If the range leaves the address space,
  -- the status is STATUS_NO_MEMORY and nothing changes; otherwise it succeeds, at that address, in
  -- place of whatever its range held, with the access, the object with its offset, the new map of
  -- pages if one is needed, and the flags that were asked for, less VM_MAP_STACK if the mapping is a
  -- single page; nothing else changes, and the state is valid.
  pub vm_map-exact :
      (addr : ℕ)
      → s < e
      → e ≤ word
      → addr < word
      → size < word
      → check_args addr size 2 access handle offset ≡ none
      → ((vm_map left amap addr size 2 access flags handle offset space
            ≡ some (no_memory, none, space))
          × ((leb s addr && leb (addr + size) e) ≡ false))
        ⊎ (((leb s addr && leb (addr + size) e) ≡ true)
            × Maps s e size access
                (flags_kept flags size)
                handle
                offset
                amap
                addr
                space
                (vm_map left amap addr size 2 access flags handle offset space))
  vm_map-exact addr lt room h k accepted =
      let (p, a) = given_size addr size access handle offset 2 accepted in
      let low = given_addr addr size access handle offset accepted in
      let fl = flags_kept flags size in
      let fits = vm_aspace_fits-Within s e addr size (space.regions) (valid.0) lt room p h k in
      let fresh = space.index.fresh in
      let older = (slab_cache_alloc space).1 in
      let region = exact_region left fresh addr size access fl in
      let go = λ (b : Bool).
        if b
        then (insert_region region older >>= λ w. some (some fresh, w))
        else some (none, space) in
      elim (Bool-cases (leb s addr && leb (addr + size) e)) [
        | inr o ↦ inl (
          opened_map addr 2 accepted
              ∙ running (map_placed handle size fl offset amap) (running go fits ∙ ap go o),
          o,
        )
        | inl i ↦
            let (t, good, plain) = valid in
            let holds : Holds (some fresh) s e older = (
              t,
              (
                good.0,
                good.1,
                good.2,
                good.3,
                (λ x h. good.4 x (omega (arith, h))),
                (omega arith, good.4 fresh (omega arith)),
              ),
              plain,
            ) in
            let (from, to) = within_space s e addr size i in
            let (
              before,
              behind,
              (start, sz, b, ys, ix, ran, good2, u, t2, p2, a2, odd_b, odd_y, same, whole),
              eq,
            ) =
              insert_region-Replaces s e region older al holds (low, a, p, from, to) in
            let (at_addr, at_size) = whole refl in
            let put = at_range start sz region in
            let space1 : AddressSpace = record { regions = onto b (put ∷ ys); index = ix } in
            let tiles = onto-Tiles s b start (put ∷ ys) e u (refl, p2, a2, t2) in
            let same_region : put ≡ region =
              ap (λ n. at_range n sz region) at_addr ∙ ap (λ n. at_range addr n region) at_size in
            let views =
              everywhere s e addr size (content region) (onto b (put ∷ ys)) (space.regions) tiles t
                from (λ x h. same x ∙ eq x h) in
            let placed_at : Placed s e space put space1 = (
              region_of-onto b put ys (good2.3),
              refl,
              tiles,
              good2,
              placed_odd b ys put odd_b odd_y,
              subst (Stands (onto b (put ∷ ys)) space) (sym same_region) views,
            ) in
            let (space2, ran2, valid2, eq2) =
              subst
                (λ (r : Region).
                  Maps s e (r.size) access fl handle offset amap (r.start) space
                    (map_object handle fresh (r.size) fl offset amap space1))
                same_region
                (map_object-Maps s e space amap handle offset space1 put placed_at accepts) in
            inr (
              i,
              (
                space2,
                opened_map addr 2 accepted
                    ∙ running (map_placed handle size fl offset amap)
                        (running go fits ∙ ap go i ∙ running (λ w. some (some fresh, w)) ran)
                    ∙ ran2,
                valid2,
                eq2,
              ),
            )
      ]
