-- ===== src/AddressSpace/Allocation.antt =====
-- source/kernel/mm/vm.c: allocating space from the free lists.
use Prim.Native.Nat.{bit_and}
use infinity_os.Base.{
  ℕ, zero, suc, ◌+◌, ◌-◌, Bool, false, not, ◌&&◌, ◌||◌, Option, none, some, List, [], ◌∷◌,
  if◌then◌else◌, ltb, ◌==◌,
}
use infinity_os.AddressSpace.{
  ◌>>=◌, Region, vm_region_free, vm_region_allocated, Index, AddressSpace, vm_freelist_insert,
  vm_freelist_remove, vm_freelist_empty, region_of, list_for, vm_freelists, is_free,
}
use infinity_os.AddressSpace.Change.{onto, locate, Zipper, tree_insert, unused_region}

-- Whether some bit of the map is set, from one on.
unfoldable pub any_bit : ℕ → (ℕ → Bool) → ℕ → Bool
any_bit zero map i = false
any_bit (suc n) map i = let rest = any_bit n map (suc i) in map i || rest

-- The free list that the search starts with.
abbrev pub first_list : ℕ → Index → ℕ
first_list size ix =
    let list = list_for size in
    if not (bit_and size (size - 1) == 0) && any_bit 64 (ix.free_map) (list + 1)
    then list + 1
    else list

unfoldable pub first_fit : ℕ → List ℕ → List Region → Option (Option Region)
unfolding region_of
first_fit size [] rs = some none
first_fit size (id ∷ ids) rs =
    let rest = first_fit size ids rs in
    do
      region ← region_of id rs
      if not (is_free (region.state))
          then none
          else if ltb (region.size) size
          then rest
          else some (some region)

abbrev pub or_else : Option Region → Option (Option Region) → Option (Option Region)
or_else none rest = rest
or_else (some region) rest = some (some region)

-- The rounds of the loop over the lists, from one on.
unfoldable pub search_lists : (rounds list size : ℕ) → AddressSpace → Option (Option Region)
unfolding vm_freelist_empty first_fit
search_lists zero list size space = some none
search_lists (suc n) list size space =
    let rest = search_lists n (suc list) size space in
    do
      empty ← vm_freelist_empty (space.index) list
      if empty then rest else (do
        found ← first_fit size (space.index.free list) (space.regions)
        or_else found rest)

-- What is left of a free region goes back to the free lists.
abbrev pub enter_rest : Region → ℕ → List Region → Index → Option (List Region × Index)
enter_rest region size behind ix =
    let split =
      unused_region (ix.fresh) (region.start + size) (region.size - size) vm_region_free in
    if ltb size (region.size)
    then (do
      ix ← vm_freelist_insert split (split.size) (record ix { fresh = suc (ix.fresh) })
      some (split ∷ behind, ix))
    else some (behind, ix)

abbrev pub allocated_region : (access flags size : ℕ) → Region → Region
allocated_region access flags size region = record region {
  size = size;
  access = access;
  flags = flags;
  state = vm_region_allocated;
}

abbrev pub take_region : (access flags size : ℕ) → Zipper → Index → Option (ℕ × AddressSpace)
take_region access flags size (before, region, behind) ix = do
  ix ← vm_freelist_remove region ix
  (behind, ix) ← enter_rest region size behind ix
  ix ← tree_insert (region.start) (region.id) ix
  some (
    region.id,
    record {
      regions = onto before (allocated_region access flags size region ∷ behind);
      index = ix;
    },
  )

abbrev pub take_found :
    (access flags size : ℕ) → AddressSpace → Option Region → Option (Option ℕ × AddressSpace)
take_found access flags size space none = some (none, space)
take_found access flags size space (some region) = do
  zipper ← locate (region.id) [] (space.regions)
  (id, space) ← take_region access flags size zipper (space.index)
  some (some id, space)

unfoldable pub alloc_region :
    (size access flags : ℕ) → AddressSpace → Option (Option ℕ × AddressSpace)
unfolding search_lists any_bit vm_freelist_insert vm_freelist_remove locate onto list_for
alloc_region size access flags space =
    let list = first_list size (space.index) in
    if size == 0 then none else (do
      found ← search_lists (vm_freelists - list) list size space
      take_found access flags size space found)
