-- ===== src/AddressSpace/Change.antt =====
-- source/kernel/mm/vm.c: cutting space out of an address space, inserting regions into it,
-- allocating space and freeing it.
use infinity_os.Base.{
  ℕ, suc, ◌+◌, ◌-◌, Bool, true, false, not, ◌&&◌, ◌||◌, Option, none, some, List, [], ◌∷◌,
  if◌then◌else◌, leb, ◌==◌, min, max,
}
use infinity_os.AvlTree.{avl_tree_insert, avl_tree_remove}
use infinity_os.AddressSpace.{
  ◌>>=◌, Region, RegionState, vm_region_free, vm_region_allocated, vm_region_reserved, is_free,
  is_allocated, Index, AddressSpace, VmCall, unmap_pages, vm_amap_unmap, vm_amap_retain,
  vm_amap_release, object_handle_retain, object_handle_release, vm_freelist_insert,
  vm_freelist_remove, vm_region_mergeable, vm_region_find,
}

abbrev pub log_call : VmCall → Index → Index
log_call c ix = record ix { calls = c ∷ ix.calls }

-- A call for what a region has of a kind.
abbrev pub call_for : Option ℕ → (ℕ → VmCall) → Index → Index
call_for none c ix = ix
call_for (some x) c ix = log_call (c x) ix

abbrev pub is_some {ℓ} : {A : Type ℓ} → Option A → Bool
is_some none = false
is_some (some a) = true

unfoldable pub vm_region_unmap : Region → (start size : ℕ) → Index → Option Index
vm_region_unmap region start size ix =
    if is_allocated (region.state) && (is_some (region.handle) || is_some (region.amap))
    then some (
        call_for (region.amap)
          (λ amap. vm_amap_unmap amap ((start - region.start) + region.amap_offset) size)
          (log_call (unmap_pages start size) ix))
    else none

abbrev pub tree_insert : (key id : ℕ) → Index → Option Index
tree_insert key id ix = do t ← avl_tree_insert (ix.tree) key id; some (record ix { tree = t })

abbrev pub tree_remove : ℕ → Index → Option Index
tree_remove key ix = do t ← avl_tree_remove (ix.tree) key; some (record ix { tree = t })

-- A cached pointer to a region that goes is dropped.
abbrev pub uncached : ℕ → Option ℕ → Option ℕ
uncached id none = none
uncached id (some c) = if c == id then none else some c

abbrev pub dropped : ℕ → Index → Index
dropped id ix = record ix { find_cache = uncached id (ix.find_cache) }

abbrev pub released : Region → Index → Index
released region ix =
    call_for (region.handle) object_handle_release (call_for (region.amap) vm_amap_release ix)

-- What becomes of the structures that find a region when it goes, by its state.
abbrev pub forget : RegionState → Region → Index → Option Index
forget vm_region_allocated region ix = do
  ix ← vm_region_unmap region (region.start) (region.size) ix
  tree_remove (region.start) (released region ix)
forget vm_region_free region ix = vm_freelist_remove region ix
forget vm_region_reserved region ix = some ix

unfoldable pub vm_region_destroy : Region → Index → Option Index
unfolding vm_region_unmap vm_freelist_remove
vm_region_destroy region ix = do ix ← forget (region.state) region ix; some (dropped (region.id) ix)

-- Where a region moves in its object: the map's offset is the one that moves if it has a map.
abbrev pub advance : Bool → ℕ → Region → Region
advance moves n region = record region {
  amap_offset =
      if moves && is_some (region.amap) then region.amap_offset + n else region.amap_offset;
  obj_offset =
      if moves && not (is_some (region.amap)) then region.obj_offset + n else region.obj_offset;
}

abbrev pub retained_parts : Region → Index → Index
retained_parts region ix =
    call_for (region.amap) vm_amap_retain (call_for (region.handle) object_handle_retain ix)

abbrev pub at_range : (start size : ℕ) → Region → Region
at_range start size region = record region { start = start; size = size }

-- The new region for the top half of a split, and where it is found.
abbrev pub enter_split : RegionState → Region → Index → Option Index
enter_split vm_region_allocated split ix =
    tree_insert (split.start) (split.id) (retained_parts split ix)
enter_split vm_region_free split ix = vm_freelist_insert split (split.size) ix
enter_split vm_region_reserved split ix = some ix

abbrev pub top_half : Region → (id start size : ℕ) → Region
top_half region id start size =
    let moved = advance (is_allocated (region.state)) (start - region.start) region in
    record (at_range start size moved) { id = id }

unfoldable pub split_region : Region → (start size : ℕ) → Index → Option (Region × Index)
unfolding vm_freelist_insert
split_region region start size ix =
    let split = top_half region (ix.fresh) start size in
    do ix ← enter_split (split.state) split (record ix { fresh = suc (ix.fresh) }); some (split, ix)

-- The last part of a round: the region in the structures that find it, and then its range.
abbrev pub moved_in_tree : Region → ℕ → Index → Option Index
moved_in_tree region new_start ix =
    if not (new_start == region.start) && is_allocated (region.state)
    then (do ix ← tree_remove (region.start) ix; tree_insert new_start (region.id) ix)
    else some ix

abbrev pub moved : Region → ℕ → Region
moved region new_start =
    advance (not (new_start == region.start) && is_allocated (region.state))
      (new_start - region.start) region

abbrev pub moved_in_lists : Region → ℕ → Index → Option Index
moved_in_lists region new_size ix =
    if not (new_size == region.size) && is_free (region.state)
    then (do ix ← vm_freelist_remove region ix; vm_freelist_insert region new_size ix)
    else some ix

unfoldable pub resize_region : Region → (new_start new_size : ℕ) → Index → Option (Region × Index)
unfolding vm_freelist_insert vm_freelist_remove
resize_region region new_start new_size ix = do
  ix ← moved_in_tree region new_start ix
  ix ← moved_in_lists region new_size ix
  some (at_range new_start new_size (moved region new_start), ix)

abbrev pub unmap_part : Region → (start size : ℕ) → Index → Option Index
unmap_part region start size ix =
    if is_allocated (region.state) then vm_region_unmap region start size ix else some ix

abbrev pub one_part : Option (Region × Index) → Option (List Region × Index)
one_part o = do (r, ix) ← o; some (r ∷ [], ix)

-- The existing region becomes the bottom half of the split.
abbrev pub two_parts : Region → (first last : ℕ) → Index → Option (List Region × Index)
two_parts region first last ix = do
  (split, ix) ← split_region region (last + 1) (region.start + region.size - 1 - last) ix
  (r, ix) ← resize_region region (region.start) (first - region.start) ix
  some (r ∷ split ∷ [], ix)

-- What is left of a region of which a range overlaps a part, from `first` to `last`.
unfoldable pub trim_region : Region → (first last : ℕ) → Index → Option (List Region × Index)
unfolding vm_region_unmap split_region resize_region
trim_region region first last ix =
    let region_end = region.start + region.size - 1 in
    do
      ix ← unmap_part region first (last - first + 1) ix
      if first == region.start
          then one_part (resize_region region (last + 1) (region_end - last) ix)
          else if last == region_end
          then one_part (resize_region region (region.start) (first - region.start) ix)
          else two_parts region first last ix

-- A split ends the loop.
abbrev pub go_on :
    List Region
    → (Index → Option (List Region × Index))
    → (next : List Region) → Index
    → Option (List Region × Index)
go_on [] loop next ix = none
go_on (r ∷ []) loop next ix = do (rest, ix) ← loop ix; some (r ∷ rest, ix)
go_on (r ∷ split ∷ more) loop next ix = some (r ∷ split ∷ next, ix)

-- The rounds of the loop over a region and those behind it.
unfoldable pub trim_from : (start end : ℕ) → List Region → Index → Option (List Region × Index)
unfolding vm_region_destroy trim_region
trim_from start end [] ix = some ([], ix)
trim_from start end (region ∷ next) ix =
    let loop = trim_from start end next in
    let region_end = region.start + region.size - 1 in
    let first = max start (region.start) in
    let last = min end region_end in
    if leb last first
    then some (region ∷ next, ix)
    else if (first == region.start) && (last == region_end)
    then (do ix ← vm_region_destroy region ix; loop ix)
    else (do (parts, ix) ← trim_region region first last ix; go_on parts loop next ix)

-- The list of regions at the place where a new one goes: those before it, the nearest first, and
-- those behind it.
abbrev pub Place : Type 0
Place = List Region × List Region

-- The regions before the one that a pointer points to, the nearest first, that one and the others.
abbrev pub Zipper : Type 0
Zipper = List Region × Region × List Region

unfoldable pub locate : ℕ → (before after : List Region) → Option Zipper
locate id before [] = none
locate id before (r ∷ rs) =
    let rest = locate id (r ∷ before) rs in if r.id == id then some (before, r, rs) else rest

-- The region that is returned for a trimmed area is the one at whose end the area starts, and the
-- region before it if the area starts with it.
abbrev pub trimmed_place : Bool → (before rest : List Region) → Option Place
trimmed_place true before rest = some (before, rest)
trimmed_place false before [] = none
trimmed_place false before (r ∷ rest) = some (r ∷ before, rest)

abbrev pub trim_at : (start end : ℕ) → Zipper → Index → Option (Place × Index)
trim_at start end (before, region, behind) ix = do
  (rest, ix) ← trim_from start end (region ∷ behind) ix
  place ← trimmed_place (region.start == start) before rest
  some (place, ix)

unfoldable pub trim_regions : (start size : ℕ) → AddressSpace → Option (Place × Index)
unfolding vm_region_find locate trim_from
trim_regions start size space = do
  (found, cache) ← vm_region_find space start true
  id ← found
  zipper ← locate id [] (space.regions)
  trim_at start (start + size - 1) zipper (record (space.index) { find_cache = cache })

-- All regions, from a place in their list.
unfoldable pub onto : (before after : List Region) → List Region
onto [] after = after
onto (r ∷ before) after = onto before (r ∷ after)

abbrev pub merge_before : Region → Place → Index → Option (Region × Place × Index)
merge_before region ([], behind) ix = some (region, ([], behind), ix)
merge_before region (exist ∷ before, behind) ix =
    if not (exist.start + exist.size == region.start)
    then none
    else if vm_region_mergeable region exist
    then (do
      ix ← vm_region_destroy exist ix
      some (at_range (exist.start) (region.size + exist.size) region, (before, behind), ix))
    else some (region, (exist ∷ before, behind), ix)

abbrev pub merge_behind : Region → Place → Index → Option (Region × Place × Index)
merge_behind region (before, []) ix = some (region, (before, []), ix)
merge_behind region (before, exist ∷ behind) ix =
    if not (exist.start == region.start + region.size)
    then none
    else if vm_region_mergeable region exist
    then (do
      ix ← vm_region_destroy exist ix
      some (at_range (region.start) (region.size + exist.size) region, (before, behind), ix))
    else some (region, (before, exist ∷ behind), ix)

-- Where the inserted region is found.
abbrev pub enter_region : RegionState → Region → Index → Option Index
enter_region vm_region_allocated region ix = tree_insert (region.start) (region.id) ix
enter_region vm_region_free region ix = vm_freelist_insert region (region.size) ix
enter_region vm_region_reserved region ix = some ix

abbrev pub put_region : Region → Place → Index → Option AddressSpace
put_region region place ix = do
  (region, place, ix) ← merge_before region place ix
  (region, (before, behind), ix) ← merge_behind region place ix
  ix ← enter_region (region.state) region ix
  some (record { regions = onto before (region ∷ behind); index = ix })

unfoldable pub insert_region : Region → AddressSpace → Option AddressSpace
unfolding trim_regions vm_region_destroy vm_freelist_insert onto vm_region_mergeable
insert_region region space = do
  (place, ix) ← trim_regions (region.start) (region.size) space
  put_region region place ix

abbrev pub unused_region : (id start size : ℕ) → RegionState → Region
unused_region id start size state = record {
  id = id;
  start = start;
  size = size;
  access = 0;
  flags = 0;
  state = state;
  handle = none;
  obj_offset = 0;
  amap = none;
  amap_offset = 0;
}

-- A new structure.
abbrev pub slab_cache_alloc : AddressSpace → ℕ × AddressSpace
slab_cache_alloc space = (
  space.index.fresh,
  record space { index = record (space.index) { fresh = suc (space.index.fresh) } },
)

unfoldable pub free_region : (start size : ℕ) → RegionState → AddressSpace → Option AddressSpace
unfolding insert_region
free_region start size state space =
    let (id, space) = slab_cache_alloc space in
    insert_region (unused_region id start size state) space
