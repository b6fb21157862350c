-- ===== src/AddressSpace/Mapping.antt =====
-- source/kernel/mm/vm.c: mapping, unmapping and reserving memory, and the clone of a region.
use infinity_os.Base.{
  ℕ, ◌+◌, ◌-◌, ◌/◌, ◌%◌, Bool, true, false, not, ◌&&◌, ◌||◌, Option, none, some, List, [], ◌∷◌,
  if◌then◌else◌, leb, ltb, ◌==◌,
}
use infinity_os.Status.{Status, success, invalid_arg, no_memory, not_supported}
use infinity_os.AddressSpace.{
  ◌>>=◌, Region, RegionState, vm_region_free, vm_region_allocated, vm_region_reserved, AddressSpace,
  is_allocated, VmCall, vm_amap_create, vm_amap_map, object_handle_retain,
}
use infinity_os.AddressSpace.Change.{
  onto, locate, insert_region, free_region, log_call, is_some, slab_cache_alloc,
}
use infinity_os.AddressSpace.Allocation.{alloc_region}

abbrev pub word : ℕ
word = 18446744073709551616

-- The last region of a list that starts with one.
unfoldable pub last_region : Region → List Region → Region
last_region r [] = r
last_region r (q ∷ rs) = last_region q rs

-- The end of the range wraps around.
unfoldable pub vm_aspace_fits : (start size : ℕ) → List Region → Option Bool
unfolding last_region
vm_aspace_fits start size [] = none
vm_aspace_fits start size (first ∷ rs) =
    let last = last_region first rs in
    let as_end = last.start + last.size - 1 in
    let region_end = (start + size + 18446744073709551615) % word in
    some (leb start region_end && (leb (first.start) start && leb region_end as_end))

abbrev pub is_unaligned : (start size : ℕ) → Bool
is_unaligned start size = (size == 0) || (not (start % 4096 == 0) || not (size % 4096 == 0))

-- The two operations that leave a range unused, by the state that they give it.
abbrev pub make_unused :
    (start size : ℕ) → RegionState → AddressSpace → Option (Status × AddressSpace)
make_unused start size state space =
    if is_unaligned start size then some (invalid_arg, space) else (do
      fits ← vm_aspace_fits start size (space.regions)
      if fits
          then (do space ← free_region start size state space; some (success, space))
          else some (no_memory, space))

unfoldable pub vm_unmap : (start size : ℕ) → AddressSpace → Option (Status × AddressSpace)
unfolding vm_aspace_fits free_region
vm_unmap start size space = make_unused start size vm_region_free space

unfoldable pub vm_reserve : (start size : ℕ) → AddressSpace → Option (Status × AddressSpace)
unfolding vm_aspace_fits free_region
vm_reserve start size space = make_unused start size vm_region_reserved space

-- A handle, and what the map function of its object's type returns for a region, if it has one.
pub record ObjectHandle : Type 0 where
  pub id : ℕ
  pub type_map : Option (Region → Status)

abbrev pub page_size : ℕ
page_size = 4096

abbrev pub check_handle : Option ObjectHandle → (offset size : ℕ) → Option Status
check_handle none offset size = none
check_handle (some h) offset size =
    if not (offset % page_size == 0) || ltb ((offset + size) % word) offset
    then some invalid_arg
    else if is_some (h.type_map)
    then none
    else some not_supported

-- VM_ADDRESS_ANY is 1, and VM_ADDRESS_EXACT is 2.
abbrev pub is_bad_place : (spec addr size : ℕ) → Bool
is_bad_place spec addr size =
    if spec == 1
    then false
    else if spec == 2
    then not (addr % page_size == 0) || ltb ((addr + size) % word) addr
    else true

-- What the arguments are refused with.
unfoldable pub check_args :
    (addr size spec access : ℕ) → Option ObjectHandle → (offset : ℕ) → Option Status
check_args addr size spec access handle offset =
    if (size == 0) || not (size % page_size == 0)
    then some invalid_arg
    else if access == 0
    then some invalid_arg
    else if is_bad_place spec addr size
    then some invalid_arg
    else check_handle handle offset size

-- VM_MAP_PRIVATE is bit 0 of the flags, and VM_MAP_STACK is bit 1, which a single page does not keep.
abbrev pub is_private : ℕ → Bool
is_private flags = flags % 2 == 1

abbrev pub stack_flags : (flags size : ℕ) → ℕ
stack_flags flags size = if (flags / 2 % 2 == 1) && (size == page_size) then flags - 2 else flags

-- A region in the memory that the allocator returns; the fields that are not set are what it held.
abbrev pub exact_region : Region → (id start size access flags : ℕ) → Region
exact_region left id start size access flags = record left {
  id = id;
  start = start;
  size = size;
  access = access;
  flags = flags;
  state = vm_region_allocated;
}

abbrev pub place_exact :
    Region → (addr size access flags : ℕ) → AddressSpace → Option (Option ℕ × AddressSpace)
place_exact left addr size access flags space = do
  fits ← vm_aspace_fits addr size (space.regions)
  let (id, taken) = slab_cache_alloc space
  if fits
      then (do
        placed_at ← insert_region (exact_region left id addr size access flags) taken
        some (some id, placed_at))
      else some (none, space)

-- A change of the region that a pointer points to.
unfoldable pub change_region : ℕ → (Region → Region) → AddressSpace → Option (Region × AddressSpace)
unfolding locate onto
change_region id f space = do
  (before, region, behind) ← locate id [] (space.regions)
  some (f region, record space { regions = onto before (f region ∷ behind) })

abbrev pub calling : VmCall → AddressSpace → AddressSpace
calling c space = record space { index = log_call c (space.index) }

abbrev pub with_object : Option ℕ → ℕ → Region → Region
with_object handle offset region = record region { handle = handle; obj_offset = offset }

abbrev pub with_pages : Option ℕ → Region → Region
with_pages amap region = record region { amap = amap; amap_offset = 0 }

-- The status, the address of the mapping where there is one, and the address space.
abbrev pub Mapped : Type 0
Mapped = Status × Option ℕ × AddressSpace

-- The map that a private or anonymous mapping needs is a new one.
abbrev pub map_pages : (needs : Bool) → (id size amap : ℕ) → AddressSpace → Option Mapped
map_pages false id size amap space = do
  (region, space) ← change_region id (with_pages none) space
  some (success, some (region.start), space)
map_pages true id size amap space = do
  (region, space) ←
      change_region id (with_pages (some amap))
        (calling (vm_amap_map amap 0 size) (calling (vm_amap_create size) space))
  some (success, some (region.start), space)

abbrev pub is_success : Status → Bool
is_success success = true
is_success other = false

abbrev pub returned : Option (Region → Status) → Region → Status
returned none region = success
returned (some f) region = f region

-- The region is freed again if the object cannot be mapped.
unfoldable pub map_object :
    Option ObjectHandle → (id size flags offset amap : ℕ) → AddressSpace → Option Mapped
unfolding change_region free_region
map_object none id size flags offset amap space = do
  (region, space) ← change_region id (with_object none 0) space
  map_pages true id size amap space
map_object (some h) id size flags offset amap space = do
  (region, space) ← change_region id (with_object (some (h.id)) offset) space
  let ret = returned (h.type_map) region
  let space = calling (object_handle_retain (h.id)) space
  if is_success ret then map_pages (is_private flags) id size amap space else (do
    space ← free_region (region.start) (region.size) vm_region_free space
    some (ret, none, space))

abbrev pub map_placed :
    Option ObjectHandle → (size flags offset amap : ℕ) → Option ℕ × AddressSpace → Option Mapped
map_placed handle size flags offset amap (none, space) = some (no_memory, none, space)
map_placed handle size flags offset amap (some id, space) =
    map_object handle id size flags offset amap space

abbrev pub find_place :
    Region → (addr size spec access flags : ℕ) → AddressSpace → Option (Option ℕ × AddressSpace)
find_place left addr size spec access flags space =
    if spec == 1
    then alloc_region size access flags space
    else place_exact left addr size access flags space

-- `left` is what the memory of a new region holds, and `amap` is a new map of pages.
unfoldable pub vm_map :
    Region
    → (amap addr size spec access flags : ℕ) → Option ObjectHandle
    → (offset : ℕ) → AddressSpace
    → Option Mapped
unfolding check_args alloc_region vm_aspace_fits insert_region map_object
vm_map left amap addr size spec access flags handle offset space =
    elim (check_args addr size spec access handle offset) [
      | some status ↦ some (status, none, space)
      | none ↦ do
        placed_at ← find_place left addr size spec access (stack_flags flags size) space
        map_placed handle size (stack_flags flags size) offset amap placed_at
    ]

-- The assertion that a map has room for a range: `max_size` is how many pages each map has.
abbrev pub has_room : (max_size : ℕ → ℕ) → (amap offset size : ℕ) → Bool
has_room max_size amap offset size = leb (offset / page_size + size / page_size) (max_size amap)

-- The clone of a mapping with the map of pages that it has; `copied` is the map that a private one
-- gets. The calls that count references and copy pages leave nothing but their assertions.
abbrev pub clone_mapping : (max_size : ℕ → ℕ) → (id copied : ℕ) → Region → Option ℕ → Option Region
clone_mapping max_size id copied src none =
    if is_private (src.flags) then none else some (record src { id = id })
clone_mapping max_size id copied src (some amap) =
    if not (has_room max_size amap (src.amap_offset) (src.size))
    then none
    else if is_private (src.flags)
    then if src.size == 0
      then none
      else some (record src { id = id; amap = some copied; amap_offset = 0 })
    else some (record src { id = id })

-- The clone of a region for another address space; `none` is an assertion that fails.
unfoldable pub vm_region_clone : (max_size : ℕ → ℕ) → (id copied : ℕ) → Region → Option Region
vm_region_clone max_size id copied src =
    if not (is_allocated (src.state))
    then some (record src { id = id; handle = none; obj_offset = 0; amap = none; amap_offset = 0 })
    else clone_mapping max_size id copied src (src.amap)
