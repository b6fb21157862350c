-- ===== src/AddressSpace/Creation.antt =====
-- source/kernel/mm/vm.c: creating an address space.
use infinity_os.Base.{
  ℕ, ◌/◌, ◌%◌, Bool, false, Option, none, some, List, [], ◌∷◌, if◌then◌else◌, ◌==◌,
}
use infinity_os.AvlTree.{empty}
use infinity_os.AddressSpace.{
  ◌>>=◌, Region, vm_region_free, Index, AddressSpace, is_allocated, vm_freelist_insert,
}
use infinity_os.AddressSpace.Change.{unused_region, insert_region, slab_cache_alloc}
use infinity_os.AddressSpace.Mapping.{vm_reserve, vm_region_clone, is_success}

-- The constants of the 64-bit architecture.
abbrev pub user_base : ℕ
user_base = 0

abbrev pub user_size : ℕ
user_size = 140737488355328

abbrev pub libkernel_base : ℕ
libkernel_base = 140737219919872

abbrev pub libkernel_size : ℕ
libkernel_size = 268435456

abbrev pub no_index : Index
no_index = record {
  tree = empty;
  free = λ list. [];
  free_map = λ list. false;
  find_cache = none;
  fresh = 1;
  calls = [];
}

unfoldable pub initial_space : Option AddressSpace
unfolding vm_freelist_insert
initial_space =
    let region = unused_region 0 user_base user_size vm_region_free in
    do
      ix ← vm_freelist_insert region user_size no_index
      some (record { regions = region ∷ []; index = ix })

abbrev pub reserved : (start size : ℕ) → AddressSpace → Option AddressSpace
reserved start size space = do
  (status, space) ← vm_reserve start size space
  if is_success status then some space else none

-- VM_MAP_INHERIT is bit 3 of the flags.
abbrev pub is_inherited : Region → Bool
is_inherited region = region.flags / 8 % 2 == 1

abbrev pub inherit_region :
    (max_size : ℕ → ℕ) → (copied : ℕ) → Region → AddressSpace → Option AddressSpace
inherit_region max_size copied region space =
    let (id, space) = slab_cache_alloc space in
    if is_allocated (region.state)
    then (do clone ← vm_region_clone max_size id copied region; insert_region clone space)
    else none

-- `max_size` is how many pages each map has; `copied` are the maps of pages that the clones of private
-- regions get, by the parent's regions.
unfoldable pub inherit_regions :
    (max_size copied : ℕ → ℕ) → List Region → AddressSpace → Option AddressSpace
unfolding insert_region vm_region_clone
inherit_regions max_size copied [] space = some space
inherit_regions max_size copied (region ∷ rs) space =
    let rest = inherit_regions max_size copied rs in
    if is_inherited region
    then inherit_region max_size (copied (region.id)) region space >>= rest
    else rest space

-- Without a parent there are no regions to inherit.
unfoldable pub vm_aspace_create : (max_size copied : ℕ → ℕ) → List Region → Option AddressSpace
unfolding initial_space vm_reserve inherit_regions
vm_aspace_create max_size copied parent = do
  space ← initial_space
  space ← reserved 0 4096 space
  space ← reserved libkernel_base libkernel_size space
  inherit_regions max_size copied parent space
