-- ===== src/AddressSpace.antt =====
-- source/kernel/mm/vm.c: the regions of an address space, the structures that find them, and the
-- operations on both.
--
-- A region is named by a number, its address in memory; the tree, the free lists and the cached
-- pointer hold names, and the regions stand in the order of the list of the address space. A bit
-- map is the function of its bits. Pages, maps of pages and handles are what the operations call,
-- kept in the order of time, the latest first. An operation is one step under the lock of the
-- address space, while no page of it is locked into memory. `none` is a failed assertion, or an
-- access to a region that is not there.
pub mod Change
pub mod Counts
pub mod Keys
pub mod Lists
pub mod Indexes
pub mod Steps
pub mod Resize
pub mod Views
pub mod Rounds
pub mod Trim
pub mod Owner
pub mod Pointers
pub mod Find
pub mod Lookup
pub mod Place
pub mod Merge
pub mod Insert
pub mod Allocation
pub mod Mapping
pub mod Unmap
pub mod Sizes
pub mod Fitting
pub mod Allocate
pub mod Take
pub mod Attach
pub mod Map
pub mod Mappings
pub mod Creation
pub mod Created
mod Examples
use infinity_os.Base.{
  ℕ, zero, suc, ◌+◌, ◌-◌, ◌/◌, Bool, true, false, not, ◌&&◌, Option, none, some, List, [], ◌∷◌,
  ◌++◌, if◌then◌else◌, leb, ltb, ◌==◌,
}
use infinity_os.Object.{put_at}
use infinity_os.AvlTree.{Tree, empty, node, avl_tree_insert, avl_tree_remove}

-- What an assertion that fails leaves undone.
infixl 5 ◌>>=◌
abbrev pub ◌>>=◌ {ℓ κ} : {A : Type ℓ} {B : Type κ} → Option A → (A → Option B) → Option B
none >>= f = none
some a >>= f = f a

pub data RegionState : Type 0 where
  vm_region_free vm_region_allocated vm_region_reserved : RegionState

abbrev pub is_free : RegionState → Bool
is_free vm_region_free = true
is_free vm_region_allocated = false
is_free vm_region_reserved = false

abbrev pub is_allocated : RegionState → Bool
is_allocated vm_region_free = false
is_allocated vm_region_allocated = true
is_allocated vm_region_reserved = false

abbrev pub is_reserved : RegionState → Bool
is_reserved vm_region_free = false
is_reserved vm_region_allocated = false
is_reserved vm_region_reserved = true

pub record Region : Type 0 where
  pub id : ℕ
  pub start : ℕ
  pub size : ℕ
  pub access : ℕ
  pub flags : ℕ
  pub state : RegionState
  pub handle : Option ℕ
  pub obj_offset : ℕ
  pub amap : Option ℕ
  pub amap_offset : ℕ

pub data VmCall : Type 0 where
  unmap_pages : (start size : ℕ) → VmCall
  vm_amap_create : (size : ℕ) → VmCall
  vm_amap_map vm_amap_unmap : (amap offset size : ℕ) → VmCall
  vm_amap_retain vm_amap_release : (amap : ℕ) → VmCall
  object_handle_retain object_handle_release : (handle : ℕ) → VmCall

-- What is kept beside the regions; `fresh` is the next region that the allocator returns.
pub record Index : Type 0 where
  pub tree : Tree
  pub free : ℕ → List ℕ
  pub free_map : ℕ → Bool
  pub find_cache : Option ℕ
  pub fresh : ℕ
  pub calls : List VmCall

pub record AddressSpace : Type 0 where
  pub regions : List Region
  pub index : Index

abbrev pub vm_freelists : ℕ
vm_freelists = 52

-- The number of the highest bit, counted from 1, of a number of at most so many bits.
unfoldable pub highbit_within : ℕ → ℕ → ℕ
highbit_within zero v = 0
highbit_within (suc bits) v =
    let rest = highbit_within bits (v / 2) in if v == 0 then 0 else suc rest

abbrev pub highbit : ℕ → ℕ
highbit v = highbit_within 64 v

-- The free list for a size.
unfoldable pub list_for : ℕ → ℕ
list_for size = highbit size - 12 - 1

unfoldable pub unlink : ℕ → List ℕ → List ℕ
unlink id [] = []
unlink id (x ∷ xs) = let rest = unlink id xs in if x == id then rest else x ∷ rest

abbrev pub list_empty {ℓ} : {A : Type ℓ} → List A → Bool
list_empty [] = true
list_empty (x ∷ xs) = false

-- A region that is added to a list leaves the one that it was in.
unfoldable pub list_append : ℕ → ℕ → (ℕ → List ℕ) → ℕ → List ℕ
unfolding unlink
list_append list id free i = if list == i then unlink id (free i) ++ id ∷ [] else unlink id (free i)

unfoldable pub list_remove : ℕ → (ℕ → List ℕ) → ℕ → List ℕ
unfolding unlink
list_remove id free i = unlink id (free i)

unfoldable pub vm_freelist_insert : Region → ℕ → Index → Option Index
unfolding list_append list_for put_at
vm_freelist_insert region size ix =
    let list = list_for size in
    if is_free (region.state)
    then some (record ix {
      free = list_append list (region.id) (ix.free);
      free_map = put_at (ix.free_map) list true;
    })
    else none

unfoldable pub vm_freelist_remove : Region → Index → Option Index
unfolding list_remove list_for put_at
vm_freelist_remove region ix =
    let list = list_for (region.size) in
    let left = list_remove (region.id) (ix.free) in
    if region.flags == 0
    then some (record ix {
      free = left;
      free_map = if list_empty (left list) then put_at (ix.free_map) list false else ix.free_map;
    })
    else none

unfoldable pub vm_freelist_empty : Index → ℕ → Option Bool
vm_freelist_empty ix list =
    if ix.free_map list
    then (if list_empty (ix.free list) then none else some false)
    else if list_empty (ix.free list)
    then some true
    else none

unfoldable pub vm_region_contains : Region → ℕ → Bool
vm_region_contains region addr =
    leb (region.start) addr && leb addr (region.start + region.size - 1)

abbrev pub same_state : RegionState → RegionState → Bool
same_state vm_region_free s = is_free s
same_state vm_region_allocated s = is_allocated s
same_state vm_region_reserved s = is_reserved s

unfoldable pub vm_region_mergeable : Region → Region → Bool
vm_region_mergeable a b = not (is_allocated (a.state)) && same_state (a.state) (b.state)

-- The region that a pointer points to.
unfoldable pub region_of : ℕ → List Region → Option Region
region_of id [] = none
region_of id (r ∷ rs) = let rest = region_of id rs in if r.id == id then some r else rest

-- The regions behind the one that a pointer points to.
unfoldable pub regions_behind : ℕ → List Region → List Region
regions_behind id [] = []
regions_behind id (r ∷ rs) = let rest = regions_behind id rs in if r.id == id then rs else rest

pub data Search : Type 0 where
  hit : ℕ → Search
  near : Option ℕ → Search

unfoldable pub search_tree : Tree → List Region → ℕ → Option ℕ → Option Search
unfolding region_of vm_region_contains
search_tree empty rs addr last = some (near last)
search_tree (node l key id height r) rs addr last =
    let right = search_tree r rs addr (some id) in
    let left = search_tree l rs addr last in
    do
      region ← region_of id rs
      if is_allocated (region.state)
          then (if leb (region.start) addr
              then (if vm_region_contains region addr then some (hit id) else right)
              else left)
          else none

unfoldable pub search_list : List Region → ℕ → Option (Option ℕ)
unfolding vm_region_contains
search_list [] addr = some none
search_list (r ∷ rs) addr =
    let rest = search_list rs addr in
    if vm_region_contains r addr
    then (if is_allocated (r.state) then none else some (some (r.id)))
    else rest

-- Where the search of the list starts.
abbrev pub from_near : Option ℕ → List Region → List Region
from_near none rs = rs
from_near (some id) rs = regions_behind id rs

-- The region that was found, and the cached pointer.
abbrev pub after_tree : Bool → AddressSpace → ℕ → Search → Option (Option ℕ × Option ℕ)
after_tree unused space addr (hit id) = some (some id, some id)
after_tree unused space addr (near last) =
    if unused
    then (do
      found ← search_list (from_near last (space.regions)) addr
      some (found, space.index.find_cache))
    else some (none, space.index.find_cache)

abbrev pub is_cached : AddressSpace → ℕ → Option ℕ → Option Bool
is_cached space addr none = some false
is_cached space addr (some id) = do
  region ← region_of id (space.regions)
  some (vm_region_contains region addr)

unfoldable pub vm_region_find : AddressSpace → ℕ → Bool → Option (Option ℕ × Option ℕ)
unfolding search_tree search_list region_of regions_behind vm_region_contains
vm_region_find space addr unused = do
  cached ← is_cached space addr (space.index.find_cache)
  if cached then some (space.index.find_cache, space.index.find_cache) else (do
    s ← search_tree (space.index.tree) (space.regions) addr none
    after_tree unused space addr s)
