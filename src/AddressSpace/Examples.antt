-- ===== src/AddressSpace/Examples.antt =====
-- Runs of the operations on address spaces, and the theorems at concrete states.
use infinity_os.Base.{
  ℕ, ◌≡◌, ◌⊎◌, refl, true, false, Option, none, some, [], ◌∷◌, leb, ◌&&◌, ◌+◌, arith, ap, sym,
  subst,
}
use infinity_os.Status.{success, no_memory}
use infinity_os.AvlTree.{avl_tree_insert}
use infinity_os.AddressSpace.{
  Region, vm_region_free, vm_region_allocated, vm_region_reserved, AddressSpace, vm_region_find,
}
use infinity_os.AddressSpace.Mapping.{ObjectHandle, vm_map, vm_unmap, vm_reserve, Mapped}
use infinity_os.AddressSpace.Creation.{vm_aspace_create, user_size}
use infinity_os.AddressSpace.Views.{view, mapped, unused}
use infinity_os.AddressSpace.Counts.{tally}
use infinity_os.AddressSpace.Owner.{owner}
use infinity_os.AddressSpace.Insert.{IsValid}
use infinity_os.AddressSpace.Fitting.{is_fit}
use infinity_os.AddressSpace.Lookup.{Finds, vm_region_find-Finds}
use infinity_os.AddressSpace.Unmap.{Clears, vm_unmap-Clears, vm_reserve-Clears}
use infinity_os.AddressSpace.Map.{Maps}
use infinity_os.AddressSpace.Mappings.{WasFree, vm_map-any, vm_map-exact}
use infinity_os.AddressSpace.Created.{Leaves, vm_aspace_create-Leaves}

abbrev nowhere : AddressSpace
nowhere = record { regions = []; index = infinity_os.AddressSpace.Creation.no_index }

abbrev resulting : Option AddressSpace → AddressSpace
resulting none = nowhere
resulting (some space) = space

abbrev no_maps : ℕ → ℕ
no_maps region = 0

-- How many pages each map has.
abbrev four_pages : ℕ → ℕ
four_pages amap = 4

abbrev new_space : AddressSpace
new_space = resulting (vm_aspace_create four_pages no_maps [])

-- The last three pages of a parent, mapped privately from the second page of a map on.
abbrev inherited_mapping : Region
inherited_mapping = record {
  id = 3;
  start = 140737488343040;
  size = 12288;
  access = 1;
  flags = 9;
  state = vm_region_allocated;
  handle = some 5;
  obj_offset = 4096;
  amap = some 7;
  amap_offset = 4096;
}

vm_aspace_create-Leaves_example :
    Leaves 0 140737488355328 (vm_aspace_create four_pages no_maps (inherited_mapping ∷ []))
unfolding tally
vm_aspace_create-Leaves_example =
    vm_aspace_create-Leaves four_pages no_maps (inherited_mapping ∷ []) 140737488343040 refl
      (refl, omega arith, refl, refl) refl ((λ al. (λ p. refl, λ m e. omega arith)), tt)

new_space-IsValid : IsValid 0 140737488355328 new_space
unfolding tally
new_space-IsValid =
    let (space, ran, valid) =
      vm_aspace_create-Leaves four_pages no_maps [] 140737488355328 refl refl refl tt in
    subst (IsValid 0 140737488355328) (sym (ap resulting ran)) valid

-- The first page of the user's addresses and the area of the kernel's library are reserved.
new_first_page : view (new_space.regions) 4095 ≡ unused vm_region_reserved
unfolding vm_aspace_create view
new_first_page = refl

new_second_page : view (new_space.regions) 4096 ≡ unused vm_region_free
unfolding vm_aspace_create view
new_second_page = refl

vm_unmap-Clears_example :
    Clears 0 140737488355328 0 8192 vm_region_free new_space (vm_unmap 0 8192 new_space)
vm_unmap-Clears_example =
    vm_unmap-Clears 0 140737488355328 0 8192 new_space refl (omega arith) (omega arith)
      (omega arith) (omega arith) new_space-IsValid

vm_reserve-Clears_example :
    Clears 0 140737488355328 8192 4096 vm_region_reserved new_space (vm_reserve 8192 4096 new_space)
vm_reserve-Clears_example =
    vm_reserve-Clears 0 140737488355328 8192 4096 new_space refl (omega arith) (omega arith)
      (omega arith) (omega arith) new_space-IsValid

-- A file that is mapped privately, whose type maps every region.
abbrev file : Option ObjectHandle
file = some (record { id = 5; type_map = some (λ region. success) })

abbrev any_region : Region
any_region = infinity_os.AddressSpace.Change.unused_region 9 0 0 vm_region_free

abbrev space_of : Option Mapped → AddressSpace
space_of none = nowhere
space_of (some (status, start, space)) = space

-- A stack of four pages from the second one on, from the second page of the file.
abbrev run_exact : Option Mapped
run_exact = vm_map any_region 7 4096 16384 2 1 3 file 4096 new_space

vm_map-exact_example :
    ((run_exact ≡ some (no_memory, none, new_space))
      × ((leb 0 4096 && leb (4096 + 16384) 140737488355328) ≡ false))
    ⊎ (((leb 0 4096 && leb (4096 + 16384) 140737488355328) ≡ true)
        × Maps 0 140737488355328 16384 1 3 file 4096 7 4096 new_space run_exact)
unfolding vm_map
vm_map-exact_example =
    vm_map-exact any_region 0 140737488355328 7 16384 1 3 file 4096 new_space refl new_space-IsValid
      (λ r. refl) 4096 (omega arith) (omega arith) (omega arith) (omega arith) refl

abbrev run_any : Option Mapped
run_any = vm_map any_region 7 0 16384 1 1 1 file 4096 new_space

vm_map-any_example :
    ((run_any ≡ some (no_memory, none, new_space)) × (tally (is_fit 16384) (new_space.regions) ≡ 0))
    ⊎ ((start : ℕ) × WasFree start 16384 new_space
        × Maps 0 140737488355328 16384 1 1 file 4096 7 start new_space run_any)
unfolding vm_map
vm_map-any_example =
    vm_map-any any_region 0 140737488355328 7 16384 1 1 file 4096 new_space refl new_space-IsValid
      (λ r. refl) 0 refl

-- An unmapping of the first page of the mapping leaves the offset of the others in the file.
mapped_third_page :
    view ((space_of run_exact).regions) 8192 ≡ mapped 1 3 (some 5) 8192 (some (7, 4096))
unfolding vm_map vm_aspace_create view avl_tree_insert
mapped_third_page = refl

vm_region_find-Finds_example :
    Finds
      (new_space.regions)
      false
      (infinity_os.AddressSpace.Change.unused_region 1 0 4096 vm_region_reserved)
      (vm_region_find new_space 100 false)
unfolding vm_aspace_create owner
vm_region_find-Finds_example =
    vm_region_find-Finds none (new_space.regions) (new_space.index) 0 140737488355328 100
      (infinity_os.AddressSpace.Change.unused_region 1 0 4096 vm_region_reserved)
      (new_space-IsValid.0) (new_space-IsValid.1) refl false
