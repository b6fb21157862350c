-- ===== src/AddressSpace/Map.antt =====
-- Mapping memory.
use infinity_os.Base.{
  ℕ, ◌+◌, ◌-◌, ◌≡◌, refl, Bool, true, false, not, ◌&&◌, Option, none, some, if◌then◌else◌, arith,
  ap, ◌∙◌,
}
use mathlib.Core.Bool.{true≢false}
use infinity_os.Status.{success}
use infinity_os.AddressSpace.{
  ◌>>=◌, Region, RegionState, vm_region_free, vm_region_allocated, Index, AddressSpace,
  is_allocated, region_of,
}
use infinity_os.AddressSpace.Change.{onto, at_range, is_some, insert_region, slab_cache_alloc}
use infinity_os.AddressSpace.Counts.{mark}
use infinity_os.AddressSpace.Indexes.{running}
use infinity_os.AddressSpace.Views.{Content, mapped, content, view}
use infinity_os.AddressSpace.Mapping.{
  ObjectHandle, is_private, with_object, with_pages, calling, Mapped, map_pages, is_success,
  returned, map_object,
}
use infinity_os.AddressSpace.Insert.{IsValid, in_range}
use infinity_os.AddressSpace.Attach.{Placed, change_region-Placed}

-- The object and the map of pages that a mapping has.
abbrev pub handle_id : Option ObjectHandle → Option ℕ
handle_id none = none
handle_id (some h) = some (h.id)

abbrev pub object_offset : Option ObjectHandle → ℕ → ℕ
object_offset none offset = 0
object_offset (some h) offset = offset

abbrev pub needs_map : Option ObjectHandle → ℕ → Bool
needs_map none flags = true
needs_map (some h) flags = is_private flags

abbrev pub mapping_at : Option ObjectHandle → (access flags offset amap start addr : ℕ) → Content
mapping_at handle access flags offset amap start addr =
    mapped access flags (handle_id handle) (object_offset handle offset + (addr - start))
      (if needs_map handle flags then some (amap, addr - start) else none)

-- The object's type maps every region.
abbrev pub Accepts : Option ObjectHandle → Type 0
Accepts none = Unit {0}
Accepts (some h) = (r : Region) → returned (h.type_map) r ≡ success

-- The mapping stands at its range, and nothing else has changed.
abbrev pub Maps :
    (s e size access flags : ℕ)
    → Option ObjectHandle
    → (offset amap start : ℕ) → AddressSpace
    → Option Mapped
    → Type 0
Maps s e size access flags handle offset amap start space o =
    (space' : AddressSpace) × (o ≡ some (success, some start, space'))
    × IsValid s e space'
    × ((addr : ℕ)
        → view (space'.regions) addr ≡ (
            if in_range start size addr
            then mapping_at handle access flags offset amap start addr
            else view (space.regions) addr))

has_map : (b : Bool) → mark (not b && false) ≡ 0
has_map true = refl
has_map false = refl

module _ (amap : ℕ) where
  content_mapped :
      (needs : Bool) (r : Region) (handle : Option ℕ) (offset addr : ℕ)
      → is_allocated (r.state) ≡ true
      → content (with_pages (if needs then some amap else none) (with_object handle offset r)) addr
        ≡ mapped
            (r.access)
            (r.flags)
            handle
            (offset + (addr - r.start))
            (if needs then some (amap, addr - r.start) else none)
  content_mapped true r handle offset addr al = rw al (
      ap (λ o. mapped (r.access) (r.flags) handle o (some (amap, 0 + (addr - r.start))))
        (omega arith)
      ∙ ap (λ o. mapped (r.access) (r.flags) handle (offset + (addr - r.start)) (some (amap, o)))
          (omega arith))
  content_mapped false r handle offset addr al =
      rw al (ap (λ o. mapped (r.access) (r.flags) handle o none) (omega arith))

module _ (s e : ℕ) (old : AddressSpace) (amap : ℕ) where
  map_pages-Maps :
      (needs : Bool) (space : AddressSpace) (r : Region)
      → Placed s e old r space
      → (needs ≡ false → is_some (r.handle) ≡ true)
      → (space' : AddressSpace) × (map_pages needs (r.id) (r.size) amap space
          ≡ some (success, some (r.start), space'))
        × IsValid s e space'
        × ((addr : ℕ)
            → view (space'.regions) addr ≡ (
                if in_range (r.start) (r.size) addr
                then content (with_pages (if needs then some amap else none) r) addr
                else view (old.regions) addr))
  map_pages-Maps true space r placed_at h =
      let called =
        calling (infinity_os.AddressSpace.VmCall.vm_amap_map amap 0 (r.size))
          (calling (infinity_os.AddressSpace.VmCall.vm_amap_create (r.size)) space) in
      let (space', ran, kept, (found, al, t, good, odd, eq)) =
        change_region-Placed s e old called r (with_pages (some amap)) placed_at
          (refl, refl, refl, refl) in
      (
        space',
        running (λ q. some (success, some (q.0.start), q.1)) ran,
        (t, good, odd ∙ rw (placed_at.1) (has_map (is_some (r.handle)))),
        eq,
      )
  map_pages-Maps false space r placed_at h =
      let (space', ran, kept, (found, al, t, good, odd, eq)) =
        change_region-Placed s e old space r (with_pages none) placed_at (refl, refl, refl, refl) in
      (
        space',
        running (λ q. some (success, some (q.0.start), q.1)) ran,
        (t, good, odd ∙ rw (placed_at.1) (rw (h refl) refl)),
        eq,
      )

  pub map_object-Maps :
      (handle : Option ObjectHandle) (offset : ℕ) (space : AddressSpace) (r : Region)
      → Placed s e old r space
      → Accepts handle
      → Maps s e
          (r.size)
          (r.access)
          (r.flags)
          handle
          offset
          amap
          (r.start)
          old
          (map_object handle (r.id) (r.size) (r.flags) offset amap space)
  unfolding map_object
  map_object-Maps none offset space r placed_at accepts =
      let (space1, ran, kept, placed1) =
        change_region-Placed s e old space r (with_object none 0) placed_at
          (refl, refl, refl, refl) in
      let (space2, ran2, valid, eq) =
        map_pages-Maps true space1 (with_object none 0 r) placed1 (λ h. absurd (true≢false h)) in
      (
        space2,
        running (λ q. map_pages true (r.id) (r.size) amap (q.1)) ran ∙ ran2,
        valid,
        λ addr.
            eq addr
            ∙ ap (λ c. if in_range (r.start) (r.size) addr then c else view (old.regions) addr)
                (content_mapped amap true r none 0 addr (placed_at.1)),
      )
  map_object-Maps (some h) offset space r placed_at accepts =
      let f = with_object (some (h.id)) offset in
      let (space1, ran, kept, placed1) =
        change_region-Placed s e old space r f placed_at (refl, refl, refl, refl) in
      let called = calling (infinity_os.AddressSpace.VmCall.object_handle_retain (h.id)) space1 in
      let needs = is_private (r.flags) in
      let (space2, ran2, valid, eq) = map_pages-Maps needs called (f r) placed1 (λ h. refl) in
      let accepted : is_success (returned (h.type_map) (f r)) ≡ true =
        ap is_success (accepts (f r)) in
      let refused =
        infinity_os.AddressSpace.Change.free_region (r.start) (r.size) vm_region_free called
        >>= λ w. some (returned (h.type_map) (f r), none, w) in
      (
        space2,
        running
              (λ q.
                if is_success (returned (h.type_map) (q.0))
                then map_pages needs (r.id) (r.size) amap
                    (calling (infinity_os.AddressSpace.VmCall.object_handle_retain (h.id)) (q.1))
                else (infinity_os.AddressSpace.Change.free_region (q.0.start) (q.0.size)
                      vm_region_free
                      (calling (infinity_os.AddressSpace.VmCall.object_handle_retain (h.id)) (q.1))
                    >>= λ w. some (returned (h.type_map) (q.0), none, w)))
              ran
            ∙ ap (λ b. if b then map_pages needs (r.id) (r.size) amap called else refused) accepted
            ∙ ran2,
        valid,
        λ addr.
            eq addr
            ∙ ap (λ c. if in_range (r.start) (r.size) addr then c else view (old.regions) addr)
                (content_mapped amap needs r (some (h.id)) offset addr (placed_at.1)),
      )
