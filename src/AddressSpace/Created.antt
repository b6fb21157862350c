-- ===== src/AddressSpace/Created.antt =====
-- What a new address space has.
use infinity_os.Base.{
  ℕ, ◌+◌, ◌/◌, ◌%◌, ◌≤◌, ◌<◌, ◌≡◌, refl, Bool, true, false, not, ◌&&◌, Option, none, some, List, [],
  ◌∷◌, if◌then◌else◌, ◌==◌, arith, ap, ◌∙◌, sym, Bool-cases, inl, inr, subst, leb,
}
use mathlib.Core.Bool.{false≢true, true≢false}
use infinity_os.Status.{Status, success}
use infinity_os.AvlTree.Entries.{entries}
use infinity_os.AddressSpace.{◌>>=◌, Region, vm_region_free, AddressSpace, is_allocated}
use infinity_os.AddressSpace.Change.{onto, unused_region, slab_cache_alloc, is_some, insert_region}
use infinity_os.AddressSpace.Keys.{keyed}
use infinity_os.AddressSpace.Counts.{count, tally, is_odd, odd_none}
use infinity_os.AddressSpace.Indexes.{running}
use infinity_os.AddressSpace.Steps.{enter_region-Succeeds}
use infinity_os.AddressSpace.Views.{Tiles, Tiles-le}
use infinity_os.AddressSpace.Mapping.{word, clone_mapping, vm_region_clone, is_private, is_success}
use infinity_os.AddressSpace.Creation.{
  user_base, user_size, libkernel_base, libkernel_size, no_index, initial_space, reserved,
  is_inherited, inherit_region, inherit_regions, vm_aspace_create,
}
use infinity_os.AddressSpace.Place.{Holds, Within}
use infinity_os.AddressSpace.Insert.{IsValid, insert_region-Becomes}
use infinity_os.AddressSpace.Unmap.{vm_reserve-Clears, range_status}

with_map : (b : Bool) → (not b && false) ≡ false
with_map true = refl
with_map false = refl

no_flags : (flags : ℕ) → (flags / 8 % 2 == 1) ≡ true → not (flags == 0) ≡ true
no_flags flags h = ground arith

-- Only an allocated region has flags.
inherited-allocated :
    (r : Region) → is_inherited r ≡ true → is_odd r ≡ false → is_allocated (r.state) ≡ true
inherited-allocated r i sound = elim (Bool-cases (is_allocated (r.state))) [
  | inl al ↦ al
  | inr un ↦
      let flagged = rw un at sound in absurd (true≢false (sym (no_flags (r.flags) i) ∙ flagged))
]

-- An allocated region that is private has a map of pages, and a map has room for its region.
abbrev pub HasPages : (max_size : ℕ → ℕ) → Region → Type 0
HasPages max_size r =
    is_allocated (r.state) ≡ true
    → (is_private (r.flags) ≡ true → is_some (r.amap) ≡ true)
      × ((amap : ℕ) → r.amap ≡ some amap → r.amap_offset / 4096 + r.size / 4096 ≤ max_size amap)

abbrev pub AllPages : (max_size : ℕ → ℕ) → List Region → Type 0
AllPages max_size [] = Unit {0}
AllPages max_size (r ∷ rs) = HasPages max_size r × AllPages max_size rs

leb_of_le : (a b : ℕ) → a ≤ b → leb a b ≡ true
leb_of_le a b h = ground arith

positive : (a : ℕ) → 0 < a → (a == 0) ≡ false
positive a h = ground arith

not_private :
    (b : Bool) {amap : Option ℕ} → amap ≡ none → (b ≡ true → is_some amap ≡ true) → b ≡ false
not_private true e h = absurd (false≢true (ap is_some (sym e) ∙ h refl))
not_private false e h = refl

-- A clone that no assertion refuses, and that stands where its original does.
abbrev Cloned : ℕ → Region → Option Region → Type 0
Cloned id src o =
    (clone : Region) × (o ≡ some clone)
    × (clone.start ≡ src.start)
    × (clone.size ≡ src.size)
    × (clone.id ≡ id)
    × (is_odd clone ≡ false)

clone_mapping-Cloned :
    (max_size : ℕ → ℕ) (id copied : ℕ) (src : Region) (amap : Option ℕ)
    → src.amap ≡ amap
    → is_allocated (src.state) ≡ true
    → 0 < src.size
    → is_odd src ≡ false
    → HasPages max_size src
    → Cloned id src (clone_mapping max_size id copied src amap)
clone_mapping-Cloned max_size id copied src none empty al p sound pages =
    let shared : is_private (src.flags) ≡ false =
      not_private (is_private (src.flags)) empty ((pages al).0) in
    (record src { id = id }, rw shared refl, refl, refl, refl, sound)
clone_mapping-Cloned max_size id copied src (some m) has al p sound pages =
    let room = leb_of_le _ (max_size m) ((pages al).1 m has) in
    elim (Bool-cases (is_private (src.flags))) [
      | inl private ↦ (
        record src { id = id; amap = some copied; amap_offset = 0 },
        rw (room, private, positive (src.size) p) refl,
        refl,
        refl,
        refl,
        rw al (with_map (is_some (src.handle))),
      )
      | inr shared ↦ (record src { id = id }, rw (room, shared) refl, refl, refl, refl, sound)
    ]

vm_region_clone-Cloned :
    (max_size : ℕ → ℕ) (id copied : ℕ) (src : Region)
    → is_allocated (src.state) ≡ true
    → 0 < src.size
    → is_odd src ≡ false
    → HasPages max_size src
    → Cloned id src (vm_region_clone max_size id copied src)
unfolding vm_region_clone
vm_region_clone-Cloned max_size id copied src al p sound pages =
    rw al (clone_mapping-Cloned max_size id copied src (src.amap) refl al p sound pages)

-- A state that an operation leaves valid.
abbrev pub Leaves : (s e : ℕ) → Option AddressSpace → Type 0
Leaves s e o = (space : AddressSpace) × (o ≡ some space) × IsValid s e space

module _ (s e : ℕ) (al : s % 4096 ≡ 0) (max_size : ℕ → ℕ) where
  inherit_region-Leaves :
      (copied : ℕ) (r : Region) (space : AddressSpace)
      → IsValid s e space
      → is_allocated (r.state) ≡ true
      → is_odd r ≡ false
      → Within s e (r.start) (r.size)
      → HasPages max_size r
      → Leaves s e (inherit_region max_size copied r space)
  inherit_region-Leaves copied r space (t, good, plain) alloc sound within pages =
      let fresh = space.index.fresh in
      let older = (slab_cache_alloc space).1 in
      let (_, _, p, _, _) = within in
      let (clone, made, start, size, name, sound') =
        vm_region_clone-Cloned max_size fresh copied r alloc p sound pages in
      let new = good.4 fresh (omega arith) in
      let holds : Holds (some fresh) s e older = (
        t,
        (good.0, good.1, good.2, good.3, (λ x h. good.4 x (omega (arith, h))), (omega arith, new)),
        plain,
      ) in
      let within' =
        subst (λ n. Within s e n (clone.size)) (sym start)
          (subst (λ n. Within s e (r.start) n) (sym size) within) in
      let (space', ran, valid, eq) =
        insert_region-Becomes s e clone older al
          (subst (λ i. Holds (some i) s e older) (sym name) holds) within' sound' in
      (space', rw alloc (running (λ c. insert_region c older) made ∙ ran), valid)

  inherit_regions-Leaves :
      (copied : ℕ → ℕ) (rs : List Region) (m : ℕ) (space : AddressSpace)
      → IsValid s e space
      → s ≤ m
      → m % 4096 ≡ 0
      → Tiles m rs e
      → tally is_odd rs ≡ 0
      → AllPages max_size rs
      → Leaves s e (inherit_regions max_size copied rs space)
  unfolding inherit_regions
  inherit_regions-Leaves copied [] m space valid h low t plain pages = (space, refl, valid)
  inherit_regions-Leaves copied (r ∷ rs) m space valid h low (st, p, a, t) plain (here, pages) =
      let (sound, rest_plain) = odd_none r rs plain in
      let next = λ (w : AddressSpace) (v : IsValid s e w).
        inherit_regions-Leaves copied rs (m + r.size) w v (omega (arith, h)) (omega (arith, low, a))
          t rest_plain pages in
      elim (Bool-cases (is_inherited r)) [
        | inl i ↦
            let end = Tiles-le (m + r.size) rs e t in
            let within : Within s e (r.start) (r.size) =
              (omega (arith, st, low), a, p, omega (arith, st, h), omega (arith, st, end)) in
            let (space1, ran, valid1) =
              inherit_region-Leaves (copied (r.id)) r space valid (inherited-allocated r i sound)
                sound within here in
            let (space2, ran2, valid2) = next space1 valid1 in
            (space2, rw i (running (inherit_regions max_size copied rs) ran ∙ ran2), valid2)
        | inr o ↦ let (space2, ran2, valid2) = next space valid in (space2, rw o ran2, valid2)
      ]

initial_space-Leaves : Leaves 0 user_size initial_space
unfolding initial_space tally onto entries keyed count
initial_space-Leaves =
    let region = unused_region 0 user_base user_size vm_region_free in
    let (ix, ran, good) =
      enter_region-Succeeds none no_index [] region []
        (
          (((0, refl), tt), refl),
          ((λ list x. refl), λ list. refl),
          tt,
          (λ x. omega arith),
          (λ x h. refl),
          tt,
        )
        refl (omega arith) (λ al. absurd (false≢true al)) tt in
    (
      record { regions = region ∷ []; index = ix },
      running (λ ix. some (record { regions = region ∷ []; index = ix })) ran,
      ((refl, omega arith, omega arith, refl), good, refl),
    )

reserved-Leaves :
    (s e start size : ℕ) (space : AddressSpace)
    → s % 4096 ≡ 0
    → s < e
    → e ≤ word
    → start < word
    → size < word
    → IsValid s e space
    → range_status s e start size ≡ success
    → Leaves s e (reserved start size space)
reserved-Leaves s e start size space al lt room h k valid ok =
    let (space', ran, valid', eq) = vm_reserve-Clears s e start size space al lt room h k valid in
    let go = λ (q : Status × AddressSpace). if is_success (q.0) then some (q.1) else none in
    (space', running go ran ∙ ap (λ status. go (status, space')) ok, valid')

-- Creating an address space never fails an assertion and makes a valid one, from 0 to the end of
-- the user's addresses, whatever regions it inherits from a parent whose regions follow each other
-- from a page on to that end, if each of them is allocated with an object or a map of pages or has
-- no flags, each private mapping has a map, and no mapping leaves its map.
pub vm_aspace_create-Leaves :
    (max_size copied : ℕ → ℕ) (parent : List Region) (m : ℕ)
    → m % 4096 ≡ 0
    → Tiles m parent user_size
    → tally is_odd parent ≡ 0
    → AllPages max_size parent
    → Leaves 0 user_size (vm_aspace_create max_size copied parent)
unfolding vm_aspace_create
vm_aspace_create-Leaves max_size copied parent m low t plain pages =
    let (space1, ran1, valid1) = initial_space-Leaves in
    let (space2, ran2, valid2) =
      reserved-Leaves 0 user_size 0 4096 space1 (omega arith) (omega arith) (omega arith)
        (omega arith) (omega arith) valid1 refl in
    let (space3, ran3, valid3) =
      reserved-Leaves 0 user_size libkernel_base libkernel_size space2 (omega arith) (omega arith)
        (omega arith) (omega arith) (omega arith) valid2 refl in
    let (space4, ran4, valid4) =
      inherit_regions-Leaves 0 user_size refl max_size copied parent m space3 valid3 (omega arith)
        low t plain pages in
    let third = λ (w : AddressSpace).
      reserved libkernel_base libkernel_size w >>= λ w. inherit_regions max_size copied parent w in
    (
      space4,
      running (λ w. reserved 0 4096 w >>= third) ran1
          ∙ running third ran2
          ∙ running (inherit_regions max_size copied parent) ran3
          ∙ ran4,
      valid4,
    )
