-- ===== src/AddressSpace/Unmap.antt =====
-- Unmapping and reserving memory.
use infinity_os.Base.{
  ℕ, ◌+◌, ◌-◌, ◌%◌, ◌≤◌, ◌<◌, ◌≡◌, refl, Bool, true, false, ◌&&◌, Option, some, List, [], ◌∷◌,
  if◌then◌else◌, leb, arith, ap, ◌∙◌, Bool-cases, inl, inr,
}
use infinity_os.Status.{Status, success, invalid_arg, no_memory}
use infinity_os.AddressSpace.{
  Region, RegionState, vm_region_free, vm_region_reserved, AddressSpace, is_allocated,
}
use infinity_os.AddressSpace.Change.{free_region, slab_cache_alloc, unused_region}
use infinity_os.AddressSpace.Mapping.{
  word, last_region, vm_aspace_fits, is_unaligned, make_unused, vm_unmap, vm_reserve,
}
use infinity_os.AddressSpace.Views.{unused, view, Tiles}
use infinity_os.AddressSpace.Place.{Within}
use infinity_os.AddressSpace.Insert.{IsValid, Becomes, in_range, insert_region-Becomes}

last_region-end :
    (r : Region) (rs : List Region) (m e : ℕ)
    → Tiles m (r ∷ rs) e
    → ((last_region r rs).start + (last_region r rs).size ≡ e) × (0 < (last_region r rs).size)
unfolding last_region
last_region-end r [] m e (st, p, a, t) = (omega (arith, st, t), p)
last_region-end r (q ∷ rs) m e (st, p, a, t) = last_region-end q rs (m + r.size) e t

wraps :
    (start size : ℕ)
    → 0 < size
    → start < word
    → size < word
    → word < start + size
    → (start + size + 18446744073709551615) % word < start
wraps start size p h k far = omega arith

no_leb : (a b : ℕ) → b < a → leb a b ≡ false
no_leb a b h = ground arith

never : (b : Bool) → false ≡ (b && false)
never true = refl
never false = refl

fits_in :
    (s e start size last : ℕ)
    → 0 < size
    → start < word
    → size < word
    → e ≤ word
    → last + 1 ≡ e
    → let region_end = (start + size + 18446744073709551615) % word in
      (leb start region_end && (leb s start && leb region_end last))
      ≡ (leb s start && leb (start + size) e)
fits_in s e start size last p h k room end = elim (Bool-cases (leb (start + size) word)) [
  | inl q ↦
      let le : start + size ≤ word = ground arith in
      let same : (start + size + 18446744073709551615) % word ≡ start + size - 1 =
        omega (arith, p, le) in
      rw same (ground arith)
  | inr q ↦
      let gt : word < start + size = ground arith in
      let before = wraps start size p h k gt in
      let no_first : leb start ((start + size + 18446744073709551615) % word) ≡ false =
        no_leb start ((start + size + 18446744073709551615) % word) before in
      let no_second : leb (start + size) e ≡ false = ground arith in
      rw (no_first, no_second) (never (leb s start))
]

pub vm_aspace_fits-Within :
    (s e start size : ℕ) (rs : List Region)
    → Tiles s rs e
    → s < e
    → e ≤ word
    → 0 < size
    → start < word
    → size < word
    → vm_aspace_fits start size rs ≡ some (leb s start && leb (start + size) e)
unfolding vm_aspace_fits
vm_aspace_fits-Within s e start size [] t lt room p h k = absurd (omega (arith, t, lt))
vm_aspace_fits-Within s e start size (first ∷ rs) t lt room p h k =
    let (end, pos) = last_region-end first rs s e t in
    let last = last_region first rs in
    ap
      (λ n. some (
        leb start ((start + size + 18446744073709551615) % word)
        && (leb n start
            && leb ((start + size + 18446744073709551615) % word) (last.start + last.size - 1))))
      (t.0)
    ∙ ap some
        (fits_in s e start size (last.start + last.size - 1) p h k room (omega (arith, end, pos)))

-- What the operations return for a range.
abbrev pub range_status : (s e start size : ℕ) → Status
range_status s e start size =
    if is_unaligned start size
    then invalid_arg
    else if leb s start && leb (start + size) e
    then success
    else no_memory

abbrev pub is_success : Status → Bool
is_success success = true
is_success other = false

-- An operation returns the status of the range and a state that is valid; the range is unused if
-- it succeeds, and nothing else has changed.
abbrev pub Clears :
    (s e start size : ℕ) → RegionState → AddressSpace → Option (Status × AddressSpace) → Type 0
Clears s e start size state space o =
    (space' : AddressSpace) × (o ≡ some (range_status s e start size, space'))
    × IsValid s e space'
    × ((addr : ℕ)
        → view (space'.regions) addr ≡ (
            if is_success (range_status s e start size) && in_range start size addr
            then unused state
            else view (space.regions) addr))

free_region-Becomes :
    (s e start size : ℕ) (state : RegionState) (space : AddressSpace)
    → s % 4096 ≡ 0
    → is_allocated state ≡ false
    → IsValid s e space
    → Within s e start size
    → Becomes s e
        (unused_region (space.index.fresh) start size state)
        space
        (free_region start size state space)
unfolding free_region
free_region-Becomes s e start size state space al un (t, good, plain) within =
    let fresh = space.index.fresh in
    let older = (slab_cache_alloc space).1 in
    let new = good.4 fresh (omega arith) in
    insert_region-Becomes s e (unused_region fresh start size state) older al
      (
        t,
        (good.0, good.1, good.2, good.3, (λ x h. good.4 x (omega (arith, h))), (omega arith, new)),
        plain,
      )
      within (rw un refl)

make_unused-Clears :
    (s e start size : ℕ) (state : RegionState) (space : AddressSpace)
    → s % 4096 ≡ 0
    → s < e
    → e ≤ word
    → start < word
    → size < word
    → is_allocated state ≡ false
    → IsValid s e space
    → Clears s e start size state space (make_unused start size state space)
make_unused-Clears s e start size state space al lt room h k un valid =
    elim (Bool-cases (is_unaligned start size)) [
      | inl bad ↦ (space, rw bad refl, valid, λ addr. rw bad refl)
      | inr good ↦
          let pos : 0 < size = ground arith in
          let low : start % 4096 ≡ 0 = ground arith in
          let high : size % 4096 ≡ 0 = ground arith in
          let fits =
            vm_aspace_fits-Within s e start size (space.regions) (valid.0) lt room pos h k in
          elim (Bool-cases (leb s start && leb (start + size) e)) [
            | inl yes_fits ↦
                let from : s ≤ start = ground arith in
                let to : start + size ≤ e = ground arith in
                let (space', ran, valid', same) =
                  free_region-Becomes s e start size state space al un valid
                    (low, high, pos, from, to) in
                (
                  space',
                  rw (good, fits, yes_fits) (rw ran refl),
                  valid',
                  λ addr. same addr ∙ rw (good, yes_fits, un) refl,
                )
            | inr no_fit ↦
                (space, rw (good, fits, no_fit) refl, valid, λ addr. rw (good, no_fit) refl)
          ]
    ]

-- For an address space that is valid, an unmapping never fails an assertion. It returns
-- STATUS_INVALID_ARG for a range that is empty or not of whole pages, STATUS_NO_MEMORY for one that
-- wraps around or leaves the address space, and success otherwise; the state is valid again; on
-- success every address of the range is free, and in all cases what stands at any other address,
-- with its access, its object, its offset in the object and its place in the map of pages, is what
-- stood there before.
pub vm_unmap-Clears :
    (s e start size : ℕ) (space : AddressSpace)
    → s % 4096 ≡ 0
    → s < e
    → e ≤ word
    → start < word
    → size < word
    → IsValid s e space
    → Clears s e start size vm_region_free space (vm_unmap start size space)
unfolding vm_unmap
vm_unmap-Clears s e start size space al lt room h k valid =
    make_unused-Clears s e start size vm_region_free space al lt room h k refl valid

-- For an address space that is valid, a reservation never fails an assertion. It returns
-- STATUS_INVALID_ARG for a range that is empty or not of whole pages, STATUS_NO_MEMORY for one that
-- wraps around or leaves the address space, and success otherwise; the state is valid again; on
-- success every address of the range is reserved, and in all cases what stands at any other address
-- is what stood there before.
pub vm_reserve-Clears :
    (s e start size : ℕ) (space : AddressSpace)
    → s % 4096 ≡ 0
    → s < e
    → e ≤ word
    → start < word
    → size < word
    → IsValid s e space
    → Clears s e start size vm_region_reserved space (vm_reserve start size space)
unfolding vm_reserve
vm_reserve-Clears s e start size space al lt room h k valid =
    make_unused-Clears s e start size vm_region_reserved space al lt room h k refl valid
