-- ===== src/AddressSpace/Fitting.antt =====
-- The search of the free lists finds a region if one is large enough.
use Prim.Native.Nat.{bit_and}
use infinity_os.AddressSpace.Sizes.{larger}
use infinity_os.AddressSpace.Sizes.{list_for_mono}
use infinity_os.AddressSpace.Sizes.{search_lists-Search}
use infinity_os.AddressSpace.Sizes.{list_for_lt}
use infinity_os.AddressSpace.Sizes.{both}
use infinity_os.AddressSpace.Sizes.{==→eq}
use infinity_os.AddressSpace.Sizes.{ListsSmall}
use infinity_os.AddressSpace.Sizes.{any_bit-set}
use infinity_os.Base.{
  ℕ, ◌+◌, ◌-◌, ◌≤◌, ◌<◌, ◌≡◌, refl, Bool, true, false, not, ◌&&◌, List, [], ◌∷◌, leb, ◌==◌, arith,
  ◌∙◌, sym, Bool-cases, inl, inr, ==_refl,
}
use mathlib.Core.Bool.{false≢true, true≢false}
use infinity_os.AddressSpace.{Region, AddressSpace, is_free, list_for, vm_freelists, list_empty}
use infinity_os.AddressSpace.Allocation.{any_bit, first_list, search_lists}
use infinity_os.AddressSpace.Counts.{tally, is_listed, count}
use infinity_os.AddressSpace.Lists.{InFree, Distinct}
use infinity_os.AddressSpace.Sizes.{tally-region_of, region_of-tally, Search, listed-region}

-- A region that an allocation of a size can take.
abbrev pub is_fit : ℕ → Region → Bool
is_fit size r = is_free (r.state) && leb size (r.size)

flip : (b : Bool) → not b ≡ true → b ≡ false
flip true e = absurd (false≢true e)
flip false e = refl

pub leb→le : (a b : ℕ) → leb a b ≡ true → a ≤ b
leb→le a b h = ground arith

some_id : (ids : List ℕ) → list_empty ids ≡ false → (x : ℕ) × (0 < count x ids)
unfolding count
some_id [] e = absurd (true≢false e)
some_id (x ∷ ids) e = (x, rw (==_refl x) (omega arith))

module _ (size : ℕ) (space : AddressSpace) (free : InFree (space.index) (space.regions))
    (once : Distinct (space.regions)) where
  -- A longer list that has a region has one that is large enough.
  fits_longer :
      (j : ℕ)
      → list_for size < j
      → space.index.free_map j ≡ true
      → ListsSmall (vm_freelists - (list_for size + 1)) (list_for size + 1) size space
      → 0 < 0
  fits_longer j lt set_j small =
      let full : list_empty (space.index.free j) ≡ false =
        flip (list_empty (space.index.free j)) (sym (free.1 j) ∙ set_j) in
      let (x, has) = some_id (space.index.free j) full in
      let (q, found, is, same) = listed-region (space.index) (space.regions) j x free once has in
      let bound = list_for_lt (q.size) in
      let tiny = small j (omega (arith, lt)) (omega (arith, bound, same, lt)) x q has found in
      let large = larger size (q.size) (omega (arith, lt, same)) in omega (arith, tiny, large)

  not_here :
      ListsSmall (vm_freelists - list_for size) (list_for size) size space
      → tally (is_fit size) (space.regions) ≡ 0
  not_here small = elim (Bool-cases (tally (is_fit size) (space.regions) == 0)) [
    | inl none_fit ↦ ==→eq (tally (is_fit size) (space.regions)) 0 none_fit
    | inr some_fit ↦
        let (q, found, fit) = tally-region_of (is_fit size) (space.regions) once (ground arith) in
        let (is, le) = both (is_free (q.state)) (leb size (q.size)) fit in
        let j = list_for (q.size) in
        let listed =
          region_of-tally (is_listed j (q.id)) (q.id) (space.regions) q found
            (rw (is, ==_refl j) (==_refl (q.id))) in
        let here = free.0 j (q.id) in
        let order = list_for_mono size (q.size) (leb→le size (q.size) le) in
        let bound = list_for_lt (q.size) in
        let tiny =
          small j order (omega (arith, bound, order)) (q.id) q (omega (arith, listed, here))
            found in
        let large = leb→le size (q.size) le in absurd (omega (arith, tiny, large))
  ]

  -- The search finds a free region that is large enough if there is one.
  pub search_lists_complete :
      Search size (space.regions) (tally (is_fit size) (space.regions) ≡ 0) (
        search_lists
          (vm_freelists - first_list size (space.index))
          (first_list size (space.index))
          size
          space)
  search_lists_complete =
      elim (Bool-cases (
        not (bit_and size (size - 1) == 0)
        && any_bit 64 (space.index.free_map) (list_for size + 1))) [
          | inl up ↦
              let (j, le, set_j) = any_bit-set 64 (space.index.free_map) (list_for size + 1) (
                (both (not (bit_and size (size - 1) == 0))
                  (any_bit 64 (space.index.free_map) (list_for size + 1)) up).1) in
              rw up
                (elim (search_lists-Search (vm_freelists - (list_for size + 1)) (list_for size + 1)
                  size space free once) [
                    | inl fit ↦ inl fit
                    | inr (ran, small) ↦
                        (let never = fits_longer j (omega (arith, le)) set_j small in
                          absurd (omega (arith, never)))
                  ])
          | inr same ↦
              rw same
                (elim (search_lists-Search (vm_freelists - list_for size) (list_for size) size space
                  free once) [ inl fit ↦ inl fit | inr (ran, small) ↦ inr (ran, not_here small) ])
        ]
