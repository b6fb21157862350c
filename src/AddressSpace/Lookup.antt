-- ===== src/AddressSpace/Lookup.antt =====
-- What the search for a region returns.
use infinity_os.Base.{
  ℕ, ◌≡◌, refl, Bool, true, false, ◌||◌, Option, none, some, List, if◌then◌else◌, ap, ◌∙◌, sym,
  Bool-cases, inl, inr, subst, ◌⊎◌,
}
use mathlib.Core.Option.{some-injective}
use infinity_os.AddressSpace.{
  ◌>>=◌, Region, is_allocated, vm_region_contains, Index, AddressSpace, region_of, regions_behind,
  near, search_tree, vm_region_find, is_cached, after_tree,
}
use infinity_os.AddressSpace.Lists.{Distinct}
use infinity_os.AddressSpace.Indexes.{Indexes, Cached, running}
use infinity_os.AddressSpace.Views.{Tiles}
use infinity_os.AddressSpace.Owner.{owner, region_of-bounds, owner_unique}
use infinity_os.AddressSpace.Pointers.{Known, Misses, region_of-held, Cached-Allocated, Known-keyed}
use infinity_os.AddressSpace.Find.{
  IsLeft, search_tree-finds, behind_owner, search_list-owner, region_of-owner, not_missed,
}

-- The region that is returned for an address of a region: unused ones only where they are wanted.
abbrev pub wanted : Bool → Region → Option ℕ
wanted all r = if is_allocated (r.state) || all then some (r.id) else none

-- What the search returns for the region.
abbrev pub Finds : List Region → Bool → Region → Option (Option ℕ × Option ℕ) → Type 0
Finds rs all r o = (cache : Option ℕ) × (o ≡ some (wanted all r, cache)) × Cached cache rs

module _ (sp : Option ℕ) (rs : List Region) (ix : Index) (m e addr : ℕ) (r : Region)
    (t : Tiles m rs e) (good : Indexes sp ix rs) (own : owner rs addr ≡ some r) (all : Bool) where
  abbrev space : AddressSpace
  space = record { regions = rs; index = ix }

  once : Distinct rs
  once = good.3

  -- A region that a pointer points to and that contains the address is the one.
  is_it :
      (id : ℕ) (q : Region)
      → region_of id rs ≡ some q
      → vm_region_contains q addr ≡ true
      → is_allocated (q.state) ≡ true
      → some id ≡ wanted all r
  is_it id q found c al =
      let same : q ≡ r = some-injective _ _ (sym (owner_unique id rs m e addr q t found c) ∙ own) in
      let (low, pos, high, name) = region_of-bounds id rs m e q t found in
      let al' = ap (λ (z : Region). is_allocated (z.state)) (sym same) ∙ al in
      ap some (sym name ∙ ap (λ (z : Region). z.id) same) ∙ sym (rw al' refl)

  by_tree : Option (Option ℕ × Option ℕ)
  by_tree = search_tree (ix.tree) rs addr none >>= λ s. after_tree all space addr s

  listed :
      (b : Bool) (last : Option ℕ)
      → IsLeft rs addr last
      → is_allocated (r.state) ≡ false
      → after_tree b space addr (near last) ≡ some (wanted b r, ix.find_cache)
  listed false last left un = rw un refl
  listed true none left un =
      running (λ f. some (f, ix.find_cache)) (search_list-owner rs addr r own un) ∙ rw un refl
  listed true (some id) (q, found, ends) un =
      running (λ f. some (f, ix.find_cache))
        (search_list-owner (regions_behind id rs) addr r
          (behind_owner rs m e addr t id q found ends ∙ own) un)
      ∙ rw un refl

  by_tree-Finds : Finds rs all r by_tree
  unfolding by_tree
  by_tree-Finds =
      let (search_ok, same) = good.0 in
      let known = subst (Known rs) (sym same) (Known-keyed rs once) in
      elim (search_tree-finds rs m e addr t (ix.tree) none known (search_ok.1) tt) [
        | inl (id, q, ran, found, al, c) ↦ (
          some id,
          running (after_tree all space addr) ran
              ∙ ap (λ w. some (w, some id)) (is_it id q found c al),
          region_of-held id rs q found al,
        )
        | inr (last, ran, left, misses) ↦
            let un =
              not_missed rs rs addr r (region_of-owner rs addr r once own) own
                (subst (λ es. Misses rs es addr) same misses) in
            (
              ix.find_cache,
              running (after_tree all space addr) ran ∙ listed all last left un,
              good.2,
            )
      ]

  -- The cached pointer points to the region, or the search goes on.
  cache_cases :
      (cache : Option ℕ)
      → Cached cache rs
      → (is_cached space addr cache ≡ some false)
        ⊎ ((is_cached space addr cache ≡ some true) × (cache ≡ wanted all r))
  cache_cases none h = inl refl
  cache_cases (some c) h =
      let (q, found, al) = Cached-Allocated c rs once h in
      elim (Bool-cases (vm_region_contains q addr)) [
        | inl w ↦ inr (
          running (λ region. some (vm_region_contains region addr)) found ∙ ap some w,
          is_it c q found w al,
        )
        | inr w ↦ inl (running (λ region. some (vm_region_contains region addr)) found ∙ ap some w)
      ]

  -- In regions that follow each other, with structures that agree with them, the search for an
  -- address of a region never fails an assertion and returns that region, whether the cached
  -- pointer, the tree or the list has it, or nothing if it is unused and only allocated ones are
  -- wanted; the cached pointer that is left points to an allocated region.
  pub vm_region_find-Finds : Finds rs all r (vm_region_find space addr all)
  unfolding vm_region_find by_tree
  vm_region_find-Finds =
      let go = λ (cached : Bool). if cached then some (ix.find_cache, ix.find_cache) else by_tree in
      elim (cache_cases (ix.find_cache) (good.2)) [
        | inl away ↦ let (cache, ran, held) = by_tree-Finds in (cache, running go away ∙ ran, held)
        | inr (here, same) ↦
            (ix.find_cache, running go here ∙ ap (λ w. some (w, ix.find_cache)) same, good.2)
      ]
