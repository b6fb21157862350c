-- ===== src/AddressSpace/Place.antt =====
-- The place that is made for a region.
use infinity_os.Base.{
  ℕ, ◌+◌, ◌-◌, ◌%◌, ◌≤◌, ◌<◌, ◌≡◌, refl, true, Option, some, List, [], ◌∷◌, arith, ap, ◌∙◌, sym,
  Bool-cases, inl, inr, subst,
}
use infinity_os.AddressSpace.{◌>>=◌, Region, is_allocated, AddressSpace}
use infinity_os.AddressSpace.Change.{onto, trim_regions, trim_at, locate}
use infinity_os.AddressSpace.Counts.{tally, tally-onto, is_odd}
use infinity_os.AddressSpace.Indexes.{Indexes, running}
use infinity_os.AddressSpace.Views.{Tiles, Ends}
use infinity_os.AddressSpace.Owner.{locate-At}
use infinity_os.AddressSpace.Lookup.{wanted, vm_region_find-Finds}
use infinity_os.AddressSpace.Trim.{Gap, trim_at-Gap}

-- The regions of an address space and the structures that find them.
abbrev pub Holds : Option ℕ → (s e : ℕ) → AddressSpace → Type 0
Holds sp s e space =
    Tiles s (space.regions) e
    × Indexes sp (space.index) (space.regions)
    × (tally is_odd (space.regions) ≡ 0)

-- A range of whole pages within an address space.
abbrev pub Within : (s e start size : ℕ) → Type 0
Within s e start size =
    (start % 4096 ≡ 0) × (size % 4096 ≡ 0) × (0 < size) × (s ≤ start) × (start + size ≤ e)

pub Ends-aligned : (s : ℕ) (rs : List Region) (m : ℕ) → s % 4096 ≡ 0 → Ends s rs m → m % 4096 ≡ 0
Ends-aligned s [] m al t = subst (λ n. n % 4096 ≡ 0) t al
Ends-aligned s (r ∷ rs) m al (end, p, a, t) =
    let below = Ends-aligned s rs (r.start) al t in omega (arith, below, end, a)

wanted-all : (r : Region) → wanted true r ≡ some (r.id)
wanted-all r = elim (Bool-cases (is_allocated (r.state))) [
  | inl al ↦ rw al refl
  | inr un ↦ rw un refl
]

pub trim_regions-Gap :
    (sp : Option ℕ) (s e start size : ℕ) (space : AddressSpace)
    → s % 4096 ≡ 0
    → Holds sp s e space
    → Within s e start size
    → Gap sp s start (start + size - 1) e (space.regions) (trim_regions start size space)
unfolding trim_regions onto
trim_regions-Gap sp s e start size space al (t, good, plain) (low, high, some_room, from, to) =
    let rs = space.regions in
    let (b, r, next, located, same, ends, tiles, le, lt, own, more) =
      locate-At s [] rs s e start refl t from (omega (arith, to, some_room)) (good.3) in
    let (cache, found, cached) =
      vm_region_find-Finds sp rs (space.index) s e start r t good own true in
    let ix = record (space.index) { find_cache = cache } in
    let plain' = sym (tally-onto is_odd b (r ∷ next)) ∙ ap (tally is_odd) same ∙ plain in
    let good' : Indexes sp ix (onto b (r ∷ next)) =
      subst (Indexes sp ix) (sym same) (good.0, good.1, cached, good.3, good.4, good.5) in
    let gap =
      trim_at-Gap sp s start (start + size - 1) e low (omega (arith, low, high, some_room))
        (omega (arith, some_room)) (omega (arith, to, some_room)) b r next ix ends (tiles.1)
        (tiles.2) (Ends-aligned s b (r.start) al ends) (tiles.3) good' (omega (arith, plain'))
        (omega (arith, plain')) le lt in
    let go = λ (q : Option ℕ × Option ℕ). q.0 >>= λ id. locate id [] rs >>= λ zipper.
    trim_at start (start + size - 1) zipper (record (space.index) { find_cache = q.1 }) in
    let ran =
      running go found
      ∙ running (λ id. locate id [] rs >>= λ zipper. trim_at start (start + size - 1) zipper ix)
          (wanted-all r)
      ∙ running (λ zipper. trim_at start (start + size - 1) zipper ix) located in
    subst (λ o. Gap sp s start (start + size - 1) e rs o) (sym ran)
      (subst
        (λ l.
          Gap sp s start (start + size - 1) e l (trim_at start (start + size - 1) (b, r, next) ix))
        same gap)
