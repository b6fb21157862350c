-- ===== src/AddressSpace/Take.antt =====
-- Taking a region from the free lists.
use infinity_os.AddressSpace.Allocate.{enter_rest-Rest}
use infinity_os.AddressSpace.Allocate.{old_name}
use infinity_os.AddressSpace.Allocate.{Cached-free}
use infinity_os.AddressSpace.Allocate.{free-unallocated}
use infinity_os.Base.{
  ℕ, ◌+◌, ◌%◌, ◌≤◌, ◌<◌, ◌≡◌, refl, true, false, Option, none, some, List, [], ◌∷◌, if◌then◌else◌,
  leb, ltb, ltb→lt, ◌==◌, arith, ap, ◌∙◌, ◌⊎◌, sym, Bool-cases, inl, inr, subst,
}
use infinity_os.AddressSpace.{◌>>=◌, Region, vm_region_free, Index, AddressSpace, is_free}
use infinity_os.AddressSpace.Change.{onto, tree_insert}
use infinity_os.AddressSpace.Allocation.{
  enter_rest, allocated_region, take_region, take_found, alloc_region,
}
use infinity_os.AddressSpace.Counts.{tally, tally-onto, is_odd, odd_none}
use infinity_os.AddressSpace.Keys.{Below-keyed, Above-keyed, InTree-same}
use infinity_os.AddressSpace.Lists.{vm_freelist_remove-Relists, with_lists}
use infinity_os.AddressSpace.Indexes.{Indexes, running, Distinct-drop, IsFresh-drop}
use infinity_os.AddressSpace.Steps.{Fits, enter_region-Succeeds, named_once, unflagged}
use infinity_os.AddressSpace.Views.{
  unused, content, view, Tiles, Ends, Tiles-StartsFrom, contains, behind-contains, view_here,
  view_away, Ends-le, view-onto_behind, view-onto_before,
}
use infinity_os.AddressSpace.Fitting.{is_fit, leb→le, search_lists_complete}
use infinity_os.AddressSpace.Insert.{
  IsValid, in_range, everywhere, not_ltb, not_leb, onto-Tiles, Ends-StartsBelow,
}
use infinity_os.AddressSpace.Allocate.{locate-region, content-free}

-- A region that was allocated where free ones stood, and nothing else has changed.
abbrev pub Took :
    (s e size access flags : ℕ) → AddressSpace → Option (Option ℕ × AddressSpace) → Type 0
Took s e size access flags space o =
    (r : Region) × (b ys : List Region) × (ix : Index) × (o
      ≡ some (
        some (r.id),
        record { regions = onto b (allocated_region access flags size r ∷ ys); index = ix },
      ))
    × Indexes none ix (onto b (allocated_region access flags size r ∷ ys))
    × Ends s b (r.start)
    × Tiles (r.start + size) ys e
    × (tally is_odd b ≡ 0)
    × (tally is_odd ys ≡ 0)
    × ((addr : ℕ)
        → view (space.regions) addr ≡ (
            if in_range (r.start) size addr
            then unused vm_region_free
            else view (space.regions) addr))
    × ((addr : ℕ)
        → view (onto b (allocated_region access flags size r ∷ ys)) addr ≡ (
            if in_range (r.start) size addr
            then content (allocated_region access flags size r) addr
            else view (space.regions) addr))

in_range-from :
    (start size addr : ℕ) → in_range start size addr ≡ true → (start ≤ addr) × (addr < start + size)
in_range-from start size addr h = (ground arith, ground arith)

module _ (s e : ℕ) (size access flags : ℕ) (p : 0 < size) (a : size % 4096 ≡ 0)
    (space : AddressSpace) (valid : IsValid s e space) where
  module _ (r : Region) (b next : List Region) (free : is_free (r.state) ≡ true)
      (le : size ≤ r.size) (ar : r.size % 4096 ≡ 0) (same : onto b (r ∷ next) ≡ space.regions)
      (u : Ends s b (r.start)) (t : Tiles (r.start + r.size) next e) where
    abbrev taken : Region
    taken = allocated_region access flags size r

    was_free :
        (addr : ℕ)
        → view (space.regions) addr ≡ (
            if in_range (r.start) size addr
            then unused vm_region_free
            else view (space.regions) addr)
    was_free addr = elim (Bool-cases (in_range (r.start) size addr)) [
      | inl i ↦
          let (from, to) = in_range-from (r.start) size addr i in
          rw i (
            ap (λ rs. view rs addr) (sym same)
            ∙ view-onto_behind s b (r.start) (r ∷ next) addr u from
            ∙ view_here r next addr (contains r addr from (omega (arith, to, le)))
            ∙ content-free r addr free)
      | inr o ↦ rw o refl
    ]

    new_view :
        (ys : List Region)
        → ((addr : ℕ) → r.start + size ≤ addr → view ys addr ≡ view (r ∷ next) addr)
        → (addr : ℕ) → s ≤ addr
        → view (onto b (taken ∷ ys)) addr
          ≡ (if in_range (r.start) size addr then content taken addr else view (space.regions) addr)
    new_view ys eq addr h = elim (Bool-cases (leb (r.start) addr)) [
      | inl q ↦
          let from = leb→le (r.start) addr q in
          let here = view-onto_behind s b (r.start) (taken ∷ ys) addr u from in
          elim (Bool-cases (ltb addr (r.start + size))) [
            | inl w ↦
                let c = contains taken addr from (ltb→lt addr (r.start + size) w) in
                rw (q, w) (here ∙ view_here taken ys addr c)
            | inr w ↦
                let past = not_ltb addr (r.start + size) w in
                rw (q, w)
                  (here
                    ∙ view_away taken ys addr (behind-contains taken addr p past)
                    ∙ eq addr past
                    ∙ sym (view-onto_behind s b (r.start) (r ∷ next) addr u from)
                    ∙ ap (λ rs. view rs addr) same)
          ]
      | inr q ↦ rw q (
          view-onto_before s b (r.start) (taken ∷ ys) (r ∷ next) addr u h (not_leb (r.start) addr q)
          ∙ ap (λ rs. view rs addr) same)
    ]

    take-Took :
        Took s e size access flags space
          (take_region access flags size (b, r, next) (space.index) >>= λ q. some (some (q.0), q.1))
    take-Took =
        let odd = sym (tally-onto is_odd b (r ∷ next)) ∙ ap (tally is_odd) same ∙ valid.2 in
        let (plain, odd_next) = odd_none r next (omega (arith, odd)) in
        let (tr, f, c, d, n, l) = subst (Indexes none (space.index)) (sym same) (valid.1) in
        let not_al = free-unallocated (r.state) free in
        let (lists, map, gone, f') =
          vm_freelist_remove-Relists (space.index) b r next f d free (unflagged r free plain) in
        let ix1 = with_lists (space.index) lists map in
        let good1 : Indexes (some (r.id)) ix1 (onto b next) = (
          (InTree-same (space.index.tree) b r next not_al).1 tr,
          f',
          Cached-free (space.index.find_cache) b r next not_al c,
          Distinct-drop b r next d,
          IsFresh-drop (space.index.fresh) b r next n,
          (old_name (space.index.fresh) b r next n, named_once b r next d),
        ) in
        let (ys, ix2, put_back, good2, t2, odd_ys, eq) =
          enter_rest-Rest s e r size b next free le p a ar u t odd_next (some (r.id)) ix1 good1 in
        let (old, new) = good2.5 in
        let fits : Fits b taken ys = λ al. (
          Below-keyed (r.start) b (Ends-StartsBelow s b (r.start) (r.start) u (omega arith)),
          Above-keyed (r.start) (r.start + size) ys (omega (arith, p))
              (Tiles-StartsFrom (r.start + size) ys e t2),
        ) in
        let (ix3, grown, good3) =
          enter_region-Succeeds none ix2 b taken ys
            (good2.0, good2.1, good2.2, good2.3, good2.4, tt) new old fits tt in
        let finish = λ (q : ℕ × AddressSpace). some (some (q.0), q.1) in
        (
          r,
          b,
          ys,
          ix3,
          running finish (
              running
                (λ ix. enter_rest r size next ix >>= λ w.
                  tree_insert (r.start) (r.id) (w.1) >>= λ ix.
                  some (r.id, record { regions = onto b (taken ∷ w.0); index = ix }))
                gone
              ∙ running
                  (λ w. tree_insert (r.start) (r.id) (w.1) >>= λ ix.
                    some (r.id, record { regions = onto b (taken ∷ w.0); index = ix }))
                  put_back
              ∙ running (λ ix. some (r.id, record { regions = onto b (taken ∷ ys); index = ix }))
                  grown),
          good3,
          u,
          t2,
          omega (arith, odd),
          odd_ys,
          was_free,
          everywhere s e (r.start) size (content taken) (onto b (taken ∷ ys)) (space.regions)
              (onto-Tiles s b (r.start) (taken ∷ ys) e u (refl, p, a, t2)) (valid.0)
              (Ends-le s b (r.start) u) (new_view ys eq),
        )

  -- An allocation fails only if no free region is large enough.
  pub alloc_region-Took :
      ((alloc_region size access flags space ≡ some (none, space))
        × (tally (is_fit size) (space.regions) ≡ 0))
      ⊎ Took s e size access flags space (alloc_region size access flags space)
  unfolding alloc_region
  alloc_region-Took =
      let some_size : (size == 0) ≡ false = ground arith in
      elim (search_lists_complete size space (valid.1.1) (valid.1.3)) [
        | inr (ran, small) ↦
            inl (rw some_size (running (take_found access flags size space) ran), small)
        | inl (q, ran, (found, free, le)) ↦
            let (b, next, located, same, u, t) =
              locate-region s (q.id) [] (space.regions) s e q refl (valid.0) found in
            inr (
              subst (Took s e size access flags space)
                (sym (
                  rw some_size (
                    running (take_found access flags size space) ran
                    ∙ running
                        (λ z. take_region access flags size z (space.index) >>= λ w.
                          some (some (w.0), w.1))
                        located)))
                (take-Took q b next free le (t.2) same u (t.3)))
      ]
