-- ===== src/AddressSpace/Allocate.antt =====
-- Allocating space in an address space.
use infinity_os.Base.{
  ℕ, suc, ◌+◌, ◌-◌, ◌%◌, ◌≤◌, ◌<◌, ◌≡◌, refl, true, false, Option, none, some, List, [], ◌∷◌, ltb,
  ◌==◌, arith, ap, ◌∙◌, sym, Bool-cases, inl, inr, subst, ==_refl,
}
use mathlib.Core.Bool.{false≢true}
use mathlib.Core.Option.{some-injective, none-ne-some}
use infinity_os.AddressSpace.{
  Region, RegionState, vm_region_free, Index, is_free, is_allocated, region_of,
}
use infinity_os.AddressSpace.Change.{onto, locate, unused_region}
use infinity_os.AddressSpace.Allocation.{enter_rest}
use infinity_os.AddressSpace.Counts.{mark, tally, is_named, is_held, is_odd, odd_more}
use infinity_os.AddressSpace.Lists.{tally-here}
use infinity_os.AddressSpace.Indexes.{Indexes, Cached, IsFresh, running, state-cases}
use infinity_os.AddressSpace.Steps.{enter_region-Succeeds, Lacks-add}
use infinity_os.AddressSpace.Views.{
  unused, content, view, Tiles, Ends, contains, behind-contains, view_here, view_away,
}

-- The place that a pointer is followed to.
abbrev pub Located : (s x : ℕ) (before rs : List Region) (q : Region) (e : ℕ) → Type 0
Located s x before rs q e =
    (b : List Region) × (next : List Region) × (locate x before rs ≡ some (b, q, next))
    × (onto b (q ∷ next) ≡ onto before rs)
    × Ends s b (q.start)
    × Tiles (q.start) (q ∷ next) e

pub locate-region :
    (s x : ℕ) (before rs : List Region) (m e : ℕ) (q : Region)
    → Ends s before m
    → Tiles m rs e
    → region_of x rs ≡ some q
    → Located s x before rs q e
unfolding region_of locate onto
locate-region s x before [] m e q u t found = absurd (none-ne-some q found)
locate-region s x before (r ∷ rs) m e q u (st, p, a, t) found =
    let u' = subst (Ends s before) (sym st) u in
    elim (Bool-cases (r.id == x)) [
      | inl w ↦
          let same : r ≡ q = some-injective _ _ (rw w at found) in
          let here : Located s x before (r ∷ rs) r e = (
            before,
            rs,
            rw w refl,
            refl,
            u',
            (refl, p, a, subst (λ n. Tiles (n + r.size) rs e) (sym st) t),
          ) in
          subst (λ z. Located s x before (r ∷ rs) z e) same here
      | inr w ↦
          let (b, next, ran, same, ends, tiles) =
            locate-region s x (r ∷ before) rs (m + r.size) e q (ap (λ n. n + r.size) st, p, a, u') t
              (rw w at found) in
          (b, next, rw w ran, same, ends, tiles)
    ]

-- The index without a free region, which is about to be allocated.
unheld : (c : ℕ) (r : Region) → is_allocated (r.state) ≡ false → mark (is_held c r) ≡ 0
unheld c r un = rw un refl

pub Cached-free :
    (cache : Option ℕ) (b : List Region) (r : Region) (ys : List Region)
    → is_allocated (r.state) ≡ false
    → Cached cache (onto b (r ∷ ys))
    → Cached cache (onto b ys)
Cached-free none b r ys un h = tt
Cached-free (some c) b r ys un h =
    let here = tally-here (is_held c) b r ys in
    let zero_here = unheld c r un in omega (arith, h, here, zero_here)

pub old_name :
    (fresh : ℕ) (b : List Region) (r : Region) (ys : List Region)
    → IsFresh fresh (onto b (r ∷ ys))
    → r.id < fresh
old_name fresh b r ys new = elim (Bool-cases (ltb (r.id) fresh)) [
  | inl lt ↦ ground arith
  | inr ge ↦
      let zero_here = new (r.id) (ground arith) in
      let here = tally-here (is_named (r.id)) b r ys in
      let one = rw (==_refl (r.id)) at here in absurd (omega (arith, zero_here, one))
]

pub free-unallocated : (s : RegionState) → is_free s ≡ true → is_allocated s ≡ false
free-unallocated vm_region_free h = refl
free-unallocated RegionState.vm_region_allocated h = absurd (false≢true h)
free-unallocated RegionState.vm_region_reserved h = refl

pub content-free :
    (r : Region) (addr : ℕ) → is_free (r.state) ≡ true → content r addr ≡ unused vm_region_free
content-free r addr h = elim (state-cases (r.state)) [
  | inl e ↦ rw e refl
  | inr (inl e) ↦ absurd (false≢true (ap is_free (sym e) ∙ h))
  | inr (inr e) ↦ absurd (false≢true (ap is_free (sym e) ∙ h))
]

-- What an allocation leaves behind the region.
abbrev Rest :
    Option ℕ
    → (e : ℕ) → (r : Region) → (size : ℕ) → (b next : List Region) → Option (List Region × Index)
    → Type 0
Rest sp e r size b next o =
    (ys : List Region) × (ix : Index) × (o ≡ some (ys, ix))
    × Indexes sp ix (onto b ys)
    × Tiles (r.start + size) ys e
    × (tally is_odd ys ≡ 0)
    × ((addr : ℕ) → r.start + size ≤ addr → view ys addr ≡ view (r ∷ next) addr)

module _ (s e : ℕ) (r : Region) (size : ℕ) (b next : List Region) (free : is_free (r.state) ≡ true)
    (le : size ≤ r.size) (p : 0 < size) (a : size % 4096 ≡ 0) (ar : r.size % 4096 ≡ 0)
    (u : Ends s b (r.start)) (t : Tiles (r.start + r.size) next e)
    (odd_next : tally is_odd next ≡ 0) where
  un : is_allocated (r.state) ≡ false
  un = free-unallocated (r.state) free

  pub enter_rest-Rest :
      (sp : Option ℕ) (ix : Index)
      → Indexes sp ix (onto b next)
      → Rest sp e r size b next (enter_rest r size next ix)
  enter_rest-Rest sp ix (tr, f, c, d, n, l) = elim (Bool-cases (ltb size (r.size))) [
    | inl more ↦
        let split = unused_region (ix.fresh) (r.start + size) (r.size - size) vm_region_free in
        let later = record ix { fresh = suc (ix.fresh) } in
        let lt : size < r.size = ground arith in
        let (ix', ran, good) =
          enter_region-Succeeds sp later b split next
            (tr, f, c, d, (λ x h. n x (omega (arith, h))), tt) (n (ix.fresh) (omega arith))
            (omega arith) (λ al. absurd (false≢true al))
            (Lacks-add sp (ix.fresh) b split next l refl) in
        (
          split ∷ next,
          ix',
          rw more (running (λ ix. some (split ∷ next, ix)) ran),
          good,
          (
            refl,
            omega (arith, lt),
            omega (arith, a, ar, lt),
            subst (λ m. Tiles m next e) (omega (arith, lt)) t,
          ),
          odd_more split next refl odd_next,
          λ addr h. elim (Bool-cases (ltb addr (r.start + r.size))) [
            | inl inside ↦
                let to : addr < r.start + r.size = ground arith in
                view_here split next addr (contains split addr h (omega (arith, to, lt)))
                ∙ sym (content-free r addr free)
                ∙ sym (view_here r next addr (contains r addr (omega (arith, h)) to))
            | inr past ↦
                let ge : r.start + r.size ≤ addr = ground arith in
                view_away split next addr
                  (behind-contains split addr (omega (arith, lt)) (omega (arith, ge, lt)))
                ∙ sym (view_away r next addr (behind-contains r addr (omega (arith, lt)) ge))
          ],
        )
    | inr same ↦
        let eq : r.size ≡ size = ground arith in
        (
          next,
          ix,
          rw same refl,
          (tr, f, c, d, n, l),
          subst (λ k. Tiles (r.start + k) next e) eq t,
          odd_next,
          λ addr h. sym (
              view_away r next addr
                (behind-contains r addr (omega (arith, eq, p)) (omega (arith, h, eq)))),
        )
  ]
