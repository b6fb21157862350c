-- ===== src/AddressSpace/Insert.antt =====
-- Inserting a region in place of what its range held.
use infinity_os.Base.{
  ℕ, ◌+◌, ◌-◌, ◌%◌, ◌≤◌, ◌<◌, ◌≡◌, refl, Bool, true, false, ◌&&◌, Option, none, some, List, [], ◌∷◌,
  if◌then◌else◌, leb, ltb, ltb→lt, arith, ◌∙◌, sym, Bool-cases, inl, inr, subst,
}
use infinity_os.AddressSpace.{◌>>=◌, Region, is_allocated, Index, AddressSpace}
use infinity_os.AddressSpace.Change.{
  onto, at_range, Place, merge_behind, enter_region, put_region, insert_region,
}
use infinity_os.AddressSpace.Counts.{tally, tally-onto, is_odd, odd_more}
use infinity_os.AddressSpace.Keys.{StartsBelow, Below-keyed, Above-keyed}
use infinity_os.AddressSpace.Indexes.{Indexes, running}
use infinity_os.AddressSpace.Steps.{Fits, enter_region-Succeeds}
use infinity_os.AddressSpace.Views.{
  Content, view_outside, content, view, Tiles, Ends, Tiles-StartsFrom, contains, behind-contains,
  view_here, view_away, view-onto_behind,
}
use infinity_os.AddressSpace.Place.{Holds, Within, trim_regions-Gap}
use infinity_os.AddressSpace.Merge.{merge_before-Put, merge_behind-Put}

pub Ends-StartsBelow : (s : ℕ) (rs : List Region) (m k : ℕ) → Ends s rs m → m ≤ k → StartsBelow k rs
Ends-StartsBelow s [] m k u h = tt
Ends-StartsBelow s (r ∷ rs) m k (end, p, a, u) h =
    (omega (arith, end, p, h), Ends-StartsBelow s rs (r.start) k u (omega (arith, end, h)))

pub onto-Tiles :
    (s : ℕ) (before : List Region) (m : ℕ) (rs : List Region) (e : ℕ)
    → Ends s before m
    → Tiles m rs e
    → Tiles s (onto before rs) e
unfolding onto
onto-Tiles s [] m rs e u t = subst (λ n. Tiles n rs e) (sym u) t
onto-Tiles s (r ∷ before) m rs e (end, p, a, u) t =
    onto-Tiles s before (r.start) (r ∷ rs) e u (refl, p, a, subst (λ n. Tiles n rs e) (sym end) t)

-- The region where it was put, with a range that is wider if it was merged.
abbrev pub Inserted :
    (s e : ℕ) → Region → (before behind : List Region) → Option AddressSpace → Type 0
Inserted s e region before behind o =
    (start size : ℕ) × (b ys : List Region) × (ix : Index) × (o
      ≡ some (record { regions = onto b (at_range start size region ∷ ys); index = ix }))
    × Indexes none ix (onto b (at_range start size region ∷ ys))
    × Ends s b start
    × Tiles (start + size) ys e
    × (0 < size)
    × (size % 4096 ≡ 0)
    × (tally is_odd b ≡ 0)
    × (tally is_odd ys ≡ 0)
    × ((addr : ℕ)
        → view (onto b (at_range start size region ∷ ys)) addr
          ≡ view (onto before (region ∷ behind)) addr)
    × (is_allocated (region.state) ≡ true → (start ≡ region.start) × (size ≡ region.size))

put_region-Inserted :
    (s e : ℕ) (region : Region) (before behind : List Region) (ix : Index)
    → 0 < region.size
    → region.size % 4096 ≡ 0
    → Indexes (some (region.id)) ix (onto before behind)
    → Ends s before (region.start)
    → Tiles (region.start + region.size) behind e
    → tally is_odd before ≡ 0
    → tally is_odd behind ≡ 0
    → Inserted s e region before behind (put_region region (before, behind) ix)
put_region-Inserted s e region before behind ix p a good u t odd_b odd_y =
    let sp = some (region.id) in
    let (m, k, b1, y1, ix1, ran1, good1, u1, t1, p1, a1, odd_b1, odd_y1, eq1, whole1) =
      merge_before-Put sp s e region p a before behind ix good u t odd_b odd_y in
    let one = at_range m k region in
    let (start, size, b, ys, ix2, ran2, good2, u2, t2, p2, a2, odd_b2, odd_y2, eq2, whole2) =
      merge_behind-Put sp s e one p1 a1 b1 y1 ix1 good1 u1 t1 odd_b1 odd_y1 in
    let put = at_range start size region in
    let (old, new) = good2.5 in
    let fits : Fits b put ys = λ al. (
      Below-keyed start b (Ends-StartsBelow s b start start u2 (omega arith)),
      Above-keyed start (start + size) ys (omega (arith, p2))
          (Tiles-StartsFrom (start + size) ys e t2),
    ) in
    let (ix3, ran3, good3) =
      enter_region-Succeeds none ix2 b put ys (good2.0, good2.1, good2.2, good2.3, good2.4, tt) new
        old fits tt in
    let second = λ (q : Region × Place × Index). merge_behind (q.0) (q.1) (q.2) >>= λ w.
    enter_region (w.0.state) (w.0) (w.2) >>= λ ix.
    some (record { regions = onto (w.1.0) (w.0 ∷ w.1.1); index = ix }) in
    let third = λ (w : Region × Place × Index). enter_region (w.0.state) (w.0) (w.2) >>= λ ix.
    some (record { regions = onto (w.1.0) (w.0 ∷ w.1.1); index = ix }) in
    (
      start,
      size,
      b,
      ys,
      ix3,
      running second ran1
          ∙ running third ran2
          ∙ running (λ ix. some (record { regions = onto b (put ∷ ys); index = ix })) ran3,
      good3,
      u2,
      t2,
      p2,
      a2,
      odd_b2,
      odd_y2,
      (λ addr. eq2 addr ∙ eq1 addr),
      λ al.
          let (st, sz, sb, sy) = whole1 al in
          let (st2, sz2, sb2, sy2) = whole2 al in (st2 ∙ st, sz2 ∙ sz),
    )

abbrev pub in_range : (start size addr : ℕ) → Bool
in_range start size addr = leb start addr && ltb addr (start + size)

pub not_ltb : (a b : ℕ) → ltb a b ≡ false → b ≤ a
not_ltb a b h = ground arith

pub not_leb : (a b : ℕ) → leb a b ≡ false → b < a
not_leb a b h = ground arith

view-replaced :
    (s last : ℕ) (before behind : List Region) (region : Region) (rs : List Region)
    → Ends s before (region.start)
    → 0 < region.size
    → last + 1 ≡ region.start + region.size
    → ((ys : List Region) (addr : ℕ)
        → s ≤ addr
        → addr < region.start
        → view (onto before ys) addr ≡ view rs addr)
    → ((addr : ℕ) → last < addr → view behind addr ≡ view rs addr)
    → (addr : ℕ) → s ≤ addr
    → view (onto before (region ∷ behind)) addr
      ≡ (if in_range (region.start) (region.size) addr then content region addr else view rs addr)
view-replaced s last before behind region rs u p end left right addr h =
    elim (Bool-cases (leb (region.start) addr)) [
      | inl le ↦
          let from : region.start ≤ addr = ground arith in
          let here = view-onto_behind s before (region.start) (region ∷ behind) addr u from in
          elim (Bool-cases (ltb addr (region.start + region.size))) [
            | inl lt ↦
                let c = contains region addr from (ltb→lt addr (region.start + region.size) lt) in
                rw (le, lt) (here ∙ view_here region behind addr c)
            | inr ge ↦
                let past = not_ltb addr (region.start + region.size) ge in
                rw (le, ge)
                  (here
                    ∙ view_away region behind addr (behind-contains region addr p past)
                    ∙ right addr (omega (arith, past, p, end)))
          ]
      | inr gt ↦ rw gt (left (region ∷ behind) addr h (not_leb (region.start) addr gt))
    ]

-- A region is in place of what was in its range, and nothing else has changed.
abbrev pub Replaces : (s e : ℕ) → Region → AddressSpace → Option AddressSpace → Type 0
Replaces s e region space o =
    (before behind : List Region) × Inserted s e region before behind o
    × ((addr : ℕ)
        → s ≤ addr
        → view (onto before (region ∷ behind)) addr ≡ (
            if in_range (region.start) (region.size) addr
            then content region addr
            else view (space.regions) addr))

pub insert_region-Replaces :
    (s e : ℕ) (region : Region) (space : AddressSpace)
    → s % 4096 ≡ 0
    → Holds (some (region.id)) s e space
    → Within s e (region.start) (region.size)
    → Replaces s e region space (insert_region region space)
unfolding insert_region
insert_region-Replaces s e region space al holds (low, high, p, from, to) =
    let (before, behind, ix, ran, good, u, t, odd_b, odd_y, left, right) =
      trim_regions-Gap (some (region.id)) s e (region.start) (region.size) space al holds
        (low, high, p, from, to) in
    let t' = subst (λ n. Tiles n behind e) (omega (arith, p)) t in
    let put = put_region-Inserted s e region before behind ix p high good u t' odd_b odd_y in
    (
      before,
      behind,
      subst (Inserted s e region before behind)
          (sym (running (λ q. put_region region (q.0) (q.1)) ran)) put,
      view-replaced s (region.start + region.size - 1) before behind region (space.regions) u p
          (omega (arith, p)) left right,
    )

-- The invariant of an address space: its regions follow each other from its start to its end, the
-- structures that find them agree with them, and no assertion refuses them.
abbrev pub IsValid : (s e : ℕ) → AddressSpace → Type 0
IsValid s e space = Holds none s e space

-- The new state, and what stands at each address.
abbrev pub Becomes : (s e : ℕ) → Region → AddressSpace → Option AddressSpace → Type 0
Becomes s e region space o =
    (space' : AddressSpace) × (o ≡ some space')
    × IsValid s e space'
    × ((addr : ℕ)
        → view (space'.regions) addr ≡ (
            if in_range (region.start) (region.size) addr
            then content region addr
            else view (space.regions) addr))

tally-odd :
    (b ys : List Region) (r : Region)
    → tally is_odd b ≡ 0
    → tally is_odd ys ≡ 0
    → is_odd r ≡ false
    → tally is_odd (onto b (r ∷ ys)) ≡ 0
tally-odd b ys r odd_b odd_y plain =
    tally-onto is_odd b (r ∷ ys)
    ∙ (let more = odd_more r ys plain odd_y in omega (arith, odd_b, more))

-- Outside an address space nothing stands before and after a change.
pub everywhere :
    (s e start size : ℕ) (new : ℕ → Content) (rs' rs : List Region)
    → Tiles s rs' e
    → Tiles s rs e
    → s ≤ start
    → ((addr : ℕ)
        → s ≤ addr
        → view rs' addr ≡ (if in_range start size addr then new addr else view rs addr))
    → (addr : ℕ) → view rs' addr ≡ (if in_range start size addr then new addr else view rs addr)
everywhere s e start size new rs' rs t' t h same addr = elim (Bool-cases (leb s addr)) [
  | inl le ↦ same addr (ground arith)
  | inr gt ↦
      let lt = not_leb s addr gt in
      let away : leb start addr ≡ false = ground arith in
      rw away (view_outside rs' s e addr t' lt ∙ sym (view_outside rs s e addr t lt))
]

-- A region takes the place of what was in its range, whatever stood there.
pub insert_region-Becomes :
    (s e : ℕ) (region : Region) (space : AddressSpace)
    → s % 4096 ≡ 0
    → Holds (some (region.id)) s e space
    → Within s e (region.start) (region.size)
    → is_odd region ≡ false
    → Becomes s e region space (insert_region region space)
insert_region-Becomes s e region space al holds within plain =
    let (
      before,
      behind,
      (start, size, b, ys, ix, ran, good, u, t, p, a, odd_b, odd_y, same, whole),
      eq,
    ) =
      insert_region-Replaces s e region space al holds within in
    let put = at_range start size region in
    let tiles = onto-Tiles s b start (put ∷ ys) e u (refl, p, a, t) in
    (
      record { regions = onto b (put ∷ ys); index = ix },
      ran,
      (tiles, good, tally-odd b ys put odd_b odd_y plain),
      everywhere s e (region.start) (region.size) (content region) (onto b (put ∷ ys))
          (space.regions) tiles (holds.0) (within.3) (λ addr h. same addr ∙ eq addr h),
    )
