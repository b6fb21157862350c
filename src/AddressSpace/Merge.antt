-- ===== src/AddressSpace/Merge.antt =====
-- Merging an unused region with its neighbours.
use infinity_os.Base.{
  ℕ, ◌+◌, ◌%◌, ◌≤◌, ◌<◌, ◌≡◌, refl, true, false, not, ◌&&◌, Option, some, List, [], ◌∷◌,
  if◌then◌else◌, ltb, ◌==◌, arith, ap, ◌∙◌, sym, Bool-cases, inl, inr, subst,
}
use mathlib.Core.Bool.{false≢true, true≢false}
use infinity_os.AddressSpace.{
  Region, RegionState, vm_region_free, vm_region_allocated, vm_region_reserved, is_allocated,
  same_state, Index, vm_region_mergeable, vm_region_contains,
}
use infinity_os.AddressSpace.Change.{onto, at_range, Place, merge_before, merge_behind}
use infinity_os.AddressSpace.Counts.{tally, is_odd, odd_none}
use infinity_os.AddressSpace.Indexes.{Indexes, running, vm_region_destroy-Succeeds}
use infinity_os.AddressSpace.Views.{
  unused, content, view, Tiles, Ends, contains, before-contains, behind-contains, view_here,
  view_away,
}

same_state-eq :
    (s t : RegionState)
    → (not (is_allocated s) && same_state s t) ≡ true
    → (is_allocated s ≡ false) × (s ≡ t)
same_state-eq vm_region_free vm_region_free h = (refl, refl)
same_state-eq vm_region_free vm_region_allocated h = absurd (false≢true h)
same_state-eq vm_region_free vm_region_reserved h = absurd (false≢true h)
same_state-eq vm_region_allocated t h = absurd (false≢true h)
same_state-eq vm_region_reserved vm_region_free h = absurd (false≢true h)
same_state-eq vm_region_reserved vm_region_allocated h = absurd (false≢true h)
same_state-eq vm_region_reserved vm_region_reserved h = (refl, refl)

pub mergeable-eq :
    (a b : Region)
    → vm_region_mergeable a b ≡ true
    → (is_allocated (a.state) ≡ false) × (a.state ≡ b.state)
unfolding vm_region_mergeable
mergeable-eq a b h = same_state-eq (a.state) (b.state) h

content_unused :
    (r : Region) (addr : ℕ) → is_allocated (r.state) ≡ false → content r addr ≡ unused (r.state)
content_unused r addr un = rw un refl

-- Two unused regions that follow each other, and one in their place.
view-merge :
    (p q whole : Region) (ys : List Region) (addr : ℕ)
    → p.start + p.size ≡ q.start
    → 0 < p.size
    → 0 < q.size
    → whole.start ≡ p.start
    → whole.size ≡ p.size + q.size
    → is_allocated (whole.state) ≡ false
    → whole.state ≡ p.state
    → whole.state ≡ q.state
    → view (whole ∷ ys) addr ≡ view (p ∷ q ∷ ys) addr
view-merge p q whole ys addr next pp pq start size un same_p same_q =
    elim (Bool-cases (ltb addr (p.start))) [
      | inl below ↦
          let lt : addr < p.start = ground arith in
          view_away whole ys addr (before-contains whole addr (omega (arith, lt, start)))
          ∙ sym (view_away q ys addr (before-contains q addr (omega (arith, lt, next))))
          ∙ sym (view_away p (q ∷ ys) addr (before-contains p addr lt))
      | inr from ↦
          let le : p.start ≤ addr = ground arith in
          elim (Bool-cases (ltb addr (q.start))) [
            | inl in_p ↦
                let lt : addr < q.start = ground arith in
                view_here whole ys addr (
                  contains whole addr (omega (arith, le, start))
                    (omega (arith, lt, start, size, next, pq)))
                ∙ content_unused whole addr un
                ∙ ap unused same_p
                ∙ sym (content_unused p addr (ap is_allocated (sym same_p) ∙ un))
                ∙ sym (view_here p (q ∷ ys) addr (contains p addr le (omega (arith, lt, next))))
            | inr from_q ↦
                let le_q : q.start ≤ addr = ground arith in
                let not_p =
                  view_away p (q ∷ ys) addr
                    (behind-contains p addr pp (omega (arith, le_q, next))) in
                elim (Bool-cases (ltb addr (q.start + q.size))) [
                  | inl in_q ↦
                      let lt : addr < q.start + q.size = ground arith in
                      view_here whole ys addr (
                        contains whole addr (omega (arith, le, start))
                          (omega (arith, lt, start, size, next)))
                      ∙ content_unused whole addr un
                      ∙ ap unused same_q
                      ∙ sym (content_unused q addr (ap is_allocated (sym same_q) ∙ un))
                      ∙ sym (view_here q ys addr (contains q addr le_q lt))
                      ∙ sym not_p
                  | inr behind ↦
                      let ge : q.start + q.size ≤ addr = ground arith in
                      view_away whole ys addr (
                        behind-contains whole addr (omega (arith, size, pp))
                          (omega (arith, ge, start, size, next)))
                      ∙ sym (view_away q ys addr (behind-contains q addr pq ge))
                      ∙ sym not_p
                ]
          ]
    ]

pub view-onto :
    (before xs ys : List Region) (addr : ℕ)
    → view xs addr ≡ view ys addr
    → view (onto before xs) addr ≡ view (onto before ys) addr
unfolding onto view
view-onto [] xs ys addr e = e
view-onto (r ∷ before) xs ys addr e =
    view-onto before (r ∷ xs) (r ∷ ys) addr
      (ap (λ v. if vm_region_contains r addr then content r addr else v) e)

-- A region between the others, in place of one.
abbrev pub Put :
    Option ℕ
    → (s e : ℕ) → (region : Region) → (before behind : List Region)
    → Option (Region × Place × Index)
    → Type 0
Put sp s e region before behind o =
    (start size : ℕ) × (b ys : List Region) × (ix : Index) × (o
      ≡ some (at_range start size region, (b, ys), ix))
    × Indexes sp ix (onto b ys)
    × Ends s b start
    × Tiles (start + size) ys e
    × (0 < size)
    × (size % 4096 ≡ 0)
    × (tally is_odd b ≡ 0)
    × (tally is_odd ys ≡ 0)
    × ((addr : ℕ)
        → view (onto b (at_range start size region ∷ ys)) addr
          ≡ view (onto before (region ∷ behind)) addr)
    × (is_allocated (region.state) ≡ true
        → (start ≡ region.start) × (size ≡ region.size) × (b ≡ before) × (ys ≡ behind))

allocated_alone :
    (r exist : Region) → is_allocated (r.state) ≡ true → vm_region_mergeable r exist ≡ false
unfolding vm_region_mergeable
allocated_alone r exist al = rw al refl

module _ (sp : Option ℕ) (s e : ℕ) (region : Region) (p : 0 < region.size)
    (a : region.size % 4096 ≡ 0) where
  pub merge_before-Put :
      (before behind : List Region) (ix : Index)
      → Indexes sp ix (onto before behind)
      → Ends s before (region.start)
      → Tiles (region.start + region.size) behind e
      → tally is_odd before ≡ 0
      → tally is_odd behind ≡ 0
      → Put sp s e region before behind (merge_before region (before, behind) ix)
  unfolding onto
  merge_before-Put [] behind ix good u t odd_b odd_y = (
    region.start,
    region.size,
    [],
    behind,
    ix,
    refl,
    good,
    u,
    t,
    p,
    a,
    odd_b,
    odd_y,
    (λ addr. refl),
    λ al. (refl, refl, refl, refl),
  )
  merge_before-Put (exist ∷ before) behind ix good (end, pe, ae, u) t odd_b odd_y =
      let meets : (exist.start + exist.size == region.start) ≡ true = ground arith in
      let (plain, rest_plain) = odd_none exist before odd_b in
      elim (Bool-cases (vm_region_mergeable region exist)) [
        | inl merges ↦
            let (un, same) = mergeable-eq region exist merges in
            let (ix', ran, good') =
              vm_region_destroy-Succeeds sp ix before exist behind good plain in
            let whole = at_range (exist.start) (region.size + exist.size) region in
            (
              exist.start,
              region.size + exist.size,
              before,
              behind,
              ix',
              rw (meets, merges) (running (λ ix. some (whole, (before, behind), ix)) ran),
              good',
              u,
              subst (λ n. Tiles n behind e) (omega (arith, end)) t,
              omega (arith, p),
              omega (arith, a, ae),
              rest_plain,
              odd_y,
              (λ addr. view-onto before (whole ∷ behind) (exist ∷ region ∷ behind) addr (
                  view-merge exist region whole behind addr end pe p refl (omega arith) un same
                    refl)),
              λ al. absurd (true≢false (sym al ∙ un)),
            )
        | inr stays ↦ (
          region.start,
          region.size,
          exist ∷ before,
          behind,
          ix,
          rw (meets, stays) refl,
          good,
          (end, pe, ae, u),
          t,
          p,
          a,
          odd_b,
          odd_y,
          (λ addr. refl),
          λ al. (refl, refl, refl, refl),
        )
      ]

  pub merge_behind-Put :
      (before behind : List Region) (ix : Index)
      → Indexes sp ix (onto before behind)
      → Ends s before (region.start)
      → Tiles (region.start + region.size) behind e
      → tally is_odd before ≡ 0
      → tally is_odd behind ≡ 0
      → Put sp s e region before behind (merge_behind region (before, behind) ix)
  merge_behind-Put before [] ix good u t odd_b odd_y = (
    region.start,
    region.size,
    before,
    [],
    ix,
    refl,
    good,
    u,
    t,
    p,
    a,
    odd_b,
    odd_y,
    (λ addr. refl),
    λ al. (refl, refl, refl, refl),
  )
  merge_behind-Put before (exist ∷ behind) ix good u (st, pe, ae, t) odd_b odd_y =
      let meets : (exist.start == region.start + region.size) ≡ true = ground arith in
      let (plain, rest_plain) = odd_none exist behind odd_y in
      elim (Bool-cases (vm_region_mergeable region exist)) [
        | inl merges ↦
            let (un, same) = mergeable-eq region exist merges in
            let (ix', ran, good') =
              vm_region_destroy-Succeeds sp ix before exist behind good plain in
            let whole = at_range (region.start) (region.size + exist.size) region in
            (
              region.start,
              region.size + exist.size,
              before,
              behind,
              ix',
              rw (meets, merges) (running (λ ix. some (whole, (before, behind), ix)) ran),
              good',
              u,
              subst (λ n. Tiles n behind e) (omega arith) t,
              omega (arith, p),
              omega (arith, a, ae),
              odd_b,
              rest_plain,
              (λ addr.
                  view-onto before (whole ∷ behind) (region ∷ exist ∷ behind) addr (
                    view-merge region exist whole behind addr (sym st) p pe refl refl un refl
                      same)),
              λ al. absurd (true≢false (sym al ∙ un)),
            )
        | inr stays ↦ (
          region.start,
          region.size,
          before,
          exist ∷ behind,
          ix,
          rw (meets, stays) refl,
          good,
          u,
          (st, pe, ae, t),
          p,
          a,
          odd_b,
          odd_y,
          (λ addr. refl),
          λ al. (refl, refl, refl, refl),
        )
      ]
