-- ===== src/AddressSpace/Rounds.antt =====
-- The rounds of the loop that cuts a range out of the regions.
use infinity_os.Base.{
  ℕ, ◌+◌, ◌-◌, ◌%◌, ◌≤◌, ◌<◌, ◌≡◌, refl, true, false, ◌&&◌, Option, some, List, [], ◌∷◌, ◌++◌, leb,
  ◌==◌, min, max, arith, ap, ◌∙◌, sym, Bool-cases, inl, inr, subst, ==_refl,
}
use infinity_os.AddressSpace.{◌>>=◌, Region, Index}
use infinity_os.AddressSpace.Change.{
  onto, at_range, moved, top_half, trim_from, trim_region, go_on, vm_region_destroy, resize_region,
  one_part, two_parts,
}
use infinity_os.AddressSpace.Counts.{tally, is_odd, odd_none, odd_more}
use infinity_os.AddressSpace.Keys.{StartsFrom}
use infinity_os.AddressSpace.Indexes.{
  Indexes, with_calls, running, unmap_part-calls, vm_region_destroy-Succeeds,
}
use infinity_os.AddressSpace.Steps.{Fits_behind, split_region-Makes}
use infinity_os.AddressSpace.Resize.{resize_region-Makes}
use infinity_os.AddressSpace.Views.{
  StartsFrom-le, view, Tiles, Tiles-StartsFrom, behind-contains, view_away, view-cut_front,
}

abbrev pub region_end : Region → ℕ
region_end r = r.start + r.size - 1

module _ (start end : ℕ) (r : Region) (next : List Region) (ix : Index) where
  round_stop :
      leb (min end (region_end r)) (max start (r.start)) ≡ true
      → trim_from start end (r ∷ next) ix ≡ some (r ∷ next, ix)
  unfolding trim_from
  round_stop h = rw h refl

  module _ (more : leb (min end (region_end r)) (max start (r.start)) ≡ false) where
    round_whole :
        ((max start (r.start) == r.start) && (min end (region_end r) == region_end r)) ≡ true
        → trim_from start end (r ∷ next) ix
          ≡ (vm_region_destroy r ix >>= λ ix. trim_from start end next ix)
    unfolding trim_from
    round_whole h = rw (more, h) refl

    pub round_part :
        (first last : ℕ)
        → ((max start (r.start) == r.start) && (min end (region_end r) == region_end r)) ≡ false
        → max start (r.start) ≡ first
        → min end (region_end r) ≡ last
        → trim_from start end (r ∷ next) ix ≡ (
            trim_region r first last ix >>= λ (parts, ix).
            go_on parts (trim_from start end next) next ix)
    unfolding trim_from
    round_part first last h f l = rw (more, h, f, l) refl

-- Nothing overlaps behind the range.
trim_from_past :
    (start end : ℕ) (rs : List Region) (m e : ℕ) (ix : Index)
    → Tiles m rs e
    → end ≤ m
    → trim_from start end rs ix ≡ some (rs, ix)
unfolding trim_from
trim_from_past start end [] m e ix t h = refl
trim_from_past start end (r ∷ next) m e ix (s, p, a, t) h =
    round_stop start end r next ix (ground arith)

abbrev pub cut : Region → (start size : ℕ) → Region
cut r start size = at_range start size (moved r start)

-- What is left of a region.
abbrev pub Parts : Option ℕ → (before ps ys : List Region) → Option (List Region × Index) → Type 0
Parts sp before ps ys o =
    (ix : Index) × (o ≡ some (ps, ix)) × Indexes sp ix (onto before (ps ++ ys))

module _ (sp : Option ℕ) (ix : Index) (before : List Region) (r : Region) (ys : List Region)
    (good : Indexes sp ix (onto before (r ∷ ys))) (sound : is_odd r ≡ false)
    (next : StartsFrom (r.start + r.size) ys) (p : 0 < r.size) where
  front-Parts :
      (last : ℕ)
      → r.start ≤ last
      → last + 1 < r.start + r.size
      → Parts sp before
          (cut r (last + 1) (region_end r - last) ∷ [])
          ys
          (trim_region r (r.start) last ix)
  unfolding trim_region
  front-Parts last h k =
      let (cs, quiet) = unmap_part-calls r (r.start) (last - r.start + 1) ix sound in
      let (ix', ran, good') =
        resize_region-Makes before r ys (last + 1) (region_end r - last) sp (with_calls ix cs)
          (r.start + r.size) good sound (omega (arith, h)) k next in
      (
        ix',
        rw (==_refl (r.start)) (
            running (λ ix. one_part (resize_region r (last + 1) (region_end r - last) ix)) quiet
            ∙ ap one_part ran),
        good',
      )

  pub back-Parts :
      (first : ℕ)
      → r.start < first
      → first < r.start + r.size
      → Parts sp before
          (cut r (r.start) (first - r.start) ∷ [])
          ys
          (trim_region r first (region_end r) ix)
  unfolding trim_region
  back-Parts first h k =
      let (cs, quiet) = unmap_part-calls r first (region_end r - first + 1) ix sound in
      let inside : (first == r.start) ≡ false = ground arith in
      let (ix', ran, good') =
        resize_region-Makes before r ys (r.start) (first - r.start) sp (with_calls ix cs)
          (r.start + r.size) good sound (omega arith) (omega (arith, p)) next in
      (
        ix',
        rw (inside, ==_refl (region_end r))
            (running (λ ix. one_part (resize_region r (r.start) (first - r.start) ix)) quiet
              ∙ ap one_part ran),
        good',
      )

  pub both-Parts :
      (first last : ℕ)
      → r.start < first
      → first ≤ last
      → last + 1 < r.start + r.size
      → (id : ℕ) × Parts sp before
          (cut r (r.start) (first - r.start) ∷ top_half r id (last + 1) (region_end r - last) ∷ [])
          ys
          (trim_region r first last ix)
  unfolding trim_region onto
  both-Parts first last h l k =
      let (cs, quiet) = unmap_part-calls r first (last - first + 1) ix sound in
      let inside : (first == r.start) ≡ false = ground arith in
      let below : (last == region_end r) ≡ false = ground arith in
      let split = top_half r (ix.fresh) (last + 1) (region_end r - last) in
      let (ix1, ran, good1) =
        split_region-Makes sp (with_calls ix cs) (r ∷ before) r ys (last + 1) (region_end r - last)
          good
          (λ a.
            Fits_behind (ix.tree) before r ys (last + 1) (good.0) (omega (arith, h, l)) a k next) in
      let (ix2, ran2, good2) =
        resize_region-Makes before r (split ∷ ys) (r.start) (first - r.start) sp ix1 (last + 1)
          good1 sound (omega arith) (omega (arith, h, l))
          (omega arith, StartsFrom-le (last + 1) (r.start + r.size) ys (omega (arith, k)) next) in
      let shrink = λ (q : Region × Index).
        resize_region r (r.start) (first - r.start) (q.1) >>= λ w. some (w.0 ∷ q.0 ∷ [], w.1) in
      let finish = λ (w : Region × Index). some (w.0 ∷ split ∷ [], w.1) in
      (
        ix.fresh,
        (
          ix2,
          rw (inside, below)
              (running (λ ix. two_parts r first last ix) quiet
                ∙ running shrink ran
                ∙ running finish ran2),
          good2,
        ),
      )

-- What the rounds leave of some regions: the part behind the range.
abbrev pub Cuts :
    Option ℕ → (end : ℕ) (before rs : List Region) (e : ℕ) → Option (List Region × Index) → Type 0
Cuts sp end before rs e o =
    (rest : List Region) × (ix : Index) × (o ≡ some (rest, ix))
    × Indexes sp ix (onto before rest)
    × Tiles (end + 1) rest e
    × (tally is_odd rest ≡ 0)
    × ((addr : ℕ) → end < addr → view rest addr ≡ view rs addr)

module _ (sp : Option ℕ) (start end e : ℕ) (aligned : (end + 1) % 4096 ≡ 0) (whole : end < e) where
  module _ (before : List Region) (r : Region) (next : List Region) (ix : Index) (p : 0 < r.size)
      (a : r.size % 4096 ≡ 0) (al : r.start % 4096 ≡ 0) (t : Tiles (r.start + r.size) next e)
      (h : start ≤ r.start) (k : r.start ≤ end) (good : Indexes sp ix (onto before (r ∷ next)))
      (sound : tally is_odd (r ∷ next) ≡ 0) where
    overlaps : leb (min end (region_end r)) (max start (r.start)) ≡ false
    overlaps =
        let big : 4096 ≤ r.size = omega (arith, p, a) in
        let room : r.start + 4096 ≤ end + 1 = omega (arith, k, al, aligned) in ground arith

    -- The range ends inside the region.
    front_round :
        end + 1 < r.start + r.size
        → Cuts sp end before (r ∷ next) e (trim_from start end (r ∷ next) ix)
    front_round lt =
        let size = region_end r - end in
        let part = cut r (end + 1) size in
        let (plain, rest_plain) = odd_none r next sound in
        let (ix', ran, good') =
          front-Parts sp ix before r next good plain (Tiles-StartsFrom (r.start + r.size) next e t)
            p end k lt in
        let past = trim_from_past start end next (r.start + r.size) e ix' t (omega (arith, lt)) in
        let first : max start (r.start) ≡ r.start = omega (arith, h) in
        let last : min end (region_end r) ≡ end = omega (arith, lt) in
        let part_only : ((max start (r.start) == r.start)
              && (min end (region_end r) == region_end r))
            ≡ false =
          (let other : (end == region_end r) ≡ false = ground arith in
            rw (first, last, ==_refl (r.start)) other) in
        (
          part ∷ next,
          ix',
          round_part start end r next ix overlaps (r.start) end part_only first last
              ∙ running (λ q. go_on (q.0) (trim_from start end next) next (q.1)) ran
              ∙ running (λ q. some (part ∷ q.0, q.1)) past,
          good',
          (
            refl,
            omega (arith, lt),
            omega (arith, aligned, al, a, lt),
            subst (λ n. Tiles n next e) (omega (arith, lt)) t,
          ),
          odd_more part next plain rest_plain,
          λ addr b.
              view-cut_front r next (end + 1) size addr (omega (arith, k)) (omega (arith, lt))
                (omega (arith, lt)) (omega (arith, b)),
        )

    -- The range covers the region.
    whole_round :
        r.start + r.size ≤ end + 1
        → ((ix : Index)
            → Indexes sp ix (onto before next)
            → Cuts sp end before next e (trim_from start end next ix))
        → Cuts sp end before (r ∷ next) e (trim_from start end (r ∷ next) ix)
    whole_round le loop =
        let (plain, rest_plain) = odd_none r next sound in
        let (ix', ran, good') = vm_region_destroy-Succeeds sp ix before r next good plain in
        let first : max start (r.start) ≡ r.start = omega (arith, h) in
        let last : min end (region_end r) ≡ region_end r = omega (arith, le) in
        let all : ((max start (r.start) == r.start) && (min end (region_end r) == region_end r))
            ≡ true =
          rw (first, last, ==_refl (r.start)) (==_refl (region_end r)) in
        let (rest, ix2, ran2, good2, tiles, odd, same) = loop ix' good' in
        (
          rest,
          ix2,
          round_whole start end r next ix overlaps all
              ∙ running (trim_from start end next) ran
              ∙ ran2,
          good2,
          tiles,
          odd,
          λ addr b.
              same addr b
              ∙ sym (view_away r next addr (behind-contains r addr p (omega (arith, le, b)))),
        )

  pub later :
      (before : List Region) (rs : List Region) (m : ℕ) (ix : Index)
      → Tiles m rs e
      → m % 4096 ≡ 0
      → start ≤ m
      → m ≤ end + 1
      → Indexes sp ix (onto before rs)
      → tally is_odd rs ≡ 0
      → Cuts sp end before rs e (trim_from start end rs ix)
  later before [] m ix t al h k good sound =
      ([], ix, unfold trim_from in refl, good, omega (arith, t, k, whole), sound, λ addr q. refl)
  later before (r ∷ next) m ix (s, p, a, t) al h k good sound =
      elim (Bool-cases (leb (end + 1) m)) [
        | inl q ↦
            let same : m ≡ end + 1 = ground arith in
            (
              r ∷ next,
              ix,
              round_stop start end r next ix (ground arith),
              good,
              subst (λ n. Tiles n (r ∷ next) e) same (s, p, a, t),
              sound,
              λ addr b. refl,
            )
        | inr q ↦
            let inside : r.start ≤ end = ground arith in
            let al' : r.start % 4096 ≡ 0 = ap (λ n. n % 4096) s ∙ al in
            let t' = subst (λ n. Tiles (n + r.size) next e) (sym s) t in
            let h' : start ≤ r.start = omega (arith, s, h) in
            elim (Bool-cases (leb (m + r.size) (end + 1))) [
              | inl w ↦
                  let le : m + r.size ≤ end + 1 = ground arith in
                  whole_round before r next ix p a al' t' h' inside good sound
                    (omega (arith, le, s))
                    (λ ix' good'.
                      later before next (m + r.size) ix' t (omega (arith, al, a)) (omega (arith, h))
                        le good' ((odd_none r next sound).1))
              | inr w ↦ front_round before r next ix p a al' t' h' inside good sound (ground arith)
            ]
      ]
