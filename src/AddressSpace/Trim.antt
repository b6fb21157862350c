-- ===== src/AddressSpace/Trim.antt =====
-- Cutting a range out of an address space.
use infinity_os.Base.{
  ℕ, ◌+◌, ◌-◌, ◌%◌, ◌≤◌, ◌<◌, ◌≡◌, refl, Bool, true, false, ◌&&◌, Option, some, List, ◌∷◌, leb, ltb,
  ◌==◌, min, max, arith, ap, ◌∙◌, sym, Bool-cases, inl, inr, subst,
}
use infinity_os.AddressSpace.{◌>>=◌, Region, Index}
use infinity_os.AddressSpace.Change.{
  onto, top_half, trim_from, go_on, Place, trimmed_place, trim_at,
}
use infinity_os.AddressSpace.Counts.{tally, is_odd, odd_none, odd_more}
use infinity_os.AddressSpace.Indexes.{Indexes, running}
use infinity_os.AddressSpace.Views.{
  view, Tiles, Ends, Tiles-StartsFrom, contains, behind-contains, view_here, view_away,
  content-moved, view-top_half, view-onto_behind, view-onto_before,
}
use infinity_os.AddressSpace.Rounds.{region_end, cut, back-Parts, both-Parts, round_part, later}

-- A range is cut out of all regions: what is left ends where it starts, and goes on where it ends,
-- and nothing has changed there.
abbrev pub Gap : Option ℕ → (s start end e : ℕ) (rs : List Region) → Option (Place × Index) → Type 0
Gap sp s start end e rs o =
    (before behind : List Region) × (ix : Index) × (o ≡ some ((before, behind), ix))
    × Indexes sp ix (onto before behind)
    × Ends s before start
    × Tiles (end + 1) behind e
    × (tally is_odd before ≡ 0)
    × (tally is_odd behind ≡ 0)
    × ((ys : List Region) (addr : ℕ)
        → s ≤ addr
        → addr < start
        → view (onto before ys) addr ≡ view rs addr)
    × ((addr : ℕ) → end < addr → view behind addr ≡ view rs addr)

module _ (sp : Option ℕ) (s start end e : ℕ) (low : start % 4096 ≡ 0) (high : (end + 1) % 4096 ≡ 0)
    (some_room : start ≤ end) (inside : end < e) where
  module _ (before : List Region) (r : Region) (next : List Region) (ix : Index)
      (u : Ends s before (r.start)) (p : 0 < r.size) (a : r.size % 4096 ≡ 0)
      (al : r.start % 4096 ≡ 0) (t : Tiles (r.start + r.size) next e)
      (good : Indexes sp ix (onto before (r ∷ next))) (plain_before : tally is_odd before ≡ 0)
      (sound : tally is_odd (r ∷ next) ≡ 0) where
    -- The range starts with the region.
    at_start :
        start ≡ r.start
        → Gap sp s start end e (onto before (r ∷ next)) (trim_at start end (before, r, next) ix)
    at_start same =
        let (rest, ix', ran, good', tiles, odd, eq) =
          later sp start end e high inside before (r ∷ next) (r.start) ix (refl, p, a, t) al
            (omega (arith, same)) (omega (arith, same, some_room)) good sound in
        let first : (r.start == start) ≡ true = ground arith in
        (
          before,
          rest,
          ix',
          running (λ q. trimmed_place (r.start == start) before (q.0) >>= λ w. some (w, q.1)) ran
              ∙ ap (λ b. trimmed_place b before rest >>= λ w. some (w, ix')) first,
          good',
          subst (Ends s before) (sym same) u,
          tiles,
          plain_before,
          odd,
          (λ ys addr h k.
              view-onto_before s before (r.start) ys (r ∷ next) addr u h (omega (arith, k, same))),
          λ addr h.
              eq addr h
              ∙ sym (
                  view-onto_behind s before (r.start) (r ∷ next) addr u
                    (omega (arith, h, some_room, same))),
        )

    module _ (lt : r.start < start) (in_it : start < r.start + r.size) where
      abbrev bottom : Region
      bottom = cut r (r.start) (start - r.start)

      bottom-Ends : Ends s (bottom ∷ before) start
      bottom-Ends = (omega (arith, lt), omega (arith, lt), omega (arith, low, al, lt), u)

      view-bottom :
          (ys : List Region) (addr : ℕ)
          → s ≤ addr
          → addr < start
          → view (onto (bottom ∷ before) ys) addr ≡ view (onto before (r ∷ next)) addr
      unfolding onto
      view-bottom ys addr h k = elim (Bool-cases (ltb addr (r.start))) [
        | inl q ↦
            view-onto_before s before (r.start) (bottom ∷ ys) (r ∷ next) addr u h (ground arith)
        | inr q ↦
            let from : r.start ≤ addr = ground arith in
            view-onto_behind s before (r.start) (bottom ∷ ys) addr u from
            ∙ view_here bottom ys addr (contains bottom addr from (omega (arith, k, lt)))
            ∙ content-moved r (r.start) (start - r.start) addr (omega arith) from
            ∙ sym (view_here r next addr (contains r addr from (omega (arith, k, in_it))))
            ∙ sym (view-onto_behind s before (r.start) (r ∷ next) addr u from)
      ]

      not_first : (r.start == start) ≡ false
      not_first = ground arith

      placed_at :
          (rest : List Region) (ix' : Index)
          → trim_from start end (r ∷ next) ix ≡ some (bottom ∷ rest, ix')
          → trim_at start end (before, r, next) ix ≡ some ((bottom ∷ before, rest), ix')
      placed_at rest ix' ran =
          running (λ q. trimmed_place (r.start == start) before (q.0) >>= λ w. some (w, q.1)) ran
          ∙ ap (λ b. trimmed_place b before (bottom ∷ rest) >>= λ w. some (w, ix')) not_first

      first_lem : max start (r.start) ≡ start
      first_lem = omega (arith, lt)

      overlap :
          (last : ℕ)
          → min end (region_end r) ≡ last
          → leb last start ≡ false
          → leb (min end (region_end r)) (max start (r.start)) ≡ false
      overlap last l h = rw (first_lem, l) h

      part_only : (b : Bool) → ((max start (r.start) == r.start) && b) ≡ false
      part_only b =
          let other : (start == r.start) ≡ false = ground arith in rw (first_lem, other) refl

      sound_lem : (is_odd r ≡ false) × (tally is_odd next ≡ 0)
      sound_lem = odd_none r next sound

      -- The range ends behind the region, or with it.
      at_end :
          r.start + r.size ≤ end + 1
          → Gap sp s start end e (onto before (r ∷ next)) (trim_at start end (before, r, next) ix)
      unfolding onto
      at_end le =
          let last : min end (region_end r) ≡ region_end r = omega (arith, le) in
          let room : r.start + r.size ≡ start + (r.start + r.size - start) = omega (arith, in_it) in
          let some_left : leb (region_end r) start ≡ false =
            (let far : start + 4096 ≤ r.start + r.size = omega (arith, in_it, low, al, a) in
              ground arith) in
          let (ix1, ran, good1) =
            back-Parts sp ix before r next good (sound_lem.0)
              (Tiles-StartsFrom (r.start + r.size) next e t) p start lt in_it in
          let (rest, ix2, ran2, good2, tiles, odd, eq) =
            later sp start end e high inside (bottom ∷ before) next (r.start + r.size) ix1 t
              (omega (arith, al, a)) (omega (arith, in_it)) le good1 (sound_lem.1) in
          (
            bottom ∷ before,
            rest,
            ix2,
            placed_at rest ix2 (
                round_part start end r next ix (overlap (region_end r) last some_left) start
                  (region_end r) (part_only (min end (region_end r) == region_end r)) first_lem last
                ∙ running (λ q. go_on (q.0) (trim_from start end next) next (q.1)) ran
                ∙ running (λ q. some (bottom ∷ q.0, q.1)) ran2),
            good2,
            bottom-Ends,
            tiles,
            odd_more bottom before (sound_lem.0) plain_before,
            odd,
            view-bottom,
            λ addr h.
                eq addr h
                ∙ sym (view_away r next addr (behind-contains r addr p (omega (arith, le, h))))
                ∙ sym (
                    view-onto_behind s before (r.start) (r ∷ next) addr u
                      (omega (arith, lt, h, some_room))),
          )

      -- The range ends inside the region.
      in_middle :
          end + 1 < r.start + r.size
          → Gap sp s start end e (onto before (r ∷ next)) (trim_at start end (before, r, next) ix)
      unfolding onto
      in_middle more =
          let last : min end (region_end r) ≡ end = omega (arith, more) in
          let some_left : leb end start ≡ false =
            (let far : start + 4096 ≤ end + 1 = omega (arith, some_room, low, high) in
              ground arith) in
          let (id, (ix1, ran, good1)) =
            both-Parts sp ix before r next good (sound_lem.0)
              (Tiles-StartsFrom (r.start + r.size) next e t) p start end lt some_room more in
          let top = top_half r id (end + 1) (region_end r - end) in
          (
            bottom ∷ before,
            top ∷ next,
            ix1,
            placed_at (top ∷ next) ix1 (
                round_part start end r next ix (overlap end last some_left) start end
                  (part_only (min end (region_end r) == region_end r)) first_lem last
                ∙ running (λ q. go_on (q.0) (trim_from start end next) next (q.1)) ran),
            good1,
            bottom-Ends,
            (
              refl,
              omega (arith, more),
              omega (arith, high, al, a, more),
              subst (λ n. Tiles n next e) (omega (arith, more)) t,
            ),
            odd_more bottom before (sound_lem.0) plain_before,
            odd_more top next (sound_lem.0) (sound_lem.1),
            view-bottom,
            λ addr h.
                view-top_half r next id (end + 1) (region_end r - end) addr
                  (omega (arith, lt, some_room)) (omega (arith, more)) (omega (arith, more))
                  (omega (arith, h))
                ∙ sym (
                    view-onto_behind s before (r.start) (r ∷ next) addr u
                      (omega (arith, lt, h, some_room))),
          )

    pub trim_at-Gap :
        r.start ≤ start
        → start < r.start + r.size
        → Gap sp s start end e (onto before (r ∷ next)) (trim_at start end (before, r, next) ix)
    trim_at-Gap le lt = elim (Bool-cases (leb start (r.start))) [
      | inl q ↦ at_start (ground arith)
      | inr q ↦ elim (Bool-cases (leb (r.start + r.size) (end + 1))) [
        | inl w ↦ at_end (ground arith) lt (ground arith)
        | inr w ↦ in_middle (ground arith) lt (ground arith)
      ]
    ]
