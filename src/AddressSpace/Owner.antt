-- ===== src/AddressSpace/Owner.antt =====
-- The region at an address, and the pointers to it.
use infinity_os.Base.{
  ℕ, ◌+◌, ◌≤◌, ◌<◌, ◌≡◌, refl, Bool, true, false, Option, none, some, List, [], ◌∷◌, if◌then◌else◌,
  ltb, ◌==◌, arith, ap, ◌∙◌, sym, Bool-cases, inl, inr, subst, ==_refl,
}
use mathlib.Core.Option.{some-injective, none-ne-some}
use infinity_os.AddressSpace.{Region, vm_region_contains, region_of}
use infinity_os.AddressSpace.Change.{onto, locate}
use infinity_os.AddressSpace.Counts.{tally, tally-onto, is_named}
use infinity_os.AddressSpace.Lists.{Distinct}
use infinity_os.AddressSpace.Views.{Tiles, Ends, Tiles-le, contains, behind-contains}

-- The region that contains an address.
unfoldable pub owner : List Region → ℕ → Option Region
owner [] addr = none
owner (r ∷ rs) addr = let rest = owner rs addr in if vm_region_contains r addr then some r else rest

pub contains-from :
    (r : Region) (addr : ℕ)
    → vm_region_contains r addr ≡ true
    → 0 < r.size
    → (r.start ≤ addr) × (addr < r.start + r.size)
unfolding vm_region_contains
contains-from r addr h p = (ground arith, ground arith)

-- The place of the region that contains an address.
abbrev pub At : (s : ℕ) (before rs : List Region) (e addr : ℕ) → Type 0
At s before rs e addr =
    (b : List Region) × (r : Region) × (next : List Region) × (locate (r.id) before rs
      ≡ some (b, r, next))
    × (onto b (r ∷ next) ≡ onto before rs)
    × Ends s b (r.start)
    × Tiles (r.start) (r ∷ next) e
    × (r.start ≤ addr)
    × (addr < r.start + r.size)
    × (owner rs addr ≡ some r)
    × ((p : Region → Bool) → tally p before ≤ tally p b)

pub owner_here :
    (r : Region) (rs : List Region) (addr : ℕ)
    → vm_region_contains r addr ≡ true
    → owner (r ∷ rs) addr ≡ some r
unfolding owner
owner_here r rs addr h = rw h refl

pub owner_away :
    (r : Region) (rs : List Region) (addr : ℕ)
    → vm_region_contains r addr ≡ false
    → owner (r ∷ rs) addr ≡ owner rs addr
unfolding owner
owner_away r rs addr h = rw h refl

-- A region that stands before another has another name.
other_name :
    (b : List Region) (q : Region) (before : List Region) (r : Region) (next : List Region)
    → Distinct (onto b (r ∷ next))
    → tally (is_named (r.id)) (q ∷ before) ≤ tally (is_named (r.id)) b
    → (q.id == r.id) ≡ false
unfolding tally
other_name b q before r next once le =
    let sum = tally-onto (is_named (r.id)) b (r ∷ next) in
    let one = rw (==_refl (r.id)) at sum in
    let most = once (r.id) in
    elim (Bool-cases (q.id == r.id)) [
      | inl same ↦ let le = rw same at le in absurd (omega (arith, le, one, most))
      | inr other ↦ other
    ]

pub locate-At :
    (s : ℕ) (before rs : List Region) (m e addr : ℕ)
    → Ends s before m
    → Tiles m rs e
    → m ≤ addr
    → addr < e
    → Distinct (onto before rs)
    → At s before rs e addr
unfolding locate onto tally
locate-At s before [] m e addr u t h k once = absurd (omega (arith, t, h, k))
locate-At s before (q ∷ rs) m e addr u (st, p, a, t) h k once =
    let u' = subst (Ends s before) (sym st) u in
    elim (Bool-cases (ltb addr (m + q.size))) [
      | inl w ↦
          let le : q.start ≤ addr = omega (arith, st, h) in
          let lt : addr < q.start + q.size =
            (let bound : addr < m + q.size = ground arith in omega (arith, bound, st)) in
          (
            before,
            q,
            rs,
            rw (==_refl (q.id)) refl,
            refl,
            u',
            (refl, p, a, subst (λ n. Tiles (n + q.size) rs e) (sym st) t),
            le,
            lt,
            owner_here q rs addr (contains q addr le lt),
            λ p. omega arith,
          )
      | inr w ↦
          let from : m + q.size ≤ addr = ground arith in
          let (b, r, next, found, same, ends, tiles, le, lt, own, more) =
            locate-At s (q ∷ before) rs (m + q.size) e addr (ap (λ n. n + q.size) st, p, a, u') t
              from k once in
          let other =
            other_name b q before r next (subst Distinct (sym same) once)
              (more (is_named (r.id))) in
          (
            b,
            r,
            next,
            rw other found,
            same,
            ends,
            tiles,
            le,
            lt,
            owner_away q rs addr (behind-contains q addr p (omega (arith, from, st))) ∙ own,
            λ p. let fewer = more p in omega (arith, fewer),
          )
    ]

-- A pointer to a region, which stands among others.
pub region_of-bounds :
    (id : ℕ) (rs : List Region) (m e : ℕ) (q : Region)
    → Tiles m rs e
    → region_of id rs ≡ some q
    → (m ≤ q.start) × (0 < q.size) × (q.start + q.size ≤ e) × (q.id ≡ id)
unfolding region_of
region_of-bounds id [] m e q t h = absurd (none-ne-some q h)
region_of-bounds id (r ∷ rs) m e q (st, p, a, t) h = elim (Bool-cases (r.id == id)) [
  | inl w ↦
      let same : r ≡ q = some-injective _ _ (rw w at h) in
      let all = Tiles-le (m + r.size) rs e t in
      subst (λ (x : Region). (m ≤ x.start) × (0 < x.size) × (x.start + x.size ≤ e) × (x.id ≡ id))
        same (omega (arith, st), p, omega (arith, st, all), ground arith)
  | inr w ↦
      let (low, pos, high, name) = region_of-bounds id rs (m + r.size) e q t (rw w at h) in
      (omega (arith, low), pos, high, name)
]

pub owner_unique :
    (id : ℕ) (rs : List Region) (m e addr : ℕ) (q : Region)
    → Tiles m rs e
    → region_of id rs ≡ some q
    → vm_region_contains q addr ≡ true
    → owner rs addr ≡ some q
unfolding region_of
owner_unique id [] m e addr q t h c = absurd (none-ne-some q h)
owner_unique id (r ∷ rs) m e addr q (st, p, a, t) h c = elim (Bool-cases (r.id == id)) [
  | inl w ↦
      let same : r ≡ q = some-injective _ _ (rw w at h) in
      owner_here r rs addr (ap (λ x. vm_region_contains x addr) same ∙ c) ∙ ap some same
  | inr w ↦
      let h' = rw w at h in
      let (low, pos, high, name) = region_of-bounds id rs (m + r.size) e q t h' in
      let (from, to) = contains-from q addr c pos in
      owner_away r rs addr (behind-contains r addr p (omega (arith, st, low, from)))
      ∙ owner_unique id rs (m + r.size) e addr q t h' c
]

-- Two regions do not overlap.
pub disjoint :
    (i j : ℕ) (rs : List Region) (m e : ℕ) (q w : Region)
    → Tiles m rs e
    → region_of i rs ≡ some q
    → region_of j rs ≡ some w
    → q.start < w.start
    → q.start + q.size ≤ w.start
unfolding region_of
disjoint i j [] m e q w t h k lt = absurd (none-ne-some q h)
disjoint i j (r ∷ rs) m e q w (st, p, a, t) h k lt = elim (Bool-cases (r.id == i)) [
  | inl x ↦
      let same : r ≡ q = some-injective _ _ (rw x at h) in
      elim (Bool-cases (r.id == j)) [
        | inl y ↦
            let also : r ≡ w = some-injective _ _ (rw y at k) in
            let eq = ap (λ (z : Region). z.start) (sym same ∙ also) in
            absurd (omega (arith, eq, lt))
        | inr y ↦
            let (low, pos, high, name) = region_of-bounds j rs (m + r.size) e w t (rw y at k) in
            let start = ap (λ (z : Region). z.start) same in
            let size = ap (λ (z : Region). z.size) same in omega (arith, low, start, size, st)
      ]
  | inr x ↦
      let h' = rw x at h in
      let (low, pos, high, name) = region_of-bounds i rs (m + r.size) e q t h' in
      elim (Bool-cases (r.id == j)) [
        | inl y ↦
            let also : r ≡ w = some-injective _ _ (rw y at k) in
            let eq = ap (λ (z : Region). z.start) also in absurd (omega (arith, low, st, eq, lt))
        | inr y ↦ disjoint i j rs (m + r.size) e q w t h' (rw y at k) lt
      ]
]
