-- ===== src/AddressSpace/Attach.antt =====
-- Changing the object and the pages of a region that is in an address space.
use infinity_os.Base.{
  ℕ, ◌+◌, ◌%◌, ◌≤◌, ◌<◌, ◌≡◌, refl, Bool, true, false, ◌&&◌, Option, none, some, List, [], ◌∷◌,
  ◌++◌, if◌then◌else◌, ◌==◌, arith, ap, ◌∙◌, sym, Bool-cases, inl, inr, subst, ==_refl,
}
use mathlib.Core.Bool.{false≢true}
use infinity_os.AddressSpace.{
  Region, RegionState, Index, AddressSpace, is_free, is_allocated, region_of, vm_region_contains,
}
use infinity_os.AddressSpace.Change.{onto}
use infinity_os.AddressSpace.Mapping.{change_region}
use infinity_os.AddressSpace.Counts.{mark, tally, tally-onto, is_named, is_held, is_odd}
use infinity_os.AddressSpace.Keys.{keyed, keyed-here, keyed_before}
use infinity_os.AddressSpace.Lists.{Distinct, tally-here, InLists-other}
use infinity_os.AddressSpace.Indexes.{Indexes, Cached, running}
use infinity_os.AddressSpace.Steps.{named_once}
use infinity_os.AddressSpace.Views.{
  Content, content, view, Tiles, Ends, view_here, view_away, view-onto_behind,
}
use infinity_os.AddressSpace.Merge.{view-onto}
use infinity_os.AddressSpace.Insert.{in_range, onto-Tiles}
use infinity_os.AddressSpace.Allocate.{locate-region}

-- Another region in the place of one, which is found as it was.
abbrev pub Like : Region → Region → Type 0
Like r r' = (r'.id ≡ r.id) × (r'.start ≡ r.start) × (r'.size ≡ r.size) × (r'.state ≡ r.state)

same_tally :
    (p : Region → Bool) (b : List Region) (r r' : Region) (ys : List Region)
    → p r ≡ p r'
    → tally p (onto b (r ∷ ys)) ≡ tally p (onto b (r' ∷ ys))
same_tally p b r r' ys e =
    tally-here p b r ys ∙ ap (λ m. mark m + tally p (onto b ys)) e ∙ sym (tally-here p b r' ys)

allocated-not_free : (s : RegionState) → is_allocated s ≡ true → is_free s ≡ false
allocated-not_free RegionState.vm_region_free h = absurd (false≢true h)
allocated-not_free RegionState.vm_region_allocated h = refl
allocated-not_free RegionState.vm_region_reserved h = refl

module _ (b : List Region) (r r' : Region) (ys : List Region) (al : is_allocated (r.state) ≡ true)
    (like : Like r r') where
  named_same :
      (x : ℕ) → tally (is_named x) (onto b (r ∷ ys)) ≡ tally (is_named x) (onto b (r' ∷ ys))
  named_same x = same_tally (is_named x) b r r' ys (ap (λ i. i == x) (sym (like.0)))

  al' : is_allocated (r'.state) ≡ true
  al' = ap is_allocated (like.3) ∙ al

  not_free : (q : Region) → is_allocated (q.state) ≡ true → is_free (q.state) ≡ false
  not_free q h = allocated-not_free (q.state) h

  Cached-like :
      (cache : Option ℕ) → Cached cache (onto b (r ∷ ys)) → Cached cache (onto b (r' ∷ ys))
  Cached-like none h = tt
  Cached-like (some c) h =
      subst (λ n. 0 < n)
        (same_tally (is_held c) b r r' ys (
          ap (λ t. t && (r.id == c)) (al ∙ sym al')
          ∙ ap (λ i. is_allocated (r'.state) && (i == c)) (sym (like.0))))
        h

  pub Indexes-like :
      (ix : Index) → Indexes none ix (onto b (r ∷ ys)) → Indexes none ix (onto b (r' ∷ ys))
  Indexes-like ix (t, f, c, d, n, l) = (
    (
      t.0,
      t.1
          ∙ keyed-here b r ys al
          ∙ ap (λ k. keyed_before b ++ (k, r.id) ∷ keyed ys) (sym (like.1))
          ∙ ap (λ i. keyed_before b ++ (r'.start, i) ∷ keyed ys) (sym (like.0))
          ∙ sym (keyed-here b r' ys al'),
    ),
    (
      (InLists-other (ix.free) b r' ys (not_free r' al')).0
          ((InLists-other (ix.free) b r ys (not_free r al)).1 (f.0)),
      f.1,
    ),
    Cached-like (ix.find_cache) c,
    (λ x. subst (λ n. n ≤ 1) (named_same x) (d x)),
    (λ x h. sym (named_same x) ∙ n x h),
    tt,
  )

-- A region that was just placed, which may still lack its object and its pages.
abbrev pub Placed : (s e : ℕ) → AddressSpace → (r : Region) → AddressSpace → Type 0
Placed s e old r space =
    (region_of (r.id) (space.regions) ≡ some r)
    × (is_allocated (r.state) ≡ true)
    × Tiles s (space.regions) e
    × Indexes none (space.index) (space.regions)
    × (tally is_odd (space.regions) ≡ mark (is_odd r))
    × ((addr : ℕ)
        → view (space.regions) addr
          ≡ (if in_range (r.start) (r.size) addr then content r addr else view (old.regions) addr))

region_of-behind :
    (x : ℕ) (b ys : List Region)
    → tally (is_named x) b ≡ 0
    → region_of x (onto b ys) ≡ region_of x ys
unfolding onto tally region_of
region_of-behind x [] ys h = refl
region_of-behind x (r ∷ b) ys h =
    let other : (r.id == x) ≡ false = ground arith in
    region_of-behind x b (r ∷ ys) (omega (arith, h)) ∙ rw other refl

region_of_self : (r : Region) (ys : List Region) → region_of (r.id) (r ∷ ys) ≡ some r
unfolding region_of
region_of_self r ys = rw (==_refl (r.id)) refl

pub region_of-onto :
    (b : List Region) (r : Region) (ys : List Region)
    → Distinct (onto b (r ∷ ys))
    → region_of (r.id) (onto b (r ∷ ys)) ≡ some r
region_of-onto b r ys once =
    let alone = named_once b r ys once in
    let sum = tally-onto (is_named (r.id)) b ys in
    region_of-behind (r.id) b (r ∷ ys) (omega (arith, alone, sum)) ∙ region_of_self r ys

contains-in_range :
    (q : Region) (addr : ℕ)
    → 0 < q.size
    → vm_region_contains q addr ≡ in_range (q.start) (q.size) addr
unfolding vm_region_contains
contains-in_range q addr p = ground arith

from_range : (start size addr : ℕ) → in_range start size addr ≡ true → start ≤ addr
from_range start size addr h = ground arith

view-changed :
    (s : ℕ) (b ys : List Region) (r r' : Region)
    → Like r r'
    → Ends s b (r.start)
    → 0 < r.size
    → (before : ℕ → Content)
    → ((addr : ℕ)
        → view (onto b (r ∷ ys)) addr
          ≡ (if in_range (r.start) (r.size) addr then content r addr else before addr))
    → (addr : ℕ)
    → view (onto b (r' ∷ ys)) addr
      ≡ (if in_range (r'.start) (r'.size) addr then content r' addr else before addr)
view-changed s b ys r r' like u p before eq addr =
    let range =
      ap (λ n. in_range n (r'.size) addr) (like.1) ∙ ap (λ n. in_range (r.start) n addr) (like.2) in
    let now = contains-in_range r' addr (subst (λ n. 0 < n) (sym (like.2)) p) in
    let was = contains-in_range r addr p in
    elim (Bool-cases (in_range (r.start) (r.size) addr)) [
      | inl i ↦
          let here = range ∙ i in
          rw here (
            view-onto_behind s b (r.start) (r' ∷ ys) addr u (from_range (r.start) (r.size) addr i)
            ∙ view_here r' ys addr (now ∙ here))
      | inr o ↦
          let away = range ∙ o in
          rw away (
            view-onto b (r' ∷ ys) (r ∷ ys) addr
              (view_away r' ys addr (now ∙ away) ∙ sym (view_away r ys addr (was ∙ o)))
            ∙ eq addr
            ∙ ap (λ c. if c then content r addr else before addr) o)
    ]

abbrev pub Changed :
    (s e : ℕ)
    → (r r' : Region) → (old space : AddressSpace) → Option (Region × AddressSpace)
    → Type 0
Changed s e r r' old space o =
    (space' : AddressSpace) × (o ≡ some (r', space'))
    × (space'.index ≡ space.index)
    × Placed s e old r' space'

-- A change of the region that leaves it where it is.
pub change_region-Placed :
    (s e : ℕ) (old space : AddressSpace) (r : Region) (f : Region → Region)
    → Placed s e old r space
    → Like r (f r)
    → Changed s e r (f r) old space (change_region (r.id) f space)
unfolding change_region
change_region-Placed s e old space r f (found, al, t, good, odd, eq) like =
    let rs = space.regions in
    let (b, ys, located, same, u, t') = locate-region s (r.id) [] rs s e r refl t found in
    let same : onto b (r ∷ ys) ≡ rs = same in
    let r' = f r in
    let good' =
      Indexes-like b r r' ys al like (space.index)
        (subst (Indexes none (space.index)) (sym same) good) in
    let odd_others = sym (tally-here is_odd b r ys) ∙ ap (tally is_odd) same ∙ odd in
    let tiles' : Tiles (r.start) (r' ∷ ys) e = (
      like.1,
      subst (λ n. 0 < n) (sym (like.2)) (t'.1),
      ap (λ n. n % 4096) (like.2) ∙ t'.2,
      subst (λ n. Tiles (r.start + n) ys e) (sym (like.2)) (t'.3),
    ) in
    (
      record space { regions = onto b (r' ∷ ys) },
      running (λ z. some (f (z.1), record space { regions = onto (z.0) (f (z.1) ∷ z.2) })) located,
      refl,
      (
        region_of-onto b r' ys (good'.3),
        ap is_allocated (like.3) ∙ al,
        onto-Tiles s b (r.start) (r' ∷ ys) e u tiles',
        good',
        (tally-here is_odd b r' ys ∙ omega (arith, odd_others)),
        view-changed s b ys r r' like u (t'.1) (view (old.regions))
            (λ addr. ap (λ l. view l addr) same ∙ eq addr),
      ),
    )
