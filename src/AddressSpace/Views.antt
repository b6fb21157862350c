-- ===== src/AddressSpace/Views.antt =====
-- An address space as what stands at each address, and the order of its regions.
use infinity_os.Base.{
  ℕ, ◌+◌, ◌-◌, ◌%◌, ◌≤◌, ◌<◌, ◌≡◌, refl, Bool, true, false, not, ◌&&◌, Option, none, some, List, [],
  ◌∷◌, if◌then◌else◌, ltb, ◌==◌, arith, ap, ◌∙◌, sym, Bool-cases, inl, inr,
}
use mathlib.Core.Bool.{false≢true}
use infinity_os.AddressSpace.{
  Region, RegionState, vm_region_free, vm_region_allocated, vm_region_reserved, is_allocated,
  vm_region_contains,
}
use infinity_os.AddressSpace.Change.{onto, is_some, at_range, moved, top_half}
use infinity_os.AddressSpace.Keys.{StartsFrom}

-- What stands at an address: nothing, an unused region, or a mapping with its access and flags,
-- the object and the offset of the page in it, and the map of pages and the offset in that.
pub data Content : Type 0 where
  outside : Content
  unused : RegionState → Content
  mapped : (access flags : ℕ) (handle : Option ℕ) (offset : ℕ) (pages : Option (ℕ × ℕ)) → Content

-- A page that the map of a region does not have comes from the object, at the sum of the offsets.
abbrev pub source_offset : Region → ℕ → ℕ
source_offset r addr =
    r.obj_offset + (addr - r.start) + (if is_some (r.amap) then r.amap_offset else 0)

abbrev pub pages_at : Option ℕ → ℕ → Option (ℕ × ℕ)
pages_at none offset = none
pages_at (some amap) offset = some (amap, offset)

abbrev pub content : Region → ℕ → Content
content r addr =
    if is_allocated (r.state)
    then mapped (r.access) (r.flags) (r.handle) (source_offset r addr)
        (pages_at (r.amap) (r.amap_offset + (addr - r.start)))
    else unused (r.state)

unfoldable pub view : List Region → ℕ → Content
unfolding vm_region_contains
view [] addr = outside
view (r ∷ rs) addr =
    let rest = view rs addr in if vm_region_contains r addr then content r addr else rest

-- The regions follow each other without a gap from one address to another, in whole pages.
abbrev pub Tiles : ℕ → List Region → ℕ → Type 0
Tiles m [] e = m ≡ e
Tiles m (r ∷ rs) e = (r.start ≡ m) × (0 < r.size) × (r.size % 4096 ≡ 0) × Tiles (m + r.size) rs e

-- The regions before an address, the nearest first.
abbrev pub Ends : ℕ → List Region → ℕ → Type 0
Ends s [] m = s ≡ m
Ends s (r ∷ rs) m =
    (r.start + r.size ≡ m) × (0 < r.size) × (r.size % 4096 ≡ 0) × Ends s rs (r.start)

pub StartsFrom-le : (m n : ℕ) (rs : List Region) → m ≤ n → StartsFrom n rs → StartsFrom m rs
StartsFrom-le m n [] h s = tt
StartsFrom-le m n (r ∷ rs) h s = (omega (arith, h, s.0), StartsFrom-le m n rs h s.1)

pub Tiles-StartsFrom : (m : ℕ) (rs : List Region) (e : ℕ) → Tiles m rs e → StartsFrom m rs
Tiles-StartsFrom m [] e t = tt
Tiles-StartsFrom m (r ∷ rs) e (s, p, a, t) = (
  omega (arith, s),
  StartsFrom-le m (m + r.size) rs (omega arith) (Tiles-StartsFrom (m + r.size) rs e t),
)

pub Tiles-le : (m : ℕ) (rs : List Region) (e : ℕ) → Tiles m rs e → m ≤ e
Tiles-le m [] e t = omega (arith, t)
Tiles-le m (r ∷ rs) e (s, p, a, t) = let rest = Tiles-le (m + r.size) rs e t in omega (arith, rest)

pub Ends-le : (s : ℕ) (rs : List Region) (m : ℕ) → Ends s rs m → s ≤ m
Ends-le s [] m t = omega (arith, t)
Ends-le s (r ∷ rs) m (t, p, a, u) = let rest = Ends-le s rs (r.start) u in omega (arith, rest, t)

pub contains :
    (r : Region) (addr : ℕ)
    → r.start ≤ addr
    → addr < r.start + r.size
    → vm_region_contains r addr ≡ true
unfolding vm_region_contains
contains r addr h k = ground arith

pub before-contains : (r : Region) (addr : ℕ) → addr < r.start → vm_region_contains r addr ≡ false
unfolding vm_region_contains
before-contains r addr h = ground arith

pub behind-contains :
    (r : Region) (addr : ℕ)
    → 0 < r.size
    → r.start + r.size ≤ addr
    → vm_region_contains r addr ≡ false
unfolding vm_region_contains
behind-contains r addr p h = ground arith

pub view_outside :
    (rs : List Region) (m e addr : ℕ) → Tiles m rs e → addr < m → view rs addr ≡ outside
unfolding view
view_outside [] m e addr t h = refl
view_outside (r ∷ rs) m e addr (s, p, a, t) h =
    rw (before-contains r addr (omega (arith, s, h)))
      (view_outside rs (m + r.size) e addr t (omega arith))

pub view_here :
    (r : Region) (rs : List Region) (addr : ℕ)
    → vm_region_contains r addr ≡ true
    → view (r ∷ rs) addr ≡ content r addr
unfolding view
view_here r rs addr h = rw h refl

pub view_away :
    (r : Region) (rs : List Region) (addr : ℕ)
    → vm_region_contains r addr ≡ false
    → view (r ∷ rs) addr ≡ view rs addr
unfolding view
view_away r rs addr h = rw h refl

-- What a region has at a distance from its start.
abbrev content_at :
    RegionState
    → (access flags : ℕ) → Option ℕ
    → (obj_offset : ℕ) → Option ℕ
    → (amap_offset d : ℕ) → Content
content_at s access flags handle o amap ao d =
    if is_allocated s
    then mapped access flags handle (o + d + (if is_some amap then ao else 0))
        (pages_at amap (ao + d))
    else unused s

content-shift :
    (s : RegionState) (access flags : ℕ) (handle : Option ℕ) (o : ℕ) (amap : Option ℕ) (ao : ℕ)
    (moves : Bool) (k d : ℕ)
    → (moves ≡ false → is_allocated s ≡ true → k ≡ 0)
    → content_at s access flags handle
        (if moves && not (is_some amap) then o + k else o)
        amap
        (if moves && is_some amap then ao + k else ao)
        d
      ≡ content_at s access flags handle o amap ao (k + d)
content-shift vm_region_free access flags handle o amap ao moves k d h = refl
content-shift vm_region_reserved access flags handle o amap ao moves k d h = refl
content-shift vm_region_allocated access flags handle o none ao true k d h =
    ap (λ x. mapped access flags handle x none) (omega arith)
content-shift vm_region_allocated access flags handle o (some m) ao true k d h =
    ap (λ x. mapped access flags handle x (some (m, ao + k + d))) (omega arith)
    ∙ ap (λ x. mapped access flags handle (o + (k + d) + ao) (some (m, x))) (omega arith)
content-shift vm_region_allocated access flags handle o amap ao false k d h =
    let still = h refl refl in
    ap (λ x. content_at vm_region_allocated access flags handle o amap ao x) (omega (arith, still))

stays :
    (same alloc : Bool) (k : ℕ)
    → (same ≡ true → k ≡ 0)
    → (not same && alloc) ≡ false
    → alloc ≡ true
    → k ≡ 0
stays true alloc k still e a = still refl
stays false true k still e a = absurd (false≢true (sym e))
stays false false k still e a = absurd (false≢true a)

module _ (r : Region) (start size addr : ℕ) (h : r.start ≤ start) (k : start ≤ addr) where
  distance : (start - r.start) + (addr - start) ≡ addr - r.start
  distance = omega (arith, h, k)

  whole :
      content_at
        (r.state)
        (r.access)
        (r.flags)
        (r.handle)
        (r.obj_offset)
        (r.amap)
        (r.amap_offset)
        ((start - r.start) + (addr - start))
      ≡ content r addr
  whole =
      ap
        (λ d.
          content_at (r.state) (r.access) (r.flags) (r.handle) (r.obj_offset) (r.amap)
            (r.amap_offset) d)
        distance

  -- What is left of a region has what the region had there.
  pub content-moved : content (at_range start size (moved r start)) addr ≡ content r addr
  content-moved =
      content-shift (r.state) (r.access) (r.flags) (r.handle) (r.obj_offset) (r.amap)
        (r.amap_offset) (not (start == r.start) && is_allocated (r.state)) (start - r.start)
        (addr - start)
        (stays (start == r.start) (is_allocated (r.state)) (start - r.start) (λ e. ground arith))
      ∙ whole

  pub content-top_half : (id : ℕ) → content (top_half r id start size) addr ≡ content r addr
  content-top_half id =
      content-shift (r.state) (r.access) (r.flags) (r.handle) (r.obj_offset) (r.amap)
        (r.amap_offset) (is_allocated (r.state)) (start - r.start) (addr - start)
        (λ no yes. absurd (false≢true (sym no ∙ yes)))
      ∙ whole

-- The region that a cut leaves, and those behind it.
pub view-cut_front :
    (r : Region) (rs : List Region) (start size addr : ℕ)
    → r.start ≤ start
    → start + size ≡ r.start + r.size
    → 0 < size
    → start ≤ addr
    → view (at_range start size (moved r start) ∷ rs) addr ≡ view (r ∷ rs) addr
view-cut_front r rs start size addr h same p k =
    let part = at_range start size (moved r start) in
    elim (Bool-cases (ltb addr (r.start + r.size))) [
      | inl q ↦
          let here = contains part addr k (ground arith) in
          let there = contains r addr (omega (arith, h, k)) (ground arith) in
          view_here part rs addr here
          ∙ content-moved r start size addr h k
          ∙ sym (view_here r rs addr there)
      | inr q ↦
          let gone = behind-contains part addr p (ground arith) in
          let none_there = behind-contains r addr (omega (arith, h, same, p)) (ground arith) in
          view_away part rs addr gone ∙ sym (view_away r rs addr none_there)
    ]

pub view-top_half :
    (r : Region) (rs : List Region) (id start size addr : ℕ)
    → r.start ≤ start
    → start + size ≡ r.start + r.size
    → 0 < size
    → start ≤ addr
    → view (top_half r id start size ∷ rs) addr ≡ view (r ∷ rs) addr
view-top_half r rs id start size addr h same p k =
    let part = top_half r id start size in
    elim (Bool-cases (ltb addr (r.start + r.size))) [
      | inl q ↦
          let here = contains part addr k (ground arith) in
          let there = contains r addr (omega (arith, h, k)) (ground arith) in
          view_here part rs addr here
          ∙ content-top_half r start size addr h k id
          ∙ sym (view_here r rs addr there)
      | inr q ↦
          let gone = behind-contains part addr p (ground arith) in
          let none_there = behind-contains r addr (omega (arith, h, same, p)) (ground arith) in
          view_away part rs addr gone ∙ sym (view_away r rs addr none_there)
    ]

-- What stands behind the regions before a place does not depend on them, and the other way round.
pub view-onto_behind :
    (s : ℕ) (before : List Region) (m : ℕ) (ys : List Region) (addr : ℕ)
    → Ends s before m
    → m ≤ addr
    → view (onto before ys) addr ≡ view ys addr
unfolding onto
view-onto_behind s [] m ys addr t h = refl
view-onto_behind s (r ∷ before) m ys addr (end, p, a, t) h =
    view-onto_behind s before (r.start) (r ∷ ys) addr t (omega (arith, h, end, p))
    ∙ view_away r ys addr (behind-contains r addr p (omega (arith, h, end)))

pub view-onto_before :
    (s : ℕ) (before : List Region) (m : ℕ) (ys zs : List Region) (addr : ℕ)
    → Ends s before m
    → s ≤ addr
    → addr < m
    → view (onto before ys) addr ≡ view (onto before zs) addr
unfolding onto
view-onto_before s [] m ys zs addr t h k = absurd (omega (arith, t, h, k))
view-onto_before s (r ∷ before) m ys zs addr (end, p, a, t) h k =
    elim (Bool-cases (ltb addr (r.start))) [
      | inl q ↦ view-onto_before s before (r.start) (r ∷ ys) (r ∷ zs) addr t h (ground arith)
      | inr q ↦
          let from : r.start ≤ addr = ground arith in
          let here = contains r addr from (omega (arith, k, end)) in
          view-onto_behind s before (r.start) (r ∷ ys) addr t from
          ∙ view_here r ys addr here
          ∙ sym (view_here r zs addr here)
          ∙ sym (view-onto_behind s before (r.start) (r ∷ zs) addr t from)
    ]
