-- ===== src/AddressSpace/Indexes.antt =====
-- The structures that find the regions, under the steps of the operations.
use infinity_os.Base.{
  ℕ, ◌+◌, ◌-◌, ◌≤◌, ◌<◌, ◌≡◌, refl, Bool, true, false, not, ◌&&◌, ◌||◌, Option, none, some, List,
  ◌∷◌, ◌==◌, arith, ap, ◌∙◌, sym, Bool-cases, inl, inr, subst, ◌⊎◌,
}
use mathlib.Core.Bool.{true≢false}
use infinity_os.AvlTree.{Tree}
use infinity_os.AddressSpace.{
  ◌>>=◌, Region, RegionState, vm_region_free, vm_region_allocated, vm_region_reserved, is_free,
  is_allocated, Index, VmCall, unmap_pages,
}
use infinity_os.AddressSpace.Change.{
  onto, log_call, call_for, is_some, vm_region_unmap, tree_remove, uncached, dropped, released,
  forget, vm_region_destroy, unmap_part,
}
use infinity_os.AddressSpace.Counts.{mark, tally, is_named, is_held, is_odd}
use infinity_os.AddressSpace.Keys.{InTree, InTree-remove, InTree-same}
use infinity_os.AddressSpace.Lists.{
  InFree, Distinct, tally-here, InLists-other, vm_freelist_remove-Relists, with_lists,
}

abbrev pub Cached : Option ℕ → List Region → Type 0
Cached none rs = Unit {0}
Cached (some c) rs = 0 < tally (is_held c) rs

abbrev pub IsFresh : ℕ → List Region → Type 0
IsFresh fresh rs = (x : ℕ) → fresh ≤ x → tally (is_named x) rs ≡ 0

-- A pointer to a region that is not in the list yet.
abbrev pub Lacks : Option ℕ → ℕ → List Region → Type 0
Lacks none fresh rs = Unit {0}
Lacks (some x) fresh rs = (x < fresh) × (tally (is_named x) rs ≡ 0)

-- The tree has the allocated regions in order, the free lists have the free ones by their sizes,
-- the cached pointer points to an allocated region, and the pointers differ and are old.
abbrev pub Indexes : Option ℕ → Index → List Region → Type 0
Indexes sp ix rs =
    InTree (ix.tree) rs
    × InFree ix rs
    × Cached (ix.find_cache) rs
    × Distinct rs
    × IsFresh (ix.fresh) rs
    × Lacks sp (ix.fresh) rs

abbrev pub Succeeds : Option ℕ → Option Index → List Region → Type 0
Succeeds sp o rs = (ix : Index) × (o ≡ some ix) × Indexes sp ix rs

pub state-cases :
    (s : RegionState)
    → (s ≡ vm_region_free) ⊎ ((s ≡ vm_region_allocated) ⊎ (s ≡ vm_region_reserved))
state-cases vm_region_free = inl refl
state-cases vm_region_allocated = inr (inl refl)
state-cases vm_region_reserved = inr (inr refl)

abbrev pub with_calls : Index → List VmCall → Index
with_calls ix cs = record ix { calls = cs }

abbrev pub with_tree : Index → Tree → Index
with_tree ix tree = record ix { tree = tree }

-- A step that does not fail.
pub running {ℓ κ} :
    {A : Type ℓ} {B : Type κ} {o : Option A} {a : A} (f : A → Option B)
    → o ≡ some a
    → (o >>= f) ≡ f a
running f e = ap (λ o. o >>= f) e

call_for-calls :
    (o : Option ℕ) (c : ℕ → VmCall) (ix : Index)
    → (cs : List VmCall) × (call_for o c ix ≡ with_calls ix cs)
call_for-calls none c ix = (ix.calls, refl)
call_for-calls (some x) c ix = (c x ∷ ix.calls, refl)

pub twice :
    (o o' : Option ℕ) (c c' : ℕ → VmCall) (ix : Index)
    → (cs : List VmCall) × (call_for o c (call_for o' c' ix) ≡ with_calls ix cs)
twice o o' c c' ix =
    let (cs, e) = call_for-calls o' c' ix in
    let (ds, f) = call_for-calls o c (with_calls ix cs) in (ds, ap (call_for o c) e ∙ f)

mapped : (h m : Bool) → (not h && not m) ≡ false → (h || m) ≡ true
mapped true m e = refl
mapped false true e = refl
mapped false false e = absurd (true≢false e)

pub vm_region_unmap-calls :
    (r : Region) (start size : ℕ) (ix : Index)
    → is_allocated (r.state) ≡ true
    → is_odd r ≡ false
    → (cs : List VmCall) × (vm_region_unmap r start size ix ≡ some (with_calls ix cs))
unfolding vm_region_unmap
vm_region_unmap-calls r start size ix a sound =
    let (cs, e) =
      call_for-calls (r.amap)
        (λ amap. VmCall.vm_amap_unmap amap ((start - r.start) + r.amap_offset) size)
        (log_call (unmap_pages start size) ix) in
    (cs, rw (a, mapped (is_some (r.handle)) (is_some (r.amap)) (rw a at sound)) (ap some e))

pub unmap_part-calls :
    (r : Region) (start size : ℕ) (ix : Index)
    → is_odd r ≡ false
    → (cs : List VmCall) × (unmap_part r start size ix ≡ some (with_calls ix cs))
unmap_part-calls r start size ix sound = elim (Bool-cases (is_allocated (r.state))) [
  | inl a ↦ let (cs, e) = vm_region_unmap-calls r start size ix a sound in (cs, rw a e)
  | inr u ↦ (ix.calls, rw u refl)
]

unheld : (b : Bool) {n : ℕ} → mark (b && false) + n ≡ n
unheld true = omega arith
unheld false = omega arith

-- A region less.
Cached-drop :
    (cache : Option ℕ) (before : List Region) (r : Region) (ys : List Region)
    → Cached cache (onto before (r ∷ ys))
    → Cached (uncached (r.id) cache) (onto before ys)
Cached-drop none before r ys h = tt
Cached-drop (some c) before r ys h = elim (Bool-cases (c == r.id)) [
  | inl p ↦ rw p tt
  | inr p ↦
      let other : (r.id == c) ≡ false = ground arith in
      rw p (
        subst (λ n. 0 < n)
          (tally-here (is_held c) before r ys ∙ rw other (unheld (is_allocated (r.state)))) h)
]

less :
    (p : Region → Bool) (before : List Region) (r : Region) (ys : List Region)
    → tally p (onto before ys) ≤ tally p (onto before (r ∷ ys))
less p before r ys = let here = tally-here p before r ys in omega (arith, here)

pub Distinct-drop :
    (before : List Region) (r : Region) (ys : List Region)
    → Distinct (onto before (r ∷ ys))
    → Distinct (onto before ys)
Distinct-drop before r ys once x =
    let fewer = less (is_named x) before r ys in let most = once x in omega (arith, fewer, most)

pub IsFresh-drop :
    (fresh : ℕ) (before : List Region) (r : Region) (ys : List Region)
    → IsFresh fresh (onto before (r ∷ ys))
    → IsFresh fresh (onto before ys)
IsFresh-drop fresh before r ys new x h =
    let fewer = less (is_named x) before r ys in let no = new x h in omega (arith, fewer, no)

-- A region more, under a pointer that no region has.
pub Cached-add :
    (cache : Option ℕ) (before : List Region) (r : Region) (ys : List Region)
    → Cached cache (onto before ys)
    → Cached cache (onto before (r ∷ ys))
Cached-add none before r ys h = tt
Cached-add (some c) before r ys h =
    let fewer = less (is_held c) before r ys in omega (arith, fewer, h)

pub Distinct-add :
    (before : List Region) (r : Region) (ys : List Region)
    → Distinct (onto before ys)
    → tally (is_named (r.id)) (onto before ys) ≡ 0
    → Distinct (onto before (r ∷ ys))
Distinct-add before r ys once new x =
    let here = tally-here (is_named x) before r ys in
    let most = once x in
    elim (Bool-cases (r.id == x)) [
      | inl p ↦
          let same : r.id ≡ x = ground arith in
          let none_yet = subst (λ y. tally (is_named y) (onto before ys) ≡ 0) same new in
          subst (λ n. n ≤ 1) (sym here) (rw p (omega (arith, none_yet)))
      | inr p ↦ subst (λ n. n ≤ 1) (sym here) (rw p (omega (arith, most)))
    ]

pub IsFresh-add :
    (fresh : ℕ) (before : List Region) (r : Region) (ys : List Region)
    → IsFresh fresh (onto before ys)
    → r.id < fresh
    → IsFresh fresh (onto before (r ∷ ys))
IsFresh-add fresh before r ys new old x h =
    let other : (r.id == x) ≡ false = ground arith in
    let no = new x h in tally-here (is_named x) before r ys ∙ rw other (omega (arith, no))

pub unmarked : (b : Bool) → not b ≡ false → b ≡ true
unmarked true e = refl
unmarked false e = absurd (true≢false e)

Lacks-drop :
    (sp : Option ℕ) (fresh : ℕ) (before : List Region) (r : Region) (ys : List Region)
    → Lacks sp fresh (onto before (r ∷ ys))
    → Lacks sp fresh (onto before ys)
Lacks-drop none fresh before r ys l = tt
Lacks-drop (some x) fresh before r ys (old, new) =
    let fewer = less (is_named x) before r ys in (old, omega (arith, fewer, new))

pub vm_region_destroy-Succeeds :
    (sp : Option ℕ) (ix : Index) (before : List Region) (r : Region) (ys : List Region)
    → Indexes sp ix (onto before (r ∷ ys))
    → is_odd r ≡ false
    → Succeeds sp (vm_region_destroy r ix) (onto before ys)
unfolding vm_region_destroy
vm_region_destroy-Succeeds sp ix before r ys (t, f, c, d, n, l) sound =
    let l' = Lacks-drop sp (ix.fresh) before r ys l in
    let c' = Cached-drop (ix.find_cache) before r ys c in
    let d' = Distinct-drop before r ys d in
    let n' = IsFresh-drop (ix.fresh) before r ys n in
    let finish = λ (ix : Index). some (dropped (r.id) ix) in
    let by = λ (s : RegionState). forget s r ix >>= finish in
    elim (state-cases (r.state)) [
      | inl e ↦
          let plain : (r.flags == 0) ≡ true = unmarked (r.flags == 0) (rw e at sound) in
          let (free, map, ran, f') =
            vm_freelist_remove-Relists ix before r ys f d (ap is_free e) plain in
          (
            dropped (r.id) (with_lists ix free map),
            ap by e ∙ running finish ran,
            ((InTree-same (ix.tree) before r ys (ap is_allocated e)).1 t, f', c', d', n', l'),
          )
      | inr (inl e) ↦
          let (cs, ran) = vm_region_unmap-calls r (r.start) (r.size) ix (ap is_allocated e) sound in
          let (ds, kept) =
            twice (r.handle) (r.amap) VmCall.object_handle_release VmCall.vm_amap_release
              (with_calls ix cs) in
          let (tree, cut, t') = InTree-remove (ix.tree) before r ys t (ap is_allocated e) in
          (
            dropped (r.id) (with_tree (with_calls ix ds) tree),
            ap by e
                ∙ running finish (
                    running (λ ix. tree_remove (r.start) (released r ix)) ran
                    ∙ ap (tree_remove (r.start)) kept
                    ∙ running (λ t. some (with_tree (with_calls ix ds) t)) cut),
            (
              t',
              ((InLists-other (ix.free) before r ys (ap is_free e)).1 (f.0), f.1),
              c',
              d',
              n',
              l',
            ),
          )
      | inr (inr e) ↦ (
        dropped (r.id) ix,
        ap by e,
        (
          (InTree-same (ix.tree) before r ys (ap is_allocated e)).1 t,
          ((InLists-other (ix.free) before r ys (ap is_free e)).1 (f.0), f.1),
          c',
          d',
          n',
          l',
        ),
      )
    ]
