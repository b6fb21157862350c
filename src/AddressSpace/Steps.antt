-- ===== src/AddressSpace/Steps.antt =====
-- The structures that find the regions, when a region is entered, split or resized.
use infinity_os.Base.{
  ℕ, suc, ◌≤◌, ◌<◌, ◌≡◌, refl, true, false, Option, none, some, List, [], ◌∷◌, ◌==◌, arith, ap, ◌∙◌,
  sym, inl, inr, subst, ==_refl,
}
use mathlib.Core.Bool.{false≢true}
use infinity_os.AvlTree.{Tree}
use infinity_os.AvlTree.Entries.{Entry, Above, Below}
use infinity_os.AddressSpace.{
  Region, RegionState, vm_region_free, vm_region_allocated, vm_region_reserved, is_free,
  is_allocated, Index, VmCall,
}
use infinity_os.AddressSpace.Change.{
  onto, tree_insert, top_half, enter_split, enter_region, split_region,
}
use infinity_os.AddressSpace.Counts.{tally, is_named, is_odd}
use infinity_os.AddressSpace.Keys.{
  keyed, keyed-here, keyed_before, InTree, InTree-insert, InTree-same, sides, StartsFrom,
  Above-keyed, Below-append,
}
use infinity_os.AddressSpace.Lists.{
  Distinct, tally-here, InLists-other, vm_freelist_insert-Relists, with_lists,
}
use infinity_os.AddressSpace.Indexes.{
  Indexes, Succeeds, Lacks, state-cases, with_calls, with_tree, running, twice, Cached-add,
  Distinct-add, IsFresh-add, unmarked,
}

-- A region that is allocated stands between the regions at a place.
abbrev pub Fits : List Region → Region → List Region → Type 0
Fits before r ys =
    is_allocated (r.state) ≡ true
    → Below (r.start) (keyed_before before) × Above (r.start) (keyed ys)

pub enter_region-Succeeds :
    (sp : Option ℕ) (ix : Index) (before : List Region) (r : Region) (ys : List Region)
    → Indexes none ix (onto before ys)
    → tally (is_named (r.id)) (onto before ys) ≡ 0
    → r.id < ix.fresh
    → Fits before r ys
    → Lacks sp (ix.fresh) (onto before (r ∷ ys))
    → Succeeds sp (enter_region (r.state) r ix) (onto before (r ∷ ys))
enter_region-Succeeds sp ix before r ys (t, f, c, d, n, l) new old fits l' =
    let c' = Cached-add (ix.find_cache) before r ys c in
    let d' = Distinct-add before r ys d new in
    let n' = IsFresh-add (ix.fresh) before r ys n old in
    let by = λ (s : RegionState). enter_region s r ix in
    elim (state-cases (r.state)) [
      | inl e ↦
          let (free, map, ran, f') =
            vm_freelist_insert-Relists ix before r ys f (ap is_free e) new in
          (
            with_lists ix free map,
            ap by e ∙ ran,
            ((InTree-same (ix.tree) before r ys (ap is_allocated e)).0 t, f', c', d', n', l'),
          )
      | inr (inl e) ↦
          let (below, above) = fits (ap is_allocated e) in
          let (tree, grown, t') =
            InTree-insert (ix.tree) before r ys t (ap is_allocated e) below above in
          (
            with_tree ix tree,
            ap by e ∙ running (λ t. some (with_tree ix t)) grown,
            (
              t',
              ((InLists-other (ix.free) before r ys (ap is_free e)).0 (f.0), f.1),
              c',
              d',
              n',
              l',
            ),
          )
      | inr (inr e) ↦ (
        ix,
        ap by e,
        (
          (InTree-same (ix.tree) before r ys (ap is_allocated e)).0 t,
          ((InLists-other (ix.free) before r ys (ap is_free e)).0 (f.0), f.1),
          c',
          d',
          n',
          l',
        ),
      )
    ]

-- The calls that a split makes, in a state that has the same regions.
enter_split-calls :
    (s : RegionState) (split : Region) (ix : Index)
    → (cs : List VmCall) × (enter_split s split ix ≡ enter_region s split (with_calls ix cs))
enter_split-calls vm_region_free split ix = (ix.calls, refl)
enter_split-calls vm_region_allocated split ix =
    let (cs, kept) =
      twice (split.amap) (split.handle) VmCall.vm_amap_retain VmCall.object_handle_retain ix in
    (cs, ap (tree_insert (split.start) (split.id)) kept)
enter_split-calls vm_region_reserved split ix = (ix.calls, refl)

-- A region and what a step returns with it.
abbrev pub Makes : Option ℕ → Option (Region × Index) → Region → List Region → Type 0
Makes sp o r rs = (ix : Index) × (o ≡ some (r, ix)) × Indexes sp ix rs

pub Lacks-add :
    (sp : Option ℕ) (fresh : ℕ) (before : List Region) (r : Region) (ys : List Region)
    → Lacks sp fresh (onto before ys)
    → r.id ≡ fresh
    → Lacks sp (suc fresh) (onto before (r ∷ ys))
Lacks-add none fresh before r ys l e = tt
Lacks-add (some x) fresh before r ys (old, new) e =
    let other : (r.id == x) ≡ false = ground arith in
    (omega (arith, old), tally-here (is_named x) before r ys ∙ rw other (omega (arith, new)))

pub split_region-Makes :
    (sp : Option ℕ) (ix : Index) (before : List Region) (r : Region) (ys : List Region)
    (start size : ℕ)
    → Indexes sp ix (onto before ys)
    → Fits before (top_half r (ix.fresh) start size) ys
    → Makes sp
        (split_region r start size ix)
        (top_half r (ix.fresh) start size)
        (onto before (top_half r (ix.fresh) start size ∷ ys))
unfolding split_region
split_region-Makes sp ix before r ys start size (t, f, c, d, n, l) fits =
    let split = top_half r (ix.fresh) start size in
    let later = record ix { fresh = suc (ix.fresh) } in
    let (cs, same) = enter_split-calls (split.state) split later in
    let (ix', ran, good) =
      enter_region-Succeeds sp (with_calls later cs) before split ys
        (t, f, c, d, (λ x h. n x (omega (arith, h))), tt) (n (ix.fresh) (omega arith)) (omega arith)
        fits (Lacks-add sp (ix.fresh) before split ys l refl) in
    (ix', running (λ ix. some (split, ix)) (same ∙ ran), good)

pub Below-trans : (k m : ℕ) (es : List Entry) → k ≤ m → Below k es → Below m es
Below-trans k m [] h b = tt
Below-trans k m ((x, w) ∷ es) h b = (omega (arith, h, b.0), Below-trans k m es h b.1)

pub named_once :
    (before : List Region) (r : Region) (ys : List Region)
    → Distinct (onto before (r ∷ ys))
    → tally (is_named (r.id)) (onto before ys) ≡ 0
named_once before r ys once =
    let named = tally-here (is_named (r.id)) before r ys in
    let one = rw (==_refl (r.id)) at named in let most = once (r.id) in omega (arith, one, most)

pub unflagged : (r : Region) → is_free (r.state) ≡ true → is_odd r ≡ false → (r.flags == 0) ≡ true
unflagged r f sound = elim (state-cases (r.state)) [
  | inl e ↦ unmarked (r.flags == 0) (rw e at sound)
  | inr (inl e) ↦ absurd (false≢true (sym (ap is_free e) ∙ f))
  | inr (inr e) ↦ absurd (false≢true (sym (ap is_free e) ∙ f))
]

-- A place behind a region, and before the regions behind it.
pub Fits_behind :
    (t : Tree) (before : List Region) (r : Region) (ys : List Region) (k : ℕ) {m : ℕ}
    → InTree t (onto before (r ∷ ys))
    → r.start < k
    → is_allocated (r.state) ≡ true
    → k < m
    → StartsFrom m ys
    → Below k (keyed_before (r ∷ before)) × Above k (keyed ys)
unfolding onto
Fits_behind t before r ys k {m} tree h a lt next =
    let (below, above) = sides t before r ys tree a in
    let all =
      Below-append k (keyed_before before) ((r.start, r.id) ∷ keyed [])
        (Below-trans (r.start) k (keyed_before before) (omega (arith, h)) below)
        (h, unfold keyed in tt) in
    (subst (Below k) (sym (keyed-here before r [] a)) all, Above-keyed k m ys lt next)
