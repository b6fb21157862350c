-- ===== src/AddressSpace/Resize.antt =====
-- The structures that find a region, when it changes its range.
use infinity_os.AddressSpace.Steps.{Below-trans}
use infinity_os.Base.{
  ℕ, ◌+◌, ◌≤◌, ◌<◌, ◌≡◌, refl, Bool, false, ◌&&◌, Option, none, some, List, ◌∷◌, ◌++◌, ◌==◌, arith,
  ap, ◌∙◌, sym, Bool-cases, inl, inr, subst,
}
use infinity_os.AvlTree.{Tree}
use infinity_os.AddressSpace.{
  ◌>>=◌, Region, is_free, is_allocated, list_for, Index, vm_freelist_insert, vm_freelist_remove,
}
use infinity_os.AddressSpace.Change.{
  onto, tree_insert, tree_remove, at_range, moved, moved_in_tree, moved_in_lists, resize_region,
}
use infinity_os.AddressSpace.Counts.{mark, tally, is_named, is_listed, is_held, is_odd}
use infinity_os.AddressSpace.Keys.{
  keyed, keyed-here, keyed-other, keyed_before, InTree, InTree-insert, InTree-remove, InTree-same,
  sides, StartsFrom, Above-keyed,
}
use infinity_os.AddressSpace.Lists.{
  InFree, Distinct, tally-here, InLists-other, vm_freelist_insert-Relists,
  vm_freelist_remove-Relists, with_lists, Relists,
}
use infinity_os.AddressSpace.Indexes.{Indexes, Cached, IsFresh, Lacks, with_tree, running}
use infinity_os.AddressSpace.Steps.{Makes, named_once, unflagged}

-- A region changes its range where it stands.
module _ (before : List Region) (r : Region) (ys : List Region) (start size : ℕ) where
  abbrev pub resized : Region
  resized = at_range start size (moved r start)

  same_tally :
      (p : Region → Bool)
      → p r ≡ p resized
      → tally p (onto before (r ∷ ys)) ≡ tally p (onto before (resized ∷ ys))
  same_tally p e =
      tally-here p before r ys
      ∙ ap (λ b. mark b + tally p (onto before ys)) e
      ∙ sym (tally-here p before resized ys)

  Cached-same :
      (cache : Option ℕ)
      → Cached cache (onto before (r ∷ ys))
      → Cached cache (onto before (resized ∷ ys))
  Cached-same none h = tt
  Cached-same (some c) h = subst (λ n. 0 < n) (same_tally (is_held c) refl) h

  Distinct-same : Distinct (onto before (r ∷ ys)) → Distinct (onto before (resized ∷ ys))
  Distinct-same d x = subst (λ n. n ≤ 1) (same_tally (is_named x) refl) (d x)

  IsFresh-same :
      (fresh : ℕ)
      → IsFresh fresh (onto before (r ∷ ys))
      → IsFresh fresh (onto before (resized ∷ ys))
  IsFresh-same fresh n x h = sym (same_tally (is_named x) refl) ∙ n x h

  Lacks-same :
      (sp : Option ℕ) (fresh : ℕ)
      → Lacks sp fresh (onto before (r ∷ ys))
      → Lacks sp fresh (onto before (resized ∷ ys))
  Lacks-same none fresh l = tt
  Lacks-same (some x) fresh (old, new) = (old, sym (same_tally (is_named x) refl) ∙ new)

  same_keys : r.start ≡ start → keyed (onto before (r ∷ ys)) ≡ keyed (onto before (resized ∷ ys))
  same_keys e = elim (Bool-cases (is_allocated (r.state))) [
    | inl a ↦
        keyed-here before r ys a
        ∙ ap (λ k. keyed_before before ++ (k, r.id) ∷ keyed ys) e
        ∙ sym (keyed-here before resized ys a)
    | inr u ↦ keyed-other before r ys u ∙ sym (keyed-other before resized ys u)
  ]

  tree_moved :
      (ix : Index) (m : ℕ)
      → InTree (ix.tree) (onto before (r ∷ ys))
      → r.start ≤ start
      → start < m
      → StartsFrom m ys
      → (t : Tree) × (moved_in_tree r start ix ≡ some (with_tree ix t))
        × InTree t (onto before (resized ∷ ys))
  tree_moved ix m t h lt next = elim (Bool-cases (start == r.start)) [
    | inl p ↦
        let same : r.start ≡ start = ground arith in
        (ix.tree, rw p refl, (t.0, t.1 ∙ same_keys same))
    | inr p ↦ elim (Bool-cases (is_allocated (r.state))) [
      | inl a ↦
          let (below, above) = sides (ix.tree) before r ys t a in
          let (cut, gone, t1) = InTree-remove (ix.tree) before r ys t a in
          let (grown, back, t2) =
            InTree-insert cut before resized ys t1 a
              (Below-trans (r.start) start (keyed_before before) h below)
              (Above-keyed start m ys lt next) in
          let go = λ (ix : Index). tree_insert start (r.id) ix in
          let opened_map : moved_in_tree r start ix ≡ (tree_remove (r.start) ix >>= go) =
            rw (p, a) refl in
          (
            grown,
            opened_map
                ∙ running go (running (λ t. some (with_tree ix t)) gone)
                ∙ running (λ t. some (with_tree ix t)) back,
            t2,
          )
      | inr u ↦
          let away = (InTree-same (ix.tree) before r ys u).1 t in
          (ix.tree, rw (p, u) refl, (InTree-same (ix.tree) before resized ys u).0 away)
    ]
  ]

  lists_moved :
      (ix : Index)
      → InFree ix (onto before (r ∷ ys))
      → Distinct (onto before (r ∷ ys))
      → is_odd r ≡ false
      → Relists (moved_in_lists r size ix) ix (onto before (resized ∷ ys))
  unfolding vm_freelist_insert
  lists_moved ix (l, m) once sound = elim (Bool-cases (size == r.size)) [
    | inl p ↦
        let same : r.size ≡ size = ground arith in
        (
          ix.free,
          ix.free_map,
          rw p refl,
          (
            (λ i x.
                l i x
                ∙ same_tally (is_listed i x)
                    (ap (λ n. (is_free (r.state) && (list_for n == i)) && (r.id == x)) same)),
            m,
          ),
        )
    | inr p ↦ elim (Bool-cases (is_free (r.state))) [
      | inl f ↦
          let (free, map, gone, left) =
            vm_freelist_remove-Relists ix before r ys (l, m) once f (unflagged r f sound) in
          let (free', map', back, done) =
            vm_freelist_insert-Relists (with_lists ix free map) before resized ys left f
              (named_once before r ys once) in
          let go = λ (ix : Index). vm_freelist_insert r size ix in
          let opened_map : moved_in_lists r size ix ≡ (vm_freelist_remove r ix >>= go) =
            rw (p, f) refl in
          (free', map', opened_map ∙ running go gone ∙ back, done)
      | inr u ↦
          let away = (InLists-other (ix.free) before r ys u).1 l in
          (
            ix.free,
            ix.free_map,
            rw (p, u) refl,
            ((InLists-other (ix.free) before resized ys u).0 away, m),
          )
    ]
  ]

  pub resize_region-Makes :
      (sp : Option ℕ) (ix : Index) (m : ℕ)
      → Indexes sp ix (onto before (r ∷ ys))
      → is_odd r ≡ false
      → r.start ≤ start
      → start < m
      → StartsFrom m ys
      → Makes sp (resize_region r start size ix) resized (onto before (resized ∷ ys))
  unfolding resize_region
  resize_region-Makes sp ix m (t, f, c, d, n, l) sound h lt next =
      let (tree, ran, t') = tree_moved ix m t h lt next in
      let (free, map, listed, f') = lists_moved (with_tree ix tree) f d sound in
      (
        with_lists (with_tree ix tree) free map,
        running (λ ix. moved_in_lists r size ix >>= λ ix. some (resized, ix)) ran
            ∙ running (λ ix. some (resized, ix)) listed,
        (
          t',
          f',
          Cached-same (ix.find_cache) c,
          Distinct-same d,
          IsFresh-same (ix.fresh) n,
          Lacks-same sp (ix.fresh) l,
        ),
      )
