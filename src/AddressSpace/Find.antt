-- ===== src/AddressSpace/Find.antt =====
-- The search for the region at an address, by the cached pointer, the tree and the list.
use infinity_os.Base.{
  ℕ, ◌+◌, ◌≤◌, ◌<◌, ◌≡◌, refl, true, false, Option, none, some, List, [], ◌∷◌, if◌then◌else◌, leb,
  ◌==◌, arith, ap, ◌∙◌, sym, Bool-cases, inl, inr, subst, ◌⊎◌, ==_refl,
}
use mathlib.Core.Bool.{true≢false}
use mathlib.Core.Option.{some-injective, none-ne-some}
use infinity_os.AvlTree.{Tree, empty, node}
use infinity_os.AvlTree.Entries.{Entry, entries, Above, Below, IsSorted, split-IsSorted}
use infinity_os.AddressSpace.{
  Region, is_allocated, vm_region_contains, region_of, regions_behind, search_list, Search, hit,
  near, search_tree,
}
use infinity_os.AddressSpace.Keys.{keyed}
use infinity_os.AddressSpace.Lists.{Distinct}
use infinity_os.AddressSpace.Views.{Tiles, before-contains, behind-contains}
use infinity_os.AddressSpace.Owner.{owner, owner_away, region_of-bounds, disjoint}
use infinity_os.AddressSpace.Pointers.{
  Known, Misses, region_of-named, region_of_tail, region_of_head, Distinct-tail, Known-append,
  Misses-append,
}

-- The nearest allocated region on the left, which ends before the address.
abbrev pub IsLeft : List Region → ℕ → Option ℕ → Type 0
IsLeft rs addr none = Unit {0}
IsLeft rs addr (some id) = (q : Region) × (region_of id rs ≡ some q) × (q.start + q.size ≤ addr)

abbrev pub Hits : List Region → ℕ → Option Search → Type 0
Hits rs addr o =
    (id : ℕ) × (q : Region) × (o ≡ some (hit id))
    × (region_of id rs ≡ some q)
    × (is_allocated (q.state) ≡ true)
    × (vm_region_contains q addr ≡ true)

abbrev pub Nears : List Region → ℕ → List Entry → Option Search → Type 0
Nears rs addr es o =
    (last : Option ℕ) × (o ≡ some (near last)) × IsLeft rs addr last × Misses rs es addr

ends_before :
    (q : Region) (addr : ℕ)
    → q.start ≤ addr
    → vm_region_contains q addr ≡ false
    → q.start + q.size ≤ addr
unfolding vm_region_contains
ends_before q addr le c = ground arith

pub behind_owner :
    (rs : List Region) (m e addr : ℕ)
    → Tiles m rs e
    → (id : ℕ) (q : Region) → region_of id rs ≡ some q
    → q.start + q.size ≤ addr
    → owner (regions_behind id rs) addr ≡ owner rs addr
unfolding region_of regions_behind
behind_owner [] m e addr t id q found ends = refl
behind_owner (r ∷ rs) m e addr (st, p, a, t) id q found ends = elim (Bool-cases (r.id == id)) [
  | inl w ↦
      let same : r ≡ q = some-injective _ _ (rw w at found) in
      let start = ap (λ (z : Region). z.start) same in
      let size = ap (λ (z : Region). z.size) same in
      rw w
        (sym (owner_away r rs addr (behind-contains r addr p (omega (arith, ends, start, size)))))
  | inr w ↦
      let found' = rw w at found in
      let (low, pos, high, name) = region_of-bounds id rs (m + r.size) e q t found' in
      rw w (
        behind_owner rs (m + r.size) e addr t id q found' ends
        ∙ sym (owner_away r rs addr (behind-contains r addr p (omega (arith, st, low, ends)))))
]

module _ (rs : List Region) (m e addr : ℕ) (t : Tiles m rs e) where
  Misses-left :
      (id : ℕ) (q : Region) (es : List Entry)
      → region_of id rs ≡ some q
      → q.start ≤ addr
      → Known rs es
      → Below (q.start) es
      → Misses rs es addr
  Misses-left id q [] found le known below = tt
  Misses-left id q ((k, v) ∷ es) found le ((w, at_v, start, al), known) (lt, below) = (
    (λ x at_x.
        let same = ap (λ (z : Region). z.start) (some-injective _ _ (sym at_x ∙ at_v)) in
        let apart = disjoint v id rs m e x q t at_x found (omega (arith, same, start, lt)) in
        let (low, pos, high, name) = region_of-bounds v rs m e x t at_x in
        behind-contains x addr pos (omega (arith, apart, le))),
    Misses-left id q es found le known below,
  )

  Misses-right :
      (k0 : ℕ) (es : List Entry) → addr < k0 → Known rs es → Above k0 es → Misses rs es addr
  Misses-right k0 [] lt known above = tt
  Misses-right k0 ((k, v) ∷ es) lt ((w, at_v, start, al), known) (gt, above) = (
    (λ x at_x.
        let same = ap (λ (z : Region). z.start) (some-injective _ _ (sym at_x ∙ at_v)) in
        before-contains x addr (omega (arith, same, start, lt, gt))),
    Misses-right k0 es lt known above,
  )

  -- The round of the search at a node.
  searched :
      (l r : Tree) (k v h : ℕ) (last : Option ℕ) (q : Region)
      → region_of v rs ≡ some q
      → is_allocated (q.state) ≡ true
      → search_tree (node l k v h r) rs addr last ≡ (
          if leb (q.start) addr
          then (if vm_region_contains q addr then some (hit v) else search_tree r rs addr (some v))
          else search_tree l rs addr last)
  unfolding search_tree
  searched l r k v h last q found al = rw found (rw al refl)

  pub search_tree-finds :
      (tree : Tree) (last : Option ℕ)
      → Known rs (entries tree)
      → IsSorted (entries tree)
      → IsLeft rs addr last
      → Hits rs addr (search_tree tree rs addr last)
        ⊎ Nears rs addr (entries tree) (search_tree tree rs addr last)
  unfolding entries
  search_tree-finds empty last known sorted left = inr (last, unfold search_tree in refl, left, tt)
  search_tree-finds (node l k v h r) last known sorted left =
      let (known_l, ((q, found, start, al), known_r)) =
        Known-append rs (entries l) ((k, v) ∷ entries r) known in
      let (below, sorted_l, above, sorted_r) = split-IsSorted (entries l) k v (entries r) sorted in
      let round = searched l r k v h last q found al in
      let (low, pos, high, name) = region_of-bounds v rs m e q t found in
      elim (Bool-cases (leb (q.start) addr)) [
        | inl le ↦ elim (Bool-cases (vm_region_contains q addr)) [
          | inl c ↦ inl (v, q, round ∙ rw (le, c) refl, found, al, c)
          | inr c ↦
              let le' : q.start ≤ addr = ground arith in
              let ends : q.start + q.size ≤ addr = ends_before q addr le' c in
              let here = round ∙ rw (le, c) refl in
              let gone =
                Misses-left v q (entries l) found le' known_l
                  (subst (λ n. Below n (entries l)) (sym start) below) in
              let miss = λ (x : Region) (at_x : region_of v rs ≡ some x).
                ap (λ z. vm_region_contains z addr) (some-injective _ _ (sym at_x ∙ found)) ∙ c in
              elim (search_tree-finds r (some v) known_r sorted_r (q, found, ends)) [
                | inl (id, w, ran, x, y, z) ↦ inl (id, w, here ∙ ran, x, y, z)
                | inr (last', ran, left', misses) ↦ inr (
                  last',
                  here ∙ ran,
                  left',
                  Misses-append rs (entries l) ((k, v) ∷ entries r) addr gone (miss, misses),
                )
              ]
        ]
        | inr gt ↦
            let lt : addr < q.start = ground arith in
            let gone = Misses-right k (entries r) (omega (arith, lt, start)) known_r above in
            let miss = λ (x : Region) (at_x : region_of v rs ≡ some x).
              (let same = ap (λ (z : Region). z.start) (some-injective _ _ (sym at_x ∙ found)) in
                before-contains x addr (omega (arith, same, lt))) in
            let here = round ∙ rw gt refl in
            elim (search_tree-finds l last known_l sorted_l left) [
              | inl (id, w, ran, x, y, z) ↦ inl (id, w, here ∙ ran, x, y, z)
              | inr (last', ran, left', misses) ↦ inr (
                last',
                here ∙ ran,
                left',
                Misses-append rs (entries l) ((k, v) ∷ entries r) addr misses (miss, gone),
              )
            ]
      ]

pub search_list-owner :
    (rs : List Region) (addr : ℕ) (r : Region)
    → owner rs addr ≡ some r
    → is_allocated (r.state) ≡ false
    → search_list rs addr ≡ some (some (r.id))
unfolding owner search_list
search_list-owner [] addr r own un = absurd (none-ne-some r own)
search_list-owner (q ∷ rs) addr r own un = elim (Bool-cases (vm_region_contains q addr)) [
  | inl c ↦
      let same : q ≡ r = some-injective _ _ (rw c at own) in
      let un' = ap (λ (z : Region). is_allocated (z.state)) same ∙ un in
      rw (c, un') (ap (λ (z : Region). some (some (z.id))) same)
  | inr c ↦ rw c (search_list-owner rs addr r (rw c at own) un)
]

pub owner-contains :
    (rs : List Region) (addr : ℕ) (r : Region)
    → owner rs addr ≡ some r
    → vm_region_contains r addr ≡ true
unfolding owner
owner-contains [] addr r own = absurd (none-ne-some r own)
owner-contains (q ∷ rs) addr r own = elim (Bool-cases (vm_region_contains q addr)) [
  | inl c ↦
      let same : q ≡ r = some-injective _ _ (rw c at own) in
      ap (λ z. vm_region_contains z addr) (sym same) ∙ c
  | inr c ↦ owner-contains rs addr r (rw c at own)
]

pub region_of-owner :
    (rs : List Region) (addr : ℕ) (r : Region)
    → Distinct rs
    → owner rs addr ≡ some r
    → region_of (r.id) rs ≡ some r
unfolding owner
region_of-owner [] addr r once own = absurd (none-ne-some r own)
region_of-owner (q ∷ rs) addr r once own = elim (Bool-cases (vm_region_contains q addr)) [
  | inl c ↦
      let same : q ≡ r = some-injective _ _ (rw c at own) in
      region_of_head q rs (r.id) (ap (λ (z : Region). q.id == z.id) (sym same) ∙ ==_refl (q.id))
      ∙ ap some same
  | inr c ↦
      let rest = region_of-owner rs addr r (Distinct-tail q rs once) (rw c at own) in
      region_of_tail q rs (r.id) once (region_of-named (r.id) rs r rest) ∙ rest
]

-- The search of the tree does not miss an allocated region.
pub not_missed :
    (all rs : List Region) (addr : ℕ) (r : Region)
    → region_of (r.id) all ≡ some r
    → owner rs addr ≡ some r
    → Misses all (keyed rs) addr
    → is_allocated (r.state) ≡ false
unfolding owner keyed
not_missed all [] addr r found own misses = absurd (none-ne-some r own)
not_missed all (q ∷ rs) addr r found own misses = elim (Bool-cases (is_allocated (q.state))) [
  | inl al ↦
      let misses = rw al at misses in
      elim (Bool-cases (vm_region_contains q addr)) [
        | inl c ↦
            let same : q ≡ r = some-injective _ _ (rw c at own) in
            let found' =
              ap (λ (z : Region). region_of (z.id) all) same ∙ found ∙ ap some (sym same) in
            absurd (true≢false (sym c ∙ misses.0 q found'))
        | inr c ↦ not_missed all rs addr r found (rw c at own) (misses.1)
      ]
  | inr un ↦
      let misses = rw un at misses in
      elim (Bool-cases (vm_region_contains q addr)) [
        | inl c ↦
            let same : q ≡ r = some-injective _ _ (rw c at own) in
            ap (λ (z : Region). is_allocated (z.state)) (sym same) ∙ un
        | inr c ↦ not_missed all rs addr r found (rw c at own) misses
      ]
]
