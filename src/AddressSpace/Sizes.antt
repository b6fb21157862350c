-- ===== src/AddressSpace/Sizes.antt =====
-- The search of the free lists for a region that is large enough.
use infinity_os.Base.{
  ℕ, zero, suc, ◌+◌, ◌/◌, ◌≤◌, ◌<◌, ◌≡◌, refl, Bool, true, false, ◌&&◌, Option, none, some, List,
  [], ◌∷◌, leb, ltb, ltb→lt, ◌==◌, arith, ap, ◌∙◌, ◌⊎◌, sym, Bool-cases, inl, inr, subst, ==_refl,
}
use mathlib.Core.Bool.{false≢true}
use mathlib.Core.Option.{some-injective, none-ne-some}
use infinity_os.AddressSpace.{
  Region, Index, AddressSpace, is_free, highbit_within, list_for, vm_freelists, list_empty,
  vm_freelist_empty, region_of,
}
use infinity_os.AddressSpace.Allocation.{any_bit, first_fit, search_lists}
use infinity_os.AddressSpace.Counts.{tally, is_listed, count}
use infinity_os.AddressSpace.Lists.{InFree, IsMapped, Distinct}
use infinity_os.AddressSpace.Pointers.{
  Distinct-tail, region_of_head, region_of_tail, region_of-named,
}

highbit_within_mono : (n a b : ℕ) → a ≤ b → highbit_within n a ≤ highbit_within n b
unfolding highbit_within
highbit_within_mono zero a b h = omega arith
highbit_within_mono (suc n) a b h =
    let ih = highbit_within_mono n (a / 2) (b / 2) (omega (arith, h)) in ground (arith, ih)

highbit_within_le : (n a : ℕ) → highbit_within n a ≤ n
unfolding highbit_within
highbit_within_le zero a = omega arith
highbit_within_le (suc n) a = let ih = highbit_within_le n (a / 2) in ground (arith, ih)

pub list_for_mono : (a b : ℕ) → a ≤ b → list_for a ≤ list_for b
unfolding list_for
list_for_mono a b h = let more = highbit_within_mono 64 a b h in omega (arith, more)

pub list_for_lt : (a : ℕ) → list_for a < vm_freelists
unfolding list_for
list_for_lt a = let most = highbit_within_le 64 a in omega (arith, most)

-- A region of a longer list is larger.
pub larger : (a b : ℕ) → list_for a < list_for b → a ≤ b
larger a b h = elim (Bool-cases (leb a b)) [
  | inl le ↦ ground arith
  | inr gt ↦ let order = list_for_mono b a (ground arith) in absurd (omega (arith, order, h))
]

-- A region that is counted, and a pointer to it.
pub tally-region_of :
    (p : Region → Bool) (rs : List Region)
    → Distinct rs
    → 0 < tally p rs
    → (q : Region) × (region_of (q.id) rs ≡ some q) × (p q ≡ true)
unfolding tally
tally-region_of p [] once h = absurd (omega (arith, h))
tally-region_of p (r ∷ rs) once h = elim (Bool-cases (p r)) [
  | inl yes_p ↦ (r, region_of_head r rs (r.id) (==_refl (r.id)), yes_p)
  | inr no_p ↦
      let h = rw no_p at h in
      let (q, found, yes_p) = tally-region_of p rs (Distinct-tail r rs once) (omega (arith, h)) in
      (q, region_of_tail r rs (q.id) once (region_of-named (q.id) rs q found) ∙ found, yes_p)
]

pub region_of-tally :
    (p : Region → Bool) (x : ℕ) (rs : List Region) (q : Region)
    → region_of x rs ≡ some q
    → p q ≡ true
    → 0 < tally p rs
unfolding region_of tally
region_of-tally p x [] q found h = absurd (none-ne-some q found)
region_of-tally p x (r ∷ rs) q found h = elim (Bool-cases (r.id == x)) [
  | inl w ↦
      let same : r ≡ q = some-injective _ _ (rw w at found) in
      let here = ap p same ∙ h in rw here (omega arith)
  | inr w ↦ let more = region_of-tally p x rs q (rw w at found) h in omega (arith, more)
]

region_of-id : (x : ℕ) (rs : List Region) (q : Region) → region_of x rs ≡ some q → q.id ≡ x
unfolding region_of
region_of-id x [] q found = absurd (none-ne-some q found)
region_of-id x (r ∷ rs) q found = elim (Bool-cases (r.id == x)) [
  | inl w ↦
      let same = ap (λ (z : Region). z.id) (some-injective _ _ (rw w at found)) in
      sym same ∙ ground arith
  | inr w ↦ region_of-id x rs q (rw w at found)
]

-- A free region that is large enough, and the pointer to it.
abbrev pub IsFit : (size : ℕ) → List Region → Region → Type 0
IsFit size rs q = (region_of (q.id) rs ≡ some q) × (is_free (q.state) ≡ true) × (size ≤ q.size)

abbrev pub Search : (size : ℕ) → List Region → (small : Type 0) → Option (Option Region) → Type 0
Search size rs small o =
    ((q : Region) × (o ≡ some (some q)) × IsFit size rs q) ⊎ ((o ≡ some none) × small)

abbrev AllSmall : (size : ℕ) → List Region → List ℕ → Type 0
AllSmall size rs ids =
    (x : ℕ) (q : Region) → 0 < count x ids → region_of x rs ≡ some q → q.size < size

abbrev Free : List Region → List ℕ → Type 0
Free rs ids =
    (x : ℕ)
    → 0 < count x ids
    → (q : Region) × (region_of x rs ≡ some q) × (is_free (q.state) ≡ true)

pub ==→eq : (a b : ℕ) → (a == b) ≡ true → a ≡ b
==→eq a b h = ground arith

pub both : (a b : Bool) → (a && b) ≡ true → (a ≡ true) × (b ≡ true)
both true b h = (refl, h)
both false b h = absurd (false≢true h)

first_fit-Search :
    (size : ℕ) (ids : List ℕ) (rs : List Region)
    → Free rs ids
    → Search size rs (AllSmall size rs ids) (first_fit size ids rs)
unfolding first_fit count
first_fit-Search size [] rs free = inr (refl, λ x q h found. absurd (omega (arith, h)))
first_fit-Search size (id ∷ ids) rs free =
    let (q, found, is) = free id (rw (==_refl id) (omega arith)) in
    let rest = first_fit-Search size ids rs (λ x h. free x (omega (arith, h))) in
    elim (Bool-cases (ltb (q.size) size)) [
      | inl small ↦
          let round : first_fit size (id ∷ ids) rs ≡ first_fit size ids rs =
            rw found (rw (is, small) refl) in
          elim rest [
            | inl (w, ran, fit) ↦ inl (w, round ∙ ran, fit)
            | inr (ran, all) ↦ inr (
              round ∙ ran,
              λ x w h at_x. elim (Bool-cases (id == x)) [
                | inl same ↦
                    let eq = ap (λ i. region_of i rs) (==→eq id x same) in
                    let size_eq =
                      ap (λ (z : Region). z.size)
                        (some-injective _ _ (sym at_x ∙ sym eq ∙ found)) in
                    let lt = ltb→lt (q.size) size small in omega (arith, size_eq, lt)
                | inr other ↦ let h = rw other at h in all x w (omega (arith, h)) at_x
              ],
            )
          ]
      | inr fits ↦ inl (
        q,
        rw found (rw (is, fits) refl),
        (ap (λ i. region_of i rs) (region_of-id id rs q found) ∙ found, is, ground arith),
      )
    ]

-- The regions of the lists from one on are small.
abbrev pub ListsSmall : (n list size : ℕ) → AddressSpace → Type 0
ListsSmall n list size space =
    (i : ℕ) → list ≤ i → i < list + n → AllSmall size (space.regions) (space.index.free i)

pub listed-region :
    (ix : Index) (rs : List Region) (list x : ℕ)
    → InFree ix rs
    → Distinct rs
    → 0 < count x (ix.free list)
    → (q : Region) × (region_of x rs ≡ some q)
      × (is_free (q.state) ≡ true)
      × (list_for (q.size) ≡ list)
listed-region ix rs list x (l, m) once h =
    let here = l list x in
    let (q, found, is) = tally-region_of (is_listed list x) rs once (omega (arith, h, here)) in
    let parts = both (is_free (q.state) && (list_for (q.size) == list)) (q.id == x) is in
    let (free, size) = both (is_free (q.state)) (list_for (q.size) == list) (parts.0) in
    (
      q,
      ap (λ i. region_of i rs) (sym (==→eq (q.id) x (parts.1))) ∙ found,
      free,
      ==→eq (list_for (q.size)) list size,
    )

listed-Free :
    (ix : Index) (rs : List Region) (list : ℕ) → InFree ix rs → Distinct rs → Free rs (ix.free list)
listed-Free ix rs list free once x h =
    let (q, found, is, size) = listed-region ix rs list x free once h in (q, found, is)

no_ids : (x : ℕ) (ids : List ℕ) → list_empty ids ≡ true → count x ids ≡ 0
unfolding count
no_ids x [] e = refl
no_ids x (y ∷ ids) e = absurd (false≢true e)

vm_freelist_empty-is :
    (ix : Index) (list : ℕ)
    → IsMapped (ix.free) (ix.free_map)
    → vm_freelist_empty ix list ≡ some (list_empty (ix.free list))
unfolding vm_freelist_empty
vm_freelist_empty-is ix list m = elim (Bool-cases (list_empty (ix.free list))) [
  | inl e ↦ rw (m list) (rw e refl)
  | inr e ↦ rw (m list) (rw e refl)
]

later_lists :
    (n list size : ℕ) (space : AddressSpace) {o : Option (Option Region)}
    → Search size
        (space.regions)
        (ListsSmall n (suc list) size space)
        (search_lists n (suc list) size space)
    → o ≡ search_lists n (suc list) size space
    → AllSmall size (space.regions) (space.index.free list)
    → Search size (space.regions) (ListsSmall (suc n) list size space) o
later_lists n list size space (inl (q, ran, fit)) same small = inl (q, same ∙ ran, fit)
later_lists n list size space (inr (ran, all)) same small = inr (
  same ∙ ran,
  λ i h k. elim (Bool-cases (list == i)) [
    | inl here ↦
        subst (λ j. AllSmall size (space.regions) (space.index.free j)) (==→eq list i here) small
    | inr away ↦ all i (ground arith) (omega (arith, k))
  ],
)

pub search_lists-Search :
    (n list size : ℕ) (space : AddressSpace)
    → InFree (space.index) (space.regions)
    → Distinct (space.regions)
    → Search size (space.regions) (ListsSmall n list size space) (search_lists n list size space)
unfolding search_lists
search_lists-Search zero list size space free once =
    inr (refl, λ i h k. absurd (omega (arith, h, k)))
search_lists-Search (suc n) list size space free once =
    let rs = space.regions in
    let ids = space.index.free list in
    let tested = vm_freelist_empty-is (space.index) list (free.1) in
    let rest = search_lists-Search n (suc list) size space free once in
    elim (Bool-cases (list_empty ids)) [
      | inl e ↦
          later_lists n list size space rest (rw (tested, e) refl)
            (λ x q h found. let zero_ids = no_ids x ids e in absurd (omega (arith, h, zero_ids)))
      | inr e ↦ elim (first_fit-Search size ids rs (listed-Free (space.index) rs list free once)) [
        | inl (q, ran, fit) ↦ inl (q, rw (tested, e, ran) refl, fit)
        | inr (ran, small) ↦ later_lists n list size space rest (rw (tested, e, ran) refl) small
      ]
    ]

pub any_bit-set :
    (n : ℕ) (map : ℕ → Bool) (i : ℕ) → any_bit n map i ≡ true → (j : ℕ) × (i ≤ j) × (map j ≡ true)
unfolding any_bit
any_bit-set zero map i h = absurd (false≢true h)
any_bit-set (suc n) map i h = elim (Bool-cases (map i)) [
  | inl here ↦ (i, omega arith, here)
  | inr away ↦
      let (j, le, set_j) = any_bit-set n map (suc i) (rw away at h) in (j, omega (arith, le), set_j)
]
