-- ===== src/AddressSpace/Pointers.antt =====
-- What the pointers of the tree and the cache point to.
use infinity_os.Base.{
  ℕ, ◌+◌, ◌<◌, ◌≡◌, refl, Bool, true, false, ◌&&◌, some, List, [], ◌∷◌, ◌++◌, ◌==◌, arith, ap, ◌∙◌,
  sym, Bool-cases, inl, inr, ==_refl,
}
use mathlib.Core.Bool.{true≢false}
use mathlib.Core.Option.{some-injective, none-ne-some}
use infinity_os.AvlTree.Entries.{Entry}
use infinity_os.AddressSpace.{Region, is_allocated, vm_region_contains, region_of}
use infinity_os.AddressSpace.Counts.{mark, tally, is_named, is_held, held-le-named}
use infinity_os.AddressSpace.Keys.{keyed}
use infinity_os.AddressSpace.Lists.{Distinct}

pub region_of-named :
    (id : ℕ) (rs : List Region) (q : Region) → region_of id rs ≡ some q → 0 < tally (is_named id) rs
unfolding region_of tally
region_of-named id [] q h = absurd (none-ne-some q h)
region_of-named id (r ∷ rs) q h = elim (Bool-cases (r.id == id)) [
  | inl w ↦ rw w (omega arith)
  | inr w ↦ let more = region_of-named id rs q (rw w at h) in rw w (omega (arith, more))
]

pub region_of-held :
    (id : ℕ) (rs : List Region) (q : Region)
    → region_of id rs ≡ some q
    → is_allocated (q.state) ≡ true
    → 0 < tally (is_held id) rs
unfolding region_of tally
region_of-held id [] q h al = absurd (none-ne-some q h)
region_of-held id (r ∷ rs) q h al = elim (Bool-cases (r.id == id)) [
  | inl w ↦
      let same : r ≡ q = some-injective _ _ (rw w at h) in
      let held = ap (λ (x : Region). is_allocated (x.state)) same ∙ al in rw (w, held) (omega arith)
  | inr w ↦ let more = region_of-held id rs q (rw w at h) al in omega (arith, more)
]

-- What a pointer of the tree or the cache points to.
abbrev pub Allocated : (id : ℕ) (rs : List Region) → Type 0
Allocated id rs = (q : Region) × (region_of id rs ≡ some q) × (is_allocated (q.state) ≡ true)

pub Distinct-tail : (r : Region) (rs : List Region) → Distinct (r ∷ rs) → Distinct rs
unfolding tally
Distinct-tail r rs once x = let most = once x in omega (arith, most)

-- A region has the name of none behind it.
pub new_name :
    (r : Region) (rs : List Region) (id : ℕ)
    → Distinct (r ∷ rs)
    → 0 < tally (is_named id) rs
    → (r.id == id) ≡ false
unfolding tally
new_name r rs id once h =
    let most = once id in
    elim (Bool-cases (r.id == id)) [
      | inl w ↦ let most = rw w at most in absurd (omega (arith, most, h))
      | inr w ↦ w
    ]

pub region_of_tail :
    (r : Region) (rs : List Region) (id : ℕ)
    → Distinct (r ∷ rs)
    → 0 < tally (is_named id) rs
    → region_of id (r ∷ rs) ≡ region_of id rs
unfolding region_of
region_of_tail r rs id once h = let other = new_name r rs id once h in rw other refl

pub region_of_head :
    (r : Region) (rs : List Region) (id : ℕ) → (r.id == id) ≡ true → region_of id (r ∷ rs) ≡ some r
unfolding region_of
region_of_head r rs id h = rw h refl

unmarked_held : (b : Bool) {n : ℕ} → 0 < mark (b && false) + n → 0 < n
unmarked_held true h = omega (arith, h)
unmarked_held false h = omega (arith, h)

pub Cached-Allocated :
    (c : ℕ) (rs : List Region) → Distinct rs → 0 < tally (is_held c) rs → Allocated c rs
unfolding tally
Cached-Allocated c [] once h = absurd (omega (arith, h))
Cached-Allocated c (r ∷ rs) once h = elim (Bool-cases (r.id == c)) [
  | inl w ↦ elim (Bool-cases (is_allocated (r.state))) [
    | inl al ↦ (r, region_of_head r rs c w, al)
    | inr un ↦
        let more : 0 < tally (is_held c) rs = (let h = rw un at h in omega (arith, h)) in
        let named = held-le-named c rs in
        absurd (true≢false (sym w ∙ new_name r rs c once (omega (arith, more, named))))
  ]
  | inr w ↦
      let more : 0 < tally (is_held c) rs =
        (let h = rw w at h in unmarked_held (is_allocated (r.state)) h) in
      let (q, found, al) = Cached-Allocated c rs (Distinct-tail r rs once) more in
      (q, region_of_tail r rs c once (region_of-named c rs q found) ∙ found, al)
]

-- The entries of the tree point to allocated regions, which start at the keys.
abbrev pub Known : List Region → List Entry → Type 0
Known rs [] = Unit {0}
Known rs ((k, v) ∷ es) =
    ((q : Region) × (region_of v rs ≡ some q) × (q.start ≡ k) × (is_allocated (q.state) ≡ true))
    × Known rs es

Known-cons :
    (r : Region) (rs : List Region) (es : List Entry)
    → Distinct (r ∷ rs)
    → Known rs es
    → Known (r ∷ rs) es
Known-cons r rs [] once known = tt
Known-cons r rs ((k, v) ∷ es) once ((q, found, start, al), known) = (
  (q, region_of_tail r rs v once (region_of-named v rs q found) ∙ found, start, al),
  Known-cons r rs es once known,
)

pub Known-keyed : (rs : List Region) → Distinct rs → Known rs (keyed rs)
unfolding keyed
Known-keyed [] once = tt
Known-keyed (r ∷ rs) once =
    let rest = Known-cons r rs (keyed rs) once (Known-keyed rs (Distinct-tail r rs once)) in
    elim (Bool-cases (is_allocated (r.state))) [
      | inl al ↦ rw al ((r, region_of_head r rs (r.id) (==_refl (r.id)), refl, al), rest)
      | inr un ↦ rw un rest
    ]

pub Known-append :
    (rs : List Region) (xs ys : List Entry) → Known rs (xs ++ ys) → Known rs xs × Known rs ys
Known-append rs [] ys known = (tt, known)
Known-append rs ((k, v) ∷ xs) ys (here, known) =
    let (left, right) = Known-append rs xs ys known in ((here, left), right)

-- No region of these entries contains the address.
abbrev pub Misses : List Region → List Entry → ℕ → Type 0
Misses rs [] addr = Unit {0}
Misses rs ((k, v) ∷ es) addr =
    ((q : Region) → region_of v rs ≡ some q → vm_region_contains q addr ≡ false) × Misses rs es addr

pub Misses-append :
    (rs : List Region) (xs ys : List Entry) (addr : ℕ)
    → Misses rs xs addr
    → Misses rs ys addr
    → Misses rs (xs ++ ys) addr
Misses-append rs [] ys addr m n = n
Misses-append rs ((k, v) ∷ xs) ys addr (h, m) n = (h, Misses-append rs xs ys addr m n)
