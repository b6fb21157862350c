-- ===== src/Object/Counts.antt =====
-- The references that a table holds, and the counts of the handles.
use infinity_os.Base.{
  ℕ, zero, suc, ◌+◌, ◌≤◌, ◌<◌, ◌≡◌, refl, Bool, true, false, Option, none, some, List, [], ◌∷◌,
  if◌then◌else◌, ◌==◌, arith, ap, ◌∙◌, sym, subst, Bool-cases, inl, inr, ==_refl,
}
use infinity_os.Object.{
  Handle, Heap, Wait, put_at, Call, call, object_handle_retain, remove_callbacks,
}

-- How often an entry names a handle.
abbrev pub one : Option ℕ → ℕ → ℕ
one none h = 0
one (some x) h = if x == h then 1 else 0

pub one_self : (h : ℕ) → one (some h) h ≡ 1
one_self h = rw (==_refl h) refl

-- How many of the first entries of a table name a handle.
unfoldable pub slots : ℕ → (ℕ → Option ℕ) → ℕ → ℕ
slots zero f h = 0
slots (suc n) f h = slots n f h + one (f n) h

slots-put_at_above :
    (n : ℕ) (f : ℕ → Option ℕ) (i : ℕ) (o : Option ℕ) (h : ℕ)
    → n ≤ i
    → slots n (put_at f i o) h ≡ slots n f h
unfolding slots put_at
slots-put_at_above zero f i o h le = refl
slots-put_at_above (suc n) f i o h le =
    let away : (i == n) ≡ false = ground arith in
    rw (slots-put_at_above n f i o h (omega arith)) (rw away refl)

pub slots-put_at :
    (n : ℕ) (f : ℕ → Option ℕ) (i : ℕ) (o : Option ℕ) (h : ℕ)
    → i < n
    → slots n (put_at f i o) h + one (f i) h ≡ slots n f h + one o h
unfolding slots put_at
slots-put_at zero f i o h lt = absurd (omega arith)
slots-put_at (suc n) f i o h lt = elim (Bool-cases (i == n)) [
  | inl here ↦
      let same : i ≡ n = ground arith in
      let below = slots-put_at_above n f i o h (omega arith) in
      rw here (
        subst
          (λ j.
            slots n (put_at f i o) h + one o h + one (f j) h ≡ slots n f h + one (f n) h + one o h)
          (sym same) (omega (arith, below)))
  | inr away ↦ let rest = slots-put_at n f i o h (ground arith) in rw away (omega (arith, rest))
]

pub put_at-here {ℓ} : {A : Type ℓ} (f : ℕ → A) (i : ℕ) (a : A) → put_at f i a i ≡ a
unfolding put_at
put_at-here f i a = rw (==_refl i) refl

pub put_at-away {ℓ} :
    {A : Type ℓ} (f : ℕ → A) (i : ℕ) (a : A) (j : ℕ) → (i == j) ≡ false → put_at f i a j ≡ f j
unfolding put_at
put_at-away f i a j away = rw away refl

-- What holds at one place and at every other one holds everywhere.
pub everywhere : {P : ℕ → Type 0} (i : ℕ) → P i → ((j : ℕ) → (i == j) ≡ false → P j) → (j : ℕ) → P j
everywhere {P = P} i here away j = elim (Bool-cases (i == j)) [
  | inl same ↦ subst P (ground arith) here
  | inr other ↦ away j other
]

-- The counts are the numbers of the references, and a handle is freed when it has none.
abbrev pub Owned : (ℕ → Handle) → (ℕ → ℕ) → Type 0
Owned hs refs = (h : ℕ) → ((hs h).count ≡ refs h) × ((hs h).freed ≡ (refs h == 0))

pub Owned-same :
    (hs : ℕ → Handle) (refs refs' : ℕ → ℕ)
    → ((h : ℕ) → refs h ≡ refs' h)
    → Owned hs refs
    → Owned hs refs'
Owned-same hs refs refs' same o h = ((o h).0 ∙ same h, (o h).1 ∙ ap (λ n. n == 0) (same h))

pub Owned-put_at :
    (hs : ℕ → Handle) (refs refs' : ℕ → ℕ) (h : ℕ) (x : Handle)
    → Owned hs refs
    → x.count ≡ refs' h
    → x.freed ≡ (refs' h == 0)
    → ((k : ℕ) → (h == k) ≡ false → refs k ≡ refs' k)
    → Owned (put_at hs h x) refs'
Owned-put_at hs refs refs' h x o p q r =
    everywhere h
      (ap (λ y. y.count) (put_at-here hs h x) ∙ p, ap (λ y. y.freed) (put_at-here hs h x) ∙ q)
      (λ k away.
        let e = put_at-away hs h x k away in
        (
          ap (λ y. y.count) e ∙ (o k).0 ∙ r k away,
          ap (λ y. y.freed) e ∙ (o k).1 ∙ ap (λ n. n == 0) (r k away),
        ))

-- The handles keep their types.
abbrev pub SameTypes : (ℕ → Handle) → (ℕ → Handle) → Type 0
SameTypes hs hs' = (h : ℕ) → (hs' h).type ≡ (hs h).type

pub SameTypes-put_at :
    (hs : ℕ → Handle) (h : ℕ) (x : Handle) → x.type ≡ (hs h).type → SameTypes hs (put_at hs h x)
SameTypes-put_at hs h x p =
    everywhere h (ap (λ y. y.type) (put_at-here hs h x) ∙ p)
      (λ k away. ap (λ y. y.type) (put_at-away hs h x k away))

abbrev pub more : (ℕ → ℕ) → ℕ → ℕ → ℕ
more refs h k = refs k + one (some h) k

pub more-away : (refs : ℕ → ℕ) (h k : ℕ) → (h == k) ≡ false → more refs h k ≡ refs k
more-away refs h k away = rw away (omega arith)

pub more-here : (refs : ℕ → ℕ) (h : ℕ) → more refs h h ≡ refs h + 1
more-here refs h = rw (==_refl h) refl

-- A change of the handles that succeeds.
abbrev pub Leaves : Heap → Option Heap → (ℕ → ℕ) → Type 0
Leaves heap o refs =
    (heap' : Heap) × (o ≡ some heap')
    × Owned (heap'.handles) refs
    × SameTypes (heap.handles) (heap'.handles)

pub object_handle_retain-Leaves :
    (h : ℕ) (heap : Heap) (refs : ℕ → ℕ)
    → Owned (heap.handles) refs
    → 0 < refs h
    → Leaves heap (object_handle_retain h heap) (more refs h)
unfolding object_handle_retain
object_handle_retain-Leaves h heap refs o live =
    let alive : (heap.handles h).freed ≡ false = (o h).1 ∙ ground arith in
    let x = record (heap.handles h) { count = (heap.handles h).count + 1 } in
    (
      record heap { handles = put_at (heap.handles) h x },
      rw alive refl,
      Owned-put_at (heap.handles) refs (more refs h) h x o
          (ap (λ n. n + 1) ((o h).0) ∙ sym (more-here refs h))
          (alive ∙ ground (arith, more-here refs h)) (λ k away. sym (more-away refs h k away)),
      SameTypes-put_at (heap.handles) h x refl,
    )

pub handles-call : (b : Bool) (c : Call) (heap : Heap) → (call b c heap).handles ≡ heap.handles
handles-call true c heap = refl
handles-call false c heap = refl

pub handles-remove_callbacks :
    (ws : List Wait) (heap : Heap) → (remove_callbacks ws heap).handles ≡ heap.handles
unfolding remove_callbacks
handles-remove_callbacks [] heap = refl
handles-remove_callbacks (w ∷ ws) heap = handles-remove_callbacks ws _
