-- ===== src/Object/Release.antt =====
-- The release of a reference, and the entries without one.
use infinity_os.Base.{
  ℕ, zero, suc, ◌+◌, ◌-◌, ◌<◌, ◌≡◌, ◌≢◌, refl, true, false, Option, some, ◌==◌, arith, ap, ◌∙◌, sym,
  subst, Bool-cases, inl, inr,
}
use infinity_os.Object.{Heap, put_at, Call, call, object_handle_release}
use infinity_os.Object.Counts.{
  one, one_self, slots, Owned, Owned-put_at, SameTypes, SameTypes-put_at, more, more-away,
  more-here, Leaves, handles-call,
}

release_last :
    (h : ℕ) (heap : Heap) (refs : ℕ → ℕ)
    → Owned (heap.handles) (more refs h)
    → refs h ≡ 0
    → Leaves heap (object_handle_release h heap) refs
unfolding object_handle_release
release_last h heap refs o last =
    let counted : (heap.handles h).count ≡ 1 = (o h).0 ∙ omega (arith, more-here refs h, last) in
    let alive : (heap.handles h).freed ≡ false = (o h).1 ∙ ground (arith, more-here refs h) in
    let hs = (call ((heap.handles h).type.has_close) (Call.close_handle h) heap).handles in
    let same : hs ≡ heap.handles =
      handles-call ((heap.handles h).type.has_close) (Call.close_handle h) heap in
    let x = record (hs h) { count = 0; freed = true } in
    (
      record (call ((heap.handles h).type.has_close) (Call.close_handle h) heap) {
        handles = put_at hs h x;
      },
      rw alive (rw counted refl),
      Owned-put_at hs (more refs h) refs h x (subst (λ f. Owned f (more refs h)) (sym same) o)
          (sym last) (ground arith) (more-away refs h),
      subst (λ f. SameTypes f (put_at hs h x)) same (SameTypes-put_at hs h x refl),
    )

release_other :
    (h : ℕ) (heap : Heap) (refs : ℕ → ℕ)
    → Owned (heap.handles) (more refs h)
    → 0 < refs h
    → Leaves heap (object_handle_release h heap) refs
unfolding object_handle_release
release_other h heap refs o shared =
    let counted : (heap.handles h).count ≡ refs h + 1 = (o h).0 ∙ more-here refs h in
    let alive : (heap.handles h).freed ≡ false = (o h).1 ∙ ground (arith, more-here refs h) in
    let x = record (heap.handles h) { count = (heap.handles h).count - 1 } in
    let some_left : ((heap.handles h).count == 0) ≡ false = ground arith in
    let not_last : ((heap.handles h).count == 1) ≡ false = ground arith in
    (
      record heap { handles = put_at (heap.handles) h x },
      rw alive (rw some_left (rw not_last refl)),
      Owned-put_at (heap.handles) (more refs h) refs h x o (omega (arith, counted))
          (alive ∙ ground arith) (more-away refs h),
      SameTypes-put_at (heap.handles) h x refl,
    )

pub object_handle_release-Leaves :
    (h : ℕ) (heap : Heap) (refs : ℕ → ℕ)
    → Owned (heap.handles) (more refs h)
    → Leaves heap (object_handle_release h heap) refs
object_handle_release-Leaves h heap refs o = elim (Bool-cases (refs h == 0)) [
  | inl p ↦ release_last h heap refs o (ground arith)
  | inr p ↦ release_other h heap refs o (ground arith)
]

pub slots-same :
    (n : ℕ) (f g : ℕ → Option ℕ) (h : ℕ) → ((i : ℕ) → f i ≡ g i) → slots n f h ≡ slots n g h
unfolding slots
slots-same zero f g h same = refl
slots-same (suc n) f g h same = rw (slots-same n f g h same) (rw (same n) refl)

pub ==→eq : (a b : ℕ) → (a == b) ≡ true → a ≡ b
==→eq a b p = ground arith

-- A handle without references is in no entry.
pub slots-zero : (n : ℕ) (f : ℕ → Option ℕ) (h i : ℕ) → i < n → slots n f h ≡ 0 → f i ≢ some h
unfolding slots
slots-zero zero f h i lt none_at here = absurd (omega arith)
slots-zero (suc n) f h i lt none_at here = elim (Bool-cases (i == n)) [
  | inl p ↦
      let same : f n ≡ some h = ap f (sym (==→eq i n p)) ∙ here in
      let counted : one (f n) h ≡ 1 = rw same (one_self h) in omega (arith, none_at, counted)
  | inr p ↦ slots-zero n f h i (ground arith) (omega (arith, none_at)) here
]

pub slots-positive : (n : ℕ) (f : ℕ → Option ℕ) (h i : ℕ) → i < n → f i ≡ some h → 0 < slots n f h
slots-positive n f h i lt here = elim (Bool-cases (slots n f h == 0)) [
  | inl p ↦ absurd (slots-zero n f h i lt (==→eq (slots n f h) 0 p) here)
  | inr p ↦ positive (slots n f h) p
]
  where
    positive : (m : ℕ) → (m == 0) ≡ false → 0 < m
    positive m p = ground arith
