-- ===== src/Sync/Rwlock/Taken.antt =====
-- Whom a transfer takes off the waiters.
use infinity_os.Base.{
  ℕ, ◌≡◌, refl, Bool, true, false, not, ◌&&◌, List, [], ◌∷◌, ◌++◌, ◌==◌, arith, inl, Bool-cases,
  inr, ap,
}
use infinity_os.Thread.Queue.{has, IsDistinct}
use infinity_os.Sync.Rwlock.Transfer.{leading, behind, exclusive, to_list, staying}
use infinity_os.Sync.Rwlock.System.{taken_off, select}

pub has_of_has-behind :
    (w : ℕ → Bool) (u : ℕ) (ts : List ℕ) → has u (behind w ts) ≡ true → has u ts ≡ true
unfolding behind
has_of_has-behind w u [] h = h
has_of_has-behind w u (t ∷ ts) h = ground (arith, has_of_has-behind w u ts)

pub behind-IsDistinct : (w : ℕ → Bool) (ts : List ℕ) → IsDistinct ts → IsDistinct (behind w ts)
unfolding behind
behind-IsDistinct w [] d = tt
behind-IsDistinct w (t ∷ ts) d = ground (arith, behind-IsDistinct w ts d.1)

-- Nobody is both let in and left waiting.
pub leading-behind :
    (w : ℕ → Bool) (u : ℕ) (ts : List ℕ)
    → IsDistinct ts
    → has u (behind w ts) ≡ true
    → has u (leading w ts) ≡ false
unfolding leading behind
leading-behind w u [] d h = refl
leading-behind w u (t ∷ ts) d h =
    ground (arith, leading-behind w u ts d.1, has_of_has-behind w u ts)

pub taken_off_self :
    (ts us : List ℕ) → ((t : ℕ) → has t ts ≡ true → has t us ≡ true) → taken_off ts us ≡ []
taken_off_self [] us same = refl
taken_off_self (t ∷ ts) us same = ground (arith, same t, taken_off_self ts us)

taken_off-behind :
    (w : ℕ → Bool) (ts : List ℕ) → IsDistinct ts → taken_off ts (behind w ts) ≡ leading w ts
unfolding leading behind
taken_off-behind w [] d = refl
taken_off-behind w (t ∷ ts) d = elim (Bool-cases (w t)) [
  | inl writes ↦ rw writes (taken_off_self (t ∷ ts) (t ∷ ts) (λ u m. m))
  | inr reads ↦
      let absent : has t (behind w ts) ≡ false = ground (arith, has_of_has-behind w t ts) in
      rw (reads, absent) (ap (λ l. t ∷ l) (taken_off-behind w ts d.1))
]

select-leading : (w : ℕ → Bool) (ts : List ℕ) → select w (leading w ts) ≡ []
unfolding leading
select-leading w [] = refl
select-leading w (t ∷ ts) = ground (arith, select-leading w ts)

select-leading_others :
    (w : ℕ → Bool) (ts : List ℕ) → select (λ u. not (w u)) (leading w ts) ≡ leading w ts
unfolding leading
select-leading_others w [] = refl
select-leading_others w (t ∷ ts) = ground (arith, select-leading_others w ts)

-- Who is taken off the waiters, and with which flag.
module _ (w : ℕ → Bool) (readers : ℕ) where
  pub taken_off-staying :
      (queue : List ℕ)
      → IsDistinct queue
      → taken_off queue (staying w readers queue)
        ≡ to_list (exclusive w readers queue) ++ leading w queue
  unfolding leading
  taken_off-staying [] d = refl
  taken_off-staying (t ∷ ts) d = elim (Bool-cases (w t && (readers == 0))) [
    | inl alone ↦
        let writes : w t ≡ true = ground arith in
        rw (alone, writes, d.0) (ap (λ l. t ∷ l) (taken_off_self ts ts (λ u m. m)))
    | inr shared ↦ rw shared (taken_off-behind w (t ∷ ts) d)
  ]

  pub select-taken :
      (queue : List ℕ)
      → (select w (to_list (exclusive w readers queue) ++ leading w queue)
          ≡ to_list (exclusive w readers queue))
        × (select (λ u. not (w u)) (to_list (exclusive w readers queue) ++ leading w queue)
            ≡ leading w queue)
  unfolding leading
  select-taken [] = (refl, refl)
  select-taken (t ∷ ts) = elim (Bool-cases (w t)) [
    | inl writes ↦ elim (Bool-cases (readers == 0)) [
      | inl none_in ↦ (rw (writes, none_in) (rw writes refl), rw (writes, none_in) (rw writes refl))
      | inr some_in ↦ (rw (writes, some_in) refl, rw (writes, some_in) refl)
    ]
    | inr reads ↦ (
      rw reads (rw reads (select-leading w ts)),
      rw reads (rw reads (ap (λ l. t ∷ l) (select-leading_others w ts))),
    )
  ]
