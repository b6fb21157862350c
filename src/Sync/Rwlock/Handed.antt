-- ===== src/Sync/Rwlock/Handed.antt =====
-- A transfer keeps the lock's invariant.
use infinity_os.Base.{
  ℕ, ◌≡◌, ◌≢◌, refl, Bool, true, false, not, ◌&&◌, List, [], ◌∷◌, ◌++◌, ◌==◌, arith, length, inl,
  ◌⊎◌, length-append, subst, sym,
}
use infinity_os.Thread.{Threads}
use infinity_os.Thread.Queue.{has, IsDistinct}
use infinity_os.Thread.Wake.{wake_list-Woken, bit_three-wake_list}
use infinity_os.Sync.Rwlock.{Rwlock, is_writer, is_empty, rwlock_transfer_ownership}
use infinity_os.Sync.Rwlock.Transfer.{
  punctual, leading, behind, exclusive, to_list, staying, transferred, transfer-eq-transferred,
}
use infinity_os.Sync.Rwlock.System.{System, Waits, Consistent, taken_off, select, settled}
use infinity_os.Sync.Rwlock.Taken.{
  has_of_has-behind, behind-IsDistinct, leading-behind, taken_off-staying, select-taken,
}

module _ (w : ℕ → Bool) (readers : ℕ) where
  staying-IsDistinct : (ts : List ℕ) → IsDistinct ts → IsDistinct (staying w readers ts)
  unfolding behind
  staying-IsDistinct [] d = tt
  staying-IsDistinct (t ∷ ts) d = ground (arith, behind-IsDistinct w ts d.1)

  has_of_has-staying : (u : ℕ) (ts : List ℕ) → has u (staying w readers ts) ≡ true → has u ts ≡ true
  has_of_has-staying u [] h = h
  has_of_has-staying u (t ∷ ts) h = ground (arith, has_of_has-behind w u (t ∷ ts))

  -- Nobody is both let in and left waiting.
  staying-apart :
      (u : ℕ) (ts : List ℕ)
      → IsDistinct ts
      → has u (staying w readers ts) ≡ true
      → has u (to_list (exclusive w readers ts) ++ leading w ts) ≡ false
  unfolding leading
  staying-apart u [] d h = refl
  staying-apart u (t ∷ ts) d h = ground (arith, leading-behind w u (t ∷ ts) d)

staying-Waits :
    (ths : Threads) (readers : ℕ) (queue : List ℕ)
    → Waits ths queue
    → Waits (transferred ths readers queue).0 (transferred ths readers queue).1.threads
staying-Waits ths readers queue v =
    let woken =
      wake_list-Woken
        (to_list (exclusive (is_writer ths) readers queue) ++ leading (is_writer ths) queue) ths in
    record {
      distinct = staying-IsDistinct (is_writer ths) readers queue v.distinct;
      asleep = λ u m. ground (
        arith,
        woken.others u (staying-apart (is_writer ths) readers u queue v.distinct m),
        v.asleep u (has_of_has-staying (is_writer ths) readers u queue m),
      );
    }

abbrev given : System → Threads × Rwlock → (readers writers : List ℕ) → System
given s (ths, lock) readers writers = record s {
  threads = ths;
  lock = lock;
  inside = readers ++ s.inside;
  writers = writers ++ s.writers;
}

module _ (w : ℕ → Bool) (readers : ℕ) (inside : List ℕ) (counted : readers ≡ length inside) where
  handed-free :
      (queue : List ℕ)
      → not (is_empty queue && (readers == 0)) ≡ false
      → (leading w queue ++ inside ≡ [])
        × (to_list (exclusive w readers queue) ++ [] ≡ [])
        × (staying w readers queue ≡ [])
  unfolding leading
  handed-free [] h = ground arith
  handed-free (t ∷ ts) h = cc

  handed-taken :
      (queue : List ℕ)
      → not (is_empty queue && (readers == 0)) ≡ true
      → ((to_list (exclusive w readers queue) ++ [] ≡ []) × (leading w queue ++ inside ≢ []))
        ⊎ ((length (to_list (exclusive w readers queue) ++ []) ≡ 1)
            × (leading w queue ++ inside ≡ []))
  unfolding leading
  handed-taken [] h = inl (refl, λ e. ground arith)
  handed-taken (t ∷ ts) h = ground arith

module _ (s : System) (ths : Threads) (h : s.lock.held ≡ true) (n : s.writers ≡ [])
    (c : s.lock.readers ≡ length s.inside) (v : Waits ths s.lock.threads) where
  given-Consistent : Consistent (
      given s
        (transferred ths s.lock.readers s.lock.threads)
        (leading (is_writer ths) s.lock.threads)
        (to_list (exclusive (is_writer ths) s.lock.readers s.lock.threads)))
  given-Consistent =
      let queue = s.lock.threads in
      let writer = is_writer ths in
      rw n (record {
        free = handed-free writer s.lock.readers s.inside c queue;
        taken = handed-taken writer s.lock.readers s.inside c queue;
        counted = ground (arith, length-append (leading writer queue) s.inside);
        waits = staying-Waits ths s.lock.readers queue v;
      })

  -- A lock that no writer has can be passed on, with readers in it or not.
  pub handed-Consistent : Consistent (settled s (rwlock_transfer_ownership punctual (ths, s.lock)))
  handed-Consistent =
      let queue = s.lock.threads in
      let w = is_writer ths in
      let (ths', lock') = transferred ths s.lock.readers queue in
      let flags : ◌≡◌ {A = ℕ → Bool} (is_writer ths') w =
        bit_three-wake_list (to_list (exclusive w s.lock.readers queue) ++ leading w queue) ths in
      let gone = taken_off-staying w s.lock.readers queue v.distinct in
      let (writes, reads) = select-taken w s.lock.readers queue in
      let taken = to_list (exclusive w s.lock.readers queue) ++ leading w queue in
      rw (transfer-eq-transferred ths s.lock h) (
        subst
          (λ (f : ℕ → Bool). Consistent (
            given s (ths', lock') (select (λ u. not (f u)) (taken_off queue lock'.threads))
              (select f (taken_off queue lock'.threads))))
          (sym flags)
          (subst (λ l. Consistent (given s (ths', lock') (select (λ u. not (w u)) l) (select w l)))
            (sym gone)
            (subst (λ l. Consistent (given s (ths', lock') l (select w taken))) (sym reads)
              (subst (λ l. Consistent (given s (ths', lock') (leading w queue) l)) (sym writes)
                given-Consistent))))
