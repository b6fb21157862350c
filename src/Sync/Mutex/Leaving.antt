-- ===== src/Sync/Mutex/Leaving.antt =====
-- `mutex_unlock` keeps the lock exclusive.
use infinity_os.Base.{
  ℕ, ◌≡◌, ◌≢◌, refl, true, false, Option, none, some, List, [], ◌∷◌, arith, length, sym, ◌∙◌,
}
use infinity_os.Thread.{Threads, update, remove, thread_wake}
use infinity_os.Thread.Queue.{
  has, remove-cons_self, has_of_has-remove, length-remove, nil_of_length,
}
use infinity_os.Sync.Mutex.{Mutex, mutex_unlock}
use infinity_os.Sync.Mutex.Calls.{System, unlocking, Exclusive}

-- All calls inside are the holder's, so the last one leaves nobody inside.
has_of_owners :
    (t : ℕ) (ts : List ℕ)
    → ((u : ℕ) → has u ts ≡ true → ◌≡◌ {A = Option ℕ} (some t) (some u))
    → length ts ≢ 0
    → has t ts ≡ true
has_of_owners t [] same ne = absurd (ne refl)
has_of_owners t (u ∷ us) same ne = ground (arith, same u)

has_of_none : (u : ℕ) (us : List ℕ) → length us ≡ 0 → has u us ≡ false
has_of_none u [] h = refl
has_of_none u (w ∷ us) h = absurd (omega (arith, h))

nobody_pending :
    (s : System) (t : ℕ) (p : Option ℕ)
    → s.pending ≡ p
    → s.mutex.holder ≡ some t
    → Exclusive s
    → s.pending ≡ none
nobody_pending s t none e h v = e
nobody_pending s t (some u) e h v = ground (arith, v.passing u)

unlock-Exclusive :
    (s : System) (t : ℕ) (r : Threads × Mutex) (queue : List ℕ)
    → s.mutex.threads ≡ queue
    → mutex_unlock t (s.threads, s.mutex) ≡ some r
    → s.mutex.holder ≡ some t
    → s.pending ≡ none
    → s.mutex.value ≡ length s.inside
    → has t s.inside ≡ true
    → Exclusive s
    → Exclusive (unlocking s t r)
unfolding mutex_unlock thread_wake update
unlock-Exclusive s t r [] q e h p n m v =
    let left = length-remove t s.inside m in
    record {
      unheld = ground arith;
      held = ground arith;
      counted = ground (arith, left);
      owners = λ u o. ground (
        arith,
        left,
        v.owners u,
        has_of_has-remove t u s.inside,
        has_of_none u (remove t s.inside),
      );
      passing = λ u o. ground arith;
      distinct = ground arith;
      waiting = λ u o. ground arith;
      failing = λ u o. ground (arith, v.failing u);
      nested = ground arith;
    }
unlock-Exclusive s t r (w ∷ rest) q e h p n m v =
    let left = length-remove t s.inside m in
    let gone = remove-cons_self w rest in
    record {
      unheld = ground (arith, gone, v.distinct);
      held = ground (arith, gone, v.distinct);
      counted = ground (arith, left, gone, v.distinct);
      owners = λ u o. ground (
        arith,
        left,
        gone,
        v.owners u,
        has_of_has-remove t u s.inside,
        has_of_none u (remove t s.inside),
      );
      passing = λ u o.
          ground (arith, left, gone, v.distinct, v.waiting w, nil_of_length (remove t s.inside));
      distinct = ground (arith, gone, v.distinct);
      waiting = λ u o. ground (arith, gone, v.waiting u, v.distinct, v.waiting w);
      failing = λ u o. ground (arith, gone, v.failing u, v.waiting w);
      nested = ground (arith, gone);
    }

held_by :
    (s : System) (t : ℕ) (r : Threads × Mutex)
    → mutex_unlock t (s.threads, s.mutex) ≡ some r
    → (s.mutex.holder ≡ some t) × (s.mutex.value ≢ 0)
unfolding mutex_unlock
held_by s t r e = (ground arith, ground arith)

pub unlocked-Exclusive :
    (s : System) (t : ℕ) (r : Threads × Mutex)
    → mutex_unlock t (s.threads, s.mutex) ≡ some r
    → Exclusive s
    → Exclusive (unlocking s t r)
unlocked-Exclusive s t r e v =
    let (h, ne) = held_by s t r e in
    let p = nobody_pending s t s.pending refl h v in
    let n = v.counted p in
    unlock-Exclusive s t r s.mutex.threads refl e h p n
      (has_of_owners t s.inside (λ u m. sym h ∙ v.owners u m) (λ z. ne (n ∙ z))) v
