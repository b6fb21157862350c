-- ===== src/Sync/Semaphore/User/Up.antt =====
-- `kern_semaphore_up` against the kernel's own `semaphore_up`.
use infinity_os.Base.{
  ℕ, zero, suc, ◌+◌, ◌-◌, ◌%◌, ◌≤◌, ◌<◌, ◌≡◌, refl, true, false, List, [], ◌∷◌, ltb, arith, length,
  leb, if◌then◌else◌, take, drop, min, ap,
}
use infinity_os.Status.{success}
use infinity_os.Thread.{Threads, thread_wake}
use infinity_os.Notifier.{notifier_run}
use infinity_os.Sync.Semaphore.{Semaphore, size_mod, semaphore_up}
use infinity_os.Thread.Queue.{remove-cons_self}
use infinity_os.Thread.Wake.{wake_one, wake_list}
use infinity_os.Sync.Semaphore.Wake.{up-closed}
use infinity_os.Sync.Semaphore.User.{
  UserSemaphore, done, stuck, UpResult, count_waiters, wake_loop, up_locked, kern_semaphore_up,
}

count_waiters-min : (n : ℕ) (ts : List ℕ) → count_waiters n ts ≡ min n (length ts)
unfolding count_waiters
count_waiters-min n [] = omega arith
count_waiters-min zero (t ∷ ts) = omega arith
count_waiters-min (suc n) (t ∷ ts) = omega (arith, count_waiters-min n ts)

-- Overflow is seen exactly where the sum leaves the range of a `size_t`.
wraps_iff :
    (a b : ℕ) → a < size_mod → b < size_mod → ltb ((a + b) % size_mod) a ≡ true → size_mod ≤ a + b
wraps_iff a b p q h = ground arith

not_wraps :
    (a b : ℕ) → a < size_mod → b < size_mod → ltb ((a + b) % size_mod) a ≡ false → a + b < size_mod
not_wraps a b p q h = ground arith

wake_loop-closed :
    (n : ℕ) (ths : Threads) (queue : List ℕ)
    → wake_loop n (ths, queue) ≡ (wake_list ths (take n queue), drop n queue)
unfolding wake_loop thread_wake wake_list
wake_loop-closed zero ths queue = refl
wake_loop-closed (suc n) ths [] = refl
wake_loop-closed (suc n) ths (t ∷ rest) =
    rw (remove-cons_self t rest) (wake_loop-closed n (wake_one ths t) rest)

take-count_waiters : (n : ℕ) (ts : List ℕ) → take (count_waiters n ts) ts ≡ take n ts
unfolding count_waiters
take-count_waiters zero [] = refl
take-count_waiters (suc n) [] = refl
take-count_waiters zero (t ∷ ts) = refl
take-count_waiters (suc n) (t ∷ ts) = ap (λ r. t ∷ r) (take-count_waiters n ts)

drop-count_waiters : (n : ℕ) (ts : List ℕ) → drop (count_waiters n ts) ts ≡ drop n ts
unfolding count_waiters
drop-count_waiters zero [] = refl
drop-count_waiters (suc n) [] = refl
drop-count_waiters zero (t ∷ ts) = refl
drop-count_waiters (suc n) (t ∷ ts) = drop-count_waiters n ts

-- The call has the outcome of the kernel's `semaphore_up`, gives the lock back, and runs the
-- functions of the notifier if more units came than threads were waiting.
abbrev pub AgreesUp : ℕ → Threads → UserSemaphore → UpResult → Type 0
AgreesUp count ths u r =
    (r.status ≡ success)
    × (◌≡◌ {A = Threads × Semaphore} (r.threads, r.user.sem) (semaphore_up count (ths, u.sem)))
    × (r.user.locked ≡ false)
    × (r.calls
        ≡ (if leb count (length u.sem.threads) then [] else (notifier_run 0 false u.notifier).1))

up_locked-AgreesUp :
    (count : ℕ) (ths : Threads) (u : UserSemaphore)
    → u.sem.count + (count - length u.sem.threads) < size_mod
    → AgreesUp count ths u
        (up_locked count (count_waiters count u.sem.threads) ths (record u { locked = true }))
unfolding up_locked
up_locked-AgreesUp count ths u fits = rw (up-closed count ths u.sem.count u.sem.threads fits) (
    ground (
      arith,
      wake_loop-closed (count_waiters count u.sem.threads) ths u.sem.threads,
      take-count_waiters count u.sem.threads,
      drop-count_waiters count u.sem.threads,
      count_waiters-min count u.sem.threads,
    ))

module _ (count : ℕ) (ths : Threads) (u : UserSemaphore) (free : u.locked ≡ false)
    (some_units : 0 < count) (word : count < size_mod) (range : u.sem.count < size_mod) where
  -- On a free semaphore, for a positive number of units that does not take the count out of its
  -- type, `kern_semaphore_up` returns success and leaves the threads and the semaphore exactly as
  -- the kernel's `semaphore_up` does; the lock is released, and the notifier's functions are called
  -- if more units came than threads were waiting, and not otherwise.
  pub kern_semaphore_up-AgreesUp :
      u.sem.count + (count - length u.sem.threads) < size_mod
      → (r : UpResult) × (kern_semaphore_up count success ths u ≡ done r) × (AgreesUp count ths u r)
  unfolding kern_semaphore_up
  kern_semaphore_up-AgreesUp fits = (
    up_locked count (count_waiters count u.sem.threads) ths (record u { locked = true }),
    ground (arith, count_waiters-min count u.sem.threads),
    up_locked-AgreesUp count ths u fits,
  )

  -- Where the units that no waiter takes do overflow the count, the call never returns
  -- STATUS_OVERFLOW: it takes the lock that it holds.
  pub kern_semaphore_up-stuck :
      size_mod ≤ u.sem.count + (count - length u.sem.threads)
      → kern_semaphore_up count success ths u ≡ stuck
  unfolding kern_semaphore_up
  kern_semaphore_up-stuck over = ground (arith, count_waiters-min count u.sem.threads)
