-- ===== src/Sync/Mutex/Handoff.antt =====
-- Recursion, and how a mutex goes to the first waiter.
use infinity_os.Base.{
  ℕ, zero, suc, ◌+◌, ◌≡◌, ◌≢◌, refl, true, false, Option, none, some, List, ◌∷◌, ◌==◌, arith, inl,
  inr,
}
use infinity_os.Base.Int.{ℤ}
use infinity_os.Status.{Status, success}
use infinity_os.Thread.{Threads, SleepFlags, ready, update, thread_wake}
use infinity_os.Thread.Queue.{has, remove-cons_self}
use infinity_os.Thread.Sleep.{Slept, thread_sleep-Slept}
use infinity_os.Sync.Mutex.{
  Mutex, returned, contend, lock_fast, entered, lock_slow, lock_resume, mutex_unlock,
}

not_entered :
    (m : Mutex) (ths : Threads) (queue : List ℕ) (u now : ℕ) (timeout : ℤ) (flags : SleepFlags)
    (r : (Threads × List ℕ) × Option Status)
    → Slept u now timeout flags ths queue r
    → (entered m r).1 ≢ returned success
not_entered m ths queue u now timeout flags r (inl (e, p, q)) = rw p (λ h. ground arith)
not_entered m ths queue u now timeout flags r (inr p) = rw p (λ h. cc)

-- A thread that does not wait yet gets nothing under the spinlock while the lock word is not zero.
lock_slow-ne-success :
    (m : Mutex) (ths : Threads) (u now : ℕ) (timeout : ℤ) (flags : SleepFlags)
    → m.value ≡ 1
    → has u m.threads ≡ false
    → (lock_slow u now timeout flags (ths, m)).1 ≢ returned success
unfolding lock_slow
lock_slow-ne-success m ths u now timeout flags v h =
    let taken : (m.value == 0) ≡ false = ground arith in
    rw taken (
      not_entered m ths m.threads u now timeout flags _
        (thread_sleep-Slept u now timeout flags ths m.threads h))

module _ (ths : Threads) (m : Mutex) (self w : ℕ) (rest : List ℕ) (held : m.holder ≡ some self)
    (once : m.value ≡ 1) (queue : m.threads ≡ w ∷ rest) where
  -- When the holder of a mutex that is held once unlocks it while threads wait, the first waiter is
  -- readied with its sleep status kept and taken off the list, the others keep their order, and
  -- the lock word stays at one with no holder. From there a thread that does not wait in the list
  -- cannot get the lock, neither by the first attempt nor under the spinlock; and when the waiter
  -- resumes with its sleep successful it is the holder.
  pub mutex_unlock-passes :
      (u now : ℕ) (timeout : ℤ) (flags : SleepFlags)
      → has u rest ≡ false
      → (ths' : Threads) × (m' : Mutex) × (mutex_unlock self (ths, m) ≡ some (ths', m'))
        × ((ths' w).state ≡ ready)
        × ((ths' w).sleep_status ≡ (ths w).sleep_status)
        × (m'.threads ≡ rest)
        × (m'.holder ≡ none)
        × (m'.value ≡ 1)
        × (lock_fast u m' ≡ (m', contend))
        × ((lock_slow u now timeout flags (ths', m')).1 ≢ returned success)
        × ((lock_resume w success m').0.holder ≡ some w)
  unfolding mutex_unlock thread_wake update lock_fast lock_resume
  mutex_unlock-passes u now timeout flags h =
      let gone = remove-cons_self w rest in
      let m' : Mutex = record m { holder = none; threads = rest } in
      let ths' : Threads =
        update ths w
          (record (ths w) { state = ready; interruptible = false; sleep_timer = none }) in
      (
        ths',
        m',
        ground (arith, gone),
        ground arith,
        ground arith,
        refl,
        refl,
        once,
        ground arith,
        lock_slow-ne-success m' ths' u now timeout flags once h,
        refl,
      )

pub lock_times : ℕ → ℕ → Mutex → Mutex
lock_times self zero m = m
lock_times self (suc n) m = (lock_fast self (lock_times self n m)).0

pub unlock_times : ℕ → ℕ → Threads × Mutex → Option (Threads × Mutex)
unlock_times self zero s = some s
unlock_times self (suc n) s = elim (mutex_unlock self s) [
  | none ↦ none
  | some s' ↦ unlock_times self n s'
]

module _ (ths : Threads) (m : Mutex) (self : ℕ) (recursive : m.recursive ≡ true)
    (held : m.holder ≡ some self) (locked : m.value ≢ 0) where
  lock_times-value : (n : ℕ) → lock_times self n m ≡ record m { value = m.value + n }
  unfolding lock_times lock_fast
  lock_times-value zero = ground arith
  lock_times-value (suc n) = ground (arith, lock_times-value n)

  unlock_times-value :
      (n : ℕ) → unlock_times self n (ths, record m { value = m.value + n }) ≡ some (ths, m)
  unfolding unlock_times mutex_unlock
  unlock_times-value zero = ground arith
  unlock_times-value (suc n) = ground (arith, unlock_times-value n)

  -- The holder of a recursive mutex may lock it any number of times more: each attempt succeeds at
  -- once, and as many unlocks succeed and lead back to the same state, with nobody woken.
  pub unlock-lock_times :
      (n : ℕ)
      → ((lock_fast self (lock_times self n m)).1 ≡ returned success)
        × (unlock_times self n (ths, lock_times self n m) ≡ some (ths, m))
  unfolding lock_fast
  unlock-lock_times n = rw (lock_times-value n) (ground arith, unlock_times-value n)
