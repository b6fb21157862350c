-- ===== src/Sync/Semaphore/User.antt =====
-- The user part of source/kernel/sync/semaphore.c: semaphore objects and their system calls.
--
-- The object manager is a parameter: `lookup` is what `object_handle_lookup` finds. The spinlock is
-- kept as a flag, so that a call which takes it twice is seen.
pub mod Up
use infinity_os.Base.{
  ℕ, zero, suc, ◌+◌, ◌-◌, ◌%◌, Bool, true, false, not, ◌&&◌, Option, none, some, List, [], ◌∷◌,
  if◌then◌else◌, ltb, ◌==◌,
}
use infinity_os.Base.Int.{ℤ}
use infinity_os.Status.{Status, success, invalid_arg, invalid_event, overflow}
use infinity_os.Thread.{Threads, SleepFlags, thread_wake}
use infinity_os.Notifier.{
  Notifier, Call, notifier_init, notifier_run, notifier_register, notifier_unregister,
}
use infinity_os.Sync.Semaphore.{Semaphore, size_mod, semaphore_init, semaphore_down_etc}

pub record UserSemaphore : Type 0 where
  pub sem : Semaphore
  pub locked : Bool
  pub notifier : Notifier

-- `stuck` is a `spinlock_lock` of a spinlock that the caller holds: it spins for good, or is fatal
-- on a system with one processor.
pub data Run (A : Type 0) : Type 0 where
  done : A → Run A
  stuck : Run A

infixl 5 ◌>>=◌
abbrev pub ◌>>=◌ : {A B : Type 0} → Run A → (A → Run B) → Run B
done a >>= f = f a
stuck >>= f = stuck

abbrev pub spinlock_lock : UserSemaphore → Run UserSemaphore
spinlock_lock u = if u.locked then stuck else done (record u { locked = true })

abbrev pub spinlock_unlock : UserSemaphore → UserSemaphore
spinlock_unlock u = record u { locked = false }

-- The waiters that would be woken, at most `count` of them.
unfoldable pub count_waiters : ℕ → List ℕ → ℕ
count_waiters count [] = 0
count_waiters zero (t ∷ ts) = 0
count_waiters (suc n) (t ∷ ts) = suc (count_waiters n ts)

unfoldable pub wake_loop : ℕ → Threads × List ℕ → Threads × List ℕ
wake_loop zero s = s
wake_loop (suc n) (ths, []) = (ths, [])
wake_loop (suc n) (ths, t ∷ rest) = wake_loop n (thread_wake t (ths, t ∷ rest))

-- The status, the store, the semaphore, and the calls of the notifier.
pub record UpResult : Type 0 where
  pub status : Status
  pub threads : Threads
  pub user : UserSemaphore
  pub calls : List Call

abbrev pub failed : Status → Threads → UserSemaphore → UpResult
failed e ths u = record { status = e; threads = ths; user = u; calls = [] }

-- The part behind the overflow check.
unfoldable pub up_locked : ℕ → ℕ → Threads → UserSemaphore → UpResult
unfolding wake_loop notifier_run
up_locked count woken ths u =
    let (ths', queue) = wake_loop woken (ths, u.sem.threads) in
    let counted : Semaphore = record {
      count = (u.sem.count + (count - woken)) % size_mod;
      threads = queue;
    } in
    let unlocked = spinlock_unlock (record u { sem = counted }) in
    let (n, calls, called) = notifier_run 0 false unlocked.notifier in
    if 0 == count - woken
    then record { status = success; threads = ths'; user = unlocked; calls = [] }
    else record {
      status = success;
      threads = ths';
      user = record unlocked { notifier = n };
      calls = calls;
    }

abbrev up_checked : ℕ → ℕ → Threads → UserSemaphore → Run UpResult
up_checked count woken ths u = do
  held ← spinlock_lock u
  if ltb ((u.sem.count + (count - woken)) % size_mod) u.sem.count
      then (do again ← spinlock_lock held; done (failed overflow ths again))
      else done (up_locked count woken ths held)

unfoldable pub kern_semaphore_up : ℕ → Status → Threads → UserSemaphore → Run UpResult
unfolding count_waiters
kern_semaphore_up count lookup ths u =
    if count == 0 then done (failed invalid_arg ths u) else elim lookup [
      | success ↦ up_checked count (count_waiters count u.sem.threads) ths u
      | e ↦ done (failed e ths u)
    ]

-- `kern_semaphore_down` sleeps interruptibly and for a relative time.
unfoldable pub kern_semaphore_down :
    (self now : ℕ)
    → Status
    → ℤ
    → Threads
    → UserSemaphore
    → (Threads × UserSemaphore) × Option Status
kern_semaphore_down self now lookup timeout ths u = elim lookup [
  | success ↦
      let ((ths', sem), r) =
        semaphore_down_etc self now timeout (record { interruptible = true; absolute = false })
          (ths, u.sem) in
      ((ths', record u { sem = sem }), r)
  | e ↦ ((ths, u), some e)
]

unfoldable pub kern_semaphore_create : ℕ → Status → ℕ → Status × Option UserSemaphore
unfolding notifier_init
kern_semaphore_create count opened self =
    let user : UserSemaphore = record {
      sem = semaphore_init count;
      locked = false;
      notifier = notifier_init self;
    } in
    elim opened [ success ↦ (success, some user) | e ↦ (e, none) ]

-- `some` is an event that is signalled at once; the callback of a registration is
-- `object_event_notifier`, whose name is `func`.
unfoldable pub semaphore_object_wait :
    (func event : ℕ) → Bool → Bool → UserSemaphore → Status × Bool × UserSemaphore
unfolding notifier_register
semaphore_object_wait func event known edge u =
    if known
    then if not edge && ltb 0 u.sem.count
      then (success, true, u)
      else (success, false, record u { notifier = notifier_register func event u.notifier })
    else (invalid_event, false, u)

unfoldable pub semaphore_object_unwait : (func event : ℕ) → Bool → UserSemaphore → UserSemaphore
unfolding notifier_unregister
semaphore_object_unwait func event known u =
    if known then record u { notifier = notifier_unregister func event u.notifier } else u
