-- ===== src/Sync/Condvar.antt =====
-- source/kernel/sync/condvar.c: condition variables, which are lists of waiting threads.
--
-- `condvar_wait_etc` is cut at its sleep; what follows is `mutex_lock`. The mutex is released under
-- the spinlock of the condition variable, so that no signal can come in between.
pub mod Signal
use infinity_os.Base.{
  ℕ, zero, suc, Bool, true, false, Option, none, some, List, [], ◌∷◌, ◌++◌, length,
}
use infinity_os.Base.Int.{ℤ}
use infinity_os.Status.{Status}
use infinity_os.Thread.{Threads, SleepFlags, thread_wake, thread_sleep}
use infinity_os.Sync.Mutex.{Mutex, mutex_unlock}

abbrev pub condvar_init : List ℕ
condvar_init = []

-- The store, the waiters, the mutex, and the status unless the caller sleeps. The outer `none` is
-- the fatal error of a mutex that the caller does not hold.
pub record Waiting : Type 0 where
  pub threads : Threads
  pub waiters : List ℕ
  pub mutex : Option Mutex
  pub status : Option Status

abbrev pub sleeping_on : Option Mutex → (Threads × List ℕ) × Option Status → Waiting
sleeping_on m ((ths, waiters), r) = record {
  threads = ths;
  waiters = waiters;
  mutex = m;
  status = r;
}

unfoldable pub condvar_wait_enter :
    (self now : ℕ) → ℤ → SleepFlags → Option Mutex → Threads × List ℕ → Option Waiting
condvar_wait_enter self now timeout flags none (ths, waiters) =
    some (sleeping_on none (thread_sleep self now timeout flags (ths, waiters ++ self ∷ [])))
condvar_wait_enter self now timeout flags (some m) (ths, waiters) =
    elim (mutex_unlock self (ths, m)) [
      | none ↦ none
      | some (ths', m') ↦
          some (
            sleeping_on (some m')
              (thread_sleep self now timeout flags (ths', waiters ++ self ∷ [])))
    ]

unfoldable pub condvar_signal : Threads × List ℕ → (Threads × List ℕ) × Bool
condvar_signal (ths, []) = ((ths, []), false)
condvar_signal (ths, t ∷ rest) = (thread_wake t (ths, t ∷ rest), true)

-- As many rounds as threads wait; the loop stops when none is left.
unfoldable pub broadcast_loop : ℕ → Threads × List ℕ → Threads × List ℕ
broadcast_loop rounds (ths, []) = (ths, [])
broadcast_loop zero (ths, t ∷ rest) = (ths, t ∷ rest)
broadcast_loop (suc n) (ths, t ∷ rest) = broadcast_loop n (thread_wake t (ths, t ∷ rest))

unfoldable pub condvar_broadcast : Threads × List ℕ → (Threads × List ℕ) × Bool
unfolding broadcast_loop
condvar_broadcast (ths, []) = ((ths, []), false)
condvar_broadcast (ths, t ∷ rest) = (broadcast_loop (length (t ∷ rest)) (ths, t ∷ rest), true)
