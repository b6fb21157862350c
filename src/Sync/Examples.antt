-- ===== src/Sync/Examples.antt =====
-- The theorems on synchronization at concrete threads.
use infinity_os.Base.{ℕ, ◌≡◌, ◌≢◌, refl, Bool, true, false, [], ◌∷◌, arith, none, some, inr, ◌==◌}
use infinity_os.Base.Int.{pos}
use infinity_os.Status.{success}
use infinity_os.Thread.{
  Thread, Threads, running, ready, update, thread_wake, thread_sleep, go_to_sleep, relative, remove,
  thread_timeout,
}
use infinity_os.Thread.Wake.{Woken}
use infinity_os.Sync.Semaphore.{Semaphore, semaphore_down_etc, semaphore_up, up_one}
use infinity_os.Sync.Semaphore.Wake.{semaphore_up-serves}
use infinity_os.Sync.Semaphore.Ledger
use infinity_os.Sync.Semaphore.User.{UserSemaphore, done, stuck, UpResult, kern_semaphore_up}
use infinity_os.Sync.Semaphore.User.Up.{
  AgreesUp, kern_semaphore_up-AgreesUp, kern_semaphore_up-stuck,
}
use infinity_os.Sync.Mutex.{
  Mutex, lock_fast, lock_slow, lock_resume, mutex_unlock, forever, uninterruptible, returned,
  contend,
}
use infinity_os.Sync.Mutex.Calls
use infinity_os.Sync.Mutex.Exclusion.{Reach-Exclusive, mutual_exclusion}
use infinity_os.Sync.Mutex.Handoff.{
  mutex_unlock-passes, lock_times, unlock_times, unlock-lock_times,
}
use infinity_os.Sync.Rwlock.{
  Rwlock, rwlock_read_lock_etc, write_lock_enter, rwlock_unlock, rwlock_transfer_ownership,
  transfer_loop,
}
use infinity_os.Sync.Rwlock.Transfer.{punctual, transferred, transfer-eq-transferred}
use infinity_os.Sync.Rwlock.System
use infinity_os.Sync.Condvar.{Waiting, condvar_wait_enter, condvar_broadcast}
use infinity_os.Sync.Condvar.Signal.{
  ServedLast, signals, condvar_broadcast-Woken, condvar_signal-condvar_wait_enter,
}
use infinity_os.Sync.Rwlock.Exclusion.{Reach-Consistent}
use infinity_os.Sync.Rwlock.Race.{unlock-admits_reader}

abbrev idle_thread : Thread
idle_thread = record {
  state = running;
  interruptible = false;
  interrupted = false;
  killed = false;
  bit_three = false;
  sleep_status = success;
  sleep_timer = none;
  kernel_owned = false;
  ipl = 0;
  interrupts = [];
}

abbrev idle : Threads
idle t = idle_thread

-- Thread 7 waits to write.
abbrev writing : Threads
writing t = elim (t == 7) [ true ↦ record idle_thread { bit_three = true } | false ↦ idle_thread ]

abbrev two_wait : Semaphore
two_wait = record { count = 0; threads = 4 ∷ 5 ∷ [] }

-- One unit, taken by thread 1; thread 2 waits, and is woken by an `up` of two.
abbrev served : (s : Ledger.System) × Ledger.Reach (Ledger.start idle 1) s
unfolding semaphore_down_etc thread_sleep semaphore_up up_one go_to_sleep update relative
    thread_wake remove
served = (
  _,
  Ledger.next
      (Ledger.next (Ledger.next Ledger.here (Ledger.down 1 0 forever uninterruptible refl))
        (Ledger.down 2 0 forever uninterruptible refl))
      (Ledger.up 2),
)

Reach-Balanced_example : Ledger.Balanced 1 served.0
unfolding served
Reach-Balanced_example = Ledger.Reach-Balanced served.1 (omega arith)

semaphore_up-serves_example :
    Woken (4 ∷ 5 ∷ []) idle (semaphore_up 3 (idle, two_wait)).0
    × ((semaphore_up 3 (idle, two_wait)).1.threads ≡ [])
    × ((semaphore_up 3 (idle, two_wait)).1.count ≡ 1)
semaphore_up-serves_example = semaphore_up-serves 3 idle two_wait (omega arith)

abbrev user : ℕ → UserSemaphore
user count = record {
  sem = record { count = count; threads = [] };
  locked = false;
  notifier = record { functions = []; owner = 0 };
}

kern_semaphore_up-AgreesUp_example :
    (r : UpResult) × (kern_semaphore_up 2 success idle (user 3) ≡ done r)
    × (AgreesUp 2 idle (user 3) r)
kern_semaphore_up-AgreesUp_example =
    kern_semaphore_up-AgreesUp 2 idle (user 3) refl (omega arith) (omega arith) (omega arith)
      (omega arith)

kern_semaphore_up-stuck_example :
    kern_semaphore_up 18446744073709551615 success idle (user 1) ≡ stuck
kern_semaphore_up-stuck_example =
    kern_semaphore_up-stuck 18446744073709551615 idle (user 1) refl (omega arith) (omega arith)
      (omega arith) (omega arith)

-- Thread 1 locks, threads 2 and 4 wait, 4 times out and gives up, and the unlock hands the mutex to 2.
abbrev handed_over : (s : Calls.System) × Calls.Reach (Calls.start idle false) s
unfolding lock_fast lock_slow lock_resume mutex_unlock thread_sleep go_to_sleep update relative
    thread_wake thread_timeout remove
handed_over = (
  _,
  Calls.next
      (Calls.next
        (Calls.next
          (Calls.next
            (Calls.next (Calls.next Calls.here (Calls.fast 1 (refl, refl, refl)))
              (Calls.slow 2 0 forever uninterruptible (refl, refl, refl) refl))
            (Calls.slow 4 0 (pos 5) uninterruptible (refl, refl, refl) refl))
          (Calls.time_out 4 refl))
        (Calls.give_up 4 refl))
      (Calls.unlock 1 _ (refl, refl, refl) refl),
)

Reach-Exclusive_example : Calls.Exclusive handed_over.0
Reach-Exclusive_example = Reach-Exclusive handed_over.1

mutual_exclusion_example : ◌≡◌ {A = ℕ} 2 2
unfolding handed_over
mutual_exclusion_example = mutual_exclusion 2 2 handed_over.1 (inr refl) (inr refl)

abbrev contended : Mutex
contended = record { value = 1; recursive = false; threads = 2 ∷ []; holder = some 1 }

mutex_unlock-passes_example :
    (ths' : Threads) × (m' : Mutex) × (mutex_unlock 1 (idle, contended) ≡ some (ths', m'))
    × ((ths' 2).state ≡ ready)
    × ((ths' 2).sleep_status ≡ success)
    × (m'.threads ≡ [])
    × (m'.holder ≡ none)
    × (m'.value ≡ 1)
    × (lock_fast 3 m' ≡ (m', contend))
    × ((lock_slow 3 0 forever uninterruptible (ths', m')).1 ≢ returned success)
    × ((lock_resume 2 success m').0.holder ≡ some 2)
mutex_unlock-passes_example =
    mutex_unlock-passes idle contended 1 2 [] refl refl refl 3 0 forever uninterruptible refl

abbrev nested : Mutex
nested = record { value = 1; recursive = true; threads = []; holder = some 1 }

unlock-lock_times_example :
    ((lock_fast 1 (lock_times 1 3 nested)).1 ≡ returned success)
    × (unlock_times 1 3 (idle, lock_times 1 3 nested) ≡ some (idle, nested))
unlock-lock_times_example = unlock-lock_times idle nested 1 refl refl (λ e. omega arith) 3

-- Thread 1 writes, threads 2 and 3 wait to read, and both get the lock with the unlock.
abbrev read_twice : (s : System.System) × System.Reach (System.start idle) s
unfolding rwlock_read_lock_etc write_lock_enter rwlock_unlock rwlock_transfer_ownership
    transfer_loop thread_sleep go_to_sleep update relative thread_wake remove
read_twice = (
  _,
  System.next
      (System.next
        (System.next (System.next System.here (System.write 1 0 forever uninterruptible refl))
          (System.read 2 0 forever uninterruptible refl))
        (System.read 3 0 forever uninterruptible refl))
      (System.unlock_write 1 _ refl refl),
)

Reach-Consistent_example : System.Consistent read_twice.0
Reach-Consistent_example = Reach-Consistent read_twice.1

abbrev writer_waits : Rwlock
writer_waits = record { held = true; readers = 0; threads = 7 ∷ 8 ∷ [] }

transfer-eq-transferred_example :
    rwlock_transfer_ownership punctual (writing, writer_waits) ≡ transferred writing 0 (7 ∷ 8 ∷ [])
transfer-eq-transferred_example = transfer-eq-transferred writing writer_waits refl

abbrev quick : ℕ → Bool
quick t = t == 7

unlock-admits_reader_example :
    (s : Threads × Rwlock) × (rwlock_unlock quick
        (writing, record { held = true; readers = 0; threads = 7 ∷ [] })
      ≡ some s)
    × ((s.0 7).state ≡ ready)
    × (s.1.readers ≡ 1)
    × ((rwlock_read_lock_etc 9 0 forever uninterruptible s).1 ≡ some success)
unlock-admits_reader_example =
    unlock-admits_reader quick writing 7 9 0 forever uninterruptible refl refl

condvar_broadcast-Woken_example :
    (Woken (4 ∷ 5 ∷ []) idle (condvar_broadcast (idle, 4 ∷ 5 ∷ [])).0.0)
    × ((condvar_broadcast (idle, 4 ∷ 5 ∷ [])).0.1 ≡ [])
    × ((condvar_broadcast (idle, 4 ∷ 5 ∷ [])).1 ≡ true)
condvar_broadcast-Woken_example = condvar_broadcast-Woken idle (4 ∷ 5 ∷ [])

abbrev held_once : Mutex
held_once = record { value = 1; recursive = false; threads = []; holder = some 1 }

condvar_signal-condvar_wait_enter_example :
    (w : Waiting) × (condvar_wait_enter 1 0 forever uninterruptible
        (some held_once)
        (idle, 4 ∷ 5 ∷ [])
      ≡ some w)
    × (w.status ≡ none)
    × (w.mutex ≡ some (record { value = 0; recursive = false; threads = []; holder = none }))
    × ServedLast 1 (4 ∷ 5 ∷ []) (signals 2 (w.threads, w.waiters))
unfolding mutex_unlock
condvar_signal-condvar_wait_enter_example =
    condvar_signal-condvar_wait_enter 1 0 idle idle held_once
      (record { value = 0; recursive = false; threads = []; holder = none }) (4 ∷ 5 ∷ []) refl refl
