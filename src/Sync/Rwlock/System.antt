-- ===== src/Sync/Rwlock/System.antt =====
-- A readers-writer lock used by many threads: who has it, and what may happen next.
use infinity_os.Base.{
  ℕ, ◌≡◌, ◌≢◌, true, false, not, List, [], ◌∷◌, ◌++◌, length, if◌then◌else◌, Bool, Option, none,
  some, ◌⊎◌,
}
use infinity_os.Base.Int.{ℤ}
use infinity_os.Status.{Status, success}
use infinity_os.Thread.{
  Thread, Threads, SleepFlags, sleeping, update, remove, thread_timeout, thread_interrupt_internal,
}
use infinity_os.Thread.Queue.{has, IsDistinct}
use infinity_os.Sync.Rwlock.{
  Rwlock, rwlock_init, is_writer, Outcome, rwlock_read_lock_etc, write_lock_enter,
  write_lock_resume, rwlock_unlock,
}
use infinity_os.Sync.Rwlock.Transfer.{punctual}

-- `inside` are the threads that have the lock for reading, and `writers` those that have it for
-- writing; a thread counts from the moment at which its call returns success or at which another
-- call takes it off the waiters.
pub record System : Type 0 where
  pub threads : Threads
  pub lock : Rwlock
  pub inside : List ℕ
  pub writers : List ℕ

-- Every waiter sleeps with a sleep that is going to return success, and waits once.
pub record Waits (ths : Threads) (queue : List ℕ) : Type 0 where
  pub distinct : IsDistinct queue
  pub asleep :
      (t : ℕ) → has t queue ≡ true → ((ths t).state ≡ sleeping) × ((ths t).sleep_status ≡ success)

-- A free lock has no owner and no waiter. A held one has readers, whose number it knows, or one
-- writer, and never both.
pub record Consistent (s : System) : Type 0 where
  pub free : s.lock.held ≡ false → (s.inside ≡ []) × (s.writers ≡ []) × (s.lock.threads ≡ [])
  pub taken :
      s.lock.held ≡ true
      → ((s.writers ≡ []) × (s.inside ≢ [])) ⊎ ((length s.writers ≡ 1) × (s.inside ≡ []))
  pub counted : s.lock.readers ≡ length s.inside
  pub waits : Waits s.threads s.lock.threads

-- The waiters of a call's start that are none at its end, and those of them with a given flag.
abbrev pub taken_off : (before after : List ℕ) → List ℕ
taken_off [] after = []
taken_off (t ∷ ts) after = if has t after then taken_off ts after else t ∷ taken_off ts after

abbrev pub select : (ℕ → Bool) → List ℕ → List ℕ
select flagged [] = []
select flagged (t ∷ ts) = if flagged t then t ∷ select flagged ts else select flagged ts

abbrev pub is_reader : Threads → ℕ → Bool
is_reader ths t = not (is_writer ths t)

-- The state that a call left: the waiters that it took off are owners now, for what their flag says.
abbrev pub settled : System → Threads × Rwlock → System
settled s (ths, lock) =
    let gone = taken_off s.lock.threads lock.threads in
    record s {
      threads = ths;
      lock = lock;
      inside = select (is_reader ths) gone ++ s.inside;
      writers = select (is_writer ths) gone ++ s.writers;
    }

abbrev pub owns : Option Status → ℕ → List ℕ → List ℕ
owns none t ts = ts
owns (some success) t ts = t ∷ ts
owns (some e) t ts = ts

abbrev pub read_done : System → ℕ → Outcome → System
read_done s t ((ths, lock), r) = record s { threads = ths; lock = lock; inside = owns r t s.inside }

abbrev pub write_done : System → ℕ → Outcome → System
write_done s t ((ths, lock), r) = record s {
  threads = ths;
  lock = lock;
  writers = owns r t s.writers;
}

abbrev pub relisted : System → Threads × List ℕ → System
relisted s (ths, queue) = record s { threads = ths; lock = record (s.lock) { threads = queue } }

-- A call of a thread that does not wait; what a thread does after its sleep, with any status; the
-- timer or an interrupt of a waiter; or anything that happens to a thread that does not wait here.
pub data Step (s : System) : System → Type 0 where
  read :
      (t now : ℕ) (timeout : ℤ) (flags : SleepFlags)
      → has t s.lock.threads ≡ false
      → Step s (read_done s t (rwlock_read_lock_etc t now timeout flags (s.threads, s.lock)))
  write :
      (t now : ℕ) (timeout : ℤ) (flags : SleepFlags)
      → has t s.lock.threads ≡ false
      → Step s (write_done s t (write_lock_enter t now timeout flags (s.threads, s.lock)))
  resume :
      (t : ℕ) (e : Status)
      → has t s.lock.threads ≡ false
      → Step s (settled s (write_lock_resume punctual t e (s.threads, s.lock)))
  unlock_read :
      (t : ℕ) (r : Threads × Rwlock)
      → has t s.inside ≡ true
      → rwlock_unlock punctual (s.threads, s.lock) ≡ some r
      → Step s (settled (record s { inside = remove t s.inside }) r)
  unlock_write :
      (t : ℕ) (r : Threads × Rwlock)
      → has t s.writers ≡ true
      → rwlock_unlock punctual (s.threads, s.lock) ≡ some r
      → Step s (settled (record s { writers = remove t s.writers }) r)
  time_out :
      (t : ℕ)
      → has t s.lock.threads ≡ true
      → Step s (relisted s (thread_timeout t (s.threads, s.lock.threads)))
  interrupt :
      (t : ℕ)
      → has t s.lock.threads ≡ true
      → Step s (relisted s (thread_interrupt_internal t (s.threads, s.lock.threads)))
  other :
      (t : ℕ) (th : Thread)
      → has t s.lock.threads ≡ false
      → Step s (record s { threads = update s.threads t th })

pub data Reach (s : System) : System → Type 0 where
  here : Reach s s
  next : {t u : System} → Reach s t → Step t u → Reach s u

abbrev pub start : Threads → System
start ths = record { threads = ths; lock = rwlock_init; inside = []; writers = [] }
