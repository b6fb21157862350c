-- ===== src/Sync/Mutex/Calls.antt =====
-- A mutex used by many threads: who has it, and what may happen next.
use infinity_os.Base.{
  ℕ, ◌≤◌, ◌≡◌, ◌≢◌, true, false, Option, none, some, List, [], ◌∷◌, ◌⊎◌, if◌then◌else◌, Bool,
  length,
}
use infinity_os.Base.Int.{ℤ}
use infinity_os.Status.{Status, success, timed_out, interrupted}
use infinity_os.Thread.{
  Thread, Threads, SleepFlags, sleeping, update, remove, thread_timeout, thread_interrupt_internal,
}
use infinity_os.Thread.Queue.{has, IsDistinct}
use infinity_os.Sync.Mutex.{
  Mutex, mutex_init, is_holder, Entry, returned, fatal, contend, asleep, lock_fast, lock_slow,
  lock_resume, mutex_unlock,
}

-- `inside` has a thread once for each of its calls of `mutex_lock` that returned success and that no
-- `mutex_unlock` has undone; `pending` is a thread that an unlock took off the waiters, and `failed`
-- are those that a timeout or an interrupt took off, while they have not run since.
pub record System : Type 0 where
  pub threads : Threads
  pub mutex : Mutex
  pub inside : List ℕ
  pub pending : Option ℕ
  pub failed : List ℕ

-- Who has the lock: a thread whose call returned success, or one that an unlock passed it to.
abbrev pub Owns : System → ℕ → Type 0
Owns s t = (has t s.inside ≡ true) ⊎ (s.pending ≡ some t)

-- A thread that is neither waiting for the lock nor about to resume after a sleep for it.
abbrev pub IsOutside : System → ℕ → Type 0
IsOutside s t =
    (has t s.mutex.threads ≡ false) × (is_holder s.pending t ≡ false) × (has t s.failed ≡ false)

-- A call that returns success lets its thread in.
abbrev pub joined : ℕ → Entry → List ℕ → List ℕ
joined t (returned success) ts = t ∷ ts
joined t (returned e) ts = ts
joined t fatal ts = ts
joined t contend ts = ts
joined t asleep ts = ts

abbrev pub tried : System → ℕ → Mutex × Entry → System
tried s t (m, e) = record s { mutex = m; inside = joined t e s.inside }

abbrev pub entering : System → ℕ → (Threads × Mutex) × Entry → System
entering s t ((ths, m), e) = record s { threads = ths; mutex = m; inside = joined t e s.inside }

-- What follows the sleep of a thread, with the status that the sleep returns.
abbrev pub resuming : System → ℕ → Mutex × Status → System
resuming s t (m, e) = record s { mutex = m; inside = joined t (returned e) s.inside }

-- The waiter that is not one any more, if it is the first.
abbrev pub taken_off : (before after : List ℕ) → Option ℕ
taken_off [] after = none
taken_off (t ∷ rest) after = if has t after then none else some t

abbrev pub passed_on : Option ℕ → Option ℕ → Option ℕ
passed_on none pending = pending
passed_on (some t) pending = some t

abbrev pub unlocking : System → ℕ → Threads × Mutex → System
unlocking s t (ths, m) = record s {
  threads = ths;
  mutex = m;
  inside = remove t s.inside;
  pending = passed_on (taken_off s.mutex.threads m.threads) s.pending;
}

abbrev pub relisted : System → ℕ → Threads × List ℕ → System
relisted s t (ths, queue) = record s {
  threads = ths;
  mutex = record (s.mutex) { threads = queue };
  failed = if has t queue then s.failed else t ∷ s.failed;
}

-- The two parts of a lock up to the sleep, by a thread that is outside; what a thread does after its
-- sleep, however that ended; an unlock; the timer or an interrupt of a waiter; and anything else that
-- happens to a thread outside.
pub data Step (s : System) : System → Type 0 where
  fast : (t : ℕ) → IsOutside s t → Step s (tried s t (lock_fast t s.mutex))
  slow :
      (t now : ℕ) (timeout : ℤ) (flags : SleepFlags)
      → IsOutside s t
      → is_holder s.mutex.holder t ≡ false
      → Step s (entering s t (lock_slow t now timeout flags (s.threads, s.mutex)))
  resume :
      (t : ℕ)
      → s.pending ≡ some t
      → Step s (
          resuming
            (record s { pending = none })
            t
            (lock_resume t (s.threads t).sleep_status s.mutex))
  give_up :
      (t : ℕ)
      → has t s.failed ≡ true
      → Step s (
          resuming
            (record s { failed = remove t s.failed })
            t
            (lock_resume t (s.threads t).sleep_status s.mutex))
  unlock :
      (t : ℕ) (r : Threads × Mutex)
      → IsOutside s t
      → mutex_unlock t (s.threads, s.mutex) ≡ some r
      → Step s (unlocking s t r)
  time_out :
      (t : ℕ)
      → has t s.mutex.threads ≡ true
      → Step s (relisted s t (thread_timeout t (s.threads, s.mutex.threads)))
  interrupt :
      (t : ℕ)
      → has t s.mutex.threads ≡ true
      → Step s (relisted s t (thread_interrupt_internal t (s.threads, s.mutex.threads)))
  other :
      (t : ℕ) (th : Thread) → IsOutside s t → Step s (record s { threads = update s.threads t th })

pub data Reach (s : System) : System → Type 0 where
  here : Reach s s
  next : {t u : System} → Reach s t → Step t u → Reach s u

abbrev pub start : Threads → Bool → System
start ths recursive = record {
  threads = ths;
  mutex = mutex_init recursive;
  inside = [];
  pending = none;
  failed = [];
}

abbrev pub Failed : Status → Type 0
Failed e = (e ≡ timed_out) ⊎ (e ≡ interrupted)

-- The lock word is zero exactly if nobody has the lock, and then nobody waits. A lock on its way
-- to a thread has no holder and the count one, and that thread's sleep returns success; otherwise the
-- count is the number of calls inside, all of the holder. A waiter sleeps, waits once, and is no
-- owner. A sleep that a timeout or an interrupt ended returns an error. Only a recursive lock has a
-- count above one.
pub record Exclusive (s : System) : Type 0 where
  pub unheld :
      s.mutex.value ≡ 0 → (s.mutex.holder ≡ none) × (s.pending ≡ none) × (s.mutex.threads ≡ [])
  pub held : s.mutex.value ≢ 0 → s.pending ≡ none → s.mutex.holder ≢ none
  pub counted : s.pending ≡ none → s.mutex.value ≡ length s.inside
  pub owners : (t : ℕ) → has t s.inside ≡ true → s.mutex.holder ≡ some t
  pub passing :
      (t : ℕ)
      → s.pending ≡ some t
      → (s.mutex.holder ≡ none)
        × (s.mutex.value ≡ 1)
        × (s.inside ≡ [])
        × ((s.threads t).sleep_status ≡ success)
  pub distinct : IsDistinct s.mutex.threads
  pub waiting :
      (t : ℕ)
      → has t s.mutex.threads ≡ true
      → ((s.threads t).state ≡ sleeping)
        × ((s.threads t).sleep_status ≡ success)
        × (is_holder s.mutex.holder t ≡ false)
        × (is_holder s.pending t ≡ false)
  pub failing :
      (t : ℕ)
      → has t s.failed ≡ true
      → Failed (s.threads t).sleep_status
        × (is_holder s.pending t ≡ false)
        × (has t s.mutex.threads ≡ false)
  pub nested : s.mutex.recursive ≡ false → s.mutex.value ≤ 1
