-- ===== src/Sync/Semaphore.antt =====
-- source/kernel/sync/semaphore.c: counting semaphores, kernel and user part.
--
-- Each function is one step under the semaphore's spinlock. The object manager is not part of the
-- model: the user functions take the semaphore that the handle refers to, if there is one.
pub mod Ledger
pub mod Wake
pub mod User
use infinity_os.Base.{
  ℕ, zero, suc, ◌+◌, ◌-◌, ◌%◌, ◌^◌, Option, some, List, [], ◌∷◌, ◌++◌, if◌then◌else◌, ltb,
}
use infinity_os.Base.Int.{ℤ}
use infinity_os.Status.{Status, success}
use infinity_os.Thread.{Threads, SleepFlags, thread_wake, thread_sleep}

-- `size_t` has 64 bits.
abbrev pub size_mod : ℕ
size_mod = 2 ^ 64

pub record Semaphore : Type 0 where
  pub count : ℕ
  pub threads : List ℕ

abbrev pub semaphore_init : ℕ → Semaphore
semaphore_init initial = record { count = initial; threads = [] }

-- A step from the store of threads and the semaphore; `none` means that the caller sleeps.
abbrev pub Outcome : Type 0
Outcome = (Threads × Semaphore) × Option Status

abbrev pub after_sleep : ℕ → (Threads × List ℕ) × Option Status → Outcome
after_sleep count ((ths, queue), r) = ((ths, record { count = count; threads = queue }), r)

unfoldable pub semaphore_down_etc : (self now : ℕ) → ℤ → SleepFlags → Threads × Semaphore → Outcome
semaphore_down_etc self now timeout flags (ths, sem) =
    if ltb 0 sem.count
    then ((ths, record sem { count = sem.count - 1 }), some success)
    else after_sleep sem.count (thread_sleep self now timeout flags (ths, sem.threads ++ self ∷ []))

-- One round of the loop of `semaphore_up`.
unfoldable pub up_one : Threads × Semaphore → Threads × Semaphore
up_one (ths, sem) = elim sem.threads [
  | [] ↦ (ths, record sem { count = (sem.count + 1) % size_mod })
  | t ∷ rest ↦
      let (ths', queue) = thread_wake t (ths, sem.threads) in (ths', record sem { threads = queue })
]

unfoldable pub semaphore_up : ℕ → Threads × Semaphore → Threads × Semaphore
unfolding up_one
semaphore_up zero s = s
semaphore_up (suc n) s = semaphore_up n (up_one s)
