-- ===== src/Sync/Mutex.antt =====
-- source/kernel/sync/mutex.c: mutexes with recursion and hand-over.
--
-- `mutex_lock_internal` is cut where other threads can run: the attempt without the spinlock
-- (`lock_fast`), the part under the spinlock up to the sleep (`lock_slow`), and what follows the
-- sleep (`lock_resume`). Each part sets the holder in the step that wins the lock. The debug field
-- `caller` and the lock's name are left out.
pub mod Calls
pub mod Entering
pub mod Leaving
pub mod Exclusion
pub mod Handoff
use infinity_os.Base.{
  ℕ, zero, suc, ◌+◌, ◌-◌, Bool, true, false, Option, none, some, List, [], ◌∷◌, ◌++◌, if◌then◌else◌,
  ◌==◌,
}
use infinity_os.Base.Int.{ℤ, negsuc}
use infinity_os.Status.{Status, success}
use infinity_os.Thread.{Threads, SleepFlags, thread_wake, thread_sleep}

pub record Mutex : Type 0 where
  pub value : ℕ
  pub recursive : Bool
  pub threads : List ℕ
  pub holder : Option ℕ

abbrev pub mutex_init : Bool → Mutex
mutex_init recursive = record { value = 0; recursive = recursive; threads = []; holder = none }

abbrev pub is_holder : Option ℕ → ℕ → Bool
is_holder none t = false
is_holder (some u) t = u == t

-- How a part ends: the call returns, the kernel dies, the caller goes on with the next part, or it
-- sleeps.
pub data Entry : Type 0 where
  returned : Status → Entry
  fatal contend asleep : Entry

unfoldable pub lock_fast : ℕ → Mutex → Mutex × Entry
lock_fast self m =
    if m.value == 0
    then (record m { value = 1; holder = some self }, returned success)
    else if is_holder m.holder self
    then if m.recursive then (record m { value = m.value + 1 }, returned success) else (m, fatal)
    else (m, contend)

abbrev pub entered : Mutex → (Threads × List ℕ) × Option Status → (Threads × Mutex) × Entry
entered m ((ths, queue), none) = ((ths, record m { threads = queue }), asleep)
entered m ((ths, queue), some e) = ((ths, record m { threads = queue }), returned e)

unfoldable pub lock_slow :
    (self now : ℕ) → ℤ → SleepFlags → Threads × Mutex → (Threads × Mutex) × Entry
lock_slow self now timeout flags (ths, m) =
    if m.value == 0
    then ((ths, record m { value = 1; holder = some self }), returned success)
    else entered m (thread_sleep self now timeout flags (ths, m.threads ++ self ∷ []))

-- `status` is what the sleep returned.
unfoldable pub lock_resume : ℕ → Status → Mutex → Mutex × Status
lock_resume self success m = (record m { holder = some self }, success)
lock_resume self e m = (m, e)

unfoldable pub mutex_unlock : ℕ → Threads × Mutex → Option (Threads × Mutex)
mutex_unlock self (ths, m) =
    if m.value == 0
    then none
    else if is_holder m.holder self
    then if m.value == 1
      then elim m.threads [
        | [] ↦ some (ths, record m { holder = none; value = m.value - 1 })
        | t ∷ rest ↦
            let (ths', queue) = thread_wake t (ths, m.threads) in
            some (ths', record m { holder = none; threads = queue })
      ]
      else some (ths, record m { value = m.value - 1 })
    else none

-- `mutex_lock` is `mutex_lock_etc` with a timeout of -1 and no flags.
abbrev pub forever : ℤ
forever = negsuc 0

abbrev pub uninterruptible : SleepFlags
uninterruptible = record { interruptible = false; absolute = false }
