-- ===== src/Sync/Rwlock.antt =====
-- source/kernel/sync/rwlock.c: readers-writer locks.
--
-- Each function is one step under the lock's spinlock, but `rwlock_write_lock_etc` is cut at its
-- sleep: what follows is `write_lock_resume`. The loop that hands the lock over tests the flag of a
-- thread again after it has woken it. `early` says which woken threads have run on another processor
-- by then and have cleared their flag.
pub mod Transfer
pub mod System
pub mod Taken
pub mod Handed
pub mod Locking
pub mod Unlocking
pub mod Exclusion
pub mod Race
use infinity_os.Base.{
  ℕ, zero, suc, ◌+◌, ◌-◌, Bool, true, false, not, ◌&&◌, ◌||◌, Option, none, some, List, [], ◌∷◌,
  ◌++◌, if◌then◌else◌, ◌==◌,
}
use infinity_os.Base.Int.{ℤ}
use infinity_os.Status.{Status, success}
use infinity_os.Thread.{Thread, Threads, SleepFlags, update, thread_wake, thread_sleep}

pub record Rwlock : Type 0 where
  pub held : Bool
  pub readers : ℕ
  pub threads : List ℕ

abbrev pub rwlock_init : Rwlock
rwlock_init = record { held = false; readers = 0; threads = [] }

abbrev pub is_empty : List ℕ → Bool
is_empty [] = true
is_empty (t ∷ ts) = false

-- `flags |= THREAD_RWLOCK_WRITER` and its reverse, and the test.
abbrev pub set_writer : ℕ → Bool → Threads → Threads
set_writer t b ths = update ths t (record (ths t) { bit_three = b })

abbrev pub is_writer : Threads → ℕ → Bool
is_writer ths t = (ths t).bit_three

-- The loop over the waiting threads; the list that it walks is the one that `thread_wake` takes
-- threads off.
unfoldable pub transfer_loop : (ℕ → Bool) → List ℕ → Threads × Rwlock → Threads × Rwlock
transfer_loop early [] s = s
transfer_loop early (t ∷ rest) (ths, lock) =
    let (ths', queue) = thread_wake t (ths, lock.threads) in
    let woken = record lock { threads = queue } in
    let on = transfer_loop early rest (ths', record woken { readers = lock.readers + 1 }) in
    if is_writer ths t && not (lock.readers == 0)
    then (ths, lock)
    else if is_writer ths' t && not (early t)
    then (ths', woken)
    else on

unfoldable pub rwlock_transfer_ownership : (ℕ → Bool) → Threads × Rwlock → Threads × Rwlock
rwlock_transfer_ownership early (ths, lock) = elim lock.threads [
  | [] ↦ if lock.readers == 0 then (ths, record lock { held = false }) else (ths, lock)
  | t ∷ rest ↦ transfer_loop early (t ∷ rest) (ths, lock)
]

abbrev pub Outcome : Type 0
Outcome = (Threads × Rwlock) × Option Status

abbrev pub after_sleep : Rwlock → (Threads × List ℕ) × Option Status → Outcome
after_sleep lock ((ths, queue), r) = ((ths, record lock { threads = queue }), r)

unfoldable pub rwlock_read_lock_etc : (self now : ℕ) → ℤ → SleepFlags → Threads × Rwlock → Outcome
rwlock_read_lock_etc self now timeout flags (ths, lock) =
    if lock.held
    then if lock.readers == 0 || not (is_empty lock.threads)
      then after_sleep lock (thread_sleep self now timeout flags (ths, lock.threads ++ self ∷ []))
      else ((ths, record lock { readers = lock.readers + 1 }), some success)
    else ((ths, record lock { held = true; readers = lock.readers + 1 }), some success)

-- Up to the sleep. With `some e` for an error the sleep failed at once, and `write_lock_resume`
-- follows as after any other sleep.
unfoldable pub write_lock_enter : (self now : ℕ) → ℤ → SleepFlags → Threads × Rwlock → Outcome
write_lock_enter self now timeout flags (ths, lock) =
    if lock.held
    then after_sleep lock
        (thread_sleep self now timeout flags (set_writer self true ths, lock.threads ++ self ∷ []))
    else ((ths, record lock { held = true }), some success)

abbrev pub is_error : Status → Bool
is_error success = false
is_error e = true

unfoldable pub write_lock_resume : (ℕ → Bool) → ℕ → Status → Threads × Rwlock → Threads × Rwlock
write_lock_resume early self status (ths, lock) =
    let s : Threads × Rwlock = (set_writer self false ths, lock) in
    if is_error status && not (lock.readers == 0) then rwlock_transfer_ownership early s else s

-- `none` is the fatal error for a lock that is not held.
unfoldable pub rwlock_unlock : (ℕ → Bool) → Threads × Rwlock → Option (Threads × Rwlock)
rwlock_unlock early (ths, lock) =
    if not lock.held
    then none
    else if lock.readers == 0
    then some (rwlock_transfer_ownership early (ths, lock))
    else let left = record lock { readers = lock.readers - 1 } in
      if left.readers == 0
      then some (rwlock_transfer_ownership early (ths, left))
      else some (ths, left)
