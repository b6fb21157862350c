-- ===== src/Sync/Rwlock/Race.antt =====
-- What the second test of the flag in `rwlock_transfer_ownership` lets happen.
use infinity_os.Base.{ℕ, ◌≡◌, refl, Bool, true, [], ◌∷◌, arith, some}
use infinity_os.Base.Int.{ℤ}
use infinity_os.Status.{success}
use infinity_os.Thread.{Threads, SleepFlags, ready, update}
use infinity_os.Thread.Wake.{wake_one, thread_wake-first}
use infinity_os.Sync.Rwlock.{
  Rwlock, is_writer, transfer_loop, rwlock_transfer_ownership, rwlock_read_lock_etc, rwlock_unlock,
}

-- Let a writer wait alone for a lock that is held for writing. If it runs on another processor and
-- clears its flag before the loop that woke it tests the flag again, the loop counts it as a reader,
-- and the next reader is let in at once although the writer has the lock.
pub unlock-admits_reader :
    (early : ℕ → Bool) (ths : Threads) (w r now : ℕ) (timeout : ℤ) (flags : SleepFlags)
    → is_writer ths w ≡ true
    → early w ≡ true
    → (s : Threads × Rwlock) × (rwlock_unlock early
          (ths, record { held = true; readers = 0; threads = w ∷ [] })
        ≡ some s)
      × ((s.0 w).state ≡ ready)
      × (s.1.readers ≡ 1)
      × ((rwlock_read_lock_etc r now timeout flags s).1 ≡ some success)
unfolding rwlock_unlock rwlock_transfer_ownership transfer_loop rwlock_read_lock_etc update
unlock-admits_reader early ths w r now timeout flags writer clear = (
  (wake_one ths w, record { held = true; readers = 1; threads = [] }),
  ground (arith, thread_wake-first w [] ths),
  ground arith,
  refl,
  refl,
)
