-- ===== src/Sync/Rwlock/Unlocking.antt =====
-- `rwlock_unlock` keeps the invariant.
use infinity_os.Base.{
  ℕ, ◌-◌, ◌≡◌, if◌then◌else◌, ◌≢◌, true, [], ◌==◌, arith, length, Bool-cases, inl, inr, some,
}
use infinity_os.Thread.{Threads, remove}
use infinity_os.Thread.Queue.{has, length-remove, nil_of_length}
use infinity_os.Sync.Rwlock.{Rwlock, rwlock_unlock, rwlock_transfer_ownership}
use infinity_os.Sync.Rwlock.Transfer.{punctual}
use infinity_os.Sync.Rwlock.System.{System, Waits, Consistent, settled}
use infinity_os.Sync.Rwlock.Taken.{taken_off_self}
use infinity_os.Sync.Rwlock.Handed.{handed-Consistent}

-- The call as it passes the lock on, or leaves it to the readers that remain.
abbrev unlocked : Threads × Rwlock → (readers : ℕ) → Threads × Rwlock
unlocked (ths, lock) readers =
    let left = record lock { readers = readers } in
    if readers == 0 then rwlock_transfer_ownership punctual (ths, left) else (ths, left)

unlock_read-eq :
    (s : System)
    → s.lock.held ≡ true
    → s.lock.readers ≢ 0
    → rwlock_unlock punctual (s.threads, s.lock)
      ≡ some (unlocked (s.threads, s.lock) (s.lock.readers - 1))
unfolding rwlock_unlock
unlock_read-eq s h n = ground arith

unlock_write-eq :
    (s : System)
    → s.lock.held ≡ true
    → s.lock.readers ≡ 0
    → rwlock_unlock punctual (s.threads, s.lock)
      ≡ some (unlocked (s.threads, s.lock) (s.lock.readers))
unfolding rwlock_unlock
unlock_write-eq s h n = ground arith

-- A lock with as many readers inside as are left, and no writer.
unlocked-Consistent :
    (s : System) (readers : ℕ)
    → s.lock.held ≡ true
    → s.writers ≡ []
    → readers ≡ length s.inside
    → Waits s.threads s.lock.threads
    → Consistent (settled s (unlocked (s.threads, s.lock) readers))
unlocked-Consistent s readers h n c w = elim (Bool-cases (readers == 0)) [
  | inl last ↦ rw last (
      handed-Consistent (record s { lock = record (s.lock) { readers = readers } }) s.threads h n c
        w)
  | inr more ↦
      rw (more, taken_off_self s.lock.threads s.lock.threads (λ u m. m))
        (record { free = λ f. cc; taken = λ k. inl (n, λ e. ground arith); counted = c; waits = w })
]

module _ (s : System) (t : ℕ) (r : Threads × Rwlock)
    (e : rwlock_unlock punctual (s.threads, s.lock) ≡ some r) (v : Consistent s) where
  held_by_reader : has t s.inside ≡ true → s.lock.held ≡ true
  held_by_reader m = ground arith

  pub unlock_read-Consistent :
      has t s.inside ≡ true → Consistent (settled (record s { inside = remove t s.inside }) r)
  unlock_read-Consistent m =
      let left = unlock_read-eq s (held_by_reader m) (ground (arith, v.counted)) in
      let same : r ≡ unlocked (s.threads, s.lock) (s.lock.readers - 1) = ground arith in
      rw same (
        unlocked-Consistent (record s { inside = remove t s.inside }) (s.lock.readers - 1)
          (held_by_reader m) (ground arith) (ground (arith, v.counted, length-remove t s.inside m))
          v.waits)

  pub unlock_write-Consistent :
      has t s.writers ≡ true → Consistent (settled (record s { writers = remove t s.writers }) r)
  unlock_write-Consistent m =
      let held : s.lock.held ≡ true = ground arith in
      let one : length s.writers ≡ 1 = ground arith in
      let left = unlock_write-eq s held (ground arith) in
      let same : r ≡ unlocked (s.threads, s.lock) (s.lock.readers) = ground arith in
      rw same (
        unlocked-Consistent (record s { writers = remove t s.writers }) (s.lock.readers) held
          (nil_of_length _ (omega (arith, one, length-remove t s.writers m))) v.counted v.waits)
