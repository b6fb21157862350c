-- ===== src/Sync/Rwlock/Locking.antt =====
-- The calls that take the lock, and what follows a writer's sleep, keep the invariant.
use infinity_os.Base.{
  ℕ, ◌≡◌, Bool, true, false, not, ◌&&◌, List, [], ◌∷◌, ◌++◌, ◌==◌, arith, ◌||◌, Bool-cases, inl,
  inr, Option, ◌⊎◌,
}
use infinity_os.Base.Int.{ℤ}
use infinity_os.Status.{Status}
use infinity_os.Thread.{relative, Threads, SleepFlags, update, thread_sleep, go_to_sleep}
use infinity_os.Thread.Queue.{has, append-IsDistinct, has-append}
use infinity_os.Thread.Sleep.{Slept, thread_sleep-Slept}
use infinity_os.Sync.Rwlock.{
  set_writer, is_empty, is_error, after_sleep, rwlock_read_lock_etc, write_lock_enter,
  write_lock_resume,
}
use infinity_os.Sync.Rwlock.Transfer.{punctual}
use infinity_os.Sync.Rwlock.System.{
  System, Waits, Consistent, read_done, write_done, relisted, settled,
}
use infinity_os.Sync.Rwlock.Taken.{taken_off_self}
use infinity_os.Sync.Rwlock.Handed.{handed-Consistent}

-- A change of the waiters alone.
pub relisted-Consistent :
    (s : System) (ths : Threads) (queue : List ℕ)
    → s.lock.held ≡ true
    → Waits ths queue
    → Consistent s
    → Consistent (relisted s (ths, queue))
relisted-Consistent s ths queue held w v = record {
  free = λ f. cc;
  taken = v.taken;
  counted = v.counted;
  waits = w;
}

module _ (s : System) (t now : ℕ) (timeout : ℤ) (flags : SleepFlags) (ths : Threads)
    (h : has t s.lock.threads ≡ false) (held : s.lock.held ≡ true) (w : Waits ths s.lock.threads)
    (v : Consistent s) where
  slept-Waits :
      Waits (go_to_sleep t (relative flags now timeout) flags ths) (s.lock.threads ++ t ∷ [])
  unfolding go_to_sleep update
  slept-Waits = record {
    distinct = append-IsDistinct t s.lock.threads w.distinct h;
    asleep = λ u m. ground (arith, w.asleep u, has-append u s.lock.threads (t ∷ []));
  }

  sleep-Consistent :
      (r : (Threads × List ℕ) × Option Status)
      → Slept t now timeout flags ths s.lock.threads r
      → Consistent (read_done s t (after_sleep s.lock r))
        × Consistent (write_done s t (after_sleep s.lock r))
  sleep-Consistent r (inl (e, p, inl q)) =
      rw (p, q) (relisted-Consistent s ths _ held w v, relisted-Consistent s ths _ held w v)
  sleep-Consistent r (inl (e, p, inr q)) =
      rw (p, q) (relisted-Consistent s ths _ held w v, relisted-Consistent s ths _ held w v)
  sleep-Consistent r (inr p) =
      rw p
        (relisted-Consistent s _ _ held slept-Waits v, relisted-Consistent s _ _ held slept-Waits v)

read_waits :
    (s : System) (t now : ℕ) (timeout : ℤ) (flags : SleepFlags)
    → s.lock.held ≡ true
    → (s.lock.readers == 0) || not (is_empty s.lock.threads) ≡ true
    → rwlock_read_lock_etc t now timeout flags (s.threads, s.lock)
      ≡ after_sleep s.lock (thread_sleep t now timeout flags (s.threads, s.lock.threads ++ t ∷ []))
unfolding rwlock_read_lock_etc
read_waits s t now timeout flags held wait = ground arith

read_joins-Consistent :
    (s : System) (t now : ℕ) (timeout : ℤ) (flags : SleepFlags)
    → (s.lock.held ≡ false) ⊎ (((s.lock.readers == 0) || not (is_empty s.lock.threads)) ≡ false)
    → Consistent s
    → Consistent (read_done s t (rwlock_read_lock_etc t now timeout flags (s.threads, s.lock)))
unfolding rwlock_read_lock_etc
read_joins-Consistent s t now timeout flags h v = record {
  free = ground arith;
  taken = ground arith;
  counted = ground arith;
  waits = ground (arith, v.waits);
}

pub read-Consistent :
    (s : System) (t now : ℕ) (timeout : ℤ) (flags : SleepFlags)
    → has t s.lock.threads ≡ false
    → Consistent s
    → Consistent (read_done s t (rwlock_read_lock_etc t now timeout flags (s.threads, s.lock)))
read-Consistent s t now timeout flags h v = elim (Bool-cases s.lock.held) [
  | inl held ↦ elim (Bool-cases ((s.lock.readers == 0) || not (is_empty s.lock.threads))) [
    | inl wait ↦
        rw (read_waits s t now timeout flags held wait)
          (sleep-Consistent s t now timeout flags s.threads h held v.waits v _
            (thread_sleep-Slept t now timeout flags s.threads s.lock.threads h)).0
    | inr join ↦ read_joins-Consistent s t now timeout flags (inr join) v
  ]
  | inr free ↦ read_joins-Consistent s t now timeout flags (inl free) v
]

write_waits :
    (s : System) (t now : ℕ) (timeout : ℤ) (flags : SleepFlags)
    → s.lock.held ≡ true
    → write_lock_enter t now timeout flags (s.threads, s.lock)
      ≡ after_sleep s.lock
          (thread_sleep t now timeout flags (set_writer t true s.threads, s.lock.threads ++ t ∷ []))
unfolding write_lock_enter
write_waits s t now timeout flags held = ground arith

write_enters-Consistent :
    (s : System) (t now : ℕ) (timeout : ℤ) (flags : SleepFlags)
    → s.lock.held ≡ false
    → Consistent s
    → Consistent (write_done s t (write_lock_enter t now timeout flags (s.threads, s.lock)))
unfolding write_lock_enter
write_enters-Consistent s t now timeout flags h v = record {
  free = ground arith;
  taken = ground arith;
  counted = ground arith;
  waits = ground (arith, v.waits);
}

marked-Waits :
    (s : System) (t : ℕ) (b : Bool)
    → has t s.lock.threads ≡ false
    → Waits s.threads s.lock.threads
    → Waits (set_writer t b s.threads) s.lock.threads
unfolding update
marked-Waits s t b h w = record {
  distinct = w.distinct;
  asleep = λ u m. ground (arith, w.asleep u);
}

pub write-Consistent :
    (s : System) (t now : ℕ) (timeout : ℤ) (flags : SleepFlags)
    → has t s.lock.threads ≡ false
    → Consistent s
    → Consistent (write_done s t (write_lock_enter t now timeout flags (s.threads, s.lock)))
write-Consistent s t now timeout flags h v = elim (Bool-cases s.lock.held) [
  | inl held ↦
      rw (write_waits s t now timeout flags held)
        (sleep-Consistent s t now timeout flags (set_writer t true s.threads) h held
          (marked-Waits s t true h v.waits) v _
          (thread_sleep-Slept t now timeout flags (set_writer t true s.threads) s.lock.threads h)).1
  | inr free ↦ write_enters-Consistent s t now timeout flags free v
]

pub resume-Consistent :
    (s : System) (t : ℕ) (e : Status)
    → has t s.lock.threads ≡ false
    → Consistent s
    → Consistent (settled s (write_lock_resume punctual t e (s.threads, s.lock)))
unfolding write_lock_resume
resume-Consistent s t e h v = elim (Bool-cases (is_error e && not (s.lock.readers == 0))) [
  | inl pass ↦ rw pass (
      handed-Consistent s (set_writer t false s.threads) (ground arith) (ground arith) v.counted
        (marked-Waits s t false h v.waits))
  | inr keep ↦
      rw (keep, taken_off_self s.lock.threads s.lock.threads (λ u m. m))
        (record {
          free = v.free;
          taken = v.taken;
          counted = v.counted;
          waits = marked-Waits s t false h v.waits;
        })
]
