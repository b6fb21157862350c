-- ===== src/Sync/Rwlock/Exclusion.antt =====
-- Readers and writers exclude one another over all interleavings of the calls.
use infinity_os.Base.{ℕ, ◌≡◌, refl, true, false, List, arith}
use infinity_os.Thread.{Thread, Threads, update, thread_timeout, thread_interrupt_internal}
use infinity_os.Thread.Queue.{has, remove-IsDistinct, has_of_has-remove, has-remove_self}
use infinity_os.Sync.Rwlock.System.{
  System, Waits, Consistent, Step, read, write, resume, unlock_read, unlock_write, time_out,
  interrupt, other, Reach, here, next, start,
}
use infinity_os.Sync.Rwlock.Locking.{
  relisted-Consistent, read-Consistent, write-Consistent, resume-Consistent,
}
use infinity_os.Sync.Rwlock.Unlocking.{unlock_read-Consistent, unlock_write-Consistent}

time_out-Waits :
    (ths : Threads) (queue : List ℕ) (t : ℕ)
    → Waits ths queue
    → Waits (thread_timeout t (ths, queue)).0 (thread_timeout t (ths, queue)).1
unfolding thread_timeout update
time_out-Waits ths queue t w = record {
  distinct = ground (arith, w.distinct, remove-IsDistinct t queue);
  asleep = λ u m.
      ground (arith, w.asleep u, has-remove_self t queue w.distinct, has_of_has-remove t u queue);
}

interrupt-Waits :
    (ths : Threads) (queue : List ℕ) (t : ℕ)
    → has t queue ≡ true
    → Waits ths queue
    → Waits
        (thread_interrupt_internal t (ths, queue)).0
        (thread_interrupt_internal t (ths, queue)).1
unfolding thread_interrupt_internal update
interrupt-Waits ths queue t h w = record {
  distinct = ground (arith, w.distinct, remove-IsDistinct t queue);
  asleep = λ u m.
      ground (arith, w.asleep u, has-remove_self t queue w.distinct, has_of_has-remove t u queue);
}

other-Waits :
    (ths : Threads) (queue : List ℕ) (t : ℕ) (th : Thread)
    → has t queue ≡ false
    → Waits ths queue
    → Waits (update ths t th) queue
unfolding update
other-Waits ths queue t th h w = record {
  distinct = w.distinct;
  asleep = λ u m. ground (arith, w.asleep u);
}

held_of_has : (s : System) (t : ℕ) → has t s.lock.threads ≡ true → Consistent s → s.lock.held ≡ true
held_of_has s t h v = ground arith

pub Step-Consistent : {s u : System} → Step s u → Consistent s → Consistent u
Step-Consistent {s} (read t now timeout flags h) v = read-Consistent s t now timeout flags h v
Step-Consistent {s} (write t now timeout flags h) v = write-Consistent s t now timeout flags h v
Step-Consistent {s} (resume t e h) v = resume-Consistent s t e h v
Step-Consistent {s} (unlock_read t r m e) v = unlock_read-Consistent s t r e v m
Step-Consistent {s} (unlock_write t r m e) v = unlock_write-Consistent s t r e v m
Step-Consistent {s} (time_out t h) v =
    relisted-Consistent s _ _ (held_of_has s t h v)
      (time_out-Waits s.threads s.lock.threads t v.waits) v
Step-Consistent {s} (interrupt t h) v =
    relisted-Consistent s _ _ (held_of_has s t h v)
      (interrupt-Waits s.threads s.lock.threads t h v.waits) v
Step-Consistent {s} (other t th h) v = record {
  free = v.free;
  taken = v.taken;
  counted = v.counted;
  waits = other-Waits s.threads s.lock.threads t th h v.waits;
}

-- From a new lock, after any calls, wakeups, timeouts and interrupts, if the loop that passes the
-- lock on sees each flag as it was before it woke the thread: a free lock has no owner and nobody
-- waits; a held lock is held by readers, as many as it counts, or by one writer, and never by both;
-- and each waiter sleeps, waits once, and will return success if it is woken. The owners are the
-- threads whose call returned success, and those that a call of another took off the waiters, as
-- readers or writers by the flag that they wait with, until they unlock.
pub Reach-Consistent : {ths : Threads} {s : System} → Reach (start ths) s → Consistent s
Reach-Consistent here = record {
  free = λ f. (refl, refl, refl);
  taken = λ h. cc;
  counted = refl;
  waits = record { distinct = tt; asleep = λ t m. cc };
}
Reach-Consistent (next r st) = Step-Consistent st (Reach-Consistent r)
