-- ===== src/Sync/Mutex/Exclusion.antt =====
-- Mutual exclusion over all interleavings of the parts of `mutex_lock` and of `mutex_unlock`.
use infinity_os.Base.{ℕ, ◌≡◌, refl, true, arith, inl, inr, Bool}
use infinity_os.Thread.{Threads, update, thread_timeout, thread_interrupt_internal}
use infinity_os.Thread.Queue.{
  has, remove-IsDistinct, has_of_has-remove, has-remove_self, remove-nil,
}
use infinity_os.Sync.Mutex.Calls.{
  System, Owns, relisted, Step, fast, slow, resume, give_up, unlock, time_out, interrupt, other,
  Reach, here, next, start, Exclusive,
}
use infinity_os.Sync.Mutex.Entering.{
  fast-Exclusive, slow-Exclusive, resume-Exclusive, give_up-Exclusive,
}
use infinity_os.Sync.Mutex.Leaving.{unlocked-Exclusive}

time_out-Exclusive :
    (s : System) (t : ℕ)
    → has t s.mutex.threads ≡ true
    → Exclusive s
    → Exclusive (relisted s t (thread_timeout t (s.threads, s.mutex.threads)))
unfolding thread_timeout update
time_out-Exclusive s t h v = record {
  unheld = ground (arith, remove-nil t);
  held = v.held;
  counted = v.counted;
  owners = v.owners;
  passing = λ u o. ground (arith, v.passing u, v.waiting t h);
  distinct = ground (arith, remove-IsDistinct t s.mutex.threads);
  waiting = λ u m. ground (
    arith,
    v.waiting u,
    has-remove_self t s.mutex.threads v.distinct,
    has_of_has-remove t u s.mutex.threads,
  );
  failing = λ u m. ground (
    arith,
    v.failing u,
    v.waiting t h,
    has-remove_self t s.mutex.threads v.distinct,
    has_of_has-remove t u s.mutex.threads,
  );
  nested = v.nested;
}

interrupt-Exclusive :
    (s : System) (t : ℕ)
    → has t s.mutex.threads ≡ true
    → Exclusive s
    → Exclusive (relisted s t (thread_interrupt_internal t (s.threads, s.mutex.threads)))
unfolding thread_interrupt_internal update
interrupt-Exclusive s t h v = record {
  unheld = ground (arith, remove-nil t);
  held = v.held;
  counted = v.counted;
  owners = v.owners;
  passing = λ u o. ground (arith, v.passing u, v.waiting t h);
  distinct = ground (arith, remove-IsDistinct t s.mutex.threads);
  waiting = λ u m. ground (
    arith,
    v.waiting u,
    has-remove_self t s.mutex.threads v.distinct,
    has_of_has-remove t u s.mutex.threads,
  );
  failing = λ u m. ground (
    arith,
    v.failing u,
    v.waiting t h,
    has-remove_self t s.mutex.threads v.distinct,
    has_of_has-remove t u s.mutex.threads,
  );
  nested = v.nested;
}

pub Step-Exclusive : {s u : System} → Step s u → Exclusive s → Exclusive u
unfolding update
Step-Exclusive {s} (fast t out) v = fast-Exclusive s t out v
Step-Exclusive {s} (slow t now timeout flags out h) v = slow-Exclusive s t now timeout flags out h v
Step-Exclusive {s} (resume t p) v = resume-Exclusive s t p v
Step-Exclusive {s} (give_up t f) v = give_up-Exclusive s t f v
Step-Exclusive {s} (unlock t r out e) v = unlocked-Exclusive s t r e v
Step-Exclusive {s} (time_out t h) v = time_out-Exclusive s t h v
Step-Exclusive {s} (interrupt t h) v = interrupt-Exclusive s t h v
Step-Exclusive {s} (other t th out) v = record {
  unheld = v.unheld;
  held = v.held;
  counted = v.counted;
  owners = v.owners;
  passing = λ u p. ground (arith, v.passing u);
  distinct = v.distinct;
  waiting = λ u m. ground (arith, v.waiting u);
  failing = λ u m. ground (arith, v.failing u);
  nested = v.nested;
}

-- Whatever the threads do, in any order, from a new mutex: the lock word is zero exactly if nobody
-- has the lock, and nobody waits then; a lock that an unlock passed on has no holder, the count one,
-- and a new owner whose sleep returns success; any other lock counts the calls that returned success
-- and were not undone, which are the holder's; each waiter sleeps, waits once and owns nothing; and
-- only a recursive lock has a count above one.
pub Reach-Exclusive :
    {ths : Threads} {recursive : Bool} {s : System} → Reach (start ths recursive) s → Exclusive s
Reach-Exclusive here = record {
  unheld = λ z. (refl, refl, refl);
  held = λ ne. absurd (ne refl);
  counted = λ p. refl;
  owners = λ t m. cc;
  passing = λ t p. cc;
  distinct = tt;
  waiting = λ t m. cc;
  failing = λ t m. cc;
  nested = λ r. omega arith;
}
Reach-Exclusive (next r st) = Step-Exclusive st (Reach-Exclusive r)

owner_unique : {s : System} {t u : ℕ} → Exclusive s → Owns s t → Owns s u → t ≡ u
owner_unique {t} {u} v (inl p) (inl q) = ground (arith, v.owners t, v.owners u)
owner_unique {t} {u} v (inl p) (inr q) = ground (arith, v.passing u)
owner_unique {t} {u} v (inr p) (inl q) = ground (arith, v.passing t)
owner_unique v (inr p) (inr q) = ground arith

-- After any steps from a new mutex, two threads never have it at the same time: a thread has it from
-- when one of its calls of `mutex_lock` returns success, or an unlock takes it off the waiters, until
-- it has undone each of its calls that returned success by an unlock. Calls that fail at once, time
-- out or are interrupted are among the steps.
pub mutual_exclusion :
    {ths : Threads} {recursive : Bool} {s : System} (t u : ℕ)
    → Reach (start ths recursive) s
    → Owns s t
    → Owns s u
    → t ≡ u
mutual_exclusion t u r p q = owner_unique (Reach-Exclusive r) p q
