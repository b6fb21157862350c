-- ===== src/Sync/Semaphore/Ledger.antt =====
-- The semaphore as a state machine: calls of many threads, timeouts and interrupts in any order.
use infinity_os.Base.{
  ℕ, ◌+◌, ◌-◌, ◌≤◌, ◌<◌, ◌≡◌, refl, true, false, List, [], ◌∷◌, ltb, arith, length, length-drop,
  drop-eq-nil, Option, none, some, ◌⊎◌, inl, inr, Bool-cases,
}
use infinity_os.Base.Int.{ℤ}
use infinity_os.Status.{Status, success}
use infinity_os.Thread.{
  Thread, Threads, SleepFlags, sleeping, update, go_to_sleep, thread_timeout,
  thread_interrupt_internal,
}
use infinity_os.Thread.Queue.{
  has, IsDistinct, append-IsDistinct, remove-IsDistinct, has-append, has_of_has-remove,
  has-remove_self, drop-IsDistinct, has_of_has-drop, has-take_of_has-drop, remove-nil,
}
use infinity_os.Thread.Sleep.{Slept, thread_sleep-Slept}
use infinity_os.Sync.Semaphore.{
  Semaphore, Outcome, size_mod, semaphore_init, semaphore_down_etc, semaphore_up, after_sleep,
}
use infinity_os.Sync.Semaphore.Wake.{semaphore_up-serves}

-- `posted` counts what callers gave by `semaphore_up`, and `granted` the calls of
-- `semaphore_down_etc` that got their unit: at once, or by being woken.
pub record System : Type 0 where
  pub threads : Threads
  pub sem : Semaphore
  pub posted : ℕ
  pub granted : ℕ

abbrev is_success : Option Status → ℕ
is_success none = 0
is_success (some success) = 1
is_success (some e) = 0

abbrev downed : System → Outcome → System
downed s ((ths, sem), r) = record s { threads = ths; sem = sem; granted = s.granted + is_success r }

abbrev upped : System → ℕ → Threads × Semaphore → System
upped s n (ths, sem) = record {
  threads = ths;
  sem = sem;
  posted = s.posted + n;
  granted = s.granted + (length s.sem.threads - length sem.threads);
}

abbrev relisted : System → Threads × List ℕ → System
relisted s (ths, queue) = record s { threads = ths; sem = record (s.sem) { threads = queue } }

-- One step: a call of a thread that does not wait here, an `up`, the timer or an interrupt of a
-- waiter, or anything that happens to a thread that does not wait here.
pub data Step (s : System) : System → Type 0 where
  down :
      (t now : ℕ) (timeout : ℤ) (flags : SleepFlags)
      → has t s.sem.threads ≡ false
      → Step s (downed s (semaphore_down_etc t now timeout flags (s.threads, s.sem)))
  up : (n : ℕ) → Step s (upped s n (semaphore_up n (s.threads, s.sem)))
  time_out :
      (t : ℕ)
      → has t s.sem.threads ≡ true
      → Step s (relisted s (thread_timeout t (s.threads, s.sem.threads)))
  interrupt :
      (t : ℕ)
      → has t s.sem.threads ≡ true
      → Step s (relisted s (thread_interrupt_internal t (s.threads, s.sem.threads)))
  other :
      (t : ℕ) (th : Thread)
      → has t s.sem.threads ≡ false
      → Step s (record s { threads = update s.threads t th })

pub data Reach (s : System) : System → Type 0 where
  here : Reach s s
  next : {t u : System} → Reach s t → Step t u → Reach s u

abbrev pub start : Threads → ℕ → System
start ths initial = record { threads = ths; sem = semaphore_init initial; posted = 0; granted = 0 }

-- Every unit is in the count or was granted, none is kept while a thread waits, and whoever waits
-- is asleep with a sleep that is going to return success, and waits once.
pub record Balanced (initial : ℕ) (s : System) : Type 0 where
  pub ledger : s.sem.count + s.granted ≡ initial + s.posted
  pub idle : (s.sem.count ≡ 0) ⊎ (s.sem.threads ≡ [])
  pub distinct : IsDistinct s.sem.threads
  pub asleep :
      (t : ℕ)
      → has t s.sem.threads ≡ true
      → ((s.threads t).state ≡ sleeping) × ((s.threads t).sleep_status ≡ success)

down_sleep-Balanced :
    (initial : ℕ) (s : System) (t now : ℕ) (timeout : ℤ) (flags : SleepFlags)
    → has t s.sem.threads ≡ false
    → s.sem.count ≡ 0
    → Balanced initial s
    → (r : (Threads × List ℕ) × Option Status) → Slept t now timeout flags s.threads s.sem.threads r
    → Balanced initial (downed s (after_sleep s.sem.count r))
unfolding go_to_sleep update
down_sleep-Balanced initial s t now timeout flags h z v r (inl (e, p, q)) =
    rw p (record { ledger = ground arith; idle = inl z; distinct = v.distinct; asleep = v.asleep })
down_sleep-Balanced initial s t now timeout flags h z v r (inr p) = rw p (record {
  ledger = ground arith;
  idle = inl z;
  distinct = append-IsDistinct t s.sem.threads v.distinct h;
  asleep = λ u m. ground (arith, v.asleep u, has-append u s.sem.threads (t ∷ []));
})

down-Balanced :
    (initial : ℕ) (s : System) (t now : ℕ) (timeout : ℤ) (flags : SleepFlags)
    → has t s.sem.threads ≡ false
    → Balanced initial s
    → Balanced initial (downed s (semaphore_down_etc t now timeout flags (s.threads, s.sem)))
unfolding semaphore_down_etc
down-Balanced initial s t now timeout flags h v = elim (Bool-cases (ltb 0 s.sem.count)) [
  | inl more ↦ rw more (record {
    ledger = ground arith;
    idle = ground arith;
    distinct = v.distinct;
    asleep = v.asleep;
  })
  | inr empty ↦ rw empty (
      down_sleep-Balanced initial s t now timeout flags h (ground arith) v _
        (thread_sleep-Slept t now timeout flags s.threads s.sem.threads h))
]

up-Balanced :
    (initial : ℕ) (s : System) (n : ℕ)
    → s.sem.count + n < size_mod
    → Balanced initial s
    → Balanced initial (upped s n (semaphore_up n (s.threads, s.sem)))
up-Balanced initial s n fits v =
    let (woken, queue, count) = semaphore_up-serves n s.threads s.sem (omega arith) in
    let whole = length-drop n s.sem.threads in
    record {
      ledger = ground (arith, v.idle);
      idle = ground (arith, v.idle, drop-eq-nil n s.sem.threads);
      distinct = rw queue (drop-IsDistinct n s.sem.threads v.distinct);
      asleep = λ u m. ground (
        arith,
        v.asleep u,
        woken.others u,
        has_of_has-drop n u s.sem.threads,
        has-take_of_has-drop n u s.sem.threads v.distinct,
      );
    }

time_out-Balanced :
    (initial : ℕ) (s : System) (t : ℕ)
    → Balanced initial s
    → Balanced initial (relisted s (thread_timeout t (s.threads, s.sem.threads)))
unfolding thread_timeout update
time_out-Balanced initial s t v = record {
  ledger = ground arith;
  idle = ground (arith, remove-nil t);
  distinct = ground (arith, remove-IsDistinct t s.sem.threads);
  asleep = λ u m. ground (
    arith,
    v.asleep u,
    has-remove_self t s.sem.threads v.distinct,
    has_of_has-remove t u s.sem.threads,
  );
}

interrupt-Balanced :
    (initial : ℕ) (s : System) (t : ℕ)
    → Balanced initial s
    → Balanced initial (relisted s (thread_interrupt_internal t (s.threads, s.sem.threads)))
unfolding thread_interrupt_internal update
interrupt-Balanced initial s t v = record {
  ledger = ground arith;
  idle = ground (arith, remove-nil t);
  distinct = ground (arith, remove-IsDistinct t s.sem.threads);
  asleep = λ u m. ground (
    arith,
    v.asleep u,
    has-remove_self t s.sem.threads v.distinct,
    has_of_has-remove t u s.sem.threads,
  );
}

-- The totals only grow, so a bound at the end holds all the way.
Step-posted : {s u : System} → Step s u → s.posted ≤ u.posted
Step-posted (down t now timeout flags h) = omega arith
Step-posted (up n) = omega arith
Step-posted (time_out t h) = omega arith
Step-posted (interrupt t h) = omega arith
Step-posted (other t th h) = omega arith

Step-Balanced :
    (initial : ℕ) {s u : System}
    → Step s u
    → initial + u.posted < size_mod
    → Balanced initial s
    → Balanced initial u
unfolding update
Step-Balanced initial {s} (down t now timeout flags h) fits v =
    down-Balanced initial s t now timeout flags h v
Step-Balanced initial {s} (up n) fits v = up-Balanced initial s n (omega (arith, v.ledger)) v
Step-Balanced initial {s} (time_out t h) fits v = time_out-Balanced initial s t v
Step-Balanced initial {s} (interrupt t h) fits v = interrupt-Balanced initial s t v
Step-Balanced initial {s} (other t th h) fits v = record {
  ledger = v.ledger;
  idle = v.idle;
  distinct = v.distinct;
  asleep = λ u m. ground (arith, v.asleep u);
}

-- From a new semaphore, after any sequence of calls, timeouts, interrupts and scheduling: as long
-- as the units ever given fit in a `size_t`, the count plus the units granted is the initial value
-- plus the units posted, no unit lies in the count while a thread waits, no thread waits twice,
-- and each that waits is asleep with a sleep that returns success when it is woken.
pub Reach-Balanced :
    {ths : Threads} {initial : ℕ} {s : System}
    → Reach (start ths initial) s
    → initial + s.posted < size_mod
    → Balanced initial s
Reach-Balanced here fits = record {
  ledger = omega arith;
  idle = inr refl;
  distinct = tt;
  asleep = λ t m. cc;
}
Reach-Balanced (next r st) fits =
    Step-Balanced _ st fits (Reach-Balanced r (omega (arith, Step-posted st)))
