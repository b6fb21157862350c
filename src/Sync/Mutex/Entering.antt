-- ===== src/Sync/Mutex/Entering.antt =====
-- `mutex_lock`, up to its sleep and from there on, keeps the lock exclusive.
use infinity_os.Base.{
  ℕ, ◌≡◌, ◌≢◌, true, false, Option, none, some, List, [], ◌∷◌, ◌==◌, arith, inl, inr, Bool-cases,
}
use infinity_os.Base.Int.{ℤ}
use infinity_os.Status.{Status}
use infinity_os.Thread.{Threads, SleepFlags, update, remove, go_to_sleep}
use infinity_os.Thread.Queue.{has, append-IsDistinct, has-append, has_of_has-remove}
use infinity_os.Thread.Sleep.{Slept, thread_sleep-Slept}
use infinity_os.Sync.Mutex.{is_holder, entered, lock_fast, lock_slow, lock_resume}
use infinity_os.Sync.Mutex.Calls.{System, IsOutside, tried, entering, resuming, Exclusive}

pub fast-Exclusive :
    (s : System) (t : ℕ) → IsOutside s t → Exclusive s → Exclusive (tried s t (lock_fast t s.mutex))
unfolding lock_fast
fast-Exclusive s t (a, b, c) v = record {
  unheld = ground arith;
  held = ground arith;
  counted = ground (arith, v.counted);
  owners = λ u m. ground (arith, v.owners u, v.counted);
  passing = λ u p. ground (arith, v.passing u);
  distinct = ground (arith, v.distinct);
  waiting = λ u m. ground (arith, v.waiting u);
  failing = λ u m. ground (arith, v.failing u);
  nested = ground arith;
}

entered-Exclusive :
    (s : System) (t now : ℕ) (timeout : ℤ) (flags : SleepFlags)
    → IsOutside s t
    → is_holder s.mutex.holder t ≡ false
    → s.mutex.value ≢ 0
    → Exclusive s
    → (r : (Threads × List ℕ) × Option Status)
    → Slept t now timeout flags s.threads s.mutex.threads r
    → Exclusive (entering s t (entered s.mutex r))
unfolding go_to_sleep update
entered-Exclusive s t now timeout flags (a, b, d) c ne v r (inl (e, p, inl q)) = rw (p, q) v
entered-Exclusive s t now timeout flags (a, b, d) c ne v r (inl (e, p, inr q)) = rw (p, q) v
entered-Exclusive s t now timeout flags (a, b, d) c ne v r (inr p) = rw p (record {
  unheld = ground arith;
  held = ground arith;
  counted = v.counted;
  owners = v.owners;
  passing = λ u o. ground (arith, v.passing u);
  distinct = append-IsDistinct t s.mutex.threads v.distinct a;
  waiting = λ u m. ground (arith, v.waiting u, has-append u s.mutex.threads (t ∷ []));
  failing = λ u m. ground (arith, v.failing u, has-append u s.mutex.threads (t ∷ []));
  nested = v.nested;
})

pub slow-Exclusive :
    (s : System) (t now : ℕ) (timeout : ℤ) (flags : SleepFlags)
    → IsOutside s t
    → is_holder s.mutex.holder t ≡ false
    → Exclusive s
    → Exclusive (entering s t (lock_slow t now timeout flags (s.threads, s.mutex)))
unfolding lock_slow
slow-Exclusive s t now timeout flags out c v = elim (Bool-cases (s.mutex.value == 0)) [
  | inl free ↦ rw free (record {
    unheld = ground arith;
    held = ground arith;
    counted = ground (arith, v.counted);
    owners = λ u m. ground (arith, v.owners u, v.counted);
    passing = λ u o. ground (arith, v.passing u);
    distinct = v.distinct;
    waiting = λ u m. ground (arith, v.waiting u);
    failing = λ u m. ground (arith, v.failing u);
    nested = ground arith;
  })
  | inr taken ↦ rw taken (
      entered-Exclusive s t now timeout flags out c (ground arith) v _
        (thread_sleep-Slept t now timeout flags s.threads s.mutex.threads out.0))
]

pub resume-Exclusive :
    (s : System) (t : ℕ)
    → s.pending ≡ some t
    → Exclusive s
    → Exclusive (
        resuming (record s { pending = none }) t (lock_resume t (s.threads t).sleep_status s.mutex))
unfolding lock_resume
resume-Exclusive s t p v = rw ((v.passing t p).3) (record {
  unheld = ground (arith, v.passing t);
  held = ground (arith, v.passing t);
  counted = ground (arith, v.passing t);
  owners = λ u m. ground (arith, v.passing t);
  passing = λ u o. cc;
  distinct = ground (arith, v.passing t, v.distinct);
  waiting = λ u m. ground (arith, v.passing t, v.waiting u);
  failing = λ u m. ground (arith, v.failing u);
  nested = ground (arith, v.passing t);
})

-- A sleep that failed lets nobody in.
pub give_up-Exclusive :
    (s : System) (t : ℕ)
    → has t s.failed ≡ true
    → Exclusive s
    → Exclusive (
        resuming
          (record s { failed = remove t s.failed })
          t
          (lock_resume t (s.threads t).sleep_status s.mutex))
unfolding lock_resume
give_up-Exclusive s t f v =
    let fewer : Exclusive (record s { failed = remove t s.failed }) = record {
      unheld = v.unheld;
      held = v.held;
      counted = v.counted;
      owners = v.owners;
      passing = v.passing;
      distinct = v.distinct;
      waiting = v.waiting;
      failing = λ u m. v.failing u (has_of_has-remove t u s.failed m);
      nested = v.nested;
    } in
    elim ((v.failing t f).0) [ inl e ↦ rw e fewer | inr e ↦ rw e fewer ]
