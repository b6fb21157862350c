-- ===== src/Sync/Condvar/Signal.antt =====
-- Whom a signal and a broadcast wake.
use infinity_os.Base.{
  ℕ, zero, suc, ◌≡◌, refl, true, false, not, none, some, List, [], ◌∷◌, ◌++◌, length, arith, ap,
  ◌∙◌, subst, sym,
}
use infinity_os.Status.{success}
use infinity_os.Thread.{
  Thread, Threads, ready, sleeping, update, thread_wake, thread_sleep, relative, go_to_sleep,
}
use infinity_os.Thread.Queue.{has, remove-cons_self}
use infinity_os.Thread.Wake.{Woken, wake_one, wake_list, wake_list-Woken, thread_wake-first}
use infinity_os.Sync.Mutex.{Mutex, mutex_unlock, forever, uninterruptible}
use infinity_os.Sync.Rwlock.{is_empty}
use infinity_os.Sync.Condvar.{
  Waiting, sleeping_on, condvar_wait_enter, condvar_signal, broadcast_loop, condvar_broadcast,
}

broadcast_loop-closed :
    (waiters : List ℕ) (ths : Threads)
    → broadcast_loop (length waiters) (ths, waiters) ≡ (wake_list ths waiters, [])
unfolding broadcast_loop wake_list
broadcast_loop-closed [] ths = refl
broadcast_loop-closed (t ∷ rest) ths =
    ap (λ s. broadcast_loop (length rest) s) (thread_wake-first t rest ths)
    ∙ broadcast_loop-closed rest (wake_one ths t)

-- A broadcast wakes every thread that waits and no other, without a change to the status that
-- their sleep returns, leaves nobody waiting, and returns whether somebody was.
pub condvar_broadcast-Woken :
    (ths : Threads) (waiters : List ℕ)
    → (Woken waiters ths (condvar_broadcast (ths, waiters)).0.0)
      × ((condvar_broadcast (ths, waiters)).0.1 ≡ [])
      × ((condvar_broadcast (ths, waiters)).1 ≡ not (is_empty waiters))
unfolding condvar_broadcast wake_list
condvar_broadcast-Woken ths [] = (wake_list-Woken [] ths, refl, refl)
condvar_broadcast-Woken ths (t ∷ rest) =
    rw (broadcast_loop-closed (t ∷ rest) ths) (wake_list-Woken (t ∷ rest) ths, refl, refl)

-- One signal after the other.
unfoldable pub signals : ℕ → Threads × List ℕ → Threads × List ℕ
signals zero s = s
signals (suc n) s = signals n (condvar_signal s).0

-- As many signals as there are threads in front wake these, from the front.
signals-closed :
    (us vs : List ℕ) (ths : Threads) → signals (length us) (ths, us ++ vs) ≡ (wake_list ths us, vs)
unfolding signals condvar_signal wake_list
signals-closed [] vs ths = refl
signals-closed (u ∷ us) vs ths =
    ap (λ s. signals (length us) s) (thread_wake-first u (us ++ vs) ths)
    ∙ signals-closed us vs (wake_one ths u)

-- The state that as many signals as there are `waiters` in front of a thread left: they are ready,
-- and it sleeps, alone; one more signal reports that it woke a thread and readies this one, whose
-- sleep returns success.
pub record ServedLast (self : ℕ) (waiters : List ℕ) (s : Threads × List ℕ) : Type 0 where
  pub earlier : (u : ℕ) → has u waiters ≡ true → (s.0 u).state ≡ ready
  pub alone : s.1 ≡ self ∷ []
  pub asleep : (s.0 self).state ≡ sleeping
  pub woke : (condvar_signal s).1 ≡ true
  pub emptied : (condvar_signal s).0.1 ≡ []
  pub readied : ((condvar_signal s).0.0 self).state ≡ ready
  pub returns : ((condvar_signal s).0.0 self).sleep_status ≡ success

last-ServedLast :
    (self : ℕ) (waiters : List ℕ) (ths : Threads)
    → has self waiters ≡ false
    → (ths self).state ≡ sleeping
    → (ths self).sleep_status ≡ success
    → ServedLast self waiters (wake_list ths waiters, self ∷ [])
unfolding condvar_signal thread_wake update
last-ServedLast self waiters ths absent asleep status =
    let woken = wake_list-Woken waiters ths in
    let same = woken.others self absent in
    record {
      earlier = woken.readied;
      alone = refl;
      asleep = ap (λ (t : Thread). t.state) same ∙ asleep;
      woke = refl;
      emptied = remove-cons_self self [];
      readied = ground arith;
      returns = ground (arith, woken.status self);
    }

-- A thread that waits with `condvar_wait` on a condition variable, behind any other waiters,
-- releases its mutex by the unlock and sleeps. If signals follow, each of the others is readied
-- before it: it still sleeps when as many signals came as there were waiters in front, and the next
-- signal readies it, with success as the status of its sleep, and leaves nobody waiting.
pub condvar_signal-condvar_wait_enter :
    (self now : ℕ) (ths ths' : Threads) (m m' : Mutex) (waiters : List ℕ)
    → mutex_unlock self (ths, m) ≡ some (ths', m')
    → has self waiters ≡ false
    → (w : Waiting) × (condvar_wait_enter self now forever uninterruptible (some m) (ths, waiters)
        ≡ some w)
      × (w.status ≡ none)
      × (w.mutex ≡ some m')
      × ServedLast self waiters (signals (length waiters) (w.threads, w.waiters))
unfolding condvar_wait_enter thread_sleep relative go_to_sleep update
condvar_signal-condvar_wait_enter self now ths ths' m m' waiters e absent = (
  sleeping_on (some m')
      ((go_to_sleep self forever uninterruptible ths', waiters ++ self ∷ []), none),
  rw (e, condvar_wait_enter) refl,
  refl,
  refl,
  subst (λ s. ServedLast self waiters s)
      (sym (signals-closed waiters (self ∷ []) (go_to_sleep self forever uninterruptible ths')))
      (last-ServedLast self waiters (go_to_sleep self forever uninterruptible ths') absent
        (ground arith) (ground arith)),
)
