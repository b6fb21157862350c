-- ===== src/Sync/Semaphore/Wake.antt =====
-- What `semaphore_up` does to the count, the list of waiters and their threads.
use infinity_os.Base.{
  ℕ, zero, suc, ◌+◌, ◌-◌, ◌<◌, ◌≡◌, refl, List, [], ◌∷◌, arith, length, take, drop,
}
use infinity_os.Thread.{Threads}
use infinity_os.Thread.Wake.{Woken, wake_one, wake_list, wake_list-Woken, thread_wake-first}
use infinity_os.Sync.Semaphore.{Semaphore, size_mod, up_one, semaphore_up}

pub up_empty :
    (n : ℕ) (ths : Threads) (count : ℕ)
    → count + n < size_mod
    → semaphore_up n (ths, record { count = count; threads = [] })
      ≡ (ths, record { count = count + n; threads = [] })
unfolding semaphore_up up_one
up_empty zero ths count h = ground arith
up_empty (suc n) ths count h = ground (arith, up_empty n ths (count + 1))

-- The loop in closed form: the waiters leave in the order in which they came, and what is left of
-- the number goes to the count.
pub up-closed :
    (n : ℕ) (ths : Threads) (count : ℕ) (queue : List ℕ)
    → count + (n - length queue) < size_mod
    → semaphore_up n (ths, record { count = count; threads = queue }) ≡ (
      wake_list ths (take n queue),
      record { count = count + (n - length queue); threads = drop n queue },
    )
unfolding semaphore_up up_one wake_list
up-closed zero ths count queue h = ground arith
up-closed (suc n) ths count [] h = ground (arith, up_empty n ths (count + 1))
up-closed (suc n) ths count (t ∷ rest) h =
    ground (arith, thread_wake-first t rest ths, up-closed n (wake_one ths t) count rest)

module _ (n : ℕ) (ths : Threads) (sem : Semaphore)
    (fits : sem.count + (n - length sem.threads) < size_mod) where
  -- If the count does not overflow, `semaphore_up` wakes the longest waiters, as many as it is
  -- told to or as there are, without a change to the status that their sleep returns; it touches no
  -- other thread, leaves the other waiters in their order, and adds to the count only what it could
  -- not hand to a waiter.
  pub semaphore_up-serves :
      Woken (take n sem.threads) ths (semaphore_up n (ths, sem)).0
      × ((semaphore_up n (ths, sem)).1.threads ≡ drop n sem.threads)
      × ((semaphore_up n (ths, sem)).1.count ≡ sem.count + (n - length sem.threads))
  semaphore_up-serves =
      rw (up-closed n ths sem.count sem.threads fits)
        (wake_list-Woken (take n sem.threads) ths, refl, refl)
