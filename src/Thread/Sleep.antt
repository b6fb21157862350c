-- ===== src/Thread/Sleep.antt =====
-- `thread_sleep` as its callers use it: the caller has just put itself at the end of a list.
use infinity_os.Base.{
  ℕ, ◌≡◌, refl, false, List, [], ◌∷◌, ◌++◌, ◌&&◌, Option, none, some, ◌⊎◌, inl, inr, Bool-cases,
}
use infinity_os.Base.Int.{ℤ}
use infinity_os.Status.{Status, would_block, interrupted}
use infinity_os.Thread.{Threads, SleepFlags, is_zero, relative, go_to_sleep, thread_sleep}
use infinity_os.Thread.Queue.{has, remove-append_self}

module _ (self now : ℕ) (timeout : ℤ) (flags : SleepFlags) (ths : Threads) (queue : List ℕ) where
  -- The call failed at once and left no trace, or the caller sleeps at the end of the list.
  abbrev pub Slept : (Threads × List ℕ) × Option Status → Type 0
  Slept r =
      ((e : Status) × (r ≡ ((ths, queue), some e)) × ((e ≡ would_block) ⊎ (e ≡ interrupted)))
      ⊎ (r ≡ ((go_to_sleep self (relative flags now timeout) flags ths, queue ++ self ∷ []), none))

  pub thread_sleep-Slept :
      has self queue ≡ false → Slept (thread_sleep self now timeout flags (ths, queue ++ self ∷ []))
  unfolding thread_sleep
  thread_sleep-Slept h = elim (Bool-cases (is_zero (relative flags now timeout))) [
    | inl z ↦ inl (would_block, rw (z, remove-append_self self queue h), inl refl)
    | inr more ↦ elim (Bool-cases (flags.interruptible && (ths self).interrupted)) [
      | inl i ↦ inl (interrupted, rw (more, i, remove-append_self self queue h), inr refl)
      | inr ok ↦ inr (rw (more, ok))
    ]
  ]
