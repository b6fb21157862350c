-- ===== src/Thread/Examples.antt =====
-- The theorem on interrupts at a concrete thread.
use infinity_os.Base.{◌≡◌, refl, false, [], ◌∷◌, arith, none}
use infinity_os.Status.{success}
use infinity_os.Thread.{Threads, Interrupt, running, thread_interrupt}
use infinity_os.Thread.Interrupts.{Placed, thread_interrupt-Placed}

abbrev high : Interrupt
high = record { handler = 1; priority = 9 }

abbrev low : Interrupt
low = record { handler = 2; priority = 2 }

abbrev middle : Interrupt
middle = record { handler = 3; priority = 5 }

abbrev interrupted_twice : Threads
interrupted_twice t = record {
  state = running;
  interruptible = false;
  interrupted = false;
  killed = false;
  bit_three = false;
  sleep_status = success;
  sleep_timer = none;
  kernel_owned = false;
  ipl = 0;
  interrupts = high ∷ low ∷ [];
}

thread_interrupt-Placed_example :
    (Placed middle
      (high ∷ low ∷ [])
      ((thread_interrupt 3 middle (interrupted_twice, [])).0 3).interrupts)
    × ((thread_interrupt 3 middle (interrupted_twice, [])).0 4 ≡ interrupted_twice 4)
thread_interrupt-Placed_example =
    thread_interrupt-Placed 3 middle interrupted_twice [] refl ((omega arith, tt), (tt, tt)) 4 refl
