-- ===== src/Pipe/Examples.antt =====
-- The theorems on pipes at concrete ones.
use infinity_os.Base.{ℕ, ◌≡◌, refl, true, false, [], ◌∷◌, arith, some, none}
use infinity_os.Status.{success}
use infinity_os.Thread.{Threads, running, thread_sleep, relative, thread_wake, remove}
use infinity_os.Sync.Semaphore.{semaphore_down_etc, semaphore_up}
use infinity_os.Pipe.{pipe_create, pipe_read, pipe_write, write_section, insert_loop, pipe_insert}
use infinity_os.Pipe.Flow
use infinity_os.Pipe.Flowing.{Flowing, Reach-Flowing}
use infinity_os.Pipe.Nonblocking.{
  IsIdle, Written, Received, pipe_write-Written, pipe_read-Received, pipe_read-pipe_write,
}

abbrev idle : Threads
idle t = record {
  state = running;
  interruptible = false;
  interrupted = false;
  killed = false;
  bit_three = false;
  sleep_status = success;
  sleep_timer = none;
  kernel_owned = false;
  ipl = 0;
  interrupts = [];
}

abbrev blank : ℕ → ℕ
blank i = 0

new_IsIdle : IsIdle (pipe_create blank 0) []
unfolding pipe_create
new_IsIdle = record {
  content = record {
    start_bound = omega arith;
    end_position = refl;
    fits = omega arith;
    holds = tt;
  };
  data_units = refl;
  space_units = refl;
}

pipe_write-Written_example :
    Written [] (7 ∷ 8 ∷ []) (pipe_write 1 0 true (7 ∷ 8 ∷ []) (idle, pipe_create blank 0))
pipe_write-Written_example =
    pipe_write-Written 1 0 idle (pipe_create blank 0) [] new_IsIdle (7 ∷ 8 ∷ []) (omega arith)

pipe_read-Received_example : Received [] 3 (pipe_read 1 0 true 3 (idle, pipe_create blank 0))
pipe_read-Received_example =
    pipe_read-Received 1 0 idle (pipe_create blank 0) [] new_IsIdle 3 (omega arith)

pipe_read-pipe_write_example :
    ((pipe_write 1 0 true (7 ∷ 8 ∷ []) (idle, pipe_create blank 0)).status ≡ some success)
    × ((pipe_read 2 0 true 2
          (pipe_write 1 0 true (7 ∷ 8 ∷ []) (idle, pipe_create blank 0)).state).status
        ≡ some success)
    × ((pipe_read 2 0 true 2
          (pipe_write 1 0 true (7 ∷ 8 ∷ []) (idle, pipe_create blank 0)).state).bytes
        ≡ 7 ∷ 8 ∷ [])
pipe_read-pipe_write_example =
    pipe_read-pipe_write 1 2 0 idle (pipe_create blank 0) (7 ∷ 8 ∷ []) new_IsIdle (omega arith)

-- A writer takes one unit of space and writes a byte, while a reader waits, which then reads it.
abbrev flowed : (s : Flow.System) × Flow.Reach (Flow.start idle blank 0) s
unfolding pipe_create semaphore_down_etc thread_sleep relative write_section insert_loop pipe_insert
    semaphore_up thread_wake remove
flowed = (
  _,
  Flow.next
      (Flow.next
        (Flow.next (Flow.next Flow.here (Flow.take_data 2 0 false refl))
          (Flow.take_space 1 0 true refl))
        (Flow.write (7 ∷ []) (omega arith)))
      (Flow.read 1 (omega arith)),
)

Reach-Flowing_example : Flowing flowed.0
Reach-Flowing_example = Reach-Flowing blank 0 flowed.1
