-- ===== src/Pipe/Flow.antt =====
-- A pipe between any number of readers and writers, as a state machine over the parts of the calls.
use infinity_os.Base.{
  ℕ, ◌+◌, ◌-◌, ◌≤◌, ◌≡◌, Bool, false, List, [], ◌++◌, length, Option, none, some,
}
use infinity_os.Status.{Status, success}
use infinity_os.Thread.{Thread, Threads, update, thread_timeout, thread_interrupt_internal}
use infinity_os.Thread.Queue.{has}
use infinity_os.Sync.Semaphore.{Semaphore, semaphore_up, semaphore_down_etc}
use infinity_os.Pipe.{
  Pipe, Outcome, pipe_create, read_section, write_section, timeout, interruptible,
}

-- `reading` and `writing` are the units of data and of space that callers hold: taken at once, or
-- by being woken. `sent` and `received` are all bytes written and read so far.
pub record System : Type 0 where
  pub threads : Threads
  pub pipe : Pipe
  pub reading : ℕ
  pub writing : ℕ
  pub sent : List ℕ
  pub received : List ℕ

abbrev pub is_success : Option Status → ℕ
is_success none = 0
is_success (some success) = 1
is_success (some e) = 0

-- The waiters that a call woke.
abbrev pub fewer : Semaphore → Semaphore → ℕ
fewer before after = length before.threads - length after.threads

abbrev pub data_taken : System → (Threads × Semaphore) × Option Status → System
data_taken s ((ths, sem), r) = record s {
  threads = ths;
  pipe = record (s.pipe) { data_sem = sem };
  reading = s.reading + is_success r;
}

abbrev pub space_taken : System → (Threads × Semaphore) × Option Status → System
space_taken s ((ths, sem), r) = record s {
  threads = ths;
  pipe = record (s.pipe) { space_sem = sem };
  writing = s.writing + is_success r;
}

abbrev pub data_given : System → ℕ → Threads × Semaphore → System
data_given s n (ths, sem) = record s {
  threads = ths;
  pipe = record (s.pipe) { data_sem = sem };
  reading = s.reading - n + fewer s.pipe.data_sem sem;
}

abbrev pub space_given : System → ℕ → Threads × Semaphore → System
space_given s n (ths, sem) = record s {
  threads = ths;
  pipe = record (s.pipe) { space_sem = sem };
  writing = s.writing - n + fewer s.pipe.space_sem sem;
}

abbrev pub was_read : System → ℕ → Outcome → System
was_read s n o = record s {
  threads = o.state.0;
  pipe = o.state.1;
  reading = s.reading - n;
  writing = s.writing + fewer s.pipe.space_sem o.state.1.space_sem;
  received = s.received ++ o.bytes;
}

abbrev pub was_written : System → List ℕ → Outcome → System
was_written s bytes o = record s {
  threads = o.state.0;
  pipe = o.state.1;
  writing = s.writing - length bytes;
  reading = s.reading + fewer s.pipe.data_sem o.state.1.data_sem;
  sent = s.sent ++ bytes;
}

abbrev pub data_listed : System → Threads × List ℕ → System
data_listed s (ths, queue) = record s {
  threads = ths;
  pipe = record (s.pipe) { data_sem = record (s.pipe.data_sem) { threads = queue } };
}

abbrev pub space_listed : System → Threads × List ℕ → System
space_listed s (ths, queue) = record s {
  threads = ths;
  pipe = record (s.pipe) { space_sem = record (s.pipe.space_sem) { threads = queue } };
}

-- The parts of reads and writes, in any order: a unit is taken or waited for; units are given back;
-- bytes are read or written by callers that hold a unit for each; a waiter times out or is
-- interrupted; and anything may happen to the threads.
pub data Step (s : System) : System → Type 0 where
  take_data :
      (t now : ℕ) (nonblock : Bool)
      → has t s.pipe.data_sem.threads ≡ false
      → Step s (
          data_taken s (
            semaphore_down_etc t now (timeout nonblock) interruptible (s.threads, s.pipe.data_sem)))
  take_space :
      (t now : ℕ) (nonblock : Bool)
      → has t s.pipe.space_sem.threads ≡ false
      → Step s (
          space_taken s (
            semaphore_down_etc t now
              (timeout nonblock)
              interruptible
              (s.threads, s.pipe.space_sem)))
  give_data :
      (n : ℕ)
      → n ≤ s.reading
      → Step s (data_given s n (semaphore_up n (s.threads, s.pipe.data_sem)))
  give_space :
      (n : ℕ)
      → n ≤ s.writing
      → Step s (space_given s n (semaphore_up n (s.threads, s.pipe.space_sem)))
  read : (n : ℕ) → n ≤ s.reading → Step s (was_read s n (read_section n (s.threads, s.pipe)))
  write :
      (bytes : List ℕ)
      → length bytes ≤ s.writing
      → Step s (was_written s bytes (write_section bytes (s.threads, s.pipe)))
  data_timeout :
      (t : ℕ) → Step s (data_listed s (thread_timeout t (s.threads, s.pipe.data_sem.threads)))
  space_timeout :
      (t : ℕ) → Step s (space_listed s (thread_timeout t (s.threads, s.pipe.space_sem.threads)))
  data_interrupt :
      (t : ℕ)
      → Step s (data_listed s (thread_interrupt_internal t (s.threads, s.pipe.data_sem.threads)))
  space_interrupt :
      (t : ℕ)
      → Step s (space_listed s (thread_interrupt_internal t (s.threads, s.pipe.space_sem.threads)))
  other : (t : ℕ) (th : Thread) → Step s (record s { threads = update s.threads t th })

pub data Reach (s : System) : System → Type 0 where
  here : Reach s s
  next : {t u : System} → Reach s t → Step t u → Reach s u

abbrev pub start : Threads → (ℕ → ℕ) → ℕ → System
start ths buf self = record {
  threads = ths;
  pipe = pipe_create buf self;
  reading = 0;
  writing = 0;
  sent = [];
  received = [];
}
