-- ===== src/Pipe.antt =====
-- source/kernel/ipc/pipe.c: pipes, which are ring buffers between two semaphores.
--
-- The memory of the buffer is a function from positions to bytes. The mutex makes each section
-- between its lock and unlock one step, and is left out. A call that sleeps ends with no status and
-- with what it holds; `read_resume` and its like go on from there. `pipe_io` is not part of the
-- model: it copies from and to an I/O request around these calls.
pub mod Ring
pub mod Flow
pub mod Flowing
pub mod Nonblocking
mod Examples
use infinity_os.Base.{
  ℕ, zero, suc, ◌+◌, ◌-◌, Bool, true, false, Option, none, some, List, [], ◌∷◌, ◌++◌, if◌then◌else◌,
  ltb, leb, ◌==◌, length,
}
use infinity_os.Base.Int.{ℤ, pos, negsuc}
use infinity_os.Status.{Status, success}
use infinity_os.Thread.{Threads, SleepFlags}
use infinity_os.Notifier.{
  Notifier, Call, notifier_init, notifier_run, notifier_register, notifier_unregister,
}
use infinity_os.Sync.Semaphore.{Semaphore, semaphore_init, semaphore_down_etc, semaphore_up}

abbrev pub pipe_size : ℕ
pipe_size = 4096

pub record Pipe : Type 0 where
  pub space_sem : Semaphore
  pub space_notifier : Notifier
  pub data_sem : Semaphore
  pub data_notifier : Notifier
  pub buf : ℕ → ℕ
  pub start : ℕ
  pub end : ℕ

-- `buf` is what `kmem_alloc` returned, and the notifiers are those that the constructor made.
unfoldable pub pipe_create : (ℕ → ℕ) → ℕ → Pipe
unfolding notifier_init
pipe_create buf self = record {
  space_sem = semaphore_init pipe_size;
  space_notifier = notifier_init self;
  data_sem = semaphore_init 0;
  data_notifier = notifier_init self;
  buf = buf;
  start = 0;
  end = 0;
}

-- `++position`, and back to 0 at the end of the buffer.
unfoldable pub next_position : ℕ → ℕ
next_position i = if leb pipe_size (i + 1) then 0 else i + 1

unfoldable pub write_byte : (ℕ → ℕ) → ℕ → ℕ → ℕ → ℕ
write_byte buf i ch j = if i == j then ch else buf j

abbrev pub with_space : Pipe → Threads × Semaphore → Threads × Pipe
with_space p (ths, sem) = (ths, record p { space_sem = sem })

abbrev pub with_data : Pipe → Threads × Semaphore → Threads × Pipe
with_data p (ths, sem) = (ths, record p { data_sem = sem })

unfoldable pub pipe_get : Threads × Pipe → ℕ × (Threads × Pipe)
pipe_get (ths, p) =
    let moved = record p { start = next_position p.start } in
    (p.buf p.start, with_space moved (semaphore_up 1 (ths, p.space_sem)))

unfoldable pub pipe_insert : ℕ → Threads × Pipe → Threads × Pipe
pipe_insert ch (ths, p) =
    let moved = record p { buf = write_byte p.buf p.end ch; end = next_position p.end } in
    with_data moved (semaphore_up 1 (ths, p.data_sem))

-- The loops over the bytes in a section under the mutex.
unfoldable pub get_loop : ℕ → Threads × Pipe → List ℕ × (Threads × Pipe)
get_loop zero s = ([], s)
get_loop (suc n) s = let (ch, s') = pipe_get s in let (chs, s'') = get_loop n s' in (ch ∷ chs, s'')

unfoldable pub insert_loop : List ℕ → Threads × Pipe → Threads × Pipe
insert_loop [] s = s
insert_loop (ch ∷ chs) s = insert_loop chs (pipe_insert ch s)

abbrev pub run_space : Threads × Pipe → (Threads × Pipe) × List Call
run_space (ths, p) =
    let (n, calls, called) = notifier_run 0 false p.space_notifier in
    ((ths, record p { space_notifier = n }), calls)

abbrev pub run_data : Threads × Pipe → (Threads × Pipe) × List Call
run_data (ths, p) =
    let (n, calls, called) = notifier_run 0 false p.data_notifier in
    ((ths, record p { data_notifier = n }), calls)

-- The outcome of a call: the status, or none if it sleeps; the bytes read; how many bytes were
-- read or written; the units that it holds while it sleeps; and the calls of the notifiers.
pub record Outcome : Type 0 where
  pub state : Threads × Pipe
  pub status : Option Status
  pub bytes : List ℕ
  pub count : ℕ
  pub held : ℕ
  pub calls : List Call

abbrev pub ended : Threads × Pipe → Status → Outcome
ended s e = record { state = s; status = some e; bytes = []; count = 0; held = 0; calls = [] }

abbrev pub asleep : Threads × Pipe → ℕ → Outcome
asleep s i = record { state = s; status = none; bytes = []; count = 0; held = i; calls = [] }

abbrev pub timeout : Bool → ℤ
timeout nonblock = if nonblock then pos 0 else negsuc 0

abbrev pub interruptible : SleepFlags
interruptible = record { interruptible = true; absolute = false }

-- How an attempt to take units ended, with the units that were taken before it stopped.
pub data Taken : Type 0 where
  all : Taken
  stopped : ℕ → Option Status → Taken

-- `i` units are taken, and so many are left to take.
unfoldable pub take_units :
    (self now : ℕ) → Bool → (i left : ℕ) → Threads × Semaphore → (Threads × Semaphore) × Taken
take_units self now nonblock i zero s = (s, all)
take_units self now nonblock i (suc left) s =
    let (s', r) = semaphore_down_etc self now (timeout nonblock) interruptible s in
    let more = take_units self now nonblock (i + 1) left s' in
    elim r [ some success ↦ more | some e ↦ (s', stopped i (some e)) | none ↦ (s', stopped i none) ]

-- The section of a read of at most the size of the pipe.
unfoldable pub read_section : ℕ → Threads × Pipe → Outcome
read_section count s =
    let (bytes, s') = get_loop count s in
    let (s'', calls) = run_space s' in
    record {
      state = s'';
      status = some success;
      bytes = bytes;
      count = count;
      held = 0;
      calls = calls;
    }

unfoldable pub write_section : List ℕ → Threads × Pipe → Outcome
write_section bytes s =
    let (s', calls) = run_data (insert_loop bytes s) in
    record {
      state = s';
      status = some success;
      bytes = [];
      count = length bytes;
      held = 0;
      calls = calls;
    }

-- Reads and writes of at most the size of the pipe, with `i` units taken so far.
abbrev pub read_taken : ℕ → Pipe → (Threads × Semaphore) × Taken → Outcome
read_taken count p (s, all) = read_section count (with_data p s)
read_taken count p (s, stopped i (some e)) = ended (with_data p (semaphore_up i s)) e
read_taken count p (s, stopped i none) = asleep (with_data p s) i

unfoldable pub read_small : (self now : ℕ) → Bool → (i left : ℕ) → Threads × Pipe → Outcome
read_small self now nonblock i left (ths, p) =
    read_taken (i + left) p (take_units self now nonblock i left (ths, p.data_sem))

abbrev pub write_taken : List ℕ → Pipe → (Threads × Semaphore) × Taken → Outcome
write_taken bytes p (s, all) = write_section bytes (with_space p s)
write_taken bytes p (s, stopped i (some e)) = ended (with_space p (semaphore_up i s)) e
write_taken bytes p (s, stopped i none) = asleep (with_space p s) i

unfoldable pub write_small : (self now : ℕ) → Bool → ℕ → List ℕ → Threads × Pipe → Outcome
write_small self now nonblock i bytes (ths, p) =
    write_taken bytes p (take_units self now nonblock i (length bytes - i) (ths, p.space_sem))

-- After a sleep that returned a status, with `i` units taken before it.
unfoldable pub read_resume : (self now : ℕ) → Status → (i left : ℕ) → Threads × Pipe → Outcome
read_resume self now status i left (ths, p) = elim status [
  | success ↦ read_small self now false (i + 1) (left - 1) (ths, p)
  | e ↦ ended (with_data p (semaphore_up i (ths, p.data_sem))) e
]

unfoldable pub write_resume : (self now : ℕ) → Status → ℕ → List ℕ → Threads × Pipe → Outcome
write_resume self now status i bytes (ths, p) = elim status [
  | success ↦ write_small self now false (i + 1) bytes (ths, p)
  | e ↦ ended (with_space p (semaphore_up i (ths, p.space_sem))) e
]

-- One byte in front of what the rest of a long transfer does.
abbrev pub more_read : Outcome → Outcome → Outcome
more_read o rest = record rest {
  bytes = o.bytes ++ rest.bytes;
  count = o.count + rest.count;
  calls = o.calls ++ rest.calls;
}

-- Reads and writes of more than the size of the pipe go byte by byte.
unfoldable pub read_large : (self now : ℕ) → Bool → ℕ → Threads × Pipe → Outcome
read_large self now nonblock zero s = ended s success
read_large self now nonblock (suc left) (ths, p) =
    let (s', r) = semaphore_down_etc self now (timeout nonblock) interruptible (ths, p.data_sem) in
    let o = read_section 1 (with_data p s') in
    let rest = read_large self now nonblock left o.state in
    elim r [
      | some success ↦ more_read o rest
      | some e ↦ ended (with_data p s') e
      | none ↦ asleep (with_data p s') 0
    ]

unfoldable pub write_large : (self now : ℕ) → Bool → List ℕ → Threads × Pipe → Outcome
write_large self now nonblock [] s = ended s success
write_large self now nonblock (ch ∷ chs) (ths, p) =
    let (s', r) = semaphore_down_etc self now (timeout nonblock) interruptible (ths, p.space_sem) in
    let o = write_section (ch ∷ []) (with_space p s') in
    let rest = write_large self now nonblock chs o.state in
    elim r [
      | some success ↦ more_read o rest
      | some e ↦ ended (with_space p s') e
      | none ↦ asleep (with_space p s') 0
    ]

-- After the sleep of a long transfer; `left` still counts the byte that was waited for.
unfoldable pub read_large_resume : (self now : ℕ) → Status → ℕ → Threads × Pipe → Outcome
read_large_resume self now status left s =
    let o = read_section 1 s in
    let rest = read_large self now false (left - 1) o.state in
    elim status [ success ↦ more_read o rest | e ↦ ended s e ]

unfoldable pub write_large_resume : (self now : ℕ) → Status → List ℕ → Threads × Pipe → Outcome
write_large_resume self now status [] s = ended s status
write_large_resume self now status (ch ∷ chs) s =
    let o = write_section (ch ∷ []) s in
    let rest = write_large self now false chs o.state in
    elim status [ success ↦ more_read o rest | e ↦ ended s e ]

unfoldable pub pipe_read : (self now : ℕ) → Bool → ℕ → Threads × Pipe → Outcome
pipe_read self now nonblock count s =
    if count == 0
    then ended s success
    else if leb count pipe_size
    then read_small self now nonblock 0 count s
    else read_large self now nonblock count s

unfoldable pub pipe_write : (self now : ℕ) → Bool → List ℕ → Threads × Pipe → Outcome
pipe_write self now nonblock bytes s =
    if length bytes == 0
    then ended s success
    else if leb (length bytes) pipe_size
    then write_small self now nonblock 0 bytes s
    else write_large self now nonblock bytes s

-- `true` is an event that is signalled at once; `func` is `object_event_notifier`.
unfoldable pub pipe_wait : (func event : ℕ) → Bool → Pipe → Bool × Pipe
pipe_wait func event write p =
    if write
    then if ltb 0 p.space_sem.count
      then (true, p)
      else (false, record p { space_notifier = notifier_register func event p.space_notifier })
    else if ltb 0 p.data_sem.count
    then (true, p)
    else (false, record p { data_notifier = notifier_register func event p.data_notifier })

unfoldable pub pipe_unwait : (func event : ℕ) → Bool → Pipe → Pipe
pipe_unwait func event write p =
    if write
    then record p { space_notifier = notifier_unregister func event p.space_notifier }
    else record p { data_notifier = notifier_unregister func event p.data_notifier }
