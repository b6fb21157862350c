-- ===== src/Thread.antt =====
-- source/kernel/proc/thread.c: sleeping, waking, timeouts and interruption of threads.
--
-- A thread is named by a number, and the thread store is a function from names to structures. The
-- list of the waiting threads of a synchronization object (`wait_link` chains them) is a list of
-- names. Each function runs under the spinlock of that object, so it is one step on the store and
-- the list. `wait_lock` is therefore not kept: `acquire_wait_lock` yields the lock of the list
-- that is passed. Scheduler queues, the hardware timer and calls to other CPUs are left out.
pub mod Queue
pub mod Sleep
pub mod Interrupts
mod Examples
pub mod Wake
use infinity_os.Base.{
  ℕ, zero, suc, ◌+◌, ◌-◌, ◌≤◌, Bool, true, false, ◌&&◌, Option, none, some, List, [], ◌∷◌, ◌++◌,
  if◌then◌else◌, ◌==◌, ltb, leb,
}
use infinity_os.Base.Int.{ℤ, pos, negsuc}
use infinity_os.Status.{Status, success, would_block, interrupted, timed_out}

pub data ThreadState : Type 0 where
  created ready running sleeping dead : ThreadState

abbrev pub is_sleeping : ThreadState → Bool
is_sleeping sleeping = true
is_sleeping created = false
is_sleeping ready = false
is_sleeping running = false
is_sleeping dead = false

-- `thread_interrupt_t`: an identity for the allocation, and its priority.
pub record Interrupt : Type 0 where
  pub handler : ℕ
  pub priority : ℕ

-- The fields of `thread_t` that this file touches. The flags are one Boolean each; `bit_three` is
-- the bit that `THREAD_PREEMPTED` and `THREAD_RWLOCK_WRITER` both name.
pub record Thread : Type 0 where
  pub state : ThreadState
  pub interruptible : Bool
  pub interrupted : Bool
  pub killed : Bool
  pub bit_three : Bool
  pub sleep_status : Status
  pub sleep_timer : Option ℕ
  pub kernel_owned : Bool
  pub ipl : ℕ
  pub interrupts : List Interrupt

abbrev pub Threads : Type 0
Threads = ℕ → Thread

unfoldable pub update : Threads → ℕ → Thread → Threads
update ths t x u = if u == t then x else ths u

-- `list_remove(&thread->wait_link)`.
unfoldable pub remove : ℕ → List ℕ → List ℕ
remove t [] = []
remove t (u ∷ us) = if u == t then us else u ∷ remove t us

-- `thread_wake_unsafe`, and `thread_wake`, which only takes the thread's lock around it.
unfoldable pub thread_wake : ℕ → Threads × List ℕ → Threads × List ℕ
thread_wake t (ths, queue) = (
  update ths t (record (ths t) { state = ready; interruptible = false; sleep_timer = none }),
  remove t queue,
)

-- The timer handler of a sleep.
unfoldable pub thread_timeout : ℕ → Threads × List ℕ → Threads × List ℕ
unfolding thread_wake
thread_timeout t (ths, queue) =
    if is_sleeping (ths t).state
    then thread_wake t (update ths t (record (ths t) { sleep_status = timed_out }), queue)
    else (ths, queue)

unfoldable pub thread_interrupt_internal : ℕ → Threads × List ℕ → Threads × List ℕ
unfolding thread_wake
thread_interrupt_internal t (ths, queue) =
    if is_sleeping (ths t).state && (ths t).interruptible
    then thread_wake t
        (update ths t (record (ths t) { interrupted = true; sleep_status = interrupted }), queue)
    else (update ths t (record (ths t) { interrupted = true }), queue)

unfoldable pub thread_kill : ℕ → Threads × List ℕ → Threads × List ℕ
unfolding thread_interrupt_internal
thread_kill t (ths, queue) =
    if (ths t).kernel_owned
    then (ths, queue)
    else thread_interrupt_internal t (update ths t (record (ths t) { killed = true }), queue)

-- Before the first queued interrupt of a lower priority, else at the end.
unfoldable pub insert_interrupt : Interrupt → List Interrupt → List Interrupt
insert_interrupt i [] = i ∷ []
insert_interrupt i (e ∷ es) =
    if ltb e.priority i.priority then i ∷ e ∷ es else e ∷ insert_interrupt i es

-- Whether the new interrupt went to the head of the list: `exist == interrupt`.
unfoldable pub becomes_first : Interrupt → List Interrupt → Bool
becomes_first i [] = true
becomes_first i (e ∷ es) = ltb e.priority i.priority

unfoldable pub thread_interrupt : ℕ → Interrupt → Threads × List ℕ → Threads × List ℕ
unfolding thread_interrupt_internal insert_interrupt becomes_first
thread_interrupt t i (ths, queue) =
    let th = ths t in
    let queued = update ths t (record th { interrupts = insert_interrupt i th.interrupts }) in
    if th.kernel_owned
    then (ths, queue)
    else if becomes_first i th.interrupts && leb th.ipl i.priority
    then thread_interrupt_internal t (queued, queue)
    else (queued, queue)

pub record SleepFlags : Type 0 where
  pub interruptible : Bool
  pub absolute : Bool

-- The timeout that is left, relative to now.
unfoldable pub relative : SleepFlags → ℕ → ℤ → ℤ
relative flags now (pos n) = if flags.absolute then pos (n - now) else pos n
relative flags now (negsuc n) = negsuc n

abbrev pub is_zero : ℤ → Bool
is_zero (pos n) = n == 0
is_zero (negsuc n) = false

-- The timer is started for a positive timeout only; a negative one sleeps for good.
abbrev pub start_timer : Option ℕ → ℤ → Option ℕ
start_timer timer (pos n) = some n
start_timer timer (negsuc n) = timer

unfoldable pub go_to_sleep : ℕ → ℤ → SleepFlags → Threads → Threads
go_to_sleep self timeout flags ths =
    let th = ths self in
    update ths self (record th {
      state = sleeping;
      interruptible = if flags.interruptible then true else th.interruptible;
      sleep_status = success;
      sleep_timer = start_timer th.sleep_timer timeout;
    })

-- `some status` is a return at once, with the thread taken off the list; `none` means that the
-- thread sleeps, and that the call will return `sleep_status` once it runs again.
unfoldable pub thread_sleep :
    (self now : ℕ) → ℤ → SleepFlags → Threads × List ℕ → (Threads × List ℕ) × Option Status
thread_sleep self now timeout flags (ths, queue) =
    let left = relative flags now timeout in
    if is_zero left
    then ((ths, remove self queue), some would_block)
    else if flags.interruptible && (ths self).interrupted
    then ((ths, remove self queue), some interrupted)
    else ((go_to_sleep self left flags ths, queue), none)
