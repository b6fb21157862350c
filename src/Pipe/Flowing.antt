-- ===== src/Pipe/Flowing.antt =====
-- No interleaving of readers and writers loses, doubles or reorders a byte.
use infinity_os.Base.{
  ℕ, ◌+◌, ◌≤◌, ◌<◌, ◌≡◌, refl, Bool, false, List, [], ◌++◌, arith, ltb, length, length-append,
  length-drop, take, drop, ◌∙◌, ap, sym, Option, take-append-drop, inl, inr, Bool-cases,
}
use infinity_os.Status.{Status}
use infinity_os.Thread.{Threads}
use infinity_os.Thread.Sleep.{Slept, thread_sleep-Slept}
use infinity_os.Thread.Queue.{has}
use infinity_os.Sync.Semaphore.{Semaphore, semaphore_up, semaphore_down_etc, size_mod, after_sleep}
use infinity_os.Sync.Semaphore.Wake.{semaphore_up-serves}
use infinity_os.Pipe.{pipe_size, pipe_create, read_section, write_section, timeout, interruptible}
use infinity_os.Pipe.Ring.{
  Content, insert_loop-Content, get_loop-Content, insert_loop-semaphores, get_loop-semaphores,
  append_assoc,
}
use infinity_os.Pipe.Flow.{
  System, Step, take_data, take_space, give_data, give_space, read, write, data_timeout,
  space_timeout, data_interrupt, space_interrupt, other, Reach, here, next, start, is_success,
  fewer, was_read, was_written,
}

-- Each byte in the buffer stands for one unit of data, in the semaphore or held, and each free
-- place for one unit of space; the bytes in the buffer are those sent and not received, in order.
pub record Flowing (s : System) : Type 0 where
  pub queue : List ℕ
  pub content : Content s.pipe queue
  pub in_order : s.sent ≡ s.received ++ queue
  pub data_units : s.pipe.data_sem.count + s.reading ≡ length queue
  pub space_units : s.pipe.space_sem.count + s.writing + length queue ≡ pipe_size

down_units :
    (ths : Threads) (sem : Semaphore) (t now : ℕ) (nonblock : Bool)
    → has t sem.threads ≡ false
    → (semaphore_down_etc t now (timeout nonblock) interruptible (ths, sem)).0.1.count
        + is_success (semaphore_down_etc t now (timeout nonblock) interruptible (ths, sem)).1
      ≡ sem.count
unfolding semaphore_down_etc
down_units ths sem t now nonblock h = elim (Bool-cases (ltb 0 sem.count)) [
  | inl more ↦ rw more (ground arith)
  | inr empty ↦
      rw empty
        (slept_units (thread_sleep-Slept t now (timeout nonblock) interruptible ths sem.threads h))
]
  where
    slept_units :
        {r : (Threads × List ℕ) × Option Status}
        → Slept t now (timeout nonblock) interruptible ths sem.threads r
        → (after_sleep sem.count r).0.1.count + is_success (after_sleep sem.count r).1 ≡ sem.count
    slept_units (inl (e, p, q)) = rw p (ground arith)
    slept_units (inr p) = rw p (omega arith)

up_units :
    (n : ℕ) (ths : Threads) (sem : Semaphore)
    → sem.count + n < size_mod
    → (semaphore_up n (ths, sem)).1.count + fewer sem (semaphore_up n (ths, sem)).1 ≡ sem.count + n
up_units n ths sem fits =
    let (woken, queue, count) = semaphore_up-serves n ths sem (omega arith) in
    omega (arith, count, ap length queue, length-drop n sem.threads)

read-Flowing :
    (s : System) (n : ℕ)
    → n ≤ s.reading
    → Flowing s
    → Flowing (was_read s n (read_section n (s.threads, s.pipe)))
unfolding read_section
read-Flowing s n h v =
    let (bytes, rest) =
      get_loop-Content n s.threads s.pipe v.queue v.content (omega (arith, v.data_units)) in
    let (up, same) = get_loop-semaphores n s.threads s.pipe in
    let units =
      up_units n s.threads s.pipe.space_sem (omega (arith, v.space_units, v.data_units)) in
    let whole = take-append-drop n v.queue in
    record {
      queue = drop n v.queue;
      content = record {
        start_bound = rest.start_bound;
        end_position = rest.end_position;
        fits = rest.fits;
        holds = rest.holds;
      };
      in_order =
          v.in_order
          ∙ ap (λ q. s.received ++ q) (sym whole)
          ∙ sym (append_assoc s.received (take n v.queue) (drop n v.queue))
          ∙ ap (λ q. (s.received ++ q) ++ drop n v.queue) (sym bytes);
      data_units = omega (arith, v.data_units, ap (λ m. m.count) same, length-drop n v.queue);
      space_units = omega (
        arith,
        v.space_units,
        v.data_units,
        units,
        ap (λ r. r.1.count) up,
        ap (λ r. fewer s.pipe.space_sem r.1) up,
        length-drop n v.queue,
      );
    }

write-Flowing :
    (s : System) (bytes : List ℕ)
    → length bytes ≤ s.writing
    → Flowing s
    → Flowing (was_written s bytes (write_section bytes (s.threads, s.pipe)))
unfolding write_section
write-Flowing s bytes h v =
    let rest =
      insert_loop-Content bytes s.threads s.pipe v.queue v.content (omega (arith, v.space_units)) in
    let (up, same) = insert_loop-semaphores bytes s.threads s.pipe in
    let units =
      up_units (length bytes) s.threads s.pipe.data_sem
        (omega (arith, v.space_units, v.data_units)) in
    let grown = length-append v.queue bytes in
    record {
      queue = v.queue ++ bytes;
      content = record {
        start_bound = rest.start_bound;
        end_position = rest.end_position;
        fits = rest.fits;
        holds = rest.holds;
      };
      in_order = ap (λ q. q ++ bytes) v.in_order ∙ append_assoc s.received v.queue bytes;
      data_units = omega (
        arith,
        v.data_units,
        units,
        ap (λ r. r.1.count) up,
        ap (λ r. fewer s.pipe.data_sem r.1) up,
        grown,
      );
      space_units = omega (arith, v.space_units, ap (λ m. m.count) same, grown);
    }

-- Changes of the threads and of the semaphores keep what is in the buffer.
same_buffer :
    (s : System) (ths : Threads) (d_sem s_sem : Semaphore) (reading writing : ℕ)
    → Flowing s
    → d_sem.count + reading ≡ s.pipe.data_sem.count + s.reading
    → s_sem.count + writing ≡ s.pipe.space_sem.count + s.writing
    → Flowing (record s {
      threads = ths;
      pipe = record (s.pipe) { data_sem = d_sem; space_sem = s_sem };
      reading = reading;
      writing = writing;
    })
same_buffer s ths d_sem s_sem reading writing v d w = record {
  queue = v.queue;
  content = record {
    start_bound = v.content.start_bound;
    end_position = v.content.end_position;
    fits = v.content.fits;
    holds = v.content.holds;
  };
  in_order = v.in_order;
  data_units = omega (arith, d, v.data_units);
  space_units = omega (arith, w, v.space_units);
}

Step-Flowing : {s u : System} → Step s u → Flowing s → Flowing u
Step-Flowing {s} (take_data t now nonblock h) v =
    same_buffer s _ _ s.pipe.space_sem _ s.writing v
      (omega (arith, down_units s.threads s.pipe.data_sem t now nonblock h)) refl
Step-Flowing {s} (take_space t now nonblock h) v =
    same_buffer s _ s.pipe.data_sem _ s.reading _ v refl
      (omega (arith, down_units s.threads s.pipe.space_sem t now nonblock h))
Step-Flowing {s} (give_data n h) v =
    let fits : s.pipe.data_sem.count + n < size_mod = omega (arith, v.data_units, v.content.fits) in
    same_buffer s _ _ s.pipe.space_sem _ s.writing v
      (omega (arith, up_units n s.threads s.pipe.data_sem fits)) refl
Step-Flowing {s} (give_space n h) v =
    let fits : s.pipe.space_sem.count + n < size_mod = omega (arith, v.space_units) in
    same_buffer s _ s.pipe.data_sem _ s.reading _ v refl
      (omega (arith, up_units n s.threads s.pipe.space_sem fits))
Step-Flowing {s} (read n h) v = read-Flowing s n h v
Step-Flowing {s} (write bytes h) v = write-Flowing s bytes h v
Step-Flowing {s} (data_timeout t) v =
    same_buffer s _ _ s.pipe.space_sem s.reading s.writing v refl refl
Step-Flowing {s} (space_timeout t) v =
    same_buffer s _ s.pipe.data_sem _ s.reading s.writing v refl refl
Step-Flowing {s} (data_interrupt t) v =
    same_buffer s _ _ s.pipe.space_sem s.reading s.writing v refl refl
Step-Flowing {s} (space_interrupt t) v =
    same_buffer s _ s.pipe.data_sem _ s.reading s.writing v refl refl
Step-Flowing {s} (other t th) v =
    same_buffer s _ s.pipe.data_sem s.pipe.space_sem s.reading s.writing v refl refl

-- From a new pipe, after any interleaving of the parts of reads and writes with timeouts,
-- interrupts and scheduling: the buffer holds, between its positions and in order, exactly the bytes
-- that were sent and not yet received, so the bytes received are a first part of those sent; the
-- units of data, in the semaphore or held, are as many as these bytes, and the units of space as
-- many as the places left of PIPE_SIZE.
pub Reach-Flowing :
    {ths : Threads} (buf : ℕ → ℕ) (self : ℕ) {s : System} → Reach (start ths buf self) s → Flowing s
unfolding pipe_create
Reach-Flowing buf self here = record {
  queue = [];
  content = record {
    start_bound = omega arith;
    end_position = refl;
    fits = omega arith;
    holds = tt;
  };
  in_order = refl;
  data_units = refl;
  space_units = refl;
}
Reach-Flowing buf self (next r st) = Step-Flowing st (Reach-Flowing buf self r)
