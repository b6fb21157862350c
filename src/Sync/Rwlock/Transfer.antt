-- ===== src/Sync/Rwlock/Transfer.antt =====
-- Which threads the lock goes to.
use infinity_os.Base.{
  ℕ, ◌+◌, ◌≡◌, ◌≢◌, Bool, true, false, not, ◌&&◌, List, [], ◌∷◌, ◌++◌, ◌==◌, arith, length,
  if◌then◌else◌, Bool-cases, inl, inr, ap, Option, none, some,
}
use infinity_os.Thread.{Threads}
use infinity_os.Thread.Wake.{wake_one, wake_list, thread_wake-first, bit_three-wake_one}
use infinity_os.Sync.Rwlock.{Rwlock, is_writer, is_empty, transfer_loop, rwlock_transfer_ownership}

abbrev pub punctual : ℕ → Bool
punctual t = false

-- The readers in front of the first writer, and the rest.
unfoldable pub leading : (ℕ → Bool) → List ℕ → List ℕ
leading writer [] = []
leading writer (t ∷ ts) = if writer t then [] else t ∷ leading writer ts

unfoldable pub behind : (ℕ → Bool) → List ℕ → List ℕ
behind writer [] = []
behind writer (t ∷ ts) = if writer t then t ∷ ts else behind writer ts

-- With readers in, the loop lets in the readers in front of the first writer.
loop_readers :
    (queue : List ℕ) (ths : Threads) (readers : ℕ)
    → readers ≢ 0
    → transfer_loop punctual queue (ths, record { held = true; readers = readers; threads = queue })
      ≡ (
        wake_list ths (leading (is_writer ths) queue),
        record {
          held = true;
          readers = readers + length (leading (is_writer ths) queue);
          threads = behind (is_writer ths) queue;
        },
      )
unfolding transfer_loop leading behind wake_list
loop_readers [] ths readers h = ground arith
loop_readers (t ∷ rest) ths readers h =
    let ih = loop_readers rest (wake_one ths t) (readers + 1) (omega arith) in
    rw (thread_wake-first t rest ths) (
      ground (arith, rw (bit_three-wake_one ths t) at ih, ap (λ f. f t) (bit_three-wake_one ths t)))

-- A writer is let in only where it heads the queue and no reader is in.
abbrev pub exclusive : (ℕ → Bool) → ℕ → List ℕ → Option ℕ
exclusive writer readers [] = none
exclusive writer readers (t ∷ ts) = if writer t && (readers == 0) then some t else none

abbrev pub to_list : Option ℕ → List ℕ
to_list none = []
to_list (some t) = t ∷ []

abbrev pub staying : (ℕ → Bool) → ℕ → List ℕ → List ℕ
staying writer readers [] = []
staying writer readers (t ∷ ts) = if writer t && (readers == 0) then ts else behind writer (t ∷ ts)

abbrev pub transferred : Threads → ℕ → List ℕ → Threads × Rwlock
transferred ths readers queue =
    let writer = is_writer ths in
    (
      wake_list ths (to_list (exclusive writer readers queue) ++ leading writer queue),
      record {
        held = not (is_empty queue && (readers == 0));
        readers = readers + length (leading writer queue);
        threads = staying writer readers queue;
      },
    )

transfer-closed :
    (ths : Threads) (readers : ℕ) (queue : List ℕ)
    → rwlock_transfer_ownership punctual
        (ths, record { held = true; readers = readers; threads = queue })
      ≡ transferred ths readers queue
unfolding rwlock_transfer_ownership transfer_loop wake_list leading behind
transfer-closed ths readers [] = ground arith
transfer-closed ths readers (t ∷ rest) = elim (Bool-cases (readers == 0)) [
  | inl none_in ↦
      let ih = loop_readers rest (wake_one ths t) (readers + 1) (omega arith) in
      rw (thread_wake-first t rest ths, transfer_loop)
        (ground
          (arith, rw (bit_three-wake_one ths t) at ih, ap (λ f. f t) (bit_three-wake_one ths t)))
  | inr some_in ↦ ground (arith, loop_readers (t ∷ rest) ths readers (ground arith))
]

-- The lock goes to the first waiter if that is a writer and no reader is in, else to all readers
-- in front of the first writer; with nobody waiting and no reader in, it becomes free. The loop's
-- second test of a flag is taken to see what the first one saw.
pub transfer-eq-transferred :
    (ths : Threads) (lock : Rwlock)
    → lock.held ≡ true
    → rwlock_transfer_ownership punctual (ths, lock) ≡ transferred ths lock.readers lock.threads
transfer-eq-transferred ths lock h = ground (arith, transfer-closed ths lock.readers lock.threads)
