-- ===== src/Pipe/Ring.antt =====
-- The ring buffer of a pipe as a queue of bytes.
use infinity_os.Base.{
  ℕ, zero, suc, ◌+◌, ◌%◌, ◌≤◌, ◌<◌, ◌≡◌, refl, false, List, [], ◌∷◌, ◌++◌, arith, ◌==◌, length,
  length-append, take, drop, ◌∙◌, ap, sym, subst,
}
use infinity_os.Thread.{Threads}
use infinity_os.Sync.Semaphore.{Semaphore, semaphore_up}
use infinity_os.Pipe.{
  Pipe, pipe_size, next_position, write_byte, pipe_get, pipe_insert, get_loop, insert_loop,
}

-- The bytes from a position on, around the end of the buffer.
abbrev pub Holds : (ℕ → ℕ) → ℕ → List ℕ → Type 0
Holds buf i [] = Unit {0}
Holds buf i (ch ∷ chs) = (buf i ≡ ch) × Holds buf ((i + 1) % pipe_size) chs

pub next_position-mod : (i : ℕ) → i < pipe_size → next_position i ≡ (i + 1) % pipe_size
unfolding next_position
next_position-mod i h = ground arith

-- A write behind the bytes keeps them.
pub write_byte-Holds :
    (buf : ℕ → ℕ) (i k ch : ℕ) (q : List ℕ)
    → i < pipe_size
    → length q ≤ k
    → k < pipe_size
    → Holds buf i q
    → Holds (write_byte buf ((i + k) % pipe_size) ch) i q
unfolding write_byte
write_byte-Holds buf i k ch [] s l h v = tt
write_byte-Holds buf i zero ch (c ∷ q) s l h v = absurd (omega arith)
write_byte-Holds buf i (suc k) ch (c ∷ q) s l h (e, v) =
    let same : ((i + 1) % pipe_size + k) % pipe_size ≡ (i + suc k) % pipe_size = omega arith in
    let ih =
      write_byte-Holds buf ((i + 1) % pipe_size) k ch q (omega arith) (omega arith) (omega arith)
        v in
    let away : ((i + suc k) % pipe_size == i) ≡ false = ground arith in
    (ground arith, rw same at ih)

pub Holds-append :
    (buf : ℕ → ℕ) (i ch : ℕ) (q : List ℕ)
    → i < pipe_size
    → Holds buf i q
    → buf ((i + length q) % pipe_size) ≡ ch
    → Holds buf i (q ++ ch ∷ [])
Holds-append buf i ch [] s v e =
    let same : (i + 0) % pipe_size ≡ i = omega arith in (rw same at e, tt)
Holds-append buf i ch (c ∷ q) s (p, v) e =
    let same : ((i + 1) % pipe_size + length q) % pipe_size ≡ (i + suc (length q)) % pipe_size =
      omega arith in
    (p, Holds-append buf ((i + 1) % pipe_size) ch q (omega arith) v (ap buf same ∙ e))

write_byte_at : (buf : ℕ → ℕ) (i j ch : ℕ) → i ≡ j → write_byte buf i ch j ≡ ch
unfolding write_byte
write_byte_at buf i j ch e = ground arith

-- The positions lie in the buffer, which holds these bytes in this order.
pub record Content (p : Pipe) (q : List ℕ) : Type 0 where
  pub start_bound : p.start < pipe_size
  pub end_position : p.end ≡ (p.start + length q) % pipe_size
  pub fits : length q ≤ pipe_size
  pub holds : Holds p.buf p.start q

-- An insertion into a pipe with room puts the byte at the end of the queue.
pub pipe_insert-Content :
    (ths : Threads) (p : Pipe) (ch : ℕ) (q : List ℕ)
    → Content p q
    → length q < pipe_size
    → Content (pipe_insert ch (ths, p)).1 (q ++ ch ∷ [])
unfolding pipe_insert
pipe_insert-Content ths p ch q c room =
    let grown = length-append q (ch ∷ []) in
    let e = c.end_position in
    let next = next_position-mod p.end (omega (arith, e)) in
    let kept =
      write_byte-Holds p.buf p.start (length q) ch q c.start_bound (omega arith) room c.holds in
    let kept' = subst (λ x. Holds (write_byte p.buf x ch) p.start q) (sym e) kept in
    record {
      start_bound = c.start_bound;
      end_position = next ∙ omega (arith, grown, e);
      fits = omega (arith, grown);
      holds =
          Holds-append (write_byte p.buf p.end ch) p.start ch q c.start_bound kept'
            (write_byte_at p.buf p.end _ ch e);
    }

-- A read from a pipe with data takes the byte at the front of the queue.
pub pipe_get-Content :
    (ths : Threads) (p : Pipe) (ch : ℕ) (q : List ℕ)
    → Content p (ch ∷ q)
    → ((pipe_get (ths, p)).0 ≡ ch) × Content (pipe_get (ths, p)).1.1 q
unfolding pipe_get
pipe_get-Content ths p ch q c =
    let (front, behind) = c.holds in
    let step = next_position-mod p.start c.start_bound in
    (
      front,
      record {
        start_bound = omega (arith, step);
        end_position = omega (arith, step, c.end_position);
        fits = omega (arith, c.fits);
        holds = subst (λ i. Holds p.buf i q) (sym step) behind;
      },
    )

pub append_assoc : (xs ys zs : List ℕ) → (xs ++ ys) ++ zs ≡ xs ++ (ys ++ zs)
append_assoc [] ys zs = refl
append_assoc (x ∷ xs) ys zs = ap (λ r. x ∷ r) (append_assoc xs ys zs)

pub append_nil : (xs : List ℕ) → xs ++ [] ≡ xs
append_nil [] = refl
append_nil (x ∷ xs) = ap (λ r. x ∷ r) (append_nil xs)

pub insert_loop-Content :
    (bytes : List ℕ) (ths : Threads) (p : Pipe) (q : List ℕ)
    → Content p q
    → length q + length bytes ≤ pipe_size
    → Content (insert_loop bytes (ths, p)).1 (q ++ bytes)
unfolding insert_loop
insert_loop-Content [] ths p q c room = subst (λ r. Content p r) (sym (append_nil q)) c
insert_loop-Content (ch ∷ bytes) ths p q c room =
    let (ths', p') = pipe_insert ch (ths, p) in
    subst (λ r. Content (insert_loop bytes (ths', p')).1 r) (append_assoc q (ch ∷ []) bytes)
      (insert_loop-Content bytes ths' p' (q ++ ch ∷ [])
        (pipe_insert-Content ths p ch q c (omega arith)) (omega (arith, length-append q (ch ∷ []))))

pub get_loop-Content :
    (n : ℕ) (ths : Threads) (p : Pipe) (q : List ℕ)
    → Content p q
    → n ≤ length q
    → ((get_loop n (ths, p)).0 ≡ take n q) × (Content (get_loop n (ths, p)).1.1 (drop n q))
unfolding get_loop
get_loop-Content zero ths p q c h = (refl, c)
get_loop-Content (suc n) ths p [] c h = absurd (omega arith)
get_loop-Content (suc n) ths p (ch ∷ q) c h =
    let (front, c') = pipe_get-Content ths p ch q c in
    let (ths', p') = (pipe_get (ths, p)).1 in
    let (bytes, rest) = get_loop-Content n ths' p' q c' (omega arith) in (ground arith, rest)

-- What the loops do to the semaphores.
pub insert_loop-semaphores :
    (bytes : List ℕ) (ths : Threads) (p : Pipe)
    → (◌≡◌ {A = Threads × Semaphore}
        ((insert_loop bytes (ths, p)).0, (insert_loop bytes (ths, p)).1.data_sem)
        (semaphore_up (length bytes) (ths, p.data_sem)))
      × ((insert_loop bytes (ths, p)).1.space_sem ≡ p.space_sem)
unfolding insert_loop pipe_insert semaphore_up
insert_loop-semaphores [] ths p = (refl, refl)
insert_loop-semaphores (ch ∷ bytes) ths p =
    let (ths', p') = pipe_insert ch (ths, p) in insert_loop-semaphores bytes ths' p'

pub get_loop-semaphores :
    (n : ℕ) (ths : Threads) (p : Pipe)
    → (◌≡◌ {A = Threads × Semaphore}
        ((get_loop n (ths, p)).1.0, (get_loop n (ths, p)).1.1.space_sem)
        (semaphore_up n (ths, p.space_sem)))
      × ((get_loop n (ths, p)).1.1.data_sem ≡ p.data_sem)
unfolding get_loop pipe_get semaphore_up
get_loop-semaphores zero ths p = (refl, refl)
get_loop-semaphores (suc n) ths p =
    let (ths', p') = (pipe_get (ths, p)).1 in get_loop-semaphores n ths' p'
