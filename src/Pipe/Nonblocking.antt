-- ===== src/Pipe/Nonblocking.antt =====
-- Nonblocking reads and writes of at most PIPE_SIZE bytes, on a pipe that nobody waits for.
use infinity_os.Base.{
  ℕ, zero, suc, ◌+◌, ◌-◌, ◌≤◌, ◌<◌, ◌≡◌, refl, true, false, List, [], ◌∷◌, ◌++◌, arith, ◌==◌, ltb,
  leb, length, length-append, length-drop, take, drop, ◌∙◌, ap, sym, subst, some, ◌⊎◌, inl, inr,
  Bool-cases,
}
use infinity_os.Status.{success, would_block}
use infinity_os.Thread.{Threads, relative, remove, thread_sleep}
use infinity_os.Sync.Semaphore.{Semaphore, semaphore_up, semaphore_down_etc}
use infinity_os.Sync.Semaphore.Wake.{up_empty}
use infinity_os.Pipe.{
  Pipe, Outcome, all, stopped, pipe_size, read_section, write_section, take_units, read_small,
  write_small, pipe_read, pipe_write,
}
use infinity_os.Pipe.Ring.{
  Content, insert_loop-Content, get_loop-Content, insert_loop-semaphores, get_loop-semaphores,
  append_nil,
}

abbrev pub units : ℕ → Semaphore
units n = record { count = n; threads = [] }

-- The bytes in the buffer, with the semaphores that belong to them and no waiter.
pub record IsIdle (p : Pipe) (q : List ℕ) : Type 0 where
  pub content : Content p q
  pub data_units : p.data_sem ≡ units (length q)
  pub space_units : p.space_sem ≡ units (pipe_size - length q)

module _ (self now : ℕ) where
  take_all :
      (i left c : ℕ) (ths : Threads)
      → left ≤ c
      → take_units self now true i left (ths, units c) ≡ ((ths, units (c - left)), all)
  unfolding take_units semaphore_down_etc
  take_all i zero c ths h = ap (λ n. ((ths, units n), all)) (omega arith)
  take_all i (suc left) c ths h = ground (arith, take_all (i + 1) left (c - 1) ths)

  take_some :
      (i left c : ℕ) (ths : Threads)
      → c < left
      → take_units self now true i left (ths, units c)
        ≡ ((ths, units 0), stopped (i + c) (some would_block))
  unfolding take_units semaphore_down_etc thread_sleep relative remove
  take_some i zero c ths h = absurd (omega arith)
  take_some i (suc left) c ths h = ground (arith, take_some (i + 1) left (c - 1) ths)

-- The outcome of a write, and of a read.
abbrev pub Written : List ℕ → List ℕ → Outcome → Type 0
Written q bytes o =
    ((length q + length bytes ≤ pipe_size)
      × (o.status ≡ some success)
      × (o.count ≡ length bytes)
      × (IsIdle o.state.1 (q ++ bytes)))
    ⊎ ((pipe_size < length q + length bytes)
        × (o.status ≡ some would_block)
        × (o.count ≡ 0)
        × (IsIdle o.state.1 q))

abbrev pub Received : List ℕ → ℕ → Outcome → Type 0
Received q n o =
    ((n ≤ length q)
      × (o.status ≡ some success)
      × (o.count ≡ n)
      × (o.bytes ≡ take n q)
      × (IsIdle o.state.1 (drop n q)))
    ⊎ ((length q < n)
        × (o.status ≡ some would_block)
        × (o.count ≡ 0)
        × (o.bytes ≡ [])
        × (IsIdle o.state.1 q))

-- The sections of a write and of a read whose units were taken.
insert-IsIdle :
    (ths : Threads) (p : Pipe) (q bytes : List ℕ) (s_sem : Semaphore)
    → IsIdle p q
    → length q + length bytes ≤ pipe_size
    → s_sem ≡ units (pipe_size - length q - length bytes)
    → IsIdle (write_section bytes (ths, record p { space_sem = s_sem })).state.1 (q ++ bytes)
unfolding write_section
insert-IsIdle ths p q bytes s_sem v h e =
    let taken : Pipe = record p { space_sem = s_sem } in
    let start : Content taken q = record {
      start_bound = v.content.start_bound;
      end_position = v.content.end_position;
      fits = v.content.fits;
      holds = v.content.holds;
    } in
    let c = insert_loop-Content bytes ths taken q start h in
    let (up, same) = insert_loop-semaphores bytes ths taken in
    let grown = length-append q bytes in
    record {
      content = record {
        start_bound = c.start_bound;
        end_position = c.end_position;
        fits = c.fits;
        holds = c.holds;
      };
      data_units =
          ap (λ r. r.1) up
          ∙ ap (λ m. (semaphore_up (length bytes) (ths, m)).1) v.data_units
          ∙ ap (λ r. r.1) (up_empty (length bytes) ths (length q) (omega arith))
          ∙ ap units (sym grown);
      space_units = same ∙ e ∙ ap units (omega (arith, grown));
    }

get-IsIdle :
    (ths : Threads) (p : Pipe) (q : List ℕ) (n : ℕ) (d_sem : Semaphore)
    → IsIdle p q
    → n ≤ length q
    → d_sem ≡ units (length q - n)
    → ((read_section n (ths, record p { data_sem = d_sem })).bytes ≡ take n q)
      × (IsIdle (read_section n (ths, record p { data_sem = d_sem })).state.1 (drop n q))
unfolding read_section
get-IsIdle ths p q n d_sem v h e =
    let taken : Pipe = record p { data_sem = d_sem } in
    let start : Content taken q = record {
      start_bound = v.content.start_bound;
      end_position = v.content.end_position;
      fits = v.content.fits;
      holds = v.content.holds;
    } in
    let (bytes, c) = get_loop-Content n ths taken q start h in
    let (up, same) = get_loop-semaphores n ths taken in
    let shrunk = length-drop n q in
    (
      bytes,
      record {
        content = record {
          start_bound = c.start_bound;
          end_position = c.end_position;
          fits = c.fits;
          holds = c.holds;
        };
        data_units = same ∙ e ∙ ap units (sym shrunk);
        space_units =
            ap (λ r. r.1) up
            ∙ ap (λ m. (semaphore_up n (ths, m)).1) v.space_units
            ∙ ap (λ r. r.1) (up_empty n ths (pipe_size - length q) (omega arith))
            ∙ ap units (omega (arith, shrunk, v.content.fits));
      },
    )

-- What is given back after a failed attempt leaves the pipe as it was.
given_back :
    (n : ℕ) (ths : Threads) → n ≤ pipe_size → (semaphore_up (0 + n) (ths, units 0)).1 ≡ units n
given_back n ths h = ap (λ r. r.1) (up_empty (0 + n) ths 0 (omega arith)) ∙ ap units (omega arith)

unchanged :
    (p : Pipe) (q : List ℕ) (d_sem s_sem : Semaphore)
    → IsIdle p q
    → d_sem ≡ units (length q)
    → s_sem ≡ units (pipe_size - length q)
    → IsIdle (record p { data_sem = d_sem; space_sem = s_sem }) q
unchanged p q d_sem s_sem v d s = record {
  content = record {
    start_bound = v.content.start_bound;
    end_position = v.content.end_position;
    fits = v.content.fits;
    holds = v.content.holds;
  };
  data_units = d;
  space_units = s;
}

write_small-Written :
    (self now : ℕ) (ths : Threads) (p : Pipe) (q bytes : List ℕ)
    → IsIdle p q
    → Written q bytes (write_small self now true 0 bytes (ths, p))
unfolding write_small write_section
write_small-Written self now ths p q bytes v =
    let e' = ap (λ m. take_units self now true 0 (length bytes - 0) (ths, m)) v.space_units in
    elim (Bool-cases (ltb (pipe_size - length q) (length bytes))) [
      | inl much ↦
          let e =
            take_some self now 0 (length bytes - 0) (pipe_size - length q) ths (ground arith) in
          rw (e' ∙ e) (
            inr (
              ground arith,
              refl,
              refl,
              unchanged p q _ _ v v.data_units
                  (given_back (pipe_size - length q) ths (omega arith)),
            ))
      | inr fits ↦
          let e =
            take_all self now 0 (length bytes - 0) (pipe_size - length q) ths (ground arith) in
          let room : length q + length bytes ≤ pipe_size = ground (arith, v.content.fits) in
          rw (e' ∙ e)
            (inl (room, refl, refl, insert-IsIdle ths p q bytes _ v room (ap units (omega arith))))
    ]

read_small-Received :
    (self now : ℕ) (ths : Threads) (p : Pipe) (q : List ℕ) (n : ℕ)
    → IsIdle p q
    → Received q n (read_small self now true 0 n (ths, p))
unfolding read_small read_section
read_small-Received self now ths p q n v =
    let e' = ap (λ m. take_units self now true 0 n (ths, m)) v.data_units in
    elim (Bool-cases (ltb (length q) n)) [
      | inl much ↦
          let e = take_some self now 0 n (length q) ths (ground arith) in
          rw (e' ∙ e) (
            inr (
              ground arith,
              refl,
              refl,
              refl,
              unchanged p q _ _ v (given_back (length q) ths v.content.fits) v.space_units,
            ))
      | inr fits ↦
          let e = take_all self now 0 n (length q) ths (ground arith) in
          let room : n ≤ length q = ground arith in
          let z : 0 + n ≡ n = omega arith in
          let (bytes, rest) = get-IsIdle ths p q n (units (length q - n)) v room refl in
          rw (e' ∙ e, z) (inl (room, refl, refl, bytes, rest))
    ]

module _ (self now : ℕ) (ths : Threads) (p : Pipe) (q : List ℕ) (v : IsIdle p q) where
  -- A nonblocking write of at most PIPE_SIZE bytes appends all of them to the buffer and returns
  -- success, if there is room for all; else it writes none, returns STATUS_WOULD_BLOCK and leaves
  -- the buffer and the semaphores as they were.
  pub pipe_write-Written :
      (bytes : List ℕ)
      → length bytes ≤ pipe_size
      → Written q bytes (pipe_write self now true bytes (ths, p))
  unfolding pipe_write
  pipe_write-Written [] h =
      inl
        (omega (arith, v.content.fits), refl, refl, subst (λ r. IsIdle p r) (sym (append_nil q)) v)
  pipe_write-Written (ch ∷ bytes) h =
      let small : leb (length (ch ∷ bytes)) pipe_size ≡ true = ground arith in
      let some_bytes : (length (ch ∷ bytes) == 0) ≡ false = ground arith in
      rw (some_bytes, small) (write_small-Written self now ths p q (ch ∷ bytes) v)

  -- A nonblocking read of at most PIPE_SIZE bytes takes them from the front of the buffer, in order,
  -- and returns success, if there are as many; else it reads none, returns STATUS_WOULD_BLOCK and
  -- leaves the buffer and the semaphores as they were.
  pub pipe_read-Received :
      (n : ℕ) → n ≤ pipe_size → Received q n (pipe_read self now true n (ths, p))
  unfolding pipe_read
  pipe_read-Received zero h = inl (omega arith, refl, refl, refl, v)
  pipe_read-Received (suc n) h =
      let small : leb (suc n) pipe_size ≡ true = ground arith in
      let some_bytes : (suc n == 0) ≡ false = ground arith in
      rw (some_bytes, small) (read_small-Received self now ths p q (suc n) v)

take-length : (xs : List ℕ) → take (length xs) xs ≡ xs
take-length [] = refl
take-length (x ∷ xs) = ap (λ r. x ∷ r) (take-length xs)

Received-status :
    (bytes : List ℕ) (o : Outcome)
    → Received bytes (length bytes) o
    → (o.status ≡ some success) × (o.bytes ≡ bytes)
Received-status bytes o (inl (h, s, c, b, v)) = (s, b ∙ take-length bytes)
Received-status bytes o (inr (h, s, c, b, v)) = absurd (omega arith)

read_back :
    (self now : ℕ) (bytes : List ℕ) (o : Outcome)
    → length bytes ≤ pipe_size
    → Written [] bytes o
    → ((pipe_read self now true (length bytes) o.state).status ≡ some success)
      × ((pipe_read self now true (length bytes) o.state).bytes ≡ bytes)
read_back self now bytes o h (inl (r, s, c, v)) =
    Received-status bytes (pipe_read self now true (length bytes) o.state)
      (pipe_read-Received self now o.state.0 o.state.1 bytes v (length bytes) h)
read_back self now bytes o h (inr (l, s, c, v)) = absurd (omega arith)

Written-status :
    (bytes : List ℕ) (o : Outcome)
    → length bytes ≤ pipe_size
    → Written [] bytes o
    → o.status ≡ some success
Written-status bytes o h (inl (r, s, c, v)) = s
Written-status bytes o h (inr (l, s, c, v)) = absurd (omega arith)

module _ (writer reader now : ℕ) (ths : Threads) (p : Pipe) (bytes : List ℕ) where
  -- At most PIPE_SIZE bytes that one thread writes to an empty pipe are read back by another as
  -- they were, both calls being nonblocking and successful.
  pub pipe_read-pipe_write :
      IsIdle p []
      → length bytes ≤ pipe_size
      → ((pipe_write writer now true bytes (ths, p)).status ≡ some success)
        × ((pipe_read reader now true
              (length bytes)
              (pipe_write writer now true bytes (ths, p)).state).status
            ≡ some success)
        × ((pipe_read reader now true
              (length bytes)
              (pipe_write writer now true bytes (ths, p)).state).bytes
            ≡ bytes)
  pipe_read-pipe_write v h =
      let o = pipe_write writer now true bytes (ths, p) in
      let w = pipe_write-Written writer now ths p [] v bytes h in
      let (s, b) = read_back reader now bytes o h w in (Written-status bytes o h w, s, b)
