-- ===== src/Thread/Interrupts.antt =====
-- The order in which the user mode interrupts of a thread are queued.
use infinity_os.Base.{
  ℕ, ◌≤◌, ◌<◌, ◌≡◌, refl, false, List, [], ◌∷◌, ◌++◌, arith, ltb, ◌==◌, ap, Bool-cases, inl, inr,
}
use infinity_os.Thread.{
  Threads, Interrupt, update, insert_interrupt, thread_interrupt, thread_interrupt_internal,
  thread_wake,
}

-- Interrupts of at most, at least and less than a priority.
abbrev pub AtMost : ℕ → List Interrupt → Type 0
AtMost p [] = Unit {0}
AtMost p (e ∷ es) = (e.priority ≤ p) × AtMost p es

abbrev pub AtLeast : ℕ → List Interrupt → Type 0
AtLeast p [] = Unit {0}
AtLeast p (e ∷ es) = (p ≤ e.priority) × AtLeast p es

abbrev pub Below : ℕ → List Interrupt → Type 0
Below p [] = Unit {0}
Below p (e ∷ es) = (e.priority < p) × Below p es

-- Highest priority first.
abbrev pub IsOrdered : List Interrupt → Type 0
IsOrdered [] = Unit {0}
IsOrdered (e ∷ es) = AtMost e.priority es × IsOrdered es

AtMost-Below : (p q : ℕ) (es : List Interrupt) → p < q → AtMost p es → Below q es
AtMost-Below p q [] h v = tt
AtMost-Below p q (e ∷ es) h v = (omega (arith, v.0), AtMost-Below p q es h v.1)

AtMost-AtMost : (p q : ℕ) (es : List Interrupt) → p ≤ q → AtMost p es → AtMost q es
AtMost-AtMost p q [] h v = tt
AtMost-AtMost p q (e ∷ es) h v = (omega (arith, v.0), AtMost-AtMost p q es h v.1)

insert_interrupt-AtMost :
    (p : ℕ) (i : Interrupt) (es : List Interrupt)
    → i.priority ≤ p
    → AtMost p es
    → AtMost p (insert_interrupt i es)
unfolding insert_interrupt
insert_interrupt-AtMost p i [] h v = (h, tt)
insert_interrupt-AtMost p i (e ∷ es) h v = elim (Bool-cases (ltb e.priority i.priority)) [
  | inl low ↦ rw low (h, v)
  | inr high ↦ rw high (v.0, insert_interrupt-AtMost p i es h v.1)
]

-- The new interrupt stands behind all of its priority or a higher one and before all of a lower
-- one, and the others keep their order.
abbrev pub Placed : Interrupt → List Interrupt → List Interrupt → Type 0
Placed i es es' =
    (before : List Interrupt) × (after : List Interrupt) × (es ≡ before ++ after)
    × (es' ≡ before ++ i ∷ after)
    × (AtLeast i.priority before)
    × (Below i.priority after)
    × (IsOrdered es')

insert_interrupt-Placed :
    (i : Interrupt) (es : List Interrupt) → IsOrdered es → Placed i es (insert_interrupt i es)
unfolding insert_interrupt
insert_interrupt-Placed i [] v = ([], [], refl, refl, tt, tt, (tt, tt))
insert_interrupt-Placed i (e ∷ es) v = elim (Bool-cases (ltb e.priority i.priority)) [
  | inl low ↦
      let less : e.priority < i.priority = ground arith in
      let most : e.priority ≤ i.priority = omega arith in
      rw low (
        [],
        e ∷ es,
        refl,
        refl,
        tt,
        (less, AtMost-Below e.priority i.priority es less v.0),
        ((most, AtMost-AtMost e.priority i.priority es most v.0), v),
      )
  | inr high ↦
      let (before, after, old, new, least, below, ordered) = insert_interrupt-Placed i es v.1 in
      let least' : i.priority ≤ e.priority = ground arith in
      rw high (
        e ∷ before,
        after,
        ap (λ r. e ∷ r) old,
        ap (λ r. e ∷ r) new,
        (least', least),
        below,
        (insert_interrupt-AtMost e.priority i es least' v.0, ordered),
      )
]

module _ (t : ℕ) (i : Interrupt) (ths : Threads) (queue : List ℕ) where
  queued_interrupts :
      (ths t).kernel_owned ≡ false
      → ((thread_interrupt t i (ths, queue)).0 t).interrupts ≡ insert_interrupt i (ths t).interrupts
  unfolding thread_interrupt thread_interrupt_internal thread_wake update
  queued_interrupts user = ground arith

  other_threads : (u : ℕ) → (u == t) ≡ false → (thread_interrupt t i (ths, queue)).0 u ≡ ths u
  unfolding thread_interrupt thread_interrupt_internal thread_wake update
  other_threads u other = ground arith

  -- An interrupt for a thread that is not the kernel's, and whose queue is ordered by priority, is
  -- queued behind all interrupts of its own or a higher priority and before all of a lower one, so
  -- that the queue stays ordered and each priority is served in the order of arrival; other threads
  -- are not touched.
  pub thread_interrupt-Placed :
      (ths t).kernel_owned ≡ false
      → IsOrdered (ths t).interrupts
      → (u : ℕ) → (u == t) ≡ false
      → (Placed i (ths t).interrupts ((thread_interrupt t i (ths, queue)).0 t).interrupts)
        × ((thread_interrupt t i (ths, queue)).0 u ≡ ths u)
  thread_interrupt-Placed user ordered u other = (
    rw (queued_interrupts user) (insert_interrupt-Placed i (ths t).interrupts ordered),
    other_threads u other,
  )
