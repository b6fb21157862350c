-- ===== src/Thread/Wake.antt =====
-- What waking the threads of a list, from the front, does to the store.
use infinity_os.Base.{ℕ, ◌≡◌, refl, true, false, List, [], ◌∷◌, ◌++◌, arith, none, Bool, ◌∙◌}
use mathlib.Core.Path.{fun_ext}
use infinity_os.Thread.{Threads, ready, update, thread_wake}
use infinity_os.Thread.Queue.{has, remove-cons_self}

-- The threads of `woken` are ready, out of their sleep, and keep their status; all others are the
-- same as before.
pub record Woken (woken : List ℕ) (ths ths' : Threads) : Type 0 where
  pub readied : (t : ℕ) → has t woken ≡ true → (ths' t).state ≡ ready
  pub status : (t : ℕ) → (ths' t).sleep_status ≡ (ths t).sleep_status
  pub others : (t : ℕ) → has t woken ≡ false → ths' t ≡ ths t

abbrev pub wake_one : Threads → ℕ → Threads
wake_one ths t =
    update ths t (record (ths t) { state = ready; interruptible = false; sleep_timer = none })

unfoldable pub wake_list : Threads → List ℕ → Threads
wake_list ths [] = ths
wake_list ths (t ∷ ts) = wake_list (wake_one ths t) ts

pub wake_list-Woken : (ts : List ℕ) (ths : Threads) → Woken ts ths (wake_list ths ts)
unfolding wake_list update
wake_list-Woken [] ths = record { readied = λ t h. cc; status = λ t. refl; others = λ t h. refl }
wake_list-Woken (u ∷ ts) ths =
    let rest = wake_list-Woken ts (wake_one ths u) in
    record {
      readied = λ t h. ground (arith, rest.readied t, rest.others t);
      status = λ t. ground (arith, rest.status t);
      others = λ t h. ground (arith, rest.others t);
    }

pub thread_wake-first :
    (t : ℕ) (rest : List ℕ) (ths : Threads) → thread_wake t (ths, t ∷ rest) ≡ (wake_one ths t, rest)
unfolding thread_wake
thread_wake-first t rest ths = ground (arith, remove-cons_self t rest)

-- Waking leaves the third flag bit alone.
pub bit_three-wake_one :
    (ths : Threads) (t : ℕ)
    → ◌≡◌ {A = ℕ → Bool} (λ u. (wake_one ths t u).bit_three) (λ u. (ths u).bit_three)
unfolding update
bit_three-wake_one ths t = fun_ext (λ u. ground arith)

pub wake_list-append :
    (ths : Threads) (ts us : List ℕ) → wake_list ths (ts ++ us) ≡ wake_list (wake_list ths ts) us
unfolding wake_list
wake_list-append ths [] us = refl
wake_list-append ths (t ∷ ts) us = wake_list-append (wake_one ths t) ts us

pub bit_three-wake_list :
    (ts : List ℕ) (ths : Threads)
    → ◌≡◌ {A = ℕ → Bool} (λ u. (wake_list ths ts u).bit_three) (λ u. (ths u).bit_three)
unfolding wake_list
bit_three-wake_list [] ths = refl
bit_three-wake_list (t ∷ ts) ths =
    bit_three-wake_list ts (wake_one ths t) ∙ bit_three-wake_one ths t
