-- ===== src/Notifier.antt =====
-- source/kernel/lib/notifier.c: lists of functions to call when an event occurs.
--
-- A function and its data argument are named by numbers. A run yields the list of the calls that
-- it makes, in order; a callback that changes the notifier while it runs is not modelled, and so
-- the mutex, which is taken and released around each operation, is left out.
pub mod Calls
mod Examples
use infinity_os.Base.{ℕ, Bool, true, false, ◌&&◌, List, [], ◌∷◌, ◌++◌, if◌then◌else◌, ◌==◌}

pub record Entry : Type 0 where
  pub func : ℕ
  pub arg : ℕ

pub record Notifier : Type 0 where
  pub functions : List Entry
  pub owner : ℕ

unfoldable pub notifier_init : ℕ → Notifier
notifier_init owner = record { functions = []; owner = owner }

-- The loop that takes the first entry off until none is left.
clear_loop : List Entry → List Entry
clear_loop [] = []
clear_loop (e ∷ es) = clear_loop es

unfoldable pub notifier_clear : Notifier → Notifier
unfolding clear_loop
notifier_clear n = record n { functions = clear_loop n.functions }

-- One call: the notifier's own data, the data of the entry, and the data of the run.
pub record Call : Type 0 where
  pub func : ℕ
  pub owner : ℕ
  pub arg : ℕ
  pub event : ℕ

-- What is left of the list, the calls made, and whether there was one.
abbrev pub Ran : Type 0
Ran = List Entry × List Call × Bool

run_loop : ℕ → ℕ → Bool → List Entry → Ran
run_loop owner event destroy [] = ([], [], false)
run_loop owner event destroy (e ∷ es) =
    let (left, calls, called) = run_loop owner event destroy es in
    let call : Call = record { func = e.func; owner = owner; arg = e.arg; event = event } in
    (if destroy then left else e ∷ left, call ∷ calls, true)

unfoldable pub notifier_run_unsafe : ℕ → Bool → Notifier → Notifier × List Call × Bool
unfolding run_loop
notifier_run_unsafe event destroy n =
    let (left, calls, called) = run_loop n.owner event destroy n.functions in
    (record n { functions = left }, calls, called)

unfoldable pub notifier_run : ℕ → Bool → Notifier → Notifier × List Call × Bool
unfolding notifier_run_unsafe
notifier_run event destroy n = notifier_run_unsafe event destroy n

unfoldable pub notifier_register : ℕ → ℕ → Notifier → Notifier
notifier_register func arg n = record n {
  functions = n.functions ++ record { func = func; arg = arg } ∷ [];
}

unregister_loop : ℕ → ℕ → List Entry → List Entry
unregister_loop func arg [] = []
unregister_loop func arg (e ∷ es) =
    let rest = unregister_loop func arg es in
    if e.func == func && e.arg == arg then rest else e ∷ rest

unfoldable pub notifier_unregister : ℕ → ℕ → Notifier → Notifier
unfolding unregister_loop
notifier_unregister func arg n = record n { functions = unregister_loop func arg n.functions }
