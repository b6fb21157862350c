-- ===== src/Notifier/Calls.antt =====
-- Which functions a run of a notifier calls, and in which order.
use infinity_os.Base.{
  ℕ, ◌≡◌, refl, Bool, false, ◌&&◌, List, [], ◌∷◌, ◌++◌, if◌then◌else◌, ◌==◌, arith, ap, ◌∙◌,
  Bool-cases, inl, inr, sym,
}
use mathlib.Core.List.{append_assoc, append-nil}
use infinity_os.Notifier.{
  Entry, Notifier, Call, run_loop, unregister_loop, notifier_run, notifier_run_unsafe,
  notifier_register, notifier_unregister,
}

abbrev pub call_of : ℕ → ℕ → Entry → Call
call_of owner event e = record { func = e.func; owner = owner; arg = e.arg; event = event }

abbrev is_entry : ℕ → ℕ → Entry → Bool
is_entry func arg e = e.func == func && e.arg == arg

-- The calls for the entries in their order, those of one function and argument left out.
unfoldable pub calls_without : ℕ → ℕ → ℕ → ℕ → List Entry → List Call
calls_without owner event func arg [] = []
calls_without owner event func arg (e ∷ es) =
    let rest = calls_without owner event func arg es in
    if is_entry func arg e then rest else call_of owner event e ∷ rest

unregistered_calls :
    (owner event func arg : ℕ) (es : List Entry)
    → (run_loop owner event false (unregister_loop func arg es)).1
      ≡ calls_without owner event func arg es
unfolding run_loop unregister_loop calls_without
unregistered_calls owner event func arg [] = refl
unregistered_calls owner event func arg (e ∷ es) = elim (Bool-cases (is_entry func arg e)) [
  | inl same ↦ rw same (unregistered_calls owner event func arg es)
  | inr other ↦
      rw other (ap (λ r. call_of owner event e ∷ r) (unregistered_calls owner event func arg es))
]

calls_without-append :
    (owner event func arg : ℕ) (es more : List Entry)
    → calls_without owner event func arg (es ++ more)
      ≡ calls_without owner event func arg es ++ calls_without owner event func arg more
unfolding calls_without
calls_without-append owner event func arg [] more = refl
calls_without-append owner event func arg (e ∷ es) more =
    ground (arith, calls_without-append owner event func arg es more)

-- One call of `notifier_register` after the other.
unfoldable pub register_all : List Entry → Notifier → Notifier
register_all [] n = n
register_all (e ∷ es) n = register_all es (notifier_register e.func e.arg n)

registered :
    (es : List Entry) (n : Notifier)
    → ((register_all es n).functions ≡ n.functions ++ es) × ((register_all es n).owner ≡ n.owner)
unfolding register_all notifier_register
registered [] n = (sym (append-nil n.functions), refl)
registered (e ∷ es) n =
    let (functions, owner) = registered es (notifier_register e.func e.arg n) in
    (functions ∙ append_assoc n.functions (e ∷ []) es, owner)

-- After functions were registered one after the other, in addition to those that the notifier has,
-- and one function was unregistered with its argument, a run calls the notifier's earlier functions
-- and then the new ones in the order of their registration, each with the data of its own
-- registration and once for each, but for the unregistered function with that argument.
pub notifier_run-notifier_unregister :
    (func arg event : ℕ) (es : List Entry) (n : Notifier)
    → (notifier_run event false (notifier_unregister func arg (register_all es n))).1
      ≡ calls_without n.owner event func arg n.functions ++ calls_without n.owner event func arg es
unfolding notifier_run notifier_run_unsafe notifier_unregister
notifier_run-notifier_unregister func arg event es n =
    let (functions, owner) = registered es n in
    unregistered_calls (register_all es n).owner event func arg (register_all es n).functions
    ∙ ap (λ o. calls_without o event func arg (register_all es n).functions) owner
    ∙ ap (λ l. calls_without n.owner event func arg l) functions
    ∙ calls_without-append n.owner event func arg n.functions es
