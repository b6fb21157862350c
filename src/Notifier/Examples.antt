-- ===== src/Notifier/Examples.antt =====
-- The theorem on notifiers at a concrete one.
use infinity_os.Base.{◌≡◌, false, List, [], ◌∷◌, ◌++◌}
use infinity_os.Notifier.{Entry, Notifier, notifier_run, notifier_unregister}
use infinity_os.Notifier.Calls.{calls_without, register_all, notifier_run-notifier_unregister}

abbrev two_entries : Notifier
two_entries = record {
  functions = record { func = 1; arg = 10 } ∷ record { func = 2; arg = 20 } ∷ [];
  owner = 5;
}

abbrev new_entries : List Entry
new_entries =
    record { func = 3; arg = 30 }
    ∷ record { func = 1; arg = 10 }
    ∷ record { func = 3; arg = 31 }
    ∷ []

notifier_run-notifier_unregister_example :
    (notifier_run 7 false (notifier_unregister 1 10 (register_all new_entries two_entries))).1
    ≡ calls_without 5 7 1 10 (two_entries.functions) ++ calls_without 5 7 1 10 new_entries
notifier_run-notifier_unregister_example =
    notifier_run-notifier_unregister 1 10 7 new_entries two_entries
