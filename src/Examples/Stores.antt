-- ===== src/Examples/Stores.antt =====
-- A data store with two entries and two observers, and handlers that log their calls.
use gnat.Base.{
  ℕ, ◌≡◌, refl, arith, List, [], ◌∷◌, ◌++◌, Bool, true, false, ◌==◌, ◌↔◌, if◌then◌else◌,
}
use gnat.Base.Outcome.{done, Prog, ◌>>=◌}
use gnat.DataStore.{
  DataStore, DataStoreEntry, ObserverEntry, set_entry, add_observer, erase, lookup, get_entry,
}
use gnat.DataStore.Contents.{contents, set_entry_comm}
use gnat.DataStore.Entries.{IsEquality, Unique}
use gnat.DataStore.Observers.{Call, logging, set_entry-logging, add_observer-logging}
use gnat.DataStore.Order.{get_entry-Perm_iff}
use gnat.Key.Equality.{integer_keys-IsEquality}
use mathlib.Core.List.{Perm}

abbrev entry_at : ℕ → DataStoreEntry
entry_at time = record { bytes = 5 ∷ []; size = 1; timestamp = time }

-- Two observers of the clients 7 and 8; their handlers are numbers.
abbrev two_observers : List (ObserverEntry ℕ)
two_observers = record { client_id = 7; handler = 1 } ∷ record { client_id = 8; handler = 2 } ∷ []

abbrev two_entries : DataStore ℕ ℕ
two_entries = record { entries = (3, entry_at 1) ∷ (4, entry_at 2) ∷ []; observers = two_observers }

-- Handlers that fail for the key 4.
abbrev not_four : ℕ → ℕ → DataStoreEntry → Bool
not_four handler key entry = if key == 4 then false else true

abbrev log_call : ℕ → ℕ → DataStoreEntry → Prog (List (Call ℕ ℕ)) (Bool × ℕ)
log_call = logging ◌==◌ not_four

equality : IsEquality ◌==◌
equality = integer_keys-IsEquality true

set_entry-logging_example :
    set_entry ◌==◌ log_call 4 (entry_at 9) (two_entries, [])
    ≡ done (
      tt,
      (
        record two_entries { entries = (4, entry_at 9) ∷ (3, entry_at 1) ∷ [] },
        (1, 4, entry_at 9) ∷ (2, 4, entry_at 9) ∷ [],
      ),
    )
unfolding erase
set_entry-logging_example = set_entry-logging ◌==◌ equality not_four 4 (entry_at 9) two_entries []

add_observer-logging_example :
    add_observer ◌==◌ log_call (λ es. es) (record { client_id = 9; handler = 3 }) (two_entries, [])
    ≡ done (
      tt,
      (
        record two_entries {
          observers = two_observers ++ record { client_id = 9; handler = 3 } ∷ [];
        },
        (3, 3, entry_at 1) ∷ (3, 4, entry_at 2) ∷ [],
      ),
    )
add_observer-logging_example =
    add_observer-logging ◌==◌ equality not_four (λ es. es) (record { client_id = 9; handler = 3 })
      two_entries []

set_entry_comm_example :
    (s : DataStore ℕ ℕ) × (t : DataStore ℕ ℕ) × (u : List (Call ℕ ℕ)) × (v : List (Call ℕ ℕ))
    × ((set_entry ◌==◌ log_call 3 (entry_at 9) >>= λ _. set_entry ◌==◌ log_call 5 (entry_at 8))
          (two_entries, [])
        ≡ done (tt, (s, u)))
    × ((set_entry ◌==◌ log_call 5 (entry_at 8) >>= λ _. set_entry ◌==◌ log_call 3 (entry_at 9))
          (two_entries, [])
        ≡ done (tt, (t, v)))
    × (contents ◌==◌ equality log_call s ≡ contents ◌==◌ equality log_call t)
set_entry_comm_example =
    set_entry_comm ◌==◌ equality log_call
      (record { back = λ h k e w. (not_four h k e, h, w ++ (h, k, e) ∷ [], refl) }) 3 5 (entry_at 9)
      (entry_at 8) two_entries [] (λ e. omega (arith, e))

-- The same entries in the other order.
abbrev entries_swapped : DataStore ℕ ℕ
entries_swapped = record two_entries { entries = (4, entry_at 2) ∷ (3, entry_at 1) ∷ [] }

two_entries-Unique : Unique ◌==◌ equality log_call two_entries.entries
unfolding lookup
two_entries-Unique = (refl, (refl, tt))

entries_swapped-Unique : Unique ◌==◌ equality log_call entries_swapped.entries
unfolding lookup
entries_swapped-Unique = (refl, (refl, tt))

get_entry-Perm_iff_example :
    ((k : ℕ) → get_entry ◌==◌ log_call k two_entries ≡ get_entry ◌==◌ log_call k entries_swapped)
    ↔ Perm two_entries.entries entries_swapped.entries
get_entry-Perm_iff_example =
    get_entry-Perm_iff ◌==◌ equality log_call two_entries entries_swapped two_entries-Unique
      entries_swapped-Unique
