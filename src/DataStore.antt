-- ===== src/DataStore.antt =====
-- DataStoreEntry and the class DataStore (include/gnat/datastore.h, lines 13 to 82).
pub mod Entries
pub mod Observers
pub mod Running
pub mod Refinement
pub mod Contents
pub mod Order
use gnat.Base.{ℕ, List, [], ◌∷◌, ◌++◌, Bool, Option, none, some, ◌==◌, if◌then◌else◌}
use gnat.Base.Outcome.{Outcome, done, thrown, Prog, pure, and_then, ◌>>=◌}

pub record DataStoreEntry : Type 0 where
  pub bytes : List ℕ
  pub size : ℕ
  pub timestamp : ℕ

-- DataStoreEntry().
abbrev pub new_entry : DataStoreEntry
new_entry = record { bytes = []; size = 0; timestamp = 0 }

-- A handler is a closure: what it captured, of type `H`.
pub record ObserverEntry (H : Type 0) : Type 0 where
  pub client_id : ℕ
  pub handler : H

-- `entries` is the std::unordered_map, at most one entry to a key; `observers` the std::list.
pub record DataStore (K H : Type 0) : Type 0 where
  pub entries : List (K × DataStoreEntry)
  pub observers : List (ObserverEntry H)

-- `same` is the map's equality of keys. `call` runs a handler, in the world `W`: it returns its
-- bool and what its captured variables are then.
module _ {K H W : Type 0} (same : K → K → Bool)
    (call : H → K → DataStoreEntry → Prog W (Bool × H)) where
  abbrev Entries : Type 0
  Entries = List (K × DataStoreEntry)

  -- `find` of the map.
  unfoldable pub lookup : K → Entries → Option DataStoreEntry
  lookup key [] = none
  lookup key ((k, e) ∷ rest) = if same k key then some e else lookup key rest

  unfoldable pub erase : K → Entries → Entries
  erase key [] = []
  erase key ((k, e) ∷ rest) =
      let others = erase key rest in if same k key then others else (k, e) ∷ others

  -- `emplace` does nothing where the key is there.
  unfoldable pub emplace : K → DataStoreEntry → Entries → Entries
  unfolding lookup
  emplace key entry entries = elim (lookup key entries) [
    | none ↦ (key, entry) ∷ entries
    | some e ↦ entries
  ]

  -- The loop of NotifyObservers: every handler in the order of the list, their results dropped.
  unfoldable pub notify_loop :
      K → DataStoreEntry → List (ObserverEntry H) → Prog W (List (ObserverEntry H))
  notify_loop key value [] = pure []
  notify_loop key value (observer ∷ rest) = call observer.handler key value >>= λ (result, handler).
      notify_loop key value rest >>= λ rest'. pure (record observer { handler = handler } ∷ rest')

  -- `entries_[key]` makes an empty entry where there is none.
  unfoldable pub index : K → Entries → DataStoreEntry × Entries
  unfolding lookup
  index key entries = elim (lookup key entries) [
    | none ↦ (new_entry, (key, new_entry) ∷ entries)
    | some e ↦ (e, entries)
  ]

  unfoldable pub notify_observers : K → Prog (DataStore K H × W) (Unit {0})
  unfolding notify_loop index
  notify_observers key (store, w) =
      let (value, entries) = index key store.entries in
      and_then (notify_loop key value store.observers w)
        λ (observers, w'). done (tt, (record { entries = entries; observers = observers }, w'))

  -- Set.
  unfoldable pub set_entry : K → DataStoreEntry → Prog (DataStore K H × W) (Unit {0})
  unfolding notify_observers erase emplace
  set_entry key entry (store, w) =
      notify_observers key
        (record store { entries = emplace key entry (erase key store.entries) }, w)

  -- Get: `at` throws std::out_of_range.
  unfoldable pub get_entry : K → DataStore K H → Outcome DataStoreEntry
  unfolding lookup
  get_entry key store = elim (lookup key store.entries) [ none ↦ thrown | some e ↦ done e ]

  -- The loop of AddObserver over the map.
  unfoldable pub replay_loop : H → Entries → Prog W H
  replay_loop handler [] = pure handler
  replay_loop handler ((k, e) ∷ rest) =
      call handler k e >>= λ (result, handler'). replay_loop handler' rest

  -- AddObserver. `order` is the order in which the map iterates, which C++ leaves open.
  unfoldable pub add_observer :
      (Entries → Entries) → ObserverEntry H → Prog (DataStore K H × W) (Unit {0})
  unfolding replay_loop
  add_observer order observer (store, w) =
      and_then (replay_loop observer.handler (order store.entries) w) λ (handler, w'). done (
        tt,
        (
          record store {
            observers = store.observers ++ record observer { handler = handler } ∷ [];
          },
          w',
        ),
      )

-- RemoveObserversForClient.
unfoldable pub remove_client : {H : Type 0} → ℕ → List (ObserverEntry H) → List (ObserverEntry H)
remove_client client_id [] = []
remove_client client_id (o ∷ rest) =
    let others = remove_client client_id rest in
    if o.client_id == client_id then others else o ∷ others

unfoldable pub remove_observers_for_client : {K H : Type 0} → ℕ → DataStore K H → DataStore K H
unfolding remove_client
remove_observers_for_client client_id store = record store {
  observers = remove_client client_id store.observers;
}
