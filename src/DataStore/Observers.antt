-- ===== src/DataStore/Observers.antt =====
-- Whom the data store tells what, and whom it forgets.
use gnat.Base.{
  ℕ, ◌≡◌, refl, ap, sym, ◌∙◌, ◌≢◌, List, [], ◌∷◌, ◌++◌, Bool, ◌==◌, ==_iff, Bool-cases, inl, inr,
  if◌then◌else◌,
}
use gnat.Base.Outcome.{done, Prog, step, and_then-done}
use gnat.DataStore.Entries.{IsEquality, set_entry-notified}
use gnat.DataStore.{
  DataStore, DataStoreEntry, ObserverEntry, notify_loop, replay_loop, remove_client, erase,
  set_entry, add_observer,
}
use mathlib.Core.List.{append-nil, append_assoc}

-- A handler's call, as it is logged.
abbrev pub Call : Type 0 → Type 0 → Type 0
Call K H = H × K × DataStoreEntry

module _ {K H : Type 0} (same : K → K → Bool) (result : H → K → DataStoreEntry → Bool) where
  -- Handlers that log their calls, and answer as `result` says.
  abbrev pub logging : H → K → DataStoreEntry → Prog (List (Call K H)) (Bool × H)
  logging handler key value log =
      done ((result handler key value, handler), log ++ (handler, key, value) ∷ [])

  -- A call for each observer, in the order of the list.
  abbrev pub calls_for : K → DataStoreEntry → List (ObserverEntry H) → List (Call K H)
  calls_for key value [] = []
  calls_for key value (o ∷ rest) = (o.handler, key, value) ∷ calls_for key value rest

  -- A call for each entry.
  abbrev pub calls_of : H → List (K × DataStoreEntry) → List (Call K H)
  calls_of handler [] = []
  calls_of handler ((k, e) ∷ rest) = (handler, k, e) ∷ calls_of handler rest

  -- NotifyObservers calls every handler once and in order, even after one that returned false.
  pub notify_loop-logging :
      (key : K) (value : DataStoreEntry) (observers : List (ObserverEntry H))
      (log : List (Call K H))
      → notify_loop same logging key value observers log
        ≡ done (observers, log ++ calls_for key value observers)
  unfolding notify_loop
  notify_loop-logging key value [] log =
      ap (λ (l : List (Call K H)). done ([], l)) (sym (append-nil log))
  notify_loop-logging key value (o ∷ rest) log = step _ _ refl (
      step _ _ (notify_loop-logging key value rest (log ++ (o.handler, key, value) ∷ [])) (
        ap (λ (l : List (Call K H)). done (o ∷ rest, l))
          (append_assoc log ((o.handler, key, value) ∷ []) (calls_for key value rest))))

  pub replay_loop-logging :
      (handler : H) (entries : List (K × DataStoreEntry)) (log : List (Call K H))
      → replay_loop same logging handler entries log
        ≡ done (handler, log ++ calls_of handler entries)
  unfolding replay_loop
  replay_loop-logging handler [] log =
      ap (λ (l : List (Call K H)). done (handler, l)) (sym (append-nil log))
  replay_loop-logging handler ((k, e) ∷ rest) log = step _ _ refl (
      replay_loop-logging handler rest (log ++ (handler, k, e) ∷ [])
      ∙ ap (λ (l : List (Call K H)). done (handler, l))
          (append_assoc log ((handler, k, e) ∷ []) (calls_of handler rest)))

-- The observers of one client.
abbrev pub observers_of : {H : Type 0} → ℕ → List (ObserverEntry H) → List (ObserverEntry H)
observers_of client [] = []
observers_of client (o ∷ rest) =
    if o.client_id == client then o ∷ observers_of client rest else observers_of client rest

-- After RemoveObserversForClient the client has no observer.
pub remove_client_self :
    {H : Type 0} (client : ℕ) (os : List (ObserverEntry H))
    → observers_of client (remove_client client os) ≡ []
unfolding remove_client
remove_client_self client [] = refl
remove_client_self client (o ∷ rest) = elim (Bool-cases (o.client_id == client)) [
  | inl gone ↦ rw gone (remove_client_self client rest)
  | inr kept ↦ rw (kept, kept) (remove_client_self client rest)
]

-- RemoveObserversForClient leaves the observers of every other client, in their order.
pub remove_client-other :
    {H : Type 0} (client other : ℕ) (os : List (ObserverEntry H))
    → client ≢ other
    → observers_of other (remove_client client os) ≡ observers_of other os
unfolding remove_client
remove_client-other client other [] h = refl
remove_client-other client other (o ∷ rest) h = elim (Bool-cases (o.client_id == client)) [
  | inl gone ↦ elim (Bool-cases (o.client_id == other)) [
    | inl both ↦
        absurd (h (sym ((==_iff o.client_id client).0 gone) ∙ (==_iff o.client_id other).0 both))
    | inr differ ↦ rw (gone, differ) (remove_client-other client other rest h)
  ]
  | inr kept ↦ elim (Bool-cases (o.client_id == other)) [
    | inl here ↦ rw (kept, here) (ap (◌∷◌ o) (remove_client-other client other rest h))
    | inr differ ↦ rw (kept, differ) (remove_client-other client other rest h)
  ]
]

-- Set and AddObserver with handlers that log their calls.
module _ {K H : Type 0} (same : K → K → Bool) (equality : IsEquality same)
    (result : H → K → DataStoreEntry → Bool) where
  -- With a key equality that decides and handlers that log their calls and return any Boolean, Set
  -- replaces the entry of the key and calls the handler of every observer once, in the order of
  -- the list, with the key and the new entry.
  pub set_entry-logging :
      (key : K) (entry : DataStoreEntry) (store : DataStore K H) (log : List (Call K H))
      → set_entry same (logging same result) key entry (store, log)
        ≡ done (
          tt,
          (
            record store {
              entries = (key, entry) ∷ erase same (logging same result) key store.entries;
            },
            log ++ calls_for same result key entry store.observers,
          ),
        )
  set_entry-logging key entry store log =
      set_entry-notified same equality (logging same result) key entry store log
        (notify_loop-logging same result key entry store.observers log)

  -- With a key equality that decides and handlers that log their calls, AddObserver puts the
  -- observer behind the others, calls its handler once for every entry in the map's order, and
  -- calls no other handler.
  pub add_observer-logging :
      (order : List (K × DataStoreEntry) → List (K × DataStoreEntry)) (observer : ObserverEntry H)
      (store : DataStore K H) (log : List (Call K H))
      → add_observer same (logging same result) order observer (store, log)
        ≡ done (
          tt,
          (
            record store { observers = store.observers ++ observer ∷ [] },
            log ++ calls_of same result observer.handler (order store.entries),
          ),
        )
  unfolding add_observer
  add_observer-logging order observer store log =
      and_then-done _ _ (replay_loop-logging same result observer.handler (order store.entries) log)
        refl
