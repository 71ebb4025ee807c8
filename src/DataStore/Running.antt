-- ===== src/DataStore/Running.antt =====
-- What Set and AddObserver do to the entries, with any handlers.
use gnat.Base.{◌≡◌, refl, List, [], ◌∷◌, All, Bool, Bool-cases, inl, inr, length}
use gnat.Base.Outcome.{Prog}
use gnat.Base.Ensures.{Any, Ensures, Ensures-done, Ensures-bind, Ensures-and_then}
use gnat.DataStore.{
  DataStore, DataStoreEntry, ObserverEntry, erase, notify_loop, notify_observers, set_entry,
  replay_loop, add_observer,
}
use gnat.DataStore.Entries.{
  IsEquality, Unique, erase-Unique, lookup-erase_self, set_entries, emplace-erased, index-set,
}

-- An entry whose array has the size that is written beside it.
abbrev pub IsSized : {K : Type 0} → K × DataStoreEntry → Type 0
IsSized (k, e) = length e.bytes ≡ e.size

module _ {K H W : Type 0} (same : K → K → Bool) (equality : IsEquality same)
    (call : H → K → DataStoreEntry → Prog W (Bool × H)) where
  -- A well-formed map: at most one entry to a key, and every size is right.
  pub record IsMap (es : List (K × DataStoreEntry)) : Type 0 where
    pub unique : Unique same equality call es
    pub sized : All IsSized es

  erase-IsSized :
      (key : K) (es : List (K × DataStoreEntry))
      → All IsSized es
      → All IsSized (erase same call key es)
  unfolding erase
  erase-IsSized key [] h = tt
  erase-IsSized key ((k, e) ∷ rest) (h, hs) = elim (Bool-cases (same k key)) [
    | inl found ↦ rw found (erase-IsSized key rest hs)
    | inr kept ↦ rw kept (h, erase-IsSized key rest hs)
  ]

  pub set_entries-IsMap :
      (key : K) (entry : DataStoreEntry) (es : List (K × DataStoreEntry))
      → length entry.bytes ≡ entry.size
      → IsMap es
      → IsMap (set_entries same equality call key entry es)
  set_entries-IsMap key entry es h m = record {
    unique = (
      lookup-erase_self same equality call key es,
      erase-Unique same equality call key es m.unique,
    );
    sized = (h, erase-IsSized key es m.sized);
  }

  module _ (stuck : Type 0)
      (returns : (h : H) (k : K) (e : DataStoreEntry) (w : W)
        → Ensures stuck Any (call h k e w)) where
    notify_loop-Any :
        (key : K) (value : DataStoreEntry) (os : List (ObserverEntry H)) (w : W)
        → Ensures stuck Any (notify_loop same call key value os w)
    unfolding notify_loop
    notify_loop-Any key value [] w = Ensures-done stuck Any tt
    notify_loop-Any key value (o ∷ rest) w =
        Ensures-bind stuck Any Any _ _ w (returns o.handler key value w) λ r u q.
          Ensures-bind stuck Any Any _ _ u (notify_loop-Any key value rest u)
            λ os v x. Ensures-done stuck Any tt

    replay_loop-Any :
        (handler : H) (es : List (K × DataStoreEntry)) (w : W)
        → Ensures stuck Any (replay_loop same call handler es w)
    unfolding replay_loop
    replay_loop-Any handler [] w = Ensures-done stuck Any tt
    replay_loop-Any handler ((k, e) ∷ rest) w =
        Ensures-bind stuck Any Any _ _ w (returns handler k e w)
          λ (result, handler') u q. replay_loop-Any handler' rest u

    -- The entries after a run.
    abbrev pub HasEntries : List (K × DataStoreEntry) → Unit {0} × (DataStore K H × W) → Type 0
    HasEntries es (x, (store, w)) = store.entries ≡ es

    pub set_entry-HasEntries :
        (key : K) (entry : DataStoreEntry) (store : DataStore K H) (w : W)
        → Ensures stuck
            (HasEntries (set_entries same equality call key entry store.entries))
            (set_entry same call key entry (store, w))
    unfolding set_entry notify_observers
    set_entry-HasEntries key entry store w =
        rw
          (
            emplace-erased same equality call key entry store.entries,
            index-set same equality call key entry store.entries,
          )
          (Ensures-and_then stuck Any
            (HasEntries (set_entries same equality call key entry store.entries)) _ _
            (notify_loop-Any key entry store.observers w)
            (λ (os, w') q.
              Ensures-done stuck
                (HasEntries (set_entries same equality call key entry store.entries)) refl))

    pub add_observer-HasEntries :
        (order : List (K × DataStoreEntry) → List (K × DataStoreEntry)) (o : ObserverEntry H)
        (store : DataStore K H) (w : W)
        → Ensures stuck (HasEntries store.entries) (add_observer same call order o (store, w))
    unfolding add_observer
    add_observer-HasEntries order o store w =
        Ensures-and_then stuck Any (HasEntries store.entries) _ _
          (replay_loop-Any o.handler (order store.entries) w)
          (λ (h, w') q. Ensures-done stuck (HasEntries store.entries) refl)
