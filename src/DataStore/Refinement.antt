-- ===== src/DataStore/Refinement.antt =====
-- The data store against its specification: a function from keys to entries, and the list of the
-- clients that observe.
use gnat.Base.{
  ℕ, ◌≡◌, refl, ap, ◌∙◌, List, [], ◌∷◌, ◌++◌, Bool, Option, some, ◌==◌, Bool-cases, inl, inr,
  if◌then◌else◌,
}
use gnat.Base.Outcome.{Prog, done, pure, step, and_then-done, ◌>>=◌}
use gnat.DataStore.{
  DataStore, DataStoreEntry, ObserverEntry, lookup, notify_loop, replay_loop, set_entry,
  add_observer, remove_client, remove_observers_for_client,
}
use gnat.DataStore.Entries.{
  IsEquality, Returns, Unique, set_store, set_entry-notified, lookup-erase_self, lookup-set_entries,
  erase-Unique,
}

-- What a program does with a data store.
pub data Op (K H : Type 0) : Type 0 where
  set : K → DataStoreEntry → Op K H
  observe : ObserverEntry H → Op K H
  forget : ℕ → Op K H

-- The clients of the observers.
abbrev pub clients : {H : Type 0} → List (ObserverEntry H) → List ℕ
clients [] = []
clients (o ∷ rest) = o.client_id ∷ clients rest

abbrev pub without : ℕ → List ℕ → List ℕ
without client [] = []
without client (c ∷ rest) = if c == client then without client rest else c ∷ without client rest

clients-append :
    {H : Type 0} (xs ys : List (ObserverEntry H)) → clients (xs ++ ys) ≡ clients xs ++ clients ys
clients-append [] ys = refl
clients-append (x ∷ xs) ys = ap (◌∷◌ x.client_id) (clients-append xs ys)

clients-remove_client :
    {H : Type 0} (client : ℕ) (os : List (ObserverEntry H))
    → clients (remove_client client os) ≡ without client (clients os)
unfolding remove_client
clients-remove_client client [] = refl
clients-remove_client client (o ∷ rest) = elim (Bool-cases (o.client_id == client)) [
  | inl gone ↦ rw gone (clients-remove_client client rest)
  | inr kept ↦ rw kept (ap (◌∷◌ o.client_id) (clients-remove_client client rest))
]

module _ {K H W : Type 0} (same : K → K → Bool) (equality : IsEquality same)
    (call : H → K → DataStoreEntry → Prog W (Bool × H))
    (order : List (K × DataStoreEntry) → List (K × DataStoreEntry)) where
  unfoldable pub perform : Op K H → Prog (DataStore K H × W) (Unit {0})
  perform (set key entry) = set_entry same call key entry
  perform (observe o) = add_observer same call order o
  perform (forget client) = λ s. done (tt, (remove_observers_for_client client s.0, s.1))

  unfoldable pub run : List (Op K H) → Prog (DataStore K H × W) (Unit {0})
  unfolding perform
  run [] = pure tt
  run (op ∷ ops) = perform op >>= λ _. run ops

  -- The specification: the entries as a function, and the observing clients.
  pub record View : Type 0 where
    pub entry_of : K → Option DataStoreEntry
    pub observing : List ℕ

  abbrev pub perform_view : Op K H → View → View
  perform_view (set key entry) v = record v {
    entry_of = λ k. if same key k then some entry else v.entry_of k;
  }
  perform_view (observe o) v = record v { observing = v.observing ++ o.client_id ∷ [] }
  perform_view (forget client) v = record v { observing = without client v.observing }

  abbrev pub run_view : List (Op K H) → View → View
  run_view [] v = v
  run_view (op ∷ ops) v = run_view ops (perform_view op v)

  -- A data store that looks like a view, with at most one entry to a key.
  pub record Shows (store : DataStore K H) (v : View) : Type 0 where
    pub entries : (k : K) → lookup same call k store.entries ≡ v.entry_of k
    pub observing : clients store.observers ≡ v.observing
    pub unique : Unique same equality call store.entries

  notify_loop-clients :
      (returns : Returns call) (key : K) (entry : DataStoreEntry) (os : List (ObserverEntry H))
      (w : W)
      → (os' : List (ObserverEntry H)) × (w' : W) × (notify_loop same call key entry os w
          ≡ done (os', w'))
        × (clients os' ≡ clients os)
  unfolding notify_loop
  notify_loop-clients returns key entry [] w = ([], w, refl, refl)
  notify_loop-clients returns key entry (o ∷ rest) w =
      let (b, h, w1, called) = returns.back o.handler key entry w in
      let (os, w2, later, ids) = notify_loop-clients returns key entry rest w1 in
      (
        record o { handler = h } ∷ os,
        w2,
        step _ _ called (step _ _ later refl),
        ap (◌∷◌ o.client_id) ids,
      )

  replay_loop-Returns :
      (returns : Returns call) (h : H) (es : List (K × DataStoreEntry)) (w : W)
      → (h' : H) × (w' : W) × (replay_loop same call h es w ≡ done (h', w'))
  unfolding replay_loop
  replay_loop-Returns returns h [] w = (h, w, refl)
  replay_loop-Returns returns h ((k, e) ∷ rest) w =
      let (b, h1, w1, called) = returns.back h k e w in
      let (h2, w2, later) = replay_loop-Returns returns h1 rest w1 in
      (h2, w2, step _ _ called later)

  perform-Shows :
      (returns : Returns call) (op : Op K H) (store : DataStore K H) (w : W) (v : View)
      → Shows store v
      → (store' : DataStore K H) × (w' : W) × (perform op (store, w) ≡ done (tt, (store', w')))
        × Shows store' (perform_view op v)
  unfolding perform add_observer remove_observers_for_client
  perform-Shows returns (set key entry) store w v s =
      let (os, w', told, ids) = notify_loop-clients returns key entry store.observers w in
      (
        set_store same equality call key entry store.entries os,
        w',
        set_entry-notified same equality call key entry store w told,
        record {
          entries = λ k.
              lookup-set_entries same equality call key entry store.entries k
              ∙ ap (λ (o : Option DataStoreEntry). if same key k then some entry else o)
                  (s.entries k);
          observing = ids ∙ s.observing;
          unique = (
            lookup-erase_self same equality call key store.entries,
            erase-Unique same equality call key store.entries s.unique,
          );
        },
      )
  perform-Shows returns (observe o) store w v s =
      let (h, w', told) = replay_loop-Returns returns o.handler (order store.entries) w in
      (
        record store { observers = store.observers ++ record o { handler = h } ∷ [] },
        w',
        and_then-done _ _ told refl,
        record {
          entries = s.entries;
          observing =
              clients-append store.observers (record o { handler = h } ∷ [])
              ∙ ap (λ (ids : List ℕ). ids ++ o.client_id ∷ []) s.observing;
          unique = s.unique;
        },
      )
  perform-Shows returns (forget client) store w v s = (
    remove_observers_for_client client store,
    w,
    refl,
    record {
      entries = s.entries;
      observing = clients-remove_client client store.observers ∙ ap (without client) s.observing;
      unique = s.unique;
    },
  )

  -- With a key equality that decides and handlers that come back, any sequence of Set, AddObserver
  -- and RemoveObserversForClient comes back, and refines the specification in which the entries
  -- are a function from keys and the observers the list of their clients: where the data store
  -- showed a view before, with at most one entry to a key, it shows after it what the
  -- specification makes of that view.
  pub run-Shows :
      (returns : Returns call) (ops : List (Op K H)) (store : DataStore K H) (w : W) (v : View)
      → Shows store v
      → (store' : DataStore K H) × (w' : W) × (run ops (store, w) ≡ done (tt, (store', w')))
        × Shows store' (run_view ops v)
  unfolding run
  run-Shows returns [] store w v s = (store, w, refl, s)
  run-Shows returns (op ∷ ops) store w v s =
      let (store1, w1, ran, shown) = perform-Shows returns op store w v s in
      let (store2, w2, ran', shown') = run-Shows returns ops store1 w1 (perform_view op v) shown in
      (store2, w2, step _ _ ran ran', shown')
