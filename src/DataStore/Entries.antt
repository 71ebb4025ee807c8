-- ===== src/DataStore/Entries.antt =====
-- What Set does to the entries of the data store.
use gnat.Base.{
  if◌then◌else◌, false, ◌≡◌, refl, ap, sym, ◌∙◌, ◌≢◌, List, [], ◌∷◌, Bool, true, Option, none, some,
  Bool-cases, inl, inr,
}
use gnat.Base.Outcome.{Outcome, done, thrown, Prog, step, and_then-done}
use gnat.DataStore.{
  DataStore, DataStoreEntry, ObserverEntry, lookup, erase, emplace, index, notify_loop,
  notify_observers, set_entry, get_entry,
}

-- A test of keys that decides whether they are equal.
pub record IsEquality {K : Type 0} (same : K → K → Bool) : Type 0 where
  pub self : (k : K) → same k k ≡ true
  pub sound : (k l : K) → same k l ≡ true → k ≡ l

-- Handlers that come back, with whatever result.
pub record Returns {K H W : Type 0} (call : H → K → DataStoreEntry → Prog W (Bool × H))
    : Type 0 where
  pub back :
      (h : H) (k : K) (e : DataStoreEntry) (w : W)
      → (b : Bool) × (h' : H) × (w' : W) × (call h k e w ≡ done ((b, h'), w'))

module _ {K H W : Type 0} (same : K → K → Bool) (equality : IsEquality same)
    (call : H → K → DataStoreEntry → Prog W (Bool × H)) where
  -- At most one entry to a key.
  abbrev pub Unique : List (K × DataStoreEntry) → Type 0
  Unique [] = Unit {0}
  Unique ((k, e) ∷ rest) = (lookup same call k rest ≡ none) × Unique rest

  pub lookup-erase_self :
      (key : K) (es : List (K × DataStoreEntry))
      → lookup same call key (erase same call key es) ≡ none
  unfolding lookup erase
  lookup-erase_self key [] = refl
  lookup-erase_self key ((k, e) ∷ rest) = elim (Bool-cases (same k key)) [
    | inl found ↦ rw found (lookup-erase_self key rest)
    | inr other ↦ rw (other, other) (lookup-erase_self key rest)
  ]

  pub lookup-erase_other :
      (key other : K) (es : List (K × DataStoreEntry))
      → key ≢ other
      → lookup same call other (erase same call key es) ≡ lookup same call other es
  unfolding lookup erase
  lookup-erase_other key other [] h = refl
  lookup-erase_other key other ((k, e) ∷ rest) h = elim (Bool-cases (same k key)) [
    | inl found ↦ elim (Bool-cases (same k other)) [
      | inl both ↦ absurd (h (sym (equality.sound k key found) ∙ equality.sound k other both))
      | inr differ ↦ rw (found, differ) (lookup-erase_other key other rest h)
    ]
    | inr kept ↦ elim (Bool-cases (same k other)) [
      | inl here ↦ rw (kept, here)
      | inr differ ↦ rw (kept, differ) (lookup-erase_other key other rest h)
    ]
  ]

  lookup-erase-none :
      (key other : K) (es : List (K × DataStoreEntry))
      → lookup same call other es ≡ none
      → lookup same call other (erase same call key es) ≡ none
  unfolding lookup erase
  lookup-erase-none key other [] h = refl
  lookup-erase-none key other ((k, e) ∷ rest) h = elim (Bool-cases (same k other)) [
    | inl here ↦ cc (here, h)
    | inr differ ↦
        let below : lookup same call other rest ≡ none = rw differ at h in
        elim (Bool-cases (same k key)) [
          | inl found ↦ rw found (lookup-erase-none key other rest below)
          | inr kept ↦ rw (kept, differ) (lookup-erase-none key other rest below)
        ]
  ]

  pub erase-Unique :
      (key : K) (es : List (K × DataStoreEntry)) → Unique es → Unique (erase same call key es)
  unfolding erase
  erase-Unique key [] u = tt
  erase-Unique key ((k, e) ∷ rest) (fresh, u) = elim (Bool-cases (same k key)) [
    | inl found ↦ rw found (erase-Unique key rest u)
    | inr kept ↦ rw kept (lookup-erase-none key k rest fresh, erase-Unique key rest u)
  ]

  -- What Set leaves of the entries.
  abbrev pub set_entries :
      K → DataStoreEntry → List (K × DataStoreEntry) → List (K × DataStoreEntry)
  set_entries key entry es = (key, entry) ∷ erase same call key es

  pub emplace-erased :
      (key : K) (entry : DataStoreEntry) (es : List (K × DataStoreEntry))
      → emplace same call key entry (erase same call key es) ≡ set_entries key entry es
  unfolding emplace
  emplace-erased key entry es = rw (emplace, lookup-erase_self key es)

  pub lookup-set_self :
      (key : K) (entry : DataStoreEntry) (es : List (K × DataStoreEntry))
      → lookup same call key (set_entries key entry es) ≡ some entry
  unfolding lookup
  lookup-set_self key entry es = rw (equality.self key)

  pub lookup-set_other :
      (key other : K) (entry : DataStoreEntry) (es : List (K × DataStoreEntry))
      → key ≢ other
      → lookup same call other (set_entries key entry es) ≡ lookup same call other es
  unfolding lookup
  lookup-set_other key other entry es h = elim (Bool-cases (same key other)) [
    | inl equal ↦ absurd (h (equality.sound key other equal))
    | inr differ ↦ rw differ (lookup-erase_other key other es h)
  ]

  pub key-differs : (key k : K) → same key k ≡ false → key ≢ k
  key-differs key k differ e =
      let again : same key key ≡ true = equality.self key in
      let both : same key k ≡ true = rw (sym e) again in cc

  pub lookup-set_entries :
      (key : K) (entry : DataStoreEntry) (es : List (K × DataStoreEntry)) (k : K)
      → lookup same call k (set_entries key entry es)
        ≡ (if same key k then some entry else lookup same call k es)
  lookup-set_entries key entry es k = elim (Bool-cases (same key k)) [
    | inl equal ↦ rw (equal, sym (equality.sound key k equal)) (lookup-set_self key entry es)
    | inr differ ↦ rw differ (lookup-set_other key k entry es (key-differs key k differ))
  ]

  -- What `at` makes of what was found.
  abbrev pub found_entry : Option DataStoreEntry → Outcome DataStoreEntry
  found_entry o = elim o [ none ↦ thrown | some e ↦ done e ]

  pub index-set :
      (key : K) (entry : DataStoreEntry) (es : List (K × DataStoreEntry))
      → index same call key (set_entries key entry es) ≡ (entry, set_entries key entry es)
  unfolding index lookup
  index-set key entry es = rw (index, lookup-set_self key entry es)

  -- The data store that Set leaves.
  abbrev pub set_store :
      K → DataStoreEntry → List (K × DataStoreEntry) → List (ObserverEntry H) → DataStore K H
  set_store key entry es observers = record {
    entries = set_entries key entry es;
    observers = observers;
  }

  -- Set, once its handlers have run.
  pub set_entry-notified :
      (key : K) (entry : DataStoreEntry) (store : DataStore K H) (w : W)
      {observers : List (ObserverEntry H)} {w' : W}
      → notify_loop same call key entry store.observers w ≡ done (observers, w')
      → set_entry same call key entry (store, w)
        ≡ done (tt, (set_store key entry store.entries observers, w'))
  unfolding set_entry notify_observers
  set_entry-notified key entry store w notified =
      rw (emplace-erased key entry store.entries, index-set key entry store.entries)
        (and_then-done _ _ notified refl)

  pub get_entry-set_self :
      (key : K) (entry : DataStoreEntry) (es : List (K × DataStoreEntry))
      (observers : List (ObserverEntry H))
      → get_entry same call key (set_store key entry es observers) ≡ done entry
  unfolding get_entry
  get_entry-set_self key entry es observers = ap found_entry (lookup-set_self key entry es)

  pub get_entry-set_other :
      (key other : K) (entry : DataStoreEntry) (store : DataStore K H)
      (observers : List (ObserverEntry H))
      → key ≢ other
      → get_entry same call other (set_store key entry store.entries observers)
        ≡ get_entry same call other store
  unfolding get_entry
  get_entry-set_other key other entry store observers h =
      ap found_entry (lookup-set_other key other entry store.entries h)

  pub notify_loop-Returns :
      (returns : Returns call) (key : K) (entry : DataStoreEntry) (os : List (ObserverEntry H))
      (w : W)
      → (os' : List (ObserverEntry H)) × (w' : W) × (notify_loop same call key entry os w
          ≡ done (os', w'))
  unfolding notify_loop
  notify_loop-Returns returns key entry [] w = ([], w, refl)
  notify_loop-Returns returns key entry (o ∷ rest) w =
      let (b, h, w1, called) = returns.back o.handler key entry w in
      let (os, w2, later) = notify_loop-Returns returns key entry rest w1 in
      (record o { handler = h } ∷ os, w2, step _ _ called (step _ _ later refl))

  -- With a key equality that decides and handlers that come back, Set on a data store with at most
  -- one entry to a key comes back; then Get of the key gives the entry that was set, Get of every
  -- other key is as before, and there is still at most one entry to a key.
  pub set_entry-get :
      (returns : Returns call) (key : K) (entry : DataStoreEntry) (store : DataStore K H) (w : W)
      → Unique store.entries
      → (store' : DataStore K H) × (w' : W) × (set_entry same call key entry (store, w)
          ≡ done (tt, (store', w')))
        × (get_entry same call key store' ≡ done entry)
        × ((other : K)
            → key ≢ other
            → get_entry same call other store' ≡ get_entry same call other store)
        × Unique store'.entries
  unfolding get_entry
  set_entry-get returns key entry store w u =
      let (os, w', notified) = notify_loop-Returns returns key entry store.observers w in
      (
        set_store key entry store.entries os,
        w',
        set_entry-notified key entry store w notified,
        get_entry-set_self key entry store.entries os,
        λ other h. get_entry-set_other key other entry store os h,
        (lookup-erase_self key store.entries, erase-Unique key store.entries u),
      )
