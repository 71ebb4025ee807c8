-- ===== src/DataStore/Contents.antt =====
-- What a data store holds, with the order of its map forgotten.
use gnat.Base.{
  ◌≡◌, ◌≢◌, refl, sym, ap, ◌∙◌, List, Bool, Bool-cases, inl, inr, Option, none, some, if◌then◌else◌,
}
use gnat.Base.Outcome.{Prog, done, step, ◌>>=◌}
use gnat.DataStore.{DataStore, DataStoreEntry, lookup, set_entry}
use gnat.DataStore.Entries.{
  IsEquality, Returns, found_entry, set_entries, set_store, set_entry-notified, notify_loop-Returns,
  lookup-set_entries,
}
use mathlib.Core.Quot
use mathlib.Core.Quot.{Quot, Quot-set}

pub found_set : IsSet (Option DataStoreEntry)
found_set = hlevel

module _ {K H W : Type 0} (same : K → K → Bool) (equality : IsEquality same)
    (call : H → K → DataStoreEntry → Prog W (Bool × H)) where
  -- Two lists of entries in which every key finds the same.
  abbrev pub SameContents : List (K × DataStoreEntry) → List (K × DataStoreEntry) → Type 0
  SameContents xs ys = (k : K) → lookup same call k xs ≡ lookup same call k ys

  abbrev pub Contents : Type 0
  Contents = Quot SameContents

  unfoldable pub find : K → Contents → Option DataStoreEntry
  find k = Quot.lift found_set (λ es. lookup same call k es) (λ xs ys h. h k)

  -- What a data store holds.
  abbrev pub contents : DataStore K H → Contents
  contents store = Quot.mk store.entries

  pub put-same :
      (key : K) (entry : DataStoreEntry) (xs ys : List (K × DataStoreEntry))
      → SameContents xs ys
      → SameContents
          (set_entries same equality call key entry xs)
          (set_entries same equality call key entry ys)
  put-same key entry xs ys h k =
      lookup-set_entries same equality call key entry xs k
      ∙ ap (λ (o : Option DataStoreEntry). if same key k then some entry else o) (h k)
      ∙ sym (lookup-set_entries same equality call key entry ys k)

  unfoldable pub put : K → DataStoreEntry → Contents → Contents
  put key entry =
      Quot.lift Quot-set (λ es. Quot.mk (set_entries same equality call key entry es))
        (λ xs ys h. Quot.sound (put-same key entry xs ys h))

  find-put :
      (k key : K) (entry : DataStoreEntry) (m : Contents)
      → find k (put key entry m) ≡ (if same key k then some entry else find k m)
  unfolding find put
  find-put k key entry =
      Quot.ind (λ m. found_set _ _) (λ es. lookup-set_entries same equality call key entry es k)

  -- Contents in which every key finds the same are equal.
  Contents-ext : (m n : Contents) → ((k : K) → find k m ≡ find k n) → m ≡ n
  unfolding find
  Contents-ext =
      Quot.ind (λ m. hlevel (Quot-set))
        (λ xs. Quot.ind (λ n. hlevel (Quot-set)) (λ ys h. Quot.sound h))

  pub found_entry-injective :
      (o p : Option DataStoreEntry)
      → found_entry same equality call o ≡ found_entry same equality call p
      → o ≡ p
  found_entry-injective none none e = refl
  found_entry-injective none (some y) e = cc
  found_entry-injective (some x) none e = cc
  found_entry-injective (some x) (some y) e = cc

  put_comm :
      (key key' : K) (entry entry' : DataStoreEntry) (m : Contents)
      → key ≢ key'
      → put key entry (put key' entry' m) ≡ put key' entry' (put key entry m)
  put_comm key key' entry entry' m apart = Contents-ext _ _ λ k.
      rw
        (
          find-put k key entry (put key' entry' m),
          find-put k key' entry' m,
          find-put k key' entry' (put key entry m),
          find-put k key entry m,
        )
        (elim (Bool-cases (same key k)) [
          | inl this ↦ elim (Bool-cases (same key' k)) [
            | inl that ↦
                absurd (apart (equality.sound key k this ∙ sym (equality.sound key' k that)))
            | inr that ↦ rw (this, that) refl
          ]
          | inr this ↦ rw this refl
        ])

  set_entry-put :
      (returns : Returns call) (key : K) (entry : DataStoreEntry) (store : DataStore K H) (w : W)
      → (store' : DataStore K H) × (w' : W) × (set_entry same call key entry (store, w)
          ≡ done (tt, (store', w')))
        × (contents store' ≡ put key entry (contents store))
  unfolding put
  set_entry-put returns key entry store w =
      let (os, w', told) =
        notify_loop-Returns same equality call returns key entry store.observers w in
      (
        set_store same equality call key entry store.entries os,
        w',
        set_entry-notified same equality call key entry store w told,
        refl,
      )

  set_two :
      (returns : Returns call) (key key' : K) (entry entry' : DataStoreEntry)
      (store : DataStore K H) (w : W)
      → (store' : DataStore K H) × (w' : W) × ((set_entry same call key entry >>= λ _.
              set_entry same call key' entry')
            (store, w)
          ≡ done (tt, (store', w')))
        × (contents store' ≡ put key' entry' (put key entry (contents store)))
  set_two returns key key' entry entry' store w =
      let (store1, w1, ran, holds) = set_entry-put returns key entry store w in
      let (store2, w2, ran', holds') = set_entry-put returns key' entry' store1 w1 in
      (store2, w2, step _ _ ran ran', holds' ∙ ap (put key' entry') holds)

  -- With a key equality that decides and handlers that come back, two calls of Set for different
  -- keys come back in both orders, and the two data stores hold the same: they are equal in the
  -- quotient of the entries that forgets the order of the map.
  pub set_entry_comm :
      (returns : Returns call) (key key' : K) (entry entry' : DataStoreEntry)
      (store : DataStore K H) (w : W)
      → key ≢ key'
      → (s : DataStore K H) × (t : DataStore K H) × (u : W) × (v : W) × ((set_entry same call key
                entry
              >>= λ _. set_entry same call key' entry')
            (store, w)
          ≡ done (tt, (s, u)))
        × ((set_entry same call key' entry' >>= λ _. set_entry same call key entry) (store, w)
            ≡ done (tt, (t, v)))
        × (contents s ≡ contents t)
  set_entry_comm returns key key' entry entry' store w apart =
      let (s, u, ran, holds) = set_two returns key key' entry entry' store w in
      let (t, v, ran', holds') = set_two returns key' key entry' entry store w in
      (
        s,
        t,
        u,
        v,
        ran,
        ran',
        holds ∙ put_comm key' key entry' entry (contents store) (λ e. apart (sym e)) ∙ sym holds',
      )
