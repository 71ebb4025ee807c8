-- ===== src/Server/Reaching.antt =====
-- The server over any sequence of packets, and what holds of every run of HandleMessage.
use gnat.Base.{ℕ, ◌≡◌, ◌≢◌, sym, List, false}
use gnat.Base.Outcome.{Prog, done, out_of_fuel}
use gnat.Base.Ensures.{Ensures-equal, Ensures-stuck}
use gnat.Connection.{ClientConnection}
use gnat.DataStore.{DataStore, DataStoreEntry, remove_observers_for_client}
use gnat.DataStore.Entries.{IsEquality}
use gnat.DataStore.Running.{IsMap}
use gnat.Key.{KeyType}
use gnat.Packet.Shrinking.{Exact}
use gnat.Proto3.Connect.{Connect}
use gnat.Server.Ending.{Ends}
use gnat.Server.Handling.{handle_message}
use gnat.Server.Keeping.{Kept}
use gnat.Server.Keeping.Handling.{handle_message-Kept}
use gnat.Server.Observer.{notify}
use gnat.Server.State.{Broker, Subscription}
use gnat.Status.{Status, is_ok}

-- With no condition on fuel, every run may run out of it.
unlimited :
    {K C W : Type 0} (keys : KeyType K) (conn : ClientConnection C W) (timestamp : Prog W ℕ)
    → Ends (Unit {0}) keys conn timestamp
unlimited keys conn timestamp = record {
  read = λ n s e. tt;
  write = λ bytes s e. tt;
  write_partial = λ bytes s e. tt;
  close = λ s e. tt;
  copy = λ s e. tt;
  encode = λ bytes n e. tt;
  decode = λ key out e. tt;
  time = λ w e. tt;
}

module _ {K C W : Type 0} (keys : KeyType K) (equality : IsEquality keys.same)
    (conn : ClientConnection C W) (timestamp : Prog W ℕ)
    (order : List (K × DataStoreEntry) → List (K × DataStoreEntry)) (memory : Connect) where
  kept :
      (b : Broker K C W) (st : Status) (b' : Broker K C W)
      → handle_message keys conn timestamp order memory b ≡ done (st, b')
      → Kept (Unit {0}) keys equality conn timestamp (unlimited keys conn timestamp) b st b'
  kept b st b' e =
      Ensures-equal (Unit {0})
        (λ (t, c).
          Kept (Unit {0}) keys equality conn timestamp (unlimited keys conn timestamp) b t c)
        (handle_message keys conn timestamp order memory b) e
        (handle_message-Kept (Unit {0}) keys equality conn timestamp (unlimited keys conn timestamp)
          order memory b)

  -- With a key equality that decides, a run of HandleMessage on any packet that comes back with a
  -- status other than Ok has left the data store as it was.
  pub handle_message-failure :
      (b : Broker K C W) (st : Status) (b' : Broker K C W)
      → handle_message keys conn timestamp order memory b ≡ done (st, b')
      → is_ok st ≡ false
      → b'.store ≡ b.store
  handle_message-failure b st b' e failed = (kept b st b' e).atomic failed

  -- With a key equality that decides, if no call of the connections, of the clock and of the key
  -- type runs out of fuel, HandleMessage does not either, on any packet and any data store.
  pub handle_message-ends :
      (ends : Ends ⊥ keys conn timestamp) (b : Broker K C W)
      → handle_message keys conn timestamp order memory b ≢ out_of_fuel
  handle_message-ends ends b e =
      Ensures-stuck ⊥ (λ (t, c). Kept ⊥ keys equality conn timestamp ends b t c)
        (handle_message keys conn timestamp order memory b)
        (handle_message-Kept ⊥ keys equality conn timestamp ends order memory b) e

  -- What happens to the data store: the server handles a packet of any client, in any world, or the
  -- program around it removes a client's observers.
  pub data Step (s t : DataStore K (Subscription K C)) : Type 0 where
    handled :
        (b : Broker K C W) (st : Status) (b' : Broker K C W)
        → b.store ≡ s
        → handle_message keys conn timestamp order memory b ≡ done (st, b')
        → b'.store ≡ t
        → Step s t
    removed : (client : ℕ) → t ≡ remove_observers_for_client client s → Step s t

  pub data Reach (s : DataStore K (Subscription K C))
      : DataStore K (Subscription K C) → Type 0 where
    here : Reach s s
    next : {t u : DataStore K (Subscription K C)} → Reach s t → Step t u → Reach s u

  -- The entries of a data store form a well-formed map.
  abbrev pub IsStore : DataStore K (Subscription K C) → Type 0
  IsStore s = IsMap keys.same equality (notify keys conn) s.entries

  Step-IsStore :
      (s t : DataStore K (Subscription K C))
      → Exact (Unit {0}) conn
      → Step s t
      → IsStore s
      → IsStore t
  unfolding remove_observers_for_client
  Step-IsStore s t exact (handled b st b' e run e') h =
      rw (sym e') ((kept b st b' run).map exact (rw e h))
  Step-IsStore s t exact (removed client e) h = rw e h

  -- With a key equality that decides and connections whose reads give as many bytes as they were
  -- asked for, over any sequence of packets that HandleMessage has handled, whatever their bytes,
  -- their connections, the results and the world between them, and of calls of
  -- RemoveObserversForClient, the entries of the data store keep at most one entry to a key, and
  -- every entry its size.
  pub Reach-IsStore :
      {s t : DataStore K (Subscription K C)}
      → Exact (Unit {0}) conn
      → Reach s t
      → IsStore s
      → IsStore t
  Reach-IsStore exact here h = h
  Reach-IsStore exact (next r st) h = Step-IsStore _ _ exact st (Reach-IsStore exact r h)
