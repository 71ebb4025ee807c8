-- ===== src/Server/Fanout/Delivery.antt =====
-- A PUBLISH from its bytes on one connection to the bytes on the subscribers' sockets.
use gnat.Base.{ℕ, ◌*◌, ◌+◌, ◌/◌, ◌≤◌, ◌<◌, ◌≡◌, List, ◌∷◌, ◌++◌, [], true, length, bit_and, ◌==◌}
use gnat.Base.Outcome.{done, Prog}
use gnat.Buffer.Writes.{stored}
use gnat.Connection.{ClientConnection}
use gnat.DataStore.{DataStore, DataStoreEntry, get_entry}
use gnat.DataStore.Entries.{IsEquality}
use gnat.Fields.Channel.{Delivers}
use gnat.Header.{publish, packet_type}
use gnat.Key.{KeyType}
use gnat.Proto3.Connect.{Connect}
use gnat.Server.Fanout.{Network, IsSendable, deliveries, publish_packet, notify_loop-sends}
use gnat.Server.Handling.{handle_message}
use gnat.Server.Observer.{notify}
use gnat.Server.Publishing.{entry_of, handle_message-publish}
use gnat.Server.State.{Broker, Subscription, broker_waiting}
use gnat.Status.{ok_status}

module _ {K C W : Type 0} (keys : KeyType K) (conn : ClientConnection C W) (network : Network conn)
    (waiting : List ℕ → C × W) (delivers : Delivers conn.read waiting) (after : List ℕ)
    (control : ℕ) where
  -- On a network where each write puts its bytes behind what its socket was sent and leaves what
  -- waits to be read, a connection that delivers its bytes, a clock whose reading at that point
  -- does not change the world and a key equality that decides, HandleMessage on a PUBLISH packet
  -- of QoS 0 whose topic of at most 128 bytes has a key that decodes to that topic, and whose size
  -- fits an int and k + 1 groups of seven bits, k below 5, returns Ok; then Get gives the payload
  -- with its size and the time, the observers are those of before, and every socket has been sent
  -- exactly one PUBLISH packet of the topic and the payload for each observer on it whose matcher
  -- takes the key.
  pub handle_message-deliveries :
      (timestamp : Prog W ℕ) (order : List (K × DataStoreEntry) → List (K × DataStoreEntry))
      (memory : Connect) (equality : IsEquality keys.same) (store : DataStore K (Subscription K C))
      (high low : ℕ) (topic payload : List ℕ) (time : ℕ) (key : K) (k : ℕ)
      → packet_type (control / 16) ≡ publish
      → (bit_and (bit_and control 0xf / 2) 3 == 0) ≡ true
      → low < 256
      → high * 256 + low ≡ length topic
      → length topic ≤ 128
      → timestamp (waiting (payload ++ after)).1 ≡ done (time, (waiting (payload ++ after)).1)
      → keys.encode_key (stored 128 topic).data_ (length topic) ≡ done key
      → IsSendable keys conn network k key (stored 128 topic) (entry_of payload time)
      → (b' : Broker K C W) × (handle_message keys conn timestamp order memory
            (broker_waiting conn waiting control after store (high ∷ low ∷ topic ++ payload))
          ≡ done (ok_status, b'))
        × (get_entry keys.same (notify keys conn) key b'.store ≡ done (entry_of payload time))
        × (b'.store.observers ≡ store.observers)
        × ((n : ℕ)
            → network.sent n b'.world
              ≡ network.sent n (waiting after).1
                ++ deliveries keys conn network n key
                    (publish_packet keys conn network k (stored 128 topic) (entry_of payload time))
                    store.observers)
  handle_message-deliveries timestamp order memory equality store high low topic payload time key k
        is qos hl e fits ticks encodes sendable =
      let (w', told, grew, kept) =
        notify_loop-sends keys conn network k key (stored 128 topic) (entry_of payload time)
          sendable store.observers (waiting after).1 in
      let (store', ran, got, others, same) =
        handle_message-publish keys conn timestamp waiting delivers after control order memory
          equality store high low topic payload time key is qos hl e fits ticks encodes told in
      (
        record (broker_waiting conn waiting control after store []) { store = store'; world = w' },
        ran,
        got,
        same,
        grew,
      )
